-- ===== src/Snapshots.antt =====
-- Screening snapshots: `ScreenSnapshot` and `ScreenSnapshotItem` (app/models.py), the ingest body
-- (app/schemas.py), the snapshot functions of app/crud.py, and `ingest_snapshot`
-- (app/routers/ingest.py). `F` is the type of floats and `D` that of the decimal columns.
pub mod Archive
pub mod Effect
pub mod Stays
pub mod Uploads
mod Tests
use stock_quant_backend.Prelude.{
  ℕ, ◌+◌, Bool, true, false, ◌&&◌, ◌||◌, not, Option, none, some, List, [], ◌∷◌, ◌++◌, map, leb,
  ltb, ◌==◌, select, find, take, length, if◌then◌else◌, min, max,
}
use mathlib.Core.Option
use stock_quant_backend.Prelude.Text.{Text, codes, text_eq, text_leb}
use stock_quant_backend.Prelude.Order.{sort_by, distinct, earliest, latest}
use stock_quant_backend.Http.{Result, ok, raise, unprocessable}

pub record ScreenSnapshot : Type 0 where
  pub id : ℕ
  pub trade_date : ℕ
  pub session : Text
  pub generated_at : ℕ
  pub source : Text
  pub universe : ℕ
  pub quotable : ℕ
  pub pool_size : ℕ
  pub item_count : ℕ
  pub warning : Option Text
  pub created_at : ℕ

pub record ScreenSnapshotItem (D : Type 0) : Type 0 where
  pub id : ℕ
  pub snapshot_id : ℕ
  pub rank : ℕ
  pub symbol : Text
  pub name : Text
  pub market : Text
  pub market_code : Text
  pub close : Option D
  pub prev_close : Option D
  pub change : Option D
  pub change_pct : Option D
  pub volume : Option ℕ
  pub lots : Option D
  pub open_price : Option D
  pub high : Option D
  pub low : Option D
  pub prev_high : Option D
  pub vol_ratio : Option D
  pub ma5 : Option D
  pub ma20 : Option D
  pub ma20_up : Bool

abbrev pub in_query : ℕ → ℕ → Text → ScreenSnapshot → Bool
in_query start end session s =
    leb start s.trade_date && leb s.trade_date end && text_eq s.session session

module _ {D : Type 0} where
  -- `ORDER BY trade_date, rank`
  abbrev pub entry_leb : ℕ × ScreenSnapshotItem D → ℕ × ScreenSnapshotItem D → Bool
  entry_leb (d, i) (e, j) = ltb d e || (d == e && leb i.rank j.rank)

  -- The join on `snapshot_id`.
  unfoldable pub join_items :
      List ScreenSnapshot → List (ScreenSnapshotItem D) → List (ℕ × ScreenSnapshotItem D)
  join_items [] items = []
  join_items (s ∷ snapshots) items =
      map (λ i. (s.trade_date, i)) (select (λ i. i.snapshot_id == s.id) items)
      ++ join_items snapshots items

  unfoldable pub list_snapshot_entries :
      ℕ
      → ℕ
      → Text
      → List ScreenSnapshot
      → List (ScreenSnapshotItem D)
      → List (ℕ × ScreenSnapshotItem D)
  list_snapshot_entries start end session snapshots items =
      sort_by entry_leb (join_items (select (in_query start end session) snapshots) items)

pub record SnapshotItemIn (F : Type 0) : Type 0 where
  pub rank : ℕ
  pub symbol : Text
  pub name : Text
  pub market : Text
  pub market_code : Text
  pub close : Option F
  pub prev_close : Option F
  pub change : Option F
  pub change_pct : Option F
  pub volume : Option ℕ
  pub lots : Option F
  pub open_price : Option F
  pub high : Option F
  pub low : Option F
  pub prev_high : Option F
  pub vol_ratio : Option F
  pub ma5 : Option F
  pub ma20 : Option F
  pub ma20_up : Bool

pub record SnapshotIngestBody (F : Type 0) : Type 0 where
  pub trade_date : ℕ
  pub session : Text
  pub generated_at : ℕ
  pub source : Text
  pub universe : ℕ
  pub quotable : ℕ
  pub pool_size : ℕ
  pub warning : Option Text
  pub items : List (SnapshotItemIn F)

pub record IngestResult : Type 0 where
  pub trade_date : ℕ
  pub session : Text
  pub item_count : ℕ
  pub replaced : Bool

abbrev pub has_session : ℕ → Text → ScreenSnapshot → Bool
has_session day session s = s.trade_date == day && text_eq s.session session

unfoldable pub get_snapshot : ℕ → Text → List ScreenSnapshot → Option ScreenSnapshot
get_snapshot day session = find (has_session day session)

-- `ORDER BY trade_date DESC, session LIMIT limit`
unfoldable pub list_snapshots : ℕ → List ScreenSnapshot → List ScreenSnapshot
list_snapshots limit snapshots = take limit (
    sort_by
      (λ r s.
        ltb s.trade_date r.trade_date
        || (r.trade_date == s.trade_date && text_leb r.session s.session))
      snapshots)

-- The filter of one session, if there is one.
abbrev pub in_session : Option Text → ScreenSnapshot → Bool
in_session none s = true
in_session (some session) s = text_eq s.session session

unfoldable pub list_snapshots_in_range :
    ℕ → ℕ → Option Text → List ScreenSnapshot → List ScreenSnapshot
list_snapshots_in_range start end session snapshots =
    sort_by
      (λ r s.
        ltb r.trade_date s.trade_date
        || (r.trade_date == s.trade_date && text_leb r.session s.session))
      (select (λ s. leb start s.trade_date && leb s.trade_date end && in_session session s)
        snapshots)

module _ {D : Type 0} where
  unfoldable pub get_snapshot_items : ℕ → List (ScreenSnapshotItem D) → List (ScreenSnapshotItem D)
  get_snapshot_items snapshot_id items =
      sort_by (λ i j. leb i.rank j.rank) (select (λ i. i.snapshot_id == snapshot_id) items)

module _ {F D : Type 0} (to_decimal : F → D) where
  abbrev pub new_item : ℕ → ℕ → SnapshotItemIn F → ScreenSnapshotItem D
  new_item id snapshot_id item = record {
    id = id;
    snapshot_id = snapshot_id;
    rank = item.rank;
    symbol = item.symbol;
    name = item.name;
    market = item.market;
    market_code = item.market_code;
    close = Option.map to_decimal item.close;
    prev_close = Option.map to_decimal item.prev_close;
    change = Option.map to_decimal item.change;
    change_pct = Option.map to_decimal item.change_pct;
    volume = item.volume;
    lots = Option.map to_decimal item.lots;
    open_price = Option.map to_decimal item.open_price;
    high = Option.map to_decimal item.high;
    low = Option.map to_decimal item.low;
    prev_high = Option.map to_decimal item.prev_high;
    vol_ratio = Option.map to_decimal item.vol_ratio;
    ma5 = Option.map to_decimal item.ma5;
    ma20 = Option.map to_decimal item.ma20;
    ma20_up = item.ma20_up;
  }

  -- The new rows; each draws the next id.
  unfoldable pub new_items : ℕ → ℕ → List (SnapshotItemIn F) → List (ScreenSnapshotItem D)
  new_items id snapshot_id [] = []
  new_items id snapshot_id (item ∷ items) =
      new_item id snapshot_id item ∷ new_items (id + 1) snapshot_id items

  abbrev pub fill_snapshot : SnapshotIngestBody F → ScreenSnapshot → ScreenSnapshot
  fill_snapshot body s = record s {
    generated_at = body.generated_at;
    source = body.source;
    universe = body.universe;
    quotable = body.quotable;
    pool_size = body.pool_size;
    warning = body.warning;
    item_count = length body.items;
  }

  abbrev pub new_snapshot : ℕ → ℕ → SnapshotIngestBody F → ScreenSnapshot
  new_snapshot now id body = fill_snapshot body (record {
    id = id;
    trade_date = body.trade_date;
    session = body.session;
    generated_at = body.generated_at;
    source = [];
    universe = 0;
    quotable = 0;
    pool_size = 0;
    item_count = 0;
    warning = none;
    created_at = now;
  })

  -- The snapshot, whether it replaced one, and the two tables. `id` and `item_id` are fresh ids.
  unfoldable pub upsert_snapshot :
      ℕ
      → ℕ
      → ℕ
      → SnapshotIngestBody F
      → List ScreenSnapshot
      → List (ScreenSnapshotItem D)
      → ScreenSnapshot × Bool × List ScreenSnapshot × List (ScreenSnapshotItem D)
  upsert_snapshot now id item_id body snapshots items =
      elim (get_snapshot body.trade_date body.session snapshots) [
        | none ↦
            let s = new_snapshot now id body in
            (s, false, snapshots ++ s ∷ [], items ++ new_items item_id s.id body.items)
        | some s ↦ (
          fill_snapshot body s,
          true,
          map (λ r. if r.id == s.id then fill_snapshot body r else r) snapshots,
          select (λ i. not (i.snapshot_id == s.id)) items ++ new_items item_id s.id body.items,
        )
      ]

  -- `POST …/snapshot`; a session that is not one of `SESSIONS` is the 422.
  unfoldable pub ingest_snapshot :
      ℕ
      → ℕ
      → ℕ
      → SnapshotIngestBody F
      → List ScreenSnapshot
      → List (ScreenSnapshotItem D)
      → Result IngestResult × List ScreenSnapshot × List (ScreenSnapshotItem D)
  ingest_snapshot now id item_id body snapshots items =
      if text_eq body.session (codes "intraday_1300") || text_eq body.session (codes "eod")
      then (let (s, replaced, snapshots', items') =
            upsert_snapshot now id item_id body snapshots items in
          (
            ok (record {
              trade_date = s.trade_date;
              session = s.session;
              item_count = s.item_count;
              replaced = replaced;
            }),
            snapshots',
            items',
          ))
      else (raise unprocessable, snapshots, items)

-- (earliest day, latest day, distinct days, snapshots) of the whole table.
pub record Coverage : Type 0 where
  pub min_date : Option ℕ
  pub max_date : Option ℕ
  pub trading_days : ℕ
  pub total : ℕ

unfoldable pub get_snapshot_coverage : List ScreenSnapshot → Coverage
get_snapshot_coverage snapshots =
    let days = map (λ s. s.trade_date) snapshots in
    record {
      min_date = earliest days;
      max_date = latest days;
      trading_days = length (distinct days);
      total = length snapshots;
    }
