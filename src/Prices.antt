-- ===== src/Prices.antt =====
-- Whole-market daily bars: `DailyPrice` (app/models.py), the ingest bodies (app/schemas.py), the
-- price queries of app/crud.py and `ingest_prices` (app/routers/ingest.py). A date is its ordinal
-- number of days. `F` is the type of floats and `D` that of the decimal columns.
pub mod Additive
pub mod Loading
pub mod Chunks
pub mod Calendar
mod Tests
use stock_quant_backend.Prelude.{
  ℕ, suc, zero, ◌+◌, ◌-◌, Bool, true, false, ◌&&◌, ◌||◌, not, Option, none, some, List, [], ◌∷◌,
  ◌++◌, map, leb, ltb, ◌==◌, if◌then◌else◌, find, select, any, count, length, take, drop,
}
use mathlib.Core.Option
use stock_quant_backend.Prelude.Text.{Text, text_eq, text_leb}
use stock_quant_backend.Prelude.Order.{sort_by, distinct, earliest, latest}

pub record DailyPrice (D : Type 0) : Type 0 where
  pub trade_date : ℕ
  pub symbol : Text
  pub name : Text
  pub market_code : Text
  pub open_price : Option D
  pub high : Option D
  pub low : Option D
  pub close : D
  pub volume : Option ℕ

pub record DailyPriceIn (F : Type 0) : Type 0 where
  pub symbol : Text
  pub name : Text
  pub market_code : Text
  pub open_price : Option F
  pub high : Option F
  pub low : Option F
  pub close : Option F
  pub volume : Option ℕ

pub record DailyPricesIngestBody (F : Type 0) : Type 0 where
  pub trade_date : ℕ
  pub items : List (DailyPriceIn F)

pub record DailyPricesIngestResult : Type 0 where
  pub trade_date : ℕ
  pub received : ℕ
  pub inserted : ℕ
  pub updated : ℕ
  pub skipped : ℕ

-- `item.name or (row.name if row.name else "")`
abbrev pub or_else : Text → Text → Text
or_else [] old = old
or_else (c ∷ s) old = c ∷ s

module _ {D : Type 0} where
  -- The primary key.
  abbrev pub at_key : ℕ → Text → DailyPrice D → Bool
  at_key day symbol r = r.trade_date == day && text_eq r.symbol symbol

  -- Two new rows with one key, on which the commit fails.
  unfoldable pub has_duplicate : List (DailyPrice D) → Bool
  has_duplicate [] = false
  has_duplicate (r ∷ rows) = any (at_key r.trade_date r.symbol) rows || has_duplicate rows

  unfoldable pub find_price : ℕ → Text → List (DailyPrice D) → Option (DailyPrice D)
  find_price day symbol = find (at_key day symbol)

  -- `SELECT … WHERE trade_date = day AND symbol IN chunk`
  abbrev pub close_query : ℕ → List Text → List (DailyPrice D) → List (DailyPrice D)
  close_query day chunk = select (λ r. r.trade_date == day && any (λ s. text_eq s r.symbol) chunk)

  unfoldable pub list_price_trading_days : List (DailyPrice D) → List ℕ
  list_price_trading_days rows = sort_by leb (distinct (map (λ r. r.trade_date) rows))

module _ {F D : Type 0} (to_decimal : F → D) where
  -- The assignments of the loop's body; `c` is `item.close`.
  abbrev pub fill_bar : DailyPriceIn F → F → DailyPrice D → DailyPrice D
  fill_bar item c r = record r {
    name = or_else item.name r.name;
    market_code = or_else item.market_code r.market_code;
    open_price = Option.map to_decimal item.open_price;
    high = Option.map to_decimal item.high;
    low = Option.map to_decimal item.low;
    close = to_decimal c;
    volume = item.volume;
  }

  abbrev pub new_bar : ℕ → DailyPriceIn F → F → DailyPrice D
  new_bar day item c = record {
    trade_date = day;
    symbol = item.symbol;
    name = or_else item.name [];
    market_code = or_else item.market_code [];
    open_price = Option.map to_decimal item.open_price;
    high = Option.map to_decimal item.high;
    low = Option.map to_decimal item.low;
    close = to_decimal c;
    volume = item.volume;
  }

  -- The stored rows, the rows to insert, and the two counters.
  pub record Progress : Type 0 where
    pub stored : List (DailyPrice D)
    pub added : List (DailyPrice D)
    pub inserted : ℕ
    pub updated : ℕ

  -- One round of the loop. `existing` holds the rows read before it, so a row that the loop added
  -- is not found.
  unfoldable pub upsert_item : ℕ → DailyPriceIn F → Progress → Progress
  upsert_item day item p = elim item.close [
    | none ↦ p
    | some c ↦
        if any (at_key day item.symbol) p.stored
        then record p {
          stored = map (λ r. if at_key day item.symbol r then fill_bar item c r else r) p.stored;
          updated = p.updated + 1;
        }
        else record p { added = p.added ++ new_bar day item c ∷ []; inserted = p.inserted + 1 }
  ]

  unfoldable pub upsert_items : ℕ → List (DailyPriceIn F) → Progress → Progress
  upsert_items day [] p = p
  upsert_items day (item ∷ items) p = upsert_items day items (upsert_item day item p)

  abbrev pub started : List (DailyPrice D) → Progress
  started rows = record { stored = rows; added = []; inserted = 0; updated = 0 }

  -- (inserted, updated) and the table, or `none` for the `IntegrityError` of the commit.
  unfoldable pub upsert_daily_prices :
      DailyPricesIngestBody F → List (DailyPrice D) → Option (ℕ × ℕ × List (DailyPrice D))
  upsert_daily_prices body rows =
      let p = upsert_items body.trade_date body.items (started rows) in
      if has_duplicate p.added then none else some (p.inserted, p.updated, p.stored ++ p.added)

  unfoldable pub ingest_prices :
      DailyPricesIngestBody F
      → List (DailyPrice D)
      → Option (DailyPricesIngestResult × List (DailyPrice D))
  ingest_prices body rows = elim (upsert_daily_prices body rows) [
    | none ↦ none
    | some (inserted, updated, rows') ↦ some (
      record {
        trade_date = body.trade_date;
        received = length body.items;
        inserted = inserted;
        updated = updated;
        skipped = length body.items - inserted - updated;
      },
      rows',
    )
  ]

-- A dictionary keyed by (symbol, date).
abbrev pub CloseMap : Type 0 → Type 0
CloseMap F = Text → ℕ → Option F

abbrev pub symbol_chunk : ℕ
symbol_chunk = 500

-- `sorted({s for s in symbols if s})`
unfoldable pub unique_symbols : List Text → List Text
unique_symbols [] = []
unique_symbols ([] ∷ symbols) = unique_symbols symbols
unique_symbols ((c ∷ s) ∷ symbols) =
    (c ∷ s) ∷ select (λ t. not (text_eq t (c ∷ s))) (unique_symbols symbols)

module _ {F D : Type 0} (to_float : D → F) where
  -- The rows of one statement written into `out`.
  unfoldable pub store_closes : List (DailyPrice D) → CloseMap F → CloseMap F
  store_closes [] out = out
  store_closes (r ∷ rows) out = store_closes rows (λ symbol day.
      if r.trade_date == day && text_eq r.symbol symbol
      then some (to_float r.close)
      else out symbol day)

  -- `for i in range(0, len(unique), size)`; the fuel is the number of symbols.
  unfoldable pub load_chunks : ℕ → ℕ → ℕ → List Text → List (DailyPrice D) → CloseMap F → CloseMap F
  load_chunks zero size day symbols rows out = out
  load_chunks (suc fuel) size day [] rows out = out
  load_chunks (suc fuel) size day (s ∷ symbols) rows out =
      load_chunks fuel size day (drop size (s ∷ symbols)) rows
        (store_closes (close_query day (take size (s ∷ symbols)) rows) out)

  unfoldable pub load_days :
      ℕ → List (ℕ × List Text) → List (DailyPrice D) → CloseMap F → CloseMap F
  load_days size [] rows out = out
  load_days size ((day, symbols) ∷ wanted) rows out =
      let unique = sort_by text_leb (unique_symbols symbols) in
      load_days size wanted rows (load_chunks (length unique) size day unique rows out)

  unfoldable pub load_close_prices : List (ℕ × List Text) → List (DailyPrice D) → CloseMap F
  load_close_prices wanted rows = load_days symbol_chunk wanted rows (λ symbol day. none)

-- (earliest day, latest day, distinct days, rows, distinct symbols), and nothing for an empty table.
pub record PriceCoverage : Type 0 where
  pub min_date : Option ℕ
  pub max_date : Option ℕ
  pub trading_days : ℕ
  pub total_rows : ℕ
  pub symbols : ℕ

-- `COUNT(DISTINCT symbol)`
unfoldable pub distinct_texts : List Text → List Text
distinct_texts [] = []
distinct_texts (s ∷ ss) = s ∷ select (λ t. not (text_eq t s)) (distinct_texts ss)

unfoldable pub get_price_coverage : {D : Type 0} → List (DailyPrice D) → PriceCoverage
get_price_coverage rows =
    let days = map (λ r. r.trade_date) rows in
    record {
      min_date = earliest days;
      max_date = latest days;
      trading_days = length (distinct days);
      total_rows = length rows;
      symbols = length (distinct_texts (map (λ r. r.symbol) rows));
    }
