-- ===== src/Downloads.antt =====
-- The download endpoints (app/routers/download.py): which snapshots they list, and which workbook
-- they answer with under which name. `compact` formats a day as `%Y%m%d`.
pub mod Range
mod Tests
use stock_quant_backend.Prelude.{
  ℕ, ◌+◌, ◌-◌, ◌*◌, Bool, true, false, ◌&&◌, ◌||◌, not, Option, none, some, List, [], ◌∷◌, ◌++◌,
  map, ltb, if◌then◌else◌,
}
use stock_quant_backend.Prelude.Text.{Text, codes, text_eq}
use stock_quant_backend.Http.{Result, ok, raise, unprocessable}
use stock_quant_backend.RateLimit.Client.{is_blank}
use stock_quant_backend.Users.{User, World}
use stock_quant_backend.Security.{Crypto, get_current_user}
use stock_quant_backend.Records.{Record, list_records}
use stock_quant_backend.Snapshots.{
  ScreenSnapshot, ScreenSnapshotItem, Coverage, get_snapshot_coverage, get_snapshot,
  get_snapshot_items, list_snapshots, list_snapshots_in_range,
}
use stock_quant_backend.Snapshots.Uploads.{is_session}
use stock_quant_backend.Mail.Messages.{concat}
use stock_quant_backend.Workbooks.{
  SheetCall, snapshot_to_xlsx, empty_snapshot_xlsx, snapshots_range_to_xlsx,
  empty_snapshots_range_xlsx, records_to_xlsx,
}

abbrev pub max_range_days : ℕ
max_range_days = 366

-- `GET …/coverage`, with the size on disk as the database tells it.
unfoldable pub snapshot_coverage : Option ℕ → List ScreenSnapshot → Coverage × Option ℕ
snapshot_coverage size snapshots = (get_snapshot_coverage snapshots, size)

pub record SnapshotMeta : Type 0 where
  pub trade_date : ℕ
  pub session : Text
  pub generated_at : ℕ
  pub source : Text
  pub universe : ℕ
  pub quotable : ℕ
  pub pool_size : ℕ
  pub item_count : ℕ
  pub warning : Option Text

abbrev pub meta_of : ScreenSnapshot → SnapshotMeta
meta_of s = record {
  trade_date = s.trade_date;
  session = s.session;
  generated_at = s.generated_at;
  source = s.source;
  universe = s.universe;
  quotable = s.quotable;
  pool_size = s.pool_size;
  item_count = s.item_count;
  warning = s.warning;
}

-- The session is left out or known.
abbrev pub may_filter : Option Text → Bool
may_filter none = true
may_filter (some session) = is_session session

-- The rows of `list_snapshots`; the session is looked at only with a range.
unfoldable pub listed :
    ℕ → Option ℕ → Option ℕ → Option Text → List ScreenSnapshot → Result (List ScreenSnapshot)
listed limit none none session snapshots = ok (list_snapshots limit snapshots)
listed limit none (some end) session snapshots = raise unprocessable
listed limit (some start) none session snapshots = raise unprocessable
listed limit (some start) (some end) session snapshots =
    if ltb end start
    then raise unprocessable
    else if not (may_filter session)
    then raise unprocessable
    else ok (list_snapshots_in_range start end session snapshots)

-- `GET …/snapshots`
unfoldable pub snapshots_response :
    ℕ → Option ℕ → Option ℕ → Option Text → List ScreenSnapshot → Result (List SnapshotMeta)
snapshots_response limit start end session snapshots =
    elim (listed limit start end session snapshots) [
      | raise e ↦ raise e
      | ok rows ↦ ok (map meta_of rows)
    ]

-- The name of the file and its sheet.
pub record Download (F : Type 0) : Type 0 where
  pub filename : Text
  pub calls : List (SheetCall F)

module _ {F D : Type 0} (to_float : D → F) (str date compact stamp : ℕ → Text) where
  abbrev pub snapshot_file : Text → Text → List (SheetCall F) → Download F
  snapshot_file span session calls = record {
    filename = concat (codes "screen_" ∷ span ∷ codes "_" ∷ session ∷ codes ".xlsx" ∷ []);
    calls = calls;
  }

  -- `GET …/snapshot.xlsx`
  unfoldable pub download_snapshot :
      ℕ → Text → List ScreenSnapshot → List (ScreenSnapshotItem D) → Result (Download F)
  download_snapshot day session snapshots items =
      if not (is_session session)
      then raise unprocessable
      else ok (
          snapshot_file (compact day) session (elim (get_snapshot day session snapshots) [
            | none ↦ empty_snapshot_xlsx (date day) session
            | some snap ↦
                snapshot_to_xlsx to_float str date stamp snap (get_snapshot_items snap.id items)
          ]))

  -- The items of each snapshot.
  unfoldable pub with_items :
      List (ScreenSnapshotItem D)
      → List ScreenSnapshot
      → List (ScreenSnapshot × List (ScreenSnapshotItem D))
  with_items items = map (λ s. (s, get_snapshot_items s.id items))

  -- `if not snaps: …`
  abbrev pub range_calls :
      ℕ → ℕ → Text → List (ScreenSnapshotItem D) → List ScreenSnapshot → List (SheetCall F)
  range_calls start end session items [] =
      empty_snapshots_range_xlsx (date start) (date end) session
  range_calls start end session items (s ∷ snaps) =
      snapshots_range_to_xlsx to_float str date stamp (with_items items (s ∷ snaps)) (date start)
        (date end) session

  -- `GET …/snapshots.xlsx`
  unfoldable pub download_snapshots_range :
      ℕ → ℕ → Text → List ScreenSnapshot → List (ScreenSnapshotItem D) → Result (Download F)
  download_snapshots_range start end session snapshots items =
      if not (is_session session)
      then raise unprocessable
      else if ltb end start
      then raise unprocessable
      else if ltb max_range_days (end - start)
      then raise unprocessable
      else ok (
          snapshot_file (concat (compact start ∷ codes "_" ∷ compact end ∷ [])) session (
            range_calls start end session items
              (list_snapshots_in_range start end (some session) snapshots)))

  -- `current_user.display_name or current_user.email`
  abbrev pub owner_of : User → Text
  owner_of u = elim u.display_name [
    | none ↦ u.email
    | some name ↦ if is_blank name then u.email else name
  ]

  -- `GET …/records.xlsx`
  unfoldable pub download_records :
      Crypto → ℕ → Option Text → World → List (Record D) → Result (Download F)
  download_records crypto now credentials w rows =
      elim (get_current_user crypto now credentials w) [
        | raise e ↦ raise e
        | ok u ↦ ok (record {
          filename = codes "my_records.xlsx";
          calls = records_to_xlsx to_float str date stamp now (list_records u.id rows) (owner_of u);
        })
      ]
