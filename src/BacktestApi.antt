-- ===== src/BacktestApi.antt =====
-- The backtest endpoints (app/routers/backtest.py): parsing and validating the query, and the run.
-- `int` is Python's, on a string, with `none` for its `ValueError`; `today` is `date.today()`.
pub mod Parsing
pub mod Answers
pub mod Limits
pub mod Endpoint
pub mod File
mod Tests
use stock_quant_backend.Prelude.{
  ℕ, ◌+◌, ◌-◌, ◌*◌, Bool, true, false, ◌&&◌, ◌||◌, not, Option, none, some, List, [], ◌∷◌, any, ltb,
  if◌then◌else◌,
}
use stock_quant_backend.Prelude.Text.{Text, codes, text_eq, strip}
use stock_quant_backend.Prelude.Split.{split}
use stock_quant_backend.Http.{Result, ok, raise, unprocessable}
use stock_quant_backend.Snapshots.{
  ScreenSnapshot, ScreenSnapshotItem, Coverage, get_snapshot_coverage,
}
use stock_quant_backend.Prices.{DailyPrice, PriceCoverage, get_price_coverage}
use stock_quant_backend.Backtest.{
  ℤ, pos, negsuc, Mode, intraday_to_close, close_to_close, is_close_to_close, Floats,
  BacktestResponse,
}
use stock_quant_backend.Backtest.Run.{Query, run_backtest}

abbrev pub max_range_days : ℕ
max_range_days = 366 * 5

abbrev pub max_detail_rows : ℕ
max_detail_rows = 5000

-- `DEFAULT_HORIZONS`
abbrev pub default_horizons : List ℤ
default_horizons = pos 1 ∷ pos 2 ∷ pos 3 ∷ pos 5 ∷ pos 10 ∷ pos 20 ∷ []

module _ (int : Text → Option ℤ) where
  -- One round of the loop; a blank part is skipped.
  unfoldable pub parse_part : Text → Result (List ℤ) → Result (List ℤ)
  parse_part [] rest = rest
  parse_part (c ∷ part) rest = elim (int (c ∷ part)) [
    | none ↦ raise unprocessable
    | some n ↦ elim rest [ raise e ↦ raise e | ok values ↦ ok (n ∷ values) ]
  ]

  unfoldable pub parse_parts : List Text → Result (List ℤ)
  parse_parts [] = ok []
  parse_parts (part ∷ parts) = parse_part (strip part) (parse_parts parts)

  -- `if not values: raise …`
  abbrev pub some_values : Result (List ℤ) → Result (List ℤ)
  some_values (raise e) = raise e
  some_values (ok []) = raise unprocessable
  some_values (ok (n ∷ values)) = ok (n ∷ values)

  -- `if not raw.strip()`: `s` is the stripped text.
  abbrev pub parse_stripped : Text → Text → Result (List ℤ)
  parse_stripped raw [] = ok default_horizons
  parse_stripped raw (c ∷ s) = some_values (parse_parts (split 44 raw))

  unfoldable pub parse_horizons : Option Text → Result (List ℤ)
  parse_horizons none = ok default_horizons
  parse_horizons (some raw) = parse_stripped raw (strip raw)

-- `given or known or today`
abbrev pub first_of : Option ℕ → Option ℕ → ℕ → ℕ
first_of (some d) known today = d
first_of none (some d) today = d
first_of none none today = today

unfoldable pub check_range : ℕ → ℕ → Result (ℕ × ℕ)
check_range start end =
    if ltb end start
    then raise unprocessable
    else if ltb max_range_days (end - start)
    then raise unprocessable
    else ok (start, end)

unfoldable pub resolve_range : ℕ → Option ℕ → Option ℕ → List ScreenSnapshot → Result (ℕ × ℕ)
resolve_range today start end snapshots =
    let coverage = get_snapshot_coverage snapshots in
    check_range (first_of start coverage.min_date today) (first_of end coverage.max_date today)

unfoldable pub validated_mode : Text → Result Mode
validated_mode mode =
    if text_eq mode (codes "intraday_to_close")
    then ok intraday_to_close
    else if text_eq mode (codes "close_to_close")
    then ok close_to_close
    else raise unprocessable

abbrev pub below_one : ℤ → Bool
below_one (pos n) = ltb n 1
below_one (negsuc n) = true

-- The query's parameters. `detail_limit` is one that `ge=0, le=_MAX_DETAIL_ROWS` lets through.
pub record Params : Type 0 where
  pub mode : Text
  pub start : Option ℕ
  pub end : Option ℕ
  pub horizons : Option Text
  pub detail_n : Option ℤ
  pub detail_limit : ℕ
  pub detail_sort : Text
  pub detail_order : Text

abbrev pub query : Params → Mode → ℕ × ℕ → List ℤ → Query
query p mode (start, end) horizons = record {
  mode = mode;
  start = start;
  end = end;
  horizons = horizons;
  detail_n = p.detail_n;
  detail_limit = pos p.detail_limit;
  detail_sort = p.detail_sort;
  detail_order = p.detail_order;
}

module _ {F D : Type 0} (fl : Floats F) (to_float : D → F) (int : Text → Option ℤ) (today : ℕ) where
  -- From the check of the mode's horizons on.
  unfoldable pub run_parsed :
      Params
      → Mode
      → ℕ × ℕ
      → List ℤ
      → List ScreenSnapshot
      → List (ScreenSnapshotItem D)
      → List (DailyPrice D)
      → Result (BacktestResponse F)
  run_parsed p mode range horizons snapshots items rows =
      if is_close_to_close mode && any below_one horizons
      then raise unprocessable
      else run_backtest fl to_float (query p mode range horizons) snapshots items rows

  -- `_run`, which both endpoints call.
  unfoldable pub run :
      Params
      → List ScreenSnapshot
      → List (ScreenSnapshotItem D)
      → List (DailyPrice D)
      → Result (BacktestResponse F)
  run p snapshots items rows = elim (validated_mode p.mode) [
    | raise e ↦ raise e
    | ok mode ↦ elim (resolve_range today p.start p.end snapshots) [
      | raise e ↦ raise e
      | ok range ↦ elim (parse_horizons int p.horizons) [
        | raise e ↦ raise e
        | ok horizons ↦ run_parsed p mode range horizons snapshots items rows
      ]
    ]
  ]

-- `GET /backtestapi/coverage`; the size on disk is what the database tells.
pub record BacktestCoverage : Type 0 where
  pub snapshots : Coverage
  pub db_size_bytes : Option ℕ
  pub prices : PriceCoverage

unfoldable pub backtest_coverage :
    {D : Type 0} → Option ℕ → List ScreenSnapshot → List (DailyPrice D) → BacktestCoverage
backtest_coverage size snapshots rows = record {
  snapshots = get_snapshot_coverage snapshots;
  db_size_bytes = size;
  prices = get_price_coverage rows;
}
