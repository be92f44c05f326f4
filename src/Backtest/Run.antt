-- ===== src/Backtest/Run.antt =====
-- `run_backtest` as a whole (app/backtest.py).
use stock_quant_backend.Prelude.{
  ℕ, not, Option, none, some, List, [], ◌∷◌, map, if◌then◌else◌, length, take,
}
use stock_quant_backend.Prelude.Text.{Text}
use stock_quant_backend.Http.{unprocessable, index_error, Result, ok, raise}
use stock_quant_backend.Prices.{DailyPrice, list_price_trading_days, load_close_prices}
use stock_quant_backend.Prelude.Order.{distinct}
use stock_quant_backend.Snapshots.{ScreenSnapshot, ScreenSnapshotItem}
use stock_quant_backend.Backtest.{
  ℤ, pos, negsuc, Mode, normalize_horizons, Floats, BacktestHorizonStat, BacktestDetailRow, Warning,
  no_entries, no_prices, BacktestResponse, Entry, mode_session,
}
use stock_quant_backend.Backtest.Engine.{
  collect_entries, want_all, Tally, run_entries, no_tally, sort_detail, summarize, coverage_warning,
  is_sort_key, is_order, detail_of,
}

-- The parameters of the request.
pub record Query : Type 0 where
  pub mode : Mode
  pub start : ℕ
  pub end : ℕ
  pub horizons : List ℤ
  pub detail_n : Option ℤ
  pub detail_limit : ℤ
  pub detail_sort : Text
  pub detail_order : Text

abbrev pub blank_stat : {F : Type 0} → ℕ → ℕ → BacktestHorizonStat F
blank_stat n missing = record {
  n = n;
  samples = 0;
  missing = missing;
  wins = 0;
  losses = 0;
  flat = 0;
  win_rate = none;
  avg_return_pct = none;
  median_return_pct = none;
  best_return_pct = none;
  worst_return_pct = none;
}

-- `detail[:detail_limit]`, and all rows if the limit is negative.
abbrev pub limited : {F : Type 0} → ℤ → List (BacktestDetailRow F) → List (BacktestDetailRow F)
limited (pos n) rows = take n rows
limited (negsuc n) rows = rows

module _ {F : Type 0} (fl : Floats F) (q : Query) (horizons : List ℕ) (detail_n : ℕ)
    (entries : List (Entry F)) where
  -- The answer without results.
  abbrev pub empty : Option Warning → BacktestResponse F
  empty warning = record {
    mode = q.mode;
    session = mode_session q.mode;
    start = q.start;
    end = q.end;
    horizons = horizons;
    entries = length entries;
    trading_days = length (distinct (map (λ e. e.trade_date) entries));
    summary = map (λ n. blank_stat n (length entries)) horizons;
    detail_n = detail_n;
    detail_total = 0;
    detail_sort = q.detail_sort;
    detail_order = q.detail_order;
    detail = [];
    warning = warning;
  }

  abbrev pub report : Tally F → Option Warning → BacktestResponse F
  report t warning =
      let detail = sort_detail fl q.detail_sort q.detail_order t.detail in
      record (empty warning) {
        summary = map (λ n. summarize fl n (t.returns n) (t.missing n)) horizons;
        detail_total = length detail;
        detail = limited q.detail_limit detail;
      }

  module _ {D : Type 0} (to_float : D → F) (rows : List (DailyPrice D)) where
    -- The loop on the prices fetched for it.
    unfoldable pub tally : List ℕ → Tally F
    tally calendar =
        run_entries fl q.mode calendar horizons detail_n
          (load_close_prices to_float (want_all q.mode calendar horizons entries []) rows) entries
          no_tally

    unfoldable pub answer_on : List ℕ → BacktestResponse F
    answer_on [] = empty (some no_prices)
    answer_on (first ∷ calendar) =
        let t = tally (first ∷ calendar) in
        report t (coverage_warning entries first calendar horizons t.missing)

    -- The answer on a calendar, with its two early returns.
    unfoldable pub answer : List ℕ → BacktestResponse F
    answer calendar = elim entries [ [] ↦ empty (some no_entries) | e ∷ es ↦ answer_on calendar ]

module _ {F D : Type 0} (fl : Floats F) (to_float : D → F) where
  unfoldable pub run_horizons :
      Query
      → List ScreenSnapshot
      → List (ScreenSnapshotItem D)
      → List (DailyPrice D)
      → List ℕ
      → Result (BacktestResponse F)
  run_horizons q snapshots items rows [] = raise index_error
  run_horizons q snapshots items rows (n ∷ ns) = ok (
      answer fl q (n ∷ ns) (detail_of q.detail_n n ns)
        (collect_entries to_float q.start q.end (mode_session q.mode) snapshots items) to_float rows
        (list_price_trading_days rows))

  unfoldable pub run_backtest :
      Query
      → List ScreenSnapshot
      → List (ScreenSnapshotItem D)
      → List (DailyPrice D)
      → Result (BacktestResponse F)
  run_backtest q snapshots items rows =
      if not (is_sort_key q.detail_sort)
      then raise unprocessable
      else if not (is_order q.detail_order)
      then raise unprocessable
      else elim (normalize_horizons q.horizons) [
        | raise e ↦ raise e
        | ok horizons ↦ run_horizons q snapshots items rows horizons
      ]
