-- ===== src/Backtest/Tests.antt =====
-- Examples of the backtest: one screened stock, its bars on three days, and the horizons 1 and 5.
use stock_quant_backend.Prelude.{
  ℕ, suc, ◌-◌, ◌≡◌, refl, false, none, some, List, [], ◌∷◌, if◌then◌else◌, any, leb, ltb, ◌==◌,
  get_elem?, map, arith, ℕ_discrete,
}
use stock_quant_backend.Prelude.Text.{Text, codes, text_dec, text_leb}
use stock_quant_backend.Http.{ok}
use stock_quant_backend.Prices.{
  DailyPrice, load_close_prices, load_days, load_chunks, store_closes, unique_symbols,
  list_price_trading_days,
}
use stock_quant_backend.Snapshots.{
  list_snapshot_entries, join_items, ScreenSnapshot, ScreenSnapshotItem,
}
use stock_quant_backend.Backtest.{
  Entry, ℤ, pos, Floats, intraday_to_close, nth_trading_day, bisect_left, bisect_right, want,
  normalize_horizons, BacktestResponse,
}
use stock_quant_backend.Backtest.Calendar.{later, nth_trading_day_lem}
use stock_quant_backend.Backtest.Horizons.{IsAccepted, normalize_horizons_lem}
use stock_quant_backend.Prices.Loading.{IsTable}
use stock_quant_backend.Backtest.Prefetch.{direct_lookup, tally_prefetch}
use stock_quant_backend.Backtest.Ordering.{days_compare}
use stock_quant_backend.Backtest.Settled.{settled_rows}
use stock_quant_backend.Backtest.Ranking.{IsRanked, run_backtest-IsRanked}
use stock_quant_backend.Backtest.Accounts.{HasSigns, Accounts, run_backtest-Accounts}
use stock_quant_backend.Backtest.Run.{Query, run_backtest, run_horizons, answer, answer_on, tally}
use stock_quant_backend.Backtest.Engine.{
  no_tally, collect_entries, collect_entry, run_entries, run_entry, entry_price_of, exit_of,
  settle_all, settle_one, miss_all, want_all, want_exits, want_entry, summarize, sort_detail,
  detail_leb,
}
use stock_quant_backend.Prelude.Order.{distinct, sort_by, insert_by}

abbrev days : List ℕ
days = 10 ∷ 12 ∷ 13 ∷ []

-- From a day that is not in the calendar.
nth_trading_day_example :
    (nth_trading_day days 11 0 ≡ (if any (λ d. d == 11) days then some 11 else none))
    × ((n : ℕ) → nth_trading_day days 11 (suc n) ≡ get_elem? (later 11 days) n)
nth_trading_day_example =
    nth_trading_day_lem days 11 ((omega arith, (omega arith, tt)), ((omega arith, tt), (tt, tt)))

abbrev asked : List ℤ
asked = pos 5 ∷ pos 1 ∷ pos 5 ∷ []

accepts : normalize_horizons asked ≡ ok (1 ∷ 5 ∷ [])
unfolding normalize_horizons distinct sort_by insert_by
accepts = refl

normalize_horizons_example : IsAccepted asked (1 ∷ 5 ∷ [])
normalize_horizons_example = normalize_horizons_lem asked (1 ∷ 5 ∷ []) accepts

-- Whole numbers for floats.
abbrev whole : Floats ℕ
whole = record {
  sub = λ a b. a - b;
  percent = λ a b. a;
  positive = λ a. ltb 0 a;
  at_most_zero = λ a. leb a 0;
  negative = λ a. false;
  same = λ a b. a == b;
  less = λ a b. ltb a b;
  round = λ a d. a;
  ratio = λ a b. a;
  fmean = λ xs. 0;
  median = λ xs. 0;
  greatest = λ xs. 0;
  least = λ xs. 0;
}

whole-HasSigns : HasSigns whole
whole-HasSigns x h = refl

abbrev tsmc : Text
tsmc = 50 ∷ []

abbrev bar : ℕ → ℕ → DailyPrice ℕ
bar day close = record {
  trade_date = day;
  symbol = tsmc;
  name = [];
  market_code = [];
  open_price = none;
  high = none;
  low = none;
  close = close;
  volume = none;
}

abbrev bars : List (DailyPrice ℕ)
bars = bar 10 500 ∷ bar 12 510 ∷ bar 13 520 ∷ []

abbrev snapshot : ScreenSnapshot
snapshot = record {
  id = 1;
  trade_date = 10;
  session = codes "intraday_1300";
  generated_at = 0;
  source = [];
  universe = 0;
  quotable = 0;
  pool_size = 0;
  item_count = 1;
  warning = none;
  created_at = 0;
}

abbrev screened : ScreenSnapshotItem ℕ
screened = record {
  id = 1;
  snapshot_id = 1;
  rank = 1;
  symbol = tsmc;
  name = [];
  market = [];
  market_code = [];
  close = some 505;
  prev_close = none;
  change = none;
  change_pct = none;
  volume = none;
  lots = none;
  open_price = none;
  high = none;
  low = none;
  prev_high = none;
  vol_ratio = none;
  ma5 = none;
  ma20 = none;
  ma20_up = false;
}

abbrev query : Query
query = record {
  mode = intraday_to_close;
  start = 1;
  end = 20;
  horizons = asked;
  detail_n = none;
  detail_limit = pos 10;
  detail_sort = codes "symbol";
  detail_order = codes "asc";
}

abbrev result : BacktestResponse ℕ
result =
    answer whole query (1 ∷ 5 ∷ []) 1
      (collect_entries (λ x. x) 1 20 (codes "intraday_1300") (snapshot ∷ []) (screened ∷ []))
      (λ x. x) bars (list_price_trading_days bars)

runs : run_backtest whole (λ x. x) query (snapshot ∷ []) (screened ∷ []) bars ≡ ok result
unfolding run_backtest run_horizons normalize_horizons distinct sort_by insert_by text_dec
    ℕ_discrete
runs = refl

run_backtest-Accounts_example : Accounts result
run_backtest-Accounts_example =
    run_backtest-Accounts whole (λ x. x) whole-HasSigns query (snapshot ∷ []) (screened ∷ []) bars
      result runs

-- One return at the horizon 1, none at 5.
counts : map (λ s. s.samples) result.summary ≡ 1 ∷ 0 ∷ []
unfolding answer answer_on tally collect_entries collect_entry list_snapshot_entries join_items
    list_price_trading_days distinct sort_by insert_by run_entries run_entry entry_price_of exit_of
    settle_all settle_one miss_all nth_trading_day bisect_left bisect_right want_all want_exits
    want_entry want load_close_prices load_days load_chunks store_closes unique_symbols text_leb
    summarize text_dec ℕ_discrete
counts = refl

abbrev entry : Entry ℕ
entry = record {
  trade_date = 10;
  symbol = tsmc;
  name = [];
  market = [];
  market_code = [];
  entry_price = some 505;
}

bars-IsTable : IsTable (λ x. x) bars
bars-IsTable = ((refl, (refl, tt)), ((refl, tt), (tt, tt)))

tally_prefetch_example :
    tally whole query (1 ∷ 5 ∷ []) 1 (entry ∷ []) (λ x. x) bars days
    ≡ run_entries whole intraday_to_close days
        (1 ∷ 5 ∷ [])
        1
        (direct_lookup (λ x. x) bars)
        (entry ∷ [])
        no_tally
tally_prefetch_example =
    tally_prefetch (λ x. x) whole query (1 ∷ 5 ∷ []) 1 (entry ∷ []) bars days bars-IsTable
      (refl, tt)

run_backtest-IsRanked_example :
    IsRanked whole query
      (settled_rows whole intraday_to_close
        (list_price_trading_days bars)
        result.horizons
        result.detail_n
        (direct_lookup (λ x. x) bars)
        (collect_entries (λ x. x) 1 20 (codes "intraday_1300") (snapshot ∷ []) (screened ∷ [])))
      result
unfolding collect_entries collect_entry list_snapshot_entries join_items sort_by insert_by text_dec
    ℕ_discrete
run_backtest-IsRanked_example =
    run_backtest-IsRanked whole (λ x. x) days_compare query (snapshot ∷ []) (screened ∷ []) bars
      result bars-IsTable (refl, tt) runs

-- Its table has the one row.
shows : map (λ r. r.return_pct) result.detail ≡ 5 ∷ []
unfolding answer answer_on tally collect_entries collect_entry list_snapshot_entries join_items
    list_price_trading_days distinct sort_by insert_by run_entries run_entry entry_price_of exit_of
    settle_all settle_one miss_all nth_trading_day bisect_left bisect_right want_all want_exits
    want_entry want load_close_prices load_days load_chunks store_closes unique_symbols text_leb
    summarize sort_detail detail_leb text_dec ℕ_discrete
shows = refl
