-- ===== src/Backtest/Engine.antt =====
-- `run_backtest` (app/backtest.py): the entries, what is asked of the price table, the loop over
-- entries and horizons, the aggregates and the detail table.
use stock_quant_backend.Prelude.{
  ℕ, ◌+◌, ◌-◌, ◌*◌, Bool, ◌&&◌, ◌||◌, Option, none, some, List, [], ◌∷◌, ◌++◌, map, leb, ltb, ◌==◌,
  if◌then◌else◌, any, count, length,
}
use mathlib.Core.Option
use stock_quant_backend.Prelude.Text.{Text, codes, text_eq, text_leb}
use stock_quant_backend.Prelude.Order.{sort_by}
use stock_quant_backend.Prices.{CloseMap}
use stock_quant_backend.Snapshots.{ScreenSnapshot, ScreenSnapshotItem, list_snapshot_entries}
use stock_quant_backend.Backtest.{
  ℤ, pos, negsuc, Mode, nth_trading_day, Floats, BacktestHorizonStat, BacktestDetailRow, Warning,
  not_reached, uncovered, Entry, is_close_to_close, want, maximum, last_day,
}

module _ {F D : Type 0} (to_float : D → F) where
  unfoldable pub collect_entry : ℕ × ScreenSnapshotItem D → Entry F
  collect_entry (day, item) = record {
    trade_date = day;
    symbol = item.symbol;
    name = item.name;
    market = item.market;
    market_code = item.market_code;
    entry_price = Option.map to_float item.close;
  }

  unfoldable pub collect_entries :
      ℕ → ℕ → Text → List ScreenSnapshot → List (ScreenSnapshotItem D) → List (Entry F)
  collect_entries start end session snapshots items =
      map collect_entry (list_snapshot_entries start end session snapshots items)

module _ {F : Type 0} where
  -- What an entry asks of the price table, horizon by horizon. `exit_days` keeps the values of
  -- `nth_trading_day` for the entries' days; here each is computed where it is read.
  unfoldable pub want_exits :
      List ℕ → Entry F → List ℕ → List (ℕ × List Text) → List (ℕ × List Text)
  want_exits calendar e [] wanted = wanted
  want_exits calendar e (n ∷ horizons) wanted =
      want_exits calendar e horizons (elim (nth_trading_day calendar e.trade_date n) [
        | none ↦ wanted
        | some exit_day ↦ want exit_day e.symbol wanted
      ])

  -- Only a closing price can be recovered from the price table.
  unfoldable pub want_entry : Mode → Entry F → List (ℕ × List Text) → List (ℕ × List Text)
  want_entry mode e wanted = elim e.entry_price [
    | none ↦ if is_close_to_close mode then want e.trade_date e.symbol wanted else wanted
    | some p ↦ wanted
  ]

  unfoldable pub want_all :
      Mode → List ℕ → List ℕ → List (Entry F) → List (ℕ × List Text) → List (ℕ × List Text)
  want_all mode calendar horizons [] wanted = wanted
  want_all mode calendar horizons (e ∷ entries) wanted =
      want_all mode calendar horizons entries
        (want_entry mode e (want_exits calendar e horizons wanted))

-- The two dictionaries of the loop, keyed by the horizon, and the detail rows.
pub record Tally (F : Type 0) : Type 0 where
  pub returns : ℕ → List F
  pub missing : ℕ → ℕ
  pub detail : List (BacktestDetailRow F)

module _ {F : Type 0} where
  -- `missing[n] += 1`
  abbrev pub miss : ℕ → Tally F → Tally F
  miss n t = record t { missing = λ m. if m == n then t.missing m + 1 else t.missing m }

  unfoldable pub miss_all : List ℕ → Tally F → Tally F
  miss_all [] t = t
  miss_all (n ∷ ns) t = miss_all ns (miss n t)

module _ {F : Type 0} (fl : Floats F) (mode : Mode) (calendar horizons : List ℕ) (detail_n : ℕ)
    (prices : CloseMap F) where
  -- The entry's price, with the fallback of `close_to_close`.
  unfoldable pub entry_price_of : Entry F → Option F
  entry_price_of e = elim e.entry_price [
    | none ↦ if is_close_to_close mode then prices e.symbol e.trade_date else none
    | some p ↦ some p
  ]

  -- The exit day with its close, if both are known.
  unfoldable pub exit_of : Entry F → ℕ → Option (ℕ × F)
  exit_of e n = elim (nth_trading_day calendar e.trade_date n) [
    | none ↦ none
    | some exit_day ↦ elim (prices e.symbol exit_day) [
      | none ↦ none
      | some exit_price ↦ some (exit_day, exit_price)
    ]
  ]

  abbrev pub detail_row : Entry F → F → ℕ → F → BacktestDetailRow F
  detail_row e entry_price exit_day exit_price =
      let change = fl.sub exit_price entry_price in
      record {
        trade_date = e.trade_date;
        symbol = e.symbol;
        name = e.name;
        market = e.market;
        market_code = e.market_code;
        entry_price = fl.round entry_price 4;
        exit_date = exit_day;
        exit_price = fl.round exit_price 4;
        change = fl.round change 4;
        return_pct = fl.round (fl.percent change entry_price) 4;
      }

  -- `returns[n].append(pct)`, and the detail row at the horizon shown.
  abbrev pub settle : Entry F → F → ℕ → ℕ × F → Tally F → Tally F
  settle e entry_price n (exit_day, exit_price) t =
      let pct = fl.percent (fl.sub exit_price entry_price) entry_price in
      record {
        returns = λ m. if m == n then t.returns m ++ pct ∷ [] else t.returns m;
        missing = t.missing;
        detail =
            if n == detail_n
            then t.detail ++ detail_row e entry_price exit_day exit_price ∷ []
            else t.detail;
      }

  unfoldable pub settle_one : Entry F → F → ℕ → Tally F → Tally F
  settle_one e entry_price n t = elim (exit_of e n) [
    | none ↦ miss n t
    | some exit ↦ settle e entry_price n exit t
  ]

  unfoldable pub settle_all : Entry F → F → List ℕ → Tally F → Tally F
  settle_all e entry_price [] t = t
  settle_all e entry_price (n ∷ ns) t = settle_all e entry_price ns (settle_one e entry_price n t)

  unfoldable pub run_entry : Entry F → Tally F → Tally F
  run_entry e t = elim (entry_price_of e) [
    | none ↦ miss_all horizons t
    | some p ↦ if fl.at_most_zero p then miss_all horizons t else settle_all e p horizons t
  ]

  unfoldable pub run_entries : List (Entry F) → Tally F → Tally F
  run_entries [] t = t
  run_entries (e ∷ entries) t = run_entries entries (run_entry e t)

abbrev pub no_tally : {F : Type 0} → Tally F
no_tally = record { returns = λ n. []; missing = λ n. 0; detail = [] }

-- A row compared by one column, then by the date and the symbol.
module _ {F : Type 0} (fl : Floats F) where
  abbrev pub tie_leb : BacktestDetailRow F → BacktestDetailRow F → Bool
  tie_leb r s =
      ltb r.trade_date s.trade_date || (r.trade_date == s.trade_date && text_leb r.symbol s.symbol)

  abbrev pub float_leb :
      (BacktestDetailRow F → F) → BacktestDetailRow F → BacktestDetailRow F → Bool
  float_leb f r s = fl.less (f r) (f s) || (fl.same (f r) (f s) && tie_leb r s)

  -- `<=` on the keys of `_detail_sort_key`.
  unfoldable pub detail_leb : Text → BacktestDetailRow F → BacktestDetailRow F → Bool
  detail_leb key r s =
      if text_eq key (codes "trade_date")
      then tie_leb r s
      else if text_eq key (codes "symbol")
      then (if text_eq r.symbol s.symbol
          then leb r.trade_date s.trade_date
          else text_leb r.symbol s.symbol)
      else if text_eq key (codes "exit_date")
      then ltb r.exit_date s.exit_date || (r.exit_date == s.exit_date && tie_leb r s)
      else if text_eq key (codes "entry_price")
      then float_leb (λ x. x.entry_price) r s
      else if text_eq key (codes "exit_price")
      then float_leb (λ x. x.exit_price) r s
      else if text_eq key (codes "change")
      then float_leb (λ x. x.change) r s
      else float_leb (λ x. x.return_pct) r s

  -- `reverse=True` keeps equal rows in their order too.
  unfoldable pub sort_detail : Text → Text → List (BacktestDetailRow F) → List (BacktestDetailRow F)
  sort_detail key order rows =
      if text_eq order (codes "desc")
      then sort_by (λ r s. detail_leb key s r) rows
      else sort_by (detail_leb key) rows

  unfoldable pub summarize : ℕ → List F → ℕ → BacktestHorizonStat F
  summarize n [] missing = record {
    n = n;
    samples = 0;
    missing = missing;
    wins = 0;
    losses = 0;
    flat = 0;
    win_rate = none;
    avg_return_pct = none;
    median_return_pct = none;
    best_return_pct = none;
    worst_return_pct = none;
  }
  summarize n (r ∷ rs) missing =
      let returns = r ∷ rs in
      let wins = count (λ x. fl.positive x) returns in
      let losses = count (λ x. fl.negative x) returns in
      record {
        n = n;
        samples = length returns;
        missing = missing;
        wins = wins;
        losses = losses;
        flat = length returns - wins - losses;
        win_rate = some (fl.round (fl.ratio wins (length returns)) 6);
        avg_return_pct = some (fl.round (fl.fmean returns) 4);
        median_return_pct = some (fl.round (fl.median returns) 4);
        best_return_pct = some (fl.round (fl.greatest returns) 4);
        worst_return_pct = some (fl.round (fl.least returns) 4);
      }

-- `worst >= len(entries) * 0.2`, exact on whole numbers.
unfoldable pub coverage_warning :
    {F : Type 0} → List (Entry F) → ℕ → List ℕ → List ℕ → (ℕ → ℕ) → Option Warning
coverage_warning entries first calendar horizons missing =
    let biggest = maximum horizons in
    let worst = maximum (map missing horizons) in
    elim (nth_trading_day (first ∷ calendar) (maximum (map (λ e. e.trade_date) entries)) biggest) [
      | none ↦ some (not_reached (last_day first calendar) biggest)
      | some d ↦
          if ltb 0 worst && leb (length entries) (5 * worst) then some (uncovered worst) else none
    ]

-- `DETAIL_SORT_KEYS`
abbrev pub is_sort_key : Text → Bool
is_sort_key key =
    any (λ k. text_eq k key)
      (codes "trade_date"
        ∷ codes "symbol"
        ∷ codes "entry_price"
        ∷ codes "exit_date"
        ∷ codes "exit_price"
        ∷ codes "change"
        ∷ codes "return_pct"
        ∷ [])

abbrev pub is_order : Text → Bool
is_order order = text_eq order (codes "asc") || text_eq order (codes "desc")

-- `horizons[0]` unless the horizon asked for is one of them.
abbrev pub detail_of : Option ℤ → ℕ → List ℕ → ℕ
detail_of none first horizons = first
detail_of (some (negsuc n)) first horizons = first
detail_of (some (pos n)) first horizons = if any (λ m. m == n) (first ∷ horizons) then n else first
