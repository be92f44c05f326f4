-- ===== src/Backtest.antt =====
-- The forward-return backtest (app/backtest.py, its schemas in app/schemas.py). A date is its
-- ordinal number of days; a `ValueError` is the 422 that app/routers/backtest.py makes of it.
-- `Floats` is Python's float arithmetic with `statistics`, a parameter.
pub mod Engine
pub mod Run
pub mod Calendar
pub mod Horizons
pub mod Ordering
pub mod Settled
pub mod Ranking
pub mod Accounts
pub mod Prefetch
mod Tests
use stock_quant_backend.Prelude.{
  ℕ, suc, zero, ◌+◌, ◌-◌, ◌*◌, max, Bool, true, false, ◌&&◌, ◌||◌, not, Option, none, some, List,
  [], ◌∷◌, ◌++◌, map, leb, ltb, ◌==◌, if◌then◌else◌, any, count, length, take, get_elem?, select,
}
use mathlib.Core.Option
use stock_quant_backend.Prelude.Text.{Text, codes, text_eq, text_leb}
use stock_quant_backend.Prelude.Order.{distinct, sort_by}
use stock_quant_backend.Http.{Failure, unprocessable, Result, ok, raise}
use stock_quant_backend.Prices.{DailyPrice, CloseMap, list_price_trading_days, load_close_prices}
use stock_quant_backend.Snapshots.{ScreenSnapshot, ScreenSnapshotItem, list_snapshot_entries}

pub data ℤ : Type 0 where
  pos : ℕ → ℤ
  negsuc : ℕ → ℤ

pub data Mode : Type 0 where
  intraday_to_close close_to_close : Mode

abbrev pub max_horizon : ℕ
max_horizon = 120

abbrev pub max_horizons : ℕ
max_horizons = 16

-- `bisect` on an ascending list.
unfoldable pub bisect_left : List ℕ → ℕ → ℕ
bisect_left calendar day = count (λ d. ltb d day) calendar

unfoldable pub bisect_right : List ℕ → ℕ → ℕ
bisect_right calendar day = count (λ d. leb d day) calendar

-- `calendar[pos] == day`, with its bound.
abbrev pub day_if : Option ℕ → ℕ → Option ℕ
day_if none day = none
day_if (some d) day = if d == day then some day else none

-- The horizon is not negative: `normalize_horizons` has refused those.
unfoldable pub nth_trading_day : List ℕ → ℕ → ℕ → Option ℕ
unfolding bisect_left bisect_right
nth_trading_day calendar day zero = day_if (get_elem? calendar (bisect_left calendar day)) day
nth_trading_day calendar day (suc n) = get_elem? calendar (bisect_right calendar day + n)

abbrev pub is_negative : ℤ → Bool
is_negative (pos n) = false
is_negative (negsuc n) = true

abbrev pub magnitude : ℤ → ℕ
magnitude (pos n) = n
magnitude (negsuc n) = suc n

-- The sorted set is formed once no value is negative; the tests do not depend on the order.
unfoldable pub normalize_horizons : List ℤ → Result (List ℕ)
normalize_horizons [] = raise unprocessable
normalize_horizons (v ∷ values) =
    let cleaned = sort_by leb (distinct (map magnitude (v ∷ values))) in
    if any is_negative (v ∷ values)
    then raise unprocessable
    else if any (λ n. ltb max_horizon n) cleaned
    then raise unprocessable
    else if ltb max_horizons (length cleaned)
    then raise unprocessable
    else ok cleaned

-- What the module uses of Python's floats.
pub record Floats (F : Type 0) : Type 0 where
  pub sub : F → F → F
  pub percent : F → F → F
  pub positive : F → Bool
  pub at_most_zero : F → Bool
  pub negative : F → Bool
  pub same : F → F → Bool
  pub less : F → F → Bool
  pub round : F → ℕ → F
  pub ratio : ℕ → ℕ → F
  pub fmean : List F → F
  pub median : List F → F
  pub greatest : List F → F
  pub least : List F → F

pub record BacktestHorizonStat (F : Type 0) : Type 0 where
  pub n : ℕ
  pub samples : ℕ
  pub missing : ℕ
  pub wins : ℕ
  pub losses : ℕ
  pub flat : ℕ
  pub win_rate : Option F
  pub avg_return_pct : Option F
  pub median_return_pct : Option F
  pub best_return_pct : Option F
  pub worst_return_pct : Option F

pub record BacktestDetailRow (F : Type 0) : Type 0 where
  pub trade_date : ℕ
  pub symbol : Text
  pub name : Text
  pub market : Text
  pub market_code : Text
  pub entry_price : F
  pub exit_date : ℕ
  pub exit_price : F
  pub change : F
  pub return_pct : F

-- The three notes of an incomplete answer, with the values that their texts show.
pub data Warning : Type 0 where
  no_entries no_prices : Warning
  not_reached : ℕ → ℕ → Warning
  uncovered : ℕ → Warning

pub record BacktestResponse (F : Type 0) : Type 0 where
  pub mode : Mode
  pub session : Text
  pub start : ℕ
  pub end : ℕ
  pub horizons : List ℕ
  pub entries : ℕ
  pub trading_days : ℕ
  pub summary : List (BacktestHorizonStat F)
  pub detail_n : ℕ
  pub detail_total : ℕ
  pub detail_sort : Text
  pub detail_order : Text
  pub detail : List (BacktestDetailRow F)
  pub warning : Option Warning

pub record Entry (F : Type 0) : Type 0 where
  pub trade_date : ℕ
  pub symbol : Text
  pub name : Text
  pub market : Text
  pub market_code : Text
  pub entry_price : Option F

-- `MODE_SESSION[mode]`
abbrev pub mode_session : Mode → Text
mode_session intraday_to_close = codes "intraday_1300"
mode_session close_to_close = codes "eod"

abbrev pub is_close_to_close : Mode → Bool
is_close_to_close intraday_to_close = false
is_close_to_close close_to_close = true

-- `wanted.setdefault(day, set()).add(symbol)`
unfoldable pub want : ℕ → Text → List (ℕ × List Text) → List (ℕ × List Text)
want day symbol [] = (day, symbol ∷ []) ∷ []
want day symbol ((d, symbols) ∷ wanted) =
    if d == day then (d, symbols ++ symbol ∷ []) ∷ wanted else (d, symbols) ∷ want day symbol wanted

-- `max` of the values, 0 if there are none.
unfoldable pub maximum : List ℕ → ℕ
maximum [] = 0
maximum (x ∷ xs) = max x (maximum xs)

unfoldable pub last_day : ℕ → List ℕ → ℕ
last_day d [] = d
last_day d (e ∷ ds) = last_day e ds
