-- ===== src/BacktestApi/Tests.antt =====
-- Examples of the backtest endpoints: numbers written in a notation of one or two characters, and
-- a query on two snapshots.
use stock_quant_backend.Prelude.{
  ℕ, ◌+◌, ◌-◌, ◌≡◌, refl, ap, false, Option, none, some, List, [], ◌∷◌, map, leb, ltb, ◌==◌, arith,
}
use stock_quant_backend.Prelude.Text.{Text, codes, strip, lstrip, rstrip, keep, is_space}
use stock_quant_backend.Prelude.Split.{join, has_char}
use stock_quant_backend.Http.{ok}
use stock_quant_backend.RateLimit.Client.{is_blank}
use stock_quant_backend.Snapshots.{ScreenSnapshot}
use stock_quant_backend.Backtest.{ℤ, pos, negsuc, Floats}
use stock_quant_backend.BacktestApi.{parse_horizons}
use stock_quant_backend.BacktestApi.Parsing.{parse_horizons-join}
use stock_quant_backend.BacktestApi.Endpoint.{RunQuery, IsServed, backtest_run, backtest_run_lem}

-- One character for a natural number, after `-` for a negative one.
abbrev str : ℤ → Text
str (pos n) = (20000 + n) ∷ []
str (negsuc n) = 45 ∷ (20000 + n) ∷ []

abbrev int : Text → Option ℤ
int [] = none
int (c ∷ []) = some (pos (c - 20000))
int (c ∷ d ∷ []) = some (negsuc (d - 20000))
int (c ∷ d ∷ e ∷ s) = none

int-str : (n : ℤ) → int (str n) ≡ some n
int-str (pos n) = ap (λ k. some (pos k)) (omega arith)
int-str (negsuc n) = ap (λ k. some (negsuc k)) (omega arith)

bare : (n : ℤ) → has_char 44 (str n) ≡ false
bare (pos n) = ground arith
bare (negsuc n) = ground arith

no_space : (n : ℕ) → is_space (20000 + n) ≡ false
unfolding is_space
no_space n = ground arith

tight : (n : ℤ) → strip (str n) ≡ str n
unfolding strip lstrip rstrip keep
tight (pos n) = ground (arith, no_space n)
tight (negsuc n) = ground (arith, no_space n)

full : (n : ℤ) → is_blank (str n) ≡ false
full (pos n) = refl
full (negsuc n) = refl

abbrev numbers : List ℤ
numbers = pos 5 ∷ negsuc 0 ∷ pos 5 ∷ []

parse_horizons-join_example :
    parse_horizons int (some (join 44 (map str (pos 120 ∷ numbers)))) ≡ ok (pos 120 ∷ numbers)
parse_horizons-join_example = parse_horizons-join int str int-str bare tight full (pos 120) numbers

-- Whole numbers for floats.
abbrev whole : Floats ℕ
whole = record {
  sub = λ a b. a - b;
  percent = λ a b. a;
  positive = λ a. ltb 0 a;
  at_most_zero = λ a. leb a 0;
  negative = λ a. false;
  same = λ a b. a == b;
  less = λ a b. ltb a b;
  round = λ a d. a;
  ratio = λ a b. a;
  fmean = λ xs. 0;
  median = λ xs. 0;
  greatest = λ xs. 0;
  least = λ xs. 0;
}

abbrev snapshot : ℕ → ℕ → ScreenSnapshot
snapshot id day = record {
  id = id;
  trade_date = day;
  session = codes "eod";
  generated_at = 0;
  source = [];
  universe = 0;
  quotable = 0;
  pool_size = 0;
  item_count = 0;
  warning = none;
  created_at = 0;
}

-- A request that gives the last day, two horizons and the one to detail.
abbrev given : RunQuery
given = record {
  mode = none;
  start = none;
  end = some 30;
  horizons = some (join 44 (map str (pos 1 ∷ pos 5 ∷ [])));
  detail_n = some (pos 5);
  detail_limit = none;
  detail_sort = none;
  detail_order = none;
}

backtest_run_example :
    IsServed whole
      (λ x. x)
      int
      40
      given
      (backtest_run whole (λ x. x) int 40 given (snapshot 1 10 ∷ snapshot 2 12 ∷ []) [] [])
backtest_run_example =
    backtest_run_lem whole (λ x. x) int 40 given (snapshot 1 10 ∷ snapshot 2 12 ∷ []) [] []
