-- ===== src/Backtest/Horizons.antt =====
-- What `normalize_horizons` accepts.
use stock_quant_backend.Prelude.{
  ℕ, ◌≤◌, ◌≡◌, subst, false, List, [], ◌∷◌, map, if◌then◌else◌, All, any, count, length, arith,
  ◌==◌, leb, ltb,
}
use stock_quant_backend.Prelude.Order.{distinct, sort_by}
use stock_quant_backend.Http.{ok}
use stock_quant_backend.Prices.Calendar.{Ascends, sorted_distinct-Ascends, count-sorted_distinct}
use stock_quant_backend.Backtest.{
  ℤ, normalize_horizons, magnitude, is_negative, max_horizon, max_horizons,
}

no_greater : (ns : List ℕ) → any (λ n. ltb max_horizon n) ns ≡ false → All (λ n. n ≤ max_horizon) ns
no_greater [] h = tt
no_greater (n ∷ ns) h = (ground arith, no_greater ns (ground arith))

-- What an accepted list of horizons is.
abbrev pub IsAccepted : List ℤ → List ℕ → Type 0
IsAccepted values horizons =
    Ascends horizons
    × All (λ n. n ≤ max_horizon) horizons
    × (length horizons ≤ max_horizons)
    × (any is_negative values ≡ false)
    × ((n : ℕ)
        → count (λ m. m == n) horizons
          ≡ (if any (λ m. m == n) (map magnitude values) then 1 else 0))

-- Where `normalize_horizons` returns, no value was negative, and the result is strictly ascending,
-- holds exactly the values given, none above 120, and at most 16 of them.
pub normalize_horizons_lem :
    (values : List ℤ) (horizons : List ℕ)
    → normalize_horizons values ≡ ok horizons
    → IsAccepted values horizons
unfolding normalize_horizons
normalize_horizons_lem [] horizons e = absurd cc
normalize_horizons_lem (v ∷ values) horizons e =
    let cleaned = sort_by leb (distinct (map magnitude (v ∷ values))) in
    let neg : any is_negative (v ∷ values) ≡ false = ground arith in
    let big : any (λ n. ltb max_horizon n) cleaned ≡ false = ground arith in
    let many : ltb max_horizons (length cleaned) ≡ false = ground arith in
    let same : cleaned ≡ horizons = ground arith in
    subst (IsAccepted (v ∷ values)) same (
      sorted_distinct-Ascends (map magnitude (v ∷ values)),
      no_greater cleaned big,
      ground arith,
      neg,
      λ n. count-sorted_distinct n (map magnitude (v ∷ values)),
    )
