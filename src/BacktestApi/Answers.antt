-- ===== src/BacktestApi/Answers.antt =====
-- What `run_backtest` answers: a refusal, or what the query asked for, cut to its limit.
use stock_quant_backend.Prelude.{
  ℕ, ◌≤◌, ◌≡◌, refl, ap, sym, ◌∙◌, subst, true, List, [], ◌∷◌, any, length, length-take, ◌==◌,
  arith, Bool-cases, inl, inr, ◌⊎◌,
}
use stock_quant_backend.Http.{ok, raise, unprocessable, Result-cases}
use stock_quant_backend.Snapshots.{ScreenSnapshot, ScreenSnapshotItem}
use stock_quant_backend.Prices.{DailyPrice, list_price_trading_days}
use stock_quant_backend.Backtest.{
  ℤ, pos, mode_session, Floats, BacktestResponse, Entry, normalize_horizons, magnitude,
}
use stock_quant_backend.Backtest.Engine.{
  sort_detail, collect_entries, detail_of, is_sort_key, is_order,
}
use stock_quant_backend.Backtest.Ranking.{detail_of-any}
use stock_quant_backend.Backtest.Horizons.{normalize_horizons_lem}
use stock_quant_backend.Backtest.Run.{
  Query, run_backtest, run_horizons, answer, answer_on, tally, limited,
}

only_unprocessable :
    (values : List ℤ) (f : _) → normalize_horizons values ≡ raise f → f ≡ unprocessable
unfolding normalize_horizons
only_unprocessable [] f h = ground arith
only_unprocessable (v ∷ values) f h = ground arith

nothing : (vs : List ℤ) → normalize_horizons vs ≡ ok [] → ⊥
unfolding normalize_horizons
nothing [] h = ground arith
nothing (v ∷ vs) h =
    let (ascends, small, few, signed, counts) = normalize_horizons_lem (v ∷ vs) [] h in
    let one = counts (magnitude v) in ground arith

-- `normalize_horizons` refuses, or gives at least one horizon.
normalize_cases :
    (values : List ℤ)
    → (normalize_horizons values ≡ raise unprocessable)
      ⊎ ((n : ℕ) × (ns : List ℕ) × (normalize_horizons values ≡ ok (n ∷ ns)))
normalize_cases values = elim (Result-cases (normalize_horizons values)) [
  | inl (f, h) ↦ inl (h ∙ ap raise (only_unprocessable values f h))
  | inr (n ∷ ns, h) ↦ inr (n, ns, h)
  | inr ([], h) ↦ absurd (nothing values h)
]

module _ {F D : Type 0} (fl : Floats F) (to_float : D → F) where
  -- What an answer repeats of the query, and how long its table is.
  abbrev pub Repeats : Query → List ℕ → ℕ → BacktestResponse F → Type 0
  Repeats q ns limit r =
      (r.start ≡ q.start)
      × (r.end ≡ q.end)
      × (r.mode ≡ q.mode)
      × (r.horizons ≡ ns)
      × (any (λ n. n == r.detail_n) ns ≡ true)
      × (length r.detail ≤ limit)
      × (r.detail_sort ≡ q.detail_sort)
      × (r.detail_order ≡ q.detail_order)

  answer-Repeats :
      (q : Query) (ns : List ℕ) (k limit : ℕ) (entries : List (Entry F))
      (rows : List (DailyPrice D)) (calendar : List ℕ)
      → any (λ n. n == k) ns ≡ true
      → q.detail_limit ≡ pos limit
      → Repeats q ns limit (answer fl q ns k entries to_float rows calendar)
  unfolding answer answer_on
  answer-Repeats q ns k limit [] rows calendar h e =
      (refl, refl, refl, refl, h, omega arith, refl, refl)
  answer-Repeats q ns k limit (x ∷ xs) rows [] h e =
      (refl, refl, refl, refl, h, omega arith, refl, refl)
  answer-Repeats q ns k limit (x ∷ xs) rows (d ∷ ds) h e =
      let t = tally fl q ns k (x ∷ xs) to_float rows (d ∷ ds) in
      let detail = sort_detail fl q.detail_sort q.detail_order t.detail in
      let short : length (limited q.detail_limit detail) ≤ limit =
        subst (λ z. length (limited z detail) ≤ limit) (sym e)
          (omega (arith, length-take {0} limit detail)) in
      (refl, refl, refl, refl, h, short, refl, refl)

  -- The run refuses with 422, or answers the query.
  pub run_backtest_cases :
      (q : Query) (limit : ℕ) (snapshots : List ScreenSnapshot)
      (items : List (ScreenSnapshotItem D)) (rows : List (DailyPrice D))
      → q.detail_limit ≡ pos limit
      → (run_backtest fl to_float q snapshots items rows ≡ raise unprocessable)
        ⊎ ((r : BacktestResponse F) × (ns : List ℕ) × (run_backtest fl to_float q snapshots items
                rows
              ≡ ok r)
            × (normalize_horizons q.horizons ≡ ok ns)
            × Repeats q ns limit r)
  unfolding run_backtest run_horizons
  run_backtest_cases q limit snapshots items rows e =
      elim (Bool-cases (is_sort_key q.detail_sort)) [
        | inr n ↦ inl (ground arith)
        | inl y ↦ elim (Bool-cases (is_order q.detail_order)) [
          | inr n ↦ inl (ground arith)
          | inl z ↦ elim (normalize_cases q.horizons) [
            | inl h ↦ inl (ground arith)
            | inr (n, ns, h) ↦
                let entries =
                  collect_entries to_float q.start q.end (mode_session q.mode) snapshots items in
                let k = detail_of q.detail_n n ns in
                let calendar = list_price_trading_days rows in
                inr (
                  answer fl q (n ∷ ns) k entries to_float rows calendar,
                  n ∷ ns,
                  ground arith,
                  h,
                  answer-Repeats q (n ∷ ns) k limit entries rows calendar
                      (detail_of-any q.detail_n n ns) e,
                )
          ]
        ]
      ]
