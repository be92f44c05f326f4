-- ===== src/Backtest/Accounts.antt =====
-- The backtest accounts for every entry at every horizon (app/backtest.py).
use stock_quant_backend.Prelude.{
  ℕ, ◌+◌, ◌≤◌, ◌≡◌, refl, subst, ap, true, false, Option, some, List, [], ◌∷◌, map, if◌then◌else◌,
  All, count, length, length-append, arith, Bool-cases, Option-cases, inl, inr, ◌==◌,
}
use stock_quant_backend.Http.{ok, Result-cases}
use stock_quant_backend.Prices.{DailyPrice, CloseMap, load_close_prices, list_price_trading_days}
use stock_quant_backend.Snapshots.{ScreenSnapshot, ScreenSnapshotItem}
use stock_quant_backend.Backtest.{
  Mode, mode_session, Floats, BacktestHorizonStat, BacktestResponse, Entry, normalize_horizons,
  Warning, no_entries, no_prices,
}
use stock_quant_backend.Backtest.Engine.{
  Tally, no_tally, run_entries, run_entry, settle_one, settle_all, miss_all, exit_of,
  entry_price_of, summarize, collect_entries, detail_of, want_all, miss, settle,
}
use stock_quant_backend.Backtest.Horizons.{normalize_horizons_lem}
use stock_quant_backend.Backtest.Run.{
  Query, run_backtest, run_horizons, answer, answer_on, tally, empty, blank_stat,
}

module _ {F : Type 0} (fl : Floats F) (mode : Mode) (calendar horizons : List ℕ) (detail_n : ℕ)
    (prices : CloseMap F) where
  -- What a horizon has settled so far, either way.
  abbrev settled : ℕ → Tally F → ℕ
  settled m t = length (t.returns m) + t.missing m

  settled-miss :
      (n : ℕ) (t : Tally F) (m : ℕ) → settled m (miss n t) ≡ (if n == m then 1 else 0) + settled m t
  settled-miss n t m = ground arith

  settled-miss_all :
      (ns : List ℕ) (t : Tally F) (m : ℕ)
      → settled m (miss_all ns t) ≡ count (λ n. n == m) ns + settled m t
  unfolding miss_all
  settled-miss_all [] t m = omega arith
  settled-miss_all (n ∷ ns) t m =
      omega (arith, settled-miss_all ns (miss n t) m, settled-miss n t m)

  settled-settle :
      (e : Entry F) (p : F) (n : ℕ) (x : ℕ × F) (t : Tally F) (m : ℕ)
      → settled m (settle fl mode calendar horizons detail_n prices e p n x t)
        ≡ (if n == m then 1 else 0) + settled m t
  settled-settle e p n (d, x) t m =
      let pct = fl.percent (fl.sub x p) p in ground (arith, length-append (t.returns m) (pct ∷ []))

  settled-settle_one :
      (e : Entry F) (p : F) (n : ℕ) (t : Tally F) (m : ℕ)
      → settled m (settle_one fl mode calendar horizons detail_n prices e p n t)
        ≡ (if n == m then 1 else 0) + settled m t
  unfolding settle_one
  settled-settle_one e p n t m =
      elim (Option-cases (exit_of fl mode calendar horizons detail_n prices e n)) [
        | inl h ↦ rw (settle_one, h) (settled-miss n t m)
        | inr (x, h) ↦ rw (settle_one, h) (settled-settle e p n x t m)
      ]

  settled-settle_all :
      (e : Entry F) (p : F) (ns : List ℕ) (t : Tally F) (m : ℕ)
      → settled m (settle_all fl mode calendar horizons detail_n prices e p ns t)
        ≡ count (λ n. n == m) ns + settled m t
  unfolding settle_all
  settled-settle_all e p [] t m = omega arith
  settled-settle_all e p (n ∷ ns) t m =
      let t' = settle_one fl mode calendar horizons detail_n prices e p n t in
      omega (arith, settled-settle_all e p ns t' m, settled-settle_one e p n t m)

  settled-run_entry :
      (e : Entry F) (t : Tally F) (m : ℕ)
      → settled m (run_entry fl mode calendar horizons detail_n prices e t)
        ≡ count (λ n. n == m) horizons + settled m t
  unfolding run_entry
  settled-run_entry e t m =
      elim (Option-cases (entry_price_of fl mode calendar horizons detail_n prices e)) [
        | inl h ↦ rw (run_entry, h) (settled-miss_all horizons t m)
        | inr (p, h) ↦ elim (Bool-cases (fl.at_most_zero p)) [
          | inr y ↦ rw (run_entry, h, y) (settled-settle_all e p horizons t m)
          | inl y ↦ rw (run_entry, h, y) (settled-miss_all horizons t m)
        ]
      ]

  settled-run_entries :
      (entries : List (Entry F)) (t : Tally F) (m : ℕ)
      → count (λ n. n == m) horizons ≡ 1
      → settled m (run_entries fl mode calendar horizons detail_n prices entries t)
        ≡ length entries + settled m t
  unfolding run_entries
  settled-run_entries [] t m h = omega arith
  settled-run_entries (e ∷ entries) t m h =
      let t' = run_entry fl mode calendar horizons detail_n prices e t in
      omega (arith, settled-run_entries entries t' m h, settled-run_entry e t m, h)

-- What the aggregates of a horizon say about each other, given how many entries there were.
abbrev pub IsAccounted : {F : Type 0} → ℕ → BacktestHorizonStat F → Type 0
IsAccounted total s = (s.samples + s.missing ≡ total) × (s.wins + s.losses + s.flat ≡ s.samples)

-- A float is not both above and below zero.
abbrev pub HasSigns : {F : Type 0} → Floats F → Type 0
HasSigns fl = (x : _) → fl.positive x ≡ true → fl.negative x ≡ false

module _ {F : Type 0} (fl : Floats F) (signs : HasSigns fl) where
  wins-losses :
      (xs : List F) → count (λ x. fl.positive x) xs + count (λ x. fl.negative x) xs ≤ length xs
  wins-losses [] = omega arith
  wins-losses (x ∷ xs) = elim (Bool-cases (fl.positive x)) [
    | inl y ↦ let n = signs x y in ground (arith, wins-losses xs)
    | inr y ↦ ground (arith, wins-losses xs)
  ]

  summarize-IsAccounted :
      (n total missing : ℕ) (xs : List F)
      → length xs + missing ≡ total
      → IsAccounted total (summarize fl n xs missing)
  unfolding summarize
  summarize-IsAccounted n total missing [] h = (h, omega arith)
  summarize-IsAccounted n total missing (x ∷ xs) h = (h, omega (arith, wins-losses (x ∷ xs)))

-- Every aggregate is accounted for, and the horizons are those of the answer, each once.
abbrev pub Accounts : {F : Type 0} → BacktestResponse F → Type 0
Accounts r = All (IsAccounted r.entries) r.summary × (map (λ s. s.n) r.summary ≡ r.horizons)

module _ {F D : Type 0} (fl : Floats F) (to_float : D → F) (signs : HasSigns fl) where
  blank-All :
      (ns : List ℕ) (total : ℕ) → All (IsAccounted {F = F} total) (map (λ n. blank_stat n total) ns)
  blank-All [] total = tt
  blank-All (n ∷ ns) total = ((omega arith, omega arith), blank-All ns total)

  blank_names :
      (ns : List ℕ) (total : ℕ) → map (λ s. s.n) (map (λ n. blank_stat {F = F} n total) ns) ≡ ns
  blank_names [] total = refl
  blank_names (n ∷ ns) total = ap (λ ms. n ∷ ms) (blank_names ns total)

  report-All :
      (ns : List ℕ) (total : ℕ) (t : Tally F)
      → All (λ n. length (t.returns n) + t.missing n ≡ total) ns
      → All (IsAccounted total) (map (λ n. summarize fl n (t.returns n) (t.missing n)) ns)
  report-All [] total t h = tt
  report-All (n ∷ ns) total t h = (
    summarize-IsAccounted fl signs n total (t.missing n) (t.returns n) h.0,
    report-All ns total t h.1,
  )

  name-summarize : (n missing : ℕ) (xs : List F) → (summarize fl n xs missing).n ≡ n
  unfolding summarize
  name-summarize n missing [] = refl
  name-summarize n missing (x ∷ xs) = refl

  report_names :
      (ns : List ℕ) (t : Tally F)
      → map (λ s. s.n) (map (λ n. summarize fl n (t.returns n) (t.missing n)) ns) ≡ ns
  report_names [] t = refl
  report_names (n ∷ ns) t =
      rw (name-summarize n (t.missing n) (t.returns n), report_names ns t) refl

  All-always :
      (P : ℕ → Type 0) (Q : ℕ → Type 0) (ns : List ℕ) → ((n : ℕ) → P n → Q n) → All P ns → All Q ns
  All-always P Q [] f h = tt
  All-always P Q (n ∷ ns) f h = (f n h.0, All-always P Q ns f h.1)

  each_once :
      (whole ns : List ℕ)
      → ((n : ℕ) → count (λ m. m == n) ns ≤ count (λ m. m == n) whole)
      → ((n : ℕ) → count (λ m. m == n) whole ≤ 1)
      → All (λ n. count (λ m. m == n) whole ≡ 1) ns
  each_once whole [] h k = tt
  each_once whole (n ∷ ns) h k = (
    let low = h n in let high = k n in ground arith,
    each_once whole ns (λ i. let low = h i in ground arith) k,
  )

  empty-Accounts :
      (q : Query) (ns : List ℕ) (detail_n : ℕ) (entries : List (Entry F)) (w : Option Warning)
      → Accounts (empty fl q ns detail_n entries w)
  empty-Accounts q ns detail_n entries w =
      (blank-All ns (length entries), blank_names ns (length entries))

  answer-Accounts :
      (q : Query) (ns : List ℕ) (detail_n : ℕ) (entries : List (Entry F))
      (rows : List (DailyPrice D)) (calendar : List ℕ)
      → ((n : ℕ) → count (λ m. m == n) ns ≤ 1)
      → Accounts (answer fl q ns detail_n entries to_float rows calendar)
  unfolding answer answer_on tally
  answer-Accounts q ns detail_n [] rows calendar h =
      empty-Accounts q ns detail_n [] (some no_entries)
  answer-Accounts q ns detail_n (e ∷ es) rows [] h =
      empty-Accounts q ns detail_n (e ∷ es) (some no_prices)
  answer-Accounts q ns detail_n (e ∷ es) rows (d ∷ ds) h =
      let entries = e ∷ es in
      let prices = load_close_prices to_float (want_all q.mode (d ∷ ds) ns entries []) rows in
      let t = tally fl q ns detail_n entries to_float rows (d ∷ ds) in
      let settle_each : All (λ n. length (t.returns n) + t.missing n ≡ length entries) ns =
        All-always _ _ ns
          (λ n o.
            let s =
              settled-run_entries fl q.mode (d ∷ ds) ns detail_n prices entries no_tally n o in
            omega (arith, s))
          (each_once ns ns (λ n. omega arith) h) in
      (report-All ns (length entries) t settle_each, report_names ns t)

  -- Where the backtest answers, the summary has one aggregate for each horizon of the answer, in
  -- order, and in each of them samples and missing add up to the number of entries, and wins,
  -- losses and flat to the samples: no entry is lost or counted twice. The one condition is that
  -- no float is both above and below zero.
  pub run_backtest-Accounts :
      (q : Query) (snapshots : List ScreenSnapshot) (items : List (ScreenSnapshotItem D))
      (rows : List (DailyPrice D)) (r : BacktestResponse F)
      → run_backtest fl to_float q snapshots items rows ≡ ok r
      → Accounts r
  unfolding run_backtest run_horizons
  run_backtest-Accounts q snapshots items rows r e =
      elim (Result-cases (normalize_horizons q.horizons)) [
        | inl (f, h) ↦ absurd (ground (arith, e, h))
        | inr ([], h) ↦ absurd (ground (arith, e, h))
        | inr (n ∷ ns, h) ↦
            let entries =
              collect_entries to_float q.start q.end (mode_session q.mode) snapshots items in
            let first = detail_of q.detail_n n ns in
            let calendar = list_price_trading_days rows in
            let same : answer fl q (n ∷ ns) first entries to_float rows calendar ≡ r =
              ground (arith, e, h) in
            let (ascends, small, few, signed, counts) =
              normalize_horizons_lem q.horizons (n ∷ ns) h in
            subst Accounts same (
              answer-Accounts q (n ∷ ns) first entries rows calendar
                (λ m. let c = counts m in ground arith))
      ]
