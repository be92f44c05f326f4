-- ===== src/Backtest/Ranking.antt =====
-- The detail table of the backtest (`run_backtest` and `_detail_sort_key` of app/backtest.py): the
-- whole of it is sorted, and then it is cut to the limit.
use stock_quant_backend.Prelude.{
  ℕ, zero, suc, ◌≤◌, ◌≡◌, refl, sym, ap, ◌∙◌, subst, Bool, true, false, Option, none, some, List,
  [], ◌∷◌, map, All, any, count, length, arith, Bool-cases, inl, inr, ◌==◌, if◌then◌else◌,
}
use stock_quant_backend.Prelude.Text.{codes, text_eq}
use stock_quant_backend.Prelude.Order.{
  IsSorted, sort_by, sort_by-IsSorted, count-sort_by, length-sort_by,
}
use stock_quant_backend.Http.{ok, Result-cases}
use stock_quant_backend.Snapshots.{ScreenSnapshot, ScreenSnapshotItem}
use stock_quant_backend.Prices.{DailyPrice, list_price_trading_days}
use stock_quant_backend.Prices.Loading.{IsTable, is_named}
use stock_quant_backend.Backtest.{
  ℤ, pos, negsuc, Floats, BacktestResponse, BacktestDetailRow, Warning, no_entries, no_prices,
  Entry, mode_session, normalize_horizons, nth_trading_day,
}
use stock_quant_backend.Backtest.Engine.{
  Tally, no_tally, exit_of, sort_detail, detail_leb, detail_of, collect_entries, summarize,
  coverage_warning,
}
use stock_quant_backend.Backtest.Horizons.{normalize_horizons_lem}
use stock_quant_backend.Backtest.Prefetch.{direct_lookup, tally_prefetch}
use stock_quant_backend.Backtest.Ordering.{
  IsComparison, IsTotal, IsTransitive, detail-IsTotal, detail-IsTransitive,
}
use stock_quant_backend.Backtest.Settled.{settled_rows, detail-run_entries, run_entries-IsShown}
use stock_quant_backend.Backtest.Run.{
  Query, blank_stat, limited, empty, report, tally, answer_on, answer, run_horizons, run_backtest,
}

pub detail_of-any :
    (o : Option ℤ) (n : ℕ) (ns : List ℕ) → any (λ m. m == detail_of o n ns) (n ∷ ns) ≡ true
detail_of-any none n ns = ground arith
detail_of-any (some (negsuc k)) n ns = ground arith
detail_of-any (some (pos k)) n ns = elim (Bool-cases (any (λ m. m == k) (n ∷ ns))) [
  | inl y ↦
      let same : detail_of (some (pos k)) n ns ≡ k = ground arith in
      subst (λ z. any (λ m. m == z) (n ∷ ns) ≡ true) (sym same) y
  | inr e ↦
      let same : detail_of (some (pos k)) n ns ≡ n = ground arith in
      subst (λ z. any (λ m. m == z) (n ∷ ns) ≡ true) (sym same) (ground arith)
]

any-count : (p : ℕ → Bool) (ns : List ℕ) → any p ns ≡ true → 1 ≤ count p ns
any-count p [] h = absurd (ground arith)
any-count p (n ∷ ns) h = ground (arith, any-count p ns)

-- An order, or the reverse of it.
abbrev pub directed : {A : Type 0} → Bool → (A → A → Bool) → A → A → Bool
directed true le r s = le s r
directed false le r s = le r s

directed-IsTotal :
    {A : Type 0} (b : Bool) (le : A → A → Bool) → IsTotal le → IsTotal (directed b le)
directed-IsTotal true le h r s = h s r
directed-IsTotal false le h r s = h r s

directed-IsTransitive :
    {A : Type 0} (b : Bool) (le : A → A → Bool) → IsTransitive le → IsTransitive (directed b le)
directed-IsTransitive true le h r s t x y = h t s r y x
directed-IsTransitive false le h r s t x y = h r s t x y

directed_sort :
    {A : Type 0} (b : Bool) (le : A → A → Bool) (xs : List A)
    → (if b then sort_by (λ r s. le s r) xs else sort_by le xs) ≡ sort_by (directed b le) xs
directed_sort true le xs = refl
directed_sort false le xs = refl

-- The order that a query asks for.
abbrev pub order_leb :
    {F : Type 0} → Floats F → Query → BacktestDetailRow F → BacktestDetailRow F → Bool
order_leb fl q = directed (text_eq q.detail_order (codes "desc")) (detail_leb fl q.detail_sort)

limited_nothing : {F : Type 0} (l : ℤ) → [] ≡ limited {F = F} l []
limited_nothing (pos zero) = refl
limited_nothing (pos (suc n)) = refl
limited_nothing (negsuc n) = refl

-- A table that shows the first of some rows in the order of the query: there is an arrangement of
-- the rows in that order of which the table is what the limit leaves; the total counts all of them;
-- and so does the aggregate of the horizon shown.
abbrev pub IsRanked :
    {F : Type 0} → Floats F → Query → List (BacktestDetailRow F) → BacktestResponse F → Type 0
IsRanked {F = F} fl q rows r =
    ((all : List (BacktestDetailRow F)) × ((p : BacktestDetailRow F → Bool)
        → count p all ≡ count p rows)
      × IsSorted (order_leb fl q) all
      × (r.detail ≡ limited q.detail_limit all))
    × (r.detail_total ≡ length rows)
    × All (λ s. (if s.n == r.detail_n then s.samples else r.detail_total) ≡ r.detail_total)
        r.summary

module _ {F : Type 0} (fl : Floats F) (q : Query) where
  samples-summarize :
      (n missing : ℕ) (xs : List F) → (summarize fl n xs missing).samples ≡ length xs
  unfolding summarize
  samples-summarize n missing [] = refl
  samples-summarize n missing (x ∷ xs) = refl

  name-summarize : (n missing : ℕ) (xs : List F) → (summarize fl n xs missing).n ≡ n
  unfolding summarize
  name-summarize n missing [] = refl
  name-summarize n missing (x ∷ xs) = refl

  report_samples :
      (ns : List ℕ) (k : ℕ) (t : Tally F) (total : ℕ)
      → length (t.returns k) ≡ total
      → All
          (λ s. (if s.n == k then s.samples else total) ≡ total)
          (map (λ n. summarize fl n (t.returns n) (t.missing n)) ns)
  report_samples [] k t total h = tt
  report_samples (n ∷ ns) k t total h = (
    let a = samples-summarize n (t.missing n) (t.returns n) in
        let b = name-summarize n (t.missing n) (t.returns n) in ground arith,
    report_samples ns k t total h,
  )

  blank_samples :
      (ns : List ℕ) (k total : ℕ)
      → All
          (λ s. (if s.n == k then s.samples else 0) ≡ 0)
          (map (λ n. blank_stat {F = F} n total) ns)
  blank_samples [] k total = tt
  blank_samples (n ∷ ns) k total = (ground arith, blank_samples ns k total)

  empty-IsRanked :
      (ns : List ℕ) (k : ℕ) (entries : List (Entry F)) (w : Option Warning)
      → IsRanked fl q [] (empty fl q ns k entries w)
  empty-IsRanked ns k entries w = (
    ([], (λ p. refl), tt, limited_nothing q.detail_limit),
    refl,
    blank_samples ns k (length entries),
  )

  report-IsRanked :
      IsComparison fl.less fl.same
      → (ns : List ℕ) (k : ℕ) (entries : List (Entry F)) (t : Tally F) (w : Option Warning)
      → length t.detail ≡ length (t.returns k)
      → IsRanked fl q t.detail (report fl q ns k entries t w)
  unfolding sort_detail
  report-IsRanked floats ns k entries t w h =
      let b = text_eq q.detail_order (codes "desc") in
      let key = detail_leb fl q.detail_sort in
      let le = order_leb fl q in
      let all = sort_by le t.detail in
      let sorted : sort_detail fl q.detail_sort q.detail_order t.detail ≡ all =
        directed_sort b key t.detail in
      let total : length (sort_detail fl q.detail_sort q.detail_order t.detail) ≡ length t.detail =
        ap length sorted ∙ length-sort_by le t.detail in
      (
        (
          all,
          (λ p. count-sort_by le p t.detail),
          sort_by-IsSorted le (directed-IsTotal b key (detail-IsTotal fl floats q.detail_sort))
              (directed-IsTransitive b key (detail-IsTransitive fl floats q.detail_sort)) t.detail,
          ap (limited q.detail_limit) sorted,
        ),
        total,
        report_samples ns k t _ (sym h ∙ sym total),
      )

module _ {F D : Type 0} (fl : Floats F) (to_float : D → F)
    (floats : IsComparison fl.less fl.same) where
  -- Without trading days no entry has an exit.
  no_exit :
      (q : Query) (ns : List ℕ) (k m : ℕ) (rows : List (DailyPrice D)) (e : Entry F)
      → exit_of fl q.mode [] ns k (direct_lookup to_float rows) e m ≡ none
  unfolding exit_of nth_trading_day
  no_exit q ns k zero rows e = refl
  no_exit q ns k (suc m) rows e = refl

  no_calendar :
      (q : Query) (ns : List ℕ) (k : ℕ) (rows : List (DailyPrice D)) (entries : List (Entry F))
      → [] ≡ settled_rows fl q.mode [] ns k (direct_lookup to_float rows) entries
  no_calendar q ns k rows [] = refl
  no_calendar q ns k rows (e ∷ entries) =
      ground (arith, no_exit q ns k k rows e, no_calendar q ns k rows entries)

  answer_names :
      (q : Query) (ns : List ℕ) (k : ℕ) (entries : List (Entry F)) (rows : List (DailyPrice D))
      (calendar : List ℕ)
      → let r = answer fl q ns k entries to_float rows calendar in
        (r.horizons ≡ ns) × (r.detail_n ≡ k)
  unfolding answer answer_on
  answer_names q ns k [] rows calendar = (refl, refl)
  answer_names q ns k (e ∷ es) rows [] = (refl, refl)
  answer_names q ns k (e ∷ es) rows (d ∷ ds) = (refl, refl)

  answer-IsRanked :
      (q : Query) (ns : List ℕ) (k : ℕ) (entries : List (Entry F)) (rows : List (DailyPrice D))
      (calendar : List ℕ)
      → IsTable to_float rows
      → All (λ e. is_named e.symbol ≡ true) entries
      → count (λ n. n == k) ns ≡ 1
      → IsRanked fl q
          (settled_rows fl q.mode calendar ns k (direct_lookup to_float rows) entries)
          (answer fl q ns k entries to_float rows calendar)
  unfolding answer answer_on
  answer-IsRanked q ns k [] rows calendar table named once =
      empty-IsRanked fl q ns k [] (some no_entries)
  answer-IsRanked q ns k (e ∷ es) rows [] table named once =
      subst (λ shown. IsRanked fl q shown (empty fl q ns k (e ∷ es) (some no_prices)))
        (no_calendar q ns k rows (e ∷ es)) (empty-IsRanked fl q ns k (e ∷ es) (some no_prices))
  answer-IsRanked q ns k (e ∷ es) rows (d ∷ ds) table named once =
      let entries = e ∷ es in
      let calendar = d ∷ ds in
      let t = tally fl q ns k entries to_float rows calendar in
      let direct = direct_lookup to_float rows in
      let same = tally_prefetch to_float fl q ns k entries rows calendar table named in
      let shown : t.detail ≡ settled_rows fl q.mode calendar ns k direct entries =
        ap (λ (u : Tally F). u.detail) same
        ∙ detail-run_entries fl q.mode calendar ns k direct entries no_tally once in
      let even : length t.detail ≡ length (t.returns k) =
        subst (λ (u : Tally F). length u.detail ≡ length (u.returns k)) (sym same)
          (run_entries-IsShown fl q.mode calendar ns k direct entries no_tally refl) in
      subst
        (λ all.
          IsRanked fl q all
            (report fl q ns k entries t (coverage_warning entries d ds ns t.missing)))
        shown
        (report-IsRanked fl q floats ns k entries t (coverage_warning entries d ds ns t.missing)
          even)

  -- On a price table with one row for each day and symbol, and for screened stocks whose symbols
  -- are not empty, where the comparison of floats is a total order: the table of an answer shows the
  -- first of all the rows there are at the horizon shown, in the order that the query asks for. The
  -- rows are one for each screened stock whose prices at both ends are known, looked up in the whole
  -- table, and whose entry price is not at most zero; the whole of them is sorted before the limit cuts;
  -- the total counts all of them, and equals the samples of that horizon's aggregate.
  pub run_backtest-IsRanked :
      (q : Query) (snapshots : List ScreenSnapshot) (items : List (ScreenSnapshotItem D))
      (rows : List (DailyPrice D)) (r : BacktestResponse F)
      → IsTable to_float rows
      → All
          (λ e. is_named e.symbol ≡ true)
          (collect_entries to_float q.start q.end (mode_session q.mode) snapshots items)
      → run_backtest fl to_float q snapshots items rows ≡ ok r
      → IsRanked fl q
          (settled_rows fl q.mode
            (list_price_trading_days rows)
            r.horizons
            r.detail_n
            (direct_lookup to_float rows)
            (collect_entries to_float q.start q.end (mode_session q.mode) snapshots items))
          r
  unfolding run_backtest run_horizons
  run_backtest-IsRanked q snapshots items rows r table named e =
      elim (Result-cases (normalize_horizons q.horizons)) [
        | inl (f, h) ↦ absurd (ground (arith, e, h))
        | inr ([], h) ↦ absurd (ground (arith, e, h))
        | inr (n ∷ ns, h) ↦
            let entries =
              collect_entries to_float q.start q.end (mode_session q.mode) snapshots items in
            let k = detail_of q.detail_n n ns in
            let calendar = list_price_trading_days rows in
            let same : answer fl q (n ∷ ns) k entries to_float rows calendar ≡ r =
              ground (arith, e, h) in
            let (ascends, small, few, signed, counts) =
              normalize_horizons_lem q.horizons (n ∷ ns) h in
            let shown = any-count (λ m. m == k) (n ∷ ns) (detail_of-any q.detail_n n ns) in
            let once : count (λ m. m == k) (n ∷ ns) ≡ 1 = let c = counts k in ground arith in
            let (horizons, detail_n) = answer_names q (n ∷ ns) k entries rows calendar in
            let a = answer fl q (n ∷ ns) k entries to_float rows calendar in
            let rows_at : List ℕ → ℕ → List (BacktestDetailRow F) =
              λ hs m. settled_rows fl q.mode calendar hs m (direct_lookup to_float rows) entries in
            subst (λ (b : BacktestResponse F). IsRanked fl q (rows_at b.horizons b.detail_n) b) same
              (subst (λ hs. IsRanked fl q (rows_at hs a.detail_n) a) (sym horizons)
                (subst (λ m. IsRanked fl q (rows_at (n ∷ ns) m) a) (sym detail_n)
                  (answer-IsRanked q (n ∷ ns) k entries rows calendar table named once)))
      ]
