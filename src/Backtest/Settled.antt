-- ===== src/Backtest/Settled.antt =====
-- The rows of the detail table (`run_backtest` of app/backtest.py), before they are sorted: one for
-- each entry that can be settled at the horizon shown, in the order of the entries.
use stock_quant_backend.Prelude.{
  ℕ, ◌≤◌, ◌≡◌, refl, sym, ap, ◌∙◌, Bool, true, false, Option, none, some, List, [], ◌∷◌, ◌++◌, any,
  count, length, length-append, arith, Bool-cases, Option-cases, inl, inr, ◌==◌, if◌then◌else◌,
}
use mathlib.Core.List.{append-nil, append_assoc}
use stock_quant_backend.Prices.{CloseMap}
use stock_quant_backend.Backtest.{Mode, Floats, Entry, BacktestDetailRow}
use stock_quant_backend.Backtest.Engine.{
  Tally, miss_all, settle_one, settle_all, run_entry, run_entries, entry_price_of, exit_of,
  detail_row,
}

none_counted : (p : ℕ → Bool) (ns : List ℕ) → count p ns ≤ 0 → any p ns ≡ false
none_counted p [] h = refl
none_counted p (n ∷ ns) h = ground (arith, none_counted p ns)

some_counted : (p : ℕ → Bool) (ns : List ℕ) → 1 ≤ count p ns → any p ns ≡ true
some_counted p [] h = absurd (omega (arith, h))
some_counted p (n ∷ ns) h = ground (arith, some_counted p ns)

module _ {F : Type 0} (fl : Floats F) (mode : Mode) (calendar horizons : List ℕ) (detail_n : ℕ)
    (prices : CloseMap F) where
  -- The row of an entry, if its prices at both ends are known and the first is not at most zero.
  abbrev priced_row : Entry F → F → Option (ℕ × F) → List (BacktestDetailRow F)
  priced_row e p none = []
  priced_row e p (some (day, x)) =
      detail_row fl mode calendar horizons detail_n prices e p day x ∷ []

  abbrev pub row_of : Entry F → List (BacktestDetailRow F)
  row_of e = elim (entry_price_of fl mode calendar horizons detail_n prices e) [
    | none ↦ []
    | some p ↦
        if fl.at_most_zero p
        then []
        else priced_row e p (exit_of fl mode calendar horizons detail_n prices e detail_n)
  ]

  abbrev pub settled_rows : List (Entry F) → List (BacktestDetailRow F)
  settled_rows [] = []
  settled_rows (e ∷ entries) = row_of e ++ settled_rows entries

  detail-miss_all : (ns : List ℕ) (t : Tally F) → (miss_all ns t).detail ≡ t.detail
  unfolding miss_all
  detail-miss_all [] t = refl
  detail-miss_all (n ∷ ns) t = detail-miss_all ns _

  detail-settle_one :
      (e : Entry F) (p : F) (n : ℕ) (t : Tally F)
      → (settle_one fl mode calendar horizons detail_n prices e p n t).detail ≡ (
          if n == detail_n
          then t.detail
            ++ priced_row e p (exit_of fl mode calendar horizons detail_n prices e detail_n)
          else t.detail)
  unfolding settle_one
  detail-settle_one e p n t = elim (Bool-cases (n == detail_n)) [
    | inl y ↦
        let same : n ≡ detail_n = ground arith in
        let moved = ap (exit_of fl mode calendar horizons detail_n prices e) same in
        elim (Option-cases (exit_of fl mode calendar horizons detail_n prices e n)) [
          | inl x ↦
              let x' : exit_of fl mode calendar horizons detail_n prices e detail_n ≡ none = cc in
              rw (settle_one, x, x', y) (sym (append-nil t.detail))
          | inr ((day, c), x) ↦
              let x' : exit_of fl mode calendar horizons detail_n prices e detail_n
                  ≡ some (day, c) =
                cc in
              rw (settle_one, x, x', y) refl
        ]
    | inr y ↦ elim (Option-cases (exit_of fl mode calendar horizons detail_n prices e n)) [
      | inl x ↦ rw (settle_one, x, y) refl
      | inr ((day, c), x) ↦ rw (settle_one, x, y) refl
    ]
  ]

  detail-settle_all :
      (e : Entry F) (p : F) (ns : List ℕ) (t : Tally F)
      → count (λ n. n == detail_n) ns ≤ 1
      → (settle_all fl mode calendar horizons detail_n prices e p ns t).detail ≡ (
          if any (λ n. n == detail_n) ns
          then t.detail
            ++ priced_row e p (exit_of fl mode calendar horizons detail_n prices e detail_n)
          else t.detail)
  unfolding settle_all
  detail-settle_all e p [] t h = refl
  detail-settle_all e p (n ∷ ns) t h =
      let t' = settle_one fl mode calendar horizons detail_n prices e p n t in
      let one = detail-settle_one e p n t in
      elim (Bool-cases (n == detail_n)) [
        | inl y ↦
            let ih = detail-settle_all e p ns t' (ground arith) in
            let none_left : any (λ n. n == detail_n) ns ≡ false =
              none_counted _ ns (ground arith) in
            ground arith
        | inr y ↦ let ih = detail-settle_all e p ns t' (ground arith) in ground arith
      ]

  detail-run_entry :
      (e : Entry F) (t : Tally F)
      → count (λ n. n == detail_n) horizons ≡ 1
      → (run_entry fl mode calendar horizons detail_n prices e t).detail ≡ t.detail ++ row_of e
  unfolding run_entry
  detail-run_entry e t h =
      elim (Option-cases (entry_price_of fl mode calendar horizons detail_n prices e)) [
        | inl x ↦ rw (run_entry, row_of, x) (detail-miss_all horizons t ∙ sym (append-nil t.detail))
        | inr (p, x) ↦ elim (Bool-cases (fl.at_most_zero p)) [
          | inr y ↦
              let shown : any (λ n. n == detail_n) horizons ≡ true =
                some_counted _ horizons (omega (arith, h)) in
              rw (run_entry, row_of, x, y)
                (detail-settle_all e p horizons t (omega (arith, h)) ∙ rw shown refl)
          | inl y ↦
              rw (run_entry, row_of, x, y) (detail-miss_all horizons t ∙ sym (append-nil t.detail))
        ]
      ]

  -- The table before it is sorted.
  pub detail-run_entries :
      (entries : List (Entry F)) (t : Tally F)
      → count (λ n. n == detail_n) horizons ≡ 1
      → (run_entries fl mode calendar horizons detail_n prices entries t).detail
        ≡ t.detail ++ settled_rows entries
  unfolding run_entries
  detail-run_entries [] t h = sym (append-nil t.detail)
  detail-run_entries (e ∷ entries) t h =
      let t' = run_entry fl mode calendar horizons detail_n prices e t in
      detail-run_entries entries t' h
      ∙ ap (λ rows. rows ++ settled_rows entries) (detail-run_entry e t h)
      ∙ append_assoc t.detail (row_of e) (settled_rows entries)

  -- As many rows as returns at the horizon shown.
  abbrev pub IsShown : Tally F → Type 0
  IsShown t = length t.detail ≡ length (t.returns detail_n)

  miss_all-IsShown : (ns : List ℕ) (t : Tally F) → IsShown t → IsShown (miss_all ns t)
  unfolding miss_all
  miss_all-IsShown [] t h = h
  miss_all-IsShown (n ∷ ns) t h = miss_all-IsShown ns _ h

  settle_one-IsShown :
      (e : Entry F) (p : F) (n : ℕ) (t : Tally F)
      → IsShown t
      → IsShown (settle_one fl mode calendar horizons detail_n prices e p n t)
  unfolding settle_one
  settle_one-IsShown e p n t h =
      elim (Option-cases (exit_of fl mode calendar horizons detail_n prices e n)) [
        | inl x ↦ rw (settle_one, x) h
        | inr ((day, c), x) ↦ elim (Bool-cases (n == detail_n)) [
          | inl y ↦
              let pct = fl.percent (fl.sub c p) p in
              ground (
                arith,
                length-append t.detail
                    (detail_row fl mode calendar horizons detail_n prices e p day c ∷ []),
                length-append (t.returns detail_n) (pct ∷ []),
              )
          | inr y ↦ ground arith
        ]
      ]

  settle_all-IsShown :
      (e : Entry F) (p : F) (ns : List ℕ) (t : Tally F)
      → IsShown t
      → IsShown (settle_all fl mode calendar horizons detail_n prices e p ns t)
  unfolding settle_all
  settle_all-IsShown e p [] t h = h
  settle_all-IsShown e p (n ∷ ns) t h = settle_all-IsShown e p ns _ (settle_one-IsShown e p n t h)

  run_entry-IsShown :
      (e : Entry F) (t : Tally F)
      → IsShown t
      → IsShown (run_entry fl mode calendar horizons detail_n prices e t)
  unfolding run_entry
  run_entry-IsShown e t h =
      elim (Option-cases (entry_price_of fl mode calendar horizons detail_n prices e)) [
        | inl x ↦ rw (run_entry, x) (miss_all-IsShown horizons t h)
        | inr (p, x) ↦ elim (Bool-cases (fl.at_most_zero p)) [
          | inr y ↦ rw (run_entry, x, y) (settle_all-IsShown e p horizons t h)
          | inl y ↦ rw (run_entry, x, y) (miss_all-IsShown horizons t h)
        ]
      ]

  pub run_entries-IsShown :
      (entries : List (Entry F)) (t : Tally F)
      → IsShown t
      → IsShown (run_entries fl mode calendar horizons detail_n prices entries t)
  unfolding run_entries
  run_entries-IsShown [] t h = h
  run_entries-IsShown (e ∷ entries) t h = run_entries-IsShown entries _ (run_entry-IsShown e t h)
