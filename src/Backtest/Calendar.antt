-- ===== src/Backtest/Calendar.antt =====
-- `nth_trading_day` finds by bisection what counting the later trading days finds.
use stock_quant_backend.Prelude.{
  ℕ, suc, ◌+◌, ◌<◌, ◌≡◌, refl, ap, sym, ◌∙◌, true, false, none, some, List, [], ◌∷◌, if◌then◌else◌,
  All, any, count, select, get_elem?, arith, Bool-cases, inl, inr, ◌==◌, leb, ltb,
}
use stock_quant_backend.Prices.Calendar.{Ascends}
use stock_quant_backend.Backtest.{nth_trading_day, bisect_left, bisect_right, day_if}

-- The trading days after a day.
abbrev pub later : ℕ → List ℕ → List ℕ
later day calendar = select (λ d. ltb day d) calendar

none_before :
    (day d : ℕ) (ds : List ℕ) → day < d → All (λ e. d < e) ds → count (λ e. leb e day) ds ≡ 0
none_before day d [] h a = refl
none_before day d (e ∷ ds) h a = let e' = a.0 in ground (arith, none_before day d ds h a.1)

All-later : (day d : ℕ) (ds : List ℕ) → day < d → All (λ e. d < e) ds → later day ds ≡ ds
All-later day d [] h a = refl
All-later day d (e ∷ ds) h a = let e' = a.0 in ground (arith, All-later day d ds h a.1)

get_elem?-later :
    (calendar : List ℕ) (day k : ℕ)
    → Ascends calendar
    → get_elem? calendar (count (λ d. leb d day) calendar + k) ≡ get_elem? (later day calendar) k
get_elem?-later [] day k h = refl
get_elem?-later (d ∷ ds) day k h = elim (Bool-cases (leb d day)) [
  | inl y ↦
      let ih = get_elem?-later ds day k h.1 in
      let far : ltb day d ≡ false = ground arith in
      let next : count (λ e. leb e day) (d ∷ ds) + k ≡ suc (count (λ e. leb e day) ds + k) =
        ground arith in
      ap (get_elem? (d ∷ ds)) next ∙ ih ∙ rw far refl
  | inr n ↦
      let lt : day < d = ground arith in
      let near : ltb day d ≡ true = ground arith in
      let start : count (λ e. leb e day) (d ∷ ds) + k ≡ k =
        ground (arith, none_before day d ds lt h.0) in
      let tail : later day (d ∷ ds) ≡ d ∷ ds =
        rw near (ap (λ es. d ∷ es) (All-later day d ds lt h.0)) in
      ap (get_elem? (d ∷ ds)) start ∙ ap (λ es. get_elem? es k) (sym tail)
]

none_smaller :
    (day d : ℕ) (ds : List ℕ) → day < suc d → All (λ e. d < e) ds → count (λ e. ltb e day) ds ≡ 0
none_smaller day d [] h a = refl
none_smaller day d (e ∷ ds) h a = let e' = a.0 in ground (arith, none_smaller day d ds h a.1)

none_same :
    (day d : ℕ) (ds : List ℕ) → day < suc d → All (λ e. d < e) ds → any (λ e. e == day) ds ≡ false
none_same day d [] h a = refl
none_same day d (e ∷ ds) h a = let e' = a.0 in ground (arith, none_same day d ds h a.1)

same_day :
    (calendar : List ℕ) (day : ℕ)
    → Ascends calendar
    → day_if (get_elem? calendar (count (λ d. ltb d day) calendar)) day
      ≡ (if any (λ d. d == day) calendar then some day else none)
same_day [] day h = refl
same_day (d ∷ ds) day h = elim (Bool-cases (ltb d day)) [
  | inl y ↦
      let ih = same_day ds day h.1 in
      let other : (d == day) ≡ false = ground arith in
      let next : count (λ e. ltb e day) (d ∷ ds) ≡ suc (count (λ e. ltb e day) ds) = ground arith in
      ap (λ i. day_if (get_elem? (d ∷ ds) i) day) next ∙ ih ∙ rw other refl
  | inr n ↦
      let le : day < suc d = ground arith in
      rw (n, none_smaller day d ds le h.0, none_same day d ds le h.0) (ground arith)
]

-- On a strictly ascending calendar: N = 0 gives the day itself exactly when it is a trading day,
-- and N + 1 gives the entry at place N of the trading days after the day, or none if there are
-- not so many, whether or not the day itself is in the calendar.
pub nth_trading_day_lem :
    (calendar : List ℕ) (day : ℕ)
    → Ascends calendar
    → (nth_trading_day calendar day 0 ≡ (if any (λ d. d == day) calendar then some day else none))
      × ((n : ℕ) → nth_trading_day calendar day (suc n) ≡ get_elem? (later day calendar) n)
unfolding nth_trading_day bisect_left bisect_right
nth_trading_day_lem calendar day h =
    (same_day calendar day h, λ n. get_elem?-later calendar day n h)
