-- ===== src/Prices/Calendar.antt =====
-- The trading calendar that the backtest counts on is ascending and free of duplicates, and holds
-- exactly the dates of the price table.
use stock_quant_backend.Prelude.{
  ℕ, ◌≤◌, ◌<◌, ◌≡◌, refl, ◌∙◌, true, not, List, [], ◌∷◌, map, if◌then◌else◌, All, any, count,
  select, arith, Bool-cases, inl, inr, ◌⊎◌, ◌==◌, leb,
}
use stock_quant_backend.Prelude.Order.{distinct, sort_by, count-sort_by, IsSorted, sort_by-IsSorted}
use stock_quant_backend.Prices.{DailyPrice, list_price_trading_days}

-- Strictly ascending.
abbrev pub Ascends : List ℕ → Type 0
Ascends [] = Unit
Ascends (d ∷ ds) = All (λ e. d < e) ds × Ascends ds

count-select_ne :
    (d e : ℕ) (ds : List ℕ)
    → count (λ x. x == d) (select (λ x. not (x == e)) ds)
      ≡ (if e == d then 0 else count (λ x. x == d) ds)
count-select_ne d e [] = ground arith
count-select_ne d e (x ∷ ds) = ground (arith, count-select_ne d e ds)

-- Each date stands once.
count-distinct :
    (d : ℕ) (ds : List ℕ)
    → count (λ x. x == d) (distinct ds) ≡ (if any (λ x. x == d) ds then 1 else 0)
unfolding distinct
count-distinct d [] = refl
count-distinct d (e ∷ ds) = ground (arith, count-select_ne d e (distinct ds), count-distinct d ds)

leb_total : (a b : ℕ) → (leb a b ≡ true) ⊎ (leb b a ≡ true)
leb_total a b = elim (Bool-cases (leb a b)) [ inl e ↦ inl e | inr e ↦ inr (ground arith) ]

leb_trans : (a b c : ℕ) → leb a b ≡ true → leb b c ≡ true → leb a c ≡ true
leb_trans a b c h k = ground arith

-- A sorted list in which nothing stands twice ascends.
above :
    (d : ℕ) (ds : List ℕ)
    → All (λ e. leb d e ≡ true) ds
    → count (λ x. x == d) ds ≡ 0
    → All (λ e. d < e) ds
above d [] h c = tt
above d (e ∷ ds) h c = let le = h.0 in (ground arith, above d ds h.1 (ground arith))

Ascends-of_once :
    (ds : List ℕ) → IsSorted leb ds → ((d : ℕ) → count (λ x. x == d) ds ≤ 1) → Ascends ds
Ascends-of_once [] h c = tt
Ascends-of_once (d ∷ ds) h c = (
  above d ds h.0 (let k = c d in ground arith),
  Ascends-of_once ds h.1 (λ e. let k = c e in ground arith),
)

-- `sorted` of a set.
pub count-sorted_distinct :
    (d : ℕ) (ds : List ℕ)
    → count (λ x. x == d) (sort_by leb (distinct ds)) ≡ (if any (λ x. x == d) ds then 1 else 0)
count-sorted_distinct d ds = count-sort_by leb (λ x. x == d) (distinct ds) ∙ count-distinct d ds

pub sorted_distinct-Ascends : (ds : List ℕ) → Ascends (sort_by leb (distinct ds))
sorted_distinct-Ascends ds =
    Ascends-of_once _ (sort_by-IsSorted leb leb_total leb_trans (distinct ds))
      (λ d. let k = count-sorted_distinct d ds in ground arith)

module _ {D : Type 0} (rows : List (DailyPrice D)) where
  -- Whatever the table holds, the calendar is strictly ascending, and a date stands in it exactly
  -- when some row has it.
  pub list_price_trading_days_lem :
      Ascends (list_price_trading_days rows)
      × ((d : ℕ)
          → count (λ x. x == d) (list_price_trading_days rows)
            ≡ (if any (λ x. x == d) (map (λ r. r.trade_date) rows) then 1 else 0))
  unfolding list_price_trading_days
  list_price_trading_days_lem =
      let days = map (λ r. r.trade_date) rows in
      (sorted_distinct-Ascends days, λ d. count-sorted_distinct d days)
