-- ===== src/Backtest/Ordering.antt =====
-- The orders that the detail table is sorted by (`_detail_sort_key` of app/backtest.py): each is
-- total and transitive, so that a sorted table is one in which no later row comes before an earlier.
use stock_quant_backend.Prelude.{
  ℕ, ◌≡◌, refl, ◌⊎◌, inl, inr, Bool, true, ◌&&◌, ◌||◌, [], ◌∷◌, arith, Bool-cases, ltb, leb, ◌==◌,
  if◌then◌else◌,
}
use stock_quant_backend.Prelude.Text.{Text, codes, text_eq, text_leb}
use stock_quant_backend.Backtest.{Floats, BacktestDetailRow}
use stock_quant_backend.Backtest.Engine.{detail_leb, tie_leb, float_leb}

abbrev pub IsTotal : {A : Type 0} → (A → A → Bool) → Type 0
IsTotal {A = A} le = (a b : A) → (le a b ≡ true) ⊎ (le b a ≡ true)

abbrev pub IsTransitive : {A : Type 0} → (A → A → Bool) → Type 0
IsTransitive {A = A} le = (a b c : A) → le a b ≡ true → le b c ≡ true → le a c ≡ true

-- A comparison with its equality, as Python's tuples use them.
pub record IsComparison {A : Type 0} (less same : A → A → Bool) : Type 0 where
  pub connected : (a b : A) → (less a b ≡ true) ⊎ ((same a b ≡ true) ⊎ (less b a ≡ true))
  pub less_trans : (a b c : A) → less a b ≡ true → less b c ≡ true → less a c ≡ true
  pub less_same : (a b c : A) → less a b ≡ true → same b c ≡ true → less a c ≡ true
  pub same_less : (a b c : A) → same a b ≡ true → less b c ≡ true → less a c ≡ true
  pub same_trans : (a b c : A) → same a b ≡ true → same b c ≡ true → same a c ≡ true
  pub same_sym : (a b : A) → same a b ≡ true → same b a ≡ true

-- A tuple: the first part decides, and where it is the same, the rest.
module _ {A B : Type 0} {less same : A → A → Bool} (c : IsComparison less same) (f : B → A)
    (le : B → B → Bool) where
  abbrev tuple_leb : B → B → Bool
  tuple_leb r s = less (f r) (f s) || (same (f r) (f s) && le r s)

  tuple-IsTotal : IsTotal le → IsTotal tuple_leb
  tuple-IsTotal h r s = elim (c.connected (f r) (f s)) [
    | inl e ↦ inl (ground arith)
    | inr (inl e) ↦
        let e' = c.same_sym (f r) (f s) e in
        elim (h r s) [ inl k ↦ inl (ground arith) | inr k ↦ inr (ground arith) ]
    | inr (inr e) ↦ inr (ground arith)
  ]

  tuple_cases :
      (r s : B)
      → tuple_leb r s ≡ true
      → (less (f r) (f s) ≡ true) ⊎ ((same (f r) (f s) ≡ true) × (le r s ≡ true))
  tuple_cases r s h = elim (Bool-cases (less (f r) (f s))) [
    | inl e ↦ inl e
    | inr e ↦ inr (ground arith, ground arith)
  ]

  tuple-IsTransitive : IsTransitive le → IsTransitive tuple_leb
  tuple-IsTransitive h r s t x y = elim (tuple_cases r s x) [
    | inl a ↦ elim (tuple_cases s t y) [
      | inl b ↦ let e = c.less_trans (f r) (f s) (f t) a b in ground arith
      | inr (b, k) ↦ let e = c.less_same (f r) (f s) (f t) a b in ground arith
    ]
    | inr (a, i) ↦ elim (tuple_cases s t y) [
      | inl b ↦ let e = c.same_less (f r) (f s) (f t) a b in ground arith
      | inr (b, k) ↦
          let e = c.same_trans (f r) (f s) (f t) a b in let l = h r s t i k in ground arith
    ]
  ]

pub days_compare : IsComparison {A = ℕ} (λ a b. ltb a b) (λ a b. a == b)
days_compare = record {
  connected = λ a b. elim (Bool-cases (ltb a b)) [
    | inl l ↦ inl l
    | inr m ↦ elim (Bool-cases (a == b)) [ inl e ↦ inr (inl e) | inr n ↦ inr (inr (ground arith)) ]
  ];
  less_trans = λ a b c h k. ground arith;
  less_same = λ a b c h k. ground arith;
  same_less = λ a b c h k. ground arith;
  same_trans = λ a b c h k. ground arith;
  same_sym = λ a b h. ground arith;
}

text-IsTotal : IsTotal text_leb
unfolding text_leb
text-IsTotal [] b = inl refl
text-IsTotal (x ∷ a) [] = inr refl
text-IsTotal (x ∷ a) (y ∷ b) = elim (days_compare.connected x y) [
  | inl l ↦ inl (ground arith)
  | inr (inl e) ↦ elim (text-IsTotal a b) [
    | inl h ↦ inl (ground arith)
    | inr h ↦ inr (ground arith)
  ]
  | inr (inr g) ↦ inr (ground arith)
]

text-IsTransitive : IsTransitive text_leb
unfolding text_leb
text-IsTransitive [] b c h k = refl
text-IsTransitive (x ∷ a) [] c h k = absurd (ground arith)
text-IsTransitive (x ∷ a) (y ∷ b) [] h k = absurd (ground arith)
text-IsTransitive (x ∷ a) (y ∷ b) (z ∷ c) h k = ground (arith, text-IsTransitive a b c)

text_antisym : (a b : Text) → text_leb a b ≡ true → text_leb b a ≡ true → a ≡ b
unfolding text_leb
text_antisym [] [] h k = refl
text_antisym [] (y ∷ b) h k = absurd (ground arith)
text_antisym (x ∷ a) [] h k = absurd (ground arith)
text_antisym (x ∷ a) (y ∷ b) h k = ground (arith, text_antisym a b)

-- (symbol, date), with the symbols compared first for equality.
abbrev pub pair_leb : Text → ℕ → Text → ℕ → Bool
pair_leb a x b y = if text_eq a b then leb x y else text_leb a b

pair_total : (a b : Text) (x y : ℕ) → (pair_leb a x b y ≡ true) ⊎ (pair_leb b y a x ≡ true)
pair_total a b x y = elim (Bool-cases (text_eq a b)) [
  | inl e ↦ elim (Bool-cases (leb x y)) [ inl l ↦ inl (ground arith) | inr l ↦ inr (ground arith) ]
  | inr e ↦ elim (text-IsTotal a b) [ inl l ↦ inl (ground arith) | inr l ↦ inr (ground arith) ]
]

pair_trans :
    (a b c : Text) (x y z : ℕ)
    → pair_leb a x b y ≡ true
    → pair_leb b y c z ≡ true
    → pair_leb a x c z ≡ true
pair_trans a b c x y z h k = elim (Bool-cases (text_eq a b)) [
  | inl e ↦ ground arith
  | inr e ↦ elim (Bool-cases (text_eq b c)) [
    | inl f ↦ ground arith
    | inr f ↦ elim (Bool-cases (text_eq a c)) [
      | inl g ↦ absurd (ground (arith, text_antisym a b))
      | inr g ↦ ground (arith, text-IsTransitive a b c)
    ]
  ]
]

module _ {F : Type 0} (fl : Floats F) (floats : IsComparison fl.less fl.same) where
  tie-IsTotal : IsTotal {A = BacktestDetailRow F} (tie_leb fl)
  tie-IsTotal =
      tuple-IsTotal days_compare (λ r. r.trade_date) (λ r s. text_leb r.symbol s.symbol)
        (λ r s. text-IsTotal r.symbol s.symbol)

  tie-IsTransitive : IsTransitive {A = BacktestDetailRow F} (tie_leb fl)
  tie-IsTransitive =
      tuple-IsTransitive days_compare (λ r. r.trade_date) (λ r s. text_leb r.symbol s.symbol)
        (λ r s t. text-IsTransitive r.symbol s.symbol t.symbol)

  float-IsTotal : (f : BacktestDetailRow F → F) → IsTotal (float_leb fl f)
  float-IsTotal f = tuple-IsTotal floats f (tie_leb fl) tie-IsTotal

  float-IsTransitive : (f : BacktestDetailRow F → F) → IsTransitive (float_leb fl f)
  float-IsTransitive f = tuple-IsTransitive floats f (tie_leb fl) tie-IsTransitive

  abbrev exit_leb : BacktestDetailRow F → BacktestDetailRow F → Bool
  exit_leb r s = ltb r.exit_date s.exit_date || (r.exit_date == s.exit_date && tie_leb fl r s)

  abbrev symbol_leb : BacktestDetailRow F → BacktestDetailRow F → Bool
  symbol_leb r s = pair_leb r.symbol r.trade_date s.symbol s.trade_date

  -- A property of the five kinds of order is one of the order by any key.
  by_key :
      (P : (BacktestDetailRow F → BacktestDetailRow F → Bool) → Type 0) (key : Text)
      → P (tie_leb fl)
      → P symbol_leb
      → P exit_leb
      → ((f : BacktestDetailRow F → F) → P (float_leb fl f))
      → P (λ r s. detail_leb fl key r s)
  unfolding detail_leb
  by_key P key tie symbol exit float = elim (Bool-cases (text_eq key (codes "trade_date"))) [
    | inl e ↦ rw e tie
    | inr e1 ↦ elim (Bool-cases (text_eq key (codes "symbol"))) [
      | inl e ↦ rw (e1, e) symbol
      | inr e2 ↦ elim (Bool-cases (text_eq key (codes "exit_date"))) [
        | inl e ↦ rw (e1, e2, e) exit
        | inr e3 ↦ elim (Bool-cases (text_eq key (codes "entry_price"))) [
          | inl e ↦ rw (e1, e2, e3, e) (float (λ x. x.entry_price))
          | inr e4 ↦ elim (Bool-cases (text_eq key (codes "exit_price"))) [
            | inl e ↦ rw (e1, e2, e3, e4, e) (float (λ x. x.exit_price))
            | inr e5 ↦ elim (Bool-cases (text_eq key (codes "change"))) [
              | inl e ↦ rw (e1, e2, e3, e4, e5, e) (float (λ x. x.change))
              | inr e6 ↦ rw (e1, e2, e3, e4, e5, e6) (float (λ x. x.return_pct))
            ]
          ]
        ]
      ]
    ]
  ]

  pub detail-IsTotal : (key : Text) → IsTotal (detail_leb fl key)
  detail-IsTotal key =
      by_key IsTotal key tie-IsTotal (λ r s. pair_total r.symbol s.symbol r.trade_date s.trade_date)
        (tuple-IsTotal days_compare (λ r. r.exit_date) (tie_leb fl) tie-IsTotal) float-IsTotal

  pub detail-IsTransitive : (key : Text) → IsTransitive (detail_leb fl key)
  detail-IsTransitive key =
      by_key IsTransitive key tie-IsTransitive
        (λ r s t. pair_trans r.symbol s.symbol t.symbol r.trade_date s.trade_date t.trade_date)
        (tuple-IsTransitive days_compare (λ r. r.exit_date) (tie_leb fl) tie-IsTransitive)
        float-IsTransitive
