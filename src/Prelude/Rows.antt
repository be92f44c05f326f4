-- ===== src/Prelude/Rows.antt =====
-- Queries on a table: what a lookup finds after rows are rewritten, added or deleted.
use Prim.Native.Nat.{ℕ}
use mathlib.Core.Path.{◌≡◌, refl, subst}
use mathlib.Core.Logic.{inl, inr}
use mathlib.Core.Bool.{Bool, true, false}
use mathlib.Core.Option.{Option, none, some}
use mathlib.Core.Option
use mathlib.Core.List.{List, [], ◌∷◌, ◌++◌, map}
use native.Mathlib.Omega.{arith}
use stock_quant_backend.Prelude.Lists.{All, any, find, select}
use stock_quant_backend.Prelude.Tests.{Bool-cases, ◌==◌}
use stock_quant_backend.Prelude.Distinct.{Distinct}

-- A rewrite that a query's test does not see maps the query's result.
pub find-map :
    {A : Type 0} (p : A → Bool) (f : A → A) (xs : List A)
    → ((x : A) → p (f x) ≡ p x)
    → find p (map f xs) ≡ Option.map f (find p xs)
find-map p f [] h = refl
find-map p f (x ∷ xs) h = elim (Bool-cases (p x)) [
  | inl e ↦ rw (h x, e)
  | inr e ↦ rw (h x, e) (find-map p f xs h)
]

pub find_sound : {A : Type 0} (p : A → Bool) (xs : List A) (a : A) → find p xs ≡ some a → p a ≡ true
find_sound p [] a h = cc
find_sound p (x ∷ xs) a h = elim (Bool-cases (p x)) [
  | inl e ↦ ground arith
  | inr e ↦ find_sound p xs a (ground arith)
]

pub All-find :
    {A : Type 0} (P : A → Type 0) (p : A → Bool) (xs : List A) (a : A)
    → All P xs
    → find p xs ≡ some a
    → P a
All-find P p [] a h e = cc
All-find P p (x ∷ xs) a h e = elim (Bool-cases (p x)) [
  | inl y ↦ subst P (ground arith) h.0
  | inr n ↦ All-find P p xs a h.1 (ground arith)
]

pub find-append :
    {A : Type 0} (p : A → Bool) (xs ys : List A)
    → find p (xs ++ ys) ≡ elim (find p xs) [ none ↦ find p ys | some s ↦ some s ]
find-append p [] ys = refl
find-append p (x ∷ xs) ys = ground (arith, find-append p xs ys)

-- What a lookup that fails says of the rows.
pub find-none : {A : Type 0} (p : A → Bool) (xs : List A) → find p xs ≡ none → any p xs ≡ false
find-none p [] e = refl
find-none p (x ∷ xs) e = ground (arith, find-none p xs)

-- Two queries that find rows with one id find one row.
pub found_same :
    {A : Type 0} (id : A → ℕ) (p q : A → Bool) (xs : List A) (a b : A)
    → Distinct (λ x y. id x == id y) xs
    → find p xs ≡ some a
    → find q xs ≡ some b
    → id a ≡ id b
    → a ≡ b
found_same id p q [] a b d e f h = absurd (cc)
found_same id p q (x ∷ xs) a b d e f h = elim (Bool-cases (p x)) [
  | inl y ↦ elim (Bool-cases (q x)) [
    | inl z ↦ ground arith
    | inr z ↦
        let far = All-find (λ t. (id x == id t) ≡ false) q xs b d.0 (ground arith) in
        absurd (ground arith)
  ]
  | inr y ↦ elim (Bool-cases (q x)) [
    | inl z ↦
        let far = All-find (λ t. (id x == id t) ≡ false) p xs a d.0 (ground arith) in
        absurd (ground arith)
    | inr z ↦ found_same id p q xs a b d.1 (ground arith) (ground arith) h
  ]
]

-- Of two filters in a row that no row passes both, nothing is left.
pub select_apart :
    {A : Type 0} (p q : A → Bool) (xs : List A)
    → ((x : A) → q x ≡ true → p x ≡ false)
    → select p (select q xs) ≡ []
select_apart p q [] h = refl
select_apart p q (x ∷ xs) h = ground (arith, h x, select_apart p q xs h)

-- A filter after a weaker one.
pub select_within :
    {A : Type 0} (p q : A → Bool) (xs : List A)
    → ((x : A) → p x ≡ true → q x ≡ true)
    → select p (select q xs) ≡ select p xs
select_within p q [] h = refl
select_within p q (x ∷ xs) h = ground (arith, h x, select_within p q xs h)

pub select-append :
    {A : Type 0} (p : A → Bool) (xs ys : List A) → select p (xs ++ ys) ≡ select p xs ++ select p ys
select-append p [] ys = refl
select-append p (x ∷ xs) ys = ground (arith, select-append p xs ys)

pub select_none : {A : Type 0} (p : A → Bool) (xs : List A) → any p xs ≡ false → select p xs ≡ []
select_none p [] h = refl
select_none p (x ∷ xs) h = ground (arith, select_none p xs)
