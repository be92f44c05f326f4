-- ===== src/Prelude/Distinct.antt =====
-- Rows with distinct keys, for a key equality given as a Boolean test.
use mathlib.Core.Path.{◌≡◌, refl, ◌∙◌}
use mathlib.Core.Logic.{inl, inr}
use mathlib.Core.Bool.{Bool, true, false}
use mathlib.Core.List.{List, [], ◌∷◌, ◌++◌, map}
use native.Mathlib.Omega.{arith}
use stock_quant_backend.Prelude.Lists.{All, any, select}
use stock_quant_backend.Prelude.Tests.{Bool-cases}

module _ {A : Type 0} where
  abbrev pub Distinct : (A → A → Bool) → List A → Type 0
  Distinct same [] = Unit
  Distinct same (x ∷ xs) = All (λ y. same x y ≡ false) xs × Distinct same xs

  pub All-map :
      (P : A → Type 0) (f : A → A) (xs : List A)
      → ((x : A) → P x → P (f x))
      → All P xs
      → All P (map f xs)
  All-map P f [] k h = tt
  All-map P f (x ∷ xs) k h = (k x h.0, All-map P f xs k h.1)

  -- An update that leaves the keys alone.
  pub Distinct-map :
      (same : A → A → Bool) (f : A → A) (xs : List A)
      → ((x y : A) → same (f x) (f y) ≡ same x y)
      → Distinct same xs
      → Distinct same (map f xs)
  Distinct-map same f [] k h = tt
  Distinct-map same f (x ∷ xs) k h = (rest xs h.0, Distinct-map same f xs k h.1)
    where
      rest :
          (ys : List A)
          → All (λ y. same x y ≡ false) ys
          → All (λ y. same (f x) y ≡ false) (map f ys)
      rest [] h = tt
      rest (y ∷ ys) h = (k x y ∙ h.0, rest ys h.1)

  -- A row whose key is new.
  pub Distinct-append :
      (same : A → A → Bool) (xs : List A) (new : A)
      → any (λ x. same x new) xs ≡ false
      → Distinct same xs
      → Distinct same (xs ++ new ∷ [])
  Distinct-append same [] new e h = (tt, tt)
  Distinct-append same (x ∷ xs) new e h =
      (rest xs h.0, Distinct-append same xs new (ground arith) h.1)
    where
      rest :
          (ys : List A)
          → All (λ y. same x y ≡ false) ys
          → All (λ y. same x y ≡ false) (ys ++ new ∷ [])
      rest [] h = (ground arith, tt)
      rest (y ∷ ys) h = (h.0, rest ys h.1)

  pub any_mono :
      (p q : A → Bool) (xs : List A)
      → ((x : A) → q x ≡ true → p x ≡ true)
      → any p xs ≡ false
      → any q xs ≡ false
  any_mono p q [] k e = refl
  any_mono p q (x ∷ xs) k e = ground (arith, k x, any_mono p q xs k)

  pub any-append_left : (p : A → Bool) (xs ys : List A) → any p xs ≡ true → any p (xs ++ ys) ≡ true
  any-append_left p [] ys e = absurd (cc)
  any-append_left p (x ∷ xs) ys e = ground (arith, any-append_left p xs ys)

  pub any-map :
      (p : A → Bool) (f : A → A) (xs : List A)
      → ((x : A) → p (f x) ≡ p x)
      → any p (map f xs) ≡ any p xs
  any-map p f [] k = refl
  any-map p f (x ∷ xs) k = rw (k x, any-map p f xs k)

  pub All-select : (P : A → Type 0) (q : A → Bool) (xs : List A) → All P xs → All P (select q xs)
  All-select P q [] h = tt
  All-select P q (x ∷ xs) h = elim (Bool-cases (q x)) [
    | inl e ↦ rw e (h.0, All-select P q xs h.1)
    | inr e ↦ rw e (All-select P q xs h.1)
  ]

  pub Distinct-select :
      (same : A → A → Bool) (q : A → Bool) (xs : List A)
      → Distinct same xs
      → Distinct same (select q xs)
  Distinct-select same q [] h = tt
  Distinct-select same q (x ∷ xs) h = elim (Bool-cases (q x)) [
    | inl e ↦ rw e (All-select (λ y. same x y ≡ false) q xs h.0, Distinct-select same q xs h.1)
    | inr e ↦ rw e (Distinct-select same q xs h.1)
  ]
