-- ===== src/Http.antt =====
-- How a request handler ends (app/routers/): a value, an `HTTPException`, or an exception that
-- nothing catches. A handler is a function of the state, which comes back after a raise too:
-- what was committed stays committed.
use stock_quant_backend.Prelude.{
  ℕ, ◌≡◌, refl, sym, ap, ◌∙◌, ◌⊎◌, inl, inr, Bool, true, false, Option, none, some,
}

pub data Failure : Type 0 where
  -- 429, with the `Retry-After` seconds
  too_many_requests : ℕ → Failure
  -- 409, 401, 400, 422 and 503
  conflict unauthorized bad_request unprocessable unavailable : Failure
  -- an uncaught exception, answered 500
  integrity_error index_error type_error value_error smtp_error : Failure

pub data Result (A : Type 0) : Type 0 where
  ok : A → Result A
  raise : Failure → Result A

abbrev pub Action : Type 0 → Type 0 → Type 0
Action S A = S → Result A × S

module _ {S : Type 0} where
  abbrev pub pure : {A : Type 0} → A → Action S A
  pure a s = (ok a, s)

  abbrev pub throw : {A : Type 0} → Failure → Action S A
  throw e s = (raise e, s)

  abbrev pub gets : {A : Type 0} → (S → A) → Action S A
  gets f s = (ok (f s), s)

  abbrev pub modify : (S → S) → Action S (Unit {0})
  modify f s = (ok tt, f s)

  -- `if c: raise e`
  abbrev pub raise_if : Bool → Failure → Action S (Unit {0})
  raise_if true e s = (raise e, s)
  raise_if false e s = (ok tt, s)

  -- The value of an option, or an exception.
  abbrev pub or_raise : {A : Type 0} → Option A → Failure → Action S A
  or_raise none e s = (raise e, s)
  or_raise (some a) e s = (ok a, s)

  infixl 5 ◌>>=◌ ◌>>◌
  unfoldable pub ◌>>=◌ : {A B : Type 0} → Action S A → (A → Action S B) → Action S B
  ◌>>=◌ m f s = let (r, s') = m s in elim r [ ok a ↦ f a s' | raise e ↦ (raise e, s') ]

  abbrev pub ◌>>◌ : {A B : Type 0} → Action S A → Action S B → Action S B
  m >> k = m >>= λ _. k

pub Result-cases :
    {A : Type 0} (r : Result A) → ((e : Failure) × (r ≡ raise e)) ⊎ ((a : A) × (r ≡ ok a))
Result-cases (raise e) = inl (e, refl)
Result-cases (ok a) = inr (a, refl)

-- How a call ended, with the state that it left.
pub outcome :
    {A S : Type 0} (p : Result A × S)
    → ((a : A) × (s : S) × (p ≡ (ok a, s))) ⊎ ((e : Failure) × (s : S) × (p ≡ (raise e, s)))
outcome (ok a, s) = inl (a, s, refl)
outcome (raise e, s) = inr (e, s, refl)

module _ {S A B : Type 0} (m : Action S A) (f : A → Action S B) (s : S) where
  step : Result A × S → Result B × S
  step p = elim p.0 [ ok a ↦ f a p.1 | raise e ↦ (raise e, p.1) ]

  pub >>=-ok : {a : A} {s' : S} → m s ≡ (ok a, s') → (m >>= f) s ≡ f a s'
  unfolding step ◌>>=◌
  >>=-ok e = ap step e

  pub >>=-raise : {e : Failure} {s' : S} → m s ≡ (raise e, s') → (m >>= f) s ≡ (raise e, s')
  unfolding step ◌>>=◌
  >>=-raise e = ap step e

  -- A call that succeeded was a success of its first part and of the rest.
  pub >>=-eq-ok :
      (b : B) (s' : S)
      → (m >>= f) s ≡ (ok b, s')
      → (a : A) × (t : S) × (m s ≡ (ok a, t)) × (f a t ≡ (ok b, s'))
  >>=-eq-ok b s' h = elim (outcome (m s)) [
    | inl (a, t, e) ↦ (a, t, e, sym (>>=-ok e) ∙ h)
    | inr (x, t, e) ↦ absurd (cc (>>=-raise e, h))
  ]
