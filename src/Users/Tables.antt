-- ===== src/Users/Tables.antt =====
-- Lookups in a table whose rows have been rewritten in place.
use stock_quant_backend.Prelude.{
  ℕ, ◌≡◌, ◌≢◌, refl, true, false, ◌&&◌, none, some, List, [], ◌∷◌, map, ◌==◌, All, arith,
  Bool-cases, Option-cases, inl, inr,
}
use mathlib.Core.Option
use stock_quant_backend.Prelude.Text.{Text, text_eq}
use stock_quant_backend.Prelude.Rows.{find-map, find_sound}
use stock_quant_backend.Users.{
  User, EmailToken, World, get_usable_email_token, is_usable, Purpose, purpose_eq, find_user,
  update_user, find_token, use_token, retire, is_used, is_outstanding,
}

pub find_user-id : (k : ℕ) (us : List User) (u : User) → find_user k us ≡ some u → u.id ≡ k
unfolding find_user
find_user-id k us u h =
    let e : (u.id == k) ≡ true = find_sound (λ v. v.id == k) us u h in ground arith

-- An update of a row is what its id finds, and no other id finds anything else.
pub find_user-update_user_self :
    (k : ℕ) (f : User → User) (us : List User) (u : User)
    → ((v : User) → (f v).id ≡ v.id)
    → find_user k us ≡ some u
    → find_user k (update_user k f us) ≡ some (f u)
unfolding find_user update_user
find_user-update_user_self k f [] u h e = cc
find_user-update_user_self k f (x ∷ us) u h e =
    ground (arith, h x, find_user-update_user_self k f us u h)

pub find_user-update_user_ne :
    (j k : ℕ) (f : User → User) (us : List User)
    → ((v : User) → (f v).id ≡ v.id)
    → j ≢ k
    → find_user j (update_user k f us) ≡ find_user j us
unfolding find_user update_user
find_user-update_user_ne j k f [] h e = refl
find_user-update_user_ne j k f (x ∷ us) h e =
    ground (arith, h x, find_user-update_user_ne j k f us h e)

-- Afterwards no token of the user and the purpose is outstanding.
pub retire-All :
    (now k : ℕ) (p : Purpose) (ts : List EmailToken)
    → All (λ t. is_outstanding k p t ≡ false) (map (retire now k p) ts)
unfolding retire
retire-All now k p [] = tt
retire-All now k p (t ∷ ts) = elim (Bool-cases (is_outstanding k p t)) [
  | inl e ↦ rw e (ground arith, retire-All now k p ts)
  | inr e ↦ rw e (e, retire-All now k p ts)
]

-- Using or retiring tokens does not change which one a query finds.
pub find_token-use :
    (p : Purpose) (h : Text) (now : ℕ) (t : EmailToken) (ts : List EmailToken)
    → find_token p h (map (use_token now t) ts) ≡ Option.map (use_token now t) (find_token p h ts)
unfolding find_token use_token
find_token-use p h now t ts =
    find-map (λ s. text_eq s.token_hash h && purpose_eq s.purpose p) (use_token now t) ts
      (λ s. ground arith)

pub find_token-retire :
    (p q : Purpose) (h : Text) (now k : ℕ) (ts : List EmailToken)
    → find_token p h (map (retire now k q) ts) ≡ Option.map (retire now k q) (find_token p h ts)
unfolding find_token retire
find_token-retire p q h now k ts =
    find-map (λ s. text_eq s.token_hash h && purpose_eq s.purpose p) (retire now k q) ts
      (λ s. ground arith)

-- What a usable token is.
pub get_usable_inv :
    (now : ℕ) (p : Purpose) (h : Text) (w : World) (t : EmailToken)
    → get_usable_email_token now p h w ≡ some t
    → (find_token p h w.tokens ≡ some t) × (is_usable now t ≡ true)
unfolding get_usable_email_token
get_usable_inv now p h w t e = elim (Option-cases (find_token p h w.tokens)) [
  | inl m ↦ absurd (ground arith)
  | inr (s, m) ↦ ground arith
]

-- No used token is ever found usable.
pub get_usable_used :
    (now : ℕ) (p : Purpose) (h : Text) (w : World) (t : EmailToken)
    → find_token p h w.tokens ≡ some t
    → is_used t ≡ true
    → get_usable_email_token now p h w ≡ none
unfolding get_usable_email_token
get_usable_used now p h w t e u = ground arith
