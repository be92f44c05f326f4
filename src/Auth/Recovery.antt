-- ===== src/Auth/Recovery.antt =====
-- A lost password: `forgot_password`, then `reset_password` with the link, then `login`.
use stock_quant_backend.Prelude.{
  ℕ, ◌+◌, ◌*◌, ◌<◌, ◌≡◌, refl, ap, sym, ◌∙◌, Bool, true, false, Option, none, some, List, [], ◌∷◌,
  ◌++◌, map, any, find, arith, Bool-cases, Option-cases, inl, inr, ◌==◌, if◌then◌else◌,
}
use mathlib.Core.Option
use stock_quant_backend.Prelude.Text.{Text, text_eq_self}
use stock_quant_backend.Prelude.Rows.{find-append, find-map, found_same}
use stock_quant_backend.Prelude.Distinct.{Distinct}
use stock_quant_backend.Http.{Result, ok, raise, ◌>>=◌}
use stock_quant_backend.RateLimit.{Limiter, second}
use stock_quant_backend.Users.{
  User, World, password_reset_link, get_user_by_email, find_user_by_email, find_user, find_token,
  update_user, get_usable_email_token, retire, with_password, verified_at, email_verified,
}
use stock_quant_backend.Users.Tables.{find_token-retire}
use stock_quant_backend.Security.{Crypto, Settings}
use stock_quant_backend.Auth.{
  Request, MessageResponse, generic_email_ack, signed_in, forgot_password, reset_password, login,
}
use stock_quant_backend.Auth.Invariant.{IsWellFormed}
use stock_quant_backend.Auth.Mailing.{
  IsFresh, issued, mailed, served, gate, forgotten, forgot_password_lem, normalized,
  stored_of_found,
}
use stock_quant_backend.Auth.Reset.{reset_user, reset_users, reset_world, apply_reset_lem}
use stock_quant_backend.Auth.Entry.{login_gate, unless_refused, entered-unless_refused, login_lem}

find_nothing :
    {A : Type 0} (p q : A → Bool) (xs : List A)
    → ((x : A) → q x ≡ false → p x ≡ false)
    → any q xs ≡ false
    → find p xs ≡ none
find_nothing p q [] k h = refl
find_nothing p q (x ∷ xs) k h = ground (arith, k x, find_nothing p q xs k)

find_something :
    {A : Type 0} (p : A → Bool) (xs : List A)
    → any p xs ≡ true
    → (x : A) × (find p xs ≡ some x) × (p x ≡ true)
find_something p [] h = absurd (cc)
find_something p (x ∷ xs) h = elim (Bool-cases (p x)) [
  | inl y ↦ (x, ground arith, y)
  | inr n ↦ let (z, found, holds) = find_something p xs (ground arith) in (z, ground arith, holds)
]

-- The account that an address finds is found by its id.
found_by_id :
    (email : Text) (us : List User) (u : User)
    → Distinct (λ (x y : User). x.id == y.id) us
    → find_user_by_email email us ≡ some u
    → find_user u.id us ≡ some u
unfolding find_user_by_email find_user
found_by_id email us u distinct e =
    let (v, found, same) = find_something (λ v. v.id == u.id) us (stored_of_found email us u e) in
    let one = found_same (λ (x : User). x.id) _ _ us v u distinct found e (ground arith) in
    found ∙ ap some one

-- An update by id of a row that an address finds.
find_user_by_email-update_user :
    (email : Text) (k : ℕ) (f : User → User) (us : List User) (u : User)
    → ((v : User) → (f v).email ≡ v.email)
    → find_user_by_email email us ≡ some u
    → u.id ≡ k
    → find_user_by_email email (update_user k f us) ≡ some (f u)
unfolding find_user_by_email update_user
find_user_by_email-update_user email k f us u same e own =
    find-map _ (λ v. if v.id == k then f v else v) us (λ v. ground (arith, same v))
    ∙ rw e (ground arith)

module _ (crypto : Crypto) (cfg : Settings) (req : Request) where
  open req use {now, raw_token}

  -- What `forgot_password` leaves for a registered address.
  forgot_inv :
      (email : Text) (w w' : World) (u : User) (p : Result (Unit {0}) × Limiter)
      → forgotten crypto cfg req email w p ≡ (ok generic_email_ack, w')
      → get_user_by_email email w ≡ some u
      → (l : Limiter) × (w'
          ≡ mailed crypto cfg req password_reset_link cfg.password_reset_ttl_minutes u
              (record w { limiter = l }))
  forgot_inv email w w' u (raise x, l) h e = absurd (cc)
  forgot_inv email w w' u (ok _, l) h e =
      let found = normalized crypto cfg req email w ∙ e in
      (
        l,
        sym (ap (λ (p : Result MessageResponse × World). p.1) h)
            ∙ ap (λ o. served crypto cfg req o (record w { limiter = l })) found,
      )

  -- The link that was just mailed is the one its token finds.
  found_link :
      (ttl : ℕ) (u : User) (w : World) (at : ℕ)
      → IsFresh crypto cfg req w
      → at < now + ttl * 60 * second
      → get_usable_email_token at password_reset_link
          (crypto.hash_email_token raw_token)
          (mailed crypto cfg req password_reset_link ttl u w)
        ≡ some (issued crypto cfg req password_reset_link ttl u)
  unfolding get_usable_email_token find_token
  found_link ttl u w at fresh early =
      let h = crypto.hash_email_token raw_token in
      let p = password_reset_link in
      let row = issued crypto cfg req p ttl u in
      let absent : find_token p h w.tokens ≡ none =
        find_nothing _ _ w.tokens (λ s. ground arith) fresh in
      let retired : find_token p h (map (retire now u.id p) w.tokens) ≡ none =
        find_token-retire p p h now u.id w.tokens ∙ ap (Option.map (retire now u.id p)) absent in
      let self = text_eq_self h in
      let here : find_token p h (map (retire now u.id p) w.tokens ++ row ∷ []) ≡ some row =
        find-append _ (map (retire now u.id p) w.tokens) (row ∷ []) ∙ rw (retired, self) refl in
      rw (get_usable_email_token, here) (ground arith)

  users_after :
      (req' : Request) (cfg' : Settings) (email password : Text) (us : List User) (u : User)
      → find_user_by_email email us ≡ some u
      → find_user_by_email email (reset_users crypto cfg' req' u password us)
        ≡ some (reset_user crypto cfg' req' u password)
  users_after req' cfg' email password us u e =
      let at = req'.now in
      let f = with_password at (crypto.hash_password req'.salt password) in
      let once = find_user_by_email-update_user email u.id f us u (λ v. refl) e refl in
      elim (Option-cases u.email_verified_at) [
        | inl m ↦ rw m (
            find_user_by_email-update_user email u.id (verified_at at) (update_user u.id f us) (f u)
              (λ v. refl) once refl)
        | inr (x, m) ↦
            rw m (once ∙ ap (λ (o : Option ℕ). some (record (f u) { email_verified_at = o })) m)
      ]

  -- The reset with that link.
  resets :
      (w : World) (u : User) (ttl : ℕ)
      → IsFresh crypto cfg req w
      → find_user u.id w.users ≡ some u
      → (cfg' : Settings) (req' : Request) (password : Text) → req'.now < now + ttl * 60 * second
      → crypto.takes_password password ≡ true
      → let w' = mailed crypto cfg req password_reset_link ttl u w in
        let t = issued crypto cfg req password_reset_link ttl u in
        reset_password crypto cfg' req' raw_token password w' ≡ (
          ok (signed_in crypto cfg' req' (reset_user crypto cfg' req' u password)),
          reset_world crypto cfg' req' t u password w',
        )
  unfolding reset_password ◌>>=◌
  resets w u ttl fresh owner cfg' req' password early takes =
      let w' = mailed crypto cfg req password_reset_link ttl u w in
      let t = issued crypto cfg req password_reset_link ttl u in
      let link = found_link ttl u w req'.now fresh early in
      ground (arith, apply_reset_lem crypto cfg' req' t u password w' takes)

-- From valid tables, a user who has lost the password gets in again. Say that `forgot_password` was
-- answered for the address of an account (and the token that it drew is new). Then, at any later
-- request before the link's lifetime is over and under any settings, `reset_password` with the raw
-- token that was mailed and any new password that passlib takes succeeds, signs in that account
-- with its address verified; and after it, `login` with the address and the new password, at any request and under any settings, answers
-- with that account and a token for it, or with the limiter's refusal.
pub login-reset_password-forgot_password :
    (crypto : Crypto) (cfg cfg' cfg'' : Settings) (req req' req'' : Request) (email password : Text)
    (u : User) (w w' : World)
    → IsWellFormed w
    → IsFresh crypto cfg req w
    → get_user_by_email email w ≡ some u
    → forgot_password crypto cfg req email w ≡ (ok generic_email_ack, w')
    → req'.now < req.now + cfg.password_reset_ttl_minutes * 60 * second
    → crypto.takes_password password ≡ true
    → let v = reset_user crypto cfg' req' u password in
      (w'' : World) × (reset_password crypto cfg' req' req.raw_token password w'
        ≡ (ok (signed_in crypto cfg' req' v), w''))
      × (email_verified v ≡ true)
      × ((login crypto cfg'' req'' email password w'').0
          ≡ unless_refused
              (login_gate crypto cfg'' req'' email w''.limiter).0
              (ok (signed_in crypto cfg'' req'' v)))
login-reset_password-forgot_password crypto cfg cfg' cfg'' req req' req'' email password u w w'
      valid fresh found h early takes =
    let answer = sym (forgot_password_lem crypto cfg req email w fresh) ∙ h in
    let (l, shape) =
      forgot_inv crypto cfg req email w w' u (gate crypto cfg req email w.limiter) answer found in
    let w1 = record w { limiter = l } in
    let ttl = cfg.password_reset_ttl_minutes in
    let v = reset_user crypto cfg' req' u password in
    let owner = found_by_id email w.users u valid.ids found in
    let w2 =
      reset_world crypto cfg' req' (issued crypto cfg req password_reset_link ttl u) u password
        (mailed crypto cfg req password_reset_link ttl u w1) in
    let stored : get_user_by_email email w2 ≡ some v =
      users_after crypto cfg req req' cfg' email password w.users u found in
    (
      w2,
      ap (reset_password crypto cfg' req' req.raw_token password) shape
          ∙ resets crypto cfg req w1 u ttl fresh owner cfg' req' password early takes,
      refl,
      login_lem crypto cfg'' req'' email password w2 v
            (normalized crypto cfg'' req'' email w2 ∙ stored)
          ∙ entered-unless_refused crypto cfg'' cfg'' req'' req'' password v true
              (login_gate crypto cfg'' req'' email w2.limiter).0 takes
              (crypto.verify-hash req'.salt password takes),
    )
