-- ===== src/Auth/Entry.antt =====
-- `login` after `register`.
use stock_quant_backend.Prelude.{
  ◌≡◌, refl, ap, sym, ◌∙◌, Bool, true, false, Option, some, if◌then◌else◌, arith, inl, inr,
}
use stock_quant_backend.Prelude.Text.{Text, codes}
use stock_quant_backend.Http.{
  Action, Result, ok, raise, unauthorized, value_error, ◌>>=◌, ◌>>◌, pure, gets, outcome, >>=-ok,
  >>=-raise,
}
use stock_quant_backend.RateLimit
use stock_quant_backend.RateLimit.{Limiter}
use stock_quant_backend.Users.{User, World, normalize_email, get_user_by_email}
use stock_quant_backend.Security.{Crypto, Settings, token_for}
use stock_quant_backend.Auth.{
  Request, AuthResponse, UserOut, signed_in, register, checked_password, login,
}
use stock_quant_backend.Auth.Registration.{newcomer, register_inv}

-- A call of the limiter, as `enforced` makes it.
abbrev limited : Action Limiter (Unit {0}) → Action World (Unit {0})
limited m w = let (r, l) = m w.limiter in (r, record w { limiter = l })

abbrev after :
    {A : Type 0} (k : Action World A) (w : World) → Result (Unit {0}) × Limiter → Result A × World
after k w (ok _, l) = k (record w { limiter = l })
after k w (raise e, l) = (raise e, record w { limiter = l })

limited_once :
    {A : Type 0} (m : Action Limiter (Unit {0})) (k : Action World A) (w : World)
    → (limited m >>= λ _. k) w ≡ after k w (m w.limiter)
limited_once m k w =
    let lift : Result (Unit {0}) × Limiter → Result (Unit {0}) × World =
      λ p. (p.0, record w { limiter = p.1 }) in
    elim (outcome (m w.limiter)) [
      | inr (x, l, e) ↦ >>=-raise (limited m) _ w (ap lift e) ∙ sym (ap (after k w) e)
      | inl (_, l, e) ↦ >>=-ok (limited m) _ w (ap lift e) ∙ sym (ap (after k w) e)
    ]

limited_twice :
    {A : Type 0} (m n : Action Limiter (Unit {0})) (k : Action World A) (w : World)
    → (limited m >>= λ _. limited n >>= λ _. k) w ≡ after k w ((m >> n) w.limiter)
limited_twice m n k w =
    let lift : Result (Unit {0}) × Limiter → Result (Unit {0}) × World =
      λ p. (p.0, record w { limiter = p.1 }) in
    elim (outcome (m w.limiter)) [
      | inr (x, l, e) ↦
          >>=-raise (limited m) _ w (ap lift e)
          ∙ sym (ap (after k w) (>>=-raise m (λ _. n) w.limiter e))
      | inl (_, l, e) ↦
          >>=-ok (limited m) _ w (ap lift e)
          ∙ limited_once n k (record w { limiter = l })
          ∙ sym (ap (after k w) (>>=-ok m (λ _. n) w.limiter e))
    ]

module _ (crypto : Crypto) (cfg : Settings) (req : Request) where
  -- The two calls of `enforce` that stand first in `login`.
  abbrev pub login_gate : Text → Limiter → Result (Unit {0}) × Limiter
  login_gate email l =
      (RateLimit.enforce cfg.rate_limit_enabled req.mono (codes "login_ip") req.client_ip
          >> RateLimit.enforce cfg.rate_limit_enabled req.mono (codes "login_email")
              (normalize_email email))
        l

  -- The rest, when the account is `u`.
  abbrev pub entered : Text → User → Result (Unit {0}) → Result AuthResponse
  entered password u (raise e) = raise e
  entered password u (ok _) =
      if crypto.takes_password password
      then (if crypto.verify_password password u.password_hash
          then ok (signed_in crypto cfg req u)
          else raise unauthorized)
      else raise value_error

  checked_lem :
      (password : Text) (u : User) (w : World)
      → (checked_password crypto cfg req password (some u) >>= λ v.
            pure (signed_in crypto cfg req v))
          w
        ≡ (entered password u (ok tt), w)
  unfolding ◌>>=◌
  checked_lem password u w = ground arith

  -- What `login` does past the limiter.
  abbrev rest : Text → Text → Action World AuthResponse
  rest email password = do
    found ← gets (get_user_by_email (normalize_email email))
    v ← checked_password crypto cfg req password found
    pure (signed_in crypto cfg req v)

  answered_lem :
      (email password : Text) (w : World) (u : User)
      → get_user_by_email (normalize_email email) w ≡ some u
      → (p : Result (Unit {0}) × Limiter)
      → (after (rest email password) w p).0 ≡ entered password u p.0
  answered_lem email password w u found (raise e, l) = refl
  answered_lem email password w u found (ok _, l) =
      let v = record w { limiter = l } in
      ap (λ (p : Result AuthResponse × World). p.0)
        (>>=-ok (gets (get_user_by_email (normalize_email email))) _ v (ap (λ o. (ok o, v)) found)
          ∙ checked_lem password u v)

  pub login_lem :
      (email password : Text) (w : World) (u : User)
      → get_user_by_email (normalize_email email) w ≡ some u
      → (login crypto cfg req email password w).0
        ≡ entered password u (login_gate email w.limiter).0
  unfolding login
  login_lem email password w u found =
      let enf = RateLimit.enforce cfg.rate_limit_enabled req.mono in
      ap (λ (p : Result AuthResponse × World). p.0)
        (limited_twice (enf (codes "login_ip") req.client_ip)
          (enf (codes "login_email") (normalize_email email)) _ w)
      ∙ answered_lem email password w u found (login_gate email w.limiter)

-- The limiter's refusal, where it refuses.
abbrev pub unless_refused : {A : Type 0} → Result (Unit {0}) → Result A → Result A
unless_refused (raise e) r = raise e
unless_refused (ok _) r = r

module _ (crypto : Crypto) (cfg cfg' : Settings) (req req' : Request) where
  pub entered-unless_refused :
      (attempt : Text) (u : User) (b : Bool) (g : Result (Unit {0}))
      → crypto.takes_password attempt ≡ true
      → crypto.verify_password attempt u.password_hash ≡ b
      → entered crypto cfg' req' attempt u g
        ≡ unless_refused g (if b then ok (signed_in crypto cfg' req' u) else raise unauthorized)
  entered-unless_refused attempt u b (raise e) k h = refl
  entered-unless_refused attempt u b (ok _) k h = rw (k, h) refl

  -- A password that `verify` may not take, and that does not verify if it does.
  entered_wrong :
      (attempt : Text) (u : User) (g : Result (Unit {0}))
      → crypto.verify_password attempt u.password_hash ≡ false
      → entered crypto cfg' req' attempt u g
        ≡ unless_refused g
            (if crypto.takes_password attempt then raise unauthorized else raise value_error)
  entered_wrong attempt u (raise e) h = refl
  entered_wrong attempt u (ok _) h = rw h refl

  -- The row that `register` left, and a sign-in with its password.
  pub login_registered :
      (email email' password : Text) (name : Option Text) (w w' : World) (resp : AuthResponse)
      → register crypto cfg req email password name w ≡ (ok resp, w')
      → normalize_email email' ≡ normalize_email email
      → (get_user_by_email (normalize_email email') w'
          ≡ some (newcomer crypto cfg req email password name))
        × ((login crypto cfg' req' email' password w').0
            ≡ unless_refused (login_gate crypto cfg' req' email' w'.limiter).0 (
                ok (record {
                  token =
                      token_for crypto cfg' req'.now req'.jti
                        (newcomer crypto cfg req email password name);
                  user = resp.user;
                })))
  login_registered email email' password name w w' resp h same =
      let (user, found, takes) = register_inv crypto cfg req email password name w w' resp h in
      let u = newcomer crypto cfg req email password name in
      let g = (login_gate crypto cfg' req' email' w'.limiter).0 in
      let found' : get_user_by_email (normalize_email email') w' ≡ some u =
        ap (λ e. get_user_by_email e w') same ∙ found in
      (
        found',
        login_lem crypto cfg' req' email' password w' u found'
            ∙ entered-unless_refused password u true g takes
                (crypto.verify-hash req.salt password takes)
            ∙ ap
                (λ (r : UserOut).
                  unless_refused g
                    (ok (record { token = token_for crypto cfg' req'.now req'.jti u; user = r })))
                (sym user),
      )

  -- `login`, after `register` answered, under any spelling of the address that normalises alike,
  -- at any request and under any settings: with the registered password it answers with the account
  -- that `register` answered with and a token for that account's row; with a password that does not
  -- verify against the stored hash it answers 401, or ends in the uncaught error of passlib where
  -- that takes no such password; and with the limiter's refusal instead, where the limiter refuses.
  pub login-register :
      (email email' password attempt : Text) (name : Option Text) (w w' : World)
      (resp : AuthResponse)
      → register crypto cfg req email password name w ≡ (ok resp, w')
      → normalize_email email' ≡ normalize_email email
      → crypto.verify_password attempt (crypto.hash_password req.salt password) ≡ false
      → let g = (login_gate crypto cfg' req' email' w'.limiter).0 in
        ((login crypto cfg' req' email' password w').0
          ≡ unless_refused g (
              ok (record {
                token =
                    token_for crypto cfg' req'.now req'.jti
                      (newcomer crypto cfg req email password name);
                user = resp.user;
              })))
        × ((login crypto cfg' req' email' attempt w').0
            ≡ unless_refused g
                (if crypto.takes_password attempt then raise unauthorized else raise value_error))
  login-register email email' password attempt name w w' resp h same wrong =
      let u = newcomer crypto cfg req email password name in
      let g = (login_gate crypto cfg' req' email' w'.limiter).0 in
      let (found, enters) = login_registered email email' password name w w' resp h same in
      (
        enters,
        login_lem crypto cfg' req' email' attempt w' u found ∙ entered_wrong attempt u g wrong,
      )
