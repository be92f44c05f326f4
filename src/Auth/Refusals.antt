-- ===== src/Auth/Refusals.antt =====
-- No handler of app/routers/auth.py ends in a 422 by itself.
use stock_quant_backend.Prelude.{
  ℕ, ◌≡◌, refl, sym, ap, ◌∙◌, inl, inr, Bool, true, false, Option, none, some, arith, Option-cases,
}
use stock_quant_backend.Prelude.Text.{Text}
use stock_quant_backend.Http.{
  Action, Result, Failure, ok, raise, bad_request, conflict, value_error, unprocessable, ◌>>=◌,
  ◌>>◌, or_raise, outcome, >>=-ok, >>=-raise, raise_if, pure,
}
use stock_quant_backend.RateLimit.{
  Limiter, enforce, admit, check, answer, Rule, lookup, rules, bucket_key,
}
use stock_quant_backend.Users.{
  User, Purpose, EmailToken, create_user, mark_email_verified, consume_email_token, set_password,
  invalidate_email_tokens, create_email_token,
}
use stock_quant_backend.Security.{Crypto, Settings}
use stock_quant_backend.Auth.{
  Request, enforced, issue, issue_verification_email, register, login, checked_password,
  verify_email, send_reset, forgot_password, apply_reset, reset_password,
}

-- Whether a call ended in the 422.
abbrev pub is_unprocessable : {A : Type 0} → Result A → Bool
is_unprocessable (raise unprocessable) = true
is_unprocessable (raise _) = false
is_unprocessable (ok _) = false

-- An action that never ends in the 422.
abbrev pub IsHandler : {S A : Type 0} → Action S A → Type 0
IsHandler {S = S} m = (s : S) → is_unprocessable (m s).0 ≡ false

>>=-IsHandler :
    {S A B : Type 0} (m : Action S A) (f : A → Action S B)
    → IsHandler m
    → ((a : A) → IsHandler (f a))
    → IsHandler (m >>= f)
>>=-IsHandler m f first next s = elim (outcome (m s)) [
  | inl (a, t, e) ↦ ap (λ p. is_unprocessable p.0) (>>=-ok m f s e) ∙ next a t
  | inr (x, t, e) ↦
      ap (λ p. is_unprocessable p.0) (>>=-raise m f s e)
      ∙ sym (ap (λ p. is_unprocessable p.0) e)
      ∙ first s
]

or_raise-IsHandler :
    {S A B : Type 0} (o : Option A) (f : A → Action S B)
    → ((a : A) → IsHandler (f a))
    → (e : Failure) → is_unprocessable {A = A} (raise e) ≡ false
    → IsHandler (or_raise o e >>= f)
unfolding ◌>>=◌
or_raise-IsHandler none f next e h s = ground arith
or_raise-IsHandler (some a) f next e h s = next a s

raise_if-IsHandler :
    {S B : Type 0} (c : Bool) (e : Failure) (m : Action S B)
    → is_unprocessable {A = B} (raise e) ≡ false
    → IsHandler m
    → IsHandler (raise_if c e >> m)
unfolding ◌>>=◌
raise_if-IsHandler true e m h next s = h
raise_if-IsHandler false e m h next s = next s

check-IsHandler : (now : ℕ) (key : Text) (rule : Rule) → IsHandler (check now key rule)
unfolding check admit
check-IsHandler now key rule l = ground arith

answer-IsHandler : (p : Bool × ℕ) → IsHandler (answer p)
unfolding answer
answer-IsHandler (true, n) l = refl
answer-IsHandler (false, n) l = refl

-- `enforce`, with its rule.
abbrev ruled : ℕ → Text → Text → Option Rule → Action Limiter (Unit {0})
ruled now b i none = pure tt
ruled now b i (some r) = check now (bucket_key b i) r >>= answer

ruled-IsHandler : (now : ℕ) (b i : Text) (o : Option Rule) → IsHandler (ruled now b i o)
ruled-IsHandler now b i none l = refl
ruled-IsHandler now b i (some r) l =
    >>=-IsHandler (check now (bucket_key b i) r) answer (check-IsHandler now (bucket_key b i) r)
      answer-IsHandler l

enforce-IsHandler : (on : Bool) (now : ℕ) (b i : Text) → IsHandler (enforce on now b i)
unfolding enforce
enforce-IsHandler false now b i l = refl
enforce-IsHandler true now b i l = elim (Option-cases (lookup b rules)) [
  | inl e ↦ ground arith
  | inr (r, e) ↦ let h = ruled-IsHandler now b i (some r) l in ground arith
]

module _ (crypto : Crypto) (cfg : Settings) (req : Request) where
  open req use {now}

  enforced-IsHandler : (bucket identifier : Text) → IsHandler (enforced cfg req bucket identifier)
  enforced-IsHandler bucket identifier w =
      enforce-IsHandler cfg.rate_limit_enabled req.mono bucket identifier w.limiter

  issue-IsHandler : (p : Purpose) (ttl : ℕ) (u : User) → IsHandler (issue crypto cfg req p ttl u)
  unfolding issue ◌>>=◌ invalidate_email_tokens create_email_token
  issue-IsHandler p ttl u w = ground arith

  create_user-IsHandler :
      (k : ℕ) (e h : Text) (n : Option Text) → IsHandler (create_user now k e h n)
  unfolding create_user
  create_user-IsHandler k e h n w = ground arith

  pub register-IsHandler :
      (e p : Text) (n : Option Text) → IsHandler (register crypto cfg req e p n)
  unfolding register issue_verification_email
  register-IsHandler e p n = >>=-IsHandler _ _ (enforced-IsHandler _ _) λ _.
      >>=-IsHandler _ _ (λ w. refl)
        λ existing. raise_if-IsHandler _ conflict _ refl (
          raise_if-IsHandler _ value_error _ refl (
            >>=-IsHandler _ _ (create_user-IsHandler _ _ _ _)
              λ u. >>=-IsHandler _ _ (issue-IsHandler _ _ u) λ _. λ w. refl))

  checked_password-IsHandler :
      (p : Text) (o : Option User) → IsHandler (checked_password crypto cfg req p o)
  checked_password-IsHandler p none w = refl
  checked_password-IsHandler p (some u) w = ground arith

  pub login-IsHandler : (e p : Text) → IsHandler (login crypto cfg req e p)
  unfolding login
  login-IsHandler e p = >>=-IsHandler _ _ (enforced-IsHandler _ _) λ _.
      >>=-IsHandler _ _ (enforced-IsHandler _ _) λ _.
        >>=-IsHandler _ _ (λ w. refl)
          λ found. >>=-IsHandler _ _ (checked_password-IsHandler p found) λ u. λ w. refl

  send_reset-IsHandler : (o : Option User) → IsHandler (send_reset crypto cfg req o)
  send_reset-IsHandler none w = refl
  send_reset-IsHandler (some u) w = issue-IsHandler _ _ u w

  pub forgot_password-IsHandler : (e : Text) → IsHandler (forgot_password crypto cfg req e)
  unfolding forgot_password
  forgot_password-IsHandler e = >>=-IsHandler _ _ (enforced-IsHandler _ _) λ _.
      >>=-IsHandler _ _ (enforced-IsHandler _ _) λ _.
        >>=-IsHandler _ _ (λ w. refl)
          λ found. >>=-IsHandler _ _ (send_reset-IsHandler found) λ _. λ w. refl

  mark_email_verified-IsHandler : (u : User) → IsHandler (mark_email_verified now u)
  unfolding mark_email_verified
  mark_email_verified-IsHandler u w = ground arith

  apply_reset-IsHandler :
      (t : EmailToken) (u : User) (p : Text) → IsHandler (apply_reset crypto cfg req t u p)
  unfolding apply_reset consume_email_token invalidate_email_tokens set_password
  apply_reset-IsHandler t u p =
      >>=-IsHandler _ _ (λ w. refl)
        λ _.
          >>=-IsHandler _ _ (λ w. refl)
            λ _.
              raise_if-IsHandler _ value_error _ refl
                (>>=-IsHandler _ _ (λ w. refl) λ u'. mark_email_verified-IsHandler u')

  pub reset_password-IsHandler : (t p : Text) → IsHandler (reset_password crypto cfg req t p)
  unfolding reset_password
  reset_password-IsHandler t p =
      >>=-IsHandler _ _ (λ w. refl)
        λ found.
          or_raise-IsHandler found _
            (λ row.
              >>=-IsHandler _ _ (λ w. refl)
                λ owner.
                  or_raise-IsHandler owner _
                    (λ u. >>=-IsHandler _ _ (apply_reset-IsHandler row u p) λ u' w. refl)
                    bad_request refl)
            bad_request refl

  pub verify_email-IsHandler : (t : Text) → IsHandler (verify_email crypto cfg req t)
  unfolding verify_email consume_email_token
  verify_email-IsHandler t =
      >>=-IsHandler _ _ (λ w. refl)
        λ found.
          or_raise-IsHandler found _
            (λ row.
              >>=-IsHandler _ _ (λ w. refl)
                λ owner.
                  or_raise-IsHandler owner _
                    (λ u.
                      >>=-IsHandler _ _ (λ w. refl)
                        λ _. >>=-IsHandler _ _ (mark_email_verified-IsHandler u) λ u' w. refl)
                    bad_request refl)
            bad_request refl
