-- ===== src/Auth/Mailing.antt =====
-- The endpoints that send mail: what `forgot_password` gives away, and how many links of one kind
-- a mailbox can hold that work.
use stock_quant_backend.Prelude.{
  ℕ, ◌+◌, ◌*◌, ◌≡◌, refl, ap, sym, ◌∙◌, subst, Bool, true, false, ◌||◌, Option, none, some, List,
  [], ◌∷◌, ◌++◌, map, count, any, arith, Bool-cases, inl, inr, count-append, ◌==◌, find,
}
use stock_quant_backend.Prelude.Text.{Text, codes, text_eq}
use stock_quant_backend.Prelude.Counting.{count_zero}
use stock_quant_backend.Http.{
  Result, gets, outcome, >>=-ok, >>=-raise, ok, raise, ◌>>=◌, ◌>>◌, Action, pure,
}
use stock_quant_backend.RateLimit
use stock_quant_backend.RateLimit.{Limiter, second}
use stock_quant_backend.Users.{
  User, EmailToken, World, Purpose, verify_email_link, password_reset_link, purpose_eq,
  normalize_email, get_user_by_email, find_user_by_email, invalidate_email_tokens,
  create_email_token, retire, is_outstanding,
}
use stock_quant_backend.Users.Tables.{retire-All}
use stock_quant_backend.Users.Email.{normalize_email_idem}
use stock_quant_backend.Security.{Crypto, Settings}
use stock_quant_backend.Auth.{
  Request, MessageResponse, generic_email_ack, enforced, issue, send_reset, forgot_password,
}

any_found :
    (p q : User → Bool) (us : List User) (u : User)
    → find p us ≡ some u
    → q u ≡ true
    → any q us ≡ true
any_found p q [] u e h = cc
any_found p q (x ∷ us) u e h = elim (Bool-cases (p x)) [
  | inl y ↦ ground arith
  | inr n ↦ let ih = any_found p q us u (ground arith) h in ground arith
]

pub stored_of_found :
    (email : Text) (us : List User) (u : User)
    → find_user_by_email email us ≡ some u
    → any (λ v. v.id == u.id) us ≡ true
unfolding find_user_by_email
stored_of_found email us u e = any_found _ (λ v. v.id == u.id) us u e (ground arith)

purpose_eq_self : (p : Purpose) → purpose_eq p p ≡ true
purpose_eq_self verify_email_link = refl
purpose_eq_self password_reset_link = refl

module _ (crypto : Crypto) (cfg : Settings) (req : Request) where
  open req use {now, raw_token}

  -- The token that this request draws, and its row's id, are not in the table yet.
  abbrev pub IsFresh : World → Type 0
  IsFresh w =
      any
        (λ s. text_eq s.token_hash (crypto.hash_email_token raw_token) || s.id == req.new_token_id)
        w.tokens
      ≡ false

  any_retired :
      (q : EmailToken → Bool) (k : ℕ) (p : Purpose) (ts : List EmailToken)
      → ((t : EmailToken) → q (retire now k p t) ≡ q t)
      → any q (map (retire now k p) ts) ≡ any q ts
  any_retired q k p [] h = refl
  any_retired q k p (t ∷ ts) h = rw (h t, any_retired q k p ts h)

  IsFresh-retired :
      (k : ℕ) (p : Purpose) (w : World)
      → IsFresh w
      → IsFresh (record w { tokens = map (retire now k p) w.tokens })
  unfolding retire
  IsFresh-retired k p w h = any_retired _ k p w.tokens (λ t. ground arith) ∙ h

  -- The row that a request stores.
  abbrev pub issued : Purpose → ℕ → User → EmailToken
  issued p ttl_minutes u = record {
    id = req.new_token_id;
    user_id = u.id;
    purpose = p;
    token_hash = crypto.hash_email_token raw_token;
    expires_at = now + ttl_minutes * 60 * second;
    used_at = none;
    created_at = now;
  }

  abbrev pub mailed : Purpose → ℕ → User → World → World
  mailed p ttl_minutes u w = record w {
    tokens = map (retire now u.id p) w.tokens ++ issued p ttl_minutes u ∷ [];
    outbox = w.outbox ++ (record { to = u.email; about = p; raw = raw_token }) ∷ [];
  }

  -- `issue` for a stored account and a fresh token.
  pub issue_lem :
      (p : Purpose) (ttl : ℕ) (u : User) (w : World)
      → IsFresh w
      → any (λ v. v.id == u.id) w.users ≡ true
      → issue crypto cfg req p ttl u w ≡ (ok tt, mailed p ttl u w)
  unfolding ◌>>=◌ issue invalidate_email_tokens create_email_token
  issue_lem p ttl u w fresh stored = let still = IsFresh-retired u.id p w fresh in ground arith

  outstanding_once :
      (p : Purpose) (ttl : ℕ) (u : User) (w : World)
      → count (is_outstanding u.id p) (mailed p ttl u w).tokens ≡ 1
  outstanding_once p ttl u w =
      let none_left = count_zero (is_outstanding u.id p) _ (retire-All now u.id p w.tokens) in
      let self = purpose_eq_self p in
      ground (
        arith,
        count-append (is_outstanding u.id p) (map (retire now u.id p) w.tokens)
            (issued p ttl u ∷ []),
      )

  -- What `forgot_password` does once the limiter has let it pass.
  abbrev pub served : Option User → World → World
  served none w = w
  served (some u) w = mailed password_reset_link cfg.password_reset_ttl_minutes u w

  send_reset_lem :
      (found : Option User) (w : World)
      → IsFresh w
      → ((u : User) → found ≡ some u → any (λ v. v.id == u.id) w.users ≡ true)
      → send_reset crypto cfg req found w ≡ (ok tt, served found w)
  send_reset_lem none w fresh stored = refl
  send_reset_lem (some u) w fresh stored =
      issue_lem password_reset_link cfg.password_reset_ttl_minutes u w fresh (stored u refl)

  -- The two calls of `enforce` that stand before everything else.
  unfoldable pub gate : Text → Action Limiter (Unit {0})
  gate email =
      RateLimit.enforce cfg.rate_limit_enabled req.mono (codes "forgot_ip") req.client_ip
      >> RateLimit.enforce cfg.rate_limit_enabled req.mono (codes "forgot_email")
          (normalize_email email)

  -- What a call answers and does, by what the limiter says.
  abbrev pub forgotten : Text → World → Result (Unit {0}) × Limiter → Result MessageResponse × World
  forgotten email w (ok _, l) = (
    ok generic_email_ack,
    served (get_user_by_email (normalize_email email) w) (record w { limiter = l }),
  )
  forgotten email w (raise e, l) = (raise e, record w { limiter = l })

  enforced_lem :
      (b i : Text) (w : World) {r : Result (Unit {0})} {l : Limiter}
      → RateLimit.enforce cfg.rate_limit_enabled req.mono b i w.limiter ≡ (r, l)
      → enforced cfg req b i w ≡ (r, record w { limiter = l })
  enforced_lem b i w e =
      ap (λ (p : Result (Unit {0}) × Limiter). (p.0, record w { limiter = p.1 })) e

  pub forgot_password_lem :
      (email : Text) (w : World)
      → IsFresh w
      → forgot_password crypto cfg req email w ≡ forgotten email w (gate email w.limiter)
  unfolding forgot_password gate
  forgot_password_lem email w fresh =
      let ip = codes "forgot_ip" in
      let mail = codes "forgot_email" in
      let to = normalize_email email in
      let enf = RateLimit.enforce cfg.rate_limit_enabled req.mono in
      let ack : Unit {0} → Action World MessageResponse = λ _. pure generic_email_ack in
      let send : Option User → Action World MessageResponse =
        λ o. send_reset crypto cfg req o >>= ack in
      let serve : Unit {0} → Action World MessageResponse =
        λ _. gets (get_user_by_email to) >>= send in
      let rest : Unit {0} → Action World MessageResponse =
        λ _. enforced cfg req mail to >>= serve in
      let first = enforced cfg req ip req.client_ip in
      let second_gate : Unit {0} → Action Limiter (Unit {0}) = λ _. enf mail to in
      elim (outcome (enf ip req.client_ip w.limiter)) [
        | inr (x, l, e) ↦
            >>=-raise first rest w (enforced_lem ip req.client_ip w e)
            ∙ sym
                (ap (forgotten email w) (>>=-raise (enf ip req.client_ip) second_gate w.limiter e))
        | inl (_, l, e) ↦
            let v = record w { limiter = l } in
            let passed = >>=-ok first rest w (enforced_lem ip req.client_ip w e) in
            let gated = >>=-ok (enf ip req.client_ip) second_gate w.limiter e in
            elim (outcome (enf mail to l)) [
              | inr (x, l', e') ↦
                  passed
                  ∙ >>=-raise (enforced cfg req mail to) serve v (enforced_lem mail to v e')
                  ∙ sym (ap (forgotten email w) (gated ∙ e'))
              | inl (_, l', e') ↦
                  let w' = record w { limiter = l' } in
                  let found = get_user_by_email to w in
                  passed
                  ∙ >>=-ok (enforced cfg req mail to) serve v (enforced_lem mail to v e')
                  ∙ >>=-ok (gets (get_user_by_email to)) send w' refl
                  ∙ >>=-ok (send_reset crypto cfg req found) ack w'
                      (send_reset_lem found w' fresh (stored_of_found to w.users))
                  ∙ sym (ap (forgotten email w) (gated ∙ e'))
            ]
      ]

  -- The answer alone.
  abbrev pub acknowledged : Result (Unit {0}) → Result MessageResponse
  acknowledged (ok _) = ok generic_email_ack
  acknowledged (raise e) = raise e

  forgotten_answer :
      (email : Text) (w : World) (p : Result (Unit {0}) × Limiter)
      → (forgotten email w p).0 ≡ acknowledged p.0
  forgotten_answer email w (ok _, l) = refl
  forgotten_answer email w (raise e, l) = refl

  -- Of two servers whose limiters stand alike, whatever accounts each has, both give the same
  -- answer to the same request, if the token that is drawn is new to both: `forgot_password` does
  -- not tell whether an address is registered.
  pub forgot_password_opaque :
      (email : Text) (w w' : World)
      → w.limiter ≡ w'.limiter
      → IsFresh w
      → IsFresh w'
      → (forgot_password crypto cfg req email w).0 ≡ (forgot_password crypto cfg req email w').0
  forgot_password_opaque email w w' same fresh fresh' =
      ap (λ (p : Result MessageResponse × World). p.0) (forgot_password_lem email w fresh)
      ∙ forgotten_answer email w (gate email w.limiter)
      ∙ ap (λ l. acknowledged (gate email l).0) same
      ∙ sym (forgotten_answer email w' (gate email w'.limiter))
      ∙ sym (ap (λ (p : Result MessageResponse × World). p.0) (forgot_password_lem email w' fresh'))

  -- What one call leaves: for an account, one reset link that is outstanding, and one more mail,
  -- with that link; without one, nothing.
  abbrev pub Sent : Option User → World → World → Type 0
  Sent none w w' = (w'.users ≡ w.users) × (w'.tokens ≡ w.tokens) × (w'.outbox ≡ w.outbox)
  Sent (some u) w w' =
      (w'.users ≡ w.users)
      × (count (is_outstanding u.id password_reset_link) w'.tokens ≡ 1)
      × (w'.outbox
          ≡ w.outbox
            ++ (record { to = u.email; about = password_reset_link; raw = raw_token }) ∷ [])

  served-Sent :
      (o : Option User) (w : World) (l : Limiter) → Sent o w (served o (record w { limiter = l }))
  served-Sent none w l = (refl, refl, refl)
  served-Sent (some u) w l =
      (refl, outstanding_once password_reset_link cfg.password_reset_ttl_minutes u w, refl)

  pub normalized :
      (email : Text) (w : World)
      → get_user_by_email (normalize_email email) w ≡ get_user_by_email email w
  unfolding find_user_by_email
  normalized email w = ap (λ s. find (λ u. text_eq u.email s) w.users) (normalize_email_idem email)

  forgotten-Sent :
      (email : Text) (w w' : World) (p : Result (Unit {0}) × Limiter)
      → forgotten email w p ≡ (ok generic_email_ack, w')
      → Sent (get_user_by_email email w) w w'
  forgotten-Sent email w w' (raise e, l) h = absurd (cc)
  forgotten-Sent email w w' (ok _, l) h =
      subst (λ o. Sent o w w') (normalized email w)
        (subst (Sent (get_user_by_email (normalize_email email) w) w)
          (ap (λ (p : Result MessageResponse × World). p.1) h)
          (served-Sent (get_user_by_email (normalize_email email) w) w l))

  -- After a request that was answered: where the address is registered, exactly one reset link of
  -- that account is outstanding, and one mail was queued, to the account's address, with the token
  -- that was drawn; where it is not, accounts, tokens and outbox are as they were. In both cases no
  -- account changes. (The token that is drawn is new.)
  pub forgot_password_sends :
      (email : Text) (w w' : World)
      → IsFresh w
      → forgot_password crypto cfg req email w ≡ (ok generic_email_ack, w')
      → Sent (get_user_by_email email w) w w'
  forgot_password_sends email w w' fresh h =
      forgotten-Sent email w w' (gate email w.limiter) (sym (forgot_password_lem email w fresh) ∙ h)
