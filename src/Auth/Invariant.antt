-- ===== src/Auth/Invariant.antt =====
-- The tables' invariant, kept by every endpoint on every branch, failures included.
use stock_quant_backend.Prelude.{
  ℕ, ◌≡◌, refl, sym, ◌∙◌, subst, Bool, true, false, ◌||◌, Option, none, some, List, [], ◌∷◌, map,
  if◌then◌else◌, All, any, arith, Bool-cases, Option-cases, inl, inr, ◌==◌,
}
use stock_quant_backend.Prelude.Text.{Text, text_eq}
use stock_quant_backend.Prelude.Counting.{All-append, All-mono}
use stock_quant_backend.Prelude.Distinct.{
  Distinct, All-map, Distinct-map, Distinct-append, any_mono, any-append_left, any-map,
}
use stock_quant_backend.Http.{
  Failure, ◌>>=◌, Action, or_raise, raise_if, outcome, >>=-ok, >>=-raise,
}
use stock_quant_backend.RateLimit
use stock_quant_backend.Users.{
  User, EmailToken, World, Purpose, normalize_email, update_user, create_user, mark_email_verified,
  verified_at, with_password, set_password, create_email_token, consume_email_token, use_token,
  retire, invalidate_email_tokens, email_verified,
}
use stock_quant_backend.Users.Email.{normalize_email_idem}
use stock_quant_backend.Security.{Crypto, Settings}
use stock_quant_backend.Auth.{
  Request, enforced, queue, issue, issue_verification_email, register, login, me, verify_email,
  resend_verification, send_reset, forgot_password, apply_reset, reset_password, checked_password,
  resend,
}

abbrev same_email : User → User → Bool
same_email u v = text_eq u.email v.email

abbrev same_id : User → User → Bool
same_id u v = u.id == v.id

abbrev same_hash : EmailToken → EmailToken → Bool
same_hash s t = text_eq s.token_hash t.token_hash

abbrev same_token_id : EmailToken → EmailToken → Bool
same_token_id s t = s.id == t.id

abbrev HasOwner : List User → EmailToken → Type 0
HasOwner us t = any (λ u. u.id == t.user_id) us ≡ true

-- The keys that app/models.py declares unique are, every address is stored in normal form, and
-- every token belongs to an account.
pub record IsWellFormed (w : World) : Type 0 where
  pub emails : Distinct same_email w.users
  pub ids : Distinct same_id w.users
  pub normal : All (λ (u : User). normalize_email u.email ≡ u.email) w.users
  pub hashes : Distinct same_hash w.tokens
  pub token_ids : Distinct same_token_id w.tokens
  pub owned : All (HasOwner w.users) w.tokens

-- A call keeps the invariant, however it ends.
pub record Keeps {A : Type 0} (m : Action World A) : Type 0 where
  pub at : (w : World) → IsWellFormed w → IsWellFormed (m w).1

Keeps->>= :
    {A B : Type 0} {m : Action World A} {f : A → Action World B}
    → Keeps m
    → ((a : A) → Keeps (f a))
    → Keeps (m >>= f)
Keeps->>= {m} {f} hm hf = record {
  at = λ w h. elim (outcome (m w)) [
    | inl (a, s, e) ↦
        let e' = >>=-ok m f w e in
        rw e' ((hf a).at s (subst (λ (p : _). IsWellFormed p.1) e (hm.at w h)))
    | inr (x, s, e) ↦
        let e' = >>=-raise m f w e in rw e' (subst (λ (p : _). IsWellFormed p.1) e (hm.at w h))
  ];
}

-- An update that leaves a row's id and address alone.
update_user-IsWellFormed :
    (k : ℕ) (f : User → User)
    → ((u : User) → (f u).email ≡ u.email)
    → ((u : User) → (f u).id ≡ u.id)
    → (w : World) → IsWellFormed w
    → IsWellFormed (record w { users = update_user k f w.users })
unfolding update_user
update_user-IsWellFormed k f email id w h = record {
  emails = Distinct-map same_email change w.users (λ u v. rw (mail u, mail v)) h.emails;
  ids = Distinct-map same_id change w.users (λ u v. rw (key u, key v)) h.ids;
  normal =
      All-map (λ (u : User). normalize_email u.email ≡ u.email) change w.users
        (λ u e. subst (λ s. normalize_email s ≡ s) (sym (mail u)) e) h.normal;
  hashes = h.hashes;
  token_ids = h.token_ids;
  owned =
      All-mono {P = HasOwner w.users} {Q = HasOwner (map change w.users)}
        (λ t e. any-map (λ u. u.id == t.user_id) change w.users (λ u. rw (key u)) ∙ e) w.tokens
        h.owned;
}
  where
    change : User → User
    change u = if u.id == k then f u else u

    mail : (u : User) → (change u).email ≡ u.email
    mail u = elim (Bool-cases (u.id == k)) [ inl e ↦ rw e (email u) | inr e ↦ rw e ]

    key : (u : User) → (change u).id ≡ u.id
    key u = elim (Bool-cases (u.id == k)) [ inl e ↦ rw e (id u) | inr e ↦ rw e ]

-- An update of the token rows that leaves ids, hashes and owners alone.
map_tokens-IsWellFormed :
    (f : EmailToken → EmailToken)
    → ((t : EmailToken) → (f t).token_hash ≡ t.token_hash)
    → ((t : EmailToken) → (f t).id ≡ t.id)
    → ((t : EmailToken) → (f t).user_id ≡ t.user_id)
    → (w : World) → IsWellFormed w
    → IsWellFormed (record w { tokens = map f w.tokens })
map_tokens-IsWellFormed f hash id owner w h = record {
  emails = h.emails;
  ids = h.ids;
  normal = h.normal;
  hashes = Distinct-map same_hash f w.tokens (λ s t. rw (hash s, hash t)) h.hashes;
  token_ids = Distinct-map same_token_id f w.tokens (λ s t. rw (id s, id t)) h.token_ids;
  owned = All-map (HasOwner w.users) f w.tokens (λ t e. rw (owner t) e) h.owned;
}

create_user-Keeps :
    (now k : ℕ) (email hash : Text) (name : Option Text) → Keeps (create_user now k email hash name)
unfolding create_user
create_user-Keeps now k email hash name = record {
  at = λ w h.
      elim (Bool-cases (any (λ v. text_eq v.email (normalize_email email) || v.id == k) w.users)) [
        | inl taken ↦ rw taken h
        | inr new ↦ rw new (record {
          emails =
              Distinct-append same_email w.users _ (any_mono _ _ w.users (λ u e. ground arith) new)
                h.emails;
          ids =
              Distinct-append same_id w.users _ (any_mono _ _ w.users (λ u e. ground arith) new)
                h.ids;
          normal = All-append _ w.users _ h.normal (normalize_email_idem email, tt);
          hashes = h.hashes;
          token_ids = h.token_ids;
          owned =
              All-mono (λ t e. any-append_left (λ u. u.id == t.user_id) w.users _ e) w.tokens
                h.owned;
        })
      ];
}

create_email_token-Keeps :
    (now k user_id : ℕ) (p : Purpose) (hash : Text) (ttl : ℕ)
    → Keeps (create_email_token now k user_id p hash ttl)
unfolding create_email_token
create_email_token-Keeps now k user_id p hash ttl = record {
  at = λ w h. elim (Bool-cases (any (λ s. text_eq s.token_hash hash || s.id == k) w.tokens)) [
    | inl taken ↦ rw taken h
    | inr new ↦ elim (Bool-cases (any (λ u. u.id == user_id) w.users)) [
      | inr orphan ↦ rw (new, orphan) h
      | inl owner ↦
          rw (new, owner)
            (record {
              emails = h.emails;
              ids = h.ids;
              normal = h.normal;
              hashes =
                  Distinct-append same_hash w.tokens _
                    (any_mono _ _ w.tokens (λ u e. ground arith) new) h.hashes;
              token_ids =
                  Distinct-append same_token_id w.tokens _
                    (any_mono _ _ w.tokens (λ u e. ground arith) new) h.token_ids;
              owned = All-append (HasOwner w.users) w.tokens _ h.owned (owner, tt);
            })
    ]
  ];
}

mark_email_verified-Keeps : (now : ℕ) (u : User) → Keeps (mark_email_verified now u)
unfolding mark_email_verified
mark_email_verified-Keeps now u = record {
  at = λ w h. elim (Option-cases u.email_verified_at) [
    | inr (_, e) ↦ rw e h
    | inl e ↦ rw e (update_user-IsWellFormed u.id (verified_at now) (λ v. refl) (λ v. refl) w h)
  ];
}

set_password-Keeps : (now : ℕ) (u : User) (hash : Text) → Keeps (set_password now u hash)
unfolding set_password
set_password-Keeps now u hash = record {
  at = λ w h. update_user-IsWellFormed u.id (with_password now hash) (λ v. refl) (λ v. refl) w h;
}

consume_email_token-Keeps : (now : ℕ) (t : EmailToken) → Keeps (consume_email_token now t)
unfolding consume_email_token use_token
consume_email_token-Keeps now t = record {
  at = λ w h.
      map_tokens-IsWellFormed (use_token now t) (λ s. ground arith) (λ s. ground arith)
        (λ s. ground arith) w h;
}

invalidate_email_tokens-Keeps : (now k : ℕ) (p : Purpose) → Keeps (invalidate_email_tokens now k p)
unfolding invalidate_email_tokens retire
invalidate_email_tokens-Keeps now k p = record {
  at = λ w h.
      map_tokens-IsWellFormed (retire now k p) (λ s. ground arith) (λ s. ground arith)
        (λ s. ground arith) w h;
}

limiter-IsWellFormed :
    (w : World) (l : RateLimit.Limiter) → IsWellFormed w → IsWellFormed (record w { limiter = l })
limiter-IsWellFormed w l h = record {
  emails = h.emails;
  ids = h.ids;
  normal = h.normal;
  hashes = h.hashes;
  token_ids = h.token_ids;
  owned = h.owned;
}

or_raise-Keeps : {A : Type 0} (o : Option A) (e : Failure) → Keeps (or_raise o e)
or_raise-Keeps none e = record { at = λ w h. h }
or_raise-Keeps (some a) e = record { at = λ w h. h }

raise_if-Keeps : (b : Bool) (e : Failure) → Keeps (raise_if b e)
raise_if-Keeps true e = record { at = λ w h. h }
raise_if-Keeps false e = record { at = λ w h. h }

queue-Keeps : (to : Text) (p : Purpose) (raw : Text) → Keeps (queue to p raw)
queue-Keeps to p raw = record {
  at = λ w h. record {
    emails = h.emails;
    ids = h.ids;
    normal = h.normal;
    hashes = h.hashes;
    token_ids = h.token_ids;
    owned = h.owned;
  };
}

module _ (crypto : Crypto) (cfg : Settings) (req : Request) where
  open req use {now}

  enforced-Keeps : (b i : Text) → Keeps (enforced cfg req b i)
  enforced-Keeps b i = record { at = λ w h. limiter-IsWellFormed w _ h }

  checked_password-Keeps :
      (password : Text) (o : Option User) → Keeps (checked_password crypto cfg req password o)
  checked_password-Keeps password none = record { at = λ w h. h }
  checked_password-Keeps password (some u) = record { at = λ w h. h }

  issue-Keeps : (p : Purpose) (ttl : ℕ) (u : User) → Keeps (issue crypto cfg req p ttl u)
  unfolding issue
  issue-Keeps p ttl u = Keeps->>= (invalidate_email_tokens-Keeps now u.id p) λ _.
      Keeps->>= (create_email_token-Keeps now req.new_token_id u.id p _ ttl)
        λ _. queue-Keeps u.email p req.raw_token

  -- Signing up keeps the invariant, also when the address is taken.
  register-Keeps :
      (email password : Text) (name : Option Text)
      → Keeps (register crypto cfg req email password name)
  unfolding register issue_verification_email
  register-Keeps email password name = Keeps->>= (enforced-Keeps _ _) λ _.
      Keeps->>= (record { at = λ w h. h })
        λ existing. Keeps->>= (raise_if-Keeps _ _) λ _. Keeps->>= (raise_if-Keeps _ _) λ _.
          Keeps->>= (create_user-Keeps now req.new_user_id _ _ name)
            λ u. Keeps->>= (issue-Keeps _ _ u) λ _. record { at = λ w h. h }

  login-Keeps : (email password : Text) → Keeps (login crypto cfg req email password)
  unfolding login
  login-Keeps email password = Keeps->>= (enforced-Keeps _ _) λ _.
      Keeps->>= (enforced-Keeps _ _) λ _.
        Keeps->>= (record { at = λ w h. h })
          λ found. Keeps->>= (checked_password-Keeps password found) λ u. record { at = λ w h. h }

  verify_email-Keeps : (token : Text) → Keeps (verify_email crypto cfg req token)
  unfolding verify_email
  verify_email-Keeps token =
      Keeps->>= (record { at = λ w h. h })
        λ found. Keeps->>= (or_raise-Keeps found _) λ t.
          Keeps->>= (record { at = λ w h. h })
            λ owner. Keeps->>= (or_raise-Keeps owner _) λ u.
              Keeps->>= (consume_email_token-Keeps now t)
                λ _. Keeps->>= (mark_email_verified-Keeps now u) λ u'. record { at = λ w h. h }

  resend-Keeps : (verified : Bool) (u : User) → Keeps (resend crypto cfg req verified u)
  unfolding resend issue_verification_email
  resend-Keeps true u = record { at = λ w h. h }
  resend-Keeps false u = Keeps->>= (issue-Keeps _ _ u) λ _. record { at = λ w h. h }

  resend_verification-Keeps : Keeps (resend_verification crypto cfg req)
  unfolding resend_verification
  resend_verification-Keeps =
      Keeps->>= (record { at = λ w h. h })
        λ u. Keeps->>= (enforced-Keeps _ _) λ _. resend-Keeps (email_verified u) u

  send_reset-Keeps : (o : Option User) → Keeps (send_reset crypto cfg req o)
  send_reset-Keeps none = record { at = λ w h. h }
  send_reset-Keeps (some u) = issue-Keeps _ _ u

  forgot_password-Keeps : (email : Text) → Keeps (forgot_password crypto cfg req email)
  unfolding forgot_password
  forgot_password-Keeps email = Keeps->>= (enforced-Keeps _ _) λ _.
      Keeps->>= (enforced-Keeps _ _) λ _.
        Keeps->>= (record { at = λ w h. h })
          λ found. Keeps->>= (send_reset-Keeps found) λ _. record { at = λ w h. h }

  reset_password-Keeps :
      (token password : Text) → Keeps (reset_password crypto cfg req token password)
  unfolding reset_password apply_reset
  reset_password-Keeps token password =
      Keeps->>= (record { at = λ w h. h })
        λ found. Keeps->>= (or_raise-Keeps found _) λ t.
          Keeps->>= (record { at = λ w h. h })
            λ owner. Keeps->>= (or_raise-Keeps owner _) λ u.
              Keeps->>=
                (Keeps->>= (consume_email_token-Keeps now t) λ _.
                  Keeps->>= (invalidate_email_tokens-Keeps now u.id _) λ _.
                    Keeps->>= (raise_if-Keeps _ _) λ _.
                      Keeps->>= (set_password-Keeps now u _) λ u'. mark_email_verified-Keeps now u')
                λ u'. record { at = λ w h. h }

  me-Keeps : Keeps (me crypto cfg req)
  unfolding me
  me-Keeps = Keeps->>= (record { at = λ w h. h }) λ u. record { at = λ w h. h }

-- The account endpoints, with what each takes from the request's body.
pub data Call : Type 0 where
  register_call : Text → Text → Option Text → Call
  login_call : Text → Text → Call
  me_call resend_call : Call
  verify_call forgot_call : Text → Call
  reset_call : Text → Text → Call

module _ (crypto : Crypto) (cfg : Settings) where
  -- The state that a request leaves, whatever it answers.
  pub handle : Request → Call → World → World
  handle req (register_call email password name) w =
      (register crypto cfg req email password name w).1
  handle req (login_call email password) w = (login crypto cfg req email password w).1
  handle req me_call w = (me crypto cfg req w).1
  handle req resend_call w = (resend_verification crypto cfg req w).1
  handle req (verify_call token) w = (verify_email crypto cfg req token w).1
  handle req (forgot_call email) w = (forgot_password crypto cfg req email w).1
  handle req (reset_call token password) w = (reset_password crypto cfg req token password w).1

  pub serve : List (Request × Call) → World → World
  unfolding handle
  serve [] w = w
  serve ((req, c) ∷ rest) w = serve rest (handle req c w)

  handle-IsWellFormed :
      (req : Request) (c : Call) (w : World) → IsWellFormed w → IsWellFormed (handle req c w)
  unfolding handle
  handle-IsWellFormed req (register_call e p n) w h = (register-Keeps crypto cfg req e p n).at w h
  handle-IsWellFormed req (login_call e p) w h = (login-Keeps crypto cfg req e p).at w h
  handle-IsWellFormed req me_call w h = (me-Keeps crypto cfg req).at w h
  handle-IsWellFormed req resend_call w h = (resend_verification-Keeps crypto cfg req).at w h
  handle-IsWellFormed req (verify_call t) w h = (verify_email-Keeps crypto cfg req t).at w h
  handle-IsWellFormed req (forgot_call e) w h = (forgot_password-Keeps crypto cfg req e).at w h
  handle-IsWellFormed req (reset_call t p) w h = (reset_password-Keeps crypto cfg req t p).at w h

  -- From a well-formed state, after any sequence of requests to the account endpoints, whatever
  -- they bring and however they end: no two accounts share an id or an address, every address is
  -- stored in normal form, no two mail tokens share an id or a hash, and every token belongs to an
  -- account.
  pub serve-IsWellFormed :
      (calls : List (Request × Call)) (w : World) → IsWellFormed w → IsWellFormed (serve calls w)
  unfolding serve
  serve-IsWellFormed [] w h = h
  serve-IsWellFormed ((req, c) ∷ rest) w h =
      serve-IsWellFormed rest (handle req c w) (handle-IsWellFormed req c w h)
