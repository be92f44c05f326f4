-- ===== src/Auth/Registration.antt =====
-- What `register` leaves when it answers: the account, found by its address.
use stock_quant_backend.Prelude.{
  ℕ, ◌≡◌, refl, ap, sym, ◌∙◌, subst, Bool, true, false, not, Option, none, some, List, [], ◌∷◌,
  ◌++◌, arith, inl, inr,
}
use stock_quant_backend.Prelude.Text.{Text, text_eq_self}
use stock_quant_backend.Prelude.Rows.{find-append}
use stock_quant_backend.Http.{
  Action, Result, ok, conflict, value_error, ◌>>=◌, pure, gets, raise_if, outcome, >>=-ok,
  >>=-raise, >>=-eq-ok,
}
use stock_quant_backend.Users.{
  User, World, Purpose, verify_email_link, normalize_email, get_user_by_email, find_user_by_email,
  create_user, create_email_token, invalidate_email_tokens,
}
use stock_quant_backend.Security.{Crypto, Settings}
use stock_quant_backend.Auth.{
  Request, AuthResponse, user_out, issue, issue_verification_email, signed_in, register,
}

-- A call that does not touch the accounts.
abbrev KeepsUsers : {A : Type 0} → Action World A → Type 0
KeepsUsers m = (w : World) → (m w).1.users ≡ w.users

KeepsUsers->>= :
    {A B : Type 0} (m : Action World A) (f : A → Action World B)
    → KeepsUsers m
    → ((a : A) → KeepsUsers (f a))
    → KeepsUsers (m >>= f)
KeepsUsers->>= m f h k w = elim (outcome (m w)) [
  | inl (a, s, e) ↦ rw (>>=-ok m f w e) (k a s ∙ (rw e at (h w)))
  | inr (x, s, e) ↦ rw (>>=-raise m f w e) (rw e at (h w))
]

invalidated_users : (now k : ℕ) (p : Purpose) → KeepsUsers (invalidate_email_tokens now k p)
unfolding invalidate_email_tokens
invalidated_users now k p w = refl

created_users :
    (now i k : ℕ) (p : Purpose) (hash : Text) (ttl : ℕ)
    → KeepsUsers (create_email_token now i k p hash ttl)
unfolding create_email_token
created_users now i k p hash ttl w = ground arith

-- What `create_user` answers when it does not fail.
created_user :
    (now i : ℕ) (email hash : Text) (name : Option Text) (w w' : World) (u : User)
    → create_user now i email hash name w ≡ (ok u, w')
    → (u ≡ record {
      id = i;
      email = normalize_email email;
      password_hash = hash;
      display_name = name;
      email_verified_at = none;
      password_changed_at = now;
      token_version = 0;
      created_at = now;
    })
      × (w'.users ≡ w.users ++ u ∷ [])
unfolding create_user
created_user now i email hash name w w' u h = (ground arith, ground arith)

-- The only row with an address is found by it.
found_new :
    (email : Text) (us : List User) (u : User)
    → find_user_by_email email us ≡ none
    → u.email ≡ normalize_email email
    → find_user_by_email email (us ++ u ∷ []) ≡ some u
unfolding find_user_by_email
found_new email us u absent e =
    let self = text_eq_self (normalize_email email) in
    rw (find-append _ us (u ∷ []), absent, e, self) refl

ok_inv :
    {A : Type 0} (a b : A) (w w' : World) → pure {S = World} a w ≡ (ok b, w') → (a ≡ b) × (w ≡ w')
ok_inv a b w w' e = (cc (e), cc (e))

passed_inv :
    (o : Option User) (w w' : World) (a : Unit {0})
    → raise_if (elim o [ none ↦ false | some _ ↦ true ]) conflict w ≡ (ok a, w')
    → (o ≡ none) × (w ≡ w')
passed_inv none w w' a e = (refl, cc (e))
passed_inv (some _) w w' a e = absurd (cc (e))

taken_inv :
    (b : Bool) (w w' : World) (a : Unit {0})
    → raise_if (not b) value_error w ≡ (ok a, w')
    → (b ≡ true) × (w ≡ w')
taken_inv true w w' a e = (refl, cc (e))
taken_inv false w w' a e = absurd (cc (e))

module _ (crypto : Crypto) (cfg : Settings) (req : Request) where
  issue_users : (p : Purpose) (ttl : ℕ) (u : User) → KeepsUsers (issue crypto cfg req p ttl u)
  unfolding issue
  issue_users p ttl u =
      KeepsUsers->>= _ _ (invalidated_users req.now u.id p)
        (λ _. KeepsUsers->>= _ _ (created_users _ _ _ _ _ _) (λ _ w. refl))

  issue_verification_users : (u : User) → KeepsUsers (issue_verification_email crypto cfg req u)
  unfolding issue_verification_email
  issue_verification_users u = issue_users verify_email_link cfg.email_verify_ttl_minutes u

  -- The account that `register` makes.
  abbrev pub newcomer : Text → Text → Option Text → User
  newcomer email password name = record {
    id = req.new_user_id;
    email = normalize_email (normalize_email email);
    password_hash = crypto.hash_password req.salt password;
    display_name = name;
    email_verified_at = none;
    password_changed_at = req.now;
    token_version = 0;
    created_at = req.now;
  }

  -- The steps of `register` after the limiter, one by one.
  register_steps :
      (email password : Text) (name : Option Text) (w1 w2 w3 w3' w4 w5 w' : World)
      (existing : Option User) (a a' b : Unit {0}) (u : User) (resp : AuthResponse)
      → gets (get_user_by_email (normalize_email email)) w1 ≡ (ok existing, w2)
      → raise_if (elim existing [ none ↦ false | some _ ↦ true ]) conflict w2 ≡ (ok a, w3)
      → raise_if (not (crypto.takes_password password)) value_error w3 ≡ (ok a', w3')
      → create_user req.now req.new_user_id
          (normalize_email email)
          (crypto.hash_password req.salt password)
          name
          w3'
        ≡ (ok u, w4)
      → issue_verification_email crypto cfg req u w4 ≡ (ok b, w5)
      → pure (signed_in crypto cfg req u) w5 ≡ (ok resp, w')
      → (resp.user ≡ user_out (newcomer email password name))
        × (get_user_by_email (normalize_email email) w' ≡ some (newcomer email password name))
        × (crypto.takes_password password ≡ true)
  register_steps email password name w1 w2 w3 w3' w4 w5 w' existing a a' b u resp found free taken
        created issued done =
      let (shape, users) = created_user _ _ _ _ _ w3' w4 u created in
      let (same, w12) = ok_inv _ existing w1 w2 found in
      let (nobody, w23) = passed_inv existing w2 w3 a free in
      let (takes, w33) = taken_inv (crypto.takes_password password) w3 w3' a' taken in
      let (answer, w5') = ok_inv _ resp w5 w' done in
      let at = normalize_email email in
      let absent : get_user_by_email at w3' ≡ none =
        subst (λ v. get_user_by_email at v ≡ none) (w12 ∙ w23 ∙ w33) (same ∙ nobody) in
      let kept : w'.users ≡ w4.users =
        ap (λ (v : World). v.users) (sym w5')
        ∙ ap (λ (p : Result (Unit {0}) × World). p.1.users) (sym issued)
        ∙ issue_verification_users u w4 in
      (
        ap (λ (r : AuthResponse). r.user) (sym answer) ∙ ap user_out shape,
        ap (find_user_by_email at) (kept ∙ users)
            ∙ found_new at w3'.users u absent (ap (λ (v : User). v.email) shape)
            ∙ ap some shape,
        takes,
      )

  pub register_inv :
      (email password : Text) (name : Option Text) (w w' : World) (resp : AuthResponse)
      → register crypto cfg req email password name w ≡ (ok resp, w')
      → (resp.user ≡ user_out (newcomer email password name))
        × (get_user_by_email (normalize_email email) w' ≡ some (newcomer email password name))
        × (crypto.takes_password password ≡ true)
  unfolding register
  register_inv email password name w w' resp h =
      let (_, w1, passed, h1) = >>=-eq-ok _ _ w resp w' h in
      let (existing, w2, found, h2) = >>=-eq-ok _ _ w1 resp w' h1 in
      let (a, w3, free, h3) = >>=-eq-ok _ _ w2 resp w' h2 in
      let (a', w3', taken, h3') = >>=-eq-ok _ _ w3 resp w' h3 in
      let (u, w4, created, h4) = >>=-eq-ok _ _ w3' resp w' h3' in
      let (b, w5, issued, h5) = >>=-eq-ok _ _ w4 resp w' h4 in
      register_steps email password name w1 w2 w3 w3' w4 w5 w' existing a a' b u resp found free
        taken created issued h5
