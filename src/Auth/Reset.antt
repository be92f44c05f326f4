-- ===== src/Auth/Reset.antt =====
-- `reset_password`: what a successful reset does to the account, its links and its sessions, and
-- what one that does not succeed leaves.
use stock_quant_backend.Prelude.{
  ℕ, ◌+◌, ◌*◌, ◌/◌, ◌≤◌, ◌<◌, ◌≡◌, ◌≢◌, refl, ap, sym, ◌∙◌, subst, true, false, Option, none, some,
  List, map, All, arith, Bool-cases, Option-cases, inl, inr, ◌⊎◌,
}
use stock_quant_backend.Prelude.Text.{Text}
use stock_quant_backend.Http.{ok, raise, unauthorized, bad_request, value_error, ◌>>=◌}
use stock_quant_backend.RateLimit.{second}
use stock_quant_backend.Users.{
  User, EmailToken, World, email_verified, password_reset_link, find_user, update_user, verified_at,
  with_password, find_token, get_usable_email_token, consume_email_token, invalidate_email_tokens,
  set_password, mark_email_verified, use_token, retire, is_used, is_outstanding,
}
use stock_quant_backend.Users.Tables.{
  find_user-update_user_self, find_user-update_user_ne, retire-All, find_user-id, find_token-use,
  find_token-retire, get_usable_inv, get_usable_used,
}
use stock_quant_backend.Security.{Crypto, Settings, get_current_user}
use stock_quant_backend.Security.Sessions.{
  get_current_user_stale, get_current_user_kept, get_current_user_minted, get_current_user-stored,
}
use stock_quant_backend.Auth.{Request, AuthResponse, signed_in, apply_reset, reset_password}

module _ (crypto : Crypto) (cfg : Settings) (req : Request) where
  open req use {now}

  -- The account after a reset to `password`.
  abbrev pub reset_user : User → Text → User
  reset_user u password = record u {
    email_verified_at = some (elim u.email_verified_at [ none ↦ now | some v ↦ v ]);
    password_hash = crypto.hash_password req.salt password;
    password_changed_at = now;
    token_version = u.token_version + 1;
  }

  abbrev pub reset_tokens : EmailToken → User → List EmailToken → List EmailToken
  reset_tokens t u ts = map (retire now u.id password_reset_link) (map (use_token now t) ts)

  abbrev pub reset_users : User → Text → List User → List User
  reset_users u password us =
      let us' = update_user u.id (with_password now (crypto.hash_password req.salt password)) us in
      elim u.email_verified_at [ none ↦ update_user u.id (verified_at now) us' | some _ ↦ us' ]

  abbrev pub reset_world : EmailToken → User → Text → World → World
  reset_world t u password w = record w {
    users = reset_users u password w.users;
    tokens = reset_tokens t u w.tokens;
  }

  pub apply_reset_lem :
      (t : EmailToken) (u : User) (password : Text) (w : World)
      → crypto.takes_password password ≡ true
      → apply_reset crypto cfg req t u password w
        ≡ (ok (reset_user u password), reset_world t u password w)
  unfolding ◌>>=◌ apply_reset consume_email_token invalidate_email_tokens set_password
      mark_email_verified
  apply_reset_lem t u password w takes = elim (Option-cases u.email_verified_at) [
    | inl e ↦ ground arith
    | inr (v, e) ↦ ground arith
  ]

  -- Where passlib refuses the new password, the link is used up and the others are retired.
  apply_reset_refused :
      (t : EmailToken) (u : User) (password : Text) (w : World)
      → crypto.takes_password password ≡ false
      → apply_reset crypto cfg req t u password w
        ≡ (raise value_error, record w { tokens = reset_tokens t u w.tokens })
  unfolding ◌>>=◌ apply_reset consume_email_token invalidate_email_tokens
  apply_reset_refused t u password w n = ground arith

  -- A reset that succeeds has found a usable reset link and its account.
  reset_password_inv :
      (token password : Text) (w w' : World) (resp : AuthResponse)
      → reset_password crypto cfg req token password w ≡ (ok resp, w')
      → (t : EmailToken) × (u : User) × (get_usable_email_token now password_reset_link
            (crypto.hash_email_token token)
            w
          ≡ some t)
        × (find_user t.user_id w.users ≡ some u)
        × (resp ≡ signed_in crypto cfg req (reset_user u password))
        × (w' ≡ reset_world t u password w)
        × (crypto.takes_password password ≡ true)
  unfolding reset_password ◌>>=◌
  reset_password_inv token password w w' resp h =
      elim (Option-cases
        (get_usable_email_token now password_reset_link (crypto.hash_email_token token) w)) [
          | inl e ↦ absurd (ground arith)
          | inr (t, e) ↦ elim (Option-cases (find_user t.user_id w.users)) [
            | inl e' ↦ absurd (ground arith)
            | inr (u, e') ↦ elim (Bool-cases (crypto.takes_password password)) [
              | inr n ↦ absurd (ground (arith, apply_reset_refused t u password w n))
              | inl y ↦
                  let whole = apply_reset_lem t u password w y in
                  (t, u, e, e', ground (arith, whole), ground (arith, whole), y)
            ]
          ]
        ]

  used_up :
      (t : EmailToken) (u : User) (h : Text) (w : World)
      → find_token password_reset_link h w.tokens ≡ some t
      → (s : EmailToken) × (find_token password_reset_link h (reset_tokens t u w.tokens) ≡ some s)
        × (is_used s ≡ true)
  unfolding use_token retire
  used_up t u h w e = (
    retire now u.id password_reset_link (use_token now t t),
    rw (
      find_token-retire password_reset_link password_reset_link h now u.id
          (map (use_token now t) w.tokens),
      find_token-use password_reset_link h now t w.tokens,
      e,
    ),
    ground arith,
  )

  -- A reset link works once: after a reset that succeeded, the same raw token is refused with the
  -- 400 answer in every later request, whatever that request brings, and the refusal changes
  -- nothing.
  pub reset_password_once :
      (token password : Text) (w w' : World) (resp : AuthResponse)
      → reset_password crypto cfg req token password w ≡ (ok resp, w')
      → (cfg' : Settings) (req' : Request) (password' : Text)
      → reset_password crypto cfg' req' token password' w' ≡ (raise bad_request, w')
  unfolding reset_password ◌>>=◌
  reset_password_once token password w w' resp h cfg' req' password' =
      let h' = crypto.hash_email_token token in
      let (t, u, usable, owner, _, after, _) = reset_password_inv token password w w' resp h in
      let (s, found, used) =
        used_up t u h' w (get_usable_inv now password_reset_link h' w t usable).0 in
      let dead : get_usable_email_token req'.now password_reset_link h' w' ≡ none =
        rw after (get_usable_used req'.now password_reset_link h' _ s found used) in
      ground arith

  -- After a reset that succeeded no reset link of that account is outstanding, also none that was
  -- mailed earlier.
  pub reset_password_retires :
      (token password : Text) (w w' : World) (resp : AuthResponse)
      → reset_password crypto cfg req token password w ≡ (ok resp, w')
      → All (λ t. is_outstanding resp.user.id password_reset_link t ≡ false) w'.tokens
  reset_password_retires token password w w' resp h =
      let (t, u, _, _, answer, after, _) = reset_password_inv token password w w' resp h in
      rw (after, answer) (retire-All now u.id password_reset_link (map (use_token now t) w.tokens))

  -- A link is dead after the part of a reset before its password.
  dead_after :
      (token : Text) (w : World) (t : EmailToken) (u : User)
      → get_usable_email_token now password_reset_link (crypto.hash_email_token token) w ≡ some t
      → (cfg' : Settings) (req' : Request) (password' : Text)
      → let w' = record w { tokens = reset_tokens t u w.tokens } in
        reset_password crypto cfg' req' token password' w' ≡ (raise bad_request, w')
  unfolding reset_password ◌>>=◌
  dead_after token w t u usable cfg' req' password' =
      let h' = crypto.hash_email_token token in
      let w' = record w { tokens = reset_tokens t u w.tokens } in
      let (s, found, used) =
        used_up t u h' w (get_usable_inv now password_reset_link h' w t usable).0 in
      let dead : get_usable_email_token req'.now password_reset_link h' w' ≡ none =
        get_usable_used req'.now password_reset_link h' w' s found used in
      ground arith

  -- The three ends of a reset: it succeeds, which it does only with a password that passlib takes;
  -- or it is the 400 answer with nothing changed; or, with a password that passlib refuses, it ends
  -- in an uncaught error that changes no account and yet uses the link up: the same raw token is the
  -- 400 answer in every later request, whatever password that brings.
  pub reset_password_outcomes :
      (token password : Text) (w : World)
      → ((crypto.takes_password password ≡ true)
          × (resp : AuthResponse) × (w' : World) × (reset_password crypto cfg req token password w
              ≡ (ok resp, w')))
        ⊎ ((reset_password crypto cfg req token password w ≡ (raise bad_request, w))
            ⊎ ((crypto.takes_password password ≡ false)
                × (w' : World) × (reset_password crypto cfg req token password w
                    ≡ (raise value_error, w'))
                × (w'.users ≡ w.users)
                × ((cfg' : Settings) (req' : Request) (password' : Text)
                    → reset_password crypto cfg' req' token password' w'
                      ≡ (raise bad_request, w'))))
  unfolding reset_password ◌>>=◌
  reset_password_outcomes token password w =
      elim (Option-cases
        (get_usable_email_token now password_reset_link (crypto.hash_email_token token) w)) [
          | inl e ↦ inr (inl (ground arith))
          | inr (t, e) ↦ elim (Option-cases (find_user t.user_id w.users)) [
            | inl e' ↦ inr (inl (ground arith))
            | inr (u, e') ↦ elim (Bool-cases (crypto.takes_password password)) [
              | inl y ↦ inl (
                y,
                signed_in crypto cfg req (reset_user u password),
                reset_world t u password w,
                ground (arith, apply_reset_lem t u password w y),
              )
              | inr n ↦ inr (
                  inr (
                    n,
                    record w { tokens = reset_tokens t u w.tokens },
                    ground (arith, apply_reset_refused t u password w n),
                    refl,
                    dead_after token w t u e,
                  ))
            ]
          ]
        ]

  pub stored_after :
      (password : Text) (w : World) (k : ℕ) (u : User)
      → find_user k w.users ≡ some u
      → find_user u.id (reset_users u password w.users) ≡ some (reset_user u password)
  stored_after password w k u e =
      let same = find_user-id k w.users u e in
      let f = with_password now (crypto.hash_password req.salt password) in
      let once =
        find_user-update_user_self u.id f w.users u (λ v. refl)
          (ap (λ x. find_user x w.users) same ∙ e) in
      elim (Option-cases u.email_verified_at) [
        | inl m ↦ rw m (
            find_user-update_user_self u.id (verified_at now) (update_user u.id f w.users) (f u)
              (λ v. refl) once)
        | inr (x, m) ↦
            rw m (once ∙ ap (λ (o : Option ℕ). some (record (f u) { email_verified_at = o })) m)
      ]

  others_after :
      (password : Text) (w : World) (u : User) (k : ℕ)
      → k ≢ u.id
      → find_user k (reset_users u password w.users) ≡ find_user k w.users
  others_after password w u k apart =
      let f = with_password now (crypto.hash_password req.salt password) in
      let once = find_user-update_user_ne k u.id f w.users (λ v. refl) apart in
      elim (Option-cases u.email_verified_at) [
        | inl m ↦ rw m (
            find_user-update_user_ne k u.id (verified_at now) (update_user u.id f w.users)
              (λ v. refl) apart
            ∙ once)
        | inr (x, m) ↦ rw m once
      ]

  -- A reset that succeeded ends every session of the account: credentials that were accepted for it
  -- before are refused in the new state, at any time.
  pub reset_password_ends_sessions :
      (token password : Text) (w w' : World) (resp : AuthResponse)
      → reset_password crypto cfg req token password w ≡ (ok resp, w')
      → (at : ℕ) (credentials : Option Text) (u : User)
      → get_current_user crypto at credentials w ≡ ok u
      → u.id ≡ resp.user.id
      → (later : ℕ) → get_current_user crypto later credentials w' ≡ raise unauthorized
  reset_password_ends_sessions token password w w' resp h at credentials u before own later =
      let (t, v, _, owner, answer, after, takes) = reset_password_inv token password w w' resp h in
      let id : u.id ≡ v.id = own ∙ ap (λ (r : AuthResponse). r.user.id) answer in
      let key : t.user_id ≡ u.id = sym (find_user-id t.user_id w.users v owner) ∙ sym id in
      let one : some u ≡ some v =
        sym (get_current_user-stored crypto at credentials w u before)
        ∙ sym (ap (λ x. find_user x w.users) key)
        ∙ owner in
      let stored : find_user u.id w'.users ≡ some (reset_user v password) =
        rw (after, id) (stored_after password w t.user_id v owner) in
      get_current_user_stale crypto at credentials w u before w' (reset_user v password) stored
        (ground arith) later

  -- It ends no session of another account: credentials that were accepted for that account still
  -- are, for the same account.
  pub reset_password_keeps_others :
      (token password : Text) (w w' : World) (resp : AuthResponse)
      → reset_password crypto cfg req token password w ≡ (ok resp, w')
      → (at : ℕ) (credentials : Option Text) (u : User)
      → get_current_user crypto at credentials w ≡ ok u
      → u.id ≢ resp.user.id
      → get_current_user crypto at credentials w' ≡ ok u
  reset_password_keeps_others token password w w' resp h at credentials u before other =
      let (t, v, _, owner, answer, after, takes) = reset_password_inv token password w w' resp h in
      let apart : u.id ≢ v.id =
        λ e. other (e ∙ sym (ap (λ (r : AuthResponse). r.user.id) answer)) in
      let stored : find_user u.id w'.users ≡ some u =
        rw (after, others_after password w v u.id apart)
          (get_current_user-stored crypto at credentials w u before) in
      get_current_user_kept crypto at credentials w u before w' u stored refl

  -- The token in the answer lets the account in until it expires, with its address verified and the
  -- new password in place.
  pub reset_password_signs_in :
      (token password : Text) (w w' : World) (resp : AuthResponse)
      → reset_password crypto cfg req token password w ≡ (ok resp, w')
      → (later : ℕ) → now ≤ later
      → later < (now + cfg.jwt_expire_minutes * 60 * second) / second * second
      → (u : User) × (get_current_user crypto later (some resp.token) w' ≡ ok u)
        × (u.id ≡ resp.user.id)
        × (email_verified u ≡ true)
        × (crypto.verify_password password u.password_hash ≡ true)
  reset_password_signs_in token password w w' resp h later p q =
      let (t, v, _, owner, answer, after, takes) = reset_password_inv token password w w' resp h in
      let stored : find_user v.id w'.users ≡ some (reset_user v password) =
        rw after (stored_after password w t.user_id v owner) in
      (
        reset_user v password,
        subst
            (λ (r : AuthResponse).
              get_current_user crypto later (some r.token) w' ≡ ok (reset_user v password))
            (sym answer)
            (get_current_user_minted crypto cfg now req.jti (reset_user v password) w' stored later
              p q),
        sym (ap (λ (r : AuthResponse). r.user.id) answer),
        refl,
        crypto.verify-hash req.salt password takes,
      )
