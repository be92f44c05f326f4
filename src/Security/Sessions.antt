-- ===== src/Security/Sessions.antt =====
-- Which user an access token speaks for.
use stock_quant_backend.Prelude.{
  ℕ, ◌+◌, ◌*◌, ◌/◌, ◌≤◌, ◌<◌, ◌≡◌, ◌≢◌, refl, ap, sym, ◌∙◌, Option, none, some, [], ◌∷◌, ◌==◌,
  if◌then◌else◌, arith, Option-cases, Bool-cases, inl, inr,
}
use stock_quant_backend.Prelude.Text.{Text}
use stock_quant_backend.Http.{ok, raise, unauthorized}
use stock_quant_backend.RateLimit.{second}
use stock_quant_backend.Users.{User, World, find_user}
use stock_quant_backend.Users.Tables.{find_user-id}
use stock_quant_backend.Security.{
  Crypto, Claims, Settings, non_empty, chain, claimed_user, current_user, get_current_user,
  same_version, token_for,
}

chain-eq-some {ℓ κ} :
    {A : Type ℓ} {B : Type κ} (o : Option A) (f : A → Option B) (b : B)
    → chain o f ≡ some b
    → (a : A) × (o ≡ some a) × (f a ≡ some b)
chain-eq-some none f b h = cc
chain-eq-some (some a) f b h = (a, refl, h)

same_version_inv :
    (ver : Option ℕ) (v u : User)
    → same_version ver v ≡ some u
    → (v ≡ u) × (ver ≡ some u.token_version)
same_version_inv none v u h = absurd (cc)
same_version_inv (some n) v u h = elim (Bool-cases (n == v.token_version)) [
  | inl e ↦ ground arith
  | inr e ↦ absurd (ground arith)
]

non_empty_of : (t : Text) → (t ≡ [] → ⊥) → non_empty t ≡ some t
non_empty_of [] h = absurd (h refl)
non_empty_of (c ∷ t) h = refl

module _ (crypto : Crypto) where
  open crypto use {jwt_decode, uuid_parse}

  -- What a payload says when it is accepted for `u`.
  record Names (payload : Claims) (u : User) : Type 0 where
    sub : Text
    text : Text
    sub_given : payload.sub ≡ some sub
    sub_text : non_empty sub ≡ some text
    parsed : uuid_parse text ≡ some u.id
    version : payload.ver ≡ some u.token_version

  claimed_user_inv :
      (payload : Claims) (w : World) (u : User)
      → claimed_user crypto payload w ≡ some u
      → Names payload u × (find_user u.id w.users ≡ some u)
  unfolding claimed_user
  claimed_user_inv payload w u h =
      let (sub, e, h1) = chain-eq-some payload.sub _ u h in
      let (text, e1, h2) = chain-eq-some (non_empty sub) _ u h1 in
      let (k, e2, h3) = chain-eq-some (uuid_parse text) _ u h2 in
      let (v, e3, h4) = chain-eq-some (find_user k w.users) _ u h3 in
      let (same, ver) = same_version_inv payload.ver v u h4 in
      let key : u.id ≡ k = ap (λ (x : User). x.id) (sym same) ∙ find_user-id k w.users v e3 in
      (
        record {
          sub = sub;
          text = text;
          sub_given = e;
          sub_text = e1;
          parsed = e2 ∙ ap some (sym key);
          version = ver;
        },
        ap (λ x. find_user x w.users) key ∙ e3 ∙ ap some same,
      )

  claimed_user_of :
      (payload : Claims) (w : World) (u v : User)
      → Names payload u
      → find_user u.id w.users ≡ some v
      → claimed_user crypto payload w
        ≡ (if u.token_version == v.token_version then some v else none)
  unfolding claimed_user
  claimed_user_of payload w u v n e = rw (n.sub_given, n.sub_text, n.parsed, e, n.version)

  -- A request that was let in for `u`.
  record LetIn (now : ℕ) (credentials : Option Text) (w : World) (u : User) : Type 0 where
    given : Text
    token : Text
    payload : Claims
    present : credentials ≡ some given
    nonempty : non_empty given ≡ some token
    decoded : jwt_decode now token ≡ some payload
    names : Names payload u
    stored : find_user u.id w.users ≡ some u

  let_in :
      (now : ℕ) (credentials : Option Text) (w : World) (u : User)
      → get_current_user crypto now credentials w ≡ ok u
      → LetIn now credentials w u
  unfolding get_current_user current_user
  let_in now credentials w u h =
      let found : current_user crypto now credentials w ≡ some u =
        elim (Option-cases (current_user crypto now credentials w)) [
          | inl e ↦ absurd (ground arith)
          | inr (v, e) ↦ ground arith
        ] in
      let (given, e, h1) = chain-eq-some credentials _ u found in
      let (token, e1, h2) = chain-eq-some (non_empty given) _ u h1 in
      let (payload, e2, h3) = chain-eq-some (jwt_decode now token) _ u h2 in
      let (names, stored) = claimed_user_inv payload w u h3 in
      record {
        given = given;
        token = token;
        payload = payload;
        present = e;
        nonempty = e1;
        decoded = e2;
        names = names;
        stored = stored;
      }

  decoded_user :
      (now : ℕ) (credentials : Option Text) (given token : Text) (w : World)
      → credentials ≡ some given
      → non_empty given ≡ some token
      → current_user crypto now credentials w
        ≡ chain (jwt_decode now token) (λ payload. claimed_user crypto payload w)
  unfolding current_user
  decoded_user now credentials given token w e e1 = rw (e, e1)

  -- Once the account's session generation differs, the same credentials are refused at any time.
  pub get_current_user_stale :
      (now : ℕ) (credentials : Option Text) (w : World) (u : User)
      → get_current_user crypto now credentials w ≡ ok u
      → (w' : World) (v : User) → find_user u.id w'.users ≡ some v
      → v.token_version ≢ u.token_version
      → (later : ℕ) → get_current_user crypto later credentials w' ≡ raise unauthorized
  unfolding get_current_user
  get_current_user_stale now credentials w u h w' v stored bumped later =
      let i = let_in now credentials w u h in
      let e = decoded_user later credentials i.given i.token w' i.present i.nonempty in
      elim (Option-cases (jwt_decode later i.token)) [
        | inl n ↦ ground arith
        | inr (p, d) ↦
            let same = crypto.decode_stable later now i.token p i.payload d i.decoded in
            let c = claimed_user_of i.payload w' u v i.names stored in ground arith
      ]

  -- While it is the same, they are accepted at that time in any state, for the account as it is.
  pub get_current_user_kept :
      (now : ℕ) (credentials : Option Text) (w : World) (u : User)
      → get_current_user crypto now credentials w ≡ ok u
      → (w' : World) (v : User) → find_user u.id w'.users ≡ some v
      → v.token_version ≡ u.token_version
      → get_current_user crypto now credentials w' ≡ ok v
  unfolding get_current_user
  get_current_user_kept now credentials w u h w' v stored same =
      let i = let_in now credentials w u h in
      let e = decoded_user now credentials i.given i.token w' i.present i.nonempty in
      let c = claimed_user_of i.payload w' u v i.names stored in ground (arith, i.decoded)

  minted : Settings → ℕ → Text → User → Claims
  minted cfg now jti u = record {
    sub = some (crypto.uuid_str u.id);
    ver = some u.token_version;
    iat = now / second;
    jti = jti;
    exp = (now + cfg.jwt_expire_minutes * 60 * second) / second;
  }

  minted-Names : (cfg : Settings) (now : ℕ) (jti : Text) (u : User) → Names (minted cfg now jti u) u
  unfolding minted
  minted-Names cfg now jti u = record {
    sub = crypto.uuid_str u.id;
    text = crypto.uuid_str u.id;
    sub_given = refl;
    sub_text =
        non_empty_of (crypto.uuid_str u.id)
          (λ e. cc (crypto.parse_empty, crypto.parse-str u.id, ap uuid_parse e));
    parsed = crypto.parse-str u.id;
    version = refl;
  }

  -- A token that was just minted lets its user in until it expires.
  pub get_current_user_minted :
      (cfg : Settings) (now : ℕ) (jti : Text) (u : User) (w : World)
      → find_user u.id w.users ≡ some u
      → (later : ℕ) → now ≤ later
      → later < (now + cfg.jwt_expire_minutes * 60 * second) / second * second
      → get_current_user crypto later (some (token_for crypto cfg now jti u)) w ≡ ok u
  unfolding get_current_user token_for minted
  get_current_user_minted cfg now jti u w stored later p q =
      let c = minted cfg now jti u in
      let t = crypto.jwt_encode c in
      let e = decoded_user later (some t) t t w refl (non_empty_of t (crypto.encode_nonempty c)) in
      let d : jwt_decode later t ≡ some c = crypto.decode-encode later c (omega arith) q in
      let k = claimed_user_of c w u u (minted-Names cfg now jti u) stored in ground arith

  -- The user that a request speaks for is a row of the table.
  pub get_current_user-stored :
      (now : ℕ) (credentials : Option Text) (w : World) (u : User)
      → get_current_user crypto now credentials w ≡ ok u
      → find_user u.id w.users ≡ some u
  get_current_user-stored now credentials w u h = (let_in now credentials w u h).stored
