-- ===== src/Security.antt =====
-- Passwords, access tokens and the current-user dependency (app/security.py). What passlib,
-- hashlib, PyJWT and uuid do is a parameter, with the documented behaviour that the code relies
-- on as laws.
pub mod Sessions
pub mod Example
use stock_quant_backend.Prelude.{
  ℕ, ◌+◌, ◌*◌, ◌/◌, ◌≤◌, ◌<◌, ◌≡◌, Bool, true, false, Option, none, some, [], ◌∷◌, ◌==◌,
  if◌then◌else◌,
}
use stock_quant_backend.Prelude.Text.{Text}
use stock_quant_backend.Http.{Result, ok, raise, unauthorized}
use stock_quant_backend.RateLimit.{second}
use stock_quant_backend.Users.{User, World, find_user}

-- The payload of an access token. `iat` and `exp` are in whole seconds.
pub record Claims : Type 0 where
  pub sub : Option Text
  pub ver : Option ℕ
  pub iat : ℕ
  pub jti : Text
  pub exp : ℕ

-- The third-party code, at the configured `JWT_SECRET`. Hashing a password draws a salt. passlib's
-- bcrypt refuses some passwords, such as one with a NUL, with a ValueError in `hash` and in `verify`:
-- the two functions are called only where `takes_password` holds.
pub record Crypto : Type 0 where
  pub takes_password : Text → Bool
  pub hash_password : ℕ → Text → Text
  pub verify_password : Text → Text → Bool
  pub hash_email_token : Text → Text
  pub jwt_encode : Claims → Text
  pub jwt_decode : ℕ → Text → Option Claims
  pub uuid_str : ℕ → Text
  pub uuid_parse : Text → Option ℕ
  -- A password that is taken verifies against its own hash.
  pub verify-hash :
      (salt : ℕ) (p : Text)
      → takes_password p ≡ true
      → verify_password p (hash_password salt p) ≡ true
  -- A token that was signed decodes while it is in date, and is not the empty string.
  pub decode-encode :
      (now : ℕ) (c : Claims)
      → c.iat * second ≤ now
      → now < c.exp * second
      → jwt_decode now (jwt_encode c) ≡ some c
  pub encode_nonempty : (c : Claims) → jwt_encode c ≡ [] → ⊥
  -- Time decides whether a token decodes, never what it says.
  pub decode_stable :
      (now now' : ℕ) (t : Text) (c c' : Claims)
      → jwt_decode now t ≡ some c
      → jwt_decode now' t ≡ some c'
      → c ≡ c'
  -- A uuid's text reads back, and is not empty.
  pub parse-str : (k : ℕ) → uuid_parse (uuid_str k) ≡ some k
  pub parse_empty : uuid_parse [] ≡ none

-- The settings that the account endpoints read (app/config.py).
pub record Settings : Type 0 where
  pub jwt_expire_minutes : ℕ
  pub email_verify_ttl_minutes : ℕ
  pub password_reset_ttl_minutes : ℕ
  pub rate_limit_enabled : Bool

-- `if not credentials.credentials`, `if not sub`
abbrev pub non_empty : Text → Option Text
non_empty [] = none
non_empty (c ∷ s) = some (c ∷ s)

-- `payload.get("ver") is None or int(payload["ver"]) != user.token_version`
abbrev pub same_version : Option ℕ → User → Option User
same_version none u = none
same_version (some v) u = if v == u.token_version then some u else none

-- An early exit when a value is missing.
abbrev pub chain {ℓ κ} : {A : Type ℓ} {B : Type κ} → Option A → (A → Option B) → Option B
chain none f = none
chain (some a) f = f a

module _ (crypto : Crypto) where
  open crypto use {jwt_encode, jwt_decode, uuid_str, uuid_parse}

  unfoldable pub create_access_token : Settings → ℕ → Text → ℕ → ℕ → Text
  create_access_token cfg now jti user_id token_version = jwt_encode (record {
    sub = some (uuid_str user_id);
    ver = some token_version;
    iat = now / second;
    jti = jti;
    exp = (now + cfg.jwt_expire_minutes * 60 * second) / second;
  })

  unfoldable pub token_for : Settings → ℕ → Text → User → Text
  unfolding create_access_token
  token_for cfg now jti u = create_access_token cfg now jti u.id u.token_version

  -- The user that a payload names, if its session generation is the current one.
  unfoldable pub claimed_user : Claims → World → Option User
  claimed_user payload w = chain payload.sub λ sub. chain (non_empty sub) λ sub'.
      chain (uuid_parse sub')
        λ user_id. chain (find_user user_id w.users) λ u. same_version payload.ver u

  -- Every way to fail is the one 401 answer, here `none`.
  unfoldable pub current_user : ℕ → Option Text → World → Option User
  current_user now credentials w = chain credentials λ given.
      chain (non_empty given)
        λ token. chain (jwt_decode now token) λ payload. claimed_user payload w

  unfoldable pub get_current_user : ℕ → Option Text → World → Result User
  get_current_user now credentials w = elim (current_user now credentials w) [
    | none ↦ raise unauthorized
    | some u ↦ ok u
  ]
