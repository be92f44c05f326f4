-- ===== src/Users.antt =====
-- Accounts and their single-use mail tokens: `User` and `EmailToken` (app/models.py), the tables
-- as lists of rows, and the functions of app/crud.py on them. A commit that would break a unique
-- or foreign key of app/models.py raises `integrity_error` and changes nothing. An id is a number;
-- a time is in microseconds since the epoch.
pub mod Tables
pub mod Email
mod Tests
use stock_quant_backend.Prelude.{
  ℕ, ◌+◌, ◌*◌, Bool, true, false, ◌&&◌, ◌||◌, not, Option, none, some, List, [], ◌∷◌, ◌++◌, map,
  leb, ◌==◌, if◌then◌else◌, find, any, count,
}
use stock_quant_backend.Prelude.Text.{Text, text_eq, strip, lower}
use stock_quant_backend.Http.{Action, ok, raise, integrity_error, ◌>>=◌, ◌>>◌, pure}
use stock_quant_backend.RateLimit.{Limiter, second}

-- `TOKEN_PURPOSES`
pub data Purpose : Type 0 where
  verify_email_link password_reset_link : Purpose

abbrev pub purpose_eq : Purpose → Purpose → Bool
purpose_eq verify_email_link verify_email_link = true
purpose_eq password_reset_link password_reset_link = true
purpose_eq _ _ = false

pub record User : Type 0 where
  pub id : ℕ
  pub email : Text
  pub password_hash : Text
  pub display_name : Option Text
  pub email_verified_at : Option ℕ
  pub password_changed_at : ℕ
  pub token_version : ℕ
  pub created_at : ℕ

-- `User.email_verified`
abbrev pub email_verified : User → Bool
email_verified u = elim u.email_verified_at [ none ↦ false | some _ ↦ true ]

pub record EmailToken : Type 0 where
  pub id : ℕ
  pub user_id : ℕ
  pub purpose : Purpose
  pub token_hash : Text
  pub expires_at : ℕ
  pub used_at : Option ℕ
  pub created_at : ℕ

abbrev pub is_used : EmailToken → Bool
is_used t = elim t.used_at [ none ↦ false | some _ ↦ true ]

-- A message queued for a background task: `send_email`'s recipient, and the raw token that its
-- link carries.
pub record Mail : Type 0 where
  pub to : Text
  pub about : Purpose
  pub raw : Text

-- All that the account handlers read and write.
pub record World : Type 0 where
  pub limiter : Limiter
  pub users : List User
  pub tokens : List EmailToken
  pub outbox : List Mail

unfoldable pub normalize_email : Text → Text
normalize_email email = lower (strip email)

unfoldable pub find_user_by_email : Text → List User → Option User
find_user_by_email email = find (λ u. text_eq u.email (normalize_email email))

abbrev pub get_user_by_email : Text → World → Option User
get_user_by_email email w = find_user_by_email email w.users

-- `session.get(User, id)`
unfoldable pub find_user : ℕ → List User → Option User
find_user k = find (λ u. u.id == k)

-- `UPDATE users SET … WHERE id = k`
unfoldable pub update_user : ℕ → (User → User) → List User → List User
update_user k change = map (λ v. if v.id == k then change v else v)

unfoldable pub create_user : ℕ → ℕ → Text → Text → Option Text → Action World User
create_user now new_id email password_hash display_name w =
    let u : User = record {
      id = new_id;
      email = normalize_email email;
      password_hash = password_hash;
      display_name = display_name;
      email_verified_at = none;
      password_changed_at = now;
      token_version = 0;
      created_at = now;
    } in
    if any (λ v. text_eq v.email u.email || v.id == new_id) w.users
    then (raise integrity_error, w)
    else (ok u, record w { users = w.users ++ u ∷ [] })

abbrev pub verified_at : ℕ → User → User
verified_at now u = record u { email_verified_at = some now }

unfoldable pub mark_email_verified : ℕ → User → Action World User
mark_email_verified now u w = elim u.email_verified_at [
  | some _ ↦ (ok u, w)
  | none ↦ (ok (verified_at now u), record w { users = update_user u.id (verified_at now) w.users })
]

abbrev pub with_password : ℕ → Text → User → User
with_password now password_hash u = record u {
  password_hash = password_hash;
  password_changed_at = now;
  token_version = u.token_version + 1;
}

unfoldable pub set_password : ℕ → User → Text → Action World User
set_password now u password_hash w = (
  ok (with_password now password_hash u),
  record w { users = update_user u.id (with_password now password_hash) w.users },
)

unfoldable pub create_email_token : ℕ → ℕ → ℕ → Purpose → Text → ℕ → Action World EmailToken
create_email_token now new_id user_id purpose token_hash ttl_minutes w =
    let t : EmailToken = record {
      id = new_id;
      user_id = user_id;
      purpose = purpose;
      token_hash = token_hash;
      expires_at = now + ttl_minutes * 60 * second;
      used_at = none;
      created_at = now;
    } in
    if any (λ s. text_eq s.token_hash token_hash || s.id == new_id) w.tokens
      || not (any (λ u. u.id == user_id) w.users)
    then (raise integrity_error, w)
    else (ok t, record w { tokens = w.tokens ++ t ∷ [] })

-- `select(EmailToken).where(token_hash == …, purpose == …).first()`
unfoldable pub find_token : Purpose → Text → List EmailToken → Option EmailToken
find_token purpose token_hash =
    find (λ t. text_eq t.token_hash token_hash && purpose_eq t.purpose purpose)

-- `token.used_at is not None`, or expired.
abbrev pub is_usable : ℕ → EmailToken → Bool
is_usable now t = not (is_used t) && not (leb t.expires_at now)

unfoldable pub get_usable_email_token : ℕ → Purpose → Text → World → Option EmailToken
get_usable_email_token now purpose token_hash w = elim (find_token purpose token_hash w.tokens) [
  | none ↦ none
  | some t ↦ if is_usable now t then some t else none
]

-- `UPDATE … SET used_at = now WHERE id = t.id`
unfoldable pub use_token : ℕ → EmailToken → EmailToken → EmailToken
use_token now t s = if s.id == t.id then record s { used_at = some now } else s

unfoldable pub consume_email_token : ℕ → EmailToken → Action World (Unit {0})
consume_email_token now t w = (ok tt, record w { tokens = map (use_token now t) w.tokens })

-- A token of the user and the purpose that is still unused.
abbrev pub is_outstanding : ℕ → Purpose → EmailToken → Bool
is_outstanding user_id purpose t =
    t.user_id == user_id && purpose_eq t.purpose purpose && not (is_used t)

unfoldable pub retire : ℕ → ℕ → Purpose → EmailToken → EmailToken
retire now user_id purpose t =
    if is_outstanding user_id purpose t then record t { used_at = some now } else t

-- The number of tokens that were marked.
unfoldable pub invalidate_email_tokens : ℕ → ℕ → Purpose → Action World ℕ
invalidate_email_tokens now user_id purpose w = (
  ok (count (is_outstanding user_id purpose) w.tokens),
  record w { tokens = map (retire now user_id purpose) w.tokens },
)
