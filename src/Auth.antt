-- ===== src/Auth.antt =====
-- The account endpoints (app/routers/auth.py), whole: the limiter calls, the queries, the commits
-- and the queued mails, in the order of the source. A request reads the clock once. What comes
-- from outside is in `Request`.
pub mod Reset
pub mod Mailing
pub mod Invariant
pub mod Registration
pub mod Entry
pub mod Recovery
pub mod Bodies
pub mod Refusals
pub mod Accepted
mod Tests
use stock_quant_backend.Prelude.{
  ℕ, Bool, true, false, ◌||◌, not, Option, none, some, List, [], ◌∷◌, ◌++◌, if◌then◌else◌,
}
use stock_quant_backend.Prelude.Text.{Text, codes}
use stock_quant_backend.Http.{
  Action, Result, ok, raise, unauthorized, conflict, bad_request, value_error, ◌>>=◌, ◌>>◌, pure,
  gets, modify, raise_if, or_raise,
}
use stock_quant_backend.RateLimit
use stock_quant_backend.Users.{
  User, EmailToken, World, Mail, Purpose, verify_email_link, password_reset_link, email_verified,
  normalize_email, get_user_by_email, find_user, create_user, mark_email_verified, set_password,
  create_email_token, get_usable_email_token, consume_email_token, invalidate_email_tokens,
}
use stock_quant_backend.Security.{Crypto, Settings, token_for, get_current_user}

-- One request: both clocks, the client's address, the `Authorization` credentials, and what the
-- handler draws at random.
pub record Request : Type 0 where
  pub now : ℕ
  pub mono : ℕ
  pub client_ip : Text
  pub credentials : Option Text
  pub new_user_id : ℕ
  pub new_token_id : ℕ
  -- `secrets.token_urlsafe(32)` and `token_urlsafe(12)`
  pub raw_token : Text
  pub jti : Text
  pub salt : ℕ

-- `UserOut`, with the id as the number it is.
pub record UserOut : Type 0 where
  pub id : ℕ
  pub email : Text
  pub display_name : Option Text
  pub email_verified : Bool

pub record AuthResponse : Type 0 where
  pub token : Text
  pub user : UserOut

abbrev pub user_out : User → UserOut
user_out u = record {
  id = u.id;
  email = u.email;
  display_name = u.display_name;
  email_verified = email_verified u;
}

-- The access token is the client's, and the server has nothing to do.
abbrev pub logout : Action World (Unit {0})
logout = pure tt

-- The bodies of the 202 answers.
pub data MessageResponse : Type 0 where
  generic_email_ack already_verified verification_sent : MessageResponse

-- `enforce` on the limiter of the process.
abbrev pub enforced : Settings → Request → Text → Text → Action World (Unit {0})
enforced cfg req bucket identifier w =
    let (r, l) = RateLimit.enforce cfg.rate_limit_enabled req.mono bucket identifier w.limiter in
    (r, record w { limiter = l })

abbrev pub queue : Text → Purpose → Text → Action World (Unit {0})
queue to about raw =
    modify
      (λ w. record w { outbox = w.outbox ++ (record { to = to; about = about; raw = raw }) ∷ [] })

module _ (crypto : Crypto) (cfg : Settings) (req : Request) where
  open crypto use {takes_password, hash_password, verify_password, hash_email_token}
  open req use {now, client_ip, raw_token}

  -- Retires the outstanding tokens of the purpose, stores a fresh one and queues its mail: the
  -- steps that `_issue_verification_email` and `forgot_password` share.
  unfoldable pub issue : Purpose → ℕ → User → Action World (Unit {0})
  issue purpose ttl_minutes u = do
    invalidate_email_tokens now u.id purpose
    create_email_token now req.new_token_id u.id purpose (hash_email_token raw_token) ttl_minutes
    queue u.email purpose raw_token

  unfoldable pub issue_verification_email : User → Action World (Unit {0})
  unfolding issue
  issue_verification_email u = issue verify_email_link cfg.email_verify_ttl_minutes u

  abbrev pub signed_in : User → AuthResponse
  signed_in u = record { token = token_for crypto cfg now req.jti u; user = user_out u }

  -- The body's email, password and display name.
  unfoldable pub register : Text → Text → Option Text → Action World AuthResponse
  register email password display_name = do
    enforced cfg req (codes "register_ip") client_ip
    existing ← gets (get_user_by_email (normalize_email email))
    raise_if (elim existing [ none ↦ false | some _ ↦ true ]) conflict
    raise_if (not (takes_password password)) value_error
    u ←
        create_user now req.new_user_id (normalize_email email) (hash_password req.salt password)
          display_name
    issue_verification_email u
    pure (signed_in u)

  -- `user is None or not verify_password(…)` fails with the one 401; `verify` may raise.
  abbrev pub checked_password : Text → Option User → Action World User
  checked_password password none = λ w. (raise unauthorized, w)
  checked_password password (some u) = λ w. (
    if takes_password password
        then (if verify_password password u.password_hash then ok u else raise unauthorized)
        else raise value_error,
    w,
  )

  unfoldable pub login : Text → Text → Action World AuthResponse
  login email password = do
    enforced cfg req (codes "login_ip") client_ip
    enforced cfg req (codes "login_email") (normalize_email email)
    found ← gets (get_user_by_email (normalize_email email))
    u ← checked_password password found
    pure (signed_in u)

  -- The dependency `get_current_user`.
  abbrev pub current : Action World User
  current w = (get_current_user crypto now req.credentials w, w)

  unfoldable pub me : Action World UserOut
  me = do u ← current; pure (user_out u)

  unfoldable pub verify_email : Text → Action World UserOut
  verify_email token = do
    found ← gets (get_usable_email_token now verify_email_link (hash_email_token token))
    t ← or_raise found bad_request
    owner ← gets (λ w. find_user t.user_id w.users)
    u ← or_raise owner bad_request
    consume_email_token now t
    u' ← mark_email_verified now u
    pure (user_out u')

  -- `if current_user.email_verified: …`
  unfoldable pub resend : Bool → User → Action World MessageResponse
  resend true u = pure already_verified
  resend false u = do issue_verification_email u; pure verification_sent

  unfoldable pub resend_verification : Action World MessageResponse
  resend_verification = do
    u ← current
    enforced cfg req (codes "resend_user") (crypto.uuid_str u.id)
    resend (email_verified u) u

  -- `if user is not None: …`
  abbrev pub send_reset : Option User → Action World (Unit {0})
  send_reset none = pure tt
  send_reset (some u) = issue password_reset_link cfg.password_reset_ttl_minutes u

  unfoldable pub forgot_password : Text → Action World MessageResponse
  forgot_password email = do
    enforced cfg req (codes "forgot_ip") client_ip
    enforced cfg req (codes "forgot_email") (normalize_email email)
    found ← gets (get_user_by_email (normalize_email email))
    send_reset found
    pure generic_email_ack

  -- The part of `reset_password` after its checks.
  unfoldable pub apply_reset : EmailToken → User → Text → Action World User
  apply_reset t u password = do
    consume_email_token now t
    invalidate_email_tokens now u.id password_reset_link
    raise_if (not (takes_password password)) value_error
    u' ← set_password now u (hash_password req.salt password)
    mark_email_verified now u'

  unfoldable pub reset_password : Text → Text → Action World AuthResponse
  reset_password token password = do
    found ← gets (get_usable_email_token now password_reset_link (hash_email_token token))
    t ← or_raise found bad_request
    owner ← gets (λ w. find_user t.user_id w.users)
    u ← or_raise owner bad_request
    u' ← apply_reset t u password
    pure (signed_in u')
