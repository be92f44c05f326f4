-- ===== src/Auth/Tests.antt =====
-- Examples of the account endpoints: two accounts, the first with a reset link.
mod Bodies
mod Recovery
use stock_quant_backend.Prelude.{
  ℕ, ◌≡◌, refl, true, false, Option, none, some, List, [], ◌∷◌, All, arith, ℕ_discrete, ◌⊎◌,
}
use stock_quant_backend.Prelude.Text.{
  Text, text_dec, strip, lstrip, rstrip, keep, is_space, lower, lower_char,
}
use stock_quant_backend.Http.{ok, raise, bad_request, unauthorized, value_error, ◌>>=◌}
use stock_quant_backend.RateLimit.{enforce}
use stock_quant_backend.Users.{
  User, EmailToken, World, password_reset_link, is_outstanding, find_user, consume_email_token,
  invalidate_email_tokens, set_password, mark_email_verified, use_token, retire, update_user,
  find_token, get_usable_email_token, email_verified, get_user_by_email, find_user_by_email,
  normalize_email, create_email_token, create_user,
}
use stock_quant_backend.Security.{Settings, token_for, get_current_user}
use stock_quant_backend.Security.Example.{example, settings}
use stock_quant_backend.Security.Sessions.{get_current_user_stale, get_current_user_minted}
use stock_quant_backend.Auth.{
  Request, apply_reset, issue, AuthResponse, signed_in, reset_password, forgot_password,
  generic_email_ack, register, login, issue_verification_email,
}
use stock_quant_backend.Auth.Reset.{
  reset_user, reset_world, reset_password_once, reset_password_retires, reset_password_outcomes,
  reset_password_ends_sessions, reset_password_keeps_others, reset_password_signs_in,
}
use stock_quant_backend.Auth.Mailing.{forgot_password_opaque, forgot_password_sends, Sent}
use stock_quant_backend.Auth.Registration.{newcomer}
use stock_quant_backend.Auth.Entry.{login_gate, unless_refused, login-register}
use stock_quant_backend.Auth.Invariant.{
  Call, register_call, forgot_call, IsWellFormed, serve, serve-IsWellFormed,
}

abbrev account : ℕ → Text → User
account id email = record {
  id = id;
  email = email;
  password_hash = 112 ∷ [];
  display_name = none;
  email_verified_at = none;
  password_changed_at = 0;
  token_version = 4;
  created_at = 0;
}

abbrev pub alice : User
alice = account 1 (97 ∷ [])

abbrev bob : User
bob = account 2 (98 ∷ [])

abbrev raw : Text
raw = 114 ∷ []

abbrev link : EmailToken
link = record {
  id = 1;
  user_id = 1;
  purpose = password_reset_link;
  token_hash = raw;
  expires_at = 60000000;
  used_at = none;
  created_at = 0;
}

abbrev pub world : World
world = record {
  limiter = record { hits = []; last_sweep = 0 };
  users = alice ∷ bob ∷ [];
  tokens = link ∷ [];
  outbox = [];
}

abbrev pub request : Request
request = record {
  now = 5000000;
  mono = 5000000;
  client_ip = 49 ∷ [];
  credentials = none;
  new_user_id = 3;
  new_token_id = 2;
  raw_token = 115 ∷ [];
  jti = 106 ∷ [];
  salt = 9;
}

abbrev password : Text
password = 113 ∷ []

abbrev after : World
after = reset_world example settings request link alice password world

abbrev response : AuthResponse
response = signed_in example settings request (reset_user example settings request alice password)

-- The reset goes through.
resets : reset_password example settings request raw password world ≡ (ok response, after)
unfolding ◌>>=◌ reset_password get_usable_email_token find_token find_user apply_reset
    consume_email_token invalidate_email_tokens set_password mark_email_verified use_token retire
    update_user text_dec ℕ_discrete
resets = refl

reset_password_once_example :
    reset_password example settings request raw password after ≡ (raise bad_request, after)
reset_password_once_example =
    reset_password_once example settings request raw password world after response resets settings
      request password

-- With a password that has a NUL.
reset_password_outcomes_example :
    ((example.takes_password (0 ∷ []) ≡ true)
      × (resp : AuthResponse) × (w' : World) × (reset_password example settings request raw
            (0 ∷ [])
            world
          ≡ (ok resp, w')))
    ⊎ ((reset_password example settings request raw (0 ∷ []) world ≡ (raise bad_request, world))
        ⊎ ((example.takes_password (0 ∷ []) ≡ false)
            × (w' : World) × (reset_password example settings request raw (0 ∷ []) world
                ≡ (raise value_error, w'))
            × (w'.users ≡ world.users)
            × ((cfg' : Settings) (req' : Request) (password' : Text)
                → reset_password example cfg' req' raw password' w' ≡ (raise bad_request, w'))))
reset_password_outcomes_example =
    reset_password_outcomes example settings request raw (0 ∷ []) world

-- Sessions of both accounts.
abbrev session : User → Option Text
session u = some (token_for example settings 4000000 (107 ∷ []) u)

is_open : get_current_user example 5000000 (session alice) world ≡ ok alice
unfolding find_user
is_open =
    get_current_user_minted example settings 4000000 (107 ∷ []) alice world refl 5000000
      (omega arith) (omega arith)

is_open_other : get_current_user example 5000000 (session bob) world ≡ ok bob
unfolding find_user
is_open_other =
    get_current_user_minted example settings 4000000 (107 ∷ []) bob world refl 5000000 (omega arith)
      (omega arith)

get_current_user_minted_example : get_current_user example 6000000 (session bob) world ≡ ok bob
unfolding find_user
get_current_user_minted_example =
    get_current_user_minted example settings 4000000 (107 ∷ []) bob world refl 6000000 (omega arith)
      (omega arith)

reset_password_ends_sessions_example :
    get_current_user example 6000000 (session alice) after ≡ raise unauthorized
reset_password_ends_sessions_example =
    reset_password_ends_sessions example settings request raw password world after response resets
      5000000 (session alice) alice is_open refl 6000000

reset_password_keeps_others_example : get_current_user example 5000000 (session bob) after ≡ ok bob
reset_password_keeps_others_example =
    reset_password_keeps_others example settings request raw password world after response resets
      5000000 (session bob) bob is_open_other (λ h. omega (arith, h))

reset_password_signs_in_example :
    (u : User) × (get_current_user example 7000000 (some response.token) after ≡ ok u)
    × (u.id ≡ 1)
    × (email_verified u ≡ true)
    × (example.verify_password password u.password_hash ≡ true)
reset_password_signs_in_example =
    reset_password_signs_in example settings request raw password world after response resets
      7000000 (omega arith) (omega arith)

found : find_user 1 after.users ≡ some (reset_user example settings request alice password)
unfolding find_user update_user
found = refl

-- The same limiter, with no account.
abbrev nobody : World
nobody = record world { users = []; tokens = [] }

forgot_password_opaque_example :
    (forgot_password example settings request (97 ∷ []) world).0
    ≡ (forgot_password example settings request (97 ∷ []) nobody).0
unfolding text_dec ℕ_discrete
forgot_password_opaque_example =
    forgot_password_opaque example settings request (97 ∷ []) world nobody refl refl refl

-- Without the limiter.
abbrev pub unlimited : Settings
unlimited = record settings { rate_limit_enabled = false }

abbrev pub mailed : World
mailed = (forgot_password example unlimited request (97 ∷ []) world).1

pub mails :
    forgot_password example unlimited request (97 ∷ []) world ≡ (ok generic_email_ack, mailed)
unfolding ◌>>=◌ forgot_password enforce find_user_by_email normalize_email strip lstrip rstrip keep
    is_space lower lower_char issue invalidate_email_tokens create_email_token retire text_dec
    ℕ_discrete
mails = refl

forgot_password_sends_example :
    Sent example unlimited request (get_user_by_email (97 ∷ []) world) world mailed
unfolding text_dec ℕ_discrete
forgot_password_sends_example =
    forgot_password_sends example unlimited request (97 ∷ []) world mailed refl mails

pub world-IsWellFormed : IsWellFormed world
unfolding normalize_email strip lstrip rstrip keep is_space lower lower_char text_dec ℕ_discrete
world-IsWellFormed = record {
  emails = ((refl, tt), (tt, tt));
  ids = ((refl, tt), (tt, tt));
  normal = (refl, (refl, tt));
  hashes = (tt, tt);
  token_ids = (tt, tt);
  owned = (refl, tt);
}

abbrev calls : List (Request × Call)
calls = (request, forgot_call (97 ∷ [])) ∷ (request, register_call (99 ∷ []) password none) ∷ []

serve-IsWellFormed_example : IsWellFormed (serve example settings calls world)
serve-IsWellFormed_example = serve-IsWellFormed example settings calls world world-IsWellFormed

abbrev carol : User
carol = newcomer example unlimited request (99 ∷ []) password none

abbrev joined : World
joined = (register example unlimited request (99 ∷ []) password none world).1

joins :
    register example unlimited request (99 ∷ []) password none world
    ≡ (ok (signed_in example unlimited request carol), joined)
unfolding ◌>>=◌ register create_user enforce find_user_by_email normalize_email strip lstrip rstrip
    keep is_space lower lower_char issue issue_verification_email invalidate_email_tokens
    create_email_token retire text_dec ℕ_discrete
joins = refl

-- The same address, as ` C`.
same_address : normalize_email (32 ∷ 67 ∷ []) ≡ normalize_email (99 ∷ [])
unfolding normalize_email strip lstrip rstrip keep is_space lower lower_char ℕ_discrete
same_address = refl

login-register_example :
    ((login example settings request (32 ∷ 67 ∷ []) password joined).0
      ≡ unless_refused
          (login_gate example settings request (32 ∷ 67 ∷ []) joined.limiter).0
          (ok (signed_in example settings request carol)))
    × ((login example settings request (32 ∷ 67 ∷ []) (98 ∷ []) joined).0
        ≡ unless_refused
            (login_gate example settings request (32 ∷ 67 ∷ []) joined.limiter).0
            (raise unauthorized))
unfolding text_dec ℕ_discrete
login-register_example =
    login-register example unlimited settings request request (99 ∷ []) (32 ∷ 67 ∷ []) password
      (98 ∷ []) none world joined (signed_in example unlimited request carol) joins same_address
      refl
