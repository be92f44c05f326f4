-- ===== src/Auth/Tests/Recovery.antt =====
-- An example of a lost password.
use stock_quant_backend.Prelude.{◌≡◌, refl, true, some, [], ◌∷◌, arith, ℕ_discrete}
use stock_quant_backend.Prelude.Text.{
  text_dec, strip, lstrip, rstrip, keep, is_space, lower, lower_char,
}
use stock_quant_backend.Http.{ok}
use stock_quant_backend.Users.{
  World, email_verified, get_user_by_email, find_user_by_email, normalize_email,
}
use stock_quant_backend.Security.Example.{example, settings}
use stock_quant_backend.Auth.{Request, signed_in, reset_password, login}
use stock_quant_backend.Auth.Reset.{reset_user}
use stock_quant_backend.Auth.Entry.{login_gate, unless_refused}
use stock_quant_backend.Auth.Recovery.{login-reset_password-forgot_password}
use stock_quant_backend.Auth.Tests.{
  alice, world, request, unlimited, mailed, mails, world-IsWellFormed,
}

is_registered : get_user_by_email (97 ∷ []) world ≡ some alice
unfolding find_user_by_email normalize_email strip lstrip rstrip keep is_space lower lower_char
    text_dec ℕ_discrete
is_registered = refl

-- A minute later.
abbrev later : Request
later = record request { now = 65000000; raw_token = []; salt = 5 }

login-reset_password-forgot_password_example :
    let v = reset_user example settings later alice (98 ∷ []) in
    (w'' : World) × (reset_password example settings later (115 ∷ []) (98 ∷ []) mailed
      ≡ (ok (signed_in example settings later v), w''))
    × (email_verified v ≡ true)
    × ((login example settings later (97 ∷ []) (98 ∷ []) w'').0
        ≡ unless_refused
            (login_gate example settings later (97 ∷ []) w''.limiter).0
            (ok (signed_in example settings later v)))
unfolding text_dec ℕ_discrete
login-reset_password-forgot_password_example =
    login-reset_password-forgot_password example unlimited settings settings request later later
      (97 ∷ []) (98 ∷ []) alice world mailed world-IsWellFormed refl is_registered mails
      (omega arith) refl
