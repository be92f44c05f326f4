-- ===== src/Auth/Tests/Bodies.antt =====
-- Examples of bodies: one that registers, and one whose password is too short.
use stock_quant_backend.Prelude.{◌≡◌, refl, ◌&&◌, none, some, ℕ_discrete, if◌then◌else◌}
use stock_quant_backend.Prelude.Text.{
  Text, codes, text_eq, text_dec, strip, lstrip, rstrip, keep, is_space, lower, lower_char,
}
use stock_quant_backend.Http.{ok, ◌>>=◌}
use stock_quant_backend.RateLimit.{enforce}
use stock_quant_backend.Users.{
  User, World, get_user_by_email, find_user_by_email, normalize_email, create_user,
  invalidate_email_tokens, create_email_token, retire,
}
use stock_quant_backend.Security.{token_for}
use stock_quant_backend.Security.Example.{example, settings}
use stock_quant_backend.Auth.{AuthResponse, signed_in, register, issue, issue_verification_email}
use stock_quant_backend.Auth.Registration.{newcomer}
use stock_quant_backend.Auth.Entry.{login_gate, unless_refused}
use stock_quant_backend.Auth.Bodies.{
  absent, text, Body, LoginRequest, register_request, login_request, post_register, post_login,
  post_verify_email, post_forgot_password, post_reset_password,
}
use stock_quant_backend.Auth.Accepted.{
  Checked, has_length, is_address, is_filled, is_optional, post_Checked, post_login-post_register,
}
use stock_quant_backend.Auth.Tests.{request, unlimited, world}

abbrev body_of : Text → Body
body_of password key =
    if text_eq key (codes "email")
    then text (codes "c@d.e")
    else if text_eq key (codes "password")
    then text password
    else absent

abbrev full : Body
full = body_of (codes "password")

post_Checked_example :
    let body = body_of (codes "short") in
    Checked
      (is_address some (body (codes "email"))
        && has_length 8 72 (body (codes "password"))
        && is_optional (body (codes "display_name")))
      world
      (post_register some example settings request body world)
    × Checked
        (is_address some (body (codes "email")) && has_length 1 72 (body (codes "password")))
        world
        (post_login some example settings request body world)
    × Checked
        (is_filled (body (codes "token")))
        world
        (post_verify_email example settings request body world)
    × Checked
        (is_address some (body (codes "email")))
        world
        (post_forgot_password some example settings request body world)
    × Checked
        (is_filled (body (codes "token")) && has_length 8 72 (body (codes "password")))
        world
        (post_reset_password example settings request body world)
post_Checked_example = post_Checked some example settings request (body_of (codes "short")) world

abbrev resp : AuthResponse
resp =
    signed_in example unlimited request
      (newcomer example unlimited request (codes "c@d.e") (codes "password") none)

abbrev joined : World
joined = (post_register some example unlimited request full world).1

joins : post_register some example unlimited request full world ≡ (ok resp, joined)
unfolding post_register register_request ◌>>=◌ register create_user enforce find_user_by_email
    normalize_email strip lstrip rstrip keep is_space lower lower_char issue
    issue_verification_email invalidate_email_tokens create_email_token retire text_dec ℕ_discrete
joins = refl

post_login-post_register_example :
    (b : LoginRequest) × (u : User) × (login_request some full ≡ some b)
    × (get_user_by_email (normalize_email b.email) joined ≡ some u)
    × ((post_login some example settings request full joined).0
        ≡ unless_refused (login_gate example settings request b.email joined.limiter).0 (
            ok (record {
              token = token_for example settings request.now request.jti u;
              user = resp.user;
            })))
post_login-post_register_example =
    post_login-post_register some example unlimited settings request request full world joined resp
      joins
