-- ===== src/Auth/Accepted.antt =====
-- What the checks on the bodies of the account endpoints promise (app/schemas.py with
-- app/routers/auth.py).
use stock_quant_backend.Prelude.{
  ℕ, ◌≡◌, refl, sym, ap, ◌∙◌, ◌⊎◌, inl, inr, [], ◌∷◌, Bool, true, false, ◌&&◌, Option, none, some,
  leb, length, arith, Option-cases,
}
use stock_quant_backend.Prelude.Text.{Text, codes}
use stock_quant_backend.Http.{Action, Result, ok, raise, unprocessable, ◌>>=◌, or_raise}
use stock_quant_backend.Users.{World, User, get_user_by_email, normalize_email}
use stock_quant_backend.Security.{Crypto, Settings, token_for}
use stock_quant_backend.Auth.{Request, AuthResponse, register, login}
use stock_quant_backend.Auth.Bodies.{
  Field, absent, null, other, text, Body, at_least, password_from, optional_str, address,
  register_request, login_request, forgot_request, reset_request, verify_request, post_register,
  post_login, post_forgot_password, post_reset_password, post_verify_email, RegisterRequest,
  LoginRequest,
}
use stock_quant_backend.Auth.Refusals.{
  is_unprocessable, IsHandler, register-IsHandler, login-IsHandler, forgot_password-IsHandler,
  reset_password-IsHandler, verify_email-IsHandler,
}
use stock_quant_backend.Auth.Registration.{newcomer}
use stock_quant_backend.Auth.Entry.{login_gate, unless_refused, login_registered}

abbrev is_some : {A : Type 0} → Option A → Bool
is_some none = false
is_some (some a) = true

-- Which members a body may have.
abbrev pub has_length : ℕ → ℕ → Field → Bool
has_length least most (text s) = leb least (length s) && leb (length s) most
has_length least most absent = false
has_length least most null = false
has_length least most other = false

abbrev pub is_filled : Field → Bool
is_filled (text []) = false
is_filled (text (c ∷ s)) = true
is_filled absent = false
is_filled null = false
is_filled other = false

abbrev pub is_address : (Text → Option Text) → Field → Bool
is_address email_str (text s) = is_some (email_str s)
is_address email_str absent = false
is_address email_str null = false
is_address email_str other = false

abbrev pub is_optional : Field → Bool
is_optional (text s) = true
is_optional absent = true
is_optional null = true
is_optional other = false

password_from_lem : (n : ℕ) (f : Field) → is_some (password_from n f) ≡ has_length n 72 f
password_from_lem n (text s) = ground arith
password_from_lem n absent = refl
password_from_lem n null = refl
password_from_lem n other = refl

at_least_lem : (f : Field) → is_some (at_least 1 f) ≡ is_filled f
at_least_lem (text []) = refl
at_least_lem (text (c ∷ s)) = ground arith
at_least_lem absent = refl
at_least_lem null = refl
at_least_lem other = refl

optional_str_lem : (f : Field) → is_some (optional_str f) ≡ is_optional f
optional_str_lem (text s) = refl
optional_str_lem absent = refl
optional_str_lem null = refl
optional_str_lem other = refl

-- The two ends of an endpoint with a check in front: the body is one that the schema admits and
-- the answer is not the 422, or it is not, the answer is the 422 and nothing has changed.
abbrev pub Checked : {A : Type 0} → Bool → World → Result A × World → Type 0
Checked valid w p =
    ((valid ≡ true) × (is_unprocessable p.0 ≡ false))
    ⊎ ((valid ≡ false) × (p ≡ (raise unprocessable, w)))

checked :
    {A B : Type 0} (o : Option B) (f : B → Action World A) (valid : Bool)
    → is_some o ≡ valid
    → ((b : B) → IsHandler (f b))
    → (w : World) → Checked valid w ((or_raise o unprocessable >>= f) w)
unfolding ◌>>=◌
checked none f valid e h w = inr (sym e, refl)
checked (some b) f valid e h w = inl (sym e, h b w)

module _ (email_str : Text → Option Text) where
  address_lem : (f : Field) → is_some (address email_str f) ≡ is_address email_str f
  address_lem (text s) = refl
  address_lem absent = refl
  address_lem null = refl
  address_lem other = refl

  register_request_lem :
      (body : Body)
      → is_some (register_request email_str body) ≡ (
          is_address email_str (body (codes "email"))
          && has_length 8 72 (body (codes "password"))
          && is_optional (body (codes "display_name")))
  unfolding register_request
  register_request_lem body = ground (
    arith,
    address_lem (body (codes "email")),
    password_from_lem 8 (body (codes "password")),
    optional_str_lem (body (codes "display_name")),
  )

  login_request_lem :
      (body : Body)
      → is_some (login_request email_str body)
        ≡ (is_address email_str (body (codes "email")) && has_length 1 72 (body (codes "password")))
  unfolding login_request
  login_request_lem body =
      ground
        (arith, address_lem (body (codes "email")), password_from_lem 1 (body (codes "password")))

  forgot_request_lem :
      (body : Body)
      → is_some (forgot_request email_str body) ≡ is_address email_str (body (codes "email"))
  unfolding forgot_request
  forgot_request_lem body = ground (arith, address_lem (body (codes "email")))

reset_request_lem :
    (body : Body)
    → is_some (reset_request body)
      ≡ (is_filled (body (codes "token")) && has_length 8 72 (body (codes "password")))
unfolding reset_request
reset_request_lem body =
    ground
      (arith, at_least_lem (body (codes "token")), password_from_lem 8 (body (codes "password")))

verify_request_lem :
    (body : Body) → is_some (verify_request body) ≡ is_filled (body (codes "token"))
unfolding verify_request
verify_request_lem body = ground (arith, at_least_lem (body (codes "token")))

-- Each of the five endpoints that take a body, whatever is sent and in whatever state: with an
-- address where it takes one, a token that is not empty where it takes one, a password of 8 to 72
-- characters (at `login` of 1 to 72), and a display name that is a string or missing, the answer is
-- never the 422; otherwise it is, and nothing has changed, the limiter's counts neither.
pub post_Checked :
    (email_str : Text → Option Text) (crypto : Crypto) (cfg : Settings) (req : Request)
    (body : Body) (w : World)
    → let has_address = is_address email_str (body (codes "email")) in
      let has_token = is_filled (body (codes "token")) in
      let password = body (codes "password") in
      Checked
        (has_address && has_length 8 72 password && is_optional (body (codes "display_name")))
        w
        (post_register email_str crypto cfg req body w)
      × Checked
          (has_address && has_length 1 72 password)
          w
          (post_login email_str crypto cfg req body w)
      × Checked has_token w (post_verify_email crypto cfg req body w)
      × Checked has_address w (post_forgot_password email_str crypto cfg req body w)
      × Checked
          (has_token && has_length 8 72 password)
          w
          (post_reset_password crypto cfg req body w)
unfolding post_register post_login post_verify_email post_forgot_password post_reset_password
post_Checked email_str crypto cfg req body w = (
  checked (register_request email_str body) _ _ (register_request_lem email_str body)
      (λ b. register-IsHandler crypto cfg req b.email b.password b.display_name) w,
  checked (login_request email_str body) _ _ (login_request_lem email_str body)
      (λ b. login-IsHandler crypto cfg req b.email b.password) w,
  checked (verify_request body) _ _ (verify_request_lem body)
      (λ b. verify_email-IsHandler crypto cfg req b.token) w,
  checked (forgot_request email_str body) _ _ (forgot_request_lem email_str body)
      (λ b. forgot_password-IsHandler crypto cfg req b.email) w,
  checked (reset_request body) _ _ (reset_request_lem body)
      (λ b. reset_password-IsHandler crypto cfg req b.token b.password) w,
)

password_from_mono :
    (f : Field) (p : Text) → password_from 8 f ≡ some p → password_from 1 f ≡ some p
password_from_mono (text s) p h = ground arith
password_from_mono absent p h = absurd (ground arith)
password_from_mono null p h = absurd (ground arith)
password_from_mono other p h = absurd (ground arith)

-- A body that registers is one that signs in, with the same address and password.
login_request-register_request :
    (email_str : Text → Option Text) (body : Body) (b : RegisterRequest)
    → register_request email_str body ≡ some b
    → login_request email_str body ≡ some (record { email = b.email; password = b.password })
unfolding register_request login_request
login_request-register_request email_str body b h =
    elim (Option-cases (address email_str (body (codes "email")))) [
      | inl e ↦ absurd (ground arith)
      | inr (a, e) ↦ elim (Option-cases (password_from 8 (body (codes "password")))) [
        | inl f ↦ absurd (ground arith)
        | inr (p, f) ↦
            let f' = password_from_mono (body (codes "password")) p f in
            elim (Option-cases (optional_str (body (codes "display_name")))) [
              | inl g ↦ absurd (ground arith)
              | inr (n, g) ↦ ground arith
            ]
      ]
    ]

-- After `register` answered, the same body signs in: it is one that `login` takes, its address
-- finds an account, and `login`, at any request and under any settings, answers with the account
-- that `register` answered with and a token for that row, or with the limiter's refusal.
pub post_login-post_register :
    (email_str : Text → Option Text) (crypto : Crypto) (cfg cfg' : Settings) (req req' : Request)
    (body : Body) (w w' : World) (resp : AuthResponse)
    → post_register email_str crypto cfg req body w ≡ (ok resp, w')
    → (b : LoginRequest) × (u : User) × (login_request email_str body ≡ some b)
      × (get_user_by_email (normalize_email b.email) w' ≡ some u)
      × ((post_login email_str crypto cfg' req' body w').0
          ≡ unless_refused
              (login_gate crypto cfg' req' b.email w'.limiter).0
              (ok (record { token = token_for crypto cfg' req'.now req'.jti u; user = resp.user })))
unfolding post_register post_login ◌>>=◌
post_login-post_register email_str crypto cfg cfg' req req' body w w' resp h =
    elim (Option-cases (register_request email_str body)) [
      | inl e ↦ absurd (ground arith)
      | inr (b, e) ↦
          let h' : register crypto cfg req b.email b.password b.display_name w ≡ (ok resp, w') =
            ap
              (λ o.
                (or_raise o unprocessable >>= λ b.
                register crypto cfg req b.email b.password b.display_name)
                  w)
              (sym e)
            ∙ h in
          let taken = login_request-register_request email_str body b e in
          let u = newcomer crypto cfg req b.email b.password b.display_name in
          let (found, enters) =
            login_registered crypto cfg cfg' req req' b.email b.email b.password b.display_name w w'
              resp h' refl in
          (
            record { email = b.email; password = b.password },
            u,
            taken,
            found,
            ap
                  (λ o.
                    ((or_raise o unprocessable >>= λ b. login crypto cfg' req' b.email b.password)
                      w').0)
                  taken
                ∙ enters,
          )
    ]
