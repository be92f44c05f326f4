-- ===== src/Auth/Bodies.antt =====
-- The bodies that the account endpoints take (app/schemas.py), as pydantic checks them, and the
-- endpoints with that check in front. A refused body is answered 422 and no handler runs.
-- `EmailStr` is a parameter: the address that the library email-validator makes of a text, or none.
-- A body that is not an object is taken for one without fields; both are refused.
use stock_quant_backend.Prelude.{ℕ, ◌&&◌, Option, none, some, if◌then◌else◌, leb, length}
use stock_quant_backend.Prelude.Text.{Text, codes}
use stock_quant_backend.Http.{Action, unprocessable, ◌>>=◌, or_raise}
use stock_quant_backend.Users.{World}
use stock_quant_backend.Security.{Crypto, Settings}
use stock_quant_backend.Auth.{
  Request, AuthResponse, UserOut, MessageResponse, register, login, verify_email, forgot_password,
  reset_password,
}

abbrev pub password_min_len : ℕ
password_min_len = 8

abbrev pub password_max_len : ℕ
password_max_len = 72

pub record RegisterRequest : Type 0 where
  pub email : Text
  pub password : Text
  pub display_name : Option Text

pub record LoginRequest : Type 0 where
  pub email : Text
  pub password : Text

pub record ForgotPasswordRequest : Type 0 where
  pub email : Text

pub record ResetPasswordRequest : Type 0 where
  pub token : Text
  pub password : Text

pub record VerifyEmailRequest : Type 0 where
  pub token : Text

-- A member of the JSON object that was sent: not there, `null`, a string, or anything else.
pub data Field : Type 0 where
  absent null other : Field
  text : Text → Field

abbrev pub Body : Type 0
Body = Text → Field

-- `str = Field(min_length=…)`, with the length in code points.
abbrev pub at_least : ℕ → Field → Option Text
at_least n (text s) = if leb n (length s) then some s else none
at_least n absent = none
at_least n null = none
at_least n other = none

-- `str = Field(min_length=…, max_length=PASSWORD_MAX_LEN)`
abbrev pub password_from : ℕ → Field → Option Text
password_from n (text s) =
    if leb n (length s) && leb (length s) password_max_len then some s else none
password_from n absent = none
password_from n null = none
password_from n other = none

-- `str | None = None`
abbrev pub optional_str : Field → Option (Option Text)
optional_str absent = some none
optional_str null = some none
optional_str (text s) = some (some s)
optional_str other = none

module _ (email_str : Text → Option Text) where
  abbrev pub address : Field → Option Text
  address (text s) = email_str s
  address absent = none
  address null = none
  address other = none

  unfoldable pub register_request : Body → Option RegisterRequest
  register_request body =
      let password_of = password_from password_min_len (body (codes "password")) in
      let name_of = optional_str (body (codes "display_name")) in
      elim (address (body (codes "email"))) [
        | none ↦ none
        | some e ↦ elim password_of [
          | none ↦ none
          | some p ↦ elim name_of [
            | none ↦ none
            | some n ↦ some (record { email = e; password = p; display_name = n })
          ]
        ]
      ]

  unfoldable pub login_request : Body → Option LoginRequest
  login_request body =
      let password_of = password_from 1 (body (codes "password")) in
      elim (address (body (codes "email"))) [
        | none ↦ none
        | some e ↦ elim password_of [
          | none ↦ none
          | some p ↦ some (record { email = e; password = p })
        ]
      ]

  unfoldable pub forgot_request : Body → Option ForgotPasswordRequest
  forgot_request body = elim (address (body (codes "email"))) [
    | none ↦ none
    | some e ↦ some (record { email = e })
  ]

unfoldable pub reset_request : Body → Option ResetPasswordRequest
reset_request body =
    let password_of = password_from password_min_len (body (codes "password")) in
    elim (at_least 1 (body (codes "token"))) [
      | none ↦ none
      | some t ↦ elim password_of [
        | none ↦ none
        | some p ↦ some (record { token = t; password = p })
      ]
    ]

unfoldable pub verify_request : Body → Option VerifyEmailRequest
verify_request body = elim (at_least 1 (body (codes "token"))) [
  | none ↦ none
  | some t ↦ some (record { token = t })
]

-- The endpoints.
module _ (email_str : Text → Option Text) (crypto : Crypto) (cfg : Settings) (req : Request) where
  unfoldable pub post_register : Body → Action World AuthResponse
  post_register body = do
    b ← or_raise (register_request email_str body) unprocessable
    register crypto cfg req b.email b.password b.display_name

  unfoldable pub post_login : Body → Action World AuthResponse
  post_login body = do
    b ← or_raise (login_request email_str body) unprocessable
    login crypto cfg req b.email b.password

  unfoldable pub post_forgot_password : Body → Action World MessageResponse
  post_forgot_password body = do
    b ← or_raise (forgot_request email_str body) unprocessable
    forgot_password crypto cfg req b.email

module _ (crypto : Crypto) (cfg : Settings) (req : Request) where
  unfoldable pub post_reset_password : Body → Action World AuthResponse
  post_reset_password body = do
    b ← or_raise (reset_request body) unprocessable
    reset_password crypto cfg req b.token b.password

  unfoldable pub post_verify_email : Body → Action World UserOut
  post_verify_email body = do
    b ← or_raise (verify_request body) unprocessable
    verify_email crypto cfg req b.token
