-- ===== src/Mail.antt =====
-- Outgoing mail (app/email.py) with its settings (app/config.py): the choice of a sender and a
-- delivery over SMTP, as the commands that are sent. The server is a parameter, which says of each
-- command, after those sent before, whether it succeeds; where it does not, the library raises.
pub mod Delivery
pub mod Messages
mod Tests
use stock_quant_backend.Prelude.{
  ℕ, ◌*◌, ◌/◌, max, Bool, true, false, ◌&&◌, ◌||◌, not, Option, none, some, List, [], ◌∷◌, ◌++◌,
  map, select, any, length, ltb, ◌==◌, if◌then◌else◌,
}
use stock_quant_backend.Prelude.Text.{Text, codes, text_eq, strip, lower}
use stock_quant_backend.Prelude.Split.{split}
use stock_quant_backend.Http.{Action, Result, ok, raise, smtp_error, pure, ◌>>=◌, ◌>>◌}
use stock_quant_backend.RateLimit.Client.{is_blank}

-- The settings that mail reads.
pub record MailSettings : Type 0 where
  pub app_base_url : Text
  pub email_backend : Text
  pub email_from : Text
  pub email_from_name : Text
  pub smtp_host : Text
  pub smtp_port : ℕ
  pub smtp_user : Text
  pub smtp_password : Text
  pub smtp_starttls : Bool
  pub smtp_ssl : Bool
  pub email_verify_ttl_minutes : ℕ
  pub password_reset_ttl_minutes : ℕ

-- The arguments of `send`.
pub record Message : Type 0 where
  pub to : Text
  pub subject : Text
  pub text_body : Text
  pub html_body : Option Text

-- The calls on an SMTP connection; `connect` says whether TLS is implicit.
pub data Command : Type 0 where
  connect : Bool → Text → ℕ → Command
  ehlo starttls quit : Command
  login : Text → Text → Command
  send_message : Text → Text → Message → Command

-- Whether a command succeeds, after the commands before it.
abbrev pub Server : Type 0
Server = List Command → Command → Bool

abbrev pub Session : Type 0 → Type 0
Session A = Action (List Command) A

-- Some text is truthy.
abbrev pub is_set : Text → Bool
is_set s = not (is_blank s)

module _ (server : Server) where
  unfoldable pub call : Command → Session (Unit {0})
  call c log = (if server log c then ok tt else raise smtp_error, log ++ c ∷ [])

  -- `if c: …`
  abbrev pub when : Bool → Session (Unit {0}) → Session (Unit {0})
  when true m log = m log
  when false m log = (ok tt, log)

  -- `finally: try: server.quit() except Exception: pass`
  unfoldable pub finally_quit : Session (Unit {0}) → Session (Unit {0})
  unfolding call
  finally_quit m log = let (r, log') = m log in let (closed, log'') = call quit log' in (r, log'')

  -- The `try` block of `SmtpEmailSender.send`.
  unfoldable pub converse : MailSettings → Message → Session (Unit {0})
  converse cfg msg = do
    call ehlo
    when (cfg.smtp_starttls && not cfg.smtp_ssl) (do call starttls; call ehlo)
    when (is_set cfg.smtp_user) (call (login cfg.smtp_user cfg.smtp_password))
    call (send_message cfg.email_from_name cfg.email_from msg)

  unfoldable pub smtp_send : MailSettings → Message → Session (Unit {0})
  smtp_send cfg msg = do
    call (connect cfg.smtp_ssl cfg.smtp_host cfg.smtp_port)
    finally_quit (converse cfg msg)

-- `ConsoleEmailSender` writes to the log and sends nothing.
pub data Sender : Type 0 where
  console smtp : Sender

unfoldable pub get_email_sender : MailSettings → Sender
get_email_sender cfg =
    if text_eq cfg.email_backend (codes "smtp")
    then (if is_set cfg.smtp_host then smtp else console)
    else console

-- `_sender`, with the override that `set_email_sender` sets.
unfoldable pub sender : Option Sender → MailSettings → Sender
sender none cfg = get_email_sender cfg
sender (some s) cfg = s

abbrev pub send : Sender → Server → MailSettings → Message → Session (Unit {0})
send console server cfg msg = pure tt
send smtp server cfg msg = smtp_send server cfg msg

abbrev pub succeeded : Result (Unit {0}) → Bool
succeeded (ok _) = true
succeeded (raise e) = false

-- Whether the message went out, and the commands sent. An exception is logged, never raised.
unfoldable pub send_email :
    Server → Option Sender → MailSettings → Message → List Command → Bool × List Command
send_email server override cfg msg log =
    let (r, log') = send (sender override cfg) server cfg msg log in (succeeded r, log')

-- `_check_jwt_secret`, `_check_email_backend`: none for the `ValueError`.
unfoldable pub check_jwt_secret : Text → Option Text
check_jwt_secret v =
    let s = strip v in
    if ltb (length s) 32
    then none
    else if any (text_eq s)
        (codes "change-me" ∷ codes "changeme" ∷ codes "secret" ∷ codes "please-change-me" ∷ [])
    then none
    else some s

unfoldable pub check_email_backend : Text → Option Text
check_email_backend v =
    let s = lower (strip v) in
    if text_eq s (codes "console") || text_eq s (codes "smtp") then some s else none

-- `allowed_origins_list`
unfoldable pub allowed_origins_list : Text → List Text
allowed_origins_list v =
    let value = strip v in
    if text_eq value (codes "*")
    then codes "*" ∷ []
    else map strip (select (λ o. is_set (strip o)) (split 44 value))

-- `rstrip("/")`
unfoldable pub before_slashes : ℕ → Text → Text
before_slashes c [] = if c == 47 then [] else c ∷ []
before_slashes c (d ∷ s) = c ∷ d ∷ s

unfoldable pub without_slashes : Text → Text
unfolding before_slashes
without_slashes [] = []
without_slashes (c ∷ s) = before_slashes c (without_slashes s)

-- The lines that `_warn_about_dev_defaults` (app/main.py) logs; `contains` is Python's `in`.
pub data StartupWarning : Type 0 where
  console_backend smtp_without_host : StartupWarning
  local_base_url : Text → StartupWarning

unfoldable pub warn_about_dev_defaults : (Text → Text → Bool) → MailSettings → List StartupWarning
warn_about_dev_defaults contains cfg =
    (if text_eq cfg.email_backend (codes "console")
      then console_backend ∷ []
      else if not (is_set cfg.smtp_host)
      then smtp_without_host ∷ []
      else [])
    ++ (if contains (codes "localhost") cfg.app_base_url
          || contains (codes "127.0.0.1") cfg.app_base_url
        then local_base_url cfg.app_base_url ∷ []
        else [])
