-- ===== src/Mail/Delivery.antt =====
-- What is said to the mail server, in which order, and what `send_email` makes of it.
use stock_quant_backend.Prelude.{
  ◌≡◌, refl, ap, ◌∙◌, Bool, true, false, ◌&&◌, ◌||◌, not, Option, List, [], ◌∷◌, ◌++◌, any,
  if◌then◌else◌, arith, Bool-cases, inl, inr,
}
use stock_quant_backend.Http.{Result, ok, raise, smtp_error, ◌>>◌, >>=-ok, >>=-raise}
use stock_quant_backend.Mail.{
  MailSettings, Message, Command, connect, ehlo, starttls, quit, login, send_message, Server,
  Session, is_set, call, when, finally_quit, converse, smtp_send, Sender, smtp, sender, succeeded,
  send, send_email,
}

-- TLS, where it is asked for and not there yet.
abbrev pub upgrade : MailSettings → List Command
upgrade cfg = if cfg.smtp_starttls && not cfg.smtp_ssl then starttls ∷ ehlo ∷ [] else []

-- The login, where there is a user, and the message.
abbrev pub submission : MailSettings → Message → List Command
submission cfg msg =
    (if is_set cfg.smtp_user then login cfg.smtp_user cfg.smtp_password ∷ [] else [])
    ++ send_message cfg.email_from_name cfg.email_from msg ∷ []

abbrev pub open_line : MailSettings → Command
open_line cfg = connect cfg.smtp_ssl cfg.smtp_host cfg.smtp_port

-- All commands of a delivery, in order.
abbrev pub script : MailSettings → Message → List Command
script cfg msg = open_line cfg ∷ ehlo ∷ (upgrade cfg ++ submission cfg msg)

abbrev pub is_login : Command → Bool
is_login (login user password) = true
is_login c = false

any-append : (p : Command → Bool) (xs ys : List Command) → any p (xs ++ ys) ≡ (any p xs || any p ys)
any-append p [] ys = refl
any-append p (x ∷ xs) ys = ground (arith, any-append p xs ys)

told : (b : Bool) → succeeded (if b then ok tt else raise smtp_error) ≡ b
told true = refl
told false = refl

and_not : (b : Bool) → (b && not true) ≡ false
and_not true = refl
and_not false = refl

module _ (server : Server) where
  -- Every command succeeds, each after those before it.
  abbrev pub all_succeed : List Command → List Command → Bool
  all_succeed log [] = true
  all_succeed log (c ∷ cs) = server log c && all_succeed (log ++ c ∷ []) cs

  -- What is sent: up to the first command that fails.
  unfoldable pub sent : List Command → List Command → List Command
  sent log [] = log
  sent log (c ∷ cs) =
      let rest = sent (log ++ c ∷ []) cs in if server log c then rest else log ++ c ∷ []

  -- A session that plays a script.
  abbrev Plays : Session (Unit {0}) → List Command → Type 0
  Plays m cs =
      (log : List Command)
      → m log ≡ (if all_succeed log cs then ok tt else raise smtp_error, sent log cs)

  call-Plays : (c : Command) → Plays (call server c) (c ∷ [])
  unfolding call sent
  call-Plays c log = ground arith

  sent-append :
      (log cs ds : List Command)
      → sent log (cs ++ ds) ≡ (if all_succeed log cs then sent (sent log cs) ds else sent log cs)
  unfolding sent
  sent-append log [] ds = refl
  sent-append log (c ∷ cs) ds = ground (arith, sent-append (log ++ c ∷ []) cs ds)

  all_succeed-append :
      (log cs ds : List Command)
      → all_succeed log (cs ++ ds) ≡ (all_succeed log cs && all_succeed (sent log cs) ds)
  unfolding sent
  all_succeed-append log [] ds = refl
  all_succeed-append log (c ∷ cs) ds = ground (arith, all_succeed-append (log ++ c ∷ []) cs ds)

  then-Plays :
      (m k : Session (Unit {0})) (cs ds : List Command)
      → Plays m cs
      → Plays k ds
      → Plays (m >> k) (cs ++ ds)
  then-Plays m k cs ds p q log =
      let path = sent-append log cs ds in
      let all = all_succeed-append log cs ds in
      elim (Bool-cases (all_succeed log cs)) [
        | inl y ↦
            let done : m log ≡ (ok tt, sent log cs) = p log ∙ rw y refl in
            >>=-ok m (λ _. k) log done ∙ q (sent log cs) ∙ rw (path, all, y) refl
        | inr n ↦
            let failed : m log ≡ (raise smtp_error, sent log cs) = p log ∙ rw n refl in
            >>=-raise m (λ _. k) log failed ∙ rw (path, all, n) refl
      ]

  when-Plays :
      (b : Bool) (m : Session (Unit {0})) (cs : List Command)
      → Plays m cs
      → Plays (when server b m) (if b then cs else [])
  unfolding sent
  when-Plays true m cs p = p
  when-Plays false m cs p = λ log. refl

  converse-Plays :
      (cfg : MailSettings) (msg : Message)
      → Plays (converse server cfg msg) (ehlo ∷ (upgrade cfg ++ submission cfg msg))
  unfolding converse
  converse-Plays cfg msg =
      let tls =
        when-Plays (cfg.smtp_starttls && not cfg.smtp_ssl)
          (call server starttls >> call server ehlo) (starttls ∷ ehlo ∷ [])
          (then-Plays (call server starttls) (call server ehlo) (starttls ∷ []) (ehlo ∷ [])
            (call-Plays starttls) (call-Plays ehlo)) in
      let enter =
        when-Plays (is_set cfg.smtp_user) (call server (login cfg.smtp_user cfg.smtp_password))
          (login cfg.smtp_user cfg.smtp_password ∷ [])
          (call-Plays (login cfg.smtp_user cfg.smtp_password)) in
      let deliver = call-Plays (send_message cfg.email_from_name cfg.email_from msg) in
      then-Plays _ _ _ _ (call-Plays ehlo)
        (then-Plays _ _ _ _ tls (then-Plays _ _ _ _ enter deliver))

  -- What a delivery comes to, from a fresh connection.
  abbrev pub delivered : MailSettings → Message → Bool × List Command
  delivered cfg msg = (
    all_succeed [] (script cfg msg),
    sent [] (script cfg msg) ++ (if server [] (open_line cfg) then quit ∷ [] else []),
  )

  finally_quit_lem :
      (m : Session (Unit {0})) (log : List Command)
      → finally_quit server m log ≡ ((m log).0, (m log).1 ++ quit ∷ [])
  unfolding finally_quit call
  finally_quit_lem m log = refl

  smtp_send_lem :
      (cfg : MailSettings) (msg : Message)
      → smtp_send server cfg msg [] ≡ (
        if all_succeed [] (script cfg msg) then ok tt else raise smtp_error,
        (delivered cfg msg).1,
      )
  unfolding smtp_send call sent
  smtp_send_lem cfg msg =
      let line = open_line cfg in
      let rest = ehlo ∷ (upgrade cfg ++ submission cfg msg) in
      let quitting = λ (u : Unit {0}). finally_quit server (converse server cfg msg) in
      elim (Bool-cases (server [] line)) [
        | inl y ↦
            let connected : call server line [] ≡ (ok tt, line ∷ []) = rw (call, y) refl in
            >>=-ok (call server line) quitting [] connected
            ∙ finally_quit_lem (converse server cfg msg) (line ∷ [])
            ∙ ap (λ (p : Result (Unit {0}) × List Command). (p.0, p.1 ++ quit ∷ []))
                (converse-Plays cfg msg (line ∷ []))
            ∙ rw y refl
        | inr n ↦
            let refused : call server line [] ≡ (raise smtp_error, line ∷ []) = rw (call, n) refl in
            >>=-raise (call server line) quitting [] refused ∙ rw n refl
      ]

  any-sent :
      (p : Command → Bool) (log cs : List Command)
      → any p log ≡ false
      → any p cs ≡ false
      → any p (sent log cs) ≡ false
  unfolding sent
  any-sent p log [] h k = h
  any-sent p log (c ∷ cs) h k =
      let more : any p (log ++ c ∷ []) ≡ false = ground (arith, any-append p log (c ∷ [])) in
      let rest = any-sent p (log ++ c ∷ []) cs more (ground arith) in ground arith

  -- Nobody logs in before the greeting has succeeded.
  login_late :
      (cfg : MailSettings) (msg : Message)
      → all_succeed [] (open_line cfg ∷ ehlo ∷ upgrade cfg) ≡ false
      → any is_login (delivered cfg msg).1 ≡ false
  login_late cfg msg n =
      let start = open_line cfg ∷ ehlo ∷ upgrade cfg in
      let only : sent [] (script cfg msg) ≡ sent [] start =
        sent-append [] start (submission cfg msg) ∙ rw n refl in
      let bare : any is_login (upgrade cfg) ≡ false = ground arith in
      let none_said = any-sent is_login [] start refl bare in
      let last = if server [] (open_line cfg) then quit ∷ [] else [] in
      let bye : any is_login last ≡ false = ground arith in
      any-append is_login (sent [] (script cfg msg)) last
      ∙ ap (λ l. any is_login l || any is_login last) only
      ∙ rw (none_said, bye) refl

  -- A mail by SMTP, on a fresh connection and whatever the server answers: `send_email` raises
  -- nothing; the commands are those of the script in its order, up to the first that fails, and
  -- then a `quit` if the connection was made; it tells that the mail was sent exactly when every
  -- command of the script has succeeded. It never happens that a login is attempted and a command
  -- up to the TLS upgrade has failed, so no password is sent then.
  pub send_email_lem :
      (override : Option Sender) (cfg : MailSettings) (msg : Message)
      → sender override cfg ≡ smtp
      → (send_email server override cfg msg [] ≡ delivered cfg msg)
        × ((any is_login (send_email server override cfg msg []).1
              && not (all_succeed [] (open_line cfg ∷ ehlo ∷ upgrade cfg)))
            ≡ false)
  unfolding send_email
  send_email_lem override cfg msg h =
      let played = smtp_send_lem cfg msg in
      let same : send_email server override cfg msg [] ≡ delivered cfg msg =
        ap (λ s. (succeeded (send s server cfg msg []).0, (send s server cfg msg []).1)) h
        ∙ ap (λ (p : Result (Unit {0}) × List Command). (succeeded p.0, p.1)) played
        ∙ ap (λ b. (b, (delivered cfg msg).1)) (told (all_succeed [] (script cfg msg))) in
      let secured = all_succeed [] (open_line cfg ∷ ehlo ∷ upgrade cfg) in
      (
        same,
        ap (λ (p : Bool × List Command). any is_login p.1 && not secured) same
            ∙ elim (Bool-cases secured) [
              | inl y ↦ rw y (and_not (any is_login (delivered cfg msg).1))
              | inr n ↦ rw (login_late cfg msg n) refl
            ],
      )
