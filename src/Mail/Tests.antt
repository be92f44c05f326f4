-- ===== src/Mail/Tests.antt =====
-- Examples of deliveries: a server that refuses the TLS upgrade.
use stock_quant_backend.Prelude.{◌≡◌, refl, true, false, ◌&&◌, not, none, [], ◌∷◌, any, ℕ_discrete}
use stock_quant_backend.Prelude.Text.{codes, text_dec}
use stock_quant_backend.Mail.{
  MailSettings, Message, connect, ehlo, starttls, quit, login, send_message, Server, smtp, sender,
  get_email_sender, send_email,
}
use stock_quant_backend.Mail.Delivery.{
  delivered, all_succeed, open_line, upgrade, is_login, send_email_lem,
}

abbrev cfg : MailSettings
cfg = record {
  app_base_url = codes "https://quant.example";
  email_backend = codes "smtp";
  email_from = codes "no-reply@quant.example";
  email_from_name = codes "Stock Quant";
  smtp_host = codes "mail.example";
  smtp_port = 587;
  smtp_user = codes "quant";
  smtp_password = codes "pw";
  smtp_starttls = true;
  smtp_ssl = false;
  email_verify_ttl_minutes = 1440;
  password_reset_ttl_minutes = 30;
}

abbrev message : Message
message = record {
  to = codes "a@b.example";
  subject = codes "hello";
  text_body = codes "hello";
  html_body = none;
}

abbrev plain_only : Server
plain_only log (connect s h p) = true
plain_only log ehlo = true
plain_only log starttls = false
plain_only log quit = true
plain_only log (login u p) = true
plain_only log (send_message n f m) = true

by_smtp : sender none cfg ≡ smtp
unfolding sender get_email_sender text_dec ℕ_discrete
by_smtp = refl

send_email_example :
    (send_email plain_only none cfg message [] ≡ delivered plain_only cfg message)
    × ((any is_login (send_email plain_only none cfg message []).1
          && not (all_succeed plain_only [] (open_line cfg ∷ ehlo ∷ upgrade cfg)))
        ≡ false)
send_email_example = send_email_lem plain_only none cfg message by_smtp
