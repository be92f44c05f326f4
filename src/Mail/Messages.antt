-- ===== src/Mail/Messages.antt =====
-- The two messages (app/email.py): subject, text and HTML. `str` is Python's on a whole number.
use stock_quant_backend.Prelude.{
  ℕ, ◌/◌, max, Option, none, some, List, [], ◌∷◌, ◌++◌, if◌then◌else◌,
}
use stock_quant_backend.Prelude.Text.{Text, codes, strip}
use stock_quant_backend.RateLimit.Client.{is_blank}
use stock_quant_backend.Mail.{MailSettings, without_slashes}

-- `"".join(…)`
unfoldable pub concat : List Text → Text
concat [] = []
concat (s ∷ ss) = s ++ concat ss

-- The paragraphs of the body.
unfoldable pub paragraphs_of : List Text → Text
paragraphs_of [] = []
paragraphs_of (p ∷ ps) =
    concat (codes "<p style='margin:0 0 12px'>" ∷ p ∷ codes "</p>" ∷ []) ++ paragraphs_of ps

-- The heading, the paragraphs, the button's label and the link.
unfoldable pub html_wrap : Text → List Text → Text → Text → Text
html_wrap heading paragraphs button_label link = concat (
    codes "<div style=\"font-family:system-ui,-apple-system,'Segoe UI',sans-serif;"
    ∷ codes "font-size:15px;line-height:1.6;color:#1f2937;max-width:520px\">"
    ∷ codes "<h2 style='margin:0 0 16px;font-size:19px'>"
    ∷ heading
    ∷ codes "</h2>"
    ∷ paragraphs_of paragraphs
    ∷ codes "<p style='margin:24px 0'><a href='"
    ∷ link
    ∷ codes "' "
    ∷ codes "style=\"display:inline-block;background:#2563eb;color:#fff;"
    ∷ codes "padding:10px 20px;border-radius:6px;text-decoration:none\">"
    ∷ button_label
    ∷ codes "</a></p>"
    ∷ codes "<p style='margin:0 0 12px;color:#6b7280;font-size:13px'>"
    ∷ codes "若按鈕無法點擊，請複製以下連結到瀏覽器開啟：<br>"
    ∷ codes "<span style='word-break:break-all'>"
    ∷ link
    ∷ codes "</span></p>"
    ∷ codes "</div>"
    ∷ [])

-- `(display_name or "").strip() or "你好"`
abbrev pub or_hello : Text → Text
or_hello name = if is_blank name then codes "你好" else name

unfoldable pub who : Option Text → Text
who none = codes "你好"
who (some name) = or_hello (strip name)

-- What a message call returns.
pub record Rendered : Type 0 where
  pub subject : Text
  pub text_body : Text
  pub html_body : Text

module _ (str : ℕ → Text) where
  unfoldable pub verify_email_message : MailSettings → Text → Option Text → Rendered
  verify_email_message cfg token display_name =
      let link = without_slashes cfg.app_base_url ++ codes "/?verify=" ++ token in
      let hours = str (max 1 (cfg.email_verify_ttl_minutes / 60)) in
      let name = who display_name in
      record {
        subject = codes "請驗證你的信箱 — Stock Quant";
        text_body = concat (
            name
            ∷ codes "，\n\n"
            ∷ codes "感謝註冊 Stock Quant。請點擊以下連結驗證你的信箱：\n\n"
            ∷ link
            ∷ codes "\n\n"
            ∷ codes "這個連結在 "
            ∷ hours
            ∷ codes " 小時後失效。\n"
            ∷ codes "如果你沒有註冊過這個服務，請直接忽略這封信。\n"
            ∷ []);
        html_body =
            html_wrap (codes "請驗證你的信箱")
              (concat (name ∷ codes "，感謝註冊 Stock Quant。" ∷ [])
                ∷ concat (codes "請點擊下方按鈕完成信箱驗證。這個連結在 " ∷ hours ∷ codes " 小時後失效。" ∷ [])
                ∷ codes "如果你沒有註冊過這個服務，請直接忽略這封信。"
                ∷ [])
              (codes "驗證信箱") link;
      }

  unfoldable pub password_reset_message : MailSettings → Text → Option Text → Rendered
  password_reset_message cfg token display_name =
      let link = without_slashes cfg.app_base_url ++ codes "/?reset=" ++ token in
      let minutes = str cfg.password_reset_ttl_minutes in
      let name = who display_name in
      record {
        subject = codes "重設你的密碼 — Stock Quant";
        text_body = concat (
            name
            ∷ codes "，\n\n"
            ∷ codes "我們收到了重設 Stock Quant 密碼的請求。請點擊以下連結設定新密碼：\n\n"
            ∷ link
            ∷ codes "\n\n"
            ∷ codes "這個連結在 "
            ∷ minutes
            ∷ codes " 分鐘後失效，且只能使用一次。\n"
            ∷ codes "如果不是你本人操作，請忽略這封信——你的密碼不會有任何變動。\n"
            ∷ []);
        html_body =
            html_wrap (codes "重設你的密碼")
              (concat (name ∷ codes "，我們收到了重設 Stock Quant 密碼的請求。" ∷ [])
                ∷ concat (codes "請點擊下方按鈕設定新密碼。連結在 " ∷ minutes ∷ codes " 分鐘後失效，且只能使用一次。" ∷ [])
                ∷ codes "如果不是你本人操作，請忽略這封信——你的密碼不會有任何變動。"
                ∷ [])
              (codes "設定新密碼") link;
      }
