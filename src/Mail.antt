-- ===== src/Mail.antt =====
-- src/email/mailer.ts and src/services/email.service.ts: one message through the configured
-- transport, and the e-mails that the service composes. nodemailer and fetch answer as passed in.
pub mod Jobs
pub mod Letters
use express_core.Roles.Permissions.{join}
use Prim.Native.String
use express_core.Base.{
  ℕ, String, Bool, true, false, not, ◌&&◌, ◌||◌, Option, none, some, List, [], ◌∷◌, ◌++◌, is_some,
  leb, ltb, ◌==◌, ◌==ₛ◌, or_else, if◌then◌else◌,
}
use express_core.Store.{Db}
use express_core.Slug.Decimal.{decimal}
use express_core.Templates.{Rendered, Variables}
use express_core.Templates.Catalog.{
  TemplateKey, verify_email, email_verified, reset_password, registration_code,
}
use express_core.Templates.Service.{render}

pub record MailMessage : Type 0 where
  pub to : String
  pub subject : String
  pub html : String

-- MailConfig, with what a send reads besides; an empty text counts as missing.
pub data MailDriver : Type 0 where
  smtp zeptomail : MailDriver

pub record MailConfig : Type 0 where
  pub mail_driver : MailDriver
  pub smtp_host : Option String
  pub smtp_from : Option String
  pub zeptomail_key : Option String
  pub zeptomail_from_address : Option String

-- A PermanentMailError, or any other error.
pub data MailError : Type 0 where
  permanent : String → MailError
  transient : String → MailError

-- What nodemailer throws.
pub record SmtpError : Type 0 where
  pub response_code : Option ℕ
  pub code : Option String
  pub message : String

-- What fetch does: it throws, or answers with a status and the first 500 characters of its text.
pub data HttpAnswer : Type 0 where
  threw : String → HttpAnswer
  answered : ℕ → String → HttpAnswer

-- The answers to one message; none is an accepted message. `arrived` says whether a message whose
-- send failed, a request that timed out for one, was accepted all the same.
pub record Transport : Type 0 where
  pub arrived : Bool
  pub smtp_send : MailMessage → Option SmtpError
  pub zeptomail_fetch : MailMessage → HttpAnswer

abbrev in_range : ℕ → ℕ → Option ℕ → Bool
in_range low high none = false
in_range low high (some n) = leb low n && ltb n high

abbrev code_is : Option String → String → Bool
code_is none t = false
code_is (some u) t = u ==ₛ t

unfoldable pub is_permanent_smtp_error : SmtpError → Bool
is_permanent_smtp_error e = in_range 500 600 e.response_code || code_is e.code "EENVELOPE"

unfoldable pub is_permanent_http_status : ℕ → Bool
is_permanent_http_status status =
    leb 400 status && (ltb status 500 && (not (status == 408) && not (status == 429)))

abbrev unset : Option String → Bool
unset none = true
unset (some t) = t ==ₛ ""

abbrev problem_if : Bool → String → List String
problem_if true t = t ∷ []
problem_if false t = []

unfoldable pub validate_mail_config : MailDriver → MailConfig → List String
validate_mail_config smtp config =
    problem_if (unset config.smtp_host) "SMTP_HOST is not set"
    ++ problem_if (unset config.smtp_from) "SMTP_FROM is not set"
validate_mail_config zeptomail config =
    problem_if (unset config.zeptomail_key) "ZEPTOMAIL_KEY is not set"
    ++ problem_if (unset config.zeptomail_from_address) "ZEPTOMAIL_FROM_ADDRESS is not set"

abbrev not_configured : List String → MailError
not_configured problems = permanent (String.◌++◌ "Mail is not configured: " (join ", " problems))

abbrev smtp_outcome : Option SmtpError → Option MailError
smtp_outcome none = none
smtp_outcome (some e) =
    if is_permanent_smtp_error e
    then some (permanent (String.◌++◌ "SMTP rejected the message: " e.message))
    else some (transient e.message)

abbrev smtp_checked : List String → Transport → MailMessage → Option MailError
smtp_checked (p ∷ ps) t message = some (not_configured (p ∷ ps))
smtp_checked [] t message = smtp_outcome (t.smtp_send message)

-- The error of a send, if any. The default configuration is that of the process.
unfoldable pub send_via_smtp : MailConfig → Transport → MailMessage → Option MailError
unfolding validate_mail_config is_permanent_smtp_error
send_via_smtp config t message =
    smtp_checked (validate_mail_config config.mail_driver config) t message

abbrev detail : ℕ → String → String
detail status body = String.◌++◌ (decimal status) (String.◌++◌ " " body)

abbrev http_outcome : HttpAnswer → Option MailError
http_outcome (threw reason) = some (transient reason)
http_outcome (answered status body) =
    if leb 200 status && ltb status 300
    then none
    else if is_permanent_http_status status
    then some (permanent (String.◌++◌ "ZeptoMail rejected the message: " (detail status body)))
    else some (transient (String.◌++◌ "ZeptoMail is unavailable: " (detail status body)))

abbrev zeptomail_checked : List String → Transport → MailMessage → Option MailError
zeptomail_checked (p ∷ ps) t message = some (not_configured (p ∷ ps))
zeptomail_checked [] t message = http_outcome (t.zeptomail_fetch message)

unfoldable pub send_via_zeptomail : MailConfig → Transport → MailMessage → Option MailError
unfolding validate_mail_config is_permanent_http_status
send_via_zeptomail config t message =
    zeptomail_checked (validate_mail_config zeptomail config) t message

abbrev driver : MailDriver → MailConfig → Transport → MailMessage → Option MailError
driver smtp = send_via_smtp
driver zeptomail = send_via_zeptomail

unfoldable pub send_mail : MailConfig → Transport → MailMessage → Option MailError
unfolding send_via_smtp send_via_zeptomail
send_mail config t message = driver config.mail_driver config t message

-- A transport that is not configured gets no message.
abbrev pub reaches : MailConfig → Transport → Bool
reaches config t = elim (validate_mail_config config.mail_driver config) [
  | [] ↦ t.arrived
  | p ∷ ps ↦ false
]

-- The calls of the e-mail service.
pub data Letter : Type 0 where
  verification : String → String → Letter
  reset : String → String → Letter
  verification_success : String → Letter
  code : String → ℕ → Letter

-- The environment of the e-mail service and of the job processor.
pub record MailEnv : Type 0 where
  pub config : MailConfig
  pub app_name : String
  pub email_verification_expires_hours : ℕ
  pub password_reset_expires_minutes : ℕ
  pub otp_expires_minutes : ℕ

unfoldable pub letter_key : Letter → TemplateKey
letter_key (verification name link) = verify_email
letter_key (reset name link) = reset_password
letter_key (verification_success name) = email_verified
letter_key (code digits minutes) = registration_code

unfoldable pub letter_variables : MailEnv → Letter → Variables
letter_variables e (verification name link) =
    ("name", name)
    ∷ ("link", link)
    ∷ ("expires_hours", decimal e.email_verification_expires_hours)
    ∷ []
letter_variables e (reset name link) =
    ("name", name)
    ∷ ("link", link)
    ∷ ("expires_minutes", decimal e.password_reset_expires_minutes)
    ∷ []
letter_variables e (verification_success name) = ("name", name) ∷ []
letter_variables e (code digits minutes) =
    ("code", digits) ∷ ("expires_minutes", decimal minutes) ∷ []

abbrev pub message : String → Rendered → MailMessage
message to r = record { to = to; subject = r.subject; html = r.html }

-- The message that a call of the service sends.
unfoldable pub compose : (String → String) → MailEnv → String → Letter → Db → MailMessage
unfolding letter_key letter_variables
compose layout e to letter s =
    message to (render layout e.app_name (letter_key letter) (letter_variables e letter) s)
