-- ===== src/Templates/Catalog.antt =====
-- src/modules/email-template/email-template.catalog.ts: the editable e-mails with their built-in
-- texts, and the problems that an edit may have.
use Prim.Native.String
use express_core.Base.{String, Option, none, some, List, [], ◌∷◌, ◌++◌, ◌==ₛ◌, if◌then◌else◌, zero}
use express_core.Rbac.{includes}
use express_core.Templates.{Piece, plain, placeholder, scan}

pub data TemplateKey : Type 0 where
  verify_email email_verified reset_password registration_code : TemplateKey

unfoldable pub key_name : TemplateKey → String
key_name verify_email = "verify-email"
key_name email_verified = "email-verified"
key_name reset_password = "reset-password"
key_name registration_code = "registration-code"

-- isTemplateKey, with the key that it recognises.
unfoldable pub template_key : String → Option TemplateKey
template_key key =
    if key ==ₛ "verify-email"
    then some verify_email
    else if key ==ₛ "email-verified"
    then some email_verified
    else if key ==ₛ "reset-password"
    then some reset_password
    else if key ==ₛ "registration-code"
    then some registration_code
    else none

infixr 65 ◌+ₛ◌
abbrev ◌+ₛ◌ : String → String → String
s +ₛ t = String.◌++◌ s t

abbrev button : String
button =
    "display:inline-block;background:#4f46e5;color:#ffffff;text-decoration:none;padding:14px 28px;border-radius:6px;font-size:15px;font-weight:bold;"

abbrev greeting : String
greeting = "color:#374151;font-size:16px;"

abbrev plain_text : String
plain_text = "color:#6b7280;font-size:15px;line-height:1.6;"

abbrev note : String
note = "color:#9ca3af;font-size:13px;"

abbrev quote : String
quote = "\""

abbrev para : String → String → String
para style content = "<p style=" +ₛ quote +ₛ style +ₛ quote +ₛ ">" +ₛ content +ₛ "</p>"

abbrev button_div : String → String
button_div label =
    "<div style=" +ₛ quote +ₛ "margin:32px 0;" +ₛ quote +ₛ "><a href=" +ₛ quote +ₛ "{{link}}"
    +ₛ quote +ₛ " style=" +ₛ quote +ₛ button +ₛ quote +ₛ ">" +ₛ label +ₛ "</a></div>"

pub record TemplateDefinition : Type 0 where
  pub title : String
  pub subject : String
  pub body : String
  pub variables : List String
  pub required : List String

-- EMAIL_TEMPLATE_CATALOG
unfoldable pub catalog : TemplateKey → TemplateDefinition
catalog verify_email = record {
  title = "Email verification link";
  subject = "Verify Your Email Address";
  body =
      para greeting "Hello, <strong>{{name}}</strong>!"
      +ₛ "\n"
      +ₛ para plain_text
          "Thank you for registering. Click the button below to verify your email address and activate your account."
      +ₛ "\n"
      +ₛ button_div "Verify Email"
      +ₛ "\n"
      +ₛ para note
          "This link is valid for <strong>{{expires_hours}} hours</strong>.<br />If you did not register at {{app_name}}, please ignore this email.";
  variables = "name" ∷ "link" ∷ "expires_hours" ∷ [];
  required = "link" ∷ [];
}
catalog email_verified = record {
  title = "Email verified notice";
  subject = "Email Verified Successfully";
  body =
      para greeting "Hello, <strong>{{name}}</strong>!"
      +ₛ "\n"
      +ₛ para plain_text
          "Your email address has been successfully verified. You can now log in to your account and start using our services."
      +ₛ "\n"
      +ₛ para note
          "If you did not perform this action, please contact our support team immediately.";
  variables = "name" ∷ [];
  required = [];
}
catalog reset_password = record {
  title = "Password reset link";
  subject = "Reset Your Password";
  body =
      para greeting "Hello, <strong>{{name}}</strong>!"
      +ₛ "\n"
      +ₛ para plain_text
          "We received a request to reset your account password. Click the button below to create a new password."
      +ₛ "\n"
      +ₛ button_div "Reset Password"
      +ₛ "\n"
      +ₛ para note
          "This link is valid for <strong>{{expires_minutes}} minutes</strong>.<br />If you did not request a password reset, please ignore this email. Your account remains safe.";
  variables = "name" ∷ "link" ∷ "expires_minutes" ∷ [];
  required = "link" ∷ [];
}
catalog registration_code = record {
  title = "Registration code";
  subject = "Your Verification Code";
  body =
      para greeting "Hello!"
      +ₛ "\n"
      +ₛ para plain_text
          "Use the verification code below to confirm your email address and continue your registration."
      +ₛ "\n"
      +ₛ "<div style="
      +ₛ quote
      +ₛ "margin:32px 0;text-align:center;"
      +ₛ quote
      +ₛ "><span style="
      +ₛ quote
      +ₛ "display:inline-block;background:#f4f4f5;color:#111827;padding:16px 32px;border-radius:6px;font-size:32px;font-weight:bold;letter-spacing:8px;font-family:'Courier New',Courier,monospace;"
      +ₛ quote
      +ₛ ">{{code}}</span></div>"
      +ₛ "\n"
      +ₛ para note
          "This code is valid for <strong>{{expires_minutes}} minutes</strong>.<br />If you did not request this code at {{app_name}}, please ignore this email.";
  variables = "code" ∷ "expires_minutes" ∷ [];
  required = "code" ∷ [];
}

-- The names of GLOBAL_TEMPLATE_VARIABLES.
abbrev pub global_variables : List String
global_variables = "app_name" ∷ []

unfoldable pub names_in : List Piece → List String
names_in [] = []
names_in (plain c ∷ rest) = names_in rest
names_in (placeholder raw name ∷ rest) = name ∷ names_in rest

-- Each name once, where it stands first.
unfoldable pub without : String → List String → List String
without x [] = []
without x (y ∷ ys) = let rest = without x ys in if y ==ₛ x then rest else y ∷ rest

unfoldable pub once : List String → List String
unfolding without
once [] = []
once (x ∷ xs) = x ∷ without x (once xs)

unfoldable pub placeholders_in : String → List String
unfolding scan names_in once
placeholders_in template_text = once (names_in (scan zero template_text))

pub record Problem : Type 0 where
  pub field : String
  pub message : String

unfoldable pub unknown_variables : List String → String → List String → List Problem
unknown_variables allowed field [] = []
unknown_variables allowed field (name ∷ rest) =
    let more = unknown_variables allowed field rest in
    if includes allowed name
    then more
    else record { field = field; message = "Unknown variable {{" +ₛ name +ₛ "}}" } ∷ more

unfoldable pub missing_variables : List String → List String → List Problem
missing_variables present [] = []
missing_variables present (name ∷ rest) =
    let more = missing_variables present rest in
    if includes present name
    then more
    else record { field = "body"; message = "Body must contain {{" +ₛ name +ₛ "}}" } ∷ more

abbrev pub allowed_variables : TemplateKey → List String
allowed_variables key = (catalog key).variables ++ global_variables

unfoldable pub template_problems : TemplateKey → String → String → List Problem
unfolding placeholders_in unknown_variables missing_variables catalog
template_problems key subject body =
    unknown_variables (allowed_variables key) "subject" (placeholders_in subject)
    ++ (unknown_variables (allowed_variables key) "body" (placeholders_in body)
        ++ missing_variables (placeholders_in body) (catalog key).required)
