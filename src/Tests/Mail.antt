-- ===== src/Tests/Mail.antt =====
-- One e-mail job, and its runs with a failing and a working transport.
use Prim.Native.String
use express_core.Base.{
  ◌≤◌, zero, false, String, none, some, [], ◌∷◌, ◌++◌, ◌≡◌, refl, List, length, true,
}
use express_core.Store.{text}
use express_core.Rbac.{includes}
use express_core.Templates.{scan, render_template}
use express_core.Templates.Filled.{unfilled}
use express_core.Mail.{
  MailEnv, zeptomail, Transport, MailMessage, Letter, verification, compose, message, send_mail,
  answered,
}
use express_core.Mail.Letters.{all_variables, compose-filled}
use express_core.Mail.Jobs.{Job, Links, World, MarkerFaults, ready, letter_of}
use express_core.Mail.Jobs.Runs.{Run}
use express_core.Mail.Jobs.Delivery.{run_all, run_all-sent_once, run_all-sent}
use express_core.Tests.Templates.{one_template, one_template-TemplatesOk}

abbrev mail_env : MailEnv
mail_env = record {
  config = record {
    mail_driver = zeptomail;
    smtp_host = none;
    smtp_from = none;
    zeptomail_key = some "key";
    zeptomail_from_address = some "noreply@example.org";
  };
  app_name = "App";
  email_verification_expires_hours = 24;
  password_reset_expires_minutes = 60;
  otp_expires_minutes = 10;
}

abbrev working : Transport
working = record { arrived = false; smtp_send = λ m. none; zeptomail_fetch = λ m. answered 201 "" }

abbrev busy : Transport
busy = record { arrived = true; smtp_send = λ m. none; zeptomail_fetch = λ m. answered 503 "" }

abbrev links : Links
links = record {
  verify_link = λ t. String.◌++◌ "/verify?token=" t;
  reset_link = λ t. String.◌++◌ "/reset?token=" t;
}

abbrev job : Job
job = record {
  queue_name = "email";
  name = "sendVerificationEmail";
  id = some "outbox-1";
  payload = ("email", text "ann@example.org") ∷ ("name", text "Ann") ∷ ("token", text "aa") ∷ [];
  attempts_made = 1;
  max_attempts = some 3;
}

abbrev layout : String → String
layout body = body

abbrev fresh : World
fresh = record { db = one_template; markers = []; sent = [] }

abbrev letter : Letter
letter = verification "Ann" "/verify?token=aa"

compose-filled_example :
    (subject : String) × (body : String) × (compose layout mail_env "ann@example.org" letter
        one_template
      ≡ message "ann@example.org"
          (render_template layout subject body (all_variables mail_env letter)))
    × (unfilled (all_variables mail_env letter) (scan zero subject) ≡ [])
    × (unfilled (all_variables mail_env letter) (scan zero body) ≡ [])
compose-filled_example =
    compose-filled layout mail_env "ann@example.org" letter one_template one_template-TemplatesOk

abbrev no_faults : MarkerFaults
no_faults = record { get_error = none; set_error = none }

abbrev meets : Transport → Run
meets t = record { transport = t; db = one_template; faults = no_faults; expired = false }

-- A provider that times out and has the message all the same, then one that accepts, twice.
abbrev runs : List Run
runs = meets busy ∷ meets working ∷ meets working ∷ []

run_all-sent_once_example : length (run_all layout mail_env links job runs fresh).sent ≤ 2
run_all-sent_once_example =
    run_all-sent_once layout mail_env links job "email:sent:outbox-1" refl runs fresh

unmarked : includes fresh.markers "email:sent:outbox-1" ≡ false
unfolding includes
unmarked = refl

well_formed : letter_of mail_env links job ≡ ready letter
unfolding letter_of
well_formed = refl

accepts : (m : MailMessage) → send_mail mail_env.config working m ≡ none
unfolding send_mail
accepts m = refl

run_all-sent_example :
    1
    ≤ length
        (run_all layout mail_env links job
          ((meets busy ∷ []) ++ meets working ∷ (meets working ∷ []))
          fresh).sent
run_all-sent_example =
    run_all-sent layout mail_env links job "email:sent:outbox-1" letter (meets busy ∷ [])
      (meets working ∷ []) (meets working) fresh refl unmarked well_formed refl accepts
