-- ===== src/Tests/Codes.antt =====
-- A code and a reset token of one address.
use express_core.Base.RowLaws.{Unique}
use express_core.Otp.Laws.{row_of}
use express_core.Otp.Service.{verify_code, consume_for_registration}
use express_core.Otp.Service.Laws.{verify-consume_once}
use express_core.Otp.Service.Attempts.{verify_all, verify_all-limited, attempts_of}
use express_core.Auth.Verification.{reset_password}
use express_core.Auth.Verification.Laws.{reset_row, reset_once}
use express_core.Auth.Tokens.{of_user}
use express_core.DeadLetter.{token_of, replay_guard, field}
use express_core.DeadLetter.Laws.{reset-refuses_replay}
use express_core.Store.{text, number, pending, User}
use express_core.Accounts.{find_user_by_email_insensitive}
use express_core.Otp.Service.{send_code}
use express_core.Otp.Service.Sending.{send_code-cooldown, send_code-replaces}
use express_core.Base.{
  [], ◌∷◌, refl, none, find_first, List, String, ℕ, ◌==◌, ◌≡◌, some, arith, ◌+◌, count_where, ◌≤◌,
  max, is_some, false, ap,
}
use express_core.Config.{default_env}
use express_core.Store.{EmailOtp, PasswordResetToken, Db, User}
use express_core.Store.Exec.{ok, err, app, Result}
use express_core.Tests.{open_crypto, ann, one_session}

abbrev code_row : EmailOtp
code_row = record {
  id = "o1";
  email = "bo@example.org";
  code_hash = "bo@example.org\n123456";
  attempts = 3;
  sent_at = 100;
  expires_at = 600100;
  verified_at = none;
  consumed_at = none;
}

abbrev coded : Db
coded = record one_session { email_otps = code_row ∷ [] }

found_code : row_of "bo@example.org" coded ≡ some code_row
unfolding find_first
found_code = refl

Unique-code : Unique (λ (x : EmailOtp). x.id) coded.email_otps
unfolding find_first
Unique-code = (refl, tt)

verify-consume_once_example :
    (s₁ : Db) × (s₂ : Db) × (verify_code open_crypto default_env "bo@example.org" "123456" 200 200
        coded
      ≡ (ok "o1\nZ", s₁))
    × (consume_for_registration open_crypto default_env "bo@example.org" (some "o1\nZ") 300 s₁
        ≡ ok (tt, s₂))
    × ((ticket : String) (later : ℕ)
        → consume_for_registration open_crypto default_env "bo@example.org" (some ticket) later s₂
          ≡ err (app "Email not verified. Request and verify a code before registering." 400))
verify-consume_once_example =
    verify-consume_once open_crypto default_env "bo@example.org" "123456" 200 200 coded code_row
      Unique-code found_code refl refl refl refl 300 (omega arith)

-- Three guesses at a code that has two attempts left.
abbrev guesses : List (String × (ℕ × ℕ))
guesses = ("111111", (200, 200)) ∷ ("222222", (210, 210)) ∷ ("123456", (220, 220)) ∷ []

verify_all-limited_example :
    (verify_all open_crypto default_env "bo@example.org" guesses coded).0
      + attempts_of (row_of "bo@example.org" coded)
    ≤ max 5 (attempts_of (row_of "bo@example.org" coded))
verify_all-limited_example =
    verify_all-limited open_crypto default_env "bo@example.org" guesses coded

abbrev reset_row_of_ann : PasswordResetToken
reset_row_of_ann = record { token = "rr"; user_id = 7; expires_at = 9000; used_at = none }

abbrev resettable : Db
resettable = record one_session { reset_tokens = reset_row_of_ann ∷ [] }

found_reset : reset_row "rr" resettable ≡ some reset_row_of_ann
unfolding find_first
found_reset = refl

found_ann : find_first (λ (u : User). u.id == 7) resettable.users ≡ some ann
unfolding find_first
found_ann = refl

reset_once_example :
    (s' : Db) × (reset_password open_crypto default_env "rr" "new" 1000 resettable ≡ (ok tt, s'))
    × (count_where (of_user 7) s'.refresh_tokens ≡ 0)
    × (reset_password open_crypto default_env "rr" "newer" 2000 s'
        ≡ (err (app "Token already used" 400), s'))
reset_once_example =
    reset_once open_crypto default_env "rr" "new" "newer" 1000 2000 resettable reset_row_of_ann ann
      found_reset (omega arith) (omega arith) refl found_ann

named : token_of (("token", text "rr") ∷ []) ≡ some "rr"
unfolding token_of field
named = refl

reset-refuses_replay_example :
    replay_guard open_crypto 3000 "sendResetPasswordEmail"
      (("token", text "rr") ∷ [])
      (reset_password open_crypto default_env "rr" "new" 1000 resettable).1
    ≡ some "the password-reset token was already used"
reset-refuses_replay_example =
    reset-refuses_replay open_crypto default_env "rr" "new" 1000 3000 resettable reset_row_of_ann
      ann (("token", text "rr") ∷ []) found_reset (omega arith) refl found_ann named

unregistered : is_some (find_user_by_email_insensitive open_crypto "bo@example.org" coded) ≡ false
unfolding find_user_by_email_insensitive find_first
unregistered = refl

-- A code that is sent, and another one while the cooldown lasts.
abbrev resent : Db
resent = (send_code open_crypto default_env "o2" "bo@example.org" "777777" 70000 coded).1

sent_again :
    send_code open_crypto default_env "o2" "bo@example.org" "777777" 70000 coded ≡ (ok tt, resent)
sent_again = ap (λ (r : Result (Unit {0})). (r, resent)) answered
  where
    answered :
        (send_code open_crypto default_env "o2" "bo@example.org" "777777" 70000 coded).0 ≡ ok tt
    answered =
        let sent =
          send_code-replaces open_crypto default_env "o2" "bo@example.org" "777777" 70000 coded
            code_row 71000 71000 unregistered Unique-code found_code (omega arith) (omega arith)
            (omega arith) in
        ap (λ (r : Result (Unit {0}) × Db). r.0) sent.1

send_code-cooldown_example :
    send_code open_crypto default_env "o3" "bo@example.org" "888888" 80000 resent
    ≡ (err (app "Please wait before requesting a new code" 429), resent)
send_code-cooldown_example =
    send_code-cooldown open_crypto default_env "o2" "bo@example.org" "777777" 70000 coded "o3"
      "bo@example.org" "888888" 80000 resent sent_again refl (omega arith)

send_code-replaces_example :
    (s' : Db) × (send_code open_crypto default_env "o2" "bo@example.org" "777777" 70000 coded
      ≡ (ok tt, s'))
    × (row_of "bo@example.org" s'
        ≡ some (record {
          id = "o1";
          email = "bo@example.org";
          code_hash = "bo@example.org\n777777";
          attempts = 0;
          sent_at = 70000;
          expires_at = 670000;
          verified_at = none;
          consumed_at = none;
        }))
    × (s'.outbox
        ≡ (record {
          id = 1;
          queue_name = "email";
          job_name = "sendOtpEmail";
          payload =
              ("email", text "bo@example.org")
              ∷ ("code", text "777777")
              ∷ ("expiresMinutes", number 10)
              ∷ [];
          status = pending;
          attempts = 0;
          available_at = 70000;
          published_at = none;
          last_error = none;
        })
          ∷ [])
    × ((verify_code open_crypto default_env "bo@example.org" "777777" 71000 71000 s').0
        ≡ ok "o1\nZ")
send_code-replaces_example =
    send_code-replaces open_crypto default_env "o2" "bo@example.org" "777777" 70000 coded code_row
      71000 71000 unregistered Unique-code found_code (omega arith) (omega arith) (omega arith)
