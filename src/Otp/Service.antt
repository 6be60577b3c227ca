-- ===== src/Otp/Service.antt =====
-- src/modules/otp/otp.service.ts. `now` is the process clock and `db_now` the database clock at
-- the time of the call; the code and the row id are drawn by the caller.
pub mod Laws
pub mod Attempts
pub mod Sending
use express_core.Otp.Code.{hash_otp_code, registration_ticket, normalize_email}
use express_core.Base.{
  ℕ, String, Bool, true, false, ◌&&◌, not, Option, none, some, [], ◌∷◌, is_some, ltb, leb, ◌==ₛ◌,
  find_first, if◌then◌else◌,
}
use express_core.Store.{text, number, Payload, Db}
use express_core.Store.Exec.{
  Tx, Exec, Error, app, Result, ok, err, pure, throw, transaction, ◌>>=◌, ◌>>◌,
}
use express_core.Config.{Env}
use express_core.Crypto.{Crypto}
use express_core.Accounts.{find_user_by_email_insensitive}
use express_core.Outbox.{enqueue}
use express_core.Otp.{
  has_email, issue, ReservedAttempt, reserve_attempt, mark_verified, Consumed, consume,
}

abbrev pub invalid_or_expired : Error
invalid_or_expired = app "Invalid or expired code" 400

abbrev pub too_many_attempts : Error
too_many_attempts = app "Too many attempts. Please request a new code" 429

module _ (c : Crypto) (e : Env) where
  unfoldable pub code_payload : String → String → Payload
  code_payload email code =
      ("email", text email)
      ∷ ("code", text code)
      ∷ ("expiresMinutes", number e.otp_expires_minutes)
      ∷ []

  -- The transaction of sendCode.
  unfoldable pub issue_code : String → String → String → ℕ → Tx Bool
  issue_code id email code db_now = do
    fresh ←
        issue id email (hash_otp_code c email code) e.otp_expires_minutes
          e.otp_resend_cooldown_seconds db_now
    if fresh
        then (do enqueue db_now "email" "sendOtpEmail" (code_payload email code); pure true)
        else pure false

  abbrev answer_issue : Result Bool × Db → Result (Unit {0}) × Db
  answer_issue (ok true, s) = (ok tt, s)
  answer_issue (ok false, s) = (err (app "Please wait before requesting a new code" 429), s)
  answer_issue (err x, s) = (err x, s)

  unfoldable pub send_code : String → String → String → ℕ → Exec (Unit {0})
  send_code id raw_email code db_now s =
      let email = normalize_email c raw_email in
      let result = transaction (issue_code id email code db_now) s in
      if is_some (find_user_by_email_insensitive c email s)
      then (err (app "Email already registered" 409), s)
      else answer_issue result

  -- Why no attempt could be reserved.
  unfoldable pub refused_attempt : String → ℕ → Db → Error
  refused_attempt email now s = elim (find_first (has_email email) s.email_otps) [
    | none ↦ invalid_or_expired
    | some r ↦
        if not (is_some r.consumed_at)
          && (ltb now r.expires_at && leb e.otp_max_attempts r.attempts)
        then too_many_attempts
        else invalid_or_expired
  ]

  abbrev ticket_of : String → Option ℕ → Result String
  ticket_of id none = err invalid_or_expired
  ticket_of id (some at) = ok (registration_ticket c id at)

  abbrev run {ℓ} : {A : Type 0} {B : Type ℓ} → Result (A × Db) → (Error → B) → (A → Db → B) → B
  run (ok r) failed k = k r.0 r.1
  run (err x) failed k = failed x

  -- `attempt.verifiedAt ?? await markVerified(attempt.id)`, and the ticket.
  unfoldable pub confirm : ReservedAttempt → Option ℕ → ℕ → Exec String
  confirm attempt (some at) now s = (ticket_of attempt.id (some at), s)
  confirm attempt none now s =
      run (mark_verified attempt.id now s) (λ x. (err x, s))
        (λ at s'. (ticket_of attempt.id at, s'))

  unfoldable pub check_attempt : String → String → ℕ → Option ReservedAttempt → Exec String
  check_attempt email code now none s = (err (refused_attempt email now s), s)
  check_attempt email code now (some attempt) s =
      if hash_otp_code c email code ==ₛ attempt.code_hash
      then confirm attempt attempt.verified_at now s
      else (err (app "Invalid code" 400), s)

  unfoldable pub verify_code : String → String → ℕ → ℕ → Exec String
  verify_code raw_email code db_now now s =
      let email = normalize_email c raw_email in
      run (reserve_attempt email e.otp_max_attempts db_now s) (λ x. (err x, s))
        (λ attempt s'. check_attempt email code now attempt s')

  abbrev not_verified : Error
  not_verified = app "Email not verified. Request and verify a code before registering." 400

  abbrev check_ticket : String → Option Consumed → Tx (Unit {0})
  check_ticket ticket none = throw not_verified
  check_ticket ticket (some k) =
      if ticket ==ₛ registration_ticket c k.id k.verified_at then pure tt else throw not_verified

  -- A missing or empty ticket consumes nothing.
  unfoldable pub consume_for_registration : String → Option String → ℕ → Tx (Unit {0})
  consume_for_registration raw_email none db_now = throw not_verified
  consume_for_registration raw_email (some ticket) db_now =
      if ticket ==ₛ "" then throw not_verified else (do
        consumed ← consume (normalize_email c raw_email) e.otp_verified_window_minutes db_now
        check_ticket ticket consumed)
