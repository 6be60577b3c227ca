-- ===== src/Mail/Jobs.antt =====
-- src/jobs/workers/email.processor.ts, and `isFinalFailure` and `recordDeadLetter` of
-- src/jobs/workers/worker-logging.ts. The link builders, which use URL and URLSearchParams, are
-- passed in, and so is what Redis does.
pub mod Runs
pub mod Delivery
use Prim.Native.String
use express_core.Base.{
  ℕ, ◌+◌, String, Bool, true, false, not, ◌||◌, Option, none, some, List, [], ◌∷◌, is_some, leb,
  ◌==ₛ◌, or_else, if◌then◌else◌,
}
use express_core.Store.{Scalar, text, number, Payload, DeadLetterJob, Db}
use express_core.DeadLetter.{field, as_text}
use express_core.Rbac.{includes}
use express_core.Mail.{
  MailEnv, MailMessage, MailError, permanent, transient, Transport, Letter, verification, reset,
  verification_success, code, compose, send_mail, reaches,
}

pub record Job : Type 0 where
  pub queue_name : String
  pub name : String
  pub id : Option String
  pub payload : Payload
  pub attempts_made : ℕ
  pub max_attempts : Option ℕ

-- An UnrecoverableError, or any other error.
pub data JobError : Type 0 where
  unrecoverable : String → JobError
  retryable : String → JobError

-- appUrl('/api/v1/auth/verify-email', { token }) and withQuery(PASSWORD_RESET_URL, { token })
pub record Links : Type 0 where
  pub verify_link : String → String
  pub reset_link : String → String

-- The errors of the reading and of the writing of the sent marker.
pub record MarkerFaults : Type 0 where
  pub get_error : Option String
  pub set_error : Option String

-- `sent` lists the messages that the transport accepted, the latest first.
pub record World : Type 0 where
  pub db : Db
  pub markers : List String
  pub sent : List MailMessage

abbrev text_or : Option String → String → String
text_or none d = d
text_or (some t) d = t

abbrev as_number : Option Scalar → Option ℕ
as_number (some (number n)) = some n
as_number _ = none

abbrev given_text : Option String → Option String
given_text none = none
given_text (some t) = if t ==ₛ "" then none else some t

abbrev data_text : String → Job → Option String
data_text key job = as_text (field key job.payload)

abbrev missing : String → Job → String
missing key job = String.◌++◌ "Missing " (
    String.◌++◌ key (
      String.◌++◌ " for "
        (String.◌++◌ job.name (String.◌++◌ " job " (text_or job.id "undefined")))))

-- What the switch over the names does before it sends.
pub data Prepared : Type 0 where
  ready : Letter → Prepared
  refused : JobError → Prepared

abbrev with_value : Option String → String → Job → (String → Letter) → Prepared
with_value none key job letter = refused (unrecoverable (missing key job))
with_value (some v) key job letter = ready (letter v)

abbrev pub address : Job → String
address job = text_or (data_text "email" job) ""

abbrev recipient : Job → String
recipient job = text_or (data_text "name" job) ""

-- The letter of a job by its name, or the error of a job that can never succeed.
unfoldable pub letter_of : MailEnv → Links → Job → Prepared
unfolding field
letter_of e links job =
    if job.name ==ₛ "sendVerificationEmail"
    then with_value (given_text (data_text "token" job)) "token" job
        (λ token. verification (recipient job) (links.verify_link token))
    else if job.name ==ₛ "sendResetPasswordEmail"
    then with_value (given_text (data_text "token" job)) "token" job
        (λ token. reset (recipient job) (links.reset_link token))
    else if job.name ==ₛ "sendVerificationSuccessEmail"
    then ready (verification_success (recipient job))
    else if job.name ==ₛ "sendOtpEmail"
    then with_value (given_text (data_text "code" job)) "code" job (λ digits.
      code digits (or_else (as_number (field "expiresMinutes" job.payload)) e.otp_expires_minutes))
    else refused (unrecoverable (String.◌++◌ "Unknown job name: " job.name))

-- A permanent mail error will not be retried.
abbrev pub job_error : MailError → JobError
job_error (permanent reason) = unrecoverable reason
job_error (transient reason) = retryable reason

abbrev pub send_letter : MailMessage → Bool → Option MailError → World → Option JobError × World
send_letter m arrived none w = (none, record w { sent = m ∷ w.sent })
send_letter m true (some x) w = (some (job_error x), record w { sent = m ∷ w.sent })
send_letter m false (some x) w = (some (job_error x), w)

unfoldable pub dispatch :
    (String → String) → MailEnv → Links → Transport → Job → World → Option JobError × World
unfolding letter_of
dispatch layout e links t job w = elim (letter_of e links job) [
  | refused x ↦ (some x, w)
  | ready letter ↦
      let m = compose layout e (address job) letter w.db in
      send_letter m (reaches e.config t) (send_mail e.config t m) w
]

-- `email:sent:${job.id}`: an empty id has no marker.
abbrev pub marker_of : Option String → Option String
marker_of none = none
marker_of (some id) = if id ==ₛ "" then none else some (String.◌++◌ "email:sent:" id)

-- The marker is written after a send; when that fails, the run fails and is retried.
abbrev pub mark : MarkerFaults → String → Option JobError × World → Option JobError × World
mark faults marker (some x, w) = (some x, w)
mark faults marker (none, w) = elim faults.set_error [
  | none ↦ (none, record w { markers = marker ∷ w.markers })
  | some reason ↦ (some (retryable reason), w)
]

-- A run under its marker.
unfoldable pub process_marked :
    (String → String)
    → MailEnv
    → Links
    → Transport
    → MarkerFaults
    → Job
    → World
    → Option String
    → Option JobError × World
process_marked layout e links t faults job w none = dispatch layout e links t job w
process_marked layout e links t faults job w (some marker) = elim faults.get_error [
  | some reason ↦ (some (retryable reason), w)
  | none ↦
      if includes w.markers marker
      then (none, w)
      else mark faults marker (dispatch layout e links t job w)
]

-- The error of the run, if any.
unfoldable pub process_email_job :
    (String → String)
    → MailEnv
    → Links
    → Transport
    → MarkerFaults
    → Job
    → World
    → Option JobError × World
unfolding dispatch process_marked
process_email_job layout e links t faults job w =
    process_marked layout e links t faults job w (marker_of job.id)

abbrev pub is_unrecoverable : JobError → Bool
is_unrecoverable (unrecoverable reason) = true
is_unrecoverable (retryable reason) = false

abbrev pub reason_of : JobError → String
reason_of (unrecoverable reason) = reason
reason_of (retryable reason) = reason

unfoldable pub is_final_failure : Job → JobError → Bool
is_final_failure job x = is_unrecoverable x || leb (or_else job.max_attempts 1) job.attempts_made

unfoldable pub record_dead_letter : Job → JobError → ℕ → Db → Db
record_dead_letter job x now s = record s {
  dead_letter_jobs =
      (record {
        id = s.next_dead_letter_id;
        queue_name = job.queue_name;
        job_name = job.name;
        job_id = job.id;
        payload = job.payload;
        failed_reason = reason_of x;
        attempts_made = job.attempts_made;
        created_at = now;
        redriven_at = none;
        redriven_by = none;
        redrive_outbox_id = none;
      })
      ∷ s.dead_letter_jobs;
  next_dead_letter_id = s.next_dead_letter_id + 1;
}

-- The handler of the `failed` event.
unfoldable pub on_failed : Job → JobError → ℕ → Db → Db
unfolding is_final_failure record_dead_letter
on_failed job x now s = if is_final_failure job x then record_dead_letter job x now s else s
