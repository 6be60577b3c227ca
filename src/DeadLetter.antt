-- ===== src/DeadLetter.antt =====
-- src/modules/dead-letter: the store of jobs that failed for good, and their one re-drive.
pub mod Laws
use express_core.Otp.Code.{hash_otp_code}
use Prim.Native.String
use express_core.Base.{
  ℕ, String, Bool, ◌&&◌, not, Option, none, some, [], ◌∷◌, is_some, leb, ◌==◌, ◌==ₛ◌, find_first,
  update_where, count_where, if◌then◌else◌,
}
use express_core.Store.{
  Scalar, text, Payload, DeadLetterJob, EmailVerificationToken, PasswordResetToken, EmailOtp, Db,
}
use express_core.Store.Exec.{Tx, Exec, Error, other, ok, pure, throw, gets, transaction, ◌>>=◌}
use express_core.Crypto.{Crypto}
use express_core.Slug.Decimal.{decimal}
use express_core.Outbox.{enqueue}
use express_core.Relay.{is_routable}

-- A property of the payload object; none stands for undefined.
unfoldable pub field : String → Payload → Option Scalar
field key [] = none
field key ((k, v) ∷ rest) = if k ==ₛ key then some v else field key rest

abbrev pub as_text : Option Scalar → Option String
as_text (some (text t)) = some t
as_text _ = none

-- A non-empty string `token`.
unfoldable pub token_of : Payload → Option String
token_of payload = elim (as_text (field "token" payload)) [
  | none ↦ none
  | some t ↦ if t ==ₛ "" then none else some t
]

abbrev pub bind_option {ℓ κ} : {A : Type ℓ} {B : Type κ} → Option A → (A → Option B) → Option B
bind_option none k = none
bind_option (some a) k = k a

pub record RedriveResult : Type 0 where
  pub dead_letter_id : ℕ
  pub outbox_id : ℕ
  pub queue_name : String
  pub job_name : String

abbrev pub is_undriven : ℕ → DeadLetterJob → Bool
is_undriven id r = (r.id == id) && not (is_some r.redriven_at)

abbrev pub stamp : ℕ → Option String → ℕ → DeadLetterJob → DeadLetterJob
stamp now by outbox_id r = record r {
  redriven_at = some now;
  redriven_by = by;
  redrive_outbox_id = some outbox_id;
}

abbrev pub about : String → ℕ → String → Error
about before id after = other (String.◌++◌ before (String.◌++◌ (decimal id) after))

abbrev pub id_text : Option ℕ → String
id_text none = "null"
id_text (some id) = decimal id

-- The message names the time and the outbox row of the first re-drive.
abbrev pub already_redriven : Crypto → ℕ → ℕ → Option ℕ → Error
already_redriven c id at outbox_id = about "Dead-letter job " id (
    String.◌++◌ " was already re-driven at " (
      String.◌++◌ (c.to_iso_string at)
        (String.◌++◌ " (outbox " (String.◌++◌ (id_text outbox_id) ")"))))

module _ (c : Crypto) (now : ℕ) where
  -- Each guard returns a refusal, or none when the job may run again.
  unfoldable pub verification_guard : Payload → Db → Option String
  verification_guard payload s =
      elim (bind_option (token_of payload)
        (λ t. find_first (λ (r : EmailVerificationToken). r.token ==ₛ t) s.verification_tokens)) [
          | none ↦ some "the verification token no longer exists (already verified or removed)"
          | some r ↦
              if leb r.expires_at now then some "the verification token has expired" else none
        ]

  unfoldable pub reset_guard : Payload → Db → Option String
  reset_guard payload s =
      elim (bind_option (token_of payload)
        (λ t. find_first (λ (r : PasswordResetToken). r.token ==ₛ t) s.reset_tokens)) [
          | none ↦ some "the password-reset token no longer exists"
          | some r ↦
              if is_some r.used_at
              then some "the password-reset token was already used"
              else if leb r.expires_at now
              then some "the password-reset token has expired"
              else none
        ]

  abbrev replaced : Option String
  replaced = some "the registration code was replaced or no longer exists"

  abbrev otp_state : EmailOtp → Option String
  otp_state r =
      if is_some r.consumed_at
      then some "the registration code was already used"
      else if is_some r.verified_at
      then some "the registration code was already verified"
      else if leb r.expires_at now
      then some "the registration code has expired"
      else none

  unfoldable pub otp_guard : Payload → Db → Option String
  otp_guard payload s = elim (as_text (field "email" payload)) [
    | none ↦ replaced
    | some email ↦ elim (find_first (λ (r : EmailOtp). r.email ==ₛ email) s.email_otps) [
      | none ↦ replaced
      | some r ↦ elim (as_text (field "code" payload)) [
        | none ↦ replaced
        | some code ↦ if hash_otp_code c email code ==ₛ r.code_hash then otp_state r else replaced
      ]
    ]
  ]

  -- REPLAY_GUARDS[row.jobName]?.(row.payload, tx)
  unfoldable pub replay_guard : String → Payload → Db → Option String
  replay_guard job_name payload s =
      if job_name ==ₛ "sendVerificationEmail"
      then verification_guard payload s
      else if job_name ==ₛ "sendResetPasswordEmail"
      then reset_guard payload s
      else if job_name ==ₛ "sendOtpEmail"
      then otp_guard payload s
      else none

  -- The conditional stamp; its count.
  unfoldable pub stamp_redriven : ℕ → Option String → ℕ → Tx ℕ
  stamp_redriven id by outbox_id s = ok (
    count_where (is_undriven id) s.dead_letter_jobs,
    record s {
      dead_letter_jobs = update_where (is_undriven id) (stamp now by outbox_id) s.dead_letter_jobs;
    },
  )

  -- The part after the checks.
  unfoldable pub redrive_row : ℕ → Option String → DeadLetterJob → Tx RedriveResult
  redrive_row id by row = do
    outbox_id ← enqueue now row.queue_name row.job_name row.payload
    count ← stamp_redriven id by outbox_id
    if count == 0
        then throw (about "Dead-letter job " id " was re-driven concurrently")
        else pure (record {
          dead_letter_id = row.id;
          outbox_id = outbox_id;
          queue_name = row.queue_name;
          job_name = row.job_name;
        })

  unfoldable pub redrive_found : ℕ → Option String → Option DeadLetterJob → Tx RedriveResult
  redrive_found id by none = throw (about "Dead-letter job " id " not found")
  redrive_found id by (some row) = elim row.redriven_at [
    | some at ↦ throw (already_redriven c id at row.redrive_outbox_id)
    | none ↦
        if not (is_routable row.queue_name)
        then throw (
            other (
              String.◌++◌ "Unknown queue \""
                (String.◌++◌ row.queue_name "\"; nothing can process it")))
        else (do
          refusal ← gets (replay_guard row.job_name row.payload)
          elim refusal [
            | some reason ↦ throw (
                other (
                  String.◌++◌ "Refusing to re-drive "
                    (String.◌++◌ row.job_name (String.◌++◌ ": " reason))))
            | none ↦ redrive_row id by row
          ])
  ]

  -- The transaction of redrive.
  unfoldable pub redrive_steps : ℕ → Option String → Tx RedriveResult
  redrive_steps id by = do
    found ← gets (λ s. find_first (λ (r : DeadLetterJob). r.id == id) s.dead_letter_jobs)
    redrive_found id by found

  unfoldable pub redrive : ℕ → Option String → Exec RedriveResult
  redrive id by = transaction (redrive_steps id by)
