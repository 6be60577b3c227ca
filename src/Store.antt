-- ===== src/Store.antt =====
-- The database (prisma/schema.prisma): a table is a list of rows, each row a record of the columns
-- that the modelled code reads or writes. Times are milliseconds since the epoch.
pub mod Exec
use express_core.Base.{ℕ, String, Bool, Option, List, []}

pub record Role : Type 0 where
  pub id : ℕ
  pub slug : String
  pub title : String
  pub user_type : String
  pub description : Option String
  pub access : List String
  pub deleted_at : Option ℕ

pub record User : Type 0 where
  pub id : ℕ
  pub name : Option String
  pub slug : Option String
  pub email : Option String
  pub password : Option String
  pub avatar : Option String
  pub role_id : Option ℕ
  pub is_email_verified : Bool
  pub deleted_at : Option ℕ

-- The date column holds a day, written YYYY-MM-DD.
pub record UserProfile : Type 0 where
  pub user_id : ℕ
  pub phone : Option String
  pub birth_date : Option String
  pub gender : Option String
  pub locale : Option String

-- `token` is the SHA-256 hash of the token; the ciphertext seals the successor.
pub record RefreshToken : Type 0 where
  pub id : String
  pub token : String
  pub user_id : ℕ
  pub family_id : String
  pub expires_at : ℕ
  pub rotated_at : Option ℕ
  pub successor_ciphertext : Option (List ℕ)

pub record EmailVerificationToken : Type 0 where
  pub token : String
  pub user_id : ℕ
  pub expires_at : ℕ

pub record PasswordResetToken : Type 0 where
  pub token : String
  pub user_id : ℕ
  pub expires_at : ℕ
  pub used_at : Option ℕ

pub record EmailOtp : Type 0 where
  pub id : String
  pub email : String
  pub code_hash : String
  pub attempts : ℕ
  pub sent_at : ℕ
  pub expires_at : ℕ
  pub verified_at : Option ℕ
  pub consumed_at : Option ℕ

-- Job payloads are flat JSON objects.
pub data Scalar : Type 0 where
  null : Scalar
  text : String → Scalar
  number : ℕ → Scalar

abbrev pub Payload : Type 0
Payload = List (String × Scalar)

pub data OutboxStatus : Type 0 where
  pending published failed : OutboxStatus

pub record OutboxRow : Type 0 where
  pub id : ℕ
  pub queue_name : String
  pub job_name : String
  pub payload : Payload
  pub status : OutboxStatus
  pub attempts : ℕ
  pub available_at : ℕ
  pub published_at : Option ℕ
  pub last_error : Option String

pub record DeadLetterJob : Type 0 where
  pub id : ℕ
  pub queue_name : String
  pub job_name : String
  pub job_id : Option String
  pub payload : Payload
  pub failed_reason : String
  pub attempts_made : ℕ
  pub created_at : ℕ
  pub redriven_at : Option ℕ
  pub redriven_by : Option String
  pub redrive_outbox_id : Option ℕ

pub record ActivityLog : Type 0 where
  pub user_id : Option ℕ
  pub action : String
  pub subject_type : String
  pub subject_id : Option ℕ
  pub description : String

pub record EmailTemplate : Type 0 where
  pub id : ℕ
  pub key : String
  pub title : String
  pub subject : String
  pub body : String
  pub is_active : Bool

-- `next_…` are the sequences behind the autoincrement keys.
pub record Db : Type 0 where
  pub roles : List Role
  pub users : List User
  pub user_profiles : List UserProfile
  pub refresh_tokens : List RefreshToken
  pub verification_tokens : List EmailVerificationToken
  pub reset_tokens : List PasswordResetToken
  pub email_otps : List EmailOtp
  pub outbox : List OutboxRow
  pub dead_letter_jobs : List DeadLetterJob
  pub activity_logs : List ActivityLog
  pub email_templates : List EmailTemplate
  pub next_role_id : ℕ
  pub next_user_id : ℕ
  pub next_outbox_id : ℕ
  pub next_dead_letter_id : ℕ
  pub next_email_template_id : ℕ

abbrev pub empty_db : Db
empty_db = record {
  roles = [];
  users = [];
  user_profiles = [];
  refresh_tokens = [];
  verification_tokens = [];
  reset_tokens = [];
  email_otps = [];
  outbox = [];
  dead_letter_jobs = [];
  activity_logs = [];
  email_templates = [];
  next_role_id = 1;
  next_user_id = 1;
  next_outbox_id = 1;
  next_dead_letter_id = 1;
  next_email_template_id = 1;
}
