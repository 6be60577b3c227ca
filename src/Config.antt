-- ===== src/Config.antt =====
-- src/config/env.ts: the settings that the modelled code reads, after parsing.
use express_core.Base.{ℕ, String, Option, none}

pub data RegistrationMode : Type 0 where
  link otp : RegistrationMode

pub record Env : Type 0 where
  pub refresh_token_expires_days : ℕ
  pub refresh_grace_seconds : ℕ
  pub email_verification_expires_hours : ℕ
  pub password_reset_expires_minutes : ℕ
  pub registration_verification : RegistrationMode
  pub registration_default_role : Option String
  pub otp_expires_minutes : ℕ
  pub otp_resend_cooldown_seconds : ℕ
  pub otp_max_attempts : ℕ
  pub otp_verified_window_minutes : ℕ
  pub outbox_relay_batch : ℕ
  pub outbox_lease_seconds : ℕ
  pub outbox_max_publish_attempts : ℕ
  pub outbox_retention_published_days : ℕ
  pub outbox_retention_failed_days : ℕ
  pub dlq_retention_days : ℕ

-- The values that an empty environment gives.
abbrev pub default_env : Env
default_env = record {
  refresh_token_expires_days = 7;
  refresh_grace_seconds = 30;
  email_verification_expires_hours = 24;
  password_reset_expires_minutes = 60;
  registration_verification = link;
  registration_default_role = none;
  otp_expires_minutes = 10;
  otp_resend_cooldown_seconds = 60;
  otp_max_attempts = 5;
  otp_verified_window_minutes = 30;
  outbox_relay_batch = 50;
  outbox_lease_seconds = 60;
  outbox_max_publish_attempts = 5;
  outbox_retention_published_days = 7;
  outbox_retention_failed_days = 30;
  dlq_retention_days = 90;
}
