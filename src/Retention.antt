-- ===== src/Retention.antt =====
-- The retention loops (`prune` of outbox.repository.ts and dead-letter.repository.ts,
-- `deleteExpired` of otp.repository.ts, `deleteExpiredRefreshTokens` of auth.repository.ts) and the
-- jobs of src/services/system.service.ts that run them. Each batch deletes the oldest rows that are
-- past their time, by id; deletion by id ends the loop when a batch is not full.
mod Counts
pub mod Past
use express_core.Config.{Env}
use express_core.Base.{
  zero, suc, [], ◌∷◌, delete_where, count_where, ℕ, Bool, List, ◌&&◌, ltb, false, not, ◌+◌, ◌==◌,
  ◌==ₛ◌, ◌||◌, if◌then◌else◌, length, ◌≡◌, Bool-cases, ◌-◌, ◌*◌, inl, arith, inr, refl,
}
use express_core.Base.Bytes.{take}
use express_core.Store.{
  OutboxStatus, published, failed, OutboxRow, DeadLetterJob, EmailOtp, RefreshToken,
  EmailVerificationToken, PasswordResetToken, Db,
}
use express_core.Outbox.{has_status}
use express_core.Outbox.Claims.{sort_by}

abbrev pub day_ms : ℕ
day_ms = 86400000

module _ {A : Type 0} (past : A → Bool) (time : A → ℕ) (same_id : A → A → Bool) where
  unfoldable pub is_among : List A → A → Bool
  is_among [] y = false
  is_among (x ∷ xs) y = same_id x y || is_among xs y

  -- SELECT … WHERE past ORDER BY time LIMIT size
  unfoldable pub batch_of : ℕ → List A → List A
  batch_of size rows = take size (sort_by time (delete_where (λ r. not (past r)) rows))

  -- The number removed and the rows that stay, when `batches` more batches are allowed.
  unfoldable pub prune_batches : ℕ → ℕ → ℕ → List A → ℕ × List A
  prune_batches size zero removed rows = (removed, rows)
  prune_batches size (suc batches) removed rows =
      let batch = batch_of size rows in
      let deleted = count_where (is_among batch) rows in
      let kept = delete_where (is_among batch) rows in
      let rest = prune_batches size batches (removed + deleted) kept in
      if ltb deleted size then (removed + deleted, kept) else rest

abbrev pub batch_size : ℕ
batch_size = 1000

abbrev pub max_batches : ℕ
max_batches = 100

unfoldable pub prune_outbox : OutboxStatus → ℕ → Db → ℕ × Db
prune_outbox status before s =
    let r =
      prune_batches (λ (r : OutboxRow). has_status r.status status && ltb r.available_at before)
        (λ r. r.available_at) (λ x y. x.id == y.id) batch_size max_batches 0 s.outbox in
    (r.0, record s { outbox = r.1 })

unfoldable pub prune_dead_letters : ℕ → Db → ℕ × Db
prune_dead_letters before s =
    let r =
      prune_batches (λ (r : DeadLetterJob). ltb r.created_at before) (λ r. r.created_at)
        (λ x y. x.id == y.id) batch_size max_batches 0 s.dead_letter_jobs in
    (r.0, record s { dead_letter_jobs = r.1 })

unfoldable pub delete_expired : ℕ → Db → ℕ × Db
delete_expired before s =
    let r =
      prune_batches (λ (r : EmailOtp). ltb r.expires_at before) (λ r. r.expires_at)
        (λ x y. x.id ==ₛ y.id) batch_size max_batches 0 s.email_otps in
    (r.0, record s { email_otps = r.1 })

unfoldable pub delete_expired_refresh_tokens : ℕ → Db → ℕ × Db
delete_expired_refresh_tokens before s =
    let r =
      prune_batches (λ (r : RefreshToken). ltb r.expires_at before) (λ r. r.expires_at)
        (λ x y. x.id ==ₛ y.id) batch_size max_batches 0 s.refresh_tokens in
    (r.0, record s { refresh_tokens = r.1 })

abbrev delete_expired_links : ℕ → Db → Db
delete_expired_links now s = record s {
  verification_tokens =
      delete_where (λ (r : EmailVerificationToken). ltb r.expires_at now) s.verification_tokens;
  reset_tokens = delete_where (λ (r : PasswordResetToken). ltb r.expires_at now) s.reset_tokens;
}

module _ (e : Env) (now : ℕ) where
  -- The two counts that are logged, and the database after.
  unfoldable pub cleanup_expired_tokens : Db → (ℕ × ℕ) × Db
  cleanup_expired_tokens s =
      let refresh_tokens = delete_expired_refresh_tokens now s in
      let links = delete_expired_links now refresh_tokens.1 in
      let codes = delete_expired (now - e.otp_verified_window_minutes * 60000) links in
      ((refresh_tokens.0, codes.0), codes.1)

  unfoldable pub cleanup_outbox : Db → (ℕ × ℕ) × Db
  cleanup_outbox s =
      let sent = prune_outbox published (now - e.outbox_retention_published_days * day_ms) s in
      let lost = prune_outbox failed (now - e.outbox_retention_failed_days * day_ms) sent.1 in
      ((sent.0, lost.0), lost.1)

  unfoldable pub cleanup_dead_letter_jobs : Db → ℕ × Db
  cleanup_dead_letter_jobs = prune_dead_letters (now - e.dlq_retention_days * day_ms)
