-- ===== src/Otp/Service/Laws.antt =====
-- A code from its verification to the registration (otp.service.ts).
use express_core.Otp.Code.{hash_otp_code, registration_ticket, normalize_email}
use express_core.Base.{
  ◌≡◌, some, none, ◌&&◌, not, true, is_some, ◌==ₛ◌, eq_refl, refl, update_where, Option-cases,
  false, ◌<◌, ◌+◌, Bool-cases, ◌*◌, inl, inr, arith,
}
use express_core.Base.RowLaws.{find_first-update, find_first-keyed, Unique, Unique-update}
use express_core.Otp.{
  has_email, has_id, verify_at, is_attemptable, mark_verified, consume_at, String, ℕ, Db, EmailOtp,
  ok, count_attempt, set_otps,
}
use express_core.Otp.Laws.{
  row_of, update_row, reserve_open, row_of-update_row, consume_open, consume_used,
}
use express_core.Otp.Service.{
  confirm, verify_code, check_attempt, Crypto, Env, consume_for_registration, err, not_verified,
}

abbrev marked_rows : String → ℕ → Db → Db
marked_rows id now s =
    set_otps
      (update_where (λ x. has_id id x && not (is_some x.verified_at)) (verify_at now) s.email_otps)
      s

mark_verified_lem :
    (email : String) (now : ℕ) (s : Db) (r : EmailOtp)
    → Unique (λ x. x.id) s.email_otps
    → row_of email s ≡ some r
    → r.verified_at ≡ none
    → (s' : Db) × (mark_verified r.id now s ≡ ok (some now, s'))
      × (row_of email s' ≡ some (verify_at now r))
unfolding mark_verified
mark_verified_lem email now s r u found unverified = (
  marked_rows r.id now s,
  rw
      (
        find_first-update (has_id r.id) (λ x. has_id r.id x && not (is_some x.verified_at))
            (verify_at now) s.email_otps (λ x. refl),
        find_first-keyed (λ x. x.id) (has_email email) s.email_otps r u found,
        eq_refl r.id,
        unverified,
      )
      refl,
  rw
      (
        find_first-update (has_email email) (λ x. has_id r.id x && not (is_some x.verified_at))
            (verify_at now) s.email_otps (λ x. refl),
        found,
        eq_refl r.id,
        unverified,
      )
      refl,
)

module _ (c : Crypto) (e : Env) where
  -- The right code at a reserved attempt.
  pub verify_right :
      (raw_email code : String) (db_now now : ℕ) (s : Db) (r : EmailOtp)
      → Unique (λ x. x.id) s.email_otps
      → row_of (normalize_email c raw_email) s ≡ some r
      → is_attemptable e.otp_max_attempts db_now r ≡ true
      → (hash_otp_code c (normalize_email c raw_email) code ==ₛ r.code_hash) ≡ true
      → r.verified_at ≡ none
      → (s' : Db) × (verify_code c e raw_email code db_now now s
          ≡ (ok (registration_ticket c r.id now), s'))
        × (row_of (normalize_email c raw_email) s' ≡ some (verify_at now (count_attempt r)))
  unfolding verify_code check_attempt confirm update_row
  verify_right raw_email code db_now now s r u found free right unverified =
      let email = normalize_email c raw_email in
      let s₁ = update_row email count_attempt s in
      let (s', marked, found') =
        mark_verified_lem email now s₁ (count_attempt r)
          (Unique-update (λ x. x.id) (has_email email) count_attempt s.email_otps (λ x. refl) u)
          (row_of-update_row email count_attempt s r (λ x. refl) found) unverified in
      (
        s',
        rw (reserve_open email s r found e.otp_max_attempts db_now free, right, unverified, marked)
            refl,
        found',
      )

  is_attemptable-unused :
      (max_attempts now : ℕ) (r : EmailOtp)
      → is_attemptable max_attempts now r ≡ true
      → r.consumed_at ≡ none
  is_attemptable-unused max_attempts now r h = elim (Option-cases r.consumed_at) [
    | inl e ↦ e
    | inr (at, e) ↦ absurd (ground arith)
  ]

  consume_ticket :
      (raw_email : String) (now at : ℕ) (s : Db) (r : EmailOtp)
      → row_of (normalize_email c raw_email) s ≡ some r
      → r.consumed_at ≡ none
      → r.verified_at ≡ some at
      → now < at + e.otp_verified_window_minutes * 60000
      → (registration_ticket c r.id at ==ₛ "") ≡ false
      → consume_for_registration c e raw_email (some (registration_ticket c r.id at)) now s
        ≡ ok (tt, update_row (normalize_email c raw_email) (consume_at now) s)
  unfolding consume_for_registration
  consume_ticket raw_email now at s r found unused verified soon named =
      rw
        (
          named,
          consume_open (normalize_email c raw_email) s r found e.otp_verified_window_minutes now at
              unused verified soon,
          eq_refl (registration_ticket c r.id at),
        )
        refl

  refuse_used :
      (raw_email : String) (ticket : String) (now at : ℕ) (s : Db) (r : EmailOtp)
      → row_of (normalize_email c raw_email) s ≡ some r
      → r.consumed_at ≡ some at
      → consume_for_registration c e raw_email (some ticket) now s ≡ err (not_verified c e)
  unfolding consume_for_registration
  refuse_used raw_email ticket now at s r found used = elim (Bool-cases (ticket ==ₛ "")) [
    | inl h ↦ rw h refl
    | inr h ↦
        rw
          (
            h,
            consume_used (normalize_email c raw_email) s r found e.otp_verified_window_minutes now
                at used,
          )
          refl
  ]

  -- Let row ids be unique, and let the row of an address be unverified and open to an attempt. The
  -- right code is answered with the row's ticket; that ticket, when it is not the empty text,
  -- proves the address to one registration within the window; and after that every ticket is
  -- refused at every time.
  pub verify-consume_once :
      (raw_email code : String) (db_now now : ℕ) (s : Db) (r : EmailOtp)
      → Unique (λ x. x.id) s.email_otps
      → row_of (normalize_email c raw_email) s ≡ some r
      → is_attemptable e.otp_max_attempts db_now r ≡ true
      → (hash_otp_code c (normalize_email c raw_email) code ==ₛ r.code_hash) ≡ true
      → r.verified_at ≡ none
      → (registration_ticket c r.id now ==ₛ "") ≡ false
      → (at : ℕ) → at < now + e.otp_verified_window_minutes * 60000
      → (s₁ : Db) × (s₂ : Db) × (verify_code c e raw_email code db_now now s
          ≡ (ok (registration_ticket c r.id now), s₁))
        × (consume_for_registration c e raw_email (some (registration_ticket c r.id now)) at s₁
            ≡ ok (tt, s₂))
        × ((ticket : String) (later : ℕ)
            → consume_for_registration c e raw_email (some ticket) later s₂
              ≡ err (not_verified c e))
  verify-consume_once raw_email code db_now now s r u found free right unverified named at soon =
      let email = normalize_email c raw_email in
      let (s₁, answered, found₁) =
        verify_right raw_email code db_now now s r u found free right unverified in
      let r₁ = verify_at now (count_attempt r) in
      (
        s₁,
        update_row email (consume_at at) s₁,
        answered,
        consume_ticket raw_email at now s₁ r₁ found₁ (is_attemptable-unused _ _ r free) refl soon
            named,
        λ ticket later.
            refuse_used raw_email ticket later at _ (consume_at at r₁)
              (row_of-update_row email (consume_at at) s₁ r₁ (λ x. refl) found₁) refl,
      )
