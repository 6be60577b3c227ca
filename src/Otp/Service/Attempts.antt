-- ===== src/Otp/Service/Attempts.antt =====
-- Sequences of guesses at one code (`verifyCode` of otp.service.ts).
use express_core.Otp.Code.{hash_otp_code, normalize_email}
use express_core.Base.{
  ◌≡◌, ◌&&◌, not, is_some, some, ◌∷◌, Bool-cases, ◌+◌, none, ◌==ₛ◌, inr, inl, Option-cases, refl,
  false, true, ◌≤◌, if◌then◌else◌, [], arith, max, ◌∙◌, ap, Bool, ltb, leb, true, false,
}
use mathlib.Core.Option
use express_core.Base.RowLaws.{find_first-update}
use express_core.Otp.{
  has_email, has_id, verify_at, count_attempt, reserve_attempt, mark_verified, is_attemptable,
  Option, String, EmailOtp, ℕ, List, ReservedAttempt, find_first, Db, update_where,
}
use express_core.Otp.Laws.{row_of, reserve_open, reserve_closed, row_of-update_row, reserve_missing}
use express_core.Otp.Service.{
  confirm, verify_code, check_attempt, Crypto, Env, refused_attempt, app, too_many_attempts,
  invalid_or_expired,
}
use express_core.Store.Exec.{ok, err, Result, db, other}

-- The attempts that the row of an address has counted.
abbrev pub attempts_of : Option EmailOtp → ℕ
attempts_of none = 0
attempts_of (some r) = r.attempts

attempts-mark :
    (email id : String) (now : ℕ) (rows : List EmailOtp)
    → attempts_of (
        find_first
          (has_email email)
          (update_where (λ r. has_id id r && not (is_some r.verified_at)) (verify_at now) rows))
      ≡ attempts_of (find_first (has_email email) rows)
attempts-mark email id now rows =
    rw
      (find_first-update (has_email email) (λ r. has_id id r && not (is_some r.verified_at))
        (verify_at now) rows (λ r. refl))
      (kept (find_first (has_email email) rows))
  where
    kept :
        (o : Option EmailOtp)
        → attempts_of (
            Option.map
              (λ x. if has_id id x && not (is_some x.verified_at) then verify_at now x else x)
              o)
          ≡ attempts_of o
    kept none = refl
    kept (some x) = ground arith

module _ (c : Crypto) (e : Env) where
  -- 1 for an answer that tells whether the code was right: a ticket, or "Invalid code".
  unfoldable pub told : Result String → ℕ
  told (ok ticket) = 1
  told (err (app text status)) = if text ==ₛ "Invalid code" then 1 else 0
  told (err (db text)) = 0
  told (err (other text)) = 0

  -- A sequence of guesses at the code of one address, each with its times: the number of answers
  -- that tell whether the code was right, and the state after all.
  unfoldable pub verify_all : String → List (String × (ℕ × ℕ)) → Db → ℕ × Db
  verify_all raw_email [] s = (0, s)
  verify_all raw_email ((code, (db_now, now)) ∷ guesses) s =
      let answer = verify_code c e raw_email code db_now now s in
      let rest = verify_all raw_email guesses answer.1 in (told answer.0 + rest.0, rest.1)

  attempts-check :
      (email code : String) (now : ℕ) (o : Option ReservedAttempt) (s : Db)
      → attempts_of (row_of email (check_attempt c e email code now o s).1)
        ≡ attempts_of (row_of email s)
  unfolding check_attempt confirm mark_verified
  attempts-check email code now none s = refl
  attempts-check email code now (some a) s =
      elim (Bool-cases (hash_otp_code c email code ==ₛ a.code_hash)) [
        | inr h ↦ rw h refl
        | inl h ↦ elim (Option-cases a.verified_at) [
          | inr (at, v) ↦ rw (h, v) refl
          | inl v ↦ rw (h, v) (attempts-mark email a.id now s.email_otps)
        ]
      ]

  after_reservation :
      (raw_email code : String) (db_now now : ℕ) (s s' : Db) (o : Option ReservedAttempt)
      → reserve_attempt (normalize_email c raw_email) e.otp_max_attempts db_now s ≡ ok (o, s')
      → attempts_of
          (row_of (normalize_email c raw_email) (verify_code c e raw_email code db_now now s).1)
        ≡ attempts_of (row_of (normalize_email c raw_email) s')
  unfolding verify_code
  after_reservation raw_email code db_now now s s' o h =
      rw h (attempts-check (normalize_email c raw_email) code now o s')

  told-one : (r : Result String) → told r ≤ 1
  unfolding told
  told-one (ok ticket) = omega arith
  told-one (err (app text status)) = ground arith
  told-one (err (db text)) = omega arith
  told-one (err (other text)) = omega arith

  -- Without an attempt the answer is one of the two refusals.
  told-refused :
      (email : String) (now : ℕ) (s : Db) → told (err (refused_attempt c e email now s)) ≡ 0
  unfolding told refused_attempt
  told-refused email now s = elim (Option-cases (row_of email s)) [
    | inl missing ↦ rw (missing, refused_attempt, row_of) refl
    | inr (r, found) ↦ rw (found, refused_attempt, row_of) (by_state (still_open r))
  ]
    where
      still_open : EmailOtp → Bool
      still_open r =
          not (is_some r.consumed_at) && (ltb now r.expires_at && leb e.otp_max_attempts r.attempts)

      by_state : (b : Bool) → told (err (if b then too_many_attempts else invalid_or_expired)) ≡ 0
      by_state true = refl
      by_state false = refl

  told-closed :
      (raw_email code : String) (db_now now : ℕ) (s : Db)
      → reserve_attempt (normalize_email c raw_email) e.otp_max_attempts db_now s ≡ ok (none, s)
      → told (verify_code c e raw_email code db_now now s).0 ≡ 0
  unfolding verify_code check_attempt
  told-closed raw_email code db_now now s h =
      rw h (told-refused (normalize_email c raw_email) now s)

  -- An answer that tells about the code costs an attempt, and none is taken at the limit.
  pub record Counted (before after k : ℕ) : Type 0 where
    pub counted : k + before ≤ after
    pub limited : after ≤ max e.otp_max_attempts before

  Counted-closed :
      (raw_email code : String) (db_now now : ℕ) (s : Db)
      → reserve_attempt (normalize_email c raw_email) e.otp_max_attempts db_now s ≡ ok (none, s)
      → Counted
          (attempts_of (row_of (normalize_email c raw_email) s))
          (attempts_of
            (row_of (normalize_email c raw_email) (verify_code c e raw_email code db_now now s).1))
          (told (verify_code c e raw_email code db_now now s).0)
  Counted-closed raw_email code db_now now s h =
      let silent = told-closed raw_email code db_now now s h in
      let same = after_reservation raw_email code db_now now s s none h in
      record { counted = omega arith; limited = omega arith }

  attempts-verify :
      (raw_email code : String) (db_now now : ℕ) (s : Db)
      → Counted
          (attempts_of (row_of (normalize_email c raw_email) s))
          (attempts_of
            (row_of (normalize_email c raw_email) (verify_code c e raw_email code db_now now s).1))
          (told (verify_code c e raw_email code db_now now s).0)
  attempts-verify raw_email code db_now now s =
      let email = normalize_email c raw_email in
      let after = after_reservation raw_email code db_now now s in
      let closed_case = Counted-closed raw_email code db_now now s in
      elim (Option-cases (row_of email s)) [
        | inl missing ↦ closed_case (reserve_missing email s e.otp_max_attempts db_now missing)
        | inr (r, found) ↦ elim (Bool-cases (is_attemptable e.otp_max_attempts db_now r)) [
          | inl free ↦
              let granted = reserve_open email s r found e.otp_max_attempts db_now free in
              let one = told-one (verify_code c e raw_email code db_now now s).0 in
              let before = ap attempts_of found in
              let one_more =
                after _ _ granted
                ∙ ap attempts_of (row_of-update_row email count_attempt s r (λ x. refl) found) in
              record { counted = omega arith; limited = ground arith }
          | inr closed ↦
              closed_case (reserve_closed email s r found e.otp_max_attempts db_now closed)
        ]
      ]

  -- For any sequence of calls of verifyCode on one address, with any codes and times: the number
  -- of answers that tell whether the code was right (a ticket, or "Invalid code"), plus the
  -- attempts counted before, is at most the configured limit or the attempts counted before,
  -- whichever is larger.
  pub verify_all-limited :
      (raw_email : String) (guesses : List (String × (ℕ × ℕ))) (s : Db)
      → (verify_all raw_email guesses s).0 + attempts_of (row_of (normalize_email c raw_email) s)
        ≤ max e.otp_max_attempts (attempts_of (row_of (normalize_email c raw_email) s))
  unfolding verify_all
  verify_all-limited raw_email [] s = omega arith
  verify_all-limited raw_email ((code, (db_now, now)) ∷ guesses) s =
      let step = attempts-verify raw_email code db_now now s in
      let counted = step.counted in
      let limited = step.limited in
      let rest =
        verify_all-limited raw_email guesses (verify_code c e raw_email code db_now now s).1 in
      omega arith
