-- ===== src/Otp.antt =====
-- src/modules/otp/otp.repository.ts: each operation is one guarded statement on the row of an
-- e-mail address. `now` is the database clock; a comparison with now() minus a span is written with
-- the span on the other side.
pub mod Code
pub mod Service
pub mod Laws
use express_core.Base.{
  ℕ, ◌+◌, ◌*◌, String, Bool, true, false, ◌&&◌, not, Option, none, some, List, [], ◌∷◌, is_some,
  ltb, leb, ◌==ₛ◌, find_first, update_where, if◌then◌else◌,
}
use express_core.Store.{EmailOtp, Db}
use express_core.Store.Exec.{Tx, ok}

abbrev pub has_email : String → EmailOtp → Bool
has_email email r = r.email ==ₛ email

abbrev pub has_id : String → EmailOtp → Bool
has_id id r = r.id ==ₛ id

unfoldable pub new_otp : String → String → String → ℕ → ℕ → EmailOtp
new_otp id email code_hash expires_minutes now = record {
  id = id;
  email = email;
  code_hash = code_hash;
  attempts = 0;
  sent_at = now;
  expires_at = now + expires_minutes * 60000;
  verified_at = none;
  consumed_at = none;
}

abbrev pub reissue : String → ℕ → ℕ → EmailOtp → EmailOtp
reissue code_hash expires_minutes now r = record r {
  code_hash = code_hash;
  attempts = 0;
  sent_at = now;
  expires_at = now + expires_minutes * 60000;
  verified_at = none;
  consumed_at = none;
}

abbrev pub set_otps : List EmailOtp → Db → Db
set_otps rows s = record s { email_otps = rows }

-- INSERT … ON CONFLICT DO UPDATE … WHERE; `id` is the uuid that an insert draws.
unfoldable pub issue : String → String → String → ℕ → ℕ → ℕ → Tx Bool
unfolding new_otp
issue id email code_hash expires_minutes cooldown_seconds now s =
    elim (find_first (has_email email) s.email_otps) [
      | none ↦ ok (true, set_otps (new_otp id email code_hash expires_minutes now ∷ s.email_otps) s)
      | some r ↦
          if leb (r.sent_at + cooldown_seconds * 1000) now
          then ok (
            true,
            set_otps
                (update_where (has_email email) (reissue code_hash expires_minutes now)
                  s.email_otps)
                s,
          )
          else ok (false, s)
    ]

pub record ReservedAttempt : Type 0 where
  pub id : String
  pub code_hash : String
  pub verified_at : Option ℕ

abbrev pub is_attemptable : ℕ → ℕ → EmailOtp → Bool
is_attemptable max_attempts now r =
    not (is_some r.consumed_at) && (ltb now r.expires_at && ltb r.attempts max_attempts)

abbrev pub count_attempt : EmailOtp → EmailOtp
count_attempt r = record r { attempts = r.attempts + 1 }

abbrev pub reserved : EmailOtp → ReservedAttempt
reserved r = record { id = r.id; code_hash = r.code_hash; verified_at = r.verified_at }

unfoldable pub reserve_attempt : String → ℕ → ℕ → Tx (Option ReservedAttempt)
reserve_attempt email max_attempts now s = elim (find_first (has_email email) s.email_otps) [
  | none ↦ ok (none, s)
  | some r ↦
      if is_attemptable max_attempts now r
      then ok (
        some (reserved r),
        set_otps (update_where (has_email email) count_attempt s.email_otps) s,
      )
      else ok (none, s)
]

abbrev pub verify_at : ℕ → EmailOtp → EmailOtp
verify_at now r = record r { verified_at = some now }

abbrev pub verified_time : Option EmailOtp → Option ℕ
verified_time none = none
verified_time (some r) = r.verified_at

-- The first verification wins; the time that is stored then.
unfoldable pub mark_verified : String → ℕ → Tx (Option ℕ)
mark_verified id now s =
    let rows =
      update_where (λ r. has_id id r && not (is_some r.verified_at)) (verify_at now) s.email_otps in
    ok (verified_time (find_first (has_id id) rows), set_otps rows s)

pub record Consumed : Type 0 where
  pub id : String
  pub verified_at : ℕ

abbrev pub consume_at : ℕ → EmailOtp → EmailOtp
consume_at now r = record r { consumed_at = some now }

-- "verified_at" > now() - window, which no NULL satisfies.
abbrev pub in_window : ℕ → ℕ → Option ℕ → Bool
in_window window_minutes now none = false
in_window window_minutes now (some at) = ltb now (at + window_minutes * 60000)

abbrev pub consumed_of : String → Option ℕ → Option Consumed
consumed_of id none = none
consumed_of id (some at) = some (record { id = id; verified_at = at })

unfoldable pub consume : String → ℕ → ℕ → Tx (Option Consumed)
consume email window_minutes now s = elim (find_first (has_email email) s.email_otps) [
  | none ↦ ok (none, s)
  | some r ↦
      if not (is_some r.consumed_at) && in_window window_minutes now r.verified_at
      then ok (
        consumed_of r.id r.verified_at,
        set_otps (update_where (has_email email) (consume_at now) s.email_otps) s,
      )
      else ok (none, s)
]
