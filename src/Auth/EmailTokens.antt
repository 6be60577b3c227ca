-- ===== src/Auth/EmailTokens.antt =====
-- The verification and reset tokens of src/modules/auth: the statements of auth.repository.ts and
-- those that auth.service.ts makes itself.
use express_core.Base.{
  ℕ, String, Bool, ◌&&◌, not, Option, none, some, ◌∷◌, is_some, ◌==◌, ◌==ₛ◌, find_first,
  update_where, delete_where, if◌then◌else◌,
}
use express_core.Store.{EmailVerificationToken, PasswordResetToken, Scalar, null, text}
use express_core.Store.Exec.{Tx, db, ok, err}

abbrev pub scalar : Option String → Scalar
scalar none = null
scalar (some t) = text t

-- Rows that the verification flow adds and removes.
unfoldable pub create_email_verification_token : EmailVerificationToken → Tx (Unit {0})
create_email_verification_token row s =
    if is_some
      (find_first (λ (r : EmailVerificationToken). r.token ==ₛ row.token) s.verification_tokens)
    then err (db "unique constraint failed on email_verification_tokens")
    else ok (tt, record s { verification_tokens = row ∷ s.verification_tokens })

-- deleteMany, which an expired token takes.
unfoldable pub delete_verification_tokens : String → Tx (Unit {0})
delete_verification_tokens token s = ok (
  tt,
  record s {
    verification_tokens =
        delete_where (λ (r : EmailVerificationToken). r.token ==ₛ token) s.verification_tokens;
  },
)

-- delete, which a missing row makes fail.
unfoldable pub delete_verification_token : String → Tx (Unit {0})
delete_verification_token token s =
    elim (find_first (λ (r : EmailVerificationToken). r.token ==ₛ token) s.verification_tokens) [
      | none ↦ err (db "record to delete not found")
      | some row ↦ ok (
        tt,
        record s {
          verification_tokens =
              delete_where (λ (r : EmailVerificationToken). r.token ==ₛ token)
                s.verification_tokens;
        },
      )
    ]

unfoldable pub create_password_reset_token : PasswordResetToken → Tx (Unit {0})
create_password_reset_token row s =
    if is_some (find_first (λ (r : PasswordResetToken). r.token ==ₛ row.token) s.reset_tokens)
    then err (db "unique constraint failed on password_reset_tokens")
    else ok (tt, record s { reset_tokens = row ∷ s.reset_tokens })

abbrev pub is_unused_of : ℕ → PasswordResetToken → Bool
is_unused_of user_id r = (r.user_id == user_id) && not (is_some r.used_at)

unfoldable pub delete_unused_password_reset_tokens : ℕ → Tx (Unit {0})
delete_unused_password_reset_tokens user_id s =
    ok (tt, record s { reset_tokens = delete_where (is_unused_of user_id) s.reset_tokens })

unfoldable pub delete_password_reset_token : String → Tx (Unit {0})
delete_password_reset_token token s = ok (
  tt,
  record s {
    reset_tokens = delete_where (λ (r : PasswordResetToken). r.token ==ₛ token) s.reset_tokens;
  },
)

abbrev pub use_at : ℕ → PasswordResetToken → PasswordResetToken
use_at now r = record r { used_at = some now }

unfoldable pub update_password_reset_token : String → ℕ → Tx (Unit {0})
update_password_reset_token token now s =
    elim (find_first (λ (r : PasswordResetToken). r.token ==ₛ token) s.reset_tokens) [
      | none ↦ err (db "record to update not found")
      | some row ↦ ok (
        tt,
        record s {
          reset_tokens =
              update_where (λ (r : PasswordResetToken). r.token ==ₛ token) (use_at now)
                s.reset_tokens;
        },
      )
    ]
