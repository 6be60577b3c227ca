-- ===== src/Auth/Verification.antt =====
-- `verifyEmail`, `requestPasswordReset` and `resetPassword` of src/modules/auth/auth.service.ts.
pub mod Laws
use express_core.Base.{
  ℕ, ◌+◌, ◌*◌, String, true, Option, none, some, [], ◌∷◌, is_some, ltb, ◌==ₛ◌, find_first,
  if◌then◌else◌,
}
use express_core.Store.{User, EmailVerificationToken, PasswordResetToken, text, Db}
use express_core.Store.Exec.{
  Tx, Exec, app, Result, ok, err, pure, throw, gets, transaction, ◌>>=◌, ◌>>◌,
}
use express_core.Config.{Env}
use express_core.Crypto.{Crypto}
use express_core.Accounts.{find_user_by_email, update_user}
use express_core.Outbox.{enqueue}
use express_core.Auth.Tokens.{delete_refresh_tokens_by_user_id}
use express_core.Auth.EmailTokens.{
  scalar, delete_verification_token, delete_verification_tokens, create_password_reset_token,
  delete_unused_password_reset_tokens, delete_password_reset_token, update_password_reset_token,
}

module _ (c : Crypto) (e : Env) where
  unfoldable pub verify_found : String → ℕ → Option EmailVerificationToken → Tx (Option User)
  verify_found token now none = throw (app "Invalid token" 400)
  verify_found token now (some r) =
      if ltb r.expires_at now then (do delete_verification_tokens token; pure none) else (do
        user ← update_user r.user_id (λ u. record u { is_email_verified = true })
        delete_verification_token token
        enqueue now "email" "sendVerificationSuccessEmail"
            (("email", scalar user.email) ∷ ("name", scalar user.name) ∷ [])
        pure (some user))

  abbrev answer_token {ℓ} : {A : Type ℓ} → Result (Option A) × Db → Result (Unit {0}) × Db
  answer_token (ok none, s) = (err (app "Token expired" 400), s)
  answer_token (ok (some a), s) = (ok tt, s)
  answer_token (err x, s) = (err x, s)

  -- The transaction of verifyEmail.
  unfoldable pub verify_by_token : String → ℕ → Tx (Option User)
  verify_by_token token now = do
    found ←
        gets (λ s.
          find_first (λ (r : EmailVerificationToken). r.token ==ₛ token) s.verification_tokens)
    verify_found token now found

  unfoldable pub verify_email : String → ℕ → Exec (Unit {0})
  verify_email token now s = answer_token (transaction (verify_by_token token now) s)

  unfoldable pub reset_transaction : User → String → ℕ → Tx (Unit {0})
  reset_transaction user token now = do
    delete_unused_password_reset_tokens user.id
    create_password_reset_token (record {
      token = token;
      user_id = user.id;
      expires_at = now + e.password_reset_expires_minutes * 60000;
      used_at = none;
    })
    enqueue now "email" "sendResetPasswordEmail"
        (("email", scalar user.email) ∷ ("name", scalar user.name) ∷ ("token", text token) ∷ [])
    pure tt

  -- An unknown address is not revealed.
  unfoldable pub request_password_reset : String → String → ℕ → Exec (Unit {0})
  request_password_reset email token now s = elim (find_user_by_email email s) [
    | none ↦ (ok tt, s)
    | some user ↦ transaction (reset_transaction user token now) s
  ]

  unfoldable pub reset_found : String → String → ℕ → Option PasswordResetToken → Tx (Option ℕ)
  reset_found token password now none = throw (app "Invalid token" 400)
  reset_found token password now (some r) =
      if ltb r.expires_at now
      then (do delete_password_reset_token token; pure none)
      else if is_some r.used_at
      then throw (app "Token already used" 400)
      else (do
        update_user r.user_id (λ u. record u { password = some (c.bcrypt_hash password) })
        update_password_reset_token token now
        delete_refresh_tokens_by_user_id r.user_id
        pure (some r.user_id))

  -- The transaction of resetPassword.
  unfoldable pub reset_by_token : String → String → ℕ → Tx (Option ℕ)
  reset_by_token token password now = do
    found ← gets (λ s. find_first (λ (r : PasswordResetToken). r.token ==ₛ token) s.reset_tokens)
    reset_found token password now found

  unfoldable pub reset_password : String → String → ℕ → Exec (Unit {0})
  reset_password token password now s =
      answer_token (transaction (reset_by_token token password now) s)
