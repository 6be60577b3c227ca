-- ===== src/Auth/Verification/Laws.antt =====
-- Resets of a password with one token (`resetPassword` of auth.service.ts).
use express_core.Base.{
  ◌==ₛ◌, ◌≡◌, ◌≤◌, update_where, ◌==◌, ap, delete_where, count_where, ltb-false_of_le, ◌∙◌, refl,
  if◌then◌else◌,
}
use mathlib.Core.Option
use express_core.Base.RowLaws.{find_first-update, count-delete_where, find_first-sat}
use express_core.Store.Exec.{transaction-ok, transaction-err}
use express_core.Auth.EmailTokens.{update_password_reset_token, use_at}
use express_core.Auth.Tokens.{of_user, delete_refresh_tokens_by_user_id}
use express_core.Auth.Tokens.Laws.{revoke_refresh_tokens_lem}
use express_core.Auth.Verification.{
  reset_found, reset_password, String, Crypto, Db, Env, Option, ℕ, PasswordResetToken, find_first,
  User, ◌==ₛ◌, some, none, err, app, ok, answer_token, reset_by_token, true,
}
use express_core.Accounts.{update_user}

abbrev pub reset_row : String → Db → Option PasswordResetToken
reset_row token s = find_first (λ (r : PasswordResetToken). r.token ==ₛ token) s.reset_tokens

module _ (c : Crypto) (e : Env) where
  abbrev pub set_password : String → User → User
  set_password password u = record u { password = some (c.bcrypt_hash password) }

  -- The database after a reset.
  abbrev pub after_reset : String → String → ℕ → PasswordResetToken → Db → Db
  after_reset token password now r s = record s {
    users = update_where (λ (v : User). v.id == r.user_id) (set_password password) s.users;
    reset_tokens =
        update_where (λ (x : PasswordResetToken). x.token ==ₛ token) (use_at now) s.reset_tokens;
    refresh_tokens = delete_where (of_user r.user_id) s.refresh_tokens;
  }

  -- A reset token that is unexpired and unused sets the password, is marked as used and ends every
  -- session of its user.
  pub reset_password_lem :
      (token password : String) (now : ℕ) (s : Db) (r : PasswordResetToken) (user : User)
      → reset_row token s ≡ some r
      → now ≤ r.expires_at
      → r.used_at ≡ none
      → find_first (λ (u : User). u.id == r.user_id) s.users ≡ some user
      → reset_password c e token password now s ≡ (ok tt, after_reset token password now r s)
  unfolding reset_password reset_by_token reset_found update_user update_password_reset_token
      delete_refresh_tokens_by_user_id
  reset_password_lem token password now s r user found early unused known = ap (answer_token c e) (
      transaction-ok (reset_by_token c e token password now) s
        (some r.user_id, after_reset token password now r s)
        (rw
          (
            found,
            ltb-false_of_le _ _ early,
            unused,
            update_user,
            known,
            update_password_reset_token,
            found,
            delete_refresh_tokens_by_user_id,
            revoke_refresh_tokens_lem (of_user r.user_id),
          )
          refl))

  -- A used token is refused, and nothing is written.
  reset_used :
      (token password : String) (now at : ℕ) (s : Db) (r : PasswordResetToken)
      → reset_row token s ≡ some r
      → now ≤ r.expires_at
      → r.used_at ≡ some at
      → reset_password c e token password now s ≡ (err (app "Token already used" 400), s)
  unfolding reset_password reset_by_token reset_found
  reset_used token password now at s r found early used = ap (answer_token c e) (
      transaction-err (reset_by_token c e token password now) s (app "Token already used" 400)
        (rw (found, ltb-false_of_le _ _ early, used) refl))

  -- The token's row after a reset.
  pub reset_row-after :
      (token password : String) (now : ℕ) (s : Db) (r : PasswordResetToken)
      → reset_row token s ≡ some r
      → reset_row token (after_reset token password now r s) ≡ some (use_at now r)
  reset_row-after token password now s r found =
      find_first-update (λ (x : PasswordResetToken). x.token ==ₛ token)
        (λ (x : PasswordResetToken). x.token ==ₛ token) (use_at now) s.reset_tokens (λ x. refl)
      ∙ ap (Option.map (λ x. if x.token ==ₛ token then use_at now x else x)) found
      ∙ ap some (hit r (find_first-sat (λ x. x.token ==ₛ token) s.reset_tokens r found))
    where
      hit :
          (x : PasswordResetToken)
          → (x.token ==ₛ token) ≡ true
          → (if x.token ==ₛ token then use_at now x else x) ≡ use_at now x
      hit x h = rw h refl

  -- When a reset token is unused, unexpired at both times and belongs to a user with a row, a
  -- reset with it succeeds, leaves no refresh token of the user, and a second reset with it is
  -- refused and changes nothing.
  pub reset_once :
      (token password other : String) (now later : ℕ) (s : Db) (r : PasswordResetToken)
      (user : User)
      → reset_row token s ≡ some r
      → now ≤ r.expires_at
      → later ≤ r.expires_at
      → r.used_at ≡ none
      → find_first (λ (u : User). u.id == r.user_id) s.users ≡ some user
      → (s' : Db) × (reset_password c e token password now s ≡ (ok tt, s'))
        × (count_where (of_user r.user_id) s'.refresh_tokens ≡ 0)
        × (reset_password c e token other later s' ≡ (err (app "Token already used" 400), s'))
  reset_once token password other now later s r user found early early' unused known = (
    after_reset token password now r s,
    reset_password_lem token password now s r user found early unused known,
    count-delete_where (of_user r.user_id) s.refresh_tokens,
    reset_used token other later now _ (use_at now r) (reset_row-after token password now s r found)
        early' refl,
  )
