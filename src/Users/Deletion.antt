-- ===== src/Users/Deletion.antt =====
-- The state after `deleteUser` (user.service.ts).
use Prim.Native.String
use express_core.Base.{
  refl, Option, String, ℕ, some, ◌≡◌, find_first, none, ◌==◌, count_where, update_where,
  delete_where, ap, ==_self,
}
use express_core.Store.Exec.{transaction-ok, ok}
use express_core.Base.RowLaws.{count-delete_where}
use express_core.Accounts.{find_user_by_slug, soft_delete_user, update_user}
use express_core.Auth.Tokens.{delete_refresh_tokens_by_user_id, of_user}
use express_core.Auth.Tokens.Laws.{revoke_refresh_tokens_lem}
use express_core.Activity.{log_activity_rest}
use express_core.Rbac.{Cache, read_user_access, set}
use express_core.Users.{delete_user, delete_steps, drop_access, answer_delete, Db, User, shown}

-- When a slug belongs to an active user with a row, deleting the user succeeds whoever asks,
-- leaves no refresh token of the user, and leaves no cached access of the user.
pub delete_user-ends_access :
    (slug : String) (by : Option ℕ) (now : ℕ) (s : Db) (cache : Cache) (user row : User)
    → find_user_by_slug slug s ≡ some user
    → find_first (λ (u : User). u.id == user.id) s.users ≡ some row
    → (s' : Db) × (delete_user slug by now (s, cache) ≡ (ok tt, (s', drop_access user.id cache)))
      × (count_where (of_user user.id) s'.refresh_tokens ≡ 0)
      × ((read_user_access user.id (drop_access user.id cache)).0 ≡ none)
unfolding delete_user delete_steps soft_delete_user update_user delete_refresh_tokens_by_user_id
    read_user_access set
delete_user-ends_access slug by now s cache user row found known =
    let s₁ = record s {
      users =
          update_where (λ (v : User). v.id == user.id) (λ u. record u { deleted_at = some now })
            s.users;
      refresh_tokens = delete_where (of_user user.id) s.refresh_tokens;
    } in
    let (logs, logged) =
      log_activity_rest by "DELETE" "User" user.id
        (some (String.◌++◌ "User deleted: " (shown user.name))) s₁ in
    let s' = record s₁ { activity_logs = logs } in
    (
      s',
      rw (found, delete_user)
          (ap (answer_delete user.id cache) (
            transaction-ok (delete_steps user by now) s (tt, s')
              (rw
                (
                  known,
                  soft_delete_user,
                  update_user,
                  delete_refresh_tokens_by_user_id,
                  revoke_refresh_tokens_lem (of_user user.id),
                  logged,
                )
                refl))),
      count-delete_where (of_user user.id) s.refresh_tokens,
      rw (==_self user.id) refl,
    )
