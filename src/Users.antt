-- ===== src/Users.antt =====
-- `deleteUser` of src/modules/user/user.service.ts. The avatar's file, which storage.service.ts
-- removes, is not modelled.
pub mod Deletion
pub mod Admin
use Prim.Native.String.{String}
use Prim.Native.String
use express_core.Base.{[], ◌∷◌, Option, ℕ, some, none}
use express_core.Store.{ActivityLog, User, Db}
use express_core.Store.Exec.{Tx, Exec, Result, ok, err, app, pure, transaction, ◌>>=◌, ◌>>◌}
use express_core.Activity.{log_activity}
use express_core.Accounts.{find_user_by_slug, soft_delete_user}
use express_core.Auth.Tokens.{delete_refresh_tokens_by_user_id}
use express_core.Rbac.{Cache, invalidate_access, set}

abbrev pub shown : Option String → String
shown none = "null"
shown (some t) = t

-- The transaction of deleteUser.
unfoldable pub delete_steps : User → Option ℕ → ℕ → Tx (Unit {0})
delete_steps user deleted_by now = do
  soft_delete_user user.id now
  delete_refresh_tokens_by_user_id user.id
  log_activity deleted_by "DELETE" "User" (some user.id)
      (some (String.◌++◌ "User deleted: " (shown user.name)))
  pure tt

-- After the commit: the version is bumped and the user's entry dropped.
abbrev pub drop_access : ℕ → Cache → Cache
drop_access user_id cache =
    let bumped = invalidate_access cache in
    record bumped { entries = set bumped.entries user_id none }

abbrev answer_delete : ℕ → Cache → Result (Unit {0}) × Db → Result (Unit {0}) × (Db × Cache)
answer_delete user_id cache (ok r, s) = (ok r, (s, drop_access user_id cache))
answer_delete user_id cache (err x, s) = (err x, (s, cache))

unfoldable pub delete_user : String → Option ℕ → ℕ → Db × Cache → Result (Unit {0}) × (Db × Cache)
delete_user slug deleted_by now w = elim (find_user_by_slug slug w.0) [
  | none ↦ (err (app "User not found" 404), w)
  | some user ↦ answer_delete user.id w.1 (transaction (delete_steps user deleted_by now) w.0)
]
