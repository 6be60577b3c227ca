-- ===== src/Roles.antt =====
-- src/modules/role/role.service.ts and src/modules/role/role.permissions.ts. The cache key
-- `role:${slug}` that an update or a deletion drops is written by no code. Redis and the database
-- answer; the audit entry's old and new values are left out.
pub mod Permissions
pub mod Table
pub mod Revocation
pub mod Requests
use express_core.Roles.Permissions.{validate_access}
use Prim.Native.String
use express_core.Base.{
  [], ◌∷◌, ◌++◌, List, Option, ℕ, zero, suc, none, some, Bool, true, false, not, String, ◌==◌,
  ◌==ₛ◌, ◌&&◌, if◌then◌else◌, or_else, delete_where,
}
use express_core.Store.{Role, Db}
use express_core.Store.Exec.{Tx, Exec, Result, ok, err, app, pure, throw, transaction, ◌>>=◌, ◌>>◌}
use express_core.Slug.Decimal.{decimal}
use express_core.Accounts.{
  find_role_by_slug, create_role_row, update_role_row, soft_delete_role, count_users,
}
use express_core.Accounts.Slugs.{fresh_role_slug}
use express_core.Activity.{log_activity}
use express_core.Redis.{Redis}
use express_core.Rbac.{Cache, Entry, includes, invalidate_access, set}

pub record CreateRoleInput : Type 0 where
  pub title : String
  pub user_type : String
  pub description : Option String
  pub access : List String

-- A field left out is none; a description may be sent as null.
pub record UpdateRoleInput : Type 0 where
  pub title : Option String
  pub user_type : Option String
  pub description : Option (Option String)
  pub access : Option (List String)

-- A text that is sent and not empty.
abbrev pub given : Option String → Option String
given none = none
given (some t) = if t ==ₛ "" then none else some t

-- `data.title && data.title !== role.title`
abbrev pub changed : Option String → Option String → Option String
changed none old = none
changed (some t) none = some t
changed (some t) (some u) = if t ==ₛ u then none else some t

unfoldable pub create_role_steps : (String → String) → CreateRoleInput → Option ℕ → Tx Role
create_role_steps to_lower input created_by = do
  slug ← fresh_role_slug to_lower none input.title
  role ← create_role_row (record {
    id = 0;
    slug = slug;
    title = input.title;
    user_type = input.user_type;
    description = input.description;
    access = input.access;
    deleted_at = none;
  })
  log_activity created_by "CREATE" "Role" (some role.id)
      (some (String.◌++◌ "Role created: " role.title))
  pure role

abbrev create_checked :
    Result (Unit {0}) → (String → String) → CreateRoleInput → Option ℕ → Exec Role
create_checked (err e) to_lower input created_by s = (err e, s)
create_checked (ok u) to_lower input created_by s =
    transaction (create_role_steps to_lower input created_by) s

unfoldable pub create_role : (String → String) → CreateRoleInput → Option ℕ → Exec Role
create_role to_lower input created_by =
    create_checked (validate_access input.access) to_lower input created_by

abbrev new_slug : (String → String) → ℕ → Option String → Tx (Option String)
new_slug to_lower id none = pure none
new_slug to_lower id (some title) = do
  slug ← fresh_role_slug to_lower (some id) title
  pure (some slug)

-- The columns that an update writes: `newSlug &&` skips an empty slug.
unfoldable pub apply_update : UpdateRoleInput → Option String → Role → Role
apply_update input slug r = record r {
  title = or_else (given input.title) r.title;
  slug = or_else (given slug) r.slug;
  user_type = or_else (given input.user_type) r.user_type;
  description = or_else input.description r.description;
  access = or_else input.access r.access;
}

unfoldable pub update_role_steps : (String → String) → Role → UpdateRoleInput → Option ℕ → Tx Role
update_role_steps to_lower role input updated_by = do
  slug ← new_slug to_lower role.id (changed (given input.title) (some role.title))
  updated ← update_role_row role.id (apply_update input slug)
  log_activity updated_by "UPDATE" "Role" (some role.id)
      (some (String.◌++◌ "Role updated: " updated.title))
  pure updated

-- smembers of `role-users:${id}`
unfoldable pub members : ℕ → List (ℕ × ℕ) → List ℕ
members role_id [] = []
members role_id ((r, u) ∷ rest) =
    let more = members role_id rest in if r == role_id then u ∷ more else more

-- del of one key for each id
unfoldable pub drop_all {ℓ} : {A : Type ℓ} → A → List ℕ → (ℕ → A) → ℕ → A
unfolding set
drop_all nothing [] f = f
drop_all nothing (u ∷ us) f = set (drop_all nothing us f) u nothing

-- srem of the members read, which are all that the set has.
unfoldable pub untrack : ℕ → List (ℕ × ℕ) → List (ℕ × ℕ)
untrack role_id pairs = delete_where (λ (p : ℕ × ℕ). p.0 == role_id) pairs

unfoldable pub invalidate_role_users : ℕ → Redis → Redis
unfolding members drop_all untrack
invalidate_role_users role_id redis =
    let bumped = invalidate_access redis.access in
    let users = members role_id bumped.role_users in
    record {
      access = record bumped {
        entries = drop_all none users bumped.entries;
        role_users = untrack role_id bumped.role_users;
      };
      profiles = drop_all none users redis.profiles;
    }

-- After the commit, and only then.
abbrev finish {ℓ} : {A : Type ℓ} → ℕ → Redis → Result A × Db → Result A × (Db × Redis)
finish role_id redis (ok a, s) = (ok a, (s, invalidate_role_users role_id redis))
finish role_id redis (err e, s) = (err e, (s, redis))

abbrev pub validate_given : Option (List String) → Result (Unit {0})
validate_given none = ok tt
validate_given (some access) = validate_access access

abbrev update_checked :
    Result (Unit {0})
    → (String → String)
    → Role
    → UpdateRoleInput
    → Option ℕ
    → Db × Redis
    → Result Role × (Db × Redis)
update_checked (err e) to_lower role input updated_by w = (err e, w)
update_checked (ok u) to_lower role input updated_by w =
    finish role.id w.1 (transaction (update_role_steps to_lower role input updated_by) w.0)

unfoldable pub update_role :
    (String → String)
    → String
    → UpdateRoleInput
    → Option ℕ
    → Db × Redis
    → Result Role × (Db × Redis)
update_role to_lower slug input updated_by w = elim (find_role_by_slug slug w.0) [
  | none ↦ (err (app "Role not found" 404), w)
  | some role ↦ update_checked (validate_given input.access) to_lower role input updated_by w
]

unfoldable pub delete_role_steps : Role → Option ℕ → ℕ → Tx (Unit {0})
delete_role_steps role deleted_by now = do
  soft_delete_role role.id now
  log_activity deleted_by "DELETE" "Role" (some role.id)
      (some (String.◌++◌ "Role deleted: " role.title))
  pure tt

unfoldable pub still_assigned : ℕ → String
still_assigned n =
    String.◌++◌ "Cannot delete role: "
      (String.◌++◌ (decimal n) " user(s) are still assigned to this role")

abbrev delete_unassigned : ℕ → Role → Option ℕ → ℕ → Db × Redis → Result (Unit {0}) × (Db × Redis)
delete_unassigned (suc n) role deleted_by now w = (err (app (still_assigned (suc n)) 409), w)
delete_unassigned zero role deleted_by now w =
    finish role.id w.1 (transaction (delete_role_steps role deleted_by now) w.0)

unfoldable pub delete_role : String → Option ℕ → ℕ → Db × Redis → Result (Unit {0}) × (Db × Redis)
delete_role slug deleted_by now w = elim (find_role_by_slug slug w.0) [
  | none ↦ (err (app "Role not found" 404), w)
  | some role ↦ delete_unassigned (count_users role.id w.0) role deleted_by now w
]
