-- ===== src/Users/Admin.antt =====
-- `createUser` and `updateUser` of src/modules/user/user.service.ts. Avatar files are not modelled;
-- `roleId` comes as the number that Number() reads.
pub mod Updates
pub mod Table
pub mod Keys
use Prim.Native.String
use express_core.Base.{
  ℕ, String, Bool, true, false, Option, none, some, is_some, or_else, if◌then◌else◌, ◌==ₛ◌, ◌==◌,
}
use express_core.Store.{User, Db}
use express_core.Store.Exec.{
  Tx, Exec, Result, ok, err, app, pure, throw, gets, transaction, ◌>>=◌, ◌>>◌,
}
use express_core.Crypto.{Crypto}
use express_core.Accounts.{find_user_by_email, find_user_by_slug, create_user, update_user}
use express_core.Accounts.Slugs.{fresh_user_slug}
use express_core.Activity.{log_activity}
use express_core.Rbac.{Cache}
use express_core.Roles.{given, changed}
use express_core.Users.{shown, drop_access}

pub record CreateUserInput : Type 0 where
  pub name : String
  pub email : String
  pub password : String
  pub role_id : ℕ
  pub avatar : Option String

-- A field left out is none.
pub record UpdateUserInput : Type 0 where
  pub name : Option String
  pub email : Option String
  pub password : Option String
  pub role_id : Option ℕ
  pub avatar : Option String

abbrev new_user : Crypto → CreateUserInput → String → User
new_user c input slug = record {
  id = 0;
  name = some input.name;
  slug = some slug;
  email = some input.email;
  password = some (c.bcrypt_hash input.password);
  avatar = input.avatar;
  role_id = some input.role_id;
  is_email_verified = true;
  deleted_at = none;
}

unfoldable pub insert_user : Crypto → (String → String) → CreateUserInput → Option ℕ → Tx User
insert_user c to_lower input created_by = do
  slug ← fresh_user_slug to_lower none input.name
  user ← create_user (new_user c input slug)
  log_activity created_by "CREATE" "User" (some user.id)
      (some (String.◌++◌ "User created: " (shown user.name)))
  pure user

unfoldable pub create_user_steps : Crypto → (String → String) → CreateUserInput → Option ℕ → Tx User
create_user_steps c to_lower input created_by = do
  existing ← gets (find_user_by_email input.email)
  if is_some existing
      then throw (app "Email already in use" 400)
      else insert_user c to_lower input created_by

unfoldable pub admin_create_user :
    Crypto → (String → String) → CreateUserInput → Option ℕ → Exec User
unfolding create_user_steps
admin_create_user c to_lower input created_by =
    transaction (create_user_steps c to_lower input created_by)

abbrev pub new_slug : (String → String) → ℕ → Option String → Tx (Option String)
new_slug to_lower id none = pure none
new_slug to_lower id (some name) = do
  slug ← fresh_user_slug to_lower (some id) name
  pure (some slug)

abbrev pub or_old : Option String → Option String → Option String
or_old none old = old
or_old (some t) old = some t

abbrev pub hashed : Crypto → Option String → Option String
hashed c none = none
hashed c (some password) = some (c.bcrypt_hash password)

abbrev or_old_role : Option ℕ → Option ℕ → Option ℕ
or_old_role none old = old
or_old_role (some id) old = if id == 0 then old else some id

-- The columns that an update writes; a password that was sent is hashed first.
unfoldable pub apply_user_update : Crypto → UpdateUserInput → Option String → User → User
apply_user_update c input slug u = record u {
  name = or_old (given input.name) u.name;
  slug = or_old (given slug) u.slug;
  email = or_old (given input.email) u.email;
  role_id = or_old_role input.role_id u.role_id;
  avatar = or_old (given input.avatar) u.avatar;
  password = or_old (hashed c (given input.password)) u.password;
}

unfoldable pub update_user_steps :
    Crypto → (String → String) → User → UpdateUserInput → Option ℕ → Tx User
update_user_steps c to_lower user input updated_by = do
  slug ← new_slug to_lower user.id (changed (given input.name) user.name)
  updated ← update_user user.id (apply_user_update c input slug)
  log_activity updated_by "UPDATE" "User" (some user.id)
      (some (String.◌++◌ "User updated: " (shown updated.name)))
  pure updated

-- `data.email && data.email !== user.email`, and an active user has it.
abbrev pub email_in_use : Option String → Db → Bool
email_in_use none s = false
email_in_use (some email) s = is_some (find_user_by_email email s)

abbrev finish : ℕ → Cache → Result User × Db → Result User × (Db × Cache)
finish user_id cache (ok r, s) = (ok r, (s, drop_access user_id cache))
finish user_id cache (err e, s) = (err e, (s, cache))

abbrev update_found :
    Bool
    → Crypto
    → (String → String)
    → User
    → UpdateUserInput
    → Option ℕ
    → Db × Cache
    → Result User × (Db × Cache)
update_found true c to_lower user input updated_by w = (err (app "Email already in use" 400), w)
update_found false c to_lower user input updated_by w =
    finish user.id w.1 (transaction (update_user_steps c to_lower user input updated_by) w.0)

unfoldable pub admin_update_user :
    Crypto
    → (String → String)
    → String
    → UpdateUserInput
    → Option ℕ
    → Db × Cache
    → Result User × (Db × Cache)
admin_update_user c to_lower slug input updated_by w = elim (find_user_by_slug slug w.0) [
  | none ↦ (err (app "User not found" 404), w)
  | some user ↦
      update_found (email_in_use (changed (given input.email) user.email) w.0) c to_lower user input
        updated_by w
]
