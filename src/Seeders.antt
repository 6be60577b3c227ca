-- ===== src/Seeders.antt =====
-- src/seeders and src/scripts/seed.ts: the role, the administrator and the e-mail templates that an
-- installation starts with. What the seeders report is left out.
mod Granting
pub mod Twice
use Prim.Native.String
use express_core.Base.{
  ℕ, ◌+◌, String, Bool, true, Option, none, some, List, [], ◌∷◌, ◌++◌, ◌==◌, is_some, find_first,
  update_where, delete_where, if◌then◌else◌, not, ◌||◌,
}
use express_core.Store.{Role, User, EmailTemplate, Db}
use express_core.Store.Exec.{Tx, Result, ok, err, other, pure, throw, ◌>>=◌, ◌>>◌}
use express_core.Crypto.{Crypto}
use express_core.Accounts.{find_role_by_slug, create_role_row, find_user_by_email, create_user}
use express_core.Accounts.Slugs.{fresh_user_slug}
use express_core.Rbac.{includes}
use express_core.Roles.Permissions.{all_permissions}
use express_core.Templates.Catalog.{
  TemplateKey, verify_email, email_verified, reset_password, registration_code, key_name, catalog,
}
use express_core.Templates.Service.{find_by_key}

-- The permissions that an access list lacks.
abbrev pub lacking : List String → List String → List String
lacking access permissions = delete_where (includes access) permissions

-- `access || …`: what the row still lacks is appended.
abbrev pub append_access : List String → Role → Role
append_access missing r = record r { access = r.access ++ lacking r.access missing }

abbrev pub grant_missing : List String → ℕ → Db → Db
grant_missing [] id s = s
grant_missing (p ∷ ps) id s = record s {
  roles = update_where (λ (r : Role). r.id == id) (append_access (p ∷ ps)) s.roles;
}

unfoldable pub grant_permissions : Role → List String → Db → Db
grant_permissions role permissions s = grant_missing (lacking role.access permissions) role.id s

abbrev pub super_admin : Role
super_admin = record {
  id = 0;
  slug = "super-admin";
  title = "Super Administrator";
  user_type = "Administrator";
  description = some "Full access to all modules";
  access = all_permissions;
  deleted_at = none;
}

unfoldable pub seed_role : Tx (Unit {0})
unfolding grant_permissions
seed_role s = elim (find_role_by_slug "super-admin" s) [
  | none ↦ (create_role_row super_admin >>= λ r. pure tt) s
  | some role ↦ ok (tt, grant_permissions role all_permissions s)
]

abbrev pub admin_user : Crypto → String → Role → User
admin_user c slug role = record {
  id = 0;
  name = some "Administrator";
  slug = some slug;
  email = some "admin@admin.com";
  password = some (c.bcrypt_hash "password");
  avatar = none;
  role_id = some role.id;
  is_email_verified = true;
  deleted_at = none;
}

abbrev pub insert_admin : Crypto → (String → String) → Option Role → Tx (Unit {0})
insert_admin c to_lower none =
    throw (other "Role \"super-admin\" not found; run the \"role\" seeder first")
insert_admin c to_lower (some role) = do
  slug ← fresh_user_slug to_lower none "Administrator"
  user ← create_user (admin_user c slug role)
  pure tt

unfoldable pub seed_admin : Crypto → (String → String) → Tx (Unit {0})
seed_admin c to_lower s =
    if is_some (find_user_by_email "admin@admin.com" s)
    then ok (tt, s)
    else insert_admin c to_lower (find_role_by_slug "super-admin" s) s

-- One row of createMany: a key that is there is skipped.
unfoldable pub seed_template : TemplateKey → Db → Db
seed_template key s = elim (find_by_key (key_name key) s) [
  | some r ↦ s
  | none ↦ record s {
    email_templates =
        (record {
          id = s.next_email_template_id;
          key = key_name key;
          title = (catalog key).title;
          subject = (catalog key).subject;
          body = (catalog key).body;
          is_active = true;
        })
        ∷ s.email_templates;
    next_email_template_id = s.next_email_template_id + 1;
  }
]

unfoldable pub seed_templates : Tx (Unit {0})
unfolding seed_template
seed_templates s = ok (
  tt,
  seed_template registration_code
      (seed_template reset_password (seed_template email_verified (seed_template verify_email s))),
)

pub record Seeder : Type 0 where
  name : String
  run : Tx (Unit {0})

-- SEEDERS, in their order.
unfoldable pub seeders : Crypto → (String → String) → List Seeder
unfolding seed_role seed_admin seed_templates
seeders c to_lower =
    (record { name = "role"; run = seed_role })
    ∷ (record { name = "admin-user"; run = seed_admin c to_lower })
    ∷ (record { name = "email-template"; run = seed_templates })
    ∷ []

abbrev pub names : List Seeder → List String
names [] = []
names (x ∷ xs) = x.name ∷ names xs

abbrev pub selected : List String → List Seeder → List Seeder
selected [] xs = xs
selected (a ∷ argv) xs = delete_where (λ (x : Seeder). not (includes (a ∷ argv) x.name)) xs

-- The exit code; a seeder makes one write at most, and what earlier ones wrote stays.
unfoldable pub run_seeders : List Seeder → Db → ℕ × Db
run_seeders [] s = (0, s)
run_seeders (x ∷ xs) s = elim (x.run s) [ ok r ↦ run_seeders xs r.1 | err e ↦ (1, s) ]

abbrev pub run_known : List String → List String → List Seeder → Db → ℕ × Db
run_known [] argv all s = run_seeders (selected argv all) s
run_known (u ∷ unknown) argv all s = (1, s)

-- The arguments are names of seeders, or ask for help.
unfoldable pub run : Crypto → (String → String) → List String → Db → ℕ × Db
unfolding seeders run_seeders
run c to_lower argv s =
    if includes argv "--help" || includes argv "-h"
    then (0, s)
    else run_known (delete_where (includes (names (seeders c to_lower))) argv) argv
        (seeders c to_lower) s
