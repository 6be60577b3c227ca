-- ===== src/Roles/Permissions.antt =====
-- src/modules/role/role.permissions.ts, and `_validateAccess` of role.service.ts.
use Prim.Native.String
use express_core.Base.{[], ◌∷◌, ◌++◌, List, String, delete_where}
use express_core.Store.Exec.{Result, ok, err, app}
use express_core.Rbac.{includes}

pub record PermissionActivity : Type 0 where
  pub label : String
  pub value : String

pub record PermissionSubModule : Type 0 where
  pub module_name : String
  pub activities : List PermissionActivity

pub record PermissionModule : Type 0 where
  pub module_name : String
  pub sub_modules : List PermissionSubModule

abbrev activity : String → String → PermissionActivity
activity l v = record { label = l; value = v }

abbrev sub_module : String → List PermissionActivity → PermissionSubModule
sub_module m xs = record { module_name = m; activities = xs }

-- ACCESS_LIST
abbrev pub access_list : List PermissionModule
access_list =
    (record {
      module_name = "Dashboard";
      sub_modules =
          sub_module "Dashboard" (activity "Menu Dashboard" "module.dashboard.index" ∷ []) ∷ [];
    })
    ∷ (record {
      module_name = "Data Master";
      sub_modules =
          sub_module "Role" (
            activity "Menu Role" "module.master-data.role.index"
            ∷ activity "Add Role" "module.master-data.role.create"
            ∷ activity "Edit Role" "module.master-data.role.edit"
            ∷ activity "Delete Role" "module.master-data.role.delete"
            ∷ [])
          ∷ sub_module "User" (
              activity "Menu User" "module.master-data.user.index"
              ∷ activity "Add User" "module.master-data.user.create"
              ∷ activity "Edit User" "module.master-data.user.edit"
              ∷ activity "Delete User" "module.master-data.user.delete"
              ∷ [])
          ∷ sub_module "Email Template" (
              activity "Menu Email Template" "module.master-data.email-template.index"
              ∷ activity "Edit Email Template" "module.master-data.email-template.edit"
              ∷ [])
          ∷ [];
    })
    ∷ (record {
      module_name = "History";
      sub_modules =
          sub_module "Activity Log" (
            activity "Menu Activity Log" "module.activity-log.index"
            ∷ activity "Activity Log Details" "module.activity-log.detail"
            ∷ [])
          ∷ [];
    })
    ∷ []

abbrev values : List PermissionActivity → List String
values [] = []
values (a ∷ rest) = a.value ∷ values rest

abbrev sub_values : List PermissionSubModule → List String
sub_values [] = []
sub_values (m ∷ rest) = values m.activities ++ sub_values rest

-- The `flatMap` of ALL_PERMISSIONS.
abbrev pub module_values : List PermissionModule → List String
module_values [] = []
module_values (m ∷ rest) = sub_values m.sub_modules ++ module_values rest

unfoldable pub all_permissions : List String
all_permissions = module_values access_list

unfoldable pub invalid_access : List String → List String
invalid_access access = delete_where (includes all_permissions) access

unfoldable pub join : String → List String → String
join sep [] = ""
join sep (x ∷ []) = x
join sep (x ∷ y ∷ ys) = String.◌++◌ x (String.◌++◌ sep (join sep (y ∷ ys)))

abbrev refuse_invalid : List String → Result (Unit {0})
refuse_invalid [] = ok tt
refuse_invalid (x ∷ xs) =
    err (app (String.◌++◌ "Invalid permission value(s): " (join ", " (x ∷ xs))) 400)

-- _validateAccess
unfoldable pub validate_access : List String → Result (Unit {0})
unfolding invalid_access
validate_access access = refuse_invalid (invalid_access access)
