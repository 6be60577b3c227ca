-- ===== src/Tests/Roles.antt =====
-- One role, and the slugs of a title.
use express_core.Roles.Table.{RolesOk}
use express_core.Roles.Permissions.{validate_access, all_permissions}
use express_core.Base.{
  ℕ, ◌≤◌, suc, String, none, some, [], ◌∷◌, ◌≡◌, refl, ◌==ₛ◌, ◌⊎◌, eq_iff, arith, true, true,
  find_first, List, delete_where,
}
use express_core.Store.{Role, Db, empty_db}
use express_core.Store.Exec.{ok, err, app}
use express_core.Slug.{make_unique_slug}
use express_core.Slug.Search.{Free, among, make_unique_slug-Free}
use express_core.Accounts.{find_role_by_slug, find_role_by_id, count_users}
use express_core.Rbac.{Entry, read_user_access, version_of, includes}
use express_core.Redis.{Redis}
use express_core.Roles.{
  UpdateRoleInput, update_role, delete_role, still_assigned, invalidate_role_users, validate_given,
}
use express_core.Roles.Revocation.{update_role-revokes, delete_role-outcomes}
use express_core.Roles.Requests.{Request, create, update, delete, handle_all, handle_all-RolesOk}

clash-among : (s : String) → (s ==ₛ "ann") ≡ true → among ("ann" ∷ []) s ≡ true
unfolding among
clash-among s h = ground (arith, eq_iff s "ann", eq_iff "ann" s)

make_unique_slug-Free_example :
    Free (λ s. s ==ₛ "ann") (make_unique_slug (λ t. t) (λ s. s ==ₛ "ann") 2 "ann")
make_unique_slug-Free_example =
    make_unique_slug-Free (λ t. t) (λ s. s ==ₛ "ann") ("ann" ∷ []) 2 "ann" clash-among (omega arith)

abbrev staff : Role
staff = record {
  id = 3;
  slug = "staff";
  title = "Staff";
  user_type = "Administrator";
  description = none;
  access = "module.dashboard.index" ∷ [];
  deleted_at = none;
}

abbrev one_role : Db
one_role = record empty_db { roles = staff ∷ []; next_role_id = 4 }

-- User 7 is cached with the role at version 2.
abbrev cached : Redis
cached = record {
  access = record {
    version = some 2;
    entries = λ u. some (record { user = record { id = u; role = none }; rbac_version = 2 });
    role_users = (3, 7) ∷ [];
  };
  profiles = λ u. none;
}

abbrev rename : UpdateRoleInput
rename = record {
  title = some "Crew";
  user_type = none;
  description = none;
  access = some ("module.activity-log.index" ∷ []);
}

found_staff : find_role_by_slug "staff" one_role ≡ some staff
unfolding find_role_by_slug find_first
found_staff = refl

known_access : validate_given rename.access ≡ ok tt
unfolding validate_access all_permissions includes delete_where
known_access = refl

not_newer :
    (u : ℕ) (x : Entry)
    → cached.access.entries u ≡ some x
    → x.rbac_version ≤ version_of cached.access
not_newer u x h = ground arith

update_role-revokes_example :
    (updated : Role) × (w : Db × Redis) × (update_role
        (λ t. t)
        "staff"
        rename
        (some 1)
        (one_role, cached)
      ≡ (ok updated, w))
    × ((u : ℕ) → (read_user_access u w.1.access).0 ≡ none)
update_role-revokes_example =
    update_role-revokes (λ t. t) "staff" rename (some 1) one_role cached staff found_staff
      known_access not_newer

delete_role-outcomes_example :
    ((n : ℕ) × (count_users 3 one_role ≡ suc n)
      × (delete_role "staff" (some 1) 900 (one_role, cached)
          ≡ (err (app (still_assigned (suc n)) 409), (one_role, cached))))
    ⊎ ((s' : Db) × (delete_role "staff" (some 1) 900 (one_role, cached)
          ≡ (ok tt, (s', invalidate_role_users 3 cached)))
        × (count_users 3 s' ≡ 0)
        × (find_role_by_id 3 s' ≡ none))
delete_role-outcomes_example =
    delete_role-outcomes "staff" (some 1) 900 one_role cached staff found_staff

one_role-RolesOk : RolesOk one_role
unfolding all_permissions includes
one_role-RolesOk = record {
  distinct = (tt, tt);
  below = (omega arith, tt);
  known = ((refl, tt), tt);
}

abbrev three_requests : List Request
three_requests =
    create
      (record {
        title = "Staff";
        user_type = "Member";
        description = none;
        access = "module.dashboard.index" ∷ [];
      })
      (some 1)
    ∷ update "staff" rename (some 1)
    ∷ delete "staff" none 900
    ∷ []

handle_all-RolesOk_example : RolesOk (handle_all (λ t. t) three_requests (one_role, cached)).0
handle_all-RolesOk_example =
    handle_all-RolesOk (λ t. t) three_requests (one_role, cached) one_role-RolesOk
