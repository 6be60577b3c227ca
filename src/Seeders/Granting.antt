-- ===== src/Seeders/Granting.antt =====
-- The super-admin role and the administrator that the seeders leave (src/seeders).
use express_core.Base.{
  String, true, none, some, List, [], ◌∷◌, ◌++◌, ◌≡◌, refl, sym, ap, ◌∙◌, inl, inr, ◌||◌, ◌==◌,
  is_some, All, find_first, delete_where, Bool-cases, Option-cases, arith, eq_refl, ==_self, ◌+◌,
}
use express_core.Base.Distinct.{All-map}
use express_core.Base.RowLaws.{find_first-update, count-delete_where, delete_where_of_count}
use express_core.Store.{Role, Db}
use express_core.Store.Exec.{ok}
use express_core.Crypto.{Crypto}
use express_core.Accounts.{
  find_role_by_slug, role_has_slug, create_role_row, find_user_by_email, create_user,
}
use express_core.Accounts.Keys.{fresh_user_slug-unused}
use express_core.Rbac.{includes}
use express_core.Roles.Permissions.{all_permissions}
use express_core.Seeders.{
  lacking, append_access, grant_missing, grant_permissions, seed_role, insert_admin, seed_admin,
  super_admin, User, admin_user,
}

includes-append :
    (xs ys : List String) (p : String) → includes (xs ++ ys) p ≡ (includes xs p || includes ys p)
unfolding includes
includes-append [] ys p = refl
includes-append (x ∷ xs) ys p = ground (arith, includes-append xs ys p)

-- Each permission is in the list or in what it lacks.
covered :
    (access ps : List String)
    → All (λ p. (includes access p || includes (lacking access ps) p) ≡ true) ps
unfolding includes delete_where
covered access [] = tt
covered access (p ∷ ps) = elim (Bool-cases (includes access p)) [
  | inl e ↦ (ground arith, All-map ps (λ q h. ground arith) (covered access ps))
  | inr e ↦ (ground (arith, eq_refl p), All-map ps (λ q h. ground arith) (covered access ps))
]

lacking-none :
    (access ps : List String) → All (λ p. includes access p ≡ true) ps → lacking access ps ≡ []
unfolding delete_where
lacking-none access [] h = refl
lacking-none access (p ∷ ps) h = rw h.0 (lacking-none access ps h.1)

lacking-granted : (access ps : List String) → lacking (access ++ lacking access ps) ps ≡ []
lacking-granted access ps =
    lacking-none (access ++ lacking access ps) ps
      (All-map ps (λ p h. includes-append access (lacking access ps) p ∙ h) (covered access ps))

-- What is lacking is still lacking when it is granted.
lacking-lacking : (access ps : List String) → lacking access (lacking access ps) ≡ lacking access ps
lacking-lacking access ps =
    delete_where_of_count (includes access) (lacking access ps)
      (count-delete_where (includes access) ps)

-- The active role holds every permission.
pub record RoleSeeded (s : Db) : Type 0 where
  pub role : Role
  pub found : find_role_by_slug "super-admin" s ≡ some role
  pub complete : lacking role.access all_permissions ≡ []

pub RoleSeeded-again : (s : Db) → RoleSeeded s → seed_role s ≡ ok (tt, s)
unfolding seed_role
RoleSeeded-again s r =
    rw (r.found, seed_role) (ap (λ m. ok (tt, grant_missing m r.role.id s)) r.complete)

grant-RoleSeeded :
    (s : Db) (role : Role)
    → find_role_by_slug "super-admin" s ≡ some role
    → RoleSeeded (grant_permissions role all_permissions s)
unfolding grant_permissions find_role_by_slug
grant-RoleSeeded s role found = by_missing (lacking role.access all_permissions) refl
  where
    by_missing :
        (m : List String)
        → lacking role.access all_permissions ≡ m
        → RoleSeeded (grant_missing m role.id s)
    by_missing [] e = record { role = role; found = found; complete = e }
    by_missing (p ∷ ps) e = record {
      role = append_access (p ∷ ps) role;
      found =
          find_first-update (role_has_slug "super-admin") (λ (r : Role). r.id == role.id)
            (append_access (p ∷ ps)) s.roles (λ r. refl)
          ∙ rw found (rw (==_self role.id) refl);
      complete =
          ap (λ m. lacking (role.access ++ lacking role.access m) all_permissions) (sym e)
          ∙ ap (λ m. lacking (role.access ++ m) all_permissions)
              (lacking-lacking role.access all_permissions)
          ∙ lacking-granted role.access all_permissions;
    }

-- The role seeder.
pub seed_role-RoleSeeded : (s : Db) → (s' : Db) × (seed_role s ≡ ok (tt, s')) × RoleSeeded s'
unfolding seed_role
seed_role-RoleSeeded s = elim (Option-cases (find_role_by_slug "super-admin" s)) [
  | inr (role, found) ↦ (
    grant_permissions role all_permissions s,
    rw (found, seed_role) refl,
    grant-RoleSeeded s role found,
  )
  | inl missing ↦
      let row : Role = record super_admin { id = s.next_role_id } in
      (
        record s { roles = row ∷ s.roles; next_role_id = s.next_role_id + 1 },
        unfold create_role_row in rw (missing, seed_role) refl,
        record {
          role = row;
          found = unfold find_role_by_slug find_first in refl;
          complete = unfold all_permissions includes delete_where in refl;
        },
      )
]

unfoldable pub AdminSeeded : Db → Type 0
AdminSeeded s = is_some (find_user_by_email "admin@admin.com" s) ≡ true

pub seed_admin-AdminSeeded :
    (c : Crypto) (to_lower : String → String) (s : Db)
    → RoleSeeded s
    → (s' : Db) × (seed_admin c to_lower s ≡ ok (tt, s')) × RoleSeeded s' × AdminSeeded s'
unfolding seed_admin AdminSeeded
seed_admin-AdminSeeded c to_lower s r =
    elim (Bool-cases (is_some (find_user_by_email "admin@admin.com" s))) [
      | inl e ↦ (s, rw e refl, r, e)
      | inr e ↦
          let (slug, drawn, free) = fresh_user_slug-unused to_lower none "Administrator" s in
          let row : User = record (admin_user c slug r.role) { id = s.next_user_id } in
          let s' : Db = record s { users = row ∷ s.users; next_user_id = s.next_user_id + 1 } in
          let found' : find_role_by_slug "super-admin" s' ≡ some r.role =
            unfold find_role_by_slug in r.found in
          let there : is_some (find_user_by_email "admin@admin.com" s') ≡ true =
            unfold find_user_by_email find_first in refl in
          (
            s',
            rw e (
                rw (r.found, insert_admin) (rw (drawn, insert_admin) (unfold create_user in refl))),
            record { role = r.role; found = found'; complete = r.complete },
            there,
          )
    ]
