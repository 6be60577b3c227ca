-- ===== src/Roles/Requests.antt =====
-- The table of roles over any sequence of role requests (role.service.ts).
use express_core.Roles.Table.{
  RolesOk, role_id, role_slug, is_active, create_role_steps-RolesOk, update_row-RolesOk,
  update_slug,
}
use express_core.Roles.Permissions.{validate_access}
use Prim.Native.String
use express_core.Base.{
  zero, suc, ℕ, String, Option, none, some, List, [], ◌∷◌, ◌≡◌, refl, inl, inr, ◌==◌, find_first,
  update_where, Option-cases, or_else, suc,
}
use express_core.Base.Distinct.{Distinct-update_kept}
use express_core.Store.{Role, Db}
use express_core.Store.Exec.{
  Result-cases, Result, ok, err, db, transaction, transaction-ok, transaction-err,
}
use express_core.Accounts.{find_role_by_slug, update_role_row, soft_delete_role, count_users}
use express_core.Activity.{log_activity_rest}
use express_core.Redis.{Redis}
use express_core.Roles.{
  CreateRoleInput, UpdateRoleInput, given, changed, apply_update, create_role, create_checked,
  create_role_steps, update_role_steps, update_role, delete_role_steps, delete_role,
  delete_unassigned, finish, update_checked, validate_given,
}
use express_core.Roles.Revocation.{Known, validate_access_iff}

-- A request to the role service, with what its caller passes.
pub data Request : Type 0 where
  create : CreateRoleInput → Option ℕ → Request
  update : String → UpdateRoleInput → Option ℕ → Request
  delete : String → Option ℕ → ℕ → Request

unfoldable pub handle : (String → String) → Request → Db × Redis → Db × Redis
handle to_lower (create input by) w = ((create_role to_lower input by w.0).1, w.1)
handle to_lower (update slug input by) w = (update_role to_lower slug input by w).1
handle to_lower (delete slug by now) w = (delete_role slug by now w).1

unfoldable pub handle_all : (String → String) → List Request → Db × Redis → Db × Redis
unfolding handle
handle_all to_lower [] w = w
handle_all to_lower (r ∷ rest) w = handle_all to_lower rest (handle to_lower r w)

update_keeps_access :
    (input : UpdateRoleInput) (slug : Option String)
    → validate_given input.access ≡ ok tt
    → (r : Role) → Known r.access
    → Known (apply_update input slug r).access
unfolding apply_update
update_keeps_access input slug valid r k = by_access input.access valid
  where
    by_access : (o : Option (List String)) → validate_given o ≡ ok tt → Known (or_else o r.access)
    by_access none v = k
    by_access (some access) v = (validate_access_iff access).0 v

update_role_steps-RolesOk :
    (to_lower : String → String) (role : Role) (input : UpdateRoleInput) (by : Option ℕ) (s : Db)
    → validate_given input.access ≡ ok tt
    → RolesOk s
    → RolesOk (transaction (update_role_steps to_lower role input by) s).1
unfolding update_role_steps update_role_row
update_role_steps-RolesOk to_lower role input by s valid i =
    let (slug, drawn, d) =
      update_slug to_lower role.id (changed (given input.title) (some role.title)) input s i in
    elim (Option-cases (find_first (λ (r : Role). r.id == role.id) s.roles)) [
      | inl missing ↦
          rw
            (transaction-err (update_role_steps to_lower role input by) s
              (db "record to update not found") (rw (drawn, update_role_row, missing) refl))
            i
      | inr (row, known) ↦
          let s₁ = record s {
            roles = update_where (λ (r : Role). r.id == role.id) (apply_update input slug) s.roles;
          } in
          let (logs, logged) =
            log_activity_rest by "UPDATE" "Role" role.id
              (some (String.◌++◌ "Role updated: " (apply_update input slug row).title)) s₁ in
          let j =
            update_row-RolesOk role.id (apply_update input slug) s d
              (unfold apply_update in λ r. refl) (update_keeps_access input slug valid) i in
          rw
            (transaction-ok (update_role_steps to_lower role input by) s
              (apply_update input slug row, record s₁ { activity_logs = logs })
              (rw (drawn, known, update_role_row, logged) refl))
            (record { distinct = j.distinct; below = j.below; known = j.known })
    ]

delete_role_steps-RolesOk :
    (role : Role) (by : Option ℕ) (now : ℕ) (s : Db)
    → RolesOk s
    → RolesOk (transaction (delete_role_steps role by now) s).1
unfolding delete_role_steps soft_delete_role update_role_row
delete_role_steps-RolesOk role by now s i =
    elim (Option-cases (find_first (λ (r : Role). r.id == role.id) s.roles)) [
      | inl missing ↦
          rw
            (transaction-err (delete_role_steps role by now) s (db "record to update not found")
              (rw (soft_delete_role, update_role_row, missing) refl))
            i
      | inr (row, known) ↦
          let f : Role → Role = λ r. record r { deleted_at = some now } in
          let s₁ = record s { roles = update_where (λ (r : Role). r.id == role.id) f s.roles } in
          let (logs, logged) =
            log_activity_rest by "DELETE" "Role" role.id
              (some (String.◌++◌ "Role deleted: " role.title)) s₁ in
          let j =
            update_row-RolesOk role.id f s
              (Distinct-update_kept role_id role_slug is_active role.id f (λ r. refl)
                (λ r h. absurd (cc h)) s.roles (λ r. refl) i.distinct)
              (λ r. refl) (λ r k. k) i in
          rw
            (transaction-ok (delete_role_steps role by now) s
              (tt, record s₁ { activity_logs = logs })
              (rw (soft_delete_role, update_role_row, known, logged) refl))
            (record { distinct = j.distinct; below = j.below; known = j.known })
    ]

finish_db :
    {A : Type 0} (id : ℕ) (redis : Redis) (r : Result A × Db) → (finish id redis r).1.0 ≡ r.1
finish_db id redis (ok a, s) = refl
finish_db id redis (err e, s) = refl

create_role-RolesOk :
    (to_lower : String → String) (input : CreateRoleInput) (by : Option ℕ) (s : Db)
    → RolesOk s
    → RolesOk (create_role to_lower input by s).1
unfolding create_role
create_role-RolesOk to_lower input by s i = elim (Result-cases (validate_access input.access)) [
  | inr (e, refused) ↦ rw (refused, create_checked) i
  | inl (u, valid) ↦
      let (r, s', done, j) =
        create_role_steps-RolesOk to_lower input by s ((validate_access_iff input.access).0 valid)
          i in
      rw
        (valid, create_checked, transaction-ok (create_role_steps to_lower input by) s (r, s') done)
        j
]

update_role-RolesOk :
    (to_lower : String → String) (slug : String) (input : UpdateRoleInput) (by : Option ℕ)
    (w : Db × Redis)
    → RolesOk w.0
    → RolesOk (update_role to_lower slug input by w).1.0
unfolding update_role
update_role-RolesOk to_lower slug input by w i = elim (Option-cases (find_role_by_slug slug w.0)) [
  | inl missing ↦ rw (missing, update_role) i
  | inr (role, found) ↦ elim (Result-cases (validate_given input.access)) [
    | inr (e, refused) ↦ rw (found, update_role, refused, update_checked) i
    | inl (u, valid) ↦
        rw
          (
            found,
            update_role,
            valid,
            update_checked,
            finish_db role.id w.1 (transaction (update_role_steps to_lower role input by) w.0),
          )
          (update_role_steps-RolesOk to_lower role input by w.0 valid i)
  ]
]

delete_role-RolesOk :
    (slug : String) (by : Option ℕ) (now : ℕ) (w : Db × Redis)
    → RolesOk w.0
    → RolesOk (delete_role slug by now w).1.0
unfolding delete_role
delete_role-RolesOk slug by now w i = elim (Option-cases (find_role_by_slug slug w.0)) [
  | inl missing ↦ rw (missing, delete_role) i
  | inr (role, found) ↦ rw (found, delete_role) (by_count role (count_users role.id w.0))
]
  where
    by_count : (role : Role) (n : ℕ) → RolesOk (delete_unassigned n role by now w).1.0
    by_count role (suc n) = i
    by_count role zero =
        rw (finish_db role.id w.1 (transaction (delete_role_steps role by now) w.0))
          (delete_role_steps-RolesOk role by now w.0 i)

-- When no two roles have the same id, no two active roles share a slug, every role has only
-- permissions of the access list and the sequence of ids is ahead of the ids in the table, the
-- same holds after any sequence of requests that create, update and delete roles, whatever they
-- answer.
pub handle_all-RolesOk :
    (to_lower : String → String) (requests : List Request) (w : Db × Redis)
    → RolesOk w.0
    → RolesOk (handle_all to_lower requests w).0
unfolding handle_all handle
handle_all-RolesOk to_lower [] w i = i
handle_all-RolesOk to_lower (create input by ∷ rest) w i =
    handle_all-RolesOk to_lower rest _ (create_role-RolesOk to_lower input by w.0 i)
handle_all-RolesOk to_lower (update slug input by ∷ rest) w i =
    handle_all-RolesOk to_lower rest _ (update_role-RolesOk to_lower slug input by w i)
handle_all-RolesOk to_lower (delete slug by now ∷ rest) w i =
    handle_all-RolesOk to_lower rest _ (delete_role-RolesOk slug by now w i)
