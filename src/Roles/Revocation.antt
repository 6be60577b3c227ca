-- ===== src/Roles/Revocation.antt =====
-- Access after a role is changed or deleted (role.service.ts).
use express_core.Roles.Permissions.{all_permissions, invalid_access, validate_access}
use Prim.Native.String
use express_core.Base.{
  ℕ, ◌+◌, ◌≤◌, zero, suc, String, true, Option, none, some, List, [], ◌∷◌, ◌≡◌, refl, ap, ◌∙◌, ◌⊎◌,
  inl, inr, ◌==◌, is_some, not, ◌&&◌, find_first, update_where, delete_where, All, arith,
  Bool-cases, ==_self, ◌↔◌,
}
use express_core.Base.RowLaws.{find_first-weaker}
use express_core.Store.{Role, Db}
use express_core.Store.Exec.{ok, err, app, transaction-ok}
use express_core.Accounts.{
  find_role_by_slug, find_role_by_id, update_role_row, soft_delete_role, count_users,
}
use express_core.Accounts.Keys.{fresh_role_slug-unused}
use express_core.Activity.{log_activity_rest}
use express_core.Rbac.{
  Entry, includes, invalidate_access, read_user_access, version_of, set, current,
}
use express_core.Redis.{Redis}
use express_core.Roles.{
  UpdateRoleInput, new_slug, given, changed, apply_update, update_role_steps, update_role,
  delete_role_steps, delete_role, delete_unassigned, finish, update_checked, validate_given,
  invalidate_role_users, drop_all, still_assigned,
}

-- Every permission of a role is one of ALL_PERMISSIONS.
abbrev pub Known : List String → Type 0
Known access = All (λ p. includes all_permissions p ≡ true) access

invalid_access_iff : (access : List String) → (invalid_access access ≡ []) ↔ Known access
unfolding invalid_access delete_where
invalid_access_iff [] = ((λ h. tt), (λ h. refl))
invalid_access_iff (p ∷ rest) = elim (Bool-cases (includes all_permissions p)) [
  | inl e ↦ (
    (λ h. (e, (invalid_access_iff rest).0 (ground arith))),
    (λ h. let ih = (invalid_access_iff rest).1 h.1 in ground arith),
  )
  | inr e ↦ ((λ h. absurd (ground arith)), (λ h. absurd (let k = h.0 in cc)))
]

pub validate_access_iff : (access : List String) → (validate_access access ≡ ok tt) ↔ Known access
unfolding validate_access
validate_access_iff access = elim (list_cases (invalid_access access)) [
  | inl e ↦ ((λ h. (invalid_access_iff access).0 e), (λ h. ground arith))
  | inr e ↦ (
    (λ h. absurd (let k = e.2 in ground arith)),
    (λ h. absurd (let k = (invalid_access_iff access).1 h in let m = e.2 in cc)),
  )
]
  where
    list_cases :
        (xs : List String) → (xs ≡ []) ⊎ ((y : String) × (ys : List String) × (xs ≡ y ∷ ys))
    list_cases [] = inl refl
    list_cases (y ∷ ys) = inr (y, ys, refl)

-- An entry is dropped or stays as it was.
drop_all-cases {ℓ} :
    {A : Type ℓ} (nothing : A) (us : List ℕ) (f : ℕ → A) (u : ℕ)
    → (drop_all nothing us f u ≡ nothing) ⊎ (drop_all nothing us f u ≡ f u)
unfolding drop_all set
drop_all-cases nothing [] f u = inr refl
drop_all-cases nothing (v ∷ us) f u = elim (Bool-cases (u == v)) [
  | inl e ↦ inl (rw e refl)
  | inr e ↦ rw e (drop_all-cases nothing us f u)
]

outdated :
    (version : ℕ) (x : Option Entry)
    → ((e : Entry) → x ≡ some e → e.rbac_version ≤ version)
    → current (version + 1) x ≡ none
outdated version none h = refl
outdated version (some e) h = let k = h e refl in ground arith

pub invalidate_role_users-revokes :
    (role_id : ℕ) (redis : Redis)
    → ((u : ℕ) (x : Entry)
        → redis.access.entries u ≡ some x
        → x.rbac_version ≤ version_of redis.access)
    → (u : ℕ) → (read_user_access u (invalidate_role_users role_id redis).access).0 ≡ none
unfolding invalidate_role_users invalidate_access read_user_access
invalidate_role_users-revokes role_id redis old u =
    elim (drop_all-cases none _ redis.access.entries u) [
      | inl e ↦ ap (current _) e
      | inr e ↦
          ap (current _) e ∙ outdated (version_of redis.access) (redis.access.entries u) (old u)
    ]

new_slug-ok :
    (to_lower : String → String) (id : ℕ) (t : Option String) (s : Db)
    → (o : Option String) × (new_slug to_lower id t s ≡ ok (o, s))
new_slug-ok to_lower id none s = (none, refl)
new_slug-ok to_lower id (some t) s =
    let (slug, drawn, free) = fresh_role_slug-unused to_lower (some id) t s in
    (some slug, rw (drawn, new_slug) refl)

-- The row of an id that a lookup by slug found.
found_row :
    (slug : String) (s : Db) (role : Role)
    → find_role_by_slug slug s ≡ some role
    → (row : Role) × (find_first (λ (r : Role). r.id == role.id) s.roles ≡ some row)
unfolding find_role_by_slug
found_row slug s role h = find_first-weaker _ _ s.roles role h (==_self role.id)

update_role_steps-ok :
    (to_lower : String → String) (role row : Role) (input : UpdateRoleInput) (by : Option ℕ)
    (s : Db)
    → find_first (λ (r : Role). r.id == role.id) s.roles ≡ some row
    → (updated : Role) × (s' : Db) × (update_role_steps to_lower role input by s ≡ ok (updated, s'))
unfolding update_role_steps update_role_row
update_role_steps-ok to_lower role row input by s known =
    let (slug, drawn) =
      new_slug-ok to_lower role.id (changed (given input.title) (some role.title)) s in
    let updated = apply_update input slug row in
    let s₁ = record s {
      roles = update_where (λ (r : Role). r.id == role.id) (apply_update input slug) s.roles;
    } in
    let (logs, logged) =
      log_activity_rest by "UPDATE" "Role" role.id
        (some (String.◌++◌ "Role updated: " updated.title)) s₁ in
    (updated, record s₁ { activity_logs = logs }, rw (drawn, known, update_role_row, logged) refl)

-- When a slug belongs to an active role, the permissions that are sent are known, and no cached
-- entry is newer than the version, updating the role succeeds and leaves no cached access of any
-- user that is still served.
pub update_role-revokes :
    (to_lower : String → String) (slug : String) (input : UpdateRoleInput) (by : Option ℕ) (s : Db)
    (redis : Redis) (role : Role)
    → find_role_by_slug slug s ≡ some role
    → validate_given input.access ≡ ok tt
    → ((u : ℕ) (x : Entry)
        → redis.access.entries u ≡ some x
        → x.rbac_version ≤ version_of redis.access)
    → (updated : Role) × (w : Db × Redis) × (update_role to_lower slug input by (s, redis)
        ≡ (ok updated, w))
      × ((u : ℕ) → (read_user_access u w.1.access).0 ≡ none)
unfolding update_role
update_role-revokes to_lower slug input by s redis role found valid old =
    let (row, known) = found_row slug s role found in
    let (updated, s', done) = update_role_steps-ok to_lower role row input by s known in
    (
      updated,
      (s', invalidate_role_users role.id redis),
      rw (found, update_role, valid, update_checked)
          (ap (finish role.id redis)
            (transaction-ok (update_role_steps to_lower role input by) s (updated, s') done)),
      invalidate_role_users-revokes role.id redis old,
    )

-- Every row of the id is deleted.
retired :
    (id now : ℕ) (rows : List Role)
    → find_first
        (λ (r : Role). (r.id == id) && not (is_some r.deleted_at))
        (update_where (λ r. r.id == id) (λ r. record r { deleted_at = some now }) rows)
      ≡ none
unfolding find_first update_where
retired id now [] = refl
retired id now (r ∷ rows) = elim (Bool-cases (r.id == id)) [
  | inl e ↦ rw (e, find_first) (rw e (retired id now rows))
  | inr e ↦ rw (e, find_first) (rw e (retired id now rows))
]

-- When a slug belongs to an active role, a request to delete it either is refused with the number
-- of its active users and changes nothing, or it succeeds, and then no active user has the role
-- and no active role has its id.
pub delete_role-outcomes :
    (slug : String) (by : Option ℕ) (now : ℕ) (s : Db) (redis : Redis) (role : Role)
    → find_role_by_slug slug s ≡ some role
    → ((n : ℕ) × (count_users role.id s ≡ suc n)
        × (delete_role slug by now (s, redis)
            ≡ (err (app (still_assigned (suc n)) 409), (s, redis))))
      ⊎ ((s' : Db) × (delete_role slug by now (s, redis)
            ≡ (ok tt, (s', invalidate_role_users role.id redis)))
          × (count_users role.id s' ≡ 0)
          × (find_role_by_id role.id s' ≡ none))
unfolding delete_role count_users find_role_by_id delete_role_steps soft_delete_role update_role_row
delete_role-outcomes slug by now s redis role found = elim (ℕ-cases (count_users role.id s)) [
  | inr (n, e) ↦ inl (n, e, rw (found, delete_role, e, delete_unassigned) refl)
  | inl e ↦
      let (row, known) = found_row slug s role found in
      let s₁ = record s {
        roles =
            update_where (λ (r : Role). r.id == role.id) (λ r. record r { deleted_at = some now })
              s.roles;
      } in
      let (logs, logged) =
        log_activity_rest by "DELETE" "Role" role.id
          (some (String.◌++◌ "Role deleted: " role.title)) s₁ in
      let s' = record s₁ { activity_logs = logs } in
      inr (
        s',
        rw (found, delete_role, e, delete_unassigned)
            (ap (finish role.id redis) (
              transaction-ok (delete_role_steps role by now) s (tt, s')
                (rw (known, soft_delete_role, update_role_row, logged) refl))),
        e,
        retired role.id now s.roles,
      )
]
  where
    ℕ-cases : (n : ℕ) → (n ≡ 0) ⊎ ((m : ℕ) × (n ≡ suc m))
    ℕ-cases zero = inl refl
    ℕ-cases (suc m) = inr (m, refl)
