-- ===== src/Roles/Table.antt =====
-- The table of roles: what its rows must satisfy, and what a write of one row leaves of it.
use Prim.Native.String
use express_core.Base.{
  ℕ, ◌+◌, ◌<◌, String, Bool, false, Option, none, some, List, ◌∷◌, ◌≡◌, ◌≢◌, refl, inl, inr, ◌==◌,
  ◌==ₛ◌, is_some, not, update_where, All, arith, Bool-cases, eq_iff, subst,
}
use express_core.Base.Distinct.{
  Distinct, Unused, All-map, All-update, Distinct-insert, Distinct-update_kept, Distinct-update_new,
}
use express_core.Store.{Role, Db}
use express_core.Store.Exec.{ok}
use express_core.Accounts.{create_role_row, role_clashes, excluded}
use express_core.Accounts.Keys.{fresh_role_slug-unused}
use express_core.Activity.{log_activity_rest}
use express_core.Roles.{CreateRoleInput, UpdateRoleInput, new_slug, apply_update, create_role_steps}
use express_core.Roles.Revocation.{Known}

abbrev pub role_id : Role → ℕ
role_id r = r.id

abbrev pub role_slug : Role → Option String
role_slug r = some r.slug

abbrev pub is_active : Role → Bool
is_active r = not (is_some r.deleted_at)

-- No id twice, no slug in two active roles, and only permissions of ALL_PERMISSIONS.
pub record RolesOk (s : Db) : Type 0 where
  pub distinct : Distinct role_id role_slug is_active s.roles
  pub below : All (λ r. r.id < s.next_role_id) s.roles
  pub known : All (λ r. Known r.access) s.roles

pub Unused-slug :
    (exclude : Option ℕ) (slug : String) (i : ℕ) (rows : List Role)
    → ((j : ℕ) → j ≢ i → excluded exclude j ≡ false)
    → All (λ r. role_clashes exclude slug r ≡ false) rows
    → Unused role_id role_slug is_active i slug rows
Unused-slug exclude slug i rows others free =
    All-map rows
      (λ (r : Role) clash other live same.
        let e = others r.id other in
        let t = (eq_iff r.slug slug).1 (ground arith) in absurd (ground arith))
      free

pub create_role_steps-RolesOk :
    (to_lower : String → String) (input : CreateRoleInput) (by : Option ℕ) (s : Db)
    → Known input.access
    → RolesOk s
    → (r : Role) × (s' : Db) × (create_role_steps to_lower input by s ≡ ok (r, s')) × RolesOk s'
unfolding create_role_steps create_role_row
create_role_steps-RolesOk to_lower input by s k i =
    let (slug, drawn, free) = fresh_role_slug-unused to_lower none input.title s in
    let row : Role = record {
      id = s.next_role_id;
      slug = slug;
      title = input.title;
      user_type = input.user_type;
      description = input.description;
      access = input.access;
      deleted_at = none;
    } in
    let s₁ = record s { roles = row ∷ s.roles; next_role_id = s.next_role_id + 1 } in
    let (logs, logged) =
      log_activity_rest by "CREATE" "Role" s.next_role_id
        (some (String.◌++◌ "Role created: " input.title)) s₁ in
    (
      row,
      record s₁ { activity_logs = logs },
      rw (drawn, create_role_row, logged) refl,
      record {
        distinct =
            Distinct-insert role_id role_slug is_active row s.roles i.below
              (λ t e.
                subst (λ u. Unused role_id role_slug is_active s.next_role_id u s.roles)
                  (ground arith)
                  (Unused-slug none slug s.next_role_id s.roles (λ j other. refl) free))
              i.distinct;
        below = (omega arith, All-map s.roles (λ r lt. omega arith) i.below);
        known = (k, i.known);
      },
    )

-- What a write of an update leaves of the table's properties.
pub update_row-RolesOk :
    (id : ℕ) (f : Role → Role) (s : Db)
    → Distinct role_id role_slug is_active (update_where (λ (r : Role). r.id == id) f s.roles)
    → ((r : Role) → (f r).id ≡ r.id)
    → ((r : Role) → Known r.access → Known (f r).access)
    → RolesOk s
    → RolesOk (record s { roles = update_where (λ (r : Role). r.id == id) f s.roles })
update_row-RolesOk id f s d same_id keeps i = record {
  distinct = d;
  below = All-update _ f s.roles (λ r lt. let e = same_id r in omega arith) i.below;
  known = All-update _ f s.roles keeps i.known;
}

-- The slug that an update writes is the old one, or one that no other active role has.
pub update_slug :
    (to_lower : String → String) (id : ℕ) (t : Option String) (input : UpdateRoleInput) (s : Db)
    → RolesOk s
    → (slug : Option String) × (new_slug to_lower id t s ≡ ok (slug, s))
      × Distinct role_id role_slug is_active
          (update_where (λ (r : Role). r.id == id) (apply_update input slug) s.roles)
unfolding apply_update
update_slug to_lower id none input s i = (
  none,
  refl,
  Distinct-update_kept role_id role_slug is_active id (apply_update input none) (λ r. refl)
      (λ r h. h) s.roles (λ r. refl) i.distinct,
)
update_slug to_lower id (some t) input s i =
    let (slug, drawn, free) = fresh_role_slug-unused to_lower (some id) t s in
    (
      some slug,
      rw (drawn, new_slug) refl,
      elim (Bool-cases (slug ==ₛ "")) [
        | inl e ↦
            Distinct-update_kept role_id role_slug is_active id (apply_update input (some slug))
              (λ r. refl) (λ r h. h) s.roles (λ r. rw e refl) i.distinct
        | inr e ↦
            Distinct-update_new role_id role_slug is_active id (apply_update input (some slug))
              (λ r. refl) (λ r h. h) slug s.roles (λ r. rw e refl)
              (Unused-slug (some id) slug id s.roles (λ j other. ground arith) free) i.distinct
      ],
    )
