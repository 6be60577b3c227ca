-- ===== src/Accounts.antt =====
-- The user and role statements of src/modules/auth/auth.repository.ts,
-- src/modules/user/user.repository.ts and src/modules/role/role.repository.ts. A soft-deleted row
-- stays in its table with deletedAt set.
pub mod Slugs
pub mod Keys
use express_core.Base.{
  ℕ, ◌+◌, String, Bool, false, ◌&&◌, not, Option, none, some, ◌∷◌, is_some, ◌==◌, ◌==ₛ◌, find_first,
  update_where, count_where,
}
use express_core.Store.{User, Role, Db}
use express_core.Store.Exec.{Tx, db, ok, err}
use express_core.Crypto.{Crypto}

abbrev pub is : Option String → String → Bool
is none t = false
is (some u) t = u ==ₛ t

abbrev pub is_id : Option ℕ → ℕ → Bool
is_id none i = false
is_id (some j) i = j == i

-- where: { email, deletedAt: null }
abbrev pub has_user_email : String → User → Bool
has_user_email email u = is u.email email && not (is_some u.deleted_at)

unfoldable pub find_user_by_email : String → Db → Option User
find_user_by_email email s = find_first (has_user_email email) s.users

abbrev pub lower_is : Crypto → Option String → String → Bool
lower_is c none t = false
lower_is c (some u) t = c.db_lower u ==ₛ c.db_lower t

-- WHERE lower("email") = lower($1) AND "deleted_at" IS NULL
unfoldable pub find_user_by_email_insensitive : Crypto → String → Db → Option User
find_user_by_email_insensitive c email s =
    find_first (λ (u : User). lower_is c u.email email && not (is_some u.deleted_at)) s.users

unfoldable pub find_user_by_slug : String → Db → Option User
find_user_by_slug slug s =
    find_first (λ (u : User). is u.slug slug && not (is_some u.deleted_at)) s.users

-- `excludeId ? { id: { not: excludeId } } : {}`: no id, and the id 0, exclude nothing.
abbrev pub excluded : Option ℕ → ℕ → Bool
excluded none id = false
excluded (some x) id = not (x == 0) && x == id

abbrev pub user_clashes : Option ℕ → String → User → Bool
user_clashes exclude slug u =
    is u.slug slug && (not (is_some u.deleted_at) && not (excluded exclude u.id))

unfoldable pub slug_taken : Option ℕ → String → Db → Bool
slug_taken exclude slug s = is_some (find_first (user_clashes exclude slug) s.users)

unfoldable pub create_user : User → Tx User
create_user u s =
    let row = record u { id = s.next_user_id } in
    ok (row, record s { users = row ∷ s.users; next_user_id = s.next_user_id + 1 })

-- update({ where: { id } }): an id without a row is an error.
unfoldable pub update_user : ℕ → (User → User) → Tx User
update_user id f s = elim (find_first (λ (u : User). u.id == id) s.users) [
  | none ↦ err (db "record to update not found")
  | some u ↦ ok (f u, record s { users = update_where (λ v. v.id == id) f s.users })
]

-- delete({ where: { id } }) of the soft-delete extension.
unfoldable pub soft_delete_user : ℕ → ℕ → Tx User
unfolding update_user
soft_delete_user id now = update_user id (λ u. record u { deleted_at = some now })

unfoldable pub find_active_role_id_by_slug : String → Db → Option ℕ
find_active_role_id_by_slug slug s =
    elim (find_first (λ (r : Role). (r.slug ==ₛ slug) && not (is_some r.deleted_at)) s.roles) [
      | none ↦ none
      | some r ↦ some r.id
    ]

abbrev pub role_has_slug : String → Role → Bool
role_has_slug slug r = (r.slug ==ₛ slug) && not (is_some r.deleted_at)

unfoldable pub find_role_by_slug : String → Db → Option Role
find_role_by_slug slug s = find_first (role_has_slug slug) s.roles

-- where: { id, deletedAt: null }
unfoldable pub find_role_by_id : ℕ → Db → Option Role
find_role_by_id id s = find_first (λ (r : Role). (r.id == id) && not (is_some r.deleted_at)) s.roles

abbrev pub role_clashes : Option ℕ → String → Role → Bool
role_clashes exclude slug r =
    (r.slug ==ₛ slug) && (not (is_some r.deleted_at) && not (excluded exclude r.id))

unfoldable pub role_slug_taken : Option ℕ → String → Db → Bool
role_slug_taken exclude slug s = is_some (find_first (role_clashes exclude slug) s.roles)

unfoldable pub create_role_row : Role → Tx Role
create_role_row r s =
    let row = record r { id = s.next_role_id } in
    ok (row, record s { roles = row ∷ s.roles; next_role_id = s.next_role_id + 1 })

unfoldable pub update_role_row : ℕ → (Role → Role) → Tx Role
update_role_row id f s = elim (find_first (λ (r : Role). r.id == id) s.roles) [
  | none ↦ err (db "record to update not found")
  | some r ↦ ok (f r, record s { roles = update_where (λ r. r.id == id) f s.roles })
]

-- delete({ where: { id } }) of the soft-delete extension.
unfoldable pub soft_delete_role : ℕ → ℕ → Tx Role
unfolding update_role_row
soft_delete_role id now = update_role_row id (λ r. record r { deleted_at = some now })

-- An active user of the role.
abbrev pub has_role : ℕ → User → Bool
has_role role_id u = is_id u.role_id role_id && not (is_some u.deleted_at)

unfoldable pub count_users : ℕ → Db → ℕ
count_users role_id s = count_where (has_role role_id) s.users
