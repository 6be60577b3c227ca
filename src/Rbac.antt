-- ===== src/Rbac.antt =====
-- src/services/rbac-cache.service.ts, src/middleware/resolve-role.ts and
-- src/middleware/rbac.middleware.ts: the access of a user, from a versioned cache or the database.
pub mod Freshness
pub mod Gates
use express_core.Base.{
  zero, suc, [], ◌∷◌, ℕ, Option, some, List, String, if◌then◌else◌, or_else, Bool, ◌+◌, none, ◌==◌,
  true, false, is_some, ◌&&◌, ◌==ₛ◌, ◌||◌,
}
use express_core.Store.Exec.{Result, ok, err, app}

-- A cached role without `userType` stands for one that was cached before roles carried it.
pub record RoleData : Type 0 where
  pub id : ℕ
  pub slug : String
  pub user_type : Option String
  pub access : List String

pub record CachedUserData : Type 0 where
  pub id : ℕ
  pub role : Option RoleData

pub record Entry : Type 0 where
  pub user : CachedUserData
  pub rbac_version : ℕ

-- The keys `rbac:version`, `user-role:${id}` and the members of `role-users:${id}`.
pub record Cache : Type 0 where
  pub version : Option ℕ
  pub entries : ℕ → Option Entry
  pub role_users : List (ℕ × ℕ)

unfoldable pub set {ℓ} : {A : Type ℓ} → (ℕ → A) → ℕ → A → ℕ → A
set f i x j = if j == i then x else f j

abbrev pub version_of : Cache → ℕ
version_of cache = or_else cache.version 0

abbrev pub has_type : Option RoleData → Bool
has_type none = true
has_type (some r) = is_some r.user_type

abbrev pub current : ℕ → Option Entry → Option CachedUserData
current version none = none
current version (some x) =
    if (x.rbac_version == version) && has_type x.user.role then some x.user else none

-- The entry, if it still counts, and the version to stamp on a refill.
unfoldable pub read_user_access : ℕ → Cache → Option CachedUserData × ℕ
read_user_access user_id cache =
    (current (version_of cache) (cache.entries user_id), version_of cache)

abbrev pub track : ℕ → Option RoleData → List (ℕ × ℕ) → List (ℕ × ℕ)
track user_id none members = members
track user_id (some r) members = (r.id, user_id) ∷ members

unfoldable pub cache_user_access : ℕ → CachedUserData → ℕ → Cache → Cache
cache_user_access user_id user version cache = record cache {
  entries = set cache.entries user_id (some (record { user = user; rbac_version = version }));
  role_users = track user_id user.role cache.role_users;
}

unfoldable pub invalidate_access : Cache → Cache
invalidate_access cache = record cache { version = some (version_of cache + 1) }

-- `req.role` and the subject of the access token as a number.
pub record Request : Type 0 where
  pub role : Option RoleData
  pub sub : Option ℕ

-- The database's answer for a user who is not deleted.
abbrev pub Users : Type 0
Users = ℕ → Option CachedUserData

abbrev answer_role : Option RoleData → Request → Cache → Result RoleData × (Request × Cache)
answer_role none req cache = (err (app "Access denied: no role assigned" 403), (req, cache))
answer_role (some r) req cache = (ok r, (record req { role = some r }, cache))

abbrev refill :
    ℕ → ℕ → Option CachedUserData → Request → Cache → Result RoleData × (Request × Cache)
refill user_id version none req cache = (err (app "Unauthorized access" 401), (req, cache))
refill user_id version (some user) req cache =
    answer_role user.role req (cache_user_access user_id user version cache)

abbrev resolve_user :
    Users → ℕ → Option CachedUserData × ℕ → Request → Cache → Result RoleData × (Request × Cache)
resolve_user users user_id (some user, version) req cache = answer_role user.role req cache
resolve_user users user_id (none, version) req cache =
    refill user_id version (users user_id) req cache

unfoldable pub resolve_role : Users → Request → Cache → Result RoleData × (Request × Cache)
resolve_role users req cache = elim req.role [
  | some r ↦ (ok r, (req, cache))
  | none ↦ elim req.sub [
    | none ↦ (err (app "Unauthorized access" 401), (req, cache))
    | some user_id ↦ resolve_user users user_id (read_user_access user_id cache) req cache
  ]
]

unfoldable pub includes : List String → String → Bool
includes [] t = false
includes (x ∷ xs) t = (x ==ₛ t) || includes xs t

abbrev grant : String → Result RoleData × (Request × Cache) → Result (Unit {0}) × (Request × Cache)
grant permission (ok r, w) =
    if includes r.access permission
    then (ok tt, w)
    else (err (app "You do not have permission to perform this action" 403), w)
grant permission (err x, w) = (err x, w)

unfoldable pub check_permission :
    String → Users → Request → Cache → Result (Unit {0}) × (Request × Cache)
check_permission permission users req cache = grant permission (resolve_role users req cache)

-- USER_TYPES
abbrev pub user_types : List String
user_types = "Administrator" ∷ "Member" ∷ []

abbrev allow_type :
    List String → Result RoleData × (Request × Cache) → Result (Unit {0}) × (Request × Cache)
allow_type allowed (ok r, w) =
    if includes allowed (or_else r.user_type "")
    then (ok tt, w)
    else (err (app "Access denied" 403), w)
allow_type allowed (err x, w) = (err x, w)

abbrev known_types : List String → Bool
known_types [] = true
known_types (t ∷ ts) = includes user_types t && known_types ts

-- The gate of some types; none when the types are refused at startup.
unfoldable pub check_user_type :
    List String → Option (Users → Request → Cache → Result (Unit {0}) × (Request × Cache))
check_user_type [] = none
check_user_type (t ∷ ts) =
    if known_types (t ∷ ts)
    then some (λ users req cache. allow_type (t ∷ ts) (resolve_role users req cache))
    else none
