-- ===== src/Profiles.antt =====
-- src/modules/profile/profile.service.ts, profile.repository.ts and `toProfileResponse` of
-- profile.fields.ts. Avatar files are not modelled; Redis answers.
pub mod Details
pub mod Updating
pub mod Addresses
pub mod Cached
pub mod Views
use Prim.Native.String
use express_core.Base.{
  ℕ, String, Bool, true, false, Option, none, some, List, [], ◌∷◌, is_some, not, or_else, ◌==◌,
  ◌==ₛ◌, ◌&&◌, ◌||◌, find_first, update_where, if◌then◌else◌,
}
use express_core.Store.{User, Role, UserProfile, Db}
use express_core.Store.Exec.{Tx, Result, ok, err, app, pure, throw, transaction, ◌>>=◌, ◌>>◌}
use express_core.Crypto.{Crypto}
use express_core.Urls.{get_public_url}
use express_core.Accounts.{update_user}
use express_core.Activity.{log_activity}
use express_core.Auth.Tokens.{delete_refresh_tokens_by_user_id}
use express_core.Rbac.{set}
use express_core.Redis.{Redis, ProfileData, ProfileResponse, RoleSummary}
use express_core.Roles.{given, changed}
use express_core.Users.Admin.{new_slug, or_old, hashed}

-- The details that a request sends: a field left out is none, null is `some none`.
pub record ProfileFields : Type 0 where
  pub phone : Option (Option String)
  pub birth_date : Option (Option String)
  pub gender : Option (Option String)
  pub locale : Option (Option String)

pub record UpdateProfileInput : Type 0 where
  pub name : Option String
  pub email : Option String
  pub avatar : Option String
  pub password : Option String
  pub fields : ProfileFields

-- where: { id }, to which the soft-delete extension adds deletedAt: null
abbrev pub has_id : ℕ → User → Bool
has_id id u = (u.id == id) && not (is_some u.deleted_at)

abbrev pub of_profile : ℕ → UserProfile → Bool
of_profile id p = p.user_id == id

abbrev pub summary : Option Role → Option RoleSummary
summary none = none
summary (some r) = some (record { title = r.title; access = r.access })

abbrev pub role_row : Option ℕ → Db → Option Role
role_row none s = none
role_row (some id) s = find_first (λ (r : Role). (r.id == id) && not (is_some r.deleted_at)) s.roles

-- A row as the client reads it.
abbrev pub to_profile_response : Option UserProfile → Option ProfileResponse
to_profile_response none = none
to_profile_response (some p) =
    some
      (record { phone = p.phone; birth_date = p.birth_date; gender = p.gender; locale = p.locale })

-- An avatar that is an empty text has no address.
abbrev pub avatar_url : String → Option String → Option String
avatar_url base_url none = none
avatar_url base_url (some file) =
    if file ==ₛ "" then none else some (get_public_url base_url "uploads/avatars" file)

unfoldable pub profile_data : String → User → Db → ProfileData
profile_data base_url u s = record {
  id = u.id;
  slug = u.slug;
  name = u.name;
  email = u.email;
  avatar = u.avatar;
  is_email_verified = u.is_email_verified;
  role_id = u.role_id;
  role = summary (role_row u.role_id s);
  profile = to_profile_response (find_first (of_profile u.id) s.user_profiles);
  avatar_url = avatar_url base_url u.avatar;
}

abbrev pub store_profile : ℕ → ProfileData → Redis → Redis
store_profile user_id p redis = record redis { profiles = set redis.profiles user_id (some p) }

abbrev read_profile : String → ℕ → Option User → Db × Redis → Result ProfileData × (Db × Redis)
read_profile base_url user_id none w = (err (app "Profile not found" 404), w)
read_profile base_url user_id (some u) w =
    let p = profile_data base_url u w.0 in (ok p, (w.0, store_profile user_id p w.1))

unfoldable pub get_profile : String → ℕ → Db × Redis → Result ProfileData × (Db × Redis)
get_profile base_url user_id w = elim (w.1.profiles user_id) [
  | some p ↦ (ok p, w)
  | none ↦ read_profile base_url user_id (find_first (has_id user_id) w.0.users) w
]

abbrev no_fields : ProfileFields → Bool
no_fields f =
    not (is_some f.phone || (is_some f.birth_date || (is_some f.gender || is_some f.locale)))

unfoldable pub write_fields : ProfileFields → UserProfile → UserProfile
write_fields f p = record p {
  phone = or_else f.phone p.phone;
  birth_date = or_else f.birth_date p.birth_date;
  gender = or_else f.gender p.gender;
  locale = or_else f.locale p.locale;
}

-- INSERT … ON CONFLICT (user_id) DO UPDATE
unfoldable pub upsert_details : ℕ → ProfileFields → Tx (Unit {0})
unfolding write_fields
upsert_details user_id fields s = elim (find_first (of_profile user_id) s.user_profiles) [
  | none ↦ ok (
    tt,
    record s {
      user_profiles =
          write_fields fields (record {
            user_id = user_id;
            phone = none;
            birth_date = none;
            gender = none;
            locale = none;
          })
          ∷ s.user_profiles;
    },
  )
  | some p ↦ ok (
    tt,
    record s {
      user_profiles = update_where (of_profile user_id) (write_fields fields) s.user_profiles;
    },
  )
]

unfoldable pub apply_profile : Crypto → UpdateProfileInput → Option String → User → User
apply_profile c input slug u = record u {
  name = or_old (given input.name) u.name;
  slug = or_old (given slug) u.slug;
  email = or_old (given input.email) u.email;
  avatar = or_old (given input.avatar) u.avatar;
  password = or_old (hashed c (given input.password)) u.password;
}

unfoldable pub save_details : ℕ → ProfileFields → Tx (Unit {0})
unfolding upsert_details
save_details user_id fields = if no_fields fields then pure tt else upsert_details user_id fields

-- A new password ends every session of the user.
unfoldable pub end_sessions : ℕ → Option String → Tx (Unit {0})
end_sessions user_id none = pure tt
end_sessions user_id (some password) = do delete_refresh_tokens_by_user_id user_id; pure tt

unfoldable pub update_profile_steps :
    Crypto → (String → String) → ℕ → User → UpdateProfileInput → Tx User
unfolding save_details end_sessions
update_profile_steps c to_lower user_id existing input = do
  slug ← new_slug to_lower existing.id (changed (given input.name) existing.name)
  updated ← update_user user_id (apply_profile c input slug)
  save_details user_id input.fields
  end_sessions user_id (given input.password)
  log_activity (some user_id) "UPDATE" "Profile" (some user_id) (some "User updated their profile")
  pure updated

abbrev pub drop_profile : ℕ → Redis → Redis
drop_profile user_id redis = record redis { profiles = set redis.profiles user_id none }

abbrev keep_profile : ℕ → Result ProfileData × (Db × Redis) → Result ProfileData × (Db × Redis)
keep_profile user_id (err e, w) = (err e, w)
keep_profile user_id (ok p, (s, redis)) = (ok p, (s, store_profile user_id p redis))

-- After the commit: the cached profile is dropped, read again and stored.
abbrev pub refresh_profile :
    String → ℕ → Redis → Result User × Db → Result ProfileData × (Db × Redis)
refresh_profile base_url user_id redis (err e, s) = (err e, (s, redis))
refresh_profile base_url user_id redis (ok updated, s) =
    keep_profile user_id (get_profile base_url updated.id (s, drop_profile user_id redis))

unfoldable pub update_profile :
    Crypto
    → (String → String)
    → String
    → ℕ
    → UpdateProfileInput
    → Db × Redis
    → Result ProfileData × (Db × Redis)
update_profile c to_lower base_url user_id input w = elim (find_first (has_id user_id) w.0.users) [
  | none ↦ (err (app "Profile not found" 404), w)
  | some existing ↦
      refresh_profile base_url user_id w.1
        (transaction (update_profile_steps c to_lower user_id existing input) w.0)
]
