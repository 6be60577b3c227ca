-- ===== src/Profiles/Views.antt =====
-- What a user reads of the profile, before and after an update (profile.service.ts).
use mathlib.Core.Option
use express_core.Base.{
  ℕ, String, false, true, Option, none, some, ◌≡◌, ◌≢◌, refl, sym, ap, ◌∙◌, ◌==◌, if◌then◌else◌,
  find_first, arith, ◌&&◌, not, is_some,
}
use express_core.Base.RowLaws.{find_first-sat, find_first-update}
use express_core.Store.{User, Role, UserProfile, Db}
use express_core.Store.Exec.{Result, ok, err, app}
use express_core.Crypto.{Crypto}
use express_core.Redis.{ProfileData}
use express_core.Profiles.{
  role_row, summary, avatar_url, to_profile_response, UpdateProfileInput, has_id, of_profile,
  profile_data, apply_profile,
}
use express_core.Profiles.Updating.{Saved, answered, find-updated}

abbrev pub read_row : String → Db → Option User → Result ProfileData
read_row base_url s none = err (app "Profile not found" 404)
read_row base_url s (some u) = ok (profile_data base_url u s)

-- A read of the database.
unfoldable pub read_direct : String → ℕ → Db → Result ProfileData
read_direct base_url user_id s = read_row base_url s (find_first (has_id user_id) s.users)

module _ (c : Crypto) (to_lower : String → String) (base_url : String) where
  profile_data-same :
      (s s' : Db) (u : User)
      → s.roles ≡ s'.roles
      → find_first (of_profile u.id) s.user_profiles ≡ find_first (of_profile u.id) s'.user_profiles
      → profile_data base_url u s ≡ profile_data base_url u s'
  unfolding profile_data
  profile_data-same s s' u roles details =
      ap (λ (r : Option Role × Option UserProfile). view r.0 r.1)
        (λ i. (role_same u.role_id i, details i))
    where
      view : Option Role → Option UserProfile → ProfileData
      view r d = record {
        id = u.id;
        slug = u.slug;
        name = u.name;
        email = u.email;
        avatar = u.avatar;
        is_email_verified = u.is_email_verified;
        role_id = u.role_id;
        role = summary r;
        profile = to_profile_response d;
        avatar_url = avatar_url base_url u.avatar;
      }

      role_same : (o : Option ℕ) → role_row o s ≡ role_row o s'
      role_same none = refl
      role_same (some id) =
          ap (find_first (λ (r : Role). (r.id == id) && not (is_some r.deleted_at))) roles

  pub read-own :
      (user_id : ℕ) (input : UpdateProfileInput) (s : Db) (existing : User)
      (saved : Saved c to_lower user_id existing input s)
      → find_first (has_id user_id) s.users ≡ some existing
      → read_direct base_url user_id saved.after
        ≡ ok (answered c to_lower base_url user_id input s existing saved)
  unfolding read_direct
  read-own user_id input s existing saved found =
      let hit = find_first-sat (has_id user_id) s.users existing found in
      let mine : (existing.id == user_id) ≡ true = ground arith in
      let row : find_first (has_id user_id) saved.after.users
          ≡ some (apply_profile c input saved.slug existing) =
        ap (find_first (has_id user_id)) saved.users
        ∙ find-updated c input saved.slug user_id user_id existing s.users found
        ∙ rw mine refl in
      ap (read_row base_url saved.after) row

  -- What another user reads is not changed by an update.
  pub read-other :
      (user_id v : ℕ) (input : UpdateProfileInput) (s : Db) (existing : User)
      (saved : Saved c to_lower user_id existing input s)
      → v ≢ user_id
      → read_direct base_url v saved.after ≡ read_direct base_url v s
  unfolding read_direct
  read-other user_id v input s existing saved other =
      ap (read_row base_url saved.after) (
        ap (find_first (has_id v)) saved.users
        ∙ find_first-update (has_id v) (λ (u : User). u.id == user_id)
            (apply_profile c input saved.slug) s.users (unfold apply_profile in λ u. refl)
        ∙ kept_row (find_first (has_id v) s.users) refl)
      ∙ same_view (find_first (has_id v) s.users) refl
    where
      kept_row :
          (o : Option User)
          → find_first (has_id v) s.users ≡ o
          → Option.map
              (λ (u : User). if u.id == user_id then apply_profile c input saved.slug u else u)
              o
            ≡ o
      kept_row none e = ground arith
      kept_row (some u) e =
          let mine = find_first-sat (has_id v) s.users u e in
          let not_theirs : (u.id == user_id) ≡ false = ground arith in
          rw (not_theirs, Option.map) refl

      same_view :
          (o : Option User)
          → find_first (has_id v) s.users ≡ o
          → read_row base_url saved.after o ≡ read_row base_url s o
      same_view none e = refl
      same_view (some u) e =
          let mine = find_first-sat (has_id v) s.users u e in
          let same : u.id ≡ v = ground arith in
          ap ok (
            profile_data-same saved.after s u saved.roles
              (saved.details u.id (λ k. other (sym same ∙ k))))
