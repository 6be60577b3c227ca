-- ===== src/Profiles/Addresses.antt =====
-- The address that `updateProfile` writes (profile.service.ts).
use express_core.Base.{
  ℕ, String, some, ◌≡◌, ◌≢◌, refl, ap, ◌∙◌, ◌==◌, false, find_first, arith, true,
}
use express_core.Base.RowLaws.{find_first-sat}
use express_core.Store.{User, Db}
use express_core.Store.Exec.{ok}
use express_core.Crypto.{Crypto}
use express_core.Redis.{Redis, ProfileData}
use express_core.Roles.{given}
use express_core.Users.Admin.{or_old}
use express_core.Profiles.{UpdateProfileInput, has_id, apply_profile, update_profile}
use express_core.Profiles.Updating.{
  update_profile_steps-Saved, find-updated, update_profile-answer, answered, caching,
}

-- When an active user sends a new address that another active user has, the update of the profile
-- succeeds, and afterwards both active users have the address.
pub update_profile-shares_address :
    (c : Crypto) (to_lower : String → String) (base_url : String) (user_id : ℕ)
    (input : UpdateProfileInput) (s : Db) (redis : Redis) (existing other : User) (email : String)
    → find_first (has_id user_id) s.users ≡ some existing
    → find_first (has_id other.id) s.users ≡ some other
    → other.id ≢ user_id
    → other.email ≡ some email
    → given input.email ≡ some email
    → (p : ProfileData) × (w : Db × Redis) × (mine : User) × (update_profile c to_lower base_url
          user_id input
          (s, redis)
        ≡ (ok p, w))
      × (find_first (has_id user_id) w.0.users ≡ some mine)
      × (mine.email ≡ some email)
      × (find_first (has_id other.id) w.0.users ≡ some other)
update_profile-shares_address c to_lower base_url user_id input s redis existing other email found
      there apart has sent =
    let saved = update_profile_steps-Saved c to_lower user_id existing input s found in
    let hit = find_first-sat (has_id user_id) s.users existing found in
    let mine : (existing.id == user_id) ≡ true = ground arith in
    let theirs : (other.id == user_id) ≡ false = ground arith in
    let p = answered c to_lower base_url user_id input s existing saved in
    (
      p,
      (saved.after, caching user_id p redis),
      apply_profile c input saved.slug existing,
      update_profile-answer c to_lower base_url user_id input s redis existing found saved,
      ap (find_first (has_id user_id)) saved.users
          ∙ find-updated c input saved.slug user_id user_id existing s.users found
          ∙ rw mine refl,
      unfold apply_profile in ap (λ o. or_old o existing.email) sent,
      ap (find_first (has_id other.id)) saved.users
          ∙ find-updated c input saved.slug user_id other.id other s.users there
          ∙ rw theirs refl,
    )
