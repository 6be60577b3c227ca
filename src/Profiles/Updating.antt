-- ===== src/Profiles/Updating.antt =====
-- `updateProfile` and the reads that follow it (profile.service.ts).
use express_core.Profiles.Details.{save_details-stored, save_details-other}
use express_core.Base.{
  ◌≢◌, ℕ, String, true, Option, none, some, List, ◌≡◌, refl, ap, ◌∙◌, ◌==◌, find_first,
  update_where, delete_where, if◌then◌else◌, arith, ==_self,
}
use express_core.Base.RowLaws.{find_first-sat, find_first-weaker, find_first-update}
use express_core.Store.{User, RefreshToken, Db}
use express_core.Store.Exec.{ok, transaction-ok}
use express_core.Crypto.{Crypto}
use express_core.Accounts.{update_user}
use express_core.Accounts.Keys.{fresh_user_slug-unused}
use express_core.Activity.{log_activity_rest}
use express_core.Auth.Tokens.{delete_refresh_tokens_by_user_id, of_user}
use express_core.Auth.Tokens.Laws.{revoke_refresh_tokens_lem}
use express_core.Rbac.{set}
use express_core.Redis.{Redis, ProfileData}
use express_core.Roles.{given, changed}
use express_core.Users.Admin.{new_slug}
use express_core.Profiles.{
  UpdateProfileInput, has_id, of_profile, profile_data, get_profile, store_profile, apply_profile,
  end_sessions, update_profile_steps, update_profile, drop_profile, refresh_profile, read_profile,
}

-- What is left of the sessions.
abbrev pub sessions_left : ℕ → Option String → List RefreshToken → List RefreshToken
sessions_left user_id none rows = rows
sessions_left user_id (some password) rows = delete_where (of_user user_id) rows

end_sessions_lem :
    (user_id : ℕ) (password : Option String) (s : Db)
    → end_sessions user_id password s
      ≡ ok (tt, record s { refresh_tokens = sessions_left user_id password s.refresh_tokens })
unfolding end_sessions delete_refresh_tokens_by_user_id
end_sessions_lem user_id none s = refl
end_sessions_lem user_id (some password) s = rw (revoke_refresh_tokens_lem (of_user user_id) s) refl

new_slug-ok :
    (to_lower : String → String) (id : ℕ) (t : Option String) (s : Db)
    → (o : Option String) × (new_slug to_lower id t s ≡ ok (o, s))
new_slug-ok to_lower id none s = (none, refl)
new_slug-ok to_lower id (some t) s =
    let (slug, drawn, free) = fresh_user_slug-unused to_lower (some id) t s in
    (some slug, rw (drawn, new_slug) refl)

-- The database after the transaction.
pub record Saved (c : Crypto) (to_lower : String → String) (user_id : ℕ) (existing : User)
    (input : UpdateProfileInput) (s : Db) : Type 0 where
  pub slug : Option String
  pub row : User
  pub after : Db
  pub returned : update_profile_steps c to_lower user_id existing input s ≡ ok (row, after)
  pub same_id : row.id ≡ user_id
  pub users :
      after.users
      ≡ update_where (λ (u : User). u.id == user_id) (apply_profile c input slug) s.users
  pub roles : after.roles ≡ s.roles
  pub details :
      (v : ℕ)
      → v ≢ user_id
      → find_first (of_profile v) after.user_profiles ≡ find_first (of_profile v) s.user_profiles
  pub sessions :
      after.refresh_tokens ≡ sessions_left user_id (given input.password) s.refresh_tokens

pub update_profile_steps-Saved :
    (c : Crypto) (to_lower : String → String) (user_id : ℕ) (existing : User)
    (input : UpdateProfileInput) (s : Db)
    → find_first (has_id user_id) s.users ≡ some existing
    → Saved c to_lower user_id existing input s
unfolding update_profile_steps update_user
update_profile_steps-Saved c to_lower user_id existing input s found =
    let (slug, drawn) =
      new_slug-ok to_lower existing.id (changed (given input.name) existing.name) s in
    let hit = find_first-sat (has_id user_id) s.users existing found in
    let (row, known) =
      find_first-weaker (has_id user_id) (λ (u : User). u.id == user_id) s.users existing found
        (ground arith) in
    let f = apply_profile c input slug in
    let s₁ = record s { users = update_where (λ (u : User). u.id == user_id) f s.users } in
    let (rows, saved, kept) = save_details-stored user_id input.fields s₁ in
    let s₂ = record s₁ {
      user_profiles = rows;
      refresh_tokens = sessions_left user_id (given input.password) s.refresh_tokens;
    } in
    let (logs, logged) =
      log_activity_rest (some user_id) "UPDATE" "Profile" user_id
        (some "User updated their profile") s₂ in
    let mine = find_first-sat (λ (u : User). u.id == user_id) s.users row known in
    record {
      slug = slug;
      row = f row;
      after = record s₂ { activity_logs = logs };
      returned =
          rw
            (
              drawn,
              update_user,
              known,
              saved,
              end_sessions_lem user_id (given input.password) (record s₁ { user_profiles = rows }),
              logged,
            )
            refl;
      same_id = unfold apply_profile in ground arith;
      users = refl;
      roles = refl;
      details = λ v other. save_details-other user_id v input.fields s₁ rows other saved;
      sessions = refl;
    }

-- An active row after an update that keeps ids and deletion marks.
pub find-updated :
    (c : Crypto) (input : UpdateProfileInput) (slug : Option String) (i j : ℕ) (u : User)
    (rows : List User)
    → find_first (has_id j) rows ≡ some u
    → find_first
        (has_id j)
        (update_where (λ (v : User). v.id == i) (apply_profile c input slug) rows)
      ≡ some (if u.id == i then apply_profile c input slug u else u)
find-updated c input slug i j u rows found =
    find_first-update (has_id j) (λ (v : User). v.id == i) (apply_profile c input slug) rows
      (unfold apply_profile in λ v. refl)
    ∙ rw found refl

-- The profile that is answered, and what Redis then holds.
abbrev pub answered :
    (c : Crypto) (to_lower : String → String) (base_url : String) (user_id : ℕ)
    (input : UpdateProfileInput) (s : Db) (existing : User)
    → Saved c to_lower user_id existing input s
    → ProfileData
answered c to_lower base_url user_id input s existing saved =
    profile_data base_url (apply_profile c input saved.slug existing) saved.after

abbrev pub caching : ℕ → ProfileData → Redis → Redis
caching user_id p redis =
    store_profile user_id p (store_profile user_id p (drop_profile user_id redis))

module _ (c : Crypto) (to_lower : String → String) (base_url : String) (user_id : ℕ)
    (input : UpdateProfileInput) (s : Db) (redis : Redis) (existing : User)
    (found : find_first (has_id user_id) s.users ≡ some existing) where
  pub update_profile-answer :
      (saved : Saved c to_lower user_id existing input s)
      → update_profile c to_lower base_url user_id input (s, redis) ≡ (
        ok (answered c to_lower base_url user_id input s existing saved),
        (
          saved.after,
          caching user_id (answered c to_lower base_url user_id input s existing saved) redis,
        ),
      )
  unfolding update_profile get_profile set
  update_profile-answer saved =
      let hit = find_first-sat (has_id user_id) s.users existing found in
      let mine : (existing.id == user_id) ≡ true = ground arith in
      let again : find_first (has_id user_id) saved.after.users
          ≡ some (apply_profile c input saved.slug existing) =
        ap (find_first (has_id user_id)) saved.users
        ∙ find-updated c input saved.slug user_id user_id existing s.users found
        ∙ rw mine refl in
      rw (found, update_profile)
        (ap (refresh_profile base_url user_id redis) (
            transaction-ok (update_profile_steps c to_lower user_id existing input) s
              (saved.row, saved.after) saved.returned)
          ∙ rw (saved.same_id, refresh_profile)
              (rw (==_self user_id, get_profile) (rw (again, read_profile) refl)))

  -- When an active user has the id, updating the profile succeeds and answers with the user's
  -- written row and the details as the database then holds them; reading the profile again gives
  -- the same answer; a password that was sent leaves no session of the user, and without one the
  -- sessions stay.
  pub update_profile-read_back :
      (slug : Option String) × (p : ProfileData) × (w : Db × Redis) × (update_profile c to_lower
          base_url user_id input
          (s, redis)
        ≡ (ok p, w))
      × (p ≡ profile_data base_url (apply_profile c input slug existing) w.0)
      × (get_profile base_url user_id w ≡ (ok p, w))
      × (w.0.refresh_tokens ≡ sessions_left user_id (given input.password) s.refresh_tokens)
  unfolding get_profile set
  update_profile-read_back =
      let saved = update_profile_steps-Saved c to_lower user_id existing input s found in
      let p = answered c to_lower base_url user_id input s existing saved in
      (
        saved.slug,
        p,
        (saved.after, caching user_id p redis),
        update_profile-answer saved,
        refl,
        rw (==_self user_id, get_profile) refl,
        saved.sessions,
      )
