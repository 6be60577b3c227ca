-- ===== src/Profiles/Details.antt =====
-- The rows of user_profiles after `upsertDetails` (profile.repository.ts).
use mathlib.Core.Option
use express_core.Base.{
  ◌≢◌, ℕ, false, Option, none, some, List, ◌∷◌, ◌≡◌, refl, sym, ap, ◌∙◌, or_else, find_first,
  update_where, if◌then◌else◌, Bool-cases, Option-cases, inl, inr, arith, ==_self,
}
use express_core.Base.RowLaws.{find_first-sat, find_first-update}
use express_core.Store.{UserProfile, Db}
use express_core.Store.Exec.{ok}
use express_core.Profiles.{
  ProfileFields, of_profile, no_fields, write_fields, upsert_details, save_details,
}

abbrev pub blank : ℕ → UserProfile
blank user_id = record {
  user_id = user_id;
  phone = none;
  birth_date = none;
  gender = none;
  locale = none;
}

-- The details of a user after some fields were sent.
abbrev pub stored : ℕ → ProfileFields → Option UserProfile → Option UserProfile
stored user_id fields old =
    if no_fields fields then old else some (write_fields fields (or_else old (blank user_id)))

-- A request that sends a detail leaves a row with what it sent, and the other details as they were.
pub save_details-stored :
    (user_id : ℕ) (fields : ProfileFields) (s : Db)
    → (rows : List UserProfile) × (save_details user_id fields s
        ≡ ok (tt, record s { user_profiles = rows }))
      × (find_first (of_profile user_id) rows
          ≡ stored user_id fields (find_first (of_profile user_id) s.user_profiles))
unfolding save_details upsert_details
save_details-stored user_id fields s = elim (Bool-cases (no_fields fields)) [
  | inl e ↦ (s.user_profiles, rw (e, save_details) refl, rw e refl)
  | inr e ↦ elim (Option-cases (find_first (of_profile user_id) s.user_profiles)) [
    | inl missing ↦ (
      write_fields fields (blank user_id) ∷ s.user_profiles,
      rw (e, save_details, missing, upsert_details) refl,
      rw (e, missing) (unfold find_first write_fields in rw (==_self user_id) refl),
    )
    | inr (row, known) ↦
        let mine = find_first-sat (of_profile user_id) s.user_profiles row known in
        (
          update_where (of_profile user_id) (write_fields fields) s.user_profiles,
          rw (e, save_details, known, upsert_details) refl,
          find_first-update (of_profile user_id) (of_profile user_id) (write_fields fields)
                s.user_profiles (unfold write_fields in λ p. refl)
              ∙ rw (e, known) (rw mine refl),
        )
  ]
]

-- The details of other users stay.
upsert_details-other :
    (user_id v : ℕ) (fields : ProfileFields) (s s' : Db)
    → v ≢ user_id
    → upsert_details user_id fields s ≡ ok (tt, s')
    → find_first (of_profile v) s'.user_profiles ≡ find_first (of_profile v) s.user_profiles
unfolding upsert_details
upsert_details-other user_id v fields s s' other done =
    by_row (find_first (of_profile user_id) s.user_profiles) refl
  where
    differs : (of_profile v (blank user_id)) ≡ false
    differs = ground arith

    kept_row :
        (o : Option UserProfile)
        → find_first (of_profile v) s.user_profiles ≡ o
        → Option.map (λ p. if of_profile user_id p then write_fields fields p else p) o ≡ o
    kept_row none e = ground arith
    kept_row (some p) e =
        let mine = find_first-sat (of_profile v) s.user_profiles p e in
        let not_theirs : of_profile user_id p ≡ false = ground arith in
        rw (not_theirs, Option.map) refl

    by_row :
        (o : Option UserProfile)
        → find_first (of_profile user_id) s.user_profiles ≡ o
        → find_first (of_profile v) s'.user_profiles ≡ find_first (of_profile v) s.user_profiles
    by_row none e =
        let d : ok (
          tt,
          record s { user_profiles = write_fields fields (blank user_id) ∷ s.user_profiles },
        )
            ≡ ok (tt, s') =
          sym (rw (e, upsert_details) refl) ∙ done in
        let t : s'
            ≡ record s { user_profiles = write_fields fields (blank user_id) ∷ s.user_profiles } =
          cc in
        ap (λ (x : Db). find_first (of_profile v) x.user_profiles) t
        ∙ (unfold find_first write_fields in rw differs refl)
    by_row (some row) e =
        let d : ok (
          tt,
          record s {
            user_profiles = update_where (of_profile user_id) (write_fields fields) s.user_profiles;
          },
        )
            ≡ ok (tt, s') =
          sym (rw (e, upsert_details) refl) ∙ done in
        let t : s' ≡ record s {
          user_profiles = update_where (of_profile user_id) (write_fields fields) s.user_profiles;
        } =
          cc in
        ap (λ (x : Db). find_first (of_profile v) x.user_profiles) t
        ∙ find_first-update (of_profile v) (of_profile user_id) (write_fields fields)
            s.user_profiles (unfold write_fields in λ p. refl)
        ∙ kept_row (find_first (of_profile v) s.user_profiles) refl

pub save_details-other :
    (user_id v : ℕ) (fields : ProfileFields) (s : Db) (rows : List UserProfile)
    → v ≢ user_id
    → save_details user_id fields s ≡ ok (tt, record s { user_profiles = rows })
    → find_first (of_profile v) rows ≡ find_first (of_profile v) s.user_profiles
unfolding save_details
save_details-other user_id v fields s rows other done = elim (Bool-cases (no_fields fields)) [
  | inl e ↦
      let d : ok (tt, s) ≡ ok (tt, record s { user_profiles = rows }) =
        sym (rw (e, save_details) refl) ∙ done in
      let t : record s { user_profiles = rows } ≡ s = cc in
      ap (λ (x : Db). find_first (of_profile v) x.user_profiles) t
  | inr e ↦
      let d : upsert_details user_id fields s ≡ ok (tt, record s { user_profiles = rows }) =
        sym (rw (e, save_details) refl) ∙ done in
      upsert_details-other user_id v fields s (record s { user_profiles = rows }) other d
]
