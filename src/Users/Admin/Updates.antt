-- ===== src/Users/Admin/Updates.antt =====
-- The table of users after `updateUser` (user.service.ts).
use express_core.Users.Admin.Table.{
  user_id, user_slug, user_email, is_active, UsersOk, Unused-slug, Unused-email,
}
use Prim.Native.String
use express_core.Base.{
  ℕ, String, true, false, Option, none, some, ◌≡◌, refl, sym, ap, ◌∙◌, inl, inr, ◌==◌, ◌==ₛ◌,
  is_some, find_first, update_where, arith, Bool-cases, Option-cases, eq_iff,
}
use express_core.Base.Distinct.{
  Distinct, Unused, All-update, Distinct-update_kept, Distinct-update_new, Distinct-Unused,
}
use express_core.Base.RowLaws.{find_first-sat}
use express_core.Store.{User, Db}
use express_core.Store.Exec.{ok, db, transaction, transaction-ok, transaction-err}
use express_core.Crypto.{Crypto}
use express_core.Accounts.{find_user_by_email, find_user_by_slug, update_user}
use express_core.Accounts.Keys.{fresh_user_slug-unused}
use express_core.Activity.{log_activity_rest}
use express_core.Roles.{given, changed}
use express_core.Users.{shown}
use express_core.Users.Admin.{
  UpdateUserInput, new_slug, or_old, apply_user_update, update_user_steps, email_in_use,
}

pub update_row-UsersOk :
    (id : ℕ) (f : User → User) (s : Db)
    → Distinct user_id user_slug is_active (update_where (λ (u : User). u.id == id) f s.users)
    → Distinct user_id user_email is_active (update_where (λ (u : User). u.id == id) f s.users)
    → ((u : User) → (f u).id ≡ u.id)
    → UsersOk s
    → UsersOk (record s { users = update_where (λ (u : User). u.id == id) f s.users })
update_row-UsersOk id f s d d' same_id i = record {
  slugs = d;
  emails = d';
  below = All-update _ f s.users (λ u lt. let e = same_id u in omega arith) i.below;
}

-- A key that an update writes is the old one, or one that no other active user has.
update_slug :
    (c : Crypto) (to_lower : String → String) (id : ℕ) (t : Option String) (input : UpdateUserInput)
    (s : Db)
    → UsersOk s
    → (slug : Option String) × (new_slug to_lower id t s ≡ ok (slug, s))
      × Distinct user_id user_slug is_active
          (update_where (λ (u : User). u.id == id) (apply_user_update c input slug) s.users)
unfolding apply_user_update
update_slug c to_lower id none input s i = (
  none,
  refl,
  Distinct-update_kept user_id user_slug is_active id (apply_user_update c input none) (λ u. refl)
      (λ u h. h) s.users (λ u. refl) i.slugs,
)
update_slug c to_lower id (some t) input s i =
    let (slug, drawn, free) = fresh_user_slug-unused to_lower (some id) t s in
    (
      some slug,
      rw (drawn, new_slug) refl,
      elim (Bool-cases (slug ==ₛ "")) [
        | inl e ↦
            Distinct-update_kept user_id user_slug is_active id
              (apply_user_update c input (some slug)) (λ u. refl) (λ u h. h) s.users
              (λ u. rw e refl) i.slugs
        | inr e ↦
            Distinct-update_new user_id user_slug is_active id
              (apply_user_update c input (some slug)) (λ u. refl) (λ u h. h) slug s.users
              (λ u. rw e refl)
              (Unused-slug (some id) slug id s.users (λ j other. ground arith) free) i.slugs
      ],
    )

update_email :
    (c : Crypto) (input : UpdateUserInput) (slug : Option String) (user : User) (at : String)
    (s : Db)
    → find_user_by_slug at s ≡ some user
    → email_in_use (changed (given input.email) user.email) s ≡ false
    → UsersOk s
    → Distinct user_id user_email is_active
        (update_where (λ (u : User). u.id == user.id) (apply_user_update c input slug) s.users)
unfolding apply_user_update find_user_by_slug
update_email c input slug user at s found free i =
    by_email (given input.email) user.email refl refl free
  where
    live : is_active user ≡ true
    live = let h = find_first-sat _ s.users user found in ground arith

    written :
        (t : String)
        → given input.email ≡ some t
        → Unused user_id user_email is_active user.id t s.users
        → Distinct user_id user_email is_active
            (update_where (λ (u : User). u.id == user.id) (apply_user_update c input slug) s.users)
    written t e unused =
        Distinct-update_new user_id user_email is_active user.id (apply_user_update c input slug)
          (λ u. refl) (λ u h. h) t s.users (λ u. ap (λ o. or_old o u.email) e) unused i.emails

    no_user : (o : Option User) → is_some o ≡ false → o ≡ none
    no_user none h = refl
    no_user (some u) h = cc

    by_email :
        (o old : Option String)
        → given input.email ≡ o
        → user.email ≡ old
        → email_in_use (changed o old) s ≡ false
        → Distinct user_id user_email is_active
            (update_where (λ (u : User). u.id == user.id) (apply_user_update c input slug) s.users)
    by_email none old e same f =
        Distinct-update_kept user_id user_email is_active user.id (apply_user_update c input slug)
          (λ u. refl) (λ u h. h) s.users (λ u. ap (λ o. or_old o u.email) e) i.emails
    by_email (some t) none e same f =
        written t e (Unused-email t user.id s (no_user (find_user_by_email t s) f))
    by_email (some t) (some u) e same f = elim (Bool-cases (t ==ₛ u)) [
      | inl k ↦ written t e (
          Distinct-Unused user_id user_email is_active _ user t s.users found live
            (same ∙ ap some (sym ((eq_iff t u).0 k))) i.emails)
      | inr k ↦
          written t e (
            Unused-email t user.id s (no_user (find_user_by_email t s) (let g = f in ground arith)))
    ]

pub update_user_steps-UsersOk :
    (c : Crypto) (to_lower : String → String) (at : String) (user : User) (input : UpdateUserInput)
    (by : Option ℕ) (s : Db)
    → find_user_by_slug at s ≡ some user
    → email_in_use (changed (given input.email) user.email) s ≡ false
    → UsersOk s
    → UsersOk (transaction (update_user_steps c to_lower user input by) s).1
unfolding update_user_steps update_user
update_user_steps-UsersOk c to_lower at user input by s found free i =
    let (slug, drawn, d) =
      update_slug c to_lower user.id (changed (given input.name) user.name) input s i in
    elim (Option-cases (find_first (λ (u : User). u.id == user.id) s.users)) [
      | inl missing ↦
          rw
            (transaction-err (update_user_steps c to_lower user input by) s
              (db "record to update not found") (rw (drawn, update_user, missing) refl))
            i
      | inr (row, known) ↦
          let f = apply_user_update c input slug in
          let s₁ = record s { users = update_where (λ (u : User). u.id == user.id) f s.users } in
          let (logs, logged) =
            log_activity_rest by "UPDATE" "User" user.id
              (some (String.◌++◌ "User updated: " (shown (f row).name))) s₁ in
          let j =
            update_row-UsersOk user.id f s d (update_email c input slug user at s found free i)
              (unfold apply_user_update in λ u. refl) i in
          rw
            (transaction-ok (update_user_steps c to_lower user input by) s
              (f row, record s₁ { activity_logs = logs })
              (rw (drawn, known, update_user, logged) refl))
            (record { slugs = j.slugs; emails = j.emails; below = j.below })
    ]
