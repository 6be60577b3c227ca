-- ===== src/Users/Admin/Keys.antt =====
-- The table of users over any sequence of administration requests (user.service.ts).
use express_core.Users.Admin.Updates.{update_row-UsersOk, update_user_steps-UsersOk}
use express_core.Users.Admin.Table.{
  user_id, user_slug, user_email, is_active, UsersOk, Unused-slug, Unused-email,
}
use Prim.Native.String
use express_core.Base.{
  ℕ, ◌+◌, String, Option, none, some, List, [], ◌∷◌, ◌≡◌, refl, inl, inr, ◌==◌, find_first,
  update_where, arith, Bool-cases, Option-cases, subst, delete_where,
}
use express_core.Base.Distinct.{Unused, All-map, Distinct-insert, Distinct-update_kept}
use express_core.Store.{User, Db}
use express_core.Store.Exec.{Result, ok, err, db, app, transaction, transaction-ok, transaction-err}
use express_core.Crypto.{Crypto}
use express_core.Accounts.{
  find_user_by_email, find_user_by_slug, update_user, create_user, soft_delete_user,
}
use express_core.Accounts.Keys.{fresh_user_slug-unused}
use express_core.Activity.{log_activity_rest}
use express_core.Auth.Tokens.{delete_refresh_tokens_by_user_id, of_user}
use express_core.Auth.Tokens.Laws.{revoke_refresh_tokens_lem}
use express_core.Rbac.{Cache}
use express_core.Roles.{given, changed}
use express_core.Users.{shown, delete_steps, delete_user, answer_delete}
use express_core.Users.Admin.{
  CreateUserInput, UpdateUserInput, new_user, insert_user, create_user_steps, admin_create_user,
  update_user_steps, email_in_use, finish, update_found, admin_update_user,
}

-- A request to the user service, with what its caller passes.
pub data Request : Type 0 where
  create : CreateUserInput → Option ℕ → Request
  update : String → UpdateUserInput → Option ℕ → Request
  delete : String → Option ℕ → ℕ → Request

unfoldable pub handle : Crypto → (String → String) → Request → Db × Cache → Db × Cache
handle c to_lower (create input by) w = ((admin_create_user c to_lower input by w.0).1, w.1)
handle c to_lower (update slug input by) w = (admin_update_user c to_lower slug input by w).1
handle c to_lower (delete slug by now) w = (delete_user slug by now w).1

unfoldable pub handle_all : Crypto → (String → String) → List Request → Db × Cache → Db × Cache
unfolding handle
handle_all c to_lower [] w = w
handle_all c to_lower (r ∷ rest) w = handle_all c to_lower rest (handle c to_lower r w)

insert_user-UsersOk :
    (c : Crypto) (to_lower : String → String) (input : CreateUserInput) (by : Option ℕ) (s : Db)
    → find_user_by_email input.email s ≡ none
    → UsersOk s
    → (u : User) × (s' : Db) × (insert_user c to_lower input by s ≡ ok (u, s')) × UsersOk s'
unfolding insert_user create_user
insert_user-UsersOk c to_lower input by s free_email i =
    let (slug, drawn, free) = fresh_user_slug-unused to_lower none input.name s in
    let row : User = record (new_user c input slug) { id = s.next_user_id } in
    let s₁ = record s { users = row ∷ s.users; next_user_id = s.next_user_id + 1 } in
    let (logs, logged) =
      log_activity_rest by "CREATE" "User" s.next_user_id
        (some (String.◌++◌ "User created: " input.name)) s₁ in
    (
      row,
      record s₁ { activity_logs = logs },
      rw (drawn, create_user, logged) refl,
      record {
        slugs =
            Distinct-insert user_id user_slug is_active row s.users i.below
              (λ t e.
                subst (λ v. Unused user_id user_slug is_active s.next_user_id v s.users)
                  (ground arith)
                  (Unused-slug none slug s.next_user_id s.users (λ j other. refl) free))
              i.slugs;
        emails =
            Distinct-insert user_id user_email is_active row s.users i.below
              (λ t e.
                subst (λ v. Unused user_id user_email is_active s.next_user_id v s.users)
                  (ground arith) (Unused-email input.email s.next_user_id s free_email))
              i.emails;
        below = (omega arith, All-map s.users (λ u lt. omega arith) i.below);
      },
    )

delete_steps-UsersOk :
    (user : User) (by : Option ℕ) (now : ℕ) (s : Db)
    → UsersOk s
    → UsersOk (transaction (delete_steps user by now) s).1
unfolding delete_steps soft_delete_user update_user delete_refresh_tokens_by_user_id
delete_steps-UsersOk user by now s i =
    elim (Option-cases (find_first (λ (u : User). u.id == user.id) s.users)) [
      | inl missing ↦
          rw
            (transaction-err (delete_steps user by now) s (db "record to update not found")
              (rw (soft_delete_user, update_user, missing) refl))
            i
      | inr (row, known) ↦
          let f : User → User = λ u. record u { deleted_at = some now } in
          let s₁ = record s {
            users = update_where (λ (u : User). u.id == user.id) f s.users;
            refresh_tokens = delete_where (of_user user.id) s.refresh_tokens;
          } in
          let (logs, logged) =
            log_activity_rest by "DELETE" "User" user.id
              (some (String.◌++◌ "User deleted: " (shown user.name))) s₁ in
          let j =
            update_row-UsersOk user.id f s
              (Distinct-update_kept user_id user_slug is_active user.id f (λ u. refl)
                (λ u h. absurd (cc h)) s.users (λ u. refl) i.slugs)
              (Distinct-update_kept user_id user_email is_active user.id f (λ u. refl)
                (λ u h. absurd (cc h)) s.users (λ u. refl) i.emails)
              (λ u. refl) i in
          rw
            (transaction-ok (delete_steps user by now) s (tt, record s₁ { activity_logs = logs })
              (rw
                (
                  soft_delete_user,
                  update_user,
                  known,
                  delete_refresh_tokens_by_user_id,
                  revoke_refresh_tokens_lem (of_user user.id),
                  logged,
                )
                refl))
            (record { slugs = j.slugs; emails = j.emails; below = j.below })
    ]

create-UsersOk :
    (c : Crypto) (to_lower : String → String) (input : CreateUserInput) (by : Option ℕ) (s : Db)
    → UsersOk s
    → UsersOk (admin_create_user c to_lower input by s).1
unfolding admin_create_user create_user_steps
create-UsersOk c to_lower input by s i = elim (Option-cases (find_user_by_email input.email s)) [
  | inr (u, used) ↦
      rw
        (transaction-err (create_user_steps c to_lower input by) s (app "Email already in use" 400)
          (rw used refl))
        i
  | inl free ↦
      let (u, s', done, j) = insert_user-UsersOk c to_lower input by s free i in
      rw (transaction-ok (create_user_steps c to_lower input by) s (u, s') (rw free done)) j
]

update-UsersOk :
    (c : Crypto) (to_lower : String → String) (slug : String) (input : UpdateUserInput)
    (by : Option ℕ) (w : Db × Cache)
    → UsersOk w.0
    → UsersOk (admin_update_user c to_lower slug input by w).1.0
unfolding admin_update_user
update-UsersOk c to_lower slug input by w i = elim (Option-cases (find_user_by_slug slug w.0)) [
  | inl missing ↦ rw (missing, admin_update_user) i
  | inr (user, found) ↦
      elim (Bool-cases (email_in_use (changed (given input.email) user.email) w.0)) [
        | inl used ↦ rw (found, admin_update_user, used, update_found) i
        | inr free ↦
            rw
              (
                found,
                admin_update_user,
                free,
                update_found,
                finish_db user.id w.1
                    (transaction (update_user_steps c to_lower user input by) w.0),
              )
              (update_user_steps-UsersOk c to_lower slug user input by w.0 found free i)
      ]
]
  where
    finish_db : (id : ℕ) (cache : Cache) (r : Result User × Db) → (finish id cache r).1.0 ≡ r.1
    finish_db id cache (ok a, s) = refl
    finish_db id cache (err e, s) = refl

delete-UsersOk :
    (slug : String) (by : Option ℕ) (now : ℕ) (w : Db × Cache)
    → UsersOk w.0
    → UsersOk (delete_user slug by now w).1.0
unfolding delete_user
delete-UsersOk slug by now w i = elim (Option-cases (find_user_by_slug slug w.0)) [
  | inl missing ↦ rw (missing, delete_user) i
  | inr (user, found) ↦
      rw (found, delete_user, answer_db user.id w.1 (transaction (delete_steps user by now) w.0))
        (delete_steps-UsersOk user by now w.0 i)
]
  where
    answer_db :
        (id : ℕ) (cache : Cache) (r : Result (Unit {0}) × Db) → (answer_delete id cache r).1.0 ≡ r.1
    answer_db id cache (ok a, s) = refl
    answer_db id cache (err e, s) = refl

-- When no two users have the same id, no two active users share a slug or an e-mail address, and
-- the sequence of ids is ahead of the ids in the table, the same holds after any sequence of
-- administration requests that create, update and delete users, whatever they answer.
pub handle_all-UsersOk :
    (c : Crypto) (to_lower : String → String) (requests : List Request) (w : Db × Cache)
    → UsersOk w.0
    → UsersOk (handle_all c to_lower requests w).0
unfolding handle_all handle
handle_all-UsersOk c to_lower [] w i = i
handle_all-UsersOk c to_lower (create input by ∷ rest) w i =
    handle_all-UsersOk c to_lower rest _ (create-UsersOk c to_lower input by w.0 i)
handle_all-UsersOk c to_lower (update slug input by ∷ rest) w i =
    handle_all-UsersOk c to_lower rest _ (update-UsersOk c to_lower slug input by w i)
handle_all-UsersOk c to_lower (delete slug by now ∷ rest) w i =
    handle_all-UsersOk c to_lower rest _ (delete-UsersOk slug by now w i)
