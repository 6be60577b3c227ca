-- ===== src/Users/Admin/Table.antt =====
-- The table of users: what its rows must satisfy, and what an update of one row leaves of it.
use express_core.Base.{
  ℕ, ◌<◌, String, Bool, true, false, Option, none, some, List, ◌≡◌, ◌≢◌, is_some, not, All, arith,
  eq_iff,
}
use express_core.Base.Distinct.{Distinct, Unused, All-map}
use express_core.Store.{User, Db}
use express_core.Accounts.{is, find_user_by_email, has_user_email, user_clashes, excluded}
use express_core.Accounts.Keys.{All-of_find-none}

abbrev pub user_id : User → ℕ
user_id u = u.id

abbrev pub user_slug : User → Option String
user_slug u = u.slug

abbrev pub user_email : User → Option String
user_email u = u.email

abbrev pub is_active : User → Bool
is_active u = not (is_some u.deleted_at)

-- No id twice, and no slug and no address in two active users.
pub record UsersOk (s : Db) : Type 0 where
  pub slugs : Distinct user_id user_slug is_active s.users
  pub emails : Distinct user_id user_email is_active s.users
  pub below : All (λ u. u.id < s.next_user_id) s.users

is_self : (o : Option String) (t : String) → o ≡ some t → is o t ≡ true
is_self none t h = absurd (cc h)
is_self (some u) t h = ground (arith, eq_iff u t)

pub Unused-slug :
    (exclude : Option ℕ) (slug : String) (i : ℕ) (rows : List User)
    → ((j : ℕ) → j ≢ i → excluded exclude j ≡ false)
    → All (λ u. user_clashes exclude slug u ≡ false) rows
    → Unused user_id user_slug is_active i slug rows
Unused-slug exclude slug i rows others free =
    All-map rows
      (λ (u : User) clash other live same.
        let e = others u.id other in let t = is_self u.slug slug same in absurd (ground arith))
      free

pub Unused-email :
    (email : String) (i : ℕ) (s : Db)
    → find_user_by_email email s ≡ none
    → Unused user_id user_email is_active i email s.users
unfolding find_user_by_email
Unused-email email i s free =
    All-map s.users
      (λ (u : User) clash other live same.
        let t = is_self u.email email same in absurd (ground arith))
      (All-of_find-none (has_user_email email) s.users free)
