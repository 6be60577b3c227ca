-- ===== src/Tests/Users.antt =====
-- The deletion of one user.
use express_core.Users.Admin.Table.{UsersOk}
use express_core.Base.{◌∷◌, List, arith, [], refl, none, find_first, some, ◌≡◌, ◌==◌, count_where}
use express_core.Rbac.{Cache, read_user_access}
use express_core.Users.{delete_user, drop_access}
use express_core.Users.Deletion.{delete_user-ends_access}
use express_core.Accounts.{find_user_by_slug}
use express_core.Auth.Tokens.{of_user}
use express_core.Store.{User, Db, empty_db}
use express_core.Store.Exec.{ok}
use express_core.Tests.{ann, one_session, open_crypto}
use express_core.Users.Admin.Keys.{Request, create, update, delete, handle_all, handle_all-UsersOk}

abbrev empty_cache : Cache
empty_cache = record { version = none; entries = λ u. none; role_users = [] }

found_by_slug : find_user_by_slug "ann" one_session ≡ some ann
unfolding find_user_by_slug find_first
found_by_slug = refl

found_by_id : find_first (λ (u : User). u.id == 7) one_session.users ≡ some ann
unfolding find_first
found_by_id = refl

delete_user-ends_access_example :
    (s' : Db) × (delete_user "ann" (some 1) 900 (one_session, empty_cache)
      ≡ (ok tt, (s', drop_access 7 empty_cache)))
    × (count_where (of_user 7) s'.refresh_tokens ≡ 0)
    × ((read_user_access 7 (drop_access 7 empty_cache)).0 ≡ none)
delete_user-ends_access_example =
    delete_user-ends_access "ann" (some 1) 900 one_session empty_cache ann ann found_by_slug
      found_by_id

abbrev one_user : Db
one_user = record empty_db { users = ann ∷ []; next_user_id = 8 }

one_user-UsersOk : UsersOk one_user
one_user-UsersOk = record { slugs = (tt, tt); emails = (tt, tt); below = (omega arith, tt) }

abbrev three_requests : List Request
three_requests =
    create
      (record {
        name = "Ann";
        email = "ann2@example.org";
        password = "Secret1!";
        role_id = 1;
        avatar = none;
      })
      (some 1)
    ∷ update "ann"
        (record {
          name = some "Anna";
          email = some "ann2@example.org";
          password = none;
          role_id = some 1;
          avatar = none;
        })
        (some 1)
    ∷ delete "ann" (some 1) 900
    ∷ []

handle_all-UsersOk_example :
    UsersOk (handle_all open_crypto (λ t. t) three_requests (one_user, empty_cache)).0
handle_all-UsersOk_example =
    handle_all-UsersOk open_crypto (λ t. t) three_requests (one_user, empty_cache) one_user-UsersOk
