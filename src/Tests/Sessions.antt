-- ===== src/Tests/Sessions.antt =====
-- Sessions of one user.
use express_core.Auth.Session.{logout, refresh_access_token}
use express_core.Auth.Session.Laws.{logout_ends_session}
use express_core.Base.{[], ◌∷◌, refl, find_first, ◌≡◌, arith, some, update_where, true, false}
use express_core.Auth.Tokens.Revocation.{revoke_refresh_tokens}
use express_core.Auth.Tokens.Laws.{revoke_refresh_tokens_lem}
use express_core.Base.{count_where, delete_where}
use express_core.Auth.Tokens.{of_user}
use express_core.Config.{default_env}
use express_core.Store.Exec.{ok, err, app}
use express_core.Auth.Tokens.{mark, find_refresh_token, in_family}
use express_core.Store.{RefreshToken, Db}
use express_core.Auth.Rotation.{successor_row, rotate_refresh_token, issued}
use express_core.Auth.Rotation.Branches.{rotate_live, rotated_rows, IsFresh, HasUniqueKeys, quiet}
use express_core.Auth.Rotation.Convergence.{rotate_again, rotate_race}
use express_core.Auth.Rotation.Issued.{IsLive, rotate-IsLive}
use express_core.Auth.Successor.{open-seal, open_successor, seal_successor}
use express_core.Tests.{open_crypto, open_laws, session, one_session, draw, other_draw, vector, Db}

found_session : find_refresh_token (open_crypto.hash_token "aa") one_session ≡ some session
unfolding find_refresh_token find_first
found_session = refl

unique_keys : HasUniqueKeys one_session.refresh_tokens
unfolding find_first
unique_keys = ((refl, tt), (refl, tt))

IsFresh-draw : IsFresh open_crypto default_env draw one_session.refresh_tokens
unfolding find_first
IsFresh-draw = refl

-- The state after the first request.
abbrev rotated : Db
rotated = record one_session {
  refresh_tokens =
      rotated_rows open_crypto default_env draw "aa" session 500 one_session.refresh_tokens;
}

first_request :
    rotate_refresh_token open_crypto default_env quiet draw "aa" 500 one_session
    ≡ ok (issued 7 "bb", rotated)
first_request =
    rotate_live open_crypto default_env draw "aa" session 500 one_session found_session unique_keys
      IsFresh-draw (omega arith) refl

rotate_again_example :
    rotate_refresh_token open_crypto default_env quiet other_draw "aa" 700 rotated
    ≡ ok (issued 7 "bb", rotated)
rotate_again_example =
    rotate_again open_crypto default_env open_laws draw "aa" session 500 one_session rotated
      found_session unique_keys IsFresh-draw refl (refl, omega arith) (omega arith) refl
      first_request other_draw 700 (omega arith) (omega arith) (omega arith)

rotate_race_example :
    rotate_refresh_token open_crypto default_env (λ _. rotated) other_draw "aa" 500 one_session
    ≡ ok (issued 7 "bb", rotated)
rotate_race_example =
    rotate_race open_crypto default_env open_laws draw "aa" session 500 one_session rotated
      found_session unique_keys IsFresh-draw refl (refl, omega arith) (omega arith) refl
      first_request other_draw 500 (omega arith) (omega arith) (omega arith)

rotate-IsLive_example : IsLive open_crypto default_env 7 "bb" 500 rotated.refresh_tokens
rotate-IsLive_example =
    rotate-IsLive open_crypto default_env quiet draw "aa" 500 one_session rotated 7 "bb"
      (omega arith) first_request

open-seal_example :
    open_successor open_crypto "aa" "#aa" (seal_successor open_crypto vector "aa" "#aa" "bb")
    ≡ some "bb"
open-seal_example = open-seal open_crypto open_laws vector "aa" "#aa" "bb" refl (refl, omega arith)

abbrev rotated_session : RefreshToken
rotated_session = mark 500 (seal_successor open_crypto vector "aa" "#aa" "bb") session

abbrev successor_session : RefreshToken
successor_session = successor_row open_crypto default_env session 500 draw

found_old : find_refresh_token (open_crypto.hash_token "aa") rotated ≡ some rotated_session
unfolding find_refresh_token find_first update_where successor_row
found_old = refl

found_new : find_refresh_token (open_crypto.hash_token "bb") rotated ≡ some successor_session
unfolding find_refresh_token find_first update_where successor_row
found_new = refl

rotated_unique : HasUniqueKeys rotated.refresh_tokens
unfolding find_first update_where successor_row
rotated_unique = ((refl, (refl, tt)), (refl, (refl, tt)))

same_family : in_family 7 "f" successor_session ≡ true
unfolding successor_row
same_family = refl

logout_ends_session_example :
    ((logout open_crypto default_env false "aa" (rotated, 7 ∷ [])).0 ≡ ok tt)
    × ((refresh_access_token open_crypto default_env quiet other_draw "bb" 700
          (logout open_crypto default_env false "aa" (rotated, 7 ∷ [])).1.0).0
        ≡ err (app "Invalid refresh token" 401))
logout_ends_session_example =
    logout_ends_session open_crypto default_env false "aa" rotated_session "bb" successor_session
      rotated (7 ∷ []) other_draw 700 rotated_unique found_old found_new same_family refl

revoke_refresh_tokens_lem_example :
    revoke_refresh_tokens (λ pass seen rows. rows) (of_user 7) one_session
    ≡ ok (
      count_where (of_user 7) one_session.refresh_tokens,
      record one_session { refresh_tokens = delete_where (of_user 7) one_session.refresh_tokens },
    )
revoke_refresh_tokens_lem_example = revoke_refresh_tokens_lem (of_user 7) one_session
