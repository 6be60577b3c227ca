-- ===== src/Auth/Session/Laws.antt =====
-- Logout, and refreshes after it (auth.service.ts).
use express_core.Base.{
  ℕ, String, ◌≡◌, refl, Bool, true, false, none, some, List, ◌==ₛ◌, delete_where, ap,
}
use express_core.Base.RowLaws.{find_first-delete_hit}
use express_core.Store.{RefreshToken, Db}
use express_core.Store.Exec.{ok, err, app, transaction-ok}
use express_core.Config.{Env}
use express_core.Crypto.{Crypto}
use express_core.Auth.Tokens.{in_family, find_refresh_token, delete_refresh_token_family}
use express_core.Auth.Tokens.Laws.{revoke_refresh_tokens_lem}
use express_core.Auth.Rotation.{Draw, rotate_row, rotate_refresh_token, invalid}
use express_core.Auth.Rotation.Branches.{HasUniqueKeys, quiet}
use express_core.Auth.Session.{
  drop_profile, logout, refresh_access_token, answer_logout, answer_rotation,
}

module _ (c : Crypto) (e : Env) where
  -- A known token logs its whole family out, whether or not the cache answers.
  pub logout_lem :
      (down : Bool) (token : String) (r : RefreshToken) (s : Db) (cached : List ℕ)
      → find_refresh_token (c.hash_token token) s ≡ some r
      → logout c e down token (s, cached) ≡ (
        ok tt,
        (
          record s {
            refresh_tokens = delete_where (in_family r.user_id r.family_id) s.refresh_tokens;
          },
          drop_profile c e down r.user_id cached,
        ),
      )
  unfolding logout delete_refresh_token_family
  logout_lem down token r s cached found =
      rw (found, logout)
        (ap (λ o. answer_logout c e o (drop_profile c e down r.user_id) (s, cached))
          (revoke_refresh_tokens_lem (in_family r.user_id r.family_id) s))

  rotate_missing :
      (d : Draw) (token : String) (now : ℕ) (s : Db)
      → find_refresh_token (c.hash_token token) s ≡ none
      → rotate_refresh_token c e quiet d token now s ≡ ok (invalid, s)
  unfolding rotate_refresh_token
  rotate_missing d token now s missing = rw (missing, rotate_row) refl

  -- A token without a row is refused.
  pub refresh_unknown :
      (d : Draw) (token : String) (now : ℕ) (s : Db)
      → (token ==ₛ "") ≡ false
      → find_refresh_token (c.hash_token token) s ≡ none
      → refresh_access_token c e quiet d token now s ≡ (err (app "Invalid refresh token" 401), s)
  unfolding refresh_access_token
  refresh_unknown d token now s named missing = rw named (
      ap (answer_rotation c e) (
        transaction-ok (rotate_refresh_token c e quiet d token now) s (invalid, s)
          (rotate_missing d token now s missing)))

  -- When keys are unique and two tokens belong to one session, a logout by the first succeeds,
  -- whether or not the cache answers, and then a refresh by the second, which is not the empty
  -- text, is refused at any time.
  pub logout_ends_session :
      (down : Bool) (token : String) (r : RefreshToken) (other : String) (r' : RefreshToken)
      (s : Db) (cached : List ℕ) (d : Draw) (now : ℕ)
      → HasUniqueKeys s.refresh_tokens
      → find_refresh_token (c.hash_token token) s ≡ some r
      → find_refresh_token (c.hash_token other) s ≡ some r'
      → in_family r.user_id r.family_id r' ≡ true
      → (other ==ₛ "") ≡ false
      → (logout c e down token (s, cached)).0 ≡ ok tt
        × ((refresh_access_token c e quiet d other now (logout c e down token (s, cached)).1.0).0
            ≡ err (app "Invalid refresh token" 401))
  unfolding find_refresh_token
  logout_ends_session down token r other r' s cached d now keys found found' same named =
      rw (logout_lem down token r s cached found) (
        refl,
        ap (λ o. o.0)
            (refresh_unknown d other now _ named (
              find_first-delete_hit (λ t. t.token) (in_family r.user_id r.family_id)
                (c.hash_token other) s.refresh_tokens r' keys.0 found' same)),
      )
