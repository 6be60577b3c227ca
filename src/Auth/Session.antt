-- ===== src/Auth/Session.antt =====
-- `login`, `refreshAccessToken` and `logout` of src/modules/auth/auth.service.ts.
pub mod Laws
use express_core.Base.{
  ℕ, ◌+◌, ◌*◌, String, Bool, not, Option, none, some, List, ◌==◌, ◌==ₛ◌, delete_where,
  if◌then◌else◌,
}
use express_core.Store.{User, RefreshToken, Db}
use express_core.Store.Exec.{Exec, Error, app, other, Result, ok, err, transaction}
use express_core.Config.{Env}
use express_core.Crypto.{Crypto}
use express_core.Accounts.{find_user_by_email}
use express_core.Auth.Tokens.{find_refresh_token, create_refresh_token, delete_refresh_token_family}
use express_core.Auth.Rotation.{
  RotationOutcome, issued, invalid, expired, reused, Draw, rotate_refresh_token,
}

pub record AuthTokens : Type 0 where
  pub access_token : String
  pub refresh_token : String

module _ (c : Crypto) (e : Env) where
  abbrev answer_login : String → User → Result (Unit {0} × Db) → Db → Result AuthTokens × Db
  answer_login token user (ok r) s =
      (ok (record { access_token = c.sign_access_token user.id; refresh_token = token }), r.1)
  answer_login token user (err x) s = (err x, s)

  -- The session of a new login: its row id and family are drawn by the client and the database.
  abbrev login_row : String → String → String → ℕ → User → RefreshToken
  login_row id family_id token now user = record {
    id = id;
    token = c.hash_token token;
    user_id = user.id;
    family_id = family_id;
    expires_at = now + e.refresh_token_expires_days * 86400000;
    rotated_at = none;
    successor_ciphertext = none;
  }

  abbrev cannot_sign_in : Error
  cannot_sign_in =
      app "Unable to sign in. Please verify your credentials or activate your account first." 401

  -- bcryptjs refuses to compare with null.
  abbrev no_password : Error
  no_password = other "Illegal arguments: string, object"

  unfoldable pub login : String → String → String → String → String → ℕ → Exec AuthTokens
  login id family_id token email password now s = elim (find_user_by_email email s) [
    | none ↦ (err cannot_sign_in, s)
    | some user ↦
        if not user.is_email_verified then (err cannot_sign_in, s) else elim user.password [
          | none ↦ (err no_password, s)
          | some hash ↦
              if c.bcrypt_compare password hash
              then answer_login token user
                  (create_refresh_token (login_row id family_id token now user) s) s
              else (err (app "Invalid email or password" 401), s)
        ]
  ]

  abbrev answer_rotation : Result RotationOutcome × Db → Result AuthTokens × Db
  answer_rotation (ok (issued user_id token), s) =
      (ok (record { access_token = c.sign_access_token user_id; refresh_token = token }), s)
  answer_rotation (ok expired, s) = (err (app "Refresh token expired" 401), s)
  answer_rotation (ok (reused user_id family_id), s) = (err (app "Invalid refresh token" 401), s)
  answer_rotation (ok invalid, s) = (err (app "Invalid refresh token" 401), s)
  answer_rotation (err x, s) = (err x, s)

  -- A missing cookie is the empty text.
  unfoldable pub refresh_access_token : (Db → Db) → Draw → String → ℕ → Exec AuthTokens
  refresh_access_token race d token now s =
      let result = transaction (rotate_refresh_token c e race d token now) s in
      if token ==ₛ "" then (err (app "Refresh token required" 401), s) else answer_rotation result

  -- The users whose profile is cached. A cache that is down keeps its entry, and nobody is told.
  abbrev drop_profile : Bool → ℕ → List ℕ → List ℕ
  drop_profile down user_id cached =
      if down then cached else delete_where (λ u. u == user_id) cached

  abbrev answer_logout :
      Result (ℕ × Db) → (List ℕ → List ℕ) → Db × List ℕ → Result (Unit {0}) × (Db × List ℕ)
  answer_logout (ok r) drop w = (ok tt, (r.1, drop w.1))
  answer_logout (err x) drop w = (err x, w)

  unfoldable pub logout : Bool → String → Db × List ℕ → Result (Unit {0}) × (Db × List ℕ)
  logout down token w = elim (find_refresh_token (c.hash_token token) w.0) [
    | none ↦ (err (app "Invalid refresh token" 401), w)
    | some r ↦
        answer_logout (delete_refresh_token_family r.user_id r.family_id w.0)
          (drop_profile down r.user_id) w
  ]
