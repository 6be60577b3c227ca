-- ===== src/Auth/Registration.antt =====
-- `register` of src/modules/auth/auth.service.ts. One reading of the clock serves the call; the
-- token is drawn by the caller.
use express_core.Base.{
  ℕ, ◌+◌, ◌*◌, String, Bool, true, false, Option, none, some, [], ◌∷◌, is_some, ◌==ₛ◌,
  if◌then◌else◌,
}
use express_core.Store.{User, text, Db}
use express_core.Store.Exec.{Tx, Exec, app, ok, err, pure, throw, gets, transaction, ◌>>=◌, ◌>>◌}
use express_core.Config.{Env, RegistrationMode, link, otp}
use express_core.Crypto.{Crypto}
use express_core.Accounts.Slugs.{fresh_user_slug}
use express_core.Accounts.{
  find_user_by_email, find_user_by_email_insensitive, create_user, find_active_role_id_by_slug,
}
use express_core.Outbox.{enqueue}
use express_core.Otp.Service.{consume_for_registration}
use express_core.Auth.EmailTokens.{scalar, create_email_verification_token}

pub record RegisterInput : Type 0 where
  pub name : String
  pub email : String
  pub password : String
  pub registration_token : Option String

module _ (c : Crypto) (e : Env) where
  unfoldable pub default_role_id : Tx (Option ℕ)
  default_role_id s = elim e.registration_default_role [
    | none ↦ ok (none, s)
    | some slug ↦ if slug ==ₛ "" then ok (none, s) else elim (find_active_role_id_by_slug slug s) [
      | none ↦ err (app "Registration is temporarily unavailable" 500)
      | some id ↦ ok (some id, s)
    ]
  ]

  -- The account's address lookup and, in OTP mode, the verified code, by mode.
  unfoldable pub existing_user : RegistrationMode → String → Db → Option User
  existing_user link email s = find_user_by_email email s
  existing_user otp email s = find_user_by_email_insensitive c email s

  unfoldable pub prove_email : RegistrationMode → RegisterInput → ℕ → Tx (Unit {0})
  prove_email link input now = pure tt
  prove_email otp input now = consume_for_registration c e input.email input.registration_token now

  abbrev is_otp : RegistrationMode → Bool
  is_otp otp = true
  is_otp link = false

  abbrev new_user : RegisterInput → String → Option ℕ → User
  new_user input slug role_id = record {
    id = 0;
    name = some input.name;
    slug = some slug;
    email = some input.email;
    password = some (c.bcrypt_hash input.password);
    avatar = none;
    role_id = role_id;
    is_email_verified = is_otp e.registration_verification;
    deleted_at = none;
  }

  -- Link mode only: the token and the e-mail intent.
  unfoldable pub start_verification : RegistrationMode → String → ℕ → User → Tx (Unit {0})
  start_verification otp token now user = pure tt
  start_verification link token now user = do
    create_email_verification_token (record {
      token = token;
      user_id = user.id;
      expires_at = now + e.email_verification_expires_hours * 3600000;
    })
    enqueue now "email" "sendVerificationEmail"
        (("email", scalar user.email) ∷ ("name", scalar user.name) ∷ ("token", text token) ∷ [])
    pure tt

  -- Once the address is free.
  unfoldable pub create_account : (String → String) → RegisterInput → String → ℕ → Tx User
  create_account to_lower input token now = do
    prove_email e.registration_verification input now
    role_id ← default_role_id
    slug ← fresh_user_slug to_lower none input.name
    user ← create_user (new_user input slug role_id)
    start_verification e.registration_verification token now user
    pure user

  unfoldable pub register : (String → String) → RegisterInput → String → ℕ → Exec User
  register to_lower input token now = transaction do
    existing ← gets (existing_user e.registration_verification input.email)
    if is_some existing
        then throw (app "Email already in use" 400)
        else create_account to_lower input token now
