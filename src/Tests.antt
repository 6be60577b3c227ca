-- ===== src/Tests.antt =====
-- Concrete data for the tests: a transparent cipher, one user, one session.
mod Sessions
mod Codes
mod Messages
mod Pages
mod Users
mod Roles
mod Profiles
mod Templates
mod Mail
mod Shutdown
mod Seeders
use Prim.Native.String.{String}
use Prim.Native.String
use express_core.Base.{[], ◌∷◌, some, none, refl, if◌then◌else◌, ◌==ₛ◌, true, ◌==◌}
use express_core.Crypto.{Crypto, GcmLaws, Bytes}
use express_core.Store.{User, RefreshToken, Db, empty_db}
use express_core.Auth.Rotation.{Draw}

abbrev zeros : Bytes
zeros = 0 ∷ 0 ∷ 0 ∷ 0 ∷ 0 ∷ 0 ∷ 0 ∷ 0 ∷ 0 ∷ 0 ∷ 0 ∷ 0 ∷ 0 ∷ 0 ∷ 0 ∷ 0 ∷ []

abbrev bytes_of : String → Bytes
bytes_of t = if t ==ₛ "bb" then 187 ∷ [] else 170 ∷ []

abbrev text_of : Bytes → String
text_of [] = ""
text_of (b ∷ bs) = if b == 187 then "bb" else "aa"

-- The cipher leaves its text as it is, with a tag of zeros.
abbrev pub open_crypto : Crypto
open_crypto = record {
  hash_token = λ t. String.◌++◌ "#" t;
  derive_key = λ t. [];
  encrypt = λ key iv aad plain. plain;
  auth_tag = λ key iv aad plain. zeros;
  decrypt = λ key iv aad tag body. some body;
  from_hex = bytes_of;
  to_hex = text_of;
  bcrypt_hash = λ t. String.◌++◌ "$" t;
  bcrypt_compare = λ t u. String.◌++◌ "$" t ==ₛ u;
  sign_access_token = λ id. "access";
  hmac_hex = λ purpose t. t;
  hmac_base64url = λ purpose t. t;
  to_iso_string = λ at. "Z";
  trim = λ t. t;
  to_lower = λ t. t;
  db_lower = λ t. t;
}

pub open_laws : GcmLaws open_crypto
open_laws = record {
  decrypt-encrypt = λ key iv aad plain. refl;
  length-auth_tag = λ key iv aad plain. refl;
  length-encrypt = λ key iv aad plain. refl;
}

abbrev pub ann : User
ann = record {
  id = 7;
  name = some "Ann";
  slug = some "ann";
  email = some "ann@example.org";
  password = some "$old";
  avatar = none;
  role_id = none;
  is_email_verified = true;
  deleted_at = none;
}

-- The row of the token "aa".
abbrev pub session : RefreshToken
session = record {
  id = "s1";
  token = "#aa";
  user_id = 7;
  family_id = "f";
  expires_at = 1000000;
  rotated_at = none;
  successor_ciphertext = none;
}

abbrev pub one_session : Db
one_session = record empty_db { users = ann ∷ []; refresh_tokens = session ∷ [] }

abbrev vector : Bytes
vector = 0 ∷ 1 ∷ 2 ∷ 3 ∷ 4 ∷ 5 ∷ 6 ∷ 7 ∷ 8 ∷ 9 ∷ 10 ∷ 11 ∷ []

-- The draws of a first request and of a later one.
abbrev pub draw : Draw
draw = record { successor = "bb"; iv = vector; row_id = "s2" }

abbrev pub other_draw : Draw
other_draw = record { successor = "cc"; iv = vector; row_id = "s3" }
