-- ===== src/Crypto.antt =====
-- What src/ takes from node:crypto, bcryptjs and jsonwebtoken, with the documented behaviour that
-- some theorems assume. Random values (tokens, codes, row ids, initialisation vectors) are
-- arguments of the operations that draw them.
use express_core.Base.{ℕ, String, ◌≡◌, Bool, Option, some, List, length}

abbrev pub Bytes : Type 0
Bytes = List ℕ

pub record Crypto : Type 0 where
  -- createHash('sha256') of a token, in hex
  pub hash_token : String → String
  -- hkdfSync with the server secret as salt
  pub derive_key : String → Bytes
  -- createCipheriv('aes-256-gcm', key, iv) with associated data: the ciphertext and its tag
  pub encrypt : Bytes → Bytes → String → Bytes → Bytes
  pub auth_tag : Bytes → Bytes → String → Bytes → Bytes
  -- createDecipheriv: key, iv, associated data, tag, ciphertext; none when `final` throws
  pub decrypt : Bytes → Bytes → String → Bytes → Bytes → Option Bytes
  -- Buffer.from(text, 'hex') and toString('hex')
  pub from_hex : String → Bytes
  pub to_hex : Bytes → String
  -- bcrypt.hash and bcrypt.compare at the configured cost
  pub bcrypt_hash : String → String
  pub bcrypt_compare : String → String → Bool
  -- jwt.sign of the subject with the configured lifetime
  pub sign_access_token : ℕ → String
  -- HMAC-SHA256 of a text under the key that hkdfSync derives from the server secret for a
  -- purpose, in hex and in base64url
  pub hmac_hex : String → String → String
  pub hmac_base64url : String → String → String
  -- Date.toISOString, String.trim and String.toLowerCase
  pub to_iso_string : ℕ → String
  pub trim : String → String
  pub to_lower : String → String
  -- lower() of the database
  pub db_lower : String → String

-- GCM opens what it sealed under the same key, vector and associated data; its tag has 16 bytes
-- and its ciphertext the length of the plain text.
pub record GcmLaws (c : Crypto) : Type 0 where
  pub decrypt-encrypt :
      (key iv : Bytes) (aad : String) (plain : Bytes)
      → c.decrypt key iv aad (c.auth_tag key iv aad plain) (c.encrypt key iv aad plain) ≡ some plain
  pub length-auth_tag :
      (key iv : Bytes) (aad : String) (plain : Bytes) → length (c.auth_tag key iv aad plain) ≡ 16
  pub length-encrypt :
      (key iv : Bytes) (aad : String) (plain : Bytes)
      → length (c.encrypt key iv aad plain) ≡ length plain
