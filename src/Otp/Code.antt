-- ===== src/Otp/Code.antt =====
-- src/modules/otp/otp.code.ts: the keyed hashes of a code and of a verification.
use Prim.Native.String
use express_core.Base.{ℕ, String}
use express_core.Crypto.{Crypto}

module _ (c : Crypto) where
  abbrev pub normalize_email : String → String
  normalize_email email = c.to_lower (c.trim email)

  abbrev pub lines : String → String → String
  lines a b = String.◌++◌ a (String.◌++◌ "\n" b)

  abbrev pub hash_otp_code : String → String → String
  hash_otp_code email code = c.hmac_hex "otp-code" (lines email code)

  abbrev pub registration_ticket : String → ℕ → String
  registration_ticket otp_id verified_at =
      c.hmac_base64url "otp-ticket" (lines otp_id (c.to_iso_string verified_at))
