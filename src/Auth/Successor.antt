-- ===== src/Auth/Successor.antt =====
-- src/modules/auth/refresh-successor.ts: version | iv | tag | ciphertext.
use express_core.Base.{
  ℕ, ◌+◌, ◌<◌, String, ◌≡◌, refl, ◌||◌, not, Option, none, some, [], ◌∷◌, ◌++◌, arith, length, leb,
  leb-false_of_lt, ◌==◌, if◌then◌else◌,
}
use express_core.Base.Bytes.{take, drop, take-append, drop-append, length-append}
use express_core.Crypto.{Bytes, Crypto, GcmLaws}

abbrev version : ℕ
version = 1

abbrev pub iv_bytes : ℕ
iv_bytes = 12

abbrev tag_bytes : ℕ
tag_bytes = 16

abbrev header_bytes : ℕ
header_bytes = 1 + iv_bytes + tag_bytes

module _ (c : Crypto) where
  unfoldable pub seal_successor : Bytes → String → String → String → Bytes
  seal_successor iv predecessor_token predecessor_hash successor_token =
      let key = c.derive_key predecessor_token in
      let plain = c.from_hex successor_token in
      (version ∷ [])
      ++ (iv
          ++ (c.auth_tag key iv predecessor_hash plain ++ c.encrypt key iv predecessor_hash plain))

  abbrev first_byte : Bytes → ℕ
  first_byte [] = 0
  first_byte (b ∷ bs) = b

  unfoldable pub open_successor : String → String → Bytes → Option String
  open_successor predecessor_token predecessor_hash sealed =
      if leb (length sealed) header_bytes || not (first_byte sealed == version)
      then none
      else elim (c.decrypt (c.derive_key predecessor_token) (take iv_bytes (drop 1 sealed))
          predecessor_hash (take tag_bytes (drop (1 + iv_bytes) sealed))
          (drop header_bytes sealed)) [ none ↦ none | some plain ↦ some (c.to_hex plain) ]

  -- A token as generateToken makes it: hex digits that stand for at least one byte.
  abbrev pub IsHexToken : String → Type 0
  IsHexToken t = (c.to_hex (c.from_hex t) ≡ t) × (0 < length (c.from_hex t))

  -- When the cipher opens what it seals, what is sealed for a predecessor token and its row with a
  -- twelve-byte vector opens again, under the same token and row, to the same hex successor.
  pub open-seal :
      (laws : GcmLaws c) (iv : Bytes) (token hash successor : String)
      → length iv ≡ iv_bytes
      → IsHexToken successor
      → open_successor token hash (seal_successor iv token hash successor) ≡ some successor
  unfolding open_successor seal_successor
  open-seal laws iv token hash successor l (hex, room) =
      let key = c.derive_key token in
      let plain = c.from_hex successor in
      let tag = c.auth_tag key iv hash plain in
      let body = c.encrypt key iv hash plain in
      rw
        (leb-false_of_lt (length ((version ∷ []) ++ (iv ++ (tag ++ body)))) header_bytes (
          omega (
            arith,
            length-append {0} iv (tag ++ body),
            length-append {0} tag body,
            laws.length-auth_tag key iv hash plain,
            laws.length-encrypt key iv hash plain,
          )))
        (rw
          (
            take-append 12 iv (tag ++ body) l,
            drop-append iv (tag ++ body) 12 0 (omega arith),
            drop-append iv (tag ++ body) 28 16 (omega arith),
            take-append 16 tag body (laws.length-auth_tag key iv hash plain),
            drop-append tag body 16 0 (omega (arith, laws.length-auth_tag key iv hash plain)),
            laws.decrypt-encrypt key iv hash plain,
            hex,
          )
          refl)
