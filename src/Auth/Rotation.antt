-- ===== src/Auth/Rotation.antt =====
-- src/modules/auth/refresh-rotation.ts
pub mod Branches
pub mod Issued
pub mod Convergence
use express_core.Base.{
  ℕ, zero, suc, ◌+◌, ◌-◌, ◌*◌, String, Option, none, some, List, ltb, leb, find_first,
  if◌then◌else◌, Bool, true, false,
}
use express_core.Store.{RefreshToken, Db}
use express_core.Store.Exec.{Tx, pure, gets, modify, ◌>>=◌, ◌>>◌}
use express_core.Config.{Env}
use express_core.Crypto.{Bytes, Crypto}
use express_core.Auth.Successor.{seal_successor, open_successor}
use express_core.Auth.Tokens.{
  has_token, find_refresh_token, mark_refresh_token_rotated, create_refresh_token,
  delete_refresh_token, delete_refresh_token_family,
}

pub data RotationOutcome : Type 0 where
  issued : ℕ → String → RotationOutcome
  invalid expired : RotationOutcome
  reused : ℕ → String → RotationOutcome

-- The random values that one exchange draws: the successor token, the vector of its seal and the
-- id of its row.
pub record Draw : Type 0 where
  pub successor : String
  pub iv : Bytes
  pub row_id : String

abbrev pub max_successor_hops : ℕ
max_successor_hops = 5

abbrev open_row {ℓ} : {A : Type ℓ} → Option A → (A → RotationOutcome) → RotationOutcome
open_row none k = invalid
open_row (some a) k = k a

module _ (c : Crypto) (e : Env) where
  abbrev pub next_token : String → RefreshToken → Option String
  next_token token current = elim current.successor_ciphertext [
    | none ↦ none
    | some sealed ↦ open_successor c token current.token sealed
  ]

  -- The loop of `latestSuccessor`, with the hops that are left.
  unfoldable pub latest_successor :
      ℕ → String → RefreshToken → ℕ → List RefreshToken → RotationOutcome
  latest_successor zero token current now rows = invalid
  latest_successor (suc hops) token current now rows = open_row (next_token token current) λ next.
      open_row (find_first (has_token (c.hash_token next)) rows) λ row.
        let further = latest_successor hops next row now rows in
        if leb row.expires_at now
        then invalid
        else elim row.rotated_at [ none ↦ issued row.user_id next | some at ↦ further ]

  -- A rotated row: reuse after the grace window revokes the family.
  unfoldable pub after_rotation : String → RefreshToken → ℕ → ℕ → Tx RotationOutcome
  unfolding delete_refresh_token_family
  after_rotation token row rotated_at now =
      if ltb (e.refresh_grace_seconds * 1000) (now - rotated_at)
      then (do
        delete_refresh_token_family row.user_id row.family_id
        pure (reused row.user_id row.family_id))
      else gets (λ s. latest_successor max_successor_hops token row now s.refresh_tokens)

  unfoldable pub successor_row : RefreshToken → ℕ → Draw → RefreshToken
  successor_row row now d = record {
    id = d.row_id;
    token = c.hash_token d.successor;
    user_id = row.user_id;
    family_id = row.family_id;
    expires_at = now + e.refresh_token_expires_days * 86400000;
    rotated_at = none;
    successor_ciphertext = none;
  }

  -- The second read of a request that lost the claim.
  unfoldable pub lost_claim : String → ℕ → Option RefreshToken → Tx RotationOutcome
  unfolding after_rotation
  lost_claim token now none = pure invalid
  lost_claim token now (some row) = elim row.rotated_at [
    | none ↦ pure invalid
    | some at ↦ after_rotation token row at now
  ]

  -- After the claim: the winner inserts the successor, a loser reads the row again.
  unfoldable pub finish_claim : Draw → String → RefreshToken → ℕ → Bool → Tx RotationOutcome
  unfolding create_refresh_token successor_row lost_claim
  finish_claim d token row now true = do
    create_refresh_token (successor_row row now d)
    pure (issued row.user_id d.successor)
  finish_claim d token row now false = do
    again ← gets (find_refresh_token (c.hash_token token))
    lost_claim token now again

  -- A row that was live when it was read. `race` is what other transactions commit before the
  -- claim gets the row's lock.
  unfoldable pub claim : (Db → Db) → Draw → String → RefreshToken → ℕ → Tx RotationOutcome
  unfolding mark_refresh_token_rotated finish_claim
  claim race d token row now = do
    modify race
    claimed ←
        mark_refresh_token_rotated row.id
          (seal_successor c d.iv token (c.hash_token token) d.successor) now
    finish_claim d token row now claimed

  unfoldable pub rotate_row :
      (Db → Db) → Draw → String → ℕ → Option RefreshToken → Tx RotationOutcome
  unfolding delete_refresh_token claim after_rotation
  rotate_row race d token now none = pure invalid
  rotate_row race d token now (some row) =
      if leb row.expires_at now
      then (do delete_refresh_token (c.hash_token token); pure expired)
      else elim row.rotated_at [
        | none ↦ claim race d token row now
        | some at ↦ after_rotation token row at now
      ]

  unfoldable pub rotate_refresh_token : (Db → Db) → Draw → String → ℕ → Tx RotationOutcome
  unfolding rotate_row
  rotate_refresh_token race d token now = do
    found ← gets (find_refresh_token (c.hash_token token))
    rotate_row race d token now found
