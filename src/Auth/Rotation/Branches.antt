-- ===== src/Auth/Rotation/Branches.antt =====
-- What one exchange does on each branch, with no other transaction in between.
use express_core.Base.{
  ℕ, ◌-◌, ◌*◌, ◌<◌, ◌≤◌, String, ◌≡◌, refl, ◌||◌, not, is_some, none, some, List, ◌∷◌, ◌==ₛ◌,
  leb-false_of_lt, le→leb, lt→ltb, ltb-false_of_le, find_first, update_where, delete_where,
}
use express_core.Base.RowLaws.{Unique, count-keyed, find_first-update}
use express_core.Store.{RefreshToken, Db}
use express_core.Store.Exec.{ok}
use express_core.Config.{Env}
use express_core.Crypto.{Crypto}
use express_core.Auth.Successor.{seal_successor}
use express_core.Auth.Tokens.{has_token, in_family, is_unrotated, mark, find_refresh_token}
use express_core.Auth.Tokens.Laws.{revoke_refresh_tokens_lem}
use express_core.Auth.Rotation.{
  issued, expired, reused, Draw, successor_row, claim, after_rotation, latest_successor,
  max_successor_hops, rotate_row, rotate_refresh_token,
}

-- The primary key and the unique index of the table.
abbrev pub HasUniqueKeys : List RefreshToken → Type 0
HasUniqueKeys rows = Unique (λ r. r.token) rows × Unique (λ r. r.id) rows

abbrev pub quiet : Db → Db
quiet s = s

module _ (c : Crypto) (e : Env) where
  -- Neither key of the successor's row is taken.
  abbrev pub IsFresh : Draw → List RefreshToken → Type 0
  IsFresh d rows =
      find_first (λ r. (r.id ==ₛ d.row_id) || (r.token ==ₛ c.hash_token d.successor)) rows ≡ none

  -- The rows after a rotation: the presented one is marked, its successor is added.
  abbrev pub rotated_rows : Draw → String → RefreshToken → ℕ → List RefreshToken → List RefreshToken
  rotated_rows d token row now rows =
      successor_row c e row now d
      ∷ update_where (is_unrotated row.id)
          (mark now (seal_successor c d.iv token (c.hash_token token) d.successor)) rows

  pub after_rotation_late :
      (token : String) (row : RefreshToken) (at now : ℕ) (s : Db)
      → e.refresh_grace_seconds * 1000 < now - at
      → after_rotation c e token row at now s
        ≡ ok (
          reused row.user_id row.family_id,
          record s {
            refresh_tokens = delete_where (in_family row.user_id row.family_id) s.refresh_tokens;
          },
        )
  unfolding after_rotation
  after_rotation_late token row at now s late =
      rw (lt→ltb _ _ late, revoke_refresh_tokens_lem (in_family row.user_id row.family_id) s) refl

  pub after_rotation_soon :
      (token : String) (row : RefreshToken) (at now : ℕ) (s : Db)
      → now - at ≤ e.refresh_grace_seconds * 1000
      → after_rotation c e token row at now s
        ≡ ok (latest_successor c e max_successor_hops token row now s.refresh_tokens, s)
  unfolding after_rotation
  after_rotation_soon token row at now s soon = rw (ltb-false_of_le _ _ soon) refl

  claim_lem :
      (d : Draw) (token : String) (row : RefreshToken) (now : ℕ) (s : Db)
      → HasUniqueKeys s.refresh_tokens
      → IsFresh d s.refresh_tokens
      → find_refresh_token (c.hash_token token) s ≡ some row
      → row.rotated_at ≡ none
      → claim c e quiet d token row now s
        ≡ ok (
          issued row.user_id d.successor,
          record s { refresh_tokens = rotated_rows d token row now s.refresh_tokens },
        )
  unfolding claim find_refresh_token
  claim_lem d token row now s u fresh found unrotated =
      rw
        (
          count-keyed (λ r. r.id) (has_token (c.hash_token token)) (λ r. not (is_some r.rotated_at))
              s.refresh_tokens row u.1 found (rw unrotated),
          find_first-update (λ r. (r.id ==ₛ d.row_id) || (r.token ==ₛ c.hash_token d.successor))
              (is_unrotated row.id)
              (mark now (seal_successor c d.iv token (c.hash_token token) d.successor))
              s.refresh_tokens (λ r. refl),
          fresh,
        )
        refl

  module _ (d : Draw) (token : String) (row : RefreshToken) (now : ℕ) (s : Db)
      (found : find_refresh_token (c.hash_token token) s ≡ some row) where
    -- A live token is exchanged for the drawn successor: the presented row is marked as rotated
    -- with the sealed successor, and the successor's row is added.
    pub rotate_live :
        HasUniqueKeys s.refresh_tokens
        → IsFresh d s.refresh_tokens
        → now < row.expires_at
        → row.rotated_at ≡ none
        → rotate_refresh_token c e quiet d token now s
          ≡ ok (
            issued row.user_id d.successor,
            record s { refresh_tokens = rotated_rows d token row now s.refresh_tokens },
          )
    unfolding rotate_refresh_token
    rotate_live u fresh live unrotated =
        rw (found, rotate_row, leb-false_of_lt _ _ live, unrotated)
          (claim_lem d token row now s u fresh found unrotated)

    -- An expired token is deleted, and the request refused.
    pub rotate_expired :
        row.expires_at ≤ now
        → rotate_refresh_token c e quiet d token now s
          ≡ ok (
            expired,
            record s {
              refresh_tokens = delete_where (has_token (c.hash_token token)) s.refresh_tokens;
            },
          )
    unfolding rotate_refresh_token
    rotate_expired over = rw (found, rotate_row, le→leb _ _ over)

    -- A rotated token that comes back after the grace window revokes its whole family.
    pub rotate_reused :
        (at : ℕ)
        → now < row.expires_at
        → row.rotated_at ≡ some at
        → e.refresh_grace_seconds * 1000 < now - at
        → rotate_refresh_token c e quiet d token now s
          ≡ ok (
            reused row.user_id row.family_id,
            record s {
              refresh_tokens = delete_where (in_family row.user_id row.family_id) s.refresh_tokens;
            },
          )
    unfolding rotate_refresh_token
    rotate_reused at live rotated late =
        rw (found, rotate_row, leb-false_of_lt _ _ live, rotated)
          (after_rotation_late token row at now s late)

    -- Within the grace window nothing is written, and the answer is the newest successor.
    pub rotate_in_grace :
        (at : ℕ)
        → now < row.expires_at
        → row.rotated_at ≡ some at
        → now - at ≤ e.refresh_grace_seconds * 1000
        → rotate_refresh_token c e quiet d token now s
          ≡ ok (latest_successor c e max_successor_hops token row now s.refresh_tokens, s)
    unfolding rotate_refresh_token
    rotate_in_grace at live rotated soon =
        rw (found, rotate_row, leb-false_of_lt _ _ live)
          (simp rotated (after_rotation_soon token row at now s soon))
