-- ===== src/Auth/Tokens/Revocation.antt =====
-- `revokeRefreshTokens` of src/modules/auth/auth.repository.ts: repeat a DELETE until it matches
-- nothing. A DELETE sees the rows that were committed when it started and leaves what others commit
-- while it runs: `commits n seen rows` is the table after the pass that n more may follow, from the
-- rows that its DELETE saw and those that it left.
use express_core.Base.{
  ℕ, zero, suc, ◌+◌, Bool, Option, none, some, List, ◌==◌, delete_where, count_where, if◌then◌else◌,
}
use express_core.Store.{RefreshToken, Db}
use express_core.Store.Exec.{Tx, Result, other, ok, err}

abbrev max_revocation_passes : ℕ
max_revocation_passes = 10

module _ (commits : ℕ → List RefreshToken → List RefreshToken → List RefreshToken)
    (where_ : RefreshToken → Bool) where
  -- The number removed and the table after the last DELETE; none when the passes run out.
  unfoldable pub revoke_passes : ℕ → ℕ → List RefreshToken → Option (ℕ × List RefreshToken)
  revoke_passes zero removed rows = none
  revoke_passes (suc n) removed rows =
      let count = count_where where_ rows in
      let after = commits n rows (delete_where where_ rows) in
      let rest = revoke_passes n (removed + count) after in
      if count == 0 then some (removed, after) else rest

  abbrev pub report : Db → Option (ℕ × List RefreshToken) → Result (ℕ × Db)
  report s none = err (other "Refresh-token revocation did not converge")
  report s (some (removed, rows)) = ok (removed, record s { refresh_tokens = rows })

  unfoldable pub revoke_refresh_tokens : Tx ℕ
  revoke_refresh_tokens s = report s (revoke_passes max_revocation_passes 0 s.refresh_tokens)
