-- ===== src/Auth/Tokens/Laws.antt =====
-- The state after a revocation of sessions (auth.repository.ts).
use express_core.Base.{
  ℕ, suc, ◌+◌, ◌≡◌, refl, ap, ◌∙◌, Bool, some, List, arith, delete_where, count_where, Option,
}
use express_core.Base.RowLaws.{count-delete_where, delete_where_of_count}
use express_core.Store.{RefreshToken, Db}
use express_core.Store.Exec.{ok}
use express_core.Auth.Tokens.Revocation.{revoke_passes, report, revoke_refresh_tokens}

module _ (commits : ℕ → List RefreshToken → List RefreshToken → List RefreshToken)
    (where_ : RefreshToken → Bool) where
  -- Passes that leave no matching token.
  abbrev Cleared : Option (ℕ × List RefreshToken) → Type 0
  Cleared o =
      (k : ℕ) × (rows : List RefreshToken) × (o ≡ some (k, rows)) × (count_where where_ rows ≡ 0)

  -- If no one adds a matching token meanwhile, one pass removes all and the next ends the loop.
  pub revoke_passes-quiet :
      (n removed : ℕ) (rows : List RefreshToken)
      → ((m : ℕ) (seen l : List RefreshToken) → commits m seen l ≡ l)
      → revoke_passes commits where_ (suc (suc n)) removed rows
        ≡ some (removed + count_where where_ rows, delete_where where_ rows)
  unfolding revoke_passes
  revoke_passes-quiet n removed rows quiet =
      let none_left = count-delete_where where_ rows in
      rw
        (
          quiet (suc n) rows (delete_where where_ rows),
          none_left,
          delete_where_of_count where_ (delete_where where_ rows) none_left,
          quiet n (delete_where where_ rows) (delete_where where_ rows),
        )
        (ground arith)

-- When nothing commits while the DELETEs run, the revocation loop succeeds for every table and
-- every test on rows: it removes exactly the matching tokens and returns their number.
pub revoke_refresh_tokens_lem :
    (where_ : RefreshToken → Bool) (s : Db)
    → revoke_refresh_tokens (λ pass seen rows. rows) where_ s
      ≡ ok (
        count_where where_ s.refresh_tokens,
        record s { refresh_tokens = delete_where where_ s.refresh_tokens },
      )
unfolding revoke_refresh_tokens
revoke_refresh_tokens_lem where_ s = ap (report (λ pass seen rows. rows) where_ s) (
    revoke_passes-quiet (λ pass seen rows. rows) where_ 8 0 s.refresh_tokens (λ m seen l. refl)
    ∙ ap (λ n. some (n, delete_where where_ s.refresh_tokens)) (zero-add_lem _))
  where
    zero-add_lem : (n : ℕ) → 0 + n ≡ n
    zero-add_lem n = omega arith
