-- ===== src/Accounts/Slugs.antt =====
-- makeUniqueSlug (src/utils/sluggable.ts) as the services call it: the lookup of a candidate is a
-- query over the active rows of a table.
use express_core.Base.{ℕ, suc, String, Bool, Option, none, some, length}
use express_core.Store.Exec.{Tx, other, pure, throw}
use express_core.Slug.{make_unique_slug}
use express_core.Accounts.{slug_taken, role_slug_taken}

abbrev pub slug_or_fail : Option String → Tx String
slug_or_fail none = throw (other "no free slug")
slug_or_fail (some slug) = pure slug

-- One round more than the table has rows.
unfoldable pub fresh_slug : (String → String) → (String → Bool) → ℕ → String → Tx String
fresh_slug to_lower conflict rows source =
    slug_or_fail (make_unique_slug to_lower conflict (suc rows) source)

unfoldable pub fresh_user_slug : (String → String) → Option ℕ → String → Tx String
unfolding fresh_slug
fresh_user_slug to_lower exclude source s =
    fresh_slug to_lower (λ candidate. slug_taken exclude candidate s) (length s.users) source s

unfoldable pub fresh_role_slug : (String → String) → Option ℕ → String → Tx String
unfolding fresh_slug
fresh_role_slug to_lower exclude source s =
    fresh_slug to_lower (λ candidate. role_slug_taken exclude candidate s) (length s.roles) source s
