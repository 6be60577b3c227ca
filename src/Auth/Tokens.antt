-- ===== src/Auth/Tokens.antt =====
-- The refresh-token statements of src/modules/auth/auth.repository.ts.
pub mod Revocation
pub mod Laws
use express_core.Base.{
  ℕ, suc, String, Bool, ◌&&◌, ◌||◌, not, Option, none, some, List, ◌∷◌, ◌==ₛ◌, is_some, ltb, ◌==◌,
  find_first, update_where, delete_where, count_where, if◌then◌else◌,
}
use express_core.Store.{RefreshToken, Db}
use express_core.Store.Exec.{Tx, db, ok, err}
use express_core.Crypto.{Bytes}
use Revocation.{revoke_refresh_tokens}

abbrev pub has_token : String → RefreshToken → Bool
has_token token r = r.token ==ₛ token

abbrev pub in_family : ℕ → String → RefreshToken → Bool
in_family user_id family_id r = (r.user_id == user_id) && (r.family_id ==ₛ family_id)

abbrev pub of_user : ℕ → RefreshToken → Bool
of_user user_id r = r.user_id == user_id

unfoldable pub find_refresh_token : String → Db → Option RefreshToken
find_refresh_token token s = find_first (has_token token) s.refresh_tokens

abbrev pub is_unrotated : String → RefreshToken → Bool
is_unrotated id r = (r.id ==ₛ id) && not (is_some r.rotated_at)

abbrev pub mark : ℕ → Bytes → RefreshToken → RefreshToken
mark at ciphertext r = record r { rotated_at = some at; successor_ciphertext = some ciphertext }

-- updateMany where rotatedAt is null; `count === 1`
unfoldable pub mark_refresh_token_rotated : String → Bytes → ℕ → Tx Bool
mark_refresh_token_rotated id ciphertext at s = ok (
  count_where (is_unrotated id) s.refresh_tokens == 1,
  record s {
    refresh_tokens = update_where (is_unrotated id) (mark at ciphertext) s.refresh_tokens;
  },
)

-- `id` is the primary key and `token` has a unique index.
unfoldable pub create_refresh_token : RefreshToken → Tx (Unit {0})
create_refresh_token row s =
    if is_some (find_first (λ r. (r.id ==ₛ row.id) || (r.token ==ₛ row.token)) s.refresh_tokens)
    then err (db "unique constraint failed on refresh_tokens")
    else ok (tt, record s { refresh_tokens = row ∷ s.refresh_tokens })

unfoldable pub delete_refresh_token : String → Tx (Unit {0})
delete_refresh_token token s =
    ok (tt, record s { refresh_tokens = delete_where (has_token token) s.refresh_tokens })

unfoldable pub delete_refresh_token_family : ℕ → String → Tx ℕ
delete_refresh_token_family user_id family_id =
    revoke_refresh_tokens (λ pass seen rows. rows) (in_family user_id family_id)

unfoldable pub delete_refresh_tokens_by_user_id : ℕ → Tx ℕ
delete_refresh_tokens_by_user_id user_id =
    revoke_refresh_tokens (λ pass seen rows. rows) (of_user user_id)
