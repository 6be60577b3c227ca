-- ===== src/Auth/Rotation/Convergence.antt =====
-- Repeated and parallel requests with one token (refresh-rotation.ts).
use express_core.Base.{
  ℕ, ◌+◌, ◌-◌, ◌*◌, ◌<◌, ◌≤◌, String, ◌≡◌, refl, ap, subst, ◌∙◌, false, ◌||◌, none, some, arith,
  ◌==ₛ◌, eq_iff, eq_refl, leb-false_of_lt, find_first, count_where, length,
}
use express_core.Base.RowLaws.{
  find_first-sat, find_first-none-false, find_first-update, count-update_where,
  update_where_of_count,
}
use express_core.Store.{RefreshToken, Db}
use express_core.Store.Exec.{ok}
use express_core.Config.{Env}
use express_core.Crypto.{Crypto, GcmLaws}
use express_core.Auth.Successor.{iv_bytes, seal_successor, IsHexToken, open-seal}
use express_core.Auth.Tokens.{has_token, is_unrotated, mark, find_refresh_token}
use express_core.Auth.Rotation.{
  issued, Draw, successor_row, latest_successor, max_successor_hops, claim, rotate_row,
  rotate_refresh_token,
}
use express_core.Auth.Rotation.Branches.{
  HasUniqueKeys, IsFresh, quiet, rotated_rows, rotate_in_grace, rotate_live, after_rotation_soon,
}

module _ (c : Crypto) (e : Env) (laws : GcmLaws c) (d : Draw) (token : String) (row : RefreshToken)
    (now : ℕ) (s : Db) (found : find_refresh_token (c.hash_token token) s ≡ some row)
    (fresh : IsFresh c e d s.refresh_tokens) (unrotated : row.rotated_at ≡ none) where
  abbrev marked : RefreshToken
  marked = mark now (seal_successor c d.iv token (c.hash_token token) d.successor) row

  abbrev after : Db
  after = record s { refresh_tokens = rotated_rows c e d token row now s.refresh_tokens }

  row_token : row.token ≡ c.hash_token token
  unfolding find_refresh_token
  row_token =
      (eq_iff row.token (c.hash_token token)).0
        (find_first-sat (has_token (c.hash_token token)) s.refresh_tokens row found)

  -- The successor's hash is another than the token's, since the row was fresh.
  other_hash : (c.hash_token d.successor ==ₛ c.hash_token token) ≡ false
  unfolding find_refresh_token
  other_hash = ground (
    arith,
    row_token,
    eq_iff (c.hash_token d.successor) (c.hash_token token),
    eq_refl (c.hash_token token),
    find_first-none-false (λ r. (r.id ==ₛ d.row_id) || (r.token ==ₛ c.hash_token d.successor))
        (has_token (c.hash_token token)) s.refresh_tokens row fresh found,
  )

  found_marked : find_refresh_token (c.hash_token token) after ≡ some marked
  unfolding find_refresh_token find_first successor_row
  found_marked =
      rw
        (
          other_hash,
          find_first-update (has_token (c.hash_token token)) (is_unrotated row.id)
              (mark now (seal_successor c d.iv token (c.hash_token token) d.successor))
              s.refresh_tokens (λ r. refl),
          found,
        )
        (rw (eq_refl row.id, unrotated) refl)

  latest_lem :
      (later : ℕ)
      → length d.iv ≡ iv_bytes
      → IsHexToken c d.successor
      → later < now + e.refresh_token_expires_days * 86400000
      → latest_successor c e max_successor_hops token marked later after.refresh_tokens
        ≡ issued row.user_id d.successor
  unfolding latest_successor find_first successor_row
  latest_lem later l hex soon = simp (
    row_token,
    open-seal c laws d.iv token (c.hash_token token) d.successor l hex,
    eq_refl,
    leb-false_of_lt (now + e.refresh_token_expires_days * 86400000) later soon,
  )

  unclaimed : count_where (is_unrotated row.id) after.refresh_tokens ≡ 0
  unfolding count_where successor_row find_refresh_token
  unclaimed = ground (
    arith,
    eq_iff d.row_id row.id,
    eq_refl row.id,
    find_first-none-false (λ r. (r.id ==ₛ d.row_id) || (r.token ==ₛ c.hash_token d.successor))
        (has_token (c.hash_token token)) s.refresh_tokens row fresh found,
    count-update_where (is_unrotated row.id)
        (mark now (seal_successor c d.iv token (c.hash_token token) d.successor)) s.refresh_tokens
        (λ r. marked_is_rotated r),
  )
    where
      marked_is_rotated :
          (r : RefreshToken)
          → is_unrotated row.id
              (mark now (seal_successor c d.iv token (c.hash_token token) d.successor) r)
            ≡ false
      marked_is_rotated r = ground arith

  module _ (d' : Draw) (later : ℕ) (l : length d.iv ≡ iv_bytes) (hex : IsHexToken c d.successor)
      (soon : later < now + e.refresh_token_expires_days * 86400000)
      (in_grace : later - now ≤ e.refresh_grace_seconds * 1000) where
    retry_lem :
        later < row.expires_at
        → rotate_refresh_token c e quiet d' token later after
          ≡ ok (issued row.user_id d.successor, after)
    retry_lem live =
        rotate_in_grace c e d' token marked later after found_marked now live refl in_grace
        ∙ ap (λ o. ok (o, after)) (latest_lem later l hex soon)

    lost_lem :
        claim c e (λ _. after) d' token row later s ≡ ok (issued row.user_id d.successor, after)
    unfolding claim
    lost_lem =
        rw
          (
            unclaimed,
            update_where_of_count (is_unrotated row.id) _ after.refresh_tokens unclaimed,
            found_marked,
          )
          (after_rotation_soon c e token marked now later after in_grace
            ∙ ap (λ o. ok (o, after)) (latest_lem later l hex soon))

    race_lem :
        later < row.expires_at
        → rotate_refresh_token c e (λ _. after) d' token later s
          ≡ ok (issued row.user_id d.successor, after)
    unfolding rotate_refresh_token
    race_lem live = rw (found, rotate_row, leb-false_of_lt _ _ live, unrotated) lost_lem

module _ (c : Crypto) (e : Env) (laws : GcmLaws c) (d : Draw) (token : String) (row : RefreshToken)
    (now : ℕ) (s s' : Db) (found : find_refresh_token (c.hash_token token) s ≡ some row)
    (keys : HasUniqueKeys s.refresh_tokens) (fresh : IsFresh c e d s.refresh_tokens)
    (length_iv : length d.iv ≡ iv_bytes) (hex : IsHexToken c d.successor)
    (first : now < row.expires_at) (unrotated : row.rotated_at ≡ none)
    (won : rotate_refresh_token c e quiet d token now s ≡ ok (issued row.user_id d.successor, s'))
    (d' : Draw) (later : ℕ) (live : later < row.expires_at)
    (in_grace : later - now ≤ e.refresh_grace_seconds * 1000)
    (unexpired : later < now + e.refresh_token_expires_days * 86400000) where
  same_state : record s { refresh_tokens = rotated_rows c e d token row now s.refresh_tokens } ≡ s'
  same_state = cc (rotate_live c e d token row now s found keys fresh first unrotated, won)

  -- Let an exchange of a live, unrotated token, with fresh keys for the successor, a twelve-byte
  -- vector and a hex successor, have issued its successor. Then a request that presents the same
  -- token again, within the grace window and while the token and the successor are unexpired, is
  -- answered with that same successor and changes nothing, whatever it draws itself.
  pub rotate_again :
      rotate_refresh_token c e quiet d' token later s' ≡ ok (issued row.user_id d.successor, s')
  rotate_again =
      subst
        (λ t.
          rotate_refresh_token c e quiet d' token later t ≡ ok (issued row.user_id d.successor, t))
        same_state
        (retry_lem c e laws d token row now s found fresh unrotated d' later length_iv hex unexpired
          in_grace live)

  -- Let an exchange of a live, unrotated token, with fresh keys for the successor, a twelve-byte
  -- vector and a hex successor, have issued its successor. Then a request that read the token
  -- before that exchange and claims it only after the exchange has committed, within the grace
  -- window and while the token and the successor are unexpired, is answered with the successor of
  -- the exchange and leaves the state of the exchange.
  pub rotate_race :
      rotate_refresh_token c e (λ _. s') d' token later s ≡ ok (issued row.user_id d.successor, s')
  rotate_race =
      subst
        (λ t.
          rotate_refresh_token c e (λ _. t) d' token later s
          ≡ ok (issued row.user_id d.successor, t))
        same_state
        (race_lem c e laws d token row now s found fresh unrotated d' later length_iv hex unexpired
          in_grace live)
