-- ===== src/Auth/Rotation/Issued.antt =====
-- The rows of the tokens that an exchange hands out (refresh-rotation.ts).
use express_core.Base.{
  ℕ, zero, suc, ◌*◌, ◌<◌, String, ◌≡◌, refl, Bool, true, false, Option, none, some, List, arith,
  inl, inr, if◌then◌else◌, ◌-◌, ltb, ltb→lt, ltb-false_le, subst, eq_refl, leb, find_first,
  Bool-cases, Option-cases,
}
use express_core.Store.{RefreshToken, Db}
use express_core.Store.Exec.{ok, and_then-eq-ok}
use express_core.Config.{Env}
use express_core.Crypto.{Crypto}
use express_core.Auth.Tokens.{has_token, find_refresh_token, create_refresh_token}
use express_core.Auth.Rotation.Branches.{after_rotation_late, after_rotation_soon}
use express_core.Auth.Rotation.{
  RotationOutcome, issued, invalid, Draw, successor_row, latest_successor, open_row, next_token,
  finish_claim, claim, rotate_row, lost_claim, after_rotation, rotate_refresh_token,
  max_successor_hops,
}

module _ (c : Crypto) (e : Env) where
  -- The row of a token that can be presented now.
  pub record IsLive (user : ℕ) (token : String) (now : ℕ) (rows : List RefreshToken) : Type 0 where
    pub row : RefreshToken
    pub found : find_first (has_token (c.hash_token token)) rows ≡ some row
    pub owner : row.user_id ≡ user
    pub unrotated : row.rotated_at ≡ none
    pub unexpired : now < row.expires_at

  open_row-eq-issued {ℓ} :
      {A : Type ℓ} (o : Option A) (k : A → RotationOutcome) {u : ℕ} {t : String}
      → open_row o k ≡ issued u t
      → (a : A) × (o ≡ some a) × (k a ≡ issued u t)
  open_row-eq-issued none k h = cc
  open_row-eq-issued (some a) k h = (a, refl, h)

  hop-IsLive :
      (next : String) (row : RefreshToken) (further : RotationOutcome) (now : ℕ)
      (rows : List RefreshToken) (u : ℕ) (t : String)
      → find_first (has_token (c.hash_token next)) rows ≡ some row
      → (further ≡ issued u t → IsLive u t now rows)
      → (if leb row.expires_at now
          then invalid
          else elim row.rotated_at [ none ↦ issued row.user_id next | some at ↦ further ])
        ≡ issued u t
      → IsLive u t now rows
  hop-IsLive next row further now rows u t found rest h = elim (Option-cases row.rotated_at) [
    | inl live ↦ record {
      row = row;
      found = ground arith;
      owner = ground arith;
      unrotated = live;
      unexpired = ground arith;
    }
    | inr (at, e) ↦ rest (ground arith)
  ]

  latest-IsLive :
      (hops : ℕ) (token : String) (current : RefreshToken) (now : ℕ) (rows : List RefreshToken)
      (u : ℕ) (t : String)
      → latest_successor c e hops token current now rows ≡ issued u t
      → IsLive u t now rows
  unfolding latest_successor
  latest-IsLive zero token current now rows u t h = cc
  latest-IsLive (suc hops) token current now rows u t h =
      let (next, opened, h') = open_row-eq-issued (next_token c e token current) _ h in
      let (row, found, k) = open_row-eq-issued _ _ h' in
      hop-IsLive next row _ now rows u t found (latest-IsLive hops next row now rows u t) k

  after_rotation-IsLive :
      (token : String) (row : RefreshToken) (at now : ℕ) (s s' : Db) (u : ℕ) (t : String)
      → after_rotation c e token row at now s ≡ ok (issued u t, s')
      → IsLive u t now s'.refresh_tokens
  after_rotation-IsLive token row at now s s' u t h =
      elim (Bool-cases (ltb (e.refresh_grace_seconds * 1000) (now - at))) [
        | inl late ↦ absurd (cc (h, after_rotation_late c e token row at now s (ltb→lt _ _ late)))
        | inr soon ↦
            let same = after_rotation_soon c e token row at now s (ltb-false_le _ _ soon) in
            let kept : s ≡ s' = cc (h, same) in
            subst (λ (v : Db). IsLive u t now v.refresh_tokens) kept
              (latest-IsLive max_successor_hops token row now s.refresh_tokens u t (cc (h, same)))
      ]

  create-IsLive :
      (d : Draw) (row : RefreshToken) (now : ℕ) (s s' : Db)
      → 0 < e.refresh_token_expires_days
      → create_refresh_token (successor_row c e row now d) s ≡ ok (tt, s')
      → IsLive row.user_id d.successor now s'.refresh_tokens
  unfolding create_refresh_token successor_row find_first
  create-IsLive d row now s s' days h = record {
    row = successor_row c e row now d;
    found = ground (arith, eq_refl (c.hash_token d.successor));
    owner = refl;
    unrotated = refl;
    unexpired = omega arith;
  }

  lost_claim-IsLive :
      (token : String) (now : ℕ) (found : Option RefreshToken) (s s' : Db) (u : ℕ) (t : String)
      → lost_claim c e token now found s ≡ ok (issued u t, s')
      → IsLive u t now s'.refresh_tokens
  unfolding lost_claim
  lost_claim-IsLive token now none s s' u t h = cc
  lost_claim-IsLive token now (some row) s s' u t h = elim (Option-cases row.rotated_at) [
    | inl e ↦ absurd (ground arith)
    | inr (at, e) ↦ after_rotation-IsLive token row at now s s' u t (ground arith)
  ]

  finish_claim-IsLive :
      (d : Draw) (token : String) (row : RefreshToken) (now : ℕ) (claimed : Bool) (s s' : Db)
      (u : ℕ) (t : String)
      → 0 < e.refresh_token_expires_days
      → finish_claim c e d token row now claimed s ≡ ok (issued u t, s')
      → IsLive u t now s'.refresh_tokens
  unfolding finish_claim
  finish_claim-IsLive d token row now true s s' u t days h =
      let (made, created, same) =
        and_then-eq-ok (create_refresh_token (successor_row c e row now d) s) _ h in
      let same_user : row.user_id ≡ u = cc same in
      let same_token : d.successor ≡ t = cc same in
      let same_state : made.1 ≡ s' = cc same in
      rw (← same_user, ← same_token, ← same_state) (create-IsLive d row now s made.1 days created)
  finish_claim-IsLive d token row now false s s' u t days h =
      lost_claim-IsLive token now (find_refresh_token (c.hash_token token) s) s s' u t h

  claim-IsLive :
      (race : Db → Db) (d : Draw) (token : String) (row : RefreshToken) (now : ℕ) (s s' : Db)
      (u : ℕ) (t : String)
      → 0 < e.refresh_token_expires_days
      → claim c e race d token row now s ≡ ok (issued u t, s')
      → IsLive u t now s'.refresh_tokens
  unfolding claim
  claim-IsLive race d token row now s s' u t days h =
      finish_claim-IsLive d token row now _ _ s' u t days h

  rotate_row-IsLive :
      (race : Db → Db) (d : Draw) (token : String) (now : ℕ) (found : Option RefreshToken)
      (s s' : Db) (u : ℕ) (t : String)
      → 0 < e.refresh_token_expires_days
      → rotate_row c e race d token now found s ≡ ok (issued u t, s')
      → IsLive u t now s'.refresh_tokens
  unfolding rotate_row
  rotate_row-IsLive race d token now none s s' u t days h = cc
  rotate_row-IsLive race d token now (some row) s s' u t days h =
      elim (Option-cases row.rotated_at) [
        | inl e ↦ claim-IsLive race d token row now s s' u t days (ground arith)
        | inr (at, e) ↦ after_rotation-IsLive token row at now s s' u t (ground arith)
      ]

  -- When tokens live at least a day, whatever other transactions commit before the claim: if an
  -- exchange issues a token to a user, the state it leaves has a row of that token that belongs to
  -- the user, is unrotated and is unexpired.
  pub rotate-IsLive :
      (race : Db → Db) (d : Draw) (token : String) (now : ℕ) (s s' : Db) (u : ℕ) (t : String)
      → 0 < e.refresh_token_expires_days
      → rotate_refresh_token c e race d token now s ≡ ok (issued u t, s')
      → IsLive u t now s'.refresh_tokens
  unfolding rotate_refresh_token
  rotate-IsLive race d token now s s' u t days h =
      rotate_row-IsLive race d token now (find_refresh_token (c.hash_token token) s) s s' u t days h
