-- ===== src/Otp/Laws.antt =====
-- The row of one e-mail address under the statements of otp.repository.ts.
use express_core.Otp.{
  is_attemptable, reserve_attempt, has_email, count_attempt, reserved, set_otps, consume, ok,
  consume_at,
}
use express_core.Base.{
  refl, [], ◌∷◌, ℕ, String, Option, find_first, update_where, List, ◌≡◌, some, ◌∷◌, arith, ap, true,
  false, none, ◌<◌, ◌+◌, ◌*◌, lt→ltb,
}
use express_core.Store.{EmailOtp, Db}

-- The row of an address.
abbrev pub row_of : String → Db → Option EmailOtp
row_of email s = find_first (has_email email) s.email_otps

find_first-has_email :
    (email : String) (f : EmailOtp → EmailOtp) (rows : List EmailOtp) (r : EmailOtp)
    → ((x : EmailOtp) → (f x).email ≡ x.email)
    → find_first (has_email email) rows ≡ some r
    → find_first (has_email email) (update_where (has_email email) f rows) ≡ some (f r)
unfolding find_first update_where
find_first-has_email email f [] r h k = cc
find_first-has_email email f (x ∷ rows) r h k =
    ground (arith, h x, find_first-has_email email f rows r h)

-- An update of the row of an address.
unfoldable pub update_row : String → (EmailOtp → EmailOtp) → Db → Db
update_row email f s = set_otps (update_where (has_email email) f s.email_otps) s

pub row_of-update_row :
    (email : String) (f : EmailOtp → EmailOtp) (s : Db) (r : EmailOtp)
    → ((x : EmailOtp) → (f x).email ≡ x.email)
    → row_of email s ≡ some r
    → row_of email (update_row email f s) ≡ some (f r)
unfolding update_row
row_of-update_row email f s r h k = find_first-has_email email f s.email_otps r h k

-- Two updates of the row of an address.
update_where-twice :
    (email : String) (f g : EmailOtp → EmailOtp) (rows : List EmailOtp)
    → ((x : EmailOtp) → (f x).email ≡ x.email)
    → update_where (has_email email) g (update_where (has_email email) f rows)
      ≡ update_where (has_email email) (λ x. g (f x)) rows
unfolding update_where
update_where-twice email f g [] h = refl
update_where-twice email f g (x ∷ rows) h = ground (arith, h x, update_where-twice email f g rows h)

pub update_row-update_row :
    (email : String) (f g : EmailOtp → EmailOtp) (s : Db)
    → ((x : EmailOtp) → (f x).email ≡ x.email)
    → update_row email g (update_row email f s) ≡ update_row email (λ x. g (f x)) s
unfolding update_row
update_row-update_row email f g s h =
    ap (λ rows. set_otps rows s) (update_where-twice email f g s.email_otps h)

module _ (email : String) (s : Db) (r : EmailOtp) (found : row_of email s ≡ some r) where
  pub reserve_open :
      (max_attempts now : ℕ)
      → is_attemptable max_attempts now r ≡ true
      → reserve_attempt email max_attempts now s
        ≡ ok (some (reserved r), update_row email count_attempt s)
  unfolding reserve_attempt update_row
  reserve_open max_attempts now free = rw (found, reserve_attempt, row_of, free) refl

  pub reserve_closed :
      (max_attempts now : ℕ)
      → is_attemptable max_attempts now r ≡ false
      → reserve_attempt email max_attempts now s ≡ ok (none, s)
  unfolding reserve_attempt
  reserve_closed max_attempts now closed = rw (found, reserve_attempt, row_of, closed) refl

  pub consume_open :
      (window now at : ℕ)
      → r.consumed_at ≡ none
      → r.verified_at ≡ some at
      → now < at + window * 60000
      → consume email window now s
        ≡ ok (some (record { id = r.id; verified_at = at }), update_row email (consume_at now) s)
  unfolding consume update_row
  consume_open window now at unused verified soon =
      rw (found, consume, row_of, unused, verified, lt→ltb _ _ soon) refl

  pub consume_used :
      (window now at : ℕ) → r.consumed_at ≡ some at → consume email window now s ≡ ok (none, s)
  unfolding consume
  consume_used window now at used = rw (found, consume, row_of, used) refl

pub reserve_missing :
    (email : String) (s : Db) (max_attempts now : ℕ)
    → row_of email s ≡ none
    → reserve_attempt email max_attempts now s ≡ ok (none, s)
unfolding reserve_attempt
reserve_missing email s max_attempts now missing = rw (missing, reserve_attempt, row_of) refl
