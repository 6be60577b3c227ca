-- ===== src/Retention/Past.antt =====
-- What the retention loops leave (`prune`, `deleteExpired`, `deleteExpiredRefreshTokens`).
use native.Mathlib.Nat.{mul-suc}
use express_core.Base.{
  zero, suc, [], ◌∷◌, delete_where, count_where, ℕ, Bool, true, false, List, ltb, not, ◌+◌, ◌*◌,
  ◌<◌, ◌≤◌, ◌≡◌, ◌||◌, refl, sym, ◌∙◌, length, All, Bool-cases, inl, inr, arith, ltb→lt,
  ltb-false_le,
}
use express_core.Base.Distinct.{All-map, All-zip}
use express_core.Base.RowLaws.{delete_where_of_count}
use express_core.Outbox.Claims.{sort_by}
use express_core.Outbox.Leases.{All-take, All-sort_by, All-delete_where}
use express_core.Retention.{is_among, batch_of, prune_batches}
use express_core.Retention.Counts.{
  count-take, count-sort_by, count-delete, count-All, delete-part, count-part, length-not,
  length-take_short, count-true,
}

module _ {A : Type 0} (past : A → Bool) (time : A → ℕ) (same_id : A → A → Bool) where
  -- Rows with one id are both past their time, or both not.
  abbrev pub OneAge : List A → Type 0
  OneAge rows = All (λ x. All (λ y. same_id x y ≡ true → past x ≡ past y) rows) rows

  OneAge-delete : (d : A → Bool) (rows : List A) → OneAge rows → OneAge (delete_where d rows)
  OneAge-delete d rows h =
      All-delete_where _ d rows
        (All-map rows (λ x a k. All-delete_where _ d rows (All-map rows (λ y b l. b) a)) h)

  batch-All :
      (P : A → Type 0) (size : ℕ) (rows : List A)
      → All P rows
      → All P (batch_of past time same_id size rows)
  unfolding batch_of
  batch-All P size rows h = All-take P size _ (
      All-sort_by P time _
        (All-delete_where P (λ r. not (past r)) rows (All-map rows (λ x a k. a) h)))

  batch-past :
      (size : ℕ) (rows : List A) → All (λ x. past x ≡ true) (batch_of past time same_id size rows)
  unfolding batch_of
  batch-past size rows =
      All-take _ size _
        (All-sort_by _ time _ (All-delete_where _ (λ r. not (past r)) rows (each rows)))
    where
      each : (xs : List A) → All (λ x. not (past x) ≡ false → past x ≡ true) xs
      each [] = tt
      each (x ∷ xs) = (λ h. ground arith, each xs)

  among-past :
      (batch rows : List A)
      → All (λ x. past x ≡ true) batch
      → All (λ x. All (λ y. same_id x y ≡ true → past x ≡ past y) rows) batch
      → All (λ y. is_among past time same_id batch y ≡ true → past y ≡ true) rows
  unfolding is_among
  among-past [] rows h k = none_among rows
    where
      none_among : (xs : List A) → All (λ y. false ≡ true → past y ≡ true) xs
      none_among [] = tt
      none_among (x ∷ xs) = (λ e. absurd (cc e), none_among xs)
  among-past (x ∷ xs) rows h k =
      All-zip rows (λ y a b e. by_id y a b e) k.0 (among-past xs rows h.1 k.1)
    where
      by_id :
          (y : A)
          → (same_id x y ≡ true → past x ≡ past y)
          → (is_among past time same_id xs y ≡ true → past y ≡ true)
          → (same_id x y || is_among past time same_id xs y) ≡ true
          → past y ≡ true
      by_id y a b e = elim (Bool-cases (same_id x y)) [
        | inl l ↦ sym (a l) ∙ h.0
        | inr l ↦ b (ground arith)
      ]

  module _ (same_refl : (x : A) → same_id x x ≡ true) where
    among_self : (xs : List A) → All (λ x. is_among past time same_id xs x ≡ true) xs
    unfolding is_among
    among_self [] = tt
    among_self (x ∷ xs) = (rw (same_refl x) refl, All-map xs (λ y e. ground arith) (among_self xs))

    length-batch :
        (size : ℕ) (rows : List A)
        → length (batch_of past time same_id size rows)
          ≤ count_where (is_among past time same_id (batch_of past time same_id size rows)) rows
    unfolding batch_of
    length-batch size rows =
        let p = is_among past time same_id (batch_of past time same_id size rows) in
        let old = delete_where (λ r. not (past r)) rows in
        let all_in =
          count-All p (batch_of past time same_id size rows)
            (among_self (batch_of past time same_id size rows)) in
        let taken = count-take p size (sort_by time old) in
        let sorted = count-sort_by p time old in
        let part = count-delete p (λ r. not (past r)) rows in omega arith

    -- A batch that is not full has every row that is past its time.
    batch-short :
        (size : ℕ) (rows : List A)
        → length (batch_of past time same_id size rows) < size
        → length (batch_of past time same_id size rows) ≡ count_where past rows
    unfolding batch_of
    batch-short size rows h =
        let old = delete_where (λ r. not (past r)) rows in
        length-take_short size (sort_by time old) h
        ∙ sym (count-true (sort_by time old))
        ∙ count-sort_by (λ x. true) time old
        ∙ count-true old
        ∙ length-not past rows

    -- When a row has its own id, rows with one id are all past their time or all not, and there
    -- are fewer rows past their time than the batches can hold, a retention loop leaves exactly
    -- the other rows, in their order, and adds the number of those that are gone.
    pub prune_batches-past :
        (size batches removed : ℕ) (rows : List A)
        → OneAge rows
        → count_where past rows < size * batches
        → prune_batches past time same_id size batches removed rows
          ≡ (removed + count_where past rows, delete_where past rows)
    unfolding prune_batches
    prune_batches-past size zero removed rows one enough = absurd (omega arith)
    prune_batches-past size (suc batches) removed rows one enough =
        let batch = batch_of past time same_id size rows in
        let among = is_among past time same_id batch in
        let only = among-past batch rows (batch-past size rows) (batch-All _ size rows one) in
        let counted = count-part past among rows only in
        let held = length-batch size rows in
        let rest =
          prune_batches-past size batches (removed + count_where among rows)
            (delete_where among rows) (OneAge-delete among rows one) in
        let product = mul-suc size batches in
        elim (Bool-cases (ltb (count_where among rows) size)) [
          | inl e ↦
              let less = ltb→lt _ _ e in
              let short = batch-short size rows (omega arith) in
              rw e (
                pair (omega arith) (
                  sym (delete_where_of_count past (delete_where among rows) (omega arith))
                  ∙ delete-part past among rows only))
          | inr e ↦
              let more = ltb-false_le _ _ e in
              rw e (rest (omega arith) ∙ pair (omega arith) (delete-part past among rows only))
        ]
      where
        pair : {m n : ℕ} {xs ys : List A} → m ≡ n → xs ≡ ys → ◌≡◌ {A = ℕ × List A} (m, xs) (n, ys)
        pair e f = cc
