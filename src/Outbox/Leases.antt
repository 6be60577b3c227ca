-- ===== src/Outbox/Leases.antt =====
-- The batches of `claimBatch` and their leases.
use express_core.Base.{
  zero, suc, inr, delete_where, update_where, All, ◌∷◌, ◌≤◌, suc, Bool-cases, [], leb, inl, inr,
  Bool, arith, map, ◌≡◌, ◌<◌, not, false, ap, true, ◌&&◌, if◌then◌else◌, ◌+◌, refl, ◌*◌,
}
use express_core.Outbox.Claims.{insert_by, sort_by, contains}
use express_core.Outbox.{
  is_due, select_batch, lease, claim_batch, ℕ, delete_where, List, length, OutboxRow, Db, ok,
}
use express_core.Base.Bytes.{take}

module _ {ℓ κ} {A : Type ℓ} (P : A → Type κ) where
  pub All-take : (n : ℕ) (xs : List A) → All P xs → All P (take n xs)
  All-take zero xs h = tt
  All-take (suc n) [] h = tt
  All-take (suc n) (x ∷ xs) h = (h.0, All-take n xs h.1)

  All-insert_by : (key : A → ℕ) (x : A) (xs : List A) → P x → All P xs → All P (insert_by key x xs)
  unfolding insert_by
  All-insert_by key x [] p h = (p, tt)
  All-insert_by key x (y ∷ ys) p h = elim (Bool-cases (leb (key x) (key y))) [
    | inl e ↦ rw e (p, h)
    | inr e ↦ rw e (h.0, All-insert_by key x ys p h.1)
  ]

  pub All-sort_by : (key : A → ℕ) (xs : List A) → All P xs → All P (sort_by key xs)
  unfolding sort_by
  All-sort_by key [] h = tt
  All-sort_by key (x ∷ xs) h = All-insert_by key x (sort_by key xs) h.0 (All-sort_by key xs h.1)

  pub All-delete_where :
      (p : A → Bool) (xs : List A) → All (λ x. p x ≡ false → P x) xs → All P (delete_where p xs)
  unfolding delete_where
  All-delete_where p [] h = tt
  All-delete_where p (x ∷ xs) h = elim (Bool-cases (p x)) [
    | inl e ↦ rw e (All-delete_where p xs h.1)
    | inr e ↦ rw e (h.0 e, All-delete_where p xs h.1)
  ]

length-take : {A : Type 0} (n : ℕ) (xs : List A) → length (take n xs) ≤ n
length-take zero xs = omega arith
length-take (suc n) [] = omega arith
length-take (suc n) (x ∷ xs) = let rest = length-take n xs in omega arith

length-map {ℓ κ} :
    {A : Type ℓ} {B : Type κ} (f : A → B) (xs : List A) → length (map f xs) ≡ length xs
length-map f [] = refl
length-map f (x ∷ xs) = ap suc (length-map f xs)

-- The ids of a batch.
abbrev pub ids_of : List OutboxRow → List ℕ
ids_of = map (λ r. r.id)

ids_of-lease : (until : ℕ) (rows : List OutboxRow) → ids_of (map (lease until) rows) ≡ ids_of rows
ids_of-lease until [] = refl
ids_of-lease until (r ∷ rows) = ap (λ l. r.id ∷ l) (ids_of-lease until rows)

All-lease :
    (P : ℕ → Type 0) (until : ℕ) (rows : List OutboxRow)
    → All (λ r. P r.id) rows
    → All (λ r. P r.id) (map (lease until) rows)
All-lease P until [] h = tt
All-lease P until (r ∷ rows) h = (h.0, All-lease P until rows h.1)

-- Rows of the batch are not due before the lease ends.
leased :
    (ids : List ℕ) (until later : ℕ) (rows : List OutboxRow)
    → later < until
    → All
        (λ r. is_due later r ≡ true → contains ids r.id ≡ false)
        (update_where (λ r. contains ids r.id) (lease until) rows)
unfolding update_where
leased ids until later [] h = tt
leased ids until later (r ∷ rows) h =
    (hidden (contains ids r.id) refl, leased ids until later rows h)
  where
    hidden :
        (b : Bool)
        → contains ids r.id ≡ b
        → is_due later (if b then lease until r else r) ≡ true
        → contains ids (if b then lease until r else r).id ≡ false
    hidden true k due = absurd (ground arith)
    hidden false k due = k

select-All :
    (Q : OutboxRow → Type 0) (limit now : ℕ) (locked : List ℕ) (rows : List OutboxRow)
    → All (λ r. not (is_due now r && not (contains locked r.id)) ≡ false → Q r) rows
    → All Q (select_batch limit now locked rows)
unfolding select_batch
select-All Q limit now locked rows h =
    All-take Q limit _ (All-sort_by Q _ _ (All-delete_where Q _ rows h))

select-leased :
    (ids : List ℕ) (until later limit : ℕ) (locked : List ℕ) (rows : List OutboxRow)
    → later < until
    → All
        (λ r. contains ids r.id ≡ false)
        (select_batch limit later locked (update_where (λ r. contains ids r.id) (lease until) rows))
select-leased ids until later limit locked rows h =
    select-All _ limit later locked _ (weaken _ (leased ids until later rows h))
  where
    weaken :
        (xs : List OutboxRow)
        → All (λ r. is_due later r ≡ true → contains ids r.id ≡ false) xs
        → All
            (λ r.
              not (is_due later r && not (contains locked r.id)) ≡ false
              → contains ids r.id ≡ false)
            xs
    weaken [] k = tt
    weaken (x ∷ xs) k = ((λ d. k.0 (ground arith)), weaken xs k.1)

-- If one claim is followed by another before the lease of the first ends, then no row of the
-- second batch has an id of the first batch, whatever the limits, the leases and the locked rows
-- of both.
pub claim_batch-exclusive :
    (limit lease_seconds now : ℕ) (locked : List ℕ) (s s₁ s₂ : Db) (first second : List OutboxRow)
    (limit' lease_seconds' later : ℕ) (locked' : List ℕ)
    → claim_batch limit lease_seconds now locked s ≡ ok (first, s₁)
    → claim_batch limit' lease_seconds' later locked' s₁ ≡ ok (second, s₂)
    → later < now + lease_seconds * 1000
    → All (λ r. contains (ids_of first) r.id ≡ false) second
unfolding claim_batch
claim_batch-exclusive limit lease_seconds now locked s s₁ s₂ first second limit' lease_seconds'
      later locked' h k soon =
    let batch = select_batch limit now locked s.outbox in
    let until = now + lease_seconds * 1000 in
    let same_first : map (lease until) batch ≡ first = cc h in
    let same_rows : update_where (λ r. contains (ids_of batch) r.id) (lease until) s.outbox
        ≡ s₁.outbox =
      cc h in
    let same_second : map (lease (later + lease_seconds' * 1000))
          (select_batch limit' later locked' s₁.outbox)
        ≡ second =
      cc k in
    rw (← same_first, ← same_second, ← same_rows, ids_of-lease until batch)
      (All-lease (λ id. contains (ids_of batch) id ≡ false) (later + lease_seconds' * 1000) _
        (select-leased (ids_of batch) until later limit' locked' s.outbox soon))

-- A claim returns at most `limit` rows, and none that another relay has locked.
pub claim_batch-limited :
    (limit lease_seconds now : ℕ) (locked : List ℕ) (s s' : Db) (batch : List OutboxRow)
    → claim_batch limit lease_seconds now locked s ≡ ok (batch, s')
    → (length batch ≤ limit) × All (λ r. contains locked r.id ≡ false) batch
unfolding claim_batch select_batch
claim_batch-limited limit lease_seconds now locked s s' batch h =
    let selected = select_batch limit now locked s.outbox in
    let same : map (lease (now + lease_seconds * 1000)) selected ≡ batch = cc h in
    rw (← same) (
      rw (length-map (lease (now + lease_seconds * 1000)) selected) (length-take limit _),
      All-lease (λ id. contains locked id ≡ false) (now + lease_seconds * 1000) selected
          (select-All _ limit now locked s.outbox (unlocked s.outbox)),
    )
  where
    unlocked :
        (rows : List OutboxRow)
        → All
            (λ r.
              not (is_due now r && not (contains locked r.id)) ≡ false
              → contains locked r.id ≡ false)
            rows
    unlocked [] = tt
    unlocked (r ∷ rows) = ((λ d. ground arith), unlocked rows)
