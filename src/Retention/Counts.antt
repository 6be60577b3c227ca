-- ===== src/Retention/Counts.antt =====
-- Counts of rows under the statements of a retention loop.
use express_core.Base.{
  zero, suc, [], ◌∷◌, delete_where, count_where, ℕ, Bool, true, List, not, ◌+◌, ◌<◌, ◌≤◌, ◌≡◌, refl,
  ap, length, All, Bool-cases, inl, inr, arith,
}
use express_core.Base.Bytes.{take}
use express_core.Outbox.Claims.{sort_by, insert_by}

module _ {A : Type 0} (p : A → Bool) where
  pub count-take : (n : ℕ) (xs : List A) → count_where p (take n xs) ≤ count_where p xs
  unfolding count_where
  count-take zero xs = omega arith
  count-take (suc n) [] = omega arith
  count-take (suc n) (x ∷ xs) = ground (arith, count-take n xs)

  count-insert_by :
      (key : A → ℕ) (x : A) (xs : List A)
      → count_where p (insert_by key x xs) ≡ count_where p (x ∷ xs)
  unfolding count_where insert_by
  count-insert_by key x [] = refl
  count-insert_by key x (y ∷ ys) = ground (arith, count-insert_by key x ys)

  pub count-sort_by :
      (key : A → ℕ) (xs : List A) → count_where p (sort_by key xs) ≡ count_where p xs
  unfolding count_where sort_by
  count-sort_by key [] = refl
  count-sort_by key (x ∷ xs) =
      let first = count-insert_by key x (sort_by key xs) in ground (arith, count-sort_by key xs)

  pub count-delete :
      (q : A → Bool) (xs : List A) → count_where p (delete_where q xs) ≤ count_where p xs
  unfolding count_where delete_where
  count-delete q [] = omega arith
  count-delete q (x ∷ xs) = ground (arith, count-delete q xs)

  pub count-All : (xs : List A) → All (λ x. p x ≡ true) xs → count_where p xs ≡ length xs
  unfolding count_where
  count-All [] h = refl
  count-All (x ∷ xs) h = rw h.0 (ap suc (count-All xs h.1))

  -- A DELETE of some of the rows that pass a test.
  module _ (d : A → Bool) where
    pub delete-part :
        (xs : List A)
        → All (λ x. d x ≡ true → p x ≡ true) xs
        → delete_where p (delete_where d xs) ≡ delete_where p xs
    unfolding delete_where
    delete-part [] h = refl
    delete-part (x ∷ xs) h = elim (Bool-cases (d x)) [
      | inl e ↦ rw (e, h.0 e) (delete-part xs h.1)
      | inr e ↦ rw e (elim (Bool-cases (p x)) [
        | inl k ↦ rw k (delete-part xs h.1)
        | inr k ↦ rw k (ap (λ l. x ∷ l) (delete-part xs h.1))
      ])
    ]

    pub count-part :
        (xs : List A)
        → All (λ x. d x ≡ true → p x ≡ true) xs
        → count_where p (delete_where d xs) + count_where d xs ≡ count_where p xs
    unfolding delete_where count_where
    count-part [] h = refl
    count-part (x ∷ xs) h = elim (Bool-cases (d x)) [
      | inl e ↦ rw (e, h.0 e) (let rest = count-part xs h.1 in omega arith)
      | inr e ↦ rw e (elim (Bool-cases (p x)) [
        | inl k ↦ rw k (let rest = count-part xs h.1 in omega arith)
        | inr k ↦ rw k (count-part xs h.1)
      ])
    ]

pub length-not :
    {A : Type 0} (p : A → Bool) (xs : List A)
    → length (delete_where (λ x. not (p x)) xs) ≡ count_where p xs
unfolding delete_where count_where
length-not p [] = refl
length-not p (x ∷ xs) = ground (arith, length-not p xs)

pub length-take_short :
    {A : Type 0} (n : ℕ) (xs : List A) → length (take n xs) < n → length (take n xs) ≡ length xs
length-take_short zero xs h = absurd (omega arith)
length-take_short (suc n) [] h = refl
length-take_short (suc n) (x ∷ xs) h = ap suc (length-take_short n xs (omega arith))

pub count-true : {A : Type 0} (xs : List A) → count_where (λ x. true) xs ≡ length xs
unfolding count_where
count-true [] = refl
count-true (x ∷ xs) = ap suc (count-true xs)
