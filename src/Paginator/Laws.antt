-- ===== src/Paginator/Laws.antt =====
-- The pages of a table, read one after the other (paginator.ts).
use native.Mathlib.Nat.{div-add-mod', mod-lt, mul-zero, mul-suc, add-mul, one-mul, zero-mul}
use express_core.Base.Bytes.{take, drop}
use express_core.Base.{
  [], ◌∷◌, zero, suc, ◌/◌, ℕ, List, ◌≤◌, ◌≡◌, length, ◌++◌, ◌*◌, arith, min, ◌+◌, ap, ◌-◌, refl,
  ◌∙◌, ◌<◌, sym, max, Option,
}
use express_core.Paginator.Search.{Condition}
use express_core.Paginator.{Sort, Delegate, last_page_of}

module _ {A : Type 0} where
  take-nil : (n : ℕ) → take {A = A} n [] ≡ []
  take-nil zero = refl
  take-nil (suc n) = refl

  drop-nil : (n : ℕ) → drop {A = A} n [] ≡ []
  drop-nil zero = refl
  drop-nil (suc n) = refl

  pub take-drop : (k m : ℕ) (xs : List A) → take k xs ++ take m (drop k xs) ≡ take (k + m) xs
  take-drop zero m xs = ap (λ n. take n xs) (omega arith)
  take-drop (suc k) m [] = take-nil m ∙ sym (take-nil (suc k + m))
  take-drop (suc k) m (x ∷ xs) =
      ap (λ l. x ∷ l) (take-drop k m xs) ∙ ap (λ n. take n (x ∷ xs)) (suc_add k m)
    where
      suc_add : (k m : ℕ) → suc (k + m) ≡ suc k + m
      suc_add k m = omega arith

  pub drop-drop : (k m : ℕ) (xs : List A) → drop m (drop k xs) ≡ drop (k + m) xs
  drop-drop zero m xs = ap (λ n. drop n xs) (omega arith)
  drop-drop (suc k) m [] = drop-nil m ∙ sym (drop-nil (suc k + m))
  drop-drop (suc k) m (x ∷ xs) = drop-drop k m xs ∙ ap (λ n. drop n (x ∷ xs)) (suc_add k m)
    where
      suc_add : (k m : ℕ) → suc (k + m) ≡ suc k + m
      suc_add k m = omega arith

  pub take-all : (n : ℕ) (xs : List A) → length xs ≤ n → take n xs ≡ xs
  take-all zero [] h = refl
  take-all zero (x ∷ xs) h = absurd (omega arith)
  take-all (suc n) [] h = refl
  take-all (suc n) (x ∷ xs) h = ap (λ l. x ∷ l) (take-all n xs (omega arith))

  pub length-take-drop :
      (k m : ℕ) (xs : List A) → length (take m (drop k xs)) ≡ min m (length xs - k)
  length-take-drop zero zero xs = omega arith
  length-take-drop zero (suc m) [] = omega arith
  length-take-drop zero (suc m) (x ∷ xs) = let rest = length-take-drop zero m xs in omega arith
  length-take-drop (suc k) zero [] = omega arith
  length-take-drop (suc k) (suc m) [] = omega arith
  length-take-drop (suc k) m (x ∷ xs) = let rest = length-take-drop k m xs in omega arith

module _ {A : Type 0} where
  length-drop : (k : ℕ) (xs : List A) → length (drop k xs) ≡ length xs - k
  length-drop zero xs = omega arith
  length-drop (suc k) [] = omega arith
  length-drop (suc k) (x ∷ xs) = let rest = length-drop k xs in omega arith

  take-min : (n : ℕ) (xs : List A) → take n xs ≡ take (min n (length xs)) xs
  take-min zero xs =
      let none_left : 0 ≡ min 0 (length xs) = omega arith in ap (λ m. take m xs) none_left
  take-min (suc n) [] = sym (take-nil _)
  take-min (suc n) (x ∷ xs) =
      ap (λ l. x ∷ l) (take-min n xs) ∙ ap (λ m. take m (x ∷ xs)) (min-suc n (length xs))
    where
      min-suc : (a b : ℕ) → suc (min a b) ≡ min (suc a) (suc b)
      min-suc a b = omega arith

  -- The rows of a page are those from its first row to its last one.
  pub take-span :
      (k skip : ℕ) (xs : List A)
      → take k (drop skip xs) ≡ take (min (skip + k) (length xs) + 1 - (skip + 1)) (drop skip xs)
  take-span k skip xs =
      let rest = length-drop skip xs in
      take-min k (drop skip xs) ∙ ap (λ m. take m (drop skip xs)) (omega arith)

mul_mono : (a b c : ℕ) → a ≤ b → a * c ≤ b * c
mul_mono a b zero h = rw (mul-zero a, mul-zero b) (omega arith)
mul_mono a b (suc c) h = let rest = mul_mono a b c h in rw (mul-suc a c, mul-suc b c) (omega arith)

-- The last page reaches the last row.
pub last_page-reaches :
    (total per_page : ℕ) → 1 ≤ per_page → total ≤ last_page_of total per_page * per_page
unfolding last_page_of
last_page-reaches total per_page h =
    let q = (total + (per_page - 1)) / per_page in
    let whole = div-add-mod' (total + (per_page - 1)) per_page in
    let left = mod-lt (total + (per_page - 1)) {m = per_page} (omega arith) in
    let grows = mul_mono q (max 1 q) per_page (omega arith) in omega arith

-- No page up to the last starts behind the last row.
pub page-starts_within :
    (total per_page page : ℕ)
    → 1 ≤ per_page
    → 1 ≤ total
    → page + 1 ≤ last_page_of total per_page
    → page * per_page < total
unfolding last_page_of
page-starts_within total per_page zero h some_row k = rw (zero-mul per_page) (omega arith)
page-starts_within total per_page (suc p) h some_row k =
    let q = (total + (per_page - 1)) / per_page in
    let whole = div-add-mod' (total + (per_page - 1)) per_page in
    let grows = mul_mono (suc p + 1) q per_page (omega arith) in
    let next : (suc p + 1) * per_page ≡ suc p * per_page + per_page =
      add-mul (suc p) 1 per_page ∙ ap (λ n. suc p * per_page + n) (one-mul per_page) in
    omega arith

-- The delegate reads one table: the rows of a filter in an order, from `skip`, at most `take`, and
-- their number.
pub record ReadsTable {A : Type 0} (model : Delegate A)
    (rows : Option (List Condition) → List Sort → List A) : Type 0 where
  pub find_many-rows :
      (f : Option (List Condition)) (o : List Sort) (skip n : ℕ)
      → model.find_many f o skip n ≡ take n (drop skip (rows f o))
  pub count-rows : (f : Option (List Condition)) (o : List Sort) → model.count f ≡ length (rows f o)
