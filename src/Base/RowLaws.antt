-- ===== src/Base/RowLaws.antt =====
-- Laws of the table statements, and keys that are unique in a table.
use Prim.Native.Nat.{◌+◌}
use Prim.Native.String.{String}
use mathlib.Core.Path.{◌≡◌, refl, ap, ◌∙◌}
use mathlib.Core.Bool.{Bool, true, false, ◌&&◌}
use mathlib.Core.Logic.{inl, inr}
use mathlib.Core.Option
use mathlib.Core.Option.{Option, none, some}
use mathlib.Core.List.{List, [], ◌∷◌}
use native.Mathlib.Omega.{arith}
use text.Mathlib.Text.{◌==◌ as ◌==ₛ◌}
use text.Mathlib.TextEquality.{eq_iff}
use text.Mathlib.TextPositions.{eq_refl}
use express_core.Base.Tests.{if◌then◌else◌, Bool-cases}
use express_core.Base.Rows.{length, find_first, update_where, delete_where, count_where}

module _ {ℓ} {A : Type ℓ} (p : A → Bool) where
  pub find_first-sat : (xs : List A) (x : A) → find_first p xs ≡ some x → p x ≡ true
  unfolding find_first
  find_first-sat [] x h = cc
  find_first-sat (y ∷ xs) x h = ground (arith, find_first-sat xs x)

  -- A table with a row that one test finds has a row for a weaker test.
  pub find_first-weaker :
      (q : A → Bool) (xs : List A) (x : A)
      → find_first p xs ≡ some x
      → q x ≡ true
      → (y : A) × (find_first q xs ≡ some y)
  unfolding find_first
  find_first-weaker q [] x h k = absurd (let e : none ≡ some x = h in cc)
  find_first-weaker q (y ∷ xs) x h k = elim (Bool-cases (q y)) [
    | inl e ↦ (y, rw e refl)
    | inr e ↦ elim (Bool-cases (p y)) [
      | inl e' ↦
          absurd
            (let same : some y ≡ some x = ground arith in let t : q y ≡ true = ground arith in cc)
      | inr e' ↦ let rest = find_first-weaker q xs x (ground arith) k in (rest.0, rw e rest.1)
    ]
  ]

  pub find_first-none_of_count : (xs : List A) → count_where p xs ≡ 0 → find_first p xs ≡ none
  unfolding find_first count_where
  find_first-none_of_count [] h = refl
  find_first-none_of_count (x ∷ xs) h = ground (arith, find_first-none_of_count xs)

  pub count-delete_where : (xs : List A) → count_where p (delete_where p xs) ≡ 0
  unfolding count_where delete_where
  count-delete_where [] = refl
  count-delete_where (x ∷ xs) = ground (arith, count-delete_where xs)

  pub length-delete_where :
      (xs : List A) → length (delete_where p xs) + count_where p xs ≡ length xs
  unfolding count_where delete_where
  length-delete_where [] = omega arith
  length-delete_where (x ∷ xs) = ground (arith, length-delete_where xs)

  pub delete_where_of_count : (xs : List A) → count_where p xs ≡ 0 → delete_where p xs ≡ xs
  unfolding count_where delete_where
  delete_where_of_count [] h = refl
  delete_where_of_count (x ∷ xs) h = ground (arith, delete_where_of_count xs)

  -- A row that one test finds is not missed by another that it passes.
  pub find_first-none-false :
      (q : A → Bool) (xs : List A) (x : A)
      → find_first p xs ≡ none
      → find_first q xs ≡ some x
      → p x ≡ false
  unfolding find_first
  find_first-none-false q [] x h k = cc
  find_first-none-false q (y ∷ xs) x h k = ground (arith, find_first-none-false q xs x)

  pub count-none :
      (g : A → Bool) (xs : List A) → find_first p xs ≡ none → count_where (λ x. p x && g x) xs ≡ 0
  unfolding find_first count_where
  count-none g [] h = refl
  count-none g (x ∷ xs) h = ground (arith, count-none g xs)

  pub find_first-delete_none :
      (q : A → Bool) (xs : List A)
      → find_first p xs ≡ none
      → find_first p (delete_where q xs) ≡ none
  unfolding find_first delete_where
  find_first-delete_none q [] h = refl
  find_first-delete_none q (x ∷ xs) h = ground (arith, find_first-delete_none q xs)

  -- Rows outside a DELETE stay.
  pub find_first-delete_kept :
      (q : A → Bool) (xs : List A) (x : A)
      → find_first p xs ≡ some x
      → q x ≡ false
      → find_first p (delete_where q xs) ≡ some x
  unfolding find_first delete_where
  find_first-delete_kept q [] x h k = cc
  find_first-delete_kept q (y ∷ xs) x h k = ground (arith, find_first-delete_kept q xs x)

  pub update_where_of_count :
      (f : A → A) (xs : List A) → count_where p xs ≡ 0 → update_where p f xs ≡ xs
  unfolding count_where update_where
  update_where_of_count f [] h = refl
  update_where_of_count f (x ∷ xs) h = ground (arith, update_where_of_count f xs)

  -- An update that falsifies its own test matches no row a second time.
  pub count-update_where :
      (f : A → A) (xs : List A)
      → ((x : A) → p (f x) ≡ false)
      → count_where p (update_where p f xs) ≡ 0
  unfolding count_where update_where
  count-update_where f [] h = refl
  count-update_where f (x ∷ xs) h = ground (arith, h x, count-update_where f xs h)

  -- An update that does not touch what a test reads is applied to the row that the test finds.
  pub find_first-update :
      (q : A → Bool) (f : A → A) (xs : List A)
      → ((x : A) → p (f x) ≡ p x)
      → find_first p (update_where q f xs)
        ≡ Option.map (λ x. if q x then f x else x) (find_first p xs)
  unfolding find_first update_where
  find_first-update q f [] h = ground arith
  find_first-update q f (x ∷ xs) h = ground (arith, find_first-update q f xs h, h x)

module _ {ℓ} {A : Type ℓ} (key : A → String) where
  abbrev pub keyed : String → A → Bool
  keyed k y = key y ==ₛ k

  abbrev pub Unique : List A → Type ℓ
  Unique [] = Unit {ℓ}
  Unique (x ∷ xs) = (find_first (keyed (key x)) xs ≡ none) × Unique xs

  pub Unique-delete : (p : A → Bool) (xs : List A) → Unique xs → Unique (delete_where p xs)
  unfolding delete_where
  Unique-delete p [] u = tt
  Unique-delete p (x ∷ xs) u =
      ground (arith, Unique-delete p xs u.1, find_first-delete_none (keyed (key x)) p xs u.0)

  pub Unique-update :
      (p : A → Bool) (f : A → A) (xs : List A)
      → ((x : A) → key (f x) ≡ key x)
      → Unique xs
      → Unique (update_where p f xs)
  unfolding update_where
  Unique-update p f [] h u = tt
  Unique-update p f (x ∷ xs) h u = (
    rw (key_kept (p x)) (
        find_first-update (keyed (key x)) p f xs (λ y. ap (λ k. k ==ₛ key x) (h y))
        ∙ ap (Option.map _) u.0),
    Unique-update p f xs h u.1,
  )
    where
      key_kept : (b : Bool) → key (if b then f x else x) ≡ key x
      key_kept true = h x
      key_kept false = refl

  pub count-keyed :
      (q g : A → Bool) (xs : List A) (x : A)
      → Unique xs
      → find_first q xs ≡ some x
      → g x ≡ true
      → count_where (λ y. keyed (key x) y && g y) xs ≡ 1
  unfolding find_first count_where
  count-keyed q g [] x u h k = cc
  count-keyed q g (y ∷ ys) x u h k = ground (
    arith,
    eq_refl (key x),
    eq_iff (key y) (key x),
    eq_iff (key x) (key y),
    count-none (keyed (key x)) g ys,
    count-keyed q g ys x u.1,
    find_first-none-false (keyed (key y)) q ys x u.0,
  )

  pub find_first-keyed :
      (q : A → Bool) (xs : List A) (x : A)
      → Unique xs
      → find_first q xs ≡ some x
      → find_first (keyed (key x)) xs ≡ some x
  unfolding find_first
  find_first-keyed q [] x u h = cc
  find_first-keyed q (y ∷ ys) x u h = ground (
    arith,
    eq_refl (key x),
    eq_iff (key y) (key x),
    eq_iff (key x) (key y),
    find_first-keyed q ys x u.1,
    find_first-none-false (keyed (key y)) q ys x u.0,
  )

  -- A DELETE that takes the row of a key leaves none with that key.
  pub find_first-delete_hit :
      (p : A → Bool) (k : String) (xs : List A) (x : A)
      → Unique xs
      → find_first (keyed k) xs ≡ some x
      → p x ≡ true
      → find_first (keyed k) (delete_where p xs) ≡ none
  unfolding find_first delete_where
  find_first-delete_hit p k [] x u h t = refl
  find_first-delete_hit p k (y ∷ ys) x u h t = ground (
    arith,
    eq_iff (key y) k,
    find_first-delete_hit p k ys x u.1,
    find_first-delete_none (keyed k) p ys,
  )
