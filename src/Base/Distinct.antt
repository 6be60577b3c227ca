-- ===== src/Base/Distinct.antt =====
-- Tables in which a row is known by its id, and a key is shared by no two rows that are not
-- deleted: what inserting a row and updating the row of an id must respect.
use Prim.Native.Nat.{ℕ, ◌<◌}
use Prim.Native.String.{String}
use mathlib.Core.Path.{◌≡◌, subst, ap, sym, ◌∙◌}
use mathlib.Core.Logic.{◌≢◌, inl, inr}
use mathlib.Core.Bool.{Bool, true}
use mathlib.Core.Option.{Option, some}
use mathlib.Core.List.{List, [], ◌∷◌}
use native.Mathlib.Omega.{arith}
use express_core.Base.Tests.{if◌then◌else◌, ◌==◌, Bool-cases}
use express_core.Base.Rows.{find_first, update_where, All}

pub All-map {ℓ κ} :
    {A : Type ℓ} {P Q : A → Type κ} (xs : List A) → ((x : A) → P x → Q x) → All P xs → All Q xs
All-map [] f h = tt
All-map (x ∷ xs) f h = (f x h.0, All-map xs f h.1)

pub All-zip {ℓ κ} :
    {A : Type ℓ} {P Q R : A → Type κ} (xs : List A)
    → ((x : A) → P x → Q x → R x)
    → All P xs
    → All Q xs
    → All R xs
All-zip [] f h k = tt
All-zip (x ∷ xs) f h k = (f x h.0 k.0, All-zip xs f h.1 k.1)

pub All-update {ℓ κ} :
    {A : Type ℓ} {P : A → Type κ} (p : A → Bool) (f : A → A) (xs : List A)
    → ((x : A) → P x → P (f x))
    → All P xs
    → All P (update_where p f xs)
unfolding update_where
All-update p f [] k h = tt
All-update p f (x ∷ xs) k h = elim (Bool-cases (p x)) [
  | inl e ↦ rw e (k x h.0, All-update p f xs k h.1)
  | inr e ↦ rw e (h.0, All-update p f xs k h.1)
]

pub All-found {ℓ κ} :
    {A : Type ℓ} (P : A → Type κ) (p : A → Bool) (xs : List A) (x : A)
    → find_first p xs ≡ some x
    → All P xs
    → P x
unfolding find_first
All-found P p [] x h k = absurd (cc h)
All-found P p (y ∷ ys) x h k = elim (Bool-cases (p y)) [
  | inl e ↦ let same : y ≡ x = ground arith in subst P same k.0
  | inr e ↦ All-found P p ys x (ground arith) k.1
]

module _ {A : Type 0} (id : A → ℕ) (key : A → Option String) (active : A → Bool) where
  -- Both rows count, and both have the key.
  abbrev pub Shares : A → A → Type 0
  Shares x y =
      (k : String) × (active x ≡ true) × (active y ≡ true) × (key x ≡ some k) × (key y ≡ some k)

  abbrev pub Apart : A → A → Type 0
  Apart x y = (id x ≢ id y) × (¬ (Shares x y))

  abbrev pub Distinct : List A → Type 0
  Distinct [] = Unit {0}
  Distinct (x ∷ xs) = All (λ y. Apart x y) xs × Distinct xs

  -- No row that counts, but those of an id, has the key.
  abbrev pub Unused : ℕ → String → List A → Type 0
  Unused i k = All (λ y. id y ≢ i → active y ≡ true → key y ≢ some k)

  Apart-below :
      (x : A) (xs : List A)
      → ((k : String) → key x ≡ some k → Unused (id x) k xs)
      → All (λ y. id y < id x) xs
      → All (λ y. Apart x y) xs
  Apart-below x [] free below = tt
  Apart-below x (y ∷ ys) free below =
      let lt : id y < id x = below.0 in
      (
        (
          (λ same. absurd (omega arith)),
          λ s. (free s.0 s.3).0 (λ same. absurd (omega arith)) s.2 s.4,
        ),
        Apart-below x ys (λ k e. (free k e).1) below.1,
      )

  pub Distinct-insert :
      (x : A) (xs : List A)
      → All (λ y. id y < id x) xs
      → ((k : String) → key x ≡ some k → Unused (id x) k xs)
      → Distinct xs
      → Distinct (x ∷ xs)
  Distinct-insert x xs below free d = (Apart-below x xs free below, d)

  -- One row of the update, by its test.
  row_update : ℕ → (A → A) → A → A
  row_update i f x = if id x == i then f x else x

  Distinct-rows :
      (U : A → Type 0) (i : ℕ) (f : A → A)
      → ((x y : A) → U x → U y → Apart x y → Apart (row_update i f x) (row_update i f y))
      → (xs : List A) → All U xs
      → Distinct xs
      → Distinct (update_where (λ x. id x == i) f xs)
  unfolding update_where row_update
  Distinct-rows U i f step [] u d = tt
  Distinct-rows U i f step (x ∷ xs) u d = (All-rows xs u.1 d.0, Distinct-rows U i f step xs u.1 d.1)
    where
      All-rows :
          (ys : List A)
          → All U ys
          → All (λ y. Apart x y) ys
          → All (λ y. Apart (row_update i f x) y) (update_where (λ x. id x == i) f ys)
      All-rows [] v a = tt
      All-rows (y ∷ ys) v a = (step x y u.0 v.0 a.0, All-rows ys v.1 a.1)

  module _ (i : ℕ) (f : A → A) (same_id : (x : A) → id (f x) ≡ id x)
      (not_revived : (x : A) → active (f x) ≡ true → active x ≡ true) where
    Apart-kept :
        ((x : A) → key (f x) ≡ key x)
        → (x y : A) → Apart x y
        → Apart (row_update i f x) (row_update i f y)
    unfolding row_update
    Apart-kept kept x y a = elim (Bool-cases (id x == i)) [
      | inl e ↦ elim (Bool-cases (id y == i)) [
        | inl e' ↦ absurd (a.0 (ground arith))
        | inr e' ↦
            rw (e, e')
              (
                (λ same. a.0 (sym (same_id x) ∙ same)),
                λ s. a.1 (s.0, not_revived x s.1, s.2, sym (kept x) ∙ s.3, s.4),
              )
      ]
      | inr e ↦ elim (Bool-cases (id y == i)) [
        | inl e' ↦
            rw (e, e')
              (
                (λ same. a.0 (same ∙ same_id y)),
                λ s. a.1 (s.0, s.1, not_revived y s.2, s.3, sym (kept y) ∙ s.4),
              )
        | inr e' ↦ rw (e, e') a
      ]
    ]

    Apart-new :
        (k : String)
        → ((x : A) → key (f x) ≡ some k)
        → (x y : A) → (id x ≢ i → active x ≡ true → key x ≢ some k)
        → (id y ≢ i → active y ≡ true → key y ≢ some k)
        → Apart x y
        → Apart (row_update i f x) (row_update i f y)
    unfolding row_update
    Apart-new k new x y ux uy a = elim (Bool-cases (id x == i)) [
      | inl e ↦ elim (Bool-cases (id y == i)) [
        | inl e' ↦ absurd (a.0 (ground arith))
        | inr e' ↦
            rw (e, e')
              (
                (λ same. a.0 (sym (same_id x) ∙ same)),
                λ s. uy (λ is. absurd (a.0 (ground arith))) s.2 (s.4 ∙ sym s.3 ∙ new x),
              )
      ]
      | inr e ↦ elim (Bool-cases (id y == i)) [
        | inl e' ↦
            rw (e, e')
              (
                (λ same. a.0 (same ∙ same_id y)),
                λ s. ux (λ is. absurd (a.0 (ground arith))) s.1 (s.3 ∙ sym s.4 ∙ new y),
              )
        | inr e' ↦ rw (e, e') a
      ]
    ]

    -- The key stays, or becomes one that no other row that counts has.
    pub Distinct-update_kept :
        (xs : List A)
        → ((x : A) → key (f x) ≡ key x)
        → Distinct xs
        → Distinct (update_where (λ x. id x == i) f xs)
    Distinct-update_kept xs kept d =
        Distinct-rows (λ x. Unit {0}) i f (λ x y u v. Apart-kept kept x y) xs (all_unit xs) d
      where
        all_unit : (ys : List A) → All (λ x. Unit {0}) ys
        all_unit [] = tt
        all_unit (y ∷ ys) = (tt, all_unit ys)

    pub Distinct-update_new :
        (k : String) (xs : List A)
        → ((x : A) → key (f x) ≡ some k)
        → Unused i k xs
        → Distinct xs
        → Distinct (update_where (λ x. id x == i) f xs)
    Distinct-update_new k xs new free d =
        Distinct-rows (λ x. id x ≢ i → active x ≡ true → key x ≢ some k) i f (Apart-new k new) xs
          free d

  -- What a row that counts has, no other row that counts has.
  pub Distinct-Unused :
      (p : A → Bool) (x : A) (k : String) (xs : List A)
      → find_first p xs ≡ some x
      → active x ≡ true
      → key x ≡ some k
      → Distinct xs
      → Unused (id x) k xs
  unfolding find_first
  Distinct-Unused p x k [] found live has d = tt
  Distinct-Unused p x k (y ∷ ys) found live has d = elim (Bool-cases (p y)) [
    | inl e ↦
        let same : y ≡ x = ground arith in
        (
          (λ other l h. other (ap id same)),
          All-map ys (λ z a other l h. (subst (λ w. Apart w z) same a).1 (k, live, l, has, h)) d.0,
        )
    | inr e ↦
        let later : find_first p ys ≡ some x = ground arith in
        (
          (λ other l h. (All-found (λ z. Apart y z) p ys x later d.0).1 (k, l, live, h, has)),
          Distinct-Unused p x k ys later live has d.1,
        )
  ]
