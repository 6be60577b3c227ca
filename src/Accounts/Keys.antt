-- ===== src/Accounts/Keys.antt =====
-- The slugs that the services draw are free in their table.
use express_core.Base.{
  ℕ, suc, String, Bool, true, false, Option, none, some, List, [], ◌∷◌, length, ◌≡◌, refl, ap,
  is_some, or_else, find_first, All, eq_iff, eq_refl, arith, Bool-cases, inl, inr,
}
use express_core.Store.{Db, User}
use express_core.Store.Exec.{ok}
use express_core.Slug.Search.{among, make_unique_slug-Free}
use express_core.Accounts.{is, slug_taken, role_slug_taken, user_clashes, role_clashes}
use express_core.Accounts.Slugs.{fresh_slug, fresh_user_slug, fresh_role_slug, slug_or_fail}

pub All-of_find-none {ℓ} :
    {A : Type ℓ} (p : A → Bool) (xs : List A) → find_first p xs ≡ none → All (λ x. p x ≡ false) xs
unfolding find_first
All-of_find-none p [] h = tt
All-of_find-none p (x ∷ xs) h = elim (Bool-cases (p x)) [
  | inl e ↦ absurd (let h' : some x ≡ none = ground arith in cc)
  | inr e ↦ (e, All-of_find-none p xs (ground arith))
]

module _ {A : Type 0} (test : String → A → Bool) (key : A → Option String)
    (sound : (t : String) (x : A) → test t x ≡ true → key x ≡ some t) where
  abbrev keys : List A → List String
  keys [] = []
  keys (x ∷ xs) = or_else (key x) "" ∷ keys xs

  length-keys : (xs : List A) → length (keys xs) ≡ length xs
  length-keys [] = refl
  length-keys (x ∷ xs) = omega (arith, length-keys xs)

  among-keys :
      (t : String) (xs : List A)
      → is_some (find_first (test t) xs) ≡ true
      → among (keys xs) t ≡ true
  unfolding find_first among
  among-keys t [] h = cc
  among-keys t (x ∷ xs) h = elim (Bool-cases (test t x)) [
    | inl e ↦ rw (sound t x e, eq_refl t) refl
    | inr e ↦ ground (arith, among-keys t xs)
  ]

  pub fresh_slug-unused :
      (to_lower : String → String) (xs : List A) (source : String) (s : Db)
      → (slug : String) × (fresh_slug to_lower
            (λ t. is_some (find_first (test t) xs))
            (length xs)
            source
            s
          ≡ ok (slug, s))
        × All (λ x. test slug x ≡ false) xs
  unfolding fresh_slug
  fresh_slug-unused to_lower xs source s =
      let free =
        make_unique_slug-Free to_lower (λ t. is_some (find_first (test t) xs)) (keys xs)
          (suc (length xs)) source (λ t. among-keys t xs) (let e = length-keys xs in omega arith) in
      (
        free.slug,
        ap (λ o. slug_or_fail o s) free.returned,
        All-of_find-none (test free.slug) xs (no_row (find_first (test free.slug) xs) free.unused),
      )
    where
      no_row : (o : Option A) → is_some o ≡ false → o ≡ none
      no_row none h = refl
      no_row (some x) h = cc

is-eq : (o : Option String) (t : String) → is o t ≡ true → o ≡ some t
is-eq none t h = cc
is-eq (some u) t h = ground (arith, eq_iff u t)

slug_is :
    (exclude : Option ℕ) (t : String) (u : User) → user_clashes exclude t u ≡ true → u.slug ≡ some t
slug_is exclude t u h = is-eq u.slug t (ground arith)

pub fresh_user_slug-unused :
    (to_lower : String → String) (exclude : Option ℕ) (source : String) (s : Db)
    → (slug : String) × (fresh_user_slug to_lower exclude source s ≡ ok (slug, s))
      × All (λ u. user_clashes exclude slug u ≡ false) s.users
unfolding fresh_user_slug slug_taken
fresh_user_slug-unused to_lower exclude source s =
    fresh_slug-unused (user_clashes exclude) (λ u. u.slug) (slug_is exclude) to_lower s.users source
      s

pub fresh_role_slug-unused :
    (to_lower : String → String) (exclude : Option ℕ) (source : String) (s : Db)
    → (slug : String) × (fresh_role_slug to_lower exclude source s ≡ ok (slug, s))
      × All (λ r. role_clashes exclude slug r ≡ false) s.roles
unfolding fresh_role_slug role_slug_taken
fresh_role_slug-unused to_lower exclude source s =
    fresh_slug-unused (role_clashes exclude) (λ r. some r.slug)
      (λ t r h. ground (arith, eq_iff r.slug t)) to_lower s.roles source s
