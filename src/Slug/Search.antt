-- ===== src/Slug/Search.antt =====
-- The loop of makeUniqueSlug (sluggable.ts): its end and its result.
use Prim.Native.String.{String}
use text.Mathlib.TextLemmas.{append_cancel_left, append-nil, cons-ne-nil, tail-eq_of_cons-eq}
use express_core.Base.{
  List, [], ◌∷◌, zero, suc, ℕ, ◌<◌, ◌≡◌, count_where, delete_where, Bool, sym, ◌≢◌, true, false,
  ◌∙◌, ◌≤◌, Option, length, ◌==ₛ◌, ap, arith, some, ◌||◌, ◌+◌, eq_iff, Bool-cases, inr, inl, refl,
}
use express_core.Base.RowLaws.{length-delete_where}
use express_core.Slug.{numbered, unique_from, make_unique_slug, to_slug, hyphen}
use express_core.Slug.Decimal.{decimal, read_from}
use express_core.Slug.Decimal.Reading.{read-decimal}

unfoldable pub among : List String → String → Bool
among [] t = false
among (x ∷ xs) t = (x ==ₛ t) || among xs t

-- Two numbers give two candidates, and none is the base itself.
numbered_inj : (base : String) (i j : ℕ) → numbered base i ≡ numbered base j → i ≡ j
numbered_inj base i j h =
    sym (read-decimal i)
    ∙ ap (read_from 0) (
        tail-eq_of_cons-eq (
          append_cancel_left base (String.◌∷◌ hyphen (decimal i)) (String.◌∷◌ hyphen (decimal j))
            h))
    ∙ read-decimal j

numbered-base : (base : String) (i : ℕ) → base ≢ numbered base i
numbered-base base i h =
    cons-ne-nil hyphen (decimal i) (
      sym (append_cancel_left base String.[] (String.◌∷◌ hyphen (decimal i)) (append-nil base ∙ h)))

-- Without one of its members a list is shorter, and has the others still.
among-count :
    (xs : List String) (t : String) → among xs t ≡ true → 1 ≤ count_where (λ x. x ==ₛ t) xs
unfolding among count_where
among-count [] t h = absurd (ground arith)
among-count (x ∷ xs) t h = ground (arith, among-count xs t)

among-delete :
    (xs : List String) (t u : String)
    → t ≢ u
    → among xs u ≡ true
    → among (delete_where (λ x. x ==ₛ t) xs) u ≡ true
unfolding among delete_where
among-delete [] t u other h = h
among-delete (x ∷ xs) t u other h =
    ground (arith, eq_iff x t, eq_iff x u, among-delete xs t u other)

-- A free candidate: what the search returns.
pub record Free (conflict : String → Bool) (found : Option String) : Type 0 where
  pub slug : String
  pub returned : found ≡ some slug
  pub unused : conflict slug ≡ false

module _ (conflict : String → Bool) (base : String) where
  search-numbered :
      (fuel k : ℕ) (taken : List String)
      → length taken < fuel
      → ((j : ℕ) → k ≤ j → conflict (numbered base j) ≡ true → among taken (numbered base j) ≡ true)
      → Free conflict (unique_from conflict base fuel (numbered base k) (k + 1))
  unfolding unique_from
  search-numbered zero k taken enough h = absurd (omega arith)
  search-numbered (suc fuel) k taken enough h = elim (Bool-cases (conflict (numbered base k))) [
    | inr free ↦ record { slug = numbered base k; returned = rw free refl; unused = free }
    | inl clash ↦
        let one = among-count taken (numbered base k) (h k (omega arith) clash) in
        let split = length-delete_where (λ x. x ==ₛ numbered base k) taken in
        let rest =
          search-numbered fuel (k + 1) (delete_where (λ x. x ==ₛ numbered base k) taken)
            (omega arith)
            (λ j later c.
              among-delete taken (numbered base k) (numbered base j)
                (λ same. absurd (let equal = numbered_inj base k j same in omega arith))
                (h j (omega arith) c)) in
        record { slug = rest.slug; returned = rw clash rest.returned; unused = rest.unused }
  ]

  search-base :
      (fuel : ℕ) (taken : List String)
      → length taken < fuel
      → ((s : String) → conflict s ≡ true → among taken s ≡ true)
      → Free conflict (unique_from conflict base fuel base 1)
  unfolding unique_from
  search-base zero taken enough h = absurd (omega arith)
  search-base (suc fuel) taken enough h = elim (Bool-cases (conflict base)) [
    | inr free ↦ record { slug = base; returned = rw free refl; unused = free }
    | inl clash ↦
        let one = among-count taken base (h base clash) in
        let split = length-delete_where (λ x. x ==ₛ base) taken in
        let rest =
          search-numbered fuel 1 (delete_where (λ x. x ==ₛ base) taken) (omega arith) (λ j later c.
            among-delete taken base (numbered base j) (numbered-base base j)
              (h (numbered base j) c)) in
        record { slug = rest.slug; returned = rw clash rest.returned; unused = rest.unused }
  ]

-- When every candidate that conflicts is one of the given texts and there are more rounds than
-- texts, the search for a slug ends with one that does not conflict.
pub make_unique_slug-Free :
    (to_lower : String → String) (conflict : String → Bool) (taken : List String) (fuel : ℕ)
    (text : String)
    → ((s : String) → conflict s ≡ true → among taken s ≡ true)
    → length taken < fuel
    → Free conflict (make_unique_slug to_lower conflict fuel text)
unfolding make_unique_slug
make_unique_slug-Free to_lower conflict taken fuel text h enough =
    search-base conflict (to_slug to_lower text) fuel taken enough h
