-- ===== src/Templates/Filled.antt =====
-- Which texts an edit may save, and which placeholders a rendered text leaves.
use express_core.Base.{
  String, true, not, ◌&&◌, List, [], ◌∷◌, ◌++◌, ◌≡◌, refl, sym, ◌∙◌, ◌↔◌, inl, inr, subst, ◌==ₛ◌,
  if◌then◌else◌, All, Bool-cases, eq_iff, arith, zero, is_some,
}
use express_core.Rbac.{includes}
use express_core.Templates.{Piece, plain, placeholder, scan, Variables, value_of}
use express_core.Templates.Catalog.{
  TemplateKey, catalog, names_in, without, once, placeholders_in, unknown_variables,
  missing_variables, allowed_variables, template_problems, Problem,
}

-- Every name is listed.
abbrev pub Within : List String → List String → Type 0
Within listed names = All (λ n. includes listed n ≡ true) names

includes-without :
    (x : String) (ys : List String) (n : String)
    → includes (without x ys) n ≡ (not (x ==ₛ n) && includes ys n)
unfolding includes without
includes-without x [] n = ground arith
includes-without x (y ∷ ys) n =
    ground (arith, includes-without x ys n, eq_iff y x, eq_iff y n, eq_iff x n)

includes-once : (xs : List String) (n : String) → includes (once xs) n ≡ includes xs n
unfolding includes once
includes-once [] n = refl
includes-once (x ∷ xs) n = ground (arith, includes-without x (once xs) n, includes-once xs n)

Within-without :
    (listed : List String) (x : String) (ys : List String)
    → includes listed x ≡ true
    → Within listed (without x ys) ↔ Within listed ys
unfolding without
Within-without listed x [] h = ((λ k. k), (λ k. k))
Within-without listed x (y ∷ ys) h = elim (Bool-cases (y ==ₛ x)) [
  | inl e ↦
      let same = (eq_iff y x).0 e in
      rw e (
        (λ k. (
          subst (λ n. includes listed n ≡ true) (sym same) h,
          (Within-without listed x ys h).0 k,
        )),
        (λ k. (Within-without listed x ys h).1 k.1),
      )
  | inr e ↦ rw e (
    (λ k. (k.0, (Within-without listed x ys h).0 k.1)),
    (λ k. (k.0, (Within-without listed x ys h).1 k.1)),
  )
]

Within-once : (listed names : List String) → Within listed (once names) ↔ Within listed names
unfolding once
Within-once listed [] = ((λ k. k), (λ k. k))
Within-once listed (x ∷ xs) = (
  (λ k. (k.0, (Within-once listed xs).0 ((Within-without listed x (once xs) k.0).0 k.1))),
  (λ k. (k.0, (Within-without listed x (once xs) k.0).1 ((Within-once listed xs).1 k.1))),
)

unknown-nil :
    (listed : List String) (field : String) (names : List String)
    → (unknown_variables listed field names ≡ []) ↔ Within listed names
unfolding unknown_variables
unknown-nil listed field [] = ((λ h. tt), (λ h. refl))
unknown-nil listed field (n ∷ names) = elim (Bool-cases (includes listed n)) [
  | inl e ↦ rw e (
    (λ h. (refl, (unknown-nil listed field names).0 h)),
    (λ h. (unknown-nil listed field names).1 h.1),
  )
  | inr e ↦ rw e ((λ h. absurd (cc h)), (λ h. absurd (cc h.0)))
]

missing-nil :
    (present names : List String) → (missing_variables present names ≡ []) ↔ Within present names
unfolding missing_variables
missing-nil present [] = ((λ h. tt), (λ h. refl))
missing-nil present (n ∷ names) = elim (Bool-cases (includes present n)) [
  | inl e ↦
      rw e
        ((λ h. (refl, (missing-nil present names).0 h)), (λ h. (missing-nil present names).1 h.1))
  | inr e ↦ rw e ((λ h. absurd (cc h)), (λ h. absurd (cc h.0)))
]

append-nil_iff : (xs ys : List Problem) → (xs ++ ys ≡ []) ↔ ((xs ≡ []) × (ys ≡ []))
append-nil_iff [] ys = ((λ h. (refl, h)), (λ h. h.1))
append-nil_iff (x ∷ xs) ys = ((λ h. absurd (cc h)), (λ h. absurd (cc h.0)))

Within-same :
    (listed listed' names : List String)
    → ((n : String) → includes listed n ≡ includes listed' n)
    → Within listed names
    → Within listed' names
Within-same listed listed' [] h k = tt
Within-same listed listed' (n ∷ names) h k =
    (sym (h n) ∙ k.0, Within-same listed listed' names h k.1)

-- The placeholders of a text.
abbrev pub used : String → List String
used t = names_in (scan zero t)

-- What a text of a template must satisfy.
pub record Sendable (key : TemplateKey) (subject body : String) : Type 0 where
  pub subject_known : Within (allowed_variables key) (used subject)
  pub body_known : Within (allowed_variables key) (used body)
  pub required : Within (used body) (catalog key).required

-- An edited template has no problems exactly when every placeholder of its subject and of its body
-- is a variable of the template or a global one and its body has every required variable.
pub template_problems_iff :
    (key : TemplateKey) (subject body : String)
    → (template_problems key subject body ≡ []) ↔ Sendable key subject body
unfolding template_problems placeholders_in
template_problems_iff key subject body = (
  (λ h.
      let a = (append-nil_iff _ _).0 h in
      let b = (append-nil_iff _ _).0 a.1 in
      record {
        subject_known =
            (Within-once (allowed_variables key) (used subject)).0
              ((unknown-nil (allowed_variables key) "subject" (once (used subject))).0 a.0);
        body_known =
            (Within-once (allowed_variables key) (used body)).0
              ((unknown-nil (allowed_variables key) "body" (once (used body))).0 b.0);
        required =
            Within-same (once (used body)) (used body) (catalog key).required
              (includes-once (used body))
              ((missing-nil (once (used body)) (catalog key).required).0 b.1);
      }),
  (λ h. (append-nil_iff _ _).1 (
    (unknown-nil (allowed_variables key) "subject" (once (used subject))).1
        ((Within-once (allowed_variables key) (used subject)).1 h.subject_known),
    (append-nil_iff _ _).1 (
      (unknown-nil (allowed_variables key) "body" (once (used body))).1
          ((Within-once (allowed_variables key) (used body)).1 h.body_known),
      (missing-nil (once (used body)) (catalog key).required).1 (
          Within-same (used body) (once (used body)) (catalog key).required
            (λ n. sym (includes-once (used body) n)) h.required),
    ),
  )),
)

-- The placeholders that a set of variables leaves in a text.
unfoldable pub unfilled : Variables → List Piece → List String
unfilled variables [] = []
unfilled variables (plain c ∷ rest) = unfilled variables rest
unfilled variables (placeholder raw name ∷ rest) =
    let more = unfilled variables rest in
    if is_some (value_of name variables) then more else name ∷ more

pub unfilled-nil :
    (variables : Variables) (listed : List String) (pieces : List Piece)
    → ((n : String) → includes listed n ≡ true → is_some (value_of n variables) ≡ true)
    → Within listed (names_in pieces)
    → unfilled variables pieces ≡ []
unfolding unfilled names_in
unfilled-nil variables listed [] h k = refl
unfilled-nil variables listed (plain c ∷ rest) h k = unfilled-nil variables listed rest h k
unfilled-nil variables listed (placeholder raw name ∷ rest) h k =
    rw (h name k.0) (unfilled-nil variables listed rest h k.1)
