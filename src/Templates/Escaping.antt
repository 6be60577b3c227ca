-- ===== src/Templates/Escaping.antt =====
-- What `escapeHtml` and the subject line of `renderTemplate` let through.
use Prim.Native.Char.{Char, code}
use Prim.Native.String
use Prim.Native.String.{[], ◌∷◌}
use text.Mathlib.TextLemmas.{nil-append, cons-append}
use express_core.Base.{
  ℕ, String, Bool, true, false, ◌≡◌, refl, ◌||◌, ◌&&◌, ◌==◌, if◌then◌else◌, Bool-cases, inl, inr,
  arith, not,
}
use express_core.Slug.{is_space, is_empty, drop_start, drop_end}
use express_core.Templates.{
  replace_char, escape_html, one_line, is_newline, render_template, Variables, substitute,
}

-- No character of the text passes the test.
unfoldable pub lacks : (Char → Bool) → String → Bool
lacks p [] = true
lacks p (c ∷ s) = not (p c) && lacks p s

pub lacks-append :
    (p : Char → Bool) (s t : String)
    → lacks p s ≡ true
    → lacks p t ≡ true
    → lacks p (String.◌++◌ s t) ≡ true
unfolding lacks
lacks-append p [] t h k = rw (nil-append t) k
lacks-append p (c ∷ s) t h k =
    rw (cons-append c s t) (let rest = lacks-append p s t (ground arith) k in ground arith)

abbrev is_code : ℕ → Char → Bool
is_code n c = code c == n

lacks-replaced :
    (n : ℕ) (by : String) (s : String)
    → lacks (is_code n) by ≡ true
    → lacks (is_code n) (replace_char n by s) ≡ true
unfolding lacks replace_char
lacks-replaced n by [] h = refl
lacks-replaced n by (c ∷ s) h = elim (Bool-cases (code c == n)) [
  | inl e ↦ rw e (lacks-append (is_code n) by (replace_char n by s) h (lacks-replaced n by s h))
  | inr e ↦ rw e (rw e (lacks-replaced n by s h))
]

lacks-kept :
    (m n : ℕ) (by : String) (s : String)
    → lacks (is_code m) by ≡ true
    → lacks (is_code m) s ≡ true
    → lacks (is_code m) (replace_char n by s) ≡ true
unfolding lacks replace_char
lacks-kept m n by [] h k = refl
lacks-kept m n by (c ∷ s) h k = elim (Bool-cases (code c == n)) [
  | inl e ↦
      rw e
        (lacks-append (is_code m) by (replace_char n by s) h (lacks-kept m n by s h (ground arith)))
  | inr e ↦ rw e (let rest = lacks-kept m n by s h (ground arith) in ground arith)
]

-- An escaped text has no angle bracket, no double quote and no apostrophe.
pub escape_html-lacks :
    (value : String)
    → (lacks (is_code b'<') (escape_html value) ≡ true)
      × (lacks (is_code b'>') (escape_html value) ≡ true)
      × (lacks (is_code 34) (escape_html value) ≡ true)
      × (lacks (is_code 39) (escape_html value) ≡ true)
unfolding escape_html lacks
escape_html-lacks value =
    let s₁ = replace_char 38 "&amp;" value in
    let s₂ = replace_char 60 "&lt;" s₁ in
    let s₃ = replace_char 62 "&gt;" s₂ in
    let s₄ = replace_char 34 "&quot;" s₃ in
    (
      lacks-kept 60 39 "&#39;" s₄ refl (
          lacks-kept 60 34 "&quot;" s₃ refl
            (lacks-kept 60 62 "&gt;" s₂ refl (lacks-replaced 60 "&lt;" s₁ refl))),
      lacks-kept 62 39 "&#39;" s₄ refl
          (lacks-kept 62 34 "&quot;" s₃ refl (lacks-replaced 62 "&gt;" s₂ refl)),
      lacks-kept 34 39 "&#39;" s₄ refl (lacks-replaced 34 "&quot;" s₃ refl),
      lacks-replaced 39 "&#39;" s₄ refl,
    )

lacks-drop_start :
    (p q : Char → Bool) (s : String) → lacks p s ≡ true → lacks p (drop_start q s) ≡ true
unfolding lacks drop_start
lacks-drop_start p q [] h = refl
lacks-drop_start p q (c ∷ s) h = ground (arith, lacks-drop_start p q s)

lacks-drop_end : (p q : Char → Bool) (s : String) → lacks p s ≡ true → lacks p (drop_end q s) ≡ true
unfolding lacks drop_end is_empty
lacks-drop_end p q [] h = refl
lacks-drop_end p q (c ∷ s) h = ground (arith, lacks-drop_end p q s)

newline-is_space : (c : Char) → is_newline c ≡ true → is_space c ≡ false → ⊥
unfolding is_space
newline-is_space c k e = ground arith

-- A run that has no line break is kept; any other becomes a space.
lacks-one_line :
    (run : String) (broken : Bool) (s : String)
    → (broken ≡ false → lacks is_newline run ≡ true)
    → lacks is_newline (one_line run broken s) ≡ true
unfolding one_line lacks
lacks-one_line run true [] h = refl
lacks-one_line run false [] h = h refl
lacks-one_line run broken (c ∷ s) h = elim (Bool-cases (is_space c)) [
  | inl e ↦ rw e (
      lacks-one_line (String.◌++◌ run (c ∷ [])) (broken || is_newline c) s
        (λ none_yet. lacks-append is_newline run (c ∷ []) (h (ground arith)) (ground arith)))
  | inr e ↦ rw e (
      lacks-append is_newline (if broken then " " else run) (c ∷ one_line [] false s)
        (flushed broken h)
        (let rest = lacks-one_line [] false s (λ _. refl) in
          let k = not_newline c e in ground arith))
]
  where
    flushed :
        (b : Bool)
        → (b ≡ false → lacks is_newline run ≡ true)
        → lacks is_newline (if b then " " else run) ≡ true
    flushed true f = refl
    flushed false f = f refl

    not_newline : (x : Char) → is_space x ≡ false → is_newline x ≡ false
    not_newline x e = elim (Bool-cases (is_newline x)) [
      | inr k ↦ k
      | inl k ↦ absurd (newline-is_space x k e)
    ]

-- The subject of a rendered e-mail has no line break.
pub subject-one_line :
    (layout : String → String) (subject body : String) (variables : Variables)
    → lacks is_newline (render_template layout subject body variables).subject ≡ true
unfolding render_template
subject-one_line layout subject body variables = lacks-drop_end is_newline is_space _ (
    lacks-drop_start is_newline is_space _ (
      lacks-one_line [] false (substitute subject variables (λ value. value))
        (λ _. unfold lacks in refl)))
