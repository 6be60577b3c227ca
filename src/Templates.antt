-- ===== src/Templates.antt =====
-- src/modules/email-template/email-template.render.ts: placeholders, escaping and the subject
-- line. The layout around a body (base.template.ts) is a parameter.
pub mod Escaping
pub mod Catalog
pub mod Service
pub mod Filled
pub mod Edits
use Prim.Native.Char.{Char, code}
use Prim.Native.String
use Prim.Native.String.{[], ◌∷◌}
use express_core.Base.{
  ℕ, zero, suc, ◌-◌, String, Bool, true, false, not, ◌||◌, Option, none, some, List, ◌==◌, ◌==ₛ◌,
  if◌then◌else◌,
}
use express_core.Slug.{is_space, is_word, is_empty, drop_start, drop_end, trim_class}

-- `.replace(/c/g, with)` for one character.
unfoldable pub replace_char : ℕ → String → String → String
replace_char c by [] = []
replace_char c by (x ∷ s) =
    let rest = replace_char c by s in if code x == c then String.◌++◌ by rest else x ∷ rest

unfoldable pub escape_html : String → String
unfolding replace_char
escape_html value = replace_char 39 "&#39;" (
    replace_char 34 "&quot;"
      (replace_char 62 "&gt;" (replace_char 60 "&lt;" (replace_char 38 "&amp;" value))))

-- What a scan by PLACEHOLDER leaves: a character, or a match with its text and its name.
pub data Piece : Type 0 where
  plain : Char → Piece
  placeholder : String → String → Piece

unfoldable pub size : String → ℕ
size [] = 0
size (c ∷ s) = suc (size s)

unfoldable pub first : ℕ → String → String
first zero s = []
first (suc n) [] = []
first (suc n) (c ∷ s) = c ∷ first n s

-- The longest beginning of word characters, and what follows it.
unfoldable pub take_name : String → String
take_name [] = []
take_name (c ∷ s) = let rest = take_name s in if is_word c then c ∷ rest else []

unfoldable pub drop_char : ℕ → String → Option String
drop_char c [] = none
drop_char c (x ∷ s) = if code x == c then some s else none

abbrev twice : ℕ → String → Option String
twice c s = elim (drop_char c s) [ none ↦ none | some rest ↦ drop_char c rest ]

-- The end of a match after its name: spaces and two closing braces.
abbrev closed : String → String → Option (String × String)
closed name rest = elim (twice 125 (drop_start is_space rest)) [
  | none ↦ none
  | some tail ↦ some (name, tail)
]

-- A match of PLACEHOLDER at the beginning of a text: its name, and the text after it.
unfoldable pub match_at : String → Option (String × String)
unfolding take_name drop_char drop_start is_space is_word is_empty
match_at s = elim (twice 123 s) [
  | none ↦ none
  | some inner ↦
      let body = drop_start is_space inner in
      let name = take_name body in
      if is_empty name then none else closed name (drop_start is_word body)
]

-- The characters that a match has taken are passed over.
unfoldable pub scan : ℕ → String → List Piece
unfolding match_at size first
scan skip [] = List.[]
scan (suc skip) (c ∷ s) = scan skip s
scan zero (c ∷ s) = elim (match_at (c ∷ s)) [
  | none ↦ List.◌∷◌ (plain c) (scan zero s)
  | some (name, tail) ↦
      List.◌∷◌ (placeholder (first (suc (size s) - size tail) (c ∷ s)) name)
        (scan (size s - size tail) s)
]

abbrev pub Variables : Type 0
Variables = List (String × String)

unfoldable pub value_of : String → Variables → Option String
value_of name List.[] = none
value_of name (List.◌∷◌ (k, v) rest) = if k ==ₛ name then some v else value_of name rest

unfoldable pub write_pieces : Variables → (String → String) → List Piece → String
unfolding value_of
write_pieces variables encode List.[] = []
write_pieces variables encode (List.◌∷◌ (plain c) rest) = c ∷ write_pieces variables encode rest
write_pieces variables encode (List.◌∷◌ (placeholder raw name) rest) =
    let tail = write_pieces variables encode rest in
    elim (value_of name variables) [
      | none ↦ String.◌++◌ raw tail
      | some v ↦ String.◌++◌ (encode v) tail
    ]

unfoldable pub substitute : String → Variables → (String → String) → String
unfolding scan write_pieces
substitute template_text variables encode = write_pieces variables encode (scan zero template_text)

abbrev pub is_newline : Char → Bool
is_newline c = (code c == 10) || (code c == 13)

-- `.replace(/\s*[\r\n]+\s*/g, ' ')`: a run of spaces with a line break becomes one space. The run
-- so far is kept, with whether it has a line break.
unfoldable pub one_line : String → Bool → String → String
one_line run broken [] = if broken then " " else run
one_line run broken (c ∷ s) =
    let within = one_line (String.◌++◌ run (c ∷ [])) (broken || is_newline c) s in
    let after = String.◌++◌ (if broken then " " else run) (c ∷ one_line [] false s) in
    if is_space c then within else after

pub record Rendered : Type 0 where
  pub subject : String
  pub html : String

unfoldable pub render_template : (String → String) → String → String → Variables → Rendered
unfolding substitute one_line escape_html drop_start drop_end is_empty is_space
render_template layout subject body variables = record {
  subject = trim_class is_space (one_line [] false (substitute subject variables (λ value. value)));
  html = layout (substitute body variables escape_html);
}
