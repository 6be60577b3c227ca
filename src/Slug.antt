-- ===== src/Slug.antt =====
-- src/utils/sluggable.ts. `to_lower` is the platform's toLowerCase, a parameter; the regular
-- expressions are written out over the characters.
pub mod Decimal
pub mod Search
use Prim.Native.Char.{Char, code}
use Prim.Native.String
use Prim.Native.String.{[], ◌∷◌}
use express_core.Base.{
  ℕ, zero, suc, ◌+◌, String, Bool, true, false, not, ◌&&◌, ◌||◌, Option, none, some, leb, ◌==◌,
  ◌==ₛ◌, if◌then◌else◌,
}
use Decimal.{decimal}

-- The class \s of JavaScript, which `trim` strips too.
unfoldable pub is_space : Char → Bool
is_space c =
    let n = code c in
    (leb 9 n && leb n 13)
    || (n == 32
        || (n == 160
            || (n == 5760
                || ((leb 8192 n && leb n 8202)
                    || (n == 8232
                        || (n == 8233
                            || (n == 8239 || (n == 8287 || (n == 12288 || n == 65279)))))))))

-- The class \w.
unfoldable pub is_word : Char → Bool
is_word c =
    let n = code c in
    (leb b'a' n && leb n b'z')
    || ((leb b'A' n && leb n b'Z') || ((leb b'0' n && leb n b'9') || n == b'_'))

unfoldable pub is_hyphen : Char → Bool
is_hyphen c = code c == b'-'

abbrev pub hyphen : Char
hyphen = "-"

unfoldable pub is_empty : String → Bool
is_empty [] = true
is_empty (c ∷ s) = false

-- Leading and trailing characters of a class, dropped.
unfoldable pub drop_start : (Char → Bool) → String → String
drop_start p [] = []
drop_start p (c ∷ s) = let rest = drop_start p s in if p c then rest else c ∷ s

unfoldable pub drop_end : (Char → Bool) → String → String
unfolding is_empty
drop_end p [] = []
drop_end p (c ∷ s) = let rest = drop_end p s in if p c && is_empty rest then [] else c ∷ rest

abbrev pub trim_class : (Char → Bool) → String → String
trim_class p s = drop_end p (drop_start p s)

unfoldable pub keep : (Char → Bool) → String → String
keep p [] = []
keep p (c ∷ s) = let rest = keep p s in if p c then c ∷ rest else rest

-- Each run of a class becomes one hyphen; the flag says that a run has begun.
unfoldable pub hyphenate : (Char → Bool) → Bool → String → String
hyphenate p run [] = []
hyphenate p run (c ∷ s) =
    let within = hyphenate p true s in
    let outside = hyphenate p false s in
    if p c then (if run then within else hyphen ∷ within) else c ∷ outside

abbrev pub is_separator : Char → Bool
is_separator c = is_space c || code c == b'_'

unfoldable pub to_slug : (String → String) → String → String
unfolding is_space is_word is_hyphen drop_start drop_end keep hyphenate
to_slug to_lower text = trim_class is_hyphen (
    hyphenate is_hyphen false (
      hyphenate is_separator false (
        keep (λ c. is_word c || (is_space c || is_hyphen c))
          (trim_class is_space (to_lower text)))))

-- `${base}-${counter}`
abbrev pub numbered : String → ℕ → String
numbered base counter = String.◌++◌ base (hyphen ∷ decimal counter)

-- The loop of makeUniqueSlug, with the rounds that are left.
unfoldable pub unique_from : (String → Bool) → String → ℕ → String → ℕ → Option String
unique_from conflict base zero slug counter = none
unique_from conflict base (suc fuel) slug counter =
    let next = unique_from conflict base fuel (numbered base counter) (counter + 1) in
    if conflict slug then next else some slug

unfoldable pub make_unique_slug : (String → String) → (String → Bool) → ℕ → String → Option String
unfolding to_slug unique_from decimal
make_unique_slug to_lower conflict fuel source_text =
    let base = to_slug to_lower source_text in unique_from conflict base fuel base 1
