-- ===== src/Slug/Decimal.antt =====
-- Numbers as decimal text, as a template literal writes them.
pub mod Reading
use Prim.Native.Char.{Char, code}
use Prim.Native.String.{[], ◌∷◌}
use express_core.Base.{ℕ, zero, suc, ◌+◌, ◌-◌, ◌*◌, ◌/◌, ◌%◌, String, ◌==◌, ltb, if◌then◌else◌}

abbrev pub digit : ℕ → Char
digit n =
    if n == 0
    then "0"
    else if n == 1
    then "1"
    else if n == 2
    then "2"
    else if n == 3
    then "3"
    else if n == 4
    then "4"
    else if n == 5
    then "5"
    else if n == 6
    then "6"
    else if n == 7
    then "7"
    else if n == 8
    then "8"
    else "9"

-- The digits of n before those of `tail`; n itself is more than fuel enough.
unfoldable pub decimal_from : ℕ → ℕ → String → String
decimal_from zero n tail = tail
decimal_from (suc fuel) n tail =
    let more = decimal_from fuel (n / 10) (digit (n % 10) ∷ tail) in
    if ltb n 10 then digit n ∷ tail else more

unfoldable pub decimal : ℕ → String
unfolding decimal_from
decimal n = decimal_from (suc n) n []

unfoldable pub read_from : ℕ → String → ℕ
read_from acc [] = acc
read_from acc (c ∷ s) = read_from (acc * 10 + (code c - 48)) s
