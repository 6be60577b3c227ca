-- ===== src/Slug/Decimal/Reading.antt =====
-- Decimal text read back.
use express_core.Slug.Decimal.{digit, decimal, decimal_from, read_from}
use Prim.Native.Char.{code}
use express_core.Base.{
  zero, suc, ℕ, ◌<◌, ◌≡◌, ◌/◌, ◌%◌, ◌-◌, arith, Bool-cases, ltb, inl, ap, inr, ◌∙◌, ltb→lt, refl,
  ltb-false_le,
}
use Prim.Native.String.{[], ◌∷◌, String}

digit-code : (n : ℕ) → n < 10 → code (digit n) - 48 ≡ n
digit-code zero h = refl
digit-code (suc zero) h = refl
digit-code (suc (suc zero)) h = refl
digit-code (suc (suc (suc zero))) h = refl
digit-code (suc (suc (suc (suc zero)))) h = refl
digit-code (suc (suc (suc (suc (suc zero))))) h = refl
digit-code (suc (suc (suc (suc (suc (suc zero)))))) h = refl
digit-code (suc (suc (suc (suc (suc (suc (suc zero))))))) h = refl
digit-code (suc (suc (suc (suc (suc (suc (suc (suc zero)))))))) h = refl
digit-code (suc (suc (suc (suc (suc (suc (suc (suc (suc zero))))))))) h = refl
digit-code (suc (suc (suc (suc (suc (suc (suc (suc (suc (suc n)))))))))) h = absurd (omega arith)

read-decimal_from :
    (fuel n : ℕ) (tail : String)
    → n < fuel
    → read_from 0 (decimal_from fuel n tail) ≡ read_from n tail
unfolding decimal_from read_from
read-decimal_from zero n tail h = absurd (omega arith)
read-decimal_from (suc fuel) n tail h = elim (Bool-cases (ltb n 10)) [
  | inl small ↦
      rw small
        (ap (λ k. read_from k tail) (let d = digit-code n (ltb→lt n 10 small) in omega arith))
  | inr big ↦ rw big (
      read-decimal_from fuel (n / 10) (digit (n % 10) ∷ tail)
        (let ten = ltb-false_le n 10 big in omega arith)
      ∙ ap (λ k. read_from k tail) (let d = digit-code (n % 10) (omega arith) in omega arith))
]

pub read-decimal : (n : ℕ) → read_from 0 (decimal n) ≡ n
unfolding decimal read_from
read-decimal n = read-decimal_from (suc n) n [] (omega arith)
