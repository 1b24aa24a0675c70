-- ===== src/Prelude/Text/Decimal.antt =====
-- The decimal digits of a number are read back as the number.
use Prim.Native.Char.{Char, code}
use Prim.Native.String.{String}
use Prim.Native.Nat.{ℕ, zero, suc, ◌+◌, ◌*◌, ◌/◌, ◌%◌, ◌≤◌, ◌<◌}
use mathlib.Core.Path.{◌≡◌, refl, ap, ◌∙◌}
use mathlib.Core.Logic.{inl, inr}
use mathlib.Core.Bool.{true, false, ◌||◌}
use mathlib.Core.Option.{some}
use native.Mathlib.Omega.{arith}
use xjp_deploy_agent.Prelude.Tests.{ltb, Bool-cases}
use xjp_deploy_agent.Prelude.Text.{
  is_whitespace, parse_digits, parse_uint, digit, digits, decimal_port,
}
use xjp_deploy_agent.Prelude.Text.Laws.{Lacks, IsSolid}

code-digit : (n : ℕ) → n < 10 → code (digit n) ≡ 48 + n
code-digit zero h = refl
code-digit (suc zero) h = refl
code-digit (suc (suc zero)) h = refl
code-digit (suc (suc (suc zero))) h = refl
code-digit (suc (suc (suc (suc zero)))) h = refl
code-digit (suc (suc (suc (suc (suc zero))))) h = refl
code-digit (suc (suc (suc (suc (suc (suc zero)))))) h = refl
code-digit (suc (suc (suc (suc (suc (suc (suc zero))))))) h = refl
code-digit (suc (suc (suc (suc (suc (suc (suc (suc zero)))))))) h = refl
code-digit (suc (suc (suc (suc (suc (suc (suc (suc (suc zero))))))))) h = refl
code-digit (suc (suc (suc (suc (suc (suc (suc (suc (suc (suc n)))))))))) h = absurd (omega arith)

digit-solid : (c : Char) → 48 ≤ code c → code c ≤ 57 → is_whitespace (code c) ≡ false
unfolding is_whitespace
digit-solid c low high = ground arith

-- A number with at most `fuel` and one more digits.
abbrev Fits : (fuel n : ℕ) → Type 0
Fits zero n = n < 10
Fits (suc fuel) n = Fits fuel (n / 10)

parse_digits-digit :
    (max acc n : ℕ) (tail : String)
    → n < 10
    → acc * 10 + n ≤ max
    → parse_digits max acc (String.◌∷◌ (digit n) tail) ≡ parse_digits max (acc * 10 + n) tail
unfolding parse_digits
parse_digits-digit max acc n tail small fits = ground (arith, code-digit n small)

parse_digits-digits :
    (max fuel n : ℕ) (tail : String)
    → Fits fuel n
    → n ≤ max
    → parse_digits max 0 (digits fuel n tail) ≡ parse_digits max n tail
unfolding digits
parse_digits-digits max zero n tail fits le =
    parse_digits-digit max 0 (n % 10) tail (omega arith) (omega (arith, fits, le))
    ∙ ap (λ k. parse_digits max k tail) (omega (arith, fits))
parse_digits-digits max (suc fuel) n tail fits le = elim (Bool-cases (ltb n 10)) [
  | inl small ↦
      rw (small, digits)
        (parse_digits-digit max 0 n tail (ground arith) (omega (arith, le))
          ∙ ap (λ k. parse_digits max k tail) (omega arith))
  | inr large ↦
      rw (large, digits)
        (parse_digits-digits max fuel (n / 10) (String.◌∷◌ (digit (n % 10)) tail) fits
            (omega (arith, le))
          ∙ parse_digits-digit max (n / 10) (n % 10) tail (omega arith) (omega (arith, le))
          ∙ ap (λ k. parse_digits max k tail) (omega arith))
]

-- The text starts with a digit.
abbrev StartsWithDigit : String → Type 0
StartsWithDigit String.[] = ⊥
StartsWithDigit (String.◌∷◌ c s) = 48 ≤ code c

-- A property of every text that has a digit before a text with the property `Q`, which it implies.
module _ (P Q : String → Type 0)
    (one : (n : ℕ) (s : String) → n < 10 → Q s → P (String.◌∷◌ (digit n) s))
    (weaken : (s : String) → P s → Q s) where
  digits-holds : (fuel n : ℕ) (tail : String) → Q tail → P (digits fuel n tail)
  unfolding digits
  digits-holds zero n tail q = one (n % 10) tail (omega arith) q
  digits-holds (suc fuel) n tail q = elim (Bool-cases (ltb n 10)) [
    | inl small ↦ rw (small, digits) (one n tail (ground arith) q)
    | inr large ↦
        rw (large, digits)
          (digits-holds fuel (n / 10) (String.◌∷◌ (digit (n % 10)) tail)
            (weaken _ (one (n % 10) tail (omega arith) q)))
  ]

pub decimal_port-Lacks :
    (separator n : ℕ)
    → (ltb separator 48 || ltb 57 separator) ≡ true
    → Lacks separator (decimal_port n)
unfolding decimal_port
decimal_port-Lacks separator n other =
    digits-holds (Lacks separator) (Lacks separator)
      (λ d s small p. (ground (arith, other, code-digit d small), p)) (λ s p. p) 4 n String.[] tt

pub decimal_port-IsSolid : (n : ℕ) → IsSolid (decimal_port n)
unfolding decimal_port
decimal_port-IsSolid n =
    digits-holds IsSolid IsSolid
      (λ d s small p. (
        digit-solid (digit d) (omega (arith, code-digit d small))
            (omega (arith, code-digit d small)),
        p,
      ))
      (λ s p. p) 4 n String.[] tt

parse_uint-digit :
    (max : ℕ) (s : String) → StartsWithDigit s → parse_uint max s ≡ parse_digits max 0 s
unfolding parse_uint
parse_uint-digit max String.[] h = absurd h
parse_uint-digit max (String.◌∷◌ c s) h = ground (arith, h)

-- A port is read back from its digits.
pub parse_uint-decimal_port : (n : ℕ) → n ≤ 65535 → parse_uint 65535 (decimal_port n) ≡ some n
unfolding decimal_port parse_digits
parse_uint-decimal_port n h =
    parse_uint-digit 65535 (decimal_port n) (
      digits-holds StartsWithDigit (λ s. Unit) (λ d s small q. omega (arith, code-digit d small))
        (λ s p. tt) 4 n String.[] tt)
    ∙ parse_digits-digits 65535 4 n String.[] (omega (arith, h)) h
