-- ===== src/Base/Decimal.antt =====
-- Decimal numbers as text: `%d` of a natural number.
use Prim.Native.Nat.{ℕ, zero, suc, ◌+◌, ◌*◌, ◌/◌, ◌%◌, ◌≤◌, ◌<◌, ◌-◌}
use mathlib.Core.Path.{◌≡◌, ap, ◌∙◌}
use mathlib.Core.Logic.{◌≢◌, inl, inr}
use mathlib.Core.List.{[], ◌∷◌, ◌++◌}
use native.Mathlib.Omega.{arith}
use unwedge.Base.Tests.{ltb, if◌then◌else◌, Bool-cases}
use unwedge.Base.Text.{Bytes}
use unwedge.Base.Lists.{All, length, replicate}

-- The digits of `n` before `out`, with fuel for the division by ten.
unfoldable pub digits : ℕ → ℕ → Bytes → Bytes
digits zero n out = out
digits (suc f) n out =
    let rest = digits f (n / 10) ((b'0' + n % 10) ∷ out) in
    if ltb n 10 then (b'0' + n) ∷ out else rest

unfoldable pub decimal : ℕ → Bytes
unfolding digits
decimal n = digits (suc n) n []

abbrev pub IsDigit : ℕ → Type 0
IsDigit c = (b'0' ≤ c) × (c ≤ b'9')

-- The number that digits spell behind `n`.
abbrev pub value : ℕ → Bytes → ℕ
value n [] = n
value n (c ∷ s) = value (n * 10 + (c - b'0')) s

digits-value : (f n : ℕ) (out : Bytes) → n < f → value 0 (digits f n out) ≡ value n out
unfolding digits
digits-value zero n out h = elim h [ ]
digits-value (suc f) n out h = elim (Bool-cases (ltb n 10)) [
  | inl small ↦ rw small (ap (λ m. value m out) (omega arith))
  | inr big ↦ rw big (
      digits-value f (n / 10) ((b'0' + n % 10) ∷ out) (ground arith)
      ∙ ap (λ m. value m out) (omega arith))
]

-- What is printed is read back.
pub value-decimal : (n : ℕ) → value 0 (decimal n) ≡ n
unfolding decimal
value-decimal n = digits-value (suc n) n [] (omega arith)

digits-IsDigit : (f n : ℕ) (out : Bytes) → All IsDigit out → All IsDigit (digits f n out)
unfolding digits
digits-IsDigit zero n out h = h
digits-IsDigit (suc f) n out h = elim (Bool-cases (ltb n 10)) [
  | inl small ↦ rw small (ground arith)
  | inr big ↦ rw big (digits-IsDigit f (n / 10) ((b'0' + n % 10) ∷ out) (omega arith, h))
]

pub decimal-IsDigit : (n : ℕ) → All IsDigit (decimal n)
unfolding decimal
decimal-IsDigit n = digits-IsDigit (suc n) n [] tt

digits-ne-nil : (f n c : ℕ) (out : Bytes) → digits f n (c ∷ out) ≢ []
unfolding digits
digits-ne-nil zero n c out = λ h. cc
digits-ne-nil (suc f) n c out = elim (Bool-cases (ltb n 10)) [
  | inl small ↦ rw small (λ h. cc)
  | inr big ↦ rw big (digits-ne-nil f (n / 10) (b'0' + n % 10) (c ∷ out))
]

pub decimal-ne-nil : (n : ℕ) → decimal n ≢ []
unfolding decimal
decimal-ne-nil n = elim (Bool-cases (ltb n 10)) [
  | inl small ↦ rw small (λ h. cc)
  | inr big ↦ rw big (digits-ne-nil n (n / 10) (b'0' + n % 10) [])
]

unfoldable pub hex_char : ℕ → ℕ
hex_char n = if ltb n 10 then b'0' + n else b'a' + (n - 10)

-- `%x`, with fuel for the division by sixteen.
unfoldable pub hex_digits : ℕ → ℕ → Bytes → Bytes
unfolding hex_char
hex_digits zero n out = out
hex_digits (suc f) n out =
    let rest = hex_digits f (n / 16) (hex_char (n % 16) ∷ out) in
    if ltb n 16 then hex_char n ∷ out else rest

unfoldable pub hexadecimal : ℕ → Bytes
unfolding hex_digits
hexadecimal n = hex_digits (suc n) n []

-- `%08x`
unfoldable pub hex8 : ℕ → Bytes
unfolding hexadecimal
hex8 n = let s = hexadecimal n in replicate (8 - length s) b'0' ++ s

-- The number that a digit stands for, and that digits spell behind `n`.
abbrev pub hex_value_of : ℕ → ℕ
hex_value_of c = if ltb c b'a' then c - b'0' else c - b'a' + 10

abbrev pub hex_value : ℕ → Bytes → ℕ
hex_value n [] = n
hex_value n (c ∷ s) = hex_value (n * 16 + hex_value_of c) s

hex_value-char : (n : ℕ) → n < 16 → hex_value_of (hex_char n) ≡ n
unfolding hex_char
hex_value-char n h = ground arith

hex_digits-value :
    (f n : ℕ) (out : Bytes) → n < f → hex_value 0 (hex_digits f n out) ≡ hex_value n out
unfolding hex_digits
hex_digits-value zero n out h = elim h [ ]
hex_digits-value (suc f) n out h = elim (Bool-cases (ltb n 16)) [
  | inl small ↦
      rw small (ap (λ m. hex_value m out) (omega (arith, hex_value-char n (ground arith))))
  | inr big ↦ rw big (
      hex_digits-value f (n / 16) (hex_char (n % 16) ∷ out) (ground arith)
      ∙ ap (λ m. hex_value m out) (omega (arith, hex_value-char (n % 16) (omega arith))))
]

-- What is printed in hexadecimal is read back.
pub hex_value-hexadecimal : (n : ℕ) → hex_value 0 (hexadecimal n) ≡ n
unfolding hexadecimal
hex_value-hexadecimal n = hex_digits-value (suc n) n [] (omega arith)
