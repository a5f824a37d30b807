-- ===== src/Base/Decimal.antt =====
-- Decimal numbers read back: what `{n}` and `{n:06}` print determines the number.
use Prim.Native.Nat.{ℕ, zero, suc, ◌+◌, ◌-◌, ◌*◌, ◌/◌, ◌%◌, ◌^◌, ◌<◌}
use mathlib.Core.Path.{◌≡◌, refl, ap, ◌∙◌}
use mathlib.Core.Logic.{inl, inr}
use mathlib.Core.List.{List, [], ◌∷◌, ◌++◌}
use native.Mathlib.Omega.{arith}
use native.Mathlib.Nat.{pow-suc}
use repo_hyperindex.Base.Tests.{ltb, Bool-cases}
use repo_hyperindex.Base.Lists.{length, replicate}
use repo_hyperindex.Base.Text.{Text, decimal_fuel, decimal}

-- The number that digits stand for, behind the digits of `acc`.
abbrev pub digits_value : ℕ → Text → ℕ
digits_value acc [] = acc
digits_value acc (d ∷ ds) = digits_value (acc * 10 + (d - 48)) ds

digits_value-decimal_fuel :
    (f n : ℕ) (acc : Text) → n < 10 ^ f → digits_value 0 (decimal_fuel f n acc) ≡ digits_value n acc
unfolding decimal_fuel
digits_value-decimal_fuel zero n acc h = ap (λ k. digits_value k acc) (omega arith)
digits_value-decimal_fuel (suc f) n acc h =
    let big : n < 10 ^ f * 10 = rw (pow-suc 10 f) at h in
    let digits : List ℕ = (48 + n % 10) ∷ acc in
    let whole : n / 10 * 10 + (48 + n % 10 - 48) ≡ n = omega arith in
    elim (Bool-cases (ltb n 10)) [
      | inl small ↦ rw small (ap (λ k. digits_value k acc) (ground arith))
      | inr large ↦ rw large (
          digits_value-decimal_fuel f (n / 10) digits (omega arith)
          ∙ ap (λ k. digits_value k acc) whole)
    ]

unfoldable pub pad_zeros : ℕ → Text → Text
pad_zeros width t = replicate (width - length t) b'0' ++ t

digits_value-zeros : (k : ℕ) (t : Text) → digits_value 0 (replicate k b'0' ++ t) ≡ digits_value 0 t
digits_value-zeros zero t = refl
digits_value-zeros (suc k) t = digits_value-zeros k t

-- What is printed for a 64-bit number reads back as that number.
pub digits_value-decimal : (n : ℕ) → n < 10 ^ 20 → digits_value 0 (decimal n) ≡ n
unfolding decimal
digits_value-decimal n h = digits_value-decimal_fuel 20 n [] h

pub digits_value-pad_zeros :
    (width n : ℕ) → n < 10 ^ 20 → digits_value 0 (pad_zeros width (decimal n)) ≡ n
unfolding pad_zeros
digits_value-pad_zeros width n h =
    digits_value-zeros (width - length (decimal n)) (decimal n) ∙ digits_value-decimal n h
