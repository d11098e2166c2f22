-- ===== src/Base/Bits/Step.antt =====
-- The equation for the lowest binary digit of `bit_xor`, `bit_or` and `bit_and`. A native bit
-- operation stands for a recursion on digits with as much fuel as its first argument.
use Prim.Native.Nat.{
  ℕ, zero, suc, ◌+◌, ◌*◌, ◌/◌, ◌%◌, ◌≤◌, min, max, digits, bitwise, differ, bit_and, bit_or,
  bit_xor, bit_and-bitwise, bit_or-bitwise, bit_xor-bitwise,
}
use mathlib.Core.Path.{◌≡◌, refl, ap, ◌∙◌}
use native.Mathlib.Decide.{dec_le}
use native.Mathlib.Omega.{arith}

module _ (rest : ℕ → ℕ) (digit : ℕ → ℕ → ℕ) where
  -- One unit of fuel above what is needed changes nothing.
  spare : (n a b : ℕ) → a ≤ n → digits rest digit (suc n) a b ≡ digits rest digit n a b
  spare zero zero b h = refl
  spare (suc n) zero b h = refl
  spare zero (suc a) b h = elim h [ ]
  spare (suc n) (suc a) b h =
      ap (λ t. t * 2 + digit (suc a % 2) (b % 2)) (spare n (suc a / 2) (b / 2) (omega arith))

  enough : (m a b : ℕ) → a ≤ m → digits rest digit m a b ≡ bitwise rest digit a b
  enough zero zero b h = refl
  enough zero (suc a) b h = elim h [ ]
  enough (suc m) a b h = elim (dec_le a m) [
    | yes less ↦ spare m a b less ∙ enough m a b less
    | no more ↦ let same : a ≡ suc m = omega arith in rw same
  ]

  lowest :
      (a b : ℕ)
      → bitwise rest digit (suc a) b
        ≡ bitwise rest digit (suc a / 2) (b / 2) * 2 + digit (suc a % 2) (b % 2)
  lowest a b =
      ap (λ t. t * 2 + digit (suc a % 2) (b % 2)) (enough a (suc a / 2) (b / 2) (omega arith))

-- On binary digits `differ` is the sum without the carry.
differ_digit : (x y : ℕ) → x ≤ 1 → y ≤ 1 → differ x y ≡ (x + y) % 2
differ_digit zero zero h k = refl
differ_digit zero (suc zero) h k = refl
differ_digit (suc zero) zero h k = refl
differ_digit (suc zero) (suc zero) h k = refl
differ_digit (suc (suc x)) y h k = absurd (omega arith)
differ_digit x (suc (suc y)) h k = absurd (omega arith)

pub bit_xor_step : (a b : ℕ) → bit_xor a b ≡ bit_xor (a / 2) (b / 2) * 2 + (a + b) % 2
bit_xor_step zero b = rw (bit_xor-bitwise zero b, bit_xor-bitwise (zero / 2) (b / 2)) (omega arith)
bit_xor_step (suc a) b =
    rw (bit_xor-bitwise (suc a) b, bit_xor-bitwise (suc a / 2) (b / 2), lowest (λ y. y) differ a b)
      (omega (arith, differ_digit (suc a % 2) (b % 2) (omega arith) (omega arith)))

pub bit_and_step : (a b : ℕ) → bit_and a b ≡ bit_and (a / 2) (b / 2) * 2 + min (a % 2) (b % 2)
bit_and_step zero b = rw (bit_and-bitwise zero b, bit_and-bitwise (zero / 2) (b / 2)) (omega arith)
bit_and_step (suc a) b =
    rw (bit_and-bitwise (suc a) b, bit_and-bitwise (suc a / 2) (b / 2)) (lowest (λ _. 0) min a b)

pub bit_or_step : (a b : ℕ) → bit_or a b ≡ bit_or (a / 2) (b / 2) * 2 + max (a % 2) (b % 2)
bit_or_step zero b = rw (bit_or-bitwise zero b, bit_or-bitwise (zero / 2) (b / 2)) (omega arith)
bit_or_step (suc a) b =
    rw (bit_or-bitwise (suc a) b, bit_or-bitwise (suc a / 2) (b / 2)) (lowest (λ y. y) max a b)
