-- ===== src/Prelude/Bits/Step.antt =====
-- One equation for the lowest digit of each bitwise operation, with the fuel of the native
-- definition dropped.
use Prim.Native.Nat.{
  ℕ, zero, suc, ◌+◌, ◌*◌, ◌/◌, ◌%◌, ◌≤◌, min, max, differ, digits, bitwise, bit_and, bit_or,
  bit_xor, bit_and-bitwise, bit_or-bitwise, bit_xor-bitwise,
}
use mathlib.Core.Path.{◌≡◌, refl}
use native.Mathlib.Nat.{le_refl}
use native.Mathlib.Omega.{arith}

module _ (z : ℕ → ℕ) (f : ℕ → ℕ → ℕ) where
  fuel_irrelevant : (a b n : ℕ) → a ≤ n → (m : ℕ) → a ≤ m → digits z f n a b ≡ digits z f m a b
  fuel_irrelevant zero b zero h zero k = refl
  fuel_irrelevant zero b zero h (suc m) k = refl
  fuel_irrelevant zero b (suc n) h zero k = refl
  fuel_irrelevant zero b (suc n) h (suc m) k = refl
  fuel_irrelevant (suc a) b zero h m k = absurd (omega arith)
  fuel_irrelevant (suc a) b (suc n) h zero k = absurd (omega arith)
  fuel_irrelevant (suc a) b (suc n) h (suc m) k =
      let half = suc a / 2 in rw (fuel_irrelevant half (b / 2) n (omega arith) m (omega arith))

  lowest_digit :
      (m n : ℕ)
      → bitwise z f (suc m) n ≡ f (suc m % 2) (n % 2) + 2 * bitwise z f (suc m / 2) (n / 2)
  lowest_digit m n =
      let half = suc m / 2 in
      omega (arith, fuel_irrelevant half (n / 2) m (omega arith) half (le_refl half))

module _ (m n : ℕ) where
  and_low : (k : ℕ) → m ≡ suc k → bit_and m n ≡ min (m % 2) (n % 2) + 2 * bit_and (m / 2) (n / 2)
  and_low k e = rw e (simp bit_and-bitwise (lowest_digit (λ y. 0) min k n))

  or_low : (k : ℕ) → m ≡ suc k → bit_or m n ≡ max (m % 2) (n % 2) + 2 * bit_or (m / 2) (n / 2)
  or_low k e = rw e (simp bit_or-bitwise (lowest_digit (λ y. y) max k n))

  xor_low : (k : ℕ) → m ≡ suc k → bit_xor m n ≡ differ (m % 2) (n % 2) + 2 * bit_xor (m / 2) (n / 2)
  xor_low k e = rw e (simp bit_xor-bitwise (lowest_digit (λ y. y) differ k n))

pub bit_and_step : (m n : ℕ) → bit_and m n ≡ min (m % 2) (n % 2) + 2 * bit_and (m / 2) (n / 2)
bit_and_step zero n = simp bit_and-bitwise (omega arith)
bit_and_step (suc m) n = and_low (suc m) n m refl

pub bit_or_step : (m n : ℕ) → bit_or m n ≡ max (m % 2) (n % 2) + 2 * bit_or (m / 2) (n / 2)
bit_or_step zero n = simp bit_or-bitwise (omega arith)
bit_or_step (suc m) n = or_low (suc m) n m refl

differ_digits : (x y : ℕ) → x ≤ 1 → y ≤ 1 → differ x y ≡ (x + y) % 2
differ_digits zero y p q = omega arith
differ_digits (suc zero) zero p q = refl
differ_digits (suc zero) (suc zero) p q = refl
differ_digits (suc zero) (suc (suc y)) p q = absurd (omega arith)
differ_digits (suc (suc x)) y p q = absurd (omega arith)

differ_step : (m n : ℕ) → bit_xor m n ≡ differ (m % 2) (n % 2) + 2 * bit_xor (m / 2) (n / 2)
differ_step zero n = simp bit_xor-bitwise (omega arith)
differ_step (suc m) n = xor_low (suc m) n m refl

pub bit_xor_step : (m n : ℕ) → bit_xor m n ≡ (m % 2 + n % 2) % 2 + 2 * bit_xor (m / 2) (n / 2)
bit_xor_step m n =
    omega (arith, differ_step m n, differ_digits (m % 2) (n % 2) (omega arith) (omega arith))
