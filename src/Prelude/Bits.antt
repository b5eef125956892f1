-- ===== src/Prelude/Bits.antt =====
-- `|` and `&` at variables, as arithmetic.
use Prim.Native.Nat.{
  ℕ, zero, suc, ◌+◌, ◌*◌, ◌/◌, ◌%◌, ◌^◌, ◌≤◌, ◌<◌, max, digits, bit_and, bit_or, bit_or-bitwise,
}
use mathlib.Core.Path.{◌≡◌, refl, ap}
use mathlib.Core.Bool.{Bool, true, ◌&&◌}
use native.Mathlib.Nat.{le_refl, pow-suc}
use native.Mathlib.Omega.{arith}
use agentx_proxy.Prelude.Tests.{◌==◌, ==_iff}

-- A table over the bytes, checked by evaluation.
pub holds_below : ℕ → (ℕ → Bool) → Bool
holds_below zero p = true
holds_below (suc n) p = p n && holds_below n p

holds_below_sound : (n : ℕ) (p : ℕ → Bool) (x : ℕ) → holds_below n p ≡ true → x < n → p x ≡ true
unfolding holds_below
holds_below_sound zero p x h lt = absurd (omega arith)
holds_below_sound (suc n) p x h lt = ground (arith, holds_below_sound n p x)

low_table : holds_below 256 (λ b. bit_and b 0x7f == b % 128) ≡ true
unfolding holds_below
low_table = refl

pub low_seven : (b : ℕ) → b < 256 → bit_and b 0x7f ≡ b % 128
low_seven b h = (==_iff _ _).0 (holds_below_sound 256 _ b low_table h)

top_table : holds_below 256 (λ b. bit_or b 0x80 == b % 128 + 128) ≡ true
unfolding holds_below
top_table = refl

pub set_top : (b : ℕ) → b < 256 → bit_or b 0x80 ≡ b % 128 + 128
set_top b h = (==_iff _ _).0 (holds_below_sound 256 _ b top_table h)

-- The fuel of the recursion on binary digits does not matter once it covers the first number.
or_fuel : (n m a b : ℕ) → a ≤ n → a ≤ m → digits (λ y. y) max n a b ≡ digits (λ y. y) max m a b
or_fuel zero zero a b p q = refl
or_fuel zero (suc m) zero b p q = refl
or_fuel zero (suc m) (suc a) b p q = absurd (omega arith)
or_fuel (suc n) zero zero b p q = refl
or_fuel (suc n) zero (suc a) b p q = absurd (omega arith)
or_fuel (suc n) (suc m) zero b p q = refl
or_fuel (suc n) (suc m) (suc a) b p q =
    omega (arith, or_fuel n m (suc a / 2) (b / 2) (omega arith) (omega arith))

or_halves : (a b : ℕ) → bit_or a b ≡ bit_or (a / 2) (b / 2) * 2 + max (a % 2) (b % 2)
or_halves zero b = simp bit_or-bitwise (omega arith)
or_halves (suc a) b = omega (
  arith,
  bit_or-bitwise (suc a) b,
  bit_or-bitwise (suc a / 2) (b / 2),
  or_fuel a (suc a / 2) (suc a / 2) (b / 2) (omega arith) (le_refl _),
)

zero-bit_or : (b : ℕ) → bit_or 0 b ≡ b
zero-bit_or b = bit_or-bitwise 0 b

double_mul : (q k : ℕ) → q * 2 ^ suc k ≡ 2 * (q * 2 ^ k)
double_mul q k = omega (arith, ap (λ (t : ℕ). q * t) (pow-suc 2 k))

-- `r | q << k` is a sum when `r` fits `k` bits.
pub or_shifted : (k r q : ℕ) → r < 2 ^ k → bit_or r (q * 2 ^ k) ≡ r + q * 2 ^ k
or_shifted zero zero q h = rw zero-bit_or (omega arith)
or_shifted zero (suc r) q h = absurd (omega arith)
or_shifted (suc k) r q h = ground (
  arith,
  or_halves r (q * 2 ^ suc k),
  pow-suc 2 k,
  double_mul q k,
  or_shifted k (r / 2) q (omega (arith, pow-suc 2 k)),
)

-- `|` of two numbers of `k` bits has `k` bits.
pub or_bound : (k a b : ℕ) → a < 2 ^ k → b < 2 ^ k → bit_or a b < 2 ^ k
or_bound zero zero b ha hb = rw zero-bit_or hb
or_bound zero (suc a) b ha hb = absurd (omega arith)
or_bound (suc k) a b ha hb = ground (
  arith,
  pow-suc 2 k,
  or_halves a b,
  or_bound k (a / 2) (b / 2) (omega (arith, pow-suc 2 k)) (omega (arith, pow-suc 2 k)),
)
