-- ===== src/Common/Bits.antt =====
-- Arithmetic meaning of the bit operations that the kernel applies to words.
-- The native operations recur on binary digits with fuel; here is one equation for a digit.
use Prim.Native.Nat.{bit_and, bit_and-bitwise, bit_or, bit_or-bitwise, digits, max, min}
use Prim.Native.Nat.{zero, suc, ℕ, ◌<◌, ◌≤◌, ◌^◌, ◌/◌, ◌%◌, ◌*◌, ◌-◌, ◌+◌}
use mathlib.Core.Path.{◌≡◌, refl, ap}
use mathlib.Core.Bool.{Bool, false, true}
use trs.Common.Tests.{if◌then◌else◌}
use native.Mathlib.Nat.{pow-suc, one-le-pow}
use native.Mathlib.Omega.{arith}

-- Check a property of every number below a bound by evaluation.
unfoldable pub holds_below : (bound : ℕ) (test : ℕ → Bool) → Bool
holds_below zero test = true
holds_below (suc bound) test = if test bound then holds_below bound test else false

pub holds_below_lem :
    (bound : ℕ) (test : ℕ → Bool) (v : ℕ)
    → holds_below bound test ≡ true
    → v < bound
    → test v ≡ true
unfolding holds_below
holds_below_lem zero test v all inside = absurd (omega arith)
holds_below_lem (suc bound) test v all inside = ground (arith, holds_below_lem bound test v)

-- The digits do not depend on the fuel, if it is no less than the first number.
module _ (last : ℕ → ℕ) (op : ℕ → ℕ → ℕ) where
  fuel_enough :
      (fuel more x y : ℕ) → x ≤ more → x ≤ fuel → digits last op fuel x y ≡ digits last op more x y
  fuel_enough zero zero x y low high = refl
  fuel_enough zero (suc more) zero y low high = refl
  fuel_enough zero (suc more) (suc x) y low high = absurd (omega arith)
  fuel_enough (suc fuel) zero zero y low high = refl
  fuel_enough (suc fuel) zero (suc x) y low high = absurd (omega arith)
  fuel_enough (suc fuel) (suc more) zero y low high = refl
  fuel_enough (suc fuel) (suc more) (suc x) y low high =
      let half = suc x / 2 in rw (fuel_enough fuel more half (y / 2) (omega arith) (omega arith))

and_fuel :
    (a b : ℕ)
    → digits (λ y. 0) min a (suc a / 2) (b / 2)
      ≡ digits (λ y. 0) min (suc a / 2) (suc a / 2) (b / 2)
and_fuel a b =
    let half = suc a / 2 in fuel_enough (λ y. 0) min a half half (b / 2) (omega arith) (omega arith)

or_fuel :
    (a b : ℕ)
    → digits (λ y. y) max a (suc a / 2) (b / 2)
      ≡ digits (λ y. y) max (suc a / 2) (suc a / 2) (b / 2)
or_fuel a b =
    let half = suc a / 2 in fuel_enough (λ y. y) max a half half (b / 2) (omega arith) (omega arith)

-- The lowest digit of a conjunction, and what is above it.
pub bit_and_digit :
    (v mask : ℕ) → bit_and v mask ≡ min (v % 2) (mask % 2) + 2 * bit_and (v / 2) (mask / 2)
bit_and_digit zero mask = simp bit_and-bitwise (omega arith)
bit_and_digit (suc v) mask = simp bit_and-bitwise (omega (arith, and_fuel v mask))

pub bit_or_digit :
    (v mask : ℕ) → bit_or v mask ≡ max (v % 2) (mask % 2) + 2 * bit_or (v / 2) (mask / 2)
bit_or_digit zero mask = simp bit_or-bitwise (omega arith)
bit_or_digit (suc v) mask = simp bit_or-bitwise (omega (arith, or_fuel v mask))

bit_and-zero_below : (n a : ℕ) → a ≤ n → bit_and a 0 ≡ 0
bit_and-zero_below n zero h = refl
bit_and-zero_below zero (suc a) h = absurd (omega arith)
bit_and-zero_below (suc n) (suc a) h =
    omega (arith, bit_and_digit (suc a) 0, bit_and-zero_below n (suc a / 2) (omega arith))

pub bit_and-zero : (a : ℕ) → bit_and a 0 ≡ 0
bit_and-zero a = bit_and-zero_below a a (omega arith)

bit_or-zero_below : (n a : ℕ) → a ≤ n → bit_or a 0 ≡ a
bit_or-zero_below n zero h = refl
bit_or-zero_below zero (suc a) h = absurd (omega arith)
bit_or-zero_below (suc n) (suc a) h =
    omega (arith, bit_or_digit (suc a) 0, bit_or-zero_below n (suc a / 2) (omega arith))

pub bit_or-zero : (a : ℕ) → bit_or a 0 ≡ a
bit_or-zero a = bit_or-zero_below a a (omega arith)

-- One digit more doubles a shifted number.
shift_more : (high width : ℕ) → 2 * (high * 2 ^ width) ≡ high * 2 ^ suc width
shift_more high width =
    let p = pow-suc 2 width in omega (arith, ap (λ (shifted : ℕ). high * shifted) p)

bit_and_low_fields : (k high low : ℕ) → low < 2 ^ k → bit_and (high * 2 ^ k + low) (2 ^ k - 1) ≡ low
bit_and_low_fields zero q r fits = rw bit_and-zero (omega arith)
bit_and_low_fields (suc k) q r fits = ground (
  arith,
  bit_and_digit (q * 2 ^ suc k + r) (2 ^ suc k - 1),
  shift_more q k,
  pow-suc 2 k,
  bit_and_low_fields k q (r / 2) (omega arith),
)

-- A mask of `k` low bits takes the remainder by `2 ^ k`.
pub bit_and_low : (k a : ℕ) → bit_and a (2 ^ k - 1) ≡ a % 2 ^ k
bit_and_low k a = ground (arith, one-le-pow k 2, bit_and_low_fields k (a / 2 ^ k) (a % 2 ^ k))

bit_and_high_fields :
    (k q r b : ℕ) → r < 2 ^ k → bit_and (q * 2 ^ k + r) (b * 2 ^ k) ≡ bit_and q b * 2 ^ k
bit_and_high_fields zero q r b fits = ground arith
bit_and_high_fields (suc k) q r b fits = ground (
  arith,
  bit_and_digit (q * 2 ^ suc k + r) (b * 2 ^ suc k),
  shift_more q k,
  shift_more b k,
  shift_more (bit_and q b) k,
  pow-suc 2 k,
  bit_and_high_fields k q (r / 2) b (omega arith),
)

-- A mask whose `k` low bits are clear acts on the bits above them.
pub bit_and_high : (k a b : ℕ) → bit_and a (b * 2 ^ k) ≡ bit_and (a / 2 ^ k) b * 2 ^ k
bit_and_high k a b = ground (arith, one-le-pow k 2, bit_and_high_fields k (a / 2 ^ k) (a % 2 ^ k) b)

-- `(q << k) | r` is a sum where `r` has `k` bits.
pub bit_or_sum : (k q r : ℕ) → r < 2 ^ k → bit_or (q * 2 ^ k) r ≡ q * 2 ^ k + r
bit_or_sum zero q r fits = ground (arith, bit_or-zero q)
bit_or_sum (suc k) q r fits =
    ground
      (arith, bit_or_digit (q * 2 ^ suc k) r, shift_more q k, bit_or_sum k q (r / 2) (omega arith))
