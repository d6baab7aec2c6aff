-- ===== src/Base/Int64.antt =====
-- Go's `int` and `time.Duration`, 64 bits wide: a number is its two's complement, below 2 ^ 64.
use Prim.Native.Nat.{ℕ, ◌+◌, ◌-◌, ◌*◌, ◌/◌, ◌%◌, ◌^◌, ◌≤◌, ◌<◌}
use mathlib.Core.Path.{◌≡◌, refl}
use mathlib.Core.Bool.{Bool, true, false, xor}
use native.Mathlib.Omega.{arith}
use sonicpeer.Base.Tests.{leb, if◌then◌else◌}

abbrev pub is_negative : ℕ → Bool
is_negative a = leb (2 ^ 63) a

abbrev pub magnitude : ℕ → ℕ
magnitude a = if is_negative a then 2 ^ 64 - a else a

-- `a * b`
unfoldable pub mul : ℕ → ℕ → ℕ
mul a b = a * b % 2 ^ 64

-- `a / b`, which rounds towards 0
unfoldable pub quotient : ℕ → ℕ → ℕ
quotient a b =
    let q = magnitude a / magnitude b in
    if xor (is_negative a) (is_negative b) then (2 ^ 64 - q) % 2 ^ 64 else q

-- `a <= b`
unfoldable pub le : ℕ → ℕ → Bool
le a b = leb ((a + 2 ^ 63) % 2 ^ 64) ((b + 2 ^ 63) % 2 ^ 64)

pub mul_small : (a b : ℕ) → a * b < 2 ^ 63 → mul a b ≡ a * b
unfolding mul
mul_small a b h = omega arith

pub mul_fits : (a b : ℕ) → a * b < 2 ^ 64 → mul a b ≡ a * b
unfolding mul
mul_fits a b h = omega arith

pub quotient_small : (a b : ℕ) → a < 2 ^ 63 → b < 2 ^ 63 → quotient a b ≡ a / b
unfolding quotient xor
quotient_small a b h k =
    let na : is_negative a ≡ false = ground (arith, h) in
    let nb : is_negative b ≡ false = ground (arith, k) in rw (na, nb) refl

pub le_small : (a b : ℕ) → a < 2 ^ 63 → b < 2 ^ 63 → le a b ≡ leb a b
unfolding le
le_small a b h k = ground (arith, h, k)

pub le_negative : (a b : ℕ) → 2 ^ 63 ≤ a → a < 2 ^ 64 → b < 2 ^ 63 → le a b ≡ true
unfolding le
le_negative a b h k l = ground (arith, h, k, l)

-- A negative number divided is at most any number that is not negative.
pub le-quotient_negative :
    (a t : ℕ) → 2 ^ 63 ≤ a → a < 2 ^ 64 → t < 2 ^ 63 → le (quotient a 128) t ≡ true
unfolding quotient le xor
le-quotient_negative a t h k l =
    let n : is_negative a ≡ true = ground (arith, h) in rw n (ground (arith, h, k, l))
