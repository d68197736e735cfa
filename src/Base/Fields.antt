-- ===== src/Base/Fields.antt =====
-- `|` of fields that do not overlap, as a sum.
use Prim.Native.Nat.{ℕ, zero, suc, ◌+◌, ◌*◌, ◌/◌, ◌%◌, ◌^◌, ◌≤◌, ◌<◌, bit_or, bit_or-bitwise, max}
use mathlib.Core.Path.{◌≡◌, ap}
use native.Mathlib.Nat.{pow-suc}
use native.Mathlib.Omega.{arith}
use zepboot.Base.Bits.{digits-halves}

bit_or-zero : (y : ℕ) → bit_or 0 y ≡ y
bit_or-zero y = bit_or-bitwise 0 y

-- The lowest digit of `x | y`, and the rest of them.
bit_or-halves : (x y : ℕ) → bit_or x y ≡ max (x % 2) (y % 2) + 2 * bit_or (x / 2) (y / 2)
bit_or-halves zero y = omega (arith, bit_or-zero y, bit_or-zero (y / 2))
bit_or-halves (suc x) y = omega (
  arith,
  bit_or-bitwise (suc x) y,
  bit_or-bitwise (suc x / 2) (y / 2),
  digits-halves (λ b. b) max x y,
)

bit_or-nothing : (fuel x : ℕ) → x ≤ fuel → bit_or x 0 ≡ x
bit_or-nothing fuel zero h = bit_or-zero 0
bit_or-nothing zero (suc x) h = absurd (omega arith)
bit_or-nothing (suc fuel) (suc x) h =
    omega (arith, bit_or-halves (suc x) 0, bit_or-nothing fuel (suc x / 2) (omega arith))

-- A field above the lowest `k` bits, and a number of at most `k` bits.
pub bit_or-above : (k x y : ℕ) → y < 2 ^ k → bit_or (x * 2 ^ k) y ≡ x * 2 ^ k + y
bit_or-above zero x y p =
    let e : y ≡ 0 = omega arith in
    let e' : x * 2 ^ 0 ≡ x = omega arith in
    rw (e, e') (omega (arith, bit_or-nothing x x (omega arith)))
bit_or-above (suc k) x y p =
    let twice : x * 2 ^ suc k ≡ 2 * (x * 2 ^ k) = rw (pow-suc 2 k) (grind arith) in
    let half : x * 2 ^ suc k / 2 ≡ x * 2 ^ k = omega arith in
    omega (
      arith,
      bit_or-halves (x * 2 ^ suc k) y,
      ap (λ h. bit_or h (y / 2)) half,
      bit_or-above k x (y / 2) (omega (arith, pow-suc 2 k)),
    )

-- The lowest bit set.
pub bit_or-one : (x : ℕ) → bit_or x 1 ≡ 1 + 2 * (x / 2)
bit_or-one x = omega (arith, bit_or-halves x 1, bit_or-nothing (x / 2) (x / 2) (omega arith))
