-- ===== src/Base/Words.antt =====
-- Machine words: `size_t`, `off_t` and `u32_t` hold 32 bits, `u8_t` holds 8.
use Prim.Native.Nat.{ℕ, ◌+◌, ◌-◌, ◌*◌, ◌%◌, ◌^◌, ◌≤◌, ◌<◌, bit_and}
use mathlib.Core.Path.{◌≡◌}
use native.Mathlib.Omega.{arith}
use native.Mathlib.Nat.{mul-le-mul_right}
use mathlib.Core.List.{List}
use mathlib.Core.Bool.{Bool}
use zepboot.Base.Tests.{◌==◌}
use zepboot.Base.Lists.{get_or}

abbrev pub u8 : ℕ → ℕ
u8 n = n % 2 ^ 8

abbrev pub u32 : ℕ → ℕ
u32 n = n % 2 ^ 32

abbrev pub add32 : ℕ → ℕ → ℕ
add32 a b = (a + b) % 2 ^ 32

abbrev pub sub32 : ℕ → ℕ → ℕ
sub32 a b = (a + 2 ^ 32 - b) % 2 ^ 32

abbrev pub mul32 : ℕ → ℕ → ℕ
mul32 a b = (a * b) % 2 ^ 32

-- `~(w - 1)` in 32 bits.
abbrev pub not_below : ℕ → ℕ
not_below w = (2 ^ 32 - w) % 2 ^ 32

-- The byte at an index of an array, and the little-endian words at it.
abbrev pub byte_at : List ℕ → ℕ → ℕ
byte_at bs i = get_or bs i 0

abbrev pub le16 : List ℕ → ℕ → ℕ
le16 bs i = byte_at bs i + 2 ^ 8 * byte_at bs (i + 1)

abbrev pub le32 : List ℕ → ℕ → ℕ
le32 bs i =
    byte_at bs i
    + 2 ^ 8 * byte_at bs (i + 1)
    + 2 ^ 16 * byte_at bs (i + 2)
    + 2 ^ 24 * byte_at bs (i + 3)

-- `flags & mask` as a condition.
abbrev pub has_bits : ℕ → ℕ → Bool
has_bits flags mask = elim (bit_and flags mask == 0) [
  | Bool.true ↦ Bool.false
  | Bool.false ↦ Bool.true
]

-- Products of 32 bits that do not leave the word.
pub mul_small : (k s : ℕ) → k ≤ 255 → s ≤ 2 ^ 24 → k * s < 2 ^ 32
mul_small k s h h' = let r : k * s ≤ 255 * s = mul-le-mul_right s h in omega arith

pub mul32-small : (k s : ℕ) → k ≤ 255 → s ≤ 2 ^ 24 → mul32 k s ≡ k * s
mul32-small k s h h' = let r : k * s < 2 ^ 32 = mul_small k s h h' in omega arith
