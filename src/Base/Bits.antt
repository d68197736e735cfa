-- ===== src/Base/Bits.antt =====
-- `&` with a mask that clears the low bits, as arithmetic.
use Prim.Native.Nat.{
  ℕ, zero, suc, ◌+◌, ◌-◌, ◌*◌, ◌/◌, ◌%◌, ◌^◌, ◌≤◌, ◌<◌, min, bit_and, bit_xor, differ, digits,
  bitwise, bit_and-bitwise, bit_xor-bitwise,
}
use mathlib.Core.Path.{◌≡◌, refl, ap}
use native.Mathlib.Nat.{pow-suc, one-le-pow}
use native.Mathlib.Omega.{arith}

-- The recursion on digits that the bit operations stand for: fuel beyond the number is idle.
module _ (z : ℕ → ℕ) (f : ℕ → ℕ → ℕ) where
  digits-idle :
      (fuel extra x y : ℕ) → x ≤ fuel → digits z f (extra + fuel) x y ≡ digits z f fuel x y
  digits-idle zero zero zero y h = refl
  digits-idle zero (suc extra) zero y h = let e : suc extra + 0 ≡ suc extra = omega arith in rw e
  digits-idle zero extra (suc x) y h = elim h [ ]
  digits-idle (suc fuel) extra zero y h =
      let e : extra + suc fuel ≡ suc (extra + fuel) = omega arith in rw e
  digits-idle (suc fuel) extra (suc x) y h =
      let e : extra + suc fuel ≡ suc (extra + fuel) = omega arith in
      rw e (omega (arith, digits-idle fuel extra (suc x / 2) (y / 2) (omega arith)))

  -- The lowest digit, and the rest.
  pub digits-halves :
      (x y : ℕ)
      → bitwise z f (suc x) y ≡ f (suc x % 2) (y % 2) + 2 * bitwise z f (suc x / 2) (y / 2)
  digits-halves x y =
      let spare : x - suc x / 2 + suc x / 2 ≡ x = omega arith in
      omega (
        arith,
        ap (λ n. digits z f n (suc x / 2) (y / 2)) spare,
        digits-idle (suc x / 2) (x - suc x / 2) (suc x / 2) (y / 2) (omega arith),
      )

no_shared_digits : (y : ℕ) → bit_and 0 y ≡ 0
no_shared_digits y = bit_and-bitwise 0 y

-- The lowest digit of `x & y` and of `x ^ y`, and the rest of them.
bit_and-halves : (x y : ℕ) → bit_and x y ≡ min (x % 2) (y % 2) + 2 * bit_and (x / 2) (y / 2)
bit_and-halves zero y = omega (arith, no_shared_digits y, no_shared_digits (y / 2))
bit_and-halves (suc x) y = omega (
  arith,
  bit_and-bitwise (suc x) y,
  bit_and-bitwise (suc x / 2) (y / 2),
  digits-halves (λ _. 0) min x y,
)

differ-bits : (a b : ℕ) → a < 2 → b < 2 → differ a b ≡ (a + b) % 2
differ-bits zero b h p = omega arith
differ-bits (suc zero) zero h p = refl
differ-bits (suc zero) (suc zero) h p = refl
differ-bits (suc zero) (suc (suc b)) h p = absurd (omega arith)
differ-bits (suc (suc a)) b h p = absurd (omega arith)

bit_xor-halves : (x y : ℕ) → bit_xor x y ≡ (x % 2 + y % 2) % 2 + 2 * bit_xor (x / 2) (y / 2)
bit_xor-halves zero y = omega (arith, bit_xor-bitwise 0 y, bit_xor-bitwise 0 (y / 2))
bit_xor-halves (suc x) y = omega (
  arith,
  bit_xor-bitwise (suc x) y,
  bit_xor-bitwise (suc x / 2) (y / 2),
  digits-halves (λ b. b) differ x y,
  differ-bits (suc x % 2) (y % 2) (omega arith) (omega arith),
)

-- `^` of numbers below 2 ^ k stays below it, and undoes itself.
pub bit_xor-twice :
    (k x y : ℕ) → x < 2 ^ k → y < 2 ^ k → (bit_xor x y < 2 ^ k) × (bit_xor (bit_xor x y) y ≡ x)
bit_xor-twice zero x y h p =
    let e : x ≡ 0 = omega arith in let e' : y ≡ 0 = omega arith in rw (e, e') (omega arith, refl)
bit_xor-twice (suc k) x y h p =
    let rest =
      bit_xor-twice k (x / 2) (y / 2) (omega (arith, pow-suc 2 k)) (omega (arith, pow-suc 2 k)) in
    let half : bit_xor x y / 2 ≡ bit_xor (x / 2) (y / 2) = omega (arith, bit_xor-halves x y) in
    (
      omega (arith, pow-suc 2 k, rest, bit_xor-halves x y),
      omega (
        arith,
        rest,
        bit_xor-halves x y,
        bit_xor-halves (bit_xor x y) y,
        ap (λ t. bit_xor t (y / 2)) half,
      ),
    )

-- A mask of `k` ones leaves a number of at most `k` bits as it is.
bit_and-ones : (k a : ℕ) → a < 2 ^ k → bit_and a (2 ^ k - 1) ≡ a
bit_and-ones zero a h = let e : a ≡ 0 = omega arith in rw e (no_shared_digits (2 ^ 0 - 1))
bit_and-ones (suc k) a h =
    let half : (2 ^ suc k - 1) / 2 ≡ 2 ^ k - 1 = omega (arith, pow-suc 2 k, one-le-pow k 2) in
    omega (
      arith,
      pow-suc 2 k,
      one-le-pow k 2,
      bit_and-halves a (2 ^ suc k - 1),
      ap (bit_and (a / 2)) half,
      bit_and-ones k (a / 2) (omega (arith, pow-suc 2 k)),
    )

-- The masks of the write block sizes 1, 2, 4 and 8.
pub bit_and-mask_one : (a : ℕ) → a < 2 ^ 32 → bit_and a (2 ^ 32 - 1) ≡ a
bit_and-mask_one a h = bit_and-ones 32 a h

pub bit_and-mask_two : (a : ℕ) → a < 2 ^ 32 → bit_and a (2 ^ 32 - 2) ≡ a - a % 2
bit_and-mask_two a h =
    omega (arith, bit_and-halves a (2 ^ 32 - 2), bit_and-ones 31 (a / 2) (omega arith))

pub bit_and-mask_four : (a : ℕ) → a < 2 ^ 32 → bit_and a (2 ^ 32 - 4) ≡ a - a % 4
bit_and-mask_four a h = omega (
  arith,
  bit_and-halves a (2 ^ 32 - 4),
  bit_and-halves (a / 2) (2 ^ 31 - 2),
  bit_and-ones 30 (a / 2 / 2) (omega arith),
)

pub bit_and-mask_eight : (a : ℕ) → a < 2 ^ 32 → bit_and a (2 ^ 32 - 8) ≡ a - a % 8
bit_and-mask_eight a h = omega (
  arith,
  bit_and-halves a (2 ^ 32 - 8),
  bit_and-halves (a / 2) (2 ^ 31 - 4),
  bit_and-halves (a / 2 / 2) (2 ^ 30 - 2),
  bit_and-ones 29 (a / 2 / 2 / 2) (omega arith),
)

bit_and-no_mask : (fuel a : ℕ) → a ≤ fuel → bit_and a 0 ≡ 0
bit_and-no_mask fuel zero h = no_shared_digits 0
bit_and-no_mask zero (suc a) h = absurd (omega arith)
bit_and-no_mask (suc fuel) (suc a) h =
    omega (arith, bit_and-halves (suc a) 0, bit_and-no_mask fuel (suc a / 2) (omega arith))

-- The mask of the low four bits.
pub bit_and-low_four : (a : ℕ) → bit_and a 15 ≡ a % 16
bit_and-low_four a = omega (
  arith,
  bit_and-halves a 15,
  bit_and-halves (a / 2) 7,
  bit_and-halves (a / 2 / 2) 3,
  bit_and-halves (a / 2 / 2 / 2) 1,
  bit_and-no_mask (a / 2 / 2 / 2 / 2) (a / 2 / 2 / 2 / 2) (omega arith),
)

bit_and-le_right : (fuel x y : ℕ) → x ≤ fuel → bit_and x y ≤ y
bit_and-le_right fuel zero y h = omega (arith, no_shared_digits y)
bit_and-le_right zero (suc x) y h = absurd (omega arith)
bit_and-le_right (suc fuel) (suc x) y h =
    omega (arith, bit_and-halves (suc x) y, bit_and-le_right fuel (suc x / 2) (y / 2) (omega arith))

-- A masked number is at most the mask.
pub bit_and-le : (x y : ℕ) → bit_and x y ≤ y
bit_and-le x y = bit_and-le_right x x y (omega arith)
