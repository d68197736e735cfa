-- ===== src/Aes/Counter.antt =====
-- The nonce counts as a big-endian number, modulo 256 to the length of the block.
use zepboot.Base.{
  ℕ, zero, suc, ◌+◌, ◌*◌, ◌%◌, ◌^◌, ◌≤◌, ◌<◌, ◌≡◌, ◌≢◌, ◌∙◌, refl, ap, sym, inl, inr, arith, List,
  [], ◌∷◌, length, ◌==◌, byte_at, Bool-cases, u8,
}
use mathlib.Core.Path.{subst}
use native.Mathlib.Nat.{pow-suc}
use zepboot.Platform.Laws.{IsBytes}
use zepboot.Aes.{increment, set, aes_block_size}

-- The number that the first `n` bytes are the digits of.
abbrev pub big_endian : ℕ → List ℕ → ℕ
big_endian zero xs = 0
big_endian (suc n) xs = big_endian n xs * 256 + byte_at xs n

byte_at-set_self : (xs : List ℕ) (i v : ℕ) → i < length xs → byte_at (set xs i v) i ≡ v
byte_at-set_self [] i v h = absurd (omega arith)
byte_at-set_self (x ∷ xs) zero v h = refl
byte_at-set_self (x ∷ xs) (suc i) v h = byte_at-set_self xs i v (omega arith)

byte_at-set_ne : (xs : List ℕ) (i j v : ℕ) → i ≢ j → byte_at (set xs i v) j ≡ byte_at xs j
byte_at-set_ne [] i j v h = refl
byte_at-set_ne (x ∷ xs) zero zero v h = absurd (h refl)
byte_at-set_ne (x ∷ xs) zero (suc j) v h = refl
byte_at-set_ne (x ∷ xs) (suc i) zero v h = refl
byte_at-set_ne (x ∷ xs) (suc i) (suc j) v h = byte_at-set_ne xs i j v (omega arith)

length-set : (xs : List ℕ) (i v : ℕ) → length (set xs i v) ≡ length xs
length-set [] i v = refl
length-set (x ∷ xs) zero v = refl
length-set (x ∷ xs) (suc i) v = ap suc (length-set xs i v)

big_endian_congr :
    (n : ℕ) (xs ys : List ℕ)
    → ((i : ℕ) → i < n → byte_at xs i ≡ byte_at ys i)
    → big_endian n xs ≡ big_endian n ys
big_endian_congr zero xs ys h = refl
big_endian_congr (suc n) xs ys h =
    omega (arith, h n, big_endian_congr n xs ys (λ i p. h i (omega arith)))

AreDigits : ℕ → List ℕ → Type 0
AreDigits n xs = (i : ℕ) → i < n → byte_at xs i < 256

big_endian-lt : (n : ℕ) (xs : List ℕ) → AreDigits n xs → big_endian n xs < 256 ^ n
unfolding AreDigits
big_endian-lt zero xs h = omega arith
big_endian-lt (suc n) xs h =
    omega (arith, pow-suc 256 n, h n, big_endian-lt n xs (λ i p. h i (omega arith)))

-- One more, or 0 at the end of the range.
abbrev Counts : ℕ → ℕ → ℕ → Type 0
Counts v p v' = (v + 1 < p → v' ≡ v + 1) × (v + 1 ≡ p → v' ≡ 0)

-- The first `n` digits after a digit behind them is set to 0, and after it is raised.
module _ (n : ℕ) (xs : List ℕ) (inside : suc n ≤ length xs) (digits : AreDigits (suc n) xs) where
  abbrev raised : ℕ → List ℕ
  raised v = set xs n v

  big_endian-raised : (v : ℕ) → big_endian n (raised v) ≡ big_endian n xs
  big_endian-raised v = big_endian_congr n _ _ (λ i p. byte_at-set_ne xs n i v (omega arith))

  value-lt : big_endian n xs < 256 ^ n
  unfolding AreDigits
  value-lt = big_endian-lt n xs (λ i p. digits i (omega arith))

  -- The last digit is not 0xff, or the carry goes on.
  count_digit :
      byte_at xs n + 1 < 256
      → Counts
          (big_endian (suc n) xs)
          (256 ^ suc n)
          (big_endian (suc n) (raised (byte_at xs n + 1)))
  count_digit h = omega (
    arith,
    pow-suc 256 n,
    value-lt,
    big_endian-raised (byte_at xs n + 1),
    byte_at-set_self xs n (byte_at xs n + 1) inside,
  )

  count_carry :
      (ys : List ℕ)
      → byte_at xs n ≡ 255
      → byte_at ys n ≡ 0
      → Counts (big_endian n xs) (256 ^ n) (big_endian n ys)
      → Counts (big_endian (suc n) xs) (256 ^ suc n) (big_endian (suc n) ys)
  count_carry ys top zeroed c = omega (arith, pow-suc 256 n, value-lt, c.0, c.1, top, zeroed)

increment-Counts :
    (n : ℕ) (xs : List ℕ)
    → n ≤ length xs
    → AreDigits n xs
    → Counts (big_endian n xs) (256 ^ n) (big_endian n (increment n xs))
      × ((i : ℕ) → n ≤ i → byte_at (increment n xs) i ≡ byte_at xs i)
unfolding increment AreDigits
increment-Counts zero xs h d = (omega arith, λ i p. refl)
increment-Counts (suc n) xs h d = elim (Bool-cases (u8 (byte_at xs n + 1) == 0)) [
  | inl over ↦
      let zeroed = set xs n (u8 (byte_at xs n + 1)) in
      let wraps : u8 (byte_at xs n + 1) ≡ 0 = ground arith in
      let top : byte_at xs n ≡ 255 = omega (arith, d n (omega arith)) in
      let rest =
        increment-Counts n zeroed (omega (arith, length-set xs n (u8 (byte_at xs n + 1)))) (λ i p.
          rw (byte_at-set_ne xs n i (u8 (byte_at xs n + 1)) (omega arith)) (d i (omega arith))) in
      rw (over, increment)
        (
          count_carry n xs h d (increment n zeroed) top
              (rest.1 n (omega arith) ∙ byte_at-set_self xs n _ h ∙ wraps)
              (subst (λ v. Counts v (256 ^ n) (big_endian n (increment n zeroed)))
                (big_endian-raised n xs h d (u8 (byte_at xs n + 1))) rest.0),
          λ i p. rest.1 i (omega arith) ∙ byte_at-set_ne xs n i _ (omega arith),
        )
  | inr fits ↦
      let small : byte_at xs n + 1 < 256 = ground (arith, d n (omega arith)) in
      let e : u8 (byte_at xs n + 1) ≡ byte_at xs n + 1 = omega arith in
      rw (fits, increment)
        (
          subst
              (λ v. Counts (big_endian (suc n) xs) (256 ^ suc n) (big_endian (suc n) (set xs n v)))
              (sym e) (count_digit n xs h d small),
          λ i p. byte_at-set_ne xs n i _ (omega arith),
        )
]

Counts-mod : (v v' : ℕ) → v < 2 ^ 128 → Counts v (2 ^ 128) v' → v' ≡ (v + 1) % 2 ^ 128
Counts-mod v v' h c = ground (arith, c)

-- The increment of the nonce adds one to the 128-bit number that its 16 bytes spell, the highest
-- byte first, modulo 2 ^ 128, and keeps its length.
pub increment-big_endian :
    (nonce : List ℕ)
    → length nonce ≡ aes_block_size
    → IsBytes nonce
    → big_endian aes_block_size (increment aes_block_size nonce)
      ≡ (big_endian aes_block_size nonce + 1) % 2 ^ 128
unfolding AreDigits
increment-big_endian nonce l b =
    let d : AreDigits aes_block_size nonce = λ i p. b i (omega arith) in
    let v = increment-Counts aes_block_size nonce (omega arith) d in
    Counts-mod _ _ (big_endian-lt aes_block_size nonce d) v.0
