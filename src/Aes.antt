-- ===== src/Aes.antt =====
-- AES in counter mode: zepboot/src/zb_aes.c. TinyCrypt's cipher is a parameter.
pub mod Counter
pub mod Stream
pub mod Laws
mod Tests
use zepboot.Base.{
  ℕ, zero, suc, ◌+◌, ◌%◌, ◌^◌, Bool, true, false, Option, none, some, List, [], ◌∷◌, ◌==◌, u8,
  byte_at, bit_and, bit_xor, replicate,
}
use zepboot.Platform.{Rc, ok, efault}

abbrev pub aes_block_size : ℕ
aes_block_size = 16

-- aes.h: `tc_aes_encrypt` of a block under the schedule of a key, `none` where it fails.
abbrev pub Cipher : Type 0
Cipher = List ℕ → List ℕ → Option (List ℕ)

-- `xs[i] = v`
abbrev pub set : List ℕ → ℕ → ℕ → List ℕ
set [] i v = []
set (x ∷ xs) zero v = v ∷ xs
set (x ∷ xs) (suc i) v = x ∷ set xs i v

-- `for (j = ...; j > 0; --j) if (++nonce[j - 1] != 0) break;`
unfoldable pub increment : ℕ → List ℕ → List ℕ
increment zero nonce = nonce
increment (suc j) nonce =
    let digit = u8 (byte_at nonce j + 1) in
    let nonce' = set nonce j digit in
    elim (digit == 0) [ true ↦ increment j nonce' | false ↦ nonce' ]

-- What the loop over the bytes leaves: the code, the buffer and the nonce.
pub record Crypt : Type 0 where
  pub rc : Rc
  pub out : List ℕ
  pub nonce : List ℕ

module _ (cipher : Cipher) (key : List ℕ) where
  -- `*buf++ = u8 ^ buffer[blk_off]`, before what follows.
  abbrev pub emit : ℕ → Crypt → Crypt
  emit byte r = record r { out = byte ∷ r.out }

  -- The loop at index `i`, over the bytes that are left.
  ctr_loop : List ℕ → ℕ → (buffer nonce : List ℕ) → Crypt
  ctr_loop [] i buffer nonce = record { rc = ok; out = []; nonce = nonce }
  ctr_loop (b ∷ bs) i buffer nonce =
      let blk_off = bit_and i 15 in
      elim (blk_off == 0) [
        | true ↦ elim (cipher key nonce) [
          | none ↦ record { rc = efault; out = b ∷ bs; nonce = nonce }
          | some buffer' ↦
              emit (bit_xor b (byte_at buffer' blk_off))
                (ctr_loop bs (i + 1) buffer' (increment aes_block_size nonce))
        ]
        | false ↦ emit (bit_xor b (byte_at buffer blk_off)) (ctr_loop bs (i + 1) buffer nonce)
      ]

  -- The code, the buffer and the counter. `buffer` is not read before it is set.
  unfoldable pub zb_aes_ctr_mode : List ℕ → List ℕ → Crypt
  unfolding ctr_loop increment
  zb_aes_ctr_mode buf ctr =
      let r = ctr_loop buf 0 [] ctr in elim r.rc [ ok ↦ r | _ ↦ record r { nonce = ctr } ]
