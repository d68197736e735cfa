-- ===== src/Aes/Stream.antt =====
-- zb_aes_ctr_mode adds the key stream: the ciphers of the counter, of the counter plus one, and
-- so on.
use zepboot.Base.{
  ℕ, zero, suc, ◌+◌, ◌/◌, ◌%◌, ◌<◌, ◌≡◌, ◌≢◌, ◌∙◌, refl, ap, some, arith, List, [], ◌∷◌, length,
  byte_at, bit_xor,
}
use zepboot.Base.Bits.{bit_and-low_four}
use native.Mathlib.Decide.{ℕ_discrete}
use zepboot.Platform.{ok}
use zepboot.Aes.{Cipher, Crypt, emit, increment, aes_block_size, ctr_loop, zb_aes_ctr_mode}

-- The counter after `n` increments.
abbrev pub counter : ℕ → List ℕ → List ℕ
counter zero ctr = ctr
counter (suc n) ctr = increment aes_block_size (counter n ctr)

-- aes.h: under this key the cipher encrypts every block.
abbrev pub Encrypts : Cipher → List ℕ → (List ℕ → List ℕ) → Type 0
Encrypts cipher key enc = (block : List ℕ) → cipher key block ≡ some (enc block)

-- The byte of the key stream at an index.
abbrev pub key_stream : (List ℕ → List ℕ) → List ℕ → ℕ → ℕ
key_stream enc ctr i = byte_at (enc (counter (i / 16) ctr)) (i % 16)

-- `r` is a normal return that added the key stream from index `i` on to `bs`.
pub record IsStream (enc : List ℕ → List ℕ) (ctr : List ℕ) (i : ℕ) (bs : List ℕ) (r : Crypt)
    : Type 0 where
  pub returns : r.rc ≡ ok
  pub same_length : length r.out ≡ length bs
  pub adds :
      (j : ℕ)
      → j < length bs
      → byte_at r.out j ≡ bit_xor (byte_at bs j) (key_stream enc ctr (i + j))
  pub counts : r.nonce ≡ counter ((i + length bs + 15) / 16) ctr

module _ (cipher : Cipher) (key : List ℕ) (enc : List ℕ → List ℕ)
    (encrypts : Encrypts cipher key enc) where
  IsStream-cons :
      (ctr : List ℕ) (i b : ℕ) (bs : List ℕ) {r : Crypt} (k : ℕ)
      → k ≡ key_stream enc ctr i
      → IsStream enc ctr (i + 1) bs r
      → IsStream enc ctr i (b ∷ bs) (record r { out = bit_xor b k ∷ r.out })
  IsStream-cons ctr i b bs {r} k e h = record {
    returns = h.returns;
    same_length = ap suc h.same_length;
    adds = adds;
    counts = h.counts ∙ ap (λ (m : ℕ). counter (m / 16) ctr) (omega arith);
  }
    where
      adds :
          (j : ℕ)
          → j < suc (length bs)
          → byte_at (bit_xor b k ∷ r.out) j
            ≡ bit_xor (byte_at (b ∷ bs) j) (key_stream enc ctr (i + j))
      adds zero p = ap (bit_xor b) (e ∙ ap (key_stream enc ctr) (omega arith))
      adds (suc j) p =
          h.adds j (omega arith)
          ∙ ap (λ (m : ℕ). bit_xor (byte_at bs j) (key_stream enc ctr m)) (omega arith)

  ctr_loop-starts :
      (b : ℕ) (bs : List ℕ) (i : ℕ) (buffer nonce : List ℕ)
      → i % 16 ≡ 0
      → ctr_loop cipher key (b ∷ bs) i buffer nonce
        ≡ emit cipher key
            (bit_xor b (byte_at (enc nonce) (i % 16)))
            (ctr_loop cipher key bs (i + 1) (enc nonce) (increment aes_block_size nonce))
  unfolding ctr_loop
  ctr_loop-starts b bs i buffer nonce h = ground (arith, bit_and-low_four i, encrypts nonce)

  ctr_loop-goes_on :
      (b : ℕ) (bs : List ℕ) (i : ℕ) (buffer nonce : List ℕ)
      → i % 16 ≢ 0
      → ctr_loop cipher key (b ∷ bs) i buffer nonce
        ≡ emit cipher key
            (bit_xor b (byte_at buffer (i % 16)))
            (ctr_loop cipher key bs (i + 1) buffer nonce)
  unfolding ctr_loop
  ctr_loop-goes_on b bs i buffer nonce h = ground (arith, bit_and-low_four i)

  ctr_loop-IsStream :
      (ctr : List ℕ) (bs : List ℕ) (i : ℕ) (buffer : List ℕ)
      → (i % 16 ≢ 0 → buffer ≡ enc (counter (i / 16) ctr))
      → IsStream enc ctr i bs (ctr_loop cipher key bs i buffer (counter ((i + 15) / 16) ctr))
  unfolding ctr_loop
  ctr_loop-IsStream ctr [] i buffer filled = record {
    returns = refl;
    same_length = refl;
    adds = λ j p. absurd (omega arith);
    counts = ap (λ (m : ℕ). counter (m / 16) ctr) (omega arith);
  }
  ctr_loop-IsStream ctr (b ∷ bs) i buffer filled = elim (ℕ_discrete (i % 16) 0) [
    | yes starts ↦
        let nonce = counter ((i + 15) / 16) ctr in
        let same : nonce ≡ counter (i / 16) ctr = ap (λ (n : ℕ). counter n ctr) (omega arith) in
        let later : increment aes_block_size nonce ≡ counter ((i + 1 + 15) / 16) ctr =
          let e : suc ((i + 15) / 16) ≡ (i + 1 + 15) / 16 = omega arith in
          ap (λ (n : ℕ). counter n ctr) e in
        rw (ctr_loop-starts b bs i buffer nonce starts, later)
          (IsStream-cons ctr i b bs _ (ap (λ (n : List ℕ). byte_at (enc n) (i % 16)) same) (
            ctr_loop-IsStream ctr bs (i + 1) (enc nonce)
              (λ p. ap enc (ap (λ (n : ℕ). counter n ctr) (omega arith)))))
    | no goes_on ↦
        let later : counter ((i + 15) / 16) ctr ≡ counter ((i + 1 + 15) / 16) ctr =
          ap (λ (n : ℕ). counter n ctr) (omega arith) in
        rw (ctr_loop-goes_on b bs i buffer _ goes_on, later)
          (IsStream-cons ctr i b bs _ (ap (λ (n : List ℕ). byte_at n (i % 16)) (filled goes_on)) (
            ctr_loop-IsStream ctr bs (i + 1) buffer
              (λ p. filled goes_on ∙ ap enc (ap (λ (n : ℕ). counter n ctr) (omega arith)))))
  ]

  -- zb_aes_ctr_mode with a working cipher returns 0, adds the key stream of the counter to each
  -- byte of the buffer, and leaves the counter as many blocks further as the buffer has begun.
  pub zb_aes_ctr_mode-IsStream :
      (buf ctr : List ℕ) → IsStream enc ctr 0 buf (zb_aes_ctr_mode cipher key buf ctr)
  unfolding zb_aes_ctr_mode
  zb_aes_ctr_mode-IsStream buf ctr =
      let h = ctr_loop-IsStream ctr buf 0 [] (λ p. absurd (p refl)) in
      rw (h.returns, zb_aes_ctr_mode) h
