-- ===== src/Aes/Laws.antt =====
-- Consequences of the key stream: encrypting twice gives the buffer back, and a buffer may be
-- handled in pieces of whole blocks, the counter carried on from piece to piece.
use zepboot.Base.{
  ℕ, zero, suc, ◌+◌, ◌-◌, ◌/◌, ◌%◌, ◌^◌, ◌<◌, ◌≡◌, ◌∙◌, ap, ap₂, sym, inl, inr, arith, List, ◌++◌,
  length, byte_at, bit_xor, get_or_ext, length-append, get_or-append_left, get_or-append_right,
  Bool-cases, ltb,
}
use mathlib.Core.Path.{subst}
use zepboot.Base.Bits.{bit_xor-twice}
use zepboot.Platform.Laws.{IsBytes}
use zepboot.Aes.{Cipher, Crypt, zb_aes_ctr_mode, increment, aes_block_size}
use zepboot.Aes.Stream.{Encrypts, IsStream, counter, key_stream, zb_aes_ctr_mode-IsStream}

pub counter-counter : (m n : ℕ) (ctr : List ℕ) → counter m (counter n ctr) ≡ counter (m + n) ctr
counter-counter zero n ctr = ap (λ (k : ℕ). counter k ctr) (omega arith)
counter-counter (suc m) n ctr =
    let e : suc m + n ≡ suc (m + n) = omega arith in
    rw e (ap (increment aes_block_size) (counter-counter m n ctr))

module _ (cipher : Cipher) (key : List ℕ) (enc : List ℕ → List ℕ)
    (encrypts : Encrypts cipher key enc) where
  -- zb_aes_ctr_mode on its own output with the same counter gives the buffer back: the same
  -- call encrypts and decrypts.
  pub zb_aes_ctr_mode-twice :
      (buf ctr : List ℕ)
      → IsBytes buf
      → ((block : List ℕ) (i : ℕ) → byte_at (enc block) i < 2 ^ 8)
      → (zb_aes_ctr_mode cipher key (zb_aes_ctr_mode cipher key buf ctr).out ctr).out ≡ buf
  zb_aes_ctr_mode-twice buf ctr bytes enc-lt =
      let there = zb_aes_ctr_mode-IsStream cipher key enc encrypts buf ctr in
      let back =
        zb_aes_ctr_mode-IsStream cipher key enc encrypts (zb_aes_ctr_mode cipher key buf ctr).out
          ctr in
      get_or_ext 0 _ _ (back.same_length ∙ there.same_length) (λ i p.
        let inside : i < length buf = omega (arith, back.same_length, there.same_length) in
        back.adds i (omega (arith, there.same_length))
        ∙ ap (λ (b : ℕ). bit_xor b (key_stream enc ctr (0 + i))) (there.adds i inside)
        ∙ (bit_xor-twice 8 (byte_at buf i) (key_stream enc ctr (0 + i)) (bytes i inside)
            (enc-lt _ _)).1)

  module _ (front back ctr : List ℕ) (whole_blocks : length front % aes_block_size ≡ 0) where
    abbrev first : Crypt
    first = zb_aes_ctr_mode cipher key front ctr

    abbrev second : Crypt
    second = zb_aes_ctr_mode cipher key back first.nonce

    abbrev both : Crypt
    both = zb_aes_ctr_mode cipher key (front ++ back) ctr

    in_first : IsStream enc ctr 0 front first
    in_first = zb_aes_ctr_mode-IsStream cipher key enc encrypts front ctr

    in_second : IsStream enc first.nonce 0 back second
    in_second = zb_aes_ctr_mode-IsStream cipher key enc encrypts back first.nonce

    in_both : IsStream enc ctr 0 (front ++ back) both
    in_both = zb_aes_ctr_mode-IsStream cipher key enc encrypts (front ++ back) ctr

    nonce_between : first.nonce ≡ counter (length front / 16) ctr
    nonce_between = in_first.counts ∙ ap (λ (n : ℕ). counter n ctr) (omega arith)

    nonce_after : both.nonce ≡ second.nonce
    nonce_after =
        let l = length-append front back in
        let n = (0 + length back + 15) / 16 in
        let e : (0 + length (front ++ back) + 15) / 16 ≡ n + length front / 16 = omega (arith, l) in
        in_both.counts
        ∙ ap (λ (k : ℕ). counter k ctr) e
        ∙ sym (
            in_second.counts
            ∙ ap (counter n) nonce_between
            ∙ counter-counter n (length front / 16) ctr)

    key_stream-back : (j : ℕ) → key_stream enc ctr (length front + j) ≡ key_stream enc first.nonce j
    key_stream-back j =
        let e : (length front + j) / 16 ≡ j / 16 + length front / 16 = omega arith in
        let e' : (length front + j) % 16 ≡ j % 16 = omega arith in
        ap₂ (λ (n : ℕ) (i : ℕ). byte_at (enc (counter n ctr)) i) e e'
        ∙ sym (
            ap (λ (c : List ℕ). byte_at (enc c) (j % 16))
              (ap (counter (j / 16)) nonce_between
                ∙ counter-counter (j / 16) (length front / 16) ctr))

    same_front :
        (i : ℕ) → i < length front → byte_at both.out i ≡ byte_at (first.out ++ second.out) i
    same_front i p =
        in_both.adds i (omega (arith, length-append front back))
        ∙ ap (λ (b : ℕ). bit_xor b (key_stream enc ctr (0 + i)))
            (get_or-append_left front back i 0 p)
        ∙ sym (
            get_or-append_left first.out second.out i 0 (omega (arith, in_first.same_length))
            ∙ in_first.adds i p)

    same_back :
        (j : ℕ)
        → j < length back
        → byte_at both.out (length front + j) ≡ byte_at (first.out ++ second.out) (length front + j)
    same_back j p =
        in_both.adds (length front + j) (omega (arith, length-append front back))
        ∙ ap₂ bit_xor (get_or-append_right front back j 0) (
            ap (key_stream enc ctr) (omega arith)
            ∙ key_stream-back j
            ∙ ap (key_stream enc first.nonce) (omega arith))
        ∙ sym (
            ap (λ (n : ℕ). byte_at (first.out ++ second.out) (n + j)) (sym in_first.same_length)
            ∙ get_or-append_right first.out second.out j 0
            ∙ in_second.adds j p)

    same_out : both.out ≡ first.out ++ second.out
    same_out =
        let l : length both.out ≡ length (first.out ++ second.out) = omega (
          arith,
          in_both.same_length,
          in_first.same_length,
          in_second.same_length,
          length-append front back,
          length-append first.out second.out,
        ) in
        get_or_ext 0 _ _ l (λ i p. elim (Bool-cases (ltb i (length front))) [
          | inl f ↦ same_front i (ground arith)
          | inr f ↦
              let e : length front + (i - length front) ≡ i = ground arith in
              subst (λ k. byte_at both.out k ≡ byte_at (first.out ++ second.out) k) e
                (same_back (i - length front)
                  (ground (arith, in_both.same_length, length-append front back)))
        ])

  -- If the first piece is of whole blocks, then zb_aes_ctr_mode on two pieces in turn, the second
  -- with the counter that the first leaves, does what one call does on both.
  pub zb_aes_ctr_mode-append :
      (front back ctr : List ℕ)
      → length front % aes_block_size ≡ 0
      → let r = zb_aes_ctr_mode cipher key front ctr in
        let r' = zb_aes_ctr_mode cipher key back r.nonce in
        let whole = zb_aes_ctr_mode cipher key (front ++ back) ctr in
        (whole.out ≡ r.out ++ r'.out) × (whole.nonce ≡ r'.nonce) × (whole.rc ≡ r'.rc)
  zb_aes_ctr_mode-append front back ctr whole_blocks = (
    same_out front back ctr whole_blocks,
    nonce_after front back ctr whole_blocks,
    (in_both front back ctr whole_blocks).returns
        ∙ sym (in_second front back ctr whole_blocks).returns,
  )
