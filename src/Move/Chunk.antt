-- ===== src/Move/Chunk.antt =====
-- One turn of the loop of zb_img_move (zepboot/src/zb_move.c): the bytes that it passes on, and the
-- counter behind them.
use zepboot.Base.{
  ℕ, zero, suc, ◌+◌, ◌-◌, ◌*◌, ◌/◌, ◌%◌, ◌≤◌, ◌<◌, ◌≡◌, ◌∙◌, refl, sym, ap, ap₂, arith, List,
  replicate, byte_at, ltb, if◌then◌else◌, bit_xor, inl, inr, Bool-cases, get_or_ext,
}
use zepboot.Base.Ranges.{cells, length-cells, get_or-cells, cells_congr}
use zepboot.Aes.{aes_block_size, increment, zb_aes_ctr_mode, Cipher}
use zepboot.Aes.Stream.{Encrypts, counter, key_stream, zb_aes_ctr_mode-IsStream}
use zepboot.Aes.Laws.{counter-counter}
use zepboot.Move.{advance_ctr}

abbrev pub zero_ctr : List ℕ
zero_ctr = replicate aes_block_size 0

-- The bytes that a move takes from a memory: those from `fr_eoff` on are decrypted, with the key
-- stream that starts there.
abbrev pub decrypted : (List ℕ → List ℕ) → ℕ → (ℕ → ℕ) → ℕ → ℕ
decrypted enc fr_eoff mem i =
    if ltb i fr_eoff then mem i else bit_xor (mem i) (key_stream enc zero_ctr (i - fr_eoff))

-- The bytes in front of `fr_eoff` stay as they are.
pub cells-decrypted_front :
    (enc : List ℕ → List ℕ) (fr_eoff : ℕ) (mem : ℕ → ℕ) (off n : ℕ)
    → off + n ≤ fr_eoff
    → cells (decrypted enc fr_eoff mem) off n ≡ cells mem off n
cells-decrypted_front enc fr_eoff mem off n h = cells_congr _ _ off n (λ i p q. ground arith)

decrypted_back :
    (enc : List ℕ → List ℕ) (fr_eoff : ℕ) (mem : ℕ → ℕ) (i : ℕ)
    → fr_eoff ≤ i
    → decrypted enc fr_eoff mem i ≡ bit_xor (mem i) (key_stream enc zero_ctr (i - fr_eoff))
decrypted_back enc fr_eoff mem i h = ground arith

module _ (cipher : Cipher) (key : List ℕ) (enc : List ℕ → List ℕ)
    (encrypts : Encrypts cipher key enc) where
  -- The key stream of a counter that was carried on.
  key_stream-counter :
      (q j : ℕ) → key_stream enc (counter q zero_ctr) j ≡ key_stream enc zero_ctr (q * 16 + j)
  key_stream-counter q j =
      let e : (q * 16 + j) / 16 ≡ j / 16 + q = omega arith in
      let e' : (q * 16 + j) % 16 ≡ j % 16 = omega arith in
      rw (e, e')
        (ap (λ (c : List ℕ). byte_at (enc c) (j % 16)) (counter-counter (j / 16) q zero_ctr))

  -- Behind `fr_eoff`, at a whole number of blocks from it, zb_aes_ctr_mode decrypts.
  pub cells-decrypted_back :
      (mem : ℕ → ℕ) (fr_eoff off n : ℕ)
      → fr_eoff ≤ off
      → (off - fr_eoff) % 16 ≡ 0
      → let r =
          zb_aes_ctr_mode cipher key (cells mem off n) (counter ((off - fr_eoff) / 16) zero_ctr) in
        (r.out ≡ cells (decrypted enc fr_eoff mem) off n)
        × (r.nonce ≡ counter ((n + 15) / 16 + (off - fr_eoff) / 16) zero_ctr)
  cells-decrypted_back mem fr_eoff off n h whole =
      let q = (off - fr_eoff) / 16 in
      let r =
        zb_aes_ctr_mode-IsStream cipher key enc encrypts (cells mem off n) (counter q zero_ctr) in
      let len = length-cells mem off n in
      (
        get_or_ext 0 _ _
            (r.same_length ∙ len ∙ sym (length-cells (decrypted enc fr_eoff mem) off n))
            (λ i p.
              let inside : i < n = omega (arith, r.same_length, len) in
              let at : q * 16 + (0 + i) ≡ off + i - fr_eoff = omega arith in
              let stream : key_stream enc (counter q zero_ctr) (0 + i)
                  ≡ key_stream enc zero_ctr (off + i - fr_eoff) =
                key_stream-counter q (0 + i) ∙ ap (key_stream enc zero_ctr) at in
              r.adds i (omega (arith, len))
              ∙ ap₂ bit_xor (get_or-cells mem off n i 0 inside) stream
              ∙ sym (
                  get_or-cells (decrypted enc fr_eoff mem) off n i 0 inside
                  ∙ decrypted_back enc fr_eoff mem (off + i) (omega arith))),
        r.counts
            ∙ ap (λ (k : ℕ). counter k (counter q zero_ctr)) (omega (arith, len))
            ∙ counter-counter ((n + 15) / 16) q zero_ctr,
      )

-- The counter that zb_img_move starts with.
increment-counter :
    (n : ℕ) (ctr : List ℕ) → counter n (increment aes_block_size ctr) ≡ counter (suc n) ctr
increment-counter zero ctr = refl
increment-counter (suc n) ctr = ap (increment aes_block_size) (increment-counter n ctr)

pub advance_ctr_lem :
    (fuel fr_off start : ℕ) (ctr : List ℕ)
    → start - fr_off < fuel
    → (start - fr_off) % 16 ≡ 0
    → advance_ctr fuel fr_off start ctr ≡ counter ((start - fr_off) / 16) ctr
unfolding advance_ctr
advance_ctr_lem zero fr_off start ctr h whole = absurd (omega arith)
advance_ctr_lem (suc fuel) fr_off start ctr h whole = elim (Bool-cases (ltb fr_off start)) [
  | inr e ↦ let none_left : (start - fr_off) / 16 ≡ 0 = ground arith in rw (e, none_left) refl
  | inl e ↦
      let more : fr_off < start = ground arith in
      let n : (start - fr_off) / 16 ≡ suc ((start - (fr_off + 16)) / 16) = omega arith in
      rw (e, n)
        (advance_ctr_lem fuel (fr_off + 16) start (increment aes_block_size ctr) (omega arith)
            (omega arith)
          ∙ increment-counter ((start - (fr_off + 16)) / 16) ctr)
]
