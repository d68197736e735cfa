-- ===== src/Move/Turn.antt =====
-- One turn of the loop of zb_img_move (zepboot/src/zb_move.c), and what the next one starts from.
use zepboot.Base.{
  ℕ, ◌+◌, ◌-◌, ◌/◌, ◌%◌, ◌≤◌, ◌<◌, ◌≡◌, ◌≢◌, ◌⊎◌, ◌∙◌, refl, sym, ap, arith, List, ◌++◌, take, drop,
  ltb, if◌then◌else◌, min, inl, inr, Bool-cases, if_true, if_false, take-append, ◌==◌, eq→==, ne→==,
}
use native.Mathlib.Decide.{ℕ_discrete}
use zepboot.Base.Ranges.{cells, length-cells}
use mathlib.Core.Path.{subst}
use zepboot.Platform.{Flash, null}
use zepboot.Platform.Laws.{FlashLaws}
use zepboot.Flash.{zb_flash_read}
use zepboot.Flash.Write.{zb_flash_read-lem}
use zepboot.TinyCrypt.{TinyCrypt}
use zepboot.Aes.{Crypt, zb_aes_ctr_mode}
use zepboot.Aes.Stream.{Encrypts, counter}
use zepboot.Move.{ZbMoveCmd, move_block_size, advance_ctr}
use zepboot.Move.Chunk.{
  advance_ctr_lem, zero_ctr, decrypted, cells-decrypted_front, cells-decrypted_back,
}

-- The length of a turn: `buf_len`.
abbrev pub turn_len : ℕ → ℕ → ℕ
turn_len ulen len =
    let whole = min len move_block_size in if ltb 0 ulen then min whole ulen else whole

-- The loop is at `fr_off`: so many bytes are in front of `fr_eoff`, and the counter fits.
pub record At (fr_eoff ulen fr_off : ℕ) (ctr : List ℕ) : Type 0 where
  pub in_front : ulen ≡ fr_eoff - fr_off
  pub blocks : (fr_off - fr_eoff) % 16 ≡ 0
  pub counted : ctr ≡ counter ((fr_off - fr_eoff) / 16) zero_ctr

pub turn_len_bounds :
    (ulen len : ℕ)
    → 0 < len
    → (0 < turn_len ulen len) × (turn_len ulen len ≤ len) × (turn_len ulen len ≤ move_block_size)
turn_len_bounds ulen len h = ground arith

-- The counter that zb_img_move starts with.
abbrev pub start_ctr : ℕ → ℕ → List ℕ
start_ctr fr_off fr_eoff =
    if (fr_eoff - fr_off) == 0
    then advance_ctr (fr_off - fr_eoff + 1) fr_eoff fr_off zero_ctr
    else zero_ctr

pub start-At :
    (fr_off fr_eoff : ℕ)
    → (fr_off - fr_eoff) % 16 ≡ 0
    → At fr_eoff (fr_eoff - fr_off) fr_off (start_ctr fr_off fr_eoff)
start-At fr_off fr_eoff h = elim (ℕ_discrete (fr_eoff - fr_off) 0) [
  | yes behind ↦ record {
    in_front = refl;
    blocks = h;
    counted =
        if_true _ _ (eq→== (fr_eoff - fr_off) 0 behind)
        ∙ advance_ctr_lem (fr_off - fr_eoff + 1) fr_eoff fr_off zero_ctr (omega arith) h;
  }
  | no front ↦
      let none_before : (fr_off - fr_eoff) / 16 ≡ 0 = omega arith in
      record {
        in_front = refl;
        blocks = h;
        counted =
            if_false _ _ (ne→== (fr_eoff - fr_off) 0 front)
            ∙ ap (λ (k : ℕ). counter k zero_ctr) (sym none_before);
      }
]

-- The decryption starts at a whole number of write blocks, or behind the bytes to move. Then a turn
-- that is not the last one is of whole write blocks.
abbrev pub IsWhole : ℕ → ℕ → Type 0
IsWhole ulen len = (ulen % 8 ≡ 0) ⊎ (len ≤ ulen)

pub turn_len-IsWhole :
    (ulen len : ℕ)
    → IsWhole ulen len
    → turn_len ulen len < len
    → (turn_len ulen len % 8 ≡ 0) × IsWhole (ulen - turn_len ulen len) (len - turn_len ulen len)
turn_len-IsWhole ulen len (inl w) h = (ground arith, inl (ground arith))
turn_len-IsWhole ulen len (inr w) h = (ground arith, inr (ground arith))

take-cells :
    (mem : ℕ → ℕ) (off n : ℕ) (rest : List ℕ) → take n (cells mem off n ++ rest) ≡ cells mem off n
take-cells mem off n rest =
    subst (λ k. take k (cells mem off n ++ rest) ≡ cells mem off n) (length-cells mem off n)
      (take-append (cells mem off n) rest)

module _ {S H : Type 0} {fl : Flash S} {page : ℕ} (laws : FlashLaws fl page) (tc : TinyCrypt H)
    (enc : List ℕ → List ℕ) (mcmd : ZbMoveCmd)
    (encrypts : Encrypts tc.aes_encrypt mcmd.key enc) where
  open laws use {cell, size}
  open mcmd use {fl_dev_fr, fr_eoff}

  -- What the read leaves in the first bytes of the buffer.
  abbrev pub chunk : S → ℕ → ℕ → ℕ → List ℕ → List ℕ
  chunk s ulen len fr_off buf =
      take (turn_len ulen len) (zb_flash_read fl s fl_dev_fr fr_off (turn_len ulen len) buf).1

  abbrev pub crypt : S → ℕ → ℕ → ℕ → (buf ctr : List ℕ) → Crypt
  crypt s ulen len fr_off buf ctr =
      zb_aes_ctr_mode tc.aes_encrypt mcmd.key (chunk s ulen len fr_off buf) ctr

  -- The bytes that are passed on, and the counter afterwards.
  abbrev pub turn_bytes : S → ℕ → ℕ → ℕ → (buf ctr : List ℕ) → List ℕ
  turn_bytes s ulen len fr_off buf ctr =
      if ltb 0 ulen then chunk s ulen len fr_off buf else (crypt s ulen len fr_off buf ctr).out

  abbrev pub turn_ctr : S → ℕ → ℕ → ℕ → (buf ctr : List ℕ) → List ℕ
  turn_ctr s ulen len fr_off buf ctr =
      if ltb 0 ulen then ctr else (crypt s ulen len fr_off buf ctr).nonce

  module _ (s : S) (ulen len fr_off : ℕ) (buf ctr : List ℕ) (here : At fr_eoff ulen fr_off ctr)
      (some_left : 0 < len) (present : fl_dev_fr ≢ null)
      (fits : fr_off + len ≤ size fl_dev_fr) where
    abbrev n : ℕ
    n = turn_len ulen len

    chunk-cells : chunk s ulen len fr_off buf ≡ cells (cell s fl_dev_fr) fr_off n
    chunk-cells =
        let b = turn_len_bounds ulen len some_left in
        rw (zb_flash_read-lem laws s fl_dev_fr fr_off n buf present (omega (arith, b)))
          (take-cells (cell s fl_dev_fr) fr_off n (drop n buf))

    crypt-cells :
        fr_eoff ≤ fr_off
        → ((crypt s ulen len fr_off buf ctr).out
            ≡ cells (decrypted enc fr_eoff (cell s fl_dev_fr)) fr_off n)
          × ((crypt s ulen len fr_off buf ctr).nonce
              ≡ counter ((n + 15) / 16 + (fr_off - fr_eoff) / 16) zero_ctr)
    crypt-cells h =
        let back =
          cells-decrypted_back tc.aes_encrypt mcmd.key enc encrypts (cell s fl_dev_fr) fr_eoff
            fr_off n h here.blocks in
        rw (chunk-cells, here.counted) back

    pub turn-cells :
        turn_bytes s ulen len fr_off buf ctr
        ≡ cells (decrypted enc fr_eoff (cell s fl_dev_fr)) fr_off n
    turn-cells =
        let front = here.in_front in
        elim (Bool-cases (ltb 0 ulen)) [
          | inl e ↦
              let small : n ≤ ulen = ground arith in
              let more : 0 < ulen = ground arith in
              if_true _ _ e
              ∙ chunk-cells
              ∙ sym (cells-decrypted_front enc fr_eoff (cell s fl_dev_fr) fr_off n (omega arith))
          | inr e ↦ if_false _ _ e ∙ (crypt-cells (ground arith)).0
        ]

    -- The next turn starts behind the bytes of this one.
    pub turn-At : n < len → At fr_eoff (ulen - n) (fr_off + n) (turn_ctr s ulen len fr_off buf ctr)
    turn-At more =
        let front = here.in_front in
        let blocks = here.blocks in
        elim (Bool-cases (ltb 0 ulen)) [
          | inl e ↦
              let small : n ≤ ulen = ground arith in
              let some_front : 0 < ulen = ground arith in
              let z : (fr_off - fr_eoff) / 16 ≡ (fr_off + n - fr_eoff) / 16 = omega arith in
              record {
                in_front = omega arith;
                blocks = omega arith;
                counted = if_true _ _ e ∙ here.counted ∙ ap (λ (k : ℕ). counter k zero_ctr) z;
              }
          | inr e ↦
              let whole : n ≡ 512 = ground arith in
              let z : (n + 15) / 16 + (fr_off - fr_eoff) / 16 ≡ (fr_off + n - fr_eoff) / 16 =
                ground arith in
              record {
                in_front = ground arith;
                blocks = ground arith;
                counted =
                    if_false _ _ e
                    ∙ (crypt-cells (ground arith)).1
                    ∙ ap (λ (k : ℕ). counter k zero_ctr) z;
              }
        ]
