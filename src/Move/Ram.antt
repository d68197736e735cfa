-- ===== src/Move/Ram.antt =====
-- zb_img_move from flash to RAM (zepboot/src/zb_move.c): what the RAM holds afterwards.
use zepboot.Base.{
  ℕ, zero, suc, ◌+◌, ◌-◌, ◌%◌, ◌^◌, ◌≤◌, ◌<◌, ◌≡◌, ◌≢◌, ◌∙◌, refl, ap, arith, true, List, ltb, leb,
  ◌&&◌, if◌then◌else◌, add32, if_false, ne→==, inl, inr, Bool-cases,
}
use zepboot.Base.Ranges.{cells, length-cells, get_or-cells}
use native.Mathlib.Decide.{ℕ_discrete}
use zepboot.Platform.{Rc, ok, Flash, null}
use zepboot.Platform.Laws.{FlashLaws}
use zepboot.TinyCrypt.{TinyCrypt}
use zepboot.Aes.Stream.{Encrypts}
use zepboot.Move.{ZbMoveCmd, Memory, memcpy, move_loop, zb_img_move}
use zepboot.Move.Chunk.{decrypted}
use zepboot.Move.Turn.{
  At, turn_len, turn_len_bounds, turn_bytes, turn_ctr, turn-cells, turn-At, start-At,
}

-- A memory in which a run of bytes is a run of `f`, from `fr` on.
abbrev pub copied : (ℕ → ℕ) → ℕ → (ℕ → ℕ) → ℕ → ℕ → ℕ → ℕ
copied ram to f fr len i = if leb to i && ltb i (to + len) then f (fr + (i - to)) else ram i

memcpy-cells :
    (ram : ℕ → ℕ) (to : ℕ) (f : ℕ → ℕ) (fr n i : ℕ)
    → memcpy ram to (cells f fr n) i ≡ copied ram to f fr n i
memcpy-cells ram to f fr n i = ground (arith, length-cells f fr n, get_or-cells f fr n (i - to) 0)

copied-copied :
    (ram ram' : ℕ → ℕ) (to : ℕ) (f : ℕ → ℕ) (fr n len : ℕ)
    → n ≤ len
    → ((i : ℕ) → ram' i ≡ copied ram to f fr n i)
    → (i : ℕ) → copied ram' (to + n) f (fr + n) (len - n) i ≡ copied ram to f fr len i
copied-copied ram ram' to f fr n len h same i = elim (Bool-cases (leb (to + n) i)) [
  | inl behind ↦
      let at : fr + n + (i - (to + n)) ≡ fr + (i - to) = ground arith in
      rw at (ground (arith, same i))
  | inr before ↦ ground (arith, same i)
]

module _ {S H : Type 0} {fl : Flash S} {page : ℕ} (laws : FlashLaws fl page) (tc : TinyCrypt H)
    (enc : List ℕ → List ℕ) (mcmd : ZbMoveCmd) (encrypts : Encrypts tc.aes_encrypt mcmd.key enc)
    (present : mcmd.fl_dev_fr ≢ null) where
  open laws use {cell, size}
  open mcmd use {fl_dev_fr, fr_eoff}

  -- What a move to RAM leaves: the code 0, the bytes in the RAM, and the flash as it was.
  pub record RamMoved (m : Memory S) (fr to len : ℕ) (r : Rc × Memory S) : Type 0 where
    pub returns : r.0 ≡ ok
    pub moves :
        (i : ℕ)
        → r.1.ram i ≡ copied m.ram to (decrypted enc fr_eoff (cell m.flash fl_dev_fr)) fr len i
    pub keeps_flash : r.1.flash ≡ m.flash

  -- The memory behind one turn.
  abbrev after_turn : (m : Memory S) (ulen len fr to : ℕ) (buf ctr : List ℕ) → Memory S
  after_turn m ulen len fr to buf ctr = record m {
    ram = memcpy m.ram to (turn_bytes laws tc enc mcmd encrypts m.flash ulen len fr buf ctr);
  }

  move_loop_step :
      (m : Memory S) (fuel ulen len fr to : ℕ) (buf ctr : List ℕ)
      → 0 < len
      → (buf' : List ℕ) × (move_loop fl tc m mcmd true (suc fuel) ulen len fr to buf ctr
          ≡ move_loop fl tc
              (after_turn m ulen len fr to buf ctr)
              mcmd
              true
              fuel
              (ulen - turn_len ulen len)
              (len - turn_len ulen len)
              (add32 fr (turn_len ulen len))
              (add32 to (turn_len ulen len))
              buf'
              (turn_ctr laws tc enc mcmd encrypts m.flash ulen len fr buf ctr))
  unfolding move_loop
  move_loop_step m fuel ulen len fr to buf ctr some_left =
      (_, if_false _ _ (ne→== len 0 (λ e. omega arith)))

  empty-RamMoved :
      (m : Memory S) (fuel ulen len fr to : ℕ) (buf ctr : List ℕ)
      → len ≡ 0
      → RamMoved m fr to len (move_loop fl tc m mcmd true (suc fuel) ulen len fr to buf ctr)
  unfolding move_loop
  empty-RamMoved m fuel ulen len fr to buf ctr e =
      rw (e) (record { returns = refl; moves = λ i. ground arith; keeps_flash = refl })

  move_loop-RamMoved :
      (m : Memory S) (fuel ulen len fr to : ℕ) (buf ctr : List ℕ)
      → At fr_eoff ulen fr ctr
      → fr + len ≤ size fl_dev_fr
      → to + len < 2 ^ 32
      → len < fuel
      → RamMoved m fr to len (move_loop fl tc m mcmd true fuel ulen len fr to buf ctr)
  move_loop-RamMoved m zero ulen len fr to buf ctr at fits word enough = absurd (omega arith)
  move_loop-RamMoved m (suc zero) ulen len fr to buf ctr at fits word enough =
      empty-RamMoved m zero ulen len fr to buf ctr (omega arith)
  move_loop-RamMoved m (suc (suc fuel)) ulen len fr to buf ctr at fits word enough =
      elim (ℕ_discrete len 0) [
        | yes e ↦ empty-RamMoved m (suc fuel) ulen len fr to buf ctr e
        | no ne ↦
            let n = turn_len ulen len in
            let some_left : 0 < len = omega arith in
            let b = turn_len_bounds ulen len some_left in
            let lt = laws.size-lt fl_dev_fr in
            let next_fr : add32 fr n ≡ fr + n = omega arith in
            let next_to : add32 to n ≡ to + n = omega arith in
            let f = decrypted enc fr_eoff (cell m.flash fl_dev_fr) in
            let m' = after_turn m ulen len fr to buf ctr in
            let step = move_loop_step m (suc fuel) ulen len fr to buf ctr some_left in
            let bytes_lem =
              turn-cells laws tc enc mcmd encrypts m.flash ulen len fr buf ctr at some_left present
                fits in
            let ctr' = turn_ctr laws tc enc mcmd encrypts m.flash ulen len fr buf ctr in
            let later : RamMoved m' (fr + n) (to + n) (len - n) (
                move_loop fl tc m' mcmd true (suc fuel) (ulen - n) (len - n) (fr + n) (to + n)
                  step.0 ctr') =
              elim (ℕ_discrete (len - n) 0) [
                | yes last ↦
                    empty-RamMoved m' fuel (ulen - n) (len - n) (fr + n) (to + n) step.0 ctr' last
                | no more ↦
                    move_loop-RamMoved m' (suc fuel) (ulen - n) (len - n) (fr + n) (to + n) step.0
                      ctr'
                      (turn-At laws tc enc mcmd encrypts m.flash ulen len fr buf ctr at some_left
                        present fits (omega arith))
                      (omega arith) (omega arith) (omega arith)
              ] in
            rw (step.1, next_fr, next_to)
              (record {
                returns = later.returns;
                moves = λ i.
                    later.moves i
                    ∙ copied-copied m.ram m'.ram to f fr n len b.1
                        (λ j.
                          ap (λ bs. memcpy m.ram to bs j) bytes_lem
                          ∙ memcpy-cells m.ram to f fr n j)
                        i;
                keeps_flash = later.keeps_flash;
              })
      ]

  -- zb_img_move from flash to RAM: if the bytes lie in a device, the decryption starts a multiple of
  -- 16 bytes before the first byte, or at it or behind it, and the RAM does not end in between, then the
  -- code is 0, the RAM holds the bytes, decrypted from `fr_eoff` on, and is otherwise unchanged, and so
  -- is the flash.
  pub zb_img_move-RamMoved :
      (m : Memory S) (len : ℕ) (buf : List ℕ)
      → mcmd.fr_off + len ≤ size fl_dev_fr
      → mcmd.to_off + len < 2 ^ 32
      → (mcmd.fr_off - mcmd.fr_eoff) % 16 ≡ 0
      → RamMoved m mcmd.fr_off mcmd.to_off len (zb_img_move fl tc buf m mcmd len true)
  unfolding zb_img_move
  zb_img_move-RamMoved m len buf fits word blocks =
      move_loop-RamMoved m (len + 1) (fr_eoff - mcmd.fr_off) len mcmd.fr_off mcmd.to_off buf _
        (start-At mcmd.fr_off fr_eoff blocks) fits word (omega arith)
