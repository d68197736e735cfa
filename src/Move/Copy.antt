-- ===== src/Move/Copy.antt =====
-- zb_img_move from flash to flash (zepboot/src/zb_move.c): what the flash holds afterwards.
use zepboot.Base.{
  ℕ, zero, suc, ◌+◌, ◌-◌, ◌%◌, ◌^◌, ◌≤◌, ◌<◌, ◌≡◌, ◌≢◌, ◌∙◌, refl, ap, ap₂, arith, false, List,
  byte_at, bit_xor, ltb, if◌then◌else◌, add32, if_false, ne→==,
}
use zepboot.Base.Ranges.{cells, length-cells, get_or-cells}
use zepboot.Base.Bits.{bit_xor-twice}
use native.Mathlib.Decide.{ℕ_discrete}
use zepboot.Platform.{Rc, ok, Flash, null}
use zepboot.Platform.Laws.{FlashLaws, IsBlank, IsBytes}
use zepboot.Flash.{zb_flash_write}
use zepboot.Flash.Write.{zb_flash_write-lem}
use zepboot.Flash.Room.{can_write}
use zepboot.TinyCrypt.{TinyCrypt}
use zepboot.Aes.Stream.{Encrypts, key_stream}
use zepboot.Move.{ZbMoveCmd, Memory, move_loop, zb_img_move}
use zepboot.Move.Chunk.{zero_ctr, decrypted}
use zepboot.Move.Turn.{
  At, IsWhole, turn_len, turn_len_bounds, turn_len-IsWhole, turn_bytes, turn_ctr, turn-cells,
  turn-At, start-At,
}
use zepboot.Move.Paste.{pasted, written-cells, pasted-pasted, Apart, pasted-Apart, Apart-rest}

module _ {S H : Type 0} {fl : Flash S} {page : ℕ} (laws : FlashLaws fl page) (tc : TinyCrypt H)
    (enc : List ℕ → List ℕ) (mcmd : ZbMoveCmd) (encrypts : Encrypts tc.aes_encrypt mcmd.key enc)
    (enc-lt : (block : List ℕ) (i : ℕ) → byte_at (enc block) i < 2 ^ 8)
    (present_fr : mcmd.fl_dev_fr ≢ null) (present_to : mcmd.fl_dev_to ≢ null) where
  open laws use {cell, size}
  open mcmd use {fl_dev_fr, fl_dev_to, fr_eoff}

  -- The bytes that a move takes from the flash.
  abbrev pub source : S → ℕ → ℕ
  source s = decrypted enc fr_eoff (cell s fl_dev_fr)

  source-lt : (s : S) (i : ℕ) → source s i < 2 ^ 8
  source-lt s i = ground (
    arith,
    laws.cell-lt s fl_dev_fr i,
    (bit_xor-twice 8 (cell s fl_dev_fr i) (key_stream enc zero_ctr (i - fr_eoff))
        (laws.cell-lt s fl_dev_fr i) (enc-lt _ _)).0,
  )

  cells-IsBytes : (s : S) (off n : ℕ) → IsBytes (cells (source s) off n)
  cells-IsBytes s off n i h =
      let inside : i < n = omega (arith, length-cells (source s) off n) in
      rw (get_or-cells (source s) off n i 0 inside) (source-lt s (off + i))

  -- The bytes to move lie in the device, and the flash is erased where they go, in a span of a
  -- multiple of eight bytes.
  pub record CanMove (s : S) (fr to len span : ℕ) : Type 0 where
    pub from_fits : fr + len ≤ size fl_dev_fr
    pub starts : to % 8 ≡ 0
    pub whole : span % 8 ≡ 0
    pub holds : len ≤ span
    pub to_fits : to + span ≤ size fl_dev_to
    pub blank : IsBlank (cell s fl_dev_to) to span
    pub apart : Apart fl_dev_fr fr fl_dev_to to len

  -- What a move leaves: the code 0, the bytes in the flash, and the RAM as it was.
  pub record Moved (m : Memory S) (fr to len : ℕ) (r : Rc × Memory S) : Type 0 where
    pub returns : r.0 ≡ ok
    pub moves :
        (e i : ℕ)
        → cell r.1.flash e i ≡ pasted (cell m.flash) fl_dev_to to (source m.flash) fr len e i
    pub keeps_ram : r.1.ram ≡ m.ram

  -- The flash behind one turn.
  abbrev after_turn : (s : S) (ulen len fr to : ℕ) (buf ctr : List ℕ) → S
  after_turn s ulen len fr to buf ctr =
      (zb_flash_write fl s fl_dev_to to
        (turn_bytes laws tc enc mcmd encrypts s ulen len fr buf ctr)).1

  module _ (s : S) (ulen len fr to span : ℕ) (buf ctr : List ℕ) (at : At fr_eoff ulen fr ctr)
      (can : CanMove s fr to len span) (some_left : 0 < len) where
    abbrev n : ℕ
    n = turn_len ulen len

    turn_moves :
        (e i : ℕ)
        → cell (after_turn s ulen len fr to buf ctr) e i
          ≡ pasted (cell s) fl_dev_to to (source s) fr n e i
    turn_moves e i =
        let bytes = cells (source s) fr n in
        let b = turn_len_bounds ulen len some_left in
        let l = length-cells (source s) fr n in
        let holds = can.holds in
        let from_fits = can.from_fits in
        let room =
          can_write laws s fl_dev_to to span bytes can.starts can.whole (omega arith) can.to_fits
            can.blank (cells-IsBytes s fr n) in
        let bytes_lem =
          turn-cells laws tc enc mcmd encrypts s ulen len fr buf ctr at some_left present_fr
            from_fits in
        ap (λ (bs : List ℕ). cell (zb_flash_write fl s fl_dev_to to bs).1 e i) bytes_lem
        ∙ (zb_flash_write-lem laws room.1 present_to).1 e i
        ∙ written-cells (cell s) fl_dev_to to (source s) fr n e i

    -- What is left to move is unchanged.
    source_rest :
        (i : ℕ)
        → fr + n ≤ i
        → i < fr + len
        → source (after_turn s ulen len fr to buf ctr) i ≡ source s i
    source_rest i p q =
        let b = turn_len_bounds ulen len some_left in
        let unchanged : cell (after_turn s ulen len fr to buf ctr) fl_dev_fr i
            ≡ cell s fl_dev_fr i =
          turn_moves fl_dev_fr i
          ∙ pasted-Apart (cell s) fl_dev_fr fl_dev_to to (source s) fr n len i b.1 can.apart p q in
        ap₂
          (λ (x : ℕ) (y : ℕ).
            if ltb i fr_eoff then x else bit_xor y (key_stream enc zero_ctr (i - fr_eoff)))
          unchanged unchanged

    can_rest :
        IsWhole ulen len
        → n < len
        → CanMove (after_turn s ulen len fr to buf ctr) (fr + n) (to + n) (len - n) (span - n)
    can_rest w more =
        let b = turn_len_bounds ulen len some_left in
        let n_whole = (turn_len-IsWhole ulen len w more).0 in
        let starts = can.starts in
        let whole = can.whole in
        let holds = can.holds in
        let from_fits = can.from_fits in
        let to_fits = can.to_fits in
        record {
          from_fits = omega arith;
          starts = omega arith;
          whole = omega arith;
          holds = omega arith;
          to_fits = omega arith;
          blank = λ i p q. turn_moves fl_dev_to i ∙ ground (arith, can.blank i);
          apart = Apart-rest fl_dev_fr fr fl_dev_to to n len b.1 can.apart;
        }

  move_loop_empty :
      (m : Memory S) (fuel ulen fr to : ℕ) (buf ctr : List ℕ)
      → move_loop fl tc m mcmd false (suc fuel) ulen 0 fr to buf ctr ≡ (ok, m)
  unfolding move_loop
  move_loop_empty m fuel ulen fr to buf ctr = refl

  move_loop_step :
      (m : Memory S) (fuel ulen len fr to : ℕ) (buf ctr : List ℕ)
      → 0 < len
      → (buf' : List ℕ) × (move_loop fl tc m mcmd false (suc fuel) ulen len fr to buf ctr
          ≡ move_loop fl tc
              (record m { flash = after_turn m.flash ulen len fr to buf ctr })
              mcmd
              false
              fuel
              (ulen - turn_len ulen len)
              (len - turn_len ulen len)
              (add32 fr (turn_len ulen len))
              (add32 to (turn_len ulen len))
              buf'
              (turn_ctr laws tc enc mcmd encrypts m.flash ulen len fr buf ctr))
  unfolding move_loop
  move_loop_step m fuel ulen len fr to buf ctr some_left =
      (_, if_false _ _ (ne→== len 0 (λ e. omega arith)))

  empty-Moved :
      (m : Memory S) (fuel ulen len fr to : ℕ) (buf ctr : List ℕ)
      → len ≡ 0
      → Moved m fr to len (move_loop fl tc m mcmd false (suc fuel) ulen len fr to buf ctr)
  empty-Moved m fuel ulen len fr to buf ctr e = rw e (
      rw (move_loop_empty m fuel ulen fr to buf ctr)
        (record { returns = refl; moves = λ e i. ground arith; keeps_ram = refl }))

  -- A turn, and what the turns behind it move.
  step-Moved :
      (m : Memory S) (fuel ulen len fr to span : ℕ) (buf ctr : List ℕ)
      → At fr_eoff ulen fr ctr
      → CanMove m.flash fr to len span
      → 0 < len
      → ((buf' : List ℕ)
          → let n = turn_len ulen len in
            let m' : Memory S = record m { flash = after_turn m.flash ulen len fr to buf ctr } in
            Moved m' (fr + n) (to + n) (len - n) (
              move_loop fl tc m' mcmd false fuel
                (ulen - n)
                (len - n)
                (fr + n)
                (to + n)
                buf'
                (turn_ctr laws tc enc mcmd encrypts m.flash ulen len fr buf ctr)))
      → Moved m fr to len (move_loop fl tc m mcmd false (suc fuel) ulen len fr to buf ctr)
  step-Moved m fuel ulen len fr to span buf ctr at can some_left rest =
      let n = turn_len ulen len in
      let b = turn_len_bounds ulen len some_left in
      let holds = can.holds in
      let from_fits = can.from_fits in
      let to_fits = can.to_fits in
      let lt_fr = laws.size-lt fl_dev_fr in
      let lt_to = laws.size-lt fl_dev_to in
      let next_fr : add32 fr n ≡ fr + n = omega arith in
      let next_to : add32 to n ≡ to + n = omega arith in
      let step = move_loop_step m fuel ulen len fr to buf ctr some_left in
      let s' = after_turn m.flash ulen len fr to buf ctr in
      let later = rest step.0 in
      rw (step.1, next_fr, next_to)
        (record {
          returns = later.returns;
          moves = λ e i.
              later.moves e i
              ∙ pasted-pasted (cell m.flash) (cell s') fl_dev_to to (source m.flash) (source s') fr
                  n len b.1 (turn_moves m.flash ulen len fr to span buf ctr at can some_left)
                  (source_rest m.flash ulen len fr to span buf ctr at can some_left) e i;
          keeps_ram = later.keeps_ram;
        })

  move_loop-Moved :
      (m : Memory S) (fuel ulen len fr to span : ℕ) (buf ctr : List ℕ)
      → At fr_eoff ulen fr ctr
      → IsWhole ulen len
      → CanMove m.flash fr to len span
      → len < fuel
      → Moved m fr to len (move_loop fl tc m mcmd false fuel ulen len fr to buf ctr)
  move_loop-Moved m zero ulen len fr to span buf ctr at w can enough = absurd (omega arith)
  move_loop-Moved m (suc zero) ulen len fr to span buf ctr at w can enough =
      empty-Moved m zero ulen len fr to buf ctr (omega arith)
  move_loop-Moved m (suc (suc fuel)) ulen len fr to span buf ctr at w can enough =
      elim (ℕ_discrete len 0) [
        | yes e ↦ empty-Moved m (suc fuel) ulen len fr to buf ctr e
        | no ne ↦
            let n = turn_len ulen len in
            let some_left : 0 < len = omega arith in
            let b = turn_len_bounds ulen len some_left in
            step-Moved m (suc fuel) ulen len fr to span buf ctr at can some_left (λ buf'.
              let m' : Memory S = record m { flash = after_turn m.flash ulen len fr to buf ctr } in
              elim (ℕ_discrete (len - n) 0) [
                | yes last ↦ empty-Moved m' fuel (ulen - n) (len - n) (fr + n) (to + n) buf' _ last
                | no more ↦
                    let front = at.in_front in
                    move_loop-Moved m' (suc fuel) (ulen - n) (len - n) (fr + n) (to + n) (span - n)
                      buf' _
                      (turn-At laws tc enc mcmd encrypts m.flash ulen len fr buf ctr at some_left
                        present_fr can.from_fits (omega arith))
                      (turn_len-IsWhole ulen len w (omega arith)).1
                      (can_rest m.flash ulen len fr to span buf ctr at can some_left w
                        (omega arith))
                      (omega arith)
              ])
      ]

  -- zb_img_move from flash to erased flash elsewhere returns 0 and leaves the bytes, decrypted from
  -- fr_eoff on, at the offset to move to, and everything else as it was, the RAM included, if the
  -- bytes lie in the devices, the offset to move to is a multiple of eight and the flash is erased
  -- for a multiple of eight bytes there, and fr_eoff is a multiple of eight bytes behind the first
  -- byte, or behind the last one, or a multiple of 16 bytes before the first one.
  pub zb_img_move-Moved :
      (m : Memory S) (len span : ℕ) (buf : List ℕ)
      → CanMove m.flash mcmd.fr_off mcmd.to_off len span
      → IsWhole (mcmd.fr_eoff - mcmd.fr_off) len
      → (mcmd.fr_off - mcmd.fr_eoff) % 16 ≡ 0
      → Moved m mcmd.fr_off mcmd.to_off len (zb_img_move fl tc buf m mcmd len false)
  unfolding zb_img_move
  zb_img_move-Moved m len span buf can w blocks =
      move_loop-Moved m (len + 1) (fr_eoff - mcmd.fr_off) len mcmd.fr_off mcmd.to_off span buf _
        (start-At mcmd.fr_off fr_eoff blocks) w can (omega arith)
