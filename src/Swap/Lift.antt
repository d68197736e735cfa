-- ===== src/Swap/Lift.antt =====
-- Moving an image a sector up (CMD2_MOVE_UP of zb_img_cmd_proc in zepboot/src/zb_move.c).
use zepboot.Base.{
  ℕ, suc, ◌+◌, ◌-◌, ◌*◌, ◌^◌, ◌≤◌, ◌<◌, ◌≡◌, ◌∙◌, arith, Bool, List, byte_at, inl, inr, leb, ltb,
  Bool-cases, suc-mul,
}
use zepboot.Platform.{Flash, Checksums}
use zepboot.Platform.Laws.{FlashLaws}
use zepboot.Board.{Board, ZbSltArea}
use zepboot.TinyCrypt.{TinyCrypt}
use zepboot.Aes.Stream.{Encrypts}
use zepboot.Move.{ZbMoveCmd, ZbImgSwpInfo}
use zepboot.Move.Chunk.{decrypted}
use zepboot.Swap.{SwapLocals, end_to}
use zepboot.Swap.Steps.{Plan}
use zepboot.Swap.Sector.{Transferred}
use zepboot.Swap.Slots.{up_cmd}

-- The image and the start of its encrypted part, both a sector up.
pub decrypted-up :
    (enc : List ℕ → List ℕ) (e sector : ℕ) (mem mem0 : ℕ → ℕ) (x y : ℕ)
    → y ≡ x + sector
    → mem y ≡ mem0 x
    → decrypted enc (e + sector) mem y ≡ decrypted enc e mem0 x
decrypted-up enc e sector mem mem0 x y at same =
    let n : x + sector - (e + sector) ≡ x - e = omega arith in
    elim (Bool-cases (ltb x e)) [
      | inl front ↦ rw (at) (ground (arith, same))
      | inr back ↦ ground (arith, same, n)
    ]

module _ {S H : Type 0} (fl : Flash S) (sums : Checksums) (tc : TinyCrypt H) (board : Board)
    (mine : SwapLocals) (area : ZbSltArea) (laws : FlashLaws fl board.sector_size)
    (enc : List ℕ → List ℕ → List ℕ)
    (encrypts : (key : List ℕ) → Encrypts tc.aes_encrypt key (enc key))
    (enc-lt : (key block : List ℕ) (i : ℕ) → byte_at (enc key block) i < 2 ^ 8)
    (info : ZbImgSwpInfo) (plan : Plan) where
  open board use {sector_size}
  open laws use {cell}

  -- The image to swap out is a sector up from `o` on, and in its place below.
  pub record Lifted (s0 : S) (o : ℕ) (s : S) : Type 0 where
    pub up :
        (i : ℕ)
        → o ≤ i
        → i < end_to info
        → cell s info.to.flash_device (info.to.hdr_start + (sector_size + i))
          ≡ cell s0 info.to.flash_device (info.to.hdr_start + i)
    pub place :
        (i : ℕ)
        → i < o
        → cell s info.to.flash_device (info.to.hdr_start + i)
          ≡ cell s0 info.to.flash_device (info.to.hdr_start + i)

  pub up-Lifted :
      (inplace : Bool) (s0 s s' : S) (k : ℕ) (mcmd : ZbMoveCmd)
      → Transferred fl tc board mine.buf laws enc encrypts enc-lt s s'
          (up_cmd fl sums tc board mine area laws enc encrypts enc-lt info plan inplace mcmd k)
          sector_size
      → Lifted s0 (suc k * sector_size) s
      → Lifted s0 (k * sector_size) s'
  up-Lifted inplace s0 s s' k mcmd moves r =
      let dev_to = info.to.flash_device in
      let base_to = info.to.hdr_start in
      let o = k * sector_size in
      let v : suc k * sector_size ≡ o + sector_size = suc-mul k sector_size in
      record {
        up = λ i here inside. elim (Bool-cases (leb (o + sector_size) i)) [
          | inl above ↦
              moves.keeps dev_to (base_to + (sector_size + i)) (inr (inr (ground arith)))
              ∙ r.up i (ground arith) inside
          | inr below ↦
              let at : base_to + (sector_size + i) ≡ base_to + o + sector_size + (i - o) =
                omega arith in
              let at' : base_to + o + (i - o) ≡ base_to + i = omega arith in
              rw (at)
                (moves.gets (i - o) (ground arith) ∙ ground (arith, at', r.place i (ground arith)))
        ];
        place = λ i below.
            moves.keeps dev_to (base_to + i) (inr (inl (omega arith))) ∙ r.place i (omega arith);
      }
