-- ===== src/Swap/Frame.antt =====
-- The turns of a swap before phase 3 change no cell outside of the two slots (zb_img_cmd_proc in
-- zepboot/src/zb_move.c).
use zepboot.Base.{
  ℕ, suc, ◌+◌, ◌*◌, ◌^◌, ◌≤◌, ◌<◌, ◌≡◌, refl, ap, arith, false, List, byte_at, inl, inr, leb,
  Bool-cases, suc-mul, mul-le-mul_right,
}
use mathlib.Core.Path.{subst}
use zepboot.Platform.{Flash, Checksums, Device}
use zepboot.Platform.Laws.{FlashLaws}
use zepboot.Board.{Board, ZbSltArea}
use zepboot.TinyCrypt.{TinyCrypt}
use zepboot.Aes.Stream.{Encrypts}
use zepboot.Cmd.{ZbCmd}
use zepboot.Move.{ZbMoveCmd, ZbImgSwpInfo}
use zepboot.Move.Paste.{Apart}
use zepboot.Swap.{SwapLocals}
use zepboot.Swap.Proc.{switch, proc_start, proc_move_up, proc_p1, proc_p2}
use zepboot.Swap.Steps.{Phase, swp_start, move_up, swp_p1, swp_p2, swp_p3, swp_p4, swp_end, Plan}
use zepboot.Swap.Order.{command}
use zepboot.Swap.Reach.{Moves}
use zepboot.Swap.Sector.{Outside}
use zepboot.Swap.Slots.{Slots, sector-lt, Apart-parts}
use zepboot.Swap.Halfway.{Halfway, raises, Sectors-behind, Sectors-inside}
use zepboot.Swap.Transfers.{up-Transferred, p1-Transferred, p1_behind, p2-Transferred, p2_behind}

-- A cell outside of a slot is outside of its sectors.
pub Outside-sector :
    {dev base span e i : ℕ} (y sector : ℕ)
    → y + sector ≤ span
    → Outside dev base span e i
    → Outside dev (base + y) sector e i
Outside-sector y sector h (inl ne) = inl ne
Outside-sector y sector h (inr (inl before)) = inr (inl (omega arith))
Outside-sector y sector h (inr (inr behind)) = inr (inr (omega arith))

module _ {S H : Type 0} (fl : Flash S) (sums : Checksums) (tc : TinyCrypt H) (board : Board)
    (mine : SwapLocals) (area : ZbSltArea) (laws : FlashLaws fl board.sector_size)
    (enc : List ℕ → List ℕ → List ℕ)
    (encrypts : (key : List ℕ) → Encrypts tc.aes_encrypt key (enc key))
    (enc-lt : (key block : List ℕ) (i : ℕ) → byte_at (enc key block) i < 2 ^ 8)
    (info : ZbImgSwpInfo) (plan : Plan) {span : ℕ}
    (z : Slots fl sums tc board mine area laws enc encrypts enc-lt info plan false span)
    (apart : Apart info.to.flash_device info.to.hdr_start info.fr.flash_device info.fr.hdr_start
      span)
    (s0 s : S) (mcmd : ZbMoveCmd) (cmd : ZbCmd) (k : ℕ) (few : k ≤ 255) where
  open board use {sector_size}
  open laws use {cell}

  -- Outside of both slots.
  abbrev pub OffSlots : Device → ℕ → Type 0
  OffSlots e i =
      Outside info.to.flash_device info.to.hdr_start span e i
      × Outside info.fr.flash_device info.fr.hdr_start span e i

  pub up-OffSlots :
      suc k ≤ plan.to_sectors
      → (e i : ℕ) → OffSlots e i
      → cell
          (proc_move_up fl sums tc board mine area s info mcmd false (command cmd move_up k)).flash
          e
          i
        ≡ cell s e i
  up-OffSlots h e i off =
      let room = z.room_to in
      let more = mul-le-mul_right sector_size h in
      let u = suc-mul plan.to_sectors sector_size in
      let v = suc-mul k sector_size in
      let at : info.to.hdr_start + (k * sector_size + sector_size)
          ≡ info.to.hdr_start + k * sector_size + sector_size =
        omega arith in
      (up-Transferred fl sums tc board mine area laws enc encrypts enc-lt info plan false z k s mcmd
          cmd more few).keeps
        e i
        (subst (λ x. Outside info.to.flash_device x sector_size e i) at
          (Outside-sector (k * sector_size + sector_size) sector_size (omega arith) off.0))

  pub p1-OffSlots :
      (e i : ℕ)
      → OffSlots e i
      → cell (proc_p1 fl sums tc board mine area s info mcmd (command cmd swp_p1 k)).flash e i
        ≡ cell s e i
  p1-OffSlots e i off = elim (Bool-cases (leb plan.fr_sectors k)) [
    | inl t ↦
        ap (λ x. cell x e i)
          (p1_behind fl sums tc board mine area laws enc encrypts enc-lt info plan false z k s mcmd
            cmd (Sectors-behind k z.is_plan.fr t) few)
    | inr t ↦
        let inside = Sectors-inside k z.is_plan.fr t in
        let room = z.room_fr in
        let more = sector-lt k z.is_plan.fr inside in
        let v = suc-mul k sector_size in
        (p1-Transferred fl sums tc board mine area laws enc encrypts enc-lt info plan false z k s
            mcmd cmd inside few apart).keeps
          e i (Outside-sector (k * sector_size) sector_size (omega arith) off.0)
  ]

  pub p2-OffSlots :
      (e i : ℕ)
      → OffSlots e i
      → cell (proc_p2 fl sums tc board mine area s info mcmd false (command cmd swp_p2 k)).flash e i
        ≡ cell s e i
  p2-OffSlots e i off = elim (Bool-cases (leb plan.to_sectors k)) [
    | inl t ↦
        ap (λ x. cell x e i)
          (p2_behind fl sums tc board mine area laws enc encrypts enc-lt info plan false z k s mcmd
            cmd (Sectors-behind k z.is_plan.to t) few)
    | inr t ↦
        let inside = Sectors-inside k z.is_plan.to t in
        let room = z.room_to in
        let fits = z.fr_fits in
        let more = sector-lt k z.is_plan.to inside in
        let u = suc-mul plan.to_sectors sector_size in
        let v = suc-mul k sector_size in
        let at : info.to.hdr_start + (k * sector_size + sector_size)
            ≡ info.to.hdr_start + k * sector_size + sector_size =
          omega arith in
        let parts =
          Apart-parts info.to.flash_device info.to.hdr_start info.fr.flash_device info.fr.hdr_start
            span (k * sector_size + sector_size) (k * sector_size) sector_size (omega arith)
            (omega arith) apart in
        (p2-Transferred fl sums tc board mine area laws enc encrypts enc-lt info plan false z k s
            mcmd cmd inside few
            (subst
              (λ x.
                Apart info.to.flash_device x info.fr.flash_device
                  (info.fr.hdr_start + k * sector_size) sector_size)
              at parts)
            (omega arith)).keeps
          e i (Outside-sector (k * sector_size) sector_size (omega arith) off.1)
  ]

  -- A turn before phase 3, of a sector that is in the image if it is moved up.
  pub turn-OffSlots :
      (p : Phase)
      → Moves p
      → (p ≡ move_up → suc k ≤ plan.to_sectors)
      → (e i : ℕ) → OffSlots e i
      → cell (switch fl sums tc board mine area s info mcmd false (command cmd p k)).flash e i
        ≡ cell s e i
  unfolding switch proc_start
  turn-OffSlots swp_start m h e i off = refl
  turn-OffSlots move_up m h e i off = up-OffSlots (h refl) e i off
  turn-OffSlots swp_p1 m h e i off = p1-OffSlots e i off
  turn-OffSlots swp_p2 m h e i off = p2-OffSlots e i off
  turn-OffSlots swp_p3 m h e i off = elim m [ ]
  turn-OffSlots swp_p4 m h e i off = elim m [ ]
  turn-OffSlots swp_end m h e i off = elim m [ ]

  in_image :
      (p : Phase)
      → Halfway fl sums tc board mine area laws enc encrypts enc-lt info plan s0 p k s
      → p ≡ move_up
      → suc k ≤ plan.to_sectors
  in_image move_up (raises h r) e = h
  in_image swp_start h e = absurd cc
  in_image swp_p1 h e = absurd cc
  in_image swp_p2 h e = absurd cc
  in_image swp_p3 h e = absurd cc
  in_image swp_p4 h e = elim h [ ]
  in_image swp_end h e = elim h [ ]

  pub switch-OffSlots :
      (p : Phase)
      → Moves p
      → Halfway fl sums tc board mine area laws enc encrypts enc-lt info plan s0 p k s
      → (e i : ℕ) → OffSlots e i
      → cell (switch fl sums tc board mine area s info mcmd false (command cmd p k)).flash e i
        ≡ cell s e i
  switch-OffSlots p m h = turn-OffSlots p m (in_image p h)
