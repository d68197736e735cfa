-- ===== src/Swap/Stays.antt =====
-- The turns of a swap in place before phase 3 change no cell outside of the slot, and what it holds depends
-- on its cells only (zb_img_cmd_proc in zepboot/src/zb_move.c).
use zepboot.Base.{
  ℕ, suc, ◌+◌, ◌*◌, ◌^◌, ◌≤◌, ◌<◌, ◌≡◌, ◌∙◌, refl, ap, arith, true, List, byte_at, inl, inr, leb,
  Bool-cases, suc-mul, mul-le-mul_right,
}
use mathlib.Core.Path.{subst}
use zepboot.Base.Ranges.{cells_shift}
use zepboot.Platform.{Flash, Checksums}
use zepboot.Platform.Laws.{FlashLaws}
use zepboot.Board.{Board, ZbSltArea}
use zepboot.TinyCrypt.{TinyCrypt}
use zepboot.Aes.Stream.{Encrypts}
use zepboot.Cmd.{ZbCmd}
use zepboot.Move.{ZbMoveCmd, ZbImgSwpInfo}
use zepboot.Swap.{SwapLocals, end_to}
use zepboot.Swap.Proc.{switch, proc_start, proc_move_up, proc_p2}
use zepboot.Swap.Steps.{Phase, swp_start, move_up, swp_p1, swp_p2, swp_p3, swp_p4, swp_end, Plan}
use zepboot.Swap.Order.{command}
use zepboot.Swap.Reach.{Moves}
use zepboot.Swap.Slots.{Slots, sector-lt}
use zepboot.Swap.Transfers.{up-Transferred, p2-Transferred, p2_behind}
use zepboot.Swap.Halfway.{Sectors-behind, Sectors-inside}
use zepboot.Swap.Sector.{Outside}
use zepboot.Swap.Frame.{Outside-sector}
use zepboot.Swap.InPlace.{IsInPlace, Settled, Along, begins, raises, settles, completes, Decrypted}

module _ {S H : Type 0} (fl : Flash S) (sums : Checksums) (tc : TinyCrypt H) (board : Board)
    (mine : SwapLocals) (area : ZbSltArea) (laws : FlashLaws fl board.sector_size)
    (enc : List ℕ → List ℕ → List ℕ)
    (encrypts : (key : List ℕ) → Encrypts tc.aes_encrypt key (enc key))
    (enc-lt : (key block : List ℕ) (i : ℕ) → byte_at (enc key block) i < 2 ^ 8)
    (info : ZbImgSwpInfo) (plan : Plan) {span : ℕ}
    (z : Slots fl sums tc board mine area laws enc encrypts enc-lt info plan true span)
    (one : IsInPlace info plan) (s0 : S) where
  open board use {sector_size}
  open laws use {cell}

  -- The image lies in the slot, also a sector up.
  fit_slot :
      (plan.to_sectors * sector_size + sector_size ≤ span)
      × (end_to info ≤ plan.to_sectors * sector_size)
  fit_slot =
      let u = suc-mul plan.to_sectors sector_size in
      let room = z.room_to in let enough_to = z.is_plan.to.enough in (omega arith, omega arith)

  module _ (s : S) (mcmd : ZbMoveCmd) (cmd : ZbCmd) (k : ℕ) (few : k ≤ 255) where
    up-Outside :
        suc k ≤ plan.to_sectors
        → (e i : ℕ) → Outside info.to.flash_device info.to.hdr_start span e i
        → cell
            (proc_move_up fl sums tc board mine area s info mcmd true (command cmd move_up k)).flash
            e
            i
          ≡ cell s e i
    up-Outside h e i off =
        let fit = fit_slot in
        let more = mul-le-mul_right sector_size h in
        let v = suc-mul k sector_size in
        let at : info.to.hdr_start + (k * sector_size + sector_size)
            ≡ info.to.hdr_start + k * sector_size + sector_size =
          omega arith in
        (up-Transferred fl sums tc board mine area laws enc encrypts enc-lt info plan true z k s
            mcmd cmd more few).keeps
          e i
          (subst (λ x. Outside info.to.flash_device x sector_size e i) at
            (Outside-sector (k * sector_size + sector_size) sector_size (omega arith) off))

    p2-Outside :
        (e i : ℕ)
        → Outside info.fr.flash_device info.fr.hdr_start span e i
        → cell
            (proc_p2 fl sums tc board mine area s info mcmd true (command cmd swp_p2 k)).flash
            e
            i
          ≡ cell s e i
    p2-Outside e i off = elim (Bool-cases (leb plan.to_sectors k)) [
      | inl t ↦
          ap (λ x. cell x e i)
            (p2_behind fl sums tc board mine area laws enc encrypts enc-lt info plan true z k s mcmd
              cmd (Sectors-behind k z.is_plan.to t) few)
      | inr t ↦
          let inside = Sectors-inside k z.is_plan.to t in
          let fits = z.fr_fits in
          let fit = fit_slot in
          let same = one.same_start in
          let more = sector-lt k z.is_plan.to inside in
          let v = suc-mul k sector_size in
          (p2-Transferred fl sums tc board mine area laws enc encrypts enc-lt info plan true z k s
              mcmd cmd inside few (inr (inr (omega arith))) (omega arith)).keeps
            e i (Outside-sector (k * sector_size) sector_size (omega arith) off)
    ]

    pub switch-Outside :
        (p : Phase)
        → Moves p
        → Along fl sums tc board mine area laws enc encrypts enc-lt info plan s0 p k s
        → (e i : ℕ) → Outside info.to.flash_device info.to.hdr_start span e i
        → Outside info.fr.flash_device info.fr.hdr_start span e i
        → cell (switch fl sums tc board mine area s info mcmd true (command cmd p k)).flash e i
          ≡ cell s e i
    unfolding switch proc_start
    switch-Outside swp_start m h e i to fr = refl
    switch-Outside move_up m (raises h r) e i to fr = up-Outside h e i to
    switch-Outside swp_p1 m h e i to fr = elim h [ ]
    switch-Outside swp_p2 m h e i to fr = p2-Outside e i fr
    switch-Outside swp_p3 m h e i to fr = elim m [ ]
    switch-Outside swp_p4 m h e i to fr = elim m [ ]
    switch-Outside swp_end m h e i to fr = elim m [ ]

  module _ (s s' : S)
      (same_to : (i : ℕ)
        → i < span
        → cell s' info.to.flash_device (info.to.hdr_start + i)
          ≡ cell s info.to.flash_device (info.to.hdr_start + i))
      (same_fr : (i : ℕ)
        → i < span
        → cell s' info.fr.flash_device (info.fr.hdr_start + i)
          ≡ cell s info.fr.flash_device (info.fr.hdr_start + i)) where
    Settled-same :
        (o : ℕ)
        → Settled fl sums tc board mine area laws enc encrypts enc-lt info plan s0 o s
        → Settled fl sums tc board mine area laws enc encrypts enc-lt info plan s0 o s'
    Settled-same o r =
        let fit = fit_slot in
        record {
          back = λ i p q. same_fr i (omega arith) ∙ r.back i p q;
          above = λ i p q. same_to (sector_size + i) (omega arith) ∙ r.above i p q;
        }

    pub Along-same :
        (p : Phase) (k : ℕ)
        → Along fl sums tc board mine area laws enc encrypts enc-lt info plan s0 p k s
        → Along fl sums tc board mine area laws enc encrypts enc-lt info plan s0 p k s'
    Along-same p k (begins to) =
        let fit = fit_slot in begins (λ i h. same_to i (omega arith) ∙ to i h)
    Along-same p k (raises h r) =
        let fit = fit_slot in
        let more = mul-le-mul_right sector_size h in
        raises h (record {
          up = λ i a b. same_to (sector_size + i) (omega arith) ∙ r.up i a b;
          place = λ i a. same_to i (omega arith) ∙ r.place i a;
        })
    Along-same p k (settles r) = settles (Settled-same _ r)
    Along-same p k (completes r) = completes (Settled-same _ r)

    pub Decrypted-same :
        Decrypted fl sums tc board mine area laws enc encrypts enc-lt info plan s0 s
        → Decrypted fl sums tc board mine area laws enc encrypts enc-lt info plan s0 s'
    Decrypted-same h =
        let fit = fit_slot in cells_shift _ _ _ _ _ (λ i p. same_fr i (omega arith)) ∙ h
