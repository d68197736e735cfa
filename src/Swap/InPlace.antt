-- ===== src/Swap/InPlace.antt =====
-- A swap in place, of an encrypted image that stays in its slot: the turns of zb_img_cmd_proc
-- (zepboot/src/zb_move.c) move it a sector up, and decrypt it on the way back.
use zepboot.Base.{
  ℕ, zero, suc, ◌+◌, ◌-◌, ◌*◌, ◌^◌, ◌≤◌, ◌<◌, ◌≡◌, ◌≢◌, ◌⊎◌, ◌∙◌, refl, sym, ap, arith, true, false,
  List, byte_at, inl, inr, leb, Bool-cases, suc-mul, mul-le-mul_right,
}
use mathlib.Core.Path.{subst}
use zepboot.Base.Ranges.{cells, cells_shift}
use zepboot.Platform.{Flash, Checksums}
use zepboot.Platform.Laws.{FlashLaws}
use zepboot.Board.{Board, ZbSltArea}
use zepboot.TinyCrypt.{TinyCrypt}
use zepboot.Aes.Stream.{Encrypts}
use zepboot.Cmd.{ZbCmd}
use zepboot.Move.{ZbMoveCmd, ZbImgSwpInfo}
use zepboot.Move.Chunk.{decrypted}
use zepboot.Swap.{SwapLocals, end_to}
use zepboot.Swap.Proc.{switch, proc_start, proc_move_up, proc_p2}
use zepboot.Swap.Steps.{
  Phase, swp_start, move_up, swp_p1, swp_p2, swp_p3, swp_p4, swp_end, Plan, next, turns_left,
}
use zepboot.Swap.Order.{command}
use zepboot.Swap.End.{switches}
use zepboot.Swap.Sector.{Transferred}
use zepboot.Swap.Reach.{Moves, starts, up, first, second, invariant-Arrives}
use zepboot.Swap.Slots.{Slots, sector-lt, p2_cmd, p2_len}
use zepboot.Swap.Transfers.{up-Transferred, p2-Transferred, p2_behind}
use zepboot.Swap.Lift.{Lifted, up-Lifted, decrypted-up}
use zepboot.Swap.Halfway.{Sectors-behind, Sectors-inside}
use zepboot.Swap.Content.{image_to}

-- Both images are the one that stays, which is encrypted and not empty.
pub record IsInPlace (info : ZbImgSwpInfo) (plan : Plan) : Type 0 where
  pub same_start : info.fr.hdr_start ≡ info.to.hdr_start
  pub same_sectors : plan.fr_sectors ≡ plan.to_sectors
  pub some_there : plan.to_sectors ≢ 0
  pub encrypted : plan.plain ≡ false

next_start :
    {info : ZbImgSwpInfo} (plan : Plan) (k : ℕ)
    → IsInPlace info plan
    → next plan swp_start k ≡ (move_up, plan.to_sectors - 1)
unfolding next
next_start plan k z = ground (arith, z.encrypted, z.some_there)

next_last : (plan : Plan) → plan.inplace ≡ true → next plan move_up 0 ≡ (swp_p2, 0)
unfolding next
next_last plan stays = rw stays refl

next_done :
    {info : ZbImgSwpInfo} (plan : Plan) (k : ℕ)
    → IsInPlace info plan
    → leb plan.to_sectors k ≡ true
    → next plan swp_p2 k ≡ (swp_p3, k)
unfolding next
next_done plan k z t =
    let f : leb plan.fr_sectors k ≡ true = ap (λ n. leb n k) z.same_sectors ∙ t in rw (t, f) refl

next_left :
    (plan : Plan) (k : ℕ)
    → plan.inplace ≡ true
    → leb plan.to_sectors k ≡ false
    → next plan swp_p2 k ≡ (swp_p2, suc k)
unfolding next
next_left plan k stays t = ground (arith, stays)

module _ {S H : Type 0} (fl : Flash S) (sums : Checksums) (tc : TinyCrypt H) (board : Board)
    (mine : SwapLocals) (area : ZbSltArea) (laws : FlashLaws fl board.sector_size)
    (enc : List ℕ → List ℕ → List ℕ)
    (encrypts : (key : List ℕ) → Encrypts tc.aes_encrypt key (enc key))
    (enc-lt : (key block : List ℕ) (i : ℕ) → byte_at (enc key block) i < 2 ^ 8)
    (info : ZbImgSwpInfo) (plan : Plan) where
  open board use {sector_size}
  open laws use {cell}

  -- The first `o` bytes are decrypted and in their place, and the others are a sector up.
  pub record Settled (s0 : S) (o : ℕ) (s : S) : Type 0 where
    pub back :
        (i : ℕ)
        → i < o
        → i < end_to info
        → cell s info.fr.flash_device (info.fr.hdr_start + i)
          ≡ image_to fl sums tc board mine area laws enc encrypts enc-lt info plan s0
              (info.to.hdr_start + i)
    pub above :
        (i : ℕ)
        → o ≤ i
        → i < end_to info
        → cell s info.to.flash_device (info.to.hdr_start + (sector_size + i))
          ≡ cell s0 info.to.flash_device (info.to.hdr_start + i)

  -- What the slot holds at a command of a swap in place that began with the flash `s0`.
  pub data Along (s0 : S) : Phase → ℕ → S → Type 0 where
    begins :
        {k : ℕ} {s : S}
        → ((i : ℕ)
            → i < plan.to_sectors * sector_size
            → cell s info.to.flash_device (info.to.hdr_start + i)
              ≡ cell s0 info.to.flash_device (info.to.hdr_start + i))
        → Along s0 swp_start k s
    raises :
        {k : ℕ} {s : S}
        → suc k ≤ plan.to_sectors
        → Lifted fl sums tc board mine area laws enc encrypts enc-lt info plan s0
            (suc k * sector_size)
            s
        → Along s0 move_up k s
    settles : {k : ℕ} {s : S} → Settled s0 (k * sector_size) s → Along s0 swp_p2 k s
    completes : {k : ℕ} {s : S} → Settled s0 (end_to info) s → Along s0 swp_p3 k s

  Lifted-Along :
      (s0 : S) (k : ℕ) (s : S)
      → plan.inplace ≡ true
      → suc k ≤ plan.to_sectors
      → Lifted fl sums tc board mine area laws enc encrypts enc-lt info plan s0 (k * sector_size) s
      → Along s0 (next plan move_up k).0 (next plan move_up k).1 s
  unfolding next
  Lifted-Along s0 zero s stays h r =
      subst (λ x. Along s0 x.0 x.1 s) (sym (next_last plan stays))
        (settles
          (record { back = λ i p. absurd (omega arith); above = λ i p. r.up i (omega arith) }))
  Lifted-Along s0 (suc k) s stays h r = raises (omega arith) r

  module _ {span : ℕ}
      (z : Slots fl sums tc board mine area laws enc encrypts enc-lt info plan true span)
      (one : IsInPlace info plan) (s0 s : S) (mcmd : ZbMoveCmd) (cmd : ZbCmd) (k : ℕ) where
    start-Along :
        ((i : ℕ)
          → i < plan.to_sectors * sector_size
          → cell s info.to.flash_device (info.to.hdr_start + i)
            ≡ cell s0 info.to.flash_device (info.to.hdr_start + i))
        → Along s0
            (next plan swp_start k).0
            (next plan swp_start k).1
            (proc_start fl sums tc board mine area s info mcmd true (command cmd swp_start k)).flash
    unfolding proc_start
    start-Along same =
        let enough = z.is_plan.to.enough in
        let some_there = one.some_there in
        let u = plan.to_sectors - 1 in
        let suc_u : suc u ≡ plan.to_sectors = omega arith in
        let all : suc u * sector_size ≡ plan.to_sectors * sector_size =
          ap (λ n. n * sector_size) suc_u in
        subst (λ x. Along s0 x.0 x.1 s) (sym (next_start plan k one))
          (raises (omega arith)
            (record { up = λ i p q. absurd (omega arith); place = λ i p. same i (omega arith) }))

    up-Along :
        suc k ≤ plan.to_sectors
        → k ≤ 255
        → Lifted fl sums tc board mine area laws enc encrypts enc-lt info plan s0
            (suc k * sector_size)
            s
        → Along s0
            (next plan move_up k).0
            (next plan move_up k).1
            (proc_move_up fl sums tc board mine area s info mcmd true (command cmd move_up k)).flash
    up-Along h few r =
        let s' =
          (proc_move_up fl sums tc board mine area s info mcmd true
            (command cmd move_up k)).flash in
        let moves =
          up-Transferred fl sums tc board mine area laws enc encrypts enc-lt info plan true z k s
            mcmd cmd (mul-le-mul_right sector_size h) few in
        Lifted-Along s0 k s' z.is_plan.stays h (
          up-Lifted fl sums tc board mine area laws enc encrypts enc-lt info plan true s0 s s' k
            mcmd moves r)

    p2-Settled :
        (s' : S)
        → k * sector_size < end_to info
        → Transferred fl tc board mine.buf laws enc encrypts enc-lt s s'
            (p2_cmd fl sums tc board mine area laws enc encrypts enc-lt info plan true k)
            (p2_len fl sums tc board mine area laws enc encrypts enc-lt info plan true k)
        → Settled s0 (k * sector_size) s
        → Settled s0 (suc k * sector_size) s'
    p2-Settled s' inside moves r =
        let o = k * sector_size in
        let v : suc k * sector_size ≡ o + sector_size = suc-mul k sector_size in
        let base_to = info.to.hdr_start in
        let base_fr = info.fr.hdr_start in
        let same = one.same_start in
        record {
          back = λ i p q. elim (Bool-cases (leb o i)) [
            | inl above ↦
                let at : base_fr + i ≡ base_fr + o + (i - o) = ground arith in
                let at' : base_to + o + sector_size + (i - o) ≡ base_to + (sector_size + i) =
                  ground arith in
                rw at (
                  moves.gets (i - o) (ground arith)
                  ∙ decrypted-up (enc info.to.enc_key) info.to.enc_start sector_size
                      (cell s info.to.flash_device) (cell s0 info.to.flash_device) (base_to + i)
                      (base_to + o + sector_size + (i - o)) (omega arith)
                      (rw at' (r.above i (ground arith) q)))
            | inr below ↦
                moves.keeps info.fr.flash_device (base_fr + i) (inr (inl (ground arith)))
                ∙ r.back i (ground arith) q
          ];
          above = λ i p q.
              moves.keeps info.to.flash_device (base_to + (sector_size + i))
                (inr (inr (omega arith)))
              ∙ r.above i (omega arith) q;
        }

    p2-Along :
        k ≤ 255
        → Settled s0 (k * sector_size) s
        → Along s0
            (next plan swp_p2 k).0
            (next plan swp_p2 k).1
            (proc_p2 fl sums tc board mine area s info mcmd true (command cmd swp_p2 k)).flash
    p2-Along few r =
        let s' =
          (proc_p2 fl sums tc board mine area s info mcmd true (command cmd swp_p2 k)).flash in
        let v : suc k * sector_size ≡ k * sector_size + sector_size = suc-mul k sector_size in
        elim (Bool-cases (leb plan.to_sectors k)) [
          | inl t ↦
              let behind = Sectors-behind k z.is_plan.to t in
              let kept : s' ≡ s =
                p2_behind fl sums tc board mine area laws enc encrypts enc-lt info plan true z k s
                  mcmd cmd behind few in
              subst (λ x. Along s0 x.0 x.1 s') (sym (next_done plan k one t))
                (subst (λ x. Along s0 swp_p3 k x) (sym kept)
                  (completes (record {
                    back = λ i _ q. r.back i (omega arith) q;
                    above = λ i p q. absurd (omega arith);
                  })))
          | inr t ↦
              let inside = Sectors-inside k z.is_plan.to t in
              let more = sector-lt k z.is_plan.to inside in
              let room = z.room_to in
              let fits = z.fr_fits in
              let same = one.same_start in
              let u : suc plan.to_sectors * sector_size
                  ≡ plan.to_sectors * sector_size + sector_size =
                suc-mul plan.to_sectors sector_size in
              let moves =
                p2-Transferred fl sums tc board mine area laws enc encrypts enc-lt info plan true z
                  k s mcmd cmd inside few (inr (inr (omega arith))) (omega arith) in
              subst (λ x. Along s0 x.0 x.1 s') (sym (next_left plan k z.is_plan.stays t))
                (settles (p2-Settled s' inside moves r))
        ]

    pub switch-Along :
        (p : Phase)
        → Moves p
        → k ≤ 255
        → Along s0 p k s
        → Along s0
            (next plan p k).0
            (next plan p k).1
            (switch fl sums tc board mine area s info mcmd true (command cmd p k)).flash
    unfolding switch
    switch-Along swp_start m few (begins same) = start-Along same
    switch-Along move_up m few (raises h r) = up-Along h few r
    switch-Along swp_p1 m few h = elim h [ ]
    switch-Along swp_p2 m few (settles r) = p2-Along few r
    switch-Along swp_p3 m few h = elim m [ ]
    switch-Along swp_p4 m few h = elim m [ ]
    switch-Along swp_end m few h = elim m [ ]

  abbrev pub Decrypted : S → S → Type 0
  Decrypted s0 s =
      cells (cell s info.fr.flash_device) info.fr.hdr_start (end_to info)
      ≡ cells (image_to fl sums tc board mine area laws enc encrypts enc-lt info plan s0)
          info.to.hdr_start (end_to info)

  pub Along-cases :
      (s0 : S) (p : Phase) (k : ℕ) (s : S)
      → Along s0 p k s
      → Moves p ⊎ ((p ≡ swp_p3) × Decrypted s0 s)
  Along-cases s0 swp_start k s h = inl starts
  Along-cases s0 move_up k s h = inl up
  Along-cases s0 swp_p1 k s h = inl first
  Along-cases s0 swp_p2 k s h = inl second
  Along-cases s0 swp_p3 k s (completes r) = inr (refl, cells_shift _ _ _ _ _ (λ i p. r.back i p p))
  Along-cases s0 swp_p4 k s h = elim h [ ]
  Along-cases s0 swp_end k s h = elim h [ ]

  -- The switch of zb_img_cmd_proc from the start of a swap in place, of an encrypted image that is
  -- not empty: if the
  -- slot has room for the image and for a sector above it, and lies in whole sectors of whole cipher
  -- blocks, then after at most as many turns of the switch as the bound says, phase 3 is reached, and
  -- the slot holds the image, decrypted.
  pub switches-Decrypted :
      {span : ℕ}
      → Slots fl sums tc board mine area laws enc encrypts enc-lt info plan true span
      → IsInPlace info plan
      → (s0 : S) (mcmd : ZbMoveCmd) (cmd : ZbCmd)
      → (m : ℕ) × (k : ℕ) × (m ≤ turns_left plan swp_start 0)
        × ((switches fl sums tc board mine area m s0 info mcmd true (command cmd swp_start 0)).cmd
            ≡ command cmd swp_p3 k)
        × (cells
              (cell
                (switches fl sums tc board mine area m s0 info mcmd true
                  (command cmd swp_start 0)).flash
                info.fr.flash_device)
              info.fr.hdr_start
              (end_to info)
            ≡ cells
                (decrypted (enc info.to.enc_key) info.to.enc_start (cell s0 info.to.flash_device))
                info.to.hdr_start
                (end_to info))
  switches-Decrypted z one s0 mcmd cmd =
      invariant-Arrives fl sums tc board mine area info true (Decrypted s0) plan z.is_plan
        (Along s0) (λ s mcmd' cmd' p k m few h. switch-Along z one s0 s mcmd' cmd' k p m few h)
        (Along-cases s0) (turns_left plan swp_start 0) s0 mcmd cmd swp_start 0 (omega arith)
        (omega arith) (begins (λ i p. refl))
