-- ===== src/Swap/Turns.antt =====
-- Each command of a swap that is not in place leads from what the slots hold to what they are to hold
-- next (zb_img_cmd_proc in zepboot/src/zb_move.c).
use zepboot.Base.{
  ℕ, suc, ◌+◌, ◌-◌, ◌*◌, ◌^◌, ◌≤◌, ◌<◌, ◌≡◌, refl, sym, ap, arith, false, List, byte_at, inl, inr,
  leb, Bool-cases, suc-mul, mul-le-mul_right, ne→==, eq→==,
}
use native.Mathlib.Decide.{ℕ_discrete}
use mathlib.Core.Path.{subst}
use zepboot.Platform.{Flash, Checksums}
use zepboot.Platform.Laws.{FlashLaws}
use zepboot.Board.{Board, ZbSltArea}
use zepboot.TinyCrypt.{TinyCrypt}
use zepboot.Aes.Stream.{Encrypts}
use zepboot.Cmd.{ZbCmd}
use zepboot.Move.{ZbMoveCmd, ZbImgSwpInfo}
use zepboot.Move.Paste.{Apart}
use zepboot.Swap.{SwapLocals, end_fr, end_to}
use zepboot.Swap.Proc.{proc_start, proc_move_up, proc_p1, proc_p2}
use zepboot.Swap.Steps.{swp_start, move_up, swp_p1, swp_p2, Plan, next}
use zepboot.Swap.Order.{command}
use zepboot.Swap.Slots.{Slots, sector-lt, Apart-parts}
use zepboot.Swap.Transfers.{up-Transferred, p1-Transferred, p1_behind, p2-Transferred, p2_behind}
use zepboot.Swap.Content.{Raised, Exchanged, done-Exchanged, up-Raised, p1-Exchanged, p2-Exchanged}
use zepboot.Swap.Halfway.{
  Halfway, raises, takes, gives, completes, Sectors-behind, Sectors-inside, next_p1_done,
  next_p1_left, next_p2_done, next_p2_left, Raised-Halfway, behind-Exchanged, behind_to-Exchanged,
}

module _ {S H : Type 0} (fl : Flash S) (sums : Checksums) (tc : TinyCrypt H) (board : Board)
    (mine : SwapLocals) (area : ZbSltArea) (laws : FlashLaws fl board.sector_size)
    (enc : List ℕ → List ℕ → List ℕ)
    (encrypts : (key : List ℕ) → Encrypts tc.aes_encrypt key (enc key))
    (enc-lt : (key block : List ℕ) (i : ℕ) → byte_at (enc key block) i < 2 ^ 8)
    (info : ZbImgSwpInfo) (plan : Plan) where
  open board use {sector_size}
  open laws use {cell}

  module _ {span : ℕ}
      (z : Slots fl sums tc board mine area laws enc encrypts enc-lt info plan false span)
      (apart : Apart info.to.flash_device info.to.hdr_start info.fr.flash_device info.fr.hdr_start
        span)
      (s0 s : S) (mcmd : ZbMoveCmd) (cmd : ZbCmd) (k : ℕ) where
    pub start-Halfway :
        ((i : ℕ)
          → i < plan.to_sectors * sector_size
          → cell s info.to.flash_device (info.to.hdr_start + i)
            ≡ cell s0 info.to.flash_device (info.to.hdr_start + i))
        → ((i : ℕ)
            → i < end_fr info
            → cell s info.fr.flash_device (info.fr.hdr_start + i)
              ≡ cell s0 info.fr.flash_device (info.fr.hdr_start + i))
        → Halfway fl sums tc board mine area laws enc encrypts enc-lt info plan s0
            (next plan swp_start k).0
            (next plan swp_start k).1
            (proc_start fl sums tc board mine area s info mcmd false
              (command cmd swp_start k)).flash
    unfolding proc_start next
    start-Halfway same_to same_fr =
        let enough = z.is_plan.to.enough in
        let stays = z.is_plan.stays in
        elim (ℕ_discrete plan.to_sectors 0) [
          | yes e ↦
              let none_there : end_to info ≤ 0 * sector_size =
                subst (λ n. end_to info ≤ n * sector_size) e enough in
              rw (z.is_plan.stays, eq→== plan.to_sectors 0 e)
                (takes (record {
                  fr_in = λ i p. absurd (omega arith);
                  to_in = λ i p. absurd (omega arith);
                  fr_left = λ i p q. same_fr i q;
                  to_left = λ i p q. absurd (omega arith);
                }))
          | no ne ↦
              let u = plan.to_sectors - 1 in
              let suc_u : suc u ≡ plan.to_sectors = omega arith in
              let follows : next plan swp_start k ≡ (move_up, u) =
                rw (z.is_plan.stays, ne→== plan.to_sectors 0 ne, next) refl in
              let all : suc u * sector_size ≡ plan.to_sectors * sector_size =
                ap (λ n. n * sector_size) suc_u in
              subst
                (λ x.
                  Halfway fl sums tc board mine area laws enc encrypts enc-lt info plan s0 x.0 x.1
                    s)
                (sym follows)
                (raises (omega arith) (record {
                  lifted = record {
                    up = λ i p q. absurd (omega arith);
                    place = λ i p. same_to i (omega arith);
                  };
                  waits = same_fr;
                }))
        ]

    pub up-Halfway :
        suc k ≤ plan.to_sectors
        → k ≤ 255
        → Raised fl sums tc board mine area laws enc encrypts enc-lt info plan s0
            (suc k * sector_size)
            s
        → Halfway fl sums tc board mine area laws enc encrypts enc-lt info plan s0
            (next plan move_up k).0
            (next plan move_up k).1
            (proc_move_up fl sums tc board mine area s info mcmd false
              (command cmd move_up k)).flash
    up-Halfway h few r =
        let s' =
          (proc_move_up fl sums tc board mine area s info mcmd false
            (command cmd move_up k)).flash in
        let moves =
          up-Transferred fl sums tc board mine area laws enc encrypts enc-lt info plan false z k s
            mcmd cmd (mul-le-mul_right sector_size h) few in
        let r' =
          up-Raised fl sums tc board mine area laws enc encrypts enc-lt info plan z apart s0 s s' k
            mcmd (mul-le-mul_right sector_size h) moves r in
        Raised-Halfway fl sums tc board mine area laws enc encrypts enc-lt info plan s0 k s'
          z.is_plan.stays h r'

    pub p1-Halfway :
        k ≤ 255
        → Exchanged fl sums tc board mine area laws enc encrypts enc-lt info plan s0
            (k * sector_size)
            (k * sector_size)
            s
        → Halfway fl sums tc board mine area laws enc encrypts enc-lt info plan s0
            (next plan swp_p1 k).0
            (next plan swp_p1 k).1
            (proc_p1 fl sums tc board mine area s info mcmd (command cmd swp_p1 k)).flash
    p1-Halfway few r =
        let s' = (proc_p1 fl sums tc board mine area s info mcmd (command cmd swp_p1 k)).flash in
        elim (Bool-cases (leb plan.fr_sectors k)) [
          | inl f ↦
              let behind = Sectors-behind k z.is_plan.fr f in
              let kept : s' ≡ s =
                p1_behind fl sums tc board mine area laws enc encrypts enc-lt info plan false z k s
                  mcmd cmd behind few in
              subst
                (λ x.
                  Halfway fl sums tc board mine area laws enc encrypts enc-lt info plan s0
                    (next plan swp_p1 k).0 (next plan swp_p1 k).1 x)
                (sym kept)
                (elim (Bool-cases (leb plan.to_sectors k)) [
                  | inl t ↦
                      subst
                        (λ x.
                          Halfway fl sums tc board mine area laws enc encrypts enc-lt info plan s0
                            x.0 x.1 s)
                        (sym (next_p1_done plan k f t))
                        (completes (
                          done-Exchanged fl sums tc board mine area laws enc encrypts enc-lt info
                            plan s0 (k * sector_size) (k * sector_size) s behind
                            (Sectors-behind k z.is_plan.to t) r))
                  | inr t ↦
                      subst
                        (λ x.
                          Halfway fl sums tc board mine area laws enc encrypts enc-lt info plan s0
                            x.0 x.1 s)
                        (sym (next_p1_left plan k (rw (f, t) refl)))
                        (gives (
                          behind-Exchanged fl sums tc board mine area laws enc encrypts enc-lt info
                            plan s0 s k behind r))
                ])
          | inr f ↦
              let inside = Sectors-inside k z.is_plan.fr f in
              let moves =
                p1-Transferred fl sums tc board mine area laws enc encrypts enc-lt info plan false z
                  k s mcmd cmd inside few apart in
              subst
                (λ x.
                  Halfway fl sums tc board mine area laws enc encrypts enc-lt info plan s0 x.0 x.1
                    s')
                (sym (next_p1_left plan k (rw f refl)))
                (gives (
                  p1-Exchanged fl sums tc board mine area laws enc encrypts enc-lt info plan z apart
                    s0 s s' k inside (sector-lt k z.is_plan.fr inside) moves r))
        ]

    pub p2-Halfway :
        k ≤ 255
        → Exchanged fl sums tc board mine area laws enc encrypts enc-lt info plan s0
            (suc k * sector_size)
            (k * sector_size)
            s
        → Halfway fl sums tc board mine area laws enc encrypts enc-lt info plan s0
            (next plan swp_p2 k).0
            (next plan swp_p2 k).1
            (proc_p2 fl sums tc board mine area s info mcmd false (command cmd swp_p2 k)).flash
    p2-Halfway few r =
        let s' =
          (proc_p2 fl sums tc board mine area s info mcmd false (command cmd swp_p2 k)).flash in
        let v : suc k * sector_size ≡ k * sector_size + sector_size = suc-mul k sector_size in
        elim (Bool-cases (leb plan.to_sectors k)) [
          | inl t ↦
              let behind = Sectors-behind k z.is_plan.to t in
              let kept : s' ≡ s =
                p2_behind fl sums tc board mine area laws enc encrypts enc-lt info plan false z k s
                  mcmd cmd behind few in
              subst
                (λ x.
                  Halfway fl sums tc board mine area laws enc encrypts enc-lt info plan s0
                    (next plan swp_p2 k).0 (next plan swp_p2 k).1 x)
                (sym kept)
                (elim (Bool-cases (leb plan.fr_sectors k)) [
                  | inl f ↦
                      let behind_fr = Sectors-behind k z.is_plan.fr f in
                      subst
                        (λ x.
                          Halfway fl sums tc board mine area laws enc encrypts enc-lt info plan s0
                            x.0 x.1 s)
                        (sym (next_p2_done plan k f t))
                        (completes (
                          done-Exchanged fl sums tc board mine area laws enc encrypts enc-lt info
                            plan s0 (suc k * sector_size) (k * sector_size) s (omega arith) behind
                            r))
                  | inr f ↦
                      subst
                        (λ x.
                          Halfway fl sums tc board mine area laws enc encrypts enc-lt info plan s0
                            x.0 x.1 s)
                        (sym (next_p2_left plan k z.is_plan.stays (rw (f) refl)))
                        (takes (
                          behind_to-Exchanged fl sums tc board mine area laws enc encrypts enc-lt
                            info plan s0 s k behind r))
                ])
          | inr t ↦
              let inside = Sectors-inside k z.is_plan.to t in
              let more = sector-lt k z.is_plan.to inside in
              let room = z.room_to in
              let fr_fits = z.fr_fits in
              let u : suc plan.to_sectors * sector_size
                  ≡ plan.to_sectors * sector_size + sector_size =
                suc-mul plan.to_sectors sector_size in
              let at : info.to.hdr_start + (k * sector_size + sector_size)
                  ≡ info.to.hdr_start + k * sector_size + sector_size =
                omega arith in
              let parts =
                Apart-parts info.to.flash_device info.to.hdr_start info.fr.flash_device
                  info.fr.hdr_start span (k * sector_size + sector_size) (k * sector_size)
                  sector_size (omega arith) (omega arith) apart in
              let moves =
                p2-Transferred fl sums tc board mine area laws enc encrypts enc-lt info plan false z
                  k s mcmd cmd inside few
                  (subst
                    (λ x.
                      Apart info.to.flash_device x info.fr.flash_device
                        (info.fr.hdr_start + k * sector_size) sector_size)
                    at parts)
                  (omega arith) in
              subst
                (λ x.
                  Halfway fl sums tc board mine area laws enc encrypts enc-lt info plan s0 x.0 x.1
                    s')
                (sym (next_p2_left plan k z.is_plan.stays (ground arith)))
                (takes (
                  p2-Exchanged fl sums tc board mine area laws enc encrypts enc-lt info plan z apart
                    s0 s s' k inside more moves r))
        ]
