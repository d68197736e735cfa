-- ===== src/Swap/Halfway.antt =====
-- What the slots hold at a command of a swap, and that each command of zb_img_cmd_proc
-- (zepboot/src/zb_move.c) leads to the next such state.
use zepboot.Base.{
  ℕ, zero, suc, ◌+◌, ◌*◌, ◌^◌, ◌≤◌, ◌<◌, ◌≡◌, refl, sym, arith, true, false, ◌&&◌, List, byte_at,
  leb, leb→le, suc-mul, mul-le-mul_right,
}
use mathlib.Core.Path.{subst}
use zepboot.Platform.{Flash, Checksums}
use zepboot.Platform.Laws.{FlashLaws}
use zepboot.Board.{Board, ZbSltArea}
use zepboot.TinyCrypt.{TinyCrypt}
use zepboot.Aes.Stream.{Encrypts}
use zepboot.Move.{ZbImgSwpInfo}
use zepboot.Swap.{SwapLocals, end_fr, end_to}
use zepboot.Swap.Steps.{Phase, swp_start, move_up, swp_p1, swp_p2, swp_p3, Plan, next}
use zepboot.Swap.Order.{Sectors}
use zepboot.Swap.Content.{Raised, Exchanged, Raised-Exchanged}

-- An offset beyond the sectors of an image is beyond the image.
pub Sectors-behind : {s x n : ℕ} (k : ℕ) → Sectors s x n → leb n k ≡ true → x ≤ k * s
Sectors-behind {s} {x} {n} k z e =
    let m : n * s ≤ k * s = mul-le-mul_right s (leb→le n k e) in
    let enough = z.enough in omega arith

pub Sectors-inside : {s x n : ℕ} (k : ℕ) → Sectors s x n → leb n k ≡ false → k * s < x
Sectors-inside {s} {x} {n} k z e =
    let inside : suc k ≤ n = ground arith in
    let m : suc k * s ≤ n * s = mul-le-mul_right s inside in
    let v : suc k * s ≡ k * s + s = suc-mul k s in let least = z.least in omega arith

-- What follows phase 1 and phase 2.
pub next_p1_done :
    (plan : Plan) (k : ℕ)
    → leb plan.fr_sectors k ≡ true
    → leb plan.to_sectors k ≡ true
    → next plan swp_p1 k ≡ (swp_p3, k)
unfolding next
next_p1_done plan k f t = rw (f, t) refl

pub next_p1_left :
    (plan : Plan) (k : ℕ)
    → (leb plan.fr_sectors k && leb plan.to_sectors k) ≡ false
    → next plan swp_p1 k ≡ (swp_p2, k)
unfolding next
next_p1_left plan k e = rw e refl

pub next_p2_done :
    (plan : Plan) (k : ℕ)
    → leb plan.fr_sectors k ≡ true
    → leb plan.to_sectors k ≡ true
    → next plan swp_p2 k ≡ (swp_p3, k)
unfolding next
next_p2_done plan k f t = rw (f, t) refl

pub next_p2_left :
    (plan : Plan) (k : ℕ)
    → plan.inplace ≡ false
    → (leb plan.fr_sectors k && leb plan.to_sectors k) ≡ false
    → next plan swp_p2 k ≡ (swp_p1, suc k)
unfolding next
next_p2_left plan k stays e = ground (arith, stays)

module _ {S H : Type 0} (fl : Flash S) (sums : Checksums) (tc : TinyCrypt H) (board : Board)
    (mine : SwapLocals) (area : ZbSltArea) (laws : FlashLaws fl board.sector_size)
    (enc : List ℕ → List ℕ → List ℕ)
    (encrypts : (key : List ℕ) → Encrypts tc.aes_encrypt key (enc key))
    (enc-lt : (key block : List ℕ) (i : ℕ) → byte_at (enc key block) i < 2 ^ 8)
    (info : ZbImgSwpInfo) (plan : Plan) where
  open board use {sector_size}
  open laws use {cell}

  -- What the slots hold at a command of a swap that began with the flash `s0`.
  pub data Halfway (s0 : S) : Phase → ℕ → S → Type 0 where
    begins :
        {k : ℕ} {s : S}
        → ((i : ℕ)
            → i < plan.to_sectors * sector_size
            → cell s info.to.flash_device (info.to.hdr_start + i)
              ≡ cell s0 info.to.flash_device (info.to.hdr_start + i))
        → ((i : ℕ)
            → i < end_fr info
            → cell s info.fr.flash_device (info.fr.hdr_start + i)
              ≡ cell s0 info.fr.flash_device (info.fr.hdr_start + i))
        → Halfway s0 swp_start k s
    raises :
        {k : ℕ} {s : S}
        → suc k ≤ plan.to_sectors
        → Raised fl sums tc board mine area laws enc encrypts enc-lt info plan s0
            (suc k * sector_size)
            s
        → Halfway s0 move_up k s
    takes :
        {k : ℕ} {s : S}
        → Exchanged fl sums tc board mine area laws enc encrypts enc-lt info plan s0
            (k * sector_size)
            (k * sector_size)
            s
        → Halfway s0 swp_p1 k s
    gives :
        {k : ℕ} {s : S}
        → Exchanged fl sums tc board mine area laws enc encrypts enc-lt info plan s0
            (suc k * sector_size)
            (k * sector_size)
            s
        → Halfway s0 swp_p2 k s
    completes :
        {k : ℕ} {s : S}
        → Exchanged fl sums tc board mine area laws enc encrypts enc-lt info plan s0
            (end_fr info)
            (end_to info)
            s
        → Halfway s0 swp_p3 k s

  raises_last : plan.inplace ≡ false → next plan move_up 0 ≡ (swp_p1, 0)
  unfolding next
  raises_last stays = rw stays refl

  -- The sector below is next, or phase 1.
  pub Raised-Halfway :
      (s0 : S) (k : ℕ) (s : S)
      → plan.inplace ≡ false
      → suc k ≤ plan.to_sectors
      → Raised fl sums tc board mine area laws enc encrypts enc-lt info plan s0 (k * sector_size) s
      → Halfway s0 (next plan move_up k).0 (next plan move_up k).1 s
  unfolding next
  Raised-Halfway s0 zero s stays h r =
      let none : 0 * sector_size ≡ 0 = omega arith in
      let r0 =
        subst (λ o. Raised fl sums tc board mine area laws enc encrypts enc-lt info plan s0 o s)
          none r in
      subst (λ x. Halfway s0 x.0 x.1 s) (sym (raises_last stays))
        (takes (
          subst
            (λ o. Exchanged fl sums tc board mine area laws enc encrypts enc-lt info plan s0 o o s)
            (sym none)
            (Raised-Exchanged fl sums tc board mine area laws enc encrypts enc-lt info plan s0 s
              r0)))
  Raised-Halfway s0 (suc k) s stays h r = raises (omega arith) r

  -- An image that has no bytes from `k` sectors on.
  pub behind-Exchanged :
      (s0 s : S) (k : ℕ)
      → end_fr info ≤ k * sector_size
      → Exchanged fl sums tc board mine area laws enc encrypts enc-lt info plan s0
          (k * sector_size)
          (k * sector_size)
          s
      → Exchanged fl sums tc board mine area laws enc encrypts enc-lt info plan s0
          (suc k * sector_size)
          (k * sector_size)
          s
  behind-Exchanged s0 s k behind r =
      let v : suc k * sector_size ≡ k * sector_size + sector_size = suc-mul k sector_size in
      record {
        fr_in = λ i p q. r.fr_in i (omega arith) q;
        to_in = r.to_in;
        fr_left = λ i p q. r.fr_left i (omega arith) q;
        to_left = r.to_left;
      }

  pub behind_to-Exchanged :
      (s0 s : S) (k : ℕ)
      → end_to info ≤ k * sector_size
      → Exchanged fl sums tc board mine area laws enc encrypts enc-lt info plan s0
          (suc k * sector_size)
          (k * sector_size)
          s
      → Exchanged fl sums tc board mine area laws enc encrypts enc-lt info plan s0
          (suc k * sector_size)
          (suc k * sector_size)
          s
  behind_to-Exchanged s0 s k behind r =
      let v : suc k * sector_size ≡ k * sector_size + sector_size = suc-mul k sector_size in
      record {
        fr_in = r.fr_in;
        to_in = λ i p q. r.to_in i (omega arith) q;
        fr_left = r.fr_left;
        to_left = λ i p q. r.to_left i (omega arith) q;
      }
