-- ===== src/Swap/Content.antt =====
-- What the two slots hold in the middle of a swap (zb_img_cmd_proc in zepboot/src/zb_move.c), and how
-- an erase and a move of a sector carry it on.
use zepboot.Base.{
  ℕ, suc, ◌+◌, ◌-◌, ◌*◌, ◌^◌, ◌≤◌, ◌<◌, ◌≡◌, ◌∙◌, arith, false, List, byte_at, inl, inr, leb,
  Bool-cases, suc-mul,
}
use mathlib.Core.Path.{subst}
use zepboot.Platform.{Flash, Checksums, Device}
use zepboot.Platform.Laws.{FlashLaws}
use zepboot.Board.{Board, ZbSltArea}
use zepboot.TinyCrypt.{TinyCrypt}
use zepboot.Aes.Stream.{Encrypts}
use zepboot.Move.{ZbMoveCmd, ZbImgSwpInfo}
use zepboot.Move.Chunk.{decrypted}
use zepboot.Move.Paste.{Apart}
use zepboot.Swap.{SwapLocals, end_fr, end_to}
use zepboot.Swap.Steps.{Plan}
use zepboot.Swap.Sector.{Outside, Transferred}
use zepboot.Swap.Lift.{Lifted, up-Lifted, decrypted-up}
use zepboot.Swap.Slots.{Slots, Apart-sym, up_cmd, p1_cmd, p1_len, p2_cmd, p2_len}

pub Outside-parts :
    (dev base to_dev to span y i sector : ℕ)
    → y + sector ≤ span
    → i < span
    → Apart dev base to_dev to span
    → Outside to_dev (to + y) sector dev (base + i)
Outside-parts dev base to_dev to span y i sector p q (inl ne) = inl ne
Outside-parts dev base to_dev to span y i sector p q (inr (inl before)) = inr (inl (omega arith))
Outside-parts dev base to_dev to span y i sector p q (inr (inr behind)) = inr (inr (omega arith))

module _ {S H : Type 0} (fl : Flash S) (sums : Checksums) (tc : TinyCrypt H) (board : Board)
    (mine : SwapLocals) (area : ZbSltArea) (laws : FlashLaws fl board.sector_size)
    (enc : List ℕ → List ℕ → List ℕ)
    (encrypts : (key : List ℕ) → Encrypts tc.aes_encrypt key (enc key))
    (enc-lt : (key block : List ℕ) (i : ℕ) → byte_at (enc key block) i < 2 ^ 8)
    (info : ZbImgSwpInfo) (plan : Plan) where
  open board use {sector_size}
  open laws use {cell}

  abbrev pub dev_to : Device
  dev_to = info.to.flash_device

  abbrev pub dev_fr : Device
  dev_fr = info.fr.flash_device

  abbrev pub base_to : ℕ
  base_to = info.to.hdr_start

  abbrev pub base_fr : ℕ
  base_fr = info.fr.hdr_start

  -- The images as they are to be after the swap, the encrypted parts decrypted, at the offsets where
  -- they were before it.
  abbrev pub image_fr : S → ℕ → ℕ
  image_fr s = decrypted (enc info.fr.enc_key) info.fr.enc_start (cell s dev_fr)

  abbrev pub image_to : S → ℕ → ℕ
  image_to s = decrypted (enc info.to.enc_key) info.to.enc_start (cell s dev_to)

  -- While the image to swap out is moved up, the other one waits.
  pub record Raised (s0 : S) (o : ℕ) (s : S) : Type 0 where
    pub lifted : Lifted fl sums tc board mine area laws enc encrypts enc-lt info plan s0 o s
    pub waits :
        (i : ℕ) → i < end_fr info → cell s dev_fr (base_fr + i) ≡ cell s0 dev_fr (base_fr + i)

  -- While the images are exchanged: the first `p` bytes of the one, and the first `q` bytes of the
  -- other have arrived, and the rest has not been touched, that of the image to swap out a sector up.
  pub record Exchanged (s0 : S) (p q : ℕ) (s : S) : Type 0 where
    pub fr_in :
        (i : ℕ) → i < p → i < end_fr info → cell s dev_to (base_to + i) ≡ image_fr s0 (base_fr + i)
    pub to_in :
        (i : ℕ) → i < q → i < end_to info → cell s dev_fr (base_fr + i) ≡ image_to s0 (base_to + i)
    pub fr_left :
        (i : ℕ)
        → p ≤ i
        → i < end_fr info
        → cell s dev_fr (base_fr + i) ≡ cell s0 dev_fr (base_fr + i)
    pub to_left :
        (i : ℕ)
        → q ≤ i
        → i < end_to info
        → cell s dev_to (base_to + (sector_size + i)) ≡ cell s0 dev_to (base_to + i)

  pub Raised-Exchanged : (s0 s : S) → Raised s0 0 s → Exchanged s0 0 0 s
  Raised-Exchanged s0 s h = record {
    fr_in = λ i p. absurd (omega arith);
    to_in = λ i p. absurd (omega arith);
    fr_left = λ i _. h.waits i;
    to_left = λ i _. h.lifted.up i (omega arith);
  }

  -- Nothing is left.
  pub done-Exchanged :
      (s0 : S) (p q : ℕ) (s : S)
      → end_fr info ≤ p
      → end_to info ≤ q
      → Exchanged s0 p q s
      → Exchanged s0 (end_fr info) (end_to info) s
  done-Exchanged s0 p q s f t h = record {
    fr_in = λ i _ inside. h.fr_in i (omega arith) inside;
    to_in = λ i _ inside. h.to_in i (omega arith) inside;
    fr_left = λ i behind inside. absurd (omega arith);
    to_left = λ i behind inside. absurd (omega arith);
  }

  module _ {span : ℕ}
      (z : Slots fl sums tc board mine area laws enc encrypts enc-lt info plan false span)
      (apart : Apart dev_to base_to dev_fr base_fr span) (s0 s s' : S) (k : ℕ) where
    to_inside : {i : ℕ} → i < end_to info → i < span
    to_inside p =
        let u : suc plan.to_sectors * sector_size ≡ plan.to_sectors * sector_size + sector_size =
          suc-mul plan.to_sectors sector_size in
        let room = z.room_to in let enough = z.is_plan.to.enough in omega arith

    end_to_fits :
        suc k * sector_size ≤ plan.to_sectors * sector_size
        → (k * sector_size + sector_size + sector_size ≤ span) × (end_to info + sector_size ≤ span)
    end_to_fits h =
        let u : suc plan.to_sectors * sector_size ≡ plan.to_sectors * sector_size + sector_size =
          suc-mul plan.to_sectors sector_size in
        let v : suc k * sector_size ≡ k * sector_size + sector_size = suc-mul k sector_size in
        let room = z.room_to in let enough = z.is_plan.to.enough in (omega arith, omega arith)

    pub up-Raised :
        (mcmd : ZbMoveCmd)
        → suc k * sector_size ≤ plan.to_sectors * sector_size
        → Transferred fl tc board mine.buf laws enc encrypts enc-lt s s'
            (up_cmd fl sums tc board mine area laws enc encrypts enc-lt info plan false mcmd k)
            sector_size
        → Raised s0 (suc k * sector_size) s
        → Raised s0 (k * sector_size) s'
    up-Raised mcmd h moves r =
        let o = k * sector_size in
        let v : suc k * sector_size ≡ o + sector_size = suc-mul k sector_size in
        let fits = end_to_fits h in
        let room_fr = z.room_fr in
        let enough = z.is_plan.fr.enough in
        record {
          lifted =
              up-Lifted fl sums tc board mine area laws enc encrypts enc-lt info plan false s0 s s'
                k mcmd moves r.lifted;
          waits = λ i inside.
              moves.keeps dev_fr (base_fr + i) (
                subst (λ x. Outside dev_to x sector_size dev_fr (base_fr + i)) (omega arith)
                  (Outside-parts dev_fr base_fr dev_to base_to span (o + sector_size) i sector_size
                    (omega arith) (omega arith)
                    (Apart-sym dev_to base_to dev_fr base_fr span apart)))
              ∙ r.waits i inside;
        }

    pub p1-Exchanged :
        k * sector_size < end_fr info
        → suc k * sector_size ≤ plan.fr_sectors * sector_size
        → Transferred fl tc board mine.buf laws enc encrypts enc-lt s s'
            (p1_cmd fl sums tc board mine area laws enc encrypts enc-lt info plan false k)
            (p1_len fl sums tc board mine area laws enc encrypts enc-lt info plan false k)
        → Exchanged s0 (k * sector_size) (k * sector_size) s
        → Exchanged s0 (suc k * sector_size) (k * sector_size) s'
    p1-Exchanged inside h moves r =
        let o = k * sector_size in
        let v : suc k * sector_size ≡ o + sector_size = suc-mul k sector_size in
        let room_fr = z.room_fr in
        let enough = z.is_plan.fr.enough in
        let stays : (i : ℕ)
            → i < span
            → cell s' dev_fr (base_fr + i) ≡ cell s dev_fr (base_fr + i) =
          λ i q. moves.keeps dev_fr (base_fr + i) (
            Outside-parts dev_fr base_fr dev_to base_to span o i sector_size (omega arith)
              (omega arith) (Apart-sym dev_to base_to dev_fr base_fr span apart)) in
        record {
          fr_in = λ i p q. elim (Bool-cases (leb o i)) [
            | inl above ↦
                let at : base_to + i ≡ base_to + o + (i - o) = ground arith in
                let at' : base_fr + o + (i - o) ≡ base_fr + i = ground arith in
                rw at (
                  moves.gets (i - o) (ground arith)
                  ∙ ground (arith, at', r.fr_left i (ground arith) q))
            | inr below ↦
                moves.keeps dev_to (base_to + i) (inr (inl (ground arith)))
                ∙ r.fr_in i (ground arith) q
          ];
          to_in = λ i p q. stays i (to_inside q) ∙ r.to_in i p q;
          fr_left = λ i p q. stays i (omega arith) ∙ r.fr_left i (omega arith) q;
          to_left = λ i p q.
              moves.keeps dev_to (base_to + (sector_size + i)) (inr (inr (omega arith)))
              ∙ r.to_left i p q;
        }

    pub p2-Exchanged :
        k * sector_size < end_to info
        → suc k * sector_size ≤ plan.to_sectors * sector_size
        → Transferred fl tc board mine.buf laws enc encrypts enc-lt s s'
            (p2_cmd fl sums tc board mine area laws enc encrypts enc-lt info plan false k)
            (p2_len fl sums tc board mine area laws enc encrypts enc-lt info plan false k)
        → Exchanged s0 (suc k * sector_size) (k * sector_size) s
        → Exchanged s0 (suc k * sector_size) (suc k * sector_size) s'
    p2-Exchanged inside h moves r =
        let o = k * sector_size in
        let v : suc k * sector_size ≡ o + sector_size = suc-mul k sector_size in
        let fits = end_to_fits h in
        let room_fr = z.room_fr in
        let enough = z.is_plan.fr.enough in
        let stays : (i : ℕ)
            → i < span
            → cell s' dev_to (base_to + i) ≡ cell s dev_to (base_to + i) =
          λ i q. moves.keeps dev_to (base_to + i) (
            Outside-parts dev_to base_to dev_fr base_fr span o i sector_size (omega arith) q
              apart) in
        record {
          fr_in = λ i p q. stays i (omega arith) ∙ r.fr_in i p q;
          to_in = λ i p q. elim (Bool-cases (leb o i)) [
            | inl above ↦
                let at : base_fr + i ≡ base_fr + o + (i - o) = ground arith in
                let at' : base_to + o + sector_size + (i - o) ≡ base_to + (sector_size + i) =
                  ground arith in
                rw at (
                  moves.gets (i - o) (ground arith)
                  ∙ decrypted-up (enc info.to.enc_key) info.to.enc_start sector_size (cell s dev_to)
                      (cell s0 dev_to) (base_to + i) (base_to + o + sector_size + (i - o))
                      (omega arith) (rw at' (r.to_left i (ground arith) q)))
            | inr below ↦
                moves.keeps dev_fr (base_fr + i) (inr (inl (ground arith)))
                ∙ r.to_in i (ground arith) q
          ];
          fr_left =
              λ i p q. moves.keeps dev_fr (base_fr + i) (inr (inr (omega arith))) ∙ r.fr_left i p q;
          to_left = λ i p q. stays (sector_size + i) (omega arith) ∙ r.to_left i (omega arith) q;
        }
