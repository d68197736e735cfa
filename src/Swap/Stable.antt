-- ===== src/Swap/Stable.antt =====
-- What the slots hold in the middle of a swap (zb_img_cmd_proc in zepboot/src/zb_move.c) depends on the
-- cells of the slots only.
use zepboot.Base.{
  ℕ, ◌+◌, ◌*◌, ◌^◌, ◌≤◌, ◌<◌, ◌≡◌, ◌∙◌, arith, false, List, byte_at, suc-mul, mul-le-mul_right,
}
use zepboot.Base.Ranges.{cells_shift}
use zepboot.Platform.{Flash, Checksums}
use zepboot.Platform.Laws.{FlashLaws}
use zepboot.Board.{Board, ZbSltArea}
use zepboot.TinyCrypt.{TinyCrypt}
use zepboot.Aes.Stream.{Encrypts}
use zepboot.Move.{ZbImgSwpInfo}
use zepboot.Move.Paste.{Apart}
use zepboot.Swap.{SwapLocals, end_fr, end_to}
use zepboot.Swap.Steps.{Phase, Plan}
use zepboot.Swap.Slots.{Slots}
use zepboot.Swap.Content.{Exchanged}
use zepboot.Swap.Halfway.{Halfway, begins, raises, takes, gives, completes}
use zepboot.Swap.Exchange.{Swapped}

module _ {S H : Type 0} (fl : Flash S) (sums : Checksums) (tc : TinyCrypt H) (board : Board)
    (mine : SwapLocals) (area : ZbSltArea) (laws : FlashLaws fl board.sector_size)
    (enc : List ℕ → List ℕ → List ℕ)
    (encrypts : (key : List ℕ) → Encrypts tc.aes_encrypt key (enc key))
    (enc-lt : (key block : List ℕ) (i : ℕ) → byte_at (enc key block) i < 2 ^ 8)
    (info : ZbImgSwpInfo) (plan : Plan) {span : ℕ}
    (z : Slots fl sums tc board mine area laws enc encrypts enc-lt info plan false span)
    (apart : Apart info.to.flash_device info.to.hdr_start info.fr.flash_device info.fr.hdr_start
      span)
    (s0 : S) where
  open board use {sector_size}
  open laws use {cell}

  -- Two states with the same slots.
  pub record SameSlots (s s' : S) : Type 0 where
    pub to :
        (i : ℕ)
        → i < span
        → cell s' info.to.flash_device (info.to.hdr_start + i)
          ≡ cell s info.to.flash_device (info.to.hdr_start + i)
    pub fr :
        (i : ℕ)
        → i < span
        → cell s' info.fr.flash_device (info.fr.hdr_start + i)
          ≡ cell s info.fr.flash_device (info.fr.hdr_start + i)

  -- Both images, the one to swap out also a sector up, lie in their slots.
  pub fit_slots :
      (plan.to_sectors * sector_size + sector_size ≤ span)
      × (end_fr info ≤ span)
      × (end_to info ≤ plan.to_sectors * sector_size)
  fit_slots =
      let u = suc-mul plan.to_sectors sector_size in
      let room = z.room_to in
      let room_fr = z.room_fr in
      let enough = z.is_plan.fr.enough in
      let enough_to = z.is_plan.to.enough in (omega arith, omega arith, omega arith)

  Exchanged-SameSlots :
      (p q : ℕ) (s s' : S)
      → SameSlots s s'
      → Exchanged fl sums tc board mine area laws enc encrypts enc-lt info plan s0 p q s
      → Exchanged fl sums tc board mine area laws enc encrypts enc-lt info plan s0 p q s'
  Exchanged-SameSlots p q s s' same r =
      let fit = fit_slots in
      record {
        fr_in = λ i a b. same.to i (omega arith) ∙ r.fr_in i a b;
        to_in = λ i a b. same.fr i (omega arith) ∙ r.to_in i a b;
        fr_left = λ i a b. same.fr i (omega arith) ∙ r.fr_left i a b;
        to_left = λ i a b. same.to (sector_size + i) (omega arith) ∙ r.to_left i a b;
      }

  pub Halfway-SameSlots :
      (p : Phase) (k : ℕ) (s s' : S)
      → SameSlots s s'
      → Halfway fl sums tc board mine area laws enc encrypts enc-lt info plan s0 p k s
      → Halfway fl sums tc board mine area laws enc encrypts enc-lt info plan s0 p k s'
  Halfway-SameSlots p k s s' same (begins to fr) =
      let fit = fit_slots in
      begins (λ i h. same.to i (omega arith) ∙ to i h) (λ i h. same.fr i (omega arith) ∙ fr i h)
  Halfway-SameSlots p k s s' same (raises h r) =
      let fit = fit_slots in
      let more = mul-le-mul_right sector_size h in
      raises h (record {
        lifted = record {
          up = λ i a b. same.to (sector_size + i) (omega arith) ∙ r.lifted.up i a b;
          place = λ i a. same.to i (omega arith) ∙ r.lifted.place i a;
        };
        waits = λ i a. same.fr i (omega arith) ∙ r.waits i a;
      })
  Halfway-SameSlots p k s s' same (takes r) = takes (Exchanged-SameSlots _ _ s s' same r)
  Halfway-SameSlots p k s s' same (gives r) = gives (Exchanged-SameSlots _ _ s s' same r)
  Halfway-SameSlots p k s s' same (completes r) = completes (Exchanged-SameSlots _ _ s s' same r)

  pub Swapped-SameSlots :
      (s s' : S)
      → SameSlots s s'
      → Swapped fl sums tc board mine area laws enc encrypts enc-lt info plan z apart s0 s
      → Swapped fl sums tc board mine area laws enc encrypts enc-lt info plan z apart s0 s'
  Swapped-SameSlots s s' same h =
      let fit = fit_slots in
      (
        cells_shift _ _ _ _ _ (λ i p. same.to i (omega arith)) ∙ h.0,
        cells_shift _ _ _ _ _ (λ i p. same.fr i (omega arith)) ∙ h.1,
      )
