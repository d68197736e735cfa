-- ===== src/Swap/Classic.antt =====
-- What a swap that is not in place keeps before phase 3, as an invariant of the loop of zb_img_cmd_proc
-- (zepboot/src/zb_move.c).
use zepboot.Base.{ℕ, ◌+◌, ◌^◌, ◌<◌, ◌≡◌, false, List, byte_at}
use zepboot.Platform.{Flash, Checksums}
use zepboot.Platform.Laws.{FlashLaws}
use zepboot.Board.{Board, ZbSltArea}
use zepboot.TinyCrypt.{TinyCrypt}
use zepboot.Aes.Stream.{Encrypts}
use zepboot.Cmd.{ZbCmd, CmdLoc}
use zepboot.Move.{ZbImgSwpInfo}
use zepboot.Move.Paste.{Apart}
use zepboot.Swap.{SwapLocals}
use zepboot.Swap.Steps.{Plan}
use zepboot.Swap.Slots.{Slots}
use zepboot.Swap.Layout.{Layout, Disjoint, Disjoint-sym, Disjoint-Outside, untouched}
use zepboot.Swap.Loop.{stored}
use zepboot.Swap.Halfway.{Halfway}
use zepboot.Swap.Exchange.{switch-Halfway, Swapped, Halfway-cases}
use zepboot.Swap.Stable.{SameSlots, Halfway-SameSlots, Swapped-SameSlots}
use zepboot.Swap.Frame.{switch-OffSlots}
use zepboot.Swap.Sector.{Outside}
use zepboot.Swap.Kept.{Upholds}

module _ {S H : Type 0} (fl : Flash S) (sums : Checksums) (tc : TinyCrypt H) (board : Board)
    (mine : SwapLocals) (area : ZbSltArea) (laws : FlashLaws fl board.sector_size)
    (enc : List ℕ → List ℕ → List ℕ)
    (encrypts : (key : List ℕ) → Encrypts tc.aes_encrypt key (enc key))
    (enc-lt : (key block : List ℕ) (i : ℕ) → byte_at (enc key block) i < 2 ^ 8)
    (info : ZbImgSwpInfo) (plan : Plan) {span : ℕ}
    (z : Slots fl sums tc board mine area laws enc encrypts enc-lt info plan false span)
    (apart : Apart info.to.flash_device info.to.hdr_start info.fr.flash_device info.fr.hdr_start
      span)
    (status : CmdLoc) (layout : Layout board area info span status) (c : ZbCmd) (s0 : S) where
  open laws use {cell}

  -- A change of one run that is apart from both slots.
  apart-SameSlots :
      (s s' : S) {dev b m : ℕ}
      → ((e i : ℕ) → Outside dev b m e i → cell s' e i ≡ cell s e i)
      → Disjoint info.to.flash_device info.to.hdr_start span dev b m
      → Disjoint info.fr.flash_device info.fr.hdr_start span dev b m
      → SameSlots fl sums tc board mine area laws enc encrypts enc-lt info plan z apart s0 s s'
  apart-SameSlots s s' same to fr = record {
    to = untouched board area laws s s' same to;
    fr = untouched board area laws s s' same fr;
  }

  pub Halfway-Upholds :
      Upholds fl sums tc board mine area laws info plan false c status
        (Halfway fl sums tc board mine area laws enc encrypts enc-lt info plan s0)
        (Swapped fl sums tc board mine area laws enc encrypts enc-lt info plan z apart s0)
  Halfway-Upholds = record {
    cases = Halfway-cases fl sums tc board mine area laws enc encrypts enc-lt info plan z apart s0;
    turns = λ s mcmd p k m few h. (
      switch-Halfway fl sums tc board mine area laws enc encrypts enc-lt info plan z apart s0 s mcmd
          (stored sums false c p k) p k m few h,
      λ i q.
          switch-OffSlots fl sums tc board mine area laws enc encrypts enc-lt info plan z apart s0 s
            mcmd (stored sums false c p k) k few p m h status.fl_dev (status.start + i)
            (
              Disjoint-Outside i (Disjoint-sym layout.to.log) q,
              Disjoint-Outside i (Disjoint-sym layout.fr.log) q,
            ),
    );
    half_status = λ p k s s' only.
        Halfway-SameSlots fl sums tc board mine area laws enc encrypts enc-lt info plan z apart s0 p
          k s s' (apart-SameSlots s s' only layout.to.log layout.fr.log);
    good_status = λ s s' only.
        Swapped-SameSlots fl sums tc board mine area laws enc encrypts enc-lt info plan z apart s0 s
          s' (apart-SameSlots s s' only layout.to.log layout.fr.log);
    good_end0 = λ s s' only.
        Swapped-SameSlots fl sums tc board mine area laws enc encrypts enc-lt info plan z apart s0 s
          s' (apart-SameSlots s s' only layout.to.end0 layout.fr.end0);
    good_end1 = λ s s' only.
        Swapped-SameSlots fl sums tc board mine area laws enc encrypts enc-lt info plan z apart s0 s
          s' (apart-SameSlots s s' only layout.to.end1 layout.fr.end1);
  }
