-- ===== src/Swap/Layout.antt =====
-- Where the parts of a slot area lie that zb_img_cmd_proc (zepboot/src/zb_move.c) writes: the images, the
-- ends of the slots, and the log of the swap status.
use zepboot.Base.{ℕ, ◌+◌, ◌-◌, ◌≤◌, ◌<◌, ◌≡◌, ◌≢◌, sym, arith, inl, inr, List}
use mathlib.Core.Path.{subst}
use zepboot.Platform.{Flash}
use zepboot.Platform.Laws.{FlashLaws}
use zepboot.Board.{Board, ZbSltArea}
use zepboot.Cmd.{ZbCmd, CmdLoc}
use zepboot.Cmd.Log.{Holds-congr}
use zepboot.Cmd.Read.{Location, LogOf, stride_lem}
use zepboot.Move.{ZbImgSwpInfo}
use zepboot.Swap.Sector.{Outside}
use zepboot.Swap.Ends.{SectorEnd, slt0end, slt1end}

-- Two runs of cells that have none in common.
pub data Disjoint (dev a n dev' b m : ℕ) : Type 0 where
  elsewhere : dev ≢ dev' → Disjoint dev a n dev' b m
  before : a + n ≤ b → Disjoint dev a n dev' b m
  behind : b + m ≤ a → Disjoint dev a n dev' b m

pub Disjoint-sym : {dev a n dev' b m : ℕ} → Disjoint dev a n dev' b m → Disjoint dev' b m dev a n
Disjoint-sym (elsewhere ne) = elsewhere (λ e. ne (sym e))
Disjoint-sym (before h) = behind h
Disjoint-sym (behind h) = before h

pub Disjoint-Outside :
    {dev a n dev' b m : ℕ} (i : ℕ)
    → Disjoint dev a n dev' b m
    → i < n
    → Outside dev' b m dev (a + i)
Disjoint-Outside i (elsewhere ne) p = inl ne
Disjoint-Outside i (before h) p = inr (inl (omega arith))
Disjoint-Outside i (behind h) p = inr (inr (omega arith))

module _ (board : Board) (area : ZbSltArea) (status : CmdLoc) where
  open board use {sector_size}

  -- The log of the swap status and the ends of the slots are apart.
  pub record EndsApart : Type 0 where
    pub status_end0 :
        Disjoint status.fl_dev status.start
          (status.end - status.start)
          area.slt0_fldev
          (slt0end board area).start
          sector_size
    pub status_end1 :
        Disjoint status.fl_dev status.start
          (status.end - status.start)
          area.slt1_fldev
          (slt1end board area).start
          sector_size
    pub both :
        Disjoint area.slt0_fldev
          (slt0end board area).start
          sector_size
          area.slt1_fldev
          (slt1end board area).start
          sector_size

  -- The `span` bytes from `base` on are apart from them.
  pub record SlotApart (dev base span : ℕ) : Type 0 where
    pub log : Disjoint dev base span status.fl_dev status.start (status.end - status.start)
    pub end0 : Disjoint dev base span area.slt0_fldev (slt0end board area).start sector_size
    pub end1 : Disjoint dev base span area.slt1_fldev (slt1end board area).start sector_size

-- The first `span` bytes of both slots, the log and the ends of the slots are apart.
pub record Layout (board : Board) (area : ZbSltArea) (info : ZbImgSwpInfo) (span : ℕ)
    (status : CmdLoc) : Type 0 where
  pub ends : EndsApart board area status
  pub to : SlotApart board area status info.to.flash_device info.to.hdr_start span
  pub fr : SlotApart board area status info.fr.flash_device info.fr.hdr_start span

module _ {S : Type 0} {fl : Flash S} (board : Board) (area : ZbSltArea)
    (laws : FlashLaws fl board.sector_size) (s s' : S) where
  open laws use {cell}

  -- What changes no cell outside of a run changes none of the runs that are apart from it.
  pub untouched :
      {dev a n dev' b m : ℕ}
      → ((e i : ℕ) → Outside dev' b m e i → cell s' e i ≡ cell s e i)
      → Disjoint dev a n dev' b m
      → (i : ℕ) → i < n
      → cell s' dev (a + i) ≡ cell s dev (a + i)
  untouched {dev} {a} same apart i p = same dev (a + i) (Disjoint-Outside i apart p)

  -- A log whose cells are unchanged.
  pub same-LogOf :
      {loc_id k : ℕ} {loc : CmdLoc} (here : Location laws board area loc_id loc k)
      (log : List ZbCmd)
      → loc.start ≤ here.start
      → ((i : ℕ)
          → i < loc.end - loc.start
          → cell s' loc.fl_dev (loc.start + i) ≡ cell s loc.fl_dev (loc.start + i))
      → LogOf here s log
      → LogOf here s' log
  same-LogOf {loc = loc} here log low same h =
      let stop = here.stop in
      Holds-congr (stride_lem here).1
        (λ i p q.
          let at : loc.start + (i - loc.start) ≡ i = omega arith in
          subst (λ x. cell s' loc.fl_dev x ≡ cell s loc.fl_dev x) at
            (same (i - loc.start) (omega arith)))
        h

  pub end-LogOf :
      {loc_id k dev b m : ℕ} {loc : CmdLoc} (end : SectorEnd board area laws loc_id loc k)
      (log : List ZbCmd)
      → ((e i : ℕ) → Outside dev b m e i → cell s' e i ≡ cell s e i)
      → Disjoint loc.fl_dev loc.start board.sector_size dev b m
      → LogOf end.here s log
      → LogOf end.here s' log
  end-LogOf end log same apart h =
      same-LogOf end.here log end.low (λ i q. untouched same apart i (omega (arith, end.sector))) h
