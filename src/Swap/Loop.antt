-- ===== src/Swap/Loop.antt =====
-- The loop of zb_img_cmd_proc (zepboot/src/zb_move.c) on the log of the swap status: each turn reads
-- the last command, does it, and appends the next one.
use zepboot.Base.{
  ℕ, suc, ◌^◌, ◌≤◌, ◌<◌, ◌≡◌, ◌≢◌, refl, ap, ◌∙◌, Bool, true, false, ◌||◌, arith, none, some, List,
  [], ◌∷◌, ◌++◌, length, if◌then◌else◌, eq→==, ne→==, has_bits, if_true,
}
use zepboot.Platform.{Flash, Checksums}
use zepboot.Platform.Laws.{FlashLaws}
use zepboot.Board.{Board, ZbSltArea}
use zepboot.TinyCrypt.{TinyCrypt}
use zepboot.Cmd.{ZbCmd, CmdLoc, is_empty, zb_cmd_write_swpstat}
use zepboot.Cmd.Log.{is_sound, last_sound, last_sound-append}
use zepboot.Cmd.Read.{Location, LogOf, zb_cmd_read-last_sound}
use zepboot.Cmd.Append.{sealed, Crc8IsByte, IsCmd, full_cmd, zb_cmd_write-append}
use zepboot.Cmd.Kept.{OffLog, zb_cmd_write-OffLog}
use zepboot.Move.{ZbImgSwpInfo}
use zepboot.Swap.{
  SwapLocals, cmd1_error, cmd2_mask_inplace, phase, is_swapping, zb_get_img_swp_info,
}
use zepboot.Swap.Proc.{Round, marked, switch, turn, proc_loop}
use zepboot.Swap.Steps.{
  Phase, swp_start, move_up, swp_p1, swp_p2, swp_p3, swp_p4, swp_end, Plan, code, next,
}
use zepboot.Swap.Order.{IsPlan, command, switch-next}

-- The command of a phase and a sector as the status holds it.
abbrev pub stored : Checksums → Bool → ZbCmd → Phase → ℕ → ZbCmd
stored sums inplace c p k = sealed sums (marked inplace (command c p k))

-- Its phase, its mark, and that it is not the empty pattern.
pub cmd2-stored :
    (sums : Checksums) (inplace : Bool) (c : ZbCmd) (p : Phase) (k : ℕ)
    → let done = stored sums inplace c p k in
      (phase done ≡ code p) × (has_bits done.cmd2 cmd2_mask_inplace ≡ inplace) × (done.cmd2 < 64)
cmd2-stored sums true c swp_start k = (refl, refl, omega arith)
cmd2-stored sums true c move_up k = (refl, refl, omega arith)
cmd2-stored sums true c swp_p1 k = (refl, refl, omega arith)
cmd2-stored sums true c swp_p2 k = (refl, refl, omega arith)
cmd2-stored sums true c swp_p3 k = (refl, refl, omega arith)
cmd2-stored sums true c swp_p4 k = (refl, refl, omega arith)
cmd2-stored sums true c swp_end k = (refl, refl, omega arith)
cmd2-stored sums false c swp_start k = (refl, refl, omega arith)
cmd2-stored sums false c move_up k = (refl, refl, omega arith)
cmd2-stored sums false c swp_p1 k = (refl, refl, omega arith)
cmd2-stored sums false c swp_p2 k = (refl, refl, omega arith)
cmd2-stored sums false c swp_p3 k = (refl, refl, omega arith)
cmd2-stored sums false c swp_p4 k = (refl, refl, omega arith)
cmd2-stored sums false c swp_end k = (refl, refl, omega arith)

-- The fields that the switch does not change.
pub fields-stored :
    (sums : Checksums) (inplace : Bool) (c : ZbCmd) (p : Phase) (k : ℕ)
    → ((stored sums inplace c p k).cmd1 ≡ c.cmd1) × ((stored sums inplace c p k).cmd3 ≡ k)
fields-stored sums true c p k = (refl, refl)
fields-stored sums false c p k = (refl, refl)

pub stored_again :
    (sums : Checksums) (inplace : Bool) (c : ZbCmd) (p p' : Phase) (k k' : ℕ)
    → stored sums inplace (stored sums inplace c p k) p' k' ≡ stored sums inplace c p' k'
stored_again sums true c p p' k k' = refl
stored_again sums false c p p' k k' = refl

-- A swap goes on until its end.
swapping_until_end : (c : ZbCmd) (p : Phase) → phase c ≡ code p → p ≢ swp_end → is_swapping c ≡ true
swapping_until_end c swp_start e ne = rw e refl
swapping_until_end c move_up e ne = rw e refl
swapping_until_end c swp_p1 e ne = rw e refl
swapping_until_end c swp_p2 e ne = rw e refl
swapping_until_end c swp_p3 e ne = rw e refl
swapping_until_end c swp_p4 e ne = rw e refl
swapping_until_end c swp_end e ne = absurd (ne refl)

-- The command can be written.
pub stored-IsCmd :
    (sums : Checksums) (inplace : Bool) (c : ZbCmd) (p : Phase) (k : ℕ)
    → c.cmd1 < 2 ^ 8
    → k ≤ 255
    → IsCmd (marked inplace (command c p k))
stored-IsCmd sums inplace c p k h few =
    let m = (cmd2-stored sums inplace c p k).2 in
    let f = fields-stored sums inplace c p k in (rw f.0 h, omega arith, rw f.1 (omega arith))

pub stored_full :
    (sums : Checksums) (inplace : Bool) (c : ZbCmd) (p : Phase) (k : ℕ)
    → c.cmd1 < 2 ^ 8
    → k ≤ 255
    → Crc8IsByte sums
    → is_empty (stored sums inplace c p k) ≡ false
stored_full sums inplace c p k h few byte =
    full_cmd sums (marked inplace (command c p k)) byte (stored-IsCmd sums inplace c p k h few)
      (cmd2-stored sums inplace c p k).2

pub stored_sound :
    (sums : Checksums) (inplace : Bool) (c : ZbCmd) (p : Phase) (k : ℕ)
    → is_sound sums (stored sums inplace c p k) ≡ true
stored_sound sums inplace c p k = eq→== _ _ refl

module _ {S H : Type 0} (fl : Flash S) (sums : Checksums) (tc : TinyCrypt H) (board : Board)
    (mine : SwapLocals) (area : ZbSltArea) (info : ZbImgSwpInfo) (inplace : Bool) (c : ZbCmd) where
  -- The image information is, or will be, `info`, and the mark is that of the command.
  pub record Ready (p : Phase) (k : ℕ) (r : Round S) : Type 0 where
    pub informed :
        (if r.info.loaded
          then r.info
          else zb_get_img_swp_info fl sums tc board mine area r.flash r.info
              (stored sums inplace c p k))
        ≡ info
    pub mark : (r.inplace || inplace) ≡ inplace

  -- The flash behind the switch of a turn, and behind the turn.
  abbrev pub switched : Round S → Phase → ℕ → S
  switched r p k =
      (switch fl sums tc board mine area r.flash info r.mcmd inplace
        (command (stored sums inplace c p k) p k)).flash

  -- The command that the turn appends.
  abbrev pub follower : Plan → Phase → ℕ → ZbCmd
  follower plan p k =
      marked inplace (command (stored sums inplace c p k) (next plan p k).0 (next plan p k).1)

  abbrev pub appended : Plan → Round S → Phase → ℕ → S
  appended plan r p k =
      (zb_cmd_write_swpstat fl sums board (switched r p k) area (follower plan p k)).2

  module _ (plan : Plan) (z : IsPlan board.sector_size info inplace plan) where
    -- A turn for a stored command.
    pub turn_lem :
        (r : Round S) (p : Phase) (k : ℕ)
        → k ≤ 255
        → Ready p k r
        → let r' = turn fl sums tc board mine area r (stored sums inplace c p k) in
          (r'.flash ≡ appended plan r p k) × (r'.info ≡ info) × (r'.inplace ≡ inplace)
    unfolding turn
    turn_lem r p k few h =
        let m = cmd2-stored sums inplace c p k in
        let f = fields-stored sums inplace c p k in
        let e =
          switch-next fl sums tc board mine area r.flash info r.mcmd inplace plan
            (stored sums inplace c p k) p k z few in
        rw (h.informed, m.0, m.1, h.mark, f.1, e, turn) (refl, refl, refl)

    pub turn-Ready :
        (r : Round S) (p : Phase) (k : ℕ)
        → info.loaded ≡ true
        → k ≤ 255
        → Ready p k r
        → Ready
            (next plan p k).0
            (next plan p k).1
            (turn fl sums tc board mine area r (stored sums inplace c p k))
    turn-Ready r p k loaded few h =
        let e = turn_lem r p k few h in
        record { informed = rw (e.1, loaded) refl; mark = rw e.2 (ground arith) }

    module _ {laws : FlashLaws fl board.sector_size} {loc : CmdLoc} {n : ℕ}
        (here : Location laws board area 2 loc n) (byte : Crc8IsByte sums)
        (good_cmd1 : c.cmd1 < 2 ^ 8) (no_error : c.cmd1 ≢ cmd1_error)
        (loaded : info.loaded ≡ true) where
      -- The status is at a command: it is the last sound one of the log.
      pub record AtCmd (p : Phase) (k : ℕ) (log : List ZbCmd) (s : S) : Type 0 where
        pub holds : LogOf here s log
        pub last : last_sound sums none log ≡ some (stored sums inplace c p k)

      -- The loop reads the command, and ends if it is CMD2_SWP_END.
      pub proc_loop-AtCmd :
          (fuel : ℕ) (r : Round S) (p : Phase) (k : ℕ) (log : List ZbCmd)
          → AtCmd p k log r.flash
          → p ≢ swp_end
          → proc_loop fl sums tc board mine area (suc fuel) r
            ≡ proc_loop fl sums tc board mine area fuel
                (turn fl sums tc board mine area r (stored sums inplace c p k))
      unfolding proc_loop
      proc_loop-AtCmd fuel r p k log at ne =
          let read = zb_cmd_read-last_sound here sums r.cmd at.holds in
          let e = rw at.last at read in
          let f = fields-stored sums inplace c p k in
          let m = cmd2-stored sums inplace c p k in
          rw
            (
              e,
              f.0,
              ne→== c.cmd1 cmd1_error no_error,
              swapping_until_end (stored sums inplace c p k) p m.0 ne,
              proc_loop,
            )
            refl

      pub proc_loop-end :
          (fuel : ℕ) (r : Round S) (k : ℕ) (log : List ZbCmd)
          → AtCmd swp_end k log r.flash
          → proc_loop fl sums tc board mine area (suc fuel) r ≡ some r.flash
      unfolding proc_loop
      proc_loop-end fuel r k log at =
          let read = zb_cmd_read-last_sound here sums r.cmd at.holds in
          let e = rw at.last at read in
          let m = cmd2-stored sums inplace c swp_end k in rw (e, m.0, proc_loop) (ground arith)

      pub turn-AtCmd :
          (r : Round S) (p : Phase) (k : ℕ) (log : List ZbCmd)
          → k ≤ 255
          → (next plan p k).1 ≤ 255
          → Ready p k r
          → LogOf here (switched r p k) log
          → length log < n
          → let r' = turn fl sums tc board mine area r (stored sums inplace c p k) in
            AtCmd
              (next plan p k).0
              (next plan p k).1
              (log ++ sealed sums (follower plan p k) ∷ [])
              r'.flash
            × ((e i : ℕ)
                → OffLog here e i
                → laws.cell r'.flash e i ≡ laws.cell (switched r p k) e i)
      turn-AtCmd r p k log few few' h holds room =
          let p' = (next plan p k).0 in
          let k' = (next plan p k).1 in
          let c' = stored sums inplace c p k in
          let f = fields-stored sums inplace c p k in
          let cmd1 : c'.cmd1 < 2 ^ 8 = rw f.0 good_cmd1 in
          let fields = stored-IsCmd sums inplace c' p' k' cmd1 few' in
          let full = stored_full sums inplace c' p' k' cmd1 few' byte in
          let wrote =
            zb_cmd_write-append here sums (follower plan p k) byte fields full holds room in
          let e = (turn_lem r p k few h).0 in
          let sound = stored_sound sums inplace c' p' k' in
          let again = stored_again sums inplace c p p' k k' in
          let last : last_sound sums none (log ++ sealed sums (follower plan p k) ∷ [])
              ≡ some (stored sums inplace c p' k') =
            last_sound-append sums none log (sealed sums (follower plan p k))
            ∙ if_true _ _ sound
            ∙ ap some again in
          rw e (
            record { holds = wrote.2; last = last },
            λ d i off.
                zb_cmd_write-OffLog here sums (follower plan p k) byte fields full holds room d i
                  off,
          )
