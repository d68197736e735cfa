-- ===== src/Swap/Finish.antt =====
-- The loop of zb_img_cmd_proc (zepboot/src/zb_move.c) ends: with what the turns of a swap keep, as long
-- as the swap status has room for their commands.
use zepboot.Base.{
  ℕ, zero, suc, ◌+◌, ◌^◌, ◌≤◌, ◌<◌, ◌≡◌, ◌≢◌, ◌⊎◌, refl, Bool, arith, Option, some, List, [], ◌∷◌,
  ◌++◌, length, inl, inr, length-append, sym, true,
}
use mathlib.Core.Path.{subst}
use zepboot.Platform.{Flash, Checksums}
use zepboot.Platform.Laws.{FlashLaws}
use zepboot.Board.{Board, ZbSltArea}
use zepboot.TinyCrypt.{TinyCrypt}
use zepboot.Cmd.{ZbCmd, CmdLoc}
use zepboot.Cmd.Read.{Location, LogOf}
use zepboot.Cmd.Append.{sealed, Crc8IsByte}
use zepboot.Cmd.Kept.{OffLog}
use zepboot.Move.{ZbMoveCmd, ZbImgSwpInfo}
use zepboot.Swap.{SwapLocals, cmd1_error}
use zepboot.Swap.Proc.{Round, switch, turn, proc_loop}
use zepboot.Swap.Steps.{
  Phase, swp_start, move_up, swp_p1, swp_p2, swp_p3, swp_p4, swp_end, Plan, next, turns_left,
  next-turns_left, next-sector_bound,
}
use zepboot.Swap.Order.{IsPlan, command}
use zepboot.Swap.Loop.{
  stored, Ready, follower, turn-Ready, AtCmd, proc_loop-AtCmd, proc_loop-end, turn-AtCmd,
}

-- A swap that is not at its end has turns left.
end_or_turns :
    (plan : Plan) (p : Phase) (k : ℕ) → (p ≡ swp_end) ⊎ ((p ≢ swp_end) × (0 < turns_left plan p k))
unfolding turns_left
end_or_turns plan swp_start k = inr (λ e. cc, omega arith)
end_or_turns plan move_up k = inr (λ e. cc, omega arith)
end_or_turns plan swp_p1 k = inr (λ e. cc, omega arith)
end_or_turns plan swp_p2 k = inr (λ e. cc, omega arith)
end_or_turns plan swp_p3 k = inr (λ e. cc, omega arith)
end_or_turns plan swp_p4 k = inr (λ e. cc, omega arith)
end_or_turns plan swp_end k = inl refl

module _ {S H : Type 0} (fl : Flash S) (sums : Checksums) (tc : TinyCrypt H) (board : Board)
    (mine : SwapLocals) (area : ZbSltArea) (info : ZbImgSwpInfo) (inplace : Bool) (c : ZbCmd)
    (plan : Plan) (z : IsPlan board.sector_size info inplace plan)
    {laws : FlashLaws fl board.sector_size} {loc : CmdLoc} {n : ℕ}
    (here : Location laws board area 2 loc n) (byte : Crc8IsByte sums) (good_cmd1 : c.cmd1 < 2 ^ 8)
    (no_error : c.cmd1 ≢ cmd1_error) (loaded : info.loaded ≡ true) where
  open laws use {cell}

  abbrev pub StatusAt : Phase → ℕ → List ZbCmd → S → Type 0
  StatusAt =
      AtCmd fl sums tc board mine area info inplace c plan z here byte good_cmd1 no_error loaded

  module _ (Kept : Phase → ℕ → S → Type 0)
      (switches : (s : S) (mcmd : ZbMoveCmd) (p : Phase) (k : ℕ) (log : List ZbCmd)
        → p ≢ swp_end
        → k ≤ 255
        → Kept p k s
        → LogOf here s log
        → let s' =
            (switch fl sums tc board mine area s info mcmd inplace
              (command (stored sums inplace c p k) p k)).flash in
          Kept (next plan p k).0 (next plan p k).1 s' × LogOf here s' log)
      (logs : (s s' : S) (p : Phase) (k : ℕ)
        → Kept p k s
        → ((e i : ℕ) → OffLog here e i → cell s' e i ≡ cell s e i)
        → Kept p k s') where
    -- What the loop returns.
    abbrev pub Ends : Option S → Type 0
    Ends r =
        (s' : S) × (k' : ℕ) × (log' : List ZbCmd) × (r ≡ some s')
        × StatusAt swp_end k' log' s'
        × Kept swp_end k' s'

    at_end :
        (fuel : ℕ) (r : Round S) (p : Phase) (k : ℕ) (log : List ZbCmd)
        → p ≡ swp_end
        → StatusAt p k log r.flash
        → Kept p k r.flash
        → Ends (proc_loop fl sums tc board mine area (suc fuel) r)
    at_end fuel r p k log e at kept =
        let at' = subst (λ q. StatusAt q k log r.flash) e at in
        (
          r.flash,
          k,
          log,
          proc_loop-end fl sums tc board mine area info inplace c plan z here byte good_cmd1
              no_error loaded fuel r k log at',
          at',
          subst (λ q. Kept q k r.flash) e kept,
        )

    pub proc_loop-Ends :
        (turns fuel : ℕ) (r : Round S) (p : Phase) (k : ℕ) (log : List ZbCmd)
        → turns_left plan p k ≤ turns
        → turns < fuel
        → length log + turns ≤ n
        → k ≤ 255
        → Ready fl sums tc board mine area info inplace c p k r
        → StatusAt p k log r.flash
        → Kept p k r.flash
        → Ends (proc_loop fl sums tc board mine area fuel r)
    proc_loop-Ends turns zero r p k log few fuelled room small ready at kept = absurd (omega arith)
    proc_loop-Ends zero (suc fuel) r p k log few fuelled room small ready at kept =
        elim (end_or_turns plan p k) [
          | inl e ↦ at_end fuel r p k log e at kept
          | inr (ne, more) ↦ absurd (omega arith)
        ]
    proc_loop-Ends (suc turns) (suc fuel) r p k log few fuelled room small ready at kept =
        elim (end_or_turns plan p k) [
          | inl e ↦ at_end fuel r p k log e at kept
          | inr (ne, more) ↦
              let c' = stored sums inplace c p k in
              let r' = turn fl sums tc board mine area r c' in
              let s = switches r.flash r.mcmd p k log ne small kept at.holds in
              let fewer = next-turns_left plan p k in
              let small' = next-sector_bound plan p k 255 small z.fr.few z.to.few in
              let t =
                turn-AtCmd fl sums tc board mine area info inplace c plan z here byte good_cmd1
                  no_error loaded r p k log small small' ready s.1 (omega arith) in
              let log' =
                log
                ++ sealed sums (follower fl sums tc board mine area info inplace c plan p k) ∷ [] in
              let longer : length log' ≡ length log + 1 = length-append log _ in
              subst Ends
                (sym (
                  proc_loop-AtCmd fl sums tc board mine area info inplace c plan z here byte
                    good_cmd1 no_error loaded fuel r p k log at ne))
                (proc_loop-Ends turns fuel r' (next plan p k).0 (next plan p k).1 log' (omega arith)
                  (omega arith) (omega arith) small'
                  (turn-Ready fl sums tc board mine area info inplace c plan z r p k loaded small
                    ready)
                  t.0 (logs _ r'.flash _ _ s.0 t.1))
        ]
