-- ===== src/Swap/Endless.antt =====
-- An image of more sectors than cmd3 can count: the `switch` of zb_img_cmd_proc (zepboot/src/zb_move.c)
-- goes round, since cmd3 is one byte.
use zepboot.Base.{
  ℕ, zero, suc, ◌+◌, ◌*◌, ◌-◌, ◌%◌, ◌^◌, ◌≤◌, ◌<◌, ◌≡◌, ◌⊎◌, refl, sym, arith, Bool, true, false,
  ◌&&◌, leb, ◌==◌, mul32, u8, mul32-small, mul-le-mul_right, inl, inr, Bool-cases,
}
use mathlib.Core.Path.{subst}
use zepboot.Platform.{Flash, Checksums}
use zepboot.Board.{Board, ZbSltArea}
use zepboot.Cmd.{ZbCmd}
use zepboot.TinyCrypt.{TinyCrypt}
use zepboot.Move.{ZbMoveCmd, ZbImgSwpInfo}
use zepboot.Swap.{SwapLocals, end_fr, end_to}
use zepboot.Swap.Proc.{count_loop, sectors_up, switch, proc_start, proc_move_up, proc_p1, proc_p2}
use zepboot.Swap.Steps.{Phase, swp_start, move_up, swp_p1, swp_p2, swp_p3, swp_p4, swp_end}
use zepboot.Swap.Order.{command}
use zepboot.Swap.Reach.{Moves, up, first, second}
use zepboot.Swap.End.{switches}

-- The count of the sectors that are moved up is a byte.
count_loop-le : (s fuel addr end c : ℕ) → c ≤ 255 → count_loop s fuel addr end c ≤ 255
unfolding count_loop
count_loop-le s zero addr end c h = h
count_loop-le s (suc fuel) addr end c h =
    let r = count_loop-le s fuel ((addr + s) % 2 ^ 32) end (u8 (c + 1)) (omega arith) in
    ground arith

-- One of the images has more than 255 sectors.
abbrev pub IsLong : ℕ → ZbImgSwpInfo → Type 0
IsLong s info = (255 * s < end_fr info) ⊎ (255 * s < end_to info)

-- No sector that a byte counts is behind both images.
not_behind :
    {s : ℕ} (info : ZbImgSwpInfo) (k : ℕ)
    → s ≤ 2 ^ 24
    → k ≤ 255
    → IsLong s info
    → (leb (end_fr info) (mul32 k s) && leb (end_to info) (mul32 k s)) ≡ false
not_behind {s} info k small few long =
    let e : mul32 k s ≡ k * s = mul32-small k s few small in
    let m : k * s ≤ 255 * s = mul-le-mul_right s few in
    elim long [ inl l ↦ ground arith | inr l ↦ ground arith ]

-- A command before phase 3, of the same swap.
pub record IsMoving (cmd c : ZbCmd) : Type 0 where
  pub phase : Phase
  pub sector : ℕ
  pub moves : Moves phase
  pub few : sector ≤ 255
  pub is_command : c ≡ command cmd phase sector

module _ {S H : Type 0} (fl : Flash S) (sums : Checksums) (tc : TinyCrypt H) (board : Board)
    (mine : SwapLocals) (area : ZbSltArea) (info : ZbImgSwpInfo) (inplace : Bool)
    (small : board.sector_size ≤ 2 ^ 24) (long : IsLong board.sector_size info)
    (some_phase : (inplace && (info.fr.enc_start == info.fr.end)) ≡ false) (cmd : ZbCmd) where
  open board use {sector_size}

  start_moves :
      (s : S) (mcmd : ZbMoveCmd) (k : ℕ)
      → IsMoving cmd
          (proc_start fl sums tc board mine area s info mcmd inplace (command cmd swp_start k)).cmd
  unfolding proc_start
  start_moves s mcmd k = elim (Bool-cases (end_to info == 0)) [
    | inl e ↦ record {
      phase = swp_p1;
      sector = 0;
      moves = first;
      few = omega arith;
      is_command = rw (some_phase, e, proc_start) refl;
    }
    | inr e ↦ record {
      phase = move_up;
      sector = sectors_up sector_size info;
      moves = up;
      few =
          count_loop-le sector_size (info.to.end - info.to.hdr_start) info.to.hdr_start info.to.end
            0 (omega arith);
      is_command = rw (some_phase, e, proc_start) refl;
    }
  ]

  up_moves :
      (s : S) (mcmd : ZbMoveCmd) (k : ℕ)
      → k ≤ 255
      → IsMoving cmd
          (proc_move_up fl sums tc board mine area s info mcmd inplace (command cmd move_up k)).cmd
  unfolding proc_move_up
  up_moves s mcmd zero few = elim (Bool-cases inplace) [
    | inl e ↦ record {
      phase = swp_p2;
      sector = 0;
      moves = second;
      few = few;
      is_command = rw (e, proc_move_up) refl;
    }
    | inr e ↦ record {
      phase = swp_p1;
      sector = 0;
      moves = first;
      few = few;
      is_command = rw (e, proc_move_up) refl;
    }
  ]
  up_moves s mcmd (suc k) few = record {
    phase = move_up;
    sector = k;
    moves = up;
    few = omega arith;
    is_command = ground arith;
  }

  p1_moves :
      (s : S) (mcmd : ZbMoveCmd) (k : ℕ)
      → k ≤ 255
      → IsMoving cmd (proc_p1 fl sums tc board mine area s info mcmd (command cmd swp_p1 k)).cmd
  unfolding proc_p1
  p1_moves s mcmd k few =
      let h = not_behind {s = sector_size} info k small few long in
      record {
        phase = swp_p2;
        sector = k;
        moves = second;
        few = few;
        is_command = elim (Bool-cases (leb (end_fr info) (mul32 k sector_size))) [
          | inl e ↦ elim (Bool-cases (leb (end_to info) (mul32 k sector_size))) [
            | inl f ↦ let bad : true ≡ false = rw (e, f) at h in cc
            | inr f ↦ rw (e, f, proc_p1) refl
          ]
          | inr e ↦ rw (e, proc_p1) refl
        ];
      }

  p2_moves :
      (s : S) (mcmd : ZbMoveCmd) (k : ℕ)
      → k ≤ 255
      → IsMoving cmd
          (proc_p2 fl sums tc board mine area s info mcmd inplace (command cmd swp_p2 k)).cmd
  unfolding proc_p2
  p2_moves s mcmd k few =
      let h = not_behind {s = sector_size} info k small few long in
      elim (Bool-cases (leb (end_to info) (mul32 k sector_size))) [
        | inl e ↦ elim (Bool-cases (leb (end_fr info) (mul32 k sector_size))) [
          | inl f ↦ let bad : true ≡ false = rw (f, e) at h in cc
          | inr f ↦ record {
            phase = swp_p1;
            sector = u8 (k + 1);
            moves = first;
            few = omega arith;
            is_command = rw (e, f, proc_p2) refl;
          }
        ]
        | inr e ↦ elim (Bool-cases inplace) [
          | inl f ↦ record {
            phase = swp_p2;
            sector = u8 (k + 1);
            moves = second;
            few = omega arith;
            is_command = rw (e, f, proc_p2) refl;
          }
          | inr f ↦ record {
            phase = swp_p1;
            sector = u8 (k + 1);
            moves = first;
            few = omega arith;
            is_command = rw (e, f, proc_p2) refl;
          }
        ]
      ]

  switch-IsMoving :
      (s : S) (mcmd : ZbMoveCmd) (p : Phase) (k : ℕ)
      → Moves p
      → k ≤ 255
      → IsMoving cmd (switch fl sums tc board mine area s info mcmd inplace (command cmd p k)).cmd
  unfolding switch
  switch-IsMoving s mcmd swp_start k m few = start_moves s mcmd k
  switch-IsMoving s mcmd move_up k m few = up_moves s mcmd k few
  switch-IsMoving s mcmd swp_p1 k m few = p1_moves s mcmd k few
  switch-IsMoving s mcmd swp_p2 k m few = p2_moves s mcmd k few
  switch-IsMoving s mcmd swp_p3 k m few = elim m [ ]
  switch-IsMoving s mcmd swp_p4 k m few = elim m [ ]
  switch-IsMoving s mcmd swp_end k m few = elim m [ ]

  -- If one of the images has more than 255 sectors, by the lengths end_fr and end_to that the code
  -- computes, no number of turns of the switch leads from a command before phase 3 to phase 3: cmd3
  -- is one byte and starts at 0 again, and the command is always again one before phase 3.
  -- Conditions: the sector of the command is at most 255, a sector has at most 2 ^ 24 bytes, and
  -- the swap is not one in place of a plain image.
  pub switches-IsMoving :
      (n : ℕ) (s : S) (mcmd : ZbMoveCmd) (p : Phase) (k : ℕ)
      → Moves p
      → k ≤ 255
      → IsMoving cmd
          (switches fl sums tc board mine area n s info mcmd inplace (command cmd p k)).cmd
  unfolding switches
  switches-IsMoving zero s mcmd p k m few = record {
    phase = p;
    sector = k;
    moves = m;
    few = few;
    is_command = refl;
  }
  switches-IsMoving (suc n) s mcmd p k m few =
      let done = switch fl sums tc board mine area s info mcmd inplace (command cmd p k) in
      let h = switch-IsMoving s mcmd p k m few in
      subst
        (λ c.
          IsMoving cmd
            (switches fl sums tc board mine area n done.flash info done.mcmd inplace c).cmd)
        (sym h.is_command) (switches-IsMoving n done.flash done.mcmd h.phase h.sector h.moves h.few)
