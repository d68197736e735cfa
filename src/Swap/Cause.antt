-- ===== src/Swap/Cause.antt =====
-- Why zb_img_swap (zepboot/src/zb_move.c) swaps.
use zepboot.Base.{
  ◌≡◌, refl, sym, ◌∙◌, arith, Bool, true, false, not, ◌&&◌, Bool-cases, inl, inr, has_bits,
}
use zepboot.Platform.{Rc, ok, is_ok, Flash, Checksums}
use zepboot.Board.{Board, ZbSltArea, zb_in_slt_area}
use zepboot.Cmd.{ZbCmd, zb_cmd_read_slt0end, zb_cmd_read_slt1end, zb_cmd_read_swpstat}
use zepboot.TinyCrypt.{TinyCrypt}
use zepboot.Tlv.Signed.{is_ok-ok}
use zepboot.Image.{ImgInfo, zb_img_check, zb_img_get_info_wsc}
use zepboot.Image.Check.{Accepted, zb_img_check-Accepted}
use zepboot.Swap.{SwapLocals, cmd1_mask_swp_perm, cmd1_mask_swp_request, is_swapping}
use zepboot.Swap.Request.{Stage, going_on, swap_request, make_permanent, restore, decide}

and_true : (a b : Bool) → (a && b) ≡ true → (a ≡ true) × (b ≡ true)
and_true true b h = (refl, h)
and_true false b h = cc

not-true : (b : Bool) → not b ≡ true → b ≡ false
not-true true h = cc
not-true false h = refl

module _ {S H : Type 0} (fl : Flash S) (sums : Checksums) (tc : TinyCrypt H) (board : Board)
    (mine : SwapLocals) (area : ZbSltArea) where
  -- What was read last at the end of slot 1 and of slot 0.
  abbrev pub request : S → Rc × ZbCmd
  request s = zb_cmd_read_slt1end fl sums board s area (going_on fl sums tc board mine area s).cmd

  abbrev pub permanent : S → Stage S
  permanent s =
      make_permanent fl sums tc board mine area
        (swap_request fl sums tc board mine area (going_on fl sums tc board mine area s))

  abbrev pub swapped_before : S → Rc × ZbCmd
  swapped_before s = zb_cmd_read_slt0end fl sums board (permanent s).flash area (permanent s).cmd

  abbrev pub candidate : S → ImgInfo
  candidate s = zb_img_get_info_wsc fl tc mine.locals s mine.locals.info area 1 0 true

  -- The reasons for a swap: one was going on, or the end of slot 1 has a request for it and the
  -- image in slot 1 may be installed, or the end of slot 0 has the command of a swap that is not
  -- permanent, and was not made permanent.
  pub data Cause (s : S) : Type 0 where
    goes_on :
        (zb_cmd_read_swpstat fl sums board s area mine.cmd).0 ≡ ok
        → is_swapping (zb_cmd_read_swpstat fl sums board s area mine.cmd).1 ≡ true
        → Cause s
    requested :
        (request s).0 ≡ ok
        → has_bits (request s).1.cmd1 cmd1_mask_swp_request ≡ true
        → Accepted fl tc board mine.locals s area
            (candidate s)
            (zb_in_slt_area area 1 (candidate s).load_address)
        → Cause s
    undone :
        (swapped_before s).0 ≡ ok
        → has_bits (swapped_before s).1.cmd1 cmd1_mask_swp_perm ≡ false
        → Cause s

  goes_on-Cause : (s : S) → (going_on fl sums tc board mine area s).swap ≡ true → Cause s
  unfolding going_on
  goes_on-Cause s h =
      let r = zb_cmd_read_swpstat fl sums board s area mine.cmd in
      let both = and_true (is_ok r.0) (is_swapping r.1) h in goes_on (is_ok-ok r.0 both.0) both.1

  request-Cause :
      (s : S)
      → (swap_request fl sums tc board mine area (going_on fl sums tc board mine area s)).swap
        ≡ true
      → Cause s
  unfolding swap_request going_on
  request-Cause s h =
      let st = going_on fl sums tc board mine area s in
      let r = request s in
      let checked = zb_img_check fl tc board mine.locals st.flash area mine.slt in
      elim (Bool-cases st.swap) [
        | inl e ↦ goes_on-Cause s e
        | inr e ↦ elim (Bool-cases (is_ok r.0 && has_bits r.1.cmd1 cmd1_mask_swp_request)) [
          | inl e1 ↦ elim (Bool-cases (is_ok checked.0)) [
            | inl e2 ↦
                let both = and_true (is_ok r.0) (has_bits r.1.cmd1 cmd1_mask_swp_request) e1 in
                requested (is_ok-ok r.0 both.0) both.1 (
                  zb_img_check-Accepted fl tc board mine.locals s area mine.slt
                    (is_ok-ok checked.0 e2))
            | inr e2 ↦ let bad : false ≡ true = rw (e, e1, e2, swap_request) at h in cc
          ]
          | inr e1 ↦ let bad : false ≡ true = rw (e, e1, swap_request) at h in cc
        ]
      ]

  -- A request to make the swap permanent does not begin one.
  make_permanent-swap :
      (st : Stage S) → (make_permanent fl sums tc board mine area st).swap ≡ st.swap
  unfolding make_permanent
  make_permanent-swap st = ground arith

  -- zb_img_swap swaps only if a swap was going on, or the end of slot 1 has a request for it and the image
  -- of slot 1 is signed, fits and is not older than the recorded version, or the end of slot 0 has the
  -- command of a swap that is not permanent.
  pub decide-Cause : (s : S) → (decide fl sums tc board mine area s).swap ≡ true → Cause s
  unfolding decide restore
  decide-Cause s h =
      let st = permanent s in
      let r = swapped_before s in
      elim (Bool-cases st.swap) [
        | inl e ↦ request-Cause s (
            sym (
              make_permanent-swap
                (swap_request fl sums tc board mine area (going_on fl sums tc board mine area s)))
            ∙ e)
        | inr e ↦ elim (Bool-cases (is_ok r.0 && not (has_bits r.1.cmd1 cmd1_mask_swp_perm))) [
          | inl e1 ↦
              let both = and_true (is_ok r.0) (not (has_bits r.1.cmd1 cmd1_mask_swp_perm)) e1 in
              undone (is_ok-ok r.0 both.0) (not-true (has_bits r.1.cmd1 cmd1_mask_swp_perm) both.1)
          | inr e1 ↦ let bad : false ≡ true = rw (e, e1, decide, restore) at h in cc
        ]
      ]
