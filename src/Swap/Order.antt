-- ===== src/Swap/Order.antt =====
-- The `switch` of zb_img_cmd_proc (zepboot/src/zb_move.c) takes the commands in the order of the
-- machine of Swap/Steps, and so a swap has an end.
use zepboot.Base.{
  ℕ, zero, suc, ◌+◌, ◌-◌, ◌*◌, ◌^◌, ◌≤◌, ◌<◌, ◌≡◌, ◌≢◌, refl, sym, ap₂, ◌∙◌, Bool, true, false,
  ◌&&◌, leb, ◌==◌, add32, mul32, u8, arith, le→leb, lt→not_leb, mul-le-mul_right, suc-mul,
  mul32-small, ne→==, eq→==, inl, inr, Bool-cases,
}
use native.Mathlib.Decide.{ℕ_discrete}
use mathlib.Core.Path.{subst}
use zepboot.Platform.{Flash, Checksums}
use zepboot.Board.{Board, ZbSltArea}
use zepboot.Cmd.{ZbCmd}
use zepboot.TinyCrypt.{TinyCrypt}
use zepboot.Move.{ZbMoveCmd, ZbImgSwpInfo}
use zepboot.Swap.{SwapLocals, end_fr, end_to}
use zepboot.Swap.Proc.{
  count_loop, sectors_up, switch, proc_start, proc_move_up, proc_p1, proc_p2, proc_p3, proc_p4,
}
use zepboot.Swap.Steps.{
  Phase, swp_start, move_up, swp_p1, swp_p2, swp_p3, swp_p4, swp_end, Plan, code, next,
}

-- `n` sectors of `s` bytes hold `x` bytes, and fewer do not.
pub record Sectors (s x n : ℕ) : Type 0 where
  pub enough : x ≤ n * s
  pub least : n * s < x + s
  pub few : n ≤ 255

-- The plan is that of the images, which stay clear of the end of the word.
pub record IsPlan (sector_size : ℕ) (info : ZbImgSwpInfo) (inplace : Bool) (plan : Plan)
    : Type 0 where
  pub some_size : 0 < sector_size
  pub small : sector_size ≤ 2 ^ 24
  pub stays : plan.inplace ≡ inplace
  pub is_plain : plan.plain ≡ (info.fr.enc_start == info.fr.end)
  pub fr : Sectors sector_size (end_fr info) plan.fr_sectors
  pub to : Sectors sector_size (end_to info) plan.to_sectors
  pub in_order : info.to.hdr_start ≤ info.to.end
  pub fits : info.to.end + sector_size < 2 ^ 32

-- The comparison of offsets is that of sectors.
offset_lem :
    {s x n : ℕ} (k : ℕ) → s ≤ 2 ^ 24 → Sectors s x n → k ≤ 255 → leb x (mul32 k s) ≡ leb n k
offset_lem {s} {x} {n} k h z few =
    let e : mul32 k s ≡ k * s = mul32-small k s few h in
    let enough = z.enough in
    let least = z.least in
    elim (Bool-cases (leb n k)) [
      | inl le ↦
          let m : n * s ≤ k * s = mul-le-mul_right s (ground arith) in
          rw (e, le) (le→leb x (k * s) (omega arith))
      | inr gt ↦
          let m : suc k * s ≤ n * s = mul-le-mul_right s (ground arith) in
          let u : suc k * s ≡ k * s + s = suc-mul k s in
          rw (e, gt) (lt→not_leb x (k * s) (omega arith))
    ]

-- The loop counts the sectors beyond the first.
count_loop-lem :
    (s fuel addr end c u : ℕ)
    → u ≤ fuel
    → addr + u * s < end
    → end ≤ addr + suc u * s
    → c + u ≤ 255
    → end + s < 2 ^ 32
    → count_loop s fuel addr end c ≡ u + c
unfolding count_loop
count_loop-lem s zero addr end c u h lo hi few fits = omega arith
count_loop-lem s (suc fuel) addr end c zero h lo hi few fits = ground arith
count_loop-lem s (suc fuel) addr end c (suc u) h lo hi few fits =
    let u1 : suc u * s ≡ u * s + s = suc-mul u s in
    let u2 : suc (suc u) * s ≡ suc u * s + s = suc-mul (suc u) s in
    let a : add32 addr s ≡ addr + s = omega arith in
    let b : u8 (c + 1) ≡ c + 1 = omega arith in
    let r =
      count_loop-lem s fuel (addr + s) end (c + 1) u (omega arith) (omega arith) (omega arith)
        (omega arith) fits in
    ground arith

-- The length of the image to swap out, when there is one.
pub end_to_lem :
    {s : ℕ} {info : ZbImgSwpInfo} {inplace : Bool} {plan : Plan}
    → IsPlan s info inplace plan
    → end_to info ≢ 0
    → end_to info ≡ info.to.end - info.to.hdr_start
end_to_lem {info} z ne =
    let in_order = z.in_order in
    let fits = z.fits in
    elim (Bool-cases info.to.is_valid) [
      | inl e ↦ rw e (omega arith)
      | inr e ↦ absurd (ne (rw e refl))
    ]

sectors_up_lem :
    {s u : ℕ} {info : ZbImgSwpInfo} {inplace : Bool} {plan : Plan}
    → IsPlan s info inplace plan
    → plan.to_sectors ≡ suc u
    → sectors_up s info ≡ u
sectors_up_lem {s} {u} {info} {plan} z e =
    let in_order = z.in_order in
    let fits = z.fits in
    let few = z.to.few in
    let positive = z.some_size in
    let least : suc u * s < end_to info + s = subst (λ n. n * s < end_to info + s) e z.to.least in
    let enough : end_to info ≤ suc u * s = subst (λ n. end_to info ≤ n * s) e z.to.enough in
    let m : suc u * s ≡ u * s + s = suc-mul u s in
    let len : end_to info ≡ info.to.end - info.to.hdr_start = end_to_lem z (omega arith) in
    let spread : 1 * u ≤ s * u = mul-le-mul_right u positive in
    count_loop-lem s (info.to.end - info.to.hdr_start) info.to.hdr_start info.to.end 0 u
      (omega arith) (omega arith) (omega arith) (omega arith) fits
    ∙ omega arith

-- The command of a phase and a sector.
abbrev pub command : ZbCmd → Phase → ℕ → ZbCmd
command cmd p k = record cmd { cmd2 = code p; cmd3 = k }

module _ {S H : Type 0} (fl : Flash S) (sums : Checksums) (tc : TinyCrypt H) (board : Board)
    (mine : SwapLocals) (area : ZbSltArea) where
  open board use {sector_size}

  start_next :
      (s : S) {info : ZbImgSwpInfo} (mcmd : ZbMoveCmd) {inplace : Bool} {plan : Plan} (cmd : ZbCmd)
      (k : ℕ)
      → IsPlan sector_size info inplace plan
      → (proc_start fl sums tc board mine area s info mcmd inplace (command cmd swp_start k)).cmd
        ≡ command cmd (next plan swp_start k).0 (next plan swp_start k).1
  unfolding proc_start next
  start_next s {info} mcmd {inplace} {plan} cmd k z =
      let same : (inplace && (info.fr.enc_start == info.fr.end)) ≡ (plan.inplace && plan.plain) =
        ap₂ ◌&&◌ (sym z.stays) (sym z.is_plain) in
      let enough = z.to.enough in
      let least = z.to.least in
      elim (Bool-cases (plan.inplace && plan.plain)) [
        | inl e ↦ rw (same, e, proc_start) refl
        | inr e ↦ elim (ℕ_discrete plan.to_sectors 0) [
          | yes none_there ↦
              let empty : end_to info ≤ 0 * sector_size =
                subst (λ n. end_to info ≤ n * sector_size) none_there enough in
              rw
                (
                  same,
                  e,
                  eq→== (end_to info) 0 (omega arith),
                  eq→== plan.to_sectors 0 none_there,
                  proc_start,
                )
                refl
          | no some_there ↦
              let u = plan.to_sectors - 1 in
              let suc_u : plan.to_sectors ≡ suc u = omega arith in
              let up = sectors_up_lem z suc_u in
              let one : 1 * sector_size ≤ plan.to_sectors * sector_size =
                mul-le-mul_right sector_size (omega arith) in
              rw
                (
                  same,
                  e,
                  ne→== (end_to info) 0 (omega arith),
                  ne→== plan.to_sectors 0 some_there,
                  up,
                  proc_start,
                )
                refl
        ]
      ]

  move_up_next :
      (s : S) {info : ZbImgSwpInfo} (mcmd : ZbMoveCmd) {inplace : Bool} {plan : Plan} (cmd : ZbCmd)
      (k : ℕ)
      → IsPlan sector_size info inplace plan
      → (proc_move_up fl sums tc board mine area s info mcmd inplace (command cmd move_up k)).cmd
        ≡ command cmd (next plan move_up k).0 (next plan move_up k).1
  unfolding proc_move_up next
  move_up_next s mcmd {inplace} {plan} cmd zero z = elim (Bool-cases inplace) [
    | inl e ↦ rw (z.stays, e) refl
    | inr e ↦ rw (z.stays, e) refl
  ]
  move_up_next s mcmd cmd (suc k) z = ground arith

  p1_next :
      (s : S) {info : ZbImgSwpInfo} (mcmd : ZbMoveCmd) {inplace : Bool} {plan : Plan} (cmd : ZbCmd)
      (k : ℕ)
      → IsPlan sector_size info inplace plan
      → k ≤ 255
      → (proc_p1 fl sums tc board mine area s info mcmd (command cmd swp_p1 k)).cmd
        ≡ command cmd (next plan swp_p1 k).0 (next plan swp_p1 k).1
  unfolding proc_p1 next
  p1_next s {info} mcmd {plan} cmd k z few =
      let fr = offset_lem k z.small z.fr few in
      let to = offset_lem k z.small z.to few in
      elim (Bool-cases (leb plan.fr_sectors k)) [
        | inl f ↦ elim (Bool-cases (leb plan.to_sectors k)) [
          | inl t ↦ rw (fr, to, f, t, proc_p1) refl
          | inr t ↦ rw (fr, to, f, t, proc_p1) refl
        ]
        | inr f ↦ rw (fr, f, proc_p1) refl
      ]

  p2_next :
      (s : S) {info : ZbImgSwpInfo} (mcmd : ZbMoveCmd) {inplace : Bool} {plan : Plan} (cmd : ZbCmd)
      (k : ℕ)
      → IsPlan sector_size info inplace plan
      → k ≤ 255
      → (proc_p2 fl sums tc board mine area s info mcmd inplace (command cmd swp_p2 k)).cmd
        ≡ command cmd (next plan swp_p2 k).0 (next plan swp_p2 k).1
  unfolding proc_p2 next
  p2_next s {info} mcmd {inplace} {plan} cmd k z few =
      let fr = offset_lem k z.small z.fr few in
      let to = offset_lem k z.small z.to few in
      elim (Bool-cases (leb plan.to_sectors k)) [
        | inl t ↦ elim (Bool-cases (leb plan.fr_sectors k)) [
          | inl f ↦ rw (fr, to, f, t, proc_p2) refl
          | inr f ↦
              let few' = z.fr.few in
              let w : u8 (k + 1) ≡ k + 1 = ground arith in rw (fr, to, f, t, w, proc_p2) refl
        ]
        | inr t ↦
            let few' = z.to.few in
            let w : u8 (k + 1) ≡ k + 1 = ground arith in
            elim (Bool-cases inplace) [
              | inl e ↦ rw (to, t, w, z.stays, e, proc_p2) refl
              | inr e ↦ rw (to, t, w, z.stays, e, proc_p2) refl
            ]
      ]

  -- The switch of zb_img_cmd_proc takes the command of a phase and a sector to the command of the
  -- phase and sector that follow in the machine of the specification, whatever the flash, the move
  -- command and the other fields of the command are. Conditions: the sector of the command is at
  -- most 255, and so is the number of sectors of each image, since cmd3 is one byte; a sector has
  -- at least one and at most 2 ^ 24 bytes; the image to swap out does not end in front of its
  -- start, and ends more than a sector below 2 ^ 32.
  pub switch-next :
      (s : S) (info : ZbImgSwpInfo) (mcmd : ZbMoveCmd) (inplace : Bool) (plan : Plan) (cmd : ZbCmd)
      (p : Phase) (k : ℕ)
      → IsPlan sector_size info inplace plan
      → k ≤ 255
      → (switch fl sums tc board mine area s info mcmd inplace (command cmd p k)).cmd
        ≡ command cmd (next plan p k).0 (next plan p k).1
  unfolding switch proc_p3 proc_p4 next
  switch-next s info mcmd inplace plan cmd swp_start k z few = start_next s mcmd cmd k z
  switch-next s info mcmd inplace plan cmd move_up k z few = move_up_next s mcmd cmd k z
  switch-next s info mcmd inplace plan cmd swp_p1 k z few = p1_next s mcmd cmd k z few
  switch-next s info mcmd inplace plan cmd swp_p2 k z few = p2_next s mcmd cmd k z few
  switch-next s info mcmd true plan cmd swp_p3 k z few = refl
  switch-next s info mcmd false plan cmd swp_p3 k z few = refl
  switch-next s info mcmd true plan cmd swp_p4 k z few = refl
  switch-next s info mcmd false plan cmd swp_p4 k z few = refl
  switch-next s info mcmd inplace plan cmd swp_end k z few = refl
