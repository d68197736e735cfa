-- ===== src/Boot/First.antt =====
-- Which area `main` (bootloader/src/main.c) starts from: the one of slot_map[0], which is swapped last.
use zepboot.Base.{
  ℕ, zero, suc, ◌<◌, ◌≡◌, refl, sym, ap, ◌∙◌, arith, true, false, ◌||◌, some, inl, inr, Bool-cases,
  ◌⊎◌, Option-cases,
}
use mathlib.Core.Path.{subst}
use mathlib.Core.Option.{some-injective}
use zepboot.Platform.{ok, is_ok, Flash, Checksums}
use zepboot.Tlv.Signed.{is_ok-ok}
use zepboot.Board.{Board, ZbSltArea, zb_slt_area_cnt, zb_slt_area_get, zb_in_slt_area, zb_in_ram}
use zepboot.TinyCrypt.{TinyCrypt}
use zepboot.Move.{Memory}
use zepboot.Swap.{SwapLocals}
use zepboot.Swap.Request.{zb_img_swap}
use zepboot.Boot.{boots, Booting, swap_loop, image_crc32, main}
use zepboot.Boot.Tested.{parameters, chosen, Booted, boot-Booted, boot-crc32}

positive : (n : ℕ) → 0 < n → (k : ℕ) × (n ≡ suc k)
positive zero p = absurd (omega arith)
positive (suc n) p = (n, refl)

module _ {S H : Type 0} (fl : Flash S) (sums : Checksums) (tc : TinyCrypt H) (board : Board)
    (mine : SwapLocals) where
  -- The area is that of slot_map[0], and its swap returned 0 and left the flash.
  pub record IsFirst (fuel : ℕ) (b : Booting S) : Type 0 where
    pub previous : Booting S
    pub got : zb_slt_area_get board previous.area 0 ≡ some (ok, b.area)
    pub swapped :
        zb_img_swap fl sums tc board mine b.area fuel previous.memory.flash
        ≡ some (ok, b.memory.flash)

  swap_loop-IsFirst :
      (fuel cnt : ℕ) (b b' : Booting S)
      → swap_loop fl sums tc board mine fuel (suc cnt) b ≡ some b'
      → b'.rc ≡ ok
      → IsFirst fuel b'
  unfolding swap_loop
  swap_loop-IsFirst fuel zero b b' h good = elim (Option-cases (zb_slt_area_get board b.area 0)) [
    | inl e ↦ let bad = rw (e, swap_loop) at h in cc
    | inr ((rc, area), e) ↦ elim (Bool-cases (is_ok rc)) [
      | inr f ↦
          let same = some-injective _ b' (rw (e, f, swap_loop) at h) in
          let bad : true ≡ false = sym (ap is_ok good) ∙ sym (ap (λ x. is_ok x.rc) same) ∙ f in cc
      | inl f ↦ elim (Option-cases (zb_img_swap fl sums tc board mine area fuel b.memory.flash)) [
        | inl g ↦ let bad = rw (e, f, g, swap_loop) at h in cc
        | inr ((rc', s), g) ↦
            let same = some-injective _ b' (rw (e, f, g, swap_loop) at h) in
            let rc'_ok : rc' ≡ ok = ap (λ x. x.rc) same ∙ good in
            subst (IsFirst fuel) same (record {
              previous = b;
              got = e ∙ ap (λ x. some (x, area)) (is_ok-ok rc f);
              swapped = g ∙ ap (λ x. some (x, s)) rc'_ok;
            })
      ]
    ]
  ]
  swap_loop-IsFirst fuel (suc cnt) b b' h good =
      elim (Option-cases (zb_slt_area_get board b.area (suc cnt))) [
        | inl e ↦ let bad = rw (e, swap_loop) at h in cc
        | inr ((rc, area), e) ↦ elim (Bool-cases (is_ok rc)) [
          | inr f ↦
              swap_loop-IsFirst fuel cnt (record b { rc = rc; area = area }) b'
                (rw (e, f, swap_loop) at h) good
          | inl f ↦
              elim (Option-cases (zb_img_swap fl sums tc board mine area fuel b.memory.flash)) [
                | inl g ↦ let bad = rw (e, f, g, swap_loop) at h in cc
                | inr ((rc', s), g) ↦
                    swap_loop-IsFirst fuel cnt
                      (record { rc = rc'; area = area; memory = record b.memory { flash = s } }) b'
                      (rw (e, f, g, swap_loop) at h) good
              ]
        ]
      ]

  -- If main, on a board with a slot map that is not empty, starts an address, then the area that it
  -- starts from is that of slot_map[0], whose zb_slt_area_get and zb_img_swap, the last one of the
  -- loop, returned 0; the parameters are read from the flash that this swap left, with the code 0;
  -- the address is the one that is chosen from them, and the memory is what the move to RAM, if
  -- there is one, left with the code 0; and the address is neither in slot 0 nor in RAM, or the
  -- slt0_crc32 of the parameters is what zb_img_calc_crc32 leaves for slot 0, whatever code it
  -- returns.
  pub main-IsFirst :
      (fuel : ℕ) (area : ZbSltArea) (m m' : Memory S) (address : ℕ)
      → 0 < zb_slt_area_cnt board
      → main fl sums tc board mine fuel area m ≡ some (boots address, m')
      → (b : Booting S) × IsFirst fuel b
        × Booted fl sums tc board mine b address m'
        × (((zb_in_slt_area b.area 0 address || zb_in_ram board address) ≡ false)
            ⊎ ((parameters fl sums tc board mine b).1.slt0_crc32
                ≡ (image_crc32 fl sums tc board mine b.memory.flash b.area 0
                    ((chosen fl sums tc board mine b).1, (chosen fl sums tc board mine b).2)).1))
  unfolding main
  main-IsFirst fuel area m m' address some_area h =
      let cnt = zb_slt_area_cnt board in
      let b0 : Booting S = record { rc = ok; area = area; memory = m } in
      let pred : ((k : ℕ) × (cnt ≡ suc k)) = positive cnt some_area in
      elim (Option-cases (swap_loop fl sums tc board mine fuel cnt b0)) [
        | inl e ↦ let bad = rw (e, main) at h in cc
        | inr (b, e) ↦
            let started =
              boot-Booted fl sums tc board mine b address m'
                (some-injective _ _ (rw (e, main) at h)) in
            let run = subst (λ n. swap_loop fl sums tc board mine fuel n b0 ≡ some b) pred.1 e in
            (
              b,
              swap_loop-IsFirst fuel pred.0 b0 b run started.swapped,
              started,
              elim (Bool-cases (zb_in_slt_area b.area 0 address || zb_in_ram board address)) [
                | inl inside ↦ inr (boot-crc32 fl sums tc board mine b address m' started inside)
                | inr outside ↦ inl outside
              ],
            )
      ]
