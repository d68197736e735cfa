-- ===== src/Boot/Tested.antt =====
-- What `main` (bootloader/src/main.c) has tested before it starts an image in slot 0 or in RAM.
use zepboot.Base.{ℕ, ◌≡◌, sym, ap, Bool, true, false, ◌||◌, ◌==◌, inl, inr, Bool-cases, arith}
use mathlib.Core.Path.{subst}
use zepboot.Tlv.Signed.{is_ok-ok}
use zepboot.Platform.{Rc, ok, is_ok, Flash, Checksums}
use zepboot.Board.{Board, ZbSltArea, zb_in_slt_area, zb_in_ram}
use zepboot.Prm.{ZbPrm, zb_prm_read}
use zepboot.TinyCrypt.{TinyCrypt}
use zepboot.Image.{ImgInfo}
use zepboot.Move.{Memory}
use zepboot.Swap.{SwapLocals}
use zepboot.Boot.{Outcome, boots, nothing_valid, Booting, image_crc32, load_address, prepare, boot}

abbrev does_boot : Outcome → Bool
does_boot (boots a) = true
does_boot (nothing_valid rc) = false

abbrev address_of : Outcome → ℕ
address_of (boots a) = a
address_of (nothing_valid rc) = 0

module _ {S H : Type 0} (fl : Flash S) (sums : Checksums) (tc : TinyCrypt H) (board : Board)
    (mine : SwapLocals) where
  open mine use {locals}

  prepare-crc32 :
      (m : Memory S) (area : ZbSltArea) (prm : ZbPrm) (address : ℕ) (info : ImgInfo) (crc : ℕ)
      → is_ok (prepare fl sums tc board mine m area prm (address, info, crc)).0 ≡ true
      → (zb_in_slt_area area 0 address || zb_in_ram board address) ≡ true
      → prm.slt0_crc32 ≡ (image_crc32 fl sums tc board mine m.flash area 0 (info, crc)).1
  unfolding prepare
  prepare-crc32 m area prm address info crc h inside =
      let crc32 = (image_crc32 fl sums tc board mine m.flash area 0 (info, crc)).1 in
      elim (Bool-cases (prm.slt0_crc32 == crc32)) [
        | inl e ↦ ground arith
        | inr e ↦ let bad = rw (e, inside, prepare) at h in cc
      ]

  -- The parameters that `main` reads, and what load_address chooses from them.
  abbrev pub parameters : Booting S → Rc × ZbPrm
  parameters b = zb_prm_read fl board b.memory.flash b.area locals.prm

  abbrev pub chosen : Booting S → ℕ × ImgInfo × ℕ
  chosen b = load_address fl sums tc board mine b.memory.flash b.area (parameters b).1

  -- What was done when an address is started: the swap, the reading of the parameters and what
  -- follows returned 0, and left the memory.
  pub record Booted (b : Booting S) (address : ℕ) (m : Memory S) : Type 0 where
    pub swapped : b.rc ≡ ok
    pub read : (parameters b).0 ≡ ok
    pub is_chosen : (chosen b).0 ≡ address
    pub prepared :
        (prepare fl sums tc board mine b.memory b.area (parameters b).1 (chosen b)).0 ≡ ok
    pub left : (prepare fl sums tc board mine b.memory b.area (parameters b).1 (chosen b)).1 ≡ m

  pub boot-Booted :
      (b : Booting S) (address : ℕ) (m : Memory S)
      → boot fl sums tc board mine b ≡ (boots address, m)
      → Booted b address m
  unfolding boot
  boot-Booted b address m h =
      let prepared = prepare fl sums tc board mine b.memory b.area (parameters b).1 (chosen b) in
      elim (Bool-cases (is_ok b.rc)) [
        | inr e ↦ let bad = ap (λ x. does_boot x.0) (rw (e, boot) at h) in cc
        | inl e ↦ elim (Bool-cases (is_ok (parameters b).0)) [
          | inr e' ↦ let bad = ap (λ x. does_boot x.0) (rw (e, e', boot) at h) in cc
          | inl e' ↦ elim (Bool-cases (is_ok prepared.0)) [
            | inr e'' ↦ let bad = ap (λ x. does_boot x.0) (rw (e, e', e'', boot) at h) in cc
            | inl e'' ↦
                let same = rw (e, e', e'', boot) at h in
                record {
                  swapped = is_ok-ok b.rc e;
                  read = is_ok-ok (parameters b).0 e';
                  is_chosen = ap (λ x. address_of x.0) same;
                  prepared = is_ok-ok prepared.0 e'';
                  left = ap (λ x. x.1) same;
                }
          ]
        ]
      ]

  -- If an address is started that is in slot 0 or in RAM, the crc32 that zb_img_calc_crc32 leaves for
  -- the image in slot 0 is the one of the boot parameters.
  pub boot-crc32 :
      (b : Booting S) (address : ℕ) (m : Memory S)
      → Booted b address m
      → (zb_in_slt_area b.area 0 address || zb_in_ram board address) ≡ true
      → (parameters b).1.slt0_crc32
        ≡ (image_crc32 fl sums tc board mine b.memory.flash b.area 0 ((chosen b).1, (chosen b).2)).1
  boot-crc32 b address m started inside =
      prepare-crc32 b.memory b.area (parameters b).1 (chosen b).0 (chosen b).1 (chosen b).2
        (ap is_ok started.prepared)
        (subst (λ a. (zb_in_slt_area b.area 0 a || zb_in_ram board a) ≡ true)
          (sym started.is_chosen) inside)
