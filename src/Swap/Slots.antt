-- ===== src/Swap/Slots.antt =====
-- The two slots of a swap, and the moves of the commands of zb_img_cmd_proc (zepboot/src/zb_move.c)
-- between them.
use zepboot.Base.{
  ℕ, suc, ◌+◌, ◌-◌, ◌*◌, ◌%◌, ◌^◌, ◌≤◌, ◌<◌, ◌≡◌, ◌≢◌, ◌⊎◌, ◌∙◌, sym, ap, arith, Bool, List,
  byte_at, inl, inr, min, mul-le-mul_right, suc-mul,
}
use native.Mathlib.Nat.{mod-mod_of_dvd, dvd_of_mod-eq-zero, add-mul-mod_self_right}
use native.Mathlib.Decide.{ℕ_discrete}
use zepboot.Platform.{Flash, Checksums, null}
use zepboot.Platform.Laws.{FlashLaws}
use zepboot.Board.{Board, ZbSltArea}
use zepboot.TinyCrypt.{TinyCrypt}
use zepboot.Aes.Stream.{Encrypts}
use zepboot.Image.{ImgInfo}
use zepboot.Move.{ZbMoveCmd, ZbImgSwpInfo}
use zepboot.Move.Paste.{Apart}
use zepboot.Swap.{SwapLocals, end_fr, end_to}
use zepboot.Swap.Steps.{Plan}
use zepboot.Swap.Order.{Sectors, IsPlan, end_to_lem}
use zepboot.Swap.Sector.{CanTransfer}

-- The sector of an offset that is in the image.
pub sector-lt : {s x n : ℕ} (k : ℕ) → Sectors s x n → k * s < x → suc k * s ≤ n * s
sector-lt {s} {x} {n} k z h = elim (ℕ_discrete (n - k) 0) [
  | yes behind ↦
      let m : n * s ≤ k * s = mul-le-mul_right s (omega arith) in
      let enough = z.enough in absurd (omega arith)
  | no inside ↦ mul-le-mul_right s (omega arith)
]

pub whole_blocks : (s x : ℕ) → s % 16 ≡ 0 → x % s ≡ 0 → x % 16 ≡ 0
whole_blocks s x h e = sym (mod-mod_of_dvd 16 x (dvd_of_mod-eq-zero 16 h)) ∙ ap (λ r. r % 16) e

-- The decryption starts at a whole number of blocks, or the image is plain.
abbrev pub IsCrypt : ImgInfo → Type 0
IsCrypt info =
    ((info.enc_start % 16 ≡ 0) × (info.enc_start ≤ info.end)) ⊎ (info.enc_start ≡ info.end)

pub Apart-parts :
    (fr_dev fr to_dev to span x y s : ℕ)
    → x + s ≤ span
    → y + s ≤ span
    → Apart fr_dev fr to_dev to span
    → Apart fr_dev (fr + x) to_dev (to + y) s
Apart-parts fr_dev fr to_dev to span x y s p q (inl ne) = inl ne
Apart-parts fr_dev fr to_dev to span x y s p q (inr (inl before)) = inr (inl (omega arith))
Apart-parts fr_dev fr to_dev to span x y s p q (inr (inr behind)) = inr (inr (omega arith))

pub Apart-sym :
    (fr_dev fr to_dev to span : ℕ) → Apart fr_dev fr to_dev to span → Apart to_dev to fr_dev fr span
Apart-sym fr_dev fr to_dev to span (inl ne) = inl (λ e. ne (sym e))
Apart-sym fr_dev fr to_dev to span (inr (inl before)) = inr (inr before)
Apart-sym fr_dev fr to_dev to span (inr (inr behind)) = inr (inl behind)

module _ {S H : Type 0} (fl : Flash S) (sums : Checksums) (tc : TinyCrypt H) (board : Board)
    (mine : SwapLocals) (area : ZbSltArea) (laws : FlashLaws fl board.sector_size)
    (enc : List ℕ → List ℕ → List ℕ)
    (encrypts : (key : List ℕ) → Encrypts tc.aes_encrypt key (enc key))
    (enc-lt : (key block : List ℕ) (i : ℕ) → byte_at (enc key block) i < 2 ^ 8)
    (info : ZbImgSwpInfo) (plan : Plan) (inplace : Bool) where
  open board use {sector_size}
  open laws use {size}

  -- Slots of `span` bytes, whole sectors of whole cipher blocks, that hold the image to swap in, and
  -- the image to swap out with a sector to spare.
  pub record Slots (span : ℕ) : Type 0 where
    pub is_plan : IsPlan sector_size info inplace plan
    pub block : sector_size % 16 ≡ 0
    pub to_aligned : info.to.hdr_start % sector_size ≡ 0
    pub fr_aligned : info.fr.hdr_start % sector_size ≡ 0
    pub present_to : info.to.flash_device ≢ null
    pub present_fr : info.fr.flash_device ≢ null
    pub to_fits : info.to.hdr_start + span ≤ size info.to.flash_device
    pub fr_fits : info.fr.hdr_start + span ≤ size info.fr.flash_device
    pub room_to : suc plan.to_sectors * sector_size ≤ span
    pub room_fr : plan.fr_sectors * sector_size ≤ span
    pub fr_in_order : info.fr.hdr_start ≤ info.fr.end
    pub fr_end : info.fr.end ≤ info.fr.hdr_start + span
    pub to_crypt : IsCrypt info.to
    pub fr_crypt : IsCrypt info.fr

  -- The move commands, without the wrap-around of the words.
  abbrev pub up_cmd : ZbMoveCmd → ℕ → ZbMoveCmd
  up_cmd mcmd k = record {
    fr_off = info.to.hdr_start + k * sector_size;
    fr_eoff = info.to.hdr_start + k * sector_size + sector_size;
    to_off = info.to.hdr_start + k * sector_size + sector_size;
    key = mcmd.key;
    fl_dev_fr = info.to.flash_device;
    fl_dev_to = info.to.flash_device;
  }

  abbrev pub p1_cmd : ℕ → ZbMoveCmd
  p1_cmd k = record {
    fr_off = info.fr.hdr_start + k * sector_size;
    fr_eoff = info.fr.enc_start;
    to_off = info.to.hdr_start + k * sector_size;
    key = info.fr.enc_key;
    fl_dev_fr = info.fr.flash_device;
    fl_dev_to = info.to.flash_device;
  }

  abbrev pub p2_cmd : ℕ → ZbMoveCmd
  p2_cmd k = record {
    fr_off = info.to.hdr_start + k * sector_size + sector_size;
    fr_eoff = info.to.enc_start + sector_size;
    to_off = info.fr.hdr_start + k * sector_size;
    key = info.to.enc_key;
    fl_dev_fr = info.to.flash_device;
    fl_dev_to = info.fr.flash_device;
  }

  abbrev pub p1_len : ℕ → ℕ
  p1_len k = min (end_fr info - k * sector_size) sector_size

  abbrev pub p2_len : ℕ → ℕ
  p2_len k = min (end_to info - k * sector_size) sector_size

  module _ {span : ℕ} (z : Slots span) (k : ℕ) where
    pub up-CanTransfer :
        (mcmd : ZbMoveCmd)
        → suc k * sector_size ≤ plan.to_sectors * sector_size
        → CanTransfer fl tc board mine.buf laws enc encrypts enc-lt (up_cmd mcmd k) sector_size
    up-CanTransfer mcmd h =
        let s = sector_size in
        let block = z.block in
        let room = z.room_to in
        let fits = z.to_fits in
        let u : suc plan.to_sectors * s ≡ plan.to_sectors * s + s = suc-mul plan.to_sectors s in
        let v : suc k * s ≡ k * s + s = suc-mul k s in
        let aligned = add-mul-mod_self_right info.to.hdr_start (suc k) s ∙ z.to_aligned in
        let at : info.to.hdr_start + suc k * s ≡ info.to.hdr_start + k * s + s = omega arith in
        let blocks = whole_blocks s (info.to.hdr_start + suc k * s) block aligned in
        record {
          present_fr = z.present_to;
          present_to = z.present_to;
          aligned = ap (λ x. x % s) (sym at) ∙ aligned;
          aligned_block = omega arith;
          whole_sector = omega arith;
          short = omega arith;
          from_fits = omega arith;
          to_fits = omega arith;
          apart = inr (inl (omega arith));
          whole = inr (omega arith);
          blocks = omega arith;
        }

    pub p1-CanTransfer :
        k * sector_size < end_fr info
        → Apart info.to.flash_device info.to.hdr_start info.fr.flash_device info.fr.hdr_start span
        → plan.fr_sectors * sector_size ≤ span
        → CanTransfer fl tc board mine.buf laws enc encrypts enc-lt (p1_cmd k) (p1_len k)
    p1-CanTransfer inside apart room =
        let s = sector_size in
        let block = z.block in
        let to_fits = z.to_fits in
        let fr_fits = z.fr_fits in
        let in_order = z.fr_in_order in
        let fr_end = z.fr_end in
        let lt = laws.size-lt info.fr.flash_device in
        let v : suc k * s ≡ k * s + s = suc-mul k s in
        let more = sector-lt k z.is_plan.fr inside in
        let aligned = add-mul-mod_self_right info.to.hdr_start k s ∙ z.to_aligned in
        let aligned_fr = add-mul-mod_self_right info.fr.hdr_start k s ∙ z.fr_aligned in
        let blocks = whole_blocks s (info.to.hdr_start + k * s) block aligned in
        let blocks_fr = whole_blocks s (info.fr.hdr_start + k * s) block aligned_fr in
        let len : end_fr info ≡ info.fr.end - info.fr.hdr_start = omega arith in
        record {
          present_fr = z.present_fr;
          present_to = z.present_to;
          aligned = aligned;
          aligned_block = omega arith;
          whole_sector = omega arith;
          short = ground arith;
          from_fits = ground arith;
          to_fits = omega arith;
          apart =
              Apart-parts info.fr.flash_device info.fr.hdr_start info.to.flash_device
                info.to.hdr_start span (k * s) (k * s) s (omega arith) (omega arith)
                (Apart-sym info.to.flash_device info.to.hdr_start info.fr.flash_device
                  info.fr.hdr_start span apart);
          whole = elim z.fr_crypt [
            | inl c ↦ let e = c.0 in inl (omega arith)
            | inr e ↦ inr (ground arith)
          ];
          blocks = elim z.fr_crypt [ inl c ↦ let e = c.0 in omega arith | inr e ↦ omega arith ];
        }

    -- When the image stays in its slot, phase 2 reads a sector above the one that it writes.
    pub p2-CanTransfer :
        k * sector_size < end_to info
        → Apart info.to.flash_device
            (info.to.hdr_start + k * sector_size + sector_size)
            info.fr.flash_device
            (info.fr.hdr_start + k * sector_size)
            sector_size
        → info.fr.hdr_start + k * sector_size + sector_size ≤ size info.fr.flash_device
        → CanTransfer fl tc board mine.buf laws enc encrypts enc-lt (p2_cmd k) (p2_len k)
    p2-CanTransfer inside apart to_fits =
        let s = sector_size in
        let block = z.block in
        let room = z.room_to in
        let fits = z.to_fits in
        let lt = laws.size-lt info.to.flash_device in
        let in_order = z.is_plan.in_order in
        let word = z.is_plan.fits in
        let u : suc plan.to_sectors * s ≡ plan.to_sectors * s + s = suc-mul plan.to_sectors s in
        let v : suc k * s ≡ k * s + s = suc-mul k s in
        let more = sector-lt k z.is_plan.to inside in
        let aligned = add-mul-mod_self_right info.fr.hdr_start k s ∙ z.fr_aligned in
        let aligned_to = add-mul-mod_self_right info.to.hdr_start k s ∙ z.to_aligned in
        let blocks = whole_blocks s (info.fr.hdr_start + k * s) block aligned in
        let blocks_to = whole_blocks s (info.to.hdr_start + k * s) block aligned_to in
        let len : end_to info ≡ info.to.end - info.to.hdr_start =
          end_to_lem z.is_plan (omega arith) in
        record {
          present_fr = z.present_to;
          present_to = z.present_fr;
          aligned = aligned;
          aligned_block = omega arith;
          whole_sector = omega arith;
          short = ground arith;
          from_fits = ground arith;
          to_fits = to_fits;
          apart = apart;
          whole = elim z.to_crypt [
            | inl c ↦ let e = c.0 in inl (omega arith)
            | inr e ↦ inr (ground arith)
          ];
          blocks = elim z.to_crypt [ inl c ↦ let e = c.0 in omega arith | inr e ↦ omega arith ];
        }
