-- ===== src/Image/Place.antt =====
-- Where zb_img_get_info (zepboot/src/zb_image.c) says that an image is.
use zepboot.Base.{
  Option-cases, ℕ, ◌≡◌, refl, Bool, true, false, List, if◌then◌else◌, add32, sub32, ◌==◌, inl, inr,
  ◌+◌, ◌<◌, ◌^◌, arith, take, drop, le32, byte_at,
}
use zepboot.Platform.{Rc, efault, is_ok, Flash, Device}
use zepboot.Board.{ZbSltArea}
use zepboot.TinyCrypt.{TinyCrypt}
use zepboot.Tlv.{TlvEntry, zb_open_tlv_area, find_tlv}
use zepboot.Image.{
  ImgInfo, Locals, info_bytes, with_info, get_key, get_hash, get_details, blank_info,
  zb_img_get_info, tlve_image_type, tlve_image_info, tlve_image_hash, tlve_image_epubkey,
}

abbrev pub slt_offset : ZbSltArea → ℕ → ℕ
slt_offset area slt = if slt == 1 then area.slt1_offset else area.slt0_offset

abbrev pub slt_fldev : ZbSltArea → ℕ → Device
slt_fldev area slt = if slt == 1 then area.slt1_fldev else area.slt0_fldev

abbrev SamePlace : ImgInfo → ImgInfo → Type 0
SamePlace info info' = (info'.hdr_start ≡ info.hdr_start) × (info'.flash_device ≡ info.flash_device)

if-SamePlace :
    (info : ImgInfo) (b : Bool) (x y : Rc × ImgInfo)
    → SamePlace info x.1
    → SamePlace info y.1
    → SamePlace info (if b then x else y).1
if-SamePlace info true x y h k = h
if-SamePlace info false x y h k = k

module _ {S H : Type 0} (fl : Flash S) (tc : TinyCrypt H) (locals : Locals) where
  get_key-SamePlace :
      (tlv : List ℕ) (tlv_size : ℕ) (entry : TlvEntry) (info : ImgInfo)
      → SamePlace info (get_key fl tc locals tlv tlv_size entry info).1
  unfolding get_key
  get_key-SamePlace tlv tlv_size entry info =
      elim (Option-cases (find_tlv tlv tlv_size tlve_image_epubkey entry)) [
        | inl e ↦ rw (e, get_key) (refl, refl)
        | inr (found, e) ↦ rw (e, get_key) (ground arith, ground arith)
      ]

  get_hash-SamePlace :
      (s : S) (eoff : ℕ) (val_img : Bool) (tlv : List ℕ) (tlv_size : ℕ) (entry : TlvEntry)
      (size : ℕ) (info : ImgInfo)
      → SamePlace info (get_hash fl tc locals s eoff val_img tlv tlv_size entry size info).1
  unfolding get_hash
  get_hash-SamePlace s eoff val_img tlv tlv_size entry size info =
      elim (Option-cases (find_tlv tlv tlv_size tlve_image_hash entry)) [
        | inl e ↦ rw (e, get_hash) (refl, refl)
        | inr (found, e) ↦
            let r = get_key-SamePlace tlv tlv_size found info in
            let last = get_key fl tc locals tlv tlv_size found info in
            rw (e, get_hash)
              (if-SamePlace info _ (efault, info) _ (refl, refl)
                (if-SamePlace info _ (efault, info) last (refl, refl) r))
      ]

  get_details-SamePlace :
      (s : S) (eoff : ℕ) (val_img : Bool) (tlv : List ℕ) (tlv_size : ℕ) (entry : TlvEntry)
      (info : ImgInfo)
      → SamePlace info (get_details fl tc locals s eoff val_img tlv tlv_size entry info).1
  unfolding get_details
  get_details-SamePlace s eoff val_img tlv tlv_size entry info =
      elim (Option-cases (find_tlv tlv tlv_size tlve_image_info entry)) [
        | inl e ↦ rw (e, get_details) (refl, refl)
        | inr (found, e) ↦
            let rd_info = take info_bytes (drop found.value tlv) in
            let r =
              get_hash-SamePlace s eoff val_img tlv tlv_size found (le32 rd_info 4)
                (with_info info rd_info) in
            rw (e, get_details) (ground (arith, r.0), ground (arith, r.1))
      ]

  -- Whatever the flash holds, zb_img_get_info says that the image is at the offset of its slot, on
  -- the device of the slot, also if the header is read at another offset.
  pub zb_img_get_info-place :
      (s : S) (info : ImgInfo) (area : ZbSltArea) (slt eoff : ℕ) (val_tlv val_img : Bool)
      → slt_offset area slt + eoff < 2 ^ 32
      → let r = (zb_img_get_info fl tc locals s info area slt eoff val_tlv val_img).1 in
        (r.hdr_start ≡ slt_offset area slt) × (r.flash_device ≡ slt_fldev area slt)
  unfolding zb_img_get_info
  zb_img_get_info-place s info area slt eoff val_tlv val_img h =
      let offset = add32 eoff (slt_offset area slt) in
      let e : sub32 offset eoff ≡ slt_offset area slt = omega arith in
      let opened =
        zb_open_tlv_area fl tc s locals.hash (slt_fldev area slt) offset locals.tlv val_tlv in
      elim (Option-cases (find_tlv opened.area opened.size tlve_image_type locals.entry)) [
        | inl f ↦ rw f (ground (arith, e), ground arith)
        | inr (found, f) ↦
            let r =
              get_details-SamePlace s eoff val_img opened.area opened.size found
                (record (blank_info info (slt_fldev area slt) (sub32 offset eoff)) {
                  type = byte_at opened.area found.value;
                }) in
            rw f (ground (arith, r.0, e), ground (arith, r.1))
      ]

  -- An area that cannot be opened has no image: it ends where it starts.
  pub zb_img_get_info-none :
      (s : S) (info : ImgInfo) (area : ZbSltArea) (slt eoff : ℕ) (val_tlv val_img : Bool)
      → is_ok
          (zb_open_tlv_area fl tc s locals.hash
            (slt_fldev area slt)
            (add32 eoff (slt_offset area slt))
            locals.tlv
            val_tlv).rc
        ≡ false
      → let r = (zb_img_get_info fl tc locals s info area slt eoff val_tlv val_img).1 in
        (r.is_valid ≡ false) × (r.end ≡ r.hdr_start)
  unfolding zb_img_get_info
  zb_img_get_info-none s info area slt eoff val_tlv val_img h = rw (h) (refl, refl)
