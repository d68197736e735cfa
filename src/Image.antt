-- ===== src/Image.antt =====
-- Images in the slots: zepboot/src/zb_image.c.
pub mod Check
pub mod Place
pub mod Hashed
pub mod Version
pub mod Example
mod Tests
use zepboot.Base.{
  ℕ, ◌-◌, ◌*◌, ◌^◌, Bool, true, false, not, ◌&&◌, none, some, List, [], ◌∷◌, take, drop, ltb, leb,
  ◌==◌, if◌then◌else◌, add32, sub32, u32, byte_at, le16, le32, bit_or,
}
use zepboot.Platform.{Rc, ok, efault, enoent, stuck, driver, is_ok, Device, Flash, Checksums}
use zepboot.Board.{Board, ZbSltArea, zb_in_slt_area}
use zepboot.Prm.{ZbPrm, zb_prm_read}
use zepboot.Aes.{aes_block_size}
use zepboot.TinyCrypt.{TinyCrypt}
use zepboot.Ec256.{hash_bytes, public_key_bytes, zb_hash_flash, zb_get_encr_key, zb_crc32_flash}
use zepboot.Tlv.{TlvEntry, zb_open_tlv_area, find_tlv}

abbrev pub tlve_image_type : ℕ
tlve_image_type = 0x10

abbrev pub tlve_image_info : ℕ
tlve_image_info = 0x20

abbrev pub tlve_image_hash : ℕ
tlve_image_hash = 0x30

abbrev pub tlve_image_epubkey : ℕ
tlve_image_epubkey = 0x40

-- `sizeof(zb_tlv_img_info)`: three words and a version of eight bytes.
abbrev pub info_bytes : ℕ
info_bytes = 20

pub record ImgVer : Type 0 where
  pub major : ℕ
  pub minor : ℕ
  pub revision : ℕ
  pub build : ℕ

pub record ImgInfo : Type 0 where
  pub hdr_start : ℕ
  pub start : ℕ
  pub enc_start : ℕ
  pub end : ℕ
  pub load_address : ℕ
  pub version : ImgVer
  pub enc_key : List ℕ
  pub type : ℕ
  pub flash_device : Device
  pub is_valid : Bool

-- What the local variables of a function hold before they are set.
pub record Locals : Type 0 where
  pub tlv : List ℕ
  pub hash : List ℕ
  pub entry : TlvEntry
  pub info : ImgInfo
  pub prm : ZbPrm
  pub crc32 : ℕ

-- `memcmp(a, b, HASH_BYTES) == 0`
same_hash : List ℕ → List ℕ → Bool
same_hash [] [] = true
same_hash (a ∷ as') (b ∷ bs) = a == b && same_hash as' bs
same_hash _ _ = false

-- The entry has the type and the length that are wanted.
abbrev pub is_entry : TlvEntry → ℕ → ℕ → Bool
is_entry entry type len = entry.type == type && entry.length == len

abbrev pub no_version : ImgVer
no_version = record { major = 0; minor = 0; revision = 0; build = 0 }

-- What zb_img_get_info sets before it opens the area.
abbrev pub blank_info : ImgInfo → Device → ℕ → ImgInfo
blank_info info fl_dev hdr_start = record info {
  is_valid = false;
  flash_device = fl_dev;
  hdr_start = hdr_start;
  start = hdr_start;
  enc_start = hdr_start;
  end = hdr_start;
  load_address = hdr_start;
  version = no_version;
}

-- What it takes from the entry of type TLVE_IMAGE_INFO.
abbrev pub with_info : ImgInfo → List ℕ → ImgInfo
with_info info rd_info =
    let start = add32 info.hdr_start (le32 rd_info 0) in
    record info {
      start = start;
      end = add32 start (le32 rd_info 4);
      load_address = le32 rd_info 8;
      version = record {
        major = byte_at rd_info 12;
        minor = byte_at rd_info 13;
        revision = le16 rd_info 14;
        build = le32 rd_info 16;
      };
    }

module _ {S H : Type 0} (fl : Flash S) (tc : TinyCrypt H) (locals : Locals) where
  -- From the search for TLVE_IMAGE_EPUBKEY on.
  get_key : List ℕ → ℕ → TlvEntry → ImgInfo → Rc × ImgInfo
  get_key tlv tlv_size entry info = elim (find_tlv tlv tlv_size tlve_image_epubkey entry) [
    | none ↦ (stuck, info)
    | some key_entry ↦
        let (rc, key) =
          zb_get_encr_key tc info.enc_key (take public_key_bytes (drop key_entry.value tlv))
            aes_block_size in
        if not (is_entry key_entry tlve_image_epubkey public_key_bytes)
        then (ok, record info { enc_start = info.end; is_valid = true })
        else (if is_ok rc
            then (ok, record info { enc_key = key; enc_start = info.start; is_valid = true })
            else (efault, record info { enc_key = key }))
  ]

  -- From the search for TLVE_IMAGE_HASH on. What zb_hash_flash returns is not looked at.
  get_hash : S → ℕ → Bool → List ℕ → ℕ → TlvEntry → ℕ → ImgInfo → Rc × ImgInfo
  unfolding same_hash get_key
  get_hash s eoff val_img tlv tlv_size entry size info =
      elim (find_tlv tlv tlv_size tlve_image_hash entry) [
        | none ↦ (stuck, info)
        | some hash_entry ↦
            let calc_hash =
              (zb_hash_flash tc fl s locals.hash info.flash_device (add32 info.start eoff)
                size).1 in
            let stored = take hash_bytes (drop hash_entry.value tlv) in
            if not (is_entry hash_entry tlve_image_hash hash_bytes)
            then (efault, info)
            else (if val_img && not (same_hash stored (take hash_bytes calc_hash))
                then (efault, info)
                else get_key tlv tlv_size hash_entry info)
      ]

  -- From the search for TLVE_IMAGE_INFO on.
  get_details : S → ℕ → Bool → List ℕ → ℕ → TlvEntry → ImgInfo → Rc × ImgInfo
  unfolding get_hash
  get_details s eoff val_img tlv tlv_size entry info =
      elim (find_tlv tlv tlv_size tlve_image_info entry) [
        | none ↦ (stuck, info)
        | some info_entry ↦
            let rd_info = take info_bytes (drop info_entry.value tlv) in
            if not (is_entry info_entry tlve_image_info info_bytes)
            then (efault, info)
            else get_hash s eoff val_img tlv tlv_size info_entry (le32 rd_info 4)
                (with_info info rd_info)
      ]

  -- `info` is what `*info` holds before the call.
  unfoldable pub zb_img_get_info :
      S → ImgInfo → ZbSltArea → (slt eoff : ℕ) → (val_tlv val_img : Bool) → Rc × ImgInfo
  unfolding get_details
  zb_img_get_info s info area slt eoff val_tlv val_img =
      let offset = add32 eoff (if slt == 1 then area.slt1_offset else area.slt0_offset) in
      let fl_dev = if slt == 1 then area.slt1_fldev else area.slt0_fldev in
      let info' = blank_info info fl_dev (sub32 offset eoff) in
      let opened = zb_open_tlv_area fl tc s locals.hash fl_dev offset locals.tlv val_tlv in
      if not (is_ok opened.rc)
      then (opened.rc, info')
      else (if leb (2 ^ 31) opened.size
          then (driver (2 ^ 32 - opened.size), info')
          else elim (find_tlv opened.area opened.size tlve_image_type locals.entry) [
            | none ↦ (stuck, info')
            | some type_entry ↦
                if not (is_entry type_entry tlve_image_type 1)
                then (efault, info')
                else get_details s eoff val_img opened.area opened.size type_entry
                    (record info' { type = byte_at opened.area type_entry.value })
          ])

  abbrev pub zb_img_get_info_nsc : S → ImgInfo → ZbSltArea → (slt eoff : ℕ) → Bool → ImgInfo
  zb_img_get_info_nsc s info area slt eoff val_img =
      (zb_img_get_info s info area slt eoff false val_img).1

  abbrev pub zb_img_get_info_wsc : S → ImgInfo → ZbSltArea → (slt eoff : ℕ) → Bool → ImgInfo
  zb_img_get_info_wsc s info area slt eoff val_img =
      (zb_img_get_info s info area slt eoff true val_img).1

unfoldable pub zb_img_calc_crc32 : {S : Type 0} → Flash S → Checksums → S → ImgInfo → ℕ → Rc × ℕ
zb_img_calc_crc32 fl sums s info crc32 =
    zb_crc32_flash fl sums s crc32 info.flash_device info.start (sub32 info.end info.start)

-- The fields do not overlap, and the shifts do not leave the word.
unfoldable pub zb_img_conv_version_u32 : ImgVer → ℕ
zb_img_conv_version_u32 ver =
    bit_or (bit_or (u32 (ver.major * 2 ^ 24)) (u32 (ver.minor * 2 ^ 16))) ver.revision

module _ {S H : Type 0} (fl : Flash S) (tc : TinyCrypt H) (board : Board) (locals : Locals) where
  -- From zb_prm_read on.
  check_version : S → ZbSltArea → ℕ → ImgVer → Rc
  check_version s area slt version =
      let (rc, prm) = zb_prm_read fl board s area locals.prm in
      let img_version = zb_img_conv_version_u32 version in
      elim rc [
        | enoent ↦ ok
        | ok ↦
            if slt == 0 && ltb img_version prm.slt0_ver
            then efault
            else (if slt == 1 && ltb img_version prm.slt1_ver then efault else ok)
        | _ ↦ efault
      ]

  -- The code, and `*slt`, which held `slt`.
  unfoldable pub zb_img_check : S → ZbSltArea → ℕ → Rc × ℕ
  unfolding check_version
  zb_img_check s area slt =
      let info = zb_img_get_info_wsc fl tc locals s locals.info area 1 0 true in
      let slt' = if zb_in_slt_area area 1 info.load_address then 1 else 0 in
      let need = add32 (sub32 info.end info.hdr_start) board.sector_size in
      if not info.is_valid
      then (efault, slt)
      else (if slt' == 0 && ltb area.slt0_size need
          then (efault, slt')
          else (if slt' == 1 && ltb area.slt1_size need
              then (efault, slt')
              else (check_version s area slt' info.version, slt')))
