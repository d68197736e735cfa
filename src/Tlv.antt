-- ===== src/Tlv.antt =====
-- The type-length-value area in front of an image: zepboot/src/zb_tlv.c.
pub mod Find
pub mod Signed
mod Tests
use zepboot.Base.{
  ℕ, zero, suc, ◌+◌, Bool, true, false, not, ◌&&◌, Option, none, some, List, [], ◌∷◌, take, drop,
  ltb, ◌==◌, if◌then◌else◌, add32, sub32, byte_at, le16, le32,
}
use zepboot.Platform.{Rc, ok, efault, is_ok, Device, Flash}
use zepboot.Flash.{zb_flash_read}
use zepboot.TinyCrypt.{TinyCrypt}
use zepboot.Ec256.{zb_hash_flash, zb_sign_verify}

abbrev pub tlv_area_magic : ℕ
tlv_area_magic = 0x544c5641

-- `sizeof(tlv_area_hdr)`: the magic, the size, two types and a signature of 64 bytes.
abbrev pub hdr_bytes : ℕ
hdr_bytes = 72

pub record TlvAreaHdr : Type 0 where
  pub tlva_magic : ℕ
  pub tlva_size : ℕ
  pub tlva_type : ℕ
  pub tlva_sig_type : ℕ
  pub tlva_signature : List ℕ

abbrev pub hdr_of_bytes : List ℕ → TlvAreaHdr
hdr_of_bytes bs = record {
  tlva_magic = le32 bs 0;
  tlva_size = le16 bs 4;
  tlva_type = byte_at bs 6;
  tlva_sig_type = byte_at bs 7;
  tlva_signature = take 64 (drop 8 bs);
}

-- `tlv_entry`: `value` is the index of the value in the area.
pub record TlvEntry : Type 0 where
  pub type : ℕ
  pub length : ℕ
  pub value : ℕ

-- The code, the size that is returned if the code is 0, and `data` afterwards.
pub record Opened : Type 0 where
  pub rc : Rc
  pub size : ℕ
  pub area : List ℕ

module _ {S H : Type 0} (fl : Flash S) (tc : TinyCrypt H) where
  -- The hash of the area, held against its signature. `hash` is what the local array holds.
  validated : S → Device → ℕ → ℕ → List ℕ → TlvAreaHdr → Rc
  validated s flash_dev data_off tlv_size hash hdr =
      let (rc, hash') = zb_hash_flash tc fl s hash flash_dev data_off tlv_size in
      if not (is_ok rc)
      then rc
      else (if is_ok (zb_sign_verify tc hash' hdr.tlva_signature) then ok else efault)

  -- `area` is what `data` holds before the call. The `size_t` difference wraps.
  unfoldable pub zb_open_tlv_area : S → List ℕ → Device → ℕ → List ℕ → Bool → Opened
  unfolding validated
  zb_open_tlv_area s hash flash_dev offset area validate =
      let (rc, bs) = zb_flash_read fl s flash_dev offset hdr_bytes [] in
      let hdr = hdr_of_bytes bs in
      let data_off = add32 offset hdr_bytes in
      let tlv_size = sub32 hdr.tlva_size hdr_bytes in
      let checked = if validate then validated s flash_dev data_off tlv_size hash hdr else ok in
      let (rc', area') = zb_flash_read fl s flash_dev data_off tlv_size area in
      if not (is_ok rc)
      then record { rc = rc; size = 0; area = area }
      else (if not (hdr.tlva_magic == tlv_area_magic)
          then record { rc = efault; size = 0; area = area }
          else (if not (is_ok checked)
              then record { rc = checked; size = 0; area = area }
              else (if not (is_ok rc')
                  then record { rc = rc'; size = 0; area = area' }
                  else record { rc = ok; size = tlv_size; area = area' })))

-- The next offset, and the entry.
unfoldable pub zb_step_tlv : List ℕ → ℕ → ℕ × TlvEntry
zb_step_tlv area offset =
    let entry : TlvEntry = record {
      type = byte_at area offset;
      length = byte_at area (offset + 1);
      value = offset + 2;
    } in
    (add32 offset (byte_at area (offset + 1) + 2), entry)

-- The loops of zb_img_get_info, `while ((entry.type != type) && (offset < tlv_size))`. They run on
-- fuel, and `none` says that it is used up.
unfoldable pub find_loop : List ℕ → ℕ → ℕ → (fuel offset : ℕ) → TlvEntry → Option TlvEntry
find_loop area tlv_size type zero offset entry = none
find_loop area tlv_size type (suc fuel) offset entry =
    let (offset', entry') = zb_step_tlv area offset in
    let rest = find_loop area tlv_size type fuel offset' entry' in
    if not (entry.type == type) && ltb offset tlv_size then rest else some entry

-- `offset = 0; entry.type = 0;` and the loop. The other fields of `entry` stay from before.
unfoldable pub find_tlv : List ℕ → ℕ → ℕ → TlvEntry → Option TlvEntry
find_tlv area tlv_size type entry =
    find_loop area tlv_size type (tlv_size + 1) 0 (record entry { type = 0 })
