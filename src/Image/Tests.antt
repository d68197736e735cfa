-- ===== src/Image/Tests.antt =====
-- A signed image of 20 bytes behind its area of 131 bytes in slot 1, for slot 0, and no parameters yet.
use zepboot.Base.{
  arith, ℕ, ◌+◌, ◌-◌, ◌≡◌, refl, true, false, some, List, [], replicate, byte_at, leb, ltb, ◌&&◌,
  if◌then◌else◌, ◌==◌,
}
use zepboot.Platform.{ok}
use zepboot.Platform.Sim.{Chip, sim}
use zepboot.Platform.Example.{board, area}
use zepboot.Board.{zb_in_slt_area}
use zepboot.TinyCrypt.{TinyCrypt}
use zepboot.Flash.{zb_flash_read, zb_flash_align_offset}
use zepboot.Ec256.{zb_hash_flash, zb_sign_verify}
use zepboot.Tlv.{zb_open_tlv_area, find_tlv, find_loop, zb_step_tlv}
use zepboot.Prm
use zepboot.Prm.{zb_prm_read}
use zepboot.Image.{
  Locals, no_version, zb_img_get_info_wsc, zb_img_check, check_version, zb_img_get_info,
  zb_img_conv_version_u32,
}
use zepboot.Image.Version.{zb_img_conv_version_u32-older}
use zepboot.Image.Example.{signed_image}
use zepboot.Image.Hashed.{IsHashed, zb_img_get_info-IsHashed}
use zepboot.Image.Place.{zb_img_get_info-place}
use zepboot.Image.Check.{Accepted, zb_img_check-Accepted}

-- A toy that hashes to zeros, and whose signatures start as the key.
abbrev tc : TinyCrypt (List ℕ)
tc = record {
  sha256_init = some [];
  sha256_update = λ h _. some h;
  sha256_final = λ _. some (replicate 32 0);
  valid_public_key = λ _. 0;
  shared_secret = λ _ _. some (replicate 32 1);
  verify = λ key _ signature. byte_at key 0 == byte_at signature 0;
  aes_encrypt = λ _ block. some block;
  boot_pri_key = replicate 32 1;
  root_pub_key = replicate 64 2;
}

abbrev chip : Chip
chip = record {
  mem = λ dev i.
      if leb 0x200 i && ltb i (0x200 + 151) then byte_at signed_image (i - 0x200) else 0xff;
  opened = false;
}

abbrev locals : Locals
locals = record {
  tlv = [];
  hash = [];
  entry = record { type = 0; length = 0; value = 0 };
  info = record {
    hdr_start = 0;
    start = 0;
    enc_start = 0;
    end = 0;
    load_address = 0;
    version = no_version;
    enc_key = [];
    type = 0;
    flash_device = 0;
    is_valid = false;
  };
  prm = record {
    pri_ld_address = 0;
    sec_ld_address = 0;
    slt0_crc32 = 0;
    slt1_crc32 = 0;
    slt0_ver = 0;
    slt1_ver = 0;
  };
  crc32 = 0;
}

check_value : zb_img_check sim tc board locals chip area 1 ≡ (ok, 0)
unfolding zb_img_check check_version zb_img_get_info zb_open_tlv_area zb_flash_read sim
    zb_hash_flash zb_flash_align_offset zb_sign_verify find_tlv find_loop zb_step_tlv zb_in_slt_area
    zb_prm_read Prm.of_bytes
check_value = refl

zb_img_check-Accepted_example :
    let info = zb_img_get_info_wsc sim tc locals chip locals.info area 1 0 true in
    Accepted sim tc board locals chip area info (zb_in_slt_area area 1 info.load_address)
zb_img_check-Accepted_example =
    zb_img_check-Accepted sim tc board locals chip area 1 (λ i. (check_value i).0)

-- The header is read a sector above the slot, where there is none.
zb_img_get_info-place_example :
    let r = (zb_img_get_info sim tc locals chip locals.info area 1 64 false false).1 in
    (r.hdr_start ≡ 0x200) × (r.flash_device ≡ 1)
zb_img_get_info-place_example =
    zb_img_get_info-place sim tc locals chip locals.info area 1 64 false false (omega arith)

-- 1.2.3 is older than 1.3.0, whatever the builds are.
zb_img_conv_version_u32-older_example :
    ltb
      (zb_img_conv_version_u32 (record { major = 1; minor = 2; revision = 3; build = 9 }))
      (zb_img_conv_version_u32 (record { major = 1; minor = 3; revision = 0; build = 0 }))
    ≡ true
zb_img_conv_version_u32-older_example =
    zb_img_conv_version_u32-older (record { major = 1; minor = 2; revision = 3; build = 9 })
      (record { major = 1; minor = 3; revision = 0; build = 0 })
      (record { major_lt = omega arith; minor_lt = omega arith; revision_lt = omega arith })
      (record { major_lt = omega arith; minor_lt = omega arith; revision_lt = omega arith })

valid_value : (zb_img_get_info sim tc locals chip locals.info area 1 0 true true).1.is_valid ≡ true
unfolding zb_img_get_info zb_open_tlv_area zb_flash_read sim zb_hash_flash zb_flash_align_offset
    zb_sign_verify find_tlv find_loop zb_step_tlv
valid_value = refl

zb_img_get_info-IsHashed_example :
    IsHashed sim tc locals chip 0
      (zb_open_tlv_area sim tc chip locals.hash 1 0x200 locals.tlv true).area
      (zb_open_tlv_area sim tc chip locals.hash 1 0x200 locals.tlv true).size
      (zb_img_get_info sim tc locals chip locals.info area 1 0 true true).1
zb_img_get_info-IsHashed_example =
    zb_img_get_info-IsHashed sim tc locals chip locals.info area 1 0 true valid_value
