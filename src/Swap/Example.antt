-- ===== src/Swap/Example.antt =====
-- Images of three and two sectors on the small board, what local variables hold at first, and a toy
-- in place of TinyCrypt.
use zepboot.Base.{
  ℕ, true, some, ◌+◌, List, [], ◌++◌, map, replicate, byte_at, u8, arith, zero, suc, ◌∷◌, ◌<◌, ◌^◌,
}
use zepboot.TinyCrypt.{TinyCrypt}
use zepboot.Cmd.{ZbCmd}
use zepboot.Image.{ImgInfo, no_version}
use zepboot.Move.{ZbMoveCmd, ZbImgSwpInfo}
use zepboot.Swap.{SwapLocals}

-- A toy cipher.
abbrev pub enc : List ℕ → List ℕ → List ℕ
enc key block = map (λ b. u8 (b + byte_at key 0 + 7)) block

pub enc-lt : (key block : List ℕ) (i : ℕ) → byte_at (enc key block) i < 2 ^ 8
enc-lt key [] i = omega arith
enc-lt key (b ∷ block) zero = omega arith
enc-lt key (b ∷ block) (suc i) = enc-lt key block i

abbrev pub tc : TinyCrypt (List ℕ)
tc = record {
  sha256_init = some [];
  sha256_update = λ h bs. some (h ++ bs);
  sha256_final = λ h. some (replicate 32 0);
  valid_public_key = λ _. 0;
  shared_secret = λ _ _. some (replicate 32 1);
  verify = λ _ _ _. true;
  aes_encrypt = λ key block. some (enc key block);
  boot_pri_key = replicate 32 1;
  root_pub_key = replicate 64 2;
}

abbrev pub image : ℕ → ℕ → ImgInfo
image hdr_start end = record {
  hdr_start = hdr_start;
  start = hdr_start;
  enc_start = end;
  end = end;
  load_address = 0x100;
  version = no_version;
  enc_key = [];
  type = 0;
  flash_device = 1;
  is_valid = true;
}

-- 150 bytes in slot 0, and 100 bytes in slot 1, which are encrypted behind the first 16.
abbrev pub images : ZbImgSwpInfo
images = record {
  to = image 0x100 0x196;
  fr = record (image 0x200 0x264) { enc_start = 0x210 };
  loaded = true;
}

abbrev pub no_move : ZbMoveCmd
no_move = record { fr_off = 0; fr_eoff = 0; to_off = 0; key = []; fl_dev_fr = 0; fl_dev_to = 0 }

abbrev pub no_cmd : ZbCmd
no_cmd = record { cmd1 = 1; cmd2 = 0; cmd3 = 0; crc8 = 0 }

abbrev pub mine : SwapLocals
mine = record {
  locals = record {
    tlv = [];
    hash = [];
    entry = record { type = 0; length = 0; value = 0 };
    info = image 0 0;
    prm = record {
      pri_ld_address = 0;
      sec_ld_address = 0;
      slt0_crc32 = 0;
      slt1_crc32 = 0;
      slt0_ver = 0;
      slt1_ver = 0;
    };
    crc32 = 0;
  };
  cmd = no_cmd;
  mcmd = no_move;
  buf = replicate 512 0;
  swp_info = images;
  slt = 0;
}
