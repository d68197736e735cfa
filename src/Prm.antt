-- ===== src/Prm.antt =====
-- The boot parameters in the last sector of slot 0: `struct zb_prm`, zb_prm_read and zb_prm_write
-- of zepboot/src/zb_flash.c.
pub mod RoundTrip
mod Tests
use zepboot.Base.{
  ℕ, ◌+◌, ◌/◌, ◌%◌, ◌^◌, List, [], ◌∷◌, ◌++◌, ◌==◌, if◌then◌else◌, add32, sub32, le32,
}
use zepboot.Platform.{Rc, ok, enoent, is_ok, Flash}
use zepboot.Board.{Board, ZbSltArea}
use zepboot.Flash.{zb_flash_read, zb_flash_write}
use zepboot.Cmd.{prm_bytes, empty_u32}

pub record ZbPrm : Type 0 where
  pub pri_ld_address : ℕ
  pub sec_ld_address : ℕ
  pub slt0_crc32 : ℕ
  pub slt1_crc32 : ℕ
  pub slt0_ver : ℕ
  pub slt1_ver : ℕ

-- The four bytes of a word, the lowest first.
abbrev pub word_bytes : ℕ → List ℕ
word_bytes w = (w % 2 ^ 8) ∷ (w / 2 ^ 8 % 2 ^ 8) ∷ (w / 2 ^ 16 % 2 ^ 8) ∷ (w / 2 ^ 24 % 2 ^ 8) ∷ []

-- The packed structure as bytes, and back.
unfoldable pub to_bytes : ZbPrm → List ℕ
to_bytes prm =
    word_bytes prm.pri_ld_address
    ++ (word_bytes prm.sec_ld_address
        ++ (word_bytes prm.slt0_crc32
            ++ (word_bytes prm.slt1_crc32 ++ (word_bytes prm.slt0_ver ++ word_bytes prm.slt1_ver))))

unfoldable pub of_bytes : List ℕ → ZbPrm
of_bytes bs = record {
  pri_ld_address = le32 bs 0;
  sec_ld_address = le32 bs 4;
  slt0_crc32 = le32 bs 8;
  slt1_crc32 = le32 bs 12;
  slt0_ver = le32 bs 16;
  slt1_ver = le32 bs 20;
}

module _ {S : Type 0} (fl : Flash S) (board : Board) where
  -- The offset of the last sector of slot 0.
  abbrev pub prm_offset : ZbSltArea → ℕ
  prm_offset area = sub32 (add32 area.slt0_offset area.slt0_size) board.sector_size

  -- `prm` is what `*prm` holds before the call, and the result has what it holds after it.
  unfoldable pub zb_prm_read : S → ZbSltArea → ZbPrm → Rc × ZbPrm
  zb_prm_read s area prm =
      let (rc, bs) =
        zb_flash_read fl s area.slt0_fldev (prm_offset area) prm_bytes (to_bytes prm) in
      let prm' = of_bytes bs in
      if is_ok rc
      then (if prm'.pri_ld_address == empty_u32 then (enoent, prm') else (ok, prm'))
      else (rc, prm')

  unfoldable pub zb_prm_write : S → ZbSltArea → ZbPrm → Rc × S
  zb_prm_write s area prm = zb_flash_write fl s area.slt0_fldev (prm_offset area) (to_bytes prm)
