-- ===== src/Platform/Example.antt =====
-- A small board over the simulated chip, on which the theorems are tried: sectors of 64 bytes,
-- slot 0 at 0x100, slot 1 at 0x200 and the swap status at 0x300, each of four sectors but the
-- last, which has one.
use zepboot.Base.{ℕ, ◌+◌, ◌%◌, ◌^◌, List, [], ◌∷◌, ◌==◌, if◌then◌else◌}
use mathlib.Core.Bool.{Bool}
use zepboot.Platform.{Checksums, Device}
use zepboot.Platform.Sim.{Chip, page}
use zepboot.Board.{Board, SltArea, ZbSltArea}

-- Checksums by sums, in place of the polynomials.
abbrev sum : ℕ → List ℕ → ℕ
sum acc [] = acc
sum acc (b ∷ bs) = sum (acc + b) bs

abbrev pub sums : Checksums
sums = record {
  crc8_ccitt = λ init bs. sum init bs % 2 ^ 8;
  crc32_ieee_update = λ init bs. sum init bs % 2 ^ 32;
}

abbrev pub row : SltArea
row = record {
  slt0_offset = 0x100;
  slt1_offset = 0x200;
  swpstat_offset = 0x300;
  slt0_size = 0x100;
  slt1_size = 0x100;
  swpstat_size = 0x40;
  slt0_devname = "flash";
  slt1_devname = "flash";
  swpstat_devname = "flash";
}

abbrev pub board : Board
board = record {
  sector_size = page;
  sram_base = 0x20000000;
  sram_size = 0x4000;
  slot_map = row ∷ [];
  device_get_binding = λ _. 1;
}

abbrev pub area : ZbSltArea
area = record {
  slt0_offset = 0x100;
  slt1_offset = 0x200;
  swpstat_offset = 0x300;
  slt0_size = 0x100;
  slt1_size = 0x100;
  swpstat_size = 0x40;
  slt0_fldev = 1;
  slt1_fldev = 1;
  swpstat_fldev = 1;
}

-- An erased chip.
abbrev pub erased : Chip
erased = record { mem = λ _ _. 0xff; opened = Bool.false }

-- The swap status holds one command, the start of a swap (0x01, 0x10, sector 0).
abbrev pub one_command : Device → ℕ → ℕ
one_command dev i =
    if i == 0x300
    then 0x01
    else (if i == 0x301
        then 0x10
        else (if i == 0x302 then 0x00 else (if i == 0x303 then 0x10 else 0xff)))

abbrev pub started : Chip
started = record { mem = one_command; opened = Bool.false }
