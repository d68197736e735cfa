-- ===== src/Swap/TwoImages.antt =====
-- Two images of three sectors that a chip holds, the same area in both slots, on the board of the
-- example, with the places of the commands.
use zepboot.Base.{
  ℕ, ◌+◌, ◌-◌, refl, true, false, ◌&&◌, ltb, leb, byte_at, if◌then◌else◌, List, ◌++◌, take,
  replicate, arith, ◌<◌, ◌^◌, inr,
}
use zepboot.Platform.Sim.{sim, sim_laws}
use zepboot.Platform.Example.{sums, board}
use zepboot.Board.{ZbSltArea}
use zepboot.Flash.{zb_flash_align_size}
use zepboot.Image.{ImgVer, no_version}
use zepboot.Image.Example.{signed_image}
use zepboot.Cmd.{CmdLoc, zb_get_cmd_loc}
use zepboot.Move.{ZbImgSwpInfo}
use zepboot.Swap.Example.{enc, enc-lt, tc, image, mine}
use zepboot.Swap.Steps.{Plan}
use zepboot.Swap.Slots.{Slots}
use zepboot.Swap.Ends.{SectorEnd, slt0end, slt1end}
use zepboot.Swap.Layout.{Layout, before, behind}
use zepboot.Cmd.Read.{Location}

-- Slots of five sectors, the swap status behind them.
abbrev pub area : ZbSltArea
area = record {
  slt0_offset = 0x100;
  slt1_offset = 0x240;
  swpstat_offset = 0x380;
  slt0_size = 0x140;
  slt1_size = 0x140;
  swpstat_size = 0x40;
  slt0_fldev = 1;
  slt1_fldev = 1;
  swpstat_fldev = 1;
}

-- The same area in both slots, but not the same image behind it.
abbrev pub images_at : ℕ → ℕ
images_at i =
    if leb 0x240 i && ltb i (0x240 + 151)
    then byte_at signed_image (i - 0x240)
    else (if leb 0x100 i && ltb i (0x100 + 151)
        then byte_at (take 131 signed_image ++ replicate 20 8) (i - 0x100)
        else 0xff)

-- Version 1.0.0.
abbrev pub version : ImgVer
version = record no_version { major = 1 }

-- What zb_get_img_swp_info finds.
abbrev pub two_images : ZbImgSwpInfo
two_images = record {
  to = record (image 0x100 0x197) { start = 0x183; version = version };
  fr = record (image 0x240 0x2d7) { start = 0x2c3; version = version };
  loaded = true;
}

abbrev pub plan : Plan
plan = record { inplace = false; plain = true; fr_sectors = 3; to_sectors = 3 }

pub slots :
    Slots sim sums tc board mine area sim_laws enc
      (λ key block. refl)
      enc-lt
      two_images
      plan
      false
      0x100
unfolding sim_laws
slots = record {
  is_plan = record {
    some_size = omega arith;
    small = omega arith;
    stays = refl;
    is_plain = refl;
    fr = record { enough = omega arith; least = omega arith; few = omega arith };
    to = record { enough = omega arith; least = omega arith; few = omega arith };
    in_order = omega arith;
    fits = omega arith;
  };
  block = refl;
  to_aligned = refl;
  fr_aligned = refl;
  present_to = omega arith;
  present_fr = omega arith;
  to_fits = omega arith;
  fr_fits = omega arith;
  room_to = omega arith;
  room_fr = omega arith;
  fr_in_order = omega arith;
  fr_end = omega arith;
  to_crypt = inr refl;
  fr_crypt = inr refl;
}

abbrev pub swpstat : CmdLoc
swpstat = record { start = 0x380; end = 0x3c0; fl_dev = 1 }

unfoldable pub status_here : Location sim_laws board area 2 swpstat 16
unfolding sim_laws sim zb_flash_align_size zb_get_cmd_loc
status_here = record {
  found = refl;
  present = omega arith;
  start = 0x380;
  first = refl;
  aligned = refl;
  some_room = omega arith;
  stop = refl;
  fits = omega arith;
}

-- Behind the 24 bytes of the parameters there is room for ten commands.
unfoldable pub end0 : SectorEnd board area sim_laws 0 (slt0end board area) 10
unfolding sim_laws sim zb_flash_align_size zb_get_cmd_loc
end0 = record {
  here = record {
    found = refl;
    present = omega arith;
    start = 0x218;
    first = refl;
    aligned = refl;
    some_room = omega arith;
    stop = refl;
    fits = omega arith;
  };
  low = omega arith;
  aligned = refl;
  sector = refl;
}

unfoldable pub end1 : SectorEnd board area sim_laws 1 (slt1end board area) 16
unfolding sim_laws sim zb_flash_align_size zb_get_cmd_loc
end1 = record {
  here = record {
    found = refl;
    present = omega arith;
    start = 0x340;
    first = refl;
    aligned = refl;
    some_room = omega arith;
    stop = refl;
    fits = omega arith;
  };
  low = omega arith;
  aligned = refl;
  sector = refl;
}

pub layout : Layout board area two_images 0x100 swpstat
layout = record {
  ends = record {
    status_end0 = behind (omega arith);
    status_end1 = behind (omega arith);
    both = before (omega arith);
  };
  to = record {
    log = before (omega arith);
    end0 = before (omega arith);
    end1 = before (omega arith);
  };
  fr = record {
    log = before (omega arith);
    end0 = behind (omega arith);
    end1 = before (omega arith);
  };
}

pub sums-byte : (init : ℕ) (bs : List ℕ) → sums.crc8_ccitt init bs < 2 ^ 8
sums-byte init bs = omega arith
