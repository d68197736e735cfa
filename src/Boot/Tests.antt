-- ===== src/Boot/Tests.antt =====
-- Slot 0 has no image, and the parameters say so by the checksum 0: its address is started.
use zepboot.Base.{
  arith, ◌≡◌, refl, false, ◌&&◌, leb, ltb, ◌==◌, if◌then◌else◌, some, ◌⊎◌, ◌+◌, ◌||◌,
}
use zepboot.Platform.Sim.{Chip, sim}
use zepboot.Platform.Example.{sums, board, area, one_command}
use zepboot.Flash.{zb_flash_read, zb_flash_align_offset, zb_flash_align_size}
use zepboot.Board.{zb_in_slt_area, zb_in_ram, zb_slt_area_cnt, zb_slt_area_get}
use zepboot.Cmd.{zb_cmd_read, zb_get_cmd_loc, zb_cmd_crc8}
use zepboot.Prm
use zepboot.Prm.{zb_prm_read}
use zepboot.Image.{zb_img_get_info, zb_img_calc_crc32}
use zepboot.Ec256.{zb_crc32_flash}
use zepboot.Tlv.{zb_open_tlv_area}
use zepboot.Swap.Example.{tc, mine}
use zepboot.Swap.Request.{zb_img_swap, decide, restore, make_permanent, swap_request, going_on}
use zepboot.Move.{Memory}
use zepboot.Boot.First.{IsFirst, main-IsFirst}
use zepboot.Boot.{main, swap_loop, Booting, boots, boot, load_address, prepare, image_crc32}
use zepboot.Boot.Tested.{Booted, parameters, chosen}

-- pri_ld_address and sec_ld_address are 0x100.
abbrev chip : Chip
chip = record {
  mem = λ dev i.
      if i == 0x1c1
      then 1
      else (if i == 0x1c5 then 1 else (if leb 0x1c0 i && ltb i 0x1d8 then 0 else 0xff));
  opened = false;
}

-- The end of slot 0 also has the command of a permanent swap.
abbrev permanent : Memory Chip
permanent = record {
  flash = record {
    mem =
        λ dev i. if leb 0x1d8 i && ltb i 0x1dc then one_command dev (i + 0x128) else chip.mem dev i;
    opened = false;
  };
  ram = λ _. 0;
}

main_value : main sim sums tc board mine 1 area permanent ≡ some (boots 0x100, permanent)
unfolding main swap_loop zb_slt_area_cnt zb_slt_area_get zb_img_swap decide restore make_permanent
    swap_request going_on zb_cmd_read zb_get_cmd_loc zb_cmd_crc8 zb_flash_read sim
    zb_flash_align_size boot zb_prm_read Prm.of_bytes prepare zb_in_slt_area load_address
    zb_img_calc_crc32 zb_crc32_flash zb_img_get_info zb_open_tlv_area zb_flash_align_offset
    zb_in_ram
main_value = refl

main-IsFirst_example :
    (b : Booting Chip) × IsFirst sim sums tc board mine 1 b
    × Booted sim sums tc board mine b 0x100 permanent
    × (((zb_in_slt_area b.area 0 0x100 || zb_in_ram board 0x100) ≡ false)
        ⊎ ((parameters sim sums tc board mine b).1.slt0_crc32
            ≡ (image_crc32 sim sums tc board mine b.memory.flash b.area 0
                ((chosen sim sums tc board mine b).1, (chosen sim sums tc board mine b).2)).1))
unfolding zb_slt_area_cnt
main-IsFirst_example =
    main-IsFirst sim sums tc board mine 1 area permanent permanent 0x100 (omega arith) main_value
