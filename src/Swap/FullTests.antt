-- ===== src/Swap/FullTests.antt =====
-- The theorem on a full swap status, for sixteen commands that start the swap of two images of three
-- sectors.
use zepboot.Base.{
  ◌+◌, ◌%◌, ◌≡◌, refl, arith, false, none, ltb, leb, ◌&&◌, if◌then◌else◌, replicate, inr, inl,
}
use zepboot.Platform.Sim.{Chip, sim, sim_laws}
use zepboot.Platform.Example.{sums, board, one_command}
use zepboot.Board.{zb_in_ram}
use zepboot.Flash.{zb_flash_read, zb_flash_align_size}
use zepboot.Tlv.{zb_open_tlv_area, find_tlv, find_loop, zb_step_tlv}
use zepboot.Image.{zb_img_get_info}
use zepboot.Cmd.{ZbCmd}
use zepboot.Cmd.Log.{entry, blank}
use zepboot.Cmd.Read.{LogOf}
use zepboot.Swap.{swp_slots, zb_get_img_swp_info}
use zepboot.Swap.Example.{enc, enc-lt, tc, images, no_cmd, mine}
use zepboot.Swap.Steps.{swp_start}
use zepboot.Swap.Loop.{stored}
use zepboot.Swap.Reach.{starts}
use zepboot.Swap.TwoImages.{
  area, images_at, two_images, plan, slots, status_here, layout, sums-byte,
}
use zepboot.Swap.Proc.{zb_img_cmd_proc}
use zepboot.Swap.Full.{zb_img_cmd_proc-full}

-- Every record of the swap status starts a swap.
abbrev full : Chip
full = record {
  mem =
      λ dev i. if leb 0x380 i && ltb i 0x3c0 then one_command dev (0x300 + i % 4) else images_at i;
  opened = false;
}

abbrev start_cmd : ZbCmd
start_cmd = stored sums false no_cmd swp_start 0

found_value :
    zb_get_img_swp_info sim sums tc board mine area full
      (record images { loaded = false })
      start_cmd
    ≡ two_images
unfolding zb_get_img_swp_info swp_slots zb_img_get_info zb_open_tlv_area zb_flash_read sim find_tlv
    find_loop zb_step_tlv zb_in_ram
found_value = refl

full_log : LogOf status_here full (replicate 16 start_cmd)
unfolding status_here sim_laws sim zb_flash_align_size
full_log = entry refl refl refl (
    entry refl refl refl (
      entry refl refl refl (
        entry refl refl refl (
          entry refl refl refl (
            entry refl refl refl (
              entry refl refl refl (
                entry refl refl refl (
                  entry refl refl refl (
                    entry refl refl refl (
                      entry refl refl refl (
                        entry refl refl refl (
                          entry refl refl refl (
                            entry refl refl refl (
                              entry refl refl refl (
                                entry refl refl refl
                                  (blank (λ i p q. absurd (omega arith))))))))))))))))))

zb_img_cmd_proc-full_example :
    zb_img_cmd_proc sim sums tc board mine area 1000 full (record images { loaded = false }) ≡ none
zb_img_cmd_proc-full_example =
    zb_img_cmd_proc-full sim sums tc board mine area sim_laws enc (λ key block. refl) enc-lt
      two_images plan slots (inr (inl (omega arith))) status_here layout.to layout.fr sums-byte
      no_cmd (omega arith) (omega arith) refl 1000 full (record images { loaded = false }) swp_start
      0 (replicate 16 start_cmd) starts (omega arith) (omega arith) found_value full_log refl refl
