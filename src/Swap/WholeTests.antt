-- ===== src/Swap/WholeTests.antt =====
-- The theorems on a whole swap, for two images of three sectors that a chip holds, with the hash and the
-- keys of a toy in place of TinyCrypt.
use zepboot.Base.{
  ℕ, ◌-◌, ◌≡◌, refl, false, leb, byte_at, if◌then◌else◌, [], ◌∷◌, u8, ap, if_true, le→leb, arith,
  some, ◌⊎◌, inl, inr, bit_or, if_false, lt→not_leb, ◌∙◌, sym, ◌==◌,
}
use zepboot.Platform.Sim.{Chip, sim, sim_laws}
use zepboot.Platform.Example.{sums, board, one_command}
use zepboot.Board.{zb_in_ram, zb_in_slt_area}
use zepboot.Flash.{
  zb_flash_read, zb_flash_align_size, zb_flash_write, zb_flash_erase, zb_flash_align_offset,
}
use zepboot.Tlv.{zb_open_tlv_area, find_tlv, find_loop, zb_step_tlv}
use zepboot.Image.{zb_img_get_info, zb_img_check, zb_img_calc_crc32, zb_img_conv_version_u32}
use zepboot.Cmd.{
  ZbCmd, zb_cmd_read_slt0end, zb_cmd_read_swpstat, zb_cmd_read, zb_get_cmd_loc, zb_cmd_crc8,
  zb_cmd_read_slt1end, to_bytes, zb_cmd_write, zb_erase_loc, empty_u32,
}
use zepboot.Swap.{cmd1_mask_swp_perm, swp_slots, zb_get_img_swp_info, p3_record, p3_slt1}
use zepboot.Swap.Example.{enc, enc-lt, tc, images, no_cmd, mine, no_move}
use zepboot.Swap.Steps.{swp_start, swp_end, turns_left, swp_p3}
use zepboot.Swap.Loop.{stored}
use zepboot.Swap.TwoImages.{
  area, images_at, two_images, plan, slots, status_here, end0, end1, layout, sums-byte,
}
use zepboot.Swap.Complete.{zb_img_cmd_proc-Swapped}
use zepboot.Swap.Proc.{zb_img_cmd_proc, proc_p3}
use zepboot.Swap.Request.{going_on, begin_swap}
use zepboot.Swap.Cause.{request}
use zepboot.Swap.Begun.{begun, Exchanges, Informed}
use zepboot.Swap.Undone.{undoing, zb_img_swap-undone}
use zepboot.Cmd.Read.{zb_cmd_read-last_sound, LogOf}
use zepboot.Swap.Requested.{granted, zb_img_swap-requested}
use zepboot.Prm
use zepboot.Prm.{ZbPrm, zb_prm_read, prm_offset}
use zepboot.Prm.RoundTrip.{IsPrm}
use mathlib.Core.Path.{subst}
use zepboot.Swap.Order.{command}
use zepboot.Platform.{enoent, ok}
use zepboot.Swap.Sector.{Outside}
use zepboot.Swap.Record.{p3_wrote, p3_done, proc_p3-read}
use zepboot.Ec256.{zb_crc32_flash, zb_hash_flash, zb_sign_verify}
use zepboot.Base.Ranges.{cells}
use zepboot.Move.Chunk.{decrypted}
use zepboot.Cmd.Log.{entry, blank}
use zepboot.Cmd.Append.{sealed}

-- The swap status has the command that starts a swap.
abbrev ready : Chip
ready = record {
  mem = λ dev i.
      if leb 0x384 i
      then 0xff
      else (if leb 0x380 i then one_command dev (i - 0x80) else images_at i);
  opened = false;
}

found_value :
    zb_get_img_swp_info sim sums tc board mine area ready
      (record images { loaded = false })
      (stored sums false no_cmd swp_start 0)
    ≡ two_images
unfolding zb_get_img_swp_info swp_slots zb_img_get_info zb_open_tlv_area zb_flash_read sim find_tlv
    find_loop zb_step_tlv zb_in_ram
found_value = refl

ready_log : LogOf status_here ready (stored sums false no_cmd swp_start 0 ∷ [])
unfolding status_here sim_laws sim zb_flash_align_size
ready_log = entry refl refl refl (blank (λ i p q. ap u8 (if_true _ _ (le→leb 0x384 i p))))

-- The bound of the turns.
turns_value : turns_left plan swp_start 0 ≡ 15
unfolding turns_left
turns_value = refl

-- Eight turns for three sectors, two for the ends, and the first one.
zb_img_cmd_proc-Swapped_example :
    (s' : Chip) × (k : ℕ) × (done : ZbCmd) × (zb_img_cmd_proc sim sums tc board mine area 16 ready
        (record images { loaded = false })
      ≡ some s')
    × (cells (sim_laws.cell s' 1) 0x100 151
        ≡ cells (decrypted (enc []) 0x2d7 (sim_laws.cell ready 1)) 0x240 151)
    × (cells (sim_laws.cell s' 1) 0x240 151
        ≡ cells (decrypted (enc []) 0x197 (sim_laws.cell ready 1)) 0x100 151)
    × ((other : ZbCmd)
        → zb_cmd_read_swpstat sim sums board s' area other
          ≡ (ok, stored sums false no_cmd swp_end k))
    × ((other : ZbCmd) → zb_cmd_read_slt0end sim sums board s' area other ≡ (ok, sealed sums done))
    × ((other : ZbCmd) → (zb_cmd_read_slt1end sim sums board s' area other).0 ≡ enoent)
    × ((done.cmd1 ≡ 1) ⊎ (done.cmd1 ≡ bit_or 1 cmd1_mask_swp_perm))
zb_img_cmd_proc-Swapped_example =
    zb_img_cmd_proc-Swapped sim sums tc board mine area sim_laws enc (λ key block. refl) enc-lt
      two_images plan slots (inr (inl (omega arith))) status_here end0 end1 layout sums-byte no_cmd
      (omega arith) (omega arith) refl ready 16 (record images { loaded = false })
      (stored sums false no_cmd swp_start 0 ∷ []) found_value ready_log refl
      (omega (arith, turns_value)) (omega (arith, turns_value))

-- The end of slot 1 has a request for a swap that is permanent.
abbrev request_cmd : ZbCmd
request_cmd = record { cmd1 = 0x11; cmd2 = 0; cmd3 = 0; crc8 = 0x10 }

abbrev asked : Chip
asked = record {
  mem = λ dev i.
      if leb 0x344 i
      then 0xff
      else (if leb 0x340 i then byte_at (to_bytes request_cmd) (i - 0x340) else images_at i);
  opened = false;
}

idle_value : (going_on sim sums tc board mine area asked).swap ≡ false
unfolding going_on zb_cmd_read zb_get_cmd_loc zb_flash_read sim zb_flash_align_size zb_cmd_crc8
idle_value = refl

request_value : request sim sums tc board mine area asked ≡ (ok, request_cmd)
unfolding going_on zb_cmd_read zb_get_cmd_loc zb_flash_read sim zb_flash_align_size zb_cmd_crc8
request_value = refl

check_value : zb_img_check sim tc board mine.locals asked area mine.slt ≡ (ok, 0)
unfolding zb_img_check zb_img_get_info zb_open_tlv_area zb_flash_read sim zb_hash_flash
    zb_flash_align_offset zb_sign_verify find_tlv find_loop zb_step_tlv zb_prm_read zb_in_slt_area
    Prm.of_bytes
check_value = refl

informed_value :
    zb_get_img_swp_info sim sums tc board mine area
      (begun sim sums tc board mine area asked
        (granted sim sums tc board mine area request_cmd)).flash
      (record mine.swp_info { loaded = false })
      (stored sums false (granted sim sums tc board mine area request_cmd) swp_start 0)
    ≡ two_images
unfolding zb_get_img_swp_info swp_slots zb_img_get_info zb_open_tlv_area zb_flash_read sim find_tlv
    find_loop zb_step_tlv zb_in_ram begin_swap zb_erase_loc zb_cmd_write zb_get_cmd_loc zb_cmd_crc8
    zb_flash_align_size zb_flash_write zb_flash_erase
informed_value = refl

zb_img_swap-requested_example :
    Exchanges sim sums tc board mine area sim_laws enc
      (λ key block. refl)
      enc-lt
      two_images
      plan
      slots
      (inr (inl (omega arith)))
      status_here
      end0
      end1
      layout
      sums-byte
      refl
      refl
      refl
      16
      asked
      (granted sim sums tc board mine area request_cmd)
zb_img_swap-requested_example =
    zb_img_swap-requested sim sums tc board mine area sim_laws enc (λ key block. refl) enc-lt
      two_images plan slots (inr (inl (omega arith))) status_here end0 end1 layout sums-byte refl
      refl refl 16 asked request_cmd idle_value request_value refl check_value (omega arith)
      informed_value (omega (arith, turns_value)) (omega (arith, turns_value))

-- The end of slot 0 has the command of a swap that is not permanent.
abbrev swapped_cmd : ZbCmd
swapped_cmd = record { cmd1 = 0; cmd2 = 0x18; cmd3 = 3; crc8 = 0x1a }

abbrev swapped : Chip
swapped = record {
  mem = λ dev i.
      if leb 0x21c i
      then (if leb 0x240 i then (if leb 0x340 i then 0xff else images_at i) else 0xff)
      else (if leb 0x218 i then byte_at (to_bytes swapped_cmd) (i - 0x218) else images_at i);
  opened = false;
}

swapped_idle_value : (going_on sim sums tc board mine area swapped).swap ≡ false
unfolding going_on zb_cmd_read zb_get_cmd_loc zb_flash_read sim zb_flash_align_size zb_cmd_crc8
swapped_idle_value = refl

swapped_log : LogOf end0.here swapped (swapped_cmd ∷ [])
unfolding end0 sim_laws sim zb_flash_align_size
swapped_log = entry refl refl refl (
    blank (λ i p q.
      ap u8 (if_true _ _ (le→leb 0x21c i p) ∙ if_false _ _ (lt→not_leb 0x240 i (omega arith)))))

swapped_no_log : LogOf end1.here swapped []
unfolding end1 sim_laws sim zb_flash_align_size
swapped_no_log = blank (λ i p q. ap u8 (
    if_true _ _ (le→leb 0x21c i (omega arith))
    ∙ if_true _ _ (le→leb 0x240 i (omega arith))
    ∙ if_true _ _ (le→leb 0x340 i p)))

undone_value :
    Informed sim sums tc board mine area sim_laws enc
      (λ key block. refl)
      enc-lt
      two_images
      plan
      slots
      (inr (inl (omega arith)))
      status_here
      end0
      end1
      layout
      sums-byte
      refl
      refl
      refl
      swapped
      (undoing sim sums tc board mine area swapped_cmd)
unfolding zb_get_img_swp_info swp_slots zb_img_get_info zb_open_tlv_area zb_flash_read sim find_tlv
    find_loop zb_step_tlv zb_in_ram begin_swap zb_erase_loc zb_cmd_write zb_get_cmd_loc zb_cmd_crc8
    zb_flash_align_size zb_flash_write zb_flash_erase
undone_value = refl

zb_img_swap-undone_example :
    Exchanges sim sums tc board mine area sim_laws enc
      (λ key block. refl)
      enc-lt
      two_images
      plan
      slots
      (inr (inl (omega arith)))
      status_here
      end0
      end1
      layout
      sums-byte
      refl
      refl
      refl
      16
      swapped
      (undoing sim sums tc board mine area swapped_cmd)
zb_img_swap-undone_example =
    zb_img_swap-undone sim sums tc board mine area sim_laws enc (λ key block. refl) enc-lt
      two_images plan slots (inr (inl (omega arith))) status_here end0 end1 layout sums-byte refl
      refl refl 16 swapped swapped_cmd swapped_idle_value
      (λ other. zb_cmd_read-last_sound end1.here sums other swapped_no_log)
      (λ other. zb_cmd_read-last_sound end0.here sums other swapped_log) refl (omega arith)
      (omega arith) undone_value (omega (arith, turns_value)) (omega (arith, turns_value))

-- Twenty bytes of 8, and twenty bytes of 7.
abbrev prm : ZbPrm
prm = record {
  pri_ld_address = 0x100;
  sec_ld_address = 0x100;
  slt0_crc32 = 160;
  slt1_crc32 = 140;
  slt0_ver = 0x1000000;
  slt1_ver = 0x1000000;
}

wrote_value : (p3_wrote sim sums tc board mine area ready false no_cmd 3).0 ≡ prm
unfolding p3_record p3_slt1 zb_img_get_info zb_open_tlv_area zb_flash_read sim find_tlv find_loop
    zb_step_tlv zb_erase_loc zb_get_cmd_loc zb_flash_erase zb_img_calc_crc32 zb_img_conv_version_u32
    zb_crc32_flash zb_flash_align_offset
wrote_value = refl

words : IsPrm (p3_wrote sim sums tc board mine area ready false no_cmd 3).0
words = subst IsPrm (sym wrote_value) (record {
  pri = omega arith;
  sec = omega arith;
  crc0 = omega arith;
  crc1 = omega arith;
  ver0 = omega arith;
  ver1 = omega arith;
})

proc_p3-read_example :
    let s' =
      (proc_p3 sim sums tc board mine area ready no_move false (command no_cmd swp_p3 3)).flash in
    (zb_cmd_read_slt0end sim sums board s' area no_cmd
      ≡ (ok, sealed sums (p3_done sim sums tc board mine area ready false no_cmd 3)))
    × (zb_prm_read sim board s' area mine.locals.prm ≡ (
      if (p3_wrote sim sums tc board mine area ready false no_cmd 3).0.pri_ld_address == empty_u32
          then enoent
          else ok,
      (p3_wrote sim sums tc board mine area ready false no_cmd 3).0,
    ))
    × ((e i : ℕ)
        → Outside 1 (prm_offset sim board area) 64 e i
        → sim_laws.cell s' e i ≡ sim_laws.cell ready e i)
proc_p3-read_example =
    proc_p3-read sim sums tc board mine area end0 refl sums-byte ready no_move false no_cmd no_cmd
      mine.locals.prm 3 (omega arith) (omega arith) words
