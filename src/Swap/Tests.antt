-- ===== src/Swap/Tests.antt =====
-- The theorems on swaps, for images of three and two sectors on the small board, with the hash and
-- the keys of a toy in place of TinyCrypt.
use zepboot.Base.{
  true, ◌+◌, ltb, leb, ◌&&◌, ◌-◌, if◌then◌else◌, ◌≡◌, refl, arith, false, [], ℕ, ◌%◌, ◌≤◌, inl, inr,
  byte_at, u8, min, sub32, ne→==,
}
use zepboot.Platform.Sim.{Chip, sim, sim_laws}
use zepboot.Platform.Example.{sums, board, area, erased, started}
use zepboot.Swap.{cmd2_swp_end, end_fr, swp_slots, zb_get_img_swp_info}
use zepboot.Board.{zb_in_ram}
use zepboot.Flash.{zb_flash_erase, zb_flash_read, zb_flash_align_size}
use zepboot.Tlv.{zb_open_tlv_area, find_tlv, find_loop, zb_step_tlv}
use zepboot.Image.{zb_img_get_info}
use zepboot.Image.Example.{signed_image}
use zepboot.Cmd.{ZbCmd, zb_cmd_read, zb_get_cmd_loc, zb_cmd_crc8}
use zepboot.Swap.Request.{decide, restore, make_permanent, swap_request, going_on}
use zepboot.Swap.Cause.{Cause, decide-Cause}
use zepboot.Swap.Restart.{restart-first_sector, restart-later_sector}
use zepboot.Swap.Example.{image, enc, enc-lt, tc, images, no_move, no_cmd, mine}
use zepboot.Base.Ranges.{cells}
use zepboot.Move.Chunk.{decrypted}
use zepboot.Platform.Laws.{blanked}
use zepboot.Swap.Sector.{Outside}
use zepboot.Swap.Slots.{Slots}
use zepboot.Swap.Halfway.{Halfway, begins, takes}
use zepboot.Swap.Reach.{starts}
use zepboot.Swap.Exchange.{switch-Halfway}
use zepboot.Swap.Torn.{Torn, torn_first, switches-Torn}
use zepboot.Swap.Proc.{switch, proc_p1, moved}
use zepboot.Swap.Steps.{swp_start, move_up, swp_p1, swp_p3, Plan, next, turns_left}
use zepboot.Swap.Order.{IsPlan, command, switch-next}
use zepboot.Swap.Endless.{IsMoving, switches-IsMoving}
use zepboot.Move.{ZbImgSwpInfo}
use zepboot.Swap.End.{switches, switches-end}

abbrev plan : Plan
plan = record { inplace = false; plain = false; fr_sectors = 2; to_sectors = 3 }

images-IsPlan : IsPlan board.sector_size images false plan
images-IsPlan = record {
  some_size = omega arith;
  small = omega arith;
  stays = refl;
  is_plain = refl;
  fr = record { enough = omega arith; least = omega arith; few = omega arith };
  to = record { enough = omega arith; least = omega arith; few = omega arith };
  in_order = omega arith;
  fits = omega arith;
}

-- The sectors 0 to 2 of the image in slot 0 are moved up, from the last one on.
switch-next_example :
    (switch sim sums tc board mine area erased images no_move false
      (command no_cmd swp_start 0)).cmd
    ≡ command no_cmd move_up 2
unfolding next
switch-next_example =
    switch-next sim sums tc board mine area erased images no_move false plan no_cmd swp_start 0
      images-IsPlan (omega arith)

switches-end_example :
    (switches sim sums tc board mine area 15 erased images no_move false
      (command no_cmd swp_start 0)).cmd.cmd2
    ≡ cmd2_swp_end
unfolding turns_left
switches-end_example =
    switches-end sim sums tc board mine area 15 erased images no_move false plan no_cmd swp_start 0
      images-IsPlan (omega arith) (omega arith)

slots :
    Slots sim sums tc board mine area sim_laws enc
      (λ key block. refl)
      enc-lt
      images
      plan
      false
      0x100
unfolding sim_laws
slots = record {
  is_plan = images-IsPlan;
  block = refl;
  to_aligned = refl;
  fr_aligned = refl;
  present_to = omega arith;
  present_fr = omega arith;
  to_fits = omega arith;
  fr_fits = omega arith;
  room_to = omega arith;
  room_fr = omega arith;
  fr_in_order = omega arith;
  fr_end = omega arith;
  to_crypt = inr refl;
  fr_crypt = inl (refl, omega arith);
}

switch-Halfway_example :
    Halfway sim sums tc board mine area sim_laws enc
      (λ key block. refl)
      enc-lt
      images
      plan
      erased
      move_up
      2
      (switch sim sums tc board mine area erased images no_move false
        (command no_cmd swp_start 0)).flash
unfolding next
switch-Halfway_example =
    switch-Halfway sim sums tc board mine area sim_laws enc (λ key block. refl) enc-lt images plan
      slots (inr (inl (omega arith))) erased erased no_move no_cmd swp_start 0 starts (omega arith)
      (begins (λ i p. refl) (λ i p. refl))

-- The same 64 bytes in every sector, so that the image to swap out is also a sector up.
abbrev stored : Chip
stored = record { mem = λ _ i. i % 64; opened = false }

-- Phase 1 had erased its first sector.
abbrev cut_off : Chip
cut_off = record { mem = blanked (λ _ i. i % 64) 1 0x100 64; opened = false }

stored-Halfway :
    Halfway sim sums tc board mine area sim_laws enc
      (λ key block. refl)
      enc-lt
      images
      plan
      stored
      swp_p1
      0
      stored
unfolding sim_laws
stored-Halfway = takes (record {
  fr_in = λ i p. absurd (omega arith);
  to_in = λ i p. absurd (omega arith);
  fr_left = λ i p q. refl;
  to_left = λ i p q. omega arith;
})

cut_off-Torn :
    Torn sim sums tc board mine area sim_laws enc
      (λ key block. refl)
      enc-lt
      images
      plan
      slots
      (inr (inl (omega arith)))
      stored
      stored
      cut_off
      swp_p1
      0
unfolding sim_laws
cut_off-Torn = torn_first (omega arith) outside
  where
    outside : (e i : ℕ) → Outside 1 0x100 64 e i → u8 (cut_off.mem e i) ≡ u8 (stored.mem e i)
    outside e i (inl ne) = ground (arith, ne→== e 1 ne)
    outside e i (inr (inl before)) = ground arith
    outside e i (inr (inr behind)) = ground arith

switches-Torn_example :
    (m : ℕ) × (k : ℕ) × (m ≤ turns_left plan swp_p1 0)
    × ((switches sim sums tc board mine area m cut_off images no_move false
          (command no_cmd swp_p1 0)).cmd
        ≡ command no_cmd swp_p3 k)
    × ((cells
            (sim_laws.cell
              (switches sim sums tc board mine area m cut_off images no_move false
                (command no_cmd swp_p1 0)).flash
              1)
            0x100
            100
          ≡ cells (decrypted (enc []) 0x210 (sim_laws.cell stored 1)) 0x200 100)
        × (cells
              (sim_laws.cell
                (switches sim sums tc board mine area m cut_off images no_move false
                  (command no_cmd swp_p1 0)).flash
                1)
              0x200
              150
            ≡ cells (decrypted (enc []) 0x196 (sim_laws.cell stored 1)) 0x100 150))
switches-Torn_example =
    switches-Torn sim sums tc board mine area sim_laws enc (λ key block. refl) enc-lt images plan
      slots (inr (inl (omega arith))) stored stored cut_off no_move no_cmd swp_p1 0 (omega arith)
      stored-Halfway cut_off-Torn

-- A restart in phase 1: at sector 0 there is no area a sector above slot 1, at sector 1 an image is
-- in slot 0.
abbrev at_sector : ℕ → ZbCmd
at_sector k = command no_cmd swp_p1 k

restart-first_sector_example :
    (end_fr (zb_get_img_swp_info sim sums tc board mine area erased images (at_sector 0)) ≡ 0)
    × ((proc_p1 sim sums tc board mine area erased
          (zb_get_img_swp_info sim sums tc board mine area erased images (at_sector 0))
          no_move
          (at_sector 0)).flash
        ≡ erased)
unfolding zb_open_tlv_area zb_flash_read sim
restart-first_sector_example =
    restart-first_sector sim sums tc board mine area erased images no_move (at_sector 0) refl refl
      refl refl

abbrev half_swapped : Chip
half_swapped = record {
  mem = λ dev i.
      if leb 0x100 i && ltb i (0x100 + 151) then byte_at signed_image (i - 0x100) else 0xff;
  opened = false;
}

restart-later_sector_example :
    let info = zb_get_img_swp_info sim sums tc board mine area half_swapped images (at_sector 1) in
    (info.fr.hdr_start ≡ 0x100)
    × (info.fr.flash_device ≡ 1)
    × (info.to.hdr_start ≡ 0x200)
    × (info.to.flash_device ≡ 1)
    × ((proc_p1 sim sums tc board mine area half_swapped info no_move (at_sector 1)).flash
        ≡ moved sim sums tc board mine area
            (zb_flash_erase sim half_swapped 1 0x240 64).1
            (record {
              fr_off = 0x140;
              fr_eoff = info.fr.enc_start;
              fl_dev_fr = 1;
              to_off = 0x240;
              fl_dev_to = 1;
              key = info.fr.enc_key;
            })
            (min (sub32 (end_fr info) 64) 64))
unfolding zb_get_img_swp_info swp_slots zb_img_get_info zb_open_tlv_area zb_flash_read sim find_tlv
    find_loop zb_step_tlv zb_in_ram
restart-later_sector_example =
    restart-later_sector sim sums tc board mine area half_swapped images no_move (at_sector 1) refl
      refl (omega arith) (omega arith) (omega arith) refl

-- The swap status has the start of a swap.
decide-Cause_example : Cause sim sums tc board mine area started
unfolding decide restore make_permanent swap_request going_on zb_cmd_read zb_get_cmd_loc
    zb_flash_read sim zb_flash_align_size zb_cmd_crc8
decide-Cause_example = decide-Cause sim sums tc board mine area started refl

-- An image of 257 sectors of 64 bytes.
abbrev long : ZbImgSwpInfo
long = record { to = image 0x100 0x4140; fr = image 0x5000 0x5080; loaded = true }

switches-IsMoving_example :
    IsMoving no_cmd
      (switches sim sums tc board mine area 6 erased long no_move false
        (command no_cmd swp_start 0)).cmd
switches-IsMoving_example =
    switches-IsMoving sim sums tc board mine area long false (omega arith) (inr (omega arith)) refl
      no_cmd 6 erased no_move swp_start 0 starts (omega arith)
