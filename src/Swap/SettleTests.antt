-- ===== src/Swap/SettleTests.antt =====
-- The theorem on a whole swap in place, for an encrypted image of four sectors that a chip holds in slot
-- 1, with the hash and the keys of a toy in place of TinyCrypt.
use zepboot.Base.{
  ℕ, ◌-◌, ◌≡◌, ◌<◌, ◌^◌, ◌⊎◌, refl, ap, true, false, some, ltb, leb, byte_at, u8, bit_or, inl,
  if◌then◌else◌, List, [], ◌∷◌, ◌++◌, replicate, arith, if_true, le→leb,
}
use zepboot.Base.Ranges.{cells}
use zepboot.Platform.{ok, enoent}
use zepboot.Platform.Sim.{Chip, sim, sim_laws}
use zepboot.Platform.Example.{sums, board}
use zepboot.Board.{ZbSltArea, zb_in_ram}
use zepboot.Flash.{zb_flash_read, zb_flash_align_size}
use zepboot.Ec256.{zb_get_encr_key}
use zepboot.Tlv.{zb_open_tlv_area, find_tlv, find_loop, zb_step_tlv}
use zepboot.Image.{no_version, zb_img_get_info}
use zepboot.Cmd.{
  ZbCmd, CmdLoc, to_bytes, zb_get_cmd_loc, zb_cmd_read_slt0end, zb_cmd_read_slt1end,
  zb_cmd_read_swpstat,
}
use zepboot.Cmd.Log.{entry, blank}
use zepboot.Cmd.Read.{Location, LogOf}
use zepboot.Cmd.Append.{sealed}
use zepboot.Move.{ZbImgSwpInfo}
use zepboot.Move.Chunk.{decrypted}
use zepboot.Swap.{cmd1_mask_swp_perm, swp_slots, zb_get_img_swp_info}
use zepboot.Swap.Example.{enc, enc-lt, tc, image, images, no_cmd, mine}
use zepboot.Swap.Proc.{zb_img_cmd_proc}
use zepboot.Swap.Steps.{swp_start, swp_end, Plan, turns_left}
use zepboot.Swap.Slots.{Slots}
use zepboot.Swap.Ends.{SectorEnd, slt0end, slt1end}
use zepboot.Swap.Layout.{Layout, before, behind}
use zepboot.Swap.InPlace.{IsInPlace}
use zepboot.Swap.Loop.{stored}
use zepboot.Swap.Settle.{zb_img_cmd_proc-Decrypted}

-- Slots of five and six sectors, and two sectors of swap status.
abbrev area : ZbSltArea
area = record {
  slt0_offset = 0x100;
  slt1_offset = 0x240;
  swpstat_offset = 0x3c0;
  slt0_size = 0x140;
  slt1_size = 0x180;
  swpstat_size = 0x80;
  slt0_fldev = 1;
  slt1_fldev = 1;
  swpstat_fldev = 1;
}

-- Twenty bytes behind an area of 208 bytes that has a public key for the encryption.
abbrev encrypted_image : List ℕ
encrypted_image =
    (0x41 ∷ 0x56 ∷ 0x4c ∷ 0x54 ∷ 208 ∷ 0 ∷ 0 ∷ 0 ∷ replicate 64 2)
    ++ ((0x10 ∷ 1 ∷ 0 ∷ 0x20 ∷ 20 ∷ 208 ∷ 0 ∷ 0 ∷ 0 ∷ 20 ∷ 0 ∷ 0 ∷ 0 ∷ 0x10 ∷ 3 ∷ 0 ∷ 0 ∷ 1 ∷ [])
        ++ ((replicate 7 0 ++ (0x30 ∷ 32 ∷ replicate 32 0))
            ++ ((0x40 ∷ 64 ∷ replicate 64 5) ++ ((0x50 ∷ 9 ∷ replicate 9 0) ++ replicate 20 7))))

abbrev start_cmd : ZbCmd
start_cmd = stored sums true no_cmd swp_start 0

-- The swap status has the command that starts a swap in place.
abbrev ready : Chip
ready = record {
  mem = λ dev i.
      if leb 0x3c4 i
      then 0xff
      else (if leb 0x3c0 i
          then byte_at (to_bytes start_cmd) (i - 0x3c0)
          else (if leb 0x240 i
              then (if ltb i 0x324 then byte_at encrypted_image (i - 0x240) else 0xff)
              else 0xff));
  opened = false;
}

-- What zb_get_img_swp_info finds, in slot 1 for both images.
abbrev staying : ZbImgSwpInfo
staying =
    let one = record (image 0x240 0x324) {
      start = 0x310;
      enc_start = 0x310;
      load_address = 0x310;
      version = record no_version { major = 1 };
      enc_key = replicate 16 0;
    } in
    record { to = one; fr = one; loaded = true }

found_value :
    zb_get_img_swp_info sim sums tc board mine area ready
      (record images { loaded = false })
      start_cmd
    ≡ staying
unfolding zb_get_img_swp_info swp_slots zb_img_get_info zb_open_tlv_area zb_flash_read sim find_tlv
    find_loop zb_step_tlv zb_in_ram zb_get_encr_key
found_value = refl

abbrev plan : Plan
plan = record { inplace = true; plain = false; fr_sectors = 4; to_sectors = 4 }

slots :
    Slots sim sums tc board mine area sim_laws enc
      (λ key block. refl)
      enc-lt
      staying
      plan
      true
      0x140
unfolding sim_laws
slots = record {
  is_plan = record {
    some_size = omega arith;
    small = omega arith;
    stays = refl;
    is_plain = refl;
    fr = record { enough = omega arith; least = omega arith; few = omega arith };
    to = record { enough = omega arith; least = omega arith; few = omega arith };
    in_order = omega arith;
    fits = omega arith;
  };
  block = refl;
  to_aligned = refl;
  fr_aligned = refl;
  present_to = omega arith;
  present_fr = omega arith;
  to_fits = omega arith;
  fr_fits = omega arith;
  room_to = omega arith;
  room_fr = omega arith;
  fr_in_order = omega arith;
  fr_end = omega arith;
  to_crypt = inl (refl, omega arith);
  fr_crypt = inl (refl, omega arith);
}

in_place : IsInPlace staying plan
in_place = record {
  same_start = refl;
  same_sectors = refl;
  some_there = omega arith;
  encrypted = refl;
}

abbrev swpstat : CmdLoc
swpstat = record { start = 0x3c0; end = 0x440; fl_dev = 1 }

status_here : Location sim_laws board area 2 swpstat 32
unfolding sim_laws sim zb_flash_align_size zb_get_cmd_loc
status_here = record {
  found = refl;
  present = omega arith;
  start = 0x3c0;
  first = refl;
  aligned = refl;
  some_room = omega arith;
  stop = refl;
  fits = omega arith;
}

end0 : SectorEnd board area sim_laws 0 (slt0end board area) 10
unfolding sim_laws sim zb_flash_align_size zb_get_cmd_loc
end0 = record {
  here = record {
    found = refl;
    present = omega arith;
    start = 0x218;
    first = refl;
    aligned = refl;
    some_room = omega arith;
    stop = refl;
    fits = omega arith;
  };
  low = omega arith;
  aligned = refl;
  sector = refl;
}

end1 : SectorEnd board area sim_laws 1 (slt1end board area) 16
unfolding sim_laws sim zb_flash_align_size zb_get_cmd_loc
end1 = record {
  here = record {
    found = refl;
    present = omega arith;
    start = 0x380;
    first = refl;
    aligned = refl;
    some_room = omega arith;
    stop = refl;
    fits = omega arith;
  };
  low = omega arith;
  aligned = refl;
  sector = refl;
}

layout : Layout board area staying 0x140 swpstat
layout = record {
  ends = record {
    status_end0 = behind (omega arith);
    status_end1 = behind (omega arith);
    both = before (omega arith);
  };
  to = record {
    log = before (omega arith);
    end0 = behind (omega arith);
    end1 = before (omega arith);
  };
  fr = record {
    log = before (omega arith);
    end0 = behind (omega arith);
    end1 = before (omega arith);
  };
}

ready_log : LogOf status_here ready (start_cmd ∷ [])
unfolding status_here sim_laws sim zb_flash_align_size
ready_log = entry refl refl refl (blank (λ i p q. ap u8 (if_true _ _ (le→leb 0x3c4 i p))))

sums-byte : (init : ℕ) (bs : List ℕ) → sums.crc8_ccitt init bs < 2 ^ 8
sums-byte init bs = omega arith

turns_value : turns_left plan swp_start 0 ≡ 18
unfolding turns_left
turns_value = refl

zb_img_cmd_proc-Decrypted_example :
    (s' : Chip) × (k : ℕ) × (done : ZbCmd) × (zb_img_cmd_proc sim sums tc board mine area 19 ready
        (record images { loaded = false })
      ≡ some s')
    × (cells (sim_laws.cell s' 1) 0x240 228
        ≡ cells (decrypted (enc (replicate 16 0)) 0x310 (sim_laws.cell ready 1)) 0x240 228)
    × ((other : ZbCmd)
        → zb_cmd_read_swpstat sim sums board s' area other
          ≡ (ok, stored sums true no_cmd swp_end k))
    × ((other : ZbCmd) → zb_cmd_read_slt0end sim sums board s' area other ≡ (ok, sealed sums done))
    × ((other : ZbCmd) → (zb_cmd_read_slt1end sim sums board s' area other).0 ≡ enoent)
    × ((done.cmd1 ≡ 1) ⊎ (done.cmd1 ≡ bit_or 1 cmd1_mask_swp_perm))
zb_img_cmd_proc-Decrypted_example =
    zb_img_cmd_proc-Decrypted sim sums tc board mine area sim_laws enc (λ key block. refl) enc-lt
      staying plan slots in_place status_here end0 end1 layout sums-byte no_cmd (omega arith)
      (omega arith) refl ready 19 (record images { loaded = false }) (start_cmd ∷ []) found_value
      ready_log refl (omega (arith, turns_value)) (omega (arith, turns_value))
