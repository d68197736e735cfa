-- ===== src/Swap/Sector.antt =====
-- Erasing a sector and moving bytes to it: what the commands of zb_img_cmd_proc in
-- zepboot/src/zb_move.c do to the flash.
use zepboot.Base.{
  ℕ, ◌+◌, ◌-◌, ◌%◌, ◌^◌, ◌≤◌, ◌<◌, ◌≡◌, ◌≢◌, ◌⊎◌, ◌∙◌, refl, arith, false, List, byte_at, inl, inr,
  ne→==,
}
use native.Mathlib.Nat.{mod_self}
use zepboot.Platform.{Flash, Device, null}
use zepboot.Platform.Laws.{FlashLaws, blanked}
use zepboot.TinyCrypt.{TinyCrypt}
use zepboot.Flash.{zb_flash_erase}
use zepboot.Flash.Write.{zb_flash_erase-lem}
use zepboot.Aes.Stream.{Encrypts}
use zepboot.Move.{ZbMoveCmd, zb_img_move}
use zepboot.Move.Chunk.{decrypted}
use zepboot.Move.Copy.{zb_img_move-Moved}
use zepboot.Move.Paste.{Apart, pasted}
use zepboot.Move.Turn.{IsWhole}
use zepboot.Board.{Board}

-- A cell that is not in the sector at `off`.
abbrev pub Outside : Device → ℕ → ℕ → Device → ℕ → Type 0
Outside dev off sector e i = (e ≢ dev) ⊎ ((i < off) ⊎ (off + sector ≤ i))

blanked-Apart :
    (mem : Device → ℕ → ℕ) (fr_dev fr dev to sector i : ℕ)
    → Apart fr_dev fr dev to sector
    → fr ≤ i
    → i < fr + sector
    → blanked mem dev to sector fr_dev i ≡ mem fr_dev i
blanked-Apart mem fr_dev fr dev to sector i (inl ne) p q = ground (arith, ne→== fr_dev dev ne)
blanked-Apart mem fr_dev fr dev to sector i (inr (inl before)) p q = ground arith
blanked-Apart mem fr_dev fr dev to sector i (inr (inr behind)) p q = ground arith

pasted-Outside :
    (mem mem' : Device → ℕ → ℕ) (dev to sector : ℕ) (f : ℕ → ℕ) (fr len e i : ℕ)
    → len ≤ sector
    → mem' e i ≡ blanked mem dev to sector e i
    → Outside dev to sector e i
    → pasted mem' dev to f fr len e i ≡ mem e i
pasted-Outside mem mem' dev to sector f fr len e i h same (inl ne) = ground (arith, ne→== e dev ne)
pasted-Outside mem mem' dev to sector f fr len e i h same (inr (inl before)) = ground arith
pasted-Outside mem mem' dev to sector f fr len e i h same (inr (inr behind)) = ground arith

pasted_inside :
    (mem : Device → ℕ → ℕ) (dev to : ℕ) (f : ℕ → ℕ) (fr len i : ℕ)
    → i < len
    → pasted mem dev to f fr len dev (to + i) ≡ f (fr + i)
pasted_inside mem dev to f fr len i h =
    let at : fr + (to + i - to) ≡ fr + i = omega arith in rw at (ground arith)

Apart-shorter :
    (fr_dev fr dev to len sector : ℕ)
    → len ≤ sector
    → Apart fr_dev fr dev to sector
    → Apart fr_dev fr dev to len
Apart-shorter fr_dev fr dev to len sector h (inl ne) = inl ne
Apart-shorter fr_dev fr dev to len sector h (inr (inl before)) = inr (inl (omega arith))
Apart-shorter fr_dev fr dev to len sector h (inr (inr behind)) = inr (inr (omega arith))

pub decrypted_same :
    (enc : List ℕ → List ℕ) (fr_eoff : ℕ) (mem mem' : ℕ → ℕ) (i : ℕ)
    → mem i ≡ mem' i
    → decrypted enc fr_eoff mem i ≡ decrypted enc fr_eoff mem' i
decrypted_same enc fr_eoff mem mem' i e = rw e refl

module _ {S H : Type 0} (fl : Flash S) (tc : TinyCrypt H) (board : Board) (buf : List ℕ)
    (laws : FlashLaws fl board.sector_size) (enc : List ℕ → List ℕ → List ℕ)
    (encrypts : (key : List ℕ) → Encrypts tc.aes_encrypt key (enc key))
    (enc-lt : (key block : List ℕ) (i : ℕ) → byte_at (enc key block) i < 2 ^ 8) where
  open board use {sector_size}
  open laws use {cell, size}

  -- What a transfer needs: a move inside the devices, to a sector that is not the one it reads.
  pub record CanTransfer (mcmd : ZbMoveCmd) (len : ℕ) : Type 0 where
    pub present_fr : mcmd.fl_dev_fr ≢ null
    pub present_to : mcmd.fl_dev_to ≢ null
    pub aligned : mcmd.to_off % sector_size ≡ 0
    pub aligned_block : mcmd.to_off % 8 ≡ 0
    pub whole_sector : sector_size % 8 ≡ 0
    pub short : len ≤ sector_size
    pub from_fits : mcmd.fr_off + len ≤ size mcmd.fl_dev_fr
    pub to_fits : mcmd.to_off + sector_size ≤ size mcmd.fl_dev_to
    pub apart : Apart mcmd.fl_dev_fr mcmd.fr_off mcmd.fl_dev_to mcmd.to_off sector_size
    pub whole : IsWhole (mcmd.fr_eoff - mcmd.fr_off) len
    pub blocks : (mcmd.fr_off - mcmd.fr_eoff) % 16 ≡ 0

  -- The flash behind an erase of the sector to write, and the move.
  abbrev pub erased_sector : S → ZbMoveCmd → S
  erased_sector s mcmd = (zb_flash_erase fl s mcmd.fl_dev_to mcmd.to_off sector_size).1

  abbrev pub transfer : S → ZbMoveCmd → ℕ → S
  transfer s mcmd len =
      (zb_img_move fl tc buf (record { flash = erased_sector s mcmd; ram = λ _. 0 }) mcmd len
        false).1.flash

  -- The bytes that come from the flash.
  abbrev pub taken : S → ZbMoveCmd → ℕ → ℕ
  taken s mcmd = decrypted (enc mcmd.key) mcmd.fr_eoff (cell s mcmd.fl_dev_fr)

  pub record Transferred (s s' : S) (mcmd : ZbMoveCmd) (len : ℕ) : Type 0 where
    pub gets :
        (i : ℕ)
        → i < len
        → cell s' mcmd.fl_dev_to (mcmd.to_off + i) ≡ taken s mcmd (mcmd.fr_off + i)
    pub keeps :
        (e i : ℕ) → Outside mcmd.fl_dev_to mcmd.to_off sector_size e i → cell s' e i ≡ cell s e i

  pub transfer-Transferred :
      (s : S) (mcmd : ZbMoveCmd) (len : ℕ)
      → CanTransfer mcmd len
      → Transferred s (transfer s mcmd len) mcmd len
  transfer-Transferred s mcmd len can =
      let dev = mcmd.fl_dev_to in
      let fr = mcmd.fr_off in
      let to = mcmd.to_off in
      let short = can.short in
      let s' = erased_sector s mcmd in
      let erase : (e i : ℕ) → cell s' e i ≡ blanked (cell s) dev to sector_size e i =
        (zb_flash_erase-lem laws s dev to sector_size can.present_to can.aligned
          (mod_self sector_size) can.to_fits).1 in
      let move =
        zb_img_move-Moved laws tc (enc mcmd.key) mcmd (encrypts mcmd.key) (enc-lt mcmd.key)
          can.present_fr can.present_to (record { flash = s'; ram = λ _. 0 }) len sector_size buf
          (record {
            from_fits = can.from_fits;
            starts = can.aligned_block;
            whole = can.whole_sector;
            holds = short;
            to_fits = can.to_fits;
            blank = λ i p q. erase dev i ∙ ground arith;
            apart = Apart-shorter mcmd.fl_dev_fr fr dev to len sector_size short can.apart;
          })
          can.whole can.blocks in
      let lands : (e i : ℕ)
          → cell (transfer s mcmd len) e i ≡ pasted (cell s') dev to (taken s' mcmd) fr len e i =
        move.moves in
      record {
        gets = λ i p.
            lands dev (to + i)
            ∙ pasted_inside (cell s') dev to (taken s' mcmd) fr len i p
            ∙ decrypted_same (enc mcmd.key) mcmd.fr_eoff (cell s' mcmd.fl_dev_fr)
                (cell s mcmd.fl_dev_fr) (fr + i)
                (erase mcmd.fl_dev_fr (fr + i)
                  ∙ blanked-Apart (cell s) mcmd.fl_dev_fr fr dev to sector_size (fr + i) can.apart
                      (omega arith) (omega arith));
        keeps = λ e i out.
            lands e i
            ∙ pasted-Outside (cell s) (cell s') dev to sector_size (taken s' mcmd) fr len e i short
                (erase e i) out;
      }
