-- ===== src/Prm/RoundTrip.antt =====
-- Boot parameters that are written can be read back.
use zepboot.Base.{
  ℕ, zero, suc, ◌+◌, ◌%◌, ◌^◌, ◌≤◌, ◌<◌, ◌≡◌, ◌≢◌, ◌∙◌, refl, ap, arith, inl, inr, List, [], ◌∷◌,
  ◌++◌, length, drop, le32, ne→==, eq→==, ap₂, append-nil, ◌==◌, if◌then◌else◌,
}
use mathlib.Core.Path.{subst}
use zepboot.Base.Ranges.{cells, cells_congr}
use native.Mathlib.Decide.{ℕ_discrete}
use zepboot.Platform.{Flash, ok, enoent, null}
use zepboot.Platform.Laws.{FlashLaws, IsBytes, IsBlank, IsBlockSize, written}
use zepboot.Platform.Memory.{cells-written}
use zepboot.Board.{Board, ZbSltArea}
use zepboot.Flash.{zb_flash_read}
use zepboot.Flash.Write.{zb_flash_read-lem, zb_flash_write-lem, CanWrite}
use zepboot.Cmd.{prm_bytes, empty_u32}
use zepboot.Prm.{ZbPrm, word_bytes, to_bytes, of_bytes, prm_offset, zb_prm_read, zb_prm_write}

-- Every field is a word.
pub record IsPrm (prm : ZbPrm) : Type 0 where
  pub pri : prm.pri_ld_address < 2 ^ 32
  pub sec : prm.sec_ld_address < 2 ^ 32
  pub crc0 : prm.slt0_crc32 < 2 ^ 32
  pub crc1 : prm.slt1_crc32 < 2 ^ 32
  pub ver0 : prm.slt0_ver < 2 ^ 32
  pub ver1 : prm.slt1_ver < 2 ^ 32

le32-word_bytes : (w : ℕ) → w < 2 ^ 32 → le32 (word_bytes w) 0 ≡ w
le32-word_bytes w h = omega arith

pub of_bytes-to_bytes : (prm : ZbPrm) → IsPrm prm → of_bytes (to_bytes prm) ≡ prm
unfolding of_bytes to_bytes
of_bytes-to_bytes prm v = λ i. record {
  pri_ld_address = le32-word_bytes prm.pri_ld_address v.pri i;
  sec_ld_address = le32-word_bytes prm.sec_ld_address v.sec i;
  slt0_crc32 = le32-word_bytes prm.slt0_crc32 v.crc0 i;
  slt1_crc32 = le32-word_bytes prm.slt1_crc32 v.crc1 i;
  slt0_ver = le32-word_bytes prm.slt0_ver v.ver0 i;
  slt1_ver = le32-word_bytes prm.slt1_ver v.ver1 i;
}

pub length-to_bytes : (prm : ZbPrm) → length (to_bytes prm) ≡ prm_bytes
unfolding to_bytes
length-to_bytes prm = refl

drop-to_bytes : (prm : ZbPrm) → drop prm_bytes (to_bytes prm) ≡ []
unfolding to_bytes
drop-to_bytes prm = refl

IsBytes-append : (xs ys : List ℕ) → IsBytes xs → IsBytes ys → IsBytes (xs ++ ys)
IsBytes-append [] ys h k i p = k i p
IsBytes-append (x ∷ xs) ys h k zero p = h 0 (omega arith)
IsBytes-append (x ∷ xs) ys h k (suc i) p =
    IsBytes-append xs ys (λ j q. h (suc j) (omega arith)) k i (omega arith)

IsBytes-word_bytes : (w : ℕ) → IsBytes (word_bytes w)
IsBytes-word_bytes w zero p = omega arith
IsBytes-word_bytes w (suc zero) p = omega arith
IsBytes-word_bytes w (suc (suc zero)) p = omega arith
IsBytes-word_bytes w (suc (suc (suc zero))) p = omega arith
IsBytes-word_bytes w (suc (suc (suc (suc i)))) p = absurd (omega arith)

pub IsBytes-to_bytes : (prm : ZbPrm) → IsBytes (to_bytes prm)
unfolding to_bytes
IsBytes-to_bytes prm = search (IsBytes-append, IsBytes-word_bytes) depth 7

-- 24 is a multiple of each block size.
prm_bytes-mod : {w : ℕ} → IsBlockSize w → prm_bytes % w ≡ 0
prm_bytes-mod (inl e) = rw e refl
prm_bytes-mod (inr (inl e)) = rw e refl
prm_bytes-mod (inr (inr (inl e))) = rw e refl
prm_bytes-mod (inr (inr (inr e))) = rw e refl

block_size_pos : {w : ℕ} → IsBlockSize w → 0 < w
block_size_pos (inl e) = omega arith
block_size_pos (inr (inl e)) = omega arith
block_size_pos (inr (inr (inl e))) = omega arith
block_size_pos (inr (inr (inr e))) = omega arith

module _ {S : Type 0} {fl : Flash S} {page : ℕ} (laws : FlashLaws fl page) (board : Board)
    (area : ZbSltArea) where
  open laws use {cell, size}
  open area use {slt0_fldev}

  pub CanWrite-prm :
      (s : S) (prm : ZbPrm)
      → prm_offset fl board area % fl.write_block_size slt0_fldev ≡ 0
      → prm_offset fl board area + prm_bytes ≤ size slt0_fldev
      → IsBlank (cell s slt0_fldev) (prm_offset fl board area) prm_bytes
      → CanWrite laws s slt0_fldev (prm_offset fl board area) (to_bytes prm) prm_bytes
  CanWrite-prm s prm a fits blank = record {
    start = a;
    whole = prm_bytes-mod (laws.block_size slt0_fldev);
    least = omega (arith, length-to_bytes prm, block_size_pos (laws.block_size slt0_fldev));
    holds = omega (arith, length-to_bytes prm);
    fits = fits;
    blank = blank;
    bytes = IsBytes-to_bytes prm;
  }

  -- A state whose cells hold the bytes of the parameters reads back as these bytes.
  read_back :
      (s s' : S) (prm other : ZbPrm)
      → slt0_fldev ≢ null
      → prm_offset fl board area + prm_bytes ≤ size slt0_fldev
      → ((i : ℕ)
          → cell s' slt0_fldev i
            ≡ written (cell s) slt0_fldev (prm_offset fl board area) (to_bytes prm) slt0_fldev i)
      → zb_flash_read fl s' slt0_fldev (prm_offset fl board area) prm_bytes (to_bytes other)
        ≡ (ok, to_bytes prm)
  read_back s s' prm other present fits same =
      let off = prm_offset fl board area in
      zb_flash_read-lem laws s' slt0_fldev off prm_bytes (to_bytes other) present fits
      ∙ ap (λ (bs : List ℕ). (ok, bs))
          (ap₂ ◌++◌
              (cells_congr _ _ off prm_bytes (λ i p q. same i)
                ∙ subst
                    (λ k.
                      cells (written (cell s) slt0_fldev off (to_bytes prm) slt0_fldev) off k
                      ≡ to_bytes prm)
                    (length-to_bytes prm) (cells-written (cell s) slt0_fldev off (to_bytes prm)))
              (drop-to_bytes other)
            ∙ append-nil (to_bytes prm))

  -- Where the bytes of parameters are, zb_prm_read reads them.
  pub zb_prm_read_back :
      (s s' : S) (prm other : ZbPrm)
      → IsPrm prm
      → slt0_fldev ≢ null
      → prm_offset fl board area + prm_bytes ≤ size slt0_fldev
      → ((i : ℕ)
          → cell s' slt0_fldev i
            ≡ written (cell s) slt0_fldev (prm_offset fl board area) (to_bytes prm) slt0_fldev i)
      → zb_prm_read fl board s' area other
        ≡ (if prm.pri_ld_address == empty_u32 then enoent else ok, prm)
  unfolding zb_prm_read
  zb_prm_read_back s s' prm other v present fits same =
      let r = read_back s s' prm other present fits same in
      elim (ℕ_discrete prm.pri_ld_address empty_u32) [
        | yes p ↦ rw (r, of_bytes-to_bytes prm v, eq→== prm.pri_ld_address empty_u32 p)
        | no p ↦ rw (r, of_bytes-to_bytes prm v, ne→== prm.pri_ld_address empty_u32 p)
      ]

  -- zb_prm_write to an erased last sector of slot 0 returns 0, and zb_prm_read then returns what
  -- was written: with 0, or with -ENOENT if the primary load address is the empty pattern. The
  -- bytes of the parameters are written, and no others.
  pub zb_prm_read-write :
      (s : S) (prm other : ZbPrm)
      → IsPrm prm
      → slt0_fldev ≢ null
      → prm_offset fl board area % fl.write_block_size slt0_fldev ≡ 0
      → prm_offset fl board area + prm_bytes ≤ size slt0_fldev
      → IsBlank (cell s slt0_fldev) (prm_offset fl board area) prm_bytes
      → let (rc, s') = zb_prm_write fl board s area prm in
        (rc ≡ ok)
        × (zb_prm_read fl board s' area other
            ≡ (if prm.pri_ld_address == empty_u32 then enoent else ok, prm))
        × ((e i : ℕ)
            → cell s' e i
              ≡ written (cell s) slt0_fldev (prm_offset fl board area) (to_bytes prm) e i)
  unfolding zb_prm_write
  zb_prm_read-write s prm other v present a fits blank =
      let wrote = zb_flash_write-lem laws (CanWrite-prm s prm a fits blank) present in
      (
        wrote.0,
        zb_prm_read_back s _ prm other v present fits (λ i. wrote.1 slt0_fldev i),
        λ e i. wrote.1 e i,
      )
