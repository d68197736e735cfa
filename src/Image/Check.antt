-- ===== src/Image/Check.antt =====
-- Which images zb_img_check (zepboot/src/zb_image.c) lets into a slot.
use zepboot.Base.{
  ℕ, ◌+◌, ◌-◌, ◌^◌, ◌<◌, ◌≤◌, ◌≡◌, ◌⊎◌, refl, sym, ap, Bool, true, false, ltb, add32, sub32,
  if◌then◌else◌, inl, inr, Bool-cases, arith,
}
use mathlib.Core.Path.{subst}
use zepboot.Platform.{Rc, ok, enoent, efault, is_ok, Flash}
use zepboot.Board.{Board, ZbSltArea, zb_in_slt_area}
use zepboot.Prm.{zb_prm_read}
use zepboot.TinyCrypt.{TinyCrypt}
use zepboot.Tlv.{zb_open_tlv_area}
use zepboot.Tlv.Signed.{IsSigned, is_ok-ok, zb_open_tlv_area-IsSigned}
use zepboot.Image.Hashed.{zb_img_get_info-IsHashed}
use zepboot.Image.{
  ImgInfo, ImgVer, Locals, zb_img_get_info, zb_img_get_info_wsc, zb_img_conv_version_u32,
  check_version, zb_img_check,
}

no_prm :
    (rc then_rc : Rc)
    → (elim rc [ enoent ↦ ok | ok ↦ then_rc | _ ↦ efault ]) ≡ ok
    → (rc ≡ enoent) ⊎ ((rc ≡ ok) × (then_rc ≡ ok))
no_prm Rc.ok r h = inr (refl, h)
no_prm Rc.enoent r h = inl refl
no_prm Rc.enxio r h = let bad = ap is_ok h in cc
no_prm Rc.enospc r h = let bad = ap is_ok h in cc
no_prm Rc.efault r h = let bad = ap is_ok h in cc
no_prm Rc.enotsup r h = let bad = ap is_ok h in cc
no_prm Rc.stuck r h = let bad = ap is_ok h in cc
no_prm (Rc.driver n) r h = let bad = ap is_ok h in cc

not_older :
    (version recorded : ℕ) → (if ltb version recorded then efault else ok) ≡ ok → recorded ≤ version
not_older version recorded h = elim (Bool-cases (ltb version recorded)) [
  | inl e ↦ let bad = ap is_ok (rw e at h) in cc
  | inr e ↦ ground arith
]

module _ {S H : Type 0} (fl : Flash S) (tc : TinyCrypt H) (board : Board) (locals : Locals) where
  -- An image is valid only if its area was opened, and so its signature verified.
  is_valid-IsSigned :
      (s : S) (info : ImgInfo) (area : ZbSltArea)
      → (zb_img_get_info_wsc fl tc locals s info area 1 0 true).is_valid ≡ true
      → IsSigned fl tc s locals.hash area.slt1_fldev (add32 0 area.slt1_offset)
  unfolding zb_img_get_info
  is_valid-IsSigned s info area h =
      let offset = add32 0 area.slt1_offset in
      let opened = zb_open_tlv_area fl tc s locals.hash area.slt1_fldev offset locals.tlv true in
      elim (Bool-cases (is_ok opened.rc)) [
        | inl e ↦
            zb_open_tlv_area-IsSigned fl tc s locals.hash area.slt1_fldev offset locals.tlv
              (is_ok-ok opened.rc e)
        | inr e ↦ let bad : false ≡ true = rw (e, zb_img_get_info_wsc, zb_img_get_info) at h in cc
      ]

  -- The recorded version of the slot that an image is for, and the size of the slot.
  abbrev pub recorded_version : S → ZbSltArea → Bool → ℕ
  recorded_version s area in_slt1 =
      let prm = (zb_prm_read fl board s area locals.prm).1 in
      if in_slt1 then prm.slt1_ver else prm.slt0_ver

  abbrev pub slt_size : ZbSltArea → Bool → ℕ
  slt_size area in_slt1 = if in_slt1 then area.slt1_size else area.slt0_size

  valid_end :
      (s : S) (area : ZbSltArea)
      → (zb_img_get_info_wsc fl tc locals s locals.info area 1 0 true).is_valid ≡ true
      → (zb_img_get_info_wsc fl tc locals s locals.info area 1 0 true).end < 2 ^ 32
  valid_end s area h =
      let ends =
        (zb_img_get_info-IsHashed fl tc locals s locals.info area 1 0 true h).details.ends in
      omega arith

  -- The image of slot 1 is signed, its end fits the slot that it is for with a sector to spare, unless
  -- the guard wraps around, and it is not older than what the parameters record, if there are any.
  pub record Accepted (s : S) (area : ZbSltArea) (info : ImgInfo) (in_slt1 : Bool) : Type 0 where
    pub valid : info.is_valid ≡ true
    pub signed : IsSigned fl tc s locals.hash area.slt1_fldev (add32 0 area.slt1_offset)
    pub room : add32 (sub32 info.end info.hdr_start) board.sector_size ≤ slt_size area in_slt1
    pub fits :
        (info.end - info.hdr_start + board.sector_size ≤ slt_size area in_slt1)
        ⊎ ((info.end < info.hdr_start) ⊎ (2 ^ 32 ≤ info.end - info.hdr_start + board.sector_size))
    pub newer :
        ((zb_prm_read fl board s area locals.prm).0 ≡ enoent)
        ⊎ (((zb_prm_read fl board s area locals.prm).0 ≡ ok)
            × (recorded_version s area in_slt1 ≤ zb_img_conv_version_u32 info.version))

  -- The guard on the size is one on numbers, unless a word wraps around.
  fits_lem :
      (info : ImgInfo) (room : ℕ)
      → add32 (sub32 info.end info.hdr_start) board.sector_size ≤ room
      → info.end < 2 ^ 32
      → (info.end - info.hdr_start + board.sector_size ≤ room)
        ⊎ ((info.end < info.hdr_start) ⊎ (2 ^ 32 ≤ info.end - info.hdr_start + board.sector_size))
  fits_lem info room h small = elim (Bool-cases (ltb info.end info.hdr_start)) [
    | inl e ↦ inr (inl (ground arith))
    | inr e ↦ elim (Bool-cases (ltb (info.end - info.hdr_start + board.sector_size) (2 ^ 32))) [
      | inl f ↦ inl (ground arith)
      | inr f ↦ inr (inr (ground arith))
    ]
  ]

  check_version-newer :
      (s : S) (area : ZbSltArea) (in_slt1 : Bool) (version : ImgVer)
      → check_version fl tc board locals s area (if in_slt1 then 1 else 0) version ≡ ok
      → ((zb_prm_read fl board s area locals.prm).0 ≡ enoent)
        ⊎ (((zb_prm_read fl board s area locals.prm).0 ≡ ok)
            × (recorded_version s area in_slt1 ≤ zb_img_conv_version_u32 version))
  unfolding check_version
  check_version-newer s area true version h =
      elim (no_prm (zb_prm_read fl board s area locals.prm).0 _ h) [
        | inl e ↦ inl e
        | inr (e, kept) ↦ inr (e, not_older _ _ kept)
      ]
  check_version-newer s area false version h =
      elim (no_prm (zb_prm_read fl board s area locals.prm).0 _ h) [
        | inl e ↦ inl e
        | inr (e, kept) ↦ inr (e, not_older _ _ kept)
      ]

  -- If zb_img_check returns 0, the image of slot 1 is valid, the signature of its type-length-value
  -- area was verified with a root key, the bytes from hdr_start to the end of the image and a
  -- sector more fit the slot that it is for, unless the end is in front of hdr_start or the sum
  -- leaves the word, when only what is left of it modulo 2 ^ 32 is known to fit, and its version is
  -- not below what the parameters record for the slot, unless there are no parameters.
  pub zb_img_check-Accepted :
      (s : S) (area : ZbSltArea) (slt : ℕ)
      → (zb_img_check fl tc board locals s area slt).0 ≡ ok
      → let info = zb_img_get_info_wsc fl tc locals s locals.info area 1 0 true in
        Accepted s area info (zb_in_slt_area area 1 info.load_address)
  unfolding zb_img_check
  zb_img_check-Accepted s area slt h =
      let info = zb_img_get_info_wsc fl tc locals s locals.info area 1 0 true in
      let need = add32 (sub32 info.end info.hdr_start) board.sector_size in
      elim (Bool-cases info.is_valid) [
        | inr e ↦ let bad = ap is_ok (rw (e, zb_img_check) at h) in cc
        | inl e ↦
            let small = valid_end s area e in
            elim (Bool-cases (zb_in_slt_area area 1 info.load_address)) [
              | inl i ↦ elim (Bool-cases (ltb area.slt1_size need)) [
                | inl full ↦ let bad = ap is_ok (rw (e, i, full, zb_img_check) at h) in cc
                | inr fits ↦ subst (Accepted s area info) (sym i) (record {
                  valid = e;
                  signed = is_valid-IsSigned s locals.info area e;
                  room = ground arith;
                  fits = fits_lem info _ (ground arith) small;
                  newer =
                      check_version-newer s area true info.version
                        (rw (e, i, fits, zb_img_check) at h);
                })
              ]
              | inr i ↦ elim (Bool-cases (ltb area.slt0_size need)) [
                | inl full ↦ let bad = ap is_ok (rw (e, i, full, zb_img_check) at h) in cc
                | inr fits ↦ subst (Accepted s area info) (sym i) (record {
                  valid = e;
                  signed = is_valid-IsSigned s locals.info area e;
                  room = ground arith;
                  fits = fits_lem info _ (ground arith) small;
                  newer =
                      check_version-newer s area false info.version
                        (rw (e, i, fits, zb_img_check) at h);
                })
              ]
            ]
      ]
