-- ===== src/Image/Hashed.antt =====
-- The hash of an image that zb_img_get_info (zepboot/src/zb_image.c) finds valid.
use zepboot.Base.{
  Option-cases, some, ℕ, ◌≡◌, ◌∙◌, refl, ap, arith, Bool, true, false, ap₂, List, [], ◌∷◌, take,
  drop, add32, sub32, le32, byte_at, Bool-cases, inl, inr, sym, ◌==◌, leb, ◌^◌,
}
use mathlib.Core.Path.{subst}
use zepboot.Platform.{is_ok, Flash}
use zepboot.Board.{ZbSltArea}
use zepboot.TinyCrypt.{TinyCrypt}
use zepboot.Ec256.{hash_bytes, zb_hash_flash}
use zepboot.Tlv.{Opened, TlvEntry, zb_open_tlv_area, find_tlv}
use zepboot.Image.{
  ImgInfo, Locals, is_entry, same_hash, info_bytes, with_info, blank_info, get_key, get_hash,
  get_details, zb_img_get_info, tlve_image_type, tlve_image_info, tlve_image_hash,
  tlve_image_epubkey,
}
use zepboot.Image.Place.{slt_offset, slt_fldev}

same_hash_lem : (as' bs : List ℕ) → same_hash as' bs ≡ true → as' ≡ bs
unfolding same_hash
same_hash_lem [] [] h = refl
same_hash_lem (a ∷ as') (b ∷ bs) h = elim (Bool-cases (a == b)) [
  | inl e ↦ ap₂ ◌∷◌ (ground arith) (same_hash_lem as' bs (rw e at h))
  | inr e ↦ let bad : false ≡ true = rw e at h in cc
]
same_hash_lem [] (b ∷ bs) h = cc
same_hash_lem (a ∷ as') [] h = cc

module _ {S H : Type 0} (fl : Flash S) (tc : TinyCrypt H) (locals : Locals) where
  -- The entry for the hash behind the one that was found before.
  pub record IsMatched (s : S) (eoff : ℕ) (tlv : List ℕ) (tlv_size : ℕ) (previous : TlvEntry)
      (size : ℕ) (info : ImgInfo) : Type 0 where
    pub entry : TlvEntry
    pub found : find_tlv tlv tlv_size tlve_image_hash previous ≡ some entry
    pub is_hash : is_entry entry tlve_image_hash hash_bytes ≡ true
    pub matches :
        take hash_bytes (drop entry.value tlv)
        ≡ take hash_bytes
            (zb_hash_flash tc fl s locals.hash info.flash_device (add32 info.start eoff) size).1

  -- The entry for the information, with the start and the size of the image.
  pub record IsDetailed (s : S) (eoff : ℕ) (tlv : List ℕ) (tlv_size : ℕ) (previous : TlvEntry)
      (info : ImgInfo) : Type 0 where
    pub entry : TlvEntry
    pub found : find_tlv tlv tlv_size tlve_image_info previous ≡ some entry
    pub is_info : is_entry entry tlve_image_info info_bytes ≡ true
    pub begins : info.start ≡ add32 info.hdr_start (le32 (take info_bytes (drop entry.value tlv)) 0)
    pub ends : info.end ≡ add32 info.start (le32 (take info_bytes (drop entry.value tlv)) 4)
    pub hashed :
        IsMatched s eoff tlv tlv_size entry (le32 (take info_bytes (drop entry.value tlv)) 4) info

  -- The first entries of the area `tlv` for the type, the information and the hash have the lengths
  -- that they are to have; the second one says where the image starts and how long it is, and the
  -- third one has the bytes that zb_hash_flash leaves for that range.
  pub record IsHashed (s : S) (eoff : ℕ) (tlv : List ℕ) (tlv_size : ℕ) (info : ImgInfo)
      : Type 0 where
    pub type_entry : TlvEntry
    pub found_type : find_tlv tlv tlv_size tlve_image_type locals.entry ≡ some type_entry
    pub is_type : is_entry type_entry tlve_image_type 1 ≡ true
    pub details : IsDetailed s eoff tlv tlv_size type_entry info

  abbrev SameRange : ImgInfo → ImgInfo → Type 0
  SameRange info info' =
      (info'.start ≡ info.start)
      × (info'.end ≡ info.end)
      × (info'.flash_device ≡ info.flash_device)
      × (info'.hdr_start ≡ info.hdr_start)

  get_key-SameRange :
      (tlv : List ℕ) (tlv_size : ℕ) (entry : TlvEntry) (info : ImgInfo)
      → SameRange info (get_key fl tc locals tlv tlv_size entry info).1
  unfolding get_key
  get_key-SameRange tlv tlv_size entry info =
      elim (Option-cases (find_tlv tlv tlv_size tlve_image_epubkey entry)) [
        | inl e ↦ rw (e, get_key) (refl, refl, refl, refl)
        | inr (found, e) ↦ rw (e, get_key) (ground arith, ground arith, ground arith, ground arith)
      ]

  -- Of the image information, the hash leaves where the image is.
  get_hash-IsMatched :
      (s : S) (eoff : ℕ) (tlv : List ℕ) (tlv_size : ℕ) (entry : TlvEntry) (size : ℕ)
      (info : ImgInfo)
      → info.is_valid ≡ false
      → (get_hash fl tc locals s eoff true tlv tlv_size entry size info).1.is_valid ≡ true
      → let info' = (get_hash fl tc locals s eoff true tlv tlv_size entry size info).1 in
        IsMatched s eoff tlv tlv_size entry size info' × SameRange info info'
  unfolding get_hash
  get_hash-IsMatched s eoff tlv tlv_size entry size info fresh h =
      elim (Option-cases (find_tlv tlv tlv_size tlve_image_hash entry)) [
        | inl e ↦ let bad : false ≡ true = rw (e, fresh, get_hash) at h in cc
        | inr (found, e) ↦
            let calc =
              (zb_hash_flash tc fl s locals.hash info.flash_device (add32 info.start eoff)
                size).1 in
            let stored = take hash_bytes (drop found.value tlv) in
            elim (Bool-cases (is_entry found tlve_image_hash hash_bytes)) [
              | inr e1 ↦ let bad : false ≡ true = rw (e, e1, fresh, get_hash) at h in cc
              | inl e1 ↦ elim (Bool-cases (same_hash stored (take hash_bytes calc))) [
                | inr e2 ↦ let bad : false ≡ true = rw (e, e1, e2, fresh, get_hash) at h in cc
                | inl e2 ↦
                    let r = get_key-SameRange tlv tlv_size found info in
                    rw (e, e1, e2, get_hash)
                      (
                        record {
                          entry = found;
                          found = e;
                          is_hash = e1;
                          matches = rw (r.0, r.2) (same_hash_lem stored (take hash_bytes calc) e2);
                        },
                        r,
                      )
              ]
            ]
      ]

  get_details-IsDetailed :
      (s : S) (eoff : ℕ) (tlv : List ℕ) (tlv_size : ℕ) (entry : TlvEntry) (info : ImgInfo)
      → info.is_valid ≡ false
      → (get_details fl tc locals s eoff true tlv tlv_size entry info).1.is_valid ≡ true
      → IsDetailed s eoff tlv tlv_size entry
          (get_details fl tc locals s eoff true tlv tlv_size entry info).1
  unfolding get_details
  get_details-IsDetailed s eoff tlv tlv_size entry info fresh h =
      elim (Option-cases (find_tlv tlv tlv_size tlve_image_info entry)) [
        | inl e ↦ let bad : false ≡ true = rw (e, fresh, get_details) at h in cc
        | inr (found, e) ↦
            let rd_info = take info_bytes (drop found.value tlv) in
            elim (Bool-cases (is_entry found tlve_image_info info_bytes)) [
              | inr e1 ↦ let bad : false ≡ true = rw (e, e1, fresh, get_details) at h in cc
              | inl e1 ↦
                  let r =
                    get_hash-IsMatched s eoff tlv tlv_size found (le32 rd_info 4)
                      (with_info info rd_info) fresh (rw (e, e1, get_details) at h) in
                  let same = r.1 in
                  rw (e, e1, get_details)
                    (record {
                      entry = found;
                      found = e;
                      is_info = e1;
                      begins = same.0 ∙ ap (λ x. add32 x (le32 rd_info 0)) (sym same.3);
                      ends = same.1 ∙ ap (λ x. add32 x (le32 rd_info 4)) (sym same.0);
                      hashed = r.0;
                    })
            ]
      ]

  typed-IsHashed :
      (s : S) (eoff : ℕ) (tlv : List ℕ) (tlv_size : ℕ) (entry : TlvEntry) (info : ImgInfo)
      → find_tlv tlv tlv_size tlve_image_type locals.entry ≡ some entry
      → is_entry entry tlve_image_type 1 ≡ true
      → info.is_valid ≡ false
      → (get_details fl tc locals s eoff true tlv tlv_size entry info).1.is_valid ≡ true
      → IsHashed s eoff tlv tlv_size
          (get_details fl tc locals s eoff true tlv tlv_size entry info).1
  typed-IsHashed s eoff tlv tlv_size entry info found is_type fresh h = record {
    type_entry = entry;
    found_type = found;
    is_type = is_type;
    details = get_details-IsDetailed s eoff tlv tlv_size entry info fresh h;
  }

  -- The area in front of the image, as zb_img_get_info opens it.
  abbrev pub front : S → ZbSltArea → (slt eoff : ℕ) → Bool → Opened
  front s area slt eoff val_tlv =
      zb_open_tlv_area fl tc s locals.hash (slt_fldev area slt) (add32 eoff (slt_offset area slt))
        locals.tlv val_tlv

  -- An image can be valid only if its area was opened.
  valid_opened :
      (s : S) (info : ImgInfo) (area : ZbSltArea) (slt eoff : ℕ) (val_tlv : Bool)
      → (zb_img_get_info fl tc locals s info area slt eoff val_tlv true).1.is_valid ≡ true
      → (is_ok (front s area slt eoff val_tlv).rc ≡ true)
        × (leb (2 ^ 31) (front s area slt eoff val_tlv).size ≡ false)
  unfolding zb_img_get_info
  valid_opened s info area slt eoff val_tlv h =
      elim (Bool-cases (is_ok (front s area slt eoff val_tlv).rc)) [
        | inr e ↦ let bad : false ≡ true = rw (e, zb_img_get_info) at h in cc
        | inl e ↦ elim (Bool-cases (leb (2 ^ 31) (front s area slt eoff val_tlv).size)) [
          | inl e1 ↦ let bad : false ≡ true = rw (e, e1, zb_img_get_info) at h in cc
          | inr e1 ↦ (e, e1)
        ]
      ]

  valid_type :
      (s : S) (info : ImgInfo) (area : ZbSltArea) (slt eoff : ℕ) (val_tlv : Bool)
      → is_ok (front s area slt eoff val_tlv).rc ≡ true
      → leb (2 ^ 31) (front s area slt eoff val_tlv).size ≡ false
      → (zb_img_get_info fl tc locals s info area slt eoff val_tlv true).1.is_valid ≡ true
      → let opened = front s area slt eoff val_tlv in
        (found : TlvEntry) × (find_tlv opened.area opened.size tlve_image_type locals.entry
          ≡ some found)
        × (is_entry found tlve_image_type 1 ≡ true)
  unfolding zb_img_get_info
  valid_type s info area slt eoff val_tlv e e1 h =
      let opened = front s area slt eoff val_tlv in
      elim (Option-cases (find_tlv opened.area opened.size tlve_image_type locals.entry)) [
        | inl e2 ↦ let bad : false ≡ true = rw (e, e1, e2, zb_img_get_info) at h in cc
        | inr (found, e2) ↦ elim (Bool-cases (is_entry found tlve_image_type 1)) [
          | inr e3 ↦ let bad : false ≡ true = rw (e, e1, e2, e3, zb_img_get_info) at h in cc
          | inl e3 ↦ (found, e2, e3)
        ]
      ]

  -- The rest of the information is found behind the type.
  typed_info :
      (s : S) (info : ImgInfo) (area : ZbSltArea) (slt eoff : ℕ) (val_tlv : Bool) (found : TlvEntry)
      → is_ok (front s area slt eoff val_tlv).rc ≡ true
      → leb (2 ^ 31) (front s area slt eoff val_tlv).size ≡ false
      → let opened = front s area slt eoff val_tlv in
        find_tlv opened.area opened.size tlve_image_type locals.entry ≡ some found
        → is_entry found tlve_image_type 1 ≡ true
        → (zb_img_get_info fl tc locals s info area slt eoff val_tlv true).1
          ≡ (get_details fl tc locals s eoff true opened.area opened.size found
              (record (blank_info info
                (slt_fldev area slt)
                (sub32 (add32 eoff (slt_offset area slt)) eoff)) {
                  type = byte_at opened.area found.value;
                })).1
  unfolding zb_img_get_info
  typed_info s info area slt eoff val_tlv found e e1 e2 e3 =
      rw (e, e1, e2, e3, zb_img_get_info) refl

  -- If zb_img_get_info is to test the image and says that it is valid, the area in front of the
  -- image has entries of the right lengths for the type, the information and the hash: the first
  -- ones of their types that the search finds. The start and the end of the image are those of the
  -- information, and the hash is what zb_hash_flash leaves for the bytes of that range, whatever
  -- code it returns.
  pub zb_img_get_info-IsHashed :
      (s : S) (info : ImgInfo) (area : ZbSltArea) (slt eoff : ℕ) (val_tlv : Bool)
      → (zb_img_get_info fl tc locals s info area slt eoff val_tlv true).1.is_valid ≡ true
      → IsHashed s eoff
          (front s area slt eoff val_tlv).area
          (front s area slt eoff val_tlv).size
          (zb_img_get_info fl tc locals s info area slt eoff val_tlv true).1
  zb_img_get_info-IsHashed s info area slt eoff val_tlv h =
      let opened = valid_opened s info area slt eoff val_tlv h in
      let (found, e, is_type) = valid_type s info area slt eoff val_tlv opened.0 opened.1 h in
      let same = typed_info s info area slt eoff val_tlv found opened.0 opened.1 e is_type in
      subst (IsHashed s eoff _ _) (sym same)
        (typed-IsHashed s eoff _ _ found _ e is_type refl (subst (λ x. x.is_valid ≡ true) same h))
