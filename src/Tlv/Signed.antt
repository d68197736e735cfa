-- ===== src/Tlv/Signed.antt =====
-- What zb_open_tlv_area (zepboot/src/zb_tlv.c) has verified when it is asked to.
use zepboot.Base.{ℕ, ◌≡◌, refl, ap, true, List, [], ◌==◌, add32, sub32, inl, inr, Bool-cases, arith}
use zepboot.Platform.{Rc, ok, is_ok, Device, Flash}
use zepboot.Flash.{zb_flash_read}
use zepboot.TinyCrypt.{TinyCrypt}
use zepboot.Ec256.{zb_hash_flash, zb_sign_verify}
use zepboot.Tlv.{TlvAreaHdr, hdr_of_bytes, hdr_bytes, tlv_area_magic, validated, zb_open_tlv_area}

pub is_ok-ok : (rc : Rc) → is_ok rc ≡ true → rc ≡ ok
is_ok-ok Rc.ok h = refl
is_ok-ok Rc.enxio h = cc
is_ok-ok Rc.enoent h = cc
is_ok-ok Rc.enospc h = cc
is_ok-ok Rc.efault h = cc
is_ok-ok Rc.enotsup h = cc
is_ok-ok Rc.stuck h = cc
is_ok-ok (Rc.driver n) h = cc

module _ {S H : Type 0} (fl : Flash S) (tc : TinyCrypt H) where
  abbrev pub header_at : S → Device → ℕ → TlvAreaHdr
  header_at s flash_dev offset = hdr_of_bytes (zb_flash_read fl s flash_dev offset hdr_bytes []).1

  -- The area at an offset has the magic, and its hash has a signature of a root key.
  pub record IsSigned (s : S) (hash : List ℕ) (flash_dev : Device) (offset : ℕ) : Type 0 where
    pub has_magic : (header_at s flash_dev offset).tlva_magic ≡ tlv_area_magic
    pub hashed :
        (zb_hash_flash tc fl s hash flash_dev
          (add32 offset hdr_bytes)
          (sub32 (header_at s flash_dev offset).tlva_size hdr_bytes)).0
        ≡ ok
    pub verified :
        zb_sign_verify tc
          (zb_hash_flash tc fl s hash flash_dev
            (add32 offset hdr_bytes)
            (sub32 (header_at s flash_dev offset).tlva_size hdr_bytes)).1
          (header_at s flash_dev offset).tlva_signature
        ≡ ok

  pub zb_open_tlv_area-IsSigned :
      (s : S) (hash : List ℕ) (flash_dev : Device) (offset : ℕ) (area : List ℕ)
      → (zb_open_tlv_area fl tc s hash flash_dev offset area true).rc ≡ ok
      → IsSigned s hash flash_dev offset
  unfolding zb_open_tlv_area validated
  zb_open_tlv_area-IsSigned s hash flash_dev offset area h =
      let hdr = header_at s flash_dev offset in
      let size = sub32 hdr.tlva_size hdr_bytes in
      let hashing = zb_hash_flash tc fl s hash flash_dev (add32 offset hdr_bytes) size in
      let sign = zb_sign_verify tc hashing.1 hdr.tlva_signature in
      elim (Bool-cases (is_ok (zb_flash_read fl s flash_dev offset hdr_bytes []).0)) [
        | inr e ↦ let bad = ap is_ok (rw e at h) in cc
        | inl e ↦ elim (Bool-cases (hdr.tlva_magic == tlv_area_magic)) [
          | inr e' ↦ let bad = ap is_ok (rw (e, e') at h) in cc
          | inl e' ↦ elim (Bool-cases (is_ok hashing.0)) [
            | inr e'' ↦ let bad = ap is_ok (rw (e, e', e'') at h) in cc
            | inl e'' ↦ elim (Bool-cases (is_ok sign)) [
              | inr e₃ ↦ let bad = ap is_ok (rw (e, e', e'', e₃) at h) in cc
              | inl e₃ ↦ record {
                has_magic = ground arith;
                hashed = is_ok-ok hashing.0 e'';
                verified = is_ok-ok sign e₃;
              }
            ]
          ]
        ]
      ]
