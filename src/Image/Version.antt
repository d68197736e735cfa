-- ===== src/Image/Version.antt =====
-- zb_img_conv_version_u32 (zepboot/src/zb_image.c): versions as numbers.
use zepboot.Base.{◌+◌, ◌*◌, ◌^◌, ◌<◌, ◌≡◌, ◌∙◌, arith, Bool, ◌&&◌, ◌||◌, ltb, ◌==◌, u32, bit_or}
use zepboot.Base.Fields.{bit_or-above}
use zepboot.Image.{ImgVer, zb_img_conv_version_u32}

-- The fields fit their types, `u8_t` and `u16_t`.
pub record IsVersion (ver : ImgVer) : Type 0 where
  pub major_lt : ver.major < 2 ^ 8
  pub minor_lt : ver.minor < 2 ^ 8
  pub revision_lt : ver.revision < 2 ^ 16

version_value :
    (ver : ImgVer)
    → IsVersion ver
    → zb_img_conv_version_u32 ver ≡ ver.major * 2 ^ 24 + ver.minor * 2 ^ 16 + ver.revision
unfolding zb_img_conv_version_u32
version_value ver z =
    let a = z.major_lt in
    let b = z.minor_lt in
    let c = z.revision_lt in
    let major : u32 (ver.major * 2 ^ 24) ≡ ver.major * 2 ^ 24 = omega arith in
    let minor : u32 (ver.minor * 2 ^ 16) ≡ ver.minor * 2 ^ 16 = omega arith in
    let upper : bit_or (ver.major * 2 ^ 24) (ver.minor * 2 ^ 16)
        ≡ (ver.major * 2 ^ 8 + ver.minor) * 2 ^ 16 =
      bit_or-above 24 ver.major (ver.minor * 2 ^ 16) (omega arith) ∙ omega arith in
    rw (major, minor, upper)
      (bit_or-above 16 (ver.major * 2 ^ 8 + ver.minor) ver.revision c ∙ omega arith)

-- The order of versions: by major, then minor, then revision. The build does not count.
abbrev pub older : ImgVer → ImgVer → Bool
older v w =
    ltb v.major w.major
    || (v.major == w.major
        && (ltb v.minor w.minor || (v.minor == w.minor && ltb v.revision w.revision)))

-- If the fields fit their types, one version has the lesser number exactly when it is older, by
-- major, then minor, then revision.
pub zb_img_conv_version_u32-older :
    (v w : ImgVer)
    → IsVersion v
    → IsVersion w
    → ltb (zb_img_conv_version_u32 v) (zb_img_conv_version_u32 w) ≡ older v w
zb_img_conv_version_u32-older v w a b =
    let a0 = a.major_lt in
    let a1 = a.minor_lt in
    let a2 = a.revision_lt in
    let b0 = b.major_lt in
    let b1 = b.minor_lt in
    let b2 = b.revision_lt in rw (version_value v a, version_value w b) (ground arith)
