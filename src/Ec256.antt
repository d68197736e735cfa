-- ===== src/Ec256.antt =====
-- Keys, signatures, hashes and checksums over flash: zepboot/src/zb_ec256.c.
pub mod Verify
pub mod Blocks
pub mod Checksum
pub mod Digest
mod Tests
use zepboot.Base.{
  ℕ, zero, suc, ◌+◌, ◌-◌, not, Option, none, some, List, [], ◌∷◌, ◌++◌, length, take, drop,
  replicate, ltb, ◌==◌, if◌then◌else◌, add32, sub32, min,
}
use zepboot.Platform.{Rc, ok, efault, stuck, is_ok, Device, Flash, Checksums}
use zepboot.Flash.{zb_flash_align_offset, zb_flash_read}
use zepboot.TinyCrypt.{TinyCrypt}

-- NUM_ECC_BYTES of TinyCrypt is 32.
abbrev pub hash_bytes : ℕ
hash_bytes = 32

abbrev pub public_key_bytes : ℕ
public_key_bytes = 64

abbrev pub private_key_bytes : ℕ
private_key_bytes = 32

abbrev pub hash_flash_buffer_bytes : ℕ
hash_flash_buffer_bytes = 256

module _ {H : Type 0} (tc : TinyCrypt H) where
  open tc use {
    sha256_init, sha256_update, sha256_final, valid_public_key, shared_secret, verify, boot_pri_key,
    root_pub_key,
  }

  -- The hash of the shared secret and four zero bytes, `none` at the first step that fails.
  secret_digest : List ℕ → Option (List ℕ)
  secret_digest secret = elim sha256_init [
    | none ↦ none
    | some s ↦ elim (sha256_update s secret) [
      | none ↦ none
      | some s' ↦ elim (sha256_update s' (0 ∷ 0 ∷ 0 ∷ 0 ∷ [])) [
        | none ↦ none
        | some s'' ↦ sha256_final s''
      ]
    ]
  ]

  -- `key` is what the key held before; the list returned is what it holds afterwards.
  unfoldable pub zb_get_encr_key : (key pubkey : List ℕ) → ℕ → Rc × List ℕ
  unfolding secret_digest
  zb_get_encr_key key pubkey keysize =
      if ltb private_key_bytes keysize
      then (efault, key)
      else (if not (valid_public_key pubkey == 0)
          then (efault, key)
          else elim (shared_secret pubkey boot_pri_key) [
            | none ↦ (efault, key)
            | some secret ↦ elim (secret_digest secret) [
              | none ↦ (efault, key)
              | some digest ↦ (ok, take keysize digest ++ drop keysize key)
            ]
          ])

  -- The loop over the root keys at `cnt`.
  verify_loop : List ℕ → List ℕ → (fuel cnt : ℕ) → Rc
  verify_loop hash signature zero cnt = stuck
  verify_loop hash signature (suc fuel) cnt =
      let pubk = take public_key_bytes (drop cnt root_pub_key) in
      let rest = verify_loop hash signature fuel (cnt + public_key_bytes) in
      if ltb cnt (length root_pub_key)
      then (if not (valid_public_key pubk == 0)
          then rest
          else (if verify pubk hash signature then ok else rest))
      else efault

  unfoldable pub zb_sign_verify : List ℕ → List ℕ → Rc
  unfolding verify_loop
  zb_sign_verify hash signature = verify_loop hash signature (length root_pub_key + 1) 0

  module _ {S : Type 0} (fl : Flash S) where
    -- The loop over the flash: the code, and the hash in place of what `hash` held.
    hash_loop : S → Device → List ℕ → (fuel start len jump : ℕ) → (buf : List ℕ) → H → Rc × List ℕ
    hash_loop s fl_dev hash zero start len jump buf st = (stuck, hash)
    hash_loop s fl_dev hash (suc fuel) start len jump buf st =
        let buf_len = min hash_flash_buffer_bytes len in
        let (rc, buf') = zb_flash_read fl s fl_dev start buf_len buf in
        if len == 0
        then elim (sha256_final st) [ none ↦ (efault, hash) | some digest ↦ (ok, digest) ]
        else (if not (is_ok rc)
            then (rc, hash)
            else elim (sha256_update st (take (buf_len - jump) (drop jump buf'))) [
              | none ↦ (efault, hash)
              | some st' ↦
                  hash_loop s fl_dev hash fuel (add32 start buf_len) (len - buf_len) 0 buf' st'
            ])

    unfoldable pub zb_hash_flash : S → List ℕ → Device → ℕ → ℕ → Rc × List ℕ
    unfolding hash_loop
    zb_hash_flash s hash fl_dev off len =
        let start = zb_flash_align_offset fl fl_dev off in
        let jump = sub32 off start in
        let len' = add32 len jump in
        elim sha256_init [
          | none ↦ (efault, hash)
          | some st ↦
              hash_loop s fl_dev hash (len' + 1) start len' jump
                (replicate hash_flash_buffer_bytes 0) st
        ]

module _ {S : Type 0} (fl : Flash S) (sums : Checksums) where
  open sums use {crc32_ieee_update}

  -- The loop over the flash: the code, and the checksum in place of what `*crc32` held.
  crc32_loop : S → Device → ℕ → (fuel start len jump : ℕ) → (buf : List ℕ) → ℕ → Rc × ℕ
  crc32_loop s fl_dev crc32 zero start len jump buf crc = (stuck, crc32)
  crc32_loop s fl_dev crc32 (suc fuel) start len jump buf crc =
      let buf_len = min hash_flash_buffer_bytes len in
      let (rc, buf') = zb_flash_read fl s fl_dev start buf_len buf in
      let crc' = crc32_ieee_update crc (take (buf_len - jump) (drop jump buf')) in
      let rest = crc32_loop s fl_dev crc32 fuel (add32 start buf_len) (len - buf_len) 0 buf' crc' in
      if len == 0 then (ok, crc) else (if not (is_ok rc) then (rc, crc32) else rest)

  unfoldable pub zb_crc32_flash : S → ℕ → Device → ℕ → ℕ → Rc × ℕ
  unfolding crc32_loop
  zb_crc32_flash s crc32 fl_dev off len =
      let start = zb_flash_align_offset fl fl_dev off in
      let jump = sub32 off start in
      let len' = add32 len jump in
      crc32_loop s fl_dev crc32 (len' + 1) start len' jump (replicate hash_flash_buffer_bytes 0) 0
