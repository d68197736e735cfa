-- ===== src/Ec256/Tests.antt =====
-- Two root keys of which the second verifies, and the checksum of bytes that are not at the start of
-- a write block. The checksum is a sum, and a toy stands for TinyCrypt.
use zepboot.Base.{
  ℕ, ◌+◌, ◌≡◌, refl, arith, true, none, some, List, [], ◌∷◌, ◌++◌, replicate, byte_at, ◌==◌,
}
use zepboot.Platform.{Checksums, ok}
use zepboot.Platform.Sim.{sim, sim_laws}
use zepboot.Platform.Example.{started}
use zepboot.TinyCrypt.{TinyCrypt}
use zepboot.Ec256.{zb_sign_verify, zb_crc32_flash, zb_hash_flash}
use zepboot.Ec256.Verify.{zb_sign_verify-any}
use zepboot.Ec256.Digest.{IsSha, zb_hash_flash-whole}
use zepboot.Ec256.Checksum.{IsRunning, zb_crc32_flash-whole}

abbrev keys : List (List ℕ)
keys = replicate 64 1 ∷ replicate 64 2 ∷ []

-- A signature is right if it starts as the key.
abbrev tc : TinyCrypt ℕ
tc = record {
  sha256_init = none;
  sha256_update = λ _ _. none;
  sha256_final = λ _. none;
  valid_public_key = λ _. 0;
  shared_secret = λ _ _. none;
  verify = λ key _ signature. byte_at key 0 == byte_at signature 0;
  aes_encrypt = λ _ _. none;
  boot_pri_key = [];
  root_pub_key = replicate 64 1 ++ replicate 64 2;
}

zb_sign_verify-any_example : zb_sign_verify tc [] (2 ∷ []) ≡ ok
zb_sign_verify-any_example = zb_sign_verify-any tc [] (2 ∷ []) keys (refl, (refl, omega arith)) refl

abbrev sum : ℕ → List ℕ → ℕ
sum acc [] = acc
sum acc (b ∷ bs) = sum (acc + b) bs

abbrev sums : Checksums
sums = record { crc8_ccitt = sum; crc32_ieee_update = sum }

sum-append : (acc : ℕ) (xs ys : List ℕ) → sum acc (xs ++ ys) ≡ sum (sum acc xs) ys
sum-append acc [] ys = refl
sum-append acc (x ∷ xs) ys = sum-append (acc + x) xs ys

sums-IsRunning : IsRunning sums
sums-IsRunning = record { update-nil = refl; update-append = sum-append }

zb_crc32_flash-whole_example : zb_crc32_flash sim sums started 0 1 0x302 2 ≡ (ok, 0x10)
unfolding sim_laws
zb_crc32_flash-whole_example =
    zb_crc32_flash-whole sim_laws sums sums-IsRunning started 1 0 0x302 2 (omega arith)
      (omega arith)

-- The hash is the bytes themselves.
abbrev tc_hash : TinyCrypt (List ℕ)
tc_hash = record {
  sha256_init = some [];
  sha256_update = λ h bs. some (h ++ bs);
  sha256_final = λ h. some h;
  valid_public_key = λ _. 0;
  shared_secret = λ _ _. none;
  verify = λ _ _ _. true;
  aes_encrypt = λ _ _. none;
  boot_pri_key = [];
  root_pub_key = [];
}

abbrev tc_hash-IsSha : IsSha tc_hash (λ bs. bs)
tc_hash-IsSha = record {
  initial = [];
  after = λ h bs. h ++ bs;
  taken_in = λ h. h;
  init_lem = refl;
  update_lem = λ h bs. refl;
  final_lem = λ h. refl;
  initial_taken = refl;
  after_taken = λ h bs. refl;
}

zb_hash_flash-whole_example : zb_hash_flash tc_hash sim started [] 1 0x302 2 ≡ (ok, 0 ∷ 0x10 ∷ [])
unfolding sim_laws
zb_hash_flash-whole_example =
    zb_hash_flash-whole sim_laws tc_hash (λ bs. bs) tc_hash-IsSha started [] 1 0x302 2 (omega arith)
      (omega arith)
