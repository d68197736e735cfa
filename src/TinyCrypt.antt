-- ===== src/TinyCrypt.antt =====
-- TinyCrypt and the keys of the build (bootloader/src/keys.c) as parameters: the hash with its
-- running state `H`, the elliptic curve secp256r1, and AES-128.
use zepboot.Base.{ℕ, Bool, Option, List}
use zepboot.Aes.{Cipher}

-- `none` is the result 0 of a `tc_` function, a failure. `valid_public_key` is 0 for a key on
-- the curve. `verify` is given the public key, the hash and the signature.
pub record TinyCrypt (H : Type 0) : Type 0 where
  pub sha256_init : Option H
  pub sha256_update : H → List ℕ → Option H
  pub sha256_final : H → Option (List ℕ)
  pub valid_public_key : List ℕ → ℕ
  pub shared_secret : List ℕ → List ℕ → Option (List ℕ)
  pub verify : List ℕ → List ℕ → List ℕ → Bool
  pub aes_encrypt : Cipher
  pub boot_pri_key : List ℕ
  pub root_pub_key : List ℕ
