-- ===== src/Aes/Tests.antt =====
-- The theorems on the counter mode, with a toy cipher in place of AES.
use zepboot.Base.{
  ℕ, ◌+◌, ◌%◌, ◌^◌, ◌<◌, ◌≡◌, refl, arith, some, List, [], ◌∷◌, ◌++◌, replicate, byte_at, map, zero,
  suc,
}
use zepboot.Aes.{Cipher, aes_block_size, increment, zb_aes_ctr_mode}
use zepboot.Aes.Counter.{big_endian, increment-big_endian}
use zepboot.Aes.Stream.{IsStream, zb_aes_ctr_mode-IsStream}
use zepboot.Aes.Laws.{zb_aes_ctr_mode-twice, zb_aes_ctr_mode-append}

-- Each byte of the block plus the first byte of the key.
abbrev toy : List ℕ → List ℕ → List ℕ
toy key block = map (λ b. (b + byte_at key 0) % 2 ^ 8) block

abbrev cipher : Cipher
cipher key block = some (toy key block)

abbrev key : List ℕ
key = 7 ∷ []

abbrev ctr : List ℕ
ctr = replicate 15 1 ++ (255 ∷ [])

abbrev text : List ℕ
text = replicate 16 0x41 ++ (0x42 ∷ 0x43 ∷ [])

crypt_values :
    ((zb_aes_ctr_mode cipher key text ctr).out ≡ replicate 15 0x49 ++ (0x47 ∷ 0x4a ∷ 0x4b ∷ []))
    × ((zb_aes_ctr_mode cipher key text ctr).nonce ≡ replicate 14 1 ++ (2 ∷ 1 ∷ []))
unfolding zb_aes_ctr_mode
crypt_values = (refl, refl)

toy-lt : (block : List ℕ) (i : ℕ) → byte_at (toy key block) i < 2 ^ 8
toy-lt [] i = omega arith
toy-lt (b ∷ block) zero = omega arith
toy-lt (b ∷ block) (suc i) = toy-lt block i

replicate-lt :
    (n b : ℕ) (rest : List ℕ)
    → b < 2 ^ 8
    → ((i : ℕ) → byte_at rest i < 2 ^ 8)
    → (i : ℕ) → byte_at (replicate n b ++ rest) i < 2 ^ 8
replicate-lt zero b rest h k i = k i
replicate-lt (suc n) b rest h k zero = h
replicate-lt (suc n) b rest h k (suc i) = replicate-lt n b rest h k i

pair-lt : (a b : ℕ) → a < 2 ^ 8 → b < 2 ^ 8 → (i : ℕ) → byte_at (a ∷ b ∷ []) i < 2 ^ 8
pair-lt a b h k zero = h
pair-lt a b h k (suc zero) = k
pair-lt a b h k (suc (suc i)) = omega arith

increment-big_endian_example :
    big_endian aes_block_size (increment aes_block_size ctr)
    ≡ (big_endian aes_block_size ctr + 1) % 2 ^ 128
increment-big_endian_example = increment-big_endian ctr refl (λ i p.
    replicate-lt 14 1 (1 ∷ 255 ∷ []) (omega arith) (pair-lt 1 255 (omega arith) (omega arith)) i)

zb_aes_ctr_mode-IsStream_example :
    IsStream (toy key) ctr 0 text (zb_aes_ctr_mode cipher key text ctr)
zb_aes_ctr_mode-IsStream_example =
    zb_aes_ctr_mode-IsStream cipher key (toy key) (λ block. refl) text ctr

zb_aes_ctr_mode-twice_example :
    (zb_aes_ctr_mode cipher key (zb_aes_ctr_mode cipher key text ctr).out ctr).out ≡ text
zb_aes_ctr_mode-twice_example =
    zb_aes_ctr_mode-twice cipher key (toy key) (λ block. refl) text ctr
      (λ i p.
        replicate-lt 16 0x41 (0x42 ∷ 0x43 ∷ []) (omega arith)
          (pair-lt 0x42 0x43 (omega arith) (omega arith)) i)
      toy-lt

zb_aes_ctr_mode-append_example :
    let r = zb_aes_ctr_mode cipher key (replicate 16 0x41) ctr in
    let r' = zb_aes_ctr_mode cipher key (0x42 ∷ 0x43 ∷ []) r.nonce in
    let whole = zb_aes_ctr_mode cipher key text ctr in
    (whole.out ≡ r.out ++ r'.out) × (whole.nonce ≡ r'.nonce) × (whole.rc ≡ r'.rc)
zb_aes_ctr_mode-append_example =
    zb_aes_ctr_mode-append cipher key (toy key) (λ block. refl) (replicate 16 0x41)
      (0x42 ∷ 0x43 ∷ []) ctr refl
