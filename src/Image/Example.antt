-- ===== src/Image/Example.antt =====
-- An image of 20 bytes behind its area of 131 bytes.
use zepboot.Base.{ℕ, List, [], ◌∷◌, ◌++◌, replicate}

abbrev header : List ℕ
header = 0x41 ∷ 0x56 ∷ 0x4c ∷ 0x54 ∷ 131 ∷ 0 ∷ 0 ∷ 0 ∷ replicate 64 2

abbrev info_value : List ℕ
info_value = 131 ∷ 0 ∷ 0 ∷ 0 ∷ 20 ∷ 0 ∷ 0 ∷ 0 ∷ 0 ∷ 1 ∷ 0 ∷ 0 ∷ 1 ∷ 0 ∷ 0 ∷ 0 ∷ 0 ∷ 0 ∷ 0 ∷ 0 ∷ []

abbrev pub signed_image : List ℕ
signed_image =
    header
    ++ ((0x10 ∷ 1 ∷ 0 ∷ 0x20 ∷ 20 ∷ [])
        ++ (info_value ++ ((0x30 ∷ 32 ∷ replicate 32 0) ++ replicate 20 7)))
