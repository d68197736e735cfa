-- ===== src/Platform/Memory.antt =====
-- Reading back a run of bytes that was written.
use zepboot.Base.{ℕ, ◌+◌, ◌-◌, ◌<◌, ◌≡◌, ◌∙◌, ap, arith, List, length, byte_at, get_or_ext, eq→==}
use zepboot.Base.Ranges.{cells, length-cells, get_or-cells}
use zepboot.Platform.{Device}
use zepboot.Platform.Laws.{written}

module _ (mem : Device → ℕ → ℕ) (dev off : ℕ) (bs : List ℕ) where
  written-inside : (i : ℕ) → i < length bs → written mem dev off bs dev (off + i) ≡ byte_at bs i
  written-inside i h =
      let e : off + i - off ≡ i = omega arith in ground (arith, eq→== dev dev, ap (byte_at bs) e)

  pub cells-written : cells (written mem dev off bs dev) off (length bs) ≡ bs
  cells-written = get_or_ext 0 _ _ (length-cells _ off (length bs)) (λ i p.
      let q : i < length bs =
        omega (arith, length-cells (written mem dev off bs dev) off (length bs)) in
      get_or-cells (written mem dev off bs dev) off (length bs) i 0 q ∙ written-inside i q)
