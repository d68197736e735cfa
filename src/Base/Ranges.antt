-- ===== src/Base/Ranges.antt =====
-- A run of bytes of a memory, given as a function from addresses.
use Prim.Native.Nat.{ℕ, zero, suc, ◌+◌, ◌≤◌, ◌<◌}
use mathlib.Core.Path.{◌≡◌, refl, sym, ap, ap₂, ◌∙◌}
use mathlib.Core.List.{List, [], ◌∷◌, ◌++◌}
use native.Mathlib.Omega.{arith}
use zepboot.Base.Lists.{length, get_or}

abbrev pub cells : (ℕ → ℕ) → ℕ → ℕ → List ℕ
cells f off zero = []
cells f off (suc n) = f off ∷ cells f (off + 1) n

pub length-cells : (f : ℕ → ℕ) (off n : ℕ) → length (cells f off n) ≡ n
length-cells f off zero = refl
length-cells f off (suc n) = ap suc (length-cells f (off + 1) n)

-- Memories that agree on a run have the same bytes there.
pub cells_congr :
    (f g : ℕ → ℕ) (off n : ℕ)
    → ((i : ℕ) → off ≤ i → i < off + n → f i ≡ g i)
    → cells f off n ≡ cells g off n
cells_congr f g off zero h = refl
cells_congr f g off (suc n) h =
    ap₂ ◌∷◌ (h off (omega arith) (omega arith))
      (cells_congr f g (off + 1) n (λ i p q. h i (omega arith) (omega arith)))

pub get_or-cells :
    (f : ℕ → ℕ) (off n i : ℕ) (d : ℕ) → i < n → get_or (cells f off n) i d ≡ f (off + i)
get_or-cells f off zero i d h = absurd (omega arith)
get_or-cells f off (suc n) zero d h = ap f (omega arith)
get_or-cells f off (suc n) (suc i) d h =
    let e : off + suc i ≡ off + 1 + i = omega arith in
    rw e (get_or-cells f (off + 1) n i d (omega arith))

pub cells-add :
    (f : ℕ → ℕ) (off n m : ℕ) → cells f off (n + m) ≡ cells f off n ++ cells f (off + n) m
cells-add f off zero m = ap₂ (cells f) (omega arith) (omega arith)
cells-add f off (suc n) m =
    let e : suc n + m ≡ suc (n + m) = omega arith in
    let e' : off + suc n ≡ off + 1 + n = omega arith in
    rw (e, e') (ap (λ xs. f off ∷ xs) (cells-add f (off + 1) n m))

-- Runs at different places.
pub cells_shift :
    (f g : ℕ → ℕ) (off off' n : ℕ)
    → ((i : ℕ) → i < n → f (off + i) ≡ g (off' + i))
    → cells f off n ≡ cells g off' n
cells_shift f g off off' zero h = refl
cells_shift f g off off' (suc n) h =
    let at : off + 0 ≡ off = omega arith in
    let at' : off' + 0 ≡ off' = omega arith in
    ap₂ ◌∷◌ (ap f (sym at) ∙ h 0 (omega arith) ∙ ap g at') (
      cells_shift f g (off + 1) (off' + 1) n
        (λ i p. ap f (omega arith) ∙ h (i + 1) (omega arith) ∙ ap g (omega arith)))
