-- ===== src/Move/Paste.antt =====
-- Runs of bytes in a memory, and the memories that writes of them make, for zb_img_move in
-- zepboot/src/zb_move.c.
use zepboot.Base.{
  ℕ, ◌+◌, ◌-◌, ◌≤◌, ◌<◌, ◌≡◌, ◌≢◌, ◌⊎◌, refl, arith, ltb, leb, ◌==◌, ◌&&◌, if◌then◌else◌, inl, inr,
  Bool-cases, ne→==,
}
use zepboot.Base.Ranges.{cells, length-cells, get_or-cells}
use zepboot.Platform.{Device}
use zepboot.Platform.Laws.{written}

-- A memory in which a run of bytes is a run of `f`, from `fr` on.
abbrev pub pasted : (Device → ℕ → ℕ) → Device → ℕ → (ℕ → ℕ) → ℕ → ℕ → Device → ℕ → ℕ
pasted mem dev to f fr len e i =
    if e == dev && leb to i && ltb i (to + len) then f (fr + (i - to)) else mem e i

pub written-cells :
    (mem : Device → ℕ → ℕ) (dev to : ℕ) (f : ℕ → ℕ) (fr len : ℕ) (e i : ℕ)
    → written mem dev to (cells f fr len) e i ≡ pasted mem dev to f fr len e i
written-cells mem dev to f fr len e i =
    ground (arith, length-cells f fr len, get_or-cells f fr len (i - to) 0)

-- Two runs, one behind the other; `f'` is `f` on the second one.
pub pasted-pasted :
    (mem mem' : Device → ℕ → ℕ) (dev to : ℕ) (f f' : ℕ → ℕ) (fr n len : ℕ)
    → n ≤ len
    → ((e i : ℕ) → mem' e i ≡ pasted mem dev to f fr n e i)
    → ((i : ℕ) → fr + n ≤ i → i < fr + len → f' i ≡ f i)
    → (e i : ℕ)
    → pasted mem' dev (to + n) f' (fr + n) (len - n) e i ≡ pasted mem dev to f fr len e i
pasted-pasted mem mem' dev to f f' fr n len h same agree e i = elim (Bool-cases (leb (to + n) i)) [
  | inl behind ↦
      let at : fr + n + (i - (to + n)) ≡ fr + (i - to) = ground arith in
      rw at (ground (arith, same e i, agree (fr + (i - to))))
  | inr before ↦ ground (arith, same e i)
]

-- The two runs do not meet.
abbrev pub Apart : Device → ℕ → Device → ℕ → ℕ → Type 0
Apart fl_dev_fr fr fl_dev_to to len = (fl_dev_fr ≢ fl_dev_to) ⊎ ((fr + len ≤ to) ⊎ (to + len ≤ fr))

pub pasted-Apart :
    (mem : Device → ℕ → ℕ) (fl_dev_fr fl_dev_to to : ℕ) (f : ℕ → ℕ) (fr n len i : ℕ)
    → n ≤ len
    → Apart fl_dev_fr fr fl_dev_to to len
    → fr + n ≤ i
    → i < fr + len
    → pasted mem fl_dev_to to f fr n fl_dev_fr i ≡ mem fl_dev_fr i
pasted-Apart mem fl_dev_fr fl_dev_to to f fr n len i h (inl ne) p q =
    rw (ne→== fl_dev_fr fl_dev_to ne) refl
pasted-Apart mem fl_dev_fr fl_dev_to to f fr n len i h (inr (inl before)) p q = ground arith
pasted-Apart mem fl_dev_fr fl_dev_to to f fr n len i h (inr (inr behind)) p q = ground arith

pub Apart-rest :
    (fl_dev_fr fr fl_dev_to to n len : ℕ)
    → n ≤ len
    → Apart fl_dev_fr fr fl_dev_to to len
    → Apart fl_dev_fr (fr + n) fl_dev_to (to + n) (len - n)
Apart-rest fl_dev_fr fr fl_dev_to to n len h (inl ne) = inl ne
Apart-rest fl_dev_fr fr fl_dev_to to n len h (inr (inl before)) = inr (inl (omega arith))
Apart-rest fl_dev_fr fr fl_dev_to to n len h (inr (inr behind)) = inr (inr (omega arith))
