-- ===== src/Cmd/Write.antt =====
-- zb_cmd_write appends to the log of a location, or reports that it is full.
use zepboot.Base.{
  ℕ, zero, suc, ◌+◌, ◌*◌, ◌≤◌, ◌<◌, ◌≡◌, ◌≢◌, ◌⊎◌, refl, ap, sym, ◌∙◌, false, arith, List, [], ◌∷◌,
  ◌++◌, length, leb, if◌then◌else◌, Bool-cases, inl, inr, add32, leb→le,
}
use mathlib.Core.Path.{subst}
use zepboot.Base.Ranges.{cells_congr}
use zepboot.Platform.{Flash, null, Rc, ok, enospc}
use zepboot.Platform.Laws.{IsBlank, FlashLaws}
use zepboot.Flash.Write.{zb_flash_read-lem}
use zepboot.Cmd.{ZbCmd, of_bytes, is_empty, cmd_bytes, write_loop}
use zepboot.Cmd.Log.{cmd_at, Holds, blank, entry, length-log-le, last_round, more_rounds}
use zepboot.Cmd.Read.{stride}

-- One record more, at the first erased one.
pub Holds-append :
    {mem mem' : ℕ → ℕ} {stride off n : ℕ} {log : List ZbCmd} {c : ZbCmd}
    → cmd_bytes ≤ stride
    → Holds mem stride off n log
    → length log < n
    → is_empty c ≡ false
    → cmd_at mem' (off + length log * stride) ≡ c
    → ((i : ℕ)
        → off ≤ i
        → i < off + n * stride
        → (i < off + length log * stride) ⊎ (off + length log * stride + cmd_bytes ≤ i)
        → mem' i ≡ mem i)
    → Holds mem' stride off n (log ++ c ∷ [])
Holds-append wide (blank {n = zero} b) room full at same = absurd (omega arith)
Holds-append {stride = stride} {off = off} wide (blank {n = suc n} b) room full at same =
    let e : off + 0 * stride ≡ off = omega arith in
    entry (rw e at at) full refl (
      blank (λ i p q.
        same i (omega arith) (omega arith) (inr (omega arith)) ∙ b i (omega arith) (omega arith)))
Holds-append {mem} {mem'} {stride} {off} {c = c} wide
      (entry {off' = off'} {n = n} {log = log} e f g h) room full at same =
    let there : off' + length log * stride ≡ off + length (cmd_at mem off ∷ log) * stride =
      omega arith in
    entry
      (ap of_bytes
          (cells_congr mem' mem off cmd_bytes (λ i p q. same i p (omega arith) (inl (omega arith))))
        ∙ e)
      f g
      (Holds-append wide h (omega arith) full (ap (cmd_at mem') there ∙ at)
        (λ i p q r. same i (omega arith) (omega arith) (omega arith)))

mul-le : (k n m : ℕ) → k ≤ n → k * m + m ≤ suc n * m
mul-le zero n m h = omega arith
mul-le (suc k) zero m h = absurd (omega arith)
mul-le (suc k) (suc n) m h = omega (arith, mul-le k n m (omega arith))

module _ {S : Type 0} {fl : Flash S} {page : ℕ} (laws : FlashLaws fl page) (s : S)
    (dev end stride : ℕ) (present : dev ≢ null) (wide : cmd_bytes ≤ stride)
    (fits : end ≤ laws.size dev) where
  open laws use {cell}

  -- Where a writer stops: at the first erased record, or at the end.
  abbrev pub Stops : ℕ → ℕ → List ZbCmd → Rc × ℕ → Type 0
  Stops off n log r =
      (length log < n → r ≡ (ok, off + length log * stride)) × (length log ≡ n → r.0 ≡ enospc)

  write_loop-entry :
      (fuel off : ℕ)
      → off + stride ≤ end
      → is_empty (cmd_at (cell s dev) off) ≡ false
      → write_loop fl s dev end stride (suc fuel) off ≡ (
          if leb end (off + stride)
          then (enospc, off + stride)
          else write_loop fl s dev end stride fuel (off + stride))
  unfolding write_loop
  write_loop-entry fuel off room full =
      let e : add32 off stride ≡ off + stride = omega (arith, laws.size-lt dev) in
      rw (zb_flash_read-lem laws s dev off cmd_bytes [] present (omega arith), e, full)

  write_loop-blank :
      (fuel off : ℕ)
      → off + stride ≤ end
      → IsBlank (cell s dev) off stride
      → write_loop fl s dev end stride (suc fuel) off ≡ (ok, off)
  unfolding write_loop
  write_loop-blank fuel off room empty =
      rw
        (
          zb_flash_read-lem laws s dev off cmd_bytes [] present (omega arith),
          empty off (omega arith) (omega arith),
          empty (off + 1) (omega arith) (omega arith),
          empty (off + 1 + 1) (omega arith) (omega arith),
          empty (off + 1 + 1 + 1) (omega arith) (omega arith),
        )
        refl

  pub write_loop-Stops :
      {off n : ℕ} {log : List ZbCmd} (fuel : ℕ)
      → Holds (cell s dev) stride off n log
      → 0 < n
      → n ≤ fuel
      → off + n * stride ≡ end
      → Stops off n log (write_loop fl s dev end stride fuel off)
  write_loop-Stops zero h some' few stop = absurd (omega arith)
  write_loop-Stops (suc fuel) (blank {n = zero} b) some' few stop = absurd (omega arith)
  write_loop-Stops (suc fuel) (blank {off} {n = suc n} b) some' few stop =
      rw (write_loop-blank fuel off (omega arith) (λ i p q. b i p (omega arith)))
        ((λ _. ap (λ (k : ℕ). (ok, k)) (omega arith)), λ p. absurd (omega arith))
  write_loop-Stops (suc fuel) (entry {off} {off' = off'} {n = n} {log = log} e full next h) some'
        few stop =
      rw (write_loop-entry fuel off (omega arith) (subst (λ x. is_empty x ≡ false) (sym e) full))
        (elim (Bool-cases (leb end (off + stride))) [
          | inl over ↦
              let none_left : n ≡ 0 =
                last_round stride n wide (omega (arith, leb→le end (off + stride) over)) in
              rw over ((λ p. absurd (omega (arith, length-log-le h))), λ p. refl)
          | inr more ↦
              let rest =
                write_loop-Stops fuel h (more_rounds stride n (ground arith)) (omega arith)
                  (omega arith) in
              rw (more, ← next)
                (
                  (λ p. rest.0 (omega arith) ∙ ap (λ (k : ℕ). (ok, k)) (omega arith)),
                  λ p. rest.1 (omega arith),
                )
        ])

  -- The records behind the log are erased.
  pub Holds-IsBlank :
      {off n : ℕ} {log : List ZbCmd}
      → Holds (cell s dev) stride off n log
      → length log < n
      → IsBlank (cell s dev) (off + length log * stride) stride
  Holds-IsBlank (blank {n = zero} b) room = absurd (omega arith)
  Holds-IsBlank (blank {n = suc n} b) room = λ i p q. b i (omega arith) (omega arith)
  Holds-IsBlank (entry e f g h) room =
      λ i p q. Holds-IsBlank h (omega arith) i (omega arith) (omega arith)

  pub length-log-mul-le :
      {off n : ℕ} {log : List ZbCmd}
      → Holds (cell s dev) stride off n log
      → length log < n
      → length log * stride + stride ≤ n * stride
  length-log-mul-le {n = zero} h room = absurd (omega arith)
  length-log-mul-le {n = suc n} {log} h room = mul-le (length log) n stride (omega arith)
