-- ===== src/Cmd/Log.antt =====
-- A location as a log of commands: the records from its first one up to the first empty one,
-- with erased cells behind them. The specification of zb_cmd_read and zb_cmd_write.
use zepboot.Base.{
  ℕ, zero, suc, ◌+◌, ◌*◌, ◌≤◌, ◌<◌, ◌≡◌, refl, ap, ◌∙◌, Bool, false, arith, Option, some, List, [],
  ◌∷◌, ◌++◌, length, ◌==◌, if◌then◌else◌,
}
use zepboot.Base.Ranges.{cells, cells_congr}
use zepboot.Platform.{Checksums}
use zepboot.Platform.Laws.{IsBlank}
use zepboot.Cmd.{ZbCmd, of_bytes, is_empty, crc_of, cmd_bytes}

-- The record at an offset of a memory.
abbrev pub cmd_at : (ℕ → ℕ) → ℕ → ZbCmd
cmd_at mem off = of_bytes (cells mem off cmd_bytes)

-- `Holds mem stride off n log`: the `n` records from `off` on hold `log`, then erased cells.
pub data Holds (mem : ℕ → ℕ) (stride : ℕ) : ℕ → ℕ → List ZbCmd → Type 0 where
  blank : {off n : ℕ} → IsBlank mem off (n * stride) → Holds mem stride off n []
  entry :
      {off off' n : ℕ} {c : ZbCmd} {log : List ZbCmd}
      → cmd_at mem off ≡ c
      → is_empty c ≡ false
      → off' ≡ off + stride
      → Holds mem stride off' n log
      → Holds mem stride off (suc n) (c ∷ log)

module _ (sums : Checksums) where
  -- The crc8 of a record is right.
  abbrev pub is_sound : ZbCmd → Bool
  is_sound c = crc_of sums c == c.crc8

  -- The last sound record, or `found` if there is none.
  abbrev pub last_sound : Option ZbCmd → List ZbCmd → Option ZbCmd
  last_sound found [] = found
  last_sound found (c ∷ log) = last_sound (if is_sound c then some c else found) log

  -- One more record decides by its own crc8.
  pub last_sound-append :
      (found : Option ZbCmd) (log : List ZbCmd) (c : ZbCmd)
      → last_sound found (log ++ c ∷ []) ≡ (if is_sound c then some c else last_sound found log)
  last_sound-append found [] c = refl
  last_sound-append found (x ∷ log) c =
      last_sound-append (if is_sound x then some x else found) log c

module _ {mem : ℕ → ℕ} {stride : ℕ} where
  -- A log has as many records as fit, at most.
  pub length-log-le : {off n : ℕ} {log : List ZbCmd} → Holds mem stride off n log → length log ≤ n
  length-log-le (blank b) = omega arith
  length-log-le (entry e f g h) = omega (arith, length-log-le h)

-- Memories that agree on the records hold the same log.
pub Holds-congr :
    {mem mem' : ℕ → ℕ} {stride off n : ℕ} {log : List ZbCmd}
    → cmd_bytes ≤ stride
    → ((i : ℕ) → off ≤ i → i < off + n * stride → mem' i ≡ mem i)
    → Holds mem stride off n log
    → Holds mem' stride off n log
Holds-congr r same (blank b) = blank (λ i p q. same i p q ∙ b i p q)
Holds-congr {mem} {mem'} {stride} {off} r same (entry {off' = off'} {n = n} e f g h) =
    entry (ap of_bytes (cells_congr mem' mem off cmd_bytes (λ i p q. same i p (omega arith))) ∙ e) f
      g (Holds-congr r (λ i p q. same i (omega arith) (omega arith)) h)

pub no_records :
    {mem : ℕ → ℕ} {stride off n : ℕ} {log : List ZbCmd}
    → Holds mem stride off n log
    → n ≡ 0
    → log ≡ []
no_records (blank b) z = refl
no_records (entry e f g h) z = absurd (omega arith)

-- The bound that ends a loop over the records is met at the last of them.
pub last_round : (stride n : ℕ) → cmd_bytes ≤ stride → suc n * stride ≤ stride → n ≡ 0
last_round stride zero w h = refl
last_round stride (suc n) w h = absurd (omega arith)

pub more_rounds : (stride n : ℕ) → stride < suc n * stride → 0 < n
more_rounds stride zero h = absurd (omega arith)
more_rounds stride (suc n) h = omega arith

pub le-mul : (n m : ℕ) → 0 < m → n ≤ n * m
le-mul zero m h = omega arith
le-mul (suc n) m h = omega (arith, le-mul n m h)
