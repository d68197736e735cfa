-- ===== src/Platform/Sim.antt =====
-- A flash chip in memory that meets the laws: it refuses a write to cells that are not erased,
-- out of range, off the blocks, or under write protection.
use zepboot.Base.{
  ℕ, zero, suc, ◌+◌, ◌-◌, ◌%◌, ◌^◌, ◌≤◌, ◌<◌, ◌≡◌, refl, inl, inr, Bool, true, false, ◌&&◌, List,
  [], ◌∷◌, ◌++◌, length, drop, byte_at, ltb, leb, ◌==◌, if◌then◌else◌, u8, arith, Bool-cases, eq→==,
  le→leb,
}
use zepboot.Base.Ranges.{cells}
use zepboot.Platform.{Rc, ok, driver, Device, Flash}
use zepboot.Platform.Laws.{FlashLaws, IsBytes, IsBlank, written, blanked}

pub record Chip : Type 0 where
  pub mem : Device → ℕ → ℕ
  pub opened : Bool

abbrev pub chip_size : ℕ
chip_size = 2 ^ 20

abbrev pub page : ℕ
page = 64

abbrev cell : Chip → Device → ℕ → ℕ
cell c dev i = u8 (c.mem dev i)

all_blank : (ℕ → ℕ) → ℕ → ℕ → Bool
all_blank mem off zero = true
all_blank mem off (suc n) = u8 (mem off) == 0xff && all_blank mem (off + 1) n

all_bytes : List ℕ → Bool
all_bytes [] = true
all_bytes (b ∷ bs) = ltb b 256 && all_bytes bs

fits : Chip → Device → ℕ → List ℕ → Bool
fits c dev off bs =
    (c.opened && off % 4 == 0 && length bs % 4 == 0 && leb (off + length bs) chip_size)
    && (all_blank (c.mem dev) off (length bs) && all_bytes bs)

can_erase : Chip → ℕ → ℕ → Bool
can_erase c off len = c.opened && off % page == 0 && len % page == 0 && leb (off + len) chip_size

sim_read : Chip → Device → ℕ → ℕ → List ℕ → Rc × List ℕ
sim_read c dev off len buf =
    if leb (off + len) chip_size
    then (ok, cells (cell c dev) off len ++ drop len buf)
    else (driver 22, buf)

sim_write : Chip → Device → ℕ → List ℕ → Rc × Chip
sim_write c dev off bs =
    if fits c dev off bs then (ok, record c { mem = written c.mem dev off bs }) else (driver 5, c)

sim_erase : Chip → Device → ℕ → ℕ → Rc × Chip
sim_erase c dev off len =
    if can_erase c off len
    then (ok, record c { mem = blanked c.mem dev off len })
    else (driver 5, c)

sim_protect : Chip → Device → Bool → Rc × Chip
sim_protect c dev on = (ok, record c { opened = if on then false else true })

unfoldable pub sim : Flash Chip
unfolding sim_read sim_write sim_erase sim_protect fits can_erase all_blank all_bytes
sim = record {
  write_block_size = λ _. 4;
  read = sim_read;
  write = sim_write;
  erase = sim_erase;
  write_protection_set = sim_protect;
}

all_blank_complete :
    (mem : ℕ → ℕ) (off n : ℕ) → IsBlank (λ i. u8 (mem i)) off n → all_blank mem off n ≡ true
unfolding all_blank
all_blank_complete mem off zero h = refl
all_blank_complete mem off (suc n) h =
    ground
      (arith, h off, all_blank_complete mem (off + 1) n (λ i p q. h i (omega arith) (omega arith)))

all_bytes_complete : (bs : List ℕ) → IsBytes bs → all_bytes bs ≡ true
unfolding all_bytes
all_bytes_complete [] h = refl
all_bytes_complete (b ∷ bs) h =
    ground (arith, h 0, all_bytes_complete bs (λ i p. h (suc i) (omega arith)))

all_bytes_sound : (bs : List ℕ) → all_bytes bs ≡ true → (i : ℕ) → byte_at bs i < 2 ^ 8
unfolding all_bytes
all_bytes_sound [] e i = omega arith
all_bytes_sound (b ∷ bs) e zero = ground arith
all_bytes_sound (b ∷ bs) e (suc i) =
    let rest : all_bytes bs ≡ true = ground arith in all_bytes_sound bs rest i

fits-bytes : (c : Chip) (dev off : ℕ) (bs : List ℕ) → fits c dev off bs ≡ true → all_bytes bs ≡ true
unfolding fits
fits-bytes c dev off bs e = ground arith

sim_write-ok :
    (c : Chip) (dev off : ℕ) (bs : List ℕ)
    → (sim_write c dev off bs).0 ≡ ok
    → (fits c dev off bs ≡ true)
unfolding sim_write
sim_write-ok c dev off bs e = elim (Bool-cases (fits c dev off bs)) [
  | inl yes' ↦ yes'
  | inr no' ↦ let bad : driver 5 ≡ ok = rw no' at e in cc
]

sim_write-cell :
    (c : Chip) (dev off : ℕ) (bs : List ℕ) (e i : ℕ)
    → (sim_write c dev off bs).0 ≡ ok
    → cell (sim_write c dev off bs).1 e i ≡ written (cell c) dev off bs e i
unfolding sim_write
sim_write-cell c dev off bs e i h =
    let t = sim_write-ok c dev off bs h in
    let b = all_bytes_sound bs (fits-bytes c dev off bs t) (i - off) in
    rw t (elim (Bool-cases (e == dev && leb off i && ltb i (off + length bs))) [
      | inl inside ↦ rw inside (omega arith)
      | inr outside ↦ rw outside
    ])

sim_write-opened :
    (c : Chip) (dev off : ℕ) (bs : List ℕ)
    → c.opened ≡ true
    → (sim_write c dev off bs).1.opened ≡ true
unfolding sim_write
sim_write-opened c dev off bs h = elim (Bool-cases (fits c dev off bs)) [
  | inl t ↦ rw t h
  | inr t ↦ rw t h
]

sim_erase-cell :
    (c : Chip) (dev off len : ℕ) (e i : ℕ)
    → (sim_erase c dev off len).0 ≡ ok
    → cell (sim_erase c dev off len).1 e i ≡ blanked (cell c) dev off len e i
unfolding sim_erase
sim_erase-cell c dev off len e i h = elim (Bool-cases (can_erase c off len)) [
  | inl t ↦ rw t (elim (Bool-cases (e == dev && leb off i && ltb i (off + len))) [
    | inl inside ↦ rw inside
    | inr outside ↦ rw outside
  ])
  | inr t ↦ let bad : driver 5 ≡ ok = rw t at h in cc
]

fits_complete :
    (c : Chip) (dev off : ℕ) (bs : List ℕ)
    → c.opened ≡ true
    → off % 4 ≡ 0
    → length bs % 4 ≡ 0
    → off + length bs ≤ chip_size
    → IsBlank (cell c dev) off (length bs)
    → IsBytes bs
    → fits c dev off bs ≡ true
unfolding fits
fits_complete c dev off bs h a b d e f = rw (
  h,
  eq→== (off % 4) 0 a,
  eq→== (length bs % 4) 0 b,
  le→leb (off + length bs) chip_size d,
  all_blank_complete (c.mem dev) off (length bs) e,
  all_bytes_complete bs f,
)

unfoldable pub sim_laws : FlashLaws sim page
unfolding sim fits_complete sim_write-cell sim_write-opened sim_erase-cell all_blank_complete
    all_bytes_complete sim_write-ok all_bytes_sound fits-bytes
sim_laws = record {
  cell = cell;
  unlocked = λ c dev. c.opened;
  size = λ _. chip_size;
  page_pos = omega arith;
  size-lt = λ _. omega arith;
  block_size = λ _. inr (inr (inl refl));
  cell-lt = λ s dev i. omega arith;
  read_lem = λ s dev off len buf h. rw (le→leb (off + len) chip_size h);
  protect-ok = λ s dev on. refl;
  protect-unlocks = λ s dev. refl;
  cell-protect = λ s dev on e i. refl;
  write-ok = λ s dev off bs h a b c d e. rw (fits_complete s dev off bs h a b c d e);
  cell-write = sim_write-cell;
  unlocked-write = sim_write-opened;
  erase-ok = λ s dev off len h a b c.
      rw (h, eq→== (off % page) 0 a, eq→== (len % page) 0 b, le→leb (off + len) chip_size c);
  cell-erase = sim_erase-cell;
}
