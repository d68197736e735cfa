-- ===== src/Flash/Write.antt =====
-- What zb_flash_write and zb_flash_erase leave in the flash, by the laws of the driver.
use zepboot.Base.{
  ℕ, zero, suc, ◌+◌, ◌-◌, ◌%◌, ◌≤◌, ◌<◌, ◌≡◌, ◌≢◌, ◌∙◌, refl, ap, sym, inl, inr, arith, true, false,
  List, [], ◌∷◌, length, take, drop, replicate, byte_at, get_or, length-append, length-take,
  length-drop, length-replicate, get_or-take, get_or-drop, get_or-append_left, get_or-append_right,
  Bool-cases, ltb, ◌==◌, ne→==, not_below, bit_and, add32, ◌++◌,
}
use mathlib.Core.Path.{subst}
use zepboot.Base.Ranges.{cells}
use zepboot.Platform.{Rc, ok, Device, null, Flash}
use zepboot.Platform.Laws.{FlashLaws, IsBlank, IsBytes, written, blanked}
use zepboot.Flash.{padded, write_tail, write_blocks, zb_flash_write, zb_flash_erase, zb_flash_read}
use zepboot.Flash.Align.{bit_and-not_below, minus-mod_lem, mod_self, room_lem, add-mod_zero}

get_or-replicate : (n i : ℕ) (b : ℕ) → i < n → get_or (replicate n b) i 0 ≡ b
get_or-replicate zero i b h = absurd (omega arith)
get_or-replicate (suc n) zero b h = refl
get_or-replicate (suc n) (suc i) b h = get_or-replicate n i b (omega arith)

module _ {S : Type 0} (fl : Flash S) where
  length-padded : (rest : List ℕ) (w : ℕ) → length rest ≤ w → length (padded fl rest w) ≡ w
  length-padded rest w h = omega (
    arith,
    length-append rest (replicate (w - length rest) 0xff),
    length-replicate {A = ℕ} (w - length rest) 0xff,
  )

  byte_at-padded_data :
      (rest : List ℕ) (w i : ℕ) → i < length rest → byte_at (padded fl rest w) i ≡ byte_at rest i
  byte_at-padded_data rest w i h = get_or-append_left rest _ i 0 h

  byte_at-padded_fill :
      (rest : List ℕ) (w i : ℕ) → length rest ≤ i → i < w → byte_at (padded fl rest w) i ≡ 0xff
  byte_at-padded_fill rest w i h k =
      let e : length rest + (i - length rest) ≡ i = omega arith in
      let p : byte_at (padded fl rest w) (length rest + (i - length rest))
          ≡ get_or (replicate (w - length rest) 0xff) (i - length rest) 0 =
        get_or-append_right rest (replicate (w - length rest) 0xff) (i - length rest) 0 in
      (rw e at p) ∙ get_or-replicate (w - length rest) (i - length rest) 0xff (omega arith)

  padded-IsBytes :
      (rest : List ℕ) (w : ℕ) → length rest ≤ w → IsBytes rest → IsBytes (padded fl rest w)
  padded-IsBytes rest w h b i k = elim (Bool-cases (ltb i (length rest))) [
    | inl p ↦ rw (byte_at-padded_data rest w i (ground arith)) (b i (ground arith))
    | inr p ↦
        rw (byte_at-padded_fill rest w i (ground arith) (omega (arith, length-padded rest w h)))
          (omega arith)
  ]

  -- Over erased cells the fill bytes change nothing.
  written-padded :
      (mem : Device → ℕ → ℕ) (dev off : ℕ) (rest : List ℕ) (w : ℕ)
      → length rest ≤ w
      → IsBlank (mem dev) off w
      → (e i : ℕ) → written mem dev off (padded fl rest w) e i ≡ written mem dev off rest e i
  written-padded mem dev off rest w h blank e i = ground (
    arith,
    length-padded rest w h,
    byte_at-padded_data rest w (i - off),
    byte_at-padded_fill rest w (i - off),
    blank i,
    λ (p : e ≡ dev). ap (λ d. mem d i) p,
  )

-- Two writes in a row are one write of both runs.
written-take-drop :
    (mem : Device → ℕ → ℕ) (dev off : ℕ) (bs : List ℕ) (n : ℕ)
    → n ≤ length bs
    → (e i : ℕ)
    → written (written mem dev off (take n bs)) dev (off + n) (drop n bs) e i
      ≡ written mem dev off bs e i
written-take-drop mem dev off bs n h e i = ground (
  arith,
  length-take n bs,
  length-drop n bs,
  get_or-take n bs (i - off) 0,
  get_or-drop n bs (i - (off + n)) 0,
)

module _ {S : Type 0} {fl : Flash S} {page : ℕ} (laws : FlashLaws fl page) where
  open laws use {cell, unlocked, size, block_size}
  open fl use {write_block_size}

  -- The state that a run of bytes leaves behind, and the code 0.
  abbrev pub Wrote : S → Device → ℕ → List ℕ → Rc × S → Type 0
  Wrote s dev off bs r = (r.0 ≡ ok) × ((e i : ℕ) → cell r.1 e i ≡ written (cell s) dev off bs e i)

  write_tail-lem :
      (s : S) (dev off : ℕ) (rest : List ℕ)
      → unlocked s dev ≡ true
      → off % write_block_size dev ≡ 0
      → length rest < write_block_size dev
      → (0 < length rest → off + write_block_size dev ≤ size dev)
      → (0 < length rest → IsBlank (cell s dev) off (write_block_size dev))
      → IsBytes rest
      → Wrote s dev off rest (write_tail fl s dev off rest)
  unfolding write_tail
  write_tail-lem s dev off [] u a l r b y =
      (refl, λ e i. ground (arith, laws.cell-protect s dev true e i))
  write_tail-lem s dev off (x ∷ xs) u a l r b y =
      let w = write_block_size dev in
      let bs = padded fl (x ∷ xs) w in
      let len : length bs ≡ w = length-padded fl (x ∷ xs) w (omega arith) in
      let good : (fl.write s dev off bs).0 ≡ ok =
        laws.write-ok s dev off bs u a (rw len (mod_self (block_size dev))) (omega (arith, len))
          (subst (IsBlank (cell s dev) off) (sym len) (b (omega arith)))
          (padded-IsBytes fl (x ∷ xs) w (omega arith) y) in
      let some_left : (length (x ∷ xs) == 0) ≡ false = ne→== (length (x ∷ xs)) 0 (omega arith) in
      rw some_left (
        good,
        λ e i.
            laws.cell-protect (fl.write s dev off bs).1 dev true e i
            ∙ laws.cell-write s dev off bs e i good
            ∙ written-padded fl (cell s) dev off (x ∷ xs) w (omega arith) (b (omega arith)) e i,
      )

  -- `room` is the length of the data in whole write blocks: these start on a block, lie inside
  -- the device, and are erased.
  pub record CanWrite (s : S) (dev off : ℕ) (bs : List ℕ) (room : ℕ) : Type 0 where
    pub start : off % write_block_size dev ≡ 0
    pub whole : room % write_block_size dev ≡ 0
    pub least : room < length bs + write_block_size dev
    pub holds : length bs ≤ room
    pub fits : off + room ≤ size dev
    pub blank : IsBlank (cell s dev) off room
    pub bytes : IsBytes bs

  abbrev blen : Device → List ℕ → ℕ
  blen dev bs = length bs - length bs % write_block_size dev

  module _ {s : S} {dev off : ℕ} {bs : List ℕ} {room : ℕ} (can : CanWrite s dev off bs room) where
    blen_lem :
        (bit_and (length bs) (not_below (write_block_size dev)) ≡ blen dev bs)
        × (blen dev bs ≤ length bs)
        × (length bs < blen dev bs + write_block_size dev)
        × (blen dev bs % write_block_size dev ≡ 0)
        × (blen dev bs < length bs → room ≡ blen dev bs + write_block_size dev)
    blen_lem = ground (
      arith,
      laws.size-lt dev,
      minus-mod_lem (length bs) (block_size dev),
      room_lem room (length bs) (block_size dev) can.whole can.holds can.least,
      bit_and-not_below (length bs) (block_size dev),
      can.holds,
      can.fits,
    )

    first_blocks : unlocked s dev ≡ true → (fl.write s dev off (take (blen dev bs) bs)).0 ≡ ok
    first_blocks u =
        let f = blen_lem in
        let l : length (take (blen dev bs) bs) ≡ blen dev bs =
          omega (arith, length-take {A = ℕ} (blen dev bs) bs, f) in
        laws.write-ok s dev off _ u can.start (rw l f.3)
          (rw l (omega (arith, can.fits, can.holds, f)))
          (λ i p q. can.blank i p (omega (arith, l, f, can.holds)))
          (λ i p.
            rw (get_or-take (blen dev bs) bs i 0 (omega (arith, l)))
              (can.bytes i (omega (arith, l, f))))

    -- The rest of the data, behind the whole blocks.
    last_block :
        (t : S)
        → unlocked t dev ≡ true
        → ((e i : ℕ) → cell t e i ≡ written (cell s) dev off (take (blen dev bs) bs) e i)
        → Wrote s dev off bs (write_tail fl t dev (off + blen dev bs) (drop (blen dev bs) bs))
    last_block t u same =
        let f = blen_lem in
        let b = blen dev bs in
        let l : length (drop b bs) ≡ length bs - b = length-drop b bs in
        let lt : length (take b bs) ≡ b = omega (arith, length-take {A = ℕ} b bs, f) in
        let tail =
          write_tail-lem t dev (off + b) (drop b bs) u
            (add-mod_zero off b (block_size dev) can.start f.3) (omega (arith, l, f))
            (λ p. omega (arith, l, f, can.fits))
            (λ p i q r. same dev i ∙ ground (arith, lt, can.blank i, f, l))
            (λ i p. rw (get_or-drop b bs i 0) (can.bytes (b + i) (omega (arith, l, f)))) in
        (
          tail.0,
          λ e i.
              tail.1 e i
              ∙ ground (arith, same e i, written-take-drop (cell s) dev off bs b f.1 e i),
        )

    write_blocks-lem : unlocked s dev ≡ true → Wrote s dev off bs (write_blocks fl s dev off bs)
    unfolding write_blocks
    write_blocks-lem u = elim (Bool-cases (ltb 0 (blen dev bs))) [
      | inl p ↦
          let e : add32 off (blen dev bs) ≡ off + blen dev bs =
            omega (arith, can.fits, can.holds, blen_lem, laws.size-lt dev) in
          rw (blen_lem.0, p, first_blocks u, e)
            (last_block _ (laws.unlocked-write s dev off _ u)
              (λ e i. laws.cell-write s dev off _ e i (first_blocks u)))
      | inr p ↦
          let none_whole : blen dev bs ≡ 0 = ground arith in
          rw (blen_lem.0, p)
            (write_tail-lem s dev off bs u can.start (omega (arith, blen_lem))
              (λ q. omega (arith, none_whole, blen_lem.4 (omega (arith, none_whole)), can.fits))
              (λ q i r t.
                can.blank i r (omega (arith, none_whole, blen_lem.4 (omega (arith, none_whole)))))
              can.bytes)
    ]

  -- zb_flash_write to erased write blocks takes the write protection off, returns 0, and the
  -- flash then holds the data at the offset and is otherwise as before: the bytes 0xff that
  -- pad the last block leave erased cells erased.
  pub zb_flash_write-lem :
      {s : S} {dev off : ℕ} {bs : List ℕ} {room : ℕ}
      → CanWrite s dev off bs room
      → dev ≢ null
      → Wrote s dev off bs (zb_flash_write fl s dev off bs)
  unfolding zb_flash_write
  zb_flash_write-lem {s} {dev} {off} {bs} {room} can present =
      let t = (fl.write_protection_set s dev false).1 in
      let there : (dev == null) ≡ false = ne→== dev null present in
      let can' : CanWrite t dev off bs room = record {
        start = can.start;
        whole = can.whole;
        least = can.least;
        holds = can.holds;
        fits = can.fits;
        blank = λ i p q. laws.cell-protect s dev false dev i ∙ can.blank i p q;
        bytes = can.bytes;
      } in
      let r = write_blocks-lem can' (laws.protect-unlocks s dev) in
      rw (there, laws.protect-ok s dev false)
        (r.0, λ e i. r.1 e i ∙ ground (arith, laws.cell-protect s dev false e i))

  -- zb_flash_erase of whole pages takes the write protection off, returns 0, and erases the
  -- bytes that it names and no others.
  pub zb_flash_erase-lem :
      (s : S) (dev off len : ℕ)
      → dev ≢ null
      → off % page ≡ 0
      → len % page ≡ 0
      → off + len ≤ size dev
      → ((zb_flash_erase fl s dev off len).0 ≡ ok)
        × ((e i : ℕ)
            → cell (zb_flash_erase fl s dev off len).1 e i ≡ blanked (cell s) dev off len e i)
  unfolding zb_flash_erase
  zb_flash_erase-lem s dev off len present a b fits =
      let t = (fl.write_protection_set s dev false).1 in
      let there : (dev == null) ≡ false = ne→== dev null present in
      let good = laws.erase-ok t dev off len (laws.protect-unlocks s dev) a b fits in
      rw (there, laws.protect-ok s dev false, good)
        (
          refl,
          λ e i.
              laws.cell-protect (fl.erase t dev off len).1 dev true e i
              ∙ laws.cell-erase t dev off len e i good
              ∙ ground (arith, laws.cell-protect s dev false e i),
        )

  -- zb_flash_read inside a device returns 0 and the cells.
  pub zb_flash_read-lem :
      (s : S) (dev off len : ℕ) (buf : List ℕ)
      → dev ≢ null
      → off + len ≤ size dev
      → zb_flash_read fl s dev off len buf ≡ (ok, cells (cell s dev) off len ++ drop len buf)
  unfolding zb_flash_read
  zb_flash_read-lem s dev off len buf present fits =
      let there : (dev == null) ≡ false = ne→== dev null present in
      rw there (laws.read_lem s dev off len buf fits)
