-- ===== src/Cmd/Read.antt =====
-- zb_cmd_read finds the last sound record of a log.
use zepboot.Base.{
  ℕ, zero, suc, ◌+◌, ◌-◌, ◌*◌, ◌%◌, ◌≤◌, ◌<◌, ◌≡◌, ◌≢◌, refl, sym, Bool, true, false, ◌||◌, arith,
  Option, none, some, List, [], ◌∷◌, ◌==◌, leb, if◌then◌else◌, Bool-cases, inl, inr, add32, leb→le,
}
use mathlib.Core.Path.{subst}
use zepboot.Platform.{Checksums, Flash, null, Rc, ok, enoent}
use zepboot.Platform.Laws.{IsBlank, FlashLaws}
use zepboot.Flash.Write.{zb_flash_read-lem}
use zepboot.Board.{Board, ZbSltArea}
use zepboot.Flash.{zb_flash_align_size}
use zepboot.Flash.Align.{minus-mod_lem, align_size_bounds}
use zepboot.Cmd.{
  CmdLoc, zb_get_cmd_loc, first_record, zb_cmd_read, ZbCmd, of_bytes, is_empty, cmd_bytes,
  zb_cmd_crc8, read_loop,
}
use zepboot.Cmd.Log.{
  cmd_at, Holds, blank, entry, is_sound, last_sound, last_round, more_rounds, no_records, le-mul,
}

-- What a reader is told: the command and 0, or -ENOENT.
abbrev pub Answers : Option ZbCmd → Rc × ZbCmd → Type 0
Answers (some c) r = r ≡ (ok, c)
Answers none r = r.0 ≡ enoent

-- What the loop has found so far.
abbrev so_far : Bool → ZbCmd → Option ZbCmd
so_far found cmd = if found then some cmd else none

answer : Bool → ZbCmd → ZbCmd → Rc × ZbCmd
answer found cmd other = if found then (ok, cmd) else (enoent, other)

answer-Answers :
    (found : Bool) (cmd other : ZbCmd) → Answers (so_far found cmd) (answer found cmd other)
unfolding answer
answer-Answers true cmd other = refl
answer-Answers false cmd other = refl

module _ (sums : Checksums) where
  -- The record of a step, in the two forms of the loop and of the log.
  found_step : Bool → ZbCmd → Bool
  found_step found c = found || is_sound sums c

  cmd_step : ZbCmd → ZbCmd → ZbCmd
  cmd_step cmd c = if is_sound sums c then c else cmd

  so_far_step :
      (found : Bool) (cmd c : ZbCmd)
      → so_far (found_step found c) (cmd_step cmd c)
        ≡ (if is_sound sums c then some c else so_far found cmd)
  unfolding found_step cmd_step
  so_far_step true cmd c = ground arith
  so_far_step false cmd c = ground arith

  -- A sound record is what zb_cmd_crc8 makes of it.
  crc8_step :
      (found : Bool) (cmd c : ZbCmd)
      → (found || ((zb_cmd_crc8 sums c).0 == 0) ≡ found_step found c)
        × ((if (zb_cmd_crc8 sums c).0 == 0 then (zb_cmd_crc8 sums c).1 else cmd) ≡ cmd_step cmd c)
  unfolding zb_cmd_crc8 found_step cmd_step
  crc8_step found cmd c = ground arith

  module _ {S : Type 0} {fl : Flash S} {page : ℕ} (laws : FlashLaws fl page) (s : S)
      (dev end stride : ℕ) (present : dev ≢ null) (wide : cmd_bytes ≤ stride)
      (fits : end ≤ laws.size dev) where
    open laws use {cell}

    -- One round at a record that is not empty.
    read_loop-entry :
        (fuel off : ℕ) (found : Bool) (cmd : ZbCmd)
        → off + stride ≤ end
        → is_empty (cmd_at (cell s dev) off) ≡ false
        → let c = cmd_at (cell s dev) off in
          read_loop fl sums s dev end stride (suc fuel) off found cmd ≡ (
            if leb end (off + stride)
            then answer (found_step found c) (cmd_step cmd c) (cmd_step cmd c)
            else read_loop fl sums s dev end stride fuel
                (off + stride)
                (found_step found c)
                (cmd_step cmd c))
    unfolding read_loop answer
    read_loop-entry fuel off found cmd room full =
        let e : add32 off stride ≡ off + stride = omega (arith, laws.size-lt dev) in
        let step = crc8_step found cmd (cmd_at (cell s dev) off) in
        rw (
          zb_flash_read-lem laws s dev off cmd_bytes [] present (omega arith),
          e,
          full,
          step.0,
          step.1,
        )

    read_loop-blank :
        (fuel off : ℕ) (found : Bool) (cmd : ZbCmd)
        → off + stride ≤ end
        → IsBlank (cell s dev) off stride
        → read_loop fl sums s dev end stride (suc fuel) off found cmd
          ≡ answer found cmd (of_bytes (255 ∷ 255 ∷ 255 ∷ 255 ∷ []))
    unfolding read_loop answer
    read_loop-blank fuel off found cmd room empty =
        rw
          (
            zb_flash_read-lem laws s dev off cmd_bytes [] present (omega arith),
            empty off (omega arith) (omega arith),
            empty (off + 1) (omega arith) (omega arith),
            empty (off + 1 + 1) (omega arith) (omega arith),
            empty (off + 1 + 1 + 1) (omega arith) (omega arith),
          )
          refl

    entry-Answers :
        (fuel off n : ℕ) (found : Bool) (cmd : ZbCmd) (log : List ZbCmd)
        → off + suc n * stride ≡ end
        → is_empty (cmd_at (cell s dev) off) ≡ false
        → (n ≡ 0 → log ≡ [])
        → (let c = cmd_at (cell s dev) off in
            0 < n
            → Answers (last_sound sums (so_far (found_step found c) (cmd_step cmd c)) log) (
                read_loop fl sums s dev end stride fuel
                  (off + stride)
                  (found_step found c)
                  (cmd_step cmd c)))
        → Answers
            (last_sound sums (so_far found cmd) (cmd_at (cell s dev) off ∷ log))
            (read_loop fl sums s dev end stride (suc fuel) off found cmd)
    entry-Answers fuel off n found cmd log stop full last rest =
        let c = cmd_at (cell s dev) off in
        rw (read_loop-entry fuel off found cmd (omega arith) full, ← so_far_step found cmd c)
          (elim (Bool-cases (leb end (off + stride))) [
            | inl over ↦
                let none_left : n ≡ 0 =
                  last_round stride n wide (omega (arith, leb→le end (off + stride) over)) in
                rw (over, last none_left) (answer-Answers (found_step found c) (cmd_step cmd c) _)
            | inr more ↦ rw more (rest (more_rounds stride n (ground arith)))
          ])

    -- The loop answers by the log from its offset on, with one round of fuel for each record.
    read_loop-Answers :
        {off n : ℕ} {log : List ZbCmd} (fuel : ℕ) (found : Bool) (cmd : ZbCmd)
        → Holds (cell s dev) stride off n log
        → 0 < n
        → n ≤ fuel
        → off + n * stride ≡ end
        → Answers
            (last_sound sums (so_far found cmd) log)
            (read_loop fl sums s dev end stride fuel off found cmd)
    read_loop-Answers zero found cmd h some' few stop = absurd (omega arith)
    read_loop-Answers (suc fuel) found cmd (blank {n = zero} b) some' few stop =
        absurd (omega arith)
    read_loop-Answers (suc fuel) found cmd (blank {off = off} {n = suc n} b) some' few stop =
        rw (read_loop-blank fuel off found cmd (omega arith) (λ i p q. b i p (omega arith)))
          (answer-Answers found cmd _)
    read_loop-Answers (suc fuel) found cmd
          (entry {off} {off' = off'} {n = n} {log = log} e full next h) some' few stop =
        subst
          (λ x.
            Answers (last_sound sums (so_far found cmd) (x ∷ log))
              (read_loop fl sums s dev end stride (suc fuel) off found cmd))
          e
          (entry-Answers fuel off n found cmd log stop
            (subst (λ x. is_empty x ≡ false) (sym e) full) (no_records h)
            (λ p. rw (← next) (
              read_loop-Answers fuel (found_step found (cmd_at (cell s dev) off))
                (cmd_step cmd (cmd_at (cell s dev) off)) h p (omega arith) (omega arith))))

module _ {S : Type 0} {fl : Flash S} {page : ℕ} (laws : FlashLaws fl page) (board : Board)
    (area : ZbSltArea) (loc_id : ℕ) where
  -- Location `loc_id` of the area is `loc`, on a device, and has room for `n` records.
  pub record Location (loc : CmdLoc) (n : ℕ) : Type 0 where
    pub found : zb_get_cmd_loc board area loc_id ≡ some loc
    pub present : loc.fl_dev ≢ null
    pub start : ℕ
    pub first : first_record fl loc_id loc ≡ start
    pub aligned : start % fl.write_block_size loc.fl_dev ≡ 0
    pub some_room : 0 < n
    pub stop : start + n * zb_flash_align_size fl loc.fl_dev cmd_bytes ≡ loc.end
    pub fits : loc.end ≤ laws.size loc.fl_dev

module _ {S : Type 0} {fl : Flash S} {page : ℕ} {laws : FlashLaws fl page} {board : Board}
    {area : ZbSltArea} {loc_id : ℕ} {loc : CmdLoc} {n : ℕ}
    (here : Location laws board area loc_id loc n) where
  open laws use {cell}

  -- The distance from record to record.
  abbrev pub stride : ℕ
  stride = zb_flash_align_size fl loc.fl_dev cmd_bytes

  pub stride_lem :
      (stride % fl.write_block_size loc.fl_dev ≡ 0)
      × (cmd_bytes ≤ stride)
      × (stride < cmd_bytes + fl.write_block_size loc.fl_dev)
  stride_lem = ground (
    arith,
    minus-mod_lem 0 (laws.block_size loc.fl_dev),
    align_size_bounds fl loc.fl_dev (laws.block_size loc.fl_dev) cmd_bytes,
  )

  -- What location `loc_id` holds in a state of the flash.
  abbrev pub LogOf : S → List ZbCmd → Type 0
  LogOf s log = Holds (cell s loc.fl_dev) stride here.start n log

  -- zb_cmd_read of a location that holds a log returns 0 and the last record of the log whose
  -- crc8 is right; if there is none, it returns -ENOENT. Its loop ends.
  pub zb_cmd_read-last_sound :
      (sums : Checksums) {s : S} {log : List ZbCmd} (cmd : ZbCmd)
      → LogOf s log
      → Answers (last_sound sums none log) (zb_cmd_read fl sums board s area cmd loc_id)
  unfolding zb_cmd_read
  zb_cmd_read-last_sound sums {s} cmd holds =
      rw (here.found, here.first, zb_cmd_read)
        (read_loop-Answers sums laws s loc.fl_dev loc.end stride here.present stride_lem.1 here.fits
          (loc.end - here.start + 1) false cmd holds here.some_room
          (omega (arith, here.stop, le-mul n stride (omega (arith, stride_lem)))) here.stop)
