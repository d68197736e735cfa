-- ===== src/Cmd/Append.antt =====
-- zb_cmd_write against the log of a location: what it appends can be read back, a full location
-- is reported and left alone, and a record torn by a power failure is passed over.
use zepboot.Base.{
  ℕ, zero, suc, ◌+◌, ◌-◌, ◌*◌, ◌%◌, ◌^◌, ◌≤◌, ◌<◌, ◌≡◌, ◌⊎◌, refl, ap, ◌∙◌, true, false, arith,
  none, List, [], ◌∷◌, ◌++◌, length, inl, inr, eq→==, ne→==,
}
use zepboot.Base.Ranges.{cells_congr}
use zepboot.Platform.{Checksums, Flash, Device, ok, enospc}
use zepboot.Platform.Memory.{cells-written}
use zepboot.Platform.Laws.{FlashLaws, IsBytes, written, IsBlockSize}
use zepboot.Board.{Board, ZbSltArea}
use zepboot.Flash.{zb_flash_write}
use zepboot.Flash.Align.{add-mod_zero}
use zepboot.Flash.Write.{zb_flash_write-lem, CanWrite}
use zepboot.Cmd.{
  ZbCmd, CmdLoc, of_bytes, to_bytes, is_empty, crc_of, cmd_bytes, zb_cmd_crc8, zb_cmd_write,
  zb_cmd_read, write_loop,
}
use zepboot.Cmd.Log.{cmd_at, is_sound, last_sound, last_sound-append, le-mul}
use zepboot.Cmd.Read.{Answers, Location, LogOf, stride, stride_lem, zb_cmd_read-last_sound}
use zepboot.Cmd.Write.{Holds-append, write_loop-Stops, Stops, Holds-IsBlank, length-log-mul-le}

-- A command whose fields are bytes.
abbrev pub IsCmd : ZbCmd → Type 0
IsCmd c = (c.cmd1 < 2 ^ 8) × (c.cmd2 < 2 ^ 8) × (c.cmd3 < 2 ^ 8)

-- crc.h: a crc8 is a byte.
abbrev pub Crc8IsByte : Checksums → Type 0
Crc8IsByte sums = (init : ℕ) (bs : List ℕ) → sums.crc8_ccitt init bs < 2 ^ 8

-- The record that zb_cmd_write writes for a command.
abbrev pub sealed : Checksums → ZbCmd → ZbCmd
sealed sums c = record c { crc8 = crc_of sums c }

-- A record of a command whose second byte is below 64 is not the empty pattern.
pub full_cmd :
    (sums : Checksums) (c : ZbCmd)
    → Crc8IsByte sums
    → IsCmd c
    → c.cmd2 < 64
    → is_empty (sealed sums c) ≡ false
full_cmd sums c byte fields low =
    let b = byte 0xff (c.cmd1 ∷ c.cmd2 ∷ c.cmd3 ∷ []) in ne→== _ _ (omega arith)

sealed_sound : (sums : Checksums) (c : ZbCmd) → is_sound sums (sealed sums c) ≡ true
sealed_sound sums c = eq→== _ _ refl

crc8-sealed : (sums : Checksums) (c : ZbCmd) → (zb_cmd_crc8 sums c).1 ≡ sealed sums c
unfolding zb_cmd_crc8
crc8-sealed sums c = ground arith

mul-mod_zero : {w : ℕ} (k m : ℕ) → IsBlockSize w → m % w ≡ 0 → 0 % w ≡ 0 → (k * m) % w ≡ 0
mul-mod_zero {w} zero m b h z = let e : 0 * m ≡ 0 = omega arith in rw e z
mul-mod_zero {w} (suc k) m b h z =
    let e : suc k * m ≡ m + k * m = omega arith in
    rw e (add-mod_zero m (k * m) b h (mul-mod_zero k m b h z))

zero-mod : {w : ℕ} → IsBlockSize w → 0 % w ≡ 0
zero-mod (inl e) = rw e refl
zero-mod (inr (inl e)) = rw e refl
zero-mod (inr (inr (inl e))) = rw e refl
zero-mod (inr (inr (inr e))) = rw e refl

to_bytes-IsBytes : (c : ZbCmd) → IsCmd c → c.crc8 < 2 ^ 8 → IsBytes (to_bytes c)
to_bytes-IsBytes c h k zero p = h.0
to_bytes-IsBytes c h k (suc zero) p = h.1
to_bytes-IsBytes c h k (suc (suc zero)) p = h.2
to_bytes-IsBytes c h k (suc (suc (suc zero))) p = k
to_bytes-IsBytes c h k (suc (suc (suc (suc i)))) p = absurd (omega arith)

-- The record read back where its bytes were written.
cmd_at-written :
    (mem : Device → ℕ → ℕ) (dev off : ℕ) (c : ZbCmd)
    → cmd_at (λ i. written mem dev off (to_bytes c) dev i) off ≡ c
cmd_at-written mem dev off c = ap of_bytes (cells-written mem dev off (to_bytes c))

module _ {S : Type 0} {fl : Flash S} {page : ℕ} {laws : FlashLaws fl page} {board : Board}
    {area : ZbSltArea} {loc_id : ℕ} {loc : CmdLoc} {n : ℕ}
    (here : Location laws board area loc_id loc n) where
  open laws use {cell}

  -- The offset of the record behind a log.
  abbrev pub next_record : List ZbCmd → ℕ
  next_record log = here.start + length log * stride here

  stops_lem :
      {s : S} {log : List ZbCmd}
      → LogOf here s log
      → Stops laws s loc.fl_dev loc.end
          (stride here)
          here.present
          (stride_lem here).1
          here.fits
          here.start
          n
          log
          (write_loop fl s loc.fl_dev loc.end (stride here) (loc.end - here.start + 1) here.start)
  stops_lem {s} holds =
      write_loop-Stops laws s loc.fl_dev loc.end (stride here) here.present (stride_lem here).1
        here.fits (loc.end - here.start + 1) holds here.some_room
        (omega (arith, here.stop, le-mul n (stride here) (omega (arith, stride_lem here))))
        here.stop

  can_append :
      {s : S} {log : List ZbCmd} (c : ZbCmd)
      → LogOf here s log
      → length log < n
      → IsBytes (to_bytes c)
      → CanWrite laws s loc.fl_dev (next_record log) (to_bytes c) (stride here)
  can_append {s} {log} c holds room bytes =
      let w = laws.block_size loc.fl_dev in
      let q = stride_lem here in
      record {
        start =
            add-mod_zero here.start (length log * stride here) w here.aligned
              (mul-mod_zero (length log) (stride here) w q.0 (zero-mod w));
        whole = q.0;
        least = q.2;
        holds = q.1;
        fits = omega (
          arith,
          here.stop,
          here.fits,
          length-log-mul-le laws s loc.fl_dev loc.end (stride here) here.present q.1 here.fits holds
              room,
        );
        blank =
            Holds-IsBlank laws s loc.fl_dev loc.end (stride here) here.present q.1 here.fits holds
              room;
        bytes = bytes;
      }

  module _ (sums : Checksums) where
    write_at :
        {s : S} {log : List ZbCmd} (c : ZbCmd)
        → LogOf here s log
        → length log < n
        → zb_cmd_write fl sums board s area c loc_id ≡ (
            let r = zb_flash_write fl s loc.fl_dev (next_record log) (to_bytes (sealed sums c)) in
            (r.0, sealed sums c, r.1))
    unfolding zb_cmd_write
    write_at {s} {log} c holds room =
        let e = (stops_lem holds).0 room in
        rw (here.found, here.first, zb_cmd_write, e, crc8-sealed sums c)

    -- zb_cmd_write to a location with room returns 0 and appends the command, with its crc8, to
    -- the log: its bytes are written to the new record, and to no other place. The command's
    -- fields and every crc8 are bytes, and the record is not the pattern 0xffffffff that means "empty".
    pub zb_cmd_write-append :
        {s : S} {log : List ZbCmd} (c : ZbCmd)
        → Crc8IsByte sums
        → IsCmd c
        → is_empty (sealed sums c) ≡ false
        → LogOf here s log
        → length log < n
        → let (rc, c', s') = zb_cmd_write fl sums board s area c loc_id in
          (rc ≡ ok)
          × (c' ≡ sealed sums c)
          × LogOf here s' (log ++ sealed sums c ∷ [])
          × ((e i : ℕ)
              → cell s' e i
                ≡ written (cell s) loc.fl_dev (next_record log) (to_bytes (sealed sums c)) e i)
    zb_cmd_write-append {s} {log} c byte fields full holds room =
        let bytes = to_bytes-IsBytes (sealed sums c) fields (byte _ _) in
        let wrote =
          zb_flash_write-lem laws (can_append (sealed sums c) holds room bytes) here.present in
        rw (write_at c holds room) (
          wrote.0,
          refl,
          Holds-append (stride_lem here).1 holds room full
              (ap of_bytes
                  (cells_congr _ _ (next_record log) cmd_bytes (λ i p q. wrote.1 loc.fl_dev i))
                ∙ cmd_at-written (cell s) loc.fl_dev (next_record log) (sealed sums c))
              (λ i p q r. wrote.1 loc.fl_dev i ∙ ground arith),
          λ e i. wrote.1 e i,
        )

    -- zb_cmd_write to a full location returns -ENOSPC and changes neither the flash nor the
    -- command.
    pub zb_cmd_write-full :
        {s : S} {log : List ZbCmd} (c : ZbCmd)
        → LogOf here s log
        → length log ≡ n
        → zb_cmd_write fl sums board s area c loc_id ≡ (enospc, c, s)
    unfolding zb_cmd_write
    zb_cmd_write-full c holds full =
        let e = (stops_lem holds).1 full in rw (here.found, here.first, zb_cmd_write, e)

    -- What zb_cmd_write appends is what the next zb_cmd_read of the location returns.
    pub zb_cmd_read-write :
        {s : S} {log : List ZbCmd} (c other : ZbCmd)
        → Crc8IsByte sums
        → IsCmd c
        → is_empty (sealed sums c) ≡ false
        → LogOf here s log
        → length log < n
        → zb_cmd_read fl sums board (zb_cmd_write fl sums board s area c loc_id).2 area other loc_id
          ≡ (ok, sealed sums c)
    zb_cmd_read-write {s} {log} c other byte fields full holds room =
        let w = zb_cmd_write-append c byte fields full holds room in
        let r = zb_cmd_read-last_sound here sums other w.2 in
        rw (last_sound-append sums none log (sealed sums c), sealed_sound sums c) at r

    -- A power failure while a command is written may leave any bytes in its record. If they are
    -- not the empty pattern and do not have their crc8, zb_cmd_read answers as before the write.
    pub zb_cmd_read-torn :
        {s s' : S} {log : List ZbCmd} {torn : ZbCmd} (other : ZbCmd)
        → LogOf here s log
        → length log < n
        → ((i : ℕ)
            → (i < next_record log) ⊎ (next_record log + cmd_bytes ≤ i)
            → cell s' loc.fl_dev i ≡ cell s loc.fl_dev i)
        → cmd_at (cell s' loc.fl_dev) (next_record log) ≡ torn
        → is_empty torn ≡ false
        → is_sound sums torn ≡ false
        → Answers (last_sound sums none log) (zb_cmd_read fl sums board s' area other loc_id)
    zb_cmd_read-torn {log = log} {torn} other holds room same at full bad =
        let h = Holds-append (stride_lem here).1 holds room full at (λ i p q r. same i r) in
        let r = zb_cmd_read-last_sound here sums other h in
        rw (last_sound-append sums none log torn, bad) at r
