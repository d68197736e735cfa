-- ===== src/Tlv/Find.antt =====
-- Searching the type-length-value area: find_tlv finds the first entry of a type.
use zepboot.Base.{
  ℕ, zero, suc, ◌+◌, ◌-◌, append_assoc, ◌^◌, ◌≤◌, ◌<◌, ◌≡◌, ◌≢◌, refl, sym, ◌∙◌, Option, none, some,
  List, [], ◌∷◌, ◌++◌, length, take, drop, ◌==◌, if◌then◌else◌, byte_at, arith, ne→==, eq→==,
  lt→ltb, get_or-drop, ap, length-append, drop-drop, take-append, drop-append,
}
use mathlib.Core.Path.{subst}
use native.Mathlib.Decide.{ℕ_discrete}
use zepboot.Tlv.{TlvEntry, zb_step_tlv, find_loop, find_tlv}

pub record Field : Type 0 where
  pub type : ℕ
  pub value : List ℕ

-- The area holds the fields from an offset on, up to `n`.
abbrev pub Holds : List ℕ → ℕ → ℕ → List Field → Type 0
Holds area off n [] = off ≡ n
Holds area off n (f ∷ fs) =
    (byte_at area off ≡ f.type)
    × (byte_at area (off + 1) ≡ length f.value)
    × (take (length f.value) (drop (off + 2) area) ≡ f.value)
    × Holds area (off + 2 + length f.value) n fs

-- The value of the first field of a type.
abbrev pub lookup : List Field → ℕ → Option (List ℕ)
lookup [] type = none
lookup (f ∷ fs) type = let rest = lookup fs type in if f.type == type then some f.value else rest

-- The entry has the value that was looked up, or the type tells that there is none.
abbrev pub IsAnswer : List ℕ → ℕ → Option (List ℕ) → TlvEntry → Type 0
IsAnswer area type none entry = entry.type ≢ type
IsAnswer area type (some value) entry =
    (entry.type ≡ type)
    × (entry.length ≡ length value)
    × (take entry.length (drop entry.value area) ≡ value)

Holds-le : (area : List ℕ) (off n : ℕ) (fs : List Field) → Holds area off n fs → off ≤ n
Holds-le area off n [] h = omega arith
Holds-le area off n (f ∷ fs) (a, b, c, h) =
    let r = Holds-le area (off + 2 + length f.value) n fs h in omega arith

-- One step of the search.
step_offset :
    (area : List ℕ) (off len : ℕ)
    → byte_at area (off + 1) ≡ len
    → off + 2 + len < 2 ^ 32
    → (zb_step_tlv area off).0 ≡ off + 2 + len
unfolding zb_step_tlv
step_offset area off len e h = omega arith

step_type : (area : List ℕ) (off : ℕ) → (zb_step_tlv area off).1.type ≡ byte_at area off
unfolding zb_step_tlv
step_type area off = refl

step-IsAnswer :
    (area : List ℕ) (off type : ℕ) (f : Field)
    → byte_at area off ≡ f.type
    → byte_at area (off + 1) ≡ length f.value
    → take (length f.value) (drop (off + 2) area) ≡ f.value
    → f.type ≡ type
    → IsAnswer area type (some f.value) (zb_step_tlv area off).1
unfolding zb_step_tlv
step-IsAnswer area off type f a b c e = (a ∙ e, b, rw b c)

find_loop-stops :
    (area : List ℕ) (n type fuel off : ℕ) (entry : TlvEntry)
    → entry.type ≡ type
    → find_loop area n type (suc fuel) off entry ≡ some entry
unfolding find_loop
find_loop-stops area n type fuel off entry e = rw (eq→== entry.type type e) refl

find_loop-over :
    (area : List ℕ) (n type fuel off : ℕ) (entry : TlvEntry)
    → n ≤ off
    → find_loop area n type (suc fuel) off entry ≡ some entry
unfolding find_loop
find_loop-over area n type fuel off entry e = ground arith

find_loop-steps :
    (area : List ℕ) (n type fuel off : ℕ) (entry : TlvEntry)
    → entry.type ≢ type
    → off < n
    → find_loop area n type (suc fuel) off entry
      ≡ find_loop area n type fuel (zb_step_tlv area off).0 (zb_step_tlv area off).1
unfolding find_loop
find_loop-steps area n type fuel off entry ne h = rw (ne→== entry.type type ne, lt→ltb off n h) refl

find_loop-lookup :
    (area : List ℕ) (n type fuel off : ℕ) (entry : TlvEntry) (fs : List Field)
    → Holds area off n fs
    → entry.type ≢ type
    → n < off + fuel
    → n < 2 ^ 32
    → (e : TlvEntry) × (find_loop area n type fuel off entry ≡ some e)
      × IsAnswer area type (lookup fs type) e
find_loop-lookup area n type zero off entry fs h ne enough small =
    let r = Holds-le area off n fs h in absurd (omega arith)
find_loop-lookup area n type (suc fuel) off entry [] h ne enough small =
    (entry, find_loop-over area n type fuel off entry (omega arith), ne)
find_loop-lookup area n type (suc zero) off entry (f ∷ fs) (a, b, c, h) ne enough small =
    let r = Holds-le area (off + 2 + length f.value) n fs h in absurd (omega arith)
find_loop-lookup area n type (suc (suc fuel)) off entry (f ∷ fs) (a, b, c, h) ne enough small =
    let r = Holds-le area (off + 2 + length f.value) n fs h in
    let off' = (zb_step_tlv area off).0 in
    let entry' = (zb_step_tlv area off).1 in
    let step = find_loop-steps area n type (suc fuel) off entry ne (omega arith) in
    let moved : off' ≡ off + 2 + length f.value =
      step_offset area off (length f.value) b (omega arith) in
    elim (ℕ_discrete f.type type) [
      | yes same ↦
          let stops =
            find_loop-stops area n type fuel off' entry' (step_type area off ∙ a ∙ same) in
          (
            entry',
            step ∙ stops,
            rw (eq→== f.type type same) (step-IsAnswer area off type f a b c same),
          )
      | no other ↦
          let ne' : entry'.type ≢ type = λ e. other (sym (step_type area off ∙ a) ∙ e) in
          let h' : Holds area off' n fs = subst (λ o. Holds area o n fs) (sym moved) h in
          let rest =
            find_loop-lookup area n type (suc fuel) off' entry' fs h' ne' (omega arith) small in
          (rest.0, step ∙ rest.1, rw (ne→== f.type type other) rest.2)
    ]

-- The fields as bytes.
unfoldable pub encode : List Field → List ℕ
encode [] = []
encode (f ∷ fs) = f.type ∷ length f.value ∷ (f.value ++ encode fs)

byte_at-drop :
    (area : List ℕ) (off i : ℕ) {bs : List ℕ}
    → drop off area ≡ bs
    → byte_at area (off + i) ≡ byte_at bs i
byte_at-drop area off i e = sym (get_or-drop off area i 0) ∙ ap (λ xs. byte_at xs i) e

-- Bytes that are the fields hold the fields, wherever they stand.
encode-Holds :
    (area : List ℕ) (off : ℕ) (fs : List Field) (rest : List ℕ)
    → drop off area ≡ encode fs ++ rest
    → Holds area off (off + length (encode fs)) fs
unfolding encode
encode-Holds area off [] rest e = omega arith
encode-Holds area off (f ∷ fs) rest e =
    let here : byte_at area off ≡ f.type =
      ap (byte_at area) (omega arith) ∙ byte_at-drop area off 0 e in
    let second = byte_at-drop area off 1 e in
    let behind : drop (off + 2) area ≡ f.value ++ (encode fs ++ rest) =
      sym (drop-drop 2 off area) ∙ ap (drop 2) e ∙ append_assoc f.value (encode fs) rest in
    let after : drop (off + 2 + length f.value) area ≡ encode fs ++ rest =
      sym (drop-drop (length f.value) (off + 2) area)
      ∙ ap (drop (length f.value)) behind
      ∙ drop-append f.value (encode fs ++ rest) in
    let len = length-append f.value (encode fs) in
    let value = ap (take (length f.value)) behind ∙ take-append f.value (encode fs ++ rest) in
    let others = encode-Holds area (off + 2 + length f.value) fs rest after in
    (
      here,
      second,
      value,
      subst (λ n. Holds area (off + 2 + length f.value) n fs) (omega arith) others,
    )

-- Of an area that is the bytes of some fields, find_tlv finds the first field of a type: it
-- returns an entry, and that has the type, the length and the value of the field, or another type
-- if there is none.
pub find_tlv-encode :
    (fs : List Field) (rest : List ℕ) (type : ℕ) (entry : TlvEntry)
    → type ≢ 0
    → length (encode fs) < 2 ^ 32 - 1
    → (e : TlvEntry) × (find_tlv (encode fs ++ rest) (length (encode fs)) type entry ≡ some e)
      × IsAnswer (encode fs ++ rest) type (lookup fs type) e
unfolding find_tlv
find_tlv-encode fs rest type entry ne small =
    let area = encode fs ++ rest in
    let held : Holds area 0 (length (encode fs)) fs =
      subst (λ n. Holds area 0 n fs) (omega arith) (encode-Holds area 0 fs rest refl) in
    find_loop-lookup area (length (encode fs)) type (length (encode fs) + 1) 0
      (record entry { type = 0 }) fs held (λ e. ne (sym e)) (omega arith) (omega arith)
