-- ===== src/Tlv/Tests.antt =====
-- The search in the area, for a type of image, an entry of two bytes and what is left of a buffer.
use zepboot.Base.{◌≡◌, refl, arith, some, List, [], ◌∷◌, ◌++◌, length}
use zepboot.Tlv.{TlvEntry, find_tlv, find_loop, zb_step_tlv}
use zepboot.Tlv.Find.{Field, IsAnswer, encode, find_tlv-encode}

abbrev fields : List Field
fields =
    record { type = 0x10; value = 0 ∷ [] }
    ∷ record { type = 0x20; value = 7 ∷ 9 ∷ [] }
    ∷ record { type = 0x20; value = 8 ∷ [] }
    ∷ []

abbrev no_entry : TlvEntry
no_entry = record { type = 0; length = 0; value = 0 }

find_value :
    find_tlv (encode fields ++ (0xff ∷ [])) 10 0x20 no_entry
    ≡ some (record { type = 0x20; length = 2; value = 5 })
unfolding find_tlv encode find_loop zb_step_tlv
find_value = refl

find_tlv-encode_example :
    (e : TlvEntry) × (find_tlv (encode fields ++ (0xff ∷ [])) (length (encode fields)) 0x20 no_entry
      ≡ some e)
    × IsAnswer (encode fields ++ (0xff ∷ [])) 0x20 (some (7 ∷ 9 ∷ [])) e
unfolding encode
find_tlv-encode_example =
    find_tlv-encode fields (0xff ∷ []) 0x20 no_entry (omega arith) (omega arith)
