-- ===== src/Flash/Tests.antt =====
-- The theorems on flash access, on the simulated chip.
use zepboot.Base.{ℕ, ◌+◌, ◌%◌, ◌^◌, ◌≤◌, ◌<◌, ◌≡◌, refl, arith, List, [], ◌∷◌, inl, inr, byte_at}
use zepboot.Platform.{ok}
use zepboot.Platform.Laws.{written, blanked}
use zepboot.Platform.Sim.{sim, sim_laws}
use zepboot.Platform.Example.{erased, started}
use zepboot.Flash.{zb_flash_align_size, zb_flash_align_offset, zb_flash_write, zb_flash_erase}
use zepboot.Flash.Align.{align_size_bounds}
use zepboot.Flash.Write.{CanWrite, zb_flash_write-lem, zb_flash_erase-lem}

align_values :
    (zb_flash_align_size sim 1 24 ≡ 24)
    × (zb_flash_align_size sim 1 25 ≡ 28)
    × (zb_flash_align_offset sim 1 27 ≡ 24)
unfolding zb_flash_align_size zb_flash_align_offset sim
align_values = (refl, refl, refl)

align_size_bounds_example :
    (zb_flash_align_size sim 1 5 % 4 ≡ 0)
    × (5 ≤ zb_flash_align_size sim 1 5)
    × (zb_flash_align_size sim 1 5 < 5 + 4)
unfolding sim
align_size_bounds_example = align_size_bounds sim 1 (inr (inr (inl refl))) 5 (omega arith)

-- Six bytes: a whole block, and a block that is padded.
abbrev six : List ℕ
six = 1 ∷ 2 ∷ 3 ∷ 4 ∷ 5 ∷ 6 ∷ []

six_fits : CanWrite sim_laws erased 1 0x40 six 8
unfolding sim_laws sim
six_fits = record {
  start = refl;
  whole = refl;
  least = omega arith;
  holds = omega arith;
  fits = omega arith;
  blank = λ i p q. refl;
  bytes = λ i p. six-bytes i p;
}
  where
    six-bytes : (i : ℕ) → i < 6 → byte_at six i < 2 ^ 8
    six-bytes i p = grind arith

zb_flash_write-lem_example :
    ((zb_flash_write sim erased 1 0x40 six).0 ≡ ok)
    × ((e i : ℕ)
        → sim_laws.cell (zb_flash_write sim erased 1 0x40 six).1 e i
          ≡ written (sim_laws.cell erased) 1 0x40 six e i)
zb_flash_write-lem_example = zb_flash_write-lem sim_laws six_fits (omega arith)

zb_flash_erase-lem_example :
    ((zb_flash_erase sim started 1 0x300 0x40).0 ≡ ok)
    × ((e i : ℕ)
        → sim_laws.cell (zb_flash_erase sim started 1 0x300 0x40).1 e i
          ≡ blanked (sim_laws.cell started) 1 0x300 0x40 e i)
unfolding sim_laws
zb_flash_erase-lem_example =
    zb_flash_erase-lem sim_laws started 1 0x300 0x40 (omega arith) refl refl (omega arith)
