-- ===== src/Prm/Tests.antt =====
-- The theorem on the boot parameters, on an erased chip.
use zepboot.Base.{ℕ, ◌≡◌, refl, arith}
use zepboot.Platform.Laws.{written}
use zepboot.Prm.{to_bytes, ZbPrm, zb_prm_read, zb_prm_write}
use zepboot.Platform.{ok}
use zepboot.Platform.Sim.{sim, sim_laws}
use zepboot.Platform.Example.{board, area, erased}
use zepboot.Prm.RoundTrip.{zb_prm_read-write}

abbrev prm : ZbPrm
prm = record {
  pri_ld_address = 0x100;
  sec_ld_address = 0x100;
  slt0_crc32 = 0xdeadbeef;
  slt1_crc32 = 0xffffffff;
  slt0_ver = 0x01020003;
  slt1_ver = 0;
}

zb_prm_read-write_example :
    let (rc, s') = zb_prm_write sim board erased area prm in
    (rc ≡ ok)
    × (zb_prm_read sim board s' area prm ≡ (ok, prm))
    × ((e i : ℕ) → sim_laws.cell s' e i ≡ written (sim_laws.cell erased) 1 0x1c0 (to_bytes prm) e i)
unfolding sim_laws sim
zb_prm_read-write_example =
    zb_prm_read-write sim_laws board area erased prm prm (omega arith) (omega arith) refl
      (omega arith) (λ i p q. refl)
