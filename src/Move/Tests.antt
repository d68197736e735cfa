-- ===== src/Move/Tests.antt =====
-- The theorem on moves, on the simulated chip, with a toy cipher in place of AES.
use zepboot.Base.{
  ℕ, zero, suc, ◌+◌, ◌^◌, ◌<◌, refl, arith, inl, inr, none, some, true, false, List, [], ◌∷◌, ◌++◌,
  map, replicate, byte_at, u8,
}
use zepboot.Platform.Sim.{Chip, sim, sim_laws}
use zepboot.Platform.Example.{started}
use zepboot.TinyCrypt.{TinyCrypt}
use zepboot.Move.{ZbMoveCmd, Memory, zb_img_move}
use zepboot.Move.Ram.{RamMoved, zb_img_move-RamMoved}
use zepboot.Move.Copy.{CanMove, Moved, zb_img_move-Moved}

abbrev enc : List ℕ → List ℕ
enc block = map (λ b. u8 (b + 7)) block

enc-lt : (block : List ℕ) (i : ℕ) → byte_at (enc block) i < 2 ^ 8
enc-lt [] i = omega arith
enc-lt (b ∷ block) zero = omega arith
enc-lt (b ∷ block) (suc i) = enc-lt block i

abbrev tc : TinyCrypt (List ℕ)
tc = record {
  sha256_init = some [];
  sha256_update = λ h bs. some (h ++ bs);
  sha256_final = λ h. some (replicate 32 0);
  valid_public_key = λ _. 0;
  shared_secret = λ _ _. none;
  verify = λ _ _ _. true;
  aes_encrypt = λ _ block. some (enc block);
  boot_pri_key = [];
  root_pub_key = [];
}

-- 30 bytes, of which the last 22 are encrypted.
abbrev mcmd : ZbMoveCmd
mcmd = record {
  fr_off = 0x2f8;
  fr_eoff = 0x300;
  to_off = 0x400;
  key = [];
  fl_dev_fr = 1;
  fl_dev_to = 1;
}

abbrev m : Memory Chip
m = record { flash = started; ram = λ _. 0 }

can_move :
    CanMove sim_laws tc enc mcmd
      (λ block. refl)
      enc-lt
      (omega arith)
      (omega arith)
      m.flash
      0x2f8
      0x400
      30
      32
unfolding sim_laws
can_move = record {
  from_fits = omega arith;
  starts = refl;
  whole = refl;
  holds = omega arith;
  to_fits = omega arith;
  blank = λ i p q. ground arith;
  apart = inr (inl (omega arith));
}

zb_img_move-Moved_example :
    Moved sim_laws tc enc mcmd
      (λ block. refl)
      enc-lt
      (omega arith)
      (omega arith)
      m
      0x2f8
      0x400
      30
      (zb_img_move sim tc (replicate 512 0) m mcmd 30 false)
zb_img_move-Moved_example =
    zb_img_move-Moved sim_laws tc enc mcmd (λ block. refl) enc-lt (omega arith) (omega arith) m 30
      32 (replicate 512 0) can_move (inl refl) refl

zb_img_move-RamMoved_example :
    RamMoved sim_laws tc enc mcmd
      (λ block. refl)
      (omega arith)
      m
      0x2f8
      0x400
      30
      (zb_img_move sim tc (replicate 512 0) m mcmd 30 true)
unfolding sim_laws
zb_img_move-RamMoved_example =
    zb_img_move-RamMoved sim_laws tc enc mcmd (λ block. refl) (omega arith) m 30 (replicate 512 0)
      (omega arith) (omega arith) refl
