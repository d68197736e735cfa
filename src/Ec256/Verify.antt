-- ===== src/Ec256/Verify.antt =====
-- Whom zb_sign_verify (zepboot/src/zb_ec256.c) trusts: the loop over the root keys.
use zepboot.Base.{
  ℕ, zero, suc, ◌+◌, ◌≤◌, ◌<◌, ◌≡◌, refl, sym, ap, ◌∙◌, Bool, true, false, ◌&&◌, ◌||◌, List, [],
  ◌∷◌, ◌++◌, length, take, drop, ltb, ◌==◌, if◌then◌else◌, arith, Bool-cases, inl, inr, lt→ltb,
  length-append, length-drop, drop-drop, take-append, drop-append,
}
use mathlib.Core.Path.{subst}
use zepboot.Platform.{ok, efault}
use zepboot.TinyCrypt.{TinyCrypt}
use zepboot.Ec256.{public_key_bytes, verify_loop, zb_sign_verify}

-- Keys one behind the other.
abbrev pub joined : List (List ℕ) → List ℕ
joined [] = []
joined (key ∷ keys) = key ++ joined keys

-- Each has the length of a public key.
abbrev pub AreKeys : List (List ℕ) → Type 0
AreKeys [] = 0 ≤ 0
AreKeys (key ∷ keys) = (length key ≡ public_key_bytes) × AreKeys keys

module _ {H : Type 0} (tc : TinyCrypt H) where
  open tc use {valid_public_key, verify, root_pub_key}

  -- One of the keys is on the curve and verifies the signature.
  abbrev pub verifies : List (List ℕ) → List ℕ → List ℕ → Bool
  verifies [] hash signature = false
  verifies (key ∷ keys) hash signature =
      let rest = verifies keys hash signature in
      ((valid_public_key key == 0) && verify key hash signature) || rest

  verify_loop_lem :
      (hash signature : List ℕ) (fuel cnt : ℕ) (keys : List (List ℕ))
      → AreKeys keys
      → drop cnt root_pub_key ≡ joined keys
      → length (joined keys) < fuel
      → verify_loop tc hash signature fuel cnt
        ≡ (if verifies keys hash signature then ok else efault)
  unfolding verify_loop
  verify_loop_lem hash signature zero cnt keys z e h = absurd (omega arith)
  verify_loop_lem hash signature (suc fuel) cnt [] z e h =
      let len = sym (length-drop cnt root_pub_key) ∙ ap length e in ground arith
  verify_loop_lem hash signature (suc fuel) cnt (key ∷ keys) (z, zs) e h =
      let len = sym (length-drop cnt root_pub_key) ∙ ap length e in
      let long = length-append key (joined keys) in
      let more : ltb cnt (length root_pub_key) ≡ true =
        lt→ltb cnt (length root_pub_key) (omega arith) in
      let pubk : take public_key_bytes (drop cnt root_pub_key) ≡ key =
        ap (take public_key_bytes) e
        ∙ subst (λ n. take n (key ++ joined keys) ≡ key) z (take-append key (joined keys)) in
      let behind : drop (cnt + public_key_bytes) root_pub_key ≡ joined keys =
        sym (drop-drop public_key_bytes cnt root_pub_key)
        ∙ ap (drop public_key_bytes) e
        ∙ subst (λ n. drop n (key ++ joined keys) ≡ joined keys) z
            (drop-append key (joined keys)) in
      let rest =
        verify_loop_lem hash signature fuel (cnt + public_key_bytes) keys zs behind (omega arith) in
      elim (Bool-cases (valid_public_key key == 0)) [
        | inr v ↦ rw (more, pubk, v) rest
        | inl v ↦ elim (Bool-cases (verify key hash signature)) [
          | inl w ↦ rw (more, pubk, v, w) refl
          | inr w ↦ rw (more, pubk, v, w) rest
        ]
      ]

  -- If the root keys of the build are keys one behind the other, zb_sign_verify returns 0 when one
  -- of them is on the curve and verifies the signature, and -EFAULT when none does.
  pub zb_sign_verify-any :
      (hash signature : List ℕ) (keys : List (List ℕ))
      → AreKeys keys
      → root_pub_key ≡ joined keys
      → zb_sign_verify tc hash signature ≡ (if verifies keys hash signature then ok else efault)
  unfolding zb_sign_verify
  zb_sign_verify-any hash signature keys z e =
      let len = ap length e in
      verify_loop_lem hash signature (length root_pub_key + 1) 0 keys z e (omega arith)
