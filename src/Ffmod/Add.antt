-- ===== src/Ffmod/Add.antt =====
-- Sums and differences modulo a number: `ffAddMod` and `ffSubMod`.
use native.Mathlib.Nat.{mod-lt, mod-eq_of_lt}
use finiteflow.Base.{
  ℕ, ◌+◌, ◌-◌, ◌*◌, ◌%◌, ◌≤◌, ◌<◌, ◌≡◌, inl, inr, arith, true, false, ltb, leb, if◌then◌else◌,
  Bool-cases,
}
use finiteflow.Base.Div.{mod_unique}
use finiteflow.Word.{word, dword, add64, sub64, add128}
use finiteflow.Ffmod.{
  FfMod, IsModulus, is_u32, is_negative, ff_precomputed_reciprocal_mod, ff_add_mod, ff_sub_mod,
}
use finiteflow.Ffmod.Division.{fast_path, small_path, n-reciprocal}

-- The two paths over residues, without the modulus record.
fast_add :
    (a b n : ℕ)
    → a < n
    → b < n
    → 2 * n < word
    → (if is_negative (sub64 (add64 a b) n)
        then add64 (sub64 (add64 a b) n) n
        else sub64 (add64 a b) n)
      ≡ (a + b) % n
fast_add a b n p q small = elim (Bool-cases (ltb (a + b) n)) [
  | inl below ↦ ground (arith, mod_unique (a + b) 0 n (a + b))
  | inr above ↦ ground (arith, mod_unique (a + b) 1 n (a + b - n))
]

fast_sub :
    (a b n : ℕ)
    → a < n
    → b < n
    → 2 * n < word
    → (if is_negative (sub64 a b) then add64 (sub64 a b) n else sub64 a b) ≡ (a + n - b) % n
fast_sub a b n p q small = elim (Bool-cases (ltb a b)) [
  | inl below ↦ ground (arith, mod_unique (a + n - b) 0 n (a + n - b))
  | inr above ↦ ground (arith, mod_unique (a + n - b) 1 n (a - b))
]

small_sub :
    (a b n : ℕ)
    → a < n
    → b < n
    → n ≤ 0xffff_ffff
    → (if leb b a then sub64 a b else sub64 (add64 a n) b) ≡ (a + n - b) % n
small_sub a b n p q small = elim (Bool-cases (ltb a b)) [
  | inl below ↦ ground (arith, mod_unique (a + n - b) 0 n (a + n - b))
  | inr above ↦ ground (arith, mod_unique (a + n - b) 1 n (a - b))
]

module _ (a b : ℕ) (p : FfMod) where
  add_fast :
      is_u32 p.n ≡ false
      → ff_add_mod a b p ≡ (
          if is_negative (sub64 (add64 a b) p.n)
          then add64 (sub64 (add64 a b) p.n) p.n
          else sub64 (add64 a b) p.n)
  unfolding ff_add_mod
  add_fast h = rw h

  add_small : is_u32 p.n ≡ true → ff_add_mod a b p ≡ add128 (a % p.n) (b % p.n) % p.n % word
  unfolding ff_add_mod
  add_small h = rw h

  sub_fast :
      is_u32 p.n ≡ false
      → ff_sub_mod a b p ≡ (if is_negative (sub64 a b) then add64 (sub64 a b) p.n else sub64 a b)
  unfolding ff_sub_mod
  sub_fast h = rw h

  sub_small :
      is_u32 p.n ≡ true
      → ff_sub_mod a b p ≡ (
          if leb (b % p.n) (a % p.n)
          then sub64 (a % p.n) (b % p.n)
          else sub64 (add64 (a % p.n) p.n) (b % p.n))
  unfolding ff_sub_mod
  sub_small h = rw h

module _ (n a b : ℕ) where
  abbrev modulus : FfMod
  modulus = ff_precomputed_reciprocal_mod n

  -- For a modulus `n` of either path and residues `a` and `b`, `ffAddMod` gives (a + b) mod n.
  pub ff_add_mod_lem : IsModulus n → a < n → b < n → ff_add_mod a b modulus ≡ (a + b) % n
  ff_add_mod_lem (inr (upper, lower)) p q =
      rw (add_fast a b modulus (fast_path n lower), n-reciprocal n) (fast_add a b n p q upper)
  ff_add_mod_lem (inl (pos, small)) p q =
      rw
        (
          add_small a b modulus (small_path n pos small),
          n-reciprocal n,
          mod-eq_of_lt p,
          mod-eq_of_lt q,
          mod-eq_of_lt {n = a + b} {m = dword} (omega arith),
        )
        (mod-eq_of_lt (omega (arith, mod-lt (a + b) pos)))

  -- For a modulus `n` of either path and residues `a` and `b`, `ffSubMod` gives (a + n - b) mod
  -- n.
  pub ff_sub_mod_lem : IsModulus n → a < n → b < n → ff_sub_mod a b modulus ≡ (a + n - b) % n
  ff_sub_mod_lem (inr (upper, lower)) p q =
      rw (sub_fast a b modulus (fast_path n lower), n-reciprocal n) (fast_sub a b n p q upper)
  ff_sub_mod_lem (inl (pos, small)) p q =
      rw
        (
          sub_small a b modulus (small_path n pos small),
          n-reciprocal n,
          mod-eq_of_lt p,
          mod-eq_of_lt q,
        )
        (small_sub a b n p q small)
