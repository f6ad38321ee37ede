-- ===== src/Ffmod/Division.antt =====
-- The division of a double word by a modulus: `ffPrecomputedReciprocalMod`, `ffDiv2Mod1` and
-- `ffDiv2By1` give the quotient and the remainder.
use native.Mathlib.Nat.{
  lt_of_mul-lt-mul_right, mod-eq_of_lt, div-lt_iff_lt-mul, div-add-mod', mul-suc, mul_comm,
  mul-le-mul_left,
}
use finiteflow.Base.{
  ℕ, ◌+◌, ◌-◌, ◌*◌, ◌/◌, ◌%◌, ◌≤◌, ◌<◌, ◌≡◌, inl, inr, sym, ap, ◌∙◌, arith, true, false,
}
use finiteflow.Base.Div.{mod_unique, div_unique}
use finiteflow.Word.{word, dword, sub64, shl64, add128, mul128, shl128, high, low}
use finiteflow.Ffmod.{IsModulus, is_u32, ff_precomputed_reciprocal_mod, ff_div2_mod1, ff_div2_by1}
use finiteflow.Ffmod.Corrections.{corrected, rem'', quo, over, over', wrapped_quo, wrapped_quo_lem}

Σ_pair : {a b c d : ℕ} → a ≡ c → b ≡ d → ◌≡◌ {A = ℕ × ℕ} (a, b) (c, d)
Σ_pair p q = λ i. (p i, q i)

-- The numerator that the reciprocal of a normalised divisor `d` is computed from, the reciprocal,
-- and what is left of B ^ 2 after (B + v) d.
abbrev numer : ℕ → ℕ
numer d = sub64 (high (dword - 1)) d * word + low (dword - 1)

abbrev recip_of : ℕ → ℕ
recip_of d = low (numer d / d)

abbrev gap_of : ℕ → ℕ
gap_of d = numer d % d + 1

quotient-lt-word : (a d : ℕ) → 0 < d → a < word * d → a / d < word
quotient-lt-word a d pos h = (div-lt_iff_lt-mul pos).1 h

recip_balance :
    (a d : ℕ)
    → a / d < word
    → a + d * word + 1 ≡ word * word
    → (word + a / d % word) * d + (a % d + 1) ≡ word * word
recip_balance a d h e = rw (mod-eq_of_lt h) (omega (arith, div-add-mod' a d))

module _ (d : ℕ) (d_lt : d < word) (d_big : word ≤ 2 * d) where
  recip_of_lem : (word + recip_of d) * d + gap_of d ≡ word * word
  recip_of_lem =
      recip_balance (numer d) d (quotient-lt-word (numer d) d (omega arith) (omega arith))
        (omega arith)

  gap_of-le : gap_of d ≤ d
  gap_of-le = omega arith

  -- The candidate quotient of `u` does not overflow the double word.
  candidate-lt :
      (v k u1 u0 : ℕ)
      → (word + v) * d + k ≡ word * word
      → 0 < k
      → u1 < d
      → u0 < word
      → v * u1 + (u1 * word + u0) < dword
  candidate-lt v k u1 u0 e k_pos u1_lt u0_lt =
      omega (arith, mul-le-mul_left (word + v) u1_lt, mul-suc (word + v) u1)

small_quotient : (z n m r : ℕ) → z < n * word → z ≡ r + m * n → m < word
small_quotient z n m r h e = lt_of_mul-lt-mul_right n (omega (arith, mul_comm n word))

double_division : (z n d m r : ℕ) → d ≡ n * 2 → z * 2 ≡ m * d + r → z ≡ r / 2 + m * n
double_division z n d m r e h = omega (arith, ap (λ (t : ℕ). m * t) e)

-- One division: the dividend `u` is the double of `z`, and the divisor the double of `n`.
module _ (n z : ℕ) (lower : word < 3 * n) (upper : 2 * n < word) (z_lt : z < n * word) where
  abbrev d : ℕ
  d = shl64 n

  abbrev v : ℕ
  v = recip_of d

  abbrev u : ℕ
  u = shl128 z

  abbrev q : ℕ
  q = add128 (mul128 v (high u)) u

  q_small : v * high u + u < dword
  q_small = omega (
    arith,
    candidate-lt d (omega arith) (omega arith) v (gap_of d) (high u) (low u)
        (recip_of_lem d (omega arith) (omega arith)) (omega arith) (omega arith) (omega arith),
  )

  candidate : (word + v) * high u + low u ≡ high q * word + low q
  candidate = omega (arith, q_small)

  d_lem : d ≡ n * 2
  d_lem = omega arith

  division :
      (rem'' d (low u) (high q) (low q) < d)
      × (high u * word + low u
          ≡ quo d (low u) (high q) (low q) * d + rem'' d (low u) (high q) (low q))
  division =
      corrected d (gap_of d) v (high u) (low u) (high q) (low q)
        (recip_of_lem d (omega arith) (omega arith)) (omega arith)
        (gap_of-le d (omega arith) (omega arith)) candidate (omega arith) (omega arith)
        (omega arith) (omega arith) (omega arith)

  half_remainder : rem'' d (low u) (high q) (low q) / 2 < n
  half_remainder = omega (arith, division.0)

  half_division : z ≡ rem'' d (low u) (high q) (low q) / 2 + quo d (low u) (high q) (low q) * n
  half_division =
      double_division z n d (quo d (low u) (high q) (low q)) (rem'' d (low u) (high q) (low q))
        d_lem (sym split ∙ division.1)
    where
      split : high u * word + low u ≡ z * 2
      split = omega arith

  half_quotient :
      wrapped_quo (over d (low u) (high q) (low q)) (over' d (low u) (high q) (low q)) (high q)
      ≡ quo d (low u) (high q) (low q)
  half_quotient =
      wrapped_quo_lem (over d (low u) (high q) (low q)) (over' d (low u) (high q) (low q)) (high q)
        (omega arith)
        (small_quotient z n (quo d (low u) (high q) (low q)) (rem'' d (low u) (high q) (low q) / 2)
          z_lt half_division)

pub big-not-is_u32 : (n : ℕ) → word < 3 * n → is_u32 n ≡ false
big-not-is_u32 n h = ground arith

pub small-is_u32 : (n : ℕ) → 0 < n → n ≤ 0xffff_ffff → is_u32 n ≡ true
small-is_u32 n p h = ground arith

pub reciprocal_big :
    (n : ℕ)
    → word < 3 * n
    → ff_precomputed_reciprocal_mod n ≡ record { n = n; v = recip_of (shl64 n) }
unfolding ff_precomputed_reciprocal_mod
reciprocal_big n h = rw (big-not-is_u32 n h)

pub reciprocal_small :
    (n : ℕ) → 0 < n → n ≤ 0xffff_ffff → ff_precomputed_reciprocal_mod n ≡ record { n = n; v = 0 }
unfolding ff_precomputed_reciprocal_mod
reciprocal_small n p h = rw (small-is_u32 n p h)

-- Which path a modulus takes.
pub fast_path : (n : ℕ) → word < 3 * n → is_u32 (ff_precomputed_reciprocal_mod n).n ≡ false
fast_path n h = rw (reciprocal_big n h) (big-not-is_u32 n h)

pub small_path :
    (n : ℕ) → 0 < n → n ≤ 0xffff_ffff → is_u32 (ff_precomputed_reciprocal_mod n).n ≡ true
small_path n p h = rw (reciprocal_small n p h) (small-is_u32 n p h)

-- The modulus is kept.
pub n-reciprocal : (n : ℕ) → (ff_precomputed_reciprocal_mod n).n ≡ n
unfolding ff_precomputed_reciprocal_mod
n-reciprocal n = ground arith

-- The remainder by a modulus of the fast path.
div2_mod1_big :
    (n z : ℕ)
    → word < 3 * n
    → 2 * n < word
    → z < n * word
    → ff_div2_mod1 z (ff_precomputed_reciprocal_mod n) ≡ z % n
unfolding ff_div2_mod1
div2_mod1_big n z lower upper z_lt =
    rw (reciprocal_big n lower, big-not-is_u32 n lower)
      (sym (
        mod_unique z _ n _ (half_division n z lower upper z_lt)
          (half_remainder n z lower upper z_lt)))

div2_by1_big :
    (n z : ℕ)
    → word < 3 * n
    → 2 * n < word
    → z < n * word
    → ff_div2_by1 z (ff_precomputed_reciprocal_mod n) ≡ (z / n, z % n)
unfolding ff_div2_by1
div2_by1_big n z lower upper z_lt =
    rw (reciprocal_big n lower, big-not-is_u32 n lower)
      (Σ_pair
        (half_quotient n z lower upper z_lt
          ∙ sym (
              div_unique z _ n _ (half_division n z lower upper z_lt)
                (half_remainder n z lower upper z_lt)))
        (sym (
          mod_unique z _ n _ (half_division n z lower upper z_lt)
            (half_remainder n z lower upper z_lt))))

-- For a modulus `n` of either path and z < n 2^64, `ffDiv2By1` with the precomputed reciprocal
-- gives the quotient and the remainder of `z` by `n`.
pub ff_div2_by1_lem :
    (n z : ℕ)
    → IsModulus n
    → z < n * word
    → ff_div2_by1 z (ff_precomputed_reciprocal_mod n) ≡ (z / n, z % n)
unfolding ff_div2_by1
ff_div2_by1_lem n z (inr (upper, lower)) z_lt = div2_by1_big n z lower upper z_lt
ff_div2_by1_lem n z (inl (pos, small)) z_lt =
    rw (reciprocal_small n pos small, small-is_u32 n pos small)
      (Σ_pair (mod-eq_of_lt ((div-lt_iff_lt-mul pos).1 (omega (arith, mul_comm n word))))
        (omega arith))

-- For a modulus `n` of either path and z < n 2^64, `ffDiv2Mod1` with the precomputed reciprocal
-- gives the remainder of `z` by `n`.
pub ff_div2_mod1_lem :
    (n z : ℕ)
    → IsModulus n
    → z < n * word
    → ff_div2_mod1 z (ff_precomputed_reciprocal_mod n) ≡ z % n
unfolding ff_div2_mod1
ff_div2_mod1_lem n z (inr (upper, lower)) z_lt = div2_mod1_big n z lower upper z_lt
ff_div2_mod1_lem n z (inl (pos, small)) z_lt =
    rw (reciprocal_small n pos small, small-is_u32 n pos small) (omega arith)
