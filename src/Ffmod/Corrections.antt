-- ===== src/Ffmod/Corrections.antt =====
-- The two corrections of the division of a double word by a modulus (`ffDiv2Mod1`, `ffDiv2By1`):
-- the remainder that they leave, and the quotient that goes with it.
use native.Mathlib.Nat.{
  mul-le-mul_right, mul-le-mul_left, mul-suc, suc-mul, mul-sub, add-mul, mul_comm,
}
use finiteflow.Base.{
  ℕ, Bool, ◌+◌, ◌-◌, ◌*◌, ◌≤◌, ◌<◌, ◌≡◌, inl, inr, ap, arith, ltb, leb, if◌then◌else◌, Bool-cases,
  ltb→lt, ltb→le,
}
use finiteflow.Base.Div.{mul-mod_left_mod}
use finiteflow.Word.{word, add64, sub64, mul64}

-- (B - a) (B - d) is positive.
lt_gap : (a d : ℕ) → a < word → d < word → word * a + word * d < word * word + a * d
lt_gap a d p q = omega (
  arith,
  mul-suc word a,
  mul-le-mul_left (word - d) p,
  mul-sub (word - d) word 0,
  mul-sub word word d,
  mul-sub a word d,
  mul_comm (word - d) a,
  mul_comm (word - d) word,
)

gap_impossible :
    (d e r q0 : ℕ)
    → e + d ≡ word
    → q0 < r
    → e ≤ r
    → word * r + 2 * word * d < d * d + word * word + q0 * d
    → ⊥
gap_impossible d e r q0 split q_lt e_le h = omega (
  arith,
  mul-le-mul_right d q_lt,
  suc-mul q0 d,
  mul-le-mul_left e e_le,
  ap (λ (t : ℕ). t * r) split,
  ap (λ (t : ℕ). t * e) split,
  ap (λ (t : ℕ). t * d) split,
)

gap_bound :
    (d r q0 : ℕ)
    → d < word
    → q0 < r
    → word * r + 2 * word * d < d * d + word * word + q0 * d
    → r + d < word
gap_bound d r q0 d_lt q_lt h = elim (Bool-cases (ltb (r + d) word)) [
  | inl small ↦ ltb→lt (r + d) word small
  | inr large ↦ absurd (
      gap_impossible d (word - d) r q0 (omega arith) q_lt (omega (arith, ltb→le (r + d) word large))
        h)
]

-- The remainder before and after the corrections, as the code computes them.
abbrev pub rem : ℕ → ℕ → ℕ → ℕ
rem d u0 q1 = sub64 u0 (mul64 (add64 q1 1) d)

abbrev pub over : ℕ → ℕ → ℕ → ℕ → Bool
over d u0 q1 q0 = ltb q0 (rem d u0 q1)

abbrev pub rem' : ℕ → ℕ → ℕ → ℕ → ℕ
rem' d u0 q1 q0 = if over d u0 q1 q0 then add64 (rem d u0 q1) d else rem d u0 q1

abbrev pub over' : ℕ → ℕ → ℕ → ℕ → Bool
over' d u0 q1 q0 = leb d (rem' d u0 q1 q0)

abbrev pub rem'' : ℕ → ℕ → ℕ → ℕ → ℕ
rem'' d u0 q1 q0 = if over' d u0 q1 q0 then sub64 (rem' d u0 q1 q0) d else rem' d u0 q1 q0

-- The quotient that goes with the remainder.
abbrev pub quo : ℕ → ℕ → ℕ → ℕ → ℕ
quo d u0 q1 q0 =
    if over' d u0 q1 q0
    then (if over d u0 q1 q0 then q1 + 1 else q1 + 2)
    else (if over d u0 q1 q0 then q1 else q1 + 1)

-- The quotient as the code computes it, which may wrap on the way.
abbrev pub wrapped_quo : Bool → Bool → ℕ → ℕ
wrapped_quo o o' q1 =
    let q_high = add64 q1 1 in
    let q_high' = if o then sub64 q_high 1 else q_high in if o' then add64 q_high' 1 else q_high'

pub wrapped_quo_lem :
    (o o' : Bool) (q1 : ℕ)
    → q1 < word
    → (if o' then (if o then q1 + 1 else q1 + 2) else (if o then q1 else q1 + 1)) < word
    → wrapped_quo o o' q1
      ≡ (if o' then (if o then q1 + 1 else q1 + 2) else (if o then q1 else q1 + 1))
wrapped_quo_lem o o' q1 h k = ground arith

-- The data of one division: the divisor `d` with its reciprocal `v`, the dividend u1 B + u0 and the
-- two halves of the candidate quotient.
module _ (d k v u1 u0 q1 q0 : ℕ) (recip : (word + v) * d + k ≡ word * word) (k_pos : 0 < k)
    (k_le : k ≤ d) (cand : (word + v) * u1 + u0 ≡ q1 * word + q0) (d_lt : d < word)
    (d_big : word ≤ 2 * d) (u1_lt : u1 < d) (u0_lt : u0 < word) (q0_lt : q0 < word) where
  balance : word * (u1 * word + u0) + u0 * d ≡ q1 * word * d + q0 * d + k * u1 + word * u0
  balance = omega (arith, ap (λ (t : ℕ). t * d) cand, ap (λ (t : ℕ). t * u1) recip)

  k_u1 : k * u1 + d ≤ d * d
  k_u1 = grind (arith, mul-le-mul_right u1 k_le, mul-le-mul_left d u1_lt, mul-suc d u1)

  -- The candidate, one more than the upper half, is too large by one at most.
  pub not_below : q1 * d ≤ u1 * word + u0
  not_below = omega (arith, balance, mul-le-mul_left u0 d_lt)

  pub below_wraps : q0 + q1 * d + d < word + (u1 * word + u0)
  below_wraps = omega (arith, balance, mul-le-mul_left u0 d_lt, lt_gap q0 d q0_lt d_lt)

  pub above_lt_word : u1 * word + u0 < q1 * d + d + word
  above_lt_word = omega (
    arith,
    balance,
    k_u1,
    lt_gap u0 d u0_lt d_lt,
    mul-le-mul_right d q0_lt,
    mul-le-mul_right d d_lt,
  )

  pub above_lt_twice : u1 * word + u0 < q1 * d + 3 * d
  above_lt_twice = omega (
    arith,
    balance,
    k_u1,
    lt_gap u0 d u0_lt d_lt,
    mul-le-mul_right d q0_lt,
    mul-le-mul_right d d_lt,
  )

  -- A remainder above the lower half is corrected twice, and comes back unchanged.
  pub above_lt_gap :
      q1 * d + d ≤ u1 * word + u0
      → q0 < u1 * word + u0 - (q1 * d + d)
      → u1 * word + u0 - (q1 * d + d) + d < word
  above_lt_gap p q =
      gap_bound d (u1 * word + u0 - (q1 * d + d)) q0 d_lt q
        (omega (arith, balance, k_u1, lt_gap u0 d u0_lt d_lt))

  rem_lem : rem d u0 q1 ≡ (
      if leb (q1 * d + d) (u1 * word + u0)
      then u1 * word + u0 - (q1 * d + d)
      else u1 * word + u0 + word - (q1 * d + d))
  rem_lem =
      rw (mul-mod_left_mod (q1 + 1) d word) (ground (arith, not_below, below_wraps, above_lt_word))

  pub corrected : (rem'' d u0 q1 q0 < d) × (u1 * word + u0 ≡ quo d u0 q1 q0 * d + rem'' d u0 q1 q0)
  corrected = ground (
    arith,
    rem_lem,
    not_below,
    below_wraps,
    above_lt_word,
    above_lt_twice,
    above_lt_gap,
    add-mul q1 1 d,
    add-mul q1 2 d,
  )
