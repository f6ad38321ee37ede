-- ===== src/Ffmod/Mul.antt =====
-- Products modulo a number: `ffMulMod`, `ffAPBCMod`, and Shoup's multiplication by a precomputed
-- quotient, `ffPrecomputedMulShoup` and `ffMulShoup`.
use native.Mathlib.Nat.{
  mul-le-mul_right, mul-le-mul, mod-lt, mul-le-mul_left, mul-suc, add-mul, suc-mul, mul_comm,
  mod-eq_of_lt, div-lt_iff_lt-mul, div-add-mod', mul-lt-mul_of_pos_right, add-mod,
}
use finiteflow.Base.{
  ℕ, ◌+◌, ◌-◌, ◌*◌, ◌/◌, ◌%◌, ◌≤◌, ◌<◌, ◌≡◌, inl, inr, sym, ap, ◌∙◌, arith, true, false, ltb, leb,
  if◌then◌else◌, Bool-cases,
}
use finiteflow.Base.Div.{mod_unique, mul-mod}
use finiteflow.Word.{word, dword, sub64, mul64, add128, mul128, high}
use finiteflow.Ffmod.{
  FfMod, IsModulus, is_u32, ff_precomputed_reciprocal_mod, ff_div2_mod1, ff_mul_mod, ff_apbc_mod,
  ff_precomputed_mul_shoup, ff_mul_shoup,
}
use finiteflow.Ffmod.Division.{
  ff_div2_mod1_lem, ff_div2_by1_lem, fast_path, small_path, n-reciprocal, big-not-is_u32,
  small-is_u32,
}

product-lt : (a b : ℕ) → a < 0xffff_ffff → b < 0xffff_ffff → a * b < word
product-lt a b p q = omega (arith, mul-le-mul p' q')
  where
    p' : a ≤ 0xffff_ffff
    p' = omega arith

    q' : b ≤ 0xffff_ffff
    q' = omega arith

small-mod-lt : (a n : ℕ) → 0 < n → n ≤ 0xffff_ffff → a % n < 0xffff_ffff
small-mod-lt a n p h = omega (arith, mod-lt a p)

small_product : (a b n : ℕ) → 0 < n → n ≤ 0xffff_ffff → a % n * (b % n) < word
small_product a b n p h = product-lt (a % n) (b % n) (small-mod-lt a n p h) (small-mod-lt b n p h)

-- The reduction of a product on the small path.
small_mul : (a b n : ℕ) → 0 < n → n ≤ 0xffff_ffff → mul128 (a % n) (b % n) % n ≡ a * b % n
small_mul a b n p h =
    rw (mod-eq_of_lt {n = a % n * (b % n)} {m = dword} (omega (arith, small_product a b n p h)))
      (mul-mod a b n)

word_mod : (a n : ℕ) → 0 < n → n ≤ 0xffff_ffff → a % n % word ≡ a % n
word_mod a n p h = mod-eq_of_lt (omega (arith, mod-lt a p))

-- What each operation is on its path.
module _ (a b c : ℕ) (p : FfMod) where
  mul_fast : is_u32 p.n ≡ false → ff_mul_mod a b p ≡ ff_div2_mod1 (mul128 a b) p
  unfolding ff_mul_mod
  mul_fast h = rw h

  mul_small : is_u32 p.n ≡ true → ff_mul_mod a b p ≡ mul128 (a % p.n) (b % p.n) % p.n % word
  unfolding ff_mul_mod
  mul_small h = rw h

  apbc_fast : is_u32 p.n ≡ false → ff_apbc_mod a b c p ≡ ff_div2_mod1 (add128 (mul128 b c) a) p
  unfolding ff_apbc_mod
  apbc_fast h = rw h

  apbc_small :
      is_u32 p.n ≡ true
      → ff_apbc_mod a b c p ≡ add128 (a % p.n) (mul128 (b % p.n) (c % p.n) % p.n) % p.n % word
  unfolding ff_apbc_mod
  apbc_small h = rw h

-- Shoup's estimate: with w B = q n + s, the upper half of q t is the quotient of w t or one less.
module _ (n w t q s : ℕ) (split : w * word ≡ q * n + s) (s_lt : s < n) (t_lt : t < word) where
  estimate : q * t / word * word ≤ q * t
  estimate = omega arith

  remainder : q * t + 1 ≤ q * t / word * word + word
  remainder = omega arith

  scaled : w * t * word ≡ q * t * n + s * t
  scaled = omega (arith, ap (λ (x : ℕ). x * t) split)

  shoup_lower : q * t / word * n ≤ w * t
  shoup_lower = omega (arith, mul-le-mul_right n estimate, scaled)

  shoup_upper : w * t < q * t / word * n + 2 * n
  shoup_upper = omega (
    arith,
    mul-le-mul_right n remainder,
    add-mul (q * t) 1 n,
    scaled,
    mul-le-mul_left n t_lt,
    mul-suc n t,
    mul-le-mul_right t s_lt,
    suc-mul s t,
  )

-- The last correction, on the wrapped difference.
shoup_correct :
    (n x m : ℕ)
    → m * n ≤ x
    → x < m * n + 2 * n
    → 2 * n < word
    → (if leb n (sub64 (x % word) (m * n % word))
        then sub64 (sub64 (x % word) (m * n % word)) n
        else sub64 (x % word) (m * n % word))
      ≡ x % n
shoup_correct n x m h k small = elim (Bool-cases (ltb (x - m * n) n)) [
  | inl below ↦ ground (arith, mod_unique x m n (x - m * n))
  | inr above ↦ ground (arith, mod_unique x (m + 1) n (x - m * n - n), add-mul m 1 n)
]

module _ (t w wp : ℕ) (p : FfMod) where
  shoup_small : is_u32 p.n ≡ true → ff_mul_shoup t w wp p ≡ ff_mul_mod t w p
  unfolding ff_mul_shoup
  shoup_small h = rw h

  shoup_fast :
      is_u32 p.n ≡ false
      → ff_mul_shoup t w wp p ≡ (
          if leb p.n (sub64 (mul64 w t) (mul64 (high (mul128 wp t)) p.n))
          then sub64 (sub64 (mul64 w t) (mul64 (high (mul128 wp t)) p.n)) p.n
          else sub64 (mul64 w t) (mul64 (high (mul128 wp t)) p.n))
  unfolding ff_mul_shoup
  shoup_fast h = rw h

module _ (n : ℕ) where
  abbrev modulus : FfMod
  modulus = ff_precomputed_reciprocal_mod n

  product-lt-word : (a b : ℕ) → a < n → b < word → a * b + word ≤ n * word
  product-lt-word a b p q =
      omega (arith, mul-le-mul_left a b', mul-le-mul_right word p, suc-mul a word)
    where
      b' : b ≤ word
      b' = omega arith

  -- For a modulus `n` of either path, a residue `a` and a word `b`, `ffMulMod` gives a b mod n.
  pub ff_mul_mod_lem :
      (a b : ℕ) → IsModulus n → a < n → b < word → ff_mul_mod a b modulus ≡ a * b % n
  ff_mul_mod_lem a b (inr (upper, lower)) p q =
      rw (mul_fast a b 0 modulus (fast_path n lower), mod-eq_of_lt {n = a * b} {m = dword} small)
        (ff_div2_mod1_lem n (a * b) (inr (upper, lower)) (omega (arith, product-lt-word a b p q)))
    where
      small : a * b < dword
      small = omega (arith, product-lt-word a b p q)
  ff_mul_mod_lem a b (inl (pos, small)) p q =
      rw
        (
          mul_small a b 0 modulus (small_path n pos small),
          n-reciprocal n,
          small_mul a b n pos small,
        )
        (word_mod (a * b) n pos small)

  -- For a modulus `n` of either path, words `a` and `c` and a residue `b`, `ffAPBCMod` gives (a
  -- + b c) mod n.
  pub ff_apbc_mod_lem :
      (a b c : ℕ)
      → IsModulus n
      → a < word
      → b < n
      → c < word
      → ff_apbc_mod a b c modulus ≡ (a + b * c) % n
  ff_apbc_mod_lem a b c (inr (upper, lower)) p q r =
      rw (apbc_fast a b c modulus (fast_path n lower), whole)
        (ff_div2_mod1_lem n (a + b * c) (inr (upper, lower))
          (omega (arith, product-lt-word b c q r)))
    where
      whole : add128 (mul128 b c) a ≡ a + b * c
      whole = omega (arith, product-lt-word b c q r)
  ff_apbc_mod_lem a b c (inl (pos, small)) p q r =
      rw
        (
          apbc_small a b c modulus (small_path n pos small),
          n-reciprocal n,
          small_mul b c n pos small,
          sum_small,
        )
        (word_mod (a % n + b * c % n) n pos small ∙ sym (add-mod a (b * c) n))
    where
      sum_small : (a % n + b * c % n) % dword ≡ a % n + b * c % n
      sum_small =
          mod-eq_of_lt (omega (arith, small-mod-lt a n pos small, small-mod-lt (b * c) n pos small))

  -- The precomputed quotient: 2^64 w / n, or nothing on the small path.
  pub ff_precomputed_mul_shoup_lem :
      (w : ℕ)
      → IsModulus n
      → w < n
      → ff_precomputed_mul_shoup w modulus ≡ (if is_u32 n then 0 else w * word / n)
  unfolding ff_precomputed_mul_shoup
  ff_precomputed_mul_shoup_lem w (inr (upper, lower)) p = rw (
    fast_path n lower,
    big-not-is_u32 n lower,
    ff_div2_by1_lem n (w * word) (inr (upper, lower)) (mul-lt-mul_of_pos_right p (omega arith)),
  )
  ff_precomputed_mul_shoup_lem w (inl (pos, small)) p =
      rw (small_path n pos small, small-is_u32 n pos small)

  -- For a modulus `n` of either path and residues `t` and `w`, `ffMulShoup` with the quotient
  -- that `ffPrecomputedMulShoup` gives for `w` is t w mod n.
  pub ff_mul_shoup_lem :
      (t w : ℕ)
      → IsModulus n
      → t < n
      → w < n
      → ff_mul_shoup t w (ff_precomputed_mul_shoup w modulus) modulus ≡ t * w % n
  ff_mul_shoup_lem t w (inr (upper, lower)) p q =
      rw
        (
          shoup_fast t w _ modulus (fast_path n lower),
          ff_precomputed_mul_shoup_lem w (inr (upper, lower)) q,
          n-reciprocal n,
          big-not-is_u32 n lower,
          whole,
          mul_comm t w,
        )
        (shoup_correct n (w * t) (w * word / n * t / word)
          (shoup_lower n w t (w * word / n) (w * word % n) split (mod-lt (w * word) pos) t_lt)
          (shoup_upper n w t (w * word / n) (w * word % n) split (mod-lt (w * word) pos) t_lt)
          upper)
    where
      pos : 0 < n
      pos = omega arith

      t_lt : t < word
      t_lt = omega arith

      split : w * word ≡ w * word / n * n + w * word % n
      split = sym (div-add-mod' (w * word) n)

      quotient-lt : w * word / n < word
      quotient-lt =
          (div-lt_iff_lt-mul pos).1
            (omega (arith, mul-lt-mul_of_pos_right {k = word} q (omega arith)))

      whole : mul128 (w * word / n) t ≡ w * word / n * t
      whole = mod-eq_of_lt (omega (arith, mul-le-mul_right t quotient-lt, suc-mul (w * word / n) t))
  ff_mul_shoup_lem t w (inl (pos, small)) p q =
      rw (shoup_small t w _ modulus (small_path n pos small))
        (ff_mul_mod_lem t w (inl (pos, small)) p (omega arith))
