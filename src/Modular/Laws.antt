-- ===== src/Modular/Laws.antt =====
-- What the helpers compute, over a modulus of either path.
use native.Mathlib.Nat.{mod-eq_of_lt, mod-lt, mod-add-mod, add-mul-mod_self_right}
use finiteflow.Base.{
  ℕ, zero, suc, if◌then◌else◌, ◌+◌, ◌-◌, ◌*◌, ◌%◌, ◌<◌, ◌≡◌, inl, inr, ap, ◌∙◌, arith, ltb, leb,
  Bool-cases,
}
use finiteflow.Base.Div.{mod_unique}
use finiteflow.Word.{word, shl64, sub64}
use finiteflow.Ffmod.{IsModulus, is_u32, ff_div_mod}
use finiteflow.Ffmod.Division.{n-reciprocal, big-not-is_u32, small-is_u32}
use finiteflow.Ffmod.Add.{ff_add_mod_lem, ff_sub_mod_lem}
use finiteflow.Ffmod.Mul.{ff_mul_mod_lem, ff_apbc_mod_lem}
use finiteflow.Ffmod.Inverse.{Coprime, ff_mul_inverse_mod_lem, ff_div_mod_lem}
use finiteflow.Modular.{
  new_mod, n, beta_mod, red_mod, red_mod_, add_mod, sub_mod, neg_mod, mul_mod, apbc_mod, ambc_mod,
  twice_mod, mul_inv, div_mod,
}

fast_red :
    (a p : ℕ)
    → 2 * p < word
    → word < 3 * p
    → a < word
    → (if leb (shl64 p) a then sub64 a (shl64 p) else (if ltb a p then a else sub64 a p)) ≡ a % p
fast_red a p upper lower h = elim (Bool-cases (ltb a p)) [
  | inl below ↦ ground (arith, mod_unique a 0 p a)
  | inr above ↦ ground (arith, mod_unique a 1 p (a - p), mod_unique a 2 p (a - 2 * p))
]

cancel_product : (a r b c p e : ℕ) → a < p → r + b ≡ e * p → ((a + r * c) % p + b * c) % p ≡ a
cancel_product a r b c p e q s =
    mod-add-mod (a + r * c) p (b * c)
    ∙ ap (λ x. x % p) whole
    ∙ add-mul-mod_self_right a (e * c) p
    ∙ mod-eq_of_lt q
  where
    whole : a + r * c + b * c ≡ a + e * c * p
    whole = omega (arith, ap (λ (x : ℕ). x * c) s)

neg_value : (b p : ℕ) → b < p → (e : ℕ) × ((p - b) % p + b ≡ e * p)
neg_value zero p h = (0, omega (arith, mod_unique (p - 0) 1 p 0 (omega arith) (omega arith)))
neg_value (suc b) p h =
    (1, omega (arith, mod_unique (p - suc b) 0 p (p - suc b) (omega arith) (omega arith)))

module _ (p : ℕ) (h : IsModulus p) where
  p_pos : 0 < p
  p_pos = ground arith

  p-lt-word : p < word
  p-lt-word = ground arith

  pub n-new_mod : n (new_mod p) ≡ p
  unfolding new_mod
  n-new_mod = n-reciprocal p

  pub add_mod_lem : (a b : ℕ) → a < p → b < p → add_mod a b (new_mod p) ≡ (a + b) % p
  unfolding add_mod new_mod
  add_mod_lem a b = ff_add_mod_lem p a b h

  pub sub_mod_lem : (a b : ℕ) → a < p → b < p → sub_mod a b (new_mod p) ≡ (a + p - b) % p
  unfolding sub_mod new_mod
  sub_mod_lem a b = ff_sub_mod_lem p a b h

  pub neg_mod_lem : (a : ℕ) → a < p → neg_mod a (new_mod p) ≡ (p - a) % p
  unfolding neg_mod new_mod
  neg_mod_lem a q = ff_sub_mod_lem p 0 a h p_pos q ∙ ap (λ x. (x - a) % p) (omega arith)

  pub mul_mod_lem : (a b : ℕ) → a < p → b < p → mul_mod a b (new_mod p) ≡ a * b % p
  unfolding mul_mod new_mod
  mul_mod_lem a b q r = ff_mul_mod_lem p a b h q (omega (arith, p-lt-word))

  pub apbc_mod_lem :
      (a b c : ℕ) → a < p → b < p → c < p → apbc_mod a b c (new_mod p) ≡ (a + b * c) % p
  unfolding apbc_mod new_mod
  apbc_mod_lem a b c q r s =
      ff_apbc_mod_lem p a b c h (omega (arith, p-lt-word)) r (omega (arith, p-lt-word))

  -- For a modulus `p` of either path and residues `a`, `b` and `c`, `ambc_mod` gives a residue
  -- that is `a` again when b c is added mod p.
  pub ambc_mod_lem :
      (a b c : ℕ)
      → a < p
      → b < p
      → c < p
      → (ambc_mod a b c (new_mod p) < p) × ((ambc_mod a b c (new_mod p) + b * c) % p ≡ a)
  unfolding ambc_mod new_mod
  ambc_mod_lem a b c q r s =
      rw
        (
          neg_mod_equation,
          ff_apbc_mod_lem p a ((p - b) % p) c h (omega (arith, p-lt-word)) (mod-lt (p - b) p_pos)
              (omega (arith, p-lt-word)),
        )
        (
          mod-lt (a + (p - b) % p * c) p_pos,
          cancel_product a ((p - b) % p) b c p (neg_value b p r).0 q (neg_value b p r).1,
        )
    where
      neg_mod_equation : neg_mod b (new_mod p) ≡ (p - b) % p
      neg_mod_equation = neg_mod_lem b r

  -- For a modulus `p` of either path, `red_mod` of any word is its remainder by `p`.
  pub red_mod_lem : (a : ℕ) → a < word → red_mod a (new_mod p) ≡ a % p
  unfolding red_mod red_mod_
  red_mod_lem a q = rw n-new_mod (red_either h)
    where
      red_either :
          IsModulus p
          → (if is_u32 p
              then a % p
              else (if leb (shl64 p) a
                  then sub64 a (shl64 p)
                  else (if ltb a p then a else sub64 a p)))
            ≡ a % p
      red_either (inl (pos, small)) = rw (small-is_u32 p pos small)
      red_either (inr (upper, lower)) = rw (big-not-is_u32 p lower) (fast_red a p upper lower q)

  -- For a modulus `p` of either path, `beta_mod` is 2^64 mod p.
  pub beta_mod_lem : beta_mod p ≡ word % p
  unfolding beta_mod
  beta_mod_lem = beta_either h
    where
      beta_either : IsModulus p → beta_mod p ≡ word % p
      beta_either (inl (pos, small)) = rw (small-is_u32 p pos small)
      beta_either (inr (upper, lower)) =
          rw (big-not-is_u32 p lower)
            (omega (arith, mod_unique word 2 p (word - 2 * p) (omega arith) (omega arith)))

  -- For a modulus `p` of either path and a residue `a`, `twice_mod` gives 2 a mod p.
  pub twice_mod_lem : (a : ℕ) → a < p → twice_mod a (new_mod p) ≡ 2 * a % p
  unfolding twice_mod red_mod_
  twice_mod_lem a q = rw n-new_mod (elim (Bool-cases (ltb (2 * a) p)) [
    | inl below ↦ ground (arith, p-lt-half, mod_unique (2 * a) 0 p (2 * a))
    | inr above ↦ ground (arith, p-lt-half, mod_unique (2 * a) 1 p (2 * a - p))
  ])
    where
      p-lt-half : 2 * p < word
      p-lt-half = ground arith

  pub mul_inv_lem :
      (z : ℕ)
      → 1 < p
      → z < p
      → Coprime z p
      → (mul_inv z (new_mod p) < p) × (z * mul_inv z (new_mod p) % p ≡ 1)
  unfolding mul_inv new_mod
  mul_inv_lem z one_lt = ff_mul_inverse_mod_lem p z one_lt p-lt-word

  -- A quotient gives the numerator back when it is multiplied by the denominator.
  pub div_mod_lem :
      (a b : ℕ) → 1 < p → a < p → b < p → Coprime b p → div_mod a b (new_mod p) * b % p ≡ a
  unfolding div_mod mul_mod mul_inv new_mod ff_div_mod
  div_mod_lem a b one_lt q r coprime = (ff_div_mod_lem p b one_lt p-lt-word r coprime a h q).1
