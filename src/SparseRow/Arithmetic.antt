-- ===== src/SparseRow/Arithmetic.antt =====
-- struct GaussArithmetic: both versions compute a - b c and -(b c) modulo p.
use native.Mathlib.Nat.{
  mod-lt, mod-add-mod, mod-eq_of_lt, add-mul-mod_self_right, div-add-mod', add-mul,
}
use finiteflow.Base.{ℕ, ◌+◌, ◌-◌, ◌*◌, ◌/◌, ◌%◌, ◌<◌, ◌≡◌, ap, sym, ◌∙◌, arith, subst}
use finiteflow.Ffmod.{IsModulus}
use finiteflow.Ffmod.Mul.{ff_mul_shoup_lem}
use finiteflow.Modular.{new_mod, sub_mod, neg_mod, mul_mod, mul_mod_shoup, precomp_mul_shoup}
use finiteflow.Modular.Laws.{ambc_mod_lem, neg_mod_lem, mul_mod_lem, sub_mod_lem}
use finiteflow.SparseRow.{GaussArithmetic, gauss_plain, gauss_shoup}

-- Adding back what was subtracted.
pub cancel_sub : (a z p : ℕ) → a < p → ((a + p - z % p) % p + z) % p ≡ a
cancel_sub a z p h =
    mod-add-mod (a + p - z % p) p z
    ∙ ap (λ t. t % p) whole
    ∙ add-mul-mod_self_right a (z / p + 1) p
    ∙ mod-eq_of_lt h
  where
    whole : a + p - z % p + z ≡ a + (z / p + 1) * p
    whole = omega (arith, div-add-mod' z p, mod-lt z {m = p} (omega arith), add-mul (z / p) 1 p)

pub cancel_neg : (z p : ℕ) → 0 < p → ((p - z % p) % p + z) % p ≡ 0
cancel_neg z p h = ap (λ t. (t % p + z) % p) (omega arith) ∙ cancel_sub 0 z p h

-- What an elimination with multiplier `k` needs.
pub record Eliminates (p k : ℕ) (ga : GaussArithmetic) : Type 0 where
  pub ambc_lt : (a b : ℕ) → a < p → b < p → ga.ambc a b < p
  pub ambc_back : (a b : ℕ) → a < p → b < p → (ga.ambc a b + b * k) % p ≡ a
  pub negmul_lt : (b : ℕ) → b < p → ga.negmul b < p
  pub negmul_back : (b : ℕ) → b < p → (ga.negmul b + b * k) % p ≡ 0

module _ (p k : ℕ) (h : IsModulus p) (q : k < p) where
  positive : 0 < p
  positive = ground arith

  neg_lem : (z : ℕ) → neg_mod (z % p) (new_mod p) ≡ (p - z % p) % p
  neg_lem z = neg_mod_lem p h (z % p) (mod-lt z positive)

  pub gauss_plain-Eliminates : Eliminates p k (gauss_plain k (new_mod p))
  unfolding gauss_plain
  gauss_plain-Eliminates = record {
    ambc_lt = λ a b r s. (ambc_mod_lem p h a b k r s q).0;
    ambc_back = λ a b r s. (ambc_mod_lem p h a b k r s q).1;
    negmul_lt = λ b s. subst (λ t. t < p) (sym (negated b s)) (mod-lt (p - b * k % p) positive);
    negmul_back = λ b s. ap (λ t. (t + b * k) % p) (negated b s) ∙ cancel_neg (b * k) p positive;
  }
    where
      negated :
          (b : ℕ) → b < p → neg_mod (mul_mod b k (new_mod p)) (new_mod p) ≡ (p - b * k % p) % p
      negated b s = ap (λ t. neg_mod t (new_mod p)) (mul_mod_lem p h b k s q) ∙ neg_lem (b * k)

  shoup :
      (b : ℕ) → b < p → mul_mod_shoup b k (precomp_mul_shoup k (new_mod p)) (new_mod p) ≡ b * k % p
  unfolding mul_mod_shoup precomp_mul_shoup new_mod
  shoup b s = ff_mul_shoup_lem p b k h s q

  pub gauss_shoup-Eliminates : Eliminates p k (gauss_shoup k (new_mod p))
  unfolding gauss_shoup
  gauss_shoup-Eliminates = record {
    ambc_lt = λ a b r s.
        subst (λ t. t < p) (sym (subtracted a b r s)) (mod-lt (a + p - b * k % p) positive);
    ambc_back =
        λ a b r s. ap (λ t. (t + b * k) % p) (subtracted a b r s) ∙ cancel_sub a (b * k) p r;
    negmul_lt = λ b s. subst (λ t. t < p) (sym (negated b s)) (mod-lt (p - b * k % p) positive);
    negmul_back = λ b s. ap (λ t. (t + b * k) % p) (negated b s) ∙ cancel_neg (b * k) p positive;
  }
    where
      negated :
          (b : ℕ)
          → b < p
          → neg_mod (mul_mod_shoup b k (precomp_mul_shoup k (new_mod p)) (new_mod p)) (new_mod p)
            ≡ (p - b * k % p) % p
      negated b s = ap (λ t. neg_mod t (new_mod p)) (shoup b s) ∙ neg_lem (b * k)

      subtracted :
          (a b : ℕ)
          → a < p
          → b < p
          → sub_mod a (mul_mod_shoup b k (precomp_mul_shoup k (new_mod p)) (new_mod p)) (new_mod p)
            ≡ (a + p - b * k % p) % p
      subtracted a b r s =
          ap (λ t. sub_mod a t (new_mod p)) (shoup b s)
          ∙ sub_mod_lem p h a (b * k % p) r (mod-lt (b * k) positive)
