-- ===== src/Rational/Samples.antt =====
-- The samples that `URatFunReconstruction` and the loops of its kind visit, and that they come back only
-- after p strides.
use finiteflow.Base.{
  ℕ, zero, suc, ◌+◌, ◌-◌, ◌*◌, ◌%◌, ◌<◌, ◌≤◌, arith, Option, none, some, ◌==◌, if◌then◌else◌, ◌≡◌,
  ◌≢◌, ap, sym, ◌∙◌, refl, subst, inl, inr, Bool-cases, ==→ne,
}
use finiteflow.Modular.{Mod, new_mod, add_mod, mul_inv}
use finiteflow.Modular.Laws.{add_mod_lem, mul_inv_lem}
use finiteflow.Ffmod.{IsModulus}
use finiteflow.Ffmod.Inverse.{Coprime}
use finiteflow.Base.Div.{congruent, mul-mod_left_mod, mul-mod_right_mod}
use native.Mathlib.Nat.{
  mod-lt, mod-mod, mod-eq_of_lt, add-mul, add-mul-mod_self_right, mul_assoc, mul-one, zero-mul,
}
use finiteflow.Newton.{sampling_stride, evaluation_failed, next_sample}

-- `k` strides of the sampling from `x`
abbrev pub sample_at : ℕ → ℕ → ℕ → ℕ
sample_at p x k = (x + k * sampling_stride) % p

module _ (p : ℕ) (h : IsModulus p) (one_lt : 1 < p) where
  pub sample_at-lt : (x k : ℕ) → sample_at p x k < p
  sample_at-lt x k = mod-lt (x + k * sampling_stride) (omega (arith, one_lt))

  pub sample_at-sample_at : (x j k : ℕ) → sample_at p (sample_at p x j) k ≡ sample_at p x (j + k)
  sample_at-sample_at x j k =
      congruent p (sample_at p x j) (k * sampling_stride) (x + j * sampling_stride)
        (k * sampling_stride) (mod-mod (x + j * sampling_stride) p) refl
      ∙ ap (λ t. t % p) (omega (arith, add-mul j k sampling_stride))

  module _ (stride_lt : sampling_stride < p) where
    pub one_stride : (x : ℕ) → x < p → add_mod x sampling_stride (new_mod p) ≡ sample_at p x 1
    one_stride x hx = add_mod_lem p h x sampling_stride hx stride_lt ∙ ap (λ t. t % p) (omega arith)

    -- The samples come back only after `p` strides.
    pub no_return :
        Coprime sampling_stride p → (x k : ℕ) → x < p → 0 < k → k < p → x ≢ sample_at p x k
    no_return coprime x k hx some_stride few same = absurd (omega (arith, some_stride, no_stride))
      where
        t : ℕ
        t = mul_inv sampling_stride (new_mod p)

        vanishes : k * sampling_stride % p ≡ 0
        vanishes =
            sym (add-mul-mod_self_right (k * sampling_stride) 1 p)
            ∙ ap (λ z. z % p) (omega (arith, hx))
            ∙ congruent p (x + k * sampling_stride) (p - x) x (p - x)
                (sym same ∙ sym (mod-eq_of_lt hx)) refl
            ∙ ap (λ z. z % p) (omega (arith, hx))
            ∙ add-mul-mod_self_right 0 1 p
            ∙ mod-eq_of_lt (omega (arith, one_lt))

        no_stride : k ≡ 0
        no_stride =
            sym (mod-eq_of_lt few)
            ∙ ap (λ z. z % p) (sym (mul-one k))
            ∙ ap (λ z. k * z % p) (sym (mul_inv_lem p h sampling_stride one_lt stride_lt coprime).1)
            ∙ mul-mod_right_mod k (sampling_stride * t) p
            ∙ ap (λ z. z % p) (sym (mul_assoc k sampling_stride t))
            ∙ sym (mul-mod_left_mod (k * sampling_stride) t p)
            ∙ ap (λ z. z * t % p) vanishes
            ∙ ap (λ z. z % p) (zero-mul t)
            ∙ mod-eq_of_lt (omega (arith, one_lt))

module _ (f : ℕ → ℕ) (p : ℕ) (h : IsModulus p) (one_lt : 1 < p)
    (stride_lt : sampling_stride < p) where
  abbrev m : Mod
  m = new_mod p

  -- The evaluation at the point, which is at most `n` strides away, succeeds.
  abbrev pub IsSample : ℕ → ℕ → Option (ℕ × ℕ) → Type 0
  IsSample x n none = Unit {0}
  IsSample x n (some (z, y)) =
      (y ≡ f z) × (f z ≢ evaluation_failed) × (k : ℕ) × (k ≤ n) × (z ≡ sample_at p x k)

  IsSample-later :
      (x n : ℕ) (r : Option (ℕ × ℕ)) → IsSample (sample_at p x 1) n r → IsSample x (suc n) r
  IsSample-later x n none ok = tt
  IsSample-later x n (some (z, y)) (value, good, k, few, there) = (
    value,
    good,
    suc k,
    omega (arith, few),
    there ∙ sample_at-sample_at p h one_lt x 1 k ∙ ap (sample_at p x) (omega arith),
  )

  here : (x : ℕ) → x < p → x ≡ sample_at p x 0
  here x hx = sym (mod-eq_of_lt hx) ∙ ap (λ t. t % p) (omega arith)

  -- A stride from a residue gives a residue.
  pub advanced-lt : (x : ℕ) → x < p → add_mod x sampling_stride m < p
  advanced-lt x hx =
      subst (λ t. t < p) (sym (one_stride p h one_lt stride_lt x hx)) (sample_at-lt p h one_lt x 1)

  pub next_sample-IsSample : (tries x : ℕ) → x < p → IsSample x tries (next_sample tries f x m)
  next_sample-IsSample zero x hx = elim (Bool-cases (f x == evaluation_failed)) [
    | inl bad ↦ subst (λ b. IsSample x 0 (if b then none else some (x, f x))) (sym bad) tt
    | inr good ↦
        subst (λ b. IsSample x 0 (if b then none else some (x, f x))) (sym good)
          (refl, ==→ne (f x) evaluation_failed good, 0, omega arith, here x hx)
  ]
  next_sample-IsSample (suc tries) x hx = elim (Bool-cases (f x == evaluation_failed)) [
    | inl bad ↦
        subst (λ b. IsSample x (suc tries) (if b then later else some (x, f x))) (sym bad)
          (IsSample-later x tries later (
            subst (λ z. IsSample z tries later) (one_stride p h one_lt stride_lt x hx)
              (next_sample-IsSample tries (add_mod x sampling_stride m) (advanced-lt x hx))))
    | inr good ↦
        subst (λ b. IsSample x (suc tries) (if b then later else some (x, f x))) (sym good)
          (refl, ==→ne (f x) evaluation_failed good, 0, omega arith, here x hx)
  ]
    where
      later : Option (ℕ × ℕ)
      later = next_sample tries f (add_mod x sampling_stride m) m
