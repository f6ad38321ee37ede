-- ===== src/Newton/Standard.antt =====
-- A polynomial in Newton form and its coefficients in standard form have the same values.
use native.Mathlib.Nat.{mod-eq_of_lt, mod-lt, mod-mod, mul_comm, mul_assoc, mul-add}
use finiteflow.Base.{
  ℕ, suc, List, [], ◌∷◌, ◌+◌, ◌*◌, ◌-◌, ◌%◌, ◌<◌, ◌≡◌, ap, sym, ◌∙◌, refl, arith, length, subst,
}
use finiteflow.Base.Div.{congruent, scaled}
use finiteflow.Ffmod.{IsModulus}
use finiteflow.Modular.{new_mod, add_mod, sub_mod, mul_mod, apbc_mod, neg_mod}
use finiteflow.Modular.Laws.{sub_mod_lem, apbc_mod_lem, neg_mod_lem}
use finiteflow.Newton.{
  NewtonUPoly, upoly_eval, eval_coeffs, eval, mul_linear, std_coeffs, to_std_rep,
}
use finiteflow.Newton.Interpolation.{IsNewton}
use finiteflow.Newton.Rows.{AllBelow, mul_add_lem, apbc_mod-lt, difference-small}

module _ (p : ℕ) (h : IsModulus p) (x : ℕ) (x_small : x < p) where
  positive : 0 < p
  positive = omega (arith, x_small)

  -- The value of a polynomial with natural coefficients.
  abbrev pub value : List ℕ → ℕ
  value [] = 0
  value (c ∷ cs) = c + x * value cs

  pub upoly_eval-value :
      (cs : List ℕ)
      → AllBelow p cs
      → (upoly_eval cs x (new_mod p) < p) × (upoly_eval cs x (new_mod p) ≡ value cs % p)
  unfolding upoly_eval
  upoly_eval-value [] all = (positive, sym (mod-eq_of_lt positive))
  upoly_eval-value (c ∷ []) all = (all.0, sym (mod-eq_of_lt all.0) ∙ ap (λ t. t % p) (omega arith))
  upoly_eval-value (c ∷ d ∷ cs) all =
      let rest = upoly_eval-value (d ∷ cs) all.1 in
      let v = upoly_eval (d ∷ cs) x (new_mod p) in
      let here : add_mod (mul_mod v x (new_mod p)) c (new_mod p) ≡ (v * x + c) % p =
        mul_add_lem p h x x_small v x c rest.0 x_small all.0 in
      (
        subst (λ t. t < p) (sym here) (mod-lt (v * x + c) positive),
        here
            ∙ ap (λ t. t % p) (omega (arith, mul_comm v x))
            ∙ congruent p c (x * v) c (x * value (d ∷ cs)) refl (
                scaled p x v (value (d ∷ cs))
                  (ap (λ t. t % p) rest.1 ∙ mod-mod (value (d ∷ cs)) p)),
      )

  mul_linear-value :
      (k c : ℕ) (cs : List ℕ)
      → k < p
      → AllBelow p (c ∷ cs)
      → AllBelow p (mul_linear k (c ∷ cs) (new_mod p))
        × (value (mul_linear k (c ∷ cs) (new_mod p)) % p ≡ (value (c ∷ cs) + k * value cs) % p)
  unfolding mul_linear
  mul_linear-value k c [] hk all = (all, ap (λ t. t % p) (omega arith))
  mul_linear-value k c (d ∷ cs) hk all =
      let rest = mul_linear-value k d cs hk all.1 in
      (
        (apbc_mod-lt p h x x_small c k d all.0 hk all.1.0, rest.0),
        congruent p (apbc_mod c k d (new_mod p)) (x * value (mul_linear k (d ∷ cs) (new_mod p)))
              (c + k * d) (x * (value (d ∷ cs) + k * value cs))
              (ap (λ t. t % p) (apbc_mod_lem p h c k d all.0 hk all.1.0) ∙ mod-mod (c + k * d) p)
              (scaled p x (value (mul_linear k (d ∷ cs) (new_mod p)))
                (value (d ∷ cs) + k * value cs) rest.1)
            ∙ ap (λ t. t % p) (rearranged k c d (value cs)),
      )
    where
      rearranged :
          (k c d v : ℕ)
          → (c + k * d) + x * ((d + x * v) + k * v) ≡ (c + x * (d + x * v)) + k * (d + x * v)
      rearranged k c d v = omega (
        arith,
        mul-add x (d + x * v) (k * v),
        mul-add k d (x * v),
        mul_assoc x k v,
        mul_assoc k x v,
        ap (λ (t : ℕ). t * v) (mul_comm x k),
      )

  pub difference_value :
      (v t z a : ℕ)
      → z < p
      → v ≡ t % p
      → (v * sub_mod x z (new_mod p) + a) % p ≡ ((a + x * t) + neg_mod z (new_mod p) * t) % p
  difference_value v t z a hz e =
      congruent p (v * sub_mod x z (new_mod p)) a (t * (x + neg_mod z (new_mod p))) a
        (scaled p v (sub_mod x z (new_mod p)) (x + neg_mod z (new_mod p)) difference
          ∙ ap (λ s. s % p) (mul_comm v (x + neg_mod z (new_mod p)))
          ∙ scaled p (x + neg_mod z (new_mod p)) v t (ap (λ s. s % p) e ∙ mod-mod t p)
          ∙ ap (λ s. s % p) (mul_comm (x + neg_mod z (new_mod p)) t))
        refl
      ∙ ap (λ s. s % p)
          (omega (
            arith,
            mul-add t x (neg_mod z (new_mod p)),
            mul_comm t x,
            mul_comm t (neg_mod z (new_mod p)),
          ))
    where
      difference : sub_mod x z (new_mod p) % p ≡ (x + neg_mod z (new_mod p)) % p
      difference =
          ap (λ s. s % p) (sub_mod_lem p h x z x_small hz)
          ∙ mod-mod (x + p - z) p
          ∙ ap (λ s. s % p) (omega (arith, hz))
          ∙ congruent p x (p - z) x (neg_mod z (new_mod p)) refl
              (sym (mod-mod (p - z) p) ∙ ap (λ s. s % p) (sym (neg_mod_lem p h z hz)))

  pub std_coeffs-value :
      (a : ℕ) (cs xs : List ℕ)
      → AllBelow p (a ∷ cs)
      → AllBelow p xs
      → length xs ≡ suc (length cs)
      → AllBelow p (std_coeffs (a ∷ cs) xs (new_mod p))
        × (eval_coeffs (a ∷ cs) xs x (new_mod p) < p)
        × (eval_coeffs (a ∷ cs) xs x (new_mod p) ≡ value (std_coeffs (a ∷ cs) xs (new_mod p)) % p)
  unfolding std_coeffs eval_coeffs
  std_coeffs-value a [] xs all points e =
      (all, all.0, sym (mod-eq_of_lt all.0) ∙ ap (λ t. t % p) (omega arith))
  std_coeffs-value a (b ∷ cs) [] all points e = absurd (omega (arith, e))
  std_coeffs-value a (b ∷ cs) (z ∷ xs) all points e =
      let rest = std_coeffs-value b cs xs all.1 points.1 (omega (arith, e)) in
      let tail = std_coeffs (b ∷ cs) xs (new_mod p) in
      let v = eval_coeffs (b ∷ cs) xs x (new_mod p) in
      let d = sub_mod x z (new_mod p) in
      let k = neg_mod z (new_mod p) in
      let hd : d < p = difference-small p h x x_small z points.0 in
      let hk : k < p =
        subst (λ t. t < p) (sym (neg_mod_lem p h z points.0)) (mod-lt (p - z) positive) in
      let here : add_mod (mul_mod v d (new_mod p)) a (new_mod p) ≡ (v * d + a) % p =
        mul_add_lem p h x x_small v d a rest.1 hd all.0 in
      let linear = mul_linear-value k a tail hk (all.0, rest.0) in
      (
        linear.0,
        subst (λ t. t < p) (sym here) (mod-lt (v * d + a) positive),
        here ∙ difference_value v (value tail) z a points.0 rest.2 ∙ sym linear.1,
      )

std_coeffs-eval :
    (p : ℕ)
    → IsModulus p
    → (cs xs : List ℕ) → AllBelow p cs
    → AllBelow p xs
    → length xs ≡ length cs
    → 0 < length cs
    → (x : ℕ) → x < p
    → upoly_eval (std_coeffs cs xs (new_mod p)) x (new_mod p) ≡ eval_coeffs cs xs x (new_mod p)
std_coeffs-eval p h [] xs all points e some x small = absurd (omega (arith, some))
std_coeffs-eval p h (a ∷ cs) xs all points e some x small =
    let both = std_coeffs-value p h x small a cs xs all points e in
    (upoly_eval-value p h x small (std_coeffs (a ∷ cs) xs (new_mod p)) both.0).1 ∙ sym both.2

-- For a modulus in the range of the word-sized ones, a polynomial in Newton form with as many points as
-- coefficients and at least one, all residues, and a residue x: the standard form that `to_std_rep` gives
-- has at x the value of the Newton form.
pub to_std_rep-eval :
    (p : ℕ)
    → IsModulus p
    → (poly : NewtonUPoly) → IsNewton p poly
    → 0 < length poly.ai_
    → (x : ℕ) → x < p
    → upoly_eval (to_std_rep poly (new_mod p)) x (new_mod p) ≡ eval poly x (new_mod p)
unfolding to_std_rep eval
to_std_rep-eval p h poly ok some x small =
    std_coeffs-eval p h poly.ai_ poly.xi_ ok.coeffs ok.points ok.same_size some x small
