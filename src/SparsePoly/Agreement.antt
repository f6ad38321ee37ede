-- ===== src/SparsePoly/Agreement.antt =====
-- A polynomial in Newton form and the sparse polynomial that `toSparsePolyVar` writes have the same values.
use native.Mathlib.Nat.{mod-lt, mod-mod, le-max_left, le-max_right, pow-zero, add-mul}
use finiteflow.Base.{
  get_or-drop_all, drop-drop, ℕ, suc, List, [], ◌∷◌, ◌+◌, ◌-◌, ◌*◌, ◌%◌, ◌<◌, ◌≤◌, ◌≡◌, ap, ap₂,
  sym, ◌∙◌, refl, arith, length, get_or, drop, max, subst,
}
use finiteflow.Base.Div.{congruent}
use finiteflow.Ffmod.{IsModulus}
use finiteflow.Modular.{new_mod, mul_mod, add_mod, sub_mod, neg_mod}
use finiteflow.Modular.Laws.{neg_mod_lem}
use finiteflow.Newton.{UPoly, NewtonUPoly, upoly_eval, mul_linear, std_coeffs, to_std_rep}
use finiteflow.Newton
use finiteflow.Newton.Interpolation.{IsNewton}
use finiteflow.Newton.Rows.{AllBelow, mul_add_lem, difference-small}
use finiteflow.Newton.Standard.{value, std_coeffs-value, difference_value}
use finiteflow.SparsePoly.{
  Monomial, SparsePoly, from_univariate, NewtonPoly, univariate, multivariate, NewtonCoeffs,
  last_coeff, coeff_before, newton_eval, newton_eval_coeffs, to_sparse_poly_var, sparse_coeffs,
  mul_univariate_linear, add, eval,
}
use finiteflow.SparsePoly.Sums.{
  IsTerms, IsTerms-mono, get_or-AllBelow, drop-AllBelow, total, eval-total,
}
use finiteflow.SparsePoly.Merge.{merge-IsSum}
use finiteflow.SparsePoly.Linear.{mul_univariate_linear-total}
use finiteflow.SparsePoly.Conversion.{x_small, univariate_terms-total}

-- The exponents that the conversion makes are below this number.
unfoldable mutual
  pub exponent_bound : NewtonPoly → ℕ
  exponent_bound (univariate poly) = length poly.ai_
  exponent_bound (multivariate zs cs) = exponent_bound_coeffs cs

  pub exponent_bound_coeffs : NewtonCoeffs → ℕ
  exponent_bound_coeffs (last_coeff a) = exponent_bound a
  exponent_bound_coeffs (coeff_before a cs) =
      max (suc (exponent_bound_coeffs cs)) (exponent_bound a)

-- Points and coefficients are residues, and the polynomial in the variables from `v` on has one of `n`
-- variables for each of its levels.
unfoldable mutual
  pub IsPoly : ℕ → ℕ → ℕ → NewtonPoly → Type 0
  IsPoly p n v (univariate poly) = (v < n) × IsNewton p poly × (0 < length poly.ai_)
  IsPoly p n v (multivariate zs cs) = (v < n) × AllBelow p zs × ArePolys p n (suc v) cs

  pub ArePolys : ℕ → ℕ → ℕ → NewtonCoeffs → Type 0
  ArePolys p n v (last_coeff a) = IsPoly p n v a
  ArePolys p n v (coeff_before a cs) = IsPoly p n v a × ArePolys p n v cs

length-mul_linear : (c : ℕ) (cs : List ℕ) (p : ℕ) → length (mul_linear c cs (new_mod p)) ≡ length cs
unfolding mul_linear
length-mul_linear c [] p = refl
length-mul_linear c (a ∷ []) p = refl
length-mul_linear c (a ∷ b ∷ cs) p = ap (λ t. suc t) (length-mul_linear c (b ∷ cs) p)

length-std_coeffs : (cs xs : List ℕ) (p : ℕ) → length (std_coeffs cs xs (new_mod p)) ≡ length cs
unfolding std_coeffs
length-std_coeffs [] xs p = refl
length-std_coeffs (a ∷ []) xs p = refl
length-std_coeffs (a ∷ b ∷ cs) xs p =
    length-mul_linear (neg_mod (get_or xs 0 0) (new_mod p))
      (a ∷ std_coeffs (b ∷ cs) (drop 1 xs) (new_mod p)) p
    ∙ ap (λ t. suc t) (length-std_coeffs (b ∷ cs) (drop 1 xs) p)

length-to_std_rep :
    (poly : NewtonUPoly) (p : ℕ) → length (to_std_rep poly (new_mod p)) ≡ length poly.ai_
unfolding to_std_rep
length-to_std_rep poly p = length-std_coeffs poly.ai_ poly.xi_ p

module _ (p : ℕ) (h : IsModulus p) (one_lt : 1 < p) where
  to_std_rep-value :
      (x : ℕ) (small : x < p) (poly : NewtonUPoly)
      → IsNewton p poly
      → 0 < length poly.ai_
      → AllBelow p (to_std_rep poly (new_mod p))
        × (Newton.eval poly x (new_mod p) < p)
        × (Newton.eval poly x (new_mod p) ≡ value p h x small (to_std_rep poly (new_mod p)) % p)
  unfolding to_std_rep Newton.eval
  to_std_rep-value x small poly ok some = go poly.ai_ poly.xi_ ok.coeffs ok.points ok.same_size some
    where
      go :
          (cs xs : List ℕ)
          → AllBelow p cs
          → AllBelow p xs
          → length xs ≡ length cs
          → 0 < length cs
          → AllBelow p (std_coeffs cs xs (new_mod p))
            × (Newton.eval_coeffs cs xs x (new_mod p) < p)
            × (Newton.eval_coeffs cs xs x (new_mod p)
                ≡ value p h x small (std_coeffs cs xs (new_mod p)) % p)
      go [] xs all points e some = absurd (omega (arith, some))
      go (a ∷ cs) xs all points e some = std_coeffs-value p h x small a cs xs all points e

  module _ (n : ℕ) (xs : List ℕ) (points : AllBelow p xs) where
    -- The monomials stand for the value.
    abbrev IsValue : ℕ → ℕ → List Monomial → Type 0
    IsValue bound v ts = IsTerms p n bound ts × (v < p) × (v ≡ total p h one_lt ts xs % p)

    univariate-IsValue :
        (poly : NewtonUPoly) (v : ℕ)
        → IsPoly p n v (univariate poly)
        → length poly.ai_ ≤ 0x8000
        → IsValue
            (length poly.ai_)
            (Newton.eval poly (get_or (drop v xs) 0 0) (new_mod p))
            (from_univariate n (to_std_rep poly (new_mod p)) v).monomials_
    unfolding from_univariate IsPoly
    univariate-IsValue poly v ok le =
        let small = x_small p h one_lt n v ok.0 xs points in
        let std = to_std_rep-value (get_or xs v 0) small poly ok.1 ok.2 in
        let cs = to_std_rep poly (new_mod p) in
        let sums =
          univariate_terms-total p h one_lt n v ok.0 xs points (length poly.ai_) 0 cs std.0
            (omega (arith, length-to_std_rep poly p)) le in
        let here = ap (λ t. Newton.eval poly t (new_mod p)) (get_or-drop_all xs v) in
        let ts = (from_univariate n cs v).monomials_ in
        (
          sums.0,
          subst (λ t. t < p) (sym here) std.1,
          here
              ∙ std.2
              ∙ ap (λ t. t % p) (omega arith)
              ∙ ap (λ t. t * value p h (get_or xs v 0) small cs % p)
                  (sym (pow-zero (get_or xs v 0)))
              ∙ sym sums.1,
        )

    coeff_before-IsValue :
        (b c v z res here : ℕ) (poly tmp : SparsePoly)
        → v < n
        → z < p
        → max (suc b) c ≤ 0x8000
        → IsValue b res poly.monomials_
        → IsValue c here tmp.monomials_
        → IsValue
            (max (suc b) c)
            (add_mod
              (mul_mod res (sub_mod (get_or xs v 0) z (new_mod p)) (new_mod p))
              here
              (new_mod p))
            (add
              (mul_univariate_linear poly v (neg_mod z (new_mod p)) (new_mod p))
              tmp
              (new_mod p)).monomials_
    unfolding add
    coeff_before-IsValue b c v z res here poly tmp inside hz le hr hh =
        let x = get_or xs v 0 in
        let small = x_small p h one_lt n v inside xs points in
        let bound = max (suc b) c in
        let k = neg_mod z (new_mod p) in
        let hk : k < p =
          subst (λ t. t < p) (sym (neg_mod_lem p h z hz))
            (mod-lt (p - z) (omega (arith, one_lt))) in
        let d = sub_mod x z (new_mod p) in
        let hd : d < p = difference-small p h x small z hz in
        let t = total p h one_lt poly.monomials_ xs in
        let linear =
          mul_univariate_linear-total p h one_lt n b v k poly xs points
            (omega (arith, le, le-max_left (suc b) c)) inside hk hr.0 in
        let ls = (mul_univariate_linear poly v k (new_mod p)).monomials_ in
        let sum =
          merge-IsSum p h one_lt n bound (omega (arith, le)) xs ls tmp.monomials_
            (IsTerms-mono p n (suc b) bound ls (le-max_left (suc b) c) linear.0)
            (IsTerms-mono p n c bound tmp.monomials_ (le-max_right (suc b) c) hh.0) in
        let value_lem : add_mod (mul_mod res d (new_mod p)) here (new_mod p)
            ≡ (res * d + here) % p =
          mul_add_lem p h x small res d here hr.1 hd hh.1 in
        (
          sum.0,
          subst (λ s. s < p) (sym value_lem) (mod-lt (res * d + here) (omega (arith, one_lt))),
          value_lem
              ∙ difference_value p h x small res t z here hz hr.2
              ∙ ap (λ s. s % p) (omega (arith, add-mul x k t))
              ∙ congruent p ((x + k) * t) here (total p h one_lt ls xs)
                  (total p h one_lt tmp.monomials_ xs) (sym linear.1)
                  (ap (λ s. s % p) hh.2 ∙ mod-mod (total p h one_lt tmp.monomials_ xs) p)
              ∙ sym sum.1,
        )

    mutual
      unfolding newton_eval newton_eval_coeffs to_sparse_poly_var sparse_coeffs exponent_bound
          exponent_bound_coeffs IsPoly ArePolys

      to_sparse_poly_var-IsValue :
          (poly : NewtonPoly) (v : ℕ)
          → IsPoly p n v poly
          → exponent_bound poly ≤ 0x8000
          → IsValue
              (exponent_bound poly)
              (newton_eval poly (drop v xs) (new_mod p))
              (to_sparse_poly_var poly n v (new_mod p)).monomials_
      to_sparse_poly_var-IsValue (univariate poly) v ok le = univariate-IsValue poly v ok le
      to_sparse_poly_var-IsValue (multivariate zs cs) v ok le =
          subst
            (λ t.
              IsValue (exponent_bound_coeffs cs) t (sparse_coeffs cs zs n v (new_mod p)).monomials_)
            (ap₂ (λ x ys. newton_eval_coeffs cs zs x ys (new_mod p)) (sym (get_or-drop_all xs v))
              (sym (drop-drop xs v)))
            (sparse_coeffs-IsValue cs zs v ok.0 ok.1 ok.2 le)

      sparse_coeffs-IsValue :
          (cs : NewtonCoeffs) (zs : List ℕ) (v : ℕ)
          → v < n
          → AllBelow p zs
          → ArePolys p n (suc v) cs
          → exponent_bound_coeffs cs ≤ 0x8000
          → IsValue
              (exponent_bound_coeffs cs)
              (newton_eval_coeffs cs zs (get_or xs v 0) (drop (suc v) xs) (new_mod p))
              (sparse_coeffs cs zs n v (new_mod p)).monomials_
      sparse_coeffs-IsValue (last_coeff a) zs v inside hz ok le =
          to_sparse_poly_var-IsValue a (suc v) ok le
      sparse_coeffs-IsValue (coeff_before a cs) zs v inside hz ok le =
          let b = exponent_bound_coeffs cs in
          let c = exponent_bound a in
          coeff_before-IsValue b c v (get_or zs 0 0)
            (newton_eval_coeffs cs (drop 1 zs) (get_or xs v 0) (drop (suc v) xs) (new_mod p))
            (newton_eval a (drop (suc v) xs) (new_mod p))
            (sparse_coeffs cs (drop 1 zs) n v (new_mod p))
            (to_sparse_poly_var a n (suc v) (new_mod p)) inside
            (get_or-AllBelow p 0 zs (omega (arith, one_lt)) hz) le
            (sparse_coeffs-IsValue cs (drop 1 zs) v inside (drop-AllBelow p zs hz) ok.1
              (omega (arith, le, le-max_left (suc b) c)))
            (to_sparse_poly_var-IsValue a (suc v) ok.0 (omega (arith, le, le-max_right (suc b) c)))

-- For a modulus above 1 in the range of the word-sized ones, a polynomial in Newton form in at most `n`
-- variables with residues as points and coefficients, whose exponents stay below 2^15, and residues for
-- the variables: the sparse polynomial that `to_sparse_poly_var` writes has the value of the Newton form.
pub to_sparse_poly_var-eval :
    (p : ℕ)
    → IsModulus p
    → 1 < p
    → (n : ℕ) (poly : NewtonPoly) (xs : List ℕ) → AllBelow p xs
    → IsPoly p n 0 poly
    → exponent_bound poly ≤ 0x8000
    → eval (to_sparse_poly_var poly n 0 (new_mod p)) xs (new_mod p)
      ≡ newton_eval poly xs (new_mod p)
to_sparse_poly_var-eval p h one_lt n poly xs points ok le =
    let both = to_sparse_poly_var-IsValue p h one_lt n xs points poly 0 ok le in
    eval-total p h one_lt (to_sparse_poly_var poly n 0 (new_mod p)) n (exponent_bound poly) xs
      points both.0
    ∙ sym both.2
