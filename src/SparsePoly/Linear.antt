-- ===== src/SparsePoly/Linear.antt =====
-- `SparsePoly::mulUnivariateLinear` and `SparsePoly::fromUnivariate` on sums.
use native.Mathlib.Nat.{mod-lt, mod-mod, mul_comm, mul_assoc, mul-add, add-mul, pow-succ'}
use finiteflow.Base.{
  ℕ, zero, suc, List, [], ◌∷◌, map, inl, inr, ◌+◌, ◌*◌, ◌%◌, ◌^◌, ◌<◌, ◌≤◌, ◌≡◌, ap, sym, ◌∙◌, refl,
  arith, length, get_or, set, drop, length-set, subst, ◌==◌, if◌then◌else◌, Bool-cases, ==→eq,
}
use finiteflow.Base.Div.{congruent, scaled, mul-mod_left_mod, mul-mod_right_mod}
use finiteflow.Ffmod.{IsModulus}
use finiteflow.Modular.{new_mod, mul_mod, power}
use finiteflow.Modular.Laws.{mul_mod_lem}
use finiteflow.Modular.Power.{power_lem}
use finiteflow.Newton.Rows.{AllBelow}
use finiteflow.SparsePoly.{
  Monomial, SparsePoly, unsigned_of, add16, scale, mul, raise, add, mul_univariate_linear, eval,
}
use finiteflow.SparsePoly.Sums.{
  AllBelow-mono, IsTerm, IsTerms, IsTerms-mono, get_or-AllBelow, drop-AllBelow, weight, total,
  eval-total,
}
use finiteflow.SparsePoly.Merge.{merge-IsSum}

pub get_or-drop : (xs : List ℕ) (i : ℕ) → get_or (drop 1 xs) i 0 ≡ get_or xs (suc i) 0
get_or-drop [] i = refl
get_or-drop (x ∷ xs) i = refl

set-AllBelow :
    (bound : ℕ) (es : List ℕ) (var : ℕ)
    → bound ≤ 0xffff
    → AllBelow bound es
    → AllBelow (suc bound) (set es var (add16 (get_or es var 0) 1))
set-AllBelow bound [] var le all = tt
set-AllBelow bound (e ∷ es) zero le all =
    (omega (arith, all.0, le), AllBelow-mono bound (suc bound) es (omega arith) all.1)
set-AllBelow bound (e ∷ es) (suc var) le all =
    (omega (arith, all.0), set-AllBelow bound es var le all.1)

module _ (p : ℕ) (h : IsModulus p) (one_lt : 1 < p) where
  power-suc :
      (x e : ℕ)
      → x < p
      → e < 0x7fff
      → power x (unsigned_of (add16 e 1)) (new_mod p) % p
        ≡ x * power x (unsigned_of e) (new_mod p) % p
  power-suc x e small le =
      let plain : unsigned_of e ≡ e = ground arith in
      let next : unsigned_of (add16 e 1) ≡ suc e = ground arith in
      ap (λ t. power x t (new_mod p) % p) next
      ∙ ap (λ t. t % p) (power_lem p h x (suc e) one_lt small)
      ∙ mod-mod (x ^ suc e) p
      ∙ ap (λ t. t % p) (pow-succ' x e)
      ∙ sym (mul-mod_right_mod x (x ^ e) p)
      ∙ ap (λ t. x * t % p)
          (sym (power_lem p h x e one_lt small) ∙ ap (λ t. power x t (new_mod p)) (sym plain))

  weight-raise :
      (var : ℕ) (es xs : List ℕ)
      → AllBelow p xs
      → AllBelow 0x7fff es
      → var < length es
      → weight p h one_lt (set es var (add16 (get_or es var 0) 1)) xs % p
        ≡ get_or xs var 0 * weight p h one_lt es xs % p
  weight-raise var [] xs points bits inside = absurd (omega (arith, inside))
  weight-raise zero (e ∷ es) xs points bits inside =
      let x = get_or xs 0 0 in
      let w = weight p h one_lt es (drop 1 xs) in
      sym (mul-mod_left_mod (power x (unsigned_of (add16 e 1)) (new_mod p)) w p)
      ∙ ap (λ t. t * w % p)
          (power-suc x e (get_or-AllBelow p 0 xs (omega (arith, one_lt)) points) bits.0)
      ∙ mul-mod_left_mod (x * power x (unsigned_of e) (new_mod p)) w p
      ∙ ap (λ t. t % p) (mul_assoc x (power x (unsigned_of e) (new_mod p)) w)
  weight-raise (suc var) (e ∷ es) xs points bits inside =
      let here = power (get_or xs 0 0) (unsigned_of e) (new_mod p) in
      let w = weight p h one_lt es (drop 1 xs) in
      let y = get_or xs (suc var) 0 in
      scaled p here (weight p h one_lt (set es var (add16 (get_or es var 0) 1)) (drop 1 xs)) (y * w)
        (weight-raise var es (drop 1 xs) (drop-AllBelow p xs points) bits.1 (omega (arith, inside))
          ∙ ap (λ t. t * w % p) (get_or-drop xs var))
      ∙ ap (λ t. t % p)
          (sym (mul_assoc here y w) ∙ ap (λ t. t * w) (mul_comm here y) ∙ mul_assoc y here w)

  raise-IsTerm :
      (n bound var : ℕ) (t : Monomial)
      → bound ≤ 0xffff
      → IsTerm p n bound t
      → IsTerm p n (suc bound) (raise var t)
  unfolding raise
  raise-IsTerm n bound var t le term = record {
    coeff_small = term.coeff_small;
    arity = length-set t.exponents var (add16 (get_or t.exponents var 0) 1) ∙ term.arity;
    bounded = set-AllBelow bound t.exponents var le term.bounded;
  }

  raise-total :
      (n bound var : ℕ) (ts : List Monomial) (xs : List ℕ)
      → AllBelow p xs
      → bound ≤ 0x7fff
      → var < n
      → IsTerms p n bound ts
      → IsTerms p n (suc bound) (map (raise var) ts)
        × (total p h one_lt (map (raise var) ts) xs % p
            ≡ get_or xs var 0 * total p h one_lt ts xs % p)
  unfolding raise
  raise-total n bound var [] xs points le inside all = (tt, ap (λ t. t % p) (omega arith))
  raise-total n bound var (t ∷ ts) xs points le inside all =
      let rest = raise-total n bound var ts xs points le inside all.1 in
      let y = get_or xs var 0 in
      let w = weight p h one_lt t.exponents xs in
      let w' = weight p h one_lt (set t.exponents var (add16 (get_or t.exponents var 0) 1)) xs in
      (
        (raise-IsTerm n bound var t (omega (arith, le)) all.0, rest.0),
        congruent p (t.coeff * w') (total p h one_lt (map (raise var) ts) xs) (t.coeff * (y * w))
              (y * total p h one_lt ts xs)
              (scaled p t.coeff w' (y * w) (
                weight-raise var t.exponents xs points
                  (AllBelow-mono bound 0x7fff t.exponents le all.0.bounded)
                  (omega (arith, inside, all.0.arity))))
              rest.1
            ∙ ap (λ k. k % p)
                (omega (
                  arith,
                  mul-add y (t.coeff * w) (total p h one_lt ts xs),
                  mul_assoc y t.coeff w,
                  mul_assoc t.coeff y w,
                  ap (λ (k : ℕ). k * w) (mul_comm y t.coeff),
                )),
      )

  scale-total :
      (n bound c : ℕ) (ts : List Monomial) (xs : List ℕ)
      → c < p
      → IsTerms p n bound ts
      → IsTerms p n bound (scale c ts (new_mod p))
        × (total p h one_lt (scale c ts (new_mod p)) xs % p ≡ c * total p h one_lt ts xs % p)
  unfolding scale
  scale-total n bound c [] xs small all = (tt, ap (λ t. t % p) (omega arith))
  scale-total n bound c (t ∷ ts) xs small all =
      let rest = scale-total n bound c ts xs small all.1 in
      let w = weight p h one_lt t.exponents xs in
      let value : mul_mod t.coeff c (new_mod p) ≡ t.coeff * c % p =
        mul_mod_lem p h t.coeff c all.0.coeff_small small in
      (
        (
          record {
            coeff_small =
                subst (λ k. k < p) (sym value) (mod-lt (t.coeff * c) (omega (arith, one_lt)));
            arity = all.0.arity;
            bounded = all.0.bounded;
          },
          rest.0,
        ),
        congruent p (mul_mod t.coeff c (new_mod p) * w)
              (total p h one_lt (scale c ts (new_mod p)) xs) (t.coeff * c * w)
              (c * total p h one_lt ts xs)
              (ap (λ k. k * w % p) value ∙ mul-mod_left_mod (t.coeff * c) w p) rest.1
            ∙ ap (λ k. k % p)
                (omega (
                  arith,
                  mul-add c (t.coeff * w) (total p h one_lt ts xs),
                  mul_assoc c t.coeff w,
                  ap (λ (k : ℕ). k * w) (mul_comm c t.coeff),
                )),
      )

  mul-total :
      (n bound c : ℕ) (poly : SparsePoly) (xs : List ℕ)
      → c < p
      → IsTerms p n bound poly.monomials_
      → IsTerms p n bound (mul poly c (new_mod p)).monomials_
        × (total p h one_lt (mul poly c (new_mod p)).monomials_ xs % p
            ≡ c * total p h one_lt poly.monomials_ xs % p)
  unfolding mul
  mul-total n bound c poly xs small all = elim (Bool-cases (c == 0)) [
    | inr other ↦
        subst
          (λ b.
            IsTerms p n bound (if b then [] else scale c poly.monomials_ (new_mod p))
            × (total p h one_lt (if b then [] else scale c poly.monomials_ (new_mod p)) xs % p
                ≡ c * total p h one_lt poly.monomials_ xs % p))
          (sym other) (scale-total n bound c poly.monomials_ xs small all)
    | inl none ↦
        subst
          (λ b.
            IsTerms p n bound (if b then [] else scale c poly.monomials_ (new_mod p))
            × (total p h one_lt (if b then [] else scale c poly.monomials_ (new_mod p)) xs % p
                ≡ c * total p h one_lt poly.monomials_ xs % p))
          (sym none)
          (
            tt,
            ap (λ k. k % p) (omega arith)
                ∙ ap (λ k. k * total p h one_lt poly.monomials_ xs % p) (sym (==→eq c 0 none)),
          )
  ]

  pub mul_univariate_linear-total :
      (n bound var c : ℕ) (poly : SparsePoly) (xs : List ℕ)
      → AllBelow p xs
      → bound ≤ 0x7fff
      → var < n
      → c < p
      → IsTerms p n bound poly.monomials_
      → IsTerms p n (suc bound) (mul_univariate_linear poly var c (new_mod p)).monomials_
        × (total p h one_lt (mul_univariate_linear poly var c (new_mod p)).monomials_ xs % p
            ≡ (get_or xs var 0 + c) * total p h one_lt poly.monomials_ xs % p)
  unfolding mul_univariate_linear add
  mul_univariate_linear-total n bound var c poly xs points le inside small all =
      let raised = raise-total n bound var poly.monomials_ xs points le inside all in
      let times = mul-total n bound c poly xs small all in
      let y = get_or xs var 0 in
      let v = total p h one_lt poly.monomials_ xs in
      let sum =
        merge-IsSum p h one_lt n (suc bound) (omega (arith, le)) xs
          (map (raise var) poly.monomials_) (mul poly c (new_mod p)).monomials_ raised.0
          (IsTerms-mono p n bound (suc bound) (mul poly c (new_mod p)).monomials_ (omega arith)
            times.0) in
      (
        sum.0,
        sum.1
            ∙ congruent p (total p h one_lt (map (raise var) poly.monomials_) xs)
                (total p h one_lt (mul poly c (new_mod p)).monomials_ xs) (y * v) (c * v) raised.1
                times.1
            ∙ ap (λ k. k % p) (sym (add-mul y c v)),
      )

-- For a modulus above 1 in the range of the word-sized ones, a polynomial with residues and exponents
-- below 2^15 - 1 in `n` variables, one of them `var`, a residue c and residues for the variables: the
-- value of what `mul_univariate_linear` gives is (x_var + c) times the value of the polynomial, modulo p.
pub mul_univariate_linear-eval :
    (p : ℕ)
    → IsModulus p
    → 1 < p
    → (n var c : ℕ) (poly : SparsePoly) (xs : List ℕ) → AllBelow p xs
    → var < n
    → c < p
    → IsTerms p n 0x7fff poly.monomials_
    → eval (mul_univariate_linear poly var c (new_mod p)) xs (new_mod p)
      ≡ (get_or xs var 0 + c) * eval poly xs (new_mod p) % p
mul_univariate_linear-eval p h one_lt n var c poly xs points inside small all =
    let both =
      mul_univariate_linear-total p h one_lt n 0x7fff var c poly xs points (omega arith) inside
        small all in
    eval-total p h one_lt (mul_univariate_linear poly var c (new_mod p)) n 0x8000 xs points both.0
    ∙ both.1
    ∙ sym (mul-mod_right_mod (get_or xs var 0 + c) (total p h one_lt poly.monomials_ xs) p)
    ∙ ap (λ t. (get_or xs var 0 + c) * t % p)
        (sym (eval-total p h one_lt poly n 0x7fff xs points all))
