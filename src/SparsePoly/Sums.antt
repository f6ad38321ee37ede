-- ===== src/SparsePoly/Sums.antt =====
-- The value of a sparse polynomial as a sum of products.
use native.Mathlib.Nat.{mod-eq_of_lt, mod-lt, mod-mod, mul_assoc}
use finiteflow.Base.{
  ℕ, zero, suc, List, [], ◌∷◌, ◌++◌, All, ◌+◌, ◌*◌, ◌%◌, ◌^◌, ◌<◌, ◌≤◌, ◌≡◌, ap, sym, ◌∙◌, refl,
  arith, get_or, drop, length, subst,
}
use finiteflow.Base.Div.{congruent, mul-mod_left_mod}
use finiteflow.Ffmod.{IsModulus}
use finiteflow.Modular.{new_mod, add_mod, mul_mod, power}
use finiteflow.Modular.Laws.{add_mod_lem, mul_mod_lem}
use finiteflow.Modular.Power.{power_lem}
use finiteflow.Newton.Rows.{AllBelow}
use finiteflow.SparsePoly.{
  Monomial, SparsePoly, unsigned_of, eval_powers, eval_monomial, eval_sum, eval,
}

-- A monomial with a residue and `n` exponents below a bound.
pub record IsTerm (p n bound : ℕ) (t : Monomial) : Type 0 where
  pub coeff_small : t.coeff < p
  pub arity : length t.exponents ≡ n
  pub bounded : AllBelow bound t.exponents

abbrev pub IsTerms : ℕ → ℕ → ℕ → List Monomial → Type 0
IsTerms p n bound ts = All (IsTerm p n bound) ts

pub AllBelow-mono : (b b' : ℕ) (es : List ℕ) → b ≤ b' → AllBelow b es → AllBelow b' es
AllBelow-mono b b' [] le all = tt
AllBelow-mono b b' (e ∷ es) le all = (omega (arith, all.0, le), AllBelow-mono b b' es le all.1)

pub IsTerms-mono :
    (p n b b' : ℕ) (ts : List Monomial) → b ≤ b' → IsTerms p n b ts → IsTerms p n b' ts
IsTerms-mono p n b b' [] le all = tt
IsTerms-mono p n b b' (t ∷ ts) le all = (
  record {
    coeff_small = all.0.coeff_small;
    arity = all.0.arity;
    bounded = AllBelow-mono b b' t.exponents le all.0.bounded;
  },
  IsTerms-mono p n b b' ts le all.1,
)

pub get_or-AllBelow : (b i : ℕ) (xs : List ℕ) → 0 < b → AllBelow b xs → get_or xs i 0 < b
get_or-AllBelow b i [] pos all = pos
get_or-AllBelow b zero (x ∷ xs) pos all = all.0
get_or-AllBelow b (suc i) (x ∷ xs) pos all = get_or-AllBelow b i xs pos all.1

pub drop-AllBelow : (b : ℕ) (xs : List ℕ) → AllBelow b xs → AllBelow b (drop 1 xs)
drop-AllBelow b [] all = tt
drop-AllBelow b (x ∷ xs) all = all.1

module _ (p : ℕ) (h : IsModulus p) (one_lt : 1 < p) where
  abbrev pub weight : List ℕ → List ℕ → ℕ
  weight [] xs = 1
  weight (e ∷ es) xs = power (get_or xs 0 0) (unsigned_of e) (new_mod p) * weight es (drop 1 xs)

  -- The sum of the monomials over the natural numbers.
  abbrev pub total : List Monomial → List ℕ → ℕ
  total [] xs = 0
  total (t ∷ ts) xs = t.coeff * weight t.exponents xs + total ts xs

  power-small : (x y : ℕ) → x < p → power x y (new_mod p) < p
  power-small x y small =
      subst (λ t. t < p) (sym (power_lem p h x y one_lt small))
        (mod-lt (x ^ y) (omega (arith, one_lt)))

  eval_powers_lem :
      (res : ℕ) (es xs : List ℕ)
      → AllBelow p xs
      → res < p
      → eval_powers res es xs (new_mod p) ≡ res * weight es xs % p
  unfolding eval_powers
  eval_powers_lem res [] xs points small = sym (mod-eq_of_lt small) ∙ ap (λ t. t % p) (omega arith)
  eval_powers_lem res (e ∷ es) xs points small =
      let x = get_or xs 0 0 in
      let here = power x (unsigned_of e) (new_mod p) in
      let here_small : here < p =
        power-small x (unsigned_of e) (get_or-AllBelow p 0 xs (omega (arith, one_lt)) points) in
      let step : mul_mod res here (new_mod p) ≡ res * here % p =
        mul_mod_lem p h res here small here_small in
      eval_powers_lem (mul_mod res here (new_mod p)) es (drop 1 xs) (drop-AllBelow p xs points)
        (subst (λ t. t < p) (sym step) (mod-lt (res * here) (omega (arith, one_lt))))
      ∙ ap (λ t. t * weight es (drop 1 xs) % p) step
      ∙ mul-mod_left_mod (res * here) (weight es (drop 1 xs)) p
      ∙ ap (λ t. t % p) (mul_assoc res here (weight es (drop 1 xs)))

  eval_sum_lem :
      (n bound res : ℕ) (ts : List Monomial) (xs : List ℕ)
      → AllBelow p xs
      → IsTerms p n bound ts
      → res < p
      → eval_sum res ts xs (new_mod p) ≡ (res + total ts xs) % p
  unfolding eval_sum eval_monomial
  eval_sum_lem n bound res [] xs points all small =
      sym (mod-eq_of_lt small) ∙ ap (λ t. t % p) (omega arith)
  eval_sum_lem n bound res (t ∷ ts) xs points all small =
      let here = eval_powers t.coeff t.exponents xs (new_mod p) in
      let value : here ≡ t.coeff * weight t.exponents xs % p =
        eval_powers_lem t.coeff t.exponents xs points all.0.coeff_small in
      let here_small : here < p =
        subst (λ s. s < p) (sym value)
          (mod-lt (t.coeff * weight t.exponents xs) (omega (arith, one_lt))) in
      let step : add_mod res here (new_mod p) ≡ (res + here) % p =
        add_mod_lem p h res here small here_small in
      eval_sum_lem n bound (add_mod res here (new_mod p)) ts xs points all.1
        (subst (λ s. s < p) (sym step) (mod-lt (res + here) (omega (arith, one_lt))))
      ∙ congruent p (add_mod res here (new_mod p)) (total ts xs)
          (res + t.coeff * weight t.exponents xs) (total ts xs)
          (ap (λ s. s % p) step
            ∙ mod-mod (res + here) p
            ∙ congruent p res here res (t.coeff * weight t.exponents xs) refl
                (ap (λ s. s % p) value ∙ mod-mod (t.coeff * weight t.exponents xs) p))
          refl
      ∙ ap (λ s. s % p) (omega arith)

  pub eval-total :
      (poly : SparsePoly) (n bound : ℕ) (xs : List ℕ)
      → AllBelow p xs
      → IsTerms p n bound poly.monomials_
      → eval poly xs (new_mod p) ≡ total poly.monomials_ xs % p
  unfolding eval
  eval-total poly n bound xs points all =
      eval_sum_lem n bound 0 poly.monomials_ xs points all (omega (arith, one_lt))
      ∙ ap (λ t. t % p) (omega arith)

  pub total-append :
      (ts us : List Monomial) (xs : List ℕ) → total (ts ++ us) xs ≡ total ts xs + total us xs
  total-append [] us xs = omega arith
  total-append (t ∷ ts) us xs = omega (arith, total-append ts us xs)
