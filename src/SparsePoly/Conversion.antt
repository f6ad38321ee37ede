-- ===== src/SparsePoly/Conversion.antt =====
-- `SparsePoly::fromUnivariate` as a sum.
use native.Mathlib.Nat.{mod-eq_of_lt, mul_comm, mul_assoc, mul-add, pow-suc, pow-zero}
use finiteflow.Base.{
  ℕ, zero, suc, List, [], ◌∷◌, ◌+◌, ◌*◌, ◌%◌, ◌^◌, ◌<◌, ◌≤◌, ◌≡◌, ap, ap₂, sym, ◌∙◌, refl, arith,
  length, get_or, set, drop, replicate, inl, inr, length-set, length-replicate, subst, ◌==◌,
  if◌then◌else◌, Bool-cases, ==→eq,
}
use finiteflow.Base.Div.{congruent, mul-mod_right_mod}
use finiteflow.Ffmod.{IsModulus}
use finiteflow.Modular.{new_mod, power}
use finiteflow.Modular.Power.{power_lem}
use finiteflow.Newton.{UPoly}
use finiteflow.Newton.Rows.{AllBelow}
use finiteflow.Newton.Standard.{value}
use finiteflow.SparsePoly.{Monomial, unsigned_of, univariate_terms}
use finiteflow.SparsePoly.Sums.{
  IsTerms, get_or-AllBelow, drop-AllBelow, weight, total, total-append,
}
use finiteflow.SparsePoly.Merge.{IsTerms-append}
use finiteflow.SparsePoly.Linear.{get_or-drop}

AllBelow-replicate : (bound n : ℕ) → 0 < bound → AllBelow bound (replicate n 0)
AllBelow-replicate bound zero pos = tt
AllBelow-replicate bound (suc n) pos = (pos, AllBelow-replicate bound n pos)

AllBelow-set :
    (bound var e : ℕ) (es : List ℕ) → e < bound → AllBelow bound es → AllBelow bound (set es var e)
AllBelow-set bound var e [] le all = tt
AllBelow-set bound zero e (d ∷ es) le all = (le, all.1)
AllBelow-set bound (suc var) e (d ∷ es) le all = (all.0, AllBelow-set bound var e es le all.1)

module _ (p : ℕ) (h : IsModulus p) (one_lt : 1 < p) where
  power-zero : (x : ℕ) → x < p → power x 0 (new_mod p) ≡ 1
  power-zero x small =
      power_lem p h x 0 one_lt small ∙ ap (λ t. t % p) (pow-zero x) ∙ mod-eq_of_lt one_lt

  weight-replicate :
      (n : ℕ) (xs : List ℕ) → AllBelow p xs → weight p h one_lt (replicate n 0) xs ≡ 1
  weight-replicate zero xs points = refl
  weight-replicate (suc n) xs points =
      ap₂ (λ a b. a * b)
        (power-zero (get_or xs 0 0) (get_or-AllBelow p 0 xs (omega (arith, one_lt)) points))
        (weight-replicate n (drop 1 xs) (drop-AllBelow p xs points))

  weight-single :
      (n var e : ℕ) (xs : List ℕ)
      → AllBelow p xs
      → var < n
      → e < 0x8000
      → weight p h one_lt (set (replicate n 0) var e) xs ≡ get_or xs var 0 ^ e % p
  weight-single zero var e xs points inside small = absurd (omega (arith, inside))
  weight-single (suc n) zero e xs points inside small =
      let plain : unsigned_of e ≡ e = ground arith in
      ap₂ (λ a b. a * b)
        (ap (λ t. power (get_or xs 0 0) t (new_mod p)) plain
          ∙ power_lem p h (get_or xs 0 0) e one_lt
              (get_or-AllBelow p 0 xs (omega (arith, one_lt)) points))
        (weight-replicate n (drop 1 xs) (drop-AllBelow p xs points))
      ∙ omega arith
  weight-single (suc n) (suc var) e xs points inside small =
      ap₂ (λ a b. a * b)
        (power-zero (get_or xs 0 0) (get_or-AllBelow p 0 xs (omega (arith, one_lt)) points))
        (weight-single n var e (drop 1 xs) (drop-AllBelow p xs points) (omega (arith, inside))
          small)
      ∙ omega arith
      ∙ ap (λ t. t ^ e % p) (get_or-drop xs var)

  module _ (n var : ℕ) (inside : var < n) (xs : List ℕ) (points : AllBelow p xs) where
    abbrev pub x : ℕ
    x = get_or xs var 0

    pub x_small : x < p
    x_small = get_or-AllBelow p var xs (omega (arith, one_lt)) points

    abbrev term : ℕ → ℕ → Monomial
    term i c = record {
      coeff = c;
      degree = i % 0x1_0000;
      exponents = set (replicate n 0) var (i % 0x1_0000);
    }

    term-total :
        (bound i c : ℕ)
        → c < p
        → i < bound
        → bound ≤ 0x8000
        → IsTerms p n bound (if c == 0 then [] else term i c ∷ [])
          × (total p h one_lt (if c == 0 then [] else term i c ∷ []) xs ≡ c * (x ^ i % p))
    term-total bound i c c_small le small = elim (Bool-cases (c == 0)) [
      | inl gone ↦
          subst
            (λ b.
              IsTerms p n bound (if b then [] else term i c ∷ [])
              × (total p h one_lt (if b then [] else term i c ∷ []) xs ≡ c * (x ^ i % p)))
            (sym gone) (tt, omega arith ∙ ap (λ t. t * (x ^ i % p)) (sym (==→eq c 0 gone)))
      | inr there ↦
          subst
            (λ b.
              IsTerms p n bound (if b then [] else term i c ∷ [])
              × (total p h one_lt (if b then [] else term i c ∷ []) xs ≡ c * (x ^ i % p)))
            (sym there)
            (
              (
                record {
                  coeff_small = c_small;
                  arity = length-set (replicate n 0) var (i % 0x1_0000) ∙ length-replicate n 0;
                  bounded =
                      AllBelow-set bound var (i % 0x1_0000) (replicate n 0)
                        (omega (arith, le, small)) (AllBelow-replicate bound n (omega (arith, le)));
                },
                tt,
              ),
              ap (λ t. c * t + 0)
                    (weight-single n var (i % 0x1_0000) xs points inside (omega (arith, le, small))
                      ∙ ap (λ t. x ^ t % p) plain)
                  ∙ omega arith,
            )
    ]
      where
        plain : i % 0x1_0000 ≡ i
        plain = omega (arith, le, small)

    pub univariate_terms-total :
        (bound i : ℕ) (cs : UPoly)
        → AllBelow p cs
        → i + length cs ≤ bound
        → bound ≤ 0x8000
        → IsTerms p n bound (univariate_terms n var i cs)
          × (total p h one_lt (univariate_terms n var i cs) xs % p
              ≡ x ^ i * value p h x x_small cs % p)
    unfolding univariate_terms
    univariate_terms-total bound i [] all le small = (tt, ap (λ t. t % p) (omega arith))
    univariate_terms-total bound i (c ∷ cs) all le small =
        let higher = univariate_terms-total bound (suc i) cs all.1 (omega (arith, le)) small in
        let here = term-total bound i c all.0 (omega (arith, le)) small in
        let v = value p h x x_small cs in
        let us = univariate_terms n var (suc i) cs in
        let ts : List Monomial = if c == 0 then [] else term i c ∷ [] in
        (
          IsTerms-append p n bound us ts higher.0 here.0,
          ap (λ t. t % p)
                (total-append p h one_lt us ts xs ∙ ap (λ t. total p h one_lt us xs + t) here.1)
              ∙ congruent p (total p h one_lt us xs) (c * (x ^ i % p)) (x ^ suc i * v) (c * x ^ i)
                  higher.1 (mul-mod_right_mod c (x ^ i) p)
              ∙ ap (λ t. t % p)
                  (omega (
                    arith,
                    ap (λ (t : ℕ). t * v) (pow-suc x i),
                    mul_assoc (x ^ i) x v,
                    mul-add (x ^ i) c (x * v),
                    mul_comm c (x ^ i),
                  )),
        )
