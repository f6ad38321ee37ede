-- ===== src/SparsePoly/Examples.antt =====
-- Sparse polynomials and polynomials in Newton form at concrete inputs.
use Prim.Native.Nat.{Ordering}
use finiteflow.Base.{ℕ, ◌≤◌, All, [], ◌∷◌, ◌+◌, ◌*◌, ◌%◌, ◌-◌, ◌<◌, ◌≡◌, ◌↔◌, inl, refl, arith}
use finiteflow.Ffmod.{IsModulus}
use finiteflow.Modular.{new_mod}
use finiteflow.SparsePoly.{
  Monomial, SparsePoly, eval, add, sub, mul_univariate_linear, const_term, compare_monomials,
  compare_lex, NewtonPoly, univariate, multivariate, last_coeff, coeff_before, newton_eval,
  to_sparse_poly_var,
}
use finiteflow.SparsePoly.Sums.{IsTerm, IsTerms, IsTerms-mono}
use finiteflow.SparsePoly.Merge.{add-eval, sub_above-eval}
use finiteflow.SparsePoly.Linear.{mul_univariate_linear-eval}
use finiteflow.SparsePoly.Agreement.{
  to_sparse_poly_var-eval, IsPoly, ArePolys, exponent_bound, exponent_bound_coeffs,
}

abbrev prime : ℕ
prime = 101

prime-IsModulus : IsModulus prime
prime-IsModulus = inl (omega arith, omega arith)

abbrev term : ℕ → ℕ → ℕ → Monomial
term c d e = record { coeff = c; degree = d + e; exponents = d ∷ e ∷ [] }

-- 3 x^2 y + 5 y + 7
abbrev cubic : SparsePoly
cubic = record { monomials_ = term 3 2 1 ∷ term 5 0 1 ∷ term 7 0 0 ∷ []; n_vars = 2 }

-- 96 y + 100
abbrev line : SparsePoly
line = record { monomials_ = term 96 0 1 ∷ term 100 0 0 ∷ []; n_vars = 2 }

term-IsTerm : (c d e : ℕ) → c < prime → d < 0x7fff → e < 0x7fff → IsTerm prime 2 0x7fff (term c d e)
term-IsTerm c d e hc hd he = record { coeff_small = hc; arity = refl; bounded = (hd, (he, tt)) }

cubic-IsTerms : IsTerms prime 2 0x7fff cubic.monomials_
cubic-IsTerms = (
  term-IsTerm 3 2 1 (omega arith) (omega arith) (omega arith),
  (
    term-IsTerm 5 0 1 (omega arith) (omega arith) (omega arith),
    (term-IsTerm 7 0 0 (omega arith) (omega arith) (omega arith), tt),
  ),
)

line-IsTerms : IsTerms prime 2 0x7fff line.monomials_
line-IsTerms = (
  term-IsTerm 96 0 1 (omega arith) (omega arith) (omega arith),
  (term-IsTerm 100 0 0 (omega arith) (omega arith) (omega arith), tt),
)

-- The terms in y cancel.
add-eval_example :
    eval (add cubic line (new_mod prime)) (2 ∷ 3 ∷ []) (new_mod prime)
    ≡ (eval cubic (2 ∷ 3 ∷ []) (new_mod prime) + eval line (2 ∷ 3 ∷ []) (new_mod prime)) % prime
add-eval_example =
    add-eval prime prime-IsModulus (omega arith) 2 cubic line (2 ∷ 3 ∷ [])
      (omega arith, (omega arith, tt))
      (IsTerms-mono prime 2 0x7fff 0x1_0000 cubic.monomials_ (omega arith) cubic-IsTerms)
      (IsTerms-mono prime 2 0x7fff 0x1_0000 line.monomials_ (omega arith) line-IsTerms)

abbrev square : SparsePoly
square = record { monomials_ = term 1 2 0 ∷ []; n_vars = 2 }

square_above : All (λ s. compare_monomials s (term 96 0 1) ≡ Ordering.gt) square.monomials_
unfolding compare_monomials compare_lex
square_above = (refl, tt)

square-IsTerms : IsTerms prime 2 0x7fff square.monomials_
square-IsTerms = (term-IsTerm 1 2 0 (omega arith) (omega arith) (omega arith), tt)

-- x^2 - (96 y + 100)
sub_above-eval_example :
    (sub square line (new_mod prime) ≡ add square line (new_mod prime))
    × (eval (sub square line (new_mod prime)) (2 ∷ 3 ∷ []) (new_mod prime)
        ≡ (eval square (2 ∷ 3 ∷ []) (new_mod prime) + eval line (2 ∷ 3 ∷ []) (new_mod prime))
          % prime)
    × ((eval (sub square line (new_mod prime)) (2 ∷ 3 ∷ []) (new_mod prime)
          ≡ (eval square (2 ∷ 3 ∷ []) (new_mod prime)
              + (prime - eval line (2 ∷ 3 ∷ []) (new_mod prime)))
            % prime)
        ↔ (2 * eval line (2 ∷ 3 ∷ []) (new_mod prime) % prime ≡ 0))
sub_above-eval_example =
    sub_above-eval prime prime-IsModulus (omega arith) 2 square (term 96 0 1) (term 100 0 0 ∷ [])
      (2 ∷ 3 ∷ []) (omega arith, (omega arith, tt))
      (IsTerms-mono prime 2 0x7fff 0x1_0000 square.monomials_ (omega arith) square-IsTerms)
      (IsTerms-mono prime 2 0x7fff 0x1_0000 line.monomials_ (omega arith) line-IsTerms) square_above

mul_univariate_linear-eval_example :
    eval (mul_univariate_linear cubic 1 98 (new_mod prime)) (2 ∷ 3 ∷ []) (new_mod prime)
    ≡ (3 + 98) * eval cubic (2 ∷ 3 ∷ []) (new_mod prime) % prime
mul_univariate_linear-eval_example =
    mul_univariate_linear-eval prime prime-IsModulus (omega arith) 2 1 98 cubic (2 ∷ 3 ∷ [])
      (omega arith, (omega arith, tt)) (omega arith) (omega arith) cubic-IsTerms

-- (2 + (y - 1) 3) + (x - 5) (4 + (y - 7) 6)
abbrev bilinear : NewtonPoly
bilinear = multivariate (5 ∷ []) (
    coeff_before (univariate (record { xi_ = 1 ∷ 2 ∷ []; ai_ = 2 ∷ 3 ∷ [] }))
      (last_coeff (univariate (record { xi_ = 7 ∷ 8 ∷ []; ai_ = 4 ∷ 6 ∷ [] }))))

bilinear-IsPoly : IsPoly prime 2 0 bilinear
unfolding IsPoly ArePolys
bilinear-IsPoly = (
  omega arith,
  (omega arith, tt),
  (
    (
      omega arith,
      record {
        same_size = refl;
        points = (omega arith, (omega arith, tt));
        coeffs = (omega arith, (omega arith, tt));
      },
      omega arith,
    ),
    (
      omega arith,
      record {
        same_size = refl;
        points = (omega arith, (omega arith, tt));
        coeffs = (omega arith, (omega arith, tt));
      },
      omega arith,
    ),
  ),
)

bilinear_bound : exponent_bound bilinear ≤ 0x8000
unfolding exponent_bound exponent_bound_coeffs
bilinear_bound = omega arith

to_sparse_poly_var-eval_example :
    eval (to_sparse_poly_var bilinear 2 0 (new_mod prime)) (9 ∷ 3 ∷ []) (new_mod prime)
    ≡ newton_eval bilinear (9 ∷ 3 ∷ []) (new_mod prime)
to_sparse_poly_var-eval_example =
    to_sparse_poly_var-eval prime prime-IsModulus (omega arith) 2 bilinear (9 ∷ 3 ∷ [])
      (omega arith, (omega arith, tt)) bilinear-IsPoly bilinear_bound

const_term_test : const_term cubic ≡ 7
unfolding const_term
const_term_test = refl
