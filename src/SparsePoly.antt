-- ===== src/SparsePoly.antt =====
-- include/fflow/polynomial.hh and src/polynomial.cc: sparse polynomials in several variables, from the
-- greatest monomial to the least, and polynomials in several variables in Newton form. An exponent is a
-- 16-bit integer, here by its bits. A move of a monomial is a copy of it, since the other polynomial is
-- cleared.
pub mod Sums
pub mod Merge
pub mod Linear
pub mod Conversion
pub mod Agreement
mod Examples
use Prim.Native.Nat.{compare, Ordering}
use finiteflow.Base.{
  ℕ, zero, suc, List, [], ◌∷◌, ◌++◌, map, ◌+◌, ◌-◌, ◌%◌, Bool, true, false, ltb, ◌==◌, get_or, set,
  drop, replicate, if◌then◌else◌,
}
use finiteflow.Modular.{Mod, add_mod, sub_mod, mul_mod, neg_mod, mul_inv, power}
use finiteflow.Newton.{UPoly, NewtonUPoly, to_std_rep}
use finiteflow.Newton

-- class Monomial, with the number of variables as the length of its exponents
pub record Monomial : Type 0 where
  pub coeff : ℕ
  pub degree : ℕ
  pub exponents : List ℕ

-- An exponent as the `unsigned` that `power` takes: the sign is extended.
abbrev pub unsigned_of : ℕ → ℕ
unsigned_of e = if ltb e 0x8000 then e else e + 0xffff_0000

abbrev pub add16 : ℕ → ℕ → ℕ
add16 e k = (e + k) % 0x1_0000

-- The order of the signed values.
abbrev pub compare_exponents : ℕ → ℕ → Ordering
compare_exponents d e = compare (add16 d 0x8000) (add16 e 0x8000)

unfoldable pub compare_lex : List ℕ → List ℕ → Ordering
compare_lex (d ∷ ds) (e ∷ es) = elim (compare_exponents d e) [
  | Ordering.eq ↦ compare_lex ds es
  | Ordering.lt ↦ Ordering.lt
  | Ordering.gt ↦ Ordering.gt
]
compare_lex [] es = Ordering.eq
compare_lex (d ∷ ds) [] = Ordering.eq

unfoldable pub compare_monomials : Monomial → Monomial → Ordering
unfolding compare_lex
compare_monomials m1 m2 = elim (compare_exponents m1.degree m2.degree) [
  | Ordering.eq ↦ compare_lex m1.exponents m2.exponents
  | Ordering.lt ↦ Ordering.lt
  | Ordering.gt ↦ Ordering.gt
]

-- The loop of `MonomialOp::eval` over `res`.
unfoldable pub eval_powers : ℕ → List ℕ → List ℕ → Mod → ℕ
eval_powers res [] xs m = res
eval_powers res (e ∷ es) xs m =
    eval_powers (mul_mod res (power (get_or xs 0 0) (unsigned_of e) m) m) es (drop 1 xs) m

unfoldable pub eval_monomial : Monomial → List ℕ → Mod → ℕ
unfolding eval_powers
eval_monomial t xs m = eval_powers t.coeff t.exponents xs m

-- class SparsePoly
pub record SparsePoly : Type 0 where
  pub monomials_ : List Monomial
  pub n_vars : ℕ

-- The loop of `eval` over `res`.
unfoldable pub eval_sum : ℕ → List Monomial → List ℕ → Mod → ℕ
unfolding eval_monomial
eval_sum res [] xs m = res
eval_sum res (t ∷ ts) xs m = eval_sum (add_mod res (eval_monomial t xs m) m) ts xs m

unfoldable pub eval : SparsePoly → List ℕ → Mod → ℕ
unfolding eval_sum
eval poly xs m = eval_sum 0 poly.monomials_ xs m

-- The monomials of one total degree, which stand together.
abbrev pub from_degree_on : ℕ → List Monomial → List Monomial
from_degree_on d [] = []
from_degree_on d (t ∷ ts) =
    let rest = from_degree_on d ts in if unsigned_of t.degree == d then t ∷ ts else rest

abbrev pub of_degree : ℕ → List Monomial → List Monomial
of_degree d [] = []
of_degree d (t ∷ ts) =
    let rest = of_degree d ts in if unsigned_of t.degree == d then t ∷ rest else []

unfoldable pub eval_degree : ℕ → SparsePoly → List ℕ → Mod → ℕ
unfolding eval_sum
eval_degree d poly xs m = eval_sum 0 (of_degree d (from_degree_on d poly.monomials_)) xs m

abbrev pub last_or : Monomial → List Monomial → Monomial
last_or d [] = d
last_or d (t ∷ ts) = last_or t ts

unfoldable pub const_term : SparsePoly → ℕ
const_term poly =
    let last = last_or (record { coeff = 0; degree = 0; exponents = [] }) poly.monomials_ in
    if last.degree == 0 then last.coeff else 0

unfoldable pub degree : SparsePoly → ℕ
degree poly = elim poly.monomials_ [ [] ↦ 0 | t ∷ ts ↦ unsigned_of t.degree ]

-- SparseAddOP and SparseSubOP
pub record AddOp : Type 0 where
  pub binary : ℕ → ℕ → ℕ
  pub unary : ℕ → ℕ

abbrev pub sparse_add_op : Mod → AddOp
sparse_add_op m = record { binary = λ x y. add_mod x y m; unary = λ x. x }

abbrev pub sparse_sub_op : Mod → AddOp
sparse_sub_op m = record { binary = λ x y. sub_mod x y m; unary = λ x. neg_mod x m }

-- The loops of `add_` on what is left of both polynomials. When the first one has come to its end, the
-- rest of the second one is appended as it is.
unfoldable pub merge : AddOp → List Monomial → List Monomial → List Monomial
merge op [] ts = ts
merge op (s ∷ ss) [] = s ∷ ss
merge op (s ∷ ss) (t ∷ ts) = elim (compare_monomials s t) [
  | Ordering.gt ↦ s ∷ merge op ss (t ∷ ts)
  | Ordering.eq ↦
      let rest = merge op ss ts in
      let c = op.binary s.coeff t.coeff in if c == 0 then rest else record s { coeff = c } ∷ rest
  | Ordering.lt ↦ record t { coeff = op.unary t.coeff } ∷ merge op (s ∷ ss) ts
]

unfoldable pub add : SparsePoly → SparsePoly → Mod → SparsePoly
unfolding merge
add poly oth m = record poly { monomials_ = merge (sparse_add_op m) poly.monomials_ oth.monomials_ }

unfoldable pub sub : SparsePoly → SparsePoly → Mod → SparsePoly
unfolding merge
sub poly oth m = record poly { monomials_ = merge (sparse_sub_op m) poly.monomials_ oth.monomials_ }

unfoldable pub scale : ℕ → List Monomial → Mod → List Monomial
scale c ts m = map (λ (t : Monomial). record t { coeff = mul_mod t.coeff c m }) ts

unfoldable pub mul : SparsePoly → ℕ → Mod → SparsePoly
unfolding scale
mul poly c m = record poly { monomials_ = if c == 0 then [] else scale c poly.monomials_ m }

unfoldable pub neg : SparsePoly → Mod → SparsePoly
neg poly m = record poly {
  monomials_ = map (λ (t : Monomial). record t { coeff = neg_mod t.coeff m }) poly.monomials_;
}

-- A factor x_var
unfoldable pub raise : ℕ → Monomial → Monomial
raise var t = record t {
  degree = add16 t.degree 1;
  exponents = set t.exponents var (add16 (get_or t.exponents var 0) 1);
}

unfoldable pub mul_univariate_linear : SparsePoly → ℕ → ℕ → Mod → SparsePoly
unfolding mul raise add
mul_univariate_linear poly var c m =
    let oth = mul poly c m in
    add (record poly { monomials_ = map (raise var) poly.monomials_ }) oth m

-- The monomials of `fromUnivariate`, from degree `i` on.
unfoldable pub univariate_terms : ℕ → ℕ → ℕ → UPoly → List Monomial
univariate_terms n_vars var i [] = []
univariate_terms n_vars var i (c ∷ cs) =
    let higher = univariate_terms n_vars var (suc i) cs in
    let exponent = i % 0x1_0000 in
    let here : List Monomial =
      if c == 0
      then []
      else record {
        coeff = c;
        degree = exponent;
        exponents = set (replicate n_vars 0) var exponent;
      }
        ∷ [] in
    higher ++ here

unfoldable pub from_univariate : ℕ → UPoly → ℕ → SparsePoly
unfolding univariate_terms
from_univariate n_vars up var = record {
  monomials_ = univariate_terms n_vars var 0 up;
  n_vars = n_vars;
}

unfoldable pub from_const : ℕ → ℕ → SparsePoly
from_const n_vars c = record {
  monomials_ =
      if c == 0 then [] else record { coeff = c; degree = 0; exponents = replicate n_vars 0 } ∷ [];
  n_vars = n_vars;
}

abbrev pub remove_zeroes : List Monomial → List Monomial
remove_zeroes [] = []
remove_zeroes (t ∷ ts) = let rest = remove_zeroes ts in if t.coeff == 0 then rest else t ∷ rest

-- class NewtonPoly, with the points of class NewtonMPoly, and its coefficients from the lowest on
mutual
  pub data NewtonPoly : Type 0 where
    univariate : NewtonUPoly → NewtonPoly
    multivariate : List ℕ → NewtonCoeffs → NewtonPoly

  pub data NewtonCoeffs : Type 0 where
    last_coeff : NewtonPoly → NewtonCoeffs
    coeff_before : NewtonPoly → NewtonCoeffs → NewtonCoeffs

-- `NewtonPoly::eval`; the loop of `NewtonMPoly::eval` runs from the last coefficient to the first.
unfoldable mutual
  pub newton_eval : NewtonPoly → List ℕ → Mod → ℕ
  newton_eval (univariate poly) xs m = Newton.eval poly (get_or xs 0 0) m
  newton_eval (multivariate zs cs) xs m = newton_eval_coeffs cs zs (get_or xs 0 0) (drop 1 xs) m

  pub newton_eval_coeffs : NewtonCoeffs → List ℕ → ℕ → List ℕ → Mod → ℕ
  newton_eval_coeffs (last_coeff a) zs x xs m = newton_eval a xs m
  newton_eval_coeffs (coeff_before a cs) zs x xs m =
      let res = newton_eval_coeffs cs (drop 1 zs) x xs m in
      add_mod (mul_mod res (sub_mod x (get_or zs 0 0) m) m) (newton_eval a xs m) m

-- `NewtonPoly::toSparsePolyVar`
unfoldable mutual
  unfolding from_univariate mul_univariate_linear add

  pub to_sparse_poly_var : NewtonPoly → ℕ → ℕ → Mod → SparsePoly
  to_sparse_poly_var (univariate poly) n_vars first_var m =
      from_univariate n_vars (to_std_rep poly m) first_var
  to_sparse_poly_var (multivariate zs cs) n_vars first_var m =
      sparse_coeffs cs zs n_vars first_var m

  pub sparse_coeffs : NewtonCoeffs → List ℕ → ℕ → ℕ → Mod → SparsePoly
  sparse_coeffs (last_coeff a) zs n_vars first_var m = to_sparse_poly_var a n_vars (suc first_var) m
  sparse_coeffs (coeff_before a cs) zs n_vars first_var m =
      let res = sparse_coeffs cs (drop 1 zs) n_vars first_var m in
      let tmp = to_sparse_poly_var a n_vars (suc first_var) m in
      add (mul_univariate_linear res first_var (neg_mod (get_or zs 0 0) m) m) tmp m
