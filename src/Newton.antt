-- ===== src/Newton.antt =====
-- include/fflow/polynomial.hh and src/polynomial.cc: univariate polynomials in Newton form, and the point
-- that src/univariate_reconstruction.cc adds to one in each round. A read out of range gives 0.
pub mod Rows
pub mod Interpolation
pub mod Standard
mod Examples
use finiteflow.Base.{
  ℕ, zero, suc, List, [], ◌∷◌, ◌++◌, ◌+◌, ◌-◌, Bool, true, false, ◌&&◌, not, Option, none, some,
  ltb, leb, ◌==◌, get_or, set, length, drop, take, replicate, if◌then◌else◌,
}
use finiteflow.Modular.{Mod, add_mod, sub_mod, mul_mod, apbc_mod, neg_mod, div_mod}

-- class UPoly, by its coefficients
abbrev pub UPoly : Type 0
UPoly = List ℕ

-- The loop over the coefficients from the last to the first.
unfoldable pub upoly_eval : UPoly → ℕ → Mod → ℕ
upoly_eval [] x m = 0
upoly_eval (c ∷ []) x m = c
upoly_eval (c ∷ d ∷ cs) x m = add_mod (mul_mod (upoly_eval (d ∷ cs) x m) x m) c m

-- The entries after the first, which is 1.
abbrev pub next_terms : ℕ → ℕ → ℕ → Mod → List ℕ
next_terms zero term x m = []
next_terms (suc n) term x m = mul_mod term x m ∷ next_terms n (mul_mod term x m) x m

abbrev pub terms : UPoly → ℕ → Mod → List ℕ
terms poly x m = 1 ∷ next_terms (length poly - 1) 1 x m

abbrev pub get_min_degree : ℕ → UPoly → ℕ
get_min_degree i [] = 0
get_min_degree i (c ∷ cs) = let rest = get_min_degree (suc i) cs in if c == 0 then rest else i

abbrev pub shift_left : UPoly → ℕ → UPoly
shift_left poly n = drop n poly ++ replicate n 0

-- Zeroes at the end go, but for the first coefficient.
abbrev pub trim : List ℕ → List ℕ
trim [] = []
trim (c ∷ cs) = let rest = trim cs in if (length rest == 0) && (c == 0) then [] else c ∷ rest

abbrev pub remove_high_zeroes : List ℕ → List ℕ
remove_high_zeroes cs = take 1 cs ++ trim (drop 1 cs)

-- class NewtonUPoly
pub record NewtonUPoly : Type 0 where
  pub xi_ : List ℕ
  pub ai_ : List ℕ

abbrev pub get_degree : NewtonUPoly → ℕ
get_degree poly = length poly.ai_ - 1

unfoldable pub push_back : NewtonUPoly → ℕ → ℕ → NewtonUPoly
push_back poly xi a = record { xi_ = poly.xi_ ++ xi ∷ []; ai_ = poly.ai_ ++ a ∷ [] }

-- The loop over the coefficients from the last to the first.
unfoldable pub eval_coeffs : List ℕ → List ℕ → ℕ → Mod → ℕ
eval_coeffs [] xs x m = 0
eval_coeffs (a ∷ []) xs x m = a
eval_coeffs (a ∷ b ∷ cs) xs x m =
    let res = eval_coeffs (b ∷ cs) (drop 1 xs) x m in
    add_mod (mul_mod res (sub_mod x (get_or xs 0 0) m) m) a m

unfoldable pub eval : NewtonUPoly → ℕ → Mod → ℕ
unfolding eval_coeffs
eval poly x m = eval_coeffs poly.ai_ poly.xi_ x m

-- The loop over `res` and `term`, for the first `row` coefficients.
unfoldable pub row_loop : ℕ → List ℕ → List ℕ → ℕ → Mod → ℕ → ℕ → ℕ × ℕ
row_loop zero cs xs x m res term = (res, term)
row_loop (suc row) cs xs x m res term =
    row_loop row (drop 1 cs) (drop 1 xs) x m (apbc_mod res (get_or cs 0 0) term m)
      (mul_mod term (sub_mod x (get_or xs 0 0) m) m)

unfoldable pub eval_newton_system_row : NewtonUPoly → ℕ → Mod → ℕ → ℕ × ℕ
unfolding row_loop
eval_newton_system_row poly x m row = row_loop row poly.ai_ poly.xi_ x m 0 1

-- The inner loop of `toStdRep`, with c the negative of the point.
unfoldable pub mul_linear : ℕ → List ℕ → Mod → List ℕ
mul_linear c [] m = []
mul_linear c (a ∷ []) m = a ∷ []
mul_linear c (a ∷ b ∷ cs) m = apbc_mod a c b m ∷ mul_linear c (b ∷ cs) m

unfoldable pub std_coeffs : List ℕ → List ℕ → Mod → UPoly
unfolding mul_linear
std_coeffs [] xs m = []
std_coeffs (a ∷ []) xs m = a ∷ []
std_coeffs (a ∷ b ∷ cs) xs m =
    mul_linear (neg_mod (get_or xs 0 0) m) (a ∷ std_coeffs (b ∷ cs) (drop 1 xs) m) m

unfoldable pub to_std_rep : NewtonUPoly → Mod → UPoly
unfolding std_coeffs
to_std_rep poly m = std_coeffs poly.ai_ poly.xi_ m

-- `UPolyReconstruction::reconstruct`, the coefficient that the value `y` at `x` gives in row `i`.
unfoldable pub newton_coeff : NewtonUPoly → ℕ → ℕ → Mod → ℕ → ℕ
unfolding eval_newton_system_row
newton_coeff poly x y m i =
    let (t0, t1) = eval_newton_system_row poly x m i in div_mod (sub_mod y t0 m) t1 m

-- class UPolyReconstruction
pub record UPolyReconstruction : Type 0 where
  pub poly_ : NewtonUPoly
  pub maxdeg_ : ℕ
  pub n_checks : ℕ
  pub n_singular : ℕ
  pub check_over_maxdeg : Bool

abbrev pub sampling_stride : ℕ
sampling_stride = 12345678901

abbrev pub evaluation_failed : ℕ
evaluation_failed = 0xffff_ffff_ffff_ffff

-- The loop that looks for a point where the evaluation succeeds, `tries` more times.
abbrev pub next_sample : ℕ → (ℕ → ℕ) → ℕ → Mod → Option (ℕ × ℕ)
next_sample zero f x m = if f x == evaluation_failed then none else some (x, f x)
next_sample (suc tries) f x m =
    let later = next_sample tries f (add_mod x sampling_stride m) m in
    if f x == evaluation_failed then later else some (x, f x)

-- The point and the coefficient of row `i`: appended, or written in place.
unfoldable pub put_point : NewtonUPoly → ℕ → ℕ → ℕ → NewtonUPoly
unfolding push_back
put_point poly i x a =
    if ltb (get_degree poly) i
    then push_back poly x a
    else record { xi_ = set poly.xi_ i x; ai_ = set poly.ai_ i a }

-- The round of row `i`, from the point and the value that were found. `rest` is the rest of the loop.
abbrev pub newton_round :
    UPolyReconstruction
    → ℕ
    → Mod
    → ℕ
    → ℕ
    → ℕ × ℕ
    → (ℕ → NewtonUPoly → Bool × NewtonUPoly)
    → NewtonUPoly
    → Bool × NewtonUPoly
newton_round r mindeg m i check_count (x, y) rest poly =
    let a = newton_coeff poly x y m i in
    let is_check = (a == 0) && ltb mindeg i in
    let check_count' = if is_check then check_count + 1 else 0 in
    let poly' = put_point poly i x a in
    if is_check && leb r.n_checks check_count'
    then (true, poly)
    else if not r.check_over_maxdeg && (i == r.maxdeg_)
    then (true, poly')
    else if not (a == 0) && ltb r.maxdeg_ (get_degree poly')
    then (false, poly')
    else rest check_count' poly'

abbrev pub reconstruct_rounds :
    UPolyReconstruction → ℕ → (ℕ → ℕ) → Mod → ℕ → ℕ → ℕ → NewtonUPoly → Bool × NewtonUPoly
reconstruct_rounds r mindeg f m zero i check_count poly = (false, poly)
reconstruct_rounds r mindeg f m (suc n) i check_count poly =
    let x =
      if i == 0
      then get_or poly.xi_ 0 0
      else add_mod (get_or poly.xi_ (i - 1) 0) sampling_stride m in
    elim (next_sample r.n_singular f x m) [
      | none ↦ (false, poly)
      | some sample ↦
          newton_round r mindeg m i check_count sample
            (λ c poly'. reconstruct_rounds r mindeg f m n (suc i) c poly') poly
    ]

-- `UPolyReconstruction::reconstruct`, with true for SUCCESS.
abbrev pub reconstruct : UPolyReconstruction → (ℕ → ℕ) → Mod → Bool × NewtonUPoly
reconstruct r f m =
    reconstruct_rounds r (get_degree r.poly_) f m (r.maxdeg_ + r.n_checks + 1) 0 0 r.poly_
