-- ===== src/Rational.antt =====
-- include/fflow/rational_function.hh and src/rational_function.cc: univariate rational functions, in
-- standard form and as the continued fractions of Thiele's interpolation, and Laurent expansions. A read
-- out of range gives 0. The end of a function by `return FAILED` is none in the loops.
pub mod Fraction
pub mod System
pub mod Thiele
pub mod Laurent
pub mod Reconstruct
pub mod Samples
pub mod Agreement
pub mod Checks
mod Examples
use finiteflow.Base.{
  ℕ, zero, suc, List, [], ◌∷◌, ◌++◌, map, ◌+◌, ◌-◌, Bool, true, false, ◌&&◌, not, Option, none,
  some, ltb, ◌==◌, get_or, length, drop, take, min, if◌then◌else◌,
}
use finiteflow.Base.Int.{ℤ, pos, negsuc, ◌-ℤ◌}
use finiteflow.Modular.{Mod, add_mod, sub_mod, mul_mod, apbc_mod, neg_mod, mul_inv, div_mod}
use finiteflow.Newton.{UPoly, upoly_eval, shift_left, remove_high_zeroes, evaluation_failed}

-- class URationalFunction
pub record URationalFunction : Type 0 where
  pub num_ : UPoly
  pub den_ : UPoly

unfoldable pub eval : URationalFunction → ℕ → Mod → ℕ
eval f x m = div_mod (upoly_eval f.num_ x m) (upoly_eval f.den_ x m) m

abbrev pub invert : URationalFunction → URationalFunction
invert f = record { num_ = f.den_; den_ = f.num_ }

abbrev pub is_undefined : URationalFunction → Bool
is_undefined f = (length f.num_ == 1) && (length f.den_ == 1) && (get_or f.den_ 0 0 == 0)

-- The loops of `normalize` that look for a non-zero coefficient.
abbrev pub leading_zeroes : UPoly → ℕ
leading_zeroes [] = 0
leading_zeroes (c ∷ cs) = let rest = leading_zeroes cs in if c == 0 then suc rest else 0

-- The part of `normalize` from the norm on, for the first non-zero coefficient `i` of the denominator.
unfoldable pub normalize_at : ℕ → URationalFunction → Mod → URationalFunction
normalize_at i f m =
    let norm = mul_inv (get_or f.den_ i 0) m in
    record {
      num_ = remove_high_zeroes (map (λ c. mul_mod c norm m) f.num_);
      den_ =
          remove_high_zeroes
            (take i f.den_ ++ 1 ∷ map (λ c. mul_mod c norm m) (drop (i + 1) f.den_));
    }

unfoldable pub normalize : URationalFunction → Mod → URationalFunction
unfolding normalize_at
normalize f m =
    let i = leading_zeroes f.den_ in
    let inum = leading_zeroes f.num_ in
    let r = min inum i in
    if i == length f.den_
    then record { num_ = 0 ∷ []; den_ = 0 ∷ [] }
    else if inum == length f.num_
    then record { num_ = 0 ∷ []; den_ = 1 ∷ [] }
    else if r == 0
    then normalize_at i f m
    else normalize_at (i - r) (record { num_ = shift_left f.num_ r; den_ = shift_left f.den_ r }) m

-- class ThieleURationalFunction
pub record ThieleURationalFunction : Type 0 where
  pub ai_ : List ℕ
  pub xi_ : List ℕ

unfoldable pub push_back : ThieleURationalFunction → ℕ → ℕ → ThieleURationalFunction
push_back f xi a = record { ai_ = f.ai_ ++ a ∷ []; xi_ = f.xi_ ++ xi ∷ [] }

-- The loop of `eval` over `res`, from the last coefficient to the first.
unfoldable pub eval_terms : List ℕ → List ℕ → ℕ → Mod → ℕ
eval_terms [] xs x m = 0
eval_terms (a ∷ []) xs x m = a
eval_terms (a ∷ b ∷ cs) xs x m =
    let res = eval_terms (b ∷ cs) (drop 1 xs) x m in
    add_mod (div_mod (sub_mod x (get_or xs 0 0) m) res m) a m

unfoldable pub thiele_eval : ThieleURationalFunction → ℕ → Mod → ℕ
unfolding eval_terms
thiele_eval f x m = eval_terms f.ai_ f.xi_ x m

-- The loop of `safe_eval` over `num` and `den`.
unfoldable pub fraction : List ℕ → List ℕ → ℕ → Mod → ℕ × ℕ
fraction [] xs x m = (0, 1)
fraction (a ∷ []) xs x m = (a, 1)
fraction (a ∷ b ∷ cs) xs x m =
    let (num, den) = fraction (b ∷ cs) (drop 1 xs) x m in
    (apbc_mod (mul_mod den (sub_mod x (get_or xs 0 0) m) m) a num m, num)

unfoldable pub safe_eval : ThieleURationalFunction → ℕ → Mod → ℕ
unfolding fraction
safe_eval f x m =
    let (num, den) = fraction f.ai_ f.xi_ x m in
    if den == 0 then evaluation_failed else div_mod num den m

-- The loop of `evalThieleSystemCoeff` over `num` and `den`, from the coefficient and the point of `j` on.
unfoldable pub system_loop : ℕ → List ℕ → List ℕ → ℕ → Mod → ℕ → ℕ → Option (ℕ × ℕ)
system_loop zero cs xs x m num den = some (num, den)
system_loop (suc rounds) cs xs x m num den =
    let num' = apbc_mod num (get_or cs 0 0) (neg_mod den m) m in
    let rest =
      system_loop rounds (drop 1 cs) (drop 1 xs) x m (mul_mod den (sub_mod x (get_or xs 0 0) m) m)
        num' in
    if num' == 0 then none else rest

abbrev pub quotient_or_failed : Option (ℕ × ℕ) → Mod → ℕ
quotient_or_failed none m = evaluation_failed
quotient_or_failed (some (num, den)) m = if den == 0 then evaluation_failed else div_mod num den m

unfoldable pub eval_thiele_system_coeff : ThieleURationalFunction → ℕ → ℕ → Mod → ℕ → ℕ
unfolding system_loop
eval_thiele_system_coeff f x y m i =
    let num = sub_mod x (get_or f.xi_ 0 0) m in
    let den = sub_mod y (get_or f.ai_ 0 0) m in
    if i == 0
    then y
    else quotient_or_failed (system_loop (i - 1) (drop 1 f.ai_) (drop 1 f.xi_) x m num den) m

-- The loops of `laurent_expansion_learn`, which stop at the last coefficient.
abbrev pub low_zeroes : List ℕ → ℕ
low_zeroes [] = 0
low_zeroes (c ∷ []) = 0
low_zeroes (c ∷ d ∷ cs) = let rest = low_zeroes (d ∷ cs) in if c == 0 then suc rest else 0

-- The loop over `sub`: the coefficients before, the last one first, meet the denominator from 1 on.
unfoldable pub sub_loop : ℕ → List ℕ → List ℕ → Mod → ℕ
sub_loop sub [] ds m = sub
sub_loop sub (c ∷ cs) [] m = sub
sub_loop sub (c ∷ cs) (d ∷ ds) m = sub_loop (apbc_mod sub c d m) cs ds m

abbrev pub next_coeff : List ℕ → ℕ → Mod → ℕ
next_coeff [] sub m = neg_mod sub m
next_coeff (c ∷ cs) sub m = sub_mod c sub m

-- The loop over `i`. The coefficients before are given with the last one first, and `nums` is the
-- numerator from `i` on.
unfoldable pub expansion_loop : ℕ → List ℕ → List ℕ → List ℕ → Mod → List ℕ
unfolding sub_loop
expansion_loop zero before nums ds m = []
expansion_loop (suc n) before nums ds m =
    let sub = sub_loop 0 before ds m in
    let c = next_coeff nums sub m in c ∷ expansion_loop n (c ∷ before) (drop 1 nums) ds m

unfoldable pub laurent_expansion_learn : UPoly → UPoly → ℤ
laurent_expansion_learn num den = pos (low_zeroes num) -ℤ pos (low_zeroes den)

-- How far the pointers to the numerator and to the denominator are moved.
abbrev pub num_shift : ℤ → ℕ
num_shift (pos n) = n
num_shift (negsuc n) = 0

abbrev pub den_shift : ℤ → ℕ
den_shift (pos n) = 0
den_shift (negsuc n) = suc n

-- The coefficients that are written: none if `pref_exp` is above the order.
unfoldable pub laurent_expansion : UPoly → UPoly → ℤ → Mod → ℤ → List ℕ
unfolding expansion_loop
laurent_expansion num den order m pref_exp =
    let nums = drop (num_shift pref_exp) num in
    let dens = drop (den_shift pref_exp) den in
    let first = get_or nums 0 0 in
    elim (order -ℤ pref_exp) [
      | negsuc k ↦ []
      | pos n ↦ first ∷ expansion_loop n (first ∷ []) (drop 1 nums) (drop 1 dens) m
    ]
