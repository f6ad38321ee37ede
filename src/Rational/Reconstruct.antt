-- ===== src/Rational/Reconstruct.antt =====
-- src/univariate_reconstruction.cc: `URatFunReconstruction::reconstruct`. The evaluation of the function is
-- a parameter, and a loop runs through its number of rounds.
use finiteflow.Base.{
  ℕ, zero, suc, ◌+◌, ◌-◌, Bool, true, false, ◌&&◌, ◌||◌, not, Option, none, some, leb, ◌==◌, get_or,
  set, length, take, if◌then◌else◌,
}
use finiteflow.Modular.{Mod, add_mod}
use finiteflow.Newton.{sampling_stride, evaluation_failed, next_sample}
use finiteflow.Newton
use finiteflow.Rational.{ThieleURationalFunction, push_back, safe_eval, eval_thiele_system_coeff}

-- class URatFunReconstruction
pub record URatFunReconstruction : Type 0 where
  pub fun_ : ThieleURationalFunction
  pub maxterms_ : ℕ
  pub n_checks : ℕ
  pub n_singular : ℕ

abbrev pub remove_high_zeroes : ThieleURationalFunction → ThieleURationalFunction
remove_high_zeroes f =
    let cs = Newton.remove_high_zeroes f.ai_ in record { ai_ = cs; xi_ = take (length cs) f.xi_ }

pub data Checks : Type 0 where
  passed : Checks
  mismatch : ℕ → Checks
  no_sample : Checks

-- A check at the point that was found, and the rest of the loop.
abbrev pub after_sample : ThieleURationalFunction → Mod → Option (ℕ × ℕ) → (ℕ → Checks) → Checks
after_sample fun m none later = no_sample
after_sample fun m (some (x, y)) later = elim (safe_eval fun x m == y) [
  | true ↦ later x
  | false ↦ mismatch x
]

-- The loop over `check_count`, for the checks that are left after the point `x`. A mismatch gives the
-- point where it is.
unfoldable pub check_loop : ℕ → (ℕ → ℕ) → ThieleURationalFunction → ℕ → ℕ → Mod → Checks
check_loop zero f fun n_singular x m = passed
check_loop (suc left) f fun n_singular x m =
    after_sample fun m (next_sample n_singular f (add_mod x sampling_stride m) m)
      (λ x'. check_loop left f fun n_singular x' m)

pub data Term : Type 0 where
  all_checked : Term
  no_term : Term
  new_term : ℕ → ℕ → Term
  again : ℕ → Term

abbrev pub after_checks : Checks → Term
after_checks passed = all_checked
after_checks (mismatch x) = again x
after_checks no_sample = no_term

-- The body of the loop over `ev` at the point `x`. The term is not ok at the point that `again` holds.
unfoldable pub try_term :
    URatFunReconstruction → (ℕ → ℕ) → ThieleURationalFunction → ℕ → ℕ → Mod → Term
unfolding check_loop
try_term r f fun i x m =
    let y = f x in
    let yrec = safe_eval fun x m in
    let term_ok = not (y == evaluation_failed) && not (yrec == evaluation_failed) in
    let a = eval_thiele_system_coeff fun x y m i in
    elim (term_ok && (yrec == y)) [
      | true ↦ after_checks (check_loop (r.n_checks - 1) f fun r.n_singular x m)
      | false ↦
          if term_ok && not ((a == evaluation_failed) || (a == 0)) then new_term x a else again x
    ]

abbrev pub after_try : Term → (ℕ → Term) → Term
after_try all_checked later = all_checked
after_try no_term later = no_term
after_try (new_term x a) later = new_term x a
after_try (again x) later = later x

-- The loop over `ev`, for the tries that are left.
unfoldable pub find_term :
    ℕ → URatFunReconstruction → (ℕ → ℕ) → ThieleURationalFunction → ℕ → ℕ → Mod → Term
unfolding try_term
find_term zero r f fun i x m = after_try (try_term r f fun i x m) (λ x'. no_term)
find_term (suc tries) r f fun i x m =
    after_try (try_term r f fun i x m) (λ x'. find_term tries r f fun i (add_mod x' 1 m) m)

abbrev pub put_term : ThieleURationalFunction → ℕ → ℕ → ℕ → ThieleURationalFunction
put_term fun i x a =
    if leb (length fun.ai_) i
    then push_back fun x a
    else record { ai_ = set fun.ai_ i a; xi_ = set fun.xi_ i x }

-- What follows the search for the term of round `i`.
abbrev pub after_term :
    URatFunReconstruction
    → ThieleURationalFunction
    → ℕ
    → Term
    → (ThieleURationalFunction → Bool × ThieleURationalFunction)
    → Bool × ThieleURationalFunction
after_term r fun i all_checked later = (true, remove_high_zeroes fun)
after_term r fun i no_term later = (false, fun)
after_term r fun i (again x) later = (false, fun)
after_term r fun i (new_term x a) later = elim (leb r.maxterms_ (length fun.ai_)) [
  | true ↦ (false, fun)
  | false ↦ later (put_term fun i x a)
]

-- The loop over `i`, for the rounds that are left, with true for SUCCESS.
unfoldable pub reconstruct_terms :
    ℕ
    → URatFunReconstruction
    → (ℕ → ℕ)
    → ThieleURationalFunction
    → ℕ
    → Mod
    → Bool × ThieleURationalFunction
unfolding find_term
reconstruct_terms zero r f fun i m = (false, fun)
reconstruct_terms (suc rounds) r f fun i m =
    let x =
      if i == 0 then get_or fun.xi_ 0 0 else add_mod (get_or fun.xi_ (i - 1) 0) sampling_stride m in
    after_term r fun i (find_term r.n_singular r f fun i x m)
      (λ fun'. reconstruct_terms rounds r f fun' (suc i) m)

unfoldable pub reconstruct : URatFunReconstruction → (ℕ → ℕ) → Mod → Bool × ThieleURationalFunction
unfolding reconstruct_terms
reconstruct r f m = reconstruct_terms (r.maxterms_ + r.n_checks) r f r.fun_ 0 m
