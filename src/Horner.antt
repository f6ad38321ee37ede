-- ===== src/Horner.antt =====
-- Horner functions of include/fflow/polynomial.hh, src/polynomial.cc and src/rational_function.cc. The data
-- is a stream of words: for the last variable the polynomials with their numbers of coefficients, for each
-- other variable the numbers of coefficients, and HORNER_END after each variable. The loops read the
-- workspace ahead of where they write it, so here it is a list that is consumed and another that is
-- written. A stream that ends too early ends the loops.
pub mod Encoding
pub mod Value
mod Examples
use finiteflow.Base.{
  ℕ, zero, suc, List, [], ◌∷◌, ◌-◌, Option, none, some, ◌==◌, get_or, length, drop, take,
  if◌then◌else◌,
}
use finiteflow.Modular.{Mod, add_mod, mul_mod_shoup, div_mod}
use finiteflow.Newton.{evaluation_failed}

abbrev pub horner_end : ℕ
horner_end = 0xffff_ffff_ffff_ffff

-- The inner loop over `tmp`.
unfoldable pub horner_loop : ℕ → List ℕ → ℕ → ℕ → Mod → ℕ
horner_loop tmp [] xv xvp m = tmp
horner_loop tmp (c ∷ cs) xv xvp m =
    horner_loop (add_mod (mul_mod_shoup tmp xv xvp m) c m) cs xv xvp m

-- The loop over the univariate polynomials, at most `fuel` of them: the workspace and the stream from the
-- end mark on.
unfoldable pub univariate_loop : ℕ → List ℕ → ℕ → ℕ → Mod → List ℕ × List ℕ
unfolding horner_loop
univariate_loop zero c xv xvp m = ([], c)
univariate_loop (suc fuel) [] xv xvp m = ([], [])
univariate_loop (suc fuel) (n ∷ c) xv xvp m =
    let (ww, rest) = univariate_loop fuel (drop n c) xv xvp m in
    if n == horner_end then ([], n ∷ c) else (horner_loop 0 (take n c) xv xvp m ∷ ww, rest)

-- The loop for another variable. A polynomial without coefficients skips one entry of the workspace.
unfoldable pub variable_loop : List ℕ → List ℕ → ℕ → ℕ → Mod → List ℕ × List ℕ
unfolding horner_loop
variable_loop [] wr xv xvp m = ([], [])
variable_loop (n ∷ c) wr xv xvp m =
    let (ww, rest) = variable_loop c (drop (if n == 0 then 1 else n) wr) xv xvp m in
    if n == horner_end then ([], n ∷ c) else (horner_loop 0 (take n wr) xv xvp m ∷ ww, rest)

-- The loop over the variables before `var`, the last one first.
unfoldable pub variables_loop : ℕ → List ℕ → List ℕ → List ℕ → List ℕ → Mod → List ℕ
unfolding variable_loop
variables_loop zero c workspace x xp m = workspace
variables_loop (suc var) c workspace x xp m =
    let (ww, rest) = variable_loop (drop 1 c) workspace (get_or x var 0) (get_or xp var 0) m in
    variables_loop var rest ww x xp m

unfoldable pub horner_eval : List ℕ → ℕ → List ℕ → List ℕ → Mod → ℕ
unfolding univariate_loop variables_loop
horner_eval c nvars x xp m =
    let (workspace, rest) =
      univariate_loop (length c) c (get_or x (nvars - 1) 0) (get_or xp (nvars - 1) 0) m in
    get_or (variables_loop (nvars - 1) rest workspace x xp m) 0 0

-- The loop over `size`, at most `fuel` rounds.
abbrev pub required_workspace_loop : ℕ → List ℕ → ℕ
required_workspace_loop zero c = 0
required_workspace_loop (suc fuel) [] = 0
required_workspace_loop (suc fuel) (n ∷ c) =
    let rest = required_workspace_loop fuel (drop n c) in if n == horner_end then 0 else suc rest

abbrev pub horner_required_workspace : List ℕ → ℕ
horner_required_workspace c = required_workspace_loop (length c) c

-- A null pointer is none.
unfoldable pub horner_ratfun_eval :
    Option (List ℕ) → Option (List ℕ) → ℕ → List ℕ → List ℕ → Mod → ℕ
unfolding horner_eval
horner_ratfun_eval none dend nvars x xp m = 0
horner_ratfun_eval (some numd) none nvars x xp m = evaluation_failed
horner_ratfun_eval (some numd) (some dend) nvars x xp m =
    let den = horner_eval dend nvars x xp m in
    let num = horner_eval numd nvars x xp m in
    if den == 0 then evaluation_failed else if den == 1 then num else div_mod num den m
