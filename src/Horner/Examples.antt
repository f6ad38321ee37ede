-- ===== src/Horner/Examples.antt =====
-- A Horner function at concrete values.
use finiteflow.Base.{ℕ, zero, suc, List, [], ◌∷◌, ◌%◌, ◌<◌, ◌≡◌, inl, refl, arith, get_or}
use finiteflow.Modular.{new_mod, precomp_mul_shoup}
use finiteflow.Horner.{horner_eval, horner_end, horner_required_workspace}
use finiteflow.Horner.Encoding.{Nested, nested_value, encode, IsNested}
use finiteflow.Horner.Value.{horner_eval_lem}

-- (y + 2) x^2 + 3
abbrev quadratic : Nested 1
quadratic = (1 ∷ 2 ∷ []) ∷ [] ∷ (3 ∷ []) ∷ []

quadratic_stream :
    encode 1 (quadratic ∷ []) [] ≡ 2 ∷ 1 ∷ 2 ∷ 0 ∷ 1 ∷ 3 ∷ horner_end ∷ 3 ∷ horner_end ∷ []
quadratic_stream = refl

quadratic_workspace : horner_required_workspace (encode 1 (quadratic ∷ []) []) ≡ 3
quadratic_workspace = refl

quadratic_value : nested_value 1 quadratic (5 ∷ 7 ∷ []) ≡ 228
quadratic_value = refl

quadratic-IsNested : IsNested 101 1 quadratic
quadratic-IsNested = (
  (
    ((omega arith, (omega arith, tt)), omega arith),
    ((tt, omega arith), (((omega arith, tt), omega arith), tt)),
  ),
  omega arith,
)

abbrev quotients : List ℕ
quotients = precomp_mul_shoup 5 (new_mod 101) ∷ precomp_mul_shoup 7 (new_mod 101) ∷ []

quotients_lem :
    (i : ℕ)
    → i < 2
    → get_or quotients i 0 ≡ precomp_mul_shoup (get_or (5 ∷ 7 ∷ []) i 0) (new_mod 101)
quotients_lem zero inside = refl
quotients_lem (suc zero) inside = refl
quotients_lem (suc (suc i)) inside = absurd (omega (arith, inside))

horner_eval_lem_example :
    horner_eval (encode 1 (quadratic ∷ []) []) 2 (5 ∷ 7 ∷ []) quotients (new_mod 101)
    ≡ nested_value 1 quadratic (5 ∷ 7 ∷ []) % 101
horner_eval_lem_example =
    horner_eval_lem 101 (inl (omega arith, omega arith)) (omega arith) 1 quadratic (5 ∷ 7 ∷ [])
      quotients quadratic-IsNested (omega arith, (omega arith, tt)) quotients_lem
