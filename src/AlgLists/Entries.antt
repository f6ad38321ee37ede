-- ===== src/AlgLists/Entries.antt =====
-- src/alg_lists.cc: `AddOne`, and `Mul`, which multiplies lists of the same length entry by entry.
use finiteflow.Base.{ℕ, List, [], ◌∷◌, Option, none, some, ◌==◌, replicate, if◌then◌else◌}
use mathlib.Core.Option
use finiteflow.Modular.{Mod, add_mod, mul_mod}
use finiteflow.AlgLists.{read, upto, for_each}

-- class AddOne, with the base class's `nparsin` and `nparsout`
pub record AddOne : Type 0 where
  pub nparsin : List ℕ
  pub nparsout : ℕ

unfoldable pub add_one_init : ℕ → AddOne
add_one_init input_len = record { nparsin = input_len ∷ []; nparsout = input_len }

unfoldable pub add_one_evaluate : AddOne → List (List ℕ) → Mod → Option (List ℕ)
add_one_evaluate a xin m =
    for_each (λ i. Option.map (λ x. add_mod x 1 m) (read xin 0 i)) (upto 0 a.nparsout)

-- class Mul, with the base class's `nparsin` and `nparsout`
pub record Mul : Type 0 where
  pub nparsin : List ℕ
  pub nparsout : ℕ

unfoldable pub mul_init : ℕ → ℕ → Mul
mul_init nlists list_len = record { nparsin = replicate nlists list_len; nparsout = list_len }

-- The inner loop; a factor 1 is skipped.
unfoldable pub mul_entries : Mod → List ℕ → List ℕ → Option (List ℕ)
mul_entries m [] ys = some []
mul_entries m (x ∷ xs) [] = none
mul_entries m (x ∷ xs) (y ∷ ys) =
    Option.map (λ zs. (if y == 1 then x else mul_mod x y m) ∷ zs) (mul_entries m xs ys)

unfoldable pub mul_loop : Mod → List ℕ → List (List ℕ) → List ℕ → Option (List ℕ)
unfolding mul_entries
mul_loop m [] xin xout = some xout
mul_loop m (k ∷ ks) [] xout = none
mul_loop m (k ∷ ks) (l ∷ xin) xout = elim (mul_entries m xout l) [
  | none ↦ none
  | some xout' ↦ mul_loop m ks xin xout'
]

unfoldable pub mul_evaluate : Mul → List (List ℕ) → Mod → Option (List ℕ)
unfolding mul_loop
mul_evaluate a xin m = mul_loop m a.nparsin xin (replicate a.nparsout 1)
