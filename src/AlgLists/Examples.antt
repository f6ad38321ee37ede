-- ===== src/AlgLists/Examples.antt =====
-- Runs of the list algorithms, and their theorems at concrete inputs.
use finiteflow.Base.{◌⊎◌, ◌≢◌}
use finiteflow.Ffmod.{ff_precomputed_reciprocal_mod, ff_add_mod, ff_mul_mod}
use finiteflow.Modular.{add_mod, mul_mod}
use finiteflow.AlgLists.MatrixMul.{matrix_mul_init, matrix_mul_evaluate}
use finiteflow.AlgLists.NonZeroes.{
  NonZeroes, not_learned, positions, scatter, non_zeroes_learn, non_zeroes_evaluate,
  non_zeroes_learn-again, non_zeroes-roundtrip,
}
use finiteflow.Base.{replicate}
use finiteflow.AlgLists.{
  TakeAndAdd, take_and_add_init, take_and_add_evaluate, InputElBl, TakeAndAddBl,
  take_and_add_bl_init, take_and_add_bl_evaluate,
}
use finiteflow.AlgLists.Sums.{
  Residues, total, total_products, take_and_add-evaluate, take_and_add_bl-evaluate,
}
use finiteflow.Modular.{new_mod}
use finiteflow.Base.{zero, suc, ◌%◌, inl, arith}
use finiteflow.Base.{ℕ, List, [], ◌∷◌, some, ◌≡◌, refl, map, arith}
use finiteflow.AlgLists.{success, failed, InputEl, Take, take_init, Slice, slice_init}

abbrev inputs : List (List ℕ)
inputs = (10 ∷ 20 ∷ []) ∷ (30 ∷ []) ∷ []

abbrev pattern_ : List InputEl
pattern_ = record { list = 1; el = 0 } ∷ record { list = 0; el = 1 } ∷ []

abbrev empty_take : Take
empty_take = record { nparsin = []; nparsout = 0; elems_ = [] }

abbrev full_take : Take
full_take = record { nparsin = 2 ∷ 1 ∷ []; nparsout = 2; elems_ = pattern_ }

accepted : take_init empty_take (2 ∷ 1 ∷ []) pattern_ ≡ (success, full_take)
unfolding take_init
accepted = refl

refused : (take_init empty_take (2 ∷ []) pattern_).0 ≡ failed
unfolding take_init
refused = refl

abbrev empty_slice : Slice
empty_slice = record { nparsin = []; nparsout = 0; start_ = 0; end_ = 0 }

abbrev full_slice : Slice
full_slice = record { nparsin = 4 ∷ []; nparsout = 2; start_ = 1; end_ = 3 }

sliced : slice_init empty_slice 4 1 3 ≡ (success, full_slice)
unfolding slice_init
sliced = refl

inputs-Residues : Residues 101 inputs
inputs-Residues zero zero x e = ground arith
inputs-Residues zero (suc zero) x e = ground arith
inputs-Residues zero (suc (suc j)) x e = absurd (ground arith)
inputs-Residues (suc zero) zero x e = ground arith
inputs-Residues (suc zero) (suc j) x e = absurd (ground arith)
inputs-Residues (suc (suc i)) j x e = absurd (ground arith)

abbrev sums : List (List InputEl)
sums = pattern_ ∷ []

abbrev full_sums : TakeAndAdd
full_sums = record { nparsin = 2 ∷ 1 ∷ []; nparsout = 1; elems_ = sums }

sums_accepted :
    take_and_add_init (record { nparsin = []; nparsout = 0; elems_ = [] }) (2 ∷ 1 ∷ []) sums
    ≡ (success, full_sums)
unfolding take_and_add_init
sums_accepted = refl

take_and_add-evaluate_example :
    (take_and_add_evaluate full_sums inputs (new_mod 101)
      ≡ some (map (λ l. total inputs l % 101) sums))
    × (full_sums.nparsout ≡ 1)
take_and_add-evaluate_example =
    take_and_add-evaluate 101 (inl (omega arith, omega arith)) inputs inputs-Residues
      (record { nparsin = []; nparsout = 0; elems_ = [] }) full_sums (2 ∷ 1 ∷ []) sums sums_accepted
      refl

abbrev products : List (List InputElBl)
products =
    (record { list1 = 0; el1 = 0; list2 = 1; el2 = 0 }
      ∷ record { list1 = 0; el1 = 1; list2 = 0; el2 = 1 }
      ∷ [])
    ∷ []

abbrev full_products : TakeAndAddBl
full_products = record { nparsin = 2 ∷ 1 ∷ []; nparsout = 1; elems_ = products }

products_accepted :
    take_and_add_bl_init (record { nparsin = []; nparsout = 0; elems_ = [] }) (2 ∷ 1 ∷ []) products
    ≡ (success, full_products)
unfolding take_and_add_bl_init
products_accepted = refl

take_and_add_bl-evaluate_example :
    (take_and_add_bl_evaluate full_products inputs (new_mod 101)
      ≡ some (map (λ l. total_products inputs l % 101) products))
    × (full_products.nparsout ≡ 1)
take_and_add_bl-evaluate_example =
    take_and_add_bl-evaluate 101 (inl (omega arith, omega arith)) inputs inputs-Residues
      (record { nparsin = []; nparsout = 0; elems_ = [] }) full_products (2 ∷ 1 ∷ []) products
      products_accepted refl

abbrev fresh_non_zeroes : NonZeroes
fresh_non_zeroes = record { nparsin = 4; nparsout = not_learned; nonzero_ = [] }

abbrev learned_non_zeroes : NonZeroes
learned_non_zeroes = record { nparsin = 4; nparsout = 2; nonzero_ = 1 ∷ 3 ∷ [] }

-- The second entry is 0 now.
non_zeroes_learn-again_example :
    ((positions 0 (0 ∷ 0 ∷ 5 ∷ 6 ∷ []) ≡ 1 ∷ 3 ∷ [])
      × (non_zeroes_learn learned_non_zeroes (0 ∷ 0 ∷ 5 ∷ 6 ∷ []) ≡ (success, learned_non_zeroes)))
    ⊎ ((positions 0 (0 ∷ 0 ∷ 5 ∷ 6 ∷ []) ≢ 1 ∷ 3 ∷ [])
        × (non_zeroes_learn learned_non_zeroes (0 ∷ 0 ∷ 5 ∷ 6 ∷ [])
            ≡ (failed, record learned_non_zeroes { nparsout = not_learned })))
non_zeroes_learn-again_example =
    non_zeroes_learn-again learned_non_zeroes (0 ∷ 0 ∷ 5 ∷ 6 ∷ []) (λ e. absurd (omega (arith, e)))
      refl refl

non_zeroes-roundtrip_example :
    (ys : List ℕ) × ((non_zeroes_learn fresh_non_zeroes (0 ∷ 5 ∷ 0 ∷ 6 ∷ [])).0 ≡ success)
    × (non_zeroes_evaluate
          (non_zeroes_learn fresh_non_zeroes (0 ∷ 5 ∷ 0 ∷ 6 ∷ [])).1
          (0 ∷ 5 ∷ 0 ∷ 6 ∷ [])
        ≡ some ys)
    × (scatter
          (non_zeroes_learn fresh_non_zeroes (0 ∷ 5 ∷ 0 ∷ 6 ∷ [])).1.nonzero_
          ys
          (replicate 4 0)
        ≡ 0 ∷ 5 ∷ 0 ∷ 6 ∷ [])
non_zeroes-roundtrip_example = non_zeroes-roundtrip fresh_non_zeroes (0 ∷ 5 ∷ 0 ∷ 6 ∷ []) refl refl

-- [1 2; 3 4] times [5; 6] modulo 101.
multiplied :
    matrix_mul_evaluate
      (matrix_mul_init 2 2 1)
      ((1 ∷ 2 ∷ 3 ∷ 4 ∷ []) ∷ (5 ∷ 6 ∷ []) ∷ [])
      (new_mod 101)
    ≡ some (17 ∷ 39 ∷ [])
unfolding matrix_mul_evaluate matrix_mul_init new_mod add_mod mul_mod ff_precomputed_reciprocal_mod
    ff_add_mod ff_mul_mod
multiplied = refl
