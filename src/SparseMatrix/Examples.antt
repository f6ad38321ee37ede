-- ===== src/SparseMatrix/Examples.antt =====
-- The reduction of a matrix to echelon form at concrete values.
use native.Mathlib.Nat.{dvd-sub, eq-one_of_dvd-one}
use finiteflow.Base.{
  ℕ, zero, suc, [], ◌∷◌, ◌<◌, ◌≡◌, ◌≢◌, ◌↔◌, get_or, false, inl, refl, arith, All,
}
use finiteflow.Ffmod.Inverse.{Coprime}
use finiteflow.Modular.{new_mod}
use finiteflow.SparseRow.{
  row_end, no_eq, new_row, first_nonzero_column, get_first, eq_to_substitute,
}
use finiteflow.SparseRow.Elimination.{IsRow}
use finiteflow.SparseMatrix.{SparseMatrix, row, substitute_row, to_row_echolon}
use finiteflow.SparseMatrix.Solutions.{IsEquation}
use finiteflow.SparseMatrix.Substitution.{IsReduced, Solution}
use finiteflow.SparseMatrix.Echelon.{to_row_echolon_lem, to_row_echolon-IsTriangular}
use finiteflow.SparseMatrix.Termination.{IsTriangular, substitute_row_terminates}

-- 2 x0 + x1 and x0 + x2 modulo 3.
abbrev two_rows : SparseMatrix
two_rows = record {
  rows_ =
      (record {
        size = 2;
        cap = 8;
        id = 0;
        cells = record { col = 0; val = 2 } ∷ record { col = 1; val = 1 } ∷ [];
      })
      ∷ (record {
        size = 2;
        cap = 8;
        id = 1;
        cells = record { col = 0; val = 1 } ∷ record { col = 2; val = 1 } ∷ [];
      })
      ∷ [];
  working_0 = new_row;
  working_1 = new_row;
  m_ = 3;
  var_eq_ = [];
  eqdeps = [] ∷ [] ∷ [];
}

three-Coprime : (z : ℕ) → 0 < z → z < 3 → Coprime z 3
three-Coprime zero h h' d k k' = absurd (omega arith)
three-Coprime (suc zero) h h' d k k' = eq-one_of_dvd-one k
three-Coprime (suc (suc zero)) h h' d k k' = eq-one_of_dvd-one (dvd-sub d k' k)
three-Coprime (suc (suc (suc z))) h h' d k k' = absurd (omega arith)

two_rows-IsRow : All (IsRow 3) two_rows.rows_
two_rows-IsRow = (
  record { sized = refl; sorted = omega arith; residues = omega arith },
  (record { sized = refl; sorted = omega arith; residues = omega arith }, tt),
)

to_row_echolon_lem_example :
    IsReduced 3 (to_row_echolon (new_mod 3) row_end false two_rows) 2
    × ((x : ℕ → ℕ)
        → Solution 3 x two_rows ↔ Solution 3 x (to_row_echolon (new_mod 3) row_end false two_rows))
to_row_echolon_lem_example =
    to_row_echolon_lem 3 (inl (omega arith, omega arith)) (omega arith) three-Coprime row_end false
      refl two_rows two_rows-IsRow

to_row_echolon-IsTriangular_example :
    IsTriangular row_end (to_row_echolon (new_mod 3) row_end false two_rows)
to_row_echolon-IsTriangular_example =
    to_row_echolon-IsTriangular 3 (inl (omega arith, omega arith)) (omega arith) three-Coprime
      row_end false refl two_rows two_rows-IsRow (omega arith)

-- The same with the first row an equation for x0.
abbrev half_reduced : SparseMatrix
half_reduced = record two_rows {
  rows_ =
      (record {
        size = 2;
        cap = 8;
        id = 0;
        cells = record { col = 0; val = 1 } ∷ record { col = 1; val = 2 } ∷ [];
      })
      ∷ (record {
        size = 2;
        cap = 8;
        id = 1;
        cells = record { col = 0; val = 1 } ∷ record { col = 2; val = 1 } ∷ [];
      })
      ∷ [];
  var_eq_ = 0 ∷ [];
}

half_reduced-IsReduced : IsReduced 3 half_reduced 1
unfolding first_nonzero_column get_first
half_reduced-IsReduced = record { rows_ok = rows_ok; equations = equations }
  where
    rows_ok : (j : ℕ) → IsRow 3 (row half_reduced.rows_ j)
    rows_ok zero = record { sized = refl; sorted = omega arith; residues = omega arith }
    rows_ok (suc zero) = record { sized = refl; sorted = omega arith; residues = omega arith }
    rows_ok (suc (suc j)) = record { sized = refl; sorted = tt; residues = tt }

    equations :
        (c : ℕ)
        → get_or half_reduced.var_eq_ c no_eq ≢ no_eq
        → (get_or half_reduced.var_eq_ c no_eq < 1)
          × IsEquation half_reduced.rows_ c (get_or half_reduced.var_eq_ c no_eq)
    equations zero ne = (omega arith, (refl, refl))
    equations (suc c) ne = absurd (ne refl)

half_reduced-IsTriangular : IsTriangular row_end half_reduced
half_reduced-IsTriangular zero ne x has less = omega arith
half_reduced-IsTriangular (suc c) ne x has less = absurd (ne refl)

substitute_row_terminates_example :
    eq_to_substitute
      (row
        (substitute_row
          (λ r. eq_to_substitute r half_reduced.var_eq_ row_end)
          (new_mod 3)
          1
          half_reduced).rows_
        1)
      half_reduced.var_eq_
      row_end
    ≡ no_eq
substitute_row_terminates_example =
    substitute_row_terminates 3 (inl (omega arith, omega arith)) row_end 1 half_reduced
      half_reduced-IsReduced half_reduced-IsTriangular (omega arith) (omega arith)
