-- ===== src/SparseRow/Examples.antt =====
-- Rows and their elimination at concrete values.
use finiteflow.Base.{ℕ, [], ◌∷◌, ◌+◌, ◌*◌, ◌%◌, ◌≤◌, ◌≡◌, inl, refl, arith, length}
use finiteflow.Modular.{new_mod}
use finiteflow.SparseRow.{
  SparseMatrixRow, get, new_row, gauss_elimination, first_nonzero_column, get_first,
}
use finiteflow.SparseRow.Elimination.{IsRow, gauss_elimination_lem, gauss_elimination-le-cap}

abbrev upper : SparseMatrixRow
upper = record {
  size = 2;
  cap = 8;
  id = 7;
  cells = record { col = 1; val = 3 } ∷ record { col = 4; val = 5 } ∷ [];
}

abbrev pivot_row : SparseMatrixRow
pivot_row = record {
  size = 2;
  cap = 8;
  id = 2;
  cells = record { col = 1; val = 1 } ∷ record { col = 2; val = 9 } ∷ [];
}

upper-IsRow : IsRow 101 upper
upper-IsRow = record { sized = refl; sorted = omega arith; residues = omega arith }

pivot_row-IsRow : IsRow 101 pivot_row
pivot_row-IsRow = record { sized = refl; sorted = omega arith; residues = omega arith }

gauss_elimination_lem_example :
    IsRow 101 (gauss_elimination new_row upper pivot_row 1 (new_mod 101))
    × ((gauss_elimination new_row upper pivot_row 1 (new_mod 101)).id ≡ 7)
    × ((x : ℕ)
        → (get (gauss_elimination new_row upper pivot_row 1 (new_mod 101)) x
              + get pivot_row x * get upper 1)
            % 101
          ≡ get upper x)
unfolding first_nonzero_column get_first
gauss_elimination_lem_example =
    gauss_elimination_lem 101 (inl (omega arith, omega arith)) new_row upper pivot_row 1 upper-IsRow
      pivot_row-IsRow (inl refl) pivot_first pivot_one
  where
    pivot_first : first_nonzero_column pivot_row ≡ 1
    pivot_first = refl

    pivot_one : get_first pivot_row ≡ 1
    pivot_one = refl

gauss_elimination-le-cap_example :
    (length (gauss_elimination new_row upper pivot_row 1 (new_mod 101)).cells
      ≤ (gauss_elimination new_row upper pivot_row 1 (new_mod 101)).cap)
    × ((gauss_elimination new_row upper pivot_row 1 (new_mod 101)).size
        ≤ (gauss_elimination new_row upper pivot_row 1 (new_mod 101)).cap)
gauss_elimination-le-cap_example =
    gauss_elimination-le-cap 101 (inl (omega arith, omega arith)) new_row upper pivot_row 1 refl
      refl (omega arith)
