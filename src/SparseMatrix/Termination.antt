-- ===== src/SparseMatrix/Termination.antt =====
-- The loop of `SparseMatrix::toRowEcholon` that substitutes equations in a row comes to its end: each
-- round finds a later equation.
use finiteflow.Base.{
  ℕ, zero, suc, inl, inr, ◌≢◌, ◌+◌, ◌<◌, ◌≤◌, ◌≡◌, ap, sym, ◌∙◌, arith, ◌==◌, length, get_or,
  if◌then◌else◌, Bool-cases, subst, ==→eq, ==→ne,
}
use finiteflow.Ffmod.{IsModulus}
use finiteflow.Modular.{new_mod}
use finiteflow.SparseRow.{SparseMatrixRow, no_eq, first_nonzero_column, eq_to_substitute}
use finiteflow.SparseRow.Elimination.{HasColumn, IsRow}
use finiteflow.SparseMatrix.{
  SparseMatrix, Working, row, substitute, substitute_from, substitute_row,
}
use finiteflow.SparseMatrix.Columns.{
  gauss_elimination-IsOtherColumn, IsLate, least_eq-IsLate, least_eq-late,
}
use finiteflow.SparseMatrix.Solutions.{
  substitute-IsSameRow, substituted_row-find, start, start-IsRow,
}
use finiteflow.SparseMatrix.Substitution.{
  IsReduced, search, search_by_cells, search_found, earlier_found, finds, new, mid, mid_here,
}

-- The equations that solve for the columns of an equation are not earlier.
abbrev pub IsTriangular : ℕ → SparseMatrix → Type 0
IsTriangular maxrow mat =
    (c : ℕ)
    → get_or mat.var_eq_ c no_eq ≢ no_eq
    → IsLate mat.var_eq_ maxrow (row mat.rows_ (get_or mat.var_eq_ c no_eq)).cells
        (get_or mat.var_eq_ c no_eq)

module _ (p : ℕ) (h : IsModulus p) (maxrow i : ℕ) (mat : SparseMatrix) (ok : IsReduced p mat i)
    (triangular : IsTriangular maxrow mat) (small : i ≤ no_eq) where
  abbrev find : SparseMatrixRow → ℕ
  find = search p h maxrow i mat ok

  pub search-IsLate : (r : SparseMatrixRow) → IsRow p r → IsLate mat.var_eq_ maxrow r.cells (find r)
  unfolding search eq_to_substitute
  search-IsLate r is_row = least_eq-IsLate mat.var_eq_ maxrow 0 no_eq r.cells is_row.sorted

  search-late :
      (r : SparseMatrixRow) (n : ℕ) → n ≤ no_eq → IsLate mat.var_eq_ maxrow r.cells n → n ≤ find r
  unfolding search eq_to_substitute
  search-late r n le late = least_eq-late mat.var_eq_ maxrow n no_eq r.cells le late

  substitute-IsLate :
      (w : Working)
      → IsRow p w.current
      → find w.current ≢ no_eq
      → IsLate mat.var_eq_ maxrow
          (substitute mat.rows_ (new_mod p) (find w.current) w).current.cells
          (suc (find w.current))
  unfolding substitute
  substitute-IsLate w is_row some_eq x has less =
      let (c, has_c, found) = search_found p h maxrow i mat ok w.current some_eq in
      let (c', has_c', equation) = finds p h maxrow i mat ok w.current some_eq in
      let other =
        gauss_elimination-IsOtherColumn p w.other w.current (row mat.rows_ (find w.current)) x
          is_row (ok.rows_ok (find w.current)) equation.1 has in
      let late : find w.current ≤ get_or mat.var_eq_ x no_eq = elim other.1 [
        | inl mine ↦ search-IsLate w.current is_row x mine less
        | inr theirs ↦
            subst (λ e. e ≤ get_or mat.var_eq_ x no_eq) (sym found)
              (triangular c (λ e. some_eq (found ∙ e)) x
                (subst (λ e. HasColumn x (row mat.rows_ e).cells) found theirs) less)
      ] in
      let ne : find w.current ≢ get_or mat.var_eq_ x no_eq = λ e. other.0 (
        sym (
          ap (λ eq. first_nonzero_column (row mat.rows_ eq)) e
          ∙ (ok.equations x (λ e'. some_eq (e ∙ e'))).1.0)) in
      omega (arith, late, ne)

  -- With as many rounds left as there can be equations, the last row has nothing more to substitute.
  substitute_from-search :
      (fuel n : ℕ) (w : Working)
      → IsRow p w.current
      → IsLate mat.var_eq_ maxrow w.current.cells n
      → n ≤ no_eq
      → i ≤ n + fuel
      → find (substitute_from fuel find mat.rows_ (new_mod p) (find w.current) w).current ≡ no_eq
  unfolding substitute_from
  substitute_from-search zero n w is_row late le enough =
      elim (Bool-cases (find w.current == no_eq)) [
        | inl none_left ↦ ==→eq (find w.current) no_eq none_left
        | inr more ↦ absurd (
            omega (
              arith,
              search-late w.current n le late,
              enough,
              earlier_found p h maxrow i mat ok w.current (==→ne (find w.current) no_eq more),
            ))
      ]
  substitute_from-search (suc fuel) n w is_row late le enough =
      elim (Bool-cases (find w.current == no_eq)) [
        | inl none_left ↦
            subst (λ b. find (if b then w else rest).current ≡ no_eq) (sym none_left)
              (==→eq (find w.current) no_eq none_left)
        | inr more ↦
            let some_eq = ==→ne (find w.current) no_eq more in
            let less = earlier_found p h maxrow i mat ok w.current some_eq in
            subst (λ b. find (if b then w else rest).current ≡ no_eq) (sym more)
              (substitute_from-search fuel (suc (find w.current))
                (substitute mat.rows_ (new_mod p) (find w.current) w)
                (substitute-IsSameRow p h mat.rows_ ok.rows_ok find w (finds p h maxrow i mat ok)
                  is_row some_eq).is_row
                (substitute-IsLate w is_row some_eq) (omega (arith, less, small))
                (omega (arith, search-late w.current n le late, enough)))
      ]
    where
      rest : Working
      rest =
          substitute_from fuel find mat.rows_ (new_mod p)
            (find (substitute mat.rows_ (new_mod p) (find w.current) w).current)
            (substitute mat.rows_ (new_mod p) (find w.current) w)

  -- The loop leaves nothing to substitute in row `i`.
  pub substitute_row-search :
      i < length mat.rows_ → find (row (mid p h maxrow i mat ok).rows_ i) ≡ no_eq
  unfolding new
  substitute_row-search inside =
      ap find (mid_here p h maxrow i mat ok inside)
      ∙ substituted_row-find p h mat i find ok.rows_ok (search_by_cells p h maxrow i mat ok)
          (finds p h maxrow i mat ok)
          (substitute_from-search (length mat.rows_) 0
            (start p h mat i find ok.rows_ok (search_by_cells p h maxrow i mat ok)
              (finds p h maxrow i mat ok))
            (start-IsRow p h mat i find ok.rows_ok (search_by_cells p h maxrow i mat ok)
              (finds p h maxrow i mat ok))
            (λ x has less. omega arith) (omega arith) (omega (arith, inside)))

-- For a modulus in the range of the word-sized ones, and a row `i` of the matrix with i below 2^32, where
-- all rows are sorted lists of residues, the equations are rows before `i` that begin with a one at their
-- column, and each has below `maxrow` only columns with equations that are not earlier: the rounds that
-- the loop is given are enough, so after it no column of row `i` below `maxrow` has an equation that the
-- search finds.
pub substitute_row_terminates :
    (p : ℕ)
    → IsModulus p
    → (maxrow i : ℕ) (mat : SparseMatrix) → IsReduced p mat i
    → IsTriangular maxrow mat
    → i ≤ no_eq
    → i < length mat.rows_
    → eq_to_substitute
        (row
          (substitute_row (λ r. eq_to_substitute r mat.var_eq_ maxrow) (new_mod p) i mat).rows_
          i)
        mat.var_eq_
        maxrow
      ≡ no_eq
unfolding search mid
substitute_row_terminates p h maxrow i mat ok triangular small inside =
    substitute_row-search p h maxrow i mat ok triangular small inside
