-- ===== src/SparseMatrix/Solutions.antt =====
-- The reduction of a sparse matrix to row echelon form keeps the solutions of its rows.
use finiteflow.Base.{
  ap, ◌∙◌, ℕ, zero, suc, List, [], inl, inr, ◌↔◌, ◌≢◌, ◌<◌, ◌≡◌, sym, refl, arith, ◌==◌, set,
  length, if◌then◌else◌, Bool-cases, subst, get_or-set, length-set, ==→ne, ==→eq,
}
use finiteflow.Ffmod.{IsModulus}
use finiteflow.Modular.{new_mod}
use finiteflow.SparseRow.{
  SparseMatrixRow, no_eq, new_row, copy_into, get_first, first_nonzero_column,
}
use finiteflow.SparseRow.Elimination.{HasColumn, IsRow, gauss_elimination_lem}
use finiteflow.SparseMatrix.{
  SparseMatrix, Working, row, substitute, substitute_from, substitute_row,
}
use finiteflow.SparseMatrix.Dot.{Vanishes, gauss_elimination-Vanishes}
use finiteflow.SparseMatrix.Rows.{copy_into-cells, copy_into-IsRow}

-- Row `eq` solves for column `c`.
abbrev pub IsEquation : List SparseMatrixRow → ℕ → ℕ → Type 0
IsEquation rows c eq = (first_nonzero_column (row rows eq) ≡ c) × (get_first (row rows eq) ≡ 1)

module _ (p : ℕ) (h : IsModulus p) (rows : List SparseMatrixRow)
    (rows_ok : (j : ℕ) → IsRow p (row rows j)) (find : SparseMatrixRow → ℕ) where
  -- What the search finds is an equation for a column of the row.
  abbrev pub Finds : Type 0
  Finds =
      (r : SparseMatrixRow)
      → find r ≢ no_eq
      → (c : ℕ) × HasColumn c r.cells × IsEquation rows c (find r)

  abbrev pub SolvesFound : (ℕ → ℕ) → Type 0
  SolvesFound x = (r : SparseMatrixRow) → find r ≢ no_eq → Vanishes p x (row rows (find r)).cells

  -- A row with the same solutions, among those of the equations.
  pub record IsSameRow (r r' : SparseMatrixRow) : Type 0 where
    pub is_row : IsRow p r'
    pub same : (x : ℕ → ℕ) → SolvesFound x → Vanishes p x r'.cells ↔ Vanishes p x r.cells

  pub substitute-IsSameRow :
      (w : Working)
      → Finds
      → IsRow p w.current
      → find w.current ≢ no_eq
      → IsSameRow w.current (substitute rows (new_mod p) (find w.current) w).current
  unfolding substitute
  substitute-IsSameRow w finds ok some_eq =
      let (c, has, equation) = finds w.current some_eq in
      let (first, one) = equation in
      let eq = find w.current in
      let has' = subst (λ t. HasColumn t w.current.cells) (sym first) has in
      record {
        is_row =
            (gauss_elimination_lem p h w.other w.current (row rows eq)
              (first_nonzero_column (row rows eq)) ok (rows_ok eq) has' refl one).0;
        same = λ x solves.
            gauss_elimination-Vanishes p h x w.other w.current (row rows eq)
              (first_nonzero_column (row rows eq)) ok (rows_ok eq) has' refl one
              (solves w.current some_eq);
      }

  substitute_from-IsSameRow :
      (fuel : ℕ) (w : Working)
      → Finds
      → IsRow p w.current
      → IsSameRow w.current (substitute_from fuel find rows (new_mod p) (find w.current) w).current
  unfolding substitute_from
  substitute_from-IsSameRow zero w finds ok = record { is_row = ok; same = λ x s. (λ e. e, λ e. e) }
  substitute_from-IsSameRow (suc fuel) w finds ok = elim (Bool-cases (find w.current == no_eq)) [
    | inl none_left ↦
        subst (λ b. IsSameRow w.current (if b then w else rest).current) (sym none_left)
          (record { is_row = ok; same = λ x s. (λ e. e, λ e. e) })
    | inr more ↦
        let step = substitute-IsSameRow w finds ok (==→ne (find w.current) no_eq more) in
        let later =
          substitute_from-IsSameRow fuel (substitute rows (new_mod p) (find w.current) w) finds
            step.is_row in
        subst (λ b. IsSameRow w.current (if b then w else rest).current) (sym more)
          (record {
            is_row = later.is_row;
            same = λ x s. (
              λ e. (step.same x s).0 ((later.same x s).0 e),
              λ e. (later.same x s).1 ((step.same x s).1 e),
            );
          })
  ]
    where
      rest : Working
      rest =
          substitute_from fuel find rows (new_mod p)
            (find (substitute rows (new_mod p) (find w.current) w).current)
            (substitute rows (new_mod p) (find w.current) w)

-- The rows of a matrix, with row `i` replaced by one with the same solutions among those of the
-- equations.
pub row-set :
    (rows : List SparseMatrixRow) (i j : ℕ) (r : SparseMatrixRow)
    → i < length rows
    → row (set rows i r) j ≡ (if i == j then r else row rows j)
row-set rows i j r inside = get_or-set rows i j r new_row inside

module _ (p : ℕ) (h : IsModulus p) (mat : SparseMatrix) (i : ℕ) (find : SparseMatrixRow → ℕ)
    (rows_ok : (j : ℕ) → IsRow p (row mat.rows_ j))
    (by_cells : (r r' : SparseMatrixRow) → r.cells ≡ r'.cells → find r ≡ find r')
    (finds : Finds p h mat.rows_ rows_ok find) where
  abbrev pub start : Working
  start = record {
    current = copy_into (row mat.rows_ i) mat.working_1;
    other = mat.working_0;
    deps = [];
  }

  working : Working
  working =
      substitute_from (length mat.rows_) find mat.rows_ (new_mod p) (find (row mat.rows_ i)) start

  start-cells : start.current.cells ≡ (row mat.rows_ i).cells
  start-cells = copy_into-cells p (row mat.rows_ i) mat.working_1 (rows_ok i)

  pub start-IsRow : IsRow p start.current
  start-IsRow = copy_into-IsRow p (row mat.rows_ i) mat.working_1 (rows_ok i)

  working-start :
      substitute_from (length mat.rows_) find mat.rows_ (new_mod p) (find start.current) start
      ≡ working
  unfolding working
  working-start =
      ap (λ eq. substitute_from (length mat.rows_) find mat.rows_ (new_mod p) eq start)
        (by_cells start.current (row mat.rows_ i) start-cells)

  working-IsSameRow : IsSameRow p h mat.rows_ rows_ok find start.current working.current
  working-IsSameRow =
      subst (λ (w : Working). IsSameRow p h mat.rows_ rows_ok find start.current w.current)
        working-start
        (substitute_from-IsSameRow p h mat.rows_ rows_ok find (length mat.rows_) start finds
          start-IsRow)

  pub substituted_row : SparseMatrixRow
  unfolding working
  substituted_row =
      if find (row mat.rows_ i) == no_eq
      then row mat.rows_ i
      else copy_into working.current (row mat.rows_ i)

  pub substituted_row-IsSameRow :
      IsSameRow p h mat.rows_ rows_ok find (row mat.rows_ i) substituted_row
  unfolding substituted_row working
  substituted_row-IsSameRow = elim (Bool-cases (find (row mat.rows_ i) == no_eq)) [
    | inl none_left ↦
        subst
          (λ b.
            IsSameRow p h mat.rows_ rows_ok find (row mat.rows_ i)
              (if b then row mat.rows_ i else copy_into working.current (row mat.rows_ i)))
          (sym none_left) (record { is_row = rows_ok i; same = λ x s. (λ e. e, λ e. e) })
    | inr more ↦
        subst
          (λ b.
            IsSameRow p h mat.rows_ rows_ok find (row mat.rows_ i)
              (if b then row mat.rows_ i else copy_into working.current (row mat.rows_ i)))
          (sym more)
          (record {
            is_row = copy_into-IsRow p working.current (row mat.rows_ i) working-IsSameRow.is_row;
            same = λ x s. (
              λ e. subst (Vanishes p x) start-cells (
                  (working-IsSameRow.same x s).0 (
                    subst (Vanishes p x)
                      (copy_into-cells p working.current (row mat.rows_ i) working-IsSameRow.is_row)
                      e)),
              λ e.
                  subst (Vanishes p x)
                    (sym (
                      copy_into-cells p working.current (row mat.rows_ i) working-IsSameRow.is_row))
                    ((working-IsSameRow.same x s).1 (subst (Vanishes p x) (sym start-cells) e)),
            );
          })
  ]

  pub substituted_row-find :
      find
          (substitute_from
            (length mat.rows_)
            find
            mat.rows_
            (new_mod p)
            (find start.current)
            start).current
        ≡ no_eq
      → find substituted_row ≡ no_eq
  unfolding substituted_row
  substituted_row-find e = elim (Bool-cases (find (row mat.rows_ i) == no_eq)) [
    | inl none_left ↦
        subst
          (λ b.
            find (if b then row mat.rows_ i else copy_into working.current (row mat.rows_ i))
            ≡ no_eq)
          (sym none_left) (==→eq (find (row mat.rows_ i)) no_eq none_left)
    | inr more ↦
        subst
          (λ b.
            find (if b then row mat.rows_ i else copy_into working.current (row mat.rows_ i))
            ≡ no_eq)
          (sym more)
          (by_cells (copy_into working.current (row mat.rows_ i)) working.current
              (copy_into-cells p working.current (row mat.rows_ i) working-IsSameRow.is_row)
            ∙ ap (λ (w : Working). find w.current) (sym working-start)
            ∙ e)
  ]

  pub substitute_row-row :
      (j : ℕ)
      → i < length mat.rows_
      → row (substitute_row find (new_mod p) i mat).rows_ j
        ≡ (if i == j then substituted_row else row mat.rows_ j)
  unfolding substitute_row substituted_row working
  substitute_row-row j inside =
      ground (arith, row-set mat.rows_ i j (copy_into working.current (row mat.rows_ i)) inside)

  pub substitute_row-var_eq_ : (substitute_row find (new_mod p) i mat).var_eq_ ≡ mat.var_eq_
  unfolding substitute_row
  substitute_row-var_eq_ = ground arith

  pub length-substitute_row :
      length (substitute_row find (new_mod p) i mat).rows_ ≡ length mat.rows_
  unfolding substitute_row working
  length-substitute_row = elim (Bool-cases (find (row mat.rows_ i) == no_eq)) [
    | inl none_left ↦ ground (arith, none_left)
    | inr more ↦
        ground (arith, more, length-set mat.rows_ i (copy_into working.current (row mat.rows_ i)))
  ]
