-- ===== src/SparseMatrix/Substitution.antt =====
-- The first step of a round of `SparseMatrix::toRowEcholon`: the equations that solve for columns of a
-- row are substituted in it.
use finiteflow.Base.{
  ℕ, ◌⊎◌, inl, inr, ◌↔◌, ◌≢◌, ◌<◌, ◌≤◌, ◌≡◌, ap, sym, ◌∙◌, arith, ◌==◌, length, get_or,
  if◌then◌else◌, Bool-cases, subst, ==→eq, ==→ne,
}
use finiteflow.Ffmod.{IsModulus}
use finiteflow.Modular.{new_mod}
use finiteflow.SparseRow.{
  SparseMatrixRow, no_eq, get_first, first_nonzero_column, eq_to_substitute, least_eq,
}
use finiteflow.SparseRow.Elimination.{HasColumn, IsRow}
use finiteflow.SparseMatrix.{SparseMatrix, row, substitute_row}
use finiteflow.SparseMatrix.Dot.{Vanishes}
use finiteflow.SparseMatrix.Rows.{least_eq-cases}
use finiteflow.SparseMatrix.Solutions.{
  IsEquation, Finds, IsSameRow, substituted_row, substituted_row-IsSameRow, substitute_row-row,
  substitute_row-var_eq_, length-substitute_row,
}

-- The state before row `i` is reduced: all rows are well formed, and the equations that `var_eq_` names
-- are earlier rows that begin with a one at their column.
pub record IsReduced (p : ℕ) (mat : SparseMatrix) (i : ℕ) : Type 0 where
  pub rows_ok : (j : ℕ) → IsRow p (row mat.rows_ j)
  pub equations :
      (c : ℕ)
      → get_or mat.var_eq_ c no_eq ≢ no_eq
      → (get_or mat.var_eq_ c no_eq < i) × IsEquation mat.rows_ c (get_or mat.var_eq_ c no_eq)

-- All rows vanish at `x`.
abbrev pub Solution : ℕ → (ℕ → ℕ) → SparseMatrix → Type 0
Solution p x mat = (j : ℕ) → Vanishes p x (row mat.rows_ j).cells

-- A change of row `i` alone.
module _ (p i : ℕ) (mat mat' : SparseMatrix)
    (others : (j : ℕ) → i ≢ j → row mat'.rows_ j ≡ row mat.rows_ j) where
  pub Solution-moved :
      (x : ℕ → ℕ) → Vanishes p x (row mat'.rows_ i).cells → Solution p x mat → Solution p x mat'
  Solution-moved x at s j = elim (Bool-cases (i == j)) [
    | inl here ↦ subst (λ t. Vanishes p x (row mat'.rows_ t).cells) (==→eq i j here) at
    | inr there ↦
        subst (λ (r : SparseMatrixRow). Vanishes p x r.cells) (sym (others j (==→ne i j there)))
          (s j)
  ]

  rows_moved :
      IsRow p (row mat'.rows_ i)
      → ((j : ℕ) → IsRow p (row mat.rows_ j))
      → (j : ℕ) → IsRow p (row mat'.rows_ j)
  rows_moved at s j = elim (Bool-cases (i == j)) [
    | inl here ↦ subst (λ t. IsRow p (row mat'.rows_ t)) (==→eq i j here) at
    | inr there ↦ subst (IsRow p) (sym (others j (==→ne i j there))) (s j)
  ]

  IsEquation-moved : (c eq : ℕ) → i ≢ eq → IsEquation mat.rows_ c eq → IsEquation mat'.rows_ c eq
  IsEquation-moved c eq ne e =
      (ap first_nonzero_column (others eq ne) ∙ e.0, ap get_first (others eq ne) ∙ e.1)

  -- The equations stay, or are those of row `i`.
  pub IsReduced-moved :
      (n : ℕ)
      → i ≤ n
      → IsReduced p mat i
      → IsRow p (row mat'.rows_ i)
      → ((c : ℕ)
          → (get_or mat'.var_eq_ c no_eq ≡ get_or mat.var_eq_ c no_eq)
            ⊎ ((i < n) × (get_or mat'.var_eq_ c no_eq ≡ i) × IsEquation mat'.rows_ c i))
      → IsReduced p mat' n
  IsReduced-moved n le ok at eqs = record {
    rows_ok = rows_moved at ok.rows_ok;
    equations = λ c some_eq. elim (eqs c) [
      | inl same ↦
          let (earlier, equation) = ok.equations c (λ e. some_eq (same ∙ e)) in
          subst (λ t. (t < n) × IsEquation mat'.rows_ c t) (sym same)
            (
              omega (arith, earlier, le),
              IsEquation-moved c (get_or mat.var_eq_ c no_eq) (λ e. omega (arith, e, earlier))
                  equation,
            )
      | inr (less, new, equation) ↦
          subst (λ t. (t < n) × IsEquation mat'.rows_ c t) (sym new) (less, equation)
    ];
  }

module _ (p : ℕ) (h : IsModulus p) (maxrow i : ℕ) (mat : SparseMatrix)
    (ok : IsReduced p mat i) where
  unfoldable pub search : SparseMatrixRow → ℕ
  search r = eq_to_substitute r mat.var_eq_ maxrow

  pub search_by_cells : (r r' : SparseMatrixRow) → r.cells ≡ r'.cells → search r ≡ search r'
  unfolding search eq_to_substitute
  search_by_cells r r' e = ap (least_eq mat.var_eq_ maxrow no_eq) e

  pub search_found :
      (r : SparseMatrixRow)
      → search r ≢ no_eq
      → (c : ℕ) × HasColumn c r.cells × (search r ≡ get_or mat.var_eq_ c no_eq)
  unfolding search eq_to_substitute
  search_found r some_eq = elim (least_eq-cases mat.var_eq_ maxrow no_eq r.cells) [
    | inl none_found ↦ absurd (some_eq none_found)
    | inr found ↦ found
  ]

  pub earlier_found : (r : SparseMatrixRow) → search r ≢ no_eq → search r < i
  earlier_found r some_eq =
      let (c, has, found) = search_found r some_eq in
      subst (λ t. t < i) (sym found) (ok.equations c (λ e. some_eq (found ∙ e))).0

  pub finds : Finds p h mat.rows_ ok.rows_ok search
  finds r some_eq =
      let (c, has, found) = search_found r some_eq in
      (
        c,
        has,
        subst (IsEquation mat.rows_ c) (sym found) (ok.equations c (λ e. some_eq (found ∙ e))).1,
      )

  unfoldable pub mid : SparseMatrix
  mid = substitute_row search (new_mod p) i mat

  unfoldable pub new : SparseMatrixRow
  new = substituted_row p h mat i search ok.rows_ok search_by_cells finds

  new-IsSameRow : IsSameRow p h mat.rows_ ok.rows_ok search (row mat.rows_ i) new
  unfolding new
  new-IsSameRow = substituted_row-IsSameRow p h mat i search ok.rows_ok search_by_cells finds

  module _ (inside : i < length mat.rows_) where
    mid-row : (j : ℕ) → row mid.rows_ j ≡ (if i == j then new else row mat.rows_ j)
    unfolding mid new
    mid-row j = substitute_row-row p h mat i search ok.rows_ok search_by_cells finds j inside

    pub mid_here : row mid.rows_ i ≡ new
    mid_here = mid-row i ∙ ground arith

    pub mid_others : (j : ℕ) → i ≢ j → row mid.rows_ j ≡ row mat.rows_ j
    mid_others j ne = mid-row j ∙ ground arith

    pub mid-var_eq_ : mid.var_eq_ ≡ mat.var_eq_
    unfolding mid
    mid-var_eq_ = substitute_row-var_eq_ p h mat i search ok.rows_ok search_by_cells finds

    pub length-mid : length mid.rows_ ≡ length mat.rows_
    unfolding mid
    length-mid = length-substitute_row p h mat i search ok.rows_ok search_by_cells finds

    pub mid-IsRow : IsRow p (row mid.rows_ i)
    mid-IsRow = subst (IsRow p) (sym mid_here) new-IsSameRow.is_row

    pub mid-IsReduced : IsReduced p mid i
    mid-IsReduced =
        IsReduced-moved p i mat mid mid_others i (omega arith) ok mid-IsRow
          (λ c. inl (ap (λ l. get_or l c no_eq) mid-var_eq_))

    pub mid-Solution : (x : ℕ → ℕ) → Solution p x mat ↔ Solution p x mid
    mid-Solution x = (
      λ s.
          Solution-moved p i mat mid mid_others x
            (subst (λ (r : SparseMatrixRow). Vanishes p x r.cells) (sym mid_here)
              ((new-IsSameRow.same x (λ r some_eq. s (search r))).1 (s i)))
            s,
      λ s.
          Solution-moved p i mid mat (λ j ne. sym (mid_others j ne)) x
            ((new-IsSameRow.same x (λ r some_eq.
                subst (λ (r : SparseMatrixRow). Vanishes p x r.cells)
                  (mid_others (search r) (λ e. omega (arith, e, earlier_found r some_eq)))
                  (s (search r)))).0
              (subst (λ (r : SparseMatrixRow). Vanishes p x r.cells) mid_here (s i)))
            s,
    )
