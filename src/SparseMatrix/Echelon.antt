-- ===== src/SparseMatrix/Echelon.antt =====
-- `SparseMatrix::toRowEcholon` keeps the solutions, and gives the equations that `var_eq_` names.
use finiteflow.Base.{
  All, ℕ, zero, suc, List, [], ◌∷◌, Bool, true, ◌||◌, inl, inr, ◌↔◌, ◌+◌, ◌<◌, ◌≤◌, ◌≡◌, ap, sym,
  ◌∙◌, refl, arith, ◌==◌, length, get_or, replicate, if◌then◌else◌, Bool-cases, subst,
}
use finiteflow.Ffmod.{IsModulus}
use finiteflow.Ffmod.Inverse.{Coprime}
use finiteflow.Modular.{new_mod}
use finiteflow.SparseRow.{SparseMatrixRow, row_end, no_eq, get_first}
use finiteflow.SparseRow.Elimination.{IsRow}
use finiteflow.SparseMatrix.{
  SparseMatrix, row, make_equation, echelon_row, echelon_rows, to_row_echolon,
}
use finiteflow.SparseMatrix.Columns.{IsLate}
use finiteflow.SparseMatrix.Termination.{IsTriangular, search-IsLate, substitute_row-search}
use finiteflow.SparseMatrix.Substitution.{
  IsReduced, Solution, search, mid, length-mid, mid-IsReduced, mid-Solution, mid_others,
  mid-var_eq_, mid-IsRow,
}
use finiteflow.SparseMatrix.Equations.{
  IsStep, IsStep-self, IsTriangular-moved, made, make_equation-IsStep, make_equation-IsTriangular,
}

module _ (p : ℕ) (h : IsModulus p) (one_lt : 1 < p) (prime : (z : ℕ) → 0 < z → z < p → Coprime z p)
    (maxrow : ℕ) (keep_all_outs : Bool) (kept : ((maxrow == row_end) || keep_all_outs) ≡ true) where
  echelon_row-IsStep :
      (i : ℕ) (mat : SparseMatrix)
      → IsReduced p mat i
      → i < length mat.rows_
      → IsStep p i mat (echelon_row (new_mod p) maxrow keep_all_outs i mat)
  unfolding echelon_row mid search made
  echelon_row-IsStep i mat ok inside = elim (Bool-cases (get_first (row mat.rows_ i) == 0)) [
    | inl gone ↦
        subst (λ b. IsStep p i mat (if b then mat else next)) (sym gone) (IsStep-self p i mat ok)
    | inr there ↦
        subst (λ b. IsStep p i mat (if b then mat else next)) (sym there)
          (record {
            reduced = equation.reduced;
            size = equation.size ∙ length-mid p h maxrow i mat ok inside;
            same = λ x. (
              λ s. (equation.same x).0 ((mid-Solution p h maxrow i mat ok inside x).0 s),
              λ s. (mid-Solution p h maxrow i mat ok inside x).1 ((equation.same x).1 s),
            );
          })
  ]
    where
      next : SparseMatrix
      next = make_equation (new_mod p) maxrow keep_all_outs i (mid p h maxrow i mat ok)

      equation : IsStep p i (mid p h maxrow i mat ok) next
      equation =
          make_equation-IsStep p h one_lt prime maxrow keep_all_outs kept i
            (mid p h maxrow i mat ok) (mid-IsReduced p h maxrow i mat ok inside)
            (subst (λ n. i < n) (sym (length-mid p h maxrow i mat ok inside)) inside)

  echelon_row-IsTriangular :
      (i : ℕ) (mat : SparseMatrix)
      → IsReduced p mat i
      → i < length mat.rows_
      → i ≤ no_eq
      → IsTriangular maxrow mat
      → IsTriangular maxrow (echelon_row (new_mod p) maxrow keep_all_outs i mat)
  unfolding echelon_row mid search made
  echelon_row-IsTriangular i mat ok inside small triangular =
      elim (Bool-cases (get_first (row mat.rows_ i) == 0)) [
        | inl gone ↦
            subst (λ b. IsTriangular maxrow (if b then mat else next)) (sym gone) triangular
        | inr there ↦
            subst (λ b. IsTriangular maxrow (if b then mat else next)) (sym there)
              (make_equation-IsTriangular p h one_lt prime maxrow keep_all_outs kept i
                (mid p h maxrow i mat ok) (mid-IsReduced p h maxrow i mat ok inside)
                (subst (λ n. i < n) (sym (length-mid p h maxrow i mat ok inside)) inside)
                (subst (λ eqs. IsLate eqs maxrow (row (mid p h maxrow i mat ok).rows_ i).cells i)
                  (sym (mid-var_eq_ p h maxrow i mat ok inside)) late)
                (IsTriangular-moved p i mat (mid p h maxrow i mat ok)
                  (mid_others p h maxrow i mat ok inside) maxrow ok triangular
                  (λ c. inl (ap (λ l. get_or l c no_eq) (mid-var_eq_ p h maxrow i mat ok inside)))
                  late))
      ]
    where
      next : SparseMatrix
      next = make_equation (new_mod p) maxrow keep_all_outs i (mid p h maxrow i mat ok)

      late : IsLate mat.var_eq_ maxrow (row (mid p h maxrow i mat ok).rows_ i).cells i
      late x has less = omega (
        arith,
        small,
        substitute_row-search p h maxrow i mat ok triangular small inside,
        search-IsLate p h maxrow i mat ok triangular small (row (mid p h maxrow i mat ok).rows_ i)
            (mid-IsRow p h maxrow i mat ok inside) x has less,
      )

  echelon_rows-IsTriangular :
      (n i : ℕ) (mat : SparseMatrix)
      → IsReduced p mat i
      → i + n ≡ length mat.rows_
      → length mat.rows_ ≤ no_eq
      → IsTriangular maxrow mat
      → IsTriangular maxrow (echelon_rows (new_mod p) maxrow keep_all_outs i n mat)
  unfolding echelon_rows
  echelon_rows-IsTriangular zero i mat ok whole small triangular = triangular
  echelon_rows-IsTriangular (suc n) i mat ok whole small triangular =
      let step = echelon_row-IsStep i mat ok (omega (arith, whole)) in
      echelon_rows-IsTriangular n (suc i) (echelon_row (new_mod p) maxrow keep_all_outs i mat)
        step.reduced (omega (arith, whole, step.size)) (omega (arith, small, step.size))
        (echelon_row-IsTriangular i mat ok (omega (arith, whole)) (omega (arith, whole, small))
          triangular)

  record IsEchelon (n : ℕ) (mat mat' : SparseMatrix) : Type 0 where
    pub reduced : IsReduced p mat' n
    pub same : (x : ℕ → ℕ) → Solution p x mat ↔ Solution p x mat'

  echelon_rows_lem :
      (n i : ℕ) (mat : SparseMatrix)
      → IsReduced p mat i
      → i + n ≡ length mat.rows_
      → IsEchelon (i + n) mat (echelon_rows (new_mod p) maxrow keep_all_outs i n mat)
  unfolding echelon_rows
  echelon_rows_lem zero i mat ok whole = record {
    reduced = subst (IsReduced p mat) (omega arith) ok;
    same = λ x. (λ s. s, λ s. s);
  }
  echelon_rows_lem (suc n) i mat ok whole =
      let step = echelon_row-IsStep i mat ok (omega (arith, whole)) in
      let rest =
        echelon_rows_lem n (suc i) (echelon_row (new_mod p) maxrow keep_all_outs i mat) step.reduced
          (omega (arith, whole, step.size)) in
      record {
        reduced =
            subst
              (IsReduced p (
                echelon_rows (new_mod p) maxrow keep_all_outs (suc i) n
                  (echelon_row (new_mod p) maxrow keep_all_outs i mat)))
              (omega arith) rest.reduced;
        same = λ x.
            (λ s. (rest.same x).0 ((step.same x).0 s), λ s. (step.same x).1 ((rest.same x).1 s));
      }

get_or-replicate : (n c d : ℕ) → get_or (replicate n d) c d ≡ d
get_or-replicate zero c d = refl
get_or-replicate (suc n) zero d = refl
get_or-replicate (suc n) (suc c) d = get_or-replicate n c d

get_or-All :
    (p : ℕ) (rows : List SparseMatrixRow) → All (IsRow p) rows → (j : ℕ) → IsRow p (row rows j)
get_or-All p [] ok j = record { sized = refl; sorted = tt; residues = tt }
get_or-All p (r ∷ rows) ok zero = ok.0
get_or-All p (r ∷ rows) ok (suc j) = get_or-All p rows ok.1 j

no_equations-IsReduced :
    (p : ℕ) (mat : SparseMatrix)
    → All (IsRow p) mat.rows_
    → IsReduced p (record mat { var_eq_ = replicate mat.m_ no_eq }) 0
no_equations-IsReduced p mat ok = record {
  rows_ok = get_or-All p mat.rows_ ok;
  equations = λ c some_eq. absurd (some_eq (get_or-replicate mat.m_ c no_eq));
}

-- For a prime p that has the range of the word-sized moduli, a matrix whose rows are sorted lists of
-- residues, and either no bound on the pivot columns or all rows kept: at any x, all rows of the matrix
-- vanish modulo p exactly when all rows of its echelon form do. All rows of the echelon form are again
-- sorted lists of residues, and each equation that `var_eq_` names for a column is a row of the matrix
-- that begins with a one at this column.
pub to_row_echolon_lem :
    (p : ℕ)
    → IsModulus p
    → 1 < p
    → ((z : ℕ) → 0 < z → z < p → Coprime z p)
    → (maxrow : ℕ) (keep_all_outs : Bool) → ((maxrow == row_end) || keep_all_outs) ≡ true
    → (mat : SparseMatrix) → All (IsRow p) mat.rows_
    → IsReduced p (to_row_echolon (new_mod p) maxrow keep_all_outs mat) (length mat.rows_)
      × ((x : ℕ → ℕ)
          → Solution p x mat ↔ Solution p x (to_row_echolon (new_mod p) maxrow keep_all_outs mat))
unfolding to_row_echolon
to_row_echolon_lem p h one_lt prime maxrow keep_all_outs kept mat ok =
    let whole =
      echelon_rows_lem p h one_lt prime maxrow keep_all_outs kept (length mat.rows_) 0
        (record mat { var_eq_ = replicate mat.m_ no_eq }) (no_equations-IsReduced p mat ok)
        (omega arith) in
    (
      subst (IsReduced p (to_row_echolon (new_mod p) maxrow keep_all_outs mat)) (omega arith)
          whole.reduced,
      whole.same,
    )

-- For a prime p that has the range of the word-sized moduli, a matrix with less than 2^32 rows, all
-- sorted lists of residues, and either no bound on the pivot columns or all rows kept: in the echelon
-- form, the row that `var_eq_` names for a column has, below `maxrow`, only columns without an equation
-- or with that of this row or a later one.
pub to_row_echolon-IsTriangular :
    (p : ℕ)
    → IsModulus p
    → 1 < p
    → ((z : ℕ) → 0 < z → z < p → Coprime z p)
    → (maxrow : ℕ) (keep_all_outs : Bool) → ((maxrow == row_end) || keep_all_outs) ≡ true
    → (mat : SparseMatrix) → All (IsRow p) mat.rows_
    → length mat.rows_ ≤ no_eq
    → IsTriangular maxrow (to_row_echolon (new_mod p) maxrow keep_all_outs mat)
unfolding to_row_echolon
to_row_echolon-IsTriangular p h one_lt prime maxrow keep_all_outs kept mat ok small =
    echelon_rows-IsTriangular p h one_lt prime maxrow keep_all_outs kept (length mat.rows_) 0
      (record mat { var_eq_ = replicate mat.m_ no_eq }) (no_equations-IsReduced p mat ok)
      (omega arith) small (λ c some_eq. absurd (some_eq (get_or-replicate mat.m_ c no_eq)))
