-- ===== src/SparseMatrix.antt =====
-- include/fflow/matrix.hh and src/matrix.cc: the sparse matrix and its reduction to row echelon form.
-- The two working rows stand apart from the rows of the matrix. A row out of range reads as an empty
-- one. The dependencies of each row are always collected; the source does so if it is asked to.
pub mod Columns
pub mod Dot
pub mod Rows
pub mod Solutions
pub mod Scaling
pub mod Substitution
pub mod Termination
pub mod Equations
pub mod Echelon
mod Examples
use finiteflow.Base.{
  ℕ, zero, suc, List, [], ◌∷◌, ◌++◌, map, Bool, false, not, ◌||◌, ◌-◌, ◌==◌, ltb, leb, length,
  get_or, set, replicate, if◌then◌else◌,
}
use finiteflow.Modular.{Mod, mul_inv}
use finiteflow.SparseRow.{
  SparseMatrixRow, row_end, no_eq, new_row, copy_into, clear, first_nonzero_column, get_first, get,
  is_zero, from_dense, to_dense, mul, eq_to_substitute, eq_to_back_substitute, gauss_elimination,
}

-- class SparseMatrix
pub record SparseMatrix : Type 0 where
  pub rows_ : List SparseMatrixRow
  pub working_0 : SparseMatrixRow
  pub working_1 : SparseMatrixRow
  pub m_ : ℕ
  pub var_eq_ : List ℕ
  pub eqdeps : List (List ℕ)

abbrev pub row : List SparseMatrixRow → ℕ → SparseMatrixRow
row rows i = get_or rows i new_row

unfoldable pub el : SparseMatrix → ℕ → ℕ → ℕ
el mat i j = get (row mat.rows_ i) j

-- `resize` on a matrix with another number of rows makes all rows anew; `var_eq_` is not filled, so
-- its entries are not specified, and stand as `NO_EQ`.
unfoldable pub resize : SparseMatrix → ℕ → ℕ → SparseMatrix
resize mat n m =
    let mat' : SparseMatrix =
      if length mat.rows_ == n
      then mat
      else record mat { rows_ = replicate n new_row; working_0 = new_row; working_1 = new_row } in
    record mat' { m_ = m; var_eq_ = replicate m no_eq }

abbrev pub rows_from_dense : List SparseMatrixRow → List (List ℕ) → ℕ → Bool → List SparseMatrixRow
rows_from_dense [] ds m incl_id = []
rows_from_dense (r ∷ rs) [] m incl_id = r ∷ rs
rows_from_dense (r ∷ rs) (d ∷ ds) m incl_id =
    from_dense r d m incl_id ∷ rows_from_dense rs ds m incl_id

unfoldable pub from_dense_matrix : SparseMatrix → List (List ℕ) → ℕ → Bool → SparseMatrix
unfolding resize
from_dense_matrix mat ds m incl_id =
    let mat' = resize mat (length ds) m in
    record mat' { rows_ = rows_from_dense mat'.rows_ ds m incl_id }

unfoldable pub to_dense_matrix : SparseMatrix → List (List ℕ)
to_dense_matrix mat = map (λ r. to_dense r mat.m_) mat.rows_

-- What one run of the substitution loop works on: the current row in working row 1, the other
-- working row, and the equations that were substituted.
pub record Working : Type 0 where
  pub current : SparseMatrixRow
  pub other : SparseMatrixRow
  pub deps : List ℕ

-- One round: working row 0 takes the result, and the working rows are swapped.
unfoldable pub substitute : List SparseMatrixRow → Mod → ℕ → Working → Working
substitute rows m eq w = record {
  current =
      gauss_elimination w.other w.current (row rows eq) (first_nonzero_column (row rows eq)) m;
  other = w.current;
  deps = w.deps ++ eq ∷ [];
}

-- The rounds of the loop, from the equation that was found on.
unfoldable pub substitute_from :
    ℕ → (SparseMatrixRow → ℕ) → List SparseMatrixRow → Mod → ℕ → Working → Working
unfolding substitute
substitute_from zero find rows m eq w = w
substitute_from (suc fuel) find rows m eq w =
    let w' = substitute rows m eq w in
    let rest = substitute_from fuel find rows m (find w'.current) w' in
    if eq == no_eq then w else rest

-- The whole loop for row `i`. The row is copied into working row 1 before the first round and back
-- after the last, if there was one. There is fuel for one round for each row.
unfoldable pub substitute_row : (SparseMatrixRow → ℕ) → Mod → ℕ → SparseMatrix → SparseMatrix
unfolding substitute_from
substitute_row find m i mat =
    let r = row mat.rows_ i in
    let w =
      substitute_from (length mat.rows_) find mat.rows_ m (find r)
        (record { current = copy_into r mat.working_1; other = mat.working_0; deps = [] }) in
    if find r == no_eq then mat else record mat {
      rows_ = set mat.rows_ i (copy_into w.current r);
      working_1 = w.current;
      working_0 = w.other;
      eqdeps = set mat.eqdeps i (get_or mat.eqdeps i [] ++ w.deps);
    }

-- The rest of the round for row `i`: it becomes the equation of its first column, or is cleared, and
-- its first value becomes one.
unfoldable pub make_equation : Mod → ℕ → Bool → ℕ → SparseMatrix → SparseMatrix
make_equation m maxrow keep_all_outs i mat =
    let r = row mat.rows_ i in
    let elif = get_first r in
    let first = first_nonzero_column r in
    let is_new = (maxrow == row_end) || (get_or mat.var_eq_ first no_eq == no_eq) in
    let r' = if is_new || keep_all_outs then r else clear r in
    if elif == 0 then mat else record mat {
      var_eq_ = if is_new then set mat.var_eq_ first i else mat.var_eq_;
      rows_ = set mat.rows_ i (if elif == 1 then r' else mul r' (mul_inv elif m) m);
    }

unfoldable pub echelon_row : Mod → ℕ → Bool → ℕ → SparseMatrix → SparseMatrix
unfolding substitute_row make_equation
echelon_row m maxrow keep_all_outs i mat =
    let mat' = substitute_row (λ r. eq_to_substitute r mat.var_eq_ maxrow) m i mat in
    if get_first (row mat.rows_ i) == 0 then mat else make_equation m maxrow keep_all_outs i mat'

-- The rows from `i` on, `n` of them.
unfoldable pub echelon_rows : Mod → ℕ → Bool → ℕ → ℕ → SparseMatrix → SparseMatrix
unfolding echelon_row
echelon_rows m maxrow keep_all_outs i zero mat = mat
echelon_rows m maxrow keep_all_outs i (suc n) mat =
    echelon_rows m maxrow keep_all_outs (suc i) n (echelon_row m maxrow keep_all_outs i mat)

unfoldable pub to_row_echolon : Mod → ℕ → Bool → SparseMatrix → SparseMatrix
unfolding echelon_rows
to_row_echolon m maxrow keep_all_outs mat =
    echelon_rows m maxrow keep_all_outs 0 (length mat.rows_)
      (record mat { var_eq_ = replicate mat.m_ no_eq })

-- `std::remove_if` moves the rows that stay to the front, in order. What it leaves behind them is not
-- specified; here the removed rows stand there.
abbrev pub kept_rows : (SparseMatrixRow → Bool) → List SparseMatrixRow → List SparseMatrixRow
kept_rows remove [] = []
kept_rows remove (r ∷ rs) = let rest = kept_rows remove rs in if remove r then rest else r ∷ rest

-- The loop that fills `var_eq_`, from row `i` on.
abbrev pub number_equations : ℕ → List SparseMatrixRow → List ℕ → List ℕ
number_equations i [] var_eq = var_eq
number_equations i (r ∷ rs) var_eq =
    number_equations (suc i) rs (set var_eq (first_nonzero_column r) i)

abbrev pub is_needed : List Bool → SparseMatrixRow → Bool
is_needed needed r = get_or needed (first_nonzero_column r) false

-- The loop of back substitution. `needed` holds the flag `IS_NEEDED` of each variable; a caller that
-- gives no flags needs all.
unfoldable pub back_substitute_rows : Mod → ℕ → List Bool → ℕ → ℕ → SparseMatrix → SparseMatrix
unfolding substitute_row
back_substitute_rows m maxrow needed i zero mat = mat
back_substitute_rows m maxrow needed i (suc n) mat =
    back_substitute_rows m maxrow needed (suc i) n (
      if is_needed needed (row mat.rows_ i)
      then substitute_row (λ r. eq_to_back_substitute r mat.var_eq_ maxrow) m i mat
      else mat)

unfoldable pub to_reduced_row_echolon :
    Mod → ℕ → Bool → Bool → List Bool → SparseMatrix → SparseMatrix
unfolding to_row_echolon back_substitute_rows
to_reduced_row_echolon m maxrow reduced keep_all_outs needed mat =
    let mat' = to_row_echolon m maxrow keep_all_outs mat in
    let kept = kept_rows is_zero mat'.rows_ in
    let numbered : SparseMatrix = record mat' {
      rows_ = kept ++ kept_rows (λ r. not (is_zero r)) mat'.rows_;
      var_eq_ = number_equations 0 kept (replicate mat'.m_ no_eq);
    } in
    if not reduced || ltb (length kept) 2
    then numbered
    else back_substitute_rows m maxrow needed 0 (length kept - 1) numbered

unfoldable pub remove_zero_deps : Bool → SparseMatrix → ℕ × SparseMatrix
remove_zero_deps remove_zerovars mat =
    let kept = kept_rows (λ r. leb r.size (if remove_zerovars then 1 else 0)) mat.rows_ in
    (length kept, record mat { rows_ = kept })

-- The last column stands for the right-hand sides: an equation for it says 1 = 0.
unfoldable pub is_impossible_system : SparseMatrix → Bool
is_impossible_system mat = not (get_or mat.var_eq_ (mat.m_ - 1) no_eq == no_eq)
