-- ===== src/AlgLists/MatrixMul.antt =====
-- src/alg_lists.cc: `MatrixMul` and `SparseMatrixMul`, products of matrices whose entries are in two
-- lists, by rows.
use finiteflow.Base.{
  ℕ, suc, List, [], ◌∷◌, Option, none, some, Bool, true, false, ◌&&◌, ◌+◌, ◌*◌, ◌%◌, ◌==◌, ltb,
  length, get_or, set, replicate, if◌then◌else◌,
}
use finiteflow.Modular.{Mod, add_mod, mul_mod}
use finiteflow.AlgLists.{success, failed, unsigned_mod, read, upto, all_of}

-- class MatrixMul, with the base class's `nparsin` and `nparsout`
pub record MatrixMul : Type 0 where
  pub nparsin : List ℕ
  pub nparsout : ℕ
  pub nr1_ : ℕ
  pub nc1_ : ℕ
  pub nc2_ : ℕ

-- A product or an index that is an `unsigned` wraps at 2^32.
abbrev index : ℕ → ℕ → ℕ → ℕ
index i ncols j = (i * ncols + j) % unsigned_mod

unfoldable pub matrix_mul_init : ℕ → ℕ → ℕ → MatrixMul
matrix_mul_init nrows1 ncols1 ncols2 = record {
  nparsin = nrows1 * ncols1 % unsigned_mod ∷ ncols1 * ncols2 % unsigned_mod ∷ [];
  nparsout = nrows1 * ncols2 % unsigned_mod;
  nr1_ = nrows1;
  nc1_ = ncols1;
  nc2_ = ncols2;
}

-- xout[at] += x1 x2
abbrev pub add_product : Mod → ℕ → ℕ → ℕ → List ℕ → List ℕ
add_product m x1 x2 at xout = set xout at (add_mod (get_or xout at 0) (mul_mod x1 x2 m) m)

-- A loop over a list of indices that may fault.
abbrev pub fold_option {ℓ κ} :
    {A : Type ℓ} {B : Type κ} → (A → B → Option B) → List A → B → Option B
fold_option f [] b = some b
fold_option f (x ∷ xs) b = elim (f x b) [ none ↦ none | some b' ↦ fold_option f xs b' ]

-- The inner loop, over the columns `j`; zero entries are skipped.
unfoldable pub matrix_mul_entry :
    MatrixMul → List (List ℕ) → Mod → ℕ → ℕ → ℕ → ℕ → List ℕ → Option (List ℕ)
matrix_mul_entry a xin m i k x1 j xout = elim (read xin 1 (index k a.nc2_ j)) [
  | none ↦ none
  | some x2 ↦ some (if x2 == 0 then xout else add_product m x1 x2 (index i a.nc2_ j) xout)
]

unfoldable pub matrix_mul_row : MatrixMul → List (List ℕ) → Mod → ℕ → ℕ → List ℕ → Option (List ℕ)
unfolding matrix_mul_entry
matrix_mul_row a xin m i k xout = elim (read xin 0 (index i a.nc1_ k)) [
  | none ↦ none
  | some x1 ↦
      if x1 == 0
      then some xout
      else fold_option (matrix_mul_entry a xin m i k x1) (upto 0 a.nc2_) xout
]

unfoldable pub matrix_mul_evaluate : MatrixMul → List (List ℕ) → Mod → Option (List ℕ)
unfolding matrix_mul_row
matrix_mul_evaluate a xin m =
    fold_option (λ i xout. fold_option (matrix_mul_row a xin m i) (upto 0 a.nc1_) xout)
      (upto 0 a.nr1_) (replicate a.nparsout 0)

-- SparseMatrixMul::RowInfo; `size` is the number of its columns.
pub record RowInfo : Type 0 where
  pub start : ℕ
  pub cols : List ℕ

-- class SparseMatrixMul, with the base class's `nparsin` and `nparsout`
pub record SparseMatrixMul : Type 0 where
  pub nparsin : List ℕ
  pub nparsout : ℕ
  pub row1 : List RowInfo
  pub row2 : List RowInfo
  pub nr1_ : ℕ
  pub nc1_ : ℕ
  pub nc2_ : ℕ

-- The loop that sets where each row starts: the rows, their total size, and whether all columns are
-- in range. It stops at the first row with a column out of range.
unfoldable pub start_rows : ℕ → ℕ → List RowInfo → List RowInfo × ℕ × Bool
start_rows ncols size [] = ([], size, true)
start_rows ncols size (r ∷ rs) =
    let r' : RowInfo = record r { start = size } in
    let rest = start_rows ncols (size + length r.cols) rs in
    if all_of (λ c. ltb c ncols) r.cols
    then (r' ∷ rest.0, rest.1, rest.2)
    else (r' ∷ rs, size + length r.cols, false)

-- The early returns leave `nparsin` as it is by then; an entry that is not set is 0.
unfoldable pub sparse_matrix_mul_init : SparseMatrixMul → ℕ → ℕ → ℕ → ℕ × SparseMatrixMul
unfolding start_rows
sparse_matrix_mul_init a nrows1 ncols1 ncols2 =
    let in0 = get_or a.nparsin 0 0 in
    let in1 = get_or a.nparsin 1 0 in
    let a0 : SparseMatrixMul = record a {
      nr1_ = nrows1;
      nc1_ = ncols1;
      nc2_ = ncols2;
      nparsin = in0 ∷ in1 ∷ [];
      nparsout = nrows1 * ncols2 % unsigned_mod;
    } in
    let s1 = start_rows ncols1 0 a.row1 in
    let a1 : SparseMatrixMul = record a0 { row1 = s1.0 } in
    let s2 = start_rows ncols2 0 a.row2 in
    let a2 : SparseMatrixMul = record a1 { row2 = s2.0; nparsin = s1.1 ∷ in1 ∷ [] } in
    if (length a.row1 == nrows1) && (length a.row2 == ncols1)
    then (if s1.2
        then (if s2.2 then (success, record a2 { nparsin = s1.1 ∷ s2.1 ∷ [] }) else (failed, a2))
        else (failed, a1))
    else (failed, a0)

-- The inner loop, over the columns of row `k` of the second matrix, from the entry at `x2` on.
unfoldable pub sparse_inner :
    List (List ℕ) → Mod → ℕ → ℕ → ℕ → ℕ → List ℕ → List ℕ → Option (List ℕ)
sparse_inner xin m x1 i ncols x2 [] xout = some xout
sparse_inner xin m x1 i ncols x2 (j ∷ js) xout = elim (read xin 1 x2) [
  | none ↦ none
  | some v ↦ sparse_inner xin m x1 i ncols (suc x2) js (add_product m x1 v (index i ncols j) xout)
]

abbrev pub row_info : List RowInfo → ℕ → RowInfo
row_info rows k = get_or rows k (record { start = 0; cols = [] })

-- The loop over the columns of row `i` of the first matrix, from the entry at `x1` on.
unfoldable pub sparse_row :
    SparseMatrixMul → List (List ℕ) → Mod → ℕ → ℕ → List ℕ → List ℕ → Option (List ℕ)
unfolding sparse_inner
sparse_row a xin m i x1 [] xout = some xout
sparse_row a xin m i x1 (k ∷ ks) xout = elim (read xin 0 x1) [
  | none ↦ none
  | some v ↦
      elim (sparse_inner xin m v i a.nc2_ (row_info a.row2 k).start (row_info a.row2 k).cols xout) [
        | none ↦ none
        | some xout' ↦ sparse_row a xin m i (suc x1) ks xout'
      ]
]

unfoldable pub sparse_matrix_mul_evaluate : SparseMatrixMul → List (List ℕ) → Mod → Option (List ℕ)
unfolding sparse_row
sparse_matrix_mul_evaluate a xin m =
    fold_option
      (λ i xout. sparse_row a xin m i (row_info a.row1 i).start (row_info a.row1 i).cols xout)
      (upto 0 a.nr1_) (replicate a.nparsout 0)
