-- ===== src/MatrixView.antt =====
-- include/fflow/matrix.hh and src/matrix.cc: dense matrices and their reduction to row echelon form. A
-- matrix is the list of its rows, in the order of the row pointers; all rows have the same length. The
-- methods on systems read the last column as right-hand sides, and are for at least one variable.
use finiteflow.Base.{
  ℕ, zero, suc, List, [], ◌∷◌, map, Option, none, some, Bool, true, false, ◌&&◌, ◌-◌, ◌==◌, length,
  get_or, set, take, drop, if◌then◌else◌,
}
use finiteflow.Modular.{Mod, mul_inv, mul_mod, sub_mod, mul_mod_shoup, precomp_mul_shoup}

abbrev pub row : List (List ℕ) → ℕ → List ℕ
row rows i = get_or rows i []

unfoldable pub el : List (List ℕ) → ℕ → ℕ → ℕ
el rows i j = get_or (row rows i) j 0

unfoldable pub swap_rows : List (List ℕ) → ℕ → ℕ → List (List ℕ)
swap_rows rows i j = set (set rows i (row rows j)) j (row rows i)

-- The search for a row with a non-zero entry in column `k`, from row `p` on.
unfoldable pub find_pivot : ℕ → ℕ → List (List ℕ) → Option ℕ
find_pivot k p [] = none
find_pivot k p (r ∷ rs) =
    let rest = find_pivot k (suc p) rs in if get_or r k 0 == 0 then rest else some p

-- elr[k] = 1, and the entries after it times `ielrk`. The entries before column `k` are untouched.
abbrev pub scale_entries : ℕ → Mod → List ℕ → List ℕ
scale_entries z m [] = []
scale_entries z m (x ∷ xs) = (if x == 0 then x else mul_mod x z m) ∷ scale_entries z m xs

abbrev pub scale_row : ℕ → ℕ → Mod → List ℕ → List ℕ
scale_row z k m [] = []
scale_row z zero m (x ∷ xs) = 1 ∷ scale_entries z m xs
scale_row z (suc k) m (x ∷ xs) = x ∷ scale_row z k m xs

-- eli[j] -= elr[j] elik, where elr[j] is not zero
abbrev pub sub_entries : ℕ → Mod → List ℕ → List ℕ → List ℕ
sub_entries z m [] ys = []
sub_entries z m (x ∷ xs) [] = x ∷ xs
sub_entries z m (x ∷ xs) (y ∷ ys) =
    (if y == 0 then x else sub_mod x (mul_mod_shoup y z (precomp_mul_shoup z m) m) m)
    ∷ sub_entries z m xs ys

-- eli[k] = 0, and the rest of row i minus elik times the rest of row r, if elik is not zero.
abbrev pub eliminate_row : ℕ → Mod → List ℕ → List ℕ → List ℕ
eliminate_row k m [] elr = []
eliminate_row k m (x ∷ xs) [] = x ∷ xs
eliminate_row zero m (x ∷ xs) (y ∷ ys) = if x == 0 then 0 ∷ xs else 0 ∷ sub_entries x m xs ys
eliminate_row (suc k) m (x ∷ xs) (y ∷ ys) = x ∷ eliminate_row k m xs ys

-- The first `n` rows, or the rows from `n` on, with column `k` eliminated by `elr`.
abbrev pub eliminate_after : ℕ → ℕ → Mod → List ℕ → List (List ℕ) → List (List ℕ)
eliminate_after zero k m elr rows = map (λ eli. eliminate_row k m eli elr) rows
eliminate_after (suc n) k m elr [] = []
eliminate_after (suc n) k m elr (r ∷ rs) = r ∷ eliminate_after n k m elr rs

abbrev pub eliminate_before : ℕ → ℕ → Mod → List ℕ → List (List ℕ) → List (List ℕ)
eliminate_before zero k m elr rows = rows
eliminate_before (suc n) k m elr [] = []
eliminate_before (suc n) k m elr (r ∷ rs) = eliminate_row k m r elr ∷ eliminate_before n k m elr rs

-- One round of `toRowEcholon` with the pivot of column `k` in row `p`.
unfoldable pub pivot_round : ℕ → ℕ → ℕ → Mod → List (List ℕ) → List (List ℕ)
unfolding swap_rows
pivot_round r p k m rows =
    let swapped = if r == p then rows else swap_rows rows r p in
    let elr = row swapped r in
    let ielrk = if get_or elr k 0 == 1 then 1 else mul_inv (get_or elr k 0) m in
    let scaled = scale_row ielrk k m elr in
    eliminate_after (suc r) k m scaled (set swapped r scaled)

-- The loop over the columns from `k` on, `n` of them; `r` is the next row.
unfoldable pub echelon_columns : ℕ → ℕ → ℕ → Mod → List (List ℕ) → List (List ℕ)
unfolding pivot_round find_pivot
echelon_columns zero k r m rows = rows
echelon_columns (suc n) k r m rows = elim (find_pivot k r (drop r rows)) [
  | none ↦ echelon_columns n (suc k) r m rows
  | some p ↦ echelon_columns n (suc k) (suc r) m (pivot_round r p k m rows)
]

unfoldable pub to_row_echolon : ℕ → Mod → List (List ℕ) → List (List ℕ)
unfolding echelon_columns
to_row_echolon ncols m rows = echelon_columns ncols 0 0 m rows

-- The first column of a row that is not zero, from column `j` on.
abbrev pub first_column : ℕ → List ℕ → Option ℕ
first_column j [] = none
first_column j (x ∷ xs) = let rest = first_column (suc j) xs in if x == 0 then rest else some j

-- The loop over the rows below `r`, from the last to the first.
unfoldable pub reduce_rows : ℕ → Mod → List (List ℕ) → List (List ℕ)
reduce_rows zero m rows = rows
reduce_rows (suc r) m rows = reduce_rows r m (elim (first_column 0 (row rows r)) [
  | none ↦ rows
  | some p ↦ eliminate_before r p m (row rows r) rows
])

unfoldable pub to_reduced_row_echolon : ℕ → Mod → List (List ℕ) → List (List ℕ)
unfolding to_row_echolon reduce_rows
to_reduced_row_echolon ncols m rows = reduce_rows (length rows) m (to_row_echolon ncols m rows)

-- The last row with a non-zero right-hand side, which is the last entry of the row.
abbrev pub last_rhs : ℕ → List (List ℕ) → Option (List ℕ)
last_rhs k [] = none
last_rhs k (r ∷ rs) = elim (last_rhs k rs) [
  | some found ↦ some found
  | none ↦ if get_or r k 0 == 0 then none else some r
]

abbrev pub all_zero : List ℕ → Bool
all_zero [] = true
all_zero (x ∷ xs) = (x == 0) && all_zero xs

unfoldable pub is_impossible_system : ℕ → List (List ℕ) → Bool
is_impossible_system ncols rows = elim (last_rhs (ncols - 1) rows) [
  | none ↦ false
  | some r ↦ all_zero (take (ncols - 1) r)
]

-- Row `j` of an identity matrix, from column `i` on.
abbrev pub is_unit_row : ℕ → ℕ → List ℕ → Bool
is_unit_row j i [] = true
is_unit_row j i (x ∷ xs) = (if j == i then x == 1 else x == 0) && is_unit_row j (suc i) xs

abbrev pub are_unit_rows : ℕ → ℕ → List (List ℕ) → Bool
are_unit_rows nvars j [] = true
are_unit_rows nvars j (r ∷ rs) = is_unit_row j 0 (take nvars r) && are_unit_rows nvars (suc j) rs

unfoldable pub is_zero_dim_system : ℕ → List (List ℕ) → Bool
is_zero_dim_system ncols rows = are_unit_rows (ncols - 1) 0 rows

-- The columns before the last that are independent, or dependent, of the rows of an echelon form;
-- `left` counts the columns from `col` on.
abbrev pub count_from : ℕ → ℕ → List ℕ
count_from col zero = []
count_from col (suc left) = col ∷ count_from (suc col) left

abbrev pub independent_from : ℕ → ℕ → List (List ℕ) → List ℕ
independent_from col left [] = count_from col left
independent_from col zero (r ∷ rs) = []
independent_from col (suc left) (r ∷ rs) = elim (get_or r col 0) [
  | zero ↦ col ∷ independent_from (suc col) left (r ∷ rs)
  | suc x ↦ independent_from (suc col) left rs
]

unfoldable pub independent_vars : ℕ → List (List ℕ) → List ℕ
independent_vars ncols rows = independent_from 0 (ncols - 1) rows

abbrev pub dependent_from : ℕ → ℕ → List (List ℕ) → List ℕ
dependent_from col left [] = []
dependent_from col zero (r ∷ rs) = []
dependent_from col (suc left) (r ∷ rs) = elim (get_or r col 0) [
  | zero ↦ dependent_from (suc col) left (r ∷ rs)
  | suc x ↦ col ∷ dependent_from (suc col) left rs
]

unfoldable pub dependent_vars : ℕ → List (List ℕ) → List ℕ
dependent_vars ncols rows = dependent_from 0 (ncols - 1) rows
