-- ===== src/SparseRow.antt =====
-- include/fflow/matrix.hh and src/matrix.cc: a row of a sparse matrix, and Gauss elimination between
-- two rows. A row is the list of its cells before the `END` mark, by increasing column, with the size,
-- capacity and id that stand in front of them; the methods rely on `size` being the number of cells.
pub mod Arithmetic
pub mod Refinement
pub mod Elimination
mod Examples
use finiteflow.Base.{
  ℕ, zero, suc, List, [], ◌∷◌, ◌++◌, Bool, true, false, ◌+◌, ◌*◌, ◌%◌, ◌≤◌, ◌<◌, ◌==◌, ltb, leb,
  length, get_or, set, take, drop, replicate, if◌then◌else◌, max,
}
use Prim.Native.Nat.{compare, Ordering}
use finiteflow.Modular.{Mod, mul_mod, sub_mod, neg_mod, ambc_mod, precomp_mul_shoup, mul_mod_shoup}

-- union SparseMatCell, in its use as a cell
pub record Cell : Type 0 where
  pub col : ℕ
  pub val : ℕ

-- class SparseMatrixRow, with the fields of the cell in front
pub record SparseMatrixRow : Type 0 where
  pub size : ℕ
  pub cap : ℕ
  pub id : ℕ
  pub cells : List Cell

-- SparseMatrixRow::END and NO_EQ
abbrev pub row_end : ℕ
row_end = 0xffff_ffff

abbrev pub no_eq : ℕ
no_eq = 0xffff_ffff

abbrev pub new_row : SparseMatrixRow
new_row = record { size = 0; cap = 8; id = 0; cells = [] }

unfoldable pub resize_needed : SparseMatrixRow → ℕ → Bool
resize_needed r n = ltb r.cap n

unfoldable pub resize : SparseMatrixRow → ℕ → SparseMatrixRow
unfolding resize_needed
resize r n =
    let r' : SparseMatrixRow =
      if resize_needed r n
      then record r { cap = max (2 * r.cap % 0x1_0000_0000) (n % 0x1_0000_0000) }
      else r in
    record r' { size = n % 0x1_0000_0000 }

-- One cell more than the size says is copied, which is the mark in a row that has as many cells as it
-- says. In a longer one the cells of `oth` follow. The id is not copied.
unfoldable pub copy_into : SparseMatrixRow → SparseMatrixRow → SparseMatrixRow
unfolding resize
copy_into r oth = record (resize oth r.size) {
  cells =
      if leb (length r.cells) r.size
      then r.cells
      else take (suc r.size) r.cells ++ drop (suc r.size) oth.cells;
}

unfoldable pub clear : SparseMatrixRow → SparseMatrixRow
clear r = record r { size = 0; cells = [] }

-- `el(0).col`, which is `END` in an empty row
abbrev pub first_column : List Cell → ℕ
first_column [] = row_end
first_column (c ∷ cs) = c.col

unfoldable pub first_nonzero_column : SparseMatrixRow → ℕ
first_nonzero_column r = first_column r.cells

abbrev pub first_val : List Cell → ℕ
first_val [] = 0
first_val (c ∷ cs) = c.val

-- `get_first()`
unfoldable pub get_first : SparseMatrixRow → ℕ
get_first r = first_val r.cells

-- `get_first(col)`
abbrev pub get_first_at : SparseMatrixRow → ℕ → ℕ
get_first_at r col = if first_column r.cells == col then first_val r.cells else 0

unfoldable pub is_zero : SparseMatrixRow → Bool
is_zero r = first_column r.cells == row_end

abbrev pub get_cell : List Cell → ℕ → ℕ
get_cell [] x = 0
get_cell (c ∷ cs) x = if ltb c.col x then get_cell cs x else (if c.col == x then c.val else 0)

unfoldable pub get : SparseMatrixRow → ℕ → ℕ
get r x = get_cell r.cells x

-- `fromDenseMatrixRow`: the cells from column `i` on. The dense row has its id after its columns.
abbrev pub dense_cells : ℕ → List ℕ → List Cell
dense_cells i [] = []
dense_cells i (x ∷ xs) =
    let rest = dense_cells (suc i) xs in if x == 0 then rest else record { col = i; val = x } ∷ rest

-- The size is written by `resize` only, so only if the capacity was too small.
unfoldable pub from_dense : SparseMatrixRow → List ℕ → ℕ → Bool → SparseMatrixRow
unfolding resize resize_needed
from_dense row r ncols incl_id =
    let cs = dense_cells 0 (take ncols r) in
    let row' : SparseMatrixRow =
      if resize_needed row (length cs) then resize row (length cs) else row in
    record row' { id = if incl_id then get_or r ncols 0 else row'.id; cells = cs }

abbrev pub write_cells : List Cell → List ℕ → List ℕ
write_cells [] r = r
write_cells (c ∷ cs) r = write_cells cs (set r c.col c.val)

unfoldable pub to_dense : SparseMatrixRow → ℕ → List ℕ
to_dense row ncols = write_cells row.cells (replicate ncols 0)

abbrev pub mul_cells : ℕ → Mod → List Cell → List Cell
mul_cells z m [] = []
mul_cells z m (c ∷ cs) = record c { val = mul_mod c.val z m } ∷ mul_cells z m cs

unfoldable pub mul : SparseMatrixRow → ℕ → Mod → SparseMatrixRow
mul r z m = record r { cells = mul_cells z m r.cells }

-- The loops over the columns below `maxrow` for the least equation that solves for one of them. An
-- entry of `eqs` is `NO_EQ` where no equation does.
abbrev pub least_eq : List ℕ → ℕ → ℕ → List Cell → ℕ
least_eq eqs maxrow eq [] = eq
least_eq eqs maxrow eq (c ∷ cs) =
    let rest =
      least_eq eqs maxrow (if ltb (get_or eqs c.col no_eq) eq then get_or eqs c.col no_eq else eq)
        cs in
    if ltb c.col maxrow then rest else eq

unfoldable pub eq_to_substitute : SparseMatrixRow → List ℕ → ℕ → ℕ
eq_to_substitute r eqs maxrow = least_eq eqs maxrow no_eq r.cells

-- The same without the first column.
unfoldable pub eq_to_back_substitute : SparseMatrixRow → List ℕ → ℕ → ℕ
eq_to_back_substitute r eqs maxrow = least_eq eqs maxrow no_eq (drop 1 r.cells)

abbrev pub first_eq : List ℕ → ℕ → List Cell → ℕ
first_eq eqs maxrow [] = no_eq
first_eq eqs maxrow (c ∷ cs) =
    let rest = first_eq eqs maxrow cs in
    if ltb c.col maxrow
    then (if get_or eqs c.col no_eq == no_eq then rest else get_or eqs c.col no_eq)
    else no_eq

unfoldable pub any_eq_to_substitute : SparseMatrixRow → List ℕ → ℕ → ℕ
any_eq_to_substitute r eqs maxrow = first_eq eqs maxrow r.cells

-- struct GaussArithmetic, for the multiplier `r1p` of one elimination: a - b c, and -(a b).
pub record GaussArithmetic : Type 0 where
  pub ambc : ℕ → ℕ → ℕ
  pub negmul : ℕ → ℕ

unfoldable pub gauss_plain : ℕ → Mod → GaussArithmetic
gauss_plain r1p m = record {
  ambc = λ a b. ambc_mod a b r1p m;
  negmul = λ a. neg_mod (mul_mod a r1p m) m;
}

unfoldable pub gauss_shoup : ℕ → Mod → GaussArithmetic
gauss_shoup r1p m = record {
  ambc = λ a b. sub_mod a (mul_mod_shoup b r1p (precomp_mul_shoup r1p m) m) m;
  negmul = λ a. neg_mod (mul_mod_shoup a r1p (precomp_mul_shoup r1p m) m) m;
}

-- The loop over the two rows after the pivot; each round copies, combines or negates one cell, as the
-- three inner loops of the source do.
unfoldable pub eliminate_cells : GaussArithmetic → List Cell → List Cell → List Cell
eliminate_cells ga [] [] = []
eliminate_cells ga (c ∷ cs) [] = c ∷ eliminate_cells ga cs []
eliminate_cells ga [] (d ∷ ds) = record d { val = ga.negmul d.val } ∷ eliminate_cells ga [] ds
eliminate_cells ga (c ∷ cs) (d ∷ ds) = elim (compare c.col d.col) [
  | Ordering.lt ↦ c ∷ eliminate_cells ga cs (d ∷ ds)
  | Ordering.eq ↦
      let rest = eliminate_cells ga cs ds in
      let res = ga.ambc c.val d.val in if res == 0 then rest else record c { val = res } ∷ rest
  | Ordering.gt ↦ record d { val = ga.negmul d.val } ∷ eliminate_cells ga (c ∷ cs) ds
]

-- The cells before the pivot are copied. The code assumes that `r1` has the pivot's column.
unfoldable pub eliminate_at : (ℕ → GaussArithmetic) → ℕ → List Cell → List Cell → List Cell
unfolding eliminate_cells
eliminate_at ga pivot [] ds = []
eliminate_at ga pivot (c ∷ cs) ds =
    let rest = eliminate_at ga pivot cs ds in
    if ltb c.col pivot then c ∷ rest else eliminate_cells (ga c.val) cs (drop 1 ds)

abbrev pub gauss_shoup_threshold : ℕ
gauss_shoup_threshold = 4

-- `this` becomes r1 - r1(pivot) r2.
unfoldable pub gauss_elimination :
    SparseMatrixRow → SparseMatrixRow → SparseMatrixRow → ℕ → Mod → SparseMatrixRow
unfolding resize eliminate_at gauss_plain gauss_shoup
gauss_elimination row r1 r2 pivot m =
    let cs =
      if ltb r2.size gauss_shoup_threshold
      then eliminate_at (λ r1p. gauss_plain r1p m) pivot r1.cells r2.cells
      else eliminate_at (λ r1p. gauss_shoup r1p m) pivot r1.cells r2.cells in
    record (resize row ((r1.size + r2.size) % 0x1_0000_0000)) {
      size = length cs;
      id = r1.id;
      cells = cs;
    }
