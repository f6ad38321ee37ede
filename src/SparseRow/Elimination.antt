-- ===== src/SparseRow/Elimination.antt =====
-- `SparseMatrixRow::gauss_elimination` as a whole: the row that it gives, and the room that it takes.
use native.Mathlib.Nat.{mod-eq_of_lt}
use finiteflow.Base.{
  ℕ, suc, List, [], ◌∷◌, ◌⊎◌, inl, inr, ◌+◌, ◌*◌, ◌%◌, ◌<◌, ◌≤◌, ◌≡◌, ap, ap₂, sym, ◌∙◌, refl,
  arith, ltb, drop, length, if◌then◌else◌, Bool-cases, ltb→lt, ltb→le, subst,
}
use finiteflow.Ffmod.{IsModulus}
use finiteflow.Modular.{new_mod}
use finiteflow.SparseRow.{
  Cell, SparseMatrixRow, get_cell, get, get_first, first_nonzero_column, first_val, first_column,
  resize, resize_needed, GaussArithmetic, gauss_plain, gauss_shoup, gauss_shoup_threshold,
  eliminate_cells, eliminate_at, gauss_elimination,
}
use finiteflow.SparseRow.Arithmetic.{Eliminates, gauss_plain-Eliminates, gauss_shoup-Eliminates}
use finiteflow.SparseRow.Refinement.{
  SortedFrom, ResidueCells, SortedFrom-mono, get_cell_below, get_cell-lt, get_cell_here,
  get_cell_later, Eliminated, Eliminated-copy, back_step, eliminate_cells-Eliminated,
}

abbrev pub HasColumn : ℕ → List Cell → Type 0
HasColumn x [] = ⊥
HasColumn x (c ∷ cs) = (c.col ≡ x) ⊎ HasColumn x cs

pub HasColumn-le : (lb x : ℕ) (cs : List Cell) → SortedFrom lb cs → HasColumn x cs → lb ≤ x
HasColumn-le lb x (c ∷ cs) s h = elim h [
  | inl here ↦ omega (arith, s.0, here)
  | inr later ↦ omega (arith, s.0, HasColumn-le (suc c.col) x cs s.2 later)
]
HasColumn-le lb x [] s h = absurd h

module _ (p : ℕ) (positive : 0 < p) (ga : ℕ → GaussArithmetic)
    (e : (k : ℕ) → k < p → Eliminates p k (ga k)) where
  pub eliminate_at-before :
      (pivot : ℕ) (c : Cell) (cs ds : List Cell)
      → c.col < pivot
      → eliminate_at ga pivot (c ∷ cs) ds ≡ c ∷ eliminate_at ga pivot cs ds
  unfolding eliminate_at
  eliminate_at-before pivot c cs ds h = ground arith

  pub eliminate_at-pivot :
      (pivot : ℕ) (c : Cell) (cs ds : List Cell)
      → pivot ≤ c.col
      → eliminate_at ga pivot (c ∷ cs) ds ≡ eliminate_cells (ga c.val) cs (drop 1 ds)
  unfolding eliminate_at
  eliminate_at-pivot pivot c cs ds h = ground arith

  eliminate_at-Eliminated :
      (pivot lb : ℕ) (cs : List Cell) (d : Cell) (ds : List Cell)
      → SortedFrom lb cs
      → HasColumn pivot cs
      → SortedFrom pivot (d ∷ ds)
      → d.col ≡ pivot
      → d.val ≡ 1
      → ResidueCells p cs
      → ResidueCells p (d ∷ ds)
      → Eliminated p (get_cell cs pivot) lb cs (d ∷ ds) (eliminate_at ga pivot cs (d ∷ ds))
  eliminate_at-Eliminated pivot lb [] d ds sc has sd here one rc rd = absurd has
  eliminate_at-Eliminated pivot lb (c ∷ cs) d ds sc has sd here one rc rd =
      elim (Bool-cases (ltb c.col pivot)) [
        | inl before ↦
            subst (Eliminated p (get_cell (c ∷ cs) pivot) lb (c ∷ cs) (d ∷ ds))
              (sym (eliminate_at-before pivot c cs (d ∷ ds) (ltb→lt c.col pivot before)))
              (subst
                (λ k. Eliminated p k lb (c ∷ cs) (d ∷ ds) (c ∷ eliminate_at ga pivot cs (d ∷ ds)))
                (sym (get_cell_later c cs pivot (ltb→lt c.col pivot before)))
                (Eliminated-copy p (get_cell cs pivot) (ga (get_cell cs pivot)) positive
                  (e (get_cell cs pivot) (get_cell-lt p pivot cs positive rc.1)) lb c cs (d ∷ ds)
                  (eliminate_at ga pivot cs (d ∷ ds)) sc rc.0
                  (SortedFrom-mono pivot (suc c.col) (d ∷ ds) (ltb→lt c.col pivot before) sd)
                  (eliminate_at-Eliminated pivot (suc c.col) cs d ds sc.2
                    (elim has [
                      | inl at ↦ absurd (omega (arith, ltb→lt c.col pivot before, at))
                      | inr later ↦ later
                    ])
                    sd here one rc.1 rd)))
        | inr reached ↦
            let at : c.col ≡ pivot = elim has [
              | inl at ↦ at
              | inr later ↦ absurd (
                  omega (
                    arith,
                    ltb→le c.col pivot reached,
                    HasColumn-le (suc c.col) pivot cs sc.2 later,
                  ))
            ] in
            subst (Eliminated p (get_cell (c ∷ cs) pivot) lb (c ∷ cs) (d ∷ ds))
              (sym (eliminate_at-pivot pivot c cs (d ∷ ds) (ltb→le c.col pivot reached)))
              (subst (λ k. Eliminated p k lb (c ∷ cs) (d ∷ ds) (eliminate_cells (ga c.val) cs ds))
                (sym (ap (get_cell (c ∷ cs)) (sym at) ∙ get_cell_here c cs)) (at_pivot at))
      ]
    where
      at_pivot :
          c.col ≡ pivot → Eliminated p c.val lb (c ∷ cs) (d ∷ ds) (eliminate_cells (ga c.val) cs ds)
      at_pivot at =
          let r =
            eliminate_cells-Eliminated p c.val (ga c.val) positive (e c.val rc.0) (suc c.col) cs ds
              sc.2 (subst (λ t. SortedFrom (suc t) ds) (here ∙ sym at) sd.2) rc.1 rd.1 in
          record {
            sorted =
                SortedFrom-mono (suc c.col) lb (eliminate_cells (ga c.val) cs ds)
                  (omega (arith, sc.0)) r.sorted;
            residues = r.residues;
            back =
                back_step p c.val (ga c.val) positive (e c.val rc.0) c.col (c ∷ cs) (d ∷ ds)
                  (eliminate_cells (ga c.val) cs ds) (omega arith, sc.1, sc.2)
                  (omega (arith, here, at), sd.1, sd.2)
                  (SortedFrom-mono (suc c.col) c.col (eliminate_cells (ga c.val) cs ds)
                    (omega arith) r.sorted)
                  (ap₂ (λ a b. (a + b * c.val) % p)
                      (get_cell_below (suc c.col) c.col (eliminate_cells (ga c.val) cs ds) r.sorted
                        (omega arith))
                      (ap (get_cell (d ∷ ds)) (at ∙ sym here) ∙ get_cell_here d ds ∙ one)
                    ∙ ap (λ t. t % p) (omega arith)
                    ∙ mod-eq_of_lt rc.0
                    ∙ sym (get_cell_here c cs))
                  (λ x h.
                    ap (λ b. (get_cell (eliminate_cells (ga c.val) cs ds) x + b * c.val) % p)
                      (get_cell_later d ds x (omega (arith, h, here, at)))
                    ∙ r.back x
                    ∙ sym (get_cell_later c cs x h));
          }

length-eliminate_cells :
    (ga : GaussArithmetic) (cs ds : List Cell)
    → length (eliminate_cells ga cs ds) ≤ length cs + length ds
unfolding eliminate_cells
length-eliminate_cells ga [] [] = omega arith
length-eliminate_cells ga (c ∷ cs) [] = omega (arith, length-eliminate_cells ga cs [])
length-eliminate_cells ga [] (d ∷ ds) = omega (arith, length-eliminate_cells ga [] ds)
length-eliminate_cells ga (c ∷ cs) (d ∷ ds) = ground (
  arith,
  length-eliminate_cells ga cs (d ∷ ds),
  length-eliminate_cells ga cs ds,
  length-eliminate_cells ga (c ∷ cs) ds,
)

length-eliminate_at :
    (ga : ℕ → GaussArithmetic) (pivot : ℕ) (cs ds : List Cell)
    → length (eliminate_at ga pivot cs ds) ≤ length cs + length ds
unfolding eliminate_at
length-eliminate_at ga pivot [] ds = omega arith
length-eliminate_at ga pivot (c ∷ cs) [] =
    ground (arith, length-eliminate_at ga pivot cs [], length-eliminate_cells (ga c.val) cs [])
length-eliminate_at ga pivot (c ∷ cs) (d ∷ ds) =
    ground
      (arith, length-eliminate_at ga pivot cs (d ∷ ds), length-eliminate_cells (ga c.val) cs ds)

-- A row as the methods keep it.
pub record IsRow (p : ℕ) (r : SparseMatrixRow) : Type 0 where
  pub sized : r.size ≡ length r.cells
  pub sorted : SortedFrom 0 r.cells
  pub residues : ResidueCells p r.cells

abbrev pub IsPivotRow : ℕ → List Cell → Type 0
IsPivotRow pivot [] = ⊥
IsPivotRow pivot (d ∷ ds) = (d.col ≡ pivot) × (d.val ≡ 1)

pub first-IsPivotRow :
    (pivot : ℕ) (ds : List Cell) → first_column ds ≡ pivot → first_val ds ≡ 1 → IsPivotRow pivot ds
first-IsPivotRow pivot [] h k = cc
first-IsPivotRow pivot (d ∷ ds) h k = (h, k)

module _ (p : ℕ) (h : IsModulus p) (row r1 r2 : SparseMatrixRow) (pivot : ℕ) where
  positive : 0 < p
  positive = ground arith

  by_pivot :
      (ga : ℕ → GaussArithmetic)
      → ((k : ℕ) → k < p → Eliminates p k (ga k))
      → (ds : List Cell) → IsRow p r1
      → HasColumn pivot r1.cells
      → SortedFrom 0 ds
      → ResidueCells p ds
      → IsPivotRow pivot ds
      → Eliminated p (get_cell r1.cells pivot) 0 r1.cells ds (eliminate_at ga pivot r1.cells ds)
  by_pivot ga e [] ok has sd rd first = absurd first
  by_pivot ga e (d ∷ ds) ok has sd rd first =
      eliminate_at-Eliminated p positive ga e pivot 0 r1.cells d ds ok.sorted has
        (omega (arith, first.0), sd.1, sd.2) first.0 first.1 ok.residues rd

  eliminated :
      IsRow p r1
      → IsRow p r2
      → HasColumn pivot r1.cells
      → first_nonzero_column r2 ≡ pivot
      → get_first r2 ≡ 1
      → Eliminated p
          (get_cell r1.cells pivot)
          0
          r1.cells
          r2.cells
          (gauss_elimination row r1 r2 pivot (new_mod p)).cells
  unfolding gauss_elimination first_nonzero_column get_first
  eliminated ok ok' has first one = elim (Bool-cases (ltb r2.size gauss_shoup_threshold)) [
    | inl few ↦
        subst
          (λ b. Eliminated p (get_cell r1.cells pivot) 0 r1.cells r2.cells (
            if b
            then eliminate_at (λ r1p. gauss_plain r1p (new_mod p)) pivot r1.cells r2.cells
            else eliminate_at (λ r1p. gauss_shoup r1p (new_mod p)) pivot r1.cells r2.cells))
          (sym few)
          (by_pivot (λ r1p. gauss_plain r1p (new_mod p)) (λ k q. gauss_plain-Eliminates p k h q)
            r2.cells ok has ok'.sorted ok'.residues (first-IsPivotRow pivot r2.cells first one))
    | inr many ↦
        subst
          (λ b. Eliminated p (get_cell r1.cells pivot) 0 r1.cells r2.cells (
            if b
            then eliminate_at (λ r1p. gauss_plain r1p (new_mod p)) pivot r1.cells r2.cells
            else eliminate_at (λ r1p. gauss_shoup r1p (new_mod p)) pivot r1.cells r2.cells))
          (sym many)
          (by_pivot (λ r1p. gauss_shoup r1p (new_mod p)) (λ k q. gauss_shoup-Eliminates p k h q)
            r2.cells ok has ok'.sorted ok'.residues (first-IsPivotRow pivot r2.cells first one))
  ]

  -- For a modulus `p` of either path and well-formed rows `r1` and `r2`, where `r1` has the column
  -- `pivot` and `r2` begins with a one there, `gauss_elimination` gives a well-formed row with the id
  -- of `r1` that has at every column the residue r1(x) - r1(pivot) r2(x): adding r1(pivot) r2(x) mod
  -- p gives r1(x) back.
  pub gauss_elimination_lem :
      IsRow p r1
      → IsRow p r2
      → HasColumn pivot r1.cells
      → first_nonzero_column r2 ≡ pivot
      → get_first r2 ≡ 1
      → IsRow p (gauss_elimination row r1 r2 pivot (new_mod p))
        × ((gauss_elimination row r1 r2 pivot (new_mod p)).id ≡ r1.id)
        × ((x : ℕ)
            → (get (gauss_elimination row r1 r2 pivot (new_mod p)) x + get r2 x * get r1 pivot) % p
              ≡ get r1 x)
  unfolding gauss_elimination get
  gauss_elimination_lem ok ok' has first one =
      let r = eliminated ok ok' has first one in
      (record { sized = refl; sorted = r.sorted; residues = r.residues }, refl, r.back)

  -- The cells that `gauss_elimination` writes fit into the capacity of the row, and so does its size,
  -- when the sizes of the two rows are right and their sum is below 2^32.
  pub gauss_elimination-le-cap :
      r1.size ≡ length r1.cells
      → r2.size ≡ length r2.cells
      → r1.size + r2.size < 0x1_0000_0000
      → (length (gauss_elimination row r1 r2 pivot (new_mod p)).cells
          ≤ (gauss_elimination row r1 r2 pivot (new_mod p)).cap)
        × ((gauss_elimination row r1 r2 pivot (new_mod p)).size
            ≤ (gauss_elimination row r1 r2 pivot (new_mod p)).cap)
  unfolding gauss_elimination resize resize_needed
  gauss_elimination-le-cap e e' small = ground (
    arith,
    length-eliminate_at (λ r1p. gauss_plain r1p (new_mod p)) pivot r1.cells r2.cells,
    length-eliminate_at (λ r1p. gauss_shoup r1p (new_mod p)) pivot r1.cells r2.cells,
  )
