-- ===== src/SparseMatrix/Columns.antt =====
-- The columns of the rows that the reduction makes, and the equations that solve for them.
use finiteflow.Base.{
  ℕ, suc, List, [], ◌∷◌, Bool, true, false, ◌⊎◌, inl, inr, ◌≢◌, ◌<◌, ◌≤◌, ◌≡◌, sym, refl, arith,
  ltb, ◌==◌, get_or, if◌then◌else◌, Bool-cases, subst, ltb→lt, ltb→le,
}
use finiteflow.Modular.{new_mod}
use finiteflow.SparseRow.{
  Cell, SparseMatrixRow, no_eq, first_nonzero_column, first_column, first_val, get_first,
  GaussArithmetic, gauss_plain, gauss_shoup, gauss_shoup_threshold, eliminate_cells, eliminate_at,
  gauss_elimination, least_eq,
}
use finiteflow.SparseRow.Refinement.{
  SortedFrom, trichotomy, eliminate_lt, eliminate_eq, eliminate_gt,
}
use finiteflow.SparseRow.Elimination.{HasColumn, IsRow, HasColumn-le}

module _ (ga : GaussArithmetic) (x : ℕ) where
  HasColumn-tail :
      (c : Cell) (cs : List Cell) (b : Bool)
      → HasColumn x (if b then cs else c ∷ cs)
      → (c.col ≡ x) ⊎ HasColumn x cs
  HasColumn-tail c cs true h = inr h
  HasColumn-tail c cs false h = h

  pub eliminate_cells-HasColumn :
      (cs ds : List Cell) → HasColumn x (eliminate_cells ga cs ds) → HasColumn x cs ⊎ HasColumn x ds
  unfolding eliminate_cells
  eliminate_cells-HasColumn [] [] h = absurd h
  eliminate_cells-HasColumn (c ∷ cs) [] h = elim h [
    | inl here ↦ inl (inl here)
    | inr later ↦ elim (eliminate_cells-HasColumn cs [] later) [
      | inl l ↦ inl (inr l)
      | inr r ↦ absurd r
    ]
  ]
  eliminate_cells-HasColumn [] (d ∷ ds) h = elim h [
    | inl here ↦ inr (inl here)
    | inr later ↦ elim (eliminate_cells-HasColumn [] ds later) [
      | inl l ↦ absurd l
      | inr r ↦ inr (inr r)
    ]
  ]
  eliminate_cells-HasColumn (c ∷ cs) (d ∷ ds) h = elim (trichotomy c.col d.col) [
    | inl less ↦ elim (subst (HasColumn x) (eliminate_lt ga c d cs ds less) h) [
      | inl here ↦ inl (inl here)
      | inr later ↦ elim (eliminate_cells-HasColumn cs (d ∷ ds) later) [
        | inl l ↦ inl (inr l)
        | inr r ↦ inr r
      ]
    ]
    | inr (inl same) ↦
        elim (HasColumn-tail (record c { val = ga.ambc c.val d.val }) (eliminate_cells ga cs ds)
          (ga.ambc c.val d.val == 0) (subst (HasColumn x) (eliminate_eq ga c d cs ds same) h)) [
            | inl here ↦ inl (inl here)
            | inr later ↦ elim (eliminate_cells-HasColumn cs ds later) [
              | inl l ↦ inl (inr l)
              | inr r ↦ inr (inr r)
            ]
          ]
    | inr (inr more) ↦ elim (subst (HasColumn x) (eliminate_gt ga c d cs ds more) h) [
      | inl here ↦ inr (inl here)
      | inr later ↦ elim (eliminate_cells-HasColumn (c ∷ cs) ds later) [
        | inl l ↦ inl l
        | inr r ↦ inr (inr r)
      ]
    ]
  ]

-- The columns of one row or the other, without the pivot.
abbrev pub IsOtherColumn : ℕ → ℕ → List Cell → List Cell → Type 0
IsOtherColumn pivot x cs ds = (x ≢ pivot) × (HasColumn x cs ⊎ HasColumn x ds)

module _ (ga : ℕ → GaussArithmetic) (pivot x : ℕ) where
  eliminate_at-IsOtherColumn :
      (lb : ℕ) (cs : List Cell) (d : Cell) (ds : List Cell)
      → SortedFrom lb cs
      → SortedFrom 0 (d ∷ ds)
      → d.col ≡ pivot
      → HasColumn x (eliminate_at ga pivot cs (d ∷ ds))
      → IsOtherColumn pivot x cs (d ∷ ds)
  unfolding eliminate_at
  eliminate_at-IsOtherColumn lb [] d ds sc sd at h = absurd h
  eliminate_at-IsOtherColumn lb (c ∷ cs) d ds sc sd at h = elim (Bool-cases (ltb c.col pivot)) [
    | inl before ↦
        elim (subst
          (λ b.
            HasColumn x (
              if b
              then c ∷ eliminate_at ga pivot cs (d ∷ ds)
              else eliminate_cells (ga c.val) cs ds))
          before h) [
            | inl here ↦ (λ e. omega (arith, ltb→lt c.col pivot before, here, e), inl (inl here))
            | inr later ↦
                let other = eliminate_at-IsOtherColumn (suc c.col) cs d ds sc.2 sd at later in
                (other.0, elim other.1 [ inl l ↦ inl (inr l) | inr r ↦ inr r ])
          ]
    | inr reached ↦
        elim (eliminate_cells-HasColumn (ga c.val) x cs ds (
          subst
            (λ b. HasColumn x (
              if b
              then c ∷ eliminate_at ga pivot cs (d ∷ ds)
              else eliminate_cells (ga c.val) cs ds))
            reached h)) [
              | inl l ↦ (
                λ e.
                    omega
                      (arith, ltb→le c.col pivot reached, HasColumn-le (suc c.col) x cs sc.2 l, e),
                inl (inr l),
              )
              | inr r ↦
                  (λ e. omega (arith, at, HasColumn-le (suc d.col) x ds sd.2 r, e), inr (inr r))
            ]
  ]

  at_pivot-IsOtherColumn :
      (cs ds : List Cell)
      → SortedFrom 0 cs
      → SortedFrom 0 ds
      → first_column ds ≡ pivot
      → first_val ds ≡ 1
      → HasColumn x (eliminate_at ga pivot cs ds)
      → IsOtherColumn pivot x cs ds
  at_pivot-IsOtherColumn cs [] sc sd at one h = absurd (omega (arith, one))
  at_pivot-IsOtherColumn cs (d ∷ ds) sc sd at one h =
      eliminate_at-IsOtherColumn 0 cs d ds sc sd at h

module _ (p : ℕ) (row r1 r2 : SparseMatrixRow) (x : ℕ) where
  pub gauss_elimination-IsOtherColumn :
      IsRow p r1
      → IsRow p r2
      → get_first r2 ≡ 1
      → HasColumn x (gauss_elimination row r1 r2 (first_nonzero_column r2) (new_mod p)).cells
      → IsOtherColumn (first_nonzero_column r2) x r1.cells r2.cells
  unfolding gauss_elimination first_nonzero_column get_first
  gauss_elimination-IsOtherColumn ok ok' one h =
      elim (Bool-cases (ltb r2.size gauss_shoup_threshold)) [
        | inl few ↦
            at_pivot-IsOtherColumn (λ r1p. gauss_plain r1p (new_mod p)) (first_column r2.cells) x
              r1.cells r2.cells ok.sorted ok'.sorted refl one
              (subst
                (λ b. HasColumn x (
                  if b
                  then eliminate_at (λ r1p. gauss_plain r1p (new_mod p)) (first_column r2.cells)
                      r1.cells r2.cells
                  else eliminate_at (λ r1p. gauss_shoup r1p (new_mod p)) (first_column r2.cells)
                      r1.cells r2.cells))
                few h)
        | inr many ↦
            at_pivot-IsOtherColumn (λ r1p. gauss_shoup r1p (new_mod p)) (first_column r2.cells) x
              r1.cells r2.cells ok.sorted ok'.sorted refl one
              (subst
                (λ b. HasColumn x (
                  if b
                  then eliminate_at (λ r1p. gauss_plain r1p (new_mod p)) (first_column r2.cells)
                      r1.cells r2.cells
                  else eliminate_at (λ r1p. gauss_shoup r1p (new_mod p)) (first_column r2.cells)
                      r1.cells r2.cells))
                many h)
      ]

-- The equations of the columns below `maxrow` are `n` or later.
abbrev pub IsLate : List ℕ → ℕ → List Cell → ℕ → Type 0
IsLate eqs maxrow cs n = (x : ℕ) → HasColumn x cs → x < maxrow → n ≤ get_or eqs x no_eq

module _ (eqs : List ℕ) (maxrow : ℕ) where
  better : ℕ → Cell → ℕ
  better eq c = if ltb (get_or eqs c.col no_eq) eq then get_or eqs c.col no_eq else eq

  better-le : (eq : ℕ) (c : Cell) → (better eq c ≤ eq) × (better eq c ≤ get_or eqs c.col no_eq)
  unfolding better
  better-le eq c = (ground arith, ground arith)

  least_eq-le : (eq : ℕ) (cs : List Cell) → least_eq eqs maxrow eq cs ≤ eq
  unfolding better
  least_eq-le eq [] = omega arith
  least_eq-le eq (c ∷ cs) = ground (arith, least_eq-le (better eq c) cs, better-le eq c)

  -- The search finds the earliest equation.
  pub least_eq-IsLate :
      (lb eq : ℕ) (cs : List Cell)
      → SortedFrom lb cs
      → IsLate eqs maxrow cs (least_eq eqs maxrow eq cs)
  unfolding better
  least_eq-IsLate lb eq [] s x h less = absurd h
  least_eq-IsLate lb eq (c ∷ cs) s x h less = elim (Bool-cases (ltb c.col maxrow)) [
    | inl more ↦
        subst (λ b. (if b then least_eq eqs maxrow (better eq c) cs else eq) ≤ get_or eqs x no_eq)
          (sym more)
          (elim h [
            | inl here ↦
                subst (λ t. least_eq eqs maxrow (better eq c) cs ≤ get_or eqs t no_eq) here
                  (omega (arith, least_eq-le (better eq c) cs, (better-le eq c).1))
            | inr later ↦ least_eq-IsLate (suc c.col) (better eq c) cs s.2 x later less
          ])
    | inr stop ↦ absurd (elim h [
      | inl here ↦ omega (arith, ltb→le c.col maxrow stop, here, less)
      | inr later ↦
          omega (arith, ltb→le c.col maxrow stop, HasColumn-le (suc c.col) x cs s.2 later, less)
    ])
  ]

  pub least_eq-late :
      (n eq : ℕ) (cs : List Cell) → n ≤ eq → IsLate eqs maxrow cs n → n ≤ least_eq eqs maxrow eq cs
  unfolding better
  least_eq-late n eq [] le late = le
  least_eq-late n eq (c ∷ cs) le late = elim (Bool-cases (ltb c.col maxrow)) [
    | inr stop ↦
        subst (λ b. n ≤ (if b then least_eq eqs maxrow (better eq c) cs else eq)) (sym stop) le
    | inl more ↦
        subst (λ b. n ≤ (if b then least_eq eqs maxrow (better eq c) cs else eq)) (sym more)
          (least_eq-late n (better eq c) cs
            (ground (arith, le, late c.col (inl refl) (ltb→lt c.col maxrow more)))
            (λ x h less. late x (inr h) less))
  ]
