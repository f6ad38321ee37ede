-- ===== src/SparseMatrix/Dot.antt =====
-- A row of a sparse matrix as a linear equation: what the row operations do to its value.
use native.Mathlib.Nat.{mod-eq_of_lt, add-mod, mul_comm, add-mul, mul_assoc}
use finiteflow.Base.{
  ℕ, suc, List, [], ◌∷◌, inl, inr, ◌↔◌, ◌+◌, ◌*◌, ◌%◌, ◌<◌, ◌≡◌, ap, ap₂, sym, ◌∙◌, refl, arith,
  ltb, ◌==◌, if◌then◌else◌, Bool-cases, ltb→lt, ltb→le, subst, ==→eq,
}
use finiteflow.Base.Div.{mul-mod_left_mod}
use finiteflow.Ffmod.{IsModulus}
use finiteflow.Modular.{new_mod}
use finiteflow.SparseRow.{
  Cell, SparseMatrixRow, get_cell, get_first, first_nonzero_column, GaussArithmetic, gauss_plain,
  gauss_shoup, gauss_shoup_threshold, eliminate_cells, eliminate_at, gauss_elimination,
}
use finiteflow.SparseRow.Arithmetic.{Eliminates, gauss_plain-Eliminates, gauss_shoup-Eliminates}
use finiteflow.SparseRow.Refinement.{
  SortedFrom, ResidueCells, trichotomy, get_cell_here, get_cell_later, get_cell-lt, eliminate_lt,
  eliminate_eq, eliminate_gt,
}
use finiteflow.SparseRow.Elimination.{
  HasColumn, IsRow, IsPivotRow, first-IsPivotRow, HasColumn-le, eliminate_at-before,
  eliminate_at-pivot,
}

-- The value of a row at `x`.
abbrev pub dot : (ℕ → ℕ) → List Cell → ℕ
dot x [] = 0
dot x (c ∷ cs) = c.val * x c.col + dot x cs

abbrev pub Vanishes : ℕ → (ℕ → ℕ) → List Cell → Type 0
Vanishes p x cs = dot x cs % p ≡ 0

pub add_congruent :
    (a b a' b' p : ℕ) → a % p ≡ a' % p → b % p ≡ b' % p → (a + b) % p ≡ (a' + b') % p
add_congruent a b a' b' p h k = add-mod a b p ∙ ap₂ (λ s t. (s + t) % p) h k ∙ sym (add-mod a' b' p)

-- One cell more on each side.
cell_congruent :
    (y v b a k r d c p : ℕ)
    → (v + b * k) % p ≡ a % p
    → (r + d * k) % p ≡ c % p
    → ((v * y + r) + (b * y + d) * k) % p ≡ (a * y + c) % p
cell_congruent y v b a k r d c p h h' =
    ap (λ t. t % p) whole
    ∙ add_congruent ((v + b * k) * y) (r + d * k) (a * y) c p
        (sym (mul-mod_left_mod (v + b * k) y p) ∙ ap (λ t. t * y % p) h ∙ mul-mod_left_mod a y p) h'
  where
    whole : (v * y + r) + (b * y + d) * k ≡ (v + b * k) * y + (r + d * k)
    whole = omega (
      arith,
      add-mul (b * y) d k,
      add-mul v (b * k) y,
      mul_assoc b y k,
      mul_assoc b k y,
      ap (λ (t : ℕ). b * t) (mul_comm y k),
    )

module _ (p k : ℕ) (ga : GaussArithmetic) (positive : 0 < p) (e : Eliminates p k ga)
    (x : ℕ → ℕ) where
  abbrev IsCombined : List Cell → List Cell → List Cell → Type 0
  IsCombined cs ds res = (dot x res + dot x ds * k) % p ≡ dot x cs % p

  copy_sum :
      (c : Cell) (cs ds res : List Cell) → IsCombined cs ds res → IsCombined (c ∷ cs) ds (c ∷ res)
  copy_sum c cs ds res h =
      ap (λ t. t % p) (omega arith)
      ∙ cell_congruent (x c.col) c.val 0 c.val k (dot x res) (dot x ds) (dot x cs) p
          (ap (λ t. t % p) (omega arith)) h

  negmul_sum :
      (d : Cell) (cs ds res : List Cell)
      → d.val < p
      → IsCombined cs ds res
      → IsCombined cs (d ∷ ds) (record d { val = ga.negmul d.val } ∷ res)
  negmul_sum d cs ds res small h =
      cell_congruent (x d.col) (ga.negmul d.val) d.val 0 k (dot x res) (dot x ds) (dot x cs) p
        (e.negmul_back d.val small ∙ sym (mod-eq_of_lt positive)) h
      ∙ ap (λ t. t % p) (omega arith)

  both_sum :
      (c d : Cell) (cs ds res : List Cell)
      → c.col ≡ d.col
      → c.val < p
      → d.val < p
      → IsCombined cs ds res
      → IsCombined
          (c ∷ cs)
          (d ∷ ds)
          (if ga.ambc c.val d.val == 0 then res else record c { val = ga.ambc c.val d.val } ∷ res)
  both_sum c d cs ds res same small small' h = elim (Bool-cases (ga.ambc c.val d.val == 0)) [
    | inl gone ↦
        subst
          (λ b.
            IsCombined (c ∷ cs) (d ∷ ds)
              (if b then res else record c { val = ga.ambc c.val d.val } ∷ res))
          (sym gone)
          (ap (λ t. (dot x res + t * k) % p) d_here
            ∙ subst
                (λ v. (v + (d.val * x c.col + dot x ds) * k) % p ≡ (c.val * x c.col + dot x cs) % p)
                (ap (λ t. t * x c.col + dot x res) (==→eq (ga.ambc c.val d.val) 0 gone)
                  ∙ omega arith)
                combined_at)
    | inr there ↦
        subst
          (λ b.
            IsCombined (c ∷ cs) (d ∷ ds)
              (if b then res else record c { val = ga.ambc c.val d.val } ∷ res))
          (sym there)
          (ap (λ t. (dot x (record c { val = ga.ambc c.val d.val } ∷ res) + t * k) % p) d_here
            ∙ combined_at)
  ]
    where
      d_here : dot x (d ∷ ds) ≡ d.val * x c.col + dot x ds
      d_here = ap (λ j. d.val * x j + dot x ds) (sym same)

      combined_at :
          ((ga.ambc c.val d.val * x c.col + dot x res) + (d.val * x c.col + dot x ds) * k) % p
          ≡ (c.val * x c.col + dot x cs) % p
      combined_at =
          cell_congruent (x c.col) (ga.ambc c.val d.val) d.val c.val k (dot x res) (dot x ds)
            (dot x cs) p (e.ambc_back c.val d.val small small' ∙ sym (mod-eq_of_lt small)) h

  eliminate_cells-IsCombined :
      (cs ds : List Cell)
      → ResidueCells p cs
      → ResidueCells p ds
      → IsCombined cs ds (eliminate_cells ga cs ds)
  unfolding eliminate_cells
  eliminate_cells-IsCombined [] [] rc rd = ap (λ t. t % p) (omega arith)
  eliminate_cells-IsCombined (c ∷ cs) [] rc rd =
      copy_sum c cs [] (eliminate_cells ga cs []) (eliminate_cells-IsCombined cs [] rc.1 tt)
  eliminate_cells-IsCombined [] (d ∷ ds) rc rd =
      negmul_sum d [] ds (eliminate_cells ga [] ds) rd.0 (eliminate_cells-IsCombined [] ds tt rd.1)
  eliminate_cells-IsCombined (c ∷ cs) (d ∷ ds) rc rd = elim (trichotomy c.col d.col) [
    | inl less ↦ subst (IsCombined (c ∷ cs) (d ∷ ds)) (sym (eliminate_lt ga c d cs ds less)) (
        copy_sum c cs (d ∷ ds) (eliminate_cells ga cs (d ∷ ds))
          (eliminate_cells-IsCombined cs (d ∷ ds) rc.1 rd))
    | inr (inl same) ↦ subst (IsCombined (c ∷ cs) (d ∷ ds)) (sym (eliminate_eq ga c d cs ds same)) (
        both_sum c d cs ds (eliminate_cells ga cs ds) same rc.0 rd.0
          (eliminate_cells-IsCombined cs ds rc.1 rd.1))
    | inr (inr more) ↦ subst (IsCombined (c ∷ cs) (d ∷ ds)) (sym (eliminate_gt ga c d cs ds more)) (
        negmul_sum d (c ∷ cs) ds (eliminate_cells ga (c ∷ cs) ds) rd.0
          (eliminate_cells-IsCombined (c ∷ cs) ds rc rd.1))
  ]

module _ (p : ℕ) (positive : 0 < p) (ga : ℕ → GaussArithmetic)
    (e : (k : ℕ) → k < p → Eliminates p k (ga k)) (x : ℕ → ℕ) where
  eliminate_at-dot :
      (pivot lb : ℕ) (cs : List Cell) (d : Cell) (ds : List Cell)
      → SortedFrom lb cs
      → HasColumn pivot cs
      → d.col ≡ pivot
      → d.val ≡ 1
      → ResidueCells p cs
      → ResidueCells p ds
      → (dot x (eliminate_at ga pivot cs (d ∷ ds)) + dot x (d ∷ ds) * get_cell cs pivot) % p
        ≡ dot x cs % p
  eliminate_at-dot pivot lb [] d ds sc has here one rc rd = absurd has
  eliminate_at-dot pivot lb (c ∷ cs) d ds sc has here one rc rd =
      elim (Bool-cases (ltb c.col pivot)) [
        | inl before ↦
            ap₂ (λ l k. (dot x l + dot x (d ∷ ds) * k) % p)
              (eliminate_at-before p positive ga e pivot c cs (d ∷ ds) (ltb→lt c.col pivot before))
              (get_cell_later c cs pivot (ltb→lt c.col pivot before))
            ∙ copy_sum p (get_cell cs pivot) (ga (get_cell cs pivot)) positive
                (e (get_cell cs pivot) (get_cell-lt p pivot cs positive rc.1)) x c cs (d ∷ ds)
                (eliminate_at ga pivot cs (d ∷ ds))
                (eliminate_at-dot pivot (suc c.col) cs d ds sc.2
                  (elim has [
                    | inl at ↦ absurd (omega (arith, ltb→lt c.col pivot before, at))
                    | inr later ↦ later
                  ])
                  here one rc.1 rd)
        | inr reached ↦
            let at : c.col ≡ pivot = elim has [
              | inl at ↦ at
              | inr later ↦ absurd (
                  omega (
                    arith,
                    ltb→le c.col pivot reached,
                    HasColumn-le (suc c.col) pivot cs sc.2 later,
                  ))
            ] in
            ap₂ (λ l k. (dot x l + dot x (d ∷ ds) * k) % p)
              (eliminate_at-pivot p positive ga e pivot c cs (d ∷ ds) (ltb→le c.col pivot reached))
              (ap (get_cell (c ∷ cs)) (sym at) ∙ get_cell_here c cs)
            ∙ ap₂
                (λ v j.
                  (dot x (eliminate_cells (ga c.val) cs ds) + (v * x j + dot x ds) * c.val) % p)
                one (here ∙ sym at)
            ∙ ap (λ t. t % p) (omega arith)
            ∙ cell_congruent (x c.col) 0 1 c.val c.val (dot x (eliminate_cells (ga c.val) cs ds))
                (dot x ds) (dot x cs) p (ap (λ t. t % p) (omega arith))
                (eliminate_cells-IsCombined p c.val (ga c.val) positive (e c.val rc.0) x cs ds rc.1
                  rd)
      ]

module _ (p : ℕ) (h : IsModulus p) (x : ℕ → ℕ) (row r1 r2 : SparseMatrixRow) (pivot : ℕ) where
  positive : 0 < p
  positive = ground arith

  by_first :
      (ga : ℕ → GaussArithmetic)
      → ((k : ℕ) → k < p → Eliminates p k (ga k))
      → (ds : List Cell) → IsRow p r1
      → HasColumn pivot r1.cells
      → ResidueCells p ds
      → IsPivotRow pivot ds
      → (dot x (eliminate_at ga pivot r1.cells ds) + dot x ds * get_cell r1.cells pivot) % p
        ≡ dot x r1.cells % p
  by_first ga e [] ok has rd first = absurd first
  by_first ga e (d ∷ ds) ok has rd first =
      eliminate_at-dot p positive ga e x pivot 0 r1.cells d ds ok.sorted has first.0 first.1
        ok.residues rd.1

  pub gauss_elimination-dot :
      IsRow p r1
      → IsRow p r2
      → HasColumn pivot r1.cells
      → first_nonzero_column r2 ≡ pivot
      → get_first r2 ≡ 1
      → (dot x (gauss_elimination row r1 r2 pivot (new_mod p)).cells
            + dot x r2.cells * get_cell r1.cells pivot)
          % p
        ≡ dot x r1.cells % p
  unfolding gauss_elimination first_nonzero_column get_first
  gauss_elimination-dot ok ok' has first one =
      elim (Bool-cases (ltb r2.size gauss_shoup_threshold)) [
        | inl few ↦
            ap
              (λ b.
                (dot x (
                    if b
                    then eliminate_at (λ r1p. gauss_plain r1p (new_mod p)) pivot r1.cells r2.cells
                    else eliminate_at (λ r1p. gauss_shoup r1p (new_mod p)) pivot r1.cells r2.cells)
                  + dot x r2.cells * get_cell r1.cells pivot)
                % p)
              few
            ∙ by_first (λ r1p. gauss_plain r1p (new_mod p)) (λ k q. gauss_plain-Eliminates p k h q)
                r2.cells ok has ok'.residues (first-IsPivotRow pivot r2.cells first one)
        | inr many ↦
            ap
              (λ b.
                (dot x (
                    if b
                    then eliminate_at (λ r1p. gauss_plain r1p (new_mod p)) pivot r1.cells r2.cells
                    else eliminate_at (λ r1p. gauss_shoup r1p (new_mod p)) pivot r1.cells r2.cells)
                  + dot x r2.cells * get_cell r1.cells pivot)
                % p)
              many
            ∙ by_first (λ r1p. gauss_shoup r1p (new_mod p)) (λ k q. gauss_shoup-Eliminates p k h q)
                r2.cells ok has ok'.residues (first-IsPivotRow pivot r2.cells first one)
      ]

  -- At a solution of the row that is subtracted, the result vanishes exactly when the row does.
  pub gauss_elimination-Vanishes :
      IsRow p r1
      → IsRow p r2
      → HasColumn pivot r1.cells
      → first_nonzero_column r2 ≡ pivot
      → get_first r2 ≡ 1
      → Vanishes p x r2.cells
      → Vanishes p x (gauss_elimination row r1 r2 pivot (new_mod p)).cells ↔ Vanishes p x r1.cells
  gauss_elimination-Vanishes ok ok' has first one zero_row =
      let res = dot x (gauss_elimination row r1 r2 pivot (new_mod p)).cells in
      let same : res % p ≡ dot x r1.cells % p =
        sym (
          add_congruent res (dot x r2.cells * get_cell r1.cells pivot) res 0 p refl (
            sym (mul-mod_left_mod (dot x r2.cells) (get_cell r1.cells pivot) p)
            ∙ ap (λ t. t * get_cell r1.cells pivot % p) zero_row
            ∙ ap (λ t. t % p) (omega arith))
          ∙ ap (λ t. t % p) (omega arith))
        ∙ gauss_elimination-dot ok ok' has first one in
      (λ e. sym same ∙ e, λ e. same ∙ e)
