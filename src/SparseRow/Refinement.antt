-- ===== src/SparseRow/Refinement.antt =====
-- `gauss_elimination` on the dense reading of rows: at every column the result is r1 - r1(pivot) r2.
use native.Mathlib.Nat.{mod-eq_of_lt}
use finiteflow.Base.{
  ℕ, suc, List, [], ◌∷◌, ◌⊎◌, inl, inr, ◌+◌, ◌*◌, ◌%◌, ◌<◌, ◌≤◌, ◌≡◌, ap, ap₂, sym, ◌∙◌, refl,
  arith, ltb, ◌==◌, if◌then◌else◌, Bool-cases, ==→eq, ltb→lt, subst, All,
}
use finiteflow.SparseRow.{Cell, row_end, get_cell, GaussArithmetic, eliminate_cells}
use finiteflow.SparseRow.Arithmetic.{Eliminates}

-- Cells by increasing column, from `lb` on and before the end mark.
abbrev pub SortedFrom : ℕ → List Cell → Type 0
SortedFrom lb [] = Unit
SortedFrom lb (c ∷ cs) = (lb ≤ c.col) × (c.col < row_end) × SortedFrom (suc c.col) cs

abbrev pub ResidueCells : ℕ → List Cell → Type 0
ResidueCells p cs = All (λ c. c.val < p) cs

pub SortedFrom-mono :
    (lb lb' : ℕ) (cs : List Cell) → lb' ≤ lb → SortedFrom lb cs → SortedFrom lb' cs
SortedFrom-mono lb lb' [] h s = tt
SortedFrom-mono lb lb' (c ∷ cs) h s = (omega (arith, s.0), s.1, s.2)

pub get_cell_below : (lb x : ℕ) (cs : List Cell) → SortedFrom lb cs → x < lb → get_cell cs x ≡ 0
get_cell_below lb x [] s h = refl
get_cell_below lb x (c ∷ cs) s h = ground arith

pub get_cell-lt : (p x : ℕ) (cs : List Cell) → 0 < p → ResidueCells p cs → get_cell cs x < p
get_cell-lt p x [] h r = h
get_cell-lt p x (c ∷ cs) h r = ground (arith, get_cell-lt p x cs h r.1, r.0)

pub get_cell_here : (c : Cell) (cs : List Cell) → get_cell (c ∷ cs) c.col ≡ c.val
get_cell_here c cs = ground arith

pub get_cell_later :
    (c : Cell) (cs : List Cell) (x : ℕ) → c.col < x → get_cell (c ∷ cs) x ≡ get_cell cs x
get_cell_later c cs x h = ground arith

pub trichotomy : (a b : ℕ) → (a < b) ⊎ ((a ≡ b) ⊎ (b < a))
trichotomy a b = elim (Bool-cases (ltb a b)) [
  | inl less ↦ inl (ltb→lt a b less)
  | inr more ↦ elim (Bool-cases (a == b)) [
    | inl same ↦ inr (inl (==→eq a b same))
    | inr other ↦ inr (inr (ground arith))
  ]
]

module _ (ga : GaussArithmetic) where
  pub eliminate_lt :
      (c d : Cell) (cs ds : List Cell)
      → c.col < d.col
      → eliminate_cells ga (c ∷ cs) (d ∷ ds) ≡ c ∷ eliminate_cells ga cs (d ∷ ds)
  unfolding eliminate_cells
  eliminate_lt c d cs ds h = ground arith

  pub eliminate_gt :
      (c d : Cell) (cs ds : List Cell)
      → d.col < c.col
      → eliminate_cells ga (c ∷ cs) (d ∷ ds)
        ≡ record d { val = ga.negmul d.val } ∷ eliminate_cells ga (c ∷ cs) ds
  unfolding eliminate_cells
  eliminate_gt c d cs ds h = ground arith

  pub eliminate_eq :
      (c d : Cell) (cs ds : List Cell)
      → c.col ≡ d.col
      → eliminate_cells ga (c ∷ cs) (d ∷ ds) ≡ (
          if ga.ambc c.val d.val == 0
          then eliminate_cells ga cs ds
          else record c { val = ga.ambc c.val d.val } ∷ eliminate_cells ga cs ds)
  unfolding eliminate_cells
  eliminate_eq c d cs ds h = ground arith

-- The result `res` of eliminating with `ds` times `k` from `cs`.
pub record Eliminated (p k lb : ℕ) (cs ds res : List Cell) : Type 0 where
  pub sorted : SortedFrom lb res
  pub residues : ResidueCells p res
  pub back : (x : ℕ) → (get_cell res x + get_cell ds x * k) % p ≡ get_cell cs x

module _ (p k : ℕ) (ga : GaussArithmetic) (positive : 0 < p) (e : Eliminates p k ga) where
  no_change : (v : ℕ) → v < p → (v + 0 * k) % p ≡ v
  no_change v h = ap (λ t. t % p) (omega arith) ∙ mod-eq_of_lt h

  pub back_step :
      (j : ℕ) (cs ds res : List Cell)
      → SortedFrom j cs
      → SortedFrom j ds
      → SortedFrom j res
      → (get_cell res j + get_cell ds j * k) % p ≡ get_cell cs j
      → ((x : ℕ) → j < x → (get_cell res x + get_cell ds x * k) % p ≡ get_cell cs x)
      → (x : ℕ) → (get_cell res x + get_cell ds x * k) % p ≡ get_cell cs x
  back_step j cs ds res sc sd sr at later x = elim (trichotomy x j) [
    | inl less ↦
        ap₂ (λ a b. (a + b * k) % p) (get_cell_below j x res sr less)
          (get_cell_below j x ds sd less)
        ∙ no_change 0 positive
        ∙ sym (get_cell_below j x cs sc less)
    | inr (inl same) ↦
        subst (λ t. (get_cell res t + get_cell ds t * k) % p ≡ get_cell cs t) (sym same) at
    | inr (inr more) ↦ later x more
  ]

  pub Eliminated-copy :
      (lb : ℕ) (c : Cell) (cs ds res : List Cell)
      → SortedFrom lb (c ∷ cs)
      → c.val < p
      → SortedFrom (suc c.col) ds
      → Eliminated p k (suc c.col) cs ds res
      → Eliminated p k lb (c ∷ cs) ds (c ∷ res)
  Eliminated-copy lb c cs ds res s small sd r = record {
    sorted = (s.0, s.1, r.sorted);
    residues = (small, r.residues);
    back =
        back_step c.col (c ∷ cs) ds (c ∷ res) (omega arith, s.1, s.2)
          (SortedFrom-mono (suc c.col) c.col ds (omega arith) sd) (omega arith, s.1, r.sorted)
          (ap₂ (λ a b. (a + b * k) % p) (get_cell_here c res)
              (get_cell_below (suc c.col) c.col ds sd (omega arith))
            ∙ no_change c.val small
            ∙ sym (get_cell_here c cs))
          (λ x h.
            ap (λ t. (t + get_cell ds x * k) % p) (get_cell_later c res x h)
            ∙ r.back x
            ∙ sym (get_cell_later c cs x h));
  }

  Eliminated-negmul :
      (lb : ℕ) (d : Cell) (cs ds res : List Cell)
      → SortedFrom lb (d ∷ ds)
      → d.val < p
      → SortedFrom (suc d.col) cs
      → Eliminated p k (suc d.col) cs ds res
      → Eliminated p k lb cs (d ∷ ds) (record d { val = ga.negmul d.val } ∷ res)
  Eliminated-negmul lb d cs ds res s small sc r = record {
    sorted = (s.0, s.1, r.sorted);
    residues = (e.negmul_lt d.val small, r.residues);
    back =
        back_step d.col cs (d ∷ ds) (record d { val = ga.negmul d.val } ∷ res)
          (SortedFrom-mono (suc d.col) d.col cs (omega arith) sc) (omega arith, s.1, s.2)
          (omega arith, s.1, r.sorted)
          (ap₂ (λ a b. (a + b * k) % p) (get_cell_here (record d { val = ga.negmul d.val }) res)
              (get_cell_here d ds)
            ∙ e.negmul_back d.val small
            ∙ sym (get_cell_below (suc d.col) d.col cs sc (omega arith)))
          (λ x h.
            ap₂ (λ a b. (a + b * k) % p)
              (get_cell_later (record d { val = ga.negmul d.val }) res x h)
              (get_cell_later d ds x h)
            ∙ r.back x);
  }

  -- Both rows have the column; a zero difference is left out.
  Eliminated-both :
      (lb : ℕ) (c d : Cell) (cs ds res : List Cell)
      → SortedFrom lb (c ∷ cs)
      → SortedFrom lb (d ∷ ds)
      → c.col ≡ d.col
      → c.val < p
      → d.val < p
      → Eliminated p k (suc c.col) cs ds res
      → Eliminated p k lb
          (c ∷ cs)
          (d ∷ ds)
          (if ga.ambc c.val d.val == 0 then res else record c { val = ga.ambc c.val d.val } ∷ res)
  Eliminated-both lb c d cs ds res s sd same small small' r =
      elim (Bool-cases (ga.ambc c.val d.val == 0)) [
        | inl gone ↦
            subst (λ b. Eliminated p k lb (c ∷ cs) (d ∷ ds) (if b then res else kept ∷ res))
              (sym gone)
              (record {
                sorted = SortedFrom-mono (suc c.col) lb res (omega (arith, s.0)) r.sorted;
                residues = r.residues;
                back =
                    back_step c.col (c ∷ cs) (d ∷ ds) res (omega arith, s.1, s.2) sorted_d
                      (SortedFrom-mono (suc c.col) c.col res (omega arith) r.sorted)
                      (ap₂ (λ a b. (a + b * k) % p)
                          (get_cell_below (suc c.col) c.col res r.sorted (omega arith)
                            ∙ sym (==→eq (ga.ambc c.val d.val) 0 gone))
                          d_here
                        ∙ e.ambc_back c.val d.val small small'
                        ∙ sym (get_cell_here c cs))
                      (λ x h.
                        ap (λ b. (get_cell res x + b * k) % p)
                          (get_cell_later d ds x (omega (arith, same)))
                        ∙ r.back x
                        ∙ sym (get_cell_later c cs x h));
              })
        | inr there ↦
            subst (λ b. Eliminated p k lb (c ∷ cs) (d ∷ ds) (if b then res else kept ∷ res))
              (sym there)
              (record {
                sorted = (s.0, s.1, r.sorted);
                residues = (e.ambc_lt c.val d.val small small', r.residues);
                back =
                    back_step c.col (c ∷ cs) (d ∷ ds) (kept ∷ res) (omega arith, s.1, s.2) sorted_d
                      (omega arith, s.1, r.sorted)
                      (ap₂ (λ a b. (a + b * k) % p) (get_cell_here kept res) d_here
                        ∙ e.ambc_back c.val d.val small small'
                        ∙ sym (get_cell_here c cs))
                      (λ x h.
                        ap₂ (λ a b. (a + b * k) % p) (get_cell_later kept res x h)
                          (get_cell_later d ds x (omega (arith, same)))
                        ∙ r.back x
                        ∙ sym (get_cell_later c cs x h));
              })
      ]
    where
      kept : Cell
      kept = record c { val = ga.ambc c.val d.val }

      sorted_d : SortedFrom c.col (d ∷ ds)
      sorted_d = (omega (arith, same), sd.1, sd.2)

      d_here : get_cell (d ∷ ds) c.col ≡ d.val
      d_here = ap (get_cell (d ∷ ds)) same ∙ get_cell_here d ds

  pub eliminate_cells-Eliminated :
      (lb : ℕ) (cs ds : List Cell)
      → SortedFrom lb cs
      → SortedFrom lb ds
      → ResidueCells p cs
      → ResidueCells p ds
      → Eliminated p k lb cs ds (eliminate_cells ga cs ds)
  unfolding eliminate_cells
  eliminate_cells-Eliminated lb [] [] sc sd rc rd = record {
    sorted = tt;
    residues = tt;
    back = λ x. no_change 0 positive;
  }
  eliminate_cells-Eliminated lb (c ∷ cs) [] sc sd rc rd =
      Eliminated-copy lb c cs [] (eliminate_cells ga cs []) sc rc.0 tt
        (eliminate_cells-Eliminated (suc c.col) cs [] sc.2 tt rc.1 tt)
  eliminate_cells-Eliminated lb [] (d ∷ ds) sc sd rc rd =
      Eliminated-negmul lb d [] ds (eliminate_cells ga [] ds) sd rd.0 tt
        (eliminate_cells-Eliminated (suc d.col) [] ds tt sd.2 tt rd.1)
  eliminate_cells-Eliminated lb (c ∷ cs) (d ∷ ds) sc sd rc rd = elim (trichotomy c.col d.col) [
    | inl less ↦
        subst (Eliminated p k lb (c ∷ cs) (d ∷ ds)) (sym (eliminate_lt ga c d cs ds less)) (
          Eliminated-copy lb c cs (d ∷ ds) (eliminate_cells ga cs (d ∷ ds)) sc rc.0
            (less, sd.1, sd.2)
            (eliminate_cells-Eliminated (suc c.col) cs (d ∷ ds) sc.2 (less, sd.1, sd.2) rc.1 rd))
    | inr (inl same) ↦
        subst (Eliminated p k lb (c ∷ cs) (d ∷ ds)) (sym (eliminate_eq ga c d cs ds same)) (
          Eliminated-both lb c d cs ds (eliminate_cells ga cs ds) sc sd same rc.0 rd.0 (
            eliminate_cells-Eliminated (suc c.col) cs ds sc.2
              (subst (λ t. SortedFrom (suc t) ds) (sym same) sd.2) rc.1 rd.1))
    | inr (inr more) ↦
        subst (Eliminated p k lb (c ∷ cs) (d ∷ ds)) (sym (eliminate_gt ga c d cs ds more)) (
          Eliminated-negmul lb d (c ∷ cs) ds (eliminate_cells ga (c ∷ cs) ds) sd rd.0
            (more, sc.1, sc.2)
            (eliminate_cells-Eliminated (suc d.col) (c ∷ cs) ds (more, sc.1, sc.2) sd.2 rc rd.1))
  ]
