-- ===== src/SparseMatrix/Rows.antt =====
-- What the reduction does to one row besides elimination: copies, scaling, and the search for an
-- equation to substitute.
use native.Mathlib.Nat.{mod-eq_of_lt, mod-lt, mul_comm, mul_assoc, add-mul}
use finiteflow.Base.{
  ℕ, suc, List, [], ◌∷◌, ◌⊎◌, inl, inr, ◌↔◌, ◌+◌, ◌*◌, ◌%◌, ◌<◌, ◌≤◌, ◌≡◌, ap, sym, ◌∙◌, refl,
  arith, ltb, leb, true, ◌++◌, take, drop, length, get_or, if◌then◌else◌, Bool-cases, subst,
}
use finiteflow.Base.Div.{mul-mod_left_mod, mul-mod_right_mod}
use finiteflow.Ffmod.{IsModulus}
use finiteflow.Modular.{new_mod, mul_mod}
use finiteflow.Modular.Laws.{mul_mod_lem}
use finiteflow.SparseRow.{
  Cell, SparseMatrixRow, row_end, no_eq, resize, resize_needed, copy_into, mul, mul_cells, least_eq,
}
use finiteflow.SparseRow.Refinement.{SortedFrom, ResidueCells}
use finiteflow.SparseRow.Elimination.{HasColumn, IsRow}
use finiteflow.SparseMatrix.Dot.{dot, Vanishes, add_congruent}

length-SortedFrom :
    (lb : ℕ) (cs : List Cell) → lb ≤ row_end → SortedFrom lb cs → lb + length cs ≤ row_end
length-SortedFrom lb [] b s = omega (arith, b)
length-SortedFrom lb (c ∷ cs) b s =
    omega (arith, s.0, length-SortedFrom (suc c.col) cs (omega (arith, s.1)) s.2)

le→leb : (a b : ℕ) → a ≤ b → leb a b ≡ true
le→leb a b h = ground arith

module _ (p : ℕ) (r oth : SparseMatrixRow) (ok : IsRow p r) where
  pub copy_into-cells : (copy_into r oth).cells ≡ r.cells
  unfolding copy_into
  copy_into-cells =
      ap (λ b. if b then r.cells else take (suc r.size) r.cells ++ drop (suc r.size) oth.cells)
        (le→leb (length r.cells) r.size (omega (arith, ok.sized)))

  copy_into-size : (copy_into r oth).size ≡ r.size % 0x1_0000_0000
  unfolding copy_into resize resize_needed
  copy_into-size = refl

  pub copy_into-IsRow : IsRow p (copy_into r oth)
  copy_into-IsRow = record {
    sized = size_kept ∙ ap length (sym copy_into-cells);
    sorted = subst (SortedFrom 0) (sym copy_into-cells) ok.sorted;
    residues = subst (ResidueCells p) (sym copy_into-cells) ok.residues;
  }
    where
      size_kept : (copy_into r oth).size ≡ length r.cells
      size_kept =
          copy_into-size
          ∙ mod-eq_of_lt
              (omega (arith, ok.sized, length-SortedFrom 0 r.cells (omega arith) ok.sorted))
          ∙ ok.sized

-- The search finds nothing, or the equation of one of the columns.
pub least_eq-cases :
    (eqs : List ℕ) (maxrow eq : ℕ) (cs : List Cell)
    → (least_eq eqs maxrow eq cs ≡ eq)
      ⊎ ((c : ℕ) × HasColumn c cs × (least_eq eqs maxrow eq cs ≡ get_or eqs c no_eq))
least_eq-cases eqs maxrow eq [] = inl refl
least_eq-cases eqs maxrow eq (c ∷ cs) = elim (Bool-cases (ltb c.col maxrow)) [
  | inr stop ↦ inl (ap (λ b. if b then least_eq eqs maxrow better_eq cs else eq) stop)
  | inl more ↦
      let whole : least_eq eqs maxrow eq (c ∷ cs) ≡ least_eq eqs maxrow better_eq cs =
        ap (λ b. if b then least_eq eqs maxrow better_eq cs else eq) more in
      elim (least_eq-cases eqs maxrow better_eq cs) [
        | inr (x, has, e) ↦ inr (x, inr has, whole ∙ e)
        | inl e ↦ elim (Bool-cases (ltb (get_or eqs c.col no_eq) eq)) [
          | inl better ↦ inr (
            c.col,
            inl refl,
            whole ∙ e ∙ ap (λ b. if b then get_or eqs c.col no_eq else eq) better,
          )
          | inr worse ↦ inl (whole ∙ e ∙ ap (λ b. if b then get_or eqs c.col no_eq else eq) worse)
        ]
      ]
]
  where
    better_eq : ℕ
    better_eq = if ltb (get_or eqs c.col no_eq) eq then get_or eqs c.col no_eq else eq

module _ (p : ℕ) (h : IsModulus p) (z : ℕ) (small : z < p) where
  mul_cells-dot :
      (x : ℕ → ℕ) (cs : List Cell)
      → ResidueCells p cs
      → dot x (mul_cells z (new_mod p) cs) % p ≡ dot x cs * z % p
  mul_cells-dot x [] rc = ap (λ t. t % p) (omega arith)
  mul_cells-dot x (c ∷ cs) rc =
      add_congruent (mul_mod c.val z (new_mod p) * x c.col) (dot x (mul_cells z (new_mod p) cs))
        (c.val * z * x c.col) (dot x cs * z) p
        (ap (λ t. t * x c.col % p) (mul_mod_lem p h c.val z rc.0 small)
          ∙ mul-mod_left_mod (c.val * z) (x c.col) p)
        (mul_cells-dot x cs rc.1)
      ∙ ap (λ t. t % p)
          (omega (
            arith,
            add-mul (c.val * x c.col) (dot x cs) z,
            mul_assoc c.val z (x c.col),
            mul_assoc c.val (x c.col) z,
            ap (λ (t : ℕ). c.val * t) (mul_comm z (x c.col)),
          ))

  mul_cells-ResidueCells :
      (cs : List Cell) → ResidueCells p cs → ResidueCells p (mul_cells z (new_mod p) cs)
  mul_cells-ResidueCells [] rc = tt
  mul_cells-ResidueCells (c ∷ cs) rc = (
    subst (λ t. t < p) (sym (mul_mod_lem p h c.val z rc.0 small))
        (mod-lt (c.val * z) (omega (arith, small))),
    mul_cells-ResidueCells cs rc.1,
  )

  mul_cells-SortedFrom :
      (lb : ℕ) (cs : List Cell) → SortedFrom lb cs → SortedFrom lb (mul_cells z (new_mod p) cs)
  mul_cells-SortedFrom lb [] s = tt
  mul_cells-SortedFrom lb (c ∷ cs) s = (s.0, s.1, mul_cells-SortedFrom (suc c.col) cs s.2)

  length-mul_cells : (cs : List Cell) → length (mul_cells z (new_mod p) cs) ≡ length cs
  length-mul_cells [] = refl
  length-mul_cells (c ∷ cs) = ap suc (length-mul_cells cs)

  pub mul-IsRow : (r : SparseMatrixRow) → IsRow p r → IsRow p (mul r z (new_mod p))
  unfolding mul
  mul-IsRow r ok = record {
    sized = ok.sized ∙ sym (length-mul_cells r.cells);
    sorted = mul_cells-SortedFrom 0 r.cells ok.sorted;
    residues = mul_cells-ResidueCells r.cells ok.residues;
  }

  -- Scaling by an invertible residue keeps the solutions.
  pub mul-Vanishes :
      (x : ℕ → ℕ) (r : SparseMatrixRow) (w : ℕ)
      → IsRow p r
      → w * z % p ≡ 1
      → Vanishes p x (mul r z (new_mod p)).cells ↔ Vanishes p x r.cells
  unfolding mul
  mul-Vanishes x r w ok inverse = (
    λ e.
        ap (λ t. t % p) (omega arith)
        ∙ ap (λ t. dot x r.cells * t % p) (sym inverse)
        ∙ mul-mod_right_mod (dot x r.cells) (w * z) p
        ∙ ap (λ t. t % p)
            (ap (λ t. dot x r.cells * t) (mul_comm w z) ∙ sym (mul_assoc (dot x r.cells) z w))
        ∙ sym (mul-mod_left_mod (dot x r.cells * z) w p)
        ∙ ap (λ t. t * w % p) (sym (mul_cells-dot x r.cells ok.residues) ∙ e)
        ∙ ap (λ t. t % p) (omega arith)
        ∙ mod-eq_of_lt (omega (arith, small)),
    λ e.
        mul_cells-dot x r.cells ok.residues
        ∙ sym (mul-mod_left_mod (dot x r.cells) z p)
        ∙ ap (λ t. t * z % p) e
        ∙ ap (λ t. t % p) (omega arith)
        ∙ mod-eq_of_lt (omega (arith, small)),
  )
