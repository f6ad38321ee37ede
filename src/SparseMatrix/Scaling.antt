-- ===== src/SparseMatrix/Scaling.antt =====
-- The last step of a round of `SparseMatrix::toRowEcholon`: the first value of a row becomes one.
use finiteflow.Base.{
  ℕ, List, [], ◌∷◌, inl, inr, ◌↔◌, ◌≢◌, ◌*◌, ◌%◌, ◌<◌, ◌≡◌, sym, ◌∙◌, refl, arith, ◌==◌,
  if◌then◌else◌, Bool-cases, subst, ==→eq,
}
use finiteflow.Ffmod.{IsModulus}
use finiteflow.Ffmod.Inverse.{Coprime}
use finiteflow.Modular.{new_mod, mul_inv, mul_mod}
use finiteflow.Modular.Laws.{mul_inv_lem, mul_mod_lem}
use finiteflow.SparseRow.{
  Cell, SparseMatrixRow, get_first, first_val, first_column, first_nonzero_column, mul, mul_cells,
}
use finiteflow.SparseRow.Refinement.{ResidueCells}
use finiteflow.SparseRow.Elimination.{HasColumn, IsRow}
use finiteflow.SparseMatrix.Dot.{Vanishes}
use finiteflow.SparseMatrix.Rows.{mul-IsRow, mul-Vanishes}

first_val-lt : (p : ℕ) (cs : List Cell) → 0 < p → ResidueCells p cs → first_val cs < p
first_val-lt p [] h rc = h
first_val-lt p (c ∷ cs) h rc = rc.0

module _ (p : ℕ) (h : IsModulus p) (one_lt : 1 < p)
    (prime : (z : ℕ) → 0 < z → z < p → Coprime z p) where
  unfoldable pub normal_row : SparseMatrixRow → SparseMatrixRow
  normal_row r =
      if get_first r == 1 then r else mul r (mul_inv (get_first r) (new_mod p)) (new_mod p)

  pub record IsNormalOf (r r' : SparseMatrixRow) : Type 0 where
    pub is_row : IsRow p r'
    pub one : get_first r' ≡ 1
    pub column : first_nonzero_column r' ≡ first_nonzero_column r
    pub columns : (x : ℕ) → HasColumn x r'.cells → HasColumn x r.cells
    pub same : (x : ℕ → ℕ) → Vanishes p x r'.cells ↔ Vanishes p x r.cells

  mul_first :
      (cs : List Cell) (z : ℕ)
      → first_val cs ≢ 0
      → (first_val (mul_cells z (new_mod p) cs) ≡ mul_mod (first_val cs) z (new_mod p))
        × (first_column (mul_cells z (new_mod p) cs) ≡ first_column cs)
  mul_first [] z ne = absurd (ne refl)
  mul_first (c ∷ cs) z ne = (refl, refl)

  mul_cells-HasColumn :
      (z x : ℕ) (cs : List Cell) → HasColumn x (mul_cells z (new_mod p) cs) → HasColumn x cs
  mul_cells-HasColumn z x [] e = absurd e
  mul_cells-HasColumn z x (c ∷ cs) e = elim e [
    | inl here ↦ inl here
    | inr later ↦ inr (mul_cells-HasColumn z x cs later)
  ]

  pub normal_row-IsNormalOf :
      (r : SparseMatrixRow) → IsRow p r → get_first r ≢ 0 → IsNormalOf r (normal_row r)
  unfolding normal_row get_first first_nonzero_column mul
  normal_row-IsNormalOf r ok ne = elim (Bool-cases (first_val r.cells == 1)) [
    | inl already ↦
        subst (λ b. IsNormalOf r (if b then r else scaled)) (sym already)
          (record {
            is_row = ok;
            one = ==→eq (first_val r.cells) 1 already;
            column = refl;
            columns = λ x e. e;
            same = λ x. (λ e. e, λ e. e);
          })
    | inr other ↦
        subst (λ b. IsNormalOf r (if b then r else scaled)) (sym other)
          (record {
            is_row = mul-IsRow p h inverse inverse_ok.0 r ok;
            one =
                (mul_first r.cells inverse ne).0
                ∙ mul_mod_lem p h (first_val r.cells) inverse small inverse_ok.0
                ∙ inverse_ok.1;
            column = (mul_first r.cells inverse ne).1;
            columns = λ x. mul_cells-HasColumn inverse x r.cells;
            same =
                λ x. mul-Vanishes p h inverse inverse_ok.0 x r (first_val r.cells) ok inverse_ok.1;
          })
  ]
    where
      inverse : ℕ
      inverse = mul_inv (first_val r.cells) (new_mod p)

      scaled : SparseMatrixRow
      scaled = mul r inverse (new_mod p)

      small : first_val r.cells < p
      small = first_val-lt p r.cells (omega (arith, one_lt)) ok.residues

      inverse_ok : (inverse < p) × (first_val r.cells * inverse % p ≡ 1)
      inverse_ok =
          mul_inv_lem p h (first_val r.cells) one_lt small
            (prime (first_val r.cells) (omega (arith, ne)) small)
