-- ===== src/SparseMatrix/Equations.antt =====
-- The second step of a round of `SparseMatrix::toRowEcholon`: the row becomes the equation of its first
-- column.
use finiteflow.Base.{
  ℕ, suc, List, Bool, true, ◌||◌, ◌⊎◌, inl, inr, ◌↔◌, ◌≢◌, ◌<◌, ◌≤◌, ◌≡◌, ap, sym, ◌∙◌, refl, arith,
  ◌==◌, set, length, get_or, if◌then◌else◌, Bool-cases, subst, get_or-set, set_outside, length-set,
  ltb, ltb→lt, ltb→le, ==→eq, ==→ne,
}
use finiteflow.Ffmod.{IsModulus}
use finiteflow.Ffmod.Inverse.{Coprime}
use finiteflow.Modular.{new_mod}
use finiteflow.SparseRow.{SparseMatrixRow, row_end, no_eq, get_first, first_nonzero_column}
use finiteflow.SparseRow.Elimination.{HasColumn, IsRow}
use finiteflow.SparseMatrix.{SparseMatrix, row, make_equation}
use finiteflow.SparseMatrix.Dot.{Vanishes}
use finiteflow.SparseMatrix.Columns.{IsLate}
use finiteflow.SparseMatrix.Termination.{IsTriangular}
use finiteflow.SparseMatrix.Solutions.{IsEquation, row-set}
use finiteflow.SparseMatrix.Scaling.{normal_row, IsNormalOf, normal_row-IsNormalOf}
use finiteflow.SparseMatrix.Substitution.{IsReduced, Solution, Solution-moved, IsReduced-moved}

pub IsTriangular-moved :
    (p i : ℕ) (mat mat' : SparseMatrix)
    → ((j : ℕ) → i ≢ j → row mat'.rows_ j ≡ row mat.rows_ j)
    → (maxrow : ℕ) → IsReduced p mat i
    → IsTriangular maxrow mat
    → ((c : ℕ)
        → (get_or mat'.var_eq_ c no_eq ≡ get_or mat.var_eq_ c no_eq)
          ⊎ (get_or mat'.var_eq_ c no_eq ≡ i))
    → IsLate mat.var_eq_ maxrow (row mat'.rows_ i).cells i
    → IsTriangular maxrow mat'
IsTriangular-moved p i mat mat' others maxrow ok triangular eqs late c some_eq = elim (eqs c) [
  | inl same ↦
      let some_eq' : get_or mat.var_eq_ c no_eq ≢ no_eq = λ e. some_eq (same ∙ e) in
      let earlier = (ok.equations c some_eq').0 in
      λ x has less. omega (
        arith,
        same,
        earlier,
        kept x (get_or mat.var_eq_ c no_eq) (omega (arith, earlier)) (
            triangular c some_eq' x
              (subst (λ (r : SparseMatrixRow). HasColumn x r.cells)
                (others (get_or mat.var_eq_ c no_eq) (λ e. omega (arith, e, earlier)))
                (subst (λ t. HasColumn x (row mat'.rows_ t).cells) same has))
              less),
      )
  | inr new_eq ↦ λ x has less. omega (
    arith,
    new_eq,
    kept x i (omega arith)
        (late x (subst (λ t. HasColumn x (row mat'.rows_ t).cells) new_eq has) less),
  )
]
  where
    kept : (x n : ℕ) → n ≤ i → n ≤ get_or mat.var_eq_ x no_eq → n ≤ get_or mat'.var_eq_ x no_eq
    kept x n le h = elim (eqs x) [
      | inl same ↦ omega (arith, h, same)
      | inr new_eq ↦ omega (arith, le, new_eq)
    ]

-- What one round, for row `i`, does to the matrix.
pub record IsStep (p i : ℕ) (mat mat' : SparseMatrix) : Type 0 where
  pub reduced : IsReduced p mat' (suc i)
  pub size : length mat'.rows_ ≡ length mat.rows_
  pub same : (x : ℕ → ℕ) → Solution p x mat ↔ Solution p x mat'

pub IsStep-self : (p i : ℕ) (mat : SparseMatrix) → IsReduced p mat i → IsStep p i mat mat
IsStep-self p i mat ok = record {
  reduced =
      IsReduced-moved p i mat mat (λ j ne. refl) (suc i) (omega arith) ok (ok.rows_ok i)
        (λ c. inl refl);
  size = refl;
  same = λ x. (λ s. s, λ s. s);
}

set-cases :
    (eqs : List ℕ) (c i j d : ℕ)
    → (get_or (set eqs c i) j d ≡ get_or eqs j d) ⊎ ((c ≡ j) × (get_or (set eqs c i) j d ≡ i))
set-cases eqs c i j d = elim (Bool-cases (ltb c (length eqs))) [
  | inr outside ↦ inl (ap (λ l. get_or l j d) (set_outside eqs c i (ltb→le c (length eqs) outside)))
  | inl inside ↦ elim (Bool-cases (c == j)) [
    | inl here ↦ inr (
      ==→eq c j here,
      get_or-set eqs c j i d (ltb→lt c (length eqs) inside)
          ∙ ap (λ b. if b then i else get_or eqs j d) here,
    )
    | inr there ↦ inl (
        get_or-set eqs c j i d (ltb→lt c (length eqs) inside)
        ∙ ap (λ b. if b then i else get_or eqs j d) there)
  ]
]

module _ (p : ℕ) (h : IsModulus p) (one_lt : 1 < p) (prime : (z : ℕ) → 0 < z → z < p → Coprime z p)
    (maxrow : ℕ) (keep_all_outs : Bool) (kept : ((maxrow == row_end) || keep_all_outs) ≡ true)
    (i : ℕ) (mat : SparseMatrix) (ok : IsReduced p mat i) (inside : i < length mat.rows_) where
  unfoldable pub made : SparseMatrix
  made = make_equation (new_mod p) maxrow keep_all_outs i mat

  made_same : get_first (row mat.rows_ i) ≡ 0 → made ≡ mat
  unfolding made make_equation
  made_same e = ground (arith, e)

  made-rows_ :
      get_first (row mat.rows_ i) ≢ 0
      → made.rows_ ≡ set mat.rows_ i (normal_row p h one_lt prime (row mat.rows_ i))
  unfolding made make_equation normal_row
  made-rows_ ne = ground (arith, kept)

  made-var_eq_ :
      (get_first (row mat.rows_ i) ≢ 0)
      → (made.var_eq_ ≡ mat.var_eq_)
        ⊎ (made.var_eq_ ≡ set mat.var_eq_ (first_nonzero_column (row mat.rows_ i)) i)
  unfolding made make_equation
  made-var_eq_ ne = ground arith

  module _ (ne : get_first (row mat.rows_ i) ≢ 0) where
    normal :
        IsNormalOf p h one_lt prime
          (row mat.rows_ i)
          (normal_row p h one_lt prime (row mat.rows_ i))
    normal = normal_row-IsNormalOf p h one_lt prime (row mat.rows_ i) (ok.rows_ok i) ne

    at :
        (j : ℕ)
        → row made.rows_ j
          ≡ (if i == j then normal_row p h one_lt prime (row mat.rows_ i) else row mat.rows_ j)
    at j =
        ap (λ l. row l j) (made-rows_ ne)
        ∙ row-set mat.rows_ i j (normal_row p h one_lt prime (row mat.rows_ i)) inside

    here : row made.rows_ i ≡ normal_row p h one_lt prime (row mat.rows_ i)
    here = at i ∙ ground arith

    others : (j : ℕ) → i ≢ j → row made.rows_ j ≡ row mat.rows_ j
    others j n = at j ∙ ground arith

    equations :
        (c : ℕ)
        → (get_or made.var_eq_ c no_eq ≡ get_or mat.var_eq_ c no_eq)
          ⊎ ((i < suc i) × (get_or made.var_eq_ c no_eq ≡ i) × IsEquation made.rows_ c i)
    equations c = elim (made-var_eq_ ne) [
      | inl same ↦ inl (ap (λ l. get_or l c no_eq) same)
      | inr changed ↦
          elim (set-cases mat.var_eq_ (first_nonzero_column (row mat.rows_ i)) i c no_eq) [
            | inl same ↦ inl (ap (λ l. get_or l c no_eq) changed ∙ same)
            | inr (first, new_eq) ↦ inr (
              omega arith,
              ap (λ l. get_or l c no_eq) changed ∙ new_eq,
              (
                ap first_nonzero_column here ∙ normal.column ∙ first,
                ap get_first here ∙ normal.one,
              ),
            )
          ]
    ]

    made-IsStep : IsStep p i mat made
    made-IsStep = record {
      reduced =
          IsReduced-moved p i mat made others (suc i) (omega arith) ok
            (subst (IsRow p) (sym here) normal.is_row) equations;
      size =
          ap length (made-rows_ ne)
          ∙ length-set mat.rows_ i (normal_row p h one_lt prime (row mat.rows_ i));
      same = λ x. (
        λ s.
            Solution-moved p i mat made others x
              (subst (λ (r : SparseMatrixRow). Vanishes p x r.cells) (sym here)
                ((normal.same x).1 (s i)))
              s,
        λ s.
            Solution-moved p i made mat (λ j n. sym (others j n)) x
              ((normal.same x).0 (subst (λ (r : SparseMatrixRow). Vanishes p x r.cells) here (s i)))
              s,
      );
    }

    made-IsTriangular :
        IsLate mat.var_eq_ maxrow (row mat.rows_ i).cells i
        → IsTriangular maxrow mat
        → IsTriangular maxrow made
    made-IsTriangular late triangular =
        IsTriangular-moved p i mat made others maxrow ok triangular
          (λ c. elim (equations c) [ inl same ↦ inl same | inr (less, new_eq, e) ↦ inr new_eq ])
          (λ x has less.
            late x
              (normal.columns x (subst (λ (r : SparseMatrixRow). HasColumn x r.cells) here has))
              less)

  pub make_equation-IsStep : IsStep p i mat made
  make_equation-IsStep = elim (Bool-cases (get_first (row mat.rows_ i) == 0)) [
    | inl gone ↦
        subst (IsStep p i mat) (sym (made_same (==→eq (get_first (row mat.rows_ i)) 0 gone)))
          (IsStep-self p i mat ok)
    | inr there ↦ made-IsStep (==→ne (get_first (row mat.rows_ i)) 0 there)
  ]

  pub make_equation-IsTriangular :
      IsLate mat.var_eq_ maxrow (row mat.rows_ i).cells i
      → IsTriangular maxrow mat
      → IsTriangular maxrow made
  make_equation-IsTriangular late triangular =
      elim (Bool-cases (get_first (row mat.rows_ i) == 0)) [
        | inl gone ↦
            subst (IsTriangular maxrow)
              (sym (made_same (==→eq (get_first (row mat.rows_ i)) 0 gone))) triangular
        | inr there ↦
            made-IsTriangular (==→ne (get_first (row mat.rows_ i)) 0 there) late triangular
      ]
