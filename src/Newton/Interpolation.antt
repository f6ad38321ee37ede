-- ===== src/Newton/Interpolation.antt =====
-- Newton interpolation: a point that is added fits, and the points before still do.
use native.Mathlib.Nat.{mod-eq_of_lt, mod-lt, mod_self, add-mod, mod-mod, mul_comm}
use finiteflow.Base.{
  ◌⊎◌, inl, inr, ℕ, List, [], ◌∷◌, ◌++◌, ◌+◌, ◌*◌, ◌-◌, ◌%◌, ◌<◌, ◌≡◌, ap, sym, ◌∙◌, arith, length,
  length-append, subst,
}
use finiteflow.Ffmod.{IsModulus}
use finiteflow.Ffmod.Inverse.{Coprime}
use finiteflow.Modular.{new_mod, sub_mod, div_mod, mul_inv}
use finiteflow.Modular.Laws.{sub_mod_lem, apbc_mod_lem, div_mod_lem, mul_inv_lem}
use finiteflow.Newton.{NewtonUPoly, push_back, eval, eval_newton_system_row, newton_coeff}
use finiteflow.Newton.Rows.{
  AllBelow, HasPoint, mul_mod-lt, row_loop-IsRowPair, row_loop-eval, row_loop-HasPoint,
  row_loop-snoc,
}

pub record IsNewton (p : ℕ) (poly : NewtonUPoly) : Type 0 where
  pub same_size : length poly.xi_ ≡ length poly.ai_
  pub points : AllBelow p poly.xi_
  pub coeffs : AllBelow p poly.ai_

HasPoint-append : (x z : ℕ) (zs : List ℕ) → HasPoint x (zs ++ z ∷ []) → (z ≡ x) ⊎ HasPoint x zs
HasPoint-append x z [] has = has
HasPoint-append x z (y ∷ zs) has = elim has [
  | inl here ↦ inr (inl here)
  | inr later ↦ elim (HasPoint-append x z zs later) [
    | inl last ↦ inl last
    | inr before ↦ inr (inr before)
  ]
]

AllBelow-append : (p z : ℕ) (zs : List ℕ) → AllBelow p zs → z < p → AllBelow p (zs ++ z ∷ [])
AllBelow-append p z [] all small = (small, tt)
AllBelow-append p z (y ∷ zs) all small = (all.0, AllBelow-append p z zs all.1 small)

-- The polynomial has the values of `f` at its points.
abbrev pub Fits : ℕ → (ℕ → ℕ) → NewtonUPoly → Type 0
Fits p f poly =
    (x : ℕ)
    → x < p
    → HasPoint x poly.xi_
    → (eval_newton_system_row poly x (new_mod p) (length poly.ai_)).0 ≡ f x

module _ (p : ℕ) (h : IsModulus p) (one_lt : 1 < p) (poly : NewtonUPoly)
    (ok : IsNewton p poly) where
  row_at : ℕ → ℕ × ℕ
  row_at x = eval_newton_system_row poly x (new_mod p) (length poly.ai_)

  row_at-small : (x : ℕ) → x < p → ((row_at x).0 < p) × ((row_at x).1 < p)
  unfolding row_at eval_newton_system_row
  row_at-small x small =
      row_loop-IsRowPair p h x small poly.ai_ poly.xi_ 0 1 ok.coeffs ok.points ok.same_size
        (omega (arith, small)) one_lt

  module _ (z a : ℕ) (a_small : a < p) (x : ℕ) (small : x < p) where
    push_back-row :
        (eval_newton_system_row
          (push_back poly z a)
          x
          (new_mod p)
          (length (push_back poly z a).ai_)).0
        ≡ ((row_at x).0 + a * (row_at x).1) % p
    unfolding push_back eval_newton_system_row row_at
    push_back-row =
        row_loop-snoc p h x small poly.ai_ poly.xi_ a z 0 1 ok.same_size
        ∙ apbc_mod_lem p h (row_at x).0 a (row_at x).1 (row_at-small x small).0 a_small
            (row_at-small x small).1

    push_back-eval : eval (push_back poly z a) x (new_mod p) ≡ ((row_at x).0 + a * (row_at x).1) % p
    unfolding push_back eval eval_newton_system_row row_at
    push_back-eval =
        let both =
          row_loop-eval p h x small poly.ai_ poly.xi_ a (z ∷ []) 0 1 ok.coeffs ok.points a_small
            ok.same_size (omega (arith, small)) one_lt in
        sym (mod-eq_of_lt both.0)
        ∙ ap (λ t. t % p) (omega arith)
        ∙ sym both.1
        ∙ ap (λ t. ((row_at x).0 + t) % p) (mul_comm (row_at x).1 a)

    push_back_at : HasPoint x poly.xi_ → ((row_at x).0 + a * (row_at x).1) % p ≡ (row_at x).0
    unfolding row_at eval_newton_system_row
    push_back_at has =
        ap (λ t. ((row_at x).0 + a * t) % p)
          (row_loop-HasPoint p h x small poly.ai_ poly.xi_ 0 1 ok.points one_lt ok.same_size has)
        ∙ ap (λ t. t % p) (omega arith)
        ∙ mod-eq_of_lt (row_at-small x small).0

  module _ (x y : ℕ) (small : x < p) (y_small : y < p)
      (invertible : Coprime (eval_newton_system_row poly x (new_mod p) (length poly.ai_)).1 p) where
    coeff : ℕ
    coeff = newton_coeff poly x y (new_mod p) (length poly.ai_)

    gap : ℕ
    gap = sub_mod y (row_at x).0 (new_mod p)

    gap-small : (gap < p) × (((row_at x).0 + gap) % p ≡ y)
    unfolding gap
    gap-small =
        let value = sub_mod_lem p h y (row_at x).0 y_small (row_at-small x small).0 in
        (
          subst (λ t. t < p) (sym value) (mod-lt (y + p - (row_at x).0) (omega (arith, small))),
          ap (λ t. ((row_at x).0 + t) % p) value
              ∙ add-mod (row_at x).0 ((y + p - (row_at x).0) % p) p
              ∙ ap (λ t. ((row_at x).0 % p + t) % p) (mod-mod (y + p - (row_at x).0) p)
              ∙ sym (add-mod (row_at x).0 (y + p - (row_at x).0) p)
              ∙ ap (λ t. t % p) (omega (arith, (row_at-small x small).0))
              ∙ add-mod y p p
              ∙ ap (λ t. (y % p + t) % p) (mod_self p)
              ∙ ap (λ t. t % p) (omega arith)
              ∙ mod-mod y p
              ∙ mod-eq_of_lt y_small,
        )

    coeff-lt : coeff < p
    unfolding coeff newton_coeff row_at div_mod gap
    coeff-lt =
        mul_mod-lt p h x small gap (mul_inv (row_at x).1 (new_mod p)) gap-small.0
          (mul_inv_lem p h (row_at x).1 one_lt (row_at-small x small).1 invertible).0

    coeff_fits : ((row_at x).0 + coeff * (row_at x).1) % p ≡ y
    unfolding coeff newton_coeff row_at gap
    coeff_fits =
        add-mod (row_at x).0 (coeff * (row_at x).1) p
        ∙ ap (λ t. ((row_at x).0 % p + t) % p)
            (div_mod_lem p h gap (row_at x).1 one_lt gap-small.0 (row_at-small x small).1 invertible
              ∙ sym (mod-eq_of_lt gap-small.0))
        ∙ sym (add-mod (row_at x).0 gap p)
        ∙ gap-small.1

-- For a modulus above 1 in the range of the word-sized ones, a function `f` from residues to residues, a
-- polynomial in Newton form with as many points as coefficients, all residues, that has the values of `f`
-- at its points, and a residue x at which the next term is coprime to the modulus: with x and the
-- coefficient that `reconstruct` computes from f(x) appended, the polynomial has again as many points as
-- coefficients, all residues, and has the values of `f` at x and at the points before, both by the rows
-- of the system and by `eval`.
pub newton_coeff_lem :
    (p : ℕ)
    → IsModulus p
    → 1 < p
    → (f : ℕ → ℕ) → ((x : ℕ) → x < p → f x < p)
    → (poly : NewtonUPoly) → IsNewton p poly
    → Fits p f poly
    → (x : ℕ) → x < p
    → Coprime (eval_newton_system_row poly x (new_mod p) (length poly.ai_)).1 p
    → IsNewton p (push_back poly x (newton_coeff poly x (f x) (new_mod p) (length poly.ai_)))
      × Fits p f (push_back poly x (newton_coeff poly x (f x) (new_mod p) (length poly.ai_)))
      × ((z : ℕ)
          → z < p
          → HasPoint z (poly.xi_ ++ x ∷ [])
          → eval
              (push_back poly x (newton_coeff poly x (f x) (new_mod p) (length poly.ai_)))
              z
              (new_mod p)
            ≡ f z)
unfolding push_back coeff row_at
newton_coeff_lem p h one_lt f f_small poly ok fits x small invertible = (
  record {
    same_size =
        omega
          (arith, ok.same_size, length-append poly.xi_ (x ∷ []), length-append poly.ai_ (a ∷ []));
    points = AllBelow-append p x poly.xi_ ok.points small;
    coeffs = AllBelow-append p a poly.ai_ ok.coeffs a_small;
  },
  λ z z_small has. push_back-row p h one_lt poly ok x a a_small z z_small ∙ value z z_small has,
  λ z z_small has. push_back-eval p h one_lt poly ok x a a_small z z_small ∙ value z z_small has,
)
  where
    a : ℕ
    a = newton_coeff poly x (f x) (new_mod p) (length poly.ai_)

    a_small : a < p
    a_small = coeff-lt p h one_lt poly ok x (f x) small (f_small x small) invertible

    value :
        (z : ℕ)
        → z < p
        → HasPoint z (poly.xi_ ++ x ∷ [])
        → ((row_at p h one_lt poly ok z).0 + a * (row_at p h one_lt poly ok z).1) % p ≡ f z
    value z z_small has = elim (HasPoint-append z x poly.xi_ has) [
      | inl new ↦
          subst
            (λ t. ((row_at p h one_lt poly ok t).0 + a * (row_at p h one_lt poly ok t).1) % p ≡ f t)
            new (coeff_fits p h one_lt poly ok x (f x) small (f_small x small) invertible)
      | inr old ↦ push_back_at p h one_lt poly ok x a a_small z z_small old ∙ fits z z_small old
    ]
