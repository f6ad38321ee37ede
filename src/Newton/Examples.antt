-- ===== src/Newton/Examples.antt =====
-- Newton interpolation at a concrete function.
use native.Mathlib.Nat.{dvd-sub, dvd-mul_right_of_dvd, eq-one_of_dvd-one, mod-lt}
use finiteflow.Base.{ℕ, [], ◌∷◌, ◌*◌, ◌%◌, ◌<◌, ◌≡◌, inl, inr, ap, ◌∙◌, refl, arith, subst, sym}
use finiteflow.Ffmod.{IsModulus}
use finiteflow.Ffmod.Inverse.{Coprime}
use finiteflow.Modular.{new_mod, sub_mod}
use finiteflow.Modular.Laws.{sub_mod_lem, mul_mod_lem, apbc_mod_lem}
use finiteflow.Newton.Standard.{to_std_rep-eval}
use finiteflow.Newton.{
  NewtonUPoly, upoly_eval, to_std_rep, push_back, eval, eval_newton_system_row, newton_coeff,
  row_loop,
}
use finiteflow.Newton.Interpolation.{IsNewton, Fits, newton_coeff_lem}
use finiteflow.Newton.Rows.{HasPoint}

abbrev square : ℕ → ℕ
square x = x * x % 103

-- The square of 1 is 1.
abbrev one_point : NewtonUPoly
one_point = record { xi_ = 1 ∷ []; ai_ = 1 ∷ [] }

small-IsModulus : IsModulus 103
small-IsModulus = inl (omega arith, omega arith)

one_point-Fits : Fits 103 square one_point
unfolding eval_newton_system_row row_loop
one_point-Fits x small (inl here) =
    apbc_mod_lem 103 small-IsModulus 0 1 1 (omega arith) (omega arith) (omega arith)
    ∙ ap square here
one_point-Fits x small (inr later) = absurd later

next_term : (eval_newton_system_row one_point 4 (new_mod 103) 1).1 ≡ 3
unfolding eval_newton_system_row row_loop
next_term =
    let gap = sub_mod_lem 103 small-IsModulus 4 1 (omega arith) (omega arith) in
    mul_mod_lem 103 small-IsModulus 1 (sub_mod 4 1 (new_mod 103)) (omega arith) (omega (arith, gap))
    ∙ ap (λ t. 1 * t % 103) gap

three-Coprime : Coprime 3 103
three-Coprime d h k = eq-one_of_dvd-one (dvd-sub d k (dvd-mul_right_of_dvd d h 34))

newton_coeff_lem_example :
    IsNewton 103 (push_back one_point 4 (newton_coeff one_point 4 16 (new_mod 103) 1))
    × Fits 103 square (push_back one_point 4 (newton_coeff one_point 4 16 (new_mod 103) 1))
    × ((z : ℕ)
        → z < 103
        → HasPoint z (1 ∷ 4 ∷ [])
        → eval (push_back one_point 4 (newton_coeff one_point 4 16 (new_mod 103) 1)) z (new_mod 103)
          ≡ square z)
newton_coeff_lem_example =
    newton_coeff_lem 103 small-IsModulus (omega arith) square (λ x h. mod-lt (x * x) (omega arith))
      one_point
      (record { same_size = refl; points = (omega arith, tt); coeffs = (omega arith, tt) })
      one_point-Fits 4 (omega arith) (subst (λ t. Coprime t 103) (sym next_term) three-Coprime)

abbrev two_points : NewtonUPoly
two_points = record { xi_ = 1 ∷ 4 ∷ []; ai_ = 1 ∷ 5 ∷ [] }

to_std_rep-eval_example :
    upoly_eval (to_std_rep two_points (new_mod 103)) 9 (new_mod 103)
    ≡ eval two_points 9 (new_mod 103)
to_std_rep-eval_example =
    to_std_rep-eval 103 small-IsModulus two_points
      (record {
        same_size = refl;
        points = (omega arith, (omega arith, tt));
        coeffs = (omega arith, (omega arith, tt));
      })
      (omega arith) 9 (omega arith)
