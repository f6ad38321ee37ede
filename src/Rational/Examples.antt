-- ===== src/Rational/Examples.antt =====
-- Thiele interpolation and Laurent expansions at concrete functions.
use native.Mathlib.Nat.{dvd-sub, dvd-mul_right_of_dvd, eq-one_of_dvd-one}
use finiteflow.Base.{
  ℕ, zero, suc, [], ◌∷◌, ◌+◌, ◌*◌, ◌%◌, ◌<◌, ◌≤◌, ◌≡◌, ◌≢◌, ap, ◌∙◌, inl, inr, some, true, get_or,
  length, refl, arith,
}
use finiteflow.Base.Int.{pos, negsuc, ◌-ℤ◌}
use finiteflow.Ffmod.{IsModulus}
use finiteflow.Ffmod.Inverse.{Coprime}
use finiteflow.Modular.{new_mod, apbc_mod, sub_mod, neg_mod, mul_mod, mul_inv, add_mod, div_mod}
use finiteflow.Modular.Laws.{apbc_mod_lem, sub_mod_lem, neg_mod_lem, mul_mod_lem, mul_inv_lem}
use finiteflow.Newton.{evaluation_failed, sampling_stride}
use finiteflow.Rational.{
  ThieleURationalFunction, push_back, fraction, safe_eval, system_loop, quotient_or_failed,
  eval_thiele_system_coeff, laurent_expansion, laurent_expansion_learn,
}
use finiteflow.Rational.System.{div_mod-lt}
use finiteflow.Rational.Thiele.{thiele_coeff_lem, system_coeff-loop}
use finiteflow.Rational.Reconstruct.{
  URatFunReconstruction, remove_high_zeroes, reconstruct, reconstruct_terms, find_term, try_term,
  check_loop,
}
use finiteflow.Rational.Agreement.{AgreesAt}
use finiteflow.Rational.Checks.{reconstruct-IsAccepted}
use finiteflow.Rational.Laurent.{laurent_expansion_lem, product_coeff}

five-IsModulus : IsModulus 5
five-IsModulus = inl (omega arith, omega arith)

five-Coprime : (z : ℕ) → 0 < z → z < 5 → Coprime z 5
five-Coprime zero h h' d k k' = absurd (omega arith)
five-Coprime (suc zero) h h' d k k' = eq-one_of_dvd-one k
five-Coprime (suc (suc zero)) h h' d k k' = eq-one_of_dvd-one (dvd-sub d (dvd-sub d k' k) k)
five-Coprime (suc (suc (suc zero))) h h' d k k' = eq-one_of_dvd-one (dvd-sub d k (dvd-sub d k' k))
five-Coprime (suc (suc (suc (suc zero)))) h h' d k k' = eq-one_of_dvd-one (dvd-sub d k' k)
five-Coprime (suc (suc (suc (suc (suc z))))) h h' d k k' = absurd (omega arith)

-- 1 + (x - 1) / 3, with the values 1 at 1 and 3 at 2
abbrev two_terms : ThieleURationalFunction
two_terms = record { ai_ = 1 ∷ 3 ∷ []; xi_ = 1 ∷ 2 ∷ [] }

two_terms_loop :
    system_loop 1
      (3 ∷ [])
      (2 ∷ [])
      3
      (new_mod 5)
      (sub_mod 3 1 (new_mod 5))
      (sub_mod 2 1 (new_mod 5))
    ≡ some (1, 4)
unfolding system_loop
two_terms_loop =
    let num : sub_mod 3 1 (new_mod 5) ≡ 2 =
      sub_mod_lem 5 five-IsModulus 3 1 (omega arith) (omega arith) in
    let den : sub_mod 2 1 (new_mod 5) ≡ 1 =
      sub_mod_lem 5 five-IsModulus 2 1 (omega arith) (omega arith) in
    let negative : neg_mod 1 (new_mod 5) ≡ 4 = neg_mod_lem 5 five-IsModulus 1 (omega arith) in
    let next : apbc_mod 2 3 4 (new_mod 5) ≡ 4 =
      apbc_mod_lem 5 five-IsModulus 2 3 4 (omega arith) (omega arith) (omega arith) in
    let gap : sub_mod 3 2 (new_mod 5) ≡ 1 =
      sub_mod_lem 5 five-IsModulus 3 2 (omega arith) (omega arith) in
    let product : mul_mod 1 1 (new_mod 5) ≡ 1 =
      mul_mod_lem 5 five-IsModulus 1 1 (omega arith) (omega arith) in
    rw (num, den, negative, next, gap, product) refl

two_terms_coeff : eval_thiele_system_coeff two_terms 3 2 (new_mod 5) 2 ≢ evaluation_failed
two_terms_coeff failed =
    let coeff : eval_thiele_system_coeff two_terms 3 2 (new_mod 5) 2 ≡ div_mod 1 4 (new_mod 5) =
      system_coeff-loop 5 3 2 1 1 (3 ∷ []) (2 ∷ [])
      ∙ ap (λ r. quotient_or_failed r (new_mod 5)) two_terms_loop in
    absurd (
      omega (
        arith,
        failed,
        coeff,
        div_mod-lt 5 five-IsModulus (omega arith) five-Coprime 0 (omega arith) 1 4 (omega arith)
            (omega arith) (omega arith),
      ))

thiele_coeff_lem_example :
    (eval_thiele_system_coeff two_terms 3 2 (new_mod 5) 2 < 5)
    × (safe_eval
          (push_back two_terms 3 (eval_thiele_system_coeff two_terms 3 2 (new_mod 5) 2))
          3
          (new_mod 5)
        ≡ 2)
thiele_coeff_lem_example =
    thiele_coeff_lem 5 five-IsModulus (omega arith) five-Coprime two_terms 3 2 (omega arith)
      (omega arith) (omega arith, (omega arith, tt)) (omega arith, (omega arith, tt))
      ((λ e. absurd (omega (arith, e))), ((λ e. absurd (omega (arith, e))), tt)) refl (omega arith)
      two_terms_coeff

order_difference : pos 2 -ℤ negsuc 0 ≡ pos 3
unfolding ◌-ℤ◌ native.Mathlib.Decide.dec_le
order_difference = refl

-- (2 + 3 x) / (x + 4 x^2) up to the order 2
laurent_expansion_lem_example :
    (length (laurent_expansion (2 ∷ 3 ∷ []) (0 ∷ 1 ∷ 4 ∷ []) (pos 2) (new_mod 5) (negsuc 0)) ≡ 4)
    × ((i : ℕ)
        → i ≤ 3
        → product_coeff
              (1 ∷ 4 ∷ [])
              (laurent_expansion (2 ∷ 3 ∷ []) (0 ∷ 1 ∷ 4 ∷ []) (pos 2) (new_mod 5) (negsuc 0))
              i
            % 5
          ≡ get_or (2 ∷ 3 ∷ []) i 0)
laurent_expansion_lem_example =
    laurent_expansion_lem 5 five-IsModulus (omega arith) (2 ∷ 3 ∷ []) (0 ∷ 1 ∷ 4 ∷ []) (pos 2)
      (negsuc 0) 3 (omega arith, (omega arith, tt)) (omega arith, (omega arith, (omega arith, tt)))
      order_difference refl

learn_test : laurent_expansion_learn (2 ∷ 3 ∷ []) (0 ∷ 1 ∷ 4 ∷ []) ≡ negsuc 0
unfolding laurent_expansion_learn ◌-ℤ◌ native.Mathlib.Decide.dec_le
learn_test = refl

-- A modulus in whose range the stride of the sampling is.
abbrev large_prime : ℕ
large_prime = sampling_stride * 600000000 + 1

large_prime-IsModulus : IsModulus large_prime
large_prime-IsModulus = inr (omega arith, omega arith)

stride-Coprime : Coprime sampling_stride large_prime
stride-Coprime d h k = eq-one_of_dvd-one (dvd-sub d k (dvd-mul_right_of_dvd d h 600000000))

-- The function 0 is accepted after two checks.
abbrev zero_reconstruction : URatFunReconstruction
zero_reconstruction = record {
  fun_ = record { ai_ = 0 ∷ []; xi_ = 1 ∷ [] };
  maxterms_ = 4;
  n_checks = 2;
  n_singular = 1;
}

zero_value : (x : ℕ) → safe_eval zero_reconstruction.fun_ x (new_mod large_prime) ≡ 0
unfolding safe_eval fraction div_mod
zero_value x =
    mul_mod_lem large_prime large_prime-IsModulus 0 (mul_inv 1 (new_mod large_prime)) (omega arith)
      (mul_inv_lem large_prime large_prime-IsModulus 1 (omega arith) (omega arith)
        (λ d k k'. eq-one_of_dvd-one k)).0
    ∙ omega arith

zero_success : (reconstruct zero_reconstruction (λ x. 0) (new_mod large_prime)).0 ≡ true
unfolding reconstruct reconstruct_terms find_term try_term check_loop
zero_success =
    let first = zero_value 1 in
    let second = zero_value (add_mod 1 sampling_stride (new_mod large_prime)) in
    ground (arith, first, second)

reconstruct-IsAccepted_example :
    (fun : ThieleURationalFunction) × ((reconstruct zero_reconstruction
        (λ x. 0)
        (new_mod large_prime)).1
      ≡ remove_high_zeroes fun)
    × AgreesAt (λ x. 0) (new_mod large_prime) fun 2
reconstruct-IsAccepted_example =
    reconstruct-IsAccepted (λ x. 0) large_prime zero_reconstruction large_prime-IsModulus
      (omega arith) (omega arith) stride-Coprime (omega arith, tt) (omega arith) zero_success
