-- ===== src/Modular/Power.antt =====
-- `power` of src/integer_math.cc raises to a power by repeated squaring.
use native.Mathlib.Nat.{
  mod-lt, mod-eq_of_lt, mul_assoc, mul_comm, pow-suc, pow-zero, mul-one, one-mul,
}
use finiteflow.Base.{
  ℕ, zero, suc, ◌+◌, ◌*◌, ◌/◌, ◌%◌, ◌^◌, ◌≤◌, ◌<◌, ◌≡◌, inl, inr, sym, ap, ◌∙◌, arith, false, ◌==◌,
  Bool-cases, ==→eq, ==→ne, ◌≢◌,
}
use finiteflow.Base.Div.{mul-mod_left_mod, mul-mod_right_mod}
use finiteflow.Ffmod.{IsModulus}
use finiteflow.Modular.{new_mod, power_loop, power}
use finiteflow.Modular.Laws.{mul_mod_lem}

pow_double : (x k : ℕ) → x ^ (k + k) ≡ (x * x) ^ k
pow_double x zero = pow-zero x ∙ sym (pow-zero (x * x))
pow_double x (suc k) =
    ap (λ t. x ^ t) shape
    ∙ pow-suc x (suc (k + k))
    ∙ ap (λ t. t * x) (pow-suc x (k + k))
    ∙ mul_assoc (x ^ (k + k)) x x
    ∙ ap (λ t. t * (x * x)) (pow_double x k)
    ∙ sym (pow-suc (x * x) k)
  where
    shape : suc k + suc k ≡ suc (suc (k + k))
    shape = omega arith

-- One step of the exponent, even or odd.
pow_even : (x y : ℕ) → y % 2 ≢ 1 → x ^ y ≡ (x * x) ^ (y / 2)
pow_even x y h = ap (λ t. x ^ t) shape ∙ pow_double x (y / 2)
  where
    shape : y ≡ y / 2 + y / 2
    shape = omega arith

pow_odd : (x y : ℕ) → y % 2 ≡ 1 → x ^ y ≡ x * (x * x) ^ (y / 2)
pow_odd x y h =
    ap (λ t. x ^ t) shape
    ∙ pow-suc x (y / 2 + y / 2)
    ∙ mul_comm _ x
    ∙ ap (λ t. x * t) (pow_double x (y / 2))
  where
    shape : y ≡ suc (y / 2 + y / 2)
    shape = omega arith

pow-mod : (x y p : ℕ) → (x % p) ^ y % p ≡ x ^ y % p
pow-mod x zero p = ap (λ t. t % p) (pow-zero (x % p) ∙ sym (pow-zero x))
pow-mod x (suc y) p =
    ap (λ t. t % p) (pow-suc (x % p) y)
    ∙ mul-mod_right_mod ((x % p) ^ y) x p
    ∙ sym (mul-mod_left_mod ((x % p) ^ y) x p)
    ∙ ap (λ t. t * x % p) (pow-mod x y p)
    ∙ mul-mod_left_mod (x ^ y) x p
    ∙ ap (λ t. t % p) (sym (pow-suc x y))

-- The reductions between the rounds do not change the result.
step_mod : (a b k p : ℕ) → a % p * (b % p) ^ k % p ≡ a * b ^ k % p
step_mod a b k p =
    mul-mod_left_mod a ((b % p) ^ k) p
    ∙ sym (mul-mod_right_mod a ((b % p) ^ k) p)
    ∙ ap (λ t. a * t % p) (pow-mod b k p)
    ∙ mul-mod_right_mod a (b ^ k) p

module _ (p : ℕ) (h : IsModulus p) where
  p_pos : 0 < p
  p_pos = ground arith

  zero_round : (y res x : ℕ) → y ≡ 0 → res < p → res ≡ res * x ^ y % p
  zero_round y res x e r = rw (e, pow-zero, mul-one) (sym (mod-eq_of_lt r))

  power_loop_lem :
      (fuel y res x : ℕ)
      → y ≤ fuel
      → res < p
      → x < p
      → power_loop fuel y res x (new_mod p) ≡ res * x ^ y % p
  unfolding power_loop
  power_loop_lem zero y res x q r s = zero_round y res x (omega arith) r
  power_loop_lem (suc fuel) y res x q r s = elim (Bool-cases (y == 0)) [
    | inl done ↦ rw done (zero_round y res x (==→eq y 0 done) r)
    | inr more ↦ elim (Bool-cases (y % 2 == 1)) [
      | inl odd ↦
          rw
            (
              more,
              odd,
              mul_mod_lem p h res x r s,
              mul_mod_lem p h x x s s,
              power_loop_lem fuel (y / 2) (res * x % p) (x * x % p) (half_fuel more)
                  (mod-lt (res * x) p_pos) (mod-lt (x * x) p_pos),
            )
            (step_mod (res * x) (x * x) (y / 2) p
              ∙ ap (λ t. t % p)
                  (mul_assoc res x ((x * x) ^ (y / 2))
                    ∙ ap (λ t. res * t) (sym (pow_odd x y (==→eq (y % 2) 1 odd)))))
      | inr even ↦
          rw
            (
              more,
              even,
              mul_mod_lem p h x x s s,
              power_loop_lem fuel (y / 2) res (x * x % p) (half_fuel more) r (mod-lt (x * x) p_pos),
            )
            (ap (λ t. t * (x * x % p) ^ (y / 2) % p) (sym (mod-eq_of_lt r))
              ∙ step_mod res (x * x) (y / 2) p
              ∙ ap (λ t. res * t % p) (sym (pow_even x y (==→ne (y % 2) 1 even))))
    ]
  ]
    where
      half_fuel : (y == 0) ≡ false → y / 2 ≤ fuel
      half_fuel more = omega (arith, ==→ne y 0 more)

  -- For a modulus p > 1 of either path and a residue `x`, `power` gives x^y mod p.
  pub power_lem : (x y : ℕ) → 1 < p → x < p → power x y (new_mod p) ≡ x ^ y % p
  unfolding power
  power_lem x y one_lt s =
      power_loop_lem y y 1 x (omega arith) one_lt s ∙ ap (λ t. t % p) (one-mul (x ^ y))
