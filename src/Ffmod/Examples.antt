-- ===== src/Ffmod/Examples.antt =====
-- Runs of the arithmetic of ffmod.h at the largest prime below 2^63 and at a small prime, and its
-- theorems at inputs that meet their hypotheses.
use native.Mathlib.Nat.{dvd-sub, dvd-mul_right_of_dvd, eq-one_of_dvd-one}
use finiteflow.Base.{ℕ, ◌*◌, ◌+◌, ◌/◌, ◌%◌, ◌<◌, ◌≡◌, inr, refl, arith}
use finiteflow.Word.{word}
use finiteflow.Ffmod.{
  IsModulus, ff_precomputed_reciprocal_mod, ff_div2_mod1, ff_div2_by1, ff_mul_mod, ff_apbc_mod,
  ff_precomputed_mul_shoup, ff_mul_shoup, ff_mul_inverse_mod, ff_div_mod,
}
use finiteflow.Ffmod.Division.{ff_div2_by1_lem}
use finiteflow.Ffmod.Mul.{ff_mul_mod_lem, ff_apbc_mod_lem, ff_mul_shoup_lem}
use finiteflow.Ffmod.Inverse.{Coprime, ff_mul_inverse_mod_lem, ff_div_mod_lem}

-- The first entry of src/ff_prime_list.hh.
abbrev prime : ℕ
prime = 9223372036854775783

prime-IsModulus : IsModulus prime
prime-IsModulus = inr (omega arith, omega arith)

two-Coprime : Coprime 2 prime
two-Coprime d h k = eq-one_of_dvd-one (dvd-sub d k (dvd-mul_right_of_dvd d h 4611686018427387891))

runs :
    (ff_mul_mod 123456789012345678 987654321098765432 (ff_precomputed_reciprocal_mod prime)
      ≡ 123456789012345678 * 987654321098765432 % prime)
    × (ff_div2_by1 (5 * word + 17) (ff_precomputed_reciprocal_mod prime)
        ≡ ((5 * word + 17) / prime, (5 * word + 17) % prime))
unfolding ff_mul_mod ff_div2_mod1 ff_div2_by1 ff_precomputed_reciprocal_mod
runs = (refl, refl)

ff_div2_by1_lem_example :
    ff_div2_by1 (5 * word + 17) (ff_precomputed_reciprocal_mod prime)
    ≡ ((5 * word + 17) / prime, (5 * word + 17) % prime)
ff_div2_by1_lem_example = ff_div2_by1_lem prime (5 * word + 17) prime-IsModulus (omega arith)

ff_mul_mod_lem_example :
    ff_mul_mod 4000000000000000000 3000000000000000000 (ff_precomputed_reciprocal_mod prime)
    ≡ 4000000000000000000 * 3000000000000000000 % prime
ff_mul_mod_lem_example =
    ff_mul_mod_lem prime 4000000000000000000 3000000000000000000 prime-IsModulus (omega arith)
      (omega arith)

ff_apbc_mod_lem_example :
    ff_apbc_mod 5 4000000000000000000 3000000000000000000 (ff_precomputed_reciprocal_mod prime)
    ≡ (5 + 4000000000000000000 * 3000000000000000000) % prime
ff_apbc_mod_lem_example =
    ff_apbc_mod_lem prime 5 4000000000000000000 3000000000000000000 prime-IsModulus (omega arith)
      (omega arith) (omega arith)

ff_mul_shoup_lem_example :
    ff_mul_shoup 4000000000000000000 3000000000000000000
      (ff_precomputed_mul_shoup 3000000000000000000 (ff_precomputed_reciprocal_mod prime))
      (ff_precomputed_reciprocal_mod prime)
    ≡ 4000000000000000000 * 3000000000000000000 % prime
ff_mul_shoup_lem_example =
    ff_mul_shoup_lem prime 4000000000000000000 3000000000000000000 prime-IsModulus (omega arith)
      (omega arith)

ff_mul_inverse_mod_lem_example :
    (ff_mul_inverse_mod 2 (ff_precomputed_reciprocal_mod prime) < prime)
    × (2 * ff_mul_inverse_mod 2 (ff_precomputed_reciprocal_mod prime) % prime ≡ 1)
ff_mul_inverse_mod_lem_example =
    ff_mul_inverse_mod_lem prime 2 (omega arith) (omega arith) (omega arith) two-Coprime

ff_div_mod_lem_example :
    (ff_div_mod 7 2 (ff_precomputed_reciprocal_mod prime) < prime)
    × (ff_div_mod 7 2 (ff_precomputed_reciprocal_mod prime) * 2 % prime ≡ 7)
ff_div_mod_lem_example =
    ff_div_mod_lem prime 2 (omega arith) (omega arith) (omega arith) two-Coprime 7 prime-IsModulus
      (omega arith)
