-- ===== src/Modular/Examples.antt =====
-- The theorems on the helpers of common.hh and on `power`, at concrete inputs.
use finiteflow.Base.{ℕ, ◌%◌, ◌^◌, ◌≡◌, inl, inr, arith}
use finiteflow.Ffmod.{IsModulus}
use finiteflow.Modular.{new_mod, power}
use finiteflow.Modular.Power.{power_lem}

abbrev prime : ℕ
prime = 9223372036854775783

abbrev small_prime : ℕ
small_prime = 4294967291

prime-IsModulus : IsModulus prime
prime-IsModulus = inr (omega arith, omega arith)

small_prime-IsModulus : IsModulus small_prime
small_prime-IsModulus = inl (omega arith, omega arith)

power_lem_example : power 3 200 (new_mod prime) ≡ 3 ^ 200 % prime
power_lem_example = power_lem prime prime-IsModulus 3 200 (omega arith) (omega arith)
