-- ===== src/Modular.antt =====
-- include/fflow/common.hh and include/fflow/gcd.hh: the arithmetic helpers over `Mod`, by which all
-- other parts compute with residues, and src/integer_math.cc: powers and binomials.
pub mod Laws
pub mod Power
mod Examples
use finiteflow.Base.{
  ℕ, zero, suc, List, map, ◌+◌, ◌-◌, ◌*◌, ◌/◌, ◌%◌, ◌≤◌, ◌<◌, Bool, true, false, leb, ltb, ◌==◌,
  if◌then◌else◌, min,
}
use finiteflow.Word.{word, dword, add64, sub64, mul64, shl64}
use finiteflow.Ffmod.{
  FfMod, is_u32, ff_precomputed_reciprocal_mod, ff_mul_mod, ff_add_mod, ff_sub_mod, ff_apbc_mod,
  ff_precomputed_mul_shoup, ff_mul_shoup, ff_mul_inverse_mod,
}

-- class Mod
pub record Mod : Type 0 where
  pub mod_ : FfMod

-- `explicit Mod(UInt mod)` and `n()`
unfoldable pub new_mod : ℕ → Mod
new_mod m = record { mod_ = ff_precomputed_reciprocal_mod m }

abbrev pub n : Mod → ℕ
n m = m.mod_.n

-- 2^64 mod p
unfoldable pub beta_mod : ℕ → ℕ
beta_mod p = if is_u32 p then dword / word % p else sub64 0 (shl64 p)

-- assumes a < 2 p
unfoldable pub red_mod_ : ℕ → Mod → ℕ
red_mod_ a m = if ltb a (n m) then a else sub64 a (n m)

-- a % mod, without a division on the fast path
unfoldable pub red_mod : ℕ → Mod → ℕ
red_mod a m =
    if is_u32 (n m)
    then a % n m
    else let two_p = shl64 (n m) in if leb two_p a then sub64 a two_p else red_mod_ a m

unfoldable pub add_mod : ℕ → ℕ → Mod → ℕ
add_mod a b m = ff_add_mod a b m.mod_

unfoldable pub sub_mod : ℕ → ℕ → Mod → ℕ
sub_mod a b m = ff_sub_mod a b m.mod_

unfoldable pub neg_mod : ℕ → Mod → ℕ
neg_mod a m = ff_sub_mod 0 a m.mod_

unfoldable pub mul_mod : ℕ → ℕ → Mod → ℕ
mul_mod a b m = ff_mul_mod a b m.mod_

-- a + b*c
unfoldable pub apbc_mod : ℕ → ℕ → ℕ → Mod → ℕ
apbc_mod a b c m = ff_apbc_mod a b c m.mod_

-- a - b*c
unfoldable pub ambc_mod : ℕ → ℕ → ℕ → Mod → ℕ
ambc_mod a b c m = let b' = neg_mod b m in ff_apbc_mod a b' c m.mod_

-- fast calculation of 1/2 and -1/2
unfoldable pub half_mod : Mod → ℕ
half_mod m = add64 (n m) 1 / 2

unfoldable pub minus_half_mod : Mod → ℕ
minus_half_mod m = sub64 (n m) 1 / 2

unfoldable pub twice_mod : ℕ → Mod → ℕ
twice_mod a m = red_mod_ (shl64 a) m

unfoldable pub precomp_mul_shoup : ℕ → Mod → ℕ
precomp_mul_shoup w m = ff_precomputed_mul_shoup w m.mod_

unfoldable pub mul_mod_shoup : ℕ → ℕ → ℕ → Mod → ℕ
mul_mod_shoup t w wp m = ff_mul_shoup t w wp m.mod_

unfoldable pub precomp_array_mul_shoup : List ℕ → Mod → List ℕ
precomp_array_mul_shoup w m = map (λ x. precomp_mul_shoup x m) w

-- gcd.hh: a^(-1) mod n, and a/b mod n
unfoldable pub mul_inv : ℕ → Mod → ℕ
mul_inv a m = ff_mul_inverse_mod a m.mod_

unfoldable pub div_mod : ℕ → ℕ → Mod → ℕ
div_mod a b m = let b' = mul_inv b m in mul_mod a b' m

-- The loop of `power` over `y`, `res` and `x`; each round halves `y`, so `y` rounds are enough.
power_loop : ℕ → ℕ → ℕ → ℕ → Mod → ℕ
power_loop zero y res x m = res
power_loop (suc fuel) y res x m =
    let res' = if y % 2 == 1 then mul_mod res x m else res in
    let rest = power_loop fuel (y / 2) res' (mul_mod x x m) m in if y == 0 then res else rest

unfoldable pub power : ℕ → ℕ → Mod → ℕ
unfolding power_loop
power x y m = power_loop y y 1 x m
