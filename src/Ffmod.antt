-- ===== src/Ffmod.antt =====
-- include/fflow/ffmod.h and src/ffmod.c: arithmetic modulo a word-sized number. An `FFMod` holds the
-- modulus with the reciprocal of its double, by which Moller and Granlund's algorithm divides.
-- A modulus below 2 ^ 32 takes the branches with ordinary reductions.
pub mod Corrections
pub mod Division
pub mod Mul
pub mod Add
pub mod Inverse
mod Examples
use finiteflow.Base.{
  ℕ, ◌+◌, ◌-◌, ◌*◌, ◌/◌, ◌%◌, ◌≤◌, ◌<◌, ◌⊎◌, Bool, not, ◌&&◌, leb, ltb, ◌==◌, if◌then◌else◌, arith,
}
use mathlib.Core.WellFounded.{Acc}
use mathlib.Core.Logic.{dite}
use native.Mathlib.Nat.{mod-lt, mod-eq-sub-div-mul}
use native.Mathlib.Decide.{dec_lt, dec_le}
use finiteflow.Base.Order.{lt_wf}
use finiteflow.Base.Int.{ℤ, pos, negsuc, ◌+ℤ◌, ◌-ℤ◌, ◌*ℤ◌}
use finiteflow.Word.{word, dword, add64, sub64, mul64, shl64, add128, mul128, shl128, high, low}

pub record FfMod : Type 0 where
  pub n : ℕ
  pub v : ℕ

-- `n && n <= 0xffffffff`, the test on the modulus itself.
abbrev pub is_u32 : ℕ → Bool
is_u32 n = not (n == 0) && leb n 0xffff_ffff

-- A negative integer is cast to a word by its two's complement.
abbrev pub cast : ℤ → ℕ
cast (pos t) = t % word
cast (negsuc t) = word - 1 - t % word

pub remainder-lt : (r d : ℕ) → 0 < d → r - r / d * d < d
remainder-lt r d h = omega (arith, mod-eq-sub-div-mul r d, mod-lt r h)

unfoldable pub ff_is_u32_mod : FfMod → Bool
ff_is_u32_mod p = is_u32 p.n

-- `hl.high -= p` acts on the upper half of the 128-bit word of ones.
unfoldable pub ff_precomputed_reciprocal_mod : ℕ → FfMod
ff_precomputed_reciprocal_mod n =
    if is_u32 n
    then record { n = n; v = 0 }
    else let p = shl64 n in
      let ones : ℕ = dword - 1 in
      let z = sub64 (high ones) p * word + low ones in record { n = n; v = low (z / p) }

unfoldable pub ff_div2_mod1 : ℕ → FfMod → ℕ
unfolding ff_is_u32_mod
ff_div2_mod1 z p =
    if ff_is_u32_mod p
    then z % p.n % word
    else let n = shl64 p.n in
      let u = shl128 z in
      let q = add128 (mul128 p.v (high u)) u in
      let q_high = add64 (high q) 1 in
      let r = sub64 (low u) (mul64 q_high n) in
      let r' = if ltb (low q) r then add64 r n else r in
      let r'' = if leb n r' then sub64 r' n else r' in r'' / 2

-- The quotient and the remainder that `ffDiv2By1` stores.
unfoldable pub ff_div2_by1 : ℕ → FfMod → ℕ × ℕ
unfolding ff_is_u32_mod
ff_div2_by1 z p =
    if ff_is_u32_mod p
    then (z / p.n % word, z % p.n % word)
    else let n = shl64 p.n in
      let u = shl128 z in
      let q = add128 (mul128 p.v (high u)) u in
      let q_high = add64 (high q) 1 in
      let r = sub64 (low u) (mul64 q_high n) in
      let over = ltb (low q) r in
      let q_high' = if over then sub64 q_high 1 else q_high in
      let r' = if over then add64 r n else r in
      let over' = leb n r' in
      let q_high'' = if over' then add64 q_high' 1 else q_high' in
      let r'' = if over' then sub64 r' n else r' in (q_high'', r'' / 2)

unfoldable pub ff_mul_mod : ℕ → ℕ → FfMod → ℕ
unfolding ff_is_u32_mod
ff_mul_mod a b p =
    if ff_is_u32_mod p then mul128 (a % p.n) (b % p.n) % p.n % word else ff_div2_mod1 (mul128 a b) p

-- The cast to the signed word is negative from 2 ^ 63 on.
abbrev pub is_negative : ℕ → Bool
is_negative a = leb 0x8000_0000_0000_0000 a

unfoldable pub ff_add_mod : ℕ → ℕ → FfMod → ℕ
unfolding ff_is_u32_mod
ff_add_mod a b p =
    if ff_is_u32_mod p
    then add128 (a % p.n) (b % p.n) % p.n % word
    else let ret = sub64 (add64 a b) p.n in if is_negative ret then add64 ret p.n else ret

unfoldable pub ff_sub_mod : ℕ → ℕ → FfMod → ℕ
unfolding ff_is_u32_mod
ff_sub_mod a b p =
    if ff_is_u32_mod p
    then (let ar = a % p.n in
        let br = b % p.n in if leb br ar then sub64 ar br else sub64 (add64 ar p.n) br)
    else let ret = sub64 a b in if is_negative ret then add64 ret p.n else ret

-- a + b*c
unfoldable pub ff_apbc_mod : ℕ → ℕ → ℕ → FfMod → ℕ
unfolding ff_is_u32_mod
ff_apbc_mod a b c p =
    if ff_is_u32_mod p
    then (let br = b % p.n in
        let cr = c % p.n in add128 (a % p.n) (mul128 br cr % p.n) % p.n % word)
    else ff_div2_mod1 (add128 (mul128 b c) a) p

unfoldable pub ff_precomputed_mul_shoup : ℕ → FfMod → ℕ
unfolding ff_is_u32_mod
ff_precomputed_mul_shoup w p = if ff_is_u32_mod p then 0 else (ff_div2_by1 (w * word) p).0

unfoldable pub ff_mul_shoup : ℕ → ℕ → ℕ → FfMod → ℕ
unfolding ff_is_u32_mod
ff_mul_shoup t w wp p =
    if ff_is_u32_mod p
    then ff_mul_mod t w p
    else let q = mul128 wp t in
      let r = sub64 (mul64 w t) (mul64 (high q) p.n) in if leb p.n r then sub64 r p.n else r

-- The loop of the extended Euclidean algorithm, over `t`, `newt`, `r` and `newr`; it returns `t`.
-- The 128-bit signed `t` and `newt` are integers, and stay below the modulus in size.
unfoldable pub inverse_loop : ℤ → ℤ → ℕ → (newr : ℕ) → Acc ◌<◌ newr → ℤ
inverse_loop t newt r newr (Acc.intro _ smaller) =
    dite (dec_lt 0 newr)
      (λ h.
        inverse_loop newt (t -ℤ pos (r / newr) *ℤ newt) newr (r - r / newr * newr)
          (smaller (r - r / newr * newr) (remainder-lt r newr h)))
      (λ _. t)

-- `if (t<0) t += p.n;` and the cast to the unsigned word.
unfoldable pub word_of : ℤ → ℕ → ℕ
word_of (pos t) n = t % word
word_of (negsuc t) n = cast (negsuc t +ℤ pos n)

unfoldable pub ff_mul_inverse_mod : ℕ → FfMod → ℕ
ff_mul_inverse_mod z p = word_of (inverse_loop (pos 0) (pos 1) p.n z (lt_wf.apply z)) p.n

unfoldable pub ff_div_mod : ℕ → ℕ → FfMod → ℕ
ff_div_mod num den p = ff_mul_mod num (ff_mul_inverse_mod den p) p

-- The moduli that the library is meant for: one below 2 ^ 32, or one with 2n < 2^64 < 3n.
abbrev pub IsModulus : ℕ → Type 0
IsModulus n = ((0 < n) × (n ≤ 0xffff_ffff)) ⊎ ((2 * n < word) × (word < 3 * n))
