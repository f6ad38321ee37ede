-- ===== src/Base/Int.antt =====
-- Integers over the native numbers, and the ring laws that fractions need.
use Prim.Native.Nat.{ℕ, zero, suc, ◌+◌, ◌-◌, ◌*◌, ◌/◌, ◌<◌, ◌∣◌}
use mathlib.Core.Path.{◌≡◌, refl, ap}
use mathlib.Core.Logic.{ite}
use native.Mathlib.Nat.{div-mul_cancel, eq_of_mul-eq-mul_right}
use native.Mathlib.Decide.{dec_le, ℕ_discrete}
use native.Mathlib.Omega.{arith}

pub data ℤ : Type 0 where
  pos negsuc : ℕ → ℤ

pub ℤ_set : IsSet ℤ
ℤ_set = hlevel

pub ℤ_discrete : Discrete ℤ
ℤ_discrete = hlevel ℕ_discrete

abbrev pos_part : ℤ → ℕ
pos_part (pos n) = n
pos_part (negsuc n) = 0

abbrev neg_part : ℤ → ℕ
neg_part (pos n) = 0
neg_part (negsuc n) = suc n

abbrev pub nat_abs : ℤ → ℕ
nat_abs (pos n) = n
nat_abs (negsuc n) = suc n

abbrev sub_ℕ : ℕ → ℕ → ℤ
sub_ℕ a b = ite (dec_le b a) (pos (a - b)) (negsuc (b - a - 1))

abbrev pub neg_ℤ : ℤ → ℤ
neg_ℤ (pos zero) = pos zero
neg_ℤ (pos (suc n)) = negsuc n
neg_ℤ (negsuc n) = pos (suc n)

infixl 65 ◌+ℤ◌ ◌-ℤ◌
infixl 70 ◌*ℤ◌
unfoldable pub ◌+ℤ◌ : ℤ → ℤ → ℤ
a +ℤ b = sub_ℕ (pos_part a + pos_part b) (neg_part a + neg_part b)

unfoldable pub ◌-ℤ◌ : ℤ → ℤ → ℤ
a -ℤ b = sub_ℕ (pos_part a + neg_part b) (neg_part a + pos_part b)

unfoldable pub ◌*ℤ◌ : ℤ → ℤ → ℤ
pos m *ℤ pos n = pos (m * n)
pos m *ℤ negsuc n = neg_ℤ (pos (m * suc n))
negsuc m *ℤ pos n = neg_ℤ (pos (suc m * n))
negsuc m *ℤ negsuc n = pos (suc m * suc n)

-- C++ division by a positive number rounds towards zero.
unfoldable pub tdiv : ℤ → ℕ → ℤ
tdiv (pos n) g = pos (n / g)
tdiv (negsuc n) g = neg_ℤ (pos (suc n / g))

ext : (a b : ℤ) → pos_part a + neg_part b ≡ pos_part b + neg_part a → a ≡ b
ext a b h = ground arith

+ℤ_parts :
    (a b : ℤ)
    → pos_part (a +ℤ b) + neg_part a + neg_part b ≡ neg_part (a +ℤ b) + pos_part a + pos_part b
unfolding ◌+ℤ◌
+ℤ_parts a b = ground arith

pos_part-*ℤ : (a b : ℤ) → pos_part (a *ℤ b) ≡ pos_part a * pos_part b + neg_part a * neg_part b
unfolding ◌*ℤ◌
pos_part-*ℤ a b = ground arith

neg_part-*ℤ : (a b : ℤ) → neg_part (a *ℤ b) ≡ pos_part a * neg_part b + neg_part a * pos_part b
unfolding ◌*ℤ◌
neg_part-*ℤ a b = ground arith

ruleset int_laws = (pos_part-*ℤ, neg_part-*ℤ)

pub +ℤ_comm : (a b : ℤ) → a +ℤ b ≡ b +ℤ a
+ℤ_comm a b = ext _ _ (omega (arith, +ℤ_parts))

pub +ℤ_assoc : (a b c : ℤ) → a +ℤ b +ℤ c ≡ a +ℤ (b +ℤ c)
+ℤ_assoc a b c = ext _ _ (omega (arith, +ℤ_parts))

pub *ℤ_assoc : (a b c : ℤ) → a *ℤ b *ℤ c ≡ a *ℤ (b *ℤ c)
*ℤ_assoc a b c = ext _ _ (simp int_laws (omega arith))

pub *ℤ_right_comm : (a b c : ℤ) → a *ℤ b *ℤ c ≡ a *ℤ c *ℤ b
*ℤ_right_comm a b c = ext _ _ (simp int_laws (omega arith))

pub *ℤ_interchange : (a b c d : ℤ) → (a *ℤ b) *ℤ (c *ℤ d) ≡ (a *ℤ c) *ℤ (b *ℤ d)
*ℤ_interchange a b c d = ext _ _ (simp int_laws (omega arith))

pub pos-* : (m n : ℕ) → pos (m * n) ≡ pos m *ℤ pos n
unfolding ◌*ℤ◌
pos-* m n = refl

pub neg_ℤ-*ℤ-negsuc : (a : ℤ) (n : ℕ) → neg_ℤ a *ℤ negsuc n ≡ a *ℤ pos (suc n)
unfolding ◌*ℤ◌
neg_ℤ-*ℤ-negsuc a n = ground arith

pub +ℤ-*ℤ-pos : (a b : ℤ) (n : ℕ) → (a +ℤ b) *ℤ pos n ≡ a *ℤ pos n +ℤ b *ℤ pos n
+ℤ-*ℤ-pos a b n = ext _ _ (
    simp int_laws (
      omega (
        arith,
        simp int_laws at (+ℤ_parts (a *ℤ pos n) (b *ℤ pos n)),
        ap (λ (t : ℕ). t * n) (+ℤ_parts a b),
      )))

pub *ℤ-pos_cancel : (a b : ℤ) (n : ℕ) → 0 < n → a *ℤ pos n ≡ b *ℤ pos n → a ≡ b
*ℤ-pos_cancel a b n h e = ext a b (eq_of_mul-eq-mul_right n h _ _ scaled)
  where
    scaled : (pos_part a + neg_part b) * n ≡ (pos_part b + neg_part a) * n
    scaled = omega (arith, int_laws, ap pos_part e, ap neg_part e)

pub nat_abs-*ℤ : (a b : ℤ) → nat_abs (a *ℤ b) ≡ nat_abs a * nat_abs b
unfolding ◌*ℤ◌
nat_abs-*ℤ a b = ground arith

pub nat_abs-tdiv : (a : ℤ) (g : ℕ) → nat_abs (tdiv a g) ≡ nat_abs a / g
unfolding tdiv
nat_abs-tdiv (pos n) g = refl
nat_abs-tdiv (negsuc n) g = ground arith

pub tdiv-*ℤ_cancel : (a : ℤ) (g : ℕ) → g ∣ nat_abs a → tdiv a g *ℤ pos g ≡ a
unfolding tdiv ◌*ℤ◌
tdiv-*ℤ_cancel (pos n) g h = ap pos (div-mul_cancel g h)
tdiv-*ℤ_cancel (negsuc n) g h = back (suc n / g) (div-mul_cancel g h)
  where
    back : (q : ℕ) → q * g ≡ suc n → neg_ℤ (pos q) *ℤ pos g ≡ negsuc n
    back zero e = absurd (omega arith)
    back (suc q) e = ap (λ k. neg_ℤ (pos k)) e
