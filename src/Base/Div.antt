-- ===== src/Base/Div.antt =====
-- Laws of division with remainder that the libraries lack.
use native.Mathlib.Nat.{add-mul-mod_self_right, mod-eq_of_lt, div-add-mod, mul_comm, add-mod}
use finiteflow.Base.{ℕ, ◌+◌, ◌*◌, ◌/◌, ◌%◌, ◌<◌, ◌≡◌, sym, ap, ap₂, ◌∙◌, arith}

-- The remainder is determined by a quotient.
pub mod_unique : (z m n r : ℕ) → z ≡ r + m * n → r < n → z % n ≡ r
mod_unique z m n r e h = rw e (add-mul-mod_self_right r m n ∙ mod-eq_of_lt h)

pub div_unique : (z m n r : ℕ) → z ≡ r + m * n → r < n → z / n ≡ m
div_unique z m n r e h = grind arith

pub mul-mod_left_mod : (a b n : ℕ) → (a % n) * b % n ≡ a * b % n
mul-mod_left_mod a b n = sym (rw split (add-mul-mod_self_right (a % n * b) (a / n * b) n))
  where
    split : a * b ≡ a % n * b + a / n * b * n
    split = omega (arith, ap (λ (t : ℕ). t * b) (div-add-mod a n))

pub mul-mod_right_mod : (a b n : ℕ) → a * (b % n) % n ≡ a * b % n
mul-mod_right_mod a b n = rw (mul_comm a (b % n), mul_comm a b) (mul-mod_left_mod b a n)

pub mul-mod : (a b n : ℕ) → (a % n) * (b % n) % n ≡ a * b % n
mul-mod a b n = mul-mod_left_mod a (b % n) n ∙ mul-mod_right_mod a b n

pub congruent : (p a b a' b' : ℕ) → a % p ≡ a' % p → b % p ≡ b' % p → (a + b) % p ≡ (a' + b') % p
congruent p a b a' b' e e' = add-mod a b p ∙ ap₂ (λ s t. (s + t) % p) e e' ∙ sym (add-mod a' b' p)

pub scaled : (p k a a' : ℕ) → a % p ≡ a' % p → k * a % p ≡ k * a' % p
scaled p k a a' e = sym (mul-mod_right_mod k a p) ∙ ap (λ t. k * t % p) e ∙ mul-mod_right_mod k a' p
