-- ===== src/Ffmod/Inverse.antt =====
-- src/ffmod.c: the inverse modulo a number, `ffMulInverseMod`, and the quotient `ffDivMod`.
use mathlib.Core.WellFounded.{Acc}
use mathlib.Core.Logic.{dif_pos, dif_neg}
use native.Mathlib.Nat.{
  dvd-zero, dvd_refl, dvd-add, dvd-mul_left_of_dvd, mul-le-mul_left, mul_comm, mul_assoc, mul-one,
  mod-lt, add-mul-mod_self_right, mod-eq_of_lt, suc-mul, div-mul-le_self,
}
use native.Mathlib.Bridge.{le_prop}
use native.Mathlib.Decide.{dec_lt, dec_le}
use finiteflow.Base.{
  ℕ, suc, Bool, ◌+◌, ◌-◌, ◌*◌, ◌/◌, ◌%◌, ◌≤◌, ◌<◌, ◌∣◌, ◌≡◌, refl, sym, ap, ◌∙◌, arith, true, false,
  not, subst, ◌≢◌, zero,
}
use finiteflow.Base.Order.{lt_wf}
use finiteflow.Base.Int.{ℤ, pos, negsuc, neg_ℤ, ◌+ℤ◌, ◌-ℤ◌, ◌*ℤ◌}
use finiteflow.Base.Div.{mod_unique, mul-mod_left_mod, mul-mod_right_mod}
use finiteflow.Word.{word}
use finiteflow.Ffmod.{
  FfMod, IsModulus, ff_precomputed_reciprocal_mod, inverse_loop, word_of, ff_mul_inverse_mod,
  ff_mul_mod, ff_div_mod, remainder-lt,
}
use finiteflow.Ffmod.Mul.{ff_mul_mod_lem}
use finiteflow.Ffmod.Division.{n-reciprocal}

-- A coefficient of the algorithm: its size, and whether it is negated. The signs alternate.
abbrev signed : Bool → ℕ → ℤ
signed true a = neg_ℤ (pos a)
signed false a = pos a

signed_step :
    (e : Bool) (a b q : ℕ) → signed e a -ℤ pos q *ℤ signed (not e) b ≡ signed e (a + q * b)
unfolding ◌-ℤ◌ ◌*ℤ◌ dec_le
signed_step true a b q = ground arith
signed_step false a b q = ground arith

abbrev pub Coprime : ℕ → ℕ → Type 0
Coprime z n = (d : ℕ) → d ∣ z → d ∣ n → d ≡ 1

module _ (n z : ℕ) where
  -- `±a z` is congruent to `r`, by the multiple k n.
  abbrev pub Solves : Bool → ℕ → ℕ → ℕ → Type 0
  Solves true a r k = a * z + r ≡ k * n
  Solves false a r k = a * z ≡ r + k * n

  record Inv (e : Bool) (a b r newr k k' : ℕ) : Type 0 where
    solves : Solves e a r k
    new_solves : Solves (not e) b newr k'
    sizes : b * r + a * newr ≡ n
    falls : newr < r
    small : a < n
    common : (d : ℕ) → d ∣ r → d ∣ newr → (d ∣ n) × (d ∣ z)

  -- What the loop leaves in `t`.
  abbrev Ends : ℤ → Type 0
  Ends t =
      (e : Bool) × (a : ℕ) × (r : ℕ) × (k : ℕ) × (t ≡ signed e a)
      × Solves e a r k
      × (a < n)
      × (r ∣ n)
      × (r ∣ z)

  step-Solves :
      (e : Bool) (a b r newr k k' q r' : ℕ)
      → Solves e a r k
      → Solves (not e) b newr k'
      → r ≡ q * newr + r'
      → Solves e (a + q * b) r' (k + q * k')
  step-Solves true a b r newr k k' q r' h h' s = omega (arith, ap (λ (x : ℕ). q * x) h')
  step-Solves false a b r newr k k' q r' h h' s = omega (arith, ap (λ (x : ℕ). q * x) h')

  quotient_split : (r newr : ℕ) → r ≡ r / newr * newr + (r - r / newr * newr)
  quotient_split r newr = omega (arith, div-mul-le_self r newr)

  not-not : (e : Bool) → not (not e) ≡ e
  not-not true = refl
  not-not false = refl

  step_small : (a b r newr : ℕ) → 0 < newr → newr < r → b * r + a * newr ≡ n → a < n → b < n
  step_small a b r newr positive falls e small = omega (arith, mul-le-mul_left b two)
    where
      two : 2 ≤ r
      two = omega arith

  step_sizes :
      (a b r newr q r' : ℕ)
      → r ≡ q * newr + r'
      → b * r + a * newr ≡ n
      → (a + q * b) * newr + b * r' ≡ n
  step_sizes a b r newr q r' s e = omega (arith, ap (λ (x : ℕ). b * x) s)

  step-Inv :
      (e : Bool) (a b r newr k k' : ℕ)
      → 0 < newr
      → Inv e a b r newr k k'
      → Inv (not e) b (a + r / newr * b) newr (r - r / newr * newr) k' (k + r / newr * k')
  step-Inv e a b r newr k k' h inv = record {
    solves = inv.new_solves;
    new_solves =
        subst (λ e'. Solves e' (a + r / newr * b) (r - r / newr * newr) (k + r / newr * k'))
          (sym (not-not e))
          (step-Solves e a b r newr k k' (r / newr) (r - r / newr * newr) inv.solves inv.new_solves
            (quotient_split r newr));
    sizes =
        step_sizes a b r newr (r / newr) (r - r / newr * newr) (quotient_split r newr) inv.sizes;
    falls = remainder-lt r newr h;
    small = step_small a b r newr h inv.falls inv.sizes inv.small;
    common = λ d p q. inv.common d (split d p q) p;
  }
    where
      split : (d : ℕ) → d ∣ newr → d ∣ r - r / newr * newr → d ∣ r
      split d p q =
          subst (◌∣◌ d) (sym (quotient_split r newr))
            (dvd-add d (dvd-mul_left_of_dvd d p (r / newr)) q)

  Ends-signed :
      (e : Bool) (a b r newr k k' : ℕ) → ¬ (0 < newr) → Inv e a b r newr k k' → Ends (signed e a)
  Ends-signed e a b r newr k k' done inv = (
    e,
    a,
    r,
    k,
    refl,
    inv.solves,
    inv.small,
    (inv.common r (dvd_refl r) last).0,
    (inv.common r (dvd_refl r) last).1,
  )
    where
      last : r ∣ newr
      last = subst (◌∣◌ r) (omega arith) (dvd-zero r)

  ends :
      (e : Bool) (a b r newr k k' : ℕ) (w : Acc ◌<◌ newr)
      → Inv e a b r newr k k'
      → Ends (inverse_loop (signed e a) (signed (not e) b) r newr w)
  unfolding inverse_loop
  ends true a b r newr k k' (Acc.intro _ smaller) inv = elim (dec_lt 0 newr) [
    | no done ↦ rw (dif_neg (dec_lt 0 newr) done) (Ends-signed true a b r newr k k' done inv)
    | yes h ↦
        rw (dif_pos (dec_lt 0 newr) le_prop h, signed_step true a b (r / newr))
          (ends (not true) b (a + r / newr * b) newr (r - r / newr * newr) k' (k + r / newr * k')
            (smaller (r - r / newr * newr) (remainder-lt r newr h))
            (step-Inv true a b r newr k k' h inv))
  ]
  ends false a b r newr k k' (Acc.intro _ smaller) inv = elim (dec_lt 0 newr) [
    | no done ↦ rw (dif_neg (dec_lt 0 newr) done) (Ends-signed false a b r newr k k' done inv)
    | yes h ↦
        rw (dif_pos (dec_lt 0 newr) le_prop h, signed_step false a b (r / newr))
          (ends (not false) b (a + r / newr * b) newr (r - r / newr * newr) k' (k + r / newr * k')
            (smaller (r - r / newr * newr) (remainder-lt r newr h))
            (step-Inv false a b r newr k k' h inv))
  ]

-- The returned word: the coefficient, reduced into the residues.
abbrev Inverts : ℕ → ℕ → ℕ → Type 0
Inverts n z x = (x < n) × (z * x % n ≡ 1)

product-ne-one : (k n : ℕ) → 1 < n → 1 ≢ k * n
product-ne-one zero n h e = omega (arith, e)
product-ne-one (suc k) n h e = omega (arith, e, suc-mul k n)

negative_residue : (n z a k : ℕ) → 1 < n → a < n → a * z + 1 ≡ k * n → z * (n - a) % n ≡ 1
negative_residue n z a k one_lt small s =
    sym (add-mul-mod_self_right (z * (n - a)) k n)
    ∙ ap (λ x. x % n) balance
    ∙ add-mul-mod_self_right 1 z n
    ∙ mod-eq_of_lt one_lt
  where
    whole : n - a + a ≡ n
    whole = omega arith

    balance : z * (n - a) + k * n ≡ 1 + z * n
    balance = omega (arith, ap (λ (x : ℕ). z * x) whole, s)

word_of-Solves :
    (n z : ℕ) (e : Bool) (a k : ℕ)
    → n < word
    → 1 < n
    → a < n
    → Solves n z e a 1 k
    → Inverts n z (word_of (signed e a) n)
unfolding word_of ◌+ℤ◌ dec_le
word_of-Solves n z true zero k h one_lt small s =
    absurd (product-ne-one k n one_lt (omega (arith, s)))
word_of-Solves n z true (suc a) k h one_lt small s =
    subst (Inverts n z) residue (omega arith, negative_residue n z (suc a) k one_lt small s)
  where
    residue : n - suc a ≡ word_of (negsuc a) n
    residue = ground arith
word_of-Solves n z false a k h one_lt small s =
    subst (Inverts n z) (sym (mod-eq_of_lt a_lt))
      (small, mod_unique (z * a) k n 1 (omega (arith, s)) one_lt)
  where
    a_lt : a < word
    a_lt = omega arith

inverse_equation :
    (z : ℕ) (p : FfMod)
    → ff_mul_inverse_mod z p ≡ word_of (inverse_loop (pos 0) (pos 1) p.n z (lt_wf.apply z)) p.n
unfolding ff_mul_inverse_mod
inverse_equation z p = refl

module _ (n z : ℕ) (one_lt : 1 < n) (n_lt : n < word) (z_lt : z < n) (coprime : Coprime z n) where
  inverse_result : (t : ℤ) → Ends n z t → Inverts n z (word_of t n)
  inverse_result t (e, a, r, k, t_eq, s, small, dn, dz) = rw t_eq (
      word_of-Solves n z e a k n_lt one_lt small
        (subst (λ x. Solves n z e a x k) (coprime r dz dn) s))

  start : Inv n z true 0 1 n z 1 0
  start = record {
    solves = omega arith;
    new_solves = omega arith;
    sizes = omega arith;
    falls = z_lt;
    small = omega arith;
    common = λ d p q. (p, q);
  }

  -- For 1 < n < 2^64 and z < n coprime to `n`, `ffMulInverseMod` returns a residue `x` with z x
  -- = 1 mod n.
  pub ff_mul_inverse_mod_lem :
      (ff_mul_inverse_mod z (ff_precomputed_reciprocal_mod n) < n)
      × (z * ff_mul_inverse_mod z (ff_precomputed_reciprocal_mod n) % n ≡ 1)
  ff_mul_inverse_mod_lem =
      subst (Inverts n z) (sym (inverse_equation z (ff_precomputed_reciprocal_mod n))) (
        subst (λ m. Inverts n z (word_of (inverse_loop (pos 0) (pos 1) m z (lt_wf.apply z)) m))
          (sym (n-reciprocal n))
          (inverse_result _ (ends n z true 0 1 n z 1 0 (lt_wf.apply z) start)))

  -- For a modulus 1 < n < 2^64 of either path, z < n coprime to `n` and a residue `num`,
  -- `ffDivMod` returns a residue whose product with `z` is `num` mod n.
  pub ff_div_mod_lem :
      (num : ℕ)
      → IsModulus n
      → num < n
      → (ff_div_mod num z (ff_precomputed_reciprocal_mod n) < n)
        × (ff_div_mod num z (ff_precomputed_reciprocal_mod n) * z % n ≡ num)
  unfolding ff_div_mod
  ff_div_mod_lem num h num_lt = (
    rw product (mod-lt (num * inverse) (omega (arith, one_lt))),
    rw
        (
          product,
          mul-mod_left_mod (num * inverse) z n,
          mul_assoc num inverse z,
          ← mul-mod_right_mod num (inverse * z) n,
          mul_comm inverse z,
          ff_mul_inverse_mod_lem.1,
          mul-one,
        )
        (mod-eq_of_lt num_lt),
  )
    where
      inverse : ℕ
      inverse = ff_mul_inverse_mod z (ff_precomputed_reciprocal_mod n)

      product : ff_mul_mod num inverse (ff_precomputed_reciprocal_mod n) ≡ num * inverse % n
      product = ff_mul_mod_lem n num inverse h num_lt (omega (arith, ff_mul_inverse_mod_lem.0))
