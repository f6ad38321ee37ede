-- ===== src/Rational/Fraction.antt =====
-- The numerator and the denominator that `safe_eval` computes.
use native.Mathlib.Nat.{mod-eq_of_lt, mod-mod, mul_comm, mul_assoc, mul-one}
use finiteflow.Base.{
  ℕ, List, [], ◌∷◌, ◌++◌, ◌+◌, ◌*◌, ◌-◌, ◌%◌, ◌<◌, ◌≡◌, ◌≢◌, inl, inr, ap, sym, ◌∙◌, refl, arith,
  length, subst, All, ◌==◌, Bool-cases, ==→eq,
}
use finiteflow.Base.Div.{congruent, scaled, mod_unique, mul-mod_left_mod, mul-mod_right_mod}
use finiteflow.Ffmod.{IsModulus}
use finiteflow.Ffmod.Inverse.{Coprime}
use finiteflow.Modular.{new_mod, apbc_mod, sub_mod, mul_mod, mul_inv}
use finiteflow.Modular.Laws.{apbc_mod_lem, sub_mod_lem, mul_mod_lem, mul_inv_lem}
use finiteflow.Newton.Rows.{AllBelow, mul_mod-lt, apbc_mod-lt, difference-small}
use finiteflow.Rational.{fraction}

-- No point is `x`.
abbrev pub AreOthers : ℕ → List ℕ → Type 0
AreOthers x xs = All (λ z. z ≢ x) xs

module _ (p : ℕ) (h : IsModulus p) (one_lt : 1 < p)
    (prime : (z : ℕ) → 0 < z → z < p → Coprime z p) where
  pub quotient_unique : (a b d : ℕ) → a < p → b < p → 0 < d → d < p → a * d % p ≡ b * d % p → a ≡ b
  quotient_unique a b d ha hb pos hd e =
      let inv = mul_inv_lem p h d one_lt hd (prime d pos hd) in
      let k = mul_inv d (new_mod p) in
      sym (back a ha)
      ∙ sym (mul-mod_left_mod (a * d) k p)
      ∙ ap (λ t. t * k % p) e
      ∙ mul-mod_left_mod (b * d) k p
      ∙ back b hb
    where
      back : (c : ℕ) → c < p → c * d * mul_inv d (new_mod p) % p ≡ c
      back c hc =
          let inv = mul_inv_lem p h d one_lt hd (prime d pos hd) in
          let k = mul_inv d (new_mod p) in
          ap (λ t. t % p) (mul_assoc c d k)
          ∙ sym (mul-mod_right_mod c (d * k) p)
          ∙ ap (λ t. c * t % p) inv.1
          ∙ ap (λ t. t % p) (mul-one c)
          ∙ mod-eq_of_lt hc

  product_zero : (a d : ℕ) → a < p → 0 < d → d < p → a * d % p ≡ 0 → a ≡ 0
  product_zero a d ha pos hd e =
      quotient_unique a 0 d ha (omega (arith, one_lt)) pos hd
        (e ∙ sym (ap (λ t. t % p) (omega arith) ∙ mod-eq_of_lt (omega (arith, one_lt))))

  module _ (x : ℕ) (small : x < p) where
    difference-pos : (z : ℕ) → z < p → z ≢ x → 0 < sub_mod x z (new_mod p)
    difference-pos z hz other = elim (Bool-cases (sub_mod x z (new_mod p) == 0)) [
      | inr more ↦ ground (arith, more)
      | inl gone ↦ absurd (other (zero_difference (==→eq (sub_mod x z (new_mod p)) 0 gone)))
    ]
      where
        zero_difference : sub_mod x z (new_mod p) ≡ 0 → z ≡ x
        zero_difference e =
            let gone : (x + p - z) % p ≡ 0 = sym (sub_mod_lem p h x z small hz) ∙ e in
            sym (
              sym (mod_unique (x + p - z + z) 1 p x (omega (arith, hz)) small)
              ∙ congruent p (x + p - z) z 0 z (gone ∙ sym (mod-eq_of_lt (omega (arith, one_lt))))
                  refl
              ∙ ap (λ t. t % p) (omega arith)
              ∙ mod-eq_of_lt hz)

    pub fraction-next :
        (c : ℕ) (cs : List ℕ) (a z : ℕ) (xs : List ℕ)
        → fraction (c ∷ (cs ++ a ∷ [])) (z ∷ xs) x (new_mod p) ≡ (
          apbc_mod
              (mul_mod
                (fraction (cs ++ a ∷ []) xs x (new_mod p)).1
                (sub_mod x z (new_mod p))
                (new_mod p))
              c
              (fraction (cs ++ a ∷ []) xs x (new_mod p)).0
              (new_mod p),
          (fraction (cs ++ a ∷ []) xs x (new_mod p)).0,
        )
    unfolding fraction
    fraction-next c [] a z xs = refl
    fraction-next c (d ∷ cs) a z xs = refl

    -- The two numbers of `safe_eval` are not both 0.
    abbrev pub IsFraction : ℕ × ℕ → Type 0
    IsFraction f = (f.0 < p) × (f.1 < p) × (0 < f.0 + f.1)

    pub next-IsFraction :
        (c z : ℕ) (f : ℕ × ℕ)
        → c < p
        → z < p
        → z ≢ x
        → IsFraction f
        → IsFraction
            (apbc_mod (mul_mod f.1 (sub_mod x z (new_mod p)) (new_mod p)) c f.0 (new_mod p), f.0)
          × (apbc_mod (mul_mod f.1 (sub_mod x z (new_mod p)) (new_mod p)) c f.0 (new_mod p) % p
              ≡ (f.1 * sub_mod x z (new_mod p) + c * f.0) % p)
    next-IsFraction c z f hc hz other ok =
        let s = sub_mod x z (new_mod p) in
        let hs : s < p = difference-small p h x small z hz in
        let first = mul_mod_lem p h f.1 s ok.1 hs in
        let first_small = mul_mod-lt p h x small f.1 s ok.1 hs in
        let n = apbc_mod (mul_mod f.1 s (new_mod p)) c f.0 (new_mod p) in
        let hn : n < p =
          apbc_mod-lt p h x small (mul_mod f.1 s (new_mod p)) c f.0 first_small hc ok.0 in
        let value : n % p ≡ (f.1 * s + c * f.0) % p =
          ap (λ t. t % p) (apbc_mod_lem p h (mul_mod f.1 s (new_mod p)) c f.0 first_small hc ok.0)
          ∙ mod-mod (mul_mod f.1 s (new_mod p) + c * f.0) p
          ∙ congruent p (mul_mod f.1 s (new_mod p)) (c * f.0) (f.1 * s) (c * f.0)
              (ap (λ t. t % p) first ∙ mod-mod (f.1 * s) p) refl in
        (
          (
            hn,
            ok.0,
            elim (Bool-cases (n + f.0 == 0)) [
              | inr more ↦ ground (arith, more)
              | inl gone ↦
                  let both : n + f.0 ≡ 0 = ==→eq (n + f.0) 0 gone in
                  let den : f.1 ≡ 0 = product_zero f.1 s ok.1 (difference-pos z hz other) hs (
                    ap (λ t. t % p) (omega (arith, ap (λ (t : ℕ). c * t) (no_second n f.0 both)))
                    ∙ sym value
                    ∙ mod-eq_of_lt hn
                    ∙ no_first n f.0 both) in
                  absurd (omega (arith, both, den, ok.2))
            ],
          ),
          value,
        )
      where
        no_first : (a b : ℕ) → a + b ≡ 0 → a ≡ 0
        no_first a b e = omega (arith, e)

        no_second : (a b : ℕ) → a + b ≡ 0 → b ≡ 0
        no_second a b e = omega (arith, e)

    pub fraction-IsFraction :
        (cs : List ℕ) (a : ℕ) (xs : List ℕ)
        → AllBelow p cs
        → a < p
        → AllBelow p xs
        → AreOthers x xs
        → length xs ≡ length cs
        → IsFraction (fraction (cs ++ a ∷ []) xs x (new_mod p))
    unfolding fraction
    fraction-IsFraction [] a xs hc ha hx others e = (ha, one_lt, omega arith)
    fraction-IsFraction (c ∷ cs) a [] hc ha hx others e = absurd (omega (arith, e))
    fraction-IsFraction (c ∷ cs) a (z ∷ xs) hc ha hx others e =
        subst IsFraction (sym (fraction-next c cs a z xs))
          (next-IsFraction c z (fraction (cs ++ a ∷ []) xs x (new_mod p)) hc.0 hx.0 others.0
            (fraction-IsFraction cs a xs hc.1 ha hx.1 others.1 (omega (arith, e)))).0

-- A step of both loops, where g is the negative of `den`.
pub cross_step :
    (p s c num den g n' d' num' den' n : ℕ)
    → num' % p ≡ den * s % p
    → den' % p ≡ (num + c * g) % p
    → (g + den) % p ≡ 0 % p
    → n % p ≡ (d' * s + c * n') % p
    → n' * den' % p ≡ num' * d' % p
    → n * den % p ≡ num * n' % p
cross_step p s c num den g n' d' num' den' n e_num e_den e_neg e_n cross =
    ap (λ t. t % p) (mul_comm n den)
    ∙ scaled p den n (d' * s + c * n') e_n
    ∙ ap (λ t. t % p) expand_next
    ∙ congruent p (d' * (den * s)) (n' * c * den) (n' * den') (n' * c * den)
        (scaled p d' (den * s) num' (sym e_num) ∙ ap (λ t. t % p) (mul_comm d' num') ∙ sym cross)
        refl
    ∙ congruent p (n' * den') (n' * c * den) (n' * (num + c * g)) (n' * c * den)
        (scaled p n' den' (num + c * g) e_den) refl
    ∙ ap (λ t. t % p) expand_last
    ∙ congruent p (num * n') (n' * c * (g + den)) (num * n') 0 refl
        (scaled p (n' * c) (g + den) 0 e_neg ∙ ap (λ t. t % p) (omega arith))
    ∙ ap (λ t. t % p) (omega arith)
  where
    expand_next : den * (d' * s + c * n') ≡ d' * (den * s) + n' * c * den
    expand_next = omega arith

    expand_last : n' * (num + c * g) + n' * c * den ≡ num * n' + n' * c * (g + den)
    expand_last = omega arith
