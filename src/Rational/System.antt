-- ===== src/Rational/System.antt =====
-- The equations of a Thiele system, and a quotient that solves the last one.
use native.Mathlib.Nat.{mod-eq_of_lt, mod-lt, mod-mod}
use finiteflow.Base.{
  ℕ, List, [], ◌∷◌, ◌++◌, ◌+◌, ◌*◌, ◌-◌, ◌%◌, ◌<◌, ◌≡◌, inl, inr, ap, sym, ◌∙◌, refl, arith, length,
  subst, Option, none, some, ◌==◌, if◌then◌else◌, Bool-cases, ==→eq,
}
use finiteflow.Base.Div.{congruent, mod_unique}
use finiteflow.Ffmod.{IsModulus}
use finiteflow.Ffmod.Inverse.{Coprime}
use finiteflow.Modular.{new_mod, apbc_mod, sub_mod, neg_mod, mul_mod, mul_inv, div_mod}
use finiteflow.Modular.Laws.{apbc_mod_lem, neg_mod_lem, mul_mod_lem, mul_inv_lem, div_mod_lem}
use finiteflow.Newton.{evaluation_failed}
use finiteflow.Newton.Rows.{AllBelow, mul_mod-lt, apbc_mod-lt, difference-small}
use finiteflow.Rational.{fraction, system_loop}
use finiteflow.Rational.Fraction.{
  AreOthers, quotient_unique, fraction-next, IsFraction, next-IsFraction, fraction-IsFraction,
  cross_step,
}

module _ (p : ℕ) (h : IsModulus p) (one_lt : 1 < p) (prime : (z : ℕ) → 0 < z → z < p → Coprime z p)
    (x : ℕ) (small : x < p) where
  -- A coefficient that solves the last equation of the system solves the one of `num` and `den`.
  abbrev pub IsSystem : List ℕ → List ℕ → ℕ → ℕ → Option (ℕ × ℕ) → Type 0
  IsSystem cs xs num den none = Unit {0}
  IsSystem cs xs num den (some r) =
      (r.0 < p)
      × (r.1 < p)
      × ((a : ℕ)
          → a < p
          → a * r.1 % p ≡ r.0 % p
          → (fraction (cs ++ a ∷ []) xs x (new_mod p)).0 * den % p
            ≡ num * (fraction (cs ++ a ∷ []) xs x (new_mod p)).1 % p)

  neg_sum : (d : ℕ) → d < p → (neg_mod d (new_mod p) + d) % p ≡ 0 % p
  neg_sum d hd =
      congruent p (neg_mod d (new_mod p)) d (p - d) d
        (ap (λ t. t % p) (neg_mod_lem p h d hd) ∙ mod-mod (p - d) p) refl
      ∙ mod_unique (p - d + d) 1 p 0 (omega (arith, hd)) (omega (arith, one_lt))
      ∙ sym (mod-eq_of_lt (omega (arith, one_lt)))

  IsSystem-next :
      (c z : ℕ) (cs xs : List ℕ) (num den : ℕ) (r : Option (ℕ × ℕ))
      → AllBelow p (c ∷ cs)
      → AllBelow p (z ∷ xs)
      → AreOthers x (z ∷ xs)
      → length xs ≡ length cs
      → num < p
      → den < p
      → IsSystem cs xs
          (mul_mod den (sub_mod x z (new_mod p)) (new_mod p))
          (apbc_mod num c (neg_mod den (new_mod p)) (new_mod p))
          r
      → IsSystem (c ∷ cs) (z ∷ xs) num den r
  IsSystem-next c z cs xs num den none hc hx others e hn hd later = tt
  IsSystem-next c z cs xs num den (some r) hc hx others e hn hd later = (
    later.0,
    later.1,
    λ a ha solved.
        let f = fraction (cs ++ a ∷ []) xs x (new_mod p) in
        let s = sub_mod x z (new_mod p) in
        let hs : s < p = difference-small p h x small z hx.0 in
        let g = neg_mod den (new_mod p) in
        let hg : g < p =
          subst (λ t. t < p) (sym (neg_mod_lem p h den hd))
            (mod-lt (p - den) (omega (arith, one_lt))) in
        let next =
          next-IsFraction p h one_lt prime x small c z f hc.0 hx.0 others.0
            (fraction-IsFraction p h one_lt prime x small cs a xs hc.1 ha hx.1 others.1 e) in
        subst (λ t. t.0 * den % p ≡ num * t.1 % p)
          (sym (fraction-next p h one_lt prime x small c cs a z xs))
          (cross_step p s c num den g f.0 f.1 (mul_mod den s (new_mod p))
            (apbc_mod num c g (new_mod p)) (apbc_mod (mul_mod f.1 s (new_mod p)) c f.0 (new_mod p))
            (ap (λ t. t % p) (mul_mod_lem p h den s hd hs) ∙ mod-mod (den * s) p)
            (ap (λ t. t % p) (apbc_mod_lem p h num c g hn hc.0 hg) ∙ mod-mod (num + c * g) p)
            (neg_sum den hd) next.1 (later.2 a ha solved)),
  )

  pub system_loop-IsSystem :
      (cs xs : List ℕ) (num den : ℕ)
      → AllBelow p cs
      → AllBelow p xs
      → AreOthers x xs
      → length xs ≡ length cs
      → num < p
      → den < p
      → IsSystem cs xs num den (system_loop (length cs) cs xs x (new_mod p) num den)
  unfolding system_loop fraction
  system_loop-IsSystem [] xs num den hc hx others e hn hd =
      (hn, hd, λ a ha solved. solved ∙ ap (λ t. t % p) (omega arith))
  system_loop-IsSystem (c ∷ cs) [] num den hc hx others e hn hd = absurd (omega (arith, e))
  system_loop-IsSystem (c ∷ cs) (z ∷ xs) num den hc hx others e hn hd =
      let s = sub_mod x z (new_mod p) in
      let g = neg_mod den (new_mod p) in
      let hg : g < p =
        subst (λ t. t < p) (sym (neg_mod_lem p h den hd))
          (mod-lt (p - den) (omega (arith, one_lt))) in
      let num' = apbc_mod num c g (new_mod p) in
      let rest = system_loop (length cs) cs xs x (new_mod p) (mul_mod den s (new_mod p)) num' in
      let later = IsSystem-next c z cs xs num den rest hc hx others (omega (arith, e)) hn hd (
        system_loop-IsSystem cs xs (mul_mod den s (new_mod p)) num' hc.1 hx.1 others.1
          (omega (arith, e)) (mul_mod-lt p h x small den s hd (difference-small p h x small z hx.0))
          (apbc_mod-lt p h x small num c g hn hc.0 hg)) in
      elim (Bool-cases (num' == 0)) [
        | inl gone ↦
            subst (λ b. IsSystem (c ∷ cs) (z ∷ xs) num den (if b then none else rest)) (sym gone) tt
        | inr there ↦
            subst (λ b. IsSystem (c ∷ cs) (z ∷ xs) num den (if b then none else rest)) (sym there)
              later
      ]

  pub div_mod-lt : (n d : ℕ) → n < p → d < p → 0 < d → div_mod n d (new_mod p) < p
  unfolding div_mod
  div_mod-lt n d hn hd more =
      mul_mod-lt p h x small n (mul_inv d (new_mod p)) hn
        (mul_inv_lem p h d one_lt hd (prime d more hd)).0

  -- The quotient of a fraction with the value `y` is `y`.
  pub safe_quotient :
      (f : ℕ × ℕ) (y : ℕ)
      → IsFraction p h one_lt prime x small f
      → y < p
      → f.0 % p ≡ y * f.1 % p
      → (if f.1 == 0 then evaluation_failed else div_mod f.0 f.1 (new_mod p)) ≡ y
  safe_quotient f y ok hy cross = elim (Bool-cases (f.1 == 0)) [
    | inl gone ↦
        let den : f.1 ≡ 0 = ==→eq f.1 0 gone in
        let num : f.0 ≡ 0 =
          sym (mod-eq_of_lt ok.0)
          ∙ cross
          ∙ ap (λ t. y * t % p) den
          ∙ ap (λ t. t % p) (omega arith)
          ∙ mod-eq_of_lt (omega (arith, one_lt)) in
        absurd (omega (arith, den, num, ok.2))
    | inr there ↦
        let more : 0 < f.1 = ground (arith, there) in
        subst (λ b. (if b then evaluation_failed else div_mod f.0 f.1 (new_mod p)) ≡ y) (sym there)
          (quotient_unique p h one_lt prime (div_mod f.0 f.1 (new_mod p)) y f.1
            (div_mod-lt f.0 f.1 ok.0 ok.1 more) hy more ok.1
            (div_mod_lem p h f.0 f.1 one_lt ok.0 ok.1 (prime f.1 more ok.1)
              ∙ sym (mod-eq_of_lt ok.0)
              ∙ cross))
  ]
