-- ===== src/Rational/Thiele.antt =====
-- Thiele interpolation: a point that is added fits.
use native.Mathlib.Nat.{mod-eq_of_lt, mod-mod, mul_comm}
use finiteflow.Base.{
  ℕ, suc, List, [], ◌∷◌, ◌++◌, ◌+◌, ◌*◌, ◌-◌, ◌%◌, ◌<◌, ◌≡◌, ◌≢◌, inl, inr, ap, sym, ◌∙◌, refl,
  arith, length, subst, Option, none, some, ◌==◌, if◌then◌else◌, Bool-cases,
}
use finiteflow.Base.Div.{congruent, scaled, mod_unique}
use finiteflow.Ffmod.{IsModulus}
use finiteflow.Ffmod.Inverse.{Coprime}
use finiteflow.Modular.{new_mod, apbc_mod, sub_mod, mul_mod, div_mod}
use finiteflow.Modular.Laws.{sub_mod_lem, div_mod_lem}
use finiteflow.Newton.{evaluation_failed}
use finiteflow.Newton.Rows.{AllBelow, difference-small}
use finiteflow.Rational.{
  ThieleURationalFunction, push_back, fraction, safe_eval, system_loop, quotient_or_failed,
  eval_thiele_system_coeff,
}
use finiteflow.Rational.Fraction.{AreOthers, fraction-next, next-IsFraction, fraction-IsFraction}
use finiteflow.Rational.System.{IsSystem, system_loop-IsSystem, div_mod-lt, safe_quotient}

module _ (p : ℕ) (h : IsModulus p) (one_lt : 1 < p) (prime : (z : ℕ) → 0 < z → z < p → Coprime z p)
    (x : ℕ) (small : x < p) where
  fraction-extra :
      (cs : List ℕ) (a : ℕ) (xs ys : List ℕ)
      → length xs ≡ length cs
      → fraction (cs ++ a ∷ []) (xs ++ ys) x (new_mod p) ≡ fraction (cs ++ a ∷ []) xs x (new_mod p)
  unfolding fraction
  fraction-extra [] a xs ys e = refl
  fraction-extra (c ∷ cs) a [] ys e = absurd (omega (arith, e))
  fraction-extra (c ∷ cs) a (z ∷ xs) ys e =
      fraction-next p h one_lt prime x small c cs a z (xs ++ ys)
      ∙ ap
          (λ (f : ℕ × ℕ).
            (apbc_mod (mul_mod f.1 (sub_mod x z (new_mod p)) (new_mod p)) c f.0 (new_mod p), f.0))
          (fraction-extra cs a xs ys (omega (arith, e)))
      ∙ sym (fraction-next p h one_lt prime x small c cs a z xs)

  module _ (y : ℕ) (hy : y < p) (a0 z : ℕ) (cs xs : List ℕ) (hc : AllBelow p (a0 ∷ cs))
      (hx : AllBelow p (z ∷ xs)) (others : AreOthers x (z ∷ xs)) (e : length xs ≡ length cs) where
    extended-safe_eval :
        (a : ℕ)
        → a < p
        → (fraction (cs ++ a ∷ []) xs x (new_mod p)).0 * sub_mod y a0 (new_mod p) % p
          ≡ sub_mod x z (new_mod p) * (fraction (cs ++ a ∷ []) xs x (new_mod p)).1 % p
        → safe_eval (push_back (record { ai_ = a0 ∷ cs; xi_ = z ∷ xs }) x a) x (new_mod p) ≡ y
    unfolding safe_eval push_back
    extended-safe_eval a ha cross =
        let f = fraction (cs ++ a ∷ []) xs x (new_mod p) in
        let s = sub_mod x z (new_mod p) in
        let d = sub_mod y a0 (new_mod p) in
        let n = apbc_mod (mul_mod f.1 s (new_mod p)) a0 f.0 (new_mod p) in
        let next =
          next-IsFraction p h one_lt prime x small a0 z f hc.0 hx.0 others.0
            (fraction-IsFraction p h one_lt prime x small cs a xs hc.1 ha hx.1 others.1 e) in
        let back : (d + a0) % p ≡ y % p =
          congruent p d a0 (y + p - a0) a0
            (ap (λ t. t % p) (sub_mod_lem p h y a0 hy hc.0) ∙ mod-mod (y + p - a0) p) refl
          ∙ mod_unique (y + p - a0 + a0) 1 p y (omega (arith, hc.0)) hy
          ∙ sym (mod-eq_of_lt hy) in
        let value : n % p ≡ y * f.0 % p =
          next.1
          ∙ congruent p (f.1 * s) (a0 * f.0) (f.0 * d) (a0 * f.0)
              (ap (λ t. t % p) (mul_comm f.1 s) ∙ sym cross) refl
          ∙ ap (λ t. t % p) (omega arith)
          ∙ scaled p f.0 (d + a0) y back
          ∙ ap (λ t. t % p) (mul_comm f.0 y) in
        subst (λ r. (if r.1 == 0 then evaluation_failed else div_mod r.0 r.1 (new_mod p)) ≡ y)
          (sym (
            fraction-extra (a0 ∷ cs) a (z ∷ xs) (x ∷ []) (omega (arith, e))
            ∙ fraction-next p h one_lt prime x small a0 cs a z xs))
          (safe_quotient p h one_lt prime x small (n, f.0) y next.0 hy value)

    quotient-safe_eval :
        (r : Option (ℕ × ℕ))
        → IsSystem p h one_lt prime x small cs xs
            (sub_mod x z (new_mod p))
            (sub_mod y a0 (new_mod p))
            r
        → quotient_or_failed r (new_mod p) ≢ evaluation_failed
        → (quotient_or_failed r (new_mod p) < p)
          × (safe_eval
                (push_back
                  (record { ai_ = a0 ∷ cs; xi_ = z ∷ xs })
                  x
                  (quotient_or_failed r (new_mod p)))
                x
                (new_mod p)
              ≡ y)
    quotient-safe_eval none solved ok = absurd (ok refl)
    quotient-safe_eval (some r) solved ok = elim (Bool-cases (r.1 == 0)) [
      | inl gone ↦
          absurd (ok (ap (λ b. if b then evaluation_failed else div_mod r.0 r.1 (new_mod p)) gone))
      | inr there ↦
          let more : 0 < r.1 = ground (arith, there) in
          let quotient =
            div_mod_lem p h r.0 r.1 one_lt solved.0 solved.1 (prime r.1 more solved.1) in
          let below = div_mod-lt p h one_lt prime x small r.0 r.1 solved.0 solved.1 more in
          subst
            (λ b.
              ((if b then evaluation_failed else div_mod r.0 r.1 (new_mod p)) < p)
              × (safe_eval
                    (push_back (record { ai_ = a0 ∷ cs; xi_ = z ∷ xs }) x
                      (if b then evaluation_failed else div_mod r.0 r.1 (new_mod p)))
                    x (new_mod p)
                  ≡ y))
            (sym there)
            (
              below,
              extended-safe_eval (div_mod r.0 r.1 (new_mod p)) below (
                  solved.2 (div_mod r.0 r.1 (new_mod p)) below
                    (quotient ∙ sym (mod-eq_of_lt solved.0))),
            )
    ]

pub system_coeff-loop :
    (p x y c z : ℕ) (cs xs : List ℕ)
    → eval_thiele_system_coeff
        (record { ai_ = c ∷ cs; xi_ = z ∷ xs })
        x
        y
        (new_mod p)
        (suc (length cs))
      ≡ quotient_or_failed
          (system_loop
            (length cs)
            cs
            xs
            x
            (new_mod p)
            (sub_mod x z (new_mod p))
            (sub_mod y c (new_mod p)))
          (new_mod p)
unfolding eval_thiele_system_coeff
system_coeff-loop p x y c z cs xs =
    let index : suc (length cs) - 1 ≡ length cs = omega arith in
    ground (arith, index)
    ∙ ap
        (λ k.
          quotient_or_failed
            (system_loop k cs xs x (new_mod p) (sub_mod x z (new_mod p)) (sub_mod y c (new_mod p)))
            (new_mod p))
        index

-- For a prime modulus p (each residue but 0 is coprime to it) in the range of the word-sized ones, a
-- continued fraction with as many points as coefficients and at least one, all residues, a residue x that
-- is none of its points and a residue y: if `eval_thiele_system_coeff` does not fail, it gives a residue,
-- and with x and this coefficient appended `safe_eval` has the value y at x.
pub thiele_coeff_lem :
    (p : ℕ)
    → IsModulus p
    → 1 < p
    → ((z : ℕ) → 0 < z → z < p → Coprime z p)
    → (f : ThieleURationalFunction) (x y : ℕ) → x < p
    → y < p
    → AllBelow p f.ai_
    → AllBelow p f.xi_
    → AreOthers x f.xi_
    → length f.xi_ ≡ length f.ai_
    → 0 < length f.ai_
    → eval_thiele_system_coeff f x y (new_mod p) (length f.ai_) ≢ evaluation_failed
    → (eval_thiele_system_coeff f x y (new_mod p) (length f.ai_) < p)
      × (safe_eval
            (push_back f x (eval_thiele_system_coeff f x y (new_mod p) (length f.ai_)))
            x
            (new_mod p)
          ≡ y)
thiele_coeff_lem p h one_lt prime f x y small hy hc hx others e some_term ok =
    go f.ai_ f.xi_ hc hx others e some_term ok
  where
    go :
        (cs xs : List ℕ)
        → AllBelow p cs
        → AllBelow p xs
        → AreOthers x xs
        → length xs ≡ length cs
        → 0 < length cs
        → eval_thiele_system_coeff (record { ai_ = cs; xi_ = xs }) x y (new_mod p) (length cs)
          ≢ evaluation_failed
        → (eval_thiele_system_coeff (record { ai_ = cs; xi_ = xs }) x y (new_mod p) (length cs) < p)
          × (safe_eval
                (push_back
                  (record { ai_ = cs; xi_ = xs })
                  x
                  (eval_thiele_system_coeff
                    (record { ai_ = cs; xi_ = xs })
                    x
                    y
                    (new_mod p)
                    (length cs)))
                x
                (new_mod p)
              ≡ y)
    go [] xs hc hx others e some_term ok = absurd (omega (arith, some_term))
    go (c ∷ cs) [] hc hx others e some_term ok = absurd (omega (arith, e))
    go (c ∷ cs) (z ∷ xs) hc hx others e some_term ok =
        let loop =
          system_loop (length cs) cs xs x (new_mod p) (sub_mod x z (new_mod p))
            (sub_mod y c (new_mod p)) in
        let same = system_coeff-loop p x y c z cs xs in
        subst
          (λ t.
            (t < p)
            × (safe_eval (push_back (record { ai_ = c ∷ cs; xi_ = z ∷ xs }) x t) x (new_mod p) ≡ y))
          (sym same)
          (quotient-safe_eval p h one_lt prime x small y hy c z cs xs hc hx others
            (omega (arith, e)) loop
            (system_loop-IsSystem p h one_lt prime x small cs xs (sub_mod x z (new_mod p))
              (sub_mod y c (new_mod p)) hc.1 hx.1 others.1 (omega (arith, e))
              (difference-small p h x small z hx.0) (difference-small p h y hy c hc.0))
            (λ failed. ok (same ∙ failed)))
