-- ===== src/Rational/Agreement.antt =====
-- What the checks of `URatFunReconstruction::reconstruct` have seen when they pass.
use mathlib.Core.Bool.{false≢true}
use finiteflow.Base.{
  ℕ, zero, suc, List, All, ◌+◌, ◌-◌, ◌<◌, ◌≤◌, arith, Bool, true, false, ◌&&◌, ◌||◌, not, Option,
  none, some, ◌==◌, length, if◌then◌else◌, ◌≡◌, ◌≢◌, ap, sym, ◌∙◌, refl, subst, inl, inr,
  Bool-cases, ==→eq, ==→ne,
}
use finiteflow.Modular.{Mod, new_mod, add_mod}
use finiteflow.Modular.Laws.{add_mod_lem}
use finiteflow.Ffmod.{IsModulus}
use finiteflow.Graph.Edit.{Distinct}
use native.Mathlib.Nat.{mod-lt}
use finiteflow.Newton.{sampling_stride, evaluation_failed, next_sample}
use finiteflow.Rational.{ThieleURationalFunction, safe_eval, eval_thiele_system_coeff}
use finiteflow.Rational.Samples.{
  sample_at, sample_at-lt, sample_at-sample_at, one_stride, IsSample, advanced-lt,
  next_sample-IsSample,
}
use finiteflow.Rational.Reconstruct.{
  URatFunReconstruction, Checks, passed, mismatch, no_sample, after_sample, check_loop, Term,
  all_checked, no_term, new_term, again, after_checks, try_term, after_try, find_term,
}

both_true : (a b : Bool) → (a && b) ≡ true → (a ≡ true) × (b ≡ true)
both_true true true e = (refl, refl)
both_true true false e = (refl, e)
both_true false b e = absurd (false≢true e)

false_of_negation : (a : Bool) → not a ≡ true → a ≡ false
false_of_negation true e = sym e
false_of_negation false e = refl

module _ (f : ℕ → ℕ) (m : Mod) (fun : ThieleURationalFunction) where
  -- A point where the rational function has the value of the function, which is evaluated.
  abbrev pub IsAgreement : ℕ → Type 0
  IsAgreement z = (safe_eval fun z m ≡ f z) × (f z ≢ evaluation_failed)

  -- As many different points.
  abbrev pub AgreesAt : ℕ → Type 0
  AgreesAt n = (zs : List ℕ) × (length zs ≡ n) × All IsAgreement zs × Distinct zs

module _ (f : ℕ → ℕ) (p : ℕ) (h : IsModulus p) (one_lt : 1 < p)
    (stride_lt : sampling_stride < p) where
  abbrev m : Mod
  m = new_mod p

  module _ (fun : ThieleURationalFunction) (n_singular : ℕ) where
    -- From the point `x` on, each of `n` points is at most as many strides after the one before as a
    -- search for a sample makes, and is one of agreement.
    abbrev pub Passes : ℕ → ℕ → Type 0
    Passes zero x = Unit {0}
    Passes (suc n) x =
        (k : ℕ) × (k ≤ n_singular)
        × IsAgreement f m fun (sample_at p x (suc k))
        × Passes n (sample_at p x (suc k))

    abbrev WhenPassed : ℕ → ℕ → Checks → Type 0
    WhenPassed n x passed = Passes n x
    WhenPassed n x (mismatch z) = z < p
    WhenPassed n x no_sample = Unit {0}

    after_sample-WhenPassed :
        (n x : ℕ) (r : Option (ℕ × ℕ)) (later : ℕ → Checks)
        → IsSample f p h one_lt stride_lt (sample_at p x 1) n_singular r
        → ((z : ℕ) → z < p → WhenPassed n z (later z))
        → WhenPassed (suc n) x (after_sample fun m r later)
    after_sample-WhenPassed n x none later ok rest = tt
    after_sample-WhenPassed n x (some (z, y)) later (value, good, k, few, there) rest =
        elim (Bool-cases (safe_eval fun z m == y)) [
          | inr other ↦
              subst (λ b. WhenPassed (suc n) x (elim b [ true ↦ later z | false ↦ mismatch z ]))
                (sym other) z_small
          | inl same ↦
              subst (λ b. WhenPassed (suc n) x (elim b [ true ↦ later z | false ↦ mismatch z ]))
                (sym same)
                (extend (later z) (==→eq (safe_eval fun z m) y same ∙ value, good) (rest z z_small))
        ]
      where
        there' : z ≡ sample_at p x (suc k)
        there' = there ∙ sample_at-sample_at p h one_lt x 1 k ∙ ap (sample_at p x) (omega arith)

        z_small : z < p
        z_small = subst (λ t. t < p) (sym there') (sample_at-lt p h one_lt x (suc k))

        extend : (c : Checks) → IsAgreement f m fun z → WhenPassed n z c → WhenPassed (suc n) x c
        extend passed agrees all =
            (k, few, subst (IsAgreement f m fun) there' agrees, subst (Passes n) there' all)
        extend (mismatch z') agrees small = small
        extend no_sample agrees all = tt

    check_loop-WhenPassed : (n x : ℕ) → x < p → WhenPassed n x (check_loop n f fun n_singular x m)
    unfolding check_loop
    check_loop-WhenPassed zero x hx = tt
    check_loop-WhenPassed (suc n) x hx =
        after_sample-WhenPassed n x (next_sample n_singular f (add_mod x sampling_stride m) m)
          (λ z. check_loop n f fun n_singular z m)
          (subst
            (λ z.
              IsSample f p h one_lt stride_lt z n_singular
                (next_sample n_singular f (add_mod x sampling_stride m) m))
            (one_stride p h one_lt stride_lt x hx)
            (next_sample-IsSample f p h one_lt stride_lt n_singular (add_mod x sampling_stride m)
              (advanced-lt f p h one_lt stride_lt x hx)))
          (λ z hz. check_loop-WhenPassed n z hz)

    abbrev pub WhenSuccess : ℕ → Term → Type 0
    WhenSuccess n all_checked = (x : ℕ) × (x < p) × IsAgreement f m fun x × Passes n x
    WhenSuccess n no_term = Unit {0}
    WhenSuccess n (new_term x a) = x < p
    WhenSuccess n (again x) = x < p

    after_checks-WhenSuccess :
        (n x : ℕ) (c : Checks)
        → x < p
        → IsAgreement f m fun x
        → WhenPassed n x c
        → WhenSuccess n (after_checks c)
    after_checks-WhenSuccess n x passed hx agrees all = (x, hx, agrees, all)
    after_checks-WhenSuccess n x (mismatch z) hx agrees small = small
    after_checks-WhenSuccess n x no_sample hx agrees all = tt

    if-WhenSuccess :
        (n : ℕ) (b : Bool) (x a z : ℕ)
        → x < p
        → z < p
        → WhenSuccess n (if b then new_term x a else again z)
    if-WhenSuccess n true x a z hx hz = hx
    if-WhenSuccess n false x a z hx hz = hz

    try_term-WhenSuccess :
        (r : URatFunReconstruction) (i x : ℕ)
        → r.n_singular ≡ n_singular
        → x < p
        → WhenSuccess (r.n_checks - 1) (try_term r f fun i x m)
    unfolding try_term
    try_term-WhenSuccess r i x tries hx = elim (Bool-cases same) [
      | inr other ↦
          subst (λ b. WhenSuccess n (elim b [ true ↦ checked | false ↦ tried ])) (sym other)
            (if-WhenSuccess n (ok && not ((a == evaluation_failed) || (a == 0))) x a x hx hx)
      | inl agrees ↦
          subst (λ b. WhenSuccess n (elim b [ true ↦ checked | false ↦ tried ])) (sym agrees)
            (after_checks-WhenSuccess (r.n_checks - 1) x
              (check_loop (r.n_checks - 1) f fun r.n_singular x m) hx (agreement agrees)
              (subst (λ s. WhenPassed (r.n_checks - 1) x (check_loop (r.n_checks - 1) f fun s x m))
                (sym tries) (check_loop-WhenPassed (r.n_checks - 1) x hx)))
    ]
      where
        n : ℕ
        n = r.n_checks - 1

        ok : Bool
        ok = not (f x == evaluation_failed) && not (safe_eval fun x m == evaluation_failed)

        same : Bool
        same = ok && (safe_eval fun x m == f x)

        a : ℕ
        a = eval_thiele_system_coeff fun x (f x) m i

        checked : Term
        checked = after_checks (check_loop (r.n_checks - 1) f fun r.n_singular x m)

        tried : Term
        tried = if ok && not ((a == evaluation_failed) || (a == 0)) then new_term x a else again x

        agreement : same ≡ true → IsAgreement f m fun x
        agreement e =
            let parts = both_true ok (safe_eval fun x m == f x) e in
            let good =
              both_true (not (f x == evaluation_failed))
                (not (safe_eval fun x m == evaluation_failed)) parts.0 in
            (
              ==→eq (safe_eval fun x m) (f x) parts.1,
              ==→ne (f x) evaluation_failed (false_of_negation (f x == evaluation_failed) good.0),
            )

    after_try-WhenSuccess :
        (n : ℕ) (t : Term) (later : ℕ → Term)
        → WhenSuccess n t
        → ((x : ℕ) → x < p → WhenSuccess n (later x))
        → WhenSuccess n (after_try t later)
    after_try-WhenSuccess n all_checked later ok rest = ok
    after_try-WhenSuccess n no_term later ok rest = tt
    after_try-WhenSuccess n (new_term x a) later ok rest = ok
    after_try-WhenSuccess n (again x) later ok rest = rest x ok

    pub find_term-WhenSuccess :
        (tries : ℕ) (r : URatFunReconstruction) (i x : ℕ)
        → r.n_singular ≡ n_singular
        → x < p
        → WhenSuccess (r.n_checks - 1) (find_term tries r f fun i x m)
    unfolding find_term
    find_term-WhenSuccess zero r i x same hx =
        after_try-WhenSuccess (r.n_checks - 1) (try_term r f fun i x m) (λ x'. no_term)
          (try_term-WhenSuccess r i x same hx) (λ x' hx'. tt)
    find_term-WhenSuccess (suc tries) r i x same hx =
        after_try-WhenSuccess (r.n_checks - 1) (try_term r f fun i x m)
          (λ x'. find_term tries r f fun i (add_mod x' 1 m) m) (try_term-WhenSuccess r i x same hx)
          (λ x' hx'. find_term-WhenSuccess tries r i (add_mod x' 1 m) same (
            subst (λ t. t < p) (sym (add_mod_lem p h x' 1 hx' one_lt))
              (mod-lt (x' + 1) (omega (arith, one_lt)))))
