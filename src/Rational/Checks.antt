-- ===== src/Rational/Checks.antt =====
-- A rational function is accepted only when it has the values of the function at all check points.
use mathlib.Core.Bool.{false≢true}
use finiteflow.Base.{
  ℕ, zero, suc, List, [], ◌∷◌, ◌++◌, All, ◌+◌, ◌-◌, ◌*◌, ◌<◌, ◌≤◌, arith, set, Bool, true, false,
  leb, ◌==◌, get_or, length, if◌then◌else◌, ◌≡◌, ◌≢◌, ap, sym, ◌∙◌, refl, subst, inl, inr,
  Bool-cases,
}
use finiteflow.Modular.{Mod, new_mod, add_mod}
use finiteflow.Ffmod.{IsModulus}
use finiteflow.Ffmod.Inverse.{Coprime}
use finiteflow.Newton.Rows.{AllBelow}
use finiteflow.SparsePoly.Sums.{get_or-AllBelow}
use finiteflow.Graph.Edit.{Distinct}
use finiteflow.Newton.{sampling_stride}
use finiteflow.Rational.{ThieleURationalFunction, push_back}
use finiteflow.Rational.Samples.{
  sample_at, sample_at-lt, sample_at-sample_at, no_return, advanced-lt,
}
use finiteflow.Rational.Agreement.{
  IsAgreement, AgreesAt, Passes, WhenSuccess, find_term-WhenSuccess,
}
use finiteflow.Rational.Reconstruct.{
  URatFunReconstruction, remove_high_zeroes, Term, all_checked, no_term, new_term, again, find_term,
  put_term, after_term, reconstruct_terms, reconstruct,
}

All-mono : {P Q : ℕ → Type 0} → ((z : ℕ) → P z → Q z) → (zs : List ℕ) → All P zs → All Q zs
All-mono step [] all = tt
All-mono step (z ∷ zs) all = (step z all.0, All-mono step zs all.1)

AllBelow-append_one : (p z : ℕ) (zs : List ℕ) → AllBelow p zs → z < p → AllBelow p (zs ++ z ∷ [])
AllBelow-append_one p z [] all small = (small, tt)
AllBelow-append_one p z (y ∷ ys) all small = (all.0, AllBelow-append_one p z ys all.1 small)

AllBelow-set_one : (p i z : ℕ) (zs : List ℕ) → AllBelow p zs → z < p → AllBelow p (set zs i z)
AllBelow-set_one p i z [] all small = tt
AllBelow-set_one p zero z (y ∷ ys) all small = (small, all.1)
AllBelow-set_one p (suc i) z (y ∷ ys) all small = (all.0, AllBelow-set_one p i z ys all.1 small)

put_term-AllBelow :
    {p : ℕ} (fun : ThieleURationalFunction) (i x a : ℕ)
    → AllBelow p fun.xi_
    → x < p
    → AllBelow p (put_term fun i x a).xi_
unfolding push_back
put_term-AllBelow {p} fun i x a all small = elim (Bool-cases (leb (length fun.ai_) i)) [
  | inl at_end ↦
      subst (λ b. AllBelow p (if b then push_back fun x a else overwritten).xi_) (sym at_end)
        (AllBelow-append_one p x fun.xi_ all small)
  | inr inside ↦
      subst (λ b. AllBelow p (if b then push_back fun x a else overwritten).xi_) (sym inside)
        (AllBelow-set_one p i x fun.xi_ all small)
]
  where
    overwritten : ThieleURationalFunction
    overwritten = record { ai_ = set fun.ai_ i a; xi_ = set fun.xi_ i x }

module _ (f : ℕ → ℕ) (p : ℕ) (h : IsModulus p) (one_lt : 1 < p) (stride_lt : sampling_stride < p)
    (coprime : Coprime sampling_stride p) where
  abbrev m : Mod
  m = new_mod p

  -- The points are different, since they are less than `p` strides apart.
  module _ (fun : ThieleURationalFunction) (n_singular : ℕ) where
    abbrev IsWithin : ℕ → ℕ → ℕ → Type 0
    IsWithin x d z = (k : ℕ) × (0 < k) × (k ≤ d) × (z ≡ sample_at p x k)

    Passes-Distinct :
        (n x : ℕ)
        → x < p
        → n * suc n_singular < p
        → Passes f p h one_lt stride_lt fun n_singular n x
        → (zs : List ℕ) × (length zs ≡ n)
          × All (IsAgreement f m fun) zs
          × Distinct (x ∷ zs)
          × All (IsWithin x (n * suc n_singular)) zs
    Passes-Distinct zero x hx small all = ([], refl, tt, (tt, tt), tt)
    Passes-Distinct (suc n) x hx small (k, few, agrees, all) =
        let (zs, len, agreements, distinct, within) =
          Passes-Distinct n (sample_at p x (suc k)) (sample_at-lt p h one_lt x (suc k))
            (omega (arith, small)) all in
        let first : IsWithin x (suc n * suc n_singular) (sample_at p x (suc k)) =
          (suc k, omega arith, omega (arith, few), refl) in
        let farther =
          All-mono {Q = IsWithin x (suc n * suc n_singular)}
            (λ z (w : IsWithin (sample_at p x (suc k)) (n * suc n_singular) z). (
              suc k + w.0,
              omega arith,
              omega (arith, few, w.2),
              w.3 ∙ sample_at-sample_at p h one_lt x (suc k) w.0,
            ))
            zs within in
        (
          sample_at p x (suc k) ∷ zs,
          ap (λ t. suc t) len,
          (agrees, agreements),
          (
            All-mono {Q = λ z. x ≢ z}
                (λ z (w : IsWithin x (suc n * suc n_singular) z) same.
                  no_return p h one_lt stride_lt coprime x w.0 hx w.1 (omega (arith, small, w.2))
                    (same ∙ w.3))
                (sample_at p x (suc k) ∷ zs) (first, farther),
            distinct,
          ),
          (first, farther),
        )

    WhenSuccess-AgreesAt :
        (n : ℕ)
        → n * suc n_singular < p
        → WhenSuccess f p h one_lt stride_lt fun n_singular n all_checked
        → AgreesAt f m fun (suc n)
    WhenSuccess-AgreesAt n small (x, hx, agrees, all) =
        let (zs, len, agreements, distinct, within) = Passes-Distinct n x hx small all in
        (x ∷ zs, ap (λ t. suc t) len, (agrees, agreements), distinct)

  -- What an accepted function is: one that agrees with `f` at `n` points, without its zeroes at the end.
  module _ (r : URatFunReconstruction) (small : r.n_checks * suc r.n_singular < p) where
    abbrev IsAccepted : Bool × ThieleURationalFunction → Type 0
    IsAccepted (true, g) =
        (fun : ThieleURationalFunction) × (g ≡ remove_high_zeroes fun)
        × AgreesAt f m fun (suc (r.n_checks - 1))
    IsAccepted (false, g) = Unit {0}

    few_checks : (n : ℕ) → n ≡ r.n_checks → (n - 1) * suc r.n_singular < p
    few_checks zero e = omega (arith, one_lt)
    few_checks (suc n) e =
        subst (λ t. t * suc r.n_singular < p) {x = n} (omega arith)
          (omega (arith, small, ap (λ t. t * suc r.n_singular) e))

    after_term-IsAccepted :
        (fun : ThieleURationalFunction) (i : ℕ) (t : Term)
        (later : ThieleURationalFunction → Bool × ThieleURationalFunction)
        → WhenSuccess f p h one_lt stride_lt fun r.n_singular (r.n_checks - 1) t
        → ((x a : ℕ) → x < p → IsAccepted (later (put_term fun i x a)))
        → IsAccepted (after_term r fun i t later)
    after_term-IsAccepted fun i all_checked later agrees rest = (
      fun,
      refl,
      WhenSuccess-AgreesAt fun r.n_singular (r.n_checks - 1) (few_checks r.n_checks refl) agrees,
    )
    after_term-IsAccepted fun i no_term later agrees rest = tt
    after_term-IsAccepted fun i (again x) later agrees rest = tt
    after_term-IsAccepted fun i (new_term x a) later hx rest = elim (Bool-cases full) [
      | inl at_limit ↦
          subst
            (λ b. IsAccepted (elim b [ true ↦ (false, fun) | false ↦ later (put_term fun i x a) ]))
            (sym at_limit) tt
      | inr below ↦
          subst
            (λ b. IsAccepted (elim b [ true ↦ (false, fun) | false ↦ later (put_term fun i x a) ]))
            (sym below) (rest x a hx)
    ]
      where
        full : Bool
        full = leb r.maxterms_ (length fun.ai_)

    start_small :
        (fun : ThieleURationalFunction) (i : ℕ)
        → AllBelow p fun.xi_
        → (if i == 0
            then get_or fun.xi_ 0 0
            else add_mod (get_or fun.xi_ (i - 1) 0) sampling_stride m)
          < p
    start_small fun i points = elim (Bool-cases (i == 0)) [
      | inl first ↦ subst (λ b. (if b then get_or fun.xi_ 0 0 else next) < p) (sym first) (there 0)
      | inr later ↦
          subst (λ b. (if b then get_or fun.xi_ 0 0 else next) < p) (sym later)
            (advanced-lt f p h one_lt stride_lt (get_or fun.xi_ (i - 1) 0) (there (i - 1)))
    ]
      where
        next : ℕ
        next = add_mod (get_or fun.xi_ (i - 1) 0) sampling_stride m

        there : (j : ℕ) → get_or fun.xi_ j 0 < p
        there j = get_or-AllBelow p j fun.xi_ (omega (arith, one_lt)) points

    reconstruct_terms-IsAccepted :
        (rounds : ℕ) (fun : ThieleURationalFunction) (i : ℕ)
        → AllBelow p fun.xi_
        → IsAccepted (reconstruct_terms rounds r f fun i m)
    unfolding reconstruct_terms
    reconstruct_terms-IsAccepted zero fun i points = tt
    reconstruct_terms-IsAccepted (suc rounds) fun i points =
        let x =
          if i == 0
          then get_or fun.xi_ 0 0
          else add_mod (get_or fun.xi_ (i - 1) 0) sampling_stride m in
        after_term-IsAccepted fun i (find_term r.n_singular r f fun i x m)
          (λ fun'. reconstruct_terms rounds r f fun' (suc i) m)
          (find_term-WhenSuccess f p h one_lt stride_lt fun r.n_singular r.n_singular r i x refl
            (start_small fun i points))
          (λ x' a hx'.
            reconstruct_terms-IsAccepted rounds (put_term fun i x' a) (suc i)
              (put_term-AllBelow fun i x' a points hx'))

-- For a modulus p above the stride of the sampling, in the range of the word-sized ones, such that the
-- stride is coprime to p, points of the interpolation that are residues, and fewer than p points that
-- the checks can visit: when `reconstruct` succeeds, what it gives is a rational function without the
-- zeroes at its end, and there are as many different check points as asked for, at least one, at each of
-- which `safe_eval` of the rational function gives the value of the function, which does not fail there.
pub reconstruct-IsAccepted :
    (f : ℕ → ℕ) (p : ℕ) (r : URatFunReconstruction)
    → IsModulus p
    → 1 < p
    → sampling_stride < p
    → Coprime sampling_stride p
    → AllBelow p r.fun_.xi_
    → r.n_checks * suc r.n_singular < p
    → (reconstruct r f (new_mod p)).0 ≡ true
    → (fun : ThieleURationalFunction) × ((reconstruct r f (new_mod p)).1 ≡ remove_high_zeroes fun)
      × AgreesAt f (new_mod p) fun (suc (r.n_checks - 1))
unfolding reconstruct
reconstruct-IsAccepted f p r h one_lt stride_lt coprime points small e =
    accepted (reconstruct_terms (r.maxterms_ + r.n_checks) r f r.fun_ 0 (new_mod p))
      (reconstruct_terms-IsAccepted f p h one_lt stride_lt coprime r small
        (r.maxterms_ + r.n_checks) r.fun_ 0 points)
      e
  where
    accepted :
        (result : Bool × ThieleURationalFunction)
        → IsAccepted f p h one_lt stride_lt coprime r small result
        → result.0 ≡ true
        → (fun : ThieleURationalFunction) × (result.1 ≡ remove_high_zeroes fun)
          × AgreesAt f (new_mod p) fun (suc (r.n_checks - 1))
    accepted (true, g) ok e = ok
    accepted (false, g) ok e = absurd (false≢true e)
