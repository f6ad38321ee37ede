-- ===== src/Learning.antt =====
-- src/algorithm.cc: the learning of an algorithm. `learn` is the virtual method on the algorithm's own
-- state, and `sample` the generator of pseudo-random residues.
mod Examples
use native.Mathlib.Nat.{mod-eq_of_lt}
use finiteflow.Base.{
  ℕ, zero, suc, List, [], ◌∷◌, map, Bool, true, false, ◌+◌, ◌%◌, ◌<◌, ◌≤◌, ◌≡◌, ◌≢◌, ◌↔◌, ltb, leb,
  ◌==◌, if◌then◌else◌, refl, arith, Bool-cases, inl, inr, ap, ◌∙◌, sym, leb→le,
}
use finiteflow.AlgLists.{success, failed, upto}

-- The algorithm: its own state, and the flag `HAS_LEARNED_`.
pub record Learner (S : Type 0) : Type 0 where
  pub state : S
  pub learned : Bool

module _ (S : Type 0) (learn : S → List ℕ → ℕ × S) (sample : ℕ → ℕ) where
  -- The point of one try, of `npin` entries.
  abbrev pub sample_point : ℕ → ℕ → List ℕ
  sample_point npin try_no = map (λ i. sample ((try_no + i) % 0x1_0000_0000)) (upto 0 npin)

  -- The loop, with `tries` tries left; `n` is `n_learning` and `s` is `n_singular`. It gives the return
  -- code and the algorithm.
  unfoldable pub learn_loop : ℕ → ℕ → ℕ → ℕ → ℕ → ℕ → ℕ → Learner S → ℕ × Learner S
  learn_loop zero n s npin try_no learn_ok singular a = (failed, a)
  learn_loop (suc tries) n s npin try_no learn_ok singular a =
      let r = learn a.state (sample_point npin try_no) in
      let a' = record a { state = r.1 } in
      let after_success = learn_loop tries n s npin (suc try_no) (suc learn_ok) singular a' in
      let after_failure = learn_loop tries n s npin (suc try_no) 0 (suc singular) a' in
      if r.0 == success
      then (if leb n (suc learn_ok) then (success, record a' { learned = true }) else after_success)
      else (if ltb s (suc singular) then (r.0, a') else after_failure)

  -- The sum `n_learning + n_singular` is one of 32-bit integers.
  unfoldable pub learn_all : ℕ → ℕ → ℕ → Learner S → ℕ × Learner S
  unfolding learn_loop
  learn_all n_singular n_learning npin a =
      if n_learning == 0
      then (success, record a { learned = true })
      else learn_loop ((n_learning + n_singular) % 0x1_0000_0000) n_learning n_singular npin 0 0 0
          (record a { learned = false })

  abbrev IsConsistent : ℕ × Learner S → Type 0
  IsConsistent r = (r.0 ≡ success) ↔ (r.1.learned ≡ true)

  either :
      (b : Bool) (x y : ℕ × Learner S)
      → (b ≡ true → IsConsistent x)
      → (b ≡ false → IsConsistent y)
      → IsConsistent (if b then x else y)
  either true x y h k = h refl
  either false x y h k = k refl

  learn_loop-IsConsistent :
      (tries n s npin try_no learn_ok singular : ℕ) (a : Learner S)
      → a.learned ≡ false
      → IsConsistent (learn_loop tries n s npin try_no learn_ok singular a)
  unfolding learn_loop
  learn_loop-IsConsistent zero n s npin try_no learn_ok singular a reset =
      (λ h. ground arith, λ h. ground (arith, reset))
  learn_loop-IsConsistent (suc tries) n s npin try_no learn_ok singular a reset =
      either ((learn a.state (sample_point npin try_no)).0 == success) _ _
        (λ good.
          either (leb n (suc learn_ok)) _ _ (λ h. (λ e. refl, λ e. refl))
            (λ h.
              learn_loop-IsConsistent tries n s npin (suc try_no) (suc learn_ok) singular _ reset))
        (λ bad.
          either (ltb s (suc singular)) _ _ (λ h. (λ e. ground arith, λ e. ground (arith, reset)))
            (λ h. learn_loop-IsConsistent tries n s npin (suc try_no) 0 (suc singular) _ reset))

  -- Whatever the flag was before, `learn_all` returns SUCCESS exactly when the algorithm that it leaves
  -- has the flag that it has learned.
  pub learn_all-success :
      (n_singular n_learning npin : ℕ) (a : Learner S)
      → ((learn_all n_singular n_learning npin a).0 ≡ success)
        ↔ ((learn_all n_singular n_learning npin a).1.learned ≡ true)
  unfolding learn_all
  learn_all-success n_singular n_learning npin a =
      either (n_learning == 0) _ _ (λ h. (λ e. refl, λ e. refl))
        (λ h.
          learn_loop-IsConsistent ((n_learning + n_singular) % 0x1_0000_0000) n_learning n_singular
            npin 0 0 0 (record a { learned = false }) refl)

  -- The number of tries does not wrap around.
  loop_equation :
      (n_singular n_learning npin : ℕ) (a : Learner S)
      → 0 < n_learning
      → n_learning + n_singular < 0x1_0000_0000
      → learn_all n_singular n_learning npin a
        ≡ learn_loop
            (n_learning + n_singular)
            n_learning
            n_singular
            npin
            0
            0
            0
            (record a { learned = false })
  unfolding learn_all
  loop_equation n_singular n_learning npin a some_try small =
      ground (arith, some_try)
      ∙ ap (λ t. learn_loop t n_learning n_singular npin 0 0 0 (record a { learned = false }))
          {x = (n_learning + n_singular) % 0x1_0000_0000} (mod-eq_of_lt small)

  -- `faults` counts the tries that still fail before all succeed.
  module _ (faults : S → ℕ)
      (sound : (st : S) (x : List ℕ)
        → faults st ≡ 0
        → ((learn st x).0 ≡ success) × (faults (learn st x).1 ≡ 0))
      (faulty : (st : S) (x : List ℕ) (k : ℕ)
        → faults st ≡ suc k
        → ((learn st x).0 ≢ success) × (faults (learn st x).1 ≡ k)) where
    loop_sound :
        (tries n s npin try_no learn_ok singular : ℕ) (a : Learner S)
        → faults a.state ≡ 0
        → n ≤ learn_ok + tries
        → learn_ok < n
        → (learn_loop tries n s npin try_no learn_ok singular a).0 ≡ success
    unfolding learn_loop
    loop_sound zero n s npin try_no learn_ok singular a no_faults h k = absurd (omega (arith, h, k))
    loop_sound (suc tries) n s npin try_no learn_ok singular a no_faults h k = ground (
      arith,
      (sound a.state (sample_point npin try_no) no_faults).0,
      loop_sound tries n s npin (suc try_no) (suc learn_ok) singular
          (record a { state = (learn a.state (sample_point npin try_no)).1 })
          (sound a.state (sample_point npin try_no) no_faults).1,
    )

    loop_recovers :
        (k tries n s npin try_no singular : ℕ) (a : Learner S)
        → faults a.state ≡ k
        → k + singular ≤ s
        → n + k ≤ tries
        → 0 < n
        → (learn_loop tries n s npin try_no 0 singular a).0 ≡ success
    unfolding learn_loop
    loop_recovers zero tries n s npin try_no singular a none_left few enough some_try =
        loop_sound tries n s npin try_no 0 singular a none_left (omega (arith, enough)) some_try
    loop_recovers (suc k) zero n s npin try_no singular a left few enough some_try =
        absurd (omega (arith, enough))
    loop_recovers (suc k) (suc tries) n s npin try_no singular a left few enough some_try =
        let (fails, later) = faulty a.state (sample_point npin try_no) k left in
        ground (
          arith,
          fails,
          loop_recovers k tries n s npin (suc try_no) (suc singular)
              (record a { state = (learn a.state (sample_point npin try_no)).1 }) later
              (omega (arith, few)) (omega (arith, enough)) some_try,
        )

    loop_fails :
        (k tries n s npin try_no singular : ℕ) (a : Learner S)
        → faults a.state ≡ k
        → s < k + singular
        → singular ≤ s
        → (learn_loop tries n s npin try_no 0 singular a).0 ≢ success
    unfolding learn_loop
    loop_fails zero tries n s npin try_no singular a left many few e =
        absurd (omega (arith, many, few))
    loop_fails (suc k) zero n s npin try_no singular a left many few e = absurd (omega (arith, e))
    loop_fails (suc k) (suc tries) n s npin try_no singular a left many few e =
        let (fails, later) = faulty a.state (sample_point npin try_no) k left in
        ground (
          arith,
          fails,
          loop_fails k tries n s npin (suc try_no) (suc singular)
              (record a { state = (learn a.state (sample_point npin try_no)).1 }) later
              (omega (arith, many)),
        )

    -- For an algorithm whose first tries fail, as many as `faults` counts, and whose later ones succeed,
    -- where at least one success is asked for and the number of tries is a 32-bit integer: `learn_all`
    -- succeeds within its tries exactly when no more tries fail than `n_singular`.
    pub learn_all_recovers :
        (n_singular n_learning npin : ℕ) (a : Learner S)
        → 0 < n_learning
        → n_learning + n_singular < 0x1_0000_0000
        → ((learn_all n_singular n_learning npin a).0 ≡ success) ↔ (faults a.state ≤ n_singular)
    learn_all_recovers n_singular n_learning npin a some_try small = (
      λ done. elim (Bool-cases (leb (faults a.state) n_singular)) [
        | inl few ↦ omega (arith, leb→le (faults a.state) n_singular few)
        | inr many ↦ absurd (
            loop_fails (faults a.state) (n_learning + n_singular) n_learning n_singular npin 0 0
              (record a { learned = false }) refl (ground (arith, many)) (omega arith)
              (sym (ap (λ r. r.0) whole) ∙ done))
      ],
      λ few.
          ap (λ r. r.0) whole
          ∙ loop_recovers (faults a.state) (n_learning + n_singular) n_learning n_singular npin 0 0
              (record a { learned = false }) refl (omega (arith, few)) (omega (arith, few))
              some_try,
    )
      where
        whole :
            learn_all n_singular n_learning npin a
            ≡ learn_loop
                (n_learning + n_singular)
                n_learning
                n_singular
                npin
                0
                0
                0
                (record a { learned = false })
        whole = loop_equation n_singular n_learning npin a some_try small
