-- ===== src/Learning/Examples.antt =====
-- Learning of an algorithm that fails its first tries.
use finiteflow.Base.{ℕ, zero, suc, List, true, false, ◌+◌, ◌≤◌, ◌≡◌, ◌≢◌, ◌↔◌, refl, arith}
use finiteflow.AlgLists.{success, failed}
use finiteflow.Learning.{Learner, learn_all, learn_all-success, learn_all_recovers}

-- The state is the number of tries that still fail.
abbrev late : ℕ → List ℕ → ℕ × ℕ
late zero x = (success, zero)
late (suc k) x = (failed, k)

-- One that had learned, and fails once.
abbrev learned_before : Learner ℕ
learned_before = record { state = 1; learned = true }

learned_late :
    learn_all ℕ late (λ i. i + 100) 2 2 1 learned_before
    ≡ (success, record { state = 0; learned = true })
unfolding learn_all
learned_late = refl

-- No failed try is allowed.
failed_again :
    learn_all ℕ late (λ i. i + 100) 0 2 1 learned_before
    ≡ (failed, record { state = 0; learned = false })
unfolding learn_all
failed_again = refl

learn_all-success_example :
    ((learn_all ℕ late (λ i. i + 100) 0 2 1 learned_before).0 ≡ success)
    ↔ ((learn_all ℕ late (λ i. i + 100) 0 2 1 learned_before).1.learned ≡ true)
learn_all-success_example = learn_all-success ℕ late (λ i. i + 100) 0 2 1 learned_before

late_sound : (st : ℕ) (x : List ℕ) → st ≡ 0 → ((late st x).0 ≡ success) × ((late st x).1 ≡ 0)
late_sound zero x h = (refl, refl)
late_sound (suc k) x h = absurd (omega (arith, h))

late_faulty :
    (st : ℕ) (x : List ℕ) (k : ℕ) → st ≡ suc k → ((late st x).0 ≢ success) × ((late st x).1 ≡ k)
late_faulty zero x k h = absurd (omega (arith, h))
late_faulty (suc j) x k h = (λ e. absurd (omega (arith, e)), omega (arith, h))

learn_all_recovers_example :
    ((learn_all ℕ late (λ i. i + 100) 2 2 1 learned_before).0 ≡ success) ↔ (1 ≤ 2)
learn_all_recovers_example =
    learn_all_recovers ℕ late (λ i. i + 100) (λ st. st) late_sound late_faulty 2 2 1 learned_before
      (omega arith) (omega arith)
