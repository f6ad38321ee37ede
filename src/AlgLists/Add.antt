-- ===== src/AlgLists/Add.antt =====
-- src/alg_lists.cc: `Add`, which adds lists of the same length entry by entry modulo p.
use native.Mathlib.Nat.{mod-add-mod, mod-lt, mod-eq_of_lt}
use finiteflow.Base.{
  ℕ, zero, suc, List, [], ◌∷◌, map, Option, none, some, ◌+◌, ◌%◌, ◌<◌, ◌≡◌, length, replicate, refl,
  ap, ap₂, sym, ◌∙◌, arith, length-replicate,
}
use mathlib.Core.Option
use finiteflow.Ffmod.{IsModulus}
use finiteflow.Modular.{Mod, new_mod, add_mod}
use finiteflow.Modular.Laws.{add_mod_lem}
use finiteflow.Base.{All}

-- class Add, with the base class's `nparsin` and `nparsout`
pub record Add : Type 0 where
  pub nparsin : List ℕ
  pub nparsout : ℕ

unfoldable pub add_init : ℕ → ℕ → Add
add_init nlists list_len = record { nparsin = replicate nlists list_len; nparsout = list_len }

-- The inner loop, over the entries of `xout` and of one input; a read out of bounds is `none`.
unfoldable pub add_entries : Mod → List ℕ → List ℕ → Option (List ℕ)
add_entries m [] ys = some []
add_entries m (x ∷ xs) [] = none
add_entries m (x ∷ xs) (y ∷ ys) = Option.map (λ zs. add_mod x y m ∷ zs) (add_entries m xs ys)

-- The outer loop, over as many inputs as there are sizes in `nparsin`.
unfoldable pub add_loop : Mod → List ℕ → List (List ℕ) → List ℕ → Option (List ℕ)
unfolding add_entries
add_loop m [] xin xout = some xout
add_loop m (k ∷ ks) [] xout = none
add_loop m (k ∷ ks) (l ∷ xin) xout = elim (add_entries m xout l) [
  | none ↦ none
  | some xout' ↦ add_loop m ks xin xout'
]

unfoldable pub add_evaluate : Add → List (List ℕ) → Mod → Option (List ℕ)
unfolding add_loop
add_evaluate a xin m = add_loop m a.nparsin xin (replicate a.nparsout 0)

-- The integer sums of the entries.
abbrev pub add_lists : List ℕ → List ℕ → List ℕ
add_lists [] ys = []
add_lists (x ∷ xs) [] = []
add_lists (x ∷ xs) (y ∷ ys) = (x + y) ∷ add_lists xs ys

abbrev pub sum_lists : List ℕ → List (List ℕ) → List ℕ
sum_lists xs [] = xs
sum_lists xs (l ∷ ls) = sum_lists (add_lists xs l) ls

length-add_lists :
    (xs ys : List ℕ) (n : ℕ) → length xs ≡ n → length ys ≡ n → length (add_lists xs ys) ≡ n
length-add_lists [] ys n h k = h
length-add_lists (x ∷ xs) [] n h k = absurd (omega (arith, h, k))
length-add_lists (x ∷ xs) (y ∷ ys) zero h k = absurd (omega (arith, h))
length-add_lists (x ∷ xs) (y ∷ ys) (suc n) h k =
    ap suc (length-add_lists xs ys n (omega (arith, h)) (omega (arith, k)))

module _ (p : ℕ) (h : IsModulus p) where
  positive : 0 < p
  positive = ground arith

  add_entries_lem :
      (xs ys : List ℕ) (n : ℕ)
      → length xs ≡ n
      → length ys ≡ n
      → All (λ y. y < p) ys
      → add_entries (new_mod p) (map (λ t. t % p) xs) ys ≡ some (map (λ t. t % p) (add_lists xs ys))
  unfolding add_entries
  add_entries_lem [] ys n k l small = refl
  add_entries_lem (x ∷ xs) [] n k l small = absurd (omega (arith, k, l))
  add_entries_lem (x ∷ xs) (y ∷ ys) zero k l small = absurd (omega (arith, k))
  add_entries_lem (x ∷ xs) (y ∷ ys) (suc n) k l small =
      ap (Option.map (λ zs. add_mod (x % p) y (new_mod p) ∷ zs))
        (add_entries_lem xs ys n (omega (arith, k)) (omega (arith, l)) small.1)
      ∙ ap (λ t. some (t ∷ map (λ t. t % p) (add_lists xs ys)))
          (add_mod_lem p h (x % p) y (mod-lt x positive) small.0 ∙ mod-add-mod x p y)

  add_loop_lem :
      (n k : ℕ) (xs : List ℕ) (xin : List (List ℕ))
      → length xs ≡ n
      → map length xin ≡ replicate k n
      → All (λ l. All (λ y. y < p) l) xin
      → add_loop (new_mod p) (replicate k n) xin (map (λ t. t % p) xs)
        ≡ some (map (λ t. t % p) (sum_lists xs xin))
  unfolding add_loop
  add_loop_lem n zero xs [] e f small = refl
  add_loop_lem n zero xs (l ∷ xin) e f small = absurd cc
  add_loop_lem n (suc k) xs [] e f small = absurd cc
  add_loop_lem n (suc k) xs (l ∷ xin) e f small =
      ap (λ o. elim o [ none ↦ none | some xout' ↦ add_loop (new_mod p) (replicate k n) xin xout' ])
        (add_entries_lem xs l n e (cc) small.0)
      ∙ add_loop_lem n k (add_lists xs l) xin (length-add_lists xs l n e (cc)) (cc) small.1

  map_zero : (n : ℕ) → map (λ t. t % p) (replicate n 0) ≡ replicate n 0
  map_zero zero = refl
  map_zero (suc n) = ap₂ ◌∷◌ (mod-eq_of_lt positive) (map_zero n)

  -- For a modulus `p` of either path, `Add` set up for `k` lists of length `n`, on `k` lists of
  -- residues of that length, reads nothing out of bounds and writes the sums of their entries mod p.
  pub add_evaluate_lem :
      (k n : ℕ) (xin : List (List ℕ))
      → map length xin ≡ (add_init k n).nparsin
      → All (λ l. All (λ y. y < p) l) xin
      → add_evaluate (add_init k n) xin (new_mod p)
        ≡ some (map (λ t. t % p) (sum_lists (replicate n 0) xin))
  unfolding add_init add_evaluate
  add_evaluate_lem k n xin fits small =
      ap (add_loop (new_mod p) (replicate k n) xin) (sym (map_zero n))
      ∙ add_loop_lem n k (replicate n 0) xin (length-replicate n 0) fits small
