-- ===== src/AlgLists/NonZeroes.antt =====
-- src/alg_lists.cc: `NonZeroes`, which learns the positions of the entries that are not zero.
use mathlib.Core.Option
use mathlib.Core.Bool.{true≢false}
use finiteflow.Base.{
  ℕ, zero, suc, List, [], ◌∷◌, ◌++◌, Option, none, some, Bool, true, false, ◌+◌, ◌-◌, ◌≡◌, ◌≢◌,
  length, get_elem?, take, set, ◌==◌, replicate, if◌then◌else◌, refl, ap, sym, ◌∙◌, arith,
  Bool-cases, inl, inr, ◌⊎◌, ==→eq, ==→ne,
}
use finiteflow.AlgLists.{success, failed, for_each}

-- `~unsigned(0)`, the size before learning
abbrev pub not_learned : ℕ
not_learned = 0xffff_ffff

-- class NonZeroes, with the base class's `nparsin` and `nparsout`
pub record NonZeroes : Type 0 where
  pub nparsin : ℕ
  pub nparsout : ℕ
  pub nonzero_ : List ℕ

unfoldable pub non_zeroes_init : NonZeroes → ℕ → NonZeroes
non_zeroes_init s input_len = record s { nparsin = input_len; nparsout = not_learned }

-- The positions of the entries that are not zero, from position `j` on.
abbrev pub positions : ℕ → List ℕ → List ℕ
positions j [] = []
positions j (x ∷ xs) = let rest = positions (suc j) xs in if x == 0 then rest else j ∷ rest

abbrev pub count_zero : List ℕ → ℕ
count_zero [] = 0
count_zero (x ∷ xs) = (if x == 0 then 1 else 0) + count_zero xs

-- The loop that compares the positions with the learned ones.
abbrev pub same_positions : ℕ → List ℕ → List ℕ → Bool
same_positions j [] nonzero = true
same_positions j (x ∷ xs) [] =
    let rest = same_positions (suc j) xs [] in if x == 0 then rest else false
same_positions j (x ∷ xs) (k ∷ ks) =
    let skipped = same_positions (suc j) xs (k ∷ ks) in
    let rest = same_positions (suc j) xs ks in
    if x == 0 then skipped else (if k == j then rest else false)

unfoldable pub non_zeroes_learn : NonZeroes → List ℕ → ℕ × NonZeroes
non_zeroes_learn s xin =
    let out = take s.nparsin xin in
    let left = s.nparsin - count_zero out in
    if s.nparsout == not_learned
    then (success, record s { nonzero_ = positions 0 out; nparsout = left })
    else (if (s.nparsout == left)
        then (if same_positions 0 out s.nonzero_
            then (success, record s { nparsout = left })
            else (failed, record s { nparsout = not_learned }))
        else (failed, record s { nparsout = not_learned }))

unfoldable pub non_zeroes_evaluate : NonZeroes → List ℕ → Option (List ℕ)
non_zeroes_evaluate s x = for_each (λ j. get_elem? x j) (take s.nparsout s.nonzero_)

length-positions : (j : ℕ) (xs : List ℕ) → length (positions j xs) ≡ length xs - count_zero xs
length-positions j xs = omega (arith, count_all j xs)
  where
    count_all : (j : ℕ) (xs : List ℕ) → length (positions j xs) + count_zero xs ≡ length xs
    count_all j [] = refl
    count_all j (x ∷ xs) = ground (arith, count_all (suc j) xs)

same_positions_sound :
    (j : ℕ) (xs ks : List ℕ)
    → same_positions j xs ks ≡ true
    → length (positions j xs) ≡ length ks
    → positions j xs ≡ ks
same_positions_sound j [] [] h l = refl
same_positions_sound j [] (k ∷ ks) h l = absurd (omega (arith, l))
same_positions_sound j (x ∷ xs) [] h l = ground (arith, same_positions_sound (suc j) xs [])
same_positions_sound j (x ∷ xs) (k ∷ ks) h l =
    ground (arith, same_positions_sound (suc j) xs (k ∷ ks), same_positions_sound (suc j) xs ks)

same_positions_skip :
    (j x : ℕ) (xs ks : List ℕ)
    → (x == 0) ≡ true
    → same_positions j (x ∷ xs) ks ≡ same_positions (suc j) xs ks
same_positions_skip j x xs [] h = ground arith
same_positions_skip j x xs (k ∷ ks) h = ground arith

positions_skip :
    (j x : ℕ) (xs : List ℕ) → (x == 0) ≡ true → positions j (x ∷ xs) ≡ positions (suc j) xs
positions_skip j x xs h = ap (λ b. if b then positions (suc j) xs else j ∷ positions (suc j) xs) h

positions_take :
    (j x : ℕ) (xs : List ℕ) → (x == 0) ≡ false → positions j (x ∷ xs) ≡ j ∷ positions (suc j) xs
positions_take j x xs h = ap (λ b. if b then positions (suc j) xs else j ∷ positions (suc j) xs) h

same_positions_self : (j : ℕ) (xs : List ℕ) → same_positions j xs (positions j xs) ≡ true
same_positions_self j [] = refl
same_positions_self j (x ∷ xs) = elim (Bool-cases (x == 0)) [
  | inl skip ↦
      ap (same_positions j (x ∷ xs)) (positions_skip j x xs skip)
      ∙ same_positions_skip j x xs (positions (suc j) xs) skip
      ∙ same_positions_self (suc j) xs
  | inr entry ↦
      ap (same_positions j (x ∷ xs)) (positions_take j x xs entry)
      ∙ ground (arith, same_positions_self (suc j) xs)
]

take-length : (xs : List ℕ) (n : ℕ) → length xs ≡ n → take n xs ≡ xs
take-length [] zero h = refl
take-length [] (suc n) h = refl
take-length (x ∷ xs) zero h = absurd (omega (arith, h))
take-length (x ∷ xs) (suc n) h = ap (λ t. x ∷ t) (take-length xs n (omega (arith, h)))

-- An algorithm that has learned, with as many positions as outputs, learns again from an input of its
-- size. Either the entries that are not zero are at the learned positions, and it succeeds and is
-- unchanged; or they are not, and it fails and is reset to one that has not learned, unchanged otherwise.
pub non_zeroes_learn-again :
    (s : NonZeroes) (xin : List ℕ)
    → s.nparsout ≢ not_learned
    → length s.nonzero_ ≡ s.nparsout
    → length xin ≡ s.nparsin
    → ((positions 0 xin ≡ s.nonzero_) × (non_zeroes_learn s xin ≡ (success, s)))
      ⊎ ((positions 0 xin ≢ s.nonzero_)
          × (non_zeroes_learn s xin ≡ (failed, record s { nparsout = not_learned })))
unfolding non_zeroes_learn
non_zeroes_learn-again s xin learned sized len =
    elim (Bool-cases (s.nparsout == s.nparsin - count_zero xin)) [
      | inr other ↦ inr (
        λ e. absurd (
            ==→ne s.nparsout (s.nparsin - count_zero xin) other
              (sym sized ∙ sym (ap length e) ∙ counted)),
        ground (arith, whole, other),
      )
      | inl equal ↦ elim (Bool-cases (same_positions 0 xin s.nonzero_)) [
        | inl same ↦ inl (
          same_positions_sound 0 xin s.nonzero_ same
              (counted ∙ sym (==→eq s.nparsout (s.nparsin - count_zero xin) equal) ∙ sym sized),
          ground (arith, whole, equal, same)
              ∙ ap (λ k. (success, record s { nparsout = k }))
                  (sym (==→eq s.nparsout (s.nparsin - count_zero xin) equal)),
        )
        | inr differ ↦ inr (
          λ e.
              absurd (
                true≢false
                  (sym (same_positions_self 0 xin) ∙ ap (same_positions 0 xin) e ∙ differ)),
          ground (arith, whole, equal, differ),
        )
      ]
    ]
  where
    whole : take s.nparsin xin ≡ xin
    whole = take-length xin s.nparsin len

    counted : length (positions 0 xin) ≡ s.nparsin - count_zero xin
    counted = length-positions 0 xin ∙ ap (λ k. k - count_zero xin) len

-- The values put back at their positions.
abbrev pub scatter : List ℕ → List ℕ → List ℕ → List ℕ
scatter [] vs r = r
scatter (k ∷ ks) [] r = r
scatter (k ∷ ks) (v ∷ vs) r = scatter ks vs (set r k v)

get_elem?-middle :
    (before : List ℕ) (x : ℕ) (xs : List ℕ) → get_elem? (before ++ x ∷ xs) (length before) ≡ some x
get_elem?-middle [] x xs = refl
get_elem?-middle (y ∷ before) x xs = get_elem?-middle before x xs

set_middle :
    (before : List ℕ) (y x : ℕ) (xs : List ℕ)
    → set (before ++ y ∷ xs) (length before) x ≡ before ++ x ∷ xs
set_middle [] y x xs = refl
set_middle (z ∷ before) y x xs = ap (λ l. z ∷ l) (set_middle before y x xs)

push_middle : (before : List ℕ) (x : ℕ) (xs : List ℕ) → before ++ x ∷ xs ≡ (before ++ x ∷ []) ++ xs
push_middle [] x xs = refl
push_middle (y ∷ before) x xs = ap (λ l. y ∷ l) (push_middle before x xs)

length_push : (before : List ℕ) (x : ℕ) → length (before ++ x ∷ []) ≡ suc (length before)
length_push [] x = refl
length_push (y ∷ before) x = ap suc (length_push before x)

abbrev Recovers : List ℕ → List ℕ → ℕ → Type 0
Recovers before xs j =
    (ys : List ℕ) × (for_each (λ k. get_elem? (before ++ xs) k) (positions j xs) ≡ some ys)
    × (scatter (positions j xs) ys (before ++ replicate (length xs) 0) ≡ before ++ xs)

recovers : (before xs : List ℕ) (j : ℕ) → j ≡ length before → Recovers before xs j
recovers before [] j e = ([], refl, refl)
recovers before (x ∷ xs) j e =
    let (ys, ev, back) =
      recovers (before ++ x ∷ []) xs (suc j) (omega (arith, e, length_push before x)) in
    let ev' : for_each (λ k. get_elem? (before ++ x ∷ xs) k) (positions (suc j) xs) ≡ some ys =
      ap (λ l. for_each (λ k. get_elem? l k) (positions (suc j) xs)) (push_middle before x xs)
      ∙ ev in
    elim (Bool-cases (x == 0)) [
      | inl skip ↦ (
        ys,
        ap (for_each (λ k. get_elem? (before ++ x ∷ xs) k)) (positions_skip j x xs skip) ∙ ev',
        ap (λ l. scatter l ys (before ++ 0 ∷ replicate (length xs) 0)) (positions_skip j x xs skip)
            ∙ ap (λ t. scatter (positions (suc j) xs) ys (before ++ t ∷ replicate (length xs) 0))
                (sym (==→eq x 0 skip))
            ∙ ap (scatter (positions (suc j) xs) ys)
                (push_middle before x (replicate (length xs) 0))
            ∙ back
            ∙ sym (push_middle before x xs),
      )
      | inr entry ↦ (
        x ∷ ys,
        ap (for_each (λ k. get_elem? (before ++ x ∷ xs) k)) (positions_take j x xs entry)
            ∙ ap
                (λ o. elim o [
                  | none ↦ none
                  | some y ↦
                      Option.map (λ ys. y ∷ ys)
                        (for_each (λ k. get_elem? (before ++ x ∷ xs) k) (positions (suc j) xs))
                ])
                (ap (get_elem? (before ++ x ∷ xs)) e ∙ get_elem?-middle before x xs)
            ∙ ap (Option.map (λ ys. x ∷ ys)) ev',
        ap (λ l. scatter l (x ∷ ys) (before ++ 0 ∷ replicate (length xs) 0))
              (positions_take j x xs entry)
            ∙ ap (scatter (positions (suc j) xs) ys) (
                ap (λ t. set (before ++ 0 ∷ replicate (length xs) 0) t x) e
                ∙ set_middle before 0 x (replicate (length xs) 0)
                ∙ push_middle before x (replicate (length xs) 0))
            ∙ back
            ∙ sym (push_middle before x xs),
      )
    ]

-- An algorithm that has not learned learns from every input of its size; `evaluate` on that input then
-- succeeds, and what it writes, put back at the learned positions of a list of zeros give the
-- input.
pub non_zeroes-roundtrip :
    (s : NonZeroes) (xin : List ℕ)
    → s.nparsout ≡ not_learned
    → length xin ≡ s.nparsin
    → (ys : List ℕ) × ((non_zeroes_learn s xin).0 ≡ success)
      × (non_zeroes_evaluate (non_zeroes_learn s xin).1 xin ≡ some ys)
      × (scatter (non_zeroes_learn s xin).1.nonzero_ ys (replicate (length xin) 0) ≡ xin)
unfolding non_zeroes_learn non_zeroes_evaluate
non_zeroes-roundtrip s xin fresh len =
    let (ys, ev, back) = recovers [] xin 0 refl in
    (
      ys,
      ap (λ r. r.0) learned,
      ap (λ r. non_zeroes_evaluate r.1 xin) learned
          ∙ ap (for_each (λ j. get_elem? xin j)) (
              take-length (positions 0 xin) (s.nparsin - count_zero xin)
                (length-positions 0 xin ∙ ap (λ t. t - count_zero xin) len))
          ∙ ev,
      ap (λ r. scatter r.1.nonzero_ ys (replicate (length xin) 0)) learned ∙ back,
    )
  where
    learned :
        non_zeroes_learn s xin
        ≡ (success, record s { nonzero_ = positions 0 xin; nparsout = s.nparsin - count_zero xin })
    learned = ground (arith, take-length xin s.nparsin len)
