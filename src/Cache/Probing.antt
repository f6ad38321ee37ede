-- ===== src/Cache/Probing.antt =====
-- The slots that the loops of the hash table visit.
use native.Mathlib.Nat.{mod-eq_of_lt, mod_self}
use finiteflow.Base.{
  ℕ, zero, suc, List, [], ◌∷◌, true, false, ◌⊎◌, inl, inr, ◌≢◌, ◌+◌, ◌-◌, ltb→lt, ltb→le, ◌%◌, ◌<◌,
  ◌≤◌, ◌≡◌, ap, ap₂, sym, ◌∙◌, refl, arith, ltb, ◌==◌, Option, none, some, Bool-cases, Option-cases,
  subst, ==→eq, ==→ne,
}
use finiteflow.Cache.{Entry, slot, equal_keys, is_in_pos_, at_empty, at_entry, probe, probe_empty}

-- The entry stands in one of the slots.
abbrev pub Holds : List (Option Entry) → Entry → Type 0
Holds slots e = (pos : ℕ) × (slot slots pos ≡ some e)

-- In `n` steps over slots in use, the loop comes from `pos` to `target`.
abbrev pub Reaches : List (Option Entry) → ℕ → ℕ → ℕ → ℕ → Type 0
Reaches slots mask zero pos target = pos ≡ target
Reaches slots mask (suc n) pos target =
    ((e : Entry) × (slot slots pos ≡ some e)) × Reaches slots mask n ((pos + 1) % (mask + 1)) target

pub equal_keys_refl : (xs : List ℕ) → equal_keys xs xs ≡ true
equal_keys_refl [] = refl
equal_keys_refl (x ∷ xs) = ground (arith, equal_keys_refl xs)

pub equal_keys-eq : (xs ys : List ℕ) → equal_keys xs ys ≡ true → xs ≡ ys
equal_keys-eq [] [] h = refl
equal_keys-eq [] (y ∷ ys) h = cc
equal_keys-eq (x ∷ xs) [] h = cc
equal_keys-eq (x ∷ xs) (y ∷ ys) h = elim (Bool-cases (x == y)) [
  | inl same ↦ ap₂ (λ a l. a ∷ l) (==→eq x y same) (equal_keys-eq xs ys (ground (arith, same)))
  | inr other ↦ ground (arith, other)
]

none-ne : {e : Entry} → none ≢ some e
none-ne h = cc

is_in_pos_self : (e : Entry) (hash : ℕ) → e.hashv ≡ hash → is_in_pos_ e.key hash e ≡ true
is_in_pos_self e hash same = ground (arith, equal_keys_refl e.key)

pub is_in_pos_key : (x : List ℕ) (hash : ℕ) (e : Entry) → is_in_pos_ x hash e ≡ true → e.key ≡ x
is_in_pos_key x hash e h = sym (equal_keys-eq x e.key (ground arith))

-- From `pos`, the slot `q` comes after `d` steps.
abbrev pub IsAhead : ℕ → ℕ → ℕ → ℕ → Type 0
IsAhead mask d pos q = (q ≡ pos + d) ⊎ (q + (mask + 1) ≡ pos + d)

next_pos :
    (mask pos : ℕ)
    → pos ≤ mask
    → ((pos + 1) % (mask + 1) ≡ pos + 1) × (pos < mask)
      ⊎ ((pos + 1) % (mask + 1) ≡ 0) × (pos ≡ mask)
next_pos mask pos h = elim (Bool-cases (pos == mask)) [
  | inl last ↦ inr (
    ap (λ t. (t + 1) % (mask + 1)) (==→eq pos mask last) ∙ mod_self (mask + 1),
    ==→eq pos mask last,
  )
  | inr before ↦ inl (
    mod-eq_of_lt (omega (arith, h, ==→ne pos mask before)),
    omega (arith, h, ==→ne pos mask before),
  )
]

IsAhead-next :
    (mask d pos q : ℕ)
    → pos ≤ mask
    → q ≤ mask
    → IsAhead mask (suc d) pos q
    → ((pos + 1) % (mask + 1) ≤ mask) × IsAhead mask d ((pos + 1) % (mask + 1)) q
IsAhead-next mask d pos q hp hq ahead = elim (next_pos mask pos hp) [
  | inl (e, less) ↦ (
    omega (arith, e, less),
    elim ahead [ inl a ↦ inl (omega (arith, e, a)) | inr a ↦ inr (omega (arith, e, a)) ],
  )
  | inr (e, last) ↦ (
    omega (arith, e),
    elim ahead [
      | inl a ↦ absurd (omega (arith, a, last, hq))
      | inr a ↦ inl (omega (arith, e, a, last))
    ],
  )
]

pub ahead : (mask pos q : ℕ) → pos ≤ mask → q ≤ mask → (d : ℕ) × (d ≤ mask) × IsAhead mask d pos q
ahead mask pos q hp hq = elim (Bool-cases (ltb q pos)) [
  | inl less ↦ (q + (mask + 1) - pos, omega (arith, ltb→lt q pos less), inr (omega (arith, hp)))
  | inr more ↦ (q - pos, omega (arith, hq), inl (omega (arith, ltb→le q pos more)))
]

module _ (slots : List (Option Entry)) (mask : ℕ) where
  probe_empty_stop :
      (fuel pos : ℕ) → slot slots pos ≡ none → probe_empty (suc fuel) slots mask pos ≡ some pos
  unfolding probe_empty
  probe_empty_stop fuel pos h = ground (arith, h)

  probe_empty_next :
      (fuel pos : ℕ) (e : Entry)
      → slot slots pos ≡ some e
      → probe_empty (suc fuel) slots mask pos ≡ probe_empty fuel slots mask ((pos + 1) % (mask + 1))
  unfolding probe_empty
  probe_empty_next fuel pos e h = ground (arith, h)

  probe_empty_at :
      (fuel pos : ℕ) (x : List ℕ) (hash : ℕ)
      → slot slots pos ≡ none
      → probe (suc fuel) slots mask x hash pos ≡ at_empty pos
  unfolding probe
  probe_empty_at fuel pos x hash h = ground (arith, h)

  probe_stop :
      (fuel pos : ℕ) (x : List ℕ) (hash : ℕ) (e : Entry)
      → slot slots pos ≡ some e
      → is_in_pos_ x hash e ≡ true
      → probe (suc fuel) slots mask x hash pos ≡ at_entry pos e
  unfolding probe
  probe_stop fuel pos x hash e h k = ground (arith, h, k)

  probe_next :
      (fuel pos : ℕ) (x : List ℕ) (hash : ℕ) (e : Entry)
      → slot slots pos ≡ some e
      → is_in_pos_ x hash e ≡ false
      → probe (suc fuel) slots mask x hash pos
        ≡ probe fuel slots mask x hash ((pos + 1) % (mask + 1))
  unfolding probe
  probe_next fuel pos x hash e h k = ground (arith, h, k)

  -- The empty slot is not here.
  ahead_cases :
      (d pos q : ℕ) (e : Entry)
      → pos ≤ mask
      → q ≤ mask
      → IsAhead mask d pos q
      → slot slots q ≡ none
      → slot slots pos ≡ some e
      → (d' : ℕ) × (d ≡ suc d')
  ahead_cases zero pos q e hp hq (inl at) empty used =
      absurd (none-ne (sym empty ∙ ap (slot slots) (omega (arith, at)) ∙ used))
  ahead_cases zero pos q e hp hq (inr at) empty used = absurd (omega (arith, at, hp))
  ahead_cases (suc d) pos q e hp hq near empty used = (d, refl)

  -- The loop for an empty slot ends, if there is one.
  pub probe_empty_lem :
      (fuel d pos q : ℕ)
      → d < fuel
      → pos ≤ mask
      → q ≤ mask
      → IsAhead mask d pos q
      → slot slots q ≡ none
      → (p n : ℕ) × (probe_empty fuel slots mask pos ≡ some p)
        × (slot slots p ≡ none)
        × (p ≤ mask)
        × (n < fuel)
        × Reaches slots mask n pos p
  probe_empty_lem zero d pos q h hp hq near empty = absurd (omega (arith, h))
  probe_empty_lem (suc fuel) d pos q h hp hq near empty = elim (Option-cases (slot slots pos)) [
    | inl free ↦ (pos, 0, probe_empty_stop fuel pos free, free, hp, omega arith, refl)
    | inr (e, used) ↦
        let (d', next) = ahead_cases d pos q e hp hq near empty used in
        let (hp', near') =
          IsAhead-next mask d' pos q hp hq (subst (λ t. IsAhead mask t pos q) next near) in
        let (p, n, found, free, small, few, reaches) =
          probe_empty_lem fuel d' ((pos + 1) % (mask + 1)) q (omega (arith, h, next)) hp' hq near'
            empty in
        (
          p,
          suc n,
          probe_empty_next fuel pos e used ∙ found,
          free,
          small,
          omega (arith, few),
          ((e, used), reaches),
        )
  ]

  -- What stands in the table is found, from `n` steps before it.
  pub probe_finds :
      (fuel n pos target hash : ℕ) (e : Entry)
      → n < fuel
      → Reaches slots mask n pos target
      → slot slots target ≡ some e
      → e.hashv ≡ hash
      → (p : ℕ) × (e' : Entry) × (probe fuel slots mask e.key hash pos ≡ at_entry p e')
        × (slot slots p ≡ some e')
        × (e'.key ≡ e.key)
  probe_finds zero n pos target hash e h r at same = absurd (omega (arith, h))
  probe_finds (suc fuel) zero pos target hash e h r at same = (
    pos,
    e,
    probe_stop fuel pos e.key hash e (ap (slot slots) r ∙ at) (is_in_pos_self e hash same),
    ap (slot slots) r ∙ at,
    refl,
  )
  probe_finds (suc fuel) (suc n) pos target hash e h ((e', used), r) at same =
      elim (Bool-cases (is_in_pos_ e.key hash e')) [
        | inl here ↦ (
          pos,
          e',
          probe_stop fuel pos e.key hash e' used here,
          used,
          is_in_pos_key e.key hash e' here,
        )
        | inr other ↦
            let (p, e'', found, stands, key) =
              probe_finds fuel n ((pos + 1) % (mask + 1)) target hash e (omega (arith, h)) r at
                same in
            (p, e'', probe_next fuel pos e.key hash e' used other ∙ found, stands, key)
      ]

  -- What does not stand in the table is not found, and the loop ends, if there is an empty slot.
  pub probe_misses :
      (fuel d pos q hash : ℕ) (x : List ℕ)
      → d < fuel
      → pos ≤ mask
      → q ≤ mask
      → IsAhead mask d pos q
      → slot slots q ≡ none
      → ((e : Entry) → Holds slots e → e.key ≢ x)
      → (p : ℕ) × (probe fuel slots mask x hash pos ≡ at_empty p)
  probe_misses zero d pos q hash x h hp hq near empty new = absurd (omega (arith, h))
  probe_misses (suc fuel) d pos q hash x h hp hq near empty new =
      elim (Option-cases (slot slots pos)) [
        | inl free ↦ (pos, probe_empty_at fuel pos x hash free)
        | inr (e, used) ↦
            let (d', next) = ahead_cases d pos q e hp hq near empty used in
            let (hp', near') =
              IsAhead-next mask d' pos q hp hq (subst (λ t. IsAhead mask t pos q) next near) in
            let (p, missed) =
              probe_misses fuel d' ((pos + 1) % (mask + 1)) q hash x (omega (arith, h, next)) hp' hq
                near' empty new in
            (
              p,
              elim (Bool-cases (is_in_pos_ x hash e)) [
                | inl here ↦ absurd (new e (pos, used) (is_in_pos_key x hash e here))
                | inr other ↦ probe_next fuel pos x hash e used other ∙ missed
              ],
            )
      ]
