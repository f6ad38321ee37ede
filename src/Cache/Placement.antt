-- ===== src/Cache/Placement.antt =====
-- The tables in which every entry stands where the probing from its own slot comes to it, and how they are
-- filled.
use native.Mathlib.Nat.{mod-lt}
use finiteflow.Base.{
  ℕ, zero, suc, List, [], ◌∷◌, ◌⊎◌, inl, inr, ◌↔◌, ◌+◌, ◌%◌, ◌<◌, ◌≤◌, ◌≡◌, ap, sym, ◌∙◌, refl,
  arith, ◌==◌, Option, none, some, length, length-set, set, replicate, length-replicate,
  if◌then◌else◌, Bool-cases, subst, ==→eq, get_or-set,
}
use finiteflow.Cache.{Entry, slot, hash_of, probe_empty, place, place_all}
use finiteflow.Cache.Probing.{Holds, Reaches, ahead, probe_empty_lem}

pub record IsTable (slots : List (Option Entry)) (mask : ℕ) : Type 0 where
  pub capacity : length slots ≡ mask + 1
  pub placed :
      (pos : ℕ) (e : Entry)
      → slot slots pos ≡ some e
      → (n : ℕ) × (n ≤ mask) × Reaches slots mask n (e.hashv % (mask + 1)) pos

abbrev pub count : List (Option Entry) → ℕ
count [] = 0
count (none ∷ slots) = count slots
count (some e ∷ slots) = suc (count slots)

abbrev pub count_one : Option Entry → ℕ
count_one none = 0
count_one (some e) = 1

pub empty_slot :
    (slots : List (Option Entry))
    → count slots < length slots
    → (q : ℕ) × (q < length slots) × (slot slots q ≡ none)
empty_slot [] h = absurd (omega (arith, h))
empty_slot (none ∷ slots) h = (0, omega arith, refl)
empty_slot (some e ∷ slots) h =
    let (q, inside, free) = empty_slot slots (omega (arith, h)) in
    (suc q, omega (arith, inside), free)

pub count-set :
    (slots : List (Option Entry)) (pos : ℕ) (entry : Option Entry)
    → pos < length slots
    → slot slots pos ≡ none
    → count (set slots pos entry) ≡ count slots + count_one entry
count-set [] pos entry h free = absurd (omega (arith, h))
count-set (none ∷ slots) zero none h free = omega arith
count-set (none ∷ slots) zero (some e) h free = omega arith
count-set (some e ∷ slots) zero entry h free = cc
count-set (none ∷ slots) (suc pos) entry h free = count-set slots pos entry (omega (arith, h)) free
count-set (some e ∷ slots) (suc pos) entry h free =
    omega (arith, count-set slots pos entry (omega (arith, h)) free)

count-cons :
    (entry : Option Entry) (slots : List (Option Entry))
    → count (entry ∷ slots) ≡ count_one entry + count slots
count-cons none slots = omega arith
count-cons (some e) slots = omega arith

module _ (slots : List (Option Entry)) (pos : ℕ) (entry : Option Entry)
    (inside : pos < length slots) (free : slot slots pos ≡ none) where
  set_here : slot (set slots pos entry) pos ≡ entry
  set_here = get_or-set slots pos pos entry none inside ∙ ground arith

  set_used : (j : ℕ) (e : Entry) → slot slots j ≡ some e → slot (set slots pos entry) j ≡ some e
  set_used j e used = elim (Bool-cases (pos == j)) [
    | inl same ↦ cc_none (sym free ∙ ap (slot slots) (==→eq pos j same) ∙ used)
    | inr other ↦
        get_or-set slots pos j entry none inside
        ∙ ap (λ b. if b then entry else slot slots j) other
        ∙ used
  ]
    where
      cc_none : none ≡ some e → slot (set slots pos entry) j ≡ some e
      cc_none h = cc

  pub Reaches-set :
      (mask n a b : ℕ) → Reaches slots mask n a b → Reaches (set slots pos entry) mask n a b
  Reaches-set mask zero a b r = r
  Reaches-set mask (suc n) a b ((e, used), r) =
      ((e, set_used a e used), Reaches-set mask n ((a + 1) % (mask + 1)) b r)

  pub Holds-set : (e : Entry) → Holds (set slots pos entry) e ↔ (Holds slots e ⊎ (entry ≡ some e))
  Holds-set e = (
    λ held.
        let (j, there) = held in
        elim (Bool-cases (pos == j)) [
          | inl same ↦ inr (
              sym (
                get_or-set slots pos j entry none inside
                ∙ ap (λ b. if b then entry else slot slots j) same)
              ∙ there)
          | inr other ↦ inl (
            j,
            sym (
                  get_or-set slots pos j entry none inside
                  ∙ ap (λ b. if b then entry else slot slots j) other)
                ∙ there,
          )
        ],
    λ either. elim either [
      | inl (j, there) ↦ (j, set_used j e there)
      | inr new ↦ (pos, set_here ∙ new)
    ],
  )

  pub IsTable-set :
      (mask n : ℕ)
      → n ≤ mask
      → IsTable slots mask
      → Reaches slots mask n (hash_of entry % (mask + 1)) pos
      → IsTable (set slots pos entry) mask
  IsTable-set mask n small ok reaches = record {
    capacity = length-set slots pos entry ∙ ok.capacity;
    placed = λ j e there. elim (Bool-cases (pos == j)) [
      | inl same ↦
          let new : entry ≡ some e =
            sym (
              get_or-set slots pos j entry none inside
              ∙ ap (λ b. if b then entry else slot slots j) same)
            ∙ there in
          (
            n,
            small,
            subst (Reaches (set slots pos entry) mask n (e.hashv % (mask + 1))) (==→eq pos j same) (
                subst (λ o. Reaches (set slots pos entry) mask n (hash_of o % (mask + 1)) pos) new
                  (Reaches-set mask n (hash_of entry % (mask + 1)) pos reaches)),
          )
      | inr other ↦
          let (k, few, r) = ok.placed j e (
            sym (
              get_or-set slots pos j entry none inside
              ∙ ap (λ b. if b then entry else slot slots j) other)
            ∙ there) in
          (k, few, Reaches-set mask k (e.hashv % (mask + 1)) j r)
    ];
  }

-- The loop for an empty slot finds one, in reach of where it starts.
pub free_slot :
    (slots : List (Option Entry)) (mask start : ℕ)
    → length slots ≡ mask + 1
    → count slots < length slots
    → start ≤ mask
    → (p n : ℕ) × (probe_empty (length slots) slots mask start ≡ some p)
      × (slot slots p ≡ none)
      × (p ≤ mask)
      × (n ≤ mask)
      × Reaches slots mask n start p
free_slot slots mask start capacity room small =
    let (q, inside, free) = empty_slot slots room in
    let (d, few, near) = ahead mask start q small (omega (arith, inside, capacity)) in
    let (p, n, found, empty, low, short, reaches) =
      probe_empty_lem slots mask (length slots) d start q (omega (arith, few, capacity)) small
        (omega (arith, inside, capacity)) near free in
    (p, n, found, empty, low, omega (arith, short, capacity), reaches)

abbrev IsPlacedIn : Option Entry → List (Option Entry) → ℕ → List (Option Entry) → Type 0
IsPlacedIn entry slots mask slots' =
    IsTable slots' mask
    × (count slots' ≡ count slots + count_one entry)
    × ((e : Entry) → Holds slots' e ↔ (Holds slots e ⊎ (entry ≡ some e)))

place_lem :
    (entry : Option Entry) (slots : List (Option Entry)) (mask : ℕ)
    → IsTable slots mask
    → count slots < length slots
    → (slots' : List (Option Entry)) × (place entry mask slots ≡ some slots')
      × IsPlacedIn entry slots mask slots'
unfolding place
place_lem entry slots mask ok room =
    let (p, n, found, empty, low, short, reaches) =
      free_slot slots mask (hash_of entry % (mask + 1)) ok.capacity room
        (omega (arith, mod-lt (hash_of entry) {m = mask + 1} (omega arith))) in
    let inside : p < length slots = omega (arith, low, ok.capacity) in
    (
      set slots p entry,
      ground (arith, found),
      (
        IsTable-set slots p entry inside empty mask n short ok reaches,
        count-set slots p entry inside empty,
        Holds-set slots p entry inside empty,
      ),
    )

pub not_held : (e : Entry) → ¬ Holds [] e
not_held e (pos, h) = cc

count-replicate : (n : ℕ) → count (replicate n none) ≡ 0
count-replicate zero = refl
count-replicate (suc n) = count-replicate n

replicate-slot : (n pos : ℕ) → slot (replicate n none) pos ≡ none
replicate-slot zero pos = refl
replicate-slot (suc n) zero = refl
replicate-slot (suc n) (suc pos) = replicate-slot n pos

-- A table with no entries.
pub empty-IsTable :
    (mask : ℕ)
    → IsTable (replicate (mask + 1) none) mask
      × (count (replicate (mask + 1) none) ≡ 0)
      × ((e : Entry) → ¬ Holds (replicate (mask + 1) none) e)
empty-IsTable mask = (
  record {
    capacity = length-replicate (mask + 1) none;
    placed = λ pos e there. absurd (no_entry e (pos, there));
  },
  count-replicate (mask + 1),
  no_entry,
)
  where
    no_entry : (e : Entry) → ¬ Holds (replicate (mask + 1) none) e
    no_entry e (pos, there) = let same = sym (replicate-slot (mask + 1) pos) ∙ there in cc

-- A table filled with the entries of a list holds what it held and the entries.
pub place_all_lem :
    (entries slots : List (Option Entry)) (mask : ℕ)
    → IsTable slots mask
    → count slots + count entries < length slots
    → (slots' : List (Option Entry)) × (place_all entries mask slots ≡ some slots')
      × IsTable slots' mask
      × (count slots' ≡ count slots + count entries)
      × ((e : Entry) → Holds slots' e ↔ (Holds slots e ⊎ Holds entries e))
unfolding place_all
place_all_lem [] slots mask ok room = (
  slots,
  refl,
  ok,
  omega arith,
  λ e. (inl, λ h. elim h [ inl a ↦ a | inr b ↦ absurd (not_held e b) ]),
)
place_all_lem (entry ∷ entries) slots mask ok room =
    let (slots', first, ok', count', held') = placed_first in
    let (slots'', rest, ok'', count'', held'') =
      place_all_lem entries slots' mask ok'
        (omega (arith, room, count', count-cons entry entries, ok.capacity, ok'.capacity)) in
    (
      slots'',
      ground (arith, first, rest),
      ok'',
      omega (arith, count'', count', count-cons entry entries),
      λ e. (
        λ h. elim ((held'' e).0 h) [
          | inl old ↦ elim ((held' e).0 old) [ inl a ↦ inl a | inr new ↦ inr (0, new) ]
          | inr later ↦ inr (suc later.0, later.1)
        ],
        λ h. elim h [
          | inl a ↦ (held'' e).1 (inl ((held' e).1 (inl a)))
          | inr listed ↦ elim (IsListed-cases e listed) [
            | inl new ↦ (held'' e).1 (inl ((held' e).1 (inr new)))
            | inr later ↦ (held'' e).1 (inr later)
          ]
        ],
      ),
    )
  where
    placed_first :
        (slots' : List (Option Entry)) × (place entry mask slots ≡ some slots')
        × IsTable slots' mask
        × (count slots' ≡ count slots + count_one entry)
        × ((e : Entry) → Holds slots' e ↔ (Holds slots e ⊎ (entry ≡ some e)))
    placed_first =
        let (slots', first, kept) = place_lem entry slots mask ok (omega (arith, room)) in
        (slots', first, kept.0, kept.1, kept.2)

    IsListed-cases : (e : Entry) → Holds (entry ∷ entries) e → (entry ≡ some e) ⊎ Holds entries e
    IsListed-cases e (zero, new) = inl new
    IsListed-cases e (suc pos, later) = inr (pos, later)
