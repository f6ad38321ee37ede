-- ===== src/Cache/Contract.antt =====
-- What the hash table promises: a map from keys to pointers that only grows.
use finiteflow.Base.{
  ℕ, zero, suc, List, [], ◌∷◌, true, false, ◌⊎◌, inl, inr, ◌≢◌, ◌↔◌, ◌≡◌, ap, sym, ◌∙◌, refl, arith,
  Option, none, some, ◌+◌, ◌*◌, ◌^◌, ◌≤◌, ◌==◌, ltb, ltb→le, ltb→lt, length, if◌then◌else◌,
  Bool-cases, Option-cases, subst,
}
use finiteflow.Cache.{
  Pointer, Entry, UIntCache, equal_keys, find, new_entry, init_first_, overloaded, next_pow_of_2,
  next_pow_of_2_from, reserve_more_words, reserve_slots, reserve_more,
}
use finiteflow.Cache.Probing.{Holds, equal_keys_refl, equal_keys-eq}
use finiteflow.Cache.Placement.{not_held}
use finiteflow.Cache.Lookup.{IsCacheOf, IsCacheBy, IsCache, IsNew, find_at, find_new, first_log2cap}
use finiteflow.Cache.Growth.{IsEntered, new_entry_first, new_entry_next, first_lem, rehash_lem}

abbrev IsListed : List (Option Entry) → List ℕ → Type 0
IsListed slots k =
    ((e : Entry) × Holds slots e × (e.key ≡ k)) ⊎ ((e : Entry) → Holds slots e → e.key ≢ k)

unlisted_cons :
    (o : Option Entry) (slots : List (Option Entry)) (k : List ℕ)
    → ((e : Entry) → o ≡ some e → e.key ≢ k)
    → ((e : Entry) → Holds slots e → e.key ≢ k)
    → (e : Entry) → Holds (o ∷ slots) e
    → e.key ≢ k
unlisted_cons o slots k first later e (zero, there) = first e there
unlisted_cons o slots k first later e (suc pos, there) = later e (pos, there)

some_inj : {a b : Entry} → some a ≡ some b → a ≡ b
some_inj h = cc

other_key : (e : Entry) (k : List ℕ) → equal_keys e.key k ≡ false → e.key ≢ k
other_key e k other same =
    let equal = subst (λ t. equal_keys e.key t ≡ true) same (equal_keys_refl e.key) in cc

IsListed-cases : (slots : List (Option Entry)) (k : List ℕ) → IsListed slots k
IsListed-cases [] k = inr (λ e h. absurd (not_held e h))
IsListed-cases (none ∷ slots) k = elim (IsListed-cases slots k) [
  | inl (e, (pos, there), same) ↦ inl (e, (suc pos, there), same)
  | inr new ↦ inr (unlisted_cons none slots k (λ e h. cc) new)
]
IsListed-cases (some e ∷ slots) k = elim (Bool-cases (equal_keys e.key k)) [
  | inl same ↦ inl (e, (0, refl), equal_keys-eq e.key k same)
  | inr other ↦ elim (IsListed-cases slots k) [
    | inl (e', (pos, there), same) ↦ inl (e', (suc pos, there), same)
    | inr new ↦ inr (
        unlisted_cons (some e) slots k
          (λ e' h same. other_key e k other (ap (λ (t : Entry). t.key) (some_inj h) ∙ same)) new)
  ]
]

find-none :
    (get_hash_ : List ℕ → ℕ) (c : UIntCache) (k : List ℕ)
    → c.log2cap_ ≡ none
    → (c.data_ ≡ []) × (c.size_ ≡ 0)
    → IsNew get_hash_ c k × (find get_hash_ c k ≡ some none)
unfolding find
find-none get_hash_ c k there (no_slots, no_entries) =
    (λ e h. absurd (not_held e (subst (λ l. Holds l e) no_slots h)), ground (arith, there))

-- For any hash function and a table that keeps its invariant, each key has one answer: it stands in the
-- table, and `find` gives the pointer that stands with it, or it does not, and `find` says so. The loop
-- always ends.
pub find_lem :
    (get_hash_ : List ℕ → ℕ) (c : UIntCache)
    → IsCache get_hash_ c
    → (k : List ℕ)
    → ((e : Entry) × Holds c.data_ e × (e.key ≡ k) × (find get_hash_ c k ≡ some (some e.val)))
      ⊎ (IsNew get_hash_ c k × (find get_hash_ c k ≡ some none))
find_lem get_hash_ c ok k = elim (Option-cases c.log2cap_) [
  | inl there ↦ inr (find-none get_hash_ c k there (subst (λ o. IsCacheBy get_hash_ o c) there ok))
  | inr (log2cap, there) ↦
      let ok' : IsCacheOf get_hash_ log2cap c = subst (λ o. IsCacheBy get_hash_ o c) there ok in
      elim (IsListed-cases c.data_ k) [
        | inl (e, held, same) ↦ inl (
          e,
          held,
          same,
          subst (λ x. find get_hash_ c x ≡ some (some e.val)) same
              (find_at get_hash_ c log2cap there ok' e held),
        )
        | inr new ↦ inr (new, find_new get_hash_ c log2cap there ok' k new)
      ]
]

entered :
    (get_hash_ : List ℕ → ℕ) (c : UIntCache) (xin : List ℕ) (nparsout : ℕ)
    → IsCache get_hash_ c
    → IsNew get_hash_ c xin
    → IsEntered get_hash_ c xin nparsout
entered get_hash_ c xin nparsout ok new = elim (Option-cases c.log2cap_) [
  | inl there ↦
      new_entry_first get_hash_ c xin nparsout there (subst (λ o. IsCacheBy get_hash_ o c) there ok)
  | inr (log2cap, there) ↦
      new_entry_next get_hash_ c log2cap xin nparsout there
        (subst (λ o. IsCacheBy get_hash_ o c) there ok) new
]

-- For any hash function, a table that keeps its invariant, and a key that does not stand in it:
-- `new_entry` ends and gives a pointer, and a table that keeps the invariant, in which `find` gives this
-- pointer for the key, and for all other keys what it gave before. The table may be rehashed.
pub new_entry-find :
    (get_hash_ : List ℕ → ℕ) (c : UIntCache) (xin : List ℕ) (nparsout : ℕ)
    → IsCache get_hash_ c
    → IsNew get_hash_ c xin
    → (ptr : Pointer) × (c' : UIntCache) × (new_entry get_hash_ c xin nparsout ≡ some (ptr, c'))
      × IsCache get_hash_ c'
      × (find get_hash_ c' xin ≡ some (some ptr))
      × ((y : List ℕ) → y ≢ xin → find get_hash_ c' y ≡ find get_hash_ c y)
new_entry-find get_hash_ c xin nparsout ok new =
    let (ptr, c', done, log2cap, ok', there, added) = entered get_hash_ c xin nparsout ok new in
    (
      ptr,
      c',
      done,
      subst (λ o. IsCacheBy get_hash_ o c') (sym there) ok',
      find_at get_hash_ c' log2cap there ok'
          (record { hashv = get_hash_ xin; key = xin; val = ptr })
          ((added (record { hashv = get_hash_ xin; key = xin; val = ptr })).1 (inr refl)),
      λ y other. elim (find_lem get_hash_ c ok y) [
        | inl (e, held, same, found) ↦
            subst (λ k. find get_hash_ c' k ≡ some (some e.val)) same
              (find_at get_hash_ c' log2cap there ok' e ((added e).1 (inl held)))
            ∙ sym found
        | inr (absent, missed) ↦
            find_new get_hash_ c' log2cap there ok' y (λ e h same. elim ((added e).0 h) [
              | inl old ↦ absent e old same
              | inr made ↦ other (sym same ∙ sym (ap (λ (t : Entry). t.key) made))
            ])
            ∙ sym missed
      ],
    )

-- A table with the same entries gives the same answers.
same_answers :
    (get_hash_ : List ℕ → ℕ) (c c' : UIntCache) (log2cap : ℕ)
    → IsCache get_hash_ c
    → c'.log2cap_ ≡ some log2cap
    → IsCacheOf get_hash_ log2cap c'
    → ((e : Entry) → Holds c'.data_ e ↔ Holds c.data_ e)
    → (y : List ℕ) → find get_hash_ c' y ≡ find get_hash_ c y
same_answers get_hash_ c c' log2cap ok there ok' kept y = elim (find_lem get_hash_ c ok y) [
  | inl (e, held, same, found) ↦
      subst (λ k. find get_hash_ c' k ≡ some (some e.val)) same
        (find_at get_hash_ c' log2cap there ok' e ((kept e).1 held))
      ∙ sym found
  | inr (absent, missed) ↦
      find_new get_hash_ c' log2cap there ok' y (λ e h. absent e ((kept e).0 h)) ∙ sym missed
]

-- The loop ends within the shifts that are defined, with a power of two that is large enough.
next_pow_of_2_from-le :
    (fuel i x : ℕ)
    → x ≤ 2 ^ (i + fuel)
    → (k : ℕ) × (next_pow_of_2_from (suc fuel) i x ≡ some k) × (x ≤ 2 ^ k)
unfolding next_pow_of_2_from
next_pow_of_2_from-le zero i x h = elim (Bool-cases (ltb (2 ^ i) x)) [
  | inl more ↦
      absurd (omega (arith, ltb→lt (2 ^ i) x more, subst (λ t. x ≤ 2 ^ t) {y = i} (omega arith) h))
  | inr enough ↦ (i, ap (λ b. if b then none else some i) enough, ltb→le (2 ^ i) x enough)
]
next_pow_of_2_from-le (suc fuel) i x h = elim (Bool-cases (ltb (2 ^ i) x)) [
  | inl more ↦
      let (k, found, large) =
        next_pow_of_2_from-le fuel (i + 1) x (subst (λ t. x ≤ 2 ^ t) (omega arith) h) in
      (
        k,
        ap (λ b. if b then next_pow_of_2_from (suc fuel) (i + 1) x else some i) more ∙ found,
        large,
      )
  | inr enough ↦ (
    i,
    ap (λ b. if b then next_pow_of_2_from (suc fuel) (i + 1) x else some i) enough,
    ltb→le (2 ^ i) x enough,
  )
]

next_pow_of_2-le : (x : ℕ) → x ≤ 2 ^ 31 → (k : ℕ) × (next_pow_of_2 x ≡ some k) × (x ≤ 2 ^ k)
unfolding next_pow_of_2
next_pow_of_2-le x h = next_pow_of_2_from-le 30 1 x h

-- The table has the same entries, and room for `n` more.
abbrev HasRoom : (List ℕ → ℕ) → UIntCache → ℕ → UIntCache → Type 0
HasRoom get_hash_ c n c' =
    (log2cap : ℕ) × (c'.log2cap_ ≡ some log2cap)
    × IsCacheOf get_hash_ log2cap c'
    × ((e : Entry) → Holds c'.data_ e ↔ Holds c.data_ e)
    × (2 * (c.size_ + n) ≤ 2 ^ log2cap)

reserve_slots_lem :
    (get_hash_ : List ℕ → ℕ) (c : UIntCache) (n : ℕ)
    → IsCache get_hash_ c
    → 2 * (c.size_ + n + 1) ≤ 2 ^ 31
    → (c' : UIntCache) × (reserve_slots c n ≡ some c') × HasRoom get_hash_ c n c'
unfolding reserve_slots
reserve_slots_lem get_hash_ c n ok small =
    let (wanted, found, large) = next_pow_of_2-le (2 * (c.size_ + n + 1)) small in
    elim (Option-cases c.log2cap_) [
      | inl there ↦
          let (ok', kept) =
            first_lem get_hash_ c wanted (subst (λ o. IsCacheBy get_hash_ o c) there ok) in
          (
            init_first_ c wanted,
            ground (arith, there, found),
            (wanted, first_log2cap c wanted, ok', kept, omega (arith, large)),
          )
      | inr (log2cap, there) ↦
          let ok' : IsCacheOf get_hash_ log2cap c = subst (λ o. IsCacheBy get_hash_ o c) there ok in
          elim (Bool-cases (overloaded (c.size_ + n) log2cap)) [
            | inr room ↦ (
              c,
              ground (arith, there, room),
              (
                log2cap,
                there,
                ok',
                λ e. (λ h. h, λ h. h),
                ltb→le (2 ^ log2cap) (2 * (c.size_ + n)) room,
              ),
            )
            | inl full ↦
                let (c', done, ok'', there', size', kept) =
                  rehash_lem get_hash_ c log2cap wanted ok' (omega (arith, large)) in
                (
                  c',
                  ground (arith, there, full, found, done),
                  (wanted, there', ok'', kept, omega (arith, large)),
                )
          ]
    ]

-- For any hash function and a table that keeps its invariant, where twice the size with `n` more entries
-- and one is at most 2^31: `reserve_more` ends and gives a table that keeps the invariant, with the same
-- answers, in which the `n` entries are at most half of the slots.
pub reserve_more-find :
    (get_hash_ : List ℕ → ℕ) (c : UIntCache) (n allocate : ℕ)
    → IsCache get_hash_ c
    → 2 * (c.size_ + n + 1) ≤ 2 ^ 31
    → (c' : UIntCache) × (reserve_more c n allocate ≡ some c')
      × IsCache get_hash_ c'
      × ((y : List ℕ) → find get_hash_ c' y ≡ find get_hash_ c y)
      × (2 * (c.size_ + n) ≤ length c'.data_)
unfolding reserve_more
reserve_more-find get_hash_ c n allocate ok small =
    let (c', done, log2cap, there, ok', kept, room) = reserved in
    let c'' : UIntCache = record c' {
      alloc_ = if allocate == 0 then c'.alloc_ else reserve_more_words c'.alloc_ allocate;
    } in
    let ok'' : IsCacheOf get_hash_ log2cap c'' = record {
      masked = ok'.masked;
      table = ok'.table;
      counted = ok'.counted;
      load = ok'.load;
      hashed = ok'.hashed;
      unique = ok'.unique;
    } in
    (
      c'',
      ground (arith, done),
      subst (λ o. IsCacheBy get_hash_ o c'') (sym there) ok'',
      same_answers get_hash_ c c'' log2cap ok there ok'' kept,
      omega (arith, room, ok'.table.capacity, ok'.masked),
    )
  where
    reserved :
        (c' : UIntCache) × (reserve_slots c n ≡ some c')
        × (log2cap : ℕ) × (c'.log2cap_ ≡ some log2cap)
        × IsCacheOf get_hash_ log2cap c'
        × ((e : Entry) → Holds c'.data_ e ↔ Holds c.data_ e)
        × (2 * (c.size_ + n) ≤ 2 ^ log2cap)
    reserved =
        let (c', done, room) = reserve_slots_lem get_hash_ c n ok small in
        (c', done, room.0, room.1, room.2, room.3, room.4)
