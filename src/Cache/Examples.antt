-- ===== src/Cache/Examples.antt =====
-- A hash table that hashes a key to its first word.
use finiteflow.Base.{
  ℕ, zero, suc, List, [], ◌∷◌, ◌⊎◌, ◌≢◌, ◌≡◌, ap, ◌∙◌, refl, sym, arith, ◌%◌, ◌+◌, ◌*◌, length, ◌≤◌,
  none, some, get_or,
}
use finiteflow.Cache.{Pointer, Entry, UIntCache, slot, find, new_entry, reserve_more}
use finiteflow.Cache.Probing.{Holds, Reaches}
use finiteflow.Cache.Lookup.{IsCache, IsNew}
use finiteflow.Cache.Contract.{find_lem, new_entry-find, reserve_more-find}

abbrev first_word : List ℕ → ℕ
first_word k = get_or k 0 0

abbrev stored : Entry
stored = record { hashv = 6; key = 6 ∷ []; val = record { chunk = 0; offset = 1 } }

-- Half of its two slots is in use.
abbrev one_entry : UIntCache
one_entry = record {
  data_ = some stored ∷ none ∷ [];
  mask_ = 1;
  size_ = 1;
  alloc_uint64_ = 2;
  nparsin_ = 1;
  log2cap_ = some 1;
  alloc_ = record {
    chunks_ = 512 ∷ [];
    free_mem_start_ = record { chunk = 0; offset = 2 };
    free_mem_end_ = 512;
  };
}

only_stored : (e : Entry) → Holds one_entry.data_ e → stored ≡ e
only_stored e (zero, there) = cc
only_stored e (suc zero, there) = cc
only_stored e (suc (suc pos), there) = cc

one_entry-IsCache : IsCache first_word one_entry
one_entry-IsCache = record {
  masked = refl;
  table = record { capacity = refl; placed = placed };
  counted = refl;
  load = omega arith;
  hashed = λ e h.
      ap (λ (t : Entry). t.hashv) (sym (only_stored e h))
      ∙ ap (λ (t : Entry). first_word t.key) (only_stored e h);
  unique = λ e e' h h' same. sym (only_stored e h) ∙ only_stored e' h';
}
  where
    placed :
        (pos : ℕ) (e : Entry)
        → slot one_entry.data_ pos ≡ some e
        → (n : ℕ) × (n ≤ 1) × Reaches one_entry.data_ 1 n (e.hashv % (1 + 1)) pos
    placed zero e there =
        (0, omega arith, ap (λ (t : Entry). t.hashv % 2) (sym (only_stored e (0, there))))
    placed (suc zero) e there = cc
    placed (suc (suc pos)) e there = cc

find_lem_example :
    ((e : Entry) × Holds one_entry.data_ e
      × (e.key ≡ 8 ∷ [])
      × (find first_word one_entry (8 ∷ []) ≡ some (some e.val)))
    ⊎ (IsNew first_word one_entry (8 ∷ []) × (find first_word one_entry (8 ∷ []) ≡ some none))
find_lem_example = find_lem first_word one_entry one_entry-IsCache (8 ∷ [])

eight-IsNew : IsNew first_word one_entry (8 ∷ [])
eight-IsNew e h same =
    let word = ap (λ (t : Entry). first_word t.key) (only_stored e h) ∙ ap first_word same in
    absurd (omega (arith, word))

new_entry-find_example :
    (ptr : Pointer) × (c' : UIntCache) × (new_entry first_word one_entry (8 ∷ []) 3
      ≡ some (ptr, c'))
    × IsCache first_word c'
    × (find first_word c' (8 ∷ []) ≡ some (some ptr))
    × ((y : List ℕ) → y ≢ 8 ∷ [] → find first_word c' y ≡ find first_word one_entry y)
new_entry-find_example =
    new_entry-find first_word one_entry (8 ∷ []) 3 one_entry-IsCache eight-IsNew

-- The table is rehashed, and the two keys share a slot.
runs :
    find first_word
      (elim (new_entry first_word one_entry (10 ∷ []) 3) [ none ↦ one_entry | some (ptr, c) ↦ c ])
      (10 ∷ [])
    ≡ some (some (record { chunk = 0; offset = 2 }))
unfolding find new_entry
runs = refl

reserve_more-find_example :
    (c' : UIntCache) × (reserve_more one_entry 5 100 ≡ some c')
    × IsCache first_word c'
    × ((y : List ℕ) → find first_word c' y ≡ find first_word one_entry y)
    × (2 * (1 + 5) ≤ length c'.data_)
reserve_more-find_example =
    reserve_more-find first_word one_entry 5 100 one_entry-IsCache (omega arith)
