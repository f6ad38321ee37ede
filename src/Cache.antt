-- ===== src/Cache.antt =====
-- include/fflow/function_cache.hh and src/function_cache.cc: the hash table of sample points. A pointer is
-- a chunk and an offset in it; the words that are written through pointers are no part of the state, but
-- each entry holds the words that its key had when it was registered. `mask_` is one less than a power of
-- two, so `hash & mask_` is a remainder. SpookyHash is a parameter, as are the loads that it reads.
pub mod Probing
pub mod Placement
pub mod Lookup
pub mod Growth
pub mod Contract
mod Examples
use finiteflow.Base.{
  ℕ, zero, suc, List, [], ◌∷◌, ◌++◌, ◌+◌, ◌-◌, ◌*◌, ◌/◌, ◌%◌, ◌^◌, Bool, true, false, ◌&&◌, Option,
  none, some, ltb, ◌==◌, length, get_or, set, replicate, take, if◌then◌else◌,
}

pub record Pointer : Type 0 where
  pub chunk : ℕ
  pub offset : ℕ

-- class UIntAlloc: the sizes of the chunks, and the free rest of the last one.
pub record UIntAlloc : Type 0 where
  pub chunks_ : List ℕ
  pub free_mem_start_ : Pointer
  pub free_mem_end_ : ℕ

abbrev pub default_chunk_size : ℕ
default_chunk_size = 512

abbrev pub free_mem_ : UIntAlloc → ℕ
free_mem_ al = al.free_mem_end_ - al.free_mem_start_.offset

unfoldable pub reserve_more_words : UIntAlloc → ℕ → UIntAlloc
reserve_more_words al n = record {
  chunks_ = al.chunks_ ++ n ∷ [];
  free_mem_start_ = record { chunk = length al.chunks_; offset = 0 };
  free_mem_end_ = n;
}

unfoldable pub alloc : UIntAlloc → ℕ → Pointer × UIntAlloc
unfolding reserve_more_words
alloc al n =
    let al' : UIntAlloc =
      if ltb (free_mem_ al) n
      then reserve_more_words al (default_chunk_size * (n / default_chunk_size + 1))
      else al in
    let start = al'.free_mem_start_ in
    (start, record al' { free_mem_start_ = record start { offset = start.offset + n } })

-- struct Entry that is not empty
pub record Entry : Type 0 where
  pub hashv : ℕ
  pub key : List ℕ
  pub val : Pointer

-- class UIntCache. `log2cap_` is none for `EMPTY_`.
pub record UIntCache : Type 0 where
  pub data_ : List (Option Entry)
  pub mask_ : ℕ
  pub size_ : ℕ
  pub alloc_uint64_ : ℕ
  pub nparsin_ : ℕ
  pub log2cap_ : Option ℕ
  pub alloc_ : UIntAlloc

abbrev pub slot : List (Option Entry) → ℕ → Option Entry
slot slots pos = get_or slots pos none

unfoldable pub get_new_outptr : UIntCache → ℕ → Pointer × UIntCache
unfolding alloc
get_new_outptr c nparsout =
    let (ptr, al) = alloc c.alloc_ nparsout in
    (ptr, record c { alloc_uint64_ = c.alloc_uint64_ + nparsout; alloc_ = al })

-- `std::equal` on the words of two keys
abbrev pub equal_keys : List ℕ → List ℕ → Bool
equal_keys [] [] = true
equal_keys [] (y ∷ ys) = false
equal_keys (x ∷ xs) [] = false
equal_keys (x ∷ xs) (y ∷ ys) = (x == y) && equal_keys xs ys

abbrev pub is_in_pos_ : List ℕ → ℕ → Entry → Bool
is_in_pos_ x hash entry = (entry.hashv == hash) && equal_keys x entry.key

pub data Probe : Type 0 where
  at_empty : ℕ → Probe
  at_entry : ℕ → Entry → Probe
  endless : Probe

-- The loop of `find` and `set_entry`. It has one round for each slot.
unfoldable pub probe : ℕ → List (Option Entry) → ℕ → List ℕ → ℕ → ℕ → Probe
probe zero slots mask x hash pos = endless
probe (suc fuel) slots mask x hash pos =
    let rest = probe fuel slots mask x hash ((pos + 1) % (mask + 1)) in
    elim (slot slots pos) [
      | none ↦ at_empty pos
      | some entry ↦ if is_in_pos_ x hash entry then at_entry pos entry else rest
    ]

-- The loop for an empty slot in `new_entry` and `rehash_`.
unfoldable pub probe_empty : ℕ → List (Option Entry) → ℕ → ℕ → Option ℕ
probe_empty zero slots mask pos = none
probe_empty (suc fuel) slots mask pos =
    let rest = probe_empty fuel slots mask ((pos + 1) % (mask + 1)) in
    elim (slot slots pos) [ none ↦ some pos | some entry ↦ rest ]

-- A copy of an entry to the first empty slot from its own on. An empty entry has the hash 0.
abbrev pub hash_of : Option Entry → ℕ
hash_of none = 0
hash_of (some entry) = entry.hashv

unfoldable pub place : Option Entry → ℕ → List (Option Entry) → Option (List (Option Entry))
unfolding probe_empty
place entry mask slots = elim (probe_empty (length slots) slots mask (hash_of entry % (mask + 1))) [
  | none ↦ none
  | some pos ↦ some (set slots pos entry)
]

-- The loop of `rehash_` over the old entries, the empty ones too.
unfoldable pub place_all :
    List (Option Entry) → ℕ → List (Option Entry) → Option (List (Option Entry))
unfolding place
place_all [] mask slots = some slots
place_all (entry ∷ entries) mask slots = elim (place entry mask slots) [
  | none ↦ none
  | some slots' ↦ place_all entries mask slots'
]

unfoldable pub rehash_ : UIntCache → ℕ → Option UIntCache
unfolding place_all
rehash_ c log2cap = elim (place_all c.data_ (2 ^ log2cap - 1) (replicate (2 ^ log2cap) none)) [
  | none ↦ none
  | some slots ↦ some (record c { data_ = slots; log2cap_ = some log2cap; mask_ = 2 ^ log2cap - 1 })
]

abbrev pub default_log2_cap : ℕ
default_log2_cap = 7

-- `data_.resize(cap)`, when there are no slots
unfoldable pub init_first_ : UIntCache → ℕ → UIntCache
init_first_ c log2cap = record c {
  log2cap_ = some log2cap;
  mask_ = 2 ^ log2cap - 1;
  data_ = replicate (2 ^ log2cap) none;
}

-- `double(size)/double(cap) > load_factor_`, with the load factor 1/2
abbrev pub overloaded : ℕ → ℕ → Bool
overloaded size log2cap = ltb (2 ^ log2cap) (2 * size)

module _ (get_hash_ : List ℕ → ℕ) where
  -- None is a loop that does not end; then the pointer to the value, if the key was found.
  unfoldable pub find : UIntCache → List ℕ → Option (Option Pointer)
  unfolding probe
  find c xin = elim c.log2cap_ [
    | none ↦ some none
    | some log2cap ↦
        elim (probe (length c.data_) c.data_ c.mask_ xin (get_hash_ xin)
          (get_hash_ xin % (c.mask_ + 1))) [
            | endless ↦ none
            | at_empty pos ↦ some none
            | at_entry pos entry ↦ some (some entry.val)
          ]
  ]

  -- The slots of `new_entry` are there, and there is room.
  unfoldable pub add_entry : UIntCache → List ℕ → ℕ → Option (Pointer × UIntCache)
  unfolding probe_empty get_new_outptr
  add_entry c xin nparsout =
      let hash = get_hash_ xin in
      elim (probe_empty (length c.data_) c.data_ c.mask_ (hash % (c.mask_ + 1))) [
        | none ↦ none
        | some pos ↦
            let (ptr, c') = get_new_outptr c nparsout in
            some (
              ptr,
              record c' {
                data_ = set c.data_ pos (some (record { hashv = hash; key = xin; val = ptr }));
                size_ = c.size_ + 1;
              },
            )
      ]

  unfoldable pub new_entry : UIntCache → List ℕ → ℕ → Option (Pointer × UIntCache)
  unfolding add_entry rehash_ init_first_
  new_entry c xin nparsout = elim c.log2cap_ [
    | none ↦ add_entry (init_first_ c default_log2_cap) xin nparsout
    | some log2cap ↦ elim (overloaded (c.size_ + 1) log2cap) [
      | false ↦ add_entry c xin nparsout
      | true ↦ elim (rehash_ c (log2cap + 1)) [ none ↦ none | some c' ↦ add_entry c' xin nparsout ]
    ]
  ]

  -- The flag `found`, and the new pointer to the value; the registered key has the words of `xin`. Where
  -- there are no slots, nothing is registered.
  unfoldable pub set_entry : UIntCache → List ℕ → ℕ → Option (Bool × Option Pointer × UIntCache)
  unfolding new_entry probe get_new_outptr alloc
  set_entry c xin nparsout = elim c.log2cap_ [
    | none ↦ some (false, none, c)
    | some log2cap ↦
        elim (probe (length c.data_) c.data_ c.mask_ xin (get_hash_ xin)
          (get_hash_ xin % (c.mask_ + 1))) [
            | endless ↦ none
            | at_entry pos entry ↦
                let (ptr, c') = get_new_outptr c nparsout in
                some (
                  true,
                  some ptr,
                  record c' { data_ = set c.data_ pos (some (record entry { val = ptr })) },
                )
            | at_empty pos ↦
                let (key_ptr, al) = alloc c.alloc_ c.nparsin_ in
                elim (new_entry
                  (record c { alloc_uint64_ = c.alloc_uint64_ + c.nparsin_; alloc_ = al }) xin
                  nparsout) [ none ↦ none | some (ptr, c') ↦ some (false, some ptr, c') ]
          ]
  ]

-- The loop over `i`, for the 31 shifts of a 32-bit one that are defined. None is a shift by 32.
unfoldable pub next_pow_of_2_from : ℕ → ℕ → ℕ → Option ℕ
next_pow_of_2_from zero i x = none
next_pow_of_2_from (suc fuel) i x =
    let rest = next_pow_of_2_from fuel (i + 1) x in if ltb (2 ^ i) x then rest else some i

unfoldable pub next_pow_of_2 : ℕ → Option ℕ
unfolding next_pow_of_2_from
next_pow_of_2 x = next_pow_of_2_from 31 1 x

-- The slots that `reserve_more` makes. None is also a capacity that is not found.
unfoldable pub reserve_slots : UIntCache → ℕ → Option UIntCache
unfolding rehash_ init_first_ next_pow_of_2
reserve_slots c n =
    let newsize = c.size_ + n in
    let wanted = next_pow_of_2 (2 * (newsize + 1)) in
    elim c.log2cap_ [
      | none ↦ elim wanted [ none ↦ none | some log2cap' ↦ some (init_first_ c log2cap') ]
      | some log2cap ↦ elim (overloaded newsize log2cap) [
        | false ↦ some c
        | true ↦ elim wanted [ none ↦ none | some log2cap' ↦ rehash_ c log2cap' ]
      ]
    ]

unfoldable pub reserve_more : UIntCache → ℕ → ℕ → Option UIntCache
unfolding reserve_slots reserve_more_words
reserve_more c n allocate = elim (reserve_slots c n) [
  | none ↦ none
  | some c' ↦ some (record c' {
    alloc_ = if allocate == 0 then c'.alloc_ else reserve_more_words c'.alloc_ allocate;
  })
]
