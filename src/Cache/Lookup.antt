-- ===== src/Cache/Lookup.antt =====
-- The hash table as a map from keys to pointers.
use finiteflow.Base.{
  ℕ, zero, suc, List, [], ◌⊎◌, inl, inr, ◌≢◌, ◌↔◌, ◌+◌, ◌-◌, ◌*◌, ◌%◌, ◌^◌, ◌<◌, ◌≤◌, ◌≡◌, ap, sym,
  ◌∙◌, refl, arith, Option, none, some, length, set, replicate, subst,
}
use native.Mathlib.Nat.{mod-lt, two-pow-succ}
use finiteflow.Cache.{
  Pointer, Entry, UIntCache, get_new_outptr, init_first_, default_log2_cap, find, add_entry,
}
use finiteflow.Cache.Probing.{Holds, Reaches, ahead, probe_finds, probe_misses}
use finiteflow.Cache.Placement.{
  IsTable, count, empty_slot, free_slot, empty-IsTable, IsTable-set, Holds-set, count-set,
}

pub pow_pos : (k : ℕ) → 0 < 2 ^ k
pow_pos zero = omega arith
pow_pos (suc k) = omega (arith, two-pow-succ k, pow_pos k)

pub pow_next : (k : ℕ) → 2 ^ (k + 1) ≡ 2 * 2 ^ k
pow_next k =
    let e : k + 1 ≡ suc k = omega arith in ap (λ t. 2 ^ t) e ∙ omega (arith, two-pow-succ k)

pub first_log2cap : (c : UIntCache) (log2cap : ℕ) → (init_first_ c log2cap).log2cap_ ≡ some log2cap
unfolding init_first_
first_log2cap c log2cap = refl

pub first_size : (c : UIntCache) → (init_first_ c default_log2_cap).size_ ≡ c.size_
unfolding init_first_
first_size c = refl

-- The empty table of a capacity.
pub empty_of :
    (log2cap : ℕ)
    → IsTable (replicate (2 ^ log2cap) none) (2 ^ log2cap - 1)
      × (count (replicate (2 ^ log2cap) none) ≡ 0)
      × ((e : Entry) → ¬ Holds (replicate (2 ^ log2cap) none) e)
empty_of log2cap =
    let whole : 2 ^ log2cap - 1 + 1 ≡ 2 ^ log2cap = omega (arith, pow_pos log2cap) in
    subst
      (λ t.
        IsTable (replicate t none) (2 ^ log2cap - 1)
        × (count (replicate t none) ≡ 0)
        × ((e : Entry) → ¬ Holds (replicate t none) e))
      whole (empty-IsTable (2 ^ log2cap - 1))

module _ (get_hash_ : List ℕ → ℕ) where
  -- A table of `2 ^ log2cap` slots, at most half of them in use.
  pub record IsCacheOf (log2cap : ℕ) (c : UIntCache) : Type 0 where
    pub masked : c.mask_ + 1 ≡ 2 ^ log2cap
    pub table : IsTable c.data_ c.mask_
    pub counted : count c.data_ ≡ c.size_
    pub load : 2 * c.size_ ≤ 2 ^ log2cap
    pub hashed : (e : Entry) → Holds c.data_ e → e.hashv ≡ get_hash_ e.key
    pub unique : (e e' : Entry) → Holds c.data_ e → Holds c.data_ e' → e.key ≡ e'.key → e ≡ e'

  -- The same before the first entry, too.
  abbrev pub IsCacheBy : Option ℕ → UIntCache → Type 0
  IsCacheBy none c = (c.data_ ≡ []) × (c.size_ ≡ 0)
  IsCacheBy (some log2cap) c = IsCacheOf log2cap c

  abbrev pub IsCache : UIntCache → Type 0
  IsCache c = IsCacheBy c.log2cap_ c

  abbrev pub IsNew : UIntCache → List ℕ → Type 0
  IsNew c k = (e : Entry) → Holds c.data_ e → e.key ≢ k

  pub find_at :
      (c : UIntCache) (log2cap : ℕ)
      → c.log2cap_ ≡ some log2cap
      → IsCacheOf log2cap c
      → (e : Entry) → Holds c.data_ e
      → find get_hash_ c e.key ≡ some (some e.val)
  unfolding find
  find_at c log2cap there ok e (pos, stands) =
      let (n, few, reaches) = ok.table.placed pos e stands in
      let (p, e', found, stands', key) =
        probe_finds c.data_ c.mask_ (length c.data_) n (get_hash_ e.key % (c.mask_ + 1)) pos
          (get_hash_ e.key) e (omega (arith, few, ok.table.capacity))
          (subst (λ t. Reaches c.data_ c.mask_ n (t % (c.mask_ + 1)) pos)
            (ok.hashed e (pos, stands)) reaches)
          stands (ok.hashed e (pos, stands)) in
      let same : e' ≡ e = ok.unique e' e (p, stands') (pos, stands) key in
      ground (arith, there, found, ap (λ (t : Entry). t.val) same)

  pub find_new :
      (c : UIntCache) (log2cap : ℕ)
      → c.log2cap_ ≡ some log2cap
      → IsCacheOf log2cap c
      → (k : List ℕ) → IsNew c k
      → find get_hash_ c k ≡ some none
  unfolding find
  find_new c log2cap there ok k new =
      let (q, inside, free) =
        empty_slot c.data_
          (omega (arith, ok.counted, ok.load, ok.table.capacity, ok.masked, pow_pos log2cap)) in
      let start : get_hash_ k % (c.mask_ + 1) ≤ c.mask_ =
        omega (arith, mod-lt (get_hash_ k) {m = c.mask_ + 1} (omega arith)) in
      let (d, few, near) =
        ahead c.mask_ (get_hash_ k % (c.mask_ + 1)) q start
          (omega (arith, inside, ok.table.capacity)) in
      let (p, missed) =
        probe_misses c.data_ c.mask_ (length c.data_) d (get_hash_ k % (c.mask_ + 1)) q
          (get_hash_ k) k (omega (arith, few, ok.table.capacity)) start
          (omega (arith, inside, ok.table.capacity)) near free new in
      ground (arith, there, missed)

  -- An entry more.
  abbrev pub IsAdded : UIntCache → List ℕ → Pointer → UIntCache → Type 0
  IsAdded c xin ptr c' =
      (e : Entry)
      → Holds c'.data_ e
        ↔ (Holds c.data_ e ⊎ (record { hashv = get_hash_ xin; key = xin; val = ptr } ≡ e))

  added_unique :
      (c c' : UIntCache) (xin : List ℕ) (ptr : Pointer)
      → IsNew c xin
      → ((e e' : Entry) → Holds c.data_ e → Holds c.data_ e' → e.key ≡ e'.key → e ≡ e')
      → IsAdded c xin ptr c'
      → (e e' : Entry) → Holds c'.data_ e
      → Holds c'.data_ e'
      → e.key ≡ e'.key
      → e ≡ e'
  added_unique c c' xin ptr new unique added e e' h h' same = elim ((added e).0 h) [
    | inl old ↦ elim ((added e').0 h') [
      | inl old' ↦ unique e e' old old' same
      | inr new' ↦ absurd (new e old (same ∙ sym (ap (λ (t : Entry). t.key) new')))
    ]
    | inr made ↦ elim ((added e').0 h') [
      | inl old' ↦ absurd (new e' old' (sym same ∙ sym (ap (λ (t : Entry). t.key) made)))
      | inr made' ↦ sym made ∙ made'
    ]
  ]

  pub add_entry_lem :
      (c : UIntCache) (log2cap : ℕ) (xin : List ℕ) (nparsout : ℕ)
      → c.log2cap_ ≡ some log2cap
      → IsCacheOf log2cap c
      → 2 * (c.size_ + 1) ≤ 2 ^ log2cap
      → IsNew c xin
      → (ptr : Pointer) × (c' : UIntCache) × (add_entry get_hash_ c xin nparsout ≡ some (ptr, c'))
        × IsCacheOf log2cap c'
        × (c'.log2cap_ ≡ some log2cap)
        × IsAdded c xin ptr c'
  unfolding add_entry get_new_outptr
  add_entry_lem c log2cap xin nparsout there ok room new =
      let start : get_hash_ xin % (c.mask_ + 1) ≤ c.mask_ =
        omega (arith, mod-lt (get_hash_ xin) {m = c.mask_ + 1} (omega arith)) in
      let (p, n, found, free, low, short, reaches) =
        free_slot c.data_ c.mask_ (get_hash_ xin % (c.mask_ + 1)) ok.table.capacity
          (omega (arith, ok.counted, ok.load, ok.table.capacity, ok.masked, pow_pos log2cap))
          start in
      let inside : p < length c.data_ = omega (arith, low, ok.table.capacity) in
      let ptr = (get_new_outptr c nparsout).0 in
      let entry : Option Entry = some (record { hashv = get_hash_ xin; key = xin; val = ptr }) in
      let c' : UIntCache = record ((get_new_outptr c nparsout).1) {
        data_ = set c.data_ p entry;
        size_ = c.size_ + 1;
      } in
      let added : IsAdded c xin ptr c' = λ e. (
        λ h. elim ((Holds-set c.data_ p entry inside free e).0 h) [
          | inl old ↦ inl old
          | inr made ↦ inr (some_inj made)
        ],
        λ h.
            (Holds-set c.data_ p entry inside free e).1
              (elim h [ inl old ↦ inl old | inr made ↦ inr (ap some made) ]),
      ) in
      (
        ptr,
        c',
        ground (arith, found),
        record {
          masked = ok.masked;
          table = IsTable-set c.data_ p entry inside free c.mask_ n short ok.table reaches;
          counted = count-set c.data_ p entry inside free ∙ ap (λ t. t + 1) ok.counted;
          load = room;
          hashed = λ e h. elim ((added e).0 h) [
            | inl old ↦ ok.hashed e old
            | inr made ↦
                sym (ap (λ (t : Entry). t.hashv) made) ∙ ap (λ (t : Entry). get_hash_ t.key) made
          ];
          unique = added_unique c c' xin ptr new ok.unique added;
        },
        there,
        added,
      )
    where
      some_inj : {a b : Entry} → some a ≡ some b → a ≡ b
      some_inj h = cc
