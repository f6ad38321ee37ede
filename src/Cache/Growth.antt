-- ===== src/Cache/Growth.antt =====
-- The hash table after it has got more slots.
use finiteflow.Base.{
  ℕ, List, [], inl, inr, ◌↔◌, ◌+◌, ◌-◌, ◌*◌, ◌^◌, ◌≤◌, ◌≡◌, sym, ◌∙◌, refl, arith, none, some,
  replicate, Bool-cases, subst, ltb→le,
}
use finiteflow.Cache.{
  Pointer, Entry, UIntCache, rehash_, init_first_, default_log2_cap, overloaded, new_entry,
}
use finiteflow.Cache.Probing.{Holds}
use finiteflow.Cache.Placement.{place_all_lem, not_held}
use finiteflow.Cache.Lookup.{
  pow_pos, pow_next, first_log2cap, first_size, empty_of, IsCacheOf, IsNew, IsAdded, add_entry_lem,
}

module _ (get_hash_ : List ℕ → ℕ) where
  -- What `rehash_` and `init_first_` keep.
  pub rehash_lem :
      (c : UIntCache) (log2cap log2cap' : ℕ)
      → IsCacheOf get_hash_ log2cap c
      → 2 * c.size_ ≤ 2 ^ log2cap'
      → (c' : UIntCache) × (rehash_ c log2cap' ≡ some c')
        × IsCacheOf get_hash_ log2cap' c'
        × (c'.log2cap_ ≡ some log2cap')
        × (c'.size_ ≡ c.size_)
        × ((e : Entry) → Holds c'.data_ e ↔ Holds c.data_ e)
  unfolding rehash_
  rehash_lem c log2cap log2cap' ok room =
      let mask : ℕ = 2 ^ log2cap' - 1 in
      let whole : mask + 1 ≡ 2 ^ log2cap' = omega (arith, pow_pos log2cap') in
      let (table, none_used, none_held) = empty_of log2cap' in
      let (slots, done, table', counted', held) =
        place_all_lem c.data_ (replicate (2 ^ log2cap') none) mask table
          (omega (arith, none_used, ok.counted, room, table.capacity, whole, pow_pos log2cap')) in
      let kept : (e : Entry) → Holds slots e ↔ Holds c.data_ e = λ e. (
        λ h. elim ((held e).0 h) [ inl a ↦ absurd (none_held e a) | inr b ↦ b ],
        λ h. (held e).1 (inr h),
      ) in
      (
        record c { data_ = slots; log2cap_ = some log2cap'; mask_ = mask },
        ground (arith, done),
        record {
          masked = whole;
          table = table';
          counted = omega (arith, counted', none_used, ok.counted);
          load = room;
          hashed = λ e h. ok.hashed e ((kept e).0 h);
          unique = λ e e' h h'. ok.unique e e' ((kept e).0 h) ((kept e').0 h');
        },
        refl,
        refl,
        kept,
      )

  pub first_lem :
      (c : UIntCache) (log2cap : ℕ)
      → (c.data_ ≡ []) × (c.size_ ≡ 0)
      → IsCacheOf get_hash_ log2cap (init_first_ c log2cap)
        × ((e : Entry) → Holds (init_first_ c log2cap).data_ e ↔ Holds c.data_ e)
  unfolding init_first_
  first_lem c log2cap (no_slots, no_entries) =
      let mask : ℕ = 2 ^ log2cap - 1 in
      let whole : mask + 1 ≡ 2 ^ log2cap = omega (arith, pow_pos log2cap) in
      let (table, none_used, none_held) = empty_of log2cap in
      (
        record {
          masked = whole;
          table = table;
          counted = none_used ∙ sym no_entries;
          load = omega (arith, no_entries);
          hashed = λ e h. absurd (none_held e h);
          unique = λ e e' h h' same. absurd (none_held e h);
        },
        λ e. (
          λ h. absurd (none_held e h),
          λ h. absurd (not_held e (subst (λ l. Holds l e) no_slots h)),
        ),
      )

  -- The key is new, so the table gets one more entry.
  abbrev pub IsEntered : UIntCache → List ℕ → ℕ → Type 0
  IsEntered c xin nparsout =
      (ptr : Pointer) × (c' : UIntCache) × (new_entry get_hash_ c xin nparsout ≡ some (ptr, c'))
      × (log2cap : ℕ) × IsCacheOf get_hash_ log2cap c'
      × (c'.log2cap_ ≡ some log2cap)
      × IsAdded get_hash_ c xin ptr c'

  IsAdded-moved :
      (c mid c' : UIntCache) (xin : List ℕ) (ptr : Pointer)
      → ((e : Entry) → Holds mid.data_ e ↔ Holds c.data_ e)
      → IsAdded get_hash_ mid xin ptr c'
      → IsAdded get_hash_ c xin ptr c'
  IsAdded-moved c mid c' xin ptr kept added e = (
    λ h. elim ((added e).0 h) [ inl old ↦ inl ((kept e).0 old) | inr made ↦ inr made ],
    λ h. (added e).1 (elim h [ inl old ↦ inl ((kept e).1 old) | inr made ↦ inr made ]),
  )

  pub new_entry_first :
      (c : UIntCache) (xin : List ℕ) (nparsout : ℕ)
      → c.log2cap_ ≡ none
      → (c.data_ ≡ []) × (c.size_ ≡ 0)
      → IsEntered c xin nparsout
  unfolding new_entry
  new_entry_first c xin nparsout there empty =
      let (ok, kept) = first_lem c default_log2_cap empty in
      let (ptr, c', done, ok', there', added) =
        add_entry_lem get_hash_ (init_first_ c default_log2_cap) default_log2_cap xin nparsout
          (first_log2cap c default_log2_cap) ok (omega (arith, first_size c, empty.1))
          (λ e h. absurd (not_held e (subst (λ l. Holds l e) empty.0 ((kept e).0 h)))) in
      (
        ptr,
        c',
        ground (arith, there, done),
        default_log2_cap,
        ok',
        there',
        IsAdded-moved c (init_first_ c default_log2_cap) c' xin ptr kept added,
      )

  pub new_entry_next :
      (c : UIntCache) (log2cap : ℕ) (xin : List ℕ) (nparsout : ℕ)
      → c.log2cap_ ≡ some log2cap
      → IsCacheOf get_hash_ log2cap c
      → IsNew get_hash_ c xin
      → IsEntered c xin nparsout
  unfolding new_entry
  new_entry_next c log2cap xin nparsout there ok new =
      elim (Bool-cases (overloaded (c.size_ + 1) log2cap)) [
        | inr room ↦
            let (ptr, c', done, ok', there', added) =
              add_entry_lem get_hash_ c log2cap xin nparsout there ok
                (ltb→le (2 ^ log2cap) (2 * (c.size_ + 1)) room) new in
            (ptr, c', ground (arith, there, room, done), log2cap, ok', there', added)
        | inl full ↦
            let (mid, moved, ok', there', size', kept) =
              rehash_lem c log2cap (log2cap + 1) ok (omega (arith, ok.load, pow_next log2cap)) in
            let (ptr, c', done, ok'', there'', added) =
              add_entry_lem get_hash_ mid (log2cap + 1) xin nparsout there' ok'
                (omega (arith, size', ok.load, pow_next log2cap, pow_pos log2cap))
                (λ e h. new e ((kept e).0 h)) in
            (
              ptr,
              c',
              ground (arith, there, full, moved, done),
              log2cap + 1,
              ok'',
              there'',
              IsAdded-moved c mid c' xin ptr kept added,
            )
      ]
