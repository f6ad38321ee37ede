-- ===== src/Graph/InsertionSort.antt =====
-- Insertion sort by a key: a `Sorter` to apply the theorems about `set_output_node` with.
use finiteflow.Base.{
  ℕ, List, [], ◌∷◌, true, false, ◌≤◌, ◌≡◌, ◌⊎◌, ◌↔◌, inl, inr, leb, if◌then◌else◌, ap, sym, subst,
  arith, Bool-cases, leb→le, leb→lt,
}
use finiteflow.Graph.Output.{Member, IsSortedBy, Sorter}

module _ (key : ℕ → ℕ) where
  unfoldable pub insert : ℕ → List ℕ → List ℕ
  insert a [] = a ∷ []
  insert a (x ∷ xs) = let rest = insert a xs in if leb (key a) (key x) then a ∷ x ∷ xs else x ∷ rest

  unfoldable pub sort_by : List ℕ → List ℕ
  unfolding insert
  sort_by [] = []
  sort_by (x ∷ xs) = insert x (sort_by xs)

  insert_first :
      (a x : ℕ) (xs : List ℕ) → leb (key a) (key x) ≡ true → insert a (x ∷ xs) ≡ a ∷ x ∷ xs
  unfolding insert
  insert_first a x xs h = ap (λ b. if b then a ∷ x ∷ xs else x ∷ insert a xs) h

  insert_later :
      (a x : ℕ) (xs : List ℕ) → leb (key a) (key x) ≡ false → insert a (x ∷ xs) ≡ x ∷ insert a xs
  unfolding insert
  insert_later a x xs h = ap (λ b. if b then a ∷ x ∷ xs else x ∷ insert a xs) h

  Member-insert : (a : ℕ) (xs : List ℕ) (y : ℕ) → Member y (insert a xs) ↔ ((y ≡ a) ⊎ Member y xs)
  unfolding insert
  Member-insert a [] y = (λ m. m, λ m. m)
  Member-insert a (x ∷ xs) y = elim (Bool-cases (leb (key a) (key x))) [
    | inl first ↦
        subst (λ l. Member y l ↔ ((y ≡ a) ⊎ ((y ≡ x) ⊎ Member y xs)))
          (sym (insert_first a x xs first)) (λ m. m, λ m. m)
    | inr later ↦
        subst (λ l. Member y l ↔ ((y ≡ a) ⊎ ((y ≡ x) ⊎ Member y xs)))
          (sym (insert_later a x xs later))
          (swap_to (Member-insert a xs y).0, swap_from (Member-insert a xs y).1)
  ]
    where
      swap_to :
          (Member y (insert a xs) → (y ≡ a) ⊎ Member y xs)
          → (y ≡ x) ⊎ Member y (insert a xs)
          → (y ≡ a) ⊎ ((y ≡ x) ⊎ Member y xs)
      swap_to f (inl e) = inr (inl e)
      swap_to f (inr m) = elim (f m) [ inl e ↦ inl e | inr n ↦ inr (inr n) ]

      swap_from :
          ((y ≡ a) ⊎ Member y xs → Member y (insert a xs))
          → (y ≡ a) ⊎ ((y ≡ x) ⊎ Member y xs)
          → (y ≡ x) ⊎ Member y (insert a xs)
      swap_from f (inl e) = inr (f (inl e))
      swap_from f (inr (inl e)) = inl e
      swap_from f (inr (inr m)) = inr (f (inr m))

  insert-IsSortedBy : (a : ℕ) (xs : List ℕ) → IsSortedBy key xs → IsSortedBy key (insert a xs)
  unfolding insert
  insert-IsSortedBy a [] h = (λ y m. absurd m, tt)
  insert-IsSortedBy a (x ∷ xs) h = elim (Bool-cases (leb (key a) (key x))) [
    | inl first ↦ subst (IsSortedBy key) (sym (insert_first a x xs first)) (least first, h)
    | inr later ↦
        subst (IsSortedBy key) (sym (insert_later a x xs later))
          (least_later later, insert-IsSortedBy a xs h.1)
  ]
    where
      least : leb (key a) (key x) ≡ true → (y : ℕ) → (y ≡ x) ⊎ Member y xs → key a ≤ key y
      least first y (inl e) = omega (arith, leb→le (key a) (key x) first, ap key e)
      least first y (inr m) = omega (arith, leb→le (key a) (key x) first, h.0 y m)

      least_later : leb (key a) (key x) ≡ false → (y : ℕ) → Member y (insert a xs) → key x ≤ key y
      least_later later y m = elim ((Member-insert a xs y).0 m) [
        | inl e ↦ omega (arith, leb→lt (key a) (key x) later, ap key e)
        | inr n ↦ h.0 y n
      ]

  pub Member-sort_by : (xs : List ℕ) (y : ℕ) → Member y (sort_by xs) ↔ Member y xs
  unfolding sort_by
  Member-sort_by [] y = (λ m. m, λ m. m)
  Member-sort_by (x ∷ xs) y = (
    λ m. elim ((Member-insert x (sort_by xs) y).0 m) [
      | inl e ↦ inl e
      | inr n ↦ inr ((Member-sort_by xs y).0 n)
    ],
    λ m.
        (Member-insert x (sort_by xs) y).1
          (elim m [ inl e ↦ inl e | inr n ↦ inr ((Member-sort_by xs y).1 n) ]),
  )

  pub sort_by-IsSortedBy : (xs : List ℕ) → IsSortedBy key (sort_by xs)
  unfolding sort_by
  sort_by-IsSortedBy [] = tt
  sort_by-IsSortedBy (x ∷ xs) = insert-IsSortedBy x (sort_by xs) (sort_by-IsSortedBy xs)

abbrev pub insertion_sorter : Sorter
insertion_sorter = record {
  sort = sort_by;
  is_sorted = sort_by-IsSortedBy;
  same_members = Member-sort_by;
}
