-- ===== src/Graph/Nodes.antt =====
-- The vector of nodes: reads after writes, and when the nodes of a graph are well formed.
use finiteflow.Base.{
  All, All-map, ℕ, zero, suc, List, [], ◌∷◌, ◌++◌, map, Option, none, some, true, false, ◌<◌, ◌≤◌,
  ◌≡◌, ◌⊎◌, inl, inr, length, set, ◌==◌, if◌then◌else◌, refl, ap, sym, ◌∙◌, arith, Bool-cases,
  Option-cases, ap₂, ==→eq, ==→ne, subst,
}
use mathlib.Core.Option
use finiteflow.Algorithm.{set_immutable}
use finiteflow.Graph.{
  Node, lookup_node, update_node, change_alg, freeze_inputs, check_inputs, node_id, node_depth,
  max_depth,
}

pub lookup_node-set-none :
    (xs : List (Option Node)) (i j : ℕ)
    → lookup_node (set xs i none) j ≡ (if i == j then none else lookup_node xs j)
lookup_node-set-none [] i j = ground arith
lookup_node-set-none (x ∷ xs) zero zero = ground arith
lookup_node-set-none (x ∷ xs) zero (suc j) = ground arith
lookup_node-set-none (x ∷ xs) (suc i) zero = ground arith
lookup_node-set-none (x ∷ xs) (suc i) (suc j) = ground (arith, lookup_node-set-none xs i j)

pub lookup_node-set :
    (xs : List (Option Node)) (i j : ℕ) (v : Option Node)
    → i < length xs
    → lookup_node (set xs i v) j ≡ (if i == j then v else lookup_node xs j)
lookup_node-set [] i j v h = absurd (omega arith)
lookup_node-set (x ∷ xs) zero zero v h = ground arith
lookup_node-set (x ∷ xs) zero (suc j) v h = ground arith
lookup_node-set (x ∷ xs) (suc i) zero v h = ground arith
lookup_node-set (x ∷ xs) (suc i) (suc j) v h =
    ground (arith, lookup_node-set xs i j v (omega arith))

pub lookup_node-update_node :
    (xs : List (Option Node)) (i j : ℕ) (f : Node → Node)
    → lookup_node (update_node xs i f) j
      ≡ (if i == j then Option.map f (lookup_node xs j) else lookup_node xs j)
lookup_node-update_node [] i j f = ground arith
lookup_node-update_node (none ∷ xs) zero zero f = ground arith
lookup_node-update_node (some nd ∷ xs) zero zero f = ground arith
lookup_node-update_node (none ∷ xs) zero (suc j) f = ground arith
lookup_node-update_node (some nd ∷ xs) zero (suc j) f = ground arith
lookup_node-update_node (x ∷ xs) (suc i) zero f = ground arith
lookup_node-update_node (x ∷ xs) (suc i) (suc j) f =
    ground (arith, lookup_node-update_node xs i j f)

pub length-update_node :
    (xs : List (Option Node)) (i : ℕ) (f : Node → Node) → length (update_node xs i f) ≡ length xs
length-update_node [] i f = refl
length-update_node (none ∷ xs) zero f = refl
length-update_node (some nd ∷ xs) zero f = refl
length-update_node (x ∷ xs) (suc i) f = ap suc (length-update_node xs i f)

pub lookup_node-push :
    (xs : List (Option Node)) (j : ℕ) → lookup_node (xs ++ none ∷ []) j ≡ lookup_node xs j
lookup_node-push [] zero = refl
lookup_node-push [] (suc j) = refl
lookup_node-push (x ∷ xs) zero = refl
lookup_node-push (x ∷ xs) (suc j) = lookup_node-push xs j

pub lookup_node-length : (xs : List (Option Node)) (j : ℕ) → length xs ≤ j → lookup_node xs j ≡ none
lookup_node-length [] j h = refl
lookup_node-length (x ∷ xs) zero h = absurd (omega arith)
lookup_node-length (x ∷ xs) (suc j) h = lookup_node-length xs j (omega arith)

-- An input of a node of depth `d`: it exists, can no longer change, and is less deep.
abbrev pub IsInput : List (Option Node) → ℕ → ℕ → Type 0
IsInput nodes d j =
    (m : Node) × (lookup_node nodes j ≡ some m) × (m.alg_.is_immutable ≡ true) × (m.depth_ < d)

-- Each node knows its position, and each of its inputs is one of a less deep, immutable node.
abbrev pub IsNodeAt : List (Option Node) → ℕ → Node → Type 0
IsNodeAt nodes i nd = (nd.id_ ≡ i) × All (IsInput nodes nd.depth_) nd.inputs_

abbrev pub HasNodes : List (Option Node) → Type 0
HasNodes nodes = (i : ℕ) (nd : Node) → lookup_node nodes i ≡ some nd → IsNodeAt nodes i nd

-- A change of the vector that keeps every immutable node keeps the inputs.
pub IsInput-mono :
    (nodes nodes' : List (Option Node))
    → ((j : ℕ) (m : Node)
        → lookup_node nodes j ≡ some m
        → m.alg_.is_immutable ≡ true
        → (m' : Node) × (lookup_node nodes' j ≡ some m')
          × (m'.alg_.is_immutable ≡ true)
          × (m'.depth_ ≡ m.depth_))
    → (d : ℕ) (js : List ℕ) → All (IsInput nodes d) js
    → All (IsInput nodes' d) js
IsInput-mono nodes nodes' keep d js =
    All-map (IsInput nodes d) (IsInput nodes' d)
      (λ j h. let (m', e, im, dm) = keep j h.0 h.1 h.2 in (m', e, im, omega (arith, h.3))) js

keep_set :
    (nodes : List (Option Node)) (id : ℕ) (v : Option Node)
    → ((j : ℕ) → lookup_node (set nodes id v) j ≡ (if id == j then v else lookup_node nodes j))
    → ((m : Node) → lookup_node nodes id ≡ some m → m.alg_.is_immutable ≡ true → ⊥)
    → (j : ℕ) (m : Node) → lookup_node nodes j ≡ some m
    → m.alg_.is_immutable ≡ true
    → (m' : Node) × (lookup_node (set nodes id v) j ≡ some m')
      × (m'.alg_.is_immutable ≡ true)
      × (m'.depth_ ≡ m.depth_)
keep_set nodes id v read apart j m e im = elim (Bool-cases (id == j)) [
  | inl same ↦ absurd (apart m (ap (lookup_node nodes) (==→eq id j same) ∙ e) im)
  | inr other ↦ (m, read j ∙ ap (λ b. if b then v else lookup_node nodes j) other ∙ e, im, refl)
]

pub none_ne_some : (a : Node) → none ≡ some a → ⊥
none_ne_some a h = cc

pub some_injective : {a b : Node} → some a ≡ some b → a ≡ b
some_injective h = cc

-- Deleting a node that is still mutable.
pub set-none-HasNodes :
    (nodes : List (Option Node)) (id : ℕ) (n : Node)
    → HasNodes nodes
    → lookup_node nodes id ≡ some n
    → n.alg_.is_immutable ≡ false
    → HasNodes (set nodes id none)
set-none-HasNodes nodes id n ok here mutable i nd e = elim (Bool-cases (id == i)) [
  | inl same ↦
      absurd (
        none_ne_some nd (sym (read i ∙ ap (λ b. if b then none else lookup_node nodes i) same) ∙ e))
  | inr other ↦
      let old =
        ok i nd (sym (read i ∙ ap (λ b. if b then none else lookup_node nodes i) other) ∙ e) in
      (
        old.0,
        IsInput-mono nodes (set nodes id none) (keep_set nodes id none read apart) nd.depth_
            nd.inputs_ old.1,
      )
]
  where
    read :
        (j : ℕ)
        → lookup_node (set nodes id none) j ≡ (if id == j then none else lookup_node nodes j)
    read j = lookup_node-set-none nodes id j

    apart : (m : Node) → lookup_node nodes id ≡ some m → m.alg_.is_immutable ≡ true → ⊥
    apart m h im = ground (arith, sym here ∙ h)

-- A new node in an empty slot.
pub set-some-HasNodes :
    (nodes : List (Option Node)) (id : ℕ) (n : Node)
    → HasNodes nodes
    → lookup_node nodes id ≡ none
    → id < length nodes
    → n.id_ ≡ id
    → All (IsInput nodes n.depth_) n.inputs_
    → HasNodes (set nodes id (some n))
set-some-HasNodes nodes id n ok free inside same_id inputs i nd e = elim (Bool-cases (id == i)) [
  | inl same ↦
      subst (IsNodeAt (set nodes id (some n)) i)
        (some_injective
          (sym (read i ∙ ap (λ b. if b then some n else lookup_node nodes i) same) ∙ e))
        (
          same_id ∙ ==→eq id i same,
          IsInput-mono nodes (set nodes id (some n)) (keep_set nodes id (some n) read apart)
              n.depth_ n.inputs_ inputs,
        )
  | inr other ↦
      let old =
        ok i nd (sym (read i ∙ ap (λ b. if b then some n else lookup_node nodes i) other) ∙ e) in
      (
        old.0,
        IsInput-mono nodes (set nodes id (some n)) (keep_set nodes id (some n) read apart) nd.depth_
            nd.inputs_ old.1,
      )
]
  where
    read :
        (j : ℕ)
        → lookup_node (set nodes id (some n)) j ≡ (if id == j then some n else lookup_node nodes j)
    read j = lookup_node-set nodes id j (some n) inside

    apart : (m : Node) → lookup_node nodes id ≡ some m → m.alg_.is_immutable ≡ true → ⊥
    apart m h im = ground (arith, sym free ∙ h)

-- An input becomes immutable.
freeze-keeps :
    (nodes : List (Option Node)) (k j : ℕ) (m : Node)
    → lookup_node nodes j ≡ some m
    → (m' : Node) × (lookup_node (update_node nodes k (change_alg set_immutable)) j ≡ some m')
      × ((k ≡ j) ⊎ (m.alg_.is_immutable ≡ true) → m'.alg_.is_immutable ≡ true)
      × (m'.depth_ ≡ m.depth_)
      × (m'.id_ ≡ m.id_)
      × (m'.inputs_ ≡ m.inputs_)
freeze-keeps nodes k j m e = elim (Bool-cases (k == j)) [
  | inl same ↦ (
    change_alg set_immutable m,
    read
        ∙ ap
            (λ b.
              if b
              then Option.map (change_alg set_immutable) (lookup_node nodes j)
              else lookup_node nodes j)
            same
        ∙ ap (Option.map (change_alg set_immutable)) e,
    λ h. refl,
    refl,
    refl,
    refl,
  )
  | inr other ↦ (
    m,
    read
        ∙ ap
            (λ b.
              if b
              then Option.map (change_alg set_immutable) (lookup_node nodes j)
              else lookup_node nodes j)
            other
        ∙ e,
    λ h. elim h [ inl same ↦ absurd (==→ne k j other same) | inr im ↦ im ],
    refl,
    refl,
    refl,
  )
]
  where
    read : lookup_node (update_node nodes k (change_alg set_immutable)) j ≡ (
        if k == j
        then Option.map (change_alg set_immutable) (lookup_node nodes j)
        else lookup_node nodes j)
    read = lookup_node-update_node nodes k j (change_alg set_immutable)

freeze_one-HasNodes :
    (nodes : List (Option Node)) (k : ℕ)
    → HasNodes nodes
    → HasNodes (update_node nodes k (change_alg set_immutable))
freeze_one-HasNodes nodes k ok i nd e = elim (Option-cases (lookup_node nodes i)) [
  | inl gone ↦ absurd (
      none_ne_some nd
        (sym (ground (arith, lookup_node-update_node nodes k i (change_alg set_immutable))) ∙ e))
  | inr (old, was) ↦
      let (m', e', im, dm, idm, inm) = freeze-keeps nodes k i old was in
      let (at, inputs) = ok i old was in
      subst (IsNodeAt (update_node nodes k (change_alg set_immutable)) i)
        (some_injective (sym e' ∙ e))
        (
          idm ∙ at,
          subst (λ l. All (IsInput (update_node nodes k (change_alg set_immutable)) m'.depth_) l)
              (sym inm)
              (subst
                (λ d. All (IsInput (update_node nodes k (change_alg set_immutable)) d) old.inputs_)
                (sym dm)
                (IsInput-mono nodes (update_node nodes k (change_alg set_immutable)) keep old.depth_
                  old.inputs_ inputs)),
        )
]
  where
    keep :
        (j : ℕ) (m : Node)
        → lookup_node nodes j ≡ some m
        → m.alg_.is_immutable ≡ true
        → (m' : Node) × (lookup_node (update_node nodes k (change_alg set_immutable)) j ≡ some m')
          × (m'.alg_.is_immutable ≡ true)
          × (m'.depth_ ≡ m.depth_)
    keep j m h im =
        let (m', h', im', dm, idm, inm) = freeze-keeps nodes k j m h in (m', h', im' (inr im), dm)

pub freeze_inputs-HasNodes :
    (js : List ℕ) (nodes : List (Option Node)) → HasNodes nodes → HasNodes (freeze_inputs js nodes)
freeze_inputs-HasNodes [] nodes ok = ok
freeze_inputs-HasNodes (j ∷ js) nodes ok =
    freeze_inputs-HasNodes js (update_node nodes j (change_alg set_immutable))
      (freeze_one-HasNodes nodes j ok)

pub length-freeze_inputs :
    (js : List ℕ) (nodes : List (Option Node)) → length (freeze_inputs js nodes) ≡ length nodes
length-freeze_inputs [] nodes = refl
length-freeze_inputs (j ∷ js) nodes =
    length-freeze_inputs js (update_node nodes j (change_alg set_immutable))
    ∙ length-update_node nodes j (change_alg set_immutable)

-- A slot that is empty stays so.
pub freeze_inputs-none :
    (js : List ℕ) (nodes : List (Option Node)) (i : ℕ)
    → lookup_node nodes i ≡ none
    → lookup_node (freeze_inputs js nodes) i ≡ none
freeze_inputs-none [] nodes i e = e
freeze_inputs-none (j ∷ js) nodes i e =
    freeze_inputs-none js (update_node nodes j (change_alg set_immutable)) i
      (ground (arith, lookup_node-update_node nodes j i (change_alg set_immutable)))

-- A node keeps its depth, and stays immutable if it was.
pub freeze_inputs-keeps :
    (js : List ℕ) (nodes : List (Option Node)) (i : ℕ) (m : Node)
    → lookup_node nodes i ≡ some m
    → (m' : Node) × (lookup_node (freeze_inputs js nodes) i ≡ some m')
      × (m.alg_.is_immutable ≡ true → m'.alg_.is_immutable ≡ true)
      × (m'.depth_ ≡ m.depth_)
freeze_inputs-keeps [] nodes i m e = (m, e, λ h. h, refl)
freeze_inputs-keeps (j ∷ js) nodes i m e =
    let (m', e', im, dm, idm, inm) = freeze-keeps nodes j i m e in
    let (m'', e'', im', dm') =
      freeze_inputs-keeps js (update_node nodes j (change_alg set_immutable)) i m' e' in
    (m'', e'', λ h. im' (im (inr h)), dm' ∙ dm)

-- An input that the check has accepted.
abbrev IsKnown : List (Option Node) → ℕ → ℕ → Type 0
IsKnown nodes d j = (m : Node) × (lookup_node nodes j ≡ some m) × (m.depth_ < d)

checked-IsKnown :
    (ks js : List ℕ) (nodes : List (Option Node)) (d : ℕ)
    → check_inputs nodes ks js ≡ true
    → max_depth nodes js < d
    → All (IsKnown nodes d) js
checked-IsKnown [] [] nodes d h small = tt
checked-IsKnown [] (j ∷ js) nodes d h small = absurd (ground arith)
checked-IsKnown (k ∷ ks) [] nodes d h small = absurd (ground arith)
checked-IsKnown (k ∷ ks) (j ∷ js) nodes d h small =
    (known, checked-IsKnown ks js nodes d (ground arith) (omega arith))
  where
    known : IsKnown nodes d j
    known = elim (Option-cases (lookup_node nodes j)) [
      | inl gone ↦ absurd (ground arith)
      | inr (m, e) ↦ (m, e, let below : node_depth nodes j < d = omega arith in ground arith)
    ]

frozen-IsInput :
    (js : List ℕ) (nodes : List (Option Node)) (d : ℕ)
    → All (IsKnown nodes d) js
    → All (IsInput (freeze_inputs js nodes) d) js
frozen-IsInput [] nodes d h = tt
frozen-IsInput (j ∷ js) nodes d (known, rest) =
    let (m', e', im, dm, idm, inm) = freeze-keeps nodes j j known.0 known.1 in
    let (m'', e'', im', dm') =
      freeze_inputs-keeps js (update_node nodes j (change_alg set_immutable)) j m' e' in
    (
      (m'', e'', im' (im (inl refl)), omega (arith, known.2)),
      frozen-IsInput js (update_node nodes j (change_alg set_immutable)) d (
          All-map (IsKnown nodes d) (IsKnown (update_node nodes j (change_alg set_immutable)) d)
            still js rest),
    )
  where
    still :
        (k : ℕ) → IsKnown nodes d k → IsKnown (update_node nodes j (change_alg set_immutable)) d k
    still k (m, e, small) =
        let (m', e', im, dm, idm, inm) = freeze-keeps nodes j k m e in (m', e', omega arith)

-- After the loop over the inputs each of them is an input of a node deeper than all.
pub freeze_inputs-IsInput :
    (ks js : List ℕ) (nodes : List (Option Node)) (d : ℕ)
    → check_inputs nodes ks js ≡ true
    → max_depth nodes js < d
    → All (IsInput (freeze_inputs js nodes) d) js
freeze_inputs-IsInput ks js nodes d h small =
    frozen-IsInput js nodes d (checked-IsKnown ks js nodes d h small)

-- The positions that the inputs know are those that they were found at.
pub node_ids :
    (ks js : List ℕ) (nodes : List (Option Node))
    → HasNodes nodes
    → check_inputs nodes ks js ≡ true
    → map (node_id nodes) js ≡ js
node_ids [] [] nodes ok h = refl
node_ids [] (j ∷ js) nodes ok h = absurd (ground arith)
node_ids (k ∷ ks) [] nodes ok h = absurd (ground arith)
node_ids (k ∷ ks) (j ∷ js) nodes ok h = ap₂ ◌∷◌ same (node_ids ks js nodes ok (ground arith))
  where
    same : node_id nodes j ≡ j
    same = elim (Option-cases (lookup_node nodes j)) [
      | inl gone ↦ absurd (ground arith)
      | inr (m, e) ↦ ground (arith, (ok j m e).0)
    ]
