-- ===== src/Graph/Mutable.antt =====
-- `Session::set_node_mutable` makes a node mutable again only when no node depends on it.
use finiteflow.Base.{
  ℕ, zero, suc, List, [], ◌∷◌, Option, none, some, false, not, ◌&&◌, ◌≡◌, ◌≢◌, inl, inr, ◌==◌,
  if◌then◌else◌, ap, sym, ◌∙◌, subst, arith, Bool-cases, Option-cases, ==→eq,
}
use mathlib.Core.Option
use finiteflow.Algorithm.{is_mutable, set_mutable}
use finiteflow.Graph.{Graph, Node, alg_no_id, lookup_node, node_exists, update_node, change_alg}
use finiteflow.Base.{All, All-map}
use finiteflow.Graph.Nodes.{
  HasNodes, IsInput, lookup_node-update_node, length-update_node, some_injective, none_ne_some,
}
use finiteflow.Graph.Edit.{IsGraph, IsFree}
use finiteflow.Graph.Output.{is_member, is_input_of_some, set_node_mutable}

-- A node that is no input of any node.
is_input_of_some-none :
    (id : ℕ) (nodes : List (Option Node)) (i : ℕ) (nd : Node)
    → is_input_of_some id nodes ≡ false
    → lookup_node nodes i ≡ some nd
    → is_member id nd.inputs_ ≡ false
unfolding is_input_of_some
is_input_of_some-none id [] i nd h e = absurd (none_ne_some nd e)
is_input_of_some-none id (none ∷ nodes) zero nd h e = absurd (none_ne_some nd e)
is_input_of_some-none id (none ∷ nodes) (suc i) nd h e = is_input_of_some-none id nodes i nd h e
is_input_of_some-none id (some m ∷ nodes) zero nd h e =
    subst (λ t. is_member id t.inputs_ ≡ false) (some_injective e) (ground arith)
is_input_of_some-none id (some m ∷ nodes) (suc i) nd h e =
    is_input_of_some-none id nodes i nd (ground arith) e

All-apart :
    (P Q : ℕ → Type 0) (id : ℕ) (xs : List ℕ)
    → ((j : ℕ) → j ≢ id → P j → Q j)
    → is_member id xs ≡ false
    → All P xs
    → All Q xs
All-apart P Q id [] f h p = tt
All-apart P Q id (x ∷ xs) f h p =
    (f x (λ e. ground arith) p.0, All-apart P Q id xs f (ground arith) p.1)

module _ (nodes : List (Option Node)) (id : ℕ) where
  abbrev changed : List (Option Node)
  changed = update_node nodes id (change_alg set_mutable)

  read_changed :
      (i : ℕ)
      → lookup_node changed i ≡ (
          if id == i
          then Option.map (change_alg set_mutable) (lookup_node nodes i)
          else lookup_node nodes i)
  read_changed i = lookup_node-update_node nodes id i (change_alg set_mutable)

  changed_other : (i : ℕ) → i ≢ id → lookup_node changed i ≡ lookup_node nodes i
  changed_other i ne = elim (Bool-cases (id == i)) [
    | inl same ↦ absurd (ne (sym (==→eq id i same)))
    | inr other ↦
        read_changed i
        ∙ ap
            (λ b.
              if b
              then Option.map (change_alg set_mutable) (lookup_node nodes i)
              else lookup_node nodes i)
            other
  ]

  changed_self : lookup_node changed id ≡ Option.map (change_alg set_mutable) (lookup_node nodes id)
  changed_self = read_changed id ∙ ground arith

  changed-none : (i : ℕ) → lookup_node nodes i ≡ none → lookup_node changed i ≡ none
  changed-none i h = elim (Bool-cases (i == id)) [
    | inl same ↦
        subst (λ t. lookup_node changed t ≡ none) (sym (==→eq i id same))
          (changed_self
            ∙ ap (Option.map (change_alg set_mutable))
                (subst (λ t. lookup_node nodes t ≡ none) (==→eq i id same) h))
    | inr other ↦ changed_other i (λ e. ground arith) ∙ h
  ]

  -- What a node of the changed vector was before: only its algorithm differs.
  IsSameNode : ℕ → Node → Type 0
  IsSameNode i nd =
      (m : Node) × (lookup_node nodes i ≡ some m)
      × (nd.id_ ≡ m.id_)
      × (nd.inputs_ ≡ m.inputs_)
      × (nd.depth_ ≡ m.depth_)

  changed-IsSameNode : (i : ℕ) (nd : Node) → lookup_node changed i ≡ some nd → IsSameNode i nd
  unfolding IsSameNode
  changed-IsSameNode i nd e = elim (Option-cases (lookup_node nodes i)) [
    | inl gone ↦ absurd (none_ne_some nd (sym (changed-none i gone) ∙ e))
    | inr (m, here) ↦ elim (Bool-cases (i == id)) [
      | inl same ↦
          let eq : some (change_alg set_mutable m) ≡ some nd =
            ap (Option.map (change_alg set_mutable)) (sym here)
            ∙ subst
                (λ t.
                  Option.map (change_alg set_mutable) (lookup_node nodes t) ≡ lookup_node changed t)
                (sym (==→eq i id same)) (sym changed_self)
            ∙ e in
          (
            m,
            here,
            ap (λ t. t.id_) (sym (some_injective eq)),
            ap (λ t. t.inputs_) (sym (some_injective eq)),
            ap (λ t. t.depth_) (sym (some_injective eq)),
          )
      | inr other ↦
          let eq : some m ≡ some nd = sym here ∙ sym (changed_other i (λ e. ground arith)) ∙ e in
          (
            m,
            here,
            ap (λ t. t.id_) (sym (some_injective eq)),
            ap (λ t. t.inputs_) (sym (some_injective eq)),
            ap (λ t. t.depth_) (sym (some_injective eq)),
          )
    ]
  ]

  changed-IsInput : (d j : ℕ) → j ≢ id → IsInput nodes d j → IsInput changed d j
  changed-IsInput d j ne (m, at, im, dm) = (m, changed_other j ne ∙ at, im, dm)

  changed-HasNodes : is_input_of_some id nodes ≡ false → HasNodes nodes → HasNodes changed
  unfolding IsSameNode
  changed-HasNodes h ok i nd e =
      let (m, here, same_id, same_inputs, same_depth) = changed-IsSameNode i nd e in
      (
        same_id ∙ (ok i m here).0,
        subst (λ l. All (IsInput changed nd.depth_) l) (sym same_inputs)
            (subst (λ d. All (IsInput changed d) m.inputs_) (sym same_depth)
              (All-apart (IsInput nodes m.depth_) (IsInput changed m.depth_) id m.inputs_
                (changed-IsInput m.depth_) (is_input_of_some-none id nodes i m h here)
                (ok i m here).1)),
      )

  changed-IsFree : (y : ℕ) → IsFree nodes y → IsFree changed y
  changed-IsFree y free = (
    changed-none y free.0,
    omega (arith, length-update_node nodes id (change_alg set_mutable), free.1),
  )

module _ (g : Graph) (id : ℕ) where
  abbrev changed_graph : Graph
  changed_graph = record g { nodes_ = update_node g.nodes_ id (change_alg set_mutable) }

  changed_graph-IsGraph : is_input_of_some id g.nodes_ ≡ false → IsGraph g → IsGraph changed_graph
  changed_graph-IsGraph h ok = record {
    has_nodes = changed-HasNodes g.nodes_ id h ok.has_nodes;
    slots_free =
        All-map (IsFree g.nodes_) (IsFree (changed g.nodes_ id)) (changed-IsFree g.nodes_ id)
          g.free_node_slots_ ok.slots_free;
    slots_distinct = ok.slots_distinct;
  }

  -- `set_node_mutable`, accepted or refused, keeps a graph well formed: a node that becomes mutable
  -- again is no input of any node.
  pub set_node_mutable-IsGraph : IsGraph g → IsGraph (set_node_mutable g id).1
  unfolding set_node_mutable
  set_node_mutable-IsGraph ok =
      elim (Bool-cases
        (node_exists g id && is_mutable g.base && not (is_input_of_some id g.nodes_))) [
          | inl accepted ↦
              subst
                (λ b.
                  (λ (r : ℕ × Graph). IsGraph r.1)
                    (if b then (id, changed_graph) else (alg_no_id, g)))
                (sym accepted) (changed_graph-IsGraph (ground arith) ok)
          | inr refused ↦
              subst
                (λ b.
                  (λ (r : ℕ × Graph). IsGraph r.1)
                    (if b then (id, changed_graph) else (alg_no_id, g)))
                (sym refused) ok
        ]
