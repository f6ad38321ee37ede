-- ===== src/Graph/Edit.antt =====
-- `Graph::new_node` and `Graph::delete_node` keep a graph well formed, and reuse empty slots only.
use native.Mathlib.Nat.{le_refl}
use finiteflow.Base.{
  ℕ, zero, suc, List, [], ◌∷◌, ◌++◌, Option, none, some, true, false, not, ◌&&◌, ◌+◌, ◌<◌, ◌≡◌, ◌≢◌,
  inl, inr, length, set, ◌==◌, if◌then◌else◌, refl, ap, sym, ◌∙◌, arith, Bool-cases, Option-cases,
  ==→eq, subst, length-append, length-set, ltb, ltb→lt, ltb→le,
}
use finiteflow.Algorithm.{Algorithm, is_mutable}
use finiteflow.Graph.{
  Graph, Node, alg_no_id, lookup_node, node_exists, get_free_node_id_, push_node_slot,
  peek_new_node_id, set_input_vars, new_node, add_node, delete_node, delete_node_, remove_node,
  check_inputs, max_depth, freeze_inputs, is_empty, take_node_slot, ensure_input, input_node,
  is_some,
}
use finiteflow.Base.{All, All-map}
use finiteflow.Graph.Nodes.{
  IsNodeAt, HasNodes, IsInput, IsInput-mono, lookup_node-push, lookup_node-length, lookup_node-set,
  set-none-HasNodes, set-some-HasNodes, freeze_inputs-HasNodes, freeze_inputs-none,
  freeze_inputs-IsInput, length-freeze_inputs, node_ids, some_injective, none_ne_some,
}

-- A slot of the vector that holds no node.
abbrev pub IsFree : List (Option Node) → ℕ → Type 0
IsFree nodes i = (lookup_node nodes i ≡ none) × (i < length nodes)

abbrev pub Distinct : List ℕ → Type 0
Distinct [] = Unit
Distinct (x ∷ xs) = All (λ y. x ≢ y) xs × Distinct xs

-- A well-formed graph: its nodes are, and the slots kept for reuse are empty and distinct.
pub record IsGraph (g : Graph) : Type 0 where
  pub has_nodes : HasNodes g.nodes_
  pub slots_free : All (IsFree g.nodes_) g.free_node_slots_
  pub slots_distinct : Distinct g.free_node_slots_

-- What `get_free_node_id_` gives: an empty slot that is kept for reuse no more.
record IsFresh (g : Graph) (id : ℕ) (g' : Graph) : Type 0 where
  graph : IsGraph g'
  free : IsFree g'.nodes_ id
  apart : All (λ y. id ≢ y) g'.free_node_slots_
  old : (j : ℕ) (m : Node) → lookup_node g.nodes_ j ≡ some m → lookup_node g'.nodes_ j ≡ some m

push-HasNodes : (nodes : List (Option Node)) → HasNodes nodes → HasNodes (nodes ++ none ∷ [])
push-HasNodes nodes ok i nd e =
    let (at, inputs) = ok i nd (sym (lookup_node-push nodes i) ∙ e) in
    (
      at,
      IsInput-mono nodes (nodes ++ none ∷ [])
          (λ j m h im. (m, lookup_node-push nodes j ∙ h, im, refl)) nd.depth_ nd.inputs_ inputs,
    )

push-IsFree : (nodes : List (Option Node)) → IsFree (nodes ++ none ∷ []) (length nodes)
push-IsFree nodes = (
  lookup_node-push nodes (length nodes)
      ∙ lookup_node-length nodes (length nodes) (le_refl (length nodes)),
  omega (arith, length-append nodes (none ∷ [])),
)

first-HasNodes : (nd : Node) → nd.id_ ≡ 0 → nd.inputs_ ≡ [] → HasNodes (some nd ∷ [])
first-HasNodes nd at none_in zero m e =
    subst (IsNodeAt (some nd ∷ []) 0) (some_injective e)
      (at, subst (All (IsInput (some nd ∷ []) nd.depth_)) (sym none_in) tt)
first-HasNodes nd at none_in (suc i) m e = absurd (none_ne_some m e)

-- A graph with no node has its input node after `ensure_input`; another graph is left alone.
module _ (g : Graph) (mutable : is_mutable g.base ≡ true) where
  ensure_input-slots : (ensure_input g).free_node_slots_ ≡ g.free_node_slots_
  unfolding ensure_input set_input_vars
  ensure_input-slots = ground arith

  ensure_input-empty : is_empty g.nodes_ ≡ true → (ensure_input g).nodes_ ≡ input_node 0 []
  unfolding ensure_input set_input_vars
  ensure_input-empty h = ground arith

  ensure_input-nonempty : is_empty g.nodes_ ≡ false → (ensure_input g).nodes_ ≡ g.nodes_
  unfolding ensure_input
  ensure_input-nonempty h = ground arith

  empty_lookup :
      (nodes : List (Option Node)) (j : ℕ) (m : Node)
      → is_empty nodes ≡ true
      → lookup_node nodes j ≡ some m
      → ⊥
  empty_lookup [] j m h e = none_ne_some m e
  empty_lookup (x ∷ xs) j m h e = cc

  ensure_input-HasNodes : HasNodes g.nodes_ → HasNodes (ensure_input g).nodes_
  ensure_input-HasNodes ok = elim (Bool-cases (is_empty g.nodes_)) [
    | inl none_yet ↦ subst HasNodes (sym (ensure_input-empty none_yet)) (first-HasNodes _ refl refl)
    | inr some_yet ↦ subst HasNodes (sym (ensure_input-nonempty some_yet)) ok
  ]

  ensure_input-old :
      (j : ℕ) (m : Node)
      → lookup_node g.nodes_ j ≡ some m
      → lookup_node (ensure_input g).nodes_ j ≡ some m
  ensure_input-old j m e = elim (Bool-cases (is_empty g.nodes_)) [
    | inl none_yet ↦ absurd (empty_lookup g.nodes_ j m none_yet e)
    | inr some_yet ↦ ap (λ l. lookup_node l j) (ensure_input-nonempty some_yet) ∙ e
  ]

  push_node_slot-IsFresh :
      IsGraph g → g.free_node_slots_ ≡ [] → IsFresh g (push_node_slot g).0 (push_node_slot g).1
  unfolding push_node_slot
  push_node_slot-IsFresh ok no_slot = record {
    graph = record {
      has_nodes = push-HasNodes (ensure_input g).nodes_ (ensure_input-HasNodes ok.has_nodes);
      slots_free = subst (All (IsFree ((ensure_input g).nodes_ ++ none ∷ []))) none_left tt;
      slots_distinct = subst Distinct none_left tt;
    };
    free = push-IsFree (ensure_input g).nodes_;
    apart = subst (All (λ y. length (ensure_input g).nodes_ ≢ y)) none_left tt;
    old = λ j m e. lookup_node-push (ensure_input g).nodes_ j ∙ ensure_input-old j m e;
  }
    where
      none_left : [] ≡ (ensure_input g).free_node_slots_
      none_left = sym (ensure_input-slots ∙ no_slot)

  take_node_slot-IsFresh :
      (slots : List ℕ)
      → IsGraph g
      → g.free_node_slots_ ≡ slots
      → IsFresh g (take_node_slot g slots).0 (take_node_slot g slots).1
  unfolding take_node_slot
  take_node_slot-IsFresh [] ok e = push_node_slot-IsFresh ok e
  take_node_slot-IsFresh (id ∷ slots) ok e = record {
    graph = record { has_nodes = ok.has_nodes; slots_free = frees.1; slots_distinct = distinct.1 };
    free = frees.0;
    apart = distinct.0;
    old = λ j m h. h;
  }
    where
      frees : All (IsFree g.nodes_) (id ∷ slots)
      frees = subst (All (IsFree g.nodes_)) e ok.slots_free

      distinct : Distinct (id ∷ slots)
      distinct = subst Distinct e ok.slots_distinct

  get_free_node_id_-IsFresh : IsGraph g → IsFresh g (get_free_node_id_ g).0 (get_free_node_id_ g).1
  unfolding get_free_node_id_
  get_free_node_id_-IsFresh ok = take_node_slot-IsFresh g.free_node_slots_ ok refl

-- The inputs that the check accepted are accepted in any vector that holds the same nodes.
check_inputs_mono :
    (nodes nodes' : List (Option Node))
    → ((j : ℕ) (m : Node) → lookup_node nodes j ≡ some m → lookup_node nodes' j ≡ some m)
    → (ks js : List ℕ) → check_inputs nodes ks js ≡ true
    → check_inputs nodes' ks js ≡ true
check_inputs_mono nodes nodes' old [] [] h = refl
check_inputs_mono nodes nodes' old [] (j ∷ js) h = absurd (ground arith)
check_inputs_mono nodes nodes' old (k ∷ ks) [] h = absurd (ground arith)
check_inputs_mono nodes nodes' old (k ∷ ks) (j ∷ js) h = elim (Option-cases (lookup_node nodes j)) [
  | inl gone ↦ absurd (ground arith)
  | inr (m, e) ↦ ground (arith, old j m e, check_inputs_mono nodes nodes' old ks js)
]

All-zip {ℓ} :
    {A : Type ℓ} (P Q R : A → Type 0)
    → ((x : A) → P x → Q x → R x)
    → (xs : List A) → All P xs
    → All Q xs
    → All R xs
All-zip P Q R f [] p q = tt
All-zip P Q R f (x ∷ xs) p q = (f x p.0 q.0, All-zip P Q R f xs p.1 q.1)

-- An empty slot stays one when another slot is written.
set-IsFree :
    (nodes : List (Option Node)) (id y : ℕ) (v : Option Node)
    → id < length nodes
    → IsFree nodes y
    → id ≢ y
    → IsFree (set nodes id v) y
set-IsFree nodes id y v inside free ne = elim (Bool-cases (id == y)) [
  | inl same ↦ absurd (ne (==→eq id y same))
  | inr other ↦ (
    lookup_node-set nodes id y v inside
        ∙ ap (λ b. if b then v else lookup_node nodes y) other
        ∙ free.0,
    omega (arith, length-set nodes id v, free.1),
  )
]

freeze_inputs-IsFree :
    (js : List ℕ) (nodes : List (Option Node)) (y : ℕ)
    → IsFree nodes y
    → IsFree (freeze_inputs js nodes) y
freeze_inputs-IsFree js nodes y free =
    (freeze_inputs-none js nodes y free.0, omega (arith, length-freeze_inputs js nodes, free.1))

-- Putting a checked node into the fresh slot.
add_node-IsGraph :
    (g g' : Graph) (id : ℕ) (alg : Algorithm) (algdata : Option ℕ) (inputs : List ℕ)
    → IsFresh g id g'
    → check_inputs g.nodes_ alg.nparsin inputs ≡ true
    → IsGraph (add_node g' id alg algdata inputs)
unfolding add_node
add_node-IsGraph g g' id alg algdata inputs fresh checked = record {
  has_nodes =
      set-some-HasNodes (freeze_inputs inputs g'.nodes_) id _
        (freeze_inputs-HasNodes inputs g'.nodes_ fresh.graph.has_nodes)
        (freeze_inputs-none inputs g'.nodes_ id fresh.free.0) inside refl
        (subst (All (IsInput (freeze_inputs inputs g'.nodes_) (max_depth g'.nodes_ inputs + 1)))
          (sym (node_ids alg.nparsin inputs g'.nodes_ fresh.graph.has_nodes checked'))
          (freeze_inputs-IsInput alg.nparsin inputs g'.nodes_ (max_depth g'.nodes_ inputs + 1)
            checked' (omega arith)));
  slots_free =
      All-zip (IsFree g'.nodes_) (λ y. id ≢ y) (IsFree (set (freeze_inputs inputs g'.nodes_) id _))
        (λ y f.
          set-IsFree (freeze_inputs inputs g'.nodes_) id y _ inside
            (freeze_inputs-IsFree inputs g'.nodes_ y f))
        g'.free_node_slots_ fresh.graph.slots_free fresh.apart;
  slots_distinct = fresh.graph.slots_distinct;
}
  where
    checked' : check_inputs g'.nodes_ alg.nparsin inputs ≡ true
    checked' = check_inputs_mono g.nodes_ g'.nodes_ fresh.old alg.nparsin inputs checked

    inside : id < length (freeze_inputs inputs g'.nodes_)
    inside = omega (arith, length-freeze_inputs inputs g'.nodes_, fresh.free.1)

IsFresh-vacant :
    (g : Graph) (id : ℕ) (g' : Graph) → IsFresh g id g' → lookup_node g.nodes_ id ≡ none
IsFresh-vacant g id g' fresh = elim (Option-cases (lookup_node g.nodes_ id)) [
  | inl gone ↦ gone
  | inr (m, e) ↦ absurd (none_ne_some m (sym fresh.free.0 ∙ fresh.old id m e))
]

add_node-exists :
    (g : Graph) (id : ℕ) (alg : Algorithm) (algdata : Option ℕ) (inputs : List ℕ)
    → id < length g.nodes_
    → node_exists (add_node g id alg algdata inputs) id ≡ true
unfolding add_node node_exists
add_node-exists g id alg algdata inputs h =
    ap is_some (
      lookup_node-set (freeze_inputs inputs g.nodes_) id id _
        (omega (arith, length-freeze_inputs inputs g.nodes_)))
    ∙ ground arith

get_free_node_id_-peek :
    (g : Graph) → is_mutable g.base ≡ true → (get_free_node_id_ g).0 ≡ peek_new_node_id g
unfolding get_free_node_id_ take_node_slot push_node_slot peek_new_node_id ensure_input
    set_input_vars
get_free_node_id_-peek g h = ground arith

module _ (g : Graph) (alg : Algorithm) (algdata : Option ℕ) (inputs : List ℕ) where
  accepted_node :
      is_mutable g.base ≡ true
      → check_inputs g.nodes_ alg.nparsin inputs ≡ true
      → new_node g alg algdata inputs ≡ (
        (get_free_node_id_ g).0,
        add_node (get_free_node_id_ g).1 (get_free_node_id_ g).0 alg algdata inputs,
      )
  unfolding new_node
  accepted_node h k = rw (h, k)

  refused_node :
      is_mutable g.base && check_inputs g.nodes_ alg.nparsin inputs ≡ false
      → new_node g alg algdata inputs ≡ (alg_no_id, g)
  unfolding new_node
  refused_node h = rw h

  -- Adding a node to a well-formed graph, whether it is accepted or refused, leaves a well-formed
  -- graph: every input of a node exists, is immutable and is less deep, and the free slots are empty
  -- and distinct.
  pub new_node-IsGraph : IsGraph g → IsGraph (new_node g alg algdata inputs).1
  new_node-IsGraph ok = elim (Bool-cases (is_mutable g.base)) [
    | inl mutable ↦ elim (Bool-cases (check_inputs g.nodes_ alg.nparsin inputs)) [
      | inl checked ↦
          subst (λ r. IsGraph r.1) (sym (accepted_node mutable checked))
            (add_node-IsGraph g (get_free_node_id_ g).1 (get_free_node_id_ g).0 alg algdata inputs
              (get_free_node_id_-IsFresh g mutable ok) checked)
      | inr unchecked ↦ subst (λ r. IsGraph r.1) (sym (refused_node (ground arith))) ok
    ]
    | inr immutable ↦ subst (λ r. IsGraph r.1) (sym (refused_node (ground arith))) ok
  ]

  -- On a well-formed graph that is mutable, a node whose inputs pass the check gets the id that
  -- `peek_new_node_id` foretold. No node had it before.
  pub new_node-peek :
      IsGraph g
      → is_mutable g.base ≡ true
      → check_inputs g.nodes_ alg.nparsin inputs ≡ true
      → ((new_node g alg algdata inputs).0 ≡ peek_new_node_id g)
        × (lookup_node g.nodes_ (peek_new_node_id g) ≡ none)
        × (node_exists (new_node g alg algdata inputs).1 (peek_new_node_id g) ≡ true)
  new_node-peek ok mutable checked = (
    ap (λ r. r.0) accepted ∙ id_peek,
    subst (λ i. lookup_node g.nodes_ i ≡ none) id_peek vacant,
    subst (λ i. node_exists (new_node g alg algdata inputs).1 i ≡ true) id_peek
        (ap (λ r. node_exists r.1 (get_free_node_id_ g).0) accepted
          ∙ add_node-exists (get_free_node_id_ g).1 (get_free_node_id_ g).0 alg algdata inputs
              fresh.free.1),
  )
    where
      accepted : new_node g alg algdata inputs ≡ (
        (get_free_node_id_ g).0,
        add_node (get_free_node_id_ g).1 (get_free_node_id_ g).0 alg algdata inputs,
      )
      accepted = accepted_node mutable checked

      id_peek : (get_free_node_id_ g).0 ≡ peek_new_node_id g
      id_peek = get_free_node_id_-peek g mutable

      fresh : IsFresh g (get_free_node_id_ g).0 (get_free_node_id_ g).1
      fresh = get_free_node_id_-IsFresh g mutable ok

      vacant : lookup_node g.nodes_ (get_free_node_id_ g).0 ≡ none
      vacant = IsFresh-vacant g (get_free_node_id_ g).0 (get_free_node_id_ g).1 fresh

All-member {ℓ} :
    {A : Type ℓ} (P : A → Type 0) (before : List A) (x : A) (after : List A)
    → All P (before ++ x ∷ after)
    → P x
All-member P [] x after h = h.0
All-member P (y ∷ before) x after h = All-member P before x after h.1

module _ (g : Graph) (id : ℕ) where
  remove_node-IsGraph :
      (n : Node)
      → IsGraph g
      → lookup_node g.nodes_ id ≡ some n
      → n.alg_.is_immutable ≡ false
      → IsGraph (remove_node g id)
  unfolding remove_node
  remove_node-IsGraph n ok here mutable = record {
    has_nodes = set-none-HasNodes g.nodes_ id n ok.has_nodes here mutable;
    slots_free = (
      emptied,
      All-map (IsFree g.nodes_) (IsFree (set g.nodes_ id none))
          (λ y f. set-IsFree g.nodes_ id y none inside f (other y f)) g.free_node_slots_
          ok.slots_free,
    );
    slots_distinct = (
      All-map (IsFree g.nodes_) (λ y. id ≢ y) other g.free_node_slots_ ok.slots_free,
      ok.slots_distinct,
    );
  }
    where
      other : (y : ℕ) → IsFree g.nodes_ y → id ≢ y
      other y f e = none_ne_some n (sym f.0 ∙ ap (lookup_node g.nodes_) (sym e) ∙ here)

      inside : id < length g.nodes_
      inside = elim (Bool-cases (ltb id (length g.nodes_))) [
        | inl below ↦ ltb→lt id (length g.nodes_) below
        | inr above ↦ absurd (
            none_ne_some n
              (sym (lookup_node-length g.nodes_ id (ltb→le id (length g.nodes_) above)) ∙ here))
      ]

      emptied : IsFree (set g.nodes_ id none) id
      emptied = (
        lookup_node-set g.nodes_ id id none inside ∙ ground arith,
        omega (arith, inside, length-set {0} g.nodes_ id none),
      )

  missing_node : lookup_node g.nodes_ id ≡ none → delete_node g id ≡ (alg_no_id, g)
  unfolding delete_node delete_node_
  missing_node h =
      ap
        (λ o. elim o [
          | none ↦ (alg_no_id, g)
          | some nd ↦
              if not false && not (is_mutable nd.alg_)
              then (alg_no_id, g)
              else (id, remove_node g id)
        ])
        h

  module _ (n : Node) (here : lookup_node g.nodes_ id ≡ some n) where
    found_node :
        delete_node g id
        ≡ (if not false && not (is_mutable n.alg_) then (alg_no_id, g) else (id, remove_node g id))
    unfolding delete_node delete_node_
    found_node =
        ap
          (λ o. elim o [
            | none ↦ (alg_no_id, g)
            | some nd ↦
                if not false && not (is_mutable nd.alg_)
                then (alg_no_id, g)
                else (id, remove_node g id)
          ])
          here

    immutable_node : n.alg_.is_immutable ≡ true → delete_node g id ≡ (alg_no_id, g)
    immutable_node h =
        found_node
        ∙ ap (λ b. if not false && not (not b) then (alg_no_id, g) else (id, remove_node g id)) h

    mutable_node : n.alg_.is_immutable ≡ false → delete_node g id ≡ (id, remove_node g id)
    mutable_node h =
        found_node
        ∙ ap (λ b. if not false && not (not b) then (alg_no_id, g) else (id, remove_node g id)) h

  -- Deleting a node of a well-formed graph leaves a well-formed graph, whether the node is deleted
  -- or the call is refused because the node does not exist or is immutable.
  pub delete_node-IsGraph : IsGraph g → IsGraph (delete_node g id).1
  delete_node-IsGraph ok = elim (Option-cases (lookup_node g.nodes_ id)) [
    | inl gone ↦ subst (λ r. IsGraph r.1) (sym (missing_node gone)) ok
    | inr (n, here) ↦ elim (Bool-cases n.alg_.is_immutable) [
      | inl immutable ↦ subst (λ r. IsGraph r.1) (sym (immutable_node n here immutable)) ok
      | inr mutable ↦
          subst (λ r. IsGraph r.1) (sym (mutable_node n here mutable))
            (remove_node-IsGraph n ok here mutable)
    ]
  ]

  -- In a well-formed graph a node that another node has as an input is never deleted: `delete_node`
  -- refuses it and changes nothing.
  pub delete_node-input :
      IsGraph g
      → (i : ℕ) (nd : Node) (before after : List ℕ) → lookup_node g.nodes_ i ≡ some nd
      → nd.inputs_ ≡ before ++ id ∷ after
      → delete_node g id ≡ (alg_no_id, g)
  delete_node-input ok i nd before after here e =
      let (m, at, im, dm) =
        All-member (IsInput g.nodes_ nd.depth_) before id after
          (subst (All (IsInput g.nodes_ nd.depth_)) e (ok.has_nodes i nd here).1) in
      immutable_node m at im
