-- ===== src/Graph/Sequence.antt =====
-- `Graph::set_output_node`: the sequence of computations holds the nodes that the output depends on,
-- each after its inputs.
use finiteflow.Base.{
  ℕ, zero, suc, List, [], ◌∷◌, ◌++◌, Option, none, some, Bool, true, false, not, ◌&&◌, ◌+◌, ◌<◌,
  ◌≤◌, ◌≡◌, ◌≢◌, ◌⊎◌, ◌↔◌, inl, inr, ◌==◌, if◌then◌else◌, refl, ap, sym, ◌∙◌, subst, arith,
  Bool-cases, Option-cases, ==→eq,
}
use finiteflow.Algorithm.{is_mutable}
use finiteflow.Graph.{Graph, Node, alg_no_id, lookup_node, node_depth, node_exists}
use finiteflow.Base.{All}
use finiteflow.Graph.Nodes.{HasNodes, IsInput}
use finiteflow.Graph.Edit.{IsGraph, IsFree, Distinct}
use finiteflow.Graph.Output.{
  Member, IsSortedBy, Sorter, node_inputs, node_has_learned, output_marks, collect_seq,
  change_output, set_output_node,
}
use finiteflow.Graph.Marks.{
  DependsOn, IsMarked, output_marks_lem, output_marks-closed, All_at, node_inputs_lem,
  node_depth_lem,
}

Member-append :
    (before : List ℕ) (x : ℕ) (after : List ℕ) (y : ℕ)
    → Member y (before ++ x ∷ after)
    → Member y before ⊎ ((y ≡ x) ⊎ Member y after)
Member-append [] x after y m = inr m
Member-append (z ∷ before) x after y m = elim m [
  | inl same ↦ inl (inl same)
  | inr later ↦ elim (Member-append before x after y later) [ inl b ↦ inl (inr b) | inr a ↦ inr a ]
]

Member-middle : (before : List ℕ) (x : ℕ) (after : List ℕ) → Member x (before ++ x ∷ after)
Member-middle [] x after = inl refl
Member-middle (z ∷ before) x after = inr (Member-middle before x after)

IsSortedBy-after :
    (key : ℕ → ℕ) (before : List ℕ) (x : ℕ) (after : List ℕ) (y : ℕ)
    → IsSortedBy key (before ++ x ∷ after)
    → Member y after
    → key x ≤ key y
IsSortedBy-after key [] x after y h m = h.0 y m
IsSortedBy-after key (z ∷ before) x after y h m = IsSortedBy-after key before x after y h.1 m

first_or_later :
    (j : ℕ) (marks : List Bool) (found : List ℕ)
    → ((k : ℕ) → IsMarked marks k → Member (suc j + k) found)
    → (k : ℕ) → IsMarked (true ∷ marks) k
    → Member (j + k) (j ∷ found)
first_or_later j marks found rest zero h = inl (omega arith)
first_or_later j marks found rest (suc k) h =
    inr (subst (λ t. Member t found) (omega arith) (rest k h))

pub node_inputs_less :
    (nodes : List (Option Node)) (x y : ℕ)
    → HasNodes nodes
    → Member y (node_inputs nodes x)
    → node_depth nodes y < node_depth nodes x
node_inputs_less nodes x y ok m = elim (Option-cases (lookup_node nodes x)) [
  | inl gone ↦
      absurd (subst (Member y) (ap (λ o. elim o [ none ↦ [] | some nd ↦ nd.inputs_ ]) gone) m)
  | inr (nd, here) ↦
      let (md, at, im, dm) =
        All_at (IsInput nodes nd.depth_) nd.inputs_ y (ok x nd here).1
          (subst (Member y) (node_inputs_lem nodes x nd here) m) in
      omega (arith, dm, node_depth_lem nodes x nd here, node_depth_lem nodes y md at)
]

-- The collected positions are marked ones, and have learned unless they are the output.
module _ (nodes : List (Option Node)) (id : ℕ) where
  collect_seq_stop :
      (j : ℕ) (marks : List Bool)
      → not (j == id) && not (node_has_learned nodes j) ≡ true
      → collect_seq nodes id j (true ∷ marks) ≡ ([], false)
  unfolding collect_seq
  collect_seq_stop j marks h =
      ap
        (λ b.
          if b
          then ([], false)
          else (j ∷ (collect_seq nodes id (suc j) marks).0, (collect_seq nodes id (suc j) marks).1))
        h

  collect_seq_go :
      (j : ℕ) (marks : List Bool)
      → not (j == id) && not (node_has_learned nodes j) ≡ false
      → collect_seq nodes id j (true ∷ marks)
        ≡ (j ∷ (collect_seq nodes id (suc j) marks).0, (collect_seq nodes id (suc j) marks).1)
  unfolding collect_seq
  collect_seq_go j marks h =
      ap
        (λ b.
          if b
          then ([], false)
          else (j ∷ (collect_seq nodes id (suc j) marks).0, (collect_seq nodes id (suc j) marks).1))
        h

  learned_or_output :
      (j : ℕ)
      → not (j == id) && not (node_has_learned nodes j) ≡ false
      → (j ≡ id) ⊎ (node_has_learned nodes j ≡ true)
  learned_or_output j h = elim (Bool-cases (j == id)) [
    | inl same ↦ inl (==→eq j id same)
    | inr other ↦ inr (ground arith)
  ]

  collect_seq_sound :
      (j : ℕ) (marks : List Bool) (i : ℕ)
      → Member i (collect_seq nodes id j marks).0
      → (k : ℕ) × (i ≡ j + k) × IsMarked marks k × ((i ≡ id) ⊎ (node_has_learned nodes i ≡ true))
  unfolding collect_seq
  collect_seq_sound j [] i m = absurd m
  collect_seq_sound j (false ∷ marks) i m =
      let (k, e, h, l) = collect_seq_sound (suc j) marks i m in (suc k, omega (arith, e), h, l)
  collect_seq_sound j (true ∷ marks) i m =
      elim (Bool-cases (not (j == id) && not (node_has_learned nodes j))) [
        | inl stop ↦ absurd (subst (λ r. Member i r.0) (collect_seq_stop j marks stop) m)
        | inr go ↦ elim (subst (λ r. Member i r.0) (collect_seq_go j marks go) m) [
          | inl same ↦ (
            0,
            omega (arith, same),
            refl,
            subst (λ t. (t ≡ id) ⊎ (node_has_learned nodes t ≡ true)) (sym same)
                (learned_or_output j go),
          )
          | inr later ↦
              let (k, e, h, l) = collect_seq_sound (suc j) marks i later in
              (suc k, omega (arith, e), h, l)
        ]
      ]

  collect_seq_complete :
      (j : ℕ) (marks : List Bool) (k : ℕ)
      → (collect_seq nodes id j marks).1 ≡ true
      → IsMarked marks k
      → Member (j + k) (collect_seq nodes id j marks).0
  unfolding collect_seq
  collect_seq_complete j [] k ok h = absurd (ground arith)
  collect_seq_complete j (false ∷ marks) zero ok h = absurd (ground arith)
  collect_seq_complete j (false ∷ marks) (suc k) ok h =
      subst (λ t. Member t (collect_seq nodes id (suc j) marks).0) (omega arith)
        (collect_seq_complete (suc j) marks k ok h)
  collect_seq_complete j (true ∷ marks) k ok h =
      elim (Bool-cases (not (j == id) && not (node_has_learned nodes j))) [
        | inl stop ↦
            absurd (ground (arith, sym (ap (λ r. r.1) (collect_seq_stop j marks stop)) ∙ ok))
        | inr go ↦
            subst (λ r. Member (j + k) r.0) (sym (collect_seq_go j marks go))
              (first_or_later j marks (collect_seq nodes id (suc j) marks).0
                (λ k' h'.
                  collect_seq_complete (suc j) marks k'
                    (sym (ap (λ r. r.1) (collect_seq_go j marks go)) ∙ ok) h')
                k h)
      ]

module _ (sorter : Sorter) (g : Graph) (id : ℕ) where
  set_output_node_seq :
      id < alg_no_id
      → id ≢ g.out_node_
      → (set_output_node sorter g id).0 ≡ id
      → (node_exists g id ≡ true)
        × ((collect_seq g.nodes_ id 0 (output_marks g.nodes_ id)).1 ≡ true)
        × ((set_output_node sorter g id).1.comput_seq_
            ≡ sorter.sort
                (node_depth g.nodes_)
                (collect_seq g.nodes_ id 0 (output_marks g.nodes_ id)).0)
  unfolding set_output_node change_output node_exists
  set_output_node_seq small new done = ground arith

  node_exists-some : node_exists g id ≡ true → (nd : Node) × (lookup_node g.nodes_ id ≡ some nd)
  unfolding node_exists
  node_exists-some h = elim (Option-cases (lookup_node g.nodes_ id)) [
    | inl gone ↦ absurd (ground arith)
    | inr found ↦ found
  ]

  module _ (ok : IsGraph g) (small : id < alg_no_id) (new : id ≢ g.out_node_)
      (done : (set_output_node sorter g id).0 ≡ id) where
    sequence : List ℕ
    sequence = (set_output_node sorter g id).1.comput_seq_

    collected : List ℕ
    collected = (collect_seq g.nodes_ id 0 (output_marks g.nodes_ id)).0

    sequence-collected : (y : ℕ) → Member y sequence ↔ Member y collected
    unfolding sequence collected
    sequence-collected y =
        subst (λ l. Member y l ↔ Member y (collect_seq g.nodes_ id 0 (output_marks g.nodes_ id)).0)
          (sym (set_output_node_seq small new done).2)
          (sorter.same_members (node_depth g.nodes_) _ y)

    collected-IsMarked : (y : ℕ) → Member y collected ↔ IsMarked (output_marks g.nodes_ id) y
    unfolding collected
    collected-IsMarked y = (
      λ m.
          let (k, e, h, l) = collect_seq_sound g.nodes_ id 0 (output_marks g.nodes_ id) y m in
          subst (IsMarked (output_marks g.nodes_ id)) (omega (arith, e)) h,
      λ h.
          subst (λ t. Member t (collect_seq g.nodes_ id 0 (output_marks g.nodes_ id)).0)
            (omega arith)
            (collect_seq_complete g.nodes_ id 0 (output_marks g.nodes_ id) y
              (set_output_node_seq small new done).1 h),
    )

    -- When `set_output_node` accepts an id below ALG_NO_ID, other than the present output's, in
    -- a well-formed graph, its sequence of computations holds exactly the nodes that the output
    -- depends on, the output among them.
    pub set_output_node-DependsOn :
        (y : ℕ) → Member y (set_output_node sorter g id).1.comput_seq_ ↔ DependsOn g.nodes_ id y
    unfolding sequence
    set_output_node-DependsOn y =
        let (nd, here) = node_exists-some (set_output_node_seq small new done).0 in
        let marks = output_marks_lem g.nodes_ ok.has_nodes id nd here y in
        (
          λ m. marks.0 ((collected-IsMarked y).0 ((sequence-collected y).0 m)),
          λ d. (sequence-collected y).1 ((collected-IsMarked y).1 (marks.1 d)),
        )

    -- The inputs of a member are members.
    sequence-input :
        (x y : ℕ) → Member x sequence → Member y (node_inputs g.nodes_ x) → Member y sequence
    sequence-input x y at m =
        let (nd, here) = node_exists-some (set_output_node_seq small new done).0 in
        (sequence-collected y).1 (
          (collected-IsMarked y).1 (
            output_marks-closed g.nodes_ ok.has_nodes id nd here x y
              ((collected-IsMarked x).0 ((sequence-collected x).0 at)) m))

    sequence-IsSortedBy : IsSortedBy (node_depth g.nodes_) sequence
    unfolding sequence
    sequence-IsSortedBy =
        subst (IsSortedBy (node_depth g.nodes_)) (sym (set_output_node_seq small new done).2)
          (sorter.is_sorted (node_depth g.nodes_) _)

    -- When `set_output_node` accepts an id below ALG_NO_ID, other than the present output's, in
    -- a well-formed graph, every input of a node of its sequence of computations stands in the
    -- sequence before that node.
    pub set_output_node-order :
        (before : List ℕ) (x : ℕ) (after : List ℕ) (y : ℕ)
        → (set_output_node sorter g id).1.comput_seq_ ≡ before ++ x ∷ after
        → Member y (node_inputs g.nodes_ x)
        → Member y before
    unfolding sequence
    set_output_node-order before x after y e m =
        let less = node_inputs_less g.nodes_ x y ok.has_nodes m in
        let at = sequence-input x y (subst (Member x) (sym e) (Member-middle before x after)) m in
        elim (Member-append before x after y (subst (Member y) e at)) [
          | inl b ↦ b
          | inr (inl same) ↦ absurd (omega (arith, less, ap (node_depth g.nodes_) same))
          | inr (inr later) ↦ absurd (
              omega (
                arith,
                less,
                IsSortedBy-after (node_depth g.nodes_) before x after y
                    (subst (IsSortedBy (node_depth g.nodes_)) e sequence-IsSortedBy) later,
              ))
        ]

    -- When `set_output_node` accepts an id below ALG_NO_ID, other than the present output's, in
    -- a well-formed graph, every other node of its sequence of computations has completed its
    -- learning.
    pub set_output_node-learned :
        (y : ℕ)
        → Member y (set_output_node sorter g id).1.comput_seq_
        → (y ≡ id) ⊎ (node_has_learned g.nodes_ y ≡ true)
    unfolding sequence collected
    set_output_node-learned y m =
        let (k, e, h, l) =
          collect_seq_sound g.nodes_ id 0 (output_marks g.nodes_ id) y
            ((sequence-collected y).0 m) in
        l

collect_seq-accepts :
    (nodes : List (Option Node)) (id j : ℕ) (marks : List Bool)
    → ((k : ℕ) → IsMarked marks k → (j + k ≡ id) ⊎ (node_has_learned nodes (j + k) ≡ true))
    → (collect_seq nodes id j marks).1 ≡ true
unfolding collect_seq
collect_seq-accepts nodes id j [] h = refl
collect_seq-accepts nodes id j (false ∷ marks) h =
    collect_seq-accepts nodes id (suc j) marks
      (λ k m. subst (λ t. (t ≡ id) ⊎ (node_has_learned nodes t ≡ true)) (omega arith) (h (suc k) m))
collect_seq-accepts nodes id j (true ∷ marks) h =
    elim (Bool-cases (not (j == id) && not (node_has_learned nodes j))) [
      | inr go ↦
          ap (λ r. r.1) (collect_seq_go nodes id j marks go)
          ∙ collect_seq-accepts nodes id (suc j) marks (λ k m.
            subst (λ t. (t ≡ id) ⊎ (node_has_learned nodes t ≡ true)) (omega arith) (h (suc k) m))
      | inl stop ↦ absurd (
          not_ready stop
            (subst (λ t. (t ≡ id) ⊎ (node_has_learned nodes t ≡ true)) (omega arith) (h 0 refl)))
    ]
  where
    not_ready :
        not (j == id) && not (node_has_learned nodes j) ≡ true
        → (j ≡ id) ⊎ (node_has_learned nodes j ≡ true)
        → ⊥
    not_ready stop (inl same) = ground arith
    not_ready stop (inr learned) = ground arith

-- A mutable, well-formed graph accepts an existing node as its new output, and returns its id, when
-- every other node that it depends on has completed its learning.
pub set_output_node-accepts :
    (sorter : Sorter) (g : Graph) (id : ℕ) (nd : Node)
    → IsGraph g
    → is_mutable g.base ≡ true
    → lookup_node g.nodes_ id ≡ some nd
    → ((y : ℕ) → DependsOn g.nodes_ id y → (y ≡ id) ⊎ (node_has_learned g.nodes_ y ≡ true))
    → (set_output_node sorter g id).0 ≡ id
unfolding set_output_node change_output node_exists
set_output_node-accepts sorter g id nd ok mutable here ready = ground (
  arith,
  here,
  mutable,
  collect_seq-accepts g.nodes_ id 0 (output_marks g.nodes_ id) (λ k m.
      subst (λ t. (t ≡ id) ⊎ (node_has_learned g.nodes_ t ≡ true)) (omega arith)
        (ready k ((output_marks_lem g.nodes_ ok.has_nodes id nd here k).0 m))),
)

module _ (sorter : Sorter) (g : Graph) (id : ℕ) where
  set_output_node-nodes : (set_output_node sorter g id).1.nodes_ ≡ g.nodes_
  unfolding set_output_node change_output
  set_output_node-nodes = ground arith

  set_output_node-slots : (set_output_node sorter g id).1.free_node_slots_ ≡ g.free_node_slots_
  unfolding set_output_node change_output
  set_output_node-slots = ground arith

  -- A successful change of the output leaves a sequence sorted by depth.
  pub set_output_node-IsSortedBy :
      id < alg_no_id
      → id ≢ g.out_node_
      → (set_output_node sorter g id).0 ≡ id
      → IsSortedBy
          (node_depth (set_output_node sorter g id).1.nodes_)
          (set_output_node sorter g id).1.comput_seq_
  set_output_node-IsSortedBy small new done =
      subst (λ l. IsSortedBy (node_depth l) (set_output_node sorter g id).1.comput_seq_)
        (sym set_output_node-nodes)
        (subst (IsSortedBy (node_depth g.nodes_))
          (sym (set_output_node_seq sorter g id small new done).2)
          (sorter.is_sorted (node_depth g.nodes_) _))

  -- Choosing an output, accepted or refused, keeps a graph well formed.
  pub set_output_node-IsGraph : IsGraph g → IsGraph (set_output_node sorter g id).1
  set_output_node-IsGraph ok = record {
    has_nodes = subst HasNodes (sym set_output_node-nodes) ok.has_nodes;
    slots_free =
        subst (λ l. All (IsFree l) (set_output_node sorter g id).1.free_node_slots_)
          (sym set_output_node-nodes)
          (subst (All (IsFree g.nodes_)) (sym set_output_node-slots) ok.slots_free);
    slots_distinct = subst Distinct (sym set_output_node-slots) ok.slots_distinct;
  }
