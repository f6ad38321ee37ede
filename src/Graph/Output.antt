-- ===== src/Graph/Output.antt =====
-- src/graph.cc: `Graph::set_output_node` with the marks on the nodes that the output depends on and
-- the sequence of computations, and the lists of nodes and edges.
use finiteflow.Base.{
  ℕ, zero, suc, List, [], ◌∷◌, ◌++◌, Option, none, some, Bool, true, false, not, ◌&&◌, ◌||◌, ◌+◌,
  ◌≤◌, ◌≡◌, ◌⊎◌, ◌↔◌, length, get_or, set, replicate, ◌==◌, if◌then◌else◌,
}
use finiteflow.Algorithm.{is_mutable, set_mutable}
use finiteflow.Graph.{
  Graph, Node, alg_no_id, lookup_node, node_exists, node_depth, update_node, change_alg,
}

-- `std::sort` by a key. Its order of items with equal keys is not specified.
abbrev pub Member : ℕ → List ℕ → Type 0
Member y [] = ⊥
Member y (x ∷ xs) = (y ≡ x) ⊎ Member y xs

abbrev pub IsSortedBy : (ℕ → ℕ) → List ℕ → Type 0
IsSortedBy key [] = Unit
IsSortedBy key (x ∷ xs) = ((y : ℕ) → Member y xs → key x ≤ key y) × IsSortedBy key xs

pub record Sorter : Type 0 where
  pub sort : (ℕ → ℕ) → List ℕ → List ℕ
  pub is_sorted : (key : ℕ → ℕ) (xs : List ℕ) → IsSortedBy key (sort key xs)
  pub same_members : (key : ℕ → ℕ) (xs : List ℕ) (y : ℕ) → Member y (sort key xs) ↔ Member y xs

abbrev pub node_is_marked_ : List Bool → ℕ → Bool
node_is_marked_ marks i = get_or marks i false

abbrev pub node_inputs : List (Option Node) → ℕ → List ℕ
node_inputs nodes i = elim (lookup_node nodes i) [ none ↦ [] | some nd ↦ nd.inputs_ ]

-- The loop over the inputs of a node, which visits those that are not marked yet.
unfoldable pub mark_deps : (ℕ → List Bool → List Bool) → List ℕ → List Bool → List Bool
mark_deps visit [] marks = marks
mark_deps visit (dep ∷ deps) marks =
    mark_deps visit deps (if node_is_marked_ marks dep then marks else visit dep marks)

-- The recursion takes one unit of fuel for each level, and inputs are less deep than their node.
unfoldable pub mark_node_and_deps_ : ℕ → List (Option Node) → ℕ → List Bool → List Bool
unfolding mark_deps
mark_node_and_deps_ zero nodes id marks = marks
mark_node_and_deps_ (suc fuel) nodes id marks =
    mark_deps (λ dep m. mark_node_and_deps_ fuel nodes dep m) (node_inputs nodes id)
      (set marks id true)

-- `reset_node_marks_` and the marks of the new output.
unfoldable pub output_marks : List (Option Node) → ℕ → List Bool
unfolding mark_node_and_deps_
output_marks nodes id =
    mark_node_and_deps_ (node_depth nodes id + 1) nodes id (replicate (length nodes) false)

abbrev pub node_has_learned : List (Option Node) → ℕ → Bool
node_has_learned nodes j = elim (lookup_node nodes j) [ none ↦ false | some nd ↦ nd.alg_.learned ]

-- The loop that fills `comput_seq_`, from position `j` on; it stops at a node that has not learned.
unfoldable pub collect_seq : List (Option Node) → ℕ → ℕ → List Bool → List ℕ × Bool
collect_seq nodes id j [] = ([], true)
collect_seq nodes id j (false ∷ marks) = collect_seq nodes id (suc j) marks
collect_seq nodes id j (true ∷ marks) =
    let rest = collect_seq nodes id (suc j) marks in
    if not (j == id) && not (node_has_learned nodes j) then ([], false) else (j ∷ rest.0, rest.1)

module _ (sorter : Sorter) where
  unfoldable pub change_output : Graph → ℕ → ℕ × Graph
  change_output g id =
      let marks = output_marks g.nodes_ id in
      let found = collect_seq g.nodes_ id 0 marks in
      if found.1
      then (
        id,
        record g {
          mark_nodes_ = marks;
          comput_seq_ = sorter.sort (node_depth g.nodes_) found.0;
          out_node_ = id;
          base = record g.base {
            learned = node_has_learned g.nodes_ id;
            nparsout = elim (lookup_node g.nodes_ id) [ none ↦ 0 | some nd ↦ nd.alg_.nparsout ];
          };
          rec_data_ = false;
        },
      )
      else (alg_no_id, record g { mark_nodes_ = marks; comput_seq_ = found.0 })

  unfoldable pub set_output_node : Graph → ℕ → ℕ × Graph
  unfolding node_exists
  set_output_node g id =
      if is_mutable g.base && node_exists g id
      then (if id == g.out_node_ then (id, g) else change_output g id)
      else (alg_no_id, g)

-- `edges_` and `get_nodes_`: the list that they fill, and the output node that they return.
abbrev pub edges_to : ℕ → List ℕ → List ℕ
edges_to nodeid [] = []
edges_to nodeid (inputid ∷ inputs) = inputid ∷ nodeid ∷ edges_to nodeid inputs

edges_from : Bool → List Bool → List (Option Node) → List ℕ
edges_from marked_only marks [] = []
edges_from marked_only marks (none ∷ nodes) = edges_from marked_only marks nodes
edges_from marked_only marks (some nd ∷ nodes) =
    (if marked_only && not (node_is_marked_ marks nd.id_) then [] else edges_to nd.id_ nd.inputs_)
    ++ edges_from marked_only marks nodes

unfoldable pub edges_ : Graph → Bool → List ℕ × ℕ
unfolding edges_from
edges_ g marked_only =
    if marked_only && (g.out_node_ == alg_no_id)
    then ([], g.out_node_)
    else (edges_from marked_only g.mark_nodes_ g.nodes_, g.out_node_)

nodes_from : Bool → List Bool → List (Option Node) → List ℕ
nodes_from marked_only marks [] = []
nodes_from marked_only marks (none ∷ nodes) = nodes_from marked_only marks nodes
nodes_from marked_only marks (some nd ∷ nodes) =
    (if marked_only && not (node_is_marked_ marks nd.id_) then [] else nd.id_ ∷ [])
    ++ nodes_from marked_only marks nodes

unfoldable pub get_nodes_ : Graph → Bool → List ℕ × ℕ
unfolding nodes_from
get_nodes_ g marked_only =
    if marked_only && (g.out_node_ == alg_no_id)
    then ([], g.out_node_)
    else (nodes_from marked_only g.mark_nodes_ g.nodes_, g.out_node_)

-- Session::set_node_mutable, on an existing graph: a node that no node has as an input becomes
-- mutable again.
abbrev pub is_member : ℕ → List ℕ → Bool
is_member y [] = false
is_member y (x ∷ xs) = (x == y) || is_member y xs

unfoldable pub is_input_of_some : ℕ → List (Option Node) → Bool
is_input_of_some id [] = false
is_input_of_some id (none ∷ nodes) = is_input_of_some id nodes
is_input_of_some id (some nd ∷ nodes) = is_member id nd.inputs_ || is_input_of_some id nodes

unfoldable pub set_node_mutable : Graph → ℕ → ℕ × Graph
unfolding is_input_of_some node_exists
set_node_mutable g id =
    if node_exists g id && is_mutable g.base && not (is_input_of_some id g.nodes_)
    then (id, record g { nodes_ = update_node g.nodes_ id (change_alg set_mutable) })
    else (alg_no_id, g)
