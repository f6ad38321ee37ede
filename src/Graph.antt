-- ===== src/Graph.antt =====
-- include/fflow/graph.hh and src/graph.cc: a dataflow graph, its nodes and the operations on them.
-- The graph's part of the session is the data that the main context keeps for it; data of an
-- algorithm is known by a number, and of an output array only the size is kept. The data that other
-- contexts keep is left out.
pub mod Nodes
pub mod Edit
pub mod Output
pub mod Marks
pub mod Sequence
pub mod Mutable
mod InsertionSort
pub mod Evaluate
pub mod Dataflow
mod Examples
use finiteflow.Base.{
  ℕ, zero, suc, List, [], ◌∷◌, ◌++◌, map, Option, none, some, Bool, true, false, not, ◌&&◌, ◌||◌,
  ◌+◌, ◌-◌, length, get_elem?, get_or, set, take, replicate, ltb, leb, ◌==◌, if◌then◌else◌, max,
}
use finiteflow.Algorithm.{
  Algorithm, set_immutable, set_mutable, is_mutable, has_learned, set_learned, input_algorithm,
}

-- ALG_NO_ID
abbrev pub alg_no_id : ℕ
alg_no_id = 0xffff_ffff

-- class Node
pub record Node : Type 0 where
  pub alg_ : Algorithm
  pub inputs_ : List ℕ
  pub id_ : ℕ
  pub depth_ : ℕ

-- class GraphData: the data of each node, and the size of its output array.
pub record GraphData : Type 0 where
  pub algdata_ : List (Option ℕ)
  pub xout_ : List ℕ

-- What the graph writes of its session: its data, and the size of the array `xin_`.
pub record GraphSession : Type 0 where
  pub graph_data : GraphData
  pub xin_size : ℕ

-- class Graph, with its base class. The last free slot is the head of the list, and `rec_data_`
-- tells whether there is reconstruction data.
pub record Graph : Type 0 where
  pub base : Algorithm
  pub nodes_ : List (Option Node)
  pub comput_seq_ : List ℕ
  pub free_node_slots_ : List ℕ
  pub out_node_ : ℕ
  pub mark_nodes_ : List Bool
  pub rec_data_ : Bool
  pub session_ : Option GraphSession

-- `resize` of a vector, with the value of new entries.
abbrev pub resize {ℓ} : {A : Type ℓ} → ℕ → A → List A → List A
resize zero a xs = []
resize (suc n) a [] = a ∷ resize n a []
resize (suc n) a (x ∷ xs) = x ∷ resize n a xs

abbrev pub add_data_ : ℕ → Option ℕ → GraphData → GraphData
add_data_ id data' d =
    let grown : GraphData =
      if ltb (length d.algdata_) (id + 1)
      then record { algdata_ = resize (id + 1) none d.algdata_; xout_ = resize (id + 1) 0 d.xout_ }
      else d in
    record grown { algdata_ = set grown.algdata_ id data' }

abbrev pub set_nparsout_ : ℕ → ℕ → GraphData → GraphData
set_nparsout_ id nvars d = if nvars == 0 then d else record d { xout_ = set d.xout_ id nvars }

abbrev pub delete_data_ : ℕ → GraphData → GraphData
delete_data_ id d =
    if ltb id (length d.algdata_) then record d { algdata_ = set d.algdata_ id none } else d

-- `nodes_[id].get()`, or null outside of the vector.
abbrev pub lookup_node : List (Option Node) → ℕ → Option Node
lookup_node [] i = none
lookup_node (x ∷ xs) zero = x
lookup_node (x ∷ xs) (suc i) = lookup_node xs i

abbrev pub is_some {ℓ} : {A : Type ℓ} → Option A → Bool
is_some none = false
is_some (some a) = true

unfoldable pub node_exists : Graph → ℕ → Bool
node_exists g id = is_some (lookup_node g.nodes_ id)

-- A change of one node's algorithm.
abbrev pub change_alg : (Algorithm → Algorithm) → Node → Node
change_alg f nd = record nd { alg_ = f nd.alg_ }

abbrev pub update_node : List (Option Node) → ℕ → (Node → Node) → List (Option Node)
update_node [] i f = []
update_node (none ∷ xs) zero f = none ∷ xs
update_node (some nd ∷ xs) zero f = some (f nd) ∷ xs
update_node (x ∷ xs) (suc i) f = x ∷ update_node xs i f

-- A change of the session's data, if the graph has a session.
abbrev pub with_data : (GraphData → GraphData) → Option GraphSession → Option GraphSession
with_data f none = none
with_data f (some s) = some (record s { graph_data = f s.graph_data })

-- The new node 0, or the old one with the new number of variables.
abbrev input_node : ℕ → List (Option Node) → List (Option Node)
input_node nvars [] =
    some (record {
      alg_ = record input_algorithm { nparsout = nvars };
      inputs_ = [];
      id_ = 0;
      depth_ = 0;
    })
    ∷ []
input_node nvars (x ∷ xs) =
    update_node (x ∷ xs) 0
      (λ nd. record nd { alg_ = record nd.alg_ { nparsout = nvars }; id_ = 0; depth_ = 0 })

-- Whether node 0 may be changed: there is none yet, or its algorithm is mutable. Of a deleted node 0
-- the source reads a null pointer; here it counts as not mutable.
abbrev input_is_mutable : List (Option Node) → Bool
input_is_mutable [] = true
input_is_mutable (none ∷ xs) = false
input_is_mutable (some nd ∷ xs) = is_mutable nd.alg_

unfoldable pub set_input_vars : Graph → ℕ → ℕ × Graph
set_input_vars g nvars =
    if is_mutable g.base && input_is_mutable g.nodes_
    then (
      0,
      record g {
        nodes_ = input_node nvars g.nodes_;
        base = record g.base { nparsin = nvars ∷ [] };
        session_ = with_data (λ d. set_nparsout_ 0 nvars (add_data_ 0 none d)) g.session_;
      },
    )
    else (alg_no_id, g)

abbrev pub is_empty {ℓ} : {A : Type ℓ} → List A → Bool
is_empty [] = true
is_empty (x ∷ xs) = false

-- The branch of `get_free_node_id_` without a free slot: a graph with no node gets its input node.
unfoldable pub ensure_input : Graph → Graph
ensure_input g = if is_empty g.nodes_ then (set_input_vars g 0).1 else g

unfoldable pub push_node_slot : Graph → ℕ × Graph
push_node_slot g =
    let g' = ensure_input g in (length g'.nodes_, record g' { nodes_ = g'.nodes_ ++ none ∷ [] })

unfoldable pub take_node_slot : Graph → List ℕ → ℕ × Graph
take_node_slot g [] = push_node_slot g
take_node_slot g (id ∷ slots) = (id, record g { free_node_slots_ = slots })

unfoldable pub get_free_node_id_ : Graph → ℕ × Graph
get_free_node_id_ g = take_node_slot g g.free_node_slots_

unfoldable pub peek_new_node_id : Graph → ℕ
peek_new_node_id g = elim g.free_node_slots_ [
  | [] ↦ if is_empty g.nodes_ then 1 else length g.nodes_
  | id ∷ slots ↦ id
]

-- The check of the inputs: each exists and has the expected length. The caller passes as many
-- inputs as the algorithm takes.
abbrev pub check_inputs : List (Option Node) → List ℕ → List ℕ → Bool
check_inputs nodes [] [] = true
check_inputs nodes [] (j ∷ js) = false
check_inputs nodes (k ∷ ks) [] = false
check_inputs nodes (k ∷ ks) (j ∷ js) =
    elim (lookup_node nodes j) [ none ↦ false | some nd ↦ nd.alg_.nparsout == k ]
    && check_inputs nodes ks js

abbrev pub node_id : List (Option Node) → ℕ → ℕ
node_id nodes j = elim (lookup_node nodes j) [ none ↦ j | some nd ↦ nd.id_ ]

abbrev pub node_depth : List (Option Node) → ℕ → ℕ
node_depth nodes j = elim (lookup_node nodes j) [ none ↦ 0 | some nd ↦ nd.depth_ ]

-- The loop over the inputs: they become immutable, and the depth is the largest of theirs.
abbrev pub freeze_inputs : List ℕ → List (Option Node) → List (Option Node)
freeze_inputs [] nodes = nodes
freeze_inputs (j ∷ js) nodes = freeze_inputs js (update_node nodes j (change_alg set_immutable))

abbrev pub max_depth : List (Option Node) → List ℕ → ℕ
max_depth nodes [] = 0
max_depth nodes (j ∷ js) = max (node_depth nodes j) (max_depth nodes js)

unfoldable pub add_node : Graph → ℕ → Algorithm → Option ℕ → List ℕ → Graph
add_node g id alg algdata inputs =
    let no_learning = alg.min_learn_times == 0 in
    let alg' : Algorithm = if no_learning then set_learned true alg else alg in
    let nd : Node = record {
      alg_ = alg';
      inputs_ = map (node_id g.nodes_) inputs;
      id_ = id;
      depth_ = max_depth g.nodes_ inputs + 1;
    } in
    let grown : Option GraphSession = elim g.session_ [
      | none ↦ none
      | some s ↦ some (record {
        graph_data =
            let added = add_data_ id algdata s.graph_data in
            if no_learning then set_nparsout_ id alg.nparsout added else added;
        xin_size = max s.xin_size (length alg.nparsin);
      })
    ] in
    record g { nodes_ = set (freeze_inputs inputs g.nodes_) id (some nd); session_ = grown }

unfoldable pub new_node : Graph → Algorithm → Option ℕ → List ℕ → ℕ × Graph
new_node g alg algdata inputs =
    if is_mutable g.base && check_inputs g.nodes_ alg.nparsin inputs
    then (let free = get_free_node_id_ g in (free.0, add_node free.1 free.0 alg algdata inputs))
    else (alg_no_id, g)

-- The node's destructor deletes its data from the session.
unfoldable pub remove_node : Graph → ℕ → Graph
remove_node g id = record g {
  nodes_ = set g.nodes_ id none;
  out_node_ = if id == g.out_node_ then alg_no_id else g.out_node_;
  free_node_slots_ = id ∷ g.free_node_slots_;
  session_ = with_data (delete_data_ id) g.session_;
}

unfoldable pub delete_node_ : Graph → ℕ → Bool → ℕ × Graph
unfolding remove_node
delete_node_ g id force = elim (lookup_node g.nodes_ id) [
  | none ↦ (alg_no_id, g)
  | some nd ↦
      if not force && not (is_mutable nd.alg_) then (alg_no_id, g) else (id, remove_node g id)
]

unfoldable pub delete_node : Graph → ℕ → ℕ × Graph
delete_node g id = delete_node_ g id false
