-- ===== src/Graph/Examples.antt =====
-- Small graphs on which the theorems about graphs are applied.
use finiteflow.Graph.Mutable.{set_node_mutable-IsGraph}
use finiteflow.Graph.Output.{set_node_mutable}
use finiteflow.Base.{
  ℕ, List, [], ◌∷◌, none, some, true, false, map, take, ◌≡◌, ◌≢◌, ◌⊎◌, ◌↔◌, inl, inr, refl, sym, ap,
  subst, arith,
}
use finiteflow.Algorithm.{Algorithm}
use finiteflow.Graph.{
  Graph, Node, node_depth, alg_no_id, lookup_node, node_exists, new_node, add_node,
  get_free_node_id_, take_node_slot, push_node_slot, ensure_input, set_input_vars, peek_new_node_id,
  delete_node, delete_node_, remove_node,
}
use finiteflow.Graph.Nodes.{none_ne_some}
use finiteflow.Graph.Edit.{IsGraph, new_node-IsGraph, new_node-peek, delete_node-IsGraph}
use finiteflow.Graph.Output.{
  Member, IsSortedBy, node_inputs, node_has_learned, set_output_node, change_output, collect_seq,
  output_marks,
}
use finiteflow.Graph.Marks.{DependsOn}
use finiteflow.Graph.Sequence.{
  set_output_node-order, set_output_node-DependsOn, set_output_node-learned,
  set_output_node-accepts, set_output_node-IsSortedBy, set_output_node-IsGraph,
}
use finiteflow.AlgLists.{success}
use finiteflow.Graph.Evaluate.{is_missing, evaluate}
use finiteflow.Graph.Dataflow.{evaluate-solves, evaluate-succeeds}
use finiteflow.Graph.InsertionSort.{insertion_sorter, sort_by}

abbrev plain : List ℕ → ℕ → Algorithm
plain nparsin nparsout = record {
  nparsin = nparsin;
  nparsout = nparsout;
  is_immutable = false;
  learned = false;
  input_alg = false;
  min_learn_times = 0;
}

abbrev empty_graph : Graph
empty_graph = record {
  base = plain [] 0;
  nodes_ = [];
  comput_seq_ = [];
  free_node_slots_ = [];
  out_node_ = alg_no_id;
  mark_nodes_ = [];
  rec_data_ = false;
  session_ = some (record { graph_data = record { algdata_ = []; xout_ = [] }; xin_size = 0 });
}

empty_graph-IsGraph : IsGraph empty_graph
empty_graph-IsGraph = record {
  has_nodes = λ i nd e. absurd (none_ne_some nd e);
  slots_free = tt;
  slots_distinct = tt;
}

-- A source at node 1, and node 2 with it as its input.
abbrev source_graph : Graph
source_graph = (new_node empty_graph (plain [] 3) (some 10) []).1

abbrev chain_graph : Graph
chain_graph = (new_node source_graph (plain (3 ∷ []) 2) (some 11) (1 ∷ [])).1

source_graph-IsGraph : IsGraph source_graph
source_graph-IsGraph = new_node-IsGraph empty_graph (plain [] 3) (some 10) [] empty_graph-IsGraph

chain_graph-IsGraph : IsGraph chain_graph
chain_graph-IsGraph =
    new_node-IsGraph source_graph (plain (3 ∷ []) 2) (some 11) (1 ∷ []) source_graph-IsGraph

-- `second` is what node 2 of the chain is.
abbrev second : Node
second = record {
  alg_ = record (plain (3 ∷ []) 2) { learned = true };
  inputs_ = 1 ∷ [];
  id_ = 2;
  depth_ = 2;
}

new_node-IsGraph_example : IsGraph chain_graph
new_node-IsGraph_example =
    new_node-IsGraph source_graph (plain (3 ∷ []) 2) (some 11) (1 ∷ []) source_graph-IsGraph

new_node-peek_example :
    ((new_node source_graph (plain (3 ∷ []) 2) (some 11) (1 ∷ [])).0
      ≡ peek_new_node_id source_graph)
    × (lookup_node source_graph.nodes_ (peek_new_node_id source_graph) ≡ none)
    × (node_exists chain_graph (peek_new_node_id source_graph) ≡ true)
unfolding new_node add_node get_free_node_id_ take_node_slot push_node_slot ensure_input
    set_input_vars
new_node-peek_example =
    new_node-peek source_graph (plain (3 ∷ []) 2) (some 11) (1 ∷ []) source_graph-IsGraph refl refl

delete_node-IsGraph_example : IsGraph (delete_node chain_graph 2).1
delete_node-IsGraph_example = delete_node-IsGraph chain_graph 2 chain_graph-IsGraph

-- A freed slot is the next id.
slot_reuse : peek_new_node_id (delete_node chain_graph 2).1 ≡ 2
unfolding new_node add_node get_free_node_id_ take_node_slot push_node_slot ensure_input
    set_input_vars delete_node delete_node_ remove_node peek_new_node_id
slot_reuse = refl

-- The chain with its second node as the output.
abbrev output_graph : Graph
output_graph = (set_output_node insertion_sorter chain_graph 2).1

chain_accepted : (set_output_node insertion_sorter chain_graph 2).0 ≡ 2
unfolding new_node add_node get_free_node_id_ take_node_slot push_node_slot ensure_input
    set_input_vars set_output_node change_output collect_seq output_marks
chain_accepted = refl

chain_sequence : output_graph.comput_seq_ ≡ 1 ∷ 2 ∷ []
unfolding new_node add_node get_free_node_id_ take_node_slot push_node_slot ensure_input
    set_input_vars set_output_node change_output collect_seq output_marks sort_by
chain_sequence = refl

chain_output : 2 ≢ chain_graph.out_node_
unfolding new_node add_node get_free_node_id_ take_node_slot push_node_slot ensure_input
    set_input_vars
chain_output h = absurd (omega (arith, h))

chain_input : Member 1 (node_inputs chain_graph.nodes_ 2)
unfolding new_node add_node get_free_node_id_ take_node_slot push_node_slot ensure_input
    set_input_vars
chain_input = inl refl

set_output_node-order_example : Member 1 (1 ∷ [])
set_output_node-order_example =
    set_output_node-order insertion_sorter chain_graph 2 chain_graph-IsGraph (omega arith)
      chain_output chain_accepted (1 ∷ []) 2 [] 1 chain_sequence chain_input

set_output_node-DependsOn_example :
    Member 1 output_graph.comput_seq_ ↔ DependsOn chain_graph.nodes_ 2 1
set_output_node-DependsOn_example =
    set_output_node-DependsOn insertion_sorter chain_graph 2 chain_graph-IsGraph (omega arith)
      chain_output chain_accepted 1

-- All nodes of the chain have learned, since none of its algorithms needs to.
chain_ready :
    (y : ℕ)
    → DependsOn chain_graph.nodes_ 2 y
    → (y ≡ 2) ⊎ (node_has_learned chain_graph.nodes_ y ≡ true)
chain_ready y d =
    set_output_node-learned insertion_sorter chain_graph 2 chain_graph-IsGraph (omega arith)
      chain_output chain_accepted y
      ((set_output_node-DependsOn insertion_sorter chain_graph 2 chain_graph-IsGraph (omega arith)
          chain_output chain_accepted y).1
        d)

set_output_node-accepts_example : (set_output_node insertion_sorter chain_graph 2).0 ≡ 2
unfolding new_node add_node get_free_node_id_ take_node_slot push_node_slot ensure_input
    set_input_vars
set_output_node-accepts_example =
    set_output_node-accepts insertion_sorter chain_graph 2 second chain_graph-IsGraph refl refl
      chain_ready

output_graph-IsGraph : IsGraph output_graph
output_graph-IsGraph = set_output_node-IsGraph insertion_sorter chain_graph 2 chain_graph-IsGraph

-- A node without inputs gives 5, 6 and 7, another one the first two elements of its first input.
abbrev evaluate_test : ℕ → List (List ℕ) → ℕ × List ℕ
evaluate_test id [] = (success, 5 ∷ 6 ∷ 7 ∷ [])
evaluate_test id (xin ∷ xins) = (success, take 2 xin)

abbrev no_arrays : ℕ → List ℕ
no_arrays j = []

always : (x : ℕ) (ins : List (List ℕ)) → (evaluate_test x ins).0 ≡ success
always x [] = refl
always x (xin ∷ xins) = refl

output_graph_exists :
    (x : ℕ) → Member x output_graph.comput_seq_ → is_missing output_graph.nodes_ x ≡ false
unfolding new_node add_node get_free_node_id_ take_node_slot push_node_slot ensure_input
    set_input_vars set_output_node change_output collect_seq output_marks
output_graph_exists x m = elim (subst (Member x) chain_sequence m) [
  | inl first ↦ ap (is_missing output_graph.nodes_) first
  | inr (inl next) ↦ ap (is_missing output_graph.nodes_) next
  | inr (inr later) ↦ absurd later
]

output_graph_sorted : IsSortedBy (node_depth output_graph.nodes_) output_graph.comput_seq_
output_graph_sorted =
    set_output_node-IsSortedBy insertion_sorter chain_graph 2 (omega arith) chain_output
      chain_accepted

evaluate-succeeds_example :
    ((evaluate evaluate_test output_graph [] no_arrays).0 ≡ success)
    × ((evaluate evaluate_test output_graph [] no_arrays).1
        ≡ some (
            take 2
              (evaluate_test 2 (
                map
                  (evaluate evaluate_test output_graph [] no_arrays).2
                  (node_inputs output_graph.nodes_ 2))).1))
unfolding new_node add_node get_free_node_id_ take_node_slot push_node_slot ensure_input
    set_input_vars set_output_node change_output collect_seq output_marks sort_by
evaluate-succeeds_example =
    evaluate-succeeds evaluate_test output_graph [] no_arrays output_graph-IsGraph
      output_graph_sorted output_graph_exists (λ x ins m. always x ins)
      (subst (Member 2) (sym chain_sequence) (inr (inl refl))) refl

chain_evaluated : (evaluate evaluate_test output_graph [] no_arrays).1 ≡ some (5 ∷ 6 ∷ [])
unfolding new_node add_node get_free_node_id_ take_node_slot push_node_slot ensure_input
    set_input_vars set_output_node change_output collect_seq output_marks sort_by evaluate
chain_evaluated = refl

evaluate-solves_example :
    evaluate_test 2
      (map (evaluate evaluate_test output_graph [] no_arrays).2 (node_inputs output_graph.nodes_ 2))
    ≡ (success, (evaluate evaluate_test output_graph [] no_arrays).2 2)
unfolding new_node add_node get_free_node_id_ take_node_slot push_node_slot ensure_input
    set_input_vars set_output_node change_output collect_seq output_marks sort_by evaluate
evaluate-solves_example =
    evaluate-solves evaluate_test output_graph [] no_arrays output_graph-IsGraph output_graph_sorted
      refl 2 (subst (Member 2) (sym chain_sequence) (inr (inl refl))) refl

-- A graph of two variables, with the input node as its output.
abbrev input_graph : Graph
input_graph = (set_output_node insertion_sorter (set_input_vars empty_graph 2).1 0).1

set_node_mutable-IsGraph_example : IsGraph (set_node_mutable chain_graph 2).1
set_node_mutable-IsGraph_example = set_node_mutable-IsGraph chain_graph 2 chain_graph-IsGraph
