-- ===== src/Graph/Evaluate.antt =====
-- src/graph.cc: `Graph::evaluate_comput_seq_` and `Graph::evaluate`. The virtual `evaluate` of a
-- node's algorithm, with its data and the modulus, is a function of the contents of its inputs that
-- gives a return code and the contents of its output array. The arrays `xout_` are a function from
-- the id of a node to the contents.
use finiteflow.Base.{
  ℕ, List, [], ◌∷◌, map, Option, none, some, Bool, true, false, ◌&&◌, take, get_or, ◌==◌,
  if◌then◌else◌,
}
use finiteflow.AlgLists.{success}
use finiteflow.Graph.{Graph, Node, lookup_node}
use finiteflow.Graph.Output.{node_inputs}

abbrev pub write : ℕ → List ℕ → (ℕ → List ℕ) → ℕ → List ℕ
write id out xout j = if j == id then out else xout j

abbrev pub node_is_input : List (Option Node) → ℕ → Bool
node_is_input nodes id = elim (lookup_node nodes id) [ none ↦ false | some nd ↦ nd.alg_.input_alg ]

abbrev pub is_missing : List (Option Node) → ℕ → Bool
is_missing nodes id = elim (lookup_node nodes id) [ none ↦ true | some nd ↦ false ]

-- The outcome where the source uses a null pointer or reads out of range, which is no 64-bit code.
abbrev pub null_node : ℕ
null_node = 0x1_0000_0000_0000_0000

module _ (evaluate_node : ℕ → List (List ℕ) → ℕ × List ℕ) (nodes : List (Option Node)) where
  -- One round of the loop over the sequence.
  unfoldable pub evaluate_step : Bool → ℕ → ℕ → (ℕ → List ℕ) → ℕ × (ℕ → List ℕ)
  evaluate_step skip_out_node out_node algid xout =
      if skip_out_node && (algid == out_node)
      then (success, xout)
      else if is_missing nodes algid
      then (null_node, xout)
      else if node_is_input nodes algid
      then (success, xout)
      else (let r = evaluate_node algid (map xout (node_inputs nodes algid)) in
          (r.0, write algid r.1 xout))

  unfoldable pub evaluate_seq : Bool → ℕ → List ℕ → (ℕ → List ℕ) → ℕ × (ℕ → List ℕ)
  unfolding evaluate_step
  evaluate_seq skip_out_node out_node [] xout = (success, xout)
  evaluate_seq skip_out_node out_node (algid ∷ seq) xout =
      let r = evaluate_step skip_out_node out_node algid xout in
      let rest = evaluate_seq skip_out_node out_node seq r.1 in if r.0 == success then rest else r

module _ (evaluate_node : ℕ → List (List ℕ) → ℕ × List ℕ) where
  -- The input is copied to the array of node 0 first.
  unfoldable pub evaluate_comput_seq_ : Graph → List ℕ → Bool → (ℕ → List ℕ) → ℕ × (ℕ → List ℕ)
  unfolding evaluate_seq
  evaluate_comput_seq_ g xin skip_out_node xout =
      evaluate_seq evaluate_node g.nodes_ skip_out_node g.out_node_ g.comput_seq_
        (write 0 (take (get_or g.base.nparsin 0 0) xin) xout)

  -- The return code, the output, which is not written when a node fails, and the arrays.
  unfoldable pub evaluate : Graph → List ℕ → (ℕ → List ℕ) → ℕ × Option (List ℕ) × (ℕ → List ℕ)
  unfolding evaluate_comput_seq_
  evaluate g xin xout =
      let r = evaluate_comput_seq_ g xin false xout in
      if r.0 == success
      then (if is_missing g.nodes_ g.out_node_
          then (null_node, none, r.1)
          else (r.0, some (take g.base.nparsout (r.1 g.out_node_)), r.1))
      else (r.0, none, r.1)
