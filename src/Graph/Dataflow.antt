-- ===== src/Graph/Dataflow.antt =====
-- `Graph::evaluate` solves the equations of the graph: the output of each node is its algorithm's, at
-- the outputs of its inputs.
use finiteflow.Base.{
  ℕ, List, [], ◌∷◌, map, Option, none, some, true, false, take, get_or, ◌≤◌, ◌≡◌, ◌≢◌, ◌⊎◌, inl,
  inr, ◌==◌, if◌then◌else◌, refl, ap, ap₂, sym, ◌∙◌, subst, arith, Bool-cases, ==→eq,
}
use finiteflow.AlgLists.{success}
use finiteflow.Graph.{Graph, Node, node_depth, lookup_node}
use finiteflow.Graph.Nodes.{HasNodes}
use finiteflow.Graph.Edit.{IsGraph}
use finiteflow.Graph.Output.{Member, IsSortedBy, node_inputs}
use finiteflow.Graph.Sequence.{node_inputs_less}
use finiteflow.Graph.Evaluate.{
  write, node_is_input, is_missing, null_node, evaluate_step, evaluate_seq, evaluate_comput_seq_,
  evaluate,
}

map_agree :
    (f g : ℕ → List ℕ) (xs : List ℕ) → ((y : ℕ) → Member y xs → f y ≡ g y) → map f xs ≡ map g xs
map_agree f g [] h = refl
map_agree f g (x ∷ xs) h = ap₂ ◌∷◌ (h x (inl refl)) (map_agree f g xs (λ y m. h y (inr m)))

Member-cases : (y : ℕ) (xs : List ℕ) → Member y xs ⊎ (Member y xs → ⊥)
Member-cases y [] = inr (λ m. m)
Member-cases y (x ∷ xs) = elim (Bool-cases (y == x)) [
  | inl same ↦ inl (inl (==→eq y x same))
  | inr other ↦ elim (Member-cases y xs) [
    | inl later ↦ inl (inr later)
    | inr none_later ↦ inr (λ m. elim m [ inl e ↦ ground arith | inr later ↦ none_later later ])
  ]
]

module _ (evaluate_node : ℕ → List (List ℕ) → ℕ × List ℕ) (nodes : List (Option Node))
    (out_node : ℕ) where
  abbrev step : ℕ → (ℕ → List ℕ) → ℕ × (ℕ → List ℕ)
  step algid xout = evaluate_step evaluate_node nodes false out_node algid xout

  abbrev run : List ℕ → (ℕ → List ℕ) → ℕ × (ℕ → List ℕ)
  run seq xout = evaluate_seq evaluate_node nodes false out_node seq xout

  abbrev result : ℕ → (ℕ → List ℕ) → ℕ × List ℕ
  result algid xout = evaluate_node algid (map xout (node_inputs nodes algid))

  step_input :
      (algid : ℕ) (xout : ℕ → List ℕ)
      → node_is_input nodes algid ≡ true
      → step algid xout ≡ (success, xout)
  unfolding evaluate_step
  step_input algid xout h =
      ap₂
        (λ c b.
          if c
          then (null_node, xout)
          else if b
          then (success, xout)
          else ((result algid xout).0, write algid (result algid xout).1 xout))
        (there (lookup_node nodes algid) h) h
    where
      there :
          (o : Option Node)
          → elim o [ none ↦ false | some nd ↦ nd.alg_.input_alg ] ≡ true
          → elim o [ none ↦ true | some nd ↦ false ] ≡ false
      there none h = sym h
      there (some nd) h = refl

  step_missing :
      (algid : ℕ) (xout : ℕ → List ℕ)
      → is_missing nodes algid ≡ true
      → step algid xout ≡ (null_node, xout)
  unfolding evaluate_step
  step_missing algid xout h =
      ap
        (λ c.
          if c
          then (null_node, xout)
          else if node_is_input nodes algid
          then (success, xout)
          else ((result algid xout).0, write algid (result algid xout).1 xout))
        h

  step_node :
      (algid : ℕ) (xout : ℕ → List ℕ)
      → is_missing nodes algid ≡ false
      → node_is_input nodes algid ≡ false
      → step algid xout ≡ ((result algid xout).0, write algid (result algid xout).1 xout)
  unfolding evaluate_step
  step_node algid xout present h =
      ap₂
        (λ c b.
          if c
          then (null_node, xout)
          else if b
          then (success, xout)
          else ((result algid xout).0, write algid (result algid xout).1 xout))
        present h

  -- A round that succeeds is that of a node that exists.
  step_exists :
      (algid : ℕ) (xout : ℕ → List ℕ)
      → (step algid xout).0 ≡ success
      → is_missing nodes algid ≡ false
  step_exists algid xout good = elim (Bool-cases (is_missing nodes algid)) [
    | inl missing ↦
        absurd (omega (arith, sym (ap (λ r. r.0) (step_missing algid xout missing)) ∙ good))
    | inr present ↦ present
  ]

  write_other :
      (algid j : ℕ) (out : List ℕ) (xout : ℕ → List ℕ) → j ≢ algid → write algid out xout j ≡ xout j
  write_other algid j out xout ne = elim (Bool-cases (j == algid)) [
    | inl same ↦ absurd (ne (==→eq j algid same))
    | inr other ↦ ap (λ b. if b then out else xout j) other
  ]

  write_same : (algid : ℕ) (out : List ℕ) (xout : ℕ → List ℕ) → write algid out xout algid ≡ out
  write_same algid out xout = ground arith

  -- A round leaves the array of every other node alone, and that of an input node.
  step_keeps :
      (algid j : ℕ) (xout : ℕ → List ℕ)
      → (j ≡ algid → node_is_input nodes j ≡ true)
      → (step algid xout).1 j ≡ xout j
  step_keeps algid j xout h = elim (Bool-cases (node_is_input nodes algid)) [
    | inl input ↦ ap (λ r. r.1 j) (step_input algid xout input)
    | inr computed ↦ elim (Bool-cases (is_missing nodes algid)) [
      | inl missing ↦ ap (λ r. r.1 j) (step_missing algid xout missing)
      | inr present ↦
          ap (λ r. r.1 j) (step_node algid xout present computed)
          ∙ write_other algid j (result algid xout).1 xout
              (λ e. ground (arith, h e, ap (node_is_input nodes) e))
    ]
  ]

  run_cons :
      (algid : ℕ) (seq : List ℕ) (xout : ℕ → List ℕ)
      → (run (algid ∷ seq) xout).0 ≡ success
      → ((step algid xout).0 ≡ success)
        × ((run seq (step algid xout).1).0 ≡ success)
        × ((run (algid ∷ seq) xout).1 ≡ (run seq (step algid xout).1).1)
  unfolding evaluate_seq
  run_cons algid seq xout done = elim (Bool-cases ((step algid xout).0 == success)) [
    | inl good ↦
        let whole : run (algid ∷ seq) xout ≡ run seq (step algid xout).1 =
          ap (λ b. if b then run seq (step algid xout).1 else step algid xout) good in
        (
          ==→eq (step algid xout).0 success good,
          sym (ap (λ r. r.0) whole) ∙ done,
          ap (λ r. r.1) whole,
        )
    | inr bad ↦
        let whole : run (algid ∷ seq) xout ≡ step algid xout =
          ap (λ b. if b then run seq (step algid xout).1 else step algid xout) bad in
        absurd (ground (arith, sym (ap (λ r. r.0) whole) ∙ done))
  ]

  run_keeps :
      (seq : List ℕ) (xout : ℕ → List ℕ) (j : ℕ)
      → (run seq xout).0 ≡ success
      → (Member j seq → node_is_input nodes j ≡ true)
      → (run seq xout).1 j ≡ xout j
  unfolding evaluate_seq
  run_keeps [] xout j done h = refl
  run_keeps (algid ∷ seq) xout j done h =
      let (good, rest, whole) = run_cons algid seq xout done in
      ap (λ f. f j) whole
      ∙ run_keeps seq (step algid xout).1 j rest (λ m. h (inr m))
      ∙ step_keeps algid j xout (λ e. h (inl e))

  module _ (ok : HasNodes nodes) where
    -- The first node of a sequence that does not hold it again.
    run_first :
        (x : ℕ) (seq : List ℕ) (xout : ℕ → List ℕ)
        → ((y : ℕ) → Member y seq → node_depth nodes x ≤ node_depth nodes y)
        → (run (x ∷ seq) xout).0 ≡ success
        → (Member x seq → ⊥)
        → node_is_input nodes x ≡ false
        → evaluate_node x (map (run (x ∷ seq) xout).1 (node_inputs nodes x))
          ≡ (success, (run (x ∷ seq) xout).1 x)
    run_first x seq xout later done once computed =
        ap (evaluate_node x) inputs_same ∙ ap₂ (λ a b. (a, b)) returned (sym written)
      where
        parts :
            ((step x xout).0 ≡ success)
            × ((run seq (step x xout).1).0 ≡ success)
            × ((run (x ∷ seq) xout).1 ≡ (run seq (step x xout).1).1)
        parts = run_cons x seq xout done

        after : (j : ℕ) → (Member j seq → ⊥) → (run (x ∷ seq) xout).1 j ≡ (step x xout).1 j
        after j apart =
            ap (λ f. f j) parts.2 ∙ run_keeps seq (step x xout).1 j parts.1 (λ m. absurd (apart m))

        inputs_same :
            map (run (x ∷ seq) xout).1 (node_inputs nodes x) ≡ map xout (node_inputs nodes x)
        inputs_same = map_agree (run (x ∷ seq) xout).1 xout (node_inputs nodes x) (λ y m.
            after y (λ n. omega (arith, later y n, node_inputs_less nodes x y ok m))
            ∙ step_keeps x y xout (λ e.
              absurd (omega (arith, node_inputs_less nodes x y ok m, ap (node_depth nodes) e))))

        present : is_missing nodes x ≡ false
        present = step_exists x xout parts.0

        returned : (result x xout).0 ≡ success
        returned = sym (ap (λ r. r.0) (step_node x xout present computed)) ∙ parts.0

        written : (run (x ∷ seq) xout).1 x ≡ (result x xout).1
        written =
            after x once
            ∙ ap (λ r. r.1 x) (step_node x xout present computed)
            ∙ write_same x (result x xout).1 xout

    run_solves :
        (seq : List ℕ) (xout : ℕ → List ℕ)
        → IsSortedBy (node_depth nodes) seq
        → (run seq xout).0 ≡ success
        → (x : ℕ) → Member x seq
        → node_is_input nodes x ≡ false
        → evaluate_node x (map (run seq xout).1 (node_inputs nodes x))
          ≡ (success, (run seq xout).1 x)
    run_solves [] xout sorted done x m computed = absurd m
    run_solves (a ∷ seq) xout sorted done x m computed = elim (Member-cases x seq) [
      | inl later ↦
          let (good, rest, whole) = run_cons a seq xout done in
          subst (λ f. evaluate_node x (map f (node_inputs nodes x)) ≡ (success, f x)) (sym whole)
            (run_solves seq (step a xout).1 sorted.1 rest x later computed)
      | inr once ↦ elim m [
        | inr later ↦ absurd (once later)
        | inl same ↦
            subst
              (λ t.
                evaluate_node x (map (run (t ∷ seq) xout).1 (node_inputs nodes x))
                ≡ (success, (run (t ∷ seq) xout).1 x))
              same
              (run_first x seq xout
                (subst (λ t. (y : ℕ) → Member y seq → node_depth nodes t ≤ node_depth nodes y)
                  (sym same) sorted.0)
                (subst (λ t. (run (t ∷ seq) xout).0 ≡ success) (sym same) done) once computed)
      ]
    ]

  -- The return code is that of the evaluations of nodes, where they exist: it is a success if all of
  -- them are.
  run_succeeds :
      (seq : List ℕ) (xout : ℕ → List ℕ)
      → ((x : ℕ) → Member x seq → is_missing nodes x ≡ false)
      → ((x : ℕ) (xin : List (List ℕ)) → Member x seq → (evaluate_node x xin).0 ≡ success)
      → (run seq xout).0 ≡ success
  unfolding evaluate_seq
  run_succeeds [] xout present h = refl
  run_succeeds (a ∷ seq) xout present h =
      ap (λ r. r.0)
        (ap (λ b. if b then run seq (step a xout).1 else step a xout) (ap (λ c. c == success) good))
      ∙ run_succeeds seq (step a xout).1 (λ x m. present x (inr m)) (λ x xin m. h x xin (inr m))
    where
      good : (step a xout).0 ≡ success
      good = elim (Bool-cases (node_is_input nodes a)) [
        | inl input ↦ ap (λ r. r.0) (step_input a xout input)
        | inr computed ↦
            ap (λ r. r.0) (step_node a xout (present a (inl refl)) computed)
            ∙ h a (map xout (node_inputs nodes a)) (inl refl)
      ]

module _ (evaluate_node : ℕ → List (List ℕ) → ℕ × List ℕ) (g : Graph) (xin : List ℕ)
    (xout : ℕ → List ℕ) where
  -- What `evaluate` makes of the arrays.
  evaluate-run :
      (evaluate evaluate_node g xin xout).2
      ≡ (evaluate_seq evaluate_node g.nodes_ false g.out_node_ g.comput_seq_
          (write 0 (take (get_or g.base.nparsin 0 0) xin) xout)).1
  unfolding evaluate evaluate_comput_seq_
  evaluate-run = ground arith

  evaluate-code :
      (evaluate evaluate_node g xin xout).0 ≡ success
      → (evaluate_seq evaluate_node g.nodes_ false g.out_node_ g.comput_seq_
          (write 0 (take (get_or g.base.nparsin 0 0) xin) xout)).0
        ≡ success
  unfolding evaluate evaluate_comput_seq_
  evaluate-code h = ground arith

  evaluate-output :
      (evaluate_seq evaluate_node g.nodes_ false g.out_node_ g.comput_seq_
          (write 0 (take (get_or g.base.nparsin 0 0) xin) xout)).0
        ≡ success
      → is_missing g.nodes_ g.out_node_ ≡ false
      → ((evaluate evaluate_node g xin xout).0 ≡ success)
        × ((evaluate evaluate_node g xin xout).1
            ≡ some (take g.base.nparsout ((evaluate evaluate_node g xin xout).2 g.out_node_)))
  unfolding evaluate evaluate_comput_seq_
  evaluate-output done present = (ground (arith, done, present), ground (arith, done, present))

  -- On a well-formed graph whose sequence of computations is sorted by depth, a successful `evaluate`
  -- leaves in the array of every node of the sequence that is not an input node what the node's
  -- algorithm successfully gives on the arrays that are left for the node's inputs.
  pub evaluate-solves :
      IsGraph g
      → IsSortedBy (node_depth g.nodes_) g.comput_seq_
      → (evaluate evaluate_node g xin xout).0 ≡ success
      → (x : ℕ) → Member x g.comput_seq_
      → node_is_input g.nodes_ x ≡ false
      → evaluate_node x (map (evaluate evaluate_node g xin xout).2 (node_inputs g.nodes_ x))
        ≡ (success, (evaluate evaluate_node g xin xout).2 x)
  evaluate-solves ok sorted done x m computed =
      subst (λ f. evaluate_node x (map f (node_inputs g.nodes_ x)) ≡ (success, f x))
        (sym evaluate-run)
        (run_solves evaluate_node g.nodes_ g.out_node_ ok.has_nodes g.comput_seq_ _ sorted
          (evaluate-code done) x m computed)

  -- A successful `evaluate` leaves in the array of an input node at position 0 the input, of the
  -- declared length.
  pub evaluate-input :
      node_is_input g.nodes_ 0 ≡ true
      → (evaluate evaluate_node g xin xout).0 ≡ success
      → (evaluate evaluate_node g xin xout).2 0 ≡ take (get_or g.base.nparsin 0 0) xin
  evaluate-input input done =
      ap (λ f. f 0) evaluate-run
      ∙ run_keeps evaluate_node g.nodes_ g.out_node_ g.comput_seq_ _ 0 (evaluate-code done)
          (λ m. input)

  -- On a well-formed graph whose sequence of computations is sorted by depth, where every node of the
  -- sequence exists and its algorithm succeeds on all inputs, and the output node is one of the
  -- sequence and no input node: `evaluate` succeeds, and its output is what the algorithm of the output
  -- node gives on the arrays that are left for its inputs, cut to the length that the graph declares.
  pub evaluate-succeeds :
      IsGraph g
      → IsSortedBy (node_depth g.nodes_) g.comput_seq_
      → ((x : ℕ) → Member x g.comput_seq_ → is_missing g.nodes_ x ≡ false)
      → ((x : ℕ) (ins : List (List ℕ)) → Member x g.comput_seq_ → (evaluate_node x ins).0 ≡ success)
      → Member g.out_node_ g.comput_seq_
      → node_is_input g.nodes_ g.out_node_ ≡ false
      → ((evaluate evaluate_node g xin xout).0 ≡ success)
        × ((evaluate evaluate_node g xin xout).1
            ≡ some (
                take g.base.nparsout
                  (evaluate_node g.out_node_ (
                    map
                      (evaluate evaluate_node g xin xout).2
                      (node_inputs g.nodes_ g.out_node_))).1))
  evaluate-succeeds ok sorted present good out computed =
      let (done, output) =
        evaluate-output
          (run_succeeds evaluate_node g.nodes_ g.out_node_ g.comput_seq_ _ present good)
          (present g.out_node_ out) in
      (
        done,
        output
            ∙ ap (λ r. some (take g.base.nparsout r.1))
                (sym (evaluate-solves ok sorted done g.out_node_ out computed)),
      )
