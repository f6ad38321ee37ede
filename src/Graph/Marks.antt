-- ===== src/Graph/Marks.antt =====
-- `Graph::mark_node_and_deps_` marks the nodes that a node depends on, and no other.
use finiteflow.Base.{
  ℕ, zero, suc, List, [], ◌∷◌, Option, none, some, Bool, true, false, ◌+◌, ◌<◌, ◌≡◌, ◌⊎◌, inl, inr,
  length, get_or, set, replicate, ◌==◌, if◌then◌else◌, refl, ap, sym, ◌∙◌, subst, arith, Bool-cases,
  ==→eq, ltb, ltb→lt, ltb→le, length-set, length-replicate, ◌↔◌,
}
use finiteflow.Graph.{Node, lookup_node, node_depth}
use finiteflow.Base.{All}
use finiteflow.Graph.Nodes.{HasNodes, IsInput, lookup_node-length, none_ne_some}
use finiteflow.Graph.Output.{
  Member, node_is_marked_, node_inputs, mark_deps, mark_node_and_deps_, output_marks,
}

-- The nodes that `id` depends on: itself, and the inputs of those.
pub data DependsOn (nodes : List (Option Node)) (id : ℕ) : ℕ → Type 0 where
  itself : DependsOn nodes id id
  input : {i y : ℕ} → DependsOn nodes id i → Member y (node_inputs nodes i) → DependsOn nodes id y

DependsOn-trans :
    (nodes : List (Option Node)) (a b : ℕ) {c : ℕ}
    → DependsOn nodes a b
    → DependsOn nodes b c
    → DependsOn nodes a c
DependsOn-trans nodes a b p itself = p
DependsOn-trans nodes a b p (input q h) = input (DependsOn-trans nodes a b p q) h

abbrev pub IsMarked : List Bool → ℕ → Type 0
IsMarked marks i = node_is_marked_ marks i ≡ true

get_or-set :
    (marks : List Bool) (i j : ℕ)
    → i < length marks
    → get_or (set marks i true) j false ≡ (if i == j then true else get_or marks j false)
get_or-set [] i j h = absurd (omega arith)
get_or-set (x ∷ xs) zero zero h = ground arith
get_or-set (x ∷ xs) zero (suc j) h = ground arith
get_or-set (x ∷ xs) (suc i) zero h = ground arith
get_or-set (x ∷ xs) (suc i) (suc j) h = ground (arith, get_or-set xs i j (omega arith))

get_or-replicate : (n i : ℕ) → get_or (replicate n false) i false ≡ false
get_or-replicate zero i = refl
get_or-replicate (suc n) zero = refl
get_or-replicate (suc n) (suc i) = get_or-replicate n i

set-IsMarked :
    (marks : List Bool) (i j : ℕ)
    → i < length marks
    → IsMarked (set marks i true) j
    → (i ≡ j) ⊎ IsMarked marks j
set-IsMarked marks i j h m = elim (Bool-cases (i == j)) [
  | inl same ↦ inl (==→eq i j same)
  | inr other ↦
      inr (
        sym (get_or-set marks i j h ∙ ap (λ b. if b then true else get_or marks j false) other) ∙ m)
]

IsMarked-set :
    (marks : List Bool) (i j : ℕ)
    → i < length marks
    → IsMarked marks j
    → IsMarked (set marks i true) j
IsMarked-set marks i j h m = elim (Bool-cases (i == j)) [
  | inl same ↦ get_or-set marks i j h ∙ ap (λ b. if b then true else get_or marks j false) same
  | inr other ↦
      get_or-set marks i j h ∙ ap (λ b. if b then true else get_or marks j false) other ∙ m
]

-- What a round of marking does: it keeps marks, and each new mark is at a node of `Root` all of whose
-- inputs are marked.
record Spread (nodes : List (Option Node)) (Root : ℕ → Type 0) (marks marks' : List Bool)
    : Type 0 where
  same_length : length marks' ≡ length marks
  keeps : (i : ℕ) → IsMarked marks i → IsMarked marks' i
  closed :
      (i : ℕ)
      → IsMarked marks' i
      → IsMarked marks i ⊎ ((y : ℕ) → Member y (node_inputs nodes i) → IsMarked marks' y)
  root : (i : ℕ) → IsMarked marks' i → IsMarked marks i ⊎ Root i

pub All_at : (P : ℕ → Type 0) (xs : List ℕ) (y : ℕ) → All P xs → Member y xs → P y
All_at P [] y h m = elim m [ ]
All_at P (x ∷ xs) y h m = elim m [
  | inl same ↦ subst P (sym same) h.0
  | inr later ↦ All_at P xs y h.1 later
]

module _ (nodes : List (Option Node)) where
  Spread-same : (Root : ℕ → Type 0) (marks : List Bool) → Spread nodes Root marks marks
  Spread-same Root marks = record {
    same_length = refl;
    keeps = λ i h. h;
    closed = λ i h. inl h;
    root = λ i h. inl h;
  }

  Spread-trans :
      (Root : ℕ → Type 0) (a b c : List Bool)
      → Spread nodes Root a b
      → Spread nodes Root b c
      → Spread nodes Root a c
  Spread-trans Root a b c p q = record {
    same_length = q.same_length ∙ p.same_length;
    keeps = λ i h. q.keeps i (p.keeps i h);
    closed = λ i h. elim (q.closed i h) [
      | inl old ↦ elim (p.closed i old) [
        | inl older ↦ inl older
        | inr inputs ↦ inr (λ y m. q.keeps y (inputs y m))
      ]
      | inr inputs ↦ inr inputs
    ];
    root = λ i h. elim (q.root i h) [ inl old ↦ p.root i old | inr r ↦ inr r ];
  }

  Spread-mono :
      (Root Root' : ℕ → Type 0) (a b : List Bool)
      → ((i : ℕ) → Root i → Root' i)
      → Spread nodes Root a b
      → Spread nodes Root' a b
  Spread-mono Root Root' a b f p = record {
    same_length = p.same_length;
    keeps = p.keeps;
    closed = p.closed;
    root = λ i h. elim (p.root i h) [ inl old ↦ inl old | inr r ↦ inr (f i r) ];
  }

  -- The loop over the inputs, for a visit that marks its node.
  module _ (Root : ℕ → Type 0) (visit : ℕ → List Bool → List Bool) where
    Visits : ℕ → Type 0
    Visits dep =
        (marks : List Bool)
        → length marks ≡ length nodes
        → Spread nodes Root marks (visit dep marks) × IsMarked (visit dep marks) dep

    visit-Spread :
        (dep : ℕ) (marks : List Bool)
        → Visits dep
        → length marks ≡ length nodes
        → Spread nodes Root marks (if node_is_marked_ marks dep then marks else visit dep marks)
          × IsMarked (if node_is_marked_ marks dep then marks else visit dep marks) dep
    unfolding Visits
    visit-Spread dep marks h len = elim (Bool-cases (node_is_marked_ marks dep)) [
      | inl old ↦
          subst
            (λ b.
              Spread nodes Root marks (if b then marks else visit dep marks)
              × IsMarked (if b then marks else visit dep marks) dep)
            (sym old) (Spread-same Root marks, old)
      | inr new ↦
          subst
            (λ b.
              Spread nodes Root marks (if b then marks else visit dep marks)
              × IsMarked (if b then marks else visit dep marks) dep)
            (sym new) (h marks len)
    ]

    mark_deps-Spread :
        (deps : List ℕ)
        → ((dep : ℕ) → Member dep deps → Visits dep)
        → (marks : List Bool) → length marks ≡ length nodes
        → Spread nodes Root marks (mark_deps visit deps marks)
          × ((y : ℕ) → Member y deps → IsMarked (mark_deps visit deps marks) y)
    unfolding mark_deps
    mark_deps-Spread [] h marks len = (Spread-same Root marks, λ y m. absurd m)
    mark_deps-Spread (dep ∷ deps) h marks len =
        let first = visit-Spread dep marks (h dep (inl refl)) len in
        let rest =
          mark_deps-Spread deps (λ y m. h y (inr m))
            (if node_is_marked_ marks dep then marks else visit dep marks)
            (first.0.same_length ∙ len) in
        (
          Spread-trans Root marks (if node_is_marked_ marks dep then marks else visit dep marks) _
              first.0 rest.0,
          λ y m. elim m [
            | inl same ↦ rest.0.keeps y (
                subst (IsMarked (if node_is_marked_ marks dep then marks else visit dep marks))
                  (sym same) first.1)
            | inr later ↦ rest.1 y later
          ],
        )

  pub node_inputs_lem :
      (i : ℕ) (nd : Node) → lookup_node nodes i ≡ some nd → node_inputs nodes i ≡ nd.inputs_
  node_inputs_lem i nd e = ap (λ o. elim o [ none ↦ [] | some nd ↦ nd.inputs_ ]) e

  pub node_depth_lem :
      (i : ℕ) (nd : Node) → lookup_node nodes i ≡ some nd → node_depth nodes i ≡ nd.depth_
  node_depth_lem i nd e = ap (λ o. elim o [ none ↦ 0 | some nd ↦ nd.depth_ ]) e

  lookup_node_inside : (i : ℕ) (nd : Node) → lookup_node nodes i ≡ some nd → i < length nodes
  lookup_node_inside i nd here = elim (Bool-cases (ltb i (length nodes))) [
    | inl below ↦ ltb→lt i (length nodes) below
    | inr above ↦
        absurd (
          none_ne_some nd (sym (lookup_node-length nodes i (ltb→le i (length nodes) above)) ∙ here))
  ]

  -- The marks of the inputs complete the mark of the node itself.
  Spread-node :
      (id : ℕ) (marks marks' : List Bool)
      → id < length marks
      → Spread nodes (DependsOn nodes id) (set marks id true) marks'
      → ((y : ℕ) → Member y (node_inputs nodes id) → IsMarked marks' y)
      → Spread nodes (DependsOn nodes id) marks marks'
  Spread-node id marks marks' inside p inputs = record {
    same_length = p.same_length ∙ length-set marks id true;
    keeps = λ i h. p.keeps i (IsMarked-set marks id i inside h);
    closed = λ i h. elim (p.closed i h) [
      | inr c ↦ inr c
      | inl old ↦ elim (set-IsMarked marks id i inside old) [
        | inl same ↦
            inr (
              subst (λ j. (y : ℕ) → Member y (node_inputs nodes j) → IsMarked marks' y) same inputs)
        | inr older ↦ inl older
      ]
    ];
    root = λ i h. elim (p.root i h) [
      | inr r ↦ inr r
      | inl old ↦ elim (set-IsMarked marks id i inside old) [
        | inl same ↦ inr (subst (DependsOn nodes id) same itself)
        | inr older ↦ inl older
      ]
    ];
  }

  set_self : (id : ℕ) (marks : List Bool) → id < length marks → IsMarked (set marks id true) id
  set_self id marks h = get_or-set marks id id h ∙ ground arith

  module _ (ok : HasNodes nodes) where
    -- With more fuel than the depth of the node.
    mark_node_and_deps_lem :
        (fuel id : ℕ) (nd : Node)
        → lookup_node nodes id ≡ some nd
        → nd.depth_ < fuel
        → (marks : List Bool) → length marks ≡ length nodes
        → Spread nodes (DependsOn nodes id) marks (mark_node_and_deps_ fuel nodes id marks)
          × IsMarked (mark_node_and_deps_ fuel nodes id marks) id
    unfolding mark_node_and_deps_ Visits
    mark_node_and_deps_lem zero id nd here deep marks len = absurd (omega arith)
    mark_node_and_deps_lem (suc fuel) id nd here deep marks len =
        let loop =
          mark_deps-Spread (DependsOn nodes id) (λ dep m. mark_node_and_deps_ fuel nodes dep m)
            (node_inputs nodes id)
            (λ dep m marks' len'.
              let (md, at, im, dm) =
                All_at (IsInput nodes nd.depth_) nd.inputs_ dep (ok id nd here).1
                  (subst (Member dep) (node_inputs_lem id nd here) m) in
              let r = mark_node_and_deps_lem fuel dep md at (omega (arith, dm, deep)) marks' len' in
              (
                Spread-mono (DependsOn nodes dep) (DependsOn nodes id) _ _
                    (λ i d. DependsOn-trans nodes id dep (input itself m) d) r.0,
                r.1,
              ))
            (set marks id true) (length-set marks id true ∙ len) in
        (Spread-node id marks _ inside loop.0 loop.1, loop.0.keeps id (set_self id marks inside))
      where
        inside : id < length marks
        inside = omega (arith, len, lookup_node_inside id nd here)

    output_marks-Spread :
        (id : ℕ) (nd : Node)
        → lookup_node nodes id ≡ some nd
        → Spread nodes (DependsOn nodes id) (replicate (length nodes) false) (output_marks nodes id)
          × IsMarked (output_marks nodes id) id
    unfolding output_marks
    output_marks-Spread id nd here =
        mark_node_and_deps_lem (node_depth nodes id + 1) id nd here
          (omega (arith, node_depth_lem id nd here)) (replicate (length nodes) false)
          (length-replicate (length nodes) false)

    unmarked : (i : ℕ) → IsMarked (replicate (length nodes) false) i → ⊥
    unmarked i h = ground (arith, sym (get_or-replicate (length nodes) i) ∙ h)

    pub output_marks-closed :
        (id : ℕ) (nd : Node)
        → lookup_node nodes id ≡ some nd
        → (i y : ℕ) → IsMarked (output_marks nodes id) i
        → Member y (node_inputs nodes i)
        → IsMarked (output_marks nodes id) y
    output_marks-closed id nd here i y h m = elim ((output_marks-Spread id nd here).0.closed i h) [
      | inl old ↦ absurd (unmarked i old)
      | inr inputs ↦ inputs y m
    ]

    DependsOn-IsMarked :
        (id : ℕ) (nd : Node) {i : ℕ}
        → lookup_node nodes id ≡ some nd
        → DependsOn nodes id i
        → IsMarked (output_marks nodes id) i
    DependsOn-IsMarked id nd here itself = (output_marks-Spread id nd here).1
    DependsOn-IsMarked id nd here (input {i} {y} d m) =
        output_marks-closed id nd here i y (DependsOn-IsMarked id nd here d) m

    -- The marks of a new output are on the nodes that it depends on, and on no other.
    pub output_marks_lem :
        (id : ℕ) (nd : Node)
        → lookup_node nodes id ≡ some nd
        → (i : ℕ) → IsMarked (output_marks nodes id) i ↔ DependsOn nodes id i
    output_marks_lem id nd here i = (
      λ h. elim ((output_marks-Spread id nd here).0.root i h) [
        | inl old ↦ absurd (unmarked i old)
        | inr d ↦ d
      ],
      λ d. DependsOn-IsMarked id nd here d,
    )

    pub length-output_marks :
        (id : ℕ) (nd : Node)
        → lookup_node nodes id ≡ some nd
        → length (output_marks nodes id) ≡ length nodes
    length-output_marks id nd here =
        (output_marks-Spread id nd here).0.same_length ∙ length-replicate (length nodes) false
