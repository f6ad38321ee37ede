-- ===== src/Algorithm.antt =====
-- include/fflow/algorithm.hh: the base class of all algorithms, with its sizes and its flags.
use finiteflow.Base.{ℕ, List, [], Bool, true, false, not}

-- class Algorithm. `flags_` is kept as one Boolean for each flag; `min_learn_times`, a virtual
-- method, is the value that the derived class returns.
pub record Algorithm : Type 0 where
  pub nparsin : List ℕ
  pub nparsout : ℕ
  pub is_immutable : Bool
  pub learned : Bool
  pub input_alg : Bool
  pub min_learn_times : ℕ

abbrev pub set_immutable : Algorithm → Algorithm
set_immutable a = record a { is_immutable = true }

abbrev pub set_mutable : Algorithm → Algorithm
set_mutable a = record a { is_immutable = false }

abbrev pub is_mutable : Algorithm → Bool
is_mutable a = not a.is_immutable

abbrev pub has_learned : Algorithm → Bool
has_learned a = a.learned

abbrev pub set_learned : Bool → Algorithm → Algorithm
set_learned val a = record a { learned = val }

-- `InputAlgorithm`: its constructor marks it as an input, which counts as learned.
abbrev pub input_algorithm : Algorithm
input_algorithm = record {
  nparsin = [];
  nparsout = 0;
  is_immutable = false;
  learned = true;
  input_alg = true;
  min_learn_times = 0;
}
