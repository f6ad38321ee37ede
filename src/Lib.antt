-- ===== src/Lib.antt =====
-- FiniteFlow evaluates algorithms over prime fields and reconstructs functions from the results.
-- This library models its arithmetic on residues, the reduction of its matrices, its polynomials
-- and Newton interpolation, its cache of sample points and its dataflow graphs, and proves that
-- they do what they are for.
--
-- The parts. The word-sized arithmetic (include/fflow/ffmod.h, src/ffmod.c) reduces double words by
-- a precomputed reciprocal; the class Mod and its functions (include/fflow/common.hh,
-- include/fflow/gcd.hh, src/integer_math.cc) are built on it. An Algorithm
-- (include/fflow/algorithm.hh) maps lists of residues to a list of residues; the algorithms on
-- lists (src/alg_lists.cc) are some of them. Matrices over residues (include/fflow/matrix.hh,
-- src/matrix.cc), dense and sparse, are reduced to row echelon form for the linear solvers.
-- Univariate polynomials (include/fflow/polynomial.hh, src/polynomial.cc) are reconstructed from
-- their values by Newton interpolation, and rational functions (include/fflow/rational_function.hh,
-- src/rational_function.cc) by Thiele interpolation (src/univariate_reconstruction.cc); a
-- polynomial in several variables in Newton form is converted to a sparse one, a list of monomials
-- in graded lexicographic order. The values of a function at its sample points are kept in a hash
-- table (include/fflow/function_cache.hh, src/function_cache.cc). A Graph (include/fflow/graph.hh,
-- src/graph.cc) has algorithms as its nodes: nodes are added and deleted, one is chosen as the
-- output, and the graph evaluates the nodes that the output depends on in the order of their depth.
--
-- The files.
--   Base      tests, lists, integers, order and laws of division that the others share
--   Word      operations on 64- and 128-bit words, with their wrap-around
--   Ffmod     include/fflow/ffmod.h and src/ffmod.c; below it Corrections, Division, Mul, Add and
--             Inverse have the proofs
--   Modular   Mod and the functions on residues; `power` of src/integer_math.cc
--   AlgLists  src/alg_lists.cc: Chain, Take, Slice, TakeAndAdd and TakeAndAddBL; below it Add,
--             Entries (AddOne, Mul), NonZeroes and MatrixMul (also sparse) have the others, and
--             Reads, Selections and Sums the proofs
--   Algorithm the flags and sizes of the base class; Learning has `learn_all` of src/algorithm.cc
--   SparseRow, SparseMatrix   the sparse matrices of include/fflow/matrix.hh and src/matrix.cc; below
--             SparseRow, Arithmetic, Refinement and Elimination have the proofs; below SparseMatrix,
--             Columns, Dot, Rows, Solutions, Scaling, Substitution, Termination, Equations and
--             Echelon do
--   MatrixView the dense matrices of the same files
--   Newton    univariate polynomials of include/fflow/polynomial.hh and src/polynomial.cc, and
--             `UPolyReconstruction` of src/univariate_reconstruction.cc; below it Rows,
--             Interpolation and Standard have the proofs
--   Graph     the graph's state, `set_input_vars`, `new_node`, `delete_node`; Graph/Output has
--             `set_output_node`, the edges and `set_node_mutable`, Graph/Evaluate has `evaluate`
--   Graph/Nodes, Edit, Marks, Sequence, Mutable and Dataflow have the proofs on graphs
--   SparsePoly sparse polynomials and multivariate Newton polynomials of include/fflow/polynomial.hh and
--             src/polynomial.cc; below it Sums, Merge, Linear, Conversion and Agreement have the proofs
--   Cache     include/fflow/function_cache.hh and src/function_cache.cc; below it Probing, Placement,
--             Lookup, Growth and Contract have the proofs
--   Rational  include/fflow/rational_function.hh and src/rational_function.cc; Rational/Reconstruct has
--             `URatFunReconstruction` of src/univariate_reconstruction.cc; Fraction, System, Thiele,
--             Laurent, Samples, Agreement and Checks have the proofs
--   Horner    the Horner functions of include/fflow/polynomial.hh, src/polynomial.cc and
--             src/rational_function.cc; below it Encoding and Value have the proofs
-- A function keeps its name in snake case, so `ffDiv2By1` is `ff_div2_by1`; `n` and `v` of FfMod
-- are the modulus and its reciprocal. A method takes its object and returns the changed one.
--
-- Bounds and fuel. A modulus is either one below 2^32 or one n with 2n < 2^64 < 3n, which are the
-- two paths of the arithmetic; `IsModulus` says so, and the primes of the library are of the second
-- kind. The loop of the inverse recurses on the remainder. The loop of `power` has its exponent as
-- fuel, which halves in each round. The marking of nodes has one more than the depth of the node as
-- fuel; in a well-formed graph inputs are less deep than their node, so the recursion ends before.
-- The loop that substitutes equations in a row of a sparse matrix has one round for each row as
-- fuel, and each round finds a later equation. A loop over the slots of the hash table has one
-- round for each slot as fuel, which is enough as long as one slot is empty; the load factor sees
-- to that. The capacity that `reserve_more` asks for is found with the 31 shifts of a 32-bit one that
-- are defined; one that needs another shift is none, as is a loop that does not end. The null pointers
-- and the reads out of range of the evaluation of a graph have a return code that is no 64-bit word.
-- The loop over the first polynomials of Horner data has the length of the data as fuel.
-- Exponents are 16-bit words; the conversion from Newton form is right while they stay
-- below 2^15.
--
-- Parameters. `std::sort` is any function that gives a list of the same members sorted by the key
-- (`Sorter`); Graph/InsertionSort has one. The virtual `evaluate` of an algorithm is any function
-- of the contents of its inputs. `min_learn_times` is the number that the algorithm returns. The
-- `learn` of an algorithm and the sampling of points are functions that `learn_all` takes. The
-- function that is reconstructed is any function on words. The hash of a key, which SpookyHash
-- computes, is any function of its words. That p is prime stands in the theorems as: each residue
-- but 0 is coprime to p.
--
-- Not modelled: the build with FLINT, the arm64 variants of addition and subtraction, the data that
-- sub-contexts keep for threads, and the text of error messages. The solvers, the conversion to
-- Horner data and of continued fractions, the reconstruction of multivariate functions, the merge
-- of caches, the parsers and the interfaces to other languages are not modelled either. On slot 0
-- after its deletion the code of `set_input_vars` reads a null pointer, and the model refuses.
pub mod Base
pub mod Word
pub mod Ffmod
pub mod Modular
pub mod AlgLists
pub mod Algorithm
pub mod Learning
pub mod Graph
pub mod Newton
pub mod SparsePoly
pub mod Cache
pub mod SparseRow
pub mod SparseMatrix
pub mod MatrixView
pub mod Rational
pub mod Horner
