-- ===== src/AlgLists.antt =====
-- include/fflow/alg_lists.hh and src/alg_lists.cc: the algorithms on lists of arguments. An input
-- `xin` is a list of lists; a read outside of it, which the source does not check, is `none`.
pub mod Reads
pub mod Selections
pub mod Sums
pub mod Add
pub mod Entries
pub mod NonZeroes
pub mod MatrixMul
mod Examples
use finiteflow.Base.{
  ℕ, zero, suc, List, [], ◌∷◌, ◌++◌, map, Option, none, some, Bool, true, false, not, ◌&&◌, ◌||◌,
  ◌+◌, ◌-◌, ◌*◌, ◌%◌, ◌^◌, length, get_elem?, ltb, leb, ◌==◌, if◌then◌else◌, replicate,
}
use mathlib.Core.Option
use finiteflow.Modular.{Mod, add_mod, mul_mod, apbc_mod}

-- The return values `SUCCESS` and `FAILED` (common.hh).
abbrev pub success : ℕ
success = 0

abbrev pub failed : ℕ
failed = 0xffff_ffff_ffff_ffff

-- An `unsigned` wraps at 2^32.
abbrev pub unsigned_mod : ℕ
unsigned_mod = 0x1_0000_0000

-- `xin[i][j]`
abbrev pub read : List (List ℕ) → ℕ → ℕ → Option ℕ
read xin i j = elim (get_elem? xin i) [ none ↦ none | some l ↦ get_elem? l j ]

-- i, i + 1, ... (`n` numbers): the range of a counting loop.
abbrev pub upto : ℕ → ℕ → List ℕ
upto i zero = []
upto i (suc n) = i ∷ upto (suc i) n

-- A loop that writes one entry of the output for each item, or faults.
abbrev pub for_each {ℓ κ} : {A : Type ℓ} {B : Type κ} → (A → Option B) → List A → Option (List B)
for_each f [] = some []
for_each f (x ∷ xs) = elim (f x) [
  | none ↦ none
  | some y ↦ Option.map (λ ys. y ∷ ys) (for_each f xs)
]

abbrev append_option : Option (List ℕ) → Option (List ℕ) → Option (List ℕ)
append_option none ys = none
append_option (some xs) ys = Option.map (λ zs. xs ++ zs) ys

-- class Chain, with the base class's `nparsin` and `nparsout`
pub record Chain : Type 0 where
  pub nparsin : List ℕ
  pub nparsout : ℕ

chain_total : ℕ → List ℕ → ℕ
chain_total tot [] = tot
chain_total tot (k ∷ ks) = chain_total ((tot + k) % unsigned_mod) ks

unfoldable pub chain_init : List ℕ → Chain
unfolding chain_total
chain_init npars = record { nparsin = npars; nparsout = chain_total 0 npars }

chain_loop : List (List ℕ) → ℕ → List ℕ → Option (List ℕ)
chain_loop xin i [] = some []
chain_loop xin i (nps_i ∷ nps) =
    append_option (for_each (λ j. read xin i j) (upto 0 nps_i)) (chain_loop xin (suc i) nps)

unfoldable pub chain_evaluate : Chain → List (List ℕ) → Option (List ℕ)
unfolding chain_loop
chain_evaluate c xin = chain_loop xin 0 c.nparsin

-- struct InputEl
pub record InputEl : Type 0 where
  pub list : ℕ
  pub el : ℕ

-- `el.list < nparsin.size() && el.el < nparsin[el.list]`
abbrev pub in_bounds : List ℕ → ℕ → ℕ → Bool
in_bounds nparsin i j = elim (get_elem? nparsin i) [ none ↦ false | some k ↦ ltb j k ]

abbrev pub all_of {ℓ} : {A : Type ℓ} → (A → Bool) → List A → Bool
all_of p [] = true
all_of p (x ∷ xs) = p x && all_of p xs

-- class Take
pub record Take : Type 0 where
  pub nparsin : List ℕ
  pub nparsout : ℕ
  pub elems_ : List InputEl

-- A failing `init` has overwritten the sizes, and keeps the old pattern.
unfoldable pub take_init : Take → List ℕ → List InputEl → ℕ × Take
take_init t npars elems =
    let t' : Take = record { nparsin = npars; nparsout = length elems; elems_ = t.elems_ } in
    if all_of (λ e. in_bounds npars e.list e.el) elems
    then (success, record t' { elems_ = elems })
    else (failed, t')

unfoldable pub take_evaluate : Take → List (List ℕ) → Option (List ℕ)
take_evaluate t xin = for_each (λ e. read xin e.list e.el) t.elems_

-- class Slice
pub record Slice : Type 0 where
  pub nparsin : List ℕ
  pub nparsout : ℕ
  pub start_ : ℕ
  pub end_ : ℕ

unfoldable pub slice_init : Slice → ℕ → ℕ → ℕ → ℕ × Slice
slice_init s npars start end = if ltb npars end || ltb end start then (failed, s) else (
  success,
  record { nparsin = npars ∷ []; nparsout = end - start; start_ = start; end_ = end },
)

unfoldable pub slice_evaluate : Slice → List (List ℕ) → Option (List ℕ)
slice_evaluate s xin = for_each (λ j. read xin 0 j) (upto s.start_ (s.end_ - s.start_))

-- class TakeAndAdd
pub record TakeAndAdd : Type 0 where
  pub nparsin : List ℕ
  pub nparsout : ℕ
  pub elems_ : List (List InputEl)

unfoldable pub take_and_add_init : TakeAndAdd → List ℕ → List (List InputEl) → ℕ × TakeAndAdd
take_and_add_init t npars elems =
    let t' : TakeAndAdd = record { nparsin = npars; nparsout = length elems; elems_ = t.elems_ } in
    if all_of (λ l. all_of (λ e. in_bounds npars e.list e.el) l) elems
    then (success, record t' { elems_ = elems })
    else (failed, t')

-- The inner loop, over `xout[idx]`.
sum_elements : Mod → List (List ℕ) → ℕ → List InputEl → Option ℕ
sum_elements m xin acc [] = some acc
sum_elements m xin acc (e ∷ es) = elim (read xin e.list e.el) [
  | none ↦ none
  | some x ↦ sum_elements m xin (add_mod acc x m) es
]

unfoldable pub take_and_add_evaluate : TakeAndAdd → List (List ℕ) → Mod → Option (List ℕ)
unfolding sum_elements
take_and_add_evaluate t xin m = for_each (λ l. sum_elements m xin 0 l) t.elems_

-- TakeAndAddBL::InputEl
pub record InputElBl : Type 0 where
  pub list1 : ℕ
  pub el1 : ℕ
  pub list2 : ℕ
  pub el2 : ℕ

-- class TakeAndAddBL
pub record TakeAndAddBl : Type 0 where
  pub nparsin : List ℕ
  pub nparsout : ℕ
  pub elems_ : List (List InputElBl)

unfoldable pub take_and_add_bl_init :
    TakeAndAddBl → List ℕ → List (List InputElBl) → ℕ × TakeAndAddBl
take_and_add_bl_init t npars elems =
    let t' : TakeAndAddBl = record {
      nparsin = npars;
      nparsout = length elems;
      elems_ = t.elems_;
    } in
    if all_of (λ l. all_of (λ e. in_bounds npars e.list1 e.el1 && in_bounds npars e.list2 e.el2) l)
      elems
    then (success, record t' { elems_ = elems })
    else (failed, t')

sum_products : Mod → List (List ℕ) → ℕ → List InputElBl → Option ℕ
sum_products m xin acc [] = some acc
sum_products m xin acc (e ∷ es) = elim (read xin e.list1 e.el1) [
  | none ↦ none
  | some x ↦ elim (read xin e.list2 e.el2) [
    | none ↦ none
    | some y ↦ sum_products m xin (apbc_mod acc x y m) es
  ]
]

unfoldable pub take_and_add_bl_evaluate : TakeAndAddBl → List (List ℕ) → Mod → Option (List ℕ)
unfolding sum_products
take_and_add_bl_evaluate t xin m = for_each (λ l. sum_products m xin 0 l) t.elems_
