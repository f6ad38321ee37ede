-- ===== src/AlgLists/Sums.antt =====
-- TakeAndAdd and TakeAndAddBL: after an accepted `init`, each entry of the output is the sum, modulo
-- p, of the elements or of the products that its pattern names.
use native.Mathlib.Nat.{mod-add-mod, mod-lt, mod-eq_of_lt}
use finiteflow.Base.{
  ℕ, List, [], ◌∷◌, map, Option, none, some, Bool, true, ◌&&◌, ◌+◌, ◌*◌, ◌%◌, ◌<◌, ◌≡◌, length,
  refl, ap, ap₂, sym, ◌∙◌, arith, subst,
}
use finiteflow.Ffmod.{IsModulus}
use finiteflow.Word.{word}
use finiteflow.Modular.{new_mod, add_mod, apbc_mod}
use finiteflow.Modular.Laws.{add_mod_lem, apbc_mod_lem}
use finiteflow.AlgLists.{
  success, read, for_each, in_bounds, all_of, InputEl, TakeAndAdd, take_and_add_init, sum_elements,
  take_and_add_evaluate, InputElBl, TakeAndAddBl, take_and_add_bl_init, sum_products,
  take_and_add_bl_evaluate,
}
use finiteflow.AlgLists.Reads.{Fits, read-in_bounds}

-- All elements of the inputs are residues.
abbrev pub Residues : ℕ → List (List ℕ) → Type 0
Residues p xin = (i j x : ℕ) → read xin i j ≡ some x → x < p

abbrev value_of : Option ℕ → ℕ
value_of none = 0
value_of (some x) = x

-- The integer sum of the elements that a pattern names, and of the products.
abbrev pub total : List (List ℕ) → List InputEl → ℕ
total xin [] = 0
total xin (e ∷ es) = value_of (read xin e.list e.el) + total xin es

abbrev pub total_products : List (List ℕ) → List InputElBl → ℕ
total_products xin [] = 0
total_products xin (e ∷ es) =
    value_of (read xin e.list1 e.el1) * value_of (read xin e.list2 e.el2) + total_products xin es

add_total : (p acc x rest : ℕ) → ((acc + x) % p + rest) % p ≡ (acc + (x + rest)) % p
add_total p acc x rest = mod-add-mod (acc + x) p rest ∙ ap (λ t. t % p) (omega arith)

module _ (p : ℕ) (h : IsModulus p) (xin : List (List ℕ)) (small : Residues p xin) where
  positive : 0 < p
  positive = ground arith

  word_bound : (x : ℕ) → x < p → x < word
  word_bound x q = ground arith

  sum_elements_lem :
      (es : List InputEl) (acc : ℕ)
      → acc < p
      → all_of (λ e. in_bounds (map length xin) e.list e.el) es ≡ true
      → sum_elements (new_mod p) xin acc es ≡ some ((acc + total xin es) % p)
  unfolding sum_elements
  sum_elements_lem [] acc q ok = ap some (sym (mod-eq_of_lt q) ∙ ap (λ t. t % p) (omega arith))
  sum_elements_lem (e ∷ es) acc q ok =
      let (x, at) = read-in_bounds xin e.list e.el (ground arith) in
      ap
        (λ o. elim o [
          | none ↦ none
          | some x ↦ sum_elements (new_mod p) xin (add_mod acc x (new_mod p)) es
        ])
        at
      ∙ ap (λ t. sum_elements (new_mod p) xin t es)
          (add_mod_lem p h acc x q (small e.list e.el x at))
      ∙ sum_elements_lem es ((acc + x) % p) (mod-lt (acc + x) positive) (ground arith)
      ∙ ap some (add_total p acc x (total xin es))
      ∙ ap (λ o. some ((acc + (value_of o + total xin es)) % p)) (sym at)

  sum_products_lem :
      (es : List InputElBl) (acc : ℕ)
      → acc < p
      → all_of
          (λ e.
            in_bounds (map length xin) e.list1 e.el1 && in_bounds (map length xin) e.list2 e.el2)
          es
        ≡ true
      → sum_products (new_mod p) xin acc es ≡ some ((acc + total_products xin es) % p)
  unfolding sum_products
  sum_products_lem [] acc q ok = ap some (sym (mod-eq_of_lt q) ∙ ap (λ t. t % p) (omega arith))
  sum_products_lem (e ∷ es) acc q ok =
      let (x, at) = read-in_bounds xin e.list1 e.el1 (ground arith) in
      let (y, at') = read-in_bounds xin e.list2 e.el2 (ground arith) in
      ap
        (λ o. elim o [
          | none ↦ none
          | some x ↦ elim (read xin e.list2 e.el2) [
            | none ↦ none
            | some y ↦ sum_products (new_mod p) xin (apbc_mod acc x y (new_mod p)) es
          ]
        ])
        at
      ∙ ap
          (λ o. elim o [
            | none ↦ none
            | some y ↦ sum_products (new_mod p) xin (apbc_mod acc x y (new_mod p)) es
          ])
          at'
      ∙ ap (λ t. sum_products (new_mod p) xin t es)
          (apbc_mod_lem p h acc x y q (small e.list1 e.el1 x at) (small e.list2 e.el2 y at'))
      ∙ sum_products_lem es ((acc + x * y) % p) (mod-lt (acc + x * y) positive) (ground arith)
      ∙ ap some (add_total p acc (x * y) (total_products xin es))
      ∙ ap (λ o. some ((acc + (o + total_products xin es)) % p))
          (sym (ap₂ (λ a b. value_of a * value_of b) at at'))

for_each-map {ℓ} :
    {A : Type ℓ} (f : A → Option ℕ) (g : A → ℕ) (ok : A → Bool)
    → ((a : A) → ok a ≡ true → f a ≡ some (g a))
    → (l : List A) → all_of ok l ≡ true
    → for_each f l ≡ some (map g l)
for_each-map f g ok h [] e = refl
for_each-map f g ok h (a ∷ l) e =
    ground (arith, h a (ground arith), for_each-map f g ok h l (ground arith))

take_and_add_init-accepted :
    (t t' : TakeAndAdd) (npars : List ℕ) (elems : List (List InputEl))
    → take_and_add_init t npars elems ≡ (success, t')
    → (all_of (λ l. all_of (λ e. in_bounds npars e.list e.el) l) elems ≡ true)
      × (t'.elems_ ≡ elems)
      × (t'.nparsout ≡ length elems)
unfolding take_and_add_init
take_and_add_init-accepted t t' npars elems h = ground arith

take_and_add_bl_init-accepted :
    (t t' : TakeAndAddBl) (npars : List ℕ) (elems : List (List InputElBl))
    → take_and_add_bl_init t npars elems ≡ (success, t')
    → (all_of
          (λ l. all_of (λ e. in_bounds npars e.list1 e.el1 && in_bounds npars e.list2 e.el2) l)
          elems
        ≡ true)
      × (t'.elems_ ≡ elems)
      × (t'.nparsout ≡ length elems)
unfolding take_and_add_bl_init
take_and_add_bl_init-accepted t t' npars elems h = ground arith

module _ (p : ℕ) (h : IsModulus p) (xin : List (List ℕ)) (small : Residues p xin) where
  -- For a modulus `p` of either path, if `TakeAndAdd::init` accepts its patterns, then on inputs of
  -- the declared lengths whose elements are residues `evaluate` reads nothing out of bounds and
  -- writes, for each pattern, the sum mod p of the elements that it names; `nparsout` is the number
  -- of patterns.
  pub take_and_add-evaluate :
      (t t' : TakeAndAdd) (npars : List ℕ) (elems : List (List InputEl))
      → take_and_add_init t npars elems ≡ (success, t')
      → Fits xin npars
      → (take_and_add_evaluate t' xin (new_mod p) ≡ some (map (λ l. total xin l % p) elems))
        × (t'.nparsout ≡ length elems)
  unfolding take_and_add_evaluate
  take_and_add-evaluate t t' npars elems accepts fits =
      let (ok, same, out) = take_and_add_init-accepted t t' npars elems accepts in
      let inside =
        subst (λ ns. all_of (λ l. all_of (λ e. in_bounds ns e.list e.el) l) elems ≡ true) (sym fits)
          ok in
      (
        ap (for_each (λ l. sum_elements (new_mod p) xin 0 l)) same
            ∙ for_each-map (λ l. sum_elements (new_mod p) xin 0 l) (λ l. total xin l % p)
                (λ l. all_of (λ e. in_bounds (map length xin) e.list e.el) l)
                (λ l okl.
                  sum_elements_lem p h xin small l 0 (positive p h xin small) okl
                  ∙ ap (λ t. some (t % p)) (omega arith))
                elems inside,
        out,
      )

  -- For a modulus `p` of either path, if `TakeAndAddBL::init` accepts its patterns, then on inputs of
  -- the declared lengths whose elements are residues `evaluate` reads nothing out of bounds and
  -- writes, for each pattern, the sum mod p of the products that it names; `nparsout` is the number
  -- of patterns.
  pub take_and_add_bl-evaluate :
      (t t' : TakeAndAddBl) (npars : List ℕ) (elems : List (List InputElBl))
      → take_and_add_bl_init t npars elems ≡ (success, t')
      → Fits xin npars
      → (take_and_add_bl_evaluate t' xin (new_mod p)
          ≡ some (map (λ l. total_products xin l % p) elems))
        × (t'.nparsout ≡ length elems)
  unfolding take_and_add_bl_evaluate
  take_and_add_bl-evaluate t t' npars elems accepts fits =
      let (ok, same, out) = take_and_add_bl_init-accepted t t' npars elems accepts in
      let inside =
        subst
          (λ ns.
            all_of (λ l. all_of (λ e. in_bounds ns e.list1 e.el1 && in_bounds ns e.list2 e.el2) l)
              elems
            ≡ true)
          (sym fits) ok in
      (
        ap (for_each (λ l. sum_products (new_mod p) xin 0 l)) same
            ∙ for_each-map (λ l. sum_products (new_mod p) xin 0 l) (λ l. total_products xin l % p)
                (λ l.
                  all_of
                    (λ e.
                      in_bounds (map length xin) e.list1 e.el1
                      && in_bounds (map length xin) e.list2 e.el2)
                    l)
                (λ l okl.
                  sum_products_lem p h xin small l 0 (positive p h xin small) okl
                  ∙ ap (λ t. some (t % p)) (omega arith))
                elems inside,
        out,
      )
