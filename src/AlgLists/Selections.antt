-- ===== src/AlgLists/Selections.antt =====
-- The algorithms that copy elements: what an accepted `init` promises of each later `evaluate`.
use finiteflow.Base.{
  ℕ, suc, List, [], ◌∷◌, ◌++◌, map, Option, none, some, true, false, ◌+◌, ◌-◌, ◌<◌, ◌≤◌, ◌≡◌, ◌↔◌,
  length, get_elem?, refl, ap, ap₂, sym, ◌∙◌, arith, take, drop, subst, length-append,
}
use native.Mathlib.Nat.{mod-eq_of_lt}
use mathlib.Core.List.{flatten, append_assoc}
use finiteflow.AlgLists.{
  success, failed, unsigned_mod, read, upto, for_each, in_bounds, all_of, InputEl, Take, take_init,
  take_evaluate, Slice, slice_init, slice_evaluate, chain_total, chain_loop, chain_init,
  chain_evaluate, append_option,
}
use finiteflow.AlgLists.Reads.{Fits, read-in_bounds, for_each-some, for_each-upto}

take_init-accepted :
    (t t' : Take) (npars : List ℕ) (elems : List InputEl)
    → take_init t npars elems ≡ (success, t')
    → (all_of (λ e. in_bounds npars e.list e.el) elems ≡ true)
      × (t'.elems_ ≡ elems)
      × (t'.nparsout ≡ length elems)
unfolding take_init
take_init-accepted t t' npars elems h = ground arith

-- If `Take::init` accepts a pattern, then on inputs of the declared lengths `evaluate` reads
-- nothing out of bounds, and writes `nparsout` entries, each the element at its position of the
-- pattern.
pub take-evaluate :
    (t t' : Take) (npars : List ℕ) (elems : List InputEl) (xin : List (List ℕ))
    → take_init t npars elems ≡ (success, t')
    → Fits xin npars
    → (ys : List ℕ) × (take_evaluate t' xin ≡ some ys)
      × (length ys ≡ t'.nparsout)
      × (map (λ e. read xin e.list e.el) elems ≡ map some ys)
unfolding take_evaluate
take-evaluate t t' npars elems xin h fits =
    let (accepted, same, out) = take_init-accepted t t' npars elems h in
    let inside =
      subst (λ ns. all_of (λ e. in_bounds ns e.list e.el) elems ≡ true) (sym fits) accepted in
    let (ys, ev, len, each) =
      for_each-some (λ (e : InputEl). read xin e.list e.el)
        (λ e. in_bounds (map length xin) e.list e.el) (λ e. read-in_bounds xin e.list e.el) elems
        inside in
    (ys, ap (for_each (λ e. read xin e.list e.el)) same ∙ ev, len ∙ sym out, each)

-- `Take::init` fails exactly when a position of the pattern is out of bounds, and then keeps the
-- earlier pattern.
pub take_init-failed :
    (t : Take) (npars : List ℕ) (elems : List InputEl)
    → ((take_init t npars elems).0 ≡ failed)
      ↔ (all_of (λ e. in_bounds npars e.list e.el) elems ≡ false)
unfolding take_init
take_init-failed t npars elems = (λ h. ground arith, λ h. ground arith)

slice_init-accepted :
    (s s' : Slice) (npars start end : ℕ)
    → slice_init s npars start end ≡ (success, s')
    → (start ≤ end)
      × (end ≤ npars)
      × (s'.start_ ≡ start)
      × (s'.end_ ≡ end)
      × (s'.nparsout ≡ end - start)
unfolding slice_init
slice_init-accepted s s' npars start end h = ground arith

-- If `Slice::init` accepts `start` and `end`, then start <= end <= npars, `nparsout` is end -
-- start, and on an input of the declared length `evaluate` copies the elements from `start` up
-- to `end`.
pub slice-evaluate :
    (s s' : Slice) (npars start end : ℕ) (x : List ℕ)
    → slice_init s npars start end ≡ (success, s')
    → length x ≡ npars
    → (slice_evaluate s' (x ∷ []) ≡ some (take (end - start) (drop start x)))
      × (start ≤ end)
      × (end ≤ npars)
      × (s'.nparsout ≡ end - start)
unfolding slice_evaluate
slice-evaluate s s' npars start end x h len =
    let (ordered, inside, first, last, out) = slice_init-accepted s s' npars start end h in
    (rw (first, last) (for_each-upto x start (end - start) (omega arith)), ordered, inside, out)

get_elem?-append :
    {A : Type 0} (pre : List A) (x : A) (xs : List A)
    → get_elem? (pre ++ x ∷ xs) (length pre) ≡ some x
get_elem?-append [] x xs = refl
get_elem?-append (y ∷ pre) x xs = get_elem?-append pre x xs

take_all : (x : List ℕ) → take (length x) x ≡ x
take_all [] = refl
take_all (y ∷ x) = ap (◌∷◌ y) (take_all x)

read_row :
    (pre : List (List ℕ)) (x : List ℕ) (xs : List (List ℕ))
    → for_each (λ j. read (pre ++ x ∷ xs) (length pre) j) (upto 0 (length x)) ≡ some x
read_row pre x xs =
    ap
      (λ (o : Option (List ℕ)).
        for_each (λ j. elim o [ none ↦ none | some l ↦ get_elem? l j ]) (upto 0 (length x)))
      (get_elem?-append pre x xs)
    ∙ for_each-upto x 0 (length x) (omega arith)
    ∙ ap some (take_all x)

next_chain :
    (pre : List (List ℕ)) (x : List ℕ) (xs : List (List ℕ))
    → chain_loop ((pre ++ x ∷ []) ++ xs) (length (pre ++ x ∷ [])) (map length xs)
      ≡ some (flatten xs)
    → chain_loop (pre ++ x ∷ xs) (suc (length pre)) (map length xs) ≡ some (flatten xs)
next_chain pre x xs h =
    subst (λ l. chain_loop l (suc (length pre)) (map length xs) ≡ some (flatten xs))
      (append_assoc pre (x ∷ []) xs)
      (subst (λ k. chain_loop ((pre ++ x ∷ []) ++ xs) k (map length xs) ≡ some (flatten xs))
        (length-append pre (x ∷ []) ∙ omega arith) h)

chain_loop_lem :
    (pre xs : List (List ℕ))
    → chain_loop (pre ++ xs) (length pre) (map length xs) ≡ some (flatten xs)
unfolding chain_loop flatten
chain_loop_lem pre [] = refl
chain_loop_lem pre (x ∷ xs) =
    ap₂ append_option (read_row pre x xs) (next_chain pre x xs (chain_loop_lem (pre ++ x ∷ []) xs))

total_length :
    (tot : ℕ) (xs : List (List ℕ))
    → tot + length (flatten xs) < unsigned_mod
    → chain_total tot (map length xs) ≡ tot + length (flatten xs)
unfolding chain_total flatten
total_length tot [] h = omega arith
total_length tot (x ∷ xs) h =
    ap (λ t. chain_total t (map length xs)) (mod-eq_of_lt (bound small))
    ∙ total_length (tot + length x) xs small
    ∙ omega (arith, length-append x (flatten xs))
  where
    small : tot + length x + length (flatten xs) < unsigned_mod
    small = omega (arith, length-append x (flatten xs))

    bound : tot + length x + length (flatten xs) < unsigned_mod → tot + length x < unsigned_mod
    bound k = omega arith

-- On inputs of the declared lengths, whose total is below 2^32, `Chain::evaluate` writes their
-- concatenation, and `nparsout` is its length.
pub chain-evaluate :
    (npars : List ℕ) (xin : List (List ℕ))
    → Fits xin npars
    → length (flatten xin) < unsigned_mod
    → (chain_evaluate (chain_init npars) xin ≡ some (flatten xin))
      × ((chain_init npars).nparsout ≡ length (flatten xin))
unfolding chain_evaluate chain_init
chain-evaluate npars xin fits small =
    rw (← fits) (chain_loop_lem [] xin, total_length 0 xin (omega arith) ∙ omega arith)
