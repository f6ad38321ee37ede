-- ===== src/SparsePoly/Merge.antt =====
-- `SparsePoly::add_` on sums: what it adds, and what it does not subtract.
use Prim.Native.Nat.{Ordering}
use native.Mathlib.Nat.{mod-lt, mod-mod, mod-eq_of_lt, add-mul, add-mul-mod_self_right}
use finiteflow.Base.{
  ℕ, List, [], ◌∷◌, ◌++◌, All, ◌⊎◌, inl, inr, ◌+◌, ◌*◌, ◌%◌, ◌-◌, ◌<◌, ◌≤◌, ◌≡◌, ◌↔◌, ap, ap₂, sym,
  ◌∙◌, refl, arith, length, subst, ◌==◌, if◌then◌else◌, Bool-cases, ==→eq,
}
use finiteflow.Base.Div.{congruent, mul-mod_left_mod}
use finiteflow.Ffmod.{IsModulus}
use finiteflow.Modular.{Mod, new_mod, add_mod}
use finiteflow.Modular.Laws.{add_mod_lem}
use finiteflow.Newton.Rows.{AllBelow}
use finiteflow.SparsePoly.{
  Monomial, SparsePoly, AddOp, sparse_add_op, sparse_sub_op, merge, add, sub, eval,
  compare_exponents, compare_lex, compare_monomials,
}
use finiteflow.SparsePoly.Sums.{AllBelow-mono, IsTerm, IsTerms, weight, total, eval-total}

Ordering-cases : (o : Ordering) → (o ≡ Ordering.lt) ⊎ (o ≡ Ordering.eq) ⊎ (o ≡ Ordering.gt)
Ordering-cases Ordering.lt = inl refl
Ordering-cases Ordering.eq = inr (inl refl)
Ordering-cases Ordering.gt = inr (inr refl)

compare_exponents-eq :
    (d e : ℕ) → d < 0x1_0000 → e < 0x1_0000 → compare_exponents d e ≡ Ordering.eq → d ≡ e
compare_exponents-eq d e hd he same = ground arith

compare_lex-eq :
    (ds es : List ℕ)
    → length ds ≡ length es
    → AllBelow 0x1_0000 ds
    → AllBelow 0x1_0000 es
    → compare_lex ds es ≡ Ordering.eq
    → ds ≡ es
unfolding compare_lex
compare_lex-eq [] [] len hd he same = refl
compare_lex-eq [] (e ∷ es) len hd he same = absurd (omega (arith, len))
compare_lex-eq (d ∷ ds) [] len hd he same = absurd (omega (arith, len))
compare_lex-eq (d ∷ ds) (e ∷ es) len hd he same = elim (Ordering-cases (compare_exponents d e)) [
  | inl less ↦ ground (arith, less, same)
  | inr (inr more) ↦ ground (arith, more, same)
  | inr (inl equal) ↦
      ap₂ (λ a l. a ∷ l) (compare_exponents-eq d e hd.0 he.0 equal)
        (compare_lex-eq ds es (omega (arith, len)) hd.1 he.1 (ground (arith, equal)))
]

compare_monomials-eq :
    (s t : Monomial)
    → length s.exponents ≡ length t.exponents
    → AllBelow 0x1_0000 s.exponents
    → AllBelow 0x1_0000 t.exponents
    → compare_monomials s t ≡ Ordering.eq
    → s.exponents ≡ t.exponents
unfolding compare_monomials
compare_monomials-eq s t len hs ht same =
    elim (Ordering-cases (compare_exponents s.degree t.degree)) [
      | inl less ↦ ground (arith, less)
      | inr (inr more) ↦ ground (arith, more)
      | inr (inl equal) ↦ compare_lex-eq s.exponents t.exponents len hs ht (ground (arith, equal))
    ]

module _ (op : AddOp) (s : Monomial) (ss : List Monomial) (t : Monomial) (ts : List Monomial) where
  abbrev combined : List Monomial
  combined =
      if op.binary s.coeff t.coeff == 0
      then merge op ss ts
      else record s { coeff = op.binary s.coeff t.coeff } ∷ merge op ss ts

  merge_gt :
      compare_monomials s t ≡ Ordering.gt → merge op (s ∷ ss) (t ∷ ts) ≡ s ∷ merge op ss (t ∷ ts)
  unfolding merge
  merge_gt h = ground (arith, h)

  merge_lt :
      compare_monomials s t ≡ Ordering.lt
      → merge op (s ∷ ss) (t ∷ ts) ≡ record t { coeff = op.unary t.coeff } ∷ merge op (s ∷ ss) ts
  unfolding merge
  merge_lt h = ground (arith, h)

  merge_eq : compare_monomials s t ≡ Ordering.eq → merge op (s ∷ ss) (t ∷ ts) ≡ combined
  unfolding merge
  merge_eq h = ground (arith, h)

-- Monomials above all others come first, and the others follow as they are.
merge_above :
    (op : AddOp) (ss : List Monomial) (t : Monomial) (ts : List Monomial)
    → All (λ s. compare_monomials s t ≡ Ordering.gt) ss
    → merge op ss (t ∷ ts) ≡ ss ++ t ∷ ts
unfolding merge
merge_above op [] t ts above = refl
merge_above op (s ∷ ss) t ts above =
    merge_gt op s ss t ts above.0 ∙ ap (λ l. s ∷ l) (merge_above op ss t ts above.1)

module _ (p : ℕ) (h : IsModulus p) (one_lt : 1 < p) (n bound : ℕ) (within : bound ≤ 0x1_0000)
    (xs : List ℕ) where
  abbrev pub IsSum : List Monomial → List Monomial → List Monomial → Type 0
  IsSum ss ts us =
      IsTerms p n bound us
      × (total p h one_lt us xs % p ≡ (total p h one_lt ss xs + total p h one_lt ts xs) % p)

  IsSum-gt :
      (s : Monomial) (ss ts us : List Monomial)
      → IsTerm p n bound s
      → IsSum ss ts us
      → IsSum (s ∷ ss) ts (s ∷ us)
  IsSum-gt s ss ts us term sum = (
    (term, sum.0),
    congruent p (s.coeff * weight p h one_lt s.exponents xs) (total p h one_lt us xs)
          (s.coeff * weight p h one_lt s.exponents xs)
          (total p h one_lt ss xs + total p h one_lt ts xs) refl sum.1
        ∙ ap (λ t. t % p) (omega arith),
  )

  IsSum-lt :
      (t : Monomial) (ss ts us : List Monomial)
      → IsTerm p n bound t
      → IsSum ss ts us
      → IsSum ss (t ∷ ts) (t ∷ us)
  IsSum-lt t ss ts us term sum = (
    (term, sum.0),
    congruent p (t.coeff * weight p h one_lt t.exponents xs) (total p h one_lt us xs)
          (t.coeff * weight p h one_lt t.exponents xs)
          (total p h one_lt ss xs + total p h one_lt ts xs) refl sum.1
        ∙ ap (λ s. s % p) (omega arith),
  )

  IsSum-eq :
      (s t : Monomial) (ss ts us : List Monomial)
      → IsTerm p n bound s
      → IsTerm p n bound t
      → s.exponents ≡ t.exponents
      → IsSum ss ts us
      → IsSum (s ∷ ss) (t ∷ ts) (
          if add_mod s.coeff t.coeff (new_mod p) == 0
          then us
          else record s { coeff = add_mod s.coeff t.coeff (new_mod p) } ∷ us)
  IsSum-eq s t ss ts us term term' same sum = elim (Bool-cases (c == 0)) [
    | inl gone ↦
        subst (λ b. IsSum (s ∷ ss) (t ∷ ts) (if b then us else record s { coeff = c } ∷ us))
          (sym gone)
          (
            sum.0,
            ap (λ k. k % p) (omega arith)
                ∙ ap (λ k. (k * w + total p h one_lt us xs) % p) (sym (==→eq c 0 gone))
                ∙ value,
          )
    | inr there ↦
        subst (λ b. IsSum (s ∷ ss) (t ∷ ts) (if b then us else record s { coeff = c } ∷ us))
          (sym there)
          (
            (record { coeff_small = c_small; arity = term.arity; bounded = term.bounded }, sum.0),
            value,
          )
  ]
    where
      c : ℕ
      c = add_mod s.coeff t.coeff (new_mod p)

      w : ℕ
      w = weight p h one_lt s.exponents xs

      c_value : c ≡ (s.coeff + t.coeff) % p
      c_value = add_mod_lem p h s.coeff t.coeff term.coeff_small term'.coeff_small

      c_small : c < p
      c_small =
          subst (λ k. k < p) (sym c_value) (mod-lt (s.coeff + t.coeff) (omega (arith, one_lt)))

      value :
          (c * w + total p h one_lt us xs) % p
          ≡ (total p h one_lt (s ∷ ss) xs + total p h one_lt (t ∷ ts) xs) % p
      value =
          congruent p (c * w) (total p h one_lt us xs) ((s.coeff + t.coeff) * w)
            (total p h one_lt ss xs + total p h one_lt ts xs)
            (ap (λ k. k * w % p) c_value ∙ mul-mod_left_mod (s.coeff + t.coeff) w p) sum.1
          ∙ ap (λ k. k % p)
              (omega (
                arith,
                add-mul s.coeff t.coeff w,
                ap (λ es. t.coeff * weight p h one_lt es xs) same,
              ))

  pub merge-IsSum :
      (ss ts : List Monomial)
      → IsTerms p n bound ss
      → IsTerms p n bound ts
      → IsSum ss ts (merge (sparse_add_op (new_mod p)) ss ts)
  unfolding merge
  merge-IsSum [] ts hs ht = (ht, ap (λ t. t % p) (omega arith))
  merge-IsSum (s ∷ ss) [] hs ht = (hs, ap (λ t. t % p) (omega arith))
  merge-IsSum (s ∷ ss) (t ∷ ts) hs ht = elim (Ordering-cases (compare_monomials s t)) [
    | inl less ↦
        subst (IsSum (s ∷ ss) (t ∷ ts)) (sym (merge_lt (sparse_add_op (new_mod p)) s ss t ts less))
          (IsSum-lt t (s ∷ ss) ts (merge (sparse_add_op (new_mod p)) (s ∷ ss) ts) ht.0
            (merge-IsSum (s ∷ ss) ts hs ht.1))
    | inr (inr more) ↦
        subst (IsSum (s ∷ ss) (t ∷ ts)) (sym (merge_gt (sparse_add_op (new_mod p)) s ss t ts more))
          (IsSum-gt s ss (t ∷ ts) (merge (sparse_add_op (new_mod p)) ss (t ∷ ts)) hs.0
            (merge-IsSum ss (t ∷ ts) hs.1 ht))
    | inr (inl equal) ↦
        subst (IsSum (s ∷ ss) (t ∷ ts)) (sym (merge_eq (sparse_add_op (new_mod p)) s ss t ts equal))
          (IsSum-eq s t ss ts (merge (sparse_add_op (new_mod p)) ss ts) hs.0 ht.0
            (compare_monomials-eq s t (hs.0.arity ∙ sym ht.0.arity)
              (AllBelow-mono bound 0x1_0000 s.exponents within hs.0.bounded)
              (AllBelow-mono bound 0x1_0000 t.exponents within ht.0.bounded) equal)
            (merge-IsSum ss ts hs.1 ht.1))
  ]

-- For a modulus above 1 in the range of the word-sized ones, and polynomials with residues and 16-bit
-- exponents, of the same variables: at residues, `add` gives the polynomial whose value is the sum of the
-- values modulo p.
pub add-eval :
    (p : ℕ)
    → IsModulus p
    → 1 < p
    → (n : ℕ) (poly oth : SparsePoly) (xs : List ℕ) → AllBelow p xs
    → IsTerms p n 0x1_0000 poly.monomials_
    → IsTerms p n 0x1_0000 oth.monomials_
    → eval (add poly oth (new_mod p)) xs (new_mod p)
      ≡ (eval poly xs (new_mod p) + eval oth xs (new_mod p)) % p
unfolding add
add-eval p h one_lt n poly oth xs points hs ht =
    let sum =
      merge-IsSum p h one_lt n 0x1_0000 (omega arith) xs poly.monomials_ oth.monomials_ hs ht in
    eval-total p h one_lt (add poly oth (new_mod p)) n 0x1_0000 xs points sum.0
    ∙ sum.1
    ∙ congruent p (total p h one_lt poly.monomials_ xs) (total p h one_lt oth.monomials_ xs)
        (eval poly xs (new_mod p)) (eval oth xs (new_mod p))
        (sym (
          ap (λ t. t % p) (eval-total p h one_lt poly n 0x1_0000 xs points hs)
          ∙ mod-mod (total p h one_lt poly.monomials_ xs) p))
        (sym (
          ap (λ t. t % p) (eval-total p h one_lt oth n 0x1_0000 xs points ht)
          ∙ mod-mod (total p h one_lt oth.monomials_ xs) p))

pub IsTerms-append :
    (p n bound : ℕ) (ss ts : List Monomial)
    → IsTerms p n bound ss
    → IsTerms p n bound ts
    → IsTerms p n bound (ss ++ ts)
IsTerms-append p n bound [] ts hs ht = ht
IsTerms-append p n bound (s ∷ ss) ts hs ht = (hs.0, IsTerms-append p n bound ss ts hs.1 ht)

-- Two residues have their sum as difference only where twice the second one is 0.
sum_difference : (p a b : ℕ) → a < p → b < p → ((a + b) % p ≡ (a + (p - b)) % p) ↔ (2 * b % p ≡ 0)
sum_difference p a b ha hb = (
  λ same.
      sym (add-mul-mod_self_right (2 * b) 1 p)
      ∙ ap (λ t. t % p) (omega arith)
      ∙ congruent p (a + b) (b + (p - a)) (a + (p - b)) (b + (p - a)) same refl
      ∙ ap (λ t. t % p) (omega arith)
      ∙ add-mul-mod_self_right 0 2 p
      ∙ mod-eq_of_lt (omega arith),
  λ twice.
      sym (add-mul-mod_self_right (a + b) 1 p)
      ∙ ap (λ t. t % p) (omega arith)
      ∙ congruent p (2 * b) (a + (p - b)) 0 (a + (p - b)) (twice ∙ sym (mod-eq_of_lt (omega arith)))
          refl
      ∙ ap (λ t. t % p) (omega arith),
)

sub_above-add :
    (m : Mod) (poly : SparsePoly) (t : Monomial) (ts : List Monomial) (n : ℕ)
    → All (λ s. compare_monomials s t ≡ Ordering.gt) poly.monomials_
    → sub poly (record { monomials_ = t ∷ ts; n_vars = n }) m
      ≡ add poly (record { monomials_ = t ∷ ts; n_vars = n }) m
unfolding sub add
sub_above-add m poly t ts n above =
    ap (λ l. record poly { monomials_ = l })
      (merge_above (sparse_sub_op m) poly.monomials_ t ts above
        ∙ sym (merge_above (sparse_add_op m) poly.monomials_ t ts above))

-- For a modulus above 1 in the range of the word-sized ones, and polynomials with residues and 16-bit
-- exponents, of the same variables, where all monomials of the first come before those of the second,
-- which has at least one: `sub` gives the same polynomial as `add`. At residues its value is the sum of
-- the values modulo p, and it is their difference modulo p exactly when twice the value of the second is
-- 0 modulo p.
pub sub_above-eval :
    (p : ℕ)
    → IsModulus p
    → 1 < p
    → (n : ℕ) (poly : SparsePoly) (t : Monomial) (ts : List Monomial) (xs : List ℕ) → AllBelow p xs
    → IsTerms p n 0x1_0000 poly.monomials_
    → IsTerms p n 0x1_0000 (t ∷ ts)
    → All (λ s. compare_monomials s t ≡ Ordering.gt) poly.monomials_
    → (sub poly (record { monomials_ = t ∷ ts; n_vars = n }) (new_mod p)
        ≡ add poly (record { monomials_ = t ∷ ts; n_vars = n }) (new_mod p))
      × (eval (sub poly (record { monomials_ = t ∷ ts; n_vars = n }) (new_mod p)) xs (new_mod p)
          ≡ (eval poly xs (new_mod p)
              + eval (record { monomials_ = t ∷ ts; n_vars = n }) xs (new_mod p))
            % p)
      × ((eval (sub poly (record { monomials_ = t ∷ ts; n_vars = n }) (new_mod p)) xs (new_mod p)
            ≡ (eval poly xs (new_mod p)
                + (p - eval (record { monomials_ = t ∷ ts; n_vars = n }) xs (new_mod p)))
              % p)
          ↔ (2 * eval (record { monomials_ = t ∷ ts; n_vars = n }) xs (new_mod p) % p ≡ 0))
sub_above-eval p h one_lt n poly t ts xs points hs ht above =
    let oth : SparsePoly = record { monomials_ = t ∷ ts; n_vars = n } in
    let value =
      ap (λ q. eval q xs (new_mod p)) (sub_above-add (new_mod p) poly t ts n above)
      ∙ add-eval p h one_lt n poly oth xs points hs ht in
    let below : (q : SparsePoly) → IsTerms p n 0x1_0000 q.monomials_ → eval q xs (new_mod p) < p =
      λ q terms.
        subst (λ k. k < p) (sym (eval-total p h one_lt q n 0x1_0000 xs points terms))
          (mod-lt (total p h one_lt q.monomials_ xs) (omega (arith, one_lt))) in
    let both =
      sum_difference p (eval poly xs (new_mod p)) (eval oth xs (new_mod p)) (below poly hs)
        (below oth ht) in
    (
      sub_above-add (new_mod p) poly t ts n above,
      value,
      (λ same. both.0 (sym value ∙ same), λ twice. value ∙ both.1 twice),
    )
