-- ===== src/Newton/Rows.antt =====
-- The rows of the Newton system: both ways to evaluate, the next coefficient, and the points of the row.
use native.Mathlib.Nat.{
  mod-eq_of_lt, mod-lt, mod_self, add-mod, mod-mod, mul_comm, mul_assoc, mul-add,
}
use finiteflow.Base.{
  ◌⊎◌, inl, inr, ℕ, List, [], ◌∷◌, ◌++◌, All, ◌+◌, ◌*◌, ◌-◌, ◌%◌, ◌<◌, ◌≡◌, ap, ap₂, sym, ◌∙◌, refl,
  arith, get_or, length, drop, subst,
}
use finiteflow.Base.Div.{mul-mod_left_mod, mul-mod_right_mod}
use finiteflow.Ffmod.{IsModulus}
use finiteflow.Modular.{new_mod, add_mod, sub_mod, mul_mod, apbc_mod}
use finiteflow.Modular.Laws.{add_mod_lem, sub_mod_lem, mul_mod_lem, apbc_mod_lem}
use finiteflow.Newton.{eval_coeffs, row_loop}

abbrev pub AllBelow : ℕ → List ℕ → Type 0
AllBelow p cs = All (λ a. a < p) cs

abbrev pub HasPoint : ℕ → List ℕ → Type 0
HasPoint x [] = ⊥
HasPoint x (z ∷ zs) = (z ≡ x) ⊎ HasPoint x zs

module _ (p : ℕ) (h : IsModulus p) (x : ℕ) (x_small : x < p) where
  p_pos : 0 < p
  p_pos = omega (arith, x_small)

  difference : ℕ → ℕ
  difference xi = sub_mod x xi (new_mod p)

  difference-lt : (xi : ℕ) → xi < p → difference xi < p
  unfolding difference
  difference-lt xi small =
      subst (λ t. t < p) (sym (sub_mod_lem p h x xi x_small small)) (mod-lt (x + p - xi) p_pos)

  pub difference-small : (xi : ℕ) → xi < p → sub_mod x xi (new_mod p) < p
  unfolding difference
  difference-small xi small = difference-lt xi small

  pub mul_mod-lt : (a b : ℕ) → a < p → b < p → mul_mod a b (new_mod p) < p
  mul_mod-lt a b ha hb = subst (λ t. t < p) (sym (mul_mod_lem p h a b ha hb)) (mod-lt (a * b) p_pos)

  pub apbc_mod-lt : (a b c : ℕ) → a < p → b < p → c < p → apbc_mod a b c (new_mod p) < p
  apbc_mod-lt a b c ha hb hc =
      subst (λ t. t < p) (sym (apbc_mod_lem p h a b c ha hb hc)) (mod-lt (a + b * c) p_pos)

  abbrev pub IsRowPair : ℕ × ℕ → Type 0
  IsRowPair r = (r.0 < p) × (r.1 < p)

  pub row_loop-IsRowPair :
      (cs xs : List ℕ) (res term : ℕ)
      → AllBelow p cs
      → AllBelow p xs
      → length xs ≡ length cs
      → res < p
      → term < p
      → IsRowPair (row_loop (length cs) cs xs x (new_mod p) res term)
  unfolding row_loop difference
  row_loop-IsRowPair [] xs res term ha hx e hr ht = (hr, ht)
  row_loop-IsRowPair (a ∷ cs) [] res term ha hx e hr ht = absurd (omega (arith, e))
  row_loop-IsRowPair (a ∷ cs) (z ∷ xs) res term ha hx e hr ht =
      row_loop-IsRowPair cs xs (apbc_mod res a term (new_mod p))
        (mul_mod term (sub_mod x z (new_mod p)) (new_mod p)) ha.1 hx.1 (omega (arith, e))
        (apbc_mod-lt res a term hr ha.0 ht)
        (mul_mod-lt term (sub_mod x z (new_mod p)) ht (difference-lt z hx.0))

  eval_cons :
      (b a : ℕ) (cs zs : List ℕ)
      → eval_coeffs (b ∷ (cs ++ a ∷ [])) zs x (new_mod p)
        ≡ add_mod
            (mul_mod
              (eval_coeffs (cs ++ a ∷ []) (drop 1 zs) x (new_mod p))
              (sub_mod x (get_or zs 0 0) (new_mod p))
              (new_mod p))
            b
            (new_mod p)
  unfolding eval_coeffs
  eval_cons b a [] zs = refl
  eval_cons b a (c ∷ cs) zs = refl

  pub mul_add_lem :
      (v d b : ℕ)
      → v < p
      → d < p
      → b < p
      → add_mod (mul_mod v d (new_mod p)) b (new_mod p) ≡ (v * d + b) % p
  mul_add_lem v d b hv hd hb =
      add_mod_lem p h (mul_mod v d (new_mod p)) b (mul_mod-lt v d hv hd) hb
      ∙ ap (λ t. (t + b) % p) (mul_mod_lem p h v d hv hd)
      ∙ add-mod (v * d % p) b p
      ∙ ap (λ t. (t + b % p) % p) (mod-mod (v * d) p)
      ∙ sym (add-mod (v * d) b p)

  -- One round of both loops.
  round :
      (res term b d v : ℕ)
      → res < p
      → term < p
      → b < p
      → d < p
      → v < p
      → (apbc_mod res b term (new_mod p) + mul_mod term d (new_mod p) * v) % p
        ≡ (res + term * add_mod (mul_mod v d (new_mod p)) b (new_mod p)) % p
  round res term b d v hr ht hb hd hv =
      ap₂ (λ s t. (s + t * v) % p) (apbc_mod_lem p h res b term hr hb ht)
        (mul_mod_lem p h term d ht hd)
      ∙ add-mod ((res + b * term) % p) (term * d % p * v) p
      ∙ ap₂ (λ s t. (s + t) % p) (mod-mod (res + b * term) p) (mul-mod_left_mod (term * d) v p)
      ∙ sym (add-mod (res + b * term) (term * d * v) p)
      ∙ ap (λ t. t % p)
          (omega (
            arith,
            mul_comm b term,
            mul_assoc term d v,
            mul_comm d v,
            ap (λ (t : ℕ). term * t) (mul_comm d v),
            mul-add term (v * d) b,
          ))
      ∙ add-mod res (term * (v * d + b)) p
      ∙ ap (λ t. (res % p + t) % p) (sym (mul-mod_right_mod term (v * d + b) p))
      ∙ sym (add-mod res (term * ((v * d + b) % p)) p)
      ∙ ap (λ t. (res + term * t) % p) (sym (mul_add_lem v d b hv hd hb))

  -- Both ways to evaluate agree.
  pub row_loop-eval :
      (cs xs : List ℕ) (a : ℕ) (ys : List ℕ) (res term : ℕ)
      → AllBelow p cs
      → AllBelow p xs
      → a < p
      → length xs ≡ length cs
      → res < p
      → term < p
      → (eval_coeffs (cs ++ a ∷ []) (xs ++ ys) x (new_mod p) < p)
        × (((row_loop (length cs) cs xs x (new_mod p) res term).0
                + (row_loop (length cs) cs xs x (new_mod p) res term).1 * a)
              % p
            ≡ (res + term * eval_coeffs (cs ++ a ∷ []) (xs ++ ys) x (new_mod p)) % p)
  unfolding row_loop difference eval_coeffs
  row_loop-eval [] xs a ys res term ha hx small e hr ht = (small, refl)
  row_loop-eval (b ∷ cs) [] a ys res term ha hx small e hr ht = absurd (omega (arith, e))
  row_loop-eval (b ∷ cs) (z ∷ xs) a ys res term ha hx small e hr ht =
      let d = sub_mod x z (new_mod p) in
      let hd : d < p = difference-lt z hx.0 in
      let rest =
        row_loop-eval cs xs a ys (apbc_mod res b term (new_mod p)) (mul_mod term d (new_mod p)) ha.1
          hx.1 small (omega (arith, e)) (apbc_mod-lt res b term hr ha.0 ht)
          (mul_mod-lt term d ht hd) in
      let v = eval_coeffs (cs ++ a ∷ []) (xs ++ ys) x (new_mod p) in
      (
        subst (λ t. t < p)
            (sym (
              eval_cons b a cs (z ∷ (xs ++ ys))
              ∙ add_mod_lem p h (mul_mod v d (new_mod p)) b (mul_mod-lt v d rest.0 hd) ha.0))
            (mod-lt (mul_mod v d (new_mod p) + b) p_pos),
        rest.1
            ∙ round res term b d v hr ht ha.0 hd rest.0
            ∙ ap (λ t. (res + term * t) % p) (sym (eval_cons b a cs (z ∷ (xs ++ ys)))),
      )

  -- At a point of the list the product of the differences is zero.
  row_loop_zero :
      (cs xs : List ℕ) (res : ℕ)
      → AllBelow p xs
      → length xs ≡ length cs
      → (row_loop (length cs) cs xs x (new_mod p) res 0).1 ≡ 0
  unfolding row_loop
  row_loop_zero [] xs res hx e = refl
  row_loop_zero (c ∷ cs) [] res hx e = absurd (omega (arith, e))
  row_loop_zero (c ∷ cs) (z ∷ xs) res hx e =
      ap (λ t. (row_loop (length cs) cs xs x (new_mod p) (apbc_mod res c 0 (new_mod p)) t).1)
        (mul_mod_lem p h 0 (sub_mod x z (new_mod p)) p_pos (difference-small z hx.0)
          ∙ ap (λ t. t % p) (omega arith)
          ∙ mod-eq_of_lt p_pos)
      ∙ row_loop_zero cs xs (apbc_mod res c 0 (new_mod p)) hx.1 (omega (arith, e))

  pub row_loop-HasPoint :
      (cs xs : List ℕ) (res term : ℕ)
      → AllBelow p xs
      → term < p
      → length xs ≡ length cs
      → HasPoint x xs
      → (row_loop (length cs) cs xs x (new_mod p) res term).1 ≡ 0
  unfolding row_loop
  row_loop-HasPoint cs [] res term hx ht e has = absurd has
  row_loop-HasPoint [] (z ∷ xs) res term hx ht e has = absurd (omega (arith, e))
  row_loop-HasPoint (c ∷ cs) (z ∷ xs) res term hx ht e has = elim has [
    | inl here ↦
        ap (λ t. (row_loop (length cs) cs xs x (new_mod p) (apbc_mod res c term (new_mod p)) t).1)
          (mul_mod_lem p h term (sub_mod x z (new_mod p)) ht (difference-small z hx.0)
            ∙ ap (λ t. term * t % p)
                (sub_mod_lem p h x z x_small hx.0
                  ∙ ap (λ t. t % p) (omega (arith, here))
                  ∙ mod_self p)
            ∙ ap (λ t. t % p) (omega arith)
            ∙ mod-eq_of_lt p_pos)
        ∙ row_loop_zero cs xs (apbc_mod res c term (new_mod p)) hx.1 (omega (arith, e))
    | inr later ↦
        row_loop-HasPoint cs xs (apbc_mod res c term (new_mod p))
          (mul_mod term (sub_mod x z (new_mod p)) (new_mod p)) hx.1
          (mul_mod-lt term (sub_mod x z (new_mod p)) ht (difference-small z hx.0))
          (omega (arith, e)) later
  ]

  pub row_loop-snoc :
      (cs xs : List ℕ) (a z res term : ℕ)
      → length xs ≡ length cs
      → (row_loop (length (cs ++ a ∷ [])) (cs ++ a ∷ []) (xs ++ z ∷ []) x (new_mod p) res term).0
        ≡ apbc_mod
            (row_loop (length cs) cs xs x (new_mod p) res term).0
            a
            (row_loop (length cs) cs xs x (new_mod p) res term).1
            (new_mod p)
  unfolding row_loop
  row_loop-snoc [] [] a z res term e = refl
  row_loop-snoc [] (y ∷ xs) a z res term e = absurd (omega (arith, e))
  row_loop-snoc (c ∷ cs) [] a z res term e = absurd (omega (arith, e))
  row_loop-snoc (c ∷ cs) (y ∷ xs) a z res term e =
      row_loop-snoc cs xs a z (apbc_mod res c term (new_mod p))
        (mul_mod term (sub_mod x y (new_mod p)) (new_mod p)) (omega (arith, e))
