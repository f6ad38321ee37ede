-- ===== src/Rational/Laurent.antt =====
-- The coefficients of `laurent_expansion` times the denominator are the numerator.
use native.Mathlib.Nat.{mod-eq_of_lt, mod-lt, mod-mod, mul_comm}
use finiteflow.Base.{
  ℕ, zero, suc, List, [], ◌∷◌, ◌+◌, ◌*◌, ◌-◌, ◌%◌, ◌<◌, ◌≤◌, ◌≡◌, ap, sym, ◌∙◌, refl, arith, length,
  get_or, drop, subst,
}
use finiteflow.Base.Div.{congruent, mod_unique}
use finiteflow.Base.Int.{ℤ, pos, ◌-ℤ◌}
use finiteflow.Ffmod.{IsModulus}
use finiteflow.Modular.{new_mod, apbc_mod, sub_mod, neg_mod}
use finiteflow.Modular.Laws.{apbc_mod_lem, sub_mod_lem, neg_mod_lem}
use finiteflow.Newton.{UPoly}
use finiteflow.Newton.Rows.{AllBelow}
use finiteflow.Rational.{
  next_coeff, sub_loop, expansion_loop, num_shift, den_shift, laurent_expansion,
}

-- The coefficient of degree `i` of the product of two series.
abbrev pub product_coeff : List ℕ → List ℕ → ℕ → ℕ
product_coeff [] cs i = 0
product_coeff (d ∷ ds) cs zero = d * get_or cs 0 0
product_coeff (d ∷ ds) cs (suc i) = d * get_or cs (suc i) 0 + product_coeff ds cs i

abbrev dot : List ℕ → List ℕ → ℕ
dot [] ds = 0
dot (c ∷ cs) [] = 0
dot (c ∷ cs) (d ∷ ds) = c * d + dot cs ds

-- The coefficients `before`, the last one first, and those after.
abbrev reverse_onto : List ℕ → List ℕ → List ℕ
reverse_onto [] cs = cs
reverse_onto (b ∷ bs) cs = reverse_onto bs (b ∷ cs)

get_or-reverse_onto :
    (bs cs : List ℕ) (i : ℕ) → get_or (reverse_onto bs cs) (length bs + i) 0 ≡ get_or cs i 0
get_or-reverse_onto [] cs i = ap (λ k. get_or cs k 0) (omega arith)
get_or-reverse_onto (b ∷ bs) cs i =
    ap (λ k. get_or (reverse_onto bs (b ∷ cs)) k 0) (omega arith)
    ∙ get_or-reverse_onto bs (b ∷ cs) (suc i)

product_coeff-reverse_onto :
    (bs : List ℕ) (c : ℕ) (cs : List ℕ) (d : ℕ) (ds : List ℕ)
    → product_coeff (d ∷ ds) (reverse_onto bs (c ∷ cs)) (length bs) ≡ d * c + dot bs ds
product_coeff-reverse_onto [] c cs d ds = omega arith
product_coeff-reverse_onto (b ∷ bs) c cs d [] =
    ap (λ t. d * t + 0)
      (ap (λ k. get_or (reverse_onto bs (b ∷ c ∷ cs)) k 0) (omega arith)
        ∙ get_or-reverse_onto bs (b ∷ c ∷ cs) 1)
product_coeff-reverse_onto (b ∷ bs) c cs d (e ∷ ds) =
    ap (λ t. d * t + product_coeff (e ∷ ds) (reverse_onto bs (b ∷ c ∷ cs)) (length bs))
      (ap (λ k. get_or (reverse_onto bs (b ∷ c ∷ cs)) k 0) (omega arith)
        ∙ get_or-reverse_onto bs (b ∷ c ∷ cs) 1)
    ∙ ap (λ t. d * c + t)
        (product_coeff-reverse_onto bs b (c ∷ cs) e ds ∙ ap (λ t. t + dot bs ds) (mul_comm e b))

get_or-drop_one : (ks : List ℕ) (i : ℕ) → get_or (drop 1 ks) i 0 ≡ get_or ks (suc i) 0
get_or-drop_one [] i = refl
get_or-drop_one (k ∷ ks) i = refl

module _ (p : ℕ) (h : IsModulus p) (one_lt : 1 < p) where
  sub_loop_lem :
      (sub : ℕ) (cs ds : List ℕ)
      → sub < p
      → AllBelow p cs
      → AllBelow p ds
      → (sub_loop sub cs ds (new_mod p) < p)
        × (sub_loop sub cs ds (new_mod p) ≡ (sub + dot cs ds) % p)
  unfolding sub_loop
  sub_loop_lem sub [] ds small hc hd =
      (small, sym (mod-eq_of_lt small) ∙ ap (λ t. t % p) (omega arith))
  sub_loop_lem sub (c ∷ cs) [] small hc hd =
      (small, sym (mod-eq_of_lt small) ∙ ap (λ t. t % p) (omega arith))
  sub_loop_lem sub (c ∷ cs) (d ∷ ds) small hc hd =
      let here = apbc_mod_lem p h sub c d small hc.0 hd.0 in
      let rest =
        sub_loop_lem (apbc_mod sub c d (new_mod p)) cs ds
          (subst (λ t. t < p) (sym here) (mod-lt (sub + c * d) (omega (arith, one_lt)))) hc.1
          hd.1 in
      (
        rest.0,
        rest.1
            ∙ congruent p (apbc_mod sub c d (new_mod p)) (dot cs ds) (sub + c * d) (dot cs ds)
                (ap (λ t. t % p) here ∙ mod-mod (sub + c * d) p) refl
            ∙ ap (λ t. t % p) (omega arith),
      )

  next_coeff_lem :
      (nums : List ℕ) (sub : ℕ)
      → sub < p
      → AllBelow p nums
      → (next_coeff nums sub (new_mod p) < p)
        × ((next_coeff nums sub (new_mod p) + sub) % p ≡ get_or nums 0 0)
  next_coeff_lem [] sub small hn =
      let e = neg_mod_lem p h sub small in
      (
        subst (λ t. t < p) (sym e) (mod-lt (p - sub) (omega (arith, one_lt))),
        congruent p (neg_mod sub (new_mod p)) sub (p - sub) sub
              (ap (λ t. t % p) e ∙ mod-mod (p - sub) p) refl
            ∙ mod_unique (p - sub + sub) 1 p 0 (omega (arith, small)) (omega (arith, one_lt)),
      )
  next_coeff_lem (k ∷ ks) sub small hn =
      let e = sub_mod_lem p h k sub hn.0 small in
      (
        subst (λ t. t < p) (sym e) (mod-lt (k + p - sub) (omega (arith, one_lt))),
        congruent p (sub_mod k sub (new_mod p)) sub (k + p - sub) sub
              (ap (λ t. t % p) e ∙ mod-mod (k + p - sub) p) refl
            ∙ mod_unique (k + p - sub + sub) 1 p k (omega (arith, small)) hn.0,
      )

  drop-AllBelow_one : (ks : List ℕ) → AllBelow p ks → AllBelow p (drop 1 ks)
  drop-AllBelow_one [] hk = tt
  drop-AllBelow_one (k ∷ ks) hk = hk.1

  expansion_loop_lem :
      (n : ℕ) (before nums ds : List ℕ) (t : ℕ)
      → AllBelow p before
      → AllBelow p nums
      → AllBelow p ds
      → t < n
      → product_coeff
            (1 ∷ ds)
            (reverse_onto before (expansion_loop n before nums ds (new_mod p)))
            (length before + t)
          % p
        ≡ get_or nums t 0
  unfolding expansion_loop
  expansion_loop_lem zero before nums ds t hb hn hd le = absurd (omega (arith, le))
  expansion_loop_lem (suc n) before nums ds zero hb hn hd le =
      let sub = sub_loop 0 before ds (new_mod p) in
      let subs = sub_loop_lem 0 before ds (omega (arith, one_lt)) hb hd in
      let c = next_coeff nums sub (new_mod p) in
      let rest = expansion_loop n (c ∷ before) (drop 1 nums) ds (new_mod p) in
      ap (λ k. product_coeff (1 ∷ ds) (reverse_onto before (c ∷ rest)) k % p) (omega arith)
      ∙ ap (λ k. k % p) (product_coeff-reverse_onto before c rest 1 ds ∙ omega arith)
      ∙ congruent p c (dot before ds) c sub refl (
          sym (
            ap (λ k. k % p) subs.1 ∙ mod-mod (0 + dot before ds) p ∙ ap (λ k. k % p) (omega arith)))
      ∙ (next_coeff_lem nums sub subs.0 hn).1
  expansion_loop_lem (suc n) before nums ds (suc t) hb hn hd le =
      let sub = sub_loop 0 before ds (new_mod p) in
      let subs = sub_loop_lem 0 before ds (omega (arith, one_lt)) hb hd in
      let c = next_coeff nums sub (new_mod p) in
      let rest = expansion_loop n (c ∷ before) (drop 1 nums) ds (new_mod p) in
      ap (λ k. product_coeff (1 ∷ ds) (reverse_onto before (c ∷ rest)) k % p) (omega arith)
      ∙ expansion_loop_lem n (c ∷ before) (drop 1 nums) ds t
          ((next_coeff_lem nums sub subs.0 hn).0, hb) (drop-AllBelow_one nums hn) hd
          (omega (arith, le))
      ∙ get_or-drop_one nums t

  first_small : (nums : List ℕ) → AllBelow p nums → get_or nums 0 0 < p
  first_small [] hn = omega (arith, one_lt)
  first_small (k ∷ ks) hn = hn.0

  expansion_lem :
      (n : ℕ) (nums dens : List ℕ) (i : ℕ)
      → AllBelow p nums
      → AllBelow p dens
      → get_or dens 0 0 ≡ 1
      → i ≤ n
      → product_coeff dens
            (get_or nums 0 0
              ∷ expansion_loop n (get_or nums 0 0 ∷ []) (drop 1 nums) (drop 1 dens) (new_mod p))
            i
          % p
        ≡ get_or nums i 0
  expansion_lem n nums [] i hn hd monic le = absurd (omega (arith, monic))
  expansion_lem n nums (d ∷ ds) zero hn hd monic le =
      ap (λ k. k * get_or nums 0 0 % p) monic
      ∙ ap (λ k. k % p) (omega arith)
      ∙ mod-eq_of_lt (first_small nums hn)
  expansion_lem n nums (d ∷ ds) (suc i) hn hd monic le =
      let first = get_or nums 0 0 in
      let next : suc i ≡ 1 + i = omega arith in
      ap
        (λ k.
          product_coeff (k ∷ ds)
            (first ∷ expansion_loop n (first ∷ []) (drop 1 nums) ds (new_mod p)) (suc i)
          % p)
        monic
      ∙ ap
          (λ k.
            product_coeff (1 ∷ ds)
              (first ∷ expansion_loop n (first ∷ []) (drop 1 nums) ds (new_mod p)) k
            % p)
          next
      ∙ expansion_loop_lem n (first ∷ []) (drop 1 nums) ds i (first_small nums hn, tt)
          (drop-AllBelow_one nums hn) hd.1 (omega (arith, le))
      ∙ get_or-drop_one nums i

length-expansion_loop :
    (n : ℕ) (before nums ds : List ℕ) (p : ℕ)
    → length (expansion_loop n before nums ds (new_mod p)) ≡ n
unfolding expansion_loop
length-expansion_loop zero before nums ds p = refl
length-expansion_loop (suc n) before nums ds p =
    ap (λ k. suc k)
      (length-expansion_loop n
        (next_coeff nums (sub_loop 0 before ds (new_mod p)) (new_mod p) ∷ before) (drop 1 nums) ds
        p)

drop-AllBelow_all : (p n : ℕ) (ks : List ℕ) → AllBelow p ks → AllBelow p (drop n ks)
drop-AllBelow_all p zero ks hk = hk
drop-AllBelow_all p (suc n) [] hk = tt
drop-AllBelow_all p (suc n) (k ∷ ks) hk = drop-AllBelow_all p n ks hk.1

laurent_expansion-written :
    (num den : UPoly) (order pref_exp : ℤ) (n p : ℕ)
    → order -ℤ pref_exp ≡ pos n
    → laurent_expansion num den order (new_mod p) pref_exp
      ≡ get_or (drop (num_shift pref_exp) num) 0 0
        ∷ expansion_loop n
            (get_or (drop (num_shift pref_exp) num) 0 0 ∷ [])
            (drop 1 (drop (num_shift pref_exp) num))
            (drop 1 (drop (den_shift pref_exp) den))
            (new_mod p)
unfolding laurent_expansion
laurent_expansion-written num den order pref_exp n p e = ground (arith, e)

-- For a modulus above 1 in the range of the word-sized ones, a numerator and a denominator with residues,
-- and an order that is n above the leading exponent, where the denominator begins with 1 after the shift:
-- there are n + 1 coefficients, and up to the order their product with the shifted denominator has
-- modulo p the coefficients of the shifted numerator.
pub laurent_expansion_lem :
    (p : ℕ)
    → IsModulus p
    → 1 < p
    → (num den : UPoly) (order pref_exp : ℤ) (n : ℕ) → AllBelow p num
    → AllBelow p den
    → order -ℤ pref_exp ≡ pos n
    → get_or (drop (den_shift pref_exp) den) 0 0 ≡ 1
    → (length (laurent_expansion num den order (new_mod p) pref_exp) ≡ suc n)
      × ((i : ℕ)
          → i ≤ n
          → product_coeff
                (drop (den_shift pref_exp) den)
                (laurent_expansion num den order (new_mod p) pref_exp)
                i
              % p
            ≡ get_or (drop (num_shift pref_exp) num) i 0)
unfolding laurent_expansion
laurent_expansion_lem p h one_lt num den order pref_exp n hn hd e monic =
    let nums = drop (num_shift pref_exp) num in
    let dens = drop (den_shift pref_exp) den in
    let first = get_or nums 0 0 in
    let written = laurent_expansion-written num den order pref_exp n p e in
    (
      ap length written
          ∙ ap (λ k. suc k) (length-expansion_loop n (first ∷ []) (drop 1 nums) (drop 1 dens) p),
      λ i le.
          ap (λ cs. product_coeff dens cs i % p) written
          ∙ expansion_lem p h one_lt n nums dens i (drop-AllBelow_all p (num_shift pref_exp) num hn)
              (drop-AllBelow_all p (den_shift pref_exp) den hd) monic le,
    )
