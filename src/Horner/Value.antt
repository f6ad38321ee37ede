-- ===== src/Horner/Value.antt =====
-- `horner_eval` of the stream of a nested polynomial is the value of the polynomial.
use native.Mathlib.Nat.{mod-eq_of_lt, mod-lt, mod-mod}
use finiteflow.Base.{
  get_or-drop_all, drop-drop, ℕ, zero, suc, List, [], ◌∷◌, ◌++◌, map, All, ◌+◌, ◌*◌, ◌-◌, ◌%◌, ◌<◌,
  ◌≤◌, ◌≡◌, ap, ap₂, sym, ◌∙◌, refl, arith, length, get_or, drop, take, subst, false, ◌==◌,
  if◌then◌else◌,
}
use finiteflow.Base.Div.{congruent, mul-mod_left_mod}
use finiteflow.Ffmod.{IsModulus}
use finiteflow.Ffmod.Mul.{ff_mul_shoup_lem}
use finiteflow.Modular.{new_mod, add_mod, mul_mod_shoup, precomp_mul_shoup}
use finiteflow.Modular.Laws.{add_mod_lem}
use finiteflow.Newton.Rows.{AllBelow}
use finiteflow.SparsePoly.Sums.{get_or-AllBelow}
use finiteflow.Horner.{
  horner_end, horner_loop, univariate_loop, variable_loop, variables_loop, horner_eval,
}
use finiteflow.Horner.Encoding.{
  Nested, horner_value, nested_value, flattened, chunks, counts, encode, IsNested, take-map,
  drop-map, take_front, drop_front, below_end, not_zero, no_end, map_same, flattened-IsNested,
  length-chunks,
}

module _ (p : ℕ) (h : IsModulus p) (one_lt : 1 < p) where
  reduced : (cs : List ℕ) → AllBelow p cs → map (λ c. c % p) cs ≡ cs
  reduced [] all = refl
  reduced (c ∷ cs) all = ap₂ (λ k l. k ∷ l) (mod-eq_of_lt all.0) (reduced cs all.1)

  module _ (xv : ℕ) (small : xv < p) where
    abbrev xvp : ℕ
    xvp = precomp_mul_shoup xv (new_mod p)

    shoup : (t : ℕ) → t < p → mul_mod_shoup t xv xvp (new_mod p) ≡ t * xv % p
    unfolding mul_mod_shoup precomp_mul_shoup new_mod
    shoup t ht = ff_mul_shoup_lem p t xv h ht small

    horner_loop-value :
        {A : Type 0} (g : A → ℕ) (qs : List A) (tmp res : ℕ)
        → tmp ≡ res % p
        → horner_loop tmp (map (λ q. g q % p) qs) xv xvp (new_mod p)
          ≡ horner_value res xv (map g qs) % p
    unfolding horner_loop
    horner_loop-value g [] tmp res e = e
    horner_loop-value g (q ∷ qs) tmp res e =
        let pos : 0 < p = omega (arith, one_lt) in
        let ht : tmp < p = subst (λ t. t < p) (sym e) (mod-lt res pos) in
        let product = shoup tmp ht in
        horner_loop-value g qs
          (add_mod (mul_mod_shoup tmp xv xvp (new_mod p)) (g q % p) (new_mod p)) (res * xv + g q)
          (add_mod_lem p h (mul_mod_shoup tmp xv xvp (new_mod p)) (g q % p)
              (subst (λ t. t < p) (sym product) (mod-lt (tmp * xv) pos)) (mod-lt (g q) pos)
            ∙ congruent p (mul_mod_shoup tmp xv xvp (new_mod p)) (g q % p) (res * xv) (g q)
                (ap (λ t. t % p) product
                  ∙ mod-mod (tmp * xv) p
                  ∙ ap (λ t. t * xv % p) e
                  ∙ mul-mod_left_mod res xv p)
                (mod-mod (g q) p))

    coefficients-value :
        (cs : List ℕ)
        → AllBelow p cs
        → horner_loop 0 cs xv xvp (new_mod p) ≡ horner_value 0 xv cs % p
    coefficients-value cs all =
        ap (λ l. horner_loop 0 l xv xvp (new_mod p)) (sym (reduced cs all))
        ∙ horner_loop-value (λ c. c) cs 0 0 (sym (mod-eq_of_lt (omega (arith, one_lt))))
        ∙ ap (λ l. horner_value 0 xv l % p) (map_same cs)

    univariate_loop_lem :
        (qs : List (List ℕ)) (fuel : ℕ) (rest : List ℕ)
        → length qs < fuel
        → All (IsNested p zero) qs
        → univariate_loop fuel (chunks qs rest) xv xvp (new_mod p)
          ≡ (map (λ q. horner_value 0 xv q % p) qs, horner_end ∷ rest)
    unfolding univariate_loop
    univariate_loop_lem qs zero rest enough all = absurd (omega (arith, enough))
    univariate_loop_lem [] (suc fuel) rest enough all = refl
    univariate_loop_lem (cs ∷ css) (suc fuel) rest enough all =
        let later = univariate_loop_lem css fuel rest (omega (arith, enough)) all.1 in
        let stream = chunks css rest in
        let tail : List ℕ × List ℕ =
          univariate_loop fuel (drop (length cs) (cs ++ stream)) xv xvp (new_mod p) in
        let other : (length cs == horner_end) ≡ false = below_end (length cs) all.0.1 in
        no_end (length cs == horner_end) ([], length cs ∷ (cs ++ stream))
          (horner_loop 0 (take (length cs) (cs ++ stream)) xv xvp (new_mod p) ∷ tail.0, tail.1)
          (map (λ q. horner_value 0 xv q % p) (cs ∷ css), horner_end ∷ rest)
          (below_end (length cs) all.0.1)
          (ap₂ (λ v (r : List ℕ × List ℕ). (v ∷ r.0, r.1))
            (ap (λ l. horner_loop 0 l xv xvp (new_mod p)) (take_front cs stream)
              ∙ coefficients-value cs all.0.0)
            (ap (λ l. univariate_loop fuel l xv xvp (new_mod p)) (drop_front cs stream) ∙ later))

    variable_loop_lem :
        (k : ℕ) (g : Nested k → ℕ) (qss : List (List (Nested k))) (rest : List ℕ)
        → All (λ qs. length qs < horner_end) qss
        → variable_loop (counts qss rest) (map (λ q. g q % p) (flattened k qss)) xv xvp (new_mod p)
          ≡ (map (λ qs. horner_value 0 xv (map g qs) % p) qss, horner_end ∷ rest)
    unfolding variable_loop
    variable_loop_lem k g [] rest all = refl
    variable_loop_lem k g ([] ∷ qss) rest all =
        ap₂ (λ v (r : List ℕ × List ℕ). (v ∷ r.0, r.1))
          (horner_loop-value g [] 0 0 (sym (mod-eq_of_lt (omega (arith, one_lt)))))
          (variable_loop_lem k g qss rest all.1)
    variable_loop_lem k g ((q ∷ qs) ∷ qss) rest all =
        let ws = map (λ r. g r % p) ((q ∷ qs) ++ flattened k qss) in
        let n = length (q ∷ qs) in
        let dropped = drop (if n == 0 then 1 else n) ws in
        let tail : List ℕ × List ℕ = variable_loop (counts qss rest) dropped xv xvp (new_mod p) in
        let count : (if n == 0 then 1 else n) ≡ n =
          ap (λ b. if b then 1 else n) (not_zero (length qs)) in
        no_end (n == horner_end) ([], n ∷ counts qss rest)
          (horner_loop 0 (take n ws) xv xvp (new_mod p) ∷ tail.0, tail.1)
          (map (λ r. horner_value 0 xv (map g r) % p) ((q ∷ qs) ∷ qss), horner_end ∷ rest)
          (below_end n all.0)
          (ap₂ (λ v (r : List ℕ × List ℕ). (v ∷ r.0, r.1))
            (ap (λ l. horner_loop 0 l xv xvp (new_mod p))
                (take-map (λ r. g r % p) (q ∷ qs) (flattened k qss))
              ∙ horner_loop-value g (q ∷ qs) 0 0 (sym (mod-eq_of_lt (omega (arith, one_lt)))))
            (ap (λ l. variable_loop (counts qss rest) l xv xvp (new_mod p))
                (ap (λ d. drop d ws) count ∙ drop-map (λ r. g r % p) (q ∷ qs) (flattened k qss))
              ∙ variable_loop_lem k g qss rest all.1))

  short :
      (k : ℕ) (qs : List (Nested (suc k)))
      → All (IsNested p (suc k)) qs
      → All (λ q. length q < horner_end) qs
  short k [] all = tt
  short k (q ∷ qs) all = (all.0.1, short k qs all.1)

  module _ (x xp : List ℕ) (points : AllBelow p x) (n : ℕ)
      (pre : (i : ℕ) → i < n → get_or xp i 0 ≡ precomp_mul_shoup (get_or x i 0) (new_mod p)) where
    variables_lem :
        (k v fuel : ℕ) (qs : List (Nested k)) (rest : List ℕ)
        → v + k < n
        → length (encode k qs rest) ≤ fuel
        → All (IsNested p k) qs
        → variables_loop
            (v + k)
            (univariate_loop fuel
              (encode k qs rest)
              (get_or x (v + k) 0)
              (get_or xp (v + k) 0)
              (new_mod p)).1
            (univariate_loop fuel
              (encode k qs rest)
              (get_or x (v + k) 0)
              (get_or xp (v + k) 0)
              (new_mod p)).0
            x
            xp
            (new_mod p)
          ≡ variables_loop v
              (horner_end ∷ rest)
              (map (λ q. nested_value k q (drop v x) % p) qs)
              x
              xp
              (new_mod p)
    unfolding variables_loop
    variables_lem zero v fuel qs rest inside enough all =
        let index : v + 0 ≡ v = omega arith in
        let r : List ℕ × List ℕ =
          univariate_loop fuel (chunks qs rest) (get_or x v 0)
            (precomp_mul_shoup (get_or x v 0) (new_mod p)) (new_mod p) in
        let small : get_or x v 0 < p = get_or-AllBelow p v x (omega (arith, one_lt)) points in
        ap
          (λ i.
            variables_loop i
              (univariate_loop fuel (chunks qs rest) (get_or x i 0) (get_or xp i 0) (new_mod p)).1
              (univariate_loop fuel (chunks qs rest) (get_or x i 0) (get_or xp i 0) (new_mod p)).0 x
              xp (new_mod p))
          index
        ∙ ap
            (λ w.
              variables_loop v
                (univariate_loop fuel (chunks qs rest) (get_or x v 0) w (new_mod p)).1
                (univariate_loop fuel (chunks qs rest) (get_or x v 0) w (new_mod p)).0 x xp
                (new_mod p))
            (pre v (omega (arith, inside)))
        ∙ ap (λ (s : List ℕ × List ℕ). variables_loop v s.1 s.0 x xp (new_mod p))
            (univariate_loop_lem (get_or x v 0) small qs fuel rest
              (omega (arith, enough, length-chunks qs rest)) all)
        ∙ ap
            (λ y.
              variables_loop v (horner_end ∷ rest) (map (λ q. horner_value 0 y q % p) qs) x xp
                (new_mod p))
            (sym (get_or-drop_all x v))
    variables_lem (suc k) v fuel qs rest inside enough all =
        let index : v + suc k ≡ suc v + k = omega arith in
        let small : get_or x v 0 < p = get_or-AllBelow p v x (omega (arith, one_lt)) points in
        let stream = encode k (flattened k qs) (counts qs rest) in
        let ws = map (λ q. nested_value k q (drop (suc v) x) % p) (flattened k qs) in
        ap
          (λ i.
            variables_loop i
              (univariate_loop fuel stream (get_or x i 0) (get_or xp i 0) (new_mod p)).1
              (univariate_loop fuel stream (get_or x i 0) (get_or xp i 0) (new_mod p)).0 x xp
              (new_mod p))
          index
        ∙ variables_lem k (suc v) fuel (flattened k qs) (counts qs rest) (omega (arith, inside))
            enough (flattened-IsNested p k qs all)
        ∙ ap
            (λ w.
              variables_loop v (variable_loop (counts qs rest) ws (get_or x v 0) w (new_mod p)).1
                (variable_loop (counts qs rest) ws (get_or x v 0) w (new_mod p)).0 x xp (new_mod p))
            (pre v (omega (arith, inside)))
        ∙ ap (λ (s : List ℕ × List ℕ). variables_loop v s.1 s.0 x xp (new_mod p))
            (variable_loop_lem (get_or x v 0) small k (λ q. nested_value k q (drop (suc v) x)) qs
              rest (short k qs all))
        ∙ ap₂
            (λ y ys.
              variables_loop v (horner_end ∷ rest)
                (map (λ q. horner_value 0 y (map (λ r. nested_value k r ys) q) % p) qs) x xp
                (new_mod p))
            (sym (get_or-drop_all x v)) (sym (drop-drop x v))

-- For a modulus above 1 in the range of the word-sized ones, a polynomial with residues as coefficients,
-- nested by its `suc k` variables, with fewer coefficients at each place than the end mark, and residues
-- for the variables with their precomputed quotients: `horner_eval` of the stream that encodes the
-- polynomial is its value modulo p.
pub horner_eval_lem :
    (p : ℕ)
    → IsModulus p
    → 1 < p
    → (k : ℕ) (q : Nested k) (x xp : List ℕ) → IsNested p k q
    → AllBelow p x
    → ((i : ℕ) → i < suc k → get_or xp i 0 ≡ precomp_mul_shoup (get_or x i 0) (new_mod p))
    → horner_eval (encode k (q ∷ []) []) (suc k) x xp (new_mod p) ≡ nested_value k q x % p
unfolding horner_eval variables_loop
horner_eval_lem p h one_lt k q x xp ok points pre =
    let index : suc k - 1 ≡ 0 + k = omega arith in
    let stream = encode k (q ∷ []) [] in
    ap
      (λ i.
        get_or
          (variables_loop i
            (univariate_loop (length stream) stream (get_or x i 0) (get_or xp i 0) (new_mod p)).1
            (univariate_loop (length stream) stream (get_or x i 0) (get_or xp i 0) (new_mod p)).0 x
            xp (new_mod p))
          0 0)
      index
    ∙ ap (λ ws. get_or ws 0 0)
        (variables_lem p h one_lt x xp points (suc k) pre k 0 (length stream) (q ∷ []) []
          (omega arith) (omega arith) (ok, tt))
