-- ===== src/Horner/Encoding.antt =====
-- The stream of words that encodes a nested polynomial.
use finiteflow.Base.{
  ℕ, zero, suc, List, [], ◌∷◌, ◌++◌, map, All, ◌+◌, ◌*◌, ◌<◌, ◌≤◌, ◌≡◌, ap, ◌∙◌, refl, arith,
  length, get_or, drop, take, Bool, false, ◌==◌, if◌then◌else◌,
}
use finiteflow.Newton.Rows.{AllBelow}
use finiteflow.Horner.{horner_end}

-- Polynomials in `suc k` variables, by the coefficients from the highest power of the first variable on.
abbrev pub Nested : ℕ → Type 0
Nested zero = List ℕ
Nested (suc k) = List (Nested k)

abbrev pub horner_value : ℕ → ℕ → List ℕ → ℕ
horner_value res x [] = res
horner_value res x (c ∷ cs) = horner_value (res * x + c) x cs

abbrev pub nested_value : (k : ℕ) → Nested k → List ℕ → ℕ
nested_value zero cs xs = horner_value 0 (get_or xs 0 0) cs
nested_value (suc k) qs xs =
    horner_value 0 (get_or xs 0 0) (map (λ q. nested_value k q (drop 1 xs)) qs)

abbrev empty : (k : ℕ) → Nested k
empty zero = []
empty (suc k) = []

-- A polynomial without coefficients keeps one entry.
abbrev pub padded : (k : ℕ) → List (Nested k) → List (Nested k)
padded k [] = empty k ∷ []
padded k (q ∷ qs) = q ∷ qs

abbrev pub flattened : (k : ℕ) → List (List (Nested k)) → List (Nested k)
flattened k [] = []
flattened k (qs ∷ rest) = padded k qs ++ flattened k rest

-- The stream for some polynomials, with what follows.
abbrev pub chunks : List (List ℕ) → List ℕ → List ℕ
chunks [] rest = horner_end ∷ rest
chunks (cs ∷ css) rest = length cs ∷ (cs ++ chunks css rest)

abbrev pub counts : {A : Type 0} → List (List A) → List ℕ → List ℕ
counts [] rest = horner_end ∷ rest
counts (qs ∷ qss) rest = length qs ∷ counts qss rest

abbrev pub encode : (k : ℕ) → List (Nested k) → List ℕ → List ℕ
encode zero qs rest = chunks qs rest
encode (suc k) qs rest = encode k (flattened k qs) (counts qs rest)

-- Residues as coefficients, and fewer of them than the end mark.
abbrev pub IsNested : ℕ → (k : ℕ) → Nested k → Type 0
IsNested p zero cs = AllBelow p cs × (length cs < horner_end)
IsNested p (suc k) qs = All (IsNested p k) qs × (length qs < horner_end)

module _ {A : Type 0} where
  pub take-map : (g : A → ℕ) (qs rest : List A) → take (length qs) (map g (qs ++ rest)) ≡ map g qs
  take-map g [] rest = refl
  take-map g (q ∷ qs) rest = ap (λ l. g q ∷ l) (take-map g qs rest)

  pub drop-map : (g : A → ℕ) (qs rest : List A) → drop (length qs) (map g (qs ++ rest)) ≡ map g rest
  drop-map g [] rest = refl
  drop-map g (q ∷ qs) rest = drop-map g qs rest

  pub take_front : (qs rest : List A) → take (length qs) (qs ++ rest) ≡ qs
  take_front [] rest = refl
  take_front (q ∷ qs) rest = ap (λ l. q ∷ l) (take_front qs rest)

  pub drop_front : (qs rest : List A) → drop (length qs) (qs ++ rest) ≡ rest
  drop_front [] rest = refl
  drop_front (q ∷ qs) rest = drop_front qs rest

  All-append : (P : A → Type 0) (qs rest : List A) → All P qs → All P rest → All P (qs ++ rest)
  All-append P [] rest h h' = h'
  All-append P (q ∷ qs) rest h h' = (h.0, All-append P qs rest h.1 h')

pub below_end : (n : ℕ) → n < horner_end → (n == horner_end) ≡ false
below_end n h = ground arith

pub not_zero : (n : ℕ) → (suc n == 0) ≡ false
not_zero n = ground arith

pub no_end : (b : Bool) (r s t : List ℕ × List ℕ) → b ≡ false → s ≡ t → (if b then r else s) ≡ t
no_end b r s t e e' = ap (λ c. if c then r else s) e ∙ e'

pub map_same : (cs : List ℕ) → map (λ c. c) cs ≡ cs
map_same [] = refl
map_same (c ∷ cs) = ap (λ l. c ∷ l) (map_same cs)

empty-IsNested : (p k : ℕ) → IsNested p k (empty k)
empty-IsNested p zero = (tt, omega arith)
empty-IsNested p (suc k) = (tt, omega arith)

pub flattened-IsNested :
    (p k : ℕ) (qss : List (List (Nested k)))
    → All (IsNested p (suc k)) qss
    → All (IsNested p k) (flattened k qss)
flattened-IsNested p k [] all = tt
flattened-IsNested p k ([] ∷ qss) all = (empty-IsNested p k, flattened-IsNested p k qss all.1)
flattened-IsNested p k ((q ∷ qs) ∷ qss) all =
    All-append (IsNested p k) (q ∷ qs) (flattened k qss) all.0.0 (flattened-IsNested p k qss all.1)

pub length-chunks : (qs : List (List ℕ)) (rest : List ℕ) → length qs < length (chunks qs rest)
length-chunks [] rest = omega arith
length-chunks (cs ∷ css) rest = omega (arith, length-chunks css rest, longer cs (chunks css rest))
  where
    longer : (ds bs : List ℕ) → length bs ≤ length (ds ++ bs)
    longer [] bs = omega arith
    longer (d ∷ ds) bs = omega (arith, longer ds bs)
