-- ===== src/AlgLists/Reads.antt =====
-- Reads that an accepted pattern makes stay inside inputs of the declared lengths.
use finiteflow.Base.{
  ℕ, zero, suc, List, [], ◌∷◌, map, Option, some, Bool, true, ◌+◌, ◌<◌, ◌≤◌, ◌≡◌, length, get_elem?,
  refl, ap, ap₂, ◌∙◌, arith, take, drop,
}
use finiteflow.AlgLists.{read, upto, for_each, in_bounds, all_of}

-- The inputs have the lengths that `nparsin` declares.
abbrev pub Fits : List (List ℕ) → List ℕ → Type 0
Fits xin nparsin = map length xin ≡ nparsin

pub get_elem?-some : (l : List ℕ) (j : ℕ) → j < length l → (x : ℕ) × (get_elem? l j ≡ some x)
get_elem?-some [] j h = absurd (omega arith)
get_elem?-some (x ∷ l) zero h = (x, refl)
get_elem?-some (x ∷ l) (suc j) h = get_elem?-some l j (omega arith)

pub read-in_bounds :
    (xin : List (List ℕ)) (i j : ℕ)
    → in_bounds (map length xin) i j ≡ true
    → (x : ℕ) × (read xin i j ≡ some x)
read-in_bounds [] i j h = absurd (ground arith)
read-in_bounds (l ∷ xin) zero j h = get_elem?-some l j (ground arith)
read-in_bounds (l ∷ xin) (suc i) j h = read-in_bounds xin i j h

for_each_cons {ℓ} :
    {A : Type ℓ} {y : ℕ} {ys : List ℕ} (f : A → Option ℕ) (a : A) (l : List A)
    → f a ≡ some y
    → for_each f l ≡ some ys
    → for_each f (a ∷ l) ≡ some (y ∷ ys)
for_each_cons f a l p q = ground arith

-- A loop whose reads succeed writes one entry for each item.
pub for_each-some {ℓ} :
    {A : Type ℓ} (f : A → Option ℕ) (ok : A → Bool)
    → ((a : A) → ok a ≡ true → (y : ℕ) × (f a ≡ some y))
    → (l : List A) → all_of ok l ≡ true
    → (ys : List ℕ) × (for_each f l ≡ some ys) × (length ys ≡ length l) × (map f l ≡ map some ys)
for_each-some f ok h [] e = ([], refl, refl, refl)
for_each-some f ok h (a ∷ l) e =
    let (y, fy) = h a (ground arith) in
    let (ys, ev, len, each) = for_each-some f ok h l (ground arith) in
    (y ∷ ys, for_each_cons f a l fy ev, ap suc len, ap₂ ◌∷◌ fy each)

-- A loop over consecutive positions copies that part of the list.
shift_upto :
    (x : ℕ) (l : List ℕ) (i n : ℕ)
    → for_each (get_elem? (x ∷ l)) (upto (suc i) n) ≡ for_each (get_elem? l) (upto i n)
shift_upto x l i zero = refl
shift_upto x l i (suc n) = ground (arith, shift_upto x l (suc i) n)

pub for_each-upto :
    (l : List ℕ) (i n : ℕ)
    → i + n ≤ length l
    → for_each (get_elem? l) (upto i n) ≡ some (take n (drop i l))
for_each-upto l zero zero h = refl
for_each-upto [] zero (suc n) h = absurd (omega arith)
for_each-upto (x ∷ l) zero (suc n) h =
    for_each_cons (get_elem? (x ∷ l)) 0 (upto 1 n) refl
      (shift_upto x l 0 n ∙ for_each-upto l 0 n (omega arith))
for_each-upto [] (suc i) zero h = refl
for_each-upto [] (suc i) (suc n) h = absurd (omega arith)
for_each-upto (x ∷ l) (suc i) n h = shift_upto x l i n ∙ for_each-upto l i n (omega arith)
