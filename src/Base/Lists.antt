-- ===== src/Base/Lists.antt =====
-- C arrays as lists measured and indexed by native numbers, under the library's names.
use Prim.Native.Nat.{ℕ, zero, suc, ◌+◌, ◌-◌, ◌≤◌, ◌<◌, min}
use mathlib.Core.Path.{◌≡◌, refl, ap}
use mathlib.Core.Logic.{◌≢◌}
use mathlib.Core.List.{List, [], ◌∷◌, ◌++◌, map}
use mathlib.Core.Option.{Option, none, some}
use native.Mathlib.Omega.{arith}

module _ {ℓ} {A : Type ℓ} where
  abbrev pub length : List A → ℕ
  length [] = 0
  length (x ∷ xs) = suc (length xs)

  abbrev pub get_elem? : List A → ℕ → Option A
  get_elem? [] i = none
  get_elem? (x ∷ xs) zero = some x
  get_elem? (x ∷ xs) (suc i) = get_elem? xs i

  abbrev pub get_or : List A → ℕ → A → A
  get_or [] i d = d
  get_or (x ∷ xs) zero d = x
  get_or (x ∷ xs) (suc i) d = get_or xs i d

  -- A write out of bounds changes nothing.
  abbrev pub set : List A → ℕ → A → List A
  set [] i v = []
  set (x ∷ xs) zero v = v ∷ xs
  set (x ∷ xs) (suc i) v = x ∷ set xs i v

  abbrev pub take : ℕ → List A → List A
  take zero xs = []
  take (suc n) [] = []
  take (suc n) (x ∷ xs) = x ∷ take n xs

  abbrev pub drop : ℕ → List A → List A
  drop zero xs = xs
  drop (suc n) [] = []
  drop (suc n) (x ∷ xs) = drop n xs

  -- The list without the element at an index.
  abbrev pub remove_at : ℕ → List A → List A
  remove_at i [] = []
  remove_at zero (x ∷ xs) = xs
  remove_at (suc i) (x ∷ xs) = x ∷ remove_at i xs

  abbrev pub replicate : ℕ → A → List A
  replicate zero a = []
  replicate (suc n) a = a ∷ replicate n a

  abbrev pub All {κ} : (A → Type κ) → List A → Type κ
  All P [] = Unit
  All P (x ∷ xs) = P x × All P xs

  -- The sum of a weight over a list: how many processes are at a place, say.
  abbrev pub total : (A → ℕ) → List A → ℕ
  total w [] = 0
  total w (x ∷ xs) = w x + total w xs

module _ {ℓ} {A : Type ℓ} where
  pub length-append : (xs ys : List A) → length (xs ++ ys) ≡ length xs + length ys
  length-append [] ys = omega arith
  length-append (x ∷ xs) ys = omega (arith, length-append xs ys)

  pub length-set : (xs : List A) (i : ℕ) (v : A) → length (set xs i v) ≡ length xs
  length-set [] i v = refl
  length-set (x ∷ xs) zero v = refl
  length-set (x ∷ xs) (suc i) v = ap suc (length-set xs i v)

  pub length-take : (n : ℕ) (xs : List A) → length (take n xs) ≡ min n (length xs)
  length-take zero xs = omega arith
  length-take (suc n) [] = omega arith
  length-take (suc n) (x ∷ xs) = omega (arith, length-take n xs)

  pub length-drop : (n : ℕ) (xs : List A) → length (drop n xs) ≡ length xs - n
  length-drop zero xs = omega arith
  length-drop (suc n) [] = omega arith
  length-drop (suc n) (x ∷ xs) = omega (arith, length-drop n xs)

  pub length-replicate : (n : ℕ) (a : A) → length (replicate n a) ≡ n
  length-replicate zero a = refl
  length-replicate (suc n) a = ap suc (length-replicate n a)

  pub take_all : (n : ℕ) (xs : List A) → length xs ≤ n → take n xs ≡ xs
  take_all zero [] h = refl
  take_all zero (x ∷ xs) h = absurd (omega arith)
  take_all (suc n) [] h = refl
  take_all (suc n) (x ∷ xs) h = ap (◌∷◌ x) (take_all n xs (omega arith))

  pub take-append_exact : (n : ℕ) (xs ys : List A) → length xs ≡ n → take n (xs ++ ys) ≡ xs
  take-append_exact zero [] ys h = refl
  take-append_exact (suc n) [] ys h = absurd (omega arith)
  take-append_exact zero (x ∷ xs) ys h = absurd (omega arith)
  take-append_exact (suc n) (x ∷ xs) ys h = ap (◌∷◌ x) (take-append_exact n xs ys (omega arith))

  pub drop-append : (xs ys : List A) (n m : ℕ) → n ≡ length xs + m → drop n (xs ++ ys) ≡ drop m ys
  drop-append [] ys n m h = let e : n ≡ m = omega arith in ap (λ k. drop k ys) e
  drop-append (x ∷ xs) ys zero m h = absurd (omega arith)
  drop-append (x ∷ xs) ys (suc n) m h = drop-append xs ys n m (omega arith)

  pub take-append-drop : (n : ℕ) (xs : List A) → take n xs ++ drop n xs ≡ xs
  take-append-drop zero xs = refl
  take-append-drop (suc n) [] = refl
  take-append-drop (suc n) (x ∷ xs) = ap (◌∷◌ x) (take-append-drop n xs)

  pub get_elem?-eq-get_or :
      (xs : List A) (i : ℕ) (d : A) → i < length xs → get_elem? xs i ≡ some (get_or xs i d)
  get_elem?-eq-get_or [] i d h = absurd (omega arith)
  get_elem?-eq-get_or (x ∷ xs) zero d h = refl
  get_elem?-eq-get_or (x ∷ xs) (suc i) d h = get_elem?-eq-get_or xs i d (omega arith)

  pub get_or-set_self :
      (xs : List A) (i : ℕ) (v d : A) → i < length xs → get_or (set xs i v) i d ≡ v
  get_or-set_self [] i v d h = absurd (omega arith)
  get_or-set_self (x ∷ xs) zero v d h = refl
  get_or-set_self (x ∷ xs) (suc i) v d h = get_or-set_self xs i v d (omega arith)

  pub get_or-set_ne :
      (xs : List A) {i j : ℕ} (v d : A) → i ≢ j → get_or (set xs i v) j d ≡ get_or xs j d
  get_or-set_ne [] v d h = refl
  get_or-set_ne (x ∷ xs) {i = zero} {j = zero} v d h = absurd (h refl)
  get_or-set_ne (x ∷ xs) {i = zero} {j = suc j} v d h = refl
  get_or-set_ne (x ∷ xs) {i = suc i} {j = zero} v d h = refl
  get_or-set_ne (x ∷ xs) {i = suc i} {j = suc j} v d h = get_or-set_ne xs v d (λ e. h (ap suc e))

  -- Changing one element changes a total by the difference of the two weights.
  pub total-set :
      (w : A → ℕ) (xs : List A) (i : ℕ) (old v : A)
      → get_elem? xs i ≡ some old
      → total w (set xs i v) + w old ≡ total w xs + w v
  total-set w [] i old v h = ground arith
  total-set w (x ∷ xs) zero old v h = ground arith
  total-set w (x ∷ xs) (suc i) old v h = omega (arith, total-set w xs i old v h)

  -- One element's weight is within the total.
  pub le-total :
      (w : A → ℕ) (xs : List A) (i : ℕ) (old : A) → get_elem? xs i ≡ some old → w old ≤ total w xs
  le-total w [] i old h = ground arith
  le-total w (x ∷ xs) zero old h = ground arith
  le-total w (x ∷ xs) (suc i) old h = omega (arith, le-total w xs i old h)

  pub get_elem?-set_self :
      (xs : List A) (i : ℕ) (old v : A)
      → get_elem? xs i ≡ some old
      → get_elem? (set xs i v) i ≡ some v
  get_elem?-set_self [] i old v h = ground arith
  get_elem?-set_self (x ∷ xs) zero old v h = refl
  get_elem?-set_self (x ∷ xs) (suc i) old v h = get_elem?-set_self xs i old v h

  pub set-set : (xs : List A) (i : ℕ) (a b : A) → set (set xs i a) i b ≡ set xs i b
  set-set [] i a b = refl
  set-set (x ∷ xs) zero a b = refl
  set-set (x ∷ xs) (suc i) a b = ap (◌∷◌ x) (set-set xs i a b)

  pub set_same : (xs : List A) (i : ℕ) (a : A) → get_elem? xs i ≡ some a → set xs i a ≡ xs
  set_same [] i a h = refl
  set_same (x ∷ xs) zero a h = ground arith
  set_same (x ∷ xs) (suc i) a h = ap (◌∷◌ x) (set_same xs i a h)

  pub get_or-append :
      (xs ys : List A) (i : ℕ) (d : A) → length xs ≡ i → get_or (xs ++ ys) i d ≡ get_or ys 0 d
  get_or-append [] ys zero d h = refl
  get_or-append [] ys (suc i) d h = absurd (omega arith)
  get_or-append (x ∷ xs) ys zero d h = absurd (omega arith)
  get_or-append (x ∷ xs) ys (suc i) d h = get_or-append xs ys i d (omega arith)

  pub get_or-drop : (n : ℕ) (xs : List A) (d : A) → get_or (drop n xs) 0 d ≡ get_or xs n d
  get_or-drop zero xs d = refl
  get_or-drop (suc n) [] d = refl
  get_or-drop (suc n) (x ∷ xs) d = get_or-drop n xs d

  pub get_elem?-some : (xs : List A) (i : ℕ) → i < length xs → (x : A) × (get_elem? xs i ≡ some x)
  get_elem?-some [] i h = absurd (omega arith)
  get_elem?-some (x ∷ xs) zero h = (x, refl)
  get_elem?-some (x ∷ xs) (suc i) h = get_elem?-some xs i (omega arith)

module _ {ℓ κ} {A : Type ℓ} {B : Type κ} (f : A → B) where
  pub length-map : (xs : List A) → length (map f xs) ≡ length xs
  length-map [] = refl
  length-map (x ∷ xs) = ap suc (length-map xs)

  pub map-append : (xs ys : List A) → map f (xs ++ ys) ≡ map f xs ++ map f ys
  map-append [] ys = refl
  map-append (x ∷ xs) ys = ap (◌∷◌ (f x)) (map-append xs ys)

  pub map-remove_at : (i : ℕ) (xs : List A) → map f (remove_at i xs) ≡ remove_at i (map f xs)
  map-remove_at i [] = refl
  map-remove_at zero (x ∷ xs) = refl
  map-remove_at (suc i) (x ∷ xs) = ap (◌∷◌ (f x)) (map-remove_at i xs)

  pub get_elem?-map :
      (xs : List A) (i : ℕ) (x : A) → get_elem? xs i ≡ some x → get_elem? (map f xs) i ≡ some (f x)
  get_elem?-map [] i x h = cc
  get_elem?-map (y ∷ xs) zero x h = cc
  get_elem?-map (y ∷ xs) (suc i) x h = get_elem?-map xs i x h
