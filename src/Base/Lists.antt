-- ===== src/Base/Lists.antt =====
-- Arrays and buffers as lists, measured and indexed by native numbers.
use Prim.Native.Nat.{ℕ, zero, suc, ◌+◌, ◌-◌, min}
use mathlib.Core.Path.{◌≡◌, refl, ap}
use mathlib.Core.List.{List, [], ◌∷◌, ◌++◌, append_assoc}
use mathlib.Core.Option.{Option, none, some}
use native.Mathlib.Numerals.{add-one}
use native.Mathlib.Omega.{arith}

module _ {ℓ} {A : Type ℓ} where
  abbrev pub length : List A → ℕ
  length [] = 0
  length (x ∷ xs) = suc (length xs)

  abbrev pub get_elem? : List A → ℕ → Option A
  get_elem? [] i = none
  get_elem? (x ∷ xs) zero = some x
  get_elem? (x ∷ xs) (suc i) = get_elem? xs i

  abbrev pub get_or : List A → ℕ → A → A
  get_or [] i d = d
  get_or (x ∷ xs) zero d = x
  get_or (x ∷ xs) (suc i) d = get_or xs i d

  -- A write that faults out of bounds.
  abbrev pub set? : List A → ℕ → A → Option (List A)
  set? [] i v = none
  set? (x ∷ xs) zero v = some (v ∷ xs)
  set? (x ∷ xs) (suc i) v = elim (set? xs i v) [ none ↦ none | some ys ↦ some (x ∷ ys) ]

  abbrev pub set : List A → ℕ → A → List A
  set [] i v = []
  set (x ∷ xs) zero v = v ∷ xs
  set (x ∷ xs) (suc i) v = x ∷ set xs i v

  abbrev pub take : ℕ → List A → List A
  take zero xs = []
  take (suc n) [] = []
  take (suc n) (x ∷ xs) = x ∷ take n xs

  abbrev pub drop : ℕ → List A → List A
  drop zero xs = xs
  drop (suc n) [] = []
  drop (suc n) (x ∷ xs) = drop n xs

  abbrev pub replicate : ℕ → A → List A
  replicate zero a = []
  replicate (suc n) a = a ∷ replicate n a

module _ {ℓ} {A : Type ℓ} where
  pub length-append : (xs ys : List A) → length (xs ++ ys) ≡ length xs + length ys
  length-append [] ys = omega arith
  length-append (x ∷ xs) ys = omega (arith, length-append xs ys)

  pub length-set : (xs : List A) (i : ℕ) (v : A) → length (set xs i v) ≡ length xs
  length-set [] i v = refl
  length-set (x ∷ xs) zero v = refl
  length-set (x ∷ xs) (suc i) v = ap suc (length-set xs i v)

  pub length-take : (n : ℕ) (xs : List A) → length (take n xs) ≡ min n (length xs)
  length-take zero xs = omega arith
  length-take (suc n) [] = omega arith
  length-take (suc n) (x ∷ xs) = omega (arith, length-take n xs)

  pub length-drop : (n : ℕ) (xs : List A) → length (drop n xs) ≡ length xs - n
  length-drop zero xs = omega arith
  length-drop (suc n) [] = omega arith
  length-drop (suc n) (x ∷ xs) = omega (arith, length-drop n xs)

  pub length-replicate : (n : ℕ) (a : A) → length (replicate n a) ≡ n
  length-replicate zero a = refl
  length-replicate (suc n) a = ap suc (length-replicate n a)

  pub take-append-drop : (n : ℕ) (xs : List A) → take n xs ++ drop n xs ≡ xs
  take-append-drop zero xs = refl
  take-append-drop (suc n) [] = refl
  take-append-drop (suc n) (x ∷ xs) = rw (take-append-drop n xs)

  -- Reading and writing at the border of a list that is written from left to right.
  pub get_elem?-length : (xs ys : List A) (y : A) → get_elem? (xs ++ y ∷ ys) (length xs) ≡ some y
  get_elem?-length [] ys y = refl
  get_elem?-length (x ∷ xs) ys y = get_elem?-length xs ys y

  pub set?-length :
      (xs ys : List A) (y v : A) → set? (xs ++ y ∷ ys) (length xs) v ≡ some (xs ++ v ∷ ys)
  set?-length [] ys y v = refl
  set?-length (x ∷ xs) ys y v = rw (set?-length xs ys y v, set?)

  pub set?-full : (xs : List A) (v : A) → set? xs (length xs) v ≡ none
  set?-full [] v = refl
  set?-full (x ∷ xs) v = rw (set?-full xs v, set?)

  pub drop-length : (xs ys : List A) → drop (length xs) (xs ++ ys) ≡ ys
  drop-length [] ys = refl
  drop-length (x ∷ xs) ys = drop-length xs ys

  pub take-length : (xs ys : List A) → take (length xs) (xs ++ ys) ≡ xs
  take-length [] ys = refl
  take-length (x ∷ xs) ys = ap (◌∷◌ x) (take-length xs ys)

  -- A cursor: what `drop k` leaves is read from its head.
  pub get_elem?-drop :
      (xs : List A) (k : ℕ) (y : A) (ys : List A) → drop k xs ≡ y ∷ ys → get_elem? xs k ≡ some y
  get_elem?-drop [] zero y ys e = cc
  get_elem?-drop [] (suc k) y ys e = cc
  get_elem?-drop (x ∷ xs) zero y ys e = cc
  get_elem?-drop (x ∷ xs) (suc k) y ys e = get_elem?-drop xs k y ys e

  pub drop-suc :
      (xs : List A) (k : ℕ) (y : A) (ys : List A) → drop k xs ≡ y ∷ ys → drop (suc k) xs ≡ ys
  drop-suc [] zero y ys e = cc
  drop-suc [] (suc k) y ys e = cc
  drop-suc (x ∷ xs) zero y ys e = cc
  drop-suc (x ∷ xs) (suc k) y ys e = drop-suc xs k y ys e

  pub drop-drop : (xs : List A) (k : ℕ) → drop 1 (drop k xs) ≡ drop (k + 1) xs
  drop-drop xs k = rw add-one (go xs k)
    where
      go : (xs : List A) (k : ℕ) → drop 1 (drop k xs) ≡ drop (suc k) xs
      go xs zero = refl
      go [] (suc k) = refl
      go (x ∷ xs) (suc k) = go xs k

  pub get_elem?-drop_nil : (xs : List A) (k : ℕ) → drop k xs ≡ [] → get_elem? xs k ≡ none
  get_elem?-drop_nil [] zero e = refl
  get_elem?-drop_nil [] (suc k) e = refl
  get_elem?-drop_nil (x ∷ xs) zero e = cc
  get_elem?-drop_nil (x ∷ xs) (suc k) e = get_elem?-drop_nil xs k e

  pub set?-at :
      (xs ys : List A) (y v : A) (i : ℕ)
      → length xs ≡ i
      → set? (xs ++ y ∷ ys) i v ≡ some ((xs ++ v ∷ []) ++ ys)
  set?-at xs ys y v i e = rw (← e, set?-length xs ys y v, append_assoc)

  pub set?-at_end : (xs : List A) (v : A) (i : ℕ) → length xs ≡ i → set? xs i v ≡ none
  set?-at_end xs v i e = rw (← e) (set?-full xs v)

-- A predicate on every entry.
abbrev pub All {ℓ κ} : {A : Type ℓ} → (A → Type κ) → List A → Type κ
All holds [] = Unit
All holds (entry ∷ rest) = holds entry × All holds rest

pub All-append {ℓ κ} :
    {A : Type ℓ} (holds : A → Type κ) (front back : List A)
    → All holds front
    → All holds back
    → All holds (front ++ back)
All-append holds [] back none_left on_back = on_back
All-append holds (entry ∷ front) back on_front on_back =
    (on_front.0, All-append holds front back on_front.1 on_back)

pub All-take {ℓ κ} :
    {A : Type ℓ} (holds : A → Type κ) (n : ℕ) (list : List A)
    → All holds list
    → All holds (take n list)
All-take holds zero list h = tt
All-take holds (suc n) [] h = tt
All-take holds (suc n) (entry ∷ list) h = (h.0, All-take holds n list h.1)

pub All-drop {ℓ κ} :
    {A : Type ℓ} (holds : A → Type κ) (n : ℕ) (list : List A)
    → All holds list
    → All holds (drop n list)
All-drop holds zero list h = h
All-drop holds (suc n) [] h = tt
All-drop holds (suc n) (entry ∷ list) h = All-drop holds n list h.1

pub All-replicate {ℓ κ} :
    {A : Type ℓ} (holds : A → Type κ) (n : ℕ) (a : A) → holds a → All holds (replicate n a)
All-replicate holds zero a h = tt
All-replicate holds (suc n) a h = (h, All-replicate holds n a h)
