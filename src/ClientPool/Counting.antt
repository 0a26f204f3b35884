-- ===== src/ClientPool/Counting.antt =====
-- The clients in the slots, and the sockets on their way through the pipe.
use epic_poold.Base.{
  ℕ, zero, suc, ◌+◌, ◌≤◌, ◌<◌, ◌≡◌, refl, ap, Option, none, some, List, [], ◌∷◌, ◌++◌, ◌==◌,
  if◌then◌else◌, get_elem?, set, length, arith,
}
use epic_poold.ClientPool.{PipeMsg, dummy_new_block_fd, find_slot}

unfoldable pub live {ℓ} : {C : Type ℓ} → List (Option C) → ℕ
live [] = 0
live (none ∷ slots) = live slots
live (some c ∷ slots) = suc (live slots)

abbrev pub weight : PipeMsg → ℕ
weight msg = if msg.cli_fd == dummy_new_block_fd then 0 else 1

unfoldable pub adds : List PipeMsg → ℕ
adds [] = 0
adds (msg ∷ msgs) = weight msg + adds msgs

pub adds-snoc :
    (msgs : List PipeMsg) (msg : PipeMsg) → adds (msgs ++ msg ∷ []) ≡ adds msgs + weight msg
unfolding adds
adds-snoc [] msg = omega arith
adds-snoc (m ∷ msgs) msg = omega (arith, adds-snoc msgs msg)

module _ {C : Type 0} where
  pub live-le : (slots : List (Option C)) → live slots ≤ length slots
  unfolding live
  live-le [] = omega arith
  live-le (none ∷ slots) = omega (arith, live-le slots)
  live-le (some c ∷ slots) = omega (arith, live-le slots)

  pub live-set-none :
      (slots : List (Option C)) (i : ℕ) (c : C)
      → get_elem? slots i ≡ some (some c)
      → suc (live (set slots i none)) ≡ live slots
  unfolding live
  live-set-none [] i c e = cc
  live-set-none (none ∷ slots) zero c e = cc
  live-set-none (some d ∷ slots) zero c e = refl
  live-set-none (none ∷ slots) (suc i) c e = live-set-none slots i c e
  live-set-none (some d ∷ slots) (suc i) c e = ap suc (live-set-none slots i c e)

  pub live-set-some :
      (slots : List (Option C)) (i : ℕ) (c c' : C)
      → get_elem? slots i ≡ some (some c)
      → live (set slots i (some c')) ≡ live slots
  unfolding live
  live-set-some [] i c c' e = cc
  live-set-some (none ∷ slots) zero c c' e = cc
  live-set-some (some d ∷ slots) zero c c' e = refl
  live-set-some (none ∷ slots) (suc i) c c' e = live-set-some slots i c c' e
  live-set-some (some d ∷ slots) (suc i) c c' e = ap suc (live-set-some slots i c c' e)

  -- The slot that is found is empty, if there is an empty one.
  pub find_slot-lt :
      (slots : List (Option C)) → live slots < length slots → find_slot slots < length slots
  unfolding find_slot live
  find_slot-lt [] h = absurd (omega arith)
  find_slot-lt (none ∷ slots) h = omega arith
  find_slot-lt (some c ∷ slots) h = omega (arith, find_slot-lt slots)

  pub live-fill :
      (slots : List (Option C)) (c : C)
      → find_slot slots < length slots
      → live (set slots (find_slot slots) (some c)) ≡ suc (live slots)
  unfolding find_slot live
  live-fill [] c h = absurd (omega arith)
  live-fill (none ∷ slots) c h = refl
  live-fill (some d ∷ slots) c h = ap suc (live-fill slots c (omega arith))

pub get_elem?-lt {ℓ} : {A : Type ℓ} (xs : List A) (i : ℕ) → get_elem? xs i ≡ none → length xs ≤ i
get_elem?-lt [] i e = omega arith
get_elem?-lt (x ∷ xs) zero e = cc
get_elem?-lt (x ∷ xs) (suc i) e = omega (arith, get_elem?-lt xs i e)

pub get_elem?-set {ℓ} :
    {A : Type ℓ} (xs : List A) (i : ℕ) (y v : A)
    → get_elem? xs i ≡ some y
    → get_elem? (set xs i v) i ≡ some v
get_elem?-set [] i y v e = cc
get_elem?-set (x ∷ xs) zero y v e = refl
get_elem?-set (x ∷ xs) (suc i) y v e = get_elem?-set xs i y v e
