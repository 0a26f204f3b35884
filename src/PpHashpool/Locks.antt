-- ===== src/PpHashpool/Locks.antt =====
-- The locks of pp_hashpool.cpp, and the thread that writes a dataset.
use mathlib.Core.Bool.{false≢true}
use epic_poold.Base.{
  ℕ, ◌+◌, ◌≡◌, refl, sym, ◌∙◌, ap, Bool, true, false, ◌==◌, if◌then◌else◌, inl, inr, ◌⊎◌,
  Bool-cases, ==_iff,
}
use epic_poold.PpHashpool.{
  Thread, unborn, over, popping, waiting, locked, created, searching, found, reading, hashing,
  State, writes, holds, assign, Step, clears, loads, spawns, locks, creates, publishes, starts,
  pops, looks, misses, shares, tests, finishes,
}

-- No dataset has a writer and another holder.
abbrev pub Alone : (ℕ → Thread) → Type 0
Alone threads = (i m n : ℕ) → writes i (threads m) ≡ true → holds i (threads n) ≡ true → m ≡ n

writes-holds : (i : ℕ) (t : Thread) → writes i t ≡ true → holds i t ≡ true
writes-holds i (locked j) e = e
writes-holds i (created j epoch) e = e
writes-holds i unborn e = absurd cc
writes-holds i over e = absurd cc
writes-holds i popping e = absurd cc
writes-holds i (waiting _) e = absurd cc
writes-holds i (searching _ _) e = absurd cc
writes-holds i (found _ _) e = absurd cc
writes-holds i (reading _ _) e = absurd cc
writes-holds i (hashing _ _) e = absurd cc

module _ (threads : ℕ → Thread) (n : ℕ) (t : Thread) where
  -- A test that holds of a thread after the assignment holds of the new state, or held before.
  pub assigned :
      (q : Thread → Bool) (m : ℕ)
      → q (assign threads n t m) ≡ true
      → ((m ≡ n) × (q t ≡ true)) ⊎ (q (threads m) ≡ true)
  assigned q m h = elim (Bool-cases (m == n)) [
    | inl same ↦ inl ((==_iff m n).0 same, rw same at h)
    | inr other ↦ inr (rw other at h)
  ]

  back :
      (q : Thread → Bool) (m : ℕ)
      → (q t ≡ true → q (threads n) ≡ true)
      → q (assign threads n t m) ≡ true
      → q (threads m) ≡ true
  back q m from h = elim (assigned q m h) [
    | inl (same, new) ↦ ap (λ k. q (threads k)) same ∙ from new
    | inr old ↦ old
  ]

  -- The step of a thread that takes no lock.
  keeps-Alone :
      ((i : ℕ) → writes i t ≡ true → writes i (threads n) ≡ true)
      → ((i : ℕ) → holds i t ≡ true → holds i (threads n) ≡ true)
      → Alone threads
      → Alone (assign threads n t)
  keeps-Alone less fewer alone i m m' w h =
      alone i m m' (back (writes i) m (less i) w) (back (holds i) m' (fewer i) h)

  idle-Alone :
      ((i : ℕ) → holds i t ≡ false)
      → ((i : ℕ) → writes i t ≡ false)
      → Alone threads
      → Alone (assign threads n t)
  idle-Alone quiet calm alone =
      keeps-Alone (λ i w. absurd (false≢true (sym (calm i) ∙ w)))
        (λ i h. absurd (false≢true (sym (quiet i) ∙ h))) alone

locks-Alone :
    (threads : ℕ → Thread) (n i : ℕ)
    → ((m : ℕ) → holds i (threads m) ≡ false)
    → Alone threads
    → Alone (assign threads n (locked i))
locks-Alone threads n i none_holds alone j m m' w h =
    by_both (assigned threads n (locked i) (writes j) m w)
      (assigned threads n (locked i) (holds j) m' h)
  where
    free : (k : ℕ) → (j == i) ≡ true → holds j (threads k) ≡ true → m ≡ m'
    free k same h' =
        let here : j ≡ i = (==_iff j i).0 same in
        let taken : holds i (threads k) ≡ true = rw here at h' in
        absurd (false≢true (sym (none_holds k) ∙ taken))

    by_both :
        ((m ≡ n) × ((j == i) ≡ true)) ⊎ (writes j (threads m) ≡ true)
        → ((m' ≡ n) × ((j == i) ≡ true)) ⊎ (holds j (threads m') ≡ true)
        → m ≡ m'
    by_both (inl (e, _)) (inl (e', _)) = e ∙ sym e'
    by_both (inl (_, same)) (inr old) = free m' same old
    by_both (inr old) (inl (_, same)) = free m same (writes-holds j (threads m) old)
    by_both (inr old) (inr old') = alone j m m' old old'

shares-Alone :
    (threads : ℕ → Thread) (n i block : ℕ)
    → ((m : ℕ) → writes i (threads m) ≡ false)
    → Alone threads
    → Alone (assign threads n (reading i block))
shares-Alone threads n i block none_writes alone j m m' w h =
    by_both (assigned threads n (reading i block) (writes j) m w)
      (assigned threads n (reading i block) (holds j) m' h)
  where
    by_both :
        ((m ≡ n) × (false ≡ true)) ⊎ (writes j (threads m) ≡ true)
        → ((m' ≡ n) × ((j == i) ≡ true)) ⊎ (holds j (threads m') ≡ true)
        → m ≡ m'
    by_both (inl (_, never)) other = absurd (false≢true never)
    by_both (inr old) (inl (_, same)) =
        let here : j ≡ i = (==_iff j i).0 same in
        let taken : writes i (threads m) ≡ true = rw here at old in
        absurd (false≢true (sym (none_writes m) ∙ taken))
    by_both (inr old) (inr old') = alone j m m' old old'

if_quiet :
    (b : Bool) (t u : Thread) (q : Thread → Bool)
    → q t ≡ false
    → q u ≡ false
    → q (if b then t else u) ≡ false
if_quiet true t u q e e' = e
if_quiet false t u q e e' = e'

if_holds :
    (b : Bool) (i j block : ℕ)
    → holds j (if b then hashing i block else popping) ≡ true
    → (j == i) ≡ true
if_holds true i j block e = e
if_holds false i j block e = absurd (false≢true e)

pub Step-Alone :
    (get_epoch_number : ℕ → ℕ) {s t : State}
    → Step get_epoch_number s t
    → Alone s.threads
    → Alone t.threads
Step-Alone g (clears epoch free absent) alone = alone
Step-Alone g (loads i epoch at) alone = alone
Step-Alone g {s} (spawns i n at born) alone =
    idle-Alone s.threads n (waiting i) (λ j. refl) (λ j. refl) alone
Step-Alone g {s} (locks n i at none_holds) alone = locks-Alone s.threads n i none_holds alone
Step-Alone g {s} (creates n i d at here) alone =
    keeps-Alone s.threads n (created i d.loaded_epoch) (λ j w. ap (writes j) at ∙ w)
      (λ j h. ap (holds j) at ∙ h) alone
Step-Alone g {s} (publishes n i epoch at) alone =
    idle-Alone s.threads n over (λ j. refl) (λ j. refl) alone
Step-Alone g {s} (starts n at) alone = idle-Alone s.threads n popping (λ j. refl) (λ j. refl) alone
Step-Alone g {s} (pops n block at) alone =
    idle-Alone s.threads n (searching 0 block) (λ j. refl) (λ j. refl) alone
Step-Alone g {s} (looks n i block d at here) alone =
    let hit = d.ready_epoch == g block in
    idle-Alone s.threads n (if hit then found i block else searching (i + 1) block)
      (λ j. if_quiet hit (found i block) (searching (i + 1) block) (holds j) refl refl)
      (λ j. if_quiet hit (found i block) (searching (i + 1) block) (writes j) refl refl) alone
Step-Alone g {s} (misses n i block at end) alone =
    idle-Alone s.threads n popping (λ j. refl) (λ j. refl) alone
Step-Alone g {s} (shares n i block at none_writes) alone =
    shares-Alone s.threads n i block none_writes alone
Step-Alone g {s} (tests n i block d at here) alone =
    let hit = d.ready_epoch == g block in
    keeps-Alone s.threads n (if hit then hashing i block else popping)
      (λ j w.
        absurd (false≢true (sym (if_quiet hit (hashing i block) popping (writes j) refl refl) ∙ w)))
      (λ j h. ap (holds j) at ∙ if_holds hit i j block h) alone
Step-Alone g {s} (finishes n i block at) alone =
    idle-Alone s.threads n popping (λ j. refl) (λ j. refl) alone
