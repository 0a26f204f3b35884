-- ===== src/PpHashpool/Safety.antt =====
-- What pp_hashpool.cpp hashes with: the context of the job's own epoch.
use mathlib.Core.Bool.{false≢true}
use epic_poold.Base.{
  ℕ, zero, suc, ◌+◌, ◌%◌, ◌≡◌, ◌≢◌, refl, sym, ◌∙◌, ap, true, false, ◌==◌, inl, inr, Bool-cases,
  ==_iff, arith,
}
use epic_poold.PpHashpool.{
  constructed, fresh, invalid_epoch, cleared_dataset, loaded_dataset, unborn, popping, waiting,
  locked, searching, found, reading, hashing, State, writes, holds, Step, clears, loads, spawns,
  locks, creates, publishes, starts, pops, looks, misses, shares, tests, finishes, Reach, start,
  next,
}
use epic_poold.PpHashpool.Locks.{Alone, Step-Alone}
use epic_poold.PpHashpool.Updates.{ContextAt}
use epic_poold.PpHashpool.Writing.{create_step, publish_step}
use epic_poold.PpHashpool.Contexts.{
  Ready, Kept, calm, some_injective, store_step, quiet_step, test_step,
}

module _ (get_epoch_number : ℕ → ℕ)
    (valid : (block : ℕ) → get_epoch_number block ≢ invalid_epoch) where
  Step-Kept :
      {s t : State}
      → Step get_epoch_number s t
      → Alone s.threads
      → Kept get_epoch_number valid s.slots.ds s.threads
      → Kept get_epoch_number valid t.slots.ds t.threads
  Step-Kept {s} (clears epoch free absent) alone kept =
      store_step get_epoch_number valid s.slots.ds s.threads (s.slots.ds_ctr % 2) cleared_dataset
        (λ d. refl) (λ d. inl refl) kept
  Step-Kept {s} (loads i epoch at) alone kept =
      store_step get_epoch_number valid s.slots.ds s.threads i (loaded_dataset epoch) (λ d. refl)
        (λ d. inr refl) kept
  Step-Kept {s} (spawns i n at born) alone kept =
      quiet_step get_epoch_number valid s.slots.ds s.threads n (waiting i)
        (calm s.threads n unborn (waiting i) born (λ j. refl)) (λ j e h. cc) (λ j b h. cc) kept
  Step-Kept {s} (locks n i at free) alone kept =
      quiet_step get_epoch_number valid s.slots.ds s.threads n (locked i)
        (calm s.threads n (waiting i) (locked i) at (λ j. refl)) (λ j e h. cc) (λ j b h. cc) kept
  Step-Kept {s} (creates n i d at here) alone kept =
      create_step get_epoch_number valid s.slots.ds s.threads n i d alone at here kept
  Step-Kept {s} (publishes n i epoch at) alone kept =
      publish_step get_epoch_number valid s.slots.ds s.threads n i epoch at kept
  Step-Kept {s} (starts n at) alone kept =
      quiet_step get_epoch_number valid s.slots.ds s.threads n popping
        (calm s.threads n unborn popping at (λ j. refl)) (λ j e h. cc) (λ j b h. cc) kept
  Step-Kept {s} (pops n block at) alone kept =
      quiet_step get_epoch_number valid s.slots.ds s.threads n (searching 0 block)
        (calm s.threads n popping (searching 0 block) at (λ j. refl)) (λ j e h. cc) (λ j b h. cc)
        kept
  Step-Kept {s} (looks n i block d at here) alone kept =
      elim (Bool-cases (d.ready_epoch == get_epoch_number block)) [
        | inl hit ↦ rw hit (
            quiet_step get_epoch_number valid s.slots.ds s.threads n (found i block)
              (calm s.threads n (searching i block) (found i block) at (λ j. refl)) (λ j e h. cc)
              (λ j b h. cc) kept)
        | inr miss ↦ rw miss (
            quiet_step get_epoch_number valid s.slots.ds s.threads n (searching (i + 1) block)
              (calm s.threads n (searching i block) (searching (i + 1) block) at (λ j. refl))
              (λ j e h. cc) (λ j b h. cc) kept)
      ]
  Step-Kept {s} (misses n i block at end) alone kept =
      quiet_step get_epoch_number valid s.slots.ds s.threads n popping
        (calm s.threads n (searching i block) popping at (λ j. refl)) (λ j e h. cc) (λ j b h. cc)
        kept
  Step-Kept {s} (shares n i block at free) alone kept =
      quiet_step get_epoch_number valid s.slots.ds s.threads n (reading i block)
        (calm s.threads n (found i block) (reading i block) at (λ j. refl)) (λ j e h. cc)
        (λ j b h. cc) kept
  Step-Kept {s} (tests n i block d at here) alone kept =
      elim (Bool-cases (d.ready_epoch == get_epoch_number block)) [
        | inl hit ↦ rw hit (
            test_step get_epoch_number valid s.slots.ds s.threads n i block d alone at here
              ((==_iff d.ready_epoch (get_epoch_number block)).0 hit) kept)
        | inr miss ↦ rw miss (
            quiet_step get_epoch_number valid s.slots.ds s.threads n popping
              (calm s.threads n (reading i block) popping at (λ j. refl)) (λ j e h. cc)
              (λ j b h. cc) kept)
      ]
  Step-Kept {s} (finishes n i block at) alone kept =
      quiet_step get_epoch_number valid s.slots.ds s.threads n popping
        (calm s.threads n (hashing i block) popping at (λ j. refl)) (λ j e h. cc) (λ j b h. cc) kept

  Safe : State → Type 0
  Safe s = Alone s.threads × Kept get_epoch_number valid s.slots.ds s.threads

  Reach-Safe : {s : State} → Reach get_epoch_number s → Safe s
  unfolding Safe
  Reach-Safe start =
      ((λ i m n w h. absurd cc), ((λ n i e h. absurd cc), first, λ n i b h. absurd cc))
    where
      first : Ready constructed.ds (λ n. unborn)
      first zero d here free valid_epoch =
          let is_fresh : fresh ≡ d = some_injective here in
          absurd (valid_epoch (ap (λ x. x.ready_epoch) (sym is_fresh)))
      first (suc zero) d here free valid_epoch =
          let is_fresh : fresh ≡ d = some_injective here in
          absurd (valid_epoch (ap (λ x. x.ready_epoch) (sym is_fresh)))
      first (suc (suc i)) d here free valid_epoch = absurd cc
  Reach-Safe (next {s} {t} run step) =
      let (alone, kept) = Reach-Safe run in
      (Step-Alone get_epoch_number step alone, Step-Kept step alone kept)

  -- In every interleaving of the thread that announces epochs, the threads that make contexts and those
  -- that hash: while a thread hashes a job, its dataset holds the context of the epoch of the job's
  -- block, and no thread writes this dataset. Epoch numbers are taken to be no invalid_epoch.
  pub Reach-hashes_with :
      {s : State} (n i block : ℕ)
      → Reach get_epoch_number s
      → s.threads n ≡ hashing i block
      → ContextAt s.slots.ds i (get_epoch_number block) × ((m : ℕ) → writes i (s.threads m) ≡ false)
  unfolding Safe
  Reach-hashes_with {s} n i block run at =
      let (alone, kept) = Reach-Safe run in (kept.2 n i block at, none_writes alone)
    where
      none_writes : Alone s.threads → (m : ℕ) → writes i (s.threads m) ≡ false
      none_writes alone m = elim (Bool-cases (writes i (s.threads m))) [
        | inl w ↦
            let meet : m ≡ n = alone i m n w (ap (holds i) at ∙ ground arith) in
            let mine : writes i (s.threads n) ≡ true =
              ap (λ k. writes i (s.threads k)) (sym meet) ∙ w in
            absurd (false≢true (sym (ap (writes i) at) ∙ mine))
        | inr none_written ↦ none_written
      ]
