-- ===== src/Thdq/Vector.antt =====
-- thdv in thdq.hpp: the same monitor over a vector, which `pop_all` empties at once.
use epic_poold.Base.{
  ◌+◌, ◌<◌, ◌≡◌, ◌∙◌, ◌⊎◌, inl, inr, refl, sym, List, [], ◌∷◌, ◌++◌, append-nil, append_assoc,
  arith,
}
use epic_poold.Thdq.{Waiters, notify_one, spurious, fall_asleep, wake}

pub record Thdv {ℓ} (A : Type ℓ) : Type ℓ where
  pub vector : List A
  pub waiters : Waiters
  pub open waiters use *

module _ {ℓ} {A : Type ℓ} where
  abbrev pub empty : Thdv A
  empty = record { vector = []; waiters = record { sleepers = 0; woken = 0; unnotified = 0 } }

  -- `emplace`, up to the unlock.
  unfoldable pub emplace : Thdv A → A → Thdv A
  emplace s item = record {
    vector = s.vector ++ item ∷ [];
    waiters = record s.waiters { unnotified = s.unnotified + 1 };
  }

  -- `pop_all`, from the test of the predicate on: the thread waits, or swaps the vector out.
  attempt_all : List A → Waiters → Thdv A × List A
  attempt_all [] w = (record { vector = []; waiters = fall_asleep w }, [])
  attempt_all (item ∷ rest) w = (record { vector = []; waiters = w }, item ∷ rest)

  unfoldable pub enter_pop_all : Thdv A → Thdv A × List A
  unfolding attempt_all
  enter_pop_all s = attempt_all s.vector s.waiters

  unfoldable pub resume_pop_all : Thdv A → Thdv A × List A
  unfolding attempt_all
  resume_pop_all s = attempt_all s.vector (wake s.waiters)

  pub data Step (s : Thdv A) : List A → List A → Thdv A → Type ℓ where
    emplaces : (item : A) → Step s (item ∷ []) [] (emplace s item)
    notifies : 0 < s.unnotified → Step s [] [] (record s { waiters = notify_one s.waiters })
    enters : Step s [] (enter_pop_all s).1 (enter_pop_all s).0
    resumes : 0 < s.woken → Step s [] (resume_pop_all s).1 (resume_pop_all s).0
    wakes : 0 < s.sleepers → Step s [] [] (record s { waiters = spurious s.waiters })

  pub data Run : List A → List A → Thdv A → Type ℓ where
    start : Run [] [] empty
    next :
        {ins outs i o : List A} {s t : Thdv A}
        → Run ins outs s
        → Step s i o t
        → Run (ins ++ i) (outs ++ o) t

  attempt_all-vector :
      (v : List A) (w : Waiters) → v ≡ (attempt_all v w).1 ++ (attempt_all v w).0.vector
  unfolding attempt_all
  attempt_all-vector [] w = refl
  attempt_all-vector (item ∷ rest) w = sym (append-nil (item ∷ rest))

  Step-vector : {s t : Thdv A} {i o : List A} → Step s i o t → s.vector ++ i ≡ o ++ t.vector
  unfolding emplace enter_pop_all resume_pop_all
  Step-vector (emplaces item) = refl
  Step-vector {s} (notifies _) = append-nil s.vector
  Step-vector {s} enters = append-nil s.vector ∙ attempt_all-vector s.vector s.waiters
  Step-vector {s} (resumes _) = append-nil s.vector ∙ attempt_all-vector s.vector _
  Step-vector {s} (wakes _) = append-nil s.vector

  Run-vector : {ins outs : List A} {s : Thdv A} → Run ins outs s → ins ≡ outs ++ s.vector
  Run-vector start = refl
  Run-vector (next {ins} {outs} {i} {o} {s} {t} run step) =
      rw (Run-vector run, append_assoc) (rw (Step-vector step) (sym (append_assoc outs o t.vector)))

  -- While a thread sleeps over a vector with items, a wake-up is under way.
  abbrev Alert : Thdv A → Type ℓ
  Alert s = (s.vector ≡ []) ⊎ ((s.sleepers ≡ 0) ⊎ (0 < s.woken + s.unnotified))

  attempt_all-Alert : (v : List A) (w : Waiters) → Alert (attempt_all v w).0
  unfolding attempt_all
  attempt_all-Alert [] w = inl refl
  attempt_all-Alert (item ∷ rest) w = inl refl

  notify-Alert : (s : Thdv A) → Alert s → Alert (record s { waiters = notify_one s.waiters })
  unfolding notify_one
  notify-Alert s (inl e) = inl e
  notify-Alert s (inr c) = inr (ground arith)

  spurious-Alert :
      (s : Thdv A) → 0 < s.sleepers → Alert s → Alert (record s { waiters = spurious s.waiters })
  unfolding spurious
  spurious-Alert s pos (inl e) = inl e
  spurious-Alert s pos (inr c) = inr (inr (omega arith))

  Step-Alert : {s t : Thdv A} {i o : List A} → Step s i o t → Alert s → Alert t
  unfolding emplace enter_pop_all resume_pop_all
  Step-Alert {s} (emplaces item) c = inr (inr (omega arith))
  Step-Alert {s} (notifies pos) c = notify-Alert s c
  Step-Alert {s} enters c = attempt_all-Alert s.vector s.waiters
  Step-Alert {s} (resumes pos) c = attempt_all-Alert s.vector _
  Step-Alert {s} (wakes pos) c = spurious-Alert s pos c

  Run-Alert : {ins outs : List A} {s : Thdv A} → Run ins outs s → Alert s
  Run-Alert start = inl refl
  Run-Alert (next run step) = Step-Alert step (Run-Alert run)

  -- In every run of the vector's threads, what was put in is what was taken out, in the same order,
  -- followed by what is left; and where items are left, either no thread sleeps, or a woken thread
  -- or a notification is under way.
  pub Run-delivers :
      {ins outs : List A} {s : Thdv A}
      → Run ins outs s
      → (ins ≡ outs ++ s.vector)
        × ((s.vector ≡ []) ⊎ ((s.sleepers ≡ 0) ⊎ (0 < s.woken + s.unnotified)))
  Run-delivers run = (Run-vector run, Run-Alert run)
