-- ===== src/Thdq/Wakeups.antt =====
-- thdq.hpp: the sleeping threads and the wake-ups under way.
use epic_poold.Base.{
  ◌+◌, ◌≤◌, ◌≡◌, ◌⊎◌, inl, inr, refl, ap, List, [], ◌∷◌, length, length-append, arith,
}
use epic_poold.Thdq.{
  Thdq, Waiters, attempt, push, notify_one, spurious, wake, enter_pop, resume_pop, Step, pushes,
  notifies, enters, resumes, wakes, Run, start, next,
}

module _ {ℓ} {A : Type ℓ} where
  -- While a thread sleeps, each item has a wake-up of its own under way.
  abbrev pub Covered : Thdq A → Type 0
  Covered s = (s.sleepers ≡ 0) ⊎ (length s.queue ≤ s.woken + s.unnotified)

  attempt-Covered :
      (q : List A) (w : Waiters)
      → (w.sleepers ≡ 0) ⊎ (length q ≤ w.woken + w.unnotified + 1)
      → Covered (attempt q w).0
  unfolding attempt
  attempt-Covered [] w h = inr (omega arith)
  attempt-Covered (item ∷ rest) w (inl h) = inl h
  attempt-Covered (item ∷ rest) w (inr h) = inr (omega arith)

  Step-Covered : {s t : Thdq A} {i o : List A} → Step s i o t → Covered s → Covered t
  unfolding push enter_pop resume_pop notify_one spurious
  Step-Covered {s} (pushes item) c = ground (arith, length-append {ℓ} s.queue (item ∷ []))
  Step-Covered (notifies pos) c = ground arith
  Step-Covered {s} enters c = attempt-Covered s.queue s.waiters (ground arith)
  Step-Covered {s} (resumes pos) c = attempt-Covered s.queue (wake s.waiters) (ground arith)
  Step-Covered (wakes pos) c = ground arith

  Run-Covered : {ins outs : List A} {s : Thdq A} → Run ins outs s → Covered s
  Run-Covered start = inl refl
  Run-Covered (next run step) = Step-Covered step (Run-Covered run)

  -- In every run: when no woken thread and no notification is under way, so that nothing more will
  -- happen by itself, the queue is empty or no thread sleeps on it.
  pub Run-no_lost_wakeup :
      {ins outs : List A} {s : Thdq A}
      → Run ins outs s
      → s.woken ≡ 0
      → s.unnotified ≡ 0
      → (s.queue ≡ []) ⊎ (s.sleepers ≡ 0)
  Run-no_lost_wakeup {s} run w u = by_queue s.queue refl (Run-Covered run)
    where
      by_queue : (q : List A) → s.queue ≡ q → Covered s → (s.queue ≡ []) ⊎ (s.sleepers ≡ 0)
      by_queue [] e c = inl e
      by_queue (x ∷ q) e c = inr (omega (arith, ap (length {ℓ}) e))
