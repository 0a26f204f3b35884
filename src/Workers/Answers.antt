-- ===== src/Workers/Answers.antt =====
-- rx_hashpool.cpp, pp_hashpool.cpp: where each job is in a run of the hashing threads.
use mathlib.Core.List.{Perm, perm_middle}
use mathlib.Core.List.Perm
use mathlib.Core.Path.{subst}
use epic_poold.Base.{
  ℕ, ◌+◌, ◌<◌, ◌≡◌, ◌⊎◌, refl, ◌∙◌, ap, inl, inr, List, [], ◌∷◌, ◌++◌, length, length-append, arith,
  append-nil, append_assoc, ap₂, Bool-cases, ltb,
}
use epic_poold.Thdq.{
  Thdq, Waiters, empty, push, enter_pop, resume_pop, notify_one, spurious, attempt, taken, wake,
  Run,
}
use epic_poold.Thdq as Thdq
use epic_poold.Thdq.Fifo.{Run-fifo}
use epic_poold.Thdq.Wakeups.{Run-no_lost_wakeup}
use epic_poold.Workers.{
  Workers, push_job, popped, Step, pushes, notifies, enters, resumes, wakes, answers, Reach, start,
  next,
}

notified-count :
    (w : Waiters)
    → 0 < w.unnotified
    → (notify_one w).sleepers + (notify_one w).woken ≡ w.sleepers + w.woken
unfolding notify_one
notified-count w some_left = ground arith

module _ {J : Type 0} where
  -- A run of the queue, whose popped jobs are those answered and those worked on, and the place of each
  -- thread.
  record Holds (threads : ℕ) (s : Workers J) : Type 0 where
    outs : List J
    run : Run s.pushed outs s.jobs
    places : Perm outs (s.answered ++ s.working)
    count : s.free + s.jobs.sleepers + s.jobs.woken + length s.working ≡ threads

  kept_ins : {ins outs : List J} {q : Thdq J} → Run (ins ++ []) outs q → Run ins outs q
  kept_ins {ins} {outs} {q} run = subst (λ (l : List J). Run l outs q) (append-nil ins) run

  kept_outs : {ins outs : List J} {q : Thdq J} → Run ins (outs ++ []) q → Run ins outs q
  kept_outs {ins} {outs} {q} run = subst (λ (l : List J). Run ins l q) (append-nil outs) run

  -- A thread that was counted nowhere attempts to pop.
  attempt-Holds :
      (threads : ℕ) (s : Workers J) (q : List J) (w : Waiters) (outs : List J)
      → Run s.pushed (outs ++ taken (attempt q w).1) (attempt q w).0
      → Perm outs (s.answered ++ s.working)
      → s.free + w.sleepers + w.woken + length s.working + 1 ≡ threads
      → Holds threads (popped (attempt q w) s)
  unfolding attempt popped
  attempt-Holds threads s [] w outs run places count = record {
    outs = outs;
    run = kept_outs run;
    places = places;
    count = omega (arith, count);
  }
  attempt-Holds threads s (job ∷ rest) w outs run places count = record {
    outs = outs ++ job ∷ [];
    run = run;
    places =
        subst (λ (l : List J). Perm (outs ++ job ∷ []) l)
          (append_assoc s.answered s.working (job ∷ [])) (Perm.append_right (job ∷ []) places);
    count = omega (arith, count, length-append s.working (job ∷ []));
  }

  Step-Holds : {threads : ℕ} {s t : Workers J} → Step s t → Holds threads s → Holds threads t
  unfolding push_job push enter_pop resume_pop spurious
  Step-Holds {threads} {s} (pushes job) h = record {
    outs = h.outs;
    run = kept_outs (Thdq.next h.run (Thdq.pushes job));
    places = h.places;
    count = h.count;
  }
  Step-Holds {threads} {s} (notifies some_left) h = record {
    outs = h.outs;
    run = kept_outs (kept_ins (Thdq.next h.run (Thdq.notifies some_left)));
    places = h.places;
    count = omega (arith, h.count, notified-count s.jobs.waiters some_left);
  }
  Step-Holds {threads} {s} (enters n free) h =
      attempt-Holds threads (record s { free = n }) s.jobs.queue s.jobs.waiters h.outs
        (kept_ins (Thdq.next h.run Thdq.enters)) h.places (omega (arith, h.count, free))
  Step-Holds {threads} {s} (resumes some_woken) h =
      attempt-Holds threads s s.jobs.queue (wake s.jobs.waiters) h.outs
        (kept_ins (Thdq.next h.run (Thdq.resumes some_woken))) h.places
        (omega (arith, h.count, some_woken))
  Step-Holds {threads} {s} (wakes asleep) h = record {
    outs = h.outs;
    run = kept_outs (kept_ins (Thdq.next h.run (Thdq.wakes asleep)));
    places = h.places;
    count = omega (arith, h.count, asleep);
  }
  Step-Holds {threads} {s} (answers before after job at) h = record {
    outs = h.outs;
    run = h.run;
    places = Perm.trans h.places moved;
    count = omega (
      arith,
      h.count,
      ap length at,
      length-append before (job ∷ after),
      length-append before after,
    );
  }
    where
      moved : Perm (s.answered ++ s.working) ((s.answered ++ job ∷ []) ++ (before ++ after))
      moved = rw (at, append_assoc) (Perm.append_left s.answered (perm_middle before after))

  reach-Holds : {threads : ℕ} {s : Workers J} → Reach threads s → Holds threads s
  reach-Holds start = record {
    outs = [];
    run = Thdq.start;
    places = Perm.refl [];
    count = omega arith;
  }
  reach-Holds (next run step) = Step-Holds step (reach-Holds run)

-- The pool can go on by itself: a thread is outside of its wait, or a wake-up is under way.
abbrev pub Moving : {J : Type 0} → Workers J → Type 0
Moving s = (0 < s.free) ⊎ ((0 < s.jobs.woken) ⊎ ((0 < s.jobs.unnotified) ⊎ (0 < length s.working)))

-- In every run of the hashing threads, of which there is one at least, and of the clients that push jobs: each
-- job is answered, with a thread or in the queue, as often as it was pushed; and the pool can go on by itself,
-- or exactly the jobs that were pushed are answered, so that it never rests while a client waits.
pub Reach-answers :
    {J : Type 0} {threads : ℕ} {s : Workers J}
    → 0 < threads
    → Reach threads s
    → Perm s.pushed ((s.answered ++ s.working) ++ s.jobs.queue)
      × (Moving s ⊎ Perm s.pushed s.answered)
Reach-answers {J} {threads} {s} some_thread run = (
  everywhere,
  elim (Bool-cases (ltb 0 s.free)) [
    | inl outside ↦ inl (inl (ground arith))
    | inr idle ↦ elim (Bool-cases (ltb 0 s.jobs.woken)) [
      | inl awake ↦ inl (inr (inl (ground arith)))
      | inr none_woken ↦ elim (Bool-cases (ltb 0 s.jobs.unnotified)) [
        | inl told ↦ inl (inr (inr (inl (ground arith))))
        | inr none_left ↦ by_working s.working refl (ground arith) (ground arith) (ground arith)
      ]
    ]
  ],
)
  where
    h : Holds threads s
    h = reach-Holds run

    everywhere : Perm s.pushed ((s.answered ++ s.working) ++ s.jobs.queue)
    everywhere = rw (Run-fifo h.run) (Perm.append_right s.jobs.queue h.places)

    at_rest : s.working ≡ [] → s.jobs.queue ≡ [] → Perm s.pushed s.answered
    at_rest none_working none_waits =
        subst (λ (l : List J). Perm s.pushed l)
          (ap₂ (λ (x y : List J). (s.answered ++ x) ++ y) none_working none_waits
            ∙ append-nil (s.answered ++ [])
            ∙ append-nil s.answered)
          everywhere

    by_working :
        (l : List J)
        → s.working ≡ l
        → s.free ≡ 0
        → s.jobs.woken ≡ 0
        → s.jobs.unnotified ≡ 0
        → Moving s ⊎ Perm s.pushed s.answered
    by_working (job ∷ l) busy idle none_woken none_left =
        inl (inr (inr (inr (omega (arith, ap length busy)))))
    by_working [] none_working idle none_woken none_left =
        elim (Run-no_lost_wakeup h.run none_woken none_left) [
          | inl none_waits ↦ inr (at_rest none_working none_waits)
          | inr none_sleeps ↦ absurd (
              omega (
                arith,
                h.count,
                idle,
                none_woken,
                none_sleeps,
                ap length none_working,
                some_thread,
              ))
        ]
