-- ===== src/Thdq/Fifo.antt =====
-- thdq.hpp: the order of the items.
use epic_poold.Base.{◌≡◌, ◌∙◌, refl, sym, List, [], ◌∷◌, ◌++◌, append-nil, append_assoc}
use epic_poold.Thdq.{
  Thdq, Waiters, attempt, push, enter_pop, resume_pop, taken, Step, pushes, notifies, enters,
  resumes, wakes, Run, start, next,
}

module _ {ℓ} {A : Type ℓ} where
  attempt-queue : (q : List A) (w : Waiters) → q ≡ taken (attempt q w).1 ++ (attempt q w).0.queue
  unfolding attempt
  attempt-queue [] w = refl
  attempt-queue (item ∷ rest) w = refl

  Step-queue : {s t : Thdq A} {i o : List A} → Step s i o t → s.queue ++ i ≡ o ++ t.queue
  unfolding push enter_pop resume_pop
  Step-queue (pushes item) = refl
  Step-queue {s} (notifies _) = append-nil s.queue
  Step-queue {s} enters = append-nil s.queue ∙ attempt-queue s.queue s.waiters
  Step-queue {s} (resumes _) = append-nil s.queue ∙ attempt-queue s.queue _
  Step-queue {s} (wakes _) = append-nil s.queue

  -- In every run, however the threads interleave, what was pushed is what was popped, in the same
  -- order, followed by what still stands in the queue: nothing is lost, doubled or overtaken.
  pub Run-fifo : {ins outs : List A} {s : Thdq A} → Run ins outs s → ins ≡ outs ++ s.queue
  Run-fifo start = refl
  Run-fifo (next {ins} {outs} {i} {o} {s} {t} run step) =
      rw (Run-fifo run, append_assoc) (rw (Step-queue step) (sym (append_assoc outs o t.queue)))
