-- ===== src/Thdq/Tests.antt =====
-- A consumer that comes first and one push, through to the delivery.
use epic_poold.Base.{ℕ, ◌≡◌, ◌⊎◌, refl, [], ◌∷◌, ◌++◌, arith}
use epic_poold.Thdq.{
  Thdq, notify_one, push, enter_pop, resume_pop, pushes, notifies, enters, resumes, Run, start,
  next,
}
use epic_poold.Thdq.Fifo.{Run-fifo}
use epic_poold.Thdq.Wakeups.{Run-no_lost_wakeup}

abbrev delivered : Thdq ℕ
delivered = record { queue = 8 ∷ []; waiters = record { sleepers = 0; woken = 0; unnotified = 0 } }

-- enter, push 7, push 8, notify, resume, notify
delivery : Run (7 ∷ 8 ∷ []) (7 ∷ []) delivered
unfolding push enter_pop resume_pop notify_one
delivery =
    next
      (next (next (next (next (next start enters) (pushes 7)) (pushes 8)) (notifies (omega arith)))
        (resumes (omega arith)))
      (notifies (omega arith))

Run-fifo_example : 7 ∷ 8 ∷ [] ≡ (7 ∷ []) ++ delivered.queue
Run-fifo_example = Run-fifo delivery

Run-no_lost_wakeup_example : (delivered.queue ≡ []) ⊎ (delivered.sleepers ≡ 0)
Run-no_lost_wakeup_example = Run-no_lost_wakeup delivery refl refl
