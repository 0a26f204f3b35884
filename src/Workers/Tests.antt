-- ===== src/Workers/Tests.antt =====
-- Two hashing threads, and a job.
use mathlib.Core.List.{Perm}
use epic_poold.Base.{ℕ, ◌≡◌, ◌⊎◌, refl, [], ◌∷◌, ◌++◌, arith}
use epic_poold.Thdq.{enter_pop, push, attempt}
use epic_poold.Workers.{Workers, created, push_job, popped, Reach, start, next, pushes, enters}
use epic_poold.Workers.Answers.{Moving, Reach-answers}

abbrev asked : Workers ℕ
asked = push_job (created 2) 7

-- A thread has the job.
abbrev busy : Workers ℕ
busy = popped (enter_pop asked.jobs) (record asked { free = 1 })

busy-Reach : Reach 2 busy
unfolding push_job
busy-Reach = next (next start (pushes 7)) (enters 1 refl)

has_job : busy.working ≡ 7 ∷ []
unfolding push_job popped enter_pop push attempt
has_job = refl

Reach-answers_example :
    Perm busy.pushed ((busy.answered ++ busy.working) ++ busy.jobs.queue)
    × (Moving busy ⊎ Perm busy.pushed busy.answered)
Reach-answers_example = Reach-answers (omega arith) busy-Reach
