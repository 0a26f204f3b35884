-- ===== src/Workers.antt =====
-- rx_hashpool.hpp, rx_hashpool.cpp, pp_hashpool.hpp, pp_hashpool.cpp: the hashing threads of a pool, on its
-- thread queue. Each pops a job, and answers it on every way through its loop; the thread of the client that
-- pushed the job waits for that. What the answer is stands in the two pools.
pub mod Answers
pub mod Tests
use epic_poold.Base.{ℕ, zero, suc, ◌<◌, ◌≡◌, Option, none, some, List, [], ◌∷◌, ◌++◌}
use epic_poold.Thdq.{Thdq, empty, push, enter_pop, resume_pop, notify_one, spurious}

-- `free` threads are before `jobs.pop()`; `working` holds the jobs that were popped and whose promise is not
-- yet set; `pushed` and `answered` are all jobs of the past, the oldest first.
pub record Workers (J : Type 0) : Type 0 where
  pub jobs : Thdq J
  pub free : ℕ
  pub working : List J
  pub pushed : List J
  pub answered : List J

-- The constructor, with hash_thd_count threads.
abbrev pub created : {J : Type 0} → ℕ → Workers J
created threads = record { jobs = empty; free = threads; working = []; pushed = []; answered = [] }

module _ {J : Type 0} where
  unfoldable pub push_job : Workers J → J → Workers J
  push_job s job = record s { jobs = push s.jobs job; pushed = s.pushed ++ job ∷ [] }

  -- A thread behind an attempt to pop: asleep, or with a job.
  unfoldable pub popped : Thdq J × Option J → Workers J → Workers J
  popped (q, none) s = record s { jobs = q }
  popped (q, some job) s = record s { jobs = q; working = s.working ++ job ∷ [] }

  -- A critical section of the queue, or the setting of a promise.
  pub data Step (s : Workers J) : Workers J → Type 0 where
    pushes : (job : J) → Step s (push_job s job)
    notifies :
        0 < s.jobs.unnotified
        → Step s (record s { jobs = record s.jobs { waiters = notify_one s.jobs.waiters } })
    enters : (n : ℕ) → s.free ≡ suc n → Step s (popped (enter_pop s.jobs) (record s { free = n }))
    resumes : 0 < s.jobs.woken → Step s (popped (resume_pop s.jobs) s)
    wakes :
        0 < s.jobs.sleepers
        → Step s (record s { jobs = record s.jobs { waiters = spurious s.jobs.waiters } })
    answers :
        (before after : List J) (job : J)
        → s.working ≡ before ++ job ∷ after
        → Step s (record s {
          working = before ++ after;
          answered = s.answered ++ job ∷ [];
          free = suc s.free;
        })

  pub data Reach (threads : ℕ) : Workers J → Type 0 where
    start : Reach threads (created threads)
    next : {s t : Workers J} → Reach threads s → Step s t → Reach threads t
