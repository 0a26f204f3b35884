-- ===== src/Thdq.antt =====
-- thdq.hpp: the queue between the threads. A thread runs a critical section at a time, so a run is
-- a sequence of sections: a `push`, its `notify_one` after the unlock, and each attempt of a `pop`,
-- which takes the front or goes to sleep on the condition variable.
pub mod Fifo
pub mod Wakeups
pub mod Vector
pub mod Tests
use epic_poold.Base.{
  ℕ, zero, suc, ◌+◌, ◌-◌, ◌<◌, ◌≡◌, Bool, true, false, Option, none, some, List, [], ◌∷◌, ◌++◌, ltb,
  if◌then◌else◌,
}

-- `sleepers` wait in `cond_.wait`; `woken` have left it and not yet taken the mutex again;
-- `unnotified` pushes have unlocked and not yet called `notify_one`.
pub record Waiters : Type 0 where
  pub sleepers : ℕ
  pub woken : ℕ
  pub unnotified : ℕ

pub record Thdq {ℓ} (A : Type ℓ) : Type ℓ where
  pub queue : List A
  pub waiters : Waiters
  pub open waiters use *

-- `notify_one` lets one sleeper go, if there is one.
unfoldable pub notify_one : Waiters → Waiters
notify_one w =
    if ltb 0 w.sleepers
    then record w { sleepers = w.sleepers - 1; woken = w.woken + 1; unnotified = w.unnotified - 1 }
    else record w { unnotified = w.unnotified - 1 }

-- A return from `wait` that no notification caused.
unfoldable pub spurious : Waiters → Waiters
spurious w = record w { sleepers = w.sleepers - 1; woken = w.woken + 1 }

abbrev pub fall_asleep : Waiters → Waiters
fall_asleep w = record w { sleepers = w.sleepers + 1 }

abbrev pub wake : Waiters → Waiters
wake w = record w { woken = w.woken - 1 }

module _ {ℓ} {A : Type ℓ} where
  abbrev pub empty : Thdq A
  empty = record { queue = []; waiters = record { sleepers = 0; woken = 0; unnotified = 0 } }

  -- Both `push`, up to the unlock.
  unfoldable pub push : Thdq A → A → Thdq A
  push s item = record {
    queue = s.queue ++ item ∷ [];
    waiters = record s.waiters { unnotified = s.unnotified + 1 };
  }

  -- Both `pop`, from the test of the loop on: the thread waits, or leaves with the front.
  unfoldable pub attempt : List A → Waiters → Thdq A × Option A
  attempt [] w = (record { queue = []; waiters = fall_asleep w }, none)
  attempt (item ∷ rest) w = (record { queue = rest; waiters = w }, some item)

  -- A thread enters `pop`.
  unfoldable pub enter_pop : Thdq A → Thdq A × Option A
  unfolding attempt
  enter_pop s = attempt s.queue s.waiters

  -- A woken thread takes the mutex again and tests the loop's condition.
  unfoldable pub resume_pop : Thdq A → Thdq A × Option A
  unfolding attempt
  resume_pop s = attempt s.queue (wake s.waiters)

  abbrev pub taken : Option A → List A
  taken none = []
  taken (some item) = item ∷ []

  -- One critical section, with the items that it put in and took out.
  pub data Step (s : Thdq A) : List A → List A → Thdq A → Type ℓ where
    pushes : (item : A) → Step s (item ∷ []) [] (push s item)
    notifies : 0 < s.unnotified → Step s [] [] (record s { waiters = notify_one s.waiters })
    enters : Step s [] (taken (enter_pop s).1) (enter_pop s).0
    resumes : 0 < s.woken → Step s [] (taken (resume_pop s).1) (resume_pop s).0
    wakes : 0 < s.sleepers → Step s [] [] (record s { waiters = spurious s.waiters })

  -- Any number of them, in any order, from an empty queue.
  pub data Run : List A → List A → Thdq A → Type ℓ where
    start : Run [] [] empty
    next :
        {ins outs i o : List A} {s t : Thdq A}
        → Run ins outs s
        → Step s i o t
        → Run (ins ++ i) (outs ++ o) t
