-- ===== src/PpHashpool.antt =====
-- pp_hashpool.hpp, pp_hashpool.cpp: the ProgPow contexts of two epochs, the threads that make them, and
-- the threads that hash with them. A context is named by the epoch that it was made for.
pub mod Locks
pub mod Updates
pub mod Contexts
pub mod Writing
pub mod Safety
pub mod Loading
pub mod Hashing
pub mod Tests
use epic_poold.Base.{
  ℕ, zero, suc, ◌+◌, ◌-◌, ◌%◌, ◌^◌, ◌≡◌, ◌≢◌, Bool, true, false, ◌||◌, Option, none, some, List, [],
  ◌∷◌, ◌==◌, if◌then◌else◌, get_elem?, set, length,
}

abbrev pub invalid_epoch : ℕ
invalid_epoch = 2 ^ 64 - 1

pub record Dataset : Type 0 where
  pub loaded_epoch : ℕ
  pub ready_epoch : ℕ
  pub dataset_ptr : Option ℕ

-- Two datasets; the counter is a size_t.
pub record Slots : Type 0 where
  pub ds : List Dataset
  pub ds_ctr : ℕ

abbrev pub fresh : Dataset
fresh = record { loaded_epoch = invalid_epoch; ready_epoch = invalid_epoch; dataset_ptr = none }

abbrev pub constructed : Slots
constructed = record { ds = fresh ∷ fresh ∷ []; ds_ctr = 0 }

unfoldable pub has_loaded : List Dataset → ℕ → Bool
has_loaded [] epoch = false
has_loaded (hay ∷ ds) epoch = (epoch == hay.loaded_epoch) || has_loaded ds epoch

unfoldable pub has_dataset : Slots → ℕ → Bool
unfolding has_loaded
has_dataset p epoch = has_loaded p.ds epoch

-- A change of one dataset.
unfoldable pub update : List Dataset → ℕ → (Dataset → Dataset) → List Dataset
update [] i f = []
update (d ∷ ds) zero f = f d ∷ ds
update (d ∷ ds) (suc i) f = d ∷ update ds i f

abbrev pub cleared_dataset : Dataset → Dataset
cleared_dataset d = record d { ready_epoch = invalid_epoch }

abbrev pub loaded_dataset : ℕ → Dataset → Dataset
loaded_dataset epoch d = record d { loaded_epoch = epoch }

-- Where a thread stands. A dataset's thread waits for the exclusive lock of its dataset, has it, or
-- has made the context; a hashing thread waits for a job, looks for its dataset, has found it, has
-- the shared lock, or hashes behind the second test.
pub data Thread : Type 0 where
  unborn over popping : Thread
  waiting locked : ℕ → Thread
  created : ℕ → ℕ → Thread
  searching found reading hashing : ℕ → ℕ → Thread

-- The thread that calls notify_epoch, between its stores.
pub data Notifier : Type 0 where
  idle : Notifier
  cleared : ℕ → ℕ → Notifier
  loaded : ℕ → Notifier

pub record State : Type 0 where
  pub slots : Slots
  pub threads : ℕ → Thread
  pub notifier : Notifier

abbrev pub writes : ℕ → Thread → Bool
writes i (locked j) = i == j
writes i (created j epoch) = i == j
writes i t = false

-- The holder of a lock, exclusive or shared.
abbrev pub holds : ℕ → Thread → Bool
holds i (locked j) = i == j
holds i (created j epoch) = i == j
holds i (reading j block) = i == j
holds i (hashing j block) = i == j
holds i t = false

abbrev pub assign : (ℕ → Thread) → ℕ → Thread → ℕ → Thread
assign threads n t m = if m == n then t else threads m

abbrev pub with_ds : Slots → List Dataset → Slots
with_ds p ds = record p { ds = ds }

module _ (get_epoch_number : ℕ → ℕ) where
  -- One step of a thread. Of notify_epoch: the counter and the first store, the second store, and
  -- the start of the thread. Of dataset_thd_main: the lock; the context, for the epoch read under it;
  -- the last store with the end of the lock. Of hash_thd_main: a job with the number of its block;
  -- a look at one dataset; the end of the search; the shared lock; the second test; the hash.
  pub data Step (s : State) : State → Type 0 where
    clears :
        (epoch : ℕ)
        → s.notifier ≡ idle
        → has_dataset s.slots epoch ≡ false
        → Step s (record s {
          slots = record {
            ds = update s.slots.ds (s.slots.ds_ctr % 2) cleared_dataset;
            ds_ctr = (s.slots.ds_ctr + 1) % 2 ^ 64;
          };
          notifier = cleared (s.slots.ds_ctr % 2) epoch;
        })
    loads :
        (i epoch : ℕ)
        → s.notifier ≡ cleared i epoch
        → Step s (record s {
          slots = with_ds s.slots (update s.slots.ds i (loaded_dataset epoch));
          notifier = loaded i;
        })
    spawns :
        (i n : ℕ)
        → s.notifier ≡ loaded i
        → s.threads n ≡ unborn
        → Step s (record s { threads = assign s.threads n (waiting i); notifier = idle })
    locks :
        (n i : ℕ)
        → s.threads n ≡ waiting i
        → ((m : ℕ) → holds i (s.threads m) ≡ false)
        → Step s (record s { threads = assign s.threads n (locked i) })
    creates :
        (n i : ℕ) (d : Dataset)
        → s.threads n ≡ locked i
        → get_elem? s.slots.ds i ≡ some d
        → Step s (record s {
          slots =
              with_ds s.slots
                (update s.slots.ds i (λ x. record x { dataset_ptr = some d.loaded_epoch }));
          threads = assign s.threads n (created i d.loaded_epoch);
        })
    publishes :
        (n i epoch : ℕ)
        → s.threads n ≡ created i epoch
        → Step s (record s {
          slots = with_ds s.slots (update s.slots.ds i (λ x. record x { ready_epoch = epoch }));
          threads = assign s.threads n over;
        })
    starts :
        (n : ℕ) → s.threads n ≡ unborn → Step s (record s { threads = assign s.threads n popping })
    pops :
        (n block : ℕ)
        → s.threads n ≡ popping
        → Step s (record s { threads = assign s.threads n (searching 0 block) })
    looks :
        (n i block : ℕ) (d : Dataset)
        → s.threads n ≡ searching i block
        → get_elem? s.slots.ds i ≡ some d
        → Step s (record s {
          threads = assign s.threads n (
              if d.ready_epoch == get_epoch_number block
              then found i block
              else searching (i + 1) block);
        })
    misses :
        (n i block : ℕ)
        → s.threads n ≡ searching i block
        → i ≡ length s.slots.ds
        → Step s (record s { threads = assign s.threads n popping })
    shares :
        (n i block : ℕ)
        → s.threads n ≡ found i block
        → ((m : ℕ) → writes i (s.threads m) ≡ false)
        → Step s (record s { threads = assign s.threads n (reading i block) })
    tests :
        (n i block : ℕ) (d : Dataset)
        → s.threads n ≡ reading i block
        → get_elem? s.slots.ds i ≡ some d
        → Step s (record s {
          threads =
              assign s.threads n
                (if d.ready_epoch == get_epoch_number block then hashing i block else popping);
        })
    finishes :
        (n i block : ℕ)
        → s.threads n ≡ hashing i block
        → Step s (record s { threads = assign s.threads n popping })

  pub data Reach : State → Type 0 where
    start : Reach (record { slots = constructed; threads = λ n. unborn; notifier = idle })
    next : {s t : State} → Reach s → Step s t → Reach t
