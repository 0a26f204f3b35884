-- ===== src/RxHashpool.antt =====
-- rx_hashpool.hpp, rx_hashpool.cpp: the RandomX caches of two seeds, the threads that fill them and the
-- threads that hash with them. A cache is named by the seed that it was filled from; what RandomX
-- computes is not modelled. Each store, lock and test is a step.
pub mod Caches
pub mod Overlap
pub mod Seeds
pub mod Tests
use epic_poold.Base.{
  ℕ, zero, suc, ◌+◌, ◌-◌, ◌%◌, ◌^◌, ◌≡◌, ◌≢◌, Bool, true, false, ◌||◌, Option, none, some, List, [],
  ◌∷◌, ◌==◌, if◌then◌else◌, get_elem?, set, length,
}
use epic_poold.Vector32.{V32, get_id, all_zero, all_ones}
use epic_poold.Client.{CheckJob}

abbrev pub invalid_id : ℕ
invalid_id = 2 ^ 64 - 1

-- Where the caller of calculate_dataset stands: outside, or behind the store of the ready id, of the seed,
-- or of the loaded id.
pub data Caller : Type 0 where
  outside : Caller
  cleared seeded : V32 → Caller
  loaded : Caller

-- The lock of a slot: no dataset thread has it, or one has, before or after it fills the cache.
pub data Writer : Type 0 where
  unlocked locked filled : Writer

-- A hashing thread, by the id of the dataset of its job: not in the slot, in it under the shared lock, or
-- behind the second test.
pub data Hasher : Type 0 where
  away : Hasher
  reading hashing : ℕ → Hasher

-- An rx_dataset; `waiting` counts the dataset threads that were started for it and have no lock yet.
pub record Slot : Type 0 where
  pub ds_seed : V32
  pub loaded_seed_id : ℕ
  pub ready_seed_id : ℕ
  pub cache : Option V32
  pub caller : Caller
  pub waiting : ℕ
  pub writer : Writer
  pub hashers : ℕ → Hasher

abbrev pub constructed : Slot
constructed = record {
  ds_seed = all_zero;
  loaded_seed_id = invalid_id;
  ready_seed_id = invalid_id;
  cache = none;
  caller = outside;
  waiting = 0;
  writer = unlocked;
  hashers = λ n. away;
}

abbrev pub move : (ℕ → Hasher) → ℕ → Hasher → ℕ → Hasher
move hashers n h m = if m == n then h else hashers m

-- One step in a slot. Of calculate_dataset: its three stores and the start of the thread. Of
-- dataset_thd_main: the lock, which waits for every other holder; the cache; the last store with the end of
-- the lock. Of hash_thd_main: the shared lock; the test behind it; the end of the lock. Its search before the
-- lock promises nothing about the slot, so that a thread may enter any.
pub data Step (s : Slot) : Slot → Type 0 where
  clears :
      (seed : V32)
      → s.caller ≡ outside
      → Step s (record s { ready_seed_id = invalid_id; caller = cleared seed })
  seeds :
      (seed : V32)
      → s.caller ≡ cleared seed
      → Step s (record s { ds_seed = seed; caller = seeded seed })
  loads :
      (seed : V32)
      → s.caller ≡ seeded seed
      → Step s (record s { loaded_seed_id = get_id seed; caller = loaded })
  spawns : s.caller ≡ loaded → Step s (record s { waiting = suc s.waiting; caller = outside })
  locks :
      (n : ℕ)
      → s.waiting ≡ suc n
      → s.writer ≡ unlocked
      → ((m : ℕ) → s.hashers m ≡ away)
      → Step s (record s { waiting = n; writer = locked })
  fills : s.writer ≡ locked → Step s (record s { cache = some s.ds_seed; writer = filled })
  publishes :
      s.writer ≡ filled → Step s (record s { ready_seed_id = get_id s.ds_seed; writer = unlocked })
  shares :
      (n id : ℕ)
      → s.hashers n ≡ away
      → s.writer ≡ unlocked
      → Step s (record s { hashers = move s.hashers n (reading id) })
  tests :
      (n id : ℕ)
      → s.hashers n ≡ reading id
      → Step s (record s {
        hashers = move s.hashers n (if s.ready_seed_id == id then hashing id else away);
      })
  finishes :
      (n id : ℕ) → s.hashers n ≡ hashing id → Step s (record s { hashers = move s.hashers n away })

-- What a slot of the pool may be.
pub data Reach : Slot → Type 0 where
  start : Reach constructed
  next : {s t : Slot} → Reach s → Step s t → Reach t

-- The array of two slots with its counter, a size_t.
pub record Pool : Type 0 where
  pub ds : List Slot
  pub ds_ctr : ℕ

unfoldable pub has_loaded_seed : List Slot → ℕ → Bool
has_loaded_seed [] ndl = false
has_loaded_seed (hay ∷ ds) ndl = (ndl == hay.loaded_seed_id) || has_loaded_seed ds ndl

unfoldable pub has_seed : Pool → ℕ → Bool
unfolding has_loaded_seed
has_seed p ndl = has_loaded_seed p.ds ndl

-- calculate_dataset in whole, when no other thread runs: its stores in a slot, with the thread started.
abbrev pub begun : Slot → V32 → Slot
begun slot dataset_seed = record slot {
  ready_seed_id = invalid_id;
  ds_seed = dataset_seed;
  loaded_seed_id = get_id dataset_seed;
  waiting = suc slot.waiting;
}

abbrev pub begin_at : List Slot → ℕ → V32 → List Slot
begin_at [] i dataset_seed = []
begin_at (slot ∷ ds) zero dataset_seed = begun slot dataset_seed ∷ ds
begin_at (slot ∷ ds) (suc i) dataset_seed = slot ∷ begin_at ds i dataset_seed

unfoldable pub begin_seed : Pool → V32 → Pool
begin_seed p dataset_seed = record {
  ds = begin_at p.ds (p.ds_ctr % length p.ds) dataset_seed;
  ds_ctr = (p.ds_ctr + 1) % 2 ^ 64;
}

unfoldable pub find_ready : List Slot → ℕ → Option Slot
find_ready [] dataset_id = none
find_ready (slot ∷ ds) dataset_id =
    let later = find_ready ds dataset_id in
    if slot.ready_seed_id == dataset_id then some slot else later

-- A round of hash_thd_main in whole, when no other thread runs; `calculate_hash` is RandomX with a cache.
unfoldable pub hash_job : (Option V32 → List ℕ → V32) → List Slot → List ℕ → ℕ → CheckJob
unfolding find_ready
hash_job calculate_hash ds blob dataset_id = elim (find_ready ds dataset_id) [
  | none ↦ record { hash = all_ones; error = true }
  | some nds ↦
      if nds.ready_seed_id == dataset_id
      then record { hash = calculate_hash nds.cache blob; error = false }
      else record { hash = all_ones; error = true }
]
