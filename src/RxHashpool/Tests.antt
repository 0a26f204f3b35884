-- ===== src/RxHashpool/Tests.antt =====
-- Runs of the RandomX pool on concrete seeds.
use epic_poold.Base.{◌==◌, if◌then◌else◌, ◌≡◌, ◌⊎◌, refl, true, some, [], ◌∷◌, arith, replicate}
use epic_poold.Vector32.{V32, get_id, all_zero, all_ones}
use epic_poold.RxHashpool.{
  Slot, unlocked, hashing, reading, away, constructed, clears, seeds, loads, spawns, locks, fills,
  publishes, shares, tests, Reach, start, next, hash_job,
}
use epic_poold.RxHashpool.Caches.{Filled, Busy, Reach-Filled}

abbrev ones : V32
ones = record { bytes = replicate 32 1 }

abbrev twos : V32
twos = record { bytes = replicate 32 2 }

-- The slot is filled for the first seed, and a thread hashes with it.
abbrev used : Slot
used = record constructed {
  ds_seed = all_zero;
  loaded_seed_id = 0;
  ready_seed_id = 0;
  cache = some all_zero;
  hashers = λ m. if m == 0 then hashing 0 else (if m == 0 then reading 0 else away);
}

used-Reach : Reach used
unfolding get_id
used-Reach =
    next
      (next
        (next
          (next
            (next
              (next
                (next (next (next start (clears all_zero refl)) (seeds all_zero refl))
                  (loads all_zero refl))
                (spawns refl))
              (locks 0 refl refl (λ m. refl)))
            (fills refl))
          (publishes refl))
        (shares 0 0 refl refl))
      (tests 0 0 refl)

Reach-Filled_example : (unlocked ≡ unlocked) × (Filled used 0 ⊎ Busy used)
Reach-Filled_example = Reach-Filled 0 0 used-Reach refl (omega arith)

-- A job whose seed has no filled slot is lost.
lost_share :
    hash_job (λ cache blob. all_zero) (constructed ∷ constructed ∷ []) [] 5
    ≡ record { hash = all_ones; error = true }
unfolding hash_job
lost_share = refl
