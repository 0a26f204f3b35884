-- ===== src/RxHashpool/Overlap.antt =====
-- rx_hashpool.cpp, dataset_thd_main: a second calculation for a slot while the first fills its cache.
use epic_poold.Base.{some, ◌==◌, if◌then◌else◌}
use epic_poold.Vector32.{V32, get_id}
use epic_poold.RxHashpool.{Slot, seeded, unlocked, filled, away, reading, hashing, constructed}

module _ (first second : V32) where
  -- The cache was filled from the first seed; the store of the id reads the second one.
  abbrev begun : Slot
  begun = record constructed {
    ds_seed = first;
    loaded_seed_id = get_id first;
    cache = some first;
    writer = filled;
  }

  abbrev stale : Slot
  stale = record begun {
    ds_seed = second;
    ready_seed_id = get_id second;
    caller = seeded second;
    writer = unlocked;
    hashers = λ m.
        if m == 0
        then (if get_id second == get_id second then hashing (get_id second) else away)
        else (if m == 0 then reading (get_id second) else away);
  }
