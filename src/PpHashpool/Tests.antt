-- ===== src/PpHashpool/Tests.antt =====
-- A run of the ProgPow hash pool: the context of epoch 0 is made, then a job of block 7 is hashed.
use epic_poold.Base.{
  true, ℕ, zero, suc, ◌-◌, ◌/◌, ◌%◌, ◌^◌, ◌≡◌, ◌≢◌, refl, false, none, some, [], ◌∷◌, ◌==◌, arith,
}
use epic_poold.PpHashpool.{
  Dataset, fresh, Thread, unborn, over, popping, waiting, locked, created, searching, found,
  reading, hashing, idle, State, assign, writes, holds, Reach, start, next, clears, loads, spawns,
  locks, creates, publishes, starts, pops, looks, shares, tests, has_dataset, update,
}
use epic_poold.PpHashpool.Updates.{ContextAt}
use epic_poold.Base.{min, ◌≤◌, ◌<◌}
use epic_poold.PpHashpool.{invalid_epoch, constructed}
use epic_poold.PpHashpool.Loading.{notify_blocks, notify_blocks-Loaded}
use epic_poold.PpHashpool.Safety.{Reach-hashes_with}

-- ethash counts an epoch for 30000 blocks, in an int.
abbrev epoch_of : ℕ → ℕ
epoch_of block = (block / 30000) % 2147483648

epoch_of-valid : (block : ℕ) → epoch_of block ≢ 2 ^ 64 - 1
epoch_of-valid block e = omega arith

abbrev none_yet : ℕ → Thread
none_yet n = unborn

abbrev made : Dataset
made = record { loaded_epoch = 0; ready_epoch = 0; dataset_ptr = some 0 }

abbrev maker : ℕ → Thread
maker = assign (assign (assign (assign none_yet 0 (waiting 0)) 0 (locked 0)) 0 (created 0 0)) 0 over

abbrev hasher : ℕ → Thread
hasher =
    assign
      (assign (assign (assign (assign maker 1 popping) 1 (searching 0 7)) 1 (found 0 7)) 1
        (reading 0 7))
      1 (hashing 0 7)

abbrev final : State
final = record {
  slots = record { ds = made ∷ fresh ∷ []; ds_ctr = 1 };
  threads = hasher;
  notifier = idle;
}

unheld : (m : ℕ) → holds 0 (assign none_yet 0 (waiting 0) m) ≡ false
unheld zero = refl
unheld (suc m) = let other : (suc m == 0) ≡ false = ground arith in rw other refl

unwritten :
    (m : ℕ)
    → writes 0 (assign (assign (assign maker 1 popping) 1 (searching 0 7)) 1 (found 0 7) m) ≡ false
unwritten zero = refl
unwritten (suc zero) = refl
unwritten (suc (suc m)) =
    let maker_not : (suc (suc m) == 0) ≡ false = ground arith in
    let hasher_not : (suc (suc m) == 1) ≡ false = ground arith in rw (hasher_not, maker_not) refl

run : Reach epoch_of final
unfolding has_dataset update
run =
    next
      (next
        (next
          (next
            (next
              (next
                (next
                  (next
                    (next (next (next start (clears 0 refl refl)) (loads 0 0 refl))
                      (spawns 0 0 refl refl))
                    (locks 0 0 refl unheld))
                  (creates 0 0
                    (record { loaded_epoch = 0; ready_epoch = 2 ^ 64 - 1; dataset_ptr = none }) refl
                    refl))
                (publishes 0 0 0 refl))
              (starts 1 refl))
            (pops 1 7 refl))
          (looks 1 0 7 made refl refl))
        (shares 1 0 7 refl unwritten))
      (tests 1 0 7 made refl refl)

Reach-hashes_with_example :
    ContextAt (made ∷ fresh ∷ []) 0 (epoch_of 7) × ((m : ℕ) → writes 0 (hasher m) ≡ false)
Reach-hashes_with_example = Reach-hashes_with epoch_of epoch_of-valid 1 0 7 run refl

abbrev capped_epoch : ℕ → ℕ
capped_epoch block = min (block / 30000) 2147483647

capped_epoch-rises : (a b : ℕ) → a ≤ b → capped_epoch a ≤ capped_epoch b
capped_epoch-rises a b h = omega arith

capped_epoch-valid : (a : ℕ) → capped_epoch a < invalid_epoch
capped_epoch-valid a = omega arith

notify_blocks-Loaded_example :
    let p = notify_blocks capped_epoch constructed (29998 ∷ 29999 ∷ 59999 ∷ []) in
    (has_dataset p 1 ≡ true) × (has_dataset p 2 ≡ true)
notify_blocks-Loaded_example =
    notify_blocks-Loaded capped_epoch capped_epoch-rises capped_epoch-valid 29998
      (29999 ∷ 59999 ∷ []) ((omega arith, (omega arith, tt)))
