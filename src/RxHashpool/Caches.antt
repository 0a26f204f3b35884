-- ===== src/RxHashpool/Caches.antt =====
-- rx_hashpool.cpp: the cache that a job is hashed with, in every interleaving of the threads.
use epic_poold.Base.{
  ℕ, ◌<◌, ◌≡◌, ◌≢◌, ◌⊎◌, refl, sym, ◌∙◌, inl, inr, some, ◌==◌, arith, Bool-cases, ==_iff,
}
use epic_poold.Vector32.{V32, get_id}
use epic_poold.RxHashpool.{
  Slot, outside, unlocked, locked, filled, Hasher, away, reading, hashing, move, invalid_id, Step,
  clears, seeds, loads, spawns, locks, fills, publishes, shares, tests, finishes, Reach, start,
  next,
}

-- The cache was filled from a seed with this id.
abbrev pub Filled : Slot → ℕ → Type 0
Filled s id = (seed : V32) × (s.cache ≡ some seed) × (get_id seed ≡ id)

-- A calculation for this slot is under way that has not come to its lock.
abbrev pub Busy : Slot → Type 0
Busy s = (s.caller ≢ outside) ⊎ (0 < s.waiting)

-- What holds in a slot.
record Sound (s : Slot) : Type 0 where
  published : s.writer ≡ unlocked → s.ready_seed_id ≢ invalid_id → Filled s s.ready_seed_id ⊎ Busy s
  fresh : s.writer ≡ filled → (s.cache ≡ some s.ds_seed) ⊎ Busy s
  alone : (n : ℕ) → s.hashers n ≢ away → s.writer ≡ unlocked
  used : (n id : ℕ) → s.hashers n ≡ hashing id → id ≢ invalid_id → Filled s id ⊎ Busy s

hashing-away : {h : Hasher} {id : ℕ} → h ≡ hashing id → h ≢ away
hashing-away e there = let never : away ≡ hashing _ = sym there ∙ e in cc

-- A thread that moves within its lock, or takes one, or gives it up.
moved :
    (s : Slot) (n : ℕ) (to : Hasher)
    → (to ≢ away → s.writer ≡ unlocked)
    → ((id : ℕ) → to ≡ hashing id → id ≢ invalid_id → Filled s id ⊎ Busy s)
    → Sound s
    → Sound (record s { hashers = move s.hashers n to })
moved s n to free full h = record {
  published = h.published;
  fresh = h.fresh;
  alone = λ m there. elim (Bool-cases (m == n)) [
    | inl here ↦ free (rw here at there)
    | inr other ↦ h.alone m (rw other at there)
  ];
  used = λ m id e valid. elim (Bool-cases (m == n)) [
    | inl here ↦ full id (rw here at e) valid
    | inr other ↦ h.used m id (rw other at e) valid
  ];
}

step-Sound : {s t : Slot} → Step s t → Sound s → Sound t
step-Sound {s} (clears seed at) h = record {
  published = λ free valid. absurd (valid refl);
  fresh = λ full. inr (inl (λ e. cc));
  alone = h.alone;
  used = λ n id e valid. inr (inl (λ e. cc));
}
step-Sound {s} (seeds seed at) h = record {
  published = λ free valid. inr (inl (λ e. cc));
  fresh = λ full. inr (inl (λ e. cc));
  alone = h.alone;
  used = λ n id e valid. inr (inl (λ e. cc));
}
step-Sound {s} (loads seed at) h = record {
  published = λ free valid. inr (inl (λ e. cc));
  fresh = λ full. inr (inl (λ e. cc));
  alone = h.alone;
  used = λ n id e valid. inr (inl (λ e. cc));
}
step-Sound {s} (spawns at) h = record {
  published = λ free valid. inr (inr (omega arith));
  fresh = λ full. inr (inr (omega arith));
  alone = h.alone;
  used = λ n id e valid. inr (inr (omega arith));
}
step-Sound {s} (locks n more free empty) h = record {
  published = λ e valid. cc;
  fresh = λ e. cc;
  alone = λ m there. absurd (there (empty m));
  used = λ m id e valid. let never : away ≡ hashing id = sym (empty m) ∙ e in cc;
}
step-Sound {s} (fills at) h = record {
  published = λ e valid. cc;
  fresh = λ e. inl refl;
  alone = λ m there. let never : unlocked ≡ locked = sym (h.alone m there) ∙ at in cc;
  used =
      λ m id e valid. let never : unlocked ≡ locked = sym (h.alone m (hashing-away e)) ∙ at in cc;
}
step-Sound {s} (publishes at) h = record {
  published =
      λ e valid. elim (h.fresh at) [ inl full ↦ inl (s.ds_seed, full, refl) | inr busy ↦ inr busy ];
  fresh = λ e. cc;
  alone = λ m there. refl;
  used = h.used;
}
step-Sound {s} (shares n id at free) h =
    moved s n (reading id) (λ there. free) (λ id' e valid. cc) h
step-Sound {s} (tests n id at) h = elim (Bool-cases (s.ready_seed_id == id)) [
  | inl hit ↦
      let same : s.ready_seed_id ≡ id = (==_iff s.ready_seed_id id).0 hit in
      rw hit (moved s n (hashing id) (λ there. free) (λ id' e valid. ready_for id' same e valid) h)
  | inr miss ↦ rw miss (moved s n away (λ there. absurd (there refl)) (λ id' e valid. cc) h)
]
  where
    free : s.writer ≡ unlocked
    free = h.alone n (λ there. cc)

    ready_for :
        (id' : ℕ)
        → s.ready_seed_id ≡ id
        → hashing id ≡ hashing id'
        → id' ≢ invalid_id
        → Filled s id' ⊎ Busy s
    ready_for id' same e valid =
        let here : id ≡ id' = cc in
        rw (same ∙ here) at
          (h.published free (λ none_ready. valid (sym here ∙ sym same ∙ none_ready)))
step-Sound {s} (finishes n id at) h =
    moved s n away (λ there. absurd (there refl)) (λ id' e valid. cc) h

reach-Sound : {s : Slot} → Reach s → Sound s
reach-Sound start = record {
  published = λ free valid. absurd (valid refl);
  fresh = λ full. cc;
  alone = λ n there. refl;
  used = λ n id e valid. cc;
}
reach-Sound (next run step) = step-Sound step (reach-Sound run)

-- In every interleaving of the thread that begins calculations, the threads that fill caches and those that
-- hash: while a thread hashes for a dataset id, no thread has the slot to write it, and its cache was filled
-- from a seed with this id, unless another calculation for the same slot was begun and has not come to its
-- lock. The id is not invalid_id.
pub Reach-Filled :
    {s : Slot} (n id : ℕ)
    → Reach s
    → s.hashers n ≡ hashing id
    → id ≢ invalid_id
    → (s.writer ≡ unlocked) × (Filled s id ⊎ Busy s)
Reach-Filled n id run at valid =
    let h = reach-Sound run in (h.alone n (hashing-away at), h.used n id at valid)

-- The same for a slot that a thread finds ready for an id while no thread has it to write it.
pub Reach-ready :
    {s : Slot}
    → Reach s
    → s.writer ≡ unlocked
    → s.ready_seed_id ≢ invalid_id
    → Filled s s.ready_seed_id ⊎ Busy s
Reach-ready run free valid = (reach-Sound run).published free valid
