-- ===== src/PpHashpool/Loading.antt =====
-- notify_block in pp_hashpool.hpp: which epochs are loaded when the blocks' numbers do not go back.
use epic_poold.Base.{
  ℕ, ◌+◌, ◌%◌, ◌^◌, ◌≤◌, ◌<◌, ◌≡◌, ◌≢◌, refl, sym, ◌∙◌, ap, true, false, List, [], ◌∷◌, ◌==◌,
  if◌then◌else◌, inl, inr, ◌⊎◌, Bool-cases, ==_iff, arith,
}
use epic_poold.PpHashpool.{
  fresh, invalid_epoch, Dataset, Slots, constructed, has_loaded, has_dataset, update,
  cleared_dataset, loaded_dataset,
}

-- notify_epoch without the thread that it starts; its steps are those of a Notifier, one behind the other.
unfoldable pub notify_epoch : Slots → ℕ → Slots
unfolding has_dataset update
notify_epoch p epoch = if has_dataset p epoch then p else record {
  ds = update (update p.ds (p.ds_ctr % 2) cleared_dataset) (p.ds_ctr % 2) (loaded_dataset epoch);
  ds_ctr = (p.ds_ctr + 1) % 2 ^ 64;
}

module _ (get_epoch_number : ℕ → ℕ) where
  unfoldable pub notify_block : Slots → ℕ → Slots
  unfolding notify_epoch
  notify_block p block =
      notify_epoch (notify_epoch p (get_epoch_number block)) (get_epoch_number (block + 1))

  pub notify_blocks : Slots → List ℕ → Slots
  unfolding notify_block
  notify_blocks p [] = p
  notify_blocks p (block ∷ blocks) = notify_blocks (notify_block p block) blocks

-- The epochs of the two datasets: the one loaded last, and the other, which is the next to go.
data Epochs : Slots → ℕ → ℕ → Type 0 where
  even :
      (a b : Dataset) (k : ℕ)
      → k % 2 ≡ 0
      → Epochs (record { ds = a ∷ b ∷ []; ds_ctr = k }) b.loaded_epoch a.loaded_epoch
  odd :
      (a b : Dataset) (k : ℕ)
      → k % 2 ≡ 1
      → Epochs (record { ds = a ∷ b ∷ []; ds_ctr = k }) a.loaded_epoch b.loaded_epoch

differs : (x y : ℕ) → (x == y) ≡ false → x ≢ y
differs x y e h = absurd (ground arith)

-- What notify_epoch makes of them: an epoch that is loaded stays, another takes the place of the oldest.
abbrev Notified : Slots → ℕ → ℕ → ℕ → Type 0
Notified p epoch newest oldest =
    (((epoch ≡ newest) ⊎ (epoch ≡ oldest)) × Epochs p newest oldest)
    ⊎ ((epoch ≢ newest) × (epoch ≢ oldest) × Epochs p epoch newest)

notify_epoch-Notified :
    {p : Slots} {newest oldest : ℕ} (epoch : ℕ)
    → Epochs p newest oldest
    → Notified (notify_epoch p epoch) epoch newest oldest
unfolding notify_epoch has_dataset has_loaded update
notify_epoch-Notified epoch (even a b k par) = elim (Bool-cases (epoch == a.loaded_epoch)) [
  | inl is_a ↦ rw is_a (inl (inr ((==_iff epoch a.loaded_epoch).0 is_a), even a b k par))
  | inr not_a ↦ elim (Bool-cases (epoch == b.loaded_epoch)) [
    | inl is_b ↦ rw (not_a, is_b) (inl (inl ((==_iff epoch b.loaded_epoch).0 is_b), even a b k par))
    | inr not_b ↦
        rw (not_a, not_b, par)
          (inr (
            differs epoch b.loaded_epoch not_b,
            differs epoch a.loaded_epoch not_a,
            odd (loaded_dataset epoch (cleared_dataset a)) b ((k + 1) % 2 ^ 64) (omega arith),
          ))
  ]
]
notify_epoch-Notified epoch (odd a b k par) = elim (Bool-cases (epoch == a.loaded_epoch)) [
  | inl is_a ↦ rw is_a (inl (inl ((==_iff epoch a.loaded_epoch).0 is_a), odd a b k par))
  | inr not_a ↦ elim (Bool-cases (epoch == b.loaded_epoch)) [
    | inl is_b ↦ rw (not_a, is_b) (inl (inr ((==_iff epoch b.loaded_epoch).0 is_b), odd a b k par))
    | inr not_b ↦
        rw (not_a, not_b, par)
          (inr (
            differs epoch a.loaded_epoch not_a,
            differs epoch b.loaded_epoch not_b,
            even a (loaded_dataset epoch (cleared_dataset b)) ((k + 1) % 2 ^ 64) (omega arith),
          ))
  ]
]

present :
    {p : Slots} {newest oldest : ℕ} (epoch : ℕ)
    → Epochs p newest oldest
    → (epoch ≡ newest) ⊎ (epoch ≡ oldest)
    → has_dataset p epoch ≡ true
unfolding has_dataset has_loaded
present epoch (even a b k par) is_one = ground arith
present epoch (odd a b k par) is_one = ground arith

-- The numbers of the blocks do not go back.
abbrev pub Rising : ℕ → List ℕ → Type 0
Rising block [] = Unit
Rising block (later ∷ blocks) = (block ≤ later) × Rising later blocks

abbrev pub last_block : ℕ → List ℕ → ℕ
last_block block [] = block
last_block block (later ∷ blocks) = last_block later blocks

module _ (get_epoch_number : ℕ → ℕ)
    (rises : (a b : ℕ) → a ≤ b → get_epoch_number a ≤ get_epoch_number b)
    (valid : (a : ℕ) → get_epoch_number a < invalid_epoch) where
  -- The state behind the notification of a block.
  record Behind (p : Slots) (block : ℕ) : Type 0 where
    pub newest : ℕ
    pub oldest : ℕ
    pub epochs : Epochs p newest oldest
    pub next_loaded : newest ≡ get_epoch_number (block + 1)
    pub own_loaded : (get_epoch_number block ≡ newest) ⊎ (get_epoch_number block ≡ oldest)
    pub ordered : (oldest ≤ newest) ⊎ (oldest ≡ invalid_epoch)

  first_block : (block : ℕ) → Behind (notify_block get_epoch_number constructed block) block
  unfolding notify_block
  first_block block =
      by_own (notify_epoch-Notified (get_epoch_number block) (even fresh fresh 0 refl))
    where
      p : Slots
      p = notify_epoch constructed (get_epoch_number block)

      up : get_epoch_number block ≤ get_epoch_number (block + 1)
      up = rises block (block + 1) (omega arith)

      by_next :
          Notified
            (notify_epoch p (get_epoch_number (block + 1)))
            (get_epoch_number (block + 1))
            (get_epoch_number block)
            invalid_epoch
          → Behind (notify_epoch p (get_epoch_number (block + 1))) block
      by_next (inl (one, e)) = record {
        newest = get_epoch_number block;
        oldest = invalid_epoch;
        epochs = e;
        next_loaded = ground (arith, valid (block + 1));
        own_loaded = inl refl;
        ordered = inr refl;
      }
      by_next (inr (_, _, e)) = record {
        newest = get_epoch_number (block + 1);
        oldest = get_epoch_number block;
        epochs = e;
        next_loaded = refl;
        own_loaded = inr refl;
        ordered = inl up;
      }

      by_own :
          Notified p (get_epoch_number block) invalid_epoch invalid_epoch
          → Behind (notify_epoch p (get_epoch_number (block + 1))) block
      by_own (inl (one, e)) = absurd (ground (arith, valid block))
      by_own (inr (_, _, e)) = by_next (notify_epoch-Notified (get_epoch_number (block + 1)) e)

  later_block :
      (p : Slots) (block later : ℕ)
      → block ≤ later
      → Behind p block
      → Behind (notify_block get_epoch_number p later) later
  unfolding notify_block
  later_block p block later up v = by_own (notify_epoch-Notified own v.epochs)
    where
      own : ℕ
      own = get_epoch_number later

      following : ℕ
      following = get_epoch_number (later + 1)

      -- The epoch is the one of the block before, or has reached its next one.
      reached : ((own ≡ get_epoch_number block) × (following ≡ v.newest)) ⊎ (v.newest ≤ own)
      reached = elim (Bool-cases (block == later)) [
        | inl same ↦
            let here : block ≡ later = (==_iff block later).0 same in
            inl (
              ap get_epoch_number (sym here),
              ap (λ k. get_epoch_number (k + 1)) (sym here) ∙ sym v.next_loaded,
            )
        | inr apart ↦ inr (omega (arith, rises (block + 1) later (ground arith), v.next_loaded))
      ]

      on : own ≤ following
      on = rises later (later + 1) (omega arith)

      by_next :
          (p' : Slots) (newest oldest : ℕ)
          → (own ≡ newest) ⊎ (own ≡ oldest)
          → (oldest ≤ newest) ⊎ (oldest ≡ invalid_epoch)
          → ((following ≡ newest) ⊎ (following ≡ oldest) → newest ≡ following)
          → (following ≢ newest → own ≡ newest)
          → Notified (notify_epoch p' following) following newest oldest
          → Behind (notify_epoch p' following) later
      by_next p' newest oldest one ordered hit miss (inl (there, e)) = record {
        newest = newest;
        oldest = oldest;
        epochs = e;
        next_loaded = hit there;
        own_loaded = one;
        ordered = ordered;
      }
      by_next p' newest oldest one ordered hit miss (inr (absent, _, e)) = record {
        newest = following;
        oldest = newest;
        epochs = e;
        next_loaded = refl;
        own_loaded = inr (miss absent);
        ordered = inl (omega (arith, miss absent, on));
      }

      by_own :
          Notified (notify_epoch p own) own v.newest v.oldest
          → Behind (notify_epoch (notify_epoch p own) following) later
      by_own (inl (one, e)) =
          by_next (notify_epoch p own) v.newest v.oldest one v.ordered
            (λ there. ground (arith, reached, on, valid (later + 1), v.ordered))
            (λ absent. ground (arith, reached, valid later, v.ordered, absent, one))
            (notify_epoch-Notified following e)
      by_own (inr (absent, elsewhere, e)) =
          let above : v.newest ≤ own = ground (arith, reached, v.own_loaded, absent, elsewhere) in
          by_next (notify_epoch p own) own v.newest (inl refl) (inl above)
            (λ there. ground (arith, on)) (λ gone. refl) (notify_epoch-Notified following e)

  follow :
      (blocks : List ℕ) (p : Slots) (block : ℕ)
      → Rising block blocks
      → Behind p block
      → Behind (notify_blocks get_epoch_number p blocks) (last_block block blocks)
  unfolding notify_blocks
  follow [] p block rising v = v
  follow (later ∷ blocks) p block rising v =
      follow blocks (notify_block get_epoch_number p later) later rising.1
        (later_block p block later rising.0 v)

  -- When blocks are announced whose numbers do not go back, then after each of them the epoch of this
  -- block and the epoch of the one after it are both loaded: the second never takes the place of the
  -- first. Epochs are taken not to fall, and to be below invalid_epoch.
  pub notify_blocks-Loaded :
      (block : ℕ) (blocks : List ℕ)
      → Rising block blocks
      → let p = notify_blocks get_epoch_number constructed (block ∷ blocks) in
        (has_dataset p (get_epoch_number (last_block block blocks)) ≡ true)
        × (has_dataset p (get_epoch_number (last_block block blocks + 1)) ≡ true)
  unfolding notify_blocks
  notify_blocks-Loaded block blocks rising =
      let v =
        follow blocks (notify_block get_epoch_number constructed block) block rising
          (first_block block) in
      (present _ v.epochs v.own_loaded, present _ v.epochs (inl (sym v.next_loaded)))
