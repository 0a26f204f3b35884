-- ===== src/Client/Datasets.antt =====
-- rx_hashpool.cpp and pp_hashpool.cpp, as the clients use them: the dataset that a job is answered with.
use epic_poold.Base.{
  ℕ, ◌-◌, ◌*◌, ◌^◌, ◌≡◌, refl, sym, ◌∙◌, ap, ◌⊎◌, inl, inr, Bool, true, false, Option, some, List,
  [], ◌∷◌, arith, bit_or, ◌==◌, take, get_elem?, if◌then◌else◌, Option-cases, ==_iff, suc,
}
use epic_poold.Vector32.{V32, get_id, all_ones}
use epic_poold.Client.{PowType, randomx, progpow, cuckoo, JobData, HashPools, Client}
use epic_poold.Client.Share.{spliced}
use epic_poold.RxHashpool.{Slot}
use epic_poold.RxHashpool.Caches.{Filled, Busy}
use epic_poold.Base.{zero, All}
use epic_poold.RxHashpool as RxHashpool
use epic_poold.PpHashpool.{Dataset}
use epic_poold.PpHashpool.Hashing.{Ethash}
use epic_poold.PpHashpool.Hashing as PpHashing

pub All-elem :
    {A : Type 0} (holds : A → Type 0) (xs : List A) (i : ℕ) (x : A)
    → get_elem? xs i ≡ some x
    → All holds xs
    → holds x
All-elem holds [] i x e all = cc
All-elem holds (y ∷ xs) zero x e (here, later) = let same : y ≡ x = cc in rw same at here
All-elem holds (y ∷ xs) (suc i) x e (here, later) = All-elem holds xs i x e later

first_or {ℓ} :
    {A : Type ℓ} (b : Bool) (first found : A) (later : Option A)
    → (if b then some first else later) ≡ some found
    → ((b ≡ true) × (first ≡ found)) ⊎ (later ≡ some found)
first_or true first found later e = inl (refl, cc)
first_or false first found later e = inr e

rx-find_ready :
    (slots : List Slot) (id : ℕ) (slot : Slot)
    → RxHashpool.find_ready slots id ≡ some slot
    → ((i : ℕ) × (get_elem? slots i ≡ some slot)) × (slot.ready_seed_id ≡ id)
unfolding RxHashpool.find_ready
rx-find_ready [] id slot e = cc
rx-find_ready (first ∷ slots) id slot e =
    elim (first_or (first.ready_seed_id == id) first slot (RxHashpool.find_ready slots id) e) [
      | inl (ready, same) ↦ (
        (0, ap (λ x. some x) same),
        ap (λ (x : Slot). x.ready_seed_id) (sym same) ∙ (==_iff first.ready_seed_id id).0 ready,
      )
      | inr later ↦
          let ((i, there), ready) = rx-find_ready slots id slot later in ((suc i, there), ready)
    ]

pp-find_ready :
    (ds : List Dataset) (epoch : ℕ) (nds : Dataset)
    → PpHashing.find_ready ds epoch ≡ some nds
    → ((i : ℕ) × (get_elem? ds i ≡ some nds)) × (nds.ready_epoch ≡ epoch)
unfolding PpHashing.find_ready
pp-find_ready [] epoch nds e = cc
pp-find_ready (first ∷ ds) epoch nds e =
    elim (first_or (first.ready_epoch == epoch) first nds (PpHashing.find_ready ds epoch) e) [
      | inl (ready, same) ↦ (
        (0, ap (λ x. some x) same),
        ap (λ (x : Dataset). x.ready_epoch) (sym same) ∙ (==_iff first.ready_epoch epoch).0 ready,
      )
      | inr later ↦
          let ((i, there), ready) = pp-find_ready ds epoch nds later in ((suc i, there), ready)
    ]

pub spliced_seed : (job : JobData) (back x : ℕ) → (spliced job back x).rx_seed ≡ job.rx_seed
unfolding spliced
spliced_seed job back x = refl

pub second_of : {A B : Type 0} {p q : A × B} → some p ≡ some q → p.1 ≡ q.1
second_of {p = p} {q = q} e = let same : p ≡ q = cc in ap (λ r. r.1) same

module _ (calculate_hash : Option V32 → List ℕ → V32) (ethash : Ethash) (slots : List Slot)
    (ds : List Dataset) where
  -- The two hash pools, as they answer a job.
  abbrev pub hash_pools : HashPools
  hash_pools = record {
    rx = λ blob id. RxHashpool.hash_job calculate_hash slots blob id;
    pp = λ blob block nonce. PpHashing.hash_job ethash ds blob block nonce;
  }

  -- The slots as the threads of the pool may leave them, while none of them writes.
  abbrev pub Settled : Type 0
  Settled = All (λ s. RxHashpool.Reach s × (s.writer ≡ RxHashpool.unlocked)) slots

  -- What the hash of a job without an error is, by the kind of the client's job.
  abbrev pub Hashed : PowType → Client → ℕ → V32 → Type 0
  Hashed randomx c nonce hash =
      let job = spliced c.cur_job 4 nonce in
      (slot : Slot) × ((i : ℕ) × (get_elem? slots i ≡ some slot))
      × (slot.ready_seed_id ≡ get_id c.cur_job.rx_seed)
      × (Filled slot (get_id c.cur_job.rx_seed) ⊎ Busy slot)
      × (hash ≡ calculate_hash slot.cache (take job.prepow_len job.prepow))
  Hashed progpow c nonce hash =
      let epoch = ethash.get_epoch_number c.cur_job.height in
      let header = ethash.keccak256 (take (c.cur_job.prepow_len - 8) c.cur_job.prepow) in
      (nds : Dataset) × ((i : ℕ) × (get_elem? ds i ≡ some nds))
      × (nds.ready_epoch ≡ epoch)
      × (hash
          ≡ ethash.progpow_hash nds.dataset_ptr c.cur_job.height header
              (bit_or (c.extra_nonce * 2 ^ 32) nonce))
  Hashed cuckoo c nonce hash = ⊥

  pub rx_answers :
      (blob : List ℕ) (id : ℕ)
      → (RxHashpool.hash_job calculate_hash slots blob id
          ≡ record { hash = all_ones; error = true })
        ⊎ ((slot : Slot) × ((i : ℕ) × (get_elem? slots i ≡ some slot))
            × (slot.ready_seed_id ≡ id)
            × (RxHashpool.hash_job calculate_hash slots blob id
                ≡ record { hash = calculate_hash slot.cache blob; error = false }))
  unfolding RxHashpool.hash_job
  rx_answers blob id = elim (Option-cases (RxHashpool.find_ready slots id)) [
    | inl missing ↦ inl (rw (RxHashpool.hash_job, missing) refl)
    | inr (slot, found) ↦
        let (there, ready) = rx-find_ready slots id slot found in
        let again : (slot.ready_seed_id == id) ≡ true = ground (arith, ready) in
        inr (slot, there, ready, rw (RxHashpool.hash_job, found, again) refl)
  ]

  pub pp_answers :
      (blob : List ℕ) (block nonce : ℕ)
      → (PpHashing.hash_job ethash ds blob block nonce ≡ record { hash = all_ones; error = true })
        ⊎ ((nds : Dataset) × ((i : ℕ) × (get_elem? ds i ≡ some nds))
            × (nds.ready_epoch ≡ ethash.get_epoch_number block)
            × (PpHashing.hash_job ethash ds blob block nonce ≡ record {
              hash = ethash.progpow_hash nds.dataset_ptr block (ethash.keccak256 blob) nonce;
              error = false;
            }))
  unfolding PpHashing.hash_job
  pp_answers blob block nonce =
      elim (Option-cases (PpHashing.find_ready ds (ethash.get_epoch_number block))) [
        | inl missing ↦ inl (rw (PpHashing.hash_job, missing) refl)
        | inr (nds, found) ↦
            let (there, ready) = pp-find_ready ds (ethash.get_epoch_number block) nds found in
            let again : (nds.ready_epoch == ethash.get_epoch_number block) ≡ true =
              ground (arith, ready) in
            inr (nds, there, ready, rw (PpHashing.hash_job, found, again) refl)
      ]
