-- ===== src/Client/Hashing.antt =====
-- client.cpp with rx_hashpool.cpp and pp_hashpool.cpp: a submit, and the datasets that its share is checked with.
use epic_poold.Base.{
  ℕ, ◌-◌, ◌*◌, ◌^◌, ◌≡◌, ◌≢◌, refl, sym, ◌∙◌, ap, ◌⊎◌, inl, inr, Bool, true, false, Option, some,
  List, arith, bit_or, leb, length, take, get_elem?,
}
use epic_poold.Codec.Spec.{unhex}
use epic_poold.Vector32.{V32, IsVector, load, get_id, all_ones}
use epic_poold.Client.{
  PowType, randomx, progpow, cuckoo, JobData, CheckJob, Client, check_by_type, check_client_work,
  submit_texts,
}
use epic_poold.Client.Share.{Roomy, spliced, copy_to_end-spliced, Refused, Accepted}
use epic_poold.Client.Submit.{submit_texts-decides}
use mathlib.Core.Path.{subst}
use mathlib.Core.Bool.{false≢true}
use epic_poold.RxHashpool.{Slot}
use epic_poold.RxHashpool.Caches.{Filled, Busy, Reach-ready}
use epic_poold.Vector32.Laws.{get_id_lem}
use epic_poold.RxHashpool as RxHashpool
use epic_poold.PpHashpool.{Dataset}
use epic_poold.PpHashpool.Hashing.{Ethash}
use epic_poold.PpHashpool.Hashing as PpHashing
use epic_poold.Client.Datasets.{
  hash_pools, Hashed, Settled, rx_answers, pp_answers, second_of, spliced_seed, All-elem,
}

module _ (calculate_hash : Option V32 → List ℕ → V32) (ethash : Ethash) (slots : List Slot)
    (ds : List Dataset) where
  -- A job that is served has no error.
  not_lost :
      (answer job : CheckJob)
      → answer ≡ record { hash = all_ones; error = true }
      → answer ≡ job
      → job.error ≢ false
  not_lost answer job lost same served = absurd (
      false≢true (
        sym served
        ∙ ap (λ (j : CheckJob). j.error) (sym same)
        ∙ ap (λ (j : CheckJob). j.error) lost))

  check-Hashed :
      (current : JobData) (writes : ℕ → Bool) (t : PowType) (c checked : Client) (nonce : ℕ)
      (job : CheckJob)
      → Settled calculate_hash ethash slots ds
      → Roomy c.cur_job
      → check_by_type (hash_pools calculate_hash ethash slots ds) current writes t c nonce
        ≡ some (checked, job)
      → job.error ≡ false
      → (Hashed calculate_hash ethash slots ds) t c nonce job.hash
  unfolding check_by_type
  check-Hashed current writes randomx c checked nonce job settled room e served =
      let copied = copy_to_end-spliced c.cur_job 4 nonce room (omega arith) (omega arith) in
      let work = spliced c.cur_job 4 nonce in
      let checks : check_by_type (hash_pools calculate_hash ethash slots ds) current writes randomx
            c nonce
          ≡ some (
            record c { cur_job = work },
            (hash_pools calculate_hash ethash slots ds).rx (take work.prepow_len work.prepow)
                (get_id work.rx_seed),
          ) =
        rw (check_by_type, copied) refl in
      let same : RxHashpool.hash_job calculate_hash slots (take work.prepow_len work.prepow)
            (get_id work.rx_seed)
          ≡ job =
        second_of (sym checks ∙ e) in
      elim ((rx_answers calculate_hash ethash slots ds) (take work.prepow_len work.prepow)
        (get_id work.rx_seed)) [
          | inl lost ↦ absurd (not_lost _ job lost same served)
          | inr (slot, there, ready, hashed) ↦ (
            slot,
            there,
            ready ∙ ap get_id (spliced_seed c.cur_job 4 nonce),
            cached slot there (ready ∙ ap get_id (spliced_seed c.cur_job 4 nonce)),
            ap (λ (j : CheckJob). j.hash) (sym same ∙ hashed),
          )
        ]
    where
      cached :
          (slot : Slot)
          → (i : ℕ) × (get_elem? slots i ≡ some slot)
          → slot.ready_seed_id ≡ get_id c.cur_job.rx_seed
          → Filled slot (get_id c.cur_job.rx_seed) ⊎ Busy slot
      cached slot (i, there) ready =
          let (run, free) =
            All-elem (λ s. RxHashpool.Reach s × (s.writer ≡ RxHashpool.unlocked)) slots i slot there
              settled in
          rw ready at (Reach-ready run free (rw ready (get_id_lem c.cur_job.rx_seed).1))
  check-Hashed current writes progpow c checked nonce job settled room e served =
      let reaches : leb 8 c.cur_job.prepow_len ≡ true = ground (arith, room.reaches) in
      let header : List ℕ = take (c.cur_job.prepow_len - 8) c.cur_job.prepow in
      let total_nonce : ℕ = bit_or (c.extra_nonce * 2 ^ 32) nonce in
      let checks : check_by_type (hash_pools calculate_hash ethash slots ds) current writes progpow
            c nonce
          ≡ some (
            c,
            (hash_pools calculate_hash ethash slots ds).pp header c.cur_job.height total_nonce,
          ) =
        rw (check_by_type, reaches) refl in
      let same : PpHashing.hash_job ethash ds header c.cur_job.height total_nonce ≡ job =
        second_of (sym checks ∙ e) in
      elim ((pp_answers calculate_hash ethash slots ds) header c.cur_job.height total_nonce) [
        | inl lost ↦ absurd (not_lost _ job lost same served)
        | inr (nds, there, ready, hashed) ↦
            (nds, there, ready, ap (λ (j : CheckJob). j.hash) (sym same ∙ hashed))
      ]
  check-Hashed current writes cuckoo c checked nonce job settled room e served =
      not_lost _ job refl (second_of e) served

  module _
      (rx_is_vector : (cache : Option V32) (blob : List ℕ) → IsVector (calculate_hash cache blob))
      (pp_is_vector : (context : Option ℕ) (block : ℕ) (header : V32) (nonce : ℕ)
        → IsVector (ethash.progpow_hash context block header nonce)) where
    rx-IsVector :
        (blob : List ℕ) (id : ℕ)
        → IsVector ((hash_pools calculate_hash ethash slots ds).rx blob id).hash
    rx-IsVector blob id = elim ((rx_answers calculate_hash ethash slots ds) blob id) [
      | inl lost ↦ subst (λ (j : CheckJob). IsVector j.hash) (sym lost) (omega arith)
      | inr (slot, there, ready, hashed) ↦
          subst (λ (j : CheckJob). IsVector j.hash) (sym hashed) (rx_is_vector slot.cache blob)
    ]

    pp-IsVector :
        (blob : List ℕ) (block nonce : ℕ)
        → IsVector ((hash_pools calculate_hash ethash slots ds).pp blob block nonce).hash
    pp-IsVector blob block nonce =
        elim ((pp_answers calculate_hash ethash slots ds) blob block nonce) [
          | inl lost ↦ subst (λ (j : CheckJob). IsVector j.hash) (sym lost) (omega arith)
          | inr (nds, there, ready, hashed) ↦
              subst (λ (j : CheckJob). IsVector j.hash) (sym hashed)
                (pp_is_vector nds.dataset_ptr block (ethash.keccak256 blob) nonce)
        ]

    -- A submit with texts of 8, 8 and 64 characters, for a client whose job has room for its two nonces, is
    -- checked by the hash pools as they stand: it returns, within its buffers, and sends one message. It is
    -- refused with an error, and then nothing goes to the node; or it names the current job, and its hash
    -- is the one of RandomX, with the cache of a slot that is ready for the job's seed, of the job's bytes
    -- with the nonce submitted (this cache was filled from a seed of the same id, unless another calculation
    -- for the slot has begun and not locked it yet), or that of ProgPow, with the context of the job's epoch, and never one for
    -- a job of another kind; it is under the target, and the share goes to the node except when it is
    -- worth 4096 exactly. The slots of RandomX are in runs of their own, and no thread writes them; RandomX
    -- and ProgPow are taken to give 32 bytes.
    pub submit_texts-Hashed :
        (current : JobData) (writes : ℕ → Bool) (c : Client) (call_id : ℕ)
        (s_jobid s_nonce s_result : List ℕ)
        → Settled calculate_hash ethash slots ds
        → Roomy c.cur_job
        → length s_jobid ≡ 8
        → length s_nonce ≡ 8
        → length s_result ≡ 64
        → (c' : Client) × (submit_texts
              (hash_pools calculate_hash ethash slots ds)
              current
              writes
              c
              call_id
              s_jobid
              s_nonce
              s_result
            ≡ some c')
          × (Refused c c' call_id
              ⊎ ((id_bytes nonce_bytes : List ℕ) × (checked : Client) × (job : CheckJob) × (unhex
                      s_jobid
                    ≡ some id_bytes)
                  × (load id_bytes ≡ c.jobid)
                  × (unhex s_nonce ≡ some nonce_bytes)
                  × (Hashed calculate_hash ethash slots ds) c.cur_job.type c
                      (load nonce_bytes)
                      job.hash
                  × Accepted c c' checked call_id (load nonce_bytes) job))
    unfolding check_client_work
    submit_texts-Hashed current writes c call_id s_jobid s_nonce s_result settled room long_id
          long_nonce long_result =
        let (c', e, judged) =
          submit_texts-decides (hash_pools calculate_hash ethash slots ds) current writes
            rx-IsVector pp-IsVector c call_id s_jobid s_nonce s_result room long_id long_nonce
            long_result in
        (
          c',
          e,
          elim judged [
            | inl refusal ↦ inl refusal
            | inr (id_bytes, nonce_bytes, checked, job, ids, same, nonces, checks, accepted) ↦ inr (
              id_bytes,
              nonce_bytes,
              checked,
              job,
              ids,
              same,
              nonces,
              check-Hashed current writes c.cur_job.type c checked (load nonce_bytes) job settled
                  room checks accepted.served,
              accepted,
            )
          ],
        )
