-- ===== src/Client/Submit.antt =====
-- process_method_submit in client.cpp: what becomes of a share.
use epic_poold.Base.{
  ℕ, ◌≡◌, refl, ◌⊎◌, inl, inr, Bool, true, some, List, [], ◌∷◌, ◌++◌, arith, ◌==◌, length, drop,
  replicate, Bool-cases, ==_iff, length-drop,
}
use epic_poold.Codec.{hex2bin}
use epic_poold.Codec.Spec.{unhex}
use epic_poold.Vector32.{IsVector, load}
use epic_poold.Client.{
  JobData, CheckJob, HashPools, ErrorText, error_response, Client, net_send, send_error_response,
  check_client_work, judge_share, submit_texts, stale_job_id, invalid_jobid, invalid_nonce,
  invalid_result,
}
use epic_poold.Client.Share.{
  ReadsHex, reads_hex, Roomy, Checks, checks, Refused, Accepted, judge_share-decides,
}

module _ (pools : HashPools) (current : JobData) (writes : ℕ → Bool)
    (rx-IsVector : (blob : List ℕ) (id : ℕ) → IsVector (pools.rx blob id).hash)
    (pp-IsVector : (blob : List ℕ) (block nonce : ℕ)
      → IsVector (pools.pp blob block nonce).hash) where
  -- What a submit leaves: a refusal, or a share that names the client's job, whose check succeeded.
  abbrev pub Judged : Client → ℕ → List ℕ → List ℕ → Client → Type 0
  Judged c call_id s_jobid s_nonce c' =
      Refused c c' call_id
      ⊎ ((id_bytes nonce_bytes : List ℕ) × (checked : Client) × (job : CheckJob) × (unhex s_jobid
            ≡ some id_bytes)
          × (load id_bytes ≡ c.jobid)
          × (unhex s_nonce ≡ some nonce_bytes)
          × (check_client_work pools current writes c (load nonce_bytes) ≡ some (checked, job))
          × Accepted c c' checked call_id (load nonce_bytes) job)

  -- A submit with texts of 8, 8 and 64 characters, for a client whose job has room for its two nonces,
  -- returns, within its buffers, and sends one message. It is refused with an error, and then nothing goes to the node; or it names the current
  -- job, the hash pools found a hash for its nonce without an error, the first 32 bits of this hash
  -- are at most 2^20 - 1, so that it is worth a difficulty of at least 4096, and the share goes to the
  -- node except when its difficulty is 4096 exactly. The pools are taken to leave 32 bytes.
  pub submit_texts-decides :
      (c : Client) (call_id : ℕ) (s_jobid s_nonce s_result : List ℕ)
      → Roomy c.cur_job
      → length s_jobid ≡ 8
      → length s_nonce ≡ 8
      → length s_result ≡ 64
      → (c' : Client) × (submit_texts pools current writes c call_id s_jobid s_nonce s_result
          ≡ some c')
        × Judged c call_id s_jobid s_nonce c'
  unfolding submit_texts send_error_response net_send check_client_work
  submit_texts-decides c call_id s_jobid s_nonce s_result room long_id long_nonce long_result =
      by_id (reads_hex s_jobid 4 long_id)
    where
      Goal : Type 0
      Goal =
          (c' : Client) × (submit_texts pools current writes c call_id s_jobid s_nonce s_result
            ≡ some c')
          × Judged c call_id s_jobid s_nonce c'

      refusal :
          (why : ErrorText)
          → Refused c (net_send pools current writes c (error_response call_id why)) call_id
      refusal why = record { why = why; told = refl; kept = refl }

      by_work :
          (id_bytes nonce_bytes result_bytes : List ℕ)
          → (unhex s_jobid ≡ some id_bytes)
            × (hex2bin (s_jobid ++ 0 ∷ []) 8 (replicate 4 0) ≡ some (true, id_bytes))
          → (unhex s_nonce ≡ some nonce_bytes)
            × (hex2bin (s_nonce ++ 0 ∷ []) 8 (replicate 4 0) ≡ some (true, nonce_bytes))
          → (hex2bin (drop 48 s_result ++ 0 ∷ []) 16 (replicate 8 0) ≡ some (true, result_bytes))
          → (load id_bytes == c.jobid) ≡ true
          → Checks c (check_client_work pools current writes c (load nonce_bytes))
          → Goal
      by_work id_bytes nonce_bytes result_bytes (hi, ri) (hn, rn) rr same
            (checked, job, e, es, er, _, vector) =
          (
            judge_share pools current writes checked call_id (load nonce_bytes) job,
            rw (ri, rn, rr, same, e) refl,
            by_share (
                judge_share-decides pools current writes rx-IsVector pp-IsVector c checked call_id
                  (load nonce_bytes) job es er vector),
          )
        where
          by_share :
              Refused c
                  (judge_share pools current writes checked call_id (load nonce_bytes) job)
                  call_id
                ⊎ Accepted c
                    (judge_share pools current writes checked call_id (load nonce_bytes) job)
                    checked
                    call_id
                    (load nonce_bytes)
                    job
              → Judged c call_id s_jobid s_nonce
                  (judge_share pools current writes checked call_id (load nonce_bytes) job)
          by_share (inl refused) = inl refused
          by_share (inr accepted) = inr (
            id_bytes,
            nonce_bytes,
            checked,
            job,
            hi,
            (==_iff (load id_bytes) c.jobid).0 same,
            hn,
            e,
            accepted,
          )

      by_result :
          (id_bytes nonce_bytes : List ℕ)
          → (unhex s_jobid ≡ some id_bytes)
            × (hex2bin (s_jobid ++ 0 ∷ []) 8 (replicate 4 0) ≡ some (true, id_bytes))
          → (unhex s_nonce ≡ some nonce_bytes)
            × (hex2bin (s_nonce ++ 0 ∷ []) 8 (replicate 4 0) ≡ some (true, nonce_bytes))
          → ReadsHex (drop 48 s_result) 8
          → Goal
      by_result id_bytes nonce_bytes (hi, ri) (hn, rn) (inr (out, _, rr)) =
          (_, rw (ri, rn, rr) refl, inl (refusal invalid_result))
      by_result id_bytes nonce_bytes (hi, ri) (hn, rn) (inl (result_bytes, _, rr)) =
          elim (Bool-cases (load id_bytes == c.jobid)) [
            | inl same ↦
                by_work id_bytes nonce_bytes result_bytes (hi, ri) (hn, rn) rr same
                  (checks pools current writes rx-IsVector pp-IsVector c.cur_job.type c
                    (load nonce_bytes) room)
            | inr stale ↦ (_, rw (ri, rn, rr, stale) refl, inl (refusal stale_job_id))
          ]

      by_nonce :
          (id_bytes : List ℕ)
          → (unhex s_jobid ≡ some id_bytes)
            × (hex2bin (s_jobid ++ 0 ∷ []) 8 (replicate 4 0) ≡ some (true, id_bytes))
          → ReadsHex s_nonce 4
          → Goal
      by_nonce id_bytes (hi, ri) (inr (out, _, rn)) =
          (_, rw (ri, rn) refl, inl (refusal invalid_nonce))
      by_nonce id_bytes (hi, ri) (inl (nonce_bytes, hn, rn)) =
          by_result id_bytes nonce_bytes (hi, ri) (hn, rn)
            (reads_hex (drop 48 s_result) 8 (omega (arith, length-drop 48 s_result)))

      by_id : ReadsHex s_jobid 4 → Goal
      by_id (inr (out, _, ri)) = (_, rw ri refl, inl (refusal invalid_jobid))
      by_id (inl (id_bytes, hi, ri)) = by_nonce id_bytes (hi, ri) (reads_hex s_nonce 4 long_nonce)
