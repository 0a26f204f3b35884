-- ===== src/Client/Request.antt =====
-- process_method_submit in client.cpp, with the arguments as they come from the miner.
use epic_poold.Base.{
  ℕ, ◌≡◌, refl, ◌⊎◌, inl, inr, Bool, true, false, Option, none, some, List, ◌==◌, length, codes,
  Bool-cases, ==_iff,
}
use epic_poold.Vector32.{IsVector}
use epic_poold.Client.{
  JobData, HashPools, Json, Client, malformed_submit, send_error_response, net_send,
}
use epic_poold.Client.Line.{string_member, submit_checked, process_method_submit}
use epic_poold.Client.Share.{Roomy, Refused}
use epic_poold.Client.Submit.{Judged, submit_texts-decides}

module _ {V : Type 0} (json : Json V) (pools : HashPools) (current : JobData) (writes : ℕ → Bool)
    (rx-IsVector : (blob : List ℕ) (id : ℕ) → IsVector (pools.rx blob id).hash)
    (pp-IsVector : (blob : List ℕ) (block word : ℕ)
      → IsVector (pools.pp blob block word).hash) where
  -- A request that is refused, or one whose texts are judged.
  abbrev pub Answered : Client → ℕ → Option (List ℕ) → Option (List ℕ) → Client → Type 0
  Answered c call_id jobid submitted c' =
      Refused c c' call_id
      ⊎ ((s_jobid s_nonce : List ℕ) × (jobid ≡ some s_jobid)
          × (submitted ≡ some s_nonce)
          × Judged pools current writes rx-IsVector pp-IsVector c call_id s_jobid s_nonce c')

  Outcome : Client → ℕ → Option (List ℕ) → Option (List ℕ) → Option Client → Type 0
  Outcome c call_id jobid submitted r =
      (c' : Client) × (r ≡ some c') × Answered c call_id jobid submitted c'

  malformed :
      (c : Client) (call_id : ℕ) (jobid submitted : Option (List ℕ))
      → Outcome c call_id jobid submitted
          (some (send_error_response pools current writes c call_id malformed_submit))
  unfolding Outcome send_error_response net_send
  malformed c call_id jobid submitted =
      (_, refl, inl (record { why = malformed_submit; told = refl; kept = refl }))

  checked :
      (c : Client) (call_id : ℕ) (jobid submitted result : Option (List ℕ))
      → Roomy c.cur_job
      → Outcome c call_id jobid submitted
          (submit_checked json pools current writes c call_id jobid submitted result)
  unfolding submit_checked Outcome
  checked c call_id none submitted result room = malformed c call_id none submitted
  checked c call_id (some s_jobid) none result room = malformed c call_id (some s_jobid) none
  checked c call_id (some s_jobid) (some s_nonce) none room =
      malformed c call_id (some s_jobid) (some s_nonce)
  checked c call_id (some s_jobid) (some s_nonce) (some s_result) room =
      by_lengths (Bool-cases (length s_jobid == 8)) (Bool-cases (length s_nonce == 8))
        (Bool-cases (length s_result == 64))
    where
      Goal : Type 0
      Goal = Outcome c call_id (some s_jobid) (some s_nonce) (
          submit_checked json pools current writes c call_id (some s_jobid) (some s_nonce)
            (some s_result))

      by_lengths :
          ((length s_jobid == 8) ≡ true) ⊎ ((length s_jobid == 8) ≡ false)
          → ((length s_nonce == 8) ≡ true) ⊎ ((length s_nonce == 8) ≡ false)
          → ((length s_result == 64) ≡ true) ⊎ ((length s_result == 64) ≡ false)
          → Goal
      by_lengths (inr bad) _ _ =
          rw (submit_checked, bad) (malformed c call_id (some s_jobid) (some s_nonce))
      by_lengths (inl a) (inr bad) _ =
          rw (submit_checked, a, bad) (malformed c call_id (some s_jobid) (some s_nonce))
      by_lengths (inl a) (inl b) (inr bad) =
          rw (submit_checked, a, b, bad) (malformed c call_id (some s_jobid) (some s_nonce))
      by_lengths (inl a) (inl b) (inl d) =
          let (c', e, judged) =
            submit_texts-decides pools current writes rx-IsVector pp-IsVector c call_id s_jobid
              s_nonce s_result room ((==_iff (length s_jobid) 8).0 a)
              ((==_iff (length s_nonce) 8).0 b) ((==_iff (length s_result) 64).0 d) in
          rw (submit_checked, a, b, d) (c', e, inr (s_jobid, s_nonce, refl, refl, judged))

  -- A submit returns, whatever its arguments are, for a client whose job has room for its two nonces
  -- and for pools that leave 32 bytes. It is refused with one error; or its job id and nonce
  -- are texts, and what they spell is judged as a share.
  pub process_method_submit-Answered :
      (c : Client) (call_id : ℕ) (args : V)
      → Roomy c.cur_job
      → (c' : Client) × (process_method_submit json pools current writes c call_id args ≡ some c')
        × Answered c call_id
            (string_member json args (codes "job_id"))
            (string_member json args (codes "nonce"))
            c'
  unfolding process_method_submit Outcome
  process_method_submit-Answered c call_id args room =
      checked c call_id (string_member json args (codes "job_id"))
        (string_member json args (codes "nonce")) (string_member json args (codes "result")) room
