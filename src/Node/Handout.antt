-- ===== src/Node/Handout.antt =====
-- node.h and client.cpp: the current job of the node, as a client hands it on.
use epic_poold.Base.{
  ℕ, ◌^◌, ◌<◌, ◌≡◌, ◌⊎◌, inl, inr, refl, sym, ◌∙◌, arith, Bool, true, false, Option, none, some,
  ◌∷◌, ltb, Bool-cases,
}
use epic_poold.Client.{JobData, HashPools, Client, JobText, job_notice, on_new_block}
use epic_poold.Client.Job.{Sendable, Sent, on_new_block-Sent}
use epic_poold.Client.Share.{Roomy}
use epic_poold.Client.Bounds.{on_new_block-overflow}
use epic_poold.Rpc.{ok, JsonValues, get_uint}
use epic_poold.Node.{Node, Services, get_current_job, has_first_job}
use epic_poold.Node.Accepted.{Complete}
use epic_poold.Node.Invariant.{Reach, Reach-Complete}

Complete-Roomy : (job : JobData) → Complete job → Roomy job
Complete-Roomy job c = record { reaches = c.reaches; held = omega (arith, c.held, c.array.0) }

Complete-Sendable : (job : JobData) → Complete job → job.prepow_len < 384 → Sendable job
Complete-Sendable job c short = record {
  room = Complete-Roomy job c;
  short = short;
  small = c.array.1;
  seed = c.seed;
}

module _ {E V : Type 0} (services : Services E) (json : JsonValues V)
    (uint_small : (v : V) (k : ℕ) → get_uint json v ≡ ok k → k < 2 ^ 32) where
  current_job-Complete :
      {k : ℕ} {n : Node E} (job : JobData)
      → Reach services json k n
      → get_current_job n ≡ some job
      → Complete job
  unfolding get_current_job has_first_job
  current_job-Complete {k} {n} job r e = by_current n.current_job refl
    where
      same : (job' : JobData) × (get_current_job n ≡ some job') × Complete job' → Complete job
      same (job', e', c) =
          let both : some job' ≡ some job = sym e' ∙ e in let is : job' ≡ job = cc in rw (← is) c

      by_current : (current : Option ℕ) → n.current_job ≡ current → Complete job
      by_current none none_yet = let never : none ≡ some job = rw none_yet at e in cc
      by_current (some place) first =
          same (Reach-Complete services json uint_small r (rw first refl))

  -- After any run of the node, its current job is handed on by a client that is logged in and not given
  -- up in one of two ways. If the prepow is below 384 bytes, it is sent to the miner as the text that
  -- spells it. If it is 384 bytes, which the node accepts, on_new_block writes past its buffer.
  pub current_job-Sent :
      {k : ℕ} {n : Node E} (job : JobData) (pools : HashPools) (writes : ℕ → Bool) (c : Client)
      → Reach services json k n
      → get_current_job n ≡ some job
      → c.aborting ≡ false
      → c.logged_in ≡ true
      → ((job.prepow_len < 384)
          × (c' : Client) × (text : JobText) × (on_new_block pools job writes c ≡ some (c', true))
          × (c'.sent ≡ job_notice text ∷ c.sent)
          × Sent c c' job text)
        ⊎ ((job.prepow_len ≡ 384) × (on_new_block pools job writes c ≡ none))
  current_job-Sent job pools writes c r e live logged =
      let complete = current_job-Complete job r e in
      elim (Bool-cases (ltb job.prepow_len 384)) [
        | inl short ↦
            let (c', text, handed, told, sent) =
              (on_new_block-Sent pools job writes (Complete-Sendable job complete (ground arith)) c
                  0 live).0
                logged in
            inl (ground arith, c', text, handed, told, sent)
        | inr full ↦
            let size : job.prepow_len ≡ 384 = ground (arith, complete.held) in
            inr (
              size,
              (on_new_block-overflow pools job writes c 0 (Complete-Roomy job complete)
                    complete.array.1 size live).0
                  logged,
            )
      ]
