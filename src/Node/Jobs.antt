-- ===== src/Node/Jobs.antt =====
-- node.cpp, json_proc_msg: a job that is accepted, or refused on the way.
use epic_poold.Base.{
  ℕ, ◌^◌, ◌<◌, ◌≡◌, ◌⊎◌, refl, sym, ap, ◌∙◌, inl, inr, true, false, List, ◌∷◌, arith, ◌==◌,
  if◌then◌else◌, codes, Bool-cases, All-replicate, length-replicate, replicate,
}
use mathlib.Core.Bool.{false≢true}
use epic_poold.Vector32.{IsVector, all_zero}
use epic_poold.Codec.Spec.{IsByte}
use epic_poold.Client.{PowType, JobData}
use epic_poold.Rpc.{Try, ok, thrown, fault, JsonValues, get_uint, get_json_uint, get_json_string}
use epic_poold.Rpc.Laws.{get_json_uint-Fails, get_json_string-Fails}
use epic_poold.Node.{Node, Services, edit_job, add_job, publish, blank}
use epic_poold.Node.Values.{store_prepow, job_head}
use epic_poold.Node.Template.{
  Answer, taken, failed, load_seeds, load_prepow, load_ids, load_text, tell_block, publish_job,
  finish_job, fill_job, load_job,
}
use epic_poold.Node.Run.{Ends, Ends-then, Ends-lift, Ends-map, Ends-left, pure, modify, ◌>>◌}
use epic_poold.Node.Fill.{Stored, IsPrepow, store_prepow-Stored}
use epic_poold.Node.Epochs.{Own, Seeded, ArrayAt}
use epic_poold.Node.Seeds.{Filling, Left, edit_job-Filling, SeedsLoaded, load_seeds-Seeded}
use epic_poold.Node.Difficulty.{Head, job_head-Head, job_head-Fails}
use epic_poold.Node.Accepted.{trimmed, Accepted, Untouched, Refused}

module _ {E V : Type 0} (services : Services E) (json : JsonValues V) (n : Node E) (broken : Type 0)
    (uint_small : (v : V) (k : ℕ) → get_uint json v ≡ ok k → k < 2 ^ 32) (res : V)
    (object : json.is_object res ≡ false → broken) where
  abbrev IdsLoaded : ℕ → JobData → Node E → Type 0
  IdsLoaded height job n'' =
      (jobid : ℕ) × (get_json_uint json res (codes "job_id") ≡ ok jobid)
      × Filling n (record job { jobid = jobid; height = height }) n''

  load_ids-Filling :
      (height : ℕ) (job : JobData) (n' : Node E)
      → Filling n job n'
      → Ends broken (λ done. IdsLoaded height job) (Left n) (load_ids services json height res n')
  unfolding load_ids
  load_ids-Filling height job n' h =
      Ends-lift broken (λ done. IdsLoaded height job) (Left n)
        (get_json_uint json res (codes "job_id"))
        (λ jobid. edit_job (λ job. record job { jobid = jobid; height = height })) n'
        (λ jobid e. (
          jobid,
          e,
          edit_job-Filling n n' job (λ job. record job { jobid = jobid; height = height }) h,
        ))
        (λ e. (job, h)) (get_json_uint-Fails broken json res object (codes "job_id"))

  abbrev TextLoaded : JobData → Node E → Type 0
  TextLoaded job n'' =
      (text : List ℕ) × (get_json_string json res (codes "pre_pow") ≡ ok text)
      × (job' : JobData) × Stored text job job'
      × Filling n job' n''

  load_prepow-Stored :
      (text : List ℕ) (job : JobData) (n' : Node E)
      → Filling n job n'
      → IsPrepow job.prepow
      → Ends broken
          (λ done n''. (job' : JobData) × Stored text job job' × Filling n job' n'')
          (Left n)
          (load_prepow services json text n')
  unfolding load_prepow
  load_prepow-Stored text job n' h array =
      let back = h.jobs in
      rw back (by_end (store_prepow text job) (store_prepow-Stored text job array))
    where
      by_end :
          (r : Try Unit × JobData)
          → Ends ⊥ (λ done job'. Stored text job job') (λ job'. Unit) r
          → Ends broken
              (λ done n''. (job' : JobData) × Stored text job job' × Filling n job' n'')
              (Left n)
              (let (t, job') = r in
                (t, record n' { jobs = record { place = n.places; job = job' } ∷ n.jobs }))
      by_end (ok done, job') s =
          (job', s, record { jobs = refl; places = h.places; current = h.current })
      by_end (thrown, job') s =
          (job', record { jobs = refl; places = h.places; current = h.current })
      by_end (fault, job') s = absurd s

  load_text-Stored :
      (job : JobData) (n' : Node E)
      → Filling n job n'
      → IsPrepow job.prepow
      → Ends broken (λ done. TextLoaded job) (Left n) (load_text services json res n')
  unfolding load_text
  load_text-Stored job n' h array =
      Ends-lift broken (λ done. TextLoaded job) (Left n)
        (get_json_string json res (codes "pre_pow")) (load_prepow services json) n'
        (λ text e.
          Ends-map broken
            (λ (done : Unit) n''. (job' : JobData) × Stored text job job' × Filling n job' n'')
            (λ done. TextLoaded job) (Left n) (λ done n'' (job', s, h'). (text, e, job', s, h')) _
            (load_prepow-Stored text job n' h array))
        (λ e. (job, h)) (get_json_string-Fails broken json res object (codes "pre_pow"))

  module _ (garbage height : ℕ) (job : JobData)
      (head : Head json garbage res job.type job.block_diff) (worth : 0 < job.block_diff)
      (array : IsPrepow job.prepow) (seed : IsVector job.rx_seed)
      (next : IsVector job.rx_next_seed) where
    module _ (epochs : List V) (read : ArrayAt json res (codes "epochs") epochs) (job' : JobData)
        (seeded : Seeded json height epochs false true job job') where
      own : Own json height epochs job'.rx_seed
      own = elim seeded.found [
        | inl (_, never) ↦ absurd (false≢true (sym never))
        | inr found ↦ found
      ]

      published :
          (jobid : ℕ)
          → get_json_uint json res (codes "job_id") ≡ ok jobid
          → (text : List ℕ) → get_json_string json res (codes "pre_pow") ≡ ok text
          → (job'' : JobData) → Stored text (record job' { jobid = jobid; height = height }) job''
          → (n'' : Node E) → Filling n job'' n''
          → Accepted json garbage res height n (publish services n'')
      unfolding publish
      published jobid e text e' job'' stored n'' h = record {
        job = job'';
        described = record {
          head = rw (type_same, diff_same) head;
          worth = rw diff_same worth;
          height_kept = ap (λ j. j.height) stored.rest;
          jobid_read = e ∙ ap ok (sym (ap (λ j. j.jobid) stored.rest));
          epochs = epochs;
          epochs_read = read;
          own = rw seed_same own;
          text = text;
          text_read = e';
          spells = stored.spells;
        };
        complete = record {
          array = stored.array;
          reaches = omega (arith, stored.spells.measured);
          held = omega (arith, stored.spells.measured, stored.spells.short);
          seed = rw seed_same (seeded.vectors seed next).0;
          next_seed = rw next_same (seeded.vectors seed next).1;
        };
        jobs = ap trimmed h.jobs;
        current = rw h.jobs refl;
        places = h.places;
      }
        where
          type_same : job''.type ≡ job.type
          type_same = ap (λ j. j.type) stored.rest ∙ ap (λ j. j.type) seeded.rest

          diff_same : job''.block_diff ≡ job.block_diff
          diff_same = ap (λ j. j.block_diff) stored.rest ∙ ap (λ j. j.block_diff) seeded.rest

          seed_same : job''.rx_seed ≡ job'.rx_seed
          seed_same = ap (λ j. j.rx_seed) stored.rest

          next_same : job''.rx_next_seed ≡ job'.rx_next_seed
          next_same = ap (λ j. j.rx_next_seed) stored.rest

      publish_job-Accepted :
          (jobid : ℕ)
          → get_json_uint json res (codes "job_id") ≡ ok jobid
          → (n' : Node E) → Filling n (record job' { jobid = jobid; height = height }) n'
          → IsPrepow job'.prepow
          → Ends broken
              (λ done. Accepted json garbage res height n)
              (Left n)
              (publish_job services json res n')
      unfolding publish_job
      publish_job-Accepted jobid e n' h array' =
          Ends-then broken (λ done. Accepted json garbage res height n) (Left n)
            (λ (done : Unit). TextLoaded (record job' { jobid = jobid; height = height }))
            (load_text services json res) (λ done. modify (publish services)) n'
            (load_text-Stored (record job' { jobid = jobid; height = height }) n' h array')
            (λ done n'' (text, e', job'', stored, h').
              published jobid e text e' job'' stored n'' h')

      finish_job-Accepted :
          (n' : Node E)
          → Filling n job' n'
          → Ends broken
              (λ done. Accepted json garbage res height n)
              (Left n)
              (finish_job services json height res n')
      unfolding finish_job
      finish_job-Accepted n' h =
          Ends-then broken (λ done. Accepted json garbage res height n) (Left n)
            (λ (done : Unit). IdsLoaded height job') (load_ids services json height res)
            (λ done. publish_job services json res) n' (load_ids-Filling height job' n' h)
            (λ done n'' (jobid, e, h').
              publish_job-Accepted jobid e n'' h' (rw (ap (λ j. j.prepow) seeded.rest) array))

    fill_job-Accepted :
        (n' : Node E)
        → Filling n job n'
        → Ends broken
            (λ done. Accepted json garbage res height n)
            (Left n)
            (fill_job services json height res n')
    unfolding fill_job tell_block
    fill_job-Accepted n' h =
        Ends-then broken (λ done. Accepted json garbage res height n) (Left n)
          (λ (done : Unit). SeedsLoaded json services n broken uint_small height res job)
          (load_seeds services json height res)
          (λ done. tell_block services json height >> finish_job services json height res) n'
          (load_seeds-Seeded json services n broken uint_small height res object job n' h)
          (λ done n'' (epochs, read, job', h', seeded).
            finish_job-Accepted epochs read job' seeded _
              (record { jobs = h'.jobs; places = h'.places; current = h'.current }))

  -- The answer to a job.
  abbrev pub JobAnswer : ℕ → ℕ → ℕ → Answer → Node E → Type 0
  JobAnswer garbage msglen height answer n' =
      ((answer ≡ taken msglen) × Accepted json garbage res height n n')
      ⊎ ((answer ≡ failed) × Untouched n n')

  begun :
      (type : PowType) (block_diff : ℕ)
      → Filling n
          (record blank { type = type; block_diff = block_diff })
          (add_job type block_diff n)
  unfolding add_job
  begun type block_diff = record { jobs = refl; places = refl; current = refl }

  zero_array : IsPrepow (replicate 384 0)
  zero_array = (length-replicate {A = ℕ} 384 0, All-replicate IsByte 384 0 (omega arith))

  zero_vector : IsVector all_zero
  zero_vector = (refl, All-replicate IsByte 32 0 (omega arith))

  head_read :
      (garbage msglen height : ℕ) (type : PowType) (block_diff : ℕ)
      → job_head json garbage res ≡ ok (type, block_diff)
      → Ends broken (JobAnswer garbage msglen height) (Refused n) (
          (if block_diff == 0
              then pure failed
              else (modify (add_job type block_diff)
                  >> (fill_job services json height res >> pure (taken msglen))))
            n)
  head_read garbage msglen height type block_diff e = elim (Bool-cases (block_diff == 0)) [
    | inl none_listed ↦
        rw none_listed (inr (refl, record { jobs = refl; places = refl; current = refl }))
    | inr listed ↦ rw listed (
        Ends-then broken (JobAnswer garbage msglen height) (Refused n)
          (λ done. Accepted json garbage res height n) (fill_job services json height res)
          (λ done. pure (taken msglen)) (add_job type block_diff n)
          (Ends-left broken (λ done. Accepted json garbage res height n) (Left n) (Refused n)
            (λ s begun. inr begun) _
            (fill_job-Accepted garbage height
              (record blank { type = type; block_diff = block_diff })
              (job_head-Head json garbage res type block_diff e) (ground arith) zero_array
              zero_vector zero_vector (add_job type block_diff n) (begun type block_diff)))
          (λ done n'' accepted. inl (refl, accepted)))
  ]

  pub load_job-Answer :
      (garbage msglen height : ℕ)
      → Ends broken
          (JobAnswer garbage msglen height)
          (Refused n)
          (load_job services json garbage msglen height res n)
  unfolding load_job
  load_job-Answer garbage msglen height =
      Ends-lift broken (JobAnswer garbage msglen height) (Refused n) (job_head json garbage res)
        (λ (type, block_diff).
          if block_diff == 0
          then pure failed
          else (modify (add_job type block_diff)
              >> (fill_job services json height res >> pure (taken msglen))))
        n (λ (type, block_diff) e. head_read garbage msglen height type block_diff e)
        (λ e. inl (record { jobs = refl; places = refl; current = refl }))
        (job_head-Fails json broken garbage res object)
