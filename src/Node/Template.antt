-- ===== src/Node/Template.antt =====
-- node.cpp, json_proc_msg from the height on: a job is read member by member into the new element of
-- the list, which stays there when a later member is refused.
use epic_poold.Base.{
  ℕ, ◌+◌, ◌%◌, ◌^◌, Bool, true, false, not, ◌&&◌, ◌||◌, List, [], ◌∷◌, leb, ltb, ◌==◌,
  if◌then◌else◌, length, codes,
}
use epic_poold.Vector32.{V32, get_id}
use epic_poold.Client.{JobData}
use epic_poold.Rpc.{
  thrown, fault, JsonValues, get_object_member_t, get_array, get_json_uint, get_json_string,
}
use epic_poold.Node.{Node, Services, edit_job, add_job, publish}
use epic_poold.Node.Values.{store_prepow, int_array_to_vector, job_head, epoch_bounds}
use epic_poold.Node.Run.{Step, pure, lift, modify, ◌>>=◌, ◌>>◌}

-- What json_proc_msg returns: 0 for a message without its end, the bytes that it took, or -1.
pub data Answer : Type 0 where
  incomplete : Answer
  taken : ℕ → Answer
  failed : Answer

module _ {E V : Type 0} (services : Services E) (json : JsonValues V) where
  -- The dataset of a seed is begun unless a slot has it.
  unfoldable pub ensure_dataset : V32 → Step (Node E) Unit
  ensure_dataset seed = modify (λ n.
      if services.has_dataset n.world (get_id seed)
      then n
      else record n { world = services.calculate_dataset n.world seed })

  -- A seed into the new job.
  unfoldable pub store_seed : (V32 → JobData → JobData) → V → Step (Node E) Unit
  unfolding ensure_dataset
  store_seed store arr_v = do
    seed ← lift (int_array_to_vector json arr_v)
    edit_job (store seed)
    ensure_dataset seed

  -- An epoch by its place among the heights, with whether it is the one of the height.
  unfoldable pub place_epoch : ℕ → ℕ × ℕ × V → Step (Node E) Bool
  unfolding store_seed
  place_epoch height (start, real_end, seed) =
      let real_start = (start + 1) % 2 ^ 32 in
      if real_end == 0 || leb real_end start
      then lift thrown
      else if leb real_start height && leb height real_end
      then store_seed (λ seed job. record job { rx_seed = seed }) seed >> pure true
      else if ltb height real_start
      then store_seed (λ seed job. record job { rx_next_seed = seed }) seed >> pure false
      else lift thrown

  unfoldable pub read_epoch : ℕ → V → Step (Node E) Bool
  unfolding place_epoch
  read_epoch height epoch = lift (epoch_bounds json epoch) >>= place_epoch height

  unfoldable pub read_epochs : ℕ → List V → Bool → Step (Node E) Bool
  unfolding read_epoch
  read_epochs height [] own = pure own
  read_epochs height (epoch ∷ epochs) own = do
    mine ← read_epoch height epoch
    read_epochs height epochs (own || mine)

  -- The epochs, of which one must be the height's.
  unfoldable pub some_epochs : ℕ → List V → Step (Node E) Unit
  unfolding read_epochs
  some_epochs height epochs =
      if not (length epochs == 1) && not (length epochs == 2)
      then lift thrown
      else do own ← read_epochs height epochs false; if own then pure tt else lift thrown

  unfoldable pub load_seeds : ℕ → V → Step (Node E) Unit
  unfolding some_epochs
  load_seeds height res = do
    member ← lift (get_object_member_t json res (codes "epochs"))
    epochs ← lift (get_array json member)
    some_epochs height epochs

  -- The text of the job, through the pointer to the new element.
  unfoldable pub load_prepow : List ℕ → Step (Node E) Unit
  load_prepow text n = elim n.jobs [
    | [] ↦ (fault, n)
    | back ∷ jobs ↦
        let (t, job) = store_prepow text back.job in
        (t, record n { jobs = record back { job = job } ∷ jobs })
  ]

  unfoldable pub load_ids : ℕ → V → Step (Node E) Unit
  load_ids height res = do
    jobid ← lift (get_json_uint json res (codes "job_id"))
    edit_job (λ job. record job { jobid = jobid; height = height })

  unfoldable pub load_text : V → Step (Node E) Unit
  unfolding load_prepow
  load_text res = lift (get_json_string json res (codes "pre_pow")) >>= load_prepow

  unfoldable pub tell_block : ℕ → Step (Node E) Unit
  tell_block height = modify (λ n. record n { world = services.notify_block n.world height })

  -- From the text on, and from the seeds on.
  unfoldable pub publish_job : V → Step (Node E) Unit
  unfolding load_text publish
  publish_job res = do load_text res; modify (publish services)

  unfoldable pub finish_job : ℕ → V → Step (Node E) Unit
  unfolding load_ids publish_job
  finish_job height res = do load_ids height res; publish_job res

  -- From the new element on.
  unfoldable pub fill_job : ℕ → V → Step (Node E) Unit
  unfolding load_seeds tell_block finish_job
  fill_job height res = do load_seeds height res; tell_block height; finish_job height res

  unfoldable pub load_job : ℕ → ℕ → ℕ → V → Step (Node E) Answer
  unfolding add_job fill_job
  load_job garbage msglen height res = do
    (job_type, block_diff) ← lift (job_head json garbage res)
    if block_diff == 0
        then pure failed
        else do modify (add_job job_type block_diff); fill_job height res; pure (taken msglen)
