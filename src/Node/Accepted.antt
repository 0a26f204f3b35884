-- ===== src/Node/Accepted.antt =====
-- node.cpp, json_proc_msg: what the node is behind a job that it accepted, or a message that it refused.
use epic_poold.Base.{ℕ, ◌+◌, ◌≤◌, ◌<◌, ◌≡◌, ◌⊎◌, some, List, ◌∷◌, ltb, if◌then◌else◌, length, codes}
use epic_poold.Vector32.{IsVector}
use epic_poold.Client.{JobData}
use epic_poold.Rpc.{ok, JsonValues, get_json_uint, get_json_string}
use epic_poold.Node.{Node, Element, pop_front}
use epic_poold.Node.Fill.{Spells, IsPrepow}
use epic_poold.Node.Epochs.{Own, ArrayAt}
use epic_poold.Node.Seeds.{Left}
use epic_poold.Node.Difficulty.{Head}

-- A job as its message has it: `garbage` is its difficulty only if no pair has the algorithm's name.
pub record Described {V : Type 0} (json : JsonValues V) (garbage : ℕ) (res : V) (height : ℕ)
    (job : JobData) : Type 0 where
  pub head : Head json garbage res job.type job.block_diff
  pub worth : 0 < job.block_diff
  pub height_kept : job.height ≡ height
  pub jobid_read : get_json_uint json res (codes "job_id") ≡ ok job.jobid
  pub epochs : List V
  pub epochs_read : ArrayAt json res (codes "epochs") epochs
  pub own : Own json height epochs job.rx_seed
  pub text : List ℕ
  pub text_read : get_json_string json res (codes "pre_pow") ≡ ok text
  pub spells : Spells text job

-- What every job that is handed out holds.
pub record Complete (job : JobData) : Type 0 where
  pub array : IsPrepow job.prepow
  pub reaches : 8 ≤ job.prepow_len
  pub held : job.prepow_len ≤ 384
  pub seed : IsVector job.rx_seed
  pub next_seed : IsVector job.rx_next_seed

-- The jobs of a list that publish keeps.
abbrev pub trimmed : List Element → List Element
trimmed jobs = if ltb 5 (length jobs) then pop_front jobs else jobs

-- The node behind a job that it accepted.
pub record Accepted {E V : Type 0} (json : JsonValues V) (garbage : ℕ) (res : V) (height : ℕ)
    (n n' : Node E) : Type 0 where
  pub job : JobData
  pub described : Described json garbage res height job
  pub complete : Complete job
  pub jobs : n'.jobs ≡ trimmed (record { place = n.places; job = job } ∷ n.jobs)
  pub current : n'.current_job ≡ some n.places
  pub places : n'.places ≡ n.places + 1

-- The node that a message leaves its jobs.
pub record Untouched {E : Type 0} (n n' : Node E) : Type 0 where
  pub jobs : n'.jobs ≡ n.jobs
  pub current : n'.current_job ≡ n.current_job
  pub places : n'.places ≡ n.places

-- The node behind a message that it refused: it may have begun an element.
abbrev pub Refused : {E : Type 0} → Node E → Node E → Type 0
Refused n n' = Untouched n n' ⊎ Left n n'
