-- ===== src/Node.antt =====
-- node.cpp, node.h: the connection to the node, which hands out the jobs. The lists of JSON values are
-- read through json.h. `E` is the rest of the program and of the machine, as the node sees it.
pub mod Run
pub mod Values
pub mod Template
pub mod Fill
pub mod Epochs
pub mod Seeds
pub mod Difficulty
pub mod Accepted
pub mod Jobs
pub mod Typing
pub mod Handling
pub mod Invariant
pub mod Missing
pub mod Handout
pub mod Receive
pub mod Stream
pub mod Chunks
pub mod Tests
pub mod Reply
pub mod Message
pub mod Submit
pub mod Submission
pub mod Connect
pub mod Sockets
use epic_poold.Base.{
  ℕ, zero, suc, ◌+◌, ◌-◌, ◌*◌, ◌/◌, ◌%◌, ◌^◌, Bool, true, false, not, ◌&&◌, ◌||◌, Option, none,
  some, List, [], ◌∷◌, ◌++◌, ltb, leb, ◌==◌, if◌then◌else◌, length, take, drop, replicate, codes,
}
use epic_poold.Codec.{hex2bin}
use epic_poold.Vector32.{V32, get_id, all_zero}
use epic_poold.Client.{PowType, randomx, progpow, cuckoo, JobData}
use epic_poold.Rpc.{
  Try, ok, thrown, fault, JsonValues, reads_as, get_object_member_t, get_array, get_array_of, at,
  get_string, get_uint64, get_uint, get_json_uint, get_json_string,
}
use epic_poold.Rpc
use epic_poold.Node.Run.{Step, pure, lift, modify, gets, ◌>>=◌, ◌>>◌}

-- What the node uses of the hash pools, the server, the socket and the clock.
pub record Services (E : Type 0) : Type 0 where
  pub has_dataset : E → ℕ → Bool
  pub calculate_dataset : E → V32 → E
  pub notify_block : E → ℕ → E
  pub notify_new_block : E → E
  pub send : E → List ℕ → E × Bool
  pub get_timestamp_ms : E → ℕ

-- An element of the list of jobs: its address, which tells it from all other elements, and the job.
pub record Element : Type 0 where
  pub place : ℕ
  pub job : JobData

-- `jobs` holds the newest job first, `places` counts the elements made, and `current_job` is the
-- address of an element.
pub record Node (E : Type 0) : Type 0 where
  pub jobs : List Element
  pub places : ℕ
  pub current_job : Option ℕ
  pub last_job_ts : ℕ
  pub world : E

abbrev pub data_buffer_len : ℕ
data_buffer_len = 16384

-- Space for a text of a job, without the 8 bytes of the nonces that follow it.
abbrev pub prepow_room : ℕ
prepow_room = 376

abbrev job_tmpl : List ℕ
job_tmpl =
    codes "{\"id\":\"1\",\"jsonrpc\":\"2.0\",\"method\":\"getjobtemplate\","
    ++ codes "\"params\":{\"algorithm\":\"randomx\"}}"
    ++ 10 ∷ []

-- The value-initialised element of emplace_back.
abbrev pub blank : JobData
blank = record {
  type = randomx;
  block_diff = 0;
  height = 0;
  jobid = 0;
  prepow = replicate 384 0;
  prepow_len = 0;
  rx_seed = all_zero;
  rx_next_seed = all_zero;
}

-- `jobs.back()` through the pointer to it.
unfoldable pub edit_back : (JobData → JobData) → List Element → List Element
edit_back f [] = []
edit_back f (back ∷ jobs) = record back { job = f back.job } ∷ jobs

-- pop_front, on a list that is not empty.
unfoldable pub pop_front : List Element → List Element
pop_front [] = []
pop_front (back ∷ []) = []
pop_front (back ∷ next ∷ jobs) = back ∷ pop_front (next ∷ jobs)

-- The element that current_job points to; none is a null or a dangling pointer.
unfoldable pub element_at : List Element → ℕ → Option JobData
element_at [] place = none
element_at (back ∷ jobs) place =
    let older = element_at jobs place in if back.place == place then some back.job else older

module _ {E : Type 0} where
  unfoldable pub has_first_job : Node E → Bool
  has_first_job n = elim n.current_job [ none ↦ false | some place ↦ true ]

  unfoldable pub get_current_job : Node E → Option JobData
  unfolding element_at
  get_current_job n = elim n.current_job [ none ↦ none | some place ↦ element_at n.jobs place ]

  -- `jobs.emplace_back()` and the writes up to the epochs.
  unfoldable pub add_job : PowType → ℕ → Node E → Node E
  add_job type block_diff n = record n {
    jobs =
        record { place = n.places; job = record blank { type = type; block_diff = block_diff } }
        ∷ n.jobs;
    places = n.places + 1;
  }

  abbrev pub edit_job : (JobData → JobData) → Step (Node E) Unit
  edit_job f = modify (λ n. record n { jobs = edit_back f n.jobs })

  -- The last lines of a job: it becomes the current one, and the oldest of more than five goes.
  unfoldable pub publish : Services E → Node E → Node E
  unfolding pop_front
  publish services n = record n {
    last_job_ts = services.get_timestamp_ms n.world;
    current_job = elim n.jobs [ [] ↦ none | back ∷ jobs ↦ some back.place ];
    world = services.notify_new_block n.world;
    jobs = if ltb 5 (length n.jobs) then pop_front n.jobs else n.jobs;
  }

  unfoldable pub send_template_request : Services E → Node E → Node E
  send_template_request services n = record n { world = (services.send n.world job_tmpl).0 }
