-- ===== src/Client/Tests.antt =====
-- Runs of the client on concrete input.
use epic_poold.Base.{
  ℕ, zero, suc, ◌<◌, ◌≡◌, ◌≢◌, refl, Bool, true, false, none, some, List, [], ◌∷◌, ◌++◌, arith,
  length, replicate, codes, All,
}
use epic_poold.Vector32.{V32, get_id}
use epic_poold.Client.{
  randomx, JobData, HashPools, JobText, job_notice, login_response, Client, on_new_block,
  process_method_login, submit_texts,
}
use epic_poold.Base.{not, ◌==◌}
use epic_poold.Vector32.{IsVector}
use epic_poold.Base.{same_text, if◌then◌else◌}
use epic_poold.Client.{Json}
use epic_poold.Client.Line.{process_method_submit}
use epic_poold.Client.Request.{Answered, process_method_submit-Answered}
use epic_poold.Client.Reader.{Session, kept, split_line, on_socket_read}
use epic_poold.Client.Stream.{feed}
use epic_poold.Client.Arrival.{Reads, on_socket_read-feed}
use epic_poold.Client.Serving.{Served, Moments, client_session}
use epic_poold.Client.Flood.{calls_served, flood_gate-window}
use epic_poold.Client.{CheckJob}
use epic_poold.Client.Share.{Refused, Accepted}
use epic_poold.Client.Datasets.{hash_pools, Hashed}
use epic_poold.Client.Hashing.{submit_texts-Hashed}
use epic_poold.Codec.Spec.{unhex}
use epic_poold.Vector32.{load}
use epic_poold.Base.{◌⊎◌, ◌/◌, Option}
use epic_poold.RxHashpool.{
  Slot, constructed, Reach, start, next, clears, seeds, loads, spawns, locks, fills, publishes,
}
use epic_poold.PpHashpool.Hashing.{Ethash}
use epic_poold.Client.Birth.{Birth, newborn, construct_clients}
use epic_poold.Client.Distinct.{on_new_block-distinct}
use epic_poold.Client.Job.{Sendable, Sent, on_new_block-Sent}
use epic_poold.Client.Bounds.{on_new_block-overflow}

zeros-IsByte : (n : ℕ) → All (λ b. b < 256) (replicate n 0)
zeros-IsByte zero = tt
zeros-IsByte (suc n) = (omega arith, zeros-IsByte n)

abbrev seed : V32
seed = record { bytes = replicate 32 0 }

-- A hash of zeros passes every target.
abbrev pools : HashPools
pools = record {
  rx = λ blob id. record { hash = seed; error = false };
  pp = λ blob block nonce. record { hash = seed; error = false };
}

abbrev job_of : ℕ → JobData
job_of len = record {
  type = randomx;
  block_diff = 1;
  height = 7;
  jobid = 1;
  prepow = replicate 384 0;
  prepow_len = len;
  rx_seed = seed;
  rx_next_seed = seed;
}

job_of-Sendable : Sendable (job_of 12)
job_of-Sendable = record {
  room = record { reaches = omega arith; held = omega arith };
  short = omega arith;
  small = zeros-IsByte 384;
  seed = (refl, zeros-IsByte 32);
}

abbrev writes : ℕ → Bool
writes n = true

abbrev miner : Bool → JobData → Client
miner logged job = record {
  aborting = false;
  flood_timestamp = 0;
  flood_count = 0;
  logged_in = logged;
  cur_job = job;
  jobid = 0;
  extra_nonce = 5;
  sent = [];
  results = [];
}

flood_gate-window_example : calls_served 2 (miner true (job_of 12)) (100 ∷ 101 ∷ 160 ∷ []) ≡ 2
flood_gate-window_example =
    flood_gate-window 2 (miner true (job_of 12)) 100 (101 ∷ 160 ∷ []) (omega arith)
      ((omega arith, (omega arith, tt))) (omega arith)

on_new_block-Sent_example :
    (true ≡ true
      → (c' : Client) × (text : JobText) × (on_new_block pools
            (job_of 12)
            writes
            (miner true (job_of 12))
          ≡ some (c', true))
        × (c'.sent ≡ job_notice text ∷ [])
        × Sent (miner true (job_of 12)) c' (job_of 12) text)
    × (true ≡ false
        → (c' : Client) × (text : JobText) × (process_method_login pools
              (job_of 12)
              writes
              (miner true (job_of 12))
              3
            ≡ some c')
          × (c'.sent ≡ login_response 3 text ∷ [])
          × (c'.logged_in ≡ true)
          × Sent (miner true (job_of 12)) c' (job_of 12) text)
on_new_block-Sent_example =
    on_new_block-Sent pools (job_of 12) writes job_of-Sendable (miner true (job_of 12)) 3 refl

on_new_block-overflow_example :
    (true ≡ true → on_new_block pools (job_of 384) writes (miner true (job_of 12)) ≡ none)
    × (true ≡ false
        → process_method_login pools (job_of 384) writes (miner true (job_of 12)) 3 ≡ none)
on_new_block-overflow_example =
    on_new_block-overflow pools (job_of 384) writes (miner true (job_of 12)) 3
      (record { reaches = omega arith; held = omega arith }) (zeros-IsByte 384) refl refl

-- One slot that is ready for the seed of the job, and no context of ProgPow.
abbrev ready_slot : Slot
ready_slot = record constructed {
  ds_seed = seed;
  loaded_seed_id = get_id seed;
  ready_seed_id = get_id seed;
  cache = some seed;
}

ready_slot-Reach : Reach ready_slot
ready_slot-Reach =
    next
      (next
        (next
          (next (next (next (next start (clears seed refl)) (seeds seed refl)) (loads seed refl))
            (spawns refl))
          (locks 0 refl refl (λ m. refl)))
        (fills refl))
      (publishes refl)

abbrev ready_slots : List Slot
ready_slots = ready_slot ∷ []

abbrev calculated : Option V32 → List ℕ → V32
calculated cache blob = seed

abbrev zero_ethash : Ethash
zero_ethash = record {
  get_epoch_number = λ block. block / 7500;
  keccak256 = λ blob. seed;
  progpow_hash = λ context block header nonce. seed;
}

abbrev real_pools : HashPools
real_pools = hash_pools calculated zero_ethash ready_slots []

submit_texts-Hashed_example :
    (c' : Client) × (submit_texts real_pools
        (job_of 12)
        writes
        (miner true (job_of 12))
        3
        (codes "00000000")
        (codes "00000001")
        (replicate 64 48)
      ≡ some c')
    × (Refused (miner true (job_of 12)) c' 3
        ⊎ ((id_bytes nonce_bytes : List ℕ) × (checked : Client) × (job : CheckJob) × (unhex
                (codes "00000000")
              ≡ some id_bytes)
            × (load id_bytes ≡ (miner true (job_of 12)).jobid)
            × (unhex (codes "00000001") ≡ some nonce_bytes)
            × Hashed calculated zero_ethash ready_slots [] randomx
                (miner true (job_of 12))
                (load nonce_bytes)
                job.hash
            × Accepted (miner true (job_of 12)) c' checked 3 (load nonce_bytes) job))
submit_texts-Hashed_example =
    submit_texts-Hashed calculated zero_ethash ready_slots []
      (λ cache blob. (refl, zeros-IsByte 32))
      (λ context block header nonce. (refl, zeros-IsByte 32)) (job_of 12) writes
      (miner true (job_of 12)) 3 (codes "00000000") (codes "00000001") (replicate 64 48)
      ((ready_slot-Reach, refl), tt) (record { reaches = omega arith; held = omega arith }) refl
      refl refl

-- A session that keeps the lines that it was given, and refuses a line that is only a newline.
abbrev keeper : Session (Bool × List (List ℕ))
keeper = record {
  aborting = λ s. s.0;
  hard_abort = λ s. (true, s.1);
  process_line = λ s line. ((s.0, s.1 ++ line ∷ []), not (length line == 1));
}

fed_lines :
    feed keeper (false, []) (codes "a") (codes "b" ++ 10 ∷ codes "cd" ++ 10 ∷ codes "e")
    ≡ kept (false, (codes "ab" ++ 10 ∷ []) ∷ (codes "cd" ++ 10 ∷ []) ∷ []) (codes "e")
unfolding feed
fed_lines = refl

-- Values are the numbers of the members of one request.
abbrev request : Json ℕ
request = record {
  parse = λ text. some 0;
  is_object = λ v. v == 0;
  is_string = λ v. true;
  is_int64 = λ v. false;
  get_string = λ v.
      if v == 1 then codes "00000000" else if v == 2 then codes "00000001" else replicate 64 48;
  get_int64 = λ v. 0;
  find_member = λ v key.
      if same_text key (codes "job_id")
      then some 1
      else if same_text key (codes "nonce")
      then some 2
      else some 3;
}

zero_hash : (blob : List ℕ) (id : ℕ) → IsVector (pools.rx blob id).hash
zero_hash blob id = (refl, zeros-IsByte 32)

zero_result : (blob : List ℕ) (block nonce : ℕ) → IsVector (pools.pp blob block nonce).hash
zero_result blob block nonce = (refl, zeros-IsByte 32)

process_method_submit-Answered_example :
    (c' : Client) × (process_method_submit request pools
        (job_of 12)
        writes
        (miner true (job_of 12))
        3
        0
      ≡ some c')
    × Answered request pools
        (job_of 12)
        writes
        zero_hash
        zero_result
        (miner true (job_of 12))
        3
        (some (codes "00000000"))
        (some (codes "00000001"))
        c'
process_method_submit-Answered_example =
    process_method_submit-Answered request pools (job_of 12) writes zero_hash zero_result
      (miner true (job_of 12)) 3 0 (record { reaches = omega arith; held = omega arith })

abbrev birth_of : ℕ → Birth
birth_of fd = record {
  fd = fd;
  port = 1;
  ip_text = some (codes "::1");
  now = 0;
  garbage = job_of 12;
}

abbrev miners : List Birth
miners = birth_of 4 ∷ birth_of 5 ∷ []

abbrev logged_in_as : ℕ → Client
logged_in_as extra_nonce = record (miner true (job_of 12)) { extra_nonce = extra_nonce }

on_new_block-distinct_example :
    (d d' : Client) × (text text' : JobText) × (on_new_block pools
        (job_of 12)
        writes
        (logged_in_as 0)
      ≡ some (d, true))
    × (on_new_block pools (job_of 12) writes (logged_in_as 1) ≡ some (d', true))
    × (d.sent ≡ job_notice text ∷ (logged_in_as 0).sent)
    × (d'.sent ≡ job_notice text' ∷ (logged_in_as 1).sent)
    × (text.blob ≢ text'.blob)
unfolding construct_clients
on_new_block-distinct_example =
    on_new_block-distinct pools (job_of 12) writes writes miners 0 1
      (newborn 0 (birth_of 4) (codes "::1")) (newborn 1 (birth_of 5) (codes "::1")) (logged_in_as 0)
      (logged_in_as 1) job_of-Sendable (omega arith) (omega arith) refl refl refl refl (refl, refl)
      (refl, refl)

-- A miner's stream in two lines and the front of a third, read byte by byte, with a first write that fails.
abbrev moments : Moments
moments = record { times = λ n. n; pools = λ n. pools; currents = λ n. job_of 12 }

abbrev served : Session Served
served = client_session request (λ n. not (n == 0)) 60 moments

abbrev stream : List ℕ
stream = codes "b" ++ 10 ∷ codes "cd" ++ 10 ∷ codes "e"

on_socket_read-feed_example :
    Reads served
      (λ k. 0)
      false
      (record { client = some (miner true (job_of 12)); lines = 0 })
      (codes "a")
      stream
      (on_socket_read served
        (λ k. 0)
        false
        (record { client = some (miner true (job_of 12)); lines = 0 })
        (codes "a")
        stream)
unfolding split_line
on_socket_read-feed_example =
    on_socket_read-feed served (λ k. 0) false
      (record { client = some (miner true (job_of 12)); lines = 0 }) (codes "a") stream refl
      (omega arith)
