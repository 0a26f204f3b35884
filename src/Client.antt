-- ===== src/Client.antt =====
-- client.hpp, client.cpp, workstruct.hpp, check_job.hpp: what a client keeps, and the methods that
-- it serves. Integers are their bit patterns, a buffer is a list of bytes, and none is an access
-- outside a buffer. The arguments of a method are JSON values, of which the parser is a parameter.
pub mod Line
pub mod Job
pub mod Share
pub mod Reader
pub mod Stream
pub mod Arrival
pub mod Serving
pub mod Bounds
pub mod Flood
pub mod Submit
pub mod Request
pub mod Birth
pub mod Distinct
pub mod Datasets
pub mod Hashing
pub mod Tests
use epic_poold.Base.{
  ℕ, zero, suc, ◌+◌, ◌-◌, ◌*◌, ◌/◌, ◌%◌, ◌^◌, ◌<◌, ◌≡◌, Bool, true, false, not, ◌||◌, Option, none,
  some, List, [], ◌∷◌, ◌++◌, bit_or, ltb, leb, ◌==◌, if◌then◌else◌, length, take, drop, replicate,
  codes, c_string,
}
use epic_poold.Codec.{hex2bin, bin2hex, ◌>>=◌}
use epic_poold.Vector32.{V32, load, bswap64, get_work32, get_work64, get_id, all_ones}

pub data PowType : Type 0 where
  randomx progpow cuckoo : PowType

unfoldable pub pow_type_to_str : PowType → List ℕ
pow_type_to_str randomx = codes "randomx"
pow_type_to_str progpow = codes "progpow"
pow_type_to_str cuckoo = codes "cuckoo"

-- `prepow` holds 384 bytes, of which `prepow_len` are in use.
pub record JobData : Type 0 where
  pub type : PowType
  pub block_diff : ℕ
  pub height : ℕ
  pub jobid : ℕ
  pub prepow : List ℕ
  pub prepow_len : ℕ
  pub rx_seed : V32
  pub rx_next_seed : V32

-- What a hash pool leaves in a job that it has served.
pub record CheckJob : Type 0 where
  pub hash : V32
  pub error : Bool

-- The hash pools: `rx` takes the data and the id of the dataset, `pp` the data, the block's number
-- and the nonce.
pub record HashPools : Type 0 where
  pub rx : List ℕ → ℕ → CheckJob
  pub pp : List ℕ → ℕ → ℕ → CheckJob

-- What the code uses of rapidjson. `parse` gives none on a parse error.
pub record Json (V : Type 0) : Type 0 where
  pub parse : List ℕ → Option V
  pub is_object : V → Bool
  pub is_string : V → Bool
  pub is_int64 : V → Bool
  pub get_string : V → List ℕ
  pub get_int64 : V → ℕ
  pub find_member : V → List ℕ → Option V

pub data ErrorText : Type 0 where
  malformed_request slow_down unknown_method you_are_logged_in malformed_submit : ErrorText
  invalid_jobid invalid_nonce invalid_result stale_job_id server_error bad_share : ErrorText

-- The texts that a job is sent as.
pub record JobText : Type 0 where
  pub blob : List ℕ
  pub job_id : List ℕ
  pub target : List ℕ
  pub pow_algo : List ℕ
  pub seed_hash : List ℕ
  pub height : ℕ

-- What is sent, by the place in the code that prints it.
pub data Message : Type 0 where
  error_response : ℕ → ErrorText → Message
  login_response : ℕ → JobText → Message
  ok_response : ℕ → Message
  job_notice : JobText → Message

pub record Submission : Type 0 where
  pub job : JobData
  pub full_nonce : ℕ
  pub hash : V32

-- `sent` and `results` hold what was written to the socket and given to the node, newest first.
pub record Client : Type 0 where
  pub aborting : Bool
  pub flood_timestamp : ℕ
  pub flood_count : ℕ
  pub logged_in : Bool
  pub cur_job : JobData
  pub jobid : ℕ
  pub extra_nonce : ℕ
  pub sent : List Message
  pub results : List Submission

abbrev pub fix_diff : ℕ
fix_diff = 4096

pub diff_to_target : ℕ → ℕ
diff_to_target diff = 0xFFFFFFFF / diff

unfoldable pub work_to_diff : ℕ → ℕ
work_to_diff work = if work == 0 then 0xFFFFFFFFFFFFFFFF else 0xFFFFFFFFFFFFFFFF / work

-- A uint32_t in memory, the lowest byte first.
abbrev pub bytes32 : ℕ → List ℕ
bytes32 x = x % 256 ∷ x / 256 % 256 ∷ x / 65536 % 256 ∷ x / 16777216 % 256 ∷ []

-- `memcpy(cur_job.prepow + cur_job.prepow_len - back, &x, 4)`.
unfoldable pub copy_to_end : JobData → ℕ → ℕ → Option JobData
copy_to_end job back x =
    let start = job.prepow_len - back in
    if leb back job.prepow_len
    then (if leb (start + 4) (length job.prepow)
        then some (record job {
          prepow = take start job.prepow ++ (bytes32 x ++ drop (start + 4) job.prepow);
        })
        else none)
    else none

-- `bin2hex` into a fresh buffer, as `%s` prints it.
unfoldable pub hex_of : List ℕ → ℕ → ℕ → Option (List ℕ)
hex_of bytes len size = do text ← bin2hex bytes len (replicate size 0); some (c_string text)

-- The texts of a job, in the order in which login and on_new_block print them.
unfoldable pub job_text : Client → Option JobText
job_text c = do
  blob ← hex_of c.cur_job.prepow c.cur_job.prepow_len 768
  job_id ← hex_of (bytes32 c.jobid) 4 9
  target ← hex_of (bytes32 (diff_to_target fix_diff)) 4 9
  seed_hash ← hex_of c.cur_job.rx_seed.bytes 32 65
  some (record {
    blob = blob;
    job_id = job_id;
    target = target;
    pow_algo = pow_type_to_str c.cur_job.type;
    seed_hash = seed_hash;
    height = c.cur_job.height;
  })

-- `current` is the job of the node; `writes` tells whether the n-th write to the socket takes the
-- whole message.
module _ (pools : HashPools) (current : JobData) (writes : ℕ → Bool) where
  -- net_send, which gives the client up if the write fails.
  unfoldable pub net_send : Client → Message → Client
  net_send c msg = record c {
    aborting = c.aborting || not (writes (length c.sent));
    sent = msg ∷ c.sent;
  }

  unfoldable pub send_error_response : Client → ℕ → ErrorText → Client
  unfolding net_send
  send_error_response c call_id msg = net_send c (error_response call_id msg)

  unfoldable pub get_new_job : Client → Client
  get_new_job c = record c { cur_job = current; jobid = (c.jobid + 1) % 2 ^ 32 }

  unfoldable pub process_method_login : Client → ℕ → Option Client
  unfolding send_error_response get_new_job copy_to_end job_text net_send
  process_method_login c call_id =
      if c.logged_in then some (send_error_response c call_id you_are_logged_in) else do
        job ← copy_to_end (get_new_job c).cur_job 8 c.extra_nonce
        text ← job_text (record (get_new_job c) { cur_job = job })
        some
            (record (net_send (record (get_new_job c) { cur_job = job })
              (login_response call_id text)) { logged_in = true })

  unfoldable pub process_method_keepalive : Client → ℕ → Client
  unfolding net_send
  process_method_keepalive c call_id = net_send c (ok_response call_id)

  -- The switch of check_client_work: the client, and the job as the pools leave it.
  unfoldable pub check_by_type : PowType → Client → ℕ → Option (Client × CheckJob)
  unfolding copy_to_end
  check_by_type randomx c nonce = do
    job ← copy_to_end c.cur_job 4 nonce
    some
        (record c { cur_job = job }, pools.rx (take job.prepow_len job.prepow) (get_id job.rx_seed))
  check_by_type progpow c nonce =
      let total_nonce = bit_or (c.extra_nonce * 2 ^ 32) nonce in
      if leb 8 c.cur_job.prepow_len
      then some (
        c,
        pools.pp (take (c.cur_job.prepow_len - 8) c.cur_job.prepow) c.cur_job.height total_nonce,
      )
      else none
  check_by_type cuckoo c nonce = some (c, record { hash = all_ones; error = true })

  unfoldable pub check_client_work : Client → ℕ → Option (Client × CheckJob)
  unfolding check_by_type
  check_client_work c nonce = check_by_type c.cur_job.type c nonce

  -- process_method_submit, once the share was checked.
  unfoldable pub judge_share : Client → ℕ → ℕ → CheckJob → Client
  unfolding send_error_response net_send work_to_diff
  judge_share c call_id nonce job =
      if job.error
      then send_error_response c call_id server_error
      else if ltb (0xFFFFFFFF / fix_diff) (get_work32 job.hash)
      then send_error_response c call_id bad_share
      else if ltb 4096 (work_to_diff (get_work64 job.hash))
      then net_send
          (record c {
            results =
                record {
                  job = c.cur_job;
                  full_nonce = bswap64 (bit_or (nonce * 2 ^ 32) c.extra_nonce);
                  hash = job.hash;
                }
                ∷ c.results;
          })
          (ok_response call_id)
      else net_send c (ok_response call_id)

  -- process_method_submit, once the three texts have the right lengths.
  unfoldable pub submit_texts : Client → ℕ → List ℕ → List ℕ → List ℕ → Option Client
  unfolding send_error_response check_client_work judge_share
  submit_texts c call_id s_jobid s_nonce s_result = do
    (jobid_ok, net_jobid) ← hex2bin (s_jobid ++ 0 ∷ []) 8 (replicate 4 0)
    if not jobid_ok then some (send_error_response c call_id invalid_jobid) else do
      (nonce_ok, nonce) ← hex2bin (s_nonce ++ 0 ∷ []) 8 (replicate 4 0)
      if not nonce_ok then some (send_error_response c call_id invalid_nonce) else do
        (result_ok, claim_work) ← hex2bin (drop 48 s_result ++ 0 ∷ []) 16 (replicate 8 0)
        if not result_ok
            then some (send_error_response c call_id invalid_result)
            else if not (load net_jobid == c.jobid)
            then some (send_error_response c call_id stale_job_id)
            else do
              (c', job) ← check_client_work c (load nonce)
              some (judge_share c' call_id (load nonce) job)

  unfoldable pub on_new_block : Client → Option (Client × Bool)
  unfolding get_new_job copy_to_end job_text net_send
  on_new_block c =
      if c.aborting
      then some (c, false)
      else if not c.logged_in
      then some (get_new_job c, true)
      else do
        job ← copy_to_end (get_new_job c).cur_job 8 c.extra_nonce
        text ← job_text (record (get_new_job c) { cur_job = job })
        some (net_send (record (get_new_job c) { cur_job = job }) (job_notice text), true)
