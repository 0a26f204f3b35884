-- ===== src/Node/Tests.antt =====
-- Runs of the node on concrete messages.
use epic_poold.Base.{
  ℕ, zero, suc, ◌+◌, ◌^◌, ◌≤◌, ◌<◌, ◌⊎◌, ◌≡◌, refl, sym, Bool, true, false, none, some, List, [],
  ◌∷◌, ◌++◌, arith, ltb, length, codes, inl, inr, Bool-cases, replicate,
}
use epic_poold.Codec.{hex2bin}
use epic_poold.Rpc.{
  Try, ok, thrown, fault, get_json_call_id, get_json_string, get_json_uint, get_object_member_t,
  get_array, get_array_of, get_string, get_uint64, get_uint,
}
use epic_poold.Node.Values.{job_head, epoch_bounds, int_array_to_vector, store_prepow}
use epic_poold.Node.Template.{read_epochs}
use mathlib.Core.Bool.{false≢true}
use epic_poold.Client.{randomx, HashPools, Client, JobData, on_new_block, JobText, job_notice}
use epic_poold.Client.Job.{Sent}
use epic_poold.Node.Reply.{Call, read_call}
use epic_poold.Node.Handling.{Outcome, json_proc_msg-Outcome}
use epic_poold.Node.Typing.{Typed}
use epic_poold.Node.Invariant.{Reach, start, Reach-Complete, Reach-jobs}
use epic_poold.Node.Invariant as Invariant
use epic_poold.Node.Accepted.{Complete}
use epic_poold.Node.Missing.{json_proc_msg-missing_result}
use epic_poold.Node.Handout.{current_job-Sent}
use epic_poold.Node.Receive.{received, receive}
use epic_poold.Node.Stream.{ending_of, session, running}
use epic_poold.Node.Chunks.{Fits, Cut, joined, closed_after, receive-feed}
use epic_poold.Base.{map}
use epic_poold.Client.Stream.{feed}
use epic_poold.Client.Reader.{split_line}
use epic_poold.Node.{blank, Node, Services, edit_back, has_first_job, get_current_job}
use epic_poold.Node.Template.{Answer, taken}
use epic_poold.Node.Message.{line_end, json_proc_msg}
use epic_poold.Rpc.Documents.{
  Value, null, boolean, number, text, array, object, Values, end, entry, close, member, values,
  find, is_object, json,
}
use epic_poold.Node.Connect.{Connecting, unconnected, node_connect, connection_rounds}
use epic_poold.Node.Sockets.{leaks, Connected, connection_rounds-Connected}
use epic_poold.Node.Submit.{submit_message, send_job_result}
use epic_poold.Node.Submission.{IsByteList, send_job_result-Sent}
use epic_poold.ItoaLjust.Spec.{IsDecimal}
use epic_poold.Vector32.{all_zero}

abbrev numbers : ℕ → Values
numbers zero = end
numbers (suc n) = entry (number n) (numbers n)

abbrev pair : Value → Value → Value
pair v w = array (entry v (entry w end))

-- A job of height 5 in the epoch from 0 to 10, with a prepow of two bytes.
abbrev params : Value
params = object (
    member (codes "height") (number 5) (
      member (codes "algorithm") (text (codes "randomx")) (
        member (codes "block_difficulty")
          (array (entry (pair (text (codes "randomx")) (number 9)) end))
          (member (codes "epochs")
            (array (
              entry (array (entry (number 0) (entry (number 10) (entry (array (numbers 32)) end))))
                end))
            (member (codes "job_id") (number 3)
              (member (codes "pre_pow") (text (codes "0a0B")) close))))))

abbrev job_message : Value
job_message = object (
    member (codes "id") (text (codes "Stratum"))
      (member (codes "method") (text (codes "job")) (member (codes "params") params close)))

-- The world counts the datasets that were begun.
abbrev services : Services ℕ
services = record {
  has_dataset = λ world id. false;
  calculate_dataset = λ world seed. world + 1;
  notify_block = λ world height. world;
  notify_new_block = λ world. world;
  send = λ world bytes. (world, true);
  get_timestamp_ms = λ world. 1000;
}

abbrev fresh_node : Node ℕ
fresh_node = record { jobs = []; places = 0; current_job = none; last_job_ts = 0; world = 0 }

abbrev after : Try Answer × Node ℕ
after = json_proc_msg services (json job_message) 0 (codes "{}" ++ 10 ∷ []) fresh_node

taken_whole : after.0 ≡ ok (taken 3)
unfolding json_proc_msg values find get_json_call_id get_json_string get_json_uint job_head
    get_object_member_t get_array get_array_of get_string get_uint64 epoch_bounds get_uint
    int_array_to_vector edit_back store_prepow hex2bin read_epochs
taken_whole = refl

job_stored : after.1.current_job ≡ some 0
unfolding json_proc_msg values find get_json_call_id get_json_string get_json_uint job_head
    get_object_member_t get_array get_array_of get_string get_uint64 epoch_bounds get_uint
    int_array_to_vector edit_back store_prepow hex2bin read_epochs
job_stored = refl

one_dataset : after.1.world ≡ 1
unfolding json_proc_msg values find get_json_call_id get_json_string get_json_uint job_head
    get_object_member_t get_array get_array_of get_string get_uint64 epoch_bounds get_uint
    int_array_to_vector edit_back store_prepow hex2bin read_epochs
one_dataset = refl

uint_small : (v : Value) (k : ℕ) → get_uint (json job_message) v ≡ ok k → k < 2 ^ 32
unfolding get_uint
uint_small (number n) k e = elim (Bool-cases (ltb n (2 ^ 32))) [
  | inl small ↦ let h : ok n ≡ ok k = rw small at e in let same : n ≡ k = cc in ground arith
  | inr big ↦ let h : thrown ≡ ok k = rw big at e in cc
]
uint_small (boolean b) k e = cc
uint_small null k e = cc
uint_small (text s) k e = cc
uint_small (array entries) k e = cc
uint_small (object members) k e = cc

abbrev message : List ℕ
message = codes "{}" ++ 10 ∷ []

abbrev job_call : Call Value
job_call = record { method = codes "job"; result = some params; error = none }

job_call-Typed : Typed (json job_message) ⊥ job_call
job_call-Typed = record {
  report = λ e never. cc;
  present = λ _ _ never. cc;
  object = λ res _ _ e other. by_result res e other;
}
  where
    by_result : (res : Value) → some params ≡ some res → is_object res ≡ false → ⊥
    by_result res e other =
        let same : params ≡ res = cc in absurd (false≢true (sym (rw (← same) at other)))

message-Typed :
    (doc : Value) (call : Call Value)
    → some job_message ≡ some doc
    → read_call (json job_message) doc ≡ ok call
    → Typed (json job_message) ⊥ call
unfolding read_call get_json_call_id get_json_string find
message-Typed doc call e e' = let same : job_message ≡ doc = cc in by_call call (rw (← same) at e')
  where
    by_call :
        (call : Call Value)
        → read_call (json job_message) job_message ≡ ok call
        → Typed (json job_message) ⊥ call
    by_call call e = let is : job_call ≡ call = cc in rw (← is) job_call-Typed

json_proc_msg-Outcome_example :
    (answer : Answer) × (n' : Node ℕ) × (json_proc_msg services
        (json job_message)
        0
        message
        fresh_node
      ≡ (ok answer, n'))
    × Outcome (json job_message) 0 3 (some job_message) fresh_node answer n'
unfolding line_end
json_proc_msg-Outcome_example =
    json_proc_msg-Outcome services (json job_message) uint_small 0 fresh_node message 2 refl
      message-Typed

abbrev job_node : Node ℕ
job_node = after.1

reached : Reach services (json job_message) 0 job_node
unfolding json_proc_msg values find get_json_call_id get_json_string get_json_uint job_head
    get_object_member_t get_array get_array_of get_string get_uint64 epoch_bounds get_uint
    int_array_to_vector edit_back store_prepow hex2bin read_epochs
reached = Invariant.message (start fresh_node refl refl) 0 message 2 refl (taken 3) job_node refl

first_job : has_first_job job_node ≡ true
unfolding has_first_job json_proc_msg values find get_json_call_id get_json_string get_json_uint
    job_head get_object_member_t get_array get_array_of get_string get_uint64 epoch_bounds get_uint
    int_array_to_vector edit_back store_prepow hex2bin read_epochs
first_job = refl

Reach-Complete_example : (job : JobData) × (get_current_job job_node ≡ some job) × Complete job
Reach-Complete_example = Reach-Complete services (json job_message) uint_small reached first_job

Reach-jobs_example : length job_node.jobs ≤ 5
Reach-jobs_example = Reach-jobs services (json job_message) uint_small reached

abbrev countdown : ℕ → List ℕ
countdown zero = []
countdown (suc n) = n ∷ countdown n

abbrev the_job : JobData
the_job = record {
  type = randomx;
  block_diff = 9;
  height = 5;
  jobid = 3;
  prepow = 10 ∷ 11 ∷ replicate 382 0;
  prepow_len = 10;
  rx_seed = record { bytes = countdown 32 };
  rx_next_seed = all_zero;
}

current_is : get_current_job job_node ≡ some the_job
unfolding get_current_job json_proc_msg values find get_json_call_id get_json_string get_json_uint
    job_head get_object_member_t get_array get_array_of get_string get_uint64 epoch_bounds get_uint
    int_array_to_vector edit_back store_prepow hex2bin read_epochs
current_is = refl

abbrev pools : HashPools
pools = record {
  rx = λ blob id. record { hash = all_zero; error = false };
  pp = λ blob block word. record { hash = all_zero; error = false };
}

abbrev writes : ℕ → Bool
writes n = true

abbrev miner : Client
miner = record {
  aborting = false;
  flood_timestamp = 0;
  flood_count = 0;
  logged_in = true;
  cur_job = the_job;
  jobid = 0;
  extra_nonce = 5;
  sent = [];
  results = [];
}

current_job-Sent_example :
    ((the_job.prepow_len < 384)
      × (c' : Client) × (spelt : JobText) × (on_new_block pools the_job writes miner
          ≡ some (c', true))
      × (c'.sent ≡ job_notice spelt ∷ [])
      × Sent miner c' the_job spelt)
    ⊎ ((the_job.prepow_len ≡ 384) × (on_new_block pools the_job writes miner ≡ none))
current_job-Sent_example =
    current_job-Sent services (json job_message) uint_small the_job pools writes miner reached
      current_is refl refl

-- A reply whose error is null and that has no result.
abbrev empty_reply : Value
empty_reply = object (
    member (codes "id") (number 1)
      (member (codes "method") (text (codes "getjobtemplate")) (member (codes "error") null close)))

json_proc_msg-missing_result_example :
    json_proc_msg services (json empty_reply) 0 message fresh_node ≡ (fault, fresh_node)
unfolding line_end get_json_call_id get_json_string find
json_proc_msg-missing_result_example =
    json_proc_msg-missing_result services (json empty_reply) 0 1 fresh_node message 2 empty_reply
      null refl refl refl refl refl refl refl refl

abbrev pieces : List (List ℕ)
pieces = codes "}" ∷ (10 ∷ codes "{") ∷ []

receive-feed_example :
    (Fits (codes "{") pieces
      × (receive services
            (json job_message)
            (λ n. 0)
            1000
            100
            fresh_node
            (codes "{")
            (map received pieces)
          ≡ some (
              ending_of services
                (json job_message)
                (λ n. 0)
                (feed
                  (session services (json job_message) (λ n. 0))
                  (running fresh_node)
                  (codes "{")
                  (joined pieces)))))
    ⊎ ((cut : Cut (codes "{") pieces) × (receive services
            (json job_message)
            (λ n. 0)
            1000
            100
            fresh_node
            (codes "{")
            (map received pieces)
          ≡ some (
              closed_after services
                (json job_message)
                (λ n. 0)
                (feed
                  (session services (json job_message) (λ n. 0))
                  (running fresh_node)
                  (codes "{")
                  (joined cut.front)))))
unfolding split_line
receive-feed_example =
    receive-feed services (json job_message) (λ n. 0) uint_small 1000 100 fresh_node (codes "{")
      pieces refl

-- A block of height 5 for the job 3, found with the nonce 1234.
abbrev solved : JobData
solved = record blank { height = 5; jobid = 3 }

send_job_result-Sent_example :
    (height jobid number pow : List ℕ) × IsDecimal 5 height
    × IsDecimal 3 jobid
    × IsDecimal 1234 number
    × IsByteList all_zero.bytes pow
    × (send_job_result solved 1234 all_zero ≡ some (submit_message height jobid number pow))
send_job_result-Sent_example =
    send_job_result-Sent solved 1234 all_zero (omega arith) (omega arith) (omega arith)
      (omega arith)

-- An unknown name, no socket, a refused and a good connection.
abbrev tried : List Connecting
tried =
    record { resolved = false; sck = none; connected = false }
    ∷ record { resolved = true; sck = none; connected = false }
    ∷ record { resolved = true; sck = some 4; connected = false }
    ∷ record { resolved = true; sck = some 4; connected = true }
    ∷ []

abbrev tried_again : Connecting
tried_again = record { resolved = true; sck = some 4; connected = true }

connection_rounds-Connected_example :
    (connection_rounds tried unconnected ≡ record unconnected { address_lists = leaks tried })
    × (((node_connect tried_again (connection_rounds tried unconnected)).0 ≡ false)
        ⊎ Connected (node_connect tried_again (connection_rounds tried unconnected)).1)
connection_rounds-Connected_example = connection_rounds-Connected tried tried_again
