-- ===== src/Node/Receive.antt =====
-- node.cpp, recv_main and thread_main's part of it: what arrives from the node, the buffer, and the two
-- timeouts. What `recv` returns is a list of events.
use epic_poold.Base.{
  ℕ, zero, suc, ◌+◌, ◌-◌, ◌*◌, ◌%◌, ◌^◌, not, Option, none, some, List, [], ◌∷◌, ◌++◌, ltb, leb,
  ◌==◌, if◌then◌else◌, length, take, drop, codes,
}
use epic_poold.Rpc.{Try, ok, thrown, fault, JsonValues}
use epic_poold.Node.{Node, Services, send_template_request, data_buffer_len}
use epic_poold.Node.Template.{Answer, incomplete, taken, failed}
use epic_poold.Node.Message.{json_proc_msg}

-- Bytes, of which the buffer takes as many as it has room for; a timeout or an interruption, with the clock
-- when it is noticed and when the request was sent; the end of the connection, or an error.
pub data Arrival : Type 0 where
  received : List ℕ → Arrival
  timed_out : ℕ → ℕ → Arrival
  hung_up : Arrival

-- The function returns, or the process exits on a fatal timeout or a fault, or it waits for more with an
-- open message in the buffer.
pub data Ending (E : Type 0) : Type 0 where
  returned : Node E → Ending E
  exited : Node E → Ending E
  faulted : Node E → Ending E
  waiting : Node E → List ℕ → Ending E

-- Subtraction of uint64_t.
abbrev pub minus64 : ℕ → ℕ → ℕ
minus64 a b = (a + (2 ^ 64 - b)) % 2 ^ 64

unfoldable pub login_request : List ℕ → List ℕ → List ℕ
login_request username password =
    codes "{\"id\":\"0\",\"jsonrpc\":\"2.0\",\"method\":\"login\", \"params\":{\"login\":\""
    ++ (username
        ++ (codes "\",\"pass\":\""
            ++ (password ++ (codes "\",\"agent\":\"epic_poold\"}}" ++ 10 ∷ []))))

module _ {E V : Type 0} (services : Services E) (json : JsonValues V) (garbage : Node E → ℕ) where
  -- What follows a message in front of the buffer.
  abbrev pub after_message :
      (Node E → List ℕ → Option (Ending E)) → List ℕ → Try Answer × Node E → Option (Ending E)
  after_message go_on msgstart (ok incomplete, n) = some (waiting n msgstart)
  after_message go_on msgstart (ok (taken retlen), n) = go_on n (drop retlen msgstart)
  after_message go_on msgstart (ok failed, n) = some (returned n)
  after_message go_on msgstart (thrown, n) = some (faulted n)
  after_message go_on msgstart (fault, n) = some (faulted n)

  -- The inner loop, with the messages that are left in the buffer; none is too little fuel.
  unfoldable pub serve_messages : ℕ → Node E → List ℕ → Option (Ending E)
  unfolding json_proc_msg
  serve_messages zero n msgstart = none
  serve_messages (suc fuel) n msgstart =
      after_message (serve_messages fuel) msgstart
        (json_proc_msg services json (garbage n) msgstart n)

  -- A timeout: `fatal` and `template` are the limits in milliseconds.
  unfoldable pub on_timeout : ℕ → ℕ → ℕ → ℕ → Node E → List ℕ → Ending E
  unfolding send_template_request
  on_timeout fatal template now sent n buf =
      let last_job_delta = minus64 now n.last_job_ts in
      if ltb fatal last_job_delta
      then exited n
      else if ltb template last_job_delta
      then waiting (record (send_template_request services n) { last_job_ts = sent }) buf
      else waiting n buf

  -- Bytes behind those in the buffer.
  unfoldable pub on_bytes : Node E → List ℕ → List ℕ → Option (Ending E)
  unfolding serve_messages
  on_bytes n buf bytes =
      if length bytes == 0
      then some (returned n)
      else if leb data_buffer_len (length (buf ++ bytes))
      then some (returned n)
      else serve_messages (suc (length (buf ++ bytes))) n (buf ++ bytes)

  unfoldable pub on_arrival : ℕ → ℕ → Node E → List ℕ → Arrival → Option (Ending E)
  unfolding on_bytes on_timeout
  on_arrival fatal template n buf (received bytes) = on_bytes n buf bytes
  on_arrival fatal template n buf (timed_out now sent) =
      some (on_timeout fatal template now sent n buf)
  on_arrival fatal template n buf hung_up = some (returned n)

  abbrev pub if_waiting :
      (Node E → List ℕ → Option (Ending E)) → Option (Ending E) → Option (Ending E)
  if_waiting go_on (some (waiting n buf)) = go_on n buf
  if_waiting go_on (some (returned n)) = some (returned n)
  if_waiting go_on (some (exited n)) = some (exited n)
  if_waiting go_on (some (faulted n)) = some (faulted n)
  if_waiting go_on none = none

  -- The loop over what arrives; `run_loop` is set as long as there is more.
  unfoldable pub receive : ℕ → ℕ → Node E → List ℕ → List Arrival → Option (Ending E)
  unfolding on_arrival
  receive fatal template n buf [] = some (waiting n buf)
  receive fatal template n buf (arrival ∷ more) =
      if_waiting (λ n' buf'. receive fatal template n' buf' more)
        (on_arrival fatal template n buf arrival)

  -- recv_main. snprintf returns the length that the whole text has, of which the buffer holds the front
  -- with a terminator; `send` is told to read that length.
  unfoldable pub recv_main : ℕ → ℕ → List ℕ → List ℕ → Node E → List Arrival → Option (Ending E)
  unfolding receive login_request
  recv_main fatal_node_timeout template_timeout username password n arrivals =
      let login = login_request username password in
      let send_buffer = take (data_buffer_len - 1) login ++ 0 ∷ [] in
      let (world, sent) = services.send n.world (take (length login) send_buffer) in
      let n' = record n { last_job_ts = services.get_timestamp_ms n.world; world = world } in
      if ltb data_buffer_len (length login)
      then some (faulted n)
      else if not sent
      then some (returned n')
      else receive (fatal_node_timeout * 1000) (template_timeout * 1000) n' [] arrivals

  -- thread_main, over its connections; none is one that fails.
  unfoldable pub thread_main :
      ℕ → ℕ → List ℕ → List ℕ → Node E → List (Option (List Arrival)) → Option (Ending E)
  unfolding recv_main
  thread_main fatal_node_timeout template_timeout username password n [] = some (returned n)
  thread_main fatal_node_timeout template_timeout username password n (none ∷ more) =
      thread_main fatal_node_timeout template_timeout username password n more
  thread_main fatal_node_timeout template_timeout username password n (some arrivals ∷ more) =
      elim (recv_main fatal_node_timeout template_timeout username password n arrivals) [
        | some (returned n') ↦
            thread_main fatal_node_timeout template_timeout username password n' more
        | ending ↦ ending
      ]
