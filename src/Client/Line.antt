-- ===== src/Client/Line.antt =====
-- client.cpp, process_line: one line from the miner, the limit on its calls, and the method that the
-- table has under its name.
use epic_poold.Base.{
  ℕ, ◌+◌, ◌-◌, ◌%◌, ◌^◌, Bool, true, false, not, ◌&&◌, ◌||◌, Option, none, some, List, [], ◌∷◌,
  ◌++◌, ltb, ◌==◌, if◌then◌else◌, length, take, codes, same_text, c_string, leb,
}
use epic_poold.Codec.{◌>>=◌}
use epic_poold.Client.{
  JobData, HashPools, Json, Client, malformed_request, slow_down, unknown_method, malformed_submit,
  send_error_response, process_method_login, process_method_keepalive, submit_texts,
}

-- The window of the calls: `flood_timestamp` and `flood_count` at the time of a call, and whether
-- the call is served.
unfoldable pub flood_gate : ℕ → Client → ℕ → Client × Bool
flood_gate max_calls c time =
    let counted =
      if ltb 60 (time - c.flood_timestamp)
      then record c { flood_timestamp = time; flood_count = 1 }
      else record c { flood_count = (c.flood_count + 1) % 2 ^ 32 } in
    (counted, leb counted.flood_count max_calls)

-- strcasecmp on ASCII.
abbrev pub lower : ℕ → ℕ
lower c = if leb 65 c && leb c 90 then c + 32 else c

abbrev pub lowered : List ℕ → List ℕ
lowered [] = []
lowered (c ∷ s) = lower c ∷ lowered s

unfoldable pub same_name : List ℕ → List ℕ → Bool
same_name s t = same_text (lowered s) (lowered t)

module _ {V : Type 0} (json : Json V) where
  -- A member that is there and is a string.
  abbrev pub string_member : V → List ℕ → Option (List ℕ)
  string_member args key = do
    v ← json.find_member args key
    if json.is_string v then some (json.get_string v) else none

  abbrev pub call_id_of : Option V → ℕ
  call_id_of none = 0
  call_id_of (some v) = if json.is_int64 v then json.get_int64 v else 0

  module _ (pools : HashPools) (current : JobData) (writes : ℕ → Bool) where
    -- process_method_submit, with the lengths of its three texts.
    unfoldable pub submit_checked :
        Client → ℕ → Option (List ℕ) → Option (List ℕ) → Option (List ℕ) → Option Client
    submit_checked c call_id (some s_jobid) (some s_nonce) (some s_result) =
        if not (length s_jobid == 8) || not (length s_nonce == 8) || not (length s_result == 64)
        then some (send_error_response pools current writes c call_id malformed_submit)
        else submit_texts pools current writes c call_id s_jobid s_nonce s_result
    submit_checked c call_id _ _ _ =
        some (send_error_response pools current writes c call_id malformed_submit)

    unfoldable pub process_method_submit : Client → ℕ → V → Option Client
    unfolding submit_checked
    process_method_submit c call_id args =
        submit_checked c call_id (string_member args (codes "job_id"))
          (string_member args (codes "nonce")) (string_member args (codes "result"))

    -- call_tab.
    unfoldable pub call_method : Client → ℕ → List ℕ → V → Option Client
    unfolding same_name process_method_submit
    call_method c call_id name args =
        if same_name (codes "submit") name
        then process_method_submit c call_id args
        else if same_name (codes "login") name
        then process_method_login pools current writes c call_id
        else if same_name (codes "keepalived") name
        then some (process_method_keepalive pools current writes c call_id)
        else some (send_error_response pools current writes c call_id unknown_method)

    -- A request with its method and its object of arguments.
    unfoldable pub serve_call : ℕ → ℕ → Client → ℕ → List ℕ → V → Option Client
    unfolding flood_gate call_method
    serve_call max_calls time c call_id name args =
        let (counted, served) = flood_gate max_calls c time in
        if served
        then call_method counted call_id (c_string name) args
        else some (send_error_response pools current writes counted call_id slow_down)

    unfoldable pub serve_request : ℕ → ℕ → Client → V → Option Client
    unfolding serve_call
    serve_request max_calls time c doc =
        let call_id = call_id_of (json.find_member doc (codes "id")) in
        let malformed =
          some (send_error_response pools current writes c call_id malformed_request) in
        elim (string_member doc (codes "method")) [
          | none ↦ malformed
          | some name ↦ elim (json.find_member doc (codes "params")) [
            | none ↦ malformed
            | some args ↦
                if json.is_object args
                then serve_call max_calls time c call_id name args
                else malformed
          ]
        ]

    -- The line stands in the buffer with its newline, which is overwritten by a terminator.
    unfoldable pub process_line : ℕ → ℕ → Client → List ℕ → Option (Client × Bool)
    unfolding serve_request
    process_line max_calls time c buf =
        if length buf == 0
        then some (c, false)
        else elim (json.parse (c_string (take (length buf - 1) buf ++ 0 ∷ []))) [
          | none ↦ some (c, false)
          | some doc ↦
              if not (json.is_object doc)
              then some (c, false)
              else do c' ← serve_request max_calls time c doc; some (c', true)
        ]
