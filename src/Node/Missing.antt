-- ===== src/Node/Missing.antt =====
-- node.cpp, json_proc_msg: a reply without a result.
use epic_poold.Base.{ℕ, ◌≡◌, refl, true, none, some, List, [], ◌∷◌, ◌++◌, codes, take, c_string}
use epic_poold.Rpc.{ok, fault, JsonValues, get_json_call_id, get_json_string, get_object_member}
use epic_poold.Node.{Node, Services}
use epic_poold.Node.Reply.{read_call, read_parts, reply_parts}
use epic_poold.Node.Message.{line_end, json_proc_msg, proc_doc, serve_method, call_plain, take_job}

-- A reply to getjobtemplate that has no result, and whose error is there but null, is not refused: the
-- null pointer to its result is followed.
pub json_proc_msg-missing_result :
    {E V : Type 0} (services : Services E) (json : JsonValues V) (garbage call_id : ℕ) (n : Node E)
    (msg : List ℕ) (i : ℕ) (doc error : V)
    → line_end msg ≡ some i
    → json.parse (c_string (take i msg ++ 0 ∷ [])) ≡ some doc
    → json.is_object doc ≡ true
    → get_json_call_id json doc ≡ ok (some call_id)
    → get_json_string json doc (codes "method") ≡ ok (codes "getjobtemplate")
    → json.find_member doc (codes "result") ≡ none
    → json.find_member doc (codes "error") ≡ some error
    → json.is_null error ≡ true
    → json_proc_msg services json garbage msg n ≡ (fault, n)
unfolding json_proc_msg proc_doc read_call read_parts reply_parts get_object_member serve_method
    call_plain take_job
json_proc_msg-missing_result services json garbage call_id n msg i doc error e parsed object id
      method no_result with_error null =
    rw (json_proc_msg, e, parsed, object, called) refl
  where
    called :
        read_call json doc
        ≡ ok (record { method = codes "getjobtemplate"; result = none; error = none })
    called = rw (id, method, object, no_result, with_error, null) refl
