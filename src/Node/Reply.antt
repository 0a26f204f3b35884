-- ===== src/Node/Reply.antt =====
-- node.cpp, json_proc_msg: the parts of a message, and the report of an error.
use epic_poold.Base.{ℕ, ◌&&◌, Option, none, some, List, if◌then◌else◌, codes}
use epic_poold.Rpc.{
  Try, ok, thrown, fault, ◌>>=◌, JsonValues, get_object_member, get_object_member_t,
  get_json_call_id, get_json_string,
}

-- A message, with `error` only if it is not null.
pub record Call (V : Type 0) : Type 0 where
  pub method : List ℕ
  pub result : Option V
  pub error : Option V

module _ {V : Type 0} (json : JsonValues V) where
  -- The parts of a reply.
  unfoldable pub reply_parts : List ℕ → Option V → Option V → Try (Call V)
  reply_parts method none none = thrown
  reply_parts method result (some e) =
      ok (record {
        method = method;
        result = result;
        error = if json.is_null e then none else some e;
      })
  reply_parts method result none = ok (record { method = method; result = result; error = none })

  unfoldable pub invoke_parts : List ℕ → Option V → Try (Call V)
  invoke_parts method none = thrown
  invoke_parts method (some params) =
      ok (record { method = method; result = some params; error = none })

  unfoldable pub read_parts : V → List ℕ → Option ℕ → Try (Call V)
  unfolding reply_parts invoke_parts
  read_parts doc method (some call_id) = do
    result ← get_object_member json doc (codes "result")
    error ← get_object_member json doc (codes "error")
    reply_parts method result error
  read_parts doc method none = do
    params ← get_object_member json doc (codes "params")
    invoke_parts method params

  unfoldable pub read_call : V → Try (Call V)
  unfolding read_parts
  read_call doc = do
    call_id ← get_json_call_id json doc
    method ← get_json_string json doc (codes "method")
    read_parts doc method call_id

  -- GetString and GetInt assert the types of what they read.
  unfoldable pub report_error : V → Try Unit
  report_error error = do
    error_msg ← get_object_member_t json error (codes "message")
    error_cde ← get_object_member_t json error (codes "code")
    if json.is_string error_msg && json.is_int error_cde then ok tt else fault
