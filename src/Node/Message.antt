-- ===== src/Node/Message.antt =====
-- node.cpp, json_proc_msg: one message of the node, by its method.
use epic_poold.Base.{
  ℕ, suc, ◌+◌, not, ◌||◌, Option, none, some, List, [], ◌∷◌, ◌++◌, ◌==◌, if◌then◌else◌, take, codes,
  c_string,
}
use epic_poold.Rpc.{Try, ok, thrown, fault, or_fault, JsonValues, reads_as, get_json_uint}
use epic_poold.Node.{Node, Services, send_template_request}
use epic_poold.Node.Reply.{Call, read_call, report_error}
use epic_poold.Node.Template.{Answer, incomplete, taken, failed, load_job}
use epic_poold.Node.Run.{Step, pure, lift, modify, ◌>>=◌, ◌>>◌}

-- Where the newline is.
unfoldable pub line_end : List ℕ → Option ℕ
line_end [] = none
line_end (c ∷ msg) =
    let later = line_end msg in
    if c == 10 then some 0 else elim later [ none ↦ none | some i ↦ some (suc i) ]

-- The catch.
abbrev pub caught : {E : Type 0} → Try Answer × Node E → Try Answer × Node E
caught (ok answer, n) = (ok answer, n)
caught (thrown, n) = (ok failed, n)
caught (fault, n) = (fault, n)

module _ {E V : Type 0} (services : Services E) (json : JsonValues V) where
  -- The methods job and getjobtemplate.
  unfoldable pub take_job : ℕ → ℕ → Option V → Step (Node E) Answer
  unfolding load_job send_template_request
  take_job garbage msglen result = do
    res ← lift (or_fault result)
    height ← lift (get_json_uint json res (codes "height"))
    if height == 0
        then modify (send_template_request services) >> pure (taken msglen)
        else load_job services json garbage msglen height res

  unfoldable pub call_plain : ℕ → ℕ → Call V → Step (Node E) Answer
  unfolding take_job
  call_plain garbage msglen call =
      if reads_as call.method (codes "submit")
      then pure (taken msglen)
      else if reads_as call.method (codes "login")
      then modify (send_template_request services) >> pure (taken msglen)
      else if reads_as call.method (codes "job") || reads_as call.method (codes "getjobtemplate")
      then take_job garbage msglen call.result
      else lift thrown

  unfoldable pub serve_method : ℕ → ℕ → Call V → Option V → Step (Node E) Answer
  unfolding call_plain
  serve_method garbage msglen call none = call_plain garbage msglen call
  serve_method garbage msglen call (some error) =
      lift (report_error json error) >> pure (taken msglen)

  unfoldable pub proc_doc : ℕ → ℕ → Option V → Step (Node E) Answer
  unfolding serve_method read_call
  proc_doc garbage msglen none n = (ok failed, n)
  proc_doc garbage msglen (some doc) n =
      if not (json.is_object doc)
      then (ok failed, n)
      else caught
          ((do call ← lift (read_call json doc); serve_method garbage msglen call call.error) n)

  -- A message up to its newline.
  unfoldable pub json_proc_msg : ℕ → List ℕ → Step (Node E) Answer
  unfolding line_end proc_doc
  json_proc_msg garbage msg = elim (line_end msg) [
    | none ↦ pure incomplete
    | some i ↦ proc_doc garbage (i + 1) (json.parse (c_string (take i msg ++ 0 ∷ [])))
  ]
