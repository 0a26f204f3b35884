-- ===== src/Node/Typing.antt =====
-- node.cpp, json_proc_msg: the messages whose parts have the types that the code takes for granted.
use epic_poold.Base.{ℕ, ◌≡◌, Bool, true, false, ◌||◌, Option, none, some, List, codes}
use epic_poold.Rpc.{
  ok, thrown, or_thrown, JsonValues, reads_as, get_json_call_id, get_object_member, get_json_string,
  json_strtoul,
}
use epic_poold.Rpc.Laws.{
  Fails, Fails-then, Fails-if, ok-Fails, thrown-Fails, or_thrown-Fails, get_object_member-Fails,
  get_json_string-Fails,
}
use epic_poold.Node.Reply.{Call, read_call, read_parts, reply_parts, invoke_parts, report_error}

abbrev pub is_job : List ℕ → Bool
is_job method = reads_as method (codes "job") || reads_as method (codes "getjobtemplate")

module _ {V : Type 0} (json : JsonValues V) (broken : Type 0) where
  -- A call whose parts have the types that the code takes for granted, or else `broken` holds.
  pub record Typed (call : Call V) : Type 0 where
    pub report : (e : V) → call.error ≡ some e → Fails broken (report_error json e)
    pub present : call.error ≡ none → is_job call.method ≡ true → call.result ≡ none → broken
    pub object :
        (res : V)
        → call.error ≡ none
        → is_job call.method ≡ true
        → call.result ≡ some res
        → json.is_object res ≡ false
        → broken

  read_parts-Fails :
      (doc : V) (object : json.is_object doc ≡ false → broken) (method : List ℕ)
      (call_id : Option ℕ)
      → Fails broken (read_parts json doc method call_id)
  unfolding read_parts reply_parts invoke_parts
  read_parts-Fails doc object method (some call_id) =
      Fails-then broken (get_object_member json doc (codes "result")) _
        (get_object_member-Fails broken json doc object (codes "result"))
        (λ result _.
          Fails-then broken (get_object_member json doc (codes "error")) _
            (get_object_member-Fails broken json doc object (codes "error"))
            (λ error _. of_parts result error))
    where
      of_parts : (result error : Option V) → Fails broken (reply_parts json method result error)
      of_parts none none = thrown-Fails broken
      of_parts none (some e) = ok-Fails broken _
      of_parts (some r) none = ok-Fails broken _
      of_parts (some r) (some e) = ok-Fails broken _
  read_parts-Fails doc object method none =
      Fails-then broken (get_object_member json doc (codes "params")) _
        (get_object_member-Fails broken json doc object (codes "params"))
        (λ params _. of_params params)
    where
      of_params : (params : Option V) → Fails broken (invoke_parts json method params)
      of_params none = thrown-Fails broken
      of_params (some v) = ok-Fails broken _

  get_json_call_id-Fails :
      (doc : V) → (json.is_object doc ≡ false → broken) → Fails broken (get_json_call_id json doc)
  unfolding get_json_call_id json_strtoul
  get_json_call_id-Fails doc object =
      Fails-then broken (get_object_member json doc (codes "id")) _
        (get_object_member-Fails broken json doc object (codes "id"))
        (λ member _. Fails-then broken (or_thrown member) _ (or_thrown-Fails broken member) (λ v _.
          Fails-if broken (json.is_string v) _ _
            (Fails-if broken (reads_as (json.get_string v) (codes "Stratum")) (ok none) _
              (ok-Fails broken _) (ok-Fails broken _))
            (Fails-if broken (json.is_uint v) (ok (some (json.get_uint v))) thrown
              (ok-Fails broken _) (thrown-Fails broken))))

  pub read_call-Fails :
      (doc : V) → (json.is_object doc ≡ false → broken) → Fails broken (read_call json doc)
  unfolding read_call
  read_call-Fails doc object =
      Fails-then broken (get_json_call_id json doc) _ (get_json_call_id-Fails doc object)
        (λ call_id _.
          Fails-then broken (get_json_string json doc (codes "method")) _
            (get_json_string-Fails broken json doc object (codes "method"))
            (λ method _. read_parts-Fails doc object method call_id))
