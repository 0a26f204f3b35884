-- ===== src/Node/Handling.antt =====
-- node.cpp, json_proc_msg: what a message does to the node, whatever it is.
use epic_poold.Base.{
  ℕ, ◌+◌, ◌^◌, ◌<◌, ◌≡◌, ◌⊎◌, refl, sym, ◌∙◌, inl, inr, true, false, Option, none, some, List, [],
  ◌∷◌, ◌++◌, ◌==◌, if◌then◌else◌, codes, take, c_string, Bool-cases,
}
use mathlib.Core.Bool.{false≢true}
use epic_poold.Rpc.{Try, ok, thrown, fault, JsonValues, reads_as, get_uint, get_json_uint}
use epic_poold.Rpc.Laws.{get_json_uint-Fails}
use epic_poold.Node.{Node, Services, send_template_request}
use epic_poold.Node.Reply.{Call, read_call, report_error}
use epic_poold.Node.Template.{Answer, taken, failed, load_job}
use epic_poold.Node.Message.{
  line_end, take_job, call_plain, serve_method, caught, proc_doc, json_proc_msg,
}
use epic_poold.Node.Run.{Ends, Ends-lift, Ends-map, pure, modify, ◌>>◌}
use epic_poold.Node.Jobs.{JobAnswer, load_job-Answer}
use epic_poold.Node.Accepted.{Accepted, Untouched, Refused}
use epic_poold.Node.Typing.{is_job, Typed, read_call-Fails}

-- The node behind a message that it took: one that is no job, or a job that it accepted.
abbrev pub Took : {E V : Type 0} → JsonValues V → ℕ → Call V → Node E → Node E → Type 0
Took {V = V} json garbage call n n' =
    Untouched n n'
    ⊎ ((res : V) × (height : ℕ) × (call.result ≡ some res)
        × (get_json_uint json res (codes "height") ≡ ok height)
        × Accepted json garbage res height n n')

abbrev pub CallAnswer :
    {E V : Type 0} → JsonValues V → ℕ → ℕ → Call V → Node E → Answer → Node E → Type 0
CallAnswer json garbage msglen call n answer n' =
    ((answer ≡ taken msglen) × Took json garbage call n n') ⊎ ((answer ≡ failed) × Untouched n n')

module _ {E V : Type 0} (services : Services E) (json : JsonValues V) (broken : Type 0)
    (uint_small : (v : V) (k : ℕ) → get_uint json v ≡ ok k → k < 2 ^ 32) (garbage msglen : ℕ)
    (n : Node E) (call : Call V) (typed : Typed json broken call) where
  asked : Untouched n (send_template_request services n)
  unfolding send_template_request
  asked = record { jobs = refl; current = refl; places = refl }

  same : Untouched n n
  same = record { jobs = refl; current = refl; places = refl }

  take_job-Answer :
      call.error ≡ none
      → is_job call.method ≡ true
      → (result : Option V) → call.result ≡ result
      → Ends broken
          (CallAnswer json garbage msglen call n)
          (Refused n)
          (take_job services json garbage msglen result n)
  unfolding take_job
  take_job-Answer fine job none e = typed.present fine job e
  take_job-Answer fine job (some res) e =
      Ends-lift broken (CallAnswer json garbage msglen call n) (Refused n)
        (get_json_uint json res (codes "height"))
        (λ height.
          if height == 0
          then modify (send_template_request services) >> pure (taken msglen)
          else load_job services json garbage msglen height res)
        n (λ height e'. by_height height e' (Bool-cases (height == 0))) (λ e'. inl same)
        (get_json_uint-Fails broken json res (typed.object res fine job e) (codes "height"))
    where
      accepted :
          (height : ℕ)
          → get_json_uint json res (codes "height") ≡ ok height
          → (answer : Answer) (n' : Node E)
          → JobAnswer services json n broken uint_small res
              (typed.object res fine job e)
              garbage
              msglen
              height
              answer
              n'
          → CallAnswer json garbage msglen call n answer n'
      accepted height e' answer n' (inl (is, acc)) = inl (is, inr (res, height, e, e', acc))
      accepted height e' answer n' (inr refused) = inr refused

      by_height :
          (height : ℕ)
          → get_json_uint json res (codes "height") ≡ ok height
          → ((height == 0) ≡ true) ⊎ ((height == 0) ≡ false)
          → Ends broken (CallAnswer json garbage msglen call n) (Refused n) (
              (if height == 0
                  then modify (send_template_request services) >> pure (taken msglen)
                  else load_job services json garbage msglen height res)
                n)
      by_height height e' (inl none_yet) = rw none_yet (inl (refl, inl asked))
      by_height height e' (inr some_height) = rw some_height (
          Ends-map broken
            (JobAnswer services json n broken uint_small res (typed.object res fine job e) garbage
              msglen height)
            (CallAnswer json garbage msglen call n) (Refused n) (accepted height e') _
            (load_job-Answer services json n broken uint_small res (typed.object res fine job e)
              garbage msglen height))

  call_plain-Answer :
      call.error ≡ none
      → Ends broken
          (CallAnswer json garbage msglen call n)
          (Refused n)
          (call_plain services json garbage msglen call n)
  unfolding call_plain
  call_plain-Answer fine = elim (Bool-cases (reads_as call.method (codes "submit"))) [
    | inl submit ↦ rw submit (inl (refl, inl same))
    | inr other ↦ elim (Bool-cases (reads_as call.method (codes "login"))) [
      | inl login ↦ rw (other, login) (inl (refl, inl asked))
      | inr other' ↦ elim (Bool-cases (is_job call.method)) [
        | inl job ↦ rw (other, other', job) (take_job-Answer fine job call.result refl)
        | inr none_is ↦ rw (other, other', none_is) (inl same)
      ]
    ]
  ]

  serve_method-Answer :
      (error : Option V)
      → call.error ≡ error
      → Ends broken
          (CallAnswer json garbage msglen call n)
          (Refused n)
          (serve_method services json garbage msglen call error n)
  unfolding serve_method
  serve_method-Answer none e = call_plain-Answer e
  serve_method-Answer (some error) e =
      Ends-lift broken (CallAnswer json garbage msglen call n) (Refused n) (report_error json error)
        (λ done. pure (taken msglen)) n (λ done e'. inl (refl, inl same)) (λ e'. inl same)
        (typed.report error e)

-- The outcome of a message that ends at index i.
abbrev pub Outcome :
    {E V : Type 0} → JsonValues V → ℕ → ℕ → Option V → Node E → Answer → Node E → Type 0
Outcome {V = V} json garbage msglen parsed n answer n' =
    ((answer ≡ taken msglen)
      × (doc : V) × (call : Call V) × (parsed ≡ some doc)
      × (read_call json doc ≡ ok call)
      × Took json garbage call n n')
    ⊎ ((answer ≡ failed) × Refused n n')

-- The parts of an object whose message goes on to its method.
module _ {E V : Type 0} (services : Services E) (json : JsonValues V) (broken : Type 0)
    (uint_small : (v : V) (k : ℕ) → get_uint json v ≡ ok k → k < 2 ^ 32) (garbage msglen : ℕ)
    (n : Node E) where
  caught-Outcome :
      (parsed : Option V) (r : Try Answer × Node E)
      → Ends broken (Outcome json garbage msglen parsed n) (Refused n) r
      → Ends broken (Outcome json garbage msglen parsed n) (λ n'. ⊥) (caught r)
  caught-Outcome parsed (ok answer, n') h = h
  caught-Outcome parsed (thrown, n') h = inr (refl, h)
  caught-Outcome parsed (fault, n') h = h

  ran :
      (doc : V) (call : Call V)
      → read_call json doc ≡ ok call
      → (answer : Answer) (n' : Node E) → CallAnswer json garbage msglen call n answer n'
      → Outcome json garbage msglen (some doc) n answer n'
  ran doc call e answer n' (inl (is, took)) = inl (is, doc, call, refl, e, took)
  ran doc call e answer n' (inr (is, untouched)) = inr (is, inl untouched)

  -- The calls of a document that was parsed are typed.
  abbrev pub TypedIn : Option V → Type 0
  TypedIn parsed =
      (doc : V) (call : Call V)
      → parsed ≡ some doc
      → read_call json doc ≡ ok call
      → Typed json broken call

  proc_doc-Outcome :
      (parsed : Option V)
      → TypedIn parsed
      → Ends broken
          (Outcome json garbage msglen parsed n)
          (λ n'. ⊥)
          (proc_doc services json garbage msglen parsed n)
  unfolding proc_doc
  proc_doc-Outcome none typed =
      inr (refl, inl (record { jobs = refl; current = refl; places = refl }))
  proc_doc-Outcome (some doc) typed = elim (Bool-cases (json.is_object doc)) [
    | inr other ↦ rw other (inr (refl, inl (record { jobs = refl; current = refl; places = refl })))
    | inl object ↦ rw object (
        caught-Outcome (some doc) _ (
          Ends-lift broken (Outcome json garbage msglen (some doc) n) (Refused n)
            (read_call json doc) (λ call. serve_method services json garbage msglen call call.error)
            n
            (λ call e.
              Ends-map broken (CallAnswer json garbage msglen call n)
                (Outcome json garbage msglen (some doc) n) (Refused n) (ran doc call e) _
                (serve_method-Answer services json broken uint_small garbage msglen n call
                  (typed doc call refl e) call.error refl))
            (λ e. inl (record { jobs = refl; current = refl; places = refl }))
            (read_call-Fails json broken doc (λ e. absurd (false≢true (sym e ∙ object))))))
  ]

  pub json_proc_msg-Ends :
      (msg : List ℕ) (i : ℕ)
      → line_end msg ≡ some i
      → msglen ≡ i + 1
      → TypedIn (json.parse (c_string (take i msg ++ 0 ∷ [])))
      → Ends broken
          (Outcome json garbage msglen (json.parse (c_string (take i msg ++ 0 ∷ []))) n)
          (λ n'. ⊥)
          (json_proc_msg services json garbage msg n)
  unfolding json_proc_msg
  json_proc_msg-Ends msg i e size typed =
      rw (json_proc_msg, e, ← size)
        (proc_doc-Outcome (json.parse (c_string (take i msg ++ 0 ∷ []))) typed)

returned :
    {S A : Type 0} {holds : A → S → Type 0} (r : Try A × S)
    → Ends ⊥ holds (λ s. ⊥) r
    → (a : A) × (s : S) × (r ≡ (ok a, s)) × holds a s
returned (ok a, s) h = (a, s, refl, h)
returned (thrown, s) h = absurd h
returned (fault, s) h = absurd h

-- A message up to a newline, whose parts have the types that the code takes for granted, is answered: it
-- is taken whole, and it either leaves the jobs as they are or is a job, which is then the current one and
-- is the job that the message describes; or it is refused, and the current job stays. The numbers that the
-- parser calls 32-bit are.
pub json_proc_msg-Outcome :
    {E V : Type 0} (services : Services E) (json : JsonValues V)
    → ((v : V) (k : ℕ) → get_uint json v ≡ ok k → k < 2 ^ 32)
    → (garbage : ℕ) (n : Node E) (msg : List ℕ) (i : ℕ) → line_end msg ≡ some i
    → ((doc : V) (call : Call V)
        → json.parse (c_string (take i msg ++ 0 ∷ [])) ≡ some doc
        → read_call json doc ≡ ok call
        → Typed json ⊥ call)
    → (answer : Answer) × (n' : Node E) × (json_proc_msg services json garbage msg n
        ≡ (ok answer, n'))
      × Outcome json garbage (i + 1) (json.parse (c_string (take i msg ++ 0 ∷ []))) n answer n'
json_proc_msg-Outcome services json uint_small garbage n msg i e typed =
    returned _ (json_proc_msg-Ends services json ⊥ uint_small garbage (i + 1) n msg i e refl typed)
