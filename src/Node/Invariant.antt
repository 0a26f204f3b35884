-- ===== src/Node/Invariant.antt =====
-- node.cpp and node.h: the list of jobs and the pointer into it, over any run of messages.
use epic_poold.Base.{
  ℕ, suc, ◌+◌, ◌-◌, ◌^◌, ◌≤◌, ◌<◌, ◌≡◌, refl, ap, ◌∙◌, inl, inr, true, false, Option, none, some,
  List, [], ◌∷◌, ◌++◌, arith, ltb, ◌==◌, length, All, Bool-cases, c_string, take,
}
use mathlib.Core.Bool.{false≢true}
use epic_poold.Client.{JobData}
use epic_poold.Rpc.{ok, JsonValues, get_uint}
use epic_poold.Node.{Node, Element, Services, element_at, pop_front, get_current_job, has_first_job}
use epic_poold.Node.Template.{Answer, failed}
use epic_poold.Node.Message.{line_end, json_proc_msg}
use epic_poold.Node.Reply.{Call}
use epic_poold.Node.Accepted.{Complete, Accepted, Untouched, Refused, trimmed}
use epic_poold.Node.Handling.{Outcome, Took, json_proc_msg-Ends}
use epic_poold.Node.Typing.{Typed}

-- Every element has an address of its own below the count, and the pointer leads to a complete job.
abbrev pub Points : List Element → ℕ → Option ℕ → Type 0
Points jobs places current =
    All (λ e. e.place < places) jobs
    × ((place : ℕ)
        → current ≡ some place
        → (job : JobData) × (element_at jobs place ≡ some job) × Complete job)

abbrev pub Sound : {E : Type 0} → Node E → Type 0
Sound n = Points n.jobs n.places n.current_job

below-suc :
    (places : ℕ) (jobs : List Element)
    → All (λ e. e.place < places) jobs
    → All (λ e. e.place < places + 1) jobs
below-suc places [] h = tt
below-suc places (e ∷ jobs) (h, hs) = (omega arith, below-suc places jobs hs)

element_at-below :
    (places place : ℕ) (jobs : List Element) {job : JobData}
    → All (λ e. e.place < places) jobs
    → element_at jobs place ≡ some job
    → place < places
unfolding element_at
element_at-below places place [] hs e = cc
element_at-below places place (back ∷ jobs) (h, hs) e = elim (Bool-cases (back.place == place)) [
  | inl is ↦ ground arith
  | inr other ↦ element_at-below places place jobs hs (rw other at e)
]

element_at-back :
    (back : Element) (jobs : List Element) (place : ℕ)
    → back.place ≡ place
    → element_at (back ∷ jobs) place ≡ some back.job
unfolding element_at
element_at-back back jobs place e =
    let is : (back.place == place) ≡ true = ground arith in rw is refl

element_at-older :
    (back : Element) (jobs : List Element) (place : ℕ)
    → place < back.place
    → element_at (back ∷ jobs) place ≡ element_at jobs place
unfolding element_at
element_at-older back jobs place h =
    let other : (back.place == place) ≡ false = ground arith in rw other refl

All-pop_front :
    (holds : Element → Type 0) (jobs : List Element) → All holds jobs → All holds (pop_front jobs)
unfolding pop_front
All-pop_front holds [] h = tt
All-pop_front holds (back ∷ []) h = tt
All-pop_front holds (back ∷ next ∷ jobs) (h, hs) = (h, All-pop_front holds (next ∷ jobs) hs)

All-trimmed :
    (holds : Element → Type 0) (jobs : List Element) → All holds jobs → All holds (trimmed jobs)
All-trimmed holds jobs h = elim (Bool-cases (ltb 5 (length jobs))) [
  | inl many ↦ rw many (All-pop_front holds jobs h)
  | inr few ↦ rw few h
]

-- The newest element stays.
trimmed-back :
    (back : Element) (jobs : List Element)
    → (older : List Element) × (trimmed (back ∷ jobs) ≡ back ∷ older)
unfolding pop_front
trimmed-back back [] = ([], refl)
trimmed-back back (next ∷ jobs) = elim (Bool-cases (ltb 5 (suc (suc (length jobs))))) [
  | inl many ↦ (pop_front (next ∷ jobs), rw many refl)
  | inr few ↦ (next ∷ jobs, rw few refl)
]

length-pop_front : (jobs : List Element) → length (pop_front jobs) ≤ length jobs - 1
unfolding pop_front
length-pop_front [] = omega arith
length-pop_front (back ∷ []) = omega arith
length-pop_front (back ∷ next ∷ jobs) = omega (arith, length-pop_front (next ∷ jobs))

length-trimmed :
    (back : Element) (jobs : List Element) (k : ℕ)
    → length jobs ≤ 5 + k
    → length (trimmed (back ∷ jobs)) ≤ 5 + k
length-trimmed back jobs k h = elim (Bool-cases (ltb 5 (suc (length jobs)))) [
  | inl many ↦ rw many (omega (arith, length-pop_front (back ∷ jobs)))
  | inr few ↦ rw few (ground arith)
]

Points-cast :
    {jobs jobs' : List Element} {places places' : ℕ} {current current' : Option ℕ}
    → jobs' ≡ jobs
    → places' ≡ places
    → current' ≡ current
    → Points jobs places current
    → Points jobs' places' current'
Points-cast e e' e'' h = rw (e, e', e'') h

module _ {E : Type 0} (n n' : Node E) where
  Untouched-Sound : Untouched n n' → Sound n → Sound n'
  Untouched-Sound u = Points-cast u.jobs u.places u.current

  begun-Points :
      (job : JobData)
      → Sound n
      → Points (record { place = n.places; job = job } ∷ n.jobs) (n.places + 1) n.current_job
  begun-Points job (fresh, points) = (
    (omega arith, below-suc n.places n.jobs fresh),
    λ place e.
        let (found, at, complete) = points place e in
        (
          found,
          element_at-older (record { place = n.places; job = job }) n.jobs place
                (element_at-below n.places place n.jobs fresh at)
              ∙ at,
          complete,
        ),
  )

  Refused-Sound : Refused n n' → Sound n → Sound n'
  Refused-Sound (inl u) s = Untouched-Sound u s
  Refused-Sound (inr (job, h)) s = Points-cast h.jobs h.places h.current (begun-Points job s)

  accepted-Points :
      (job : JobData)
      → Complete job
      → All (λ e. e.place < n.places) n.jobs
      → Points
          (trimmed (record { place = n.places; job = job } ∷ n.jobs))
          (n.places + 1)
          (some n.places)
  accepted-Points job complete fresh =
      let back : Element = record { place = n.places; job = job } in
      let (older, e) = trimmed-back back n.jobs in
      (
        All-trimmed (λ e. e.place < n.places + 1) (back ∷ n.jobs)
            (omega arith, below-suc n.places n.jobs fresh),
        λ place e'. (job, rw e (element_at-back back older place (cc)), complete),
      )

  Accepted-Sound :
      {V : Type 0} (json : JsonValues V) (garbage : ℕ) (res : V) (height : ℕ)
      → Accepted json garbage res height n n'
      → Sound n
      → Sound n'
  Accepted-Sound json garbage res height a (fresh, points) =
      Points-cast a.jobs a.places a.current (accepted-Points a.job a.complete fresh)

  Refused-length : (k : ℕ) → Refused n n' → length n.jobs ≤ 5 + k → length n'.jobs ≤ 5 + suc k
  Refused-length k (inl u) h = omega (arith, ap length u.jobs)
  Refused-length k (inr (job, f)) h = omega (arith, ap length f.jobs)

  Took-Sound :
      {V : Type 0} (json : JsonValues V) (garbage : ℕ) (call : Call V)
      → Took json garbage call n n'
      → Sound n
      → Sound n'
  Took-Sound json garbage call (inl u) s = Untouched-Sound u s
  Took-Sound json garbage call (inr (res, height, _, _, a)) s =
      Accepted-Sound json garbage res height a s

  Took-length :
      {V : Type 0} (json : JsonValues V) (garbage : ℕ) (call : Call V) (k : ℕ)
      → Took json garbage call n n'
      → length n.jobs ≤ 5 + k
      → length n'.jobs ≤ 5 + k
  Took-length json garbage call k (inl u) h = omega (arith, ap length u.jobs)
  Took-length json garbage call k (inr (res, height, _, _, a)) h =
      let few = length-trimmed (record { place = n.places; job = a.job }) n.jobs k h in
      omega (arith, ap length a.jobs, few)

abbrev pub failures : ℕ → Answer → ℕ
failures k failed = suc k
failures k _ = k

-- What the node is after messages of which so many failed. In between, the rest of the program runs, and
-- a template request sets the time of the last job.
pub data Reach {E V : Type 0} (services : Services E) (json : JsonValues V)
    : ℕ → Node E → Type 0 where
  start : (n : Node E) → n.jobs ≡ [] → n.current_job ≡ none → Reach services json 0 n
  elsewhere :
      {k : ℕ} {n : Node E}
      → Reach services json k n
      → (last_job_ts : ℕ) (world : E)
      → Reach services json k (record n { last_job_ts = last_job_ts; world = world })
  message :
      {k : ℕ} {n : Node E}
      → Reach services json k n
      → (garbage : ℕ) (msg : List ℕ) (i : ℕ) → line_end msg ≡ some i
      → (answer : Answer) (n' : Node E)
      → json_proc_msg services json garbage msg n ≡ (ok answer, n')
      → Reach services json (failures k answer) n'

-- Typed for a run that may end in a fault.
pub anything : {V : Type 0} (json : JsonValues V) (call : Call V) → Typed json Unit call
anything json call = record {
  report = λ e _ _. tt;
  present = λ _ _ _. tt;
  object = λ res _ _ _ _. tt;
}

module _ {E V : Type 0} (services : Services E) (json : JsonValues V)
    (uint_small : (v : V) (k : ℕ) → get_uint json v ≡ ok k → k < 2 ^ 32) where
  abbrev Holds : ℕ → Node E → Type 0
  Holds k n = Sound n × (length n.jobs ≤ 5 + k)

  by_outcome :
      (garbage msglen : ℕ) (parsed : Option V) (k : ℕ) (n : Node E) (answer : Answer) (n' : Node E)
      → Outcome json garbage msglen parsed n answer n'
      → Holds k n
      → Holds (failures k answer) n'
  by_outcome garbage msglen parsed k n answer n' (inl (is, doc, call, _, _, took)) (sound, few) =
      rw is (
        Took-Sound n n' json garbage call took sound,
        Took-length n n' json garbage call k took few,
      )
  by_outcome garbage msglen parsed k n answer n' (inr (is, refused)) (sound, few) =
      rw is (Refused-Sound n n' refused sound, Refused-length n n' k refused few)

  reach-Holds : {k : ℕ} {n : Node E} → Reach services json k n → Holds k n
  reach-Holds (start n e e') =
      (Points-cast e refl e' (tt, λ place never. cc), omega (arith, ap length e))
  reach-Holds (elsewhere r last_job_ts world) = reach-Holds r
  reach-Holds (message {k} {n} r garbage msg i e answer n' e') =
      by_outcome garbage (i + 1) (json.parse (c_string (take i msg ++ 0 ∷ []))) k n answer n'
        (rw e' at (
          json_proc_msg-Ends services json Unit uint_small garbage (i + 1) n msg i e refl
            (λ doc call _ _. anything json call)))
        (reach-Holds r)

  -- Once the node has a job, the pointer to the current one never dangles, whatever messages come, fail or
  -- are refused half way, and however many jobs are dropped: it leads to a job that was read to its end.
  -- Its array of 384 bytes holds the prepow with its 8 last bytes, and its two seeds are vectors.
  pub Reach-Complete :
      {k : ℕ} {n : Node E}
      → Reach services json k n
      → has_first_job n ≡ true
      → (job : JobData) × (get_current_job n ≡ some job) × Complete job
  unfolding has_first_job get_current_job
  Reach-Complete {k} {n} r first = by_current n.current_job refl first
    where
      by_current :
          (current : Option ℕ)
          → n.current_job ≡ current
          → elim current [ none ↦ false | some place ↦ true ] ≡ true
          → (job : JobData) × (elim current [ none ↦ none | some place ↦ element_at n.jobs place ]
              ≡ some job)
            × Complete job
      by_current none e never = absurd (false≢true never)
      by_current (some place) e first = (reach-Holds r).0.1 place e

  -- The list holds five jobs at most, and one more for each message that failed: what a failed message
  -- has begun stays in the list.
  pub Reach-jobs : {k : ℕ} {n : Node E} → Reach services json k n → length n.jobs ≤ 5 + k
  Reach-jobs r = (reach-Holds r).1
