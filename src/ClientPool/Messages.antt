-- ===== src/ClientPool/Messages.antt =====
-- What one message does to the slots.
use epic_poold.Base.{
  ℕ, zero, suc, ◌+◌, ◌≡◌, refl, sym, ◌∙◌, ap, true, false, Option, none, some, List, [], ◌∷◌, ◌++◌,
  append_assoc, map, ◌==◌, if◌then◌else◌, get_elem?, set, length, length-append, get_elem?-length,
  arith, Bool-cases, inl, inr,
}
use epic_poold.ClientPool.{
  ClientOps, ClientPool, PipeMsg, dummy_new_block_fd, ok, null_deref, Env, Event, on_pipe, on_slot,
  dropped, remove_client, refresh_slot, refresh, process_msg, process_pipe, on_read, handle_event,
  handle_events,
}
use epic_poold.ClientPool.Counting.{get_elem?-set}
use epic_poold.ClientPool.Invariant.{Returns, Returns-bind}

set-length {ℓ} :
    {A : Type ℓ} (xs ys : List A) (y v : A) → set (xs ++ y ∷ ys) (length xs) v ≡ xs ++ v ∷ ys
set-length [] ys y v = refl
set-length (x ∷ xs) ys y v = ap (◌∷◌ x) (set-length xs ys y v)

set-set {ℓ} : {A : Type ℓ} (xs : List A) (i : ℕ) (v w : A) → set (set xs i v) i w ≡ set xs i w
set-set [] i v w = refl
set-set (x ∷ xs) zero v w = refl
set-set (x ∷ xs) (suc i) v w = ap (◌∷◌ x) (set-set xs i v w)

slot_at {ℓ} :
    {A : Type ℓ} (slots done todo : List A) (slot : A)
    → slots ≡ done ++ slot ∷ todo
    → get_elem? slots (length done) ≡ some slot
slot_at slots done todo slot e = rw e (get_elem?-length done todo slot)

set_at {ℓ} :
    {A : Type ℓ} (slots done todo : List A) (slot v : A)
    → slots ≡ done ++ slot ∷ todo
    → set slots (length done) v ≡ done ++ v ∷ todo
set_at slots done todo slot v e = rw e (set-length done todo slot v)

module _ {C : Type 0} (cli : ClientOps C) where
  -- A slot once its client has seen the new block: clients that decline it are gone.
  abbrev pub after_block : ℕ → Option C → Option C
  after_block now none = none
  after_block now (some c) =
      if (cli.on_new_block c now).1 then some (cli.on_new_block c now).0 else none

module _ {C : Type 0} (cli : ClientOps C) (pool_size : ℕ) (env : Env)
    (del : (i : ℕ) → env.del_ok i ≡ true) where
  abbrev Shows : List (Option C) → ClientPool C → Type 0
  Shows slots p = p.clients ≡ slots

  refresh_slot-Shows :
      (p : ClientPool C) (done todo : List (Option C)) (slot : Option C)
      → p.clients ≡ done ++ slot ∷ todo
      → Returns
          (Shows (done ++ after_block cli env.now slot ∷ todo))
          (refresh_slot cli pool_size env p (length done))
  unfolding refresh_slot remove_client
  refresh_slot-Shows p done todo none e =
      (p, rw (slot_at p.clients done todo none e, refresh_slot), e)
  refresh_slot-Shows p done todo (some c) e = elim (Bool-cases (cli.on_new_block c env.now).1) [
    | inl keep ↦ (
      seen,
      rw (slot_at p.clients done todo (some c) e, refresh_slot, keep),
      rw keep (set_at p.clients done todo (some c) (some c') e),
    )
    | inr drop_it ↦ (
      dropped cli pool_size seen (length done) c',
      rw (slot_at p.clients done todo (some c) e, refresh_slot, drop_it)
          (rw (still, remove_client, del (length done))),
      rw drop_it (
          set-set p.clients (length done) (some c') none
          ∙ set_at p.clients done todo (some c) none e),
    )
  ]
    where
      c' : C
      c' = (cli.on_new_block c env.now).0

      seen : ClientPool C
      seen = record p { clients = set p.clients (length done) (some c') }

      still : get_elem? seen.clients (length done) ≡ some (some c')
      still =
          get_elem?-set p.clients (length done) (some c) (some c')
            (slot_at p.clients done todo (some c) e)

  refresh-Shows :
      (done todo : List (Option C)) (p : ClientPool C) (idx : ℕ)
      → p.clients ≡ done ++ todo
      → length done ≡ idx
      → Returns
          (Shows (done ++ map (after_block cli env.now) todo))
          (refresh cli pool_size env (length todo) idx p)
  unfolding refresh
  refresh-Shows done [] p idx e at = (p, refl, e)
  refresh-Shows done (slot ∷ todo) p idx e at = rw (← at) (
      Returns-bind (Shows (done ++ after_block cli env.now slot ∷ todo)) _ _ _
        (refresh_slot-Shows p done todo slot e)
        λ q shown.
          let (r, er, h) =
            refresh-Shows (done ++ after_block cli env.now slot ∷ []) todo q (length done + 1)
              (shown ∙ sym (append_assoc done (after_block cli env.now slot ∷ []) todo))
              (omega (arith, length-append done (after_block cli env.now slot ∷ []))) in
          (r, er, h ∙ append_assoc done (after_block cli env.now slot ∷ []) _))

  -- The message of a new block calls every client once with the time, in the order of the slots, and
  -- removes exactly the clients that decline; every other slot stays as it was.
  pub process_msg-new_block :
      (p : ClientPool C) (msg : PipeMsg)
      → length p.clients ≡ pool_size
      → msg.cli_fd ≡ dummy_new_block_fd
      → Returns
          (Shows (map (after_block cli env.now) p.clients))
          (process_msg cli pool_size env p msg)
  unfolding process_msg
  process_msg-new_block p msg size block =
      let test : (msg.cli_fd == dummy_new_block_fd) ≡ true = ground arith in
      rw test (rw size at (refresh-Shows [] p.clients p 0 refl refl))

get_elem?-map {ℓ κ} :
    {A : Type ℓ} {B : Type κ} (f : A → B) (xs : List A) (i : ℕ) (x : A)
    → get_elem? xs i ≡ some x
    → get_elem? (map f xs) i ≡ some (f x)
get_elem?-map f [] i x e = cc
get_elem?-map f (y ∷ xs) zero x e = cc
get_elem?-map f (y ∷ xs) (suc i) x e = get_elem?-map f xs i x e

module _ {C : Type 0} (cli : ClientOps C) (pool_size : ℕ) where
  pipe_step :
      (envs : ℕ → Env) (p q : ClientPool C) (msg : PipeMsg)
      → p.pipe ≡ msg ∷ []
      → process_msg cli pool_size (envs 0) (record p { pipe = [] }) msg ≡ ok q
      → handle_event cli pool_size envs p on_pipe ≡ ok (record q { pipe = [] })
  unfolding handle_event process_pipe
  pipe_step envs p q msg written returned =
      ap (λ (msgs : List PipeMsg). process_pipe cli pool_size envs msgs p) written ∙ rw returned

  read_step :
      (envs : ℕ → Env) (q : ClientPool C) (idx : ℕ)
      → get_elem? q.clients idx ≡ some none
      → handle_event cli pool_size envs q (on_slot idx true) ≡ null_deref
  unfolding handle_event on_read
  read_step envs q idx cleared = rw (cleared, on_read)

  -- The fault of `pool_main`: when one `epoll_wait` reports the pipe with a new block and, behind it,
  -- input on a client that declines the block, the client is removed first, and the input is then
  -- read through the null pointer of its slot.
  pub handle_events-stale_input :
      (envs : ℕ → ℕ → Env) (p : ClientPool C) (msg : PipeMsg) (idx : ℕ) (c : C) (later : List Event)
      → ((i : ℕ) → (envs 0 0).del_ok i ≡ true)
      → length p.clients ≡ pool_size
      → p.pipe ≡ msg ∷ []
      → msg.cli_fd ≡ dummy_new_block_fd
      → get_elem? p.clients idx ≡ some (some c)
      → (cli.on_new_block c (envs 0 0).now).1 ≡ false
      → handle_events cli pool_size envs (on_pipe ∷ on_slot idx true ∷ later) p ≡ null_deref
  unfolding handle_events
  handle_events-stale_input envs p msg idx c later del size written block slot declines =
      let (q, returned, shown) =
        process_msg-new_block cli pool_size (envs 0 0) del (record p { pipe = [] }) msg size
          block in
      let cleared : get_elem? q.clients idx ≡ some none = rw shown (
        get_elem?-map (after_block cli (envs 0 0).now) p.clients idx (some c) slot ∙ rw declines) in
      rw (pipe_step (envs 0) p q msg written returned)
        (rw (read_step (envs 1) (record q { pipe = [] }) idx cleared))
