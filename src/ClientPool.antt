-- ===== src/ClientPool.antt =====
-- client_pool.hpp: a thread that owns the clients of one epoll instance. Other threads reach it
-- through a pipe. The client class is the template's parameter, here a record of its operations.
pub mod Counting
pub mod Invariant
pub mod Messages
pub mod Batch
pub mod Descriptors
pub mod Admission
pub mod Lifetime
pub mod Thread
pub mod Ownership
pub mod Ending
pub mod Tests
use epic_poold.Base.{
  ℕ, zero, suc, ◌+◌, ◌-◌, ◌%◌, ◌^◌, ◌<◌, ◌≡◌, ◌≢◌, Bool, true, false, Option, none, some, List, [],
  ◌∷◌, ◌++◌, ◌==◌, if◌then◌else◌, get_elem?, set,
}

-- What the pool uses of `cli_type`. A constructor that throws gives none; the handlers return the
-- client as they leave it, and whether it is to be kept.
pub record ClientOps (C : Type 0) : Type 0 where
  pub construct : ℕ → ℕ → ℕ → Option C
  pub get_fd : C → ℕ
  pub on_socket_read : C → C × Bool
  pub on_new_block : C → ℕ → C × Bool

-- A descriptor is the bit pattern of an int.
pub record PipeMsg : Type 0 where
  pub cli_fd : ℕ
  pub cli_ip : ℕ
  pub cli_port : ℕ

-- The int -1.
abbrev pub dummy_new_block_fd : ℕ
dummy_new_block_fd = 2 ^ 32 - 1

pub data Exception : Type 0 where
  double_free size_overflow : Exception

-- `null_deref` is a call on an empty slot or past the array, which C leaves undefined.
pub data Outcome {ℓ} (A : Type ℓ) : Type ℓ where
  ok : A → Outcome A
  thrown : Exception → Outcome A
  null_deref : Outcome A

infixl 5 ◌>>=◌
abbrev pub ◌>>=◌ {ℓ κ} : {A : Type ℓ} {B : Type κ} → Outcome A → (A → Outcome B) → Outcome B
ok a >>= f = f a
thrown e >>= f = thrown e
null_deref >>= f = null_deref

-- A slot of `clients` is none while `ptr` is null. `pipe` holds what was written and not yet read,
-- `closed` the descriptors that were closed, newest first.
pub record ClientPool (C : Type 0) : Type 0 where
  pub clients : List (Option C)
  pub active_cnt : ℕ
  pub pipe : List PipeMsg
  pub closed : List ℕ

-- What the system calls of one message or event answer: the clock, and whether each EPOLL_CTL_DEL
-- and the EPOLL_CTL_ADD succeed.
pub record Env : Type 0 where
  pub now : ℕ
  pub del_ok : ℕ → Bool
  pub add_ok : Bool

-- The counter is an atomic<uint32_t>.
abbrev pub incremented : ℕ → ℕ
incremented n = (n + 1) % 2 ^ 32

abbrev pub decremented : ℕ → ℕ
decremented n = (n + (2 ^ 32 - 1)) % 2 ^ 32

-- The first empty slot, or the size of the array.
unfoldable pub find_slot : {C : Type 0} → List (Option C) → ℕ
find_slot [] = 0
find_slot (none ∷ slots) = 0
find_slot (some c ∷ slots) = suc (find_slot slots)

-- The catch block: the socket is closed, and is no longer counted.
abbrev pub give_up : {C : Type 0} → ClientPool C → ℕ → ClientPool C
give_up p fd = record p { active_cnt = decremented p.active_cnt; closed = fd ∷ p.closed }

-- An event of `epoll_wait`: the pipe, or a client's slot with or without EPOLLIN.
pub data Event : Type 0 where
  on_pipe : Event
  on_slot : ℕ → Bool → Event

module _ {C : Type 0} (cli : ClientOps C) (pool_size : ℕ) where
  unfoldable pub is_full : ClientPool C → Bool
  is_full p = p.active_cnt == pool_size

  unfoldable pub add_socket : ClientPool C → ℕ → ℕ → ℕ → ClientPool C
  add_socket p fd ip port = record p {
    active_cnt = incremented p.active_cnt;
    pipe = p.pipe ++ record { cli_fd = fd; cli_ip = ip; cli_port = port } ∷ [];
  }

  unfoldable pub on_new_block : ClientPool C → ClientPool C
  on_new_block p = record p {
    pipe = p.pipe ++ record { cli_fd = dummy_new_block_fd; cli_ip = 0; cli_port = 0 } ∷ [];
  }

  -- `free` runs the client's destructor, which closes its socket.
  abbrev pub dropped : ClientPool C → ℕ → C → ClientPool C
  dropped p idx c = record p {
    clients = set p.clients idx none;
    active_cnt = decremented p.active_cnt;
    closed = cli.get_fd c ∷ p.closed;
  }

  -- Several signals may come for one close, so an empty slot is passed over.
  unfoldable pub remove_client : Env → ClientPool C → ℕ → Outcome (ClientPool C)
  remove_client env p idx = elim (get_elem? p.clients idx) [
    | none ↦ null_deref
    | some none ↦ ok p
    | some (some c) ↦ if env.del_ok idx then ok (dropped p idx c) else thrown double_free
  ]

  -- One round of the loop for a new block.
  pub refresh_slot : Env → ClientPool C → ℕ → Outcome (ClientPool C)
  refresh_slot env p idx = elim (get_elem? p.clients idx) [
    | none ↦ null_deref
    | some none ↦ ok p
    | some (some c) ↦
        let (c', keep) = cli.on_new_block c env.now in
        let p' = record p { clients = set p.clients idx (some c') } in
        if keep then ok p' else remove_client env p' idx
  ]

  pub refresh : Env → ℕ → ℕ → ClientPool C → Outcome (ClientPool C)
  refresh env zero idx p = ok p
  refresh env (suc left) idx p = do p' ← refresh_slot env p idx; refresh env left (idx + 1) p'

  unfoldable pub admit : Env → ClientPool C → PipeMsg → ℕ → Outcome (ClientPool C)
  admit env p msg id = elim (cli.construct msg.cli_fd msg.cli_ip msg.cli_port) [
    | none ↦ ok (give_up p msg.cli_fd)
    | some c ↦
        if env.add_ok
        then ok (record p { clients = set p.clients id (some c) })
        else ok (give_up (record p { closed = cli.get_fd c ∷ p.closed }) msg.cli_fd)
  ]

  unfoldable pub add_client : Env → ClientPool C → PipeMsg → Outcome (ClientPool C)
  add_client env p msg =
      let id = find_slot p.clients in
      if id == pool_size then thrown size_overflow else admit env p msg id

  -- One round of `process_pipe`, for a message that was read.
  unfoldable pub process_msg : Env → ClientPool C → PipeMsg → Outcome (ClientPool C)
  process_msg env p msg =
      if msg.cli_fd == dummy_new_block_fd then refresh env pool_size 0 p else add_client env p msg

  -- The loop of `process_pipe`, until the pipe is empty; each read has an environment of its own.
  unfoldable pub process_pipe : (ℕ → Env) → List PipeMsg → ClientPool C → Outcome (ClientPool C)
  process_pipe envs [] p = ok (record p { pipe = [] })
  process_pipe envs (msg ∷ rest) p = do
    p' ← process_msg (envs 0) (record p { pipe = rest }) msg
    process_pipe (λ n. envs (suc n)) rest p'

  unfoldable pub on_read : Env → ClientPool C → ℕ → Outcome (ClientPool C)
  on_read env p idx = elim (get_elem? p.clients idx) [
    | none ↦ null_deref
    | some none ↦ null_deref
    | some (some c) ↦
        let (c', keep) = cli.on_socket_read c in
        let p' = record p { clients = set p.clients idx (some c') } in
        if keep then ok p' else remove_client env p' idx
  ]

  unfoldable pub handle_event : (ℕ → Env) → ClientPool C → Event → Outcome (ClientPool C)
  handle_event envs p on_pipe = process_pipe envs p.pipe p
  handle_event envs p (on_slot idx true) = on_read (envs 0) p idx
  handle_event envs p (on_slot idx false) = remove_client (envs 0) p idx

  -- One round of `pool_main`: the events of one `epoll_wait`, in order.
  unfoldable pub handle_events : (ℕ → ℕ → Env) → List Event → ClientPool C → Outcome (ClientPool C)
  handle_events envs [] p = ok p
  handle_events envs (e ∷ events) p = do
    p' ← handle_event (envs 0) p e
    handle_events (λ n. envs (suc n)) events p'
