-- ===== src/ClientPool/Batch.antt =====
-- The events of one `epoll_wait`.
use epic_poold.Base.{
  ℕ, ◌<◌, ◌^◌, ◌≡◌, refl, true, false, some, get_elem?, set, length-set, arith, Bool-cases, inl,
  inr,
}
use epic_poold.ClientPool.{
  ClientOps, ClientPool, Env, Event, on_pipe, on_slot, on_read, handle_event,
}
use epic_poold.ClientPool.Counting.{live-set-some}
use epic_poold.ClientPool.Invariant.{
  Counted, Returns, remove_client-Keeps, process_pipe-Counted, Keeps,
}

-- An event that names a slot of the array.
abbrev pub Names : ℕ → Event → Type 0
Names pool_size on_pipe = Unit
Names pool_size (on_slot idx readable) = idx < pool_size

-- An event that can be handled in state `p`: one with EPOLLIN wants a client in its slot.
abbrev pub Serviceable : {C : Type 0} → ℕ → ClientPool C → Event → Type 0
Serviceable pool_size p on_pipe = Unit
Serviceable pool_size p (on_slot idx false) = idx < pool_size
Serviceable {C} pool_size p (on_slot idx true) =
    (idx < pool_size) × ((c : C) × (get_elem? p.clients idx ≡ some (some c)))

module _ {C : Type 0} (cli : ClientOps C) (pool_size : ℕ) (word : pool_size < 2 ^ 32) where
  pub on_read-Keeps :
      (env : Env) (p : ClientPool C) (idx : ℕ) (c : C)
      → env.del_ok idx ≡ true
      → idx < pool_size
      → get_elem? p.clients idx ≡ some (some c)
      → Counted pool_size 0 p
      → Keeps cli pool_size word 0 p (on_read cli pool_size env p idx)
  unfolding on_read
  on_read-Keeps env p idx c del small e v = elim (Bool-cases (cli.on_socket_read c).1) [
    | inl keep ↦ (
      record p { clients = set p.clients idx (some (cli.on_socket_read c).0) },
      rw (e, on_read, keep),
      (kept, refl, omega arith),
    )
    | inr drop_it ↦
        rw (e, on_read, drop_it) (remove_client-Keeps cli pool_size word env _ idx 0 del small kept)
  ]
    where
      kept :
          Counted pool_size 0
            (record p { clients = set p.clients idx (some (cli.on_socket_read c).0) })
      kept = record {
        sized = omega (arith, length-set p.clients idx (some (cli.on_socket_read c).0), v.sized);
        count = omega (arith, live-set-some p.clients idx c (cli.on_socket_read c).0 e, v.count);
        bounded = v.bounded;
      }

  -- A pool whose counter is right handles each event for the pipe, for the close of a slot and for
  -- input on a slot with a client: the call returns without an exception (so neither "Pool size
  -- overflow" nor "double free"), and the counter of the new pool is right again. The kernel is taken
  -- to grant each EPOLL_CTL_DEL.
  pub handle_event-Counted :
      (envs : ℕ → Env) (p : ClientPool C) (e : Event)
      → ((n i : ℕ) → (envs n).del_ok i ≡ true)
      → Serviceable pool_size p e
      → Counted pool_size 0 p
      → Returns (Counted pool_size 0) (handle_event cli pool_size envs p e)
  unfolding handle_event
  handle_event-Counted envs p on_pipe del s v =
      let (q, e, (w, _)) = process_pipe-Counted cli pool_size word envs p.pipe p del refl v in
      (q, e, w)
  handle_event-Counted envs p (on_slot idx true) del (small, (c, slot)) v =
      let (q, e, (w, _, _)) = on_read-Keeps (envs 0) p idx c (del 0 idx) small slot v in (q, e, w)
  handle_event-Counted envs p (on_slot idx false) del small v =
      let (q, e, (w, _, _)) =
        remove_client-Keeps cli pool_size word (envs 0) p idx 0 (del 0 idx) small v in
      (q, e, w)
