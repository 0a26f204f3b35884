-- ===== src/ClientPool/Lifetime.antt =====
-- The pool's thread and the listener side by side, from the constructor to the end of `pool_main`.
use epic_poold.Base.{
  ℕ, zero, suc, ◌+◌, ◌<◌, ◌^◌, ◌≡◌, ◌≢◌, refl, ap, Bool, true, false, none, List, [], ◌∷◌,
  replicate, length-replicate, arith,
}
use epic_poold.ClientPool.{
  ClientOps, ClientPool, PipeMsg, dummy_new_block_fd, Outcome, ok, Env, on_slot, is_full,
  add_socket, on_new_block, process_msg, handle_event,
}
use epic_poold.ClientPool.Counting.{live, adds, weight, adds-snoc}
use epic_poold.ClientPool.Invariant.{Counted, Returns, process_msg-Keeps}
use epic_poold.ClientPool.Batch.{handle_event-Counted, Serviceable}

-- Where the thread stands: in its loop; behind the test that ended it; behind the store of
-- `thd_finished`, the flag that others read.
pub data Phase : Type 0 where
  serving leaving finished : Phase

pub record Pool (C : Type 0) : Type 0 where
  pub state : ClientPool C
  pub phase : Phase

module _ {C : Type 0} (cli : ClientOps C) (pool_size : ℕ) where
  -- The constructor: empty slots, no message.
  abbrev pub created : Pool C
  created = record {
    state = record { clients = replicate pool_size none; active_cnt = 0; pipe = []; closed = [] };
    phase = serving;
  }

  -- A step of the listener (a socket, which it adds to a pool that is not full, or a new block; the thread
  -- may have ended since the listener looked at its flag), or of the thread: a message read from the pipe, an event of a slot, and the end.
  pub data Step (s : Pool C) : Pool C → Type 0 where
    adds_socket :
        (fd ip port : ℕ)
        → is_full cli pool_size s.state ≡ false
        → fd ≢ dummy_new_block_fd
        → Step s (record s { state = add_socket cli pool_size s.state fd ip port })
    posts_block : Step s (record s { state = on_new_block cli pool_size s.state })
    reads_msg :
        (env : Env) (msg : PipeMsg) (rest : List PipeMsg) (q : ClientPool C)
        → s.phase ≡ serving
        → ((i : ℕ) → env.del_ok i ≡ true)
        → s.state.pipe ≡ msg ∷ rest
        → process_msg cli pool_size env (record s.state { pipe = rest }) msg ≡ ok q
        → Step s (record s { state = q })
    handles :
        (envs : ℕ → Env) (idx : ℕ) (readable : Bool) (q : ClientPool C)
        → s.phase ≡ serving
        → ((n i : ℕ) → (envs n).del_ok i ≡ true)
        → Serviceable pool_size s.state (on_slot idx readable)
        → handle_event cli pool_size envs s.state (on_slot idx readable) ≡ ok q
        → Step s (record s { state = q })
    leaves : s.phase ≡ serving → s.state.active_cnt ≡ 0 → Step s (record s { phase = leaving })
    finishes : s.phase ≡ leaving → Step s (record s { phase = finished })

  pub data Reach : Pool C → Type 0 where
    start : Reach created
    next : {s t : Pool C} → Reach s → Step s t → Reach t

module _ {C : Type 0} (cli : ClientOps C) (pool_size : ℕ) (word : pool_size < 2 ^ 32) where
  created-Counted : Counted pool_size 0 (created cli pool_size).state
  unfolding live adds
  created-Counted = record {
    sized = length-replicate pool_size none;
    count = omega (arith, live-replicate pool_size);
    bounded = omega arith;
  }
    where
      live-replicate : (n : ℕ) → live {C = C} (replicate n none) ≡ 0
      live-replicate zero = refl
      live-replicate (suc n) = live-replicate n

  pub returned :
      (P : ClientPool C → Type 0) (r : Outcome (ClientPool C)) (q : ClientPool C)
      → Returns P r
      → r ≡ ok q
      → P q
  returned P r q (q', e', h) e = let same : q' ≡ q = cc in rw same at h

  Step-Counted :
      {s t : Pool C}
      → Step cli pool_size s t
      → Counted pool_size 0 s.state
      → Counted pool_size 0 t.state
  unfolding is_full add_socket on_new_block adds
  Step-Counted {s} (adds_socket fd ip port room real) v = record {
    sized = v.sized;
    count = ground (
      arith,
      adds-snoc s.state.pipe (record { cli_fd = fd; cli_ip = ip; cli_port = port }),
      v.count,
      v.bounded,
    );
    bounded = ground (arith, v.bounded);
  }
  Step-Counted {s} posts_block v = record {
    sized = v.sized;
    count = ground (
      arith,
      adds-snoc s.state.pipe (record { cli_fd = dummy_new_block_fd; cli_ip = 0; cli_port = 0 }),
      v.count,
    );
    bounded = v.bounded;
  }
  Step-Counted {s} (reads_msg env msg rest q serves del written e) v =
      (returned _ _ q
        (process_msg-Keeps cli pool_size word env _ msg del (taken_out (ap adds written))) e).0
    where
      taken_out :
          adds s.state.pipe ≡ weight msg + adds rest
          → Counted pool_size (weight msg) (record s.state { pipe = rest })
      taken_out h = record {
        sized = v.sized;
        count = omega (arith, v.count, h);
        bounded = v.bounded;
      }
  Step-Counted {s} (handles envs idx readable q serves del able e) v =
      returned _ _ q
        (handle_event-Counted cli pool_size word envs s.state (on_slot idx readable) del able v) e
  Step-Counted (leaves serves zero_left) v = v
  Step-Counted (finishes left) v = v

  -- In every run of the pool's thread and the listener, the counter is the number of clients in the
  -- slots and sockets in the pipe, and at most the size of the pool.
  pub Reach-Counted : {s : Pool C} → Reach cli pool_size s → Counted pool_size 0 s.state
  Reach-Counted start = created-Counted
  Reach-Counted (next run step) = Step-Counted step (Reach-Counted run)
