-- ===== src/ClientPool/Thread.antt =====
-- client_pool.hpp: the steps of the pool's thread, and the counter.
use epic_poold.Base.{ℕ, ◌+◌, ◌≤◌, ◌<◌, ◌^◌, ◌≡◌, ap, true, Bool, false, arith}
use epic_poold.ClientPool.{ClientOps, ClientPool, ok, Env, on_slot, handle_event}
use epic_poold.ClientPool.Counting.{adds, weight}
use epic_poold.ClientPool.Invariant.{Counted, process_msg-Keeps, remove_client-Keeps}
use epic_poold.ClientPool.Batch.{Serviceable, on_read-Keeps}
use epic_poold.ClientPool.Lifetime.{
  Pool, Step, adds_socket, posts_block, reads_msg, handles, leaves, finishes, returned,
}

module _ {C : Type 0} (cli : ClientOps C) (pool_size : ℕ) where
  -- A step of the thread, and not of the listener.
  abbrev pub OfThread : {s t : Pool C} → Step cli pool_size s t → Type 0
  OfThread (adds_socket fd ip port room real) = ⊥
  OfThread posts_block = ⊥
  OfThread (reads_msg env msg rest q serves del written e) = Unit
  OfThread (handles envs idx readable q serves del able e) = Unit
  OfThread (leaves serves zero_left) = Unit
  OfThread (finishes left) = Unit

module _ {C : Type 0} (cli : ClientOps C) (pool_size : ℕ) (word : pool_size < 2 ^ 32) where
  handled :
      (envs : ℕ → Env) (p q : ClientPool C) (idx : ℕ) (readable : Bool)
      → ((n i : ℕ) → (envs n).del_ok i ≡ true)
      → Serviceable pool_size p (on_slot idx readable)
      → Counted pool_size 0 p
      → handle_event cli pool_size envs p (on_slot idx readable) ≡ ok q
      → q.active_cnt ≤ p.active_cnt
  unfolding handle_event
  handled envs p q idx true del (small, (c, slot)) v e =
      (returned cli pool_size word _ _ q
        (on_read-Keeps cli pool_size word (envs 0) p idx c (del 0 idx) small slot v) e).2
  handled envs p q idx false del small v e =
      (returned cli pool_size word _ _ q
        (remove_client-Keeps cli pool_size word (envs 0) p idx 0 (del 0 idx) small v) e).2

  -- The thread never counts up.
  pub thread_counts_down :
      {s t : Pool C} (step : Step cli pool_size s t)
      → OfThread cli pool_size step
      → Counted pool_size 0 s.state
      → t.state.active_cnt ≤ s.state.active_cnt
  unfolding adds
  thread_counts_down (adds_socket fd ip port room real) own v = absurd own
  thread_counts_down posts_block own v = absurd own
  thread_counts_down {s} (reads_msg env msg rest q serves del written e) own v =
      (returned cli pool_size word _ _ q
        (process_msg-Keeps cli pool_size word env _ msg del (taken_out (ap adds written))) e).2
    where
      taken_out :
          adds s.state.pipe ≡ weight msg + adds rest
          → Counted pool_size (weight msg) (record s.state { pipe = rest })
      taken_out h = record {
        sized = v.sized;
        count = omega (arith, v.count, h);
        bounded = v.bounded;
      }
  thread_counts_down {s} (handles envs idx readable q serves del able e) own v =
      handled envs s.state q idx readable del able v e
  thread_counts_down (leaves serves zero_left) own v = omega arith
  thread_counts_down (finishes left) own v = omega arith
