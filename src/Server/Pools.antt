-- ===== src/Server/Pools.antt =====
-- server.cpp, server.hpp with client_pool.hpp: the list of pools under the mutex, beside the pools' own threads,
-- which do not take it. Each test and each call of a pool is a step of its own.
use epic_poold.Base.{
  ℕ, ◌<◌, ◌^◌, ◌≡◌, ◌≢◌, Bool, true, false, List, [], ◌∷◌, ◌++◌, All, All-append, arith,
}
use epic_poold.ClientPool.{ClientOps, ClientPool, dummy_new_block_fd}
use epic_poold.ClientPool as ClientPool
use epic_poold.ClientPool.Lifetime.{
  serving, leaving, finished, Pool, created, Step, adds_socket, posts_block, Reach, start, next,
  Reach-Counted,
}
use epic_poold.ClientPool.Thread.{OfThread, thread_counts_down}
use epic_poold.Server.{PoolOps}

abbrev pub is_finished : {C : Type 0} → Pool C → Bool
is_finished s = elim s.phase [ serving ↦ false | leaving ↦ false | finished ↦ true ]

-- Where the holder of the mutex stands: nobody has it; in iterate_pools for a connection, behind the test of
-- is_finished, and with found_pool; in iterate_pools for a block, and behind the test of is_finished.
pub data Stage : Type 0 where
  free looking testing chosen telling meeting : Stage

-- The list: the pools that the loop has passed, the one at hand, and those to come.
pub data Store (C : Type 0) : Type 0 where
  store : Stage → List (Pool C) → List (Pool C) → List (Pool C) → Store C

module _ {C : Type 0} (cli : ClientOps C) (pool_size : ℕ) where
  -- The pools of client_pool.hpp, as the server uses them.
  abbrev pub pool_ops : PoolOps (Pool C)
  pool_ops = record {
    constructed = created cli pool_size;
    is_finished = is_finished;
    is_full = λ s. ClientPool.is_full cli pool_size s.state;
    get_active = λ s. s.state.active_cnt;
    add_socket = λ s sck ip port. record s {
      state = ClientPool.add_socket cli pool_size s.state sck ip port;
    };
    on_new_block = λ s. record s { state = ClientPool.on_new_block cli pool_size s.state };
  }

  -- The thread of one of the pools takes a step.
  pub data Moved : List (Pool C) → List (Pool C) → Type 0 where
    here :
        {s t : Pool C} {back : List (Pool C)} (step : Step cli pool_size s t)
        → OfThread cli pool_size step
        → Moved (s ∷ back) (t ∷ back)
    there :
        {s : Pool C} {back back' : List (Pool C)} → Moved back back' → Moved (s ∷ back) (s ∷ back')

  -- listen_main for a connection and notify_new_block, both with iterate_pools, and the threads in between.
  pub data Serving : Store C → Type 0 where
    opens : Serving (store free [] [] [])
    looks :
        {pools : List (Pool C)}
        → Serving (store free [] [] pools)
        → Serving (store looking [] [] pools)
    erases :
        {front back : List (Pool C)} {pool : Pool C}
        → Serving (store looking front [] (pool ∷ back))
        → is_finished pool ≡ true
        → Serving (store looking front [] back)
    tests :
        {front back : List (Pool C)} {pool : Pool C}
        → Serving (store looking front [] (pool ∷ back))
        → is_finished pool ≡ false
        → Serving (store testing front (pool ∷ []) back)
    passes :
        {front back : List (Pool C)} {pool : Pool C}
        → Serving (store testing front (pool ∷ []) back)
        → pool_ops.is_full pool ≡ true
        → Serving (store looking (front ++ pool ∷ []) [] back)
    chooses :
        {front back : List (Pool C)} {pool : Pool C}
        → Serving (store testing front (pool ∷ []) back)
        → pool_ops.is_full pool ≡ false
        → Serving (store chosen front (pool ∷ []) back)
    allocates :
        {front : List (Pool C)}
        → Serving (store looking front [] [])
        → Serving (store chosen front (pool_ops.constructed ∷ []) [])
    adds :
        {front back : List (Pool C)} {pool : Pool C} (sck ip port : ℕ)
        → Serving (store chosen front (pool ∷ []) back)
        → sck ≢ dummy_new_block_fd
        → Serving (store free [] [] (front ++ pool_ops.add_socket pool sck ip port ∷ back))
    tells :
        {pools : List (Pool C)}
        → Serving (store free [] [] pools)
        → Serving (store telling [] [] pools)
    drops :
        {front back : List (Pool C)} {pool : Pool C}
        → Serving (store telling front [] (pool ∷ back))
        → is_finished pool ≡ true
        → Serving (store telling front [] back)
    meets :
        {front back : List (Pool C)} {pool : Pool C}
        → Serving (store telling front [] (pool ∷ back))
        → is_finished pool ≡ false
        → Serving (store meeting front (pool ∷ []) back)
    posts :
        {front back : List (Pool C)} {pool : Pool C}
        → Serving (store meeting front (pool ∷ []) back)
        → Serving (store telling (front ++ pool_ops.on_new_block pool ∷ []) [] back)
    has_told :
        {front : List (Pool C)}
        → Serving (store telling front [] [])
        → Serving (store free [] [] front)
    moves_front :
        {stage : Stage} {front front' hand back : List (Pool C)}
        → Serving (store stage front hand back)
        → Moved front front'
        → Serving (store stage front' hand back)
    moves_hand :
        {stage : Stage} {front hand hand' back : List (Pool C)}
        → Serving (store stage front hand back)
        → Moved hand hand'
        → Serving (store stage front hand' back)
    moves_back :
        {stage : Stage} {front hand back back' : List (Pool C)}
        → Serving (store stage front hand back)
        → Moved back back'
        → Serving (store stage front hand back')

  abbrev pub AllReach : List (Pool C) → Type 0
  AllReach = All (λ s. Reach cli pool_size s)

  -- The pool that was chosen for a connection has room for it, as long as it is not there.
  abbrev pub Roomy : Stage → List (Pool C) → Type 0
  Roomy chosen hand = All (λ s. s.state.active_cnt < pool_size) hand
  Roomy _ hand = Unit

  abbrev pub Held : Store C → Type 0
  Held (store stage front hand back) =
      AllReach front × AllReach hand × AllReach back × Roomy stage hand

  moved : {pools pools' : List (Pool C)} → Moved pools pools' → AllReach pools → AllReach pools'
  moved (here step own) (run, runs) = (next run step, runs)
  moved (there more) (run, runs) = (run, moved more runs)

module _ {C : Type 0} (cli : ClientOps C) (pool_size : ℕ) (some_room : 0 < pool_size)
    (word : pool_size < 2 ^ 32) where
  still_roomy :
      {pools pools' : List (Pool C)}
      → Moved cli pool_size pools pools'
      → AllReach cli pool_size pools
      → All (λ s. s.state.active_cnt < pool_size) pools
      → All (λ s. s.state.active_cnt < pool_size) pools'
  still_roomy (here {s} step own) (run, runs) (room, rooms) =
      let fewer =
        thread_counts_down cli pool_size word step own (Reach-Counted cli pool_size word run) in
      (omega (arith, fewer, room), rooms)
  still_roomy (there more) (run, runs) (room, rooms) = (room, still_roomy more runs rooms)

  hand_Roomy :
      (stage : Stage) {hand hand' : List (Pool C)}
      → Moved cli pool_size hand hand'
      → AllReach cli pool_size hand
      → Roomy cli pool_size stage hand
      → Roomy cli pool_size stage hand'
  hand_Roomy free more runs room = tt
  hand_Roomy looking more runs room = tt
  hand_Roomy testing more runs room = tt
  hand_Roomy chosen more runs room = still_roomy more runs room
  hand_Roomy telling more runs room = tt
  hand_Roomy meeting more runs room = tt

  roomy_test :
      (pool : Pool C)
      → Reach cli pool_size pool
      → (pool_ops cli pool_size).is_full pool ≡ false
      → pool.state.active_cnt < pool_size
  unfolding ClientPool.is_full
  roomy_test pool run room = ground (arith, (Reach-Counted cli pool_size word run).bounded)

  full_test :
      (pool : Pool C)
      → pool.state.active_cnt < pool_size
      → (pool_ops cli pool_size).is_full pool ≡ false
  unfolding ClientPool.is_full
  full_test pool room = ground arith

  joined :
      (front back : List (Pool C))
      → AllReach cli pool_size front
      → AllReach cli pool_size back
      → AllReach cli pool_size (front ++ back)
  joined front back fronts backs = All-append (λ s. Reach cli pool_size s) front back fronts backs

  -- In every interleaving of the listener, of the thread that passes a block on and of the pools' threads,
  -- where these may move, and end, between any test of a pool and the call behind it: every pool in the server's
  -- list, and the one that was chosen for a connection, stands in a run of its own, and the room that the
  -- listener has seen in a chosen pool is still there when it adds the socket. Pools have room for one client
  -- at least, and the size fits a uint32_t.
  pub Serving-Held : {s : Store C} → Serving cli pool_size s → Held cli pool_size s
  Serving-Held opens = (tt, tt, tt, tt)
  Serving-Held (looks run) = let (a, b, c, d) = Serving-Held run in (tt, tt, c, tt)
  Serving-Held (erases run done) = let (a, b, c, d) = Serving-Held run in (a, tt, c.1, tt)
  Serving-Held (tests run lives) = let (a, b, c, d) = Serving-Held run in (a, (c.0, tt), c.1, tt)
  Serving-Held (passes run full) =
      let (a, b, c, d) = Serving-Held run in (joined _ _ a b, tt, c, tt)
  Serving-Held (chooses {pool = pool} run room) =
      let (a, b, c, d) = Serving-Held run in (a, b, c, (roomy_test pool b.0 room, tt))
  Serving-Held (allocates run) =
      let (a, b, c, d) = Serving-Held run in (a, (start, tt), tt, (some_room, tt))
  Serving-Held (adds {pool = pool} sck ip port run real) =
      let (a, b, c, d) = Serving-Held run in
      (tt, tt, joined _ _ a (next b.0 (adds_socket sck ip port (full_test pool d.0) real), c), tt)
  Serving-Held (tells run) = let (a, b, c, d) = Serving-Held run in (tt, tt, c, tt)
  Serving-Held (drops run done) = let (a, b, c, d) = Serving-Held run in (a, tt, c.1, tt)
  Serving-Held (meets run lives) = let (a, b, c, d) = Serving-Held run in (a, (c.0, tt), c.1, tt)
  Serving-Held (posts run) =
      let (a, b, c, d) = Serving-Held run in (joined _ _ a (next b.0 posts_block, tt), tt, c, tt)
  Serving-Held (has_told run) = let (a, b, c, d) = Serving-Held run in (tt, tt, a, tt)
  Serving-Held (moves_front run more) =
      let (a, b, c, d) = Serving-Held run in (moved cli pool_size more a, b, c, d)
  Serving-Held (moves_hand {stage} run more) =
      let (a, b, c, d) = Serving-Held run in
      (a, moved cli pool_size more b, c, hand_Roomy stage more b d)
  Serving-Held (moves_back run more) =
      let (a, b, c, d) = Serving-Held run in (a, b, moved cli pool_size more c, d)
