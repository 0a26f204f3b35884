-- ===== src/Server/Tests.antt =====
-- Choices of a pool, with the number of its clients for a pool: one of 9 has finished, one of 2 is full.
use epic_poold.Base.{true, false, none, some, List, ℕ, suc, ◌≡◌, refl, [], ◌∷◌, ◌⊎◌, ◌==◌, arith}
use epic_poold.Server.{PoolOps, place_socket}
use epic_poold.ClientPool.{ClientOps, is_full, add_socket}
use epic_poold.ClientPool.Lifetime.{Phase, serving, finished, Pool, created, leaves, finishes}
use epic_poold.Server.Pools.{
  Serving, store, free, opens, looks, tests, passes, allocates, adds, here, moves_hand, Held,
  Serving-Held,
}
use epic_poold.Server.Listen.{Accepted, failed, connected, Listener, waits, asserted, listen_main}
use epic_poold.Server.Accepting.{Burst, Serves, listen_main-Serves}
use epic_poold.Server.Start.{Opening, Server, start}
use epic_poold.Server.Blocks.{Started, start-Started}

abbrev counts : PoolOps ℕ
counts = record {
  constructed = 0;
  is_finished = λ n. n == 9;
  is_full = λ n. n == 2;
  get_active = λ n. n;
  add_socket = λ n sck ip port. suc n;
  on_new_block = λ n. n;
}

chosen : place_socket counts (9 ∷ 2 ∷ 1 ∷ 9 ∷ []) 5 0 0 ≡ 2 ∷ 2 ∷ 9 ∷ []
unfolding place_socket
chosen = refl

-- Three errors, two connections of which one keeps its options, one error, and one more connection.
abbrev answers : List Accepted
answers =
    failed 24
    ∷ failed 24
    ∷ failed 24
    ∷ connected 5 1 2 true true
    ∷ connected 6 1 2 true false
    ∷ failed 24
    ∷ connected 7 1 3 true true
    ∷ []

served :
    listen_main counts answers (record { pools = 2 ∷ []; errs = 0; aborted = [] })
    ≡ waits (record { pools = 2 ∷ 2 ∷ []; errs = 0; aborted = 6 ∷ [] })
unfolding listen_main place_socket
served = refl

listen_main-Serves_example :
    (((l' : Listener ℕ) × (listen_main counts answers
            (record { pools = 2 ∷ []; errs = 0; aborted = [] })
          ≡ asserted l'))
      × Burst answers)
    ⊎ (Serves counts answers
          (record { pools = 2 ∷ []; errs = 0; aborted = [] })
          (listen_main counts answers (record { pools = 2 ∷ []; errs = 0; aborted = [] }))
        × ¬ Burst answers)
listen_main-Serves_example = listen_main-Serves counts answers (2 ∷ [])

abbrev opened : Opening
opened = record { sck = some 3; bound = true; listening = true }

abbrev unbound : Opening
unbound = record { sck = some 4; bound = false; listening = true }

abbrev idle : Server ℕ ℕ
idle = record {
  client_pools = 9 ∷ 1 ∷ [];
  listen_thd = false;
  tls_client_pools = 2 ∷ [];
  tls_listen_thd = false;
  plain_sck = none;
  tls_sck = none;
}

start-Started_example :
    Started counts counts 3333 0 opened unbound idle
      (start (false ∷ true ∷ []) 3333 0 opened unbound idle)
start-Started_example =
    start-Started counts counts (false ∷ true ∷ []) 3333 0 opened unbound idle refl refl refl

-- Pools of one client each, which is its descriptor: the listener finds the pool of the first connection full and
-- makes another; before it adds the socket there, the thread of the new pool has left its loop and ended.
abbrev sockets : ClientOps ℕ
sockets = record {
  construct = λ fd ip port. some fd;
  get_fd = λ c. c;
  on_socket_read = λ c. (c, true);
  on_new_block = λ c now. (c, true);
}

abbrev given_to : Phase → ℕ → Pool ℕ
given_to phase fd = record {
  state = record {
    clients = none ∷ [];
    active_cnt = 1;
    pipe = record { cli_fd = fd; cli_ip = 0; cli_port = fd } ∷ [];
    closed = [];
  };
  phase = phase;
}

abbrev ended : Pool ℕ
ended = record (created sockets 1) { phase = finished }

one_pool : Serving sockets 1 (store free [] [] (given_to serving 5 ∷ []))
unfolding add_socket
one_pool = adds 5 0 5 (allocates (looks opens)) (omega arith)

two_pools : Serving sockets 1 (store free [] [] (given_to serving 5 ∷ given_to finished 6 ∷ []))
unfolding add_socket is_full
two_pools =
    adds {front = given_to serving 5 ∷ []} {pool = ended} 6 0 6
      (moves_hand
        (moves_hand (allocates (passes (tests (looks one_pool) refl) refl))
          (here (leaves refl refl) tt))
        (here (finishes refl) tt))
      (omega arith)

Serving-Held_example :
    Held sockets 1 (store free [] [] (given_to serving 5 ∷ given_to finished 6 ∷ []))
Serving-Held_example = Serving-Held sockets 1 (omega arith) (omega arith) two_pools
