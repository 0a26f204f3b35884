-- ===== src/Server/Atomic.antt =====
-- server.cpp, server.hpp: place_socket, the whole of it in one go, as steps of the listener.
use mathlib.Core.Path.{subst}
use epic_poold.Base.{
  ℕ, ◌≢◌, sym, inl, inr, List, [], ◌∷◌, ◌++◌, append-nil, append_assoc, Bool-cases,
}
use epic_poold.ClientPool.{ClientOps, dummy_new_block_fd}
use epic_poold.ClientPool.Lifetime.{Pool}
use epic_poold.Server.{place_socket}
use epic_poold.Server.Choice.{unfinished, AllFull, place_socket-Placed}
use epic_poold.Server.Pools.{
  free, looking, store, pool_ops, is_finished, Serving, looks, erases, tests, passes, chooses,
  allocates, adds,
}

module _ {C : Type 0} (cli : ClientOps C) (pool_size : ℕ) where
  skips :
      (front before back : List (Pool C))
      → AllFull (pool_ops cli pool_size) (unfinished (pool_ops cli pool_size) before)
      → Serving cli pool_size (store looking front [] (before ++ back))
      → Serving cli pool_size
          (store looking (front ++ unfinished (pool_ops cli pool_size) before) [] back)
  unfolding unfinished
  skips front [] back full run =
      subst (λ l. Serving cli pool_size (store looking l [] back)) (sym (append-nil front)) run
  skips front (pool ∷ before) back full run = elim (Bool-cases (is_finished pool)) [
    | inl done ↦
        rw (unfinished, done)
          (skips front before back (rw (unfinished, done) at full) (erases run done))
    | inr lives ↦
        let (first, others) = rw (unfinished, lives) at full in
        rw (unfinished, lives)
          (subst (λ l. Serving cli pool_size (store looking l [] back))
            (append_assoc front (pool ∷ []) (unfinished (pool_ops cli pool_size) before))
            (skips (front ++ pool ∷ []) before back others (passes (tests run lives) first)))
  ]

  -- When no thread moves in between, the listener's steps for a connection come to what place_socket does.
  place_socket-Serving :
      (pools : List (Pool C)) (sck ip port : ℕ)
      → sck ≢ dummy_new_block_fd
      → Serving cli pool_size (store free [] [] pools)
      → Serving cli pool_size
          (store free [] [] (place_socket (pool_ops cli pool_size) pools sck ip port))
  place_socket-Serving pools sck ip port real run =
      elim (place_socket-Placed (pool_ops cli pool_size) pools sck ip port) [
        | inl (room, placed) ↦
            let looked =
              subst (λ l. Serving cli pool_size (store looking [] [] l)) room.split (looks run) in
            let found = skips [] room.before (room.pool ∷ room.back) room.passed looked in
            rw placed (adds sck ip port (chooses (tests found room.serving) room.roomy) real)
        | inr (full, placed) ↦
            let looked =
              subst (λ l. Serving cli pool_size (store looking [] [] l)) (sym (append-nil pools))
                (looks run) in
            rw placed (adds sck ip port (allocates (skips [] pools [] full looked)) real)
      ]
