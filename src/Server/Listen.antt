-- ===== src/Server/Listen.antt =====
-- server.cpp, listen_main: the loop over what accept4 and setsockopt answer.
use epic_poold.Base.{ℕ, ◌+◌, ◌%◌, ◌^◌, Bool, not, List, [], ◌∷◌, ◌++◌, ltb, if◌then◌else◌}
use epic_poold.Server.{PoolOps, place_socket}

-- The answers: an error with its errno, or a socket with its address, and whether each of the two options
-- could be set.
pub data Accepted : Type 0 where
  failed : ℕ → Accepted
  connected : ℕ → ℕ → ℕ → Bool → Bool → Accepted

-- `aborted` holds the sockets that were given to sock_abort; `errs` is a uint32_t.
pub record Listener (P : Type 0) : Type 0 where
  pub pools : List P
  pub errs : ℕ
  pub aborted : List ℕ

-- The loop goes on, or the assertion on errs has failed.
pub data Loop (P : Type 0) : Type 0 where
  waits asserted : Listener P → Loop P

module _ {P : Type 0} (ops : PoolOps P) where
  abbrev pub abort_socket : ℕ → Listener P → Listener P
  abort_socket sck l = record l { aborted = l.aborted ++ sck ∷ [] }

  abbrev pub counted : Listener P → Listener P
  counted l = record l { errs = (l.errs + 1) % 2 ^ 32 }

  -- A round of the loop.
  unfoldable pub listen_one : Accepted → Listener P → Loop P
  listen_one (failed err) l =
      if ltb (counted l).errs 5 then waits (counted l) else asserted (counted l)
  listen_one (connected cli_sck ip port keepalive nodelay) l =
      let heard : Listener P = record l { errs = 0 } in
      if not keepalive
      then waits (abort_socket cli_sck heard)
      else if not nodelay
      then waits (abort_socket cli_sck heard)
      else waits (record heard { pools = place_socket ops heard.pools cli_sck ip port })

  unfoldable pub listen_main : List Accepted → Listener P → Loop P
  unfolding listen_one
  listen_main [] l = waits l
  listen_main (answer ∷ answers) l = elim (listen_one answer l) [
    | waits l' ↦ listen_main answers l'
    | asserted l' ↦ asserted l'
  ]
