-- ===== src/Server/Start.antt =====
-- server.cpp, server.hpp: the listening sockets and the two lists of pools, from start on.
use epic_poold.Base.{
  ℕ, Bool, true, false, not, ◌&&◌, ◌||◌, Option, none, some, List, [], ◌∷◌, ◌==◌, if◌then◌else◌,
}
use epic_poold.Server.{PoolOps, notify_pools}

-- What the system answers when a port is opened: the socket, and whether bind and listen succeed.
pub record Opening : Type 0 where
  pub sck : Option ℕ
  pub bound : Bool
  pub listening : Bool

-- A thread is joinable from its start on.
pub record Server (P Q : Type 0) : Type 0 where
  pub client_pools : List P
  pub listen_thd : Bool
  pub tls_client_pools : List Q
  pub tls_listen_thd : Bool
  pub plain_sck : Option ℕ
  pub tls_sck : Option ℕ

unfoldable pub opens : Opening → Bool
opens opening = elim opening.sck [ none ↦ false | some sck ↦ opening.bound && opening.listening ]

-- The answers of has_first_job in the loop that waits, up to the first job.
abbrev pub has_job : List Bool → Bool
has_job [] = false
has_job (answer ∷ polls) = answer || has_job polls

module _ {P Q : Type 0} where
  abbrev pub keep_plain : ℕ → Opening → Server P Q → Server P Q
  keep_plain plain_port plain s = record s {
    plain_sck = if plain_port == 0 then s.plain_sck else plain.sck;
  }

  abbrev pub keep_tls : ℕ → Opening → Server P Q → Server P Q
  keep_tls tls_port tls s = record s { tls_sck = if tls_port == 0 then s.tls_sck else tls.sck }

  abbrev pub run_threads : ℕ → ℕ → Server P Q → Server P Q
  run_threads plain_port tls_port s = record s {
    listen_thd = not (plain_port == 0) || s.listen_thd;
    tls_listen_thd = not (tls_port == 0) || s.tls_listen_thd;
  }

  -- None while it waits for a job.
  unfoldable pub start :
      List Bool → ℕ → ℕ → Opening → Opening → Server P Q → Option (Bool × Server P Q)
  unfolding opens
  start polls plain_port tls_port plain tls s =
      if not (has_job polls)
      then none
      else if plain_port == 0 && tls_port == 0
      then some (false, s)
      else if not (plain_port == 0) && not (opens plain)
      then some (false, keep_plain plain_port plain s)
      else if not (tls_port == 0) && not (opens tls)
      then some (false, keep_tls tls_port tls (keep_plain plain_port plain s))
      else some (
        true,
        run_threads plain_port tls_port (keep_tls tls_port tls (keep_plain plain_port plain s)),
      )

  -- What is logged of the numbers of clients is left out.
  unfoldable pub notify_new_block : PoolOps P → PoolOps Q → Server P Q → Server P Q
  notify_new_block ops tls_ops s = record s {
    client_pools = if s.listen_thd then (notify_pools ops s.client_pools).1 else s.client_pools;
    tls_client_pools =
        if s.tls_listen_thd
        then (notify_pools tls_ops s.tls_client_pools).1
        else s.tls_client_pools;
  }
