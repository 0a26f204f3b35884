-- ===== src/Client/Serving.antt =====
-- client.hpp, client.cpp: the client behind its reading loop, with its own process_line.
use epic_poold.Base.{ℕ, suc, Bool, true, false, Option, none, some}
use epic_poold.Client.{JobData, HashPools, Json, Client}
use epic_poold.Client.Line.{process_line}
use epic_poold.Client.Reader.{Session}

-- The client, or none behind an access outside of a buffer, after which C promises nothing, and how many lines
-- it has processed.
pub record Served : Type 0 where
  pub client : Option Client
  pub lines : ℕ

-- The clock, the hash pools and the job of the node as each line finds them.
pub record Moments : Type 0 where
  pub times : ℕ → ℕ
  pub pools : ℕ → HashPools
  pub currents : ℕ → JobData

abbrev pub answered : Served → Option (Client × Bool) → Served × Bool
answered s none = (record s { client = none }, false)
answered s (some (c, goes_on)) = (record { client = some c; lines = suc s.lines }, goes_on)

-- What the loop of on_socket_read uses of this client.
abbrev pub client_session : {V : Type 0} → Json V → (ℕ → Bool) → ℕ → Moments → Session Served
client_session json writes max_calls moments = record {
  aborting = λ s. elim s.client [ none ↦ true | some c ↦ c.aborting ];
  hard_abort = λ s. record s {
    client = elim s.client [ none ↦ none | some c ↦ some (record c { aborting = true }) ];
  };
  process_line = λ s line. answered s (elim s.client [
    | none ↦ none
    | some c ↦
        process_line json (moments.pools s.lines) (moments.currents s.lines) writes max_calls
          (moments.times s.lines) c line
  ]);
}
