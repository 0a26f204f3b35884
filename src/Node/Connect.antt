-- ===== src/Node/Connect.antt =====
-- node.cpp, node.h: the socket of the node's thread, from node_connect to its close, and shutdown.
use epic_poold.Base.{
  ℕ, suc, Bool, true, false, not, Option, none, some, List, [], ◌∷◌, ◌==◌, if◌then◌else◌,
}
use epic_poold.Node.Receive.{Arrival}

-- What the system answers: getaddrinfo, socket and connect.
pub record Connecting : Type 0 where
  pub resolved : Bool
  pub sck : Option ℕ
  pub connected : Bool

-- The node's members, with the descriptors that it holds open, the lists of addresses that it has not freed, and
-- the descriptors that were shut down.
pub record Link : Type 0 where
  pub run_loop : Bool
  pub sock_fd : Option ℕ
  pub open_fds : List ℕ
  pub address_lists : ℕ
  pub shut : List ℕ

-- The constructor.
abbrev pub unconnected : Link
unconnected = record {
  run_loop = true;
  sock_fd = none;
  open_fds = [];
  address_lists = 0;
  shut = [];
}

abbrev pub without : ℕ → List ℕ → List ℕ
without fd [] = []
without fd (other ∷ fds) = let rest = without fd fds in if other == fd then fds else other ∷ rest

-- close(sock_fd), and -1 in its place.
unfoldable pub close_socket : Link → Link
close_socket l = elim l.sock_fd [
  | none ↦ l
  | some fd ↦ record l { sock_fd = none; open_fds = without fd l.open_fds }
]

unfoldable pub node_connect : Connecting → Link → Bool × Link
unfolding close_socket
node_connect answers l = if not answers.resolved then (false, l) else elim answers.sck [
  | none ↦ (false, record l { sock_fd = none; address_lists = suc l.address_lists })
  | some fd ↦
      let l' : Link = record l { sock_fd = some fd; open_fds = fd ∷ l.open_fds } in
      if not answers.connected then (false, close_socket l') else (true, l')
]

-- A round of thread_main; recv_main, between the two, leaves the socket as it is.
unfoldable pub connection_round : Connecting → Link → Link
unfolding node_connect close_socket
connection_round answers l =
    let (connected, l') = node_connect answers l in if connected then close_socket l' else l'

-- thread_main, for as long as run_loop is set.
unfoldable pub connection_rounds : List Connecting → Link → Link
unfolding connection_round
connection_rounds [] l = l
connection_rounds (answers ∷ more) l = connection_rounds more (connection_round answers l)

-- The connections that Node/Receive goes through.
unfoldable pub connections : List (Connecting × List Arrival) → Link → List (Option (List Arrival))
unfolding node_connect connection_round
connections [] l = []
connections ((answers, arrivals) ∷ more) l =
    (if (node_connect answers l).0 then some arrivals else none)
    ∷ connections more (connection_round answers l)

-- shutdown, up to the join of the thread.
unfoldable pub shutdown : Link → Link
shutdown l = record l {
  run_loop = false;
  shut = elim l.sock_fd [ none ↦ l.shut | some fd ↦ fd ∷ l.shut ];
}
