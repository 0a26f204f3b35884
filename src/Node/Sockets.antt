-- ===== src/Node/Sockets.antt =====
-- node.cpp: the descriptors that the node's thread has open.
use epic_poold.Base.{
  ℕ, suc, ◌+◌, ◌≡◌, ◌⊎◌, refl, ◌∙◌, ap, Bool, true, false, Option, none, some, List, [], ◌∷◌, ◌==◌,
  if◌then◌else◌, arith, inl, inr,
}
use epic_poold.Node.Connect.{
  Connecting, Link, unconnected, without, close_socket, node_connect, connection_round,
  connection_rounds,
}

-- The attempts that leave their list of addresses: the name was resolved, and there was no socket.
abbrev pub leaks : List Connecting → ℕ
leaks [] = 0
leaks (answers ∷ more) =
    let later = leaks more in
    if answers.resolved then elim answers.sck [ none ↦ suc later | some fd ↦ later ] else later

-- Outside of recv_main: no socket, and some lists of addresses.
abbrev pub between : ℕ → Link
between lists = record unconnected { address_lists = lists }

-- Inside of it: exactly the socket of sock_fd.
abbrev pub Connected : Link → Type 0
Connected l = (fd : ℕ) × (l.sock_fd ≡ some fd) × (l.open_fds ≡ fd ∷ [])

without-only : (fd : ℕ) → without fd (fd ∷ []) ≡ []
without-only fd = let same : (fd == fd) ≡ true = ground arith in rw same refl

-- A round, by what the system answers: it ends without a socket, and in between it fails, or has the one.
one_round :
    (resolved : Bool) (sck : Option ℕ) (connected : Bool) (lists : ℕ)
    → let answers : Connecting = record { resolved = resolved; sck = sck; connected = connected } in
      (connection_round answers (between lists) ≡ between (lists + leaks (answers ∷ [])))
      × (((node_connect answers (between lists)).0 ≡ false)
          ⊎ Connected (node_connect answers (between lists)).1)
unfolding node_connect connection_round close_socket
one_round false sck connected lists = (ap between (omega arith), inl refl)
one_round true none connected lists = (ap between (omega arith), inl refl)
one_round true (some fd) true lists =
    (rw (without-only fd) (ap between (omega arith)), inr (fd, refl, refl))
one_round true (some fd) false lists = (rw (without-only fd) (ap between (omega arith)), inl refl)

leaks-cons :
    (answers : Connecting) (more : List Connecting)
    → leaks (answers ∷ more) ≡ leaks (answers ∷ []) + leaks more
leaks-cons answers more = by_answer answers.resolved answers.sck
  where
    by_answer :
        (resolved : Bool) (sck : Option ℕ)
        → (if resolved
            then elim sck [ none ↦ suc (leaks more) | some fd ↦ leaks more ]
            else leaks more)
          ≡ (if resolved then elim sck [ none ↦ 1 | some fd ↦ 0 ] else 0) + leaks more
    by_answer false sck = omega arith
    by_answer true none = omega arith
    by_answer true (some fd) = omega arith

rounds_end :
    (rounds : List Connecting) (lists : ℕ)
    → connection_rounds rounds (between lists) ≡ between (lists + leaks rounds)
unfolding connection_rounds
rounds_end [] lists = ap between (omega arith)
rounds_end (answers ∷ more) lists =
    rw ((one_round answers.resolved answers.sck answers.connected lists).0) (
      rounds_end more (lists + leaks (answers ∷ []))
      ∙ ap between (omega (arith, leaks-cons answers more)))

-- After any rounds of connections, refused and ended ones, the thread holds no socket open, and its only debt
-- is one list of addresses for each attempt in which the name was resolved and there was no socket; in the next
-- round, node_connect fails, or exactly the socket of sock_fd is open.
pub connection_rounds-Connected :
    (rounds : List Connecting) (answers : Connecting)
    → (connection_rounds rounds unconnected ≡ record unconnected { address_lists = leaks rounds })
      × (((node_connect answers (connection_rounds rounds unconnected)).0 ≡ false)
          ⊎ Connected (node_connect answers (connection_rounds rounds unconnected)).1)
connection_rounds-Connected rounds answers =
    let ended : connection_rounds rounds unconnected ≡ between (leaks rounds) =
      rounds_end rounds 0 ∙ ap between (omega arith) in
    (ended, rw ended ((one_round answers.resolved answers.sck answers.connected (leaks rounds)).1))
