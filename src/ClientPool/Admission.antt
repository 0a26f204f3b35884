-- ===== src/ClientPool/Admission.antt =====
-- client_pool.hpp, process_pipe: where the descriptors are after one message.
use epic_poold.Base.{
  ℕ, ◌+◌, ◌<◌, ◌≤◌, ◌≡◌, ◌≢◌, sym, ◌∙◌, ap, false, none, some, List, [], ◌∷◌, ◌==◌, if◌then◌else◌,
  set, length, arith, inl, inr, Bool-cases, Option-cases,
}
use epic_poold.ClientPool.{
  ClientOps, ClientPool, PipeMsg, dummy_new_block_fd, ok, Env, give_up, find_slot, admit,
  add_client, process_msg,
}
use epic_poold.ClientPool.Descriptors.{
  one, times, ok_same, KeepsFd, held-fill, total, refresh-total,
}

-- The descriptors that a message has closed twice: the client was made, and EPOLL_CTL_ADD was refused.
unfoldable pub closed_twice : {C : Type 0} → ClientOps C → Env → PipeMsg → List ℕ
closed_twice cli env msg =
    if msg.cli_fd == dummy_new_block_fd
    then []
    else elim (cli.construct msg.cli_fd msg.cli_ip msg.cli_port) [
      | none ↦ []
      | some c ↦ if env.add_ok then [] else msg.cli_fd ∷ []
    ]

module _ {C : Type 0} (cli : ClientOps C) (pool_size : ℕ) (laws : KeepsFd cli) (fd : ℕ) where
  admit-total :
      (env : Env) (p q : ClientPool C) (msg : PipeMsg)
      → (msg.cli_fd == dummy_new_block_fd) ≡ false
      → find_slot p.clients < length p.clients
      → admit cli pool_size env p msg (find_slot p.clients) ≡ ok q
      → total cli fd q ≡ total cli fd p + one fd msg.cli_fd + times fd (closed_twice cli env msg)
  unfolding admit times closed_twice
  admit-total env p q msg socket room e =
      elim (Option-cases (cli.construct msg.cli_fd msg.cli_ip msg.cli_port)) [
        | inl failed ↦
            let same : give_up p msg.cli_fd ≡ q = ok_same (rw (admit, failed) at e) in
            rw (closed_twice, socket, failed) (ap (total cli fd) (sym same) ∙ omega arith)
        | inr (c, made) ↦ elim (Bool-cases env.add_ok) [
          | inl added ↦
              let p' : ClientPool C = record p {
                clients = set p.clients (find_slot p.clients) (some c);
              } in
              let same : p' ≡ q = ok_same (rw (admit, made, added) at e) in
              let own = ap (one fd) (laws.built msg.cli_fd msg.cli_ip msg.cli_port c made) in
              rw (closed_twice, socket, made, added)
                (ap (total cli fd) (sym same)
                  ∙ omega (arith, held-fill cli fd p.clients c room, own))
          | inr refused ↦
              let p' : ClientPool C =
                give_up (record p { closed = cli.get_fd c ∷ p.closed }) msg.cli_fd in
              let same : p' ≡ q = ok_same (rw (admit, made, refused) at e) in
              let own = ap (one fd) (laws.built msg.cli_fd msg.cli_ip msg.cli_port c made) in
              rw (closed_twice, socket, made, refused)
                (ap (total cli fd) (sym same) ∙ omega (arith, own))
        ]
      ]

  pub process_msg-total :
      (env : Env) (p q : ClientPool C) (msg : PipeMsg)
      → fd ≢ dummy_new_block_fd
      → length p.clients ≡ pool_size
      → find_slot p.clients ≤ length p.clients
      → process_msg cli pool_size env p msg ≡ ok q
      → total cli fd q ≡ total cli fd p + one fd msg.cli_fd + times fd (closed_twice cli env msg)
  unfolding process_msg add_client closed_twice times
  process_msg-total env p q msg real sized within e =
      elim (Bool-cases (msg.cli_fd == dummy_new_block_fd)) [
        | inl block ↦
            let other : one fd msg.cli_fd ≡ 0 = ground arith in
            rw (closed_twice, block)
              (omega (
                arith,
                other,
                refresh-total cli pool_size laws fd env pool_size 0 p q
                    (rw (process_msg, block) at e),
              ))
        | inr socket ↦ elim (Bool-cases (find_slot p.clients == pool_size)) [
          | inl full ↦ let never = rw (process_msg, socket, add_client, full) at e in cc
          | inr free ↦
              admit-total env p q msg socket (ground arith)
                (rw (process_msg, socket, add_client, free) at e)
        ]
      ]
