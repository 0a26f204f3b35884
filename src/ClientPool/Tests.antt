-- ===== src/ClientPool/Tests.antt =====
-- A pool of two clients that are their descriptors: 7 declines new blocks, 9 declines input.
use epic_poold.ClientPool.Descriptors.{KeepsFd, times, held, piped}
use epic_poold.ClientPool.Ownership.{given, refused}
use epic_poold.ClientPool.Ending.{Fds, own, destroy_pool, Reach-destroyed}
use epic_poold.Base.{ℕ, ◌+◌, ◌≡◌, ◌⊎◌, refl, true, false, not, none, some, [], ◌∷◌, ◌==◌, arith}
use epic_poold.ClientPool.{
  ClientOps, ClientPool, PipeMsg, dummy_new_block_fd, ok, null_deref, Env, on_pipe, on_slot,
  is_full, add_socket, on_new_block, remove_client, refresh_slot, refresh, find_slot, admit,
  add_client, process_msg, process_pipe, on_read, handle_event, handle_events,
}
use epic_poold.ClientPool.Counting.{live, adds}
use epic_poold.ClientPool.Invariant.{Counted, Returns}
use epic_poold.ClientPool.Messages.{process_msg-new_block, handle_events-stale_input}
use epic_poold.ClientPool.Lifetime.{
  Pool, created, serving, finished, Reach, start, next, adds_socket, reads_msg, leaves, finishes,
  Reach-Counted,
}

abbrev sockets : ClientOps ℕ
sockets = record {
  construct = λ fd ip port. some fd;
  get_fd = λ c. c;
  on_socket_read = λ c. (c, not (c == 9));
  on_new_block = λ c now. (c, not (c == 7));
}

abbrev granted : Env
granted = record { now = 5; del_ok = λ i. true; add_ok = true }

abbrev block_msg : PipeMsg
block_msg = record { cli_fd = dummy_new_block_fd; cli_ip = 0; cli_port = 0 }

abbrev busy : ClientPool ℕ
busy = record { clients = some 7 ∷ some 9 ∷ []; active_cnt = 2; pipe = block_msg ∷ []; closed = [] }

abbrev two_slots : ClientPool ℕ
two_slots = record { clients = none ∷ none ∷ []; active_cnt = 0; pipe = []; closed = [] }

busy-Counted : Counted 2 0 busy
unfolding live adds
busy-Counted = omega arith

-- Two sockets arrive, a block, and input on the second client.
session :
    handle_events sockets 2
      (λ n m. granted)
      (on_pipe ∷ on_slot 1 true ∷ [])
      (on_new_block sockets 2 (add_socket sockets 2 (add_socket sockets 2 two_slots 8 0 1) 9 0 2))
    ≡ ok (record { clients = some 8 ∷ none ∷ []; active_cnt = 1; pipe = []; closed = 9 ∷ [] })
unfolding handle_events handle_event process_pipe process_msg add_client admit find_slot refresh
    refresh_slot remove_client on_read on_new_block add_socket
session = refl

process_msg-new_block_example :
    Returns (λ q. q.clients ≡ none ∷ some 9 ∷ []) (process_msg sockets 2 granted busy block_msg)
process_msg-new_block_example =
    process_msg-new_block sockets 2 granted (λ i. refl) busy block_msg refl refl

handle_events-stale_input_example :
    handle_events sockets 2 (λ n m. granted) (on_pipe ∷ on_slot 0 true ∷ []) busy ≡ null_deref
handle_events-stale_input_example =
    handle_events-stale_input sockets 2 (λ n m. granted) busy block_msg 0 7 [] (λ i. refl) refl refl
      refl refl refl

Reach-Counted_example : Counted 2 0 (created sockets 2).state
Reach-Counted_example = Reach-Counted sockets 2 (omega arith) start

sockets-KeepsFd : KeepsFd sockets
sockets-KeepsFd = record {
  built = λ fd ip port c e. cc;
  on_read = λ c. refl;
  on_block = λ c now. refl;
}

abbrev ungranted : Env
ungranted = record granted { add_ok = false }

abbrev one_added : Pool ℕ
one_added = record { state = add_socket sockets 2 (created sockets 2).state 8 0 1; phase = serving }

-- Its EPOLL_CTL_ADD is refused.
abbrev one_refused : Pool ℕ
one_refused = record one_added {
  state = record { clients = none ∷ none ∷ []; active_cnt = 0; pipe = []; closed = 8 ∷ 8 ∷ [] };
}

one_refused-Reach : Reach sockets 2 one_refused
unfolding add_socket is_full process_msg add_client admit find_slot
one_refused-Reach = next (next {t = one_added} start (adds_socket 8 0 1 refl (omega arith))) (
    reads_msg ungranted (record { cli_fd = 8; cli_ip = 0; cli_port = 1 }) [] one_refused.state refl
      (λ i. refl) refl refl)

-- The thread leaves its loop, one more socket comes, and the thread ends.
abbrev stranded : Pool ℕ
stranded = record {
  state = record {
    clients = none ∷ none ∷ [];
    active_cnt = 1;
    pipe = record { cli_fd = 8; cli_ip = 0; cli_port = 2 } ∷ [];
    closed = 8 ∷ 8 ∷ [];
  };
  phase = finished;
}

stranded-Reach : Reach sockets 2 stranded
unfolding add_socket is_full
stranded-Reach =
    next (next (next one_refused-Reach (leaves refl refl)) (adds_socket 8 0 2 refl (omega arith)))
      (finishes refl)

abbrev fds : Fds
fds = record { epfd = 3; read_end = 4; write_end = 5 }

Reach-destroyed_example :
    (times 8 stranded.state.closed
        + held sockets 8 stranded.state.clients
        + piped 8 stranded.state.pipe
      ≡ times 8 (given stranded-Reach) + times 8 (refused stranded-Reach))
    × ((stranded.phase ≡ serving)
        ⊎ ((live stranded.state.clients ≡ 0)
            × (times 8 (destroy_pool sockets fds stranded.state) + piped 8 stranded.state.pipe
                ≡ own 8 fds + (times 8 (given stranded-Reach) + times 8 (refused stranded-Reach)))))
Reach-destroyed_example =
    Reach-destroyed (omega arith) sockets-KeepsFd fds 8 (omega arith) stranded-Reach
