-- ===== src/ClientPool/Ownership.antt =====
-- client_pool.hpp: the descriptors in a run of the pool's thread and the listener.
use epic_poold.Base.{
  ℕ, zero, suc, ◌+◌, ◌<◌, ◌≤◌, ◌^◌, ◌≡◌, ◌≢◌, refl, ◌∙◌, ap, Option, none, some, List, [], ◌∷◌,
  ◌++◌, replicate, length, arith,
}
use epic_poold.ClientPool.{ClientOps, dummy_new_block_fd, find_slot, add_socket, on_new_block}
use epic_poold.ClientPool.Descriptors.{times, piped, piped-snoc, KeepsFd, held, handle_event-total}
use epic_poold.ClientPool.Admission.{closed_twice, process_msg-total}
use epic_poold.ClientPool.Lifetime.{
  Pool, adds_socket, posts_block, reads_msg, handles, leaves, finishes, Reach, start, next,
  Reach-Counted,
}

find_slot-le : {C : Type 0} (slots : List (Option C)) → find_slot slots ≤ length slots
unfolding find_slot
find_slot-le [] = omega arith
find_slot-le (none ∷ slots) = omega arith
find_slot-le (some c ∷ slots) = omega (arith, find_slot-le slots)

module _ {C : Type 0} {cli : ClientOps C} {pool_size : ℕ} where
  -- The descriptors that the listener gave to the pool, newest first.
  unfoldable pub given : {s : Pool C} → Reach cli pool_size s → List ℕ
  given start = []
  given (next run (adds_socket fd ip port room real)) = fd ∷ given run
  given (next run posts_block) = given run
  given (next run (reads_msg env msg rest q serves del written e)) = given run
  given (next run (handles envs idx readable q serves del able e)) = given run
  given (next run (leaves serves zero_left)) = given run
  given (next run (finishes left)) = given run

  -- Those for which EPOLL_CTL_ADD was refused when their client had been made.
  unfoldable pub refused : {s : Pool C} → Reach cli pool_size s → List ℕ
  refused start = []
  refused (next run (adds_socket fd ip port room real)) = refused run
  refused (next run posts_block) = refused run
  refused (next run (reads_msg env msg rest q serves del written e)) =
      closed_twice cli env msg ++ refused run
  refused (next run (handles envs idx readable q serves del able e)) = refused run
  refused (next run (leaves serves zero_left)) = refused run
  refused (next run (finishes left)) = refused run

times-append : (fd : ℕ) (s t : List ℕ) → times fd (s ++ t) ≡ times fd s + times fd t
unfolding times
times-append fd [] t = omega arith
times-append fd (x ∷ s) t = omega (arith, times-append fd s t)

held-replicate : {C : Type 0} (cli : ClientOps C) (fd n : ℕ) → held cli fd (replicate n none) ≡ 0
unfolding held
held-replicate cli fd zero = refl
held-replicate cli fd (suc n) = held-replicate cli fd n

-- In every run, each descriptor is accounted for: the pool has closed it, holds it in a slot or has it in its
-- pipe as many times as it was given to it, and once more for each time that EPOLL_CTL_ADD was refused for
-- its client, whose socket is then closed twice. So without such a refusal nothing is closed twice, and
-- nothing is lost. The clients keep the descriptors that they are made for.
pub Reach-total :
    {C : Type 0} {cli : ClientOps C} {pool_size : ℕ} {s : Pool C} (word : pool_size < 2 ^ 32)
    (laws : KeepsFd cli) (fd : ℕ)
    → fd ≢ dummy_new_block_fd
    → (run : Reach cli pool_size s)
    → times fd s.state.closed + held cli fd s.state.clients + piped fd s.state.pipe
      ≡ times fd (given run) + times fd (refused run)
unfolding given refused times piped add_socket on_new_block
Reach-total {cli = cli} {pool_size = pool_size} word laws fd real start =
    omega (arith, held-replicate cli fd pool_size)
Reach-total {cli = cli} word laws fd real (next {s} run (adds_socket new ip port room real')) =
    let before = Reach-total word laws fd real run in
    omega (
      arith,
      before,
      piped-snoc fd s.state.pipe (record { cli_fd = new; cli_ip = ip; cli_port = port }),
    )
Reach-total {cli = cli} word laws fd real (next {s} run posts_block) =
    let before = Reach-total word laws fd real run in
    ground (
      arith,
      before,
      piped-snoc fd s.state.pipe (record { cli_fd = dummy_new_block_fd; cli_ip = 0; cli_port = 0 }),
    )
Reach-total {cli = cli} {pool_size = pool_size} word laws fd real
      (next {s} run (reads_msg env msg rest q serves del written e)) =
    let before = Reach-total word laws fd real run in
    let sized = (Reach-Counted cli pool_size word run).sized in
    let after =
      process_msg-total cli pool_size laws fd env (record s.state { pipe = rest }) q msg real sized
        (find_slot-le s.state.clients) e in
    omega (
      arith,
      before,
      after,
      ap (piped fd) written,
      times-append fd (closed_twice cli env msg) (refused run),
    )
Reach-total {cli = cli} {pool_size = pool_size} word laws fd real
      (next {s} run (handles envs idx readable q serves del able e)) =
    let before = Reach-total word laws fd real run in
    handle_event-total cli pool_size laws fd envs s.state q idx readable e ∙ before
Reach-total word laws fd real (next run (leaves serves zero_left)) =
    Reach-total word laws fd real run
Reach-total word laws fd real (next run (finishes left)) = Reach-total word laws fd real run
