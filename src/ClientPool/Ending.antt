-- ===== src/ClientPool/Ending.antt =====
-- client_pool.hpp: the memory of a client, the constructor of the pool and its destructor.
use epic_poold.Base.{
  ℕ, ◌+◌, ◌<◌, ◌^◌, ◌≡◌, ◌≢◌, ◌⊎◌, refl, sym, inl, inr, Bool, not, Option, none, some, List, [],
  ◌∷◌, get_elem?, if◌then◌else◌, arith,
}
use epic_poold.ClientPool.{
  ClientOps, ClientPool, dummy_new_block_fd, find_slot, add_socket, on_new_block,
}
use epic_poold.ClientPool.Counting.{live}
use epic_poold.ClientPool.Descriptors.{one, times, piped, KeepsFd, held}
use epic_poold.ClientPool.Lifetime.{
  Phase, serving, leaving, Pool, adds_socket, posts_block, reads_msg, handles, leaves, finishes,
  Reach, start, next, Reach-Counted,
}
use epic_poold.ClientPool.Ownership.{given, refused, Reach-total}

-- What a call on a placement_mem ends with: `ptr` as it is afterwards; one of its two exceptions, or that of
-- the constructor of the client.
pub data Placement (C : Type 0) : Type 0 where
  points_to : Option C → Placement C
  over_live_object over_empty_object client_threw : Placement C

-- The client that is made, or none for an exception, comes from the pool's `cli_type`.
unfoldable pub construct_in : {C : Type 0} → Option C → Option C → Placement C
construct_in (some live_client) made = over_live_object
construct_in none none = client_threw
construct_in none (some c) = points_to (some c)

unfoldable pub free_in : {C : Type 0} → Option C → Placement C
free_in none = over_empty_object
free_in (some c) = points_to none

-- The answers of the system to the constructor: epoll_create1, pipe2 with the end to read and the end to
-- write, and epoll_ctl.
pub record Opened : Type 0 where
  pub epfd : Option ℕ
  pub pipefds : Option (ℕ × ℕ)
  pub added : Bool

pub record Fds : Type 0 where
  pub epfd : ℕ
  pub read_end : ℕ
  pub write_end : ℕ

-- The constructor: the descriptors of a pool, or those that an exception leaves open.
pub data Construction : Type 0 where
  opened : Fds → Construction
  limit_reached : List ℕ → Construction

unfoldable pub open_pool : Opened → Construction
open_pool answers = elim answers.epfd [
  | none ↦ limit_reached []
  | some epfd ↦ elim answers.pipefds [
    | none ↦ limit_reached (epfd ∷ [])
    | some (read_end, write_end) ↦
        if not answers.added
        then limit_reached (write_end ∷ read_end ∷ epfd ∷ [])
        else opened (record { epfd = epfd; read_end = read_end; write_end = write_end })
  ]
]

module _ {C : Type 0} (cli : ClientOps C) where
  -- The destructor of a placement_mem, for each slot from the last one on: a client that lives closes its
  -- socket.
  unfoldable pub destroy_slots : List (Option C) → List ℕ → List ℕ
  destroy_slots [] closed = closed
  destroy_slots (none ∷ slots) closed = destroy_slots slots closed
  destroy_slots (some c ∷ slots) closed = cli.get_fd c ∷ destroy_slots slots closed

  -- The destructor, after its join; the members go after its body.
  unfoldable pub destroy_pool : Fds → ClientPool C → List ℕ
  unfolding destroy_slots
  destroy_pool fds p = destroy_slots p.clients (fds.read_end ∷ fds.write_end ∷ fds.epfd ∷ p.closed)

  destroy_slots-times :
      (fd : ℕ) (slots : List (Option C)) (closed : List ℕ)
      → times fd (destroy_slots slots closed) ≡ held cli fd slots + times fd closed
  unfolding destroy_slots times held
  destroy_slots-times fd [] closed = omega arith
  destroy_slots-times fd (none ∷ slots) closed = destroy_slots-times fd slots closed
  destroy_slots-times fd (some c ∷ slots) closed =
      omega (arith, destroy_slots-times fd slots closed)

-- A client is constructed where find_slot leads only, and so never over a live object.
construct_in-find_slot :
    {C : Type 0} (slots : List (Option C)) (slot c : Option C)
    → get_elem? slots (find_slot slots) ≡ some slot
    → construct_in slot c ≢ over_live_object
unfolding find_slot construct_in
construct_in-find_slot [] slot c e over = cc
construct_in-find_slot (some d ∷ slots) slot c e over = construct_in-find_slot slots slot c e over
construct_in-find_slot (none ∷ slots) (some d) c e over = cc
construct_in-find_slot (none ∷ slots) none none e over = cc
construct_in-find_slot (none ∷ slots) none (some d) e over = cc

-- The descriptors of the pool itself.
abbrev pub own : ℕ → Fds → ℕ
own fd fds = one fd fds.read_end + (one fd fds.write_end + one fd fds.epfd)

-- Once the thread has left its loop, no slot has a client.
emptied :
    {C : Type 0} {cli : ClientOps C} {pool_size : ℕ} {s : Pool C} (word : pool_size < 2 ^ 32)
    → Reach cli pool_size s
    → (s.phase ≡ serving) ⊎ (live s.state.clients ≡ 0)
unfolding add_socket on_new_block
emptied word start = inl refl
emptied word (next run (adds_socket fd ip port room real)) = emptied word run
emptied word (next run posts_block) = emptied word run
emptied word (next run (reads_msg env msg rest q serves del written e)) = inl serves
emptied word (next run (handles envs idx readable q serves del able e)) = inl serves
emptied {cli = cli} {pool_size = pool_size} word (next {s} run (leaves serves idle)) =
    inr (omega (arith, (Reach-Counted cli pool_size word run).count, idle))
emptied word (next {s} run (finishes left)) = elim (emptied word run) [
  | inl serves ↦ absurd (apart (sym left) serves)
  | inr none_live ↦ inr none_live
]
  where
    apart : {phase : Phase} → leaving ≡ phase → phase ≢ serving
    apart e e' = cc

-- In every run, each descriptor is accounted for: the pool has closed it, holds it in a slot or has it in its
-- pipe as many times as it was given to it, and once more for each time that EPOLL_CTL_ADD was refused for
-- its client, whose socket is then closed twice. When the thread has left its loop, no client is left, and the
-- destructor closes the pool's own descriptors: then the same holds of all that was closed and of
-- what is stranded in the pipe, which nothing closes. The clients keep the descriptors that they are
-- made for.
pub Reach-destroyed :
    {C : Type 0} {cli : ClientOps C} {pool_size : ℕ} {s : Pool C} (word : pool_size < 2 ^ 32)
    (laws : KeepsFd cli) (fds : Fds) (fd : ℕ)
    → fd ≢ dummy_new_block_fd
    → (run : Reach cli pool_size s)
    → (times fd s.state.closed + held cli fd s.state.clients + piped fd s.state.pipe
        ≡ times fd (given run) + times fd (refused run))
      × ((s.phase ≡ serving)
          ⊎ ((live s.state.clients ≡ 0)
              × (times fd (destroy_pool cli fds s.state) + piped fd s.state.pipe
                  ≡ own fd fds + (times fd (given run) + times fd (refused run)))))
unfolding destroy_pool times
Reach-destroyed {cli = cli} {s = s} word laws fds fd real run =
    let total = Reach-total word laws fd real run in
    let freed =
      destroy_slots-times cli fd s.state.clients
        (fds.read_end ∷ fds.write_end ∷ fds.epfd ∷ s.state.closed) in
    (
      total,
      elim (emptied word run) [
        | inl serves ↦ inl serves
        | inr none_live ↦ inr (none_live, omega (arith, total, freed))
      ],
    )
