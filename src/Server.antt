-- ===== src/Server.antt =====
-- server.hpp, server.cpp: the list of client pools, the choice of a pool for a connection, and the
-- passing on of a block. The class of the pools is a parameter, as in the source.
pub mod Choice
pub mod Listen
pub mod Accepting
pub mod Start
pub mod Blocks
pub mod Pools
pub mod Atomic
pub mod Tests
use epic_poold.Base.{
  ℕ, zero, suc, ◌+◌, ◌%◌, ◌^◌, Bool, true, false, not, Option, none, some, List, [], ◌∷◌, ◌++◌,
  if◌then◌else◌,
}

-- What the server uses of a pool.
pub record PoolOps (P : Type 0) : Type 0 where
  pub constructed : P
  pub is_finished : P → Bool
  pub is_full : P → Bool
  pub get_active : P → ℕ
  pub add_socket : P → ℕ → ℕ → ℕ → P
  pub on_new_block : P → P

module _ {P : Type 0} (ops : PoolOps P) where
  -- A pool that has finished is erased; the functor sees each other pool until it returns false. It
  -- may change what it captures and the pool.
  unfoldable pub iterate_pools {ℓ} : {A : Type ℓ} → (A → P → A × P × Bool) → A → List P → A × List P
  iterate_pools functor captured [] = (captured, [])
  iterate_pools functor captured (pool ∷ pools) =
      let erased = iterate_pools functor captured pools in
      let (captured', pool', further) = functor captured pool in
      let visited = iterate_pools functor captured' pools in
      elim (ops.is_finished pool) [
        | true ↦ erased
        | false ↦ elim further [
          | true ↦ (visited.0, pool' ∷ visited.1)
          | false ↦ (captured', pool' ∷ pools)
        ]
      ]

  -- The functor of listen_main. A pointer to a pool is its place among those that are left; the first
  -- component counts them.
  unfoldable pub look_for_room : ℕ × Option ℕ → P → (ℕ × Option ℕ) × P × Bool
  look_for_room (place, found_pool) pool =
      if not (ops.is_full pool)
      then ((place, some place), pool, false)
      else ((suc place, found_pool), pool, true)

  unfoldable pub add_at : List P → ℕ → ℕ → ℕ → ℕ → List P
  add_at [] place sck ip port = []
  add_at (pool ∷ pools) zero sck ip port = ops.add_socket pool sck ip port ∷ pools
  add_at (pool ∷ pools) (suc place) sck ip port = pool ∷ add_at pools place sck ip port

  -- listen_main for a connection that was accepted, under the lock.
  unfoldable pub place_socket : List P → ℕ → ℕ → ℕ → List P
  unfolding iterate_pools look_for_room add_at
  place_socket pools sck ip port =
      let searched = iterate_pools look_for_room (0, none) pools in
      elim searched.0.1 [
        | some place ↦ add_at searched.1 place sck ip port
        | none ↦ searched.1 ++ ops.add_socket ops.constructed sck ip port ∷ []
      ]

  -- The functor of notify_new_block; the count of active clients is a uint32_t.
  unfoldable pub count_and_notify : ℕ → P → ℕ × P × Bool
  count_and_notify active_cli pool =
      ((active_cli + ops.get_active pool) % 2 ^ 32, ops.on_new_block pool, true)

  -- notify_new_block for one list.
  unfoldable pub notify_pools : List P → ℕ × List P
  unfolding iterate_pools count_and_notify
  notify_pools pools = iterate_pools count_and_notify 0 pools
