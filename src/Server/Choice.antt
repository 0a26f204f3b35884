-- ===== src/Server/Choice.antt =====
-- Which pools a connection and a block reach, in server.cpp.
use epic_poold.Base.{
  ℕ, suc, ◌+◌, ◌%◌, ◌^◌, ◌≡◌, refl, ◌∙◌, ap, Bool, true, false, Option, none, some, List, [], ◌∷◌,
  ◌++◌, map, Bool-cases, inl, inr, ◌⊎◌, All, length, arith,
}
use epic_poold.Server.{
  PoolOps, iterate_pools, look_for_room, add_at, place_socket, count_and_notify, notify_pools,
}

module _ {P : Type 0} (ops : PoolOps P) where
  -- The pools that have not finished, in order.
  unfoldable pub unfinished : List P → List P
  unfinished [] = []
  unfinished (pool ∷ pools) = elim (ops.is_finished pool) [
    | true ↦ unfinished pools
    | false ↦ pool ∷ unfinished pools
  ]

  unfoldable pub active_in : ℕ → List P → ℕ
  active_in n [] = n
  active_in n (pool ∷ pools) = active_in ((n + ops.get_active pool) % 2 ^ 32) pools

  notified :
      (n : ℕ) (pools : List P)
      → iterate_pools ops (count_and_notify ops) n pools
        ≡ (active_in n (unfinished pools), map ops.on_new_block (unfinished pools))
  unfolding iterate_pools count_and_notify active_in unfinished
  notified n [] = refl
  notified n (pool ∷ pools) = elim (Bool-cases (ops.is_finished pool)) [
    | inl done ↦ rw (iterate_pools, unfinished, done) (notified n pools)
    | inr lives ↦
        rw (iterate_pools, unfinished, lives)
          (ap (λ r. (r.0, ops.on_new_block pool ∷ r.1))
            (notified ((n + ops.get_active pool) % 2 ^ 32) pools))
  ]

  -- notify_new_block tells every pool that has not finished of the block, once and in order, and keeps
  -- exactly these; the number it logs is the sum of their clients, as a uint32_t.
  pub notify_pools-Notified :
      (pools : List P)
      → notify_pools ops pools
        ≡ (active_in 0 (unfinished pools), map ops.on_new_block (unfinished pools))
  unfolding notify_pools
  notify_pools-Notified pools = notified 0 pools

  abbrev pub AllFull : List P → Type 0
  AllFull = All (λ pool. ops.is_full pool ≡ true)

  -- A pool with room, behind pools that have finished or are full.
  pub record Room (pools : List P) : Type 0 where
    pub before : List P
    pub pool : P
    pub back : List P
    pub split : pools ≡ before ++ pool ∷ back
    pub passed : AllFull (unfinished before)
    pub serving : ops.is_finished pool ≡ false
    pub roomy : ops.is_full pool ≡ false

  abbrev Searched : ℕ → List P → (ℕ × Option ℕ) × List P → Type 0
  Searched k pools r =
      ((m : ℕ) × (room : Room pools) × (r ≡ (
        (m, some (k + length (unfinished room.before))),
        unfinished room.before ++ room.pool ∷ room.back,
      )))
      ⊎ (AllFull (unfinished pools) × (m : ℕ) × (r ≡ ((m, none), unfinished pools)))

  unfinished_done :
      (pool : P) (pools : List P)
      → ops.is_finished pool ≡ true
      → unfinished (pool ∷ pools) ≡ unfinished pools
  unfolding unfinished
  unfinished_done pool pools done = rw (unfinished, done) refl

  unfinished_lives :
      (pool : P) (pools : List P)
      → ops.is_finished pool ≡ false
      → unfinished (pool ∷ pools) ≡ pool ∷ unfinished pools
  unfolding unfinished
  unfinished_lives pool pools lives = rw (unfinished, lives) refl

  looks : ℕ → List P → (ℕ × Option ℕ) × List P
  looks k pools = iterate_pools ops (look_for_room ops) (k, none) pools

  looks_done :
      (k : ℕ) (pool : P) (pools : List P)
      → ops.is_finished pool ≡ true
      → looks k (pool ∷ pools) ≡ looks k pools
  unfolding iterate_pools looks
  looks_done k pool pools done = rw (iterate_pools, done) refl

  sees_full :
      (k : ℕ) (pool : P)
      → ops.is_full pool ≡ true
      → look_for_room ops (k, none) pool ≡ ((suc k, none), pool, true)
  unfolding look_for_room
  sees_full k pool full = rw (look_for_room, full) refl

  looks_full :
      (k : ℕ) (pool : P) (pools : List P)
      → ops.is_finished pool ≡ false
      → ops.is_full pool ≡ true
      → looks k (pool ∷ pools) ≡ ((looks (suc k) pools).0, pool ∷ (looks (suc k) pools).1)
  unfolding iterate_pools looks
  looks_full k pool pools lives full =
      let visit : (ℕ × Option ℕ) × P × Bool → (ℕ × Option ℕ) × List P = λ r.
        let rest = iterate_pools ops (look_for_room ops) r.0 pools in
        elim r.2 [ true ↦ (rest.0, r.1 ∷ rest.1) | false ↦ (r.0, r.1 ∷ pools) ] in
      rw (iterate_pools, lives) (ap visit (sees_full k pool full))

  sees_room :
      (k : ℕ) (pool : P)
      → ops.is_full pool ≡ false
      → look_for_room ops (k, none) pool ≡ ((k, some k), pool, false)
  unfolding look_for_room
  sees_room k pool roomy = rw (look_for_room, roomy) refl

  looks_room :
      (k : ℕ) (pool : P) (pools : List P)
      → ops.is_finished pool ≡ false
      → ops.is_full pool ≡ false
      → looks k (pool ∷ pools) ≡ ((k, some k), pool ∷ pools)
  unfolding iterate_pools looks
  looks_room k pool pools lives roomy =
      let visit : (ℕ × Option ℕ) × P × Bool → (ℕ × Option ℕ) × List P = λ r.
        let rest = iterate_pools ops (look_for_room ops) r.0 pools in
        elim r.2 [ true ↦ (rest.0, r.1 ∷ rest.1) | false ↦ (r.0, r.1 ∷ pools) ] in
      rw (iterate_pools, lives) (ap visit (sees_room k pool roomy))

  passed_over :
      (k : ℕ) (pool : P) (pools : List P)
      → ops.is_finished pool ≡ true
      → Searched k pools (looks k pools)
      → Searched k (pool ∷ pools) (looks k (pool ∷ pools))
  passed_over k pool pools done (inl (m, room, e)) =
      let gone = unfinished_done pool room.before done in
      inl (
        m,
        record {
          before = pool ∷ room.before;
          pool = room.pool;
          back = room.back;
          split = ap (λ l. pool ∷ l) room.split;
          passed = rw gone room.passed;
          serving = room.serving;
          roomy = room.roomy;
        },
        looks_done k pool pools done ∙ rw gone e,
      )
  passed_over k pool pools done (inr (full, m, e)) =
      let gone = unfinished_done pool pools done in
      inr (rw gone full, m, looks_done k pool pools done ∙ rw gone e)

  filled :
      (k : ℕ) (pool : P) (pools : List P)
      → ops.is_finished pool ≡ false
      → ops.is_full pool ≡ true
      → Searched (suc k) pools (looks (suc k) pools)
      → Searched k (pool ∷ pools) (looks k (pool ∷ pools))
  filled k pool pools lives full (inl (m, room, e)) =
      let stays = unfinished_lives pool room.before lives in
      let moved : suc k + length (unfinished room.before)
          ≡ k + suc (length (unfinished room.before)) =
        omega arith in
      inl (
        m,
        record {
          before = pool ∷ room.before;
          pool = room.pool;
          back = room.back;
          split = ap (λ l. pool ∷ l) room.split;
          passed = rw stays (full, room.passed);
          serving = room.serving;
          roomy = room.roomy;
        },
        looks_full k pool pools lives full
            ∙ rw stays (
                ap (λ r. (r.0, pool ∷ r.1)) e
                ∙ ap
                    (λ place.
                      ((m, some place), pool ∷ (unfinished room.before ++ room.pool ∷ room.back)))
                    moved),
      )
  filled k pool pools lives full (inr (others, m, e)) =
      let stays = unfinished_lives pool pools lives in
      inr (
        rw stays (full, others),
        m,
        looks_full k pool pools lives full ∙ rw stays (ap (λ r. (r.0, pool ∷ r.1)) e),
      )

  searched : (k : ℕ) (pools : List P) → Searched k pools (looks k pools)
  unfolding looks iterate_pools unfinished
  searched k [] = inr (tt, k, refl)
  searched k (pool ∷ pools) = elim (Bool-cases (ops.is_finished pool)) [
    | inl done ↦ passed_over k pool pools done (searched k pools)
    | inr lives ↦ elim (Bool-cases (ops.is_full pool)) [
      | inl full ↦ filled k pool pools lives full (searched (suc k) pools)
      | inr roomy ↦ inl (
        k,
        record {
          before = [];
          pool = pool;
          back = pools;
          split = refl;
          passed = tt;
          serving = lives;
          roomy = roomy;
        },
        looks_room k pool pools lives roomy
            ∙ ap (λ place. ((k, some place), pool ∷ pools)) (omega arith),
      )
    ]
  ]

  add_at-length :
      (front : List P) (pool : P) (back : List P) (sck ip port : ℕ)
      → add_at ops (front ++ pool ∷ back) (length front) sck ip port
        ≡ front ++ ops.add_socket pool sck ip port ∷ back
  unfolding add_at
  add_at-length [] pool back sck ip port = refl
  add_at-length (p ∷ front) pool back sck ip port =
      ap (λ l. p ∷ l) (add_at-length front pool back sck ip port)

  -- A connection goes to the first pool that has neither finished nor is full: the pools before it that
  -- have finished are erased, all else stays. If every pool that has not finished is full, it goes to
  -- a new pool behind these.
  pub place_socket-Placed :
      (pools : List P) (sck ip port : ℕ)
      → ((room : Room pools) × (place_socket ops pools sck ip port
            ≡ unfinished room.before ++ ops.add_socket room.pool sck ip port ∷ room.back))
        ⊎ (AllFull (unfinished pools)
            × (place_socket ops pools sck ip port
                ≡ unfinished pools ++ ops.add_socket ops.constructed sck ip port ∷ []))
  unfolding place_socket looks
  place_socket-Placed pools sck ip port = by_search (searched 0 pools)
    where
      place : (ℕ × Option ℕ) × List P → List P
      place r = elim r.0.1 [
        | some n ↦ add_at ops r.1 n sck ip port
        | none ↦ r.1 ++ ops.add_socket ops.constructed sck ip port ∷ []
      ]

      by_search :
          Searched 0 pools (looks 0 pools)
          → ((room : Room pools) × (place (looks 0 pools)
                ≡ unfinished room.before ++ ops.add_socket room.pool sck ip port ∷ room.back))
            ⊎ (AllFull (unfinished pools)
                × (place (looks 0 pools)
                    ≡ unfinished pools ++ ops.add_socket ops.constructed sck ip port ∷ []))
      by_search (inl (m, room, e)) =
          let front = unfinished room.before in
          let first : 0 + length front ≡ length front = omega arith in
          inl (
            room,
            ap place e
                ∙ ap (λ n. add_at ops (front ++ room.pool ∷ room.back) n sck ip port) first
                ∙ add_at-length front room.pool room.back sck ip port,
          )
      by_search (inr (full, m, e)) = inr (full, ap place e)
