-- ===== src/Server/Blocks.antt =====
-- server.cpp: which pools a block reaches after start.
use epic_poold.Base.{
  ℕ, ◌≡◌, ◌≢◌, ◌⊎◌, refl, ap, inl, inr, Bool, true, false, not, ◌||◌, Option, some, List, ◌==◌,
  ==_iff, if◌then◌else◌, map, Bool-cases, arith,
}
use epic_poold.Server.{PoolOps, notify_pools}
use epic_poold.Server.Choice.{unfinished, notify_pools-Notified}
use epic_poold.Server.Start.{
  Opening, Server, opens, has_job, keep_plain, keep_tls, run_threads, start, notify_new_block,
}

-- One of two ports is used.
abbrev pub Used : ℕ → ℕ → Type 0
Used plain_port tls_port = (plain_port ≢ 0) ⊎ (tls_port ≢ 0)

-- A port is not used, or it was opened.
abbrev pub Ready : ℕ → Opening → Type 0
Ready port opening = (port ≡ 0) ⊎ (opens opening ≡ true)

-- Of two ports, none is used, or one that is used was not opened.
abbrev pub Refused : ℕ → ℕ → Opening → Opening → Type 0
Refused plain_port tls_port plain tls =
    ((plain_port ≡ 0) × (tls_port ≡ 0))
    ⊎ (((plain_port ≢ 0) × (opens plain ≡ false)) ⊎ ((tls_port ≢ 0) × (opens tls ≡ false)))

-- The pools of a port after a block.
abbrev pub told : {R : Type 0} → PoolOps R → ℕ → List R → List R
told ops port pools = if port == 0 then pools else map ops.on_new_block (unfinished ops pools)

told_lem :
    {R : Type 0} (ops : PoolOps R) (port : ℕ) (pools : List R) (thd : Bool)
    → thd ≡ false
    → (if not (port == 0) || thd then (notify_pools ops pools).1 else pools) ≡ told ops port pools
told_lem ops port pools thd fresh = elim (Bool-cases (port == 0)) [
  | inl unused ↦ rw (unused, fresh) refl
  | inr used ↦ rw used (ap (λ r. r.1) (notify_pools-Notified ops pools))
]

untold_lem :
    {R : Type 0} (ops : PoolOps R) (pools : List R) (thd : Bool)
    → thd ≡ false
    → (if thd then (notify_pools ops pools).1 else pools) ≡ pools
untold_lem ops pools thd fresh = rw fresh refl

module _ {P Q : Type 0} (ops : PoolOps P) (tls_ops : PoolOps Q) where
  -- The end of start, with what a block then does.
  abbrev pub Started : ℕ → ℕ → Opening → Opening → Server P Q → Option (Bool × Server P Q) → Type 0
  Started plain_port tls_port plain tls s r =
      ((s' : Server P Q) × (r ≡ some (true, s'))
        × Used plain_port tls_port
        × Ready plain_port plain
        × Ready tls_port tls
        × ((notify_new_block ops tls_ops s').client_pools ≡ told ops plain_port s.client_pools)
        × ((notify_new_block ops tls_ops s').tls_client_pools
            ≡ told tls_ops tls_port s.tls_client_pools))
      ⊎ ((s' : Server P Q) × (r ≡ some (false, s'))
          × Refused plain_port tls_port plain tls
          × ((notify_new_block ops tls_ops s').client_pools ≡ s.client_pools)
          × ((notify_new_block ops tls_ops s').tls_client_pools ≡ s.tls_client_pools))

  -- start, when there is a job and no thread runs yet: it succeeds exactly if a port is used and each used
  -- port was opened, and from then on a block reaches the unfinished pools of the used ports, once and in
  -- order, and leaves those of an unused one; after a failure, a block reaches no pool.
  pub start-Started :
      (polls : List Bool) (plain_port tls_port : ℕ) (plain tls : Opening) (s : Server P Q)
      → has_job polls ≡ true
      → s.listen_thd ≡ false
      → s.tls_listen_thd ≡ false
      → Started plain_port tls_port plain tls s (start polls plain_port tls_port plain tls s)
  unfolding start notify_new_block
  start-Started polls plain_port tls_port plain tls s job fresh tls_fresh =
      elim (Bool-cases (plain_port == 0)) [
        | inl no_plain ↦ elim (Bool-cases (tls_port == 0)) [
          | inl no_tls ↦
              fails s.plain_sck s.tls_sck (rw (start, job, no_plain, no_tls) refl)
                (inl (is_zero plain_port no_plain, is_zero tls_port no_tls))
          | inr some_tls ↦ elim (Bool-cases (opens tls)) [
            | inl up ↦
                succeeds (rw (start, job, no_plain, some_tls, up) refl)
                  (inr (is_used tls_port some_tls)) (inl (is_zero plain_port no_plain)) (inr up)
            | inr down ↦
                fails s.plain_sck tls.sck (rw (start, job, no_plain, some_tls, down) refl)
                  (inr (inr (is_used tls_port some_tls, down)))
          ]
        ]
        | inr some_plain ↦ elim (Bool-cases (opens plain)) [
          | inr down ↦
              fails plain.sck s.tls_sck (rw (start, job, some_plain, down) refl)
                (inr (inl (is_used plain_port some_plain, down)))
          | inl up ↦ elim (Bool-cases (tls_port == 0)) [
            | inl no_tls ↦
                succeeds (rw (start, job, some_plain, up, no_tls) refl)
                  (inl (is_used plain_port some_plain)) (inr up) (inl (is_zero tls_port no_tls))
            | inr some_tls ↦ elim (Bool-cases (opens tls)) [
              | inl tls_up ↦
                  succeeds (rw (start, job, some_plain, up, some_tls, tls_up) refl)
                    (inl (is_used plain_port some_plain)) (inr up) (inr tls_up)
              | inr down ↦
                  fails plain.sck tls.sck (rw (start, job, some_plain, up, some_tls, down) refl)
                    (inr (inr (is_used tls_port some_tls, down)))
            ]
          ]
        ]
      ]
    where
      is_zero : (port : ℕ) → (port == 0) ≡ true → port ≡ 0
      is_zero port e = (==_iff port 0).0 e

      is_used : (port : ℕ) → (port == 0) ≡ false → port ≢ 0
      is_used port e z = ground arith

      fails :
          (sck tls_sck : Option ℕ)
          → start polls plain_port tls_port plain tls s
            ≡ some (false, record s { plain_sck = sck; tls_sck = tls_sck })
          → Refused plain_port tls_port plain tls
          → Started plain_port tls_port plain tls s (start polls plain_port tls_port plain tls s)
      fails sck tls_sck e why = inr (
        record s { plain_sck = sck; tls_sck = tls_sck },
        e,
        why,
        untold_lem ops s.client_pools s.listen_thd fresh,
        untold_lem tls_ops s.tls_client_pools s.tls_listen_thd tls_fresh,
      )

      succeeds :
          start polls plain_port tls_port plain tls s
            ≡ some (
              true,
              run_threads plain_port tls_port
                  (keep_tls tls_port tls (keep_plain plain_port plain s)),
            )
          → Used plain_port tls_port
          → Ready plain_port plain
          → Ready tls_port tls
          → Started plain_port tls_port plain tls s (start polls plain_port tls_port plain tls s)
      succeeds e used ready tls_ready = inl (
        run_threads plain_port tls_port (keep_tls tls_port tls (keep_plain plain_port plain s)),
        e,
        used,
        ready,
        tls_ready,
        told_lem ops plain_port s.client_pools s.listen_thd fresh,
        told_lem tls_ops tls_port s.tls_client_pools s.tls_listen_thd tls_fresh,
      )
