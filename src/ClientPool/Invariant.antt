-- ===== src/ClientPool/Invariant.antt =====
-- client_pool.hpp: the counter, the clients in the slots and the sockets in the pipe.
use epic_poold.Base.{
  ℕ, zero, suc, ◌+◌, ◌≤◌, ◌<◌, ◌^◌, ◌≡◌, refl, ◌∙◌, ap, true, false, Option, none, some, List, [],
  ◌∷◌, ◌==◌, get_elem?, set, length, length-set, arith, Bool-cases, inl, inr,
}
use epic_poold.ClientPool.{
  ClientOps, ClientPool, PipeMsg, dummy_new_block_fd, Outcome, ok, ◌>>=◌, Env, dropped, give_up,
  remove_client, refresh_slot, refresh, find_slot, admit, add_client, process_msg, process_pipe,
}
use epic_poold.ClientPool.Counting.{
  live, adds, weight, live-set-none, live-set-some, find_slot-lt, live-fill, get_elem?-lt,
}

-- `held` sockets were taken out of the pipe and are still to be dealt with.
pub record Counted {C : Type 0} (pool_size held : ℕ) (p : ClientPool C) : Type 0 where
  pub sized : length p.clients ≡ pool_size
  pub count : p.active_cnt ≡ live p.clients + adds p.pipe + held
  pub bounded : p.active_cnt ≤ pool_size

-- A normal return, with a pool of which `P` holds.
abbrev pub Returns {ℓ} : {A : Type 0} → (A → Type ℓ) → Outcome A → Type ℓ
Returns {A = A} P r = (q : A) × (r ≡ ok q) × P q

pub Returns-bind {ℓ κ} :
    {A B : Type 0} (P : A → Type ℓ) (Q : B → Type κ) (m : Outcome A) (f : A → Outcome B)
    → Returns P m
    → ((a : A) → P a → Returns Q (f a))
    → Returns Q (m >>= f)
Returns-bind P Q m f (a, e, h) next = rw (e, ◌>>=◌) (next a h)

module _ {C : Type 0} (cli : ClientOps C) (pool_size : ℕ) (word : pool_size < 2 ^ 32) where
  abbrev pub Keeps : ℕ → ClientPool C → Outcome (ClientPool C) → Type 0
  Keeps held p r =
      Returns (λ q. Counted pool_size held q × (q.pipe ≡ p.pipe) × (q.active_cnt ≤ p.active_cnt)) r

  pub remove_client-Keeps :
      (env : Env) (p : ClientPool C) (idx held : ℕ)
      → env.del_ok idx ≡ true
      → idx < pool_size
      → Counted pool_size held p
      → Keeps held p (remove_client cli pool_size env p idx)
  unfolding remove_client
  remove_client-Keeps env p idx held del small v = by_slot (get_elem? p.clients idx) refl
    where
      by_slot :
          (slot : Option (Option C))
          → get_elem? p.clients idx ≡ slot
          → Keeps held p (remove_client cli pool_size env p idx)
      by_slot none e = absurd (omega (arith, get_elem?-lt p.clients idx e, v.sized))
      by_slot (some none) e = (p, rw (e, remove_client), (v, refl, omega arith))
      by_slot (some (some c)) e = (
        dropped cli pool_size p idx c,
        rw (e, remove_client, del),
        (
          record {
            sized = omega (arith, length-set p.clients idx none, v.sized);
            count = omega (arith, live-set-none p.clients idx c e, v.count, v.bounded);
            bounded = omega (arith, live-set-none p.clients idx c e, v.count, v.bounded);
          },
          refl,
          omega (arith, live-set-none p.clients idx c e, v.count, v.bounded),
        ),
      )

  refresh_slot-Keeps :
      (env : Env) (p : ClientPool C) (idx held : ℕ)
      → env.del_ok idx ≡ true
      → idx < pool_size
      → Counted pool_size held p
      → Keeps held p (refresh_slot cli pool_size env p idx)
  unfolding refresh_slot
  refresh_slot-Keeps env p idx held del small v = by_slot (get_elem? p.clients idx) refl
    where
      kept :
          (c c' : C)
          → get_elem? p.clients idx ≡ some (some c)
          → Counted pool_size held (record p { clients = set p.clients idx (some c') })
      kept c c' e = record {
        sized = omega (arith, length-set p.clients idx (some c'), v.sized);
        count = omega (arith, live-set-some p.clients idx c c' e, v.count);
        bounded = v.bounded;
      }

      by_slot :
          (slot : Option (Option C))
          → get_elem? p.clients idx ≡ slot
          → Keeps held p (refresh_slot cli pool_size env p idx)
      by_slot none e = absurd (omega (arith, get_elem?-lt p.clients idx e, v.sized))
      by_slot (some none) e = (p, rw (e, refresh_slot), (v, refl, omega arith))
      by_slot (some (some c)) e = elim (Bool-cases (cli.on_new_block c env.now).1) [
        | inl keep ↦ (
          record p { clients = set p.clients idx (some (cli.on_new_block c env.now).0) },
          rw (e, refresh_slot, keep),
          (kept c _ e, refl, omega arith),
        )
        | inr drop_it ↦
            rw (e, refresh_slot, drop_it)
              (remove_client-Keeps env _ idx held del small (kept c _ e))
      ]

  refresh-Keeps :
      (env : Env) (left idx : ℕ) (p : ClientPool C) (held : ℕ)
      → ((i : ℕ) → env.del_ok i ≡ true)
      → idx + left ≤ pool_size
      → Counted pool_size held p
      → Keeps held p (refresh cli pool_size env left idx p)
  unfolding refresh
  refresh-Keeps env zero idx p held del small v = (p, refl, (v, refl, omega arith))
  refresh-Keeps env (suc left) idx p held del small v =
      Returns-bind
        (λ q. Counted pool_size held q × (q.pipe ≡ p.pipe) × (q.active_cnt ≤ p.active_cnt))
        (λ q. Counted pool_size held q × (q.pipe ≡ p.pipe) × (q.active_cnt ≤ p.active_cnt)) _ _
        (refresh_slot-Keeps env p idx held (del idx) (omega arith) v)
        λ q (vq, same, fewer).
          let (r, e, (vr, same', fewer')) =
            refresh-Keeps env left (idx + 1) q held del (omega arith) vq in
          (r, e, (vr, same' ∙ same, omega (arith, fewer, fewer')))

  gave_up : (p : ClientPool C) (fd : ℕ) → Counted pool_size 1 p → Counted pool_size 0 (give_up p fd)
  gave_up p fd v = record {
    sized = v.sized;
    count = omega (arith, v.count, v.bounded);
    bounded = omega (arith, v.count, v.bounded);
  }

  admit-Keeps :
      (env : Env) (p : ClientPool C) (msg : PipeMsg)
      → Counted pool_size 1 p
      → find_slot p.clients < pool_size
      → Keeps 0 p (admit cli pool_size env p msg (find_slot p.clients))
  unfolding admit
  admit-Keeps env p msg v room = by_new (cli.construct msg.cli_fd msg.cli_ip msg.cli_port) refl
    where
      filled :
          (c : C)
          → Counted pool_size 0
              (record p { clients = set p.clients (find_slot p.clients) (some c) })
      filled c = record {
        sized = omega (arith, length-set p.clients (find_slot p.clients) (some c), v.sized);
        count = omega (arith, live-fill p.clients c (omega (arith, v.sized)), v.count);
        bounded = v.bounded;
      }

      by_new :
          (new : Option C)
          → cli.construct msg.cli_fd msg.cli_ip msg.cli_port ≡ new
          → Keeps 0 p (admit cli pool_size env p msg (find_slot p.clients))
      by_new none e = (
        give_up p msg.cli_fd,
        rw (e, admit),
        (gave_up p msg.cli_fd v, refl, omega (arith, v.count, v.bounded)),
      )
      by_new (some c) e = elim (Bool-cases env.add_ok) [
        | inl added ↦ (
          record p { clients = set p.clients (find_slot p.clients) (some c) },
          rw (e, admit, added),
          (filled c, refl, omega arith),
        )
        | inr refused ↦ (
          give_up (record p { closed = cli.get_fd c ∷ p.closed }) msg.cli_fd,
          rw (e, admit, refused),
          (
            gave_up (record p { closed = cli.get_fd c ∷ p.closed }) msg.cli_fd
                (record { sized = v.sized; count = v.count; bounded = v.bounded }),
            refl,
            omega (arith, v.count, v.bounded),
          ),
        )
      ]

  -- A socket from the pipe always finds an empty slot.
  add_client-Keeps :
      (env : Env) (p : ClientPool C) (msg : PipeMsg)
      → Counted pool_size 1 p
      → Keeps 0 p (add_client cli pool_size env p msg)
  unfolding add_client
  add_client-Keeps env p msg v =
      let room : find_slot p.clients < pool_size =
        omega
          (arith, find_slot-lt p.clients (omega (arith, v.sized, v.count, v.bounded)), v.sized) in
      let free : (find_slot p.clients == pool_size) ≡ false = ground arith in
      rw (free, add_client) (admit-Keeps env p msg v room)

  pub process_msg-Keeps :
      (env : Env) (p : ClientPool C) (msg : PipeMsg)
      → ((i : ℕ) → env.del_ok i ≡ true)
      → Counted pool_size (weight msg) p
      → Keeps 0 p (process_msg cli pool_size env p msg)
  unfolding process_msg
  process_msg-Keeps env p msg del v = elim (Bool-cases (msg.cli_fd == dummy_new_block_fd)) [
    | inl block ↦ rw block (refresh-Keeps env pool_size 0 p 0 del (omega arith) (rw block at v))
    | inr socket ↦ rw socket (add_client-Keeps env p msg (rw socket at v))
  ]

  pub process_pipe-Counted :
      (envs : ℕ → Env) (msgs : List PipeMsg) (p : ClientPool C)
      → ((n i : ℕ) → (envs n).del_ok i ≡ true)
      → p.pipe ≡ msgs
      → Counted pool_size 0 p
      → Returns
          (λ q. Counted pool_size 0 q × (q.pipe ≡ []))
          (process_pipe cli pool_size envs msgs p)
  unfolding process_pipe adds
  process_pipe-Counted envs [] p del e v = (
    record p { pipe = [] },
    refl,
    (
      record { sized = v.sized; count = omega (arith, v.count, ap adds e); bounded = v.bounded },
      refl,
    ),
  )
  process_pipe-Counted envs (msg ∷ rest) p del e v =
      Returns-bind (λ q. Counted pool_size 0 q × (q.pipe ≡ rest) × (q.active_cnt ≤ p.active_cnt)) _
        _ _
        (process_msg-Keeps (envs 0) (record p { pipe = rest }) msg (del 0)
          (record {
            sized = v.sized;
            count = omega (arith, v.count, ap adds e);
            bounded = v.bounded;
          }))
        λ q (vq, same, fewer).
          process_pipe-Counted (λ n. envs (suc n)) rest q (λ n. del (suc n)) same vq
