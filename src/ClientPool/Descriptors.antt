-- ===== src/ClientPool/Descriptors.antt =====
-- client_pool.hpp: where each descriptor is that the listener gave to a pool.
use epic_poold.Base.{
  ℕ, zero, suc, ◌+◌, ◌<◌, ◌≡◌, refl, sym, ◌∙◌, ap, Bool, true, false, Option, none, some, List, [],
  ◌∷◌, ◌++◌, ◌==◌, if◌then◌else◌, get_elem?, set, length, arith, inl, inr, Bool-cases,
}
use epic_poold.ClientPool.{
  ClientOps, ClientPool, PipeMsg, Outcome, ok, thrown, null_deref, ◌>>=◌, Env, dropped,
  remove_client, refresh_slot, refresh, find_slot, on_read, handle_event, on_slot,
}

-- How many of a list are a descriptor.
abbrev pub one : ℕ → ℕ → ℕ
one fd other = if other == fd then 1 else 0

unfoldable pub times : ℕ → List ℕ → ℕ
times fd [] = 0
times fd (other ∷ others) = one fd other + times fd others

unfoldable pub piped : ℕ → List PipeMsg → ℕ
piped fd [] = 0
piped fd (msg ∷ msgs) = one fd msg.cli_fd + piped fd msgs

pub piped-snoc :
    (fd : ℕ) (msgs : List PipeMsg) (msg : PipeMsg)
    → piped fd (msgs ++ msg ∷ []) ≡ piped fd msgs + one fd msg.cli_fd
unfolding piped
piped-snoc fd [] msg = omega arith
piped-snoc fd (m ∷ msgs) msg = omega (arith, piped-snoc fd msgs msg)

pub bind_ok :
    {A B : Type 0} (m : Outcome A) (f : A → Outcome B) (q : B)
    → (m >>= f) ≡ ok q
    → (a : A) × (m ≡ ok a) × (f a ≡ ok q)
bind_ok (ok a) f q e = (a, refl, e)
bind_ok (thrown x) f q e = cc
bind_ok null_deref f q e = cc

pub ok_same : {A : Type 0} {x y : A} → ok x ≡ ok y → x ≡ y
ok_same h = cc

module _ {C : Type 0} (cli : ClientOps C) where
  -- A client has the descriptor that it was made for, as long as it lives.
  pub record KeepsFd : Type 0 where
    pub built : (fd ip port : ℕ) (c : C) → cli.construct fd ip port ≡ some c → cli.get_fd c ≡ fd
    pub on_read : (c : C) → cli.get_fd (cli.on_socket_read c).0 ≡ cli.get_fd c
    pub on_block : (c : C) (now : ℕ) → cli.get_fd (cli.on_new_block c now).0 ≡ cli.get_fd c

  -- The slots whose client has a descriptor.
  unfoldable pub held : ℕ → List (Option C) → ℕ
  held fd [] = 0
  held fd (none ∷ slots) = held fd slots
  held fd (some c ∷ slots) = one fd (cli.get_fd c) + held fd slots

  pub held-set-none :
      (fd : ℕ) (slots : List (Option C)) (i : ℕ) (c : C)
      → get_elem? slots i ≡ some (some c)
      → one fd (cli.get_fd c) + held fd (set slots i none) ≡ held fd slots
  unfolding held
  held-set-none fd [] i c e = cc
  held-set-none fd (none ∷ slots) zero c e = cc
  held-set-none fd (some d ∷ slots) zero c e =
      let same : d ≡ c = cc in ap (λ (x : C). one fd (cli.get_fd x) + held fd slots) (sym same)
  held-set-none fd (none ∷ slots) (suc i) c e = held-set-none fd slots i c e
  held-set-none fd (some d ∷ slots) (suc i) c e = omega (arith, held-set-none fd slots i c e)

  pub held-set-some :
      (fd : ℕ) (slots : List (Option C)) (i : ℕ) (c c' : C)
      → get_elem? slots i ≡ some (some c)
      → cli.get_fd c' ≡ cli.get_fd c
      → held fd (set slots i (some c')) ≡ held fd slots
  unfolding held
  held-set-some fd [] i c c' e kept = cc
  held-set-some fd (none ∷ slots) zero c c' e kept = cc
  held-set-some fd (some d ∷ slots) zero c c' e kept =
      let same : c ≡ d = cc in ap (λ n. one fd n + held fd slots) (kept ∙ ap cli.get_fd same)
  held-set-some fd (none ∷ slots) (suc i) c c' e kept = held-set-some fd slots i c c' e kept
  held-set-some fd (some d ∷ slots) (suc i) c c' e kept =
      ap (λ n. one fd (cli.get_fd d) + n) (held-set-some fd slots i c c' e kept)

  pub held-fill :
      (fd : ℕ) (slots : List (Option C)) (c : C)
      → find_slot slots < length slots
      → held fd (set slots (find_slot slots) (some c)) ≡ one fd (cli.get_fd c) + held fd slots
  unfolding find_slot held
  held-fill fd [] c h = absurd (omega arith)
  held-fill fd (none ∷ slots) c h = refl
  held-fill fd (some d ∷ slots) c h = omega (arith, held-fill fd slots c (omega arith))

  -- Where a descriptor is: closed, in the slots, or in the pipe.
  abbrev pub total : ℕ → ClientPool C → ℕ
  total fd p = times fd p.closed + held fd p.clients + piped fd p.pipe

module _ {C : Type 0} (cli : ClientOps C) (pool_size : ℕ) (laws : KeepsFd cli) (fd : ℕ) where
  pub remove_client-total :
      (env : Env) (p q : ClientPool C) (idx : ℕ)
      → remove_client cli pool_size env p idx ≡ ok q
      → total cli fd q ≡ total cli fd p
  unfolding remove_client times
  remove_client-total env p q idx e = by_slot (get_elem? p.clients idx) refl
    where
      by_slot :
          (slot : Option (Option C))
          → get_elem? p.clients idx ≡ slot
          → total cli fd q ≡ total cli fd p
      by_slot none at = let never = rw (remove_client, at) at e in cc
      by_slot (some none) at =
          let same : p ≡ q = ok_same (rw (remove_client, at) at e) in ap (total cli fd) (sym same)
      by_slot (some (some c)) at = elim (Bool-cases (env.del_ok idx)) [
        | inl done ↦
            let same : dropped cli pool_size p idx c ≡ q =
              ok_same (rw (remove_client, at, done) at e) in
            ap (total cli fd) (sym same) ∙ omega (arith, held-set-none cli fd p.clients idx c at)
        | inr refused ↦ let never = rw (remove_client, at, refused) at e in cc
      ]

  -- A client that a handler leaves in its slot has its descriptor.
  pub kept_total :
      (p : ClientPool C) (idx : ℕ) (c c' : C)
      → get_elem? p.clients idx ≡ some (some c)
      → cli.get_fd c' ≡ cli.get_fd c
      → total cli fd (record p { clients = set p.clients idx (some c') }) ≡ total cli fd p
  kept_total p idx c c' at kept = omega (arith, held-set-some cli fd p.clients idx c c' at kept)

  pub refresh_slot-total :
      (env : Env) (p q : ClientPool C) (idx : ℕ)
      → refresh_slot cli pool_size env p idx ≡ ok q
      → total cli fd q ≡ total cli fd p
  unfolding refresh_slot
  refresh_slot-total env p q idx e = by_slot (get_elem? p.clients idx) refl
    where
      by_slot :
          (slot : Option (Option C))
          → get_elem? p.clients idx ≡ slot
          → total cli fd q ≡ total cli fd p
      by_slot none at = let never = rw (refresh_slot, at) at e in cc
      by_slot (some none) at =
          let same : p ≡ q = ok_same (rw (refresh_slot, at) at e) in ap (total cli fd) (sym same)
      by_slot (some (some c)) at =
          let c' : C = (cli.on_new_block c env.now).0 in
          let p' : ClientPool C = record p { clients = set p.clients idx (some c') } in
          let stays = kept_total p idx c c' at (laws.on_block c env.now) in
          elim (Bool-cases (cli.on_new_block c env.now).1) [
            | inl keep ↦
                let same : p' ≡ q = ok_same (rw (refresh_slot, at, keep) at e) in
                ap (total cli fd) (sym same) ∙ stays
            | inr drop_it ↦
                remove_client-total env p' q idx (rw (refresh_slot, at, drop_it) at e) ∙ stays
          ]

  pub refresh-total :
      (env : Env) (left idx : ℕ) (p q : ClientPool C)
      → refresh cli pool_size env left idx p ≡ ok q
      → total cli fd q ≡ total cli fd p
  unfolding refresh
  refresh-total env zero idx p q e = let same : p ≡ q = ok_same e in ap (total cli fd) (sym same)
  refresh-total env (suc left) idx p q e =
      let (p', first, rest) =
        bind_ok (refresh_slot cli pool_size env p idx) (refresh cli pool_size env left (idx + 1)) q
          e in
      refresh-total env left (idx + 1) p' q rest ∙ refresh_slot-total env p p' idx first

  pub on_read-total :
      (env : Env) (p q : ClientPool C) (idx : ℕ)
      → on_read cli pool_size env p idx ≡ ok q
      → total cli fd q ≡ total cli fd p
  unfolding on_read
  on_read-total env p q idx e = by_slot (get_elem? p.clients idx) refl
    where
      by_slot :
          (slot : Option (Option C))
          → get_elem? p.clients idx ≡ slot
          → total cli fd q ≡ total cli fd p
      by_slot none at = let never = rw (on_read, at) at e in cc
      by_slot (some none) at = let never = rw (on_read, at) at e in cc
      by_slot (some (some c)) at =
          let c' : C = (cli.on_socket_read c).0 in
          let p' : ClientPool C = record p { clients = set p.clients idx (some c') } in
          let stays = kept_total p idx c c' at (laws.on_read c) in
          elim (Bool-cases (cli.on_socket_read c).1) [
            | inl keep ↦
                let same : p' ≡ q = ok_same (rw (on_read, at, keep) at e) in
                ap (total cli fd) (sym same) ∙ stays
            | inr drop_it ↦
                remove_client-total env p' q idx (rw (on_read, at, drop_it) at e) ∙ stays
          ]

  pub handle_event-total :
      (envs : ℕ → Env) (p q : ClientPool C) (idx : ℕ) (readable : Bool)
      → handle_event cli pool_size envs p (on_slot idx readable) ≡ ok q
      → total cli fd q ≡ total cli fd p
  unfolding handle_event
  handle_event-total envs p q idx true e = on_read-total (envs 0) p q idx e
  handle_event-total envs p q idx false e = remove_client-total (envs 0) p q idx e
