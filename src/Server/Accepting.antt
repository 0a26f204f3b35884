-- ===== src/Server/Accepting.antt =====
-- server.cpp, listen_main: which connections it serves, and when it ends.
use epic_poold.Base.{
  ℕ, zero, suc, ◌+◌, ◌%◌, ◌^◌, ◌≤◌, ◌≡◌, ◌⊎◌, refl, sym, ◌∙◌, inl, inr, Bool, true, false, List, [],
  ◌∷◌, ◌++◌, arith, ltb, append-nil, append_assoc,
}
use epic_poold.Server.{PoolOps, place_socket}
use epic_poold.Server.Listen.{
  Accepted, failed, connected, Listener, Loop, waits, asserted, abort_socket, counted, listen_one,
  listen_main,
}

-- The answers begin with n errors.
abbrev pub Failures : ℕ → List Accepted → Type 0
Failures zero answers = Unit
Failures (suc n) (failed err ∷ answers) = Failures n answers
Failures (suc n) _ = ⊥

-- Somewhere there are five errors in a row.
abbrev pub Burst : List Accepted → Type 0
Burst [] = ⊥
Burst (answer ∷ answers) = Failures 5 (answer ∷ answers) ⊎ Burst answers

fewer : (n m : ℕ) (answers : List Accepted) → n ≤ m → Failures m answers → Failures n answers
fewer zero m answers le all = tt
fewer (suc n) zero answers le all = absurd (omega arith)
fewer (suc n) (suc m) (failed err ∷ answers) le all = fewer n m answers (omega arith) all
fewer (suc n) (suc m) (connected sck ip port keepalive nodelay ∷ answers) le all = absurd all
fewer (suc n) (suc m) [] le all = absurd all

begins-Burst : (answers : List Accepted) → Failures 5 answers → Burst answers
begins-Burst [] five = five
begins-Burst (answer ∷ answers) five = inl five

-- The sockets whose options could not be set.
abbrev pub unusable : List Accepted → List ℕ
unusable [] = []
unusable (failed err ∷ answers) = unusable answers
unusable (connected sck ip port true true ∷ answers) = unusable answers
unusable (connected sck ip port _ _ ∷ answers) = sck ∷ unusable answers

module _ {P : Type 0} (ops : PoolOps P) where
  -- The other sockets are placed, in order.
  abbrev pub placed : List Accepted → List P → List P
  placed [] pools = pools
  placed (failed err ∷ answers) pools = placed answers pools
  placed (connected sck ip port true true ∷ answers) pools =
      placed answers (place_socket ops pools sck ip port)
  placed (connected sck ip port _ _ ∷ answers) pools = placed answers pools

  abbrev pub Serves : List Accepted → Listener P → Loop P → Type 0
  Serves answers l r =
      (l' : Listener P) × (r ≡ waits l')
      × (l'.pools ≡ placed answers l.pools)
      × (l'.aborted ≡ l.aborted ++ unusable answers)

  -- The end of the loop when it stands n errors before the last.
  abbrev Follows : ℕ → List Accepted → Listener P → Type 0
  Follows n answers l =
      (((l' : Listener P) × (listen_main ops answers l ≡ asserted l'))
        × (Failures n answers ⊎ Burst answers))
      ⊎ (Serves answers l (listen_main ops answers l) × ¬ Failures n answers × ¬ Burst answers)

  counted_below : (n errs : ℕ) → errs + suc (suc n) ≡ 5 → ltb ((errs + 1) % 2 ^ 32) 5 ≡ true
  counted_below n errs e = ground arith

  counted_full : (errs : ℕ) → errs + 1 ≡ 5 → ltb ((errs + 1) % 2 ^ 32) 5 ≡ false
  counted_full errs e = ground arith

  one_error :
      (err n : ℕ) (answers : List Accepted) (l : Listener P)
      → l.errs + suc (suc n) ≡ 5
      → Follows (suc n) answers (counted ops l)
      → Follows (suc (suc n)) (failed err ∷ answers) l
  unfolding listen_main
  one_error err n answers l e (inl ((l', ends), inl row)) =
      inl ((l', rw (listen_main, listen_one, counted_below n l.errs e) ends), inl row)
  one_error err n answers l e (inl ((l', ends), inr burst)) =
      inl ((l', rw (listen_main, listen_one, counted_below n l.errs e) ends), inr (inr burst))
  one_error err n answers l e (inr ((l', waits_on, pools, aborted), few, none_yet)) = inr (
    (l', rw (listen_main, listen_one, counted_below n l.errs e) waits_on, pools, aborted),
    few,
    λ burst. elim burst [
      | inl five ↦ few (fewer (suc n) 4 answers (omega arith) five)
      | inr later ↦ none_yet later
    ],
  )

  last_error :
      (err : ℕ) (answers : List Accepted) (l : Listener P)
      → l.errs + 1 ≡ 5
      → Follows 1 (failed err ∷ answers) l
  unfolding listen_main
  last_error err answers l e =
      inl ((counted ops l, rw (listen_main, listen_one, counted_full l.errs e) refl), inl tt)

  -- A connection resets the count.
  one_connection :
      (n sck ip port : ℕ) (keepalive nodelay : Bool) (answers : List Accepted) (l l' : Listener P)
      → listen_one ops (connected sck ip port keepalive nodelay) l ≡ waits l'
      → (placed answers l'.pools
          ≡ placed (connected sck ip port keepalive nodelay ∷ answers) l.pools)
      → (l'.aborted ++ unusable answers
          ≡ l.aborted ++ unusable (connected sck ip port keepalive nodelay ∷ answers))
      → Follows 5 answers l'
      → Follows (suc n) (connected sck ip port keepalive nodelay ∷ answers) l
  unfolding listen_main
  one_connection n sck ip port keepalive nodelay answers l l' round pools aborted
        (inl ((m, ends), row)) =
      inl (
        (m, rw (listen_main, round) ends),
        inr (inr (elim row [ inl five ↦ begins-Burst answers five | inr burst ↦ burst ])),
      )
  one_connection n sck ip port keepalive nodelay answers l l' round pools aborted
        (inr ((m, on, p, a), few, none_yet)) =
      inr (
        (m, rw (listen_main, round) on, p ∙ pools, a ∙ aborted),
        (λ never. never),
        λ burst. elim burst [ inl five ↦ five | inr later ↦ none_yet later ],
      )

  follows :
      (n : ℕ) (answers : List Accepted) (l : Listener P)
      → l.errs + suc n ≡ 5
      → Follows (suc n) answers l
  unfolding listen_main
  follows n [] l e =
      inr ((l, refl, refl, sym (append-nil l.aborted)), (λ never. never), (λ never. never))
  follows zero (failed err ∷ answers) l e = last_error err answers l e
  follows (suc n) (failed err ∷ answers) l e =
      one_error err n answers l e (follows n answers (counted ops l) (omega arith))
  follows n (connected sck ip port true true ∷ answers) l e =
      let l' : Listener P = record l { errs = 0; pools = place_socket ops l.pools sck ip port } in
      one_connection n sck ip port true true answers l l' refl refl refl (follows 4 answers l' refl)
  follows n (connected sck ip port true false ∷ answers) l e =
      let l' : Listener P = abort_socket ops sck (record l { errs = 0 }) in
      one_connection n sck ip port true false answers l l' refl refl
        (append_assoc l.aborted (sck ∷ []) (unusable answers)) (follows 4 answers l' refl)
  follows n (connected sck ip port false nodelay ∷ answers) l e =
      let l' : Listener P = abort_socket ops sck (record l { errs = 0 }) in
      one_connection n sck ip port false nodelay answers l l' refl refl
        (append_assoc l.aborted (sck ∷ []) (unusable answers)) (follows 4 answers l' refl)

  -- The listening loop, from its start: if five answers in a row are errors, its assertion fails; otherwise
  -- it waits for more, has placed exactly the sockets whose two options could be set, in order, and has
  -- aborted exactly the others.
  pub listen_main-Serves :
      (answers : List Accepted) (pools : List P)
      → let l : Listener P = record { pools = pools; errs = 0; aborted = [] } in
        (((l' : Listener P) × (listen_main ops answers l ≡ asserted l')) × Burst answers)
        ⊎ (Serves answers l (listen_main ops answers l) × ¬ Burst answers)
  listen_main-Serves answers pools =
      elim (follows 4 answers (record { pools = pools; errs = 0; aborted = [] }) refl) [
        | inl (ends, row) ↦
            inl (ends, elim row [ inl five ↦ begins-Burst answers five | inr burst ↦ burst ])
        | inr (on, few, none_yet) ↦ inr (on, none_yet)
      ]
