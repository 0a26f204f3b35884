-- ===== src/Client/Stream.antt =====
-- What on_socket_read in client.cpp makes of a stream, however the reads cut it.
use epic_poold.Base.{
  ℕ, zero, suc, ◌<◌, ◌≡◌, refl, sym, ◌∙◌, ap, inl, inr, Bool, true, false, Option, none, some, List,
  [], ◌∷◌, ◌++◌, arith, ◌==◌, length, append-nil, append_assoc, Bool-cases,
}
use epic_poold.Client.Reader.{Session, Fed, kept, dropped, split_line, serve_lines}

-- The ways in which a buffer with a first byte splits.
pub data Splits (c : ℕ) (buf : List ℕ) : Option (List ℕ × List ℕ) → Type 0 where
  ends : (c == 10) ≡ true → Splits c buf (some (c ∷ [], buf))
  open_end : (c == 10) ≡ false → split_line buf ≡ none → Splits c buf none
  later :
      (c == 10) ≡ false
      → (line rest : List ℕ) → split_line buf ≡ some (line, rest)
      → Splits c buf (some (c ∷ line, rest))

pub splits : (c : ℕ) (buf : List ℕ) → Splits c buf (split_line (c ∷ buf))
unfolding split_line
splits c buf = elim (Bool-cases (c == 10)) [
  | inl end ↦ rw end (ends end)
  | inr on ↦ by_rest (split_line buf) refl on
]
  where
    by_rest :
        (o : Option (List ℕ × List ℕ))
        → split_line buf ≡ o
        → (c == 10) ≡ false
        → Splits c buf (split_line (c ∷ buf))
    by_rest none h on = rw (on, h) (open_end on h)
    by_rest (some (line, rest)) h on = rw (on, h) (later on line rest h)

module _ {S : Type 0} (cli : Session S) where
  -- The bytes one by one, behind a line that has begun.
  unfoldable pub feed : S → List ℕ → List ℕ → Fed S
  feed s part [] = kept s part
  feed s part (c ∷ rest) = elim (c == 10) [
    | false ↦ feed s (part ++ c ∷ []) rest
    | true ↦ elim (cli.process_line s (part ++ c ∷ [])).1 [
      | true ↦ feed (cli.process_line s (part ++ c ∷ [])).0 [] rest
      | false ↦ dropped (cli.hard_abort (cli.process_line s (part ++ c ∷ [])).0)
    ]
  ]

  -- What follows a line that was processed.
  unfoldable pub after : S × Bool → List ℕ → Fed S
  unfolding feed
  after (s, true) rest = feed s [] rest
  after (s, false) rest = dropped (cli.hard_abort s)

  after-pair :
      (r : S × Bool) (rest : List ℕ)
      → elim r.1 [ true ↦ feed r.0 [] rest | false ↦ dropped (cli.hard_abort r.0) ] ≡ after r rest
  unfolding after
  after-pair (s, true) rest = refl
  after-pair (s, false) rest = refl

  pub feed-ends :
      (s : S) (part : List ℕ) (c : ℕ) (rest : List ℕ)
      → (c == 10) ≡ true
      → feed s part (c ∷ rest) ≡ after (cli.process_line s (part ++ c ∷ [])) rest
  unfolding feed
  feed-ends s part c rest e = rw (feed, e) (after-pair (cli.process_line s (part ++ c ∷ [])) rest)

  pub feed-goes_on :
      (s : S) (part : List ℕ) (c : ℕ) (rest : List ℕ)
      → (c == 10) ≡ false
      → feed s part (c ∷ rest) ≡ feed s (part ++ c ∷ []) rest
  unfolding feed
  feed-goes_on s part c rest e = rw (feed, e) refl

  unfoldable pub then_feed : Fed S → List ℕ → Fed S
  then_feed (kept s part) more = feed s part more
  then_feed (dropped s) more = dropped s

  after-append :
      (r : S × Bool) (front back : List ℕ)
      → ((s : S) → feed s [] (front ++ back) ≡ then_feed (feed s [] front) back)
      → after r (front ++ back) ≡ then_feed (after r front) back
  unfolding after then_feed
  after-append (s, true) front back ih = ih s
  after-append (s, false) front back ih = refl

  pub feed-append :
      (s : S) (part front back : List ℕ)
      → feed s part (front ++ back) ≡ then_feed (feed s part front) back
  unfolding then_feed feed
  feed-append s part [] back = refl
  feed-append s part (c ∷ front) back = elim (Bool-cases (c == 10)) [
    | inl end ↦
        feed-ends s part c (front ++ back) end
        ∙ after-append (cli.process_line s (part ++ c ∷ [])) front back
            (λ s'. feed-append s' [] front back)
        ∙ ap (λ r. then_feed r back) (sym (feed-ends s part c front end))
    | inr on ↦
        feed-goes_on s part c (front ++ back) on
        ∙ feed-append s (part ++ c ∷ []) front back
        ∙ ap (λ r. then_feed r back) (sym (feed-goes_on s part c front on))
  ]

  abbrev pub Split : Fed S → S → List ℕ → List ℕ → Option (List ℕ × List ℕ) → Type 0
  Split r s part buf none = r ≡ kept s (part ++ buf)
  Split r s part buf (some (line, rest)) =
      (r ≡ after (cli.process_line s (part ++ line)) rest) × (length rest < length buf)

  join :
      (s : S) (part : List ℕ) (c : ℕ) (buf : List ℕ) {o : Option (List ℕ × List ℕ)}
      → Splits c buf o
      → Split (feed s (part ++ c ∷ []) buf) s (part ++ c ∷ []) buf (split_line buf)
      → Split (feed s part (c ∷ buf)) s part (c ∷ buf) o
  join s part c buf (ends end) ih = (feed-ends s part c buf end, omega arith)
  join s part c buf (open_end on h) ih =
      feed-goes_on s part c buf on ∙ rw h at ih ∙ ap (kept s) (append_assoc part (c ∷ []) buf)
  join s part c buf (later on line rest h) ih =
      let (fed, shorter) = rw h at ih in
      (
        feed-goes_on s part c buf on
            ∙ fed
            ∙ ap (λ l. after (cli.process_line s l) rest) (append_assoc part (c ∷ []) line),
        omega (arith, shorter),
      )

  -- A buffer is fed up to its first newline.
  pub feed-Split : (s : S) (part buf : List ℕ) → Split (feed s part buf) s part buf (split_line buf)
  unfolding split_line feed
  feed-Split s part [] = ap (kept s) (sym (append-nil part))
  feed-Split s part (c ∷ buf) = join s part c buf (splits c buf) (feed-Split s (part ++ c ∷ []) buf)

  -- An open line in the buffer is as if it arrived again.
  pub feed-open :
      (s : S) (part buf : List ℕ)
      → split_line part ≡ none
      → feed s [] (part ++ buf) ≡ feed s part buf
  unfolding then_feed
  feed-open s part buf open_part =
      let whole : feed s [] part ≡ kept s part = rw open_part at (feed-Split s [] part) in
      feed-append s [] part buf ∙ ap (λ r. then_feed r buf) whole

  -- Enough fuel for the inner loop is more than the length of the buffer.
  pub serve_lines-feed :
      (fuel : ℕ) (s : S) (buf : List ℕ)
      → length buf < fuel
      → serve_lines cli fuel s buf ≡ some (feed s [] buf)
  unfolding serve_lines after
  serve_lines-feed zero s buf enough = absurd (omega arith)
  serve_lines-feed (suc fuel) s buf enough =
      by_split (split_line buf) refl (feed-Split s [] buf)
        (λ s' rest h. serve_lines-feed fuel s' rest h)
    where
      by_line :
          (r : S × Bool) (rest : List ℕ)
          → length rest < fuel
          → ((s' : S) (rest : List ℕ)
              → length rest < fuel
              → serve_lines cli fuel s' rest ≡ some (feed s' [] rest))
          → elim r.1 [
            | true ↦ serve_lines cli fuel r.0 rest
            | false ↦ some (dropped (cli.hard_abort r.0))
          ]
            ≡ some (after r rest)
      by_line (s', true) rest h ih = ih s' rest h
      by_line (s', false) rest h ih = refl

      by_split :
          (o : Option (List ℕ × List ℕ))
          → split_line buf ≡ o
          → Split (feed s [] buf) s [] buf (split_line buf)
          → ((s' : S) (rest : List ℕ)
              → length rest < fuel
              → serve_lines cli fuel s' rest ≡ some (feed s' [] rest))
          → serve_lines cli (suc fuel) s buf ≡ some (feed s [] buf)
      by_split none h split ih = rw (serve_lines, h) (ap some (sym (rw h at split)))
      by_split (some (line, rest)) h split ih =
          let (fed, shorter) = rw h at split in
          rw (serve_lines, h, fed)
            (by_line (cli.process_line s line) rest (omega (arith, shorter)) ih)
