-- ===== src/Client/Arrival.antt =====
-- on_socket_read in client.cpp: the outcome does not depend on how the stream arrives.
use epic_poold.Base.{
  ◌⊎◌, append_assoc, ℕ, zero, suc, ◌+◌, ◌≤◌, ◌<◌, ◌≡◌, refl, sym, ◌∙◌, ap, inl, inr, Bool, true,
  false, Option, none, some, List, [], ◌∷◌, ◌++◌, arith, leb, ◌==◌, if◌then◌else◌, length, take,
  drop, Bool-cases, length-append, length-take, length-drop, take-append-drop,
}
use epic_poold.Client.Reader.{
  Session, Fed, kept, dropped, sock_buf_size, split_line, serve_lines, received, read_lines,
  on_socket_read,
}
use epic_poold.Client.Stream.{
  Splits, ends, open_end, later, splits, feed, after, feed-ends, feed-goes_on, then_feed,
  feed-append, serve_lines-feed, feed-open,
}

open_cons :
    (c : ℕ) (buf : List ℕ)
    → split_line (c ∷ buf) ≡ none
    → ((c == 10) ≡ false) × (split_line buf ≡ none)
open_cons c buf e = by_way (splits c buf) e
  where
    by_way :
        {o : Option (List ℕ × List ℕ)}
        → Splits c buf o
        → o ≡ none
        → ((c == 10) ≡ false) × (split_line buf ≡ none)
    by_way (ends end) none_left = absurd cc
    by_way (open_end on h) none_left = (on, h)
    by_way (later on line rest h) none_left = absurd cc

pub open_snoc :
    (buf : List ℕ) (c : ℕ)
    → split_line buf ≡ none
    → (c == 10) ≡ false
    → split_line (buf ++ c ∷ []) ≡ none
unfolding split_line
open_snoc [] c open_buf on = rw on refl
open_snoc (d ∷ buf) c open_buf on =
    let (other, open_rest) = open_cons d buf open_buf in
    rw (other, open_snoc buf c open_rest on) refl

module _ {S : Type 0} (cli : Session S) where
  -- What is left is an open line of at most n bytes.
  abbrev Sound : ℕ → Fed S → Type 0
  Sound n (kept s part) = (split_line part ≡ none) × (length part ≤ n)
  Sound n (dropped s) = Unit

  Sound-mono : (m n : ℕ) (r : Fed S) → m ≤ n → Sound m r → Sound n r
  Sound-mono m n (kept s part) low (open_part, short) = (open_part, omega (arith, short))
  Sound-mono m n (dropped s) low sound = tt

  after-Sound :
      (n : ℕ) (r : S × Bool) (rest : List ℕ)
      → ((s : S) → Sound n (feed cli s [] rest))
      → Sound n (after cli r rest)
  unfolding after
  after-Sound n (s, true) rest ih = ih s
  after-Sound n (s, false) rest ih = tt

  feed-Sound :
      (s : S) (part buf : List ℕ)
      → split_line part ≡ none
      → Sound (length part + length buf) (feed cli s part buf)
  unfolding feed split_line
  feed-Sound s part [] open_part = (open_part, omega arith)
  feed-Sound s part (c ∷ buf) open_part = elim (Bool-cases (c == 10)) [
    | inl end ↦ rw (feed-ends cli s part c buf end) (
        after-Sound (length part + suc (length buf)) (cli.process_line s (part ++ c ∷ [])) buf
          (λ s'.
            Sound-mono (0 + length buf) (length part + suc (length buf)) (feed cli s' [] buf)
              (omega arith) (feed-Sound s' [] buf refl)))
    | inr on ↦ rw (feed-goes_on cli s part c buf on) (
        Sound-mono (length (part ++ c ∷ []) + length buf) (length part + suc (length buf))
          (feed cli s (part ++ c ∷ []) buf) (omega (arith, length-append part (c ∷ [])))
          (feed-Sound s (part ++ c ∷ []) buf (open_snoc part c open_part on)))
  ]

  -- What the call makes of the outcome: at the end of the stream the client goes, else it stays.
  abbrev pub ending : Bool → Fed S → Fed S
  ending closed (kept s part) = if closed then dropped s else kept s part
  ending closed (dropped s) = dropped s

  -- The call stops behind a front of what has arrived, of which every whole line was processed: since one of
  -- them had the client given up, or since the open line with what follows fills the buffer.
  pub record Stopped (s : S) (part arrived : List ℕ) (r : Option (Fed S)) : Type 0 where
    pub front : List ℕ
    pub back : List ℕ
    pub split : arrived ≡ front ++ back
    pub client : S
    pub open_line : List ℕ
    pub fed : feed cli s part front ≡ kept client open_line
    pub shorter : length open_line ≤ length part + length front
    pub why :
        ((cli.aborting client ≡ true) × (r ≡ some (kept client open_line)))
        ⊎ ((cli.aborting client ≡ false)
            × (sock_buf_size ≤ length open_line + length back)
            × (r ≡ some (dropped (cli.hard_abort client))))

  module _ (wanted : ℕ → ℕ) (closed : Bool) where
    abbrev pub Reads : S → List ℕ → List ℕ → Option (Fed S) → Type 0
    Reads s part arrived r =
        (r ≡ some (ending closed (feed cli s part arrived))) ⊎ Stopped s part arrived r

    abbrev ReadAt : ℕ → S → List ℕ → List ℕ → Type 0
    ReadAt fuel s part arrived =
        length arrived < fuel
        → split_line part ≡ none
        → length part < sock_buf_size
        → Reads s part arrived (read_lines cli fuel wanted closed s part arrived)

    gave_up :
        (fuel : ℕ) (s : S) (part arrived : List ℕ)
        → cli.aborting s ≡ true
        → Reads s part arrived (read_lines cli (suc fuel) wanted closed s part arrived)
    unfolding read_lines feed
    gave_up fuel s part arrived gone = inr (record {
      front = [];
      back = arrived;
      split = refl;
      client = s;
      open_line = part;
      fed = refl;
      shorter = omega arith;
      why = inl (gone, rw (read_lines, gone) refl);
    })

    -- What follows a first read whose lines were served.
    read_before :
        (s s' : S) (part rest first arrived more : List ℕ) (r : Option (Fed S))
        → arrived ≡ first ++ more
        → feed cli s part first ≡ kept s' rest
        → length rest ≤ length part + length first
        → Reads s' rest more r
        → Reads s part arrived r
    unfolding then_feed
    read_before s s' part rest first arrived more r split fed few (inl all) = inl (
        all
        ∙ ap (λ f. some (ending closed f))
            (sym (
              ap (feed cli s part) split
              ∙ feed-append cli s part first more
              ∙ ap (λ f. then_feed cli f more) fed)))
    read_before s s' part rest first arrived more r split fed few (inr stopped) = inr (record {
      front = first ++ stopped.front;
      back = stopped.back;
      split =
          split
          ∙ ap (λ l. first ++ l) stopped.split
          ∙ sym (append_assoc first stopped.front stopped.back);
      client = stopped.client;
      open_line = stopped.open_line;
      fed =
          feed-append cli s part first stopped.front
          ∙ ap (λ f. then_feed cli f stopped.front) fed
          ∙ stopped.fed;
      shorter = omega (arith, few, stopped.shorter, length-append first stopped.front);
      why = stopped.why;
    })

    read_some :
        (fuel : ℕ) (s : S) (part arrived : List ℕ)
        → 0 < length arrived
        → ((s' : S) (part' arrived' : List ℕ) → ReadAt fuel s' part' arrived')
        → cli.aborting s ≡ false
        → ReadAt (suc fuel) s part arrived
    unfolding read_lines then_feed
    read_some fuel s part arrived some_left ih live enough open_part short =
        elim (Bool-cases (leb sock_buf_size (length (part ++ front)))) [
          | inl full ↦ inr (record {
            front = [];
            back = arrived;
            split = refl;
            client = s;
            open_line = part;
            fed = unfold feed in refl;
            shorter = omega arith;
            why = inr (
              live,
              ground (arith, length-append part front, length-take n arrived),
              rw (read_lines, live, positive, full) refl,
            );
          })
          | inr fits ↦
              rw (read_lines, live, positive, fits, lines)
                (by_fed (feed cli s part front) refl (feed-Sound s part front open_part)
                  (ground arith))
        ]
      where
        n : ℕ
        n = received (wanted fuel) part arrived

        front : List ℕ
        front = take n arrived

        size : length front ≡ n
        size = omega (arith, length-take n arrived)

        positive : (n == 0) ≡ false
        positive = ground arith

        lines :
            serve_lines cli (suc (length (part ++ front))) s (part ++ front)
            ≡ some (feed cli s part front)
        lines =
            serve_lines-feed cli (suc (length (part ++ front))) s (part ++ front) (omega arith)
            ∙ ap some (feed-open cli s part front open_part)

        whole : feed cli s part arrived ≡ then_feed cli (feed cli s part front) (drop n arrived)
        whole =
            ap (feed cli s part) (sym (take-append-drop n arrived))
            ∙ feed-append cli s part front (drop n arrived)

        by_fed :
            (r : Fed S)
            → feed cli s part front ≡ r
            → Sound (length part + length front) r
            → length (part ++ front) < sock_buf_size
            → Reads s part arrived (elim (some r) [
              | none ↦ none
              | some (dropped s') ↦ some (dropped s')
              | some (kept s' rest) ↦ read_lines cli fuel wanted closed s' rest (drop n arrived)
            ])
        by_fed (dropped s') e sound roomy = inl (
            sym (
              ap (λ f. some (ending closed f))
                (whole ∙ ap (λ f. then_feed cli f (drop n arrived)) e)))
        by_fed (kept s' rest) e (open_rest, few) roomy =
            read_before s s' part rest front arrived (drop n arrived) _
              (sym (take-append-drop n arrived)) e few
              (ih s' rest (drop n arrived) (ground (arith, length-drop n arrived)) open_rest
                (omega (arith, length-append part front, few)))

    read_none :
        (fuel : ℕ) (s : S) (part : List ℕ) → cli.aborting s ≡ false → ReadAt (suc fuel) s part []
    unfolding read_lines feed
    read_none fuel s part live enough open_part short =
        let nothing : (received (wanted fuel) part [] == 0) ≡ true = ground arith in
        let roomy : leb sock_buf_size (length part) ≡ false = ground arith in
        inl (rw (read_lines, live, nothing, roomy) refl)

    by_client :
        (fuel : ℕ) (s : S) (part arrived : List ℕ)
        → (cli.aborting s ≡ true) ⊎ (cli.aborting s ≡ false)
        → ((s' : S) (part' arrived' : List ℕ) → ReadAt fuel s' part' arrived')
        → ReadAt (suc fuel) s part arrived
    by_client fuel s part arrived (inl gone) ih enough open_part short =
        gave_up fuel s part arrived gone
    by_client fuel s part [] (inr live) ih enough open_part short =
        read_none fuel s part live enough open_part short
    by_client fuel s part (c ∷ arrived) (inr live) ih enough open_part short =
        read_some fuel s part (c ∷ arrived) (omega arith) ih live enough open_part short

    reads : (fuel : ℕ) (s : S) (part arrived : List ℕ) → ReadAt fuel s part arrived
    reads zero s part arrived = λ enough. absurd (omega arith)
    reads (suc fuel) s part arrived =
        by_client fuel s part arrived (Bool-cases (cli.aborting s)) (reads fuel)

    -- Whatever arrives, and whatever the sizes of the reads, a call returns, and processes exactly the whole
    -- lines of the stream, in order and each once, up to the first that the client refuses, and keeps the
    -- line that is still open; or it stops behind a front of the stream, of which it has processed the same:
    -- a client that one of its lines had given up is kept as it is, and one is given up, without a look at
    -- the lines that follow, when these, with the open line, have 4096 bytes or more (so not while all that
    -- arrives fits the buffer). The buffer holds an open line of fewer than 4096 bytes before the call.
    pub on_socket_read-feed :
        (s : S) (part arrived : List ℕ)
        → split_line part ≡ none
        → length part < sock_buf_size
        → Reads s part arrived (on_socket_read cli wanted closed s part arrived)
    unfolding on_socket_read
    on_socket_read-feed s part arrived open_part short =
        reads (suc (length arrived)) s part arrived (omega arith) open_part short
