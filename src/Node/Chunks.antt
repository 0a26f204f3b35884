-- ===== src/Node/Chunks.antt =====
-- node.cpp, recv_main: the bytes of the node, in whatever pieces they arrive.
use epic_poold.Base.{
  ℕ, suc, ◌+◌, ◌^◌, ◌<◌, ◌≤◌, ◌⊎◌, append-nil, Option, true, ◌≡◌, refl, sym, ap, ◌∙◌, inl, inr,
  false, none, some, List, [], ◌∷◌, ◌++◌, arith, ◌==◌, leb, if◌then◌else◌, length, Bool-cases,
  length-append, map,
}
use epic_poold.Client.Reader.{Session, Fed, kept, dropped, split_line}
use epic_poold.Client.Stream.{
  feed, after, then_feed, feed-append, feed-open, serve_lines-feed, feed-goes_on, feed-ends,
}
use epic_poold.Client.Arrival.{open_snoc}
use epic_poold.Rpc.{Try, ok, thrown, fault, JsonValues, get_uint}
use epic_poold.Node.{Node, Services, data_buffer_len}
use epic_poold.Node.Template.{Answer, incomplete, taken, failed}
use epic_poold.Node.Message.{json_proc_msg}
use epic_poold.Node.Receive.{
  Arrival, Ending, waiting, returned, exited, faulted, received, on_bytes, on_arrival, if_waiting,
  receive,
}
use epic_poold.Node.Stream.{
  Link, running, given_up, broken, judged, session, ending_of, outcome, serve_messages-lines,
}

-- What stands behind the last newline.
abbrev pub open_tail : List ℕ → List ℕ → List ℕ
open_tail part [] = part
open_tail part (c ∷ buf) =
    let fresh = open_tail [] buf in
    let longer = open_tail (part ++ c ∷ []) buf in if c == 10 then fresh else longer

open_tail-open :
    (part buf : List ℕ) → split_line part ≡ none → split_line (open_tail part buf) ≡ none
unfolding split_line
open_tail-open part [] open_part = open_part
open_tail-open part (c ∷ buf) open_part = elim (Bool-cases (c == 10)) [
  | inl end ↦ rw end (open_tail-open [] buf refl)
  | inr on ↦ rw on (open_tail-open (part ++ c ∷ []) buf (open_snoc part c open_part on))
]

-- Each piece has a byte and leaves room in the buffer, behind the message that is open.
abbrev pub Fits : List ℕ → List (List ℕ) → Type 0
Fits part [] = Unit
Fits part (chunk ∷ more) =
    (0 < length chunk)
    × (length part + length chunk < data_buffer_len)
    × Fits (open_tail part chunk) more

abbrev pub joined : List (List ℕ) → List ℕ
joined [] = []
joined (chunk ∷ more) = chunk ++ joined more

map-append :
    (front back : List (List ℕ))
    → map received (front ++ back) ≡ map received front ++ map received back
map-append [] back = refl
map-append (chunk ∷ front) back = ap (λ l. received chunk ∷ l) (map-append front back)

open_tail-append :
    (part buf more : List ℕ) → open_tail part (buf ++ more) ≡ open_tail (open_tail part buf) more
open_tail-append part [] more = refl
open_tail-append part (c ∷ buf) more = elim (Bool-cases (c == 10)) [
  | inl end ↦ rw end (open_tail-append [] buf more)
  | inr on ↦ rw on (open_tail-append (part ++ c ∷ []) buf more)
]

-- The first piece that the node does not take: the end of the stream, or one that fills the buffer.
pub record Cut (part : List ℕ) (chunks : List (List ℕ)) : Type 0 where
  pub front : List (List ℕ)
  pub chunk : List ℕ
  pub back : List (List ℕ)
  pub split : chunks ≡ front ++ chunk ∷ back
  pub fits : Fits part front
  pub over :
      (length chunk ≡ 0) ⊎ (data_buffer_len ≤ length (open_tail part (joined front)) + length chunk)

behind_chunk :
    (part chunk : List ℕ) (more : List (List ℕ))
    → 0 < length chunk
    → length part + length chunk < data_buffer_len
    → Cut (open_tail part chunk) more
    → Cut part (chunk ∷ more)
behind_chunk part chunk more positive room cut = record {
  front = chunk ∷ cut.front;
  chunk = cut.chunk;
  back = cut.back;
  split = ap (λ l. chunk ∷ l) cut.split;
  fits = (positive, room, cut.fits);
  over = rw (open_tail-append part chunk (joined cut.front)) cut.over;
}

cuts : (part : List ℕ) (chunks : List (List ℕ)) → Fits part chunks ⊎ Cut part chunks
cuts part [] = inl tt
cuts part (chunk ∷ more) = elim (Bool-cases (length chunk == 0)) [
  | inl end ↦ inr (record {
    front = [];
    chunk = chunk;
    back = more;
    split = refl;
    fits = tt;
    over = inl (ground arith);
  })
  | inr positive ↦ elim (Bool-cases (leb data_buffer_len (length part + length chunk))) [
    | inl full ↦ inr (record {
      front = [];
      chunk = chunk;
      back = more;
      split = refl;
      fits = tt;
      over = inr (ground arith);
    })
    | inr room ↦ elim (cuts (open_tail part chunk) more) [
      | inl fits ↦ inl (ground arith, ground arith, fits)
      | inr cut ↦ inr (behind_chunk part chunk more (ground arith) (ground arith) cut)
    ]
  ]
]

module _ {E V : Type 0} (services : Services E) (json : JsonValues V) (garbage : Node E → ℕ) where
  abbrev link : Session (Link E)
  link = session services json garbage

  -- What feeding may end in: a node that goes on with this open message, or one that has stopped.
  abbrev Proper : List ℕ → Fed (Link E) → Type 0
  Proper tail (kept (running n) part) = part ≡ tail
  Proper tail (dropped (given_up n)) = Unit
  Proper tail (dropped (broken n)) = Unit
  Proper tail _ = ⊥

  after-Proper :
      (tail rest : List ℕ) (r : Try Answer × Node E)
      → ((n : Node E) → Proper tail (feed link (running n) [] rest))
      → Proper tail (after link (judged services json garbage r) rest)
  unfolding after
  after-Proper tail rest (ok (taken retlen), n) ih = ih n
  after-Proper tail rest (ok incomplete, n) ih = tt
  after-Proper tail rest (ok failed, n) ih = tt
  after-Proper tail rest (thrown, n) ih = tt
  after-Proper tail rest (fault, n) ih = tt

  feed-Proper :
      (n : Node E) (part buf : List ℕ)
      → Proper (open_tail part buf) (feed link (running n) part buf)
  unfolding feed
  feed-Proper n part [] = refl
  feed-Proper n part (c ∷ buf) = elim (Bool-cases (c == 10)) [
    | inl end ↦
        rw (end, feed-ends link (running n) part c buf end)
          (after-Proper (open_tail [] buf) buf
            (json_proc_msg services json (garbage n) (part ++ c ∷ []) n)
            (λ n'. feed-Proper n' [] buf))
    | inr on ↦
        rw (on, feed-goes_on link (running n) part c buf on) (feed-Proper n (part ++ c ∷ []) buf)
  ]

  -- The end of a connection that is not kept.
  abbrev pub closed_after : Fed (Link E) → Ending E
  closed_after (kept (running n) part) = returned n
  closed_after fed = ending_of services json garbage fed

  module _ (uint_small : (v : V) (k : ℕ) → get_uint json v ≡ ok k → k < 2 ^ 32)
      (fatal template : ℕ) where
    arrived :
        (n : Node E) (part chunk : List ℕ)
        → split_line part ≡ none
        → 0 < length chunk
        → length part + length chunk < data_buffer_len
        → on_arrival services json garbage fatal template n part (received chunk)
          ≡ some (ending_of services json garbage (feed link (running n) part chunk))
    unfolding on_arrival on_bytes
    arrived n part chunk open_part positive room =
        let some_bytes : (length chunk == 0) ≡ false = ground arith in
        let fits : leb data_buffer_len (length (part ++ chunk)) ≡ false =
          ground (arith, length-append part chunk) in
        rw (some_bytes, fits)
          (serve_messages-lines services json garbage uint_small (suc (length (part ++ chunk))) n
              (part ++ chunk)
            ∙ ap (outcome services json garbage) (
                serve_lines-feed link (suc (length (part ++ chunk))) (running n) (part ++ chunk)
                  (omega arith)
                ∙ ap some (feed-open link (running n) part chunk open_part)))

    abbrev goes_on : List Arrival → Node E → List ℕ → Option (Ending E)
    goes_on arrivals n rest = receive services json garbage fatal template n rest arrivals

    -- Pieces that fit, whatever arrives behind them.
    receive-front :
        (n : Node E) (part : List ℕ) (chunks : List (List ℕ)) (arrivals : List Arrival)
        → split_line part ≡ none
        → Fits part chunks
        → receive services json garbage fatal template n part (map received chunks ++ arrivals)
          ≡ if_waiting services json garbage
              (goes_on arrivals)
              (some (ending_of services json garbage (feed link (running n) part (joined chunks))))
    unfolding receive feed then_feed
    receive-front n part [] arrivals open_part fits = refl
    receive-front n part (chunk ∷ more) arrivals open_part (positive, room, fits) =
        ap (if_waiting services json garbage (goes_on (map received more ++ arrivals)))
          (arrived n part chunk open_part positive room)
        ∙ by_fed (feed link (running n) part chunk) (feed-Proper n part chunk)
            (open_tail-open part chunk open_part)
            (λ n' rest e. receive-front n' rest more arrivals e)
        ∙ ap
            (λ r.
              if_waiting services json garbage (goes_on arrivals)
                (some (ending_of services json garbage r)))
            (sym (feed-append link (running n) part chunk (joined more)))
      where
        by_fed :
            (r : Fed (Link E))
            → Proper (open_tail part chunk) r
            → split_line (open_tail part chunk) ≡ none
            → ((n' : Node E) (rest : List ℕ)
                → split_line rest ≡ none
                → Fits rest more
                → receive services json garbage fatal template n' rest
                    (map received more ++ arrivals)
                  ≡ if_waiting services json garbage (goes_on arrivals) (
                      some (
                        ending_of services json garbage
                          (feed link (running n') rest (joined more)))))
            → if_waiting services json garbage
                (goes_on (map received more ++ arrivals))
                (some (ending_of services json garbage r))
              ≡ if_waiting services json garbage
                  (goes_on arrivals)
                  (some (ending_of services json garbage (then_feed link r (joined more))))
        by_fed (kept (running n') rest) e open_rest ih = ih n' rest (rw e open_rest) (rw e fits)
        by_fed (kept (given_up n') rest) e open_rest ih = absurd e
        by_fed (kept (broken n') rest) e open_rest ih = absurd e
        by_fed (dropped (running n')) e open_rest ih = absurd e
        by_fed (dropped (given_up n')) e open_rest ih = refl
        by_fed (dropped (broken n')) e open_rest ih = refl

    -- At the end of what arrives the node waits.
    waits : (r : Ending E) → if_waiting services json garbage (goes_on []) (some r) ≡ some r
    unfolding receive
    waits (waiting n buf) = refl
    waits (returned n) = refl
    waits (exited n) = refl
    waits (faulted n) = refl

    -- A piece that is not taken.
    refused :
        (n : Node E) (rest chunk : List ℕ) (more : List Arrival)
        → (length chunk ≡ 0) ⊎ (data_buffer_len ≤ length rest + length chunk)
        → receive services json garbage fatal template n rest (received chunk ∷ more)
          ≡ some (returned n)
    unfolding receive on_arrival on_bytes
    refused n rest chunk more (inl end) = rw end refl
    refused n rest chunk more (inr over) = elim (Bool-cases (length chunk == 0)) [
      | inl end ↦ rw end refl
      | inr some_bytes ↦
          let full : leb data_buffer_len (length (rest ++ chunk)) ≡ true =
            ground (arith, length-append rest chunk) in
          rw (some_bytes, full) refl
    ]

    ends_at :
        (part chunk : List ℕ) (front : List (List ℕ)) (more : List Arrival) (r : Fed (Link E))
        → Proper (open_tail part (joined front)) r
        → (length chunk ≡ 0)
          ⊎ (data_buffer_len ≤ length (open_tail part (joined front)) + length chunk)
        → if_waiting services json garbage
            (goes_on (received chunk ∷ more))
            (some (ending_of services json garbage r))
          ≡ some (closed_after r)
    ends_at part chunk front more (kept (running n') rest) e over =
        refused n' rest chunk more (rw e over)
    ends_at part chunk front more (kept (given_up n') rest) e over = absurd e
    ends_at part chunk front more (kept (broken n') rest) e over = absurd e
    ends_at part chunk front more (dropped (running n')) e over = absurd e
    ends_at part chunk front more (dropped (given_up n')) e over = refl
    ends_at part chunk front more (dropped (broken n')) e over = refl

    -- Whatever the pieces are in which the bytes of the node arrive, with no timeout in between, the node
    -- handles exactly the whole messages of the stream, each once and in order, up to the first that fails,
    -- and it keeps the message that is still open; or there is a first piece that is empty, or that fills the
    -- buffer behind the open message: then it has handled exactly the whole messages before this piece,
    -- and gives up the connection, with every message that begins or ends in the piece. The buffer begins with an
    -- open message. The numbers that the parser calls 32-bit are.
    pub receive-feed :
        (n : Node E) (part : List ℕ) (chunks : List (List ℕ))
        → split_line part ≡ none
        → (Fits part chunks
            × (receive services json garbage fatal template n part (map received chunks)
                ≡ some
                    (ending_of services json garbage (feed link (running n) part (joined chunks)))))
          ⊎ ((cut : Cut part chunks) × (receive services json garbage fatal template n part
                  (map received chunks)
                ≡ some (closed_after (feed link (running n) part (joined cut.front)))))
    receive-feed n part chunks open_part = elim (cuts part chunks) [
      | inl fits ↦ inl (
        fits,
        ap (receive services json garbage fatal template n part)
              (sym (append-nil (map received chunks)))
            ∙ receive-front n part chunks [] open_part fits
            ∙ waits (ending_of services json garbage (feed link (running n) part (joined chunks))),
      )
      | inr cut ↦ inr (
        cut,
        ap (receive services json garbage fatal template n part)
              (ap (map received) cut.split ∙ map-append cut.front (cut.chunk ∷ cut.back))
            ∙ receive-front n part cut.front (received cut.chunk ∷ map received cut.back) open_part
                cut.fits
            ∙ ends_at part cut.chunk cut.front (map received cut.back) _
                (feed-Proper n part (joined cut.front)) cut.over,
      )
    ]
