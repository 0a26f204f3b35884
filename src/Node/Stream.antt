-- ===== src/Node/Stream.antt =====
-- node.cpp, recv_main: the messages that the node is told, however its bytes arrive.
use epic_poold.Base.{
  ℕ, zero, suc, ◌+◌, ◌^◌, ◌<◌, ◌≡◌, refl, ap, ◌∙◌, inl, inr, Bool, true, false, Option, none, some,
  List, [], ◌∷◌, ◌++◌, arith, length, take, drop, c_string,
}
use epic_poold.Client.Reader.{Session, Fed, kept, dropped, split_line, serve_lines}
use epic_poold.Client.Stream.{Splits, ends, open_end, later, splits}
use epic_poold.Rpc.{Try, ok, thrown, fault, JsonValues, get_uint}
use epic_poold.Node.{Node, Services}
use epic_poold.Node.Template.{Answer, incomplete, taken, failed}
use epic_poold.Node.Message.{line_end, json_proc_msg}
use epic_poold.Node.Run.{Ends}
use epic_poold.Node.Handling.{Outcome, json_proc_msg-Ends}
use epic_poold.Node.Invariant.{anything}
use epic_poold.Node.Receive.{Ending, returned, faulted, waiting, after_message, serve_messages}

-- A whole line in front of a buffer, by the place of its newline.
record Fronts (buf line rest : List ℕ) : Type 0 where
  index : ℕ
  found : line_end buf ≡ some index
  found_alone : line_end line ≡ some index
  same_text : take index buf ≡ take index line
  size : length line ≡ suc index
  left : drop (suc index) buf ≡ rest

-- What the place of the newline is to the splitting of a buffer.
abbrev Ended : List ℕ → Option (List ℕ × List ℕ) → Type 0
Ended buf none = line_end buf ≡ none
Ended buf (some (line, rest)) = Fronts buf line rest

ended :
    (c : ℕ) (buf : List ℕ) {o : Option (List ℕ × List ℕ)}
    → Splits c buf o
    → Ended buf (split_line buf)
    → Ended (c ∷ buf) o
unfolding line_end
ended c buf (ends e) h = record {
  index = 0;
  found = rw e refl;
  found_alone = rw e refl;
  same_text = refl;
  size = omega arith;
  left = refl;
}
ended c buf (open_end e none_left) h =
    let h' : line_end buf ≡ none = rw none_left at h in rw (e, h') refl
ended c buf (later e line rest split) h =
    let f : Fronts buf line rest = rw split at h in
    record {
      index = suc f.index;
      found = rw (e, f.found) refl;
      found_alone = rw (e, f.found_alone) refl;
      same_text = ap (λ t. c ∷ t) f.same_text;
      size = omega (arith, f.size);
      left = f.left;
    }

split_line-Ended : (buf : List ℕ) → Ended buf (split_line buf)
unfolding split_line line_end
split_line-Ended [] = refl
split_line-Ended (c ∷ buf) = ended c buf (splits c buf) (split_line-Ended buf)

-- A connection, as a session of lines: the node goes on, or it gives the connection up, or it faults.
pub data Link (E : Type 0) : Type 0 where
  running : Node E → Link E
  given_up : Node E → Link E
  broken : Node E → Link E

module _ {E V : Type 0} (services : Services E) (json : JsonValues V) (garbage : Node E → ℕ) where
  abbrev pub judged : Try Answer × Node E → Link E × Bool
  judged (ok (taken retlen), n) = (running n, true)
  judged (ok failed, n) = (given_up n, false)
  judged (_, n) = (broken n, false)

  -- Each line is a message of its own.
  abbrev pub told : Link E → List ℕ → Link E × Bool
  told (running n) line = judged (json_proc_msg services json (garbage n) line n)
  told link line = (link, false)

  abbrev pub session : Session (Link E)
  session = record { aborting = λ link. false; hard_abort = λ link. link; process_line = told }

  abbrev pub ending_of : Fed (Link E) → Ending E
  ending_of (kept (running n) part) = waiting n part
  ending_of (kept (given_up n) part) = returned n
  ending_of (kept (broken n) part) = faulted n
  ending_of (dropped (running n)) = faulted n
  ending_of (dropped (given_up n)) = returned n
  ending_of (dropped (broken n)) = faulted n

  abbrev pub outcome : Option (Fed (Link E)) → Option (Ending E)
  outcome none = none
  outcome (some fed) = some (ending_of fed)

  -- What a message in front of the buffer does.
  abbrev Answers : ℕ → Try Answer × Node E → Type 0
  Answers size (ok incomplete, n) = ⊥
  Answers size (ok (taken retlen), n) = retlen ≡ size
  Answers size _ = Unit

  message_open :
      (n : Node E) (buf : List ℕ)
      → line_end buf ≡ none
      → json_proc_msg services json (garbage n) buf n ≡ (ok incomplete, n)
  unfolding json_proc_msg
  message_open n buf e = rw (json_proc_msg, e) refl

  message_front :
      (n : Node E) (buf line rest : List ℕ) (f : Fronts buf line rest)
      → json_proc_msg services json (garbage n) buf n
        ≡ json_proc_msg services json (garbage n) line n
  unfolding json_proc_msg
  message_front n buf line rest f = rw (json_proc_msg, f.found, f.found_alone, f.same_text) refl

  module _ (uint_small : (v : V) (k : ℕ) → get_uint json v ≡ ok k → k < 2 ^ 32) where
    message-Answers :
        (n : Node E) (line : List ℕ) (i : ℕ)
        → line_end line ≡ some i
        → Answers (suc i) (json_proc_msg services json (garbage n) line n)
    message-Answers n line i e = by_outcome (json_proc_msg services json (garbage n) line n) (
        json_proc_msg-Ends services json Unit uint_small (garbage n) (i + 1) n line i e refl
          (λ doc call _ _. anything json call))
      where
        by_outcome :
            (r : Try Answer × Node E)
            → Ends Unit
                (Outcome json (garbage n) (i + 1) (json.parse (c_string (take i line ++ 0 ∷ []))) n)
                (λ n'. ⊥)
                r
            → Answers (suc i) r
        by_outcome (ok incomplete, n') (inl (never, _, _, _, _, _)) = cc
        by_outcome (ok incomplete, n') (inr (never, _)) = cc
        by_outcome (ok (taken retlen), n') (inl (is, _, _, _, _, _)) =
            let same : retlen ≡ i + 1 = cc in omega arith
        by_outcome (ok (taken retlen), n') (inr (never, _)) = cc
        by_outcome (ok failed, n') h = tt
        by_outcome (thrown, n') h = tt
        by_outcome (fault, n') h = tt

    pub serve_messages-lines :
        (fuel : ℕ) (n : Node E) (buf : List ℕ)
        → serve_messages services json garbage fuel n buf
          ≡ outcome (serve_lines session fuel (running n) buf)
    unfolding serve_messages serve_lines
    serve_messages-lines zero n buf = refl
    serve_messages-lines (suc fuel) n buf =
        by_split (split_line buf) refl (split_line-Ended buf)
          (λ n' rest. serve_messages-lines fuel n' rest)
      where
        by_split :
            (split : Option (List ℕ × List ℕ))
            → split_line buf ≡ split
            → Ended buf split
            → ((n' : Node E) (rest : List ℕ)
                → serve_messages services json garbage fuel n' rest
                  ≡ outcome (serve_lines session fuel (running n') rest))
            → serve_messages services json garbage (suc fuel) n buf
              ≡ outcome (serve_lines session (suc fuel) (running n) buf)
        by_split none e open_message ih =
            ap (after_message services json garbage (serve_messages services json garbage fuel) buf)
              (message_open n buf open_message)
            ∙ rw (serve_lines, e) refl
        by_split (some (line, rest)) e f ih =
            ap (after_message services json garbage (serve_messages services json garbage fuel) buf)
              (message_front n buf line rest f)
            ∙ rw (serve_lines, e)
                (by_answer (json_proc_msg services json (garbage n) line n)
                  (message-Answers n line f.index f.found_alone) ih)
          where
            by_answer :
                (r : Try Answer × Node E)
                → Answers (suc f.index) r
                → ((n' : Node E) (rest : List ℕ)
                    → serve_messages services json garbage fuel n' rest
                      ≡ outcome (serve_lines session fuel (running n') rest))
                → after_message services json garbage
                    (serve_messages services json garbage fuel)
                    buf
                    r
                  ≡ outcome (elim (judged r).1 [
                    | true ↦ serve_lines session fuel (judged r).0 rest
                    | false ↦ some (dropped (judged r).0)
                  ])
            by_answer (ok incomplete, n') h ih = absurd h
            by_answer (ok (taken retlen), n') h ih =
                ap (λ k. serve_messages services json garbage fuel n' (drop k buf)) h
                ∙ ap (serve_messages services json garbage fuel n') f.left
                ∙ ih n' rest
            by_answer (ok failed, n') h ih = refl
            by_answer (thrown, n') h ih = refl
            by_answer (fault, n') h ih = refl
