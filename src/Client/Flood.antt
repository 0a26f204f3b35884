-- ===== src/Client/Flood.antt =====
-- The limit on a client's calls in process_line of client.cpp.
use epic_poold.Base.{
  ℕ, suc, ◌+◌, ◌-◌, ◌%◌, ◌^◌, ◌≤◌, ◌<◌, min, ◌≡◌, true, false, List, [], ◌∷◌, arith, ltb,
  if◌then◌else◌, length, All,
}
use epic_poold.Client.{Client}
use epic_poold.Client.Line.{flood_gate}

-- How many of the calls at these times are served.
pub calls_served : ℕ → Client → List ℕ → ℕ
calls_served max_calls c [] = 0
calls_served max_calls c (time ∷ times) =
    let rest = calls_served max_calls (flood_gate max_calls c time).0 times in
    if (flood_gate max_calls c time).1 then suc rest else rest

served_in_window :
    (max_calls : ℕ) (c : Client) (times : List ℕ)
    → All (λ t. t - c.flood_timestamp ≤ 60) times
    → c.flood_count + length times < 2 ^ 32
    → calls_served max_calls c times + min max_calls c.flood_count
      ≡ min max_calls (c.flood_count + length times)
unfolding calls_served flood_gate
served_in_window max_calls c [] inside fits = omega arith
served_in_window max_calls c (time ∷ times) inside fits =
    let late : ltb 60 (time - c.flood_timestamp) ≡ false = ground (arith, inside.0) in
    let counted = record c { flood_count = (c.flood_count + 1) % 2 ^ 32 } in
    let rest = served_in_window max_calls counted times inside.1 (omega arith) in
    rw late (ground (arith, rest))

-- The call that opens a window, which is the first one more than 60 seconds after the opening of the
-- one before, and the calls up to 60 seconds after it: of these, exactly the first `max_calls` are
-- served. There are to be fewer than 2^32 of them, so that the counter does not wrap around.
pub flood_gate-window :
    (max_calls : ℕ) (c : Client) (opening : ℕ) (times : List ℕ)
    → 60 < opening - c.flood_timestamp
    → All (λ t. t - opening ≤ 60) times
    → 1 + length times < 2 ^ 32
    → calls_served max_calls c (opening ∷ times) ≡ min max_calls (1 + length times)
unfolding calls_served flood_gate
flood_gate-window max_calls c opening times late inside fits =
    let opens : ltb 60 (opening - c.flood_timestamp) ≡ true = ground (arith, late) in
    let rest =
      served_in_window max_calls (record c { flood_timestamp = opening; flood_count = 1 }) times
        inside fits in
    rw opens (ground (arith, rest))
