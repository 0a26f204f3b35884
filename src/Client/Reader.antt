-- ===== src/Client/Reader.antt =====
-- The buffer of a client, net_recv and on_socket_read in client.hpp and client.cpp: the stream from the
-- socket is cut into lines. What a line does to the client is a parameter.
use epic_poold.Base.{
  ℕ, zero, suc, ◌-◌, min, Bool, true, false, Option, none, some, List, [], ◌∷◌, ◌++◌, leb, ◌==◌,
  if◌then◌else◌, length, take, drop,
}

abbrev pub sock_buf_size : ℕ
sock_buf_size = 4096

-- What the loop uses of a client: `process_line` returns false on a line that it cannot parse.
pub record Session (S : Type 0) : Type 0 where
  pub aborting : S → Bool
  pub hard_abort : S → S
  pub process_line : S → List ℕ → S × Bool

-- A client that is kept, with its buffer, or one that is to be removed.
pub data Fed (S : Type 0) : Type 0 where
  kept : S → List ℕ → Fed S
  dropped : S → Fed S

-- memchr, as the line up to and with the newline, and what follows.
unfoldable pub split_line : List ℕ → Option (List ℕ × List ℕ)
split_line [] = none
split_line (c ∷ buf) =
    let later = split_line buf in
    if c == 10
    then some (c ∷ [], buf)
    else elim later [ none ↦ none | some (line, rest) ↦ some (c ∷ line, rest) ]

-- What `read` takes of the bytes that have arrived: as many as it likes, but at least one, and no
-- more than there is room for.
abbrev pub received : ℕ → List ℕ → List ℕ → ℕ
received wanted recv_buf arrived =
    min (sock_buf_size - length recv_buf) (min (suc wanted) (length arrived))

module _ {S : Type 0} (cli : Session S) where
  -- The inner loop; each round takes a newline out of the buffer.
  unfoldable pub serve_lines : ℕ → S → List ℕ → Option (Fed S)
  unfolding split_line
  serve_lines zero s buf = none
  serve_lines (suc fuel) s buf = elim (split_line buf) [
    | none ↦ some (kept s buf)
    | some (line, rest) ↦ elim (cli.process_line s line).1 [
      | true ↦ serve_lines fuel (cli.process_line s line).0 rest
      | false ↦ some (dropped (cli.hard_abort (cli.process_line s line).0))
    ]
  ]

  -- The outer loop, with what is left on the socket. `wanted` says how much each read takes; a socket
  -- without data is at its end if the peer has closed it, and else has the loop return.
  unfoldable pub read_lines : ℕ → (ℕ → ℕ) → Bool → S → List ℕ → List ℕ → Option (Fed S)
  unfolding serve_lines
  read_lines zero wanted closed s recv_buf arrived = none
  read_lines (suc fuel) wanted closed s recv_buf arrived =
      let n = received (wanted fuel) recv_buf arrived in
      let buf = recv_buf ++ take n arrived in
      elim (cli.aborting s) [
        | true ↦ some (kept s recv_buf)
        | false ↦ elim (n == 0) [
          | true ↦ some (
              if leb sock_buf_size (length recv_buf)
              then dropped s
              else if closed
              then dropped s
              else kept s recv_buf)
          | false ↦ elim (leb sock_buf_size (length buf)) [
            | true ↦ some (dropped (cli.hard_abort s))
            | false ↦ elim (serve_lines (suc (length buf)) s buf) [
              | none ↦ none
              | some (dropped s') ↦ some (dropped s')
              | some (kept s' rest) ↦ read_lines fuel wanted closed s' rest (drop n arrived)
            ]
          ]
        ]
      ]

  -- Each read takes a byte at least.
  unfoldable pub on_socket_read : (ℕ → ℕ) → Bool → S → List ℕ → List ℕ → Option (Fed S)
  unfolding read_lines
  on_socket_read wanted closed s recv_buf arrived =
      read_lines (suc (length arrived)) wanted closed s recv_buf arrived
