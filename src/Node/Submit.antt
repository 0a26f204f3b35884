-- ===== src/Node/Submit.antt =====
-- node.h, send_job_result: the message by which a solved job goes to the node.
use epic_poold.Base.{
  ℕ, zero, suc, ◌+◌, ◌/◌, ◌%◌, Option, none, some, List, [], ◌∷◌, ◌++◌, ltb, if◌then◌else◌, length,
  codes,
}
use epic_poold.Vector32.{V32}
use epic_poold.Client.{JobData}

-- %u and %lu of printf, for numbers with so many digits at most.
unfoldable pub decimal : ℕ → ℕ → List ℕ
decimal zero n = []
decimal (suc digits) n =
    let upper = decimal digits (n / 10) in
    if ltb n 10 then (n + b'0') ∷ [] else upper ++ (n % 10 + b'0') ∷ []

-- The numbers of 64 bits have at most 20 digits.
unfoldable pub printed : ℕ → List ℕ
unfolding decimal
printed n = decimal 20 n

unfoldable pub byte_list : List ℕ → List ℕ
unfolding printed
byte_list [] = []
byte_list (b ∷ []) = printed b
byte_list (b ∷ b' ∷ ph) = printed b ++ b',' ∷ byte_list (b' ∷ ph)

abbrev pub submit_head : List ℕ
submit_head =
    codes "{\"id\":\"0\",\"jsonrpc\":\"2.0\",\"method\":\"submit\",\"params\":{\"height\":"

-- What stands between the texts of the numbers.
abbrev pub submit_message : List ℕ → List ℕ → List ℕ → List ℕ → List ℕ
submit_message height jobid nonce pow =
    submit_head
    ++ height
    ++ codes ",\"job_id\":"
    ++ jobid
    ++ codes ",\"nonce\":"
    ++ nonce
    ++ codes ",\"pow\":{\"RandomX\":["
    ++ pow
    ++ codes "]}}}"
    ++ 10 ∷ []

-- What is sent. snprintf keeps 1023 characters of a text but gives its whole length to send, which would
-- read behind the buffer: none.
unfoldable pub send_job_result : JobData → ℕ → V32 → Option (List ℕ)
unfolding printed byte_list
send_job_result job nonce powhash =
    let buffer =
      submit_message (printed job.height) (printed job.jobid) (printed nonce)
        (byte_list powhash.bytes) in
    if ltb (length buffer) 1024 then some buffer else none
