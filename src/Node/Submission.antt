-- ===== src/Node/Submission.antt =====
-- node.h, send_job_result: the text of the message, and its room.
use epic_poold.Base.{
  ℕ, zero, suc, ◌+◌, ◌*◌, ◌/◌, ◌%◌, ◌^◌, ◌<◌, ◌≤◌, ◌≡◌, refl, inl, inr, true, none, some, List, [],
  ◌∷◌, ◌++◌, arith, ltb, if◌then◌else◌, length, length-append, All, Bool-cases,
}
use mathlib.Core.List.{cons-ne-nil}
use native.Mathlib.Nat.{pow-suc}
use epic_poold.Vector32.{V32, IsVector}
use epic_poold.Client.{JobData}
use epic_poold.ItoaLjust.Spec.{IsDecimal, IsDecimal-append, length-IsDecimal}
use epic_poold.Node.Submit.{decimal, printed, byte_list, submit_message, send_job_result}

digit-IsDecimal : (n : ℕ) → n < 10 → IsDecimal n ((n + b'0') ∷ [])
digit-IsDecimal n small = record {
  digits = omega arith;
  exact = omega arith;
  some_digit = λ nil. cons-ne-nil (n + b'0') [] nil;
  no_leading_zero = λ s e. cc;
}

decimal-IsDecimal : (k n : ℕ) → n < 10 ^ suc k → IsDecimal n (decimal (suc k) n)
unfolding decimal
decimal-IsDecimal zero n small =
    let one : ltb n 10 ≡ true = ground arith in rw (decimal, one) (digit-IsDecimal n (omega arith))
decimal-IsDecimal (suc k) n small = elim (Bool-cases (ltb n 10)) [
  | inl one ↦ rw (decimal, one) (digit-IsDecimal n (ground arith))
  | inr many ↦
      let big : 10 ≤ n = ground arith in
      rw (decimal, many)
        (IsDecimal-append (n / 10) (n % 10) 1 n (decimal (suc k) (n / 10)) ((n % 10 + b'0') ∷ [])
          (decimal-IsDecimal k (n / 10) (omega (arith, small, pow-suc 10 (suc k)))) (omega arith)
          (omega arith) (omega arith) refl (omega arith))
]

printed-IsDecimal :
    (n m : ℕ) → n < 2 ^ 64 → n < 10 ^ m → 0 < m → IsDecimal n (printed n) × (length (printed n) ≤ m)
unfolding printed
printed-IsDecimal n m wide small some_digits =
    let spelled = decimal-IsDecimal 19 n (omega arith) in
    (spelled, length-IsDecimal n (decimal 20 n) m spelled small some_digits)

-- The texts of the bytes, with commas between them.
abbrev pub IsByteList : List ℕ → List ℕ → Type 0
IsByteList [] text = text ≡ []
IsByteList (b ∷ []) text = IsDecimal b text
IsByteList (b ∷ b' ∷ bytes) text =
    (first rest : List ℕ) × (text ≡ first ++ b',' ∷ rest)
    × IsDecimal b first
    × IsByteList (b' ∷ bytes) rest

byte_list-IsByteList :
    (bytes : List ℕ)
    → All (λ b. b < 256) bytes
    → IsByteList bytes (byte_list bytes) × (length (byte_list bytes) ≤ 4 * length bytes)
unfolding byte_list
byte_list-IsByteList [] small = (refl, omega arith)
byte_list-IsByteList (b ∷ []) (small, none_left) =
    let (spelled, short) = printed-IsDecimal b 3 (omega arith) (omega arith) (omega arith) in
    (spelled, omega arith)
byte_list-IsByteList (b ∷ b' ∷ bytes) (small, rest) =
    let (spelled, short) = printed-IsDecimal b 3 (omega arith) (omega arith) (omega arith) in
    let (listed, fits) = byte_list-IsByteList (b' ∷ bytes) rest in
    (
      (printed b, byte_list (b' ∷ bytes), refl, spelled, listed),
      omega (arith, length-append (printed b) (b',' ∷ byte_list (b' ∷ bytes)), fits, short),
    )

length-submit_message :
    (height jobid nonce pow : List ℕ)
    → length (submit_message height jobid nonce pow)
      ≤ length height + length jobid + length nonce + length pow + 130
length-submit_message height jobid nonce pow = simp length-append (omega arith)

sent_whole :
    (buffer : List ℕ)
    → length buffer < 1024
    → (if ltb (length buffer) 1024 then some buffer else none) ≡ some buffer
sent_whole buffer room = let fits : ltb (length buffer) 1024 ≡ true = ground arith in rw fits refl

-- The message for a block is the JSON text with the height, the id of the job and the nonce as usual decimal
-- numbers and the 32 bytes of the hash as a list of them, and it fits the buffer, so that it is sent in
-- whole: the height and the id are of 32 bits, the nonce of 64.
pub send_job_result-Sent :
    (job : JobData) (nonce : ℕ) (powhash : V32)
    → job.height < 2 ^ 32
    → job.jobid < 2 ^ 32
    → nonce < 2 ^ 64
    → IsVector powhash
    → (height jobid number pow : List ℕ) × IsDecimal job.height height
      × IsDecimal job.jobid jobid
      × IsDecimal nonce number
      × IsByteList powhash.bytes pow
      × (send_job_result job nonce powhash ≡ some (submit_message height jobid number pow))
unfolding send_job_result
send_job_result-Sent job nonce powhash height_small id_small nonce_small vector =
    let (height, height_short) =
      printed-IsDecimal job.height 10 (omega arith) (omega arith) (omega arith) in
    let (jobid, id_short) =
      printed-IsDecimal job.jobid 10 (omega arith) (omega arith) (omega arith) in
    let (number, nonce_short) =
      printed-IsDecimal nonce 20 (omega arith) (omega arith) (omega arith) in
    let (pow, pow_short) = byte_list-IsByteList powhash.bytes vector.1 in
    let room =
      length-submit_message (printed job.height) (printed job.jobid) (printed nonce)
        (byte_list powhash.bytes) in
    let buffer =
      submit_message (printed job.height) (printed job.jobid) (printed nonce)
        (byte_list powhash.bytes) in
    (
      printed job.height,
      printed job.jobid,
      printed nonce,
      byte_list powhash.bytes,
      height,
      jobid,
      number,
      pow,
      sent_whole buffer
          (omega (arith, room, height_short, id_short, nonce_short, pow_short, vector.0)),
    )
