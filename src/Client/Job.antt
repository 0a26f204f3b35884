-- ===== src/Client/Job.antt =====
-- login and on_new_block in client.cpp: the texts that a job is sent as.
use epic_poold.Base.{
  ℕ, zero, suc, ◌+◌, ◌-◌, ◌*◌, ◌/◌, ◌%◌, ◌^◌, ◌≤◌, ◌<◌, ◌≡◌, refl, ◌∙◌, ap, Bool, true, false, some,
  List, [], ◌∷◌, ◌++◌, arith, ltb, length, take, drop, replicate, All, c_string, length-take,
  length-replicate, take-append-drop, All-append, All-take, All-drop,
}
use epic_poold.Codec.{bin2hex}
use epic_poold.Codec.Spec.{hex_text, digit_char, IsByte}
use epic_poold.Codec.Encode.{bin2hex_decides}
use epic_poold.Vector32.{IsVector}
use epic_poold.Client.{
  JobData, HashPools, JobText, login_response, job_notice, Client, bytes32, copy_to_end, hex_of,
  job_text, pow_type_to_str, get_new_job, net_send, process_method_login, on_new_block,
  diff_to_target,
}
use epic_poold.Client.Share.{Roomy, spliced, spliced-Roomy, copy_to_end-spliced}

c_string-positive : (c : ℕ) (s : List ℕ) → 0 < c → c_string (c ∷ s) ≡ c ∷ c_string s
c_string-positive zero s positive = absurd (omega arith)
c_string-positive (suc c) s positive = refl

c_string-hex_text : (bytes rest : List ℕ) → c_string (hex_text bytes ++ 0 ∷ rest) ≡ hex_text bytes
unfolding hex_text
c_string-hex_text [] rest = refl
c_string-hex_text (b ∷ bytes) rest =
    c_string-positive (digit_char (b / 16)) _ (ground arith)
    ∙ ap (λ s. digit_char (b / 16) ∷ s)
        (c_string-positive (digit_char (b % 16)) _ (ground arith)
          ∙ ap (λ s. digit_char (b % 16) ∷ s) (c_string-hex_text bytes rest))

pub hex_of-hex_text :
    (bytes : List ℕ) (len size : ℕ)
    → All IsByte bytes
    → len ≤ length bytes
    → len < 2 ^ 31
    → 2 * len < size
    → hex_of bytes len size ≡ some (hex_text (take len bytes))
unfolding hex_of
hex_of-hex_text bytes len size small reach word room =
    rw written (ap some (c_string-hex_text (take len bytes) _))
  where
    front : List ℕ
    front = take len bytes

    counted : length front ≡ len
    counted = omega (arith, length-take len bytes)

    roomy : ltb (2 * len) (length (replicate {A = ℕ} size 0)) ≡ true
    roomy = ground (arith, length-replicate {A = ℕ} size 0)

    written :
        bin2hex bytes len (replicate size 0)
        ≡ some (hex_text front ++ 0 ∷ drop (2 * len + 1) (replicate size 0))
    written =
        let both =
          bin2hex_decides front (drop len bytes) (replicate size 0)
            (All-take IsByte len bytes small) (omega (arith, counted, word)) in
        rw (take-append-drop len bytes, counted, roomy) at both

-- The text spells the job: its prepow with the nonces that it has, the number of the job, the fixed
-- target, the algorithm, the seed and the height.
pub record Describes (job : JobData) (jobid : ℕ) (text : JobText) : Type 0 where
  pub blob_spelt : text.blob ≡ hex_text (take job.prepow_len job.prepow)
  pub id_spelt : text.job_id ≡ hex_text (bytes32 jobid)
  pub target_spelt : text.target ≡ hex_text (bytes32 1048575)
  pub algo_named : text.pow_algo ≡ pow_type_to_str job.type
  pub seed_spelt : text.seed_hash ≡ hex_text job.rx_seed.bytes
  pub height_kept : text.height ≡ job.height

-- A job as the node hands it out: the nonces fit, the text of the prepow fits its buffer, and the
-- arrays hold bytes.
pub record Sendable (job : JobData) : Type 0 where
  pub room : Roomy job
  pub short : job.prepow_len < 384
  pub small : All IsByte job.prepow
  pub seed : IsVector job.rx_seed

pub bytes32-IsByte : (x : ℕ) → All IsByte (bytes32 x)
bytes32-IsByte x = (omega arith, (omega arith, (omega arith, (omega arith, tt))))

pub spliced-Sendable :
    (job : JobData) (back x : ℕ)
    → Sendable job
    → 4 ≤ back
    → back ≤ 8
    → Sendable (spliced job back x)
unfolding spliced
spliced-Sendable job back x fit low high = record {
  room = spliced-Roomy job back x fit.room low high;
  short = fit.short;
  small =
      All-append IsByte (take (job.prepow_len - back) job.prepow) _
        (All-take IsByte (job.prepow_len - back) job.prepow fit.small)
        (All-append IsByte (bytes32 x) _ (bytes32-IsByte x)
          (All-drop IsByte (job.prepow_len - back + 4) job.prepow fit.small));
  seed = fit.seed;
}

pub take_all : (n : ℕ) (bytes : List ℕ) → length bytes ≡ n → take n bytes ≡ bytes
take_all zero [] e = refl
take_all zero (b ∷ bytes) e = absurd (omega arith)
take_all (suc n) [] e = refl
take_all (suc n) (b ∷ bytes) e = ap (λ r. b ∷ r) (take_all n bytes (omega arith))

job_text-Describes :
    (c : Client)
    → Sendable c.cur_job
    → (text : JobText) × (job_text c ≡ some text) × Describes c.cur_job c.jobid text
unfolding job_text diff_to_target
job_text-Describes c fit =
    let blob =
      hex_of-hex_text c.cur_job.prepow c.cur_job.prepow_len 768 fit.small fit.room.held
        (omega (arith, fit.short)) (omega (arith, fit.short)) in
    let job_id =
      hex_of-hex_text (bytes32 c.jobid) 4 9 (bytes32-IsByte c.jobid) (omega arith) (omega arith)
        (omega arith) in
    let target =
      hex_of-hex_text (bytes32 1048575) 4 9 (bytes32-IsByte 1048575) (omega arith) (omega arith)
        (omega arith) in
    let seed =
      hex_of-hex_text c.cur_job.rx_seed.bytes 32 65 fit.seed.1 (omega (arith, fit.seed.0))
        (omega arith) (omega arith) in
    let text : JobText = record {
      blob = hex_text (take c.cur_job.prepow_len c.cur_job.prepow);
      job_id = hex_text (bytes32 c.jobid);
      target = hex_text (bytes32 1048575);
      seed_hash = hex_text (take 32 c.cur_job.rx_seed.bytes);
      pow_algo = pow_type_to_str c.cur_job.type;
      height = c.cur_job.height;
    } in
    (
      text,
      rw (blob, job_id, target, seed) refl,
      record {
        blob_spelt = refl;
        id_spelt = refl;
        target_spelt = refl;
        algo_named = refl;
        seed_spelt = ap hex_text (take_all 32 c.cur_job.rx_seed.bytes fit.seed.0);
        height_kept = refl;
      },
    )

-- A client behind a job that it was sent.
pub record Sent (c c' : Client) (current : JobData) (text : JobText) : Type 0 where
  pub job : c'.cur_job ≡ spliced current 8 c.extra_nonce
  pub numbered : c'.jobid ≡ (c.jobid + 1) % 2 ^ 32
  pub described : Describes (spliced current 8 c.extra_nonce) ((c.jobid + 1) % 2 ^ 32) text

module _ (pools : HashPools) (current : JobData) (writes : ℕ → Bool) (fit : Sendable current) where
  -- The client with the job that it takes over, and its text.
  abbrev taken : Client → Client
  taken c = record c { cur_job = spliced current 8 c.extra_nonce; jobid = (c.jobid + 1) % 2 ^ 32 }

  taken_over :
      (c : Client)
      → (text : JobText) × (job_text (taken c) ≡ some text)
        × Describes (taken c).cur_job (taken c).jobid text
  taken_over c =
      job_text-Describes _
        (spliced-Sendable current 8 c.extra_nonce fit (omega arith) (omega arith))

  -- A client that is logged in and not given up is sent each new block, and a client that logs in is
  -- sent the current one, for a job that fits its buffers: the client's own nonce stands 8 bytes
  -- before the end of the prepow, the job has the next number, and what is sent spells exactly this job
  -- in hexadecimal.
  pub on_new_block-Sent :
      (c : Client) (call_id : ℕ)
      → c.aborting ≡ false
      → (c.logged_in ≡ true
          → (c' : Client) × (text : JobText) × (on_new_block pools current writes c
              ≡ some (c', true))
            × (c'.sent ≡ job_notice text ∷ c.sent)
            × Sent c c' current text)
        × (c.logged_in ≡ false
            → (c' : Client) × (text : JobText) × (process_method_login pools current writes c
                  call_id
                ≡ some c')
              × (c'.sent ≡ login_response call_id text ∷ c.sent)
              × (c'.logged_in ≡ true)
              × Sent c c' current text)
  unfolding on_new_block process_method_login get_new_job net_send
  on_new_block-Sent c call_id live =
      ((λ logged. notified logged (taken_over c)), λ new. welcomed new (taken_over c))
    where
      copied : copy_to_end current 8 c.extra_nonce ≡ some (spliced current 8 c.extra_nonce)
      copied = copy_to_end-spliced current 8 c.extra_nonce fit.room (omega arith) (omega arith)

      notified :
          c.logged_in ≡ true
          → (text : JobText) × (job_text (taken c) ≡ some text)
            × Describes (taken c).cur_job (taken c).jobid text
          → (c' : Client) × (text : JobText) × (on_new_block pools current writes c
              ≡ some (c', true))
            × (c'.sent ≡ job_notice text ∷ c.sent)
            × Sent c c' current text
      notified logged (text, e, d) = (
        net_send pools current writes (taken c) (job_notice text),
        text,
        rw (live, logged, copied, e) refl,
        refl,
        record { job = refl; numbered = refl; described = d },
      )

      welcomed :
          c.logged_in ≡ false
          → (text : JobText) × (job_text (taken c) ≡ some text)
            × Describes (taken c).cur_job (taken c).jobid text
          → (c' : Client) × (text : JobText) × (process_method_login pools current writes c call_id
              ≡ some c')
            × (c'.sent ≡ login_response call_id text ∷ c.sent)
            × (c'.logged_in ≡ true)
            × Sent c c' current text
      welcomed new (text, e, d) = (
        record (net_send pools current writes (taken c) (login_response call_id text)) {
          logged_in = true;
        },
        text,
        rw (new, copied, e) refl,
        refl,
        refl,
        record { job = refl; numbered = refl; described = d },
      )
