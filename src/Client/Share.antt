-- ===== src/Client/Share.antt =====
-- The steps of process_method_submit in client.cpp: reading the texts, having the share checked, and
-- judging what the hash pools found.
use epic_poold.Base.{
  ℕ, zero, suc, ◌+◌, ◌-◌, ◌*◌, ◌/◌, ◌^◌, ◌≤◌, ◌<◌, ◌≡◌, refl, sym, ◌∙◌, ap, ◌⊎◌, inl, inr, Bool,
  true, false, Option, none, some, List, [], ◌∷◌, ◌++◌, append-nil, arith, bit_or, ltb, leb, ◌==◌,
  length, take, drop, drop-length, replicate, length-replicate, Bool-cases, ltb→lt, ltb→le,
  length-drop, length-take, length-append, All,
}
use native.Mathlib.Nat.{le-div_iff_mul-le, le_antisymm}
use epic_poold.Codec.{hex2bin}
use epic_poold.Codec.Spec.{unhex}
use epic_poold.Codec.Decode.{hex2bin_decides, Decoded, length-unhex}
use epic_poold.Vector32.{IsVector, bswap64, get_work32, get_work64, get_id}
use epic_poold.Vector32.Laws.{get_work_lem}
use epic_poold.Client.{
  PowType, randomx, progpow, cuckoo, JobData, bytes32, CheckJob, HashPools, ErrorText,
  error_response, ok_response, Submission, Client, fix_diff, work_to_diff, copy_to_end, net_send,
  send_error_response, check_by_type, judge_share, server_error, bad_share,
}

-- A text of 2 * n characters is read into n fresh bytes, or is refused.
abbrev pub ReadsHex : List ℕ → ℕ → Type 0
ReadsHex s n =
    ((bytes : List ℕ) × (unhex s ≡ some bytes)
      × (hex2bin (s ++ 0 ∷ []) (2 * n) (replicate n 0) ≡ some (true, bytes)))
    ⊎ ((out : List ℕ) × (unhex s ≡ none)
        × (hex2bin (s ++ 0 ∷ []) (2 * n) (replicate n 0) ≡ some (false, out)))

pub reads_hex : (s : List ℕ) (n : ℕ) → length s ≡ 2 * n → ReadsHex s n
reads_hex s n e =
    by_bytes (unhex s) refl
      (hex2bin_decides s [] (replicate n 0) (omega (arith, length-replicate {A = ℕ} n 0)))
  where
    none_left :
        (bytes : List ℕ)
        → unhex s ≡ some bytes
        → bytes ++ drop (length bytes) (replicate n 0) ≡ bytes
    none_left bytes h =
        let size : length bytes ≡ n = omega (arith, length-unhex s h) in
        let zeros : List ℕ = replicate n 0 in
        let nothing_left : drop n zeros ≡ [] =
          ap (λ r. drop n r) (sym (append-nil zeros))
          ∙ rw (length-replicate {A = ℕ} n 0) at (drop-length zeros []) in
        rw (size, nothing_left) (append-nil bytes)

    by_bytes :
        (o : Option (List ℕ))
        → unhex s ≡ o
        → Decoded o (replicate n 0) (hex2bin (s ++ 0 ∷ []) (length s) (replicate n 0))
        → ReadsHex s n
    by_bytes none h (out, read) =
        inr (out, h, ap (λ k. hex2bin (s ++ 0 ∷ []) k (replicate n 0)) (sym e) ∙ read)
    by_bytes (some bytes) h read = inl (
      bytes,
      h,
      ap (λ k. hex2bin (s ++ 0 ∷ []) k (replicate n 0)) (sym e)
          ∙ read
          ∙ ap (λ b. some (true, b)) (none_left bytes h),
    )

-- The bytes of the job reach back to its two nonces, and stay inside the array.
pub record Roomy (job : JobData) : Type 0 where
  pub reaches : 8 ≤ job.prepow_len
  pub held : job.prepow_len ≤ length job.prepow

unfoldable pub spliced : JobData → ℕ → ℕ → JobData
spliced job back x =
    let start = job.prepow_len - back in
    record job { prepow = take start job.prepow ++ (bytes32 x ++ drop (start + 4) job.prepow) }

pub spliced-Roomy :
    (job : JobData) (back x : ℕ) → Roomy job → 4 ≤ back → back ≤ 8 → Roomy (spliced job back x)
unfolding spliced
spliced-Roomy job back x room low high = record { reaches = room.reaches; held = held }
  where
    held : job.prepow_len ≤ length (spliced job back x).prepow
    held =
        let start = job.prepow_len - back in
        let whole : length (spliced job back x).prepow
            ≡ length (take start job.prepow) + length (bytes32 x ++ drop (start + 4) job.prepow) =
          length-append (take start job.prepow) (bytes32 x ++ drop (start + 4) job.prepow) in
        omega (
          arith,
          room.held,
          room.reaches,
          length-take start job.prepow,
          length-drop (start + 4) job.prepow,
          whole,
        )

pub copy_to_end-spliced :
    (job : JobData) (back x : ℕ)
    → Roomy job
    → 4 ≤ back
    → back ≤ 8
    → copy_to_end job back x ≡ some (spliced job back x)
unfolding copy_to_end spliced
copy_to_end-spliced job back x room low high =
    let reaches : leb back job.prepow_len ≡ true = ground (arith, room.reaches) in
    let held : leb (job.prepow_len - back + 4) (length job.prepow) ≡ true =
      ground (arith, room.reaches, room.held) in
    rw (reaches, held) refl

le-div_of_mul-le : (k x y : ℕ) → 0 < k → x * k ≤ y → x ≤ y / k
le-div_of_mul-le k x y pos h = (le-div_iff_mul-le pos).1 h

-- A hash whose first 32 bits are within the target is worth the fixed difficulty.
worth_of :
    (work32 work64 : ℕ) → work64 / 2 ^ 32 ≡ work32 → work32 ≤ 1048575 → 4096 ≤ work_to_diff work64
unfolding work_to_diff
worth_of work32 work64 e low = elim (Bool-cases (work64 == 0)) [
  | inl zero_work ↦ rw zero_work (omega arith)
  | inr positive ↦
      rw positive (le-div_of_mul-le work64 4096 0xFFFFFFFFFFFFFFFF (ground arith) (omega arith))
]

ones : (n : ℕ) → All (λ b. b < 256) (replicate n 0xff)
ones zero = tt
ones (suc n) = (omega arith, ones n)

abbrev pub Checks : Client → Option (Client × CheckJob) → Type 0
Checks c r =
    (c' : Client) × (job : CheckJob) × (r ≡ some (c', job))
    × (c'.sent ≡ c.sent)
    × (c'.results ≡ c.results)
    × (c'.extra_nonce ≡ c.extra_nonce)
    × IsVector job.hash

-- A share that was refused: one error is sent, nothing goes to the node.
pub record Refused (c c' : Client) (call_id : ℕ) : Type 0 where
  pub why : ErrorText
  pub told : c'.sent ≡ error_response call_id why ∷ c.sent
  pub kept : c'.results ≡ c.results

-- A share that was accepted for a job's bytes and the nonce given, with what the pools found.
pub record Accepted (c c' checked : Client) (call_id nonce : ℕ) (job : CheckJob) : Type 0 where
  pub served : job.error ≡ false
  pub under_target : get_work32 job.hash ≤ 1048575
  pub worth : 4096 ≤ work_to_diff (get_work64 job.hash)
  pub told : c'.sent ≡ ok_response call_id ∷ c.sent
  pub passed_on :
      ((work_to_diff (get_work64 job.hash) ≡ 4096) × (c'.results ≡ c.results))
      ⊎ ((4096 < work_to_diff (get_work64 job.hash))
          × (c'.results
              ≡ record {
                job = checked.cur_job;
                full_nonce = bswap64 (bit_or (nonce * 2 ^ 32) checked.extra_nonce);
                hash = job.hash;
              }
                ∷ c.results))

module _ (pools : HashPools) (current : JobData) (writes : ℕ → Bool)
    (rx-IsVector : (blob : List ℕ) (id : ℕ) → IsVector (pools.rx blob id).hash)
    (pp-IsVector : (blob : List ℕ) (block nonce : ℕ)
      → IsVector (pools.pp blob block nonce).hash) where
  pub checks :
      (t : PowType) (c : Client) (nonce : ℕ)
      → Roomy c.cur_job
      → Checks c (check_by_type pools current writes t c nonce)
  unfolding check_by_type
  checks randomx c nonce room =
      let job = spliced c.cur_job 4 nonce in
      (
        record c { cur_job = job },
        pools.rx (take job.prepow_len job.prepow) (get_id job.rx_seed),
        rw (copy_to_end-spliced c.cur_job 4 nonce room (omega arith) (omega arith)) refl,
        refl,
        refl,
        refl,
        rx-IsVector _ _,
      )
  checks progpow c nonce room =
      let reaches : leb 8 c.cur_job.prepow_len ≡ true = ground (arith, room.reaches) in
      (
        c,
        pools.pp (take (c.cur_job.prepow_len - 8) c.cur_job.prepow) c.cur_job.height
            (bit_or (c.extra_nonce * 2 ^ 32) nonce),
        rw reaches refl,
        refl,
        refl,
        refl,
        pp-IsVector _ _ _,
      )
  checks cuckoo c nonce room = (c, _, refl, refl, refl, refl, (refl, ones 32))

  -- The outcome of a share whose check gave this job.
  pub judge_share-decides :
      (c checked : Client) (call_id nonce : ℕ) (job : CheckJob)
      → checked.sent ≡ c.sent
      → checked.results ≡ c.results
      → IsVector job.hash
      → let c' = judge_share pools current writes checked call_id nonce job in
        Refused c c' call_id ⊎ Accepted c c' checked call_id nonce job
  unfolding judge_share send_error_response net_send work_to_diff
  judge_share-decides c checked call_id nonce job same_sent same_results vector =
      elim (Bool-cases job.error) [
        | inl failed ↦ inl (
            rw failed (record {
              why = server_error;
              told = ap (λ s. error_response call_id server_error ∷ s) same_sent;
              kept = same_results;
            }))
        | inr served ↦ elim (Bool-cases (ltb (0xFFFFFFFF / fix_diff) (get_work32 job.hash))) [
          | inl bad ↦ inl (
              rw (served, bad)
                (record {
                  why = bad_share;
                  told = ap (λ s. error_response call_id bad_share ∷ s) same_sent;
                  kept = same_results;
                }))
          | inr good ↦ elim (Bool-cases (ltb 4096 (work_to_diff (get_work64 job.hash)))) [
            | inl above ↦ inr (
                rw (served, good, above)
                  (record {
                    served = refl;
                    under_target = low good;
                    worth = worth good;
                    told = ap (λ s. ok_response call_id ∷ s) same_sent;
                    passed_on = inr (ltb→lt _ _ above, ap (λ s. found ∷ s) same_results);
                  }))
            | inr equal ↦ inr (
                rw (served, good, equal)
                  (record {
                    served = refl;
                    under_target = low good;
                    worth = worth good;
                    told = ap (λ s. ok_response call_id ∷ s) same_sent;
                    passed_on = inl (le_antisymm (ltb→le _ _ equal) (worth good), same_results);
                  }))
          ]
        ]
      ]
    where
      found : Submission
      found = record {
        job = checked.cur_job;
        full_nonce = bswap64 (bit_or (nonce * 2 ^ 32) checked.extra_nonce);
        hash = job.hash;
      }

      low :
          ltb (0xFFFFFFFF / fix_diff) (get_work32 job.hash) ≡ false → get_work32 job.hash ≤ 1048575
      low good = ground arith

      worth :
          ltb (0xFFFFFFFF / fix_diff) (get_work32 job.hash) ≡ false
          → 4096 ≤ work_to_diff (get_work64 job.hash)
      worth good =
          let (_, _, upper) = get_work_lem job.hash vector in
          worth_of (get_work32 job.hash) (get_work64 job.hash) upper (low good)
