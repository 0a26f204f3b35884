-- ===== src/Client/Bounds.antt =====
-- The array `hex_blob` of login and on_new_block, and the nonces at the end of a job, in client.cpp.
use epic_poold.Base.{
  ℕ, ◌+◌, ◌-◌, ◌*◌, ◌^◌, ◌≤◌, ◌<◌, ◌≡◌, refl, sym, ◌∙◌, ap, Bool, true, false, none, some, List,
  ◌++◌, arith, ltb, length, take, drop, replicate, All, All-take, All-drop, All-append, length-take,
  length-replicate, take-append-drop, drop-length,
}
use epic_poold.Codec.{bin2hex}
use epic_poold.Codec.Spec.{IsByte}
use epic_poold.Codec.Encode.{bin2hex_decides}
use epic_poold.Client.{
  JobData, HashPools, Client, bytes32, copy_to_end, hex_of, job_text, get_new_job,
  process_method_login, on_new_block,
}
use epic_poold.Client.Share.{Roomy, spliced, spliced-Roomy, copy_to_end-spliced}
use epic_poold.Client.Job.{bytes32-IsByte}

hex_of-none :
    (bytes : List ℕ) (len size : ℕ)
    → All IsByte bytes
    → len ≤ length bytes
    → len < 2 ^ 31
    → size ≤ 2 * len
    → hex_of bytes len size ≡ none
unfolding hex_of
hex_of-none bytes len size small reach word over = rw refused refl
  where
    counted : length (take len bytes) ≡ len
    counted = omega (arith, length-take len bytes)

    over_size : ltb (2 * len) (length (replicate {A = ℕ} size 0)) ≡ false
    over_size = ground (arith, length-replicate {A = ℕ} size 0)

    refused : bin2hex bytes len (replicate size 0) ≡ none
    refused =
        let both =
          bin2hex_decides (take len bytes) (drop len bytes) (replicate size 0)
            (All-take IsByte len bytes small) (omega (arith, counted, word)) in
        rw (take-append-drop len bytes, counted, over_size) at both

spliced-IsByte :
    (job : JobData) (back x : ℕ) → All IsByte job.prepow → All IsByte (spliced job back x).prepow
unfolding spliced
spliced-IsByte job back x small =
    All-append IsByte (take (job.prepow_len - back) job.prepow) _
      (All-take IsByte (job.prepow_len - back) job.prepow small)
      (All-append IsByte (bytes32 x) _ (bytes32-IsByte x)
        (All-drop IsByte (job.prepow_len - back + 4) job.prepow small))

spliced-prepow_len : (job : JobData) (back x : ℕ) → (spliced job back x).prepow_len ≡ job.prepow_len
unfolding spliced
spliced-prepow_len job back x = refl

drop_at : (n : ℕ) (front back : List ℕ) → length front ≡ n → drop n (front ++ back) ≡ back
drop_at n front back e = ap (λ k. drop k (front ++ back)) (sym e) ∙ drop-length front back

-- A prepow that fills its array of 384 bytes has a text of 768 digits; with the terminator this
-- does not fit the 768 characters of `hex_blob`: both a login, of a client that is not logged in, and
-- a new block, for one that is, write past it, while the client is not given up.
pub on_new_block-overflow :
    (pools : HashPools) (current : JobData) (writes : ℕ → Bool) (c : Client) (call_id : ℕ)
    → Roomy current
    → All IsByte current.prepow
    → current.prepow_len ≡ 384
    → c.aborting ≡ false
    → (c.logged_in ≡ true → on_new_block pools current writes c ≡ none)
      × (c.logged_in ≡ false → process_method_login pools current writes c call_id ≡ none)
unfolding on_new_block process_method_login get_new_job job_text
on_new_block-overflow pools current writes c call_id room small full live =
    ((λ logged. rw (live, logged, copied, over) refl), λ new. rw (new, copied, over) refl)
  where
    copied : copy_to_end current 8 c.extra_nonce ≡ some (spliced current 8 c.extra_nonce)
    copied = copy_to_end-spliced current 8 c.extra_nonce room (omega arith) (omega arith)

    unchanged : (spliced current 8 c.extra_nonce).prepow_len ≡ current.prepow_len
    unchanged = spliced-prepow_len current 8 c.extra_nonce

    over :
        hex_of
          (spliced current 8 c.extra_nonce).prepow
          (spliced current 8 c.extra_nonce).prepow_len
          768
        ≡ none
    over =
        hex_of-none (spliced current 8 c.extra_nonce).prepow
          (spliced current 8 c.extra_nonce).prepow_len 768
          (spliced-IsByte current 8 c.extra_nonce small)
          (spliced-Roomy current 8 c.extra_nonce room (omega arith) (omega arith)).held
          (omega (arith, unchanged, full)) (omega (arith, unchanged, full))
