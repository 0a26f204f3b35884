-- ===== src/Node/Fill.antt =====
-- node.cpp, the part of json_proc_msg that fills a new job: what the new element holds after each step.
use epic_poold.Base.{
  ℕ, ◌+◌, ◌/◌, ◌≤◌, ◌≡◌, refl, inl, inr, true, false, Option, none, some, List, [], ◌∷◌, ◌++◌,
  arith, ltb, length, take, drop, replicate, All, All-append, All-drop, length-append, length-drop,
  append_assoc, Bool-cases, take-length,
}
use epic_poold.Codec.{hex2bin}
use epic_poold.Codec.Spec.{unhex, digit, IsByte}
use epic_poold.Codec.Decode.{hex2bin_decides, Decoded, length-unhex, join_nibbles-eq-some, digit-lt}
use epic_poold.Client.{JobData}
use epic_poold.Node.{prepow_room}
use epic_poold.Node.Values.{store_prepow}
use epic_poold.Node.Run.{Ends}

-- The bytes of a text of a job, with the zeros that follow them.
pub record Spells (text : List ℕ) (job : JobData) : Type 0 where
  pub bytes : List ℕ
  pub spelt : unhex text ≡ some bytes
  pub measured : job.prepow_len ≡ length bytes + 8
  pub kept : take job.prepow_len job.prepow ≡ bytes ++ replicate 8 0
  pub short : length bytes ≤ 376

-- The array of a job.
abbrev pub IsPrepow : List ℕ → Type 0
IsPrepow prepow = (length prepow ≡ 384) × All IsByte prepow

-- The job after its text was stored, and whatever it holds after a text that is refused.
pub record Stored (text : List ℕ) (job job' : JobData) : Type 0 where
  pub spells : Spells text job'
  pub array : IsPrepow job'.prepow
  pub rest : job' ≡ record job { prepow = job'.prepow; prepow_len = job'.prepow_len }

pub unhex-IsByte : (text : List ℕ) {bytes : List ℕ} → unhex text ≡ some bytes → All IsByte bytes
unfolding unhex
unhex-IsByte [] {bytes} e = let nil : [] ≡ bytes = cc in rw (← nil) tt
unhex-IsByte (c ∷ []) e = cc
unhex-IsByte (c ∷ d ∷ text) e =
    let (high, low, more, hc, hd, hm, e') =
      join_nibbles-eq-some (digit c) (digit d) (unhex text) e in
    rw e' (omega (arith, digit-lt c hc, digit-lt d hd), unhex-IsByte text hm)

take-at : (front back : List ℕ) (n : ℕ) → length front ≡ n → take n (front ++ back) ≡ front
take-at front back n e = rw (← e) (take-length front back)

module _ (text : List ℕ) (job : JobData) (array : IsPrepow job.prepow) where
  stored :
      (bytes : List ℕ)
      → unhex text ≡ some bytes
      → length bytes ≤ 376
      → hex2bin (text ++ 0 ∷ []) (length text) job.prepow
        ≡ some (true, bytes ++ drop (length bytes) job.prepow)
      → Ends ⊥ (λ done job'. Stored text job job') (λ job'. Unit) (store_prepow text job)
  unfolding store_prepow
  stored bytes spelt short read =
      rw (fits, read, half)
        (record {
          spells = record {
            bytes = bytes;
            spelt = spelt;
            measured = refl;
            kept = kept;
            short = short;
          };
          array = (size, small);
          rest = refl;
        })
    where
      n : ℕ
      n = length bytes

      zeros : List ℕ
      zeros = replicate 8 0

      back : List ℕ
      back = drop (n + 8) (bytes ++ drop n job.prepow)

      half : length text / 2 ≡ n
      half = omega (arith, length-unhex text spelt)

      fits : ltb prepow_room (length text / 2) ≡ false
      fits = ground (arith, half)

      front : take n (bytes ++ drop n job.prepow) ≡ bytes
      front = take-length bytes _

      size : length (take n (bytes ++ drop n job.prepow) ++ (zeros ++ back)) ≡ 384
      size = rw front (
          omega (
            arith,
            length-append bytes (zeros ++ back),
            length-drop (n + 8) (bytes ++ drop n job.prepow),
            length-append bytes (drop n job.prepow),
            length-drop n job.prepow,
            array.0,
          ))

      small : All IsByte (take n (bytes ++ drop n job.prepow) ++ (zeros ++ back))
      small =
          let on_bytes = unhex-IsByte text spelt in
          rw front (
            All-append IsByte bytes (zeros ++ back) on_bytes (
              All-append IsByte zeros back
                (
                  omega arith,
                  (
                    omega arith,
                    (
                      omega arith,
                      (omega arith, (omega arith, (omega arith, (omega arith, (omega arith, tt))))),
                    ),
                  ),
                )
                (All-drop IsByte (n + 8) (bytes ++ drop n job.prepow) (
                  All-append IsByte bytes (drop n job.prepow) on_bytes
                    (All-drop IsByte n job.prepow array.1)))))

      kept : take (n + 8) (take n (bytes ++ drop n job.prepow) ++ (zeros ++ back)) ≡ bytes ++ zeros
      kept =
          rw (front, ← append_assoc bytes zeros back)
            (take-at (bytes ++ zeros) back (n + 8) measured)
        where
          measured : length (bytes ++ zeros) ≡ n + 8
          measured = omega (arith, length-append bytes zeros)

  pub store_prepow-Stored :
      Ends ⊥ (λ done job'. Stored text job job') (λ job'. Unit) (store_prepow text job)
  unfolding store_prepow
  store_prepow-Stored = elim (Bool-cases (ltb prepow_room (length text / 2))) [
    | inl long ↦ rw long tt
    | inr fits ↦
        by_text (unhex text) refl fits
          (hex2bin_decides text [] job.prepow (ground (arith, array.0)))
  ]
    where
      by_text :
          (spelling : Option (List ℕ))
          → unhex text ≡ spelling
          → ltb prepow_room (length text / 2) ≡ false
          → Decoded spelling job.prepow (hex2bin (text ++ 0 ∷ []) (length text) job.prepow)
          → Ends ⊥ (λ done job'. Stored text job job') (λ job'. Unit) (store_prepow text job)
      by_text none h fits (out, e) = rw (fits, e) tt
      by_text (some bytes) h fits e = stored bytes h (ground (arith, length-unhex text h)) e
