-- ===== src/Client/Distinct.antt =====
-- client.cpp: the work that two clients are sent for one block.
use epic_poold.Base.{
  ℕ, zero, suc, ◌+◌, ◌-◌, ◌%◌, ◌^◌, ◌≤◌, ◌<◌, ◌≡◌, ◌≢◌, refl, sym, ◌∙◌, ap, Bool, true, false, none,
  some, List, [], ◌∷◌, ◌++◌, arith, length, take, drop, get_elem?, All, All-take, length-take,
  Option-cases, ◌⊎◌, inl, inr,
}
use epic_poold.Codec.Spec.{hex_text, unhex, unhex-hex_text, IsByte}
use epic_poold.Client.{Client, JobData, HashPools, JobText, job_notice, bytes32, on_new_block}
use epic_poold.Client.Birth.{Member, Birth, newborn, construct_clients}
use epic_poold.Client.Job.{Sendable, spliced-Sendable, on_new_block-Sent}
use epic_poold.Client.Share.{spliced}

hex_text-injective : (s t : List ℕ) → All IsByte s → All IsByte t → hex_text s ≡ hex_text t → s ≡ t
hex_text-injective s t bytes bytes' e =
    same (sym (unhex-hex_text s bytes) ∙ ap unhex e ∙ unhex-hex_text t bytes')
  where
    same : some s ≡ some t → s ≡ t
    same h = cc

taken_elem : (n k : ℕ) (xs : List ℕ) → k < n → get_elem? (take n xs) k ≡ get_elem? xs k
taken_elem zero k xs small = absurd (omega arith)
taken_elem (suc n) k [] small = refl
taken_elem (suc n) zero (x ∷ xs) small = refl
taken_elem (suc n) (suc k) (x ∷ xs) small = taken_elem n k xs (omega arith)

behind :
    (front back : List ℕ) (i k : ℕ)
    → i ≡ length front + k
    → get_elem? (front ++ back) i ≡ get_elem? back k
behind [] back i k e = ap (get_elem? back) (omega (arith, e))
behind (x ∷ front) back zero k e = absurd (omega (arith, e))
behind (x ∷ front) back (suc i) k e = behind front back i k (omega (arith, e))

bytes32-injective :
    (x y : ℕ)
    → x < 2 ^ 32
    → y < 2 ^ 32
    → ((k : ℕ) → k < 4 → get_elem? (bytes32 x) k ≡ get_elem? (bytes32 y) k)
    → x ≡ y
bytes32-injective x y small small' same =
    let first = some_same (same 0 (omega arith)) in
    let second = some_same (same 1 (omega arith)) in
    let third = some_same (same 2 (omega arith)) in
    let fourth = some_same (same 3 (omega arith)) in omega (arith, first, second, third, fourth)
  where
    some_same : {a b : ℕ} → some a ≡ some b → a ≡ b
    some_same e = cc

within : (xs ys : List ℕ) (k : ℕ) → k < length xs → get_elem? (xs ++ ys) k ≡ get_elem? xs k
within [] ys k small = absurd (omega arith)
within (x ∷ xs) ys zero small = refl
within (x ∷ xs) ys (suc k) small = within xs ys k (omega arith)

module _ (job : JobData) (fit : Sendable job) where
  nonce_byte :
      (x k : ℕ)
      → k < 4
      → get_elem? (take job.prepow_len (spliced job 8 x).prepow) (job.prepow_len - 8 + k)
        ≡ get_elem? (bytes32 x) k
  unfolding spliced
  nonce_byte x k small =
      let front : List ℕ = take (job.prepow_len - 8) job.prepow in
      let back : List ℕ = bytes32 x ++ drop (job.prepow_len - 8 + 4) job.prepow in
      let at : ℕ = job.prepow_len - 8 + k in
      let reach : at ≡ length front + k =
        omega (arith, length-take (job.prepow_len - 8) job.prepow, fit.room.held) in
      taken_elem job.prepow_len at (front ++ back) (omega (arith, fit.room.reaches))
      ∙ behind front back at k reach
      ∙ within (bytes32 x) _ k (omega arith)

  -- The text of a job tells the nonce in it.
  blob-injective :
      (x y : ℕ)
      → x < 2 ^ 32
      → y < 2 ^ 32
      → hex_text (take job.prepow_len (spliced job 8 x).prepow)
        ≡ hex_text (take job.prepow_len (spliced job 8 y).prepow)
      → x ≡ y
  blob-injective x y small small' e =
      let same =
        hex_text-injective _ _
          (All-take IsByte job.prepow_len _
            (spliced-Sendable job 8 x fit (omega arith) (omega arith)).small)
          (All-take IsByte job.prepow_len _
            (spliced-Sendable job 8 y fit (omega arith) (omega arith)).small)
          e in
      bytes32-injective x y small small' (λ k below.
        sym (nonce_byte x k below)
        ∙ ap (λ s. get_elem? s (job.prepow_len - 8 + k)) same
        ∙ nonce_byte y k below)

-- A constructor that throws takes no number; any other takes the counter's.
abbrev Begins : ℕ → Birth → List Birth → Type 0
Begins ctr birth births =
    (construct_clients ctr (birth ∷ births) ≡ none ∷ construct_clients ctr births)
    ⊎ ((m : Member) × (m.client.extra_nonce ≡ ctr)
        × (construct_clients ctr (birth ∷ births)
            ≡ some m ∷ construct_clients ((ctr + 1) % 2 ^ 32) births))

begins : (ctr : ℕ) (birth : Birth) (births : List Birth) → Begins ctr birth births
unfolding construct_clients
begins ctr birth births = elim (Option-cases birth.ip_text) [
  | inl refused ↦ inl (rw (construct_clients, refused) refl)
  | inr (str, text) ↦ inr (newborn ctr birth str, refl, rw (construct_clients, text) refl)
]

none_left : (ctr : ℕ) → construct_clients ctr [] ≡ []
unfolding construct_clients
none_left ctr = refl

head_of : {A : Type 0} (a m : A) → some a ≡ some m → a ≡ m
head_of a m e = cc

-- The extra nonces of a run count on from the counter.
nonces :
    (ctr : ℕ) (births : List Birth) (i : ℕ) (m : Member)
    → ctr < 2 ^ 32
    → get_elem? (construct_clients ctr births) i ≡ some (some m)
    → (made : ℕ) × (m.client.extra_nonce ≡ (ctr + made) % 2 ^ 32) × (made ≤ i)
nonces ctr [] i m word e = let h = rw (none_left ctr) at e in cc
nonces ctr (birth ∷ births) zero m word e = elim (begins ctr birth births) [
  | inl none_made ↦ let h : none ≡ some m = head_of none (some m) (rw none_made at e) in cc
  | inr (m', numbered, first) ↦
      let h : some m' ≡ some m = head_of (some m') (some m) (rw first at e) in
      let same : m' ≡ m = cc in
      (0, omega (arith, ap (λ (x : Member). x.client.extra_nonce) same, numbered), omega arith)
]
nonces ctr (birth ∷ births) (suc i) m word e = elim (begins ctr birth births) [
  | inl none_made ↦
      let (made, n, le) = nonces ctr births i m word (rw none_made at e) in (made, n, omega arith)
  | inr (m', numbered, first) ↦
      let (made, n, le) = nonces ((ctr + 1) % 2 ^ 32) births i m (omega arith) (rw first at e) in
      (made + 1, omega (arith, n), omega arith)
]

-- Two clients of a run have different extra nonces, unless 2^32 were made between them.
pub nonces-distinct :
    (ctr : ℕ) (births : List Birth) (i j : ℕ) (m m' : Member)
    → ctr < 2 ^ 32
    → i < j
    → j - i < 2 ^ 32
    → get_elem? (construct_clients ctr births) i ≡ some (some m)
    → get_elem? (construct_clients ctr births) j ≡ some (some m')
    → (m.client.extra_nonce ≢ m'.client.extra_nonce)
      × (m.client.extra_nonce < 2 ^ 32)
      × (m'.client.extra_nonce < 2 ^ 32)
nonces-distinct ctr [] i j m m' word less near e e' = let h = rw (none_left ctr) at e in cc
nonces-distinct ctr (birth ∷ births) zero zero m m' word less near e e' = absurd (omega arith)
nonces-distinct ctr (birth ∷ births) (suc i) zero m m' word less near e e' = absurd (omega arith)
nonces-distinct ctr (birth ∷ births) zero (suc j) m m' word less near e e' =
    elim (begins ctr birth births) [
      | inl none_made ↦ let h : none ≡ some m = head_of none (some m) (rw none_made at e) in cc
      | inr (m₀, numbered, first) ↦
          let h : some m₀ ≡ some m = head_of (some m₀) (some m) (rw first at e) in
          let same : m₀ ≡ m = cc in
          let own : m.client.extra_nonce ≡ ctr =
            ap (λ (x : Member). x.client.extra_nonce) (sym same) ∙ numbered in
          let (made, n, le) =
            nonces ((ctr + 1) % 2 ^ 32) births j m' (omega arith) (rw first at e') in
          ((λ equal. omega (arith, own, n, equal)), omega (arith, own), omega (arith, n))
    ]
nonces-distinct ctr (birth ∷ births) (suc i) (suc j) m m' word less near e e' =
    elim (begins ctr birth births) [
      | inl none_made ↦
          nonces-distinct ctr births i j m m' word (omega arith) (omega arith) (rw none_made at e)
            (rw none_made at e')
      | inr (m₀, numbered, first) ↦
          nonces-distinct ((ctr + 1) % 2 ^ 32) births i j m m' (omega arith) (omega arith)
            (omega arith) (rw first at e) (rw first at e')
    ]

-- Whatever clients a run of the program constructs, two of them with fewer than 2^32 attempts between them,
-- which still have the nonces they were made with, are logged in and not given up, are sent different work for
-- the same block: both are sent a job, and the texts of the two blobs differ. The block's job fits the
-- buffers.
pub on_new_block-distinct :
    (pools : HashPools) (current : JobData) (writes writes' : ℕ → Bool) (births : List Birth)
    (i j : ℕ) (m m' : Member) (c c' : Client)
    → Sendable current
    → i < j
    → j - i < 2 ^ 32
    → get_elem? (construct_clients 0 births) i ≡ some (some m)
    → get_elem? (construct_clients 0 births) j ≡ some (some m')
    → c.extra_nonce ≡ m.client.extra_nonce
    → c'.extra_nonce ≡ m'.client.extra_nonce
    → (c.aborting ≡ false) × (c.logged_in ≡ true)
    → (c'.aborting ≡ false) × (c'.logged_in ≡ true)
    → (d d' : Client) × (text text' : JobText) × (on_new_block pools current writes c
        ≡ some (d, true))
      × (on_new_block pools current writes' c' ≡ some (d', true))
      × (d.sent ≡ job_notice text ∷ c.sent)
      × (d'.sent ≡ job_notice text' ∷ c'.sent)
      × (text.blob ≢ text'.blob)
unfolding spliced
on_new_block-distinct pools current writes writes' births i j m m' c c' fit less near at at' own
      own' (live, logged) (live', logged') =
    let (apart, word, word') = nonces-distinct 0 births i j m m' (omega arith) less near at at' in
    let (d, text, e, sent, s) = (on_new_block-Sent pools current writes fit c 0 live).0 logged in
    let (d', text', e', sent', s') =
      (on_new_block-Sent pools current writes' fit c' 0 live').0 logged' in
    (
      d,
      d',
      text,
      text',
      e,
      e',
      sent,
      sent',
      λ equal. apart (
          sym own
          ∙ blob-injective current fit c.extra_nonce c'.extra_nonce (omega (arith, own, word))
              (omega (arith, own', word'))
              (sym s.described.blob_spelt ∙ equal ∙ s'.described.blob_spelt)
          ∙ own'),
    )
