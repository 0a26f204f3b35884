-- ===== src/Node/Difficulty.antt =====
-- node.cpp, the difficulty of a job: the loop over the pairs of an algorithm and a number.
use epic_poold.Base.{
  ℕ, ◌≡◌, refl, ◌⊎◌, inl, inr, true, false, not, List, [], ◌∷◌, ◌++◌, if◌then◌else◌, length, All,
  same_text, c_string, Bool-cases, ap, ap₂, ◌==◌, ==_iff, ◌∙◌, arith, codes,
}
use mathlib.Core.Bool.{false≢true}
use epic_poold.Client.{PowType, randomx, progpow, cuckoo, pow_type_to_str}
use epic_poold.Rpc.{
  reads_as, Try, ok, thrown, fault, JsonValues, get_array_of, at, get_string, get_uint64,
  get_json_string, get_object_member_t, get_array, get_object_member,
}
use epic_poold.Rpc
use epic_poold.Rpc.Laws.{
  Fails, Fails-then, Fails-if, ok-Fails, thrown-Fails, get_array_of-Fails, get_array_of-length,
  at-Fails, get_string-Fails, get_uint64-Fails, get_array-Fails, get_object_member_t-Fails,
  get_json_string-Fails,
}
use epic_poold.Node.Values.{block_diff_of, job_head, pow_type_of}
use epic_poold.Node.Epochs.{bind-eq-ok, ArrayAt}

same_text→≡ : (s t : List ℕ) → same_text s t ≡ true → s ≡ t
same_text→≡ [] [] e = refl
same_text→≡ [] (d ∷ t) e = absurd (false≢true e)
same_text→≡ (c ∷ s) [] e = absurd (false≢true e)
same_text→≡ (c ∷ s) (d ∷ t) e = elim (Bool-cases (c == d)) [
  | inl same ↦ ap₂ ◌∷◌ ((==_iff c d).0 same) (same_text→≡ s t (rw same at e))
  | inr other ↦ absurd (false≢true (rw other at e))
]

pow_type_of-named :
    (algo : List ℕ) (type : PowType)
    → pow_type_of algo ≡ ok type
    → c_string algo ≡ pow_type_to_str type
unfolding pow_type_of pow_type_to_str
pow_type_of-named algo type e = elim (Bool-cases (reads_as algo (codes "randomx"))) [
  | inl is ↦
      let same : randomx ≡ type = let h : ok randomx ≡ ok type = rw is at e in cc in
      same_text→≡ (c_string algo) (codes "randomx") is ∙ ap pow_type_to_str same
  | inr other ↦ elim (Bool-cases (reads_as algo (codes "progpow"))) [
    | inl is ↦
        let same : progpow ≡ type = let h : ok progpow ≡ ok type = rw (other, is) at e in cc in
        same_text→≡ (c_string algo) (codes "progpow") is ∙ ap pow_type_to_str same
    | inr other' ↦ elim (Bool-cases (reads_as algo (codes "cuckoo"))) [
      | inl is ↦
          let same : cuckoo ≡ type =
            let h : ok cuckoo ≡ ok type = rw (other, other', is) at e in cc in
          same_text→≡ (c_string algo) (codes "cuckoo") is ∙ ap pow_type_to_str same
      | inr none_is ↦ let stuck : thrown ≡ ok type = rw (other, other', none_is) at e in cc
    ]
  ]
]

pow_type_of-Fails : (broken : Type 0) (algo : List ℕ) → Fails broken (pow_type_of algo)
unfolding pow_type_of
pow_type_of-Fails broken algo =
    Fails-if broken (reads_as algo (codes "randomx")) (ok randomx) _ (ok-Fails broken _) (
      Fails-if broken (reads_as algo (codes "progpow")) (ok progpow) _ (ok-Fails broken _) (
        Fails-if broken (reads_as algo (codes "cuckoo")) (ok cuckoo) thrown (ok-Fails broken _)
          (thrown-Fails broken)))

module _ {V : Type 0} (json : JsonValues V) where
  -- A pair of a name and the value of a number.
  abbrev pub Pair : V → List ℕ → V → Type 0
  Pair v name second =
      (first : V) × (get_array_of json v 2 ≡ ok (first ∷ second ∷ []))
      × (get_string json first ≡ ok name)

  abbrev pub Other : List ℕ → V → Type 0
  Other algo v =
      (name : List ℕ) × (second : V) × Pair v name second
      × (same_text (c_string name) (c_string algo) ≡ false)

  -- The number of the last pair with the algorithm's name, or what was there before if none has it.
  abbrev pub Last : List ℕ → List V → ℕ → ℕ → Type 0
  Last algo entries before number =
      ((number ≡ before) × All (Other algo) entries)
      ⊎ ((front : List V) × (v : V) × (back : List V) × (entries ≡ front ++ v ∷ back)
          × (name : List ℕ) × (second : V) × Pair v name second
          × (same_text (c_string name) (c_string algo) ≡ true)
          × (get_uint64 json second ≡ ok number)
          × All (Other algo) back)

  Pair-of :
      (v : V) (a : List V) (first : V) (name : List ℕ)
      → get_array_of json v 2 ≡ ok a
      → at json a 0 ≡ ok first
      → get_string json first ≡ ok name
      → (second : V) × Pair v name second × (at json a 1 ≡ ok second)
  Pair-of v a first name e e' e'' = by_length a (get_array_of-length ⊥ json v 2 a e) e e'
    where
      by_length :
          (a : List V)
          → length a ≡ 2
          → get_array_of json v 2 ≡ ok a
          → at json a 0 ≡ ok first
          → (second : V) × Pair v name second × (at json a 1 ≡ ok second)
      by_length (one ∷ second ∷ []) size e e' =
          let same : one ≡ first = cc in (second, (one, e, rw same e''), refl)
      by_length [] size e e' = absurd (omega arith)
      by_length (one ∷ []) size e e' = absurd (omega arith)
      by_length (one ∷ second ∷ _ ∷ more) size e e' = absurd (omega arith)

  block_diff_of-Last :
      (algo : List ℕ) (entries : List V) (before number : ℕ)
      → block_diff_of json algo entries before ≡ ok number
      → Last algo entries before number
  unfolding block_diff_of
  block_diff_of-Last algo [] before number e =
      let same : before ≡ number = cc in inl (rw same refl, tt)
  block_diff_of-Last algo (v ∷ entries) before number e =
      let (a, array, e1) = bind-eq-ok (get_array_of json v 2) _ e in
      let (first, head, e2) = bind-eq-ok (at json a 0) _ e1 in
      let (name, text, e3) = bind-eq-ok (get_string json first) _ e2 in
      let (second, pair, tail) = Pair-of v a first name array head text in
      by_name a first name second pair tail e3
        (λ before' e'. block_diff_of-Last algo entries before' number e')
        (Bool-cases (same_text (c_string name) (c_string algo)))
    where
      by_name :
          (a : List V) (first : V) (name : List ℕ) (second : V)
          → Pair v name second
          → at json a 1 ≡ ok second
          → (if not (same_text (c_string name) (c_string algo))
              then block_diff_of json algo entries before
              else (Rpc.◌>>=◌ (at json a 1) (λ second.
                  Rpc.◌>>=◌
                    (get_uint64 json second)
                    (λ listed. block_diff_of json algo entries listed))))
            ≡ ok number
          → ((before' : ℕ)
              → block_diff_of json algo entries before' ≡ ok number
              → Last algo entries before' number)
          → (same_text (c_string name) (c_string algo) ≡ true)
            ⊎ (same_text (c_string name) (c_string algo) ≡ false)
          → Last algo (v ∷ entries) before number
      by_name a first name second pair tail e ih (inr other) = elim (ih before (rw other at e)) [
        | inl (same, others) ↦ inl (same, ((name, second, pair, other), others))
        | inr (front, w, back, split, n', s', p', same', r', others) ↦
            inr (v ∷ front, w, back, ap (λ l. v ∷ l) split, n', s', p', same', r', others)
      ]
      by_name a first name second pair tail e ih (inl named) =
          let (listed, read, e') = bind-eq-ok (get_uint64 json second) _ (rw (named, tail) at e) in
          elim (ih listed e') [
            | inl (same, others) ↦
                inr ([], v, entries, refl, name, second, pair, named, rw same read, others)
            | inr (front, w, back, split, n', s', p', same', r', others) ↦
                inr (v ∷ front, w, back, ap (λ l. v ∷ l) split, n', s', p', same', r', others)
          ]

  -- What is read up to the difficulty.
  pub record Head (garbage : ℕ) (res : V) (type : PowType) (block_diff : ℕ) : Type 0 where
    pub algo : List ℕ
    pub text : get_json_string json res (codes "algorithm") ≡ ok algo
    pub named : c_string algo ≡ pow_type_to_str type
    pub entries : List V
    pub array : ArrayAt json res (codes "block_difficulty") entries
    pub last : Last algo entries garbage block_diff

  pub job_head-Head :
      (garbage : ℕ) (res : V) (type : PowType) (block_diff : ℕ)
      → job_head json garbage res ≡ ok (type, block_diff)
      → Head garbage res type block_diff
  unfolding job_head
  job_head-Head garbage res type block_diff e =
      let (algo, text, e1) = bind-eq-ok (get_json_string json res (codes "algorithm")) _ e in
      let (type', named, e2) = bind-eq-ok (pow_type_of algo) _ e1 in
      let (member, there, e3) =
        bind-eq-ok (get_object_member_t json res (codes "block_difficulty")) _ e2 in
      let (entries, array, e4) = bind-eq-ok (get_array json member) _ e3 in
      let (listed, read, e5) = bind-eq-ok (block_diff_of json algo entries garbage) _ e4 in
      let same : type' ≡ type = cc in
      let same' : listed ≡ block_diff = cc in
      record {
        algo = algo;
        text = text;
        named = pow_type_of-named algo type (rw same at named);
        entries = entries;
        array = (member, there, array);
        last = block_diff_of-Last algo entries garbage block_diff (rw same' at read);
      }

  module _ (broken : Type 0) where
    block_diff_of-Fails :
        (algo : List ℕ) (entries : List V) (before : ℕ)
        → Fails broken (block_diff_of json algo entries before)
    unfolding block_diff_of
    block_diff_of-Fails algo [] before = ok-Fails broken _
    block_diff_of-Fails algo (v ∷ entries) before =
        Fails-then broken (get_array_of json v 2) _ (get_array_of-Fails broken json v 2) (λ a e.
          let size = get_array_of-length ⊥ json v 2 a e in
          Fails-then broken (at json a 0) _ (at-Fails broken json a 0 (omega arith)) (λ first _.
            Fails-then broken (get_string json first) _ (get_string-Fails broken json first)
              (λ name _.
                Fails-if broken (not (same_text (c_string name) (c_string algo)))
                  (block_diff_of json algo entries before) _
                  (block_diff_of-Fails algo entries before)
                  (Fails-then broken (at json a 1) _ (at-Fails broken json a 1 (omega arith))
                    (λ second _.
                      Fails-then broken (get_uint64 json second) _
                        (get_uint64-Fails broken json second)
                        (λ listed _. block_diff_of-Fails algo entries listed))))))

    pub job_head-Fails :
        (garbage : ℕ) (res : V)
        → (json.is_object res ≡ false → broken)
        → Fails broken (job_head json garbage res)
    unfolding job_head
    job_head-Fails garbage res object =
        Fails-then broken (get_json_string json res (codes "algorithm")) _
          (get_json_string-Fails broken json res object (codes "algorithm"))
          (λ algo _.
            Fails-then broken (pow_type_of algo) _ (pow_type_of-Fails broken algo) (λ type _.
              Fails-then broken (get_object_member_t json res (codes "block_difficulty")) _
                (get_object_member_t-Fails broken json res object (codes "block_difficulty"))
                (λ member _.
                  Fails-then broken (get_array json member) _ (get_array-Fails broken json member)
                    (λ entries _.
                      Fails-then broken (block_diff_of json algo entries garbage) _
                        (block_diff_of-Fails algo entries garbage)
                        (λ block_diff _. ok-Fails broken _)))))
