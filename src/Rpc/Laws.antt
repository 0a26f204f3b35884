-- ===== src/Rpc/Laws.antt =====
-- The accessors of json.h fault only on a value that is no object.
use epic_poold.Base.{
  ℕ, ◌≡◌, refl, sym, ap, ◌∙◌, ◌⊎◌, inl, inr, Bool, true, false, Option, none, some, List,
  if◌then◌else◌, length, ◌==◌, Bool-cases, ==_iff, suc, zero, [], ◌∷◌, ◌<◌, arith,
}
use epic_poold.Rpc.{
  Try, ok, thrown, fault, ◌>>=◌, or_thrown, JsonValues, get_object_member, get_object_member_t,
  get_array, get_array_of, at, get_string, get_uint, get_uint64, get_json_uint, get_json_string,
  json_strtoul,
}

abbrev pub Fails : {A : Type 0} → Type 0 → Try A → Type 0
Fails broken t = t ≡ fault → broken

module _ (broken : Type 0) where
  pub Fails-then :
      {A B : Type 0} (t : Try A) (f : A → Try B)
      → Fails broken t
      → ((a : A) → t ≡ ok a → Fails broken (f a))
      → Fails broken (t >>= f)
  Fails-then (ok a) f first next e = next a refl e
  Fails-then thrown f first next e = cc
  Fails-then fault f first next e = first refl

  pub Fails-if :
      {A : Type 0} (b : Bool) (x y : Try A)
      → Fails broken x
      → Fails broken y
      → Fails broken (if b then x else y)
  Fails-if true x y on_true on_false e = on_true e
  Fails-if false x y on_true on_false e = on_false e

  pub ok-Fails : {A : Type 0} (a : A) → Fails broken (ok a)
  ok-Fails a e = cc

  pub thrown-Fails : {A : Type 0} → Fails {A = A} broken thrown
  thrown-Fails e = cc

  pub or_thrown-Fails : {A : Type 0} (m : Option A) → Fails broken (or_thrown m)
  or_thrown-Fails none = thrown-Fails
  or_thrown-Fails (some a) = ok-Fails a

  module _ {V : Type 0} (json : JsonValues V) where
    pub get_array-Fails : (v : V) → Fails broken (get_array json v)
    unfolding get_array
    get_array-Fails v =
        Fails-if (json.is_array v) (ok (json.elements v)) thrown (ok-Fails _) thrown-Fails

    pub get_array_of-Fails : (v : V) (n : ℕ) → Fails broken (get_array_of json v n)
    unfolding get_array_of
    get_array_of-Fails v n =
        Fails-then (get_array json v) _ (get_array-Fails v)
          (λ ret e. Fails-if (length ret == n) (ok ret) thrown (ok-Fails _) thrown-Fails)

    -- The array that is given back has the length that was asked for.
    pub get_array_of-length :
        (v : V) (n : ℕ) (ret : List V) → get_array_of json v n ≡ ok ret → length ret ≡ n
    unfolding get_array_of get_array
    get_array_of-length v n ret e = by_array (Bool-cases (json.is_array v))
      where
        by_array : (json.is_array v ≡ true) ⊎ (json.is_array v ≡ false) → length ret ≡ n
        by_array (inr is_not) = let h : thrown ≡ ok ret = rw is_not at e in cc
        by_array (inl is) = elim (Bool-cases (length (json.elements v) == n)) [
          | inl same ↦
              let h : ok (json.elements v) ≡ ok ret = rw (is, same) at e in
              let given : json.elements v ≡ ret = cc in
              ap length (sym given) ∙ (==_iff (length (json.elements v)) n).0 same
          | inr other ↦ let h : thrown ≡ ok ret = rw (is, other) at e in cc
        ]

    pub at-Fails : (ret : List V) (i : ℕ) → i < length ret → Fails broken (at json ret i)
    at-Fails [] i below = absurd (omega arith)
    at-Fails (v ∷ ret) zero below = ok-Fails v
    at-Fails (v ∷ ret) (suc i) below = at-Fails ret i (omega arith)

    pub get_string-Fails : (v : V) → Fails broken (get_string json v)
    unfolding get_string
    get_string-Fails v =
        Fails-if (json.is_string v) (ok (json.get_string v)) thrown (ok-Fails _) thrown-Fails

    pub get_uint-Fails : (v : V) → Fails broken (get_uint json v)
    unfolding get_uint
    get_uint-Fails v =
        Fails-if (json.is_uint v) (ok (json.get_uint v)) thrown (ok-Fails _) thrown-Fails

    pub get_uint64-Fails : (v : V) → Fails broken (get_uint64 json v)
    unfolding get_uint64
    get_uint64-Fails v =
        Fails-if (json.is_uint64 v) (ok (json.get_uint64 v)) thrown (ok-Fails _) thrown-Fails

    module _ (obj : V) (object : json.is_object obj ≡ false → broken) (key : List ℕ) where
      pub get_object_member-Fails : Fails broken (get_object_member json obj key)
      unfolding get_object_member
      get_object_member-Fails e = elim (Bool-cases (json.is_object obj)) [
        | inl is ↦ let h : ok (json.find_member obj key) ≡ fault = rw is at e in cc
        | inr is_not ↦ object is_not
      ]

      pub get_object_member_t-Fails : Fails broken (get_object_member_t json obj key)
      unfolding get_object_member_t
      get_object_member_t-Fails =
          Fails-then (get_object_member json obj key) or_thrown get_object_member-Fails
            (λ member e. or_thrown-Fails member)

      -- A member that is there, read by its type.
      Fails-typed :
          {A : Type 0} (read : V → Try A)
          → ((v : V) → Fails broken (read v))
          → Fails broken (get_object_member json obj key >>= λ member. or_thrown member >>= read)
      Fails-typed read typed =
          Fails-then (get_object_member json obj key) _ get_object_member-Fails (λ member e.
            Fails-then (or_thrown member) read (or_thrown-Fails member) (λ v e'. typed v))

      pub get_json_uint-Fails : Fails broken (get_json_uint json obj key)
      unfolding get_json_uint json_strtoul
      get_json_uint-Fails = Fails-typed _ (λ v.
          Fails-if (json.is_uint v) (ok (json.get_uint v)) _ (ok-Fails _) (
            Fails-if (json.is_string v) (json_strtoul (json.get_string v)) thrown (ok-Fails _)
              thrown-Fails))

      pub get_json_string-Fails : Fails broken (get_json_string json obj key)
      unfolding get_json_string
      get_json_string-Fails = Fails-typed _ (λ v.
          Fails-if (json.is_string v) (ok (json.get_string v)) thrown (ok-Fails _) thrown-Fails)
