-- ===== src/Node/Epochs.antt =====
-- node.cpp, the epochs of a job: their bounds and their seeds, and what they are to a height.
use mathlib.Core.List.{Mem}
use epic_poold.Base.{
  ℕ, ◌%◌, ◌≤◌, ◌<◌, ◌≡◌, refl, ◌∙◌, ◌⊎◌, inl, inr, Bool, List, [], ◌∷◌, arith, leb, length, All,
  Bool-cases,
}
use epic_poold.Codec.Spec.{IsByte}
use epic_poold.Vector32.{V32, IsVector}
use epic_poold.Client.{JobData}
use epic_poold.Rpc.{
  Try, ok, thrown, fault, JsonValues, get_array_of, get_uint, at, or_fault, get_object_member_t,
  get_array,
}
use epic_poold.Rpc
use epic_poold.Rpc.Laws.{
  Fails, Fails-then, Fails-if, ok-Fails, thrown-Fails, get_array_of-Fails, get_array_of-length,
  get_uint-Fails,
}
use epic_poold.Node.Values.{int_array_to_vector, bytes_of, epoch_bounds}

pub bind-eq-ok :
    {A B : Type 0} (t : Try A) (f : A → Try B) {b : B}
    → Rpc.◌>>=◌ t f ≡ ok b
    → (a : A) × (t ≡ ok a) × (f a ≡ ok b)
bind-eq-ok (ok a) f e = (a, refl, e)
bind-eq-ok thrown f e = cc
bind-eq-ok fault f e = cc

module _ {V : Type 0} (json : JsonValues V) where
  bytes_of-IsByte :
      (entries : List V) (bytes : List ℕ)
      → bytes_of json entries ≡ ok bytes
      → (length bytes ≡ length entries) × All IsByte bytes
  unfolding bytes_of
  bytes_of-IsByte [] bytes e = let nil : [] ≡ bytes = cc in rw (← nil) (refl, tt)
  bytes_of-IsByte (entry ∷ entries) bytes e =
      let (v, read, e') = bind-eq-ok (get_uint json entry) _ e in
      elim (Bool-cases (leb 256 v)) [
        | inl big ↦ let h : thrown ≡ ok bytes = rw big at e' in cc
        | inr small ↦
            let (rest, later, e'') = bind-eq-ok (bytes_of json entries) _ (rw small at e') in
            let whole : (v % 256 ∷ rest) ≡ bytes = cc in
            let (measured, all_small) = bytes_of-IsByte entries rest later in
            rw (← whole) (omega arith, (omega arith, all_small))
      ]

  bytes_of-Fails : (broken : Type 0) (entries : List V) → Fails broken (bytes_of json entries)
  unfolding bytes_of
  bytes_of-Fails broken [] = ok-Fails broken _
  bytes_of-Fails broken (entry ∷ entries) =
      Fails-then broken (get_uint json entry) _ (get_uint-Fails broken json entry) (λ v e.
        Fails-if broken (leb 256 v) thrown _ (thrown-Fails broken) (
          Fails-then broken (bytes_of json entries) _ (bytes_of-Fails broken entries)
            (λ bytes e'. ok-Fails broken _)))

  pub int_array_to_vector-Fails :
      (broken : Type 0) (v : V) → Fails broken (int_array_to_vector json v)
  unfolding int_array_to_vector
  int_array_to_vector-Fails broken v =
      Fails-then broken (get_array_of json v 32) _ (get_array_of-Fails broken json v 32)
        (λ entries e.
          Fails-then broken (bytes_of json entries) _ (bytes_of-Fails broken entries)
            (λ bytes e'. ok-Fails broken _))

  -- What is read from an array is a vector.
  pub int_array_to_vector-IsVector :
      (v : V) (seed : V32) → int_array_to_vector json v ≡ ok seed → IsVector seed
  unfolding int_array_to_vector
  int_array_to_vector-IsVector v seed e =
      let (entries, array, e') = bind-eq-ok (get_array_of json v 32) _ e in
      let (bytes, read, e'') = bind-eq-ok (bytes_of json entries) _ e' in
      let (measured, small) = bytes_of-IsByte entries bytes read in
      let whole : record { bytes = bytes } ≡ seed = cc in
      rw (← whole) (measured ∙ get_array_of-length ⊥ json v 32 entries array, small)

  -- The values of an epoch.
  bounds_of : List V → Try (ℕ × ℕ × V)
  bounds_of ret = Rpc.◌>>=◌ (at json ret 0) (λ first. Rpc.◌>>=◌ (get_uint json first) (λ real_start.
      Rpc.◌>>=◌ (at json ret 1) (λ second.
        Rpc.◌>>=◌ (get_uint json second)
          (λ real_end. Rpc.◌>>=◌ (at json ret 2) (λ third. ok (real_start, real_end, third))))))

  pub epoch_bounds-Fails : (broken : Type 0) (epoch : V) → Fails broken (epoch_bounds json epoch)
  unfolding epoch_bounds bounds_of
  epoch_bounds-Fails broken epoch =
      Fails-then broken (get_array_of json epoch 3) _ (get_array_of-Fails broken json epoch 3)
        (λ ret e. of_three ret (get_array_of-length ⊥ json epoch 3 ret e))
    where
      of_three : (ret : List V) → length ret ≡ 3 → Fails broken (bounds_of ret)
      of_three (first ∷ second ∷ third ∷ []) e =
          Fails-then broken (get_uint json first) _ (get_uint-Fails broken json first) (λ start _.
            Fails-then broken (get_uint json second) _ (get_uint-Fails broken json second)
              (λ stop _. ok-Fails broken _))
      of_three [] e = absurd (omega arith)
      of_three (first ∷ []) e = absurd (omega arith)
      of_three (first ∷ second ∷ []) e = absurd (omega arith)
      of_three (first ∷ second ∷ third ∷ _ ∷ more) e = absurd (omega arith)

  pub bounds-read :
      (epoch : V) (start stop : ℕ) (arr_v : V)
      → epoch_bounds json epoch ≡ ok (start, stop, arr_v)
      → (second : V) × (get_uint json second ≡ ok stop)
  unfolding epoch_bounds
  bounds-read epoch start stop arr_v e =
      let (ret, _, e1) = bind-eq-ok (get_array_of json epoch 3) _ e in
      let (first, _, e2) = bind-eq-ok (at json ret 0) _ e1 in
      let (start', _, e3) = bind-eq-ok (get_uint json first) _ e2 in
      let (second, _, e4) = bind-eq-ok (at json ret 1) _ e3 in
      let (stop', read, e5) = bind-eq-ok (get_uint json second) _ e4 in
      let (third, _, e6) = bind-eq-ok (at json ret 2) _ e5 in
      let same : stop' ≡ stop = cc in (second, rw same at read)

  -- An array under a key.
  abbrev pub ArrayAt : V → List ℕ → List V → Type 0
  ArrayAt res key entries =
      (member : V) × (get_object_member_t json res key ≡ ok member)
      × (get_array json member ≡ ok entries)

  -- A seed that an epoch of the height names.
  pub record Own (height : ℕ) (epochs : List V) (seed : V32) : Type 0 where
    pub epoch : V
    pub listed : Mem epoch epochs
    pub start : ℕ
    pub stop : ℕ
    pub arr_v : V
    pub bounds : epoch_bounds json epoch ≡ ok (start, stop, arr_v)
    pub above : start < height
    pub below : height ≤ stop
    pub read : int_array_to_vector json arr_v ≡ ok seed

  -- What epochs do to the seeds of a job; `own` and `own'` tell before and after them whether one of
  -- the height was found.
  pub record Seeded (height : ℕ) (epochs : List V) (own own' : Bool) (job job' : JobData)
      : Type 0 where
    pub rest : job' ≡ record job { rx_seed = job'.rx_seed; rx_next_seed = job'.rx_next_seed }
    pub vectors :
        IsVector job.rx_seed
        → IsVector job.rx_next_seed
        → IsVector job'.rx_seed × IsVector job'.rx_next_seed
    pub found : ((job'.rx_seed ≡ job.rx_seed) × (own' ≡ own)) ⊎ Own height epochs job'.rx_seed
