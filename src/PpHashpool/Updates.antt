-- ===== src/PpHashpool/Updates.antt =====
-- The datasets of pp_hashpool.hpp under an update of one of them.
use epic_poold.Base.{
  ℕ, zero, suc, ◌≡◌, refl, sym, ◌∙◌, ap, false, Option, none, some, List, [], ◌∷◌, ◌==◌, get_elem?,
  inl, inr, ◌⊎◌, Bool-cases, ==_iff, arith,
}
use epic_poold.PpHashpool.{Dataset, update}

-- The dataset in a slot has the context of an epoch.
pub record ContextAt (ds : List Dataset) (i epoch : ℕ) : Type 0 where
  pub dataset : Dataset
  pub in_slot : get_elem? ds i ≡ some dataset
  pub context : dataset.dataset_ptr ≡ some epoch

pub update_at :
    (ds : List Dataset) (i : ℕ) (f : Dataset → Dataset) {d : Dataset}
    → get_elem? ds i ≡ some d
    → get_elem? (update ds i f) i ≡ some (f d)
unfolding update
update_at [] i f e = absurd cc
update_at (x ∷ ds) zero f e = let same : x ≡ _ = cc in ap (λ d. some (f d)) same
update_at (x ∷ ds) (suc i) f e = update_at ds i f e

pub update_other :
    (ds : List Dataset) (i j : ℕ) (f : Dataset → Dataset)
    → (j == i) ≡ false
    → get_elem? (update ds i f) j ≡ get_elem? ds j
unfolding update
update_other [] i j f e = refl
update_other (x ∷ ds) zero zero f e = absurd (ground arith)
update_other (x ∷ ds) zero (suc j) f e = refl
update_other (x ∷ ds) (suc i) zero f e = refl
update_other (x ∷ ds) (suc i) (suc j) f e = update_other ds i j f (ground arith)

update-none :
    (ds : List Dataset) (i : ℕ) (f : Dataset → Dataset)
    → get_elem? ds i ≡ none
    → get_elem? (update ds i f) i ≡ none
unfolding update
update-none [] i f e = refl
update-none (x ∷ ds) zero f e = absurd cc
update-none (x ∷ ds) (suc i) f e = update-none ds i f e

none-some : {d : Dataset} → none ≡ some d → ⊥
none-some e = cc

-- An update that leaves the contexts alone.
pub kept_context :
    (ds : List Dataset) (i j epoch : ℕ) (f : Dataset → Dataset)
    → ((d : Dataset) → (f d).dataset_ptr ≡ d.dataset_ptr)
    → ContextAt ds j epoch
    → ContextAt (update ds i f) j epoch
kept_context ds i j epoch f keeps c = elim (Bool-cases (j == i)) [
  | inl same ↦
      let here : j ≡ i = (==_iff j i).0 same in
      let at_i : get_elem? ds i ≡ some c.dataset = rw here at c.in_slot in
      rw here (record {
        dataset = f c.dataset;
        in_slot = update_at ds i f at_i;
        context = keeps c.dataset ∙ c.context;
      })
  | inr other ↦ record {
    dataset = c.dataset;
    in_slot = update_other ds i j f other ∙ c.in_slot;
    context = c.context;
  }
]

-- A dataset after an update is the updated one, or an old one.
pub updated :
    (ds : List Dataset) (i j : ℕ) (f : Dataset → Dataset) (d : Dataset)
    → get_elem? (update ds i f) j ≡ some d
    → ((old : Dataset) × (j ≡ i) × (get_elem? ds i ≡ some old) × (d ≡ f old))
      ⊎ (((j == i) ≡ false) × (get_elem? ds j ≡ some d))
updated ds i j f d e = elim (Bool-cases (j == i)) [
  | inl same ↦
      let here : j ≡ i = (==_iff j i).0 same in by_old (get_elem? ds i) refl here (rw here at e)
  | inr other ↦ inr (other, sym (update_other ds i j f other) ∙ e)
]
  where
    by_old :
        (o : Option Dataset)
        → get_elem? ds i ≡ o
        → j ≡ i
        → get_elem? (update ds i f) i ≡ some d
        → ((old : Dataset) × (j ≡ i) × (get_elem? ds i ≡ some old) × (d ≡ f old))
          ⊎ (((j == i) ≡ false) × (get_elem? ds j ≡ some d))
    by_old none h here e' = absurd (none-some (sym (update-none ds i f h) ∙ e'))
    by_old (some old) h here e' =
        let now : some (f old) ≡ some d = sym (update_at ds i f h) ∙ e' in inl (old, here, h, cc)
