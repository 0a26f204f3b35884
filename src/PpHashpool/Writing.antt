-- ===== src/PpHashpool/Writing.antt =====
-- The stores of dataset_thd_main in pp_hashpool.cpp: the context, and the epoch that is then ready.
use mathlib.Core.Bool.{false≢true}
use epic_poold.Base.{
  ℕ, ◌≡◌, ◌≢◌, refl, sym, ◌∙◌, ap, true, false, some, List, ◌==◌, get_elem?, inl, inr, ◌⊎◌,
  Bool-cases, arith,
}
use epic_poold.PpHashpool.{
  invalid_epoch, Dataset, update, Thread, over, locked, created, hashing, writes, holds, assign,
}
use epic_poold.PpHashpool.Locks.{Alone}
use epic_poold.PpHashpool.Updates.{ContextAt, update_at, update_other, kept_context, updated}
use epic_poold.PpHashpool.Contexts.{
  NoWriter, Kept, by_thread, before, other_context, some_injective,
}

module _ (get_epoch_number : ℕ → ℕ)
    (valid : (block : ℕ) → get_epoch_number block ≢ invalid_epoch) where
  pub create_step :
      (ds : List Dataset) (threads : ℕ → Thread) (n i : ℕ) (d : Dataset)
      → Alone threads
      → threads n ≡ locked i
      → get_elem? ds i ≡ some d
      → Kept get_epoch_number valid ds threads
      → Kept get_epoch_number valid
          (update ds i (λ x. record x { dataset_ptr = some d.loaded_epoch }))
          (assign threads n (created i d.loaded_epoch))
  create_step ds threads n i d alone at here (made, ready, used) = (
    (λ m j epoch.
        by_thread threads n mine m (λ x. x ≡ created j epoch → ContextAt ds' j epoch)
          (λ other e.
            elsewhere m j epoch other (λ same. holder_created m j epoch e same) (made m j epoch e))
          (fresh_one j epoch)),
    (λ j d' here' free valid_epoch. by_slot j d' here' free valid_epoch (Bool-cases (j == i))),
    (λ m j block.
        by_thread threads n mine m
          (λ x. x ≡ hashing j block → ContextAt ds' j (get_epoch_number block))
          (λ other e.
            elsewhere m j (get_epoch_number block) other (λ same. holder_hashing m j block e same)
              (used m j block e))
          (λ e. absurd cc)),
  )
    where
      mine : Thread
      mine = created i d.loaded_epoch

      ds' : List Dataset
      ds' = update ds i (λ x. record x { dataset_ptr = some d.loaded_epoch })

      writing : writes i (threads n) ≡ true
      writing = ap (writes i) at ∙ ground arith

      fresh_one : (j epoch : ℕ) → mine ≡ created j epoch → ContextAt ds' j epoch
      fresh_one j epoch e =
          let slot : i ≡ j = cc in
          let name : d.loaded_epoch ≡ epoch = cc in
          rw (← slot) (record {
            dataset = record d { dataset_ptr = some d.loaded_epoch };
            in_slot = update_at ds i _ here;
            context = ap some name;
          })

      holder_created :
          (m j epoch : ℕ)
          → threads m ≡ created j epoch
          → (j == i) ≡ true
          → holds i (threads m) ≡ true
      holder_created m j epoch e same = ap (holds i) e ∙ ground arith

      holder_hashing :
          (m j block : ℕ)
          → threads m ≡ hashing j block
          → (j == i) ≡ true
          → holds i (threads m) ≡ true
      holder_hashing m j block e same = ap (holds i) e ∙ ground arith

      elsewhere :
          (m j epoch : ℕ)
          → (m == n) ≡ false
          → ((j == i) ≡ true → holds i (threads m) ≡ true)
          → ContextAt ds j epoch
          → ContextAt ds' j epoch
      elsewhere m j epoch other held c = elim (Bool-cases (j == i)) [
        | inl same ↦ let meet = alone i n m writing (held same) in absurd (ground arith)
        | inr apart ↦ other_context ds i j epoch _ apart c
      ]

      by_slot :
          (j : ℕ) (d' : Dataset)
          → get_elem? ds' j ≡ some d'
          → NoWriter j (assign threads n mine)
          → d'.ready_epoch ≢ invalid_epoch
          → ((j == i) ≡ true) ⊎ ((j == i) ≡ false)
          → d'.dataset_ptr ≡ some d'.ready_epoch
      by_slot j d' here' free valid_epoch (inl same) =
          let self : (n == n) ≡ true = ground arith in
          let calm : (j == i) ≡ false = rw self at (free n) in absurd (false≢true (sym calm ∙ same))
      by_slot j d' here' free valid_epoch (inr apart) =
          ready j d' (sym (update_other ds i j _ apart) ∙ here')
            (before threads n mine j (λ w. sym (ap (writes j) at) ∙ w) free) valid_epoch

  pub publish_step :
      (ds : List Dataset) (threads : ℕ → Thread) (n i epoch : ℕ)
      → threads n ≡ created i epoch
      → Kept get_epoch_number valid ds threads
      → Kept get_epoch_number valid
          (update ds i (λ x. record x { ready_epoch = epoch }))
          (assign threads n over)
  publish_step ds threads n i epoch at (made, ready, used) = (
    (λ m j e.
        by_thread threads n over m (λ x. x ≡ created j e → ContextAt ds' j e)
          (λ other h. kept_context ds i j e f (λ x. refl) (made m j e h)) (λ h. absurd cc)),
    (λ j d here free valid_epoch. by_slot j d free valid_epoch (updated ds i j f d here)),
    (λ m j block.
        by_thread threads n over m
          (λ x. x ≡ hashing j block → ContextAt ds' j (get_epoch_number block))
          (λ other h. kept_context ds i j (get_epoch_number block) f (λ x. refl) (used m j block h))
          (λ h. absurd cc)),
  )
    where
      f : Dataset → Dataset
      f x = record x { ready_epoch = epoch }

      ds' : List Dataset
      ds' = update ds i f

      by_slot :
          (j : ℕ) (d : Dataset)
          → NoWriter j (assign threads n over)
          → d.ready_epoch ≢ invalid_epoch
          → ((old : Dataset) × (j ≡ i) × (get_elem? ds i ≡ some old) × (d ≡ f old))
            ⊎ (((j == i) ≡ false) × (get_elem? ds j ≡ some d))
          → d.dataset_ptr ≡ some d.ready_epoch
      by_slot j d free valid_epoch (inl (old, here, h, e)) =
          let c = made n i epoch at in
          let same : old ≡ c.dataset = some_injective (sym h ∙ c.in_slot) in
          ap (λ x. x.dataset_ptr) e
          ∙ ap (λ x. x.dataset_ptr) same
          ∙ c.context
          ∙ ap (λ x. some x.ready_epoch) (sym e)
      by_slot j d free valid_epoch (inr (apart, here)) =
          ready j d here
            (before threads n over j
              (λ w. absurd (false≢true (sym apart ∙ sym (ap (writes j) at) ∙ w))) free)
            valid_epoch
