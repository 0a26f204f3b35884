-- ===== src/Node/Seeds.antt =====
-- node.cpp, the epochs of a job: the seeds that they leave in the new element.
use mathlib.Core.List.{Mem, mem-cons_self, mem-cons_of_mem}
use epic_poold.Base.{
  ℕ, ◌+◌, ◌%◌, ◌^◌, ◌≤◌, ◌<◌, ◌≡◌, refl, ap, ◌∙◌, ◌⊎◌, inl, inr, Bool, true, false, not, ◌||◌, ◌&&◌,
  List, [], ◌∷◌, arith, ltb, leb, ◌==◌, if◌then◌else◌, length, Bool-cases, codes,
}
use mathlib.Core.Bool.{or-false}
use epic_poold.Vector32.{V32, get_id}
use epic_poold.Client.{JobData}
use epic_poold.Rpc.{Try, ok, thrown, JsonValues, get_uint, get_object_member_t, get_array}
use epic_poold.Rpc.Laws.{get_array-Fails, get_object_member_t-Fails}
use epic_poold.Node.{Node, Services, edit_back, edit_job}
use epic_poold.Node.Values.{int_array_to_vector, epoch_bounds}
use epic_poold.Node.Template.{
  ensure_dataset, store_seed, place_epoch, read_epoch, read_epochs, some_epochs, load_seeds,
}
use epic_poold.Node.Run.{Ends, Ends-then, Ends-lift, Ends-map, pure, lift, ◌>>=◌, ◌>>◌}
use epic_poold.Node.Epochs.{
  Own, Seeded, ArrayAt, int_array_to_vector-Fails, int_array_to_vector-IsVector, epoch_bounds-Fails,
  bounds-read,
}

-- The node while it fills the element that it added to the jobs it had before.
pub record Filling {E : Type 0} (n : Node E) (job : JobData) (n' : Node E) : Type 0 where
  pub jobs : n'.jobs ≡ record { place = n.places; job = job } ∷ n.jobs
  pub places : n'.places ≡ n.places + 1
  pub current : n'.current_job ≡ n.current_job

-- Whatever the element holds.
abbrev pub Left : {E : Type 0} → Node E → Node E → Type 0
Left n n' = (job : JobData) × Filling n job n'

pub edit_job-Filling :
    {E : Type 0} (n n' : Node E) (job : JobData) (f : JobData → JobData)
    → Filling n job n'
    → Filling n (f job) (record n' { jobs = edit_back f n'.jobs })
unfolding edit_back
edit_job-Filling n n' job f h = record {
  jobs = ap (edit_back f) h.jobs;
  places = h.places;
  current = h.current;
}

module _ {V : Type 0} (json : JsonValues V) where
  module _ {E : Type 0} (services : Services E) (n : Node E) (broken : Type 0)
      (uint_small : (v : V) (k : ℕ) → get_uint json v ≡ ok k → k < 2 ^ 32) where
    ensured :
        (seed : V32) (job : JobData) (n' : Node E)
        → Filling n job n'
        → Filling n job (ensure_dataset services json seed n').1
    unfolding ensure_dataset
    ensured seed job n' h = elim (Bool-cases (services.has_dataset n'.world (get_id seed))) [
      | inl has ↦ rw has h
      | inr has_not ↦ rw has_not (record { jobs = h.jobs; places = h.places; current = h.current })
    ]

    store_seed-Filling :
        (store : V32 → JobData → JobData) (arr_v : V) (job : JobData) (n' : Node E)
        → Filling n job n'
        → Ends broken
            (λ done n''.
              (seed : V32) × (int_array_to_vector json arr_v ≡ ok seed)
              × Filling n (store seed job) n'')
            (Left n)
            (store_seed services json store arr_v n')
    unfolding store_seed ensure_dataset
    store_seed-Filling store arr_v job n' h =
        Ends-lift broken
          (λ (done : Unit) n''.
            (seed : V32) × (int_array_to_vector json arr_v ≡ ok seed)
            × Filling n (store seed job) n'')
          (Left n) (int_array_to_vector json arr_v)
          (λ seed. edit_job (store seed) >> ensure_dataset services json seed) n'
          (λ seed e.
            (seed, e, ensured seed (store seed job) _ (edit_job-Filling n n' job (store seed) h)))
          (λ e. (job, h)) (int_array_to_vector-Fails json broken arr_v)

    -- What an epoch leaves.
    abbrev After : ℕ → List V → Bool → JobData → Bool → Node E → Type 0
    After height epochs own job own' n'' =
        (job' : JobData) × Filling n job' n'' × Seeded json height epochs own own' job job'

    module _ (height : ℕ) (all : List V) (epoch : V) (listed : Mem epoch all) (job : JobData)
        (n' : Node E) (h : Filling n job n') (start stop : ℕ) (seed : V)
        (e : epoch_bounds json epoch ≡ ok (start, stop, seed)) where
      abbrev Placed : Try Bool × Node E → Type 0
      Placed = Ends broken (After height all false job) (Left n)

      own_seed :
          start < height
          → height ≤ stop
          → Placed (
              (store_seed services json (λ seed job. record job { rx_seed = seed }) seed
                  >> pure true)
                n')
      own_seed above below =
          Ends-then broken (After height all false job) (Left n)
            (λ done n''.
              (found : V32) × (int_array_to_vector json seed ≡ ok found)
              × Filling n (record job { rx_seed = found }) n'')
            (store_seed services json (λ seed job. record job { rx_seed = seed }) seed)
            (λ done. pure true) n' (store_seed-Filling _ seed job n' h)
            (λ done n'' (found, read, filling). (
              record job { rx_seed = found },
              filling,
              record {
                rest = refl;
                vectors =
                    λ first second. (int_array_to_vector-IsVector json seed found read, second);
                found = inr (record {
                  epoch = epoch;
                  listed = listed;
                  start = start;
                  stop = stop;
                  arr_v = seed;
                  bounds = e;
                  above = above;
                  below = below;
                  read = read;
                });
              },
            ))

      next_seed : Placed (
          (store_seed services json (λ seed job. record job { rx_next_seed = seed }) seed
              >> pure false)
            n')
      next_seed =
          Ends-then broken (After height all false job) (Left n)
            (λ done n''.
              (found : V32) × (int_array_to_vector json seed ≡ ok found)
              × Filling n (record job { rx_next_seed = found }) n'')
            (store_seed services json (λ seed job. record job { rx_next_seed = seed }) seed)
            (λ done. pure false) n' (store_seed-Filling _ seed job n' h)
            (λ done n'' (found, read, filling). (
              record job { rx_next_seed = found },
              filling,
              record {
                rest = refl;
                vectors =
                    λ first second. (first, int_array_to_vector-IsVector json seed found read);
                found = inl (refl, refl);
              },
            ))

      placed : Placed (place_epoch services json height (start, stop, seed) n')
      unfolding place_epoch
      placed = elim (Bool-cases (stop == 0 || leb stop start)) [
        | inl bad ↦ rw bad (job, h)
        | inr sane ↦ elim (Bool-cases (leb ((start + 1) % 2 ^ 32) height && leb height stop)) [
          | inl own ↦
              rw (sane, own) (own_seed (ground (arith, stop_small)) (ground (arith, stop_small)))
          | inr other ↦ elim (Bool-cases (ltb height ((start + 1) % 2 ^ 32))) [
            | inl later ↦ rw (sane, other, later) next_seed
            | inr past ↦ rw (sane, other, past) (job, h)
          ]
        ]
      ]
        where
          stop_small : stop < 2 ^ 32
          stop_small =
              let (second, read) = bounds-read json epoch start stop seed e in
              uint_small second stop read

    read_epoch-Seeded :
        (height : ℕ) (all : List V) (epoch : V)
        → Mem epoch all
        → (job : JobData) (n' : Node E) → Filling n job n'
        → Ends broken
            (After height all false job)
            (Left n)
            (read_epoch services json height epoch n')
    unfolding read_epoch
    read_epoch-Seeded height all epoch listed job n' h =
        Ends-lift broken (After height all false job) (Left n) (epoch_bounds json epoch)
          (place_epoch services json height) n'
          (λ (start, real_end, seed) e.
            placed height all epoch listed job n' h start real_end seed e)
          (λ e. (job, h)) (epoch_bounds-Fails json broken epoch)

    abbrev with_seeds : V32 → V32 → JobData → JobData
    with_seeds seed next job = record job { rx_seed = seed; rx_next_seed = next }

    found_then :
        (height : ℕ) (all : List V) (own mine own' : Bool) (seed seed' seed'' : V32)
        → ((seed' ≡ seed) × (mine ≡ false)) ⊎ Own json height all seed'
        → ((seed'' ≡ seed') × (own' ≡ (own || mine))) ⊎ Own json height all seed''
        → ((seed'' ≡ seed) × (own' ≡ own)) ⊎ Own json height all seed''
    found_then height all own mine own' seed seed' seed'' first (inr found) = inr found
    found_then height all own mine own' seed seed' seed'' (inr found) (inl (e, _)) =
        inr (rw e found)
    found_then height all own mine own' seed seed' seed'' (inl (e, none_yet)) (inl (e', flag)) =
        inl (e' ∙ e, flag ∙ ap (λ b. own || b) none_yet ∙ or-false own)

    Seeded-then :
        (height : ℕ) (all : List V) (own mine own' : Bool) (job job' job'' : JobData)
        → Seeded json height all false mine job job'
        → Seeded json height all (own || mine) own' job' job''
        → Seeded json height all own own' job job''
    Seeded-then height all own mine own' job job' job'' first second = record {
      rest = second.rest ∙ ap (with_seeds job''.rx_seed job''.rx_next_seed) first.rest;
      vectors = λ a b. let (a', b') = first.vectors a b in second.vectors a' b';
      found =
          found_then height all own mine own' job.rx_seed job'.rx_seed job''.rx_seed first.found
            second.found;
    }

    read_epochs-Seeded :
        (height : ℕ) (all epochs : List V)
        → ((epoch : V) → Mem epoch epochs → Mem epoch all)
        → (own : Bool) (job : JobData) (n' : Node E) → Filling n job n'
        → Ends broken
            (After height all own job)
            (Left n)
            (read_epochs services json height epochs own n')
    unfolding read_epochs
    read_epochs-Seeded height all [] listed own job n' h =
        (job, h, record { rest = refl; vectors = λ a b. (a, b); found = inl (refl, refl) })
    read_epochs-Seeded height all (epoch ∷ epochs) listed own job n' h =
        Ends-then broken (After height all own job) (Left n) (After height all false job)
          (read_epoch services json height epoch)
          (λ mine. read_epochs services json height epochs (own || mine)) n'
          (read_epoch-Seeded height all epoch (listed epoch mem-cons_self) job n' h)
          (λ mine n'' (job', h', first).
            Ends-map broken (After height all (own || mine) job') (After height all own job)
              (Left n)
              (λ own' s (job'', h'', second).
                (job'', h'', Seeded-then height all own mine own' job job' job'' first second))
              _
              (read_epochs-Seeded height all epochs (λ e m. listed e (mem-cons_of_mem epoch m))
                (own || mine) job' n'' h'))

    -- What the epochs of a job leave.
    abbrev pub SeedsLoaded : ℕ → V → JobData → Node E → Type 0
    SeedsLoaded height res job n'' =
        (epochs : List V) × ArrayAt json res (codes "epochs") epochs
        × (job' : JobData) × Filling n job' n''
        × Seeded json height epochs false true job job'

    some_epochs-Seeded :
        (height : ℕ) (epochs : List V) (job : JobData) (n' : Node E)
        → Filling n job n'
        → Ends broken
            (λ done. After height epochs false job true)
            (Left n)
            (some_epochs services json height epochs n')
    unfolding some_epochs
    some_epochs-Seeded height epochs job n' h =
        elim (Bool-cases (not (length epochs == 1) && not (length epochs == 2))) [
          | inl bad ↦ rw bad (job, h)
          | inr fine ↦ rw fine (
              Ends-then broken (λ done. After height epochs false job true) (Left n)
                (After height epochs false job) (read_epochs services json height epochs false)
                (λ own. if own then pure tt else lift thrown) n'
                (read_epochs-Seeded height epochs epochs (λ e m. m) false job n' h) by_own)
        ]
      where
        by_own :
            (own : Bool) (n'' : Node E)
            → After height epochs false job own n''
            → Ends broken
                (λ (done : Unit). After height epochs false job true)
                (Left n)
                ((if own then pure tt else lift thrown) n'')
        by_own true n'' after = after
        by_own false n'' (job', h', seeded) = (job', h')

    pub load_seeds-Seeded :
        (height : ℕ) (res : V)
        → (json.is_object res ≡ false → broken)
        → (job : JobData) (n' : Node E) → Filling n job n'
        → Ends broken
            (λ done. SeedsLoaded height res job)
            (Left n)
            (load_seeds services json height res n')
    unfolding load_seeds
    load_seeds-Seeded height res object job n' h =
        Ends-lift broken (λ done. SeedsLoaded height res job) (Left n)
          (get_object_member_t json res (codes "epochs"))
          (λ member. lift (get_array json member) >>= some_epochs services json height) n'
          (λ member e.
            Ends-lift broken (λ done. SeedsLoaded height res job) (Left n) (get_array json member)
              (some_epochs services json height) n'
              (λ epochs e'.
                Ends-map broken (λ (done : Unit). After height epochs false job true)
                  (λ done. SeedsLoaded height res job) (Left n)
                  (λ done n'' (job', h', seeded). (epochs, (member, e, e'), job', h', seeded)) _
                  (some_epochs-Seeded height epochs job n' h))
              (λ e'. (job, h)) (get_array-Fails broken json member))
          (λ e. (job, h)) (get_object_member_t-Fails broken json res object (codes "epochs"))
