-- ===== src/PpHashpool/Contexts.antt =====
-- What each step of pp_hashpool.cpp does to the contexts that the threads rely on.
use mathlib.Core.Bool.{false≢true}
use epic_poold.Base.{
  ℕ, ◌≡◌, ◌≢◌, refl, sym, ◌∙◌, ap, Bool, true, false, some, List, ◌==◌, get_elem?, inl, inr, ◌⊎◌,
  Bool-cases, ==_iff, arith,
}
use epic_poold.PpHashpool.{
  invalid_epoch, Dataset, update, Thread, created, reading, hashing, writes, holds, assign,
}
use epic_poold.PpHashpool.Locks.{Alone}
use epic_poold.PpHashpool.Updates.{ContextAt, update_other, kept_context, updated}

abbrev pub NoWriter : ℕ → (ℕ → Thread) → Type 0
NoWriter i threads = (n : ℕ) → writes i (threads n) ≡ false

-- A dataset that is ready and has no writer has the context of its ready epoch.
abbrev pub Ready : List Dataset → (ℕ → Thread) → Type 0
Ready ds threads =
    (i : ℕ) (d : Dataset)
    → get_elem? ds i ≡ some d
    → NoWriter i threads
    → d.ready_epoch ≢ invalid_epoch
    → d.dataset_ptr ≡ some d.ready_epoch

forced : (b c : Bool) → (b ≡ true → c ≡ true) → c ≡ false → b ≡ false
forced true c h e = absurd (false≢true (sym e ∙ h refl))
forced false c h e = refl

pub some_injective : {d e : Dataset} → some d ≡ some e → d ≡ e
some_injective h = cc

pub by_thread :
    (threads : ℕ → Thread) (n : ℕ) (t : Thread) (m : ℕ) (P : Thread → Type 0)
    → ((m == n) ≡ false → P (threads m))
    → P t
    → P (assign threads n t m)
by_thread threads n t m P old new = elim (Bool-cases (m == n)) [
  | inl same ↦ rw same new
  | inr other ↦ rw other (old other)
]

pub before :
    (threads : ℕ → Thread) (n : ℕ) (t : Thread) (i : ℕ)
    → (writes i (threads n) ≡ true → writes i t ≡ true)
    → NoWriter i (assign threads n t)
    → NoWriter i threads
before threads n t i stays free m = elim (Bool-cases (m == n)) [
  | inl same ↦
      let here : m ≡ n = (==_iff m n).0 same in
      let calm : writes i t ≡ false = rw same at (free m) in
      rw here (forced (writes i (threads n)) (writes i t) stays calm)
  | inr other ↦ rw other at (free m)
]

pub other_context :
    (ds : List Dataset) (i j epoch : ℕ) (f : Dataset → Dataset)
    → (j == i) ≡ false
    → ContextAt ds j epoch
    → ContextAt (update ds i f) j epoch
other_context ds i j epoch f other c = record {
  dataset = c.dataset;
  in_slot = update_other ds i j f other ∙ c.in_slot;
  context = c.context;
}

-- A thread that writes nothing now.
pub calm :
    (threads : ℕ → Thread) (n : ℕ) (t u : Thread)
    → threads n ≡ t
    → ((i : ℕ) → writes i t ≡ false)
    → (i : ℕ) → writes i (threads n) ≡ true
    → writes i u ≡ true
calm threads n t u at none_written i w =
    absurd (false≢true (sym (none_written i) ∙ sym (ap (writes i) at) ∙ w))

module _ (get_epoch_number : ℕ → ℕ)
    (valid : (block : ℕ) → get_epoch_number block ≢ invalid_epoch) where
  -- What the datasets owe to the threads.
  abbrev pub Kept : List Dataset → (ℕ → Thread) → Type 0
  Kept ds threads =
      ((n i epoch : ℕ) → threads n ≡ created i epoch → ContextAt ds i epoch)
      × Ready ds threads
      × ((n i block : ℕ) → threads n ≡ hashing i block → ContextAt ds i (get_epoch_number block))

  -- A step of one thread that leaves the datasets.
  thread_step :
      (ds : List Dataset) (threads : ℕ → Thread) (n : ℕ) (t : Thread)
      → ((i : ℕ) → writes i (threads n) ≡ true → writes i t ≡ true)
      → ((i epoch : ℕ) → t ≡ created i epoch → ContextAt ds i epoch)
      → ((i block : ℕ) → t ≡ hashing i block → ContextAt ds i (get_epoch_number block))
      → Kept ds threads
      → Kept ds (assign threads n t)
  thread_step ds threads n t stays making using (made, ready, used) = (
    (λ m i epoch e.
        by_thread threads n t m (λ x. x ≡ created i epoch → ContextAt ds i epoch)
          (λ other. made m i epoch) (making i epoch) e),
    (λ i d here free valid_epoch. ready i d here (before threads n t i (stays i) free) valid_epoch),
    (λ m i block e.
        by_thread threads n t m (λ x. x ≡ hashing i block → ContextAt ds i (get_epoch_number block))
          (λ other. used m i block) (using i block) e),
  )

  -- A store that leaves the contexts, and no dataset ready that was not.
  pub store_step :
      (ds : List Dataset) (threads : ℕ → Thread) (i : ℕ) (f : Dataset → Dataset)
      → ((d : Dataset) → (f d).dataset_ptr ≡ d.dataset_ptr)
      → ((d : Dataset) → ((f d).ready_epoch ≡ invalid_epoch) ⊎ ((f d).ready_epoch ≡ d.ready_epoch))
      → Kept ds threads
      → Kept (update ds i f) threads
  store_step ds threads i f keeps readiness (made, ready, used) = (
    (λ n j epoch e. kept_context ds i j epoch f keeps (made n j epoch e)),
    (λ j d here free valid_epoch. by_old j d free valid_epoch (updated ds i j f d here)),
    (λ n j block e. kept_context ds i j (get_epoch_number block) f keeps (used n j block e)),
  )
    where
      by_old :
          (j : ℕ) (d : Dataset)
          → NoWriter j threads
          → d.ready_epoch ≢ invalid_epoch
          → ((old : Dataset) × (j ≡ i) × (get_elem? ds i ≡ some old) × (d ≡ f old))
            ⊎ (((j == i) ≡ false) × (get_elem? ds j ≡ some d))
          → d.dataset_ptr ≡ some d.ready_epoch
      by_old j d free valid_epoch (inr (other, here)) = ready j d here free valid_epoch
      by_old j d free valid_epoch (inl (old, here, h, e)) = elim (readiness old) [
        | inl cleared_now ↦ absurd (valid_epoch (ap (λ x. x.ready_epoch) e ∙ cleared_now))
        | inr same_ready ↦
            let at_j : get_elem? ds j ≡ some old = ap (get_elem? ds) here ∙ h in
            let ready_now : d.ready_epoch ≡ old.ready_epoch =
              ap (λ x. x.ready_epoch) e ∙ same_ready in
            ap (λ x. x.dataset_ptr) e
            ∙ keeps old
            ∙ ready j old at_j free (λ bad. valid_epoch (ready_now ∙ bad))
            ∙ ap some (sym ready_now)
      ]

  -- A step of a thread to where it neither makes a context nor hashes.
  pub quiet_step :
      (ds : List Dataset) (threads : ℕ → Thread) (n : ℕ) (t : Thread)
      → ((i : ℕ) → writes i (threads n) ≡ true → writes i t ≡ true)
      → ((i epoch : ℕ) → t ≢ created i epoch)
      → ((i block : ℕ) → t ≢ hashing i block)
      → Kept ds threads
      → Kept ds (assign threads n t)
  quiet_step ds threads n t stays making using =
      thread_step ds threads n t stays (λ i epoch e. absurd (making i epoch e))
        (λ i block e. absurd (using i block e))

  pub test_step :
      (ds : List Dataset) (threads : ℕ → Thread) (n i block : ℕ) (d : Dataset)
      → Alone threads
      → threads n ≡ reading i block
      → get_elem? ds i ≡ some d
      → d.ready_epoch ≡ get_epoch_number block
      → Kept ds threads
      → Kept ds (assign threads n (hashing i block))
  test_step ds threads n i block d alone at here hit kept =
      thread_step ds threads n (hashing i block)
        (calm threads n (reading i block) (hashing i block) at (λ j. refl)) (λ j e h. absurd cc)
        using kept
    where
      none_writes : NoWriter i threads
      none_writes m = elim (Bool-cases (writes i (threads m))) [
        | inl w ↦
            let meet : m ≡ n = alone i m n w (ap (holds i) at ∙ ground arith) in
            let mine : writes i (threads n) ≡ true =
              ap (λ k. writes i (threads k)) (sym meet) ∙ w in
            absurd (false≢true (sym (ap (writes i) at) ∙ mine))
        | inr none_written ↦ none_written
      ]

      made_here : ContextAt ds i (get_epoch_number block)
      made_here = record {
        dataset = d;
        in_slot = here;
        context = kept.1 i d here none_writes (λ bad. valid block (sym hit ∙ bad)) ∙ ap some hit;
      }

      using :
          (j block' : ℕ)
          → hashing i block ≡ hashing j block'
          → ContextAt ds j (get_epoch_number block')
      using j block' h =
          let slot : i ≡ j = cc in let same : block ≡ block' = cc in rw (← slot, ← same) made_here
