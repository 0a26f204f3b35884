-- ===== src/Node/Run.antt =====
-- How the node runs, for node.cpp: a state that an exception leaves as it is, and what holds at the
-- end of a run.
use epic_poold.Base.{◌≡◌, refl}
use epic_poold.Rpc.{Try, ok, thrown, fault}

abbrev pub Step : Type 0 → Type 0 → Type 0
Step S A = S → Try A × S

module _ {S : Type 0} where
  abbrev pub pure : {A : Type 0} → A → Step S A
  pure a s = (ok a, s)

  abbrev pub lift : {A : Type 0} → Try A → Step S A
  lift t s = (t, s)

  abbrev pub modify : (S → S) → Step S Unit
  modify f s = (ok tt, f s)

  abbrev pub gets : {A : Type 0} → (S → A) → Step S A
  gets f s = (ok (f s), s)

infixl 5 ◌>>=◌ ◌>>◌
abbrev pub ◌>>=◌ : {S A B : Type 0} → Step S A → (A → Step S B) → Step S B
◌>>=◌ m f s =
    let (t, s') = m s in elim t [ ok a ↦ f a s' | thrown ↦ (thrown, s') | fault ↦ (fault, s') ]

abbrev pub ◌>>◌ : {S A B : Type 0} → Step S A → Step S B → Step S B
m >> k = m >>= λ _. k

-- The end of a run: what holds of its value and state, of the state when it throws, and when it
-- faults, which is impossible if `broken` is empty.
abbrev pub Ends : {S A : Type 0} → Type 0 → (A → S → Type 0) → (S → Type 0) → Try A × S → Type 0
Ends broken holds left (ok a, s) = holds a s
Ends broken holds left (thrown, s) = left s
Ends broken holds left (fault, s) = broken

module _ {S A B : Type 0} (broken : Type 0) (holds : B → S → Type 0) (left : S → Type 0) where
  -- A run that goes on after one whose end is known.
  pub Ends-then :
      (held : A → S → Type 0) (m : Step S A) (f : A → Step S B) (s : S)
      → Ends broken held left (m s)
      → ((a : A) (s' : S) → held a s' → Ends broken holds left (f a s'))
      → Ends broken holds left ((m >>= f) s)
  Ends-then held m f s first next = by_end (m s) first
    where
      by_end :
          (r : Try A × S)
          → Ends broken held left r
          → Ends broken holds left (
              let (t, s') = r in
              elim t [ ok a ↦ f a s' | thrown ↦ (thrown, s') | fault ↦ (fault, s') ])
      by_end (ok a, s') h = next a s' h
      by_end (thrown, s') h = h
      by_end (fault, s') h = h

  -- A run that goes on after an accessor.
  pub Ends-lift :
      (t : Try A) (f : A → Step S B) (s : S)
      → ((a : A) → t ≡ ok a → Ends broken holds left (f a s))
      → (t ≡ thrown → left s)
      → (t ≡ fault → broken)
      → Ends broken holds left ((lift t >>= f) s)
  Ends-lift (ok a) f s next stop safe = next a refl
  Ends-lift thrown f s next stop safe = stop refl
  Ends-lift fault f s next stop safe = safe refl

pub Ends-map :
    {S A : Type 0} (broken : Type 0) (held holds : A → S → Type 0) (left : S → Type 0)
    → ((a : A) (s : S) → held a s → holds a s)
    → (r : Try A × S) → Ends broken held left r
    → Ends broken holds left r
Ends-map broken held holds left weaker (ok a, s) h = weaker a s h
Ends-map broken held holds left weaker (thrown, s) h = h
Ends-map broken held holds left weaker (fault, s) h = h

pub Ends-left :
    {S A : Type 0} (broken : Type 0) (holds : A → S → Type 0) (left left' : S → Type 0)
    → ((s : S) → left s → left' s)
    → (r : Try A × S) → Ends broken holds left r
    → Ends broken holds left' r
Ends-left broken holds left left' weaker (ok a, s) h = h
Ends-left broken holds left left' weaker (thrown, s) h = weaker s h
Ends-left broken holds left left' weaker (fault, s) h = h
