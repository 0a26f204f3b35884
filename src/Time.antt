-- ===== src/Time.antt =====
-- time.hpp: the sleep of the node's thread, and the time of a database. The clocks of the system are arguments of
-- the other parts.
pub mod Tests
use epic_poold.Base.{
  ℕ, zero, suc, ◌+◌, ◌-◌, ◌≤◌, ◌%◌, ◌^◌, ◌<◌, ◌≡◌, ◌⊎◌, refl, ap, inl, inr, Bool, true, false,
  Option, none, some, List, [], ◌∷◌, ◌==◌, ltb, if◌then◌else◌, Bool-cases, All, arith,
}

-- The loop around sleep, with what each call returns: the seconds that it did not sleep. The result is the
-- time that was slept in all; none, if the thread still sleeps.
unfoldable pub unix_sleep : ℕ → List ℕ → Option ℕ
unix_sleep time_s [] = none
unix_sleep time_s (left ∷ answers) =
    let rest = unix_sleep left answers in
    if left == 0
    then some time_s
    else elim rest [ none ↦ none | some slept ↦ some (time_s - left + slept) ]

-- The bit patterns of an int32_t and an int64_t; the epoch of the database is 2010-01-01.
abbrev pub sign_extended : ℕ → ℕ
sign_extended n = if ltb n (2 ^ 31) then n else n + (2 ^ 64 - 2 ^ 32)

unfoldable pub db_time_to_walltime : ℕ → ℕ
db_time_to_walltime db_time = (sign_extended db_time + 1262304000) % 2 ^ 64

unfoldable pub walltime_to_db_time : ℕ → ℕ
walltime_to_db_time walltime = (walltime + (2 ^ 64 - 1262304000)) % 2 ^ 64 % 2 ^ 32

-- No call returns more than it was given.
abbrev pub Shortens : ℕ → List ℕ → Type 0
Shortens time_s [] = Unit
Shortens time_s (left ∷ answers) = (left ≤ time_s) × Shortens left answers

-- Wake-ups do not shorten the sleep: if it ends, it has lasted as long as it was asked to, and it ends at the first
-- call that returns 0.
unix_sleep-total :
    (time_s : ℕ) (answers : List ℕ)
    → Shortens time_s answers
    → (unix_sleep time_s answers ≡ some time_s) ⊎ All (λ left. 0 < left) answers
unfolding unix_sleep
unix_sleep-total time_s [] short = inr tt
unix_sleep-total time_s (left ∷ answers) (less, short) = elim (Bool-cases (left == 0)) [
  | inl done ↦ inl (rw (unix_sleep, done) refl)
  | inr awake ↦ elim (unix_sleep-total left answers short) [
    | inl slept ↦
        let whole : time_s - left + left ≡ time_s = omega (arith, less) in
        inl (rw (unix_sleep, awake, slept) (ap (λ n. some n) whole))
    | inr none_zero ↦ inr (ground arith, none_zero)
  ]
]

walltime_to_db_time-db_time_to_walltime :
    (db_time : ℕ) → db_time < 2 ^ 32 → walltime_to_db_time (db_time_to_walltime db_time) ≡ db_time
unfolding walltime_to_db_time db_time_to_walltime
walltime_to_db_time-db_time_to_walltime db_time word = ground arith
