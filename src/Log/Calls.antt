-- ===== src/Log/Calls.antt =====
-- log.hpp, log.cpp: the calls by level, and the text of the time.
use epic_poold.Base.{
  ℕ, ◌+◌, ◌/◌, ◌%◌, ◌<◌, ◌≤◌, ◌≡◌, refl, true, Option, some, List, [], ◌∷◌, ◌++◌, length, codes,
  ltb, arith,
}
use epic_poold.Jconf.{LogLevel, error, debug_hi, debug_lo}
use epic_poold.Jconf as Jconf
use epic_poold.Log.{level_number, get_default_colour, Element, Log, Reopening, fputs, log}

-- What localtime_r gives: the year as it is, the month and the day from 1 on.
pub record Tm : Type 0 where
  pub year : ℕ
  pub month : ℕ
  pub day : ℕ
  pub hour : ℕ
  pub minute : ℕ
  pub second : ℕ

abbrev two_digits : ℕ → List ℕ
two_digits n = (n / 10 % 10 + b'0') ∷ (n % 10 + b'0') ∷ []

-- strftime with "[%F %T]: ", for years of four digits.
unfoldable pub timestamp : Tm → List ℕ
timestamp t =
    b'[' ∷ two_digits (t.year / 100)
    ++ two_digits t.year
    ++ b'-' ∷ two_digits t.month
    ++ b'-' ∷ two_digits t.day
    ++ b' ' ∷ two_digits t.hour
    ++ b':' ∷ two_digits t.minute
    ++ b':' ∷ two_digits t.second
    ++ codes "]: "

unfoldable pub print_timestamp : Tm → Log → Option Log
unfolding timestamp fputs
print_timestamp t l = fputs (timestamp t) l

module _ (fuel d : ℕ) (again : Reopening) (stime : Tm) where
  unfoldable pub err : List Element → Log → Option Log
  unfolding log timestamp
  err args l = log fuel d again (timestamp stime) error (get_default_colour error) args l

  unfoldable pub warn : List Element → Log → Option Log
  unfolding log timestamp
  warn args l = log fuel d again (timestamp stime) Jconf.warn (get_default_colour Jconf.warn) args l

  unfoldable pub info : List Element → Log → Option Log
  unfolding log timestamp
  info args l = log fuel d again (timestamp stime) Jconf.info (get_default_colour Jconf.info) args l

  unfoldable pub dbghi : List Element → Log → Option Log
  unfolding log timestamp
  dbghi args l = log fuel d again (timestamp stime) debug_hi (get_default_colour debug_hi) args l

  unfoldable pub dbglo : List Element → Log → Option Log
  unfolding log timestamp
  dbglo args l = log fuel d again (timestamp stime) debug_lo (get_default_colour debug_lo) args l

  -- Nothing sets current_level. Where it holds more than the number of an error, no call writes anything.
  log_silent :
      (args : List Element) (l : Log)
      → level_number error < l.current_level
      → (err args l ≡ some l)
        × (warn args l ≡ some l)
        × (info args l ≡ some l)
        × (dbghi args l ≡ some l)
        × (dbglo args l ≡ some l)
  unfolding err warn info dbghi dbglo log
  log_silent args l above =
      let below : (n : ℕ) → n ≤ 5 → ltb n l.current_level ≡ true = λ n small. ground arith in
      (
        rw (below 5 (omega arith)) refl,
        rw (below 4 (omega arith)) refl,
        rw (below 3 (omega arith)) refl,
        rw (below 2 (omega arith)) refl,
        rw (below 1 (omega arith)) refl,
      )

-- The text of the time fits the buffer of 64 characters with its terminator.
timestamp-length : (t : Tm) → length (timestamp t) + 1 ≤ 64
unfolding timestamp
timestamp-length t = omega arith
