-- ===== src/Time/Tests.antt =====
-- A sleep with one wake-up, and the ends of the database's times.
use epic_poold.Base.{◌+◌, ◌-◌, ◌^◌, ◌≡◌, refl, some, [], ◌∷◌}
use epic_poold.Time.{unix_sleep, db_time_to_walltime, walltime_to_db_time}

woken : unix_sleep 5 (3 ∷ 0 ∷ []) ≡ some 5
unfolding unix_sleep
woken = refl

before_epoch : db_time_to_walltime (2 ^ 32 - 1) ≡ 1262303999
unfolding db_time_to_walltime
before_epoch = refl

too_late : walltime_to_db_time (1262304000 + 2 ^ 31) ≡ 2 ^ 31
unfolding walltime_to_db_time
too_late = refl
