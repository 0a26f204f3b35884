-- ===== src/Log/Tests.antt =====
-- The log on concrete messages.
use epic_poold.Base.{
  ℕ, ◌-◌, ◌^◌, ◌≤◌, ◌<◌, ◌≡◌, ◌⊎◌, refl, true, false, none, some, List, [], ◌∷◌, ◌++◌, arith, codes,
}
use epic_poold.Jconf.{warn}
use epic_poold.Log.{
  level_number, get_default_colour, Element, of_text, of_size, of_int32, Log, Reopening,
  check_sighup, log, on_sighup,
}
use epic_poold.Log.Message.{SpellsAll, filled, dressed, log-Spells}

abbrev again : Reopening
again = record { daemonize = true; opens = true }

abbrev signalled : Log
signalled = on_sighup (record {
  current_level = 3;
  sighup = false;
  file = some (codes "old");
  on_stdout = false;
  closed = [];
})

abbrev reopened : Log
reopened = record signalled { sighup = false; file = some []; closed = codes "old" ∷ [] }

abbrev clients : List Element
clients = of_text (codes "Size: ") ∷ of_size 42 ∷ of_int32 (2 ^ 32 - 1) ∷ []

log_file_changed : check_sighup again signalled ≡ some reopened
unfolding check_sighup
log_file_changed = refl

log-Spells_example :
    ((level_number warn < 3)
      × (log 3 0 again (codes "[]: ") warn (get_default_colour warn) clients signalled
          ≡ some signalled))
    ⊎ ((3 ≤ level_number warn)
        × (text : List ℕ) × SpellsAll clients text
        × (log 3 0 again (codes "[]: ") warn (get_default_colour warn) clients signalled
            ≡ some (filled reopened ([] ++ dressed reopened warn (codes "[]: " ++ text)))))
log-Spells_example =
    log-Spells 3 0 again (codes "[]: ") warn clients signalled reopened [] (omega arith)
      (omega arith) log_file_changed refl

-- A daemon whose log file cannot be opened again loses the file, and the message behind it is a call on null.
lost_file :
    log 3 0
      (record { daemonize = true; opens = false })
      []
      warn
      (get_default_colour warn)
      []
      signalled
    ≡ none
unfolding log
lost_file = refl
