-- ===== src/Main/Tests.antt =====
-- Two starts of the program without arguments, in an empty directory.
use epic_poold.Base.{ℕ, ◌≡◌, refl, true, false, none, List, [], length, codes}
use epic_poold.Rpc.{ok}
use epic_poold.Rpc.Documents.{Value, text, json, find}
use epic_poold.Jconf.{Config, Disk, default_config_file, level_of}
use epic_poold.Jconf.Parsing.{fresh_config}
use epic_poold.Jconf.Documents.{get_type, text_of_type, default_document, default_document-All}
use epic_poold.Main.{exited, serving, main}
use epic_poold.Main.Restart.{main-restart}

abbrev empty_directory : List ℕ → Disk
empty_directory name = record {
  size = none;
  contents = none;
  creates = true;
  written = length default_config_file;
}

main-restart_example :
    ((main
        (json default_document)
        get_type
        true
        []
        empty_directory
        (fresh_config (json default_document) get_type)).0
      ≡ ok (exited 1))
    × ((config : Config Value) × ((main
            (json default_document)
            get_type
            false
            []
            (main
              (json default_document)
              get_type
              true
              []
              empty_directory
              (fresh_config (json default_document) get_type)).1
            (fresh_config (json default_document) get_type)).0
          ≡ ok (serving config)))
unfolding find level_of
main-restart_example =
    main-restart (json default_document) get_type text_of_type true false [] empty_directory
      default_document (text (codes "debug_lo")) refl refl refl refl refl default_document-All refl
      refl
