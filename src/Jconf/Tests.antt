-- ===== src/Jconf/Tests.antt =====
-- The configuration on a concrete document.
use epic_poold.Base.{ℕ, ◌≡◌, refl, true, false, some, List, length, codes}
use epic_poold.Rpc.{ok}
use epic_poold.Rpc.Documents.{Value, text, find, json}
use epic_poold.Jconf.{Config, Disk, level_of, parse_config}
use epic_poold.Jconf.Parsing.{fresh_config}
use epic_poold.Jconf.Accepting.{Parsed}
use epic_poold.Jconf.Documents.{get_type, text_of_type, default_document, default_document-All}
use epic_poold.Jconf.Files.{parse_config-Parsed, parse_config-rd_error}

abbrev file : List ℕ
file = codes "{}"

abbrev disk : Disk
disk = record { size = some (length file); contents = some file; creates = true; written = 0 }

parse_config-Parsed_example : Parsed (json default_document) get_type text_of_type (
    parse_config
      (json default_document)
      get_type
      false
      disk
      (fresh_config (json default_document) get_type))
parse_config-Parsed_example =
    parse_config-Parsed (json default_document) get_type text_of_type false disk

parse_config-rd_error_example :
    (config : Config Value) × (parse_config
        (json default_document)
        get_type
        true
        disk
        (fresh_config (json default_document) get_type)
      ≡ ok (false, config))
unfolding find level_of
parse_config-rd_error_example =
    parse_config-rd_error (json default_document) get_type text_of_type true disk file
      default_document (text (codes "debug_lo")) refl refl refl refl default_document-All refl refl
