-- ===== src/Jconf/Files.antt =====
-- jconf.cpp, parse_config: a file, from the disk to the configuration.
use epic_poold.Base.{
  ℕ, ◌≡◌, refl, inl, inr, Bool, true, false, not, Option, some, List, arith, ◌==◌, length, codes,
  All, Bool-cases, Option-cases,
}
use epic_poold.Rpc.{ok, JsonValues}
use epic_poold.Jconf.Table.{Kind, string_kind, config_values, s_log_level}
use epic_poold.Jconf.{
  Config, LogLevel, invalid, is_invalid, Disk, level_of, get_log_level, check_values, parse_doc,
  parse_config, read_file,
}
use epic_poold.Jconf.Parsing.{
  Fits, string_works, check_values-Fitting, check_values-accepts, fresh_config, in_order,
}
use epic_poold.Jconf.Accepting.{Parsed, by_level, log_level_entry}

config_values-in_order : in_order config_values 0 ≡ true
unfolding in_order
config_values-in_order = refl

module _ {V : Type 0} (json : JsonValues V) (get_type : V → Kind)
    (typed : (v : V) → get_type v ≡ string_kind → json.is_string v ≡ true) where
  abbrev pub start : Config V
  start = fresh_config json get_type

  parse_doc-Parsed : (doc : V) → Parsed json get_type typed (parse_doc json get_type doc start)
  unfolding parse_doc
  parse_doc-Parsed doc = by_values (check_values json get_type config_values 0 doc start) refl
    where
      by_values :
          (r : Bool × Config V)
          → check_values json get_type config_values 0 doc start ≡ r
          → Parsed json get_type typed (parse_doc json get_type doc start)
      by_values (true, config) e =
          let (values, e', fit) =
            check_values-Fitting json get_type config_values 0 doc start (rw e refl) in
          by_level json get_type typed doc values e' fit
      by_values (false, config) e = inl (config, rw e refl)

  -- Whatever is on the disk, the first call of parse_config answers. If it accepts a file, every getter answers: the strings are
  -- there, the flag is a flag, the timeouts are numbers, the ports are of 16 bits, so that nothing of them is
  -- cut off, and the level of the log is one of the five. A value whose type is that of a string is one.
  pub parse_config-Parsed :
      (rd_error : Bool) (disk : Disk)
      → Parsed json get_type typed (parse_config json get_type rd_error disk start)
  unfolding parse_config
  parse_config-Parsed rd_error disk = by_read (read_file disk rd_error).0 refl
    where
      by_object :
          (file : List ℕ) (doc : V)
          → (read_file disk rd_error).0 ≡ (file, false)
          → json.parse file ≡ some doc
          → Parsed json get_type typed (parse_config json get_type rd_error disk start)
      by_object file doc e parsed = elim (Bool-cases (json.is_object doc)) [
        | inl object ↦ rw (e, parsed, object) (parse_doc-Parsed doc)
        | inr other ↦ inl (start, rw (e, parsed, other) refl)
      ]

      by_read :
          (r : List ℕ × Bool)
          → (read_file disk rd_error).0 ≡ r
          → Parsed json get_type typed (parse_config json get_type rd_error disk start)
      by_read (file, true) e = inl (start, rw e refl)
      by_read (file, false) e = elim (Option-cases (json.parse file)) [
        | inl refused ↦ inl (start, rw (e, refused) refl)
        | inr (doc, parsed) ↦ by_object file doc e parsed
      ]

  read_file-whole :
      (rd_error : Bool) (disk : Disk) (file : List ℕ)
      → disk.size ≡ some (length file)
      → disk.contents ≡ some file
      → (read_file disk rd_error).0 ≡ (file, rd_error)
  unfolding read_file
  read_file-whole rd_error disk file size contents =
      let whole : (length file == length file) ≡ true = ground arith in
      rw (size, contents, whole) refl

  some_same : {key : Option V} → (v w : V) → key ≡ some v → key ≡ some w → v ≡ w
  some_same v w e e' = cc

  -- A document that fits, with one of the five levels.
  accepted :
      (doc level : V)
      → All (Fits json get_type doc) config_values
      → json.find_member doc (codes "log_level") ≡ some level
      → is_invalid (level_of (json.get_string level)) ≡ false
      → (config : Config V) × (parse_doc json get_type doc start ≡ ok (true, config))
  unfolding parse_doc get_log_level
  accepted doc level fit named valid =
      let ordered =
        check_values-accepts json get_type config_values 0 doc start config_values-in_order fit in
      let (values, e, fits) =
        check_values-Fitting json get_type config_values 0 doc start ordered in
      let (v, found, read) =
        string_works json get_type typed doc values invalid s_log_level log_level_entry fits refl
          refl in
      let same : v ≡ level = some_same v level found named in
      let set : LogLevel = level_of (json.get_string level) in
      (record { values = values; level = set }, rw (e, read, same, valid) refl)

  -- The read flag is not initialised: in the first call, a file that is there and whose document fits the table, with one of the
  -- five levels, is accepted exactly if the flag happens to be false.
  pub parse_config-rd_error :
      (rd_error : Bool) (disk : Disk) (file : List ℕ) (doc level : V)
      → disk.size ≡ some (length file)
      → disk.contents ≡ some file
      → json.parse file ≡ some doc
      → json.is_object doc ≡ true
      → All (Fits json get_type doc) config_values
      → json.find_member doc (codes "log_level") ≡ some level
      → is_invalid (level_of (json.get_string level)) ≡ false
      → (config : Config V) × (parse_config json get_type rd_error disk start
          ≡ ok (not rd_error, config))
  unfolding parse_config
  parse_config-rd_error true disk file doc level size contents parsed object fit named valid =
      (start, rw (read_file-whole true disk file size contents) refl)
  parse_config-rd_error false disk file doc level size contents parsed object fit named valid =
      let (config, e) = accepted doc level fit named valid in
      (config, rw (read_file-whole false disk file size contents, parsed, object) e)
