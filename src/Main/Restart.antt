-- ===== src/Main/Restart.antt =====
-- main.cpp, jconf.cpp: a first start without a configuration, and the one after it.
use epic_poold.Base.{
  ℕ, ◌≡◌, refl, ap, Bool, true, false, not, none, some, List, [], ◌∷◌, length, take, codes, All,
  arith, same_text, ◌==◌, if◌then◌else◌,
}
use epic_poold.Rpc.{ok, JsonValues}
use epic_poold.Jconf.Table.{Kind, string_kind, config_values}
use epic_poold.Jconf.{
  Config, is_invalid, level_of, Disk, default_config_file, read_file, parse_config,
}
use epic_poold.Jconf.Parsing.{Fits, fresh_config}
use epic_poold.Jconf.Files.{parse_config-rd_error}
use epic_poold.Main.{exited, serving, conf_filename, started, main}

taken_whole : (s : List ℕ) → take (length s) s ≡ s
taken_whole [] = refl
taken_whole (c ∷ s) = ap (λ t. c ∷ t) (taken_whole s)

same_text_refl : (s : List ℕ) → same_text s s ≡ true
same_text_refl [] = refl
same_text_refl (c ∷ s) = let same : (c == c) ≡ true = ground arith in rw same (same_text_refl s)

module _ {V : Type 0} (json : JsonValues V) (get_type : V → Kind)
    (typed : (v : V) → get_type v ≡ string_kind → json.is_string v ≡ true) where
  -- The first start writes the default file, and ends.
  first_start :
      (rd_error : Bool) (disk : Disk)
      → disk.size ≡ none
      → disk.creates ≡ true
      → disk.written ≡ length default_config_file
      → (parse_config json get_type rd_error disk (fresh_config json get_type)
          ≡ ok (false, fresh_config json get_type))
        × ((read_file disk rd_error).1.contents ≡ some default_config_file)
        × ((read_file disk rd_error).1.size ≡ some (length default_config_file))
  unfolding parse_config read_file
  first_start rd_error disk missing creates written = (
    rw missing refl,
    rw (missing, creates) (ap some whole),
    rw (missing, creates) (ap (λ s. some (length s)) whole),
  )
    where
      whole : take disk.written default_config_file ≡ default_config_file
      whole = rw written (taken_whole default_config_file)

  -- Without a configuration file, the first start of the program writes the default one, if the system lets it,
  -- and ends with 1; the next start, with the same arguments, reads what was written, and goes on to its
  -- threads exactly if the uninitialised flag is false. The parser reads the default text as a document that
  -- fits the table, with a level of the log.
  pub main-restart :
      (rd_error rd_error' : Bool) (argv : List (List ℕ)) (files : List ℕ → Disk) (doc level : V)
      → (files (conf_filename argv)).size ≡ none
      → (files (conf_filename argv)).creates ≡ true
      → (files (conf_filename argv)).written ≡ length default_config_file
      → json.parse default_config_file ≡ some doc
      → json.is_object doc ≡ true
      → All (Fits json get_type doc) config_values
      → json.find_member doc (codes "log_level") ≡ some level
      → is_invalid (level_of (json.get_string level)) ≡ false
      → let start = fresh_config json get_type in
        let (ending, files') = main json get_type rd_error argv files start in
        (ending ≡ ok (exited 1))
        × ((config : Config V) × ((main json get_type rd_error' argv files' start).0
              ≡ ok (if rd_error' then exited 1 else serving config)))
  unfolding main
  main-restart rd_error rd_error' argv files doc level missing creates written parsed object fit
        named valid =
      let (first, contents, size) =
        first_start rd_error (files (conf_filename argv)) missing creates written in
      let (config, second) =
        parse_config-rd_error json get_type typed rd_error'
          (read_file (files (conf_filename argv)) rd_error).1 default_config_file doc level size
          contents parsed object fit named valid in
      (
        rw first refl,
        (config, rw (same_text_refl (conf_filename argv), second) (by_flag rd_error' config)),
      )
    where
      by_flag :
          (flag : Bool) (config : Config V)
          → started json get_type (ok (not flag, config))
            ≡ ok (if flag then exited 1 else serving config)
      by_flag true config = refl
      by_flag false config = refl
