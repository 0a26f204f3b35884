-- ===== src/Jconf.antt =====
-- jconf.cpp, loglevels.hpp: the reading of the configuration file by the table of its values, and the
-- level of the log. The parser is a parameter; `get_type` is rapidjson's GetType.
pub mod Table
pub mod Getters
pub mod Parsing
pub mod Accepting
pub mod Files
pub mod Documents
pub mod Tests
use epic_poold.Base.{
  ℕ, zero, suc, ◌+◌, Bool, true, false, not, ◌&&◌, ◌||◌, Option, none, some, List, [], ◌∷◌, ◌++◌,
  bit_and, ◌==◌, if◌then◌else◌, length, get_elem?, codes, take,
}
use epic_poold.Rpc.{Try, ok, fault, JsonValues, reads_as, or_fault, ◌>>=◌}
use epic_poold.Jconf.Table.{
  Kind, ConfigEnum, s_log_level, index, ConfigVal, flag_unsigned, flag_u16bit, config_values,
  check_type, check_constraint_unsigned, check_constraint_u16bit,
}

pub data LogLevel : Type 0 where
  error warn info debug_hi debug_lo invalid : LogLevel

-- config_json.tmpl.
abbrev pub default_config_file : List ℕ
default_config_file =
    (codes "{" ++ 10 ∷ [])
    ++ (9 ∷ codes "\"pid_file\": \"\"," ++ 10 ∷ [])
    ++ (9 ∷ codes "\"log_file\" : \"\"," ++ 10 ∷ [])
    ++ (9 ∷ codes "\"log_level\" : \"debug_lo\"," ++ 10 ∷ [])
    ++ (10 ∷ [])
    ++ (9 ∷ codes "\"db_hostname\" : \"\"," ++ 10 ∷ [])
    ++ (9 ∷ codes "\"db_port\" : \"\"," ++ 10 ∷ [])
    ++ (9 ∷ codes "\"db_name\" : \"\"," ++ 10 ∷ [])
    ++ (9 ∷ codes "\"db_username\" : \"\"," ++ 10 ∷ [])
    ++ (9 ∷ codes "\"db_password\" : \"\"," ++ 10 ∷ [])
    ++ (10 ∷ [])
    ++ (9 ∷ codes "\"node_hostname\" : \"127.0.0.1\"," ++ 10 ∷ [])
    ++ (9 ∷ codes "\"node_port\" : \"3416\"," ++ 10 ∷ [])
    ++ (9 ∷ codes "\"node_username\" : \"\"," ++ 10 ∷ [])
    ++ (9 ∷ codes "\"node_password\" : \"\"," ++ 10 ∷ [])
    ++ (10 ∷ [])
    ++ (9 ∷ codes "\"daemonize\" : false," ++ 10 ∷ [])
    ++ (10 ∷ [])
    ++ (9 ∷ codes "\"plain_port\" : 3333," ++ 10 ∷ [])
    ++ (9 ∷ codes "\"tls_port\" : 4444," ++ 10 ∷ [])
    ++ (9 ∷ codes "\"tls_certificate\" : \"crt.pem\"," ++ 10 ∷ [])
    ++ (9 ∷ codes "\"tls_ciper_list\" : \"HIGH\"," ++ 10 ∷ [])
    ++ (10 ∷ [])
    ++ (9 ∷ codes "\"fatal_node_timeout\" : 300," ++ 10 ∷ [])
    ++ (9 ∷ codes "\"template_timeout\" : 60" ++ 10 ∷ [])
    ++ codes "}"

-- What the system gives: the size of the file, if it is there; the file as it is read, if it can be; whether
-- a new file can be opened for writing, and how many characters of it a write takes.
pub record Disk : Type 0 where
  pub size : Option ℕ
  pub contents : Option (List ℕ)
  pub creates : Bool
  pub written : ℕ

-- The file that the code makes if there is none.
abbrev pub with_default : Disk → Disk
with_default disk =
    let conf : List ℕ = take disk.written default_config_file in
    if not disk.creates
    then disk
    else record disk { size = some (length conf); contents = some conf }

-- read_file, with the flag behind its reference and the disk behind it; a read that stops short is an error.
unfoldable pub read_file : Disk → Bool → (List ℕ × Bool) × Disk
read_file disk failed = elim disk.size [
  | none ↦ (([], true), with_default disk)
  | some size ↦ elim disk.contents [
    | none ↦ (([], true), disk)
    | some conf ↦ if length conf == size then ((conf, failed), disk) else (([], true), disk)
  ]
]

unfoldable pub level_of : List ℕ → LogLevel
level_of valstr =
    if reads_as valstr (codes "error")
    then error
    else if reads_as valstr (codes "warn")
    then warn
    else if reads_as valstr (codes "info")
    then info
    else if reads_as valstr (codes "debug_hi")
    then debug_hi
    else if reads_as valstr (codes "debug_lo")
    then debug_lo
    else invalid

-- The values found so far, in the order of the table, and the static variable of get_log_level.
pub record Config (V : Type 0) : Type 0 where
  pub values : List V
  pub level : LogLevel

abbrev pub is_invalid : LogLevel → Bool
is_invalid invalid = true
is_invalid _ = false

module _ {V : Type 0} (json : JsonValues V) (get_type : V → Kind) where
  abbrev pub value_at : Config V → ConfigEnum → Try V
  value_at config name = or_fault (get_elem? config.values (index name))

  -- GetString asserts that it has a string.
  unfoldable pub config_string : Config V → ConfigEnum → Try (List ℕ)
  config_string config name = do
    v ← value_at config name
    if json.is_string v then ok (json.get_string v) else fault

  unfoldable pub get_log_level : Config V → Try (LogLevel × Config V)
  unfolding config_string level_of
  get_log_level config = if not (is_invalid config.level) then ok (config.level, config) else do
    valstr ← config_string config s_log_level
    ok (level_of valstr, record config { level = level_of valstr })

  -- The tests of one value.
  unfoldable pub accepts : ConfigVal → V → Bool
  accepts entry v =
      check_type (get_type v) entry.type
      && ((bit_and entry.flags flag_unsigned == 0 || check_constraint_unsigned json v)
          && (bit_and entry.flags flag_u16bit == 0 || check_constraint_u16bit json v))

  -- The loop from index i on.
  unfoldable pub check_values : List ConfigVal → ℕ → V → Config V → Bool × Config V
  unfolding accepts
  check_values [] i doc config = (true, config)
  check_values (entry ∷ entries) i doc config =
      if not (index entry.name == i)
      then (false, config)
      else elim (json.find_member doc entry.key) [
        | none ↦ (false, config)
        | some v ↦
            let next =
              check_values entries (i + 1) doc
                (record config { values = config.values ++ v ∷ [] }) in
            if accepts entry v
            then next
            else (false, record config { values = config.values ++ v ∷ [] })
      ]

  -- parse_config; `rd_error` is what the uninitialised variable holds.
  unfoldable pub parse_doc : V → Config V → Try (Bool × Config V)
  unfolding check_values get_log_level
  parse_doc doc config =
      let (all_fit, config') = check_values config_values 0 doc config in
      if not all_fit
      then ok (false, config')
      else do (level, config'') ← get_log_level config'; ok (not (is_invalid level), config'')

  unfoldable pub parse_config : Bool → Disk → Config V → Try (Bool × Config V)
  unfolding read_file parse_doc
  parse_config rd_error disk config =
      let (file, failed) = (read_file disk rd_error).0 in
      if failed then ok (false, config) else elim (json.parse file) [
        | none ↦ ok (false, config)
        | some doc ↦ if json.is_object doc then parse_doc doc config else ok (false, config)
      ]
