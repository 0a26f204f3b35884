-- ===== src/Jconf/Accepting.antt =====
-- jconf.cpp, parse_config and the getters: a configuration that was accepted serves every getter.
use mathlib.Core.Bool.{false≢true}
use epic_poold.Base.{
  ℕ, ◌%◌, ◌^◌, ◌≤◌, ◌≡◌, ◌⊎◌, refl, inl, inr, Bool, true, false, ◌&&◌, ◌||◌, some, List, arith,
  bit_and, ◌==◌, get_elem?, codes, Bool-cases, leb,
}
use epic_poold.Rpc.{Try, ok, JsonValues}
use epic_poold.Jconf.Table.{
  Kind, null_kind, false_kind, true_kind, object_kind, array_kind, string_kind, number_kind,
  ConfigEnum, index, ConfigVal, config_values, check_type, flag_unsigned, flag_u16bit, s_log_level,
  i_plain_port, i_tls_port, i_template_timeout, i_fatal_node_timeout, b_daemonize,
}
use epic_poold.Jconf.{
  Config, LogLevel, invalid, is_invalid, config_string, level_of, get_log_level, accepts,
  check_values, parse_doc,
}
use epic_poold.Jconf.Getters.{
  config_uint, daemonize, get_server_port, get_server_tls_port, get_template_timeout,
  get_fatal_node_timeout,
}
use epic_poold.Jconf.Parsing.{
  Fitting, value_of, and_left, and_right, string_works, fresh_config, Works,
}

flag_type : (k : Kind) → check_type k true_kind ≡ true → (k ≡ true_kind) ⊎ (k ≡ false_kind)
unfolding check_type
flag_type true_kind e = inl refl
flag_type false_kind e = inr refl
flag_type null_kind e = absurd (false≢true e)
flag_type object_kind e = absurd (false≢true e)
flag_type array_kind e = absurd (false≢true e)
flag_type string_kind e = absurd (false≢true e)
flag_type number_kind e = absurd (false≢true e)

abbrev daemonize_entry : ConfigVal
daemonize_entry = record {
  name = b_daemonize;
  key = codes "daemonize";
  type = true_kind;
  flags = 0;
}

abbrev pub log_level_entry : ConfigVal
log_level_entry = record {
  name = s_log_level;
  key = codes "log_level";
  type = string_kind;
  flags = 0;
}

module _ {V : Type 0} (json : JsonValues V) (get_type : V → Kind) where
  -- Every getter answers: the strings of the table, the flag, the two timeouts, and the two ports, which are
  -- the numbers that the document has, of 16 bits; and the level is one of the five.
  pub record Usable (config : Config V) : Type 0 where
    pub strings :
        (name : ConfigEnum) (entry : ConfigVal)
        → get_elem? config_values (index name) ≡ some entry
        → entry.type ≡ string_kind
        → Works (config_string json get_type config name)
    pub flag : Works (daemonize json get_type config)
    pub server_port :
        (port : ℕ) × (get_server_port json get_type config ≡ ok port)
        × (config_uint json get_type config i_plain_port ≡ ok port)
    pub server_tls_port :
        (port : ℕ) × (get_server_tls_port json get_type config ≡ ok port)
        × (config_uint json get_type config i_tls_port ≡ ok port)
    pub template_timeout : Works (get_template_timeout json get_type config)
    pub fatal_node_timeout : Works (get_fatal_node_timeout json get_type config)
    pub level : is_invalid config.level ≡ false

  accepts_parts :
      (entry : ConfigVal) (v : V)
      → accepts json get_type entry v ≡ true
      → (check_type (get_type v) entry.type ≡ true)
        × ((bit_and entry.flags flag_unsigned == 0 || json.is_uint v) ≡ true)
        × ((bit_and entry.flags flag_u16bit == 0 || json.is_uint v && leb (json.get_uint v) 0xffff)
            ≡ true)
  unfolding accepts
  accepts_parts entry v fits =
      let kind = check_type (get_type v) entry.type in
      let number = bit_and entry.flags flag_unsigned == 0 || json.is_uint v in
      let port =
        bit_and entry.flags flag_u16bit == 0 || json.is_uint v && leb (json.get_uint v) 0xffff in
      let others : (number && port) ≡ true = and_right kind (number && port) fits in
      (
        and_left kind (number && port) fits,
        and_left number port others,
        and_right number port others,
      )

  module _ (typed : (v : V) → get_type v ≡ string_kind → json.is_string v ≡ true) (doc : V)
      (values : List V) (level : LogLevel)
      (fit : Fitting json get_type doc config_values values) where
    abbrev config : Config V
    config = record { values = values; level = level }

    config_uint-Works :
        (name : ConfigEnum) (entry : ConfigVal)
        → get_elem? config_values (index name) ≡ some entry
        → (bit_and entry.flags flag_unsigned == 0) ≡ false
        → Works (config_uint json get_type config name)
    unfolding config_uint accepts
    config_uint-Works name entry at flagged =
        let (v, there, found, fits) =
          value_of json get_type doc config_values values (index name) entry fit at in
        let (_, tested, _) = accepts_parts entry v fits in
        let uint : json.is_uint v ≡ true = rw flagged at tested in
        (json.get_uint v, rw (there, uint) refl)

    port_works :
        (name : ConfigEnum) (entry : ConfigVal)
        → get_elem? config_values (index name) ≡ some entry
        → (bit_and entry.flags flag_u16bit == 0) ≡ false
        → (port : ℕ) × (config_uint json get_type config name ≡ ok port) × (port ≤ 65535)
    unfolding config_uint accepts
    port_works name entry at flagged =
        let (v, there, found, fits) =
          value_of json get_type doc config_values values (index name) entry fit at in
        let (_, _, tested) = accepts_parts entry v fits in
        let both : (json.is_uint v && leb (json.get_uint v) 0xffff) ≡ true = rw flagged at tested in
        let uint : json.is_uint v ≡ true = and_left (json.is_uint v) _ both in
        let small : leb (json.get_uint v) 0xffff ≡ true = and_right (json.is_uint v) _ both in
        (json.get_uint v, rw (there, uint) refl, ground arith)

    daemonize-Works : Works (daemonize json get_type config)
    unfolding daemonize accepts
    daemonize-Works =
        let (v, there, found, fits) =
          value_of json get_type doc config_values values (index b_daemonize) daemonize_entry fit
            refl in
        elim (flag_type (get_type v) (and_left (check_type (get_type v) true_kind) _ fits)) [
          | inl is ↦ (true, rw (there, is) refl)
          | inr is ↦ (false, rw (there, is) refl)
        ]

    truncated : (port : ℕ) → port ≤ 65535 → port % 2 ^ 16 ≡ port
    truncated port small = omega arith

    usable : is_invalid level ≡ false → Usable config
    unfolding get_server_port get_server_tls_port get_template_timeout get_fatal_node_timeout
    usable valid =
        let (plain, plain_read, plain_small) = port_works i_plain_port _ refl refl in
        let (tls, tls_read, tls_small) = port_works i_tls_port _ refl refl in
        record {
          strings = λ name entry at is.
              let (v, found, read) =
                string_works json get_type typed doc values level name entry fit at is in
              (json.get_string v, read);
          flag = daemonize-Works;
          server_port = (plain, rw (plain_read, truncated plain plain_small) refl, plain_read);
          server_tls_port = (tls, rw (tls_read, truncated tls tls_small) refl, tls_read);
          template_timeout = config_uint-Works i_template_timeout _ refl refl;
          fatal_node_timeout = config_uint-Works i_fatal_node_timeout _ refl refl;
          level = valid;
        }

  module _ (typed : (v : V) → get_type v ≡ string_kind → json.is_string v ≡ true) where
    -- The end of parse_config.
    abbrev pub Parsed : Try (Bool × Config V) → Type 0
    Parsed r =
        ((config : Config V) × (r ≡ ok (false, config)))
        ⊎ ((config : Config V) × (r ≡ ok (true, config)) × Usable config)

    pub by_level :
        (doc : V) (values : List V)
        → check_values json get_type config_values 0 doc (fresh_config json get_type)
          ≡ (true, record { values = values; level = invalid })
        → Fitting json get_type doc config_values values
        → Parsed (parse_doc json get_type doc (fresh_config json get_type))
    unfolding parse_doc get_log_level
    by_level doc values e fit =
        let (v, found, read) =
          string_works json get_type typed doc values invalid s_log_level log_level_entry fit refl
            refl in
        let set : LogLevel = level_of (json.get_string v) in
        elim (Bool-cases (is_invalid set)) [
          | inl bad ↦ inl (record { values = values; level = set }, rw (e, read, bad) refl)
          | inr good ↦ inr (
            record { values = values; level = set },
            rw (e, read, good) refl,
            usable typed doc values set fit good,
          )
        ]
