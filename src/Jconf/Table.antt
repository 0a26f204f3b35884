-- ===== src/Jconf/Table.antt =====
-- jconf_p.hpp: the table of the configuration values.
use epic_poold.Base.{ℕ, Bool, true, false, ◌&&◌, ◌||◌, List, [], ◌∷◌, leb, codes}
use epic_poold.Rpc.{JsonValues}

-- rapidjson's Type.
pub data Kind : Type 0 where
  null_kind false_kind true_kind object_kind array_kind string_kind number_kind : Kind

pub data ConfigEnum : Type 0 where
  s_pid_file s_log_file s_log_level s_db_hostname : ConfigEnum
  s_db_port s_db_name s_db_username s_db_password : ConfigEnum
  s_node_hostname s_node_port s_node_username s_node_password : ConfigEnum
  b_daemonize i_plain_port i_tls_port s_tls_cert : ConfigEnum
  s_tls_cipers i_template_timeout i_fatal_node_timeout : ConfigEnum

abbrev pub index : ConfigEnum → ℕ
index s_pid_file = 0
index s_log_file = 1
index s_log_level = 2
index s_db_hostname = 3
index s_db_port = 4
index s_db_name = 5
index s_db_username = 6
index s_db_password = 7
index s_node_hostname = 8
index s_node_port = 9
index s_node_username = 10
index s_node_password = 11
index b_daemonize = 12
index i_plain_port = 13
index i_tls_port = 14
index s_tls_cert = 15
index s_tls_cipers = 16
index i_template_timeout = 17
index i_fatal_node_timeout = 18

pub record ConfigVal : Type 0 where
  pub name : ConfigEnum
  pub key : List ℕ
  pub type : Kind
  pub flags : ℕ

abbrev flag_none : ℕ
flag_none = 0

abbrev pub flag_unsigned : ℕ
flag_unsigned = 1

abbrev pub flag_u16bit : ℕ
flag_u16bit = 2

abbrev value : ConfigEnum → List ℕ → Kind → ℕ → ConfigVal
value name key type flags = record { name = name; key = key; type = type; flags = flags }

abbrev pub config_values : List ConfigVal
config_values =
    value s_pid_file (codes "pid_file") string_kind flag_none
    ∷ value s_log_file (codes "log_file") string_kind flag_none
    ∷ value s_log_level (codes "log_level") string_kind flag_none
    ∷ value s_db_hostname (codes "db_hostname") string_kind flag_none
    ∷ value s_db_port (codes "db_port") string_kind flag_none
    ∷ value s_db_name (codes "db_name") string_kind flag_none
    ∷ value s_db_username (codes "db_username") string_kind flag_none
    ∷ value s_db_password (codes "db_password") string_kind flag_none
    ∷ value s_node_hostname (codes "node_hostname") string_kind flag_none
    ∷ value s_node_port (codes "node_port") string_kind flag_none
    ∷ value s_node_username (codes "node_username") string_kind flag_none
    ∷ value s_node_password (codes "node_password") string_kind flag_none
    ∷ value b_daemonize (codes "daemonize") true_kind flag_none
    ∷ value i_plain_port (codes "plain_port") number_kind flag_u16bit
    ∷ value i_tls_port (codes "tls_port") number_kind flag_u16bit
    ∷ value s_tls_cert (codes "tls_certificate") string_kind flag_none
    ∷ value s_tls_cipers (codes "tls_ciper_list") string_kind flag_none
    ∷ value i_template_timeout (codes "template_timeout") number_kind flag_unsigned
    ∷ value i_fatal_node_timeout (codes "fatal_node_timeout") number_kind flag_unsigned
    ∷ []

abbrev pub same_kind : Kind → Kind → Bool
same_kind null_kind null_kind = true
same_kind false_kind false_kind = true
same_kind true_kind true_kind = true
same_kind object_kind object_kind = true
same_kind array_kind array_kind = true
same_kind string_kind string_kind = true
same_kind number_kind number_kind = true
same_kind _ _ = false

unfoldable pub check_type : Kind → Kind → Bool
check_type have want =
    same_kind want have
    || (same_kind want null_kind
        || ((same_kind want true_kind && same_kind have false_kind)
            || (same_kind want false_kind && same_kind have true_kind)))

module _ {V : Type 0} (json : JsonValues V) where
  abbrev pub check_constraint_unsigned : V → Bool
  check_constraint_unsigned val = json.is_uint val

  abbrev pub check_constraint_u16bit : V → Bool
  check_constraint_u16bit val = json.is_uint val && leb (json.get_uint val) 0xffff
