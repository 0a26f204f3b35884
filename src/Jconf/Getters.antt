-- ===== src/Jconf/Getters.antt =====
-- jconf.cpp: the values that the rest of the program asks for.
use epic_poold.Base.{ℕ, ◌%◌, ◌^◌, Bool, true, false, List, if◌then◌else◌}
use epic_poold.Rpc.{Try, ok, fault, JsonValues, ◌>>=◌}
use epic_poold.Jconf.Table.{
  Kind, true_kind, false_kind, same_kind, ConfigEnum, b_daemonize, i_plain_port, i_tls_port,
  i_template_timeout, i_fatal_node_timeout, s_pid_file, s_log_file, s_db_hostname, s_db_port,
  s_db_name, s_db_username, s_db_password, s_node_hostname, s_node_port, s_node_username,
  s_node_password, s_tls_cert, s_tls_cipers,
}
use epic_poold.Jconf.{Config, value_at, config_string}

module _ {V : Type 0} (json : JsonValues V) (get_type : V → Kind) where
  -- GetUint asserts that it has a uint32_t.
  unfoldable pub config_uint : Config V → ConfigEnum → Try ℕ
  config_uint config name = do
    v ← value_at json get_type config name
    if json.is_uint v then ok (json.get_uint v) else fault

  -- GetBool asserts that it has true or false.
  unfoldable pub daemonize : Config V → Try Bool
  daemonize config = do
    v ← value_at json get_type config b_daemonize
    if same_kind (get_type v) true_kind
        then ok true
        else if same_kind (get_type v) false_kind
        then ok false
        else fault

  unfoldable pub get_pid_file : Config V → Try (List ℕ)
  unfolding config_string
  get_pid_file config = config_string json get_type config s_pid_file

  unfoldable pub get_log_file : Config V → Try (List ℕ)
  unfolding config_string
  get_log_file config = config_string json get_type config s_log_file

  unfoldable pub get_db_hostname : Config V → Try (List ℕ)
  unfolding config_string
  get_db_hostname config = config_string json get_type config s_db_hostname

  unfoldable pub get_db_port : Config V → Try (List ℕ)
  unfolding config_string
  get_db_port config = config_string json get_type config s_db_port

  unfoldable pub get_db_name : Config V → Try (List ℕ)
  unfolding config_string
  get_db_name config = config_string json get_type config s_db_name

  unfoldable pub get_db_username : Config V → Try (List ℕ)
  unfolding config_string
  get_db_username config = config_string json get_type config s_db_username

  unfoldable pub get_db_password : Config V → Try (List ℕ)
  unfolding config_string
  get_db_password config = config_string json get_type config s_db_password

  unfoldable pub get_node_hostname : Config V → Try (List ℕ)
  unfolding config_string
  get_node_hostname config = config_string json get_type config s_node_hostname

  unfoldable pub get_node_port : Config V → Try (List ℕ)
  unfolding config_string
  get_node_port config = config_string json get_type config s_node_port

  unfoldable pub get_node_username : Config V → Try (List ℕ)
  unfolding config_string
  get_node_username config = config_string json get_type config s_node_username

  unfoldable pub get_node_password : Config V → Try (List ℕ)
  unfolding config_string
  get_node_password config = config_string json get_type config s_node_password

  unfoldable pub get_tls_cert_filename : Config V → Try (List ℕ)
  unfolding config_string
  get_tls_cert_filename config = config_string json get_type config s_tls_cert

  unfoldable pub get_tls_cipher_list : Config V → Try (List ℕ)
  unfolding config_string
  get_tls_cipher_list config = config_string json get_type config s_tls_cipers

  -- The result is a uint16_t.
  unfoldable pub get_server_port : Config V → Try ℕ
  unfolding config_uint
  get_server_port config = do port ← config_uint config i_plain_port; ok (port % 2 ^ 16)

  -- The result is a uint16_t.
  unfoldable pub get_server_tls_port : Config V → Try ℕ
  unfolding config_uint
  get_server_tls_port config = do port ← config_uint config i_tls_port; ok (port % 2 ^ 16)

  unfoldable pub get_template_timeout : Config V → Try ℕ
  unfolding config_uint
  get_template_timeout config = config_uint config i_template_timeout

  unfoldable pub get_fatal_node_timeout : Config V → Try ℕ
  unfolding config_uint
  get_fatal_node_timeout config = config_uint config i_fatal_node_timeout
