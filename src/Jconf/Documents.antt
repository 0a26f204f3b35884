-- ===== src/Jconf/Documents.antt =====
-- config_json.tmpl as a document, with the types of its values.
use epic_poold.Base.{◌≡◌, refl, true, false, codes, All}
use epic_poold.Rpc.Documents.{
  Value, null, boolean, number, text, array, object, close, member, find, json,
}
use epic_poold.Jconf.Table.{
  Kind, null_kind, false_kind, true_kind, object_kind, array_kind, string_kind, number_kind,
  check_type, config_values,
}
use epic_poold.Jconf.{accepts}
use epic_poold.Jconf.Parsing.{Fits}

abbrev pub get_type : Value → Kind
get_type null = null_kind
get_type (boolean true) = true_kind
get_type (boolean false) = false_kind
get_type (number n) = number_kind
get_type (text s) = string_kind
get_type (array entries) = array_kind
get_type (object members) = object_kind

-- What the default file says.
abbrev pub default_document : Value
default_document = object (
    member (codes "pid_file") (text (codes "")) (
      member (codes "log_file") (text (codes "")) (
        member (codes "log_level") (text (codes "debug_lo")) (
          member (codes "db_hostname") (text (codes "")) (
            member (codes "db_port") (text (codes "")) (
              member (codes "db_name") (text (codes "")) (
                member (codes "db_username") (text (codes "")) (
                  member (codes "db_password") (text (codes "")) (
                    member (codes "node_hostname") (text (codes "127.0.0.1")) (
                      member (codes "node_port") (text (codes "3416")) (
                        member (codes "node_username") (text (codes "")) (
                          member (codes "node_password") (text (codes "")) (
                            member (codes "daemonize") (boolean false) (
                              member (codes "plain_port") (number 3333) (
                                member (codes "tls_port") (number 4444) (
                                  member (codes "tls_certificate") (text (codes "crt.pem")) (
                                    member (codes "tls_ciper_list") (text (codes "HIGH")) (
                                      member (codes "fatal_node_timeout") (number 300) (
                                        member (codes "template_timeout") (number 60)
                                          (close))))))))))))))))))))

pub text_of_type :
    (v : Value) → get_type v ≡ string_kind → (json default_document).is_string v ≡ true
text_of_type (text s) e = refl
text_of_type null e = cc
text_of_type (boolean true) e = cc
text_of_type (boolean false) e = cc
text_of_type (number n) e = cc
text_of_type (array entries) e = cc
text_of_type (object members) e = cc

pub default_document-All :
    All (Fits (json default_document) get_type default_document) config_values
unfolding find accepts check_type
default_document-All = (
  (text (codes ""), refl, refl),
  (
    (text (codes ""), refl, refl),
    (
      (text (codes "debug_lo"), refl, refl),
      (
        (text (codes ""), refl, refl),
        (
          (text (codes ""), refl, refl),
          (
            (text (codes ""), refl, refl),
            (
              (text (codes ""), refl, refl),
              (
                (text (codes ""), refl, refl),
                (
                  (text (codes "127.0.0.1"), refl, refl),
                  (
                    (text (codes "3416"), refl, refl),
                    (
                      (text (codes ""), refl, refl),
                      (
                        (text (codes ""), refl, refl),
                        (
                          (boolean false, refl, refl),
                          (
                            (number 3333, refl, refl),
                            (
                              (number 4444, refl, refl),
                              (
                                (text (codes "crt.pem"), refl, refl),
                                (
                                  (text (codes "HIGH"), refl, refl),
                                  ((number 60, refl, refl), ((number 300, refl, refl), tt)),
                                ),
                              ),
                            ),
                          ),
                        ),
                      ),
                    ),
                  ),
                ),
              ),
            ),
          ),
        ),
      ),
    ),
  ),
)
