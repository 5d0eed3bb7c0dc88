-- ===== src/Codes.antt =====
-- The result codes of the middleware: include/common/errors.h.
pub mod Text
pub mod Laws
mod Tests
use paum_io_t.Common.{Bool, not, List, [], ◌∷◌, Option, none, some, if◌then◌else◌}
use paum_io_t.Common.Int.{ℤ, pos, negsuc, neg, int_eq, is_negative}

-- `paumiot_result_t`
pub data Code : Type 0 where
  success general invalid_param null_pointer out_of_memory buffer_overflow timeout not_initialized
        already_initialized not_supported permission_denied network connection_failed
        connection_lost connection_refused socket_error bind_failed listen_failed accept_failed
        protocol protocol_unknown protocol_unsupported packet_malformed packet_too_large
        invalid_packet_type protocol_violation mqtt mqtt_invalid_protocol mqtt_invalid_client_id
        mqtt_invalid_topic mqtt_invalid_qos mqtt_subscription_failed mqtt_publish_failed
        mqtt_auth_failed coap coap_invalid_method coap_invalid_option coap_invalid_uri
        coap_blockwise_error coap_observe_error data_error database_connection database_query
        sensor_error device_not_found data_validation security tls_init tls_handshake
        certificate_error auth_failed encryption_failed config config_file_not_found
        config_parse_error config_validation_error smp pdl pal bll dal :
      Code

-- The number that an enumerator stands for.
unfoldable pub value : Code → ℤ
value success = pos 0
value general = neg 1000
value invalid_param = neg 999
value null_pointer = neg 998
value out_of_memory = neg 997
value buffer_overflow = neg 996
value timeout = neg 995
value not_initialized = neg 994
value already_initialized = neg 993
value not_supported = neg 992
value permission_denied = neg 991
value network = neg 2000
value connection_failed = neg 1999
value connection_lost = neg 1998
value connection_refused = neg 1997
value socket_error = neg 1996
value bind_failed = neg 1995
value listen_failed = neg 1994
value accept_failed = neg 1993
value protocol = neg 3000
value protocol_unknown = neg 2999
value protocol_unsupported = neg 2998
value packet_malformed = neg 2997
value packet_too_large = neg 2996
value invalid_packet_type = neg 2995
value protocol_violation = neg 2994
value mqtt = neg 4000
value mqtt_invalid_protocol = neg 3999
value mqtt_invalid_client_id = neg 3998
value mqtt_invalid_topic = neg 3997
value mqtt_invalid_qos = neg 3996
value mqtt_subscription_failed = neg 3995
value mqtt_publish_failed = neg 3994
value mqtt_auth_failed = neg 3993
value coap = neg 5000
value coap_invalid_method = neg 4999
value coap_invalid_option = neg 4998
value coap_invalid_uri = neg 4997
value coap_blockwise_error = neg 4996
value coap_observe_error = neg 4995
value data_error = neg 6000
value database_connection = neg 5999
value database_query = neg 5998
value sensor_error = neg 5997
value device_not_found = neg 5996
value data_validation = neg 5995
value security = neg 7000
value tls_init = neg 6999
value tls_handshake = neg 6998
value certificate_error = neg 6997
value auth_failed = neg 6996
value encryption_failed = neg 6995
value config = neg 8000
value config_file_not_found = neg 7999
value config_parse_error = neg 7998
value config_validation_error = neg 7997
value smp = neg 9000
value pdl = neg 10000
value pal = neg 11000
value bll = neg 12000
value dal = neg 13000

-- Every enumerator, in the order of the declaration.
abbrev pub all_codes : List Code
all_codes =
    success ∷ general ∷ invalid_param ∷ null_pointer ∷ out_of_memory ∷ buffer_overflow ∷ timeout
    ∷ not_initialized ∷ already_initialized ∷ not_supported ∷ permission_denied ∷ network
    ∷ connection_failed ∷ connection_lost ∷ connection_refused ∷ socket_error ∷ bind_failed
    ∷ listen_failed ∷ accept_failed ∷ protocol ∷ protocol_unknown ∷ protocol_unsupported
    ∷ packet_malformed ∷ packet_too_large ∷ invalid_packet_type ∷ protocol_violation ∷ mqtt
    ∷ mqtt_invalid_protocol ∷ mqtt_invalid_client_id ∷ mqtt_invalid_topic ∷ mqtt_invalid_qos
    ∷ mqtt_subscription_failed ∷ mqtt_publish_failed ∷ mqtt_auth_failed ∷ coap ∷ coap_invalid_method
    ∷ coap_invalid_option ∷ coap_invalid_uri ∷ coap_blockwise_error ∷ coap_observe_error
    ∷ data_error ∷ database_connection ∷ database_query ∷ sensor_error ∷ device_not_found
    ∷ data_validation ∷ security ∷ tls_init ∷ tls_handshake ∷ certificate_error ∷ auth_failed
    ∷ encryption_failed ∷ config ∷ config_file_not_found ∷ config_parse_error
    ∷ config_validation_error ∷ smp ∷ pdl ∷ pal ∷ bll ∷ dal ∷ []

abbrev find_value : ℤ → List Code → Option Code
unfolding value
find_value v [] = none
find_value v (c ∷ cs) = if int_eq (value c) v then some c else find_value v cs

-- The enumerator that a number stands for: the label that a `switch` on it takes.
unfoldable pub code_of_value : ℤ → Option Code
unfolding value
code_of_value v = find_value v all_codes

-- `paumiot_is_success`
unfoldable pub is_success : Code → Bool
unfolding value
is_success c = int_eq (value c) (pos 0)

-- `paumiot_is_error`
unfoldable pub is_error : Code → Bool
unfolding value
is_error c = not (int_eq (value c) (pos 0))
