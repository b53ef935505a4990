-- ===== src/Mqtt/Tests.antt =====
-- MQTT clients and messages of src/clib/paho_wrapper.c.
use mwptools.Common.{
  ℕ, ◌≡◌, refl, false, none, some, List, ◌∷◌, ◌++◌, replicate, if◌then◌else◌, arith,
}
use mwptools.Common.Int.{pos}
use mwptools.Common.CString.{codes}
use mwptools.Common.Result.{ok}
use mwptools.Mqtt.Client.{
  Library, client_name, Setup, paho_wrapper_setup, paho_wrapper_poll_message,
}
use mwptools.Mqtt.Setup.{options, paho_wrapper_setup-clients}
use mwptools.Mqtt.Poll.{paho_wrapper_poll_message-text}

-- A broker that refuses the connection.
abbrev refusing : Library
refusing = record {
  initializer = record { verify = 0; enable_server_cert_auth = 1; trust_store = none };
  create = pos 0;
  connect = pos 5;
}

abbrev broker : List ℕ
broker = codes "mqtts://broker"

clientid : client_name 48879 ≡ codes "_0000beef_"
unfolding client_name
clientid = refl

paho_wrapper_setup-clients_example :
    (s : Setup) × (paho_wrapper_setup refusing 48879 (replicate 16 7) broker (some (codes "ca")) 2
      ≡ ok s)
    × (s.clientid ≡ client_name 48879)
    × (s.client ≡ false)
    × (s.clients ≡ (if s.client then 3 else 2))
    × (s.rc_open ≡ pos 5)
    × (s.ssl ≡ some (options refusing.initializer (some (codes "ca"))))
paho_wrapper_setup-clients_example =
    paho_wrapper_setup-clients refusing 48879 (replicate 16 7) broker (some (codes "ca")) 2
      (omega arith) refl

paho_wrapper_poll_message-text_example :
    paho_wrapper_poll_message (record { rc = pos 0; message = some (codes "wp" ++ 0 ∷ codes "x") })
    ≡ ok (record { rc = pos 0; str = some (codes "wp"); unfreed = 0 })
paho_wrapper_poll_message-text_example =
    paho_wrapper_poll_message-text
      (record { rc = pos 0; message = some (codes "wp" ++ 0 ∷ codes "x") })
