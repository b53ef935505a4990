-- ===== src/Mqtt/Client.antt =====
-- `paho_wrapper_setup` and `paho_wrapper_poll_message` of src/clib/paho_wrapper.c.
use mwptools.Common.{
  ℕ, ◌+◌, ◌-◌, Bool, true, false, ◌||◌, Option, none, some, List, [], ◌++◌, length, replicate, ◌==◌,
  if◌then◌else◌,
}
use mwptools.Common.Int.{ℤ, pos, negsuc}
use mwptools.Common.CString.{codes, starts_with}
use mwptools.Common.Result.{Result, ok, ◌>>=◌}
use mwptools.Common.Buffer.{strcpy, strncpy, text}
use mwptools.Common.Hex.{hex_before, hex_padded}

-- The fields of `MQTTClient_SSLOptions` that the code sets.
pub record Ssl : Type 0 where
  pub verify : ℕ
  pub enable_server_cert_auth : ℕ
  pub trust_store : Option (List ℕ)

-- The library: the initial options, and what `MQTTClient_create` and `MQTTClient_connect` return.
pub record Library : Type 0 where
  pub initializer : Ssl
  pub create : ℤ
  pub connect : ℤ

-- `MQTTCLIENT_SUCCESS`
abbrev pub is_success : ℤ → Bool
is_success (pos n) = n == 0
is_success (negsuc n) = false

abbrev pub uses_ssl : List ℕ → Bool
uses_ssl host =
    starts_with (codes "ssl://") host
    || (starts_with (codes "mqtts://") host || starts_with (codes "wss://") host)

-- `ssl_opts` behind the assignments.
abbrev pub ssl_options : Ssl → Option (List ℕ) → Ssl
ssl_options initial none = record initial { verify = 0; trust_store = none }
ssl_options initial (some cafile) = record initial {
  verify = 0;
  enable_server_cert_auth = 0;
  trust_store = some cafile;
}

-- `"_%08lx_"`, of a number that `rand` returns, and what is written into `clientid[16]`.
unfoldable pub client_name : ℕ → List ℕ
client_name rno = codes "_" ++ (hex_padded 8 (hex_before 16 rno []) ++ codes "_")

-- Whether the result is a client, the connection options' `ssl`, the name, `rc_open`, and how many
-- clients of the library exist.
pub record Setup : Type 0 where
  pub client : Bool
  pub ssl : Option Ssl
  pub clientid : List ℕ
  pub rc_open : ℤ
  pub clients : ℕ

-- `clientid` is an array with any bytes. A failing `MQTTClient_create` makes no client, and
-- `MQTTClient_destroy` of NULL does nothing.
unfoldable pub paho_wrapper_setup :
    Library → ℕ → List ℕ → List ℕ → Option (List ℕ) → ℕ → Result Setup
paho_wrapper_setup lib rno array host cafile clients =
    let ssl = if uses_ssl host then some (ssl_options lib.initializer cafile) else none in
    strcpy 0 (client_name rno) array >>= text >>= λ clientid.
    let created = is_success lib.create in
    let connected = is_success lib.connect in
    let destroyed = if created then clients + 1 - 1 else clients in
    ok (
      if created
      then (if connected
          then record {
            client = true;
            ssl = ssl;
            clientid = clientid;
            rc_open = lib.connect;
            clients = clients + 1;
          }
          else record {
            client = false;
            ssl = ssl;
            clientid = clientid;
            rc_open = lib.connect;
            clients = destroyed;
          })
      else record {
        client = false;
        ssl = ssl;
        clientid = clientid;
        rc_open = lib.create;
        clients = destroyed;
      })

-- What `MQTTClient_receive` returns: a code, and a message with its topic, if there is one.
pub record Received : Type 0 where
  pub rc : ℤ
  pub message : Option (List ℕ)

-- The result, `*str`, and how many messages of the library, each with its topic, are not freed.
pub record Polled : Type 0 where
  pub rc : ℤ
  pub str : Option (List ℕ)
  pub unfreed : ℕ

unfoldable pub paho_wrapper_poll_message : Received → Result Polled
paho_wrapper_poll_message r = elim r.message [
  | none ↦ ok (record { rc = r.rc; str = none; unfreed = 0 })
  | some payload ↦
      let unfreed = 0 + 1 in
      if is_success r.rc
      then (strncpy (length payload) payload (replicate (length payload + 1) 0) >>= text >>= λ s.
          ok (record { rc = r.rc; str = some s; unfreed = unfreed - 1 }))
      else ok (record { rc = r.rc; str = none; unfreed = unfreed })
]
