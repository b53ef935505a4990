-- ===== src/Mqtt/Setup.antt =====
-- What `paho_wrapper_setup` of src/clib/paho_wrapper.c leaves.
use mwptools.Common.{
  ℕ, ◌+◌, ◌-◌, ◌^◌, ◌≤◌, ◌<◌, ◌≡◌, refl, true, false, ◌&&◌, ◌||◌, Bool, ◌∷◌, Option, none, some,
  List, [], ◌++◌, length, drop, if◌then◌else◌, arith, Bool-cases, inl, inr, length-append,
}
use mwptools.Common.CString.{codes, starts_with}
use mwptools.Common.Result.{ok, ◌>>=◌}
use mwptools.Common.Buffer.{strcpy, text, has_no_nul, strcpy-append, text-append, has_no_nul-append}
use mwptools.Common.Hex.{
  hex_before, hex_padded, has_no_nul-hex_before, length-hex_before, has_no_nul-hex_padded,
  length-hex_padded,
}
use mwptools.Mqtt.Client.{
  Ssl, Library, is_success, uses_ssl, ssl_options, client_name, Setup, paho_wrapper_setup,
}

length-client_name : (rno : ℕ) → rno < 2 ^ 31 → length (client_name rno) ≡ 10
unfolding client_name
length-client_name rno small =
    let digits : List ℕ = hex_before 16 rno [] in
    let few : length digits ≤ 8 = length-hex_before 16 7 rno [] (omega arith) in
    omega (arith, length-hex_padded 8 digits few, length-append (hex_padded 8 digits) (codes "_"))

has_no_nul-client_name : (rno : ℕ) → has_no_nul (client_name rno) ≡ true
unfolding client_name
has_no_nul-client_name rno =
    let digits : List ℕ = hex_before 16 rno [] in
    has_no_nul-append (codes "_") (hex_padded 8 digits ++ codes "_") refl (
      has_no_nul-append (hex_padded 8 digits) (codes "_")
        (has_no_nul-hex_padded 8 digits (has_no_nul-hex_before 16 rno [] refl)) refl)

-- The name is put into the array of 16 bytes.
named :
    (rno : ℕ) (array : List ℕ)
    → rno < 2 ^ 31
    → length array ≡ 16
    → (strcpy 0 (client_name rno) array >>= text) ≡ ok (client_name rno)
named rno array small size =
    let fits : length (client_name rno) < length array =
      omega (arith, length-client_name rno small) in
    rw (strcpy-append 0 [] (client_name rno) array refl fits) (
      text-append (client_name rno) (drop (length (client_name rno) + 1) array)
        (has_no_nul-client_name rno))

-- The options of a TLS connection.
abbrev pub options : Ssl → Option (List ℕ) → Ssl
options initial cafile = record {
  verify = 0;
  enable_server_cert_auth = elim cafile [ none ↦ initial.enable_server_cert_auth | some f ↦ 0 ];
  trust_store = cafile;
}

ssl_options-lem :
    (initial : Ssl) (cafile : Option (List ℕ)) → ssl_options initial cafile ≡ options initial cafile
ssl_options-lem initial none = refl
ssl_options-lem initial (some f) = refl

-- The hosts that are reached by TLS.
abbrev pub is_one_of : List (List ℕ) → List ℕ → Bool
is_one_of [] host = false
is_one_of (scheme ∷ schemes) host = starts_with scheme host || is_one_of schemes host

abbrev pub schemes : List (List ℕ)
schemes = codes "ssl://" ∷ codes "mqtts://" ∷ codes "wss://" ∷ []

uses_ssl-schemes : (host : List ℕ) → uses_ssl host ≡ is_one_of schemes host
uses_ssl-schemes host = ground arith

-- For every number that `rand` returns the name of the client fits its array of 16 bytes. A client is returned
-- exactly when it can be created and connected; then one client more exists, and otherwise none that
-- did not before. The code that is kept is that of the call that failed, or of the connection. The
-- connection has TLS options exactly for the hosts `ssl://`, `mqtts://` and `wss://`, with a certificate
-- file or without: for these the host's name
-- is never verified, and with a certificate file the certificate is not authenticated either.
pub paho_wrapper_setup-clients :
    (lib : Library) (rno : ℕ) (array host : List ℕ) (cafile : Option (List ℕ)) (clients : ℕ)
    → rno < 2 ^ 31
    → length array ≡ 16
    → (s : Setup) × (paho_wrapper_setup lib rno array host cafile clients ≡ ok s)
      × (s.clientid ≡ client_name rno)
      × (s.client ≡ (is_success lib.create && is_success lib.connect))
      × (s.clients ≡ (if s.client then clients + 1 else clients))
      × (s.rc_open ≡ (if is_success lib.create then lib.connect else lib.create))
      × (s.ssl ≡ (if is_one_of schemes host then some (options lib.initializer cafile) else none))
unfolding paho_wrapper_setup
paho_wrapper_setup-clients lib rno array host cafile clients small size =
    let name = named rno array small size in
    let ssl : Option Ssl =
      if uses_ssl host then some (ssl_options lib.initializer cafile) else none in
    let right : ssl
        ≡ (if is_one_of schemes host then some (options lib.initializer cafile) else none) =
      rw (ssl_options-lem lib.initializer cafile, uses_ssl-schemes host) refl in
    elim (Bool-cases (is_success lib.create)) [
      | inr uncreated ↦ (
        record {
          client = false;
          ssl = ssl;
          clientid = client_name rno;
          rc_open = lib.create;
          clients = clients;
        },
        rw (name, uncreated) refl,
        refl,
        rw uncreated refl,
        refl,
        rw uncreated refl,
        right,
      )
      | inl created ↦ elim (Bool-cases (is_success lib.connect)) [
        | inr unconnected ↦ (
          record {
            client = false;
            ssl = ssl;
            clientid = client_name rno;
            rc_open = lib.connect;
            clients = clients + 1 - 1;
          },
          rw (name, created, unconnected) refl,
          refl,
          rw (created, unconnected) refl,
          omega arith,
          rw created refl,
          right,
        )
        | inl connected ↦ (
          record {
            client = true;
            ssl = ssl;
            clientid = client_name rno;
            rc_open = lib.connect;
            clients = clients + 1;
          },
          rw (name, created, connected) refl,
          refl,
          rw (created, connected) refl,
          refl,
          rw created refl,
          right,
        )
      ]
    ]
