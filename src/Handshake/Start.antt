-- ===== src/Handshake/Start.antt =====
-- src/handshake/client.rs: the request of a client, and how its handshake starts; with `uri_mode` of
-- src/client.rs and `Mode` of src/stream.rs.
use tungstenite_rs.Prelude.{ℕ, not, Option, none, some, List, [], ◌∷◌, ◌++◌, ◌==◌, if◌then◌else◌}
use tungstenite_rs.Prelude.Text.{codes, same_bytes}
use tungstenite_rs.Types.{
  utf8, url, protocol, no_path_or_query, unsupported_url_scheme, invalid_header, wrong_http_method,
  wrong_http_version, HeaderMap, Request,
}
use tungstenite_rs.Result.{Result, ok, err, or_panic}
use tungstenite_rs.Result.Fallible.{◌>>=◌, ok_or}
use tungstenite_rs.Stream.{Io}
use tungstenite_rs.Deflate.{Settings}
use tungstenite_rs.Deflate.Text.{Bytes, trim, bad_header}
use tungstenite_rs.Deflate.Negotiate.{offer}
use tungstenite_rs.Deflate.Codec.{Flate}
use tungstenite_rs.Handshake.{version_as_str, derive_accept_key}
use tungstenite_rs.Handshake.Http.{
  Headers, Uris, Digest, contains_key, is_get, is_before_11, split_on, any_word,
}
use tungstenite_rs.Handshake.Machine.{HandshakeMachine, start_write}
use tungstenite_rs.Handshake.Client.{Config, ClientHandshake, offered_deflate}

pub data Mode : Type 0 where
  plain tls : Mode

-- WEBSOCKET_HEADERS, with KEY_HEADERNAME at its end.
abbrev pub key_header_name : Bytes
key_header_name = codes "Sec-WebSocket-Key"

abbrev pub websocket_headers : List Bytes
websocket_headers =
    codes "Host"
    ∷ codes "Connection"
    ∷ codes "Upgrade"
    ∷ codes "Sec-WebSocket-Version"
    ∷ key_header_name
    ∷ []

unfoldable pub scheme_mode : Option Bytes → Result Mode
scheme_mode none = err (url unsupported_url_scheme)
scheme_mode (some scheme) =
    if same_bytes scheme (codes "ws")
    then ok plain
    else if same_bytes scheme (codes "wss")
    then ok tls
    else err (url unsupported_url_scheme)

unfoldable pub uri_mode : Uris → Bytes → Result Mode
unfolding scheme_mode
uri_mode uris uri = scheme_mode (uris.scheme_str uri)

-- The names that are written in another case than the header map's.
unfoldable pub written_name : Bytes → Bytes
written_name name =
    if same_bytes name (codes "sec-websocket-protocol")
    then codes "Sec-WebSocket-Protocol"
    else if same_bytes name (codes "origin")
    then codes "Origin"
    else name

abbrev pub header_line : Bytes → Bytes → Bytes
header_line name value = name ++ codes ": " ++ value ++ 13 ∷ 10 ∷ []

-- `rand::random` gives the bytes.
unfoldable pub generate_key : Digest → Bytes → Bytes
generate_key digest random = digest.encode random

module _ (headers : Headers) where
  -- The error for a header that is not there.
  unfoldable pub missing_header {ℓ} : {A : Type ℓ} → Bytes → Result A
  missing_header name = do
    known ← or_panic (headers.name_from_bytes name)
    err (protocol (invalid_header known))

  unfoldable pub required {ℓ} : {A : Type ℓ} → Bytes → Option A → Result A
  unfolding missing_header
  required name none = missing_header name
  required name (some a) = ok a

  -- The fields that must be there, and the map without them.
  unfoldable pub write_required : List Bytes → HeaderMap → Result (Bytes × HeaderMap)
  write_required [] map = ok ([], map)
  write_required (name ∷ names) map =
      let (found, left) = headers.remove map name in
      (do
        value ← required name found
        text ← ok_or utf8 (headers.to_str value)
        (lines, rest) ← write_required names left
        ok (header_line name text ++ lines, rest))

  -- The other fields, with their values as they are.
  unfoldable pub write_others : HeaderMap → Result Bytes
  write_others [] = ok []
  write_others ((name, value) ∷ map) =
      if any_word name websocket_headers
      then err (protocol (invalid_header name))
      else (do lines ← write_others map; ok (header_line (written_name name) value ++ lines))

  -- What is written, and the key.
  unfoldable pub generate_request : Uris → Request → Result (Bytes × Bytes)
  generate_request uris request = do
    path ← ok_or (url no_path_or_query) (uris.path_and_query request.uri)
    version ← version_as_str request.version
    found ← required key_header_name (headers.get request.headers key_header_name)
    key ← ok_or utf8 (headers.to_str found)
    (lines, left) ← write_required websocket_headers request.headers
    others ← write_others left
    ok (
      codes "GET " ++ path ++ codes " " ++ version ++ 13 ∷ 10 ∷ (lines ++ others ++ 13 ∷ 10 ∷ []),
      key,
    )

  unfoldable pub trim_all : List Bytes → List Bytes
  trim_all [] = []
  trim_all (part ∷ parts) = trim part ∷ trim_all parts

  unfoldable pub split_subprotocols : Option Bytes → Result (Option (List Bytes))
  split_subprotocols none = ok none
  split_subprotocols (some value) = do
    text ← ok_or utf8 (headers.to_str value)
    ok (some (trim_all (split_on (λ b. b == b',') [] text)))

  unfoldable pub extract_subprotocols_from_request : Request → Result (Option (List Bytes))
  unfolding split_subprotocols
  extract_subprotocols_from_request request =
      split_subprotocols (headers.get request.headers (codes "Sec-WebSocket-Protocol"))

  -- The request with the offer of compression, if it is enabled.
  unfoldable pub with_offer : Option Settings → Request → Result Request
  with_offer none request = ok request
  with_offer (some settings) request = do
    value ← offer headers.from_str settings
    if contains_key headers request.headers (codes "Sec-WebSocket-Extensions")
        then err bad_header
        else ok (record request {
          headers = headers.append request.headers (codes "Sec-WebSocket-Extensions") value;
        })

  module _ (uris : Uris) (digest : Digest) {S : Type 0} (world : Io S) (flate : Flate)
      (rounds : ℕ) where
    -- What follows the guards on the method and the version.
    unfoldable pub start_request :
        S
        → Request
        → Option (Config headers world flate rounds)
        → Result (HandshakeMachine S × ClientHandshake headers world flate rounds)
    start_request s request config = do
      mode ← uri_mode uris request.uri
      subprotocols ← extract_subprotocols_from_request request
      offering ← with_offer (offered_deflate headers world flate rounds config) request
      (output, key) ← generate_request uris offering
      ok (
        start_write s output,
        record {
          verify_data = record {
            accept_key = derive_accept_key digest.sha1 digest.encode key;
            subprotocols = subprotocols;
          };
          config = config;
        },
      )

    unfoldable pub start :
        S
        → Request
        → Option (Config headers world flate rounds)
        → Result (HandshakeMachine S × ClientHandshake headers world flate rounds)
    unfolding start_request
    start s request config =
        if not (is_get request.method)
        then err (protocol wrong_http_method)
        else if is_before_11 request.version
        then err (protocol wrong_http_version)
        else start_request s request config
