-- ===== src/Examples/Compression/Meeting.antt =====
-- A concrete request for the theorems on src/handshake/server.rs, and a client and a server that
-- meet.
use tungstenite_rs.Prelude.{◌≡◌, ◌↔◌, refl, true, none, some, [], ◌∷◌, ◌++◌, take, arith}
use tungstenite_rs.Prelude.Text.{codes, same_bytes}
use mathlib.Core.List.Memᴰ.{head, tail}
use tungstenite_rs.Types.{HeaderMap, Request, Response, get_method, http_11}
use tungstenite_rs.Result
use tungstenite_rs.Result.Fallible.{◌>>=◌}
use tungstenite_rs.Context.{default_config, WebSocketConfig}
use tungstenite_rs.Deflate.{default_settings}
use tungstenite_rs.Deflate.Text.{Bytes, eq_ignore_ascii_case}
use tungstenite_rs.Deflate.Table.{all_visible}
use tungstenite_rs.Deflate.Negotiate.{offer_text}
use tungstenite_rs.Deflate.Service.{service}
use tungstenite_rs.Handshake.{derive_accept_key}
use tungstenite_rs.Handshake.Http.{Digest, Uris, is_before_11, split_on}
use tungstenite_rs.Handshake.Server.{split_words, create_response, ServerHandshake}
use tungstenite_rs.Handshake.Fields.{among, text_is, nonce}
use tungstenite_rs.Handshake.Upgrade.{
  IsUpgrade, AnswersUpgrade, switching_protocols, create_response-iff-AnswersUpgrade,
}
use tungstenite_rs.Handshake.Answer.{verify_response-create_response}
use tungstenite_rs.Handshake.Client.{VerifyData, verify_response, ClientHandshake}
use tungstenite_rs.Handshake.Wire.{SameFields}
use tungstenite_rs.Handshake.Agreed
use tungstenite_rs.Handshake.Agreed.{Meet}
use tungstenite_rs.Handshake.Start.{plain, uri_mode, scheme_mode}
use tungstenite_rs.Connect.{host_of, behind_at}
use tungstenite_rs.Connect.Upgrading.{IsKeyOf, uri_request}
use tungstenite_rs.Connect.Meeting
use tungstenite_rs.Connect.Meeting.{IsTarget}
use tungstenite_rs.Examples.{peer}
use tungstenite_rs.Examples.Fields.{
  plain_headers, plain_headers-Lawful, lookup, lookup_all, visible,
}
use tungstenite_rs.Examples.Compression.{storing, storing-Lawful, default_settings-IsFit}

abbrev pub plain_digest : Digest
plain_digest = record {
  sha1 = λ bytes. bytes;
  encode = λ bytes. bytes ++ codes "========";
  decode = λ text. some (take 16 text);
}

abbrev pub nonce_text : Bytes
nonce_text = codes "dGhlIHNhbXBsZSBub25jZQ=="

abbrev pub request : Request
request = record {
  method = get_method;
  uri = codes "/chat";
  version = http_11;
  headers =
      (codes "upgrade", codes "WebSocket")
      ∷ (codes "connection", codes "keep-alive, Upgrade")
      ∷ (codes "sec-websocket-key", nonce_text)
      ∷ (codes "sec-websocket-version", codes "13")
      ∷ (codes "sec-websocket-extensions", offer_text default_settings)
      ∷ [];
}

request-IsUpgrade : IsUpgrade plain_headers plain_digest request nonce_text
unfolding lookup visible all_visible eq_ignore_ascii_case split_words split_on is_before_11
request-IsUpgrade = record {
  gets = refl;
  recent = refl;
  connection =
      text_is (codes "keep-alive, Upgrade") (codes "keep-alive, Upgrade") refl refl
        (among (codes "Upgrade") (tail (tail (head refl))) refl);
  upgrade = text_is (codes "WebSocket") (codes "WebSocket") refl refl refl;
  version = refl;
  key = refl;
  nonce = nonce (take 16 nonce_text) refl refl refl;
}

abbrev expected : Bytes
expected = nonce_text ++ codes "258EAFA5-E914-47DA-95CA-C5AB0DC85B11========"

abbrev answer : Response
answer = switching_protocols plain_headers request expected

create_response-iff-AnswersUpgrade_example :
    (create_response plain_headers plain_digest request ≡ Result.ok answer)
    ↔ AnswersUpgrade plain_headers plain_digest request answer
create_response-iff-AnswersUpgrade_example =
    create_response-iff-AnswersUpgrade plain_headers plain_digest request answer

abbrev waiting : VerifyData
waiting = record { accept_key = expected; subprotocols = none }

expected-derived : expected ≡ derive_accept_key plain_digest.sha1 plain_digest.encode nonce_text
unfolding derive_accept_key
expected-derived = refl

expected_visible : all_visible expected ≡ true
unfolding all_visible
expected_visible = refl

verify_response-create_response_example :
    (create_response plain_headers plain_digest request >>= verify_response plain_headers waiting)
    ≡ Result.ok answer
verify_response-create_response_example =
    verify_response-create_response plain_headers plain_headers-Lawful plain_digest request waiting
      nonce_text request-IsUpgrade expected-derived refl expected_visible

abbrev pub offering : WebSocketConfig (service storing 9)
offering = record (default_config (service storing 9)) { deflate_settings = some default_settings }

abbrev meeting_client : ClientHandshake plain_headers peer storing 9
meeting_client = record { verify_data = waiting; config = some offering }

abbrev pub meeting_server : ServerHandshake plain_headers plain_digest peer storing 9
meeting_server = record { callback = none; config = some offering; error_response = none }

client-Meet-server :
    Meet plain_headers plain_headers-Lawful plain_digest peer storing storing-Lawful 9
      meeting_client meeting_server request nonce_text
unfolding lookup_all eq_ignore_ascii_case default_config
client-Meet-server = record {
  client_config = offering;
  offered = default_settings;
  client_has = refl;
  client_offers = refl;
  client_fits = default_settings-IsFit;
  client_sizes = omega arith;
  asks_nothing = refl;
  waits_for = expected-derived;
  is_visible = expected_visible;
  server_config = offering;
  given = default_settings;
  server_has = refl;
  server_gives = refl;
  server_fits = default_settings-IsFit;
  server_sizes = omega arith;
  no_callback = refl;
  no_refusal = refl;
  is_upgrade = request-IsUpgrade;
  is_recent = refl;
  offer = refl;
}

same_fields : (map : HeaderMap) → SameFields plain_headers map map
same_fields map = record { same_get = λ name. refl; same_get_all = λ name. refl }

-- The client reads the response as the server has made it.
abbrev agreed_response : Response
agreed_response =
    Agreed.sent plain_headers plain_headers-Lawful plain_digest peer storing storing-Lawful 9
      meeting_client meeting_server request nonce_text client-Meet-server

abbrev random : Bytes
random = codes "0123456789abcdef"

random-IsKeyOf : IsKeyOf plain_digest random
unfolding all_visible
random-IsKeyOf = record { size = refl; width = refl; decodes = refl; is_visible = refl }

-- The URI is ws://user@localhost/chat.
abbrev pub plain_uris : Uris
plain_uris = record {
  scheme_str = λ uri. some (codes "ws");
  authority = λ uri. some (codes "user@localhost");
  host = λ uri. some (codes "localhost");
  port_u16 = λ uri. none;
  path_and_query = λ uri. some (codes "/chat");
}

abbrev target : Bytes
target = codes "ws://user@localhost/chat"

target-IsTarget :
    IsTarget plain_headers plain_headers-Lawful plain_uris plain_digest peer storing storing-Lawful
      9 random target offering meeting_server
unfolding uri_mode scheme_mode same_bytes host_of behind_at all_visible derive_accept_key
    default_config
target-IsTarget = record {
  authority = codes "user@localhost";
  path = codes "/chat";
  mode = plain;
  has_mode = refl;
  has_authority = refl;
  has_host = refl;
  host_visible = refl;
  has_path = refl;
  is_key = random-IsKeyOf;
  accept_visible = refl;
  offered = default_settings;
  offers = refl;
  offer_fits = default_settings-IsFit;
  sizes = omega arith;
  server_config = offering;
  given = default_settings;
  server_has = refl;
  server_gives = refl;
  server_fits = default_settings-IsFit;
  server_sizes = omega arith;
  no_callback = refl;
  no_refusal = refl;
}

-- The request that the server reads, and the response that the client reads.
abbrev asked_request : Request
asked_request =
    Meeting.sent plain_headers plain_headers-Lawful plain_uris plain_digest peer storing
      storing-Lawful 9 random target offering meeting_server target-IsTarget

asked_get : asked_request.method ≡ get_method
unfolding uri_request
asked_get = refl

asked_recent : asked_request.version ≡ http_11
unfolding uri_request
asked_recent = refl

abbrev replied : Response
replied =
    Agreed.sent plain_headers plain_headers-Lawful plain_digest peer storing storing-Lawful 9
      (Meeting.role plain_headers plain_headers-Lawful plain_uris plain_digest peer storing
        storing-Lawful 9 random target offering meeting_server target-IsTarget)
      meeting_server asked_request (plain_digest.encode random)
      (Meeting.meets plain_headers plain_headers-Lawful plain_uris plain_digest peer storing
        storing-Lawful 9 random target offering meeting_server target-IsTarget asked_request
        asked_get asked_recent (same_fields asked_request.headers))
