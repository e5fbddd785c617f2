-- ===== src/Examples/Compression/Endings.antt =====
-- A concrete parser for the theorems on the whole handshakes of src/handshake/client.rs and
-- src/handshake/server.rs.
use tungstenite_rs.Prelude.{suc, ℕ, some, [], ◌∷◌, length, ltb, if◌then◌else◌}
use tungstenite_rs.Prelude.Text.{codes}
use mathlib.Core.List.{Memᴰ}
use tungstenite_rs.Deflate.Text.{Bytes}
use tungstenite_rs.Handshake.Http.{Httparse, Parsed, complete, partial, RawRequest, RawResponse}
use tungstenite_rs.Stream.{done}
use tungstenite_rs.Connect.Redirects.{Network, connect_with_config}
use tungstenite_rs.Connect.Redirects.Attempts.{Chain, connect_with_config-Chain}
use tungstenite_rs.Examples.{Peer, peer}
use tungstenite_rs.Examples.Rounds.{talking_peer}
use tungstenite_rs.Examples.Fields.{plain_headers}
use tungstenite_rs.Examples.Compression.{storing}
use tungstenite_rs.Examples.Compression.Answers.{response}
use tungstenite_rs.Examples.Compression.Meeting.{request, plain_digest, plain_uris, offering}

-- What stands in four bytes, once they are there.
abbrev of_four : {A : Type 0} → A → ℕ → Bytes → Parsed A
of_four a n bytes = if ltb (length bytes) 4 then partial else complete 4 a

abbrev raw_request : RawRequest
raw_request = record {
  method = some (codes "GET");
  path = some (codes "/chat");
  version = some 1;
  headers = request.headers;
}

abbrev raw_response : RawResponse
raw_response = record { version = some 1; code = some 101; headers = response.headers }

abbrev four_parser : Httparse
four_parser = record {
  parse_request = of_four raw_request;
  parse_response = of_four raw_response;
  parse_headers = of_four request.headers;
}

-- Every host has one address, which takes a connection.
abbrev plain_network : Network ℕ ℕ Peer
plain_network = record {
  to_socket_addrs = λ host port calls. (done (7 ∷ []), suc calls);
  connect = λ addr calls. (some talking_peer, suc calls);
  set_nodelay = λ s calls. (done tt, calls);
}

connect_with_config-Chain_example :
    Chain plain_network plain_headers plain_uris four_parser plain_digest peer storing 9 2 request
      (some offering)
      0
      request.uri
      0
      (connect_with_config plain_network plain_headers plain_uris four_parser plain_digest peer
        storing 9 request
        (some offering)
        2
        0)
connect_with_config-Chain_example =
    connect_with_config-Chain plain_network plain_headers plain_uris four_parser plain_digest peer
      storing 9 2 request (some offering) 0
