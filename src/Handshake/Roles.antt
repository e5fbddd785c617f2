-- ===== src/Handshake/Roles.antt =====
-- The roles of a handshake with their parsers, and the handshakes on a stream: src/server.rs, and
-- `client_with_config` and `client` of src/client.rs.
use tungstenite_rs.Prelude.{ℕ, Option, none}
use tungstenite_rs.Types.{Request, Response}
use tungstenite_rs.Result.{Result}
use tungstenite_rs.Result.Fallible.{◌>>=◌}
use tungstenite_rs.Stream.{Io}
use tungstenite_rs.Deflate.Codec.{Flate}
use tungstenite_rs.Handshake.{Ending, HandshakeRole, handshake}
use tungstenite_rs.Handshake.Http.{Headers, Httparse, Uris, Digest}
use tungstenite_rs.Handshake.Parse.{parse_request, parse_response}
use tungstenite_rs.Handshake.Client.{ClientHandshake}
use tungstenite_rs.Handshake.Client
use tungstenite_rs.Handshake.Server.{ServerHandshake, Callback, Config}
use tungstenite_rs.Handshake.Server
use tungstenite_rs.Handshake.Start

-- How many stages the loop may go through, which is more than a role has.
abbrev pub stage_limit : ℕ
stage_limit = 3

module _ {S : Type 0} (headers : Headers) (parser : Httparse) (world : Io S) (flate : Flate)
    (rounds : ℕ) where
  abbrev pub client_role :
      HandshakeRole
        (ClientHandshake headers world flate rounds)
        S
        Response
        (Client.Final headers world flate rounds)
  client_role = record {
    try_parse = parse_response headers parser;
    stage_finished = Client.stage_finished headers world flate rounds;
  }

  module _ (digest : Digest) where
    abbrev pub server_role :
        HandshakeRole
          (ServerHandshake headers digest world flate rounds)
          S
          Request
          (Server.Final headers digest world flate rounds)
    server_role = record {
      try_parse = parse_request headers parser;
      stage_finished = Server.stage_finished headers digest world flate rounds;
    }

    abbrev pub Accepted : Type 0
    Accepted = Result (
        Ending (ServerHandshake headers digest world flate rounds) S
          (Server.Final headers digest world flate rounds))

    unfoldable pub accept_hdr_with_config :
        S
        → Option (Callback headers digest world flate rounds)
        → Option (Config headers digest world flate rounds)
        → Accepted
    accept_hdr_with_config s callback config =
        let (m, role) = Server.start headers digest world flate rounds s callback config in
        handshake world server_role stage_limit role m

    unfoldable pub accept_with_config :
        S → Option (Config headers digest world flate rounds) → Accepted
    unfolding accept_hdr_with_config
    accept_with_config s config = accept_hdr_with_config s none config

    unfoldable pub accept : S → Accepted
    unfolding accept_with_config
    accept s = accept_with_config s none

    unfoldable pub accept_hdr : S → Option (Callback headers digest world flate rounds) → Accepted
    unfolding accept_hdr_with_config
    accept_hdr s callback = accept_hdr_with_config s callback none

    abbrev pub Asked : Type 0
    Asked = Result (
        Ending (ClientHandshake headers world flate rounds) S
          (Client.Final headers world flate rounds))

    unfoldable pub client_with_config :
        Uris → Request → S → Option (Config headers digest world flate rounds) → Asked
    client_with_config uris request s config = do
      (m, role) ← Start.start headers uris digest world flate rounds s request config
      handshake world client_role stage_limit role m

    unfoldable pub client : Uris → Request → S → Asked
    unfolding client_with_config
    client uris request s = client_with_config uris request s none
