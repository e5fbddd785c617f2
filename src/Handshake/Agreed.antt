-- ===== src/Handshake/Agreed.antt =====
-- A server and a client whose handshakes meet: the server's answer, with its answer on compression
-- (src/handshake/server.rs), and what the client makes of it (src/handshake/client.rs).
use tungstenite_rs.Prelude.{ℕ, ◌<◌, ◌≡◌, Option, none, some, List, [], ◌∷◌, true, false}
use tungstenite_rs.Prelude.Text.{codes}
use tungstenite_rs.Types.{http_11, Request, Response}
use tungstenite_rs.Result.{ok}
use tungstenite_rs.Stream.{Io}
use tungstenite_rs.Context.{server, client, active, WebSocketConfig, WebSocketContext}
use tungstenite_rs.Context
use tungstenite_rs.Codec
use tungstenite_rs.Deflate.{Settings}
use tungstenite_rs.Deflate.Text.{Bytes}
use tungstenite_rs.Deflate.Table.{all_visible}
use tungstenite_rs.Deflate.Negotiate.{offer_text}
use tungstenite_rs.Deflate.Agreement.{IsFit, Negotiated, accept_response-accept_offers-offer}
use tungstenite_rs.Deflate.Codec.{Flate, Lawful as LawfulFlate, Context as Compression, new}
use tungstenite_rs.Deflate.Service.{service}
use tungstenite_rs.Handshake.{derive_accept_key, go_on, finished}
use tungstenite_rs.Handshake.Machine.{StageResult, start_write}
use tungstenite_rs.Handshake.Http.{Headers, Lawful, Digest}
use tungstenite_rs.Handshake.Server.{Config, ServerHandshake, write_response, stage_finished}
use tungstenite_rs.Handshake.Upgrade.{IsUpgrade, switching_protocols}
use tungstenite_rs.Handshake.Wire.{written_response, IsField}
use tungstenite_rs.Handshake.Client.{ClientHandshake}
use tungstenite_rs.Handshake.Established.{Established}

module _ {S : Type 0} (headers : Headers) (lawful : Lawful headers) (digest : Digest) (world : Io S)
    (flate : Flate) (lawful_flate : LawfulFlate flate) (rounds : ℕ) where
  abbrev Answering : Type 0
  Answering = ServerHandshake headers digest world flate rounds

  -- The response with the answer on compression.
  abbrev extended : Response → Bytes → Response
  extended response value = record response {
    headers = headers.append response.headers (codes "Sec-WebSocket-Extensions") value;
  }

  abbrev with_settings :
      Option Settings
      → Config headers digest world flate rounds
      → Config headers digest world flate rounds
  with_settings agreed config = record config { deflate_settings = agreed }

  -- A server whose answer has been written opens a connection with what was agreed.
  pub record Serves (c : Answering) (config : Config headers digest world flate rounds) (s : S)
      (agreed : Settings) : Type 0 where
    pub context : WebSocketContext (service flate rounds)
    pub is_done :
        stage_finished headers digest world flate rounds (StageResult.done_writing s) c
        ≡ (ok (finished (record { context = context; socket = s })), c)
    pub is_server : context.role ≡ server
    pub keeps_agreement : context.config ≡ with_settings (some agreed) config

  abbrev opened :
      Config headers digest world flate rounds
      → Compression flate
      → WebSocketContext (service flate rounds)
  opened config codec = record {
    role = server;
    frame = Codec.set_out_buffer_write_len config.write_buffer_size (
        Codec.set_max_out_buffer_len config.max_write_buffer_size
          (Codec.new config.read_buffer_size));
    state = active;
    incomplete = none;
    additional_send = none;
    unflushed_additional = false;
    config = config;
    codec = some codec;
    compressed_incomplete = false;
    compression_unusable = false;
  }

  -- A client that offers compression, a server that has it on, and the request of the one at the
  -- other.
  pub record Meet (c : ClientHandshake headers world flate rounds) (c' : Answering) (r : Request)
      (key : Bytes) : Type 0 where
    pub client_config : Config headers digest world flate rounds
    pub offered : Settings
    pub client_has : c.config ≡ some client_config
    pub client_offers : client_config.deflate_settings ≡ some offered
    pub client_fits : IsFit offered
    pub client_sizes : client_config.write_buffer_size < client_config.max_write_buffer_size
    pub asks_nothing : c.verify_data.subprotocols ≡ none
    pub waits_for : c.verify_data.accept_key ≡ derive_accept_key digest.sha1 digest.encode key
    pub is_visible : all_visible c.verify_data.accept_key ≡ true
    pub server_config : Config headers digest world flate rounds
    pub given : Settings
    pub server_has : c'.config ≡ some server_config
    pub server_gives : server_config.deflate_settings ≡ some given
    pub server_fits : IsFit given
    pub server_sizes : server_config.write_buffer_size < server_config.max_write_buffer_size
    pub no_callback : c'.callback ≡ none
    pub no_refusal : c'.error_response ≡ none
    pub is_upgrade : IsUpgrade headers digest r key
    pub is_recent : r.version ≡ http_11
    pub offer :
        headers.get_all r.headers (codes "Sec-WebSocket-Extensions") ≡ offer_text offered ∷ []

  -- The two connections that come of it.
  pub record Opened (c : ClientHandshake headers world flate rounds) (c' : Answering) (r : Request)
      (key : Bytes) (m : Meet c c' r key) (got : Response) (client_socket server_socket : S)
      (tail : List ℕ) : Type 0 where
    pub agreement : Negotiated headers.from_str m.offered m.given
    pub response : Response
    pub output : Bytes
    pub is_output : write_response headers response ≡ ok output
    pub switches : response.status ≡ 101
    pub output_text :
        output ≡ written_response (headers.status_text response.status) response.headers
    pub connection_field : IsField response.headers (codes "Connection") (codes "Upgrade")
    pub upgrade_field : IsField response.headers (codes "Upgrade") (codes "websocket")
    pub accept_field :
        IsField response.headers (codes "Sec-WebSocket-Accept") c.verify_data.accept_key
    pub extension_field :
        IsField response.headers (codes "Sec-WebSocket-Extensions") agreement.response
    pub after : Answering
    pub writes :
        stage_finished headers digest world flate rounds
          (StageResult.done_reading r server_socket [])
          c'
        ≡ (ok (go_on (start_write server_socket output)), after)
    pub serves : Serves after m.server_config server_socket agreement.at_server
    pub established :
        Established headers world flate lawful_flate rounds c m.client_config got client_socket tail
          (some agreement.at_client)

  module _ (c : ClientHandshake headers world flate rounds) (c' : Answering) (r : Request)
      (key : Bytes) (m : Meet c c' r key) where
    pub negotiation : Negotiated headers.from_str m.offered m.given
    negotiation =
        accept_response-accept_offers-offer m.offered m.given m.client_fits m.server_fits
          headers.from_str lawful.from_str_visible

    -- The response of the server.
    abbrev pub sent : Response
    sent = extended (switching_protocols headers r c.verify_data.accept_key) negotiation.response

    abbrev after_answer : Answering
    after_answer = record c' {
      callback = none;
      config = some (with_settings (some negotiation.at_server) m.server_config);
    }
