-- ===== src/Handshake/Started.antt =====
-- Starting a handshake never panics (`ClientHandshake::start` of src/handshake/client.rs), and the
-- handshakes on a stream end (src/server.rs, and `client_with_config` of src/client.rs).
use tungstenite_rs.Prelude.{ℕ, ◌≡◌, true, Option, some, List, is_some}
use mathlib.Core.List.{Memᴰ}
use tungstenite_rs.Result.{Result}
use tungstenite_rs.Stream.{Io, Lawful}
use tungstenite_rs.Deflate.Text.{Bytes}
use tungstenite_rs.Deflate.Table.{all_visible}
use tungstenite_rs.Deflate.Codec.{Flate, Lawful as LawfulFlate}
use tungstenite_rs.Handshake.Http.{Headers, Uris, Digest}
use tungstenite_rs.Handshake.Machine.{HandshakeMachine}
use tungstenite_rs.Handshake.Loop.{IsReady}
use tungstenite_rs.Handshake.Server.{Config}
use tungstenite_rs.Handshake.Client.{ClientHandshake}
use tungstenite_rs.Handshake.Start.{websocket_headers}

module _ (headers : Headers)
    (known : (name : Bytes)
      → Memᴰ name websocket_headers
      → is_some (headers.name_from_bytes name) ≡ true) where
  module _
      (takes_visible : (text : Bytes)
        → all_visible text ≡ true
        → headers.from_str text ≡ some text) where
    module _ {S : Type 0} (uris : Uris) (digest : Digest) (world : Io S) (flate : Flate)
        (lawful : LawfulFlate flate) (rounds : ℕ) where
      -- A machine that can go on, and a role with the configuration that was given.
      abbrev IsStarted :
          Option (Config headers digest world flate rounds)
          → HandshakeMachine S × ClientHandshake headers world flate rounds
          → Type 0
      IsStarted config started = IsReady started.0.state × (started.1.config ≡ config)
