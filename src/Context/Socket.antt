-- ===== src/Context/Socket.antt =====
-- src/protocol/mod.rs: WebSocket, a connection with its stream.
use tungstenite_rs.Prelude.{Bool, Option, List, ℕ}
use tungstenite_rs.Types.{Message}
use tungstenite_rs.Result.{Result, ok, ◌>>◌}
use tungstenite_rs.Result.Fallible
use tungstenite_rs.Stream.{Io}
use tungstenite_rs.Context.{
  Deflate, Role, WebSocketConfig, WebSocketContext, WebSocket, is_active, can_read,
}
use tungstenite_rs.Context
use tungstenite_rs.Context.Send.{Action, write, flush}
use tungstenite_rs.Context.Sending.{Moves, bind-Moves, write-Moves, flush-Moves}

module _ (deflate : Deflate) {S : Type 0} where
  unfoldable pub with_socket : S → WebSocketContext deflate → WebSocket deflate S
  with_socket s context = record { context = context; socket = s }

  unfoldable pub from_raw_socket :
      S → Role → Option (WebSocketConfig deflate) → Result (WebSocket deflate S)
  unfolding with_socket
  from_raw_socket s role config =
      Fallible.◌>>=◌ (Context.new deflate role config) (λ context. ok (with_socket s context))

  unfoldable pub from_partially_read :
      Io S → S → List ℕ → Role → Option (WebSocketConfig deflate) → Result (WebSocket deflate S)
  unfolding with_socket
  from_partially_read world s part role config =
      Fallible.◌>>=◌ (Context.from_partially_read deflate world part role config)
        (λ context. ok (with_socket s context))

  unfoldable pub into_inner : WebSocket deflate S → S
  into_inner w = w.socket

  unfoldable pub get_config : WebSocket deflate S → WebSocketConfig deflate
  get_config w = w.context.config

  unfoldable pub socket_can_read : WebSocket deflate S → Bool
  socket_can_read w = can_read w.context.state

  unfoldable pub socket_can_write : WebSocket deflate S → Bool
  socket_can_write w = is_active w.context.state

  module _ (world : Io S) where
    unfoldable pub send : Message → Action deflate world (Unit {0})
    send message = do write deflate world message; flush deflate world

    -- Sending moves the state only forward too, and keeps what writing keeps.
    pub send-Moves :
        (message : Message) (w : WebSocket deflate S)
        → Moves deflate w.context (send message w).1.context
    unfolding send
    send-Moves message w =
        bind-Moves deflate world (write deflate world message) (λ u. flush deflate world) w
          (write-Moves deflate world message w) (λ u w'. flush-Moves deflate world w')
