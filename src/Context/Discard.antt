-- ===== src/Context/Discard.antt =====
-- A connection whose compression state is lost (src/protocol/mod.rs: `fail_compression`) is out of
-- service.
use tungstenite_rs.Prelude.{ℕ, ◌≡◌, refl, Option}
use tungstenite_rs.Types.{CloseFrame, Message, already_closed}
use tungstenite_rs.Result.{err}
use tungstenite_rs.Stream.{Io}
use tungstenite_rs.Context.{
  Deflate, WebSocketContext, WebSocket, fail_compression, check_not_terminated, is_active,
}
use tungstenite_rs.Context.Send
use tungstenite_rs.Context.Receive

module _ (deflate : Deflate) {S : Type 0} (world : Io S) where
  abbrev pub out_of_service : WebSocketContext deflate → S → WebSocket deflate S
  out_of_service c s = record { context = fail_compression deflate c; socket = s }

  -- Once compression has failed, every operation on the connection answers `AlreadyClosed`, changes
  -- nothing and does not touch the stream: reading, writing any message, flushing and closing.
  pub fail_compression-already_closed :
      (turns rounds : ℕ) (message : Message) (code : Option CloseFrame)
      (c : WebSocketContext deflate) (s : S)
      → (Receive.read deflate world turns rounds (out_of_service c s)
          ≡ (err already_closed, out_of_service c s))
        × (Send.write deflate world message (out_of_service c s)
            ≡ (err already_closed, out_of_service c s))
        × (Send.flush deflate world (out_of_service c s) ≡ (err already_closed, out_of_service c s))
        × (Send.close deflate world code (out_of_service c s)
            ≡ (err already_closed, out_of_service c s))
  unfolding fail_compression Receive.read Send.write Send.flush Send.close check_not_terminated
      Send.start_close is_active
  fail_compression-already_closed turns rounds message code c s = (refl, refl, refl, refl)
