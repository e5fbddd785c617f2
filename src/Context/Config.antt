-- ===== src/Context/Config.antt =====
-- src/protocol/mod.rs: the setters of WebSocketConfig, and its check.
use tungstenite_rs.Prelude.{ℕ, Bool, Option}
use tungstenite_rs.Context.{Deflate, WebSocketConfig}

module _ (deflate : Deflate) where
  unfoldable pub read_buffer_size : ℕ → WebSocketConfig deflate → WebSocketConfig deflate
  read_buffer_size size config = record config { read_buffer_size = size }

  unfoldable pub write_buffer_size : ℕ → WebSocketConfig deflate → WebSocketConfig deflate
  write_buffer_size size config = record config { write_buffer_size = size }

  unfoldable pub max_write_buffer_size : ℕ → WebSocketConfig deflate → WebSocketConfig deflate
  max_write_buffer_size size config = record config { max_write_buffer_size = size }

  unfoldable pub max_message_size : Option ℕ → WebSocketConfig deflate → WebSocketConfig deflate
  max_message_size size config = record config { max_message_size = size }

  unfoldable pub max_frame_size : Option ℕ → WebSocketConfig deflate → WebSocketConfig deflate
  max_frame_size size config = record config { max_frame_size = size }

  unfoldable pub accept_unmasked_frames : Bool → WebSocketConfig deflate → WebSocketConfig deflate
  accept_unmasked_frames accept config = record config { accept_unmasked_frames = accept }
