-- ===== src/Context.antt =====
-- src/protocol/mod.rs: the state of a WebSocket connection, its configuration, and the small
-- operations on it. The children have what talks to the stream: `Send`, `Receive`. Compression is
-- an interface (`Deflate`), for src/protocol/deflate/codec.rs.
pub mod Config
pub mod Send
pub mod Receive
pub mod Closing
pub mod Discard
pub mod Sending
pub mod Socket
use tungstenite_rs.Prelude.{
  ℕ, ◌+◌, ◌*◌, ◌^◌, Bool, true, false, not, ◌&&◌, ◌||◌, Option, none, some, List, ltb, is_none,
  is_some, if◌then◌else◌,
}
use tungstenite_rs.Coding.{
  OpCode, data_op, control_op, Data, continue, Control, CloseCode, is_allowed,
}
use tungstenite_rs.Types.{
  CloseFrame, FrameHeader, Frame, Message, Error, IoErrorKind, io, connection_reset,
  connection_closed, already_closed, capacity, message_too_long,
}
use tungstenite_rs.Result.{Result, ok, err, panic, Exec, pure, raise, lift, ◌>>=◌, ◌>>◌}
use tungstenite_rs.Stream.{Io}
use tungstenite_rs.Frame
use tungstenite_rs.Collector.{IncompleteMessage, usize_max}
use tungstenite_rs.Codec.{FrameCodec, Conn, set_max_out_buffer_len, set_out_buffer_write_len}
use tungstenite_rs.Codec

pub data Role : Type 0 where
  server client : Role

-- What the connection uses of `deflate::Context` and of its settings.
pub record Deflate : Type 1 where
  pub Settings : Type 0
  pub Codec : Type 0
  pub same_settings : Option Settings → Option Settings → Bool
  pub new : Role → Settings → Result Codec
  pub compress : List ℕ → Exec Codec (List ℕ)
  pub reset_encoder : Codec → Codec
  pub decompress : List ℕ → Bool → ℕ → Option ℕ → Exec Codec (List ℕ)

pub data WebSocketState : Type 0 where
  active closed_by_us closed_by_peer close_acknowledged terminated : WebSocketState

unfoldable pub is_active : WebSocketState → Bool
is_active active = true
is_active _ = false

unfoldable pub can_read : WebSocketState → Bool
can_read active = true
can_read closed_by_us = true
can_read _ = false

unfoldable pub check_not_terminated : WebSocketState → Result (Unit {0})
check_not_terminated terminated = err already_closed
check_not_terminated _ = ok tt

-- Translate "Connection reset by peer" into `ConnectionClosed` if appropriate.
unfoldable pub reset_error : WebSocketState → IoErrorKind → Error
unfolding can_read
reset_error state connection_reset =
    if not (can_read state) then connection_closed else io connection_reset
reset_error state kind = io kind

unfoldable pub check_connection_reset {ℓ} : {A : Type ℓ} → WebSocketState → Result A → Result A
unfolding reset_error
check_connection_reset state (err (io kind)) = err (reset_error state kind)
check_connection_reset state r = r

unfoldable pub check_max_size : ℕ → Option ℕ → Result (Unit {0})
check_max_size size none = ok tt
check_max_size size (some max_size) =
    if ltb max_size size then err (capacity (message_too_long size max_size)) else ok tt

unfoldable pub is_server : Role → Bool
is_server server = true
is_server client = false

-- Wire bytes a prepared frame will occupy once it has been masked.
unfoldable pub wire_size : Role → Frame → ℕ
unfolding is_server
wire_size role frame = Frame.len frame + (if is_server role then 0 else 4)

unfoldable pub is_pong : Frame → Bool
is_pong frame = elim frame.header.opcode [
  | data_op d ↦ false
  | control_op c ↦ elim c [ Control.pong ↦ true | _ ↦ false ]
]

unfoldable pub is_continue : OpCode → Bool
is_continue (data_op continue) = true
is_continue _ = false

module _ (deflate : Deflate) where
  pub record WebSocketConfig : Type 0 where
    pub read_buffer_size : ℕ
    pub write_buffer_size : ℕ
    pub max_write_buffer_size : ℕ
    pub max_message_size : Option ℕ
    pub max_frame_size : Option ℕ
    pub accept_unmasked_frames : Bool
    pub deflate_settings : Option (deflate.Settings)

  unfoldable pub default_config : WebSocketConfig
  default_config = record {
    read_buffer_size = 128 * 1024;
    write_buffer_size = 128 * 1024;
    max_write_buffer_size = usize_max;
    max_message_size = some (64 * 2 ^ 20);
    max_frame_size = some (16 * 2 ^ 20);
    accept_unmasked_frames = false;
    deflate_settings = none;
  }

  pub record WebSocketContext : Type 0 where
    pub role : Role
    pub frame : FrameCodec
    pub state : WebSocketState
    pub incomplete : Option IncompleteMessage
    pub additional_send : Option Frame
    pub unflushed_additional : Bool
    pub config : WebSocketConfig
    pub codec : Option (deflate.Codec)
    pub compressed_incomplete : Bool
    pub compression_unusable : Bool

  -- `config.deflate.map(|settings| deflate::Context::new(role, settings))`
  unfoldable pub open_codec : Role → Option (deflate.Settings) → Result (Option (deflate.Codec))
  open_codec role none = ok none
  open_codec role (some settings) = elim (deflate.new role settings) [
    | ok codec ↦ ok (some codec)
    | err e ↦ err e
    | panic ↦ panic
  ]

  unfoldable pub with_codec :
      Role
      → FrameCodec
      → WebSocketConfig
      → Result (Option (deflate.Codec))
      → Result WebSocketContext
  with_codec role frame config (ok codec) = ok (record {
    role = role;
    frame =
        set_out_buffer_write_len config.write_buffer_size
          (set_max_out_buffer_len config.max_write_buffer_size frame);
    state = active;
    incomplete = none;
    additional_send = none;
    unflushed_additional = false;
    config = config;
    codec = codec;
    compressed_incomplete = false;
    compression_unusable = false;
  })
  with_codec role frame config (err e) = err e
  with_codec role frame config panic = panic

  -- `_new`, whose `assert_valid` panics.
  unfoldable pub new_with : Role → FrameCodec → WebSocketConfig → Result WebSocketContext
  unfolding open_codec with_codec
  new_with role frame config =
      if ltb config.write_buffer_size config.max_write_buffer_size
      then with_codec role frame config (open_codec role config.deflate_settings)
      else panic

  unfoldable pub or_default : Option WebSocketConfig → WebSocketConfig
  unfolding default_config
  or_default none = default_config
  or_default (some config) = config

  unfoldable pub new : Role → Option WebSocketConfig → Result WebSocketContext
  unfolding new_with or_default
  new role config =
      let conf = or_default config in new_with role (Codec.new conf.read_buffer_size) conf

  unfoldable pub from_partially_read :
      {S : Type 0} → Io S → List ℕ → Role → Option WebSocketConfig → Result WebSocketContext
  unfolding new_with or_default
  from_partially_read world part role config =
      let conf = or_default config in
      new_with role (Codec.from_partially_read world part conf.read_buffer_size) conf

  -- `set_config`: agreed deflate settings are immutable; an invalid configuration is committed
  -- before it is rejected.
  unfoldable pub set_config : (WebSocketConfig → WebSocketConfig) → Exec WebSocketContext (Unit {0})
  set_config set_func c =
      let candidate = set_func c.config in
      if deflate.same_settings candidate.deflate_settings c.config.deflate_settings
      then if ltb candidate.write_buffer_size candidate.max_write_buffer_size
        then (
          ok tt,
          record c {
            config = candidate;
            frame =
                set_out_buffer_write_len candidate.write_buffer_size
                  (set_max_out_buffer_len candidate.max_write_buffer_size c.frame);
          },
        )
        else (panic, record c { config = candidate })
      else (panic, c)

  -- Replace `additional_send` if it is currently a `Pong` message.
  unfoldable pub set_additional : Frame → WebSocketContext → WebSocketContext
  unfolding is_pong
  set_additional add c =
      if elim c.additional_send [ none ↦ true | some f ↦ is_pong f ]
      then record c { additional_send = some add }
      else c

  -- Take the connection out of service because compression state is no longer usable.
  unfoldable pub fail_compression : WebSocketContext → WebSocketContext
  fail_compression c = record c { compression_unusable = true; state = terminated }

  unfoldable pub claims_compression : FrameHeader → WebSocketContext → Bool
  unfolding is_continue
  claims_compression header c =
      header.rsv1
      || (is_continue header.opcode && (c.compressed_incomplete || is_none c.incomplete))

  unfoldable pub fail_compression_on_discarded_frame : Frame → WebSocketContext → WebSocketContext
  unfolding claims_compression fail_compression
  fail_compression_on_discarded_frame frame c =
      if claims_compression frame.header c && is_some c.codec then fail_compression c else c

  -- The connection with its stream.
  pub record WebSocket (S : Type 0) : Type 0 where
    pub context : WebSocketContext
    pub socket : S
