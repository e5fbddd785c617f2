-- ===== src/Context/Send.antt =====
-- src/protocol/mod.rs: `write`, `flush`, `_write`, `close` and `buffer_frame` of WebSocketContext.
use tungstenite_rs.Prelude.{
  ℕ, Bool, true, false, not, ◌&&◌, Option, none, some, List, if◌then◌else◌, is_some,
}
use tungstenite_rs.Coding.{Data, data_op, text, binary}
use tungstenite_rs.Types.{
  CloseFrame, Frame, Message, already_closed, connection_closed, write_buffer_full, protocol,
  send_after_closing, non_zero_reserved_bits,
}
use tungstenite_rs.Result.{Result, ok, err, panic, Exec, pure, raise, ◌>>=◌, ◌>>◌}
use tungstenite_rs.Stream.{Io}
use tungstenite_rs.Frame
use tungstenite_rs.Codec.{Conn, can_buffer}
use tungstenite_rs.Codec
use tungstenite_rs.Context.{
  Deflate, closed_by_us, terminated, is_active, can_read, check_not_terminated,
  check_connection_reset, wire_size, is_server, WebSocketContext, WebSocket, set_additional,
}

module _ (deflate : Deflate) {S : Type 0} (world : Io S) where
  abbrev pub Action : Type 0 → Type 0
  Action A = Exec (WebSocket deflate S) A

  -- The codec and the stream within the connection.
  unfoldable pub on_conn : {A : Type 0} → Exec (Conn S) A → Action A
  on_conn m w =
      let (r, conn) = m (record { codec = w.context.frame; stream = w.socket }) in
      (r, record { context = record (w.context) { frame = conn.codec }; socket = conn.stream })

  unfoldable pub update : (WebSocketContext deflate → WebSocketContext deflate) → Action (Unit {0})
  update f w = (ok tt, record w { context = f w.context })

  -- A client's frame gets a random mask.
  unfoldable pub mask_frame : Frame → Action Frame
  mask_frame frame w =
      if is_server w.context.role
      then (ok frame, w)
      else (let (mask, s) = world.random_mask w.socket in
          (ok (Frame.set_random_mask mask frame), record w { socket = s }))

  unfoldable pub translate : {A : Type 0} → Action A → Action A
  translate m w = let (r, w') = m w in (check_connection_reset w.context.state r, w')

  -- Write a single frame into the write-buffer.
  unfoldable pub buffer_frame : Frame → Action (Unit {0})
  unfolding mask_frame translate
  buffer_frame frame = do
    masked ← mask_frame frame
    translate (on_conn (Codec.buffer_frame world masked))

  -- A system message that does not fit is put back.
  unfoldable pub put_back :
      Result (Unit {0}) × WebSocket deflate S → Result Bool × WebSocket deflate S
  put_back (ok u, w) = (ok true, w)
  put_back (err (write_buffer_full (Message.frame msg)), w) =
      (ok false, record w { context = set_additional deflate msg w.context })
  put_back (err (write_buffer_full msg), w) = (panic, w)
  put_back (err e, w) = (err e, w)
  put_back (panic, w) = (panic, w)

  unfoldable pub send_additional : Action Bool
  unfolding put_back
  send_additional w = elim w.context.additional_send [
    | none ↦ (ok w.context.unflushed_additional, w)
    | some msg ↦
        put_back
          (buffer_frame msg (record w { context = record (w.context) { additional_send = none } }))
  ]

  unfoldable pub buffer_given : Option Frame → Action (Unit {0})
  buffer_given none = pure tt
  buffer_given (some frame) = buffer_frame frame

  -- If we're closing and there is nothing to send anymore, the server closes the connection.
  unfoldable pub close_if_done : Bool → Action Bool
  unfolding update
  close_if_done should_flush w =
      if is_server w.context.role && not (can_read w.context.state)
      then (do
        on_conn (Codec.write_out_buffer world)
        update (λ c. record c { state = terminated })
        raise connection_closed)
          w
      else (ok should_flush, w)

  -- `_write`
  unfoldable pub write_data : Option Frame → Action Bool
  write_data given = do
    buffer_given given
    should_flush ← send_additional
    close_if_done should_flush

  -- Flush writes.
  unfoldable pub flush : Action (Unit {0})
  unfolding update
  flush w =
      if w.context.compression_unusable
      then (err already_closed, w)
      else (do
        write_data none
        on_conn (Codec.write_out_buffer world)
        on_conn (Codec.flush_stream world)
        update (λ c. record c { unflushed_additional = false }))
          w

  unfoldable pub start_close : Option CloseFrame → Action (Unit {0})
  unfolding update
  start_close code w =
      if is_active w.context.state
      then (do
        update (λ c. record c { state = closed_by_us })
        write_data (some (Frame.close code))
        pure tt)
          w
      else (ok tt, w)

  -- Close the connection.
  unfoldable pub close : Option CloseFrame → Action (Unit {0})
  unfolding start_close
  close code = do start_close code; flush

  compressed_frame : List ℕ → Data → Frame
  compressed_frame bytes opcode =
      let plain = Frame.message bytes (data_op opcode) true in
      record plain { header = record (plain.header) { rsv1 = true } }

  reset_encoder : deflate.Codec → WebSocketContext deflate → WebSocketContext deflate
  reset_encoder codec c = record c { codec = some (deflate.reset_encoder codec) }

  after_compress : Frame → Data → Result (List ℕ) × deflate.Codec → Action Frame
  unfolding compressed_frame reset_encoder
  after_compress plain opcode (ok compressed, codec) w =
      let frame = compressed_frame compressed opcode in
      if can_buffer w.context.frame (wire_size w.context.role frame)
      then (ok frame, record w { context = record (w.context) { codec = some codec } })
      else (ok plain, record w { context = reset_encoder codec w.context })
  after_compress plain opcode (err e, codec) w =
      (err e, record w { context = reset_encoder codec w.context })
  after_compress plain opcode (panic, codec) w =
      (panic, record w { context = record (w.context) { codec = some codec } })

  -- The closure of `write` that compresses a data frame, if compression is agreed.
  unfoldable pub prepare_data : List ℕ → Data → Action Frame
  unfolding after_compress
  prepare_data bytes opcode w =
      let plain = Frame.message bytes (data_op opcode) true in
      elim w.context.codec [
        | none ↦ (ok plain, w)
        | some codec ↦
            if can_buffer w.context.frame (wire_size w.context.role plain)
            then after_compress plain opcode (deflate.compress plain.payload codec) w
            else (err (write_buffer_full (Message.frame plain)), w)
      ]

  unfoldable pub send_frame : Frame → Action (Unit {0})
  send_frame frame = do
    should_flush ← write_data (some frame)
    if should_flush then flush else pure tt

  unfoldable pub write_message : Message → Action (Unit {0})
  unfolding update
  write_message (Message.text bytes) = do frame ← prepare_data bytes text; send_frame frame
  write_message (Message.binary bytes) = do frame ← prepare_data bytes binary; send_frame frame
  write_message (Message.ping bytes) = send_frame (Frame.ping bytes)
  write_message (Message.pong bytes) = do
    update (set_additional deflate (Frame.pong bytes))
    write_data none
    pure tt
  write_message (Message.close code) = close code
  write_message (Message.frame frame) = λ w.
      if frame.header.rsv1 && is_some w.context.codec
      then (err (protocol non_zero_reserved_bits), w)
      else send_frame frame w

  unfoldable pub check_active : Action (Unit {0})
  check_active w =
      if is_active w.context.state then (ok tt, w) else (err (protocol send_after_closing), w)

  -- Write a message to the provided stream.
  unfoldable pub write : Message → Action (Unit {0})
  unfolding check_active
  write message = do
    (λ w. (check_not_terminated w.context.state, w))
    check_active
    write_message message

  -- `WebSocket::send`
  unfoldable pub send : Message → Action (Unit {0})
  send message = do write message; flush
