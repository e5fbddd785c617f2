-- ===== src/Context/Receive.antt =====
-- src/protocol/mod.rs: `read`, `read_message_frame`, `do_close` and `decompress` of
-- WebSocketContext. Loops take the rounds that they may go.
use tungstenite_rs.Prelude.{
  ℕ, zero, suc, Bool, true, false, not, ◌&&◌, ◌||◌, Option, none, some, List, [], ◌∷◌, length, ltb,
  if◌then◌else◌, is_some, is_none,
}
use tungstenite_rs.Coding.{
  OpCode, data_op, control_op, Data, continue, text, binary, Control, ping, pong, CloseCode,
  is_allowed,
}
use tungstenite_rs.Types.{
  CloseFrame, FrameHeader, Frame, Message, io, would_block, protocol, connection_closed,
  unmasked_frame_from_client, reset_without_closing_handshake, received_after_closing,
  non_zero_reserved_bits, masked_frame_from_server, fragmented_control_frame, control_frame_too_big,
  unknown_control_frame_type, unexpected_continue_frame, expected_fragment, unknown_data_frame_type,
}
use tungstenite_rs.Result.{Result, ok, err, panic, Exec, pure, raise, crash, lift, ◌>>=◌, ◌>>◌}
use tungstenite_rs.Stream.{Io}
use tungstenite_rs.Utf8.{try_from}
use tungstenite_rs.Collector.{
  IncompleteMessage, MessageType, text_type, binary_type, complete, extend,
}
use tungstenite_rs.Collector
use tungstenite_rs.Frame
use tungstenite_rs.Codec
use tungstenite_rs.Context.{
  Deflate, active, closed_by_us, closed_by_peer, close_acknowledged, terminated, is_active,
  can_read, check_not_terminated, check_connection_reset, check_max_size, is_server, is_continue,
  WebSocketContext, WebSocket, set_additional, fail_compression,
  fail_compression_on_discarded_frame,
}
use tungstenite_rs.Context.Send.{on_conn, flush}

-- "Protocol violation"
abbrev pub protocol_violation : List ℕ
protocol_violation =
    b'P' ∷ b'r' ∷ b'o' ∷ b't' ∷ b'o' ∷ b'c' ∷ b'o' ∷ b'l' ∷ b' ' ∷ b'v' ∷ b'i' ∷ b'o' ∷ b'l' ∷ b'a'
    ∷ b't' ∷ b'i' ∷ b'o' ∷ b'n' ∷ []

unfoldable pub checked_close : Option CloseFrame → Option CloseFrame
checked_close none = none
checked_close (some frame) =
    if is_allowed frame.code
    then some frame
    else some (record { code = CloseCode.protocol; reason = protocol_violation })

unfoldable pub is_data_start : OpCode → Bool
is_data_start (data_op text) = true
is_data_start (data_op binary) = true
is_data_start _ = false

unfoldable pub is_unmasked_error : {A : Type 0} → Result A → Bool
is_unmasked_error (err (protocol unmasked_frame_from_client)) = true
is_unmasked_error _ = false

module _ (deflate : Deflate) where
  abbrev Context : Type 0
  Context = WebSocketContext deflate

  -- Received a close frame. Tells if we need to return a close frame to the user.
  unfoldable pub do_close : Option CloseFrame → Exec Context (Option (Option CloseFrame))
  unfolding checked_close
  do_close close c = elim c.state [
    | active ↦
        let close' = checked_close close in
        (
          ok (some close'),
          set_additional deflate (Frame.close close') (record c { state = closed_by_peer }),
        )
    | closed_by_peer ↦ (ok none, c)
    | close_acknowledged ↦ (ok none, c)
    | closed_by_us ↦ (ok (some close), record c { state = close_acknowledged })
    | terminated ↦ (panic, c)
  ]

  -- `replace(&mut self.state, Terminated)` at the end of the stream.
  unfoldable pub end_of_stream : Exec Context (Option Message)
  end_of_stream c = (
    elim c.state [
      | closed_by_peer ↦ err connection_closed
      | close_acknowledged ↦ err connection_closed
      | _ ↦ err (protocol reset_without_closing_handshake)
    ],
    record c { state = terminated },
  )

  close_message : Result (Option CloseFrame) → Exec Context (Option Message)
  close_message (ok close) = do
    reply ← do_close close
    pure (elim reply [ none ↦ none | some c ↦ some (Message.close c) ])
  close_message (err e) = raise e
  close_message panic = crash

  unfoldable pub handle_control : Control → Frame → Exec Context (Option Message)
  unfolding close_message
  handle_control ctl frame =
      if not frame.header.is_final
      then raise (protocol fragmented_control_frame)
      else if ltb 125 (length frame.payload)
      then raise (protocol control_frame_too_big)
      else elim ctl [
        | Control.close ↦ close_message (Frame.into_close frame)
        | Control.reserved i ↦ raise (protocol (unknown_control_frame_type i))
        | ping ↦ λ c. (
          ok (some (Message.ping frame.payload)),
          if is_active c.state then set_additional deflate (Frame.pong frame.payload) c else c,
        )
        | pong ↦ pure (some (Message.pong frame.payload))
      ]

  some_message : Result Message → Result (Option Message)
  some_message (ok m) = ok (some m)
  some_message (err e) = err e
  some_message panic = panic

  -- A message in one frame.
  unfoldable pub whole_message : MessageType → List ℕ → Exec Context (Option Message)
  whole_message t payload c =
      (do
        lift (check_max_size (length payload) c.config.max_message_size)
        elim t [
          | text_type ↦ do bytes ← lift (try_from payload); pure (some (Message.text bytes))
          | binary_type ↦ pure (some (Message.binary payload))
        ])
        c

  store_new : Result (Unit {0}) × IncompleteMessage → Exec Context (Option Message)
  store_new (ok u, m) c = (ok none, record c { incomplete = some m })
  store_new (err e, m) c = (err e, c)
  store_new (panic, m) c = (panic, c)

  -- The first fragment of a message.
  unfoldable pub first_fragment : MessageType → List ℕ → Exec Context (Option Message)
  unfolding store_new
  first_fragment t payload c =
      store_new (extend payload c.config.max_message_size (Collector.new t)) c

  start_message : MessageType → Frame → Exec Context (Option Message)
  start_message t frame =
      if frame.header.is_final
      then whole_message t frame.payload
      else first_fragment t frame.payload

  finish_fragment : Bool → Result (Unit {0}) × IncompleteMessage → Exec Context (Option Message)
  unfolding some_message
  finish_fragment true (ok u, m) c = (some_message (complete m), record c { incomplete = none })
  finish_fragment false (ok u, m) c = (ok none, record c { incomplete = some m })
  finish_fragment final (err e, m) c = (err e, record c { incomplete = some m })
  finish_fragment final (panic, m) c = (panic, record c { incomplete = some m })

  -- A further fragment of the message that is being received.
  unfoldable pub next_fragment : IncompleteMessage → Frame → Exec Context (Option Message)
  unfolding finish_fragment
  next_fragment m frame c =
      finish_fragment frame.header.is_final (extend frame.payload c.config.max_message_size m) c

  unfoldable pub handle_data : Data → Frame → Exec Context (Option Message)
  unfolding start_message
  handle_data continue frame c = elim c.incomplete [
    | none ↦ (err (protocol unexpected_continue_frame), c)
    | some m ↦ next_fragment m frame c
  ]
  handle_data opcode frame c = elim c.incomplete [
    | some m ↦ (err (protocol (expected_fragment opcode)), c)
    | none ↦ elim opcode [
      | text ↦ start_message text_type frame c
      | binary ↦ start_message binary_type frame c
      | continue ↦ (panic, c)
      | Data.reserved i ↦ (err (protocol (unknown_data_frame_type i)), c)
    ]
  ]

  unfoldable pub handle_frame : Frame → Exec Context (Option Message)
  handle_frame frame = elim frame.header.opcode [
    | control_op ctl ↦ handle_control ctl frame
    | data_op d ↦ handle_data d frame
  ]

  unfoldable pub already_len : Option IncompleteMessage → ℕ
  already_len none = 0
  already_len (some m) = Collector.len m

  unfoldable pub after_decompress : Result (List ℕ) × deflate.Codec → Exec Context (List ℕ)
  after_decompress (ok bytes, codec) c = (ok bytes, record c { codec = some codec })
  after_decompress (err e, codec) c =
      (err e, fail_compression deflate (record c { codec = some codec }))
  after_decompress (panic, codec) c = (panic, record c { codec = some codec })

  -- Inflate one frame's payload, ending the connection if the decoder fails.
  unfoldable pub decompress : List ℕ → Bool → Exec Context (List ℕ)
  unfolding already_len after_decompress
  decompress payload final_frame c = elim c.codec [
    | none ↦ (panic, c)
    | some codec ↦
        after_decompress
          (deflate.decompress payload final_frame (already_len c.incomplete)
            c.config.max_message_size codec)
          c
  ]

  unfoldable pub is_compressed : Data → FrameHeader → Context → Bool
  is_compressed text h c = h.rsv1
  is_compressed binary h c = h.rsv1
  is_compressed continue h c = c.compressed_incomplete
  is_compressed (Data.reserved i) h c = false

  unfoldable pub note_compressed : Data → Bool → Bool → Context → Context
  note_compressed continue true compressed c = record c { compressed_incomplete = false }
  note_compressed text false compressed c = record c { compressed_incomplete = compressed }
  note_compressed binary false compressed c = record c { compressed_incomplete = compressed }
  note_compressed d final compressed c = c

  inflate_if : Bool → Frame → Exec Context Frame
  inflate_if false frame = pure frame
  inflate_if true frame = do
    payload ← decompress frame.payload frame.header.is_final
    pure (Frame.from_payload (record (frame.header) { rsv1 = false }) payload)

  -- A data frame in sequence is inflated if its message is compressed; one out of sequence is about
  -- to be discarded.
  unfoldable pub inflate_frame : Data → Frame → Exec Context Frame
  unfolding inflate_if
  inflate_frame d frame c =
      if in_sequence
      then (do
        frame' ← inflate_if compressed frame
        (λ c'. (ok frame', note_compressed d frame.header.is_final compressed c')))
          c
      else (ok frame, fail_compression_on_discarded_frame deflate frame c)
    where
      compressed : Bool
      compressed = is_compressed d frame.header c

      in_sequence : Bool
      in_sequence = if is_continue (data_op d) then is_some c.incomplete else is_none c.incomplete

  unfoldable pub inflate_data : Frame → Exec Context Frame
  inflate_data frame = elim frame.header.opcode [
    | control_op ctl ↦ pure frame
    | data_op d ↦ inflate_frame d frame
  ]

  unfoldable pub reserved_bits_set : FrameHeader → Context → Bool
  reserved_bits_set hdr c =
      (hdr.rsv1 && (is_none c.codec || not (is_data_start hdr.opcode))) || (hdr.rsv2 || hdr.rsv3)

  -- What is done with a frame once it has been read.
  unfoldable pub process_frame : Frame → Exec Context (Option Message)
  process_frame frame c =
      if not (can_read c.state)
      then (err (protocol received_after_closing), c)
      else if reserved_bits_set frame.header c
      then (
        err (protocol non_zero_reserved_bits),
        fail_compression_on_discarded_frame deflate frame c,
      )
      else if not (is_server c.role) && Frame.is_masked frame
      then (
        err (protocol masked_frame_from_server),
        fail_compression_on_discarded_frame deflate frame c,
      )
      else (do frame' ← inflate_data frame; handle_frame frame') c

module _ (deflate : Deflate) {S : Type 0} (world : Io S) where
  abbrev Connection : Type 0
  Connection = WebSocket deflate S

  on_context : {A : Type 0} → Exec (WebSocketContext deflate) A → Exec Connection A
  on_context m w = let (r, c) = m w.context in (r, record w { context = c })

  -- An unmasked frame from a client has been lost with its header.
  fail_on_unmasked : Result (Option Frame) → WebSocketContext deflate → WebSocketContext deflate
  unfolding is_unmasked_error
  fail_on_unmasked r c =
      if is_some c.codec && is_unmasked_error r then fail_compression deflate c else c

  read_one : ℕ → Exec Connection (Option Frame)
  unfolding fail_on_unmasked
  read_one rounds w =
      let (r, w') =
        on_conn deflate world
          (Codec.read_frame world rounds w.context.config.max_frame_size (is_server w.context.role)
            w.context.config.accept_unmasked_frames)
          w in
      let r' = check_connection_reset w.context.state r in
      (r', record w' { context = fail_on_unmasked r' w'.context })

  process_read : Option Frame → Exec (WebSocketContext deflate) (Option Message)
  process_read none = end_of_stream deflate
  process_read (some frame) = process_frame deflate frame

  -- Try to decode one message frame. May return None.
  unfoldable pub read_message_frame : ℕ → Exec Connection (Option Message)
  unfolding read_one on_context process_read
  read_message_frame rounds = do frame ← read_one rounds; on_context (process_read frame)

  -- A flush that would block is tried again later.
  tolerate_block : Result (Unit {0}) × Connection → Result (Unit {0}) × Connection
  tolerate_block (err (io would_block), w) =
      (ok tt, record w { context = record (w.context) { unflushed_additional = true } })
  tolerate_block (r, w) = (r, w)

  -- What `read` does before it reads a frame.
  unfoldable pub send_pending : Exec Connection (Unit {0})
  unfolding tolerate_block
  send_pending w =
      if is_some w.context.additional_send || w.context.unflushed_additional
      then tolerate_block (flush deflate world w)
      else if is_server w.context.role && not (can_read w.context.state)
      then (err connection_closed, record w { context = record (w.context) { state = terminated } })
      else (ok tt, w)

  unfoldable pub read_step : ℕ → Exec Connection (Option Message)
  read_step rounds = do send_pending; read_message_frame rounds

  unfoldable pub read_messages : ℕ → ℕ → Exec Connection Message
  read_messages zero rounds w = (panic, w)
  read_messages (suc turns) rounds w =
      let (r, w') = read_step rounds w in
      elim r [
        | ok o ↦ elim o [ some message ↦ (ok message, w') | none ↦ read_messages turns rounds w' ]
        | err e ↦ (err e, w')
        | panic ↦ (panic, w')
      ]

  -- Read a message from the provided stream.
  unfoldable pub read : ℕ → ℕ → Exec Connection Message
  unfolding read_messages
  read turns rounds w = after_check (check_not_terminated w.context.state)
    where
      after_check : Result (Unit {0}) → Result Message × Connection
      after_check (ok u) = read_messages turns rounds w
      after_check (err e) = (err e, w)
      after_check panic = (panic, w)
