-- ===== src/Context/Closing.antt =====
-- The state of a connection only moves forward (src/protocol/mod.rs: `read_message_frame`,
-- `do_close`, the end of the stream, compression failures).
use tungstenite_rs.Prelude.{ℕ, ◌≡◌, ◌∙◌, Bool, true, false, Option, List, arith}
use tungstenite_rs.Coding.{OpCode, data_op, control_op, Data, Control}
use tungstenite_rs.Types.{Frame, Message}
use tungstenite_rs.Result.{Result, ok, err, panic, Exec, pure, after}
use tungstenite_rs.Context.{
  Deflate, WebSocketState, active, closed_by_us, closed_by_peer, close_acknowledged, terminated,
  WebSocketContext, set_additional, fail_compression, fail_compression_on_discarded_frame,
}
use tungstenite_rs.Context.Receive

-- One state may follow another while frames are received: the peer closes, the peer acknowledges, or
-- the connection ends.
unfoldable pub is_later : WebSocketState → WebSocketState → Bool
is_later a terminated = true
is_later active active = true
is_later active closed_by_peer = true
is_later closed_by_us closed_by_us = true
is_later closed_by_us close_acknowledged = true
is_later closed_by_peer closed_by_peer = true
is_later close_acknowledged close_acknowledged = true
is_later _ _ = false

is_later_trans :
    (a b c : WebSocketState) → is_later a b ≡ true → is_later b c ≡ true → is_later a c ≡ true
unfolding is_later
is_later_trans a b c h k = ground arith

module _ (deflate : Deflate) where
  -- What a context keeps while frames are received.
  abbrev pub Evolves : WebSocketContext deflate → WebSocketContext deflate → Type 0
  Evolves c c' =
      (is_later c.state c'.state ≡ true)
      × (c'.role ≡ c.role)
      × (c'.config ≡ c.config)
      × (c'.frame ≡ c.frame)
      × (c'.unflushed_additional ≡ c.unflushed_additional)

  Evolves-trans : (a b c : WebSocketContext deflate) → Evolves a b → Evolves b c → Evolves a c
  Evolves-trans a b c (l, r, g, f, u) (l', r', g', f', u') =
      (is_later_trans a.state b.state c.state l l', r' ∙ r, g' ∙ g, f' ∙ f, u' ∙ u)

  unchanged : (c : WebSocketContext deflate) → Evolves c c
  unfolding is_later
  unchanged c = ground arith

  handle_control-Evolves :
      (ctl : Control) (f : Frame) (c : WebSocketContext deflate)
      → Evolves c (Receive.handle_control deflate ctl f c).1
  unfolding is_later set_additional Receive.do_close Receive.handle_control
  handle_control-Evolves ctl f c = ground arith

  handle_data-Evolves :
      (d : Data) (f : Frame) (c : WebSocketContext deflate)
      → Evolves c (Receive.handle_data deflate d f c).1
  unfolding is_later Receive.handle_data Receive.whole_message Receive.first_fragment
      Receive.next_fragment
  handle_data-Evolves d f c = ground arith

  discarded-Evolves :
      (f : Frame) (c : WebSocketContext deflate)
      → Evolves c (fail_compression_on_discarded_frame deflate f c)
  unfolding is_later fail_compression_on_discarded_frame fail_compression
  discarded-Evolves f c = ground arith

  decompress-Evolves :
      (payload : List ℕ) (final : Bool) (c : WebSocketContext deflate)
      → Evolves c (Receive.decompress deflate payload final c).1
  unfolding is_later Receive.decompress fail_compression
  decompress-Evolves payload final c = ground arith

  inflate_frame-Evolves :
      (d : Data) (f : Frame) (c : WebSocketContext deflate)
      → Evolves c (Receive.inflate_frame deflate d f c).1
  unfolding is_later Receive.inflate_frame Receive.note_compressed
  inflate_frame-Evolves d f c =
      ground (arith, decompress-Evolves f.payload f.header.is_final c, discarded-Evolves f c)

  handle_frame-Evolves :
      (f : Frame) (c : WebSocketContext deflate) → Evolves c (Receive.handle_frame deflate f c).1
  unfolding Receive.handle_frame
  handle_frame-Evolves f c = by_opcode f.header.opcode
    where
      by_opcode :
          (o : OpCode)
          → Evolves c
              ((elim o as (λ _. Exec (WebSocketContext deflate) (Option Message)) [
                | control_op ctl ↦ Receive.handle_control deflate ctl f
                | data_op d ↦ Receive.handle_data deflate d f
              ])
                c).1
      by_opcode (control_op ctl) = handle_control-Evolves ctl f c
      by_opcode (data_op d) = handle_data-Evolves d f c

  inflate_data-Evolves :
      (f : Frame) (c : WebSocketContext deflate) → Evolves c (Receive.inflate_data deflate f c).1
  unfolding Receive.inflate_data
  inflate_data-Evolves f c = by_opcode f.header.opcode
    where
      by_opcode :
          (o : OpCode)
          → Evolves c
              ((elim o as (λ _. Exec (WebSocketContext deflate) Frame) [
                | control_op ctl ↦ pure f
                | data_op d ↦ Receive.inflate_frame deflate d f
              ])
                c).1
      by_opcode (control_op ctl) = unchanged c
      by_opcode (data_op d) = inflate_frame-Evolves d f c

  then_handle :
      (c : WebSocketContext deflate) (r : Result Frame × WebSocketContext deflate)
      → Evolves c r.1
      → Evolves c (after r.0 (Receive.handle_frame deflate) r.1).1
  then_handle c (ok f, c') h =
      Evolves-trans c c' (Receive.handle_frame deflate f c').1 h (handle_frame-Evolves f c')
  then_handle c (err e, c') h = h
  then_handle c (panic, c') h = h

  -- Whatever frame comes in and whatever becomes of it, an error or a panic included, the state of
  -- the connection only moves forward; the role, the configuration, the buffers and the flush that
  -- is due stay as they were.
  pub process_frame-Evolves :
      (f : Frame) (c : WebSocketContext deflate) → Evolves c (Receive.process_frame deflate f c).1
  unfolding Receive.process_frame
  process_frame-Evolves f c = ground (
    arith,
    unchanged c,
    discarded-Evolves f c,
    then_handle c (Receive.inflate_data deflate f c) (inflate_data-Evolves f c),
  )
