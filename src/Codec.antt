-- ===== src/Codec.antt =====
-- src/protocol/frame/mod.rs: reading frames from a stream and writing them to it. The codec and
-- the stream are one state. Loops take the rounds that they may go; a loop that uses them up
-- panics in the model. usize is taken to have 64 bits, so a u64 length fits.
pub mod Read
pub mod Write
pub mod Limits
use tungstenite_rs.Prelude.{
  ℕ, zero, suc, ◌+◌, ◌-◌, ◌*◌, Bool, true, false, not, Option, none, some, List, [], ◌∷◌, ◌++◌,
  length, is_empty, take, drop, min, max, ltb, leb, ◌==◌, if◌then◌else◌, is_none,
}
use tungstenite_rs.Types.{
  FrameHeader, Frame, Message, Mask, Error, io, connection_reset, capacity, message_too_long,
  protocol, unmasked_frame_from_client, write_buffer_full,
}
use tungstenite_rs.Result.{Result, ok, err, panic, Exec, pure, raise, crash, lift, ◌>>=◌, ◌>>◌}
use tungstenite_rs.Stream.{Io, IoResult, BytesMut, reserve, advance, from_io}
use tungstenite_rs.Header.{Cursor, parse, max_size}
use tungstenite_rs.Mask.{apply_mask_fallback}
use tungstenite_rs.Frame.{format_into_buf}
use tungstenite_rs.Frame
use tungstenite_rs.Collector.{usize_max, limit_of}

pub record FrameCodec : Type 0 where
  pub in_buffer : BytesMut
  pub in_buf_max_read : ℕ
  pub out_buffer : List ℕ
  pub max_out_buffer_len : ℕ
  pub out_buffer_write_len : ℕ
  pub header : Option (FrameHeader × ℕ)

unfoldable pub new : ℕ → FrameCodec
new in_buf_len = record {
  in_buffer = record { bytes = []; capacity = in_buf_len };
  in_buf_max_read = max in_buf_len max_size;
  out_buffer = [];
  max_out_buffer_len = usize_max;
  out_buffer_write_len = 0;
  header = none;
}

unfoldable pub set_max_out_buffer_len : ℕ → FrameCodec → FrameCodec
set_max_out_buffer_len max c = record c { max_out_buffer_len = max }

unfoldable pub set_out_buffer_write_len : ℕ → FrameCodec → FrameCodec
set_out_buffer_write_len len c = record c { out_buffer_write_len = len }

unfoldable pub can_buffer : FrameCodec → ℕ → Bool
can_buffer c wire_size = leb (min (wire_size + length c.out_buffer) usize_max) c.max_out_buffer_len

pub record Conn (S : Type 0) : Type 0 where
  pub codec : FrameCodec
  pub stream : S

-- The frame, after `header.take()`: a server removes the mask.
unfoldable pub unmask_frame : Bool → Bool → FrameHeader → List ℕ → Result (Option Frame)
unmask_frame false accept_unmasked header payload = ok (some (Frame.from_payload header payload))
unmask_frame true accept_unmasked header payload = elim header.mask [
  | some mask ↦
      ok (
        some
          (Frame.from_payload (record header { mask = none }) (apply_mask_fallback payload mask)))
  | none ↦
      if accept_unmasked
      then ok (some (Frame.from_payload header payload))
      else err (protocol unmasked_frame_from_client)
]

-- A round of a loop ends it, or the loop goes on.
pub data Round (S A : Type 0) : Type 0 where
  stop : Result A → Conn S → Round S A
  again : Conn S → Round S A

module _ {S : Type 0} (world : Io S) where
  unfoldable pub from_partially_read : List ℕ → ℕ → FrameCodec
  unfolding reserve
  from_partially_read part min_in_buf_len = record {
    in_buffer =
        reserve world (min_in_buf_len - length part)
          (record { bytes = part; capacity = length part });
    in_buf_max_read = max min_in_buf_len max_size;
    out_buffer = [];
    max_out_buffer_len = usize_max;
    out_buffer_write_len = 0;
    header = none;
  }

  -- After the header has been parsed and its bytes have been advanced over.
  unfoldable pub check_header : ℕ → Option (FrameHeader × ℕ) → Exec FrameCodec (Unit {0})
  unfolding reserve
  check_header max_size_given none c =
      (ok tt, record c { in_buffer = reserve world max_size c.in_buffer; header = none })
  check_header max_size_given (some (h, len)) c =
      if ltb max_size_given len
      then (
        err (capacity (message_too_long len max_size_given)),
        record c { header = some (h, len) },
      )
      else (ok tt, record c { in_buffer = reserve world len c.in_buffer; header = some (h, len) })

  after_parse : ℕ → Result (Option (FrameHeader × ℕ)) × Cursor → Exec FrameCodec (Unit {0})
  after_parse max_size_given (ok header, cursor) c =
      check_header max_size_given header
        (record c { in_buffer = advance cursor.position c.in_buffer })
  after_parse max_size_given (err e, cursor) c = (err e, c)
  after_parse max_size_given (panic, cursor) c = (panic, c)

  -- `if self.header.is_none() { … }`
  unfoldable pub ensure_header : ℕ → Exec FrameCodec (Unit {0})
  unfolding after_parse
  ensure_header max_size_given c = elim c.header [
    | some h ↦ (ok tt, c)
    | none ↦
        after_parse max_size_given (parse (record { position = 0; rest = c.in_buffer.bytes })) c
  ]

  store_read : IoResult (List ℕ) × S → FrameCodec → Result ℕ × Conn S
  store_read (IoResult.done got, s) c = (
    ok (length got),
    record {
      codec = record c { in_buffer = record (c.in_buffer) { bytes = c.in_buffer.bytes ++ got } };
      stream = s;
    },
  )
  store_read (IoResult.failed kind, s) c = (err (io kind), record { codec = c; stream = s })

  -- The room that `read_in` offers to the stream.
  unfoldable pub room : FrameCodec → ℕ
  room c =
      let len = length c.in_buffer.bytes in min c.in_buffer.capacity (len + c.in_buf_max_read) - len

  -- Read into available `in_buffer` capacity.
  unfoldable pub read_in : Exec (Conn S) ℕ
  unfolding store_read
  read_in conn = store_read (world.read (room conn.codec) conn.stream) conn.codec

  -- `if len <= self.in_buffer.len() { break self.in_buffer.split_to(len) }`, with the header taken.
  unfoldable pub take_payload : FrameCodec → Option (FrameHeader × (List ℕ × FrameCodec))
  take_payload c = elim c.header [
    | none ↦ none
    | some (h, len) ↦
        if leb len (length c.in_buffer.bytes)
        then some (
          h,
          (
            take len c.in_buffer.bytes,
            record c { in_buffer = advance len c.in_buffer; header = none },
          ),
        )
        else none
  ]

  after_read : Result ℕ × Conn S → Round S (Option Frame)
  after_read (ok zero, conn) = stop (ok none) conn
  after_read (ok (suc n), conn) = again conn
  after_read (err e, conn) = stop (err e) conn
  after_read (panic, conn) = stop panic conn

  break_or_read : Bool → Bool → Result (Unit {0}) × FrameCodec → S → Round S (Option Frame)
  unfolding after_read
  break_or_read unmask accept_unmasked (ok u, c) s = elim (take_payload c) [
    | some (h, (payload, c')) ↦
        stop (unmask_frame unmask accept_unmasked h payload) (record { codec = c'; stream = s })
    | none ↦ after_read (read_in (record { codec = c; stream = s }))
  ]
  break_or_read unmask accept_unmasked (err e, c) s =
      stop (err e) (record { codec = c; stream = s })
  break_or_read unmask accept_unmasked (panic, c) s = stop panic (record { codec = c; stream = s })

  -- One round of the loop of `read_frame`, with what follows the loop.
  unfoldable pub read_round : ℕ → Bool → Bool → Conn S → Round S (Option Frame)
  unfolding break_or_read
  read_round max_size_given unmask accept_unmasked conn =
      break_or_read unmask accept_unmasked (ensure_header max_size_given conn.codec) conn.stream

  read_loop : ℕ → ℕ → Bool → Bool → Exec (Conn S) (Option Frame)
  read_loop zero max_size_given unmask accept_unmasked conn = (panic, conn)
  read_loop (suc rounds) max_size_given unmask accept_unmasked conn =
      elim (read_round max_size_given unmask accept_unmasked conn) [
        | stop r conn' ↦ (r, conn')
        | again conn' ↦ read_loop rounds max_size_given unmask accept_unmasked conn'
      ]

  -- Read a frame from the provided stream.
  unfoldable pub read_frame : ℕ → Option ℕ → Bool → Bool → Exec (Conn S) (Option Frame)
  unfolding limit_of read_loop
  read_frame rounds limit unmask accept_unmasked =
      read_loop rounds (limit_of limit) unmask accept_unmasked

  after_write : IoResult ℕ × S → FrameCodec → Round S (Unit {0})
  after_write (IoResult.done zero, s) c =
      stop (err (io connection_reset)) (record { codec = c; stream = s })
  after_write (IoResult.done (suc n), s) c =
      if ltb (length c.out_buffer) (suc n)
      then stop panic (record { codec = c; stream = s })
      else again
          (record { codec = record c { out_buffer = drop (suc n) c.out_buffer }; stream = s })
  after_write (IoResult.failed kind, s) c = stop (err (io kind)) (record { codec = c; stream = s })

  -- One round of `while !self.out_buffer.is_empty()`.
  unfoldable pub write_round : Conn S → Round S (Unit {0})
  unfolding after_write
  write_round conn = elim (is_empty conn.codec.out_buffer) [
    | true ↦ stop (ok tt) conn
    | false ↦ after_write (world.write conn.codec.out_buffer conn.stream) conn.codec
  ]

  unfoldable pub write_loop : ℕ → Exec (Conn S) (Unit {0})
  write_loop zero conn = (panic, conn)
  write_loop (suc rounds) conn = elim (write_round conn) [
    | stop r conn' ↦ (r, conn')
    | again conn' ↦ write_loop rounds conn'
  ]

  -- Writes the out_buffer to the provided stream. Each round writes a byte at least.
  unfoldable pub write_out_buffer : Exec (Conn S) (Unit {0})
  unfolding write_loop
  write_out_buffer conn = write_loop (suc (length conn.codec.out_buffer)) conn

  unfoldable pub push_frame : Frame → FrameCodec → FrameCodec
  push_frame frame c = record c { out_buffer = format_into_buf frame c.out_buffer }

  write_if_long : Exec (Conn S) (Unit {0})
  write_if_long conn =
      if ltb conn.codec.out_buffer_write_len (length conn.codec.out_buffer)
      then write_out_buffer conn
      else (ok tt, conn)

  -- Writes a frame into the `out_buffer`.
  unfoldable pub buffer_frame : Frame → Exec (Conn S) (Unit {0})
  unfolding push_frame write_if_long
  buffer_frame frame conn =
      if can_buffer conn.codec (Frame.len frame)
      then write_if_long (record conn { codec = push_frame frame conn.codec })
      else (err (write_buffer_full (Message.frame frame)), conn)

  unfoldable pub flush_stream : Exec (Conn S) (Unit {0})
  flush_stream conn =
      let (r, s) = world.flush conn.stream in (from_io r, record conn { stream = s })

  -- `FrameSocket`: `read`, `write`, `flush` and `send`.
  unfoldable pub socket_read : ℕ → Option ℕ → Exec (Conn S) (Option Frame)
  socket_read rounds limit = read_frame rounds limit false true

  unfoldable pub socket_flush : Exec (Conn S) (Unit {0})
  socket_flush = do write_out_buffer; flush_stream

  unfoldable pub socket_send : Frame → Exec (Conn S) (Unit {0})
  unfolding socket_flush
  socket_send frame = do buffer_frame frame; socket_flush
