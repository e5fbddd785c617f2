-- ===== src/Codec/Read.antt =====
-- `read_frame` of src/protocol/frame/mod.rs on bytes that are already in the buffer.
use tungstenite_rs.Prelude.{
  ℕ, suc, ◌+◌, ◌-◌, ◌^◌, ◌≤◌, ◌<◌, ◌≡◌, refl, sym, ◌∙◌, ap, Bool, true, false, Option, none, some,
  List, [], ◌++◌, length, drop, arith, append_assoc, length-append, take-length_append,
  drop-length_append, ltb, leb, le→leb, lt→ltb, is_some,
}
use tungstenite_rs.Types.{Mask, FrameHeader, Frame, capacity, message_too_long}
use tungstenite_rs.Result.{Result, ok, err}
use tungstenite_rs.Stream.{Io, reserve, advance}
use tungstenite_rs.Header.{is_reserved, parse}
use tungstenite_rs.Header
use tungstenite_rs.Header.RoundTrip.{parse-format, length-format}
use tungstenite_rs.Mask.Fast.{apply_mask_fallback_undo}
use tungstenite_rs.Frame.{format_into_buf, masked_payload}
use tungstenite_rs.Frame
use tungstenite_rs.Frame.RoundTrip.{format_into_buf-append, length-masked_payload}
use tungstenite_rs.Collector.{limit_of}
use tungstenite_rs.Codec.{
  FrameCodec, Conn, stop, unmask_frame, check_header, ensure_header, take_payload, read_loop,
  break_or_read, read_round, read_frame,
}

-- The codec after the payload has been split off.
abbrev pub without_payload : FrameCodec → List ℕ → ℕ → FrameCodec
without_payload c rest n = record c {
  in_buffer = record { bytes = rest; capacity = c.in_buffer.capacity - n };
  header = none;
}

module _ {S : Type 0} (world : Io S) where
  take_payload_lem :
      (c : FrameCodec) (h : FrameHeader) (payload rest : List ℕ)
      → c.header ≡ some (h, length payload)
      → c.in_buffer.bytes ≡ payload ++ rest
      → take_payload world c ≡ some (h, (payload, without_payload c rest (length payload)))
  unfolding take_payload advance
  take_payload_lem c h payload rest e d =
      rw (e, take_payload) (simp (d, enough, take-length_append, drop-length_append) refl)
    where
      enough : leb (length payload) (length (payload ++ rest)) ≡ true
      enough = le→leb _ _ (omega (arith, length-append payload rest))

  -- A round that finds a frame ends the loop.
  read_frame-stop :
      (rounds : ℕ) (limit : Option ℕ) (unmask accept : Bool) (conn conn' : Conn S)
      {r : Result (Option Frame)}
      → read_round world (limit_of limit) unmask accept conn ≡ stop r conn'
      → read_frame world (suc rounds) limit unmask accept conn ≡ (r, conn')
  unfolding read_frame
  read_frame-stop rounds limit unmask accept conn conn' e = rw (e, read_loop) refl

  -- Once a header has been recorded, its payload is taken.
  read_round-header :
      (m : ℕ) (unmask accept : Bool) (conn : Conn S) (c : FrameCodec) (h : FrameHeader)
      (payload rest : List ℕ)
      → ensure_header world m conn.codec ≡ (ok tt, c)
      → c.header ≡ some (h, length payload)
      → c.in_buffer.bytes ≡ payload ++ rest
      → read_round world m unmask accept conn
        ≡ stop
            (unmask_frame unmask accept h payload)
            (record { codec = without_payload c rest (length payload); stream = conn.stream })
  unfolding read_round
  read_round-header m unmask accept conn c h payload rest e k d =
      rw (e, take_payload_lem c h payload rest k d, break_or_read) refl

  ensure_header-format :
      (m n : ℕ) (c : FrameCodec) (h : FrameHeader) (tail : List ℕ)
      → c.header ≡ none
      → c.in_buffer.bytes ≡ Header.format h n [] ++ tail
      → is_reserved h.opcode ≡ false
      → n < 2 ^ 64
      → n ≤ m
      → (capacity : ℕ) × (ensure_header world m c ≡ (
        ok tt,
        record c { in_buffer = record { bytes = tail; capacity = capacity }; header = some (h, n) },
      ))
  unfolding ensure_header check_header advance reserve
  ensure_header-format m n c h tail e d known fits small = (
    world.grow (c.in_buffer.capacity - (0 + Header.len h n)) (length tail) n,
    rw (e, ensure_header) (simp (d, parse-format 0 n h tail known fits, gone, within) refl),
  )
    where
      gone : drop (0 + Header.len h n) (Header.format h n [] ++ tail) ≡ tail
      gone =
          ap (λ k. drop k (Header.format h n [] ++ tail)) (omega (arith, length-format h n))
          ∙ drop-length_append (Header.format h n []) tail

      within : ltb m n ≡ false
      within = ground arith

  -- A frame without its mask.
  abbrev pub plain_frame : Frame → Frame
  plain_frame f = record f { header = record (f.header) { mask = none } }

  unmask_with :
      (unmask accept : Bool) (h : FrameHeader) (mask : Option Mask) (payload : List ℕ)
      → h.mask ≡ mask
      → is_some mask ≡ unmask
      → unmask_frame unmask accept h (masked_payload mask payload)
        ≡ ok (some (record { header = record h { mask = none }; payload = payload }))
  unfolding unmask_frame masked_payload Frame.from_payload
  unmask_with true accept h none payload q e = cc
  unmask_with true accept h (some m) payload q e =
      rw (q, unmask_frame)
        (ap (λ p. ok (some (record { header = record h { mask = none }; payload = p })))
          (apply_mask_fallback_undo payload m))
  unmask_with false accept h none payload q e =
      ap (λ m. ok (some (record { header = record h { mask = m }; payload = payload }))) q
  unmask_with false accept h (some m) payload q e = cc

  -- What one endpoint writes the other reads: from a buffer that begins with a formatted frame, the
  -- codec returns that frame, without its mask, in one round and without reading from the stream,
  -- and keeps the bytes behind it. The frame is masked exactly if the reader unmasks, its opcode is
  -- not reserved, and its payload is within the limit.
  pub read_frame-format_into_buf :
      (rounds : ℕ) (limit : Option ℕ) (unmask accept : Bool) (conn : Conn S) (f : Frame)
      (rest : List ℕ)
      → conn.codec.header ≡ none
      → conn.codec.in_buffer.bytes ≡ format_into_buf f [] ++ rest
      → is_reserved f.header.opcode ≡ false
      → is_some f.header.mask ≡ unmask
      → length f.payload < 2 ^ 64
      → length f.payload ≤ limit_of limit
      → (capacity : ℕ) × (read_frame world (suc rounds) limit unmask accept conn ≡ (
        ok (some (plain_frame f)),
        record {
          codec = record (conn.codec) {
            in_buffer = record { bytes = rest; capacity = capacity };
            header = none;
          };
          stream = conn.stream;
        },
      ))
  read_frame-format_into_buf rounds limit unmask accept conn f rest e d known masked fits small = (
    capacity - length body,
    read_frame-stop rounds limit unmask accept conn after (
          read_round-header (limit_of limit) unmask accept conn parsed_codec f.header body rest
            parsed (ap (λ n. some (f.header, n)) (sym body_len)) refl)
        ∙ ap (λ r. (r, after))
            (unmask_with unmask accept f.header f.header.mask f.payload refl masked),
  )
    where
      body : List ℕ
      body = masked_payload f.header.mask f.payload

      body_len : length body ≡ length f.payload
      body_len = length-masked_payload f.header.mask f.payload

      layout :
          conn.codec.in_buffer.bytes
          ≡ Header.format f.header (length f.payload) [] ++ (body ++ rest)
      layout =
          d
          ∙ ap (λ t. t ++ rest) (format_into_buf-append f [])
          ∙ append_assoc (Header.format f.header (length f.payload) []) body rest

      found :
          (capacity : ℕ) × (ensure_header world (limit_of limit) conn.codec ≡ (
            ok tt,
            record (conn.codec) {
              in_buffer = record { bytes = body ++ rest; capacity = capacity };
              header = some (f.header, length f.payload);
            },
          ))
      found =
          ensure_header-format (limit_of limit) (length f.payload) conn.codec f.header
            (body ++ rest) e layout known fits small

      capacity : ℕ
      capacity = found.0

      parsed_codec : FrameCodec
      parsed_codec = record (conn.codec) {
        in_buffer = record { bytes = body ++ rest; capacity = capacity };
        header = some (f.header, length f.payload);
      }

      parsed : ensure_header world (limit_of limit) conn.codec ≡ (ok tt, parsed_codec)
      parsed = found.1

      after : Conn S
      after = record {
        codec = without_payload parsed_codec rest (length body);
        stream = conn.stream;
      }

  -- The limit on a frame's size is tested only where its header is parsed. An oversized header is
  -- refused, but it stays recorded: once its payload has arrived, the next call returns the frame,
  -- under the same limit.
  pub read_frame-after_too_long :
      (rounds : ℕ) (limit : Option ℕ) (accept : Bool) (conn : Conn S) (h : FrameHeader)
      (payload rest : List ℕ)
      → conn.codec.header ≡ none
      → conn.codec.in_buffer.bytes ≡ Header.format h (length payload) [] ++ (payload ++ rest)
      → is_reserved h.opcode ≡ false
      → length payload < 2 ^ 64
      → limit_of limit < length payload
      → (refused served : Conn S) × (read_frame world (suc rounds) limit false accept conn
          ≡ (err (capacity (message_too_long (length payload) (limit_of limit))), refused))
        × (read_frame world (suc rounds) limit false accept refused
            ≡ (ok (some (record { header = h; payload = payload })), served))
  read_frame-after_too_long rounds limit accept conn h payload rest e d known fits big =
      (refused, served, first, second)
    where
      refused : Conn S
      refused = record {
        codec = record (conn.codec) {
          in_buffer = record {
            bytes = payload ++ rest;
            capacity = conn.codec.in_buffer.capacity - (0 + Header.len h (length payload));
          };
          header = some (h, length payload);
        };
        stream = conn.stream;
      }

      served : Conn S
      served = record {
        codec = without_payload refused.codec rest (length payload);
        stream = conn.stream;
      }

      gone :
          drop
            (0 + Header.len h (length payload))
            (Header.format h (length payload) [] ++ (payload ++ rest))
          ≡ payload ++ rest
      gone =
          ap (λ k. drop k (Header.format h (length payload) [] ++ (payload ++ rest)))
            (omega (arith, length-format h (length payload)))
          ∙ drop-length_append (Header.format h (length payload) []) (payload ++ rest)

      beyond : ltb (limit_of limit) (length payload) ≡ true
      beyond = lt→ltb _ _ big

      checked :
          ensure_header world (limit_of limit) conn.codec
          ≡ (err (capacity (message_too_long (length payload) (limit_of limit))), refused.codec)
      checked =
          unfold ensure_header check_header advance in
          rw (e, ensure_header)
            (simp (d, parse-format 0 (length payload) h (payload ++ rest) known fits, gone, beyond)
              refl)

      first :
          read_frame world (suc rounds) limit false accept conn
          ≡ (err (capacity (message_too_long (length payload) (limit_of limit))), refused)
      first =
          read_frame-stop rounds limit false accept conn refused
            (unfold read_round in rw (checked, read_round, break_or_read) refl)

      second :
          read_frame world (suc rounds) limit false accept refused
          ≡ (ok (some (record { header = h; payload = payload })), served)
      second = read_frame-stop rounds limit false accept refused served (
          read_round-header (limit_of limit) false accept refused refused.codec h payload rest
            (unfold ensure_header in refl) refl refl
          ∙ (unfold unmask_frame Frame.from_payload in refl))
