-- ===== src/Examples.antt =====
-- Concrete inputs for the theorems on src/protocol and src/utf8.rs, and a stream to run them on.
mod Compression
mod Rounds
mod Fields
use tungstenite_rs.Prelude.{
  ℕ, ◌+◌, ◌≤◌, ◌≡◌, refl, ap, true, false, none, some, List, [], ◌∷◌, ◌++◌, length, take, drop, max,
  arith, length-take,
}
use tungstenite_rs.Coding.{data_op, text}
use tungstenite_rs.Result
use tungstenite_rs.Types.{Mask, FrameHeader, Frame}
use tungstenite_rs.Stream.{Io, IoResult, done, Lawful}
use tungstenite_rs.Header.{default_header, is_reserved}
use tungstenite_rs.Header
use tungstenite_rs.Frame.{format_into_buf}
use tungstenite_rs.Frame
use tungstenite_rs.Collector.{limit_of}
use tungstenite_rs.Codec.{FrameCodec, Conn}
use tungstenite_rs.Codec.Read.{read_frame-format_into_buf, read_frame-after_too_long}
use tungstenite_rs.Codec.Write.{WrittenOut, write_out_buffer-WrittenOut}
use tungstenite_rs.Codec
use tungstenite_rs.Prelude.{◌↔◌, ◌<◌, subst}
use mathlib.Core.List.{flatten}
use tungstenite_rs.Coding.{
  opcode_from_u8, opcode_to_u8, close_code_to_u16, close_code_from_u16, is_allowed, CloseCode,
}
use tungstenite_rs.Coding.RoundTrip.{
  IsCanonical, opcode_from_u8-none, opcode_to_u8-from_u8, close_code_to_u16-from_u16, MaySend,
  is_allowed-iff-MaySend,
}
use tungstenite_rs.Types.{CloseFrame, capacity, message_too_long}
use tungstenite_rs.Header.RoundTrip.{length-format, len-le-max_size, parse-format}
use tungstenite_rs.Mask.{big, apply_mask_fallback, apply_mask_fast32}
use tungstenite_rs.Mask.Words.{IsByteMask}
use tungstenite_rs.Mask.Fast.{AllBytes, apply_mask_fast32-eq-fallback}
use tungstenite_rs.Utf8.{front, validate, from_utf8, try_from}
use tungstenite_rs.Utf8.Decode.{decode, try_complete}
use tungstenite_rs.Utf8.Scan.{nothing}
use tungstenite_rs.Utf8.Splice.{Holds, padded, Decodes, decode-Decodes}
use tungstenite_rs.Utf8.Complete.{Completes, try_complete-Completes}
use tungstenite_rs.Frame.RoundTrip.{length-format_into_buf, into_close-close}
use tungstenite_rs.Context.{Deflate, WebSocketContext, client, active, default_config}
use tungstenite_rs.Context.{WebSocket}
use tungstenite_rs.Context.Send
use tungstenite_rs.Context.Receive
use tungstenite_rs.Context.Sending.{Moves, write-Moves}
use tungstenite_rs.Context.Discard.{out_of_service, fail_compression-already_closed}
use tungstenite_rs.Codec.Limits.{WithinLimit, buffer_frame-WithinLimit}
use tungstenite_rs.Collector.{IncompleteMessage, text_message, extend, extend_collector}
use tungstenite_rs.Collector.Limit.{Taken, extend-Taken}
use tungstenite_rs.Types.{Message, already_closed}
use tungstenite_rs.Prelude.{◌⊎◌}
use tungstenite_rs.Context.Closing.{Evolves, process_frame-Evolves}
use tungstenite_rs.Collector.{StringCollector, new_string, extend_string}
use tungstenite_rs.Collector.Text.{
  some_rest, Extends, extend_string-Extends, collect, collect-try_from,
}

-- A peer that sends `incoming` and takes three bytes at a time.
record Peer : Type 0 where
  incoming : List ℕ
  sent : List ℕ

abbrev peer_write : List ℕ → Peer → IoResult ℕ × Peer
peer_write bytes p = (done (length (take 3 bytes)), record p { sent = p.sent ++ take 3 bytes })

abbrev key : Mask
key = record { m0 = 1; m1 = 2; m2 = 3; m3 = 4 }

abbrev peer : Io Peer
peer = record {
  read = λ n p. (done (take n p.incoming), record p { incoming = drop n p.incoming });
  write = peer_write;
  flush = λ p. (done tt, p);
  random_mask = λ p. (key, p);
  grow = λ capacity len additional. max capacity (len + additional);
}

done-injective : {A : Type 0} {a b : A} → done a ≡ done b → a ≡ b
done-injective e = cc

peer-Lawful : Lawful peer
peer-Lawful = record {
  read_fits = λ n p bytes e. omega (arith, ap length (done-injective e), length-take n p.incoming);
  write_fits = λ bytes p n e. omega (arith, done-injective e, length-take 3 bytes);
  grow_enough = λ capacity len additional. max_right capacity (len + additional);
}
  where
    max_right : (a b : ℕ) → b ≤ max a b
    max_right a b = omega arith

abbrev quiet_peer : Peer
quiet_peer = record { incoming = []; sent = [] }

abbrev hello : Frame
hello = record {
  header = record {
    is_final = true;
    rsv1 = false;
    rsv2 = false;
    rsv3 = false;
    opcode = data_op text;
    mask = some key;
  };
  payload = b'h' ∷ b'e' ∷ b'l' ∷ b'l' ∷ b'o' ∷ [];
}

abbrev waiting : FrameCodec
waiting = record {
  in_buffer = record { bytes = format_into_buf hello [] ++ (7 ∷ []); capacity = 64 };
  in_buf_max_read = 64;
  out_buffer = b'o' ∷ b'u' ∷ b't' ∷ b'!' ∷ [];
  max_out_buffer_len = 100;
  out_buffer_write_len = 10;
  header = none;
}

abbrev waiting_conn : Conn Peer
waiting_conn = record { codec = waiting; stream = quiet_peer }

read_frame-format_into_buf_example :
    (capacity : ℕ) × (Codec.read_frame peer 4 (some 5) true false waiting_conn ≡ (
      Result.ok (some (record hello { header = record (hello.header) { mask = none } })),
      record {
        codec = record waiting {
          in_buffer = record { bytes = 7 ∷ []; capacity = capacity };
          header = none;
        };
        stream = quiet_peer;
      },
    ))
unfolding is_reserved limit_of
read_frame-format_into_buf_example =
    read_frame-format_into_buf peer 3 (some 5) true false waiting_conn hello (7 ∷ []) refl refl refl
      refl (omega arith) (omega arith)

write_out_buffer-WrittenOut_example :
    WrittenOut peer waiting_conn (Codec.write_out_buffer peer waiting_conn)
write_out_buffer-WrittenOut_example = write_out_buffer-WrittenOut peer peer-Lawful waiting_conn

abbrev plain_hello : FrameHeader
plain_hello = record (hello.header) { mask = none }

abbrev waiting_plain : Conn Peer
waiting_plain = record {
  codec = record waiting {
    in_buffer = record {
      bytes = Header.format plain_hello 3 [] ++ (b'a' ∷ b'b' ∷ b'c' ∷ []);
      capacity = 64;
    };
  };
  stream = quiet_peer;
}

read_frame-after_too_long_example :
    (refused served : Conn Peer) × (Codec.read_frame peer 1 (some 2) false false waiting_plain
      ≡ (Result.err (capacity (message_too_long 3 2)), refused))
    × (Codec.read_frame peer 1 (some 2) false false refused ≡ (
      Result.ok (some (record { header = plain_hello; payload = b'a' ∷ b'b' ∷ b'c' ∷ [] })),
      served,
    ))
unfolding is_reserved limit_of
read_frame-after_too_long_example =
    read_frame-after_too_long peer 0 (some 2) false waiting_plain plain_hello
      (b'a' ∷ b'b' ∷ b'c' ∷ []) [] refl refl refl (omega arith) (omega arith)

-- The euro sign, of three bytes, cut after the first and after the second.
abbrev euro_fragments : List (List ℕ)
euro_fragments = (0xE2 ∷ []) ∷ (0x82 ∷ []) ∷ (0xAC ∷ b'!' ∷ []) ∷ []

collect-try_from_example :
    collect euro_fragments new_string ≡ try_from (0xE2 ∷ 0x82 ∷ 0xAC ∷ b'!' ∷ [])
unfolding flatten
collect-try_from_example = collect-try_from euro_fragments

abbrev cut_euro : List ℕ
cut_euro = 0xE2 ∷ 0x82 ∷ []

cut_euro-Holds : Holds (padded cut_euro) cut_euro
unfolding front
cut_euro-Holds = record { is_short = refl; held = refl; held_len = refl; four = refl }

abbrev after_two_bytes : StringCollector
after_two_bytes = record { text = []; incomplete = some (padded cut_euro) }

extend_string-Extends_example :
    Extends (cut_euro ++ (0xAC ∷ [])) (extend_string (0xAC ∷ []) after_two_bytes)
extend_string-Extends_example =
    extend_string-Extends {c = after_two_bytes} {bs = cut_euro} (0xAC ∷ [])
      (some_rest (padded cut_euro) cut_euro refl refl nothing cut_euro-Holds)

try_complete-Completes_example :
    Completes cut_euro (0xAC ∷ b'!' ∷ []) (try_complete (0xAC ∷ b'!' ∷ []) (padded cut_euro))
try_complete-Completes_example =
    try_complete-Completes (padded cut_euro) cut_euro (0xAC ∷ b'!' ∷ []) cut_euro-Holds

decode-Decodes_example : Decodes (b'a' ∷ cut_euro) (decode (b'a' ∷ cut_euro))
decode-Decodes_example = decode-Decodes (b'a' ∷ cut_euro)

parse-format_example :
    Header.parse (record { position = 5; rest = Header.format hello.header 300 [] ++ (1 ∷ 2 ∷ []) })
    ≡ (
      Result.ok (some (hello.header, 300)),
      record { position = 5 + Header.len hello.header 300; rest = 1 ∷ 2 ∷ [] },
    )
unfolding is_reserved
parse-format_example = parse-format 5 300 hello.header (1 ∷ 2 ∷ []) refl (omega arith)

key-IsByteMask : IsByteMask key
key-IsByteMask = record { b0 = omega arith; b1 = omega arith; b2 = omega arith; b3 = omega arith }

abbrev six_bytes : List ℕ
six_bytes = 10 ∷ 20 ∷ 30 ∷ 40 ∷ 50 ∷ 60 ∷ []

six_bytes-AllBytes : AllBytes six_bytes
six_bytes-AllBytes =
    (omega arith, (omega arith, (omega arith, (omega arith, (omega arith, (omega arith, tt))))))

apply_mask_fast32-eq-fallback_example :
    apply_mask_fast32 big 1 1 six_bytes key ≡ apply_mask_fallback six_bytes key
apply_mask_fast32-eq-fallback_example =
    apply_mask_fast32-eq-fallback big 1 1 six_bytes key-IsByteMask six_bytes-AllBytes (omega arith)

length-format_into_buf_example : length (format_into_buf hello (1 ∷ 2 ∷ [])) ≡ 2 + Frame.len hello
length-format_into_buf_example = length-format_into_buf hello (1 ∷ 2 ∷ [])

abbrev going_away : CloseFrame
going_away = record { code = CloseCode.away; reason = b'b' ∷ b'y' ∷ b'e' ∷ [] }

abbrev IsSendable : CloseFrame → Type 0
IsSendable c = IsCanonical c.code × (from_utf8 c.reason ≡ none)

going_away-IsSendable : IsSendable going_away
unfolding from_utf8 validate front
going_away-IsSendable = (tt, refl)

some-injective : {A : Type 0} {a b : A} → some a ≡ some b → a ≡ b
some-injective e = cc

into_close-close_example :
    Frame.into_close (Frame.close (some going_away)) ≡ Result.ok (some going_away)
into_close-close_example = into_close-close (some going_away) canonical
  where
    canonical :
        (c : CloseFrame)
        → some going_away ≡ some c
        → IsCanonical c.code × (from_utf8 c.reason ≡ none)
    canonical c e = subst IsSendable (some-injective e) going_away-IsSendable

-- A codec that stores what it is given.
abbrev stored : Deflate
stored = record {
  Settings = ℕ;
  Codec = ℕ;
  same_settings = λ a b. true;
  new = λ role settings. Result.ok settings;
  compress = λ bytes codec. (Result.ok bytes, codec + 1);
  reset_encoder = λ codec. 0;
  decompress = λ bytes final already limit codec. (Result.ok bytes, codec + 1);
}

abbrev open_context : WebSocketContext stored
open_context = record {
  role = client;
  frame = waiting;
  state = active;
  incomplete = none;
  additional_send = none;
  unflushed_additional = false;
  config = default_config stored;
  codec = some 0;
  compressed_incomplete = false;
  compression_unusable = false;
}

process_frame-Evolves_example :
    Evolves stored open_context
      (Receive.process_frame stored (Frame.close (some going_away)) open_context).1
process_frame-Evolves_example =
    process_frame-Evolves stored (Frame.close (some going_away)) open_context

abbrev half_euro : IncompleteMessage
half_euro = text_message after_two_bytes

half_euro-Taken : Taken half_euro cut_euro
unfolding Taken
half_euro-Taken = some_rest (padded cut_euro) cut_euro refl refl nothing cut_euro-Holds

extend-Taken_example :
    ((limit_of (some 2) < length (cut_euro ++ (0xAC ∷ [])))
      × (extend (0xAC ∷ []) (some 2) half_euro ≡ (
        Result.err
            (capacity (message_too_long (length (cut_euro ++ (0xAC ∷ []))) (limit_of (some 2)))),
        half_euro,
      )))
    ⊎ ((length (cut_euro ++ (0xAC ∷ [])) ≤ limit_of (some 2))
        × (extend (0xAC ∷ []) (some 2) half_euro ≡ extend_collector (0xAC ∷ []) half_euro))
extend-Taken_example =
    extend-Taken half_euro cut_euro (0xAC ∷ []) (some 2) half_euro-Taken (omega arith)

buffer_frame-WithinLimit_example : WithinLimit 100 (Codec.buffer_frame peer hello waiting_conn).1
buffer_frame-WithinLimit_example =
    buffer_frame-WithinLimit peer peer-Lawful 100 hello waiting_conn (omega arith)
      (omega arith, refl)

abbrev lost : WebSocket stored Peer
lost = out_of_service stored peer open_context quiet_peer

fail_compression-already_closed_example :
    (Receive.read stored peer 3 4 lost ≡ (Result.err already_closed, lost))
    × (Send.write stored peer (Message.text (b'h' ∷ [])) lost ≡ (Result.err already_closed, lost))
    × (Send.flush stored peer lost ≡ (Result.err already_closed, lost))
    × (Send.close stored peer none lost ≡ (Result.err already_closed, lost))
fail_compression-already_closed_example =
    fail_compression-already_closed stored peer 3 4 (Message.text (b'h' ∷ [])) none open_context
      quiet_peer

abbrev open_socket : WebSocket stored Peer
open_socket = record { context = open_context; socket = quiet_peer }

write-Moves_example :
    Moves stored open_context
      (Send.write stored peer (Message.close (some going_away)) open_socket).1.context
write-Moves_example = write-Moves stored peer (Message.close (some going_away)) open_socket
