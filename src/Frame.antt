-- ===== src/Frame.antt =====
-- src/protocol/frame/frame.rs: frames, and how they are written to a buffer; and the functions of
-- src/protocol/message.rs on whole messages. Masks come from outside (`rand`).
pub mod RoundTrip
pub mod Messages
use tungstenite_rs.Prelude.{
  ℕ, ◌+◌, ◌*◌, ◌/◌, ◌%◌, ◌^◌, Bool, true, false, Option, none, some, List, [], ◌∷◌, ◌++◌, length,
  take, drop, ◌==◌, is_some,
}
use tungstenite_rs.Coding.{
  OpCode, data_op, control_op, Control, CloseCode, close_code_to_u16, close_code_from_u16,
}
use tungstenite_rs.Types.{
  Mask, CloseFrame, FrameHeader, Frame, Message, Error, protocol, invalid_close_sequence, utf8,
}
use tungstenite_rs.Types
use tungstenite_rs.Result.{Result, ok, err, panic}
use tungstenite_rs.Header.{default_header, to_be_bytes_u16, from_be_bytes}
use tungstenite_rs.Header
use tungstenite_rs.Mask.{apply_mask_fallback}
use tungstenite_rs.Utf8.{try_from}

-- The length of the header and of the payload.
unfoldable pub len : Frame → ℕ
len frame = let length = length frame.payload in Header.len frame.header length + length

unfoldable pub is_masked : Frame → Bool
is_masked frame = is_some frame.header.mask

-- `set_random_mask` of the header and of the frame, with the mask that `rand` gave.
unfoldable pub set_random_mask : Mask → Frame → Frame
set_random_mask mask frame = record frame { header = record (frame.header) { mask = some mask } }

-- `FrameHeader { opcode, is_final, ..FrameHeader::default() }`
unfoldable pub message : List ℕ → OpCode → Bool → Frame
unfolding default_header
message bytes opcode is_final = record {
  header = record default_header { is_final = is_final; opcode = opcode };
  payload = bytes;
}

unfoldable pub pong : List ℕ → Frame
unfolding default_header
pong bytes = record {
  header = record default_header { opcode = control_op Control.pong };
  payload = bytes;
}

unfoldable pub ping : List ℕ → Frame
unfolding default_header
ping bytes = record {
  header = record default_header { opcode = control_op Control.ping };
  payload = bytes;
}

unfoldable pub close_payload : Option CloseFrame → List ℕ
close_payload (some frame) = to_be_bytes_u16 (close_code_to_u16 frame.code) ++ frame.reason
close_payload none = []

unfoldable pub close : Option CloseFrame → Frame
unfolding default_header close_payload
close msg = record { header = default_header; payload = close_payload msg }

unfoldable pub from_payload : FrameHeader → List ℕ → Frame
from_payload header payload = record { header = header; payload = payload }

with_reason : CloseCode → Result (List ℕ) → Result (Option CloseFrame)
with_reason code (ok reason) = ok (some (record { code = code; reason = reason }))
with_reason code (err e) = err e
with_reason code panic = panic

unfoldable pub into_close_payload : List ℕ → Result (Option CloseFrame)
unfolding with_reason
into_close_payload [] = ok none
into_close_payload (a ∷ []) = err (protocol invalid_close_sequence)
into_close_payload (a ∷ b ∷ rest) =
    with_reason (close_code_from_u16 (from_be_bytes 0 (a ∷ b ∷ []))) (try_from rest)

-- Consume the frame into a closing frame.
unfoldable pub into_close : Frame → Result (Option CloseFrame)
unfolding into_close_payload
into_close frame = into_close_payload frame.payload

-- `apply_mask` on the payload, if there is a mask. (The 32-bit version of it is in `Mask`.)
unfoldable pub masked_payload : Option Mask → List ℕ → List ℕ
masked_payload none payload = payload
masked_payload (some mask) payload = apply_mask_fallback payload mask

-- `format_into_buf`; `format` writes the same bytes to any writer.
unfoldable pub format_into_buf : Frame → List ℕ → List ℕ
unfolding masked_payload
format_into_buf frame buf =
    Header.format frame.header (length frame.payload) buf
    ++ masked_payload frame.header.mask frame.payload

-- Get the length of the WebSocket message.
unfoldable pub message_len : Message → ℕ
message_len (Message.text string) = length string
message_len (Message.binary bytes) = length bytes
message_len (Message.ping bytes) = length bytes
message_len (Message.pong bytes) = length bytes
message_len (Message.close none) = 0
message_len (Message.close (some frame)) = length frame.reason
message_len (Message.frame frame) = len frame

-- Consume the message and return it as binary data.
unfoldable pub into_data : Message → List ℕ
into_data (Message.text bytes) = bytes
into_data (Message.binary bytes) = bytes
into_data (Message.ping bytes) = bytes
into_data (Message.pong bytes) = bytes
into_data (Message.close none) = []
into_data (Message.close (some frame)) = frame.reason
into_data (Message.frame frame) = frame.payload

-- Attempt to consume the message and convert it to a text.
unfoldable pub into_text : Message → Result (List ℕ)
into_text (Message.text bytes) = ok bytes
into_text (Message.binary bytes) = try_from bytes
into_text (Message.ping bytes) = try_from bytes
into_text (Message.pong bytes) = try_from bytes
into_text (Message.close none) = ok []
into_text (Message.close (some frame)) = ok frame.reason
into_text (Message.frame frame) = try_from frame.payload
