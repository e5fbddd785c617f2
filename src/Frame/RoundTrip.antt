-- ===== src/Frame/RoundTrip.antt =====
-- Frames written and read again (src/protocol/frame/frame.rs).
use tungstenite_rs.Prelude.{
  ℕ, ◌+◌, ◌≡◌, refl, ap, Option, none, some, List, [], ◌++◌, length, arith, length-append,
  append_assoc,
}
use tungstenite_rs.Coding.{close_code_to_u16}
use tungstenite_rs.Coding.RoundTrip.{IsCanonical, close_code_from_u16-to_u16}
use tungstenite_rs.Types.{Mask, CloseFrame, Frame}
use tungstenite_rs.Result.{ok}
use tungstenite_rs.Header.{from_be_bytes, to_be_bytes_u16, is_reserved}
use tungstenite_rs.Header
use tungstenite_rs.Header.RoundTrip.{length-format}
use tungstenite_rs.Mask.Fast.{length-apply_mask_fallback}
use tungstenite_rs.Utf8.{from_utf8, try_from}
use tungstenite_rs.Frame.{len, close, into_close, format_into_buf, masked_payload}

pub length-masked_payload :
    (m : Option Mask) (payload : List ℕ) → length (masked_payload m payload) ≡ length payload
unfolding masked_payload
length-masked_payload none payload = refl
length-masked_payload (some m) payload = length-apply_mask_fallback payload m

pub format_into_buf-append :
    (f : Frame) (buf : List ℕ)
    → format_into_buf f buf
      ≡ buf
        ++ (Header.format f.header (length f.payload) [] ++ masked_payload f.header.mask f.payload)
unfolding format_into_buf Header.format
format_into_buf-append f buf = append_assoc buf _ _

-- Writing a frame appends to the buffer as many bytes as `Frame::len` announces.
pub length-format_into_buf :
    (f : Frame) (buf : List ℕ) → length (format_into_buf f buf) ≡ length buf + len f
unfolding len
length-format_into_buf f buf =
    let head = Header.format f.header (length f.payload) [] in
    let body = masked_payload f.header.mask f.payload in
    omega (
      arith,
      ap length (format_into_buf-append f buf),
      length-append buf (head ++ body),
      length-append head body,
      length-format f.header (length f.payload),
      length-masked_payload f.header.mask f.payload,
    )

-- A close frame with a code that stands in the place of its number and a reason in UTF-8 is read
-- back as it was written; so is a close frame without either.
pub into_close-close :
    (msg : Option CloseFrame)
    → ((c : CloseFrame) → msg ≡ some c → IsCanonical c.code × (from_utf8 c.reason ≡ none))
    → into_close (close msg) ≡ ok msg
unfolding into_close close
into_close-close none h = refl
into_close-close (some c) h =
    let (canonical, text) = h c refl in
    let (small, same) = close_code_from_u16-to_u16 c.code canonical in
    let number : from_be_bytes 0 (to_be_bytes_u16 (close_code_to_u16 c.code))
        ≡ close_code_to_u16 c.code =
      omega (arith, small) in
    rw (number, same, valid_reason c.reason text) refl
  where
    valid_reason : (reason : List ℕ) → from_utf8 reason ≡ none → try_from reason ≡ ok reason
    valid_reason reason e = unfold try_from in rw (e, try_from) refl
