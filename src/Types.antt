-- ===== src/Types.antt =====
-- The data that the protocol modules share: src/protocol/frame/frame.rs (CloseFrame, FrameHeader,
-- Frame), src/protocol/message.rs (Message) and src/error.rs. Byte strings are lists of numbers;
-- a `Utf8Bytes` is its list of bytes. What `Error::Utf8`, `Error::HttpFormat` and
-- `HttparseError` carry is not modelled, and the error cases of the TLS code are left out.
use tungstenite_rs.Prelude.{ℕ, Bool, Option, List}
use tungstenite_rs.Coding.{CloseCode, Data, OpCode}

-- [u8; 4]
pub record Mask : Type 0 where
  pub m0 : ℕ
  pub m1 : ℕ
  pub m2 : ℕ
  pub m3 : ℕ

pub record CloseFrame : Type 0 where
  pub code : CloseCode
  pub reason : List ℕ

pub record FrameHeader : Type 0 where
  pub is_final : Bool
  pub rsv1 : Bool
  pub rsv2 : Bool
  pub rsv3 : Bool
  pub opcode : OpCode
  pub mask : Option Mask

pub record Frame : Type 0 where
  pub header : FrameHeader
  pub payload : List ℕ

pub data Message : Type 0 where
  text binary ping pong : List ℕ → Message
  close : Option CloseFrame → Message
  frame : Frame → Message

-- The kinds of I/O error that the code looks at; any other has a number.
pub data IoErrorKind : Type 0 where
  would_block connection_reset unexpected_eof : IoErrorKind
  other_kind : ℕ → IoErrorKind

pub data CapacityError : Type 0 where
  too_many_headers : CapacityError
  message_too_long : ℕ → ℕ → CapacityError

pub data SubProtocolError : Type 0 where
  server_sent_sub_protocol_none_requested invalid_sub_protocol no_sub_protocol : SubProtocolError

pub data ProtocolError : Type 0 where
  compression wrong_http_method wrong_http_version missing_connection_upgrade_header : ProtocolError
  missing_upgrade_web_socket_header missing_sec_web_socket_version_header : ProtocolError
  missing_sec_web_socket_key invalid_sec_web_socket_key : ProtocolError
  httparse_error : ProtocolError
  sec_web_socket_sub_protocol_error : SubProtocolError → ProtocolError
  sec_web_socket_accept_key_mismatch junk_after_request custom_response_successful : ProtocolError
  invalid_header : List ℕ → ProtocolError
  handshake_incomplete send_after_closing received_after_closing : ProtocolError
  non_zero_reserved_bits unmasked_frame_from_client masked_frame_from_server : ProtocolError
  fragmented_control_frame control_frame_too_big : ProtocolError
  unknown_control_frame_type unknown_data_frame_type : ℕ → ProtocolError
  unexpected_continue_frame : ProtocolError
  expected_fragment : Data → ProtocolError
  reset_without_closing_handshake : ProtocolError
  invalid_opcode : ℕ → ProtocolError
  invalid_close_sequence : ProtocolError

-- `http::Version`; other versions, which are later, have a number.
pub data Version : Type 0 where
  http_09 http_10 http_11 : Version
  other_version : ℕ → Version

pub data Method : Type 0 where
  get_method : Method
  other_method : List ℕ → Method

-- A header map is the list of its names and values, a URI its text.
abbrev pub HeaderMap : Type 0
HeaderMap = List (List ℕ × List ℕ)

pub record Request : Type 0 where
  pub method : Method
  pub uri : List ℕ
  pub version : Version
  pub headers : HeaderMap

-- A response; a body of a type with no data is none.
pub record Response : Type 0 where
  pub status : ℕ
  pub version : Version
  pub headers : HeaderMap
  pub body : Option (List ℕ)

pub data UrlError : Type 0 where
  tls_feature_not_enabled no_host_name unsupported_url_scheme empty_host_name no_path_or_query :
      UrlError
  unable_to_connect : List ℕ → UrlError

pub data Error : Type 0 where
  connection_closed already_closed utf8 attack_attempt : Error
  io : IoErrorKind → Error
  capacity : CapacityError → Error
  protocol : ProtocolError → Error
  write_buffer_full : Message → Error
  http : Response → Error
  url : UrlError → Error
  http_format : Error
