-- ===== src/Handshake/Client.antt =====
-- src/handshake/client.rs: how a client judges the response of a server, and its part in the
-- handshake. The lookup in a header map and `HeaderValue::to_str` are the `http` crate's, and
-- parameters.
use tungstenite_rs.Prelude.{
  ℕ, Bool, true, false, not, Option, none, some, List, [], ◌∷◌, ◌==◌, if◌then◌else◌,
}
use tungstenite_rs.Prelude.Text.{codes, same_bytes}
use tungstenite_rs.Types.{
  utf8, http, protocol, HeaderMap, Response, missing_upgrade_web_socket_header,
  missing_connection_upgrade_header, sec_web_socket_accept_key_mismatch,
  sec_web_socket_sub_protocol_error, no_sub_protocol, server_sent_sub_protocol_none_requested,
  invalid_sub_protocol,
}
use tungstenite_rs.Result.{Result, ok, err, panic}
use tungstenite_rs.Result.Fallible.{◌>>=◌}
use tungstenite_rs.Stream.{Io}
use tungstenite_rs.Context.{client, WebSocketConfig, WebSocket}
use tungstenite_rs.Context
use tungstenite_rs.Deflate.{Settings}
use tungstenite_rs.Deflate.Text.{Bytes, eq_ignore_ascii_case, bad_header}
use tungstenite_rs.Deflate.Negotiate.{accept_response, headers_select_deflate}
use tungstenite_rs.Deflate.Codec.{Flate}
use tungstenite_rs.Deflate.Service.{service}
use tungstenite_rs.Handshake.Http.{Headers}
use tungstenite_rs.Handshake.{ProcessingResult, go_on, finished}
use tungstenite_rs.Handshake.Machine.{StageResult, start_read}

pub record VerifyData : Type 0 where
  pub accept_key : Bytes
  pub subprotocols : Option (List Bytes)

-- `contains` of a list of texts.
unfoldable pub contains_text : Bytes → List Bytes → Bool
contains_text text [] = false
contains_text text (t ∷ ts) = if same_bytes t text then true else contains_text text ts

-- `match offered`, with the values of the extension header.
unfoldable pub verify_deflate_response : Option Settings → List Bytes → Result (Option Settings)
verify_deflate_response (some offered) values = accept_response offered values
verify_deflate_response none values =
    headers_select_deflate values >>= λ selected. if selected then err bad_header else ok none

module _ (headers : Headers) where
  -- A header that is there, is a text, and is the given token in any case.
  unfoldable pub has_token : HeaderMap → Bytes → Bytes → Bool
  has_token map name token = elim (headers.get map name) [
    | none ↦ false
    | some value ↦ elim (headers.to_str value) [
      | none ↦ false
      | some text ↦ eq_ignore_ascii_case text token
    ]
  ]

  unfoldable pub accepts_key : HeaderMap → Bytes → Bool
  accepts_key map key = elim (headers.get map (codes "Sec-WebSocket-Accept")) [
    | none ↦ false
    | some value ↦ same_bytes value key
  ]

  -- The subprotocol that was returned, and those that were asked for.
  unfoldable pub verify_subprotocol : Option Bytes → Option (List Bytes) → Result (Unit {0})
  verify_subprotocol none none = ok tt
  verify_subprotocol none (some asked) =
      err (protocol (sec_web_socket_sub_protocol_error no_sub_protocol))
  verify_subprotocol (some value) none =
      err (protocol (sec_web_socket_sub_protocol_error server_sent_sub_protocol_none_requested))
  verify_subprotocol (some value) (some asked) = elim (headers.to_str value) [
    | none ↦ err utf8
    | some text ↦
        if contains_text text asked
        then ok tt
        else err (protocol (sec_web_socket_sub_protocol_error invalid_sub_protocol))
  ]

  unfoldable pub verify_response : VerifyData → Response → Result Response
  verify_response data_given r =
      if not (r.status == 101)
      then err (http r)
      else if not (has_token r.headers (codes "Upgrade") (codes "websocket"))
      then err (protocol missing_upgrade_web_socket_header)
      else if not (has_token r.headers (codes "Connection") (codes "Upgrade"))
      then err (protocol missing_connection_upgrade_header)
      else if not (accepts_key r.headers data_given.accept_key)
      then err (protocol sec_web_socket_accept_key_mismatch)
      else verify_subprotocol (headers.get r.headers (codes "Sec-WebSocket-Protocol"))
          data_given.subprotocols
        >>= λ u. ok r

  -- `*e.body_mut() = Some(tail)`
  unfoldable pub with_tail : List ℕ → Result Response → Result Response
  with_tail tail (err (http r)) = err (http (record r { body = some tail }))
  with_tail tail r = r

  module _ {S : Type 0} (world : Io S) (flate : Flate) (rounds : ℕ) where
    abbrev pub Config : Type 0
    Config = WebSocketConfig (service flate rounds)

    pub record ClientHandshake : Type 0 where
      pub verify_data : VerifyData
      pub config : Option Config

    unfoldable pub offered_deflate : Option Config → Option Settings
    offered_deflate none = none
    offered_deflate (some config) = config.deflate_settings

    unfoldable pub with_agreed : Option Settings → Option Config → Option Config
    with_agreed agreed none = none
    with_agreed agreed (some config) = some (record config { deflate_settings = agreed })

    -- The socket and the response that a handshake ends with.
    abbrev pub Final : Type 0
    Final = WebSocket (service flate rounds) S × Response

    -- What follows a verified response: compression is judged, and the connection opens.
    unfoldable pub open_connection :
        Response
        → S
        → List ℕ
        → ClientHandshake
        → Result (ProcessingResult S Final) × ClientHandshake
    open_connection r s tail c = after_deflate (
        verify_deflate_response (offered_deflate c.config)
          (headers.get_all r.headers (codes "Sec-WebSocket-Extensions")))
      where
        after_open :
            ClientHandshake
            → Result (Context.WebSocketContext (service flate rounds))
            → Result (ProcessingResult S Final) × ClientHandshake
        after_open c' (ok context) =
            (ok (finished (record { context = context; socket = s }, r)), c')
        after_open c' (err e) = (err e, c')
        after_open c' panic = (panic, c')

        after_deflate :
            Result (Option Settings) → Result (ProcessingResult S Final) × ClientHandshake
        after_deflate (ok agreed) =
            let c' = record c { config = with_agreed agreed c.config } in
            after_open c'
              (Context.from_partially_read (service flate rounds) world tail client c'.config)
        after_deflate (err e) = (err e, c)
        after_deflate panic = (panic, c)

    unfoldable pub after_verify :
        Result Response
        → S
        → List ℕ
        → ClientHandshake
        → Result (ProcessingResult S Final) × ClientHandshake
    after_verify (ok r) s tail c = open_connection r s tail c
    after_verify (err e) s tail c = (err e, c)
    after_verify panic s tail c = (panic, c)

    unfoldable pub stage_finished :
        StageResult Response S
        → ClientHandshake
        → Result (ProcessingResult S Final) × ClientHandshake
    stage_finished (StageResult.done_writing s) c = (ok (go_on (start_read s)), c)
    stage_finished (StageResult.done_reading r s tail) c =
        after_verify (with_tail tail (verify_response c.verify_data r)) s tail c
