-- ===== src/Handshake/Server.antt =====
-- src/handshake/server.rs: how a server answers a request, and its part in the handshake. The
-- callback is a function that gives a response, or a response that refuses. An error ends the
-- handshake, and the role with it.
use tungstenite_rs.Prelude.{
  ℕ, Bool, false, not, ◌||◌, ◌⊎◌, inl, inr, Option, none, some, List, [], ◌∷◌, ◌++◌, ◌==◌, length,
  if◌then◌else◌, is_empty,
}
use tungstenite_rs.Prelude.Text.{codes, same_bytes}
use tungstenite_rs.Types.{
  utf8, http, http_format, protocol, HeaderMap, Request, Response, wrong_http_method,
  wrong_http_version, missing_connection_upgrade_header, missing_upgrade_web_socket_header,
  missing_sec_web_socket_version_header, missing_sec_web_socket_key, invalid_sec_web_socket_key,
  junk_after_request, custom_response_successful,
}
use tungstenite_rs.Result.{Result, ok, err, panic}
use tungstenite_rs.Result.Fallible.{◌>>=◌, ok_or}
use tungstenite_rs.Stream.{Io}
use tungstenite_rs.Context.{server, WebSocketConfig, WebSocket, WebSocketContext}
use tungstenite_rs.Context
use tungstenite_rs.Deflate.Text.{Bytes, eq_ignore_ascii_case, bad_header}
use tungstenite_rs.Deflate.Negotiate.{headers_select_deflate}
use tungstenite_rs.Deflate.Codec.{Flate}
use tungstenite_rs.Deflate.Config.{accept_deflate_offers}
use tungstenite_rs.Deflate.Service.{service}
use tungstenite_rs.Handshake.{ProcessingResult, go_on, finished, version_as_str, derive_accept_key}
use tungstenite_rs.Handshake.Http.{
  split_on, any_word, is_get, Headers, Digest, contains_key, is_before_11,
}
use tungstenite_rs.Handshake.Machine.{HandshakeMachine, StageResult, start_read, start_write}

-- `split([' ', ','])`
unfoldable pub split_words : Bytes → List Bytes
unfolding split_on
split_words text = split_on (λ b. b == b' ' || b == b',') [] text

unfoldable pub is_valid_sec_websocket_key : Digest → Bytes → Bool
is_valid_sec_websocket_key digest key =
    if not (length key == 24)
    then false
    else elim (digest.decode key) [ none ↦ false | some decoded ↦ length decoded == 16 ]

module _ (headers : Headers) where
  -- The tests of a header that may not be there: with `to_str` first, or on the value itself.
  unfoldable pub text_passes : HeaderMap → Bytes → (Bytes → Bool) → Bool
  text_passes map name test = elim (headers.get map name) [
    | none ↦ false
    | some value ↦ elim (headers.to_str value) [ none ↦ false | some text ↦ test text ]
  ]

  unfoldable pub value_passes : HeaderMap → Bytes → (Bytes → Bool) → Bool
  value_passes map name test = elim (headers.get map name) [
    | none ↦ false
    | some value ↦ test value
  ]

  unfoldable pub header_lines : HeaderMap → Result Bytes
  header_lines [] = ok []
  header_lines ((n, v) ∷ map) = do
    value ← ok_or utf8 (headers.to_str v)
    rest ← header_lines map
    ok (n ++ codes ": " ++ value ++ 13 ∷ 10 ∷ rest)

  unfoldable pub write_response : Response → Result Bytes
  write_response r = do
    version ← version_as_str r.version
    lines ← header_lines r.headers
    ok (version ++ codes " " ++ headers.status_text r.status ++ 13 ∷ 10 ∷ (lines ++ 13 ∷ 10 ∷ []))

  -- The error response with its body behind it.
  unfoldable pub write_error : Response → Result Bytes
  write_error r = do
    output ← write_response r
    ok (elim r.body [ none ↦ output | some body ↦ output ++ body ])

module _ (headers : Headers) (digest : Digest) where
  -- The builder checks the value of the key's digest; the other values are constants.
  unfoldable pub accept_headers : Bytes → Result HeaderMap
  accept_headers key = do
    value ← ok_or http_format (headers.from_str (derive_accept_key digest.sha1 digest.encode key))
    ok (
        headers.append
          (headers.append (headers.append [] (codes "Connection") (codes "Upgrade"))
            (codes "Upgrade") (codes "websocket"))
          (codes "Sec-WebSocket-Accept") value)

  unfoldable pub create_response : Request → Result Response
  create_response r =
      if not (is_get r.method)
      then err (protocol wrong_http_method)
      else if is_before_11 r.version
      then err (protocol wrong_http_version)
      else if not (
          text_passes headers r.headers (codes "Connection")
            (λ t. any_word (codes "Upgrade") (split_words t)))
      then err (protocol missing_connection_upgrade_header)
      else if not (
          text_passes headers r.headers (codes "Upgrade")
            (λ t. eq_ignore_ascii_case t (codes "websocket")))
      then err (protocol missing_upgrade_web_socket_header)
      else if not (
          value_passes headers r.headers (codes "Sec-WebSocket-Version")
            (λ v. same_bytes v (codes "13")))
      then err (protocol missing_sec_web_socket_version_header)
      else (do
        key ←
            ok_or (protocol missing_sec_web_socket_key)
              (headers.get r.headers (codes "Sec-WebSocket-Key"))
        if not (is_valid_sec_websocket_key digest key)
            then err (protocol invalid_sec_web_socket_key)
            else (do
              map ← accept_headers key
              ok (record { status = 101; version = r.version; headers = map; body = none })))

  module _ {S : Type 0} (world : Io S) (flate : Flate) (rounds : ℕ) where
    abbrev pub Config : Type 0
    Config = WebSocketConfig (service flate rounds)

    abbrev pub Callback : Type 0
    Callback = Request → Response → Response ⊎ Response

    pub record ServerHandshake : Type 0 where
      pub callback : Option Callback
      pub config : Option Config
      pub error_response : Option Response

    abbrev pub Final : Type 0
    Final = WebSocket (service flate rounds) S

    unfoldable pub start :
        S → Option Callback → Option Config → HandshakeMachine S × ServerHandshake
    start s callback config =
        (start_read s, record { callback = callback; config = config; error_response = none })

    -- `NoCallback`, and a callback that has been taken.
    unfoldable pub answer : Option Callback → Request → Response → Response ⊎ Response
    answer none request response = inl response
    answer (some callback) request response = callback request response

    -- With compression enabled the offers are answered, otherwise the response may not select it.
    unfoldable pub answer_deflate :
        Request → Response → ServerHandshake → Result (Response × ServerHandshake)
    answer_deflate request response c = elim c.config [
      | none ↦ without
      | some config ↦ elim config.deflate_settings [
        | none ↦ without
        | some s ↦
            if contains_key headers response.headers (codes "Sec-WebSocket-Extensions")
            then err bad_header
            else (do
              (config', agreed) ←
                  accept_deflate_offers flate rounds headers.from_str
                    (headers.get_all request.headers (codes "Sec-WebSocket-Extensions")) config
              ok (
                elim agreed [
                  | none ↦ response
                  | some value ↦ record response {
                    headers =
                        headers.append response.headers (codes "Sec-WebSocket-Extensions") value;
                  }
                ],
                record c { config = some config' },
              ))
      ]
    ]
      where
        without : Result (Response × ServerHandshake)
        without = do
          selected ←
              headers_select_deflate
                (headers.get_all response.headers (codes "Sec-WebSocket-Extensions"))
          if selected then err bad_header else ok (response, c)

    -- The response, or the one that refuses, is written.
    unfoldable pub write_answer :
        Request → S → Response ⊎ Response → ServerHandshake → Result (S × (Bytes × ServerHandshake))
    write_answer request s (inl response) c = do
      (response', c') ← answer_deflate request response c
      output ← write_response headers response'
      ok (s, (output, c'))
    write_answer request s (inr refusal) c =
        if headers.is_success refusal.status then err (protocol custom_response_successful) else (do
          output ← write_error headers refusal
          ok (s, (output, record c { error_response = some refusal })))

    unfoldable pub start_answer :
        Result (S × (Bytes × ServerHandshake))
        → ServerHandshake
        → Result (ProcessingResult S Final) × ServerHandshake
    start_answer (ok (s, (output, c))) before = (ok (go_on (start_write s output)), c)
    start_answer (err e) before = (err e, before)
    start_answer panic before = (panic, before)

    unfoldable pub open_socket :
        S → Result (WebSocketContext (service flate rounds)) → Result (ProcessingResult S Final)
    open_socket s opened = do
      context ← opened
      ok (finished (record { context = context; socket = s }))

    unfoldable pub stage_finished :
        StageResult Request S
        → ServerHandshake
        → Result (ProcessingResult S Final) × ServerHandshake
    stage_finished (StageResult.done_reading request s tail) c =
        if not (is_empty tail)
        then (err (protocol junk_after_request), c)
        else start_answer
            (create_response request >>= λ response.
              write_answer request s (answer c.callback request response)
                (record c { callback = none }))
            c
    stage_finished (StageResult.done_writing s) c = elim c.error_response [
      | some refusal ↦ (err (http refusal), record c { error_response = none })
      | none ↦ (open_socket s (Context.new (service flate rounds) server c.config), c)
    ]
