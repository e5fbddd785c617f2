-- ===== src/Examples/Compression/Answers.antt =====
-- A concrete response of a server for the theorems on src/handshake/client.rs.
use tungstenite_rs.Prelude.{◌≡◌, refl, none, some, [], ◌∷◌, ◌↔◌, arith}
use tungstenite_rs.Prelude.Text.{codes}
use mathlib.Core.List.Memᴰ.{head}
use tungstenite_rs.Types.{Response, http_11}
use tungstenite_rs.Result
use tungstenite_rs.Deflate.{default_settings}
use tungstenite_rs.Deflate.Text.{eq_ignore_ascii_case}
use tungstenite_rs.Deflate.Table.{all_visible}
use tungstenite_rs.Context.{default_config, WebSocketConfig}
use tungstenite_rs.Deflate.Service.{service}
use tungstenite_rs.Handshake.Client.{
  VerifyData, verify_response, verify_deflate_response, ClientHandshake,
}
use tungstenite_rs.Handshake.Verified.{IsVerified, token, one_asked, verify_response-iff-IsVerified}
use tungstenite_rs.Handshake.Established.{Established, stage_finished-Established}
use tungstenite_rs.Examples.Fields.{plain_headers, lookup, lookup_all, visible}
use tungstenite_rs.Examples.{peer, quiet_peer}
use tungstenite_rs.Examples.Compression.{
  storing, storing-Lawful, narrow, narrowed, narrow-accepted, default_settings-IsFit,
}

abbrev pub response : Response
response = record {
  status = 101;
  version = http_11;
  headers =
      (codes "Upgrade", codes "WebSocket")
      ∷ (codes "Connection", codes "upgrade")
      ∷ (codes "Sec-WebSocket-Accept", codes "key")
      ∷ (codes "Sec-WebSocket-Protocol", codes "chat")
      ∷ (codes "Sec-WebSocket-Extensions", narrow)
      ∷ [];
  body = none;
}

abbrev pub asked : VerifyData
asked = record { accept_key = codes "key"; subprotocols = some (codes "chat" ∷ codes "mail" ∷ []) }

response-IsVerified : IsVerified plain_headers asked response
unfolding eq_ignore_ascii_case lookup visible all_visible
response-IsVerified = record {
  switches = refl;
  upgrade = token (codes "WebSocket") (codes "WebSocket") refl refl refl;
  connection = token (codes "upgrade") (codes "upgrade") refl refl refl;
  accept = refl;
  subprotocol =
      one_asked (codes "chat") (codes "chat") (codes "chat" ∷ codes "mail" ∷ []) refl refl
        (head refl);
}

verify_response-iff-IsVerified_example :
    (verify_response plain_headers asked response ≡ Result.ok response)
    ↔ ((response ≡ response) × IsVerified plain_headers asked response)
verify_response-iff-IsVerified_example =
    verify_response-iff-IsVerified plain_headers asked response response

abbrev pub offering : WebSocketConfig (service storing 9)
offering = record (default_config (service storing 9)) { deflate_settings = some default_settings }

abbrev pub waiting_client : ClientHandshake plain_headers peer storing 9
waiting_client = record { verify_data = asked; config = some offering }

answer-accepted :
    verify_deflate_response
      (some default_settings)
      (lookup_all response.headers (codes "Sec-WebSocket-Extensions"))
    ≡ Result.ok (some narrowed)
unfolding verify_deflate_response lookup_all eq_ignore_ascii_case
answer-accepted = narrow-accepted

stage_finished-Established_example :
    Established plain_headers peer storing storing-Lawful 9 waiting_client offering response
      quiet_peer
      (1 ∷ 2 ∷ [])
      (some narrowed)
unfolding default_config
stage_finished-Established_example =
    stage_finished-Established plain_headers peer storing storing-Lawful 9 waiting_client offering
      response quiet_peer (1 ∷ 2 ∷ []) (some narrowed) refl (omega arith) default_settings-IsFit
      response-IsVerified answer-accepted
