-- ===== src/Frame/Messages.antt =====
-- src/protocol/message.rs: the predicates and conversions of Message.
use tungstenite_rs.Prelude.{ℕ, ◌≡◌, refl, Bool, true, false, none, some, List, [], ◌==◌}
use tungstenite_rs.Types.{Message}
use tungstenite_rs.Result.{Result, ok}
use tungstenite_rs.Utf8.{try_from}
use tungstenite_rs.Frame.{message_len, into_text}

unfoldable pub is_text : Message → Bool
is_text (Message.text bytes) = true
is_text m = false

unfoldable pub is_binary : Message → Bool
is_binary (Message.binary bytes) = true
is_binary m = false

unfoldable pub is_ping : Message → Bool
is_ping (Message.ping bytes) = true
is_ping m = false

unfoldable pub is_pong : Message → Bool
is_pong (Message.pong bytes) = true
is_pong m = false

unfoldable pub is_close : Message → Bool
is_close (Message.close frame) = true
is_close m = false

unfoldable pub is_empty_message : Message → Bool
is_empty_message m = message_len m == 0

-- The text as it stands, without taking the message apart.
unfoldable pub to_text : Message → Result (List ℕ)
to_text (Message.text bytes) = ok bytes
to_text (Message.binary bytes) = try_from bytes
to_text (Message.ping bytes) = try_from bytes
to_text (Message.pong bytes) = try_from bytes
to_text (Message.close none) = ok []
to_text (Message.close (some frame)) = ok frame.reason
to_text (Message.frame frame) = try_from frame.payload

-- `From<String>` and `From<&str>`; `From<Bytes>`, `From<Vec<u8>>` and `From<&[u8]>`.
unfoldable pub from_text : List ℕ → Message
from_text bytes = Message.text bytes

unfoldable pub from_bytes : List ℕ → Message
from_bytes bytes = Message.binary bytes

-- The two conversions to a text agree.
to_text-into_text : (m : Message) → to_text m ≡ into_text m
unfolding to_text into_text
to_text-into_text (Message.text bytes) = refl
to_text-into_text (Message.binary bytes) = refl
to_text-into_text (Message.ping bytes) = refl
to_text-into_text (Message.pong bytes) = refl
to_text-into_text (Message.close none) = refl
to_text-into_text (Message.close (some frame)) = refl
to_text-into_text (Message.frame frame) = refl
