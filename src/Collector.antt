-- ===== src/Collector.antt =====
-- src/protocol/message.rs: a message that arrives in fragments. A text is checked as it comes.
pub mod Text
pub mod Limit
use tungstenite_rs.Prelude.{
  ℕ, ◌+◌, ◌-◌, ◌^◌, Bool, true, false, ◌||◌, Option, none, some, List, [], ◌∷◌, ◌++◌, length, min,
  ltb, if◌then◌else◌,
}
use tungstenite_rs.Types.{Message, Error, CapacityError, message_too_long, capacity, utf8}
use tungstenite_rs.Result.{Result, ok, err, panic, Exec, pure, raise, crash, lift, ◌>>=◌, ◌>>◌}
use tungstenite_rs.Utf8.Decode.{
  Incomplete, Decoded, valid, invalid, incomplete, Completed, decode, try_complete,
}

-- usize is taken to have 64 bits.
abbrev pub usize_max : ℕ
usize_max = 2 ^ 64 - 1

pub record StringCollector : Type 0 where
  pub text : List ℕ
  pub incomplete : Option Incomplete

unfoldable pub new_string : StringCollector
new_string = record { text = []; incomplete = none }

unfoldable pub string_len : StringCollector → ℕ
string_len c =
    min (length c.text + elim c.incomplete [ none ↦ 0 | some i ↦ i.buffer_len ]) usize_max

-- What `decode` says of the input that is left.
unfoldable pub push_decoded : Result Decoded → Exec StringCollector (Unit {0})
push_decoded (ok (valid text)) c = (ok tt, record c { text = c.text ++ text })
push_decoded (ok (incomplete valid_prefix suffix)) c =
    (ok tt, record { text = c.text ++ valid_prefix; incomplete = some suffix })
push_decoded (ok (invalid valid_prefix invalid_sequence rest)) c =
    (err utf8, record c { text = c.text ++ valid_prefix })
push_decoded (err e) c = (err e, c)
push_decoded panic c = (panic, c)

unfoldable pub push_input : List ℕ → Exec StringCollector (Unit {0})
push_input [] = pure tt
push_input (b ∷ bs) = push_decoded (decode (b ∷ bs))

-- After `try_complete` on the incomplete character, which has been taken out.
unfoldable pub push_completed :
    Result (Option Completed) × Incomplete → Exec StringCollector (Unit {0})
push_completed (ok none, i) c = (ok tt, record c { incomplete = some i })
push_completed (ok (some completed), i) c =
    if completed.is_valid
    then push_input completed.remaining_input (record c { text = c.text ++ completed.result_bytes })
    else (err utf8, c)
push_completed (err e, i) c = (err e, c)
push_completed (panic, i) c = (panic, c)

unfoldable pub extend_string : List ℕ → Exec StringCollector (Unit {0})
unfolding push_completed push_input push_decoded
extend_string tail c = elim c.incomplete [
  | none ↦ push_input tail c
  | some i ↦ push_completed (try_complete tail i) (record c { incomplete = none })
]

unfoldable pub into_string : StringCollector → Result (List ℕ)
into_string c = elim c.incomplete [ none ↦ ok c.text | some i ↦ err utf8 ]

pub data MessageType : Type 0 where
  text_type binary_type : MessageType

-- `IncompleteMessage` with its collector.
pub data IncompleteMessage : Type 0 where
  text_message : StringCollector → IncompleteMessage
  binary_message : List ℕ → IncompleteMessage

unfoldable pub new : MessageType → IncompleteMessage
unfolding new_string
new binary_type = binary_message []
new text_type = text_message new_string

unfoldable pub len : IncompleteMessage → ℕ
len (text_message t) = string_len t
len (binary_message b) = length b

unfoldable pub limit_of : Option ℕ → ℕ
limit_of none = usize_max
limit_of (some n) = n

as_text : Result (Unit {0}) × StringCollector → Result (Unit {0}) × IncompleteMessage
as_text (r, t) = (r, text_message t)

unfoldable pub extend_collector : List ℕ → Exec IncompleteMessage (Unit {0})
unfolding as_text
extend_collector tail (binary_message v) = (ok tt, binary_message (v ++ tail))
extend_collector tail (text_message t) = as_text (extend_string tail t)

-- Add more data to an existing message.
unfoldable pub extend : List ℕ → Option ℕ → Exec IncompleteMessage (Unit {0})
unfolding limit_of
extend tail size_limit m =
    let max_size = limit_of size_limit in
    let my_size = len m in
    let portion_size = length tail in
    if ltb max_size my_size || ltb (max_size - my_size) portion_size
    then (err (capacity (message_too_long (my_size + portion_size) max_size)), m)
    else extend_collector tail m

text_of : Result (List ℕ) → Result Message
text_of (ok bytes) = ok (Message.text bytes)
text_of (err e) = err e
text_of panic = panic

-- Convert an incomplete message into a complete one.
unfoldable pub complete : IncompleteMessage → Result Message
unfolding text_of
complete (binary_message v) = ok (Message.binary v)
complete (text_message t) = text_of (into_string t)
