-- ===== src/Deflate/Parameters.antt =====
-- src/protocol/deflate/negotiate.rs: an extension of a header and its parameters (`parse`).
use Prim.Native.Nat.{bit_and, bit_or}
use tungstenite_rs.Prelude.{
  ℕ, Bool, true, false, not, ◌&&◌, ◌||◌, Option, none, some, List, [], ◌∷◌, length, ltb, leb, ◌==◌,
  if◌then◌else◌, is_none, is_empty,
}
use tungstenite_rs.Prelude.Text.{codes}
use tungstenite_rs.Utf8.{from_utf8}
use tungstenite_rs.Result.{Result, ok, err}
use tungstenite_rs.Result.Fallible.{◌>>=◌, ok_or}
use tungstenite_rs.Deflate.Text.{
  Bytes, bad_header, trim_ascii, trim, eq_ignore_ascii_case, before, split_once, split_header,
  unquote, all_digits, parse_u8, starts_with_zero,
}

abbrev pub name : Bytes
name = codes "permessage-deflate"

pub data ClientWindow : Type 0 where
  absent no_value : ClientWindow
  bits : ℕ → ClientWindow

pub record Params : Type 0 where
  pub server_no_context_takeover : Bool
  pub client_no_context_takeover : Bool
  pub server_max_window_bits : Option ℕ
  pub client_max_window_bits : ClientWindow
  pub seen : ℕ

unfoldable pub default_params : Params
default_params = record {
  server_no_context_takeover = false;
  client_no_context_takeover = false;
  server_max_window_bits = none;
  client_max_window_bits = absent;
  seen = 0;
}

pub data Extension : Type 0 where
  empty : Extension
  deflate : Params → Extension
  other : Extension

-- `parse::<u8>().ok().filter(…)`
in_bounds : Option ℕ → Option ℕ
in_bounds none = none
in_bounds (some n) = if leb 8 n && leb n 15 then some n else none

unfoldable pub parse_bits : Bytes → Result ℕ
unfolding in_bounds
parse_bits text = do
  value ← unquote text
  if not (all_digits value) || (ltb 1 (length value) && starts_with_zero value)
      then err bad_header
      else ok_or bad_header (in_bounds (parse_u8 value))

-- The bit of a parameter by its name.
unfoldable pub parameter_bit : Bytes → Option ℕ
parameter_bit text =
    if eq_ignore_ascii_case text (codes "server_no_context_takeover")
    then some 1
    else if eq_ignore_ascii_case text (codes "client_no_context_takeover")
    then some 2
    else if eq_ignore_ascii_case text (codes "server_max_window_bits")
    then some 4
    else if eq_ignore_ascii_case text (codes "client_max_window_bits")
    then some 8
    else none

unfoldable pub parse_window : Option Bytes → Result ClientWindow
parse_window none = ok no_value
parse_window (some value) = do n ← parse_bits value; ok (bits n)

-- `match bit`
unfoldable pub set_parameter : ℕ → Option Bytes → Params → Result Params
unfolding parse_window
set_parameter bit value p =
    if bit == 1 && is_none value
    then ok (record p { server_no_context_takeover = true })
    else if bit == 2 && is_none value
    then ok (record p { client_no_context_takeover = true })
    else if bit == 4
    then (do
      text ← ok_or bad_header value
      n ← parse_bits text
      ok (record p { server_max_window_bits = some n }))
    else if bit == 8
    then (do window ← parse_window value; ok (record p { client_max_window_bits = window }))
    else err bad_header

-- A parameter's name and its value, if it has one.
unfoldable pub name_value : Bytes → Bytes × Option Bytes
name_value parameter = elim (split_once b'=' (trim parameter)) [
  | none ↦ (trim parameter, none)
  | some (n, value) ↦ (trim n, some (trim value))
]

unfoldable pub parse_parameter : Bytes → Params → Result Params
unfolding name_value
parse_parameter parameter p = do
  bit ← ok_or bad_header (parameter_bit (name_value parameter).0)
  if not (bit_and p.seen bit == 0)
      then err bad_header
      else set_parameter bit (name_value parameter).1 (record p { seen = bit_or p.seen bit })

unfoldable pub parse_parameters : List Bytes → Params → Result Params
parse_parameters [] p = ok p
parse_parameters (parameter ∷ rest) p = do q ← parse_parameter parameter p; parse_parameters rest q

-- `parts[1..]`
unfoldable pub tail_parts : List Bytes → List Bytes
tail_parts [] = []
tail_parts (part ∷ parts) = parts

unfoldable pub all_valid : List Bytes → List Bytes → Result (List Bytes)
all_valid all [] = ok all
all_valid all (part ∷ parts) = elim (from_utf8 part) [
  | none ↦ all_valid all parts
  | some e ↦ err bad_header
]

-- The parts of a valid text are valid texts: each cut is at an ASCII byte outside of a character.
unfoldable pub split_quoted : Bytes → ℕ → Result (List Bytes)
unfolding all_valid
split_quoted value delimiter = do parts ← split_header value delimiter; all_valid parts parts

unfoldable pub parse_deflate : Bytes → Result Extension
unfolding tail_parts
parse_deflate extension = elim (from_utf8 extension) [
  | some e ↦ err bad_header
  | none ↦ (do
    parts ← split_quoted extension b';'
    params ← parse_parameters (tail_parts parts) default_params
    ok (deflate params))
]

unfoldable pub parse : Bytes → Result Extension
unfolding parse_deflate
parse extension =
    let token = trim_ascii (before b';' extension) in
    if is_empty token
    then (if is_empty (trim_ascii extension) then ok empty else err bad_header)
    else if not (eq_ignore_ascii_case token name)
    then ok other
    else parse_deflate extension
