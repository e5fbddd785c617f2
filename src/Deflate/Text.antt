-- ===== src/Deflate/Text.antt =====
-- The byte-string functions of src/protocol/deflate/negotiate.rs, with the functions of the
-- standard library that they call. A `&str` is the list of its bytes in UTF-8.
use tungstenite_rs.Prelude.{
  ℕ, ◌+◌, ◌-◌, ◌*◌, ◌/◌, ◌%◌, Bool, true, false, ◌&&◌, ◌||◌, Option, none, some, List, [], ◌∷◌,
  ◌++◌, ltb, leb, ◌==◌, if◌then◌else◌,
}
use mathlib.Core.List.{reverse}
use tungstenite_rs.Prelude.Text.{codes}
use tungstenite_rs.Types.{Error, protocol, invalid_header}
use tungstenite_rs.Result.{Result, ok, err}

abbrev pub Bytes : Type 0
Bytes = List ℕ

-- `invalid_header`
abbrev pub bad_header : Error
bad_header = protocol (invalid_header (codes "sec-websocket-extensions"))

abbrev pub is_ascii_whitespace : ℕ → Bool
is_ascii_whitespace b = b == 32 || (b == 9 || (b == 10 || (b == 12 || b == 13)))

abbrev pub drop_while : (ℕ → Bool) → Bytes → Bytes
drop_while test [] = []
drop_while test (b ∷ bs) = elim (test b) [ true ↦ drop_while test bs | false ↦ b ∷ bs ]

unfoldable pub trim_ascii : Bytes → Bytes
trim_ascii value =
    reverse (drop_while is_ascii_whitespace (reverse (drop_while is_ascii_whitespace value)))

-- The bytes of a character of white space (Unicode), by its count of bytes.
pub data Width : Type 0 where
  no_space one two three : Width

abbrev pub space_width : ℕ → ℕ → ℕ → Width
space_width a b c =
    if (leb 9 a && leb a 13) || a == 32
    then one
    else if a == 0xC2 && (b == 0x85 || b == 0xA0)
    then two
    else if (a == 0xE1 && (b == 0x9A && c == 0x80))
        || ((a == 0xE2
              && (b == 0x80
                  && ((leb 0x80 c && leb c 0x8A) || (c == 0xA8 || (c == 0xA9 || c == 0xAF)))))
            || ((a == 0xE2 && (b == 0x81 && c == 0x9F)) || (a == 0xE3 && (b == 0x80 && c == 0x80))))
    then three
    else no_space

-- At the end the bytes stand in reverse.
abbrev pub space_width_back : ℕ → ℕ → ℕ → Width
space_width_back c b a = elim (space_width c 0 0) [
  | one ↦ one
  | _ ↦ elim (space_width b c 0) [
    | two ↦ two
    | _ ↦ elim (space_width a b c) [ three ↦ three | _ ↦ no_space ]
  ]
]

unfoldable pub skip_space : (ℕ → ℕ → ℕ → Width) → Bytes → Bytes
skip_space width [] = []
skip_space width (a ∷ []) = elim (width a 0 0) [ one ↦ [] | _ ↦ a ∷ [] ]
skip_space width (a ∷ b ∷ []) = elim (width a b 0) [
  | one ↦ skip_space width (b ∷ [])
  | two ↦ []
  | _ ↦ a ∷ b ∷ []
]
skip_space width (a ∷ b ∷ c ∷ bs) = elim (width a b c) [
  | one ↦ skip_space width (b ∷ c ∷ bs)
  | two ↦ skip_space width (c ∷ bs)
  | three ↦ skip_space width bs
  | no_space ↦ a ∷ b ∷ c ∷ bs
]

-- `str::trim`
unfoldable pub trim : Bytes → Bytes
unfolding skip_space
trim value = reverse (skip_space space_width_back (reverse (skip_space space_width value)))

abbrev to_ascii_lowercase : ℕ → ℕ
to_ascii_lowercase b = if leb b'A' b && leb b b'Z' then b + 32 else b

unfoldable pub eq_ignore_ascii_case : Bytes → Bytes → Bool
eq_ignore_ascii_case [] [] = true
eq_ignore_ascii_case (a ∷ as') (b ∷ bs) =
    (to_ascii_lowercase a == to_ascii_lowercase b) && eq_ignore_ascii_case as' bs
eq_ignore_ascii_case _ _ = false

-- `value.split(|byte| *byte == delimiter).next()`
unfoldable pub before : ℕ → Bytes → Bytes
before delimiter [] = []
before delimiter (b ∷ bs) = if b == delimiter then [] else b ∷ before delimiter bs

-- `split_once`
unfoldable pub split_once : ℕ → Bytes → Option (Bytes × Bytes)
split_once delimiter [] = none
split_once delimiter (b ∷ bs) =
    let rest = split_once delimiter bs in
    if b == delimiter
    then some ([], bs)
    else elim rest [ none ↦ none | some (name, value) ↦ some (b ∷ name, value) ]

unfoldable pub contains : ℕ → Bytes → Bool
contains b [] = false
contains b (c ∷ cs) = c == b || contains b cs

-- The loop of `split_header`: `part` is the slice from `start` on.
pub record Splitter : Type 0 where
  pub parts : List Bytes
  pub part : Bytes
  pub quoted : Bool
  pub escaped : Bool

abbrev push_byte : ℕ → Splitter → Splitter
push_byte b s = record s { part = s.part ++ b ∷ [] }

unfoldable pub split_step : ℕ → ℕ → Splitter → Splitter
split_step delimiter b s =
    if s.quoted
    then (if s.escaped
        then push_byte b (record s { escaped = false })
        else if b == b'\\'
        then push_byte b (record s { escaped = true })
        else if b == b'"'
        then push_byte b (record s { quoted = false })
        else push_byte b s)
    else if b == b'"'
    then push_byte b (record s { quoted = true })
    else if b == delimiter
    then record s { parts = s.parts ++ s.part ∷ []; part = [] }
    else push_byte b s

unfoldable pub split_bytes : ℕ → Bytes → Splitter → Splitter
split_bytes delimiter [] s = s
split_bytes delimiter (b ∷ bs) s = split_bytes delimiter bs (split_step delimiter b s)

abbrev pub unsplit : Splitter
unsplit = record { parts = []; part = []; quoted = false; escaped = false }

unfoldable pub finish_split : Splitter → Result (List Bytes)
finish_split s = if s.quoted || s.escaped then err bad_header else ok (s.parts ++ s.part ∷ [])

unfoldable pub split_header : Bytes → ℕ → Result (List Bytes)
unfolding split_bytes split_step finish_split
split_header value delimiter = finish_split (split_bytes delimiter value unsplit)

-- The loop of `unquote`, behind the opening quote. A character is pushed byte by byte: no byte of a
-- longer character is a quote or a backslash.
unfoldable pub unquote_from : Bytes → Bytes → Result Bytes
unquote_from output [] = err bad_header
unquote_from output (b ∷ []) = if b == b'"' then ok output else err bad_header
unquote_from output (b ∷ c ∷ bs) =
    let escaped = unquote_from (output ++ c ∷ []) bs in
    let further = unquote_from (output ++ b ∷ []) (c ∷ bs) in
    if b == b'\\' then escaped else if b == b'"' then err bad_header else further

unfoldable pub unquote : Bytes → Result Bytes
unfolding unquote_from contains
unquote [] = ok []
unquote (b ∷ bs) =
    if b == b'"'
    then unquote_from [] bs
    else if contains b'"' (b ∷ bs)
    then err bad_header
    else ok (b ∷ bs)

-- `format!("{}", n)` of a u8
unfoldable pub decimal : ℕ → Bytes
decimal n =
    if ltb n 10
    then (48 + n) ∷ []
    else if ltb n 100
    then (48 + n / 10) ∷ (48 + n % 10) ∷ []
    else (48 + n / 100) ∷ (48 + n / 10 % 10) ∷ (48 + n % 10) ∷ []

abbrev is_ascii_digit : ℕ → Bool
is_ascii_digit b = leb 48 b && leb b 57

unfoldable pub all_digits : Bytes → Bool
all_digits [] = true
all_digits (b ∷ bs) = is_ascii_digit b && all_digits bs

abbrev digits_value : ℕ → Bytes → ℕ
digits_value acc [] = acc
digits_value acc (b ∷ bs) = digits_value (acc * 10 + (b - 48)) bs

-- `parse::<u8>` of digits: none for no digit, or a number that does not fit
unfoldable pub parse_u8 : Bytes → Option ℕ
parse_u8 [] = none
parse_u8 (b ∷ bs) = let n = digits_value 0 (b ∷ bs) in if leb n 255 then some n else none

-- `starts_with('0')`
unfoldable pub starts_with_zero : Bytes → Bool
starts_with_zero [] = false
starts_with_zero (b ∷ bs) = b == 48
