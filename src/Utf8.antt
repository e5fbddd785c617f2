-- ===== src/Utf8.antt =====
-- UTF-8. `from_utf8` is the standard library's `str::from_utf8`: the code uses its verdict and the
-- two numbers of its error. src/protocol/frame/utf8.rs builds on it, and src/utf8.rs (the children
-- Decode, Splice) decodes a text that arrives in pieces.
pub mod Fronts
pub mod Scan
pub mod Decode
pub mod Splice
pub mod Complete
use tungstenite_rs.Prelude.{
  ℕ, zero, suc, ◌+◌, Bool, true, false, ◌&&◌, ◌||◌, Option, none, some, List, [], ◌∷◌, length, drop,
  ltb, leb, ◌==◌, if◌then◌else◌,
}
use tungstenite_rs.Types.{Error, utf8}
use tungstenite_rs.Result.{Result, ok, err}

-- `error_len` is none where the input ends within a character.
pub record Utf8Error : Type 0 where
  pub valid_up_to : ℕ
  pub error_len : Option ℕ

-- What stands at the front of the input: nothing, a character of so many bytes, so many bytes that
-- begin no character, or a beginning of one.
pub data Front : Type 0 where
  end : Front
  char : ℕ → Front
  bad : ℕ → Front
  short : Front

unfoldable pub in_range : ℕ → ℕ → ℕ → Bool
in_range lo hi b = leb lo b && leb b hi

-- Continuation bytes.
unfoldable pub is_cont : ℕ → Bool
unfolding in_range
is_cont b = in_range 0x80 0xBF b

-- The second byte of a character of three or four bytes depends on the first.
unfoldable pub second_of_three : ℕ → ℕ → Bool
unfolding in_range
second_of_three a b =
    if a == 0xE0
    then in_range 0xA0 0xBF b
    else if a == 0xED
    then in_range 0x80 0x9F b
    else in_range 0x80 0xBF b

unfoldable pub second_of_four : ℕ → ℕ → Bool
unfolding in_range
second_of_four a b =
    if a == 0xF0
    then in_range 0x90 0xBF b
    else if a == 0xF4
    then in_range 0x80 0x8F b
    else in_range 0x80 0xBF b

unfoldable pub two_front : List ℕ → Front
unfolding is_cont
two_front [] = short
two_front (b ∷ bs) = if is_cont b then char 2 else bad 1

unfoldable pub three_front : ℕ → List ℕ → Front
unfolding second_of_three is_cont
three_front a [] = short
three_front a (b ∷ []) = if second_of_three a b then short else bad 1
three_front a (b ∷ c ∷ bs) =
    if second_of_three a b then (if is_cont c then char 3 else bad 2) else bad 1

unfoldable pub four_front : ℕ → List ℕ → Front
unfolding second_of_four is_cont
four_front a [] = short
four_front a (b ∷ []) = if second_of_four a b then short else bad 1
four_front a (b ∷ c ∷ []) =
    if second_of_four a b then (if is_cont c then short else bad 2) else bad 1
four_front a (b ∷ c ∷ d ∷ bs) =
    if second_of_four a b
    then (if is_cont c then (if is_cont d then char 4 else bad 3) else bad 2)
    else bad 1

-- The character at the front, by the width that its first byte announces.
unfoldable pub front : List ℕ → Front
unfolding two_front three_front four_front in_range
front [] = end
front (a ∷ bs) =
    if ltb a 0x80
    then char 1
    else if in_range 0xC2 0xDF a
    then two_front bs
    else if in_range 0xE0 0xEF a
    then three_front a bs
    else if in_range 0xF0 0xF4 a
    then four_front a bs
    else bad 1

-- Behind `pos` valid bytes.
unfoldable pub validate : ℕ → ℕ → List ℕ → Option Utf8Error
validate zero pos bs = none
validate (suc fuel) pos bs = elim (front bs) [
  | end ↦ none
  | char w ↦ validate fuel (pos + w) (drop w bs)
  | bad n ↦ some (record { valid_up_to = pos; error_len = some n })
  | short ↦ some (record { valid_up_to = pos; error_len = none })
]

-- `str::from_utf8`: no error, or where the first one is. Each round takes a byte at least.
unfoldable pub from_utf8 : List ℕ → Option Utf8Error
unfolding validate
from_utf8 bs = validate (suc (length bs)) 0 bs

-- `Utf8Bytes::try_from`
unfoldable pub try_from : List ℕ → Result (List ℕ)
try_from bytes = elim (from_utf8 bytes) [ none ↦ ok bytes | some e ↦ err utf8 ]
