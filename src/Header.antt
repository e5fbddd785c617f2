-- ===== src/Header.antt =====
-- src/protocol/frame/frame.rs: the header of a frame, how it is formatted and parsed.
-- A cursor is the count of bytes read and the bytes that are left; `format` appends to a `Vec`,
-- where no write fails.
pub mod Bytes
pub mod RoundTrip
use Prim.Native.Nat.{bit_and, bit_or}
use tungstenite_rs.Prelude.{
  ℕ, zero, suc, ◌+◌, ◌-◌, ◌*◌, ◌/◌, ◌%◌, ◌^◌, Bool, true, false, not, Option, none, some, List, [],
  ◌∷◌, ◌++◌, length, take, drop, ltb, ◌==◌, if◌then◌else◌, is_some,
}
use tungstenite_rs.Coding.{
  OpCode, data_op, control_op, Data, Control, close, opcode_to_u8, opcode_from_u8,
}
use tungstenite_rs.Types.{
  Mask, FrameHeader, Error, IoErrorKind, io, unexpected_eof, protocol, invalid_opcode,
}
use tungstenite_rs.Result.{Result, ok, err, panic, Exec, pure, raise, lift, or_panic, ◌>>=◌, ◌>>◌}

pub data LengthFormat : Type 0 where
  u8 : ℕ → LengthFormat
  u16 u64 : LengthFormat

unfoldable pub for_length : ℕ → LengthFormat
for_length length = if ltb length 126 then u8 length else if ltb length 65536 then u16 else u64

unfoldable pub extra_bytes : LengthFormat → ℕ
extra_bytes (u8 b) = 0
extra_bytes u16 = 2
extra_bytes u64 = 8

unfoldable pub length_byte : LengthFormat → ℕ
length_byte (u8 b) = b
length_byte u16 = 126
length_byte u64 = 127

unfoldable pub for_byte : ℕ → LengthFormat
for_byte byte =
    let b = bit_and byte 0x7F in if b == 126 then u16 else if b == 127 then u64 else u8 b

unfoldable pub default_header : FrameHeader
default_header = record {
  is_final = true;
  rsv1 = false;
  rsv2 = false;
  rsv3 = false;
  opcode = control_op close;
  mask = none;
}

abbrev pub max_size : ℕ
max_size = 14

-- Get the size of the header formatted with given payload length.
unfoldable pub len : FrameHeader → ℕ → ℕ
unfolding for_length extra_bytes
len h length = 2 + extra_bytes (for_length length) + (if is_some h.mask then 4 else 0)

-- u16::to_be_bytes and u64::to_be_bytes
abbrev pub to_be_bytes_u16 : ℕ → List ℕ
to_be_bytes_u16 n = (n / 2 ^ 8 % 256) ∷ (n % 256) ∷ []

abbrev pub to_be_bytes_u64 : ℕ → List ℕ
to_be_bytes_u64 n =
    (n / 2 ^ 56 % 256)
    ∷ (n / 2 ^ 48 % 256)
    ∷ (n / 2 ^ 40 % 256)
    ∷ (n / 2 ^ 32 % 256)
    ∷ (n / 2 ^ 24 % 256)
    ∷ (n / 2 ^ 16 % 256)
    ∷ (n / 2 ^ 8 % 256)
    ∷ (n % 256)
    ∷ []

abbrev pub from_be_bytes : ℕ → List ℕ → ℕ
from_be_bytes acc [] = acc
from_be_bytes acc (b ∷ bs) = from_be_bytes (acc * 256 + b) bs

abbrev pub mask_bytes : Mask → List ℕ
mask_bytes m = m.m0 ∷ m.m1 ∷ m.m2 ∷ m.m3 ∷ []

-- The two bytes at the front.
unfoldable pub first_byte : FrameHeader → ℕ
unfolding opcode_to_u8
first_byte h =
    bit_or
      (bit_or
        (bit_or (bit_or (opcode_to_u8 h.opcode) (if h.is_final then 0x80 else 0))
          (if h.rsv1 then 0x40 else 0))
        (if h.rsv2 then 0x20 else 0))
      (if h.rsv3 then 0x10 else 0)

unfoldable pub second_byte : FrameHeader → LengthFormat → ℕ
unfolding length_byte
second_byte h lenfmt = bit_or (length_byte lenfmt) (if is_some h.mask then 0x80 else 0)

unfoldable pub length_bytes : LengthFormat → ℕ → List ℕ
length_bytes (u8 b) length = []
length_bytes u16 length = to_be_bytes_u16 (length % 2 ^ 16)
length_bytes u64 length = to_be_bytes_u64 length

unfoldable pub optional_mask_bytes : Option Mask → List ℕ
optional_mask_bytes none = []
optional_mask_bytes (some m) = mask_bytes m

-- Format a header for given payload size.
unfoldable pub format : FrameHeader → ℕ → List ℕ → List ℕ
unfolding first_byte second_byte for_length length_bytes optional_mask_bytes
format h length output =
    let lenfmt = for_length length in
    output
    ++ (first_byte h
        ∷ second_byte h lenfmt
        ∷ (length_bytes lenfmt length ++ optional_mask_bytes h.mask))

pub record Cursor : Type 0 where
  pub position : ℕ
  pub rest : List ℕ

-- `Read::read` into a buffer of `n` bytes: what there is, up to `n` bytes.
unfoldable pub read : ℕ → Exec Cursor (List ℕ)
read n c =
    let got = take n c.rest in
    (ok got, record { position = c.position + length got; rest = drop n c.rest })

-- `Read::read_exact`
unfoldable pub read_exact : ℕ → Exec Cursor (List ℕ)
read_exact n c =
    if ltb (length c.rest) n
    then (err (io unexpected_eof), record { position = c.position + length c.rest; rest = [] })
    else (ok (take n c.rest), record { position = c.position + n; rest = drop n c.rest })

-- Code that returns `Ok(None)` early.
abbrev pub or_incomplete {ℓ} :
    {S A B : Type ℓ} → Exec S (Option A) → (A → Exec S (Option B)) → Exec S (Option B)
or_incomplete m f = m >>= λ o. elim o [ none ↦ pure none | some a ↦ f a ]

two_bytes : List ℕ → Option (ℕ × ℕ)
two_bytes (first ∷ second ∷ []) = some (first, second)
two_bytes _ = none

unfoldable pub read_head : Exec Cursor (Option (ℕ × ℕ))
unfolding read two_bytes
read_head = do head ← read 2; pure (two_bytes head)

-- An end of file on `read_exact` is no error.
eof_is_none : Result (List ℕ) → Result (Option (List ℕ))
eof_is_none (ok bytes) = ok (some bytes)
eof_is_none (err (io unexpected_eof)) = ok none
eof_is_none (err e) = err e
eof_is_none panic = panic

unfoldable pub read_length : ℕ → Exec Cursor (Option ℕ)
unfolding for_byte extra_bytes read_exact eof_is_none
read_length second c =
    let length_byte = bit_and second 0x7F in
    let length_length = extra_bytes (for_byte length_byte) in
    let (r, c') = read_exact length_length c in
    if ltb 0 length_length
    then or_incomplete (lift (eof_is_none r)) (λ bytes. pure (some (from_be_bytes 0 bytes))) c'
    else (ok (some length_byte), c)

four_bytes : List ℕ → Option (Option Mask)
four_bytes (a ∷ b ∷ c ∷ d ∷ []) = some (some (record { m0 = a; m1 = b; m2 = c; m3 = d }))
four_bytes _ = none

unfoldable pub read_mask : Bool → Exec Cursor (Option (Option Mask))
unfolding read four_bytes
read_mask true = do bytes ← read 4; pure (four_bytes bytes)
read_mask false = pure (some none)

unfoldable pub is_reserved : OpCode → Bool
is_reserved (control_op (Control.reserved i)) = true
is_reserved (data_op (Data.reserved i)) = true
is_reserved _ = false

unfoldable pub bit_set : ℕ → ℕ → Bool
bit_set byte bit = not (bit_and byte bit == 0)

unfoldable pub header_of : ℕ → OpCode → Option Mask → FrameHeader
unfolding bit_set
header_of first opcode mask = record {
  is_final = bit_set first 0x80;
  rsv1 = bit_set first 0x40;
  rsv2 = bit_set first 0x20;
  rsv3 = bit_set first 0x10;
  opcode = opcode;
  mask = mask;
}

-- Internal parse engine, after the first two bytes.
unfoldable pub parse_after_head : ℕ → ℕ → Exec Cursor (Option (FrameHeader × ℕ))
parse_after_head first second = do
  opcode ← lift (or_panic (opcode_from_u8 (bit_and first 0x0F)))
  or_incomplete (read_length second) λ length.
      or_incomplete (read_mask (bit_set second 0x80)) λ mask.
        if is_reserved opcode
        then raise (protocol (invalid_opcode (bit_and first 0x0F)))
        else pure (some (header_of first opcode mask, length))

unfoldable pub parse_internal : Exec Cursor (Option (FrameHeader × ℕ))
parse_internal = or_incomplete read_head λ (first, second). parse_after_head first second

-- `Ok(None)` sets the position back.
restore :
    Cursor → Result (Option (FrameHeader × ℕ)) × Cursor → Result (Option (FrameHeader × ℕ)) × Cursor
restore initial (ok none, c) = (ok none, initial)
restore initial (ok (some a), c) = (ok (some a), c)
restore initial (err e, c) = (err e, c)
restore initial (panic, c) = (panic, c)

-- Parse a header from an input stream.
unfoldable pub parse : Exec Cursor (Option (FrameHeader × ℕ))
unfolding restore
parse initial = restore initial (parse_internal initial)
