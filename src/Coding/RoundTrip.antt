-- ===== src/Coding/RoundTrip.antt =====
-- The conversions of src/protocol/frame/coding.rs are inverse to one another where they should be.
use tungstenite_rs.Prelude.{ℕ, ◌≤◌, ◌<◌, ◌≡◌, refl, ◌↔◌, ◌⊎◌, true, none, some, arith}
use tungstenite_rs.Coding.{
  normal, away, protocol, unsupported, status, abnormal, invalid, policy, size, extension, error,
  restart, again, tls, CloseCode, OpCode, opcode_to_u8, opcode_from_u8, close_code_to_u16,
  close_code_from_u16, is_allowed,
}

-- Reading a byte as an opcode fails, where the source panics, exactly if the byte has more than
-- four bits.
pub opcode_from_u8-none : (byte : ℕ) → (opcode_from_u8 byte ≡ none) ↔ (16 ≤ byte)
unfolding opcode_from_u8
opcode_from_u8-none byte = ground arith

-- A byte that is read as an opcode is written as the same byte again.
pub opcode_to_u8-from_u8 :
    (byte : ℕ) (op : OpCode) → opcode_from_u8 byte ≡ some op → opcode_to_u8 op ≡ byte
unfolding opcode_from_u8 opcode_to_u8
opcode_to_u8-from_u8 byte op h = ground arith

-- Every close code that is read off the wire is written as the same number again.
pub close_code_to_u16-from_u16 : (code : ℕ) → close_code_to_u16 (close_code_from_u16 code) ≡ code
unfolding close_code_to_u16 close_code_from_u16
close_code_to_u16-from_u16 code = ground arith

-- A close code with a number of its own, or one that carries a number of its range: 1016 to 2999 are
-- reserved, 3000 to 3999 registered, 4000 to 4999 private, and what has no other name is bad.
abbrev pub IsCanonical : CloseCode → Type 0
IsCanonical (CloseCode.reserved code) = (1016 ≤ code) × (code ≤ 2999)
IsCanonical (CloseCode.iana code) = (3000 ≤ code) × (code ≤ 3999)
IsCanonical (CloseCode.library code) = (4000 ≤ code) × (code ≤ 4999)
IsCanonical (CloseCode.bad code) =
    (code < 1000) ⊎ ((code ≡ 1004) ⊎ ((code ≡ 1014) ⊎ ((5000 ≤ code) × (code < 65536))))
IsCanonical _ = Unit

-- Such a code is written as a number of 16 bits and read as itself.
pub close_code_from_u16-to_u16 :
    (code : CloseCode)
    → IsCanonical code
    → (close_code_to_u16 code < 65536) × (close_code_from_u16 (close_code_to_u16 code) ≡ code)
unfolding close_code_to_u16 close_code_from_u16
close_code_from_u16-to_u16 (CloseCode.reserved code) h = (omega arith, ground arith)
close_code_from_u16-to_u16 (CloseCode.iana code) h = (omega arith, ground arith)
close_code_from_u16-to_u16 (CloseCode.library code) h = (omega arith, ground arith)
close_code_from_u16-to_u16 (CloseCode.bad code) h = (omega arith, ground arith)
close_code_from_u16-to_u16 normal h = (omega arith, refl)
close_code_from_u16-to_u16 away h = (omega arith, refl)
close_code_from_u16-to_u16 protocol h = (omega arith, refl)
close_code_from_u16-to_u16 unsupported h = (omega arith, refl)
close_code_from_u16-to_u16 status h = (omega arith, refl)
close_code_from_u16-to_u16 abnormal h = (omega arith, refl)
close_code_from_u16-to_u16 invalid h = (omega arith, refl)
close_code_from_u16-to_u16 policy h = (omega arith, refl)
close_code_from_u16-to_u16 size h = (omega arith, refl)
close_code_from_u16-to_u16 extension h = (omega arith, refl)
close_code_from_u16-to_u16 error h = (omega arith, refl)
close_code_from_u16-to_u16 restart h = (omega arith, refl)
close_code_from_u16-to_u16 again h = (omega arith, refl)
close_code_from_u16-to_u16 tls h = (omega arith, refl)

-- The close codes that an endpoint may send: 1000 to 1003, 1007 to 1013 and 3000 to 4999.
abbrev pub MaySend : ℕ → Type 0
MaySend code =
    ((1000 ≤ code) × (code ≤ 1003))
    ⊎ (((1007 ≤ code) × (code ≤ 1013)) ⊎ ((3000 ≤ code) × (code ≤ 4999)))

-- A number from the wire is an allowed close code exactly if it lies in one of the ranges 1000 to 1003, 1007 to 1013
-- and 3000 to 4999.
pub is_allowed-iff-MaySend :
    (code : ℕ) → (is_allowed (close_code_from_u16 code) ≡ true) ↔ MaySend code
unfolding is_allowed close_code_from_u16
is_allowed-iff-MaySend code = ground arith
