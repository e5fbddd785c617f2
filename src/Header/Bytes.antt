-- ===== src/Header/Bytes.antt =====
-- The two bytes at the front of a header (src/protocol/frame/frame.rs) hold its fields.
use Prim.Native.Nat.{bit_and, bit_or}
use tungstenite_rs.Prelude.{
  ℕ, ◌<◌, Bool, true, false, none, some, ◌≡◌, refl, arith, ◌==◌, ==_iff, is_some, Option-cases, inl,
  inr,
}
use tungstenite_rs.Prelude.Bits.{every, every-lt}
use tungstenite_rs.Coding.{
  OpCode, data_op, control_op, Data, Control, continue, text, binary, close, ping, pong,
  opcode_to_u8, opcode_from_u8,
}
use tungstenite_rs.Types.{FrameHeader}
use tungstenite_rs.Header.{
  LengthFormat, first_byte, second_byte, is_reserved, bit_set, length_byte, for_length, for_byte,
  extra_bytes,
}

-- What the first byte says of the fields.
pub record FirstByte (h : FrameHeader) : Type 0 where
  pub opcode : opcode_from_u8 (bit_and (first_byte h) 0x0F) ≡ some h.opcode
  pub is_final : bit_set (first_byte h) 0x80 ≡ h.is_final
  pub rsv1 : bit_set (first_byte h) 0x40 ≡ h.rsv1
  pub rsv2 : bit_set (first_byte h) 0x20 ≡ h.rsv2
  pub rsv3 : bit_set (first_byte h) 0x10 ≡ h.rsv3

abbrev header_with : OpCode → Bool → Bool → Bool → Bool → FrameHeader
header_with op f a b c = record {
  is_final = f;
  rsv1 = a;
  rsv2 = b;
  rsv3 = c;
  opcode = op;
  mask = none;
}

FirstByte-fields :
    (op : OpCode) (f a b c : Bool) → is_reserved op ≡ false → FirstByte (header_with op f a b c)
unfolding first_byte opcode_to_u8 opcode_from_u8 is_reserved bit_set
FirstByte-fields (data_op continue) f a b c e = ground arith
FirstByte-fields (data_op text) f a b c e = ground arith
FirstByte-fields (data_op binary) f a b c e = ground arith
FirstByte-fields (data_op (Data.reserved i)) f a b c e = cc
FirstByte-fields (control_op close) f a b c e = ground arith
FirstByte-fields (control_op ping) f a b c e = ground arith
FirstByte-fields (control_op pong) f a b c e = ground arith
FirstByte-fields (control_op (Control.reserved i)) f a b c e = cc

pub first_byte_lem : (h : FrameHeader) → is_reserved h.opcode ≡ false → FirstByte h
unfolding first_byte
first_byte_lem h e = record {
  opcode = fields.opcode;
  is_final = fields.is_final;
  rsv1 = fields.rsv1;
  rsv2 = fields.rsv2;
  rsv3 = fields.rsv3;
}
  where
    fields : FirstByte (header_with h.opcode h.is_final h.rsv1 h.rsv2 h.rsv3)
    fields = FirstByte-fields h.opcode h.is_final h.rsv1 h.rsv2 h.rsv3 e

low_seven : (b : ℕ) → b < 128 → bit_and b 0x7F ≡ b
low_seven b h = (==_iff _ b).0 (every-lt (λ x. bit_and x 0x7F == x) 128 b h table)
  where
    table : every (λ x. bit_and x 0x7F == x) 128 ≡ true
    table = unfold every in refl

low_seven_marked : (b : ℕ) → b < 128 → bit_and (bit_or b 0x80) 0x7F ≡ b
low_seven_marked b h =
    (==_iff _ b).0 (every-lt (λ x. bit_and (bit_or x 0x80) 0x7F == x) 128 b h table)
  where
    table : every (λ x. bit_and (bit_or x 0x80) 0x7F == x) 128 ≡ true
    table = unfold every in refl

or_nothing : (b : ℕ) → b < 128 → bit_or b 0 ≡ b
or_nothing b h = (==_iff _ b).0 (every-lt (λ x. bit_or x 0 == x) 128 b h table)
  where
    table : every (λ x. bit_or x 0 == x) 128 ≡ true
    table = unfold every in refl

high_bit : (b : ℕ) → b < 128 → bit_and (bit_or b 0x80) 0x80 ≡ 0x80
high_bit b h =
    (==_iff _ 0x80).0 (every-lt (λ x. bit_and (bit_or x 0x80) 0x80 == 0x80) 128 b h table)
  where
    table : every (λ x. bit_and (bit_or x 0x80) 0x80 == 0x80) 128 ≡ true
    table = unfold every in refl

no_high_bit : (b : ℕ) → b < 128 → bit_and b 0x80 ≡ 0
no_high_bit b h = (==_iff _ 0).0 (every-lt (λ x. bit_and x 0x80 == 0) 128 b h table)
  where
    table : every (λ x. bit_and x 0x80 == 0) 128 ≡ true
    table = unfold every in refl

-- What the second byte says of the length and of the mask.
pub second_byte_lem :
    (h : FrameHeader) (lenfmt : LengthFormat)
    → length_byte lenfmt < 128
    → (bit_and (second_byte h lenfmt) 0x7F ≡ length_byte lenfmt)
      × (bit_set (second_byte h lenfmt) 0x80 ≡ is_some h.mask)
unfolding second_byte bit_set length_byte
second_byte_lem h lenfmt e = elim (Option-cases h.mask) [
  | inl no_mask ↦ rw (no_mask, or_nothing b e) (low_seven b e, rw (no_high_bit b e))
  | inr (m, masked) ↦ rw masked (low_seven_marked b e, rw (high_bit b e))
]
  where
    b : ℕ
    b = length_byte lenfmt

pub length_byte-lt : (n : ℕ) → length_byte (for_length n) < 128
unfolding length_byte for_length
length_byte-lt n = ground arith

pub for_byte-length_byte :
    (n : ℕ) → extra_bytes (for_byte (length_byte (for_length n))) ≡ extra_bytes (for_length n)
unfolding length_byte for_length for_byte extra_bytes
for_byte-length_byte n = ground (arith, low_seven n)
