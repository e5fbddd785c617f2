-- ===== src/Header/RoundTrip.antt =====
-- Formatting a header and parsing it again (src/protocol/frame/frame.rs).
use Prim.Native.Nat.{bit_and}
use tungstenite_rs.Prelude.{
  ℕ, ◌+◌, ◌%◌, ◌^◌, ◌≤◌, ◌<◌, false, Option, none, some, List, [], ◌∷◌, ◌++◌, ◌≡◌, refl, ◌∙◌, ap,
  inl, inr, ◌⊎◌, append_assoc, arith, length, ltb, is_some, take-length_append, drop-length_append,
  length-append, lt→ltb, Option-cases,
}
use tungstenite_rs.Types.{Mask, FrameHeader}
use tungstenite_rs.Result.{ok}
use tungstenite_rs.Header.{
  from_be_bytes, to_be_bytes_u16, to_be_bytes_u64, u8, u16, u64, Cursor, len, format, parse,
  parse_internal, parse_after_head, read_exact, read_head, read_length, read_mask, max_size,
  first_byte, second_byte, is_reserved, bit_set, length_byte, length_bytes, optional_mask_bytes,
  for_length, for_byte, extra_bytes, header_of,
}
use tungstenite_rs.Header.Bytes.{
  FirstByte, first_byte_lem, second_byte_lem, length_byte-lt, for_byte-length_byte,
}

abbrev at : ℕ → List ℕ → Cursor
at position rest = record { position = position; rest = rest }

read_head_lem :
    (p a b : ℕ) (rest : List ℕ)
    → read_head (at p (a ∷ b ∷ rest)) ≡ (ok (some (a, b)), at (p + 2) rest)
unfolding read_head
read_head_lem p a b rest = refl

read_mask_lem :
    (p : ℕ) (mask : Option Mask) (rest : List ℕ)
    → read_mask (is_some mask) (at p (optional_mask_bytes mask ++ rest))
      ≡ (ok (some mask), at (p + length (optional_mask_bytes mask)) rest)
unfolding read_mask optional_mask_bytes
read_mask_lem p none rest = ap (λ q. (ok (some none), at q rest)) (omega arith)
read_mask_lem p (some m) rest = refl

for_length_cases :
    (n : ℕ)
    → ((n < 126) × (for_length n ≡ u8 n))
      ⊎ (((n < 2 ^ 16) × (for_length n ≡ u16)) ⊎ (for_length n ≡ u64))
unfolding for_length
for_length_cases n = ground arith

read_exact_lem :
    (p : ℕ) (xs rest : List ℕ)
    → read_exact (length xs) (at p (xs ++ rest)) ≡ (ok xs, at (p + length xs) rest)
unfolding read_exact
read_exact_lem p xs rest = rw (enough, take-length_append, drop-length_append) refl
  where
    enough : ltb (length (xs ++ rest)) (length xs) ≡ false
    enough = ground (arith, length-append xs rest)

read_length_wide :
    (p second : ℕ) (bytes rest : List ℕ)
    → extra_bytes (for_byte (bit_and second 0x7F)) ≡ length bytes
    → 0 < length bytes
    → read_length second (at p (bytes ++ rest))
      ≡ (ok (some (from_be_bytes 0 bytes)), at (p + length bytes) rest)
unfolding read_length
read_length_wide p second bytes rest e h =
    rw (e, read_exact_lem p bytes rest, lt→ltb 0 (length bytes) h) refl

read_length_narrow :
    (p second : ℕ) (rest : List ℕ)
    → extra_bytes (for_byte (bit_and second 0x7F)) ≡ 0
    → read_length second (at p rest) ≡ (ok (some (bit_and second 0x7F)), at p rest)
unfolding read_length
read_length_narrow p second rest e = rw e refl

read_length_lem :
    (p n second : ℕ) (rest : List ℕ)
    → n < 2 ^ 64
    → bit_and second 0x7F ≡ length_byte (for_length n)
    → read_length second (at p (length_bytes (for_length n) n ++ rest))
      ≡ (ok (some n), at (p + extra_bytes (for_length n)) rest)
unfolding length_bytes extra_bytes length_byte
read_length_lem p n second rest h e = elim (for_length_cases n) [
  | inl (small, k) ↦ rw k (narrow (e ∙ ap length_byte k) (wide ∙ ap extra_bytes k))
  | inr (inl (medium, k)) ↦ rw k (
      read_length_wide p second (to_be_bytes_u16 (n % 2 ^ 16)) rest (wide ∙ ap extra_bytes k)
        (omega arith)
      ∙ ap (λ v. (ok (some v), at (p + 2) rest)) (omega arith))
  | inr (inr k) ↦ rw k (
      read_length_wide p second (to_be_bytes_u64 n) rest (wide ∙ ap extra_bytes k) (omega arith)
      ∙ ap (λ v. (ok (some v), at (p + 8) rest)) (omega arith))
]
  where
    wide : extra_bytes (for_byte (bit_and second 0x7F)) ≡ extra_bytes (for_length n)
    wide = rw e (for_byte-length_byte n)

    narrow :
        bit_and second 0x7F ≡ n
        → extra_bytes (for_byte (bit_and second 0x7F)) ≡ 0
        → read_length second (at p rest) ≡ (ok (some n), at (p + 0) rest)
    narrow v z =
        read_length_narrow p second rest z ∙ rw v (ap (λ q. (ok (some n), at q rest)) (omega arith))

-- The bytes of a header, in the order in which they are read.
abbrev tail_bytes : FrameHeader → ℕ → List ℕ → List ℕ
tail_bytes h n rest = length_bytes (for_length n) n ++ (optional_mask_bytes h.mask ++ rest)

format-append :
    (h : FrameHeader) (n : ℕ) (rest : List ℕ)
    → format h n [] ++ rest ≡ first_byte h ∷ second_byte h (for_length n) ∷ tail_bytes h n rest
unfolding format
format-append h n rest =
    rw (append_assoc (length_bytes (for_length n) n) (optional_mask_bytes h.mask) rest)

header_of-first_byte :
    (h : FrameHeader) → is_reserved h.opcode ≡ false → header_of (first_byte h) h.opcode h.mask ≡ h
unfolding header_of
header_of-first_byte h e = rw (b.is_final, b.rsv1, b.rsv2, b.rsv3) refl
  where
    b : FirstByte h
    b = first_byte_lem h e

parse_after_head_lem :
    (p n : ℕ) (h : FrameHeader) (rest : List ℕ)
    → is_reserved h.opcode ≡ false
    → n < 2 ^ 64
    → parse_after_head (first_byte h) (second_byte h (for_length n)) (at p (tail_bytes h n rest))
      ≡ (
        ok (some (h, n)),
        at (p + extra_bytes (for_length n) + length (optional_mask_bytes h.mask)) rest,
      )
unfolding parse_after_head
parse_after_head_lem p n h rest known fits =
    rw
      (
        parse_after_head,
        b.opcode,
        read_length_lem p n (second_byte h (for_length n)) (optional_mask_bytes h.mask ++ rest) fits
            s.0,
        s.1,
        read_mask_lem (p + extra_bytes (for_length n)) h.mask rest,
        known,
      )
      (rw (header_of-first_byte h known) refl)
  where
    b : FirstByte h
    b = first_byte_lem h known

    s :
        (bit_and (second_byte h (for_length n)) 0x7F ≡ length_byte (for_length n))
        × (bit_set (second_byte h (for_length n)) 0x80 ≡ is_some h.mask)
    s = second_byte_lem h (for_length n) (length_byte-lt n)

-- The length that `len` announces is the length that `format` writes.
pub length-format : (h : FrameHeader) (n : ℕ) → length (format h n []) ≡ len h n
unfolding format len length_bytes extra_bytes optional_mask_bytes
length-format h n = elim (for_length_cases n) [
  | inl (small, k) ↦
      rw k (elim (Option-cases h.mask) [
        | inl e ↦ rw e (omega arith)
        | inr (m, e) ↦ rw e (omega arith)
      ])
  | inr (inl (medium, k)) ↦
      rw k (elim (Option-cases h.mask) [
        | inl e ↦ rw e (omega arith)
        | inr (m, e) ↦ rw e (omega arith)
      ])
  | inr (inr k) ↦
      rw k (elim (Option-cases h.mask) [
        | inl e ↦ rw e (omega arith)
        | inr (m, e) ↦ rw e (omega arith)
      ])
]

-- No header is longer than `MAX_SIZE`.
pub len-le-max_size : (h : FrameHeader) (n : ℕ) → len h n ≤ max_size
unfolding len
len-le-max_size h n = ground arith

len-parts :
    (h : FrameHeader) (n : ℕ)
    → len h n ≡ 2 + extra_bytes (for_length n) + length (optional_mask_bytes h.mask)
unfolding len optional_mask_bytes
len-parts h n = ground arith

-- A formatted header, with whatever follows it, parses to the same header and payload length, and
-- the cursor stands behind the header: for an opcode that is not reserved and a 64-bit length.
pub parse-format :
    (p n : ℕ) (h : FrameHeader) (rest : List ℕ)
    → is_reserved h.opcode ≡ false
    → n < 2 ^ 64
    → parse (record { position = p; rest = format h n [] ++ rest })
      ≡ (ok (some (h, n)), record { position = p + len h n; rest = rest })
unfolding parse parse_internal
parse-format p n h rest known fits =
    rw
      (
        format-append h n rest,
        read_head_lem p (first_byte h) (second_byte h (for_length n)) (tail_bytes h n rest),
        parse_after_head_lem (p + 2) n h rest known fits,
      )
      (ap (λ q. (ok (some (h, n)), at q rest)) (omega (arith, len-parts h n)))
