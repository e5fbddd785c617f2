-- ===== src/Mask.antt =====
-- src/protocol/frame/mask.rs: masking a payload. `align_to_mut` cuts the buffer into a prefix, whole
-- words and a suffix; it promises no sizes, so the sizes are arguments.
pub mod Words
pub mod Fast
use Prim.Native.Nat.{bit_xor}
use tungstenite_rs.Prelude.{
  ℕ, zero, suc, ◌+◌, ◌-◌, ◌*◌, ◌/◌, ◌%◌, ◌^◌, Bool, true, false, List, [], ◌∷◌, ◌++◌, length, take,
  drop, ltb, if◌then◌else◌,
}
use tungstenite_rs.Types.{Mask}

-- mask[i], for i < 4
unfoldable pub mask_byte : Mask → ℕ → ℕ
mask_byte m zero = m.m0
mask_byte m (suc zero) = m.m1
mask_byte m (suc (suc zero)) = m.m2
mask_byte m (suc (suc (suc i))) = m.m3

-- The loop at index `i`; `i & 3` is the remainder by 4.
unfoldable pub mask_from : ℕ → List ℕ → Mask → List ℕ
unfolding mask_byte
mask_from i [] mask = []
mask_from i (byte ∷ buf) mask = bit_xor byte (mask_byte mask (i % 4)) ∷ mask_from (i + 1) buf mask

-- A safe unoptimized mask application.
unfoldable pub apply_mask_fallback : List ℕ → Mask → List ℕ
unfolding mask_from
apply_mask_fallback buf mask = mask_from 0 buf mask

pub data Endian : Type 0 where
  little big : Endian

-- u32::from_ne_bytes
unfoldable pub from_ne_bytes : Endian → Mask → ℕ
from_ne_bytes little m = m.m0 + 2 ^ 8 * (m.m1 + 2 ^ 8 * (m.m2 + 2 ^ 8 * m.m3))
from_ne_bytes big m = m.m3 + 2 ^ 8 * (m.m2 + 2 ^ 8 * (m.m1 + 2 ^ 8 * m.m0))

-- u32::to_ne_bytes
unfoldable pub to_ne_bytes : Endian → ℕ → Mask
to_ne_bytes little n = record {
  m0 = n % 2 ^ 8;
  m1 = n / 2 ^ 8 % 2 ^ 8;
  m2 = n / 2 ^ 16 % 2 ^ 8;
  m3 = n / 2 ^ 24 % 2 ^ 8;
}
to_ne_bytes big n = record {
  m0 = n / 2 ^ 24 % 2 ^ 8;
  m1 = n / 2 ^ 16 % 2 ^ 8;
  m2 = n / 2 ^ 8 % 2 ^ 8;
  m3 = n % 2 ^ 8;
}

-- u32::rotate_right and u32::rotate_left by `k` < 32 bits
unfoldable pub rotate_right : ℕ → ℕ → ℕ
rotate_right n k = n / 2 ^ k + n % 2 ^ k * 2 ^ (32 - k)

unfoldable pub rotate_left : ℕ → ℕ → ℕ
rotate_left n k = n * 2 ^ k % 2 ^ 32 + n / 2 ^ (32 - k)

-- The mask as a word, turned by the length of the prefix.
unfoldable pub rotated_mask : Endian → ℕ → ℕ → ℕ
unfolding rotate_left rotate_right
rotated_mask big head mask_u32 = if ltb 0 head then rotate_left mask_u32 (8 * head) else mask_u32
rotated_mask little head mask_u32 =
    if ltb 0 head then rotate_right mask_u32 (8 * head) else mask_u32

-- `*word ^= mask_u32` for a word in memory
unfoldable pub mask_word : Endian → ℕ → Mask → Mask
unfolding to_ne_bytes from_ne_bytes
mask_word e mask_u32 word = to_ne_bytes e (bit_xor (from_ne_bytes e word) mask_u32)

-- The words in the middle, `n` of them.
unfoldable pub mask_words : Endian → ℕ → ℕ → List ℕ → List ℕ
unfolding mask_word
mask_words e mask_u32 (suc n) (a ∷ b ∷ c ∷ d ∷ rest) =
    let w = mask_word e mask_u32 (record { m0 = a; m1 = b; m2 = c; m3 = d }) in
    w.m0 ∷ w.m1 ∷ w.m2 ∷ w.m3 ∷ mask_words e mask_u32 n rest
mask_words e mask_u32 _ buf = buf

-- Faster version of `apply_mask()` which operates on 4-byte blocks.
unfoldable pub apply_mask_fast32 : Endian → ℕ → ℕ → List ℕ → Mask → List ℕ
unfolding apply_mask_fallback mask_words rotated_mask from_ne_bytes to_ne_bytes
apply_mask_fast32 e prefix_len words_len buf mask =
    let prefix = take prefix_len buf in
    let words = take (4 * words_len) (drop prefix_len buf) in
    let suffix = drop (4 * words_len) (drop prefix_len buf) in
    let mask_u32 = rotated_mask e (length prefix % 4) (from_ne_bytes e mask) in
    apply_mask_fallback prefix mask
    ++ (mask_words e mask_u32 words_len words
        ++ apply_mask_fallback suffix (to_ne_bytes e mask_u32))
