-- ===== src/Mask/Words.antt =====
-- Four bytes as a machine word (src/protocol/frame/mask.rs), in either byte order.
use Prim.Native.Nat.{bit_xor}
use tungstenite_rs.Prelude.{ℕ, zero, suc, ◌+◌, ◌*◌, ◌^◌, ◌<◌, ◌≡◌, refl, ◌∙◌, ap, arith}
use tungstenite_rs.Prelude.Bits.{bit_xor-split, bit_xor-lt}
use tungstenite_rs.Types.{Mask}
use tungstenite_rs.Mask.{Endian, little, big, from_ne_bytes, to_ne_bytes, rotated_mask, mask_word}

pub record IsByteMask (m : Mask) : Type 0 where
  pub b0 : m.m0 < 256
  pub b1 : m.m1 < 256
  pub b2 : m.m2 < 256
  pub b3 : m.m3 < 256

-- The mask that begins `k` places later.
unfoldable pub turned : ℕ → Mask → Mask
turned zero m = m
turned (suc k) m = turned k (record { m0 = m.m1; m1 = m.m2; m2 = m.m3; m3 = m.m0 })

pub turned-IsByteMask : (k : ℕ) {m : Mask} → IsByteMask m → IsByteMask (turned k m)
unfolding turned
turned-IsByteMask zero h = h
turned-IsByteMask (suc k) h =
    turned-IsByteMask k (record { b0 = h.b1; b1 = h.b2; b2 = h.b3; b3 = h.b0 })

pub to_ne_bytes-from_ne_bytes :
    (e : Endian) {m : Mask} → IsByteMask m → to_ne_bytes e (from_ne_bytes e m) ≡ m
unfolding to_ne_bytes from_ne_bytes
to_ne_bytes-from_ne_bytes little h = ground arith
to_ne_bytes-from_ne_bytes big h = ground arith

-- Turning the word by the length of the prefix is turning the mask, in either byte order.
pub rotated_mask_lem :
    (e : Endian) (k : ℕ) {m : Mask}
    → IsByteMask m
    → k < 4
    → rotated_mask e k (from_ne_bytes e m) ≡ from_ne_bytes e (turned k m)
unfolding rotated_mask from_ne_bytes turned
rotated_mask_lem little zero h k = refl
rotated_mask_lem little (suc zero) h k = omega arith
rotated_mask_lem little (suc (suc zero)) h k = omega arith
rotated_mask_lem little (suc (suc (suc zero))) h k = omega arith
rotated_mask_lem little (suc (suc (suc (suc n)))) h k = absurd (omega arith)
rotated_mask_lem big zero h k = refl
rotated_mask_lem big (suc zero) h k = omega arith
rotated_mask_lem big (suc (suc zero)) h k = omega arith
rotated_mask_lem big (suc (suc (suc zero))) h k = omega arith
rotated_mask_lem big (suc (suc (suc (suc n)))) h k = absurd (omega arith)

abbrev pub xor_mask : Mask → Mask → Mask
xor_mask w m = record {
  m0 = bit_xor w.m0 m.m0;
  m1 = bit_xor w.m1 m.m1;
  m2 = bit_xor w.m2 m.m2;
  m3 = bit_xor w.m3 m.m3;
}

xor_four :
    (a b c d p q r s : ℕ)
    → a < 256
    → b < 256
    → c < 256
    → p < 256
    → q < 256
    → r < 256
    → bit_xor
        (a + 2 ^ 8 * (b + 2 ^ 8 * (c + 2 ^ 8 * d)))
        (p + 2 ^ 8 * (q + 2 ^ 8 * (r + 2 ^ 8 * s)))
      ≡ bit_xor a p + 2 ^ 8 * (bit_xor b q + 2 ^ 8 * (bit_xor c r + 2 ^ 8 * bit_xor d s))
xor_four a b c d p q r s ha hb hc hp hq hr =
    rw
      (
        bit_xor-split 8 a (b + 2 ^ 8 * (c + 2 ^ 8 * d)) p (q + 2 ^ 8 * (r + 2 ^ 8 * s)) ha hp,
        bit_xor-split 8 b (c + 2 ^ 8 * d) q (r + 2 ^ 8 * s) hb hq,
        bit_xor-split 8 c d r s hc hr,
      )
      refl

pub xor_mask-IsByteMask : {w m : Mask} → IsByteMask w → IsByteMask m → IsByteMask (xor_mask w m)
xor_mask-IsByteMask h k = record {
  b0 = bit_xor-lt 8 _ _ h.b0 k.b0;
  b1 = bit_xor-lt 8 _ _ h.b1 k.b1;
  b2 = bit_xor-lt 8 _ _ h.b2 k.b2;
  b3 = bit_xor-lt 8 _ _ h.b3 k.b3;
}

xor_words :
    (e : Endian) {w m : Mask}
    → IsByteMask w
    → IsByteMask m
    → bit_xor (from_ne_bytes e w) (from_ne_bytes e m) ≡ from_ne_bytes e (xor_mask w m)
unfolding from_ne_bytes
xor_words little h k = xor_four _ _ _ _ _ _ _ _ h.b0 h.b1 h.b2 k.b0 k.b1 k.b2
xor_words big h k = xor_four _ _ _ _ _ _ _ _ h.b3 h.b2 h.b1 k.b3 k.b2 k.b1

-- One word is masked byte by byte.
pub mask_word_lem :
    (e : Endian) {w m : Mask}
    → IsByteMask w
    → IsByteMask m
    → mask_word e (from_ne_bytes e m) w ≡ xor_mask w m
mask_word_lem e {w} {m} h k =
    unfold_word
    ∙ ap (to_ne_bytes e) (xor_words e h k)
    ∙ to_ne_bytes-from_ne_bytes e (xor_mask-IsByteMask h k)
  where
    unfold_word :
        mask_word e (from_ne_bytes e m) w
        ≡ to_ne_bytes e (bit_xor (from_ne_bytes e w) (from_ne_bytes e m))
    unfold_word = unfold mask_word in refl
