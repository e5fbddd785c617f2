-- ===== src/Mask/Fast.antt =====
-- The two ways to mask a payload agree (src/protocol/frame/mask.rs), and masking is its own inverse.
use tungstenite_rs.Prelude.{
  ℕ, zero, suc, ◌+◌, ◌*◌, ◌%◌, ◌≤◌, ◌<◌, List, [], ◌∷◌, ◌++◌, ◌≡◌, refl, ◌∙◌, ap, arith, length,
  take, drop, length-take, length-drop, take-append-drop,
}
use tungstenite_rs.Prelude.Bits.{bit_xor_undo}
use tungstenite_rs.Types.{Mask}
use tungstenite_rs.Mask.{
  Endian, from_ne_bytes, rotated_mask, mask_byte, mask_from, mask_words, apply_mask_fallback,
  apply_mask_fast32,
}
use tungstenite_rs.Mask.Words.{
  IsByteMask, turned, turned-IsByteMask, to_ne_bytes-from_ne_bytes, rotated_mask_lem, mask_word_lem,
}

abbrev pub AllBytes : List ℕ → Type 0
AllBytes [] = Unit
AllBytes (b ∷ bs) = (b < 256) × AllBytes bs

-- Masking keeps the length.
pub length-mask_from : (i : ℕ) (buf : List ℕ) (m : Mask) → length (mask_from i buf m) ≡ length buf
unfolding mask_from
length-mask_from i [] m = refl
length-mask_from i (b ∷ buf) m = ap suc (length-mask_from (i + 1) buf m)

mask_from_undo : (i : ℕ) (buf : List ℕ) (m : Mask) → mask_from i (mask_from i buf m) m ≡ buf
unfolding mask_from
mask_from_undo i [] m = refl
mask_from_undo i (b ∷ buf) m = rw (bit_xor_undo, mask_from_undo (i + 1) buf m) refl

-- Masking a payload twice with the same mask gives it back.
pub apply_mask_fallback_undo :
    (buf : List ℕ) (m : Mask) → apply_mask_fallback (apply_mask_fallback buf m) m ≡ buf
unfolding apply_mask_fallback
apply_mask_fallback_undo buf m = mask_from_undo 0 buf m

pub length-apply_mask_fallback :
    (buf : List ℕ) (m : Mask) → length (apply_mask_fallback buf m) ≡ length buf
unfolding apply_mask_fallback
length-apply_mask_fallback buf m = length-mask_from 0 buf m

mask_from-append :
    (i : ℕ) (xs ys : List ℕ) (m : Mask)
    → mask_from i (xs ++ ys) m ≡ mask_from i xs m ++ mask_from (i + length xs) ys m
unfolding mask_from
mask_from-append i [] ys m = ap (λ k. mask_from k ys m) (omega arith)
mask_from-append i (x ∷ xs) ys m =
    let e : i + 1 + length xs ≡ i + suc (length xs) = omega arith in
    rw (mask_from-append (i + 1) xs ys m, e) refl

-- Only the index modulo 4 matters.
mask_from-mod :
    (i j : ℕ) (buf : List ℕ) (m : Mask) → i % 4 ≡ j % 4 → mask_from i buf m ≡ mask_from j buf m
unfolding mask_from
mask_from-mod i j [] m e = refl
mask_from-mod i j (b ∷ buf) m e = rw (e, mask_from-mod (i + 1) (j + 1) buf m (omega arith)) refl

mask_byte-turned_once :
    (i : ℕ) (m : Mask)
    → i < 4
    → mask_byte (record { m0 = m.m1; m1 = m.m2; m2 = m.m3; m3 = m.m0 }) i
      ≡ mask_byte m ((i + 1) % 4)
unfolding mask_byte
mask_byte-turned_once zero m h = refl
mask_byte-turned_once (suc zero) m h = refl
mask_byte-turned_once (suc (suc zero)) m h = refl
mask_byte-turned_once (suc (suc (suc zero))) m h = refl
mask_byte-turned_once (suc (suc (suc (suc i)))) m h = absurd (omega arith)

mask_from-turned_once :
    (i : ℕ) (buf : List ℕ) (m : Mask)
    → mask_from i buf (record { m0 = m.m1; m1 = m.m2; m2 = m.m3; m3 = m.m0 })
      ≡ mask_from (i + 1) buf m
unfolding mask_from
mask_from-turned_once i [] m = refl
mask_from-turned_once i (b ∷ buf) m =
    let e : (i % 4 + 1) % 4 ≡ (i + 1) % 4 = omega arith in
    rw (mask_byte-turned_once (i % 4) m (omega arith), e, mask_from-turned_once (i + 1) buf m) refl

mask_from-turned :
    (k i : ℕ) (buf : List ℕ) (m : Mask) → mask_from i buf (turned k m) ≡ mask_from (i + k) buf m
unfolding turned
mask_from-turned zero i buf m = ap (λ j. mask_from j buf m) (omega arith)
mask_from-turned (suc k) i buf m =
    let e : i + k + 1 ≡ i + suc k = omega arith in
    mask_from-turned k i buf _ ∙ rw (mask_from-turned_once (i + k) buf m, e) refl

-- The words in the middle are masked byte by byte.
mask_words_lem :
    (e : Endian) (n : ℕ) (buf : List ℕ) {m : Mask}
    → IsByteMask m
    → AllBytes buf
    → length buf ≡ 4 * n
    → mask_words e (from_ne_bytes e m) n buf ≡ mask_from 0 buf m
unfolding mask_words mask_from mask_byte
mask_words_lem e zero [] k h l = refl
mask_words_lem e zero (a ∷ buf) k h l = absurd (omega arith)
mask_words_lem e (suc n) (a ∷ b ∷ c ∷ d ∷ buf) {m} k h l =
    rw
      (
        mask_word_lem e (record { b0 = h.0; b1 = h.1.0; b2 = h.1.1.0; b3 = h.1.1.1.0 }) k,
        mask_words_lem e n buf k h.1.1.1.1 (omega arith),
        mask_from-mod 0 4 buf m refl,
      )
      refl
mask_words_lem e (suc n) [] k h l = absurd (omega arith)
mask_words_lem e (suc n) (a ∷ []) k h l = absurd (omega arith)
mask_words_lem e (suc n) (a ∷ b ∷ []) k h l = absurd (omega arith)
mask_words_lem e (suc n) (a ∷ b ∷ c ∷ []) k h l = absurd (omega arith)

AllBytes-take : (n : ℕ) (bs : List ℕ) → AllBytes bs → AllBytes (take n bs)
AllBytes-take zero bs h = tt
AllBytes-take (suc n) [] h = tt
AllBytes-take (suc n) (b ∷ bs) h = (h.0, AllBytes-take n bs h.1)

AllBytes-drop : (n : ℕ) (bs : List ℕ) → AllBytes bs → AllBytes (drop n bs)
AllBytes-drop zero bs h = h
AllBytes-drop (suc n) [] h = tt
AllBytes-drop (suc n) (b ∷ bs) h = AllBytes-drop n bs h.1

-- A mask that begins `k` places later, at index `i`, is the mask at any index congruent to `i + k`.
mask_from-turned_mod :
    (k i j : ℕ) (buf : List ℕ) (m : Mask)
    → (i + k) % 4 ≡ j % 4
    → mask_from i buf (turned k m) ≡ mask_from j buf m
mask_from-turned_mod k i j buf m e = mask_from-turned k i buf m ∙ mask_from-mod (i + k) j buf m e

-- The 32-bit version masks as the byte loop does, in either byte order and wherever the buffer is
-- cut: for a prefix of `p` bytes and `n` words within a buffer of bytes, and a mask of bytes.
pub apply_mask_fast32-eq-fallback :
    (e : Endian) (p n : ℕ) (buf : List ℕ) {m : Mask}
    → IsByteMask m
    → AllBytes buf
    → p + 4 * n ≤ length buf
    → apply_mask_fast32 e p n buf m ≡ apply_mask_fallback buf m
unfolding apply_mask_fast32 apply_mask_fallback
apply_mask_fast32-eq-fallback e p n buf {m} k h fits =
    let prefix = take p buf in
    let middle = take (4 * n) (drop p buf) in
    let suffix = drop (4 * n) (drop p buf) in
    let head = length prefix % 4 in
    let word : rotated_mask e head (from_ne_bytes e m) ≡ from_ne_bytes e (turned head m) =
      rotated_mask_lem e head k (omega arith) in
    let lp : length prefix ≡ p = omega (arith, length-take p buf) in
    let lm : length middle ≡ 4 * n =
      omega (arith, length-take (4 * n) (drop p buf), length-drop p buf) in
    rw
      (
        word,
        to_ne_bytes-from_ne_bytes e (turned-IsByteMask head k),
        mask_words_lem e n middle (turned-IsByteMask head k)
            (AllBytes-take (4 * n) (drop p buf) (AllBytes-drop p buf h)) lm,
        mask_from-turned_mod head 0 (0 + length prefix) middle m (omega arith),
        mask_from-turned_mod head 0 (0 + length prefix + length middle) suffix m
            (omega (arith, lm)),
        ← mask_from-append (0 + length prefix) middle suffix m,
        take-append-drop (4 * n) (drop p buf),
        ← mask_from-append 0 prefix (drop p buf) m,
        take-append-drop p buf,
      )
      refl
