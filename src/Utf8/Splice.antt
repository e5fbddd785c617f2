-- ===== src/Utf8/Splice.antt =====
-- `decode` of src/utf8.rs, and the buffer that holds a character that was cut short.
use tungstenite_rs.Prelude.{
  ℕ, ◌+◌, ◌≤◌, ◌≡◌, refl, sym, ◌∙◌, ap, false, none, some, List, [], ◌∷◌, ◌++◌, arith, length, take,
  drop, length-append, length-take, length-drop, take-append-drop, take-length_append,
  drop-length_append, ltb,
}
use tungstenite_rs.Result.{Result, ok}
use tungstenite_rs.Utf8.{char, bad, short, front, from_utf8}
use tungstenite_rs.Utf8.Fronts.{front-char-le, front-bad-le, front-short-le}
use tungstenite_rs.Utf8.Scan.{Chars, Verdict, whole, broken, partial, from_utf8-Verdict}
use tungstenite_rs.Utf8.Decode.{
  Incomplete, Decoded, valid, invalid, incomplete, decode, new_incomplete, split_at,
}

-- The buffer holds `bytes`, which begin a character.
pub record Holds (i : Incomplete) (bytes : List ℕ) : Type 0 where
  pub is_short : front bytes ≡ short
  pub held : take i.buffer_len i.buffer ≡ bytes
  pub held_len : i.buffer_len ≡ length bytes
  pub four : length i.buffer ≡ 4

-- A character or an error that begins with bytes that were too short goes beyond them.
pub beyond_short_char :
    (bs more : List ℕ) (w : ℕ) → front bs ≡ short → front (bs ++ more) ≡ char w → length bs ≤ w
unfolding front
beyond_short_char [] more w h k = omega arith
beyond_short_char (a ∷ []) more w h k = omega (arith, front-char-le (a ∷ more) w k)
beyond_short_char (a ∷ b ∷ []) [] w h k = absurd (cc)
beyond_short_char (a ∷ b ∷ []) (c ∷ more) w h k = ground arith
beyond_short_char (a ∷ b ∷ c ∷ []) [] w h k = absurd (cc)
beyond_short_char (a ∷ b ∷ c ∷ []) (d ∷ more) w h k = ground arith
beyond_short_char (a ∷ b ∷ c ∷ d ∷ bs) more w h k =
    absurd (omega (arith, front-short-le (a ∷ b ∷ c ∷ d ∷ bs) h))

pub beyond_short_bad :
    (bs more : List ℕ) (n : ℕ) → front bs ≡ short → front (bs ++ more) ≡ bad n → length bs ≤ n
unfolding front
beyond_short_bad [] more n h k = omega arith
beyond_short_bad (a ∷ []) more n h k = omega (arith, front-bad-le (a ∷ more) n k)
beyond_short_bad (a ∷ b ∷ []) [] n h k = absurd (cc)
beyond_short_bad (a ∷ b ∷ []) (c ∷ more) n h k = ground arith
beyond_short_bad (a ∷ b ∷ c ∷ []) [] n h k = absurd (cc)
beyond_short_bad (a ∷ b ∷ c ∷ []) (d ∷ more) n h k = ground arith
beyond_short_bad (a ∷ b ∷ c ∷ d ∷ bs) more n h k =
    absurd (omega (arith, front-short-le (a ∷ b ∷ c ∷ d ∷ bs) h))

pub split_at_append : (xs ys : List ℕ) → split_at (length xs) (xs ++ ys) ≡ ok (xs, ys)
unfolding split_at
split_at_append xs ys = rw (enough, take-length_append, drop-length_append) refl
  where
    enough : ltb (length (xs ++ ys)) (length xs) ≡ false
    enough = ground (arith, length-append xs ys)

split_here :
    {bs : List ℕ} (xs ys : List ℕ) → bs ≡ xs ++ ys → split_at (0 + length xs) bs ≡ ok (xs, ys)
split_here xs ys d =
    ap (λ t. split_at (0 + length xs) t) d
    ∙ ap (λ n. split_at n (xs ++ ys)) (omega arith)
    ∙ split_at_append xs ys

pub split_at_lem : (n : ℕ) (bs : List ℕ) → n ≤ length bs → split_at n bs ≡ ok (take n bs, drop n bs)
unfolding split_at
split_at_lem n bs h = ground arith

-- The buffer of `Incomplete::new`.
abbrev pub padded : List ℕ → Incomplete
padded bytes = record {
  buffer = bytes ++ drop (length bytes) (0 ∷ 0 ∷ 0 ∷ 0 ∷ []);
  buffer_len = length bytes;
}

padded-Holds : (bytes : List ℕ) → front bytes ≡ short → Holds (padded bytes) bytes
padded-Holds bytes h = record {
  is_short = h;
  held = take-length_append bytes (drop (length bytes) (0 ∷ 0 ∷ 0 ∷ 0 ∷ []));
  held_len = refl;
  four = omega (
    arith,
    front-short-le bytes h,
    length-append bytes (drop (length bytes) zeros),
    length-drop (length bytes) zeros,
  );
}
  where
    zeros : List ℕ
    zeros = 0 ∷ 0 ∷ 0 ∷ 0 ∷ []

new_incomplete-short :
    (bytes : List ℕ) → front bytes ≡ short → new_incomplete bytes ≡ ok (padded bytes)
unfolding new_incomplete
new_incomplete-short bytes h = ground (arith, front-short-le bytes h)

-- What `decode` may return.
pub data Decodes (input : List ℕ) (r : Result Decoded) : Type 0 where
  to_valid : Chars input → r ≡ ok (valid input) → Decodes input r
  to_invalid :
      (v b rest : List ℕ)
      → input ≡ v ++ (b ++ rest)
      → Chars v
      → front (b ++ rest) ≡ bad (length b)
      → r ≡ ok (invalid v b rest)
      → Decodes input r
  to_incomplete :
      (v suffix : List ℕ) (i : Incomplete)
      → input ≡ v ++ suffix
      → Chars v
      → Holds i suffix
      → r ≡ ok (incomplete v i)
      → Decodes input r

decode-bad :
    (input v ys : List ℕ) (n : ℕ)
    → input ≡ v ++ ys
    → from_utf8 input ≡ some (record { valid_up_to = 0 + length v; error_len = some n })
    → n ≤ length ys
    → decode input ≡ ok (invalid v (take n ys) (drop n ys))
unfolding decode
decode-bad input v ys n d e h = rw (e, decode, split_here v ys d, split_at_lem n ys h) refl

decode-short :
    (input v ys : List ℕ)
    → input ≡ v ++ ys
    → from_utf8 input ≡ some (record { valid_up_to = 0 + length v; error_len = none })
    → front ys ≡ short
    → decode input ≡ ok (incomplete v (padded ys))
unfolding decode
decode-short input v ys d e b = rw (e, decode, split_here v ys d, new_incomplete-short ys b) refl

decode-none : (input : List ℕ) → from_utf8 input ≡ none → decode input ≡ ok (valid input)
unfolding decode
decode-none input e = rw (e, decode) refl

-- `decode` splits any input into whole characters in front and, where they are not all of it, either
-- an error with what follows it, or the cut beginning of a character, which is buffered; it never
-- panics.
pub decode-Decodes : (input : List ℕ) → Decodes input (decode input)
decode-Decodes input = by_verdict (from_utf8-Verdict input)
  where
    by_verdict : Verdict 0 input (from_utf8 input) → Decodes input (decode input)
    by_verdict (whole h e) = to_valid h (decode-none input e)
    by_verdict (broken v ys n d h b e) =
        let fits = front-bad-le ys n b in
        let l : length (take n ys) ≡ n = omega (arith, length-take n ys) in
        to_invalid v (take n ys) (drop n ys) (d ∙ ap (λ t. v ++ t) (sym (take-append-drop n ys))) h
          (ap front (take-append-drop n ys) ∙ b ∙ ap bad (sym l))
          (decode-bad input v ys n d e fits.2)
    by_verdict (partial v ys d h b e) =
        to_incomplete v ys (padded ys) d h (padded-Holds ys b) (decode-short input v ys d e b)
