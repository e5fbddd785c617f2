-- ===== src/Utf8/Complete.antt =====
-- Completing a character that was cut short (src/utf8.rs): buffered bytes and new input together.
use tungstenite_rs.Prelude.{
  ℕ, zero, suc, ◌+◌, ◌-◌, ◌≤◌, ◌<◌, ◌≡◌, refl, sym, ◌∙◌, ap, subst, ◌⊎◌, inl, inr, Bool, true,
  false, Option, none, some, List, ◌++◌, append_assoc, arith, length, take, drop, min,
  length-append, length-take, take-of_length_le, length-zero, drop-append_ge, take-append_le,
  length-drop, take-append-drop, take-length_append,
}
use tungstenite_rs.Result.{Result, ok}
use tungstenite_rs.Utf8.{Utf8Error, char, bad, short, front, from_utf8}
use tungstenite_rs.Utf8.Fronts.{front-append_char, front-append_bad, front-bad-le, front-short-le}
use tungstenite_rs.Utf8.Scan.{
  Chars, nothing, one_more, Verdict, whole, broken, partial, from_utf8-Verdict,
}
use tungstenite_rs.Utf8.Splice.{Holds, beyond_short_char, beyond_short_bad, split_at_lem}
use tungstenite_rs.Utf8.Decode.{
  Incomplete, Completed, try_complete, try_complete_offsets, store_offsets, offsets_of,
}

-- The buffer has been given out.
pub record IsEmptied (i : Incomplete) : Type 0 where
  pub no_bytes : i.buffer_len ≡ 0
  pub four : length i.buffer ≡ 4

-- What `try_complete` may return and leave, from buffered bytes and new input: it has taken in all
-- the input and still only begins a character, or it gives out all the buffered bytes with some of
-- the input, as whole characters or as the bytes of an error, and the rest of the input.
pub data Completes (bytes input : List ℕ) (r : Result (Option Completed) × Incomplete)
    : Type 0 where
  to_more : (i : Incomplete) → Holds i (bytes ++ input) → r ≡ (ok none, i) → Completes bytes input r
  to_text :
      (i : Incomplete) (text rest : List ℕ)
      → bytes ++ input ≡ text ++ rest
      → length bytes ≤ length text
      → Chars text
      → IsEmptied i
      → r ≡ (ok (some (record { is_valid = true; result_bytes = text; remaining_input = rest })), i)
      → Completes bytes input r
  to_error :
      (i : Incomplete) (n : ℕ) (b rest : List ℕ)
      → bytes ++ input ≡ b ++ rest
      → length bytes ≤ length b
      → length b ≡ n
      → front (bytes ++ input) ≡ bad n
      → IsEmptied i
      → r ≡ (ok (some (record { is_valid = false; result_bytes = b; remaining_input = rest })), i)
      → Completes bytes input r

offsets_text :
    (init used : ℕ) (bs : List ℕ) (v n : ℕ) (e : Option ℕ)
    → v ≡ n
    → 0 < n
    → init ≤ n
    → offsets_of init used bs (some (record { valid_up_to = v; error_len = e }))
      ≡ ok (n, (n - init, some true))
unfolding offsets_of
offsets_text init used bs v n e z pos low = ground arith

offsets_error :
    (init used : ℕ) (bs : List ℕ) (v n : ℕ)
    → v ≡ 0
    → init ≤ n
    → offsets_of init used bs (some (record { valid_up_to = v; error_len = some n }))
      ≡ ok (n, (n - init, some false))
unfolding offsets_of
offsets_error init used bs v n z low = ground arith

offsets_short :
    (init used : ℕ) (bs : List ℕ) (v : ℕ)
    → v ≡ 0
    → offsets_of init used bs (some (record { valid_up_to = v; error_len = none }))
      ≡ ok (length bs, (used, none))
unfolding offsets_of
offsets_short init used bs v z = ground arith

zero_or_pos : (n : ℕ) → (n ≡ 0) ⊎ (0 < n)
zero_or_pos zero = inl refl
zero_or_pos (suc n) = inr (omega arith)

module _ (i : Incomplete) (bytes input : List ℕ) (h : Holds i bytes) where
  abbrev copied : ℕ
  copied = min (length i.buffer - i.buffer_len) (length input)

  abbrev spliced_buffer : List ℕ
  spliced_buffer =
      take i.buffer_len i.buffer ++ (take copied input ++ drop (i.buffer_len + copied) i.buffer)

  abbrev spliced : List ℕ
  spliced = bytes ++ take copied input

  bytes_len : (1 ≤ length bytes) × (length bytes ≤ 3)
  bytes_len = front-short-le bytes h.is_short

  length-spliced : length spliced ≡ i.buffer_len + copied
  length-spliced =
      omega (arith, length-append bytes (take copied input), length-take copied input, h.held_len)

  spliced_lem : take (i.buffer_len + copied) spliced_buffer ≡ spliced
  spliced_lem =
      ap
        (λ t.
          take (i.buffer_len + copied)
            (t ++ (take copied input ++ drop (i.buffer_len + copied) i.buffer)))
        h.held
      ∙ ap (take (i.buffer_len + copied))
          (sym (append_assoc bytes (take copied input) (drop (i.buffer_len + copied) i.buffer)))
      ∙ ap (λ n. take n (spliced ++ drop (i.buffer_len + copied) i.buffer)) (sym length-spliced)
      ∙ take-length_append spliced (drop (i.buffer_len + copied) i.buffer)

  length-spliced_buffer : length spliced_buffer ≡ 4
  length-spliced_buffer = omega (
    arith,
    h.four,
    h.held_len,
    bytes_len,
    length-append (take i.buffer_len i.buffer)
        (take copied input ++ drop (i.buffer_len + copied) i.buffer),
    length-append (take copied input) (drop (i.buffer_len + copied) i.buffer),
    length-take i.buffer_len i.buffer,
    length-take copied input,
    length-drop (i.buffer_len + copied) i.buffer,
  )

  abbrev stored : ℕ → Incomplete
  stored n = record { buffer = spliced_buffer; buffer_len = n }

  emptied : IsEmptied (stored 0)
  emptied = record { no_bytes = refl; four = length-spliced_buffer }

  -- The verdict on the spliced bytes decides.
  offsets_lem :
      (r : Option Utf8Error)
      → from_utf8 spliced ≡ r
      → try_complete_offsets input i
        ≡ store_offsets spliced_buffer i (offsets_of i.buffer_len copied spliced r)
  unfolding try_complete_offsets
  offsets_lem r e = rw (spliced_lem, e) refl

  -- The buffer is given out up to a length within the spliced bytes.
  stored_bytes : (n : ℕ) → n ≤ length spliced → take n spliced_buffer ≡ take n spliced
  stored_bytes n l =
      ap (λ t. take n (t ++ (take copied input ++ drop (i.buffer_len + copied) i.buffer))) h.held
      ∙ ap (take n)
          (sym (append_assoc bytes (take copied input) (drop (i.buffer_len + copied) i.buffer)))
      ∙ take-append_le n spliced (drop (i.buffer_len + copied) i.buffer) l

  completed_lem :
      (n used : ℕ) (b : Bool)
      → try_complete_offsets input i ≡ (ok (used, some b), stored n)
      → used ≤ length input
      → try_complete input i ≡ (
        ok (
            some (record {
              is_valid = b;
              result_bytes = take n spliced_buffer;
              remaining_input = drop used input;
            })),
        stored 0,
      )
  unfolding try_complete
  completed_lem n used b e l = rw (e, split_at_lem used input l) refl

  input_lem : bytes ++ input ≡ spliced ++ drop copied input
  input_lem =
      ap (λ t. bytes ++ t) (sym (take-append-drop copied input))
      ∙ sym (append_assoc bytes (take copied input) (drop copied input))

  input_split :
      (n : ℕ)
      → i.buffer_len ≤ n
      → n ≤ length spliced
      → bytes ++ input ≡ take n spliced ++ drop (n - i.buffer_len) input
  input_split n low high =
      sym (take-append-drop n (bytes ++ input))
      ∙ ap (λ t. t ++ drop n (bytes ++ input))
          (ap (take n) input_lem ∙ take-append_le n spliced (drop copied input) high)
      ∙ ap (λ t. take n spliced ++ t)
          (drop-append_ge n bytes input (omega (arith, h.held_len))
            ∙ ap (λ k. drop (n - k) input) (sym h.held_len))

  -- Whole characters at the front use up the buffered bytes.
  beyond_bytes :
      (xs ys : List ℕ) → Chars xs → 0 < length xs → spliced ≡ xs ++ ys → length bytes ≤ length xs
  beyond_bytes xs ys nothing pos d = absurd (omega arith)
  beyond_bytes xs ys (one_more c rest e k q) pos d =
      let at_front : front spliced ≡ char (length c) =
        ap front (d ∙ ap (λ t. t ++ ys) q ∙ append_assoc c rest ys)
        ∙ front-append_char c (rest ++ ys) (length c) e in
      omega (
        arith,
        beyond_short_char bytes (take copied input) (length c) h.is_short at_front,
        ap length q,
        length-append c rest,
      )

  text_lem :
      (n : ℕ)
      → i.buffer_len ≤ n
      → n ≤ length spliced
      → Chars (take n spliced)
      → try_complete_offsets input i ≡ (ok (n - i.buffer_len, some true), stored n)
      → Completes bytes input (try_complete input i)
  text_lem n low high k e =
      to_text (stored 0) (take n spliced) (drop (n - i.buffer_len) input) (input_split n low high)
        (omega (arith, length-take n spliced, h.held_len)) k emptied
        (completed_lem n (n - i.buffer_len) true e (omega (arith, length-spliced))
          ∙ ap
              (λ t. (
                ok (
                    some (record {
                      is_valid = true;
                      result_bytes = t;
                      remaining_input = drop (n - i.buffer_len) input;
                    })),
                stored 0,
              ))
              (stored_bytes n high))

  -- An error behind `xs`, which are whole characters of the spliced bytes.
  text_before :
      (xs ys : List ℕ) (e : Option ℕ)
      → spliced ≡ xs ++ ys
      → Chars xs
      → 0 < length xs
      → from_utf8 spliced ≡ some (record { valid_up_to = 0 + length xs; error_len = e })
      → Completes bytes input (try_complete input i)
  text_before xs ys e d k pos q =
      let used = beyond_bytes xs ys k pos d in
      let low : i.buffer_len ≤ length xs = omega (arith, h.held_len) in
      let high : length xs ≤ length spliced = omega (arith, ap length d, length-append xs ys) in
      text_lem (length xs) low high
        (subst Chars (sym (ap (take (length xs)) d ∙ take-length_append xs ys)) k)
        (offsets_lem _ q
          ∙ ap (store_offsets spliced_buffer i) (
              offsets_text i.buffer_len copied spliced (0 + length xs) (length xs) e (omega arith)
                pos low)
          ∙ (unfold store_offsets in refl))

  whole_text :
      Chars spliced → from_utf8 spliced ≡ none → Completes bytes input (try_complete input i)
  whole_text k q =
      text_lem (length spliced) (omega (arith, length-spliced)) (omega arith)
        (subst Chars (sym (take-of_length_le (length spliced) spliced (omega arith))) k)
        (offsets_lem none q
          ∙ (unfold store_offsets offsets_of in
              ap (λ t. (ok (t, some true), stored (length spliced)))
                (omega (arith, length-spliced))))

  error_at_front :
      (n v : ℕ)
      → front spliced ≡ bad n
      → v ≡ 0
      → from_utf8 spliced ≡ some (record { valid_up_to = v; error_len = some n })
      → Completes bytes input (try_complete input i)
  error_at_front n v b z q =
      let low : i.buffer_len ≤ n =
        omega (arith, h.held_len, beyond_short_bad bytes (take copied input) n h.is_short b) in
      let high : n ≤ length spliced = omega (arith, front-bad-le spliced n b) in
      let given : take n spliced_buffer ≡ take n spliced = stored_bytes n high in
      let size : length (take n spliced_buffer) ≡ n =
        omega (arith, ap length given, length-take n spliced) in
      to_error (stored 0) n (take n spliced_buffer) (drop (n - i.buffer_len) input)
        (input_split n low high ∙ ap (λ t. t ++ drop (n - i.buffer_len) input) (sym given))
        (omega (arith, size, h.held_len)) size
        (ap front input_lem ∙ front-append_bad spliced (drop copied input) n b) emptied
        (completed_lem n (n - i.buffer_len) false
          (offsets_lem _ q
            ∙ ap (store_offsets spliced_buffer i)
                (offsets_error i.buffer_len copied spliced v n z low)
            ∙ (unfold store_offsets in refl))
          (omega (arith, front-bad-le spliced n b, length-spliced)))

  still_short :
      (v : ℕ)
      → front spliced ≡ short
      → v ≡ 0
      → from_utf8 spliced ≡ some (record { valid_up_to = v; error_len = none })
      → Completes bytes input (try_complete input i)
  still_short v b z q =
      let room : length input ≤ copied =
        omega (arith, front-short-le spliced b, length-spliced, h.four) in
      let all : spliced ≡ bytes ++ input =
        ap (λ t. bytes ++ t) (take-of_length_le copied input room) in
      to_more (stored (length spliced))
        (record {
          is_short = ap front (sym all) ∙ b;
          held =
              stored_bytes (length spliced) (omega arith)
              ∙ take-of_length_le (length spliced) spliced (omega arith)
              ∙ all;
          held_len = ap length all;
          four = length-spliced_buffer;
        })
        (more_lem (
          offsets_lem _ q
          ∙ ap (store_offsets spliced_buffer i) (offsets_short i.buffer_len copied spliced v z)
          ∙ (unfold store_offsets in refl)))
    where
      more_lem :
          try_complete_offsets input i ≡ (ok (copied, none), stored (length spliced))
          → try_complete input i ≡ (ok none, stored (length spliced))
      more_lem e = unfold try_complete in rw e refl

  Completes-Verdict :
      Verdict 0 spliced (from_utf8 spliced) → Completes bytes input (try_complete input i)
  Completes-Verdict (whole k q) = whole_text k q
  Completes-Verdict (broken xs ys n d k b q) = elim (zero_or_pos (length xs)) [
    | inl z ↦
        error_at_front n (0 + length xs) (ap front (d ∙ ap (λ t. t ++ ys) (length-zero xs z)) ∙ b)
          (omega (arith, z)) q
    | inr pos ↦ text_before xs ys (some n) d k pos q
  ]
  Completes-Verdict (partial xs ys d k b q) = elim (zero_or_pos (length xs)) [
    | inl z ↦
        still_short (0 + length xs) (ap front (d ∙ ap (λ t. t ++ ys) (length-zero xs z)) ∙ b)
          (omega (arith, z)) q
    | inr pos ↦ text_before xs ys none d k pos q
  ]

  -- With the beginning of a character in the buffer, `try_complete` never panics. It keeps all bytes
  -- as long as they still only begin a character, or else empties the buffer: it gives out whole
  -- characters, or exactly the bytes of an error that stands at the front, in either case all the
  -- buffered bytes with a part in front of the input, and the rest of the input with them.
  pub try_complete-Completes : Completes bytes input (try_complete input i)
  try_complete-Completes = Completes-Verdict (from_utf8-Verdict spliced)
