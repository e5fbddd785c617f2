-- ===== src/Utf8/Decode.antt =====
-- src/utf8.rs: decoding a text that arrives in pieces. A slice out of range and a failed
-- `checked_sub` panic.
use tungstenite_rs.Prelude.{
  ℕ, ◌+◌, ◌-◌, Bool, true, false, Option, none, some, List, [], ◌∷◌, ◌++◌, length, take, drop, min,
  ltb, if◌then◌else◌,
}
use tungstenite_rs.Result.{Result, ok, err, panic, Exec, pure, lift, ◌>>=◌}
use tungstenite_rs.Utf8.{Utf8Error, from_utf8}

-- The bytes of a character that has not ended: the first `buffer_len` of four.
pub record Incomplete : Type 0 where
  pub buffer : List ℕ
  pub buffer_len : ℕ

pub data Decoded : Type 0 where
  valid : List ℕ → Decoded
  invalid : List ℕ → List ℕ → List ℕ → Decoded
  incomplete : List ℕ → Incomplete → Decoded

-- The text, or the bytes in error; and the input that is left.
pub record Completed : Type 0 where
  pub is_valid : Bool
  pub result_bytes : List ℕ
  pub remaining_input : List ℕ

unfoldable pub split_at : ℕ → List ℕ → Result (List ℕ × List ℕ)
split_at n bs = if ltb (length bs) n then panic else ok (take n bs, drop n bs)

abbrev pub then_ok {ℓ κ} : {A : Type ℓ} {B : Type κ} → Result A → (A → Result B) → Result B
then_ok (ok a) f = f a
then_ok (err e) f = err e
then_ok panic f = panic

-- `Incomplete::new`
unfoldable pub new_incomplete : List ℕ → Result Incomplete
new_incomplete bytes =
    if ltb 4 (length bytes)
    then panic
    else ok (record {
      buffer = bytes ++ drop (length bytes) (0 ∷ 0 ∷ 0 ∷ 0 ∷ []);
      buffer_len = length bytes;
    })

decode_error : List ℕ → Utf8Error → Result Decoded
decode_error input error = then_ok (split_at error.valid_up_to input) λ (valid_bytes, after_valid).
    elim error.error_len [
      | some invalid_sequence_length ↦
          then_ok (split_at invalid_sequence_length after_valid)
            λ (bad_bytes, rest). ok (invalid valid_bytes bad_bytes rest)
      | none ↦ then_ok (new_incomplete after_valid) λ suffix. ok (incomplete valid_bytes suffix)
    ]

unfoldable pub decode : List ℕ → Result Decoded
unfolding decode_error
decode input = elim (from_utf8 input) [
  | none ↦ ok (valid input)
  | some error ↦ decode_error input error
]

unfoldable pub checked_sub : ℕ → ℕ → Result ℕ
checked_sub a b = if ltb a b then panic else ok (a - b)

-- What is consumed of the input, and whether the buffer holds a text (`some true`), bytes in error
-- (`some false`) or too little (`none`).
unfoldable pub offsets_of : ℕ → ℕ → List ℕ → Option Utf8Error → Result (ℕ × (ℕ × Option Bool))
unfolding checked_sub
offsets_of initial_buffer_len copied spliced none = ok (length spliced, (copied, some true))
offsets_of initial_buffer_len copied spliced (some error) =
    if ltb 0 error.valid_up_to
    then (then_ok (checked_sub error.valid_up_to initial_buffer_len)
        λ consumed. ok (error.valid_up_to, (consumed, some true)))
    else elim error.error_len [
      | some invalid_sequence_length ↦
          then_ok (checked_sub invalid_sequence_length initial_buffer_len)
            λ consumed. ok (invalid_sequence_length, (consumed, some false))
      | none ↦ ok (length spliced, (copied, none))
    ]

-- The new length and the written buffer are stored.
unfoldable pub store_offsets :
    List ℕ → Incomplete → Result (ℕ × (ℕ × Option Bool)) → Result (ℕ × Option Bool) × Incomplete
store_offsets buffer self (ok (new_len, out)) =
    (ok out, record { buffer = buffer; buffer_len = new_len })
store_offsets buffer self (err e) = (err e, record self { buffer = buffer })
store_offsets buffer self panic = (panic, record self { buffer = buffer })

-- `try_complete_offsets`: the input is copied behind the buffered bytes, as far as there is room.
unfoldable pub try_complete_offsets : List ℕ → Exec Incomplete (ℕ × Option Bool)
try_complete_offsets input self =
    let initial_buffer_len = self.buffer_len in
    let copied_from_input = min (length self.buffer - initial_buffer_len) (length input) in
    let buffer =
      take initial_buffer_len self.buffer
      ++ (take copied_from_input input
          ++ drop (initial_buffer_len + copied_from_input) self.buffer) in
    let spliced = take (initial_buffer_len + copied_from_input) buffer in
    store_offsets buffer self
      (offsets_of initial_buffer_len copied_from_input spliced (from_utf8 spliced))

unfoldable pub take_buffer : Exec Incomplete (List ℕ)
take_buffer self = (ok (take self.buffer_len self.buffer), record self { buffer_len = 0 })

unfoldable pub try_complete : List ℕ → Exec Incomplete (Option Completed)
unfolding take_buffer
try_complete input = do
  (consumed, opt_result) ← try_complete_offsets input
  elim opt_result [
    | none ↦ pure none
    | some result ↦ do
      (used, remaining_input) ← lift (split_at consumed input)
      result_bytes ← take_buffer
      pure (
          some (record {
            is_valid = result;
            result_bytes = result_bytes;
            remaining_input = remaining_input;
          }))
  ]
