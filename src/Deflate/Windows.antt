-- ===== src/Deflate/Windows.antt =====
-- The windows that any header can bring about (src/protocol/deflate/negotiate.rs).
use Prim.Native.Nat.{bit_and, bit_or}
use tungstenite_rs.Prelude.{
  ℕ, ◌≡◌, refl, sym, ap, ◌∙◌, Bool, true, false, Option, none, some, List, [], ◌∷◌, arith, leb, not,
  ◌==◌, if◌then◌else◌, ◌&&◌,
}
use tungstenite_rs.Utf8.{Utf8Error, from_utf8}
use tungstenite_rs.Result.{Result, ok, err, panic}
use tungstenite_rs.Result.Fallible.{◌>>=◌, ok_or}
use tungstenite_rs.Deflate.Text.{Bytes, bad_header}
use tungstenite_rs.Deflate.Parameters.{
  Params, ClientWindow, absent, no_value, bits, default_params, Extension, empty, deflate, other,
  parse_bits, set_parameter, parse_parameter, parse_parameters, parse,
}
use tungstenite_rs.Deflate.Parameters

abbrev pub in_bounds : ℕ → Bool
in_bounds n = leb 8 n && leb n 15

unfoldable pub option_in_bounds : Option ℕ → Bool
option_in_bounds none = true
option_in_bounds (some n) = in_bounds n

unfoldable pub window_in_bounds : ClientWindow → Bool
window_in_bounds (bits n) = in_bounds n
window_in_bounds _ = true

-- Every window that parameters label is from 8 to 15.
unfoldable pub params_in_bounds : Params → Bool
unfolding option_in_bounds window_in_bounds
params_in_bounds p =
    option_in_bounds p.server_max_window_bits && window_in_bounds p.client_max_window_bits

bits_in_bounds : Result ℕ → Bool
bits_in_bounds (ok n) = in_bounds n
bits_in_bounds r = true

parse_bits_lem : (value : Bytes) → bits_in_bounds (parse_bits value) ≡ true
unfolding parse_bits bits_in_bounds
parse_bits_lem value = ground arith

result_in_bounds : Result Params → Bool
result_in_bounds (ok p) = params_in_bounds p
result_in_bounds r = true

set_parameter_lem :
    (bit : ℕ) (value : Option Bytes) (p : Params)
    → params_in_bounds p ≡ true
    → result_in_bounds (set_parameter bit value p) ≡ true
unfolding set_parameter params_in_bounds option_in_bounds window_in_bounds bits_in_bounds
    result_in_bounds
set_parameter_lem bit none p h = ground arith
set_parameter_lem bit (some value) p h = ground (arith, parse_bits_lem value)

-- A chain keeps the bounds if its second step does.
bind_in_bounds :
    {A : Type 0} (r : Result A) (f : A → Result Params)
    → ((a : A) → r ≡ ok a → result_in_bounds (f a) ≡ true)
    → result_in_bounds (r >>= f) ≡ true
unfolding result_in_bounds
bind_in_bounds (ok a) f k = k a refl
bind_in_bounds (err e) f k = refl
bind_in_bounds panic f k = refl

parse_parameter_lem :
    (parameter : Bytes) (p : Params)
    → params_in_bounds p ≡ true
    → result_in_bounds (parse_parameter parameter p) ≡ true
unfolding parse_parameter params_in_bounds
parse_parameter_lem parameter p h =
    bind_in_bounds (ok_or bad_header (Parameters.parameter_bit label)) _
      (λ bit e. by_seen bit (bit_and p.seen bit == 0))
  where
    label : Bytes
    label = (Parameters.name_value parameter).0

    value : Option Bytes
    value = (Parameters.name_value parameter).1

    by_seen :
        (bit : ℕ) (unseen : Bool)
        → result_in_bounds (
            if not unseen
            then err bad_header
            else set_parameter bit value (record p { seen = bit_or p.seen bit }))
          ≡ true
    by_seen bit true = set_parameter_lem bit value (record p { seen = bit_or p.seen bit }) h
    by_seen bit false = refused
      where
        refused : result_in_bounds (err bad_header) ≡ true
        refused = unfold result_in_bounds in refl

default_lem : params_in_bounds default_params ≡ true
unfolding params_in_bounds default_params option_in_bounds window_in_bounds
default_lem = refl

parse_parameters_lem :
    (parameters : List Bytes) (p : Params)
    → params_in_bounds p ≡ true
    → result_in_bounds (parse_parameters parameters p) ≡ true
unfolding parse_parameters result_in_bounds
parse_parameters_lem [] p h = h
parse_parameters_lem (parameter ∷ rest) p h =
    bind_in_bounds (parse_parameter parameter p) (parse_parameters rest) (λ q e.
      parse_parameters_lem rest q (sym (ap result_in_bounds e) ∙ parse_parameter_lem parameter p h))

unfoldable pub extension_in_bounds : Result Extension → Bool
extension_in_bounds (ok (deflate p)) = params_in_bounds p
extension_in_bounds r = true

deflate_in_bounds :
    (r : Result Params)
    → result_in_bounds r ≡ true
    → extension_in_bounds (r >>= λ p. ok (deflate p)) ≡ true
unfolding result_in_bounds extension_in_bounds
deflate_in_bounds (ok p) h = h
deflate_in_bounds (err e) h = refl
deflate_in_bounds panic h = refl

parse_deflate_lem :
    (extension : Bytes) → extension_in_bounds (Parameters.parse_deflate extension) ≡ true
unfolding Parameters.parse_deflate extension_in_bounds
parse_deflate_lem extension = by_text (from_utf8 extension)
  where
    by_parts :
        (r : Result (List Bytes))
        → extension_in_bounds (
            r >>= λ parts.
            parse_parameters (Parameters.tail_parts parts) default_params >>= λ p. ok (deflate p))
          ≡ true
    by_parts (ok parts) =
        deflate_in_bounds (parse_parameters (Parameters.tail_parts parts) default_params)
          (parse_parameters_lem (Parameters.tail_parts parts) default_params default_lem)
    by_parts (err e) = refl
    by_parts panic = refl

    by_text :
        (o : Option Utf8Error)
        → extension_in_bounds (elim o as (λ _. Result Extension) [
          | some e ↦ err bad_header
          | none ↦ Parameters.split_quoted extension b';' >>= λ parts.
              parse_parameters (Parameters.tail_parts parts) default_params >>= λ p. ok (deflate p)
        ])
          ≡ true
    by_text (some e) = refl
    by_text none = by_parts (Parameters.split_quoted extension b';')

-- Whatever the text, the windows of the parameters that it parses to are from 8 to 15.
pub parse_lem : (extension : Bytes) → extension_in_bounds (parse extension) ≡ true
unfolding parse extension_in_bounds
parse_lem extension = ground (arith, parse_deflate_lem extension)
