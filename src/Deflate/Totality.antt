-- ===== src/Deflate/Totality.antt =====
-- Reading the extensions of a header never panics (src/protocol/deflate/negotiate.rs).
use Prim.Native.Nat.{bit_or}
use tungstenite_rs.Prelude.{ℕ, ◌≡◌, refl, true, Option, none, some, List, [], ◌∷◌, ◌++◌, arith}
use tungstenite_rs.Result.{Result, ok, err}
use tungstenite_rs.Result.Fallible.{◌>>=◌, ok_or, is_total, bind_total, ok_or_total}
use tungstenite_rs.Utf8.{from_utf8, Utf8Error}
use tungstenite_rs.Deflate.{Settings}
use tungstenite_rs.Deflate.Text.{
  Bytes, finish_split, split_header, unquote_from, unquote, bad_header,
}
use tungstenite_rs.Deflate.Parameters.{
  Params, Extension, parse_bits, parse_window, set_parameter, parse_parameter, parameter_bit,
  name_value, parse_parameters, all_valid, split_quoted, parse_deflate, parse, tail_parts,
  default_params,
}
use tungstenite_rs.Deflate.Negotiate.{
  select, select_all, select_values, agree_server_window, agree_client_window, accept_params,
  accept_selected, accept_response, headers_select_deflate,
}

pub split_header_total :
    (value : Bytes) (delimiter : ℕ) → is_total (split_header value delimiter) ≡ true
unfolding split_header finish_split
split_header_total value delimiter = ground arith

unquote_from_total : (output bs : Bytes) → is_total (unquote_from output bs) ≡ true
unfolding unquote_from
unquote_from_total output [] = refl
unquote_from_total output (b ∷ []) = ground arith
unquote_from_total output (b ∷ c ∷ bs) = ground (
  arith,
  unquote_from_total (output ++ c ∷ []) bs,
  unquote_from_total (output ++ b ∷ []) (c ∷ bs),
)

unquote_total : (bs : Bytes) → is_total (unquote bs) ≡ true
unfolding unquote
unquote_total [] = refl
unquote_total (b ∷ bs) = ground (arith, unquote_from_total [] bs)

parse_bits_total : (text : Bytes) → is_total (parse_bits text) ≡ true
unfolding parse_bits
parse_bits_total text = bind_total (unquote text) _ (unquote_total text) (λ value. ground arith)

parse_window_total : (o : Option Bytes) → is_total (parse_window o) ≡ true
unfolding parse_window
parse_window_total none = refl
parse_window_total (some value) =
    bind_total (parse_bits value) _ (parse_bits_total value) (λ n. refl)

set_parameter_total :
    (bit : ℕ) (o : Option Bytes) (p : Params) → is_total (set_parameter bit o p) ≡ true
unfolding set_parameter
set_parameter_total bit none p = ground (arith, parse_window_total none)
set_parameter_total bit (some value) p =
    ground (arith, parse_window_total (some value), parse_bits_total value)

parse_parameter_total : (text : Bytes) (p : Params) → is_total (parse_parameter text p) ≡ true
unfolding parse_parameter
parse_parameter_total text p =
    bind_total (ok_or bad_header (parameter_bit (name_value text).0)) _ (ok_or_total _ _) (λ bit.
      ground (
        arith,
        set_parameter_total bit (name_value text).1 (record p { seen = bit_or p.seen bit }),
      ))

parse_parameters_total :
    (texts : List Bytes) (p : Params) → is_total (parse_parameters texts p) ≡ true
unfolding parse_parameters
parse_parameters_total [] p = refl
parse_parameters_total (text ∷ texts) p =
    bind_total (parse_parameter text p) _ (parse_parameter_total text p)
      (parse_parameters_total texts)

all_valid_total : (all parts : List Bytes) → is_total (all_valid all parts) ≡ true
unfolding all_valid
all_valid_total all [] = refl
all_valid_total all (part ∷ parts) = ground (arith, all_valid_total all parts)

split_quoted_total :
    (value : Bytes) (delimiter : ℕ) → is_total (split_quoted value delimiter) ≡ true
unfolding split_quoted
split_quoted_total value delimiter =
    bind_total (split_header value delimiter) _ (split_header_total value delimiter)
      (λ parts. all_valid_total parts parts)

parse_deflate_total : (extension : Bytes) → is_total (parse_deflate extension) ≡ true
unfolding parse_deflate
parse_deflate_total extension = by_text (from_utf8 extension)
  where
    by_text :
        (o : Option Utf8Error)
        → is_total (elim o as (λ _. Result Extension) [
          | some e ↦ err bad_header
          | none ↦ split_quoted extension b';' >>= λ parts.
              parse_parameters (tail_parts parts) default_params >>= λ params.
              ok (Extension.deflate params)
        ])
          ≡ true
    by_text (some e) = refl
    by_text none =
        bind_total (split_quoted extension b';') _ (split_quoted_total extension b';') (λ parts.
          bind_total (parse_parameters (tail_parts parts) default_params) _
            (parse_parameters_total (tail_parts parts) default_params) (λ params. refl))

pub parse_total : (extension : Bytes) → is_total (parse extension) ≡ true
unfolding parse
parse_total extension = ground (arith, parse_deflate_total extension)

select_total : (selected : Option Params) (e : Extension) → is_total (select selected e) ≡ true
unfolding select
select_total selected e = ground arith

select_all_total :
    (selected : Option Params) (parts : List Bytes) → is_total (select_all selected parts) ≡ true
unfolding select_all
select_all_total selected [] = refl
select_all_total selected (part ∷ parts) = bind_total (parse part) _ (parse_total part) (λ e.
    bind_total (select selected e) _ (select_total selected e)
      (λ next. select_all_total next parts))

select_values_total :
    (selected : Option Params) (values : List Bytes)
    → is_total (select_values selected values) ≡ true
unfolding select_values
select_values_total selected [] = refl
select_values_total selected (value ∷ values) =
    bind_total (split_header value b',') _ (split_header_total value b',') (λ parts.
      bind_total (select_all selected parts) _ (select_all_total selected parts)
        (λ next. select_values_total next values))

accept_selected_total :
    (s : Settings) (selected : Option Params) → is_total (accept_selected s selected) ≡ true
unfolding accept_selected accept_params agree_server_window agree_client_window
accept_selected_total s none = refl
accept_selected_total s (some p) = ground arith

-- Accepting a response never panics, whatever it says.
pub accept_response_total :
    (s : Settings) (values : List Bytes) → is_total (accept_response s values) ≡ true
unfolding accept_response
accept_response_total s values =
    bind_total (select_values none values) _ (select_values_total none values)
      (accept_selected_total s)

pub headers_select_deflate_total :
    (values : List Bytes) → is_total (headers_select_deflate values) ≡ true
unfolding headers_select_deflate
headers_select_deflate_total [] = refl
headers_select_deflate_total (value ∷ values) =
    bind_total (split_header value b',') _ (split_header_total value b',')
      (λ parts. ground (arith, headers_select_deflate_total values))
