-- ===== src/Examples/Compression.antt =====
-- Concrete inputs for the theorems on src/protocol/deflate, and a stand-in for flate2 that stores.
mod Answers
mod Meeting
mod Endings
use tungstenite_rs.Prelude.{
  ℕ, ◌+◌, ◌≤◌, ◌≡◌, refl, Bool, true, false, ◌&&◌, Option, none, some, List, [], ◌∷◌, length, take,
  max, leb, length-take, arith,
}
use tungstenite_rs.Prelude.Text.{codes}
use tungstenite_rs.Result.{ok}
use tungstenite_rs.Collector.{limit_of}
use tungstenite_rs.Context.{
  server, client, WebSocketContext, WebSocketConfig, active, default_config,
}
use tungstenite_rs.Context.Receive
use tungstenite_rs.Deflate.{Settings, default_settings}
use tungstenite_rs.Deflate.Text.{Bytes, split_header}
use tungstenite_rs.Deflate.Text
use tungstenite_rs.Deflate.Negotiate.{accept_response, accept_offers, offer_text}
use tungstenite_rs.Deflate.Parameters.{parse}
use tungstenite_rs.Deflate.Negotiate
use tungstenite_rs.Deflate.Parameters
use tungstenite_rs.Deflate.Split.{All, join, join-split_header, IsPart, split_header-IsPart}
use tungstenite_rs.Deflate.Agreement.{IsFit, Negotiated, accept_response-accept_offers-offer}
use tungstenite_rs.Deflate.Windows.{extension_in_bounds, parse_lem}
use tungstenite_rs.Deflate.Safety.{IsClientSafe, accept_response-IsClientSafe}
use tungstenite_rs.Deflate.Safety.Server.{IsServerSafe, accept_offers-IsServerSafe}
use tungstenite_rs.Deflate.Codec.{Flate, Lawful, Step, buf_error, ConfiguredDecoder, Context}
use tungstenite_rs.Deflate.Codec
use tungstenite_rs.Deflate.Inflate.{IsSound, Inflated, inflate-Inflated}
use tungstenite_rs.Deflate.Decompress.{decompress-Inflated}
use tungstenite_rs.Deflate.Opening.{Opens, accept_response-Opens}
use tungstenite_rs.Deflate.Config.{accept_deflate_offers, offers_answer, with_answer}
use tungstenite_rs.Deflate.Serving.{Served, accept_deflate_offers-Served}
use tungstenite_rs.Deflate.Service.{service, Decompressed, decompress-Decompressed}
use tungstenite_rs.Utf8
use tungstenite_rs.Examples.{waiting}

default_settings-IsFit : IsFit default_settings
unfolding default_settings
default_settings-IsFit = record {
  server_low = omega arith;
  server_high = omega arith;
  client_low = omega arith;
  client_high = omega arith;
}

abbrev two_offers : Bytes
two_offers = codes "a;x=\"1,2\",b"

abbrev two_parts : List Bytes
two_parts = codes "a;x=\"1,2\"" ∷ codes "b" ∷ []

two_offers-split : split_header two_offers b',' ≡ ok two_parts
unfolding split_header
two_offers-split = refl

join-split_header_example : join b',' two_parts ≡ two_offers
join-split_header_example = join-split_header two_offers b',' two_parts two_offers-split

split_header-IsPart_example : All (IsPart b',') two_parts
split_header-IsPart_example = split_header-IsPart two_offers b',' two_parts two_offers-split

abbrev narrow : Bytes
narrow = codes "permessage-deflate; server_max_window_bits=8; client_max_window_bits=\"10\""

abbrev one_sided : Settings
one_sided = record {
  compression = 6;
  server_no_context_takeover = true;
  client_no_context_takeover = false;
  server_max_window_bits = 11;
  client_max_window_bits = 15;
}

one_sided-IsFit : IsFit one_sided
one_sided-IsFit = record {
  server_low = omega arith;
  server_high = omega arith;
  client_low = omega arith;
  client_high = omega arith;
}

accept_response-accept_offers-offer_example : Negotiated some default_settings one_sided
accept_response-accept_offers-offer_example =
    accept_response-accept_offers-offer default_settings one_sided default_settings-IsFit
      one_sided-IsFit some (λ text visible. refl)

abbrev narrowed : Settings
narrowed = record default_settings { server_max_window_bits = 8; client_max_window_bits = 10 }

narrow-accepted : accept_response default_settings (narrow ∷ []) ≡ ok (some narrowed)
unfolding accept_response parse split_header Parameters.split_quoted Parameters.parse_parameters
    Parameters.parse_parameter Parameters.parameter_bit Parameters.set_parameter
    Parameters.parse_bits Parameters.default_params Text.trim_ascii Text.trim Text.before
    Text.split_once Text.eq_ignore_ascii_case Text.decimal Text.unquote Text.all_digits
    Text.parse_u8 Text.starts_with_zero Utf8.from_utf8 Utf8.validate Utf8.front
    Negotiate.select_values Negotiate.select_all Negotiate.select Negotiate.accept_params
    default_settings Negotiate.agree_server_window Negotiate.agree_client_window
narrow-accepted = refl

accept_response-IsClientSafe_example : IsClientSafe default_settings narrowed
accept_response-IsClientSafe_example =
    accept_response-IsClientSafe default_settings default_settings-IsFit (narrow ∷ []) narrowed
      narrow-accepted

abbrev served : Settings
served = record one_sided { server_max_window_bits = 11; client_max_window_bits = 15 }

abbrev answer : Bytes
answer = codes "permessage-deflate; server_no_context_takeover; server_max_window_bits=11"

bare_offer-accepted :
    accept_offers some one_sided (codes "permessage-deflate" ∷ []) ≡ ok (some (served, answer))
unfolding accept_offers parse split_header Parameters.split_quoted Parameters.parse_parameters
    Parameters.parse_parameter Parameters.parameter_bit Parameters.set_parameter
    Parameters.parse_bits Parameters.default_params Text.trim_ascii Text.trim Text.before
    Text.split_once Text.eq_ignore_ascii_case Text.decimal Text.unquote Text.all_digits
    Text.parse_u8 Text.starts_with_zero Utf8.from_utf8 Utf8.validate Utf8.front
    Negotiate.search_offers Negotiate.search_parts Negotiate.accept_offer
    Negotiate.offered_server_window Negotiate.weigh Negotiate.agree_offer Negotiate.response_text
    Negotiate.offered_client_window
bare_offer-accepted = refl

accept_offers-IsServerSafe_example : IsServerSafe one_sided one_sided-IsFit served
accept_offers-IsServerSafe_example =
    accept_offers-IsServerSafe one_sided one_sided-IsFit some (codes "permessage-deflate" ∷ [])
      served answer bare_offer-accepted

abbrev window_if : Bool → ℕ → Option ℕ
window_if true bits = some bits
window_if false bits = none

-- It gives out what it takes in, as far as there is room.
abbrev copy : List ℕ → ℕ → ℕ → Option Step × ℕ
copy input room d = (
  some (record {
    status = buf_error;
    consumed = length (take room input);
    produced = take room input;
  }),
  d,
)

abbrev storing : Flate
storing = record {
  Compress = ℕ;
  Decompress = ℕ;
  new_compress = λ level bits. window_if (leb 9 bits && leb bits 15) level;
  new_decompress = λ bits. window_if (leb 9 bits && leb bits 15) bits;
  reset_compress = λ c. c;
  reset_decompress = λ d. d;
  compress_vec = λ input room flush c. copy input room c;
  decompress = copy;
  grow = λ capacity len additional. max capacity (len + additional);
}

window_if-some :
    (bits a : ℕ) → 9 ≤ bits → bits ≤ 15 → window_if (leb 9 bits && leb bits 15) a ≡ some a
window_if-some bits a low high = ground arith

copy-fits :
    (input : List ℕ) (room d d' : ℕ) (step : Step)
    → copy input room d ≡ (some step, d')
    → (step.consumed ≤ length input) × (length step.produced ≤ room)
copy-fits input room d d' step e = ground (arith, length-take room input)

storing-Lawful : Lawful storing
storing-Lawful = record {
  window_taken = λ level bits low high. (level, window_if-some bits level low high);
  decoder_window_taken = λ bits low high. (bits, window_if-some bits bits low high);
  consumed_fits = λ input room d d' step e. (copy-fits input room d d' step e).0;
  produced_fits = λ input room d d' step e. (copy-fits input room d d' step e).1;
}

abbrev inflater : Context storing
inflater = record {
  encoder = 6;
  decoder = record { stream = 9; window_bits = 9 };
  reset_after_encoding = false;
  reset_after_decoding = true;
}

inflater-IsSound : IsSound storing inflater
inflater-IsSound = record { window_low = omega arith; window_high = omega arith }

inflate-Inflated_example :
    Inflated storing 1 6 (1 ∷ []) (Codec.inflate storing 1 6 (2 ∷ 3 ∷ []) (1 ∷ []) inflater)
inflate-Inflated_example =
    inflate-Inflated storing storing-Lawful 1 6 (2 ∷ 3 ∷ []) (1 ∷ []) inflater (omega arith)
      inflater-IsSound

decompress-Inflated_example :
    Inflated storing 1
      (limit_of (some 6))
      []
      (Codec.decompress storing (2 ∷ 3 ∷ []) true 1 (some 6) inflater)
unfolding limit_of
decompress-Inflated_example =
    decompress-Inflated storing storing-Lawful (2 ∷ 3 ∷ []) true 1 (some 6) inflater (omega arith)
      inflater-IsSound

accept_response-Opens_example : Opens storing client narrowed
accept_response-Opens_example =
    accept_response-Opens storing storing-Lawful default_settings default_settings-IsFit
      (narrow ∷ []) narrowed narrow-accepted

abbrev server_config : WebSocketConfig (service storing 9)
server_config = record (default_config (service storing 9)) { deflate_settings = some one_sided }

bare_offer-answered :
    accept_deflate_offers storing 9 some (codes "permessage-deflate" ∷ []) server_config
    ≡ ok (record server_config { deflate_settings = some served }, some answer)
unfolding accept_deflate_offers offers_answer with_answer
bare_offer-answered = rw (bare_offer-accepted) refl

accept_deflate_offers-Served_example :
    Served storing storing-Lawful 9 (record server_config { deflate_settings = some served }) true
unfolding default_config
accept_deflate_offers-Served_example =
    accept_deflate_offers-Served storing storing-Lawful 9 some server_config
      (record server_config { deflate_settings = some served }) (codes "permessage-deflate" ∷ [])
      (some answer) (omega arith) one_sided-IsFit bare_offer-answered

abbrev compressing : WebSocketContext (service storing 9)
compressing = record {
  role = client;
  frame = waiting;
  state = active;
  incomplete = none;
  additional_send = none;
  unflushed_additional = false;
  config = default_config (service storing 9);
  codec = some inflater;
  compressed_incomplete = false;
  compression_unusable = false;
}

decompress-Decompressed_example :
    Decompressed storing storing-Lawful 9 compressing
      (Receive.decompress (service storing 9) (2 ∷ 3 ∷ []) true compressing)
unfolding default_config limit_of
decompress-Decompressed_example =
    decompress-Decompressed storing storing-Lawful 9 (2 ∷ 3 ∷ []) true compressing inflater refl
      inflater-IsSound (omega arith)
