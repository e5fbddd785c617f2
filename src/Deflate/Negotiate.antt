-- ===== src/Deflate/Negotiate.antt =====
-- src/protocol/deflate/negotiate.rs: offers of permessage-deflate, and the answers to them.
-- A header is the list of the values of `Sec-WebSocket-Extensions`. `HeaderValue::from_str` of the
-- http crate is a parameter, `none` for its error.
use tungstenite_rs.Prelude.{
  ℕ, Bool, true, false, not, ◌&&◌, ◌||◌, Option, none, some, List, [], ◌∷◌, ◌++◌, min, ltb, ◌==◌,
  if◌then◌else◌,
}
use tungstenite_rs.Prelude.Text.{codes}
use tungstenite_rs.Result.{Result, ok, err, panic, or_panic}
use tungstenite_rs.Result.Fallible.{◌>>=◌}
use tungstenite_rs.Deflate.{Settings}
use tungstenite_rs.Deflate.Text.{
  Bytes, bad_header, trim_ascii, eq_ignore_ascii_case, before, split_header, decimal,
}
use tungstenite_rs.Deflate.Parameters.{
  name, ClientWindow, absent, no_value, bits, Params, Extension, empty, deflate, other, parse,
}

flag : Bool → Bytes → Bytes
flag true text = text
flag false text = []

window_text : Bytes → Option ℕ → Bytes
window_text text none = []
window_text text (some n) = text ++ decimal n

-- The text that `offer` builds.
unfoldable pub offer_text : Settings → Bytes
unfolding flag window_text
offer_text s =
    name
    ++ (flag s.server_no_context_takeover (codes "; server_no_context_takeover")
        ++ (flag s.client_no_context_takeover (codes "; client_no_context_takeover")
            ++ (window_text (codes "; server_max_window_bits=")
                  (if ltb s.server_max_window_bits 15 then some s.server_max_window_bits else none)
                ++ codes "; client_max_window_bits")))

-- `Extension::Deflate(params) if selected.is_none()`
unfoldable pub select : Option Params → Extension → Result (Option Params)
select selected empty = ok selected
select none (deflate p) = ok (some p)
select (some q) (deflate p) = err bad_header
select selected other = err bad_header

unfoldable pub select_all : Option Params → List Bytes → Result (Option Params)
select_all selected [] = ok selected
select_all selected (part ∷ parts) = do
  extension ← parse part
  next ← select selected extension
  select_all next parts

unfoldable pub select_values : Option Params → List Bytes → Result (Option Params)
select_values selected [] = ok selected
select_values selected (value ∷ values) = do
  parts ← split_header value b','
  next ← select_all selected parts
  select_values next values

-- The server's window, from the parameters that it selected.
unfoldable pub agree_server_window : Settings → Option ℕ → Settings → Result Settings
agree_server_window s (some n) agreed =
    if ltb s.server_max_window_bits n
    then err bad_header
    else ok (record agreed { server_max_window_bits = n })
agree_server_window s none agreed =
    if ltb s.server_max_window_bits 15 then err bad_header else ok agreed

unfoldable pub agree_client_window : Settings → ClientWindow → Settings → Result Settings
agree_client_window s absent agreed = ok agreed
agree_client_window s no_value agreed = err bad_header
agree_client_window s (bits n) agreed =
    if n == 8
    then err bad_header
    else ok (record agreed { client_max_window_bits = min n s.client_max_window_bits })

-- What follows the selection in `accept_response`.
unfoldable pub accept_params : Settings → Params → Result Settings
accept_params s params =
    if s.server_no_context_takeover && not params.server_no_context_takeover
    then err bad_header
    else (do
      agreed ← agree_server_window s params.server_max_window_bits (record s {
        server_no_context_takeover = params.server_no_context_takeover;
        client_no_context_takeover =
            s.client_no_context_takeover || params.client_no_context_takeover;
      })
      agree_client_window s params.client_max_window_bits agreed)

unfoldable pub accept_selected : Settings → Option Params → Result (Option Settings)
accept_selected s none = ok none
accept_selected s (some params) = do agreed ← accept_params s params; ok (some agreed)

unfoldable pub accept_response : Settings → List Bytes → Result (Option Settings)
unfolding accept_selected
accept_response s values = do selected ← select_values none values; accept_selected s selected

-- `server_window` and `client_window` of `accept_offer`; the outer option is the refusal.
unfoldable pub offered_server_window : Settings → Option ℕ → Option (Option ℕ)
offered_server_window s (some n) =
    if n == 8 then none else some (some (min n s.server_max_window_bits))
offered_server_window s none =
    some (if ltb s.server_max_window_bits 15 then some s.server_max_window_bits else none)

unfoldable pub offered_client_window : Settings → ClientWindow → ℕ
offered_client_window s absent = 15
offered_client_window s no_value = s.client_max_window_bits
offered_client_window s (bits n) = min n s.client_max_window_bits

or_keep : Option ℕ → ℕ → ℕ
or_keep none n = n
or_keep (some m) n = m

-- What is agreed on an offer, once the server's window is known.
unfoldable pub agree_offer : Settings → Params → Option ℕ → Settings
unfolding or_keep
agree_offer s offered server_window = record s {
  server_no_context_takeover = s.server_no_context_takeover || offered.server_no_context_takeover;
  client_no_context_takeover = s.client_no_context_takeover || offered.client_no_context_takeover;
  server_max_window_bits = or_keep server_window s.server_max_window_bits;
  client_max_window_bits = offered_client_window s offered.client_max_window_bits;
}

-- The text of the response.
unfoldable pub response_text : Settings → Option ℕ → Bytes
unfolding flag window_text
response_text agreed server_window =
    name
    ++ (flag agreed.server_no_context_takeover (codes "; server_no_context_takeover")
        ++ (flag agreed.client_no_context_takeover (codes "; client_no_context_takeover")
            ++ (window_text (codes "; server_max_window_bits=") server_window
                ++ window_text (codes "; client_max_window_bits=") (
                    if ltb agreed.client_max_window_bits 15
                    then some agreed.client_max_window_bits
                    else none))))

extension_is_deflate : Bytes → Bool
extension_is_deflate extension = eq_ignore_ascii_case (trim_ascii (before b';' extension)) name

any_deflate : List Bytes → Bool
unfolding extension_is_deflate
any_deflate [] = false
any_deflate (part ∷ parts) = extension_is_deflate part || any_deflate parts

-- Does a peer's field select permessage-deflate?
unfoldable pub headers_select_deflate : List Bytes → Result Bool
unfolding any_deflate
headers_select_deflate [] = ok false
headers_select_deflate (value ∷ values) =
    let rest = headers_select_deflate values in
    split_header value b',' >>= λ parts. if any_deflate parts then ok true else rest

module _ (from_str : Bytes → Option Bytes) where
  -- `HeaderValue::from_str(…).expect(…)`
  unfoldable pub offer : Settings → Result Bytes
  offer s = or_panic (from_str (offer_text s))

  unfoldable pub accept_offer : Settings → Params → Result (Option (Settings × Bytes))
  accept_offer s offered = elim (offered_server_window s offered.server_max_window_bits) [
    | none ↦ ok none
    | some window ↦ (do
      response ← or_panic (from_str (response_text (agree_offer s offered window) window))
      ok (some (agree_offer s offered window, response)))
  ]

  -- A search goes on with a fallback, or has found its answer.
  pub data Search : Type 0 where
    going : Option (Settings × Bytes) → Search
    found : Settings × Bytes → Search

  -- `get_or_insert`, and the early return.
  unfoldable pub weigh : Settings → Option (Settings × Bytes) → Option (Settings × Bytes) → Search
  weigh s fallback none = going fallback
  weigh s fallback (some accepted) =
      if (s.client_max_window_bits == 15) || ltb accepted.0.client_max_window_bits 15
      then found accepted
      else going (elim fallback [ none ↦ some accepted | some f ↦ some f ])

  unfoldable pub consider : Settings → Option (Settings × Bytes) → Result Extension → Result Search
  consider s fallback (ok (deflate offered)) = do
    accepted ← accept_offer s offered
    ok (weigh s fallback accepted)
  consider s fallback panic = panic
  consider s fallback r = ok (going fallback)

  unfoldable pub search_parts : Settings → Option (Settings × Bytes) → List Bytes → Result Search
  unfolding consider
  search_parts s fallback [] = ok (going fallback)
  search_parts s fallback (part ∷ parts) = consider s fallback (parse part) >>= λ r. elim r [
    | found accepted ↦ ok (found accepted)
    | going f ↦ search_parts s f parts
  ]

  -- `split_header(…).into_iter().flatten()`: a value that cannot be split has no parts.
  unfoldable pub parts_of : Result (List Bytes) → List Bytes
  parts_of (ok parts) = parts
  parts_of r = []

  unfoldable pub search_offers : Settings → Option (Settings × Bytes) → List Bytes → Result Search
  unfolding parts_of
  search_offers s fallback [] = ok (going fallback)
  search_offers s fallback (value ∷ values) =
      search_parts s fallback (parts_of (split_header value b',')) >>= λ r. elim r [
        | found accepted ↦ ok (found accepted)
        | going f ↦ search_offers s f values
      ]

  unfoldable pub accept_offers : Settings → List Bytes → Result (Option (Settings × Bytes))
  accept_offers s offers = search_offers s none offers >>= λ r.
      ok (elim r [ found accepted ↦ some accepted | going fallback ↦ fallback ])
