-- ===== src/Handshake/Parse.antt =====
-- `TryParse` and `FromHttparse` of src/handshake/headers.rs, src/handshake/server.rs and
-- src/handshake/client.rs: what `httparse` found becomes a header map, a request or a response.
use tungstenite_rs.Prelude.{ℕ, not, Option, none, some, [], ◌∷◌, ltb, if◌then◌else◌}
use tungstenite_rs.Prelude.Text.{codes, same_bytes}
use tungstenite_rs.Types.{
  capacity, too_many_headers, protocol, httparse_error, http_format, wrong_http_method,
  wrong_http_version, HeaderMap, Request, Response, get_method, http_11,
}
use tungstenite_rs.Result.{Result, ok, err, or_panic}
use tungstenite_rs.Result.Fallible.{◌>>=◌, ok_or}
use tungstenite_rs.Handshake.Http.{
  Headers, Httparse, Parsed, complete, partial, too_many, malformed, RawRequest, RawResponse,
}
use tungstenite_rs.Handshake.Machine.{TryParse}

-- MAX_HEADERS
abbrev pub max_headers : ℕ
max_headers = 124

-- `?` on an error of `httparse`, and what is made of a complete object.
unfoldable pub parsed_object {ℓ κ} :
    {A : Type ℓ} {B : Type κ} → (A → Result B) → ℕ → A → Result (Option (ℕ × B))
parsed_object build size raw = do obj ← build raw; ok (some (size, obj))

unfoldable pub from_parsed : {A B : Type 0} → (A → Result B) → Parsed A → Result (Option (ℕ × B))
unfolding parsed_object
from_parsed build (complete size raw) = parsed_object build size raw
from_parsed build partial = ok none
from_parsed build too_many = err (capacity too_many_headers)
from_parsed build malformed = err (protocol httparse_error)

module _ (headers : Headers) where
  unfoldable pub append_all : HeaderMap → HeaderMap → Result HeaderMap
  append_all map [] = ok map
  append_all map ((n, v) ∷ raw) = do
    name ← ok_or http_format (headers.name_from_bytes n)
    value ← ok_or http_format (headers.value_from_bytes v)
    append_all (headers.append map name value) raw

  unfoldable pub headers_from_httparse : HeaderMap → Result HeaderMap
  unfolding append_all
  headers_from_httparse raw = append_all [] raw

  unfoldable pub request_from_httparse : RawRequest → Result Request
  request_from_httparse raw = do
    method ← or_panic raw.method
    if not (same_bytes method (codes "GET")) then err (protocol wrong_http_method) else (do
      version ← or_panic raw.version
      if ltb version 1 then err (protocol wrong_http_version) else (do
        map ← headers_from_httparse raw.headers
        path ← or_panic raw.path
        uri ← ok_or http_format (headers.parse_uri path)
        ok (record { method = get_method; uri = uri; version = http_11; headers = map })))

  unfoldable pub response_from_httparse : RawResponse → Result Response
  response_from_httparse raw = do
    version ← or_panic raw.version
    if ltb version 1 then err (protocol wrong_http_version) else (do
      map ← headers_from_httparse raw.headers
      code ← or_panic raw.code
      status ← ok_or http_format (headers.status_from_u16 code)
      ok (record { status = status; version = http_11; headers = map; body = none }))

  module _ (parser : Httparse) where
    unfoldable pub parse_headers : TryParse HeaderMap
    parse_headers bytes = from_parsed headers_from_httparse (parser.parse_headers max_headers bytes)

    unfoldable pub parse_request : TryParse Request
    parse_request bytes = from_parsed request_from_httparse (parser.parse_request max_headers bytes)

    unfoldable pub parse_response : TryParse Response
    parse_response bytes =
        from_parsed response_from_httparse (parser.parse_response max_headers bytes)
