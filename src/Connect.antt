-- ===== src/Connect.antt =====
-- src/client.rs: the requests that a client connects with, and connecting.
pub mod Upgrading
pub mod Meeting
pub mod Redirects
use tungstenite_rs.Prelude.{
  ℕ, Bool, true, false, Option, none, some, List, [], ◌∷◌, ◌++◌, ◌==◌, if◌then◌else◌, is_empty,
}
use tungstenite_rs.Prelude.Text.{codes}
use tungstenite_rs.Types.{
  url, http_format, no_host_name, empty_host_name, HeaderMap, Request, get_method, http_11,
}
use tungstenite_rs.Result.{Result, ok, err}
use tungstenite_rs.Result.Fallible.{◌>>=◌, ok_or}
use tungstenite_rs.Deflate.Text.{Bytes}
use tungstenite_rs.Handshake.Http.{Headers, Uris, Digest}
use tungstenite_rs.Handshake.Start.{generate_key}

-- `authority.find('@')`, and what stands behind it.
unfoldable pub behind_at : Bytes → Option Bytes
behind_at [] = none
behind_at (b ∷ bs) = if b == b'@' then some bs else behind_at bs

unfoldable pub host_of : Bytes → Bytes
host_of authority = elim (behind_at authority) [ none ↦ authority | some host ↦ host ]

pub record ClientRequestBuilder : Type 0 where
  pub uri : Bytes
  pub additional_headers : HeaderMap
  pub subprotocols : List Bytes

unfoldable pub new : Bytes → ClientRequestBuilder
new uri = record { uri = uri; additional_headers = []; subprotocols = [] }

unfoldable pub with_header : ClientRequestBuilder → Bytes → Bytes → ClientRequestBuilder
with_header b name value = record b {
  additional_headers = b.additional_headers ++ (name, value) ∷ [];
}

unfoldable pub with_sub_protocol : ClientRequestBuilder → Bytes → ClientRequestBuilder
with_sub_protocol b protocol = record b { subprotocols = b.subprotocols ++ protocol ∷ [] }

-- `join(", ")`
unfoldable pub join : List Bytes → Bytes
join [] = []
join (t ∷ []) = t
join (t ∷ ts) = let rest = join ts in t ++ codes ", " ++ rest

module _ (headers : Headers) where
  -- The five fields that the builder is given.
  unfoldable pub upgrade_headers : Bytes → Bytes → HeaderMap
  upgrade_headers host key =
      headers.append
        (headers.append
          (headers.append
            (headers.append (headers.append [] (codes "Host") host) (codes "Connection")
              (codes "Upgrade"))
            (codes "Upgrade") (codes "websocket"))
          (codes "Sec-WebSocket-Version") (codes "13"))
        (codes "Sec-WebSocket-Key") key

  -- A builder that is given no version takes HTTP/1.1, and checks the values it is given.
  unfoldable pub build_request : Bytes → Bytes → Bytes → Result Request
  unfolding upgrade_headers
  build_request uri host key = do
    host_value ← ok_or http_format (headers.from_str host)
    key_value ← ok_or http_format (headers.from_str key)
    ok (record {
      method = get_method;
      uri = uri;
      version = http_11;
      headers = upgrade_headers host_value key_value;
    })

  unfoldable pub append_headers : HeaderMap → HeaderMap → Result HeaderMap
  append_headers map [] = ok map
  append_headers map ((n, v) ∷ more) = do
    name ← ok_or http_format (headers.name_from_bytes n)
    value ← ok_or http_format (headers.from_str v)
    append_headers (headers.append map name value) more

  unfoldable pub append_subprotocols : HeaderMap → List Bytes → Result HeaderMap
  unfolding join
  append_subprotocols map [] = ok map
  append_subprotocols map (t ∷ ts) = do
    value ← ok_or http_format (headers.from_str (join (t ∷ ts)))
    ok (headers.append map (codes "Sec-WebSocket-Protocol") value)

  module _ (uris : Uris) (digest : Digest) where
    -- `Uri::into_client_request`, with the bytes that `generate_key` takes.
    unfoldable pub into_client_request : Bytes → Bytes → Result Request
    unfolding build_request host_of
    into_client_request random uri = do
      authority ← ok_or (url no_host_name) (uris.authority uri)
      if is_empty (host_of authority)
          then err (url empty_host_name)
          else build_request uri (host_of authority) (generate_key digest random)

    -- `str::into_client_request`
    unfoldable pub text_into_client_request : Bytes → Bytes → Result Request
    text_into_client_request random text = do
      uri ← ok_or http_format (headers.parse_uri text)
      into_client_request random uri

    -- `ClientRequestBuilder::into_client_request`
    unfoldable pub builder_request : Bytes → ClientRequestBuilder → Result Request
    builder_request random b = do
      request ← into_client_request random b.uri
      map ← append_headers request.headers b.additional_headers
      all ← append_subprotocols map b.subprotocols
      ok (record request { headers = all })
