-- ===== src/Handshake/Parsing.antt =====
-- The parsers of a handshake (src/handshake/headers.rs, src/handshake/server.rs and
-- src/handshake/client.rs) never panic, and use no more bytes than there are.
use tungstenite_rs.Prelude.{
  ℕ, ◌≤◌, ◌≡◌, refl, true, Option, none, some, [], ◌∷◌, length, is_some, arith,
}
use tungstenite_rs.Types.{HeaderMap}
use tungstenite_rs.Result.{Result, ok, err, panic, or_panic}
use tungstenite_rs.Result.Fallible.{◌>>=◌, ok_or, is_total, bind_total, ok_or_total, total-panic}
use tungstenite_rs.Handshake.Http.{
  Headers, Httparse, LawfulParse, Parsed, complete, partial, too_many, malformed, RawRequest,
  RawResponse,
}
use tungstenite_rs.Handshake.Parse.{
  max_headers, parsed_object, from_parsed, append_all, headers_from_httparse, request_from_httparse,
  response_from_httparse, parse_request, parse_response,
}
use tungstenite_rs.Handshake.Reading.{IsParser}

or_panic_total : {A : Type 0} (o : Option A) → is_some o ≡ true → is_total (or_panic o) ≡ true
or_panic_total none h = absurd (cc)
or_panic_total (some a) h = refl

module _ {A B : Type 0} (build : A → Result B) where
  abbrev sized : ℕ → B → Result (Option (ℕ × B))
  sized n b = ok (some (n, b))

  from_parsed_total :
      (p : Parsed A)
      → ((size : ℕ) (raw : A) → p ≡ complete size raw → is_total (build raw) ≡ true)
      → is_total (from_parsed build p) ≡ true
  unfolding from_parsed parsed_object
  from_parsed_total (complete size raw) h = bind_total (build raw) _ (h size raw refl) (λ b. refl)
  from_parsed_total partial h = refl
  from_parsed_total too_many h = refl
  from_parsed_total malformed h = refl

  -- The size is the parser's.
  from_parsed_size :
      (p : Parsed A) (limit size : ℕ) (b : B)
      → ((n : ℕ) (raw : A) → p ≡ complete n raw → n ≤ limit)
      → from_parsed build p ≡ ok (some (size, b))
      → size ≤ limit
  unfolding from_parsed parsed_object
  from_parsed_size (complete n raw) limit size b h e = by_built (build raw) e
    where
      by_built : (r : Result B) → (r >>= sized n) ≡ ok (some (size, b)) → size ≤ limit
      by_built (ok obj) q = ground (arith, h n raw refl)
      by_built (err error) q = absurd (cc)
      by_built panic q = absurd (cc)
  from_parsed_size partial limit size b h e = absurd (cc)
  from_parsed_size too_many limit size b h e = absurd (cc)
  from_parsed_size malformed limit size b h e = absurd (cc)

module _ (headers : Headers) where
  append_all_total : (map raw : HeaderMap) → is_total (append_all headers map raw) ≡ true
  unfolding append_all
  append_all_total map [] = refl
  append_all_total map ((n, v) ∷ raw) =
      bind_total (ok_or _ (headers.name_from_bytes n)) _ (ok_or_total _ _) (λ name.
        bind_total (ok_or _ (headers.value_from_bytes v)) _ (ok_or_total _ _)
          (λ value. append_all_total (headers.append map name value) raw))

  request_total :
      (raw : RawRequest)
      → is_some raw.method ≡ true
      → is_some raw.path ≡ true
      → is_some raw.version ≡ true
      → is_total (request_from_httparse headers raw) ≡ true
  unfolding request_from_httparse headers_from_httparse
  request_total raw m p v = ground (arith, append_all_total [] raw.headers, m, p, v)

  response_total :
      (raw : RawResponse)
      → is_some raw.version ≡ true
      → is_some raw.code ≡ true
      → is_total (response_from_httparse headers raw) ≡ true
  unfolding response_from_httparse headers_from_httparse
  response_total raw v c = ground (arith, append_all_total [] raw.headers, v, c)

  module _ (parser : Httparse) (lawful : LawfulParse parser) where
    -- Parsing a request never panics, and it takes no more bytes than there are.
    pub parse_request-IsParser : IsParser (parse_request headers parser)
    unfolding parse_request
    parse_request-IsParser = record {
      no_panic = λ bytes. total-panic (parse_request headers parser bytes) (
          from_parsed_total (request_from_httparse headers) (parser.parse_request max_headers bytes)
            (λ size raw e.
              let (m, p, v) = lawful.request_whole max_headers size bytes raw e in
              request_total raw m p v));
      size_fits = λ bytes size obj.
          from_parsed_size (request_from_httparse headers) (parser.parse_request max_headers bytes)
            (length bytes) size obj (λ n raw. lawful.request_fits max_headers n bytes raw);
    }

    -- Parsing a response never panics, and it takes no more bytes than there are.
    pub parse_response-IsParser : IsParser (parse_response headers parser)
    unfolding parse_response
    parse_response-IsParser = record {
      no_panic = λ bytes. total-panic (parse_response headers parser bytes) (
          from_parsed_total (response_from_httparse headers)
            (parser.parse_response max_headers bytes)
            (λ size raw e.
              let (v, c) = lawful.response_whole max_headers size bytes raw e in
              response_total raw v c));
      size_fits = λ bytes size obj.
          from_parsed_size (response_from_httparse headers)
            (parser.parse_response max_headers bytes) (length bytes) size obj
            (λ n raw. lawful.response_fits max_headers n bytes raw);
    }
