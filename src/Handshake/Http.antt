-- ===== src/Handshake/Http.antt =====
-- What the handshake uses of the `http` and `httparse` crates, SHA-1 and Base64: parameters, with
-- what their documentation promises (`Lawful`).
use tungstenite_rs.Prelude.{
  ℕ, ◌≤◌, ◌≡◌, Bool, true, false, Option, none, some, List, [], ◌∷◌, ◌++◌, length, is_some,
  if◌then◌else◌, ◌⊎◌,
}
use mathlib.Core.List.{Memᴰ}
use tungstenite_rs.Types.{HeaderMap, Method, get_method, other_method, Version, http_09, http_10}
use tungstenite_rs.Deflate.Text.{Bytes, eq_ignore_ascii_case}
use tungstenite_rs.Deflate.Table.{all_visible}

-- `HeaderMap`, `HeaderValue` and `StatusCode`; an operation gives none for its error;
-- also the constructors of `HeaderName` and of `Uri`. `remove` gives
-- the first value of a name, and the map without the name.
pub record Headers : Type 0 where
  pub get : HeaderMap → Bytes → Option Bytes
  pub get_all : HeaderMap → Bytes → List Bytes
  pub append : HeaderMap → Bytes → Bytes → HeaderMap
  pub remove : HeaderMap → Bytes → Option Bytes × HeaderMap
  pub to_str : Bytes → Option Bytes
  pub from_str : Bytes → Option Bytes
  pub name_from_bytes : Bytes → Option Bytes
  pub value_from_bytes : Bytes → Option Bytes
  pub parse_uri : Bytes → Option Bytes
  pub status_from_u16 : ℕ → Option ℕ
  pub status_text : ℕ → Bytes
  pub is_success : ℕ → Bool
  pub is_redirection : ℕ → Bool

unfoldable pub contains_key : Headers → HeaderMap → Bytes → Bool
contains_key headers map name = is_some (headers.get map name)

pub record Lawful (headers : Headers) : Type 0 where
  pub get_empty : (name : Bytes) → headers.get [] name ≡ none
  pub get_all_empty : (name : Bytes) → headers.get_all [] name ≡ []
  pub get_first :
      (map : HeaderMap) (n name value : Bytes)
      → eq_ignore_ascii_case n name ≡ true
      → headers.get map name ≡ none
      → headers.get (headers.append map n value) name ≡ some value
  pub get_later :
      (map : HeaderMap) (n name value old : Bytes)
      → headers.get map name ≡ some old
      → headers.get (headers.append map n value) name ≡ some old
  pub get_other :
      (map : HeaderMap) (n name value : Bytes)
      → eq_ignore_ascii_case n name ≡ false
      → headers.get (headers.append map n value) name ≡ headers.get map name
  pub get_all_same :
      (map : HeaderMap) (n name value : Bytes)
      → eq_ignore_ascii_case n name ≡ true
      → headers.get_all (headers.append map n value) name ≡ headers.get_all map name ++ value ∷ []
  pub get_all_other :
      (map : HeaderMap) (n name value : Bytes)
      → eq_ignore_ascii_case n name ≡ false
      → headers.get_all (headers.append map n value) name ≡ headers.get_all map name
  pub get_all_none :
      (map : HeaderMap) (name : Bytes) → headers.get map name ≡ none → headers.get_all map name ≡ []
  pub get_removed :
      (map : HeaderMap) (name : Bytes) → (headers.remove map name).0 ≡ headers.get map name
  pub get_left :
      (map : HeaderMap) (n name : Bytes)
      → eq_ignore_ascii_case n name ≡ false
      → headers.get (headers.remove map n).1 name ≡ headers.get map name
  pub entry_left :
      (map : HeaderMap) (name : Bytes) (entry : Bytes × Bytes)
      → Memᴰ entry (headers.remove map name).1
      → Memᴰ entry map × (eq_ignore_ascii_case name entry.0 ≡ false)
  pub entry_append :
      (map : HeaderMap) (n value : Bytes) (entry : Bytes × Bytes)
      → Memᴰ entry (headers.append map n value)
      → Memᴰ entry map ⊎ (entry.1 ≡ value)
  pub get_entry :
      (map : HeaderMap) (name value : Bytes)
      → headers.get map name ≡ some value
      → (n : Bytes) × Memᴰ (n, value) map × (eq_ignore_ascii_case n name ≡ true)
  pub to_str_visible : (text : Bytes) → all_visible text ≡ true → headers.to_str text ≡ some text
  pub from_str_visible :
      (text : Bytes) → all_visible text ≡ true → headers.from_str text ≡ some text

-- `Uri`: the parts of a URI, if it has them, and the URI as `Request::builder` takes it.
pub record Uris : Type 0 where
  pub scheme_str : Bytes → Option Bytes
  pub authority : Bytes → Option Bytes
  pub host : Bytes → Option Bytes
  pub port_u16 : Bytes → Option ℕ
  pub path_and_query : Bytes → Option Bytes

-- `str::split`: the parts between such bytes, of which `part` is the first's beginning.
unfoldable pub split_on : (ℕ → Bool) → Bytes → Bytes → List Bytes
split_on cuts part [] = part ∷ []
split_on cuts part (b ∷ bs) =
    let next = split_on cuts [] bs in
    let grown = split_on cuts (part ++ b ∷ []) bs in if cuts b then part ∷ next else grown

-- One of the parts is the word, in any case of its letters.
unfoldable pub any_word : Bytes → List Bytes → Bool
any_word word [] = false
any_word word (part ∷ parts) = if eq_ignore_ascii_case part word then true else any_word word parts

abbrev pub is_get : Method → Bool
is_get get_method = true
is_get (other_method name) = false

-- The requests and responses of `httparse`; a field is none that has not been parsed.
pub record RawRequest : Type 0 where
  pub method : Option Bytes
  pub path : Option Bytes
  pub version : Option ℕ
  pub headers : HeaderMap

pub record RawResponse : Type 0 where
  pub version : Option ℕ
  pub code : Option ℕ
  pub headers : HeaderMap

-- `Status`, or an error.
pub data Parsed (A : Type 0) : Type 0 where
  complete : ℕ → A → Parsed A
  partial too_many malformed : Parsed A

-- `parse` and `parse_headers`, for so many headers at most.
pub record Httparse : Type 0 where
  pub parse_request : ℕ → Bytes → Parsed RawRequest
  pub parse_response : ℕ → Bytes → Parsed RawResponse
  pub parse_headers : ℕ → Bytes → Parsed HeaderMap

pub record LawfulParse (parser : Httparse) : Type 0 where
  pub request_fits :
      (n size : ℕ) (bytes : Bytes) (raw : RawRequest)
      → parser.parse_request n bytes ≡ complete size raw
      → size ≤ length bytes
  pub request_whole :
      (n size : ℕ) (bytes : Bytes) (raw : RawRequest)
      → parser.parse_request n bytes ≡ complete size raw
      → (is_some raw.method ≡ true) × (is_some raw.path ≡ true) × (is_some raw.version ≡ true)
  pub response_fits :
      (n size : ℕ) (bytes : Bytes) (raw : RawResponse)
      → parser.parse_response n bytes ≡ complete size raw
      → size ≤ length bytes
  pub response_whole :
      (n size : ℕ) (bytes : Bytes) (raw : RawResponse)
      → parser.parse_response n bytes ≡ complete size raw
      → (is_some raw.version ≡ true) × (is_some raw.code ≡ true)

-- `Sha1` and `data_encoding::BASE64`; `decode` gives none for its error.
pub record Digest : Type 0 where
  pub sha1 : Bytes → Bytes
  pub encode : Bytes → Bytes
  pub decode : Bytes → Option Bytes

-- `Version`s are in order.
unfoldable pub is_before_11 : Version → Bool
is_before_11 http_09 = true
is_before_11 http_10 = true
is_before_11 _ = false
