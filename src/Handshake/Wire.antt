-- ===== src/Handshake/Wire.antt =====
-- What stands on the wire of a handshake, said without the code that writes it: a first line, a line
-- for each field, and an empty line.
use tungstenite_rs.Prelude.{◌≡◌, refl, sym, true, [], ◌∷◌, ◌++◌, append_assoc}
use tungstenite_rs.Prelude.Text.{codes}
use mathlib.Core.List.{Memᴰ}
use tungstenite_rs.Types.{HeaderMap}
use tungstenite_rs.Deflate.Text.{Bytes, eq_ignore_ascii_case}
use tungstenite_rs.Handshake.Http.{Headers}

unfoldable pub fields_text : HeaderMap → Bytes
fields_text [] = []
fields_text ((name, value) ∷ fields) = name ++ codes ": " ++ value ++ 13 ∷ 10 ∷ fields_text fields

unfoldable pub written_request : Bytes → HeaderMap → Bytes
unfolding fields_text
written_request path fields =
    codes "GET "
    ++ path
    ++ codes " "
    ++ codes "HTTP/1.1"
    ++ 13 ∷ 10 ∷ (fields_text fields ++ 13 ∷ 10 ∷ [])

unfoldable pub written_response : Bytes → HeaderMap → Bytes
unfolding fields_text
written_response status fields =
    codes "HTTP/1.1 " ++ status ++ 13 ∷ 10 ∷ (fields_text fields ++ 13 ∷ 10 ∷ [])

-- A field of this name, in any case of its letters, with this value is one of those.
pub record IsField (fields : HeaderMap) (name value : Bytes) : Type 0 where
  pub spelled : Bytes
  pub is_among : Memᴰ (spelled, value) fields
  pub same_name : eq_ignore_ascii_case spelled name ≡ true

-- Two header maps give the same values for every name.
pub record SameFields (headers : Headers) (a b : HeaderMap) : Type 0 where
  pub same_get : (name : Bytes) → headers.get a name ≡ headers.get b name
  pub same_get_all : (name : Bytes) → headers.get_all a name ≡ headers.get_all b name

pub fields_text-append : (a b : HeaderMap) → fields_text (a ++ b) ≡ fields_text a ++ fields_text b
unfolding fields_text
fields_text-append [] b = refl
fields_text-append ((name, value) ∷ a) b =
    rw (fields_text-append a b)
      (sym (append_assoc (name ++ codes ": " ++ value) (13 ∷ 10 ∷ fields_text a) (fields_text b)))
