-- ===== src/Handshake/Generated.antt =====
-- A client's request with the fields that it needs is written (`generate_request` of
-- src/handshake/client.rs).
use tungstenite_rs.Prelude.{
  ◌≡◌, refl, sym, ap, subst, append_assoc, ◌∙◌, Bool, true, false, not, ◌&&◌, some, List, [], ◌∷◌,
  ◌++◌, arith,
}
use tungstenite_rs.Prelude.Text.{codes}
use mathlib.Core.List.{Memᴰ}
use mathlib.Core.List.Memᴰ.{head, tail}
use tungstenite_rs.Types.{HeaderMap, Request, http_11}
use tungstenite_rs.Result.{ok}
use tungstenite_rs.Deflate.Text.{Bytes, eq_ignore_ascii_case}
use tungstenite_rs.Deflate.Table.{all_visible}
use tungstenite_rs.Handshake.{version_as_str}
use tungstenite_rs.Handshake.Http.{Headers, Lawful, Uris, any_word}
use tungstenite_rs.Handshake.Wire.{fields_text, written_request, fields_text-append}
use tungstenite_rs.Handshake.Start.{
  websocket_headers, key_header_name, header_line, written_name, required, write_required,
  write_others, generate_request,
}

-- The names differ from each other.
abbrev differs_from : Bytes → List Bytes → Bool
differs_from name [] = true
differs_from name (n ∷ names) = not (eq_ignore_ascii_case name n) && differs_from name names

abbrev are_distinct : List Bytes → Bool
are_distinct [] = true
are_distinct (name ∷ names) = differs_from name names && are_distinct names

abbrev pub names_of : HeaderMap → List Bytes
names_of [] = []
names_of ((name, value) ∷ fields) = name ∷ names_of fields

-- None of the names is this one.
abbrev pub are_others : List Bytes → Bytes → Bool
are_others [] name = true
are_others (n ∷ names) name = not (eq_ignore_ascii_case n name) && are_others names name

-- The fields with their names as `generate_request` spells them.
abbrev pub respelled : HeaderMap → HeaderMap
respelled [] = []
respelled ((name, value) ∷ map) = (written_name name, value) ∷ respelled map

name_among :
    (field : Bytes × Bytes) (fields : HeaderMap)
    → Memᴰ field fields
    → Memᴰ field.0 (names_of fields)
name_among field [] m = elim m [ ]
name_among field ((n, v) ∷ fields) (head e) = head (ap (λ t. t.0) e)
name_among field ((n, v) ∷ fields) (tail m) = tail (name_among field fields m)

differs_from_sound :
    (name n : Bytes) (names : List Bytes)
    → differs_from name names ≡ true
    → Memᴰ n names
    → eq_ignore_ascii_case name n ≡ false
differs_from_sound name n [] h m = elim m [ ]
differs_from_sound name n (x ∷ names) h (head e) = rw (e) (ground arith)
differs_from_sound name n (x ∷ names) h (tail m) = differs_from_sound name n names (ground arith) m

websocket_headers_distinct : are_distinct websocket_headers ≡ true
unfolding eq_ignore_ascii_case
websocket_headers_distinct = refl

no_word :
    (word : Bytes) (names : List Bytes)
    → ((name : Bytes) → Memᴰ name names → eq_ignore_ascii_case name word ≡ false)
    → any_word word names ≡ false
unfolding any_word
no_word word [] h = refl
no_word word (name ∷ names) h =
    rw (h name (head refl), any_word) (no_word word names (λ n m. h n (tail m)))

both : (a b : Bool) → (a && b) ≡ true → (a ≡ true) × (b ≡ true)
both a b h = ground arith

module _ (headers : Headers) (lawful : Lawful headers) where
  -- Each of these fields is there, and its value is visible.
  unfoldable pub HasFields : HeaderMap → HeaderMap → Type 0
  HasFields map fields =
      (field : Bytes × Bytes)
      → Memᴰ field fields
      → (headers.get map field.0 ≡ some field.1) × (all_visible field.1 ≡ true)

  -- They are written, and what is left are the other fields.
  record Written (map fields : HeaderMap) : Type 0 where
    left : HeaderMap
    is_written : write_required headers (names_of fields) map ≡ ok (fields_text fields, left)
    others :
        (entry : Bytes × Bytes)
        → Memᴰ entry left
        → (name : Bytes) → Memᴰ name (names_of fields)
        → eq_ignore_ascii_case name entry.0 ≡ false
    within : (entry : Bytes × Bytes) → Memᴰ entry left → Memᴰ entry map
    same_get :
        (name : Bytes)
        → are_others (names_of fields) name ≡ true
        → headers.get left name ≡ headers.get map name

  HasFields-Written :
      (map fields : HeaderMap)
      → are_distinct (names_of fields) ≡ true
      → HasFields map fields
      → Written map fields
  unfolding HasFields write_required required fields_text
  HasFields-Written map [] d h = record {
    left = map;
    is_written = refl;
    others = λ entry m name k. elim k [ ];
    within = λ entry m. m;
    same_get = λ name o. refl;
  }
  HasFields-Written map ((name, value) ∷ fields) d h =
      let (has, seen) = h (name, value) (head refl) in
      let (apart, distinct) = both (differs_from name (names_of fields)) _ d in
      let w = HasFields-Written (headers.remove map name).1 fields distinct (rest apart) in
      record {
        left = w.left;
        is_written =
            rw (lawful.get_removed map name ∙ has, required)
              (simp (lawful.to_str_visible value seen, w.is_written)
                (ap (λ t. ok (t, w.left)) (line name value (fields_text fields))));
        others = λ entry m n k. by_name w entry m n k;
        within = λ entry m. (lawful.entry_left map name entry (w.within entry m)).0;
        same_get = λ n o.
            let (other, rest_other) = both (not (eq_ignore_ascii_case name n)) _ o in
            w.same_get n rest_other ∙ lawful.get_left map name n (ground arith);
      }
    where
      line : (n v rest : Bytes) → header_line n v ++ rest ≡ n ++ codes ": " ++ v ++ 13 ∷ 10 ∷ rest
      line n v rest = append_assoc (n ++ codes ": " ++ v) (13 ∷ 10 ∷ []) rest

      rest :
          differs_from name (names_of fields) ≡ true → HasFields (headers.remove map name).1 fields
      rest apart field m =
          let (e, k) = h field (tail m) in
          (
            lawful.get_left map name field.0 (
                  differs_from_sound name field.0 (names_of fields) apart
                    (name_among field fields m))
                ∙ e,
            k,
          )

      by_name :
          (w : Written (headers.remove map name).1 fields) (entry : Bytes × Bytes)
          → Memᴰ entry w.left
          → (n : Bytes) → Memᴰ n (name ∷ names_of fields)
          → eq_ignore_ascii_case n entry.0 ≡ false
      by_name w entry m n (head e) = rw (e) (lawful.entry_left map name entry (w.within entry m)).1
      by_name w entry m n (tail k) = w.others entry m n k

  write_others-Written :
      (map : HeaderMap)
      → ((entry : Bytes × Bytes) → Memᴰ entry map → any_word entry.0 websocket_headers ≡ false)
      → write_others headers map ≡ ok (fields_text (respelled map))
  unfolding write_others fields_text
  write_others-Written [] h = refl
  write_others-Written ((name, value) ∷ map) h =
      rw (h (name, value) (head refl), write_others)
        (rw (write_others-Written map (λ entry m. h entry (tail m)), write_others)
          (ap ok (
            append_assoc (written_name name ++ codes ": " ++ value) (13 ∷ 10 ∷ [])
              (fields_text (respelled map)))))

  -- What a request is written as: its path, these fields, and the others.
  pub record Generated (uris : Uris) (request : Request) (path key : Bytes) (fields : HeaderMap)
      : Type 0 where
    pub others : HeaderMap
    pub is_generated :
        generate_request headers uris request
        ≡ ok (written_request path (fields ++ respelled others), key)
    pub same_get :
        (name : Bytes)
        → are_others (names_of fields) name ≡ true
        → headers.get others name ≡ headers.get request.headers name

  -- A request of HTTP/1.1 with a path and the five fields, each with a visible value, is written,
  -- and gives its key: no field stands in it twice, so that the check for duplicates never refuses.
  pub generate_request-Generated :
      (uris : Uris) (request : Request) (path key : Bytes) (fields : HeaderMap)
      → uris.path_and_query request.uri ≡ some path
      → request.version ≡ http_11
      → names_of fields ≡ websocket_headers
      → HasFields request.headers fields
      → headers.get request.headers key_header_name ≡ some key
      → all_visible key ≡ true
      → Generated uris request path key fields
  unfolding generate_request required version_as_str written_request
  generate_request-Generated uris request path key fields at recent names have has seen =
      let w =
        HasFields-Written request.headers fields
          (ap are_distinct names ∙ websocket_headers_distinct) have in
      let e = write_others-Written w.left (λ entry m.
        no_word entry.0 websocket_headers
          (λ name k. w.others entry m name (subst (Memᴰ name) (sym names) k))) in
      let lines = ap (λ ns. write_required headers ns request.headers) (sym names) ∙ w.is_written in
      record {
        others = w.left;
        is_generated =
            rw (at, generate_request)
              (rw (recent, version_as_str)
                (rw (has, required)
                  (rw (lawful.to_str_visible key seen, generate_request)
                    (rw (lines, generate_request)
                      (rw (e, generate_request)
                        (ap
                          (λ t. ok (
                            codes "GET "
                                ++ path
                                ++ codes " "
                                ++ codes "HTTP/1.1"
                                ++ 13 ∷ 10 ∷ (t ++ 13 ∷ 10 ∷ []),
                            key,
                          ))
                          (sym (fields_text-append fields (respelled w.left)))))))));
        same_get = w.same_get;
      }
