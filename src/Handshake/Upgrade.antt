-- ===== src/Handshake/Upgrade.antt =====
-- The requests that a server takes for a handshake (`create_response` of src/handshake/server.rs).
use tungstenite_rs.Prelude.{
  ◌≡◌, refl, sym, ap, ◌∙◌, ◌↔◌, Bool, true, false, not, Option, none, some, [], if◌then◌else◌,
  arith,
}
use tungstenite_rs.Prelude.Text.{codes, same_bytes}
use tungstenite_rs.Types.{
  protocol, http_format, Request, Response, get_method, missing_sec_web_socket_key,
  invalid_sec_web_socket_key,
}
use tungstenite_rs.Result.{Result, ok, err}
use tungstenite_rs.Result.Fallible.{◌>>=◌, ok_or}
use tungstenite_rs.Deflate.Text.{Bytes, eq_ignore_ascii_case}
use tungstenite_rs.Handshake.{derive_accept_key}
use tungstenite_rs.Handshake.Http.{any_word, is_get, Headers, Digest, is_before_11}
use tungstenite_rs.Handshake.Server.{
  split_words, is_valid_sec_websocket_key, text_passes, value_passes, accept_headers,
  create_response,
}
use tungstenite_rs.Handshake.Fields.{
  IsWord, any_word-IsWord, IsWord-any_word, is_get_sound, IsNonce, key-IsNonce, IsNonce-key,
  TextHeader, text_passes-TextHeader, TextHeader-text_passes, value_passes_sound,
  value_passes_complete,
}

module _ (headers : Headers) where
  -- The 101 response, with this value for the key that the client waits for.
  abbrev pub switching_protocols : Request → Bytes → Response
  switching_protocols r value = record {
    status = 101;
    version = r.version;
    headers =
        headers.append
          (headers.append (headers.append [] (codes "Connection") (codes "Upgrade"))
            (codes "Upgrade") (codes "websocket"))
          (codes "Sec-WebSocket-Accept") value;
    body = none;
  }

module _ (headers : Headers) (digest : Digest) where
  -- What the server asks of a request, with its nonce: no Host field, the whole value of Upgrade, and
  -- the first value of Connection.
  pub record IsUpgrade (r : Request) (word : Bytes) : Type 0 where
    pub gets : r.method ≡ get_method
    pub recent : is_before_11 r.version ≡ false
    pub connection :
        TextHeader headers r.headers
          (codes "Connection")
          (λ t. IsWord (codes "Upgrade") (split_words t))
    pub upgrade :
        TextHeader headers r.headers
          (codes "Upgrade")
          (λ t. eq_ignore_ascii_case t (codes "websocket") ≡ true)
    pub version : headers.get r.headers (codes "Sec-WebSocket-Version") ≡ some (codes "13")
    pub key : headers.get r.headers (codes "Sec-WebSocket-Key") ≡ some word
    pub nonce : IsNonce digest word

  -- The tests of `create_response` in front of the key.
  record Passed (r : Request) : Type 0 where
    gets : is_get r.method ≡ true
    recent : is_before_11 r.version ≡ false
    connection :
        text_passes headers r.headers
          (codes "Connection")
          (λ t. any_word (codes "Upgrade") (split_words t))
        ≡ true
    upgrade :
        text_passes headers r.headers
          (codes "Upgrade")
          (λ t. eq_ignore_ascii_case t (codes "websocket"))
        ≡ true
    version :
        value_passes headers r.headers
          (codes "Sec-WebSocket-Version")
          (λ v. same_bytes v (codes "13"))
        ≡ true

  -- What follows the tests.
  answer_key : Request → Option Bytes → Result Response
  answer_key r given = do
    key ← ok_or (protocol missing_sec_web_socket_key) given
    if not (is_valid_sec_websocket_key digest key)
        then err (protocol invalid_sec_web_socket_key)
        else (do
          map ← accept_headers headers digest key
          ok (record { status = 101; version = r.version; headers = map; body = none }))

  create_response-Passed :
      (r : Request) (answer : Response)
      → create_response headers digest r ≡ ok answer
      → Passed r × (answer_key r (headers.get r.headers (codes "Sec-WebSocket-Key")) ≡ ok answer)
  unfolding create_response answer_key
  create_response-Passed r answer h = ground arith

  Passed-create_response :
      (r : Request) (answer : Response)
      → Passed r
      → answer_key r (headers.get r.headers (codes "Sec-WebSocket-Key")) ≡ ok answer
      → create_response headers digest r ≡ ok answer
  unfolding create_response answer_key
  Passed-create_response r answer p h =
      ground (arith, p.gets, p.recent, p.connection, p.upgrade, p.version, h)

  -- The response that a nonce is answered with.
  switching : Request → Bytes → Result Response
  switching r key = do
    map ← accept_headers headers digest key
    ok (record { status = 101; version = r.version; headers = map; body = none })

  answer_key_sound :
      (r : Request) (given : Option Bytes) (answer : Response)
      → answer_key r given ≡ ok answer
      → (key : Bytes) × (given ≡ some key) × IsNonce digest key × (switching r key ≡ ok answer)
  unfolding answer_key switching
  answer_key_sound r none answer h = absurd (cc)
  answer_key_sound r (some key) answer h = by_valid (is_valid_sec_websocket_key digest key) refl h
    where
      by_valid :
          (b : Bool)
          → is_valid_sec_websocket_key digest key ≡ b
          → (if not b then err (protocol invalid_sec_web_socket_key) else switching r key)
            ≡ ok answer
          → (k : Bytes) × (some key ≡ some k) × IsNonce digest k × (switching r k ≡ ok answer)
      by_valid true e k = (key, refl, key-IsNonce digest key e, k)
      by_valid false e k = absurd (cc)

  -- The response to an upgrade: the 101 response with the digest of the nonce.
  pub data AnswersUpgrade (r : Request) (answer : Response) : Type 0 where
    switches :
        (key value : Bytes)
        → IsUpgrade r key
        → headers.from_str (derive_accept_key digest.sha1 digest.encode key) ≡ some value
        → answer ≡ switching_protocols headers r value
        → AnswersUpgrade r answer

  switching_sound :
      (r : Request) (key : Bytes) (answer : Response)
      → IsUpgrade r key
      → switching r key ≡ ok answer
      → AnswersUpgrade r answer
  unfolding switching accept_headers
  switching_sound r key answer u h =
      by_value (headers.from_str (derive_accept_key digest.sha1 digest.encode key)) refl h
    where
      by_value :
          (o : Option Bytes)
          → headers.from_str (derive_accept_key digest.sha1 digest.encode key) ≡ o
          → ((ok_or http_format o >>= λ value. ok (switching_protocols headers r value).headers)
              >>= λ map.
                  ok (record { status = 101; version = r.version; headers = map; body = none }))
            ≡ ok answer
          → AnswersUpgrade r answer
      by_value none e k = absurd (cc)
      by_value (some value) e k = switches key value u e (ground arith)

  switching_complete :
      (r : Request) (key value : Bytes)
      → headers.from_str (derive_accept_key digest.sha1 digest.encode key) ≡ some value
      → switching r key ≡ ok (switching_protocols headers r value)
  unfolding switching accept_headers
  switching_complete r key value e = rw (e, switching) refl

  -- A server answers a request exactly when it is a GET of at least HTTP/1.1 whose first Connection
  -- field has the word upgrade among its words and whose Upgrade field is websocket as a whole, both in
  -- any case, with version 13 and a key of 24 characters that stand for 16 bytes, whose digest is a
  -- value of a header; and the answer is then the 101 response with that value for the client to
  -- check. No other field is looked at.
  pub create_response-iff-AnswersUpgrade :
      (r : Request) (answer : Response)
      → (create_response headers digest r ≡ ok answer) ↔ AnswersUpgrade r answer
  unfolding answer_key accept_headers switching
  create_response-iff-AnswersUpgrade r answer = (sound, complete)
    where
      sound : create_response headers digest r ≡ ok answer → AnswersUpgrade r answer
      sound h =
          let (p, rest) = create_response-Passed r answer h in
          let (key, has, valid, e) =
            answer_key_sound r (headers.get r.headers (codes "Sec-WebSocket-Key")) answer rest in
          switching_sound r key answer
            (record {
              gets = is_get_sound r.method p.gets;
              recent = p.recent;
              connection =
                  text_passes-TextHeader headers r.headers (codes "Connection") _ _
                    (λ t. any_word-IsWord (codes "Upgrade") (split_words t)) p.connection;
              upgrade =
                  text_passes-TextHeader headers r.headers (codes "Upgrade") _ _ (λ t h. h)
                    p.upgrade;
              version =
                  value_passes_sound headers r.headers (codes "Sec-WebSocket-Version") (codes "13")
                    p.version;
              key = has;
              nonce = valid;
            })
            e

      complete : AnswersUpgrade r answer → create_response headers digest r ≡ ok answer
      complete (switches key value u e same) =
          Passed-create_response r answer
            (record {
              gets = ap is_get u.gets;
              recent = u.recent;
              connection =
                  TextHeader-text_passes headers r.headers (codes "Connection") _ _
                    (λ t. IsWord-any_word (codes "Upgrade") (split_words t)) u.connection;
              upgrade =
                  TextHeader-text_passes headers r.headers (codes "Upgrade") _ _ (λ t h. h)
                    u.upgrade;
              version =
                  value_passes_complete headers r.headers (codes "Sec-WebSocket-Version")
                    (codes "13") u.version;
            })
            (rw (u.key, answer_key)
              (rw (IsNonce-key digest key u.nonce, answer_key)
                (switching_complete r key value e ∙ ap ok (sym same))))
