-- ===== src/Handshake/Verified.antt =====
-- What a client accepts as the answer to its handshake, and the connection that it opens
-- (src/handshake/client.rs).
use tungstenite_rs.Prelude.{
  ◌≡◌, refl, sym, ap, ◌∙◌, subst, ◌↔◌, Bool, true, false, Option, none, some, List, [], ◌∷◌,
  if◌then◌else◌, arith,
}
use tungstenite_rs.Prelude.Text.{codes, same_bytes, same_bytes_sound, same_bytes_refl}
use mathlib.Core.List.{Memᴰ}
use mathlib.Core.List.Memᴰ.{head, tail}
use tungstenite_rs.Types.{
  HeaderMap, Response, utf8, protocol, sec_web_socket_sub_protocol_error, invalid_sub_protocol,
}
use tungstenite_rs.Result.{Result, ok, err}
use tungstenite_rs.Deflate.Text.{Bytes, eq_ignore_ascii_case}
use tungstenite_rs.Handshake.Http.{Headers}
use tungstenite_rs.Handshake.Client.{
  VerifyData, contains_text, has_token, accepts_key, verify_subprotocol, verify_response,
}

contains_text-Mem : (text : Bytes) (ts : List Bytes) → contains_text text ts ≡ true → Memᴰ text ts
unfolding contains_text
contains_text-Mem text [] h = absurd (cc)
contains_text-Mem text (t ∷ ts) h = by_head (same_bytes t text) refl h (contains_text-Mem text ts)
  where
    by_head :
        (b : Bool)
        → same_bytes t text ≡ b
        → (if b then true else contains_text text ts) ≡ true
        → (contains_text text ts ≡ true → Memᴰ text ts)
        → Memᴰ text (t ∷ ts)
    by_head true e k rest = head (sym (same_bytes_sound t text e))
    by_head false e k rest = tail (rest k)

Mem-contains_text : (text : Bytes) (ts : List Bytes) → Memᴰ text ts → contains_text text ts ≡ true
unfolding contains_text
Mem-contains_text text [] m = elim m [ ]
Mem-contains_text text (t ∷ ts) (head e) =
    rw (subst (λ u. same_bytes u text ≡ true) e (same_bytes_refl text), contains_text) refl
Mem-contains_text text (t ∷ ts) (tail k) = ground (arith, Mem-contains_text text ts k)

module _ (headers : Headers) where
  -- The header is there, is a text, and is the token in any case of its letters.
  pub data HasToken (map : HeaderMap) (name word : Bytes) : Type 0 where
    token :
        (value text : Bytes)
        → headers.get map name ≡ some value
        → headers.to_str value ≡ some text
        → eq_ignore_ascii_case text word ≡ true
        → HasToken map name word

  -- No subprotocol was asked for or returned, or one of those asked for was returned.
  pub data Subprotocol (map : HeaderMap) : Option (List Bytes) → Type 0 where
    without : headers.get map (codes "Sec-WebSocket-Protocol") ≡ none → Subprotocol map none
    one_asked :
        (value text : Bytes) (asked : List Bytes)
        → headers.get map (codes "Sec-WebSocket-Protocol") ≡ some value
        → headers.to_str value ≡ some text
        → Memᴰ text asked
        → Subprotocol map (some asked)

  -- What the client asks of the response.
  pub record IsVerified (d : VerifyData) (r : Response) : Type 0 where
    pub switches : r.status ≡ 101
    pub upgrade : HasToken r.headers (codes "Upgrade") (codes "websocket")
    pub connection : HasToken r.headers (codes "Connection") (codes "Upgrade")
    pub accept : headers.get r.headers (codes "Sec-WebSocket-Accept") ≡ some d.accept_key
    pub subprotocol : Subprotocol r.headers d.subprotocols

  has_token-HasToken :
      (map : HeaderMap) (name word : Bytes)
      → has_token headers map name word ≡ true
      → HasToken map name word
  unfolding has_token
  has_token-HasToken map name word h = by_value (headers.get map name) refl h
    where
      by_text :
          (value : Bytes) (o : Option Bytes)
          → headers.get map name ≡ some value
          → headers.to_str value ≡ o
          → elim o [ none ↦ false | some text ↦ eq_ignore_ascii_case text word ] ≡ true
          → HasToken map name word
      by_text value none e q k = absurd (cc)
      by_text value (some text) e q k = HasToken.token value text e q k

      by_value :
          (o : Option Bytes)
          → headers.get map name ≡ o
          → elim o [
            | none ↦ false
            | some value ↦ elim (headers.to_str value) [
              | none ↦ false
              | some text ↦ eq_ignore_ascii_case text word
            ]
          ]
            ≡ true
          → HasToken map name word
      by_value none e k = absurd (cc)
      by_value (some value) e k = by_text value (headers.to_str value) e refl k

  HasToken-has_token :
      (map : HeaderMap) (name word : Bytes)
      → HasToken map name word
      → has_token headers map name word ≡ true
  unfolding has_token
  HasToken-has_token map name word (HasToken.token value text e q k) =
      rw (e, has_token) (rw (q, has_token) k)

  accepts_key_sound :
      (map : HeaderMap) (key : Bytes)
      → accepts_key headers map key ≡ true
      → headers.get map (codes "Sec-WebSocket-Accept") ≡ some key
  unfolding accepts_key
  accepts_key_sound map key h = by_value (headers.get map (codes "Sec-WebSocket-Accept")) refl h
    where
      by_value :
          (o : Option Bytes)
          → headers.get map (codes "Sec-WebSocket-Accept") ≡ o
          → elim o [ none ↦ false | some value ↦ same_bytes value key ] ≡ true
          → headers.get map (codes "Sec-WebSocket-Accept") ≡ some key
      by_value none e k = absurd (cc)
      by_value (some value) e k = e ∙ ap some (same_bytes_sound value key k)

  accepts_key_complete :
      (map : HeaderMap) (key : Bytes)
      → headers.get map (codes "Sec-WebSocket-Accept") ≡ some key
      → accepts_key headers map key ≡ true
  unfolding accepts_key
  accepts_key_complete map key e = rw (e, accepts_key) (same_bytes_refl key)

  verify_subprotocol_sound :
      (map : HeaderMap) (asked : Option (List Bytes))
      → verify_subprotocol headers (headers.get map (codes "Sec-WebSocket-Protocol")) asked ≡ ok tt
      → Subprotocol map asked
  unfolding verify_subprotocol
  verify_subprotocol_sound map asked h =
      by_value (headers.get map (codes "Sec-WebSocket-Protocol")) asked refl h
    where
      by_text :
          (value : Bytes) (asked : List Bytes) (o : Option Bytes)
          → headers.get map (codes "Sec-WebSocket-Protocol") ≡ some value
          → headers.to_str value ≡ o
          → elim o as (λ _. Result (Unit {0})) [
            | none ↦ err utf8
            | some text ↦
                if contains_text text asked
                then ok tt
                else err (protocol (sec_web_socket_sub_protocol_error invalid_sub_protocol))
          ]
            ≡ ok tt
          → Subprotocol map (some asked)
      by_text value asked none e q k = absurd (cc)
      by_text value asked (some text) e q k =
          one_asked value text asked e q (contains_text-Mem text asked (ground (arith, k)))

      by_value :
          (o : Option Bytes) (asked : Option (List Bytes))
          → headers.get map (codes "Sec-WebSocket-Protocol") ≡ o
          → verify_subprotocol headers o asked ≡ ok tt
          → Subprotocol map asked
      by_value none none e k = without e
      by_value none (some asked) e k = absurd (cc)
      by_value (some value) none e k = absurd (cc)
      by_value (some value) (some asked) e k = by_text value asked (headers.to_str value) e refl k

  verify_subprotocol_complete :
      (map : HeaderMap) (asked : Option (List Bytes))
      → Subprotocol map asked
      → verify_subprotocol headers (headers.get map (codes "Sec-WebSocket-Protocol")) asked ≡ ok tt
  unfolding verify_subprotocol
  verify_subprotocol_complete map asked (without e) = simp (e) refl
  verify_subprotocol_complete map asked (one_asked value text ts e q m) =
      rw (e, verify_subprotocol)
        (rw (q, verify_subprotocol) (rw (Mem-contains_text text ts m) refl))

  -- The tests of `verify_response` in front of the subprotocol.
  record Passed (d : VerifyData) (r answer : Response) : Type 0 where
    same : answer ≡ r
    status : r.status ≡ 101
    upgrade : has_token headers r.headers (codes "Upgrade") (codes "websocket") ≡ true
    connection : has_token headers r.headers (codes "Connection") (codes "Upgrade") ≡ true
    accept : accepts_key headers r.headers d.accept_key ≡ true
    subprotocol :
        verify_subprotocol headers
          (headers.get r.headers (codes "Sec-WebSocket-Protocol"))
          d.subprotocols
        ≡ ok tt

  verify_response-Passed :
      (d : VerifyData) (r answer : Response)
      → verify_response headers d r ≡ ok answer
      → Passed d r answer
  unfolding verify_response
  verify_response-Passed d r answer h = ground arith

  Passed-verify_response :
      (d : VerifyData) (r answer : Response)
      → Passed d r answer
      → verify_response headers d r ≡ ok answer
  unfolding verify_response
  Passed-verify_response d r answer p =
      ground (arith, p.same, p.status, p.upgrade, p.connection, p.accept, p.subprotocol)

  -- A client accepts a response exactly when its status is 101, its Upgrade and Connection fields are
  -- the words websocket and upgrade in any case and nothing else, it has the key that the client
  -- waits for, and it names a subprotocol if and only if the client asked for some, and then one of
  -- those; and it gives the response back as it is.
  pub verify_response-iff-IsVerified :
      (d : VerifyData) (r answer : Response)
      → (verify_response headers d r ≡ ok answer) ↔ ((answer ≡ r) × IsVerified d r)
  verify_response-iff-IsVerified d r answer = (verified, λ (same, v). if_verified same v)
    where
      verified : verify_response headers d r ≡ ok answer → (answer ≡ r) × IsVerified d r
      verified h =
          let p = verify_response-Passed d r answer h in
          (
            p.same,
            record {
              switches = p.status;
              upgrade =
                  has_token-HasToken r.headers (codes "Upgrade") (codes "websocket") p.upgrade;
              connection =
                  has_token-HasToken r.headers (codes "Connection") (codes "Upgrade") p.connection;
              accept = accepts_key_sound r.headers d.accept_key p.accept;
              subprotocol = verify_subprotocol_sound r.headers d.subprotocols p.subprotocol;
            },
          )

      if_verified : answer ≡ r → IsVerified d r → verify_response headers d r ≡ ok answer
      if_verified same v = Passed-verify_response d r answer (record {
        same = same;
        status = v.switches;
        upgrade = HasToken-has_token r.headers (codes "Upgrade") (codes "websocket") v.upgrade;
        connection =
            HasToken-has_token r.headers (codes "Connection") (codes "Upgrade") v.connection;
        accept = accepts_key_complete r.headers d.accept_key v.accept;
        subprotocol = verify_subprotocol_complete r.headers d.subprotocols v.subprotocol;
      })
