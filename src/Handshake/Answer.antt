-- ===== src/Handshake/Answer.antt =====
-- The fields of the response that a server creates (`create_response` of src/handshake/server.rs), and
-- what a client makes of them (`verify_response` of src/handshake/client.rs).
use tungstenite_rs.Prelude.{
  ◌≡◌, refl, sym, ap, ◌∙◌, ◌⊎◌, inl, inr, true, false, none, some, [], ◌∷◌,
}
use tungstenite_rs.Prelude.Text.{codes}
use mathlib.Core.List.{Memᴰ}
use mathlib.Core.List.Memᴰ.{head, tail}
use tungstenite_rs.Types.{HeaderMap, http_11, Request, Response}
use tungstenite_rs.Result.{ok}
use tungstenite_rs.Result.Fallible.{◌>>=◌}
use tungstenite_rs.Deflate.Text.{Bytes, eq_ignore_ascii_case}
use tungstenite_rs.Deflate.Table.{all_visible}
use tungstenite_rs.Handshake.{derive_accept_key, version_as_str}
use tungstenite_rs.Handshake.Http.{Headers, Lawful, Digest}
use tungstenite_rs.Handshake.Wire.{fields_text, written_response, IsField, SameFields}
use tungstenite_rs.Handshake.Server.{create_response, header_lines, write_response}
use tungstenite_rs.Handshake.Client.{VerifyData, verify_response}
use tungstenite_rs.Handshake.Upgrade.{
  IsUpgrade, switching_protocols, switches, create_response-iff-AnswersUpgrade,
}
use tungstenite_rs.Handshake.Verified.{IsVerified, token, without, verify_response-iff-IsVerified}

module _ (headers : Headers) (lawful : Lawful headers) where
  abbrev switched : Bytes → HeaderMap
  switched value =
      headers.append
        (headers.append (headers.append [] (codes "Connection") (codes "Upgrade")) (codes "Upgrade")
          (codes "websocket"))
        (codes "Sec-WebSocket-Accept") value

  -- No field of this name is added by `switched`.
  get_other :
      (value name : Bytes)
      → eq_ignore_ascii_case (codes "Connection") name ≡ false
      → eq_ignore_ascii_case (codes "Upgrade") name ≡ false
      → eq_ignore_ascii_case (codes "Sec-WebSocket-Accept") name ≡ false
      → headers.get (switched value) name ≡ none
  get_other value name a b c =
      lawful.get_other _ _ name value c
      ∙ lawful.get_other _ _ name (codes "websocket") b
      ∙ lawful.get_other _ _ name (codes "Upgrade") a
      ∙ lawful.get_empty name

  get_connection :
      (value : Bytes) → headers.get (switched value) (codes "Connection") ≡ some (codes "Upgrade")
  unfolding eq_ignore_ascii_case
  get_connection value = lawful.get_later _ _ _ value _ (
      lawful.get_later _ _ _ (codes "websocket") _
        (lawful.get_first [] _ (codes "Connection") (codes "Upgrade") refl (lawful.get_empty _)))

  get_upgrade :
      (value : Bytes) → headers.get (switched value) (codes "Upgrade") ≡ some (codes "websocket")
  unfolding eq_ignore_ascii_case
  get_upgrade value = lawful.get_later _ _ _ value _ (
      lawful.get_first _ _ _ (codes "websocket") refl
        (lawful.get_other _ _ _ (codes "Upgrade") refl ∙ lawful.get_empty _))

  get_accept :
      (value : Bytes) → headers.get (switched value) (codes "Sec-WebSocket-Accept") ≡ some value
  unfolding eq_ignore_ascii_case
  get_accept value = lawful.get_first _ _ _ value refl (
      lawful.get_other _ _ _ (codes "websocket") refl
      ∙ lawful.get_other _ _ _ (codes "Upgrade") refl
      ∙ lawful.get_empty _)

  -- The values are visible, and are a text.
  unfoldable pub IsVisible : HeaderMap → Type 0
  IsVisible map = (entry : Bytes × Bytes) → Memᴰ entry map → all_visible entry.1 ≡ true

  pub append-IsVisible :
      (map : HeaderMap) (n value : Bytes)
      → IsVisible map
      → all_visible value ≡ true
      → IsVisible (headers.append map n value)
  unfolding IsVisible
  append-IsVisible map n value h e entry m = by_entry (lawful.entry_append map n value entry m)
    where
      by_entry : Memᴰ entry map ⊎ (entry.1 ≡ value) → all_visible entry.1 ≡ true
      by_entry (inl k) = h entry k
      by_entry (inr k) = ap all_visible k ∙ e

  pub switched-IsVisible : (value : Bytes) → all_visible value ≡ true → IsVisible (switched value)
  unfolding IsVisible all_visible
  switched-IsVisible value e =
      append-IsVisible _ _ value
        (append-IsVisible _ _ (codes "websocket")
          (append-IsVisible [] _ (codes "Upgrade") (λ entry m. elim m [ ]) refl) refl)
        e

  header_lines-IsVisible :
      (map : HeaderMap) → IsVisible map → header_lines headers map ≡ ok (fields_text map)
  unfolding IsVisible header_lines fields_text
  header_lines-IsVisible [] h = refl
  header_lines-IsVisible ((n, v) ∷ map) h =
      simp
        (
          lawful.to_str_visible v (h (n, v) (head refl)),
          header_lines-IsVisible map (λ entry m. h entry (tail m)),
        )
        refl

  -- A response of HTTP/1.1 with visible values is written as its status and all its fields, in order.
  pub write_response-IsVisible :
      (r : Response)
      → r.version ≡ http_11
      → IsVisible r.headers
      → write_response headers r ≡ ok (written_response (headers.status_text r.status) r.headers)
  unfolding write_response version_as_str written_response
  write_response-IsVisible r recent v = simp (recent, header_lines-IsVisible r.headers v) refl

  -- A field that the map gives is one of its entries.
  pub get-IsField :
      (map : HeaderMap) (name value : Bytes)
      → headers.get map name ≡ some value
      → IsField map name value
  get-IsField map name value e =
      let (n, among, same) = lawful.get_entry map name value e in
      record { spelled = n; is_among = among; same_name = same }

  -- The fields of a response that switches protocols, with this value for the key.
  pub record IsSwitched (map : HeaderMap) (value : Bytes) : Type 0 where
    pub upgrade : headers.get map (codes "Upgrade") ≡ some (codes "websocket")
    pub connection : headers.get map (codes "Connection") ≡ some (codes "Upgrade")
    pub accept : headers.get map (codes "Sec-WebSocket-Accept") ≡ some value
    pub subprotocol : headers.get map (codes "Sec-WebSocket-Protocol") ≡ none

  pub switched-IsSwitched : (value : Bytes) → IsSwitched (switched value) value
  unfolding eq_ignore_ascii_case
  switched-IsSwitched value = record {
    upgrade = get_upgrade value;
    connection = get_connection value;
    accept = get_accept value;
    subprotocol = get_other value (codes "Sec-WebSocket-Protocol") refl refl refl;
  }

  pub switched_offers :
      (value : Bytes) → headers.get (switched value) (codes "Sec-WebSocket-Extensions") ≡ none
  unfolding eq_ignore_ascii_case
  switched_offers value = get_other value (codes "Sec-WebSocket-Extensions") refl refl refl

  -- A field for an extension changes nothing of them.
  pub append-IsSwitched :
      (map : HeaderMap) (value extension : Bytes)
      → IsSwitched map value
      → IsSwitched (headers.append map (codes "Sec-WebSocket-Extensions") extension) value
  unfolding eq_ignore_ascii_case
  append-IsSwitched map value extension v = record {
    upgrade = lawful.get_later _ _ _ _ _ v.upgrade;
    connection = lawful.get_later _ _ _ _ _ v.connection;
    accept = lawful.get_later _ _ _ _ _ v.accept;
    subprotocol = lawful.get_other _ _ _ _ refl ∙ v.subprotocol;
  }

  -- It passes the tests of a client that waits for this value and has asked for no subprotocol.
  pub SameFields-IsSwitched :
      (a b : HeaderMap) (value : Bytes)
      → SameFields headers a b
      → IsSwitched b value
      → IsSwitched a value
  SameFields-IsSwitched a b value same v = record {
    upgrade = same.same_get _ ∙ v.upgrade;
    connection = same.same_get _ ∙ v.connection;
    accept = same.same_get _ ∙ v.accept;
    subprotocol = same.same_get _ ∙ v.subprotocol;
  }

  pub IsSwitched-IsVerified :
      (d : VerifyData) (r : Response)
      → r.status ≡ 101
      → d.subprotocols ≡ none
      → IsSwitched r.headers d.accept_key
      → IsVerified headers d r
  unfolding all_visible eq_ignore_ascii_case
  IsSwitched-IsVerified d r status asked v = record {
    switches = status;
    upgrade =
        token (codes "websocket") (codes "websocket") v.upgrade (lawful.to_str_visible _ refl) refl;
    connection =
        token (codes "Upgrade") (codes "Upgrade") v.connection (lawful.to_str_visible _ refl) refl;
    accept = v.accept;
    subprotocol = rw (asked) (without v.subprotocol);
  }

  pub created :
      (digest : Digest) (r : Request) (key value : Bytes)
      → IsUpgrade headers digest r key
      → value ≡ derive_accept_key digest.sha1 digest.encode key
      → all_visible value ≡ true
      → create_response headers digest r ≡ ok (switching_protocols headers r value)
  created digest r key value u waits visible =
      (create_response-iff-AnswersUpgrade headers digest r (switching_protocols headers r value)).1
        (switches key value u
          (ap headers.from_str (sym waits) ∙ lawful.from_str_visible value visible) refl)

  -- The response that a server creates for a client's request passes the checks of that client, as
  -- 101 with the key that it waits for: provided that the header map and its values behave as
  -- documented, that the digest of the key is visible ASCII, and that the client asked for no
  -- subprotocol.
  pub verify_response-create_response :
      (digest : Digest) (r : Request) (d : VerifyData) (key : Bytes)
      → IsUpgrade headers digest r key
      → d.accept_key ≡ derive_accept_key digest.sha1 digest.encode key
      → d.subprotocols ≡ none
      → all_visible d.accept_key ≡ true
      → (create_response headers digest r >>= verify_response headers d)
        ≡ ok (switching_protocols headers r d.accept_key)
  verify_response-create_response digest r d key u waits asked visible =
      ap (λ created. created >>= verify_response headers d)
        (created digest r key d.accept_key u waits visible)
      ∙ (verify_response-iff-IsVerified headers d response response).1 (refl, verified)
    where
      response : Response
      response = switching_protocols headers r d.accept_key

      verified : IsVerified headers d response
      verified = IsSwitched-IsVerified d response refl asked (switched-IsSwitched d.accept_key)
