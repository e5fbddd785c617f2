-- ===== src/Connect/Upgrading.antt =====
-- The request that is made from a URI (`Uri::into_client_request` of src/client.rs) is one that a
-- server takes for a handshake (`create_response` of src/handshake/server.rs).
use tungstenite_rs.Prelude.{◌≡◌, refl, ap, ◌∙◌, true, false, none, some, [], ◌∷◌, length, is_empty}
use tungstenite_rs.Prelude.Text.{codes}
use mathlib.Core.List.{Memᴰ}
use mathlib.Core.List.Memᴰ.{head, tail}
use tungstenite_rs.Types.{HeaderMap, Request, get_method, http_11}
use tungstenite_rs.Result.{ok}
use tungstenite_rs.Deflate.Text.{Bytes, eq_ignore_ascii_case}
use tungstenite_rs.Deflate.Table.{all_visible}
use tungstenite_rs.Handshake.Http.{Headers, Lawful, Uris, Digest, is_before_11, split_on, any_word}
use tungstenite_rs.Handshake.Server.{split_words}
use tungstenite_rs.Handshake.Fields.{any_word-IsWord, text_is, nonce}
use tungstenite_rs.Handshake.Wire.{SameFields}
use tungstenite_rs.Handshake.Upgrade.{IsUpgrade}
use tungstenite_rs.Handshake.Start.{generate_key}
use tungstenite_rs.Handshake.Generated.{HasFields}
use tungstenite_rs.Connect.{upgrade_headers, build_request, host_of, into_client_request}

-- Base64 of these bytes, by its documentation.
pub record IsKeyOf (digest : Digest) (random : Bytes) : Type 0 where
  pub size : length random ≡ 16
  pub width : length (digest.encode random) ≡ 24
  pub decodes : digest.decode (digest.encode random) ≡ some random
  pub is_visible : all_visible (digest.encode random) ≡ true

-- The five fields that a request starts with, in the order in which they are written.
abbrev pub five_fields : Bytes → Bytes → HeaderMap
five_fields host key =
    (codes "Host", host)
    ∷ (codes "Connection", codes "Upgrade")
    ∷ (codes "Upgrade", codes "websocket")
    ∷ (codes "Sec-WebSocket-Version", codes "13")
    ∷ (codes "Sec-WebSocket-Key", key)
    ∷ []

module _ (headers : Headers) (lawful : Lawful headers) where
  -- The fields of a request that is made from a URI.
  pub record IsRequested (map : HeaderMap) (host key : Bytes) : Type 0 where
    pub host_field : headers.get map (codes "Host") ≡ some host
    pub connection_field : headers.get map (codes "Connection") ≡ some (codes "Upgrade")
    pub upgrade_field : headers.get map (codes "Upgrade") ≡ some (codes "websocket")
    pub version_field : headers.get map (codes "Sec-WebSocket-Version") ≡ some (codes "13")
    pub key_field : headers.get map (codes "Sec-WebSocket-Key") ≡ some key

  pub upgrade_headers-IsRequested :
      (host key : Bytes) → IsRequested (upgrade_headers headers host key) host key
  unfolding upgrade_headers eq_ignore_ascii_case
  upgrade_headers-IsRequested host key = record {
    host_field =
        later (later (later (later (lawful.get_first [] _ _ host refl (lawful.get_empty _)))));
    connection_field =
        later
          (later (later (lawful.get_first _ _ _ _ refl (other host refl ∙ lawful.get_empty _))));
    upgrade_field = later (
        later
          (lawful.get_first _ _ _ _ refl (other _ refl ∙ other host refl ∙ lawful.get_empty _)));
    version_field = later (
        lawful.get_first _ _ _ _ refl
          (other _ refl ∙ other _ refl ∙ other host refl ∙ lawful.get_empty _));
    key_field =
        lawful.get_first _ _ _ key refl
          (other _ refl ∙ other _ refl ∙ other _ refl ∙ other host refl ∙ lawful.get_empty _);
  }
    where
      later :
          {map : HeaderMap} {n name value old : Bytes}
          → headers.get map name ≡ some old
          → headers.get (headers.append map n value) name ≡ some old
      later e = lawful.get_later _ _ _ _ _ e

      other :
          {map : HeaderMap} {n name : Bytes} (value : Bytes)
          → eq_ignore_ascii_case n name ≡ false
          → headers.get (headers.append map n value) name ≡ headers.get map name
      other value e = lawful.get_other _ _ _ value e

  -- No other field.
  get_none :
      (host key name : Bytes)
      → eq_ignore_ascii_case (codes "Host") name ≡ false
      → eq_ignore_ascii_case (codes "Connection") name ≡ false
      → eq_ignore_ascii_case (codes "Upgrade") name ≡ false
      → eq_ignore_ascii_case (codes "Sec-WebSocket-Version") name ≡ false
      → eq_ignore_ascii_case (codes "Sec-WebSocket-Key") name ≡ false
      → headers.get (upgrade_headers headers host key) name ≡ none
  unfolding upgrade_headers
  get_none host key name a b c d e =
      lawful.get_other _ _ _ key e
      ∙ lawful.get_other _ _ _ (codes "13") d
      ∙ lawful.get_other _ _ _ (codes "websocket") c
      ∙ lawful.get_other _ _ _ (codes "Upgrade") b
      ∙ lawful.get_other _ _ _ host a
      ∙ lawful.get_empty name

  pub upgrade_headers_offers :
      (host key : Bytes)
      → headers.get (upgrade_headers headers host key) (codes "Sec-WebSocket-Extensions") ≡ none
  unfolding eq_ignore_ascii_case
  upgrade_headers_offers host key =
      get_none host key (codes "Sec-WebSocket-Extensions") refl refl refl refl refl

  pub upgrade_headers_subprotocols :
      (host key : Bytes)
      → headers.get (upgrade_headers headers host key) (codes "Sec-WebSocket-Protocol") ≡ none
  unfolding eq_ignore_ascii_case
  upgrade_headers_subprotocols host key =
      get_none host key (codes "Sec-WebSocket-Protocol") refl refl refl refl refl

  -- A further field changes nothing of them.
  pub append-IsRequested :
      (map : HeaderMap) (n value host key : Bytes)
      → IsRequested map host key
      → IsRequested (headers.append map n value) host key
  append-IsRequested map n value host key f = record {
    host_field = lawful.get_later _ _ _ _ _ f.host_field;
    connection_field = lawful.get_later _ _ _ _ _ f.connection_field;
    upgrade_field = lawful.get_later _ _ _ _ _ f.upgrade_field;
    version_field = lawful.get_later _ _ _ _ _ f.version_field;
    key_field = lawful.get_later _ _ _ _ _ f.key_field;
  }

  pub SameFields-IsRequested :
      (a b : HeaderMap) (host key : Bytes)
      → SameFields headers a b
      → IsRequested b host key
      → IsRequested a host key
  SameFields-IsRequested a b host key same f = record {
    host_field = same.same_get _ ∙ f.host_field;
    connection_field = same.same_get _ ∙ f.connection_field;
    upgrade_field = same.same_get _ ∙ f.upgrade_field;
    version_field = same.same_get _ ∙ f.version_field;
    key_field = same.same_get _ ∙ f.key_field;
  }

  pub IsRequested-HasFields :
      (map : HeaderMap) (host key : Bytes)
      → all_visible host ≡ true
      → all_visible key ≡ true
      → IsRequested map host key
      → HasFields headers lawful map (five_fields host key)
  unfolding HasFields all_visible
  IsRequested-HasFields map host key h k f field m = by_place m
    where
      by_place :
          Memᴰ field (five_fields host key)
          → (headers.get map field.0 ≡ some field.1) × (all_visible field.1 ≡ true)
      by_place (head e) = rw (e) (f.host_field, h)
      by_place (tail (head e)) = rw (e) (f.connection_field, refl)
      by_place (tail (tail (head e))) = rw (e) (f.upgrade_field, refl)
      by_place (tail (tail (tail (head e)))) = rw (e) (f.version_field, refl)
      by_place (tail (tail (tail (tail (head e))))) = rw (e) (f.key_field, k)
      by_place (tail (tail (tail (tail (tail m))))) = elim m [ ]

  pub IsRequested-IsUpgrade :
      (digest : Digest) (random host : Bytes) (r : Request)
      → IsKeyOf digest random
      → r.method ≡ get_method
      → r.version ≡ http_11
      → IsRequested r.headers host (digest.encode random)
      → IsUpgrade headers digest r (digest.encode random)
  unfolding is_before_11 split_words split_on any_word eq_ignore_ascii_case all_visible
  IsRequested-IsUpgrade digest random host r k gets recent f = record {
    gets = gets;
    recent = ap is_before_11 recent;
    connection =
        text_is (codes "Upgrade") (codes "Upgrade") f.connection_field
          (lawful.to_str_visible _ refl)
          (any_word-IsWord (codes "Upgrade") (split_words (codes "Upgrade")) refl);
    upgrade =
        text_is (codes "websocket") (codes "websocket") f.upgrade_field
          (lawful.to_str_visible _ refl) refl;
    version = f.version_field;
    key = f.key_field;
    nonce = nonce random k.decodes k.width k.size;
  }

  -- The request that is made from a URI.
  unfoldable pub uri_request : Bytes → Bytes → Bytes → Request
  uri_request uri host key = record {
    method = get_method;
    uri = uri;
    version = http_11;
    headers = upgrade_headers headers host key;
  }

  -- From a URI with an authority whose host is visible and not empty, the request is made.
  pub into_client_request_lem :
      (uris : Uris) (digest : Digest) (random uri authority : Bytes)
      → IsKeyOf digest random
      → uris.authority uri ≡ some authority
      → is_empty (host_of authority) ≡ false
      → all_visible (host_of authority) ≡ true
      → into_client_request headers uris digest random uri
        ≡ ok (uri_request uri (host_of authority) (digest.encode random))
  unfolding into_client_request build_request generate_key uri_request
  into_client_request_lem uris digest random uri authority k has some_host seen =
      simp (has, some_host, lawful.from_str_visible _ seen, lawful.from_str_visible _ k.is_visible)
        refl
