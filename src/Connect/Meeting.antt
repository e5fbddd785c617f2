-- ===== src/Connect/Meeting.antt =====
-- A client that starts from a URI (src/client.rs and `ClientHandshake::start` of
-- src/handshake/client.rs) and the server that reads its request (src/handshake/server.rs).
use tungstenite_rs.Prelude.{
  ℕ, ◌<◌, ◌≡◌, refl, ap, ◌∙◌, true, false, none, some, List, [], ◌∷◌, ◌++◌, is_empty,
}
use tungstenite_rs.Prelude.Text.{codes}
use tungstenite_rs.Types.{HeaderMap, Request, Response, get_method, http_11}
use tungstenite_rs.Result.{ok}
use tungstenite_rs.Stream.{Io}
use tungstenite_rs.Deflate.{Settings}
use tungstenite_rs.Deflate.Text.{Bytes, eq_ignore_ascii_case}
use tungstenite_rs.Deflate.Table.{all_visible}
use tungstenite_rs.Deflate.Negotiate.{offer, offer_text}
use tungstenite_rs.Deflate.Agreement.{IsFit}
use tungstenite_rs.Deflate.Codec.{Flate, Lawful as LawfulFlate}
use tungstenite_rs.Handshake.{derive_accept_key}
use tungstenite_rs.Handshake.Http.{Headers, Lawful, Uris, Digest}
use tungstenite_rs.Handshake.Machine.{start_write}
use tungstenite_rs.Handshake.Server.{Config, ServerHandshake}
use tungstenite_rs.Handshake.Client.{ClientHandshake}
use tungstenite_rs.Handshake.Start.{Mode, uri_mode, generate_request, start}
use tungstenite_rs.Handshake.Wire.{written_request, IsField, SameFields}
use tungstenite_rs.Handshake.Generated.{respelled}
use tungstenite_rs.Handshake.Agreed
use tungstenite_rs.Handshake.Agreed.{Meet, Opened}
use tungstenite_rs.Connect.{host_of, into_client_request}
use tungstenite_rs.Connect.Upgrading.{
  five_fields, IsKeyOf, IsRequested, uri_request, upgrade_headers-IsRequested,
  upgrade_headers_offers, append-IsRequested, SameFields-IsRequested, IsRequested-IsUpgrade,
}

module _ {S : Type 0} (headers : Headers) (lawful : Lawful headers) (uris : Uris) (digest : Digest)
    (world : Io S) (flate : Flate) (lawful_flate : LawfulFlate flate) (rounds : ℕ) where
  -- A URI to connect to, the bytes of the key, a client with compression and a server with it.
  pub record IsTarget (random uri : Bytes) (config : Config headers digest world flate rounds)
      (c' : ServerHandshake headers digest world flate rounds) : Type 0 where
    pub authority : Bytes
    pub path : Bytes
    pub mode : Mode
    pub has_mode : uri_mode uris uri ≡ ok mode
    pub has_authority : uris.authority uri ≡ some authority
    pub has_host : is_empty (host_of authority) ≡ false
    pub host_visible : all_visible (host_of authority) ≡ true
    pub has_path : uris.path_and_query uri ≡ some path
    pub is_key : IsKeyOf digest random
    pub accept_visible :
        all_visible (derive_accept_key digest.sha1 digest.encode (digest.encode random)) ≡ true
    pub offered : Settings
    pub offers : config.deflate_settings ≡ some offered
    pub offer_fits : IsFit offered
    pub sizes : config.write_buffer_size < config.max_write_buffer_size
    pub server_config : Config headers digest world flate rounds
    pub given : Settings
    pub server_has : c'.config ≡ some server_config
    pub server_gives : server_config.deflate_settings ≡ some given
    pub server_fits : IsFit given
    pub server_sizes : server_config.write_buffer_size < server_config.max_write_buffer_size
    pub no_callback : c'.callback ≡ none
    pub no_refusal : c'.error_response ≡ none

  -- The handshake of the client starts, and meets the server's.
  pub record Connects (random uri : Bytes) (config : Config headers digest world flate rounds)
      (c' : ServerHandshake headers digest world flate rounds) (got : Request) (reply : Response)
      (s : S) : Type 0 where
    pub request : Request
    pub is_request : into_client_request headers uris digest random uri ≡ ok request
    pub output : Bytes
    pub role : ClientHandshake headers world flate rounds
    pub starts :
        start headers uris digest world flate rounds s request (some config)
        ≡ ok (start_write s output, role)
    pub sent : Request
    pub key : Bytes
    pub is_written : generate_request headers uris sent ≡ ok (output, key)
    pub is_key : key ≡ digest.encode random
    pub authority : Bytes
    pub has_authority : uris.authority uri ≡ some authority
    pub path : Bytes
    pub has_path : uris.path_and_query uri ≡ some path
    pub others : HeaderMap
    pub output_text :
        output ≡ written_request path (five_fields (host_of authority) key ++ respelled others)
    pub offered : Settings
    pub offers : config.deflate_settings ≡ some offered
    pub offer_field : IsField others (codes "Sec-WebSocket-Extensions") (offer_text offered)
    pub meet : Meet headers lawful digest world flate lawful_flate rounds role c' got key
    pub opened :
        (client_socket server_socket : S) (tail : List ℕ)
        → Opened headers lawful digest world flate lawful_flate rounds role c' got key meet reply
            client_socket server_socket tail

  module _ (random uri : Bytes) (config : Config headers digest world flate rounds)
      (c' : ServerHandshake headers digest world flate rounds)
      (t : IsTarget random uri config c') where
    abbrev pub key : Bytes
    key = digest.encode random

    abbrev pub request : Request
    request = uri_request headers lawful uri (host_of t.authority) key

    -- The request with the offer.
    abbrev pub sent : Request
    sent = record request {
      headers =
          headers.append request.headers (codes "Sec-WebSocket-Extensions") (offer_text t.offered);
    }

    sent-IsRequested : IsRequested headers lawful sent.headers (host_of t.authority) key
    unfolding uri_request
    sent-IsRequested =
        append-IsRequested headers lawful _ _ _ _ _
          (upgrade_headers-IsRequested headers lawful (host_of t.authority) key)

    only_offer :
        headers.get_all sent.headers (codes "Sec-WebSocket-Extensions") ≡ offer_text t.offered ∷ []
    unfolding eq_ignore_ascii_case uri_request
    only_offer =
        lawful.get_all_same _ _ _ (offer_text t.offered) refl
        ∙ ap (λ values. values ++ offer_text t.offered ∷ [])
            (lawful.get_all_none _ _
              (upgrade_headers_offers headers lawful (host_of t.authority) key))

    abbrev pub role : ClientHandshake headers world flate rounds
    role = record {
      verify_data = record {
        accept_key = derive_accept_key digest.sha1 digest.encode key;
        subprotocols = none;
      };
      config = some config;
    }

    -- The server reads a request with the same values for every name.
    module _ (got : Request) (gets : got.method ≡ get_method) (recent : got.version ≡ http_11)
        (same : SameFields headers got.headers sent.headers) where
      pub meets : Meet headers lawful digest world flate lawful_flate rounds role c' got key
      meets = record {
        client_config = config;
        offered = t.offered;
        client_has = refl;
        client_offers = t.offers;
        client_fits = t.offer_fits;
        client_sizes = t.sizes;
        asks_nothing = refl;
        waits_for = refl;
        is_visible = t.accept_visible;
        server_config = t.server_config;
        given = t.given;
        server_has = t.server_has;
        server_gives = t.server_gives;
        server_fits = t.server_fits;
        server_sizes = t.server_sizes;
        no_callback = t.no_callback;
        no_refusal = t.no_refusal;
        is_upgrade =
            IsRequested-IsUpgrade headers lawful digest random (host_of t.authority) got t.is_key
              gets recent (SameFields-IsRequested headers lawful _ _ _ _ same sent-IsRequested);
        is_recent = recent;
        offer = same.same_get_all _ ∙ only_offer;
      }
