-- ===== src/Connect/Redirects.antt =====
-- src/client.rs: connecting, and the redirects that are followed, as built without a TLS feature. What
-- the network does is a parameter, `W` its state.
pub mod Attempts
use tungstenite_rs.Prelude.{
  ℕ, zero, suc, ◌+◌, Bool, true, false, ◌&&◌, Option, none, some, List, [], ◌∷◌, ltb, leb, ◌==◌,
  if◌then◌else◌,
}
use mathlib.Core.List.{reverse}
use tungstenite_rs.Prelude.Text.{codes}
use tungstenite_rs.Types.{
  Error, utf8, http, http_format, url, no_host_name, unable_to_connect, tls_feature_not_enabled,
  Request, Response,
}
use tungstenite_rs.Result.{Result, ok, err, panic}
use tungstenite_rs.Result.Fallible.{◌>>=◌, ok_or}
use tungstenite_rs.Stream.{Io, IoResult, from_io}
use tungstenite_rs.Deflate.Text.{Bytes}
use tungstenite_rs.Deflate.Codec.{Flate}
use tungstenite_rs.Handshake.{Ending, done, interrupted}
use tungstenite_rs.Handshake.Http.{Headers, Httparse, Uris, Digest}
use tungstenite_rs.Handshake.Client.{Config, ClientHandshake, Final}
use tungstenite_rs.Handshake.Start.{Mode, plain, tls, uri_mode}
use tungstenite_rs.Handshake.Roles.{client_with_config}

-- `to_socket_addrs`, `TcpStream::connect` and `set_nodelay`.
pub record Network (W Addr S : Type 0) : Type 0 where
  pub to_socket_addrs : Bytes → ℕ → W → IoResult (List Addr) × W
  pub connect : Addr → W → Option S × W
  pub set_nodelay : S → W → IoResult (Unit {0}) × W

-- `starts_with('[')`, and the host without its brackets.
drop_last : Bytes → Bytes
drop_last [] = []
drop_last (b ∷ []) = []
drop_last (b ∷ c ∷ bs) = let rest = drop_last (c ∷ bs) in b ∷ rest

unfoldable pub without_brackets : Bytes → Result Bytes
unfolding drop_last
without_brackets [] = ok []
without_brackets (b ∷ []) = if b == b'[' then panic else ok (b ∷ [])
without_brackets (b ∷ c ∷ bs) = ok (if b == b'[' then drop_last (c ∷ bs) else b ∷ c ∷ bs)

unfoldable pub port_of : Option ℕ → Mode → ℕ
port_of (some port) mode = port
port_of none plain = 80
port_of none tls = 443

module _ {W Addr S : Type 0} (network : Network W Addr S) where
  -- The first address that takes a connection.
  unfoldable pub connect_to_some : List Addr → Bytes → W → Result S × W
  connect_to_some [] uri w = (err (url (unable_to_connect uri)), w)
  connect_to_some (addr ∷ addrs) uri w =
      let (stream, w') = network.connect addr w in
      let rest = connect_to_some addrs uri w' in elim stream [ none ↦ rest | some s ↦ (ok s, w') ]

  -- The stream to a host, with its delay off.
  unfoldable pub open_stream : Bytes → ℕ → Bytes → W → Result S × W
  open_stream host port uri w =
      let (addrs, w₁) = network.to_socket_addrs host port w in
      elim addrs [
        | IoResult.failed kind ↦ (err (Error.io kind), w₁)
        | IoResult.done found ↦ nodelay (connect_to_some found uri w₁)
      ]
    where
      after : S → IoResult (Unit {0}) × W → Result S × W
      after s (r, w₂) = (from_io r >>= λ u. ok s, w₂)

      nodelay : Result S × W → Result S × W
      nodelay (ok s, w₂) = after s (network.set_nodelay s w₂)
      nodelay (err e, w₂) = (err e, w₂)
      nodelay (panic, w₂) = (panic, w₂)

-- A blocking handshake is not interrupted.
unfoldable pub blocking : {Role S Final : Type 0} → Result (Ending Role S Final) → Result Final
blocking (ok (done a)) = ok a
blocking (ok (interrupted role m)) = panic
blocking (err e) = err e
blocking panic = panic

module _ {W Addr S : Type 0} (network : Network W Addr S) (headers : Headers) (uris : Uris)
    (parser : Httparse) (digest : Digest) (world : Io S) (flate : Flate) (rounds : ℕ) where
  abbrev pub Outcome : Type 0
  Outcome = Result (Final headers world flate rounds)

  unfoldable pub handshake_on :
      Request → Option (Config headers world flate rounds) → Result S × W → Outcome × W
  unfolding blocking
  handshake_on request config (r, w) = (
    (do
      s ← r
      blocking (client_with_config headers parser world flate rounds digest uris request s config)),
    w,
  )

  -- The host and the port, unless TLS is asked for.
  unfoldable pub endpoint : Bytes → Result (Bytes × ℕ)
  endpoint uri = do
    mode ← uri_mode uris uri
    port ← elim mode as (λ _. Result ℕ) [
      | tls ↦ err (url tls_feature_not_enabled)
      | plain ↦ ok (port_of (uris.port_u16 uri) plain)
    ]
    host ← ok_or (url no_host_name) (uris.host uri)
    bare ← without_brackets host
    ok (bare, port)

  unfoldable pub try_client_handshake :
      Request → Option (Config headers world flate rounds) → W → Outcome × W
  unfolding handshake_on open_stream
  try_client_handshake request config w = elim (endpoint request.uri) [
    | ok (host, port) ↦ handshake_on request config (open_stream network host port request.uri w)
    | err e ↦ (err e, w)
    | panic ↦ (panic, w)
  ]

  -- Where a redirection goes, if it says so.
  unfoldable pub location : Response → Option (Result Bytes)
  location r = elim (headers.get r.headers (codes "Location")) [
    | none ↦ none
    | some value ↦
        some
          (do text ← ok_or utf8 (headers.to_str value); ok_or http_format (headers.parse_uri text))
  ]

  -- The body of the loop: the URI of the next attempt, or what is returned.
  pub data Turn : Type 0 where
    redirected : Bytes → Turn
    returned : Outcome → Turn

  unfoldable pub follow : Option (Result Bytes) → Response → Turn
  follow none r = returned (err (http r))
  follow (some (ok uri)) r = redirected uri
  follow (some (err e)) r = returned (err e)
  follow (some panic) r = returned panic

  unfoldable pub next_turn : ℕ → ℕ → Outcome → Turn
  unfolding follow location
  next_turn max_redirects attempt (err (http r)) =
      if headers.is_redirection r.status && ltb attempt max_redirects
      then follow (location r) r
      else returned (err (http r))
  next_turn max_redirects attempt outcome = returned outcome

  -- `continue`, or `return`.
  abbrev pub after_turn : (Bytes → W → Outcome × W) → W → Turn → Outcome × W
  after_turn rest w (redirected to) = rest to w
  after_turn rest w (returned result) = (result, w)

  -- So many attempts are left of the loop, which is not left by its end.
  unfoldable pub attempts :
      ℕ → ℕ → ℕ → Request → Option (Config headers world flate rounds) → Bytes → W → Outcome × W
  unfolding next_turn try_client_handshake
  attempts zero attempt max_redirects parts config uri w = (panic, w)
  attempts (suc left) attempt max_redirects parts config uri w =
      let (outcome, w') = try_client_handshake (record parts { uri = uri }) config w in
      after_turn (attempts left (suc attempt) max_redirects parts config) w'
        (next_turn max_redirects attempt outcome)

  unfoldable pub connect_with_config :
      Request → Option (Config headers world flate rounds) → ℕ → W → Outcome × W
  unfolding attempts
  connect_with_config request config max_redirects w =
      attempts (suc max_redirects) 0 max_redirects request config request.uri w

  unfoldable pub connect : Request → W → Outcome × W
  unfolding connect_with_config
  connect request w = connect_with_config request none 3 w
