-- ===== src/Connect/Redirects/Attempts.antt =====
-- The redirects that a client follows (`connect_with_config` of src/client.rs).
use tungstenite_rs.Prelude.{
  ℕ, zero, suc, ◌+◌, ◌<◌, ◌≤◌, ◌≡◌, refl, subst, ap, Bool, true, false, ◌&&◌, Option, none, some,
  ltb, if◌then◌else◌, arith,
}
use tungstenite_rs.Types.{
  Error, connection_closed, already_closed, utf8, attack_attempt, io, capacity, protocol,
  write_buffer_full, url, http_format, http, Request, Response,
}
use tungstenite_rs.Result.{Result, ok, err, panic}
use tungstenite_rs.Stream.{Io}
use tungstenite_rs.Deflate.Text.{Bytes}
use tungstenite_rs.Deflate.Codec.{Flate}
use tungstenite_rs.Handshake.Http.{Headers, Httparse, Uris, Digest}
use tungstenite_rs.Handshake.Client.{Config}
use tungstenite_rs.Connect.Redirects.{
  Network, Outcome, try_client_handshake, location, Turn, returned, follow, next_turn, after_turn,
  attempts, connect_with_config,
}

module _ {W Addr S : Type 0} (network : Network W Addr S) (headers : Headers) (uris : Uris)
    (parser : Httparse) (digest : Digest) (world : Io S) (flate : Flate) (rounds : ℕ)
    (max_redirects : ℕ) (parts : Request)
    (config : Option (Config headers world flate rounds)) where
  abbrev tried : Bytes → W → Outcome network headers uris parser digest world flate rounds × W
  tried uri w =
      try_client_handshake network headers uris parser digest world flate rounds
        (record parts { uri = uri }) config w

  abbrev location_of : Response → Option (Result Bytes)
  location_of r = location network headers uris parser digest world flate rounds r

  -- The attempts from one on, which each follow the redirection that the one before ran into.
  pub data Chain
      : ℕ
        → Bytes
        → W
        → Outcome network headers uris parser digest world flate rounds × W
        → Type 0 where
    -- What is given, if it is no redirection that has a place to go to, or is the last attempt's.
    given :
        (attempt : ℕ) (uri : Bytes) (w w' : W)
        (outcome : Outcome network headers uris parser digest world flate rounds)
        → tried uri w ≡ (outcome, w')
        → ((r : Response)
            → outcome ≡ err (http r)
            → headers.is_redirection r.status ≡ true
            → attempt < max_redirects
            → location_of r ≡ none)
        → Chain attempt uri w (outcome, w')
    -- The place is no URI.
    lost :
        (attempt : ℕ) (uri : Bytes) (w w' : W) (r : Response) (e : Error)
        → tried uri w ≡ (err (http r), w')
        → headers.is_redirection r.status ≡ true
        → attempt < max_redirects
        → location_of r ≡ some (err e)
        → Chain attempt uri w (err e, w')
    hops :
        (attempt : ℕ) (uri next : Bytes) (w w' : W) (r : Response)
        (result : Outcome network headers uris parser digest world flate rounds × W)
        → tried uri w ≡ (err (http r), w')
        → headers.is_redirection r.status ≡ true
        → attempt < max_redirects
        → location_of r ≡ some (ok next)
        → Chain (suc attempt) next w' result
        → Chain attempt uri w result

  abbrev Out : Type 0
  Out = Outcome network headers uris parser digest world flate rounds

  abbrev Turned : Type 0
  Turned = Turn network headers uris parser digest world flate rounds

  -- The response of an error, or this one.
  abbrev http_of : Response → Out → Response
  http_of r (err (http r')) = r'
  http_of r outcome = r

  abbrev lead : (Bytes → W → Out × W) → W → Turned → Out × W
  lead = after_turn network headers uris parser digest world flate rounds

  module _ (attempt : ℕ) (uri : Bytes) (w : W) (rest : Bytes → W → Out × W) where
    abbrev Rest : Type 0
    Rest =
        (next : Bytes) (w' : W)
        → attempt < max_redirects
        → Chain (suc attempt) next w' (rest next w')

    -- The place that a redirection names.
    follow-Chain :
        (r : Response) (w' : W) (l : Option (Result Bytes))
        → tried uri w ≡ (err (http r), w')
        → headers.is_redirection r.status ≡ true
        → attempt < max_redirects
        → location_of r ≡ l
        → ¬ (l ≡ some panic)
        → Rest
        → Chain attempt uri w
            (lead rest w' (follow network headers uris parser digest world flate rounds l r))
    unfolding follow
    follow-Chain r w' none e b less q p k =
        given attempt uri w w' (err (http r)) e
          (λ r' same b' less'. subst (λ x. location_of x ≡ none) (ap (http_of r) same) q)
    follow-Chain r w' (some (ok next)) e b less q p k =
        hops attempt uri next w w' r _ e b less q (k next w' less)
    follow-Chain r w' (some (err e')) e b less q p k = lost attempt uri w w' r e' e b less q
    follow-Chain r w' (some panic) e b less q p k = absurd (p refl)

    location_lem : (r : Response) → ¬ (location_of r ≡ some panic)
    unfolding location
    location_lem r = ground arith

    other :
        (outcome : Out) (w' : W)
        → tried uri w ≡ (outcome, w')
        → ((r : Response) → ¬ (outcome ≡ err (http r)))
        → Chain attempt uri w (outcome, w')
    other outcome w' e no_response =
        given attempt uri w w' outcome e (λ r same b less. absurd (no_response r same))

    http-Chain :
        (r : Response) (w' : W) (b c : Bool)
        → tried uri w ≡ (err (http r), w')
        → headers.is_redirection r.status ≡ b
        → ltb attempt max_redirects ≡ c
        → Rest
        → Chain attempt uri w (
            lead rest w' (
              if b && c
              then follow network headers uris parser digest world flate rounds (location_of r) r
              else returned (err (http r))))
    http-Chain r w' true true e b c k =
        follow-Chain r w' (location_of r) e b (ground (arith, c)) refl (location_lem r) k
    http-Chain r w' true false e b c k =
        given attempt uri w w' (err (http r)) e (λ r' same b' less. absurd (ground (arith, c)))
    http-Chain r w' false c e b d k =
        given attempt uri w w' (err (http r)) e (λ r' same b' less. absurd (unlike r' same b'))
      where
        unlike :
            (r' : Response)
            → ◌≡◌ {A = Out} (err (http r)) (err (http r'))
            → headers.is_redirection r'.status ≡ true
            → ⊥
        unlike r' same b' =
            let q : headers.is_redirection r.status ≡ headers.is_redirection r'.status =
              ap (λ x. headers.is_redirection (http_of r x).status) same in
            cc

    next_turn-Chain :
        (outcome : Out) (w' : W)
        → tried uri w ≡ (outcome, w')
        → Rest
        → Chain attempt uri w (
            lead rest w' (
              next_turn network headers uris parser digest world flate rounds max_redirects attempt
                outcome))
    unfolding next_turn
    next_turn-Chain (ok a) w' e k = other _ w' e (λ r q. cc)
    next_turn-Chain panic w' e k = other _ w' e (λ r q. cc)
    next_turn-Chain (err (http r)) w' e k =
        http-Chain r w' (headers.is_redirection r.status) (ltb attempt max_redirects) e refl refl k
    next_turn-Chain (err connection_closed) w' e k = other _ w' e (λ r q. cc)
    next_turn-Chain (err already_closed) w' e k = other _ w' e (λ r q. cc)
    next_turn-Chain (err utf8) w' e k = other _ w' e (λ r q. cc)
    next_turn-Chain (err attack_attempt) w' e k = other _ w' e (λ r q. cc)
    next_turn-Chain (err (io kind)) w' e k = other _ w' e (λ r q. cc)
    next_turn-Chain (err (capacity c)) w' e k = other _ w' e (λ r q. cc)
    next_turn-Chain (err (protocol p)) w' e k = other _ w' e (λ r q. cc)
    next_turn-Chain (err (write_buffer_full m)) w' e k = other _ w' e (λ r q. cc)
    next_turn-Chain (err (url u)) w' e k = other _ w' e (λ r q. cc)
    next_turn-Chain (err http_format) w' e k = other _ w' e (λ r q. cc)

  attempts-Chain :
      (left attempt : ℕ) (uri : Bytes) (w : W)
      → left + attempt ≡ suc max_redirects
      → attempt ≤ max_redirects
      → Chain attempt uri w (
          attempts network headers uris parser digest world flate rounds left attempt max_redirects
            parts config uri w)
  unfolding attempts
  attempts-Chain zero attempt uri w sum less = absurd (omega arith)
  attempts-Chain (suc left) attempt uri w sum less =
      next_turn-Chain attempt uri w
        (attempts network headers uris parser digest world flate rounds left (suc attempt)
          max_redirects parts config)
        (tried uri w).0 (tried uri w).1 refl
        (λ next w' more. attempts-Chain left (suc attempt) next w' (omega (arith, sum)) more)

  -- Connecting gives what the last of a chain of attempts gives: every attempt but the last runs into a
  -- redirection and the next goes to the place that it names, the first to the URI of the request. The
  -- chain ends with the attempt after the last redirection that may be followed, or with one that
  -- gives no redirection or one that names no place or no URI; the loop is never left by its end.
  pub connect_with_config-Chain :
      (w : W)
      → Chain 0 parts.uri w (
          connect_with_config network headers uris parser digest world flate rounds parts config
            max_redirects w)
  unfolding connect_with_config
  connect_with_config-Chain w =
      attempts-Chain (suc max_redirects) 0 parts.uri w (omega arith) (omega arith)
