-- ===== src/Handshake/Answered.antt =====
-- The answer of a server (src/handshake/server.rs): what is written is not empty, nothing panics, and
-- a connection can be opened on it.
use tungstenite_rs.Prelude.{
  ℕ, ◌<◌, ◌≡◌, refl, Bool, true, false, Option, none, some, List, [], ◌∷◌, ◌++◌, length, is_some,
  if◌then◌else◌, arith,
}
use tungstenite_rs.Prelude.Text.{codes}
use tungstenite_rs.Types.{
  Error, HeaderMap, Version, http_09, http_10, http_11, other_version, Request, Response,
}
use tungstenite_rs.Result.{Result, ok, err, panic}
use tungstenite_rs.Result.Fallible.{◌>>=◌, is_total, bind_total}
use tungstenite_rs.Stream.{Io}
use tungstenite_rs.Context.{
  server, default_config, WebSocketContext, open_codec, new_with, or_default,
}
use tungstenite_rs.Context
use tungstenite_rs.Deflate.{Settings}
use tungstenite_rs.Deflate.Text.{Bytes, bad_header}
use tungstenite_rs.Deflate.Table.{all_visible}
use tungstenite_rs.Deflate.Agreement.{IsFit, AreFit}
use tungstenite_rs.Deflate.Answering.{accept_offers_total}
use tungstenite_rs.Deflate.Codec.{Flate, Lawful as LawfulFlate}
use tungstenite_rs.Deflate.Config.{accept_deflate_offers, offers_answer}
use tungstenite_rs.Deflate.Negotiate.{accept_offers, headers_select_deflate}
use tungstenite_rs.Deflate.Service.{service}
use tungstenite_rs.Deflate.Serving.{Served, served, accept_deflate_offers-Served}
use tungstenite_rs.Deflate.Totality.{headers_select_deflate_total}
use tungstenite_rs.Handshake.{version_as_str}
use tungstenite_rs.Handshake.Http.{Headers, Digest}
use tungstenite_rs.Handshake.Asking.{IsInRange, new_with_lem}
use tungstenite_rs.Handshake.Server.{
  Config, ServerHandshake, header_lines, write_response, write_error, accept_headers,
  create_response, answer_deflate,
}

-- Some bytes, or an error.
pub data Output : Result Bytes → Type 0 where
  output : (bytes : Bytes) → 0 < length bytes → Output (ok bytes)
  no_output : (e : Error) → Output (err e)

version_as_str-Output : (v : Version) → Output (version_as_str v)
unfolding version_as_str
version_as_str-Output http_09 = output (codes "HTTP/0.9") (omega arith)
version_as_str-Output http_10 = output (codes "HTTP/1.0") (omega arith)
version_as_str-Output http_11 = output (codes "HTTP/1.1") (omega arith)
version_as_str-Output (other_version n) = no_output _

module _ (headers : Headers) where
  header_lines_total : (map : HeaderMap) → is_total (header_lines headers map) ≡ true
  unfolding header_lines
  header_lines_total [] = refl
  header_lines_total ((n, v) ∷ map) = ground (arith, header_lines_total map)

  pub write_response-Output : (r : Response) → Output (write_response headers r)
  unfolding write_response
  write_response-Output r =
      by_parts (version_as_str r.version) (header_lines headers r.headers)
        (version_as_str-Output r.version) (header_lines_total r.headers)
    where
      by_parts :
          (version lines : Result Bytes)
          → Output version
          → is_total lines ≡ true
          → Output (
              version >>= λ v. lines >>= λ ls.
              ok (v ++ codes " " ++ headers.status_text r.status ++ 13 ∷ 10 ∷ (ls ++ 13 ∷ 10 ∷ [])))
      by_parts (ok []) (ok ls) (output v pos) t = absurd (omega arith)
      by_parts (ok (b ∷ v)) (ok ls) (output v' pos) t = output _ (omega arith)
      by_parts (ok v) (err e) o t = no_output e
      by_parts (ok v) panic o t = absurd (cc)
      by_parts (err e) lines o t = no_output e
      by_parts panic lines o t = elim o [ ]

  pub write_error-Output : (r : Response) → Output (write_error headers r)
  unfolding write_error
  write_error-Output r = by_written (write_response headers r) (write_response-Output r)
    where
      with_body : Bytes → Option Bytes → Bytes
      with_body bytes o = elim o [ none ↦ bytes | some body ↦ bytes ++ body ]

      longer :
          (bytes : Bytes) (o : Option Bytes) → 0 < length bytes → 0 < length (with_body bytes o)
      longer bytes none pos = pos
      longer [] (some body) pos = absurd (omega arith)
      longer (b ∷ bytes) (some body) pos = omega arith

      by_written :
          (w : Result Bytes) → Output w → Output (w >>= λ bytes. ok (with_body bytes r.body))
      by_written (ok bytes) (output bytes' pos) = output _ (longer bytes r.body pos)
      by_written (err e) o = no_output e
      by_written panic o = elim o [ ]

module _ (headers : Headers) (digest : Digest) where
  pub create_response_total : (r : Request) → is_total (create_response headers digest r) ≡ true
  unfolding create_response accept_headers
  create_response_total r = ground arith

  module _ {S : Type 0} (world : Io S) (flate : Flate) (lawful : LawfulFlate flate) (rounds : ℕ)
      (takes_visible : (text : Bytes)
        → all_visible text ≡ true
        → headers.from_str text ≡ some text) where
    abbrev pub Answering : Type 0
    Answering = ServerHandshake headers digest world flate rounds

    -- A connection opens with it.
    abbrev pub CanOpen : Option (Config headers digest world flate rounds) → Type 0
    CanOpen config =
        (context : WebSocketContext (service flate rounds)) × (Context.new (service flate rounds)
            server config
          ≡ ok context)

    -- The answer on compression.
    pub data Answered : Result (Response × Answering) → Type 0 where
      answered :
          (response : Response) (c : Answering) → CanOpen c.config → Answered (ok (response, c))
      unanswered : (e : Error) → Answered (err e)

    accept_deflate_offers_total :
        (offers : List Bytes) (config : Config headers digest world flate rounds) (s : Settings)
        → IsFit s
        → config.deflate_settings ≡ some s
        → is_total (accept_deflate_offers flate rounds headers.from_str offers config) ≡ true
    unfolding accept_deflate_offers offers_answer
    accept_deflate_offers_total offers config s fit on =
        rw (on, offers_answer)
          (bind_total (accept_offers headers.from_str s offers) _
            (accept_offers_total s fit headers.from_str takes_visible offers) (λ a. refl))

    default-CanOpen : CanOpen none
    unfolding Context.new or_default default_config open_codec
    default-CanOpen =
        new_with_lem flate rounds server _ (default_config (service flate rounds)) none
          (omega arith) refl

    plain-CanOpen :
        (config : Config headers digest world flate rounds)
        → config.write_buffer_size < config.max_write_buffer_size
        → config.deflate_settings ≡ none
        → CanOpen (some config)
    unfolding Context.new or_default open_codec
    plain-CanOpen config sizes off =
        new_with_lem flate rounds server _ config none sizes (rw (off, open_codec) refl)

    plain-Answered :
        (response : Response) (c : Answering) (selected : Result Bool)
        → is_total selected ≡ true
        → CanOpen c.config
        → Answered (selected >>= λ b. if b then err bad_header else ok (response, c))
    plain-Answered response c (ok true) t v = unanswered _
    plain-Answered response c (ok false) t v = answered response c v
    plain-Answered response c (err e) t v = unanswered e
    plain-Answered response c panic t v = absurd (cc)

    abbrev Offered : Type 0
    Offered = Config headers digest world flate rounds × Option Bytes

    abbrev with_answered : Response → Answering → Offered → Response × Answering
    with_answered response c a = (
      elim a.1 [
        | none ↦ response
        | some value ↦ record response {
          headers = headers.append response.headers (codes "Sec-WebSocket-Extensions") value;
        }
      ],
      record c { config = some a.0 },
    )

    compressed-Answered :
        (response : Response) (c : Answering) (config : Config headers digest world flate rounds)
        (s : Settings) (offers : List Bytes) (contains : Bool)
        → config.write_buffer_size < config.max_write_buffer_size
        → IsFit s
        → config.deflate_settings ≡ some s
        → Answered (
            if contains
            then err bad_header
            else (accept_deflate_offers flate rounds headers.from_str offers config >>= λ a.
                ok (with_answered response c a)))
    compressed-Answered response c config s offers true sizes fit on = unanswered _
    compressed-Answered response c config s offers false sizes fit on =
        by_answer (accept_deflate_offers flate rounds headers.from_str offers config) refl
          (accept_deflate_offers_total offers config s fit on)
      where
        by_served :
            (after : Config headers digest world flate rounds) (b : Bool)
            → Served flate lawful rounds after b
            → CanOpen (some after)
        by_served after b (served context e same) = (context, e)

        by_answer :
            (r : Result Offered)
            → accept_deflate_offers flate rounds headers.from_str offers config ≡ r
            → is_total r ≡ true
            → Answered (r >>= λ a. ok (with_answered response c a))
        by_answer (ok (after, value)) q t = answered _ _ (
            by_served after (is_some value) (
              accept_deflate_offers-Served flate lawful rounds headers.from_str config after offers
                value sizes (rw (on) fit) q))
        by_answer (err e) q t = unanswered e
        by_answer panic q t = absurd (cc)

    pub answer_deflate-Answered :
        (request : Request) (response : Response) (c : Answering)
        → IsInRange headers world flate lawful rounds c.config
        → Answered (answer_deflate headers digest world flate rounds request response c)
    unfolding answer_deflate
    answer_deflate-Answered request response c v = by_config c.config refl v
      where
        selected : Result Bool
        selected =
            headers_select_deflate
              (headers.get_all response.headers (codes "Sec-WebSocket-Extensions"))

        selected_total : is_total selected ≡ true
        selected_total = headers_select_deflate_total _

        by_settings :
            (config : Config headers digest world flate rounds) (o : Option Settings)
            → c.config ≡ some config
            → config.deflate_settings ≡ o
            → config.write_buffer_size < config.max_write_buffer_size
            → AreFit o
            → Answered (answer_deflate headers digest world flate rounds request response c)
        by_settings config none q off sizes fit =
            rw (q, answer_deflate)
              (rw (off, answer_deflate)
                (plain-Answered response c selected selected_total
                  (rw (q) (plain-CanOpen config sizes off))))
        by_settings config (some s) q on sizes fit =
            rw (q, answer_deflate)
              (rw (on, answer_deflate) (compressed-Answered response c config s _ _ sizes fit on))

        by_config :
            (o : Option (Config headers digest world flate rounds))
            → c.config ≡ o
            → IsInRange headers world flate lawful rounds o
            → Answered (answer_deflate headers digest world flate rounds request response c)
        by_config none q k =
            rw (q, answer_deflate)
              (plain-Answered response c selected selected_total (rw (q) default-CanOpen))
        by_config (some config) q (sizes, fit) =
            by_settings config config.deflate_settings q refl sizes fit
