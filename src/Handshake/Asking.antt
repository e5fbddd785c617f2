-- ===== src/Handshake/Asking.antt =====
-- The handshake of a client ends (`ClientHandshake` of src/handshake/client.rs in the loop of
-- src/handshake/mod.rs).
use tungstenite_rs.Prelude.{ℕ, ◌<◌, ◌≡◌, refl, true, false, Option, none, some, List, lt→ltb, arith}
use tungstenite_rs.Prelude.Text.{codes}
use tungstenite_rs.Types.{Response}
use tungstenite_rs.Result.{Result, ok, err, panic}
use tungstenite_rs.Result.Fallible.{is_total, bind_total}
use tungstenite_rs.Stream.{Io, Lawful}
use tungstenite_rs.Context.{
  Role, client, active, WebSocketConfig, default_config, WebSocketContext, open_codec, with_codec,
  new_with, or_default,
}
use tungstenite_rs.Context
use tungstenite_rs.Codec.{FrameCodec}
use tungstenite_rs.Codec
use tungstenite_rs.Deflate.{Settings}
use tungstenite_rs.Deflate.Text.{Bytes}
use tungstenite_rs.Deflate.Agreement.{AreFit}
use tungstenite_rs.Deflate.Codec.{Flate, Lawful as LawfulFlate, Context as Compression}
use tungstenite_rs.Deflate.Service.{service}
use tungstenite_rs.Deflate.Totality.{accept_response_total, headers_select_deflate_total}
use tungstenite_rs.Deflate.Negotiate.{headers_select_deflate}
use tungstenite_rs.Handshake.{ProcessingResult, handshake}
use tungstenite_rs.Handshake.Http.{Headers, Httparse, LawfulParse}
use tungstenite_rs.Handshake.Machine.{HandshakeMachine, StageResult, new_check, start_read}
use tungstenite_rs.Handshake.Buffer
use tungstenite_rs.Handshake.Parsing.{parse_response-IsParser}
use tungstenite_rs.Handshake.Loop.{
  Phase, reads, writes, phase, ended_phase, IsReady, Follows, further, ends, refuses, IsRole, Ends,
  handshake-Ends,
}
use tungstenite_rs.Handshake.Client.{
  VerifyData, verify_deflate_response, verify_response, verify_subprotocol, with_tail, Config,
  ClientHandshake, Final, offered_deflate, with_agreed, open_connection, after_verify,
  stage_finished,
}
use tungstenite_rs.Handshake.Roles.{client_role, stage_limit}
use tungstenite_rs.Handshake.Established.{opens_agreed}

-- A machine that has just begun to read can go on.
pub start_read-IsReady : {S : Type 0} (s : S) → IsReady (start_read s).state
unfolding start_read Buffer.new Buffer.from_partially_read new_check
start_read-IsReady s = (
  omega arith,
  record { few_packets = omega arith; few_bytes = omega arith; large_packets = λ h. omega arith },
)

verify_deflate_response_total :
    (offered : Option Settings) (values : List Bytes)
    → is_total (verify_deflate_response offered values) ≡ true
unfolding verify_deflate_response
verify_deflate_response_total (some s) values = accept_response_total s values
verify_deflate_response_total none values =
    bind_total (headers_select_deflate values) _ (headers_select_deflate_total values)
      (λ selected. ground arith)

-- A connection opens on sizes in range and a codec that opens.
pub new_with_lem :
    (flate : Flate) (rounds : ℕ) (role : Role) (frame : FrameCodec)
    (config : WebSocketConfig (service flate rounds)) (codec : Option (Compression flate))
    → config.write_buffer_size < config.max_write_buffer_size
    → open_codec (service flate rounds) role config.deflate_settings ≡ ok codec
    → (context : WebSocketContext (service flate rounds)) × (new_with
          (service flate rounds)
          role
          frame
          config
        ≡ ok context)
unfolding new_with with_codec
new_with_lem flate rounds role frame config codec sizes o =
    (context, simp (lt→ltb _ _ sizes, o) refl)
  where
    context : WebSocketContext (service flate rounds)
    context = record {
      role = role;
      frame =
          Codec.set_out_buffer_write_len config.write_buffer_size
            (Codec.set_max_out_buffer_len config.max_write_buffer_size frame);
      state = active;
      incomplete = none;
      additional_send = none;
      unflushed_additional = false;
      config = config;
      codec = codec;
      compressed_incomplete = false;
      compression_unusable = false;
    }

module _ {S : Type 0} (headers : Headers) (world : Io S) (flate : Flate)
    (lawful : LawfulFlate flate) (rounds : ℕ) where
  verify_response_total :
      (d : VerifyData) (r : Response) → is_total (verify_response headers d r) ≡ true
  unfolding verify_response verify_subprotocol
  verify_response_total d r = ground arith

  with_tail_total :
      (tail : List ℕ) (r : Result Response)
      → is_total r ≡ true
      → is_total (with_tail headers tail r) ≡ true
  unfolding with_tail
  with_tail_total tail r h = ground arith

  abbrev Asking : Type 0
  Asking = ClientHandshake headers world flate rounds

  -- The sizes of the buffers and the windows are in range, if there is a configuration.
  abbrev pub IsInRange : Option (Config headers world flate rounds) → Type 0
  IsInRange none = Unit
  IsInRange (some config) =
      (config.write_buffer_size < config.max_write_buffer_size) × AreFit config.deflate_settings

  -- It writes its request, then reads the response.
  abbrev pub stages_left : Asking → Phase → ℕ
  stages_left c writes = 2
  stages_left c reads = 1

  abbrev pub IsAsking : Phase → Asking → Type 0
  IsAsking p c = IsInRange c.config

  opens :
      (config : Option (Config headers world flate rounds)) (values : List Bytes)
      (agreed : Option Settings) (tail : List ℕ)
      → IsInRange config
      → verify_deflate_response (offered_deflate headers world flate rounds config) values
        ≡ ok agreed
      → (context : WebSocketContext (service flate rounds)) × (Context.from_partially_read
            (service flate rounds)
            world
            tail
            client
            (with_agreed headers world flate rounds agreed config)
          ≡ ok context)
  unfolding offered_deflate with_agreed Context.from_partially_read or_default default_config
      open_codec
  opens none values agreed tail v e =
      new_with_lem flate rounds client _ (default_config (service flate rounds)) none (omega arith)
        refl
  opens (some config) values agreed tail (sizes, fit) e =
      let (codec, o) =
        opens_agreed headers world flate lawful rounds config.deflate_settings agreed values fit
          e in
      new_with_lem flate rounds client _ (record config { deflate_settings = agreed }) codec sizes o

  abbrev Outcome : Type 0
  Outcome = Result (ProcessingResult S (Final headers world flate rounds)) × Asking

  open_connection-Follows :
      (r : Response) (s : S) (tail : List ℕ) (c : Asking)
      → IsInRange c.config
      → Follows IsAsking stages_left 1 (open_connection headers world flate rounds r s tail c)
  unfolding open_connection
  open_connection-Follows r s tail c v =
      by_answer (verify_deflate_response offered values) refl
        (verify_deflate_response_total offered values)
    where
      offered : Option Settings
      offered = offered_deflate headers world flate rounds c.config

      values : List Bytes
      values = headers.get_all r.headers (codes "Sec-WebSocket-Extensions")

      Goal : Type 0
      Goal = Follows IsAsking stages_left 1 (open_connection headers world flate rounds r s tail c)

      by_answer :
          (a : Result (Option Settings))
          → verify_deflate_response offered values ≡ a
          → is_total a ≡ true
          → Goal
      by_answer (ok agreed) q t =
          let (context, o) = opens c.config values agreed tail v q in
          rw (q, open_connection) (rw (o, open_connection) (ends _ _))
      by_answer (err e) q t = rw (q, open_connection) (refuses e c)
      by_answer panic q t = absurd (cc)

  after_verify-Follows :
      (x : Result Response) (s : S) (tail : List ℕ) (c : Asking)
      → is_total x ≡ true
      → IsInRange c.config
      → Follows IsAsking stages_left 1 (after_verify headers world flate rounds x s tail c)
  unfolding after_verify
  after_verify-Follows (ok r) s tail c t v = open_connection-Follows r s tail c v
  after_verify-Follows (err e) s tail c t v = refuses e c
  after_verify-Follows panic s tail c t v = absurd (cc)

  stage_finished-Follows :
      (stage : StageResult Response S) (c : Asking)
      → IsAsking (ended_phase stage) c
      → Follows IsAsking stages_left
          (stages_left c (ended_phase stage))
          (stage_finished headers world flate rounds stage c)
  unfolding stage_finished start_read
  stage_finished-Follows (StageResult.done_writing s) c v =
      further (start_read s) c (start_read-IsReady s) v (omega arith)
  stage_finished-Follows (StageResult.done_reading r s tail) c v =
      after_verify-Follows (with_tail headers tail (verify_response headers c.verify_data r)) s tail
        c
        (with_tail_total tail (verify_response headers c.verify_data r)
          (verify_response_total c.verify_data r))
        v

  module _ (parser : Httparse) (parses : LawfulParse parser) where
    client_role-IsRole : IsRole IsAsking stages_left (client_role headers parser world flate rounds)
    client_role-IsRole = record {
      parser = parse_response-IsParser headers parser parses;
      follows = stage_finished-Follows;
    }

    -- The handshake of a client ends within three stages, from any machine that can go on: with a
    -- connection, with an error, or interrupted with a machine that can be taken up again. Neither
    -- parsing and judging the response nor opening the connection panics; only the assertion on a
    -- stream that takes no byte does. The buffer sizes and windows of its configuration are in range,
    -- `httparse`, flate2 and the stream behave as documented.
    pub handshake-Ends-client :
        Lawful world
        → (c : Asking) (m : HandshakeMachine S) → IsReady m.state
        → IsInRange c.config
        → Ends world IsAsking
            (handshake world (client_role headers parser world flate rounds) stage_limit c m)
    handshake-Ends-client lawful_world c m ready v =
        handshake-Ends world (client_role headers parser world flate rounds) lawful_world IsAsking
          stages_left client_role-IsRole stage_limit c m ready v (at_most (phase m.state))
      where
        at_most : (p : Phase) → stages_left c p < 3
        at_most reads = omega arith
        at_most writes = omega arith
