-- ===== src/Handshake/Serving.antt =====
-- The handshake of a server ends (`ServerHandshake` of src/handshake/server.rs in the loop of
-- src/handshake/mod.rs).
use tungstenite_rs.Prelude.{
  ℕ, ◌<◌, ◌≡◌, refl, ◌⊎◌, inl, inr, Bool, true, false, Option, none, some, [], ◌∷◌, length, is_some,
  if◌then◌else◌, arith,
}
use tungstenite_rs.Types.{Error, protocol, custom_response_successful, Request, Response}
use tungstenite_rs.Result.{Result, ok, err, panic}
use tungstenite_rs.Result.Fallible.{◌>>=◌, is_total}
use tungstenite_rs.Stream.{Io, Lawful}
use tungstenite_rs.Deflate.Text.{Bytes}
use tungstenite_rs.Deflate.Table.{all_visible}
use tungstenite_rs.Deflate.Codec.{Flate, Lawful as LawfulFlate}
use tungstenite_rs.Handshake.{handshake}
use tungstenite_rs.Handshake.Http.{Headers, Httparse, LawfulParse, Digest}
use tungstenite_rs.Handshake.Machine.{HandshakeMachine, StageResult, start_write}
use tungstenite_rs.Handshake.Parsing.{parse_request-IsParser}
use tungstenite_rs.Handshake.Loop.{
  Phase, reads, writes, phase, ended_phase, IsReady, Follows, further, ends, refuses, IsRole, Ends,
  handshake-Ends,
}
use tungstenite_rs.Handshake.Asking.{IsInRange}
use tungstenite_rs.Handshake.Roles.{server_role, stage_limit}
use tungstenite_rs.Handshake.Server
use tungstenite_rs.Handshake.Server.{
  ServerHandshake, Final, write_response, write_error, create_response, answer, write_answer,
  start_answer, open_socket, stage_finished,
}
use tungstenite_rs.Handshake.Answered.{
  Output, output, write_response-Output, write_error-Output, create_response_total, CanOpen,
  Answered, answered, unanswered, answer_deflate-Answered,
}

module _ {S : Type 0} (headers : Headers) (digest : Digest) (world : Io S) (flate : Flate)
    (lawful : LawfulFlate flate) (rounds : ℕ)
    (takes_visible : (text : Bytes)
      → all_visible text ≡ true
      → headers.from_str text ≡ some text) where
  abbrev Serving : Type 0
  Serving = ServerHandshake headers digest world flate rounds

  -- It reads the request, then writes its answer; it has refused by then, or can open.
  abbrev pub stages_left : Serving → Phase → ℕ
  stages_left c reads = 2
  stages_left c writes = 1

  abbrev pub IsServing : Phase → Serving → Type 0
  IsServing reads c = IsInRange headers world flate lawful rounds c.config
  IsServing writes c =
      (is_some c.error_response ≡ true)
      ⊎ CanOpen headers digest world flate lawful rounds takes_visible c.config

  -- What a server writes after it has read a request.
  data Written : Result (S × (Bytes × Serving)) → Type 0 where
    written :
        (s : S) (bytes : Bytes) (c : Serving)
        → 0 < length bytes
        → IsServing writes c
        → Written (ok (s, (bytes, c)))
    unwritten : (e : Error) → Written (err e)

  response-Written :
      (s : S) (r : Result (Response × Serving))
      → Answered headers digest world flate lawful rounds takes_visible r
      → Written (r >>= λ a. write_response headers a.0 >>= λ bytes. ok (s, (bytes, a.1)))
  response-Written s r (answered response c v) =
      by_output (write_response headers response) (write_response-Output headers response)
    where
      by_output : (w : Result Bytes) → Output w → Written (w >>= λ bytes. ok (s, (bytes, c)))
      by_output (ok bytes) (output bytes' pos) = written s bytes c pos (inr v)
      by_output (err e) o = unwritten e
      by_output panic o = elim o [ ]
  response-Written s r (unanswered e) = unwritten e

  refusal-Written :
      (s : S) (refusal : Response) (c : Serving) (success : Bool) (w : Result Bytes)
      → Output w
      → Written (
          if success
          then err (protocol custom_response_successful)
          else (w >>= λ bytes. ok (s, (bytes, record c { error_response = some refusal }))))
  refusal-Written s refusal c true w o = unwritten _
  refusal-Written s refusal c false (ok bytes) (output bytes' pos) =
      written s bytes (record c { error_response = some refusal }) pos (inl refl)
  refusal-Written s refusal c false (err e) o = unwritten e
  refusal-Written s refusal c false panic o = elim o [ ]

  write_answer-Written :
      (request : Request) (s : S) (a : Response ⊎ Response) (c : Serving)
      → IsServing reads c
      → Written (write_answer headers digest world flate rounds request s a c)
  unfolding write_answer
  write_answer-Written request s (inl response) c v = response-Written s _ (
      answer_deflate-Answered headers digest world flate lawful rounds takes_visible request
        response c v)
  write_answer-Written request s (inr refusal) c v =
      refusal-Written s refusal c (headers.is_success refusal.status) (write_error headers refusal)
        (write_error-Output headers refusal)

  start_answer-Follows :
      (r : Result (S × (Bytes × Serving))) (before : Serving)
      → Written r
      → Follows IsServing stages_left 2 (start_answer headers digest world flate rounds r before)
  unfolding start_answer start_write
  start_answer-Follows r before (written s bytes c pos v) =
      further (start_write s bytes) c pos v (omega arith)
  start_answer-Follows r before (unwritten e) = refuses e before

  answers-Written :
      (request : Request) (s : S) (c : Serving) (r : Result Response)
      (make : Response → Response ⊎ Response)
      → is_total r ≡ true
      → IsServing reads c
      → Written (
          r >>= λ response.
          write_answer headers digest world flate rounds request s (make response) c)
  answers-Written request s c (ok response) make t v =
      write_answer-Written request s (make response) c v
  answers-Written request s c (err e) make t v = unwritten e
  answers-Written request s c panic make t v = absurd (cc)

  stage_finished-Follows :
      (stage : StageResult Request S) (c : Serving)
      → IsServing (ended_phase stage) c
      → Follows IsServing stages_left
          (stages_left c (ended_phase stage))
          (stage_finished headers digest world flate rounds stage c)
  unfolding stage_finished open_socket
  stage_finished-Follows (StageResult.done_reading request s (b ∷ tail)) c v = refuses _ c
  stage_finished-Follows (StageResult.done_reading request s []) c v = start_answer-Follows _ c (
      answers-Written request s (record c { callback = none })
        (create_response headers digest request)
        (answer headers digest world flate rounds c.callback request)
        (create_response_total headers digest request) v)
  stage_finished-Follows (StageResult.done_writing s) c v = by_refusal c.error_response refl v
    where
      by_refusal :
          (o : Option Response)
          → c.error_response ≡ o
          → (is_some o ≡ true)
            ⊎ CanOpen headers digest world flate lawful rounds takes_visible c.config
          → Follows IsServing stages_left 1
              (stage_finished headers digest world flate rounds (StageResult.done_writing s) c)
      by_refusal (some refusal) q k = rw (q, stage_finished) (refuses _ _)
      by_refusal none q (inl k) = absurd (cc)
      by_refusal none q (inr (context, e)) =
          simp (q, stage_finished) (rw (e, open_socket) (ends _ _))

  module _ (parser : Httparse) (parses : LawfulParse parser) where
    server_role-IsRole :
        IsRole IsServing stages_left (server_role headers parser world flate rounds digest)
    server_role-IsRole = record {
      parser = parse_request-IsParser headers parser parses;
      follows = stage_finished-Follows;
    }

    -- The handshake of a server ends within three stages, from any machine that can go on: with a
    -- connection, with an error, or interrupted with a machine that can be taken up again. Neither
    -- parsing and answering the request, whatever it offers, nor opening the connection panics; only
    -- the assertion on a stream that takes no byte does. The buffer sizes and windows of its
    -- configuration are in range as long as it reads, and when it writes it has refused or can open;
    -- `httparse`, flate2 and the stream behave as documented, header values take visible ASCII.
    pub handshake-Ends-server :
        Lawful world
        → (c : Serving) (m : HandshakeMachine S) → IsReady m.state
        → IsServing (phase m.state) c
        → Ends world IsServing
            (handshake world (server_role headers parser world flate rounds digest) stage_limit c m)
    handshake-Ends-server lawful_world c m ready v =
        handshake-Ends world (server_role headers parser world flate rounds digest) lawful_world
          IsServing stages_left server_role-IsRole stage_limit c m ready v (at_most (phase m.state))
      where
        at_most : (p : Phase) → stages_left c p < 3
        at_most reads = omega arith
        at_most writes = omega arith
