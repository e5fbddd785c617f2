-- ===== src/Handshake.antt =====
-- src/handshake/mod.rs: the loop of a handshake over the machine of src/handshake/machine.rs. The
-- role, its data and its parser are parameters.
pub mod Buffer
pub mod Machine
pub mod Attack
pub mod Reading
pub mod Writing
pub mod Loop
pub mod Http
pub mod Parse
pub mod Parsing
pub mod Server
pub mod Fields
pub mod Upgrade
pub mod Answer
pub mod Wire
pub mod Client
pub mod Start
pub mod Roles
pub mod Generated
pub mod Verified
pub mod Established
pub mod Agreed
pub mod Asking
pub mod Answered
pub mod Serving
pub mod Started
use tungstenite_rs.Prelude.{ℕ, zero, suc, List, ◌++◌}
use tungstenite_rs.Types.{
  Version, http_09, http_10, http_11, other_version, Error, protocol, wrong_http_version,
}
use tungstenite_rs.Result.{Result, ok, err, panic}
use tungstenite_rs.Stream.{Io}
use tungstenite_rs.Prelude.Text.{codes}
use tungstenite_rs.Handshake.Machine.{
  HandshakeMachine, TryParse, StageResult, RoundResult, would_block, incomplete, stage_finished,
  rounds_left, run_stage,
}

unfoldable pub version_as_str : Version → Result (List ℕ)
version_as_str http_09 = ok (codes "HTTP/0.9")
version_as_str http_10 = ok (codes "HTTP/1.0")
version_as_str http_11 = ok (codes "HTTP/1.1")
version_as_str (other_version n) = err (protocol wrong_http_version)

-- `sha1` and `data_encoding::BASE64` are parameters.
unfoldable pub derive_accept_key : (List ℕ → List ℕ) → (List ℕ → List ℕ) → List ℕ → List ℕ
derive_accept_key sha1 base64 request_key =
    base64 (sha1 (request_key ++ codes "258EAFA5-E914-47DA-95CA-C5AB0DC85B11"))

pub data ProcessingResult (S Final : Type 0) : Type 0 where
  go_on : HandshakeMachine S → ProcessingResult S Final
  finished : Final → ProcessingResult S Final

-- How a handshake that did not fail ended. `HandshakeError::Failure` is the error of the crate.
pub data Ending (Role S Final : Type 0) : Type 0 where
  done : Final → Ending Role S Final
  interrupted : Role → HandshakeMachine S → Ending Role S Final

pub record HandshakeRole (Role S Obj Final : Type 0) : Type 0 where
  pub try_parse : TryParse Obj
  pub stage_finished : StageResult Obj S → Role → Result (ProcessingResult S Final) × Role

module _ {Role S Obj Final : Type 0} (world : Io S) (actions : HandshakeRole Role S Obj Final) where
  -- What is left of `handshake` when a stage has ended.
  unfoldable pub after_processing :
      (Role → HandshakeMachine S → Result (Ending Role S Final))
      → Result (ProcessingResult S Final) × Role
      → Result (Ending Role S Final)
  after_processing rest (ok (go_on m), role) = rest role m
  after_processing rest (ok (finished a), role) = ok (done a)
  after_processing rest (err e, role) = err e
  after_processing rest (panic, role) = panic

  unfoldable pub after_stage :
      (Role → HandshakeMachine S → Result (Ending Role S Final))
      → Role
      → Result (RoundResult Obj S)
      → Result (Ending Role S Final)
  unfolding after_processing
  after_stage rest role (ok (would_block m)) = ok (interrupted role m)
  after_stage rest role (ok (incomplete m)) = panic
  after_stage rest role (ok (stage_finished s)) =
      after_processing rest (actions.stage_finished s role)
  after_stage rest role (err e) = err e
  after_stage rest role panic = panic

  -- Only the role knows how many stages it goes through.
  unfoldable pub handshake : ℕ → Role → HandshakeMachine S → Result (Ending Role S Final)
  unfolding after_stage
  handshake zero role m = panic
  handshake (suc stages) role m =
      after_stage (handshake stages) role
        (run_stage world actions.try_parse (rounds_left m.state) m)
