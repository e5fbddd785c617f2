-- ===== src/Handshake/Loop.antt =====
-- The loop of a handshake ends (`MidHandshake::handshake` of src/handshake/mod.rs).
use tungstenite_rs.Prelude.{ℕ, zero, suc, ◌<◌, ◌≡◌, refl, sym, subst, List, [], length, arith}
use tungstenite_rs.Types.{Error}
use tungstenite_rs.Result.{Result, ok, err, panic}
use tungstenite_rs.Stream.{Io, IoResult, Lawful}
use tungstenite_rs.Handshake.{
  ProcessingResult, go_on, finished, Ending, done, interrupted, HandshakeRole, after_processing,
  after_stage, handshake,
}
use tungstenite_rs.Handshake.Buffer.{chunk, IsSound}
use tungstenite_rs.Handshake.Machine.{
  AttackCheck, HandshakeState, reading, writing, flushing, HandshakeMachine, RoundResult,
  StageResult, rounds_left, run_stage,
}
use tungstenite_rs.Handshake.Attack.{IsWithin}
use tungstenite_rs.Handshake.Reading.{
  IsParser, Last, parsed, closed, read_fails, attacked, refused, ReadStage, after,
}
use tungstenite_rs.Handshake.Reading.Stage.{run_stage-ReadStage}
use tungstenite_rs.Handshake.Reading
use tungstenite_rs.Handshake.Writing.{
  HasRemaining, WriteStage, written, blocks_flush, took_nothing, fails_write, fails_flush,
}
use tungstenite_rs.Handshake.Writing.Stage.{run_stage-WriteStage, run_stage-flushing}
use tungstenite_rs.Handshake.Writing
use tungstenite_rs.Codec.Write.{nothing}

-- The machine can go on: the position of its buffer is in it, the attack check has been passed, and
-- what is to be written is not empty.
abbrev pub IsReady : HandshakeState → Type 0
IsReady (reading buf check) = IsSound buf × IsWithin check
IsReady (writing buf) = HasRemaining buf
IsReady flushing = Unit

-- What a stage does: it reads, or it writes and flushes.
pub data Phase : Type 0 where
  reads writes : Phase

abbrev pub phase : HandshakeState → Phase
phase (reading buf check) = reads
phase (writing buf) = writes
phase flushing = writes

abbrev pub ended_phase : {Obj S : Type 0} → StageResult Obj S → Phase
ended_phase (StageResult.done_reading obj s tail) = reads
ended_phase (StageResult.done_writing s) = writes

module _ {Role S Final : Type 0} (IsValid : Phase → Role → Type 0)
    (stages_left : Role → Phase → ℕ) where
  -- What may follow a stage with so many left: a stage with fewer left, the end, or an error.
  pub data Follows (left : ℕ) : Result (ProcessingResult S Final) × Role → Type 0 where
    further :
        (m : HandshakeMachine S) (role : Role)
        → IsReady m.state
        → IsValid (phase m.state) role
        → stages_left role (phase m.state) < left
        → Follows left (ok (go_on m), role)
    ends : (a : Final) (role : Role) → Follows left (ok (finished a), role)
    refuses : (e : Error) (role : Role) → Follows left (err e, role)

  -- A role that goes through stages that get fewer, with machines that can go on, and does not
  -- panic.
  pub record IsRole {Obj : Type 0} (actions : HandshakeRole Role S Obj Final) : Type 0 where
    pub parser : IsParser actions.try_parse
    pub follows :
        (stage : StageResult Obj S) (role : Role)
        → IsValid (ended_phase stage) role
        → Follows (stages_left role (ended_phase stage)) (actions.stage_finished stage role)

-- A handshake ends done, failed, or interrupted in a way that it can be taken up again, or it panics
-- on a stream that took no byte of some that it was given.
pub data Ends {Role S Final : Type 0} (world : Io S) (IsValid : Phase → Role → Type 0)
    : Result (Ending Role S Final) → Type 0 where
  ends_done : (a : Final) → Ends world IsValid (ok (done a))
  can_resume :
      (role : Role) (m : HandshakeMachine S)
      → IsValid (phase m.state) role
      → IsReady m.state
      → Ends world IsValid (ok (interrupted role m))
  fails : (e : Error) → Ends world IsValid (err e)
  took_no_byte :
      (bytes : List ℕ) (s s' : S)
      → 0 < length bytes
      → world.write bytes s ≡ (IoResult.done 0, s')
      → Ends world IsValid panic

module _ {Role S Obj Final : Type 0} (world : Io S) (actions : HandshakeRole Role S Obj Final)
    (lawful : Lawful world) (parser : IsParser actions.try_parse) where
  -- A stage of a phase ended or blocked, or the stream took no byte.
  data Stage (p : Phase) : Result (RoundResult Obj S) → Type 0 where
    over : (a : StageResult Obj S) → ended_phase a ≡ p → Stage p (ok (RoundResult.stage_finished a))
    blocked :
        (m : HandshakeMachine S)
        → phase m.state ≡ p
        → IsReady m.state
        → Stage p (ok (RoundResult.would_block m))
    failed : (e : Error) → Stage p (err e)
    stuck :
        (bytes : List ℕ) (s s' : S)
        → 0 < length bytes
        → world.write bytes s ≡ (IoResult.done 0, s')
        → Stage p panic

  of_read_end :
      (bytes : List ℕ) (check : AttackCheck) (s : S) (r : Result (RoundResult Obj S))
      → Last world actions.try_parse bytes check s r
      → Stage reads r
  of_read_end bytes check s r (parsed packet s' size obj recv w e) = over _ refl
  of_read_end bytes check s r (Reading.blocks s' buf e q h w) = blocked _ refl (h, w)
  of_read_end bytes check s r (closed s' e) = failed _
  of_read_end bytes check s r (read_fails kind s' e other) = failed _
  of_read_end bytes check s r (attacked packet s' recv refusal) = failed _
  of_read_end bytes check s r (refused packet s' e recv w q) = failed _

  of_reading :
      (unread : List ℕ) (check : AttackCheck) (s : S) (r : Result (RoundResult Obj S))
      → ReadStage world actions.try_parse unread check s r
      → Stage reads r
  of_reading unread check s r (after bytes check' s' recv last) = of_read_end bytes check' s' r last

  of_writing :
      (pending : List ℕ) (s : S) (r : Result (RoundResult Obj S))
      → WriteStage world actions.try_parse pending s r
      → Stage writes r
  of_writing pending s r (written s' s'' sends e) = over _ refl
  of_writing pending s r (Writing.blocks sent s' s'' buf sends e h w) = blocked _ refl h
  of_writing pending s r (blocks_flush s' s'' sends e) = blocked _ refl tt
  of_writing pending s r (took_nothing sent bytes s' s'' sends q pos e) = stuck bytes s' s'' pos e
  of_writing pending s r (fails_write sent bytes kind s' s'' sends q pos e other) = failed _
  of_writing pending s r (fails_flush kind s' s'' sends e other) = failed _

  run_stage-Stage :
      (m : HandshakeMachine S)
      → IsReady m.state
      → Stage (phase m.state) (run_stage world actions.try_parse (rounds_left m.state) m)
  unfolding rounds_left
  run_stage-Stage m h = by_state m.state h
    where
      by_state :
          (state : HandshakeState)
          → IsReady state
          → Stage (phase state) (
              run_stage world actions.try_parse
                (rounds_left state)
                (record { stream = m.stream; state = state }))
      by_state (reading buf check) (k, w) = of_reading (chunk buf) check m.stream _ (
          run_stage-ReadStage world actions.try_parse lawful parser _ buf check m.stream k w
            (omega arith))
      by_state (writing buf) k =
          of_writing (chunk buf) m.stream _
            (run_stage-WriteStage world actions.try_parse lawful _ buf m.stream k (omega arith))
      by_state flushing k = of_writing [] m.stream _ (
          run_stage-flushing world actions.try_parse lawful 1 [] m.stream m.stream (omega arith)
            nothing)

module _ {Role S Obj Final : Type 0} (world : Io S) (actions : HandshakeRole Role S Obj Final)
    (lawful : Lawful world) (IsValid : Phase → Role → Type 0) (stages_left : Role → Phase → ℕ)
    (good : IsRole IsValid stages_left actions) where
  pub handshake-Ends :
      (stages : ℕ) (role : Role) (m : HandshakeMachine S)
      → IsReady m.state
      → IsValid (phase m.state) role
      → stages_left role (phase m.state) < stages
      → Ends world IsValid (handshake world actions stages role m)
  unfolding after_stage after_processing
  handshake-Ends zero role m h v enough = absurd (omega arith)
  handshake-Ends (suc stages) role m h v enough =
      from_rest (λ role' m' h' v' l. handshake-Ends stages role' m' h' v' l)
    where
      Rest : Type 0
      Rest =
          (role' : Role) (m' : HandshakeMachine S)
          → IsReady m'.state
          → IsValid (phase m'.state) role'
          → stages_left role' (phase m'.state) < stages
          → Ends world IsValid (handshake world actions stages role' m')

      by_follower :
          (r : Result (ProcessingResult S Final) × Role)
          → Follows IsValid stages_left (stages_left role (phase m.state)) r
          → Rest
          → Ends world IsValid (after_processing world actions (handshake world actions stages) r)
      by_follower r (further m' role' ready k less) rest = rest role' m' ready k (omega arith)
      by_follower r (ends a role') rest = ends_done a
      by_follower r (refuses e role') rest = fails e

      by_stage :
          (r : Result (RoundResult Obj S))
          → Stage world actions lawful good.parser (phase m.state) r
          → Rest
          → Ends world IsValid (after_stage world actions (handshake world actions stages) role r)
      by_stage r (over stage same) rest =
          by_follower (actions.stage_finished stage role)
            (subst
              (λ p.
                Follows IsValid stages_left (stages_left role p)
                  (actions.stage_finished stage role))
              same (good.follows stage role (subst (λ p. IsValid p role) (sym same) v)))
            rest
      by_stage r (blocked m' same k) rest =
          can_resume role m' (subst (λ p. IsValid p role) (sym same) v) k
      by_stage r (failed e) rest = fails e
      by_stage r (stuck bytes s s' pos e) rest = took_no_byte bytes s s' pos e

      from_rest : Rest → Ends world IsValid (handshake world actions (suc stages) role m)
      from_rest rest =
          unfold handshake in
          by_stage (run_stage world actions.try_parse (rounds_left m.state) m)
            (run_stage-Stage world actions lawful good.parser m h) rest
