-- ===== src/Examples/Rounds.antt =====
-- Concrete inputs for the theorems on src/handshake: a role that writes, then reads a pair of bytes.
use tungstenite_rs.Prelude.{
  ℕ, zero, suc, none, some, List, [], ◌∷◌, length, take, ltb, if◌then◌else◌, arith,
}
use tungstenite_rs.Result.{Result, ok}
use tungstenite_rs.Handshake.{ProcessingResult, go_on, finished, HandshakeRole}
use tungstenite_rs.Handshake.Buffer.{Storage, chunk, remaining}
use tungstenite_rs.Handshake.Machine.{
  AttackCheck, check_incoming_packet_size, reading, writing, StageResult, TryParse, run_stage,
}
use tungstenite_rs.Handshake.Attack.{IsWithin, Checked, check_incoming_packet_size-Checked}
use tungstenite_rs.Handshake.Reading.{IsParser, ReadStage}
use tungstenite_rs.Handshake.Reading.Stage.{run_stage-ReadStage}
use tungstenite_rs.Handshake.Writing.{WriteStage}
use tungstenite_rs.Handshake.Writing.Stage.{run_stage-WriteStage}
use tungstenite_rs.Handshake.Loop.{Phase, reads, writes}
use tungstenite_rs.Examples.{Peer, peer, peer-Lawful, quiet_peer}

abbrev busy : AttackCheck
busy = record { number_of_packets = 70; number_of_bytes = 8960 }

busy-IsWithin : IsWithin busy
busy-IsWithin = record {
  few_packets = omega arith;
  few_bytes = omega arith;
  large_packets = λ h. omega arith;
}

check_incoming_packet_size-Checked_example : Checked 100 busy (check_incoming_packet_size 100 busy)
check_incoming_packet_size-Checked_example =
    check_incoming_packet_size-Checked 100 busy (omega arith) busy-IsWithin

-- `ReadBuffer::new` and `AttackCheck::new`
abbrev empty : Storage
empty = record { bytes = []; position = 0 }

abbrev fresh : AttackCheck
fresh = record { number_of_packets = 0; number_of_bytes = 0 }

-- The first two bytes.
abbrev parse_pair : TryParse (List ℕ)
parse_pair bytes = if ltb (length bytes) 2 then ok none else ok (some (2, take 2 bytes))

parse_pair-IsParser : IsParser parse_pair
parse_pair-IsParser = record {
  no_panic = λ bytes e. ground arith;
  size_fits = λ bytes size pair e. ground arith;
}

abbrev pub talking_peer : Peer
talking_peer = record { incoming = 1 ∷ 2 ∷ 3 ∷ []; sent = [] }

fresh-IsWithin : IsWithin fresh
fresh-IsWithin = record {
  few_packets = omega arith;
  few_bytes = omega arith;
  large_packets = λ h. omega arith;
}

run_stage-ReadStage_example :
    ReadStage peer parse_pair (chunk empty) fresh talking_peer (
      run_stage peer parse_pair 513 (record { stream = talking_peer; state = reading empty fresh }))
run_stage-ReadStage_example =
    run_stage-ReadStage peer parse_pair peer-Lawful parse_pair-IsParser 513 empty fresh talking_peer
      (omega arith) fresh-IsWithin (omega arith)

abbrev request : Storage
request = record { bytes = 1 ∷ 2 ∷ 3 ∷ 4 ∷ []; position = 0 }

run_stage-WriteStage_example :
    WriteStage peer parse_pair
      (chunk request)
      quiet_peer
      (run_stage peer parse_pair 6 (record { stream = quiet_peer; state = writing request }))
unfolding remaining
run_stage-WriteStage_example =
    run_stage-WriteStage peer parse_pair peer-Lawful 6 request quiet_peer (omega arith)
      (omega arith)

-- A role that is the number of stages left: it writes, reads a pair, and is done.
abbrev next_stage : StageResult (List ℕ) Peer → ℕ → Result (ProcessingResult Peer (List ℕ)) × ℕ
next_stage (StageResult.done_reading pair s tail) role = (ok (finished pair), role)
next_stage (StageResult.done_writing s) zero = (ok (finished []), zero)
next_stage (StageResult.done_writing s) (suc n) =
    (ok (go_on (record { stream = s; state = reading empty fresh })), n)

abbrev pair_role : HandshakeRole ℕ Peer (List ℕ) (List ℕ)
pair_role = record { try_parse = parse_pair; stage_finished = next_stage }

abbrev left_after : ℕ → Phase → ℕ
left_after role writes = suc role
left_after role reads = role
