-- ===== src/Handshake/Machine.antt =====
-- src/handshake/machine.rs: the rounds of a handshake, and `no_block` of src/util.rs. A machine is
-- moved into a round and comes back in its result; an error drops it with its stream.
use tungstenite_rs.Prelude.{
  ℕ, zero, suc, ◌+◌, ◌-◌, ◌*◌, Bool, ◌&&◌, ◌||◌, Option, none, some, List, ltb, ◌==◌, if◌then◌else◌,
}
use tungstenite_rs.Types.{io, attack_attempt, protocol, handshake_incomplete, IoErrorKind}
use tungstenite_rs.Result.{Result, ok, err, panic}
use tungstenite_rs.Result.Fallible.{◌>>=◌}
use tungstenite_rs.Collector.{usize_max}
use tungstenite_rs.Stream.{Io, IoResult}
use tungstenite_rs.Handshake.Buffer.{Storage, chunk, remaining, advance, read_from, into_vec}
use tungstenite_rs.Handshake.Buffer

-- `no_block()?`: an error that says the stream would block is no error.
unfoldable pub no_block {ℓ} : {A : Type ℓ} → Result A → Result (Option A)
no_block (ok a) = ok (some a)
no_block (err (io IoErrorKind.would_block)) = ok none
no_block (err e) = err e
no_block panic = panic

pub record AttackCheck : Type 0 where
  pub number_of_packets : ℕ
  pub number_of_bytes : ℕ

unfoldable pub new_check : AttackCheck
new_check = record { number_of_packets = 0; number_of_bytes = 0 }

-- An addition of `usize`, which panics on overflow.
unfoldable pub add_usize : ℕ → ℕ → Result ℕ
add_usize a b = if ltb usize_max (a + b) then panic else ok (a + b)

-- MAX_BYTES, MAX_PACKETS, MIN_PACKET_CHECK_THRESHOLD with MIN_PACKET_SIZE
unfoldable pub is_attack : AttackCheck → Bool
is_attack a =
    ltb 65536 a.number_of_bytes
    || (ltb 512 a.number_of_packets
        || (ltb 64 a.number_of_packets && ltb a.number_of_bytes (a.number_of_packets * 128)))

unfoldable pub check_incoming_packet_size : ℕ → AttackCheck → Result AttackCheck
check_incoming_packet_size size a = do
  packets ← add_usize a.number_of_packets 1
  bytes ← add_usize a.number_of_bytes size
  let counted : AttackCheck = record { number_of_packets = packets; number_of_bytes = bytes }
  if is_attack counted then err attack_attempt else ok counted

pub data HandshakeState : Type 0 where
  reading : Storage → AttackCheck → HandshakeState
  writing : Storage → HandshakeState
  flushing : HandshakeState

pub record HandshakeMachine (S : Type 0) : Type 0 where
  pub stream : S
  pub state : HandshakeState

pub data StageResult (Obj S : Type 0) : Type 0 where
  done_reading : Obj → S → List ℕ → StageResult Obj S
  done_writing : S → StageResult Obj S

pub data RoundResult (Obj S : Type 0) : Type 0 where
  would_block incomplete : HandshakeMachine S → RoundResult Obj S
  stage_finished : StageResult Obj S → RoundResult Obj S

-- `TryParse::try_parse`: the bytes used and the object, once they are all there.
abbrev pub TryParse : Type 0 → Type 0
TryParse Obj = List ℕ → Result (Option (ℕ × Obj))

module _ {S : Type 0} where
  unfoldable pub start_read : S → HandshakeMachine S
  unfolding Buffer.new Buffer.from_partially_read new_check
  start_read stream = record { stream = stream; state = reading Buffer.new new_check }

  unfoldable pub start_write : S → List ℕ → HandshakeMachine S
  start_write stream bytes = record {
    stream = stream;
    state = writing (record { bytes = bytes; position = 0 });
  }

-- Rounds that a stage can take: every incomplete one counts a packet, or writes a byte.
unfoldable pub rounds_left : HandshakeState → ℕ
unfolding remaining
rounds_left (reading buf check) = suc (512 - check.number_of_packets)
rounds_left (writing buf) = suc (suc (remaining buf))
rounds_left flushing = 1

-- The error of a read or a write as an error of the crate.
unfoldable pub no_block_io : {A : Type 0} → IoResult A → Result (Option A)
unfolding no_block
no_block_io (IoResult.done a) = no_block (ok a)
no_block_io (IoResult.failed kind) = no_block (err (io kind))

module _ {S Obj : Type 0} (world : Io S) (try_parse : TryParse Obj) where
  unfoldable pub after_parse :
      Option (ℕ × Obj) → Storage → AttackCheck → S → Result (RoundResult Obj S)
  after_parse none buf check s =
      ok (RoundResult.incomplete (record { stream = s; state = reading buf check }))
  after_parse (some (size, obj)) buf check s = do
    advanced ← advance size buf
    tail ← into_vec advanced
    ok (RoundResult.stage_finished (StageResult.done_reading obj s tail))

  unfoldable pub after_read : Option ℕ → Storage → AttackCheck → S → Result (RoundResult Obj S)
  unfolding after_parse
  after_read none buf check s =
      ok (RoundResult.would_block (record { stream = s; state = reading buf check }))
  after_read (some zero) buf check s = err (protocol handshake_incomplete)
  after_read (some (suc n)) buf check s = do
    checked ← check_incoming_packet_size (suc n) check
    parsed ← try_parse (chunk buf)
    after_parse parsed buf checked s

  unfoldable pub read_round : Storage → AttackCheck → S → Result (RoundResult Obj S)
  unfolding after_read
  read_round buf check s = do
    (got, (buf', s')) ← read_from world buf s
    count ← no_block_io got
    after_read count buf' check s'

  -- `assert!(size > 0)`, and the way on.
  unfoldable pub after_write : Option ℕ → Storage → S → Result (RoundResult Obj S)
  after_write none buf s = ok (RoundResult.would_block (record { stream = s; state = writing buf }))
  after_write (some zero) buf s = panic
  after_write (some (suc n)) buf s = do
    advanced ← advance (suc n) buf
    ok (
        RoundResult.incomplete (record {
          stream = s;
          state = if remaining advanced == 0 then flushing else writing advanced;
        }))

  -- `assert!(buf.has_remaining())`
  unfoldable pub write_round : Storage → S → Result (RoundResult Obj S)
  unfolding after_write
  write_round buf s =
      let (wrote, s') = world.write (chunk buf) s in
      if remaining buf == 0 then panic else (do size ← no_block_io wrote; after_write size buf s')

  unfoldable pub after_flush : Option (Unit {0}) → S → RoundResult Obj S
  after_flush none s = RoundResult.would_block (record { stream = s; state = flushing })
  after_flush (some u) s = RoundResult.stage_finished (StageResult.done_writing s)

  unfoldable pub flush_round : S → Result (RoundResult Obj S)
  unfolding after_flush
  flush_round s =
      let (flushed, s') = world.flush s in
      (do answer ← no_block_io flushed; ok (after_flush answer s'))

  unfoldable pub single_round : HandshakeMachine S → Result (RoundResult Obj S)
  unfolding read_round write_round flush_round
  single_round m = elim m.state [
    | reading buf check ↦ read_round buf check m.stream
    | writing buf ↦ write_round buf m.stream
    | flushing ↦ flush_round m.stream
  ]

  -- Rounds as long as they are incomplete.
  unfoldable pub run_stage : ℕ → HandshakeMachine S → Result (RoundResult Obj S)
  run_stage zero m = panic
  run_stage (suc rounds) m = elim (single_round m) [
    | ok (incomplete m') ↦ run_stage rounds m'
    | r ↦ r
  ]
