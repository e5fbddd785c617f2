-- ===== src/Handshake/Reading/Stage.antt =====
-- The whole reading stage of a handshake (the loop of src/handshake/mod.rs).
use tungstenite_rs.Prelude.{ℕ, zero, suc, ◌-◌, ◌<◌, ◌≡◌, subst, none, List, ◌++◌, length, arith}
use tungstenite_rs.Result.{Result, ok, err, panic}
use tungstenite_rs.Stream.{Io, Lawful}
use tungstenite_rs.Handshake.Buffer.{Storage, chunk, IsSound}
use tungstenite_rs.Handshake.Machine.{
  AttackCheck, reading, RoundResult, TryParse, read_round, single_round, run_stage,
}
use tungstenite_rs.Handshake.Attack.{IsWithin, counted_in}
use tungstenite_rs.Handshake.Reading.{
  IsParser, Reads, no_more, received, Last, parsed, blocks, closed, read_fails, attacked, refused,
  ReadStage, after, ReadRound, ends, goes_on, read_round-ReadRound,
}

module _ {S Obj : Type 0} (world : Io S) (try_parse : TryParse Obj) where
  module _ (lawful : Lawful world) (parser : IsParser try_parse) where
    later_packet :
        (unread packet : List ℕ) (check : AttackCheck) (s s' : S) (r : Result (RoundResult Obj S))
        → Reads world try_parse s packet s'
        → IsWithin (counted_in (length packet) check)
        → try_parse (unread ++ packet) ≡ ok none
        → ReadStage world try_parse (unread ++ packet) (counted_in (length packet) check) s' r
        → ReadStage world try_parse unread check s r
    later_packet unread packet check s s' r reads w e (after bytes check' s'' recv last) =
        after bytes check' s'' (received packet reads w e recv) last

    -- The reading stage, with a parser that does not panic and uses no more bytes than there are,
    -- over a stream that gives no more than there is room for, always ends, within the rounds that
    -- the packets of the attack check leave. It reads packets that the attack check lets through,
    -- and asks the parser after each of them on all the bytes there are, in order, until: the parser
    -- finds an object, and the bytes after it are the tail; the stream says that a read would block,
    -- and the machine holds all the bytes received and the check that counted them; or there is an
    -- error, that of the read which fails, of the end of the stream, of the packet which the attack
    -- check refuses, or of the parser. It never panics.
    pub run_stage-ReadStage :
        (rounds : ℕ) (buf : Storage) (check : AttackCheck) (s : S)
        → IsSound buf
        → IsWithin check
        → 512 - check.number_of_packets < rounds
        → ReadStage world try_parse
            (chunk buf)
            check
            s
            (run_stage world try_parse rounds (record { stream = s; state = reading buf check }))
    unfolding single_round
    run_stage-ReadStage zero buf check s h w enough = absurd (omega arith)
    run_stage-ReadStage (suc rounds) buf check s h w enough =
        from_rest (λ buf' check' s' h' w' l. run_stage-ReadStage rounds buf' check' s' h' w' l)
      where
        Rest : Type 0
        Rest =
            (buf' : Storage) (check' : AttackCheck) (s' : S)
            → IsSound buf'
            → IsWithin check'
            → 512 - check'.number_of_packets < rounds
            → ReadStage world try_parse (chunk buf') check' s' (
                run_stage world try_parse rounds
                  (record { stream = s'; state = reading buf' check' }))

        finish : Result (RoundResult Obj S) → Result (RoundResult Obj S)
        finish (ok (RoundResult.incomplete m)) = run_stage world try_parse rounds m
        finish (ok (RoundResult.would_block m)) = ok (RoundResult.would_block m)
        finish (ok (RoundResult.stage_finished a)) = ok (RoundResult.stage_finished a)
        finish (err e) = err e
        finish panic = panic

        by_end :
            (r : Result (RoundResult Obj S))
            → Last world try_parse (chunk buf) check s r
            → Last world try_parse (chunk buf) check s (finish r)
        by_end r (parsed packet s' size obj reads w' e) = parsed packet s' size obj reads w' e
        by_end r (blocks s' buf' e q h' w') = blocks s' buf' e q h' w'
        by_end r (closed s' e) = closed s' e
        by_end r (read_fails kind s' e other) = read_fails kind s' e other
        by_end r (attacked packet s' reads refusal) = attacked packet s' reads refusal
        by_end r (refused packet s' e reads w' q) = refused packet s' e reads w' q

        by_round :
            (r : Result (RoundResult Obj S))
            → ReadRound world try_parse buf check s r
            → Rest
            → ReadStage world try_parse (chunk buf) check s (finish r)
        by_round r (ends r' k) rest = after (chunk buf) check s no_more (by_end r k)
        by_round r (goes_on packet s' buf' reads w' none_yet e h') rest =
            later_packet (chunk buf) packet check s s' _ reads w' none_yet (
              subst
                (λ t. ReadStage world try_parse t (counted_in (length packet) check) s' (
                  run_stage world try_parse rounds (record {
                    stream = s';
                    state = reading buf' (counted_in (length packet) check);
                  })))
                e
                (rest buf' (counted_in (length packet) check) s' h' w'
                  (omega (arith, w'.few_packets))))

        from_rest :
            Rest
            → ReadStage world try_parse (chunk buf) check s (
                run_stage world try_parse
                  (suc rounds)
                  (record { stream = s; state = reading buf check }))
        from_rest rest =
            unfold run_stage in
            by_round (read_round world try_parse buf check s)
              (read_round-ReadRound world try_parse lawful parser buf check s h w) rest
