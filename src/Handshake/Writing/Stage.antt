-- ===== src/Handshake/Writing/Stage.antt =====
-- The whole writing stage of a handshake (the loop of src/handshake/mod.rs).
use tungstenite_rs.Prelude.{
  ℕ, zero, suc, ◌<◌, ◌≡◌, refl, sym, ap, ◌∙◌, subst, List, ◌++◌, append_assoc, append-nil,
  take-append-drop, take, drop, arith,
}
use tungstenite_rs.Result.{Result, ok, err, panic}
use tungstenite_rs.Stream.{Io, IoResult, Lawful}
use tungstenite_rs.Codec.Write.{Sends, nothing, accepted}
use tungstenite_rs.Handshake.Buffer.{Storage, chunk, remaining}
use tungstenite_rs.Handshake.Machine.{
  writing, flushing, RoundResult, TryParse, write_round, flush_round, single_round, run_stage,
}
use tungstenite_rs.Handshake.Writing.{
  HasRemaining, WriteStage, written, blocks, blocks_flush, took_nothing, fails_write, fails_flush,
  WriteRound, ends, goes_on, goes_to_flush, write_round-WriteRound, flush_round-WriteStage,
}

split_further :
    (pending sent left : List ℕ) (n : ℕ)
    → drop n pending ≡ sent ++ left
    → pending ≡ (take n pending ++ sent) ++ left
split_further pending sent left n q =
    sym (take-append-drop n pending)
    ∙ ap (◌++◌ (take n pending)) q
    ∙ sym (append_assoc (take n pending) sent left)

module _ {S Obj : Type 0} (world : Io S) (try_parse : TryParse Obj) where
  module _ (lawful : Lawful world) where
    more_sent :
        (pending : List ℕ) (n : ℕ) (s s' : S) (r : Result (RoundResult Obj S))
        → world.write pending s ≡ (IoResult.done n, s')
        → WriteStage world try_parse (drop n pending) s' r
        → WriteStage world try_parse pending s r
    more_sent pending n s s' r e (written s'' s3 sends f) =
        written s'' s3 (accepted pending n e sends (sym (take-append-drop n pending))) f
    more_sent pending n s s' r e (blocks sent s'' s3 buf sends q h w) =
        blocks (take n pending ++ sent) s'' s3 buf (accepted pending n e sends refl)
          (split_further pending sent (chunk buf) n q) h w
    more_sent pending n s s' r e (blocks_flush s'' s3 sends f) =
        blocks_flush s'' s3 (accepted pending n e sends (sym (take-append-drop n pending))) f
    more_sent pending n s s' r e (took_nothing sent bytes s'' s3 sends q pos w) =
        took_nothing (take n pending ++ sent) bytes s'' s3 (accepted pending n e sends refl)
          (split_further pending sent bytes n q) pos w
    more_sent pending n s s' r e (fails_write sent bytes kind s'' s3 sends q pos w other) =
        fails_write (take n pending ++ sent) bytes kind s'' s3 (accepted pending n e sends refl)
          (split_further pending sent bytes n q) pos w other
    more_sent pending n s s' r e (fails_flush kind s'' s3 sends f other) =
        fails_flush kind s'' s3 (accepted pending n e sends (sym (take-append-drop n pending))) f
          other

    pub run_stage-flushing :
        (rounds : ℕ) (pending : List ℕ) (s s' : S)
        → 0 < rounds
        → Sends world s pending s'
        → WriteStage world try_parse pending s
            (run_stage world try_parse rounds (record { stream = s'; state = flushing }))
    unfolding single_round run_stage
    run_stage-flushing zero pending s s' pos sends = absurd (omega arith)
    run_stage-flushing (suc rounds) pending s s' pos sends =
        by_round (flush_round world try_parse s')
          (flush_round-WriteStage world try_parse lawful pending s s' sends)
      where
        finish : Result (RoundResult Obj S) → Result (RoundResult Obj S)
        finish (ok (RoundResult.incomplete m)) = run_stage world try_parse rounds m
        finish r = r

        by_round :
            (r : Result (RoundResult Obj S))
            → WriteStage world try_parse pending s r
            → WriteStage world try_parse pending s (finish r)
        by_round r (written t t' sent e) = written t t' sent e
        by_round r (blocks sent t t' buf sends' e h w) = blocks sent t t' buf sends' e h w
        by_round r (blocks_flush t t' sent e) = blocks_flush t t' sent e
        by_round r (took_nothing sent bytes t t' sends' q pos e) =
            took_nothing sent bytes t t' sends' q pos e
        by_round r (fails_write sent bytes kind t t' sends' q pos w other) =
            fails_write sent bytes kind t t' sends' q pos w other
        by_round r (fails_flush kind t t' sent w other) = fails_flush kind t t' sent w other

    -- The writing stage, with something to write, over a stream that says the truth on how much it
    -- took, always ends, within two rounds more than there are bytes to write: with all of them
    -- sent in order and flushed; where the stream says that a write or the flush would block, with
    -- a machine that holds exactly the bytes that are not yet sent, or only the flush; or with the
    -- error that the stream gave to a write of the bytes not yet sent, or to the flush. It panics
    -- only when the stream takes no byte of those not yet sent, which the code asserts it does not.
    pub run_stage-WriteStage :
        (rounds : ℕ) (buf : Storage) (s : S)
        → HasRemaining buf
        → suc (remaining buf) < rounds
        → WriteStage world try_parse
            (chunk buf)
            s
            (run_stage world try_parse rounds (record { stream = s; state = writing buf }))
    unfolding single_round
    run_stage-WriteStage zero buf s h enough = absurd (omega arith)
    run_stage-WriteStage (suc rounds) buf s h enough =
        from_rest (λ buf' s' h' l. run_stage-WriteStage rounds buf' s' h' l)
      where
        Rest : Type 0
        Rest =
            (buf' : Storage) (s' : S)
            → HasRemaining buf'
            → suc (remaining buf') < rounds
            → WriteStage world try_parse (chunk buf') s'
                (run_stage world try_parse rounds (record { stream = s'; state = writing buf' }))

        finish : Result (RoundResult Obj S) → Result (RoundResult Obj S)
        finish (ok (RoundResult.incomplete m)) = run_stage world try_parse rounds m
        finish (ok (RoundResult.would_block m)) = ok (RoundResult.would_block m)
        finish (ok (RoundResult.stage_finished a)) = ok (RoundResult.stage_finished a)
        finish (err e) = err e
        finish panic = panic

        by_end :
            (r : Result (RoundResult Obj S))
            → WriteStage world try_parse (chunk buf) s r
            → WriteStage world try_parse (chunk buf) s (finish r)
        by_end r (written t t' sent e) = written t t' sent e
        by_end r (blocks sent t t' buf' sends' e k w) = blocks sent t t' buf' sends' e k w
        by_end r (blocks_flush t t' sent e) = blocks_flush t t' sent e
        by_end r (took_nothing sent bytes t t' sends' q pos e) =
            took_nothing sent bytes t t' sends' q pos e
        by_end r (fails_write sent bytes kind t t' sends' q pos w other) =
            fails_write sent bytes kind t t' sends' q pos w other
        by_end r (fails_flush kind t t' sent w other) = fails_flush kind t t' sent w other

        by_round :
            (r : Result (RoundResult Obj S))
            → WriteRound world try_parse buf s r
            → Rest
            → WriteStage world try_parse (chunk buf) s (finish r)
        by_round r (ends r' k) rest = by_end r k
        by_round r (goes_on n s' buf' e q k less) rest = more_sent (chunk buf) n s s' _ e (
            subst
              (λ t.
                WriteStage world try_parse t s'
                  (run_stage world try_parse rounds (record { stream = s'; state = writing buf' })))
              q (rest buf' s' k (omega arith)))
        by_round r (goes_to_flush n s' e q) rest =
            run_stage-flushing rounds (chunk buf) s s' (omega arith)
              (accepted (chunk buf) n e nothing (sym (append-nil _ ∙ q)))

        from_rest :
            Rest
            → WriteStage world try_parse (chunk buf) s (
                run_stage world try_parse (suc rounds) (record { stream = s; state = writing buf }))
        from_rest rest =
            unfold run_stage in
            by_round (write_round world try_parse buf s)
              (write_round-WriteRound world try_parse lawful buf s h) rest
