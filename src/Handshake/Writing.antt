-- ===== src/Handshake/Writing.antt =====
-- The writing stage of a handshake (src/handshake/machine.rs).
pub mod Stage
use tungstenite_rs.Prelude.{
  ℕ, zero, suc, ◌+◌, ◌-◌, ◌≤◌, ◌<◌, ◌≡◌, refl, sym, ap, ◌∙◌, subst, Bool, true, false, List, [],
  ◌∷◌, ◌++◌, append_assoc, append-nil, take-append-drop, take-of_length_le, length, length-drop,
  take, drop, ◌==◌, if◌then◌else◌, arith,
}
use tungstenite_rs.Types.{
  IoErrorKind, io, would_block, connection_reset, unexpected_eof, other_kind,
}
use tungstenite_rs.Result.{Result, ok, err, panic}
use tungstenite_rs.Result.Fallible.{◌>>=◌}
use tungstenite_rs.Stream.{Io, IoResult, Lawful}
use tungstenite_rs.Codec.Write.{Sends, nothing}
use tungstenite_rs.Handshake.Buffer.{Storage, chunk, remaining, advance}
use tungstenite_rs.Handshake.Machine.{
  writing, flushing, RoundResult, StageResult, TryParse, no_block, no_block_io, after_write,
  write_round, after_flush, flush_round, single_round, run_stage,
}

-- There is something to write.
abbrev pub HasRemaining : Storage → Type 0
HasRemaining b = b.position < length b.bytes

drop-drop : (m n k : ℕ) (xs : List ℕ) → k ≡ m + n → drop n (drop m xs) ≡ drop k xs
drop-drop zero n k xs h = ap (λ i. drop i xs) (omega arith)
drop-drop (suc m) zero zero [] h = refl
drop-drop (suc m) n zero xs h = absurd (omega arith)
drop-drop (suc m) zero (suc k) [] h = refl
drop-drop (suc m) (suc n) (suc k) [] h = refl
drop-drop (suc m) n (suc k) (x ∷ xs) h = drop-drop m n k xs (omega arith)

length-chunk : (b : Storage) → length (chunk b) ≡ length b.bytes - b.position
unfolding chunk
length-chunk b = length-drop b.position b.bytes

not_empty : (b : Storage) → HasRemaining b → 0 < length (chunk b)
not_empty b h = omega (arith, length-chunk b)

module _ {S Obj : Type 0} (world : Io S) (try_parse : TryParse Obj) where
  -- How the stage ends, from the bytes to send and the stream before it. An assertion of the code
  -- fails when the stream takes no byte.
  pub data WriteStage (pending : List ℕ) (s : S) : Result (RoundResult Obj S) → Type 0 where
    written :
        (s' s'' : S)
        → Sends world s pending s'
        → world.flush s' ≡ (IoResult.done tt, s'')
        → WriteStage pending s (ok (RoundResult.stage_finished (StageResult.done_writing s'')))
    blocks :
        (sent : List ℕ) (s' s'' : S) (buf : Storage)
        → Sends world s sent s'
        → pending ≡ sent ++ chunk buf
        → HasRemaining buf
        → world.write (chunk buf) s' ≡ (IoResult.failed would_block, s'')
        → WriteStage pending s
            (ok (RoundResult.would_block (record { stream = s''; state = writing buf })))
    blocks_flush :
        (s' s'' : S)
        → Sends world s pending s'
        → world.flush s' ≡ (IoResult.failed would_block, s'')
        → WriteStage pending s
            (ok (RoundResult.would_block (record { stream = s''; state = flushing })))
    took_nothing :
        (sent bytes : List ℕ) (s' s'' : S)
        → Sends world s sent s'
        → pending ≡ sent ++ bytes
        → 0 < length bytes
        → world.write bytes s' ≡ (IoResult.done 0, s'')
        → WriteStage pending s panic
    fails_write :
        (sent bytes : List ℕ) (kind : IoErrorKind) (s' s'' : S)
        → Sends world s sent s'
        → pending ≡ sent ++ bytes
        → 0 < length bytes
        → world.write bytes s' ≡ (IoResult.failed kind, s'')
        → ¬ (kind ≡ would_block)
        → WriteStage pending s (err (io kind))
    fails_flush :
        (kind : IoErrorKind) (s' s'' : S)
        → Sends world s pending s'
        → world.flush s' ≡ (IoResult.failed kind, s'')
        → ¬ (kind ≡ would_block)
        → WriteStage pending s (err (io kind))

  -- One round of writing.
  data WriteRound (buf : Storage) (s : S) : Result (RoundResult Obj S) → Type 0 where
    ends : (r : Result (RoundResult Obj S)) → WriteStage (chunk buf) s r → WriteRound buf s r
    goes_on :
        (n : ℕ) (s' : S) (buf' : Storage)
        → world.write (chunk buf) s ≡ (IoResult.done n, s')
        → chunk buf' ≡ drop n (chunk buf)
        → HasRemaining buf'
        → remaining buf' < remaining buf
        → WriteRound buf s
            (ok (RoundResult.incomplete (record { stream = s'; state = writing buf' })))
    goes_to_flush :
        (n : ℕ) (s' : S)
        → world.write (chunk buf) s ≡ (IoResult.done n, s')
        → take n (chunk buf) ≡ chunk buf
        → WriteRound buf s (ok (RoundResult.incomplete (record { stream = s'; state = flushing })))

  module _ (lawful : Lawful world) where
    after_failure-WriteRound :
        (buf : Storage) (s s' : S) (kind : IoErrorKind)
        → HasRemaining buf
        → world.write (chunk buf) s ≡ (IoResult.failed kind, s')
        → WriteRound buf s (
            no_block_io {A = ℕ} (IoResult.failed kind) >>= λ size.
            after_write world try_parse size buf s')
    unfolding no_block_io no_block after_write
    after_failure-WriteRound buf s s' would_block h e = ends _ (blocks [] s s' buf nothing refl h e)
    after_failure-WriteRound buf s s' connection_reset h e =
        ends _ (fails_write [] (chunk buf) _ s s' nothing refl (not_empty buf h) e (λ q. cc))
    after_failure-WriteRound buf s s' unexpected_eof h e =
        ends _ (fails_write [] (chunk buf) _ s s' nothing refl (not_empty buf h) e (λ q. cc))
    after_failure-WriteRound buf s s' (other_kind n) h e =
        ends _ (fails_write [] (chunk buf) _ s s' nothing refl (not_empty buf h) e (λ q. cc))

    advance-ok :
        (n : ℕ) (buf : Storage)
        → n ≤ length (chunk buf)
        → advance n buf ≡ ok (record buf { position = buf.position + n })
    unfolding advance remaining
    advance-ok n buf h = ground (arith, length-chunk buf)

    all_taken :
        (n : ℕ) (buf : Storage)
        → (remaining (record buf { position = buf.position + n }) == 0) ≡ true
        → length (chunk buf) ≤ n
    unfolding remaining
    all_taken n buf q = ground (arith, length-chunk buf)

    some_left :
        (n : ℕ) (buf : Storage)
        → (remaining (record buf { position = buf.position + n }) == 0) ≡ false
        → HasRemaining (record buf { position = buf.position + n })
    unfolding remaining
    some_left n buf q = ground arith

    fewer_left :
        (n : ℕ) (buf : Storage)
        → HasRemaining buf
        → remaining (record buf { position = buf.position + suc n }) < remaining buf
    unfolding remaining
    fewer_left n buf h = omega arith

    after_some-WriteRound :
        (buf : Storage) (s s' : S) (n : ℕ)
        → HasRemaining buf
        → n ≤ length (chunk buf)
        → world.write (chunk buf) s ≡ (IoResult.done n, s')
        → WriteRound buf s
            (no_block_io (IoResult.done n) >>= λ size. after_write world try_parse size buf s')
    unfolding no_block_io no_block after_write chunk
    after_some-WriteRound buf s s' zero h fits e =
        ends _ (took_nothing [] (chunk buf) s s' nothing refl (not_empty buf h) e)
    after_some-WriteRound buf s s' (suc n) h fits e =
        rw (advance-ok (suc n) buf fits) (by_rest (remaining next == 0) refl)
      where
        next : Storage
        next = record buf { position = buf.position + suc n }

        by_rest :
            (b : Bool)
            → (remaining next == 0) ≡ b
            → WriteRound buf s (
                ok (
                  RoundResult.incomplete
                    (record { stream = s'; state = if b then flushing else writing next })))
        by_rest true q =
            goes_to_flush (suc n) s' e
              (take-of_length_le (suc n) (chunk buf) (all_taken (suc n) buf q))
        by_rest false q =
            goes_on (suc n) s' next e
              (sym (drop-drop buf.position (suc n) (buf.position + suc n) buf.bytes refl))
              (some_left (suc n) buf q) (fewer_left n buf h)

    not_done : (buf : Storage) → HasRemaining buf → (remaining buf == 0) ≡ false
    unfolding remaining
    not_done buf h = ground arith

    write_round-WriteRound :
        (buf : Storage) (s : S)
        → HasRemaining buf
        → WriteRound buf s (write_round world try_parse buf s)
    unfolding write_round
    write_round-WriteRound buf s h =
        rw (not_done buf h, write_round)
          (by_write (world.write (chunk buf) s).0 (world.write (chunk buf) s).1 refl)
      where
        by_write :
            (w : IoResult ℕ) (s' : S)
            → world.write (chunk buf) s ≡ (w, s')
            → WriteRound buf s (no_block_io w >>= λ size. after_write world try_parse size buf s')
        by_write (IoResult.failed kind) s' e = after_failure-WriteRound buf s s' kind h e
        by_write (IoResult.done n) s' e =
            after_some-WriteRound buf s s' n h (lawful.write_fits (chunk buf) s n (ap (λ t. t.0) e))
              e

    flush_round-WriteStage :
        (pending : List ℕ) (s s' : S)
        → Sends world s pending s'
        → WriteStage pending s (flush_round world try_parse s')
    unfolding flush_round after_flush no_block_io no_block
    flush_round-WriteStage pending s s' sends = by_flush (world.flush s').0 (world.flush s').1 refl
      where
        by_flush :
            (w : IoResult (Unit {0})) (s'' : S)
            → world.flush s' ≡ (w, s'')
            → WriteStage pending s
                (no_block_io w >>= λ answer. ok (after_flush world try_parse answer s''))
        by_flush (IoResult.done tt) s'' e = written s' s'' sends e
        by_flush (IoResult.failed would_block) s'' e = blocks_flush s' s'' sends e
        by_flush (IoResult.failed connection_reset) s'' e = fails_flush _ s' s'' sends e (λ q. cc)
        by_flush (IoResult.failed unexpected_eof) s'' e = fails_flush _ s' s'' sends e (λ q. cc)
        by_flush (IoResult.failed (other_kind n)) s'' e = fails_flush _ s' s'' sends e (λ q. cc)
