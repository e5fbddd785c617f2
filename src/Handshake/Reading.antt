-- ===== src/Handshake/Reading.antt =====
-- The reading stage of a handshake (src/handshake/machine.rs over src/buffer.rs).
pub mod Stage
use tungstenite_rs.Prelude.{
  ℕ, zero, suc, ◌-◌, ◌≤◌, ◌<◌, ◌≡◌, refl, sym, ap, ◌∙◌, subst, Option, none, some, List, [], ◌∷◌,
  ◌++◌, append_assoc, append-nil, length, drop, le→ltb_false, arith,
}
use tungstenite_rs.Types.{
  Error, IoErrorKind, io, attack_attempt, protocol, handshake_incomplete, would_block,
  connection_reset, unexpected_eof, other_kind,
}
use tungstenite_rs.Result.{Result, ok, err, panic}
use tungstenite_rs.Result.Fallible.{◌>>=◌}
use tungstenite_rs.Stream.{Io, IoResult, Lawful}
use tungstenite_rs.Handshake.Buffer.{
  Storage, chunk, remaining, advance, clean_up, into_vec, store, read_from, IsSound,
}
use tungstenite_rs.Handshake.Machine.{
  AttackCheck, reading, RoundResult, StageResult, TryParse, no_block, no_block_io, after_parse,
  after_read, read_round, single_round, run_stage,
}
use tungstenite_rs.Handshake.Attack.{
  IsWithin, counted_in, Checked, passes, attacks, check_incoming_packet_size-Checked,
}

-- The parser never panics, and uses no more bytes than there are.
pub record IsParser {Obj : Type 0} (try_parse : TryParse Obj) : Type 0 where
  pub no_panic : (bytes : List ℕ) → ¬ (try_parse bytes ≡ panic)
  pub size_fits :
      (bytes : List ℕ) (size : ℕ) (obj : Obj)
      → try_parse bytes ≡ ok (some (size, obj))
      → size ≤ length bytes

clean_up-ok : (b : Storage) → IsSound b → clean_up b ≡ ok (record { bytes = chunk b; position = 0 })
unfolding clean_up chunk
clean_up-ok b h = rw (le→ltb_false (length b.bytes) b.position h) refl

into_vec-ok : (b : Storage) → IsSound b → into_vec b ≡ ok (chunk b)
unfolding into_vec
into_vec-ok b h = rw (clean_up-ok b h) refl

advance-ok :
    (size : ℕ) (bytes : List ℕ)
    → size ≤ length bytes
    → advance size (record { bytes = bytes; position = 0 })
      ≡ ok (record { bytes = bytes; position = size })
unfolding advance remaining
advance-ok size bytes h = ground arith

-- Passing over bytes and giving the rest away.
into_vec-advance :
    (size : ℕ) (bytes : List ℕ)
    → size ≤ length bytes
    → (advance size (record { bytes = bytes; position = 0 }) >>= into_vec) ≡ ok (drop size bytes)
unfolding chunk
into_vec-advance size bytes h =
    rw (advance-ok size bytes h) (into_vec-ok (record { bytes = bytes; position = size }) h)

module _ {S Obj : Type 0} (world : Io S) (try_parse : TryParse Obj) where
  -- A read gives this packet, which is not empty.
  pub record Reads (s : S) (packet : List ℕ) (s' : S) : Type 0 where
    pub read : world.read 4096 s ≡ (IoResult.done packet, s')
    pub not_empty : 0 < length packet

  -- From bytes, an attack check and a stream before to those after packets that the check lets
  -- through, after each of which the parser finds no object at the front of all the bytes.
  pub data Receives : List ℕ → AttackCheck → S → List ℕ → AttackCheck → S → Type 0 where
    no_more : {bytes : List ℕ} {check : AttackCheck} {s : S} → Receives bytes check s bytes check s
    received :
        (packet : List ℕ) {bytes bytes' : List ℕ} {check check' : AttackCheck} {s s' s'' : S}
        → Reads s packet s'
        → IsWithin (counted_in (length packet) check)
        → try_parse (bytes ++ packet) ≡ ok none
        → Receives (bytes ++ packet) (counted_in (length packet) check) s' bytes' check' s''
        → Receives bytes check s bytes' check' s''

  -- How a stage ends that has come to these bytes, this check and this stream, by the next read: an
  -- object is parsed, or the read would block, gives nothing, fails, is an attack, or gives what
  -- the parser refuses.
  pub data Last (bytes : List ℕ) (check : AttackCheck) (s : S)
      : Result (RoundResult Obj S) → Type 0 where
    parsed :
        (packet : List ℕ) (s' : S) (size : ℕ) (obj : Obj)
        → Reads s packet s'
        → IsWithin (counted_in (length packet) check)
        → try_parse (bytes ++ packet) ≡ ok (some (size, obj))
        → Last bytes check s (
            ok (
              RoundResult.stage_finished
                (StageResult.done_reading obj s' (drop size (bytes ++ packet)))))
    blocks :
        (s' : S) (buf : Storage)
        → world.read 4096 s ≡ (IoResult.failed would_block, s')
        → chunk buf ≡ bytes
        → IsSound buf
        → IsWithin check
        → Last bytes check s
            (ok (RoundResult.would_block (record { stream = s'; state = reading buf check })))
    closed :
        (s' : S)
        → world.read 4096 s ≡ (IoResult.done [], s')
        → Last bytes check s (err (protocol handshake_incomplete))
    read_fails :
        (kind : IoErrorKind) (s' : S)
        → world.read 4096 s ≡ (IoResult.failed kind, s')
        → ¬ (kind ≡ would_block)
        → Last bytes check s (err (io kind))
    attacked :
        (packet : List ℕ) (s' : S)
        → Reads s packet s'
        → ¬ IsWithin (counted_in (length packet) check)
        → Last bytes check s (err attack_attempt)
    refused :
        (packet : List ℕ) (s' : S) (e : Error)
        → Reads s packet s'
        → IsWithin (counted_in (length packet) check)
        → try_parse (bytes ++ packet) ≡ err e
        → Last bytes check s (err e)

  -- How the stage ends, from the unread bytes, the check and the stream before it.
  pub data ReadStage (unread : List ℕ) (check : AttackCheck) (s : S)
      (r : Result (RoundResult Obj S)) : Type 0 where
    after :
        (bytes : List ℕ) (check' : AttackCheck) (s' : S)
        → Receives unread check s bytes check' s'
        → Last bytes check' s' r
        → ReadStage unread check s r

  -- One round: the stage ends, or it goes on with one packet more.
  data ReadRound (buf : Storage) (check : AttackCheck) (s : S)
      : Result (RoundResult Obj S) → Type 0 where
    ends : (r : Result (RoundResult Obj S)) → Last (chunk buf) check s r → ReadRound buf check s r
    goes_on :
        (packet : List ℕ) (s' : S) (buf' : Storage)
        → Reads s packet s'
        → IsWithin (counted_in (length packet) check)
        → try_parse (chunk buf ++ packet) ≡ ok none
        → chunk buf' ≡ chunk buf ++ packet
        → IsSound buf'
        → ReadRound buf check s (
            ok (
              RoundResult.incomplete
                (record { stream = s'; state = reading buf' (counted_in (length packet) check) })))

  module _ (lawful : Lawful world) (parser : IsParser try_parse) where
    after_try-ReadRound :
        (buf : Storage) (check : AttackCheck) (s s' : S) (got : List ℕ)
        (r : Result (Option (ℕ × Obj)))
        → Reads s got s'
        → IsWithin (counted_in (length got) check)
        → try_parse (chunk buf ++ got) ≡ r
        → ReadRound buf check s (
            r >>= λ o.
            after_parse world try_parse o
              (record { bytes = chunk buf ++ got; position = 0 })
              (counted_in (length got) check)
              s')
    unfolding after_parse chunk
    after_try-ReadRound buf check s s' got (ok none) reads w e =
        goes_on got s' _ reads w e refl (omega arith)
    after_try-ReadRound buf check s s' got (ok (some (size, obj))) reads w e =
        let fits = parser.size_fits (chunk buf ++ got) size obj e in
        rw (advance-ok size (chunk buf ++ got) fits) (
          rw (into_vec-ok (record { bytes = chunk buf ++ got; position = size }) fits)
            (ends _ (parsed got s' size obj reads w e)))
    after_try-ReadRound buf check s s' got (err error) reads w e =
        ends _ (refused got s' error reads w e)
    after_try-ReadRound buf check s s' got panic reads w e =
        absurd (parser.no_panic (chunk buf ++ got) e)

    after_check-ReadRound :
        (buf : Storage) (check : AttackCheck) (s s' : S) (got : List ℕ) (r : Result AttackCheck)
        → Reads s got s'
        → Checked (length got) check r
        → ReadRound buf check s (
            r >>= λ checked. try_parse (chunk buf ++ got) >>= λ o.
            after_parse world try_parse o
              (record { bytes = chunk buf ++ got; position = 0 })
              checked
              s')
    after_check-ReadRound buf check s s' got r reads (passes w) =
        after_try-ReadRound buf check s s' got (try_parse (chunk buf ++ got)) reads w refl
    after_check-ReadRound buf check s s' got r reads (attacks refusal) =
        ends _ (attacked got s' reads refusal)

    after_failure-ReadRound :
        (buf : Storage) (check : AttackCheck) (s s' : S) (kind : IoErrorKind)
        → IsWithin check
        → world.read 4096 s ≡ (IoResult.failed kind, s')
        → ReadRound buf check s (
            no_block_io {A = ℕ} (IoResult.failed kind) >>= λ count.
            after_read world try_parse count (record { bytes = chunk buf; position = 0 }) check s')
    unfolding no_block_io no_block after_read chunk
    after_failure-ReadRound buf check s s' would_block w e =
        ends _ (blocks s' _ e refl (omega arith) w)
    after_failure-ReadRound buf check s s' connection_reset w e =
        ends _ (read_fails _ s' e (λ q. cc))
    after_failure-ReadRound buf check s s' unexpected_eof w e = ends _ (read_fails _ s' e (λ q. cc))
    after_failure-ReadRound buf check s s' (other_kind n) w e = ends _ (read_fails _ s' e (λ q. cc))

    after_packet-ReadRound :
        (buf : Storage) (check : AttackCheck) (s s' : S) (got : List ℕ)
        → IsWithin check
        → length got ≤ 4096
        → world.read 4096 s ≡ (IoResult.done got, s')
        → ReadRound buf check s (
            no_block_io (IoResult.done (length got)) >>= λ count.
            after_read world try_parse count
              (record { bytes = chunk buf ++ got; position = 0 })
              check
              s')
    unfolding no_block_io no_block after_read chunk
    after_packet-ReadRound buf check s s' [] w fits e = ends _ (closed s' e)
    after_packet-ReadRound buf check s s' (x ∷ xs) w fits e =
        after_check-ReadRound buf check s s' (x ∷ xs) _
          (record { read = e; not_empty = omega arith })
          (check_incoming_packet_size-Checked (length (x ∷ xs)) check fits w)

    read_round-ReadRound :
        (buf : Storage) (check : AttackCheck) (s : S)
        → IsSound buf
        → IsWithin check
        → ReadRound buf check s (read_round world try_parse buf check s)
    unfolding read_round read_from store
    read_round-ReadRound buf check s h w =
        rw (clean_up-ok buf h) (by_read (world.read 4096 s).0 (world.read 4096 s).1 refl)
      where
        by_read :
            (r : IoResult (List ℕ)) (s' : S)
            → world.read 4096 s ≡ (r, s')
            → ReadRound buf check s (
                store world (r, s') (record { bytes = chunk buf; position = 0 })
                >>= λ (got, (buf', s'')).
                    no_block_io got >>= λ count. after_read world try_parse count buf' check s'')
        by_read (IoResult.failed kind) s' e = after_failure-ReadRound buf check s s' kind w e
        by_read (IoResult.done got) s' e =
            let fits = lawful.read_fits 4096 s got (ap (λ t. t.0) e) in
            rw (le→ltb_false 4096 (length got) fits, store)
              (after_packet-ReadRound buf check s s' got w fits e)
