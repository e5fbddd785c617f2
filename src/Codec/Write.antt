-- ===== src/Codec/Write.antt =====
-- `write_out_buffer` of src/protocol/frame/mod.rs hands the buffer to the stream in order.
use tungstenite_rs.Prelude.{
  is_empty, is_empty→nil, Bool-cases, ℕ, zero, suc, ◌≤◌, ◌<◌, ◌≡◌, refl, sym, ◌∙◌, ap, inl, inr,
  false, List, [], ◌∷◌, ◌++◌, length, take, drop, arith, append_assoc, take-append-drop,
  length-drop, ltb, le→ltb_false,
}
use tungstenite_rs.Types.{IoErrorKind, io, connection_reset}
use tungstenite_rs.Result.{Result, ok, err}
use tungstenite_rs.Stream.{Io, IoResult, Lawful}
use tungstenite_rs.Codec.{
  Conn, Round, stop, again, write_round, write_loop, after_write, write_out_buffer,
}

shrinks :
    (n rounds : ℕ) (xs : List ℕ)
    → suc n ≤ length xs
    → length xs < suc rounds
    → length (drop (suc n) xs) < rounds
shrinks n rounds xs fits h = rw (length-drop (suc n) xs) (omega arith)

not_empty : (xs : List ℕ) → is_empty xs ≡ false → 0 < length xs
not_empty [] h = cc
not_empty (x ∷ xs) h = omega arith

module _ {S : Type 0} (world : Io S) where
  -- The stream took these bytes in writes that succeeded, and is as the last of them left it.
  pub data Sends : S → List ℕ → S → Type 0 where
    nothing : {s : S} → Sends s [] s
    accepted :
        (bytes : List ℕ) (n : ℕ) {s s' s'' : S} {rest sent : List ℕ}
        → world.write bytes s ≡ (IoResult.done n, s')
        → Sends s' rest s''
        → sent ≡ take n bytes ++ rest
        → Sends s sent s''

  -- Why writing out ends, with what is left, from the stream as the successful writes left it: there
  -- is nothing left, or one more write of all that is left fails, or takes no byte.
  pub data Stops (left : List ℕ) (s : S) : Result (Unit {0}) × S → Type 0 where
    emptied : left ≡ [] → Stops left s (ok tt, s)
    write_failed :
        (kind : IoErrorKind) (s' : S)
        → 0 < length left
        → world.write left s ≡ (IoResult.failed kind, s')
        → Stops left s (err (io kind), s')
    took_none :
        (s' : S)
        → 0 < length left
        → world.write left s ≡ (IoResult.done 0, s')
        → Stops left s (err (io connection_reset), s')

  -- Writing out ended. What was sent and what is left make up what there was, and nothing else of
  -- the codec changed.
  pub record WrittenOut (conn : Conn S) (r : Result (Unit {0}) × Conn S) : Type 0 where
    pub sent : List ℕ
    pub last : S
    pub sends : Sends conn.stream sent last
    pub kept : conn.codec.out_buffer ≡ sent ++ r.1.codec.out_buffer
    pub rest_same : r.1.codec ≡ record (conn.codec) { out_buffer = r.1.codec.out_buffer }
    pub stops : Stops r.1.codec.out_buffer last (r.0, r.1.stream)

  -- One round of the loop, by what the stream answers.
  pub data WriteRound (conn : Conn S) : Round S (Unit {0}) → Type 0 where
    gives_up :
        (r : Result (Unit {0})) (s' : S)
        → Stops conn.codec.out_buffer conn.stream (r, s')
        → WriteRound conn (stop r (record conn { stream = s' }))
    goes_on :
        (n : ℕ) (s' : S)
        → world.write conn.codec.out_buffer conn.stream ≡ (IoResult.done (suc n), s')
        → suc n ≤ length conn.codec.out_buffer
        → WriteRound conn (
            again (record {
              codec = record (conn.codec) { out_buffer = drop (suc n) conn.codec.out_buffer };
              stream = s';
            }))

  module _ (lawful : Lawful world) where
    after_write-WriteRound :
        (conn : Conn S) (w : IoResult ℕ) (s' : S)
        → 0 < length conn.codec.out_buffer
        → world.write conn.codec.out_buffer conn.stream ≡ (w, s')
        → WriteRound conn (after_write world (w, s') conn.codec)
    unfolding after_write
    after_write-WriteRound conn (IoResult.failed kind) s' pos q =
        gives_up _ s' (write_failed kind s' pos q)
    after_write-WriteRound conn (IoResult.done zero) s' pos q = gives_up _ s' (took_none s' pos q)
    after_write-WriteRound conn (IoResult.done (suc n)) s' pos q = rw within (goes_on n s' q fits)
      where
        fits : suc n ≤ length conn.codec.out_buffer
        fits = lawful.write_fits conn.codec.out_buffer conn.stream (suc n) (ap (λ t. t.0) q)

        within : ltb (length conn.codec.out_buffer) (suc n) ≡ false
        within = le→ltb_false _ _ fits

    write_round-WriteRound : (conn : Conn S) → WriteRound conn (write_round world conn)
    unfolding write_round
    write_round-WriteRound conn = elim (Bool-cases (is_empty conn.codec.out_buffer)) [
      | inl e ↦ rw (e, write_round) (gives_up (ok tt) conn.stream (emptied (is_empty→nil _ e)))
      | inr e ↦
          rw (e, write_round)
            (after_write-WriteRound conn (world.write conn.codec.out_buffer conn.stream).0
              (world.write conn.codec.out_buffer conn.stream).1 (not_empty _ e) refl)
    ]

    write_loop-WrittenOut :
        (rounds : ℕ) (conn : Conn S)
        → length conn.codec.out_buffer < rounds
        → WrittenOut conn (write_loop world rounds conn)
    write_loop-WrittenOut zero conn h = absurd (omega arith)
    write_loop-WrittenOut (suc rounds) conn h =
        from_rest (λ conn' l. write_loop-WrittenOut rounds conn' l)
      where
        finish : Round S (Unit {0}) → Result (Unit {0}) × Conn S
        finish (stop r conn') = (r, conn')
        finish (again conn') = write_loop world rounds conn'

        by_round :
            (r : Round S (Unit {0}))
            → WriteRound conn r
            → ((conn' : Conn S)
                → length conn'.codec.out_buffer < rounds
                → WrittenOut conn' (write_loop world rounds conn'))
            → WrittenOut conn (finish r)
        by_round r (gives_up r' s' why) ih = record {
          sent = [];
          last = conn.stream;
          sends = nothing;
          kept = refl;
          rest_same = refl;
          stops = why;
        }
        by_round r (goes_on n s' q fits) ih = record {
          sent = take (suc n) conn.codec.out_buffer ++ rest.sent;
          last = rest.last;
          sends = accepted conn.codec.out_buffer (suc n) q rest.sends refl;
          kept =
              sym (take-append-drop (suc n) conn.codec.out_buffer)
              ∙ ap (λ t. take (suc n) conn.codec.out_buffer ++ t) rest.kept
              ∙ sym (append_assoc (take (suc n) conn.codec.out_buffer) rest.sent _);
          rest_same = rest.rest_same;
          stops = rest.stops;
        }
          where
            next : Conn S
            next = record {
              codec = record (conn.codec) { out_buffer = drop (suc n) conn.codec.out_buffer };
              stream = s';
            }

            shorter : length next.codec.out_buffer < rounds
            shorter = shrinks n rounds conn.codec.out_buffer fits h

            rest : WrittenOut next (write_loop world rounds next)
            rest = ih next shorter

        from_rest :
            ((conn' : Conn S)
              → length conn'.codec.out_buffer < rounds
              → WrittenOut conn' (write_loop world rounds conn'))
            → WrittenOut conn (write_loop world (suc rounds) conn)
        from_rest ih =
            unfold write_loop in by_round (write_round world conn) (write_round-WriteRound conn) ih

    -- Writing out the buffer, over a stream that says the truth on how much it took, ends: the
    -- successful writes took a part in front of the buffer, in order and each byte once, the rest is
    -- kept for later, nothing else of the codec changes. It ends well exactly on an empty buffer,
    -- with no write more; with the error of a write of the whole rest that failed; or with a
    -- connection reset, where a write of the whole rest took no byte.
    pub write_out_buffer-WrittenOut :
        (conn : Conn S) → WrittenOut conn (write_out_buffer world conn)
    unfolding write_out_buffer
    write_out_buffer-WrittenOut conn =
        write_loop-WrittenOut (suc (length conn.codec.out_buffer)) conn (omega arith)
