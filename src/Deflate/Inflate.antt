-- ===== src/Deflate/Inflate.antt =====
-- Inflating ends, within the limit on the size of a message (`inflate` of
-- src/protocol/deflate/codec.rs).
use tungstenite_rs.Prelude.{
  ℕ, zero, suc, ◌+◌, ◌-◌, ◌≤◌, ◌<◌, ◌≡◌, refl, sym, ap, ◌∙◌, subst, inl, inr, Bool, true, false,
  Option, none, some, List, ◌++◌, append_assoc, length, length-append, length-drop, drop, min, ltb,
  le→ltb_false, ltb→lt, Bool-cases, arith,
}
use tungstenite_rs.Types.{capacity, message_too_long, protocol, compression}
use tungstenite_rs.Result.{Result, ok, err, or_panic}
use tungstenite_rs.Collector.{usize_max}
use tungstenite_rs.Deflate.Codec.{
  Flate, Lawful, Step, Status, ok_status, buf_error, stream_end, Context, ConfiguredDecoder,
  progress, reconstructs_on_reset, reset_decoder, reset_at_end, Inflating, finished, onward, settle,
  after_reset, after_decoding, inflate_round, inflate_loop, inflate, writable, with_decoder,
}

-- The verdict on a round: something was done, the stream waits, or it is stuck.
pub data Progress (consumed produced : ℕ) : Result Bool → Type 0 where
  moved : 0 < consumed + produced → Progress consumed produced (ok true)
  rests : Progress consumed produced (ok false)
  stuck : Progress consumed produced (err (protocol compression))

progress_moved :
    (s : Status) (consumed produced : ℕ)
    → 0 < consumed + produced
    → progress s consumed produced ≡ ok true
unfolding progress
progress_moved s consumed produced h = ground arith

progress-Progress :
    (s : Status) (consumed produced : ℕ) → Progress consumed produced (progress s consumed produced)
unfolding progress
progress-Progress ok_status zero zero = stuck
progress-Progress buf_error zero zero = rests
progress-Progress stream_end zero zero = rests
progress-Progress s (suc c) p =
    subst (Progress (suc c) p) (sym (progress_moved s (suc c) p (omega arith)))
      (moved (omega arith))
progress-Progress s zero (suc p) =
    subst (Progress zero (suc p)) (sym (progress_moved s zero (suc p) (omega arith)))
      (moved (omega arith))

module _ (flate : Flate) where
  -- The decoder has a window that it can be built with again.
  pub record IsSound (c : Context flate) : Type 0 where
    pub window_low : 9 ≤ c.decoder.window_bits
    pub window_high : c.decoder.window_bits ≤ 15

  -- What is still to come: the input, and the bytes that the limit allows.
  abbrev measure : ℕ → ℕ → List ℕ → List ℕ → ℕ
  measure already limit input output = length input + (limit - (already + length output))

  -- How a round may end.
  data Ends (already limit : ℕ) (input output : List ℕ) : Inflating flate → Type 0 where
    done :
        (more : List ℕ) (c : Context flate)
        → IsSound c
        → already + length (output ++ more) ≤ limit
        → Ends already limit input output (finished (ok (output ++ more)) c)
    refused :
        (c : Context flate)
        → IsSound c
        → Ends already limit input output (finished (err (protocol compression)) c)
    over :
        (size : ℕ) (c : Context flate)
        → IsSound c
        → limit < size
        → Ends already limit input output
            (finished (err (capacity (message_too_long size limit))) c)
    goes_on :
        (input' more : List ℕ) (c : Context flate)
        → IsSound c
        → already + length (output ++ more) ≤ limit
        → measure already limit input' (output ++ more) < measure already limit input output
        → Ends already limit input output (onward input' (output ++ more) c)

  -- Inflating ended: with more output and within the limit, or with one of two errors; the decoder
  -- can go on being used or built again.
  pub data Inflated (already limit : ℕ) (output : List ℕ) (r : Result (List ℕ) × Context flate)
      : Type 0 where
    inflated :
        (more : List ℕ)
        → r.0 ≡ ok (output ++ more)
        → already + length (output ++ more) ≤ limit
        → IsSound r.1
        → Inflated already limit output r
    damaged : r.0 ≡ err (protocol compression) → IsSound r.1 → Inflated already limit output r
    too_long :
        (size : ℕ)
        → limit < size
        → r.0 ≡ err (capacity (message_too_long size limit))
        → IsSound r.1
        → Inflated already limit output r

  later_output :
      (already limit : ℕ) (output more : List ℕ) (r : Result (List ℕ) × Context flate)
      → Inflated already limit (output ++ more) r
      → Inflated already limit output r
  later_output already limit output more r (inflated next e within k) =
      let regroup = append_assoc output more next in
      inflated (more ++ next) (e ∙ ap ok regroup)
        (subst (λ t. already + length t ≤ limit) regroup within) k
  later_output already limit output more r (damaged e k) = damaged e k
  later_output already limit output more r (too_long size big e k) = too_long size big e k

  module _ (lawful : Lawful flate) where
    pub reset_decoder-IsSound :
        (c : Context flate)
        → IsSound c
        → (d : ConfiguredDecoder flate) × (reset_decoder flate c.decoder ≡ ok d)
          × (d.window_bits ≡ c.decoder.window_bits)
    unfolding reset_decoder
    reset_decoder-IsSound c h = elim (Bool-cases (reconstructs_on_reset c.decoder.window_bits)) [
      | inl e ↦
          let (d, q) =
            lawful.decoder_window_taken c.decoder.window_bits h.window_low h.window_high in
          (record (c.decoder) { stream = d }, rw (e, reset_decoder) (rw (q, or_panic) refl), refl)
      | inr e ↦ (
        record (c.decoder) { stream = flate.reset_decompress c.decoder.stream },
        rw (e, reset_decoder) refl,
        refl,
      )
    ]

    reset_at_end-IsSound :
        (s : Status) (c : Context flate)
        → IsSound c
        → (c' : Context flate) × (reset_at_end flate s c ≡ ok c') × IsSound c'
    unfolding reset_at_end
    reset_at_end-IsSound ok_status c h = (c, refl, h)
    reset_at_end-IsSound buf_error c h = (c, refl, h)
    reset_at_end-IsSound stream_end c h =
        let (d, e, w) = reset_decoder-IsSound c h in
        (
          record c { decoder = d },
          rw (e, reset_at_end) refl,
          record {
            window_low = subst (λ n. 9 ≤ n) (sym w) h.window_low;
            window_high = subst (λ n. n ≤ 15) (sym w) h.window_high;
          },
        )

    settle-Ends :
        (already limit : ℕ) (input output more : List ℕ) (consumed : ℕ) (c : Context flate)
        (r : Result Bool)
        → IsSound c
        → consumed ≤ length input
        → already + length (output ++ more) ≤ limit
        → Progress consumed (length more) r
        → Ends already limit input output (settle flate r (drop consumed input) (output ++ more) c)
    unfolding settle
    settle-Ends already limit input output more consumed c r h fits within (moved pos) =
        goes_on (drop consumed input) more c h within
          (omega (arith, length-drop consumed input, length-append output more))
    settle-Ends already limit input output more consumed c r h fits within rests =
        done more c h within
    settle-Ends already limit input output more consumed c r h fits within stuck = refused c h

    with_decoder-IsSound :
        (d : flate.Decompress) (c : Context flate) → IsSound c → IsSound (with_decoder flate d c)
    unfolding with_decoder
    with_decoder-IsSound d c h = record { window_low = h.window_low; window_high = h.window_high }

    within_limit :
        (n limit : ℕ) → limit < usize_max → ltb limit (min n usize_max) ≡ false → n ≤ limit
    within_limit n limit small h = ground arith

    after_decoding-Ends :
        (already limit : ℕ) (input output : List ℕ) (o : Option Step) (d : flate.Decompress)
        (c : Context flate)
        → limit < usize_max
        → IsSound c
        → ((step : Step) → o ≡ some step → step.consumed ≤ length input)
        → Ends already limit input output (after_decoding flate already limit input output (o, d) c)
    unfolding after_decoding after_reset
    after_decoding-Ends already limit input output none d c small h fits =
        refused (with_decoder flate d c) (with_decoder-IsSound d c h)
    after_decoding-Ends already limit input output (some step) d c small h fits =
        let size = min (already + length (output ++ step.produced)) usize_max in
        elim (Bool-cases (ltb limit size)) [
          | inl e ↦
              rw (e, after_decoding)
                (over size (with_decoder flate d c) (with_decoder-IsSound d c h)
                  (ltb→lt limit size e))
          | inr e ↦
              let (c', q, k) =
                reset_at_end-IsSound step.status (with_decoder flate d c)
                  (with_decoder-IsSound d c h) in
              rw (e, after_decoding)
                (rw (le→ltb_false (length input) step.consumed (fits step refl), after_decoding)
                  (rw (q, after_reset)
                    (settle-Ends already limit input output step.produced step.consumed c'
                      (progress step.status step.consumed (length step.produced)) k (fits step refl)
                      (within_limit (already + length (output ++ step.produced)) limit small e)
                      (progress-Progress step.status step.consumed (length step.produced)))))
        ]

    inflate_round-Ends :
        (already limit : ℕ) (input output : List ℕ) (c : Context flate)
        → limit < usize_max
        → IsSound c
        → Ends already limit input output (inflate_round flate already limit input output c)
    unfolding inflate_round
    inflate_round-Ends already limit input output c small h =
        after_decoding-Ends already limit input output
          (flate.decompress input offered_room stream).0
          (flate.decompress input offered_room stream).1 c small h
          (λ step e.
            lawful.consumed_fits input offered_room stream
              (flate.decompress input offered_room stream).1 step
              (ap (λ o. (o, (flate.decompress input offered_room stream).1)) e))
      where
        offered_room : ℕ
        offered_room = writable already limit (length output)

        stream : flate.Decompress
        stream = c.decoder.stream

    inflate_loop-Inflated :
        (rounds already limit : ℕ) (input output : List ℕ) (c : Context flate)
        → limit < usize_max
        → IsSound c
        → measure already limit input output < rounds
        → Inflated already limit output (inflate_loop flate rounds already limit input output c)
    inflate_loop-Inflated zero already limit input output c small h enough = absurd (omega arith)
    inflate_loop-Inflated (suc rounds) already limit input output c small h enough =
        from_rest (λ input' output' c' k l.
          inflate_loop-Inflated rounds already limit input' output' c' small k l)
      where
        Rest : Type 0
        Rest =
            (input' output' : List ℕ) (c' : Context flate)
            → IsSound c'
            → measure already limit input' output' < rounds
            → Inflated already limit output'
                (inflate_loop flate rounds already limit input' output' c')

        finish : Inflating flate → Result (List ℕ) × Context flate
        finish (finished r c') = (r, c')
        finish (onward input' output' c') =
            inflate_loop flate rounds already limit input' output' c'

        by_round :
            (r : Inflating flate)
            → Ends already limit input output r
            → Rest
            → Inflated already limit output (finish r)
        by_round r (done more c' k within) rest = inflated more refl within k
        by_round r (refused c' k) rest = damaged refl k
        by_round r (over size c' k big) rest = too_long size big refl k
        by_round r (goes_on input' more c' k within less) rest =
            later_output already limit output more _
              (rest input' (output ++ more) c' k (omega arith))

        from_rest :
            Rest
            → Inflated already limit output
                (inflate_loop flate (suc rounds) already limit input output c)
        from_rest rest =
            unfold inflate_loop in
            by_round (inflate_round flate already limit input output c)
              (inflate_round-Ends already limit input output c small h) rest

    -- Inflating always ends, however flate2 answers within its documentation: every round that
    -- goes on takes input or puts out one of the bytes that the limit still allows. The output is
    -- the one before with more behind it, and with what the message had already it is within the
    -- limit; otherwise the error says that the data is damaged or that the message is too long.
    -- It never panics, and the decoder stays sound. This is for a sound decoder and a limit under
    -- usize::MAX.
    pub inflate-Inflated :
        (already limit : ℕ) (input output : List ℕ) (c : Context flate)
        → limit < usize_max
        → IsSound c
        → Inflated already limit output (inflate flate already limit input output c)
    unfolding inflate
    inflate-Inflated already limit input output c small h =
        inflate_loop-Inflated _ already limit input output c small h (omega arith)
