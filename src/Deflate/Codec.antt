-- ===== src/Deflate/Codec.antt =====
-- src/protocol/deflate/codec.rs: the compression state of a connection. flate2's streams are a
-- parameter (`Flate`), `Lawful` states what their documentation promises. The loops of `compress`
-- take the rounds that they may go, since only flate2 knows when they end; `inflate` needs none.
use tungstenite_rs.Prelude.{
  ℕ, zero, suc, ◌+◌, ◌-◌, ◌≤◌, ◌≡◌, Bool, true, false, not, ◌&&◌, ◌||◌, Option, none, some, List,
  [], ◌∷◌, ◌++◌, length, take, drop, min, max, ltb, ◌==◌, if◌then◌else◌, is_empty,
}
use tungstenite_rs.Types.{Error, capacity, message_too_long, protocol, compression}
use tungstenite_rs.Result.{Result, ok, err, panic, Exec, or_panic}
use tungstenite_rs.Result.Fallible.{◌>>=◌}
use tungstenite_rs.Collector.{usize_max, limit_of}
use tungstenite_rs.Context.{Role, server, client}
use tungstenite_rs.Deflate.{Settings}

pub data Status : Type 0 where
  ok_status buf_error stream_end : Status

pub data Flush : Type 0 where
  no_flush sync : Flush

-- What a call did: the status, the count of bytes taken, and the bytes put out.
pub record Step : Type 0 where
  pub status : Status
  pub consumed : ℕ
  pub produced : List ℕ

pub record Flate : Type 1 where
  pub Compress : Type 0
  pub Decompress : Type 0
  -- `new_with_window_bits`, none where it panics.
  pub new_compress : ℕ → ℕ → Option Compress
  pub new_decompress : ℕ → Option Decompress
  pub reset_compress : Compress → Compress
  pub reset_decompress : Decompress → Decompress
  -- The input and the room for the output; none for an error.
  pub compress_vec : List ℕ → ℕ → Flush → Compress → Option Step × Compress
  pub decompress : List ℕ → ℕ → Decompress → Option Step × Decompress
  -- The capacity of a `Vec` after `reserve`, from its capacity, length and the additional bytes.
  pub grow : ℕ → ℕ → ℕ → ℕ

pub record Lawful (flate : Flate) : Type 0 where
  pub window_taken :
      (level bits : ℕ)
      → 9 ≤ bits
      → bits ≤ 15
      → (c : flate.Compress) × (flate.new_compress level bits ≡ some c)
  pub decoder_window_taken :
      (bits : ℕ)
      → 9 ≤ bits
      → bits ≤ 15
      → (d : flate.Decompress) × (flate.new_decompress bits ≡ some d)
  pub consumed_fits :
      (input : List ℕ) (room : ℕ) (d d' : flate.Decompress) (step : Step)
      → flate.decompress input room d ≡ (some step, d')
      → step.consumed ≤ length input
  pub produced_fits :
      (input : List ℕ) (room : ℕ) (d d' : flate.Decompress) (step : Step)
      → flate.decompress input room d ≡ (some step, d')
      → length step.produced ≤ room

unfoldable pub reconstructs_on_reset : ℕ → Bool
reconstructs_on_reset window_bits = ltb window_bits 15

-- `consumed != 0 || produced != 0`, or what the status says.
unfoldable pub progress : Status → ℕ → ℕ → Result Bool
progress status consumed produced =
    if not (consumed == 0) || not (produced == 0)
    then ok true
    else elim status [ ok_status ↦ err (protocol compression) | _ ↦ ok false ]

-- `&[0, 0, 0xff, 0xff]`
abbrev pub trailer : List ℕ
trailer = 0 ∷ 0 ∷ 0xff ∷ 0xff ∷ []

-- The other role's window, which the decoder is built for.
unfoldable pub peer_window : Role → Settings → ℕ
peer_window client s = s.server_max_window_bits
peer_window server s = s.client_max_window_bits

unfoldable pub own_window : Role → Settings → ℕ
own_window client s = s.client_max_window_bits
own_window server s = s.server_max_window_bits

-- `reset_encoder` and `reset_decoder` of a new context.
unfoldable pub own_reset : Role → Settings → Bool
own_reset client s = s.client_no_context_takeover
own_reset server s = s.server_no_context_takeover

unfoldable pub peer_reset : Role → Settings → Bool
peer_reset client s = s.server_no_context_takeover
peer_reset server s = s.client_no_context_takeover

-- The second loop does not count what its empty input is consumed to.
unfoldable pub counted : Flush → ℕ → ℕ
counted no_flush consumed = consumed
counted sync consumed = 0

-- `ends_with(TRAILER)`, and the bytes in front of it
unfoldable pub strip_trailer : List ℕ → Option (List ℕ)
strip_trailer output =
    let n = length output - 4 in
    elim (drop n output) [
      | a ∷ b ∷ c ∷ d ∷ [] ↦
          if a == 0 && (b == 0 && (c == 0xff && d == 0xff)) then some (take n output) else none
      | _ ↦ none
    ]

-- The room for a call of the decoder: a byte more than may still come, 4096 at most.
unfoldable pub writable : ℕ → ℕ → ℕ → ℕ
writable already max_size len =
    let remaining = max_size - min (already + len) usize_max in
    min (min (remaining + 1) usize_max) 4096

module _ (flate : Flate) where
  pub record ConfiguredDecoder : Type 0 where
    pub stream : flate.Decompress
    pub window_bits : ℕ

  pub record Context : Type 0 where
    pub encoder : flate.Compress
    pub decoder : ConfiguredDecoder
    pub reset_after_encoding : Bool
    pub reset_after_decoding : Bool

  unfoldable pub new_decoder : Role → Settings → Result ConfiguredDecoder
  new_decoder role settings = do
    let window_bits = max (peer_window role settings) 9
    stream ← or_panic (flate.new_decompress window_bits)
    ok (record { stream = stream; window_bits = window_bits })

  unfoldable pub reset_decoder : ConfiguredDecoder → Result ConfiguredDecoder
  reset_decoder d =
      if reconstructs_on_reset d.window_bits
      then (do
        stream ← or_panic (flate.new_decompress d.window_bits)
        ok (record d { stream = stream }))
      else ok (record d { stream = flate.reset_decompress d.stream })

  unfoldable pub new : Role → Settings → Result Context
  new role settings = do
    encoder ← or_panic (flate.new_compress settings.compression (own_window role settings))
    decoder ← new_decoder role settings
    ok (record {
      encoder = encoder;
      decoder = decoder;
      reset_after_encoding = own_reset role settings;
      reset_after_decoding = peer_reset role settings;
    })

  unfoldable pub reset_encoder : Context → Context
  reset_encoder c = record c { encoder = flate.reset_compress c.encoder }

  -- The variables of the loops of `compress`.
  pub record Encoding : Type 0 where
    pub input : List ℕ
    pub output : List ℕ
    pub room_end : ℕ
    pub context : Context

  -- A round ends its loop well, goes on, or ends `compress`.
  pub data Turn : Type 0 where
    leave again : Encoding → Turn
    fail : Error → Context → Turn
    crash : Context → Turn

  after_progress : Result Bool → Encoding → Turn
  after_progress (ok true) e = again e
  after_progress (ok false) e = leave e
  after_progress (err error) e = fail error e.context
  after_progress panic e = crash e.context

  after_compress_vec : Flush → ℕ → Encoding → Option Step × flate.Compress → Turn
  unfolding after_progress
  after_compress_vec flush room_end e (none, encoder) =
      fail (protocol compression) (record (e.context) { encoder = encoder })
  after_compress_vec flush room_end e (some step, encoder) =
      let consumed = counted flush step.consumed in
      if ltb (length e.input) consumed
      then crash (record (e.context) { encoder = encoder })
      else after_progress (progress step.status consumed (length step.produced)) (record {
        input = drop consumed e.input;
        output = e.output ++ step.produced;
        room_end = room_end;
        context = record (e.context) { encoder = encoder };
      })

  -- A round of either loop; the second one gives no input.
  unfoldable pub compress_round : Flush → Encoding → Turn
  unfolding after_compress_vec
  compress_round flush e =
      let room_end = flate.grow e.room_end (length e.output) 4096 in
      after_compress_vec flush room_end e
        (flate.compress_vec e.input (room_end - length e.output) flush e.context.encoder)

  unfoldable pub feed : ℕ → Encoding → Turn
  feed zero e = crash e.context
  feed (suc rounds) e = elim (is_empty e.input) [
    | true ↦ leave e
    | false ↦ elim (compress_round no_flush e) [
      | again e' ↦ feed rounds e'
      | leave e' ↦ leave e'
      | fail error c ↦ fail error c
      | crash c ↦ crash c
    ]
  ]

  unfoldable pub flush_all : ℕ → Encoding → Turn
  flush_all zero e = crash e.context
  flush_all (suc rounds) e = elim (compress_round sync e) [
    | again e' ↦ flush_all rounds e'
    | leave e' ↦ leave e'
    | fail error c ↦ fail error c
    | crash c ↦ crash c
  ]

  unfoldable pub finish_compress : Turn → Result (List ℕ) × Context
  finish_compress (leave e) = elim (strip_trailer e.output) [
    | none ↦ (err (protocol compression), reset_encoder e.context)
    | some output ↦
        (ok output, if e.context.reset_after_encoding then reset_encoder e.context else e.context)
  ]
  finish_compress (again e) = (panic, e.context)
  finish_compress (fail error c) = (err error, c)
  finish_compress (crash c) = (panic, c)

  -- `input` is empty in the second loop.
  then_flush : ℕ → Turn → Turn
  then_flush rounds (leave e) = flush_all rounds (record e { input = [] })
  then_flush rounds t = t

  unfoldable pub compress : ℕ → List ℕ → Exec Context (List ℕ)
  unfolding then_flush
  compress rounds input c =
      if is_empty input
      then (ok (0 ∷ []), c)
      else finish_compress (
          then_flush rounds
            (feed rounds (record { input = input; output = []; room_end = 0; context = c })))

  unfoldable pub with_decoder : flate.Decompress → Context → Context
  with_decoder d c = record c { decoder = record (c.decoder) { stream = d } }

  -- `if status == StreamEnd { self.decoder.reset() }`
  unfoldable pub reset_at_end : Status → Context → Result Context
  reset_at_end stream_end c = do d ← reset_decoder c.decoder; ok (record c { decoder = d })
  reset_at_end _ c = ok c

  -- A round ends the loop with a result, or it goes on with the rest of the input and the output.
  pub data Inflating : Type 0 where
    finished : Result (List ℕ) → Context → Inflating
    onward : List ℕ → List ℕ → Context → Inflating

  -- The end of a round.
  unfoldable pub settle : Result Bool → List ℕ → List ℕ → Context → Inflating
  settle (ok true) input output c = onward input output c
  settle (ok false) input output c = finished (ok output) c
  settle (err e) input output c = finished (err e) c
  settle panic input output c = finished panic c

  unfoldable pub after_reset : Step → List ℕ → List ℕ → Result Context → Context → Inflating
  unfolding settle
  after_reset step input output (ok c) before =
      settle (progress step.status step.consumed (length step.produced)) input output c
  after_reset step input output r before = finished panic before

  unfoldable pub after_decoding :
      ℕ → ℕ → List ℕ → List ℕ → Option Step × flate.Decompress → Context → Inflating
  unfolding with_decoder after_reset
  after_decoding already max_size input output (none, d) c =
      finished (err (protocol compression)) (with_decoder d c)
  after_decoding already max_size input output (some step, d) c =
      let output' = output ++ step.produced in
      let size = min (already + length output') usize_max in
      let c' = with_decoder d c in
      if ltb max_size size
      then finished (err (capacity (message_too_long size max_size))) c'
      else if ltb (length input) step.consumed
      then finished panic c'
      else after_reset step (drop step.consumed input) output' (reset_at_end step.status c') c'

  unfoldable pub inflate_round : ℕ → ℕ → List ℕ → List ℕ → Context → Inflating
  inflate_round already max_size input output c =
      after_decoding already max_size input output
        (flate.decompress input (writable already max_size (length output)) c.decoder.stream) c

  unfoldable pub inflate_loop : ℕ → ℕ → ℕ → List ℕ → List ℕ → Exec Context (List ℕ)
  inflate_loop zero already max_size input output c = (panic, c)
  inflate_loop (suc rounds) already max_size input output c =
      elim (inflate_round already max_size input output c) [
        | finished r c' ↦ (r, c')
        | onward input' output' c' ↦ inflate_loop rounds already max_size input' output' c'
      ]

  -- Each round that goes on takes a byte, or puts out one of those that may still come.
  unfoldable pub inflate : ℕ → ℕ → List ℕ → List ℕ → Exec Context (List ℕ)
  inflate already max_size input output =
      inflate_loop (suc (length input + (max_size - (already + length output)))) already max_size
        input output

  unfoldable pub finish_message : Result Context → List ℕ → Context → Result (List ℕ) × Context
  finish_message (ok c) output before = (ok output, c)
  finish_message r output before = (panic, before)

  unfoldable pub after_trailer : Result (List ℕ) × Context → Result (List ℕ) × Context
  unfolding finish_message
  after_trailer (ok output, c) =
      if c.reset_after_decoding
      then finish_message (do d ← reset_decoder c.decoder; ok (record c { decoder = d })) output c
      else (ok output, c)
  after_trailer (r, c) = (r, c)

  unfoldable pub after_input : Bool → ℕ → ℕ → Result (List ℕ) × Context → Result (List ℕ) × Context
  unfolding after_trailer
  after_input true already max_size (ok output, c) =
      after_trailer (inflate already max_size trailer output c)
  after_input final already max_size (r, c) = (r, c)

  unfoldable pub decompress : List ℕ → Bool → ℕ → Option ℕ → Exec Context (List ℕ)
  unfolding after_input
  decompress input final_frame already max_size c =
      after_input final_frame already (limit_of max_size)
        (inflate already (limit_of max_size) input [] c)
