-- ===== src/Deflate/Decompress.antt =====
-- Opening a compression context and decompressing a frame (`Context::new` and `decompress` of
-- src/protocol/deflate/codec.rs).
use tungstenite_rs.Prelude.{
  ℕ, ◌+◌, ◌≤◌, ◌<◌, ◌≡◌, refl, sym, subst, Bool, true, false, Option, List, [], ◌++◌, length,
  if◌then◌else◌,
}
use tungstenite_rs.Result.{Result, ok, err, panic}
use tungstenite_rs.Result.Fallible.{◌>>=◌}
use tungstenite_rs.Collector.{usize_max, limit_of}
use tungstenite_rs.Deflate.Codec.{
  Flate, Lawful, Context, trailer, reset_decoder, inflate, finish_message, after_trailer,
  after_input, decompress,
}
use tungstenite_rs.Deflate.Inflate.{
  IsSound, reset_decoder-IsSound, Inflated, inflated, damaged, too_long, inflate-Inflated,
}

module _ (flate : Flate) (lawful : Lawful flate) where
  finish_message-Inflated :
      (already limit : ℕ) (output : List ℕ) (c c' : Context flate) (r : Result (Context flate))
      → already + length output ≤ limit
      → r ≡ ok c'
      → IsSound flate c'
      → Inflated flate already limit [] (finish_message flate r output c)
  unfolding finish_message
  finish_message-Inflated already limit output c c' r within e k =
      rw (e, finish_message) (inflated output refl within k)

  -- The decoder of a finished message is reset.
  abbrev renewed : Context flate → Result (Context flate)
  renewed c = do d ← reset_decoder flate c.decoder; ok (record c { decoder = d })

  reset-Inflated :
      (already limit : ℕ) (output : List ℕ) (c : Context flate)
      → already + length output ≤ limit
      → IsSound flate c
      → Inflated flate already limit [] (finish_message flate (renewed c) output c)
  reset-Inflated already limit output c within k =
      let (d, q, w) = reset_decoder-IsSound flate lawful c k in
      finish_message-Inflated already limit output c (record c { decoder = d }) (renewed c) within
        (rw (q) refl)
        (record {
          window_low = subst (λ n. 9 ≤ n) (sym w) k.window_low;
          window_high = subst (λ n. n ≤ 15) (sym w) k.window_high;
        })

  either_way :
      (P : Result (List ℕ) × Context flate → Type 0) (b : Bool)
      (x y : Result (List ℕ) × Context flate)
      → P x
      → P y
      → P (if b then x else y)
  either_way P true x y h k = h
  either_way P false x y h k = k

  finished_reset :
      (already limit : ℕ) (output : List ℕ) (c : Context flate)
      → already + length output ≤ limit
      → IsSound flate c
      → Inflated flate already limit [] (after_trailer flate (ok output, c))
  unfolding after_trailer
  finished_reset already limit output c within k =
      either_way (Inflated flate already limit []) c.reset_after_decoding
        (finish_message flate (renewed c) output c) (ok output, c)
        (reset-Inflated already limit output c within k) (inflated output refl within k)

  after_trailer-Inflated :
      (already limit : ℕ) (output : List ℕ) (r : Result (List ℕ)) (c : Context flate)
      → Inflated flate already limit output (r, c)
      → Inflated flate already limit [] (after_trailer flate (r, c))
  unfolding after_trailer
  after_trailer-Inflated already limit output r c (inflated more e within k) =
      subst (λ t. Inflated flate already limit [] (after_trailer flate (t, c))) (sym e)
        (finished_reset already limit (output ++ more) c within k)
  after_trailer-Inflated already limit output r c (damaged e k) =
      subst (λ t. Inflated flate already limit [] (after_trailer flate (t, c))) (sym e)
        (damaged refl k)
  after_trailer-Inflated already limit output r c (too_long size big e k) =
      subst (λ t. Inflated flate already limit [] (after_trailer flate (t, c))) (sym e)
        (too_long size big refl k)

  after_input-Inflated :
      (final : Bool) (already limit : ℕ) (r : Result (List ℕ)) (c : Context flate)
      → limit < usize_max
      → Inflated flate already limit [] (r, c)
      → Inflated flate already limit [] (after_input flate final already limit (r, c))
  unfolding after_input
  after_input-Inflated true already limit (ok output) c small (inflated more e within k) =
      let (r', c') = inflate flate already limit trailer output c in
      after_trailer-Inflated already limit output r' c'
        (inflate-Inflated flate lawful already limit trailer output c small k)
  after_input-Inflated true already limit (ok output) c small (damaged e k) = absurd (cc)
  after_input-Inflated true already limit (ok output) c small (too_long size big e k) = absurd (cc)
  after_input-Inflated true already limit (err error) c small h = h
  after_input-Inflated true already limit panic c small h = h
  after_input-Inflated false already limit (ok output) c small h = h
  after_input-Inflated false already limit (err error) c small h = h
  after_input-Inflated false already limit panic c small h = h

  -- Decompressing a frame with a sound context and a limit under usize::MAX always ends, whether
  -- the frame is the last of its message or not, and never panics: the data comes out, within the
  -- limit together with what the message had already; or the error says that the data is damaged,
  -- or that the message is too long. The context stays sound, also where its decoder is reset
  -- after the message.
  pub decompress-Inflated :
      (input : List ℕ) (final : Bool) (already : ℕ) (max_size : Option ℕ) (c : Context flate)
      → limit_of max_size < usize_max
      → IsSound flate c
      → Inflated flate already
          (limit_of max_size)
          []
          (decompress flate input final already max_size c)
  unfolding decompress
  decompress-Inflated input final already max_size c small h =
      let (r, c') = inflate flate already (limit_of max_size) input [] c in
      after_input-Inflated final already (limit_of max_size) r c' small
        (inflate-Inflated flate lawful already (limit_of max_size) input [] c small h)
