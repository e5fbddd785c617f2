-- ===== src/Deflate/Service.antt =====
-- The compression of src/protocol/deflate/codec.rs as what a connection uses of it (`decompress` of
-- src/protocol/mod.rs): the interface `Deflate` filled.
use tungstenite_rs.Prelude.{
  ℕ, ◌+◌, ◌≤◌, ◌<◌, ◌≡◌, sym, subst, ◌⊎◌, inl, inr, Bool, true, false, ◌&&◌, ◌==◌, Option, none,
  some, List, [], length,
}
use tungstenite_rs.Types.{Error, capacity, message_too_long, protocol, compression}
use tungstenite_rs.Result.{Result, ok, err, panic}
use tungstenite_rs.Collector.{usize_max, limit_of}
use tungstenite_rs.Context.{Deflate, WebSocketContext, fail_compression}
use tungstenite_rs.Context.Receive.{already_len, after_decompress}
use tungstenite_rs.Context.Receive
use tungstenite_rs.Deflate.{Settings}
use tungstenite_rs.Deflate.Codec.{Flate, Lawful, Context, new, compress, reset_encoder}
use tungstenite_rs.Deflate.Codec
use tungstenite_rs.Deflate.Inflate.{IsSound, Inflated, inflated, damaged, too_long}
use tungstenite_rs.Deflate.Decompress.{decompress-Inflated}

-- `PartialEq` of booleans and of settings
unfoldable pub same_bool : Bool → Bool → Bool
same_bool true b = b
same_bool false true = false
same_bool false false = true

unfoldable pub same_settings : Option Settings → Option Settings → Bool
unfolding same_bool
same_settings none none = true
same_settings (some s) (some t) =
    s.compression == t.compression
    && (same_bool s.server_no_context_takeover t.server_no_context_takeover
        && (same_bool s.client_no_context_takeover t.client_no_context_takeover
            && (s.server_max_window_bits == t.server_max_window_bits
                && s.client_max_window_bits == t.client_max_window_bits)))
same_settings _ _ = false

-- The loops of `compress` take the rounds that are given.
abbrev pub service : Flate → ℕ → Deflate
service flate rounds = record {
  Settings = Settings;
  Codec = Context flate;
  same_settings = same_settings;
  new = new flate;
  compress = compress flate rounds;
  reset_encoder = reset_encoder flate;
  decompress = Codec.decompress flate;
}

module _ (flate : Flate) (lawful : Lawful flate) (rounds : ℕ) where
  -- The data of a frame came out and the message stays within its limit, or the connection is out of
  -- service; its codec stays sound.
  pub data Decompressed (c : WebSocketContext (service flate rounds))
      : Result (List ℕ) × WebSocketContext (service flate rounds) → Type 0 where
    came_out :
        (bytes : List ℕ) (codec : Context flate)
        → IsSound flate codec
        → already_len (service flate rounds) c.incomplete + length bytes
          ≤ limit_of c.config.max_message_size
        → Decompressed c (ok bytes, record c { codec = some codec })
    out_of_service :
        (e : Error) (codec : Context flate)
        → IsSound flate codec
        → (e ≡ protocol compression)
          ⊎ ((size : ℕ) × (limit_of c.config.max_message_size < size)
              × (e ≡ capacity (message_too_long size (limit_of c.config.max_message_size))))
        → Decompressed c
            (err e, fail_compression (service flate rounds) (record c { codec = some codec }))

  settled :
      (c : WebSocketContext (service flate rounds)) (r : Result (List ℕ)) (codec : Context flate)
      → Inflated flate
          (already_len (service flate rounds) c.incomplete)
          (limit_of c.config.max_message_size)
          []
          (r, codec)
      → Decompressed c (after_decompress (service flate rounds) (r, codec) c)
  unfolding after_decompress
  settled c (ok bytes) codec (inflated more e within k) =
      let q : bytes ≡ more = cc in
      came_out bytes codec k (
        subst
          (λ t.
            already_len (service flate rounds) c.incomplete + length t
            ≤ limit_of c.config.max_message_size)
          (sym q) within)
  settled c (err error) codec (inflated more e within k) = absurd (cc)
  settled c panic codec (inflated more e within k) = absurd (cc)
  settled c (ok bytes) codec (damaged e k) = absurd (cc)
  settled c (err error) codec (damaged e k) = out_of_service error codec k (inl cc)
  settled c panic codec (damaged e k) = absurd (cc)
  settled c (ok bytes) codec (too_long size big e k) = absurd (cc)
  settled c (err error) codec (too_long size big e k) =
      out_of_service error codec k (inr (size, big, cc))
  settled c panic codec (too_long size big e k) = absurd (cc)

  -- Decompressing a frame of a connection always ends and never panics, where the limit on the size
  -- of messages is less than usize::MAX and the codec is sound: either the data comes out and the message stays
  -- within the limit, or the connection is taken out of service, because the data is damaged or the
  -- message would be too long. The codec stays sound.
  pub decompress-Decompressed :
      (payload : List ℕ) (final : Bool) (c : WebSocketContext (service flate rounds))
      (codec : Context flate)
      → c.codec ≡ some codec
      → IsSound flate codec
      → limit_of c.config.max_message_size < usize_max
      → Decompressed c (Receive.decompress (service flate rounds) payload final c)
  unfolding Receive.decompress
  decompress-Decompressed payload final c codec has k small =
      subst
        (λ o. Decompressed c (elim o [
          | none ↦ (panic, c)
          | some d ↦
              after_decompress (service flate rounds)
                (Codec.decompress flate payload final
                  (already_len (service flate rounds) c.incomplete) c.config.max_message_size d)
                c
        ]))
        (sym has)
        (let (r, codec') =
            Codec.decompress flate payload final (already_len (service flate rounds) c.incomplete)
              c.config.max_message_size codec in
          settled c r codec' (
            decompress-Inflated flate lawful payload final
              (already_len (service flate rounds) c.incomplete) c.config.max_message_size codec
              small k))
