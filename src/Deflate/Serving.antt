-- ===== src/Deflate/Serving.antt =====
-- A server's connection with what it accepted (`accept_deflate_offers` and `WebSocketContext::new` of
-- src/protocol/mod.rs).
use tungstenite_rs.Prelude.{
  ℕ, ◌<◌, ◌≡◌, refl, subst, Bool, true, false, Option, none, some, List, lt→ltb, is_some,
}
use tungstenite_rs.Result.{Result, ok, err, panic}
use tungstenite_rs.Result.Fallible.{◌>>=◌}
use tungstenite_rs.Codec
use tungstenite_rs.Context.{
  server, active, WebSocketConfig, WebSocketContext, open_codec, with_codec, new_with, or_default,
}
use tungstenite_rs.Context
use tungstenite_rs.Deflate.{Settings}
use tungstenite_rs.Deflate.Text.{Bytes}
use tungstenite_rs.Deflate.Agreement.{AreFit}
use tungstenite_rs.Deflate.Codec.{Flate, Lawful, Context as Compression}
use tungstenite_rs.Deflate.Opening.{Opens, accept_offers-Opens}
use tungstenite_rs.Deflate.Service.{service}
use tungstenite_rs.Deflate.Config.{offers_answer, with_answer, accept_deflate_offers}

module _ (flate : Flate) (lawful : Lawful flate) (rounds : ℕ) where
  -- A connection with these settings, and compression as said.
  pub data Served (config : WebSocketConfig (service flate rounds)) (compresses : Bool)
      : Type 0 where
    served :
        (c : WebSocketContext (service flate rounds))
        → Context.new (service flate rounds) server (some config) ≡ ok c
        → is_some c.codec ≡ compresses
        → Served config compresses

  opened :
      (config : WebSocketConfig (service flate rounds)) (codec : Option (Compression flate))
      → config.write_buffer_size < config.max_write_buffer_size
      → open_codec (service flate rounds) server config.deflate_settings ≡ ok codec
      → Served config (is_some codec)
  unfolding Context.new new_with with_codec or_default
  opened config codec sizes e =
      served
        (record {
          role = server;
          frame = Codec.set_out_buffer_write_len config.write_buffer_size (
              Codec.set_max_out_buffer_len config.max_write_buffer_size
                (Codec.new config.read_buffer_size));
          state = active;
          incomplete = none;
          additional_send = none;
          unflushed_additional = false;
          config = config;
          codec = codec;
          compressed_incomplete = false;
          compression_unusable = false;
        })
        (simp (lt→ltb _ _ sizes, e) refl) refl

  module _ (from_str : Bytes → Option Bytes) where
    served_answer :
        (config : WebSocketConfig (service flate rounds)) (offers : List Bytes)
        (a : Option (Settings × Bytes))
        → config.write_buffer_size < config.max_write_buffer_size
        → AreFit config.deflate_settings
        → offers_answer flate rounds from_str config.deflate_settings offers ≡ ok a
        → Served
            (with_answer flate rounds config a).0
            (is_some (with_answer flate rounds config a).1)
    unfolding with_answer open_codec offers_answer Opens
    served_answer config offers none sizes fit e =
        opened (record config { deflate_settings = none }) none sizes refl
    served_answer config offers (some (s, response)) sizes fit e =
        with_opens (agreed_opens config.deflate_settings fit e)
      where
        agreed_opens :
            (enabled : Option Settings)
            → AreFit enabled
            → offers_answer flate rounds from_str enabled offers ≡ ok (some (s, response))
            → Opens flate server s
        agreed_opens none k q = absurd (cc)
        agreed_opens (some given) k q =
            accept_offers-Opens flate lawful given k from_str offers s response q

        with_opens :
            Opens flate server s → Served (record config { deflate_settings = some s }) true
        with_opens (codec, q, sound) =
            opened (record config { deflate_settings = some s }) (some codec) sizes
              (rw (q, open_codec) refl)

    -- A server whose settings are in range can always open a connection with the configuration that
    -- answering the client's offers leaves, whatever they are: neither the check of the buffer sizes
    -- nor flate2 panics. It compresses exactly if a response is given to the client.
    pub accept_deflate_offers-Served :
        (config after : WebSocketConfig (service flate rounds)) (offers : List Bytes)
        (response : Option Bytes)
        → config.write_buffer_size < config.max_write_buffer_size
        → AreFit config.deflate_settings
        → accept_deflate_offers flate rounds from_str offers config ≡ ok (after, response)
        → Served after (is_some response)
    unfolding accept_deflate_offers
    accept_deflate_offers-Served config after offers response sizes fit e =
        by_answer (offers_answer flate rounds from_str config.deflate_settings offers) refl e
      where
        by_answer :
            (r : Result (Option (Settings × Bytes)))
            → offers_answer flate rounds from_str config.deflate_settings offers ≡ r
            → (r >>= λ a. ok (with_answer flate rounds config a)) ≡ ok (after, response)
            → Served after (is_some response)
        by_answer (ok a) q k =
            let same : with_answer flate rounds config a ≡ (after, response) = cc in
            subst (λ t. Served t.0 (is_some t.1)) same (served_answer config offers a sizes fit q)
        by_answer (err error) q k = absurd (cc)
        by_answer panic q k = absurd (cc)
