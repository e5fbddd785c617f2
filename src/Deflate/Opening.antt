-- ===== src/Deflate/Opening.antt =====
-- A compression context for what was negotiated (`Context::new` of src/protocol/deflate/codec.rs
-- behind `accept_response` and `accept_offers` of src/protocol/deflate/negotiate.rs).
use tungstenite_rs.Prelude.{◌≤◌, ◌≡◌, refl, Option, some, List, max, arith}
use tungstenite_rs.Result.{ok}
use tungstenite_rs.Context.{Role, server, client}
use tungstenite_rs.Deflate.{Settings}
use tungstenite_rs.Deflate.Text.{Bytes}
use tungstenite_rs.Deflate.Negotiate.{accept_response, accept_offers}
use tungstenite_rs.Deflate.Agreement.{IsFit}
use tungstenite_rs.Deflate.Safety.{accept_response-IsClientSafe}
use tungstenite_rs.Deflate.Safety.Server.{accept_offers-IsServerSafe}
use tungstenite_rs.Deflate.Codec.{
  Flate, Lawful, Context, own_window, peer_window, own_reset, peer_reset, new_decoder, new,
}
use tungstenite_rs.Deflate.Inflate.{IsSound}

-- The context opens without a panic, and its decoder is sound.
unfoldable pub Opens : (flate : Flate) → Role → Settings → Type 0
Opens flate role settings = (c : Context flate) × (new flate role settings ≡ ok c) × IsSound flate c

module _ (flate : Flate) (lawful : Lawful flate) where
  new-Opens :
      (role : Role) (s : Settings)
      → 9 ≤ own_window role s
      → own_window role s ≤ 15
      → peer_window role s ≤ 15
      → Opens flate role s
  unfolding Opens new new_decoder
  new-Opens role s low high peer =
      let (encoder, e) = lawful.window_taken s.compression (own_window role s) low high in
      let (stream, d) =
        lawful.decoder_window_taken (max (peer_window role s) 9) (omega arith) (omega arith) in
      (
        record {
          encoder = encoder;
          decoder = record { stream = stream; window_bits = max (peer_window role s) 9 };
          reset_after_encoding = own_reset role s;
          reset_after_decoding = peer_reset role s;
        },
        rw (e, d) refl,
        record { window_low = omega arith; window_high = omega arith },
      )

  module _ (s : Settings) (fit : IsFit s) where
    -- Whatever a server answers, a client with settings in range that accepts the answer can open
    -- a compression context with what was agreed: neither window makes flate2 panic, an agreed
    -- server window of 8 included, and the decoder can be rebuilt with the window it has.
    pub accept_response-Opens :
        (values : List Bytes) (agreed : Settings)
        → accept_response s values ≡ ok (some agreed)
        → Opens flate client agreed
    unfolding own_window peer_window
    accept_response-Opens values agreed e =
        let (low, high, _, peer) = accept_response-IsClientSafe s fit values agreed e in
        new-Opens client agreed low (omega (arith, fit.client_high))
          (omega (arith, fit.server_high))

    -- Whatever a client offers, a server that accepts an offer can open a compression context with
    -- what was agreed: neither window makes flate2 panic, an agreed client window of 8 included, and
    -- the decoder can be rebuilt with the window it has.
    pub accept_offers-Opens :
        (from_str : Bytes → Option Bytes) (offers : List Bytes) (agreed : Settings)
        (response : Bytes)
        → accept_offers from_str s offers ≡ ok (some (agreed, response))
        → Opens flate server agreed
    unfolding own_window peer_window
    accept_offers-Opens from_str offers agreed response e =
        let (low, high, _, peer) =
          accept_offers-IsServerSafe s fit from_str offers agreed response e in
        new-Opens server agreed low (omega (arith, fit.server_high)) peer
