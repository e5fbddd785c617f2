-- ===== src/Deflate/Config.antt =====
-- src/protocol/mod.rs: the operations of WebSocketConfig on compression.
use tungstenite_rs.Prelude.{ℕ, Bool, Option, none, some, List}
use tungstenite_rs.Result.{Result, ok}
use tungstenite_rs.Result.Fallible.{◌>>=◌}
use tungstenite_rs.Context.{Role, WebSocketConfig}
use tungstenite_rs.Deflate.{
  Settings, default_settings, max_window_bits, no_context_takeover, compression_level,
}
use tungstenite_rs.Deflate.Text.{Bytes}
use tungstenite_rs.Deflate.Negotiate.{accept_offers}
use tungstenite_rs.Deflate.Codec.{Flate}
use tungstenite_rs.Deflate.Service.{service}

-- `unwrap_or_default`
unfoldable pub settings_or_default : Option Settings → Settings
settings_or_default none = default_settings
settings_or_default (some s) = s

module _ (flate : Flate) (rounds : ℕ) where
  abbrev Config : Type 0
  Config = WebSocketConfig (service flate rounds)

  unfoldable pub enable_deflate : Config → Config
  enable_deflate config = record config {
    deflate_settings = some (settings_or_default config.deflate_settings);
  }

  unfoldable pub deflate_max_window_bits : Role → ℕ → Config → Result Config
  deflate_max_window_bits role bits config = do
    s ← max_window_bits role bits (settings_or_default config.deflate_settings)
    ok (record config { deflate_settings = some s })

  unfoldable pub deflate_no_context_takeover : Role → Bool → Config → Config
  deflate_no_context_takeover role on config = record config {
    deflate_settings =
        some (no_context_takeover role on (settings_or_default config.deflate_settings));
  }

  unfoldable pub deflate_compression_level : ℕ → Config → Result Config
  deflate_compression_level level config = do
    s ← compression_level level (settings_or_default config.deflate_settings)
    ok (record config { deflate_settings = some s })

  -- What was accepted, if compression is enabled.
  unfoldable pub offers_answer :
      (Bytes → Option Bytes) → Option Settings → List Bytes → Result (Option (Settings × Bytes))
  offers_answer from_str none offers = ok none
  offers_answer from_str (some s) offers = accept_offers from_str s offers

  -- The settings that are agreed, or none, with the response.
  unfoldable pub with_answer : Config → Option (Settings × Bytes) → Config × Option Bytes
  with_answer config none = (record config { deflate_settings = none }, none)
  with_answer config (some (s, response)) =
      (record config { deflate_settings = some s }, some response)

  unfoldable pub accept_deflate_offers :
      (Bytes → Option Bytes) → List Bytes → Config → Result (Config × Option Bytes)
  unfolding offers_answer with_answer
  accept_deflate_offers from_str offers config = do
    accepted ← offers_answer from_str config.deflate_settings offers
    ok (with_answer config accepted)
