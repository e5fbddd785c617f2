-- ===== src/Deflate.antt =====
-- src/protocol/deflate/mod.rs: the settings of permessage-deflate. A compression level is its
-- number (`flate2::Compression`).
pub mod Text
pub mod Parameters
pub mod Negotiate
pub mod Split
pub mod Table
pub mod Agreement
pub mod Windows
pub mod Totality
pub mod Answering
pub mod Safety
pub mod Codec
pub mod Inflate
pub mod Decompress
pub mod Opening
pub mod Service
pub mod Config
pub mod Serving
use tungstenite_rs.Prelude.{ℕ, Bool, true, false, ◌&&◌, ltb, leb, if◌then◌else◌}
use tungstenite_rs.Result.{Result, ok, err, panic}
use tungstenite_rs.Context.{Role, server, client}

pub record Settings : Type 0 where
  pub compression : ℕ
  pub server_no_context_takeover : Bool
  pub client_no_context_takeover : Bool
  pub server_max_window_bits : ℕ
  pub client_max_window_bits : ℕ

-- `Compression::default()` is level 6.
unfoldable pub default_settings : Settings
default_settings = record {
  compression = 6;
  server_no_context_takeover = false;
  client_no_context_takeover = false;
  server_max_window_bits = 15;
  client_max_window_bits = 15;
}

-- The setters; an argument out of range panics.
unfoldable pub max_window_bits : Role → ℕ → Settings → Result Settings
max_window_bits role bits s =
    if leb 9 bits && leb bits 15
    then ok (elim role [
      | server ↦ record s { server_max_window_bits = bits }
      | client ↦ record s { client_max_window_bits = bits }
    ])
    else panic

unfoldable pub no_context_takeover : Role → Bool → Settings → Settings
no_context_takeover server on s = record s { server_no_context_takeover = on }
no_context_takeover client on s = record s { client_no_context_takeover = on }

unfoldable pub compression_level : ℕ → Settings → Result Settings
compression_level level s = if leb level 9 then ok (record s { compression = level }) else panic
