-- ===== src/Handshake/Established.antt =====
-- The connection that a client opens on a verified response (src/handshake/client.rs).
use tungstenite_rs.Prelude.{
  ℕ, ◌<◌, ◌≡◌, refl, Option, none, some, List, lt→ltb, Bool, true, false, if◌then◌else◌,
}
use tungstenite_rs.Prelude.Text.{codes}
use tungstenite_rs.Types.{Response}
use tungstenite_rs.Result.{Result, ok, err, panic}
use tungstenite_rs.Result.Fallible.{◌>>=◌}
use tungstenite_rs.Stream.{Io}
use tungstenite_rs.Context.{
  client, active, WebSocketContext, open_codec, with_codec, new_with, or_default,
}
use tungstenite_rs.Context
use tungstenite_rs.Codec
use tungstenite_rs.Deflate.{Settings}
use tungstenite_rs.Deflate.Text.{Bytes, bad_header}
use tungstenite_rs.Deflate.Agreement.{AreFit}
use tungstenite_rs.Deflate.Codec.{Flate, Lawful, Context as Compression}
use tungstenite_rs.Deflate.Negotiate.{headers_select_deflate}
use tungstenite_rs.Deflate.Opening.{Opens, accept_response-Opens}
use tungstenite_rs.Deflate.Service.{service}
use tungstenite_rs.Handshake.{finished}
use tungstenite_rs.Handshake.Machine.{StageResult}
use tungstenite_rs.Handshake.Http.{Headers}
use tungstenite_rs.Handshake.Client.{
  verify_deflate_response, with_tail, Config, ClientHandshake, offered_deflate, with_agreed,
  open_connection, after_verify, stage_finished,
}
use tungstenite_rs.Handshake.Verified.{IsVerified, verify_response-iff-IsVerified}

module _ {S : Type 0} (headers : Headers) (world : Io S) (flate : Flate) (lawful : Lawful flate)
    (rounds : ℕ) where
  none_selected :
      (r : Result Bool) (agreed : Settings)
      → ¬ ((r >>= λ selected. if selected then err bad_header else ok none) ≡ ok (some agreed))
  none_selected (ok true) agreed e = cc
  none_selected (ok false) agreed e = cc
  none_selected (err error) agreed e = cc
  none_selected panic agreed e = cc

  opened :
      (agreed : Settings)
      → Opens flate client agreed
      → (codec : Option (Compression flate)) × (open_codec
            (service flate rounds)
            client
            (some agreed)
          ≡ ok codec)
  unfolding Opens open_codec
  opened agreed (c, e, sound) = (some c, rw (e, open_codec) refl)

  -- What is agreed can be opened.
  pub opens_agreed :
      (offered agreed : Option Settings) (values : List Bytes)
      → AreFit offered
      → verify_deflate_response offered values ≡ ok agreed
      → (codec : Option (Compression flate)) × (open_codec (service flate rounds) client agreed
          ≡ ok codec)
  unfolding verify_deflate_response open_codec
  opens_agreed offered none values fit e = (none, refl)
  opens_agreed none (some agreed) values fit e =
      absurd (none_selected (headers_select_deflate values) agreed e)
  opens_agreed (some s) (some agreed) values fit e =
      opened agreed (accept_response-Opens flate lawful s fit values agreed e)

  -- The connection of a client that has accepted its answer.
  pub record Established (c : ClientHandshake headers world flate rounds)
      (config : Config headers world flate rounds) (r : Response) (s : S) (tail : List ℕ)
      (agreed : Option Settings) : Type 0 where
    pub context : WebSocketContext (service flate rounds)
    pub is_done :
        stage_finished headers world flate rounds (StageResult.done_reading r s tail) c ≡ (
          ok (finished (record { context = context; socket = s }, r)),
          record c { config = some (record config { deflate_settings = agreed }) },
        )
    pub is_client : context.role ≡ client
    pub keeps_tail : context.frame.in_buffer.bytes ≡ tail
    pub keeps_agreement : context.config ≡ record config { deflate_settings = agreed }

  -- A client whose settings are in range always ends up with an open connection, once the response
  -- is verified and its answer on compression accepted: nothing panics, neither the check of the
  -- buffer sizes nor flate2. The connection is a client's, has what was agreed as its settings, and
  -- begins with the bytes that came behind the response.
  pub stage_finished-Established :
      (c : ClientHandshake headers world flate rounds) (config : Config headers world flate rounds)
      (r : Response) (s : S) (tail : List ℕ) (agreed : Option Settings)
      → c.config ≡ some config
      → config.write_buffer_size < config.max_write_buffer_size
      → AreFit config.deflate_settings
      → IsVerified headers c.verify_data r
      → verify_deflate_response config.deflate_settings
          (headers.get_all r.headers (codes "Sec-WebSocket-Extensions"))
        ≡ ok agreed
      → Established c config r s tail agreed
  unfolding stage_finished after_verify with_tail open_connection offered_deflate with_agreed
      Context.from_partially_read or_default new_with with_codec Codec.set_out_buffer_write_len
      Codec.set_max_out_buffer_len Codec.from_partially_read
  stage_finished-Established c config r s tail agreed has sizes fit v e =
      let (codec, o) = opens_agreed config.deflate_settings agreed _ fit e in
      let accepted = (verify_response-iff-IsVerified headers c.verify_data r r).1 (refl, v) in
      record {
        context = built codec;
        is_done = simp (accepted, has, e, lt→ltb _ _ sizes, o) refl;
        is_client = refl;
        keeps_tail = refl;
        keeps_agreement = refl;
      }
    where
      built : Option (Compression flate) → WebSocketContext (service flate rounds)
      built codec = record {
        role = client;
        frame = Codec.set_out_buffer_write_len config.write_buffer_size (
            Codec.set_max_out_buffer_len config.max_write_buffer_size
              (Codec.from_partially_read world tail config.read_buffer_size));
        state = active;
        incomplete = none;
        additional_send = none;
        unflushed_additional = false;
        config = record config { deflate_settings = agreed };
        codec = codec;
        compressed_incomplete = false;
        compression_unusable = false;
      }
