-- ===== src/Codec/Limits.antt =====
-- The bound on the write buffer (src/protocol/frame/mod.rs: `can_buffer`, `buffer_frame`).
use tungstenite_rs.Prelude.{
  ℕ, ◌+◌, ◌≤◌, ◌<◌, ◌≡◌, ap, ◌∙◌, true, Bool-cases, inl, inr, arith, length, length-append, leb→le,
  ltb, min,
}
use tungstenite_rs.Types.{Frame}
use tungstenite_rs.Stream.{Io, Lawful}
use tungstenite_rs.Frame
use tungstenite_rs.Frame.RoundTrip.{length-format_into_buf}
use tungstenite_rs.Collector.{usize_max}
use tungstenite_rs.Codec.{
  FrameCodec, Conn, can_buffer, buffer_frame, push_frame, write_if_long, write_out_buffer,
}
use tungstenite_rs.Codec.Write.{WrittenOut, write_out_buffer-WrittenOut}

-- The write buffer keeps to its bound, and the bound stays.
abbrev pub WithinLimit : {S : Type 0} → ℕ → Conn S → Type 0
WithinLimit limit conn =
    (length conn.codec.out_buffer ≤ limit) × (conn.codec.max_out_buffer_len ≡ limit)

can_buffer-le :
    (c : FrameCodec) (wire_size : ℕ)
    → can_buffer c wire_size ≡ true
    → min (wire_size + length c.out_buffer) usize_max ≤ c.max_out_buffer_len
unfolding can_buffer
can_buffer-le c wire_size e = leb→le _ _ e

fits_below : (n m limit top : ℕ) → m ≡ limit → limit < top → min n top ≤ m → n ≤ limit
fits_below n m limit top e small h = omega arith

pushed-WithinLimit :
    {S : Type 0} (world : Io S) (limit : ℕ) (frame : Frame) (conn : Conn S)
    → limit < usize_max
    → WithinLimit limit conn
    → can_buffer conn.codec (Frame.len frame) ≡ true
    → WithinLimit limit (record conn { codec = push_frame world frame conn.codec })
unfolding push_frame
pushed-WithinLimit world limit frame conn small (h, same) e =
    let n = Frame.len frame + length conn.codec.out_buffer in
    let bound : n ≤ limit =
      fits_below n conn.codec.max_out_buffer_len limit usize_max same small
        (can_buffer-le conn.codec (Frame.len frame) e) in
    (omega (arith, length-format_into_buf frame conn.codec.out_buffer, bound), same)

module _ {S : Type 0} (world : Io S) (lawful : Lawful world) where
  write_out_buffer-WithinLimit :
      (limit : ℕ) (conn : Conn S)
      → WithinLimit limit conn
      → WithinLimit limit (write_out_buffer world conn).1
  write_out_buffer-WithinLimit limit conn (h, e) =
      let r : WrittenOut world conn (write_out_buffer world conn) =
        write_out_buffer-WrittenOut world lawful conn in
      let left = (write_out_buffer world conn).1.codec.out_buffer in
      (
        omega (arith, ap length r.kept, length-append r.sent left),
        ap (λ c. c.max_out_buffer_len) r.rest_same ∙ e,
      )

  write_if_long-WithinLimit :
      (limit : ℕ) (conn : Conn S)
      → WithinLimit limit conn
      → WithinLimit limit (write_if_long world conn).1
  unfolding write_if_long
  write_if_long-WithinLimit limit conn h =
      elim (Bool-cases (ltb conn.codec.out_buffer_write_len (length conn.codec.out_buffer))) [
        | inl e ↦ rw e (write_out_buffer-WithinLimit limit conn h)
        | inr e ↦ rw e h
      ]

  -- The write buffer never holds more than `max_out_buffer_len` bytes: buffering a frame keeps the
  -- bound, whether the frame is refused, kept in the buffer or written out at once, and whatever the
  -- stream answers, for a bound under the largest usize.
  pub buffer_frame-WithinLimit :
      (limit : ℕ) (frame : Frame) (conn : Conn S)
      → limit < usize_max
      → WithinLimit limit conn
      → WithinLimit limit (buffer_frame world frame conn).1
  unfolding buffer_frame
  buffer_frame-WithinLimit limit frame conn small h =
      elim (Bool-cases (can_buffer conn.codec (Frame.len frame))) [
        | inl e ↦
            rw (e, buffer_frame)
              (write_if_long-WithinLimit limit
                (record conn { codec = push_frame world frame conn.codec })
                (pushed-WithinLimit world limit frame conn small h e))
        | inr e ↦ rw (e, buffer_frame) h
      ]
