-- ===== src/Context/Sending.antt =====
-- What sending does to the state of a connection (src/protocol/mod.rs: `_write`, `flush`, `close`).
use tungstenite_rs.Prelude.{
  ℕ, ◌≡◌, refl, ◌∙◌, Bool, true, false, ◌&&◌, Option, none, some, List, is_some, arith,
  if◌then◌else◌,
}
use tungstenite_rs.Types.{
  CloseFrame, Frame, Message, already_closed, protocol, non_zero_reserved_bits, send_after_closing,
}
use tungstenite_rs.Coding.{Data, text, binary}
use tungstenite_rs.Result.{Result, ok, err, panic, Exec, pure, raise, after, ◌>>=◌}
use tungstenite_rs.Stream.{Io}
use tungstenite_rs.Frame
use tungstenite_rs.Codec.{Conn}
use tungstenite_rs.Codec
use tungstenite_rs.Context.{
  Deflate, WebSocketState, active, closed_by_us, closed_by_peer, close_acknowledged, terminated,
  WebSocketContext, WebSocket, set_additional, is_active, check_not_terminated,
}
use tungstenite_rs.Context.Send.{
  Action, on_conn, update, mask_frame, translate, put_back, send_additional, buffer_given,
  close_if_done, write_data, flush, start_close, close, prepare_data, send_frame, write_message,
  check_active, write,
}
use tungstenite_rs.Context.Send

-- One state may follow another while the connection is written to: we close, or the connection ends.
unfoldable pub may_follow : WebSocketState → WebSocketState → Bool
may_follow a terminated = true
may_follow active active = true
may_follow active closed_by_us = true
may_follow closed_by_us closed_by_us = true
may_follow closed_by_peer closed_by_peer = true
may_follow close_acknowledged close_acknowledged = true
may_follow _ _ = false

may_follow_trans :
    (a b c : WebSocketState) → may_follow a b ≡ true → may_follow b c ≡ true → may_follow a c ≡ true
unfolding may_follow
may_follow_trans a b c h k = ground arith

module _ (deflate : Deflate) where
  -- What a context keeps while it sends.
  abbrev pub Moves : WebSocketContext deflate → WebSocketContext deflate → Type 0
  Moves c c' =
      (may_follow c.state c'.state ≡ true)
      × (c'.role ≡ c.role)
      × (c'.config ≡ c.config)
      × (c'.incomplete ≡ c.incomplete)
      × (c'.compressed_incomplete ≡ c.compressed_incomplete)
      × (c'.compression_unusable ≡ c.compression_unusable)

  Moves-trans : (a b c : WebSocketContext deflate) → Moves a b → Moves b c → Moves a c
  Moves-trans a b c (l, r, g, f, u, v) (l', r', g', f', u', v') =
      (may_follow_trans a.state b.state c.state l l', r' ∙ r, g' ∙ g, f' ∙ f, u' ∙ u, v' ∙ v)

  unmoved : (c : WebSocketContext deflate) → Moves c c
  unfolding may_follow
  unmoved c = ground arith

module _ (deflate : Deflate) {S : Type 0} (world : Io S) where
  pub bind-Moves :
      {A B : Type 0} (m : Action deflate world A) (f : A → Action deflate world B)
      (w : WebSocket deflate S)
      → Moves deflate w.context (m w).1.context
      → ((a : A) (w' : WebSocket deflate S) → Moves deflate w'.context (f a w').1.context)
      → Moves deflate w.context ((m >>= f) w).1.context
  bind-Moves {A} {B} m f w h k = by_result (m w) h
    where
      by_result :
          (r : Result A × WebSocket deflate S)
          → Moves deflate w.context r.1.context
          → Moves deflate w.context (after r.0 f r.1).1.context
      by_result (ok a, w') h' =
          Moves-trans deflate w.context w'.context (f a w').1.context h' (k a w')
      by_result (err e, w') h' = h'
      by_result (panic, w') h' = h'

  on_conn-Moves :
      {A : Type 0} (m : Exec (Conn S) A) (w : WebSocket deflate S)
      → Moves deflate w.context (on_conn deflate world m w).1.context
  unfolding on_conn may_follow
  on_conn-Moves m w = ground arith

  mask_frame-Moves :
      (f : Frame) (w : WebSocket deflate S)
      → Moves deflate w.context (mask_frame deflate world f w).1.context
  unfolding mask_frame may_follow
  mask_frame-Moves f w = ground arith

  buffer_frame-Moves :
      (f : Frame) (w : WebSocket deflate S)
      → Moves deflate w.context (Send.buffer_frame deflate world f w).1.context
  unfolding Send.buffer_frame translate
  buffer_frame-Moves f w =
      bind-Moves (mask_frame deflate world f)
        (λ masked.
          translate deflate world (on_conn deflate world (Codec.buffer_frame world masked)))
        w (mask_frame-Moves f w) (λ masked w'. on_conn-Moves (Codec.buffer_frame world masked) w')

  put_back-Moves :
      (c : WebSocketContext deflate) (r : Result (Unit {0}) × WebSocket deflate S)
      → Moves deflate c r.1.context
      → Moves deflate c (put_back deflate world r).1.context
  unfolding put_back set_additional
  put_back-Moves c r h = ground arith

  close_if_done-Moves :
      (flush_due : Bool) (w : WebSocket deflate S)
      → Moves deflate w.context (close_if_done deflate world flush_due w).1.context
  unfolding close_if_done on_conn update may_follow
  close_if_done-Moves flush_due w = ground arith

  send_additional-Moves :
      (w : WebSocket deflate S)
      → Moves deflate w.context (send_additional deflate world w).1.context
  unfolding send_additional
  send_additional-Moves w = by_pending w.context.additional_send
    where
      taken : WebSocket deflate S
      taken = record w { context = record (w.context) { additional_send = none } }

      by_pending :
          (pending : Option Frame)
          → Moves deflate w.context
              (elim pending as (λ _. Result Bool × WebSocket deflate S) [
                | none ↦ (ok w.context.unflushed_additional, w)
                | some msg ↦ put_back deflate world (Send.buffer_frame deflate world msg taken)
              ]).1.context
      by_pending none = unmoved deflate w.context
      by_pending (some msg) =
          put_back-Moves w.context (Send.buffer_frame deflate world msg taken)
            (buffer_frame-Moves msg taken)

  buffer_given-Moves :
      (given : Option Frame) (w : WebSocket deflate S)
      → Moves deflate w.context (buffer_given deflate world given w).1.context
  unfolding buffer_given
  buffer_given-Moves none w = unmoved deflate w.context
  buffer_given-Moves (some frame) w = buffer_frame-Moves frame w

  write_data-Moves :
      (given : Option Frame) (w : WebSocket deflate S)
      → Moves deflate w.context (write_data deflate world given w).1.context
  unfolding write_data
  write_data-Moves given w =
      bind-Moves (buffer_given deflate world given) (λ u. rest) w (buffer_given-Moves given w)
        (λ u w'.
          bind-Moves (send_additional deflate world) (close_if_done deflate world) w'
            (send_additional-Moves w') close_if_done-Moves)
    where
      rest : Action deflate world Bool
      rest = send_additional deflate world >>= close_if_done deflate world

  if-Moves :
      {A : Type 0} (b : Bool) (m n : Action deflate world A) (w : WebSocket deflate S)
      → Moves deflate w.context (m w).1.context
      → Moves deflate w.context (n w).1.context
      → Moves deflate w.context (if b then m w else n w).1.context
  if-Moves true m n w h k = h
  if-Moves false m n w h k = k

  update-Moves :
      (f : WebSocketContext deflate → WebSocketContext deflate) (w : WebSocket deflate S)
      → Moves deflate w.context (f w.context)
      → Moves deflate w.context (update deflate world f w).1.context
  unfolding update
  update-Moves f w h = h

  pub flush-Moves :
      (w : WebSocket deflate S) → Moves deflate w.context (flush deflate world w).1.context
  unfolding flush update
  flush-Moves w =
      if-Moves w.context.compression_unusable (raise already_closed) through w
        (unmoved deflate w.context)
        (bind-Moves (write_data deflate world none) (λ u. write_out) w (write_data-Moves none w)
          (λ u w1.
            bind-Moves (on_conn deflate world (Codec.write_out_buffer world)) (λ u. flush_out) w1
              (on_conn-Moves (Codec.write_out_buffer world) w1)
              (λ u w2.
                bind-Moves (on_conn deflate world (Codec.flush_stream world)) (λ u. done) w2
                  (on_conn-Moves (Codec.flush_stream world) w2)
                  (λ u w3. unmoved deflate w3.context))))
    where
      done : Action deflate world (Unit {0})
      done = update deflate world (λ c. record c { unflushed_additional = false })

      flush_out : Action deflate world (Unit {0})
      flush_out = on_conn deflate world (Codec.flush_stream world) >>= λ u. done

      write_out : Action deflate world (Unit {0})
      write_out = on_conn deflate world (Codec.write_out_buffer world) >>= λ u. flush_out

      through : Action deflate world (Unit {0})
      through = write_data deflate world none >>= λ u. write_out

  closing-Moves :
      (c : WebSocketContext deflate)
      → is_active c.state ≡ true
      → Moves deflate c (record c { state = closed_by_us })
  unfolding is_active may_follow
  closing-Moves c e = ground arith

  start_close-Moves :
      (code : Option CloseFrame) (w : WebSocket deflate S)
      → Moves deflate w.context (start_close deflate world code w).1.context
  unfolding start_close update
  start_close-Moves code w = by_active (is_active w.context.state) refl
    where
      said : WebSocket deflate S
      said = record w { context = record (w.context) { state = closed_by_us } }

      send_close : Action deflate world (Unit {0})
      send_close = write_data deflate world (some (Frame.close code)) >>= λ u. pure tt

      starting : Action deflate world (Unit {0})
      starting = update deflate world (λ c. record c { state = closed_by_us }) >>= λ u. send_close

      by_active :
          (b : Bool)
          → is_active w.context.state ≡ b
          → Moves deflate w.context (if b then starting w else (ok tt, w)).1.context
      by_active true e =
          Moves-trans deflate w.context said.context (send_close said).1.context
            (closing-Moves w.context e)
            (bind-Moves (write_data deflate world (some (Frame.close code))) (λ u. pure tt) said
              (write_data-Moves (some (Frame.close code)) said)
              (λ u w'. unmoved deflate w'.context))
      by_active false e = unmoved deflate w.context

  close-Moves :
      (code : Option CloseFrame) (w : WebSocket deflate S)
      → Moves deflate w.context (close deflate world code w).1.context
  unfolding close
  close-Moves code w =
      bind-Moves (start_close deflate world code) (λ u. flush deflate world) w
        (start_close-Moves code w) (λ u w'. flush-Moves w')

  prepare_data-Moves :
      (bytes : List ℕ) (opcode : Data) (w : WebSocket deflate S)
      → Moves deflate w.context (prepare_data deflate world bytes opcode w).1.context
  unfolding prepare_data may_follow
  prepare_data-Moves bytes opcode w = ground arith

  send_frame-Moves :
      (frame : Frame) (w : WebSocket deflate S)
      → Moves deflate w.context (send_frame deflate world frame w).1.context
  unfolding send_frame
  send_frame-Moves frame w =
      bind-Moves (write_data deflate world (some frame)) flush_if w
        (write_data-Moves (some frame) w) flush_if-Moves
    where
      flush_if : Bool → Action deflate world (Unit {0})
      flush_if due = if due then flush deflate world else pure tt

      flush_if-Moves :
          (due : Bool) (w' : WebSocket deflate S)
          → Moves deflate w'.context (flush_if due w').1.context
      flush_if-Moves true w' = flush-Moves w'
      flush_if-Moves false w' = unmoved deflate w'.context

  add_pong-Moves :
      (f : Frame) (c : WebSocketContext deflate) → Moves deflate c (set_additional deflate f c)
  unfolding set_additional may_follow
  add_pong-Moves f c = ground arith

  write_message-Moves :
      (message : Message) (w : WebSocket deflate S)
      → Moves deflate w.context (write_message deflate world message w).1.context
  unfolding write_message update
  write_message-Moves (Message.text bytes) w =
      bind-Moves (prepare_data deflate world bytes text) (send_frame deflate world) w
        (prepare_data-Moves bytes text w) send_frame-Moves
  write_message-Moves (Message.binary bytes) w =
      bind-Moves (prepare_data deflate world bytes binary) (send_frame deflate world) w
        (prepare_data-Moves bytes binary w) send_frame-Moves
  write_message-Moves (Message.ping bytes) w = send_frame-Moves (Frame.ping bytes) w
  write_message-Moves (Message.pong bytes) w =
      bind-Moves (update deflate world (set_additional deflate (Frame.pong bytes)))
        (λ u. write_data deflate world none >>= λ b. pure tt) w
        (update-Moves (set_additional deflate (Frame.pong bytes)) w
          (add_pong-Moves (Frame.pong bytes) w.context))
        (λ u w'.
          bind-Moves (write_data deflate world none) (λ b. pure tt) w' (write_data-Moves none w')
            (λ b w2. unmoved deflate w2.context))
  write_message-Moves (Message.close code) w = close-Moves code w
  write_message-Moves (Message.frame frame) w =
      if-Moves (frame.header.rsv1 && is_some w.context.codec)
        (raise (protocol non_zero_reserved_bits)) (send_frame deflate world frame) w
        (unmoved deflate w.context) (send_frame-Moves frame w)

  -- Writing any message, over any stream and whatever comes of it, an error included, moves the
  -- state of the connection only forward: to our own close, or to the end. The role, the
  -- configuration, the message that is being received and what is known of its compression stay.
  pub write-Moves :
      (message : Message) (w : WebSocket deflate S)
      → Moves deflate w.context (write deflate world message w).1.context
  unfolding write
  write-Moves message w =
      bind-Moves checked (λ u. guarded) w (unmoved deflate w.context)
        (λ u w1.
          bind-Moves (check_active deflate world) (λ u. write_message deflate world message) w1
            (check_active-Moves w1) (λ u w2. write_message-Moves message w2))
    where
      checked : Action deflate world (Unit {0})
      checked w' = (check_not_terminated w'.context.state, w')

      guarded : Action deflate world (Unit {0})
      guarded = check_active deflate world >>= λ u. write_message deflate world message

      check_active-Moves :
          (w' : WebSocket deflate S)
          → Moves deflate w'.context (check_active deflate world w').1.context
      check_active-Moves w' =
          unfold check_active in
          if-Moves (is_active w'.context.state) (pure tt) (raise (protocol send_after_closing)) w'
            (unmoved deflate w'.context) (unmoved deflate w'.context)
