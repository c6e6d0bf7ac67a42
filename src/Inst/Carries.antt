-- ===== src/Inst/Carries.antt =====
-- Properties of what the application keeps: every function that calls its handlers carries one on that
-- they do.
use wic.Base.{
  ℕ, List, Bool, Option, none, some, arith, length, inl, inr, Option-cases, if◌then◌else◌,
}
use wic.Types.{Buffer, Encoding, HandshakeFailure, Opcode, State}
use wic.Stream.{Stream}
use wic.Inst.{
  Inst, Sys, App, with_inst, message, closed, opened, close_transport, handshake_failure, note,
  random, get_buffer,
}
use wic.Inst.Handlers.{
  call_message, call_open, call_close, call_close_transport, call_handshake_failure, call_send,
  call_buffer, call_rand, call_ping, call_pong,
}
use wic.Utf8.{utf8_parse_string}
use wic.Frame.{TxFrame, min_frame_size, init_mask, stream_put_frame}
use wic.Close.{
  close_frame, put_masked_frame, send_stream, write_close, close_in_state, close_with_reason,
}
use wic.Send.{
  binary_opcode, text_opcode, allowed_to_send, data_frame, send_frame, wic_send, wic_send_binary,
  wic_send_text, send_pong_with_payload,
}

-- Handlers that keep a property of the application.
pub record Carries {W : Type 0} (app : App W) (p : W → Type 0) : Type 0 where
  pub message :
      (e : Encoding) (fin : Bool) (b : List ℕ) (s : Sys W)
      → p s.world
      → p (app.on_message e fin b s).1.world
  pub opened : (s : Sys W) → p s.world → p (app.on_open s).world
  pub closed : (c : ℕ) (b : List ℕ) (s : Sys W) → p s.world → p (app.on_close c b s).world
  pub transport : (s : Sys W) → p s.world → p (app.on_close_transport s).world
  pub failure :
      (f : HandshakeFailure) (s : Sys W) → p s.world → p (app.on_handshake_failure f s).world
  pub sent : (b : List ℕ) (t : Buffer) (s : Sys W) → p s.world → p (app.on_send b t s).world
  pub buffer : (n : ℕ) (t : Buffer) (s : Sys W) → p s.world → p (app.on_buffer n t s).2.world
  pub random : (s : Sys W) → p s.world → p (app.rand s).1.world
  pub pinged : (s : Sys W) → p s.world → p (app.on_ping s).world
  pub ponged : (s : Sys W) → p s.world → p (app.on_pong s).world

module _ {W : Type 0} (app : App W) (p : W → Type 0) (carries : Carries app p) where
  abbrev Has : Sys W → Type 0
  Has s = p s.world

  pub call_message-Has :
      (e : Encoding) (fin : Bool) (b : List ℕ) (s : Sys W)
      → Has s
      → Has (call_message app e fin b s).1
  unfolding call_message
  call_message-Has e fin b s h =
      ground (arith, carries.message e fin b (note (message e fin b) s) h)

  call_close-Has : (c : ℕ) (b : List ℕ) (s : Sys W) → Has s → Has (call_close app c b s)
  unfolding call_close
  call_close-Has c b s h = ground (arith, carries.closed c b (note (closed c b) s) h)

  pub call_open-Has : (s : Sys W) → Has s → Has (call_open app s)
  unfolding call_open
  call_open-Has s h = ground (arith, carries.opened (note opened s) h)

  pub call_ping-Has : (s : Sys W) → Has s → Has (call_ping app s)
  unfolding call_ping
  call_ping-Has s h = grind (arith, carries.pinged)

  pub call_pong-Has : (s : Sys W) → Has s → Has (call_pong app s)
  unfolding call_pong
  call_pong-Has s h = grind (arith, carries.ponged)

  pub call_close_transport-Has : (s : Sys W) → Has s → Has (call_close_transport app s)
  unfolding call_close_transport
  call_close_transport-Has s h = ground (arith, carries.transport (note close_transport s) h)

  pub call_handshake_failure-Has :
      (f : HandshakeFailure) (s : Sys W) → Has s → Has (call_handshake_failure app f s)
  unfolding call_handshake_failure
  call_handshake_failure-Has f s h =
      ground (arith, carries.failure f (note (handshake_failure f) s) h)

  init_mask-Has : (f : TxFrame) (s : Sys W) → Has s → Has (init_mask app f s).1
  unfolding init_mask call_rand
  init_mask-Has f s h = ground (arith, carries.random (note random s) h)

  stream_put_frame-Has : (f : TxFrame) (s : Sys W) → Has s → Has (stream_put_frame app f s).2
  unfolding stream_put_frame call_buffer
  stream_put_frame-Has f s h =
      let n = min_frame_size f.opcode f.masked (length f.payload) in
      ground (arith, carries.buffer n f.type (note (get_buffer n f.type) s) h)

  put_masked_frame-Has : (f : TxFrame) (s : Sys W) → Has s → Has (put_masked_frame app f s).2
  unfolding put_masked_frame
  put_masked_frame-Has f s h =
      stream_put_frame-Has (init_mask app f s).0 (init_mask app f s).1 (init_mask-Has f s h)

  pub send_stream-Has :
      (tx : Option Stream) (t : Buffer) (s : Sys W) → Has s → Has (send_stream app tx t s)
  unfolding send_stream call_send
  send_stream-Has none t s h = h
  send_stream-Has (some tx) t s h = carries.sent _ t _ h

  write_close-Has :
      (c : ℕ) (b : List ℕ) (t : Buffer) (s : Sys W) → Has s → Has (write_close app c b t s)
  unfolding write_close
  write_close-Has c b t s h =
      let put = put_masked_frame app (close_frame c b t) s in
      let h' = put_masked_frame-Has (close_frame c b t) s h in
      ground (arith, h', send_stream-Has put.1 t put.2 h')

  close_in_state-Has :
      (st : State) (c : ℕ) (b : List ℕ) (t : Buffer) (s : Sys W)
      → Has s
      → Has (close_in_state app st c b t s)
  unfolding close_in_state
  close_in_state-Has State.init c b t s h = h
  close_in_state-Has State.closed c b t s h = h
  close_in_state-Has State.parse_handshake c b t s h =
      call_handshake_failure-Has _ _ (call_close_transport-Has _ h)
  close_in_state-Has _ c b t s h =
      call_close-Has _ _ _ (call_close_transport-Has _ (write_close-Has _ _ _ _ h))

  pub close_with_reason-Has :
      (c : ℕ) (b : List ℕ) (t : Buffer) (s : Sys W) → Has s → Has (close_with_reason app c b t s)
  unfolding close_with_reason
  close_with_reason-Has c b t s h = close_in_state-Has s.self.state c b t s h

  send_frame-Has :
      (f : TxFrame) (commit : Inst → Inst) (s : Sys W) → Has s → Has (send_frame app f commit s).1
  unfolding send_frame
  send_frame-Has f commit s h =
      let put = put_masked_frame app f s in
      let h' = put_masked_frame-Has f s h in
      ground (arith, h', send_stream-Has put.1 f.type (with_inst put.2 (commit put.2.self)) h')

  pub send_pong_with_payload-Has :
      (b : List ℕ) (s : Sys W) → Has s → Has (send_pong_with_payload app b s).1
  unfolding send_pong_with_payload
  send_pong_with_payload-Has b s h = grind (arith, send_frame-Has)

  wic_send_binary-Has :
      (fin : Bool) (b : List ℕ) (s : Sys W) → Has s → Has (wic_send_binary app fin b s).1
  unfolding wic_send_binary
  wic_send_binary-Has fin b s h =
      let self = (allowed_to_send s.self).1 in
      let commit = λ (i : Inst). record i { frag = if fin then Opcode.cont else Opcode.binary } in
      elim (Option-cases (binary_opcode self.frag)) [
        | inl refused ↦ ground (arith, refused)
        | inr (o, allowed) ↦ ground (
          arith,
          allowed,
          send_frame-Has (data_frame o Buffer.user fin b) commit (with_inst s self) h,
        )
      ]

  wic_send_text-Has :
      (fin : Bool) (b : List ℕ) (s : Sys W) → Has s → Has (wic_send_text app fin b s).1
  unfolding wic_send_text
  wic_send_text-Has fin b s h =
      let self = (allowed_to_send s.self).1 in
      elim (Option-cases (text_opcode self.frag self.utf8_tx)) [
        | inl refused ↦ ground (arith, refused)
        | inr (o, allowed) ↦
            let commit = λ (i : Inst). record i {
              utf8_tx = utf8_parse_string o.1 b;
              frag = if fin then Opcode.cont else Opcode.text;
            } in
            ground (
              arith,
              allowed,
              send_frame-Has (data_frame o.0 Buffer.user fin b) commit (with_inst s self) h,
            )
      ]

  pub wic_send-Has :
      (e : Encoding) (fin : Bool) (b : List ℕ) (s : Sys W) → Has s → Has (wic_send app e fin b s).1
  unfolding wic_send
  wic_send-Has Encoding.utf8 fin b s h = wic_send_text-Has fin b s h
  wic_send-Has Encoding.binary fin b s h = wic_send_binary-Has fin b s h
