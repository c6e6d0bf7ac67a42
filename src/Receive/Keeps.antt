-- ===== src/Receive/Keeps.antt =====
-- Sending and closing leave the receive half of the instance alone, if the handlers do.
use wic.Base.{
  ℕ, ◌≡◌, refl, inl, inr, Bool, true, Option, none, some, List, arith, Option-cases, if◌then◌else◌,
}
use wic.Utf8.{utf8_parse_string}
use wic.Types.{Buffer, Encoding, HandshakeFailure, Opcode, State}
use wic.Stream.{Stream}
use wic.Inst.{Inst, Sys, App, with_inst}
use wic.Inst.Handlers.{
  call_message, call_open, call_close, call_close_transport, call_handshake_failure, call_send,
  call_buffer, call_rand, call_ping, call_pong,
}
use wic.Frame.{TxFrame, init_mask, stream_put_frame}
use wic.Close.{put_masked_frame, send_stream, write_close, close_in_state, close_with_reason}
use wic.Send.{
  allowed_to_send, data_frame, send_frame, send_pong_with_payload, binary_opcode, text_opcode,
  wic_send_binary, wic_send_text, wic_send,
}

-- The documented use of the handlers: they send and close, and never reach into the receiver.
pub record KeepsRx {W : Type 0} (app : App W) : Type 0 where
  pub message :
      (e : Encoding) (fin : Bool) (b : List ℕ) (s : Sys W)
      → (app.on_message e fin b s).1.self.rx ≡ s.self.rx
  pub opened : (s : Sys W) → (app.on_open s).self.rx ≡ s.self.rx
  pub closed : (c : ℕ) (b : List ℕ) (s : Sys W) → (app.on_close c b s).self.rx ≡ s.self.rx
  pub transport : (s : Sys W) → (app.on_close_transport s).self.rx ≡ s.self.rx
  pub failure :
      (f : HandshakeFailure) (s : Sys W) → (app.on_handshake_failure f s).self.rx ≡ s.self.rx
  pub sent : (b : List ℕ) (t : Buffer) (s : Sys W) → (app.on_send b t s).self.rx ≡ s.self.rx
  pub buffer : (n : ℕ) (t : Buffer) (s : Sys W) → (app.on_buffer n t s).2.self.rx ≡ s.self.rx
  pub random : (s : Sys W) → (app.rand s).1.self.rx ≡ s.self.rx
  pub pinged : (s : Sys W) → (app.on_ping s).self.rx ≡ s.self.rx
  pub ponged : (s : Sys W) → (app.on_pong s).self.rx ≡ s.self.rx

module _ {W : Type 0} (app : App W) (keeps : KeepsRx app) where
  pub call_message-rx :
      (e : Encoding) (fin : Bool) (b : List ℕ) (s : Sys W)
      → (call_message app e fin b s).1.self.rx ≡ s.self.rx
  unfolding call_message
  call_message-rx e fin b s = grind (arith, keeps.message)

  pub call_ping-rx : (s : Sys W) → (call_ping app s).self.rx ≡ s.self.rx
  unfolding call_ping
  call_ping-rx s = grind (arith, keeps.pinged)

  pub call_pong-rx : (s : Sys W) → (call_pong app s).self.rx ≡ s.self.rx
  unfolding call_pong
  call_pong-rx s = grind (arith, keeps.ponged)

  call_close-rx : (c : ℕ) (b : List ℕ) (s : Sys W) → (call_close app c b s).self.rx ≡ s.self.rx
  unfolding call_close
  call_close-rx c b s = grind (arith, keeps.closed)

  pub call_open-rx : (s : Sys W) → (call_open app s).self.rx ≡ s.self.rx
  unfolding call_open
  call_open-rx s = grind (arith, keeps.opened)

  pub call_close_transport-rx : (s : Sys W) → (call_close_transport app s).self.rx ≡ s.self.rx
  unfolding call_close_transport
  call_close_transport-rx s = grind (arith, keeps.transport)

  pub call_handshake_failure-rx :
      (f : HandshakeFailure) (s : Sys W) → (call_handshake_failure app f s).self.rx ≡ s.self.rx
  unfolding call_handshake_failure
  call_handshake_failure-rx f s = grind (arith, keeps.failure)

  init_mask-rx : (f : TxFrame) (s : Sys W) → (init_mask app f s).1.self.rx ≡ s.self.rx
  unfolding init_mask call_rand
  init_mask-rx f s = grind (arith, keeps.random)

  stream_put_frame-rx : (f : TxFrame) (s : Sys W) → (stream_put_frame app f s).2.self.rx ≡ s.self.rx
  unfolding stream_put_frame call_buffer
  stream_put_frame-rx f s = grind (arith, keeps.buffer)

  put_masked_frame-rx : (f : TxFrame) (s : Sys W) → (put_masked_frame app f s).2.self.rx ≡ s.self.rx
  unfolding put_masked_frame
  put_masked_frame-rx f s = grind (arith, stream_put_frame-rx, init_mask-rx)

  send_stream-rx :
      (tx : Option Stream) (t : Buffer) (s : Sys W) → (send_stream app tx t s).self.rx ≡ s.self.rx
  unfolding send_stream call_send
  send_stream-rx none t s = refl
  send_stream-rx (some tx) t s = grind (arith, keeps.sent)

  write_close-rx :
      (c : ℕ) (b : List ℕ) (t : Buffer) (s : Sys W) → (write_close app c b t s).self.rx ≡ s.self.rx
  unfolding write_close
  write_close-rx c b t s = grind (arith, send_stream-rx, put_masked_frame-rx)

  close_in_state-rx :
      (st : State) (c : ℕ) (b : List ℕ) (t : Buffer) (s : Sys W)
      → (close_in_state app st c b t s).self.rx ≡ s.self.rx
  unfolding close_in_state
  close_in_state-rx State.closed c b t s = refl
  close_in_state-rx _ c b t s =
      grind
        (arith, call_close-rx, call_close_transport-rx, write_close-rx, call_handshake_failure-rx)

  -- Closing keeps the receiver.
  pub close_with_reason-rx :
      (c : ℕ) (b : List ℕ) (t : Buffer) (s : Sys W)
      → (close_with_reason app c b t s).self.rx ≡ s.self.rx
  unfolding close_with_reason
  close_with_reason-rx c b t s = close_in_state-rx s.self.state c b t s

  send_frame-rx :
      (f : TxFrame) (commit : Inst → Inst) (s : Sys W)
      → ((i : Inst) → (commit i).rx ≡ i.rx)
      → (send_frame app f commit s).1.self.rx ≡ s.self.rx
  unfolding send_frame
  send_frame-rx f commit s h = grind (arith, send_stream-rx, put_masked_frame-rx, h)

  allowed_to_send-rx : (i : Inst) → (allowed_to_send i).1.rx ≡ i.rx
  unfolding allowed_to_send
  allowed_to_send-rx i = ground arith

  -- A pong keeps the receiver.
  pub send_pong_with_payload-rx :
      (b : List ℕ) (s : Sys W) → (send_pong_with_payload app b s).1.self.rx ≡ s.self.rx
  unfolding send_pong_with_payload
  send_pong_with_payload-rx b s = grind (
    arith,
    allowed_to_send-rx s.self,
    send_frame-rx (data_frame Opcode.pong Buffer.pong true b) (λ (i : Inst). i)
        (with_inst s (allowed_to_send s.self).1) (λ i. refl),
  )

  wic_send_binary-rx :
      (fin : Bool) (b : List ℕ) (s : Sys W) → (wic_send_binary app fin b s).1.self.rx ≡ s.self.rx
  unfolding wic_send_binary
  wic_send_binary-rx fin b s =
      let self = (allowed_to_send s.self).1 in
      let commit = λ (i : Inst). record i { frag = if fin then Opcode.cont else Opcode.binary } in
      let kept = allowed_to_send-rx s.self in
      elim (Option-cases (binary_opcode self.frag)) [
        | inl refused ↦ ground (arith, refused, kept)
        | inr (o, allowed) ↦
            let f = data_frame o Buffer.user fin b in
            ground (arith, allowed, kept, send_frame-rx f commit (with_inst s self) (λ i. refl))
      ]

  wic_send_text-rx :
      (fin : Bool) (b : List ℕ) (s : Sys W) → (wic_send_text app fin b s).1.self.rx ≡ s.self.rx
  unfolding wic_send_text
  wic_send_text-rx fin b s =
      let self = (allowed_to_send s.self).1 in
      let kept = allowed_to_send-rx s.self in
      elim (Option-cases (text_opcode self.frag self.utf8_tx)) [
        | inl refused ↦ ground (arith, refused, kept)
        | inr (o, allowed) ↦
            let commit = λ (i : Inst). record i {
              utf8_tx = utf8_parse_string o.1 b;
              frag = if fin then Opcode.cont else Opcode.text;
            } in
            let f = data_frame o.0 Buffer.user fin b in
            ground (arith, allowed, kept, send_frame-rx f commit (with_inst s self) (λ i. refl))
      ]

  -- A send keeps the receiver.
  pub wic_send-rx :
      (e : Encoding) (fin : Bool) (b : List ℕ) (s : Sys W)
      → (wic_send app e fin b s).1.self.rx ≡ s.self.rx
  unfolding wic_send
  wic_send-rx Encoding.utf8 fin b s = wic_send_text-rx fin b s
  wic_send-rx Encoding.binary fin b s = wic_send_binary-rx fin b s
