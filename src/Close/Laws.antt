-- ===== src/Close/Laws.antt =====
-- What `close_with_reason` leaves behind, and what an instance that is closed still does.
use wic.Base.{ℕ, ◌≡◌, refl, List, Option, none, some, arith}
use wic.Types.{Buffer, HandshakeFailure, State}
use wic.Stream.{Stream}
use wic.Inst.{Sys, App}
use wic.Inst.Handlers.{
  call_close, call_close_transport, call_handshake_failure, call_send, call_buffer, call_rand,
}
use wic.Frame.{TxFrame, init_mask, stream_put_frame}
use wic.Close.{put_masked_frame, send_stream, write_close, close_in_state, close_with_reason}

-- Handlers that do not open an instance that is closed: no function of the interface does, but
-- `wic_init` over the same memory.
pub record KeepsClosed {W : Type 0} (app : App W) : Type 0 where
  pub closed :
      (c : ℕ) (b : List ℕ) (s : Sys W)
      → s.self.state ≡ State.closed
      → (app.on_close c b s).self.state ≡ State.closed
  pub transport :
      (s : Sys W)
      → s.self.state ≡ State.closed
      → (app.on_close_transport s).self.state ≡ State.closed
  pub failure :
      (f : HandshakeFailure) (s : Sys W)
      → s.self.state ≡ State.closed
      → (app.on_handshake_failure f s).self.state ≡ State.closed
  pub sent :
      (b : List ℕ) (t : Buffer) (s : Sys W)
      → s.self.state ≡ State.closed
      → (app.on_send b t s).self.state ≡ State.closed
  pub buffer :
      (n : ℕ) (t : Buffer) (s : Sys W)
      → s.self.state ≡ State.closed
      → (app.on_buffer n t s).2.self.state ≡ State.closed
  pub random : (s : Sys W) → s.self.state ≡ State.closed → (app.rand s).1.self.state ≡ State.closed

abbrev IsClosed : {W : Type 0} → Sys W → Type 0
IsClosed s = s.self.state ≡ State.closed

module _ {W : Type 0} (app : App W) (keeps : KeepsClosed app) where
  call_close-IsClosed :
      (c : ℕ) (b : List ℕ) (s : Sys W) → IsClosed s → IsClosed (call_close app c b s)
  unfolding call_close
  call_close-IsClosed c b s h = grind (arith, keeps.closed)

  call_close_transport-IsClosed : (s : Sys W) → IsClosed s → IsClosed (call_close_transport app s)
  unfolding call_close_transport
  call_close_transport-IsClosed s h = grind (arith, keeps.transport)

  call_handshake_failure-IsClosed :
      (f : HandshakeFailure) (s : Sys W) → IsClosed s → IsClosed (call_handshake_failure app f s)
  unfolding call_handshake_failure
  call_handshake_failure-IsClosed f s h = grind (arith, keeps.failure)

  put_masked_frame-IsClosed :
      (f : TxFrame) (s : Sys W) → IsClosed s → IsClosed (put_masked_frame app f s).2
  unfolding put_masked_frame init_mask stream_put_frame call_buffer call_rand
  put_masked_frame-IsClosed f s h = grind (arith, keeps.buffer, keeps.random)

  send_stream-IsClosed :
      (tx : Option Stream) (t : Buffer) (s : Sys W) → IsClosed s → IsClosed (send_stream app tx t s)
  unfolding send_stream call_send
  send_stream-IsClosed none t s h = h
  send_stream-IsClosed (some tx) t s h = grind (arith, keeps.sent)

  write_close-IsClosed :
      (c : ℕ) (b : List ℕ) (t : Buffer) (s : Sys W)
      → IsClosed s
      → IsClosed (write_close app c b t s)
  unfolding write_close
  write_close-IsClosed c b t s h = grind (arith, send_stream-IsClosed, put_masked_frame-IsClosed)

  close_in_state-IsClosed :
      (st : State) (c : ℕ) (b : List ℕ) (t : Buffer) (s : Sys W)
      → s.self.state ≡ st
      → IsClosed (close_in_state app st c b t s)
  unfolding close_in_state
  close_in_state-IsClosed State.init c b t s h = refl
  close_in_state-IsClosed State.closed c b t s h = h
  close_in_state-IsClosed State.parse_handshake c b t s h =
      call_handshake_failure-IsClosed _ _ (call_close_transport-IsClosed _ refl)
  close_in_state-IsClosed _ c b t s h =
      call_close-IsClosed _ _ _
        (call_close_transport-IsClosed _ (write_close-IsClosed _ _ _ _ refl))

  -- With handlers that do not open a closed instance, closing closes, from every state, whether or
  -- not a close frame could be sent.
  pub close_with_reason-IsClosed :
      (c : ℕ) (b : List ℕ) (t : Buffer) (s : Sys W) → IsClosed (close_with_reason app c b t s)
  unfolding close_with_reason
  close_with_reason-IsClosed c b t s = close_in_state-IsClosed s.self.state c b t s refl
