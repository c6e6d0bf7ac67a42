-- ===== src/Inst/Handlers.antt =====
-- The calls of the application's handlers: each one is noted, then made. An optional handler is
-- called only where its pointer is set.
use wic.Base.{ℕ, List, Bool, true, Option, if◌then◌else◌}
use wic.Types.{Buffer, Encoding, HandshakeFailure}
use wic.Inst.{
  Sys, App, get_buffer, send, message, opened, closed, close_transport, handshake_failure, pinged,
  ponged, random, note,
}

module _ {W : Type 0} (app : App W) where
  -- Without a handler of the application, the source's own `on_message` answers `true`.
  unfoldable pub call_message : Encoding → Bool → List ℕ → Sys W → Bool × Sys W
  call_message encoding fin bytes s =
      if s.self.on_message
      then app.on_message encoding fin bytes (note (message encoding fin bytes) s)
      else (true, s)

  unfoldable pub call_open : Sys W → Sys W
  call_open s = if s.self.on_open then app.on_open (note opened s) else s

  unfoldable pub call_close : ℕ → List ℕ → Sys W → Sys W
  call_close code reason s =
      if s.self.on_close then app.on_close code reason (note (closed code reason) s) else s

  unfoldable pub call_close_transport : Sys W → Sys W
  call_close_transport s =
      if s.self.on_close_transport then app.on_close_transport (note close_transport s) else s

  unfoldable pub call_handshake_failure : HandshakeFailure → Sys W → Sys W
  call_handshake_failure reason s =
      if s.self.on_handshake_failure
      then app.on_handshake_failure reason (note (handshake_failure reason) s)
      else s

  unfoldable pub call_send : List ℕ → Buffer → Sys W → Sys W
  call_send bytes type s = app.on_send bytes type (note (send bytes type) s)

  unfoldable pub call_buffer : ℕ → Buffer → Sys W → Option (List ℕ) × ℕ × Sys W
  call_buffer min type s = app.on_buffer min type (note (get_buffer min type) s)

  -- Without a generator the source takes `fallback`.
  unfoldable pub call_rand : ℕ → Sys W → ℕ × Sys W
  call_rand fallback s = if s.self.rand then app.rand (note random s) else (fallback, s)

  unfoldable pub call_ping : Sys W → Sys W
  call_ping s = if s.self.on_ping then app.on_ping (note pinged s) else s

  unfoldable pub call_pong : Sys W → Sys W
  call_pong s = if s.self.on_pong then app.on_pong (note ponged s) else s
