-- ===== src/Parse/Closed.antt =====
-- An instance that is closed stays as it is.
use wic.Base.{ℕ, ◌≡◌, Bool, false, List, some, arith, length}
use wic.Types.{Buffer, Encoding, Role, State, Status}
use wic.Stream.{Stream}
use wic.Inst.{Sys, App}
use wic.Http.{HttpParser}
use wic.Close.{close_with_reason, close_in_state}
use wic.Send.{
  allowed_to_send, ready_client, is_opened, wic_send, wic_send_binary, wic_send_text,
  wic_send_ping_with_payload,
}
use wic.Handshake.{wic_start, start_in_role, start_client, start_server, is_init, is_ready_state}
use wic.Parse.{wic_parse, is_parsing}

module _ {W : Type 0} (app : App W) (s : Sys W) (over : s.self.state ≡ State.closed) where
  allowed_to_send_over : allowed_to_send s.self ≡ (false, s.self)
  unfolding allowed_to_send ready_client is_opened
  allowed_to_send_over = elim s.self.role [
    | Role.client ↦ ground (arith, over)
    | Role.server ↦ ground (arith, over)
  ]

  close_with_reason_over :
      (code : ℕ) (reason : List ℕ) (type : Buffer) → close_with_reason app code reason type s ≡ s
  unfolding close_with_reason close_in_state
  close_with_reason_over code reason type = ground (arith, over)

  wic_send_over :
      (e : Encoding) (fin : Bool) (bytes : List ℕ)
      → wic_send app e fin bytes s ≡ (Status.not_open, s)
  unfolding wic_send wic_send_binary wic_send_text
  wic_send_over Encoding.utf8 fin bytes = ground (arith, allowed_to_send_over)
  wic_send_over Encoding.binary fin bytes = ground (arith, allowed_to_send_over)

  wic_send_ping_over :
      (bytes : List ℕ) → wic_send_ping_with_payload app bytes s ≡ (Status.not_open, s)
  unfolding wic_send_ping_with_payload
  wic_send_ping_over bytes = ground (arith, allowed_to_send_over)

  wic_start_over : (http : HttpParser) → wic_start app http s ≡ (Status.bad_state, s)
  unfolding wic_start start_in_role start_client start_server is_init is_ready_state
  wic_start_over http = ground (arith, over)

  wic_parse_over :
      (undef : Stream → Bool) (http : HttpParser) (bytes : List ℕ)
      → wic_parse app undef http bytes s ≡ some (length bytes, s)
  unfolding wic_parse is_parsing is_opened
  wic_parse_over undef http bytes = ground (arith, over)

-- Nothing changes an instance that is closed, and no handler is called: a second close does
-- nothing, a message or a ping is refused with `not_open`, `wic_start` with `bad_state`, and
-- `wic_parse` takes all input and drops it.
pub closed_is_final :
    {W : Type 0} (app : App W) (undef : Stream → Bool) (http : HttpParser) (s : Sys W)
    (e : Encoding) (fin : Bool) (bytes : List ℕ) (code : ℕ) (type : Buffer)
    → s.self.state ≡ State.closed
    → (close_with_reason app code bytes type s ≡ s)
      × (wic_send app e fin bytes s ≡ (Status.not_open, s))
      × (wic_send_ping_with_payload app bytes s ≡ (Status.not_open, s))
      × (wic_start app http s ≡ (Status.bad_state, s))
      × (wic_parse app undef http bytes s ≡ some (length bytes, s))
closed_is_final app undef http s e fin bytes code type over = (
  close_with_reason_over app s over code bytes type,
  wic_send_over app s over e fin bytes,
  wic_send_ping_over app s over bytes,
  wic_start_over app s over http,
  wic_parse_over app s over undef http bytes,
)
