-- ===== src/Close/Wire.antt =====
-- What closing an open client does, call by call.
use wic.Base.{ℕ, ◌≤◌, ◌<◌, ◌≡◌, ◌⊎◌, ap, ◌∙◌, true, false, List, ◌∷◌, arith, length}
use wic.Types.{Buffer, Opcode, Role, State}
use wic.Utf8.Text.{IsText}
use wic.Utf8.Scalars.{utf8_parse_string-IsText}
use wic.Inst.{Call, Sys, App, closed, close_transport, with_inst, with_state, note}
use wic.Inst.Handlers.{call_rand, call_buffer, call_send, call_close, call_close_transport}
use wic.Frame.{is_close, min_frame_size}
use wic.Frame.Layout.{AllBytes, IsSendable, encode}
use wic.Send.Wire.{
  Supplies, masked_frame, masked_frame-IsSendable, put_masked_frame_lem, call_buffer-log,
  call_send-log, call_rand-keeps, sent_log,
}
use wic.Close.{
  close_frame, close_with_reason, close_in_state, write_close, send_stream, is_local_code,
  is_success,
}

-- Handlers that watch the closing and change nothing that the library keeps.
pub record Watches {W : Type 0} (app : App W) : Type 0 where
  pub sent : (b : List ℕ) (t : Buffer) (s : Sys W) → (app.on_send b t s).self ≡ s.self
  pub transport :
      (s : Sys W)
      → ((app.on_close_transport s).self ≡ s.self) × ((app.on_close_transport s).log ≡ s.log)
  pub closing :
      (c : ℕ) (b : List ℕ) (s : Sys W)
      → ((app.on_close c b s).self ≡ s.self) × ((app.on_close c b s).log ≡ s.log)

module _ {W : Type 0} (app : App W) (cap : ℕ) (supplies : Supplies app cap)
    (watches : Watches app) where
  abbrev drawn : Sys W → ℕ × Sys W
  drawn s = call_rand app 0xaaaaaaaa s

  write_close_lem :
      (code : ℕ) (reason : List ℕ) (t : Buffer) (s : Sys W)
      → s.self.role ≡ Role.client
      → is_local_code code ≡ false
      → IsSendable (masked_frame (close_frame code reason t) (drawn s).0)
      → min_frame_size Opcode.close true (length reason) ≤ cap
      → ((write_close app code reason t s).self ≡ s.self)
        × ((write_close app code reason t s).log
            ≡ sent_log app cap supplies
                (masked_frame (close_frame code reason t) (drawn s).0)
                (drawn s).1.log)
  unfolding write_close send_stream is_success close_frame call_send call_buffer
  write_close_lem code reason t s c remote ok fits =
      let f = close_frame code reason t in
      let put = put_masked_frame_lem app cap supplies f s c ok fits in
      let n = min_frame_size Opcode.close true (length reason) in
      let s2 = (call_buffer app n t (drawn s).1).2 in
      let bytes = encode (masked_frame f (drawn s).0) in
      rw (remote, put.0, put.1)
        (
          watches.sent bytes t _
              ∙ (supplies.buffer_keeps n t _).0
              ∙ (call_rand-keeps app cap supplies 0xaaaaaaaa s).0,
          call_send-log app cap supplies bytes t s2
              ∙ ap (◌∷◌ (Call.send bytes t)) (call_buffer-log app cap supplies n t (drawn s).1),
        )

-- Under the same conditions nothing of the instance but its state changes.
pub close_with_reason-self :
    {W : Type 0} (app : App W) (cap code : ℕ) (reason : List ℕ) (t : Buffer) (s : Sys W)
    → Supplies app cap
    → Watches app
    → s.self.state ≡ State.opened
    → s.self.role ≡ Role.client
    → s.self.on_close ≡ true
    → s.self.on_close_transport ≡ true
    → is_local_code code ≡ false
    → code < 65536
    → AllBytes reason
    → IsText reason
    → length reason ≤ 123
    → min_frame_size Opcode.close true (length reason) ≤ cap
    → (close_with_reason app code reason t s).self ≡ with_state s.self State.closed
unfolding close_with_reason close_in_state call_close call_close_transport close_frame is_close
close_with_reason-self {W} app cap code reason t s supplies watches o c oc ot remote hc hb text
      short fits =
    let s1 = with_inst s (with_state s.self State.closed) in
    let f = close_frame code reason t in
    let r = (call_rand app 0xaaaaaaaa s1).0 in
    let ok = masked_frame-IsSendable f r hb hc (omega arith) in
    let put = write_close_lem app cap supplies watches code reason t s1 c remote ok fits in
    let whole = (utf8_parse_string-IsText reason hb).1 text in
    let s2 = write_close app code reason t s1 in
    let s3 = app.on_close_transport (note close_transport s2) in
    ground (
      arith,
      o,
      whole,
      put.0,
      watches.transport (note close_transport s2),
      watches.closing code reason (note (closed code reason) s3),
    )

-- Closing an open client with a code that goes over the wire and a reason that is UTF-8 and no
-- longer than a control frame holds, where the application hands out a buffer for the frame,
-- leaves the library alone and has set `on_close` and `on_close_transport`: one close frame with
-- the code and the reason is sent, then the transport is closed, then the application is told,
-- and the instance is closed.
pub close_with_reason_lem :
    {W : Type 0} (app : App W) (cap code : ℕ) (reason : List ℕ) (t : Buffer) (s : Sys W)
    → Supplies app cap
    → Watches app
    → s.self.state ≡ State.opened
    → s.self.role ≡ Role.client
    → s.self.on_close ≡ true
    → s.self.on_close_transport ≡ true
    → is_local_code code ≡ false
    → code < 65536
    → AllBytes reason
    → IsText reason
    → length reason ≤ 123
    → min_frame_size Opcode.close true (length reason) ≤ cap
    → let s' = close_with_reason app code reason t s in
      let (r, s1) = call_rand app 0xaaaaaaaa (with_inst s (with_state s.self State.closed)) in
      (s'.self.state ≡ State.closed)
      × (s'.log
          ≡ closed code reason
            ∷ close_transport
            ∷ Call.send (encode (masked_frame (close_frame code reason t) r)) t
            ∷ Call.get_buffer (min_frame_size Opcode.close true (length reason)) t
            ∷ s1.log)
      × ((s1.log ≡ s.log) ⊎ (s1.log ≡ Call.random ∷ s.log))
unfolding close_with_reason close_in_state call_close call_close_transport close_frame is_close
close_with_reason_lem {W} app cap code reason t s supplies watches o c oc ot remote hc hb text short
      fits =
    let s1 = with_inst s (with_state s.self State.closed) in
    let f = close_frame code reason t in
    let r = (call_rand app 0xaaaaaaaa s1).0 in
    let ok = masked_frame-IsSendable f r hb hc (omega arith) in
    let put = write_close_lem app cap supplies watches code reason t s1 c remote ok fits in
    let whole = (utf8_parse_string-IsText reason hb).1 text in
    let s2 = write_close app code reason t s1 in
    let s3 = app.on_close_transport (note close_transport s2) in
    ground (
      arith,
      o,
      whole,
      put,
      watches.transport (note close_transport s2),
      watches.closing code reason (note (closed code reason) s3),
      (call_rand-keeps app cap supplies 0xaaaaaaaa s1).1,
    )
