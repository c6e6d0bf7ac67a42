-- ===== src/Close.antt =====
-- Closing: `close_with_reason` of src/wic.c and the two functions of the interface over it.
pub mod Laws
pub mod Wire
use wic.Base.{ℕ, List, [], Bool, true, false, ◌||◌, Option, none, some, ◌==◌, if◌then◌else◌}
use wic.Types.{
  Buffer, HandshakeFailure, Opcode, State, Status, close_normal, close_abnormal_1, close_abnormal_2,
  close_tls,
}
use wic.Stream.{Stream, written}
use wic.Utf8.{utf8_parse_string, utf8_is_complete}
use wic.Inst.{Sys, App, with_inst, with_state}
use wic.Inst.Handlers.{call_close, call_close_transport, call_handshake_failure, call_send}
use wic.Frame.{TxFrame, init_mask, stream_put_frame}

-- The frame that `close_with_reason` builds.
unfoldable pub close_frame : ℕ → List ℕ → Buffer → TxFrame
close_frame code reason type = record {
  fin = true;
  rsv1 = false;
  rsv2 = false;
  rsv3 = false;
  opcode = Opcode.close;
  type = type;
  code = code;
  masked = false;
  mask = [];
  payload = reason;
}

-- `switch(code)` of the state WIC_STATE_PARSE_HANDSHAKE.
unfoldable pub failure_of_code : ℕ → HandshakeFailure
failure_of_code code =
    if code == close_abnormal_1
    then HandshakeFailure.abnormal_1
    else if code == close_abnormal_2
    then HandshakeFailure.abnormal_2
    else if code == close_tls
    then HandshakeFailure.tls
    else HandshakeFailure.irrelevant

-- The codes that are not written.
unfoldable pub is_local_code : ℕ → Bool
is_local_code code = code == close_abnormal_1 || (code == close_abnormal_2 || code == close_tls)

unfoldable pub is_success : Status → Bool
is_success Status.success = true
is_success _ = false

module _ {W : Type 0} (app : App W) where
  -- `stream_put_frame(self, &tx, init_mask(self, &f))`
  unfoldable pub put_masked_frame : TxFrame → Sys W → Status × Option Stream × Sys W
  put_masked_frame f s = let (f', s') = init_mask app f s in stream_put_frame app f' s'

  -- `on_send(self, tx.read, tx.pos, type)`
  unfoldable pub send_stream : Option Stream → Buffer → Sys W → Sys W
  unfolding written
  send_stream none type s = s
  send_stream (some tx) type s = call_send app (written tx) type s

  -- The close frame, sent if there is room for it.
  unfoldable pub write_close : ℕ → List ℕ → Buffer → Sys W → Sys W
  unfolding close_frame is_success is_local_code
  write_close code reason type s =
      if is_local_code code
      then s
      else (let (status, tx, s') = put_masked_frame (close_frame code reason type) s in
          if is_success status then send_stream tx type s' else s')

  -- By the state. A reason that is not UTF-8 is not sent, but still handed to `on_close`.
  unfoldable pub close_in_state : State → ℕ → List ℕ → Buffer → Sys W → Sys W
  unfolding failure_of_code
  close_in_state State.init code reason type s = with_inst s (with_state s.self State.closed)
  close_in_state State.closed code reason type s = s
  close_in_state State.parse_handshake code reason type s =
      let s1 = with_inst s (with_state s.self State.closed) in
      call_handshake_failure app (failure_of_code code) (call_close_transport app s1)
  close_in_state _ code reason type s =
      let s1 = with_inst s (with_state s.self State.closed) in
      let sent = if utf8_is_complete (utf8_parse_string 0 reason) then reason else [] in
      call_close app code reason (call_close_transport app (write_close code sent type s1))

  unfoldable pub close_with_reason : ℕ → List ℕ → Buffer → Sys W → Sys W
  close_with_reason code reason type s = close_in_state s.self.state code reason type s

  unfoldable pub wic_close_with_reason : ℕ → List ℕ → Sys W → Sys W
  wic_close_with_reason code reason s = close_with_reason code reason Buffer.close s

  unfoldable pub wic_close : Sys W → Sys W
  wic_close s = wic_close_with_reason close_normal [] s
