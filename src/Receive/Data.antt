-- ===== src/Receive/Data.antt =====
-- `parse_data` of src/wic.c: the payload of a frame, and what follows its last byte.
use wic.Base.{
  ℕ, ◌-◌, List, [], Bool, true, false, ◌&&◌, ◌||◌, not, u16, sub_size, ltb, leb, ◌==◌,
  if◌then◌else◌, take, drop,
}
use wic.Types.{
  Buffer, Encoding, Opcode, RxState, Status, close_normal, close_protocol_error, close_invalid_data,
}
use wic.Stream.{
  Stream, stream_rewind, stream_get_u8, stream_put_u8, stream_put_u8_masked, stream_eof, stream_pos,
}
use wic.Utf8.{utf8_parse, utf8_is_complete, utf8_is_invalid}
use wic.Inst.{RxFrame, Sys, App, with_inst}
use wic.Inst.Handlers.{call_message, call_ping, call_pong}
use wic.Close.{close_with_reason}
use wic.Send.{is_opened, send_pong_with_payload}
use wic.Receive.{message_opcode, is_defined_code, received_code, set_rx, fail}

-- The message so far; its size is handed over as a `uint16_t`.
unfoldable pub received : RxFrame → List ℕ
received rx = take (u16 rx.s.pos) rx.s.mem

-- One byte of payload into the receive buffer: the frame, and the byte unmasked.
unfoldable pub store_byte : ℕ → RxFrame → RxFrame × ℕ
unfolding stream_put_u8_masked stream_put_u8
store_byte b rx =
    if rx.masked
    then (let (_, st, plain) = stream_put_u8_masked rx.s b rx.mask in
        (record rx { size = rx.size - 1; s = st }, plain))
    else (let (_, st) = stream_put_u8 rx.s b in (record rx { size = rx.size - 1; s = st }, b))

unfoldable pub would_block : Status → Bool
would_block Status.would_block = true
would_block _ = false

module _ {W : Type 0} (app : App W) where
  -- `on_message` with the message so far: whether it refused, and the new system.
  unfoldable pub offer : Encoding → Bool → Sys W → Bool × Sys W
  unfolding received
  offer encoding fin s =
      let (taken, s') = call_message app encoding fin (received s.self.rx) s in (not taken, s')

  -- `switch` of the full buffer: what is there goes to the application as a fragment.
  unfoldable pub offer_fragment : Opcode → Sys W → Bool × Sys W
  offer_fragment Opcode.text s = offer Encoding.utf8 false s
  offer_fragment Opcode.binary s = offer Encoding.binary false s
  offer_fragment _ s = (false, s)

  unfoldable pub flush : Sys W → Bool × Sys W
  unfolding stream_rewind
  flush s =
      let (blocked, s') = offer_fragment (message_opcode s.self.rx.opcode s.self.rx.frag) s in
      if blocked
      then (true, s')
      else (false, set_rx app s' (record (s'.self.rx) { s = stream_rewind s'.self.rx.s }))

  -- The text of a message, or of a close reason, is checked as it arrives.
  unfoldable pub check_text : ℕ → Buffer → Sys W → Sys W
  unfolding utf8_is_invalid
  check_text b type s =
      let state = utf8_parse s.self.rx.utf8 b in
      let s' = set_rx app s (record (s.self.rx) { utf8 = state }) in
      if utf8_is_invalid state then close_with_reason app close_invalid_data [] type s' else s'

  -- `switch` behind a byte that was stored.
  unfoldable pub check_byte : Opcode → ℕ → Sys W → Sys W
  unfolding stream_pos
  check_byte Opcode.text b s = check_text b Buffer.close s
  check_byte Opcode.close b s =
      if ltb 2 (stream_pos s.self.rx.s) then check_text b Buffer.close_response s else s
  check_byte _ b s = s

  -- What `parse_data` does with a byte.
  unfoldable pub accept_data : ℕ → Sys W → Sys W
  unfolding store_byte
  accept_data b s =
      let (rx, plain) = store_byte b s.self.rx in
      let s' = set_rx app s rx in check_byte (message_opcode rx.opcode rx.frag) plain s'

  -- The part of `parse_data` for a payload that is not complete.
  unfoldable pub receive_data : Sys W → Stream → Bool × Sys W × Stream
  unfolding stream_eof stream_get_u8
  receive_data s st =
      if stream_eof s.self.rx.s
      then (let (blocked, s') = flush s in (blocked, s', st))
      else (let (ok, b, st') = stream_get_u8 st in
          if ok then (false, accept_data b s, st') else (true, s, st'))

  -- The end of a text frame.
  unfoldable pub finish_text : Opcode → Sys W → Bool × Sys W
  finish_text opcode s =
      if not s.self.rx.fin
      then (let (blocked, s') = offer Encoding.utf8 s.self.rx.fin s in
          if blocked then (true, s') else (
            false,
            with_inst s' (record (s'.self) {
              rx = record (s'.self.rx) { frag = opcode };
              utf8_rx = s'.self.rx.utf8;
            }),
          ))
      else if utf8_is_complete s.self.rx.utf8
      then (let (blocked, s') = offer Encoding.utf8 s.self.rx.fin s in
          if blocked
          then (true, s')
          else (false, set_rx app s' (record (s'.self.rx) { frag = Opcode.cont })))
      else (false, fail app close_invalid_data s)

  -- The end of a binary frame.
  unfoldable pub finish_binary : Opcode → Sys W → Bool × Sys W
  finish_binary opcode s =
      let (blocked, s') = offer Encoding.binary s.self.rx.fin s in
      if blocked then (true, s') else (
        false,
        set_rx app s'
            (record (s'.self.rx) { frag = if s'.self.rx.fin then Opcode.cont else opcode }),
      )

  -- The end of a close frame: the close is answered.
  unfoldable pub finish_close : Sys W → Sys W
  unfolding received_code is_defined_code
  finish_close s =
      let code = received_code s.self.rx.s in
      let size = u16 (sub_size s.self.rx.s.pos 2) in
      let answer =
        λ (code : ℕ) (reason : List ℕ). close_with_reason app code reason Buffer.close_response s in
      if is_defined_code code
      then (if utf8_is_complete s.self.rx.utf8
          then answer code (take size (drop 2 s.self.rx.s.mem))
          else answer close_protocol_error [])
      else if leb 3000 code && leb code 3999
      then answer close_normal []
      else if leb 4000 code && leb code 4999
      then answer close_normal []
      else answer close_protocol_error []

  -- The end of a ping: it is answered with a pong.
  unfoldable pub finish_ping : Sys W → Bool × Sys W
  unfolding received would_block
  finish_ping s =
      let (status, s') = send_pong_with_payload app (received s.self.rx) s in
      if would_block status then (true, s') else (false, call_ping app s')

  -- `switch(opcode)` of a payload that is complete.
  unfoldable pub finish_frame : Opcode → Sys W → Bool × Sys W
  finish_frame Opcode.text s = finish_text Opcode.text s
  finish_frame Opcode.binary s = finish_binary Opcode.binary s
  finish_frame Opcode.close s = (false, finish_close s)
  finish_frame Opcode.ping s = finish_ping s
  finish_frame Opcode.pong s = (false, call_pong app s)
  finish_frame _ s = (false, s)

  -- The part of `parse_data` behind the last byte.
  unfoldable pub finish_data : Bool → Sys W → Bool × Sys W
  unfolding is_opened
  finish_data blocked s =
      if is_opened s.self.state && s.self.rx.size == 0
      then (let (refused, s') = finish_frame (message_opcode s.self.rx.opcode s.self.rx.frag) s in
          if blocked || refused
          then (true, s')
          else (false, set_rx app s' (record (s'.self.rx) { state = RxState.opcode })))
      else (blocked, s)

  unfoldable pub parse_data : Sys W → Stream → Bool × Sys W × Stream
  parse_data s st =
      let (blocked, s', st') = if ltb 0 s.self.rx.size then receive_data s st else (false, s, st) in
      let (blocked', s'') = finish_data blocked s' in (blocked', s'', st')
