-- ===== src/Receive/Carries.antt =====
-- What the application keeps, while a frame is received: the state machine over the received bytes
-- carries on a property of it.
use wic.Base.{ℕ, List, [], Bool, false, arith, u16, sub_size, take, drop, bit_and}
use wic.Types.{
  Buffer, Encoding, Opcode, close_protocol_error, close_normal, close_too_big, close_invalid_data,
}
use wic.Stream.{Stream, stream_get_u8}
use wic.Utf8.{utf8_parse}
use wic.Inst.{Sys, App}
use wic.Inst.Carries.{
  Carries, call_message-Has, call_ping-Has, call_pong-Has, close_with_reason-Has,
  send_pong_with_payload-Has,
}
use wic.Send.{send_pong_with_payload}
use wic.Receive.{
  filter_opcode, accept_opcode, parse_opcode, check_size, accept_size, parse_size, fail,
  parse_extended_size, parse_mask, message_opcode, set_rx, start_frame, byte_to_opcode, has_flag,
  received_code,
}
use wic.Receive.Data.{
  offer, offer_fragment, flush, check_text, check_byte, accept_data, receive_data, finish_text,
  finish_binary, finish_close, finish_ping, finish_frame, finish_data, parse_data, store_byte,
  received,
}

module _ {W : Type 0} (app : App W) (p : W → Type 0) (carries : Carries app p) where
  abbrev Has : Sys W → Type 0
  Has s = p s.world

  fail-Has : (code : ℕ) (s : Sys W) → Has s → Has (fail app code s)
  fail-Has code s h = close_with_reason-Has app p carries code [] Buffer.close s h

  filter_opcode-Has : (o : Opcode) (s : Sys W) → Has s → Has (filter_opcode app o s)
  unfolding filter_opcode
  filter_opcode-Has Opcode.cont s h = ground (arith, fail-Has close_protocol_error s h)
  filter_opcode-Has _ s h = ground (arith, fail-Has close_protocol_error s h)

  accept_opcode-Has : (b : ℕ) (s : Sys W) → Has s → Has (accept_opcode app b s)
  unfolding accept_opcode
  accept_opcode-Has b s h =
      let rx = start_frame b s.self.rx in
      let o = byte_to_opcode b in
      ground (
        arith,
        fail-Has close_protocol_error (set_rx app s rx) h,
        filter_opcode-Has o (set_rx app s (record rx { opcode = o })) h,
      )

  pub parse_opcode-Has : (s : Sys W) (st : Stream) → Has s → Has (parse_opcode app s st).1
  unfolding parse_opcode
  parse_opcode-Has s st h = ground (arith, accept_opcode-Has (stream_get_u8 st).1 s h)

  check_size-Has : (o : Opcode) (n : ℕ) (s : Sys W) → Has s → Has (check_size app o n s)
  unfolding check_size
  check_size-Has Opcode.close n s h = ground (
    arith,
    fail-Has close_protocol_error s h,
    fail-Has close_normal s h,
    fail-Has close_too_big s h,
  )
  check_size-Has Opcode.ping n s h =
      ground (arith, fail-Has close_protocol_error s h, fail-Has close_too_big s h)
  check_size-Has Opcode.pong n s h =
      ground (arith, fail-Has close_protocol_error s h, fail-Has close_too_big s h)
  check_size-Has _ n s h = h

  pub parse_size-Has : (s : Sys W) (st : Stream) → Has s → Has (parse_size app s st).1
  unfolding parse_size accept_size
  parse_size-Has s st h =
      let b = (stream_get_u8 st).1 in
      let rx = record (s.self.rx) { masked = has_flag b 0x80; size = bit_and b 0x7f } in
      ground (arith, check_size-Has rx.opcode rx.size (set_rx app s rx) h)

  pub parse_extended_size-Has :
      (s : Sys W) (st : Stream) → Has s → Has (parse_extended_size app s st).1
  unfolding parse_extended_size
  parse_extended_size-Has s st h = ground arith

  pub parse_mask-Has :
      (undef : Stream → Bool) (s : Sys W) (st : Stream) → Has s → Has (parse_mask app undef s st).1
  unfolding parse_mask
  parse_mask-Has undef s st h = ground arith

  check_text-Has : (b : ℕ) (t : Buffer) (s : Sys W) → Has s → Has (check_text app b t s)
  unfolding check_text
  check_text-Has b t s h =
      let s' = set_rx app s (record (s.self.rx) { utf8 = utf8_parse s.self.rx.utf8 b }) in
      ground (arith, close_with_reason-Has app p carries close_invalid_data [] t s' h)

  check_byte-Has : (o : Opcode) (b : ℕ) (s : Sys W) → Has s → Has (check_byte app o b s)
  unfolding check_byte
  check_byte-Has Opcode.text b s h = check_text-Has b Buffer.close s h
  check_byte-Has Opcode.close b s h = ground (arith, check_text-Has b Buffer.close_response s h)
  check_byte-Has _ b s h = h

  accept_data-Has : (b : ℕ) (s : Sys W) → Has s → Has (accept_data app b s)
  unfolding accept_data
  accept_data-Has b s h =
      let r = store_byte b s.self.rx in
      check_byte-Has (message_opcode r.0.opcode r.0.frag) r.1 (set_rx app s r.0) h

  offer-Has : (e : Encoding) (fin : Bool) (s : Sys W) → Has s → Has (offer app e fin s).1
  unfolding offer
  offer-Has e fin s h = call_message-Has app p carries e fin (received s.self.rx) s h

  offer_fragment-Has : (o : Opcode) (s : Sys W) → Has s → Has (offer_fragment app o s).1
  unfolding offer_fragment
  offer_fragment-Has Opcode.text s h = offer-Has Encoding.utf8 false s h
  offer_fragment-Has Opcode.binary s h = offer-Has Encoding.binary false s h
  offer_fragment-Has _ s h = h

  flush-Has : (s : Sys W) → Has s → Has (flush app s).1
  unfolding flush
  flush-Has s h =
      ground (arith, offer_fragment-Has (message_opcode s.self.rx.opcode s.self.rx.frag) s h)

  receive_data-Has : (s : Sys W) (st : Stream) → Has s → Has (receive_data app s st).1
  unfolding receive_data
  receive_data-Has s st h = ground (arith, flush-Has s h, accept_data-Has (stream_get_u8 st).1 s h)

  finish_text-Has : (o : Opcode) (s : Sys W) → Has s → Has (finish_text app o s).1
  unfolding finish_text
  finish_text-Has o s h =
      ground (arith, offer-Has Encoding.utf8 s.self.rx.fin s h, fail-Has close_invalid_data s h)

  finish_binary-Has : (o : Opcode) (s : Sys W) → Has s → Has (finish_binary app o s).1
  unfolding finish_binary
  finish_binary-Has o s h = ground (arith, offer-Has Encoding.binary s.self.rx.fin s h)

  finish_ping-Has : (s : Sys W) → Has s → Has (finish_ping app s).1
  unfolding finish_ping
  finish_ping-Has s h =
      let h' = send_pong_with_payload-Has app p carries (received s.self.rx) s h in
      let s' = (send_pong_with_payload app (received s.self.rx) s).1 in
      ground (arith, h', call_ping-Has app p carries s' h')

  finish_close-Has : (s : Sys W) → Has s → Has (finish_close app s)
  unfolding finish_close
  finish_close-Has s h =
      let size = u16 (sub_size s.self.rx.s.pos 2) in
      let answer = λ (code : ℕ) (reason : List ℕ).
        close_with_reason-Has app p carries code reason Buffer.close_response s h in
      ground (
        arith,
        answer (received_code s.self.rx.s) (take size (drop 2 s.self.rx.s.mem)),
        answer close_protocol_error [],
        answer close_normal [],
      )

  finish_frame-Has : (o : Opcode) (s : Sys W) → Has s → Has (finish_frame app o s).1
  unfolding finish_frame
  finish_frame-Has Opcode.text s h = finish_text-Has Opcode.text s h
  finish_frame-Has Opcode.binary s h = finish_binary-Has Opcode.binary s h
  finish_frame-Has Opcode.close s h = finish_close-Has s h
  finish_frame-Has Opcode.ping s h = finish_ping-Has s h
  finish_frame-Has Opcode.pong s h = call_pong-Has app p carries s h
  finish_frame-Has _ s h = h

  finish_data-Has : (b : Bool) (s : Sys W) → Has s → Has (finish_data app b s).1
  unfolding finish_data
  finish_data-Has b s h =
      ground (arith, finish_frame-Has (message_opcode s.self.rx.opcode s.self.rx.frag) s h)

  pub parse_data-Has : (s : Sys W) (st : Stream) → Has s → Has (parse_data app s st).1
  unfolding parse_data
  parse_data-Has s st h =
      let r = receive_data app s st in
      ground (arith, finish_data-Has false s h, finish_data-Has r.0 r.1 (receive_data-Has s st h))
