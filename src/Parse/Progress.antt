-- ===== src/Parse/Progress.antt =====
-- Each round of `wic_parse`'s loop uses up input, gives a full receive buffer to the application, or
-- is the last.
use wic.Base.{
  ℕ, ◌+◌, ◌-◌, ◌*◌, ◌≤◌, ◌<◌, ◌≡◌, ◌⊎◌, refl, Bool, true, false, ◌&&◌, ◌||◌, List, arith,
  if◌then◌else◌, ◌==◌,
}
use wic.Types.{Buffer, Encoding, Opcode, RxState}
use wic.Stream.{
  Stream, stream_get_u8, stream_read, stream_put_u8, stream_put_u8_masked, stream_write,
}
use wic.Inst.{Sys, App, RxFrame}
use wic.Receive.{start_frame, filter_opcode, accept_opcode, check_size, size_switch, accept_size}
use wic.Receive.Keeps.{
  KeepsRx, close_with_reason-rx, call_message-rx, call_ping-rx, call_pong-rx,
  send_pong_with_payload-rx,
}
use wic.Receive.Data.{
  store_byte, offer, offer_fragment, check_text, check_byte, accept_data, finish_text,
  finish_binary, finish_close, finish_ping, finish_frame,
}

-- The capacity of the receive buffer, which no byte changes.
abbrev pub room : {W : Type 0} → Sys W → ℕ
room s = s.self.rx.s.size

pub stream_write-size : (st : Stream) (b : List ℕ) → (stream_write st b).1.size ≡ st.size
unfolding stream_write
stream_write-size st b = ground arith

store_byte-size : (b : ℕ) (rx : RxFrame) → (store_byte b rx).0.s.size ≡ rx.s.size
unfolding store_byte stream_put_u8_masked stream_put_u8
store_byte-size b rx = grind (arith, stream_write-size)

module _ {W : Type 0} (app : App W) (keeps : KeepsRx app) where
  filter_opcode-room : (o : Opcode) (s : Sys W) → room (filter_opcode app o s) ≡ room s
  unfolding filter_opcode
  filter_opcode-room Opcode.cont s = grind (arith, close_with_reason-rx app keeps)
  filter_opcode-room _ s = grind (arith, close_with_reason-rx app keeps)

  pub accept_opcode-room : (b : ℕ) (s : Sys W) → room (accept_opcode app b s) ≡ room s
  unfolding accept_opcode start_frame
  accept_opcode-room b s = grind (arith, close_with_reason-rx app keeps, filter_opcode-room)

  check_size-rx : (o : Opcode) (n : ℕ) (s : Sys W) → (check_size app o n s).self.rx ≡ s.self.rx
  unfolding check_size
  check_size-rx Opcode.close n s = grind (arith, close_with_reason-rx app keeps)
  check_size-rx _ n s = grind (arith, close_with_reason-rx app keeps)

  pub accept_size-room : (b : ℕ) (s : Sys W) → room (accept_size app b s) ≡ room s
  unfolding accept_size size_switch
  accept_size-room b s = grind (arith, check_size-rx)

  check_text-room : (b : ℕ) (t : Buffer) (s : Sys W) → room (check_text app b t s) ≡ room s
  unfolding check_text
  check_text-room b t s = grind (arith, close_with_reason-rx app keeps)

  check_byte-room : (o : Opcode) (b : ℕ) (s : Sys W) → room (check_byte app o b s) ≡ room s
  unfolding check_byte
  check_byte-room Opcode.text b s = check_text-room b Buffer.close s
  check_byte-room _ b s = grind (arith, check_text-room)

  pub accept_data-room : (b : ℕ) (s : Sys W) → room (accept_data app b s) ≡ room s
  unfolding accept_data
  accept_data-room b s = grind (arith, check_byte-room, store_byte-size)

  offer-rx : (e : Encoding) (fin : Bool) (s : Sys W) → (offer app e fin s).1.self.rx ≡ s.self.rx
  unfolding offer
  offer-rx e fin s = grind (arith, call_message-rx app keeps)

  pub offer_fragment-rx : (o : Opcode) (s : Sys W) → (offer_fragment app o s).1.self.rx ≡ s.self.rx
  unfolding offer_fragment
  offer_fragment-rx Opcode.text s = offer-rx Encoding.utf8 false s
  offer_fragment-rx Opcode.binary s = offer-rx Encoding.binary false s
  offer_fragment-rx _ s = refl

  finish_text-room : (o : Opcode) (s : Sys W) → room (finish_text app o s).1 ≡ room s
  unfolding finish_text
  finish_text-room o s = grind (arith, offer-rx, close_with_reason-rx app keeps)

  finish_binary-room : (o : Opcode) (s : Sys W) → room (finish_binary app o s).1 ≡ room s
  unfolding finish_binary
  finish_binary-room o s = grind (arith, offer-rx)

  finish_ping-room : (s : Sys W) → room (finish_ping app s).1 ≡ room s
  unfolding finish_ping
  finish_ping-room s = grind (arith, send_pong_with_payload-rx app keeps, call_ping-rx app keeps)

  finish_close-room : (s : Sys W) → room (finish_close app s) ≡ room s
  unfolding finish_close
  finish_close-room s = grind (arith, close_with_reason-rx app keeps)

  pub finish_frame-room : (o : Opcode) (s : Sys W) → room (finish_frame app o s).1 ≡ room s
  unfolding finish_frame
  finish_frame-room Opcode.text s = finish_text-room Opcode.text s
  finish_frame-room Opcode.binary s = finish_binary-room Opcode.binary s
  finish_frame-room Opcode.close s = finish_close-room s
  finish_frame-room Opcode.ping s = finish_ping-room s
  finish_frame-room Opcode.pong s = grind (arith, call_pong-rx app keeps)
  finish_frame-room _ s = refl

-- The input stream: the cursor does not pass the end.
abbrev pub InStream : Stream → Type 0
InStream st = (st.pos ≤ st.size) × (st.size < 4294967296)

abbrev pub left : Stream → ℕ
left st = st.size - st.pos

pub stream_get_u8-left :
    (st : Stream)
    → InStream st
    → let (ok, b, st') = stream_get_u8 st in
      InStream st' × ((ok ≡ false) × (left st' ≡ left st) ⊎ (ok ≡ true) × (left st' + 1 ≡ left st))
unfolding stream_get_u8 stream_read
stream_get_u8-left st h = ground arith

-- `RxState.payload`
unfoldable pub is_payload : RxState → Bool
is_payload RxState.payload = true
is_payload _ = false

-- A round that takes no byte: the end of a payload, or a full buffer.
abbrev pub waiting : RxFrame → ℕ
waiting rx = if is_payload rx.state && (rx.size == 0 || rx.s.pos == rx.s.size) then 1 else 0

abbrev pub measure : {W : Type 0} → Sys W → Stream → ℕ
measure s st = 2 * left st + waiting s.self.rx
