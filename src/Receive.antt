-- ===== src/Receive.antt =====
-- Receiving frames: the `parse_*` functions of src/wic.c, a state machine over single bytes.
pub mod Carries
pub mod Data
pub mod Keeps
pub mod Unmask
use wic.Base.{
  ℕ, [], Bool, true, false, ◌||◌, not, u8, u16, u64, ltb, ◌==◌, if◌then◌else◌, ◌<<<◌, set, get_or,
  bit_and, bit_or,
}
use wic.Types.{
  Buffer, Opcode, RxState, close_normal, close_going_away, close_protocol_error, close_unsupported,
  close_invalid_data, close_policy, close_too_big, close_extension_required,
  close_unexpected_exception,
}
use wic.Stream.{Stream, stream_rewind, stream_get_u8, stream_max}
use wic.Inst.{RxFrame, Sys, App, with_inst, with_rx}
use wic.Frame.{byte_to_opcode}
use wic.Close.{close_with_reason}

-- `(b & flag) != 0U`
unfoldable pub has_flag : ℕ → ℕ → Bool
has_flag b flag = not (bit_and b flag == 0)

-- `(opcode == WIC_OPCODE_CONTINUE) ? frag : opcode`
unfoldable pub message_opcode : Opcode → Opcode → Opcode
message_opcode Opcode.cont frag = frag
message_opcode opcode frag = opcode

unfoldable pub is_cont : Opcode → Bool
is_cont Opcode.cont = true
is_cont _ = false

-- The state behind a length: `masked ? WIC_RX_STATE_MASK_0 : WIC_RX_STATE_DATA`.
unfoldable pub after_size : Bool → RxState
after_size masked = if masked then RxState.mask_0 else RxState.payload

unfoldable pub next_size_state : Bool → RxState → RxState
unfolding after_size
next_size_state masked RxState.size_2 = RxState.size_3
next_size_state masked RxState.size_3 = RxState.size_4
next_size_state masked RxState.size_4 = RxState.size_5
next_size_state masked RxState.size_5 = RxState.size_6
next_size_state masked RxState.size_6 = RxState.size_7
next_size_state masked RxState.size_7 = RxState.size_8
next_size_state masked RxState.size_8 = RxState.size_9
next_size_state masked RxState.size_1 = after_size masked
next_size_state masked RxState.size_9 = after_size masked
next_size_state masked _ = RxState.size_1

-- `state - WIC_RX_STATE_MASK_0`; the function is called in the four mask states only.
unfoldable pub mask_index : RxState → ℕ
mask_index RxState.mask_1 = 1
mask_index RxState.mask_2 = 2
mask_index RxState.mask_3 = 3
mask_index _ = 0

unfoldable pub next_mask_state : RxState → RxState
next_mask_state RxState.mask_1 = RxState.mask_2
next_mask_state RxState.mask_2 = RxState.mask_3
next_mask_state RxState.mask_3 = RxState.payload
next_mask_state _ = RxState.mask_1

-- The first byte of a frame, before it is checked.
unfoldable pub start_frame : ℕ → RxFrame → RxFrame
unfolding has_flag stream_rewind
start_frame b rx = record rx {
  s = stream_rewind rx.s;
  fin = has_flag b 0x80;
  rsv1 = has_flag b 0x40;
  rsv2 = has_flag b 0x20;
  rsv3 = has_flag b 0x10;
  utf8 = 0;
}

-- The codes of a close frame that are answered with themselves.
unfoldable pub is_defined_code : ℕ → Bool
is_defined_code code =
    code == close_normal
    || (code == close_going_away
        || (code == close_protocol_error
            || (code == close_unsupported
                || (code == close_invalid_data
                    || (code == close_policy
                        || (code == close_too_big
                            || (code == close_extension_required
                                || code == close_unexpected_exception)))))))

-- The two bytes at the start of the receive buffer.
unfoldable pub received_code : Stream → ℕ
received_code s = bit_or (u16 (u8 (get_or s.mem 0 0) <<< 8)) (u8 (get_or s.mem 1 0))

module _ {W : Type 0} (app : App W) where
  abbrev pub set_rx : Sys W → RxFrame → Sys W
  set_rx s rx = with_inst s (with_rx s.self rx)

  -- `close_with_reason(self, code, NULL, 0U, type)`
  abbrev pub fail : ℕ → Sys W → Sys W
  fail code s = close_with_reason app code [] Buffer.close s

  -- `switch(self->rx.opcode)` of `parse_opcode`.
  unfoldable pub filter_opcode : Opcode → Sys W → Sys W
  unfolding is_cont
  filter_opcode Opcode.close s = if s.self.rx.fin then s else fail close_protocol_error s
  filter_opcode Opcode.ping s = if s.self.rx.fin then s else fail close_protocol_error s
  filter_opcode Opcode.pong s = if s.self.rx.fin then s else fail close_protocol_error s
  filter_opcode Opcode.cont s =
      if is_cont s.self.rx.frag
      then fail close_protocol_error s
      else set_rx s (record (s.self.rx) { utf8 = s.self.utf8_rx })
  filter_opcode Opcode.text s = if is_cont s.self.rx.frag then s else fail close_protocol_error s
  filter_opcode Opcode.binary s = if is_cont s.self.rx.frag then s else fail close_protocol_error s
  filter_opcode _ s = fail close_protocol_error s

  -- What `parse_opcode` does with a byte.
  unfoldable pub accept_opcode : ℕ → Sys W → Sys W
  unfolding start_frame
  accept_opcode b s =
      let rx = start_frame b s.self.rx in
      if rx.rsv1 || (rx.rsv2 || rx.rsv3)
      then fail close_protocol_error (set_rx s rx)
      else (let opcode = byte_to_opcode b in
          let s' = filter_opcode opcode (set_rx s (record rx { opcode = opcode })) in
          set_rx s' (record (s'.self.rx) { state = RxState.size }))

  unfoldable pub parse_opcode : Sys W → Stream → Bool × Sys W × Stream
  unfolding stream_get_u8
  parse_opcode s st =
      let (ok, b, st') = stream_get_u8 st in
      if ok then (false, accept_opcode b s, st') else (true, s, st')

  -- `switch(self->rx.opcode)` of `parse_size`, for a length `size` of 7 bits.
  unfoldable pub check_size : Opcode → ℕ → Sys W → Sys W
  unfolding stream_max
  check_size Opcode.close size s =
      if ltb 125 size || size == 1
      then fail close_protocol_error s
      else if size == 0
      then fail close_normal s
      else if ltb (stream_max s.self.rx.s) size
      then fail close_too_big s
      else s
  check_size Opcode.ping size s =
      if ltb 125 size
      then fail close_protocol_error s
      else if ltb (stream_max s.self.rx.s) size
      then fail close_too_big s
      else s
  check_size Opcode.pong size s =
      if ltb 125 size
      then fail close_protocol_error s
      else if ltb (stream_max s.self.rx.s) size
      then fail close_too_big s
      else s
  check_size _ size s = s

  -- `switch(self->rx.size)` of `parse_size`.
  unfoldable pub size_switch : RxFrame → RxFrame
  unfolding after_size
  size_switch rx =
      if rx.size == 127
      then record rx { state = RxState.size_2; size = 0 }
      else if rx.size == 126
      then record rx { state = RxState.size_0; size = 0 }
      else record rx { state = after_size rx.masked }

  -- What `parse_size` does with a byte.
  unfoldable pub accept_size : ℕ → Sys W → Sys W
  unfolding has_flag size_switch
  accept_size b s =
      let rx = record (s.self.rx) { masked = has_flag b 0x80; size = bit_and b 0x7f } in
      let s' = check_size rx.opcode rx.size (set_rx s rx) in set_rx s' (size_switch s'.self.rx)

  unfoldable pub parse_size : Sys W → Stream → Bool × Sys W × Stream
  unfolding stream_get_u8
  parse_size s st =
      let (ok, b, st') = stream_get_u8 st in
      if ok then (false, accept_size b s, st') else (true, s, st')

  -- What `parse_extended_size` does with a byte.
  unfoldable pub extend_size : ℕ → RxFrame → RxFrame
  unfolding next_size_state
  extend_size b rx = record rx {
    size = bit_or (u64 (rx.size <<< 8)) b;
    state = next_size_state rx.masked rx.state;
  }

  unfoldable pub parse_extended_size : Sys W → Stream → Bool × Sys W × Stream
  unfolding stream_get_u8
  parse_extended_size s st =
      let (ok, b, st') = stream_get_u8 st in
      if ok then (false, set_rx s (extend_size b s.self.rx), st') else (true, s, st')

  -- What `parse_mask` does with a byte.
  unfoldable pub accept_mask : ℕ → RxFrame → RxFrame
  unfolding next_mask_state mask_index
  accept_mask b rx = record rx {
    mask = set rx.mask (mask_index rx.state) b;
    state = next_mask_state rx.state;
  }

  -- Where a byte is there, the source returns a variable that it has not set: `undef` is its value.
  unfoldable pub parse_mask : (Stream → Bool) → Sys W → Stream → Bool × Sys W × Stream
  unfolding stream_get_u8
  parse_mask undef s st =
      let (ok, b, st') = stream_get_u8 st in
      if ok then (undef st', set_rx s (accept_mask b s.self.rx), st') else (true, s, st')
