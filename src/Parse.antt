-- ===== src/Parse.antt =====
-- `wic_parse` of src/wic.c: the handshake first, then frames until the input is used up.
pub mod Load
pub mod Payload
pub mod Messages
pub mod Plain
pub mod Unmasked
pub mod Pong
pub mod Refuse
pub mod Single
pub mod Carries
pub mod Progress
pub mod Answer
pub mod Bounds
pub mod Closed
pub mod Consumes
pub mod Input
pub mod Deliver
pub mod Header
pub mod Masked
pub mod Whole
pub mod Exchange
pub mod Loop
pub mod Opens
pub mod Ends
use wic.Base.{
  ℕ, zero, suc, ◌+◌, ◌*◌, List, ◌++◌, Bool, true, false, Option, none, some, not, ◌||◌,
  if◌then◌else◌, length,
}
use wic.Types.{Role, State, RxState, HandshakeFailure}
use wic.Stream.{Stream, stream_init_ro, stream_seek, stream_pos}
use wic.Inst.{Inst, Sys, App, HttpErrno, with_inst, with_state}
use wic.Inst.Handlers.{call_open, call_close_transport, call_handshake_failure}
use wic.Http.{HttpRun, HttpParser, finish, field, value, complete}
use wic.Headers.{on_header_field, on_header_value}
use wic.Handshake.{on_response_complete, on_request_complete, is_ready_state}
use wic.Send.{is_opened}
use wic.Receive.{parse_opcode, parse_size, parse_extended_size, parse_mask}
use wic.Receive.Data.{parse_data}

-- `settings.on_message_complete`
unfoldable pub on_complete : Role → ℕ → ℕ → Inst → Bool × Inst
on_complete Role.client = on_response_complete
on_complete Role.server = on_request_complete

-- The callbacks of one run: the bytes consumed, the error, and the instance.
unfoldable pub run_http : HttpRun → Inst → ℕ × HttpErrno × Inst
unfolding on_header_field on_header_value on_complete
run_http (finish n errno) self = (n, errno, self)
run_http (field bytes n rest) self =
    let (failed, self') = on_header_field bytes self in
    let next = run_http rest self' in if failed then (n, HttpErrno.cb_header_field, self') else next
run_http (value bytes n rest) self =
    let (failed, self') = on_header_value bytes self in
    let next = run_http rest self' in if failed then (n, HttpErrno.cb_header_value, self') else next
run_http (complete status upgrade n rest) self =
    let (failed, self') = on_complete self.role status upgrade self in
    let next = run_http rest self' in
    if failed then (n, HttpErrno.cb_message_complete, self') else next

-- `http_parser_execute(&self->http, &settings, data, size)`
unfoldable pub http_execute : HttpParser → List ℕ → Inst → ℕ × Inst
unfolding run_http
http_execute http bytes self =
    let (n, errno, self') = run_http (http.execute self.http.type self.http.fed bytes) self in
    (n, record self' { http = record (self'.http) { fed = self.http.fed ++ bytes; errno = errno } })

unfoldable pub is_ok : HttpErrno → Bool
is_ok HttpErrno.ok = true
is_ok _ = false

unfoldable pub failure_of_errno : HttpErrno → HandshakeFailure
failure_of_errno HttpErrno.cb_message_complete = HandshakeFailure.upgrade
failure_of_errno _ = HandshakeFailure.protocol

unfoldable pub is_parsing : State → Bool
is_parsing State.parse_handshake = true
is_parsing _ = false

-- Two rounds for each byte, for one that is stored and one that finds the receive buffer full,
-- and some more.
abbrev pub parse_fuel : ℕ → ℕ
parse_fuel size = 2 * size + 4

module _ {W : Type 0} (app : App W) where
  -- The part for the state WIC_STATE_PARSE_HANDSHAKE.
  unfoldable pub parse_handshake : HttpParser → List ℕ → Sys W → Stream → Sys W × Stream
  unfolding is_ok failure_of_errno stream_seek
  parse_handshake http bytes s st =
      let (n, self) = http_execute http bytes s.self in
      let s1 = with_inst s self in
      let (_, st') = stream_seek st n in
      if not (is_ok self.http.errno)
      then (let s2 =
            call_handshake_failure app (failure_of_errno self.http.errno)
              (call_close_transport app s1) in
          (with_inst s2 (with_state s2.self State.closed), st'))
      else if is_ready_state s1.self.state
      then (let s2 = call_open app s1 in (with_inst s2 (with_state s2.self State.opened), st'))
      else (s1, st')

  -- The first `switch(self->rx.state)` of the loop.
  unfoldable pub parse_in_state : (Stream → Bool) → RxState → Sys W → Stream → Bool × Sys W × Stream
  parse_in_state undef RxState.opcode s st = parse_opcode app s st
  parse_in_state undef RxState.size s st = parse_size app s st
  parse_in_state undef RxState.mask_0 s st = parse_mask app undef s st
  parse_in_state undef RxState.mask_1 s st = parse_mask app undef s st
  parse_in_state undef RxState.mask_2 s st = parse_mask app undef s st
  parse_in_state undef RxState.mask_3 s st = parse_mask app undef s st
  parse_in_state undef RxState.payload s st = (false, s, st)
  parse_in_state undef _ s st = parse_extended_size app s st

  -- The second `switch(self->rx.state)`.
  unfoldable pub parse_payload : RxState → Bool → Sys W → Stream → Bool × Sys W × Stream
  parse_payload RxState.payload blocked s st = parse_data app s st
  parse_payload _ blocked s st = (blocked, s, st)

  -- One round of the loop.
  unfoldable pub parse_round : (Stream → Bool) → Sys W → Stream → Bool × Sys W × Stream
  parse_round undef s st =
      let (blocked, s', st') = parse_in_state undef s.self.rx.state s st in
      parse_payload s'.self.rx.state blocked s' st'

  -- The loop, with fuel; none where the fuel runs out.
  unfoldable pub parse_loop : (Stream → Bool) → ℕ → Sys W → Stream → Option (Sys W × Stream)
  unfolding is_opened
  parse_loop undef zero s st = none
  parse_loop undef (suc fuel) s st =
      let (blocked, s', st') = parse_round undef s st in
      let rest = parse_loop undef fuel s' st' in
      if blocked || not (is_opened s'.self.state) then some (s', st') else rest

  -- The number of bytes consumed; none where the loop takes more rounds than the fuel, as one that does
  -- not end.
  unfoldable pub wic_parse : (Stream → Bool) → HttpParser → List ℕ → Sys W → Option (ℕ × Sys W)
  unfolding is_parsing stream_init_ro stream_pos
  wic_parse undef http bytes s =
      let st = stream_init_ro bytes (length bytes) in
      let (s1, st1) =
        if is_parsing s.self.state then parse_handshake http bytes s st else (s, st) in
      if is_opened s1.self.state
      then elim (parse_loop undef (parse_fuel (length bytes)) s1 st1) [
        | none ↦ none
        | some (s2, st2) ↦
            some (if is_opened s2.self.state then stream_pos st2 else length bytes, s2)
      ]
      else some (length bytes, s1)
