-- ===== src/Parse/Refuse.antt =====
-- The first byte of a frame that the protocol does not allow, through `wic_parse`.
use wic.Base.{
  ℕ, suc, ◌+◌, ◌*◌, ◌/◌, ◌%◌, ◌≤◌, ◌<◌, ◌≡◌, ◌⊎◌, refl, ap, ◌∙◌, Bool, true, false, not, ◌||◌, ◌&&◌,
  some, List, [], ◌∷◌, arith, length, leb, ◌==◌, every, every-elim, Bool-cases, inl, inr,
}
use wic.Types.{Buffer, Opcode, Role, RxState, State, close_protocol_error}
use wic.Stream.{Stream, stream_init_ro, stream_pos}
use wic.Utf8.Text.{nil}
use wic.Inst.{Call, Sys, App, Inst, RxFrame, closed, close_transport, random, send, get_buffer}
use wic.Http.{HttpParser}
use wic.Frame.{min_frame_size, byte_to_opcode}
use wic.Frame.Layout.{encode}
use wic.Send.{is_opened}
use wic.Send.Wire.{Supplies, masked_frame}
use wic.Close.{close_frame, is_local_code}
use wic.Close.Wire.{close_with_reason-self, Watches, close_with_reason_lem}
use wic.Receive.{
  accept_opcode, start_frame, has_flag, filter_opcode, is_cont, parse_opcode, set_rx, fail,
}
use wic.Parse.{
  parse_loop, parse_round, parse_in_state, parse_payload, parse_fuel, is_parsing, wic_parse,
}
use wic.Parse.Progress.{is_payload}
use wic.Parse.Input.{Reading, stream_get_u8-Reading, stream_init_ro-Reading}
use wic.Parse.Plain.{Ready, admits}

-- The first byte of a frame, of which `frag` is the opcode of the message under way, breaks the
-- protocol: a reserved bit is set, or the opcode may not come here.
unfoldable pub breaks : Opcode → ℕ → Bool
unfolding admits
breaks frag b = not (b / 16 % 8 == 0) || not (admits (byte_to_opcode b) frag (leb 128 b))

same_bool : Bool → Bool → Bool
same_bool true b = b
same_bool false b = not b

same_bool_eq : (a b : Bool) → same_bool a b ≡ true → a ≡ b
unfolding same_bool
same_bool_eq true b h = cc
same_bool_eq false true h = cc
same_bool_eq false false h = refl

abbrev flags_agree : ℕ → Bool
flags_agree b =
    same_bool (has_flag b 0x40 || (has_flag b 0x20 || has_flag b 0x10)) (not (b / 16 % 8 == 0))
    && same_bool (has_flag b 0x80) (leb 128 b)

flags_table : every flags_agree 256 ≡ true
unfolding every same_bool has_flag
flags_table = refl

flags_lem :
    (b : ℕ)
    → b < 256
    → (has_flag b 0x40 || (has_flag b 0x20 || has_flag b 0x10) ≡ not (b / 16 % 8 == 0))
      × (has_flag b 0x80 ≡ leb 128 b)
flags_lem b h =
    let both = every-elim flags_agree b 256 h flags_table in
    (same_bool_eq _ _ (ground (arith, both)), same_bool_eq _ _ (ground (arith, both)))

module _ {W : Type 0} (app : App W) (undef : Stream → Bool) where
  filter_opcode_refused :
      (o : Opcode) (s : Sys W)
      → admits o s.self.rx.frag s.self.rx.fin ≡ false
      → filter_opcode app o s ≡ fail app close_protocol_error s
  unfolding filter_opcode admits is_cont
  filter_opcode_refused Opcode.cont s h = ground (arith, h)
  filter_opcode_refused Opcode.text s h = ground (arith, h)
  filter_opcode_refused Opcode.binary s h = ground (arith, h)
  filter_opcode_refused Opcode.close s h = ground (arith, h)
  filter_opcode_refused Opcode.ping s h = ground (arith, h)
  filter_opcode_refused Opcode.pong s h = ground (arith, h)
  filter_opcode_refused _ s h = refl

  -- The byte makes the connection fail with a protocol error.
  accept_opcode_refused :
      (b : ℕ) (s : Sys W)
      → b < 256
      → breaks s.self.rx.frag b ≡ true
      → (rx rx' : RxFrame) × (rx.state ≡ s.self.rx.state)
        × (rx'.state ≡ RxState.size)
        × ((accept_opcode app b s ≡ fail app close_protocol_error (set_rx app s rx))
            ⊎ (accept_opcode app b s
                ≡ set_rx app (fail app close_protocol_error (set_rx app s rx)) rx'))
  unfolding accept_opcode start_frame breaks
  accept_opcode_refused b s lt h =
      let flags = flags_lem b lt in
      let rx = start_frame b s.self.rx in
      let rx1 = record rx { opcode = byte_to_opcode b } in
      let s' = fail app close_protocol_error (set_rx app s rx1) in
      elim (Bool-cases (not (b / 16 % 8 == 0))) [
        | inl reserved ↦
            (rx, record rx { state = RxState.size }, refl, refl, inl (rw (flags.0, reserved) refl))
        | inr clear ↦
            let refused : admits (byte_to_opcode b) s.self.rx.frag (has_flag b 0x80) ≡ false =
              rw flags.1 (ground (arith, h, clear)) in
            let filtered = filter_opcode_refused (byte_to_opcode b) (set_rx app s rx1) refused in
            (
              rx1,
              record (s'.self.rx) { state = RxState.size },
              refl,
              refl,
              inr (rw (flags.0, clear, filtered) refl),
            )
      ]

  parse_round_accepted :
      (b : ℕ) (bytes : List ℕ) (s : Sys W) (st : Stream)
      → s.self.rx.state ≡ RxState.opcode
      → Reading st (b ∷ bytes)
      → is_payload (accept_opcode app b s).self.rx.state ≡ false
      → parse_round app undef s st ≡ (false, accept_opcode app b s, record st { pos = st.pos + 1 })
  unfolding parse_round parse_in_state parse_payload parse_opcode is_payload
  parse_round_accepted b bytes s st phase r e =
      ground (arith, phase, e, (stream_get_u8-Reading st b bytes r).0)

  parse_loop_closed :
      (fuel : ℕ) (s s' : Sys W) (st st' : Stream)
      → parse_round app undef s st ≡ (false, s', st')
      → s'.self.state ≡ State.closed
      → parse_loop app undef (suc fuel) s st ≡ some (s', st')
  unfolding parse_loop is_opened
  parse_loop_closed fuel s s' st st' e c = rw e (ground (arith, c))

  -- The instance is closed, and the other side has been told of the protocol error.
  abbrev pub HasFailed : Sys W → Sys W → Type 0
  HasFailed s s' =
      (mask : ℕ) × (before : List Call) × (s'.self.state ≡ State.closed)
      × (s'.log
          ≡ closed close_protocol_error []
            ∷ close_transport
            ∷ send (encode (masked_frame (close_frame close_protocol_error [] Buffer.close) mask))
                Buffer.close
            ∷ get_buffer (min_frame_size Opcode.close true 0) Buffer.close
            ∷ before)
      × ((before ≡ s.log) ⊎ (before ≡ random ∷ s.log))

  module _ (cap : ℕ) (supplies : Supplies app cap) (watches : Watches app)
      (fits : min_frame_size Opcode.close true 0 ≤ cap) where
    -- What failing does to an open client.
    fail-HasFailed :
        (s : Sys W)
        → s.self.state ≡ State.opened
        → s.self.role ≡ Role.client
        → s.self.on_close ≡ true
        → s.self.on_close_transport ≡ true
        → HasFailed s (fail app close_protocol_error s)
          × ((fail app close_protocol_error s).self.rx ≡ s.self.rx)
    unfolding is_local_code
    fail-HasFailed s o c oc ot =
        let done =
          close_with_reason_lem app cap close_protocol_error [] Buffer.close s supplies watches o c
            oc ot refl (omega arith) tt nil (omega arith) fits in
        let same =
          close_with_reason-self app cap close_protocol_error [] Buffer.close s supplies watches o c
            oc ot refl (omega arith) tt nil (omega arith) fits in
        ((_, _, done.0, done.1, done.2), ap (λ (i : Inst). i.rx) same)

    accept_opcode-HasFailed :
        (b : ℕ) (s : Sys W)
        → s.self.rx.state ≡ RxState.opcode
        → s.self.state ≡ State.opened
        → s.self.role ≡ Role.client
        → s.self.on_close ≡ true
        → s.self.on_close_transport ≡ true
        → b < 256
        → breaks s.self.rx.frag b ≡ true
        → HasFailed s (accept_opcode app b s)
          × (is_payload (accept_opcode app b s).self.rx.state ≡ false)
    unfolding is_payload
    accept_opcode-HasFailed b s phase o c oc ot lt h =
        let (rx, rx', same, next, result) = accept_opcode_refused b s lt h in
        let done = fail-HasFailed (set_rx app s rx) o c oc ot in
        elim result [
          | inl stopped ↦ rw stopped (done.0, rw (done.1, same, phase) refl)
          | inr went_on ↦ rw went_on (done.0, rw next refl)
        ]

    -- What is left of a call of `wic_parse` at the first byte, whatever follows it.
    wic_parse_stopped :
        (http : HttpParser) (in_cap b : ℕ) (bytes : List ℕ) (s : Sys W)
        → Ready s in_cap
        → (accept_opcode app b s).self.state ≡ State.closed
        → is_payload (accept_opcode app b s).self.rx.state ≡ false
        → length (b ∷ bytes) < 4294967296
        → wic_parse app undef http (b ∷ bytes) s ≡ some (length (b ∷ bytes), accept_opcode app b s)
    unfolding wic_parse is_parsing is_opened stream_pos
    wic_parse_stopped http in_cap b bytes s w over unread few =
        let st = stream_init_ro (b ∷ bytes) (length (b ∷ bytes)) in
        let reading = stream_init_ro-Reading (b ∷ bytes) few in
        let s' = accept_opcode app b s in
        let round = parse_round_accepted b bytes s st w.phase reading unread in
        let n : parse_fuel (length (b ∷ bytes)) ≡ suc (2 * length (b ∷ bytes) + 3) = omega arith in
        let run =
          parse_loop_closed (2 * length (b ∷ bytes) + 3) s s' st (record st { pos = st.pos + 1 })
            round over in
        let whole = ap (λ (k : ℕ). parse_loop app undef k s st) n in
        ground (arith, whole ∙ run, w.opened, over)

-- A frame whose first byte has a reserved bit, or an opcode that is reserved, or comes in the middle
-- of a fragmented message, or continues none, or is that of a fragmented control frame: an open
-- client whose application hands out a buffer for the close frame, and whose handlers leave the library
-- alone, sends one close frame with the code 1002, closes the transport and tells `on_close` the code,
-- in this order, and is closed. All of the input counts as consumed, and the bytes behind the first
-- change nothing: what is left is what the first byte alone leaves.
pub wic_parse_refused :
    {W : Type 0} (app : App W) (undef : Stream → Bool) (http : HttpParser) (out_cap in_cap b : ℕ)
    (bytes : List ℕ) (s : Sys W)
    → Supplies app out_cap
    → Watches app
    → Ready s in_cap
    → s.self.role ≡ Role.client
    → s.self.on_close ≡ true
    → s.self.on_close_transport ≡ true
    → min_frame_size Opcode.close true 0 ≤ out_cap
    → b < 256
    → breaks s.self.rx.frag b ≡ true
    → length (b ∷ bytes) < 4294967296
    → (s' : Sys W) × (wic_parse app undef http (b ∷ bytes) s ≡ some (length (b ∷ bytes), s'))
      × (wic_parse app undef http (b ∷ []) s ≡ some (1, s'))
      × HasFailed app undef s s'
wic_parse_refused app undef http out_cap in_cap b bytes s supplies watches w c oc ot fits lt h few =
    let (failed, unread) =
      accept_opcode-HasFailed app undef out_cap supplies watches fits b s w.phase w.opened c oc ot
        lt h in
    let stopped = wic_parse_stopped app undef out_cap supplies watches fits http in_cap b in
    (
      accept_opcode app b s,
      stopped bytes s w failed.2 unread few,
      stopped [] s w failed.2 unread (omega arith),
      failed,
    )
