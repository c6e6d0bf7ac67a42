-- ===== src/Parse/Answer.antt =====
-- The closing handshake that a server begins, through `wic_parse`.
use wic.Base.{
  ℕ, suc, ◌+◌, ◌*◌, ◌/◌, ◌%◌, ◌≤◌, ◌<◌, ◌≡◌, ◌⊎◌, refl, ap, ◌∙◌, Bool, true, false, some, List, [],
  ◌∷◌, arith, length, take, drop, get_or, u8, u16, ◌<<<◌, sub_size, ltb, ◌==◌, ==_iff, Bool-cases,
  inl, inr,
}
use wic.Types.{Buffer, Opcode, Role, RxState, State}
use wic.Stream.{Stream, written}
use wic.Utf8.{utf8_parse, utf8_parse_string, utf8_is_complete, utf8_is_invalid}
use wic.Utf8.Text.{IsText, rejects}
use wic.Inst.{Call, Sys, App, RxFrame, closed, close_transport, random, send, get_buffer}
use wic.Http.{HttpParser}
use wic.Frame.{min_frame_size}
use wic.Frame.Layout.{AllBytes, encode}
use wic.Send.{is_opened}
use wic.Send.Wire.{Supplies, masked_frame}
use wic.Close.{close_frame, close_with_reason, is_local_code}
use wic.Close.Wire.{Watches, close_with_reason_lem}
use wic.Receive.{message_opcode, set_rx, is_defined_code, received_code}
use wic.Receive.Data.{finish_data, finish_frame, finish_close}
use wic.Parse.{wic_parse}
use wic.Parse.Header.{bytes_joined}
use wic.Parse.Load.{Loading-utf8, Loading, passes, fails, next_utf8, final_utf8}
use wic.Parse.Plain.{Ready, plain, admits, allows, first_utf8}
use wic.Parse.Messages.{utf8_parse_string_text}
use wic.Parse.Single.{wic_parse-plain}

-- The reason of a close frame is checked like a text.
final_utf8_reason :
    (k u : ℕ) (bytes : List ℕ)
    → 2 ≤ k
    → final_utf8 Opcode.close k u bytes ≡ utf8_parse_string u bytes
unfolding final_utf8 next_utf8 utf8_parse_string
final_utf8_reason k u [] h = refl
final_utf8_reason k u (b ∷ bytes) h =
    let behind : ltb 2 (k + 1) ≡ true = ground arith in
    rw behind (final_utf8_reason (k + 1) (utf8_parse u b) bytes (omega arith))

passes_reason :
    (k u : ℕ) (bytes : List ℕ)
    → 2 ≤ k
    → AllBytes bytes
    → utf8_parse_string u bytes ≡ 0
    → passes Opcode.close k u bytes ≡ true
unfolding passes fails next_utf8 utf8_parse_string utf8_is_invalid
passes_reason k u [] h hb e = refl
passes_reason k u (b ∷ bytes) h hb e =
    let behind : ltb 2 (k + 1) ≡ true = ground arith in
    elim (Bool-cases (utf8_parse u b == 1)) [
      | inl bad ↦
          let one : utf8_parse u b ≡ 1 = (==_iff _ _).0 bad in
          absurd
            (omega (arith, e, rejects bytes hb.1, ap (λ (v : ℕ). utf8_parse_string v bytes) one))
      | inr good ↦
          rw (behind, good) (passes_reason (k + 1) (utf8_parse u b) bytes (omega arith) hb.1 e)
    ]

-- What the receive buffer holds of a close frame's payload.
payload_parts :
    (n a b : ℕ) (mem reason : List ℕ)
    → take (suc (suc n)) mem ≡ a ∷ b ∷ reason
    → (get_or mem 0 0 ≡ a) × (get_or mem 1 0 ≡ b) × (take n (drop 2 mem) ≡ reason)
payload_parts n a b [] reason h = cc
payload_parts n a b (x ∷ []) reason h = cc
payload_parts n a b (x ∷ y ∷ mem) reason h = (cc, cc, cc)

is_defined_code-is_local_code :
    (code : ℕ) → is_defined_code code ≡ true → (is_local_code code ≡ false) × (code < 65536)
unfolding is_defined_code is_local_code
is_defined_code-is_local_code code h = ground (arith, h)

-- A code and a reason, as the payload of a close frame.
abbrev pub close_payload : ℕ → List ℕ → List ℕ
close_payload code reason = code / 256 ∷ (code % 256) ∷ reason

module _ {W : Type 0} (app : App W) (cap : ℕ) where
  received_code_lem :
      (code : ℕ) (reason : List ℕ) (rx : RxFrame)
      → Loading rx Opcode.close cap (close_payload code reason) 0 0
      → code < 65536
      → length reason ≤ 123
      → (received_code rx.s ≡ code) × (take (u16 (sub_size rx.s.pos 2)) (drop 2 rx.s.mem) ≡ reason)
  unfolding received_code written
  received_code_lem code reason rx l lt short =
      let at : rx.s.pos ≡ suc (suc (length reason)) = omega (arith, l.buffer.at) in
      let size : u16 (sub_size rx.s.pos 2) ≡ length reason = omega (arith, at) in
      let content = rw at at l.buffer.content in
      let parts = payload_parts (length reason) (code / 256) (code % 256) rx.s.mem reason content in
      let high : u16 (u8 (get_or rx.s.mem 0 0) <<< 8) ≡ code / 256 * 256 = omega (arith, parts.0) in
      let low : u8 (get_or rx.s.mem 1 0) ≡ code % 256 = omega (arith, parts.1) in
      (
        rw (high, low)
            (bytes_joined (code / 256) (code % 256) (omega arith) (omega arith) ∙ omega arith),
        rw size parts.2,
      )

  -- A close frame with a defined code is answered with the code and the reason.
  finish_close_lem :
      (code : ℕ) (reason : List ℕ) (s : Sys W)
      → Loading s.self.rx Opcode.close cap (close_payload code reason) 0 0
      → is_defined_code code ≡ true
      → length reason ≤ 123
      → finish_close app s ≡ close_with_reason app code reason Buffer.close_response s
  unfolding finish_close utf8_is_complete
  finish_close_lem code reason s l defined short =
      let (same_code, same_reason) =
        received_code_lem code reason s.self.rx l (is_defined_code-is_local_code code defined).1
          short in
      rw (same_code, same_reason, defined, l.utf8) refl

  finish_data_close :
      (payload : List ℕ) (s : Sys W)
      → Loading s.self.rx Opcode.close cap payload 0 0
      → s.self.state ≡ State.opened
      → let s' = finish_close app s in
        finish_data app false s
        ≡ (false, set_rx app s' (record (s'.self.rx) { state = RxState.opcode }))
  unfolding finish_data finish_frame is_opened
  finish_data_close payload s l o = rw l.kind (ground (arith, l.size, o))

-- A close frame of the server with one of the codes that are answered with themselves and a reason
-- in UTF-8 of at most 123 bytes, that fits the receive buffer, alone in the input of an open client
-- whose application hands out a buffer for the answer: it is consumed whole, the client sends one
-- masked close frame with the same code and reason, closes the transport, tells `on_close` the code
-- and the reason, in this order, and is closed.
pub wic_parse-close :
    {W : Type 0} (app : App W) (undef : Stream → Bool) (http : HttpParser) (out_cap in_cap : ℕ)
    (code : ℕ) (reason : List ℕ) (s : Sys W)
    → Supplies app out_cap
    → Watches app
    → Ready s in_cap
    → s.self.role ≡ Role.client
    → s.self.on_close ≡ true
    → s.self.on_close_transport ≡ true
    → is_defined_code code ≡ true
    → AllBytes reason
    → IsText reason
    → length reason ≤ 123
    → length reason + 2 ≤ in_cap
    → min_frame_size Opcode.close true (length reason) ≤ out_cap
    → let bytes = plain true Opcode.close (close_payload code reason) in
      (mask : ℕ) × (before : List Call) × (s' : Sys W) × (wic_parse app undef http bytes s
        ≡ some (length bytes, s'))
      × (s'.self.state ≡ State.closed)
      × (s'.log
          ≡ closed code reason
            ∷ close_transport
            ∷ send
                (encode (masked_frame (close_frame code reason Buffer.close_response) mask))
                Buffer.close_response
            ∷ get_buffer (min_frame_size Opcode.close true (length reason)) Buffer.close_response
            ∷ before)
      × ((before ≡ s.log) ⊎ (before ≡ random ∷ s.log))
unfolding admits allows message_opcode first_utf8 passes fails final_utf8 next_utf8
wic_parse-close app undef http out_cap in_cap code reason s supplies watches w c oc ot defined hb
      text short room fits =
    let payload = close_payload code reason in
    let facts = is_defined_code-is_local_code code defined in
    let whole : utf8_parse_string 0 reason ≡ 0 = utf8_parse_string_text reason hb text in
    let all : AllBytes payload = (omega (arith, facts.1), (omega arith, hb)) in
    let (rx, l, fin, run) =
      wic_parse-plain app undef http in_cap true Opcode.close payload s w refl
        (ground (arith, short, room)) (omega arith) (omega arith) all
        (passes_reason 2 0 reason (omega arith) hb whole) in
    let loaded : Loading rx Opcode.close in_cap payload 0 0 =
      Loading-utf8 l (final_utf8_reason 2 0 reason (omega arith) ∙ whole) in
    let s0 = set_rx app s rx in
    let answered = finish_close_lem app in_cap code reason s0 loaded defined short in
    let closing =
      close_with_reason_lem app out_cap code reason Buffer.close_response s0 supplies watches
        w.opened c oc ot facts.0 facts.1 hb text short fits in
    let s1 = close_with_reason app code reason Buffer.close_response s0 in
    let s' = set_rx app s1 (record (s1.self.rx) { state = RxState.opcode }) in
    (
      _,
      _,
      s',
      run s' (finish_data_close app in_cap payload s0 loaded w.opened ∙ rw answered refl) refl,
      closing.0,
      closing.1,
      closing.2,
    )
