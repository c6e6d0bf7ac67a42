-- ===== src/Parse/Deliver.antt =====
-- The payload of a binary message through the loop of `wic_parse`, up to the handler.
use wic.Base.{
  ℕ, zero, suc, ◌+◌, ◌%◌, ◌≤◌, ◌<◌, ◌≡◌, refl, ◌∙◌, Bool, true, false, some, List, [], ◌∷◌, ◌++◌,
  arith, if◌then◌else◌, length, get_or, append_assoc, length-append, bit_xor, u16,
}
use wic.Types.{Encoding, Opcode, RxState, State}
use wic.Stream.{Stream, stream_init_ro, stream_pos, stream_get_u8, stream_eof, written}
use wic.Inst.{Sys, App, RxFrame, message, note}
use wic.Inst.Handlers.{call_message}
use wic.Send.{is_opened}
use wic.Frame.Layout.{AllBytes, xor_mask, length-xor_mask}
use wic.Receive.{message_opcode, set_rx}
use wic.Receive.Data.{
  store_byte, parse_data, receive_data, accept_data, check_byte, finish_data, finish_frame,
  finish_binary, offer, received,
}
use wic.Receive.Unmask.{Receiving, store_byte-Receiving}
use wic.Http.{HttpParser}
use wic.Parse.{parse_loop, parse_round, parse_fuel, is_parsing, wic_parse}
use wic.Parse.Input.{
  Reading, stream_get_u8-Reading, stream_get_u8_over, stream_init_ro-Reading, parse_round_lem,
  parse_loop_over, parse_loop_next,
}

-- A binary frame is being received: `out` is there, and `n` bytes are to come.
pub record Delivering {W : Type 0} (s : Sys W) (mask : List ℕ) (cap : ℕ) (out : List ℕ) (n : ℕ)
    : Type 0 where
  pub opened : s.self.state ≡ State.opened
  pub phase : s.self.rx.state ≡ RxState.payload
  pub binary : s.self.rx.opcode ≡ Opcode.binary
  pub handler : s.self.on_message ≡ true
  pub receiving : Receiving s.self.rx mask cap out
  pub size : s.self.rx.size ≡ n

store_byte-keeps :
    (b : ℕ) (rx : RxFrame)
    → let rx' = (store_byte b rx).0 in
      (rx'.opcode ≡ rx.opcode) × (rx'.state ≡ rx.state) × (rx'.fin ≡ rx.fin) × (rx'.frag ≡ rx.frag)
unfolding store_byte
store_byte-keeps b rx = ground arith

-- An application whose `on_message` takes every message, and changes nothing but the application's own
-- state, in the way of the function given here.
abbrev pub Takes : {W : Type 0} → App W → Type 0
Takes {W} app =
    (keep : Encoding → Bool → List ℕ → Sys W → W) × ((e : Encoding) (fin : Bool) (b : List ℕ)
        (s : Sys W)
      → app.on_message e fin b s ≡ (true, record s { world = keep e fin b s }))

-- The system in which `payload` has been handed over, and the next frame is awaited.
abbrev pub delivered :
    {W : Type 0} → (Encoding → Bool → List ℕ → Sys W → W) → List ℕ → Sys W → Sys W
delivered keep payload s =
    let fin = s.self.rx.fin in
    record s {
      world = keep Encoding.binary fin payload (note (message Encoding.binary fin payload) s);
      log = message Encoding.binary fin payload ∷ s.log;
      self = record (s.self) {
        rx = record (s.self.rx) {
          state = RxState.opcode;
          frag = if fin then Opcode.cont else Opcode.binary;
        };
      };
    }

module _ {W : Type 0} (app : App W) (undef : Stream → Bool) (mask : List ℕ) (cap : ℕ)
    (small : (k : ℕ) → get_or mask k 0 < 256) where
  -- A byte is stored.
  receive_data_lem :
      (s : Sys W) (st : Stream) (out : List ℕ) (n b : ℕ) (bytes : List ℕ)
      → Delivering s mask cap out n
      → Reading st (b ∷ bytes)
      → length out + 1 ≤ cap
      → receive_data app s st
        ≡ (false, set_rx app s (store_byte b s.self.rx).0, record st { pos = st.pos + 1 })
  unfolding receive_data stream_eof accept_data check_byte message_opcode
  receive_data_lem s st out n b bytes d r fits = ground (
    arith,
    (stream_get_u8-Reading st b bytes r).0,
    d.receiving.buffer.at,
    d.receiving.buffer.capacity,
    d.binary,
    store_byte-keeps b s.self.rx,
  )

  abbrev stored : Sys W → List ℕ → ℕ → Sys W
  stored s out p =
      set_rx app s (store_byte (bit_xor p (get_or mask (length out % 4) 0)) s.self.rx).0

  stored-Delivering :
      (s : Sys W) (out : List ℕ) (n p : ℕ)
      → Delivering s mask cap out (suc n)
      → p < 256
      → length out + 1 ≤ cap
      → Delivering (stored s out p) mask cap (out ++ p ∷ []) n
  stored-Delivering s out n p d hp fits =
      let b = bit_xor p (get_or mask (length out % 4) 0) in
      let one = store_byte-Receiving mask small cap s.self.rx out p d.receiving hp fits in
      let same = store_byte-keeps b s.self.rx in
      record {
        opened = d.opened;
        phase = same.1 ∙ d.phase;
        binary = same.0 ∙ d.binary;
        handler = d.handler;
        receiving = one.0;
        size = omega (arith, one.2, d.size);
      }

  finish_data_more :
      (s : Sys W) (out : List ℕ) (n : ℕ)
      → Delivering s mask cap out (suc n)
      → finish_data app false s ≡ (false, s)
  unfolding finish_data
  finish_data_more s out n d = ground (arith, d.size)

  offer_lem :
      (s : Sys W) (payload : List ℕ)
      → (takes : Takes app) → Delivering s mask cap payload 0
      → length payload < 65536
      → offer app Encoding.binary s.self.rx.fin s ≡ (
        false,
        record (note (message Encoding.binary s.self.rx.fin payload) s) {
          world =
              takes.0 Encoding.binary s.self.rx.fin payload
                (note (message Encoding.binary s.self.rx.fin payload) s);
        },
      )
  unfolding offer received call_message written
  offer_lem s payload takes d lt =
      let whole : u16 s.self.rx.s.pos ≡ s.self.rx.s.pos = omega (arith, d.receiving.buffer.at) in
      let fin = s.self.rx.fin in
      let noted = note (message Encoding.binary fin payload) s in
      rw (whole, d.receiving.buffer.content)
        (ground (arith, takes.1 Encoding.binary fin payload noted, d.handler))

  finish_data_last :
      (s : Sys W) (payload : List ℕ)
      → (takes : Takes app) → Delivering s mask cap payload 0
      → length payload < 65536
      → finish_data app false s ≡ (false, delivered takes.0 payload s)
  unfolding finish_data finish_frame finish_binary message_opcode is_opened
  finish_data_last s payload takes d lt =
      ground (arith, offer_lem s payload takes d lt, d.size, d.opened, d.binary)

  -- A round with a byte that is not the last.
  parse_round_more :
      (s : Sys W) (st : Stream) (out : List ℕ) (n p : ℕ) (bytes : List ℕ)
      → Delivering s mask cap out (suc (suc n))
      → Reading st (bit_xor p (get_or mask (length out % 4) 0) ∷ bytes)
      → p < 256
      → length out + 1 ≤ cap
      → parse_round app undef s st ≡ (false, stored s out p, record st { pos = st.pos + 1 })
  unfolding parse_data
  parse_round_more s st out n p bytes d r hp fits = ground (
    arith,
    parse_round_lem app undef s st d.phase,
    d.size,
    receive_data_lem s st out (suc (suc n)) (bit_xor p (get_or mask (length out % 4) 0)) bytes d r
        fits,
    finish_data_more (stored s out p) (out ++ p ∷ []) n
        (stored-Delivering s out (suc n) p d hp fits),
  )

  -- The round with the last byte.
  parse_round_last :
      (s : Sys W) (st : Stream) (out : List ℕ) (p : ℕ) (bytes : List ℕ)
      → (takes : Takes app) → Delivering s mask cap out 1
      → Reading st (bit_xor p (get_or mask (length out % 4) 0) ∷ bytes)
      → p < 256
      → length out + 1 ≤ cap
      → length out + 1 < 65536
      → parse_round app undef s st ≡ (
        false,
        delivered takes.0 (out ++ p ∷ []) (stored s out p),
        record st { pos = st.pos + 1 },
      )
  unfolding parse_data
  parse_round_last s st out p bytes takes d r hp fits lt = ground (
    arith,
    parse_round_lem app undef s st d.phase,
    d.size,
    receive_data_lem s st out 1 (bit_xor p (get_or mask (length out % 4) 0)) bytes d r fits,
    finish_data_last (stored s out p) (out ++ p ∷ []) takes (stored-Delivering s out 0 p d hp fits)
        (omega (arith, length-append out (p ∷ []))),
  )

  -- The system after the payload `p ∷ payload`.
  abbrev pub after : Takes app → Sys W → List ℕ → ℕ → List ℕ → Sys W
  after takes s out p [] = delivered takes.0 (out ++ p ∷ []) (stored s out p)
  after takes s out p (q ∷ payload) = after takes (stored s out p) (out ++ p ∷ []) q payload

  pub parse_loop_payload :
      (p : ℕ) (payload : List ℕ) (fuel : ℕ) (s : Sys W) (st : Stream) (out : List ℕ)
      → (takes : Takes app) → Delivering s mask cap out (suc (length payload))
      → Reading st (xor_mask mask (length out) (p ∷ payload))
      → AllBytes (p ∷ payload)
      → length out + length (p ∷ payload) ≤ cap
      → length out + length (p ∷ payload) < 65536
      → length (p ∷ payload) < fuel
      → (st' : Stream) × (parse_loop app undef fuel s st ≡ some (after takes s out p payload, st'))
        × (st'.pos ≡ st.size)
  unfolding xor_mask
  parse_loop_payload p payload zero s st out takes d r hb fits lt enough = absurd (omega arith)
  parse_loop_payload p [] (suc zero) s st out takes d r hb fits lt enough = absurd (omega arith)
  parse_loop_payload p [] (suc (suc fuel)) s st out takes d r hb fits lt enough =
      let round = parse_round_last s st out p [] takes d r hb.0 (omega arith) (omega arith) in
      let next = record st { pos = st.pos + 1 } in
      let s' = delivered takes.0 (out ++ p ∷ []) (stored s out p) in
      let reading =
        (stream_get_u8-Reading st (bit_xor p (get_or mask (length out % 4) 0)) [] r).1 in
      (
        (stream_get_u8 next).2,
        parse_loop_next app undef (suc fuel) s st s' next round d.opened
            ∙ parse_loop_over app undef fuel s' next refl reading,
        (stream_get_u8_over next reading).1,
      )
  parse_loop_payload p (q ∷ payload) (suc fuel) s st out takes d r hb fits lt enough =
      let b = bit_xor p (get_or mask (length out % 4) 0) in
      let bytes = xor_mask mask (length out + 1) (q ∷ payload) in
      let round = parse_round_more s st out (length payload) p bytes d r hb.0 (omega arith) in
      let next = record st { pos = st.pos + 1 } in
      let len : length (out ++ p ∷ []) ≡ length out + 1 = length-append out (p ∷ []) in
      let reading = (stream_get_u8-Reading st b bytes r).1 in
      let rest =
        parse_loop_payload q payload fuel (stored s out p) next (out ++ p ∷ []) takes
          (stored-Delivering s out (suc (length payload)) p d hb.0 (omega arith)) (rw len reading)
          hb.1 (omega (arith, len)) (omega (arith, len)) (omega arith) in
      (
        rest.0,
        parse_loop_next app undef fuel s st (stored s out p) next round d.opened ∙ rest.1,
        rest.2,
      )

  pub after_lem :
      (takes : Takes app) (s : Sys W) (out : List ℕ) (p : ℕ) (payload : List ℕ)
      → s.self.state ≡ State.opened
      → let s' = after takes s out p payload in
        (s'.log ≡ message Encoding.binary s.self.rx.fin (out ++ p ∷ payload) ∷ s.log)
        × (s'.self.rx.state ≡ RxState.opcode)
        × (s'.self.state ≡ State.opened)
  after_lem takes s out p [] o =
      let fin = (store_byte-keeps (bit_xor p (get_or mask (length out % 4) 0)) s.self.rx).2 in
      (rw fin refl, refl, o)
  after_lem takes s out p (q ∷ payload) o =
      let fin = (store_byte-keeps (bit_xor p (get_or mask (length out % 4) 0)) s.self.rx).2 in
      let rest = after_lem takes (stored s out p) (out ++ p ∷ []) q payload o in
      rw (fin, append_assoc) at rest

-- The masked payload of a binary frame, received in one piece by an instance that is about to read
-- it and whose buffer has room for it, reaches an application whose `on_message` takes every
-- message and changes nothing but the application's own state: it gets the payload unmasked in one call,
-- all input is consumed, and the next frame is awaited.
pub wic_parse-xor_mask :
    {W : Type 0} (app : App W) (undef : Stream → Bool) (http : HttpParser) (mask : List ℕ) (cap : ℕ)
    (p : ℕ) (payload : List ℕ) (s : Sys W)
    → Takes app
    → ((k : ℕ) → get_or mask k 0 < 256)
    → AllBytes (p ∷ payload)
    → Delivering s mask cap [] (suc (length payload))
    → length (p ∷ payload) ≤ cap
    → length (p ∷ payload) < 65536
    → (s' : Sys W) × (wic_parse app undef http (xor_mask mask 0 (p ∷ payload)) s
        ≡ some (length (p ∷ payload), s'))
      × (s'.log ≡ message Encoding.binary s.self.rx.fin (p ∷ payload) ∷ s.log)
      × (s'.self.rx.state ≡ RxState.opcode)
      × (s'.self.state ≡ State.opened)
unfolding wic_parse is_parsing is_opened stream_pos stream_init_ro
wic_parse-xor_mask app undef http mask cap p payload s takes small hb d fits lt =
    let bytes = xor_mask mask 0 (p ∷ payload) in
    let n : length bytes ≡ length (p ∷ payload) = length-xor_mask mask 0 (p ∷ payload) in
    let st = stream_init_ro bytes (length bytes) in
    let reading = stream_init_ro-Reading bytes (omega (arith, n)) in
    let all : st.size ≡ length (p ∷ payload) = omega (arith, n, reading.ends) in
    let run =
      parse_loop_payload app undef mask cap small p payload (parse_fuel (length bytes)) s st []
        takes d reading hb (omega arith) (omega arith) (omega (arith, n)) in
    let result = after_lem app undef mask cap small takes s [] p payload d.opened in
    (
      after app undef mask cap small takes s [] p payload,
      ground (arith, run.1, run.2, d.opened, result.2, n, all),
      result.0,
      result.1,
      result.2,
    )
