-- ===== src/Parse/Pong.antt =====
-- The pings of a server through `wic_parse`.
use wic.Base.{
  if◌then◌else◌, ℕ, ◌+◌, ◌≤◌, ◌<◌, ◌≡◌, ◌⊎◌, refl, ap, ◌∙◌, Bool, true, false, some, List, [], ◌∷◌,
  arith, length,
}
use wic.Types.{Buffer, Opcode, Role, RxState, State, Status}
use wic.Stream.{Stream}
use wic.Inst.{Call, Sys, App, Inst, pinged, random, send, get_buffer, note}
use wic.Inst.Handlers.{call_rand, call_buffer, call_send, call_ping}
use wic.Http.{HttpParser}
use wic.Frame.{TxFrame, min_frame_size, is_close}
use wic.Frame.Layout.{AllBytes, IsSendable, encode}
use wic.Send.{is_opened, data_frame, send_frame, send_pong_with_payload}
use wic.Send.Wire.{
  Supplies, masked_frame, masked_frame-IsSendable, put_masked_frame_lem, send_frame_lem,
  call_rand-keeps, allowed_to_send_open,
}
use wic.Close.{send_stream, is_success}
use wic.Receive.{message_opcode, set_rx}
use wic.Receive.Data.{finish_data, finish_frame, finish_ping, received, would_block}
use wic.Parse.{wic_parse}
use wic.Parse.Load.{received-Loading, Loading, passes, fails, next_utf8}
use wic.Parse.Single.{wic_parse-plain, resumed-Ready}
use wic.Parse.Plain.{Ready, plain, admits, allows, first_utf8}

-- A handler of pings that changes nothing that the library keeps.
abbrev pub TakesPings : {W : Type 0} → App W → Type 0
TakesPings {W} app = (s : Sys W) → ((app.on_ping s).self ≡ s.self) × ((app.on_ping s).log ≡ s.log)

-- The call of `on_ping`, where it is set, behind the others.
abbrev pub with_ping : Bool → List Call → List Call
with_ping on log = if on then pinged ∷ log else log

module _ {W : Type 0} (app : App W) (out_cap : ℕ) (supplies : Supplies app out_cap)
    (sent : (b : List ℕ) (t : Buffer) (s : Sys W) → (app.on_send b t s).self ≡ s.self) where
  abbrev pong : List ℕ → TxFrame
  pong payload = data_frame Opcode.pong Buffer.pong true payload

  send_frame-self :
      (f : TxFrame) (s : Sys W)
      → s.self.role ≡ Role.client
      → IsSendable (masked_frame f (call_rand app 0xaaaaaaaa s).0)
      → min_frame_size f.opcode true (length f.payload) ≤ out_cap
      → (send_frame app f (λ i. i) s).1.self ≡ s.self
  unfolding send_frame send_stream is_success call_send call_buffer
  send_frame-self f s c ok fits =
      let put = put_masked_frame_lem app out_cap supplies f s c ok fits in
      let n = min_frame_size f.opcode true (length f.payload) in
      let bytes = encode (masked_frame f (call_rand app 0xaaaaaaaa s).0) in
      rw (put.0, put.1)
        (sent bytes f.type _
          ∙ (supplies.buffer_keeps n f.type _).0
          ∙ (call_rand-keeps app out_cap supplies 0xaaaaaaaa s).0)

  call_ping-keeps :
      (s : Sys W)
      → TakesPings app
      → ((call_ping app s).self ≡ s.self) × ((call_ping app s).log ≡ with_ping s.self.on_ping s.log)
  unfolding call_ping
  call_ping-keeps s takes = ground (arith, takes (note pinged s))

  -- The outcome of a ping.
  record Ponged (payload : List ℕ) (s s' : Sys W) : Type 0 where
    mask : ℕ
    before : List Call
    same : s'.self ≡ s.self
    calls :
        s'.log
        ≡ with_ping s.self.on_ping (
            send (encode (masked_frame (pong payload) mask)) Buffer.pong
            ∷ get_buffer (min_frame_size Opcode.pong true (length payload)) Buffer.pong
            ∷ before)
    drawn : (before ≡ s.log) ⊎ (before ≡ random ∷ s.log)

  send_pong_lem :
      (payload : List ℕ) (s : Sys W)
      → s.self.state ≡ State.opened
      → send_pong_with_payload app payload s ≡ send_frame app (pong payload) (λ i. i) s
  unfolding send_pong_with_payload
  send_pong_lem payload s o = ground (arith, allowed_to_send_open app out_cap supplies s.self o)

  finish_ping_sent :
      (payload : List ℕ) (s : Sys W)
      → let (status, s2) = send_frame app (pong payload) (λ i. i) s in
        received s.self.rx ≡ payload
        → s.self.state ≡ State.opened
        → status ≡ Status.success
        → finish_ping app s ≡ (false, call_ping app s2)
  unfolding finish_ping would_block
  finish_ping_sent payload s whole o sent = rw (whole, send_pong_lem payload s o, sent) refl

  finish_ping_lem :
      (cap u : ℕ) (payload : List ℕ) (s : Sys W)
      → TakesPings app
      → s.self.state ≡ State.opened
      → s.self.role ≡ Role.client
      → Loading s.self.rx Opcode.ping cap payload 0 u
      → AllBytes payload
      → length payload < 126
      → min_frame_size Opcode.pong true (length payload) ≤ out_cap
      → (s' : Sys W) × (finish_ping app s ≡ (false, s')) × Ponged payload s s'
  unfolding data_frame is_close
  finish_ping_lem cap u payload s takes o c l hb short fits =
      let f = pong payload in
      let (r, s1) = call_rand app 0xaaaaaaaa s in
      let ok = masked_frame-IsSendable f r hb (omega arith) (omega arith) in
      let sent = send_frame_lem app out_cap supplies f (λ i. i) s c ok fits in
      let same = send_frame-self f s c ok fits in
      let s2 = (send_frame app f (λ i. i) s).1 in
      let s3 = call_ping app s2 in
      let kept = call_ping-keeps s2 takes in
      let done =
        finish_ping_sent payload s
          (received-Loading Opcode.ping cap 0 u payload s.self.rx l (omega arith)) o sent.0 in
      let handler = ap (λ (i : Inst). i.on_ping) same in
      let ponged : Ponged payload s s3 = record {
        mask = r;
        before = s1.log;
        same = kept.0 ∙ same;
        calls =
            kept.1
            ∙ ap (λ (on : Bool). with_ping on s2.log) handler
            ∙ ap (with_ping s.self.on_ping) sent.1;
        drawn = (call_rand-keeps app out_cap supplies 0xaaaaaaaa s).1;
      } in
      (s3, done, ponged)

  finish_data_ping :
      (cap u : ℕ) (payload : List ℕ) (s s' : Sys W)
      → Loading s.self.rx Opcode.ping cap payload 0 u
      → s.self.state ≡ State.opened
      → finish_ping app s ≡ (false, s')
      → finish_data app false s
        ≡ (false, set_rx app s' (record (s'.self.rx) { state = RxState.opcode }))
  unfolding finish_data finish_frame is_opened
  finish_data_ping cap u payload s s' l o done = rw l.kind (ground (arith, l.size, o, done))

passes_ping : (k u : ℕ) (bytes : List ℕ) → passes Opcode.ping k u bytes ≡ true
unfolding passes fails next_utf8
passes_ping k u [] = refl
passes_ping k u (b ∷ bytes) = passes_ping (k + 1) u bytes

-- A ping of the server, with a payload of at most 125 bytes that fits the receive buffer, alone in
-- the input of an open client whose application hands out a buffer for the pong: it is consumed
-- whole, the client sends one pong frame, masked, with the same payload, then tells `on_ping` where
-- it is set, and is open and as ready for the next frame as before; also within a fragmented message.
pub wic_parse-ping :
    {W : Type 0} (app : App W) (undef : Stream → Bool) (http : HttpParser) (out_cap in_cap : ℕ)
    (payload : List ℕ) (s : Sys W)
    → Supplies app out_cap
    → ((b : List ℕ) (t : Buffer) (x : Sys W) → (app.on_send b t x).self ≡ x.self)
    → TakesPings app
    → Ready s in_cap
    → s.self.role ≡ Role.client
    → AllBytes payload
    → length payload < 126
    → length payload ≤ in_cap
    → min_frame_size Opcode.pong true (length payload) ≤ out_cap
    → (mask : ℕ) × (before : List Call) × (s' : Sys W) × (wic_parse app undef http
          (plain true Opcode.ping payload)
          s
        ≡ some (length (plain true Opcode.ping payload), s'))
      × (s'.log
          ≡ with_ping s.self.on_ping (
              send
                (encode (masked_frame (data_frame Opcode.pong Buffer.pong true payload) mask))
                Buffer.pong
              ∷ get_buffer (min_frame_size Opcode.pong true (length payload)) Buffer.pong
              ∷ before))
      × ((before ≡ s.log) ⊎ (before ≡ random ∷ s.log))
      × Ready s' in_cap
      × (s'.self.rx.frag ≡ s.self.rx.frag)
unfolding admits allows message_opcode first_utf8
wic_parse-ping app undef http out_cap in_cap payload s supplies sent takes w c hb short room fits =
    let (rx, l, fin, run) =
      wic_parse-plain app undef http in_cap true Opcode.ping payload s w refl
        (ground (arith, short, room)) (omega arith) room hb (passes_ping 0 0 payload) in
    let (s1, done, ponged) =
      finish_ping_lem app out_cap supplies sent in_cap _ payload (set_rx app s rx) takes w.opened c
        l hb short fits in
    let s' = set_rx app s1 (record (s1.self.rx) { state = RxState.opcode }) in
    (
      ponged.mask,
      ponged.before,
      s',
      run s'
          (finish_data_ping app out_cap supplies sent in_cap _ payload (set_rx app s rx) s1 l
            w.opened done)
          refl,
      ponged.calls,
      ponged.drawn,
      resumed-Ready app undef http in_cap _ _ s1.self.rx.frag payload rx s1
          (ap (λ (i : Inst). i.state) ponged.same ∙ w.opened) l
          (ap (λ (i : Inst). i.rx) ponged.same),
      ap (λ (i : Inst). i.rx.frag) ponged.same ∙ fin.1,
    )
