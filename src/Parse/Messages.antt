-- ===== src/Parse/Messages.antt =====
-- The messages of a server through `wic_parse`.
use wic.Base.{
  ℕ, zero, suc, ◌+◌, ◌*◌, ◌≤◌, ◌<◌, ◌≡◌, refl, ap, ◌∙◌, Bool, true, false, some, List, [], ◌∷◌,
  ◌++◌, arith, length, length-append, ◌==◌, ==_iff, Bool-cases, inl, inr,
}
use wic.Types.{Encoding, Opcode, RxState, State}
use wic.Stream.{Stream, stream_init_ro, stream_pos, stream_get_u8}
use wic.Utf8.{utf8_parse, utf8_parse_string, utf8_is_complete, utf8_is_invalid}
use wic.Utf8.Text.{IsText, rejects}
use wic.Utf8.Scalars.{utf8_parse_string-IsText}
use wic.Inst.{Call, Sys, App, RxFrame, message, note}
use wic.Inst.Handlers.{call_message}
use wic.Http.{HttpParser}
use wic.Frame.Layout.{AllBytes}
use wic.Send.{is_opened}
use wic.Send.Fragments.{begun}
use wic.Send.Wire.{HasEncoding}
use wic.Receive.{message_opcode, is_cont, set_rx}
use wic.Receive.Data.{finish_data, finish_frame, finish_binary, finish_text, offer}
use wic.Parse.{parse_loop, parse_fuel, is_parsing, wic_parse}
use wic.Parse.Input.{Reading, stream_get_u8_over, stream_init_ro-Reading, parse_loop_over}
use wic.Parse.Deliver.{Takes}
use wic.Parse.Load.{received-Loading, Loading, passes, fails, next_utf8, final_utf8}
use wic.Parse.Payload.{ReadUpTo, continue_next}
use wic.Parse.Plain.{length-plain, Ready, plain, admits, allows, first_utf8}
use wic.Parse.Unmasked.{parse_loop-plain}

-- Behind a text the automaton is in its first state.
pub utf8_parse_string_text :
    (bytes : List ℕ) → AllBytes bytes → IsText bytes → utf8_parse_string 0 bytes ≡ 0
unfolding utf8_is_complete
utf8_parse_string_text bytes hb text = (==_iff _ _).0 ((utf8_parse_string-IsText bytes hb).1 text)

-- The text automaton of a text frame is that of `utf8_parse_string`.
pub final_utf8_text :
    (k u : ℕ) (bytes : List ℕ) → final_utf8 Opcode.text k u bytes ≡ utf8_parse_string u bytes
unfolding final_utf8 next_utf8 utf8_parse_string
final_utf8_text k u [] = refl
final_utf8_text k u (b ∷ bytes) = final_utf8_text (k + 1) (utf8_parse u b) bytes

pub passes_text :
    (k u : ℕ) (bytes : List ℕ)
    → AllBytes bytes
    → utf8_parse_string u bytes ≡ 0
    → passes Opcode.text k u bytes ≡ true
unfolding passes fails next_utf8 utf8_parse_string utf8_is_invalid
passes_text k u [] hb e = refl
passes_text k u (b ∷ bytes) hb e = elim (Bool-cases (utf8_parse u b == 1)) [
  | inl bad ↦
      let one : utf8_parse u b ≡ 1 = (==_iff _ _).0 bad in
      absurd (omega (arith, e, rejects bytes hb.1, ap (λ (v : ℕ). utf8_parse_string v bytes) one))
  | inr good ↦ rw good (passes_text (k + 1) (utf8_parse u b) bytes hb.1 e)
]

-- A frame of a kind that is not checked passes.
pub passes_binary : (k u : ℕ) (bytes : List ℕ) → passes Opcode.binary k u bytes ≡ true
unfolding passes fails next_utf8
passes_binary k u [] = refl
passes_binary k u (b ∷ bytes) = passes_binary (k + 1) u bytes

final_utf8_binary : (k u : ℕ) (bytes : List ℕ) → final_utf8 Opcode.binary k u bytes ≡ u
unfolding final_utf8 next_utf8
final_utf8_binary k u [] = refl
final_utf8_binary k u (b ∷ bytes) = final_utf8_binary (k + 1) u bytes

-- The first frame of a message passes, and leaves the automaton in its first state.
pub passes_message :
    (e : Encoding) (bytes : List ℕ)
    → AllBytes bytes
    → HasEncoding e bytes
    → (passes (begun e) 0 0 bytes ≡ true) × (final_utf8 (begun e) 0 0 bytes ≡ 0)
passes_message Encoding.binary bytes hb text =
    (passes_binary 0 0 bytes, final_utf8_binary 0 0 bytes)
passes_message Encoding.utf8 bytes hb text =
    let whole = utf8_parse_string_text bytes hb text in
    (passes_text 0 0 bytes hb whole, final_utf8_text 0 0 bytes ∙ whole)

-- What `on_message` gets: messages in one frame each.
abbrev pub messages : List (Encoding × List ℕ) → List ℕ
messages [] = []
messages ((e, bytes) ∷ rest) = plain true (begun e) bytes ++ messages rest

-- The calls of `on_message`, the last one first.
abbrev pub heard : List (Encoding × List ℕ) → List Call → List Call
heard [] log = log
heard ((e, bytes) ∷ rest) log = heard rest (message e true bytes ∷ log)

-- Messages that a receive buffer of `cap` bytes has room for.
abbrev pub AllFit : ℕ → List (Encoding × List ℕ) → Type 0
AllFit cap [] = Unit
AllFit cap ((e, bytes) ∷ rest) =
    AllBytes bytes
    × HasEncoding e bytes
    × (length bytes ≤ cap)
    × (length bytes < 65536)
    × AllFit cap rest

-- The rounds that messages take.
abbrev rounds : List (Encoding × List ℕ) → ℕ
rounds [] = 1
rounds ((e, bytes) ∷ rest) = length bytes + 4 + rounds rest

-- Between two messages of the server.
pub record Listening {W : Type 0} (s : Sys W) (cap : ℕ) : Type 0 where
  pub ready : Ready s cap
  pub fresh : s.self.rx.frag ≡ Opcode.cont
  pub handler : s.self.on_message ≡ true

module _ {W : Type 0} (app : App W) (undef : Stream → Bool) (cap : ℕ) (takes : Takes app) where
  -- What the application keeps behind a message.
  abbrev kept : Encoding → List ℕ → Sys W → W
  kept e bytes s = takes.0 e true bytes (note (message e true bytes) s)

  -- The system in which a message has been handed over.
  abbrev told : Encoding → List ℕ → Sys W → RxFrame → Sys W
  told e bytes s rx = record s {
    world = kept e bytes (set_rx app s rx);
    log = message e true bytes ∷ s.log;
    self = record (s.self) { rx = record rx { frag = Opcode.cont; state = RxState.opcode } };
  }

  offer_plain :
      (e : Encoding) (o : Opcode) (u : ℕ) (bytes : List ℕ) (s : Sys W)
      → s.self.on_message ≡ true
      → Loading s.self.rx o cap bytes 0 u
      → length bytes < 65536
      → offer app e true s
        ≡ (false, record (note (message e true bytes) s) { world = kept e bytes s })
  unfolding offer call_message
  offer_plain e o u bytes s handler l lt =
      rw (received-Loading o cap 0 u bytes s.self.rx l lt)
        (ground (arith, takes.1 e true bytes (note (message e true bytes) s), handler))

  finish_data_message :
      (e : Encoding) (u : ℕ) (bytes : List ℕ) (s : Sys W) (rx : RxFrame)
      → s.self.state ≡ State.opened
      → s.self.on_message ≡ true
      → Loading rx (begun e) cap bytes 0 u
      → rx.fin ≡ true
      → u ≡ 0
      → length bytes < 65536
      → finish_data app false (set_rx app s rx) ≡ (false, told e bytes s rx)
  unfolding finish_data finish_frame finish_binary finish_text is_opened utf8_is_complete
  finish_data_message Encoding.binary u bytes s rx o handler l fin whole lt = ground (
    arith,
    offer_plain Encoding.binary Opcode.binary u bytes (set_rx app s rx) handler l lt,
    l.size,
    l.kind,
    o,
    fin,
  )
  finish_data_message Encoding.utf8 u bytes s rx o handler l fin whole lt = ground (
    arith,
    offer_plain Encoding.utf8 Opcode.text u bytes (set_rx app s rx) handler l lt,
    l.size,
    l.kind,
    l.utf8,
    whole,
    o,
    fin,
  )

  told-Listening :
      (e : Encoding) (o : Opcode) (u : ℕ) (bytes : List ℕ) (s : Sys W) (rx : RxFrame)
      → Listening s cap
      → Loading rx o cap bytes 0 u
      → Listening (told e bytes s rx) cap
  told-Listening e o u bytes s rx w l = record {
    ready = record {
      opened = w.ready.opened;
      phase = refl;
      writable = l.buffer.writable;
      capacity = l.buffer.capacity;
      held = l.buffer.held;
      small = l.buffer.small;
    };
    fresh = refl;
    handler = w.handler;
  }

  -- A message of the server is handed over, and the loop goes on behind its frame.
  parse_loop_message :
      (e : Encoding) (bytes rest : List ℕ) (fuel : ℕ) (s : Sys W) (st : Stream)
      → Listening s cap
      → AllBytes bytes
      → HasEncoding e bytes
      → length bytes ≤ cap
      → length bytes < 65536
      → Reading st (plain true (begun e) bytes ++ rest)
      → length bytes ≤ suc fuel
      → (rx : RxFrame) × (st' : Stream) × (k : ℕ) × (parse_loop app undef
            (suc (suc (suc (suc fuel))))
            s
            st
          ≡ parse_loop app undef k (told e bytes s rx) st')
        × Listening (told e bytes s rx) cap
        × ReadUpTo app undef st st' rest
        × (fuel ≤ k + length bytes)
  unfolding admits allows first_utf8 is_cont message_opcode
  parse_loop_message Encoding.binary bytes rest fuel s st w hb text room lt r enough =
      let (rx, st', k, go, l, fin, r', more) =
        parse_loop-plain app undef cap true Opcode.binary bytes rest fuel s st w.ready
          (rw w.fresh refl) refl lt room hb (passes_message Encoding.binary bytes hb text).0 r
          enough in
      let done =
        finish_data_message Encoding.binary _ bytes s rx w.ready.opened w.handler l fin.0
          (final_utf8_binary 0 0 bytes) lt in
      (
        rx,
        st',
        k,
        go ∙ continue_next app undef k _ _ st' done w.ready.opened,
        told-Listening Encoding.binary Opcode.binary _ bytes s rx w l,
        r',
        more,
      )
  parse_loop_message Encoding.utf8 bytes rest fuel s st w hb text room lt r enough =
      let (ok, whole) = passes_message Encoding.utf8 bytes hb text in
      let (rx, st', k, go, l, fin, r', more) =
        parse_loop-plain app undef cap true Opcode.text bytes rest fuel s st w.ready
          (rw w.fresh refl) refl lt room hb ok r enough in
      let done =
        finish_data_message Encoding.utf8 _ bytes s rx w.ready.opened w.handler l fin.0 whole lt in
      (
        rx,
        st',
        k,
        go ∙ continue_next app undef k _ _ st' done w.ready.opened,
        told-Listening Encoding.utf8 Opcode.text _ bytes s rx w l,
        r',
        more,
      )

  parse_loop-messages :
      (ms : List (Encoding × List ℕ)) (fuel : ℕ) (s : Sys W) (st : Stream)
      → Listening s cap
      → AllFit cap ms
      → Reading st (messages ms)
      → rounds ms ≤ fuel
      → (s' : Sys W) × (st' : Stream) × (parse_loop app undef fuel s st ≡ some (s', st'))
        × (st'.pos ≡ st.size)
        × (s'.log ≡ heard ms s.log)
        × Listening s' cap
  parse_loop-messages [] zero s st w fit r enough = absurd (omega arith)
  parse_loop-messages [] (suc fuel) s st w fit r enough = (
    s,
    (stream_get_u8 st).2,
    parse_loop_over app undef fuel s st w.ready.phase r,
    (stream_get_u8_over st r).1,
    refl,
    w,
  )
  parse_loop-messages ((e, bytes) ∷ rest) (suc (suc (suc (suc fuel)))) s st w fit r enough =
      let (rx, st', k, go, w', (r', same), more) =
        parse_loop_message e bytes (messages rest) fuel s st w fit.0 fit.1 fit.2 fit.3 r
          (omega arith) in
      let (s', st'', run, at, log, w'') =
        parse_loop-messages rest k (told e bytes s rx) st' w' fit.4 r' (omega (arith, more)) in
      (s', st'', go ∙ run, at ∙ same, log, w'')
  parse_loop-messages ((e, bytes) ∷ rest) _ s st w fit r enough = absurd (omega arith)

rounds-messages : (ms : List (Encoding × List ℕ)) → rounds ms ≤ 2 * length (messages ms) + 1
rounds-messages [] = omega arith
rounds-messages ((e, bytes) ∷ rest) = omega (
  arith,
  rounds-messages rest,
  length-plain true (begun e) bytes,
  length-append (plain true (begun e) bytes) (messages rest),
)

-- Frames that are not masked, as a server sends them, each of which holds a whole message of at
-- most 65535 bytes and fits the receive buffer, a text in UTF-8: where they stand in one input of
-- at most 4 GiB, an open instance with no message under way consumes them all in one `wic_parse`.
-- Its `on_message`, which takes every message and changes nothing but the application's own
-- state, gets each of them once, in order, with its encoding and its bytes, and nothing else is
-- called; the instance is as ready for the next frame as before.
pub wic_parse-messages :
    {W : Type 0} (app : App W) (undef : Stream → Bool) (http : HttpParser) (cap : ℕ)
    (ms : List (Encoding × List ℕ)) (s : Sys W)
    → Takes app
    → Listening s cap
    → AllFit cap ms
    → length (messages ms) < 4294967296
    → (s' : Sys W) × (wic_parse app undef http (messages ms) s ≡ some (length (messages ms), s'))
      × (s'.log ≡ heard ms s.log)
      × Listening s' cap
unfolding wic_parse is_parsing is_opened stream_pos
wic_parse-messages app undef http cap ms s takes w fit few =
    let bytes = messages ms in
    let st = stream_init_ro bytes (length bytes) in
    let reading = stream_init_ro-Reading bytes few in
    let (s', st', run, at, log, w') =
      parse_loop-messages app undef cap takes ms (parse_fuel (length bytes)) s st w fit reading
        (omega (arith, rounds-messages ms)) in
    let all : st.size ≡ length bytes = unfold stream_init_ro in omega (arith, few) in
    (s', ground (arith, run, at, w.ready.opened, w'.ready.opened, all), log, w')
