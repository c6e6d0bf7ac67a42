-- ===== src/Examples/Echo.antt =====
-- What the client of examples/autobahn/client.c does with a message of the server.
use wic.Base.{
  ℕ, ◌≤◌, ◌<◌, ◌≡◌, refl, ap, ◌∙◌, Bool, true, false, some, List, ◌++◌, arith, length,
  length-replicate, replicate,
}
use wic.Types.{Encoding, Opcode, Role, RxState, State}
use wic.Stream.{Stream}
use wic.Utf8.{utf8_is_complete}
use wic.Inst.{Inst, Sys, App, RxFrame, note, message}
use wic.Inst.Handlers.{call_message, call_rand, call_buffer, call_send}
use wic.Http.{HttpParser}
use wic.Frame.{min_frame_size, is_close}
use wic.Frame.Layout.{AllBytes, encode}
use wic.Send.{is_opened}
use wic.Send.Fragments.{begun}
use wic.Send.Wire.{Supplies, HasEncoding, masked_frame, first_frame}
use wic.Send.Calls.{sent, commit_first, wic_send-sent}
use wic.Receive.{message_opcode, is_cont, set_rx}
use wic.Receive.Data.{finish_data, finish_frame, finish_binary, finish_text, offer}
use wic.Parse.{wic_parse}
use wic.Parse.Load.{Loading, Loading-utf8, received-Loading}
use wic.Parse.Plain.{plain, admits, allows, first_utf8}
use wic.Parse.Messages.{passes_message, Listening}
use wic.Parse.Single.{wic_parse-plain, resumed-Ready}
use wic.Examples.Transport.{Sockets, Program, transport_write}
use wic.Examples.Write.{IsWriter, NeverFails, transport_write_all}
use wic.Examples.Autobahn.{tx_size, on_send, on_buffer, do_random, sending, on_message, echoing}

-- A message that `on_message` takes, whatever else it does: the end of its frame.
module _ {W : Type 0} (app : App W) where
  -- The frame of a message is read up to its end.
  read_message :
      (undef : Stream → Bool) (http : HttpParser) (e : Encoding) (cap : ℕ) (bytes : List ℕ)
      (s : Sys W)
      → Listening s cap
      → AllBytes bytes
      → HasEncoding e bytes
      → length bytes ≤ cap
      → length bytes < 65536
      → let wire = plain true (begun e) bytes in
        (rx : RxFrame) × Loading rx (begun e) cap bytes 0 0
        × (rx.fin ≡ true)
        × ((s' : Sys W)
            → finish_data app false (set_rx app s rx) ≡ (false, s')
            → s'.self.rx.state ≡ RxState.opcode
            → wic_parse app undef http wire s ≡ some (length wire, s'))
  unfolding admits allows first_utf8 is_cont message_opcode
  read_message undef http Encoding.binary cap bytes s w hb text room lt =
      let (ok, whole) = passes_message Encoding.binary bytes hb text in
      let (rx, l, fin, run) =
        wic_parse-plain app undef http cap true Opcode.binary bytes s w.ready (rw w.fresh refl) refl
          lt room hb ok in
      (rx, Loading-utf8 l whole, fin.0, run)
  read_message undef http Encoding.utf8 cap bytes s w hb text room lt =
      let (ok, whole) = passes_message Encoding.utf8 bytes hb text in
      let (rx, l, fin, run) =
        wic_parse-plain app undef http cap true Opcode.text bytes s w.ready (rw w.fresh refl) refl
          lt room hb ok in
      (rx, Loading-utf8 l whole, fin.0, run)

  finish_data_taken :
      (e : Encoding) (cap u : ℕ) (bytes : List ℕ) (s s1 : Sys W)
      → s.self.state ≡ State.opened
      → Loading s.self.rx (begun e) cap bytes 0 u
      → s.self.rx.fin ≡ true
      → u ≡ 0
      → offer app e true s ≡ (false, s1)
      → s1.self.rx.fin ≡ true
      → finish_data app false s ≡ (
        false,
        set_rx app s1 (record (s1.self.rx) { frag = Opcode.cont; state = RxState.opcode }),
      )
  unfolding finish_data finish_frame finish_binary finish_text is_opened utf8_is_complete
  finish_data_taken Encoding.binary cap u bytes s s1 o l fin whole taken fin' =
      ground (arith, taken, l.size, l.kind, o, fin, fin')
  finish_data_taken Encoding.utf8 cap u bytes s s1 o l fin whole taken fin' =
      ground (arith, taken, l.size, l.kind, l.utf8, whole, o, fin, fin')

min_frame_size-begun :
    (e : Encoding) (n : ℕ) → n < 65536 → min_frame_size (begun e) true n ≤ tx_size
unfolding min_frame_size is_close
min_frame_size-begun Encoding.binary n h = ground arith
min_frame_size-begun Encoding.utf8 n h = ground arith

module _ {N : Type 0} (sockets : Sockets N) (atoi : List ℕ → ℕ) where
  sending-Supplies : Supplies (sending sockets atoi) tx_size
  unfolding on_send on_buffer do_random
  sending-Supplies = record {
    memory = λ n t s. replicate tx_size 0;
    buffer =
        λ n t s h. (ground (arith, h), omega (arith, h, length-replicate {A = ℕ} tx_size 0), h);
    buffer_keeps = λ n t s. (refl, refl);
    random_keeps = λ s. (refl, refl);
    sent_keeps = λ b t s. refl;
  }

  -- The message goes back in one frame.
  abbrev echoed : Encoding → List ℕ → Sys (Program N) → Sys (Program N)
  echoed e bytes s =
      sent (sending sockets atoi) tx_size sending-Supplies (first_frame e true bytes)
        (commit_first (sending sockets atoi) tx_size sending-Supplies e true bytes) s

  on_message-echoed :
      (e : Encoding) (bytes : List ℕ) (s : Sys (Program N))
      → s.self.state ≡ State.opened
      → s.self.role ≡ Role.client
      → s.self.frag ≡ Opcode.cont
      → AllBytes bytes
      → HasEncoding e bytes
      → length bytes < 65536
      → on_message sockets atoi e true bytes s ≡ (true, echoed e bytes s)
  unfolding on_message
  on_message-echoed e bytes s o c fresh hb text lt =
      let done =
        wic_send-sent (sending sockets atoi) tx_size sending-Supplies e true bytes s o c fresh hb
          text lt (min_frame_size-begun e (length bytes) lt) in
      rw done refl

  offer-echoed :
      (e : Encoding) (cap u : ℕ) (bytes : List ℕ) (s : Sys (Program N))
      → Loading s.self.rx (begun e) cap bytes 0 u
      → s.self.on_message ≡ true
      → s.self.state ≡ State.opened
      → s.self.role ≡ Role.client
      → s.self.frag ≡ Opcode.cont
      → AllBytes bytes
      → HasEncoding e bytes
      → length bytes < 65536
      → offer (echoing sockets atoi) e true s
        ≡ (false, echoed e bytes (note (message e true bytes) s))
  unfolding offer call_message
  offer-echoed e cap u bytes s l handler o c fresh hb text lt =
      let s1 = note (message e true bytes) s in
      rw (received-Loading (begun e) cap 0 u bytes s.self.rx l lt)
        (ground (arith, handler, on_message-echoed e bytes s1 o c fresh hb text lt))

  module _ (written : N → List ℕ) (writer : IsWriter sockets written) where
    call_rand-written :
        (n : ℕ) (s : Sys (Program N))
        → let s' = (call_rand (sending sockets atoi) n s).1 in
          (s'.self ≡ s.self)
          × (s'.world.s ≡ s.world.s)
          × (written s'.world.net ≡ written s.world.net)
    unfolding call_rand do_random
    call_rand-written n s = ground (arith, writer.draws s.world.net)

    -- Drawing the mask writes nothing.
    transport_write_drawn :
        (bytes : List ℕ) (s : Sys (Program N))
        → NeverFails sockets s.world.s
        → let s' = (call_rand (sending sockets atoi) 0xaaaaaaaa s).1 in
          written (transport_write sockets s'.world.s bytes s'.world.net)
          ≡ written s.world.net ++ bytes
    transport_write_drawn bytes s sure =
        let s' = (call_rand (sending sockets atoi) 0xaaaaaaaa s).1 in
        let drawn = call_rand-written 0xaaaaaaaa s in
        transport_write_all sockets written writer s'.world.s bytes s'.world.net (rw drawn.1 sure)
        ∙ ap (λ (xs : List ℕ). xs ++ bytes) drawn.2

    -- The frame goes into the socket whole, and the receiver is left alone.
    echoed-written :
        (e : Encoding) (bytes : List ℕ) (s : Sys (Program N))
        → NeverFails sockets s.world.s
        → let frame =
            masked_frame
              (first_frame e true bytes)
              (call_rand (sending sockets atoi) 0xaaaaaaaa s).0 in
          let s' = echoed e bytes s in
          (written s'.world.net ≡ written s.world.net ++ encode frame)
          × (s'.self.rx ≡ s.self.rx)
          × (s'.self.state ≡ s.self.state)
          × (s'.self.on_message ≡ s.self.on_message)
          × (s'.self.frag ≡ Opcode.cont)
    unfolding call_send call_buffer on_send on_buffer
    echoed-written Encoding.binary bytes s sure =
        let same = (call_rand-written 0xaaaaaaaa s).0 in
        (
          transport_write_drawn _ s sure,
          ap (λ (i : Inst). i.rx) same,
          ap (λ (i : Inst). i.state) same,
          ap (λ (i : Inst). i.on_message) same,
          refl,
        )
    echoed-written Encoding.utf8 bytes s sure =
        let same = (call_rand-written 0xaaaaaaaa s).0 in
        (
          transport_write_drawn _ s sure,
          ap (λ (i : Inst). i.rx) same,
          ap (λ (i : Inst). i.state) same,
          ap (λ (i : Inst). i.on_message) same,
          refl,
        )

-- A whole message of the server, in one frame that is not masked and fits the receive buffer of the
-- client of examples/autobahn/client.c, which is open with no message under way and whose writes do
-- not fail: it is consumed whole, and what goes into the socket is one frame with the same kind and
-- bytes, masked; the client is as ready for the next message as before.
pub wic_parse-echoed :
    {N : Type 0} (sockets : Sockets N) (atoi : List ℕ → ℕ) (written : N → List ℕ)
    (undef : Stream → Bool) (http : HttpParser) (cap : ℕ) (e : Encoding) (bytes : List ℕ)
    (s : Sys (Program N))
    → IsWriter sockets written
    → NeverFails sockets s.world.s
    → Listening s cap
    → s.self.role ≡ Role.client
    → s.self.frag ≡ Opcode.cont
    → AllBytes bytes
    → HasEncoding e bytes
    → length bytes ≤ cap
    → length bytes < 65536
    → let wire = plain true (begun e) bytes in
      (mask : ℕ) × (s' : Sys (Program N)) × (wic_parse (echoing sockets atoi) undef http wire s
        ≡ some (length wire, s'))
      × (written s'.world.net
          ≡ written s.world.net ++ encode (masked_frame (first_frame e true bytes) mask))
      × Listening s' cap
      × (s'.self.frag ≡ Opcode.cont)
wic_parse-echoed sockets atoi written undef http cap e bytes s writer sure w c fresh hb text room
      lt =
    let app = echoing sockets atoi in
    let (rx, l, fin, run) = read_message app undef http e cap bytes s w hb text room lt in
    let s0 = set_rx app s rx in
    let noted = note (message e true bytes) s0 in
    let offered =
      offer-echoed sockets atoi e cap 0 bytes s0 l w.handler w.ready.opened c fresh hb text lt in
    let (now, same_rx, same_state, same_handler, last) =
      echoed-written sockets atoi written writer e bytes noted sure in
    let s1 = echoed sockets atoi e bytes noted in
    let done =
      finish_data_taken app e cap 0 bytes s0 s1 w.ready.opened l fin refl offered
        (ap (λ (r : RxFrame). r.fin) same_rx ∙ fin) in
    let s' = set_rx app s1 (record (s1.self.rx) { frag = Opcode.cont; state = RxState.opcode }) in
    (
      _,
      s',
      run s' done refl,
      now,
      record {
        ready =
            resumed-Ready app undef http cap (begun e) 0 Opcode.cont bytes rx s1
              (same_state ∙ w.ready.opened) l same_rx;
        fresh = refl;
        handler = same_handler ∙ w.handler;
      },
      last,
    )
