-- ===== src/Tests/Server.antt =====
-- A client that reads the frames of a server, at concrete inputs.
use wic.Inst.{App}
use wic.Inst.Handlers.{call_buffer}
use wic.Send.{send_pong_with_payload}
use wic.Receive.Data.{would_block}
use wic.Receive.Keeps.{KeepsRx}
use wic.Parse.Consumes.{Willing, wic_parse_consumes}
use wic.Base.{none, ℕ, ◌≡◌, ◌⊎◌, refl, List, [], ◌∷◌, true, false, some, arith, codes, length}
use wic.Types.{Buffer, Opcode, State}
use wic.Inst.{Call, Sys}
use wic.Frame.{min_frame_size}
use wic.Frame.Layout.{encode}
use wic.Send.{data_frame}
use wic.Send.Wire.{masked_frame}
use wic.Close.{close_frame}
use wic.Receive.{is_defined_code}
use wic.Parse.{wic_parse}
use wic.Parse.Plain.{Ready, plain}
use wic.Parse.Pong.{wic_parse-ping}
use wic.Parse.Answer.{close_payload, wic_parse-close}
use wic.Parse.Refuse.{breaks, HasFailed, wic_parse_refused}
use wic.Tests.{quiet, no_http, open_client}
use wic.Tests.Peers.{quiet-Supplies, quiet-Watches, letter-IsText, watched_client}

open_client-Ready : Ready open_client 10
open_client-Ready = record {
  opened = refl;
  phase = refl;
  writable = refl;
  capacity = refl;
  held = omega arith;
  small = omega arith;
}

watched_client-Ready : Ready watched_client 10
watched_client-Ready = record {
  opened = refl;
  phase = refl;
  writable = refl;
  capacity = refl;
  held = omega arith;
  small = omega arith;
}

-- A client that wants to be told of pings.
abbrev pinged_client : Sys (Unit {0})
pinged_client = record open_client { self = record (open_client.self) { on_ping = true } }

wic_parse-ping_example :
    (mask : ℕ) × (before : List Call) × (s' : Sys (Unit {0})) × (wic_parse quiet
        (λ st. false)
        no_http
        (plain true Opcode.ping (codes "hi"))
        pinged_client
      ≡ some (length (plain true Opcode.ping (codes "hi")), s'))
    × (s'.log
        ≡ Call.pinged
          ∷ Call.send
              (encode (masked_frame (data_frame Opcode.pong Buffer.pong true (codes "hi")) mask))
              Buffer.pong
          ∷ Call.get_buffer (min_frame_size Opcode.pong true 2) Buffer.pong
          ∷ before)
    × ((before ≡ []) ⊎ (before ≡ Call.random ∷ []))
    × Ready s' 10
    × (s'.self.rx.frag ≡ Opcode.cont)
wic_parse-ping_example =
    wic_parse-ping quiet (λ st. false) no_http 200 10 (codes "hi") pinged_client quiet-Supplies
      (λ b t s. refl) (λ s. (refl, refl))
      (record {
        opened = refl;
        phase = refl;
        writable = refl;
        capacity = refl;
        held = omega arith;
        small = omega arith;
      })
      refl (omega arith) (omega arith) (omega arith) (unfold min_frame_size in omega arith)

wic_parse-close_example :
    let bytes = plain true Opcode.close (close_payload 1001 (codes "a")) in
    (mask : ℕ) × (before : List Call) × (s' : Sys (Unit {0})) × (wic_parse quiet
        (λ st. false)
        no_http
        bytes
        watched_client
      ≡ some (length bytes, s'))
    × (s'.self.state ≡ State.closed)
    × (s'.log
        ≡ Call.closed 1001 (codes "a")
          ∷ Call.close_transport
          ∷ Call.send
              (encode (masked_frame (close_frame 1001 (codes "a") Buffer.close_response) mask))
              Buffer.close_response
          ∷ Call.get_buffer (min_frame_size Opcode.close true 1) Buffer.close_response
          ∷ before)
    × ((before ≡ []) ⊎ (before ≡ Call.random ∷ []))
wic_parse-close_example =
    wic_parse-close quiet (λ st. false) no_http 200 10 1001 (codes "a") watched_client
      quiet-Supplies quiet-Watches watched_client-Ready refl refl refl
      (unfold is_defined_code in refl) (omega arith) letter-IsText (omega arith) (omega arith)
      (unfold min_frame_size in omega arith)

-- The first byte of a ping that is not final.
wic_parse_refused_example :
    (s' : Sys (Unit {0})) × (wic_parse quiet (λ st. false) no_http (9 ∷ 0 ∷ []) watched_client
      ≡ some (2, s'))
    × (wic_parse quiet (λ st. false) no_http (9 ∷ []) watched_client ≡ some (1, s'))
    × HasFailed quiet (λ st. false) watched_client s'
unfolding wic.Frame.byte_to_opcode
wic_parse_refused_example =
    wic_parse_refused quiet (λ st. false) no_http 200 10 9 (0 ∷ []) watched_client quiet-Supplies
      quiet-Watches watched_client-Ready refl refl refl (unfold min_frame_size in omega arith)
      (omega arith) (unfold breaks in refl) (omega arith)

-- An application with no buffer at all, so that a pong is too large rather than late.
abbrev pub shy : {W : Type 0} → App W
shy = record {
  on_message = λ e fin bytes s. (true, s);
  on_open = λ s. s;
  on_close = λ code reason s. s;
  on_close_transport = λ s. s;
  on_handshake_failure = λ f s. s;
  on_send = λ bytes type s. s;
  on_buffer = λ n type s. (none, 0, s);
  rand = λ s. (0, s);
  on_ping = λ s. s;
  on_pong = λ s. s;
}

pub shy-Willing : {W : Type 0} → Willing (shy {W = W})
unfolding would_block send_pong_with_payload wic.Send.send_frame wic.Close.put_masked_frame
    wic.Frame.stream_put_frame min_frame_size call_buffer wic.Close.is_success
shy-Willing {W} = record { takes = λ e fin b s. refl; pongs = λ b s. ground arith }

pub shy-KeepsRx : {W : Type 0} → KeepsRx (shy {W = W})
shy-KeepsRx {W} = record {
  message = λ e fin b s. refl;
  opened = λ s. refl;
  closed = λ c b s. refl;
  transport = λ s. refl;
  failure = λ f s. refl;
  sent = λ b t s. refl;
  buffer = λ n t s. refl;
  random = λ s. refl;
  pinged = λ s. refl;
  ponged = λ s. refl;
}

-- A ping, then the first byte of another frame.
wic_parse_consumes_example :
    (s' : Sys (Unit {0})) × (wic_parse shy (λ st. false) no_http (137 ∷ 0 ∷ 130 ∷ []) open_client
      ≡ some (3, s'))
wic_parse_consumes_example =
    wic_parse_consumes shy (λ st. false) no_http (137 ∷ 0 ∷ 130 ∷ []) open_client shy-Willing
      shy-KeepsRx (λ st. refl) refl (omega arith) (omega arith)
