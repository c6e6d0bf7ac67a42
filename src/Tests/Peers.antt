-- ===== src/Tests/Peers.antt =====
-- A client and its peer that exchange frames, at concrete inputs.
use wic.Base.{
  ℕ, ◌≡◌, ◌⊎◌, inl, refl, List, [], ◌∷◌, true, false, some, arith, codes, length, replicate,
}
use wic.Types.{Buffer, Encoding, Opcode, RxState, State, Status}
use wic.Inst.{Call, Sys}
use wic.Inst.Handlers.{call_rand}
use wic.Frame.{min_frame_size}
use wic.Frame.Layout.{encode}
use wic.Utf8.Text.{IsText, encode as encode_scalar}
use wic.Close.{close_frame, close_with_reason, is_local_code}
use wic.Close.Wire.{Watches, close_with_reason_lem}
use wic.Send.{wic_send}
use wic.Send.Wire.{Supplies, masked_frame, first_frame, wic_send_lem}
use wic.Parse.{wic_parse}
use wic.Parse.Header.{Awaiting}
use wic.Parse.Whole.{masked_binary, wic_parse-encode}
use wic.Parse.Exchange.{wic_parse-wic_send}
use wic.Tests.{quiet, no_http, open_client, small_mask}

pub quiet-Supplies : Supplies quiet 200
quiet-Supplies = record {
  memory = λ n t s. replicate 200 0;
  buffer = λ n t s h. (refl, h, h);
  buffer_keeps = λ n t s. (refl, refl);
  random_keeps = λ s. (refl, refl);
  sent_keeps = λ b t s. refl;
}

pub quiet-Watches : Watches quiet
quiet-Watches = record {
  sent = λ b t s. refl;
  transport = λ s. (refl, refl);
  closing = λ c b s. (refl, refl);
}

open_client-Awaiting : Awaiting open_client 10
open_client-Awaiting = record {
  opened = refl;
  phase = refl;
  fresh = refl;
  handler = refl;
  writable = refl;
  capacity = refl;
  held = omega arith;
  small = omega arith;
  mask_size = refl;
}

wic_parse-encode_example :
    let bytes = encode (masked_binary false (1 ∷ 2 ∷ 3 ∷ 4 ∷ []) (codes "hi")) in
    (s' : Sys (Unit {0})) × (wic_parse quiet (λ st. false) no_http bytes open_client
      ≡ some (length bytes, s'))
    × (s'.log ≡ Call.message Encoding.binary false (codes "hi") ∷ [])
    × (s'.self.rx.state ≡ RxState.opcode)
    × (s'.self.state ≡ State.opened)
wic_parse-encode_example =
    wic_parse-encode quiet (λ st. false) no_http 10 false 1 2 3 4 b'h' (b'i' ∷ []) open_client
      (λ e fin b s. s.world, λ e fin b s. refl) (λ st. refl) small_mask (omega arith)
      open_client-Awaiting (omega arith) (omega arith)

pub letter-IsText : IsText (codes "a")
unfolding encode_scalar
letter-IsText = IsText.cons b'a' (inl (omega arith)) refl IsText.nil

wic_send_lem_example :
    let (r, s1) = call_rand quiet 0xaaaaaaaa open_client in
    ((wic_send quiet Encoding.utf8 true (codes "a") open_client).0 ≡ Status.success)
    × ((wic_send quiet Encoding.utf8 true (codes "a") open_client).1.log
        ≡ Call.send
            (encode (masked_frame (first_frame Encoding.utf8 true (codes "a")) r))
            Buffer.user
          ∷ Call.get_buffer (min_frame_size Opcode.text true 1) Buffer.user
          ∷ s1.log)
    × ((s1.log ≡ []) ⊎ (s1.log ≡ Call.random ∷ []))
wic_send_lem_example =
    wic_send_lem quiet 200 Encoding.utf8 true (codes "a") open_client quiet-Supplies refl refl refl
      (omega arith) letter-IsText (omega arith) (unfold min_frame_size in omega arith)

wic_parse-wic_send_example :
    (wire : List ℕ) × (before : List Call) × (t' : Sys (Unit {0})) × ((wic_send quiet
        Encoding.binary true
        (codes "hi")
        open_client).0
      ≡ Status.success)
    × ((wic_send quiet Encoding.binary true (codes "hi") open_client).1.log
        ≡ Call.send wire Buffer.user ∷ before)
    × (wic_parse quiet (λ st. false) no_http wire open_client ≡ some (length wire, t'))
    × (t'.log ≡ Call.message Encoding.binary true (codes "hi") ∷ [])
    × (t'.self.rx.state ≡ RxState.opcode)
wic_parse-wic_send_example =
    wic_parse-wic_send quiet quiet (λ st. false) no_http 200 10 true b'h' (b'i' ∷ []) open_client
      open_client quiet-Supplies refl refl refl (unfold min_frame_size in omega arith)
      (λ e fin b s. s.world, λ e fin b s. refl) (λ st. refl) open_client-Awaiting (omega arith)
      (omega arith) (omega arith)

-- A client that wants to be told of the closing.
abbrev pub watched_client : Sys (Unit {0})
watched_client = record open_client {
  self = record (open_client.self) { on_close = true; on_close_transport = true };
}

close_with_reason_lem_example :
    let s' = close_with_reason quiet 1000 (codes "a") Buffer.close watched_client in
    let closing = record watched_client {
      self = record (watched_client.self) { state = State.closed };
    } in
    let (r, s1) = call_rand quiet 0xaaaaaaaa closing in
    (s'.self.state ≡ State.closed)
    × (s'.log
        ≡ Call.closed 1000 (codes "a")
          ∷ Call.close_transport
          ∷ Call.send
              (encode (masked_frame (close_frame 1000 (codes "a") Buffer.close) r))
              Buffer.close
          ∷ Call.get_buffer (min_frame_size Opcode.close true 1) Buffer.close
          ∷ s1.log)
    × ((s1.log ≡ []) ⊎ (s1.log ≡ Call.random ∷ []))
close_with_reason_lem_example =
    close_with_reason_lem quiet 200 1000 (codes "a") Buffer.close watched_client quiet-Supplies
      quiet-Watches refl refl refl refl (unfold is_local_code in refl) (omega arith) (omega arith)
      letter-IsText (omega arith) (unfold min_frame_size in omega arith)
