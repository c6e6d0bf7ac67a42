-- ===== src/Parse/Exchange.antt =====
-- From `wic_send` of one instance to `on_message` of another.
use wic.Base.{ℕ, ◌/◌, ◌%◌, ◌≤◌, ◌<◌, ◌≡◌, Bool, true, false, some, List, ◌∷◌, length}
use wic.Types.{Buffer, Encoding, Opcode, Role, RxState, State, Status}
use wic.Stream.{Stream}
use wic.Inst.{Call, Sys, App}
use wic.Inst.Handlers.{call_rand}
use wic.Http.{HttpParser}
use wic.Frame.{bytes_of_u32, min_frame_size}
use wic.Frame.Layout.{AllBytes, encode}
use wic.Send.{wic_send, data_frame}
use wic.Send.Wire.{Supplies, masked_frame, first_frame, bytes_of_u32-lt, wic_send_lem}
use wic.Parse.{wic_parse}
use wic.Parse.Deliver.{Takes}
use wic.Parse.Header.{Awaiting}
use wic.Parse.Whole.{wic_parse-encode}

-- A binary message that an open client sends reaches the application of the other side: the bytes
-- that `wic_send` hands to `on_send` are one frame; an instance that awaits a frame and has room for
-- the payload consumes it whole in one `wic_parse`, and its `on_message` gets the same payload. The sender
-- has no message under way and its application hands out a buffer for the frame; the payload has one to
-- 65535 bytes. The receiver's `on_message` takes every message and changes nothing but the application's
-- own state, and the value that `parse_mask` does not set is taken to be false.
pub wic_parse-wic_send :
    {W V : Type 0} (sender : App W) (receiver : App V) (undef : Stream → Bool) (http : HttpParser)
    (out_cap in_cap : ℕ) (fin : Bool) (p : ℕ) (payload : List ℕ) (s : Sys W) (t : Sys V)
    → Supplies sender out_cap
    → s.self.state ≡ State.opened
    → s.self.role ≡ Role.client
    → s.self.frag ≡ Opcode.cont
    → min_frame_size Opcode.binary true (length (p ∷ payload)) ≤ out_cap
    → Takes receiver
    → ((st : Stream) → undef st ≡ false)
    → Awaiting t in_cap
    → AllBytes (p ∷ payload)
    → length (p ∷ payload) ≤ in_cap
    → length (p ∷ payload) < 65536
    → (wire : List ℕ) × (before : List Call) × (t' : Sys V) × ((wic_send sender Encoding.binary fin
          (p ∷ payload)
          s).0
        ≡ Status.success)
      × ((wic_send sender Encoding.binary fin (p ∷ payload) s).1.log
          ≡ Call.send wire Buffer.user ∷ before)
      × (wic_parse receiver undef http wire t ≡ some (length wire, t'))
      × (t'.log ≡ Call.message Encoding.binary fin (p ∷ payload) ∷ t.log)
      × (t'.self.rx.state ≡ RxState.opcode)
unfolding bytes_of_u32 data_frame
wic_parse-wic_send sender receiver undef http out_cap in_cap fin p payload s t supplies o c fresh
      fits takes never w hb room lt =
    let r = (call_rand sender 0xaaaaaaaa s).0 in
    let sent =
      wic_send_lem sender out_cap Encoding.binary fin (p ∷ payload) s supplies o c fresh hb tt lt
        fits in
    let got =
      wic_parse-encode receiver undef http in_cap fin (r % 256) (r / 256 % 256) (r / 65536 % 256)
        (r / 16777216 % 256) p payload t takes never (bytes_of_u32-lt r) hb w room lt in
    (
      encode (masked_frame (first_frame Encoding.binary fin (p ∷ payload)) r),
      _,
      got.0,
      sent.0,
      sent.1,
      got.1,
      got.2,
      got.3,
    )
