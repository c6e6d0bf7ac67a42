-- ===== src/Send/Calls.antt =====
-- The system that sending leaves behind.
use wic.Base.{ℕ, ◌≤◌, ◌<◌, ◌≡◌, refl, ◌∙◌, Bool, List, arith, length, true}
use wic.Types.{Encoding, Opcode, Role, State, Status}
use wic.Utf8.Scalars.{utf8_parse_string-IsText}
use wic.Inst.{Inst, Sys, App, with_inst}
use wic.Inst.Handlers.{call_rand, call_buffer, call_send}
use wic.Frame.{TxFrame, min_frame_size, is_close}
use wic.Frame.Layout.{AllBytes, IsSendable, encode}
use wic.Close.{send_stream, is_success}
use wic.Send.{send_frame, wic_send, data_frame}
use wic.Send.Fragments.{begun}
use wic.Send.Wire.{
  Supplies, masked_frame, masked_frame-IsSendable, put_masked_frame_lem, commit_binary, commit_text,
  wic_send_binary_first, wic_send_text_first, HasEncoding, first_frame,
}

module _ {W : Type 0} (app : App W) (cap : ℕ) (supplies : Supplies app cap) where
  -- What is left when the mask has been drawn and the buffer handed out.
  abbrev pub before_send : TxFrame → Sys W → Sys W
  before_send f s =
      let n = min_frame_size f.opcode true (length f.payload) in
      (call_buffer app n f.type (call_rand app 0xaaaaaaaa s).1).2

  -- The frame is handed to `on_send`, and nothing else follows.
  abbrev pub sent : TxFrame → (Inst → Inst) → Sys W → Sys W
  sent f commit s =
      let s2 = before_send f s in
      call_send app (encode (masked_frame f (call_rand app 0xaaaaaaaa s).0)) f.type
        (with_inst s2 (commit s2.self))

  pub send_frame-sent :
      (f : TxFrame) (commit : Inst → Inst) (s : Sys W)
      → s.self.role ≡ Role.client
      → IsSendable (masked_frame f (call_rand app 0xaaaaaaaa s).0)
      → min_frame_size f.opcode true (length f.payload) ≤ cap
      → send_frame app f commit s ≡ (Status.success, sent f commit s)
  unfolding send_frame send_stream is_success
  send_frame-sent f commit s c ok fits =
      let put = put_masked_frame_lem app cap supplies f s c ok fits in rw (put.0, put.1) refl

  -- The change that the first fragment of a message makes.
  abbrev pub commit_first : Encoding → Bool → List ℕ → Inst → Inst
  commit_first Encoding.binary fin bytes = commit_binary app cap supplies fin
  commit_first Encoding.utf8 fin bytes = commit_text app cap supplies fin bytes

  pub wic_send-sent :
      (e : Encoding) (fin : Bool) (bytes : List ℕ) (s : Sys W)
      → s.self.state ≡ State.opened
      → s.self.role ≡ Role.client
      → s.self.frag ≡ Opcode.cont
      → AllBytes bytes
      → HasEncoding e bytes
      → length bytes < 65536
      → min_frame_size (begun e) true (length bytes) ≤ cap
      → wic_send app e fin bytes s
        ≡ (Status.success, sent (first_frame e fin bytes) (commit_first e fin bytes) s)
  unfolding wic_send is_close data_frame
  wic_send-sent Encoding.binary fin bytes s o c fresh hb text lt fits =
      let f = first_frame Encoding.binary fin bytes in
      let ok =
        masked_frame-IsSendable f (call_rand app 0xaaaaaaaa s).0 hb (omega arith) (omega arith) in
      wic_send_binary_first app cap supplies fin bytes s o fresh
      ∙ send_frame-sent f (commit_binary app cap supplies fin) s c ok fits
  wic_send-sent Encoding.utf8 fin bytes s o c fresh hb text lt fits =
      let f = first_frame Encoding.utf8 fin bytes in
      let ok =
        masked_frame-IsSendable f (call_rand app 0xaaaaaaaa s).0 hb (omega arith) (omega arith) in
      let whole = (utf8_parse_string-IsText bytes hb).1 text in
      wic_send_text_first app cap supplies fin bytes s o fresh whole
      ∙ send_frame-sent f (commit_text app cap supplies fin bytes) s c ok fits
