-- ===== src/Send/Wire.antt =====
-- What sending hands to `on_send`.
use wic.Base.{
  ℕ, zero, suc, ◌+◌, ◌≤◌, ◌<◌, ◌≡◌, ◌⊎◌, refl, ap, ◌∙◌, Bool, true, some, List, ◌∷◌, arith, length,
  get_or, if◌then◌else◌,
}
use wic.Types.{Buffer, Encoding, Opcode, Role, State, Status}
use wic.Stream.{Stream, stream_init, written}
use wic.Utf8.{utf8_parse_string, utf8_is_complete, utf8_is_invalid}
use wic.Utf8.Text.{IsText}
use wic.Utf8.Scalars.{utf8_parse_string-IsText}
use wic.Send.Fragments.{begun}
use wic.Inst.{Call, Inst, Sys, App, send, get_buffer, random, note, with_inst}
use wic.Inst.Handlers.{call_rand, call_buffer, call_send}
use wic.Frame.{
  TxFrame, init_mask, bytes_of_u32, is_client, is_close, min_frame_size, fill_frame,
  stream_put_frame,
}
use wic.Frame.Layout.{AllBytes, IsSendable, encode, fill_frame-encode}
use wic.Close.{put_masked_frame, send_stream, is_success}
use wic.Send.{
  allowed_to_send, data_frame, send_frame, wic_send, wic_send_binary, wic_send_text, binary_opcode,
  text_opcode, is_opened, ready_client,
}

-- An application that hands out a buffer for any frame of up to `cap` bytes, and does nothing else
-- in the handlers that a send calls.
pub record Supplies {W : Type 0} (app : App W) (cap : ℕ) : Type 0 where
  pub memory : ℕ → Buffer → Sys W → List ℕ
  pub buffer :
      (n : ℕ) (t : Buffer) (s : Sys W)
      → n ≤ cap
      → ((app.on_buffer n t s).0 ≡ some (memory n t s))
        × (n ≤ length (memory n t s))
        × (n ≤ (app.on_buffer n t s).1)
  pub buffer_keeps :
      (n : ℕ) (t : Buffer) (s : Sys W)
      → ((app.on_buffer n t s).2.self ≡ s.self) × ((app.on_buffer n t s).2.log ≡ s.log)
  pub random_keeps : (s : Sys W) → ((app.rand s).1.self ≡ s.self) × ((app.rand s).1.log ≡ s.log)
  pub sent_keeps : (b : List ℕ) (t : Buffer) (s : Sys W) → (app.on_send b t s).log ≡ s.log

-- The frame as it is masked.
abbrev pub masked_frame : TxFrame → ℕ → TxFrame
masked_frame f r = record f { masked = true; mask = bytes_of_u32 r }

pub bytes_of_u32-lt : (r k : ℕ) → get_or (bytes_of_u32 r) k 0 < 256
unfolding bytes_of_u32
bytes_of_u32-lt r zero = omega arith
bytes_of_u32-lt r (suc zero) = omega arith
bytes_of_u32-lt r (suc (suc zero)) = omega arith
bytes_of_u32-lt r (suc (suc (suc zero))) = omega arith
bytes_of_u32-lt r (suc (suc (suc (suc k)))) = omega arith

pub masked_frame-IsSendable :
    (f : TxFrame) (r : ℕ)
    → AllBytes f.payload
    → f.code < 65536
    → length f.payload + (if is_close f.opcode then 2 else 0) < 65536
    → IsSendable (masked_frame f r)
unfolding bytes_of_u32 is_close
masked_frame-IsSendable f r hb hc lt = record {
  masked = refl;
  mask_size = refl;
  mask_bytes = bytes_of_u32-lt r;
  payload_bytes = hb;
  code_small = hc;
  content_small = ground arith;
}

module _ {W : Type 0} (app : App W) (cap : ℕ) (supplies : Supplies app cap) where
  open supplies use {memory}

  pub call_rand-keeps :
      (n : ℕ) (s : Sys W)
      → ((call_rand app n s).1.self ≡ s.self)
        × (((call_rand app n s).1.log ≡ s.log) ⊎ ((call_rand app n s).1.log ≡ random ∷ s.log))
  unfolding call_rand
  call_rand-keeps n s = ground (arith, supplies.random_keeps (note random s))

  -- The stream that a frame has been written to.
  abbrev pub filled : TxFrame → Sys W → Stream
  filled f s =
      let n = min_frame_size f.opcode true (length f.payload) in
      fill_frame f (length f.payload + (if is_close f.opcode then 2 else 0))
        (stream_init (memory n f.type (note (get_buffer n f.type) s)) n)

  stream_put_frame_lem :
      (f : TxFrame) (s : Sys W)
      → IsSendable f
      → let n = min_frame_size f.opcode true (length f.payload) in
        n ≤ cap
        → (stream_put_frame app f s
            ≡ (Status.success, some (filled f s), (call_buffer app n f.type s).2))
          × (written (filled f s) ≡ encode f)
  unfolding stream_put_frame call_buffer
  stream_put_frame_lem f s ok fits =
      let n : ℕ = min_frame_size f.opcode true (length f.payload) in
      let s1 = note (get_buffer n f.type) s in
      let given = supplies.buffer n f.type s1 fits in
      let wire = fill_frame-encode f (memory n f.type s1) ok given.1 in
      (ground (arith, ok.masked, given, wire), wire.0)

  -- The number that becomes the mask, and the system behind it.
  abbrev pub drawn : Sys W → ℕ × Sys W
  drawn s = call_rand app 0xaaaaaaaa s

  pub init_mask_client :
      (f : TxFrame) (s : Sys W)
      → s.self.role ≡ Role.client
      → init_mask app f s ≡ (masked_frame f (drawn s).0, (drawn s).1)
  unfolding init_mask is_client
  init_mask_client f s c = ground (arith, (call_rand-keeps 0xaaaaaaaa s).0, c)

  -- What has been called when `frame` is sent.
  abbrev pub sent_log : TxFrame → List Call → List Call
  sent_log f before =
      send (encode f) f.type
      ∷ get_buffer (min_frame_size f.opcode true (length f.payload)) f.type
      ∷ before

  pub call_send-log :
      (b : List ℕ) (t : Buffer) (s : Sys W) → (call_send app b t s).log ≡ send b t ∷ s.log
  unfolding call_send
  call_send-log b t s = supplies.sent_keeps b t (note (send b t) s)

  pub call_buffer-log :
      (n : ℕ) (t : Buffer) (s : Sys W) → (call_buffer app n t s).2.log ≡ get_buffer n t ∷ s.log
  unfolding call_buffer
  call_buffer-log n t s = (supplies.buffer_keeps n t (note (get_buffer n t) s)).1

  pub put_masked_frame_lem :
      (f : TxFrame) (s : Sys W)
      → s.self.role ≡ Role.client
      → IsSendable (masked_frame f (drawn s).0)
      → let n = min_frame_size f.opcode true (length f.payload) in
        n ≤ cap
        → (put_masked_frame app f s ≡ (
          Status.success,
          some (filled (masked_frame f (drawn s).0) (drawn s).1),
          (call_buffer app n f.type (drawn s).1).2,
        ))
          × (written (filled (masked_frame f (drawn s).0) (drawn s).1)
              ≡ encode (masked_frame f (drawn s).0))
  unfolding put_masked_frame
  put_masked_frame_lem f s c ok fits =
      let frame = masked_frame f (drawn s).0 in
      rw (init_mask_client f s c) (stream_put_frame_lem frame (drawn s).1 ok fits)

  pub send_frame_lem :
      (f : TxFrame) (commit : Inst → Inst) (s : Sys W)
      → s.self.role ≡ Role.client
      → IsSendable (masked_frame f (drawn s).0)
      → min_frame_size f.opcode true (length f.payload) ≤ cap
      → ((send_frame app f commit s).0 ≡ Status.success)
        × ((send_frame app f commit s).1.log
            ≡ sent_log (masked_frame f (drawn s).0) (drawn s).1.log)
  unfolding send_frame send_stream is_success
  send_frame_lem f commit s c ok fits =
      let n = min_frame_size f.opcode true (length f.payload) in
      let s2 = (call_buffer app n f.type (drawn s).1).2 in
      let put = put_masked_frame_lem f s c ok fits in
      let bytes = encode (masked_frame f (drawn s).0) in
      rw (put.0, put.1)
        (
          refl,
          call_send-log bytes f.type (with_inst s2 (commit s2.self))
              ∙ ap (◌∷◌ (send bytes f.type)) (call_buffer-log n f.type (drawn s).1),
        )

  pub allowed_to_send_open : (i : Inst) → i.state ≡ State.opened → allowed_to_send i ≡ (true, i)
  unfolding allowed_to_send ready_client is_opened
  allowed_to_send_open i o = elim i.role [
    | Role.client ↦ ground (arith, o)
    | Role.server ↦ ground (arith, o)
  ]

  abbrev pub commit_binary : Bool → Inst → Inst
  commit_binary fin i = record i { frag = if fin then Opcode.cont else Opcode.binary }

  pub wic_send_binary_first :
      (fin : Bool) (bytes : List ℕ) (s : Sys W)
      → s.self.state ≡ State.opened
      → s.self.frag ≡ Opcode.cont
      → wic_send_binary app fin bytes s
        ≡ send_frame app (data_frame Opcode.binary Buffer.user fin bytes) (commit_binary fin) s
  unfolding wic_send_binary binary_opcode
  wic_send_binary_first fin bytes s o fresh = ground (arith, allowed_to_send_open s.self o, fresh)

  abbrev pub commit_text : Bool → List ℕ → Inst → Inst
  commit_text fin bytes i = record i {
    utf8_tx = utf8_parse_string 0 bytes;
    frag = if fin then Opcode.cont else Opcode.text;
  }

  pub wic_send_text_first :
      (fin : Bool) (bytes : List ℕ) (s : Sys W)
      → s.self.state ≡ State.opened
      → s.self.frag ≡ Opcode.cont
      → utf8_is_complete (utf8_parse_string 0 bytes) ≡ true
      → wic_send_text app fin bytes s
        ≡ send_frame app (data_frame Opcode.text Buffer.user fin bytes) (commit_text fin bytes) s
  unfolding wic_send_text text_opcode utf8_is_complete utf8_is_invalid
  wic_send_text_first fin bytes s o fresh whole =
      ground (arith, allowed_to_send_open s.self o, fresh, whole)

-- The text of a message is UTF-8; anything may be in a binary one.
abbrev pub HasEncoding : Encoding → List ℕ → Type 0
HasEncoding Encoding.utf8 bytes = IsText bytes
HasEncoding Encoding.binary bytes = Unit

-- The frame of the first fragment of a message.
abbrev pub first_frame : Encoding → Bool → List ℕ → TxFrame
first_frame e fin bytes = data_frame (begun e) Buffer.user fin bytes

-- On an open client with no message under way, `wic_send` of a whole message, or of its first
-- fragment, that is at most 65535 bytes long and fits the buffer that the application hands out,
-- and is, as a text, well-formed UTF-8 on its own, succeeds. It asks for a buffer of the frame's
-- size and hands over, in one call of `on_send`, the encoding of the frame, masked by the four
-- bytes of the number that it drew.
pub wic_send_lem :
    {W : Type 0} (app : App W) (cap : ℕ) (e : Encoding) (fin : Bool) (bytes : List ℕ) (s : Sys W)
    → Supplies app cap
    → s.self.state ≡ State.opened
    → s.self.role ≡ Role.client
    → s.self.frag ≡ Opcode.cont
    → AllBytes bytes
    → HasEncoding e bytes
    → length bytes < 65536
    → min_frame_size (begun e) true (length bytes) ≤ cap
    → let (r, s1) = call_rand app 0xaaaaaaaa s in
      ((wic_send app e fin bytes s).0 ≡ Status.success)
      × ((wic_send app e fin bytes s).1.log
          ≡ send (encode (masked_frame (first_frame e fin bytes) r)) Buffer.user
            ∷ get_buffer (min_frame_size (begun e) true (length bytes)) Buffer.user
            ∷ s1.log)
      × ((s1.log ≡ s.log) ⊎ (s1.log ≡ random ∷ s.log))
unfolding wic_send is_close data_frame
wic_send_lem {W} app cap Encoding.binary fin bytes s supplies o c fresh hb text lt fits =
    let f = first_frame Encoding.binary fin bytes in
    let ok =
      masked_frame-IsSendable f (call_rand app 0xaaaaaaaa s).0 hb (omega arith) (omega arith) in
    let sent = send_frame_lem app cap supplies f (commit_binary app cap supplies fin) s c ok fits in
    let first = wic_send_binary_first app cap supplies fin bytes s o fresh in
    (
      ap (λ (r : Status × Sys W). r.0) first ∙ sent.0,
      ap (λ (r : Status × Sys W). r.1.log) first ∙ sent.1,
      (call_rand-keeps app cap supplies 0xaaaaaaaa s).1,
    )
wic_send_lem {W} app cap Encoding.utf8 fin bytes s supplies o c fresh hb text lt fits =
    let f = first_frame Encoding.utf8 fin bytes in
    let ok =
      masked_frame-IsSendable f (call_rand app 0xaaaaaaaa s).0 hb (omega arith) (omega arith) in
    let sent =
      send_frame_lem app cap supplies f (commit_text app cap supplies fin bytes) s c ok fits in
    let whole = (utf8_parse_string-IsText bytes hb).1 text in
    let first = wic_send_text_first app cap supplies fin bytes s o fresh whole in
    (
      ap (λ (r : Status × Sys W). r.0) first ∙ sent.0,
      ap (λ (r : Status × Sys W). r.1.log) first ∙ sent.1,
      (call_rand-keeps app cap supplies 0xaaaaaaaa s).1,
    )
