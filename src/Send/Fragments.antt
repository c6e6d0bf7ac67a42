-- ===== src/Send/Fragments.antt =====
-- The fragments of a message: how `wic_send` keeps them in order.
use wic.Base.{
  ℕ, ◌≡◌, ◌≢◌, ◌⊎◌, inl, inr, refl, Bool, true, false, Option, none, some, List, arith,
  if◌then◌else◌,
}
use wic.Types.{Buffer, Encoding, Opcode, Status}
use wic.Stream.{Stream}
use wic.Utf8.{utf8_parse_string, utf8_is_complete, utf8_is_invalid}
use wic.Inst.{Inst, Sys, App, with_inst}
use wic.Inst.Handlers.{call_send, call_buffer, call_rand}
use wic.Frame.{TxFrame, init_mask, stream_put_frame}
use wic.Close.{put_masked_frame, send_stream, is_success}
use wic.Send.{
  allowed_to_send, send_frame, data_frame, binary_opcode, text_opcode, wic_send, wic_send_binary,
  wic_send_text,
}

-- What `wic_send` remembers between fragments: the kind of the message, and the text so far.
abbrev pub progress : {W : Type 0} → Sys W → Opcode × ℕ
progress s = (s.self.frag, s.self.utf8_tx)

-- Handlers that do not send further fragments from within a send.
pub record KeepsProgress {W : Type 0} (app : App W) : Type 0 where
  pub sent : (b : List ℕ) (t : Buffer) (s : Sys W) → progress (app.on_send b t s) ≡ progress s
  pub buffer : (n : ℕ) (t : Buffer) (s : Sys W) → progress (app.on_buffer n t s).2 ≡ progress s
  pub random : (s : Sys W) → progress (app.rand s).1 ≡ progress s

-- The opcode of the first fragment.
abbrev pub begun : Encoding → Opcode
begun Encoding.utf8 = Opcode.text
begun Encoding.binary = Opcode.binary

-- The outcome of a send: a fragment of the message under way, or nothing.
abbrev pub Sent : {W : Type 0} → Encoding → Bool → Sys W → Status × Sys W → Type 0
Sent e fin s r =
    (r.0 ≡ Status.success)
      × ((s.self.frag ≡ Opcode.cont) ⊎ (s.self.frag ≡ begun e))
      × (r.1.self.frag ≡ (if fin then Opcode.cont else begun e))
    ⊎ (r.0 ≢ Status.success) × (progress r.1 ≡ progress s)

-- The state that the text of a fragment is checked from.
abbrev pub text_start : Opcode × ℕ → ℕ
text_start (Opcode.text, u) = u
text_start _ = 0

-- Besides, for text: what is sent is UTF-8 as far as it goes, and to its end in the last fragment.
abbrev pub SentText : {W : Type 0} → Bool → List ℕ → Sys W → Status × Sys W → Type 0
SentText fin bytes s r =
    (r.0 ≡ Status.success)
      × (r.1.self.utf8_tx ≡ utf8_parse_string (text_start (progress s)) bytes)
      × (utf8_is_invalid r.1.self.utf8_tx ≡ false)
      × ((fin ≡ true) → utf8_is_complete r.1.self.utf8_tx ≡ true)
    ⊎ (r.0 ≢ Status.success)

module _ {W : Type 0} (app : App W) (keeps : KeepsProgress app) where
  put_masked_frame-progress :
      (f : TxFrame) (s : Sys W) → progress (put_masked_frame app f s).2 ≡ progress s
  unfolding put_masked_frame init_mask stream_put_frame call_buffer call_rand
  put_masked_frame-progress f s = grind (arith, keeps.buffer, keeps.random)

  send_stream-progress :
      (tx : Option Stream) (t : Buffer) (s : Sys W) → progress (send_stream app tx t s) ≡ progress s
  unfolding send_stream call_send
  send_stream-progress none t s = refl
  send_stream-progress (some tx) t s = keeps.sent _ _ _

  -- A frame that is sent commits, one that is not leaves the progress.
  send_frame-progress :
      (f : TxFrame) (commit : Inst → Inst) (s : Sys W)
      → let (status, s') = send_frame app f commit s in
        (status ≡ Status.success)
          × (progress s' ≡ (
            (commit (put_masked_frame app f s).2.self).frag,
            (commit (put_masked_frame app f s).2.self).utf8_tx,
          ))
        ⊎ (status ≢ Status.success) × (progress s' ≡ progress s)
  unfolding send_frame is_success
  send_frame-progress f commit s = ground (
    arith,
    put_masked_frame-progress f s,
    send_stream-progress (put_masked_frame app f s).1 f.type
        (with_inst (put_masked_frame app f s).2 (commit (put_masked_frame app f s).2.self)),
  )

  allowed_to_send-progress :
      (s : Sys W) → progress (with_inst s (allowed_to_send s.self).1) ≡ progress s
  unfolding allowed_to_send
  allowed_to_send-progress s = ground arith

  binary_opcode_begun :
      (o : Opcode)
      → (binary_opcode o ≡ none)
        ⊎ (o ≡ Opcode.cont) × (binary_opcode o ≡ some Opcode.binary)
        ⊎ (o ≡ Opcode.binary) × (binary_opcode o ≡ some Opcode.cont)
  unfolding binary_opcode
  binary_opcode_begun Opcode.cont = inr (inl (refl, refl))
  binary_opcode_begun Opcode.binary = inr (inr (refl, refl))
  binary_opcode_begun _ = inl refl

  wic_send_binary-Sent :
      (fin : Bool) (bytes : List ℕ) (s : Sys W)
      → Sent Encoding.binary fin s (wic_send_binary app fin bytes s)
  unfolding wic_send_binary
  wic_send_binary-Sent fin bytes s =
      let s1 = with_inst s (allowed_to_send s.self).1 in
      let sending = λ (o : Opcode).
        send_frame-progress (data_frame o Buffer.user fin bytes)
          (λ (i : Inst). record i { frag = if fin then Opcode.cont else Opcode.binary }) s1 in
      ground (
        arith,
        allowed_to_send-progress s,
        binary_opcode_begun s1.self.frag,
        sending Opcode.cont,
        sending Opcode.binary,
      )

  text_opcode_begun :
      (o : Opcode) (u : ℕ)
      → (text_opcode o u ≡ none)
        ⊎ (o ≡ Opcode.cont) × (text_opcode o u ≡ some (Opcode.text, text_start (o, u)))
        ⊎ (o ≡ Opcode.text) × (text_opcode o u ≡ some (Opcode.cont, text_start (o, u)))
  unfolding text_opcode
  text_opcode_begun Opcode.cont u = inr (inl (refl, refl))
  text_opcode_begun Opcode.text u = inr (inr (refl, refl))
  text_opcode_begun _ u = inl refl

  pub wic_send_text-Sent :
      (fin : Bool) (bytes : List ℕ) (s : Sys W)
      → Sent Encoding.utf8 fin s (wic_send_text app fin bytes s)
        × SentText fin bytes s (wic_send_text app fin bytes s)
  unfolding wic_send_text
  wic_send_text-Sent fin bytes s =
      let s1 = with_inst s (allowed_to_send s.self).1 in
      let state = utf8_parse_string (text_start (progress s1)) bytes in
      let sending = λ (o : Opcode).
        send_frame-progress (data_frame o Buffer.user fin bytes)
          (λ (i : Inst). record i {
            utf8_tx = state;
            frag = if fin then Opcode.cont else Opcode.text;
          })
          s1 in
      ground (
        arith,
        allowed_to_send-progress s,
        text_opcode_begun s1.self.frag s1.self.utf8_tx,
        sending Opcode.cont,
        sending Opcode.text,
      )

  -- With handlers that do not send further fragments from within a send, each send of a message's
  -- fragment has one of two outcomes. It succeeds: then no message was under way, or one of the
  -- same encoding, and one is under way after it unless the fragment is the last. Or it fails, and
  -- the progress is as it was.
  pub wic_send-Sent :
      (e : Encoding) (fin : Bool) (bytes : List ℕ) (s : Sys W)
      → Sent e fin s (wic_send app e fin bytes s)
  unfolding wic_send
  wic_send-Sent Encoding.utf8 fin bytes s = (wic_send_text-Sent fin bytes s).0
  wic_send-Sent Encoding.binary fin bytes s = wic_send_binary-Sent fin bytes s
