-- ===== src/Parse/Whole.antt =====
-- A whole masked binary frame through `wic_parse`.
use wic.Base.{
  ℕ, suc, ◌+◌, ◌*◌, ◌/◌, ◌%◌, ◌≤◌, ◌<◌, ◌≡◌, refl, ap, ◌∙◌, Bool, true, false, some, List, [], ◌∷◌,
  ◌++◌, arith, length, length-append, get_or, leb, if◌then◌else◌, Bool-cases, inl, inr,
}
use wic.Types.{Buffer, Encoding, Opcode, RxState, State}
use wic.Stream.{Stream, stream_init_ro, stream_pos}
use wic.Inst.{Sys, App, message}
use wic.Http.{HttpParser}
use wic.Send.{data_frame, is_opened}
use wic.Frame.{TxFrame, opcode_to_byte, is_close}
use wic.Frame.Layout.{AllBytes, encode, xor_mask, length-xor_mask}
use wic.Parse.{parse_fuel, is_parsing, wic_parse}
use wic.Parse.Input.{Reading, stream_get_u8-Reading, stream_init_ro-Reading}
use wic.Parse.Deliver.{Takes}
use wic.Parse.Header.{Awaiting, opcode_read, opcode_read-Started}
use wic.Parse.Masked.{
  next, Delivered, short_done, long_done, parse_loop_short, parse_loop_long, parse_loop_rest,
  parse_loop_start,
}

-- The frame of a binary message, masked.
abbrev pub masked_binary : Bool → List ℕ → List ℕ → TxFrame
masked_binary fin mask payload = record (data_frame Opcode.binary Buffer.user fin payload) {
  masked = true;
  mask = mask;
}

encode-short :
    (fin : Bool) (mask payload : List ℕ)
    → leb (length payload) 125 ≡ true
    → encode (masked_binary fin mask payload)
      ≡ (if fin then 130 else 2) ∷ (128 + length payload) ∷ (mask ++ xor_mask mask 0 payload)
unfolding encode data_frame opcode_to_byte is_close
encode-short true mask payload h = rw h refl
encode-short false mask payload h = rw h refl

encode-long :
    (fin : Bool) (mask payload : List ℕ)
    → leb (length payload) 125 ≡ false
    → encode (masked_binary fin mask payload)
      ≡ (if fin then 130 else 2)
        ∷ 254
        ∷ length payload / 256
        ∷ (length payload % 256)
        ∷ (mask ++ xor_mask mask 0 payload)
unfolding encode data_frame opcode_to_byte is_close
encode-long true mask payload h = rw h refl
encode-long false mask payload h = rw h refl

module _ {W : Type 0} (app : App W) (undef : Stream → Bool) (cap : ℕ) (fin : Bool)
    (never : (st : Stream) → undef st ≡ false) where
  parse_loop_frame :
      (a b c d p : ℕ) (payload bytes : List ℕ) (s : Sys W) (st : Stream)
      → Takes app
      → ((k : ℕ) → get_or (a ∷ b ∷ c ∷ d ∷ []) k 0 < 256)
      → AllBytes (p ∷ payload)
      → Awaiting s cap
      → bytes ≡ encode (masked_binary fin (a ∷ b ∷ c ∷ d ∷ []) (p ∷ payload))
      → Reading st bytes
      → length (p ∷ payload) ≤ cap
      → length (p ∷ payload) < 65536
      → Delivered app undef cap fin never (p ∷ payload) s (parse_fuel (length bytes)) st
  parse_loop_frame a b c d p payload bytes s st takes small hb w e r fits lt =
      let mask = a ∷ b ∷ c ∷ d ∷ [] in
      let n = length (p ∷ payload) in
      let rest = mask ++ xor_mask mask 0 (p ∷ payload) in
      let size = length-xor_mask mask 0 (p ∷ payload) in
      let s1 = opcode_read app undef cap fin s in
      let started = opcode_read-Started app undef cap fin s w in
      elim (Bool-cases (leb n 125)) [
        | inl short ↦
            let shape = e ∙ encode-short fin mask (p ∷ payload) short in
            let fuel : parse_fuel (length bytes) ≡ suc (suc (suc (suc (suc (suc (2 * n + 10)))))) =
              omega (arith, ap length shape, size) in
            let r0 = rw shape at r in
            let r1 = (stream_get_u8-Reading st (if fin then 130 else 2) ((128 + n) ∷ rest) r0).1 in
            let step =
              parse_loop_short app undef cap fin never n (suc (suc (suc (suc (2 * n + 10))))) s1
                (next st) rest started refl (ground (arith, short)) r1 in
            let done =
              parse_loop_rest app undef cap fin never a b c d p payload (2 * n + 10)
                (short_done app undef cap fin never n s1) (next (next st)) takes small step.2 step.1
                hb fits lt (omega arith) in
            rw fuel (
              parse_loop_start app undef cap fin never (p ∷ payload)
                (suc (suc (suc (suc (suc (2 * n + 10)))))) s st ((128 + n) ∷ rest) w r0
                (done.0, done.1, step.0 ∙ done.2, done.3, done.4, done.5, done.6))
        | inr long ↦
            let shape = e ∙ encode-long fin mask (p ∷ payload) long in
            let fuel : parse_fuel (length bytes)
                ≡ suc (suc (suc (suc (suc (suc (suc (suc (2 * n + 12)))))))) =
              omega (arith, ap length shape, size) in
            let r0 = rw shape at r in
            let tail = 254 ∷ n / 256 ∷ (n % 256) ∷ rest in
            let r1 = (stream_get_u8-Reading st (if fin then 130 else 2) tail r0).1 in
            let step =
              parse_loop_long app undef cap fin never (n / 256) (n % 256) n
                (suc (suc (suc (suc (2 * n + 12))))) s1 (next st) rest started refl (omega arith)
                (omega arith) (omega arith) r1 in
            let done =
              parse_loop_rest app undef cap fin never a b c d p payload (2 * n + 12)
                (long_done app undef cap fin never (n / 256) (n % 256) s1)
                (next (next (next (next st)))) takes small step.2 step.1 hb fits lt (omega arith) in
            rw fuel (
              parse_loop_start app undef cap fin never (p ∷ payload)
                (suc (suc (suc (suc (suc (suc (suc (2 * n + 12)))))))) s st tail w r0
                (done.0, done.1, step.0 ∙ done.2, done.3, done.4, done.5, done.6))
      ]

length-masked_binary :
    (fin : Bool) (mask payload : List ℕ)
    → length mask ≡ 4
    → length payload < 65536
    → length (encode (masked_binary fin mask payload)) < 4294967296
length-masked_binary fin mask payload m lt =
    let size = length-xor_mask mask 0 payload in
    let joined = length-append mask (xor_mask mask 0 payload) in
    elim (Bool-cases (leb (length payload) 125)) [
      | inl short ↦ rw (encode-short fin mask payload short) (omega (arith, size, joined))
      | inr long ↦ rw (encode-long fin mask payload long) (omega (arith, size, joined))
    ]

-- An open instance that awaits a frame, with no message under way and a receive buffer with room for
-- the payload, of one to 65535 bytes, reads the encoding of a masked binary frame whole: `on_message`,
-- which takes every message and changes nothing but the application's own state, gets the frame's payload
-- and `fin` in one call, and the next frame is awaited. The value that `parse_mask` does not set is taken
-- to be false.
pub wic_parse-encode :
    {W : Type 0} (app : App W) (undef : Stream → Bool) (http : HttpParser) (cap : ℕ) (fin : Bool)
    (a b c d p : ℕ) (payload : List ℕ) (s : Sys W)
    → Takes app
    → ((st : Stream) → undef st ≡ false)
    → ((k : ℕ) → get_or (a ∷ b ∷ c ∷ d ∷ []) k 0 < 256)
    → AllBytes (p ∷ payload)
    → Awaiting s cap
    → length (p ∷ payload) ≤ cap
    → length (p ∷ payload) < 65536
    → let bytes = encode (masked_binary fin (a ∷ b ∷ c ∷ d ∷ []) (p ∷ payload)) in
      (s' : Sys W) × (wic_parse app undef http bytes s ≡ some (length bytes, s'))
      × (s'.log ≡ message Encoding.binary fin (p ∷ payload) ∷ s.log)
      × (s'.self.rx.state ≡ RxState.opcode)
      × (s'.self.state ≡ State.opened)
unfolding wic_parse is_parsing is_opened stream_pos
wic_parse-encode app undef http cap fin a b c d p payload s takes never small hb w fits lt =
    let bytes = encode (masked_binary fin (a ∷ b ∷ c ∷ d ∷ []) (p ∷ payload)) in
    let few = length-masked_binary fin (a ∷ b ∷ c ∷ d ∷ []) (p ∷ payload) refl lt in
    let st = stream_init_ro bytes (length bytes) in
    let reading = stream_init_ro-Reading bytes few in
    let done =
      parse_loop_frame app undef cap fin never a b c d p payload bytes s st takes small hb w refl
        reading fits lt in
    let all : st.size ≡ length bytes = unfold stream_init_ro in omega (arith, few) in
    (done.0, ground (arith, done.2, done.3, done.6, w.opened, all), done.4, done.5, done.6)
