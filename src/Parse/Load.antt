-- ===== src/Parse/Load.antt =====
-- The bytes of the payload of a frame that is not masked, stored and checked one by one.
use wic.Base.{
  u16, ℕ, suc, ◌+◌, ◌-◌, ◌≤◌, ◌<◌, ◌≡◌, refl, ap, ◌∙◌, Bool, true, false, not, ◌&&◌, List, [], ◌∷◌,
  ◌++◌, arith, if◌then◌else◌, length, ltb,
}
use wic.Types.{Opcode, RxState}
use wic.Stream.{stream_put_u8, written}
use wic.Stream.Laws.{Holds}
use wic.Utf8.{utf8_parse, utf8_is_invalid}
use wic.Inst.{RxFrame}
use wic.Frame.Layout.{put_u8-Holds}
use wic.Receive.{message_opcode}
use wic.Receive.Data.{received, store_byte}

-- The state of the text automaton behind the `k`th byte of a payload: a close frame's reason begins
-- with the third.
unfoldable pub next_utf8 : Opcode → ℕ → ℕ → ℕ → ℕ
next_utf8 Opcode.text k u b = utf8_parse u b
next_utf8 Opcode.close k u b = if ltb 2 k then utf8_parse u b else u
next_utf8 _ k u b = u

-- The byte is refused.
unfoldable pub fails : Opcode → ℕ → ℕ → ℕ → Bool
fails Opcode.text k u b = utf8_is_invalid (utf8_parse u b)
fails Opcode.close k u b = ltb 2 k && utf8_is_invalid (utf8_parse u b)
fails _ k u b = false

-- No byte of the payload is refused, of which `k` bytes are there.
unfoldable pub passes : Opcode → ℕ → ℕ → List ℕ → Bool
unfolding fails next_utf8
passes o k u [] = true
passes o k u (b ∷ bytes) =
    not (fails o (k + 1) u b) && passes o (k + 1) (next_utf8 o (k + 1) u b) bytes

unfoldable pub final_utf8 : Opcode → ℕ → ℕ → List ℕ → ℕ
unfolding next_utf8
final_utf8 o k u [] = u
final_utf8 o k u (b ∷ bytes) = final_utf8 o (k + 1) (next_utf8 o (k + 1) u b) bytes

-- A frame that is not masked is being received: `out` is there, `n` bytes are to come, and the text
-- automaton is in state `u`.
pub record Loading (rx : RxFrame) (o : Opcode) (cap : ℕ) (out : List ℕ) (n u : ℕ) : Type 0 where
  pub phase : rx.state ≡ RxState.payload
  pub unmasked : rx.masked ≡ false
  pub kind : message_opcode rx.opcode rx.frag ≡ o
  pub buffer : Holds rx.s cap out
  pub size : rx.size ≡ n
  pub utf8 : rx.utf8 ≡ u

-- The state of the automaton by another name.
pub Loading-utf8 :
    {rx : RxFrame} {o : Opcode} {cap n u v : ℕ} {out : List ℕ}
    → Loading rx o cap out n u
    → u ≡ v
    → Loading rx o cap out n v
Loading-utf8 l e = record {
  phase = l.phase;
  unmasked = l.unmasked;
  kind = l.kind;
  buffer = l.buffer;
  size = l.size;
  utf8 = l.utf8 ∙ e;
}

-- The message so far is handed over whole.
pub received-Loading :
    (o : Opcode) (cap n u : ℕ) (out : List ℕ) (rx : RxFrame)
    → Loading rx o cap out n u
    → length out < 65536
    → received rx ≡ out
unfolding received written
received-Loading o cap n u out rx l lt =
    let whole : u16 rx.s.pos ≡ rx.s.pos = omega (arith, l.buffer.at) in rw whole l.buffer.content

-- What a frame keeps while its payload is received.
abbrev pub SameHeader : RxFrame → RxFrame → Type 0
SameHeader rx rx' =
    (rx'.opcode ≡ rx.opcode) × (rx'.frag ≡ rx.frag) × (rx'.fin ≡ rx.fin) × (rx'.mask ≡ rx.mask)

-- The frame when a byte has been stored and checked.
abbrev pub loaded_byte : Opcode → ℕ → ℕ → RxFrame → RxFrame
loaded_byte o k b rx = record rx {
  size = rx.size - 1;
  s = (stream_put_u8 rx.s b).1;
  utf8 = next_utf8 o k rx.utf8 b;
}

pub loaded_byte-Loading :
    (o : Opcode) (cap b n u : ℕ) (out : List ℕ) (rx : RxFrame)
    → Loading rx o cap out (suc n) u
    → b < 256
    → length out + 1 ≤ cap
    → Loading
        (loaded_byte o (length out + 1) b rx)
        o
        cap
        (out ++ b ∷ [])
        n
        (next_utf8 o (length out + 1) u b)
loaded_byte-Loading o cap b n u out rx l small fits = record {
  phase = l.phase;
  unmasked = l.unmasked;
  kind = l.kind;
  buffer = put_u8-Holds cap out b b l.buffer (omega (arith, small)) fits;
  size = omega (arith, l.size);
  utf8 = ap (λ (v : ℕ). next_utf8 o (length out + 1) v b) l.utf8;
}

-- A byte that is not masked is stored.
pub store_byte_plain :
    (b : ℕ) (rx : RxFrame)
    → rx.masked ≡ false
    → store_byte b rx ≡ (record rx { size = rx.size - 1; s = (stream_put_u8 rx.s b).1 }, b)
unfolding store_byte
store_byte_plain b rx h = rw h refl
