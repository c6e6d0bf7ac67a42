-- ===== src/Frame/Layout.antt =====
-- What a frame of this library looks like on the wire, told without the code that writes it.
use wic.Base.{
  ℕ, suc, ◌+◌, ◌/◌, ◌%◌, ◌≤◌, ◌<◌, ◌≡◌, refl, ap, List, [], ◌∷◌, ◌++◌, Bool, true, false, arith, u8,
  leb, ◌==◌, if◌then◌else◌, length, length-append, get_or, bit_or, bit_xor, append_assoc,
  append-nil, ◌>>>◌, Bool-cases, inl, inr, every, every-elim, ==_iff, bit_xor-lt, bit_xor_u8,
}
use wic.Types.{Opcode}
use wic.Stream.{Stream, stream_init, stream_put_u8, stream_put_u16, stream_error, written}
use wic.Stream.Laws.{Holds, stream_init-Holds, stream_write-Holds}
use wic.Frame.{
  TxFrame, is_close, opcode_to_byte, flags_byte, min_frame_size, put_masked, put_length, put_body,
  fill_frame,
}

abbrev pub flag : Bool → ℕ → ℕ
flag b n = if b then n else 0

-- The number of an opcode, as RFC 6455 has it.
abbrev pub first_byte : TxFrame → ℕ
first_byte f =
    flag f.fin 128 + flag f.rsv1 64 + flag f.rsv2 32 + flag f.rsv3 16 + opcode_to_byte f.opcode

-- The payload length: one byte, or 126 and two bytes, the high one first.
abbrev pub length_field : Bool → ℕ → List ℕ
length_field masked n =
    if leb n 125
    then (flag masked 128 + n) ∷ []
    else (flag masked 128 + 126) ∷ n / 256 ∷ (n % 256) ∷ []

-- Each byte with the mask's byte at its position, counted from `i`.
unfoldable pub xor_mask : List ℕ → ℕ → List ℕ → List ℕ
xor_mask mask i [] = []
xor_mask mask i (b ∷ bytes) = bit_xor b (get_or mask (i % 4) 0) ∷ xor_mask mask (i + 1) bytes

-- The payload data: a close frame's begins with the code, the high byte first.
abbrev pub content : TxFrame → List ℕ
content f = (if is_close f.opcode then f.code / 256 ∷ (f.code % 256) ∷ [] else []) ++ f.payload

-- A masked frame.
unfoldable pub encode : TxFrame → List ℕ
unfolding is_close opcode_to_byte xor_mask
encode f =
    first_byte f ∷ length_field true (length (content f))
    ++ (f.mask ++ xor_mask f.mask 0 (content f))

abbrev pub IsByte : ℕ → Type 0
IsByte b = b < 256

abbrev pub AllBytes : List ℕ → Type 0
AllBytes [] = Unit
AllBytes (b ∷ bytes) = IsByte b × AllBytes bytes

flags_sum :
    (a b c d : Bool) (o : Opcode)
    → bit_or
        (flag a 128)
        (bit_or (flag b 64) (bit_or (flag c 32) (bit_or (flag d 16) (opcode_to_byte o))))
      ≡ flag a 128 + flag b 64 + flag c 32 + flag d 16 + opcode_to_byte o
unfolding opcode_to_byte
flags_sum true true true true Opcode.cont = refl
flags_sum true true true false Opcode.cont = refl
flags_sum true true false true Opcode.cont = refl
flags_sum true true false false Opcode.cont = refl
flags_sum true false true true Opcode.cont = refl
flags_sum true false true false Opcode.cont = refl
flags_sum true false false true Opcode.cont = refl
flags_sum true false false false Opcode.cont = refl
flags_sum false true true true Opcode.cont = refl
flags_sum false true true false Opcode.cont = refl
flags_sum false true false true Opcode.cont = refl
flags_sum false true false false Opcode.cont = refl
flags_sum false false true true Opcode.cont = refl
flags_sum false false true false Opcode.cont = refl
flags_sum false false false true Opcode.cont = refl
flags_sum false false false false Opcode.cont = refl
flags_sum _ _ _ _ _ = refl

opcode_to_byte-lt : (o : Opcode) → opcode_to_byte o < 16
unfolding opcode_to_byte
opcode_to_byte-lt Opcode.cont = omega arith
opcode_to_byte-lt _ = omega arith

first_byte-lt : (f : TxFrame) → first_byte f < 256
first_byte-lt f = ground (arith, opcode_to_byte-lt f.opcode)

flags_byte_lem : (f : TxFrame) → flags_byte f ≡ first_byte f
unfolding flags_byte
flags_byte_lem f = flags_sum f.fin f.rsv1 f.rsv2 f.rsv3 f.opcode

mask_bit_table : every (λ n. bit_or 0x80 n == 128 + n) 128 ≡ true
unfolding every
mask_bit_table = refl

mask_bit : (n : ℕ) → n < 128 → bit_or 0x80 n ≡ 128 + n
mask_bit n h = (==_iff _ _).0 (every-elim (λ n. bit_or 0x80 n == 128 + n) n 128 h mask_bit_table)

module _ (cap : ℕ) where
  pub put_u8-Holds :
      {s : Stream} (out : List ℕ) (b c : ℕ)
      → Holds s cap out
      → u8 b ≡ c
      → length out + 1 ≤ cap
      → Holds (stream_put_u8 s b).1 cap (out ++ c ∷ [])
  unfolding stream_put_u8
  put_u8-Holds out b c h e fits = rw (← e) (stream_write-Holds cap out (u8 b ∷ []) h (omega arith))

  put_u16-Holds :
      {s : Stream} (out : List ℕ) (n : ℕ)
      → Holds s cap out
      → n < 65536
      → length out + 2 ≤ cap
      → Holds (stream_put_u16 s n).1 cap (out ++ n / 256 ∷ (n % 256) ∷ [])
  unfolding stream_put_u16
  put_u16-Holds {s} out n h lt fits =
      let e : n / 256 % 256 ≡ n / 256 = omega arith in
      rw e (stream_write-Holds cap out (n / 256 ∷ u8 n ∷ []) h (omega arith))

  pub put_masked-Holds :
      (s : Stream) (out mask : List ℕ) (i : ℕ) (bytes : List ℕ)
      → Holds s cap out
      → AllBytes bytes
      → ((k : ℕ) → get_or mask k 0 < 256)
      → length out + length bytes ≤ cap
      → Holds (put_masked mask i bytes s) cap (out ++ xor_mask mask i bytes)
  unfolding put_masked xor_mask
  put_masked-Holds s out mask i [] h hb hm fits = rw append-nil h
  put_masked-Holds s out mask i (b ∷ bytes) h hb hm fits =
      let x : ℕ = bit_xor b (get_or mask (i % 4) 0) in
      let small : x < 256 = bit_xor-lt b (get_or mask (i % 4) 0) hb.0 (hm (i % 4)) in
      let one = put_u8-Holds out x x h (omega arith) (omega arith) in
      rw append_assoc at (
        put_masked-Holds (stream_put_u8 s x).1 (out ++ x ∷ []) mask (i + 1) bytes one hb.1 hm
          (omega (arith, length-append out (x ∷ []))))

  put_length-Holds :
      {s : Stream} (f : TxFrame) (out : List ℕ) (n : ℕ)
      → Holds s cap out
      → f.masked ≡ true
      → n < 65536
      → length out + length (length_field true n) ≤ cap
      → Holds (put_length f n s) cap (out ++ length_field true n)
  unfolding put_length
  put_length-Holds f out n h m lt fits = elim (Bool-cases (leb n 125)) [
    | inl short ↦
        rw (short, m)
          (put_u8-Holds out (bit_or 128 n) (128 + n) h (ground (arith, mask_bit n)) (ground arith))
    | inr long ↦
        let one = put_u8-Holds out 254 254 h refl (ground arith) in
        rw (long, m)
          (rw append_assoc at (
            put_u16-Holds (out ++ 254 ∷ []) n one lt
              (ground (arith, length-append out (254 ∷ [])))))
  ]

-- The mask is there, and the fields are bytes, or fit two of them.
pub record IsSendable (f : TxFrame) : Type 0 where
  pub masked : f.masked ≡ true
  pub mask_size : length f.mask ≡ 4
  pub mask_bytes : (k : ℕ) → get_or f.mask k 0 < 256
  pub payload_bytes : AllBytes f.payload
  pub code_small : f.code < 65536
  pub content_small : length (content f) < 65536

module _ (cap : ℕ) where
  put_close-Holds :
      {s : Stream} (out mask : List ℕ) (code : ℕ) (payload : List ℕ)
      → Holds s cap out
      → ((k : ℕ) → get_or mask k 0 < 256)
      → AllBytes payload
      → code < 65536
      → length out + (2 + length payload) ≤ cap
      → let tx = (stream_put_u8 s (bit_xor (code >>> 8) (get_or mask 0 0))).1 in
        Holds
          (put_masked mask 2 payload (stream_put_u8 tx (bit_xor code (get_or mask 1 0))).1)
          cap
          (out ++ xor_mask mask 0 (code / 256 ∷ (code % 256) ∷ payload))
  unfolding xor_mask
  put_close-Holds {s} out mask code payload h hm hb hc fits =
      let x : ℕ = bit_xor (code / 256) (get_or mask 0 0) in
      let y : ℕ = bit_xor (code % 256) (get_or mask 1 0) in
      let small : x < 256 = bit_xor-lt (code / 256) (get_or mask 0 0) (omega arith) (hm 0) in
      let one = put_u8-Holds cap out x x h (omega arith) (omega arith) in
      let two =
        put_u8-Holds cap (out ++ x ∷ []) (bit_xor code (get_or mask 1 0)) y one
          (bit_xor_u8 code (get_or mask 1 0) (hm 1)) (omega (arith, length-append out (x ∷ []))) in
      rw (append_assoc, append_assoc) at
        (put_masked-Holds cap _ (out ++ x ∷ [] ++ y ∷ []) mask 2 payload two hb hm
          (omega (arith, length-append (out ++ x ∷ []) (y ∷ []), length-append out (x ∷ []))))

  put_body-Holds :
      {s : Stream} (f : TxFrame) (out : List ℕ)
      → Holds s cap out
      → IsSendable f
      → length out + (4 + length (content f)) ≤ cap
      → Holds (put_body f s) cap (out ++ (f.mask ++ xor_mask f.mask 0 (content f)))
  unfolding put_body is_close
  put_body-Holds {s} f out h ok fits =
      let one = stream_write-Holds cap out f.mask h (omega (arith, ok.mask_size)) in
      let room : length (out ++ f.mask) + length (content f) ≤ cap =
        omega (arith, length-append out f.mask, ok.mask_size) in
      rw (← append_assoc) (elim (Bool-cases (is_close f.opcode)) [
        | inl close ↦
            rw (ok.masked, close)
              (put_close-Holds (out ++ f.mask) f.mask f.code f.payload one ok.mask_bytes
                ok.payload_bytes ok.code_small (let room' = rw close at room in omega arith))
        | inr other ↦
            rw (ok.masked, other)
              (put_masked-Holds cap _ (out ++ f.mask) f.mask 0 f.payload one ok.payload_bytes
                ok.mask_bytes (rw other at room))
      ])

pub length-xor_mask :
    (mask : List ℕ) (i : ℕ) (bytes : List ℕ) → length (xor_mask mask i bytes) ≡ length bytes
unfolding xor_mask
length-xor_mask mask i [] = refl
length-xor_mask mask i (b ∷ bytes) = ap suc (length-xor_mask mask (i + 1) bytes)

length-content :
    (f : TxFrame) → length (content f) ≡ length f.payload + (if is_close f.opcode then 2 else 0)
length-content f = ground arith

length-encode :
    (f : TxFrame)
    → IsSendable f
    → length (encode f) ≡ min_frame_size f.opcode true (length f.payload)
unfolding encode min_frame_size
length-encode f ok = ground (
  arith,
  length-content f,
  length-append (first_byte f ∷ length_field true (length (content f)))
      (f.mask ++ xor_mask f.mask 0 (content f)),
  length-append f.mask (xor_mask f.mask 0 (content f)),
  length-xor_mask f.mask 0 (content f),
  ok.mask_size,
)

length-encode_le : (f : TxFrame) → IsSendable f → length (encode f) < 4294967296
unfolding encode
length-encode_le f ok = ground (
  arith,
  length-append (first_byte f ∷ length_field true (length (content f)))
      (f.mask ++ xor_mask f.mask 0 (content f)),
  length-append f.mask (xor_mask f.mask 0 (content f)),
  length-xor_mask f.mask 0 (content f),
  ok.mask_size,
  ok.content_small,
)

fill_frame-Holds :
    (cap : ℕ) {s : Stream} (f : TxFrame)
    → Holds s cap []
    → IsSendable f
    → length (encode f) ≤ cap
    → Holds (fill_frame f (length (content f)) s) cap (encode f)
unfolding fill_frame encode
fill_frame-Holds cap {s} f h ok fits =
    let all : length (encode f)
        ≡ 1 + length (length_field true (length (content f))) + 4 + length (content f) =
      omega (
        arith,
        length-append (first_byte f ∷ length_field true (length (content f)))
            (f.mask ++ xor_mask f.mask 0 (content f)),
        length-append f.mask (xor_mask f.mask 0 (content f)),
        length-xor_mask f.mask 0 (content f),
        ok.mask_size,
      ) in
    let one =
      put_u8-Holds cap [] (flags_byte f) (first_byte f) h
        (ground (arith, flags_byte_lem f, first_byte-lt f)) (omega arith) in
    let two =
      put_length-Holds cap f (first_byte f ∷ []) (length (content f)) one ok.masked ok.content_small
        (omega arith) in
    put_body-Holds cap f (first_byte f ∷ length_field true (length (content f))) two ok
      (omega arith)

-- Into a buffer of `min_frame_size` bytes or more, the code that fills a masked frame writes exactly
-- the frame's encoding, reports no error, and leaves no byte of that size unused.
pub fill_frame-encode :
    (f : TxFrame) (memory : List ℕ)
    → IsSendable f
    → min_frame_size f.opcode true (length f.payload) ≤ length memory
    → let n = min_frame_size f.opcode true (length f.payload) in
      let tx =
        fill_frame f
          (length f.payload + (if is_close f.opcode then 2 else 0))
          (stream_init memory n) in
      (written tx ≡ encode f) × (stream_error tx ≡ false) × (length (encode f) ≡ n)
unfolding stream_error
fill_frame-encode f memory ok fits =
    let n : ℕ = min_frame_size f.opcode true (length f.payload) in
    let size = length-encode f ok in
    let start = stream_init-Holds memory n fits (omega (arith, size, length-encode_le f ok)) in
    let done = fill_frame-Holds n f start ok (omega arith) in
    rw (← length-content f) (done.content, done.clean, size)
