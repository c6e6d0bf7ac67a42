-- ===== src/Receive/Unmask.antt =====
-- The payload of a masked frame: what the receiver stores of what the sender wrote.
use wic.Base.{
  ℕ, ◌+◌, ◌-◌, ◌%◌, ◌≤◌, ◌<◌, ◌≡◌, refl, true, List, [], ◌∷◌, ◌++◌, arith, length, get_or,
  append_assoc, append-nil, length-append, bit_xor, bit_xor_twice,
}
use wic.Stream.{Stream, stream_put_u8_masked, written}
use wic.Stream.Laws.{Holds}
use wic.Inst.{RxFrame}
use wic.Frame.{put_masked}
use wic.Frame.Layout.{AllBytes, xor_mask, put_u8-Holds, put_masked-Holds}
use wic.Receive.Data.{store_byte}

-- The bytes stored one after the other.
unfoldable pub store_all : List ℕ → RxFrame → RxFrame
store_all [] rx = rx
store_all (b ∷ bytes) rx = store_all bytes (store_byte b rx).0

-- The receiver of a masked frame, with `out` of its payload in a buffer of `cap` bytes.
pub record Receiving (rx : RxFrame) (mask : List ℕ) (cap : ℕ) (out : List ℕ) : Type 0 where
  pub masked : rx.masked ≡ true
  pub same_mask : rx.mask ≡ mask
  pub buffer : Holds rx.s cap out

module _ (mask : List ℕ) (small : (k : ℕ) → get_or mask k 0 < 256) (cap : ℕ) where
  -- One byte: it is unmasked by its position in the buffer.
  pub store_byte-Receiving :
      (rx : RxFrame) (out : List ℕ) (p : ℕ)
      → Receiving rx mask cap out
      → p < 256
      → length out + 1 ≤ cap
      → let (rx', plain) = store_byte (bit_xor p (get_or mask (length out % 4) 0)) rx in
        Receiving rx' mask cap (out ++ p ∷ []) × (plain ≡ p) × (rx'.size ≡ rx.size - 1)
  unfolding store_byte stream_put_u8_masked
  store_byte-Receiving rx out p r hp fits =
      let k = get_or mask (length out % 4) 0 in
      let back : bit_xor (bit_xor p k) (get_or rx.mask (rx.s.pos % 4) 0) ≡ p =
        rw (r.same_mask, r.buffer.at) (bit_xor_twice p k hp (small (length out % 4))) in
      let stored = put_u8-Holds cap out p p r.buffer (omega arith) fits in
      rw (r.masked, back)
        (record { masked = refl; same_mask = r.same_mask; buffer = stored }, refl, refl)

  store_all-Receiving :
      (rx : RxFrame) (out payload : List ℕ)
      → Receiving rx mask cap out
      → AllBytes payload
      → length out + length payload ≤ cap
      → let rx' = store_all (xor_mask mask (length out) payload) rx in
        Receiving rx' mask cap (out ++ payload) × (rx'.size ≡ rx.size - length payload)
  unfolding store_all xor_mask
  store_all-Receiving rx out [] r hb fits = (rw append-nil r, omega arith)
  store_all-Receiving rx out (p ∷ payload) r hb fits =
      let one = store_byte-Receiving rx out p r hb.0 (omega arith) in
      let rx' = (store_byte (bit_xor p (get_or mask (length out % 4) 0)) rx).0 in
      let len : length (out ++ p ∷ []) ≡ length out + 1 = length-append out (p ∷ []) in
      let rest = store_all-Receiving rx' (out ++ p ∷ []) payload one.0 hb.1 (omega (arith, len)) in
      let done = rw (len, append_assoc) at rest in (done.0, omega (arith, done.1, one.2))

-- What a sender writes of a payload behind the mask, a receiver that stores it byte by byte gets
-- back: the buffer then holds the payload, with as many bytes fewer to come.
pub store_all-put_masked :
    (mask payload : List ℕ) (rx : RxFrame) (cap : ℕ) (tx : Stream) (room : ℕ)
    → ((k : ℕ) → get_or mask k 0 < 256)
    → AllBytes payload
    → Receiving rx mask cap []
    → length payload ≤ cap
    → Holds tx room []
    → length payload ≤ room
    → let rx' = store_all (written (put_masked mask 0 payload tx)) rx in
      (written rx'.s ≡ payload) × (rx'.size ≡ rx.size - length payload)
store_all-put_masked mask payload rx cap tx room small hb r fits h fits_tx =
    let sent = put_masked-Holds room tx [] mask 0 payload h hb small (omega arith) in
    let got = store_all-Receiving mask small cap rx [] payload r hb (omega arith) in
    rw sent.content (got.0.buffer.content, got.1)
