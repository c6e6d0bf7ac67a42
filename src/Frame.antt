-- ===== src/Frame.antt =====
-- Frames to send: `min_frame_size`, `init_mask` and `stream_put_frame` of src/wic.c.
pub mod Layout
use wic.Base.{
  ℕ, ◌+◌, ◌%◌, List, [], ◌∷◌, ◌++◌, Bool, true, false, Option, none, some, ltb, leb, if◌then◌else◌,
  ◌>>>◌, u8, length, get_or, bit_or, bit_xor, bit_and,
}
use wic.Types.{Buffer, Opcode, Role, Status}
use wic.Stream.{Stream, stream_init, stream_write, stream_put_u8, stream_put_u16, stream_error}
use wic.Inst.{Sys, App}
use wic.Inst.Handlers.{call_buffer, call_rand}

-- struct wic_tx_frame; `size` is the length of the payload.
pub record TxFrame : Type 0 where
  pub fin : Bool
  pub rsv1 : Bool
  pub rsv2 : Bool
  pub rsv3 : Bool
  pub opcode : Opcode
  pub type : Buffer
  pub code : ℕ
  pub masked : Bool
  pub mask : List ℕ
  pub payload : List ℕ

unfoldable pub opcode_to_byte : Opcode → ℕ
opcode_to_byte Opcode.cont = 0
opcode_to_byte Opcode.text = 1
opcode_to_byte Opcode.binary = 2
opcode_to_byte Opcode.reserve_3 = 3
opcode_to_byte Opcode.reserve_4 = 4
opcode_to_byte Opcode.reserve_5 = 5
opcode_to_byte Opcode.reserve_6 = 6
opcode_to_byte Opcode.reserve_7 = 7
opcode_to_byte Opcode.close = 8
opcode_to_byte Opcode.ping = 9
opcode_to_byte Opcode.pong = 10
opcode_to_byte Opcode.reserve_11 = 11
opcode_to_byte Opcode.reserve_12 = 12
opcode_to_byte Opcode.reserve_13 = 13
opcode_to_byte Opcode.reserve_14 = 14
opcode_to_byte Opcode.reserve_15 = 15

unfoldable pub opcodes : List Opcode
opcodes =
    Opcode.cont ∷ Opcode.text ∷ Opcode.binary ∷ Opcode.reserve_3 ∷ Opcode.reserve_4
    ∷ Opcode.reserve_5 ∷ Opcode.reserve_6 ∷ Opcode.reserve_7 ∷ Opcode.close ∷ Opcode.ping
    ∷ Opcode.pong ∷ Opcode.reserve_11 ∷ Opcode.reserve_12 ∷ Opcode.reserve_13 ∷ Opcode.reserve_14
    ∷ Opcode.reserve_15 ∷ []

unfoldable pub byte_to_opcode : ℕ → Opcode
unfolding opcodes
byte_to_opcode b = get_or opcodes (bit_and b 0xf) Opcode.cont

-- `opcode == WIC_OPCODE_CLOSE`
unfoldable pub is_close : Opcode → Bool
is_close Opcode.close = true
is_close _ = false

unfoldable pub is_client : Role → Bool
is_client Role.client = true
is_client Role.server = false

unfoldable pub min_frame_size : Opcode → Bool → ℕ → ℕ
unfolding is_close
min_frame_size opcode masked payload_size =
    let body = payload_size + (if is_close opcode then 2 else 0) in
    body + (if ltb 125 body then 2 else 0) + 2 + (if masked then 4 else 0)

-- The bytes of a `uint32_t` in memory, on a little-endian target.
unfoldable pub bytes_of_u32 : ℕ → List ℕ
bytes_of_u32 n = u8 n ∷ u8 (n >>> 8) ∷ u8 (n >>> 16) ∷ u8 (n >>> 24) ∷ []

-- The first byte of a frame.
unfoldable pub flags_byte : TxFrame → ℕ
unfolding opcode_to_byte
flags_byte f = bit_or (if f.fin then 0x80 else 0) (
    bit_or (if f.rsv1 then 0x40 else 0) (
      bit_or (if f.rsv2 then 0x20 else 0)
        (bit_or (if f.rsv3 then 0x10 else 0) (opcode_to_byte f.opcode))))

-- `for(; pos < size; pos++) stream_put_u8(tx, ptr[pos] ^ mask[(pos + shift) % 4])`, where the
-- first of `bytes` is `ptr[pos]`, and `i` is `pos + shift`.
unfoldable pub put_masked : List ℕ → ℕ → List ℕ → Stream → Stream
put_masked mask i [] tx = tx
put_masked mask i (b ∷ bytes) tx =
    put_masked mask (i + 1) bytes (stream_put_u8 tx (bit_xor b (get_or mask (i % 4) 0))).1

-- The second byte, and the extended length where there is one.
unfoldable pub put_length : TxFrame → ℕ → Stream → Stream
put_length f payload_size tx =
    if leb payload_size 125
    then (stream_put_u8 tx (bit_or (if f.masked then 0x80 else 0) payload_size)).1
    else (stream_put_u16 (stream_put_u8 tx (bit_or (if f.masked then 0x80 else 0) 126)).1
        payload_size).1

-- The mask, the close code and the payload. Where a close frame is not masked, the source writes
-- `payload_size` bytes from a payload of two fewer; what it reads behind the payload is 0 here.
unfoldable pub put_body : TxFrame → Stream → Stream
unfolding is_close put_masked
put_body f tx =
    if f.masked
    then (let tx1 = (stream_write tx f.mask).1 in
        if is_close f.opcode
        then (let tx2 = (stream_put_u8 tx1 (bit_xor (f.code >>> 8) (get_or f.mask 0 0))).1 in
            let tx3 = (stream_put_u8 tx2 (bit_xor f.code (get_or f.mask 1 0))).1 in
            put_masked f.mask 2 f.payload tx3)
        else put_masked f.mask 0 f.payload tx1)
    else if is_close f.opcode
    then (let tx2 = (stream_put_u8 tx (f.code >>> 8)).1 in
        let tx3 = (stream_put_u8 tx2 f.code).1 in (stream_write tx3 (f.payload ++ 0 ∷ 0 ∷ [])).1)
    else (stream_write tx f.payload).1

-- All that is written once there is a buffer.
unfoldable pub fill_frame : TxFrame → ℕ → Stream → Stream
unfolding put_length put_body flags_byte
fill_frame f payload_size tx =
    put_body f (put_length f payload_size (stream_put_u8 tx (flags_byte f)).1)

module _ {W : Type 0} (app : App W) where
  unfoldable pub init_mask : TxFrame → Sys W → TxFrame × Sys W
  unfolding bytes_of_u32 is_client
  init_mask f s =
      let (mask, s') = call_rand app 0xaaaaaaaa s in
      (record f { masked = is_client s'.self.role; mask = bytes_of_u32 mask }, s')

  -- The status, the stream `tx` (none where it is not initialised) and the new system.
  unfoldable pub stream_put_frame : TxFrame → Sys W → Status × Option Stream × Sys W
  unfolding is_close
  stream_put_frame f s =
      let payload_size = length f.payload + (if is_close f.opcode then 2 else 0) in
      let frame_size = min_frame_size f.opcode f.masked (length f.payload) in
      let (buf, max, s') = call_buffer app frame_size f.type s in
      if leb frame_size max
      then elim buf [
        | some memory ↦
            let tx = fill_frame f payload_size (stream_init memory frame_size) in
            (if stream_error tx then Status.would_block else Status.success, some tx, s')
        | none ↦ (Status.would_block, none, s')
      ]
      else (Status.too_large, none, s')
