-- ===== src/Stream.antt =====
-- The stream of src/wic.c: a cursor over a block of memory that never passes the block's end.
pub mod Laws
use wic.Base.{
  ℕ, ◌+◌, ◌%◌, List, [], ◌∷◌, Bool, true, false, u8, u32, sub_size, leb, ◌==◌, if◌then◌else◌, ◌>>>◌,
  take, drop, length, get_or, write_at, bit_xor,
}

-- struct wic_stream. `writable` is `write != NULL`, and `mem` the memory behind `write` and `read`.
pub record Stream : Type 0 where
  pub writable : Bool
  pub mem : List ℕ
  pub size : ℕ
  pub pos : ℕ
  pub error : Bool

-- The size arrives as a `uint32_t`.
unfoldable pub stream_init : List ℕ → ℕ → Stream
stream_init buf size = record {
  writable = true;
  mem = buf;
  size = u32 size;
  pos = 0;
  error = false;
}

unfoldable pub stream_init_ro : List ℕ → ℕ → Stream
stream_init_ro buf size = record {
  writable = false;
  mem = buf;
  size = u32 size;
  pos = 0;
  error = false;
}

unfoldable pub stream_rewind : Stream → Stream
stream_rewind self = record self { pos = 0; error = false }

-- The bytes read, when the result is `true`.
unfoldable pub stream_read : Stream → ℕ → Bool × List ℕ × Stream
stream_read self count =
    if self.error
    then (false, [], self)
    else if leb count (sub_size self.size self.pos)
    then (true, take count (drop self.pos self.mem), record self { pos = self.pos + count })
    else (false, [], record self { error = true })

-- `buf` holds the `count` bytes.
unfoldable pub stream_write : Stream → List ℕ → Bool × Stream
stream_write self buf =
    if self.writable
    then (if self.error
        then (false, self)
        else if leb (length buf) (sub_size self.size self.pos)
        then (
          true,
          record self { mem = write_at self.mem self.pos buf; pos = self.pos + length buf },
        )
        else (false, record self { error = true }))
    else (false, self)

unfoldable pub stream_max : Stream → ℕ
stream_max self = self.size

unfoldable pub stream_pos : Stream → ℕ
stream_pos self = self.pos

unfoldable pub stream_seek : Stream → ℕ → Bool × Stream
stream_seek self offset =
    if leb offset self.size then (true, record self { pos = offset }) else (false, self)

unfoldable pub stream_eof : Stream → Bool
stream_eof self = self.pos == self.size

unfoldable pub stream_error : Stream → Bool
stream_error self = self.error

unfoldable pub stream_put_u8 : Stream → ℕ → Bool × Stream
stream_put_u8 self value = stream_write self (u8 value ∷ [])

unfoldable pub stream_put_u16 : Stream → ℕ → Bool × Stream
stream_put_u16 self value = stream_write self (u8 (value >>> 8) ∷ u8 value ∷ [])

-- The byte read, when the result is `true`.
unfoldable pub stream_get_u8 : Stream → Bool × ℕ × Stream
stream_get_u8 self = let (ok, bytes, self') = stream_read self 1 in (ok, get_or bytes 0 0, self')

-- `str` without its NUL.
unfoldable pub stream_put_str : Stream → List ℕ → Bool × Stream
stream_put_str self str = stream_write self str

-- The result, the stream, and the byte that goes through `unmasked`.
unfoldable pub stream_put_u8_masked : Stream → ℕ → List ℕ → Bool × Stream × ℕ
stream_put_u8_masked self value mask =
    let unmasked = bit_xor value (get_or mask (self.pos % 4) 0) in
    let (ok, self') = stream_put_u8 self unmasked in (ok, self', unmasked)

-- What has been written, or read, so far.
unfoldable pub written : Stream → List ℕ
written self = take self.pos self.mem
