-- ===== src/Port/Buffers.antt =====
-- class BufferBase and template class Buffer of port/mbed/wic_buffer.h.
use wic.Base.{ℕ, List, Bool, true, false, leb, if◌then◌else◌, length, replicate, write_at}
use wic.Types.{Encoding}

-- `mem` is what `data` points to, MAX_SIZE bytes.
pub record BufferBase : Type 0 where
  pub mem : List ℕ
  pub mask : ℕ
  pub priority : ℕ
  pub size : ℕ
  pub max : ℕ
  pub encoding : Encoding
  pub fin : Bool

-- The constructor `Buffer(mask, priority)`. What it does not set is 0 here.
unfoldable pub new_buffer : ℕ → ℕ → ℕ → BufferBase
new_buffer max mask priority = record {
  mem = replicate max 0;
  mask = mask;
  priority = priority;
  size = 0;
  max = max;
  encoding = Encoding.utf8;
  fin = false;
}

-- `init`: false, and no change, where the bytes do not fit.
unfoldable pub buffer_init : List ℕ → Encoding → Bool → BufferBase → Bool × BufferBase
buffer_init bytes encoding fin self =
    if leb (length bytes) self.max
    then (
      true,
      record self {
        encoding = encoding;
        fin = fin;
        mem = write_at self.mem 0 bytes;
        size = length bytes;
      },
    )
    else (false, self)
