-- ===== src/Stream/Laws.antt =====
-- The stream never passes the end of its memory, and what is written is what was given.
use wic.Base.{
  ℕ, ◌+◌, ◌≤◌, ◌<◌, ◌≡◌, refl, true, false, List, [], ◌++◌, arith, length, length-append,
  length-write_at, take-write_at,
}
use wic.Stream.{Stream, stream_init, stream_write, written}

-- The cursor stands in the block, which the memory holds; the sizes fit a `uint32_t`.
pub record IsValid (s : Stream) : Type 0 where
  pub within : s.pos ≤ s.size
  pub held : s.size ≤ length s.mem
  pub small : s.size < 4294967296

-- A stream to write to, of `cap` bytes, in which `out` has been written and nothing has failed.
pub record Holds (s : Stream) (cap : ℕ) (out : List ℕ) : Type 0 where
  pub writable : s.writable ≡ true
  pub clean : s.error ≡ false
  pub capacity : s.size ≡ cap
  pub held : cap ≤ length s.mem
  pub small : cap < 4294967296
  pub at : s.pos ≡ length out
  pub content : written s ≡ out

pub stream_init-Holds :
    (mem : List ℕ) (n : ℕ) → n ≤ length mem → n < 4294967296 → Holds (stream_init mem n) n []
unfolding stream_init written
stream_init-Holds mem n h lt = record {
  writable = refl;
  clean = refl;
  capacity = omega arith;
  held = h;
  small = lt;
  at = refl;
  content = refl;
}

-- A write that fits is appended.
pub stream_write-Holds :
    {s : Stream} (cap : ℕ) (out bytes : List ℕ)
    → Holds s cap out
    → length out + length bytes ≤ cap
    → Holds (stream_write s bytes).1 cap (out ++ bytes)
unfolding stream_write written
stream_write-Holds {s} cap out bytes h fits = ground (
  arith,
  length-append out bytes,
  length-write_at s.mem s.pos bytes,
  take-write_at s.mem s.pos bytes (s.pos + length bytes) refl,
)
