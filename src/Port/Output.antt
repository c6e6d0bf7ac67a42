-- ===== src/Port/Output.antt =====
-- template class OutputQueue of port/mbed/wic_output_queue.h.
use wic.Base.{
  ℕ, Bool, true, false, ◌&&◌, ◌||◌, Option, none, some, leb, ◌==◌, if◌then◌else◌, bit_and,
}
use wic.Types.{Buffer}
use wic.Port.Buffers.{BufferBase, new_buffer}
use wic.Port.Os.{Slot, EventFlags, MessageQueue}

pub record OutputQueue (F Q : Type 0) : Type 0 where
  pub user : BufferBase
  pub close : BufferBase
  pub ping : BufferBase
  pub pong : BufferBase
  pub flags : F
  pub queue : Q

-- The constructor, for MAX_SIZE, the first flags and an empty queue.
unfoldable pub new_output : {F Q : Type 0} → ℕ → F → Q → OutputQueue F Q
unfolding new_buffer
new_output max flags queue = record {
  user = new_buffer max 1 0;
  close = new_buffer 131 2 3;
  ping = new_buffer 2 4 0;
  pong = new_buffer 131 8 1;
  flags = flags;
  queue = queue;
}

unfoldable pub type_to_buf : Buffer → Slot
type_to_buf Buffer.http = Slot.user
type_to_buf Buffer.user = Slot.user
type_to_buf Buffer.close = Slot.close
type_to_buf Buffer.close_response = Slot.close
type_to_buf Buffer.pong = Slot.pong
type_to_buf Buffer.ping = Slot.ping

-- The buffer that a pointer points to.
unfoldable pub slot_buffer : {F Q : Type 0} → OutputQueue F Q → Slot → BufferBase
slot_buffer self Slot.user = self.user
slot_buffer self Slot.close = self.close
slot_buffer self Slot.ping = self.ping
slot_buffer self Slot.pong = self.pong

-- A write through a pointer.
unfoldable pub set_slot : {F Q : Type 0} → Slot → BufferBase → OutputQueue F Q → OutputQueue F Q
set_slot Slot.user b self = record self { user = b }
set_slot Slot.close b self = record self { close = b }
set_slot Slot.ping b self = record self { ping = b }
set_slot Slot.pong b self = record self { pong = b }

module _ {F Q : Type 0} (flag : EventFlags F) (os : MessageQueue Q) where
  -- `*max` is MAX_SIZE, the size of the user's buffer, for every type.
  unfoldable pub output_alloc : Buffer → ℕ → OutputQueue F Q → Option Slot × ℕ × OutputQueue F Q
  unfolding type_to_buf slot_buffer
  output_alloc type min_size self =
      let slot = type_to_buf type in
      let buf = slot_buffer self slot in
      let taken = record self { flags = flag.set buf.mask self.flags } in
      if (min_size == 0 || leb min_size buf.max) && bit_and buf.mask (flag.get self.flags) == 0
      then (some slot, self.user.max, taken)
      else (none, self.user.max, self)

  unfoldable pub output_put : Option Slot → OutputQueue F Q → Bool × OutputQueue F Q
  unfolding slot_buffer
  output_put none self =
      let (ok, queue) = os.put none 2 self.queue in (ok, record self { queue = queue })
  output_put (some slot) self =
      let (ok, queue) = os.put (some slot) (slot_buffer self slot).priority self.queue in
      (ok, record self { queue = queue })

  unfoldable pub output_free : Option Slot → OutputQueue F Q → OutputQueue F Q
  unfolding slot_buffer
  output_free none self = self
  output_free (some slot) self = record self {
    flags = flag.clear (slot_buffer self slot).mask self.flags;
  }

  -- The buffer, whether it is the request to close, and the queue.
  unfoldable pub output_get : OutputQueue F Q → Option Slot × Bool × OutputQueue F Q
  output_get self =
      let (event, queue) = os.get self.queue in
      let self' = record self { queue = queue } in
      elim event [
        | none ↦ (none, false, self')
        | some none ↦ (none, true, self')
        | some (some slot) ↦ (some slot, false, self')
      ]
