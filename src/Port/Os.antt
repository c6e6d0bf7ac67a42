-- ===== src/Port/Os.antt =====
-- What the port takes from mbed OS, which is not part of the repository: the operations as arguments
-- of the model. Their documented behaviour is in Port.Slots (`IsFlags`), in Port.Queue (`IsMail`) and in
-- `QueueShrinks` and `MailShrinks` below.
use wic.Base.{ℕ, ◌<◌, ◌≡◌, Bool, Option, some}

-- The buffers of an output queue: what a pointer of the queue points to.
pub data Slot : Type 0 where
  user close ping pong : Slot

-- `EventFlags`: a word of flags. `set` sets the flags of a mask and `clear` clears them.
pub record EventFlags (F : Type 0) : Type 0 where
  pub get : F → ℕ
  pub set : ℕ → F → F
  pub clear : ℕ → F → F

-- `rtos::Queue<BufferBase, 5>`: `put` takes a pointer, none for `nullptr`, and says whether it is
-- `osOK`; `get(0)` returns none where there is no message. `waiting` counts the messages.
pub record MessageQueue (Q : Type 0) : Type 0 where
  pub put : Option Slot → ℕ → Q → Bool × Q
  pub get : Q → Option (Option Slot) × Q
  pub waiting : Q → ℕ

-- `rtos::Mail<Buffer<SIZE>, DEPTH>`: blocks by number. `alloc` returns none for NULL, and `get` where
-- there is no mail. `pending` counts the mails.
pub record Mail (M : Type 0) : Type 0 where
  pub alloc : M → Option ℕ × M
  pub put : ℕ → M → M
  pub get : M → Option ℕ × M
  pub free : ℕ → M → M
  pub pending : M → ℕ

-- `rtos::MemoryPool<RXBuffer, 1>`: `alloc` says whether there was a block.
pub record MemoryPool (P : Type 0) : Type 0 where
  pub alloc : P → Bool × P
  pub free : P → P

-- A message that is got waits no more.
abbrev pub QueueShrinks : {Q : Type 0} → MessageQueue Q → Type 0
QueueShrinks {Q} queue =
    (q : Q) (m : Option Slot)
    → (queue.get q).0 ≡ some m
    → queue.waiting (queue.get q).1 < queue.waiting q

-- A mail that is got is pending no more, and freeing its block adds none.
abbrev pub MailShrinks : {M : Type 0} → Mail M → Type 0
MailShrinks {M} mail =
    (m : M) (p : ℕ)
    → (mail.get m).0 ≡ some p
    → mail.pending (mail.free p (mail.get m).1) < mail.pending m
