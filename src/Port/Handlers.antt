-- ===== src/Port/Handlers.antt =====
-- The handlers of the client leave the instance alone.
use wic.Base.{ℕ, ◌<◌, ◌%◌, refl, List, Bool, arith, inl, inr, Option-cases}
use wic.Types.{Buffer, Encoding}
use wic.Inst.{App}
use wic.Inst.Carries.{Carries}
use wic.Receive.Keeps.{KeepsRx}
use wic.Close.Laws.{KeepsClosed}
use wic.Send.Fragments.{KeepsProgress}
use wic.Port.Buffers.{BufferBase, buffer_init, new_buffer}
use wic.Port.Inputs.{InputQueue, input_alloc, input_put, set_block}
use wic.Port.Os.{EventFlags, MessageQueue, Mail}
use wic.Port.Output.{output_alloc}
use wic.Port.Client.{
  Client, handlers, handle_message, handle_send, handle_buffer, handle_open, handle_close,
  handle_close_transport, handle_handshake_failure, handle_rand, do_work, notify_readers,
  notify_writers,
}

-- A size that is not 0 as a `uint32_t`.
abbrev pub IsRoom : ℕ → Type 0
IsRoom n = 0 < n % 0x1_0000_0000

-- Every block can hold a byte, and so can a new one.
abbrev pub RoomyQueue : {M : Type 0} → InputQueue M → Type 0
RoomyQueue q = IsRoom q.block_size × ((k : ℕ) → IsRoom (q.blocks k).max)

abbrev pub Roomy : {F Q M P : Type 0} → Client F Q M P → Type 0
Roomy c = RoomyQueue c.input_queue

pub set_block-RoomyQueue :
    {M : Type 0} (p : ℕ) (b : BufferBase) (q : InputQueue M)
    → IsRoom b.max
    → RoomyQueue q
    → RoomyQueue (set_block p b q)
unfolding set_block
set_block-RoomyQueue p b q pos h = (h.0, λ k. ground (arith, h.1 k))

pub input_alloc-RoomyQueue :
    {M : Type 0} (mail : Mail M) (q : InputQueue M)
    → RoomyQueue q
    → RoomyQueue (input_alloc mail q).1
unfolding input_alloc new_buffer
input_alloc-RoomyQueue mail q h = elim (Option-cases (mail.alloc q.mail).0) [
  | inl full ↦ rw (full, input_alloc) h
  | inr (p, got) ↦
      let q' = record q { mail = (mail.alloc q.mail).1 } in
      rw (got, input_alloc) (set_block-RoomyQueue p (new_buffer q.block_size 0 0) q' h.0 h)
]

buffer_init-max :
    (b : List ℕ) (e : Encoding) (fin : Bool) (self : BufferBase)
    → IsRoom self.max
    → IsRoom (buffer_init b e fin self).1.max
unfolding buffer_init
buffer_init-max b e fin self h = ground (arith, h)

module _ {F Q M P : Type 0} (flag : EventFlags F) (queue : MessageQueue Q) (mail : Mail M)
    (rand : ℕ → ℕ) where
  abbrev app : App (Client F Q M P)
  app = handlers flag queue mail rand

  pub handlers-KeepsRx : KeepsRx (app)
  handlers-KeepsRx = record {
    message = λ e fin b s. refl;
    opened = λ s. refl;
    closed = λ c b s. refl;
    transport = λ s. refl;
    failure = λ f s. refl;
    sent = λ b t s. refl;
    buffer = λ n t s. refl;
    random = λ s. refl;
    pinged = λ s. refl;
    ponged = λ s. refl;
  }

  pub handlers-KeepsClosed : KeepsClosed (app)
  handlers-KeepsClosed = record {
    closed = λ c b s h. h;
    transport = λ s h. h;
    failure = λ f s h. h;
    sent = λ b t s h. h;
    buffer = λ n t s h. h;
    random = λ s h. h;
  }

  pub handlers-KeepsProgress : KeepsProgress (app)
  handlers-KeepsProgress = record {
    sent = λ b t s. refl;
    buffer = λ n t s. refl;
    random = λ s. refl;
  }

  handle_message-Roomy :
      (e : Encoding) (fin : Bool) (b : List ℕ) (c : Client F Q M P)
      → Roomy c
      → Roomy (handle_message flag queue mail rand e fin b c).1
  unfolding handle_message input_put notify_readers
  handle_message-Roomy e fin b c h =
      let r = input_alloc mail c.input_queue in
      let h' = input_alloc-RoomyQueue mail c.input_queue h in
      elim (Option-cases r.0) [
        | inl full ↦ rw (full, handle_message) h'
        | inr (k, got) ↦
            rw (got, handle_message)
              (set_block-RoomyQueue k (buffer_init b e fin (r.1.blocks k)).1 r.1
                (buffer_init-max b e fin (r.1.blocks k) (h'.1 k)) h')
      ]

  handle_send-Roomy :
      (b : List ℕ) (c : Client F Q M P) → Roomy c → Roomy (handle_send flag queue mail rand b c)
  unfolding handle_send do_work
  handle_send-Roomy b c h = elim (Option-cases c.tx) [
    | inl nothing ↦ rw nothing h
    | inr (slot, held) ↦ rw held h
  ]

  handle_buffer-Roomy :
      (n : ℕ) (t : Buffer) (c : Client F Q M P)
      → Roomy c
      → Roomy (handle_buffer flag queue mail rand n t c).2
  unfolding handle_buffer
  handle_buffer-Roomy n t c h = elim (Option-cases (output_alloc flag queue t n c.tx_queue).0) [
    | inl full ↦ rw (full, handle_buffer) h
    | inr (slot, got) ↦ rw (got, handle_buffer) h
  ]

  pub handlers-Carries : Carries app Roomy
  unfolding handle_open handle_close handle_close_transport handle_handshake_failure handle_rand
      notify_writers do_work
  handlers-Carries = record {
    message = λ e fin b s h. handle_message-Roomy e fin b s.world h;
    opened = λ s h. h;
    closed = λ c b s h. h;
    transport = λ s h. h;
    failure = λ f s h. h;
    sent = λ b t s h. handle_send-Roomy b s.world h;
    buffer = λ n t s h. handle_buffer-Roomy n t s.world h;
    random = λ s h. h;
    pinged = λ s h. h;
    ponged = λ s h. h;
  }
