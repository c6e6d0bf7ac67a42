-- ===== src/Port/Client.antt =====
-- class ClientBase of port/mbed/wic_client.h, and its handlers in port/mbed/wic_client.cpp.
use wic.Base.{
  ℕ, ◌+◌, List, ◌∷◌, Bool, true, false, Option, none, some, ◌==◌, if◌then◌else◌, length, write_at,
}
use wic.Types.{Buffer, Encoding, HandshakeFailure, Status}
use wic.Inst.{Sys, App}
use wic.Port.Buffers.{buffer_init}
use wic.Port.Os.{Slot, EventFlags, MessageQueue, Mail}
use wic.Port.Output.{OutputQueue, slot_buffer, set_slot, output_alloc, output_put, output_free}
use wic.Port.Inputs.{InputQueue, set_block, input_alloc, input_put}

-- enum State
pub data ClientState : Type 0 where
  closed opening opened closing : ClientState

-- The codes of nsapi_error_t that the port tells apart; `other` is any that a call returns.
pub data NsapiError : Type 0 where
  ok parameter is_connected connection_lost connection_timeout unsupported busy would_block
        no_connection :
      NsapiError
  other : ℕ → NsapiError

-- struct Job. `job = {}` is all zeros.
pub record Job : Type 0 where
  pub done : Bool
  pub retval : NsapiError
  pub status : Status
  pub handshake_failure_reason : HandshakeFailure

abbrev pub new_job : Job
new_job = record {
  done = false;
  retval = NsapiError.ok;
  status = Status.success;
  handshake_failure_reason = HandshakeFailure.abnormal_1;
}

-- What the client asks of the operating system and of the sockets, in the order of the calls.
pub data Signal : Type 0 where
  work writers readers cancel_timeout start_timeout : Signal
  use_tcp use_tls open_socket connect_socket close_socket : Signal

-- The variables of `worker_task`: `_rx` with `rx_pos`, `_tx` with `tx_pos`. Of an RXBuffer the first
-- `size` bytes matter.
pub record Worker : Type 0 where
  pub rx : Option (List ℕ)
  pub rx_pos : ℕ
  pub tx : Option Slot
  pub tx_pos : ℕ

-- class ClientBase, without `inst`, which is beside it in a system. `draws` counts the calls of
-- `rand()`; `rx` is a block of the input queue, and `url` a string without its NUL.
pub record Client (F Q M P : Type 0) : Type 0 where
  pub state : ClientState
  pub input_queue : InputQueue M
  pub tx_queue : OutputQueue F Q
  pub rx_pool : P
  pub url : List ℕ
  pub url_max : ℕ
  pub rx : Option ℕ
  pub tx : Option Slot
  pub job : Job
  pub signals : List Signal
  pub draws : ℕ
  pub worker : Worker

-- The retval for a reason, `switch(reason)` of `handle_handshake_failure`.
unfoldable pub failure_retval : HandshakeFailure → NsapiError
failure_retval HandshakeFailure.abnormal_2 = NsapiError.connection_lost
failure_retval HandshakeFailure.protocol = NsapiError.unsupported
failure_retval HandshakeFailure.upgrade = NsapiError.unsupported
failure_retval _ = NsapiError.connection_timeout

module _ {F Q M P : Type 0} where
  abbrev pub with_client :
      (Client F Q M P → Client F Q M P) → Sys (Client F Q M P) → Sys (Client F Q M P)
  with_client f s = record s { world = f s.world }

  abbrev pub signal : Signal → Client F Q M P → Client F Q M P
  signal x c = record c { signals = x ∷ c.signals }

  -- `do_work`
  unfoldable pub do_work : Client F Q M P → Client F Q M P
  do_work c = signal Signal.work c

  unfoldable pub notify_writers : Client F Q M P → Client F Q M P
  notify_writers c = signal Signal.writers c

  unfoldable pub notify_readers : Client F Q M P → Client F Q M P
  notify_readers c = signal Signal.readers c

  unfoldable pub handle_handshake_failure : HandshakeFailure → Client F Q M P → Client F Q M P
  unfolding failure_retval notify_writers
  handle_handshake_failure reason c =
      let job = record (c.job) {
        handshake_failure_reason = reason;
        retval = failure_retval reason;
        done = true;
      } in
      record (notify_writers (record (signal Signal.cancel_timeout c) { job = job })) {
        state = ClientState.closing;
      }

  unfoldable pub handle_open : Client F Q M P → Client F Q M P
  unfolding notify_writers
  handle_open c = notify_writers (record (signal Signal.cancel_timeout c) {
    state = ClientState.opened;
    job = record (c.job) { retval = NsapiError.ok; done = true };
  })

  unfoldable pub handle_close : Client F Q M P → Client F Q M P
  handle_close c = record c { state = ClientState.closing }

module _ {F Q M P : Type 0} (flag : EventFlags F) (queue : MessageQueue Q) (mail : Mail M)
    (rand : ℕ → ℕ) where
  -- The bytes are those that were written through the pointer that `handle_buffer` returned.
  unfoldable pub handle_send : List ℕ → Client F Q M P → Client F Q M P
  unfolding do_work slot_buffer set_slot output_put output_free
  handle_send bytes c = elim c.tx [
    | none ↦ c
    | some slot ↦
        let buf = slot_buffer c.tx_queue slot in
        let written = record buf { mem = write_at buf.mem 0 bytes; size = length bytes } in
        let q = set_slot slot written c.tx_queue in
        let q' =
          if length bytes == 0
          then output_free flag queue (some slot) q
          else (output_put flag queue (some slot) q).1 in
        do_work (record c { tx_queue = q'; tx = none })
  ]

  unfoldable pub handle_buffer : ℕ → Buffer → Client F Q M P → Option (List ℕ) × ℕ × Client F Q M P
  unfolding output_alloc slot_buffer
  handle_buffer size type c =
      let (slot, max, q) = output_alloc flag queue type size c.tx_queue in
      let c' = record c { tx = slot; tx_queue = q } in
      elim slot [ none ↦ (none, max, c') | some b ↦ (some (slot_buffer q b).mem, max, c') ]

  -- The `n`th value of `rand()`.
  unfoldable pub handle_rand : Client F Q M P → ℕ × Client F Q M P
  handle_rand c = (rand c.draws, record c { draws = c.draws + 1 })

  unfoldable pub handle_message : Encoding → Bool → List ℕ → Client F Q M P → Bool × Client F Q M P
  unfolding input_alloc input_put set_block buffer_init notify_readers
  handle_message encoding fin bytes c =
      let (block, q) = input_alloc mail c.input_queue in
      elim block [
        | none ↦ (false, notify_readers (record c { input_queue = q }))
        | some p ↦
            let q' = set_block p (buffer_init bytes encoding fin (q.blocks p)).1 q in
            (true, notify_readers (record c { input_queue = input_put mail p q' }))
      ]

  unfoldable pub handle_close_transport : Client F Q M P → Client F Q M P
  unfolding do_work output_put
  handle_close_transport c =
      do_work (record c { tx_queue = (output_put flag queue none c.tx_queue).1 })

  -- The handlers that `do_open` passes to `wic_init`; `handle_ping` and `handle_pong` do nothing.
  abbrev pub handlers : App (Client F Q M P)
  handlers = record {
    on_message = λ e fin bytes s.
        let (taken, c) = handle_message e fin bytes s.world in (taken, record s { world = c });
    on_open = λ s. with_client handle_open s;
    on_close = λ code reason s. with_client handle_close s;
    on_close_transport = λ s. with_client handle_close_transport s;
    on_handshake_failure = λ reason s. with_client (handle_handshake_failure reason) s;
    on_send = λ bytes type s. with_client (handle_send bytes) s;
    on_buffer = λ size type s.
        let (memory, max, c) = handle_buffer size type s.world in
        (memory, max, record s { world = c });
    rand = λ s. let (r, c) = handle_rand s.world in (r, record s { world = c });
    on_ping = λ s. s;
    on_pong = λ s. s;
  }
