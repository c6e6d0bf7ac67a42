-- ===== src/Port/Thread.antt =====
-- `worker_task` of port/mbed/wic_client.cpp, a round of its loop at a time.
use wic.Base.{
  ℕ, zero, suc, ◌+◌, List, [], ◌∷◌, Bool, true, false, Option, none, some, ltb, ◌==◌, if◌then◌else◌,
  length, take, drop, sub_size,
}
use wic.Types.{Encoding, close_abnormal_2}
use wic.Stream.{Stream}
use wic.Inst.{Sys}
use wic.Http.{HttpParser, Url}
use wic.Close.{wic_close_with_reason}
use wic.Parse.{wic_parse}
use wic.Port.Os.{Slot, EventFlags, MessageQueue, Mail, MemoryPool}
use wic.Port.Output.{OutputQueue, slot_buffer, output_free, output_get}
use wic.Port.Client.{ClientState, Client, Worker, do_work, notify_writers, with_client, handlers}
use wic.Port.Jobs.{Network, do_open, do_close, do_send, do_handshake_timeout, do_close_socket}

-- What `events.dispatch(0)` may run.
pub data Task : Type 0 where
  opens closes handshake_timeout : Task
  sends : Encoding → Bool → List ℕ → Task

-- What `socket->recv` returns: bytes, none at the end of the stream, or an error.
pub data Received : Type 0 where
  bytes : List ℕ → Received
  would_block no_socket failed : Received

-- What `socket->send` returns: a number of bytes, or an error.
pub data Sent : Type 0 where
  count : ℕ → Sent
  would_block failed : Sent

-- What the rest of the world does in a round: the tasks that are due, the answers of the network, and
-- those of the socket, to a request of so many bytes and to bytes to send.
pub record Round : Type 0 where
  pub tasks : List Task
  pub net : Network
  pub recv : ℕ → Received
  pub send : List ℕ → Sent

unfoldable pub is_closed : ClientState → Bool
is_closed ClientState.closed = true
is_closed _ = false

module _ {F Q M P : Type 0} where
  abbrev pub with_worker : (Worker → Worker) → Client F Q M P → Client F Q M P
  with_worker f c = record c { worker = f c.worker }

module _ {F Q : Type 0} (flag : EventFlags F) (queue : MessageQueue Q) where
  -- `for(_tx = tx_queue.get(close); _tx; _tx = tx_queue.get(close)) tx_queue.free(_tx);`,
  -- with fuel; none where the fuel runs out.
  unfoldable pub drain_loop : ℕ → OutputQueue F Q → Option (OutputQueue F Q)
  unfolding output_get output_free
  drain_loop zero q = none
  drain_loop (suc fuel) q =
      let (slot, close, q') = output_get flag queue q in
      elim slot [ none ↦ some q' | some b ↦ drain_loop fuel (output_free flag queue (some b) q') ]

  -- One round for each message, and the one that finds none.
  unfoldable pub drain : OutputQueue F Q → Option (OutputQueue F Q)
  unfolding drain_loop
  drain q = drain_loop (suc (queue.waiting q.queue)) q

module _ {F Q M P : Type 0} (flag : EventFlags F) (queue : MessageQueue Q) (mail : Mail M)
    (pool : MemoryPool P) (rand : ℕ → ℕ) (http : HttpParser) (undef_url : Url)
    (undef : Stream → Bool) (mss : ℕ) where
  unfoldable pub run_task : Network → Task → Sys (Client F Q M P) → Option (Sys (Client F Q M P))
  run_task net Task.opens s = do_open flag queue mail rand net http undef_url s
  run_task net Task.closes s = some (do_close flag queue mail rand s)
  run_task net Task.handshake_timeout s = some (do_handshake_timeout flag queue mail rand s)
  run_task net (Task.sends encoding fin b) s = some (do_send flag queue mail rand encoding fin b s)

  -- `events.dispatch(0)`
  unfoldable pub dispatch :
      Network → List Task → Sys (Client F Q M P) → Option (Sys (Client F Q M P))
  unfolding run_task
  dispatch net [] s = some s
  dispatch net (t ∷ tasks) s = elim (run_task net t s) [
    | none ↦ none
    | some s' ↦ dispatch net tasks s'
  ]

  -- `wic_parse` by the client: the bytes consumed; none where it does not end.
  unfoldable pub parse : List ℕ → Sys (Client F Q M P) → Option (ℕ × Sys (Client F Q M P))
  parse b s = wic_parse (handlers flag queue mail rand) undef http b s

  unfoldable pub parse_nothing : Sys (Client F Q M P) → Option (Sys (Client F Q M P))
  unfolding is_closed parse
  parse_nothing s =
      if is_closed s.world.state
      then some s
      else elim (parse [] s) [ none ↦ none | some (n, s') ↦ some s' ]

  -- `try to get an RX buffer`
  unfoldable pub get_rx_buffer : Client F Q M P → Client F Q M P
  get_rx_buffer c = elim c.worker.rx [
    | some b ↦ c
    | none ↦
        let (there, p) = pool.alloc c.rx_pool in
        with_worker (λ w. record w { rx = if there then some [] else none; rx_pos = 0 })
          (record c { rx_pool = p })
  ]

  unfoldable pub free_rx : Client F Q M P → Client F Q M P
  free_rx c = with_worker (λ w. record w { rx = none }) (record c { rx_pool = pool.free c.rx_pool })

  -- The socket has failed.
  unfoldable pub lose_connection : Sys (Client F Q M P) → Sys (Client F Q M P)
  unfolding free_rx do_work
  lose_connection s =
      let s' = wic_close_with_reason (handlers flag queue mail rand) close_abnormal_2 [] s in
      with_client (λ c. free_rx (do_work c)) s'

  -- `if(retval > 0)`, and `switch(retval)` of the read: no bytes are the end of the stream.
  unfoldable pub take_received : Received → Sys (Client F Q M P) → Sys (Client F Q M P)
  unfolding lose_connection
  take_received (Received.bytes []) s = lose_connection s
  take_received (Received.bytes (x ∷ b)) s =
      with_client (λ c. with_worker (λ w. record w { rx = some (x ∷ b) }) c) s
  take_received Received.would_block s = s
  take_received Received.no_socket s = s
  take_received Received.failed s = lose_connection s

  -- `try to read the socket if there is a zeroed RX buffer`
  unfoldable pub read_socket : (ℕ → Received) → Sys (Client F Q M P) → Sys (Client F Q M P)
  unfolding take_received
  read_socket recv s = elim s.world.worker.rx [
    | none ↦ s
    | some b ↦ if length b == 0 then take_received (recv mss) s else s
  ]

  -- `try to parse the data read from socket`
  unfoldable pub parse_received : Sys (Client F Q M P) → Option (Sys (Client F Q M P))
  unfolding parse free_rx do_work
  parse_received s = elim s.world.worker.rx [
    | none ↦ some s
    | some b ↦ if length b == 0 then some s else elim (parse (drop s.world.worker.rx_pos b) s) [
      | none ↦ none
      | some (n, s') ↦
          let pos = s'.world.worker.rx_pos + n in
          let c = with_worker (λ w. record w { rx_pos = pos }) s'.world in
          some (record s' { world = if pos == length b then do_work (free_rx c) else c })
    ]
  ]

  -- `do_close_socket` and `do_work` with the drained queue, if there is one.
  unfoldable pub close_drained : Option (OutputQueue F Q) → Client F Q M P → Option (Client F Q M P)
  unfolding do_close_socket do_work
  close_drained none c = none
  close_drained (some q) c = some (
      do_work
        (do_close_socket (with_worker (λ w. record w { tx = none }) (record c { tx_queue = q }))))

  -- `try to get a TX buffer`
  unfoldable pub get_tx_buffer : Client F Q M P → Option (Client F Q M P)
  unfolding output_get drain close_drained
  get_tx_buffer c = elim c.worker.tx [
    | some b ↦ some c
    | none ↦
        let (slot, close, q) = output_get flag queue c.tx_queue in
        let c' =
          with_worker (λ w. record w { tx = slot; tx_pos = 0 }) (record c { tx_queue = q }) in
        if close then close_drained (drain flag queue q) c' else some c'
  ]

  -- The buffer has been sent, or sending it has failed.
  unfoldable pub release_tx : Slot → Client F Q M P → Client F Q M P
  unfolding output_free notify_writers do_work
  release_tx slot c = do_work (
      notify_writers (
        with_worker (λ w. record w { tx = none })
          (record c { tx_queue = output_free flag queue (some slot) c.tx_queue })))

  unfoldable pub take_sent : Slot → ℕ → Sent → Client F Q M P → Client F Q M P
  unfolding release_tx
  take_sent slot size (Sent.count n) c =
      let c' = with_worker (λ w. record w { tx_pos = w.tx_pos + n }) c in
      if c'.worker.tx_pos == size then release_tx slot c' else c'
  take_sent slot size Sent.would_block c = c
  take_sent slot size Sent.failed c = release_tx slot c

  -- `&_tx->data[tx_pos]` and `to_write`: the bytes to send next, MBED_CONF_WIC_MSS of them at most.
  unfoldable pub next_chunk : Slot → Client F Q M P → List ℕ
  unfolding slot_buffer
  next_chunk slot c =
      let buf = slot_buffer c.tx_queue slot in
      let left = sub_size buf.size c.worker.tx_pos in
      take (if ltb mss left then mss else left) (drop c.worker.tx_pos buf.mem)

  -- `try to write the TX buffer to the socket`
  unfoldable pub write_socket : (List ℕ → Sent) → Client F Q M P → Client F Q M P
  unfolding take_sent slot_buffer next_chunk
  write_socket send c = elim c.worker.tx [
    | none ↦ c
    | some slot ↦ take_sent slot (slot_buffer c.tx_queue slot).size (send (next_chunk slot c)) c
  ]

  -- A round behind `work.acquire()`; none where one of its loops does not end.
  unfoldable pub worker_round : Round → Sys (Client F Q M P) → Option (Sys (Client F Q M P))
  unfolding dispatch parse_nothing get_rx_buffer read_socket parse_received get_tx_buffer
      write_socket
  worker_round r s = elim (dispatch r.net r.tasks s) [
    | none ↦ none
    | some s0 ↦ elim (parse_nothing s0) [
      | none ↦ none
      | some s1 ↦ elim (parse_received (read_socket r.recv (with_client get_rx_buffer s1))) [
        | none ↦ none
        | some s2 ↦ elim (get_tx_buffer s2.world) [
          | none ↦ none
          | some c ↦ some (record s2 { world = write_socket r.send c })
        ]
      ]
    ]
  ]

  -- `for(;;)`, for the rounds that there are.
  unfoldable pub worker_task : List Round → Sys (Client F Q M P) → Option (Sys (Client F Q M P))
  unfolding worker_round
  worker_task [] s = some s
  worker_task (r ∷ rounds) s = elim (worker_round r s) [
    | none ↦ none
    | some s' ↦ worker_task rounds s'
  ]
