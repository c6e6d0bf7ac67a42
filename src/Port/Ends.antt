-- ===== src/Port/Ends.antt =====
-- The worker thread of the mbed port: each of its rounds ends, for `wic_parse` and its own loops do.
use wic.Base.{
  ℕ, zero, suc, ◌<◌, ◌+◌, ◌≡◌, ◌≢◌, inl, inr, refl, ◌∙◌, Bool, true, Option, none, some, List, [],
  ◌∷◌, arith, length, drop, Option-cases, Bool-cases, ◌==◌,
}
use wic.Types.{Buffer, close_abnormal_2}
use wic.Stream.{Stream}
use wic.Inst.{Sys, App}
use wic.Http.{HttpParser, Url}
use wic.Close.{wic_close_with_reason}
use wic.Send.{is_opened}
use wic.Parse.{wic_parse, is_parsing}
use wic.Parse.Ends.{wic_parse_ends}
use wic.Parse.Carries.{wic_parse-Live}
use wic.Port.Os.{Slot, EventFlags, MessageQueue, Mail, MemoryPool, QueueShrinks, MailShrinks}
use wic.Port.Client.{Client, do_work, notify_readers, notify_writers, handlers, with_client}
use wic.Port.Jobs.{Network, do_close_socket}
use wic.Port.Handlers.{Roomy, handlers-KeepsRx, handlers-Carries}
use wic.Port.Sound.{is_over, IsSound, Goes, close-IsSound, run_task-Goes}
use wic.Port.Output.{OutputQueue, output_get, output_free}
use wic.Port.Thread.{
  drain_loop, drain, close_drained, with_worker, Task, Round, Received, Sent, is_closed, release_tx,
  take_sent, free_rx, dispatch, parse, parse_nothing, get_rx_buffer, lose_connection, take_received,
  read_socket, parse_received, get_tx_buffer, write_socket, worker_round, worker_task,
}

output_get-queue :
    {F Q : Type 0} (flag : EventFlags F) (queue : MessageQueue Q) (q : OutputQueue F Q)
    → (output_get flag queue q).2.queue ≡ (queue.get q.queue).1
unfolding output_get
output_get-queue flag queue q = elim (Option-cases (queue.get q.queue).0) [
  | inl empty ↦ ground (arith, empty)
  | inr (none, there) ↦ ground (arith, there)
  | inr (some slot, there) ↦ ground (arith, there)
]

drain_loop_ends :
    {F Q : Type 0} (flag : EventFlags F) (queue : MessageQueue Q) (fuel : ℕ) (q : OutputQueue F Q)
    → QueueShrinks queue
    → queue.waiting q.queue < fuel
    → (q' : OutputQueue F Q) × (drain_loop flag queue fuel q ≡ some q')
unfolding drain_loop output_get output_free
drain_loop_ends flag queue zero q less enough = absurd (omega arith)
drain_loop_ends flag queue (suc fuel) q less enough =
    let q' = (output_get flag queue q).2 in
    elim (Option-cases (queue.get q.queue).0) [
      | inl empty ↦ rw (empty, drain_loop) (_, refl)
      | inr (none, there) ↦ rw (there, drain_loop) (_, refl)
      | inr (some slot, there) ↦
          rw (there, drain_loop)
            (drain_loop_ends flag queue fuel (output_free flag queue (some slot) q') less (
              ground
                (arith, less q.queue (some slot) there, enough, output_get-queue flag queue q)))
    ]

-- Draining the output queue ends where a message that is got waits no more.
drain_ends :
    {F Q : Type 0} (flag : EventFlags F) (queue : MessageQueue Q) (q : OutputQueue F Q)
    → QueueShrinks queue
    → (q' : OutputQueue F Q) × (drain flag queue q ≡ some q')
unfolding drain
drain_ends flag queue q less =
    drain_loop_ends flag queue (suc (queue.waiting q.queue)) q less (omega arith)

module _ {F Q M P : Type 0} (flag : EventFlags F) (queue : MessageQueue Q) (mail : Mail M)
    (pool : MemoryPool P) (rand : ℕ → ℕ) (http : HttpParser) (undef_url : Url)
    (undef : Stream → Bool) (mss : ℕ) where
  abbrev Sound : Sys (Client F Q M P) → Type 0
  Sound s = IsSound flag queue mail rand s

  abbrev app : App (Client F Q M P)
  app = handlers flag queue mail rand

  abbrev Ends : Option (Sys (Client F Q M P)) → Type 0
  Ends r = Goes flag queue mail rand r

  dispatch-Ends :
      (net : Network) (tasks : List Task) (s : Sys (Client F Q M P))
      → MailShrinks mail
      → Sound s
      → Ends (dispatch flag queue mail pool rand http undef_url undef mss net tasks s)
  unfolding dispatch
  dispatch-Ends net [] s less h = (s, refl, h)
  dispatch-Ends net (t ∷ tasks) s less h =
      let (s', e, h') =
        run_task-Goes flag queue mail rand net http undef_url pool undef mss t s less h in
      rw (e, dispatch) (dispatch-Ends net tasks s' less h')

  -- Where the instance is over, the input is taken and nothing is done.
  parse_over :
      (b : List ℕ) (s : Sys (Client F Q M P))
      → is_over s.self.state ≡ true
      → wic_parse app undef http b s ≡ some (length b, s)
  unfolding wic_parse is_parsing is_opened is_over
  parse_over b s h = ground (arith, h)

  parse-Goes :
      (b : List ℕ) (s : Sys (Client F Q M P))
      → Sound s
      → (r : ℕ × Sys (Client F Q M P)) × (parse flag queue mail pool rand http undef_url undef mss b
            s
          ≡ some r)
        × Sound r.1
  unfolding parse
  parse-Goes b s (h, inr over) = ((length b, s), parse_over b s over, (h, inr over))
  parse-Goes b s (h, inl pos) = elim (Option-cases (wic_parse app undef http b s)) [
    | inl out ↦
        absurd (wic_parse_ends app undef http b s (handlers-KeepsRx flag queue mail rand) pos out)
    | inr (r, got) ↦
        let live =
          wic_parse-Live app Roomy (handlers-Carries flag queue mail rand)
            (handlers-KeepsRx flag queue mail rand) undef http b s r.0 r.1 (h, pos) got in
        (r, got, (live.0, inl live.1))
  ]

  parse_nothing-Ends :
      (s : Sys (Client F Q M P))
      → Sound s
      → Ends (parse_nothing flag queue mail pool rand http undef_url undef mss s)
  unfolding parse_nothing
  parse_nothing-Ends s h = elim (Bool-cases (is_closed s.world.state)) [
    | inl closed ↦ rw (closed, parse_nothing) (s, refl, h)
    | inr going ↦
        let (r, got, h') = parse-Goes [] s h in rw (going, got, parse_nothing) (r.1, refl, h')
  ]

  get_rx_buffer-keeps :
      (c : Client F Q M P)
      → (get_rx_buffer flag queue mail pool rand http undef_url undef mss c).input_queue
        ≡ c.input_queue
  unfolding get_rx_buffer
  get_rx_buffer-keeps c = ground (arith, Option-cases c.worker.rx)

  close_drained-keeps :
      (q : OutputQueue F Q) (c : Client F Q M P)
      → (c' : Client F Q M P) × (close_drained flag queue mail pool rand http undef_url undef mss
            (some q)
            c
          ≡ some c')
        × (c'.input_queue ≡ c.input_queue)
  unfolding close_drained do_close_socket do_work notify_readers notify_writers
  close_drained-keeps q c = (_, refl, refl)

  -- A buffer is taken, or the queue is drained, which ends.
  get_tx_buffer_ends :
      (c : Client F Q M P)
      → QueueShrinks queue
      → (c' : Client F Q M P) × (get_tx_buffer flag queue mail pool rand http undef_url undef mss c
          ≡ some c')
        × (c'.input_queue ≡ c.input_queue)
  unfolding get_tx_buffer
  get_tx_buffer_ends c less = elim (Option-cases c.worker.tx) [
    | inr (slot, there) ↦ rw (there, get_tx_buffer) (c, refl, refl)
    | inl nothing ↦
        let (slot, close, q) = output_get flag queue c.tx_queue in
        let (q', drained) = drain_ends flag queue q less in
        let c1 =
          with_worker (λ w. record w { tx = slot; tx_pos = 0 }) (record c { tx_queue = q }) in
        elim (Bool-cases close) [
          | inl closing ↦ rw (nothing, closing, drained, get_tx_buffer) (close_drained-keeps q' c1)
          | inr going ↦ rw (nothing, going, get_tx_buffer) (c1, refl, refl)
        ]
  ]

  take_sent-keeps :
      (slot : Slot) (n : ℕ) (r : Sent) (c : Client F Q M P)
      → (take_sent flag queue mail pool rand http undef_url undef mss slot n r c).input_queue
        ≡ c.input_queue
  unfolding take_sent release_tx do_work notify_writers
  take_sent-keeps slot n (Sent.count k) c = ground arith
  take_sent-keeps slot n Sent.would_block c = refl
  take_sent-keeps slot n Sent.failed c = refl

  write_socket-keeps :
      (send : List ℕ → Sent) (c : Client F Q M P)
      → (write_socket flag queue mail pool rand http undef_url undef mss send c).input_queue
        ≡ c.input_queue
  unfolding write_socket
  write_socket-keeps send c = elim (Option-cases c.worker.tx) [
    | inl nothing ↦ rw (nothing, write_socket) refl
    | inr (slot, there) ↦ rw (there, write_socket) (take_sent-keeps slot _ _ c)
  ]

  lose_connection-IsSound :
      (s : Sys (Client F Q M P))
      → Sound s
      → Sound (lose_connection flag queue mail pool rand http undef_url undef mss s)
  unfolding lose_connection free_rx do_work wic_close_with_reason
  lose_connection-IsSound s h =
      close-IsSound flag queue mail rand close_abnormal_2 [] Buffer.close s h

  take_received-IsSound :
      (r : Received) (s : Sys (Client F Q M P))
      → Sound s
      → Sound (take_received flag queue mail pool rand http undef_url undef mss r s)
  unfolding take_received
  take_received-IsSound (Received.bytes []) s h = lose_connection-IsSound s h
  take_received-IsSound (Received.bytes (x ∷ b)) s h = h
  take_received-IsSound Received.would_block s h = h
  take_received-IsSound Received.no_socket s h = h
  take_received-IsSound Received.failed s h = lose_connection-IsSound s h

  read_socket-IsSound :
      (recv : ℕ → Received) (s : Sys (Client F Q M P))
      → Sound s
      → Sound (read_socket flag queue mail pool rand http undef_url undef mss recv s)
  unfolding read_socket
  read_socket-IsSound recv s h = elim (Option-cases s.world.worker.rx) [
    | inl nothing ↦ rw (nothing, read_socket) h
    | inr (b, there) ↦ elim (Bool-cases (length b == 0)) [
      | inl zeroed ↦ rw (there, zeroed, read_socket) (take_received-IsSound (recv mss) s h)
      | inr filled ↦ rw (there, filled, read_socket) h
    ]
  ]

  parse_received-Ends :
      (s : Sys (Client F Q M P))
      → Sound s
      → Ends (parse_received flag queue mail pool rand http undef_url undef mss s)
  unfolding parse_received free_rx do_work
  parse_received-Ends s h = elim (Option-cases s.world.worker.rx) [
    | inl nothing ↦ rw (nothing, parse_received) (s, refl, h)
    | inr (b, there) ↦ elim (Bool-cases (length b == 0)) [
      | inl zeroed ↦ rw (there, zeroed, parse_received) (s, refl, h)
      | inr filled ↦
          let (r, got, h') = parse-Goes (drop s.world.worker.rx_pos b) s h in
          elim (Bool-cases (r.1.world.worker.rx_pos + r.0 == length b)) [
            | inl over ↦ rw (there, filled, got, over, parse_received) (_, refl, h')
            | inr more ↦ rw (there, filled, got, more, parse_received) (_, refl, h')
          ]
    ]
  ]

  with_client-IsSound :
      (f : Client F Q M P → Client F Q M P) (s : Sys (Client F Q M P))
      → (f s.world).input_queue ≡ s.world.input_queue
      → Sound s
      → Sound (with_client f s)
  with_client-IsSound f s e h = (rw e h.0, h.1)

  worker_round-Ends :
      (r : Round) (s : Sys (Client F Q M P))
      → QueueShrinks queue
      → MailShrinks mail
      → Sound s
      → Ends (worker_round flag queue mail pool rand http undef_url undef mss r s)
  unfolding worker_round
  worker_round-Ends r s drains flushes h =
      let (s0, e0, h0) = dispatch-Ends r.net r.tasks s flushes h in
      let get_rx = get_rx_buffer flag queue mail pool rand http undef_url undef mss in
      let write = write_socket flag queue mail pool rand http undef_url undef mss r.send in
      let (s1, e1, h1) = parse_nothing-Ends s0 h0 in
      let h1' = with_client-IsSound get_rx s1 (get_rx_buffer-keeps s1.world) h1 in
      let (s2, e2, h2) =
        parse_received-Ends
          (read_socket flag queue mail pool rand http undef_url undef mss r.recv
            (with_client get_rx s1))
          (read_socket-IsSound r.recv (with_client get_rx s1) h1') in
      let (c, e3, same) = get_tx_buffer_ends s2.world drains in
      rw (e0, e1, e2, e3, worker_round)
        (
          record s2 { world = write c },
          refl,
          with_client-IsSound (λ x. write c) s2 (write_socket-keeps r.send c ∙ same) h2,
        )

-- The worker thread does not hang: from a client whose instance has room to receive into, or is not
-- started or is closed, and whose input queue has blocks of one byte or more, it goes through any
-- rounds, whatever the tasks, the network and the peer's bytes are, where a message or a mail that is
-- got from a queue of the operating system waits there no more.
pub worker_task_ends :
    {F Q M P : Type 0} (flag : EventFlags F) (queue : MessageQueue Q) (mail : Mail M)
    (pool : MemoryPool P) (rand : ℕ → ℕ) (http : HttpParser) (undef_url : Url)
    (undef : Stream → Bool) (mss : ℕ) (rounds : List Round) (s : Sys (Client F Q M P))
    → QueueShrinks queue
    → MailShrinks mail
    → IsSound flag queue mail rand s
    → worker_task flag queue mail pool rand http undef_url undef mss rounds s ≢ none
unfolding worker_task
worker_task_ends flag queue mail pool rand http undef_url undef mss [] s drains flushes h = λ e. cc
worker_task_ends flag queue mail pool rand http undef_url undef mss (r ∷ rounds) s drains flushes
      h =
    let (s', e, h') =
      worker_round-Ends flag queue mail pool rand http undef_url undef mss r s drains flushes h in
    rw (e, worker_task)
      (worker_task_ends flag queue mail pool rand http undef_url undef mss rounds s' drains flushes
        h')
