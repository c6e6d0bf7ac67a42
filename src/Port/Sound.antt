-- ===== src/Port/Sound.antt =====
-- The tasks of the worker thread keep a client that its rounds can go on with.
use wic.Base.{
  ℕ, zero, suc, ◌<◌, ◌≡◌, ◌⊎◌, inl, inr, refl, ap, Bool, true, false, List, [], arith, Option-cases,
  Option, some,
}
use wic.Types.{Buffer, Encoding, State, close_abnormal_1, close_normal}
use wic.Stream.{Stream}
use wic.Inst.{Sys, App, with_inst}
use wic.Inst.Carries.{close_with_reason-Has, wic_send-Has}
use wic.Http.{HttpParser, Url}
use wic.Close.{close_with_reason, wic_close_with_reason, wic_close}
use wic.Close.Laws.{close_with_reason-IsClosed}
use wic.Send.{wic_send, wic_send_binary, wic_send_text, allowed_to_send, ready_client, is_opened}
use wic.Receive.Keeps.{wic_send-rx}
use wic.Handshake.Carries.{wic_start-Kept}
use wic.Init.{wic_init, wic_get_state, wic_get_url_schema}
use wic.Init.Laws.{wic_init_lem}
use wic.Parse.Progress.{room}
use wic.Port.Os.{EventFlags, MessageQueue, Mail, MemoryPool, MailShrinks}
use wic.Port.Inputs.{InputQueue, input_get, input_free}
use wic.Port.Client.{Client, handlers, with_client, Signal, signal}
use wic.Port.Handlers.{
  RoomyQueue, Roomy, handlers-KeepsRx, handlers-KeepsClosed, handlers-Carries,
  input_alloc-RoomyQueue,
}
use wic.Port.Jobs.{
  Network, flush_loop, flush_input_queue, start_handshake, connect_socket, open_flushed,
  open_closed, get_rx, socket_of, refusal, do_open, close_by_state, do_close, do_send,
  do_handshake_timeout, give_up, init_arg,
}
use wic.Port.Thread.{Task, run_task}

-- The states in which nothing is parsed or sent.
unfoldable pub is_over : State → Bool
is_over State.init = true
is_over State.closed = true
is_over _ = false

flush_loop-RoomyQueue :
    {M : Type 0} (mail : Mail M) (fuel : ℕ) (q : InputQueue M)
    → MailShrinks mail
    → mail.pending q.mail < fuel
    → RoomyQueue q
    → (q' : InputQueue M) × (flush_loop mail fuel q ≡ some q') × RoomyQueue q'
unfolding flush_loop input_get input_free
flush_loop-RoomyQueue mail zero q less enough h = absurd (omega arith)
flush_loop-RoomyQueue mail (suc fuel) q less enough h =
    let got = mail.get q.mail in
    let q' = record q { mail = got.1 } in
    elim (Option-cases got.0) [
      | inl empty ↦ rw (empty, flush_loop) (q', refl, h)
      | inr (p, there) ↦
          rw (there, flush_loop)
            (flush_loop-RoomyQueue mail fuel (input_free mail p q') less
              (omega (arith, less q.mail p there, enough)) h)
    ]

flush_loop_ends :
    {M : Type 0} (mail : Mail M) (fuel : ℕ) (q : InputQueue M)
    → MailShrinks mail
    → mail.pending q.mail < fuel
    → (q' : InputQueue M) × (flush_loop mail fuel q ≡ some q')
unfolding flush_loop input_get input_free
flush_loop_ends mail zero q less enough = absurd (omega arith)
flush_loop_ends mail (suc fuel) q less enough =
    let q' = record q { mail = (mail.get q.mail).1 } in
    elim (Option-cases (mail.get q.mail).0) [
      | inl empty ↦ rw (empty, flush_loop) (q', refl)
      | inr (p, there) ↦
          rw (there, flush_loop)
            (flush_loop_ends mail fuel (input_free mail p q') less
              (omega (arith, less q.mail p there, enough)))
    ]

-- Flushing the input queue ends where a mail that is got is pending no more.
pub flush_input_queue_ends :
    {F Q M P : Type 0} (flag : EventFlags F) (queue : MessageQueue Q) (mail : Mail M) (rand : ℕ → ℕ)
    (c : Client F Q M P)
    → MailShrinks mail
    → (c' : Client F Q M P) × (flush_input_queue flag queue mail rand c ≡ some c')
unfolding flush_input_queue
flush_input_queue_ends flag queue mail rand c less =
    let (q, flushed) =
      flush_loop_ends mail (suc (mail.pending c.input_queue.mail)) c.input_queue less
        (omega arith) in
    rw (flushed, flush_input_queue) (record c { input_queue = q }, refl)

module _ {F Q M P : Type 0} (flag : EventFlags F) (queue : MessageQueue Q) (mail : Mail M)
    (rand : ℕ → ℕ) where
  abbrev app : App (Client F Q M P)
  app = handlers flag queue mail rand

  -- There is room to receive into, now and in the blocks to come, or the instance is over.
  abbrev pub IsSound : Sys (Client F Q M P) → Type 0
  IsSound s = Roomy s.world × ((0 < room s) ⊎ (is_over s.self.state ≡ true))

  pub close-IsSound :
      (code : ℕ) (b : List ℕ) (t : Buffer) (s : Sys (Client F Q M P))
      → IsSound s
      → IsSound (close_with_reason app code b t s)
  unfolding is_over
  close-IsSound code b t s h =
      let closed =
        close_with_reason-IsClosed app (handlers-KeepsClosed flag queue mail rand) code b t s in
      (
        close_with_reason-Has app Roomy (handlers-Carries flag queue mail rand) code b t s h.0,
        inr (ap is_over closed),
      )

  send_over :
      (e : Encoding) (fin : Bool) (b : List ℕ) (s : Sys (Client F Q M P))
      → is_over s.self.state ≡ true
      → (wic_send app e fin b s).1.self.state ≡ s.self.state
  unfolding wic_send wic_send_binary wic_send_text allowed_to_send ready_client is_opened is_over
  send_over Encoding.utf8 fin b s h = ground (arith, h)
  send_over Encoding.binary fin b s h = ground (arith, h)

  send-IsSound :
      (e : Encoding) (fin : Bool) (b : List ℕ) (s : Sys (Client F Q M P))
      → IsSound s
      → IsSound (wic_send app e fin b s).1
  send-IsSound e fin b s h = (
    wic_send-Has app Roomy (handlers-Carries flag queue mail rand) e fin b s h.0,
    ground (
      arith,
      h.1,
      send_over e fin b s,
      wic_send-rx app (handlers-KeepsRx flag queue mail rand) e fin b s,
    ),
  )

  start_handshake-IsSound :
      (http : HttpParser) (s : Sys (Client F Q M P))
      → IsSound s
      → 0 < room s
      → IsSound (start_handshake flag queue mail rand http s)
  unfolding start_handshake give_up
  start_handshake-IsSound http s h pos =
      let kept =
        wic_start-Kept app Roomy (handlers-Carries flag queue mail rand)
          (handlers-KeepsRx flag queue mail rand) http s h.0 in
      ground (arith, kept, pos)

  connect_socket-IsSound :
      (net : Network) (http : HttpParser) (s : Sys (Client F Q M P))
      → IsSound s
      → 0 < room s
      → IsSound (connect_socket flag queue mail rand net http s)
  unfolding connect_socket give_up
  connect_socket-IsSound net http s h pos =
      let socket = socket_of (wic_get_url_schema s.self) in
      let s' =
        with_client
          (λ c. signal Signal.connect_socket (signal Signal.open_socket (signal socket c))) s in
      ground (arith, h, start_handshake-IsSound http s' h pos)

  open_flushed-IsSound :
      (net : Network) (http : HttpParser) (undef : Url) (p : ℕ) (s : Sys (Client F Q M P))
      → IsSound s
      → IsSound (open_flushed flag queue mail rand net http undef p s)
  unfolding open_flushed give_up is_over init_arg
  open_flushed-IsSound net http undef p s h =
      let block = s.world.input_queue.blocks p in
      let arg = init_arg block.mem block.max s.world in
      elim (Option-cases (wic_init http undef arg)) [
        | inl refused ↦ rw (refused, open_flushed) (h.0, inr refl)
        | inr (inst, made) ↦
            let pos : 0 < inst.rx.s.size =
              ground (arith, wic_init_lem http undef arg inst made, h.0.1 p) in
            rw (made, open_flushed)
              (connect_socket-IsSound net http (with_inst s inst) (h.0, inl pos) pos)
      ]

  -- The outcome of a part of a round: it ends.
  abbrev pub Goes : Option (Sys (Client F Q M P)) → Type 0
  Goes r = (s : Sys (Client F Q M P)) × (r ≡ some s) × IsSound s

  open_closed-Goes :
      (net : Network) (http : HttpParser) (undef : Url) (p : ℕ) (s : Sys (Client F Q M P))
      → MailShrinks mail
      → IsSound s
      → Goes (open_closed flag queue mail rand net http undef p s)
  unfolding open_closed flush_input_queue
  open_closed-Goes net http undef p s less h =
      let q = s.world.input_queue in
      let (q', flushed, roomy) =
        flush_loop-RoomyQueue mail (suc (mail.pending q.mail)) q less (omega arith) h.0 in
      let s' = record s { world = record (s.world) { input_queue = q' } } in
      rw (flushed, open_closed)
        (
          open_flushed flag queue mail rand net http undef p s',
          refl,
          open_flushed-IsSound net http undef p s' (roomy, h.1),
        )

  get_rx-Roomy : (c : Client F Q M P) → Roomy c → Roomy (get_rx flag queue mail rand c)
  unfolding get_rx
  get_rx-Roomy c h = elim (Option-cases c.rx) [
    | inl missing ↦ rw (missing, get_rx) (input_alloc-RoomyQueue mail c.input_queue h)
    | inr (p, there) ↦ rw (there, get_rx) h
  ]

  do_open-Goes :
      (net : Network) (http : HttpParser) (undef : Url) (s : Sys (Client F Q M P))
      → MailShrinks mail
      → IsSound s
      → Goes (do_open flag queue mail rand net http undef s)
  unfolding do_open
  do_open-Goes net http undef s less h =
      let s' = with_client (get_rx flag queue mail rand) s in
      let h' : IsSound s' = (get_rx-Roomy s.world h.0, h.1) in
      elim (Option-cases (refusal s'.world.state)) [
        | inr (retval, refused) ↦ rw (refused, do_open) (_, refl, h')
        | inl closed ↦ elim (Option-cases s'.world.rx) [
          | inl missing ↦ rw (closed, missing, do_open) (s', refl, h')
          | inr (p, there) ↦
              rw (closed, there, do_open) (open_closed-Goes net http undef p s' less h')
        ]
      ]

  close_by_state-IsSound :
      (st : State) (s : Sys (Client F Q M P))
      → IsSound s
      → IsSound (close_by_state flag queue mail rand st s)
  unfolding close_by_state wic_close wic_close_with_reason
  close_by_state-IsSound State.ready s h = close-IsSound close_normal [] Buffer.close s h
  close_by_state-IsSound State.opened s h = close-IsSound close_normal [] Buffer.close s h
  close_by_state-IsSound _ s h = h

  pub run_task-Goes :
      (net : Network) (http : HttpParser) (undef : Url) (pool : MemoryPool P)
      (uncertain : Stream → Bool) (mss : ℕ) (t : Task) (s : Sys (Client F Q M P))
      → MailShrinks mail
      → IsSound s
      → Goes (run_task flag queue mail pool rand http undef uncertain mss net t s)
  unfolding run_task do_close do_send do_handshake_timeout wic_close_with_reason
  run_task-Goes net http undef pool uncertain mss Task.opens s less h =
      do_open-Goes net http undef s less h
  run_task-Goes net http undef pool uncertain mss Task.closes s less h =
      (_, refl, close_by_state-IsSound (wic_get_state s.self) s h)
  run_task-Goes net http undef pool uncertain mss Task.handshake_timeout s less h =
      (_, refl, close-IsSound close_abnormal_1 [] Buffer.close s h)
  run_task-Goes net http undef pool uncertain mss (Task.sends e fin b) s less h =
      (_, refl, send-IsSound e fin b s h)
