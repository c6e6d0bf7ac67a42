-- ===== src/Port/Jobs.antt =====
-- What the worker thread does at the request of the public methods: `do_open`, `do_close`, `do_send`,
-- `do_handshake_timeout` and `do_close_socket` of port/mbed/wic_client.cpp.
use wic.Base.{ℕ, zero, suc, List, [], Bool, true, false, Option, none, some, if◌then◌else◌}
use wic.Types.{Encoding, Role, Schema, State, Status, close_abnormal_1}
use wic.Inst.{Sys, with_inst}
use wic.Http.{HttpParser, Url}
use wic.Close.{wic_close, wic_close_with_reason, is_success}
use wic.Send.{wic_send}
use wic.Init.{
  InitArg, zeroed, wic_init, wic_get_url_hostname, wic_get_url_port, wic_get_url_schema,
  wic_get_state,
}
use wic.Handshake.{wic_start}
use wic.Port.Os.{EventFlags, MessageQueue, Mail}
use wic.Port.Inputs.{InputQueue, input_alloc, input_free, input_get}
use wic.Port.Client.{
  ClientState, NsapiError, Client, Signal, signal, notify_writers, notify_readers, with_client,
  handlers,
}

-- What the network answers: `gethostbyname` for a host's name, and `connect` of the socket to a port.
pub record Network : Type 0 where
  pub gethostbyname : Option (List ℕ) → NsapiError
  pub connect : Signal → ℕ → NsapiError

-- `err == NSAPI_ERROR_OK`
unfoldable pub is_ok : NsapiError → Bool
is_ok NsapiError.ok = true
is_ok _ = false

-- `switch(wic_get_url_schema(&inst))`: the socket.
unfoldable pub socket_of : Schema → Signal
socket_of Schema.https = Signal.use_tls
socket_of Schema.wss = Signal.use_tls
socket_of _ = Signal.use_tcp

-- The retval for a client that is not closed; `none` for one that is.
unfoldable pub refusal : ClientState → Option NsapiError
refusal ClientState.closed = none
refusal ClientState.opened = some NsapiError.is_connected
refusal _ = some NsapiError.busy

module _ {F Q M P : Type 0} where
  abbrev pub with_job : Bool → NsapiError → Client F Q M P → Client F Q M P
  with_job done retval c = record c { job = record (c.job) { done = done; retval = retval } }

  -- `job.retval = retval`
  abbrev pub set_retval : NsapiError → Client F Q M P → Client F Q M P
  set_retval retval c = record c { job = record (c.job) { retval = retval } }

  abbrev pub set_status : Status → Client F Q M P → Client F Q M P
  set_status status c = record c { job = record (c.job) { status = status } }

  unfoldable pub do_close_socket : Client F Q M P → Client F Q M P
  unfolding notify_readers notify_writers
  do_close_socket c =
      let c' = signal Signal.close_socket c in
      notify_writers (
        notify_readers
          (record c' { job = record (c.job) { done = true }; state = ClientState.closed }))

  -- `job.retval = retval; do_close_socket();`
  unfoldable pub give_up : NsapiError → Sys (Client F Q M P) → Sys (Client F Q M P)
  unfolding do_close_socket
  give_up retval s = with_client (λ c. do_close_socket (set_retval retval c)) s

  -- `init_arg`: the handlers of the client, and a block of the input queue to receive into.
  unfoldable pub init_arg : List ℕ → ℕ → Client F Q M P → InitArg
  init_arg memory max c = record {
    rx = memory;
    rx_max = max;
    on_message = true;
    on_open = true;
    on_close = true;
    on_close_transport = true;
    on_handshake_failure = true;
    on_ping = false;
    on_pong = false;
    rand = true;
    on_send = true;
    on_buffer = true;
    app = 0;
    url = some c.url;
    role = Role.client;
  }

module _ {M : Type 0} (mail : Mail M) where
  -- The loop of `flush_input_queue`, with fuel; none where the fuel runs out.
  unfoldable pub flush_loop : ℕ → InputQueue M → Option (InputQueue M)
  unfolding input_get input_free
  flush_loop zero q = none
  flush_loop (suc fuel) q =
      let (block, q') = input_get mail q in
      elim block [ none ↦ some q' | some p ↦ flush_loop fuel (input_free mail p q') ]

module _ {F Q M P : Type 0} (flag : EventFlags F) (queue : MessageQueue Q) (mail : Mail M)
    (rand : ℕ → ℕ) where
  -- One round for each mail, and the one that finds none.
  unfoldable pub flush_input_queue : Client F Q M P → Option (Client F Q M P)
  unfolding flush_loop
  flush_input_queue c =
      elim (flush_loop mail (suc (mail.pending c.input_queue.mail)) c.input_queue) [
        | none ↦ none
        | some q ↦ some (record c { input_queue = q })
      ]

  -- The end of `do_open`: the handshake is started over the socket that has been connected.
  unfoldable pub start_handshake : HttpParser → Sys (Client F Q M P) → Sys (Client F Q M P)
  unfolding give_up is_success
  start_handshake http s =
      let (status, s') = wic_start (handlers flag queue mail rand) http s in
      let s'' = with_client (set_status status) s' in
      if is_success status
      then with_client (λ c. signal Signal.start_timeout (record c { state = ClientState.opening }))
          s''
      else give_up NsapiError.ok s''

  -- `do_open` from `gethostbyname` on.
  unfoldable pub connect_socket : Network → HttpParser → Sys (Client F Q M P) → Sys (Client F Q M P)
  unfolding is_ok socket_of give_up
  connect_socket net http s =
      let err = net.gethostbyname (wic_get_url_hostname s.self) in
      if is_ok err
      then (let socket = socket_of (wic_get_url_schema s.self) in
          let err' = net.connect socket (wic_get_url_port s.self) in
          let s' =
            with_client
              (λ c. signal Signal.connect_socket (signal Signal.open_socket (signal socket c))) s in
          if is_ok err' then start_handshake http s' else give_up err' s')
      else give_up err s

  -- `do_open` for a closed client that has a block to receive into. Where `wic_init` fails, it has
  -- cleared the instance.
  unfoldable pub open_flushed :
      Network → HttpParser → Url → ℕ → Sys (Client F Q M P) → Sys (Client F Q M P)
  unfolding init_arg give_up
  open_flushed net http undef p s =
      let block = s.world.input_queue.blocks p in
      elim (wic_init http undef (init_arg block.mem block.max s.world)) [
        | none ↦ give_up NsapiError.parameter (with_inst s zeroed)
        | some inst ↦ connect_socket net http (with_inst s inst)
      ]

  -- The same from the flush on; none where the flush does not end.
  unfoldable pub open_closed :
      Network → HttpParser → Url → ℕ → Sys (Client F Q M P) → Option (Sys (Client F Q M P))
  unfolding flush_input_queue open_flushed
  open_closed net http undef p s = elim (flush_input_queue s.world) [
    | none ↦ none
    | some c ↦ some (open_flushed net http undef p (record s { world = c }))
  ]

  -- `if(!rx){ rx = input_queue.alloc(); }`
  unfoldable pub get_rx : Client F Q M P → Client F Q M P
  unfolding input_alloc
  get_rx c = elim c.rx [
    | some p ↦ c
    | none ↦
        let (block, q) = input_alloc mail c.input_queue in record c { input_queue = q; rx = block }
  ]

  -- Without a block to receive into, the source would follow a NULL pointer; nothing is done here.
  unfoldable pub do_open :
      Network → HttpParser → Url → Sys (Client F Q M P) → Option (Sys (Client F Q M P))
  unfolding get_rx refusal notify_writers open_closed
  do_open net http undef s =
      let s' = with_client get_rx s in
      elim (refusal s'.world.state) [
        | some retval ↦ some (with_client (λ c. notify_writers (with_job true retval c)) s')
        | none ↦ elim s'.world.rx [ none ↦ some s' | some p ↦ open_closed net http undef p s' ]
      ]

  -- `switch(wic_get_state(&inst))` of `do_close`.
  unfoldable pub close_by_state : State → Sys (Client F Q M P) → Sys (Client F Q M P)
  unfolding notify_writers
  close_by_state State.ready s = wic_close (handlers flag queue mail rand) s
  close_by_state State.opened s = wic_close (handlers flag queue mail rand) s
  close_by_state _ s = with_client (λ c. notify_writers (with_job true NsapiError.ok c)) s

  unfoldable pub do_close : Sys (Client F Q M P) → Sys (Client F Q M P)
  do_close s = close_by_state (wic_get_state s.self) s

  unfoldable pub do_send : Encoding → Bool → List ℕ → Sys (Client F Q M P) → Sys (Client F Q M P)
  unfolding notify_writers
  do_send encoding fin bytes s =
      let (status, s') = wic_send (handlers flag queue mail rand) encoding fin bytes s in
      with_client
        (λ c. notify_writers (record c { job = record (c.job) { status = status; done = true } }))
        s'

  unfoldable pub do_handshake_timeout : Sys (Client F Q M P) → Sys (Client F Q M P)
  do_handshake_timeout s =
      wic_close_with_reason (handlers flag queue mail rand) close_abnormal_1 [] s
