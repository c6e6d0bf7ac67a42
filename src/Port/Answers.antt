-- ===== src/Port/Answers.antt =====
-- Every request to open the client is answered.
use wic.Base.{
  ℕ, ◌≡◌, ◌⊎◌, inl, inr, refl, ◌∙◌, ap, true, false, none, some, List, ◌∷◌, Option, arith, ◌≢◌,
  Option-cases, Bool-cases,
}
use wic.Types.{Buffer, Role, State, Status}
use wic.Stream.{Stream, stream_init}
use wic.Base64.{b64_encode}
use wic.Sha1.{server_hash}
use wic.Inst.{Inst, Sys, App, with_inst}
use wic.Inst.Handlers.{
  call_buffer, call_rand, call_send, call_close_transport, call_handshake_failure,
}
use wic.Http.{HttpParser, Url}
use wic.Close.{close_in_state, close_with_reason, wic_close_with_reason, is_success}
use wic.Frame.{is_client}
use wic.Init.{
  wic_init, fill_inst, init_url, wic_get_url_schema, wic_get_url_hostname, wic_get_url_port, zeroed,
  InitArg,
}
use wic.Handshake.{
  send_handshake, make_nonce, client_handshake, start_client, start_in_role, wic_start, request,
  url_zero,
}
use wic.Port.Os.{EventFlags, MessageQueue, Mail, MailShrinks}
use wic.Port.Client.{
  Client, ClientState, NsapiError, handlers, with_client, handle_handshake_failure, Signal, signal,
  notify_writers, notify_readers,
}
use wic.Port.Sound.{flush_input_queue_ends}
use wic.Port.Jobs.{
  Network, start_handshake, connect_socket, open_flushed, open_closed, get_rx, refusal, do_open,
  do_handshake_timeout, give_up, do_close_socket, init_arg, socket_of, set_status, is_ok,
}

wic_init-kept :
    (http : HttpParser) (undef : Url) (arg : InitArg) (i : Inst)
    → wic_init http undef arg ≡ some i
    → (i.role ≡ arg.role) × (i.on_handshake_failure ≡ arg.on_handshake_failure)
unfolding wic_init fill_inst is_client
wic_init-kept http undef arg i e = ground (arith, Option-cases (init_url http undef arg.url))

module _ {F Q M P : Type 0} (flag : EventFlags F) (queue : MessageQueue Q) (mail : Mail M)
    (rand : ℕ → ℕ) where
  abbrev app : App (Client F Q M P)
  app = handlers flag queue mail rand

  call_rand-self : (n : ℕ) (s : Sys (Client F Q M P)) → (call_rand app n s).1.self ≡ s.self
  unfolding call_rand
  call_rand-self n s = ground arith

  make_nonce-self : (s : Sys (Client F Q M P)) → (make_nonce app s).1.self ≡ s.self
  unfolding make_nonce
  make_nonce-self s =
      let next = λ (s : Sys (Client F Q M P)). (call_rand app 0xaaaaaaaa s).1 in
      call_rand-self 0xaaaaaaaa (next (next (next s)))
      ∙ call_rand-self 0xaaaaaaaa (next (next s))
      ∙ call_rand-self 0xaaaaaaaa (next s)
      ∙ call_rand-self 0xaaaaaaaa s

  -- A start of the handshake: refused, or under way, with the handler for its failure kept.
  abbrev Started : Sys (Client F Q M P) → Status × Sys (Client F Q M P) → Type 0
  Started s (status, s') =
      (is_success status ≡ false)
      ⊎ (s'.self.state ≡ State.parse_handshake)
        × (s'.self.on_handshake_failure ≡ s.self.on_handshake_failure)

  send_handshake-Started :
      (tx : Stream) (s : Sys (Client F Q M P))
      → Started s (send_handshake app State.parse_handshake tx s)
  unfolding send_handshake call_send is_success
  send_handshake-Started tx s = ground arith

  client_handshake-Started :
      (url : List ℕ) (u : Url) (buf : List ℕ) (max : ℕ) (s : Sys (Client F Q M P))
      → Started s (client_handshake app url u buf max s)
  unfolding client_handshake
  client_handshake-Started url u buf max s =
      let nonce = make_nonce app s in
      let b64 = b64_encode nonce.0 24 in
      let s2 = with_inst nonce.1 (record (nonce.1.self) { hash = server_hash b64 }) in
      let tx = request url u b64 s2.self.tx_header (stream_init buf max) in
      let kept : s2.self.on_handshake_failure ≡ s.self.on_handshake_failure =
        ap (λ (i : Inst). i.on_handshake_failure) (make_nonce-self s) in
      elim (send_handshake-Started tx s2) [
        | inl refused ↦ inl refused
        | inr (state, failure) ↦ inr (state, failure ∙ kept)
      ]

  start_client-Started :
      (http : HttpParser) (s : Sys (Client F Q M P)) → Started s (start_client app http s)
  unfolding start_client is_success call_buffer
  start_client-Started http s =
      let b = call_buffer app 0 Buffer.http s in
      elim (Option-cases s.self.url) [
        | inl missing ↦ ground (arith, missing)
        | inr (url, there) ↦ elim (Option-cases (http.parse_url url url_zero)) [
          | inl bad ↦ ground (arith, there, bad)
          | inr (u, good) ↦ elim (Option-cases b.0) [
            | inl blocked ↦ ground (arith, there, good, blocked)
            | inr (memory, got) ↦
                ground (arith, there, good, got, client_handshake-Started url u memory b.1 b.2)
          ]
        ]
      ]

  -- The client is answered: at once, or at the latest when the handshake's time is over, for which the
  -- time-out has been started last.
  abbrev pub IsAnswered : Sys (Client F Q M P) → Type 0
  IsAnswered s =
      (s.world.job.done ≡ true)
      ⊎ ((earlier : List Signal) × (s.world.signals ≡ Signal.start_timeout ∷ earlier))
        × ((do_handshake_timeout flag queue mail rand s).world.job.done ≡ true)

  timeout_done :
      (s : Sys (Client F Q M P))
      → s.self.state ≡ State.parse_handshake
      → s.self.on_handshake_failure ≡ true
      → (do_handshake_timeout flag queue mail rand s).world.job.done ≡ true
  unfolding do_handshake_timeout wic_close_with_reason close_with_reason close_in_state
      call_close_transport call_handshake_failure handle_handshake_failure notify_writers
  timeout_done s parsing handler = ground (arith, parsing, handler)

  give_up-IsAnswered : (e : NsapiError) (s : Sys (Client F Q M P)) → IsAnswered (give_up e s)
  unfolding give_up do_close_socket notify_readers notify_writers
  give_up-IsAnswered e s = inl refl

  wic_start-Started :
      (http : HttpParser) (s : Sys (Client F Q M P))
      → s.self.role ≡ Role.client
      → Started s (wic_start app http s)
  wic_start-Started http s client =
      let e : wic_start app http s ≡ start_client app http s =
        unfold wic_start start_in_role in ap (λ r. start_in_role app r http s) client in
      rw e (start_client-Started http s)

  start_handshake-IsAnswered :
      (http : HttpParser) (s : Sys (Client F Q M P))
      → s.self.role ≡ Role.client
      → s.self.on_handshake_failure ≡ true
      → IsAnswered (start_handshake flag queue mail rand http s)
  unfolding start_handshake do_handshake_timeout
  start_handshake-IsAnswered http s client handler =
      let r = wic_start app http s in
      let s' = with_client (set_status r.0) r.1 in
      elim (Bool-cases (is_success r.0)) [
        | inr refused ↦ rw (start_handshake, refused) (give_up-IsAnswered NsapiError.ok s')
        | inl started ↦ elim (wic_start-Started http s client) [
          | inl refused ↦ ground (arith, refused, started)
          | inr (parsing, kept) ↦
              rw (start_handshake, started)
                (inr (
                  (s'.world.signals, refl),
                  timeout_done
                      (with_client
                        (λ c.
                          signal Signal.start_timeout (record c { state = ClientState.opening }))
                        s')
                      parsing (kept ∙ handler),
                ))
        ]
      ]

  connect_socket-IsAnswered :
      (net : Network) (http : HttpParser) (s : Sys (Client F Q M P))
      → s.self.role ≡ Role.client
      → s.self.on_handshake_failure ≡ true
      → IsAnswered (connect_socket flag queue mail rand net http s)
  unfolding connect_socket
  connect_socket-IsAnswered net http s client handler =
      let err = net.gethostbyname (wic_get_url_hostname s.self) in
      let socket = socket_of (wic_get_url_schema s.self) in
      let err' = net.connect socket (wic_get_url_port s.self) in
      let s' =
        with_client
          (λ c. signal Signal.connect_socket (signal Signal.open_socket (signal socket c))) s in
      elim (Bool-cases (is_ok err)) [
        | inr unknown ↦ rw (connect_socket, unknown) (give_up-IsAnswered err s)
        | inl found ↦ elim (Bool-cases (is_ok err')) [
          | inr refused ↦ rw (connect_socket, found, refused) (give_up-IsAnswered err' s')
          | inl joined ↦
              rw (connect_socket, found, joined) (start_handshake-IsAnswered http s' client handler)
        ]
      ]

  open_flushed-IsAnswered :
      (net : Network) (http : HttpParser) (undef : Url) (p : ℕ) (s : Sys (Client F Q M P))
      → IsAnswered (open_flushed flag queue mail rand net http undef p s)
  unfolding open_flushed init_arg
  open_flushed-IsAnswered net http undef p s =
      let block = s.world.input_queue.blocks p in
      let arg = init_arg block.mem block.max s.world in
      elim (Option-cases (wic_init http undef arg)) [
        | inl refused ↦
            rw (open_flushed, refused)
              (give_up-IsAnswered NsapiError.parameter (with_inst s zeroed))
        | inr (inst, made) ↦
            let kept = wic_init-kept http undef arg inst made in
            rw (open_flushed, made)
              (connect_socket-IsAnswered net http (with_inst s inst) kept.0 kept.1)
      ]

  -- A part of `do_open` that ends, with the request answered.
  abbrev pub EndsAnswered : Option (Sys (Client F Q M P)) → Type 0
  EndsAnswered r = (s : Sys (Client F Q M P)) × (r ≡ some s) × IsAnswered s

  open_closed-EndsAnswered :
      (net : Network) (http : HttpParser) (undef : Url) (p : ℕ) (s : Sys (Client F Q M P))
      → MailShrinks mail
      → EndsAnswered (open_closed flag queue mail rand net http undef p s)
  unfolding open_closed
  open_closed-EndsAnswered net http undef p s less =
      let (c, flushed) = flush_input_queue_ends flag queue mail rand s.world less in
      rw (open_closed, flushed)
        (_, refl, open_flushed-IsAnswered net http undef p (record s { world = c }))

-- Whatever the state of the client and the answers of the network are, a request to open a client
-- that has, or gets, a block to receive into is answered, where a mail that is got is pending no more:
-- `do_open` ends, and it completes the job, or it leaves a handshake under way and has started the
-- time-out, which completes the job.
pub do_open-IsAnswered :
    {F Q M P : Type 0} (flag : EventFlags F) (queue : MessageQueue Q) (mail : Mail M) (rand : ℕ → ℕ)
    (net : Network) (http : HttpParser) (undef : Url) (s : Sys (Client F Q M P))
    → MailShrinks mail
    → (get_rx flag queue mail rand s.world).rx ≢ none
    → EndsAnswered flag queue mail rand (do_open flag queue mail rand net http undef s)
unfolding do_open
do_open-IsAnswered flag queue mail rand net http undef s less block =
    let s' = with_client (get_rx flag queue mail rand) s in
    elim (Option-cases (refusal s'.world.state)) [
      | inr (retval, refused) ↦ rw (do_open, refused) (_, refl, inl refl)
      | inl closed ↦ elim (Option-cases s'.world.rx) [
        | inl missing ↦ absurd (block missing)
        | inr (p, there) ↦
            rw (do_open, closed, there)
              (open_closed-EndsAnswered flag queue mail rand net http undef p s' less)
      ]
    ]
