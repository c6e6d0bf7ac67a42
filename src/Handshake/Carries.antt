-- ===== src/Handshake/Carries.antt =====
-- What `wic_start` leaves alone: a property of the application, and the receiver.
use wic.Base.{ℕ, ◌≡◌, ◌∙◌, List, [], arith, inl, inr, Option-cases}
use wic.Types.{Buffer, Role, State}
use wic.Stream.{Stream, written, stream_init}
use wic.Base64.{b64_encode}
use wic.Sha1.{server_hash}
use wic.Inst.{Sys, App, note, random, get_buffer, with_inst, with_state, send}
use wic.Inst.Handlers.{call_buffer, call_rand, call_send}
use wic.Inst.Carries.{Carries}
use wic.Http.{HttpParser, Url}
use wic.Receive.Keeps.{KeepsRx}
use wic.Handshake.{
  send_handshake, make_nonce, client_handshake, start_client, start_server, start_in_role,
  wic_start, request, response, url_zero,
}

module _ {W : Type 0} (app : App W) (p : W → Type 0) (carries : Carries app p)
    (keeps : KeepsRx app) where
  -- The outcome of a part of the handshake.
  abbrev Kept : Sys W → Sys W → Type 0
  Kept s s' = p s'.world × (s'.self.rx ≡ s.self.rx)

  call_rand-Kept : (n : ℕ) (s : Sys W) → p s.world → Kept s (call_rand app n s).1
  unfolding call_rand
  call_rand-Kept n s h =
      ground (arith, carries.random (note random s) h, keeps.random (note random s))

  call_buffer-Kept : (n : ℕ) (t : Buffer) (s : Sys W) → p s.world → Kept s (call_buffer app n t s).2
  unfolding call_buffer
  call_buffer-Kept n t s h =
      (carries.buffer n t (note (get_buffer n t) s) h, keeps.buffer n t (note (get_buffer n t) s))

  call_send-Kept : (b : List ℕ) (t : Buffer) (s : Sys W) → p s.world → Kept s (call_send app b t s)
  unfolding call_send
  call_send-Kept b t s h =
      (carries.sent b t (note (send b t) s) h, keeps.sent b t (note (send b t) s))

  send_handshake-Kept :
      (next : State) (tx : Stream) (s : Sys W) → p s.world → Kept s (send_handshake app next tx s).1
  unfolding send_handshake
  send_handshake-Kept next tx s h = ground (
    arith,
    call_send-Kept (written tx) Buffer.http (with_inst s (with_state s.self next)) h,
    call_send-Kept [] Buffer.http s h,
  )

  make_nonce-Kept : (s : Sys W) → p s.world → Kept s (make_nonce app s).1
  unfolding make_nonce
  make_nonce-Kept s h =
      let next = λ (s : Sys W). (call_rand app 0xaaaaaaaa s).1 in
      let k0 = call_rand-Kept 0xaaaaaaaa s h in
      let k1 = call_rand-Kept 0xaaaaaaaa (next s) k0.0 in
      let k2 = call_rand-Kept 0xaaaaaaaa (next (next s)) k1.0 in
      let k3 = call_rand-Kept 0xaaaaaaaa (next (next (next s))) k2.0 in
      (k3.0, k3.1 ∙ k2.1 ∙ k1.1 ∙ k0.1)

  client_handshake-Kept :
      (url : List ℕ) (u : Url) (buf : List ℕ) (max : ℕ) (s : Sys W)
      → p s.world
      → Kept s (client_handshake app url u buf max s).1
  unfolding client_handshake
  client_handshake-Kept url u buf max s h =
      let k = make_nonce-Kept s h in
      let nonce = make_nonce app s in
      let b64 = b64_encode nonce.0 24 in
      let s2 = with_inst nonce.1 (record (nonce.1.self) { hash = server_hash b64 }) in
      let tx = request url u b64 s2.self.tx_header (stream_init buf max) in
      let sent = send_handshake-Kept State.parse_handshake tx s2 k.0 in (sent.0, sent.1 ∙ k.1)

  start_client-Kept :
      (http : HttpParser) (s : Sys W) → p s.world → Kept s (start_client app http s).1
  unfolding start_client
  start_client-Kept http s h =
      let b = call_buffer app 0 Buffer.http s in
      let k = call_buffer-Kept 0 Buffer.http s h in
      elim (Option-cases s.self.url) [
        | inl missing ↦ ground (arith, missing)
        | inr (url, there) ↦ elim (Option-cases (http.parse_url url url_zero)) [
          | inl bad ↦ ground (arith, there, bad)
          | inr (u, good) ↦ elim (Option-cases b.0) [
            | inl blocked ↦ ground (arith, there, good, blocked, k)
            | inr (memory, got) ↦
                ground (arith, there, good, got, k, client_handshake-Kept url u memory b.1 b.2 k.0)
          ]
        ]
      ]

  start_server-Kept : (s : Sys W) → p s.world → Kept s (start_server app s).1
  unfolding start_server
  start_server-Kept s h =
      let b = call_buffer app 0 Buffer.http s in
      let k = call_buffer-Kept 0 Buffer.http s h in
      let hash = b64_encode b.2.self.hash 28 in
      elim (Option-cases b.0) [
        | inl blocked ↦ ground (arith, blocked, k)
        | inr (memory, got) ↦
            let tx = response hash b.2.self.tx_header (stream_init memory b.1) in
            ground (arith, got, k, send_handshake-Kept State.opened tx b.2 k.0)
      ]

  start_in_role-Kept :
      (r : Role) (http : HttpParser) (s : Sys W) → p s.world → Kept s (start_in_role app r http s).1
  unfolding start_in_role
  start_in_role-Kept Role.client http s h = start_client-Kept http s h
  start_in_role-Kept Role.server http s h = start_server-Kept s h

  pub wic_start-Kept : (http : HttpParser) (s : Sys W) → p s.world → Kept s (wic_start app http s).1
  unfolding wic_start
  wic_start-Kept http s h = start_in_role-Kept s.self.role http s h
