-- ===== src/Handshake.antt =====
-- The handshake of src/wic.c: `wic_start` with `start_client` and `start_server`, and what is
-- done when the HTTP parser has read the peer's message.
pub mod Carries
use wic.Base.{
  ℕ, List, [], ◌∷◌, ◌++◌, Bool, true, false, ◌||◌, not, none, some, ltb, ◌==◌, if◌then◌else◌, codes,
  strlen, take, drop,
}
use wic.Types.{Buffer, Role, State, HeaderState, Status, Header}
use wic.Stream.{Stream, stream_init, stream_put_str, stream_error, written}
use wic.Base64.{b64_encode}
use wic.Sha1.{server_hash}
use wic.Inst.{Inst, Sys, App, with_inst, with_state}
use wic.Inst.Handlers.{call_buffer, call_rand, call_send}
use wic.Frame.{bytes_of_u32}
use wic.Http.{HttpParser, Url, slice}
use wic.Headers.{wic_get_header, str_equal, strcmp_equal, store_nul}

abbrev crlf : List ℕ
crlf = 13 ∷ 10 ∷ []

-- `stream_put_str` of each in turn; the results are ignored.
unfoldable pub put_all : List (List ℕ) → Stream → Stream
unfolding stream_put_str
put_all [] tx = tx
put_all (str ∷ rest) tx = put_all rest (stream_put_str tx str).1

-- The loop over `tx_header`.
unfoldable pub put_headers : List Header → Stream → Stream
unfolding put_all
put_headers [] tx = tx
put_headers (h ∷ rest) tx =
    put_headers rest (put_all (h.name ∷ codes ": " ∷ h.value ∷ crlf ∷ []) tx)

-- The part of the request for a field of the URL that may be empty.
abbrev optional : List ℕ → Bool → List ℕ → List (List ℕ)
optional mark present field = if present then mark ∷ field ∷ [] else []

-- The texts in front of the key.
unfoldable pub request_head : List ℕ → Url → List (List ℕ)
unfolding slice
request_head url u =
    (codes "GET " ∷ slice url u.path ∷ [])
    ++ (optional (codes "?") (ltb 0 u.query.len) (slice url u.query)
        ++ (optional (codes "#") (ltb 0 u.fragment.len) (slice url u.fragment)
            ++ ((codes " HTTP/1.1" ++ crlf) ∷ codes "Host: " ∷ slice url u.host ∷ [])
            ++ (optional (codes ":") (not (u.port == 0)) (slice url u.port_field)
                ++ (crlf
                    ∷ (codes "Upgrade: websocket" ++ crlf)
                    ∷ (codes "Connection: upgrade" ++ crlf)
                    ∷ (codes "Sec-WebSocket-Version: 13" ++ crlf)
                    ∷ []))))

unfoldable pub request : List ℕ → Url → List ℕ → List Header → Stream → Stream
unfolding put_headers request_head
request url u nonce_b64 headers tx =
    let tx1 = put_all (request_head url u) tx in
    let tx2 = put_all (codes "Sec-WebSocket-Key: " ∷ nonce_b64 ∷ crlf ∷ []) tx1 in
    put_all (crlf ∷ []) (put_headers headers tx2)

unfoldable pub response : List ℕ → List Header → Stream → Stream
unfolding put_headers
response b64_hash headers tx =
    let tx1 =
      put_all
        ((codes "HTTP/1.1 101 Switching Protocols" ++ crlf)
          ∷ (codes "Upgrade: websocket" ++ crlf)
          ∷ (codes "Connection: upgrade" ++ crlf)
          ∷ codes "Sec-WebSocket-Accept: "
          ∷ b64_hash
          ∷ crlf
          ∷ [])
        tx in
    put_all (crlf ∷ []) (put_headers headers tx1)

-- `http_parser_url_init`: all fields zero.
unfoldable pub url_zero : Url
url_zero = record {
  has_port = false;
  port = 0;
  schema = record { off = 0; len = 0 };
  host = record { off = 0; len = 0 };
  port_field = record { off = 0; len = 0 };
  path = record { off = 0; len = 0 };
  query = record { off = 0; len = 0 };
  fragment = record { off = 0; len = 0 };
}

unfoldable pub is_init : State → Bool
is_init State.init = true
is_init _ = false

unfoldable pub is_ready_state : State → Bool
is_ready_state State.ready = true
is_ready_state _ = false

module _ {W : Type 0} (app : App W) where
  -- The handshake is sent and the state becomes `next`, or the buffer is given back by a send of
  -- no bytes.
  unfoldable pub send_handshake : State → Stream → Sys W → Status × Sys W
  unfolding stream_error written
  send_handshake next tx s =
      if not (stream_error tx)
      then (
        Status.success,
        call_send app (written tx) Buffer.http (with_inst s (with_state s.self next)),
      )
      else (Status.too_large, call_send app [] Buffer.http s)

  -- `nonce[0]` to `nonce[3]`
  unfoldable pub make_nonce : Sys W → List ℕ × Sys W
  unfolding bytes_of_u32
  make_nonce s =
      let (n0, s0) = call_rand app 0xaaaaaaaa s in
      let (n1, s1) = call_rand app 0xaaaaaaaa s0 in
      let (n2, s2) = call_rand app 0xaaaaaaaa s1 in
      let (n3, s3) = call_rand app 0xaaaaaaaa s2 in
      (bytes_of_u32 n0 ++ (bytes_of_u32 n1 ++ (bytes_of_u32 n2 ++ bytes_of_u32 n3)), s3)

  -- `start_client` with a buffer. The key goes through `server_hash` into `hash`.
  unfoldable pub client_handshake : List ℕ → Url → List ℕ → ℕ → Sys W → Status × Sys W
  unfolding stream_init
  client_handshake url u buf max s =
      let (nonce, s1) = make_nonce s in
      let nonce_b64 = b64_encode nonce 24 in
      let s2 = with_inst s1 (record (s1.self) { hash = server_hash nonce_b64 }) in
      let tx = request url u nonce_b64 s2.self.tx_header (stream_init buf max) in
      send_handshake State.parse_handshake tx s2

  -- A client has a URL after `wic_init`; without one the source's behaviour is undefined.
  unfoldable pub start_client : HttpParser → Sys W → Status × Sys W
  unfolding is_init url_zero
  start_client http s =
      if is_init s.self.state
      then elim s.self.url [
        | none ↦ (Status.bad_input, s)
        | some url ↦ elim (http.parse_url url url_zero) [
          | none ↦ (Status.bad_input, s)
          | some u ↦
              let (buf, max, s1) = call_buffer app 0 Buffer.http s in
              elim buf [
                | none ↦ (Status.would_block, s1)
                | some memory ↦ client_handshake url u memory max s1
              ]
        ]
      ]
      else (Status.bad_state, s)

  unfoldable pub start_server : Sys W → Status × Sys W
  unfolding is_ready_state stream_init
  start_server s =
      if is_ready_state s.self.state
      then (let (buf, max, s1) = call_buffer app 0 Buffer.http s in
          elim buf [
            | none ↦ (Status.would_block, s1)
            | some memory ↦
                send_handshake State.opened
                  (response (b64_encode s1.self.hash 28) s1.self.tx_header (stream_init memory max))
                  s1
          ])
      else (Status.bad_state, s)

  unfoldable pub start_in_role : Role → HttpParser → Sys W → Status × Sys W
  start_in_role Role.client http s = start_client http s
  start_in_role Role.server http s = start_server s

  unfoldable pub wic_start : HttpParser → Sys W → Status × Sys W
  wic_start http s = start_in_role s.self.role http s

-- `switch(header_state)` of `on_response_complete`.
unfoldable pub close_value : HeaderState → Inst → Inst
unfolding store_nul
close_value HeaderState.value self = store_nul self
close_value _ self = self

-- The statuses after which the field "location" is looked up.
unfoldable pub is_redirect : ℕ → Bool
is_redirect status =
    status == 300
    || (status == 301 || (status == 302 || (status == 303 || (status == 304 || status == 307))))

-- The checks of the field "upgrade".
unfoldable pub upgrades : Inst → Bool
upgrades self = elim (wic_get_header self (codes "upgrade")) [
  | none ↦ false
  | some at ↦ str_equal (drop at self.rx.s.mem) (codes "websocket")
]

-- The checks of the field "Sec-WebSocket-Accept".
unfoldable pub accepts : Inst → Bool
accepts self = elim (wic_get_header self (codes "Sec-WebSocket-Accept")) [
  | none ↦ false
  | some at ↦ strcmp_equal (drop at self.rx.s.mem) (b64_encode self.hash 29)
]

-- With the parser's `status_code` and `upgrade`; the result says whether the callback fails.
unfoldable pub on_response_complete : ℕ → ℕ → Inst → Bool × Inst
unfolding close_value is_redirect upgrades accepts
on_response_complete status upgrade self0 =
    let self = with_state (close_value self0.header_state self0) State.ready in
    if not (status == 101)
    then (
      true,
      if is_redirect status
          then record self { redirect_url = wic_get_header self (codes "location") }
          else self,
    )
    else if not (upgrade == 1)
    then (true, self)
    else if not (upgrades self)
    then (true, self)
    else (not (accepts self), self)

-- The part of `on_request_complete` behind its `switch`.
unfoldable pub check_request : ℕ → Inst → Bool × Inst
unfolding upgrades
check_request upgrade self =
    if not (upgrade == 1)
    then (true, self)
    else if not (upgrades self)
    then (true, self)
    else elim (wic_get_header self (codes "Sec-WebSocket-Key")) [
      | none ↦ (true, self)
      | some at ↦
          let key = drop at self.rx.s.mem in
          (false, record self { hash = server_hash (take (strlen key) key); state = State.ready })
    ]

unfoldable pub request_in_state : HeaderState → ℕ → Inst → Bool × Inst
unfolding check_request
request_in_state HeaderState.idle upgrade self = check_request upgrade (with_state self State.ready)
request_in_state HeaderState.field upgrade self = (true, self)
request_in_state HeaderState.value upgrade self =
    check_request upgrade (with_state (store_nul self) State.ready)

unfoldable pub on_request_complete : ℕ → ℕ → Inst → Bool × Inst
unfolding request_in_state
on_request_complete status upgrade self = request_in_state self.header_state upgrade self
