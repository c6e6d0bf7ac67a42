-- ===== src/Parse/Opens.antt =====
-- When the handshake opens a client.
use wic.Base.{ℕ, ◌≡◌, ◌⊎◌, List, [], ◌∷◌, some, ◌==◌, if◌then◌else◌, codes, drop}
use wic.Types.{HandshakeFailure, State}
use wic.Base64.{b64_encode}
use wic.Inst.Handlers.{call_close_transport, call_handshake_failure}
use wic.Stream.{Stream}
use wic.Inst.{with_inst, with_state, Inst, Sys, App}
use wic.Http.{HttpRun}
use wic.Headers.{on_header_field, on_header_value, tolower, wic_get_header}
use wic.Handshake.{close_value}
use wic.Parse.{parse_handshake}

-- The instance that the checks of a response look at.
abbrev checked : Inst → Inst
checked i = with_state (close_value i.header_state i) State.ready

-- The string in front of the first NUL.
abbrev pub text_of : List ℕ → List ℕ
text_of [] = []
text_of (c ∷ s) = let rest = text_of s in if c == 0 then [] else (c ∷ rest)

-- The same in lower case.
abbrev pub lower_of : List ℕ → List ℕ
lower_of [] = []
lower_of (c ∷ s) = let rest = lower_of s in if c == 0 then [] else (tolower c ∷ rest)

-- The string at `at` in the receive buffer.
abbrev pub stored_at : Inst → ℕ → List ℕ
stored_at i at = drop at i.rx.s.mem

-- The field "upgrade" is there and says "websocket", in any case.
abbrev pub IsWebsocket : Inst → Type 0
IsWebsocket i =
    (at : ℕ) × (wic_get_header i (codes "upgrade") ≡ some at)
    × (lower_of (stored_at i at) ≡ codes "websocket")

-- The field "Sec-WebSocket-Accept" is there and holds the hash of the key in Base64.
abbrev pub HasKey : Inst → Type 0
HasKey i =
    (at : ℕ) × (wic_get_header i (codes "Sec-WebSocket-Accept") ≡ some at)
    × (text_of (stored_at i at) ≡ text_of (b64_encode i.hash 29))

-- From the instance `i`, the parser reads a response whose first message is complete with the status
-- 101 and the upgrade, and whose fields, as they are stored by then, ask for a websocket and hold the
-- key.
pub data Accepted : HttpRun → Inst → Type 0 where
  field :
      {bytes : List ℕ} {n : ℕ} {rest : HttpRun} {i : Inst}
      → Accepted rest (on_header_field bytes i).1
      → Accepted (HttpRun.field bytes n rest) i
  value :
      {bytes : List ℕ} {n : ℕ} {rest : HttpRun} {i : Inst}
      → Accepted rest (on_header_value bytes i).1
      → Accepted (HttpRun.value bytes n rest) i
  complete :
      {n : ℕ} {rest : HttpRun} {i : Inst}
      → IsWebsocket (checked i)
      → HasKey (checked i)
      → Accepted (HttpRun.complete 101 1 n rest) i

-- What becomes of a client that is refused: its handshake goes on and nothing was called; or, with
-- no other call before, the transport is closed and the application is told that the handshake has
-- failed, and the client is closed.
abbrev pub IsRefused : {W : Type 0} → App W → Sys W → Sys W → Type 0
IsRefused {W} app s s' =
    (s'.self.state ≡ State.parse_handshake) × (s'.log ≡ s.log)
    ⊎ (failure : HandshakeFailure) × (s1 : Sys W) × (s1.log ≡ s.log)
      × (let s2 = call_handshake_failure app failure (call_close_transport app s1) in
          s' ≡ with_inst s2 (with_state s2.self State.closed))
