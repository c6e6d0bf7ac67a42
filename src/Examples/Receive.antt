-- ===== src/Examples/Receive.antt =====
-- The loop of `transport_recv` of examples/transport/transport.c.
use wic.Base.{
  ℕ, zero, suc, ◌≤◌, ◌<◌, ◌≡◌, ◌⊎◌, refl, ap, ◌∙◌, Bool, true, false, none, some, List, [], ◌∷◌,
  arith, length, drop, Option-cases, inl, inr,
}
use wic.Types.{State, close_abnormal_2}
use wic.Close.{wic_close_with_reason}
use wic.Stream.{Stream}
use wic.Inst.{Sys, App}
use wic.Http.{HttpParser}
use wic.Receive.Keeps.{KeepsRx}
use wic.Parse.{wic_parse}
use wic.Parse.Progress.{room}
use wic.Parse.Consumes.{Willing, wic_parse_consumes}
use wic.Examples.Transport.{Sockets, Program, Fd, parse_received, transport_recv}

drop_all : (xs : List ℕ) → drop (length xs) xs ≡ []
drop_all [] = refl
drop_all (x ∷ xs) = drop_all xs

parse_received_empty :
    {N : Type 0} (sockets : Sockets N) (app : App (Program N)) (undef : Stream → Bool)
    (http : HttpParser) (fuel : ℕ) (s : Sys (Program N))
    → parse_received sockets app undef http fuel [] s ≡ some s
unfolding parse_received
parse_received_empty sockets app undef http zero s = refl
parse_received_empty sockets app undef http (suc fuel) s = refl

-- What was received is handed to `wic_parse` once.
parse_received_once :
    {N : Type 0} (sockets : Sockets N) (app : App (Program N)) (undef : Stream → Bool)
    (http : HttpParser) (bytes : List ℕ) (s s' : Sys (Program N))
    → wic_parse app undef http bytes s ≡ some (length bytes, s')
    → (s'' : Sys (Program N)) × (parse_received sockets app undef http (length bytes) bytes s
        ≡ some s'')
      × ((bytes ≡ []) × (s'' ≡ s) ⊎ (wic_parse app undef http bytes s ≡ some (length bytes, s'')))
unfolding parse_received
parse_received_once sockets app undef http [] s s' e = (s, refl, inl (refl, refl))
parse_received_once sockets app undef http (b ∷ bytes) s s' e = (
  s',
  rw (e, parse_received) refl
      ∙ ap (λ (rest : List ℕ). parse_received sockets app undef http (length bytes) rest s')
          (drop_all bytes)
      ∙ parse_received_empty sockets app undef http (length bytes) s',
  inr e,
)

-- A call of `transport_recv` ends, for an open instance with a receive buffer whose application takes
-- every message, never makes a pong wait and leaves the receiver alone, where `recv` returns no more
-- bytes than it was asked for and the result that `parse_mask` does not set is false. Bytes that came
-- are handed to one `wic_parse`, which consumes them all, and none to none; where `recv` failed, the
-- instance is closed with the code for a lost connection.
pub transport_recv_lem :
    {N : Type 0} (sockets : Sockets N) (app : App (Program N)) (undef : Stream → Bool)
    (http : HttpParser) (s : Sys (Program N))
    → Willing app
    → KeepsRx app
    → ((st : Stream) → undef st ≡ false)
    → ((fd : Fd) (n : ℕ) (net : N) (bytes : List ℕ)
        → (sockets.recv fd n net).0 ≡ some bytes
        → length bytes ≤ n)
    → s.self.state ≡ State.opened
    → 0 < room s
    → let (got, net) = sockets.recv s.world.s 1000 s.world.net in
      let s1 = record s { world = record (s.world) { net = net } } in
      (got ≡ none)
        × (transport_recv sockets app undef http s
            ≡ some (false, wic_close_with_reason app close_abnormal_2 [] s1))
      ⊎ (bytes : List ℕ) × (s' : Sys (Program N)) × (got ≡ some bytes)
        × (transport_recv sockets app undef http s ≡ some (true, s'))
        × ((bytes ≡ []) × (s' ≡ s1) ⊎ (wic_parse app undef http bytes s1 ≡ some (length bytes, s')))
unfolding transport_recv
transport_recv_lem {N} sockets app undef http s willing keeps never asked o pos =
    let net = (sockets.recv s.world.s 1000 s.world.net).1 in
    let s1 = record s { world = record (s.world) { net = net } } in
    elim (Option-cases (sockets.recv s.world.s 1000 s.world.net).0) [
      | inl nothing ↦ inl (nothing, rw (nothing, transport_recv) refl)
      | inr (bytes, some_eq) ↦
          let few = asked s.world.s 1000 s.world.net bytes some_eq in
          let (s2, parsed) =
            wic_parse_consumes app undef http bytes s1 willing keeps never o pos
              (omega (arith, few)) in
          let (s3, done, once) = parse_received_once sockets app undef http bytes s1 s2 parsed in
          inr (bytes, s3, some_eq, rw (some_eq, done, transport_recv) refl, once)
    ]
