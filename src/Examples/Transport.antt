-- ===== src/Examples/Transport.antt =====
-- examples/transport/transport.c: a transport over the sockets of the system (not the part for
-- Windows).
use wic.Base.{
  ℕ, zero, suc, ◌+◌, ◌/◌, ◌%◌, List, [], ◌∷◌, ◌++◌, Bool, true, false, Option, none, some, ltb,
  ◌==◌, if◌then◌else◌, codes, length, drop,
}
use wic.Types.{Schema, close_abnormal_2}
use wic.Stream.{Stream}
use wic.Inst.{Sys, App}
use wic.Http.{HttpParser}
use wic.Close.{wic_close_with_reason}
use wic.Parse.{wic_parse}

-- A file descriptor; none where it is negative.
abbrev pub Fd : Type 0
Fd = Option ℕ

-- The calls of the system. `getaddrinfo` returns none where it fails; `write` returns how many bytes
-- were taken, none where its result is not above 0; `recv` the bytes received, none where its result
-- is not above 0.
pub record Sockets (N : Type 0) : Type 0 where
  pub getaddrinfo : Option (List ℕ) → List ℕ → N → Option ℕ × N
  pub socket : ℕ → N → Fd × N
  pub connect : Fd → ℕ → N → Bool × N
  pub close : ℕ → N → N
  pub write : Fd → List ℕ → N → Option ℕ × N
  pub recv : Fd → ℕ → N → Option (List ℕ) × N
  pub rand : N → ℕ × N

-- What a program keeps beside the instance: the descriptor `s`, the system, and the `n` of
-- examples/autobahn/client.c.
pub record Program (N : Type 0) : Type 0 where
  pub s : Fd
  pub net : N
  pub n : ℕ

-- `%u`, for a number of at most `fuel` digits.
unfoldable pub digits_of : ℕ → ℕ → List ℕ
digits_of zero n = []
digits_of (suc fuel) n =
    let high = digits_of fuel (n / 10) in (if ltb n 10 then [] else high) ++ (48 + n % 10) ∷ []

unfoldable pub decimal : ℕ → List ℕ
unfolding digits_of
decimal n = digits_of 19 n

unfoldable pub is_secure : Schema → Bool
is_secure Schema.https = true
is_secure Schema.wss = true
is_secure _ = false

-- The service: the port, or 80.
unfoldable pub service_of : ℕ → List ℕ
unfolding decimal
service_of port = if port == 0 then codes "80" else decimal port

module _ {N : Type 0} (sockets : Sockets N) where
  -- The part with an address. A socket that cannot connect is closed; its number stays.
  unfoldable pub open_address : ℕ → Program N → Bool × Program N
  open_address addr p =
      let (fd, net) = sockets.socket addr p.net in
      elim fd [
        | none ↦ (false, record p { s = none; net = net })
        | some k ↦
            let (ok, net') = sockets.connect (some k) addr net in
            if ok
            then (true, record p { s = some k; net = net' })
            else (false, record p { s = some k; net = sockets.close k net' })
      ]

  unfoldable pub transport_open_client : Schema → Option (List ℕ) → ℕ → Program N → Bool × Program N
  unfolding is_secure service_of open_address
  transport_open_client schema host port p =
      if is_secure schema
      then (false, p)
      else (let (found, net) = sockets.getaddrinfo host (service_of port) p.net in
          elim found [
            | none ↦ (false, record p { net = net })
            | some addr ↦ open_address addr (record p { net = net })
          ])

  -- The loop of `transport_write`: a round takes a byte at least.
  unfoldable pub write_loop : ℕ → Fd → List ℕ → N → N
  write_loop zero fd bytes net = net
  write_loop (suc fuel) fd [] net = net
  write_loop (suc fuel) fd (b ∷ bytes) net =
      let (taken, net') = sockets.write fd (b ∷ bytes) net in
      elim taken [ none ↦ net' | some k ↦ write_loop fuel fd (drop k (b ∷ bytes)) net' ]

  unfoldable pub transport_write : Fd → List ℕ → N → N
  transport_write fd bytes net = write_loop (length bytes) fd bytes net

  -- Descriptor 0 is left alone.
  unfoldable pub transport_close : Program N → Program N
  transport_close p = elim p.s [
    | none ↦ p
    | some k ↦ if k == 0 then p else record p { s = none; net = sockets.close k p.net }
  ]

  module _ (app : App (Program N)) (undef : Stream → Bool) (http : HttpParser) where
    -- The loop over what was received; none where it takes more rounds than there are bytes.
    unfoldable pub parse_received : ℕ → List ℕ → Sys (Program N) → Option (Sys (Program N))
    parse_received fuel [] s = some s
    parse_received zero (b ∷ bytes) s = none
    parse_received (suc fuel) (b ∷ bytes) s = elim (wic_parse app undef http (b ∷ bytes) s) [
      | none ↦ none
      | some (n, s') ↦ parse_received fuel (drop n (b ∷ bytes)) s'
    ]

    unfoldable pub transport_recv : Sys (Program N) → Option (Bool × Sys (Program N))
    transport_recv s =
        let (bytes, net) = sockets.recv s.world.s 1000 s.world.net in
        let s' = record s { world = record (s.world) { net = net } } in
        elim bytes [
          | none ↦ some (false, wic_close_with_reason app close_abnormal_2 [] s')
          | some received ↦ elim (parse_received (length received) received s') [
            | none ↦ none
            | some s'' ↦ some (true, s'')
          ]
        ]

    -- `while(transport_recv(*s, inst));`, none where it is not over after `rounds` rounds.
    unfoldable pub receive_loop : ℕ → Sys (Program N) → Option (Sys (Program N))
    receive_loop zero s = none
    receive_loop (suc rounds) s = elim (transport_recv s) [
      | none ↦ none
      | some (more, s') ↦ let rest = receive_loop rounds s' in if more then rest else some s'
    ]
