-- ===== src/Examples/Autobahn.antt =====
-- examples/autobahn/client.c: the client of the Autobahn test suite, which echoes each message.
use wic.Base.{
  zero, ℕ, suc, ◌+◌, List, ◌++◌, Bool, true, false, Option, none, some, ltb, leb, if◌then◌else◌,
  codes, length, replicate,
}
use wic.Types.{Encoding, Role}
use wic.Stream.{Stream}
use wic.Inst.{Inst, Sys, App}
use wic.Http.{HttpParser, Url}
use wic.Close.{wic_close, is_success}
use wic.Send.{wic_send}
use wic.Init.{InitArg, wic_init, wic_get_url_hostname, wic_get_url_port, wic_get_url_schema}
use wic.Handshake.{wic_start}
use wic.Examples.Transport.{
  Sockets, Program, decimal, transport_open_client, transport_write, transport_close, receive_loop,
}

-- `sizeof(tx)`
abbrev pub tx_size : ℕ
tx_size = 65635

module _ {N : Type 0} (sockets : Sockets N) (atoi : List ℕ → ℕ) where
  abbrev with_program : (Program N → Program N) → Sys (Program N) → Sys (Program N)
  with_program f s = record s { world = f s.world }

  unfoldable pub on_send : List ℕ → Sys (Program N) → Sys (Program N)
  unfolding transport_write
  on_send bytes s = with_program (λ p. record p { net = transport_write sockets p.s bytes p.net }) s

  -- `tx` is static: it is taken to be all zeros, since each call writes all that it sends.
  unfoldable pub on_buffer : ℕ → Option (List ℕ) × ℕ
  on_buffer min_size = (if leb min_size tx_size then some (replicate tx_size 0) else none, tx_size)

  unfoldable pub do_random : Sys (Program N) → ℕ × Sys (Program N)
  do_random s =
      let (r, net) = sockets.rand s.world.net in (r, with_program (λ p. record p { net = net }) s)

  unfoldable pub on_close_transport : Sys (Program N) → Sys (Program N)
  unfolding transport_close
  on_close_transport s = with_program (transport_close sockets) s

  -- The handlers that a send or a close calls; `on_message` is not among them.
  abbrev pub sending : App (Program N)
  sending = record {
    on_message = λ e fin bytes s. (true, s);
    on_open = λ s. s;
    on_close = λ code reason s. s;
    on_close_transport = on_close_transport;
    on_handshake_failure = λ reason s. s;
    on_send = λ bytes type s. on_send bytes s;
    on_buffer = λ min_size type s. let (tx, max) = on_buffer min_size in (tx, max, s);
    rand = do_random;
    on_ping = λ s. s;
    on_pong = λ s. s;
  }

  unfoldable pub on_message : Encoding → Bool → List ℕ → Sys (Program N) → Bool × Sys (Program N)
  on_message e fin bytes s = (true, (wic_send sending e fin bytes s).1)

  -- `atoi` reads from the start of the receive buffer, where the message is, up to the first byte that
  -- is no digit, which may stand behind the message.
  unfoldable pub on_message_case_count : List ℕ → Sys (Program N) → Bool × Sys (Program N)
  on_message_case_count bytes s =
      let s' =
        if ltb 0 (length bytes)
        then with_program (λ p. record p { n = atoi s.self.rx.s.mem }) s
        else s in
      (true, wic_close sending s')

  -- The handlers of the cases, and those of the first connection.
  abbrev pub echoing : App (Program N)
  echoing = record sending { on_message = on_message }

  abbrev pub counting : App (Program N)
  counting = record sending { on_message = λ e fin bytes s. on_message_case_count bytes s }

  -- `arg`, with the URL and whether `on_message` is set.
  unfoldable pub client_arg : List ℕ → Bool → List ℕ → InitArg
  client_arg url has_message rx = record {
    rx = rx;
    rx_max = 65535;
    on_message = has_message;
    on_open = true;
    on_close = true;
    on_close_transport = true;
    on_handshake_failure = true;
    on_ping = false;
    on_pong = false;
    rand = true;
    on_send = true;
    on_buffer = true;
    app = 0;
    url = some url;
    role = Role.client;
  }

  module _ (undef : Stream → Bool) (unset : Url) (http : HttpParser) where
    -- Behind `wic_init`: connect, start, and receive until the connection is over; none where it is
    -- not over after `rounds` receptions.
    unfoldable pub run_client :
        App (Program N) → ℕ → Inst → Sys (Program N) → Option (Sys (Program N))
    unfolding wic_get_url_schema wic_get_url_hostname wic_get_url_port transport_open_client
    run_client app rounds inst s =
        let (ok, p) =
          transport_open_client sockets (wic_get_url_schema inst) (wic_get_url_hostname inst)
            (wic_get_url_port inst) s.world in
        let s1 = record s { self = inst; world = p } in
        if ok
        then (let (status, s2) = wic_start app http s1 in
            if is_success status
            then receive_loop sockets app undef http rounds s2
            else some (with_program (transport_close sockets) s2))
        else some s1

    -- None also where `wic_init` fails, and the program exits.
    unfoldable pub do_client :
        App (Program N) → ℕ → InitArg → Sys (Program N) → Option (Sys (Program N))
    unfolding run_client
    do_client app rounds arg s = elim (wic_init http unset arg) [
      | none ↦ none
      | some inst ↦ run_client app rounds inst s
    ]

    -- The loop over the test cases, of which `k` are left, from the number `tc`.
    unfoldable pub run_cases : ℕ → ℕ → ℕ → Sys (Program N) → Option (Sys (Program N))
    unfolding client_arg decimal
    run_cases rounds zero tc s = some s
    run_cases rounds (suc k) tc s =
        let url = codes "ws://localhost:9001/runCase?case=" ++ (decimal tc ++ codes "&agent=wic") in
        elim (do_client echoing rounds (client_arg url true s.self.rx.s.mem) s) [
          | none ↦ none
          | some s' ↦ run_cases rounds k (tc + 1) s'
        ]

    -- `main`: the number of cases, the cases, and the report.
    unfoldable pub run_suite : ℕ → Sys (Program N) → Option (Sys (Program N))
    unfolding do_client run_cases client_arg
    run_suite rounds s =
        let arg = λ (url : List ℕ) (has_message : Bool) (s : Sys (Program N)).
          client_arg url has_message s.self.rx.s.mem in
        let count = codes "ws://localhost:9001/getCaseCount?agent=wic" in
        let report = codes "ws://localhost:9001/updateReports?agent=wic" in
        elim (do_client counting rounds (arg count true s) s) [
          | none ↦ none
          | some s1 ↦ elim (run_cases rounds s1.world.n 1 s1) [
            | none ↦ none
            | some s2 ↦ do_client sending rounds (arg report false s2) s2
          ]
        ]
