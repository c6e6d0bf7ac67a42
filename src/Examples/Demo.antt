-- ===== src/Examples/Demo.antt =====
-- examples/demo_client/demo_client.c: a client that says hello, hears one message and follows
-- redirections.
use wic.Base.{
  ℕ, zero, suc, List, Bool, true, false, Option, none, some, leb, if◌then◌else◌, codes, strlen,
  take, drop, replicate,
}
use wic.Types.{Role}
use wic.Stream.{Stream}
use wic.Inst.{Inst, Sys, App, with_inst}
use wic.Http.{HttpParser, Url}
use wic.Headers.{wic_set_header, wic_get_next_header}
use wic.Close.{wic_close, is_success}
use wic.Send.{wic_send_text}
use wic.Init.{
  InitArg, wic_init, wic_get_url_hostname, wic_get_url_port, wic_get_url_schema,
  wic_get_redirect_url,
}
use wic.Handshake.{wic_start}
use wic.Examples.Transport.{
  Sockets, Program, transport_open_client, transport_write, transport_close, receive_loop,
}

-- The string at a position of the memory.
unfoldable pub string_at : List ℕ → ℕ → List ℕ
unfolding strlen
string_at mem at = take (strlen (drop at mem)) (drop at mem)

-- The loop over the header fields of the server, which are printed only.
unfoldable pub skip_headers : ℕ → Inst → Inst
unfolding wic_get_next_header
skip_headers zero self = self
skip_headers (suc fuel) self =
    let (field, self') = wic_get_next_header self in
    elim field [ none ↦ self' | some positions ↦ skip_headers fuel self' ]

module _ {N : Type 0} (sockets : Sockets N) where
  abbrev with_program : (Program N → Program N) → Sys (Program N) → Sys (Program N)
  with_program f s = record s { world = f s.world }

  unfoldable pub on_send_handler : List ℕ → Sys (Program N) → Sys (Program N)
  unfolding transport_write
  on_send_handler bytes s =
      with_program (λ p. record p { net = transport_write sockets p.s bytes p.net }) s

  unfoldable pub on_buffer_handler : ℕ → Option (List ℕ) × ℕ
  on_buffer_handler min_size = (if leb min_size 1000 then some (replicate 1000 0) else none, 1000)

  unfoldable pub on_close_transport_handler : Sys (Program N) → Sys (Program N)
  unfolding transport_close
  on_close_transport_handler s = with_program (transport_close sockets) s

  -- The handlers that a send or a close calls; `on_message` and `on_open` are not among them, and
  -- `rand` is not set.
  abbrev pub sending : App (Program N)
  sending = record {
    on_message = λ e fin bytes s. (true, s);
    on_open = λ s. s;
    on_close = λ code reason s. s;
    on_close_transport = on_close_transport_handler;
    on_handshake_failure = λ reason s. s;
    on_send = λ bytes type s. on_send_handler bytes s;
    on_buffer = λ min_size type s. let (tx, max) = on_buffer_handler min_size in (tx, max, s);
    rand = λ s. (0, s);
    on_ping = λ s. s;
    on_pong = λ s. s;
  }

  unfoldable pub on_message_handler : Sys (Program N) → Bool × Sys (Program N)
  on_message_handler s = (true, wic_close sending s)

  -- A field takes at least one byte of the receive buffer.
  unfoldable pub on_open_handler : Sys (Program N) → Sys (Program N)
  unfolding skip_headers
  on_open_handler s =
      let s' = with_inst s (skip_headers (suc s.self.rx.s.pos) s.self) in
      (wic_send_text sending true (codes "hello world") s').1

  abbrev pub demo : App (Program N)
  demo = record sending {
    on_message = λ e fin bytes s. on_message_handler s;
    on_open = on_open_handler;
  }

  -- `arg`; the receive buffer keeps what it held.
  unfoldable pub demo_arg : List ℕ → List ℕ → InitArg
  demo_arg url rx = record {
    rx = rx;
    rx_max = 1000;
    on_message = true;
    on_open = true;
    on_close = true;
    on_close_transport = true;
    on_handshake_failure = true;
    on_ping = false;
    on_pong = false;
    rand = false;
    on_send = true;
    on_buffer = true;
    app = 0;
    url = some url;
    role = Role.client;
  }

  module _ (undef : Stream → Bool) (unset : Url) (http : HttpParser) where
    -- One round of `main` behind `wic_init`; none where the connection is not over after `rounds`
    -- receptions.
    unfoldable pub visit : ℕ → Inst → Sys (Program N) → Option (Sys (Program N))
    unfolding wic_set_header wic_get_url_schema wic_get_url_hostname wic_get_url_port
        transport_open_client
    visit rounds inst s =
        let self = (wic_set_header inst (some (codes "User-Agent")) (some (codes "wic"))).1 in
        let (ok, p) =
          transport_open_client sockets (wic_get_url_schema self) (wic_get_url_hostname self)
            (wic_get_url_port self) s.world in
        let s1 = record s { self = self; world = p } in
        if ok
        then (let (status, s2) = wic_start demo http s1 in
            if is_success status
            then receive_loop sockets demo undef http rounds s2
            else some (with_program (transport_close sockets) s2))
        else some s1

    -- A round of `main`, and whether `wic_init` succeeded; where not, the program exits.
    unfoldable pub visit_url : ℕ → List ℕ → Sys (Program N) → Option (Bool × Sys (Program N))
    unfolding visit demo_arg
    visit_url rounds url s = elim (wic_init http unset (demo_arg url s.self.rx.s.mem)) [
      | none ↦ some (false, s)
      | some inst ↦ elim (visit rounds inst s) [ none ↦ none | some s' ↦ some (true, s') ]
    ]

    -- The URL that the program goes on with, where it is redirected.
    unfoldable pub redirection : Bool → Sys (Program N) → Option (List ℕ)
    unfolding wic_get_redirect_url string_at
    redirection false s = none
    redirection true s = elim (wic_get_redirect_url s.self) [
      | none ↦ none
      | some at ↦ some (string_at s.self.rx.s.mem at)
    ]

    -- The loop of `main`, from a URL, with a number of redirections to follow.
    unfoldable pub run_demo : ℕ → ℕ → List ℕ → Sys (Program N) → Option (Bool × Sys (Program N))
    unfolding visit_url redirection
    run_demo rounds zero url s = visit_url rounds url s
    run_demo rounds (suc redirects) url s = elim (visit_url rounds url s) [
      | none ↦ none
      | some (ok, s') ↦ elim (redirection ok s') [
        | none ↦ some (ok, s')
        | some url' ↦ run_demo rounds redirects url' s'
      ]
    ]

    -- `main`, which follows three redirections at most.
    unfoldable pub demo_main : ℕ → List ℕ → Sys (Program N) → Option (Bool × Sys (Program N))
    unfolding run_demo
    demo_main rounds url s = run_demo rounds 3 url s
