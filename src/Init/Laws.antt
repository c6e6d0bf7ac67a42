-- ===== src/Init/Laws.antt =====
-- What `wic_init` returns.
use wic.Base.{◌%◌, ◌≡◌, true, false, some, arith, Option-cases}
use wic.Types.{Role, State, Opcode, RxState}
use wic.Inst.{Inst}
use wic.Http.{HttpParser, Url}
use wic.Frame.{is_client}
use wic.Init.{InitArg, wic_init, fill_inst, init_url}

-- A fresh client: nothing received, nothing under way.
pub record IsFresh (i : Inst) : Type 0 where
  pub role : i.role ≡ Role.client
  pub state : i.state ≡ State.init
  pub receiving : i.rx.state ≡ RxState.opcode
  pub none_received : i.rx.frag ≡ Opcode.cont
  pub none_sent : i.frag ≡ Opcode.cont
  pub empty : i.rx.s.pos ≡ 0
  pub clean : i.rx.s.error ≡ false

-- Where `wic_init` succeeds, the instance is a fresh client with the handlers for sending that were
-- given, both of them set, and with the receive memory that was given; but the handlers for pings
-- and pongs are never there.
pub wic_init_lem :
    (http : HttpParser) (undef : Url) (arg : InitArg) (i : Inst)
    → wic_init http undef arg ≡ some i
    → IsFresh i
      × (i.on_send ≡ true)
      × (i.on_buffer ≡ true)
      × (i.rx.s.mem ≡ arg.rx)
      × (i.rx.s.size ≡ arg.rx_max % 0x1_0000_0000)
      × (i.on_ping ≡ false)
      × (i.on_pong ≡ false)
unfolding wic_init fill_inst is_client
wic_init_lem http undef arg i e = ground (arith, Option-cases (init_url http undef arg.url))
