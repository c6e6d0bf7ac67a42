-- ===== src/Parse/Carries.antt =====
-- `wic_parse` carries on a property of the application, and a receive buffer that is not empty.
use wic.Base.{
  ℕ, zero, suc, ◌<◌, ◌≡◌, inl, inr, Bool, Option, none, some, List, arith, length, Option-cases,
  if◌then◌else◌,
}
use wic.Types.{RxState}
use wic.Stream.{Stream, stream_init_ro, stream_pos}
use wic.Inst.{Sys, App, with_inst}
use wic.Inst.Handlers.{call_close_transport}
use wic.Inst.Carries.{Carries, call_open-Has, call_close_transport-Has, call_handshake_failure-Has}
use wic.Http.{HttpParser}
use wic.Send.{is_opened}
use wic.Receive.Keeps.{KeepsRx}
use wic.Receive.Carries.{
  parse_opcode-Has, parse_size-Has, parse_extended_size-Has, parse_mask-Has, parse_data-Has,
}
use wic.Parse.{
  parse_in_state, parse_payload, parse_round, parse_loop, parse_fuel, parse_handshake, is_parsing,
  wic_parse, http_execute, failure_of_errno,
}
use wic.Parse.Progress.{room, InStream}
use wic.Parse.Loop.{parse_round-Advances}
use wic.Parse.Ends.{
  stream_init_ro-InStream, stream_seek-left, parse_handshake-room, parse_handshake-stream,
}

-- A system with the property, and with room to receive into.
abbrev pub Live : {W : Type 0} → (W → Type 0) → Sys W → Type 0
Live p s = p s.world × (0 < room s)

module _ {W : Type 0} (app : App W) (p : W → Type 0) (carries : Carries app p) where
  parse_in_state-Has :
      (undef : Stream → Bool) (rs : RxState) (s : Sys W) (st : Stream)
      → p s.world
      → p (parse_in_state app undef rs s st).1.world
  unfolding parse_in_state
  parse_in_state-Has undef RxState.opcode s st h = parse_opcode-Has app p carries s st h
  parse_in_state-Has undef RxState.size s st h = parse_size-Has app p carries s st h
  parse_in_state-Has undef RxState.mask_0 s st h = parse_mask-Has app p carries undef s st h
  parse_in_state-Has undef RxState.mask_1 s st h = parse_mask-Has app p carries undef s st h
  parse_in_state-Has undef RxState.mask_2 s st h = parse_mask-Has app p carries undef s st h
  parse_in_state-Has undef RxState.mask_3 s st h = parse_mask-Has app p carries undef s st h
  parse_in_state-Has undef RxState.payload s st h = h
  parse_in_state-Has undef _ s st h = parse_extended_size-Has app p carries s st h

  parse_payload-Has :
      (rs : RxState) (b : Bool) (s : Sys W) (st : Stream)
      → p s.world
      → p (parse_payload app rs b s st).1.world
  unfolding parse_payload
  parse_payload-Has RxState.payload b s st h = parse_data-Has app p carries s st h
  parse_payload-Has _ b s st h = h

  parse_round-Has :
      (undef : Stream → Bool) (s : Sys W) (st : Stream)
      → p s.world
      → p (parse_round app undef s st).1.world
  unfolding parse_round
  parse_round-Has undef s st h =
      let r = parse_in_state app undef s.self.rx.state s st in
      parse_payload-Has r.1.self.rx.state r.0 r.1 r.2
        (parse_in_state-Has undef s.self.rx.state s st h)

  parse_handshake-Has :
      (http : HttpParser) (b : List ℕ) (s : Sys W) (st : Stream)
      → p s.world
      → p (parse_handshake app http b s st).0.world
  unfolding parse_handshake
  parse_handshake-Has http b s st h =
      let self = (http_execute http b s.self).1 in
      let s1 = with_inst s self in
      let closed = call_close_transport-Has app p carries s1 h in
      let f = failure_of_errno self.http.errno in
      ground (
        arith,
        call_open-Has app p carries s1 h,
        call_handshake_failure-Has app p carries f (call_close_transport app s1) closed,
      )

  module _ (keeps : KeepsRx app) (undef : Stream → Bool) where
    parse_loop-Live :
        (fuel : ℕ) (s : Sys W) (st : Stream) (s' : Sys W) (st' : Stream)
        → InStream st
        → Live p s
        → parse_loop app undef fuel s st ≡ some (s', st')
        → Live p s'
    unfolding parse_loop
    parse_loop-Live zero s st s' st' h live e = cc
    parse_loop-Live (suc fuel) s st s' st' h live e =
        let r = parse_round app undef s st in
        ground (
          arith,
          parse_round-Advances app keeps undef s st h live.1,
          parse_round-Has undef s st live.0,
          parse_loop-Live fuel r.1 r.2 s' st',
        )

    loop-Live :
        (bytes : List ℕ) (s : Sys W) (st : Stream) (n : ℕ) (s' : Sys W)
        → InStream st
        → Live p s
        → elim (parse_loop app undef (parse_fuel (length bytes)) s st)
            as (λ x. Option (ℕ × Sys W)) [
              | none ↦ none
              | some (s2, st2) ↦
                  some (if is_opened s2.self.state then stream_pos st2 else length bytes, s2)
            ]
          ≡ some (n, s')
        → Live p s'
    loop-Live bytes s st n s' h live e =
        elim (Option-cases (parse_loop app undef (parse_fuel (length bytes)) s st)) [
          | inl out ↦ ground (arith, out)
          | inr (r, got) ↦
              ground
                (arith, got, parse_loop-Live (parse_fuel (length bytes)) s st r.0 r.1 h live got)
        ]

    -- Where `wic_parse` ends, the property still holds and there is still room.
    pub wic_parse-Live :
        (http : HttpParser) (bytes : List ℕ) (s : Sys W) (n : ℕ) (s' : Sys W)
        → Live p s
        → wic_parse app undef http bytes s ≡ some (n, s')
        → Live p s'
    unfolding wic_parse
    wic_parse-Live http bytes s n s' live e =
        let st = stream_init_ro bytes (length bytes) in
        let k = (http_execute http bytes s.self).0 in
        let r = if is_parsing s.self.state then parse_handshake app http bytes s st else (s, st) in
        ground (
          arith,
          stream_init_ro-InStream bytes,
          parse_handshake-Has http bytes s st live.0,
          parse_handshake-room app http bytes s st keeps,
          parse_handshake-stream app http bytes s st,
          stream_seek-left st k (stream_init_ro-InStream bytes),
          loop-Live bytes r.0 r.1 n s',
        )
