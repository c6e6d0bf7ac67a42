-- ===== src/Parse/Loop.antt =====
-- The loop of `wic_parse`: the measure of `Progress` falls in each round.
use wic.Base.{
  ℕ, zero, suc, ◌+◌, ◌≤◌, ◌<◌, ◌≡◌, ◌≢◌, ◌⊎◌, inl, inr, refl, ap, Bool, true, false, none, arith,
  Bool-cases, ltb,
}
use wic.Types.{RxState}
use wic.Stream.{Stream, stream_get_u8, stream_rewind, stream_eof}
use wic.Inst.{Sys, App}
use wic.Send.{is_opened}
use wic.Receive.{
  parse_opcode, parse_size, parse_extended_size, parse_mask, extend_size, accept_mask,
  message_opcode,
}
use wic.Receive.Keeps.{KeepsRx}
use wic.Receive.Data.{flush, receive_data, finish_data, parse_data}
use wic.Parse.{parse_in_state, parse_payload, parse_round, parse_loop}
use wic.Parse.Progress.{
  room, InStream, left, measure, is_payload, stream_get_u8-left, accept_opcode-room,
  accept_size-room, accept_data-room, offer_fragment-rx, finish_frame-room,
}

-- The outcome of the part of a round that reads one byte.
abbrev Reads : {W : Type 0} → Sys W → Stream → Bool × Sys W × Stream → Type 0
Reads s st r =
    (room r.1 ≡ room s)
    × InStream r.2
    × ((r.0 ≡ true) × (r.1 ≡ s) × (left r.2 ≤ left st) ⊎ (left r.2 + 1 ≡ left st))

module _ {W : Type 0} (app : App W) (keeps : KeepsRx app) where
  parse_opcode-Reads : (s : Sys W) (st : Stream) → InStream st → Reads s st (parse_opcode app s st)
  unfolding parse_opcode
  parse_opcode-Reads s st h =
      ground (arith, stream_get_u8-left st h, accept_opcode-room app keeps (stream_get_u8 st).1 s)

  parse_size-Reads : (s : Sys W) (st : Stream) → InStream st → Reads s st (parse_size app s st)
  unfolding parse_size
  parse_size-Reads s st h =
      ground (arith, stream_get_u8-left st h, accept_size-room app keeps (stream_get_u8 st).1 s)

  parse_extended_size-Reads :
      (s : Sys W) (st : Stream) → InStream st → Reads s st (parse_extended_size app s st)
  unfolding parse_extended_size extend_size
  parse_extended_size-Reads s st h = ground (arith, stream_get_u8-left st h)

  parse_mask-Reads :
      (undef : Stream → Bool) (s : Sys W) (st : Stream)
      → InStream st
      → Reads s st (parse_mask app undef s st)
  unfolding parse_mask accept_mask
  parse_mask-Reads undef s st h = ground (arith, stream_get_u8-left st h)

  parse_in_state-Reads :
      (undef : Stream → Bool) (rs : RxState) (s : Sys W) (st : Stream)
      → InStream st
      → is_payload rs ≡ false
      → Reads s st (parse_in_state app undef rs s st)
  unfolding parse_in_state is_payload
  parse_in_state-Reads undef RxState.opcode s st h e = parse_opcode-Reads s st h
  parse_in_state-Reads undef RxState.size s st h e = parse_size-Reads s st h
  parse_in_state-Reads undef RxState.mask_0 s st h e = parse_mask-Reads undef s st h
  parse_in_state-Reads undef RxState.mask_1 s st h e = parse_mask-Reads undef s st h
  parse_in_state-Reads undef RxState.mask_2 s st h e = parse_mask-Reads undef s st h
  parse_in_state-Reads undef RxState.mask_3 s st h e = parse_mask-Reads undef s st h
  parse_in_state-Reads undef RxState.payload s st h e = cc
  parse_in_state-Reads undef _ s st h e = parse_extended_size-Reads s st h

  flush_lem :
      (s : Sys W)
      → (room (flush app s).1 ≡ room s)
        × (((flush app s).0 ≡ true)
            ⊎ ((flush app s).0 ≡ false)
              × ((flush app s).1.self.rx ≡ record (s.self.rx) { s = stream_rewind s.self.rx.s }))
  unfolding flush
  flush_lem s =
      ground (arith, offer_fragment-rx app keeps (message_opcode s.self.rx.opcode s.self.rx.frag) s)

  -- After `finish_data` the payload is over, or it was not yet.
  finish_data_lem :
      (b : Bool) (s : Sys W)
      → (room (finish_data app b s).1 ≡ room s)
        × (((finish_data app b s).0 ≡ true)
            ⊎ ((finish_data app b s).1.self.rx.state ≡ RxState.opcode)
            ⊎ (is_opened (finish_data app b s).1.self.state ≡ false)
            ⊎ (finish_data app b s ≡ (b, s)) × (s.self.rx.size ≢ 0))
  unfolding finish_data
  finish_data_lem b s =
      ground (arith, finish_frame-room app keeps (message_opcode s.self.rx.opcode s.self.rx.frag) s)

  finish_data_blocked : (s : Sys W) → (finish_data app true s).0 ≡ true
  unfolding finish_data
  finish_data_blocked s = ground arith

  -- The outcome of `parse_data`.
  abbrev pub Advances : Sys W → Stream → Bool × Sys W × Stream → Type 0
  Advances s st r =
      (room r.1 ≡ room s)
      × InStream r.2
      × (left r.2 ≤ left st)
      × ((r.0 ≡ true) ⊎ (is_opened r.1.self.state ≡ false) ⊎ (measure r.1 r.2 < measure s st))

  receive_data_lem :
      (s : Sys W) (st : Stream)
      → InStream st
      → let (b, s', st') = receive_data app s st in
        (room s' ≡ room s)
        × InStream st'
        × ((b ≡ true) × (left st' ≤ left st)
            ⊎ (b ≡ false) × (left st' + 1 ≡ left st)
            ⊎ (b ≡ false)
              × (left st' ≡ left st)
              × (s.self.rx.s.pos ≡ room s)
              × (s'.self.rx ≡ record (s.self.rx) { s = stream_rewind s.self.rx.s }))
  unfolding receive_data stream_eof
  receive_data_lem s st h = ground (
    arith,
    stream_get_u8-left st h,
    flush_lem s,
    accept_data-room app keeps (stream_get_u8 st).1 s,
  )

  parse_data-Advances :
      (s : Sys W) (st : Stream)
      → InStream st
      → 0 < room s
      → s.self.rx.state ≡ RxState.payload
      → Advances s st (parse_data app s st)
  unfolding parse_data is_payload stream_rewind
  parse_data-Advances s st h pos e = elim (Bool-cases (ltb 0 s.self.rx.size)) [
    | inl more ↦ rw more (
        ground (
          arith,
          receive_data_lem s st h,
          finish_data_lem (receive_data app s st).0 (receive_data app s st).1,
          finish_data_blocked (receive_data app s st).1,
        ))
    | inr over ↦ rw over (ground (arith, finish_data_lem false s))
  ]

  parse_payload-Advances :
      (rs : RxState) (b : Bool) (s : Sys W) (st : Stream)
      → InStream st
      → 0 < room s
      → s.self.rx.state ≡ rs
      → let r = parse_payload app rs b s st in
        (room r.1 ≡ room s)
        × InStream r.2
        × (left r.2 ≤ left st)
        × ((r ≡ (b, s, st)) × (is_payload rs ≡ false) ⊎ (is_payload rs ≡ true))
  unfolding parse_payload is_payload
  parse_payload-Advances RxState.payload b s st h pos e =
      ground (arith, parse_data-Advances s st h pos e)
  parse_payload-Advances _ b s st h pos e = ground arith

  is_payload-eq : (rs : RxState) → is_payload rs ≡ true → rs ≡ RxState.payload
  unfolding is_payload
  is_payload-eq RxState.payload e = refl
  is_payload-eq _ e = cc

  parse_round_payload :
      (undef : Stream → Bool) (s : Sys W) (st : Stream)
      → is_payload s.self.rx.state ≡ true
      → parse_round app undef s st ≡ parse_data app s st
  unfolding parse_round parse_in_state parse_payload
  parse_round_payload undef s st e = ground (arith, is_payload-eq s.self.rx.state e)

  -- A round that goes on makes the measure smaller.
  pub parse_round-Advances :
      (undef : Stream → Bool) (s : Sys W) (st : Stream)
      → InStream st
      → 0 < room s
      → Advances s st (parse_round app undef s st)
  parse_round-Advances undef s st h pos = elim (Bool-cases (is_payload s.self.rx.state)) [
    | inl data_state ↦
        rw (parse_round_payload undef s st data_state)
          (parse_data-Advances s st h pos (is_payload-eq s.self.rx.state data_state))
    | inr other ↦
        let r = parse_in_state app undef s.self.rx.state s st in
        let go : parse_round app undef s st ≡ parse_payload app r.1.self.rx.state r.0 r.1 r.2 =
          unfold parse_round in refl in
        let first = parse_in_state-Reads undef s.self.rx.state s st h other in
        let second =
          parse_payload-Advances r.1.self.rx.state r.0 r.1 r.2 first.1 (omega (arith, first.0))
            refl in
        rw go (ground (arith, first, second, ap (λ (t : Sys W). is_payload t.self.rx.state)))
  ]

  -- With fuel above the measure the loop ends, in a system with the same room.
  pub parse_loop_ends :
      (undef : Stream → Bool) (fuel : ℕ) (s : Sys W) (st : Stream)
      → InStream st
      → 0 < room s
      → measure s st < fuel
      → parse_loop app undef fuel s st ≢ none
  unfolding parse_loop
  parse_loop_ends undef zero s st h pos m = absurd (omega arith)
  parse_loop_ends undef (suc fuel) s st h pos m =
      let r = parse_round app undef s st in
      ground (
        arith,
        parse_round-Advances undef s st h pos,
        parse_loop_ends undef fuel (parse_round app undef s st).1 (parse_round app undef s st).2,
      )
