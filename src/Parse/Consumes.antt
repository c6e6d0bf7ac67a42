-- ===== src/Parse/Consumes.antt =====
-- With an application that refuses nothing, `wic_parse` leaves no input.
use wic.Base.{
  ℕ, zero, suc, ◌≤◌, ◌<◌, ◌≡◌, ◌≢◌, ◌⊎◌, refl, ap, sym, ◌∙◌, Bool, true, false, some, List, arith,
  length, ◌||◌, not, Bool-cases, Option-cases, inl, inr, ltb,
}
use wic.Types.{Encoding, Opcode, RxState, State}
use wic.Stream.{Stream, stream_get_u8, stream_read, stream_pos, stream_init_ro}
use wic.Inst.{Sys, App}
use wic.Inst.Handlers.{call_message}
use wic.Http.{HttpParser}
use wic.Send.{is_opened, send_pong_with_payload}
use wic.Receive.{parse_opcode, parse_size, parse_extended_size, parse_mask, message_opcode}
use wic.Receive.Data.{
  offer, offer_fragment, flush, finish_text, finish_binary, finish_ping, finish_frame, finish_data,
  receive_data, parse_data, would_block,
}
use wic.Parse.Progress.{is_payload, room}
use wic.Parse.Input.{parse_round_lem}
use wic.Parse.Ends.{wic_parse_ends}
use wic.Receive.Keeps.{KeepsRx}
use wic.Parse.{
  parse_in_state, parse_payload, parse_round, parse_loop, parse_fuel, is_parsing, wic_parse,
}

-- An application that takes every message and never makes a pong wait.
pub record Willing {W : Type 0} (app : App W) : Type 0 where
  pub takes :
      (e : Encoding) (fin : Bool) (b : List ℕ) (s : Sys W) → (app.on_message e fin b s).0 ≡ true
  pub pongs : (b : List ℕ) (s : Sys W) → would_block (send_pong_with_payload app b s).0 ≡ false

-- The input is over.
abbrev IsOver : Stream → Type 0
IsOver st = st.pos ≡ st.size

-- The input can be read on.
abbrev CanRead : Stream → Type 0
CanRead st = (st.error ≡ false) × (st.pos ≤ st.size) × (st.size < 4294967296)

-- A part of a round is blocked at the end of the input only.
abbrev Blocks : {W : Type 0} → Bool × Sys W × Stream → Type 0
Blocks r = (r.0 ≡ true) × IsOver r.2 ⊎ (r.0 ≡ false) × CanRead r.2

stream_get_u8-Blocks :
    (st : Stream)
    → CanRead st
    → let r = stream_get_u8 st in
      ((r.0 ≡ false) × IsOver r.2 ⊎ (r.0 ≡ true) × CanRead r.2) × (r.2.size ≡ st.size)
unfolding stream_get_u8 stream_read
stream_get_u8-Blocks st h = ground (arith, h)

module _ {W : Type 0} (app : App W) (willing : Willing app) where
  offer_taken : (e : Encoding) (fin : Bool) (s : Sys W) → (offer app e fin s).0 ≡ false
  unfolding offer call_message
  offer_taken e fin s = grind (arith, willing.takes)

  offer_fragment_taken : (o : Opcode) (s : Sys W) → (offer_fragment app o s).0 ≡ false
  unfolding offer_fragment
  offer_fragment_taken Opcode.text s = offer_taken Encoding.utf8 false s
  offer_fragment_taken Opcode.binary s = offer_taken Encoding.binary false s
  offer_fragment_taken _ s = refl

  flush_taken : (s : Sys W) → (flush app s).0 ≡ false
  unfolding flush
  flush_taken s =
      ground (arith, offer_fragment_taken (message_opcode s.self.rx.opcode s.self.rx.frag) s)

  finish_text_taken : (o : Opcode) (s : Sys W) → (finish_text app o s).0 ≡ false
  unfolding finish_text
  finish_text_taken o s = ground (arith, offer_taken Encoding.utf8 s.self.rx.fin s)

  finish_binary_taken : (o : Opcode) (s : Sys W) → (finish_binary app o s).0 ≡ false
  unfolding finish_binary
  finish_binary_taken o s = ground (arith, offer_taken Encoding.binary s.self.rx.fin s)

  finish_ping_taken : (s : Sys W) → (finish_ping app s).0 ≡ false
  unfolding finish_ping
  finish_ping_taken s = grind (arith, willing.pongs)

  finish_frame_taken : (o : Opcode) (s : Sys W) → (finish_frame app o s).0 ≡ false
  unfolding finish_frame
  finish_frame_taken Opcode.text s = finish_text_taken Opcode.text s
  finish_frame_taken Opcode.binary s = finish_binary_taken Opcode.binary s
  finish_frame_taken Opcode.ping s = finish_ping_taken s
  finish_frame_taken _ s = refl

  finish_data_taken : (b : Bool) (s : Sys W) → (finish_data app b s).0 ≡ b
  unfolding finish_data
  finish_data_taken b s =
      ground (arith, finish_frame_taken (message_opcode s.self.rx.opcode s.self.rx.frag) s)

  receive_data-Blocks :
      (s : Sys W) (st : Stream)
      → CanRead st
      → Blocks (receive_data app s st) × ((receive_data app s st).2.size ≡ st.size)
  unfolding receive_data
  receive_data-Blocks s st h = ground (arith, h, flush_taken s, stream_get_u8-Blocks st h)

  parse_data-Blocks :
      (s : Sys W) (st : Stream)
      → CanRead st
      → Blocks (parse_data app s st) × ((parse_data app s st).2.size ≡ st.size)
  unfolding parse_data
  parse_data-Blocks s st h = elim (Bool-cases (ltb 0 s.self.rx.size)) [
    | inl more ↦
        let r = receive_data app s st in
        ground (arith, more, finish_data_taken r.0 r.1, receive_data-Blocks s st h)
    | inr over ↦ ground (arith, h, over, finish_data_taken false s)
  ]

  module _ (undef : Stream → Bool) (never : (st : Stream) → undef st ≡ false) where
    -- In a state other than that of the payload nothing changes where the part is blocked.
    parse_in_state-Blocks :
        (rs : RxState) (s : Sys W) (st : Stream)
        → CanRead st
        → is_payload rs ≡ false
        → let r = parse_in_state app undef rs s st in
          ((r.0 ≡ true) × (r.1 ≡ s) × IsOver r.2 ⊎ (r.0 ≡ false) × CanRead r.2)
          × (r.2.size ≡ st.size)
    unfolding parse_in_state parse_opcode parse_size parse_extended_size parse_mask is_payload
    parse_in_state-Blocks RxState.payload s st h e = cc
    parse_in_state-Blocks RxState.mask_0 s st h e =
        ground (arith, stream_get_u8-Blocks st h, never (stream_get_u8 st).2)
    parse_in_state-Blocks RxState.mask_1 s st h e =
        ground (arith, stream_get_u8-Blocks st h, never (stream_get_u8 st).2)
    parse_in_state-Blocks RxState.mask_2 s st h e =
        ground (arith, stream_get_u8-Blocks st h, never (stream_get_u8 st).2)
    parse_in_state-Blocks RxState.mask_3 s st h e =
        ground (arith, stream_get_u8-Blocks st h, never (stream_get_u8 st).2)
    parse_in_state-Blocks _ s st h e = ground (arith, stream_get_u8-Blocks st h)

    parse_payload-Blocks :
        (rs : RxState) (b : Bool) (s : Sys W) (st : Stream)
        → ((b ≡ true) × (is_payload rs ≡ false) × IsOver st ⊎ (b ≡ false) × CanRead st)
        → Blocks (parse_payload app rs b s st) × ((parse_payload app rs b s st).2.size ≡ st.size)
    unfolding parse_payload is_payload
    parse_payload-Blocks RxState.payload b s st (inl (blocked, other, over)) = cc
    parse_payload-Blocks RxState.payload b s st (inr (go, h)) = parse_data-Blocks s st h
    parse_payload-Blocks _ b s st (inl (blocked, other, over)) = (inl (blocked, over), refl)
    parse_payload-Blocks _ b s st (inr (go, h)) = (inr (go, h), refl)

    is_payload-eq : (rs : RxState) → is_payload rs ≡ true → rs ≡ RxState.payload
    unfolding is_payload
    is_payload-eq RxState.payload e = refl
    is_payload-eq _ e = cc

    parse_round-Blocks :
        (s : Sys W) (st : Stream)
        → CanRead st
        → Blocks (parse_round app undef s st) × ((parse_round app undef s st).2.size ≡ st.size)
    parse_round-Blocks s st h = elim (Bool-cases (is_payload s.self.rx.state)) [
      | inl data_state ↦
          rw (parse_round_lem app undef s st (is_payload-eq s.self.rx.state data_state))
            (parse_data-Blocks s st h)
      | inr other ↦
          let r = parse_in_state app undef s.self.rx.state s st in
          let (first, size) = parse_in_state-Blocks s.self.rx.state s st h other in
          let round : parse_round app undef s st ≡ parse_payload app r.1.self.rx.state r.0 r.1 r.2 =
            unfold parse_round in refl in
          let next : (r.0 ≡ true) × (is_payload r.1.self.rx.state ≡ false) × IsOver r.2
              ⊎ (r.0 ≡ false) × CanRead r.2 =
            elim first [
              | inl (blocked, same, over) ↦
                  inl (blocked, ap (λ (x : Sys W). is_payload x.self.rx.state) same ∙ other, over)
              | inr (go, reading) ↦ inr (go, reading)
            ] in
          let second = parse_payload-Blocks r.1.self.rx.state r.0 r.1 r.2 next in
          rw round (second.0, second.1 ∙ size)
    ]

    no_fuel :
        (s : Sys W) (st : Stream) (s' : Sys W) (st' : Stream)
        → parse_loop app undef 0 s st ≢ some (s', st')
    unfolding parse_loop
    no_fuel s st s' st' e = cc

    parse_loop_stops :
        (fuel : ℕ) (s : Sys W) (st : Stream)
        → let (b, s1, st1) = parse_round app undef s st in
          (b || not (is_opened s1.self.state) ≡ true)
          → parse_loop app undef (suc fuel) s st ≡ some (s1, st1)
    unfolding parse_loop
    parse_loop_stops fuel s st e = rw e refl

    parse_loop_goes :
        (fuel : ℕ) (s : Sys W) (st : Stream)
        → let (b, s1, st1) = parse_round app undef s st in
          (b || not (is_opened s1.self.state) ≡ false)
          → parse_loop app undef (suc fuel) s st ≡ parse_loop app undef fuel s1 st1
    unfolding parse_loop
    parse_loop_goes fuel s st e = rw e refl

    parse_loop-IsOver :
        (fuel : ℕ) (s s' : Sys W) (st st' : Stream)
        → CanRead st
        → parse_loop app undef fuel s st ≡ some (s', st')
        → is_opened s'.self.state ≡ true
        → st'.pos ≡ st.size
    parse_loop-IsOver zero s s' st st' h e o = absurd (no_fuel s st s' st' e)
    parse_loop-IsOver (suc fuel) s s' st st' h e o =
        let (b, s1, st1) = parse_round app undef s st in
        let round = parse_round-Blocks s st h in
        elim (Bool-cases (b || not (is_opened s1.self.state))) [
          | inl stops ↦
              let done : some (s1, st1) ≡ some (s', st') =
                sym (parse_loop_stops fuel s st stops) ∙ e in
              let same_s : s1 ≡ s' = cc done in
              let same_st : st1 ≡ st' = cc done in
              let open1 : is_opened s1.self.state ≡ true =
                ap (λ (x : Sys W). is_opened x.self.state) same_s ∙ o in
              let blocked : b ≡ true = ground (arith, stops, open1) in
              ground (arith, round, blocked, ap (λ (x : Stream). x.pos) same_st)
          | inr goes ↦
              let go : b ≡ false = ground (arith, goes) in
              let rest : parse_loop app undef fuel s1 st1 ≡ some (s', st') =
                sym (parse_loop_goes fuel s st goes) ∙ e in
              let h1 : CanRead st1 = ground (arith, round, go) in
              parse_loop-IsOver fuel s1 s' st1 st' h1 rest o ∙ round.1
        ]

-- An open instance with a receive buffer, whose application takes every message, never makes a pong
-- wait and leaves the receiver alone, consumes any input of less than 4 GiB whole, in one `wic_parse`, which
-- ends; also where it is closed on the way. The value that `parse_mask` does not set is taken to be false.
pub wic_parse_consumes :
    {W : Type 0} (app : App W) (undef : Stream → Bool) (http : HttpParser) (bytes : List ℕ)
    (s : Sys W)
    → Willing app
    → KeepsRx app
    → ((st : Stream) → undef st ≡ false)
    → s.self.state ≡ State.opened
    → 0 < room s
    → length bytes < 4294967296
    → (s' : Sys W) × (wic_parse app undef http bytes s ≡ some (length bytes, s'))
unfolding wic_parse is_parsing is_opened stream_pos
wic_parse_consumes app undef http bytes s willing keeps never o pos few =
    let st = stream_init_ro bytes (length bytes) in
    let fuel = parse_fuel (length bytes) in
    let h : CanRead st = unfold stream_init_ro in (refl, omega arith, omega arith) in
    let all : st.size ≡ length bytes = unfold stream_init_ro in omega (arith, few) in
    elim (Option-cases (parse_loop app undef fuel s st)) [
      | inl none_eq ↦ absurd (
          wic_parse_ends app undef http bytes s keeps pos
            (unfold wic_parse is_parsing is_opened in ground (arith, none_eq, o)))
      | inr ((s', st'), run) ↦ elim (Bool-cases (is_opened s'.self.state)) [
        | inl opened ↦
            let over = parse_loop-IsOver app willing undef never fuel s s' st st' h run opened in
            (s', ground (arith, run, o, over, all, opened))
        | inr closed ↦ (s', ground (arith, run, o, closed))
      ]
    ]
