-- ===== src/Parse/Bounds.antt =====
-- How much `wic_parse` says it has consumed.
use wic.Base.{
  ℕ, zero, suc, ◌≤◌, ◌<◌, ◌≡◌, Bool, Option, none, some, List, arith, length, inl, inr,
  if◌then◌else◌, Option-cases,
}
use wic.Types.{RxState}
use wic.Stream.{Stream, stream_get_u8, stream_read, stream_init_ro, stream_seek, stream_pos}
use wic.Inst.{Sys, App}
use wic.Http.{HttpParser}
use wic.Send.{is_opened}
use wic.Receive.{parse_opcode, parse_size, parse_extended_size, parse_mask}
use wic.Receive.Data.{receive_data, parse_data}
use wic.Parse.{
  parse_in_state, parse_payload, parse_round, parse_loop, parse_fuel, parse_handshake, is_parsing,
  wic_parse, http_execute,
}

-- The cursor is within the input, whose size is `n` or less.
abbrev Within : ℕ → Stream → Type 0
Within n st = (st.pos ≤ st.size) × (st.size ≤ n) × (st.size < 4294967296)

stream_get_u8-Within : (n : ℕ) (st : Stream) → Within n st → Within n (stream_get_u8 st).2
unfolding stream_get_u8 stream_read
stream_get_u8-Within n st h = ground arith

module _ {W : Type 0} (app : App W) (undef : Stream → Bool) (n : ℕ) where
  parse_opcode-Within : (s : Sys W) (st : Stream) → Within n st → Within n (parse_opcode app s st).2
  unfolding parse_opcode
  parse_opcode-Within s st h = ground (arith, stream_get_u8-Within n st h)

  parse_size-Within : (s : Sys W) (st : Stream) → Within n st → Within n (parse_size app s st).2
  unfolding parse_size
  parse_size-Within s st h = ground (arith, stream_get_u8-Within n st h)

  parse_extended_size-Within :
      (s : Sys W) (st : Stream) → Within n st → Within n (parse_extended_size app s st).2
  unfolding parse_extended_size
  parse_extended_size-Within s st h = ground (arith, stream_get_u8-Within n st h)

  parse_mask-Within :
      (s : Sys W) (st : Stream) → Within n st → Within n (parse_mask app undef s st).2
  unfolding parse_mask
  parse_mask-Within s st h = ground (arith, stream_get_u8-Within n st h)

  parse_in_state-Within :
      (rs : RxState) (s : Sys W) (st : Stream)
      → Within n st
      → Within n (parse_in_state app undef rs s st).2
  unfolding parse_in_state
  parse_in_state-Within RxState.opcode s st h = parse_opcode-Within s st h
  parse_in_state-Within RxState.size s st h = parse_size-Within s st h
  parse_in_state-Within RxState.mask_0 s st h = parse_mask-Within s st h
  parse_in_state-Within RxState.mask_1 s st h = parse_mask-Within s st h
  parse_in_state-Within RxState.mask_2 s st h = parse_mask-Within s st h
  parse_in_state-Within RxState.mask_3 s st h = parse_mask-Within s st h
  parse_in_state-Within RxState.payload s st h = h
  parse_in_state-Within _ s st h = parse_extended_size-Within s st h

  receive_data-Within : (s : Sys W) (st : Stream) → Within n st → Within n (receive_data app s st).2
  unfolding receive_data
  receive_data-Within s st h = ground (arith, stream_get_u8-Within n st h)

  parse_data-Within : (s : Sys W) (st : Stream) → Within n st → Within n (parse_data app s st).2
  unfolding parse_data
  parse_data-Within s st h = ground (arith, receive_data-Within s st h)

  parse_payload-Within :
      (rs : RxState) (b : Bool) (s : Sys W) (st : Stream)
      → Within n st
      → Within n (parse_payload app rs b s st).2
  unfolding parse_payload
  parse_payload-Within RxState.payload b s st h = parse_data-Within s st h
  parse_payload-Within _ b s st h = h

  parse_round-Within :
      (s : Sys W) (st : Stream) → Within n st → Within n (parse_round app undef s st).2
  unfolding parse_round
  parse_round-Within s st h =
      let r = parse_in_state app undef s.self.rx.state s st in
      parse_payload-Within r.1.self.rx.state r.0 r.1 r.2
        (parse_in_state-Within s.self.rx.state s st h)

  parse_loop-Within :
      (fuel : ℕ) (s : Sys W) (st : Stream) (s' : Sys W) (st' : Stream)
      → Within n st
      → parse_loop app undef fuel s st ≡ some (s', st')
      → Within n st'
  unfolding parse_loop
  parse_loop-Within zero s st s' st' h e = cc
  parse_loop-Within (suc fuel) s st s' st' h e =
      let r = parse_round app undef s st in
      ground (arith, parse_round-Within s st h, parse_loop-Within fuel r.1 r.2 s' st')

stream_init_ro-Within :
    (bytes : List ℕ) → Within (length bytes) (stream_init_ro bytes (length bytes))
unfolding stream_init_ro
stream_init_ro-Within bytes = omega arith

stream_seek-Within : (n k : ℕ) (st : Stream) → Within n st → Within n (stream_seek st k).1
unfolding stream_seek
stream_seek-Within n k st h = ground arith

parse_handshake-Within :
    {W : Type 0} (app : App W) (http : HttpParser) (bytes : List ℕ) (s : Sys W) (n : ℕ)
    (st : Stream)
    → Within n st
    → Within n (parse_handshake app http bytes s st).1
unfolding parse_handshake
parse_handshake-Within app http bytes s n st h =
    ground (arith, stream_seek-Within n (http_execute http bytes s.self).0 st h)

-- The loop, then the number of bytes consumed.
loop-bound :
    {W : Type 0} (app : App W) (undef : Stream → Bool) (bytes : List ℕ) (s : Sys W) (st : Stream)
    (n : ℕ) (s' : Sys W)
    → Within (length bytes) st
    → elim (parse_loop app undef (parse_fuel (length bytes)) s st) as (λ x. Option (ℕ × Sys W)) [
      | none ↦ none
      | some (s2, st2) ↦ some (if is_opened s2.self.state then stream_pos st2 else length bytes, s2)
    ]
      ≡ some (n, s')
    → n ≤ length bytes
unfolding stream_pos
loop-bound app undef bytes s st n s' h e =
    let loop = parse_loop app undef (parse_fuel (length bytes)) s st in
    elim (Option-cases loop) [
      | inl out ↦ ground (arith, out)
      | inr (p, got) ↦ ground (
        arith,
        got,
        parse_loop-Within app undef (length bytes) (parse_fuel (length bytes)) s st p.0 p.1 h got,
      )
    ]

-- Whatever the handlers do, `wic_parse` never says that it has consumed more bytes than it was
-- given.
pub wic_parse-bound :
    {W : Type 0} (app : App W) (undef : Stream → Bool) (http : HttpParser) (bytes : List ℕ)
    (s : Sys W) (n : ℕ) (s' : Sys W)
    → wic_parse app undef http bytes s ≡ some (n, s')
    → n ≤ length bytes
unfolding wic_parse
wic_parse-bound app undef http bytes s n s' e =
    let st = stream_init_ro bytes (length bytes) in
    let r = if is_parsing s.self.state then parse_handshake app http bytes s st else (s, st) in
    ground (
      arith,
      stream_init_ro-Within bytes,
      parse_handshake-Within app http bytes s (length bytes) st (stream_init_ro-Within bytes),
      loop-bound app undef bytes r.0 r.1 n s',
    )
