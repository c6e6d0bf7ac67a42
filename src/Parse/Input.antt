-- ===== src/Parse/Input.antt =====
-- Reading the input of `wic_parse` byte by byte.
use wic.Base.{
  ℕ, zero, suc, ◌+◌, ◌<◌, ◌≡◌, refl, Bool, true, false, some, List, [], ◌∷◌, arith, length, drop,
}
use wic.Types.{RxState, State}
use wic.Stream.{Stream, stream_get_u8, stream_read, stream_init_ro}
use wic.Inst.{Sys, App}
use wic.Send.{is_opened}
use wic.Receive.{parse_opcode}
use wic.Receive.Data.{parse_data}
use wic.Parse.{parse_loop, parse_round, parse_in_state, parse_payload}

-- The input is at `bytes`, which are its last.
pub record Reading (st : Stream) (bytes : List ℕ) : Type 0 where
  pub clean : st.error ≡ false
  pub ends : st.pos + length bytes ≡ st.size
  pub small : st.size < 4294967296
  pub rest : drop st.pos st.mem ≡ bytes

drop-tail : (n : ℕ) (xs : List ℕ) (b : ℕ) (bs : List ℕ) → drop n xs ≡ b ∷ bs → drop (suc n) xs ≡ bs
drop-tail zero [] b bs e = cc
drop-tail zero (x ∷ xs) b bs e = cc
drop-tail (suc n) [] b bs e = cc
drop-tail (suc n) (x ∷ xs) b bs e = drop-tail n xs b bs e

-- A byte is read.
pub stream_get_u8-Reading :
    (st : Stream) (b : ℕ) (bytes : List ℕ)
    → Reading st (b ∷ bytes)
    → (stream_get_u8 st ≡ (true, b, record st { pos = st.pos + 1 }))
      × Reading (record st { pos = st.pos + 1 }) bytes
unfolding stream_get_u8 stream_read
stream_get_u8-Reading st b bytes r =
    let tail = drop-tail st.pos st.mem b bytes r.rest in
    let next : st.pos + 1 ≡ suc st.pos = omega arith in
    (
      rw r.rest (ground arith),
      record {
        clean = r.clean;
        ends = omega (arith, r.ends);
        small = r.small;
        rest = rw next tail;
      },
    )

-- The input is over.
pub stream_get_u8_over :
    (st : Stream)
    → Reading st []
    → ((stream_get_u8 st).0 ≡ false) × ((stream_get_u8 st).2.pos ≡ st.size)
unfolding stream_get_u8 stream_read
stream_get_u8_over st r = ground (arith, r.ends)

pub stream_init_ro-Reading :
    (bytes : List ℕ)
    → length bytes < 4294967296
    → Reading (stream_init_ro bytes (length bytes)) bytes
unfolding stream_init_ro
stream_init_ro-Reading bytes h = record {
  clean = refl;
  ends = omega arith;
  small = omega arith;
  rest = refl;
}

module _ {W : Type 0} (app : App W) (undef : Stream → Bool) where
  -- In the payload the round is that of `parse_data`.
  pub parse_round_lem :
      (s : Sys W) (st : Stream)
      → s.self.rx.state ≡ RxState.payload
      → parse_round app undef s st ≡ parse_data app s st
  unfolding parse_round parse_in_state parse_payload
  parse_round_lem s st e = ground (arith, e)

  -- At the end of the input, between two frames, the loop ends.
  pub parse_loop_over :
      (fuel : ℕ) (s : Sys W) (st : Stream)
      → s.self.rx.state ≡ RxState.opcode
      → Reading st []
      → parse_loop app undef (suc fuel) s st ≡ some (s, (stream_get_u8 st).2)
  unfolding parse_loop parse_round parse_in_state parse_payload parse_opcode
  parse_loop_over fuel s st e r = ground (arith, e, (stream_get_u8_over st r).0)

  -- A round that is not blocked goes on with the rest of the fuel.
  pub parse_loop_next :
      (fuel : ℕ) (s : Sys W) (st : Stream) (s' : Sys W) (st' : Stream)
      → parse_round app undef s st ≡ (false, s', st')
      → s'.self.state ≡ State.opened
      → parse_loop app undef (suc fuel) s st ≡ parse_loop app undef fuel s' st'
  unfolding parse_loop is_opened
  parse_loop_next fuel s st s' st' e o = rw (e, o) refl
