-- ===== src/Parse/Header.antt =====
-- The header of a masked binary frame through the loop of `wic_parse`.
use wic.Base.{
  ℕ, suc, ◌+◌, ◌*◌, ◌≤◌, ◌<◌, ◌≡◌, refl, ◌∙◌, Bool, true, false, List, [], ◌∷◌, arith, length, set,
  u64, ◌<<<◌, bit_and, bit_or, ◌==◌, ==_iff, every, every-elim, every_pair-elim, if◌then◌else◌,
}
use wic.Types.{Opcode, RxState, State}
use wic.Stream.{Stream, stream_rewind, written}
use wic.Stream.Laws.{Holds}
use wic.Inst.{Sys, App}
use wic.Frame.{byte_to_opcode, opcodes}
use wic.Receive.{
  parse_opcode, accept_opcode, start_frame, has_flag, filter_opcode, is_cont, parse_size,
  accept_size, check_size, size_switch, after_size, parse_extended_size, extend_size,
  next_size_state, parse_mask, accept_mask, mask_index, next_mask_state, set_rx,
}
use wic.Parse.{parse_loop, parse_round, parse_in_state, parse_payload}
use wic.Parse.Progress.{is_payload}
use wic.Parse.Input.{Reading, stream_get_u8-Reading}

-- An open instance between two frames, with no message under way.
pub record Awaiting {W : Type 0} (s : Sys W) (cap : ℕ) : Type 0 where
  pub opened : s.self.state ≡ State.opened
  pub phase : s.self.rx.state ≡ RxState.opcode
  pub fresh : s.self.rx.frag ≡ Opcode.cont
  pub handler : s.self.on_message ≡ true
  pub writable : s.self.rx.s.writable ≡ true
  pub capacity : s.self.rx.s.size ≡ cap
  pub held : cap ≤ length s.self.rx.s.mem
  pub small : cap < 4294967296
  pub mask_size : length s.self.rx.mask ≡ 4

-- The first byte of a binary frame has been read.
pub record Started {W : Type 0} (s : Sys W) (cap : ℕ) (fin : Bool) : Type 0 where
  pub opened : s.self.state ≡ State.opened
  pub binary : s.self.rx.opcode ≡ Opcode.binary
  pub last : s.self.rx.fin ≡ fin
  pub handler : s.self.on_message ≡ true
  pub buffer : Holds s.self.rx.s cap []
  pub mask_size : length s.self.rx.mask ≡ 4

size_table : every (λ n. bit_and (128 + n) 0x7f == n) 128 ≡ true
unfolding every
size_table = refl

size_bits : (n : ℕ) → n < 128 → bit_and (128 + n) 0x7f ≡ n
size_bits n h = (==_iff _ _).0 (every-elim (λ n. bit_and (128 + n) 0x7f == n) n 128 h size_table)

mask_table : every (λ n. (bit_and (128 + n) 0x80) == 128) 128 ≡ true
unfolding every
mask_table = refl

mask_flag : (n : ℕ) → n < 128 → bit_and (128 + n) 0x80 ≡ 128
mask_flag n h = (==_iff _ _).0 (every-elim (λ n. bit_and (128 + n) 0x80 == 128) n 128 h mask_table)

joined_table : every (λ a. every (λ b. bit_or (a * 256) b == a * 256 + b) 256) 256 ≡ true
unfolding every
joined_table = refl

-- Two bytes, the high one first.
pub bytes_joined : (a b : ℕ) → a < 256 → b < 256 → bit_or (a * 256) b ≡ a * 256 + b
bytes_joined a b ha hb =
    (==_iff _ _).0
      (every_pair-elim (λ a b. bit_or (a * 256) b == a * 256 + b) 256 256 joined_table a b ha hb)

module _ {W : Type 0} (app : App W) (undef : Stream → Bool) (cap : ℕ) where
  -- The frame when the first byte has been read.
  abbrev pub opcode_read : Bool → Sys W → Sys W
  opcode_read fin s = set_rx app s (record (s.self.rx) {
    s = stream_rewind s.self.rx.s;
    fin = fin;
    rsv1 = false;
    rsv2 = false;
    rsv3 = false;
    utf8 = 0;
    opcode = Opcode.binary;
    state = RxState.size;
  })

  accept_opcode_binary :
      (fin : Bool) (s : Sys W)
      → Awaiting s cap
      → accept_opcode app (if fin then 130 else 2) s ≡ opcode_read fin s
  unfolding accept_opcode filter_opcode is_cont byte_to_opcode opcodes start_frame has_flag
      stream_rewind
  accept_opcode_binary true s a = rw a.fresh refl
  accept_opcode_binary false s a = rw a.fresh refl

  pub parse_round_opcode :
      (fin : Bool) (s : Sys W) (st : Stream) (bytes : List ℕ)
      → Awaiting s cap
      → Reading st ((if fin then 130 else 2) ∷ bytes)
      → parse_round app undef s st ≡ (false, opcode_read fin s, record st { pos = st.pos + 1 })
  unfolding parse_round parse_in_state parse_payload parse_opcode
  parse_round_opcode fin s st bytes a r = ground (
    arith,
    a.phase,
    accept_opcode_binary fin s a,
    (stream_get_u8-Reading st (if fin then 130 else 2) bytes r).0,
  )

  pub opcode_read-Started :
      (fin : Bool) (s : Sys W) → Awaiting s cap → Started (opcode_read fin s) cap fin
  unfolding stream_rewind written
  opcode_read-Started fin s a = record {
    opened = a.opened;
    binary = refl;
    last = refl;
    handler = a.handler;
    buffer = record {
      writable = a.writable;
      clean = refl;
      capacity = a.capacity;
      held = a.held;
      small = a.small;
      at = refl;
      content = refl;
    };
    mask_size = a.mask_size;
  }

  -- The frame when a length byte of a masked frame has been read.
  abbrev pub size_read : ℕ → RxState → Sys W → Sys W
  size_read n state s = set_rx app s (record (s.self.rx) { masked = true; size = n; state = state })

  pub accept_size_short :
      (fin : Bool) (n : ℕ) (s : Sys W)
      → Started s cap fin
      → n < 126
      → accept_size app (128 + n) s ≡ size_read n RxState.mask_0 s
  unfolding accept_size has_flag check_size size_switch after_size
  accept_size_short fin n s b h =
      rw (size_bits n (omega arith), mask_flag n (omega arith), b.binary) (ground (arith, b.binary))

  pub accept_size_long :
      (fin : Bool) (s : Sys W)
      → Started s cap fin
      → accept_size app 254 s ≡ size_read 0 RxState.size_0 s
  unfolding accept_size has_flag check_size size_switch
  accept_size_long fin s b = ground (arith, b.binary)

  pub parse_round_size :
      (b : ℕ) (s : Sys W) (st : Stream) (bytes : List ℕ)
      → s.self.rx.state ≡ RxState.size
      → is_payload (accept_size app b s).self.rx.state ≡ false
      → Reading st (b ∷ bytes)
      → parse_round app undef s st ≡ (false, accept_size app b s, record st { pos = st.pos + 1 })
  unfolding parse_round parse_in_state parse_payload parse_size is_payload
  parse_round_size b s st bytes e q r = ground (arith, e, q, (stream_get_u8-Reading st b bytes r).0)

  pub parse_round_extended_0 :
      (b : ℕ) (s : Sys W) (st : Stream) (bytes : List ℕ)
      → s.self.rx.state ≡ RxState.size_0
      → s.self.rx.size ≡ 0
      → b < 256
      → Reading st (b ∷ bytes)
      → parse_round app undef s st ≡ (
        false,
        set_rx app s (record (s.self.rx) { size = b; state = RxState.size_1 }),
        record st { pos = st.pos + 1 },
      )
  unfolding parse_round parse_in_state parse_payload parse_extended_size extend_size next_size_state
  parse_round_extended_0 b s st bytes e z h r =
      let first : bit_or (u64 (s.self.rx.size <<< 8)) b ≡ b =
        rw z (bytes_joined 0 b (omega arith) h ∙ omega arith) in
      ground (arith, e, z, first, (stream_get_u8-Reading st b bytes r).0)

  pub parse_round_extended_1 :
      (a b : ℕ) (s : Sys W) (st : Stream) (bytes : List ℕ)
      → s.self.rx.state ≡ RxState.size_1
      → s.self.rx.size ≡ a
      → s.self.rx.masked ≡ true
      → a < 256
      → b < 256
      → Reading st (b ∷ bytes)
      → parse_round app undef s st ≡ (
        false,
        set_rx app s (record (s.self.rx) { size = a * 256 + b; state = RxState.mask_0 }),
        record st { pos = st.pos + 1 },
      )
  unfolding parse_round parse_in_state parse_payload parse_extended_size extend_size next_size_state
      after_size
  parse_round_extended_1 a b s st bytes e z m ha hb r =
      ground (arith, e, z, m, bytes_joined a b ha hb, (stream_get_u8-Reading st b bytes r).0)

  -- The frame when a byte of the mask has been read.
  abbrev pub mask_read : ℕ → ℕ → RxState → Sys W → Sys W
  mask_read k b state s =
      set_rx app s (record (s.self.rx) { mask = set s.self.rx.mask k b; state = state })

  parse_mask_lem :
      (b : ℕ) (s : Sys W) (st : Stream) (bytes : List ℕ)
      → undef (record st { pos = st.pos + 1 }) ≡ false
      → Reading st (b ∷ bytes)
      → parse_mask app undef s st ≡ (
        false,
        mask_read (mask_index s.self.rx.state) b (next_mask_state s.self.rx.state) s,
        record st { pos = st.pos + 1 },
      )
  unfolding parse_mask accept_mask
  parse_mask_lem b s st bytes u r = ground (arith, u, (stream_get_u8-Reading st b bytes r).0)

  pub parse_round_mask_0 :
      (b : ℕ) (s : Sys W) (st : Stream) (bytes : List ℕ)
      → s.self.rx.state ≡ RxState.mask_0
      → undef (record st { pos = st.pos + 1 }) ≡ false
      → Reading st (b ∷ bytes)
      → parse_round app undef s st
        ≡ (false, mask_read 0 b RxState.mask_1 s, record st { pos = st.pos + 1 })
  unfolding parse_round parse_in_state parse_payload next_mask_state mask_index
  parse_round_mask_0 b s st bytes e u r = ground (arith, e, parse_mask_lem b s st bytes u r)

  pub parse_round_mask_1 :
      (b : ℕ) (s : Sys W) (st : Stream) (bytes : List ℕ)
      → s.self.rx.state ≡ RxState.mask_1
      → undef (record st { pos = st.pos + 1 }) ≡ false
      → Reading st (b ∷ bytes)
      → parse_round app undef s st
        ≡ (false, mask_read 1 b RxState.mask_2 s, record st { pos = st.pos + 1 })
  unfolding parse_round parse_in_state parse_payload next_mask_state mask_index
  parse_round_mask_1 b s st bytes e u r = ground (arith, e, parse_mask_lem b s st bytes u r)

  pub parse_round_mask_2 :
      (b : ℕ) (s : Sys W) (st : Stream) (bytes : List ℕ)
      → s.self.rx.state ≡ RxState.mask_2
      → undef (record st { pos = st.pos + 1 }) ≡ false
      → Reading st (b ∷ bytes)
      → parse_round app undef s st
        ≡ (false, mask_read 2 b RxState.mask_3 s, record st { pos = st.pos + 1 })
  unfolding parse_round parse_in_state parse_payload next_mask_state mask_index
  parse_round_mask_2 b s st bytes e u r = ground (arith, e, parse_mask_lem b s st bytes u r)

  -- The last byte of the mask, and the first of the payload in the same round.
  pub parse_round_mask_3 :
      (b : ℕ) (s : Sys W) (st : Stream) (bytes : List ℕ)
      → s.self.rx.state ≡ RxState.mask_3
      → undef (record st { pos = st.pos + 1 }) ≡ false
      → Reading st (b ∷ bytes)
      → parse_round app undef s st
        ≡ parse_round app undef (mask_read 3 b RxState.payload s) (record st { pos = st.pos + 1 })
  unfolding parse_round parse_in_state parse_payload next_mask_state mask_index
  parse_round_mask_3 b s st bytes e u r = ground (arith, e, parse_mask_lem b s st bytes u r)

  pub parse_loop_same :
      (fuel : ℕ) (s : Sys W) (st : Stream) (s' : Sys W) (st' : Stream)
      → parse_round app undef s st ≡ parse_round app undef s' st'
      → parse_loop app undef (suc fuel) s st ≡ parse_loop app undef (suc fuel) s' st'
  unfolding parse_loop
  parse_loop_same fuel s st s' st' e = rw e refl
