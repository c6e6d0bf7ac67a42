-- ===== src/Parse/Plain.antt =====
-- The header of any frame that is not masked, as the frames of a server are, through the rounds of
-- `wic_parse`.
use wic.Base.{
  ℕ, ◌+◌, ◌*◌, ◌/◌, ◌%◌, ◌≤◌, ◌<◌, ◌≡◌, refl, Bool, true, false, not, ◌&&◌, List, [], ◌∷◌, ◌++◌,
  arith, if◌then◌else◌, length, leb, ◌==◌, ==_iff, every, every-elim, bit_and, Bool-cases, inl, inr,
}
use wic.Types.{Opcode, RxState, State}
use wic.Stream.{Stream, stream_rewind, stream_max, written}
use wic.Inst.{Sys, App}
use wic.Frame.{opcode_to_byte, byte_to_opcode, opcodes}
use wic.Receive.{
  accept_opcode, start_frame, has_flag, filter_opcode, is_cont, message_opcode, parse_opcode,
  parse_size, accept_size, check_size, size_switch, after_size, parse_extended_size, extend_size,
  next_size_state, set_rx,
}
use wic.Parse.{parse_round, parse_in_state, parse_payload}
use wic.Parse.Input.{Reading, stream_get_u8-Reading}
use wic.Parse.Header.{bytes_joined}
use wic.Parse.Load.{Loading}

-- The length of a payload of up to 65535 bytes, on the wire.
unfoldable pub plain_length : ℕ → List ℕ
plain_length n = if leb n 125 then n ∷ [] else 126 ∷ n / 256 ∷ (n % 256) ∷ []

-- A frame that is not masked.
unfoldable pub plain : Bool → Opcode → List ℕ → List ℕ
unfolding plain_length
plain fin o payload =
    ((if fin then 128 else 0) + opcode_to_byte o) ∷ (plain_length (length payload) ++ payload)

-- A frame takes two to four bytes more than its payload.
pub length-plain :
    (fin : Bool) (o : Opcode) (bytes : List ℕ)
    → (length bytes + 2 ≤ length (plain fin o bytes))
      × (length (plain fin o bytes) ≤ length bytes + 4)
unfolding plain plain_length
length-plain fin o bytes = elim (Bool-cases (leb (length bytes) 125)) [
  | inl short ↦ rw short (omega arith, omega arith)
  | inr long ↦ rw long (omega arith, omega arith)
]

-- The frame may come when the message under way has the opcode `frag`.
unfoldable pub admits : Opcode → Opcode → Bool → Bool
unfolding is_cont
admits Opcode.text frag fin = is_cont frag
admits Opcode.binary frag fin = is_cont frag
admits Opcode.cont frag fin = not (is_cont frag)
admits Opcode.close frag fin = fin
admits Opcode.ping frag fin = fin
admits Opcode.pong frag fin = fin
admits _ frag fin = false

-- The length that the opcode allows, with a receive buffer of `cap` bytes.
unfoldable pub allows : Opcode → ℕ → ℕ → Bool
allows Opcode.close cap n = leb n 125 && (leb 2 n && leb n cap)
allows Opcode.ping cap n = leb n 125 && leb n cap
allows Opcode.pong cap n = leb n 125 && leb n cap
allows _ cap n = true

-- The state of the text automaton at the first byte of the payload.
unfoldable pub first_utf8 : Opcode → ℕ → ℕ
first_utf8 Opcode.cont utf8_rx = utf8_rx
first_utf8 _ utf8_rx = 0

-- An open instance between two frames.
pub record Ready {W : Type 0} (s : Sys W) (cap : ℕ) : Type 0 where
  pub opened : s.self.state ≡ State.opened
  pub phase : s.self.rx.state ≡ RxState.opcode
  pub writable : s.self.rx.s.writable ≡ true
  pub capacity : s.self.rx.s.size ≡ cap
  pub held : cap ≤ length s.self.rx.s.mem
  pub small : cap < 4294967296

seven_table : every (λ n. (bit_and n 0x7f == n) && (bit_and n 0x80 == 0)) 128 ≡ true
unfolding every
seven_table = refl

-- A length byte of a frame that is not masked.
seven_bits : (n : ℕ) → n < 128 → (bit_and n 0x7f ≡ n) × (bit_and n 0x80 ≡ 0)
seven_bits n h =
    let both =
      every-elim (λ n. (bit_and n 0x7f == n) && (bit_and n 0x80 == 0)) n 128 h seven_table in
    ((==_iff _ _).0 (ground (arith, both)), (==_iff _ _).0 (ground (arith, both)))

module _ {W : Type 0} (app : App W) (undef : Stream → Bool) (cap : ℕ) where
  -- The frame when the first byte has been read.
  abbrev pub taken : Bool → Opcode → Sys W → Sys W
  taken fin o s = set_rx app s (record (s.self.rx) {
    s = stream_rewind s.self.rx.s;
    fin = fin;
    rsv1 = false;
    rsv2 = false;
    rsv3 = false;
    utf8 = first_utf8 o s.self.utf8_rx;
    opcode = o;
    state = RxState.size;
  })

  accept_opcode_plain :
      (fin : Bool) (o : Opcode) (s : Sys W)
      → admits o s.self.rx.frag fin ≡ true
      → accept_opcode app ((if fin then 128 else 0) + opcode_to_byte o) s ≡ taken fin o s
  unfolding accept_opcode filter_opcode is_cont byte_to_opcode opcodes start_frame has_flag
      stream_rewind opcode_to_byte admits first_utf8
  accept_opcode_plain true Opcode.cont s h = ground (arith, h)
  accept_opcode_plain false Opcode.cont s h = ground (arith, h)
  accept_opcode_plain true Opcode.text s h = ground (arith, h)
  accept_opcode_plain false Opcode.text s h = ground (arith, h)
  accept_opcode_plain true Opcode.binary s h = ground (arith, h)
  accept_opcode_plain false Opcode.binary s h = ground (arith, h)
  accept_opcode_plain true Opcode.close s h = refl
  accept_opcode_plain true Opcode.ping s h = refl
  accept_opcode_plain true Opcode.pong s h = refl
  accept_opcode_plain false Opcode.close s h = cc
  accept_opcode_plain false Opcode.ping s h = cc
  accept_opcode_plain false Opcode.pong s h = cc
  accept_opcode_plain fin _ s h = cc

  pub parse_round-taken :
      (fin : Bool) (o : Opcode) (s : Sys W) (st : Stream) (bytes : List ℕ)
      → Ready s cap
      → admits o s.self.rx.frag fin ≡ true
      → Reading st (((if fin then 128 else 0) + opcode_to_byte o) ∷ bytes)
      → parse_round app undef s st ≡ (false, taken fin o s, record st { pos = st.pos + 1 })
  unfolding parse_round parse_in_state parse_payload parse_opcode
  parse_round-taken fin o s st bytes w h r =
      ground (arith, w.phase, accept_opcode_plain fin o s h, (stream_get_u8-Reading st _ bytes r).0)

  -- The frame when a length byte has been read.
  abbrev pub measured : ℕ → RxState → Sys W → Sys W
  measured n state s = set_rx app s (record (s.self.rx) { masked = false; size = n; state = state })

  check_size_plain :
      (o : Opcode) (n : ℕ) (s : Sys W)
      → s.self.rx.s.size ≡ cap
      → allows o cap n ≡ true
      → check_size app o n s ≡ s
  unfolding check_size allows stream_max
  check_size_plain Opcode.close n s e h = ground (arith, e, h)
  check_size_plain Opcode.ping n s e h = ground (arith, e, h)
  check_size_plain Opcode.pong n s e h = ground (arith, e, h)
  check_size_plain _ n s e h = refl

  pub accept_size_short :
      (o : Opcode) (n : ℕ) (s : Sys W)
      → s.self.rx.opcode ≡ o
      → s.self.rx.s.size ≡ cap
      → n < 126
      → allows o cap n ≡ true
      → accept_size app n s ≡ measured n RxState.payload s
  unfolding accept_size has_flag size_switch after_size
  accept_size_short o n s e c lt h =
      let bits = seven_bits n (omega arith) in
      let s1 = set_rx app s (record (s.self.rx) { masked = false; size = n }) in
      ground (arith, bits, check_size_plain s.self.rx.opcode n s1 c (rw e h))

  pub accept_size_long :
      (o : Opcode) (n : ℕ) (s : Sys W)
      → s.self.rx.opcode ≡ o
      → 125 < n
      → allows o cap n ≡ true
      → accept_size app 126 s ≡ measured 0 RxState.size_0 s
  unfolding accept_size has_flag size_switch after_size check_size allows
  accept_size_long Opcode.close n s e lt h = absurd (ground (arith, h))
  accept_size_long Opcode.ping n s e lt h = absurd (ground (arith, h))
  accept_size_long Opcode.pong n s e lt h = absurd (ground (arith, h))
  accept_size_long _ n s e lt h = rw e refl

  -- The length, and the first byte of the payload in the same round.
  pub parse_round_short :
      (n : ℕ) (s : Sys W) (st : Stream) (bytes : List ℕ)
      → s.self.rx.state ≡ RxState.size
      → accept_size app n s ≡ measured n RxState.payload s
      → Reading st (n ∷ bytes)
      → parse_round app undef s st
        ≡ parse_round app undef (measured n RxState.payload s) (record st { pos = st.pos + 1 })
  unfolding parse_round parse_in_state parse_payload parse_size
  parse_round_short n s st bytes e taken r =
      ground (arith, e, taken, (stream_get_u8-Reading st n bytes r).0)

  pub parse_round_long :
      (s : Sys W) (st : Stream) (bytes : List ℕ)
      → s.self.rx.state ≡ RxState.size
      → accept_size app 126 s ≡ measured 0 RxState.size_0 s
      → Reading st (126 ∷ bytes)
      → parse_round app undef s st
        ≡ (false, measured 0 RxState.size_0 s, record st { pos = st.pos + 1 })
  unfolding parse_round parse_in_state parse_payload parse_size
  parse_round_long s st bytes e taken r =
      ground (arith, e, taken, (stream_get_u8-Reading st 126 bytes r).0)

  pub parse_round_last_length :
      (a b : ℕ) (s : Sys W) (st : Stream) (bytes : List ℕ)
      → s.self.rx.state ≡ RxState.size_1
      → s.self.rx.size ≡ a
      → s.self.rx.masked ≡ false
      → a < 256
      → b < 256
      → Reading st (b ∷ bytes)
      → parse_round app undef s st
        ≡ parse_round app undef
            (set_rx app s (record (s.self.rx) { size = a * 256 + b; state = RxState.payload }))
            (record st { pos = st.pos + 1 })
  unfolding parse_round parse_in_state parse_payload parse_extended_size extend_size next_size_state
      after_size
  parse_round_last_length a b s st bytes e z m ha hb r =
      ground (arith, e, z, m, bytes_joined a b ha hb, (stream_get_u8-Reading st b bytes r).0)

  -- The frame when the length has been read, and the payload is next.
  abbrev pub headed : Bool → Opcode → ℕ → Sys W → Sys W
  headed fin o n s = measured n RxState.payload (taken fin o s)

  pub headed-Loading :
      (fin : Bool) (o : Opcode) (n : ℕ) (s : Sys W)
      → Ready s cap
      → Loading
          (headed fin o n s).self.rx
          (message_opcode o s.self.rx.frag)
          cap
          []
          n
          (first_utf8 o s.self.utf8_rx)
  unfolding stream_rewind written
  headed-Loading fin o n s w = record {
    phase = refl;
    unmasked = refl;
    kind = refl;
    buffer = record {
      writable = w.writable;
      clean = refl;
      capacity = w.capacity;
      held = w.held;
      small = w.small;
      at = refl;
      content = refl;
    };
    size = refl;
    utf8 = refl;
  }
