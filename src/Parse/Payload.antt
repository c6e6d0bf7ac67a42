-- ===== src/Parse/Payload.antt =====
-- The payload of a frame that is not masked through the loop of `wic_parse`.
use wic.Base.{
  ℕ, zero, suc, ◌+◌, ◌-◌, ◌≤◌, ◌<◌, ◌≡◌, refl, ◌∙◌, Bool, true, false, not, ◌||◌, Option, some,
  List, [], ◌∷◌, ◌++◌, arith, if◌then◌else◌, length, append_assoc, append-nil, length-append, ltb,
}
use wic.Types.{Opcode, RxState, State}
use wic.Stream.{Stream, stream_put_u8, stream_eof, stream_pos}
use wic.Inst.{Sys, App, RxFrame}
use wic.Send.{is_opened}
use wic.Frame.Layout.{AllBytes, put_u8-Holds}
use wic.Receive.{set_rx}
use wic.Receive.Data.{parse_data, receive_data, accept_data, check_byte, check_text, finish_data}
use wic.Parse.{parse_loop}
use wic.Parse.Input.{Reading, stream_get_u8-Reading, parse_round_lem}
use wic.Parse.Load.{
  next_utf8, fails, passes, final_utf8, Loading, SameHeader, loaded_byte, loaded_byte-Loading,
  store_byte_plain,
}

module _ {W : Type 0} (app : App W) (undef : Stream → Bool) where
  check_byte_lem :
      (o : Opcode) (b : ℕ) (s : Sys W)
      → fails o s.self.rx.s.pos s.self.rx.utf8 b ≡ false
      → check_byte app o b s
        ≡ set_rx app s (record (s.self.rx) { utf8 = next_utf8 o s.self.rx.s.pos s.self.rx.utf8 b })
  unfolding check_byte check_text fails next_utf8 stream_pos
  check_byte_lem Opcode.text b s h = ground (arith, h)
  check_byte_lem Opcode.close b s h = ground (arith, h)
  check_byte_lem _ b s h = refl

  accept_data_lem :
      (o : Opcode) (cap b n u : ℕ) (out : List ℕ) (s : Sys W)
      → Loading s.self.rx o cap out n u
      → b < 256
      → length out + 1 ≤ cap
      → fails o (length out + 1) u b ≡ false
      → accept_data app b s ≡ set_rx app s (loaded_byte o (length out + 1) b s.self.rx)
  unfolding accept_data
  accept_data_lem o cap b n u out s l small fits h =
      let at : (stream_put_u8 s.self.rx.s b).1.pos ≡ length out + 1 =
        (put_u8-Holds cap out b b l.buffer (omega (arith, small)) fits).at
        ∙ length-append out (b ∷ []) in
      let s1 =
        set_rx app s
          (record (s.self.rx) { size = s.self.rx.size - 1; s = (stream_put_u8 s.self.rx.s b).1 }) in
      let passed : fails o s1.self.rx.s.pos s1.self.rx.utf8 b ≡ false = rw (at, l.utf8) h in
      let step = check_byte_lem o b s1 passed in
      rw (store_byte_plain b s.self.rx l.unmasked, l.kind) (rw at at step)

  receive_data_plain :
      (o : Opcode) (cap b n u : ℕ) (out bytes : List ℕ) (s : Sys W) (st : Stream)
      → Loading s.self.rx o cap out n u
      → Reading st (b ∷ bytes)
      → b < 256
      → length out + 1 ≤ cap
      → fails o (length out + 1) u b ≡ false
      → receive_data app s st ≡ (
        false,
        set_rx app s (loaded_byte o (length out + 1) b s.self.rx),
        record st { pos = st.pos + 1 },
      )
  unfolding receive_data stream_eof
  receive_data_plain o cap b n u out bytes s st l r small fits h = ground (
    arith,
    (stream_get_u8-Reading st b bytes r).0,
    l.buffer.at,
    l.buffer.capacity,
    accept_data_lem o cap b n u out s l small fits h,
  )

  -- The loop behind a round.
  unfoldable pub continue : ℕ → Bool × Sys W → Stream → Option (Sys W × Stream)
  continue fuel (b, s) st =
      let rest = parse_loop app undef fuel s st in
      if b || not (is_opened s.self.state) then some (s, st) else rest

  parse_loop_data :
      (fuel : ℕ) (s s' : Sys W) (st st' : Stream)
      → s.self.rx.state ≡ RxState.payload
      → (if ltb 0 s.self.rx.size then receive_data app s st else (false, s, st)) ≡ (false, s', st')
      → parse_loop app undef (suc fuel) s st ≡ continue fuel (finish_data app false s') st'
  unfolding parse_loop parse_data continue
  parse_loop_data fuel s s' st st' phase e = rw (parse_round_lem app undef s st phase, e) refl

  parse_loop_byte :
      (fuel n : ℕ) (s s' : Sys W) (st st' : Stream)
      → s.self.rx.state ≡ RxState.payload
      → s.self.rx.size ≡ suc n
      → receive_data app s st ≡ (false, s', st')
      → parse_loop app undef (suc fuel) s st ≡ continue fuel (finish_data app false s') st'
  parse_loop_byte fuel n s s' st st' phase size e =
      parse_loop_data fuel s s' st st' phase (ground (arith, e, size))

  pub continue_next :
      (k : ℕ) (x : Bool × Sys W) (s : Sys W) (st : Stream)
      → x ≡ (false, s)
      → s.self.state ≡ State.opened
      → continue k x st ≡ parse_loop app undef k s st
  unfolding continue is_opened
  continue_next k x s st e o = rw e (ground (arith, o))

  finish_data_plain :
      (o : Opcode) (cap n u : ℕ) (out : List ℕ) (s : Sys W)
      → Loading s.self.rx o cap out (suc n) u
      → finish_data app false s ≡ (false, s)
  unfolding finish_data
  finish_data_plain o cap n u out s l = ground (arith, l.size)

  -- Of the input of `st`, what is left at `st'` is `rest`.
  abbrev pub ReadUpTo : Stream → Stream → List ℕ → Type 0
  ReadUpTo st st' rest = Reading st' rest × (st'.size ≡ st.size)

  -- The loop has read the payload of a frame, which is about to be finished.
  abbrev pub Loaded : Opcode → ℕ → List ℕ → ℕ → ℕ → ℕ → Sys W → Stream → List ℕ → Type 0
  Loaded o cap out n u fuel s st rest =
      (rx : RxFrame) × (st' : Stream) × (k : ℕ) × (parse_loop app undef fuel s st
        ≡ continue k (finish_data app false (set_rx app s rx)) st')
      × Loading rx o cap out 0 u
      × SameHeader s.self.rx rx
      × ReadUpTo st st' rest
      × (fuel ≤ suc k + n)

  pub parse_loop_load :
      (o : Opcode) (cap u fuel : ℕ) (out bytes rest : List ℕ) (s : Sys W) (st : Stream)
      → s.self.state ≡ State.opened
      → Loading s.self.rx o cap out (length bytes) u
      → Reading st (bytes ++ rest)
      → AllBytes bytes
      → passes o (length out) u bytes ≡ true
      → length out + length bytes ≤ cap
      → length bytes ≤ suc fuel
      → Loaded o cap
          (out ++ bytes)
          (length bytes)
          (final_utf8 o (length out) u bytes)
          (suc fuel)
          s
          st
          rest
  unfolding passes final_utf8
  parse_loop_load o cap u fuel out [] rest s st opened l r hb ok fits enough = (
    s.self.rx,
    st,
    fuel,
    parse_loop_data fuel s s st st l.phase (rw l.size refl),
    rw append-nil l,
    (refl, refl, refl, refl),
    (r, refl),
    omega arith,
  )
  parse_loop_load o cap u fuel out (b ∷ []) rest s st opened l r hb ok fits enough =
      let passed : fails o (length out + 1) u b ≡ false = ground (arith, ok) in
      let byte = receive_data_plain o cap b 1 u out rest s st l r hb.0 (omega arith) passed in
      let s1 = set_rx app s (loaded_byte o (length out + 1) b s.self.rx) in
      (
        s1.self.rx,
        record st { pos = st.pos + 1 },
        fuel,
        parse_loop_byte fuel 0 s s1 st (record st { pos = st.pos + 1 }) l.phase l.size byte,
        loaded_byte-Loading o cap b 0 u out s.self.rx l hb.0 (omega arith),
        (refl, refl, refl, refl),
        ((stream_get_u8-Reading st b rest r).1, refl),
        omega arith,
      )
  parse_loop_load o cap u zero out (b ∷ c ∷ bytes) rest s st opened l r hb ok fits enough =
      absurd (omega arith)
  parse_loop_load o cap u (suc fuel) out (b ∷ c ∷ bytes) rest s st opened l r hb ok fits enough =
      let passed : fails o (length out + 1) u b ≡ false = ground (arith, ok) in
      let n = length bytes in
      let byte =
        receive_data_plain o cap b (suc (suc n)) u out (c ∷ bytes ++ rest) s st l r hb.0
          (omega arith) passed in
      let s1 = set_rx app s (loaded_byte o (length out + 1) b s.self.rx) in
      let next = record st { pos = st.pos + 1 } in
      let u1 = next_utf8 o (length out + 1) u b in
      let l1 = loaded_byte-Loading o cap b (suc n) u out s.self.rx l hb.0 (omega arith) in
      let len : length (out ++ b ∷ []) ≡ length out + 1 = length-append out (b ∷ []) in
      let round = parse_loop_byte (suc fuel) (suc n) s s1 st next l.phase l.size byte in
      let go =
        continue_next (suc fuel) (finish_data app false s1) s1 next
          (finish_data_plain o cap n u1 (out ++ b ∷ []) s1 l1) opened in
      let tail =
        parse_loop_load o cap u1 fuel (out ++ b ∷ []) (c ∷ bytes) rest s1 next opened l1
          (stream_get_u8-Reading st b (c ∷ bytes ++ rest) r).1 hb.1 (rw len (ground (arith, ok)))
          (omega (arith, len)) (omega arith) in
      let further = rw (append_assoc, len) at tail in
      (
        further.0,
        further.1,
        further.2,
        round ∙ go ∙ further.3,
        further.4,
        further.5,
        further.6,
        omega (arith, further.7),
      )
