-- ===== src/Parse/Single.antt =====
-- One frame that is not masked, alone in the input of `wic_parse`.
use wic.Base.{
  ℕ, suc, ◌-◌, ◌*◌, ◌≤◌, ◌<◌, ◌≡◌, refl, ap, ◌∙◌, Bool, true, false, some, List, [], arith, length,
  append-nil, Bool-cases, inl, inr,
}
use wic.Types.{Opcode, RxState, State}
use wic.Stream.{Stream, stream_init_ro, stream_pos, stream_get_u8}
use wic.Inst.{Sys, App, RxFrame}
use wic.Http.{HttpParser}
use wic.Frame.Layout.{AllBytes}
use wic.Send.{is_opened}
use wic.Receive.{message_opcode, set_rx}
use wic.Receive.Data.{finish_data}
use wic.Parse.{parse_loop, parse_fuel, is_parsing, wic_parse}
use wic.Parse.Input.{Reading, stream_get_u8_over, stream_init_ro-Reading, parse_loop_over}
use wic.Parse.Load.{Loading, passes, final_utf8}
use wic.Parse.Payload.{continue}
use wic.Parse.Plain.{Ready, plain, admits, allows, first_utf8, length-plain}
use wic.Parse.Unmasked.{parse_loop-plain}

module _ {W : Type 0} (app : App W) (undef : Stream → Bool) (http : HttpParser) (cap : ℕ) where
  -- The rest of the loop when the frame is finished.
  continue_over :
      (k : ℕ) (x : Bool × Sys W) (s : Sys W) (st : Stream)
      → x ≡ (false, s)
      → s.self.rx.state ≡ RxState.opcode
      → Reading st []
      → (st' : Stream) × (continue app undef (suc k) x st ≡ some (s, st')) × (st'.pos ≡ st.size)
  unfolding continue is_opened
  continue_over k x s st e phase r = elim (Bool-cases (is_opened s.self.state)) [
    | inl open_state ↦ (
      (stream_get_u8 st).2,
      rw (e, open_state) (parse_loop_over app undef k s st phase r),
      (stream_get_u8_over st r).1,
    )
    | inr other ↦ (st, rw (e, other) refl, omega (arith, r.ends))
  ]

  -- Of an open instance `wic_parse` is the loop.
  pub wic_parse_run :
      (bytes : List ℕ) (s s' : Sys W) (st' : Stream)
      → s.self.state ≡ State.opened
      → length bytes < 4294967296
      → parse_loop app undef (parse_fuel (length bytes)) s (stream_init_ro bytes (length bytes))
        ≡ some (s', st')
      → st'.pos ≡ length bytes
      → wic_parse app undef http bytes s ≡ some (length bytes, s')
  unfolding wic_parse is_parsing is_opened stream_pos
  wic_parse_run bytes s s' st' o few run at = ground (arith, run, at, o)

  -- The instance awaits the next frame.
  pub resumed-Ready :
      (o : Opcode) (u : ℕ) (frag : Opcode) (payload : List ℕ) (rx : RxFrame) (s : Sys W)
      → s.self.state ≡ State.opened
      → Loading rx o cap payload 0 u
      → s.self.rx ≡ rx
      → Ready (set_rx app s (record (s.self.rx) { frag = frag; state = RxState.opcode })) cap
  resumed-Ready o u frag payload rx s opened l same = record {
    opened = opened;
    phase = refl;
    writable = ap (λ (r : RxFrame). r.s.writable) same ∙ l.buffer.writable;
    capacity = ap (λ (r : RxFrame). r.s.size) same ∙ l.buffer.capacity;
    held = omega (arith, ap (λ (r : RxFrame). length r.s.mem) same, l.buffer.held);
    small = l.buffer.small;
  }

  -- The frame is consumed, and what happens is what `finish_data` does with it.
  pub wic_parse-plain :
      (fin : Bool) (o : Opcode) (payload : List ℕ) (s : Sys W)
      → Ready s cap
      → admits o s.self.rx.frag fin ≡ true
      → allows o cap (length payload) ≡ true
      → length payload < 65536
      → length payload ≤ cap
      → AllBytes payload
      → passes (message_opcode o s.self.rx.frag) 0 (first_utf8 o s.self.utf8_rx) payload ≡ true
      → let kind = message_opcode o s.self.rx.frag in
        let bytes = plain fin o payload in
        (rx : RxFrame) × Loading rx kind cap payload 0
          (final_utf8 kind 0 (first_utf8 o s.self.utf8_rx) payload)
        × ((rx.fin ≡ fin) × (rx.frag ≡ s.self.rx.frag))
        × ((s' : Sys W)
            → finish_data app false (set_rx app s rx) ≡ (false, s')
            → s'.self.rx.state ≡ RxState.opcode
            → wic_parse app undef http bytes s ≡ some (length bytes, s'))
  wic_parse-plain fin o payload s w ok fits lt room hb text =
      let bytes = plain fin o payload in
      let few : length bytes < 4294967296 = omega (arith, length-plain fin o payload) in
      let st = stream_init_ro bytes (length bytes) in
      let reading = stream_init_ro-Reading bytes few in
      let (rx, st', k, run, l, same, (r, size), more) =
        parse_loop-plain app undef cap fin o payload [] (2 * length bytes) s st w ok fits lt room hb
          text (rw append-nil reading) (omega (arith, length-plain fin o payload)) in
      let all : st.size ≡ length bytes = unfold stream_init_ro in omega (arith, few) in
      let least = length-plain fin o payload in
      let fuel : parse_fuel (length bytes) ≡ suc (suc (suc (suc (2 * length bytes)))) =
        omega arith in
      let positive : k ≡ suc (k - 1) = omega (arith, more, least) in
      (
        rx,
        l,
        same,
        λ s' done phase.
            let (st'', over, at) =
              continue_over (k - 1) (finish_data app false (set_rx app s rx)) s' st' done phase r in
            wic_parse_run bytes s s' st'' w.opened few
              (ap (λ (n : ℕ). parse_loop app undef n s st) fuel
                ∙ run
                ∙ ap (λ (n : ℕ). continue app undef n (finish_data app false (set_rx app s rx)) st')
                    positive
                ∙ over)
              (at ∙ size ∙ all),
      )
