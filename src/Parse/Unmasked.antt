-- ===== src/Parse/Unmasked.antt =====
-- Any frame that is not masked through the loop of `wic_parse` up to the end of its payload.
use wic.Base.{
  ℕ, suc, ◌+◌, ◌*◌, ◌/◌, ◌%◌, ◌≤◌, ◌<◌, ◌≡◌, refl, ◌∙◌, Bool, true, false, List, [], ◌∷◌, ◌++◌,
  arith, if◌then◌else◌, length, append_assoc, leb, Bool-cases, inl, inr,
}
use wic.Types.{Opcode, RxState}
use wic.Stream.{Stream, stream_rewind}
use wic.Inst.{Sys, App, RxFrame}
use wic.Frame.{opcode_to_byte}
use wic.Frame.Layout.{AllBytes}
use wic.Receive.{message_opcode, set_rx}
use wic.Receive.Data.{finish_data}
use wic.Parse.{parse_loop}
use wic.Parse.Input.{Reading, stream_get_u8-Reading, parse_loop_next}
use wic.Parse.Header.{parse_round_extended_0, parse_loop_same}
use wic.Parse.Load.{Loading, passes, final_utf8}
use wic.Parse.Payload.{continue, parse_loop_load, ReadUpTo}
use wic.Parse.Plain.{
  plain_length, plain, admits, allows, first_utf8, Ready, taken, measured, headed, headed-Loading,
  parse_round-taken, accept_size_short, accept_size_long, parse_round_short, parse_round_long,
  parse_round_last_length,
}

module _ {W : Type 0} (app : App W) (undef : Stream → Bool) (cap : ℕ) where
  abbrev next : Stream → Stream
  next st = record st { pos = st.pos + 1 }

  -- The header takes up to four bytes and three rounds.
  parse_loop-headed :
      (fin : Bool) (o : Opcode) (n fuel : ℕ) (s : Sys W) (st : Stream) (bytes : List ℕ)
      → Ready s cap
      → admits o s.self.rx.frag fin ≡ true
      → allows o cap n ≡ true
      → n < 65536
      → Reading st (((if fin then 128 else 0) + opcode_to_byte o) ∷ (plain_length n ++ bytes))
      → (st' : Stream) × (k : ℕ) × (parse_loop app undef (suc (suc (suc (suc fuel)))) s st
          ≡ parse_loop app undef (suc k) (headed app undef cap fin o n s) st')
        × ReadUpTo app undef st st' bytes
        × (fuel ≤ k)
        × (k ≤ fuel + 2)
  unfolding plain_length stream_rewind
  parse_loop-headed fin o n fuel s st bytes w ok fits lt r =
      let s1 = taken app undef cap fin o s in
      let r1 = (stream_get_u8-Reading st _ _ r).1 in
      let begin = λ (k : ℕ).
        parse_loop_next app undef k s st s1 (next st)
          (parse_round-taken app undef cap fin o s st _ w ok r) w.opened in
      elim (Bool-cases (leb n 125)) [
        | inl short ↦
            let r2 = rw short at r1 in
            let size =
              accept_size_short app undef cap o n s1 refl w.capacity (ground (arith, short)) fits in
            (
              next (next st),
              suc (suc fuel),
              begin (suc (suc (suc fuel)))
                  ∙ parse_loop_same app undef cap (suc (suc fuel)) s1 (next st)
                      (headed app undef cap fin o n s) (next (next st))
                      (parse_round_short app undef cap n s1 (next st) bytes refl size r2),
              ((stream_get_u8-Reading (next st) n bytes r2).1, refl),
              omega arith,
              omega arith,
            )
        | inr long ↦
            let r2 = rw long at r1 in
            let size = accept_size_long app undef cap o n s1 refl (ground (arith, long)) fits in
            let r3 = (stream_get_u8-Reading (next st) 126 _ r2).1 in
            let r4 = (stream_get_u8-Reading (next (next st)) (n / 256) _ r3).1 in
            let r5 = (stream_get_u8-Reading (next (next (next st))) (n % 256) bytes r4).1 in
            let s2 = measured app undef cap 0 RxState.size_0 s1 in
            let s3 =
              set_rx app s2 (record (s2.self.rx) { size = n / 256; state = RxState.size_1 }) in
            let sum : n / 256 * 256 + n % 256 ≡ n = omega arith in
            let last =
              parse_round_last_length app undef cap (n / 256) (n % 256) s3 (next (next (next st)))
                bytes refl refl refl (omega arith) (omega arith) r4 in
            (
              next (next (next (next st))),
              fuel,
              begin (suc (suc (suc fuel)))
                  ∙ parse_loop_next app undef (suc (suc fuel)) s1 (next st) s2 (next (next st))
                      (parse_round_long app undef cap s1 (next st) _ refl size r2) w.opened
                  ∙ parse_loop_next app undef (suc fuel) s2 (next (next st)) s3
                      (next (next (next st)))
                      (parse_round_extended_0 app undef cap (n / 256) s2 (next (next st)) _ refl
                        refl (omega arith) r3)
                      w.opened
                  ∙ parse_loop_same app undef cap fuel s3 (next (next (next st)))
                      (headed app undef cap fin o n s) (next (next (next (next st))))
                      (rw sum at last),
              (r5, refl),
              omega arith,
              omega arith,
            )
      ]

  -- The loop has read a frame up to the end of its payload, and is about to finish it.
  pub parse_loop-plain :
      (fin : Bool) (o : Opcode) (payload rest : List ℕ) (fuel : ℕ) (s : Sys W) (st : Stream)
      → Ready s cap
      → admits o s.self.rx.frag fin ≡ true
      → allows o cap (length payload) ≡ true
      → length payload < 65536
      → length payload ≤ cap
      → AllBytes payload
      → passes (message_opcode o s.self.rx.frag) 0 (first_utf8 o s.self.utf8_rx) payload ≡ true
      → Reading st (plain fin o payload ++ rest)
      → length payload ≤ suc fuel
      → let kind = message_opcode o s.self.rx.frag in
        (rx : RxFrame) × (st' : Stream) × (k : ℕ) × (parse_loop app undef
            (suc (suc (suc (suc fuel))))
            s
            st
          ≡ continue app undef k (finish_data app false (set_rx app s rx)) st')
        × Loading rx kind cap payload 0 (final_utf8 kind 0 (first_utf8 o s.self.utf8_rx) payload)
        × ((rx.fin ≡ fin) × (rx.frag ≡ s.self.rx.frag))
        × ReadUpTo app undef st st' rest
        × (fuel ≤ k + length payload)
  unfolding plain
  parse_loop-plain fin o payload rest fuel s st w ok fits lt room hb text r enough =
      let (st1, k1, e1, (r1, same1), lo, hi) =
        parse_loop-headed fin o (length payload) fuel s st (payload ++ rest) w ok fits lt
          (rw append_assoc at r) in
      let (rx, st2, k2, e2, l, same, (r2, same2), more) =
        parse_loop_load app undef (message_opcode o s.self.rx.frag) cap
          (first_utf8 o s.self.utf8_rx) k1 [] payload rest
          (headed app undef cap fin o (length payload) s) st1 w.opened
          (headed-Loading app undef cap fin o (length payload) s w) r1 hb text (omega arith)
          (omega arith) in
      (rx, st2, k2, e1 ∙ e2, l, (same.2, same.1), (r2, same2 ∙ same1), omega (arith, more, lo))
