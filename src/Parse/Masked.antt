-- ===== src/Parse/Masked.antt =====
-- The steps of `wic_parse` through the header, the mask and the payload of a masked frame.
use wic.Base.{
  ℕ, suc, ◌+◌, ◌*◌, ◌≤◌, ◌<◌, ◌≡◌, refl, ap, ◌∙◌, Bool, true, false, some, List, [], ◌∷◌, arith,
  length, get_or, set, if◌then◌else◌,
}
use wic.Types.{Encoding, RxState, State}
use wic.Stream.{Stream}
use wic.Inst.{Sys, App, message}
use wic.Frame.Layout.{AllBytes, xor_mask}
use wic.Parse.{parse_loop}
use wic.Receive.{set_rx}
use wic.Parse.Progress.{is_payload}
use wic.Parse.Input.{Reading, stream_get_u8-Reading, parse_loop_next}
use wic.Parse.Deliver.{Delivering, Takes, after, after_lem, parse_loop_payload}
use wic.Parse.Header.{
  Awaiting, Started, opcode_read, size_read, mask_read, parse_round_opcode, accept_size_short,
  accept_size_long, parse_round_size, parse_round_extended_0, parse_round_extended_1,
  parse_round_mask_0, parse_round_mask_1, parse_round_mask_2, parse_round_mask_3, parse_loop_same,
}

set_four :
    (xs : List ℕ) (a b c d : ℕ)
    → length xs ≡ 4
    → set (set (set (set xs 0 a) 1 b) 2 c) 3 d ≡ a ∷ b ∷ c ∷ d ∷ []
set_four [] a b c d h = absurd (omega arith)
set_four (x ∷ []) a b c d h = absurd (omega arith)
set_four (x ∷ y ∷ []) a b c d h = absurd (omega arith)
set_four (x ∷ y ∷ z ∷ []) a b c d h = absurd (omega arith)
set_four (x ∷ y ∷ z ∷ w ∷ []) a b c d h = refl
set_four (x ∷ y ∷ z ∷ w ∷ v ∷ xs) a b c d h = absurd (omega arith)

abbrev pub next : Stream → Stream
next st = record st { pos = st.pos + 1 }

-- The length is known, and the mask is next.
pub record Sized {W : Type 0} (s : Sys W) (cap : ℕ) (fin : Bool) (n : ℕ) : Type 0 where
  started : Started s cap fin
  phase : s.self.rx.state ≡ RxState.mask_0
  masked : s.self.rx.masked ≡ true
  size : s.self.rx.size ≡ n

module _ {W : Type 0} (app : App W) (undef : Stream → Bool) (cap : ℕ) (fin : Bool)
    (never : (st : Stream) → undef st ≡ false) where
  -- The system when the mask has been read.
  abbrev mask_done : ℕ → ℕ → ℕ → ℕ → Sys W → Sys W
  mask_done a b c d s = mask_read app undef cap 3 d RxState.payload (
      mask_read app undef cap 2 c RxState.mask_3
        (mask_read app undef cap 1 b RxState.mask_2 (mask_read app undef cap 0 a RxState.mask_1 s)))

  mask_done-Delivering :
      (a b c d n : ℕ) (s : Sys W)
      → Sized s cap fin n
      → Delivering (mask_done a b c d s) (a ∷ b ∷ c ∷ d ∷ []) cap [] n
  mask_done-Delivering a b c d n s z = record {
    opened = z.started.opened;
    phase = refl;
    binary = z.started.binary;
    handler = z.started.handler;
    receiving = record {
      masked = z.masked;
      same_mask = set_four s.self.rx.mask a b c d z.started.mask_size;
      buffer = z.started.buffer;
    };
    size = z.size;
  }

  parse_loop_mask :
      (a b c d n fuel : ℕ) (s : Sys W) (st : Stream) (bytes : List ℕ)
      → Sized s cap fin n
      → Reading st (a ∷ b ∷ c ∷ d ∷ bytes)
      → (parse_loop app undef (suc (suc (suc (suc fuel)))) s st
          ≡ parse_loop app undef (suc fuel) (mask_done a b c d s) (next (next (next (next st)))))
        × Reading (next (next (next (next st)))) bytes
  parse_loop_mask a b c d n fuel s st bytes z r =
      let r1 = (stream_get_u8-Reading st a (b ∷ c ∷ d ∷ bytes) r).1 in
      let r2 = (stream_get_u8-Reading (next st) b (c ∷ d ∷ bytes) r1).1 in
      let r3 = (stream_get_u8-Reading (next (next st)) c (d ∷ bytes) r2).1 in
      let r4 = (stream_get_u8-Reading (next (next (next st))) d bytes r3).1 in
      let s1 = mask_read app undef cap 0 a RxState.mask_1 s in
      let s2 = mask_read app undef cap 1 b RxState.mask_2 s1 in
      let s3 = mask_read app undef cap 2 c RxState.mask_3 s2 in
      let e0 = parse_round_mask_0 app undef cap a s st (b ∷ c ∷ d ∷ bytes) z.phase (never _) r in
      let e1 = parse_round_mask_1 app undef cap b s1 (next st) (c ∷ d ∷ bytes) refl (never _) r1 in
      let e2 =
        parse_round_mask_2 app undef cap c s2 (next (next st)) (d ∷ bytes) refl (never _) r2 in
      let e3 =
        parse_round_mask_3 app undef cap d s3 (next (next (next st))) bytes refl (never _) r3 in
      let o = z.started.opened in
      (
        parse_loop_next app undef (suc (suc (suc fuel))) s st s1 (next st) e0 o
            ∙ parse_loop_next app undef (suc (suc fuel)) s1 (next st) s2 (next (next st)) e1 o
            ∙ parse_loop_next app undef (suc fuel) s2 (next (next st)) s3 (next (next (next st))) e2
                o
            ∙ parse_loop_same app undef cap fuel s3 (next (next (next st))) (mask_done a b c d s)
                (next (next (next (next st)))) e3,
        r4,
      )

  -- A length up to 125.
  abbrev pub short_done : ℕ → Sys W → Sys W
  short_done n s = size_read app undef cap n RxState.mask_0 s

  pub parse_loop_short :
      (n fuel : ℕ) (s : Sys W) (st : Stream) (bytes : List ℕ)
      → Started s cap fin
      → s.self.rx.state ≡ RxState.size
      → n < 126
      → Reading st ((128 + n) ∷ bytes)
      → (parse_loop app undef (suc fuel) s st
          ≡ parse_loop app undef fuel (short_done n s) (next st))
        × Reading (next st) bytes
        × Sized (short_done n s) cap fin n
  parse_loop_short n fuel s st bytes b phase h r =
      let e = accept_size_short app undef cap fin n s b h in
      let round =
        parse_round_size app undef cap (128 + n) s st bytes phase (rw e (unfold is_payload in refl))
          r in
      (
        parse_loop_next app undef fuel s st (short_done n s) (next st) (rw e at round) b.opened,
        (stream_get_u8-Reading st (128 + n) bytes r).1,
        record {
          started = record {
            opened = b.opened;
            binary = b.binary;
            last = b.last;
            handler = b.handler;
            buffer = b.buffer;
            mask_size = b.mask_size;
          };
          phase = refl;
          masked = refl;
          size = refl;
        },
      )

  -- A length of two bytes.
  abbrev pub long_done : ℕ → ℕ → Sys W → Sys W
  long_done a b s =
      let s1 = size_read app undef cap 0 RxState.size_0 s in
      let s2 = set_rx app s1 (record (s1.self.rx) { size = a; state = RxState.size_1 }) in
      set_rx app s2 (record (s2.self.rx) { size = a * 256 + b; state = RxState.mask_0 })

  pub parse_loop_long :
      (a b n fuel : ℕ) (s : Sys W) (st : Stream) (bytes : List ℕ)
      → Started s cap fin
      → s.self.rx.state ≡ RxState.size
      → a < 256
      → b < 256
      → a * 256 + b ≡ n
      → Reading st (254 ∷ a ∷ b ∷ bytes)
      → (parse_loop app undef (suc (suc (suc fuel))) s st
          ≡ parse_loop app undef fuel (long_done a b s) (next (next (next st))))
        × Reading (next (next (next st))) bytes
        × Sized (long_done a b s) cap fin n
  parse_loop_long a b n fuel s st bytes g phase ha hb sum r =
      let e = accept_size_long app undef cap fin s g in
      let r1 = (stream_get_u8-Reading st 254 (a ∷ b ∷ bytes) r).1 in
      let r2 = (stream_get_u8-Reading (next st) a (b ∷ bytes) r1).1 in
      let r3 = (stream_get_u8-Reading (next (next st)) b bytes r2).1 in
      let s1 = size_read app undef cap 0 RxState.size_0 s in
      let s2 = set_rx app s1 (record (s1.self.rx) { size = a; state = RxState.size_1 }) in
      let round =
        parse_round_size app undef cap 254 s st (a ∷ b ∷ bytes) phase
          (rw e (unfold is_payload in refl)) r in
      let e1 = parse_round_extended_0 app undef cap a s1 (next st) (b ∷ bytes) refl refl ha r1 in
      let e2 =
        parse_round_extended_1 app undef cap a b s2 (next (next st)) bytes refl refl refl ha hb
          r2 in
      (
        parse_loop_next app undef (suc (suc fuel)) s st s1 (next st) (rw e at round) g.opened
            ∙ parse_loop_next app undef (suc fuel) s1 (next st) s2 (next (next st)) e1 g.opened
            ∙ parse_loop_next app undef fuel s2 (next (next st)) (long_done a b s)
                (next (next (next st))) e2 g.opened,
        r3,
        record {
          started = record {
            opened = g.opened;
            binary = g.binary;
            last = g.last;
            handler = g.handler;
            buffer = g.buffer;
            mask_size = g.mask_size;
          };
          phase = refl;
          masked = refl;
          size = sum;
        },
      )

  -- The outcome of the loop: the payload has been handed over, and the input is used up.
  abbrev pub Delivered : List ℕ → Sys W → ℕ → Stream → Type 0
  Delivered payload s fuel st =
      (s' : Sys W) × (st' : Stream) × (parse_loop app undef fuel s st ≡ some (s', st'))
      × (st'.pos ≡ st.size)
      × (s'.log ≡ message Encoding.binary fin payload ∷ s.log)
      × (s'.self.rx.state ≡ RxState.opcode)
      × (s'.self.state ≡ State.opened)

  pub parse_loop_rest :
      (a b c d p : ℕ) (payload : List ℕ) (fuel : ℕ) (s : Sys W) (st : Stream)
      → Takes app
      → ((k : ℕ) → get_or (a ∷ b ∷ c ∷ d ∷ []) k 0 < 256)
      → Sized s cap fin (length (p ∷ payload))
      → Reading st (a ∷ b ∷ c ∷ d ∷ xor_mask (a ∷ b ∷ c ∷ d ∷ []) 0 (p ∷ payload))
      → AllBytes (p ∷ payload)
      → length (p ∷ payload) ≤ cap
      → length (p ∷ payload) < 65536
      → length (p ∷ payload) < suc fuel
      → Delivered (p ∷ payload) s (suc (suc (suc (suc fuel)))) st
  parse_loop_rest a b c d p payload fuel s st takes small z r hb fits lt enough =
      let mask = a ∷ b ∷ c ∷ d ∷ [] in
      let first =
        parse_loop_mask a b c d (length (p ∷ payload)) fuel s st (xor_mask mask 0 (p ∷ payload)) z
          r in
      let s' = mask_done a b c d s in
      let run =
        parse_loop_payload app undef mask cap small p payload (suc fuel) s'
          (next (next (next (next st)))) [] takes
          (mask_done-Delivering a b c d (length (p ∷ payload)) s z) first.1 hb (omega arith)
          (omega arith) enough in
      let result = after_lem app undef mask cap small takes s' [] p payload z.started.opened in
      (
        after app undef mask cap small takes s' [] p payload,
        run.0,
        first.0 ∙ run.1,
        run.2,
        result.0
            ∙ ap (λ (x : Bool). message Encoding.binary x (p ∷ payload) ∷ s.log) z.started.last,
        result.1,
        result.2,
      )

  -- A whole frame, of which `bytes` is what stands behind the first byte.
  pub parse_loop_start :
      (payload : List ℕ) (fuel : ℕ) (s : Sys W) (st : Stream) (bytes : List ℕ)
      → Awaiting s cap
      → Reading st ((if fin then 130 else 2) ∷ bytes)
      → Delivered payload (opcode_read app undef cap fin s) fuel (next st)
      → Delivered payload s (suc fuel) st
  parse_loop_start payload fuel s st bytes w r (s', st', e, at, log, phase, o) =
      let round = parse_round_opcode app undef cap fin s st bytes w r in
      (
        s',
        st',
        parse_loop_next app undef fuel s st (opcode_read app undef cap fin s) (next st) round
              w.opened
            ∙ e,
        at,
        log,
        phase,
        o,
      )
