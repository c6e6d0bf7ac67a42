-- ===== src/Utf8/Split.antt =====
-- The first character of a text that the automaton accepts.
use wic.Base.{ℕ, ◌+◌, ◌-◌, ◌*◌, ◌≤◌, ◌<◌, ◌≡◌, inl, inr, List, [], ◌∷◌, ◌++◌, arith, length}
use wic.Utf8.{utf8_parse_string}
use wic.Utf8.Text.{IsScalar, encode, AllBytes, next, ends_inside, continues}

-- The code point of a character of one to four bytes, and what makes the bytes its encoding.
join_2 :
    (b d : ℕ)
    → 0xc2 ≤ b
    → b < 0xe0
    → 0x80 ≤ d
    → d ≤ 0xbf
    → let c = (b - 192) * 64 + (d - 128) in IsScalar c × (encode c ≡ b ∷ d ∷ [])
unfolding encode
join_2 b d p q r t = (inl (omega arith), ground arith)

join_3 :
    (b d e : ℕ)
    → 0xe0 ≤ b
    → b < 0xf0
    → 0x80 ≤ d
    → d ≤ 0xbf
    → 0x80 ≤ e
    → e ≤ 0xbf
    → (b ≡ 0xe0 → 0xa0 ≤ d)
    → (b ≡ 0xed → d ≤ 0x9f)
    → let c = (b - 224) * 4096 + (d - 128) * 64 + (e - 128) in
      IsScalar c × (encode c ≡ b ∷ d ∷ e ∷ [])
unfolding encode
join_3 b d e p q r t u v long surrogate = (ground arith, ground arith)

join_4 :
    (b d e f : ℕ)
    → 0xf0 ≤ b
    → b < 0xf5
    → 0x80 ≤ d
    → d ≤ 0xbf
    → 0x80 ≤ e
    → e ≤ 0xbf
    → 0x80 ≤ f
    → f ≤ 0xbf
    → (b ≡ 0xf0 → 0x90 ≤ d)
    → (b ≡ 0xf4 → d ≤ 0x8f)
    → let c = (b - 240) * 262144 + (d - 128) * 4096 + (e - 128) * 64 + (f - 128) in
      IsScalar c × (encode c ≡ b ∷ d ∷ e ∷ f ∷ [])
unfolding encode
join_4 b d e f p q r t u v w x long large = (inr (ground arith), ground arith)

-- The bytes of one character at the front of a text that the automaton accepts, and the rest.
pub record Split (bytes : List ℕ) : Type 0 where
  pub point : ℕ
  pub rest : List ℕ
  pub scalar : IsScalar point
  pub joined : bytes ≡ encode point ++ rest
  pub shorter : length rest < length bytes
  pub rest_bytes : AllBytes rest
  pub accepted : utf8_parse_string 0 rest ≡ 0

pub Split-2 :
    (b : ℕ) (bytes : List ℕ)
    → 0xc2 ≤ b
    → b < 0xe0
    → AllBytes bytes
    → utf8_parse_string 2 bytes ≡ 0
    → Split (b ∷ bytes)
Split-2 b [] p q hb e = absurd (ends_inside 2 (omega arith) e)
Split-2 b (d ∷ r) p q hb e =
    let (lo, hi, acc) = continues 2 d r (omega arith) (omega arith) hb e in
    let (scalar, code) = join_2 b d p q lo hi in
    record {
      point = (b - 192) * 64 + (d - 128);
      rest = r;
      scalar = scalar;
      joined = rw code;
      shorter = omega arith;
      rest_bytes = hb.1;
      accepted = acc;
    }

pub Split-3 :
    (s b : ℕ) (bytes : List ℕ)
    → 3 ≤ s
    → s < 6
    → 0xe0 ≤ b
    → b < 0xf0
    → (b ≡ 0xe0 → s ≡ 4)
    → (b ≡ 0xed → s ≡ 5)
    → AllBytes bytes
    → utf8_parse_string s bytes ≡ 0
    → Split (b ∷ bytes)
Split-3 s b [] ls hs p q four five hb acc0 = absurd (ends_inside s (omega arith) acc0)
Split-3 s b (d ∷ []) ls hs p q four five hb acc0 =
    let (lo, hi, acc) = continues s d [] (omega arith) (omega arith) hb acc0 in
    absurd (ends_inside (next s) (ground arith) acc)
Split-3 s b (d ∷ e ∷ r) ls hs p q four five hb acc0 =
    let (lo, hi, acc) = continues s d (e ∷ r) (omega arith) (omega arith) hb acc0 in
    let two : next s ≡ 2 = ground arith in
    let (lo', hi', acc') = continues 2 e r (omega arith) (omega arith) hb.1 (rw two at acc) in
    let (scalar, code) =
      join_3 b d e p q (ground arith) (ground arith) lo' hi' (λ x. ground (arith, four x))
        (λ x. ground (arith, five x)) in
    record {
      point = (b - 224) * 4096 + (d - 128) * 64 + (e - 128);
      rest = r;
      scalar = scalar;
      joined = rw code;
      shorter = omega arith;
      rest_bytes = hb.1.1;
      accepted = acc';
    }

pub Split-4 :
    (s b : ℕ) (bytes : List ℕ)
    → 6 ≤ s
    → s < 9
    → 0xf0 ≤ b
    → b < 0xf5
    → (b ≡ 0xf0 → s ≡ 6)
    → (b ≡ 0xf4 → s ≡ 8)
    → AllBytes bytes
    → utf8_parse_string s bytes ≡ 0
    → Split (b ∷ bytes)
Split-4 s b [] ls hs p q six eight hb acc0 = absurd (ends_inside s (omega arith) acc0)
Split-4 s b (d ∷ bytes) ls hs p q six eight hb acc0 =
    let (lo, hi, acc) = continues s d bytes (omega arith) (omega arith) hb acc0 in
    let three : next s ≡ 3 = ground arith in
    tail_4 b d bytes p q (ground arith) (ground arith) (λ x. ground (arith, six x))
      (λ x. ground (arith, eight x)) hb.1 (rw three at acc)
  where
    tail_4 :
        (b d : ℕ) (bytes : List ℕ)
        → 0xf0 ≤ b
        → b < 0xf5
        → 0x80 ≤ d
        → d ≤ 0xbf
        → (b ≡ 0xf0 → 0x90 ≤ d)
        → (b ≡ 0xf4 → d ≤ 0x8f)
        → AllBytes bytes
        → utf8_parse_string 3 bytes ≡ 0
        → Split (b ∷ d ∷ bytes)
    tail_4 b d [] p q r t u v hb acc = absurd (ends_inside 3 (omega arith) acc)
    tail_4 b d (e ∷ []) p q r t u v hb acc0 =
        let (lo, hi, acc) = continues 3 e [] (omega arith) (omega arith) hb acc0 in
        absurd (ends_inside 2 (omega arith) acc)
    tail_4 b d (e ∷ f ∷ rest) p q r t u v hb acc0 =
        let (lo, hi, acc) = continues 3 e (f ∷ rest) (omega arith) (omega arith) hb acc0 in
        let (lo', hi', acc') = continues 2 f rest (omega arith) (omega arith) hb.1 acc in
        let (scalar, code) = join_4 b d e f p q r t lo hi lo' hi' u v in
        record {
          point = (b - 240) * 262144 + (d - 128) * 4096 + (e - 128) * 64 + (f - 128);
          rest = rest;
          scalar = scalar;
          joined = rw code;
          shorter = omega arith;
          rest_bytes = hb.1.1;
          accepted = acc';
        }

pub Split-1 :
    (b : ℕ) (bytes : List ℕ)
    → b < 0x80
    → AllBytes bytes
    → utf8_parse_string 0 bytes ≡ 0
    → Split (b ∷ bytes)
unfolding encode
Split-1 b bytes h hb acc = record {
  point = b;
  rest = bytes;
  scalar = inl (omega arith);
  joined = ground arith;
  shorter = omega arith;
  rest_bytes = hb;
  accepted = acc;
}
